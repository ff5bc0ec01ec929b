-- ===== src/Webrtc/Signaling/Token.antt =====
-- `parseJWTExpiry`, `ensureToken` and `tokenRefreshLoop` of internal/webrtc/signaling.go.
use pmux_agent.Base.{
  ℕ, ℤ, pos, negsuc, ◌*◌, ◌+◌, ◌-◌, Bool, true, false, not, ◌&&◌, List, [], ◌∷◌, Option, none, some,
  Bytes, length, leb, ltb, ◌==◌, Result, ok, err, if◌then◌else◌,
}
use pmux_agent.Strings.{split}
use pmux_agent.Webrtc.Signaling.State.{
  Server, RequestError, Client, second, token_refresh_margin, jwt_lifetime,
}

abbrev pub min_refresh_backoff : ℕ
min_refresh_backoff = 60 * second

abbrev pub max_refresh_backoff : ℕ
max_refresh_backoff = 15 * 60 * second

-- `time.Unix(exp, 0)`; a time before the epoch is taken for the epoch, which is as long past.
unfoldable pub unix_time : ℤ → ℕ
unix_time (pos n) = n * second
unix_time (negsuc n) = 0

-- The token was read and says when it expires.
unfoldable pub claimed : Option ℤ → Option ℕ
unfolding unix_time
claimed none = none
claimed (some (pos n)) = if n == 0 then none else some (unix_time (pos n))
claimed (some (negsuc n)) = some (unix_time (negsuc n))

-- The variables of `tokenRefreshLoop`: its backoff and the last failure.
pub record Refresh : Type 0 where
  pub fail_backoff : ℕ
  pub last_failure : ℕ

unfoldable pub grown : ℕ → ℕ
grown b =
    if b == 0
    then min_refresh_backoff
    else if leb (2 * b) max_refresh_backoff
    then 2 * b
    else max_refresh_backoff

module _ (server : Server) where
  open server use {World, exchange_token, now, decode_base64_url, exp_claim}

  unfoldable pub expiry_of_payload : Option Bytes → Option ℕ
  unfolding claimed
  expiry_of_payload none = none
  expiry_of_payload (some payload) = claimed (exp_claim payload)

  unfoldable pub expiry_of_parts : List Bytes → Option ℕ
  unfolding expiry_of_payload
  expiry_of_parts (header ∷ payload ∷ signature ∷ []) =
      expiry_of_payload (decode_base64_url payload)
  expiry_of_parts _ = none

  unfoldable pub parse_jwt_expiry : Bytes → Option ℕ
  unfolding expiry_of_parts
  parse_jwt_expiry token = expiry_of_parts (split b'.' token)

  -- `time.Until(sc.jwtExpiry) > TokenRefreshMargin`.
  unfoldable pub outlives : Option ℕ → World → Bool
  outlives none w = false
  outlives (some t) w = ltb (now w + token_refresh_margin) t

  unfoldable pub is_fresh : Client World → Bool
  unfolding outlives
  is_fresh c = not (length c.jwt == 0) && outlives c.jwt_expiry c.world

  unfoldable pub expiry_or_estimate : Option ℕ → World → ℕ
  expiry_or_estimate none w = now w + jwt_lifetime
  expiry_or_estimate (some t) w = t

  unfoldable pub keep_token :
      Result RequestError Bytes × World → Client World → Option RequestError × Client World
  unfolding expiry_or_estimate parse_jwt_expiry
  keep_token (err e, w) c = (some e, record c { world = w })
  keep_token (ok token, w) c = (
    none,
    record c {
      jwt = token;
      jwt_expiry = some (expiry_or_estimate (parse_jwt_expiry token) w);
      world = w;
    },
  )

  unfoldable pub ensure_token : Client World → Option RequestError × Client World
  unfolding is_fresh keep_token
  ensure_token c = if is_fresh c then (none, c) else keep_token (exchange_token c.world) c

  unfoldable pub after_refresh :
      Option RequestError × Client World → Refresh → Refresh × Client World
  unfolding grown
  after_refresh (none, c) r = (record r { fail_backoff = 0 }, c)
  after_refresh (some e, c) r =
      (record { fail_backoff = grown r.fail_backoff; last_failure = now c.world }, c)

  -- `sc.jwtExpiry.Before(time.Now().Add(TokenRefreshMargin))`.
  unfoldable pub needs_refresh : Option ℕ → World → Bool
  needs_refresh none w = true
  needs_refresh (some t) w = ltb t (now w + token_refresh_margin)

  -- One tick of the loop.
  unfoldable pub refresh_tick : Refresh → Client World → Refresh × Client World
  unfolding needs_refresh after_refresh ensure_token
  refresh_tick r c =
      if ltb 0 r.fail_backoff && ltb (now c.world - r.last_failure) r.fail_backoff
      then (r, c)
      else if not (needs_refresh c.jwt_expiry c.world)
      then (r, c)
      else after_refresh (ensure_token c) r
