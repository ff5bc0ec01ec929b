-- ===== src/Config/Usable.antt =====
-- What a validated configuration of internal/config/config.go is, and the interval that it gives.
use pmux_agent.Base.{
  ℕ, ◌*◌, ◌≤◌, ◌<◌, ◌≡◌, ◌≢◌, ◌↔◌, ◌⊎◌, inl, inr, refl, ℤ, pos, negsuc, int_eq, true, false, ◌||◌,
  [], ◌∷◌, Option, none, some, Bytes, codes, str_eq, ◌++◌, ◌==◌, ==_iff, ==_refl, str_eq_iff,
  str_eq→eq, int_eq→eq, if◌then◌else◌, ok, err, Bool-cases, arith,
}
use pmux_agent.Strings.{has_prefix}
use pmux_agent.Config.Settings.{Config}
use pmux_agent.Config.Check.{
  ConfigError, Checked, second, is_positive, positive, clamp, valid_scheme, known_backend,
  level_named, to_lower, is_some, check_positive, check_update_interval, validate, parsed_keepalive,
  keepalive_interval,
}

abbrev pub IsPositive : ℤ → Type 0
IsPositive (pos n) = 0 < n
IsPositive (negsuc n) = ⊥

abbrev pub IsWithin : ℤ → ℕ → Type 0
IsWithin (pos n) m = n ≤ m
IsWithin (negsuc n) m = Unit {0}

clamp-positive :
    (o : Option ℤ) → IsPositive (clamp (positive o)) × IsWithin (clamp (positive o)) (45 * second)
unfolding clamp positive
clamp-positive none = ground arith
clamp-positive (some (pos n)) = ground arith
clamp-positive (some (negsuc n)) = ground arith

-- `s` begins with `p`.
unfoldable pub Begins : Bytes → Bytes → Type 0
Begins p s = (rest : Bytes) × (s ≡ p ++ rest)

unfoldable pub HasScheme : Bytes → Type 0
HasScheme url =
    Begins (codes "ws://") url
    ⊎ (Begins (codes "wss://") url ⊎ (Begins (codes "http://") url ⊎ Begins (codes "https://") url))

unfoldable pub IsLevelWord : Bytes → Type 0
IsLevelWord l =
    (l ≡ codes "debug") ⊎ ((l ≡ codes "info") ⊎ ((l ≡ codes "warn") ⊎ (l ≡ codes "error")))

cons-Begins : (b c : ℕ) (p s : Bytes) → (b == c) ≡ true → Begins p s → Begins (c ∷ p) (b ∷ s)
unfolding Begins
cons-Begins b c p s e (rest, h) = (rest, rw ((==_iff b c).0 e, h) refl)

has_prefix-Begins : (s p : Bytes) → has_prefix s p ≡ true → Begins p s
unfolding has_prefix Begins
has_prefix-Begins s [] h = (s, refl)
has_prefix-Begins [] (c ∷ p) h = absurd cc
has_prefix-Begins (b ∷ s) (c ∷ p) h =
    cons-Begins b c p s (ground (arith, h)) (has_prefix-Begins s p (ground (arith, h)))

prefix_of_append : (p rest : Bytes) → has_prefix (p ++ rest) p ≡ true
unfolding has_prefix
prefix_of_append [] rest = refl
prefix_of_append (c ∷ p) rest = rw ==_refl (prefix_of_append p rest)

Begins-has_prefix : (s p : Bytes) → Begins p s → has_prefix s p ≡ true
unfolding Begins
Begins-has_prefix s p (rest, h) = rw h (prefix_of_append p rest)

valid_scheme-HasScheme : (url : Bytes) → valid_scheme url ≡ true → HasScheme url
unfolding valid_scheme HasScheme
valid_scheme-HasScheme url h = elim (Bool-cases (has_prefix url (codes "ws://"))) [
  | inl e ↦ inl (has_prefix-Begins url _ e)
  | inr a ↦ elim (Bool-cases (has_prefix url (codes "wss://"))) [
    | inl e ↦ inr (inl (has_prefix-Begins url _ e))
    | inr b ↦ elim (Bool-cases (has_prefix url (codes "http://"))) [
      | inl e ↦ inr (inr (inl (has_prefix-Begins url _ e)))
      | inr c ↦ inr (inr (inr (has_prefix-Begins url _ (ground (arith, h, a, b, c)))))
    ]
  ]
]

HasScheme-valid_scheme : (url : Bytes) → HasScheme url → valid_scheme url ≡ true
unfolding valid_scheme HasScheme
HasScheme-valid_scheme url (inl h) = let e = Begins-has_prefix url _ h in ground (arith, e)
HasScheme-valid_scheme url (inr (inl h)) = let e = Begins-has_prefix url _ h in ground (arith, e)
HasScheme-valid_scheme url (inr (inr (inl h))) =
    let e = Begins-has_prefix url _ h in ground (arith, e)
HasScheme-valid_scheme url (inr (inr (inr h))) =
    let e = Begins-has_prefix url _ h in ground (arith, e)

known_backend-word :
    (b : Bytes)
    → (known_backend b ≡ true) ↔ ((b ≡ codes "auto") ⊎ ((b ≡ codes "keyring") ⊎ (b ≡ codes "file")))
unfolding known_backend
known_backend-word b =
    let x = str_eq_iff b (codes "auto") in
    let y = str_eq_iff b (codes "keyring") in
    let z = str_eq_iff b (codes "file") in
    (
      λ h. elim (Bool-cases (str_eq b (codes "auto"))) [
        | inl e ↦ inl (x.0 e)
        | inr f ↦ elim (Bool-cases (str_eq b (codes "keyring"))) [
          | inl e ↦ inr (inl (y.0 e))
          | inr g ↦ inr (inr (z.0 (ground (arith, h, f, g))))
        ]
      ],
      λ h. elim h [
        | inl e ↦ (let k = x.1 e in ground (arith, k))
        | inr (inl e) ↦ (let k = y.1 e in ground (arith, k))
        | inr (inr e) ↦ (let k = z.1 e in ground (arith, k))
      ],
    )

level_named-IsLevelWord : (l : Bytes) → is_some (level_named l) ≡ true → IsLevelWord l
unfolding level_named is_some IsLevelWord
level_named-IsLevelWord l h = elim (Bool-cases (str_eq l (codes "debug"))) [
  | inl e ↦ inl ((str_eq_iff l _).0 e)
  | inr a ↦ elim (Bool-cases (str_eq l (codes "info"))) [
    | inl e ↦ inr (inl ((str_eq_iff l _).0 e))
    | inr b ↦ elim (Bool-cases (str_eq l (codes "warn"))) [
      | inl e ↦ inr (inr (inl ((str_eq_iff l _).0 e)))
      | inr c ↦ inr (inr (inr ((str_eq_iff l _).0 (ground (arith, h, a, b, c)))))
    ]
  ]
]

IsLevelWord-level_named : (l : Bytes) → IsLevelWord l → is_some (level_named l) ≡ true
unfolding level_named is_some IsLevelWord
IsLevelWord-level_named l (inl e) = rw e refl
IsLevelWord-level_named l (inr (inl e)) = rw e refl
IsLevelWord-level_named l (inr (inr (inl e))) = rw e refl
IsLevelWord-level_named l (inr (inr (inr e))) = rw e refl

module _ (parse_duration : Bytes → Option ℤ) where
  -- Whatever is configured, the keepalive interval is positive and at most 45 seconds.
  pub keepalive_interval_bounds :
      (c : Config)
      → IsPositive (keepalive_interval parse_duration c)
        × IsWithin (keepalive_interval parse_duration c) (45 * second)
  unfolding keepalive_interval parsed_keepalive
  keepalive_interval_bounds c = clamp-positive (parse_duration c.connection.keepalive_interval)

  pub record IsAccepted (c : Config) : Type 0 where
    pub scheme : HasScheme c.server.url
    pub version : (c.server.api_version ≡ []) ⊎ (c.server.api_version ≡ codes "v1")
    pub backend :
        (c.identity.secret_backend ≡ codes "auto")
        ⊎ ((c.identity.secret_backend ≡ codes "keyring")
            ⊎ (c.identity.secret_backend ≡ codes "file"))
    pub reconnect : (d : ℤ) × (parse_duration c.connection.reconnect_interval ≡ some d)
    pub keepalive :
        (d : ℤ) × (parse_duration c.connection.keepalive_interval ≡ some d) × IsPositive d
    pub one_mobile : c.connection.max_mobile_connections ≡ pos 1
    pub socket : c.tmux.socket_name ≢ []
    pub updates :
        (c.update.check_interval ≡ [])
        ⊎ ((d : ℤ) × (parse_duration c.update.check_interval ≡ some d) × IsPositive d)
    pub level : IsLevelWord (to_lower c.log_level)

  str_nonempty : (v : Bytes) → str_eq v [] ≡ false → v ≢ []
  str_nonempty [] h e = cc
  str_nonempty (b ∷ v) h e = cc

  IsPositive-found :
      (o : Option ℤ) (bad low : ConfigError)
      → elim o as (λ _. Checked) [
        | none ↦ err bad
        | some d ↦ if is_positive d then ok tt else err low
      ]
        ≡ ok tt
      → (d : ℤ) × (o ≡ some d) × IsPositive d
  IsPositive-found none bad low h = absurd (cc)
  IsPositive-found (some (pos n)) bad low h = (pos n, refl, ground arith)
  IsPositive-found (some (negsuc n)) bad low h = absurd (cc)

  check_positive-found :
      (v : Bytes) (bad low : ConfigError)
      → check_positive parse_duration v bad low ≡ ok tt
      → (d : ℤ) × (parse_duration v ≡ some d) × IsPositive d
  unfolding check_positive
  check_positive-found v bad low h = IsPositive-found (parse_duration v) bad low h

  updates-found :
      (v : Bytes)
      → check_update_interval parse_duration v ≡ ok tt
      → (v ≡ []) ⊎ ((d : ℤ) × (parse_duration v ≡ some d) × IsPositive d)
  unfolding check_update_interval
  updates-found [] h = inl refl
  updates-found (b ∷ v) h = inr (check_positive-found (b ∷ v) _ _ h)

  is_some-found : {A : Type 0} (o : Option A) → is_some o ≡ true → (a : A) × (o ≡ some a)
  unfolding is_some
  is_some-found none h = absurd (cc)
  is_some-found (some a) h = (a, refl)

  -- What each guard of `validate` has let through.
  record Guards (c : Config) : Type 0 where
    scheme : valid_scheme c.server.url ≡ true
    version : (str_eq c.server.api_version [] || str_eq c.server.api_version (codes "v1")) ≡ true
    backend : known_backend c.identity.secret_backend ≡ true
    reconnect : is_some (parse_duration c.connection.reconnect_interval) ≡ true
    keepalive :
        check_positive parse_duration c.connection.keepalive_interval
          ConfigError.bad_keepalive_interval ConfigError.keepalive_not_positive
        ≡ ok tt
    one_mobile : int_eq c.connection.max_mobile_connections (pos 1) ≡ true
    socket : str_eq c.tmux.socket_name [] ≡ false
    updates : check_update_interval parse_duration c.update.check_interval ≡ ok tt
    level : is_some (level_named (to_lower c.log_level)) ≡ true

  validate-Guards : (c : Config) → validate parse_duration c ≡ ok tt → Guards c
  unfolding validate
  validate-Guards c h = record {
    scheme = ground arith;
    version = ground arith;
    backend = ground arith;
    reconnect = ground arith;
    keepalive = ground arith;
    one_mobile = ground arith;
    socket = ground arith;
    updates = ground arith;
    level = ground arith;
  }

  scheme-nonempty : (url : Bytes) → valid_scheme url ≡ true → str_eq url [] ≡ false
  unfolding valid_scheme has_prefix
  scheme-nonempty [] h = cc
  scheme-nonempty (b ∷ url) h = refl

  Guards-validate : (c : Config) → Guards c → validate parse_duration c ≡ ok tt
  unfolding validate
  Guards-validate c g = ground (
    arith,
    scheme-nonempty c.server.url g.scheme,
    g.scheme,
    g.version,
    g.backend,
    g.reconnect,
    g.keepalive,
    g.one_mobile,
    g.socket,
    g.updates,
    g.level,
  )

  either : (v w : Bytes) → (str_eq v [] || str_eq v w) ≡ true → (v ≡ []) ⊎ (v ≡ w)
  either v w h = elim (Bool-cases (str_eq v [])) [
    | inl empty ↦ inl (str_eq→eq v [] empty)
    | inr full ↦ inr (str_eq→eq v w (ground arith))
  ]

  check_positive-found_back :
      (v : Bytes) (bad low : ConfigError) (d : ℤ)
      → parse_duration v ≡ some d
      → IsPositive d
      → check_positive parse_duration v bad low ≡ ok tt
  unfolding check_positive
  check_positive-found_back v bad low (pos n) e p = rw (e, check_positive) (ground (arith, p))
  check_positive-found_back v bad low (negsuc n) e p = absurd p

  updates-found_back :
      (v : Bytes)
      → (v ≡ []) ⊎ ((d : ℤ) × (parse_duration v ≡ some d) × IsPositive d)
      → check_update_interval parse_duration v ≡ ok tt
  unfolding check_update_interval
  updates-found_back [] u = refl
  updates-found_back (b ∷ v) (inl e) = absurd (cc)
  updates-found_back (b ∷ v) (inr (d, e, p)) = check_positive-found_back (b ∷ v) _ _ d e p

  either_back : (v w : Bytes) → (v ≡ []) ⊎ (v ≡ w) → (str_eq v [] || str_eq v w) ≡ true
  either_back v w h = ground (arith, str_eq_iff v [], str_eq_iff v w)

  nonempty-str : (v : Bytes) → v ≢ [] → str_eq v [] ≡ false
  nonempty-str [] h = absurd (h refl)
  nonempty-str (b ∷ v) h = refl

  IsAccepted-Guards : (c : Config) → IsAccepted c → Guards c
  unfolding is_some
  IsAccepted-Guards c u = record {
    scheme = HasScheme-valid_scheme _ u.scheme;
    version = either_back _ _ u.version;
    backend = (known_backend-word _).1 u.backend;
    reconnect = rw (u.reconnect.1, is_some) refl;
    keepalive = check_positive-found_back _ _ _ u.keepalive.0 u.keepalive.1 u.keepalive.2;
    one_mobile = rw u.one_mobile refl;
    socket = nonempty-str _ u.socket;
    updates = updates-found_back _ u.updates;
    level = IsLevelWord-level_named _ u.level;
  }

  Guards-IsAccepted : (c : Config) → Guards c → IsAccepted c
  Guards-IsAccepted c g = record {
    scheme = valid_scheme-HasScheme _ g.scheme;
    version = either _ _ g.version;
    backend = (known_backend-word _).0 g.backend;
    reconnect = is_some-found _ g.reconnect;
    keepalive = check_positive-found _ _ _ g.keepalive;
    one_mobile = int_eq→eq _ _ g.one_mobile;
    socket = str_nonempty c.tmux.socket_name g.socket;
    updates = updates-found _ g.updates;
    level = level_named-IsLevelWord _ g.level;
  }

  -- A configuration validates exactly if its URL begins with `ws://`, `wss://`, `http://` or `https://`, its
  -- API version is empty or `v1`, its secret backend is `auto`, `keyring` or `file`, its intervals parse,
  -- those for keepalive and update checks are positive (the latter may be left empty; that for
  -- reconnects may have any sign), it has one mobile connection, a socket name, and a log level that is
  -- `debug`, `info`, `warn` or `error` in any case.
  pub validate-IsAccepted : (c : Config) → (validate parse_duration c ≡ ok tt) ↔ IsAccepted c
  validate-IsAccepted c = (
    λ h. Guards-IsAccepted c (validate-Guards c h),
    λ u. Guards-validate c (IsAccepted-Guards c u),
  )
