-- ===== src/Webrtc/Peer/Fingerprints.antt =====
-- `pcDTLSFingerprints` of internal/webrtc/peer.go.
use pmux_agent.Base.{
  ℕ, ◌+◌, ◌-◌, ◌*◌, Bool, not, ◌&&◌, List, [], ◌∷◌, Option, none, some, Bytes, codes, length, leb,
  ◌==◌, str_eq, if◌then◌else◌, Result, ok, err, ◌>>=◌, ◌>>◌, fail_if,
}
use pmux_agent.Webrtc.Peer.State.{Fingerprint, Dtls}

pub data FingerprintError : Type 0 where
  not_established no_sctp no_transport no_remote_certificate : FingerprintError
  no_parameters not_hex wrong_length no_fingerprint : FingerprintError

-- Simple case folding of the characters that fold to a letter of "sha-256": ASCII capitals, and the
-- long s, whose bytes in UTF-8 are 197 and 191.
unfoldable pub fold_case : Bytes → Bytes
fold_case [] = []
fold_case (a ∷ []) = (if leb 65 a && leb a 90 then a + 32 else a) ∷ []
fold_case (a ∷ b ∷ s) =
    let rest = fold_case (b ∷ s) in
    let after = fold_case s in
    if a == 197 && b == 191
    then 115 ∷ after
    else (if leb 65 a && leb a 90 then a + 32 else a) ∷ rest

-- `strings.EqualFold(algorithm, "sha-256")`.
unfoldable pub is_sha256 : Bytes → Bool
unfolding fold_case
is_sha256 algorithm = str_eq (fold_case algorithm) (codes "sha-256")

-- `strings.ReplaceAll(value, ":", "")`.
unfoldable pub without_colons : Bytes → Bytes
without_colons [] = []
without_colons (a ∷ s) = if a == 58 then without_colons s else a ∷ without_colons s

unfoldable pub hex_digit : ℕ → Option ℕ
hex_digit a =
    if leb 48 a && leb a 57
    then some (a - 48)
    else if leb 97 a && leb a 102
    then some (a - 87)
    else if leb 65 a && leb a 70
    then some (a - 55)
    else none

unfoldable pub hex_pair : Option ℕ → Option ℕ → Option Bytes → Option Bytes
hex_pair (some x) (some y) (some rest) = some ((16 * x + y) ∷ rest)
hex_pair _ _ _ = none

-- `hex.DecodeString`.
unfoldable pub decode_hex : Bytes → Option Bytes
unfolding hex_digit hex_pair
decode_hex [] = some []
decode_hex (a ∷ []) = none
decode_hex (a ∷ b ∷ s) = hex_pair (hex_digit a) (hex_digit b) (decode_hex s)

-- What the first fingerprint of the wanted algorithm gives.
unfoldable pub local_sum : List Fingerprint → Result FingerprintError Bytes
unfolding is_sha256 without_colons decode_hex
local_sum [] = err FingerprintError.no_fingerprint
local_sum (fp ∷ fps) =
    if not (is_sha256 fp.algorithm)
    then local_sum fps
    else elim (decode_hex (without_colons fp.value)) [
      | none ↦ err FingerprintError.not_hex
      | some sum ↦ if not (length sum == 32) then err FingerprintError.wrong_length else ok sum
    ]

module _ (sha256 : Bytes → Bytes) where
  -- The digests of the local and of the remote certificate.
  unfoldable pub fingerprints : Dtls → Result FingerprintError (Bytes × Bytes)
  unfolding local_sum
  fingerprints Dtls.no_conn = err FingerprintError.not_established
  fingerprints Dtls.no_sctp = err FingerprintError.no_sctp
  fingerprints Dtls.no_transport = err FingerprintError.no_transport
  fingerprints (Dtls.transport remote parameters) = do
    fail_if (length remote == 0) FingerprintError.no_remote_certificate
    elim parameters [
      | none ↦ err FingerprintError.no_parameters
      | some fps ↦ local_sum fps >>= λ sum. ok (sum, sha256 remote)
    ]
