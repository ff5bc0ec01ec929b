-- ===== src/Auth/Pairing.antt =====
-- The key exchange of internal/auth/pairing.go; the cryptography and base64 are parameters.
pub mod Binding
use pmux_agent.Base.{
  ℕ, Bool, true, false, not, [], ◌∷◌, ◌++◌, Option, none, some, Bytes, codes, length, ◌==◌, str_eq,
  if◌then◌else◌, Result, ok, err, ◌>>=◌, ◌>>◌, fail_if,
}
use pmux_agent.Auth.Session.{is_device_id}

pub data PairingError : Type 0 where
  host_key_size mobile_key_size mac_size : ℕ → PairingError
  host_device_id mobile_device_id no_secret no_mac mac_not_base64 key_not_base64 mac_mismatch :
      PairingError
  bad_public_key no_exchange : PairingError

-- `hmac` is HMAC-SHA256 of a key and a text, `hkdf` 32 bytes of HKDF for a secret, salt and info; a
-- failure of `ecdh` is that of the exchange.
pub record Crypto : Type 0 where
  pub decode_base64 : Bytes → Option Bytes
  pub encode_base64 : Bytes → Bytes
  pub hmac : Bytes → Bytes → Bytes
  pub is_public_key : Bytes → Bool
  pub ecdh : Bytes → Bytes → Option Bytes
  pub hkdf : Bytes → Bytes → Bytes → Bytes

-- An `X25519Keypair`.
pub record Keypair : Type 0 where
  pub private_key : Bytes
  pub public_key : Bytes

abbrev pub pair_mac_label : Bytes
pair_mac_label = codes "pocketmux-pair-mac-v2"

abbrev pub pairing_hkdf_label : Bytes
pairing_hkdf_label = codes "pocketmux-pairing-v2"

unfoldable pub decoded : Option Bytes → PairingError → Result PairingError Bytes
decoded none e = err e
decoded (some b) e = ok b

unfoldable pub pair_bind : Bytes → Bytes → Bytes → Bytes → Result PairingError Bytes
pair_bind host_pub mobile_pub host_id mobile_id = do
  fail_if (not (length host_pub == 32)) (PairingError.host_key_size (length host_pub))
  fail_if (not (length mobile_pub == 32)) (PairingError.mobile_key_size (length mobile_pub))
  fail_if (not (is_device_id host_id)) PairingError.host_device_id
  fail_if (not (is_device_id mobile_id)) PairingError.mobile_device_id
  ok (host_pub ++ (mobile_pub ++ (host_id ++ mobile_id)))

module _ (crypto : Crypto) where
  open crypto use {decode_base64, encode_base64, hmac, is_public_key, ecdh, hkdf}

  unfoldable pub pair_mac : Bytes → Bytes → Bytes → Bytes
  pair_mac secret mobile_pub mobile_id = hmac secret (pair_mac_label ++ mobile_pub ++ mobile_id)

  unfoldable pub verify_pair_mac : Bytes → Bytes → Bytes → Bytes → Result PairingError (Unit {0})
  unfolding decoded pair_mac
  verify_pair_mac secret mobile_pub_b64 mobile_id pair_mac_b64 = do
    fail_if (length secret == 0) PairingError.no_secret
    fail_if (length pair_mac_b64 == 0) PairingError.no_mac
    mac ← decoded (decode_base64 pair_mac_b64) PairingError.mac_not_base64
    fail_if (not (length mac == 32)) (PairingError.mac_size (length mac))
    mobile_pub ← decoded (decode_base64 mobile_pub_b64) PairingError.key_not_base64
    fail_if (not (length mobile_pub == 32)) (PairingError.mobile_key_size (length mobile_pub))
    fail_if (not (is_device_id mobile_id)) PairingError.mobile_device_id
    fail_if (not (str_eq (pair_mac secret mobile_pub mobile_id) mac)) PairingError.mac_mismatch

  unfoldable pub compute_shared_secret :
      Keypair → Bytes → Bytes → Bytes → Bytes → Result PairingError Bytes
  unfolding decoded pair_bind
  compute_shared_secret kp peer_pub_b64 secret host_id mobile_id = do
    fail_if (length secret == 0) PairingError.no_secret
    peer ← decoded (decode_base64 peer_pub_b64) PairingError.key_not_base64
    fail_if (not (is_public_key peer)) PairingError.bad_public_key
    bind ← pair_bind kp.public_key peer host_id mobile_id
    raw ← decoded (ecdh kp.private_key peer) PairingError.no_exchange
    ok (encode_base64 (hkdf raw secret (pairing_hkdf_label ++ bind)))
