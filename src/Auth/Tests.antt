-- ===== src/Auth/Tests.antt =====
-- Tests of the pairing session and the key exchange of internal/auth.
use pmux_agent.Base.{◌≡◌, ◌⊎◌, ◌↔◌, refl, true, false, List, [], ◌∷◌, none, some, Bytes, codes, ok}
use pmux_agent.Base.{◌++◌, take, err}
use pmux_agent.Auth.Pairing.{PairingError, Crypto, pair_bind, verify_pair_mac}
use pmux_agent.Auth.Pairing.Binding.{pair_bind_injective}
use pmux_agent.Auth.Session.{
  is_device_id, PairComplete, Frame, Decision, SessionError, Session, dial_pair_session,
  wait_for_pair_complete, accept, close, Call, call_all,
}
use pmux_agent.Auth.Session.Reads.{Answers}
use pmux_agent.Auth.Session.Answered.{IsDone, closed-IsDone}
use pmux_agent.Auth.Session.Commits.{IsPaired, accept_iff}

abbrev device : Bytes
device = codes "0123456789abcdef0123456789abcdef"

abbrev mobile : PairComplete
mobile = record {
  mobile_device_id = device;
  mobile_x25519_public_key = [];
  mobile_name = codes "phone";
  pair_mac = [];
}

-- The mobile is faster than the reply to the authentication.
abbrev early : List Frame
early = Frame.pair_complete mobile ∷ Frame.auth ∷ Frame.other ∷ Frame.pair_result device true ∷ []

abbrev dialed : Session
dialed = record {
  confirm = true;
  received = some mobile;
  waited = false;
  decided = false;
  closed = false;
  inbox = Frame.other ∷ Frame.pair_result device true ∷ [];
  attempts = [];
}

is_dialed : dial_pair_session true true early ≡ ok dialed
unfolding dial_pair_session
is_dialed = refl

is_valid : (wait_for_pair_complete false dialed).0 ≡ none
unfolding wait_for_pair_complete
is_valid = refl

is_accepted : (accept true dialed).0 ≡ none
unfolding accept
is_accepted = refl

-- A session that is closed without a decision rejects the mobile.
is_rejected : (close true dialed).1.attempts ≡ (Decision.pair_reject, device) ∷ []
unfolding close
is_rejected = refl

-- The mobile of an old session: the result for it is read over.
is_other :
    (accept true (record dialed { inbox = Frame.pair_result [] true ∷ [] })).0
    ≡ some SessionError.no_result
unfolding accept
is_other = refl

closed-IsDone_example :
    let t = (close true (call_all (Call.waits false ∷ []) dialed)).1 in
    IsDone t × Answers t.received t.attempts × ((t.confirm ≡ true) ⊎ (t.attempts ≡ []))
unfolding dial_pair_session
closed-IsDone_example = closed-IsDone true true early dialed (Call.waits false ∷ []) true refl

accept_iff_example : ((accept true dialed).0 ≡ none) ↔ IsPaired true dialed
accept_iff_example = accept_iff true dialed

-- Everything is its own encoding, and a MAC is the first 32 bytes of its text.
abbrev toy : Crypto
toy = record {
  decode_base64 = λ b. some b;
  encode_base64 = λ b. b;
  hmac = λ k t. take 32 t;
  is_public_key = λ b. true;
  ecdh = λ private public. some public;
  hkdf = λ raw salt info. take 32 info;
}

abbrev other_device : Bytes
other_device = codes "ffffffffffffffffffffffffffffffff"

abbrev bound : Bytes
bound = device ++ other_device ++ device ++ other_device

is_proven :
    verify_pair_mac toy (codes "s") device device (codes "pocketmux-pair-mac-v20123456789a") ≡ ok tt
unfolding verify_pair_mac is_device_id
is_proven = refl

is_unproven : verify_pair_mac toy (codes "s") device device device ≡ err PairingError.mac_mismatch
unfolding verify_pair_mac is_device_id
is_unproven = refl

has_no_mac : verify_pair_mac toy (codes "s") device device [] ≡ err PairingError.no_mac
unfolding verify_pair_mac is_device_id
has_no_mac = refl

pair_bind_injective_example :
    (device ≡ device)
    × (other_device ≡ other_device)
    × (device ≡ device)
    × (other_device ≡ other_device)
unfolding pair_bind is_device_id
pair_bind_injective_example =
    pair_bind_injective device other_device device other_device device other_device device
      other_device bound refl refl
