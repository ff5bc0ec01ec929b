-- ===== src/Protocol/Tests.antt =====
-- Tests of internal/protocol, and the theorems at inputs that meet their hypotheses.
use pmux_agent.Base.{
  ℕ, ◌≤◌, ◌≡◌, ◌≢◌, ◌↔◌, ◌⊎◌, refl, Bool, true, false, ℤ, pos, Bytes, codes, length, [], ◌∷◌,
  Option, none, some, ok, err, arith,
}
use pmux_agent.Protocol.Messages.{Message, Kind, AttachRequest, kind_of, message_type}
use pmux_agent.Protocol.Validation.{FieldError, validate}
use pmux_agent.Protocol.Validation.Bounds.{IsInBounds, validate_iff}
use pmux_agent.Protocol.Codec.{
  Msgpack, DecodeError, is_request, is_event, encode, decode, decode_request,
}
use pmux_agent.Protocol.Codec.Gate.{decode_request_sound, decode_request_iff}
use pmux_agent.Protocol.Codec.RoundTrip.{Inverts, decode-encode}

abbrev attach_body : AttachRequest
attach_body = record {
  pane_id = codes "%0";
  cols = pos 80;
  rows = pos 24;
  reattach = false;
  compression = codes "deflate";
}

-- A format with two messages: `a` is an attach request, and `p` a pong event of latency 3.
abbrev toy_marshal : Message → Option Bytes
toy_marshal (Message.attach m) = none
toy_marshal (Message.ping) = some (codes "n")
toy_marshal _ = none

abbrev toy_type : Bytes → Option Bytes
toy_type [] = none
toy_type (b ∷ []) = elim (pmux_agent.Base.◌==◌ b b'n') [
  | true ↦ some (codes "ping")
  | false ↦ elim (pmux_agent.Base.◌==◌ b b'p') [
    | true ↦ some (codes "pong")
    | false ↦ some (codes "attach")
  ]
]
toy_type (b ∷ c ∷ r) = some []

abbrev toy_body : Kind → Bytes → Option Message
toy_body Kind.attach d = some (Message.attach attach_body)
toy_body Kind.pong d = some (Message.pong (pos 3))
toy_body Kind.ping d = some Message.ping
toy_body _ d = none

toy_body-kind : (k : Kind) (d : Bytes) (m : Message) → toy_body k d ≡ some m → kind_of m ≡ k
unfolding kind_of
toy_body-kind Kind.attach d m h = ground arith
toy_body-kind _ d m h = ground arith

abbrev toy : Msgpack
toy = record {
  marshal = toy_marshal;
  unmarshal_type = toy_type;
  unmarshal = toy_body;
  unmarshal-kind = toy_body-kind;
}

toy-Inverts : Inverts toy
unfolding message_type
toy-Inverts = record { type_back = types; body_back = bodies }
  where
    types : (m : Message) (d : Bytes) → toy_marshal m ≡ some d → toy_type d ≡ some (message_type m)
    types Message.ping d h = ground arith
    types _ d h = ground arith

    bodies : (m : Message) (d : Bytes) → toy_marshal m ≡ some d → toy_body (kind_of m) d ≡ some m
    bodies Message.ping d h = ground arith
    bodies _ d h = ground arith

attach_accepted : decode_request toy (codes "a") ≡ ok (Message.attach attach_body)
unfolding decode_request validate is_request pmux_agent.Protocol.Codec.kind_named
attach_accepted = refl

pong_decoded : decode toy (codes "p") ≡ ok (Message.pong (pos 3))
unfolding decode validate pmux_agent.Protocol.Codec.kind_named
pong_decoded = refl

no_type : decode toy (codes "xy") ≡ err DecodeError.missing_type
unfolding decode
no_type = refl

too_wide :
    validate (Message.attach (record attach_body { cols = pos 501 }))
    ≡ err (FieldError.out_of_range (codes "attach") (codes "cols"))
unfolding validate
too_wide = refl

validate_iff_example :
    (validate (Message.attach attach_body) ≡ ok tt) ↔ IsInBounds (Message.attach attach_body)
validate_iff_example = validate_iff (Message.attach attach_body)

decode_request_sound_example :
    ((is_request (kind_of (Message.attach attach_body)) ≡ true)
      ⊎ (kind_of (Message.attach attach_body) ≡ Kind.auth_response))
    × (length (codes "a") ≤ 1048576)
    × (toy.unmarshal_type (codes "a") ≡ some (message_type (Message.attach attach_body)))
    × IsInBounds (Message.attach attach_body)
decode_request_sound_example =
    decode_request_sound toy (codes "a") (Message.attach attach_body) attach_accepted

decode_request_iff_example : (decode_request toy (codes "p") ≡ ok (Message.pong (pos 3))) ↔ (
    (decode toy (codes "p") ≡ ok (Message.pong (pos 3)))
    × (is_event (kind_of (Message.pong (pos 3))) ≡ false))
decode_request_iff_example = decode_request_iff toy (codes "p") (Message.pong (pos 3))

decode-encode_example :
    (decode toy (codes "n") ≡ ok Message.ping)
    ↔ ((length (codes "n") ≤ 1048576) × IsInBounds Message.ping)
unfolding encode
decode-encode_example = decode-encode toy Message.ping (codes "n") toy-Inverts refl
