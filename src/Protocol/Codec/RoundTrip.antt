-- ===== src/Protocol/Codec/RoundTrip.antt =====
-- internal/protocol/codec.go: `Decode` after `Encode`.
use pmux_agent.Base.{false, ◌≤◌, ◌≡◌, ◌↔◌, Bytes, length, some, ok}
use pmux_agent.Protocol.Messages.{Message, kind_of, message_type}
use pmux_agent.Protocol.Validation.Bounds.{IsInBounds}
use pmux_agent.Protocol.Codec.{Msgpack, encode, decode}
use pmux_agent.Protocol.Codec.Gate.{decode_with_sound, decode_with_complete}

-- MessagePack reads back what it wrote: the type field and the struct.
pub record Inverts (mp : Msgpack) : Type 0 where
  pub type_back :
      (m : Message) (d : Bytes)
      → mp.marshal m ≡ some d
      → mp.unmarshal_type d ≡ some (message_type m)
  pub body_back :
      (m : Message) (d : Bytes) → mp.marshal m ≡ some d → mp.unmarshal (kind_of m) d ≡ some m

-- If MessagePack inverts its own encoding, an encoded message is decoded to itself exactly when it
-- fits in the size limit and its fields are within their bounds.
pub decode-encode :
    (mp : Msgpack) (m : Message) (d : Bytes)
    → Inverts mp
    → encode mp m ≡ some d
    → (decode mp d ≡ ok m) ↔ ((length d ≤ 1048576) × IsInBounds m)
unfolding encode decode
decode-encode mp m d laws e = (
  λ h. let (facts, _) = decode_with_sound mp d false m h in (facts.fits, facts.bounded),
  λ h.
      decode_with_complete mp d false m
        (record {
          fits = h.0;
          named = laws.type_back m d e;
          body = laws.body_back m d e;
          bounded = h.1;
        })
        tt,
)
