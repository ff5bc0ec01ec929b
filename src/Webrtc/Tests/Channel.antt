-- ===== src/Webrtc/Tests/Channel.antt =====
-- Tests of a peer of internal/webrtc/peer.go: an honest mobile proves itself and sends a ping.
use pmux_agent.Base.{
  ℕ, zero, suc, ◌≡◌, refl, ◌⊎◌, true, ◌==◌, [], ◌∷◌, ◌++◌, Option, none, some, ok, Bytes, codes,
  length, str_eq, if◌then◌else◌, All, ap, arith,
}
use pmux_agent.Protocol.Messages.{Kind, Message, kind_of}
use pmux_agent.Protocol.Codec.{Msgpack, encode, decode_request, is_request}
use pmux_agent.Webrtc.Peer.State.{Platform, Dtls, Wakeup, Frame, Peer, new_peer, fail_auth}
use pmux_agent.Webrtc.Peer.Fingerprints.{fingerprints}
use pmux_agent.Webrtc.Peer.Send.{send_message}
use pmux_agent.Webrtc.Peer.Auth.{
  Transcript, Turn, begin_challenge, send_challenge, send_auth_challenge, begin_message, advance,
  handle_data_channel_message,
}
use pmux_agent.Webrtc.Peer.Steps.{
  Opening, Run, open_channel, challenge, deliver, proceed, timeout, start, after_open, Reach, here,
  next,
}
use pmux_agent.Webrtc.Peer.Possession.{IsProven, Checked}
use pmux_agent.Webrtc.Peer.Inbound.{handled-IsProven}
use pmux_agent.Webrtc.Peer.Inbound.Sound.{IsRequest}
use pmux_agent.Webrtc.Peer.Outbound.{sent-IsOpen}
use pmux_agent.Webrtc.Peer.Outbound.Guarded.{IsHandshake, IsOpen}
use pmux_agent.Webrtc.Peer.Phases.{phase-Change}
use pmux_agent.Webrtc.Peer.Phases.Parts.{Change, phase}
use pmux_agent.Webrtc.Peer.Honest.{confirm, proof_then_request}

abbrev zeros : ℕ → Bytes
zeros zero = []
zeros (suc n) = 0 ∷ zeros n

length-zeros : (n : ℕ) → length (zeros n) ≡ n
length-zeros zero = refl
length-zeros (suc n) = ap suc (length-zeros n)

zeros-read : (n : ℕ) (w : ℕ) (b : Bytes) → some (zeros n) ≡ some b → length b ≡ n
zeros-read n w b h = let l = length-zeros n in ground (arith, l)

-- `a` is an auth response, any other byte a ping.
abbrev small_type : Bytes → Option Bytes
small_type [] = none
small_type (b ∷ r) = some (if b == b'a' then codes "auth_response" else codes "ping")

abbrev small_body : Kind → Bytes → Option Message
small_body Kind.auth_response d =
    some (Message.auth_response (record { mac = codes "m"; nonce = codes "n" }))
small_body Kind.ping d = some Message.ping
small_body _ d = none

small_body-kind : (k : Kind) (d : Bytes) (m : Message) → small_body k d ≡ some m → kind_of m ≡ k
unfolding kind_of
small_body-kind Kind.attach d m h = ground arith
small_body-kind _ d m h = ground arith

abbrev small_msgpack : Msgpack
small_msgpack = record {
  marshal = λ m. some (codes "x");
  unmarshal_type = small_type;
  unmarshal = small_body;
  unmarshal-kind = small_body-kind;
}

-- Random bytes are zeros, every MAC is the one byte 1, and the world counts the sends.
abbrev small : Platform
small = record {
  World = ℕ;
  msgpack = small_msgpack;
  read_random = λ n w. (some (zeros n), w);
  read_random-length = zeros-read;
  buffered_amount = λ w. 0;
  await_ready = λ w. (Wakeup.drained, w);
  send = λ d w. (true, suc w);
  dtls = λ w. Dtls.transport (7 ∷ []) (
      some (
        record {
          algorithm = codes "SHA-256";
          value =
              codes
                "00:00:00:00:00:00:00:00:00:00:00:00:00:00:00:00:00:00:00:00:00:00:00:00:00:00:00:00:00:00:00:00";
        }
        ∷ []));
  sha256 = λ d. 2 ∷ [];
  hmac_sha256 = λ k d. 1 ∷ [];
  encode_base64 = λ d. codes "e";
  decode_base64 = λ s. if str_eq s (codes "n") then some (zeros 32) else some (1 ∷ []);
}

fingerprints_read : fingerprints small.sha256 (small.dtls 0) ≡ ok (zeros 32, 2 ∷ [])
unfolding fingerprints
fingerprints_read = refl

abbrev challenged : Peer ℕ
challenged = send_auth_challenge small (new_peer (codes "d") (9 ∷ []) 0)

unfoldable honest_peer : Peer ℕ
unfolding send_auth_challenge new_peer handle_data_channel_message
honest_peer =
    handle_data_channel_message small (codes "p")
      (handle_data_channel_message small (codes "a") challenged)

ping_handled : honest_peer.handled ≡ Message.ping ∷ []
unfolding honest_peer decode_request fingerprints is_request send_message
    pmux_agent.Protocol.Codec.kind_named pmux_agent.Protocol.Codec.is_auth
    pmux_agent.Protocol.Validation.validate
ping_handled = refl

-- The parts of the same exchange, one after the other.
abbrev opened_peer : Peer ℕ
opened_peer = (begin_challenge small (new_peer (codes "d") (9 ∷ []) 0)).1

abbrev waiting_peer : Peer ℕ
waiting_peer = send_challenge small (zeros 32) opened_peer

abbrev proof_1 : Turn × Peer ℕ
proof_1 = begin_message small (codes "a") waiting_peer

abbrev proof_2 : Turn × Peer ℕ
proof_2 = advance small proof_1

abbrev proof_3 : Turn × Peer ℕ
proof_3 = advance small proof_2

abbrev proof_4 : Turn × Peer ℕ
proof_4 = advance small proof_3

abbrev request_1 : Turn × Peer ℕ
request_1 = begin_message small (codes "p") proof_4.1

abbrev request_2 : Turn × Peer ℕ
request_2 = advance small request_1

abbrev run_of : Turn × Peer ℕ → Run ℕ
run_of r = record { opening = Opening.opened; turn = r.0; peer = r.1 }

waiting_reached : Reach small (codes "d") (9 ∷ []) (run_of (Turn.idle, waiting_peer))
unfolding start begin_challenge after_open
waiting_reached =
    next (next (here 0) (open_channel Turn.idle (new_peer (codes "d") (9 ∷ []) 0)))
      (challenge (zeros 32) Turn.idle opened_peer)

proven_reached : Reach small (codes "d") (9 ∷ []) (run_of (Turn.idle, proof_4.1))
unfolding begin_challenge send_challenge new_peer begin_message advance decode_request fingerprints
    is_request send_message pmux_agent.Protocol.Codec.kind_named pmux_agent.Protocol.Codec.is_auth
    pmux_agent.Protocol.Validation.validate
proven_reached =
    next
      (next
        (next (next waiting_reached (deliver Opening.opened (codes "a") waiting_peer))
          (proceed Opening.opened proof_1.0 proof_1.1))
        (proceed Opening.opened proof_2.0 proof_2.1))
      (proceed Opening.opened proof_3.0 proof_3.1)

handled_reached : Reach small (codes "d") (9 ∷ []) (run_of request_2)
handled_reached =
    next (next proven_reached (deliver Opening.opened (codes "p") proof_4.1))
      (proceed Opening.opened request_1.0 request_1.1)

handled-IsProven_example :
    All IsRequest request_2.1.handled
    × ((request_2.1.handled ≡ [])
        ⊎ ((t : Transcript) × IsProven small
              (9 ∷ [])
              request_2.1.received
              request_2.1.challenges
              t))
handled-IsProven_example =
    handled-IsProven small (codes "d") (9 ∷ []) (run_of request_2) handled_reached

sent-IsOpen_example :
    All IsHandshake request_2.1.sent
    ⊎ IsOpen small (9 ∷ []) request_2.1.received request_2.1.challenges request_2.1.sent
sent-IsOpen_example = sent-IsOpen small (codes "d") (9 ∷ []) (run_of request_2) handled_reached

phase-Change_example : Change (phase waiting_peer) (phase (fail_auth waiting_peer))
phase-Change_example =
    phase-Change small (codes "d") (9 ∷ []) (run_of (Turn.idle, waiting_peer)) _ waiting_reached
      (timeout (run_of (Turn.idle, waiting_peer)))

abbrev honest_transcript : Transcript
honest_transcript = record {
  host_nonce = zeros 32;
  mobile_nonce = zeros 32;
  host_fp = zeros 32;
  mobile_fp = 2 ∷ [];
}

abbrev honest_response : Message
honest_response = Message.auth_response (record { mac = codes "m"; nonce = codes "n" })

honest_checked : Checked small honest_response waiting_peer honest_transcript
unfolding begin_challenge send_challenge new_peer send_message fingerprints
    pmux_agent.Webrtc.Peer.Auth.auth_mac
honest_checked = record {
  response = record { mac = codes "m"; nonce = codes "n" };
  kind = refl;
  nonce = refl;
  full = refl;
  mac = refl;
  host = refl;
  challenged = refl;
  prints = refl;
}

proof_then_request_example :
    ((handle_data_channel_message small (codes "a") waiting_peer).sent
      ≡ waiting_peer.sent ++ Frame.message (confirm small honest_transcript waiting_peer) ∷ [])
    × ((handle_data_channel_message small
          (codes "p")
          (handle_data_channel_message small (codes "a") waiting_peer)).handled
        ≡ waiting_peer.handled ++ Message.ping ∷ [])
unfolding begin_challenge send_challenge new_peer decode_request is_request send_message encode
    pmux_agent.Protocol.Codec.kind_named pmux_agent.Protocol.Codec.is_auth
    pmux_agent.Protocol.Validation.validate
proof_then_request_example =
    proof_then_request small waiting_peer (codes "a") honest_response honest_transcript (codes "x")
      (codes "p") Message.ping refl refl refl refl refl refl honest_checked refl refl refl refl refl
