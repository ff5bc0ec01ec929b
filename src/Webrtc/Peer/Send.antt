-- ===== src/Webrtc/Peer/Send.antt =====
-- `SendMessageContext`, `SendRaw` and `waitForSendReady` of internal/webrtc/peer.go.
use pmux_agent.Base.{
  ℕ, ◌*◌, Bool, true, false, not, ◌&&◌, ◌||◌, [], ◌∷◌, ◌++◌, Option, none, some, Bytes, codes, ltb,
  leb, str_eq, if◌then◌else◌,
}
use pmux_agent.Protocol.Messages.{Message, message_type}
use pmux_agent.Protocol.Codec.{encode}
use pmux_agent.Webrtc.Peer.State.{Wakeup, Platform, Frame, Peer}

abbrev pub max_buffered_amount : ℕ
max_buffered_amount = 512 * 1024

abbrev pub max_control_buffered_amount : ℕ
max_control_buffered_amount = 2 * max_buffered_amount

pub data SendError : Type 0 where
  is_closed no_channel not_authenticated bad_message buffer_full not_sent : SendError
  backpressure : Wakeup → SendError

unfoldable pub is_auth_handshake : Message → Bool
unfolding message_type
is_auth_handshake m =
    str_eq (message_type m) (codes "auth_challenge")
    || str_eq (message_type m) (codes "auth_confirm")

-- Why a send is refused before anything is encoded; `handshake` says whether the message may go out
-- before the authentication is confirmed.
unfoldable pub refusal : {W : Type 0} → Bool → Peer W → Option SendError
refusal handshake p =
    if p.closed
    then some SendError.is_closed
    else if not p.has_channel
    then some SendError.no_channel
    else if not p.auth_confirmed && not handshake
    then some SendError.not_authenticated
    else none

unfoldable pub woken : Wakeup → Option SendError
woken Wakeup.drained = none
woken Wakeup.closed = some (SendError.backpressure Wakeup.closed)
woken Wakeup.stopped = some (SendError.backpressure Wakeup.stopped)
woken Wakeup.canceled = some (SendError.backpressure Wakeup.canceled)
woken Wakeup.timed_out = some (SendError.backpressure Wakeup.timed_out)

module _ (platform : Platform) where
  open platform use {World, msgpack, buffered_amount, await_ready, send}

  unfoldable pub wait_for_send_ready : World → Option SendError × World
  unfolding woken
  wait_for_send_ready w =
      if leb (buffered_amount w) max_buffered_amount
      then (none, w)
      else let (wakeup, v) = await_ready w in (woken wakeup, v)

  -- An output event waits for the buffer; any other message is refused if the buffer is too full.
  unfoldable pub message_gate : Message → World → Option SendError × World
  unfolding wait_for_send_ready
  message_gate m w = elim m [
    | Message.output d ↦ wait_for_send_ready w
    | _ ↦
        if ltb max_control_buffered_amount (buffered_amount w)
        then (some SendError.buffer_full, w)
        else (none, w)
  ]

  unfoldable pub after_send : Frame → Bool × World → Peer World → Option SendError × Peer World
  after_send f (true, w) p = (none, record p { sent = p.sent ++ f ∷ []; world = w })
  after_send f (false, w) p = (some SendError.not_sent, record p { world = w })

  unfoldable pub send_if_open :
      Frame → Bytes → Option SendError × World → Peer World → Option SendError × Peer World
  unfolding after_send
  send_if_open f d (some e, w) p = (some e, record p { world = w })
  send_if_open f d (none, w) p = after_send f (send d w) p

  unfoldable pub send_encoded : Message → Option Bytes → Peer World → Option SendError × Peer World
  unfolding send_if_open message_gate
  send_encoded m none p = (some SendError.bad_message, p)
  send_encoded m (some d) p = send_if_open (Frame.message m) d (message_gate m p.world) p

  unfoldable pub send_message : Message → Peer World → Option SendError × Peer World
  unfolding send_encoded refusal is_auth_handshake encode
  send_message m p = elim (refusal (is_auth_handshake m) p) [
    | some e ↦ (some e, p)
    | none ↦ send_encoded m (encode msgpack m) p
  ]

  unfoldable pub send_raw : Bytes → Peer World → Option SendError × Peer World
  unfolding send_if_open refusal wait_for_send_ready
  send_raw d p = elim (refusal false p) [
    | some e ↦ (some e, p)
    | none ↦ send_if_open (Frame.raw d) d (wait_for_send_ready p.world) p
  ]
