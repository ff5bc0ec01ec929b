-- ===== src/Webrtc/Peer/Steps.antt =====
-- What happens to a `Peer` of internal/webrtc/peer.go, one critical section at a time: its data
-- channel opens and delivers messages, its authentication timer fires, other goroutines send on it,
-- and the manager stops and closes it, in any order.
use pmux_agent.Base.{◌≡◌, false, Option, none, some, Bytes}
use pmux_agent.Protocol.Messages.{Message}
use pmux_agent.Webrtc.Peer.State.{
  Platform, Peer, new_peer, fail_auth, release_sends, stop_dispatch, close,
}
use pmux_agent.Webrtc.Peer.Send.{is_auth_handshake, send_message, send_raw}
use pmux_agent.Webrtc.Peer.Auth.{Turn, begin_challenge, send_challenge, begin_message, advance}

-- How far the `OnOpen` callback has come; a data channel opens once.
pub data Opening : Type 0 where
  unopened opened : Opening
  challenging : Bytes → Opening

unfoldable pub after_open : Option Bytes → Opening
after_open none = Opening.opened
after_open (some nonce) = Opening.challenging nonce

-- A peer with its two callbacks.
pub record Run (W : Type 0) : Type 0 where
  pub opening : Opening
  pub turn : Turn
  pub peer : Peer W

module _ (platform : Platform) where
  open platform use {World}

  -- The handler, the lock of `stopDispatch` and the delivery of messages exclude each other; all else
  -- may come at any point. Only the peer itself sends the messages of the handshake.
  pub data Step : Run World → Run World → Type 0 where
    open_channel :
        (t : Turn) (p : Peer World)
        → Step
            (record { opening = Opening.unopened; turn = t; peer = p })
            (record {
              opening = after_open (begin_challenge platform p).0;
              turn = t;
              peer = (begin_challenge platform p).1;
            })
    challenge :
        (nonce : Bytes) (t : Turn) (p : Peer World)
        → Step
            (record { opening = Opening.challenging nonce; turn = t; peer = p })
            (record { opening = Opening.opened; turn = t; peer = send_challenge platform nonce p })
    deliver :
        (o : Opening) (d : Bytes) (p : Peer World)
        → Step
            (record { opening = o; turn = Turn.idle; peer = p })
            (record {
              opening = o;
              turn = (begin_message platform d p).0;
              peer = (begin_message platform d p).1;
            })
    proceed :
        (o : Opening) (t : Turn) (p : Peer World)
        → Step
            (record { opening = o; turn = t; peer = p })
            (record {
              opening = o;
              turn = (advance platform (t, p)).0;
              peer = (advance platform (t, p)).1;
            })
    timeout : (r : Run World) → Step r (record r { peer = fail_auth r.peer })
    send :
        (r : Run World) (m : Message)
        → is_auth_handshake m ≡ false
        → Step r (record r { peer = (send_message platform m r.peer).1 })
    send_bytes :
        (r : Run World) (d : Bytes) → Step r (record r { peer = (send_raw platform d r.peer).1 })
    release : (r : Run World) → Step r (record r { peer = release_sends r.peer })
    stop :
        (o : Opening) (p : Peer World)
        → Step
            (record { opening = o; turn = Turn.idle; peer = p })
            (record { opening = o; turn = Turn.idle; peer = stop_dispatch p })
    shut : (r : Run World) → Step r (record r { peer = close r.peer })
    elsewhere :
        (r : Run World) (w : World) → Step r (record r { peer = record (r.peer) { world = w } })

  unfoldable pub start : Bytes → Bytes → World → Run World
  unfolding new_peer
  start device secret w = record {
    opening = Opening.unopened;
    turn = Turn.idle;
    peer = new_peer device secret w;
  }

  -- The states of a new peer.
  pub data Reach (device secret : Bytes) : Run World → Type 0 where
    here : (w : World) → Reach device secret (start device secret w)
    next : {r q : Run World} → Reach device secret r → Step r q → Reach device secret q
