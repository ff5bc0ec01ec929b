-- ===== src/Webrtc/Signaling/Steps.antt =====
-- The goroutine of `Run` in internal/webrtc/signaling.go, and the calls of other goroutines, in any order.
use pmux_agent.Base.{List, [], ◌∷◌}
use pmux_agent.Webrtc.Signaling.State.{Server, Client, signal_activity, suspend, resume, close}
use pmux_agent.Webrtc.Signaling.Token.{Refresh, refresh_tick}
use pmux_agent.Webrtc.Signaling.Loop.{proceed, wait_over, cancel}

-- What happens to the client, in any order; `refreshed` is a tick of a `tokenRefreshLoop`.
pub data Event : Type 0 where
  proceeded waited canceled signaled slept woke closed : Event
  refreshed : Refresh → Event

module _ (server : Server) where
  open server use {World}

  -- Each event finds the world in some state.
  unfoldable pub happen : Event × World → Client World → Client World
  unfolding refresh_tick proceed wait_over cancel signal_activity suspend resume close
  happen (Event.proceeded, w) c = proceed server (record c { world = w })
  happen (Event.waited, w) c = wait_over server (record c { world = w })
  happen (Event.canceled, w) c = cancel server c
  happen (Event.refreshed r, w) c = (refresh_tick server r (record c { world = w })).1
  happen (Event.signaled, w) c = signal_activity c
  happen (Event.slept, w) c = suspend c
  happen (Event.woke, w) c = resume c
  happen (Event.closed, w) c = close c

  unfoldable pub happen_all : List (Event × World) → Client World → Client World
  unfolding happen
  happen_all [] c = c
  happen_all (e ∷ es) c = happen_all es (happen e c)
