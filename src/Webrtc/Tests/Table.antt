-- ===== src/Webrtc/Tests/Table.antt =====
-- Tests of the manager of internal/webrtc/peer.go: a mobile connects, and connects again.
use pmux_agent.Base.{ℕ, ℤ, ◌+◌, ◌≡◌, refl, true, false, List, [], ◌∷◌, none, some, Bytes, codes}
use pmux_agent.Base.Map.{lookup, insert, delete}
use pmux_agent.Webrtc.Manager.State.{
  Network, ConnectionState, Link, Manager, no_message, new_peer_manager,
}
use pmux_agent.Webrtc.Manager.Cleanup.{notify, teardown_if_current, set_allowed_device_id}
use pmux_agent.Webrtc.Manager.Connect.{Turn, handle_connect_request}
use pmux_agent.Webrtc.Manager.Signals.{to_uint16, is_attempt_id}
use pmux_agent.Webrtc.Manager.Shrinks.{core}
use pmux_agent.Webrtc.Manager.Table.{IsTidy}
use pmux_agent.Webrtc.Manager.Reachable.{reachable-IsTidy}
use pmux_agent.Webrtc.Manager.Steps.{Event, happen_all}
use pmux_agent.Webrtc.Manager.Stale.{state_changed, teardown, notified}

-- Every call succeeds; the world counts the messages sent.
abbrev small : Network
small = record {
  World = ℕ;
  shared_secret = λ d w. (some (7 ∷ []), w);
  signal = λ s w. (true, w + 1);
  request_turn = λ w. (none, w);
  now = λ w. 0;
  new_connection = λ i s w. (true, w);
  create_channel = λ i w. (true, w);
  create_offer = λ i r w. (some (codes "o"), w);
  set_local = λ i s w. (true, w);
  set_remote = λ i s w. (true, w);
  add_candidate = λ i c w. w;
  connection_state = λ i w. ConnectionState.fresh;
  channel_open = λ i w. false;
  is_stable = λ i w. false;
  is_answered = λ i w. false;
  disconnect_handler = λ d w. w;
}

abbrev device : Bytes
device = codes "d"

abbrev paired : Manager ℕ
paired = set_allowed_device_id device (new_peer_manager 0)

abbrev connected : Manager ℕ
connected = handle_connect_request small device [] paired

abbrev old : Link
old = record { id = 0; device_id = device; attempt_id = []; shared_secret = 7 ∷ [] }

abbrev new : Link
new = record { id = 1; device_id = device; attempt_id = []; shared_secret = 7 ∷ [] }

one_peer : connected.peers ≡ (device, old) ∷ []
unfolding handle_connect_request set_allowed_device_id new_peer_manager lookup insert delete
one_peer = refl

reconnected : (handle_connect_request small device [] connected).peers ≡ (device, new) ∷ []
unfolding handle_connect_request set_allowed_device_id new_peer_manager lookup insert delete
reconnected = refl

negative_index : to_uint16 (ℤ.negsuc 0) ≡ 65535
unfolding to_uint16
negative_index = refl

short_attempt : is_attempt_id (codes "0a") ≡ false
unfolding is_attempt_id
short_attempt = refl

abbrev connect_events : List Event
connect_events =
    Event.allowed device
    ∷ Event.signaled
        (record no_message { type_ = codes "connect_request"; target_device_id = device })
    ∷ Event.proceed
    ∷ Event.proceed
    ∷ Event.proceed
    ∷ []

reachable-IsTidy_example :
    IsTidy (core (happen_all small connect_events (Turn.idle, new_peer_manager 0)).1)
reachable-IsTidy_example = reachable-IsTidy small connect_events 0

abbrev late_callbacks : List Event
late_callbacks =
    Event.state_changed old ConnectionState.failed ∷ Event.teardown old ∷ Event.notified old ∷ []

-- A cleanup goroutine that is past its check before a reconnect runs the disconnect handler after it.
late_notice :
    (happen_all small
      (Event.teardown old
        ∷ Event.signaled
            (record no_message { type_ = codes "connect_request"; target_device_id = device })
        ∷ Event.proceed
        ∷ Event.proceed
        ∷ Event.proceed
        ∷ Event.proceed
        ∷ Event.notified old
        ∷ [])
      (Turn.idle, connected)).1.gone
    ≡ old ∷ old ∷ []
unfolding happen_all handle_connect_request set_allowed_device_id new_peer_manager lookup insert
    delete notify teardown_if_current
late_notice = refl
