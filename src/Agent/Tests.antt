-- ===== src/Agent/Tests.antt =====
-- Tests of internal/agent/handler.go on a small backend, and the theorems at inputs that meet their
-- hypotheses.
use pmux_agent.Base.{
  ℕ, pos, ◌≡◌, refl, true, false, ◌+◌, List, [], ◌∷◌, ◌++◌, none, some, Bytes, codes, All,
}
use pmux_agent.Base.Map.{lookup, insert}
use pmux_agent.Protocol.Messages.{Message, AttachRequest}
use pmux_agent.Tmux.Listing.{Session}
use pmux_agent.Tmux.TitleFilter.{new_title_filter}
use pmux_agent.Agent.Handler.State.{
  Backend, Bridge, State, new_handler, elem, send_msg, pane_of_peer,
}
use pmux_agent.Agent.Handler.Detach.{detach_peer, detach_peer_wait}
use pmux_agent.Agent.Handler.Sessions.{to_protocol_sessions}
use pmux_agent.Tmux.Client.{valid_target}
use pmux_agent.Agent.Handler.Attach.{
  handle_attach, out_of_range, reattach_to, attach_bridge, pre_stream_output,
}
use pmux_agent.Agent.Handler.Requests.{handle_message, handle_create_session}
use pmux_agent.Agent.Handler.Answers.{IsCreateAnswer, handle_create_session-sent}
use pmux_agent.Agent.Handler.Stream.{ReadResult}
use pmux_agent.Agent.Handler.Isolation.{view}
use pmux_agent.Agent.Handler.Attachment.{IsSound, slot, empty_slot, full_slot}
use pmux_agent.Agent.Handler.Attachment.Sound.{detach_peer-slot}
use pmux_agent.Agent.Handler.Attachment.Outcome.{IsAttachOutcome, handle_attach-IsAttachOutcome}
use pmux_agent.Agent.Handler.Attachment.Attached.{IsWilling, IsStreaming, handle_attach-IsStreaming}
use pmux_agent.Agent.Handler.Attachment.Exit.{HasEnded, ledger, detach_peer-HasEnded}
use pmux_agent.Agent.Handler.Events.{
  Event, happen_all, IsApart, peer_of, happen_all-view, reachable-IsSound,
}

-- Every call succeeds, and there is one pane, `%1`, at 80 by 24. The world counts the calls.
abbrev calm : Backend
calm = record {
  World = ℕ;
  send = λ p m w. (true, w + 1);
  list_all = λ w. (some [], w + 1);
  kill_session = λ n w. (true, w + 1);
  create_session = λ w. (some (codes "$1"), w + 1);
  pane_exists = λ p w. (true, w + 1);
  cursor_state = λ p w. (none, w + 1);
  track_and_resize = λ p c r w. (false, w + 1);
  release_if_forced = λ p w. w + 1;
  attach_pane = λ p w. (some (record { id = w; initial_content = [] }), w + 1);
  close_bridge = λ b w. w + 1;
  write_bridge = λ b d w. (true, w + 1);
  resize_bridge = λ b c r w. (true, w + 1);
  compress = λ t d w. (some d, w + 1);
  close_compressor = λ t w. w + 1;
  now = λ w. w;
  load_state = λ w. none;
  quote = λ t. t;
}

abbrev alice : Bytes
alice = codes "a"

abbrev bob : Bytes
bob = codes "b"

abbrev attach_request : Message
attach_request = Message.attach (record {
  pane_id = codes "%1";
  cols = pos 80;
  rows = pos 24;
  compression = [];
  reattach = false;
})

abbrev fresh : State ℕ
unfolding new_handler
fresh = new_handler (codes "1.0.0") [] 0

abbrev attached : State ℕ
unfolding handle_message
attached = handle_message calm alice attach_request fresh

-- Attaching fills the peer's slot.
attach_fills :
    slot alice attached
    ≡ full_slot (record { id = 1; initial_content = [] }) 0 (codes "%1") (pos 80, pos 24)
unfolding slot handle_message new_handler lookup handle_attach valid_target out_of_range reattach_to
    attach_bridge pre_stream_output send_msg insert detach_peer detach_peer_wait pane_of_peer
attach_fills = refl

-- What happens to alice: a message, a round of her stream, the end of her pane, and her leaving.
abbrev events_of_alice : List Event
events_of_alice =
    Event.message alice attach_request
    ∷ Event.stream_read
        (record {
          peer = alice;
          pane_id = codes "%1";
          bridge = record { id = 1; initial_content = [] };
          id = 0;
          deflate = false;
        })
        (ReadResult.chunk (codes "hi")) new_title_filter
    ∷ Event.pane_exited alice
    ∷ Event.disconnected alice
    ∷ []

bob_attached : State ℕ
bob_attached = handle_message calm bob attach_request fresh

events-IsApart : All (IsApart bob) events_of_alice
unfolding IsApart peer_of
events-IsApart = (refl, (refl, (refl, (refl, tt))))

happen_all-view_example :
    view bob (happen_all calm events_of_alice bob_attached) ≡ view bob bob_attached
happen_all-view_example = happen_all-view calm bob events_of_alice bob_attached events-IsApart

reachable-IsSound_example :
    IsSound alice (happen_all calm events_of_alice (new_handler (codes "1.0.0") [] 0))
reachable-IsSound_example = reachable-IsSound calm events_of_alice (codes "1.0.0") [] 0 alice

attached-IsSound : IsSound alice attached
unfolding happen_all handle_message new_handler
attached-IsSound =
    reachable-IsSound calm (Event.message alice attach_request ∷ []) (codes "1.0.0") [] 0 alice

detach_peer-slot_example : slot alice (detach_peer calm alice attached) ≡ empty_slot
detach_peer-slot_example = detach_peer-slot calm alice attached attached-IsSound

done_there : lookup alice attached.stream_done ≡ some 0
unfolding handle_message new_handler lookup handle_attach valid_target out_of_range reattach_to
    attach_bridge pre_stream_output send_msg insert detach_peer detach_peer_wait pane_of_peer
done_there = refl

still_running : elem 0 attached.closed ≡ false
unfolding handle_message new_handler elem lookup handle_attach valid_target out_of_range reattach_to
    attach_bridge pre_stream_output send_msg insert detach_peer detach_peer_wait pane_of_peer
still_running = refl

abbrev first_bridge : Bridge
first_bridge = record { id = 1; initial_content = [] }

bridge_there : lookup alice attached.bridges ≡ some first_bridge
unfolding handle_message new_handler lookup handle_attach valid_target out_of_range reattach_to
    attach_bridge pre_stream_output send_msg insert detach_peer detach_peer_wait pane_of_peer
bridge_there = refl

cancel_there : lookup alice attached.cancels ≡ some 0
unfolding handle_message new_handler lookup handle_attach valid_target out_of_range reattach_to
    attach_bridge pre_stream_output send_msg insert detach_peer detach_peer_wait pane_of_peer
cancel_there = refl

detach_peer-HasEnded_example :
    HasEnded first_bridge 0 attached.blocked (ledger alice (detach_peer calm alice attached))
detach_peer-HasEnded_example =
    detach_peer-HasEnded calm alice first_bridge 0 attached bridge_there cancel_there done_there
      still_running

abbrev created_session : Session
created_session = record {
  id = codes "$1";
  name = codes "1";
  created_at = pos 0;
  last_activity_at = pos 0;
  windows = [];
  attached = false;
}

-- The same with one session.
abbrev busy : Backend
busy = record calm { list_all = λ w. (some (created_session ∷ []), w + 1) }

handle_create_session-sent_example :
    (m : Message) × ((handle_create_session busy alice fresh).sent ≡ fresh.sent ++ (alice, m) ∷ [])
    × IsCreateAnswer (codes "$1") (to_protocol_sessions (created_session ∷ [])) m
unfolding fresh
handle_create_session-sent_example =
    handle_create_session-sent busy alice fresh (codes "$1") 1 2 (created_session ∷ []) refl refl

abbrev request : AttachRequest
request = record {
  pane_id = codes "%2";
  cols = pos 100;
  rows = pos 30;
  compression = codes "deflate";
  reattach = true;
}

handle_attach-IsAttachOutcome_example :
    IsAttachOutcome alice request attached (handle_attach calm alice request attached)
handle_attach-IsAttachOutcome_example =
    handle_attach-IsAttachOutcome calm alice request attached attached-IsSound

calm-IsWilling : IsWilling calm
calm-IsWilling = record {
  takes = λ p m w. refl;
  compresses = λ t c w. (c, refl);
  attaches = λ pane w. (record { id = w; initial_content = [] }, refl);
}

request-valid : valid_target request.pane_id ≡ true
unfolding valid_target
request-valid = refl

request-range : out_of_range request.cols request.rows ≡ false
unfolding out_of_range
request-range = refl

handle_attach-IsStreaming_example :
    IsStreaming alice request (handle_attach calm alice request attached)
handle_attach-IsStreaming_example =
    handle_attach-IsStreaming calm calm-IsWilling alice request attached request-valid request-range
      attached-IsSound
