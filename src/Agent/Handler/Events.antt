-- ===== src/Agent/Handler/Events.antt =====
-- What happens to a handler of internal/agent/handler.go, in the order in which it happens: messages,
-- peers that go, panes that end and rounds of streams.
use pmux_agent.Base.{
  ◌≡◌, refl, ◌∙◌, true, false, List, [], ◌∷◌, Bytes, str_eq, All, Bool-cases, inl, inr, ap, sym,
  subst, str_eq→eq,
}
use pmux_agent.Base.Map.{lookup}
use pmux_agent.Protocol.Messages.{Message}
use pmux_agent.Tmux.TitleFilter.{TitleFilter}
use pmux_agent.Agent.Handler.State.{Backend, Stream, State, new_handler}
use pmux_agent.Agent.Handler.Sessions.{handle_pane_exit}
use pmux_agent.Agent.Handler.Requests.{handle_message, peer_disconnected}
use pmux_agent.Agent.Handler.Stream.{ReadResult, stream_round}
use pmux_agent.Agent.Handler.Isolation.{view}
use pmux_agent.Agent.Handler.Isolation.Messages.{handle_message-view, peer_disconnected-view}
use pmux_agent.Agent.Handler.Isolation.Sessions.{handle_pane_exit-view}
use pmux_agent.Agent.Handler.Isolation.Streams.{stream_round-view}
use pmux_agent.Agent.Handler.Attachment.{slot, empty_slot, IsSound, keeps, empties}
use pmux_agent.Agent.Handler.Attachment.Messages.{handle_message-IsSound}
use pmux_agent.Agent.Handler.Attachment.Neutral.{peer_disconnected-IsSound}
use pmux_agent.Agent.Handler.Attachment.Streams.{handle_pane_exit-IsSound, stream_round-IsSound}

pub data Event : Type 0 where
  message : Bytes → Message → Event
  disconnected : Bytes → Event
  pane_exited : Bytes → Event
  stream_read : Stream → ReadResult → TitleFilter → Event

-- The peer that an event is of.
unfoldable pub peer_of : Event → Bytes
peer_of (Event.message p m) = p
peer_of (Event.disconnected p) = p
peer_of (Event.pane_exited p) = p
peer_of (Event.stream_read t r f) = t.peer

unfoldable pub IsApart : Bytes → Event → Type 0
IsApart q e = str_eq (peer_of e) q ≡ false

module _ (backend : Backend) where
  open backend use {World}

  -- A pane that `watchPane` finds gone is handled with a wait for its stream.
  unfoldable pub happen : Event → State World → State World
  happen (Event.message p m) s = handle_message backend p m s
  happen (Event.disconnected p) s = peer_disconnected backend p s
  happen (Event.pane_exited p) s = handle_pane_exit backend p true s
  happen (Event.stream_read t r f) s = (stream_round backend t r f s).1

  unfoldable pub happen_all : List Event → State World → State World
  unfolding happen
  happen_all [] s = s
  happen_all (e ∷ es) s = happen_all es (happen e s)

  happen-view :
      (q : Bytes) (e : Event) (s : State World) → IsApart q e → view q (happen e s) ≡ view q s
  unfolding happen IsApart peer_of
  happen-view q (Event.message p m) s apart = handle_message-view backend p q apart m s
  happen-view q (Event.disconnected p) s apart = peer_disconnected-view backend p q apart s
  happen-view q (Event.pane_exited p) s apart = handle_pane_exit-view backend p q apart true s
  happen-view q (Event.stream_read t r f) s apart = stream_round-view backend q t apart r f s

  happen-IsSound :
      (e : Event) (s : State World) → IsSound (peer_of e) s → IsSound (peer_of e) (happen e s)
  unfolding happen peer_of
  happen-IsSound (Event.message p m) s h = handle_message-IsSound backend p m s h
  happen-IsSound (Event.disconnected p) s h = peer_disconnected-IsSound backend p s h
  happen-IsSound (Event.pane_exited p) s h = handle_pane_exit-IsSound backend p true s h
  happen-IsSound (Event.stream_read t r f) s h = stream_round-IsSound backend t r f s h

  -- Events of other peers, however many and of whatever kind, change nothing that the handler holds
  -- for a peer (bridge, cancel function, done channel, pane, last ping, dimensions, announced exit),
  -- and send that peer nothing.
  pub happen_all-view :
      (q : Bytes) (es : List Event) (s : State World)
      → All (IsApart q) es
      → view q (happen_all es s) ≡ view q s
  unfolding happen_all
  happen_all-view q [] s apart = refl
  happen_all-view q (e ∷ es) s (here, rest) =
      happen_all-view q es (happen e s) rest ∙ happen-view q e s here

  slot-view : (q : Bytes) (s t : State World) → view q t ≡ view q s → slot q t ≡ slot q s
  unfolding view slot
  slot-view q s t h =
      ap
        (λ v. record {
          bridge = v.bridge;
          cancel = v.cancel;
          pane = v.pane;
          dims = v.dims;
          exit = v.exit;
        })
        h

  happen-all_peers :
      (q : Bytes) (e : Event) (s : State World) → IsSound q s → IsSound q (happen e s)
  unfolding IsApart
  happen-all_peers q e s h = elim (Bool-cases (str_eq (peer_of e) q)) [
    | inl same ↦
        let here = str_eq→eq (peer_of e) q same in
        subst (λ r. IsSound r (happen e s)) here
          (happen-IsSound e s (subst (λ r. IsSound r s) (sym here) h))
    | inr apart ↦ keeps q s _ (slot-view q s _ (happen-view q e s apart)) h
  ]

  happen_all-IsSound :
      (q : Bytes) (es : List Event) (s : State World) → IsSound q s → IsSound q (happen_all es s)
  unfolding happen_all
  happen_all-IsSound q [] s h = h
  happen_all-IsSound q (e ∷ es) s h = happen_all-IsSound q es _ (happen-all_peers q e s h)

  new_handler-slot : (q v f : Bytes) (w : World) → slot q (new_handler v f w) ≡ empty_slot
  unfolding slot new_handler lookup
  new_handler-slot q v f w = refl

  -- Whatever happens to a new handler, and in whatever order, each peer has afterwards either no
  -- entry in the maps of its attachment, or all of them at once: a bridge, a cancel function, a pane
  -- id that is a valid target and dimensions that are in range, with the pane's end not announced.
  pub reachable-IsSound :
      (es : List Event) (v f : Bytes) (w : World) (q : Bytes)
      → IsSound q (happen_all es (new_handler v f w))
  reachable-IsSound es v f w q = happen_all-IsSound q es _ (empties q _ (new_handler-slot q v f w))
