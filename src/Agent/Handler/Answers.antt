-- ===== src/Agent/Handler/Answers.antt =====
-- `handleCreateSession` of internal/agent/handler.go: what is answered.
use pmux_agent.Base.{
  ◌≡◌, ◌⊎◌, inl, inr, refl, true, false, List, [], ◌∷◌, ◌++◌, none, some, Bytes, codes, str_eq,
  Bool-cases, All, IsIn, first, later,
}
use pmux_agent.Protocol.Messages.{Message, TmuxSession, ErrorEvent}
use pmux_agent.Tmux.Listing.{Session}
use pmux_agent.Agent.Handler.State.{Backend, State, send_msg, send_error}
use pmux_agent.Agent.Handler.Sessions.{query_sessions, to_protocol_sessions}
use pmux_agent.Agent.Handler.Requests.{
  find_session, answer_created, answer_listed, answer_create, handle_create_session,
}

-- The first session of the list with an id, or no session has it.
find_session-cases :
    (id : Bytes) (ss : List TmuxSession)
    → ((c : TmuxSession) × (find_session id ss ≡ some c) × IsIn c ss × (str_eq c.id id ≡ true))
      ⊎ ((find_session id ss ≡ none) × All (λ c. str_eq c.id id ≡ false) ss)
unfolding find_session
find_session-cases id [] = inr (refl, tt)
find_session-cases id (s ∷ ss) = elim (Bool-cases (str_eq s.id id)) [
  | inl hit ↦ inl (s, rw hit, first ss, hit)
  | inr miss ↦ elim (find_session-cases id ss) [
    | inl (c, found, at, same) ↦ inl (c, rw miss found, later s ss at, same)
    | inr (gone, others) ↦ inr (rw miss gone, (miss, others))
  ]
]

-- The answer to a session that was created: a session of the list with that id, or an error.
unfoldable pub IsCreateAnswer : Bytes → List TmuxSession → Message → Type 0
IsCreateAnswer id ss m =
    ((c : TmuxSession) × (m ≡ Message.session_created c) × IsIn c ss × (str_eq c.id id ≡ true))
    ⊎ ((e : ErrorEvent) × (m ≡ Message.error e) × All (λ c. str_eq c.id id ≡ false) ss)

abbrev not_found : ErrorEvent
not_found = record {
  code = codes "create_session_failed";
  message = codes "session created but not found in session list";
}

module _ (backend : Backend) (p : Bytes) where
  open backend use {World, create_session, list_all}

  answer_created-sent :
      (id : Bytes) (ss : List TmuxSession) (s : State World)
      → (m : Message) × ((answer_created backend p (find_session id ss) s).sent
          ≡ s.sent ++ (p, m) ∷ [])
        × IsCreateAnswer id ss m
  unfolding IsCreateAnswer answer_created send_msg send_error
  answer_created-sent id ss s = elim (find_session-cases id ss) [
    | inl (c, found, at, same) ↦
        (Message.session_created c, rw (found, answer_created) refl, inl (c, refl, at, same))
    | inr (gone, others) ↦
        (Message.error not_found, rw (gone, answer_created) refl, inr (not_found, refl, others))
  ]

  -- If tmux creates a session and then lists the sessions, exactly one message is sent, to the peer
  -- that asked: a session of the list, with the created id, or an error if no listed session has that id.
  pub handle_create_session-sent :
      (s : State World) (id : Bytes) (w w' : World) (ss : List Session)
      → create_session s.world ≡ (some id, w)
      → list_all w ≡ (some ss, w')
      → (m : Message) × ((handle_create_session backend p s).sent ≡ s.sent ++ (p, m) ∷ [])
        × IsCreateAnswer id (to_protocol_sessions ss) m
  unfolding handle_create_session answer_create answer_listed query_sessions
  handle_create_session-sent s id w w' ss created listed =
      rw (created, listed)
        (answer_created-sent id (to_protocol_sessions ss) (record s { world = w' }))
