-- ===== src/Protocol/Codec/Gate.antt =====
-- internal/protocol/codec.go: what the decoder lets through.
use pmux_agent.Base.{
  ◌≤◌, ◌≡◌, ◌↔◌, ◌⊎◌, ◌≢◌, inl, inr, refl, Bool, true, false, not, ◌&&◌, Bytes, codes, length, [],
  Option, none, some, str_eq, str_eq→eq, List, ◌∷◌, All, if◌then◌else◌, ap, subst, ◌∙◌, ok, err,
  arith, Option-cases, Bool-cases,
}
use pmux_agent.Protocol.Messages.{Kind, Message, kind_of, type_name, message_type}
use pmux_agent.Protocol.Validation.{validate}
use pmux_agent.Protocol.Validation.Bounds.{IsInBounds, validate_iff}
use pmux_agent.Protocol.Codec.{
  Msgpack, DecodeError, kind_named, is_request, is_event, is_auth, decode_with, decode,
  decode_request,
}

-- Each type name is read as its own struct type.
pub kind_named-type_name : (k : Kind) → kind_named (type_name k) ≡ some k
unfolding kind_named type_name
kind_named-type_name Kind.list_sessions = refl
kind_named-type_name _ = refl

type_name-ne-nil : (k : Kind) → str_eq (type_name k) [] ≡ false
unfolding type_name
type_name-ne-nil Kind.list_sessions = refl
type_name-ne-nil _ = refl

abbrev search_names : Bytes → List (Bytes × Kind) → Option Kind
search_names t [] = none
search_names t ((s, k) ∷ rest) = if str_eq t s then some k else search_names t rest

-- The `switch` as a table.
abbrev kind_table : List (Bytes × Kind)
kind_table =
    (codes "list_sessions", Kind.list_sessions)
    ∷ (codes "attach", Kind.attach)
    ∷ (codes "detach", Kind.detach)
    ∷ (codes "input", Kind.input)
    ∷ (codes "resize", Kind.resize)
    ∷ (codes "kill_session", Kind.kill_session)
    ∷ (codes "ping", Kind.ping)
    ∷ (codes "create_session", Kind.create_session)
    ∷ (codes "auth_response", Kind.auth_response)
    ∷ (codes "sessions", Kind.sessions)
    ∷ (codes "output", Kind.output)
    ∷ (codes "attached", Kind.attached)
    ∷ (codes "detached", Kind.detached)
    ∷ (codes "session_ended", Kind.session_ended)
    ∷ (codes "pane_closed", Kind.pane_closed)
    ∷ (codes "session_created", Kind.session_created)
    ∷ (codes "auth_challenge", Kind.auth_challenge)
    ∷ (codes "auth_confirm", Kind.auth_confirm)
    ∷ (codes "error", Kind.error)
    ∷ (codes "pong", Kind.pong)
    ∷ []

kind_named-table : (t : Bytes) → kind_named t ≡ search_names t kind_table
unfolding kind_named
kind_named-table t = refl

search_names_sound :
    (t : Bytes) (k : Kind) (table : List (Bytes × Kind))
    → All (λ e. e.0 ≡ type_name e.1) table
    → search_names t table ≡ some k
    → t ≡ type_name k
search_names_sound t k [] a h = cc
search_names_sound t k ((s, j) ∷ rest) (e, a) h = elim (Bool-cases (str_eq t s)) [
  | inl hit ↦ ground (arith, str_eq→eq t s hit)
  | inr miss ↦ search_names_sound t k rest a (rw miss at h)
]

kind_table_names : All (λ e. e.0 ≡ type_name e.1) kind_table
unfolding type_name
kind_table_names = (
  refl,
  (
    refl,
    (
      refl,
      (
        refl,
        (
          refl,
          (
            refl,
            (
              refl,
              (
                refl,
                (
                  refl,
                  (
                    refl,
                    (
                      refl,
                      (refl, (refl, (refl, (refl, (refl, (refl, (refl, (refl, (refl, tt))))))))),
                    ),
                  ),
                ),
              ),
            ),
          ),
        ),
      ),
    ),
  ),
)

-- A name that is read as a struct type is that type's name.
pub kind_named_sound : (t : Bytes) (k : Kind) → kind_named t ≡ some k → t ≡ type_name k
kind_named_sound t k h =
    search_names_sound t k kind_table kind_table_names (rw kind_named-table at h)

abbrev IsAccepted : Bool → Kind → Type 0
IsAccepted false k = Unit {0}
IsAccepted true k = (is_request k ≡ true) ⊎ (k ≡ Kind.auth_response)

is_auth_sound : (k : Kind) → is_auth k ≡ true → k ≡ Kind.auth_response
unfolding is_auth
is_auth_sound Kind.auth_response h = refl
is_auth_sound _ h = cc

accepted :
    (b : Bool) (k : Kind) → (b && not (is_request k) && not (is_auth k)) ≡ false → IsAccepted b k
accepted false k h = tt
accepted true k h = ground (arith, is_auth_sound k)

module _ (mp : Msgpack) where
  -- The facts behind a decoded message.
  pub record Decoded (d : Bytes) (m : Message) : Type 0 where
    pub fits : length d ≤ 1048576
    pub named : mp.unmarshal_type d ≡ some (message_type m)
    pub body : mp.unmarshal (kind_of m) d ≡ some m
    pub bounded : IsInBounds m

  Decoded-facts :
      (d : Bytes) (b : Bool) (m : Message) (t : Bytes) (k : Kind) (m' : Message)
      → mp.unmarshal_type d ≡ some t
      → kind_named t ≡ some k
      → mp.unmarshal k d ≡ some m'
      → length d ≤ 1048576
      → (b && not (is_request k) && not (is_auth k)) ≡ false
      → validate m' ≡ ok tt
      → m' ≡ m
      → Decoded d m × IsAccepted b (kind_of m)
  unfolding message_type
  Decoded-facts d b m t k m' e e' e'' fits gate valid same =
      let kind : kind_of m ≡ k = rw (← same) (mp.unmarshal-kind k d m' e'') in
      (
        record {
          fits = fits;
          named = rw (kind, e) (ap some (kind_named_sound t k e'));
          body = rw kind (e'' ∙ ap some same);
          bounded = subst IsInBounds same ((validate_iff m').0 valid);
        },
        rw kind (accepted b k gate),
      )

  pub decode_with_sound :
      (d : Bytes) (b : Bool) (m : Message)
      → decode_with mp d b ≡ ok m
      → Decoded d m × IsAccepted b (kind_of m)
  unfolding decode_with
  decode_with_sound d b m h = elim (Option-cases (mp.unmarshal_type d)) [
    | inl e ↦ absurd (ground arith)
    | inr (t, e) ↦ elim (Option-cases (kind_named t)) [
      | inl e' ↦ absurd (ground arith)
      | inr (k, e') ↦ elim (Option-cases (mp.unmarshal k d)) [
        | inl e'' ↦ absurd (ground arith)
        | inr (m', e'') ↦
            Decoded-facts d b m t k m' e e' e'' (ground arith) (ground arith) (ground arith)
              (ground arith)
      ]
    ]
  ]

accepted_gate :
    (b : Bool) (k : Kind) → IsAccepted b k → (b && not (is_request k) && not (is_auth k)) ≡ false
unfolding is_auth
accepted_gate false k a = refl
accepted_gate true k a = ground arith

pub decode_with_complete :
    (mp : Msgpack) (d : Bytes) (b : Bool) (m : Message)
    → Decoded mp d m
    → IsAccepted b (kind_of m)
    → decode_with mp d b ≡ ok m
unfolding decode_with message_type
decode_with_complete mp d b m f a =
    let gate = accepted_gate b (kind_of m) a in
    let valid = (validate_iff m).1 f.bounded in
    let known = kind_named-type_name (kind_of m) in
    let filled = type_name-ne-nil (kind_of m) in
    let named = f.named in
    let body = f.body in
    let fits = f.fits in ground (arith, gate, valid, known, filled, named, body, fits)

event_gate : (k : Kind) → is_event k ≡ true → (not (is_request k) && not (is_auth k)) ≡ true
unfolding is_event is_request is_auth
event_gate Kind.list_sessions h = ground arith
event_gate _ h = ground arith

not_event : (k : Kind) → IsAccepted true k → is_event k ≡ false
unfolding is_event is_request
not_event Kind.list_sessions h = ground arith
not_event _ h = ground arith

event_or_IsAccepted : (k : Kind) → is_event k ≡ false → IsAccepted true k
unfolding is_event is_request
event_or_IsAccepted Kind.list_sessions h = ground arith
event_or_IsAccepted _ h = ground arith

-- A message that the agent's receive path decodes is a request or an auth response, lies within the
-- size limit, carries its struct's type name in its envelope, and has every field within its bound.
pub decode_request_sound :
    (mp : Msgpack) (d : Bytes) (m : Message)
    → decode_request mp d ≡ ok m
    → ((is_request (kind_of m) ≡ true) ⊎ (kind_of m ≡ Kind.auth_response))
      × (length d ≤ 1048576)
      × (mp.unmarshal_type d ≡ some (message_type m))
      × IsInBounds m
unfolding decode_request
decode_request_sound mp d m h =
    let (facts, gate) = decode_with_sound mp d true m h in
    (gate, facts.fits, facts.named, facts.bounded)

-- Data that names an event is refused by its name alone, whatever its body is and whether or not it
-- can be unmarshalled.
pub decode_request-event :
    (mp : Msgpack) (d : Bytes) (k : Kind)
    → length d ≤ 1048576
    → mp.unmarshal_type d ≡ some (type_name k)
    → is_event k ≡ true
    → decode_request mp d ≡ err (DecodeError.not_accepted (type_name k))
unfolding decode_request decode_with
decode_request-event mp d k fits named event =
    ground (arith, kind_named-type_name k, type_name-ne-nil k, event_gate k event)

-- Every struct type is a request, an event or the auth response, and only one of these.
pub kind_partition :
    (k : Kind)
    → ((is_request k ≡ true) × (is_event k ≡ false) × (k ≢ Kind.auth_response))
      ⊎ (((is_request k ≡ false) × (is_event k ≡ true) × (k ≢ Kind.auth_response))
          ⊎ ((is_request k ≡ false) × (is_event k ≡ false) × (k ≡ Kind.auth_response)))
unfolding is_request is_event
kind_partition Kind.list_sessions = ground arith
kind_partition _ = ground arith

-- The receive path accepts what `Decode` accepts, less the events, with the same result.
pub decode_request_iff :
    (mp : Msgpack) (d : Bytes) (m : Message)
    → (decode_request mp d ≡ ok m) ↔ ((decode mp d ≡ ok m) × (is_event (kind_of m) ≡ false))
unfolding decode_request decode
decode_request_iff mp d m = (
  λ h.
      let (facts, gate) = decode_with_sound mp d true m h in
      (decode_with_complete mp d false m facts tt, not_event (kind_of m) gate),
  λ h.
      let (facts, _) = decode_with_sound mp d false m h.0 in
      decode_with_complete mp d true m facts (event_or_IsAccepted (kind_of m) h.1),
)
