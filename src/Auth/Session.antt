-- ===== src/Auth/Session.antt =====
-- `PairSession` of internal/auth/pair_session.go: the host waits for a mobile to pair, and accepts or
-- rejects it. A session holds what its connection will still deliver; a read past that fails.
pub mod Reads
pub mod Sound
pub mod Answered
pub mod Commits
use pmux_agent.Base.{
  ℕ, Bool, true, false, not, ◌&&◌, ◌||◌, List, [], ◌∷◌, ◌++◌, Option, none, some, Bytes, length,
  leb, ◌==◌, str_eq, if◌then◌else◌, Result, ok, err,
}

pub record PairComplete : Type 0 where
  pub mobile_device_id : Bytes
  pub mobile_x25519_public_key : Bytes
  pub mobile_name : Bytes
  pub pair_mac : Bytes

-- What a frame is read as, by its JSON and its type.
pub data Frame : Type 0 where
  malformed auth error other : Frame
  pair_complete : PairComplete → Frame
  pair_result : Bytes → Bool → Frame

pub data Decision : Type 0 where
  pair_accept pair_reject : Decision

pub data SessionError : Type 0 where
  not_sent no_auth_reply auth_failed already_waited not_received timed_out invalid_device_id :
      SessionError
  not_held nothing_received no_result not_committed refused : SessionError

-- `attempts` are the decisions that were sent or attempted, with the device that each names.
pub record Session : Type 0 where
  pub confirm : Bool
  pub received : Option PairComplete
  pub waited : Bool
  pub decided : Bool
  pub closed : Bool
  pub inbox : List Frame
  pub attempts : List (Decision × Bytes)

unfoldable pub new_session : Bool → List Frame → Session
new_session confirm frames = record {
  confirm = confirm;
  received = none;
  waited = false;
  decided = false;
  closed = false;
  inbox = frames;
  attempts = [];
}

-- The first one is kept.
unfoldable pub keep : PairComplete → Option PairComplete → Option PairComplete
keep m none = some m
keep m (some n) = some n

unfoldable pub read_auth : List Frame → Session → Option SessionError × Session
unfolding keep
read_auth [] s = (some SessionError.no_auth_reply, record s { inbox = [] })
read_auth (Frame.auth ∷ fs) s = (none, record s { inbox = fs })
read_auth (Frame.error ∷ fs) s = (some SessionError.auth_failed, record s { inbox = fs })
read_auth (Frame.pair_complete m ∷ fs) s = read_auth fs (record s { received = keep m s.received })
read_auth (Frame.malformed ∷ fs) s = read_auth fs s
read_auth (Frame.other ∷ fs) s = read_auth fs s
read_auth (Frame.pair_result id committed ∷ fs) s = read_auth fs s

-- The Boolean says whether the write succeeds, here and below.
unfoldable pub authenticate : Bool → Session → Option SessionError × Session
unfolding read_auth
authenticate false s = (some SessionError.not_sent, s)
authenticate true s = read_auth s.inbox s

unfoldable pub dialed : Option SessionError × Session → Result SessionError Session
dialed (some e, s) = err e
dialed (none, s) = ok s

-- `DialPairSession` once the connection is made.
unfoldable pub dial_pair_session : Bool → Bool → List Frame → Result SessionError Session
unfolding dialed authenticate new_session
dial_pair_session written confirm frames =
    dialed (authenticate written (new_session confirm frames))

-- `^[0-9a-f]{32}$`.
unfoldable pub all_hex : Bytes → Bool
all_hex [] = true
all_hex (a ∷ s) = (leb 48 a && leb a 57 || leb 97 a && leb a 102) && all_hex s

unfoldable pub is_device_id : Bytes → Bool
unfolding all_hex
is_device_id id = length id == 32 && all_hex id

unfoldable pub validated : Option PairComplete → Option SessionError
unfolding is_device_id
validated none = some SessionError.not_received
validated (some m) =
    if is_device_id m.mobile_device_id then none else some SessionError.invalid_device_id

-- The reader of `readPairComplete`.
unfoldable pub await_complete : List Frame → Session → Option SessionError × Session
await_complete [] s = (some SessionError.not_received, record s { received = none; inbox = [] })
await_complete (Frame.pair_complete m ∷ fs) s = (none, record s { received = some m; inbox = fs })
await_complete (Frame.malformed ∷ fs) s = await_complete fs s
await_complete (Frame.auth ∷ fs) s = await_complete fs s
await_complete (Frame.error ∷ fs) s = await_complete fs s
await_complete (Frame.other ∷ fs) s = await_complete fs s
await_complete (Frame.pair_result id committed ∷ fs) s = await_complete fs s

-- With a context that ends the message that raced it is kept.
unfoldable pub read_pair_complete : Bool → Session → Option SessionError × Session
unfolding await_complete
read_pair_complete expired s =
    let (e, t) = await_complete s.inbox s in (if expired then some SessionError.timed_out else e, t)

unfoldable pub after_read : Option SessionError × Session → Option SessionError × Session
unfolding validated
after_read (some e, s) = (some e, s)
after_read (none, s) = (validated s.received, s)

unfoldable pub wait_once : Option PairComplete → Bool → Session → Option SessionError × Session
unfolding after_read read_pair_complete validated
wait_once none expired s = after_read (read_pair_complete expired s)
wait_once (some m) expired s = (validated (some m), s)

unfoldable pub wait_for_pair_complete : Bool → Session → Option SessionError × Session
unfolding wait_once
wait_for_pair_complete expired s =
    if s.waited
    then (some SessionError.already_waited, s)
    else wait_once s.received expired (record s { waited = true })

unfoldable pub to_answer : Option PairComplete → Result SessionError PairComplete
to_answer none = err SessionError.nothing_received
to_answer (some m) = ok m

unfoldable pub check_decidable : Session → Result SessionError PairComplete
unfolding to_answer
check_decidable s = if s.confirm then to_answer s.received else err SessionError.not_held

unfoldable pub send_decision : Bool → Decision → Bytes → Session → Option SessionError × Session
send_decision written d id s = (
  if written then none else some SessionError.not_sent,
  record s { decided = true; attempts = s.attempts ++ (d, id) ∷ [] },
)

unfoldable pub decide :
    Bool → Decision → Result SessionError PairComplete → Session → Option SessionError × Session
unfolding send_decision
decide written d (err e) s = (some e, s)
decide written d (ok m) s = send_decision written d m.mobile_device_id s

unfoldable pub reject : Bool → Session → Option SessionError × Session
unfolding decide check_decidable
reject written s = decide written Decision.pair_reject (check_decidable s) s

-- Reads until a result for this device or an error.
unfoldable pub read_result : Bytes → List Frame → Session → Option SessionError × Session
read_result id [] s = (some SessionError.no_result, record s { inbox = [] })
read_result id (Frame.pair_result i committed ∷ fs) s =
    let rest = read_result id fs s in
    if str_eq i id
    then (if committed then none else some SessionError.not_committed, record s { inbox = fs })
    else rest
read_result id (Frame.error ∷ fs) s = (some SessionError.refused, record s { inbox = fs })
read_result id (Frame.malformed ∷ fs) s = read_result id fs s
read_result id (Frame.auth ∷ fs) s = read_result id fs s
read_result id (Frame.other ∷ fs) s = read_result id fs s
read_result id (Frame.pair_complete m ∷ fs) s = read_result id fs s

-- The device of the received message; `checkDecidable` has seen that there is one.
unfoldable pub device_of : Option PairComplete → Bytes
device_of none = []
device_of (some m) = m.mobile_device_id

unfoldable pub after_decision : Option SessionError × Session → Option SessionError × Session
unfolding read_result device_of
after_decision (some e, s) = (some e, s)
after_decision (none, s) = read_result (device_of s.received) s.inbox s

unfoldable pub accept : Bool → Session → Option SessionError × Session
unfolding after_decision decide check_decidable
accept written s = after_decision (decide written Decision.pair_accept (check_decidable s) s)

unfoldable pub is_received : Option PairComplete → Bool
is_received none = false
is_received (some m) = true

unfoldable pub hang_up : Option SessionError × Session → Option SessionError × Session
hang_up (e, s) = (e, record s { closed = true })

unfoldable pub close : Bool → Session → Option SessionError × Session
unfolding hang_up reject is_received
close written s =
    hang_up
      (if s.confirm && is_received s.received && not s.decided then reject written s else (none, s))

-- What the client of a session calls, with how its writes and its context fare.
pub data Call : Type 0 where
  waits accepts rejects closes : Bool → Call

unfoldable pub call : Call → Session → Session
unfolding wait_for_pair_complete accept reject close
call (Call.waits expired) s = (wait_for_pair_complete expired s).1
call (Call.accepts written) s = (accept written s).1
call (Call.rejects written) s = (reject written s).1
call (Call.closes written) s = (close written s).1

unfoldable pub call_all : List Call → Session → Session
unfolding call
call_all [] s = s
call_all (c ∷ cs) s = call_all cs (call c s)
