-- ===== src/Rooms/Sending.antt =====
-- Sending to a room, and marking what is read (src/core.rs: `room`, `send`, `edit`, `mark_read`).
use omarchy_chatd.Base.{
  Bool, true, false, not, Option, none, some, List, [], ◌∷◌, if◌then◌else◌, is_some, Text, is_empty,
}

-- What a message that is sent relates to. In a thread it is bound to it, and is a reply within it or
-- falls back to one.
pub data Enforce : Type 0 where
  threaded : Bool → Enforce
  maybe_threaded : Enforce

pub record Reply : Type 0 where
  pub event_id : Text
  pub enforce_thread : Enforce
  pub add_mentions : Bool

-- What is asked of the SDK, each of the room that is named first. A receipt is for a thread, or it is the fully-read marker and the public
-- receipt at once.
pub data Call : Type 0 where
  send_message : Text → Text → Option Reply → Call
  send_edit : Text → Text → Text → Call
  thread_receipt : Text → Text → Text → Call
  room_receipts : Text → Text → Call

pub data SendError : Type 0 where
  invalid_room not_logged_in unknown_room : SendError
  invalid_target invalid_root not_built not_sent : SendError

-- The result of a command.
pub data Outcome : Type 0 where
  failed : SendError → Outcome
  sent : Text → Outcome
  marked : Outcome

-- The environment: which texts are ids of rooms and of events, the client's rooms if there is one, and
-- whether a call can be built, and what the server answers it.
pub record Server : Type 0 where
  pub is_room_id : Text → Bool
  pub is_event_id : Text → Bool
  pub rooms : Option (Text → Bool)
  pub is_built : Call → Bool
  pub answer : Call → Option Text

-- `room`: `none` if it is there.
unfoldable pub room_error : Server → Text → Option SendError
room_error srv id = if not (srv.is_room_id id) then some invalid_room else elim srv.rooms [
  | none ↦ some not_logged_in
  | some known ↦ if known id then none else some unknown_room
]

abbrev pub non_empty : Option Text → Option Text
non_empty none = none
non_empty (some t) = if is_empty t then none else some t

-- The event that a message relates to, and whether it is a reply in its thread.
unfoldable pub target_of : Option Text → Option Text → Option (Text × Bool)
target_of (some r) thread = some (r, is_some thread)
target_of none (some root) = some (root, false)
target_of none none = none

unfoldable pub enforce : Option Text → Bool → Enforce
enforce (some root) within = threaded within
enforce none within = maybe_threaded

-- A call, if it can be built; what it gives, and whether it was made.
unfoldable pub make : Server → Call → Outcome × List Call
make srv c =
    if srv.is_built c
    then (elim (srv.answer c) [ none ↦ failed not_sent | some id ↦ sent id ], c ∷ [])
    else (failed not_built, [])

-- A message without a target is not built by the server's event.
unfoldable pub send_to :
    Server → Text → Text → Option Text → Option (Text × Bool) → Outcome × List Call
unfolding make enforce
send_to srv room body thread none = (
  elim (srv.answer (send_message room body none)) [ none ↦ failed not_sent | some id ↦ sent id ],
  send_message room body none ∷ [],
)
send_to srv room body thread (some (target, within)) =
    if srv.is_event_id target
    then make srv (
        send_message room body (
          some (record {
            event_id = target;
            enforce_thread = enforce thread within;
            add_mentions = true;
          })))
    else (failed invalid_target, [])

-- A command on a room that is there.
abbrev pub on_room : Option SendError → Outcome × List Call → Outcome × List Call
on_room (some e) r = (failed e, [])
on_room none r = r

-- `send`: the result and the calls that were made.
unfoldable pub send : Server → Text → Text → Option Text → Option Text → Outcome × List Call
unfolding room_error send_to target_of
send srv room body reply_to thread =
    on_room (room_error srv room)
      (send_to srv room body (non_empty thread) (target_of (non_empty reply_to) (non_empty thread)))

-- `edit`.
unfoldable pub edit : Server → Text → Text → Text → Outcome × List Call
unfolding room_error make
edit srv room event_id body = on_room (room_error srv room) (
    if srv.is_event_id event_id
    then make srv (send_edit room event_id body)
    else (failed invalid_target, []))

-- A receipt is sent or not.
receipt_call : Server → Call → Outcome × List Call
receipt_call srv c = (elim (srv.answer c) [ none ↦ failed not_sent | some _ ↦ marked ], c ∷ [])

unfoldable pub mark_in : Server → Text → Text → Option Text → Outcome × List Call
unfolding receipt_call
mark_in srv room event_id none = receipt_call srv (room_receipts room event_id)
mark_in srv room event_id (some root) =
    if srv.is_event_id root
    then receipt_call srv (thread_receipt room root event_id)
    else (failed invalid_root, [])

-- `mark_read`.
unfoldable pub mark_read : Server → Text → Text → Option Text → Outcome × List Call
unfolding room_error mark_in
mark_read srv room event_id thread = on_room (room_error srv room) (
    if srv.is_event_id event_id
    then mark_in srv room event_id (non_empty thread)
    else (failed invalid_target, []))
