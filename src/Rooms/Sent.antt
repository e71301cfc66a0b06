-- ===== src/Rooms/Sent.antt =====
-- What a message that was sent relates to, and which receipt was sent (src/core.rs: `send`,
-- `mark_read`).
use omarchy_chatd.Rooms.Sending.{
  threaded, maybe_threaded, Reply, Call, send_message, SendError, not_logged_in, unknown_room,
  invalid_target, not_sent, Outcome, failed, sent, Server, room_error, non_empty, target_of,
  enforce, make, send_to, on_room, send,
}
use omarchy_chatd.Base.{
  ◌≡◌, refl, inl, inr, Bool, true, false, Option, none, some, List, [], ◌∷◌, arith, if◌then◌else◌,
  Bool-cases, if_lem, Text,
}

-- A message without a thread relates to what it answers, if to anything; in a thread, one that answers
-- nothing relates to the root, and one that answers relates to its target within the thread.
unfoldable pub relation_to : Option Text → Option Text → Option Reply
relation_to none none = none
relation_to none (some root) =
    some (record { event_id = root; enforce_thread = threaded false; add_mentions = true })
relation_to (some r) none =
    some (record { event_id = r; enforce_thread = maybe_threaded; add_mentions = true })
relation_to (some r) (some root) =
    some (record { event_id = r; enforce_thread = threaded true; add_mentions = true })

-- The room that is named is one of the client's.
pub record IsThere (srv : Server) (room : Text) : Type 0 where
  pub is_named : srv.is_room_id room ≡ true
  pub is_known : (known : Text → Bool) × (srv.rooms ≡ some known) × (known room ≡ true)

-- A result with its calls: success is that of the one call that was made.
pub record IsMade (srv : Server) (c : Call) (id : Text) (calls : List Call) : Type 0 where
  pub only : calls ≡ c ∷ []
  pub accepted : srv.answer c ≡ some id

answered :
    (srv : Server) (c : Call) (o : Option Text) {id : Text}
    → srv.answer c ≡ o
    → elim o as (λ _. Outcome) [ none ↦ failed not_sent | some i ↦ sent i ] ≡ sent id
    → srv.answer c ≡ some id
answered srv c none h e = absurd (cc)
answered srv c (some i) h e = rw h cc

not_failed : {P : Type 0} {x : SendError} {i : Text} → failed x ≡ sent i → P
not_failed e = absurd (cc)

make-IsMade :
    (srv : Server) (c : Call) {id : Text}
    → (make srv c).0 ≡ sent id
    → IsMade srv c id (make srv c).1
unfolding make
make-IsMade srv c {id = id} =
    if_lem (λ (r : Outcome × List Call). r.0 ≡ sent id → IsMade srv c id r.1) (srv.is_built c)
      (λ _ e. record { only = refl; accepted = answered srv c (srv.answer c) refl e })
      (λ _. not_failed)

parsed-IsMade :
    (srv : Server) (b : Bool) (c : Call) (x : SendError) {id : Text}
    → (if b then make srv c else (failed x, [])).0 ≡ sent id
    → IsMade srv c id (if b then make srv c else (failed x, [])).1
parsed-IsMade srv b c x {id = id} =
    if_lem (λ (r : Outcome × List Call). r.0 ≡ sent id → IsMade srv c id r.1) b
      (λ _. make-IsMade srv c) (λ _. not_failed)

send_to-IsMade :
    (srv : Server) (room body : Text) (reply thread : Option Text) {id : Text}
    → (send_to srv room body thread (target_of reply thread)).0 ≡ sent id
    → IsMade srv
        (send_message room body (relation_to reply thread))
        id
        (send_to srv room body thread (target_of reply thread)).1
unfolding send_to target_of relation_to enforce
send_to-IsMade srv room body none none = λ e. record {
  only = refl;
  accepted =
      answered srv (send_message room body none) (srv.answer (send_message room body none)) refl e;
}
send_to-IsMade srv room body none (some root) =
    parsed-IsMade srv (srv.is_event_id root) _ invalid_target
send_to-IsMade srv room body (some r) none = parsed-IsMade srv (srv.is_event_id r) _ invalid_target
send_to-IsMade srv room body (some r) (some root) =
    parsed-IsMade srv (srv.is_event_id r) _ invalid_target

on_room-IsMade :
    (srv : Server) (o : Option SendError) (c : Call) (r : Outcome × List Call) {id : Text}
    → (r.0 ≡ sent id → IsMade srv c id r.1)
    → (on_room o r).0 ≡ sent id
    → (o ≡ none) × IsMade srv c id (on_room o r).1
on_room-IsMade srv none c r f e = (refl, f e)
on_room-IsMade srv (some x) c r f e = not_failed e

known_in :
    (rooms : Option (Text → Bool)) (room : Text)
    → elim rooms as (λ _. Option SendError) [
      | none ↦ some not_logged_in
      | some known ↦ if known room then none else some unknown_room
    ]
      ≡ none
    → (known : Text → Bool) × (rooms ≡ some known) × (known room ≡ true)
known_in none room e = absurd (cc)
known_in (some known) room e = (known, refl, ground arith)

room-IsThere : (srv : Server) (room : Text) → room_error srv room ≡ none → IsThere srv room
unfolding room_error
room-IsThere srv room e = elim (Bool-cases (srv.is_room_id room)) [
  | inl h ↦ record { is_named = h; is_known = known_in srv.rooms room (ground arith) }
  | inr h ↦ absurd (ground arith)
]

-- A message that is sent goes to a room that is there, in one call, of that room, whose answer is the
-- result; outside a thread it relates to what it answers, if to anything, and in a thread to the root,
-- or to what it answers as a reply within the thread. Empty ids count as none.
pub send_lem :
    (srv : Server) (room body : Text) (reply_to thread : Option Text) {id : Text}
    → (send srv room body reply_to thread).0 ≡ sent id
    → IsThere srv room
      × IsMade srv
          (send_message room body (relation_to (non_empty reply_to) (non_empty thread)))
          id
          (send srv room body reply_to thread).1
unfolding send
send_lem srv room body reply_to thread e =
    let r =
      on_room-IsMade srv (room_error srv room) _ _
        (send_to-IsMade srv room body (non_empty reply_to) (non_empty thread)) e in
    (room-IsThere srv room r.0, r.1)
