-- ===== src/Messages/Belongs.antt =====
-- Each message is shown where it belongs: in the room, or in its thread (src/core.rs:
-- `message_from_event`, `is_message_like`, `is_thread_reply`).
use omarchy_chatd.Timeline.Events.{
  Event, kind_of, rel_type_of, is_rel, is_message_like, is_thread_reply, is_rel_iff,
  is_message_like_of_message, is_thread_reply_of_message,
}
use omarchy_chatd.Messages.Events.{
  Relation, unrelated, reply, thread, replacement, RoomMessage, message, Message,
}
use omarchy_chatd.Messages.Convert.{
  Place, root_of, to_message, with_bundled, is_replacement, message_from_event,
}
use omarchy_chatd.Base.{
  ◌≡◌, refl, ◌∙◌, ◌≢◌, ◌⊎◌, inl, inr, Bool, true, false, not, ◌&&◌, Option, none, some,
  if◌then◌else◌, Bool-cases, Text, codes, text_eq,
}

-- The SDK's reading of an event as a message agrees with its raw JSON: its type is that of a message,
-- and the type of its relation is `m.replace` for an edit, `m.thread` in a thread, neither otherwise.
abbrev pub RelAgrees : Relation → Option Text → Type 0
RelAgrees (replacement target content) o = o ≡ some (codes "m.replace")
RelAgrees (thread root target falls) o = o ≡ some (codes "m.thread")
RelAgrees _ o = (o ≢ some (codes "m.replace")) × (o ≢ some (codes "m.thread"))

abbrev pub Agrees : Event → RoomMessage → Type 0
Agrees ev m = (kind_of ev ≡ some (codes "m.room.message")) × RelAgrees m.relates_to (rel_type_of ev)

-- Where a message event is a line, and what it is converted to: an edit nowhere; a message outside
-- any thread in the room; one inside a thread only in the thread, with the thread's root.
abbrev pub Belongs : Bool → Bool → Relation → Option Message → Type 0
Belongs in_room in_thread r none =
    (is_replacement r ≡ true) × (in_room ≡ false) × (in_thread ≡ false)
Belongs in_room in_thread r (some msg) =
    (is_replacement r ≡ false)
    × (in_thread ≡ true)
    × (((in_room ≡ true) × (msg.thread_root ≡ none))
        ⊎ ((in_room ≡ false)
            × ((root : Text) × (msg.thread_root ≡ some root) × (root_of r ≡ some root))))

root_kept :
    (bundled : Option (Text × Option Text)) (m : Message)
    → (with_bundled bundled m).thread_root ≡ m.thread_root
unfolding with_bundled
root_kept none m = refl
root_kept (some (body, html)) m = refl

is_rel-false : (name : Text) (o : Option Text) → o ≢ some name → is_rel name o ≡ false
is_rel-false name o h = elim (Bool-cases (is_rel name o)) [
  | inl y ↦ absurd (h ((is_rel_iff name o).0 y))
  | inr n ↦ n
]

-- By the relation, which is also what the conversion looks at.
relation_lem :
    (r : Relation) (o : Option Text) (msg : Message)
    → RelAgrees r o
    → msg.thread_root ≡ root_of r
    → Belongs
        (not (is_rel (codes "m.replace") o) && not (is_rel (codes "m.thread") o))
        (not (is_rel (codes "m.replace") o))
        r
        (if is_replacement r then none else some msg)
unfolding is_replacement root_of
relation_lem unrelated o msg a e =
    rw (is_rel-false (codes "m.replace") o a.0, is_rel-false (codes "m.thread") o a.1)
      (refl, refl, inl (refl, e))
relation_lem (reply target) o msg a e =
    rw (is_rel-false (codes "m.replace") o a.0, is_rel-false (codes "m.thread") o a.1)
      (refl, refl, inl (refl, e))
relation_lem (thread root target falls) o msg a e =
    rw a (unfold text_eq in (refl, refl, inr (refl, (root, e, refl))))
relation_lem (replacement target content) o msg a e = rw a (unfold text_eq in (refl, refl, refl))

-- Whatever the server bundled and however it came, a message event is shown where it belongs: an edit
-- is never a line and gives no message; any other gives one, which is a line of the room exactly when
-- it has no thread's root, and always a line of a thread's cache.
pub message_from_event-Belongs :
    (place : Place) (was_encrypted : Bool) (bundled : Option (Text × Option Text)) (ev : Event)
    (m : RoomMessage)
    → Agrees ev m
    → Belongs
        (is_message_like ev)
        (is_thread_reply ev)
        m.relates_to
        (message_from_event place was_encrypted bundled (some (message m)))
unfolding message_from_event
message_from_event-Belongs place was_encrypted bundled ev m a =
    let msg = with_bundled bundled (to_message place m was_encrypted) in
    let rooted : msg.thread_root ≡ root_of m.relates_to =
      root_kept bundled (to_message place m was_encrypted) ∙ (unfold to_message in refl) in
    rw (is_message_like_of_message ev a.0, is_thread_reply_of_message ev a.0)
      (relation_lem m.relates_to (rel_type_of ev) msg a.1 rooted)
