-- ===== src/Messages/Tests.antt =====
-- Concrete runs of the theorems on messages.
use omarchy_chatd.Messages.Arrivals.{IsEdited, on_room_message_edit}
use omarchy_chatd.Messages.Belongs.{Belongs, message_from_event-Belongs}
use omarchy_chatd.Messages.Bounded.{IsBounded, Use, ask, forget, uses, previews-IsBounded}
use omarchy_chatd.Messages.Fallback.{IsLine, strip-quote}
use omarchy_chatd.Messages.Shown.{ShowsOwn, decorate-ShowsOwn}
use omarchy_chatd.Messages.Quotes.{newline, chomp, join_lines, strip_reply_fallback}
use omarchy_chatd.Messages.Previews.{Quoted}
use omarchy_chatd.Messages.Live.{Feed, on_room_message}
use omarchy_chatd.Messages.Edits.{sender_from, decorate}
use omarchy_chatd.Messages.Convert.{Place, to_message, message_from_event}
use omarchy_chatd.Messages.Events.{
  Relation, unrelated, thread, replacement, RoomMessage, Parsed, message, sender_of, formatted_html,
}
use omarchy_chatd.Media.Attachment.{text}
use omarchy_chatd.Timeline.Events.{Event, kind_of, rel_type_of, is_message_like, is_thread_reply}
use omarchy_chatd.Json.{str, obj, end, field}
use omarchy_chatd.Base.{
  ℕ, ◌≡◌, refl, ◌≢◌, ◌⊎◌, true, false, not, Option, none, some, List, [], ◌∷◌, arith, ◌==◌,
  and_elim, all, All, Text, codes, text_eq, starts_with,
}

abbrev place_r : Place
place_r = record {
  room_id = codes "r";
  known_member = λ _. none;
  localpart = λ u. u;
  preview = λ _. none;
  to_uppercase = λ c. c ∷ [];
}

abbrev message_by : Text → Text → ℕ → Text → Relation → RoomMessage
message_by id sender ts body relation = record {
  event_id = id;
  sender = sender;
  ts = ts;
  msgtype = text body none;
  relates_to = relation;
}

abbrev original_a : RoomMessage
original_a = message_by (codes "$1") (codes "a") 1 (codes "first") unrelated

-- An edit by the sender, a later one by another, and an unparsed event.
abbrev edits : List (Option Parsed)
edits =
    some (
      message (
        message_by (codes "$2") (codes "a") 2 (codes "*")
          (replacement (codes "$1") (text (codes "second") none))))
    ∷ some (
        message (
          message_by (codes "$3") (codes "b") 3 (codes "*")
            (replacement (codes "$1") (text (codes "forged") none))))
    ∷ none
    ∷ []

decorate-ShowsOwn_example :
    ShowsOwn (some (codes "a")) edits (to_message place_r original_a false) (
      decorate
        (λ u. u)
        none
        []
        true
        (some (message original_a))
        (some edits)
        []
        (to_message place_r original_a false))
unfolding sender_of
decorate-ShowsOwn_example =
    decorate-ShowsOwn (λ u. u) none [] (some (message original_a)) edits []
      (to_message place_r original_a false)

shows_second :
    (decorate
      (λ u. u)
      none
      []
      true
      (some (message original_a))
      (some edits)
      []
      (to_message place_r original_a false)).body
    ≡ codes "second"
unfolding decorate to_message text_eq formatted_html
shows_second = refl

abbrev empty_feed : Feed
empty_feed = record { activity = λ _. none; previews = []; sent = [] }

abbrev edit_by : Text → RoomMessage
edit_by sender =
    message_by (codes "$2") sender 2 (codes "*")
      (replacement (codes "$1") (text (codes "new") none))

abbrev load_a : Text → Option Parsed
load_a _ = some (message original_a)

abbrev nothing_quoted : Text → Quoted
nothing_quoted _ = record { event = none; bundled = none; cached = none }

on_room_message_edit_example :
    let w' =
      on_room_message place_r true false [] load_a nothing_quoted
        (edit_by (codes "b"))
        empty_feed in
    (IsEdited place_r (codes "$1") (text (codes "new") none) empty_feed w'
      × (sender_from (load_a (codes "$1")) ≡ some (codes "b")))
    ⊎ ((w' ≡ empty_feed) × (sender_from (load_a (codes "$1")) ≢ some (codes "b")))
on_room_message_edit_example =
    on_room_message_edit place_r false [] load_a nothing_quoted (edit_by (codes "b")) (codes "$1")
      (text (codes "new") none) empty_feed refl

abbrev asks : List Use
asks =
    ask place_r (codes "$1")
      (record { event = some (message original_a); bundled = none; cached = none })
    ∷ forget (codes "!r") (codes "$1")
    ∷ []

previews-IsBounded_example : IsBounded (uses asks [])
previews-IsBounded_example = previews-IsBounded asks

no_newline :
    (l : Text) → all (λ c. not (c == newline)) l ≡ true → All (λ c. (c == newline) ≡ false) l
no_newline [] h = tt
no_newline (c ∷ l) h =
    let t = and_elim (not (c == newline)) (all (λ d. not (d == newline)) l) h in
    (ground arith, no_newline l t.1)

plain : (l : Text) → all (λ c. not (c == newline)) l ≡ true → chomp l ≡ l → IsLine l
plain l h k = record { whole = no_newline l h; kept = k }

strip-quote_example :
    strip_reply_fallback (codes "> <@a:x> hello\n> there\n\nhi\n\nbye") ≡ codes "hi\n\nbye"
unfolding chomp join_lines starts_with
strip-quote_example =
    strip-quote (codes "> <@a:x> hello") (codes "> there" ∷ []) (codes "hi")
      (codes "" ∷ codes "bye" ∷ [])
      (plain (codes "> <@a:x> hello") refl refl, (plain (codes "> there") refl refl, tt))
      (refl, (refl, tt)) refl
      (
        plain (codes "hi") refl refl,
        (plain (codes "") refl refl, (plain (codes "bye") refl refl, tt)),
      )
      refl

-- A reply within a thread.
abbrev threaded : RoomMessage
threaded = message_by (codes "$4") (codes "a") 4 (codes "in it") (thread (codes "$1") none true)

abbrev threaded_event : Event
threaded_event = record {
  raw = obj (
      field (codes "type") (str (codes "m.room.message")) (
        field (codes "content")
          (obj (
            field (codes "m.relates_to")
              (obj (field (codes "rel_type") (str (codes "m.thread")) end)) end))
          end));
  event_id = some (codes "$4");
  redacts = none;
}

message_from_event-Belongs_example :
    Belongs
      (is_message_like threaded_event)
      (is_thread_reply threaded_event)
      threaded.relates_to
      (message_from_event place_r false none (some (message threaded)))
unfolding kind_of rel_type_of text_eq
message_from_event-Belongs_example =
    message_from_event-Belongs place_r false none threaded_event threaded (refl, refl)
