-- ===== src/Rooms/Activity.antt =====
-- The latest times of the rooms and what the event cache says of a room (src/core.rs: `activity_of`,
-- and the counting of events in `room_info`).
use omarchy_chatd.Messages.Events.{
  Parsed, message, redacted_message, encrypted_event, redacted_encrypted, sender_of,
}
use omarchy_chatd.Json.{Json, get, as_str, ◌>>=◌}
use omarchy_chatd.Base.{
  ℕ, ◌+◌, max, Bool, true, false, not, ◌&&◌, Option, none, some, List, [], ◌∷◌, ltb, ◌==◌,
  if◌then◌else◌, or_else, unwrap_or, Text, codes, text_eq,
}

-- `activity`: the latest time of a room by its id, once it has been looked at.
abbrev pub Activity : Type 0
Activity = Text → Option ℕ

-- The time of a message, encrypted or not and deleted or not; `none` for any other event.
unfoldable pub message_time : Parsed → Option ℕ
message_time (message m) = some m.ts
message_time (redacted_message e) = some e.ts
message_time (encrypted_event e) = some e.ts
message_time (redacted_encrypted e) = some e.ts
message_time _ = none

-- `a.max(b)` where both are there.
abbrev pub later : Option ℕ → Option ℕ → Option ℕ
later (some a) (some b) = some (max a b)
later (some a) none = some a
later none b = b

-- The newest message on the server's page, whose events may not parse.
unfoldable pub newest : List (Option Parsed) → Option ℕ
unfolding message_time
newest [] = none
newest (none ∷ page) = newest page
newest (some ev ∷ page) = or_else (message_time ev) (newest page)

unfoldable pub put_activity : Text → ℕ → Activity → Activity
put_activity key t activity k = if text_eq key k then some t else activity k

-- What is known with the server's answer.
abbrev pub with_page : Option ℕ → Option (List (Option Parsed)) → Option ℕ
unfolding newest
with_page best none = best
with_page best (some page) = later best (newest page)

-- `best.filter(|&t| t > 0)`.
abbrev pub positive : Option ℕ → Option ℕ
positive none = none
positive (some t) = if t == 0 then none else some t

unfoldable pub look_up :
    Text
    → Option ℕ
    → Option (List (Option Parsed))
    → Option ℕ
    → Activity
    → Option ℕ × Bool × Activity
unfolding put_activity
look_up key from_cache page (some t) activity =
    (positive (later (some t) from_cache), false, activity)
look_up key from_cache page none activity =
    let best = with_page from_cache page in
    (positive best, true, put_activity key (unwrap_or 0 best) activity)

-- `activity_of`: the time, whether the server is asked, and the times after it. `page` is what it
-- answers, if it does.
unfoldable pub activity_of :
    Text → Option ℕ → Option (List (Option Parsed)) → Activity → Option ℕ × Bool × Activity
unfolding look_up
activity_of key from_cache page activity = look_up key from_cache page (activity key) activity

-- An event of the cache: how it parses, and its JSON.
pub record CachedEvent : Type 0 where
  pub parsed : Option Parsed
  pub raw : Json

-- Whether the event says that it is a reply in a thread.
unfoldable pub in_thread : Json → Bool
unfolding get text_eq
in_thread raw =
    elim (get (codes "content") raw
      >>= get (codes "m.relates_to")
      >>= get (codes "rel_type")
      >>= as_str) [ none ↦ false | some t ↦ text_eq t (codes "m.thread") ]

-- What the walk over the cache has found: the latest time, and the messages that are not read.
pub record Found : Type 0 where
  pub last_activity : Option ℕ
  pub unread : ℕ

-- Whether a message counts as not read: it is of another user and came after what we last read.
unfoldable pub is_after : Option Text → Option ℕ → Text → ℕ → Bool
is_after (some me) (some at) sender ts = not (text_eq sender me) && ltb at ts
is_after _ _ sender ts = false

unfoldable pub count_message : Option Text → Option ℕ → Text → Option ℕ → Bool → Found → Found
unfolding is_after
count_message me read_at sender none threaded f = f
count_message me read_at sender (some ts) true f = f
count_message me read_at sender (some ts) false f = record {
  last_activity = later f.last_activity (some ts);
  unread = f.unread + (if is_after me read_at sender ts then 1 else 0);
}

unfoldable pub count_parsed : Option Text → Option ℕ → Found → Option Parsed → Bool → Found
unfolding count_message message_time sender_of
count_parsed me read_at f none threaded = f
count_parsed me read_at f (some p) threaded =
    count_message me read_at (sender_of p) (message_time p) threaded f

unfoldable pub count_event : Option Text → Option ℕ → Found → CachedEvent → Found
unfolding count_parsed in_thread
count_event me read_at f ev = count_parsed me read_at f ev.parsed (in_thread ev.raw)

-- The walk over the events of the cache.
unfoldable pub count_events : Option Text → Option ℕ → List CachedEvent → Found → Found
unfolding count_event
count_events me read_at [] f = f
count_events me read_at (ev ∷ evs) f = count_events me read_at evs (count_event me read_at f ev)
