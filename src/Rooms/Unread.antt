-- ===== src/Rooms/Unread.antt =====
-- The unread messages of a room (src/core.rs: the counting of events in `room_info`).
use omarchy_chatd.Rooms.Activity.{
  Activity, message_time, CachedEvent, in_thread, Found, is_after, count_message, count_parsed,
  count_event, count_events,
}
use omarchy_chatd.Messages.Events.{Parsed, sender_of}
use omarchy_chatd.Rooms.Info.{Facts, our_receipt, read_at, seen_in_cache, room_info}
use omarchy_chatd.Base.{
  ℕ, ◌+◌, max, ◌≡◌, refl, ap, Bool, true, false, not, ◌&&◌, Option, none, some, List, [], ◌∷◌,
  arith, if◌then◌else◌, length, keep, Text,
}

unread_message : Option Text → Option ℕ → Text → Option ℕ → Bool → Bool
unread_message me at sender none threaded = false
unread_message me at sender (some ts) threaded = not threaded && is_after me at sender ts

unread_parsed : Option Text → Option ℕ → Option Parsed → Bool → Bool
unfolding unread_message
unread_parsed me at none threaded = false
unread_parsed me at (some p) threaded = unread_message me at (sender_of p) (message_time p) threaded

-- A message of another user, outside of threads, that came after what we last read.
unfoldable pub is_unread : Option Text → Option ℕ → CachedEvent → Bool
unfolding unread_parsed
is_unread me at ev = unread_parsed me at ev.parsed (in_thread ev.raw)

count_message_unread :
    (me : Option Text) (at : Option ℕ) (sender : Text) (ts : Option ℕ) (threaded : Bool) (f : Found)
    → (count_message me at sender ts threaded f).unread
      ≡ f.unread + (if unread_message me at sender ts threaded then 1 else 0)
unfolding count_message unread_message
count_message_unread me at sender none threaded f = omega arith
count_message_unread me at sender (some ts) true f = omega arith
count_message_unread me at sender (some ts) false f = refl

count_parsed_unread :
    (me : Option Text) (at : Option ℕ) (f : Found) (o : Option Parsed) (threaded : Bool)
    → (count_parsed me at f o threaded).unread
      ≡ f.unread + (if unread_parsed me at o threaded then 1 else 0)
unfolding count_parsed unread_parsed
count_parsed_unread me at f none threaded = omega arith
count_parsed_unread me at f (some p) threaded =
    count_message_unread me at (sender_of p) (message_time p) threaded f

count_events_unread :
    (me : Option Text) (at : Option ℕ) (evs : List CachedEvent) (f : Found)
    → (count_events me at evs f).unread ≡ f.unread + length (keep (is_unread me at) evs)
unfolding count_events count_event is_unread
count_events_unread me at [] f = omega arith
count_events_unread me at (ev ∷ evs) f =
    let one = count_parsed_unread me at f ev.parsed (in_thread ev.raw) in
    let more = count_events_unread me at evs (count_event me at f ev) in ground (arith, one, more)

abbrev pub unread_in : Option Text → Option ℕ → Option (List CachedEvent) → ℕ
unread_in me at none = 0
unread_in me at (some evs) = length (keep (is_unread me at) evs)

-- What a room counts as unread: what the SDK counts, or the unread messages of the cache if these are
-- more.
abbrev pub unread_of : Option Text → Facts → ℕ
unread_of me room =
    max room.num_unread_messages (unread_in me (read_at (our_receipt me room)) room.events)

seen_unread :
    (me : Option Text) (at : Option ℕ) (o : Option (List CachedEvent))
    → (seen_in_cache me at o).unread ≡ unread_in me at o
unfolding seen_in_cache
seen_unread me at none = refl
seen_unread me at (some evs) =
    omega (arith, count_events_unread me at evs (record { last_activity = none; unread = 0 }))

pub room_info_unread :
    (me : Option Text) (mode : Text → Bool → Bool → Text × Bool) (room : Facts)
    (activity : Activity)
    → (room_info me mode room activity).0.unread ≡ unread_of me room
unfolding room_info
room_info_unread me mode room activity =
    ap (max room.num_unread_messages) (seen_unread me (read_at (our_receipt me room)) room.events)
