-- ===== src/Timeline/Tests.antt =====
-- Concrete runs of the timeline's theorems.
use omarchy_chatd.Base.{
  ℕ, ◌+◌, ◌-◌, ◌≤◌, ◌≡◌, refl, inl, inr, true, none, some, List, [], ◌∷◌, map, arith, leb, ◌==◌,
  if◌then◌else◌, Bool-cases, drop, keep, Text, codes, text_eq,
}
use omarchy_chatd.Json.{str, obj, end, field}
use omarchy_chatd.Timeline.Events.{Event, is_message_like, is_thread_reply}
use omarchy_chatd.Timeline.Chunks.{contiguous_tail}
use omarchy_chatd.Timeline.Page.{Cache, have_of, timeline}
use omarchy_chatd.Timeline.Listing.{Chunk, gap, items, show, events_after_gap, contiguous_tail-show}
use omarchy_chatd.Timeline.Thread.{ThreadCache, replies, thread}
use omarchy_chatd.Timeline.Replies.{IsDistinctBatch, IsThreadPage, thread-IsThreadPage}
use omarchy_chatd.Timeline.Walk.{is_line}
use omarchy_chatd.Timeline.Pages.{IsDistinct, read_all, read_all_lem}
use omarchy_chatd.Timeline.Bounded.{IsReply, timeline-IsReply}

abbrev typed : Text → Text → Event
typed kind id = record {
  raw = obj (field (codes "type") (str kind) end);
  event_id = some id;
  redacts = none;
}

-- A room of three messages with a topic change among them.
abbrev room_events : List Event
room_events =
    typed (codes "m.room.message") (codes "$1")
    ∷ typed (codes "m.room.topic") (codes "$2")
    ∷ typed (codes "m.room.message") (codes "$3")
    ∷ typed (codes "m.room.message") (codes "$4")
    ∷ []

room_events-IsDistinct : IsDistinct room_events
room_events-IsDistinct = ground arith

read_all_lem_example :
    read_all is_message_like 2 room_events 5 none ≡ some (keep is_line room_events)
read_all_lem_example =
    read_all_lem is_message_like 2 room_events (omega arith) (ground arith) room_events-IsDistinct

-- A cache that holds the room's end and gives one older event by each pagination.
abbrev growing : Cache
growing = record {
  Held = ℕ;
  events = λ n. some (drop (4 - n) room_events);
  listing = λ n. codes "chunk #0: [#0: $1, #1: $2, #2: $3, #3: $4]" ∷ [];
  run_backwards_once = λ _ n. some (leb 3 n, n + 1);
}

abbrev listed : List Chunk
listed =
    items (codes "0") (record { order = codes "0"; id = codes "$a" } ∷ [])
    ∷ gap (codes "1") (codes "t1")
    ∷ items (codes "2") (
        record { order = codes "1"; id = codes "$b" }
        ∷ record { order = codes "2"; id = codes "$c" }
        ∷ [])
    ∷ []

contiguous_tail-show_example : contiguous_tail (map show listed) ≡ 2
unfolding events_after_gap
contiguous_tail-show_example = contiguous_tail-show listed (ground arith)

timeline-IsReply_example :
    let (reply, n) = timeline growing 500 none 1 in IsReply 200 reply × (n ≤ 12)
timeline-IsReply_example = timeline-IsReply growing 500 none 1

-- A thread whose first batch overlaps with the reply that is held, and has the root.
abbrev thread_of_two : ThreadCache
thread_of_two = record {
  initial = some (typed (codes "m.room.message") (codes "$3") ∷ []);
  older_batch = λ n _.
      if n == 0
      then some (
        typed (codes "m.room.message") (codes "$3")
            ∷ typed (codes "m.room.message") (codes "$2")
            ∷ typed (codes "m.room.message") (codes "$1")
            ∷ [],
        true,
      )
      else none;
}

batches_distinct : (n size : ℕ) → IsDistinctBatch (thread_of_two.older_batch n size)
unfolding text_eq
batches_distinct n size = elim (Bool-cases (n == 0)) [
  | inl e ↦ rw e ((refl, (refl, tt)), ((refl, tt), (tt, tt)))
  | inr e ↦ rw e tt
]

thread-IsThreadPage_example : IsThreadPage (codes "$1") 5 (thread thread_of_two (codes "$1") 5 none)
thread-IsThreadPage_example =
    thread-IsThreadPage thread_of_two (codes "$1") 5 none (tt, tt) batches_distinct

thread_of_two_page :
    thread thread_of_two (codes "$1") 5 none
    ≡ replies
        (typed (codes "m.room.message") (codes "$2")
          ∷ typed (codes "m.room.message") (codes "$3")
          ∷ [])
        none
        true
unfolding thread text_eq have_of is_thread_reply
thread_of_two_page = refl
