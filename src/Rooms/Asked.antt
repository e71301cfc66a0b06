-- ===== src/Rooms/Asked.antt =====
-- How often the server is asked for the last message of a room (src/core.rs: `activity_of`, `room_info`,
-- `rooms`).
use mathlib.Core.List.{Permᴰ}
use omarchy_chatd.Rooms.Unread.{unread_of}
use omarchy_chatd.Rooms.Info.{RoomInfo, Facts, rooms}
use omarchy_chatd.Rooms.Listed.{Before}
use omarchy_chatd.Rooms.Activity.{Activity}
use omarchy_chatd.Base.{
  ℕ, ◌≡◌, Bool, true, false, not, Option, none, List, map, is_some, unwrap_or, keep, All, Pairwise,
  Text,
}

abbrev pub IsKnown : Activity → Text → Type 0
IsKnown activity key = is_some (activity key) ≡ true

-- A look at a room: its server is asked only if it is not known, and it is known afterwards, as is every
-- room that was.
record IsLook (key : Text) (before : Activity) (asked : Bool) (after : Activity) : Type 0 where
  pub only_unknown : asked ≡ true → before key ≡ none
  pub at_most_once : IsKnown before key → asked ≡ false
  pub now_known : IsKnown after key
  pub kept : (k : Text) → IsKnown before k → IsKnown after k

-- A walk over rooms.
record IsWalk (rooms : List Facts) (before : Activity) (asked : List Text) (after : Activity)
    : Type 0 where
  pub unknown : All (λ k. before k ≡ none) asked
  pub all_known : All (λ (r : Facts). IsKnown after r.room_id) rooms
  pub still_known : (k : Text) → IsKnown before k → IsKnown after k

-- What an entry shows of its room: the id, the name and how many messages are unread.
abbrev pub Shown : Type 0
Shown = Text × Text × ℕ

abbrev pub shown : RoomInfo → Shown
shown i = (i.id, i.name, i.unread)

-- The same of the room: its name, or its id where it has none.
abbrev pub to_show : Option Text → Facts → Shown
to_show me room = (room.room_id, unwrap_or room.room_id room.display_name, unread_of me room)

abbrev pub chats_of : List Facts → List Facts
chats_of in_rooms = keep (λ (r : Facts). not r.is_space) in_rooms

-- What a list of rooms is: in order, and of exactly the entries of the rooms that are no spaces.
pub record IsList (me : Option Text) (in_rooms : List Facts) (listed : List RoomInfo) : Type 0 where
  pub entries : List RoomInfo
  pub one_each : map shown entries ≡ map (to_show me) (chats_of in_rooms)
  pub same_entries : Permᴰ entries listed
  pub in_order : Pairwise Before listed

abbrev pub ids_of : List Facts → List Text
ids_of rooms = map (λ (r : Facts). r.room_id) rooms
