-- ===== src/Rooms/Info.antt =====
-- The list of rooms (src/core.rs: `rooms`, `room_info`; src/protocol.rs: `RoomInfo`).
use omarchy_chatd.Rooms.Activity.{Activity, activity_of, CachedEvent, Found, count_events}
use omarchy_chatd.Bridge.Detect.{BridgeInfo, Room, detect}
use omarchy_chatd.Search.Members.{text_leb}
use omarchy_chatd.Reactions.Readers.{Thread, unthreaded, main_thread}
use omarchy_chatd.Messages.Events.{Parsed}
use omarchy_chatd.Base.{
  ℕ, max, Bool, true, false, not, Option, none, some, List, [], ◌∷◌, ltb, ◌==◌, if◌then◌else◌,
  or_else, unwrap_or, keep, sort_by, Text,
}

-- `RoomInfo`.
pub record RoomInfo : Type 0 where
  pub id : Text
  pub name : Text
  pub topic : Option Text
  pub encrypted : Bool
  pub direct : Bool
  pub avatar : Option Text
  pub unread : ℕ
  pub highlights : ℕ
  pub notifications : ℕ
  pub notification_mode : Text
  pub favourite : Bool
  pub low_priority : Bool
  pub last_activity : Option ℕ
  pub read_marker : Option Text
  pub bridge : Option BridgeInfo

-- What the SDK gives of a room; `none` stands for an error where it can answer with one. A receipt of
-- ours has its event and, if it says one, its time. `page` is what the server answers if it is asked.
pub record Facts : Type 0 where
  pub room_id : Text
  pub is_space : Bool
  pub display_name : Option Text
  pub encryption : Option Bool
  pub topic : Option Text
  pub avatar_url : Option Text
  pub receipts : Thread → Option (Option (Text × Option ℕ))
  pub num_unread_messages : ℕ
  pub num_unread_mentions : ℕ
  pub highlight_count : ℕ
  pub notification_count : ℕ
  pub events : Option (List CachedEvent)
  pub is_direct : Option Bool
  pub is_favourite : Bool
  pub is_low_priority : Bool
  pub recency_stamp : Option ℕ
  pub page : Option (List (Option Parsed))
  pub bridged : Room

-- Our receipt: of the first thread that has one.
first_receipt :
    (Thread → Option (Option (Text × Option ℕ))) → List Thread → Option (Text × Option ℕ)
first_receipt receipts [] = none
first_receipt receipts (t ∷ ts) =
    let rest = first_receipt receipts ts in
    elim (receipts t) [ some (some r) ↦ some r | some none ↦ rest | none ↦ rest ]

unfoldable pub our_receipt : Option Text → Facts → Option (Text × Option ℕ)
unfolding first_receipt
our_receipt none room = none
our_receipt (some me) room = first_receipt room.receipts (unthreaded ∷ main_thread ∷ [])

marker_of : Option (Text × Option ℕ) → Option Text
marker_of none = none
marker_of (some (event_id, ts)) = some event_id

unfoldable pub read_at : Option (Text × Option ℕ) → Option ℕ
read_at none = none
read_at (some (event_id, ts)) = ts

-- What the event cache shows; nothing if it cannot be read.
unfoldable pub seen_in_cache : Option Text → Option ℕ → Option (List CachedEvent) → Found
unfolding count_events
seen_in_cache me at none = record { last_activity = none; unread = 0 }
seen_in_cache me at (some evs) =
    count_events me at evs (record { last_activity = none; unread = 0 })

-- `room_info`: the room, whether the server was asked for its last message, and the times after it.
unfoldable pub room_info :
    Option Text → (Text → Bool → Bool → Text × Bool) → Facts → Activity → RoomInfo × Bool × Activity
unfolding our_receipt marker_of read_at seen_in_cache activity_of detect
room_info me notification_mode room activity =
    let receipt = our_receipt me room in
    let found = seen_in_cache me (read_at receipt) room.events in
    let encrypted = unwrap_or false room.encryption in
    let direct = unwrap_or false room.is_direct in
    let (latest, asked, after) = activity_of room.room_id found.last_activity room.page activity in
    (
      record {
        id = room.room_id;
        name = unwrap_or room.room_id room.display_name;
        topic = room.topic;
        encrypted = encrypted;
        direct = direct;
        avatar = room.avatar_url;
        unread = max room.num_unread_messages found.unread;
        highlights = max room.num_unread_mentions room.highlight_count;
        notifications = room.notification_count;
        notification_mode = (notification_mode room.room_id encrypted direct).0;
        favourite = room.is_favourite;
        low_priority = room.is_low_priority;
        last_activity = or_else room.recency_stamp latest;
        read_marker = marker_of receipt;
        bridge = detect room.bridged;
      },
      asked,
      after,
    )

-- The infos of the rooms, one after the other, with the ids of those whose server was asked.
unfoldable pub infos :
    Option Text
    → (Text → Bool → Bool → Text × Bool)
    → List Facts
    → Activity
    → List RoomInfo × List Text × Activity
unfolding room_info
infos me notification_mode [] activity = ([], [], activity)
infos me notification_mode (room ∷ rooms) activity =
    let (info, asked, after) = room_info me notification_mode room activity in
    let (rest, others, final) = infos me notification_mode rooms after in
    (info ∷ rest, if asked then room.room_id ∷ others else others, final)

-- `b.unread.cmp(&a.unread).then_with(|| a.name.cmp(&b.name))` is not greater.
unfoldable pub stays_first : RoomInfo → RoomInfo → Bool
unfolding text_leb
stays_first a b =
    if ltb b.unread a.unread
    then true
    else if a.unread == b.unread
    then text_leb a.name b.name
    else false

-- `rooms`, of the rooms that the client has joined, if there is one; `none` is an error. With it, the ids
-- of the rooms whose last message the server was asked for.
unfoldable pub rooms :
    Option Text
    → (Text → Bool → Bool → Text × Bool)
    → Option (List Facts)
    → Activity
    → Option (List RoomInfo) × List Text × Activity
unfolding infos sort_by stays_first
rooms me notification_mode none activity = (none, [], activity)
rooms me notification_mode (some in_rooms) activity =
    let (listed, asked, after) =
      infos me notification_mode (keep (λ r. not r.is_space) in_rooms) activity in
    (some (sort_by stays_first listed), asked, after)
