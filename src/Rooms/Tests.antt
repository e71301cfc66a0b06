-- ===== src/Rooms/Tests.antt =====
-- Concrete runs of the theorems on the rooms.

use omarchy_chatd.Rooms.Settings.{
  RoomNotificationMode, all_messages, mentions_and_keywords_only, NotificationSettings, IsSettings,
  mode_name, SettingsError, Notifying, notification_mode, set_notification_mode,
}
use omarchy_chatd.Rooms.Modes.{set_notification_mode_lem}
use omarchy_chatd.Rooms.Sending.{threaded, send_message, Server, send}
use omarchy_chatd.Rooms.Sent.{relation_to, IsThere, IsMade, send_lem}
use omarchy_chatd.Rooms.Activity.{Activity}
use omarchy_chatd.Rooms.Info.{Facts, rooms}
use omarchy_chatd.Messages.Events.{redacted_message}
use omarchy_chatd.Base.{
  ℕ, ◌+◌, ◌≡◌, refl, Bool, true, false, Option, none, some, List, [], ◌∷◌, if◌then◌else◌, Text,
  codes, text_eq, text_eq_refl,
}

-- Settings that are the modes of the rooms, and never fail.
abbrev Modes : Type 0
Modes = Text → Option RoomNotificationMode

abbrev put_mode : Text → Option RoomNotificationMode → Modes → Modes
put_mode room m s k = if text_eq room k then m else s k

abbrev in_memory : NotificationSettings Modes
in_memory = record {
  user_defined = λ room s. s room;
  default_mode =
      λ encrypted one_to_one s. if one_to_one then all_messages else mentions_and_keywords_only;
  set_mode = λ room m s. (none, put_mode room (some m) s);
  delete_rules = λ room s. (none, put_mode room none s);
}

in_memory-IsSettings : IsSettings Modes in_memory
in_memory-IsSettings = record {
  set_seen = λ room m s e. rw (text_eq_refl room) refl;
  delete_seen = λ room s e. rw (text_eq_refl room) refl;
  default_kept = λ room s encrypted one_to_one. refl;
}

abbrev fresh : Notifying Modes
fresh = record { settings = λ _. none; rooms_changed = 0 }

set_notification_mode_lem_example :
    ((m : RoomNotificationMode)
      → (set_notification_mode in_memory (some (codes "!r")) true (mode_name m) fresh).0 ≡ none
      → let w' = (set_notification_mode in_memory (some (codes "!r")) true (mode_name m) fresh).1 in
        (notification_mode in_memory (codes "!r") true false (some w'.settings)
          ≡ (mode_name m, true))
        × (w'.rooms_changed ≡ 0 + 1))
    × ((in_memory.delete_rules (codes "!r") fresh.settings).0 ≡ none
        → let (failure, w') =
            set_notification_mode in_memory (some (codes "!r")) true (codes "default") fresh in
          (failure ≡ none)
          × (notification_mode in_memory (codes "!r") true false (some w'.settings)
              ≡ (mode_name mentions_and_keywords_only, false))
          × (w'.rooms_changed ≡ 0 + 1))
    × ((known : Option Text) (signed_in : Bool) (mode : Text) (e : SettingsError)
        → (set_notification_mode in_memory known signed_in mode fresh).0 ≡ some e
        → (set_notification_mode in_memory known signed_in mode fresh).1.rooms_changed ≡ 0)
set_notification_mode_lem_example =
    set_notification_mode_lem in_memory in_memory-IsSettings (codes "!r") true false fresh

abbrev server : Server
server = record {
  is_room_id = λ _. true;
  is_event_id = λ _. true;
  rooms = some (λ _. true);
  is_built = λ _. true;
  answer = λ _. some (codes "$new");
}

-- A reply in a thread.
send_lem_example :
    IsThere server (codes "!r")
    × IsMade server
        (send_message (codes "!r") (codes "hi") (
          some (record {
            event_id = codes "$a";
            enforce_thread = threaded true;
            add_mentions = true;
          })))
        (codes "$new")
        (send server (codes "!r") (codes "hi") (some (codes "$a")) (some (codes "$root"))).1
unfolding relation_to
send_lem_example =
    send_lem server (codes "!r") (codes "hi") (some (codes "$a")) (some (codes "$root"))
      (unfold send in refl)

-- A room whose server answers with a message, and the space.
abbrev a_room : Text → Bool → ℕ → Facts
a_room id is_space unread = record {
  room_id = id;
  is_space = is_space;
  display_name = none;
  encryption = some true;
  topic = none;
  avatar_url = none;
  receipts = λ _. none;
  num_unread_messages = unread;
  num_unread_mentions = 0;
  highlight_count = 0;
  notification_count = 0;
  events = none;
  is_direct = none;
  is_favourite = false;
  is_low_priority = false;
  recency_stamp = none;
  page = some (
      some (redacted_message (record { event_id = codes "$a"; sender = codes "@a:x"; ts = 9 }))
      ∷ []);
  bridged = record {
    to_uppercase = λ c. [];
    parse_user = λ _. none;
    state_events = λ _. none;
    joined_members = 100;
    members = none;
  };
}

abbrev now_in : List Facts
now_in = a_room (codes "!a") false 0 ∷ a_room (codes "!s") true 0 ∷ a_room (codes "!b") false 2 ∷ []

abbrev later_in : List Facts
later_in = a_room (codes "!a") false 5 ∷ a_room (codes "!b") false 0 ∷ []

abbrev by_default : Text → Bool → Bool → Text × Bool
by_default _ _ _ = (codes "all", false)

abbrev nothing_known : Activity
nothing_known _ = none
