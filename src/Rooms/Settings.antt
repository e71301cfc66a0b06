-- ===== src/Rooms/Settings.antt =====
-- How a room notifies (src/core.rs: `settings`, `notification_mode`, `set_notification_mode`).
use omarchy_chatd.Base.{
  ℕ, ◌+◌, ◌≡◌, Bool, true, false, Option, none, some, if◌then◌else◌, Text, codes, text_eq, contains,
}

-- `RoomNotificationMode`.
pub data RoomNotificationMode : Type 0 where
  all_messages mentions_and_keywords_only mute : RoomNotificationMode

-- The notification settings of the SDK on a state `S`: a change gives the text of its error, if it
-- fails.
pub record NotificationSettings (S : Type 0) : Type 0 where
  pub user_defined : Text → S → Option RoomNotificationMode
  pub default_mode : Bool → Bool → S → RoomNotificationMode
  pub set_mode : Text → RoomNotificationMode → S → Option Text × S
  pub delete_rules : Text → S → Option Text × S

-- What is documented of them: a change that succeeds is seen, and the rules of the other rooms and the
-- defaults stay.
pub record IsSettings (S : Type 0) (api : NotificationSettings S) : Type 0 where
  pub set_seen :
      (room : Text) (mode : RoomNotificationMode) (s : S)
      → (api.set_mode room mode s).0 ≡ none
      → api.user_defined room (api.set_mode room mode s).1 ≡ some mode
  pub delete_seen :
      (room : Text) (s : S)
      → (api.delete_rules room s).0 ≡ none
      → api.user_defined room (api.delete_rules room s).1 ≡ none
  pub default_kept :
      (room : Text) (s : S) (encrypted one_to_one : Bool)
      → api.default_mode encrypted one_to_one (api.delete_rules room s).1
        ≡ api.default_mode encrypted one_to_one s

unfoldable pub mode_name : RoomNotificationMode → Text
mode_name all_messages = codes "all"
mode_name mentions_and_keywords_only = codes "mentions"
mode_name mute = codes "mute"

pub data SettingsError : Type 0 where
  no_room not_logged_in unknown_mode : SettingsError
  not_updated : Text → SettingsError

-- The change that a name asks for; `reset` is that to the default.
pub data Change : Type 0 where
  to_mode : RoomNotificationMode → Change
  reset : Change

unfoldable pub change_of : Text → Option Change
unfolding text_eq
change_of mode =
    if text_eq mode (codes "all")
    then some (to_mode all_messages)
    else if text_eq mode (codes "mentions")
    then some (to_mode mentions_and_keywords_only)
    else if text_eq mode (codes "mute")
    then some (to_mode mute)
    else if text_eq mode (codes "default")
    then some reset
    else none

-- The settings, and how often it was announced that the rooms have changed.
pub record Notifying (S : Type 0) : Type 0 where
  pub settings : S
  pub rooms_changed : ℕ

module _ {S : Type 0} (api : NotificationSettings S) where
  -- `notification_mode`: the name of the room's mode, and whether it is the room's own. `none` stands for
  -- no settings, as nobody is signed in.
  unfoldable pub mode_of : Text → Bool → Bool → S → Text × Bool
  unfolding mode_name
  mode_of room encrypted direct s = elim (api.user_defined room s) [
    | some m ↦ (mode_name m, true)
    | none ↦ (mode_name (api.default_mode encrypted direct s), false)
  ]

  unfoldable pub notification_mode : Text → Bool → Bool → Option S → Text × Bool
  unfolding mode_of
  notification_mode room encrypted direct none = (codes "all", false)
  notification_mode room encrypted direct (some s) = mode_of room encrypted direct s

  unfoldable pub apply_change : Text → Change → S → Option Text × S
  apply_change room (to_mode m) s = api.set_mode room m s
  apply_change room reset s = api.delete_rules room s

  -- A reset to the default that does not find all rules is still one.
  unfoldable pub excused : Change → Option Text → Option Text
  unfolding contains
  excused reset (some e) = if contains e (codes "M_NOT_FOUND") then none else some e
  excused _ e = e

  unfoldable pub conclude : Option Text → S → ℕ → Option SettingsError × Notifying S
  conclude (some e) s n = (some (not_updated e), record { settings = s; rooms_changed = n })
  conclude none s n = (none, record { settings = s; rooms_changed = n + 1 })

  unfoldable pub set_known : Text → Option Change → Notifying S → Option SettingsError × Notifying S
  unfolding apply_change excused conclude
  set_known room none w = (some unknown_mode, w)
  set_known room (some c) w =
      let result = apply_change room c w.settings in
      conclude (excused c result.0) result.1 w.rooms_changed

  -- `set_notification_mode`, of a room that is known or not, by a client that is signed in or not.
  unfoldable pub set_notification_mode :
      Option Text → Bool → Text → Notifying S → Option SettingsError × Notifying S
  unfolding set_known change_of
  set_notification_mode none signed_in mode w = (some no_room, w)
  set_notification_mode (some room) false mode w = (some not_logged_in, w)
  set_notification_mode (some room) true mode w = set_known room (change_of mode) w
