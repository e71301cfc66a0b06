-- ===== src/Rooms/Modes.antt =====
-- A mode that has been set is the one that is shown (src/core.rs: `notification_mode`,
-- `set_notification_mode`).
use mathlib.Core.Path.{subst}
use omarchy_chatd.Rooms.Settings.{
  RoomNotificationMode, all_messages, mentions_and_keywords_only, mute, NotificationSettings,
  IsSettings, mode_name, SettingsError, Change, to_mode, reset, change_of, Notifying, mode_of,
  notification_mode, apply_change, excused, conclude, set_known, set_notification_mode,
}
use omarchy_chatd.Base.{
  ℕ, ◌+◌, ◌≡◌, refl, ap, ◌∙◌, Bool, true, false, Option, none, some, Text, codes, text_eq,
}

change_of-mode_name : (m : RoomNotificationMode) → change_of (mode_name m) ≡ some (to_mode m)
unfolding change_of mode_name text_eq
change_of-mode_name all_messages = refl
change_of-mode_name mentions_and_keywords_only = refl
change_of-mode_name mute = refl

change_of-default : change_of (codes "default") ≡ some reset
unfolding change_of text_eq
change_of-default = refl

module _ {S : Type 0} (api : NotificationSettings S) (h : IsSettings S api) where
  mode_of-set :
      (room : Text) (m : RoomNotificationMode) (encrypted direct : Bool) (s : S)
      → (api.set_mode room m s).0 ≡ none
      → mode_of api room encrypted direct (api.set_mode room m s).1 ≡ (mode_name m, true)
  unfolding mode_of
  mode_of-set room m encrypted direct s e = rw (h.set_seen room m s e, mode_of) refl

  mode_of-delete :
      (room : Text) (encrypted direct : Bool) (s : S)
      → (api.delete_rules room s).0 ≡ none
      → mode_of api room encrypted direct (api.delete_rules room s).1
        ≡ (mode_name (api.default_mode encrypted direct s), false)
  unfolding mode_of
  mode_of-delete room encrypted direct s e =
      rw (h.delete_seen room s e, h.default_kept room s encrypted direct, mode_of) refl

  -- A command that succeeds has made its change and announced it.
  conclude-none :
      (o : Option Text) (s : S) (n : ℕ)
      → (conclude api o s n).0 ≡ none
      → (o ≡ none) × (conclude api o s n ≡ (none, record { settings = s; rooms_changed = n + 1 }))
  unfolding conclude
  conclude-none none s n e = (refl, refl)
  conclude-none (some t) s n e = absurd (cc)

  -- One that fails announces nothing.
  conclude-some :
      (o : Option Text) (s : S) (n : ℕ) {e : SettingsError}
      → (conclude api o s n).0 ≡ some e
      → (conclude api o s n).1.rooms_changed ≡ n
  unfolding conclude
  conclude-some none s n h = absurd (cc)
  conclude-some (some t) s n h = refl

  set_to_mode :
      (room : Text) (m : RoomNotificationMode) (w : Notifying S)
      → set_notification_mode api (some room) true (mode_name m) w
        ≡ conclude api
            (api.set_mode room m w.settings).0
            (api.set_mode room m w.settings).1
            w.rooms_changed
  unfolding set_notification_mode set_known excused apply_change
  set_to_mode room m w = rw (change_of-mode_name m, set_known) refl

  reset_known :
      (room : Text) (w : Notifying S)
      → (api.delete_rules room w.settings).0 ≡ none
      → set_known api room (some reset) w ≡ (
        none,
        record {
          settings = (api.delete_rules room w.settings).1;
          rooms_changed = w.rooms_changed + 1;
        },
      )
  unfolding set_known excused apply_change conclude
  reset_known room w e = rw e refl

  set_to_default :
      (room : Text) (w : Notifying S)
      → (api.delete_rules room w.settings).0 ≡ none
      → set_notification_mode api (some room) true (codes "default") w ≡ (
        none,
        record {
          settings = (api.delete_rules room w.settings).1;
          rooms_changed = w.rooms_changed + 1;
        },
      )
  unfolding set_notification_mode
  set_to_default room w e =
      ap (λ c. set_known api room c w) change_of-default ∙ reset_known room w e

  set_known_fails :
      (room : Text) (c : Option Change) (w : Notifying S) {e : SettingsError}
      → (set_known api room c w).0 ≡ some e
      → (set_known api room c w).1.rooms_changed ≡ w.rooms_changed
  unfolding set_known
  set_known_fails room none w h = refl
  set_known_fails room (some c) w h =
      let result = apply_change api room c w.settings in
      conclude-some (excused api c result.0) result.1 w.rooms_changed h

  fails :
      (known : Option Text) (signed_in : Bool) (mode : Text) (w : Notifying S) {e : SettingsError}
      → (set_notification_mode api known signed_in mode w).0 ≡ some e
      → (set_notification_mode api known signed_in mode w).1.rooms_changed ≡ w.rooms_changed
  unfolding set_notification_mode
  fails none signed_in mode w h = refl
  fails (some room) false mode w h = refl
  fails (some room) true mode w h = set_known_fails room (change_of mode) w h

  -- Setting a mode by its name, where that succeeds, makes it the one that is shown, as the room's own;
  -- setting `default`, where the rules are deleted, shows the default as not its own; each is announced
  -- once, and whatever fails is not announced.
  pub set_notification_mode_lem :
      (room : Text) (encrypted direct : Bool) (w : Notifying S)
      → ((m : RoomNotificationMode)
          → (set_notification_mode api (some room) true (mode_name m) w).0 ≡ none
          → let w' = (set_notification_mode api (some room) true (mode_name m) w).1 in
            (notification_mode api room encrypted direct (some w'.settings) ≡ (mode_name m, true))
            × (w'.rooms_changed ≡ w.rooms_changed + 1))
        × ((api.delete_rules room w.settings).0 ≡ none
            → let (failure, w') = set_notification_mode api (some room) true (codes "default") w in
              (failure ≡ none)
              × (notification_mode api room encrypted direct (some w'.settings)
                  ≡ (mode_name (api.default_mode encrypted direct w.settings), false))
              × (w'.rooms_changed ≡ w.rooms_changed + 1))
        × ((known : Option Text) (signed_in : Bool) (mode : Text) (e : SettingsError)
            → (set_notification_mode api known signed_in mode w).0 ≡ some e
            → (set_notification_mode api known signed_in mode w).1.rooms_changed ≡ w.rooms_changed)
  unfolding notification_mode
  set_notification_mode_lem room encrypted direct w = (
    λ m e.
        let result = api.set_mode room m w.settings in
        let (done, after) =
          conclude-none result.0 result.1 w.rooms_changed
            (subst (λ r. r.0 ≡ none) (set_to_mode room m w) e) in
        rw (set_to_mode room m w ∙ after)
          (mode_of-set room m encrypted direct w.settings done, refl),
    λ e.
        rw (set_to_default room w e)
          (refl, mode_of-delete room encrypted direct w.settings e, refl),
    λ known signed_in mode e. fails known signed_in mode w,
  )
