-- ===== src/Session/Tests.antt =====
-- Concrete runs of the session's theorems.
use omarchy_chatd.Base.{◌≡◌, refl, true, false, none, some, List, [], ◌∷◌, arith, Text, codes}
use omarchy_chatd.Session.Types.{password, Secret, Persisted, Client, World, initial}
use omarchy_chatd.Session.Disk.{
  complete, SaveAnswers, save_session, load_session, all_removed, forget_session,
}
use omarchy_chatd.Session.Login.{BuildAnswers, LoginAnswers, login, logout, RestoreAnswers, restore}
use omarchy_chatd.Session.Sync.{Reply, synced, failed, sync_live}
use omarchy_chatd.Session.RoundTrip.{
  IsOpen, secret_of, load-save, IsForgotten, forget_session-IsForgotten,
}
use omarchy_chatd.Session.Commands.{
  by_login, by_logout, started, next, IsFresh, IsSoundBut, Reach-IsSoundBut,
}
use omarchy_chatd.Session.Live.{Shows, sync_live-Shows}
use omarchy_chatd.Secrets.{answered, timed_out, doc, file, LoadAnswers}

abbrev open_keyring : LoadAnswers
open_keyring = record {
  reach = answered;
  locked = false;
  unlock = answered;
  still_locked = false;
  search = answered;
  item_locked = false;
  item_unlock = true;
  readable = true;
}

abbrev open_keyring-IsOpen : IsOpen open_keyring
open_keyring-IsOpen = record {
  reachable = refl;
  unlocked = refl;
  searched = refl;
  item_unlocked = refl;
  item_read = refl;
}

abbrev to_keyring : SaveAnswers
to_keyring = record { reach = answered; create = answered; write = complete }

abbrev to_file : SaveAnswers
to_file = record { reach = timed_out; create = answered; write = complete }

abbrev ann : Client
ann = record {
  user_id = some (codes "@ann:x");
  homeserver = codes "x";
  full_session = some (codes "id", codes "user");
  matrix_session = some (codes "s1");
}

abbrev saved_ann : Persisted
saved_ann = record {
  homeserver = codes "x";
  store_path = codes "st";
  sync_token = none;
  secrets = none;
  store_passphrase = none;
  auth = none;
}

abbrev ann_secret : Secret
ann_secret = record { store_passphrase = codes "pw"; auth = password (codes "s1") }

-- The file as an older version wrote it: the secrets are in it, and no backend is named.
abbrev old_file : Persisted
old_file = record saved_ann {
  store_passphrase = some (codes "pw");
  auth = some (password (codes "s1"));
}

abbrev with_old_file : World
with_old_file = record initial { session_file = doc old_file; stores = codes "st" ∷ [] }

abbrev restored : RestoreAnswers
restored = record { load = open_keyring; save = to_keyring; built = some ann; taken = true }

abbrev building : Text → BuildAnswers
building path = record { store_path = path; passphrase = codes "pw"; built = some ann }

abbrev granted : Text → LoginAnswers
granted path = record { build = building path; accepted = true; save = to_keyring }

with_old_file-IsFresh : IsFresh with_old_file
with_old_file-IsFresh = ground arith

-- Restored, signed out, and signed in again.
abbrev signed_in_again : World
signed_in_again =
    (login (granted (codes "s2"))
      (logout answered all_removed (restore restored with_old_file).1).1).1

Reach-IsSoundBut_example : IsSoundBut 0 signed_in_again
Reach-IsSoundBut_example =
    Reach-IsSoundBut restored with_old_file with_old_file-IsFresh
      (next (next started (by_logout answered all_removed)) (by_login (granted (codes "s2"))))

load-save_example :
    secret_of
      (load_session open_keyring to_keyring false
        (save_session to_file saved_ann ann_secret initial).1).0
    ≡ some ann_secret
load-save_example =
    load-save open_keyring to_file to_keyring false saved_ann ann_secret initial
      {p = record old_file { secrets = some file }}
      {w' = (save_session to_file saved_ann ann_secret initial).1} (unfold save_session in refl)
      open_keyring-IsOpen refl

forget_session-IsForgotten_example :
    IsForgotten old_file (forget_session answered all_removed with_old_file).1
    × (let w' = (forget_session timed_out all_removed with_old_file).1 in
        (w'.store_passphrase ≡ none)
        × (w'.secrets_backend ≡ none)
        × (w'.syncing ≡ false)
        × (w'.error ≡ none))
forget_session-IsForgotten_example =
    forget_session-IsForgotten with_old_file old_file timed_out all_removed refl

-- A failure, a failure, a success, a failure.
abbrev flaky : List Reply
flaky = failed ∷ failed ∷ synced (codes "t") complete ∷ failed ∷ []

sync_live-Shows_example : Shows (some failed) (sync_live flaky with_old_file).1
sync_live-Shows_example = sync_live-Shows flaky with_old_file (omega arith)
