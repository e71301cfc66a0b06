-- ===== src/Session/Placement.antt =====
-- Where the secrets of a saved session are (src/core.rs: `save_session` and what rewrites the file).
use omarchy_chatd.Base.{◌≡◌, ◌⊎◌, true, none, some, arith, is_some}
use omarchy_chatd.Session.Types.{Secret, Persisted, World, ok}
use omarchy_chatd.Secrets.{Doc, doc, keyring, file}
use omarchy_chatd.Session.Disk.{SaveAnswers, save_session}

-- The secrets are in one place: a file that points to the keyring carries none, and a file that is
-- its own backend carries both.
pub record IsPlaced (p : Persisted) : Type 0 where
  pub in_keyring : p.secrets ≡ some keyring → (p.store_passphrase ≡ none) × (p.auth ≡ none)
  pub in_file :
      p.secrets ≡ some file → (is_some p.store_passphrase ≡ true) × (is_some p.auth ≡ true)

abbrev pub FileIsPlaced : Doc Persisted → Type 0
FileIsPlaced (doc p) = IsPlaced p
FileIsPlaced _ = Unit

-- What a save that succeeded has done: the file holds what it returns, and the secrets are either
-- the keyring's item, with none in the file, or in the file, with the item as it was.
pub record IsSaved (saved : Persisted) (s : Secret) (w : World) (p : Persisted) (w' : World)
    : Type 0 where
  pub written : w'.session_file ≡ doc p
  pub backend : w'.secrets_backend ≡ p.secrets
  pub same_server : p.homeserver ≡ saved.homeserver
  pub same_store : p.store_path ≡ saved.store_path
  pub same_token : p.sync_token ≡ saved.sync_token
  pub placed :
      ((p.secrets ≡ some keyring)
        × (p.store_passphrase ≡ none)
        × (p.auth ≡ none)
        × (w'.item ≡ some (some s)))
      ⊎ ((p.secrets ≡ some file)
          × (p.store_passphrase ≡ some s.store_passphrase)
          × (p.auth ≡ some s.auth)
          × (w'.item ≡ w.item))

-- A save that succeeds writes what it returns, which keeps the server, the store and the token; and
-- the secrets are either the keyring's item, with none in the file, or in the file, with the item
-- as it was.
pub save_session-IsSaved :
    (a : SaveAnswers) (saved : Persisted) (s : Secret) (w : World) {p : Persisted} {w' : World}
    → save_session a saved s w ≡ (ok p, w')
    → IsSaved saved s w p w'
unfolding save_session
save_session-IsSaved a saved s w h = ground arith

pub save_session-FileIsPlaced :
    (a : SaveAnswers) (saved : Persisted) (s : Secret) (w : World)
    → FileIsPlaced w.session_file
    → FileIsPlaced (save_session a saved s w).1.session_file
unfolding save_session
save_session-FileIsPlaced a saved s w h = ground arith

-- A save touches nothing else of the state.
pub save_session_frame :
    (a : SaveAnswers) (saved : Persisted) (s : Secret) (w : World)
    → let w' = (save_session a saved s w).1 in
      (w'.client ≡ w.client)
      × (w'.notification_settings ≡ w.notification_settings)
      × (w'.sync_task ≡ w.sync_task)
      × (w'.pending ≡ w.pending)
      × (w'.store_passphrase ≡ w.store_passphrase)
      × (w'.running ≡ w.running)
      × (w'.stores ≡ w.stores)
      × (w'.syncing ≡ w.syncing)
      × (w'.error ≡ w.error)
unfolding save_session
save_session_frame a saved s w = ground arith
