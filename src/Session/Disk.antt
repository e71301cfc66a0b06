-- ===== src/Session/Disk.antt =====
-- Saving, loading and discarding the session (src/core.rs: `save_session`, `load_session`,
-- `forget_session`, `persist_tokens`, `persist_sync_token`, `write_private`).
use omarchy_chatd.Base.{Bool, true, false, Option, none, some, if◌then◌else◌, Text}
use omarchy_chatd.Secrets
use omarchy_chatd.Session.Types.{
  Auth, password, oauth, Secret, Persisted, Client, not_read, not_parsed, not_written, no_secrets,
  keyring_fault, no_keyring_entry, entry_not_parsed, no_passphrase, no_session, World, Result, ok,
  err, M, pure, raise, gets, attempt, modify, ◌>>=◌, ◌>>◌, or_raise, broadcast_state, remove_path,
}
use omarchy_chatd.Secrets.{
  Answer, Doc, absent, garbled, doc, Backend, keyring, file, Blob, store, LoadAnswers, load, forget,
}

-- How a write to a file ends: the open (which truncates) fails and the file is as it was, or the
-- write breaks off and what is left does not parse, or all is written.
pub data Written : Type 0 where
  not_opened broken_off complete : Written

-- `write_private` on `session.json`.
pub write_session : Written → Persisted → M (Unit {0})
write_session not_opened p = raise not_written
write_session broken_off p = do modify (λ w. record w { session_file = garbled }); raise not_written
write_session complete p = modify (λ w. record w { session_file = doc p })

-- Reading `session.json`: the file, then its JSON.
pub read_session : M Persisted
read_session = do
  d ← gets (λ w. w.session_file)
  elim d [ absent ↦ raise not_read | garbled ↦ raise not_parsed | doc p ↦ pure p ]

-- The keyring's and the file system's answers to `save_session`.
pub record SaveAnswers : Type 0 where
  pub reach : Answer
  pub create : Answer
  pub write : Written

-- `secrets::store` from `Core`.
pub store_item : SaveAnswers → Secret → M (Unit {0})
unfolding store
store_item a s w =
    let (r, i) = store a.reach a.create s w.item in
    (elim r [ Secrets.ok _ ↦ ok tt | Secrets.err e ↦ err (keyring_fault e) ], record w { item = i })

-- What `save_session` writes, by whether the keyring took the secrets.
placed_by : Result (Unit {0}) → Persisted → Secret → Persisted
placed_by (ok _) saved s = record saved {
  secrets = some keyring;
  store_passphrase = none;
  auth = none;
}
placed_by (err _) saved s = record saved {
  secrets = some file;
  store_passphrase = some s.store_passphrase;
  auth = some s.auth;
}

-- `Core::save_session`.
unfoldable pub save_session : SaveAnswers → Persisted → Secret → M Persisted
unfolding store_item write_session placed_by
save_session a saved s = do
  stored ← attempt (store_item a s)
  let placed = placed_by stored saved s
  write_session a.write placed
  modify (λ w. record w { secrets_backend = placed.secrets })
  pure placed

-- `secrets::load` from `Core`.
pub load_item : LoadAnswers → Bool → M (Option (Blob Secret))
unfolding load
load_item a prompt w =
    let (r, asked) = load a prompt w.item in
    (elim r [ Secrets.ok i ↦ ok i | Secrets.err e ↦ err (keyring_fault e) ], w)

-- The secrets in the keyring's item.
pub parse_item : Option (Blob Secret) → M Secret
parse_item none = raise no_keyring_entry
parse_item (some none) = raise entry_not_parsed
parse_item (some (some s)) = pure s

-- The secrets of a file that carries none itself, by its `secrets` field.
load_from : LoadAnswers → Bool → Persisted → Option Backend → M (Persisted × Secret)
unfolding load_item parse_item
load_from l prompt saved (some keyring) = do
  i ← load_item l prompt
  s ← parse_item i
  pure (saved, s)
load_from l prompt saved _ = raise no_secrets

-- The secrets of the file, given the inline ones that were taken from it.
load_taken :
    LoadAnswers
    → SaveAnswers
    → Bool
    → Persisted
    → Option Text
    → Option Auth
    → M (Persisted × Secret)
unfolding load_from save_session
load_taken l a prompt saved (some pass) (some auth) =
    let s : Secret = record { store_passphrase = pass; auth = auth } in
    do saved' ← save_session a saved s; pure (saved', s)
load_taken l a prompt saved _ _ = load_from l prompt saved saved.secrets

-- `Core::load_session`: `take` leaves `None` behind in both fields.
unfoldable pub load_session : LoadAnswers → SaveAnswers → Bool → M (Persisted × Secret)
unfolding read_session load_taken
load_session l a prompt = do
  saved ← read_session
  load_taken l a prompt (record saved { store_passphrase = none; auth = none })
      saved.store_passphrase saved.auth

is_file : Option Backend → Bool
is_file (some file) = true
is_file _ = false

-- What is removed where it is tried, of the item in the keyring, the store and the file; the failures
-- are ignored.
pub record Removed : Type 0 where
  pub item_gone : Bool
  pub store_gone : Bool
  pub file_gone : Bool

abbrev pub all_removed : Removed
all_removed = record { item_gone = true; store_gone = true; file_gone = true }

-- What `forget_session` removes of the keyring and the stores, by what the file says.
forget_named : Answer → Removed → Doc Persisted → World → World
unfolding is_file forget
forget_named reach removed (doc p) w = record w {
  stores = if removed.store_gone then remove_path p.store_path w.stores else w.stores;
  item = if is_file p.secrets then w.item else forget reach removed.item_gone w.item;
}
forget_named reach removed _ w = w

-- `Core::forget_session`.
unfoldable pub forget_session : Answer → Removed → M (Unit {0})
unfolding forget_named broadcast_state
forget_session reach removed = do
  modify (λ w. forget_named reach removed w.session_file w)
  modify (λ w. record w {
    session_file = if removed.file_gone then absent else w.session_file;
    syncing = false;
    error = none;
    secrets_backend = none;
    store_passphrase = none;
  })
  broadcast_state

-- The session that the client holds.
auth_of : Client → M Auth
auth_of c = elim c.full_session [
  | some (id, user) ↦ pure (oauth id user)
  | none ↦ do s ← or_raise c.matrix_session no_session; pure (password s)
]

-- `Core::persist_tokens`.
unfoldable pub persist_tokens : SaveAnswers → Client → M (Unit {0})
unfolding read_session auth_of save_session
persist_tokens a c = do
  saved ← read_session
  kept ← gets (λ w. w.store_passphrase)
  pass ← or_raise kept no_passphrase
  auth ← auth_of c
  save_session a saved (record { store_passphrase = pass; auth = auth })
  pure tt

-- `Core::persist_sync_token`.
unfoldable pub persist_sync_token : Written → Text → M (Unit {0})
unfolding read_session write_session
persist_sync_token written token = do
  saved ← read_session
  write_session written (record saved { sync_token = some token })
