-- ===== src/Session/RoundTrip.antt =====
-- What is saved can be loaded, and what is forgotten is gone (src/core.rs: `save_session`,
-- `load_session`, `forget_session`).
use omarchy_chatd.Base.{
  ◌≡◌, refl, ◌⊎◌, Bool, true, false, Option, none, some, List, [], ◌∷◌, arith, In, Text,
  text_eq_iff,
}
use omarchy_chatd.Session.Types.{Auth, Secret, Persisted, World, Result, ok, err, remove_path}
use omarchy_chatd.Secrets.{Answer, answered, absent, doc, keyring, file, LoadAnswers, load, forget}
use omarchy_chatd.Session.Disk.{
  complete, SaveAnswers, save_session, load_session, Removed, all_removed, forget_session,
}
use omarchy_chatd.Session.Placement.{IsSaved, save_session-IsSaved}

-- The keyring is reachable and unlocked, and gives its items.
pub record IsOpen (l : LoadAnswers) : Type 0 where
  pub reachable : l.reach ≡ answered
  pub unlocked : l.locked ≡ false
  pub searched : l.search ≡ answered
  pub item_unlocked : l.item_locked ≡ false
  pub item_read : l.readable ≡ true

abbrev pub secret_of : Result (Persisted × Secret) → Option Secret
secret_of (ok (p, s)) = some s
secret_of (err e) = none

-- Loading, where the file holds what a save has placed.
load_placed :
    (l : LoadAnswers) (b : SaveAnswers) (prompt : Bool) (saved : Persisted) (s : Secret) (w : World)
    (p : Persisted) (w' : World)
    → IsSaved saved s w p w'
    → IsOpen l
    → b.write ≡ complete
    → secret_of (load_session l b prompt w').0 ≡ some s
unfolding load_session load save_session
load_placed l b prompt saved s w p w' h o c = ground arith

-- What a save that succeeded has placed, in the keyring or in the file, a later load gives back,
-- where the keyring is reachable and unlocked and gives its items, and what the load itself writes
-- to the file is written whole.
pub load-save :
    (l : LoadAnswers) (a b : SaveAnswers) (prompt : Bool) (saved : Persisted) (s : Secret)
    (w : World) {p : Persisted} {w' : World}
    → save_session a saved s w ≡ (ok p, w')
    → IsOpen l
    → b.write ≡ complete
    → secret_of (load_session l b prompt w').0 ≡ some s
load-save l a b prompt saved s w {p} {w'} e o c =
    load_placed l b prompt saved s w p w' (save_session-IsSaved a saved s w e) o c

-- Loading a file with inline secrets gives them, and, where the keyring takes them and the file can
-- be written, moves them: the keyring's item holds them and the file no longer does.
load_migrates :
    (l : LoadAnswers) (b : SaveAnswers) (prompt : Bool) (w : World) (p : Persisted) (pass : Text)
    (auth : Auth)
    → w.session_file ≡ doc p
    → p.store_passphrase ≡ some pass
    → p.auth ≡ some auth
    → b.reach ≡ answered
    → b.create ≡ answered
    → b.write ≡ complete
    → let (r, w') = load_session l b prompt w in
      let s : Secret = record { store_passphrase = pass; auth = auth } in
      let p' = record p { secrets = some keyring; store_passphrase = none; auth = none } in
      (r ≡ ok (p', s)) × (w'.session_file ≡ doc p') × (w'.item ≡ some (some s))
unfolding load_session save_session
load_migrates l b prompt w p pass auth f e1 e2 r c d = ground arith

not-In-remove_path : (p : Text) (qs : List Text) → In p (remove_path p qs) → ⊥
not-In-remove_path p [] h = h
not-In-remove_path p (q ∷ qs) h = ground (arith, not-In-remove_path p qs, text_eq_iff q p)

-- What a forgotten session leaves: no file, no secrets in memory, no error, no syncing; the store
-- that the file named is gone, and the keyring's item too, unless the file held the secrets itself.
pub record IsForgotten (p : Persisted) (w : World) : Type 0 where
  pub no_file : w.session_file ≡ absent
  pub no_passphrase : w.store_passphrase ≡ none
  pub no_backend : w.secrets_backend ≡ none
  pub not_syncing : w.syncing ≡ false
  pub no_error : w.error ≡ none
  pub no_store : ¬ In p.store_path w.stores
  pub no_item : (p.secrets ≡ some file) ⊎ (w.item ≡ none)

-- Forgetting a session whose file can be read, where the store and the file can be removed, with a
-- keyring that answers and deletes, leaves no file, no secrets in memory, no error and no syncing, not
-- the store that the file named, and no item in the keyring unless the file held the secrets itself.
-- Whatever can be removed, no secrets stay in memory, no error and no syncing.
pub forget_session-IsForgotten :
    (w : World) (p : Persisted) (reach : Answer) (removed : Removed)
    → w.session_file ≡ doc p
    → IsForgotten p (forget_session answered all_removed w).1
      × (let w' = (forget_session reach removed w).1 in
          (w'.store_passphrase ≡ none)
          × (w'.secrets_backend ≡ none)
          × (w'.syncing ≡ false)
          × (w'.error ≡ none))
unfolding forget_session forget
forget_session-IsForgotten w p reach removed e =
    (ground (arith, not-In-remove_path p.store_path w.stores), (refl, refl, refl, refl))
