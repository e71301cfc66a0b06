-- ===== src/Session/Login.antt =====
-- Signing in and out (src/core.rs: `ensure_signed_out`, `build_client`, `login`, `login_oauth` and
-- its task, `login_cancel`, `start`, `logout`, `shutdown`, `restore`, `restore_with`).
use omarchy_chatd.Base.{
  ℕ, suc, ◌-◌, Bool, true, false, not, ◌||◌, Option, none, some, List, ◌∷◌, ◌==◌, if◌then◌else◌,
  is_some, keep, Text,
}
use omarchy_chatd.Session.Types.{
  Auth, password, oauth, Secret, Persisted, Client, Pending, already_logged_in, login_in_progress,
  no_login_in_progress, not_logged_in, no_saved_session, not_connected, login_failed,
  no_session_returned, oauth_not_supported, no_metadata, no_listener, no_authorization,
  browser_timed_out, no_sign_in_data, finish_failed, not_restored, could_not_read,
  could_not_restore, sign_in_failed, ok, err, M, pure, raise, gets, attempt, modify, ◌>>=◌, ◌>>◌,
  bail_if, or_raise, login_pending, exists, broadcast_state, set_error, remove_store,
}
use omarchy_chatd.Secrets.{Answer, LoadAnswers}
use omarchy_chatd.Session.Disk.{SaveAnswers, save_session, load_session, Removed, forget_session}

-- `Core::ensure_signed_out`.
unfoldable pub ensure_signed_out : M (Unit {0})
unfolding login_pending
ensure_signed_out = do
  signed_in ← gets (λ w. is_some w.client)
  bail_if signed_in already_logged_in
  waiting ← gets login_pending
  bail_if waiting login_in_progress

-- The random store path and passphrase, and the client that the builder gives, if it gives one. The
-- client is one shared object: its fields are those that it shows once it is signed in.
pub record BuildAnswers : Type 0 where
  pub store_path : Text
  pub passphrase : Text
  pub built : Option Client

-- `Core::build_client`.
pub build_client : BuildAnswers → M (Client × Text × Text)
unfolding remove_store
build_client a = do
  modify (λ w. record w { stores = a.store_path ∷ w.stores })
  elim a.built [
    | some c ↦ pure (c, a.store_path, a.passphrase)
    | none ↦ do remove_store a.store_path; raise not_connected
  ]

-- `Core::start`: the sync loop is spawned before the state is written. The event handlers and the
-- two watchers that are installed here change nothing by themselves.
unfoldable pub start : Client → M (Unit {0})
unfolding broadcast_state
start c = do
  modify (λ w. record w { running = w.next_task ∷ w.running; next_task = suc w.next_task })
  modify (λ w. record w {
    client = some c;
    notification_settings = true;
    sync_task = some (w.next_task - 1);
    pending = none;
    error = none;
  })
  broadcast_state

-- A new `PersistedSession`, before its secrets are placed.
pub fresh_session : Client → Text → Persisted
fresh_session c path = record {
  homeserver = c.homeserver;
  store_path = path;
  sync_token = none;
  secrets = none;
  store_passphrase = none;
  auth = none;
}

-- What the SDK and the disk answer to a password login.
pub record LoginAnswers : Type 0 where
  pub build : BuildAnswers
  pub accepted : Bool
  pub save : SaveAnswers

-- The end of a sign-in: the session is saved, its passphrase kept, and the sync loop started.
pub finish_login : SaveAnswers → Client → Text → Text → Auth → M (Unit {0})
unfolding fresh_session save_session
finish_login a c path pass auth =
    let s : Secret = record { store_passphrase = pass; auth = auth } in
    do
      save_session a (fresh_session c path) s
      modify (λ w. record w { store_passphrase = some pass })

-- `Core::login` after `ensure_signed_out`.
unfoldable pub login_checked : LoginAnswers → M (Unit {0})
unfolding build_client remove_store finish_login start
login_checked a = do
  (c, path, pass) ← build_client a.build
  elim a.accepted [
    | true ↦ do
      session ← or_raise c.matrix_session no_session_returned
      finish_login a.save c path pass (password session)
      start c
    | false ↦ do remove_store path; raise login_failed
  ]

-- `Core::login`.
unfoldable pub login : LoginAnswers → M (Unit {0})
unfolding ensure_signed_out login_checked
login a = do ensure_signed_out; login_checked a

pub data Metadata : Type 0 where
  available not_supported unavailable : Metadata

-- What the SDK answers to the first half of a browser sign-in.
pub record BrowserAnswers : Type 0 where
  pub build : BuildAnswers
  pub metadata : Metadata
  pub listening : Bool
  pub authorization : Option Text

-- `Core::login_oauth`, up to the URL that it returns; the task that it spawns is `oauth_task`.
unfoldable pub login_oauth : BrowserAnswers → M Text
unfolding ensure_signed_out build_client remove_store broadcast_state
login_oauth a = do
  ensure_signed_out
  (c, path, pass) ← build_client a.build
  elim a.metadata [
    | not_supported ↦ do remove_store path; raise oauth_not_supported
    | unavailable ↦ do remove_store path; raise no_metadata
    | available ↦
        if not a.listening
        then (do remove_store path; raise no_listener)
        else (elim a.authorization [
          | none ↦ do remove_store path; raise no_authorization
          | some url ↦ do
            modify
                (λ w. record w { pending = some (record { finished = false; store_path = path }) })
            broadcast_state
            pure url
        ])
  ]

pub data Redirect : Type 0 where
  no_redirect without_data with_data : Redirect

-- What reaches the task that waits for the browser.
pub record TaskAnswers : Type 0 where
  pub redirect : Redirect
  pub finished : Bool
  pub save : SaveAnswers

-- The task's `outcome` block.
unfoldable pub oauth_outcome : TaskAnswers → Client → Text → Text → M (Unit {0})
unfolding finish_login
oauth_outcome a c path pass = elim a.redirect [
  | no_redirect ↦ raise browser_timed_out
  | without_data ↦ raise no_sign_in_data
  | with_data ↦
      if a.finished
      then (do
        (id, user) ← or_raise c.full_session no_session_returned
        finish_login a.save c path pass (oauth id user))
      else raise finish_failed
]

abbrev finish_pending : Option Pending → Option Pending
finish_pending none = none
finish_pending (some p) = some (record p { finished = true })

-- The task that `login_oauth` spawns, to its end: only then is its handle finished.
unfoldable pub oauth_task : TaskAnswers → Client → Text → Text → M (Unit {0})
unfolding oauth_outcome start remove_store set_error
oauth_task a c path pass = do
  outcome ← attempt (oauth_outcome a c path pass)
  elim outcome [
    | ok _ ↦ start c
    | err e ↦ do
      remove_store path
      set_error (some (sign_in_failed e))
      modify (λ w. record w { pending = finish_pending w.pending })
  ]

-- `Core::login_cancel`.
unfoldable pub login_cancel : M (Unit {0})
unfolding remove_store broadcast_state
login_cancel = do
  taken ← gets (λ w. w.pending)
  modify (λ w. record w { pending = none })
  p ← or_raise taken no_login_in_progress
  if p.finished then pure tt else (do remove_store p.store_path; broadcast_state)

-- `JoinHandle::abort` on the sync loop.
abbrev pub stop_task : Option ℕ → List ℕ → List ℕ
stop_task none ts = ts
stop_task (some t) ts = keep (λ u. not (u == t)) ts

abbrev drop_pending : Option Pending → M (Unit {0})
drop_pending none = pure tt
drop_pending (some p) = remove_store p.store_path

-- `Core::logout`; the server's answer to `client.logout` is only logged.
unfoldable pub logout : Answer → Removed → M (Unit {0})
unfolding remove_store forget_session
logout reach removed = do
  c ← gets (λ w. w.client)
  task ← gets (λ w. w.sync_task)
  p ← gets (λ w. w.pending)
  modify (λ w. record w {
    notification_settings = false;
    client = none;
    sync_task = none;
    pending = none;
  })
  modify (λ w. record w { running = stop_task task w.running })
  drop_pending p
  or_raise c not_logged_in
  forget_session reach removed

-- `Core::shutdown`.
unfoldable pub shutdown : M (Unit {0})
shutdown = modify (λ w. record w {
  notification_settings = false;
  syncing = false;
  client = none;
  running = stop_task w.sync_task w.running;
  sync_task = none;
  pending = none;
})

-- `Core::restore_with`: what the builder gives, and whether the session is taken up.
unfoldable pub restore_with : Option Client → Bool → Persisted → Secret → M (Unit {0})
unfolding start
restore_with built taken saved s = do
  c ← or_raise built not_connected
  bail_if (not taken) not_restored
  modify (λ w. record w {
    secrets_backend = saved.secrets;
    store_passphrase = some s.store_passphrase;
    error = none;
  })
  start c

-- The answers to a restoring of the session.
pub record RestoreAnswers : Type 0 where
  pub load : LoadAnswers
  pub save : SaveAnswers
  pub built : Option Client
  pub taken : Bool

-- The saved session is loaded, with an unlock dialog if need be, and restored.
unfoldable pub take_up : RestoreAnswers → M (Unit {0})
unfolding load_session restore_with
take_up a = do (saved, s) ← load_session a.load a.save true; restore_with a.built a.taken saved s

-- `Command::RetrySession` of `Core::dispatch`, before the status is read.
unfoldable pub retry_session : RestoreAnswers → M (Unit {0})
unfolding ensure_signed_out take_up
retry_session a = do
  ensure_signed_out
  there ← gets (λ w. exists w.session_file)
  bail_if (not there) no_saved_session
  take_up a

-- `Command::ForgetSession` of `Core::dispatch`, before the status is read.
unfoldable pub forget_command : Answer → Removed → M (Unit {0})
unfolding ensure_signed_out forget_session
forget_command reach removed = do ensure_signed_out; forget_session reach removed

-- `Core::restore`; the result says whether the retries of `restore_round` are spawned.
unfoldable pub restore : RestoreAnswers → M Bool
unfolding load_session restore_with set_error
restore a = do
  there ← gets (λ w. exists w.session_file)
  elim there [
    | false ↦ pure false
    | true ↦ do
      loaded ← attempt (load_session a.load a.save true)
      elim loaded [
        | ok (saved, s) ↦ do restore_with a.built a.taken saved s; pure false
        | err e ↦ do set_error (some (could_not_read e)); pure true
      ]
  ]

-- One round of the retries that `restore` spawns, after its wait: whether there is another.
unfoldable pub restore_round : RestoreAnswers → M Bool
restore_round a = do
  signed_in ← gets (λ w. is_some w.client)
  there ← gets (λ w. exists w.session_file)
  if signed_in || not there then pure false else (do
    loaded ← attempt (load_session a.load a.save false)
    elim loaded [
      | err e ↦ pure true
      | ok (saved, s) ↦ do
        restored ← attempt (restore_with a.built a.taken saved s)
        elim restored [
          | ok _ ↦ pure false
          | err e ↦ do set_error (some (could_not_restore e)); pure false
        ]
    ])
