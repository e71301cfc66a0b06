-- ===== src/Session/Soundness.antt =====
-- The invariant of the session state, over the commands and tasks of src/core.rs run one at a time.
use omarchy_chatd.Base.{
  ℕ, ◌≡◌, Bool, true, false, Option, none, some, List, [], ◌∷◌, ◌++◌, arith, is_some, Text,
}
use omarchy_chatd.Session.Types.{
  Secret, Persisted, Client, Notice, World, Result, ok, err, set_error, initial,
}
use omarchy_chatd.Secrets.{Answer, LoadAnswers}
use omarchy_chatd.Session.Disk.{SaveAnswers, save_session, load_session, Removed}
use omarchy_chatd.Session.Login.{
  LoginAnswers, login, BrowserAnswers, login_oauth, TaskAnswers, oauth_outcome, oauth_task,
  login_cancel, stop_task, logout, shutdown, restore_with, RestoreAnswers, take_up, retry_session,
  forget_command, restore, restore_round,
}
use omarchy_chatd.Session.Sync.{Reply, on_sync, Change, on_session_change}
use omarchy_chatd.Session.Placement.{FileIsPlaced}

abbrev pub task_list : Option ℕ → List ℕ
task_list none = []
task_list (some t) = t ∷ []

-- The sync loops that were spawned and not aborted are that of the state, first, and the strays `ss`; the
-- state has a loop exactly while it has a client; a signed-in session has its settings and its
-- passphrase; no sign-in waits beside a client; and the secrets of the file are in one place.
pub record IsSound (ss : List ℕ) (w : World) : Type 0 where
  pub own_loop : w.running ≡ task_list w.sync_task ++ ss
  pub looped : is_some w.client ≡ is_some w.sync_task
  pub settings : w.notification_settings ≡ is_some w.client
  pub passphrase : is_some w.client ≡ true → is_some w.store_passphrase ≡ true
  pub alone : is_some w.client ≡ true → w.pending ≡ none
  pub file_placed : FileIsPlaced w.session_file

pub initial-IsSound : IsSound [] initial
initial-IsSound = ground arith

pub login-IsSound :
    {ss : List ℕ} → (a : LoginAnswers) (w : World) → IsSound ss w → IsSound ss (login a w).1
unfolding login save_session
login-IsSound a w h = ground arith

pub login_oauth-IsSound :
    {ss : List ℕ} → (a : BrowserAnswers) (w : World) → IsSound ss w → IsSound ss (login_oauth a w).1
unfolding login_oauth
login_oauth-IsSound a w h = ground arith

pub login_cancel-IsSound :
    {ss : List ℕ} → (w : World) → IsSound ss w → IsSound ss (login_cancel w).1
unfolding login_cancel
login_cancel-IsSound w h = ground arith

abbrev pub succeeds : Result (Unit {0}) → Bool
succeeds (ok _) = true
succeeds (err _) = false

-- The loops that a browser sign-in leaves behind: that of a client that was signed in meanwhile, if the
-- sign-in succeeds, since the task does not look.
abbrev pub left_by : Bool → World → List ℕ → List ℕ
left_by true w ss = task_list w.sync_task ++ ss
left_by false w ss = ss

pub oauth_task-IsSound :
    {ss : List ℕ} (a : TaskAnswers) (c : Client) (path pass : Text) (w : World)
    → IsSound ss w
    → IsSound
        (left_by (succeeds (oauth_outcome a c path pass w).0) w ss)
        (oauth_task a c path pass w).1
unfolding oauth_task oauth_outcome save_session
oauth_task-IsSound a c path pass w h = ground arith

stop_own : (t : ℕ) (ss : List ℕ) → stop_task (some t) (t ∷ ss) ≡ stop_task (some t) ss
stop_own t ss = ground arith

pub logout-IsSound :
    {ss : List ℕ}
    → (reach : Answer) (removed : Removed) (w : World) → IsSound ss w
    → IsSound (stop_task w.sync_task ss) (logout reach removed w).1
unfolding logout
logout-IsSound reach removed w h = ground arith

pub shutdown-IsSound :
    {ss : List ℕ} → (w : World) → IsSound ss w → IsSound (stop_task w.sync_task ss) (shutdown w).1
unfolding shutdown
shutdown-IsSound w h = ground arith

pub forget_command-IsSound :
    {ss : List ℕ}
    → (reach : Answer) (removed : Removed) (w : World) → IsSound ss w
    → IsSound ss (forget_command reach removed w).1
unfolding forget_command
forget_command-IsSound reach removed w h = ground arith

-- A load may rewrite the file, the keyring's item and the backend in the state, and nothing else.
record IsLoaded (w w' : World) : Type 0 where
  same_client : w'.client ≡ w.client
  same_settings : w'.notification_settings ≡ w.notification_settings
  same_task : w'.sync_task ≡ w.sync_task
  same_pending : w'.pending ≡ w.pending
  same_passphrase : w'.store_passphrase ≡ w.store_passphrase
  same_running : w'.running ≡ w.running
  still_placed : FileIsPlaced w.session_file → FileIsPlaced w'.session_file

load_session-IsLoaded :
    (l : LoadAnswers) (a : SaveAnswers) (prompt : Bool) (w : World)
    → IsLoaded w (load_session l a prompt w).1
unfolding load_session save_session
load_session-IsLoaded l a prompt w = ground arith

load_session-IsSound :
    {ss : List ℕ}
    → (l : LoadAnswers) (a : SaveAnswers) (prompt : Bool) (w : World) → IsSound ss w
    → IsSound ss (load_session l a prompt w).1
load_session-IsSound l a prompt w h = ground (arith, load_session-IsLoaded l a prompt w)

restore_with-IsSound :
    {ss : List ℕ}
    → (built : Option Client) (taken : Bool) (saved : Persisted) (s : Secret) (w : World)
    → w.client ≡ none
    → IsSound ss w
    → IsSound ss (restore_with built taken saved s w).1
unfolding restore_with
restore_with-IsSound built taken saved s w c h = ground arith

pub set_error-IsSound :
    {ss : List ℕ} → (e : Option Notice) (w : World) → IsSound ss w → IsSound ss (set_error e w).1
unfolding set_error
set_error-IsSound e w h = ground arith

take_up-IsSound :
    {ss : List ℕ}
    → (a : RestoreAnswers) (w : World) → w.client ≡ none
    → IsSound ss w
    → IsSound ss (take_up a w).1
unfolding take_up
take_up-IsSound a w c h =
    grind (
      arith,
      load_session-IsLoaded a.load a.save true w,
      load_session-IsSound,
      restore_with-IsSound,
    )

pub retry_session-IsSound :
    {ss : List ℕ}
    → (a : RestoreAnswers) (w : World) → IsSound ss w
    → IsSound ss (retry_session a w).1
unfolding retry_session
retry_session-IsSound a w h = grind (arith, take_up-IsSound a w)

pub restore-IsSound :
    {ss : List ℕ}
    → (a : RestoreAnswers) (w : World) → w.client ≡ none
    → IsSound ss w
    → IsSound ss (restore a w).1
unfolding restore
restore-IsSound a w c h = grind (
  arith,
  load_session-IsLoaded a.load a.save true w,
  load_session-IsSound,
  restore_with-IsSound,
  set_error-IsSound,
)

-- The background retries do not look at a pending sign-in.
pub restore_round-IsSound :
    {ss : List ℕ}
    → (a : RestoreAnswers) (w : World) → IsSound ss w
    → IsSound ss (restore_round a w).1
unfolding restore_round
restore_round-IsSound {ss = ss} a w h = grind (
  arith,
  load_session-IsLoaded a.load a.save false w,
  load_session-IsSound {ss = ss},
  restore_with-IsSound {ss = ss},
  set_error-IsSound {ss = ss},
)

pub on_sync-IsSound :
    {ss : List ℕ} → (r : Reply) (n : ℕ) (w : World) → IsSound ss w → IsSound ss (on_sync r n w).2
unfolding on_sync
on_sync-IsSound r n w h = ground arith

pub on_session_change-IsSound :
    {ss : List ℕ}
    → (c : Client) (x : Change) (w : World) → IsSound ss w
    → IsSound ss (on_session_change c x w)
unfolding on_session_change save_session
on_session_change-IsSound c x w h = ground arith
