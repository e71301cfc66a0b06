-- ===== src/Session/Commands.antt =====
-- The daemon's session over time: a state changes by the commands and tasks of src/core.rs, each
-- run from its beginning to its end.
use omarchy_chatd.Base.{
  ℕ, ◌+◌, ◌≤◌, ◌≡◌, Bool, true, false, not, ◌&&◌, Option, none, some, List, [], ◌∷◌, arith, ◌==◌,
  if◌then◌else◌, is_some, length, length-keep, Text,
}
use omarchy_chatd.Session.Types.{Client, sync_failing, sync_stopped, World, set_error, set_syncing}
use omarchy_chatd.Secrets.{Answer}
use omarchy_chatd.Session.Disk.{Removed, persist_sync_token}
use omarchy_chatd.Session.Login.{
  LoginAnswers, login, BrowserAnswers, login_oauth, TaskAnswers, oauth_outcome, oauth_task,
  login_cancel, stop_task, logout, shutdown, RestoreAnswers, retry_session, forget_command, restore,
  restore_round,
}
use omarchy_chatd.Session.Sync.{
  Reply, synced, next_backoff, first_sync, on_sync, sync_run, sync_live, sync_end, Change,
  on_session_change,
}
use omarchy_chatd.Session.Placement.{FileIsPlaced}
use omarchy_chatd.Session.Soundness.{
  IsSound, login-IsSound, login_oauth-IsSound, login_cancel-IsSound, succeeds, left_by,
  oauth_task-IsSound, logout-IsSound, shutdown-IsSound, forget_command-IsSound, set_error-IsSound,
  retry_session-IsSound, restore-IsSound, restore_round-IsSound, on_sync-IsSound,
  on_session_change-IsSound,
}

-- The loop that a browser sign-in overtakes: that of a client which is signed in when it succeeds.
abbrev pub overtakes : Bool → World → ℕ
overtakes b w = if b && is_some w.client then 1 else 0

-- One command or task, with every answer that its environment may give, and how many sync loops it
-- overtakes. A first sync shows its failures and is followed, where it succeeds, by the live loop, which
-- then says that it syncs; the loop may end.
pub data Step (w : World) : ℕ → World → Type 0 where
  by_login : (a : LoginAnswers) → Step w 0 (login a w).1
  by_login_oauth : (a : BrowserAnswers) → Step w 0 (login_oauth a w).1
  by_login_cancel : Step w 0 (login_cancel w).1
  by_oauth_task :
      (a : TaskAnswers) (c : Client) (path pass : Text)
      → Step w
          (overtakes (succeeds (oauth_outcome a c path pass w).0) w)
          (oauth_task a c path pass w).1
  by_logout : (reach : Answer) (removed : Removed) → Step w 0 (logout reach removed w).1
  by_retry_session : (a : RestoreAnswers) → Step w 0 (retry_session a w).1
  by_forget_session :
      (reach : Answer) (removed : Removed) → Step w 0 (forget_command reach removed w).1
  by_restore_round : (a : RestoreAnswers) → Step w 0 (restore_round a w).1
  by_first_sync : (backoff : ℕ) (rs : List Reply) → Step w 0 (first_sync backoff rs w).1
  by_live : Step w 0 (sync_live [] w).1
  by_sync : (r : Reply) (failures : ℕ) → Step w 0 (on_sync r failures w).2
  by_sync_end : (broken : Bool) → Step w 0 (sync_end broken w)
  by_session_change : (c : Client) (x : Change) → Step w 0 (on_session_change c x w)
  by_shutdown : Step w 0 (shutdown w).1

-- The states of a daemon that starts beside what an earlier one saved, with the loops overtaken so far.
pub data Reach (a : RestoreAnswers) (w : World) : ℕ → World → Type 0 where
  started : Reach a w 0 (restore a w).1
  next : {m n : ℕ} {t u : World} → Reach a w m t → Step t n u → Reach a w (m + n) u

-- Nothing is signed in or waiting yet; what is on disk and in the keyring is arbitrary, but that
-- the file's secrets are in one place.
pub record IsFresh (w : World) : Type 0 where
  pub no_client : w.client ≡ none
  pub no_settings : w.notification_settings ≡ false
  pub no_task : w.sync_task ≡ none
  pub no_pending : w.pending ≡ none
  pub nothing_runs : w.running ≡ []
  pub file_placed : FileIsPlaced w.session_file

IsFresh-IsSound : (w : World) → IsFresh w → IsSound [] w
IsFresh-IsSound w h = ground arith

set_syncing-IsSound :
    {ss : List ℕ} (b : Bool) (w : World) → IsSound ss w → IsSound ss (set_syncing b w).1
unfolding set_syncing
set_syncing-IsSound b w h = ground arith

first_sync-IsSound :
    {ss : List ℕ} (backoff : ℕ) (rs : List Reply) (w : World)
    → IsSound ss w
    → IsSound ss (first_sync backoff rs w).1
unfolding first_sync
first_sync-IsSound backoff [] w h = h
first_sync-IsSound backoff (synced token written ∷ rs) w h =
    unfold persist_sync_token in ground arith
first_sync-IsSound backoff (Reply.failed ∷ rs) w h =
    first_sync-IsSound (next_backoff backoff) rs (set_error (some sync_failing) w).1
      (set_error-IsSound (some sync_failing) w h)

sync_end-IsSound :
    {ss : List ℕ} (broken : Bool) (w : World) → IsSound ss w → IsSound ss (sync_end broken w)
unfolding sync_end
sync_end-IsSound true w h =
    set_error-IsSound (some sync_stopped) (set_syncing false w).1 (set_syncing-IsSound false w h)
sync_end-IsSound false w h = set_syncing-IsSound false w h

-- Sound, with at most so many strays.
abbrev pub IsSoundBut : ℕ → World → Type 0
IsSoundBut n w = (strays : List ℕ) × IsSound strays w × (length strays ≤ n)

few_more :
    (b : Bool) (w : World) (ss : List ℕ) (m : ℕ)
    → is_some w.client ≡ is_some w.sync_task
    → length ss ≤ m
    → length (left_by b w ss) ≤ m + overtakes b w
few_more true w ss m e h = ground arith
few_more false w ss m e h = omega arith

few_less : (t : Option ℕ) (ss : List ℕ) (m : ℕ) → length ss ≤ m → length (stop_task t ss) ≤ m + 0
few_less none ss m h = omega arith
few_less (some t) ss m h = omega (arith, length-keep (λ u. not (u == t)) ss)

Step-IsSoundBut : {w u : World} {m n : ℕ} → Step w n u → IsSoundBut m w → IsSoundBut (m + n) u
Step-IsSoundBut {w} (by_login a) (ss, h, f) = (ss, login-IsSound a w h, omega arith)
Step-IsSoundBut {w} (by_login_oauth a) (ss, h, f) = (ss, login_oauth-IsSound a w h, omega arith)
Step-IsSoundBut {w} by_login_cancel (ss, h, f) = (ss, login_cancel-IsSound w h, omega arith)
Step-IsSoundBut {w} {m = m} (by_oauth_task a c path pass) (ss, h, f) =
    let b = succeeds (oauth_outcome a c path pass w).0 in
    (left_by b w ss, oauth_task-IsSound a c path pass w h, few_more b w ss m h.looped f)
Step-IsSoundBut {w} {m = m} (by_logout reach removed) (ss, h, f) =
    (stop_task w.sync_task ss, logout-IsSound reach removed w h, few_less w.sync_task ss m f)
Step-IsSoundBut {w} (by_retry_session a) (ss, h, f) = (ss, retry_session-IsSound a w h, omega arith)
Step-IsSoundBut {w} (by_forget_session reach removed) (ss, h, f) =
    (ss, forget_command-IsSound reach removed w h, omega arith)
Step-IsSoundBut {w} (by_restore_round a) (ss, h, f) = (ss, restore_round-IsSound a w h, omega arith)
Step-IsSoundBut {w} (by_first_sync backoff rs) (ss, h, f) =
    (ss, first_sync-IsSound backoff rs w h, omega arith)
Step-IsSoundBut {w} by_live (ss, h, f) =
    (ss, unfold sync_live sync_run in set_syncing-IsSound true w h, omega arith)
Step-IsSoundBut {w} (by_sync r failures) (ss, h, f) =
    (ss, on_sync-IsSound r failures w h, omega arith)
Step-IsSoundBut {w} (by_sync_end broken) (ss, h, f) = (ss, sync_end-IsSound broken w h, omega arith)
Step-IsSoundBut {w} (by_session_change c x) (ss, h, f) =
    (ss, on_session_change-IsSound c x w h, omega arith)
Step-IsSoundBut {w} {m = m} by_shutdown (ss, h, f) =
    (stop_task w.sync_task ss, shutdown-IsSound w h, few_less w.sync_task ss m f)

-- In every state that the daemon reaches from a start, by commands and tasks run one at a time and
-- whatever the environment answers, the session is sound but for the sync loops that were overtaken:
-- beside these, one for each browser sign-in that has succeeded while a client was signed in, the loops
-- that were spawned and not aborted are the one of the state, which is there exactly while a client
-- is; a signed-in session has its settings and its passphrase, and no sign-in waits beside it; the
-- file's secrets are in one place.
pub Reach-IsSoundBut :
    (a : RestoreAnswers) (w : World) {n : ℕ} {u : World}
    → IsFresh w
    → Reach a w n u
    → IsSoundBut n u
Reach-IsSoundBut a w f started =
    ([], restore-IsSound a w f.no_client (IsFresh-IsSound w f), omega arith)
Reach-IsSoundBut a w f (next r s) = Step-IsSoundBut s (Reach-IsSoundBut a w f r)
