-- ===== src/Session/Sync.antt =====
-- The sync loop and the session watcher (src/core.rs: `sync_loop` and the first task of `start`).
use omarchy_chatd.Base.{
  ℕ, ◌+◌, ◌*◌, ◌%◌, ◌^◌, min, Bool, true, false, some, List, [], ◌∷◌, ltb, ◌==◌, if◌then◌else◌,
  Text,
}
use omarchy_chatd.Session.Types.{
  Client, sync_failing, reconnecting, sync_stopped, session_expired, World, set_error, set_syncing,
}
use omarchy_chatd.Session.Disk.{Written, SaveAnswers, persist_tokens, persist_sync_token}

-- One answer of the homeserver to a sync: the next token, or a failure; with each token comes how
-- its write to `session.json` ends.
pub data Reply : Type 0 where
  synced : Text → Written → Reply
  failed : Reply

-- `backoff = (backoff * 2).min(60)`.
abbrev pub next_backoff : ℕ → ℕ
next_backoff b = min (b * 2) 60

-- The loop of the first sync over the answers that come: the waits made, and whether it succeeded
-- within these answers. The write of the token is allowed to fail.
unfoldable pub first_sync : ℕ → List Reply → World → (List ℕ × Bool) × World
unfolding persist_sync_token set_error
first_sync backoff [] w = (([], false), w)
first_sync backoff (synced token written ∷ _) w =
    (([], true), (persist_sync_token written token w).1)
first_sync backoff (failed ∷ more) w =
    let rest = first_sync (next_backoff backoff) more (set_error (some sync_failing) w).1 in
    ((backoff ∷ rest.0.0, rest.0.1), rest.1)

-- 2^32: `failures` is an `AtomicU32`, whose `fetch_add` wraps.
abbrev pub u32_mod : ℕ
u32_mod = 4294967296

-- `(2u64 << n.min(5)).min(60)`.
unfoldable pub retry_wait : ℕ → ℕ
retry_wait n = min (2 * 2 ^ min n 5) 60

-- The callback of `sync_with_result_callback`: `failures`, then the state; the result has the
-- seconds slept in the middle. The callback always asks to go on.
unfoldable pub on_sync : Reply → ℕ → World → ℕ × ℕ × World
unfolding set_syncing set_error persist_sync_token retry_wait
on_sync (synced token written) failures w =
    let w' = if ltb 0 failures then (set_syncing true w).1 else w in
    (0, 0, (persist_sync_token written token w').1)
on_sync failed failures w =
    let n = (failures + 1) % u32_mod in
    let w' = if n == 1 then (set_syncing false w).1 else w in
    (n, retry_wait n, (set_error (some reconnecting) w').1)

-- The callback over a list of answers.
unfoldable pub sync_run : List Reply → ℕ → World → ℕ × World
unfolding on_sync
sync_run [] failures w = (failures, w)
sync_run (r ∷ rs) failures w = let (f, _, w') = on_sync r failures w in sync_run rs f w'

-- The rest of `sync_loop`: the first sync has succeeded, then the answers that come.
unfoldable pub sync_live : List Reply → World → ℕ × World
unfolding sync_run set_syncing
sync_live rs w = sync_run rs 0 (set_syncing true w).1

-- The end of `sync_loop`, if the SDK gives up: with an error or not.
unfoldable pub sync_end : Bool → World → World
unfolding set_syncing set_error
sync_end broken w =
    let w' = (set_syncing false w).1 in if broken then (set_error (some sync_stopped) w').1 else w'

pub data Change : Type 0 where
  tokens_refreshed : SaveAnswers → Change
  unknown_token : Change

-- The watcher of session changes; a failure to save the refreshed tokens is only logged.
unfoldable pub on_session_change : Client → Change → World → World
unfolding persist_tokens set_error
on_session_change c (tokens_refreshed a) w = (persist_tokens a c w).1
on_session_change c unknown_token w = (set_error (some session_expired) w).1
