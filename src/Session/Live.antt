-- ===== src/Session/Live.antt =====
-- What the sync callback keeps (src/core.rs: `sync_loop`).
use omarchy_chatd.Base.{
  ℕ, ◌+◌, ◌≤◌, ◌<◌, ◌≡◌, ◌⊎◌, true, false, Option, none, some, List, [], ◌∷◌, arith, length, Text,
}
use omarchy_chatd.Session.Types.{reconnecting, World, set_syncing}
use omarchy_chatd.Session.Disk.{Written}
use omarchy_chatd.Session.Sync.{Reply, synced, failed, u32_mod, on_sync, sync_run, sync_live}

-- Live with no error, or behind with an error and a count of failures.
abbrev pub IsTracking : ℕ → World → Type 0
IsTracking failures w =
    ((failures ≡ 0) × (w.syncing ≡ true) × (w.error ≡ none))
    ⊎ ((0 < failures) × (w.syncing ≡ false) × (w.error ≡ some reconnecting))

on_sync-IsTracking :
    (r : Reply) (n : ℕ) (w : World)
    → n + 1 < u32_mod
    → IsTracking n w
    → IsTracking (on_sync r n w).0 (on_sync r n w).2
unfolding on_sync
on_sync-IsTracking r n w h t = ground arith

on_sync_count : (r : Reply) (n : ℕ) (w : World) → n + 1 < u32_mod → (on_sync r n w).0 ≤ n + 1
unfolding on_sync
on_sync_count r n w h = ground arith

sync_run-IsTracking :
    (rs : List Reply) (n : ℕ) (w : World)
    → n + length rs < u32_mod
    → IsTracking n w
    → IsTracking (sync_run rs n w).0 (sync_run rs n w).1
unfolding sync_run
sync_run-IsTracking [] n w h t = t
sync_run-IsTracking (r ∷ rs) n w h t =
    sync_run-IsTracking rs (on_sync r n w).0 (on_sync r n w).2
      (omega (arith, on_sync_count r n w (omega arith))) (on_sync-IsTracking r n w (omega arith) t)

abbrev pub latest {ℓ} : {A : Type ℓ} → List A → Option A
latest [] = none
latest (r ∷ []) = some r
latest (r ∷ s ∷ rs) = latest (s ∷ rs)

-- What is shown after an answer, or before any.
abbrev pub Shows : Option Reply → World → Type 0
Shows (some failed) w = (w.syncing ≡ false) × (w.error ≡ some reconnecting)
Shows (some (synced token written)) w = (w.syncing ≡ true) × (w.error ≡ none)
Shows none w = (w.syncing ≡ true) × (w.error ≡ none)

on_sync-Shows :
    (r : Reply) (n : ℕ) (w : World)
    → n + 1 < u32_mod
    → IsTracking n w
    → Shows (some r) (on_sync r n w).2
unfolding on_sync
on_sync-Shows (synced token written) n w h t = ground arith
on_sync-Shows failed n w h t = ground arith

sync_run-Shows :
    (r : Reply) (rs : List Reply) (n : ℕ) (w : World)
    → n + length (r ∷ rs) < u32_mod
    → IsTracking n w
    → Shows (latest (r ∷ rs)) (sync_run (r ∷ rs) n w).1
unfolding sync_run
sync_run-Shows r [] n w h t = on_sync-Shows r n w (omega arith) t
sync_run-Shows r (s ∷ rs) n w h t =
    sync_run-Shows s rs (on_sync r n w).0 (on_sync r n w).2
      (omega (arith, on_sync_count r n w (omega arith))) (on_sync-IsTracking r n w (omega arith) t)

-- After the first sync and fewer than 2^32 further answers, the state shows the latest answer: where it
-- is a failure, `syncing` is false and the error says that the daemon reconnects; where it is a sync
-- that succeeded, or none has come yet, `syncing` is true and there is no error.
pub sync_live-Shows :
    (rs : List Reply) (w : World) → length rs < u32_mod → Shows (latest rs) (sync_live rs w).1
unfolding sync_live sync_run
sync_live-Shows [] w h = unfold set_syncing in ground arith
sync_live-Shows (r ∷ rs) w h =
    sync_run-Shows r rs 0 (set_syncing true w).1 (omega arith) (unfold set_syncing in ground arith)

-- One success after any failures: live again, no error.
pub sync_run_recovers :
    (token : Text) (written : Written) (n : ℕ) (w : World)
    → IsTracking n w
    → let (f, wait, w') = on_sync (synced token written) n w in
      (f ≡ 0) × (wait ≡ 0) × (w'.syncing ≡ true) × (w'.error ≡ none)
unfolding on_sync
sync_run_recovers token written n w t = ground arith
