-- ===== src/Session/Backoff.antt =====
-- The waits of the two retry loops of `sync_loop` (src/core.rs).
use omarchy_chatd.Base.{
  ℕ, zero, suc, ◌*◌, ◌^◌, ◌≤◌, min, ◌≡◌, refl, Bool, true, false, some, List, [], ◌∷◌, arith, All,
}
use native.Mathlib.Nat.{pow-suc, pow-le-pow_right}
use omarchy_chatd.Session.Types.{sync_failing, World, set_error}
use omarchy_chatd.Session.Sync.{Reply, synced, failed, next_backoff, first_sync, retry_wait}

-- Between 2 and 60 seconds.
abbrev pub IsWait : ℕ → Type 0
IsWait b = (2 ≤ b) × (b ≤ 60)

next_backoff-IsWait : (b : ℕ) → IsWait b → IsWait (next_backoff b)
next_backoff-IsWait b h = omega arith

pub first_sync-IsWait :
    (rs : List Reply) (b : ℕ) (w : World) → IsWait b → All IsWait (first_sync b rs w).0.0
unfolding first_sync
first_sync-IsWait [] b w h = tt
first_sync-IsWait (synced token written ∷ rs) b w h = tt
first_sync-IsWait (failed ∷ rs) b w h = (
  h,
  first_sync-IsWait rs (next_backoff b) (set_error (some sync_failing) w).1
      (next_backoff-IsWait b h),
)

-- The wait after `i` failures in a row, as the loop is meant to have it.
abbrev pub wait_after : ℕ → ℕ
wait_after i = min (2 * 2 ^ i) 60

next_backoff-wait_after : (i : ℕ) → next_backoff (wait_after i) ≡ wait_after (suc i)
next_backoff-wait_after i = omega (arith, pow-suc 2 i)

-- The answers before the first success.
abbrev pub failures_before : List Reply → ℕ
failures_before [] = 0
failures_before (synced token written ∷ rs) = 0
failures_before (failed ∷ rs) = suc (failures_before rs)

abbrev pub has_success : List Reply → Bool
has_success [] = false
has_success (synced token written ∷ rs) = true
has_success (failed ∷ rs) = has_success rs

abbrev pub waits_from : ℕ → ℕ → List ℕ
waits_from i zero = []
waits_from i (suc k) = wait_after i ∷ waits_from (suc i) k

first_sync_from :
    (rs : List Reply) (i : ℕ) (w : World)
    → (first_sync (wait_after i) rs w).0 ≡ (waits_from i (failures_before rs), has_success rs)
unfolding first_sync
first_sync_from [] i w = refl
first_sync_from (synced token written ∷ rs) i w = refl
first_sync_from (failed ∷ rs) i w =
    let ih = first_sync_from rs (suc i) (set_error (some sync_failing) w).1 in
    let ih' = rw (← next_backoff-wait_after i) at ih in cc

-- The first sync is retried until an answer succeeds, waiting min(2 * 2^i, 60) seconds after the
-- i-th failure, counted from 0; it succeeds if some answer does.
first_sync_waits :
    (rs : List Reply) (w : World)
    → (first_sync 2 rs w).0 ≡ (waits_from 0 (failures_before rs), has_success rs)
first_sync_waits rs w = first_sync_from rs 0 w

-- Capping the shift at 5 changes no wait of the live loop.
pub retry_wait-eq-wait_after : (n : ℕ) → retry_wait n ≡ wait_after n
unfolding retry_wait
retry_wait-eq-wait_after zero = refl
retry_wait-eq-wait_after (suc zero) = refl
retry_wait-eq-wait_after (suc (suc zero)) = refl
retry_wait-eq-wait_after (suc (suc (suc zero))) = refl
retry_wait-eq-wait_after (suc (suc (suc (suc zero)))) = refl
retry_wait-eq-wait_after (suc (suc (suc (suc (suc n))))) =
    let big : 2 ^ 5 ≤ 2 ^ suc (suc (suc (suc (suc n)))) =
      pow-le-pow_right (omega arith) {i = 5} {j = suc (suc (suc (suc (suc n))))} (omega arith) in
    let capped : min (suc (suc (suc (suc (suc n))))) 5 ≡ 5 = omega arith in rw capped (omega arith)
