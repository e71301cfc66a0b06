-- ===== src/Secrets/Quiet.antt =====
-- What `secrets::load` does with and without `prompt` (src/secrets.rs).
use omarchy_chatd.Base.{◌≤◌, ◌≡◌, Bool, true, false, Option, arith}
use omarchy_chatd.Secrets.{answered, err, is_locked, LoadAnswers, load}

-- Without `prompt` no unlock dialog is ever asked for, whatever the keyring answers.
load_quiet : {A : Type 0} (a : LoadAnswers) (item : Option A) → (load a false item).1 ≡ 0
unfolding load
load_quiet a item = ground arith

-- Without `prompt`, a reachable keyring that is locked is an error.
pub load_locked :
    {A : Type 0} (a : LoadAnswers) (item : Option A)
    → a.reach ≡ answered
    → a.locked ≡ true
    → load a false item ≡ (err is_locked, 0)
unfolding load
load_locked a item r l = ground arith

-- At most two dialogs are shown for one load: the keyring's and the item's.
pub load_asks :
    {A : Type 0} (a : LoadAnswers) (prompt : Bool) (item : Option A) → (load a prompt item).1 ≤ 2
unfolding load
load_asks a prompt item = ground arith
