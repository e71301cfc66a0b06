-- ===== src/Verify/Recovery.antt =====
-- The recovery key of src/verify.rs: `recover`, `setup_recovery`, `reset_recovery_key`. The SDK's
-- state of recovery is an argument, read anew where the source reads it anew.
use omarchy_chatd.Base.{
  ◌≡◌, ◌↔◌, Bool, true, false, not, ◌&&◌, ◌||◌, Option, none, some, List, [], ◌∷◌, ◌++◌, arith,
  if◌then◌else◌, Text,
}

-- The SDK's `RecoveryState`.
pub data RecoveryState : Type 0 where
  unknown enabled disabled incomplete : RecoveryState

pub data Fault : Type 0 where
  not_logged_in not_recovered some_missing not_complete : Fault
  already_set_up not_bootstrapped not_enabled not_rekeyed no_identity : Fault

-- What the commands ask of the SDK, and that they announce a change of the status.
pub data Action : Type 0 where
  bootstrap enable reset_key : Action
  announce : Action

-- The answers: whether a client is there, whether it has a master key (`none`: no status), the state
-- of recovery before and after what is asked, and whether each call succeeds, with the key it gives.
pub record Answers : Type 0 where
  pub signed_in : Bool
  pub has_master : Option Bool
  pub before : RecoveryState
  pub recovered : Bool
  pub after : RecoveryState
  pub bootstrapped : Bool
  pub key : Option Text

pub data Outcome (A : Type 0) : Type 0 where
  ok : A → Outcome A
  err : Fault → Outcome A

-- The result of a command, and its actions in order.
abbrev pub Run : Type 0 → Type 0
Run A = Outcome A × List Action

abbrev after_acts : {A : Type 0} → List Action → Run A → Run A
after_acts acts (r, more) = (r, acts ++ more)

abbrev has_master_key : Option Bool → Bool
has_master_key none = false
has_master_key (some b) = b

abbrev pub is_enabled : RecoveryState → Bool
is_enabled enabled = true
is_enabled _ = false

-- `Core::recover`; `recovered` is the answer to the key, trimmed.
unfoldable pub recover : Answers → Run (Unit {0})
recover a =
    if not a.signed_in
    then (err not_logged_in, [])
    else (if not a.recovered then (err not_recovered, []) else elim a.after [
      | enabled ↦ (ok tt, announce ∷ [])
      | incomplete ↦ (err some_missing, [])
      | _ ↦ (err not_complete, [])
    ])

-- A call that gives a new key, and the announcement after it.
abbrev new_key : Action → Fault → Option Text → Run Text
new_key act bad none = (err bad, act ∷ [])
new_key act bad (some key) = (ok key, act ∷ announce ∷ [])

-- The last part of `setup_recovery`.
make_key : Answers → Run Text
make_key a = elim a.after [
  | enabled ↦ (err already_set_up, [])
  | disabled ↦ new_key enable not_enabled a.key
  | unknown ↦ new_key enable not_enabled a.key
  | incomplete ↦ new_key reset_key not_rekeyed a.key
]

-- `Core::setup_recovery`.
unfoldable pub setup_recovery : Answers → Run Text
unfolding make_key
setup_recovery a =
    let master = has_master_key a.has_master in
    if not a.signed_in
    then (err not_logged_in, [])
    else (if master && is_enabled a.before
        then (err already_set_up, [])
        else (if master
            then make_key a
            else (if a.bootstrapped
                then after_acts (bootstrap ∷ []) (make_key a)
                else (err not_bootstrapped, bootstrap ∷ []))))

-- `Core::reset_recovery_key`.
unfoldable pub reset_recovery_key : Answers → Run Text
reset_recovery_key a =
    if not a.signed_in
    then (err not_logged_in, [])
    else (if not (has_master_key a.has_master)
        then (err no_identity, [])
        else new_key reset_key not_rekeyed a.key)

abbrev pub acts_on : Action → List Action → Bool
acts_on act [] = false
acts_on act (x ∷ xs) = let rest = acts_on act xs in same act x || rest
  where
    same : Action → Action → Bool
    same bootstrap bootstrap = true
    same enable enable = true
    same reset_key reset_key = true
    same announce announce = true
    same _ _ = false

-- Setting up recovery asks for no key where recovery is enabled when the key would be made, and for
-- no identity where there is one; and it announces a change exactly when it returns a key, the one
-- that the enabling or the re-keying gave.
pub setup_recovery_lem :
    (a : Answers)
    → let (r, acts) = setup_recovery a in
      (((acts_on enable acts || acts_on reset_key acts) && is_enabled a.after) ≡ false)
      × ((acts_on bootstrap acts && has_master_key a.has_master) ≡ false)
      × ((acts_on announce acts ≡ true) ↔ ((key : Text) × (r ≡ ok key) × (a.key ≡ some key)))
unfolding setup_recovery
setup_recovery_lem a = ground arith
