-- ===== src/Secrets.antt =====
-- src/secrets.rs: where the session's secrets live. The Secret Service is outside the program: its
-- answers are the fields of `LoadAnswers` and the arguments of type `Answer`; what the program keeps
-- there is the `item` of the `Keyring`, and `prompts` counts the unlock dialogs shown.
pub mod Quiet
use omarchy_chatd.Base.{ℕ, ◌+◌, Bool, not, Option, none, some, if◌then◌else◌}

-- What a call under a time limit came to.
pub data Answer : Type 0 where
  answered failed timed_out : Answer

-- A stored document: not there, there but not readable as what was expected, or read.
pub data Doc (A : Type 0) : Type 0 where
  absent garbled : Doc A
  doc : A → Doc A

-- `secrets::Backend`.
pub data Backend : Type 0 where
  keyring file : Backend

pub data Fault : Type 0 where
  no_answer not_connected not_stored : Fault
  is_locked stayed_locked not_unlocked : Fault
  not_searched item_not_unlocked item_not_read : Fault

pub data Outcome (A : Type 0) : Type 0 where
  ok : A → Outcome A
  err : Fault → Outcome A

infixl 5 ◌>>=◌ ◌>>◌
abbrev pub ◌>>=◌ : {A B : Type 0} → Outcome A → (A → Outcome B) → Outcome B
ok a >>= f = f a
err e >>= f = err e

abbrev pub ◌>>◌ : {A B : Type 0} → Outcome A → Outcome B → Outcome B
m >> k = m >>= λ _. k

-- `timeout(KEYRING_TIMEOUT, call).await.map_err(..)?.context(..)?`
abbrev pub waited : Answer → Fault → Fault → Outcome (Unit {0})
waited answered late bad = ok tt
waited failed late bad = err bad
waited timed_out late bad = err late

-- `secrets::keyring`.
pub connect : Answer → Outcome (Unit {0})
connect reply = waited reply no_answer not_connected

-- The bytes of a keyring item: the secrets, or `none` where they do not parse as such.
abbrev pub Blob : Type 0 → Type 0
Blob S = Option S

-- `secrets::store`: the item is replaced when both calls succeed, and untouched otherwise.
unfoldable pub store :
    {S : Type 0} → Answer → Answer → S → Option (Blob S) → Outcome (Unit {0}) × Option (Blob S)
unfolding connect
store reach create secret item = elim (do connect reach; waited create no_answer not_stored) [
  | ok _ ↦ (ok tt, some (some secret))
  | err e ↦ (err e, item)
]

-- The keyring's answers to one `secrets::load`.
pub record LoadAnswers : Type 0 where
  pub reach : Answer
  pub locked : Bool
  pub unlock : Answer
  pub still_locked : Bool
  pub search : Answer
  pub item_locked : Bool
  pub item_unlock : Bool
  pub readable : Bool

-- The unlocking of the keyring itself; the number is that of the unlock dialogs asked for.
unlock_keyring : LoadAnswers → Bool → Outcome (Unit {0}) × ℕ
unlock_keyring a prompt =
    if not a.locked
    then (ok tt, 0)
    else (if not prompt then (err is_locked, 0) else (
      elim (waited a.unlock stayed_locked not_unlocked) [
        | err e ↦ err e
        | ok _ ↦ if a.still_locked then err is_locked else ok tt
      ],
      1,
    ))

-- The unlocking of the item that was found, and the reading of its secret.
read_item : {A : Type 0} → LoadAnswers → Bool → A → Outcome (Option A) × ℕ
read_item a prompt secret =
    let read = if a.readable then ok (some secret) else err item_not_read in
    if not a.item_locked
    then (read, 0)
    else (if not prompt
        then (err is_locked, 0)
        else (if a.item_unlock then read else err item_not_unlocked, 1))

-- The search, and the first item that it gives.
find_item : {A : Type 0} → LoadAnswers → Bool → Option A → Outcome (Option A) × ℕ
unfolding read_item
find_item a prompt item = elim (waited a.search no_answer not_searched) [
  | err e ↦ (err e, 0)
  | ok _ ↦ elim item [ none ↦ (ok none, 0) | some secret ↦ read_item a prompt secret ]
]

-- `secrets::load`: the result, and how many unlock dialogs were asked for.
unfoldable pub load : {A : Type 0} → LoadAnswers → Bool → Option A → Outcome (Option A) × ℕ
unfolding connect unlock_keyring find_item
load a prompt item = elim (connect a.reach) [
  | err e ↦ (err e, 0)
  | ok _ ↦
      let (opened, asked) = unlock_keyring a prompt in
      elim opened [
        | err e ↦ (err e, asked)
        | ok _ ↦ let (found, more) = find_item a prompt item in (found, asked + more)
      ]
]

-- `secrets::forget`: nothing is deleted where the keyring cannot be reached or refuses.
unfoldable pub forget : {A : Type 0} → Answer → Bool → Option A → Option A
unfolding connect
forget reach deleted item = elim (connect reach) [
  | ok _ ↦ if deleted then none else item
  | err _ ↦ item
]
