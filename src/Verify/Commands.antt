-- ===== src/Verify/Commands.antt =====
-- The commands on a verification: `verify_accept`, `verify_confirm` and `verify_cancel` (src/verify.rs).
use omarchy_chatd.Base.{Bool, true, false, Option, none, some, if◌then◌else◌, Text}
use omarchy_chatd.Verify.Flows.{
  Request, Sas, SasState, sas_keys_exchanged, Call, accept_request, confirm_sas, mismatch_sas,
  cancel_request, Desk, call, find_flow,
}

pub data Error : Type 0 where
  not_logged_in no_user_id no_identity unknown_flow flow_gone no_exchange : Error
  nothing_to_confirm call_failed : Error

-- What the SDK answers to a command on a flow: whether there is a client, its request, its exchange
-- with its state, and whether the call that is made succeeds.
pub record Answers : Type 0 where
  pub signed_in : Bool
  pub request : Option Request
  pub sas : Option (Sas × SasState)
  pub called : Bool

pub data Reply (A : Type 0) : Type 0 where
  ok : A → Reply A
  err : Error → Reply A

abbrev pub or_err : {A : Type 0} → Option A → Error → Reply A
or_err none e = err e
or_err (some a) e = ok a

infixl 5 ◌>>=◌ ◌>>◌
abbrev pub ◌>>=◌ : {A B : Type 0} → Reply A → (A → Reply B) → Reply B
ok a >>= f = f a
err e >>= f = err e

abbrev pub ◌>>◌ : {A B : Type 0} → Reply A → Reply B → Reply B
m >> k = m >>= λ _. k

abbrev pub check : Bool → Error → Reply (Unit {0})
check true e = ok tt
check false e = err e

-- `Core::request_by_id`.
unfoldable pub request_by_id : Answers → Text → Desk → Reply Request
request_by_id a id d = do
  check a.signed_in not_logged_in
  or_err (find_flow id d.flows) unknown_flow
  or_err a.request flow_gone

-- `Core::sas_by_id`.
unfoldable pub sas_by_id : Answers → Text → Desk → Reply (Sas × SasState)
sas_by_id a id d = do
  check a.signed_in not_logged_in
  or_err (find_flow id d.flows) unknown_flow
  or_err a.sas no_exchange

-- A call whose failure is the command's.
abbrev pub called : Answers → Call → Desk → Reply (Unit {0}) × Desk
called a c d = (check a.called call_failed, call c d)

-- `Core::verify_accept`.
unfoldable pub verify_accept : Answers → Text → Desk → Reply (Unit {0}) × Desk
unfolding request_by_id call
verify_accept a id d = elim (request_by_id a id d) [
  | err e ↦ (err e, d)
  | ok r ↦ called a accept_request d
]

abbrev pub keys_exchanged : SasState → Bool
keys_exchanged (sas_keys_exchanged es) = true
keys_exchanged _ = false

-- What `verify_confirm` does with the exchange that it has found, or not.
unfoldable pub confirm_with : Answers → Desk → Reply (Sas × SasState) → Reply (Unit {0}) × Desk
unfolding call
confirm_with a d (err e) = (err e, d)
confirm_with a d (ok (sas, state)) =
    if keys_exchanged state then called a confirm_sas d else (err nothing_to_confirm, d)

-- `Core::verify_confirm`.
unfoldable pub verify_confirm : Answers → Text → Desk → Reply (Unit {0}) × Desk
unfolding sas_by_id confirm_with
verify_confirm a id d = confirm_with a d (sas_by_id a id d)

-- `Core::verify_cancel`: the answer to `mismatch` is ignored.
unfoldable pub verify_cancel : Answers → Text → Desk → Reply (Unit {0}) × Desk
unfolding sas_by_id request_by_id call
verify_cancel a id d = elim (sas_by_id a id d) [
  | ok _ ↦ (ok tt, call mismatch_sas d)
  | err _ ↦ elim (request_by_id a id d) [ err e ↦ (err e, d) | ok r ↦ called a cancel_request d ]
]
