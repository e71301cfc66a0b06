-- ===== src/Verify/Consent.antt =====
-- What is asked of the SDK only when the user says so (src/verify.rs).
use omarchy_chatd.Base.{
  ◌≡◌, refl, sym, ◌∙◌, ◌⊎◌, inl, inr, Bool, true, false, ◌||◌, Option, none, some, List, [], ◌∷◌,
  ◌++◌, arith, if◌then◌else◌, Bool-cases, is_some, any, Text,
}
use omarchy_chatd.Verify.Flows.{
  EmojiInfo, requested, Request, Sas, RequestState, is_created, is_requested, is_ready,
  is_transitioned, is_done, is_cancelled, SasState, sas_created, sas_started, sas_accepted,
  sas_keys_exchanged, sas_confirmed, sas_done, sas_cancelled, Call, start_sas, accept_sas,
  confirm_sas, Desk, call, insert_flow, find_flow, emit, follow_sas, track_sas, follow_request,
  finish_request, track_request,
}
use omarchy_chatd.Verify.Commands.{
  Error, unknown_flow, nothing_to_confirm, Answers, Reply, ok, err, sas_by_id, verify_accept,
  confirm_with, verify_confirm, verify_cancel,
}
use omarchy_chatd.Verify.Tracking.{up_to, gather, is_last, track_request-IsTracked}
use mathlib.Core.List.{append_assoc, append-nil}

-- The one call that tracking makes at a state of a request.
abbrev pub request_call : RequestState → List Call
request_call (is_ready sas) = start_sas ∷ []
request_call _ = []

follow_request_calls :
    (r : Request) (out : Bool) (ss : List RequestState) (d : Desk)
    → (follow_request r out ss d).1.calls ≡ d.calls ++ gather request_call (up_to is_last ss)
unfolding follow_request
follow_request_calls r out [] d = sym (append-nil d.calls)
follow_request_calls r out (is_created ∷ ss) d = follow_request_calls r out ss d
follow_request_calls r out (is_requested ∷ ss) d = follow_request_calls r out ss d
follow_request_calls r out (is_ready none ∷ ss) d =
    follow_request_calls r out ss _ ∙ append_assoc d.calls _ _
follow_request_calls r out (is_ready (some sas) ∷ ss) d =
    follow_request_calls r out ss _ ∙ append_assoc d.calls _ _
follow_request_calls r out (is_transitioned none ∷ ss) d = sym (append-nil d.calls)
follow_request_calls r out (is_transitioned (some sas) ∷ ss) d = sym (append-nil d.calls)
follow_request_calls r out (is_done ∷ ss) d = sym (append-nil d.calls)
follow_request_calls r out (is_cancelled why ∷ ss) d = sym (append-nil d.calls)

follow_sas_calls :
    (r : Request) (sas : Sas) (out : Bool) (ss : List SasState) (d : Desk)
    → (follow_sas r sas out ss d).calls ≡ d.calls
unfolding follow_sas
follow_sas_calls r sas out [] d = refl
follow_sas_calls r sas out (sas_created ∷ ss) d = follow_sas_calls r sas out ss d
follow_sas_calls r sas out (sas_started ∷ ss) d = follow_sas_calls r sas out ss d
follow_sas_calls r sas out (sas_accepted ∷ ss) d = follow_sas_calls r sas out ss d
follow_sas_calls r sas out (sas_keys_exchanged es ∷ ss) d = follow_sas_calls r sas out ss _
follow_sas_calls r sas out (sas_confirmed ∷ ss) d = follow_sas_calls r sas out ss _
follow_sas_calls r sas out (sas_done ∷ ss) d = refl
follow_sas_calls r sas out (sas_cancelled why ∷ ss) d = refl

finish_request_calls : (r : Request) (b : Bool) (e : Desk) → (finish_request r b e).calls ≡ e.calls
finish_request_calls r true e = refl
finish_request_calls r false e = refl

-- Whatever a request and its exchange go through, tracking them accepts no request and confirms no
-- exchange: all it asks for is to start an exchange at each ready state, and to accept the exchange
-- where the other side has started it.
pub tracking_calls :
    (r : Request) (sas : Sas) (out : Bool) (rs : List RequestState) (ss : List SasState)
    (ended : Bool) (d : Desk)
    → ((track_request r out rs ended d).calls ≡ d.calls ++ gather request_call (up_to is_last rs))
      × ((track_sas r sas out ss d).calls
          ≡ d.calls ++ (if sas.we_started then [] else accept_sas ∷ []))
unfolding track_request track_sas
tracking_calls r sas out rs ss ended d =
    let start : Desk = record d { flows = insert_flow r.flow_id r.other_user d.flows } in
    let said = emit r out requested [] none start in
    (
      finish_request_calls r ((follow_request r out rs said).0 || ended)
            (follow_request r out rs said).1
          ∙ follow_request_calls r out rs said,
      elim (Bool-cases sas.we_started) [
        | inl e ↦ rw e (follow_sas_calls r sas out ss d ∙ sym (append-nil d.calls))
        | inr e ↦ rw e (follow_sas_calls r sas out ss (call accept_sas d))
      ],
    )

-- Either a confirmation was asked for, with a client signed in, the flow known and its exchange
-- showing its keys; or the command failed and nothing was asked for.
abbrev pub IsConsented : Answers → Text → Desk → Reply (Unit {0}) × Desk → Type 0
IsConsented a id d (r, e) =
    ((e ≡ call confirm_sas d)
      × (a.signed_in ≡ true)
      × (is_some (find_flow id d.flows) ≡ true)
      × ((sas : Sas) × (es : Option (List EmojiInfo)) × (a.sas
            ≡ some (sas, sas_keys_exchanged es))))
    ⊎ ((e ≡ d) × ((why : Error) × (r ≡ err why)))

sas_by_id_ok :
    (a : Answers) (id : Text) (d : Desk) (x : Sas × SasState)
    → sas_by_id a id d ≡ ok x
    → (a.signed_in ≡ true) × (is_some (find_flow id d.flows) ≡ true) × (a.sas ≡ some x)
unfolding sas_by_id
sas_by_id_ok a id d x h = ground arith

confirm_with-IsConsented :
    (a : Answers) (id : Text) (d : Desk) (x : Reply (Sas × SasState))
    → sas_by_id a id d ≡ x
    → IsConsented a id d (confirm_with a d x)
unfolding confirm_with
confirm_with-IsConsented a id d (err e) h = inr (refl, (e, refl))
confirm_with-IsConsented a id d (ok (sas, sas_keys_exchanged es)) h =
    let (s, f, e) = sas_by_id_ok a id d (sas, sas_keys_exchanged es) h in
    inl (refl, s, f, (sas, es, e))
confirm_with-IsConsented a id d (ok (sas, sas_created)) h = inr (refl, (nothing_to_confirm, refl))
confirm_with-IsConsented a id d (ok (sas, sas_started)) h = inr (refl, (nothing_to_confirm, refl))
confirm_with-IsConsented a id d (ok (sas, sas_accepted)) h = inr (refl, (nothing_to_confirm, refl))
confirm_with-IsConsented a id d (ok (sas, sas_confirmed)) h = inr (refl, (nothing_to_confirm, refl))
confirm_with-IsConsented a id d (ok (sas, sas_done)) h = inr (refl, (nothing_to_confirm, refl))
confirm_with-IsConsented a id d (ok (sas, sas_cancelled why)) h =
    inr (refl, (nothing_to_confirm, refl))

-- A confirmation is asked for only where a client is signed in, the flow is known, and its exchange
-- shows its keys; otherwise the command fails and asks for nothing.
pub verify_confirm-IsConsented :
    (a : Answers) (id : Text) (d : Desk) → IsConsented a id d (verify_confirm a id d)
verify_confirm-IsConsented a id d =
    unfold verify_confirm in confirm_with-IsConsented a id d (sas_by_id a id d) refl

-- Once tracking has ended a request, by a state that ends it or with its stream, each command on its
-- flow of a signed-in client fails as one on an unknown flow, and asks for nothing. The hand-over to
-- the emoji exchange is such a state, so from then on the exchange can be neither confirmed nor
-- cancelled by a command, whatever it shows.
pub ended_flow_refused :
    (a : Answers) (r : Request) (out : Bool) (ss : List RequestState) (ended : Bool) (d : Desk)
    → a.signed_in ≡ true
    → (any is_last ss || ended) ≡ true
    → let e = track_request r out ss ended d in
      (verify_accept a r.flow_id e ≡ (err unknown_flow, e))
      × (verify_confirm a r.flow_id e ≡ (err unknown_flow, e))
      × (verify_cancel a r.flow_id e ≡ (err unknown_flow, e))
ended_flow_refused a r out ss ended d s l =
    refused a r.flow_id (track_request r out ss ended d) s
      (rw l at (track_request-IsTracked r out ss ended d).own_flow)
  where
    refused :
        (a : Answers) (id : Text) (e : Desk)
        → a.signed_in ≡ true
        → find_flow id e.flows ≡ none
        → (verify_accept a id e ≡ (err unknown_flow, e))
          × (verify_confirm a id e ≡ (err unknown_flow, e))
          × (verify_cancel a id e ≡ (err unknown_flow, e))
    refused a id e s n = unfold verify_accept verify_confirm verify_cancel in ground arith
