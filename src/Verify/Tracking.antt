-- ===== src/Verify/Tracking.antt =====
-- What following a verification announces, asks for and leaves (src/verify.rs).
use omarchy_chatd.Base.{
  ◌≡◌, refl, sym, ap, ◌∙◌, Bool, true, false, ◌||◌, Option, none, some, List, [], ◌∷◌, ◌++◌, arith,
  if◌then◌else◌, any, Text, text_eq, text_eq_refl, text_eq_iff,
}
use omarchy_chatd.Verify.Flows.{
  EmojiInfo, Stage, requested, ready, emoji, confirmed, done, cancelled, VerificationInfo, Event,
  verification, verification_status_changed, Request, Sas, RequestState, is_created, is_requested,
  is_ready, is_transitioned, is_done, is_cancelled, SasState, sas_created, sas_started,
  sas_accepted, sas_keys_exchanged, sas_confirmed, sas_done, sas_cancelled, Desk, remove_flow,
  insert_flow, find_flow, emit, follow_sas, follow_request, finish_request, track_request,
}
use mathlib.Core.List.{append_assoc, append-nil}

-- The states up to the one at which a loop is left, and that one.
abbrev pub up_to {ℓ} : {A : Type ℓ} → (A → Bool) → List A → List A
up_to last [] = []
up_to last (s ∷ ss) = let rest = up_to last ss in if last s then s ∷ [] else s ∷ rest

abbrev pub gather {ℓ κ} : {A : Type ℓ} {B : Type κ} → (A → List B) → List A → List B
gather f [] = []
gather f (x ∷ xs) = f x ++ gather f xs

abbrev pub is_last_sas : SasState → Bool
is_last_sas sas_done = true
is_last_sas (sas_cancelled why) = true
is_last_sas _ = false

abbrev pub is_last : RequestState → Bool
is_last (is_transitioned sas) = true
is_last is_done = true
is_last (is_cancelled why) = true
is_last _ = false

abbrev step_info :
    Request → Option Sas → Bool → Stage → List EmojiInfo → Option Text → VerificationInfo
step_info r none outgoing stage emojis reason = record {
  flow_id = r.flow_id;
  other_user = r.other_user;
  other_device = none;
  other_device_name = none;
  outgoing = outgoing;
  state = stage;
  emojis = emojis;
  reason = reason;
}
step_info r (some sas) outgoing stage emojis reason = record {
  flow_id = r.flow_id;
  other_user = r.other_user;
  other_device = some sas.device_id;
  other_device_name = sas.device_name;
  outgoing = outgoing;
  state = stage;
  emojis = emojis;
  reason = reason;
}

-- What each state of an exchange, and of a request, is announced as.
pub sas_step : Request → Sas → Bool → SasState → List Event
sas_step r sas out (sas_keys_exchanged none) =
    verification (step_info r (some sas) out emoji [] none) ∷ []
sas_step r sas out (sas_keys_exchanged (some es)) =
    verification (step_info r (some sas) out emoji es none) ∷ []
sas_step r sas out sas_confirmed = verification (step_info r none out confirmed [] none) ∷ []
sas_step r sas out sas_done =
    verification (step_info r none out done [] none) ∷ verification_status_changed ∷ []
sas_step r sas out (sas_cancelled why) =
    verification (step_info r none out cancelled [] (some why)) ∷ []
sas_step r sas out _ = []

pub request_step : Request → Bool → RequestState → List Event
request_step r out (is_ready sas) = verification (step_info r none out ready [] none) ∷ []
request_step r out is_done = verification (step_info r none out done [] none) ∷ []
request_step r out (is_cancelled why) =
    verification (step_info r none out cancelled [] (some why)) ∷ []
request_step r out _ = []

-- Following an exchange announces each of its states in turn, up to the first that ends it.
follow_sas_sends :
    (r : Request) (sas : Sas) (out : Bool) (ss : List SasState) (d : Desk)
    → (follow_sas r sas out ss d).sent
      ≡ d.sent ++ gather (sas_step r sas out) (up_to is_last_sas ss)
unfolding follow_sas sas_step
follow_sas_sends r sas out [] d = ground (arith, append-nil d.sent)
follow_sas_sends r sas out (sas_created ∷ ss) d = follow_sas_sends r sas out ss d
follow_sas_sends r sas out (sas_started ∷ ss) d = follow_sas_sends r sas out ss d
follow_sas_sends r sas out (sas_accepted ∷ ss) d = follow_sas_sends r sas out ss d
follow_sas_sends r sas out (sas_keys_exchanged none ∷ ss) d =
    follow_sas_sends r sas out ss _ ∙ append_assoc d.sent _ _
follow_sas_sends r sas out (sas_keys_exchanged (some es) ∷ ss) d =
    follow_sas_sends r sas out ss _ ∙ append_assoc d.sent _ _
follow_sas_sends r sas out (sas_confirmed ∷ ss) d =
    follow_sas_sends r sas out ss _ ∙ append_assoc d.sent _ _
follow_sas_sends r sas out (sas_done ∷ ss) d = append_assoc d.sent _ _
follow_sas_sends r sas out (sas_cancelled why ∷ ss) d = refl

follow_request_sends :
    (r : Request) (out : Bool) (ss : List RequestState) (d : Desk)
    → (follow_request r out ss d).1.sent ≡ d.sent ++ gather (request_step r out) (up_to is_last ss)
unfolding follow_request request_step
follow_request_sends r out [] d = sym (append-nil d.sent)
follow_request_sends r out (is_created ∷ ss) d = follow_request_sends r out ss d
follow_request_sends r out (is_requested ∷ ss) d = follow_request_sends r out ss d
follow_request_sends r out (is_ready none ∷ ss) d =
    follow_request_sends r out ss _ ∙ append_assoc d.sent _ _
follow_request_sends r out (is_ready (some sas) ∷ ss) d =
    follow_request_sends r out ss _ ∙ append_assoc d.sent _ _
follow_request_sends r out (is_transitioned none ∷ ss) d = sym (append-nil d.sent)
follow_request_sends r out (is_transitioned (some sas) ∷ ss) d = sym (append-nil d.sent)
follow_request_sends r out (is_done ∷ ss) d = refl
follow_request_sends r out (is_cancelled why ∷ ss) d = refl

-- Following a request touches no flow, and it is left exactly at a state that ends it.
follow_request_flows :
    (r : Request) (out : Bool) (ss : List RequestState) (d : Desk)
    → ((follow_request r out ss d).0 ≡ any is_last ss)
      × ((follow_request r out ss d).1.flows ≡ d.flows)
unfolding follow_request
follow_request_flows r out [] d = (refl, refl)
follow_request_flows r out (is_created ∷ ss) d = follow_request_flows r out ss d
follow_request_flows r out (is_requested ∷ ss) d = follow_request_flows r out ss d
follow_request_flows r out (is_ready none ∷ ss) d = follow_request_flows r out ss _
follow_request_flows r out (is_ready (some sas) ∷ ss) d = follow_request_flows r out ss _
follow_request_flows r out (is_transitioned none ∷ ss) d = (refl, refl)
follow_request_flows r out (is_transitioned (some sas) ∷ ss) d = (refl, refl)
follow_request_flows r out (is_done ∷ ss) d = (refl, refl)
follow_request_flows r out (is_cancelled why ∷ ss) d = (refl, refl)

find_flow-remove_flow :
    (id k : Text) (fs : List (Text × Text))
    → find_flow k (remove_flow id fs) ≡ (if text_eq id k then none else find_flow k fs)
find_flow-remove_flow id k [] = ground arith
find_flow-remove_flow id k ((j, v) ∷ fs) =
    ground
      (arith, find_flow-remove_flow id k fs, text_eq_iff j id, text_eq_iff j k, text_eq_iff id k)

finish_request_sent : (r : Request) (b : Bool) (e : Desk) → (finish_request r b e).sent ≡ e.sent
finish_request_sent r true e = refl
finish_request_sent r false e = refl

finish_request_flow :
    (r : Request) (b : Bool) (e : Desk) (fs : List (Text × Text))
    → e.flows ≡ insert_flow r.flow_id r.other_user fs
    → find_flow r.flow_id (finish_request r b e).flows ≡ (if b then none else some r.other_user)
finish_request_flow r true e fs h =
    ground (arith, find_flow-remove_flow r.flow_id r.flow_id e.flows, text_eq_refl r.flow_id)
finish_request_flow r false e fs h = ground (arith, text_eq_refl r.flow_id)

finish_request_others :
    (r : Request) (b : Bool) (e : Desk) (fs : List (Text × Text)) (k : Text)
    → text_eq r.flow_id k ≡ false
    → e.flows ≡ insert_flow r.flow_id r.other_user fs
    → find_flow k (finish_request r b e).flows ≡ find_flow k fs
finish_request_others r true e fs k n h =
    ground (arith, find_flow-remove_flow r.flow_id k e.flows, find_flow-remove_flow r.flow_id k fs)
finish_request_others r false e fs k n h = ground (arith, find_flow-remove_flow r.flow_id k fs)

-- Announced in turn: that it was requested, then what `request_step` gives for each state up to the
-- first that ends the tracking. The flow is known by its id, to the other user, exactly until such a
-- state has come, the hand-over among them, or the stream of states has ended, and other flows are as
-- they were.
pub record IsTracked (r : Request) (out : Bool) (ss : List RequestState) (ended : Bool) (d e : Desk)
    : Type 0 where
  pub announced :
      e.sent
      ≡ d.sent
        ++ verification (step_info r none out requested [] none)
          ∷ gather (request_step r out) (up_to is_last ss)
  pub own_flow :
      find_flow r.flow_id e.flows ≡ (if any is_last ss || ended then none else some r.other_user)
  pub other_flows :
      (k : Text) → text_eq r.flow_id k ≡ false → find_flow k e.flows ≡ find_flow k d.flows

-- Tracking a request announces that it was requested, and then `ready`, `done` and `cancelled`, with its
-- reason, as these states come, up to the one that ends it: that it is done or cancelled, or that it is
-- handed over to an exchange, which announces nothing itself. Its flow is known, to the other user,
-- until such a state has come or no more states come, so also after the hand-over, while the exchange is
-- still to be confirmed, it is not; and every other flow is as it was.
pub track_request-IsTracked :
    (r : Request) (out : Bool) (ss : List RequestState) (ended : Bool) (d : Desk)
    → IsTracked r out ss ended d (track_request r out ss ended d)
unfolding track_request
track_request-IsTracked r out ss ended d =
    let start : Desk = record d { flows = insert_flow r.flow_id r.other_user d.flows } in
    let said = emit r out requested [] none start in
    let over = (follow_request r out ss said).0 || ended in
    let after = (follow_request r out ss said).1 in
    let left = follow_request_flows r out ss said in
    let kept : after.flows ≡ insert_flow r.flow_id r.other_user d.flows = left.1 in
    record {
      announced =
          finish_request_sent r over after
          ∙ follow_request_sends r out ss said
          ∙ append_assoc d.sent _ _;
      own_flow =
          ap (λ b. find_flow r.flow_id (finish_request r (b || ended) after).flows) left.0
          ∙ finish_request_flow r (any is_last ss || ended) after d.flows kept;
      other_flows = λ k n. finish_request_others r over after d.flows k n kept;
    }
