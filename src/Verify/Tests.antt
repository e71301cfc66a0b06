-- ===== src/Verify/Tests.antt =====
-- Concrete runs of the theorems on verification.
use omarchy_chatd.Base.{
  ◌≡◌, refl, ◌↔◌, true, false, ◌&&◌, ◌||◌, none, some, List, [], ◌∷◌, Text, codes,
}
use omarchy_chatd.Verify.Flows.{
  Request, Sas, RequestState, is_requested, is_ready, is_transitioned, SasState, sas_started,
  sas_keys_exchanged, sas_confirmed, sas_done, start_sas, accept_sas, Desk, track_sas,
  track_request,
}
use omarchy_chatd.Verify.Commands.{
  unknown_flow, Answers, err, verify_accept, verify_confirm, verify_cancel,
}
use omarchy_chatd.Verify.Tracking.{IsTracked, track_request-IsTracked}
use omarchy_chatd.Verify.Consent.{
  tracking_calls, IsConsented, verify_confirm-IsConsented, ended_flow_refused,
}
use omarchy_chatd.Verify.Recovery

abbrev empty_desk : Desk
empty_desk = record { flows = []; sent = []; calls = []; tracked = [] }

abbrev from_phone : Request
from_phone = record { flow_id = codes "f1"; other_user = codes "@me:x" }

abbrev with_phone : Sas
with_phone = record { we_started = false; device_id = codes "PHONE"; device_name = none }

abbrev accepted_states : List RequestState
accepted_states = is_requested ∷ is_ready none ∷ is_transitioned (some with_phone) ∷ []

abbrev compared_states : List SasState
compared_states =
    sas_started
    ∷ sas_keys_exchanged (some (record { symbol = codes "D"; description = codes "Dog" } ∷ []))
    ∷ sas_confirmed
    ∷ sas_done
    ∷ sas_confirmed
    ∷ []

track_request-IsTracked_example :
    IsTracked from_phone false accepted_states false empty_desk
      (track_request from_phone false accepted_states false empty_desk)
track_request-IsTracked_example =
    track_request-IsTracked from_phone false accepted_states false empty_desk

tracking_calls_example :
    ((track_request from_phone false accepted_states false empty_desk).calls ≡ start_sas ∷ [])
    × ((track_sas from_phone with_phone false compared_states empty_desk).calls ≡ accept_sas ∷ [])
tracking_calls_example =
    tracking_calls from_phone with_phone false accepted_states compared_states false empty_desk

abbrev confirming : Answers
confirming = record {
  signed_in = true;
  request = some from_phone;
  sas = some (with_phone, sas_keys_exchanged none);
  called = true;
}

abbrev open_desk : Desk
open_desk = record empty_desk { flows = (codes "f1", codes "@me:x") ∷ [] }

verify_confirm-IsConsented_example :
    IsConsented confirming (codes "f1") open_desk (verify_confirm confirming (codes "f1") open_desk)
verify_confirm-IsConsented_example = verify_confirm-IsConsented confirming (codes "f1") open_desk

ended_flow_refused_example :
    let e = track_request from_phone false accepted_states false empty_desk in
    (verify_accept confirming (codes "f1") e ≡ (err unknown_flow, e))
    × (verify_confirm confirming (codes "f1") e ≡ (err unknown_flow, e))
    × (verify_cancel confirming (codes "f1") e ≡ (err unknown_flow, e))
ended_flow_refused_example =
    ended_flow_refused confirming from_phone false accepted_states false empty_desk refl refl

abbrev first_device : Recovery.Answers
first_device = record {
  signed_in = true;
  has_master = some false;
  before = Recovery.disabled;
  recovered = false;
  after = Recovery.disabled;
  bootstrapped = true;
  key = some (codes "key");
}

setup_recovery_lem_example :
    let (r, acts) = Recovery.setup_recovery first_device in
    (((Recovery.acts_on Recovery.enable acts || Recovery.acts_on Recovery.reset_key acts)
        && Recovery.is_enabled Recovery.disabled)
      ≡ false)
    × ((Recovery.acts_on Recovery.bootstrap acts && false) ≡ false)
    × ((Recovery.acts_on Recovery.announce acts ≡ true)
        ↔ ((key : Text) × (r ≡ Recovery.ok key) × (some (codes "key") ≡ some key)))
setup_recovery_lem_example = Recovery.setup_recovery_lem first_device
