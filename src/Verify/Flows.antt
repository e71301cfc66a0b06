-- ===== src/Verify/Flows.antt =====
-- The flows of src/verify.rs: following a request and its emoji exchange.
use omarchy_chatd.Base.{
  Bool, true, false, ◌||◌, Option, none, some, List, [], ◌∷◌, ◌++◌, if◌then◌else◌, Text, text_eq,
}

-- `EmojiInfo`.
pub record EmojiInfo : Type 0 where
  pub symbol : Text
  pub description : Text

-- The texts that a step is announced with.
pub data Stage : Type 0 where
  requested ready emoji confirmed done cancelled : Stage

-- `VerificationInfo`.
pub record VerificationInfo : Type 0 where
  pub flow_id : Text
  pub other_user : Text
  pub other_device : Option Text
  pub other_device_name : Option Text
  pub outgoing : Bool
  pub state : Stage
  pub emojis : List EmojiInfo
  pub reason : Option Text

pub data Event : Type 0 where
  verification : VerificationInfo → Event
  verification_status_changed : Event

-- `VerificationRequest` and `SasVerification`, as far as the program reads them.
pub record Request : Type 0 where
  pub flow_id : Text
  pub other_user : Text

pub record Sas : Type 0 where
  pub we_started : Bool
  pub device_id : Text
  pub device_name : Option Text

-- `VerificationRequestState`; `ready` comes with what `start_sas` answers if it is asked then, and
-- `transitioned` with the exchange, or nothing where it is of another method.
pub data RequestState : Type 0 where
  is_created is_requested : RequestState
  is_ready : Option Sas → RequestState
  is_transitioned : Option Sas → RequestState
  is_done : RequestState
  is_cancelled : Text → RequestState

-- `SasState`; keys come without emojis where the two sides compare numbers.
pub data SasState : Type 0 where
  sas_created sas_started sas_accepted : SasState
  sas_keys_exchanged : Option (List EmojiInfo) → SasState
  sas_confirmed sas_done : SasState
  sas_cancelled : Text → SasState

-- What the program asks of the SDK.
pub data Call : Type 0 where
  accept_request start_sas accept_sas confirm_sas mismatch_sas cancel_request : Call

-- `Core::flows`, the events sent, the calls made, and the exchanges that are followed.
pub record Desk : Type 0 where
  pub flows : List (Text × Text)
  pub sent : List Event
  pub calls : List Call
  pub tracked : List Sas

unfoldable pub send : Event → Desk → Desk
send e d = record d { sent = d.sent ++ e ∷ [] }

unfoldable pub call : Call → Desk → Desk
call c d = record d { calls = d.calls ++ c ∷ [] }

-- `HashMap::remove`, `insert` and `get`.
abbrev pub remove_flow : Text → List (Text × Text) → List (Text × Text)
remove_flow id [] = []
remove_flow id ((k, v) ∷ fs) =
    let rest = remove_flow id fs in if text_eq k id then rest else (k, v) ∷ rest

abbrev pub insert_flow : Text → Text → List (Text × Text) → List (Text × Text)
insert_flow id user fs = (id, user) ∷ remove_flow id fs

abbrev pub find_flow : Text → List (Text × Text) → Option Text
find_flow id [] = none
find_flow id ((k, v) ∷ fs) = let rest = find_flow id fs in if text_eq k id then some v else rest

-- `Core::emit`.
unfoldable pub emit : Request → Bool → Stage → List EmojiInfo → Option Text → Desk → Desk
unfolding send
emit r outgoing stage emojis reason = send (
    verification (record {
      flow_id = r.flow_id;
      other_user = r.other_user;
      other_device = none;
      other_device_name = none;
      outgoing = outgoing;
      state = stage;
      emojis = emojis;
      reason = reason;
    }))

-- `Core::emit_sas`.
unfoldable pub emit_sas : Request → Sas → Bool → Stage → List EmojiInfo → Option Text → Desk → Desk
unfolding send
emit_sas r sas outgoing stage emojis reason = send (
    verification (record {
      flow_id = r.flow_id;
      other_user = r.other_user;
      other_device = some sas.device_id;
      other_device_name = sas.device_name;
      outgoing = outgoing;
      state = stage;
      emojis = emojis;
      reason = reason;
    }))

abbrev emoji_list : Option (List EmojiInfo) → List EmojiInfo
emoji_list none = []
emoji_list (some es) = es

-- The loop of the task of `Core::track_sas`, over the states that come.
unfoldable pub follow_sas : Request → Sas → Bool → List SasState → Desk → Desk
unfolding emit emit_sas send
follow_sas r sas outgoing [] d = d
follow_sas r sas outgoing (sas_created ∷ ss) d = follow_sas r sas outgoing ss d
follow_sas r sas outgoing (sas_started ∷ ss) d = follow_sas r sas outgoing ss d
follow_sas r sas outgoing (sas_accepted ∷ ss) d = follow_sas r sas outgoing ss d
follow_sas r sas outgoing (sas_keys_exchanged es ∷ ss) d =
    follow_sas r sas outgoing ss (emit_sas r sas outgoing emoji (emoji_list es) none d)
follow_sas r sas outgoing (sas_confirmed ∷ ss) d =
    follow_sas r sas outgoing ss (emit r outgoing confirmed [] none d)
follow_sas r sas outgoing (sas_done ∷ ss) d =
    send verification_status_changed (emit r outgoing done [] none d)
follow_sas r sas outgoing (sas_cancelled why ∷ ss) d = emit r outgoing cancelled [] (some why) d

-- The task of `Core::track_sas`; a failure to accept is only logged.
unfoldable pub track_sas : Request → Sas → Bool → List SasState → Desk → Desk
unfolding follow_sas call
track_sas r sas outgoing ss d =
    follow_sas r sas outgoing ss (if sas.we_started then d else call accept_sas d)

-- `track_sas` is spawned: the exchange is followed from now on, by `track_sas`.
abbrev pub spawn_sas : Option Sas → Desk → Desk
spawn_sas none d = d
spawn_sas (some sas) d = record d { tracked = d.tracked ++ sas ∷ [] }

-- The loop of the task of `Core::track_request`, over the states that come: whether it was left.
unfoldable pub follow_request : Request → Bool → List RequestState → Desk → Bool × Desk
unfolding emit call
follow_request r outgoing [] d = (false, d)
follow_request r outgoing (is_created ∷ ss) d = follow_request r outgoing ss d
follow_request r outgoing (is_requested ∷ ss) d = follow_request r outgoing ss d
follow_request r outgoing (is_ready sas ∷ ss) d =
    follow_request r outgoing ss (spawn_sas sas (call start_sas (emit r outgoing ready [] none d)))
follow_request r outgoing (is_transitioned sas ∷ ss) d = (true, spawn_sas sas d)
follow_request r outgoing (is_done ∷ ss) d = (true, emit r outgoing done [] none d)
follow_request r outgoing (is_cancelled why ∷ ss) d =
    (true, emit r outgoing cancelled [] (some why) d)

-- The end of that task, if its loop is left, or the stream of states has ended.
abbrev pub finish_request : Request → Bool → Desk → Desk
finish_request r over d = if over then record d { flows = remove_flow r.flow_id d.flows } else d

-- `Core::track_request`, and its task over the states that have come; `ended` is that no more come.
unfoldable pub track_request : Request → Bool → List RequestState → Bool → Desk → Desk
unfolding follow_request emit
track_request r outgoing ss ended d =
    let start = record d { flows = insert_flow r.flow_id r.other_user d.flows } in
    let (left, after) = follow_request r outgoing ss (emit r outgoing requested [] none start) in
    finish_request r (left || ended) after
