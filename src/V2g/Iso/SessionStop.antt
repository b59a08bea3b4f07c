-- ===== src/V2g/Iso/SessionStop.antt =====
-- modules/EvseTestV2G/server/iso_server.cpp: `handle_iso_session_stop` and `find_req_message_type`.
use evse_test_system.Base.{
  ℕ, ◌≡◌, ◌≢◌, ◌⊎◌, Bool, true, false, not, Option, none, some, List, [], ◌∷◌, if◌then◌else◌,
  Bool-cases, inl, inr, arith,
}
use evse_test_system.V2g.Types.{
  V2gEvent, send_and_terminate, V2gMsgTypeId, session_setup_msg, service_discovery_msg,
  service_detail_msg, payment_service_selection_msg, payment_details_msg, authorization_msg,
  charge_parameter_discovery_msg, metering_receipt_msg, certificate_update_msg,
  certificate_installation_msg, charging_status_msg, cable_check_msg, pre_charge_msg,
  power_delivery_msg, current_demand_msg, welding_detection_msg, session_stop_msg, unknown_msg,
  supported_app_protocol_msg,
}
use evse_test_system.V2g.Iso.States.{
  ok, failed, iso_validate_state, IsoContext, iso_validate_response_code,
}

-- iso2_chargingSessionType, and a value that is none of its two.
pub data ChargingSession : Type 0 where
  terminate pause other_value : ChargingSession

-- mqtt_dlink_action
pub data DlinkAction : Type 0 where
  dlink_error dlink_terminate dlink_pause : DlinkAction

pub record StopState : Type 0 where
  pub iso : IsoContext
  pub last_v2g_msg : V2gMsgTypeId
  pub dlink_action : DlinkAction
  pub hlc_pause_active : Bool

-- `iso_dc_state_id::WAIT_FOR_TERMINATED_SESSION`, also for an AC charger.
abbrev pub wait_for_terminated_session : ℕ
wait_for_terminated_session = 14

abbrev pub may_pause : V2gMsgTypeId → Bool
may_pause power_delivery_msg = true
may_pause welding_detection_msg = true
may_pause _ = false

abbrev next_state : ℕ → StopState → StopState
next_state n s = record s { iso = record s.iso { state = n } }

-- The switch over the request, on the response code that the validation left.
unfoldable pub stop_case : ChargingSession → ℕ → StopState → ℕ × StopState
stop_case terminate code s = (
  code,
  next_state wait_for_terminated_session
      (record s { dlink_action = dlink_terminate; hlc_pause_active = false }),
)
stop_case pause code s =
    if not (may_pause s.last_v2g_msg)
    then (
      failed,
      next_state wait_for_terminated_session
          (record s { dlink_action = dlink_terminate; hlc_pause_active = false }),
    )
    else (code, next_state 0 (record s { dlink_action = dlink_pause; hlc_pause_active = true }))
stop_case other_value code s =
    (code, next_state wait_for_terminated_session (record s { dlink_action = dlink_terminate }))

-- The response code, the state after it and the event; the event of the validation is not used. `none`:
-- the validation reads past its table.
unfoldable pub handle_iso_session_stop :
    ChargingSession → StopState → Option ((ℕ × StopState) × V2gEvent)
unfolding stop_case
handle_iso_session_stop request s = elim (iso_validate_response_code s.iso ok) [
  | none ↦ none
  | some validated ↦ some (stop_case request validated.0 s, send_and_terminate)
]

-- The flags `*_isUsed` of the body, in the order in which they are looked at.
abbrev request_order : List V2gMsgTypeId
request_order =
    current_demand_msg ∷ session_setup_msg ∷ service_discovery_msg ∷ service_detail_msg
    ∷ payment_service_selection_msg ∷ payment_details_msg ∷ authorization_msg
    ∷ charge_parameter_discovery_msg ∷ power_delivery_msg ∷ charging_status_msg
    ∷ metering_receipt_msg ∷ certificate_update_msg ∷ certificate_installation_msg ∷ cable_check_msg
    ∷ pre_charge_msg ∷ welding_detection_msg ∷ session_stop_msg ∷ []

abbrev pub first_used : (V2gMsgTypeId → Bool) → List V2gMsgTypeId → V2gMsgTypeId
first_used is_used [] = unknown_msg
first_used is_used (m ∷ ms) = if is_used m then m else first_used is_used ms

-- `is_used`: the flags of the body by their messages.
unfoldable pub find_req_message_type : (V2gMsgTypeId → Bool) → V2gMsgTypeId
find_req_message_type is_used = first_used is_used request_order

-- A session stop that is answered always ends the connection after its response. Either the vehicle
-- may pause, as it asked to right after a power delivery or a welding detection: then the connection
-- is to be paused, and the next session may set up. Or the session is terminated and its next
-- state is 14; for an AC charger that is past the end of the table of its states, so that every further
-- validation of a request reads past the table.
pub handle_iso_session_stop-cases :
    (request : ChargingSession) (s t : StopState) (code : ℕ) (event : V2gEvent)
    → handle_iso_session_stop request s ≡ some ((code, t), event)
    → (event ≡ send_and_terminate)
      × (((request ≡ pause)
            × (may_pause s.last_v2g_msg ≡ true)
            × (t.dlink_action ≡ dlink_pause)
            × (t.hlc_pause_active ≡ true)
            × (t.iso.state ≡ 0))
          ⊎ (((request ≢ pause) ⊎ (may_pause s.last_v2g_msg ≡ false))
              × (t.dlink_action ≡ dlink_terminate)
              × (t.iso.state ≡ wait_for_terminated_session)
              × ((m : V2gMsgTypeId) → iso_validate_state t.iso.state m false ≡ none)))
unfolding handle_iso_session_stop stop_case iso_validate_state
handle_iso_session_stop-cases terminate s t code event h = ground arith
handle_iso_session_stop-cases pause s t code event h = ground arith
handle_iso_session_stop-cases other_value s t code event h = ground arith

abbrev pub NoneUsed : (V2gMsgTypeId → Bool) → List V2gMsgTypeId → Type 0
NoneUsed is_used [] = Unit
NoneUsed is_used (m ∷ ms) = (is_used m ≡ false) × NoneUsed is_used ms

pub find_cases :
    (is_used : V2gMsgTypeId → Bool) (ms : List V2gMsgTypeId)
    → (is_used (first_used is_used ms) ≡ true) ⊎ NoneUsed is_used ms
find_cases is_used [] = inr tt
find_cases is_used (m ∷ ms) = elim (Bool-cases (is_used m)) [
  | inl e ↦ inl (rw e e)
  | inr e ↦ elim (find_cases is_used ms) [ inl f ↦ inl (rw e f) | inr f ↦ inr (e, f) ]
]

all_found :
    (is_used : V2gMsgTypeId → Bool) (m : V2gMsgTypeId)
    → NoneUsed is_used request_order
    → is_used m ≡ true
    → is_used unknown_msg ≡ false
    → is_used supported_app_protocol_msg ≡ false
    → ⊥
all_found is_used current_demand_msg n h a b = ground arith
all_found is_used m n h a b = ground arith

-- Where the body of a request uses the flag of exactly one message, and that is one that has a flag,
-- the message is found, whichever it is.
pub find_req_message_type_unique :
    (is_used : V2gMsgTypeId → Bool) (m : V2gMsgTypeId)
    → is_used m ≡ true
    → is_used unknown_msg ≡ false
    → is_used supported_app_protocol_msg ≡ false
    → ((n : V2gMsgTypeId) → is_used n ≡ true → n ≡ m)
    → find_req_message_type is_used ≡ m
unfolding find_req_message_type
find_req_message_type_unique is_used m h a b u = elim (find_cases is_used request_order) [
  | inl e ↦ u (first_used is_used request_order) e
  | inr e ↦ absurd (all_found is_used m e h a b)
]
