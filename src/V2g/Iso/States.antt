-- ===== src/V2g/Iso/States.antt =====
-- modules/EvseTestV2G/server/iso_server.hpp: `iso_ac_states` and `iso_dc_states`, the requests that are
-- allowed in each state, and iso_server.cpp: `iso_validate_state`, `iso_validate_response_code`. The
-- mask of a state is the list of the messages whose bits are set in it.
use evse_test_system.Base.{
  ℕ, Bool, false, not, ◌&&◌, ◌||◌, Option, none, some, List, [], ◌∷◌, get_elem?, leb, ◌==◌,
  if◌then◌else◌,
}
use evse_test_system.V2g.Types.{
  V2gEvent, no_event, terminate_connection, send_and_terminate, V2gMsgTypeId, session_setup_msg,
  service_discovery_msg, service_detail_msg, payment_service_selection_msg, payment_details_msg,
  authorization_msg, charge_parameter_discovery_msg, metering_receipt_msg, certificate_update_msg,
  certificate_installation_msg, charging_status_msg, cable_check_msg, pre_charge_msg,
  power_delivery_msg, current_demand_msg, welding_detection_msg, session_stop_msg, msg_number,
}

abbrev pub iso_ac_states : List (List V2gMsgTypeId)
iso_ac_states =
    (session_setup_msg ∷ [])
    ∷ (service_discovery_msg ∷ session_stop_msg ∷ [])
    ∷ (service_detail_msg ∷ payment_service_selection_msg ∷ session_stop_msg ∷ [])
    ∷ (payment_details_msg ∷ certificate_installation_msg ∷ certificate_update_msg
        ∷ session_stop_msg ∷ [])
    ∷ (payment_details_msg ∷ session_stop_msg ∷ [])
    ∷ (authorization_msg ∷ session_stop_msg ∷ [])
    ∷ (charge_parameter_discovery_msg ∷ session_stop_msg ∷ [])
    ∷ (power_delivery_msg ∷ session_stop_msg ∷ [])
    ∷ (charging_status_msg ∷ [])
    ∷ (charging_status_msg ∷ power_delivery_msg ∷ [])
    ∷ (metering_receipt_msg ∷ [])
    ∷ (session_stop_msg ∷ [])
    ∷ []
    ∷ []

abbrev pub iso_dc_states : List (List V2gMsgTypeId)
iso_dc_states =
    (session_setup_msg ∷ [])
    ∷ (service_discovery_msg ∷ session_stop_msg ∷ [])
    ∷ (service_detail_msg ∷ payment_service_selection_msg ∷ session_stop_msg ∷ [])
    ∷ (payment_details_msg ∷ authorization_msg ∷ certificate_installation_msg
        ∷ certificate_update_msg ∷ session_stop_msg ∷ [])
    ∷ (payment_details_msg ∷ session_stop_msg ∷ [])
    ∷ (authorization_msg ∷ session_stop_msg ∷ [])
    ∷ (charge_parameter_discovery_msg ∷ session_stop_msg ∷ [])
    ∷ (cable_check_msg ∷ session_stop_msg ∷ [])
    ∷ (pre_charge_msg ∷ session_stop_msg ∷ [])
    ∷ (pre_charge_msg ∷ power_delivery_msg ∷ session_stop_msg ∷ [])
    ∷ (current_demand_msg ∷ power_delivery_msg ∷ [])
    ∷ (current_demand_msg ∷ [])
    ∷ (metering_receipt_msg ∷ [])
    ∷ (welding_detection_msg ∷ session_stop_msg ∷ [])
    ∷ []
    ∷ []

-- iso2_responseCodeType, by its numbers: from `failed` on a code is a failure. The names at these
-- numbers are those of `isoResponse`.
abbrev pub ok : ℕ
ok = 0

abbrev pub failed : ℕ
failed = 4

abbrev pub failed_sequence_error : ℕ
failed_sequence_error = 5

abbrev pub failed_unknown_session : ℕ
failed_unknown_session = 7

-- A test of the bit of a message in a mask.
abbrev pub is_allowed : V2gMsgTypeId → List V2gMsgTypeId → Bool
is_allowed m [] = false
is_allowed m (a ∷ rest) = msg_number a == msg_number m || is_allowed m rest

-- `none`: the state is past the end of its table, and the read is undefined behaviour.
unfoldable pub iso_validate_state : ℕ → V2gMsgTypeId → Bool → Option ℕ
iso_validate_state state msg is_dc_charging =
    elim (get_elem? (if is_dc_charging then iso_dc_states else iso_ac_states) state) [
      | none ↦ none
      | some allowed ↦ some (if is_allowed msg allowed then ok else failed_sequence_error)
    ]

-- The parts of the context that the validation reads.
pub record IsoContext : Type 0 where
  pub is_connection_terminated : Bool
  pub stop_hlc : Bool
  pub intl_emergency_shutdown : Bool
  pub terminate_connection_on_failed_response : Bool
  pub state : ℕ
  pub current_v2g_msg : V2gMsgTypeId
  pub is_dc_charger : Bool
  pub session_id : ℕ
  pub received_session_id : ℕ

-- The response code and the next event, for the result of `iso_validate_state`.
unfoldable pub validate_with : IsoContext → ℕ → ℕ → ℕ × V2gEvent
validate_with c code state_code =
    let stopped = if c.stop_hlc || c.intl_emergency_shutdown then failed else code in
    let sequenced = if leb failed state_code then state_code else stopped in
    let identified =
      if not (msg_number c.current_v2g_msg == msg_number session_setup_msg)
        && not (c.session_id == c.received_session_id)
      then failed_unknown_session
      else sequenced in
    (
      identified,
      if c.terminate_connection_on_failed_response && leb failed identified
          then send_and_terminate
          else no_event,
    )

unfoldable pub iso_validate_response_code : IsoContext → ℕ → Option (ℕ × V2gEvent)
unfolding iso_validate_state validate_with
iso_validate_response_code c code =
    if c.is_connection_terminated
    then some (code, terminate_connection)
    else elim (iso_validate_state c.state c.current_v2g_msg c.is_dc_charger) [
      | none ↦ none
      | some state_code ↦ some (validate_with c code state_code)
    ]
