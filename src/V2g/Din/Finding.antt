-- ===== src/V2g/Din/Finding.antt =====
-- modules/EvseTestV2G/server/din_server.cpp: `find_req_message_type`, which looks at the flags of the body in
-- another order than its counterpart of ISO 15118-2.
use evse_test_system.Base.{◌≡◌, inl, inr, Bool, true, false, List, [], ◌∷◌, arith}
use evse_test_system.V2g.Types.{
  V2gMsgTypeId, session_setup_msg, service_discovery_msg, service_detail_msg,
  payment_service_selection_msg, payment_details_msg, authorization_msg,
  charge_parameter_discovery_msg, metering_receipt_msg, certificate_update_msg,
  certificate_installation_msg, charging_status_msg, cable_check_msg, pre_charge_msg,
  power_delivery_msg, current_demand_msg, welding_detection_msg, session_stop_msg, unknown_msg,
  supported_app_protocol_msg,
}
use evse_test_system.V2g.Iso.SessionStop.{
  first_used, NoneUsed, find_cases, find_req_message_type, find_req_message_type_unique,
}

abbrev din_request_order : List V2gMsgTypeId
din_request_order =
    current_demand_msg ∷ session_setup_msg ∷ service_discovery_msg ∷ payment_service_selection_msg
    ∷ authorization_msg ∷ payment_details_msg ∷ service_detail_msg ∷ charge_parameter_discovery_msg
    ∷ cable_check_msg ∷ pre_charge_msg ∷ power_delivery_msg ∷ charging_status_msg
    ∷ metering_receipt_msg ∷ certificate_update_msg ∷ certificate_installation_msg
    ∷ welding_detection_msg ∷ session_stop_msg ∷ []

-- `is_used`: the flags of the body by their messages.
unfoldable pub find_din_req_message_type : (V2gMsgTypeId → Bool) → V2gMsgTypeId
find_din_req_message_type is_used = first_used is_used din_request_order

all_found :
    (is_used : V2gMsgTypeId → Bool) (m : V2gMsgTypeId)
    → NoneUsed is_used din_request_order
    → is_used m ≡ true
    → is_used unknown_msg ≡ false
    → is_used supported_app_protocol_msg ≡ false
    → ⊥
all_found is_used current_demand_msg n h a b = ground arith
all_found is_used m n h a b = ground arith

-- Where the body of a request uses the flag of exactly one message, and that is one that has a
-- flag, the servers of ISO 15118-2 and of DIN 70121 both find the message, whichever it is.
find_req_message_types_unique :
    (is_used : V2gMsgTypeId → Bool) (m : V2gMsgTypeId)
    → is_used m ≡ true
    → is_used unknown_msg ≡ false
    → is_used supported_app_protocol_msg ≡ false
    → ((n : V2gMsgTypeId) → is_used n ≡ true → n ≡ m)
    → (find_req_message_type is_used ≡ m) × (find_din_req_message_type is_used ≡ m)
unfolding find_din_req_message_type
find_req_message_types_unique is_used m h a b u = (
  find_req_message_type_unique is_used m h a b u,
  elim (find_cases is_used din_request_order) [
    | inl e ↦ u (first_used is_used din_request_order) e
    | inr e ↦ absurd (all_found is_used m e h a b)
  ],
)
