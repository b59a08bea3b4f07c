-- ===== src/V2g/Din/States.antt =====
-- modules/EvseTestV2G/server/din_server.hpp: `din_states`, and din_server.cpp: `din_validate_state` and
-- `din_validate_response_code`. The context and the response codes are those of ISO 15118-2.
use evse_test_system.Base.{ℕ, Option, none, some, List, [], ◌∷◌, get_elem?, if◌then◌else◌}
use evse_test_system.V2g.Types.{
  V2gEvent, terminate_connection, V2gMsgTypeId, session_setup_msg, service_discovery_msg,
  payment_service_selection_msg, authorization_msg, charge_parameter_discovery_msg, cable_check_msg,
  pre_charge_msg, power_delivery_msg, current_demand_msg, welding_detection_msg, session_stop_msg,
}
use evse_test_system.V2g.Iso.States.{
  ok, failed_sequence_error, is_allowed, IsoContext, validate_with,
}
use evse_test_system.V2g.Iso.Server.{Outcome, Server, Response, Reply, go_to, reply_with}

abbrev pub din_states : List (List V2gMsgTypeId)
din_states =
    (session_setup_msg ∷ [])
    ∷ (service_discovery_msg ∷ session_stop_msg ∷ [])
    ∷ (payment_service_selection_msg ∷ session_stop_msg ∷ [])
    ∷ (authorization_msg ∷ session_stop_msg ∷ [])
    ∷ (charge_parameter_discovery_msg ∷ session_stop_msg ∷ [])
    ∷ (cable_check_msg ∷ session_stop_msg ∷ [])
    ∷ (pre_charge_msg ∷ session_stop_msg ∷ [])
    ∷ (power_delivery_msg ∷ pre_charge_msg ∷ session_stop_msg ∷ [])
    ∷ (current_demand_msg ∷ [])
    ∷ (current_demand_msg ∷ power_delivery_msg ∷ [])
    ∷ (welding_detection_msg ∷ session_stop_msg ∷ [])
    ∷ (session_stop_msg ∷ [])
    ∷ []
    ∷ []

-- `none`: the state is past the end of the table.
unfoldable pub din_validate_state : ℕ → V2gMsgTypeId → Option ℕ
din_validate_state state msg = elim (get_elem? din_states state) [
  | none ↦ none
  | some allowed ↦ some (if is_allowed msg allowed then ok else failed_sequence_error)
]

unfoldable pub din_validate_response_code : IsoContext → ℕ → Option (ℕ × V2gEvent)
unfolding din_validate_state validate_with
din_validate_response_code c code =
    if c.is_connection_terminated
    then some (code, terminate_connection)
    else elim (din_validate_state c.state c.current_v2g_msg) [
      | none ↦ none
      | some state_code ↦ some (validate_with c code state_code)
    ]

-- The end of a handler: the response code is checked for the context, and the state is set in `after`.
unfoldable pub answer_din : Server → IsoContext → Response → Outcome Reply
answer_din after c r = reply_with (din_validate_response_code c r.response_code) after r

abbrev pub answer_din_at : ℕ → Server → Response → Outcome Reply
answer_din_at n s r = answer_din (go_to n s) s.stop.iso r
