-- ===== src/V2g/Din/Handlers.antt =====
-- modules/EvseTestV2G/server/din_server.cpp: the handlers of the messages up to the charge parameters, with the
-- numbers of `din_state_id`. The physical limits and the schedule, which are copied into the
-- responses, and the publication of the requested mode are left out. The status of the vehicle
-- that was published last is in the same field as that of ISO 15118-2, since a session has one
-- protocol.
use evse_test_system.Base.{
  ℕ, Bool, false, not, ◌&&◌, ◌||◌, ◌==◌, Option, none, some, List, [], ◌∷◌, ◌++◌, get_or,
  if◌then◌else◌,
}
use evse_test_system.V2g.Iso.States.{ok, failed}
use evse_test_system.V2g.Iso.Server.{
  Outcome, PaymentOption, external_payment, same_option, Processing, finished, ongoing, is_finished,
  phase_parameter, DcEvStatus, evcc_id, no_payment_option_left, Server, Response, Reply, publish,
  set_code, publish_dc_ev_status, get_emergency_status_code,
}
use evse_test_system.V2g.Iso.Discovery.{
  format_evcc_id, RandomWords, random_session_id, ok_new_session_established,
}
use evse_test_system.V2g.Iso.Payment.{
  failed_service_selection_invalid, failed_payment_selection_invalid,
}
use evse_test_system.V2g.Iso.Parameters.{failed_wrong_charge_parameter}
use evse_test_system.V2g.Din.StateIds.{
  din_wait_for_service_discovery, din_wait_for_payment_service_selection,
  din_wait_for_authorization, din_wait_for_charge_parameter_discovery, din_wait_for_cable_check,
}
use evse_test_system.V2g.Din.States.{answer_din, answer_din_at}

-- din_responseCodeType_FAILED_WrongEnergyTransferType, the last of the codes.
abbrev failed_wrong_energy_transfer_type : ℕ
failed_wrong_energy_transfer_type = 22

abbrev dc_core : ℕ
dc_core = 2

abbrev dc_extended : ℕ
dc_extended = 3

unfoldable pub handle_din_session_setup : List ℕ → RandomWords → Server → Response → Outcome Reply
unfolding answer_din random_session_id
handle_din_session_setup evccid random s r =
    let id = s.stop.iso.session_id in
    let named = publish s (evcc_id (format_evcc_id evccid)) in
    answer_din_at din_wait_for_service_discovery
      (record named {
        stop = record s.stop {
          iso = record s.stop.iso { session_id = if id == 0 then random_session_id random else id };
        };
      })
      (set_code ok_new_session_established r)

-- The first slot of the array of modes, which is there whatever the length of the array is.
abbrev set_first_mode : ℕ → List ℕ → List ℕ
set_first_mode mode [] = mode ∷ []
set_first_mode mode (old ∷ rest) = mode ∷ rest

-- The first supported mode: another than the two modes of DC is corrected.
abbrev first_mode : Server → ℕ
first_mode s = get_or s.supported_energy_transfer_modes 0 0

abbrev is_dc_mode : ℕ → Bool
is_dc_mode mode = mode == dc_core || mode == dc_extended

unfoldable pub handle_din_service_discovery : Server → Response → Outcome Reply
unfolding answer_din
handle_din_service_discovery s r =
    answer_din_at din_wait_for_payment_service_selection
      (record s {
        supported_energy_transfer_modes =
            if is_dc_mode (first_mode s)
            then s.supported_energy_transfer_modes
            else set_first_mode dc_extended s.supported_energy_transfer_modes;
        errors =
            if s.auth_eim_supported then s.errors else s.errors ++ (no_payment_option_left ∷ []);
      })
      (record r {
        response_code = if s.auth_eim_supported then ok else failed;
        payment_options = external_payment ∷ [];
      })

abbrev is_only : ℕ → List ℕ → Bool
is_only id (a ∷ []) = a == id
is_only id _ = false

-- The selected payment option, and the ids of the selected services.
unfoldable pub handle_din_service_payment_selection :
    PaymentOption → List ℕ → Server → Response → Outcome Reply
unfolding answer_din
handle_din_service_payment_selection option services s r =
    answer_din_at din_wait_for_authorization s (
      set_code
        (if not (is_only s.charge_service_id services)
          then failed_service_selection_invalid
          else if same_option option external_payment
          then ok
          else failed_payment_selection_invalid)
        r)

abbrev pub two_valued : Processing → Processing
two_valued p = if is_finished p then finished else ongoing

unfoldable pub handle_din_contract_authentication : Server → Response → Outcome Reply
unfolding answer_din
handle_din_contract_authentication s r =
    answer_din_at
      (if is_finished s.auth_processing
        then din_wait_for_charge_parameter_discovery
        else din_wait_for_authorization)
      s (record r { response_code = ok; evse_processing = two_valued s.auth_processing })

-- `dc_status`: `none` where the vehicle's DC parameter is not used.
pub record DinChargeParameterReq : Type 0 where
  pub requested_type : ℕ
  pub has_ac_parameter : Bool
  pub dc_status : Option DcEvStatus

abbrev publish_din_charge_parameter_discovery_req : DinChargeParameterReq → Server → Server
publish_din_charge_parameter_discovery_req req s = elim req.dc_status [
  | none ↦ s
  | some status ↦ publish_dc_ev_status status s
]

unfoldable pub handle_din_charge_parameter :
    DinChargeParameterReq → Server → Response → Outcome Reply
unfolding publish_dc_ev_status get_emergency_status_code answer_din
handle_din_charge_parameter req s r =
    let told = publish_din_charge_parameter_discovery_req req s in
    answer_din_at
      (if is_finished s.parameter_processing
        then din_wait_for_cable_check
        else din_wait_for_charge_parameter_discovery)
      (record told { stop = s.stop })
      (record r {
        response_code =
            if req.has_ac_parameter
            then failed_wrong_charge_parameter
            else if is_dc_mode req.requested_type && first_mode s == req.requested_type
            then ok
            else failed_wrong_energy_transfer_type;
        evse_status = get_emergency_status_code s phase_parameter;
        evse_processing = two_valued s.parameter_processing;
      })
