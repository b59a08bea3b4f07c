-- ===== src/Examples/IsoServer.antt =====
-- Runs of the model of modules/EvseTestV2G/server/iso_server.cpp, as a whole, on concrete inputs.
use evse_test_system.Base.{
  ℕ, suc, ◌≡◌, ◌≤◌, ◌<◌, ◌⊎◌, refl, Bool, true, false, none, some, [], ◌∷◌, arith,
}
use evse_test_system.Base.Int.{pos}
use evse_test_system.V2g.Types.{V2gEvent, cable_check_msg, charge_parameter_discovery_msg}
use evse_test_system.V2g.Iso.States.{ok, failed, iso_validate_response_code}
use evse_test_system.V2g.Iso.SessionStop.{dlink_error, StopState}
use evse_test_system.V2g.Iso.Server.{
  Outcome, returned, unfinished, contract, external_payment, finished, no_notification, evse_ready,
  PhysicalValue, DcEvStatus, Server, Response, Reply, certificate_request, publish,
}
use evse_test_system.V2g.Iso.Discovery.{handle_iso_service_discovery}
use evse_test_system.V2g.Iso.Payment.{
  PaymentServiceSelectionReq, handle_iso_payment_service_selection,
}
use evse_test_system.V2g.Iso.Authorization.{AuthorizationReq, handle_iso_authorization}
use evse_test_system.V2g.Iso.Parameters.{automatic_entry, sa_schedule_duration}
use evse_test_system.V2g.Iso.Profile.{ProfileEntry, Progress, check_iso2_charging_profile_values}
use evse_test_system.V2g.Iso.PowerDelivery.{
  progress_start, PowerDeliveryReq, handle_iso_power_delivery,
}
use evse_test_system.V2g.Iso.Installation.{InstallationReq, handle_iso_certificate_installation}
use evse_test_system.V2g.Iso.Request.{Outside, cable_check_req, handle_request}
use evse_test_system.V2g.Iso.Diagram.{cable_check}
use evse_test_system.V2g.Iso.Refinement.{Refines, handle_request-Refines}
use evse_test_system.V2g.Iso.ProfileEnds.{check_profile_cases}
use evse_test_system.V2g.Iso.Offers.{Discovered, handle_iso_service_discovery-offers}
use evse_test_system.V2g.Iso.Selection.{IsSelectable, handle_iso_payment_service_selection-cases}
use evse_test_system.V2g.Iso.Grants.{IsProved, IsInTime, handle_iso_authorization-cases}
use evse_test_system.V2g.Iso.DeliveryCases.{IsOfferedTuple, Leads, handle_iso_power_delivery-cases}
use evse_test_system.V2g.Iso.InstallationBounds.{Sends, certificate_installation-Sends}

abbrev zero_value : PhysicalValue
zero_value = record { multiplier = pos 0; value = pos 0 }

abbrev pub ready_status : DcEvStatus
ready_status = record { ev_error_code = 0; ev_ready = true; ev_ress_soc = 40 }

-- A DC charger in the state `n`, whose isolation is checked, after the parameters were discovered.
abbrev stop_at : ℕ → StopState
stop_at n = record {
  iso = record {
    is_connection_terminated = false;
    stop_hlc = false;
    intl_emergency_shutdown = false;
    terminate_connection_on_failed_response = true;
    state = n;
    current_v2g_msg = charge_parameter_discovery_msg;
    is_dc_charger = true;
    session_id = 77;
    received_session_id = 77;
  };
  last_v2g_msg = charge_parameter_discovery_msg;
  dlink_action = dlink_error;
  hlc_pause_active = false;
}

abbrev pub charger : ℕ → Server
charger n = record {
  stop = stop_at n;
  payment_option_list = contract ∷ external_payment ∷ [];
  payment_option_list_len = 2;
  charge_service_id = 1;
  is_ev_charging_category = true;
  evse_service_list = [];
  supported_energy_transfer_modes = 3 ∷ [];
  auth_processing = finished;
  parameter_processing = finished;
  isolation_processing = finished;
  evse_status_code = λ phase. evse_ready;
  evse_notification = no_notification;
  evse_isolation_status = 1;
  evse_isolation_status_is_used = true;
  evse_sa_schedule_list =
      record { sa_schedule_tuple_id = 1; p_max_schedule = automatic_entry zero_value ∷ [] } ∷ [];
  evse_sa_schedule_list_is_used = false;
  first_tuple_id = 1;
  evse_maximum_current_limit = zero_value;
  evse_maximum_current_limit_is_used = true;
  evse_maximum_power_limit = zero_value;
  evse_maximum_power_limit_is_used = true;
  evse_maximum_voltage_limit = zero_value;
  evse_maximum_voltage_limit_is_used = true;
  evse_present_current = zero_value;
  enabled_sae_v2h = false;
  enabled_sae_v2g = false;
  discharging = false;
  sae_v2h_minimal_soc = 20;
  v2h_first_req = true;
  req_pos_value_count = 0;
  receipt_required = false;
  meter_info_is_used = false;
  iso_selected_payment_option = external_payment;
  auth_start_timeout = 0;
  auth_timeout_eim = 300;
  auth_timeout_pnc = 55;
  authorization_rejected = false;
  is_certificate_revoked = false;
  gen_challenge = [];
  verify_contract_cert_chain = true;
  central_contract_validation_allowed = false;
  renegotiation_required = false;
  is_charging = false;
  session_tuple_id = 1;
  contactor_is_closed = false;
  auth_eim_supported = true;
  auth_pnc_supported = true;
  debug_mode = false;
  is_tls_connection = false;
  iso2_dc_ev_status = ready_status;
  bulk_charging_complete = false;
  charging_complete = false;
  cert_install_res = 1 ∷ 2 ∷ [];
  cert_install_status = true;
  errors = [];
  published = [];
}

abbrev pub blank : Response
blank = record {
  response_code = 0;
  evse_processing = finished;
  payment_options = [];
  services = [];
  service_parameters = [];
  sa_schedules = none;
  evse_status = evse_ready;
  response_receipt_required = false;
  receipt_required_is_used = false;
  meter_info_is_sent = false;
  current_limit_achieved = false;
  power_limit_achieved = false;
  voltage_limit_achieved = false;
  sent_exi = [];
  byte_pos = 0;
}

abbrev pub never : PhysicalValue → PhysicalValue → Bool
never a b = false

abbrev pub outside : Outside
outside = record {
  initial = blank;
  now = 1000;
  random = record { first = 1; second = 2; third = 3; fourth = 4 };
  challenge = [];
  wake_ups = [];
  exceeds = never;
  limits = record { reaches = never; product_reaches = λ a b c. false };
  decode = λ bytes. bytes;
  fuel = 10;
}

-- What a returned call has returned; a call that has not returned is not looked at.
abbrev pub reply_of : Outcome Reply → Reply
reply_of (returned t) = t
reply_of _ = record { server = charger 0; response = blank; event = V2gEvent.no_event }

abbrev checked_cable : Reply
checked_cable = reply_of (handle_request outside 77 (cable_check_req ready_status) (charger 7))

handle_request-Refines_example : Refines cable_check cable_check_msg checked_cable
unfolding handle_request iso_validate_response_code
handle_request-Refines_example =
    handle_request-Refines outside 77 (cable_check_req ready_status) cable_check (charger 7)
      checked_cable refl refl refl refl

-- A profile that starts after a day.
abbrev late_entry : ProfileEntry
late_entry = record { entry_start = 100000; max_power = zero_value }

check_profile_cases_example :
    ((100000 ≤ sa_schedule_duration)
      × ((fuel : ℕ)
          → (p : Progress) × (check_iso2_charging_profile_values never
                (suc fuel)
                (some (late_entry ∷ []))
                (automatic_entry zero_value ∷ [])
                ok
              ≡ returned p)))
    ⊎ ((sa_schedule_duration < 100000)
        × ((fuel : ℕ)
            → check_iso2_charging_profile_values never fuel
                (some (late_entry ∷ []))
                (automatic_entry zero_value ∷ [])
                ok
              ≡ unfinished))
check_profile_cases_example = check_profile_cases never zero_value late_entry [] (omega arith)

abbrev discovered : Reply
discovered = reply_of (handle_iso_service_discovery none (charger 1) blank)

handle_iso_service_discovery-offers_example :
    Discovered (charger 1) discovered.server discovered.response
unfolding handle_iso_service_discovery iso_validate_response_code
handle_iso_service_discovery-offers_example =
    handle_iso_service_discovery-offers none (charger 1) blank discovered contract external_payment
      refl refl

abbrev selection : PaymentServiceSelectionReq
selection = record { payment_option = external_payment; selected_services = 1 ∷ 9 ∷ [] }

abbrev selected : Reply
selected = reply_of (handle_iso_payment_service_selection 1000 selection (charger 2) blank)

handle_iso_payment_service_selection-cases_example :
    (IsSelectable selection (charger 2)
      × (iso_validate_response_code (charger 2).stop.iso ok
          ≡ some (selected.response.response_code, selected.event)))
    ⊎ (¬ IsSelectable selection (charger 2) × (failed ≤ selected.response.response_code))
unfolding handle_iso_payment_service_selection iso_validate_response_code
handle_iso_payment_service_selection-cases_example =
    handle_iso_payment_service_selection-cases 1000 selection (charger 2) blank selected refl

abbrev authorization : AuthorizationReq
authorization = record { challenge = none; has_signature = false; is_signature_valid = false }

abbrev authorized : Reply
authorized = reply_of (handle_iso_authorization 1000 authorization (charger 5) blank)

handle_iso_authorization-cases_example :
    (failed ≤ authorized.response.response_code)
    ⊎ (IsProved authorization (charger 5)
        × IsInTime 1000 (charger 5)
        × (authorized.response.evse_processing ≡ finished)
        × (authorized.server.stop.iso.state ≡ 6))
unfolding handle_iso_authorization iso_validate_response_code
handle_iso_authorization-cases_example =
    handle_iso_authorization-cases 1000 authorization (charger 5) blank authorized refl

abbrev delivery : PowerDeliveryReq
delivery = record { progress = progress_start; tuple_id = 1; profile = none; dc_parameter = none }

abbrev delivered : Reply
delivered = reply_of (handle_iso_power_delivery never 10 [] delivery (charger 9) blank)

handle_iso_power_delivery-cases_example :
    (failed ≤ delivered.response.response_code)
    ⊎ (IsOfferedTuple delivery (charger 9).evse_sa_schedule_list
        × Leads progress_start (charger 9) delivered.server.stop.iso.state)
unfolding handle_iso_power_delivery iso_validate_response_code
handle_iso_power_delivery-cases_example =
    handle_iso_power_delivery-cases never 10 [] delivery (charger 9) blank delivered refl refl

abbrev installation : InstallationReq
installation = record { exi_request = 65 ∷ []; max_payload = 1000 }

certificate_installation-Sends_example :
    Sends
      (1 ∷ 2 ∷ [])
      (publish (charger 3) (certificate_request (65 ∷ [])))
      blank
      (handle_iso_certificate_installation (λ bytes. bytes) [] installation (charger 3) blank)
certificate_installation-Sends_example =
    certificate_installation-Sends (λ bytes. bytes) [] installation (charger 3) blank (omega arith)
      (omega arith) (omega arith) refl
