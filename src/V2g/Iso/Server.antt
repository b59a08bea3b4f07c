-- ===== src/V2g/Iso/Server.antt =====
-- modules/EvseTestV2G/v2g.hpp: the parts of `v2g_context` and `v2g_connection` that the handlers of
-- modules/EvseTestV2G/server/iso_server.cpp read and write, what they answer, and their common end: the
-- check of the response code and the next state. Values that a handler only copies from the
-- context into its response (EVSE ids, meter readings, the physical limits, the status of the AC
-- charger) and what it publishes of the vehicle's physical values are left out.
use evse_test_system.Base.{
  ℕ, Bool, true, false, not, ◌||◌, ◌==◌, Option, none, some, List, ◌++◌, [], ◌∷◌, if◌then◌else◌,
}
use evse_test_system.Base.Int.{ℤ}
use evse_test_system.V2g.Types.{V2gEvent}
use evse_test_system.V2g.Iso.States.{IsoContext, iso_validate_response_code}
use evse_test_system.V2g.Iso.SessionStop.{StopState}

-- What a call has come to: it returned, it has not returned with the wake-ups or the fuel that it
-- was given, or it has read past the end of a table.
pub data Outcome (A : Type 0) : Type 0 where
  returned : A → Outcome A
  unfinished undefined : Outcome A

infixl 5 ◌>>=◌
abbrev pub ◌>>=◌ : {A B : Type 0} → Outcome A → (A → Outcome B) → Outcome B
returned a >>= f = f a
unfinished >>= f = unfinished
undefined >>= f = undefined

-- iso2_paymentOptionType
pub data PaymentOption : Type 0 where
  contract external_payment : PaymentOption

abbrev pub same_option : PaymentOption → PaymentOption → Bool
same_option contract contract = true
same_option external_payment external_payment = true
same_option _ _ = false

-- iso2_EVSEProcessingType
pub data Processing : Type 0 where
  finished ongoing waiting_for_customer_interaction : Processing

abbrev pub is_finished : Processing → Bool
is_finished finished = true
is_finished _ = false

-- iso2_EVSENotificationType
pub data Notification : Type 0 where
  no_notification stop_charging re_negotiation : Notification

-- iso2_DC_EVSEStatusCodeType: the codes that the handlers name, and the others by their numbers.
pub data StatusCode : Type 0 where
  evse_ready evse_shutdown evse_emergency_shutdown : StatusCode
  other_status : ℕ → StatusCode

-- enum charging_phase
pub data ChargingPhase : Type 0 where
  phase_init phase_auth phase_parameter phase_isolation phase_precharge : ChargingPhase
  phase_charge phase_welding phase_stop : ChargingPhase

pub record PhysicalValue : Type 0 where
  pub multiplier : ℤ
  pub value : ℤ

pub record DcEvStatus : Type 0 where
  pub ev_error_code : ℕ
  pub ev_ready : Bool
  pub ev_ress_soc : ℕ

-- The fields of iso2_ServiceType, with the parameter sets of the service; the scope is its characters.
pub record Service : Type 0 where
  pub service_id : ℕ
  pub service_scope : Option (List ℕ)
  pub parameter_sets : List ℕ

-- iso2_PMaxScheduleEntryType; `none`: `duration_isUsed` is 0.
pub record ScheduleEntry : Type 0 where
  pub start : ℕ
  pub duration : Option ℕ
  pub p_max : PhysicalValue

pub record ScheduleTuple : Type 0 where
  pub sa_schedule_tuple_id : ℕ
  pub p_max_schedule : List ScheduleEntry

-- The publications of the handlers that are not of physical values.
pub data Published : Type 0 where
  evcc_id certificate_request : List ℕ → Published
  selected_payment_option : PaymentOption → Published
  dc_ev_status : DcEvStatus → Published
  dc_charging_complete dc_bulk_charging_complete : Bool → Published
  sae_bidi_mode_active require_auth_eim require_auth_pnc v2g_setup_finished : Published
  ac_close_contactor ac_open_contactor dc_open_contactor : Published
  current_demand_started current_demand_finished start_cable_check start_pre_charge : Published

-- The errors that the handlers add to those of the test.
pub data TestError : Type 0 where
  no_payment_option_left : TestError

-- `payment_option_list` is the whole array, of which the first `payment_option_list_len` count;
-- `first_tuple_id` is the id in the first place of the array of the schedules, which an empty list has
-- too; `v2h_first_req` and `req_pos_value_count` are static variables of two handlers.
pub record Server : Type 0 where
  pub stop : StopState
  pub payment_option_list : List PaymentOption
  pub payment_option_list_len : ℕ
  pub charge_service_id : ℕ
  pub is_ev_charging_category : Bool
  pub evse_service_list : List Service
  pub supported_energy_transfer_modes : List ℕ
  pub auth_processing : Processing
  pub parameter_processing : Processing
  pub isolation_processing : Processing
  pub evse_status_code : ChargingPhase → StatusCode
  pub evse_notification : Notification
  pub evse_isolation_status : ℕ
  pub evse_isolation_status_is_used : Bool
  pub evse_sa_schedule_list : List ScheduleTuple
  pub evse_sa_schedule_list_is_used : Bool
  pub first_tuple_id : ℕ
  pub evse_maximum_current_limit : PhysicalValue
  pub evse_maximum_current_limit_is_used : Bool
  pub evse_maximum_power_limit : PhysicalValue
  pub evse_maximum_power_limit_is_used : Bool
  pub evse_maximum_voltage_limit : PhysicalValue
  pub evse_maximum_voltage_limit_is_used : Bool
  pub evse_present_current : PhysicalValue
  pub enabled_sae_v2h : Bool
  pub enabled_sae_v2g : Bool
  pub discharging : Bool
  pub sae_v2h_minimal_soc : ℕ
  pub v2h_first_req : Bool
  pub req_pos_value_count : ℕ
  pub receipt_required : Bool
  pub meter_info_is_used : Bool
  pub iso_selected_payment_option : PaymentOption
  pub auth_start_timeout : ℕ
  pub auth_timeout_eim : ℕ
  pub auth_timeout_pnc : ℕ
  pub authorization_rejected : Bool
  pub is_certificate_revoked : Bool
  pub gen_challenge : List ℕ
  pub verify_contract_cert_chain : Bool
  pub central_contract_validation_allowed : Bool
  pub renegotiation_required : Bool
  pub is_charging : Bool
  pub session_tuple_id : ℕ
  pub contactor_is_closed : Bool
  pub auth_eim_supported : Bool
  pub auth_pnc_supported : Bool
  pub debug_mode : Bool
  pub is_tls_connection : Bool
  pub iso2_dc_ev_status : DcEvStatus
  pub bulk_charging_complete : Bool
  pub charging_complete : Bool
  pub cert_install_res : List ℕ
  pub cert_install_status : Bool
  pub errors : List TestError
  pub published : List Published

-- The fields of the responses that are computed; a handler sets those of its own response.
pub record Response : Type 0 where
  pub response_code : ℕ
  pub evse_processing : Processing
  pub payment_options : List PaymentOption
  pub services : List Service
  pub service_parameters : List ℕ
  pub sa_schedules : Option (List ScheduleTuple)
  pub evse_status : StatusCode
  pub response_receipt_required : Bool
  pub receipt_required_is_used : Bool
  pub meter_info_is_sent : Bool
  pub current_limit_achieved : Bool
  pub power_limit_achieved : Bool
  pub voltage_limit_achieved : Bool
  pub sent_exi : List ℕ
  pub byte_pos : ℕ

-- What a handler leaves: the context, the response and the event that it returns.
pub record Reply : Type 0 where
  pub server : Server
  pub response : Response
  pub event : V2gEvent

abbrev pub publish : Server → Published → Server
publish s p = record s { published = s.published ++ (p ∷ []) }

abbrev pub go_to : ℕ → Server → Server
go_to n s = record s { stop = record s.stop { iso = record s.stop.iso { state = n } } }

abbrev pub set_code : ℕ → Response → Response
set_code code r = record r { response_code = code }

-- The reply with a checked code; `none`: the check read past its table.
abbrev pub reply_with : Option (ℕ × V2gEvent) → Server → Response → Outcome Reply
reply_with none s r = undefined
reply_with (some checked) s r =
    returned (record { server = s; response = set_code checked.0 r; event = checked.1 })

-- The end of a handler: the response code is checked for the context, and the state is set in `after`.
unfoldable pub answer : Server → IsoContext → Response → Outcome Reply
answer after context r = reply_with (iso_validate_response_code context r.response_code) after r

-- The end of a handler that sets nothing but the state.
abbrev pub answer_at : ℕ → Server → Response → Outcome Reply
answer_at n s r = answer (go_to n s) s.stop.iso r

abbrev pub same_bool : Bool → Bool → Bool
same_bool true b = b
same_bool false b = not b

-- IsoServerBase::publish_DcEvStatus: published when it differs from the last one.
unfoldable pub publish_dc_ev_status : DcEvStatus → Server → Server
publish_dc_ev_status status s =
    let old = s.iso2_dc_ev_status in
    let is_new =
      not (old.ev_error_code == status.ev_error_code)
      || not (same_bool old.ev_ready status.ev_ready)
      || not (old.ev_ress_soc == status.ev_ress_soc) in
    record s {
      iso2_dc_ev_status = if is_new then status else old;
      published = if is_new then s.published ++ (dc_ev_status status ∷ []) else s.published;
    }

unfoldable pub get_emergency_status_code : Server → ChargingPhase → StatusCode
get_emergency_status_code s phase =
    if s.stop.iso.intl_emergency_shutdown then evse_emergency_shutdown else s.evse_status_code phase
