-- ===== src/V2g/Iso/Parameters.antt =====
-- modules/EvseTestV2G/server/iso_server.cpp: `handle_iso_charge_parameter_discovery`. The power of an AC charger
-- is computed in floating point: it is a field of the request.
use evse_test_system.Base.{
  ℕ, Bool, true, false, not, ◌&&◌, ◌||◌, ◌==◌, Option, none, some, List, [], ◌∷◌, is_some,
  if◌then◌else◌,
}
use evse_test_system.Base.Int.{pos, negsuc}
use evse_test_system.V2g.Iso.States.{ok}
use evse_test_system.V2g.Iso.StateIds.{
  wait_for_charge_parameter_discovery, wait_for_cable_check, ac_wait_for_power_delivery,
}
use evse_test_system.V2g.Iso.Server.{
  Outcome, Processing, finished, ongoing, is_finished, PhysicalValue, DcEvStatus, ScheduleEntry,
  ScheduleTuple, phase_parameter, Server, Response, Reply, answer, answer_at, publish_dc_ev_status,
  get_emergency_status_code,
}

abbrev pub failed_wrong_charge_parameter : ℕ
failed_wrong_charge_parameter = 16

abbrev pub failed_wrong_energy_transfer_mode : ℕ
failed_wrong_energy_transfer_mode = 22

-- SA_SCHEDULE_DURATION
abbrev pub sa_schedule_duration : ℕ
sa_schedule_duration = 86400

pub record DcParameter : Type 0 where
  pub dc_ev_status : DcEvStatus
  pub bulk_soc : Option ℕ
  pub ev_maximum_current_limit : PhysicalValue
  pub ev_maximum_power_limit : Option PhysicalValue

-- `none`: the vehicle's DC parameter is not used.
pub record ChargeParameterDiscoveryReq : Type 0 where
  pub requested_mode : ℕ
  pub has_ac_parameter : Bool
  pub dc_parameter : Option DcParameter
  pub ac_p_max : PhysicalValue

abbrev supports : ℕ → List ℕ → Bool
supports mode [] = false
supports mode (m ∷ ms) = mode == m || supports mode ms

abbrev pub is_negative : PhysicalValue → Bool
is_negative v = elim v.value [ pos n ↦ false | negsuc n ↦ true ]

-- The publication of the request changes the status of the vehicle.
abbrev publish_request : ChargeParameterDiscoveryReq → Server → Server
publish_request req s = elim req.dc_parameter [
  | none ↦ s
  | some p ↦ if req.has_ac_parameter then s else publish_dc_ev_status p.dc_ev_status s
]

abbrev first_id : Server → ℕ
first_id s = elim s.evse_sa_schedule_list [
  | [] ↦ s.first_tuple_id
  | t ∷ ts ↦ t.sa_schedule_tuple_id
]

abbrev pub automatic_entry : PhysicalValue → ScheduleEntry
automatic_entry p = record { start = 0; duration = some sa_schedule_duration; p_max = p }

-- The schedules after the configuration: one entry of a day, where none is configured.
unfoldable pub configure_schedules : PhysicalValue → Server → List ScheduleTuple
configure_schedules ac_p_max s =
    let p_max = if s.stop.iso.is_dc_charger then s.evse_maximum_power_limit else ac_p_max in
    if is_finished s.parameter_processing && not s.evse_sa_schedule_list_is_used
    then record { sa_schedule_tuple_id = first_id s; p_max_schedule = automatic_entry p_max ∷ [] }
      ∷ []
    else s.evse_sa_schedule_list

-- The second request of a vehicle that is to supply power: its limits are negative, and it names the
-- charge at which it stops.
unfoldable pub supplied_soc : ChargeParameterDiscoveryReq → Option ℕ
supplied_soc req = elim req.dc_parameter [
  | none ↦ none
  | some p ↦ elim p.ev_maximum_power_limit [
    | none ↦ none
    | some power ↦
        if is_negative p.ev_maximum_current_limit && is_negative power then p.bulk_soc else none
  ]
]

abbrev is_v2h : Server → Bool
is_v2h s = s.stop.iso.is_dc_charger && s.enabled_sae_v2h

unfoldable pub parameter_processing_of : Server → Processing
parameter_processing_of s =
    if is_v2h s
    then (if s.v2h_first_req then ongoing else finished)
    else if is_finished s.parameter_processing
    then finished
    else ongoing

unfoldable pub parameter_code : ChargeParameterDiscoveryReq → Server → ℕ
unfolding supplied_soc
parameter_code req s =
    let is_dc = s.stop.iso.is_dc_charger in
    if (if is_dc then req.has_ac_parameter else is_some req.dc_parameter)
    then failed_wrong_charge_parameter
    else if is_v2h s && not s.v2h_first_req && not (is_some (supplied_soc req))
    then failed_wrong_energy_transfer_mode
    else if supports req.requested_mode s.supported_energy_transfer_modes
    then ok
    else failed_wrong_energy_transfer_mode

unfoldable pub handle_iso_charge_parameter_discovery :
    ChargeParameterDiscoveryReq → Server → Response → Outcome Reply
unfolding publish_dc_ev_status get_emergency_status_code configure_schedules supplied_soc
    parameter_processing_of parameter_code answer
handle_iso_charge_parameter_discovery req s r =
    let processing = parameter_processing_of s in
    let schedules = configure_schedules req.ac_p_max s in
    let soc : ℕ = elim (supplied_soc req) [ none ↦ s.sae_v2h_minimal_soc | some n ↦ n ] in
    let told = publish_request req s in
    let ready =
      if s.stop.iso.is_dc_charger then wait_for_cable_check else ac_wait_for_power_delivery in
    answer_at (if is_finished processing then ready else wait_for_charge_parameter_discovery)
      (record told {
        stop = s.stop;
        evse_sa_schedule_list = schedules;
        renegotiation_required = false;
        sae_v2h_minimal_soc =
            if is_v2h s && not s.v2h_first_req then soc else s.sae_v2h_minimal_soc;
        v2h_first_req = if is_v2h s then not s.v2h_first_req else s.v2h_first_req;
      })
      (record r {
        response_code = parameter_code req s;
        evse_processing = processing;
        sa_schedules = if is_finished s.parameter_processing then some schedules else none;
        evse_status =
            if s.stop.iso.is_dc_charger
            then get_emergency_status_code s phase_parameter
            else r.evse_status;
      })
