-- ===== src/V2g/Iso/Charging.antt =====
-- modules/EvseTestV2G/server/iso_server.cpp: `handle_iso_charging_status`, `handle_iso_metering_receipt`,
-- `handle_iso_certificate_update`, `handle_iso_cable_check`, `handle_iso_pre_charge`,
-- `handle_iso_current_demand` and `handle_iso_welding_detection`. The comparisons of physical values,
-- in floating point, are arguments.
use evse_test_system.Base.{
  ℕ, Bool, true, false, not, ◌&&◌, ◌||◌, leb, Option, none, some, [], ◌∷◌, ◌++◌, if◌then◌else◌,
}
use evse_test_system.Base.Int.{pos, negsuc}
use evse_test_system.V2g.Types.{no_event}
use evse_test_system.V2g.Iso.States.{ok}
use evse_test_system.V2g.Iso.StateIds.{
  wait_for_cable_check, wait_for_pre_charge, wait_for_pre_charge_or_power_delivery,
  wait_for_current_demand_or_power_delivery, wait_for_metering_receipt,
  wait_for_welding_detection_or_session_stop, ac_wait_for_charging_status_or_power_delivery,
  ac_wait_for_metering_receipt,
}
use evse_test_system.V2g.Iso.Server.{
  Outcome, returned, contract, same_option, is_finished, StatusCode, evse_ready, evse_shutdown,
  phase_isolation, phase_precharge, phase_charge, phase_welding, PhysicalValue, DcEvStatus,
  dc_charging_complete, dc_bulk_charging_complete, Server, Response, Reply, set_code, answer,
  answer_at, same_bool, publish_dc_ev_status, get_emergency_status_code,
}
use evse_test_system.V2g.Iso.Parameters.{is_negative}

abbrev pays_by_contract : Server → Bool
pays_by_contract s = same_option s.iso_selected_payment_option contract

-- A receipt is asked for only where a contract pays.
unfoldable pub handle_iso_charging_status : Server → Response → Outcome Reply
unfolding answer
handle_iso_charging_status s r =
    let receipt = pays_by_contract s && s.receipt_required in
    answer_at
      (if receipt
        then ac_wait_for_metering_receipt
        else ac_wait_for_charging_status_or_power_delivery)
      (record s { meter_info_is_used = false })
      (record r {
        response_code = ok;
        response_receipt_required = receipt;
        receipt_required_is_used = true;
        meter_info_is_sent = s.meter_info_is_used;
      })

unfoldable pub handle_iso_metering_receipt : Server → Response → Outcome Reply
unfolding answer
handle_iso_metering_receipt s r =
    answer_at
      (if s.stop.iso.is_dc_charger
        then wait_for_current_demand_or_power_delivery
        else ac_wait_for_charging_status_or_power_delivery)
      s (set_code ok r)

-- Nothing is done, and nothing is checked.
unfoldable pub handle_iso_certificate_update : Server → Response → Outcome Reply
handle_iso_certificate_update s r = returned (record { server = s; response = r; event = no_event })

unfoldable pub handle_iso_cable_check : DcEvStatus → Server → Response → Outcome Reply
unfolding publish_dc_ev_status get_emergency_status_code answer
handle_iso_cable_check status s r =
    let done = is_finished s.isolation_processing in
    let evse_status : StatusCode =
      if not s.stop.iso.intl_emergency_shutdown && done
      then evse_ready
      else get_emergency_status_code s phase_isolation in
    answer_at (if done then wait_for_pre_charge else wait_for_cable_check)
      (publish_dc_ev_status status s)
      (record r {
        response_code = ok;
        evse_status = evse_status;
        evse_processing = s.isolation_processing;
      })

unfoldable pub handle_iso_pre_charge : DcEvStatus → Server → Response → Outcome Reply
unfolding publish_dc_ev_status get_emergency_status_code answer
handle_iso_pre_charge status s r =
    answer_at wait_for_pre_charge_or_power_delivery (publish_dc_ev_status status s)
      (record r { response_code = ok; evse_status = get_emergency_status_code s phase_precharge })

unfoldable pub handle_iso_welding_detection : DcEvStatus → Server → Response → Outcome Reply
unfolding publish_dc_ev_status get_emergency_status_code answer
handle_iso_welding_detection status s r =
    answer_at wait_for_welding_detection_or_session_stop (publish_dc_ev_status status s)
      (record r { response_code = ok; evse_status = get_emergency_status_code s phase_welding })

-- `calc_physical_value` of the first argument is at least that of the second; the product of the first
-- two is at least the third.
pub record Limits : Type 0 where
  pub reaches : PhysicalValue → PhysicalValue → Bool
  pub product_reaches : PhysicalValue → PhysicalValue → PhysicalValue → Bool

pub record CurrentDemandReq : Type 0 where
  pub demand_status : DcEvStatus
  pub is_bulk_complete : Option Bool
  pub is_complete : Bool
  pub ev_target_current : PhysicalValue
  pub ev_target_voltage : PhysicalValue

abbrev is_positive : PhysicalValue → Bool
is_positive v = elim v.value [ pos n ↦ leb 1 n | negsuc n ↦ false ]

-- The bulk charging: published when the vehicle tells it and it has changed.
abbrev publish_bulk : Option Bool → Server → Server
publish_bulk none s = s
publish_bulk (some b) s = if same_bool s.bulk_charging_complete b then s else record s {
  bulk_charging_complete = b;
  published = s.published ++ (dc_bulk_charging_complete b ∷ []);
}

abbrev publish_complete : Bool → Server → Server
publish_complete b s = if same_bool s.charging_complete b then s else record s {
  charging_complete = b;
  published = s.published ++ (dc_charging_complete b ∷ []);
}

-- IsoServerBase::publish_iso_current_demand_req
unfoldable pub publish_iso_current_demand_req : CurrentDemandReq → Server → Server
unfolding publish_dc_ev_status
publish_iso_current_demand_req req s =
    publish_dc_ev_status req.demand_status
      (publish_complete req.is_complete (publish_bulk req.is_bulk_complete s))

-- The handshake of SAE V2G: `some b` where the direction of the power becomes `b`. The
-- post-increment compares the count before it with 1.
unfoldable pub sae_direction : CurrentDemandReq → Server → Option Bool
sae_direction req s =
    let limited = s.evse_maximum_current_limit_is_used && s.evse_maximum_power_limit_is_used in
    let gives =
      not s.discharging
      && is_negative s.evse_present_current
      && limited
      && is_negative s.evse_maximum_current_limit
      && is_negative s.evse_maximum_power_limit
      && is_positive req.ev_target_current in
    let takes =
      s.discharging
      && is_positive s.evse_present_current
      && limited
      && is_positive s.evse_maximum_current_limit
      && is_positive s.evse_maximum_power_limit
      && is_negative req.ev_target_current in
    if s.enabled_sae_v2g && (gives || takes) then some gives else none

unfoldable pub handle_iso_current_demand :
    Limits → CurrentDemandReq → Server → Response → Outcome Reply
unfolding publish_dc_ev_status publish_iso_current_demand_req get_emergency_status_code
    sae_direction answer
handle_iso_current_demand limits req s r =
    let told = publish_iso_current_demand_req req s in
    let receipt = pays_by_contract s && s.receipt_required in
    let direction : Bool = elim (sae_direction req s) [
      | none ↦ s.discharging
      | some b ↦ if leb 1 s.req_pos_value_count then s.discharging else b
    ] in
    let count : ℕ = elim (sae_direction req s) [ none ↦ s.req_pos_value_count | some b ↦ 0 ] in
    let stops =
      not s.enabled_sae_v2g
      && s.enabled_sae_v2h
      && leb req.demand_status.ev_ress_soc s.sae_v2h_minimal_soc in
    let status : StatusCode =
      if stops then evse_shutdown else get_emergency_status_code s phase_charge in
    answer_at
      (if receipt then wait_for_metering_receipt else wait_for_current_demand_or_power_delivery)
      (record told {
        stop = s.stop;
        meter_info_is_used = false;
        discharging = direction;
        req_pos_value_count = count;
      })
      (record r {
        response_code = ok;
        evse_status = status;
        response_receipt_required = s.receipt_required;
        receipt_required_is_used = receipt;
        meter_info_is_sent = s.meter_info_is_used;
        current_limit_achieved =
            s.evse_maximum_current_limit_is_used
            && limits.reaches req.ev_target_current s.evse_maximum_current_limit;
        power_limit_achieved =
            s.evse_maximum_power_limit_is_used
            && limits.product_reaches req.ev_target_current req.ev_target_voltage
                s.evse_maximum_power_limit;
        voltage_limit_achieved =
            s.evse_maximum_voltage_limit_is_used
            && limits.reaches req.ev_target_voltage s.evse_maximum_voltage_limit;
      })
