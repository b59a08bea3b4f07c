-- ===== src/V2g/Iso/PowerDelivery.antt =====
-- modules/EvseTestV2G/server/iso_server.cpp: `handle_iso_power_delivery`.
use evse_test_system.Base.{
  ℕ, Bool, true, false, not, ◌&&◌, ◌||◌, ◌==◌, Option, none, some, List, [], ◌∷◌, is_some,
  if◌then◌else◌,
}
use evse_test_system.V2g.Types.{V2gMsgTypeId, msg_number, current_demand_msg, charging_status_msg}
use evse_test_system.V2g.Iso.States.{ok, failed}
use evse_test_system.V2g.Iso.StateIds.{
  wait_for_charge_parameter_discovery, wait_for_current_demand,
  wait_for_welding_detection_or_session_stop, ac_wait_for_charging_status, ac_wait_for_session_stop,
}
use evse_test_system.V2g.Iso.Server.{
  Outcome, returned, ◌>>=◌, ongoing, no_notification, re_negotiation, StatusCode, evse_ready,
  phase_charge, PhysicalValue, DcEvStatus, ScheduleEntry, ScheduleTuple, dc_charging_complete,
  dc_bulk_charging_complete, v2g_setup_finished, ac_close_contactor, ac_open_contactor,
  dc_open_contactor, current_demand_finished, Server, Response, Reply, publish, go_to, set_code,
  answer, publish_dc_ev_status, get_emergency_status_code,
}
use evse_test_system.V2g.Iso.Waiting.{WakeUp, wait_for_contactor}
use evse_test_system.V2g.Iso.Profile.{ProfileEntry, check_iso2_charging_profile_values}

abbrev pub failed_power_delivery_not_applied : ℕ
failed_power_delivery_not_applied = 17

abbrev pub failed_tariff_selection_invalid : ℕ
failed_tariff_selection_invalid = 18

abbrev pub failed_contactor_error : ℕ
failed_contactor_error = 23

-- iso2_chargeProgressType, and a value that is none of its three.
pub data ChargeProgress : Type 0 where
  progress_start progress_stop progress_renegotiate progress_other : ChargeProgress

abbrev pub is_start : ChargeProgress → Bool
is_start progress_start = true
is_start _ = false

abbrev pub is_stop : ChargeProgress → Bool
is_stop progress_stop = true
is_stop _ = false

abbrev pub is_renegotiate : ChargeProgress → Bool
is_renegotiate progress_renegotiate = true
is_renegotiate _ = false

pub record DcPowerDelivery : Type 0 where
  pub is_complete : Bool
  pub is_bulk_complete : Option Bool
  pub status : DcEvStatus

pub record PowerDeliveryReq : Type 0 where
  pub progress : ChargeProgress
  pub tuple_id : ℕ
  pub profile : Option (List ProfileEntry)
  pub dc_parameter : Option DcPowerDelivery

abbrev publish_bulk : Option Bool → Server → Server
publish_bulk none s = s
publish_bulk (some b) s = publish s (dc_bulk_charging_complete b)

-- IsoServerBase::publish_iso_power_delivery_req
unfoldable pub publish_iso_power_delivery_req : PowerDeliveryReq → Server → Server
unfolding publish_dc_ev_status
publish_iso_power_delivery_req req s = elim req.dc_parameter [
  | none ↦ s
  | some p ↦
      publish_dc_ev_status p.status
        (publish_bulk p.is_bulk_complete (publish s (dc_charging_complete p.is_complete)))
]

-- The start on an AC charger whose contactor is open: it is closed, and waited for.
abbrev close_contactor : List WakeUp → Server → Outcome (Server × ℕ)
close_contactor wake_ups s =
    wait_for_contactor wake_ups (record (publish s ac_close_contactor) { is_charging = true })
    >>= λ waited. returned (waited.0, if waited.1 then failed_contactor_error else ok)

-- The switch over the progress: the context and the response code.
unfoldable pub progress_case : ChargeProgress → List WakeUp → Server → Outcome (Server × ℕ)
unfolding wait_for_contactor
progress_case progress_start wake_ups s =
    let told = publish s v2g_setup_finished in
    if not s.stop.iso.is_dc_charger && not s.contactor_is_closed
    then close_contactor wake_ups told
    else returned (told, ok)
progress_case progress_stop wake_ups s =
    let stopped = record s { is_charging = false } in
    returned (
      if s.stop.iso.is_dc_charger
          then publish (publish stopped current_demand_finished) dc_open_contactor
          else publish stopped ac_open_contactor,
      ok,
    )
progress_case progress_renegotiate wake_ups s =
    returned (record s { renegotiation_required = true }, ok)
progress_case progress_other wake_ups s = returned (s, failed)

abbrev pub is_ready : StatusCode → Bool
is_ready evse_ready = true
is_ready _ = false

abbrev pub find_tuple : ℕ → List ScheduleTuple → Option ScheduleTuple
find_tuple id [] = none
find_tuple id (t ∷ ts) =
    let rest = find_tuple id ts in if t.sa_schedule_tuple_id == id then some t else rest

-- The response code before its check, from the code that the switch over the progress left.
unfoldable pub power_delivery_code : PowerDeliveryReq → Server → ℕ → ℕ
unfolding get_emergency_status_code
power_delivery_code req s code =
    if not (is_some (find_tuple req.tuple_id s.evse_sa_schedule_list))
    then failed_tariff_selection_invalid
    else if s.stop.iso.is_dc_charger
        && is_start req.progress
        && not (is_ready (get_emergency_status_code s phase_charge))
    then failed_power_delivery_not_applied
    else code

abbrev pub schedule_of : Option ScheduleTuple → List ScheduleEntry
schedule_of none = []
schedule_of (some t) = t.p_max_schedule

abbrev pub is_charging_message : V2gMsgTypeId → Bool
is_charging_message m =
    msg_number m == msg_number current_demand_msg || msg_number m == msg_number charging_status_msg

abbrev pub is_after_charging : Server → Bool
is_after_charging s = is_charging_message s.stop.last_v2g_msg

abbrev pub renegotiates : ChargeProgress → Server → Bool
renegotiates p s = is_renegotiate p && is_after_charging s

abbrev pub starts : ChargeProgress → Server → Bool
starts p s = is_start p && not (is_after_charging s)

-- The next expected request.
unfoldable pub power_delivery_state : ChargeProgress → Server → ℕ
power_delivery_state p s =
    if renegotiates p s
    then wait_for_charge_parameter_discovery
    else if starts p s
    then (if s.stop.iso.is_dc_charger then wait_for_current_demand else ac_wait_for_charging_status)
    else if s.stop.iso.is_dc_charger
    then wait_for_welding_detection_or_session_stop
    else ac_wait_for_session_stop

-- The parameters that a renegotiation resets.
unfoldable pub power_delivery_next : ChargeProgress → Server → Server
unfolding power_delivery_state
power_delivery_next p s =
    let is_dc = renegotiates p s && s.stop.iso.is_dc_charger in
    record (go_to (power_delivery_state p s) s) {
      evse_notification =
          if renegotiates p s
          then elim s.evse_notification [
            | re_negotiation ↦ no_notification
            | _ ↦ s.evse_notification
          ]
          else s.evse_notification;
      isolation_processing = if is_dc then ongoing else s.isolation_processing;
      evse_isolation_status = if is_dc then 0 else s.evse_isolation_status;
    }

-- The code that is set after the check, where a vehicle neither stops nor may start or renegotiate.
unfoldable pub abort_code : ChargeProgress → Server → Reply → Reply
abort_code p s t =
    if not (renegotiates p s) && not (starts p s) && not (is_stop p)
    then record t { response = set_code failed t.response }
    else t

unfoldable pub delivery_after : PowerDeliveryReq → Server → Server
unfolding power_delivery_next
delivery_after req s = record (power_delivery_next req.progress s) {
  session_tuple_id =
      if is_some (find_tuple req.tuple_id s.evse_sa_schedule_list)
      then req.tuple_id
      else s.session_tuple_id;
}

unfoldable pub delivery_response : ℕ → Server → Response → Response
unfolding get_emergency_status_code
delivery_response code s r = record r {
  response_code = code;
  evse_status =
      if s.stop.iso.is_dc_charger then get_emergency_status_code s phase_charge else r.evse_status;
}

-- The handler after the switch over the progress, which left the response code `code`.
unfoldable pub deliver :
    (PhysicalValue → PhysicalValue → Bool)
    → ℕ
    → PowerDeliveryReq
    → Response
    → Server × ℕ
    → Outcome Reply
unfolding power_delivery_code check_iso2_charging_profile_values answer delivery_after
    delivery_response abort_code
deliver exceeds fuel req r (s, left) =
    let code = power_delivery_code req s left in
    let schedule = schedule_of (find_tuple req.tuple_id s.evse_sa_schedule_list) in
    check_iso2_charging_profile_values exceeds fuel req.profile schedule code >>= λ checked.
    answer (delivery_after req s) s.stop.iso (delivery_response code s r) >>= λ answered.
    returned (abort_code req.progress s answered)

unfoldable pub handle_iso_power_delivery :
    (PhysicalValue → PhysicalValue → Bool)
    → ℕ
    → List WakeUp
    → PowerDeliveryReq
    → Server
    → Response
    → Outcome Reply
unfolding publish_iso_power_delivery_req progress_case deliver
handle_iso_power_delivery exceeds fuel wake_ups req s r =
    progress_case req.progress wake_ups (publish_iso_power_delivery_req req s)
    >>= deliver exceeds fuel req r
