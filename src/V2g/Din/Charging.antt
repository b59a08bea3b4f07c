-- ===== src/V2g/Din/Charging.antt =====
-- modules/EvseTestV2G/server/din_server.cpp: the handlers of the messages from the cable check on. The check of
-- the entries of a charging profile only writes to the log, and is left out, as are the physical
-- values of the vehicle and of the charger.
use evse_test_system.Base.{
  ℕ, Bool, false, not, ◌&&◌, ◌||◌, ◌==◌, Option, none, some, [], ◌∷◌, ◌++◌, if◌then◌else◌,
}
use evse_test_system.V2g.Types.{send_and_terminate, msg_number, current_demand_msg}
use evse_test_system.V2g.Iso.States.{ok, failed}
use evse_test_system.V2g.Iso.SessionStop.{dlink_terminate}
use evse_test_system.V2g.Iso.Server.{
  Outcome, returned, ◌>>=◌, is_finished, StatusCode, evse_ready, phase_isolation, phase_precharge,
  phase_charge, phase_welding, DcEvStatus, v2g_setup_finished, current_demand_finished,
  dc_open_contactor, Server, Response, Reply, go_to, set_code, publish_dc_ev_status,
  get_emergency_status_code,
}
use evse_test_system.V2g.Iso.PowerDelivery.{
  failed_power_delivery_not_applied, failed_tariff_selection_invalid, DcPowerDelivery,
  progress_other, publish_iso_power_delivery_req, is_ready,
}
use evse_test_system.V2g.Iso.Charging.{CurrentDemandReq, publish_iso_current_demand_req}
use evse_test_system.V2g.Din.StateIds.{
  din_wait_for_cable_check, din_wait_for_pre_charge, din_wait_for_pre_charge_or_power_delivery,
  din_wait_for_current_demand, din_wait_for_current_demand_or_power_delivery,
  din_wait_for_welding_detection_or_session_stop, din_wait_for_terminated_session,
}
use evse_test_system.V2g.Din.States.{answer_din, answer_din_at}
use evse_test_system.V2g.Din.Handlers.{two_valued}

-- `tuple_id`: `none` where no charging profile is used; the charger's only schedule has the id 1.
pub record DinPowerDeliveryReq : Type 0 where
  pub is_ready_to_charge : Bool
  pub tuple_id : Option ℕ
  pub delivery_status : Option DcPowerDelivery

abbrev is_other_tuple : Option ℕ → Bool
is_other_tuple none = false
is_other_tuple (some id) = not (id == 1)

-- DinServerBase::publish_din_power_delivery_req, which publishes as its counterpart in ISO 15118-2.
abbrev publish_din_power_delivery_req : DinPowerDeliveryReq → Server → Server
unfolding publish_iso_power_delivery_req
publish_din_power_delivery_req req s =
    publish_iso_power_delivery_req
      (record {
        progress = progress_other;
        tuple_id = 0;
        profile = none;
        dc_parameter = req.delivery_status;
      })
      s

abbrev pub is_after_demand : Server → Bool
is_after_demand s = msg_number s.stop.last_v2g_msg == msg_number current_demand_msg

-- The vehicle that is ready to charge after the current demand ends the session by a failure.
unfoldable pub end_charging : DinPowerDeliveryReq → Server → Reply → Reply
end_charging req s t =
    if req.is_ready_to_charge && is_after_demand s
    then record t { response = set_code failed t.response; event = send_and_terminate }
    else t

unfoldable pub din_delivery_after : DinPowerDeliveryReq → Server → Server
unfolding publish_iso_power_delivery_req
din_delivery_after req s =
    let told = publish_din_power_delivery_req req s in
    record (go_to
      (if req.is_ready_to_charge && not (is_after_demand s)
        then din_wait_for_current_demand
        else din_wait_for_welding_detection_or_session_stop)
      told) {
        stop = record s.stop {
          iso = record s.stop.iso {
            state =
                if req.is_ready_to_charge && not (is_after_demand s)
                then din_wait_for_current_demand
                else din_wait_for_welding_detection_or_session_stop;
          };
        };
        is_charging = req.is_ready_to_charge && s.is_charging;
        published =
            told.published
            ++ (if req.is_ready_to_charge
                then v2g_setup_finished ∷ []
                else current_demand_finished ∷ dc_open_contactor ∷ []);
      }

unfoldable pub din_delivery_response : DinPowerDeliveryReq → Server → Response → Response
unfolding get_emergency_status_code
din_delivery_response req s r =
    let status = get_emergency_status_code s phase_charge in
    record r {
      response_code =
          if req.is_ready_to_charge && not (is_ready status)
          then failed_power_delivery_not_applied
          else if is_other_tuple req.tuple_id
          then failed_tariff_selection_invalid
          else ok;
      evse_status = status;
    }

unfoldable pub handle_din_power_delivery : DinPowerDeliveryReq → Server → Response → Outcome Reply
unfolding end_charging din_delivery_after din_delivery_response answer_din
handle_din_power_delivery req s r =
    answer_din (din_delivery_after req s) s.stop.iso (din_delivery_response req s r) >>= λ answered.
    returned (end_charging req s answered)

abbrev is_isolated : Server → Bool
is_isolated s =
    s.evse_isolation_status_is_used
    && (s.evse_isolation_status == 1 || s.evse_isolation_status == 2)

unfoldable pub handle_din_cable_check : DcEvStatus → Server → Response → Outcome Reply
unfolding publish_dc_ev_status get_emergency_status_code answer_din
handle_din_cable_check status s r =
    let done = is_finished s.isolation_processing in
    let evse_status : StatusCode =
      if not s.stop.iso.intl_emergency_shutdown && done
      then evse_ready
      else get_emergency_status_code s phase_isolation in
    answer_din_at
      (if done && is_isolated s && is_ready evse_status
        then din_wait_for_pre_charge
        else din_wait_for_cable_check)
      (publish_dc_ev_status status s)
      (record r {
        response_code = ok;
        evse_status = evse_status;
        evse_processing = two_valued s.isolation_processing;
      })

unfoldable pub handle_din_pre_charge : DcEvStatus → Server → Response → Outcome Reply
unfolding publish_dc_ev_status get_emergency_status_code answer_din
handle_din_pre_charge status s r =
    answer_din_at din_wait_for_pre_charge_or_power_delivery (publish_dc_ev_status status s)
      (record r { response_code = ok; evse_status = get_emergency_status_code s phase_precharge })

-- The publication of the request is the same as in ISO 15118-2.
unfoldable pub handle_din_current_demand : CurrentDemandReq → Server → Response → Outcome Reply
unfolding publish_iso_current_demand_req get_emergency_status_code answer_din
handle_din_current_demand req s r =
    answer_din_at din_wait_for_current_demand_or_power_delivery
      (record (publish_iso_current_demand_req req s) { stop = s.stop })
      (record r { response_code = ok; evse_status = get_emergency_status_code s phase_charge })

unfoldable pub handle_din_welding_detection : DcEvStatus → Server → Response → Outcome Reply
unfolding publish_dc_ev_status get_emergency_status_code answer_din
handle_din_welding_detection status s r =
    answer_din_at din_wait_for_welding_detection_or_session_stop (publish_dc_ev_status status s)
      (record r { response_code = ok; evse_status = get_emergency_status_code s phase_welding })

-- The event of the check is not used.
unfoldable pub end_session : Reply → Reply
end_session t = record t { event = send_and_terminate }

unfoldable pub handle_din_session_stop : Server → Response → Outcome Reply
unfolding end_session answer_din
handle_din_session_stop s r =
    answer_din
      (record (go_to din_wait_for_terminated_session s) {
        stop = record s.stop {
          iso = record s.stop.iso { state = din_wait_for_terminated_session };
          dlink_action = dlink_terminate;
        };
      })
      s.stop.iso (set_code ok r)
    >>= λ answered. returned (end_session answered)
