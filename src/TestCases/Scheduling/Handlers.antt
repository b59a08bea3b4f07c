-- ===== src/TestCases/Scheduling/Handlers.antt =====
-- modules/EvseTestV2G/testcases/chx_smart_charging_scheduling_base.cpp: the handlers of DinSmartChargeScheduleTest
-- and Iso2SmartChargeScheduleTest, around those of the two servers. The power limit that a response
-- shows is a physical value, and left out.
use evse_test_system.Base.{
  ℕ, ◌-◌, ◌/◌, ltb, ◌==◌, ◌&&◌, ◌||◌, Bool, true, not, Option, none, some, List, [], ◌∷◌,
  if◌then◌else◌,
}
use evse_test_system.Base.Int.{ℤ, pos, ltb_ℤ}
use evse_test_system.V2g.Types.{
  V2gEvent, V2gMsgTypeId, charge_parameter_discovery_msg, power_delivery_msg, current_demand_msg,
  session_stop_msg,
}
use evse_test_system.V2g.Iso.States.{failed, IsoContext}
use evse_test_system.V2g.Iso.Server.{
  Outcome, returned, ◌>>=◌, is_finished, DcEvStatus, ScheduleEntry, ScheduleTuple, Reply, same_bool,
  reply_with,
}
use evse_test_system.TestCases.Common.{
  TestRun, Tested, add_report, request_report, response_report, is_answered, is_no_event,
}
use evse_test_system.TestCases.Scheduling.Schedule.{
  schedule_entry_start_0, schedule_entry_start_1, schedule_entry_start_2, schedule_entry_duration,
  PmaxLimits, judge_dc, judge_ac, is_at_most, idle_power,
}
use evse_test_system.TestCases.Scheduling.State.{
  Scheduling, apply_judgement, note_power, stop_if_done, same_status, same_notification,
  is_other_power,
}

abbrev pub is_good : Reply → Bool
is_good reply = is_no_event reply.event && ltb reply.response.response_code failed

abbrev pub report_response : V2gMsgTypeId → Reply → TestRun → TestRun
report_response m reply run =
    if is_answered reply.event
    then add_report (response_report m reply.response.response_code) run
    else run

abbrev lower : Option ℤ → ℤ → ℤ
lower none maximum = maximum
lower (some limit) maximum = if ltb_ℤ limit maximum then limit else maximum

-- The limits in watts, rounded towards zero: of the vehicle's current times its voltage, of its power,
-- and of the first entry of the schedule; each where it is used.
pub record PowerLimits : Type 0 where
  pub ev_ac_limit : Option ℤ
  pub ev_dc_limit : Option ℤ
  pub evse_limit : Option ℤ

unfoldable pub get_maximum_power_limit : PowerLimits → ℤ
get_maximum_power_limit l =
    lower l.evse_limit (lower l.ev_dc_limit (lower l.ev_ac_limit (pos 32767)))

abbrev schedule_entry : ℕ → Option ℕ → ℤ → ScheduleEntry
schedule_entry start duration p = record {
  start = start / 1000;
  duration = duration;
  p_max = record { multiplier = pos 0; value = p };
}

abbrev pub scheduled_entries : PmaxLimits → List ScheduleEntry
scheduled_entries p =
    schedule_entry schedule_entry_start_0 none p.power_0
    ∷ schedule_entry schedule_entry_start_1 none p.power_1
    ∷ schedule_entry schedule_entry_start_2 (some (schedule_entry_duration / 1000)) p.power_2
    ∷ []

-- The entries of the first tuple are replaced; DIN 70121 has one tuple, with the id 1.
abbrev pub replace_entries : List ScheduleEntry → Option (List ScheduleTuple) → List ScheduleTuple
replace_entries entries (some (first ∷ rest)) = record first { p_max_schedule = entries } ∷ rest
replace_entries entries _ = record { sa_schedule_tuple_id = 1; p_max_schedule = entries } ∷ []

unfoldable pub send_schedule : ℕ → PmaxLimits → Scheduling → Reply → Scheduling × Reply
send_schedule now p t reply = (
  record t { limits = p; schedule_start_time = now },
  record reply {
    response = record reply.response {
      sa_schedules = some (replace_entries (scheduled_entries p) reply.response.sa_schedules);
    };
  },
)

-- `validate`: the validation of the response code by the server; `limits`: the limits that the test
-- case has set, if it could.
unfoldable pub handle_charge_parameter :
    (IsoContext → ℕ → Option (ℕ × V2gEvent))
    → ℕ
    → Option PmaxLimits
    → Outcome Reply
    → Scheduling
    → TestRun
    → Outcome (Tested Scheduling)
unfolding send_schedule
handle_charge_parameter validate now limits base t run =
    let finish : Scheduling → Reply → Outcome (Tested Scheduling) = λ t' reply. returned (record {
      test = t';
      run =
          if is_finished reply.response.evse_processing
          then report_response charge_parameter_discovery_msg reply (
              if is_answered reply.event
              then add_report (request_report charge_parameter_discovery_msg) run
              else run)
          else run;
      reply = reply;
    }) in
    base >>= λ reply.
    if is_good reply && is_finished reply.response.evse_processing
    then elim limits [
      | none ↦
          reply_with (validate reply.server.stop.iso failed) reply.server reply.response
          >>= finish t
      | some p ↦ let sent = send_schedule now p t reply in finish sent.0 sent.1
    ]
    else finish t reply

unfoldable pub handle_power_delivery :
    ℕ → Bool → Outcome Reply → Scheduling → TestRun → Outcome (Tested Scheduling)
handle_power_delivery now starts base t run = base >>= λ reply. returned (record {
  test =
      if is_good reply && starts && t.charging_start_time == 0
      then record t { charging_start_time = now }
      else t;
  run =
      report_response power_delivery_msg reply (add_report (request_report power_delivery_msg) run);
  reply = reply;
})

-- The judgement of a request for power, on the clock `now`.
unfoldable pub judge_demand : ℕ → ℤ → Scheduling → TestRun → Outcome (Scheduling × TestRun)
unfolding judge_dc apply_judgement note_power stop_if_done
judge_demand now power t run =
    apply_judgement (judge_dc power (now - t.schedule_start_time) t.limits)
      "EV Target Power exceeds scheduled PMax" t run
    >>= λ judged.
        returned (stop_if_done now (note_power (not (is_at_most power (pos 1))) judged.0), judged.1)

abbrev pub is_changed : ℤ → DcEvStatus → Scheduling → Bool
is_changed power status t =
    is_other_power power t.last_target_power
    || not (status.ev_error_code == t.last_ev_error_code)
    || not (same_bool status.ev_ready t.last_ev_ready)

-- The report of the response, where the request was reported or the status of the charger has changed.
unfoldable pub end_demand : Bool → Reply → Scheduling × TestRun → Tested Scheduling
end_demand is_reported reply judged =
    let t = judged.0 in
    let differs =
      not (same_status reply.response.evse_status t.last_evse_status_code)
      || not (same_notification reply.server.evse_notification t.last_evse_notification) in
    if is_answered reply.event
    then record {
      test =
          if differs
          then record t {
            last_evse_status_code = reply.response.evse_status;
            last_evse_notification = reply.server.evse_notification;
          }
          else t;
      run =
          if is_reported || differs
          then add_report (response_report current_demand_msg reply.response.response_code) judged.1
          else judged.1;
      reply = reply;
    }
    else record { test = t; run = judged.1; reply = reply }

-- The state after the request was looked at.
unfoldable pub see_demand : ℤ → DcEvStatus → Scheduling → Scheduling
see_demand power status t =
    if is_changed power status t
    then record t {
      last_target_power = power;
      last_ev_error_code = status.ev_error_code;
      last_ev_ready = status.ev_ready;
    }
    else t

abbrev pub note_demand : Bool → TestRun → TestRun
note_demand changed run =
    if changed then add_report (request_report current_demand_msg) run else run

unfoldable pub handle_current_demand :
    ℕ → ℤ → DcEvStatus → Outcome Reply → Scheduling → TestRun → Outcome (Tested Scheduling)
unfolding see_demand judge_demand end_demand
handle_current_demand now power status base t run =
    let changed = is_changed power status t in
    let seen = see_demand power status t in
    let noted = note_demand changed run in
    base >>= λ reply.
    (if is_good reply then judge_demand now power seen noted else returned (seen, noted))
    >>= λ judged. returned (end_demand changed reply judged)

-- The judgement of the reading of the power meter, which is cleared.
unfoldable pub judge_reading : Option ℤ → ℕ → Scheduling → TestRun → Outcome (Scheduling × TestRun)
unfolding judge_ac apply_judgement note_power stop_if_done
judge_reading none now t run = returned (stop_if_done now t, run)
judge_reading (some power) now t run =
    apply_judgement (judge_ac power (now - t.schedule_start_time) t.limits)
      "Power draw exceeds scheduled PMax" (record t { power_reading = none }) run
    >>= λ judged.
        returned (
          stop_if_done now (note_power (not (is_at_most power (pos idle_power))) judged.0),
          judged.1,
        )

unfoldable pub handle_charging_status :
    ℕ → Outcome Reply → Scheduling → TestRun → Outcome (Tested Scheduling)
unfolding judge_reading
handle_charging_status now base t run = base >>= λ reply.
    (if is_good reply then judge_reading t.power_reading now t run else returned (t, run))
    >>= λ judged. returned (record { test = judged.0; run = judged.1; reply = reply })

unfoldable pub handle_scheduling_stop :
    Outcome Reply → Scheduling → TestRun → Outcome (Tested Scheduling)
handle_scheduling_stop base t run = base >>= λ reply. returned (record {
  test =
      if is_answered reply.event && ltb reply.response.response_code failed
      then record t { gracefully_stopped_session = true }
      else t;
  run = report_response session_stop_msg reply (add_report (request_report session_stop_msg) run);
  reply = reply;
})
