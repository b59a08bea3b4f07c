-- ===== src/TestCases/CableCheck/Handlers.antt =====
-- modules/EvseTestV2G/testcases/chn_cable_check_006.cpp: the handlers of the charge parameters, of the cable check and of
-- the session stop, around those of the servers. The handlers of the two protocols are the same
-- but for the handler that they are wrapped around. The isolation status and the notification of a
-- response are those of the context, from which the server copies them; that the isolation status
-- is then overwritten in the response is left out.
use evse_test_system.Base.{ℕ, ltb, ◌==◌, ◌&&◌, Bool, true, false, not, if◌then◌else◌}
use evse_test_system.Base.Int.{pos, pos_part, ltb_ℤ}
use Prim.Native.String.{String}
use evse_test_system.V2g.Types.{
  V2gMsgTypeId, cable_check_msg, session_stop_msg, msg_number, terminate_connection,
  send_and_terminate,
}
use evse_test_system.V2g.Iso.States.{failed}
use evse_test_system.V2g.Iso.Server.{
  Outcome, returned, ◌>>=◌, Processing, ongoing, waiting_for_customer_interaction, Notification,
  no_notification, StatusCode, evse_ready, other_status, Reply, go_to, set_code,
}
use evse_test_system.TestCases.Common.{
  TestRun, Tested, add_error, add_report, request_report, response_report, is_unset, ms_between,
  is_no_event, is_answered,
}
use evse_test_system.TestCases.PreCharge.Close.{is_cp_state_b}
use evse_test_system.TestCases.PreCharge.Server.{Readings}
use evse_test_system.TestCases.CableCheck.State.{CableCheck, is_cable_check_running_forever}

-- EVSE_IsolationMonitoringActive
abbrev pub isolation_monitoring_active : StatusCode
isolation_monitoring_active = other_status 4

-- isolationLevelType_Fault
abbrev pub isolation_fault : ℕ
isolation_fault = 3

-- `n`: the number of WAIT_FOR_CABLECHECK in the states of the server.
unfoldable pub handle_cable_parameters :
    ℕ → Readings → Outcome Reply → CableCheck → TestRun → Outcome (Tested CableCheck)
handle_cable_parameters n clock base t run = base >>= λ reply. returned (record {
  test =
      if is_no_event reply.event && reply.server.stop.iso.state == n
      then record t { earliest_cable_check_timer_start = clock.answered_at }
      else t;
  run = run;
  reply = reply;
})

-- The first two requests note the start of the timer.
unfoldable pub note_start : Readings → V2gMsgTypeId → CableCheck → CableCheck
note_start clock last t =
    if not (msg_number last == msg_number cable_check_msg)
    then record t { cable_check_started = true }
    else if is_unset t.latest_cable_check_timer_start
    then record t { latest_cable_check_timer_start = clock.received_at }
    else t

-- The pause since the last response, and the longest one.
unfoldable pub update_durations : Readings → CableCheck → CableCheck
update_durations clock t =
    let last =
      if is_unset t.last_cable_check_res_time
      then t.last_cable_check_sequence_duration
      else ms_between t.last_cable_check_res_time clock.received_at in
    record t {
      last_cable_check_sequence_duration = last;
      max_cable_check_sequence_duration =
          if ltb_ℤ (pos t.max_cable_check_sequence_duration) last
          then pos_part last
          else t.max_cable_check_sequence_duration;
    }

-- Before the handler of the server: `last`, the message that was handled last.
unfoldable pub begin_cable_check : Readings → V2gMsgTypeId → CableCheck → CableCheck
unfolding note_start update_durations
begin_cable_check clock last t = record (update_durations clock (note_start clock last t)) {
  last_cable_check_req_time = clock.received_at;
}

abbrev pub is_normal_status : StatusCode → Bool
is_normal_status evse_ready = true
is_normal_status (other_status n) = n == 4
is_normal_status _ = false

abbrev pub is_notified : Notification → Bool
is_notified no_notification = false
is_notified _ = true

-- An answer that goes on or has finished goes on, and the server waits for the next request.
unfoldable pub hold_back : ℕ → Processing → Reply → Reply
hold_back n waiting_for_customer_interaction reply = reply
hold_back n processing reply = record reply {
  server = go_to n reply.server;
  response = record reply.response {
    evse_processing = ongoing;
    evse_status = isolation_monitoring_active;
  };
}

-- The first request after the timeout is answered with a failure, and a further one ends the session.
unfoldable pub abort_if_forever : CableCheck → TestRun → Reply → Tested CableCheck
unfolding is_cable_check_running_forever
abort_if_forever t run reply =
    if is_cable_check_running_forever t.last_cable_check_req_time t
    then record {
      test = record t { cable_check_aborted = true };
      run = run;
      reply = record reply {
        response = set_code failed reply.response;
        event = if t.cable_check_aborted then send_and_terminate else reply.event;
      };
    }
    else record { test = t; run = run; reply = reply }

unfoldable pub fail_cable_check : String → CableCheck → TestRun → Reply → Tested CableCheck
fail_cable_check e t run reply = record {
  test = record t { cable_check_failed = true };
  run = add_error e run;
  reply = reply;
}

-- The judgement of the answer of the server.
unfoldable pub judge_cable_check : ℕ → CableCheck → TestRun → Reply → Tested CableCheck
unfolding fail_cable_check hold_back abort_if_forever
judge_cable_check n t run reply =
    if not (is_no_event reply.event && ltb reply.response.response_code failed)
    then fail_cable_check "Problems handling CableCheckReq" t run reply
    else if not (is_normal_status reply.response.evse_status)
    then fail_cable_check "Unexpected EVSEStatusCode" t run reply
    else if reply.server.evse_isolation_status_is_used
        && reply.server.evse_isolation_status == isolation_fault
    then fail_cable_check "Unexpected EVSEIsolationStatus" t run reply
    else if is_notified reply.server.evse_notification
    then fail_cable_check "Unexpected EVSENotification" t run reply
    else abort_if_forever t run (hold_back n reply.response.evse_processing reply)

-- The end of the handler, where there is an answer.
unfoldable pub end_cable_check : Readings → Tested CableCheck → Tested CableCheck
end_cable_check clock x =
    if is_answered x.reply.event
    then record x {
      test = record x.test {
        validate_control_pilot = not (is_cp_state_b clock.cp_state);
        last_cable_check_res_time = clock.answered_at;
      };
      run = add_report (response_report cable_check_msg x.reply.response.response_code) x.run;
    }
    else x

-- The handler, around what the server answers.
unfoldable pub handle_cable_check :
    ℕ → Readings → V2gMsgTypeId → Outcome Reply → CableCheck → TestRun → Outcome (Tested CableCheck)
unfolding begin_cable_check judge_cable_check end_cable_check
handle_cable_check n clock last base t run = base >>= λ reply. returned (
    end_cable_check clock (
      judge_cable_check n (begin_cable_check clock last t)
        (add_report (request_report cable_check_msg) run) reply))

unfoldable pub handle_cable_stop :
    Readings → Outcome Reply → CableCheck → TestRun → Outcome (Tested CableCheck)
handle_cable_stop clock base t run =
    let requested = add_report (request_report session_stop_msg) run in
    base >>= λ reply. returned (
      if not t.cable_check_started
      then record { test = t; run = run; reply = reply }
      else if is_answered reply.event
      then record {
        test = record t {
          last_session_stop_req_time = clock.received_at;
          last_session_stop_res_time = clock.answered_at;
        };
        run = add_report (response_report session_stop_msg reply.response.response_code) requested;
        reply = reply;
      }
      else record {
        test = record t { last_session_stop_req_time = clock.received_at };
        run = requested;
        reply = reply;
      })

-- A request that is not let through, of the type `m`.
unfoldable pub refuse_cable_request :
    V2gMsgTypeId → CableCheck → TestRun → Reply → Outcome (Tested CableCheck)
refuse_cable_request m t run reply = returned (record {
  test = record t { received_extra_request = true };
  run = add_error "EV sent an unexpected request" (add_report (request_report m) run);
  reply = record reply { event = terminate_connection };
})
