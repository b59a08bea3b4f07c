-- ===== src/TestCases/Timeout/Handlers.antt =====
-- modules/EvseTestV2G/testcases/chn_session_setup_004.cpp and chn_current_demand_005.cpp: the handlers of the request that
-- gets no answer, of the power delivery and of the session stop, around those of the servers. The
-- handlers of the two protocols are the same but for the handler that they are wrapped around, and
-- so are those of the two test cases but for the message.
use evse_test_system.Base.{ltb, ◌&&◌, true, if◌then◌else◌}
use Prim.Native.String.{String}
use evse_test_system.V2g.Types.{
  V2gMsgTypeId, power_delivery_msg, session_stop_msg, ignore_msg, terminate_connection,
}
use evse_test_system.V2g.Iso.States.{failed}
use evse_test_system.V2g.Iso.Server.{Outcome, returned, ◌>>=◌, Reply}
use evse_test_system.TestCases.Common.{
  TestRun, Tested, add_error, add_report, fail_with, request_report, response_report, is_no_event,
  is_answered,
}
use evse_test_system.TestCases.PreCharge.Close.{is_cp_state_b}
use evse_test_system.TestCases.PreCharge.Server.{Readings}
use evse_test_system.TestCases.Timeout.Close.{
  TimedTest, session_setup_004, current_demand_005, service_detail_011, Timed,
}

abbrev problems_handling : TimedTest → String
problems_handling session_setup_004 = "Problems handling SessionSetupReq"
problems_handling current_demand_005 = "Problems handling CurrentDemandReq"
problems_handling service_detail_011 = "Problems handling ServiceDetailReq"

-- The report of a response that will be sent.
unfoldable pub report_response : V2gMsgTypeId → Reply → TestRun → TestRun
report_response m reply run =
    if is_answered reply.event
    then add_report (response_report m reply.response.response_code) run
    else run

-- Before the handler of the server.
unfoldable pub begin_timed : Readings → Timed → Timed
begin_timed clock t = record t { request_time = clock.received_at; request_received = true }

-- After it: where the server would answer well, nothing is sent.
unfoldable pub judge_timed :
    Readings → TimedTest → V2gMsgTypeId → Timed → TestRun → Reply → Tested Timed
judge_timed clock test m t run reply =
    if is_no_event reply.event && ltb reply.response.response_code failed
    then record {
      test = record t {
        validate_control_pilot =
            if is_cp_state_b clock.cp_state then t.validate_control_pilot else true;
      };
      run = run;
      reply = record reply { event = ignore_msg };
    }
    else record {
      test = record t { request_failed = true };
      run = report_response m reply (add_error (problems_handling test) run);
      reply = reply;
    }

unfoldable pub handle_timed :
    Readings → TimedTest → V2gMsgTypeId → Outcome Reply → Timed → TestRun → Outcome (Tested Timed)
unfolding begin_timed judge_timed
handle_timed clock test m base t run = base >>= λ reply.
    returned
      (judge_timed clock test m (begin_timed clock t) (add_report (request_report m) run) reply)

-- The session stop, after the request that got no answer or without it.
unfoldable pub handle_timed_stop :
    Readings → Outcome Reply → Timed → TestRun → Outcome (Tested Timed)
unfolding report_response
handle_timed_stop clock base t run = base >>= λ reply. returned (
    if t.request_received
    then record {
      test = record t {
        session_stop_req_time = clock.received_at;
        session_stop_res_time =
            if is_answered reply.event then clock.answered_at else t.session_stop_res_time;
      };
      run =
          report_response session_stop_msg reply (add_report (request_report session_stop_msg) run);
      reply = reply;
    }
    else record { test = t; run = run; reply = reply })

-- `current_demand_005` reports the power delivery.
unfoldable pub handle_reported_delivery : Outcome Reply → Timed → TestRun → Outcome (Tested Timed)
unfolding report_response
handle_reported_delivery base t run = base >>= λ reply. returned (record {
  test = t;
  run =
      report_response power_delivery_msg reply (add_report (request_report power_delivery_msg) run);
  reply = reply;
})

-- A request that is not let through, of the type `m`.
unfoldable pub refuse_timed : V2gMsgTypeId → Timed → TestRun → Reply → Outcome (Tested Timed)
refuse_timed m t run reply = returned (record {
  test = record t { received_extra_request = true };
  run = fail_with "EV sent an unexpected request" (add_report (request_report m) run);
  reply = record reply { event = terminate_connection };
})
