-- ===== src/TestCases/PreCharge/Server.antt =====
-- modules/EvseTestV2G/testcases/chn_precharge_006.cpp: `DinTestServer` and `Iso2TestServer`, whose handlers are
-- wrapped around those of the servers of DIN 70121 and ISO 15118-2. The voltages that they set to
-- zero are physical values, and left out.
use evse_test_system.Base.{ℕ, ltb, ◌==◌, ◌&&◌, Bool, true, false, not, if◌then◌else◌}
use evse_test_system.Base.Int.{ltb_ℤ, pos, pos_part}
use evse_test_system.V2g.Types.{
  V2gMsgTypeId, pre_charge_msg, session_stop_msg, msg_number, V2gEvent, terminate_connection,
  send_and_terminate,
}
use evse_test_system.V2g.Tester.{BspEvent}
use evse_test_system.V2g.Iso.States.{failed}
use evse_test_system.V2g.Iso.Server.{Outcome, returned, ◌>>=◌, Server, Response, Reply, set_code}
use evse_test_system.V2g.Iso.Discovery.{RandomWords}
use evse_test_system.V2g.Iso.Charging.{handle_iso_pre_charge}
use evse_test_system.V2g.Iso.Request.{
  Request, pre_charge_req, session_stop_req, Outside, stop_session, dispatch, receive, conclude,
}
use evse_test_system.V2g.Din.Charging.{handle_din_pre_charge, handle_din_session_stop}
use evse_test_system.V2g.Din.Request.{
  DinRequest, din_pre_charge_req, din_session_stop_req, din_dispatch, din_receive, din_conclude,
}
use evse_test_system.TestCases.Common.{
  TestRun, Tested, add_error, add_report, fail_with, request_report, response_report, is_unset,
  ms_between, is_no_event, is_answered, is_let_through, conclude_tested, untouched,
}
use evse_test_system.TestCases.PreCharge.Close.{
  PreCharge, is_cp_state_b, is_precharge_running_forever,
}

-- The two readings of the clock in a handler, and the state of the control pilot that it finds.
pub record Readings : Type 0 where
  pub received_at : ℕ
  pub answered_at : ℕ
  pub cp_state : BspEvent

-- The sequence timer, from the last request before this one to its response.
unfoldable pub update_sequence_time : PreCharge → PreCharge
update_sequence_time t =
    let d = ms_between t.last_precharge_res_time t.last_precharge_req_time in
    if is_unset t.last_precharge_res_time
    then t
    else if ltb_ℤ (pos t.sequence_time) d
    then record t { sequence_time = pos_part d }
    else t

-- Before the handler of the server: `last`, the message that was handled last.
unfoldable pub begin_pre_charge : Readings → V2gMsgTypeId → PreCharge → PreCharge
unfolding update_sequence_time
begin_pre_charge clock last t =
    let started =
      if msg_number last == msg_number pre_charge_msg
      then t
      else record t { precharge_started = true; first_precharge_req_time = clock.received_at } in
    record (update_sequence_time started) { last_precharge_req_time = clock.received_at }

abbrev is_good : Reply → Bool
is_good reply = is_no_event reply.event && ltb reply.response.response_code failed

-- The judgement of the answer of the server.
unfoldable pub judge_pre_charge : PreCharge → TestRun → Reply → Tested PreCharge
judge_pre_charge t run reply =
    if is_good reply
    then if is_precharge_running_forever t.last_precharge_req_time t
      then record {
        test = record t { precharge_aborted = true };
        run = run;
        reply = record reply {
          response = set_code failed reply.response;
          event = send_and_terminate;
        };
      }
      else record { test = t; run = run; reply = reply }
    else record {
      test = record t { precharge_failed = true };
      run = add_error "Problems handling PreChargeReq" run;
      reply = reply;
    }

-- The end of the handler, where there is an answer.
unfoldable pub end_pre_charge : Readings → Tested PreCharge → Tested PreCharge
end_pre_charge clock x =
    if is_answered x.reply.event
    then record x {
      test = record x.test {
        validate_control_pilot = not (is_cp_state_b clock.cp_state);
        last_precharge_res_time = clock.answered_at;
      };
      run = add_report (response_report pre_charge_msg x.reply.response.response_code) x.run;
    }
    else x

-- The handler, around what the server answers.
unfoldable pub handle_pre_charge :
    Readings → V2gMsgTypeId → Outcome Reply → PreCharge → TestRun → Outcome (Tested PreCharge)
unfolding begin_pre_charge judge_pre_charge end_pre_charge
handle_pre_charge clock last base t run = base >>= λ reply. returned (
    end_pre_charge clock (
      judge_pre_charge (begin_pre_charge clock last t)
        (add_report (request_report pre_charge_msg) run) reply))

abbrev is_send_and_terminate : V2gEvent → Bool
is_send_and_terminate send_and_terminate = true
is_send_and_terminate _ = false

unfoldable pub handle_session_stop :
    Readings → Outcome Reply → PreCharge → TestRun → Outcome (Tested PreCharge)
handle_session_stop clock base t run =
    let requested = add_report (request_report session_stop_msg) run in
    base >>= λ reply. returned (record {
      test = record t { last_session_stop_time = clock.answered_at };
      run =
          if is_send_and_terminate reply.event
          then add_report (response_report session_stop_msg reply.response.response_code) requested
          else requested;
      reply = reply;
    })

-- The overridden handlers of the server of DIN 70121, and those that are left.
unfoldable pub din_test_dispatch :
    Readings
    → RandomWords
    → Response
    → DinRequest
    → PreCharge
    → TestRun
    → Server
    → Outcome (Tested PreCharge)
unfolding handle_pre_charge handle_session_stop handle_din_pre_charge handle_din_session_stop
    din_dispatch
din_test_dispatch clock random r (din_pre_charge_req status) t run s =
    handle_pre_charge clock s.stop.last_v2g_msg (handle_din_pre_charge status s r) t run
din_test_dispatch clock random r din_session_stop_req t run s =
    handle_session_stop clock (handle_din_session_stop s r) t run
din_test_dispatch clock random r req t run s = untouched t run (din_dispatch random r req s)

unfoldable pub iso_test_dispatch :
    Readings → Outside → Request → PreCharge → TestRun → Server → Outcome (Tested PreCharge)
unfolding handle_pre_charge handle_session_stop handle_iso_pre_charge stop_session dispatch
iso_test_dispatch clock o (pre_charge_req status) t run s =
    handle_pre_charge clock s.stop.last_v2g_msg (handle_iso_pre_charge status s o.initial) t run
iso_test_dispatch clock o (session_stop_req request) t run s =
    handle_session_stop clock (stop_session request s o.initial) t run
iso_test_dispatch clock o req t run s = untouched t run (dispatch o req s)

-- A request that is not let through, of the type `m`.
unfoldable pub refuse_request :
    V2gMsgTypeId → PreCharge → TestRun → Reply → Outcome (Tested PreCharge)
refuse_request m t run reply = returned (record {
  test = record t { received_extra_request = true };
  run = fail_with "EV sent an unexpected request" (add_report (request_report m) run);
  reply = record reply { event = terminate_connection };
})

-- `m`: the type that `find_req_message_type` finds; `id`: the session id in the header.
unfoldable pub handle_din_request_006 :
    Readings
    → RandomWords
    → Response
    → ℕ
    → V2gMsgTypeId
    → DinRequest
    → PreCharge
    → TestRun
    → Server
    → Outcome (Tested PreCharge)
unfolding din_test_dispatch din_receive din_conclude refuse_request
handle_din_request_006 clock random r id m req t run s =
    if is_let_through pre_charge_msg m
    then conclude_tested din_conclude
        (din_test_dispatch clock random r req t run (din_receive id req s))
    else refuse_request m t run (record { server = s; response = r; event = terminate_connection })

unfoldable pub handle_iso_request_006 :
    Readings
    → Outside
    → ℕ
    → V2gMsgTypeId
    → Request
    → PreCharge
    → TestRun
    → Server
    → Outcome (Tested PreCharge)
unfolding iso_test_dispatch receive conclude refuse_request
handle_iso_request_006 clock o id m req t run s =
    if is_let_through pre_charge_msg m
    then conclude_tested conclude (iso_test_dispatch clock o req t run (receive id m s))
    else refuse_request m t run
        (record { server = s; response = o.initial; event = terminate_connection })
