-- ===== src/TestCases/Timeout/Silence.antt =====
-- modules/EvseTestV2G/testcases/chn_session_setup_004.cpp and chn_current_demand_005.cpp: a session that consists of the request
-- without an answer and the end of the connection, and one that goes on after the request.
use evse_test_system.Base.{
  ℕ, ◌+◌, ◌*◌, ◌≤◌, ◌<◌, ◌≡◌, ◌≢◌, ◌↔◌, true, false, Bool, if◌then◌else◌, arith, refl,
}
use mathlib.Core.Path.{subst}
use evse_test_system.Types.{preconditions_not_met, pass_criteria_met, pass_criteria_not_met}
use evse_test_system.V2g.Types.{V2gMsgTypeId, no_event, ignore_msg, terminate_connection}
use evse_test_system.V2g.Tester.{b}
use evse_test_system.V2g.Iso.States.{failed}
use evse_test_system.V2g.Iso.Server.{Outcome, returned, Server, Response, Reply}
use evse_test_system.V2g.Iso.Discovery.{RandomWords}
use evse_test_system.V2g.Iso.Answers.{returned_inj}
use evse_test_system.V2g.Din.Request.{DinRequest, din_receive, din_conclude}
use evse_test_system.TestCases.Common.{
  TestRun, Tested, nanoseconds_per_ms, is_stop, conclude_tested, fail_with, add_report,
  request_report,
}
use evse_test_system.TestCases.PreCharge.Close.{tcp_termination_timeout}
use evse_test_system.TestCases.PreCharge.Server.{Readings}
use evse_test_system.TestCases.Timeout.Close.{
  TimedTest, current_demand_005, message_timeout, Timed, initial_timed,
  on_timed_connection_close_event,
}
use evse_test_system.TestCases.Timeout.Handlers.{
  begin_timed, judge_timed, handle_timed, refuse_timed,
}
use evse_test_system.TestCases.Timeout.Servers.{
  is_let_through_005, din_dispatch_005, handle_din_request_005,
}
use evse_test_system.TestCases.Timeout.Verdict.{on_timed_connection_close_event-IsGivenUp}

-- The request gets no answer, and the end of the connection passes the vehicle exactly when it comes
-- after the message timer and in time.
abbrev pub IsSilent : Readings → TimedTest → ℕ → Tested Timed → Type 0
IsSilent clock test timestamp x =
    (x.reply.event ≡ ignore_msg)
    × (((on_timed_connection_close_event test timestamp x.test x.run).outcome ≡ pass_criteria_met)
        ↔ ((clock.received_at + message_timeout test * nanoseconds_per_ms ≤ timestamp)
            × (timestamp
                < clock.received_at
                  + (message_timeout test + tcp_termination_timeout + 1) * nanoseconds_per_ms)))

judged-IsSilent :
    (clock : Readings) (test : TimedTest) (m : V2gMsgTypeId) (reply : Reply) (run : TestRun)
    (timestamp : ℕ)
    → reply.event ≡ no_event
    → reply.response.response_code < failed
    → clock.cp_state ≡ b
    → clock.received_at ≢ 0
    → run.outcome ≡ preconditions_not_met
    → IsSilent clock test timestamp
        (judge_timed clock test m (begin_timed clock initial_timed) run reply)
unfolding judge_timed begin_timed
judged-IsSilent clock test m reply run timestamp e c s n o =
    let x = judge_timed clock test m (begin_timed clock initial_timed) run reply in
    let g = on_timed_connection_close_event-IsGivenUp test timestamp x.test x.run in
    (ground arith, (ground arith, ground arith))

-- From the start of a test of a message timeout whose preconditions were not met so far, a
-- request that the server would answer well, at a time that is not zero and in the state B, gets
-- no answer, and a vehicle that then only ends the connection passes exactly when it does so
-- after the message timer and at most `par_CMN_TCP_Connection_Termination_Timeout`, in whole
-- milliseconds, after that.
pub handle_timed-IsSilent :
    (clock : Readings) (test : TimedTest) (m : V2gMsgTypeId) (reply : Reply) (run : TestRun)
    (timestamp : ℕ) (x : Tested Timed)
    → reply.event ≡ no_event
    → reply.response.response_code < failed
    → clock.cp_state ≡ b
    → clock.received_at ≢ 0
    → run.outcome ≡ preconditions_not_met
    → handle_timed clock test m (returned reply) initial_timed run ≡ returned x
    → IsSilent clock test timestamp x
unfolding handle_timed
handle_timed-IsSilent clock test m reply run timestamp x e c s n o h =
    subst (IsSilent clock test timestamp) (returned_inj h)
      (judged-IsSilent clock test m reply (add_report (request_report m) run) timestamp e c s n o)

-- The session ends, the server has not seen the request, and the vehicle fails.
abbrev pub FailsWhenClosed : Server → Tested Timed → Type 0
FailsWhenClosed s x =
    (x.reply.event ≡ terminate_connection)
    × (x.reply.server ≡ s)
    × ((timestamp : ℕ)
        → (on_timed_connection_close_event current_demand_005 timestamp x.test x.run).outcome
          ≡ pass_criteria_not_met)

refused-FailsWhenClosed :
    (m : V2gMsgTypeId) (t : Timed) (run : TestRun) (s : Server) (r : Response)
    → t.request_received ≡ true
    → t.request_failed ≡ false
    → (x : Tested Timed)
    → refuse_timed m t run (record { server = s; response = r; event = terminate_connection })
      ≡ returned x
    → FailsWhenClosed s x
unfolding refuse_timed on_timed_connection_close_event
refused-FailsWhenClosed m t run s r a f x h =
    let closed : FailsWhenClosed s (record {
      test = record t { received_extra_request = true };
      run = fail_with "EV sent an unexpected request" (add_report (request_report m) run);
      reply = record { server = s; response = r; event = terminate_connection };
    }) =
      (refl, refl, λ timestamp. ground arith) in
    subst (FailsWhenClosed s) (returned_inj h) closed

refuses-FailsWhenClosed :
    (through : Bool) (o : Outcome (Tested Timed)) (m : V2gMsgTypeId) (t : Timed) (run : TestRun)
    (s : Server) (r : Response) (x : Tested Timed)
    → (if through
        then o
        else refuse_timed m t run
            (record { server = s; response = r; event = terminate_connection }))
      ≡ returned x
    → through ≡ false
    → t.request_received ≡ true
    → t.request_failed ≡ false
    → FailsWhenClosed s x
refuses-FailsWhenClosed false o m t run s r x h n a f = refused-FailsWhenClosed m t run s r a f x h
refuses-FailsWhenClosed true o m t run s r x h n a f = cc

-- After a current demand without a problem, every request of DIN 70121 but a session stop ends
-- the session without reaching the server, and fails the vehicle whenever the connection is
-- closed after it.
pub extra_request-FailsWhenClosed :
    (clock : Readings) (random : RandomWords) (r : Response) (id : ℕ) (m : V2gMsgTypeId)
    (req : DinRequest) (t : Timed) (run : TestRun) (s : Server) (x : Tested Timed)
    → t.request_received ≡ true
    → t.request_failed ≡ false
    → is_stop m ≡ false
    → handle_din_request_005 clock random r id m req t run s ≡ returned x
    → FailsWhenClosed s x
unfolding handle_din_request_005
extra_request-FailsWhenClosed clock random r id m req t run s x a f n h =
    let refused : is_let_through_005 t m ≡ false = ground arith in
    refuses-FailsWhenClosed (is_let_through_005 t m)
      (conclude_tested din_conclude
        (din_dispatch_005 clock random r req t run (din_receive id req s)))
      m t run s r x h refused a f
