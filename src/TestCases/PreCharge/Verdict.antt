-- ===== src/TestCases/PreCharge/Verdict.antt =====
-- modules/EvseTestV2G/testcases/chn_precharge_006.cpp: when `on_connection_close_event` lets a vehicle pass.
use evse_test_system.Base.{ℕ, ◌+◌, ◌*◌, ◌≤◌, ◌<◌, ◌≡◌, ◌≢◌, ◌⊎◌, ◌↔◌, true, false, arith}
use evse_test_system.Base.Int.{◌+ℤ◌}
use evse_test_system.Types.{preconditions_not_met, pass_criteria_met}
use evse_test_system.TestCases.Common.{TestRun, nanoseconds_per_ms}
use evse_test_system.TestCases.PreCharge.Close.{
  PreCharge, precharge_timeout, state_b_shutdown_timeout, tcp_termination_timeout, tcp_close_start,
  validate_state_b, close_connection, validate_shutdown, on_connection_close_event,
}

-- The pre-charge was reached and handled without a problem.
pub record IsCarriedOut (t : PreCharge) : Type 0 where
  pub was_started : t.precharge_started ≡ true
  pub not_failed : t.precharge_failed ≡ false
  pub not_aborted : t.precharge_aborted ≡ false
  pub no_extra : t.received_extra_request ≡ false
  pub first_set : t.first_precharge_req_time ≢ 0
  pub request_set : t.last_precharge_req_time ≢ 0
  pub response_set : t.last_precharge_res_time ≢ 0

-- The last request came within the timeout, and at most the longest pause before its end.
abbrev pub IsPunctual : PreCharge → Type 0
IsPunctual t =
    (t.last_precharge_req_time
      ≤ t.first_precharge_req_time + precharge_timeout * nanoseconds_per_ms)
    × (t.first_precharge_req_time + precharge_timeout * nanoseconds_per_ms
        ≤ t.last_precharge_req_time + t.sequence_time * nanoseconds_per_ms)

-- The session stop, the state B and the end of the connection came in time.
abbrev pub IsShutDown : ℕ → PreCharge → Type 0
IsShutDown timestamp t =
    (t.last_session_stop_time
      ≤ t.last_precharge_res_time + tcp_termination_timeout * nanoseconds_per_ms)
    × ((t.validate_control_pilot ≡ false)
        ⊎ ((t.last_precharge_res_time ≤ t.cp_state_b_time)
            × (t.cp_state_b_time
                < t.last_precharge_res_time + (state_b_shutdown_timeout + 1) * nanoseconds_per_ms)))
    × (timestamp < tcp_close_start t + (tcp_termination_timeout + 1) * nanoseconds_per_ms)

shutdown_passes_iff :
    (timestamp : ℕ) (t : PreCharge) (run : TestRun)
    → run.outcome ≡ preconditions_not_met
    → ((validate_shutdown timestamp t run).outcome ≡ pass_criteria_met) ↔ IsShutDown timestamp t
unfolding validate_shutdown validate_state_b close_connection
shutdown_passes_iff timestamp t run o = (ground arith, ground arith)

-- The checks that end the validation let it go on.
proceeds_iff :
    (timestamp : ℕ) (t : PreCharge) (run : TestRun)
    → run.outcome ≡ preconditions_not_met
    → t.first_precharge_req_time ≤ t.last_precharge_req_time
    → ((on_connection_close_event timestamp t run).outcome ≡ pass_criteria_met) ↔ (
        IsCarriedOut t
        × IsPunctual t
        × ((validate_shutdown timestamp t run).outcome ≡ pass_criteria_met))
unfolding on_connection_close_event ◌+ℤ◌
proceeds_iff timestamp t run o h = (ground arith, ground arith)

-- For a test whose preconditions were not met so far and whose last request is not before its
-- first one, the end of the connection passes the vehicle exactly when the pre-charge was
-- carried out without a problem, its last request came within the timeout and at most the
-- longest pause before its end, and the session stop, the state B and the end of the connection
-- came in time.
pub on_connection_close_event-passes_iff :
    (timestamp : ℕ) (t : PreCharge) (run : TestRun)
    → run.outcome ≡ preconditions_not_met
    → t.first_precharge_req_time ≤ t.last_precharge_req_time
    → ((on_connection_close_event timestamp t run).outcome ≡ pass_criteria_met)
      ↔ (IsCarriedOut t × IsPunctual t × IsShutDown timestamp t)
on_connection_close_event-passes_iff timestamp t run o h =
    let proceeds = proceeds_iff timestamp t run o h in
    let shut_down = shutdown_passes_iff timestamp t run o in
    (
      λ e. let p = proceeds.0 e in (p.0, p.1, shut_down.0 p.2),
      λ p. proceeds.1 (p.0, p.1, shut_down.1 p.2),
    )
