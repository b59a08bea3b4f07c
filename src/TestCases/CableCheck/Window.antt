-- ===== src/TestCases/CableCheck/Window.antt =====
-- modules/EvseTestV2G/testcases/chn_cable_check_006.cpp: how long a vehicle that passes has waited for the cable check.
use evse_test_system.Base.{ℕ, ◌+◌, ◌≤◌, ◌≡◌}
use evse_test_system.V2g.Types.{V2gMsgTypeId}
use evse_test_system.V2g.Tester.{BspEvent}
use evse_test_system.V2g.Iso.Server.{returned, Server, Response}
use evse_test_system.V2g.Iso.Discovery.{RandomWords}
use evse_test_system.V2g.Iso.Request.{Request, Outside}
use evse_test_system.V2g.Din.Request.{DinRequest}
use evse_test_system.TestCases.Common.{TestRun, Tested}
use evse_test_system.TestCases.PreCharge.Close.{tcp_termination_timeout}
use evse_test_system.TestCases.PreCharge.Server.{Readings}
use evse_test_system.TestCases.CableCheck.State.{
  CableCheck, initial_cable_check, cable_check_timeout, ns, on_cable_update_bsp_event,
}
use evse_test_system.TestCases.CableCheck.Close.{earliest_expired, latest_expired, next_request_due}
use evse_test_system.TestCases.CableCheck.Servers.{
  handle_din_cable_request, handle_iso_cable_request,
}
use evse_test_system.TestCases.CableCheck.Tracking.{timer_start, IsAfter}

-- What a session can do to the test case until the time `now`, where the clock does not run back: the
-- requests of both protocols on any server, and the events of the board.
pub data Session : ℕ → CableCheck → Type 0 where
  opened : Session 0 initial_cable_check
  din_requested :
      {now : ℕ} {t : CableCheck} (clock : Readings) (random : RandomWords) (r : Response) (id : ℕ)
      (m : V2gMsgTypeId) (req : DinRequest) (run : TestRun) (s : Server) (x : Tested CableCheck)
      → Session now t
      → IsAfter now clock
      → handle_din_cable_request clock random r id m req t run s ≡ returned x
      → Session clock.answered_at x.test
  iso_requested :
      {now : ℕ} {t : CableCheck} (clock : Readings) (o : Outside) (id : ℕ) (m : V2gMsgTypeId)
      (req : Request) (run : TestRun) (s : Server) (x : Tested CableCheck)
      → Session now t
      → IsAfter now clock
      → handle_iso_cable_request clock o id m req t run s ≡ returned x
      → Session clock.answered_at x.test
  signaled :
      {now : ℕ} {t : CableCheck} (event : BspEvent) (timestamp : ℕ)
      → Session now t
      → Session now (on_cable_update_bsp_event event timestamp t)

-- The vehicle waited for the cable check from the earliest possible start of its timer until the
-- timer ran out, and not much longer, each time up to the longest pause that it made.
pub record IsInWindow (t : CableCheck) : Type 0 where
  pub waited : earliest_expired t ≤ next_request_due t
  pub gave_up :
      t.last_cable_check_req_time ≤ latest_expired t + ns t.max_cable_check_sequence_duration
  pub stopped :
      t.last_cable_check_req_time
      ≤ timer_start t + ns (cable_check_timeout + tcp_termination_timeout)
  pub answered : t.last_cable_check_req_time ≤ t.last_cable_check_res_time
