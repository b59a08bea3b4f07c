-- ===== src/TestCases/PreCharge/Exact.antt =====
-- modules/EvseTestV2G/testcases/chn_precharge_006.cpp: what a session has to be like for a vehicle to pass.
use evse_test_system.Base.{ℕ, ◌≤◌, ◌≡◌}
use evse_test_system.V2g.Types.{V2gMsgTypeId}
use evse_test_system.V2g.Tester.{BspEvent}
use evse_test_system.V2g.Iso.Server.{returned, Server, Response}
use evse_test_system.V2g.Iso.Discovery.{RandomWords}
use evse_test_system.V2g.Iso.Request.{Request, Outside}
use evse_test_system.V2g.Din.Request.{DinRequest}
use evse_test_system.TestCases.Common.{TestRun, Tested}
use evse_test_system.TestCases.PreCharge.Close.{PreCharge, initial_pre_charge, on_update_bsp_event}
use evse_test_system.TestCases.PreCharge.Server.{
  Readings, handle_din_request_006, handle_iso_request_006,
}

-- What a session can do to the test case, where the clock does not run back within a request: the
-- requests of both protocols on any server, and the events of the board.
pub data Session : PreCharge → Type 0 where
  opened : Session initial_pre_charge
  din_requested :
      {t : PreCharge} (clock : Readings) (random : RandomWords) (r : Response) (id : ℕ)
      (m : V2gMsgTypeId) (req : DinRequest) (run : TestRun) (s : Server) (x : Tested PreCharge)
      → Session t
      → clock.received_at ≤ clock.answered_at
      → handle_din_request_006 clock random r id m req t run s ≡ returned x
      → Session x.test
  iso_requested :
      {t : PreCharge} (clock : Readings) (o : Outside) (id : ℕ) (m : V2gMsgTypeId) (req : Request)
      (run : TestRun) (s : Server) (x : Tested PreCharge)
      → Session t
      → clock.received_at ≤ clock.answered_at
      → handle_iso_request_006 clock o id m req t run s ≡ returned x
      → Session x.test
  signaled :
      {t : PreCharge} (event : BspEvent) (timestamp : ℕ)
      → Session t
      → Session (on_update_bsp_event event timestamp t)
