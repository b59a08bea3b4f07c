-- ===== src/TestCases/CableCheck/Answered.antt =====
-- modules/EvseTestV2G/testcases/chn_cable_check_006.cpp: no request of a cable check lets the vehicle go on.
use mathlib.Core.Path.{subst}
use evse_test_system.Base.{ℕ, ◌≡◌, ap, ◌∙◌, refl, true, false, not, arith}
use evse_test_system.V2g.Types.{cable_check_msg}
use evse_test_system.V2g.Iso.StateIds.{wait_for_cable_check}
use evse_test_system.V2g.Iso.Server.{
  Outcome, returned, unfinished, undefined, DcEvStatus, Server, Response, Reply,
}
use evse_test_system.V2g.Iso.Discovery.{RandomWords}
use evse_test_system.V2g.Iso.Charging.{handle_iso_cable_check}
use evse_test_system.V2g.Iso.Request.{cable_check_req, Outside, receive, conclude}
use evse_test_system.V2g.Iso.Answers.{returned_inj}
use evse_test_system.V2g.Iso.Delivery.{bind_inv}
use evse_test_system.V2g.Din.StateIds.{din_wait_for_cable_check}
use evse_test_system.V2g.Din.Charging.{handle_din_cable_check}
use evse_test_system.V2g.Din.Request.{din_cable_check_req, din_receive, din_conclude}
use evse_test_system.TestCases.Common.{TestRun, Tested, add_error, conclude_tested, branches}
use evse_test_system.TestCases.PreCharge.Server.{Readings}
use evse_test_system.TestCases.Timeout.Servers.{stop_hlc}
use evse_test_system.TestCases.CableCheck.State.{CableCheck}
use evse_test_system.TestCases.CableCheck.Servers.{
  din_cable_dispatch, iso_cable_dispatch, handle_din_cable_request, handle_iso_cable_request,
}
use evse_test_system.TestCases.CableCheck.Holding.{
  IsHeld, handled-IsHeld, din_cable_check-Waits, iso_cable_check-Waits,
}

-- What `f` leaves of a reply.
abbrev Keeps : (Reply → Outcome Reply) → Type 0
Keeps f =
    (a b : Reply)
    → f a ≡ returned b
    → (a.event ≡ b.event)
      × (a.response ≡ b.response)
      × (a.server.stop.iso.state ≡ b.server.stop.iso.state)

din_conclude-Keeps : Keeps din_conclude
unfolding din_conclude
din_conclude-Keeps a b h = ground arith

conclude-Keeps : Keeps conclude
unfolding conclude
conclude-Keeps a b h = ground arith

concluded-IsHeld :
    (n : ℕ) (clock : Readings) (f : Reply → Outcome Reply) (o : Outcome (Tested CableCheck))
    (x : Tested CableCheck)
    → conclude_tested f o ≡ returned x
    → Keeps f
    → ((y : Tested CableCheck)
        → o ≡ returned y
        → y.test.cable_check_failed ≡ false
        → IsHeld n clock y)
    → x.test.cable_check_failed ≡ false
    → IsHeld n clock x
concluded-IsHeld n clock f (returned y) x h k held e =
    let (reply, g, h1) =
      bind_inv {A = Reply} (f y.reply) (λ reply. returned (record y { reply = reply })) h in
    let same = returned_inj h1 in
    let kept = k y.reply reply g in
    let y_held = held y refl (ap (λ z. z.test.cable_check_failed) same ∙ e) in
    subst (IsHeld n clock) {x = record y { reply = reply }} {y = x} same (ground arith)
concluded-IsHeld n clock f unfinished x h k held e = cc
concluded-IsHeld n clock f undefined x h k held e = cc

din_dispatched-IsHeld :
    (clock : Readings) (random : RandomWords) (r : Response) (status : DcEvStatus) (t : CableCheck)
    (run : TestRun) (s : Server) (x : Tested CableCheck)
    → din_cable_dispatch clock random r (din_cable_check_req status) t run s ≡ returned x
    → x.test.cable_check_failed ≡ false
    → IsHeld din_wait_for_cable_check clock x
unfolding din_cable_dispatch
din_dispatched-IsHeld clock random r status t run s x h =
    handled-IsHeld din_wait_for_cable_check clock s.stop.last_v2g_msg
      (handle_din_cable_check status s r) t run x h (din_cable_check-Waits status s r)

iso_dispatched-IsHeld :
    (clock : Readings) (o : Outside) (status : DcEvStatus) (t : CableCheck) (run : TestRun)
    (s : Server) (x : Tested CableCheck)
    → iso_cable_dispatch clock o (cable_check_req status) t run s ≡ returned x
    → x.test.cable_check_failed ≡ false
    → IsHeld wait_for_cable_check clock x
unfolding iso_cable_dispatch
iso_dispatched-IsHeld clock o status t run s x h =
    handled-IsHeld wait_for_cable_check clock s.stop.last_v2g_msg
      (handle_iso_cable_check status s o.initial) t run x h
      (iso_cable_check-Waits status s o.initial)

-- An answered request for a cable check, of either protocol; `n` is the number of the state in which
-- its server waits for one.
pub data Answered (clock : Readings) (n : ℕ) (x : Tested CableCheck) : Type 0 where
  din_answered :
      (random : RandomWords) (r : Response) (id : ℕ) (status : DcEvStatus) (t : CableCheck)
      (run : TestRun) (s : Server)
      → n ≡ din_wait_for_cable_check
      → handle_din_cable_request clock random r id cable_check_msg
          (din_cable_check_req status)
          t
          run
          s
        ≡ returned x
      → Answered clock n x
  iso_answered :
      (o : Outside) (id : ℕ) (status : DcEvStatus) (t : CableCheck) (run : TestRun) (s : Server)
      → n ≡ wait_for_cable_check
      → handle_iso_cable_request clock o id cable_check_msg (cable_check_req status) t run s
        ≡ returned x
      → Answered clock n x

din_request-IsHeld :
    (clock : Readings) (random : RandomWords) (r : Response) (id : ℕ) (status : DcEvStatus)
    (t : CableCheck) (run : TestRun) (s : Server) (x : Tested CableCheck)
    → handle_din_cable_request clock random r id cable_check_msg
        (din_cable_check_req status)
        t
        run
        s
      ≡ returned x
    → x.test.cable_check_failed ≡ false
    → IsHeld din_wait_for_cable_check clock x
unfolding handle_din_cable_request
din_request-IsHeld clock random r id status t run s x h =
    let received = din_receive id (din_cable_check_req status) s in
    concluded-IsHeld din_wait_for_cable_check clock din_conclude
      (din_cable_dispatch clock random r (din_cable_check_req status) t run received) x h
      din_conclude-Keeps (din_dispatched-IsHeld clock random r status t run received)

iso_request-IsHeld :
    (clock : Readings) (o : Outside) (id : ℕ) (status : DcEvStatus) (t : CableCheck) (run : TestRun)
    (s : Server) (x : Tested CableCheck)
    → handle_iso_cable_request clock o id cable_check_msg (cable_check_req status) t run s
      ≡ returned x
    → x.test.cable_check_failed ≡ false
    → IsHeld wait_for_cable_check clock x
unfolding handle_iso_cable_request
iso_request-IsHeld clock o id status t run s x h =
    let goal = x.test.cable_check_failed ≡ false → IsHeld wait_for_cable_check clock x in
    let extra = record t { received_extra_request = true } in
    let errors = add_error "AC charger does not support DC-only test" run in
    let passed = λ (u : CableCheck) (r : TestRun) (v : Server).
      λ (e : conclude_tested conclude (iso_cable_dispatch clock o (cable_check_req status) u r v)
          ≡ returned x).
        concluded-IsHeld wait_for_cable_check clock conclude
          (iso_cable_dispatch clock o (cable_check_req status) u r v) x e conclude-Keeps
          (iso_dispatched-IsHeld clock o status u r v) in
    branches (not s.stop.iso.is_dc_charger) _ _ x goal h
      (λ ac.
        branches t.received_extra_request _ _ x goal ac
          (passed t run (receive id cable_check_msg s))
          (passed extra errors (receive id cable_check_msg (stop_hlc s))))
      (passed t run (receive id cable_check_msg s))

-- Every answered request for a cable check, of either protocol and on any server, after which the
-- test has not failed: the vehicle gets a response, and it is not that the cable check has
-- finished; the server waits for the next cable check; and the test has the times of the request
-- and of the response, and whether the control pilot still has to change to the state B.
pub cable_check-IsHeld :
    {clock : Readings} {n : ℕ} {x : Tested CableCheck}
    → Answered clock n x
    → x.test.cable_check_failed ≡ false
    → IsHeld n clock x
cable_check-IsHeld {clock} {n} {x} (din_answered random r id status t run s e h) f =
    rw e (din_request-IsHeld clock random r id status t run s x h f)
cable_check-IsHeld {clock} {n} {x} (iso_answered o id status t run s e h) f =
    rw e (iso_request-IsHeld clock o id status t run s x h f)
