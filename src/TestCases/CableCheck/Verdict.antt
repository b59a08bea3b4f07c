-- ===== src/TestCases/CableCheck/Verdict.antt =====
-- modules/EvseTestV2G/testcases/chn_cable_check_006.cpp: when `on_connection_close_event` lets a vehicle pass, and when its
-- behaviour is undefined.
use evse_test_system.Base.{
  ℕ, ◌+◌, ◌-◌, ◌/◌, ◌≤◌, ◌≡◌, ◌↔◌, leb, Bool, true, false, refl, arith, if◌then◌else◌,
}
use Prim.Native.String.{String, len, slice}
use evse_test_system.Types.{preconditions_not_met}
use evse_test_system.V2g.Iso.Server.{Outcome, returned, undefined, ◌>>=◌}
use evse_test_system.TestCases.Common.{TestRun, fail_with, nanoseconds_per_ms}
use evse_test_system.TestCases.CableCheck.State.{CableCheck, ns}
use evse_test_system.TestCases.CableCheck.Close.{
  fail_counted, earliest_expired, next_request_due, text_early, check_early, is_early,
  validate_timing, has_times, on_cable_connection_close_event,
}
use evse_test_system.TestCases.CableCheck.Judges.{
  IsPassed, IsTimely, IsStateBSeen, IsEnded, timing-Judges,
}

-- The cable check was started, nothing failed or aborted it, and the test noted no request that it
-- does not let through.
abbrev pub IsChecked : CableCheck → Type 0
IsChecked t =
    (t.cable_check_started ≡ true)
    × (t.cable_check_failed ≡ false)
    × (t.received_extra_request ≡ false)
    × (t.cable_check_aborted ≡ false)

-- For a test whose preconditions were not met so far, the end of the connection passes the
-- vehicle exactly when the cable check was started, nothing failed or aborted it, and the test
-- noted no request that it does not let through; its requests and answers have their times; the
-- last answer, with the longest pause added to it, is not before the end of the 40 seconds from
-- the earliest start of the timer, and the last request, less the pause before it, is not after
-- the end of the 40 seconds from its latest start; where the state B has to be seen, it was seen
-- at most 4.5 seconds after the last answer with the longest pause added to it; a session stop
-- came at most 5 seconds after the last request with the longest pause added to it, and at most 5
-- seconds after the end; and the end came less than 5.001 seconds after the answer to the stop,
-- or, without a stop that was answered, after the last request, again with the longest pause
-- added to it.
pub on_cable_connection_close_event-IsPassed :
    (timestamp : ℕ) (t : CableCheck) (run : TestRun)
    → run.outcome ≡ preconditions_not_met
    → IsPassed (on_cable_connection_close_event timestamp t run)
      ↔ (IsChecked t × (has_times t ≡ true) × IsTimely t × IsStateBSeen t × IsEnded timestamp t)
unfolding on_cable_connection_close_event
on_cable_connection_close_event-IsPassed timestamp t run o =
    let g = timing-Judges timestamp t run in (ground arith, ground arith)

unread :
    (b : Bool) (r : TestRun) (k : TestRun → Outcome TestRun)
    → b ≡ false
    → ((if b then returned r else undefined) >>= k) ≡ undefined
unread false r k e = refl
unread true r k e = cc

-- A number beyond the end of the text.
counted-undefined :
    (fails : Bool) (text : String) (n : ℕ) (run : TestRun) (k : TestRun → Outcome TestRun)
    → fails ≡ true
    → leb n (len text + 1) ≡ false
    → (fail_counted fails text n run >>= k) ≡ undefined
unfolding fail_counted
counted-undefined true text n run k h e =
    unread (leb n (len text + 1)) (fail_with (slice text 0 n) run) k e
counted-undefined false text n run k h e = cc

text_early-len : len text_early ≡ 90
text_early-len = refl

timing-undefined :
    (timestamp : ℕ) (t : CableCheck) (run : TestRun)
    → next_request_due t + ns 92 ≤ earliest_expired t
    → validate_timing timestamp t run ≡ undefined
unfolding validate_timing check_early
timing-undefined timestamp t run e =
    let fails : is_early t ≡ true = ground arith in
    let beyond : leb ((earliest_expired t - next_request_due t) / nanoseconds_per_ms)
          (len text_early + 1)
        ≡ false =
      ground (arith, text_early-len) in
    counted-undefined (is_early t) text_early _ run _ fails beyond

-- Where the cable check was started, nothing failed or aborted it, the test noted no request that it
-- does not let through, and its requests and answers have their times: if the vehicle gave up at
-- least 92 milliseconds before the earliest expiry of its timer, its longest pause taken into
-- account, the end of the connection has undefined behaviour, since the number of milliseconds is
-- taken as the length of the text of the error, which is shorter.
pub early_end-undefined :
    (timestamp : ℕ) (t : CableCheck) (run : TestRun)
    → IsChecked t
    → has_times t ≡ true
    → next_request_due t + ns 92 ≤ earliest_expired t
    → on_cable_connection_close_event timestamp t run ≡ undefined
unfolding on_cable_connection_close_event
early_end-undefined timestamp t run c n e =
    let u = timing-undefined timestamp t run e in ground arith
