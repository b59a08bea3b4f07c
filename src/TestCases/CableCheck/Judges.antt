-- ===== src/TestCases/CableCheck/Judges.antt =====
-- modules/EvseTestV2G/testcases/chn_cable_check_006.cpp: which vehicles each check at the end of the connection lets pass.
use evse_test_system.Base.{
  ℕ, ◌+◌, ◌≤◌, ◌<◌, ◌≡◌, ◌≢◌, ◌⊎◌, inl, inr, ◌↔◌, leb, not, Bool, true, false, Option, none, some,
  refl, arith, if◌then◌else◌,
}
use evse_test_system.Base.Int.{pos_part, neg_part, ◌-ℤ◌, ◌*ℤ◌}
use Prim.Native.String.{String, len, slice}
use evse_test_system.Types.{TestOutcome, pass_criteria_met, pass_criteria_not_met}
use evse_test_system.V2g.Iso.Server.{Outcome, returned, undefined, ◌>>=◌}
use evse_test_system.TestCases.Common.{
  TestRun, add_report, fail_with, pass_unless_failed, state_b_report, connection_closed_report,
  is_unset,
}
use evse_test_system.TestCases.CableCheck.State.{CableCheck, ns}
use evse_test_system.TestCases.CableCheck.Close.{
  fail_counted, text_early, text_late, text_state_b, text_stop, text_close, check_early,
  last_request_start, check_late, check_state_b, is_early, is_late, is_late_state_b, is_late_stop,
  is_late_close, check_stop, check_close, validate_timing,
}

abbrev pub outcome_of : Outcome TestRun → Option TestOutcome
outcome_of (returned run) = some run.outcome
outcome_of _ = none

-- The event is handled, and the vehicle passes.
abbrev pub IsPassed : Outcome TestRun → Type 0
IsPassed o = outcome_of o ≡ some pass_criteria_met

-- The rest `k` of the handler passes a vehicle that has not failed before exactly where `P` holds.
abbrev Judges : (TestRun → Outcome TestRun) → Type 0 → Type 0
Judges k P = (run : TestRun) → IsPassed (k run) ↔ ((run.outcome ≢ pass_criteria_not_met) × P)

failed-Judges :
    (b : Bool) (failure : TestRun) (k : TestRun → Outcome TestRun) (P : Type 0)
    → Judges k P
    → failure.outcome ≡ pass_criteria_not_met
    → ¬ IsPassed ((if b then returned failure else undefined) >>= k)
failed-Judges true failure k P j o h = let g = (j failure).0 h in g.0 o
failed-Judges false failure k P j o h = cc

counted-Judges :
    (fails : Bool) (text : String) (n : ℕ) (k : TestRun → Outcome TestRun) (P : Type 0)
    → Judges k P
    → Judges (λ run. fail_counted fails text n run >>= k) ((fails ≡ false) × P)
unfolding fail_counted
counted-Judges true text n k P j run = (
  λ h. absurd (failed-Judges (leb n (len text + 1)) (fail_with (slice text 0 n) run) k P j refl h),
  λ h. cc,
)
counted-Judges false text n k P j run =
    (λ h. let g = (j run).0 h in (g.0, (refl, g.1)), λ h. (j run).1 (h.0, h.1.1))

optional-Judges :
    (validates unset late : Bool) (e text : String) (n : ℕ) (k : TestRun → Outcome TestRun)
    (P : Type 0)
    → Judges k P
    → Judges
        (λ run.
          (if not validates
            then returned run
            else if unset
            then returned (fail_with e run)
            else fail_counted late text n (add_report state_b_report run))
          >>= k)
        (((validates ≡ false) ⊎ ((unset ≡ false) × (late ≡ false))) × P)
unfolding fail_counted
optional-Judges false unset late e text n k P j run =
    (λ h. let g = (j run).0 h in (g.0, (inl refl, g.1)), λ h. (j run).1 (h.0, h.1.1))
optional-Judges true true late e text n k P j run =
    (λ h. absurd (((j (fail_with e run)).0 h).0 refl), λ h. ground arith)
optional-Judges true false late e text n k P j run =
    let c = counted-Judges late text n k P j (add_report state_b_report run) in
    (λ h. let g = c.0 h in (g.0, (inr (refl, g.1.0), g.1.1)), λ h. c.1 (h.0, (ground arith, h.1.1)))

last-Judges :
    (late : Bool) (text : String) (n : ℕ) (run : TestRun)
    → IsPassed (
        fail_counted late text n
          (add_report connection_closed_report (if late then run else pass_unless_failed run)))
      ↔ ((run.outcome ≢ pass_criteria_not_met) × (late ≡ false))
unfolding fail_counted
last-Judges false text n run = (ground arith, ground arith)
last-Judges true text n run = (ground arith, ground arith)

-- The last answer, with the longest pause added to it, is not before the end of the 40 seconds
-- from the earliest start of the timer, and the last request, less the pause before it, is not
-- after the end of the 40 seconds from its latest start.
abbrev pub IsTimely : CableCheck → Type 0
IsTimely t =
    (t.earliest_cable_check_timer_start + ns 40000
      ≤ t.last_cable_check_res_time + ns t.max_cable_check_sequence_duration)
    × (t.last_cable_check_req_time + ns (neg_part t.last_cable_check_sequence_duration)
        ≤ t.latest_cable_check_timer_start
          + ns 40000
          + ns (pos_part t.last_cable_check_sequence_duration))

-- The state B where it has to be seen: at most 4.5 seconds after the last answer with the longest
-- pause added to it.
abbrev pub IsStateBSeen : CableCheck → Type 0
IsStateBSeen t =
    (t.validate_control_pilot ≡ false)
    ⊎ ((t.cp_state_b_time ≢ 0)
        × (t.cp_state_b_time
            ≤ t.last_cable_check_res_time + ns t.max_cable_check_sequence_duration + ns 4500))

-- A session stop came at most 5 seconds after the last request with the longest pause added to it,
-- and at most 5 seconds after the end; and the end came less than 5.001 seconds after the answer to
-- the stop, with the longest pause added to it, or, without a stop that was answered, after the last
-- request in the same way.
abbrev pub IsEnded : ℕ → CableCheck → Type 0
IsEnded timestamp t =
    ((t.last_session_stop_req_time ≡ 0)
      ⊎ ((t.last_session_stop_req_time ≤ timestamp + ns 5000)
          × (t.last_session_stop_req_time
              ≤ t.last_cable_check_req_time + ns t.max_cable_check_sequence_duration + ns 5000)))
    × ((((t.last_session_stop_req_time ≡ 0) ⊎ (t.last_session_stop_res_time ≡ 0))
          × (timestamp
              < t.last_cable_check_req_time + ns t.max_cable_check_sequence_duration + ns 5001))
        ⊎ ((t.last_session_stop_req_time ≢ 0)
            × (t.last_session_stop_res_time ≢ 0)
            × (timestamp
                < t.last_session_stop_res_time + ns t.max_cable_check_sequence_duration + ns 5001)))

-- The checks that pass a vehicle, one after the other.
stop-Judges :
    (timestamp : ℕ) (t : CableCheck)
    → Judges
        (λ r. check_stop timestamp t r >>= check_close timestamp t)
        ((is_late_stop timestamp t ≡ false) × (is_late_close timestamp t ≡ false))
unfolding check_stop check_close
stop-Judges timestamp t =
    counted-Judges (is_late_stop timestamp t) text_stop _ (check_close timestamp t)
      (is_late_close timestamp t ≡ false)
      (λ r. last-Judges (is_late_close timestamp t) text_close _ r)

state_b-Judges :
    (t : CableCheck) (k : TestRun → Outcome TestRun) (P : Type 0)
    → Judges k P
    → Judges
        (λ r. check_state_b t r >>= k)
        (((t.validate_control_pilot ≡ false)
            ⊎ ((is_unset t.cp_state_b_time ≡ false) × (is_late_state_b t ≡ false)))
          × P)
unfolding check_state_b
state_b-Judges t k P j =
    optional-Judges t.validate_control_pilot (is_unset t.cp_state_b_time) (is_late_state_b t) _
      text_state_b _ k P j

late-Judges :
    (t : CableCheck) (k : TestRun → Outcome TestRun) (P : Type 0)
    → Judges k P
    → Judges (λ r. check_late t r >>= k) ((is_late t ≡ false) × P)
unfolding check_late
late-Judges t k P j = counted-Judges (is_late t) text_late _ k P j

early-Judges :
    (t : CableCheck) (k : TestRun → Outcome TestRun) (P : Type 0)
    → Judges k P
    → Judges (λ r. check_early t r >>= k) ((is_early t ≡ false) × P)
unfolding check_early
early-Judges t k P j = counted-Judges (is_early t) text_early _ k P j

IsTimely-iff : (t : CableCheck) → ((is_early t ≡ false) × (is_late t ≡ false)) ↔ IsTimely t
unfolding last_request_start ◌-ℤ◌ ◌*ℤ◌
IsTimely-iff t = (ground arith, ground arith)

IsStateBSeen-iff :
    (t : CableCheck)
    → ((t.validate_control_pilot ≡ false)
        ⊎ ((is_unset t.cp_state_b_time ≡ false) × (is_late_state_b t ≡ false)))
      ↔ IsStateBSeen t
IsStateBSeen-iff t = (ground arith, ground arith)

IsEnded-iff :
    (timestamp : ℕ) (t : CableCheck)
    → ((is_late_stop timestamp t ≡ false) × (is_late_close timestamp t ≡ false))
      ↔ IsEnded timestamp t
IsEnded-iff timestamp t = (ground arith, ground arith)

pub timing-Judges :
    (timestamp : ℕ) (t : CableCheck) (run : TestRun)
    → IsPassed (validate_timing timestamp t run)
      ↔ ((run.outcome ≢ pass_criteria_not_met) × IsTimely t × IsStateBSeen t × IsEnded timestamp t)
unfolding validate_timing
timing-Judges timestamp t run =
    let j =
      early-Judges t _ _ (late-Judges t _ _ (state_b-Judges t _ _ (stop-Judges timestamp t))) run in
    let timely = IsTimely-iff t in
    let seen = IsStateBSeen-iff t in
    let ended = IsEnded-iff timestamp t in
    (
      λ h. let (o, (e, (l, (b, c)))) = j.0 h in (o, timely.0 (e, l), seen.0 b, ended.0 c),
      λ h. let w = timely.1 h.1 in j.1 (h.0, (w.0, (w.1, (seen.1 h.2, ended.1 h.3)))),
    )
