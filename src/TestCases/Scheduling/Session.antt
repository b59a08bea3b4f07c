-- ===== src/TestCases/Scheduling/Session.antt =====
-- modules/EvseTestV2G/testcases/chx_smart_charging_scheduling_base.cpp: sessions of a test case on any answers of a
-- server, and their verdict.
use mathlib.Core.Path.{subst}
use evse_test_system.Base.{
  ℕ, ◌-◌, ◌≡◌, ap, refl, true, false, Bool, Option, none, some, List, [], ◌∷◌, arith, if◌then◌else◌,
}
use evse_test_system.Base.Int.{ℤ}
use evse_test_system.V2g.Types.{V2gEvent}
use evse_test_system.V2g.Iso.States.{IsoContext}
use evse_test_system.V2g.Iso.Server.{Outcome, returned, Reply, DcEvStatus}
use evse_test_system.V2g.Iso.Answers.{returned_inj}
use evse_test_system.V2g.Iso.Delivery.{bind_inv}
use evse_test_system.TestCases.Common.{TestRun, Tested}
use evse_test_system.TestCases.Scheduling.Schedule.{PmaxLimits, Judgement, judge_dc}
use evse_test_system.TestCases.Scheduling.State.{
  Scheduling, initial_scheduling, on_powermeter_event,
}
use evse_test_system.TestCases.Scheduling.Handlers.{
  is_good, is_changed, note_demand, see_demand, judge_demand, judge_reading, end_demand,
  send_schedule, handle_charge_parameter, handle_power_delivery, handle_current_demand,
  handle_charging_status, handle_scheduling_stop,
}
use evse_test_system.TestCases.Scheduling.Tracking.{
  IsTracked, judge_demand-IsTracked, judge_reading-IsTracked, reading_judgements,
}

-- A session of a test case with the judgements of its requests, the last one first: the requests that
-- the test case handles on any answers of a server, and the readings of the power meter.
pub data Session : List Judgement → Scheduling → Type 0 where
  opened : Session [] initial_scheduling
  parameters_sent :
      {js : List Judgement} {t : Scheduling} (validate : IsoContext → ℕ → Option (ℕ × V2gEvent))
      (now : ℕ) (limits : Option PmaxLimits) (base : Outcome Reply) (run : TestRun)
      (x : Tested Scheduling)
      → Session js t
      → handle_charge_parameter validate now limits base t run ≡ returned x
      → Session js x.test
  delivered :
      {js : List Judgement} {t : Scheduling} (now : ℕ) (starts : Bool) (base : Outcome Reply)
      (run : TestRun) (x : Tested Scheduling)
      → Session js t
      → handle_power_delivery now starts base t run ≡ returned x
      → Session js x.test
  demanded :
      {js : List Judgement} {t : Scheduling} (now : ℕ) (power : ℤ) (status : DcEvStatus)
      (reply : Reply) (run : TestRun) (x : Tested Scheduling)
      → Session js t
      → handle_current_demand now power status (returned reply) t run ≡ returned x
      → Session
          (if is_good reply then judge_dc power (now - t.schedule_start_time) t.limits ∷ js else js)
          x.test
  charging :
      {js : List Judgement} {t : Scheduling} (now : ℕ) (reply : Reply) (run : TestRun)
      (x : Tested Scheduling)
      → Session js t
      → handle_charging_status now (returned reply) t run ≡ returned x
      → Session (if is_good reply then reading_judgements t.power_reading now t js else js) x.test
  stopped :
      {js : List Judgement} {t : Scheduling} (base : Outcome Reply) (run : TestRun)
      (x : Tested Scheduling)
      → Session js t
      → handle_scheduling_stop base t run ≡ returned x
      → Session js x.test
  metered :
      {js : List Judgement} {t : Scheduling} (power : Option ℤ)
      → Session js t
      → Session js (on_powermeter_event power t)

parameters-IsTracked :
    (validate : IsoContext → ℕ → Option (ℕ × V2gEvent)) (now : ℕ) (limits : Option PmaxLimits)
    (base : Outcome Reply) (js : List Judgement) (t : Scheduling) (run : TestRun)
    (x : Tested Scheduling)
    → handle_charge_parameter validate now limits base t run ≡ returned x
    → IsTracked js t
    → IsTracked js x.test
unfolding handle_charge_parameter send_schedule
parameters-IsTracked validate now limits base js t run x h k = ground arith

delivery-IsTracked :
    (now : ℕ) (starts : Bool) (base : Outcome Reply) (js : List Judgement) (t : Scheduling)
    (run : TestRun) (x : Tested Scheduling)
    → handle_power_delivery now starts base t run ≡ returned x
    → IsTracked js t
    → IsTracked js x.test
unfolding handle_power_delivery
delivery-IsTracked now starts base js t run x h k = ground arith

session_stop-IsTracked :
    (base : Outcome Reply) (js : List Judgement) (t : Scheduling) (run : TestRun)
    (x : Tested Scheduling)
    → handle_scheduling_stop base t run ≡ returned x
    → IsTracked js t
    → IsTracked js x.test
unfolding handle_scheduling_stop
session_stop-IsTracked base js t run x h k = ground arith

see_demand-IsTracked :
    (power : ℤ) (status : DcEvStatus) (js : List Judgement) (t : Scheduling)
    → IsTracked js t
    → IsTracked js (see_demand power status t)
unfolding see_demand
see_demand-IsTracked power status js t k = ground arith

see_demand-schedule :
    (power : ℤ) (status : DcEvStatus) (t : Scheduling)
    → ((see_demand power status t).schedule_start_time ≡ t.schedule_start_time)
      × ((see_demand power status t).limits ≡ t.limits)
unfolding see_demand
see_demand-schedule power status t = ground arith

end_demand-IsTracked :
    (b : Bool) (reply : Reply) (js : List Judgement) (y : Scheduling × TestRun)
    → IsTracked js y.0
    → IsTracked js (end_demand b reply y).test
unfolding end_demand
end_demand-IsTracked b reply js y k = ground arith

-- The demand, split at the answer of the server.
demand_cases :
    (b : Bool) (now : ℕ) (power : ℤ) (js : List Judgement) (t seen : Scheduling) (noted : TestRun)
    (y : Scheduling × TestRun)
    → (if b then judge_demand now power seen noted else returned (seen, noted)) ≡ returned y
    → (seen.schedule_start_time ≡ t.schedule_start_time) × (seen.limits ≡ t.limits)
    → IsTracked js seen
    → IsTracked (if b then judge_dc power (now - t.schedule_start_time) t.limits ∷ js else js) y.0
demand_cases true now power js t seen noted y h same k =
    subst (λ (l : PmaxLimits). IsTracked (judge_dc power (now - t.schedule_start_time) l ∷ js) y.0)
      {x = seen.limits} {y = t.limits} same.1
      (subst (λ (n : ℕ). IsTracked (judge_dc power (now - n) seen.limits ∷ js) y.0)
        {x = seen.schedule_start_time} {y = t.schedule_start_time} same.0
        (judge_demand-IsTracked now power js seen noted y h k))
demand_cases false now power js t seen noted y h same k =
    subst (IsTracked js) {x = seen} {y = y.0} (ap (λ z. z.0) (returned_inj h)) k

demand-IsTracked :
    (now : ℕ) (power : ℤ) (status : DcEvStatus) (reply : Reply) (js : List Judgement)
    (t : Scheduling) (run : TestRun) (x : Tested Scheduling)
    → handle_current_demand now power status (returned reply) t run ≡ returned x
    → IsTracked js t
    → IsTracked
        (if is_good reply then judge_dc power (now - t.schedule_start_time) t.limits ∷ js else js)
        x.test
unfolding handle_current_demand
demand-IsTracked now power status reply js t run x h k =
    let seen = see_demand power status t in
    let changed = is_changed power status t in
    let noted = note_demand changed run in
    let after : List Judgement =
      if is_good reply then judge_dc power (now - t.schedule_start_time) t.limits ∷ js else js in
    let (judged, e, h1) =
      bind_inv {A = Scheduling × TestRun}
        (if is_good reply then judge_demand now power seen noted else returned (seen, noted))
        (λ (judged : Scheduling × TestRun). returned (end_demand changed reply judged)) h in
    subst (λ (z : Tested Scheduling). IsTracked after z.test) {x = end_demand changed reply judged}
      {y = x} (returned_inj h1)
      (end_demand-IsTracked changed reply after judged (
        demand_cases (is_good reply) now power js t seen noted judged e
          (see_demand-schedule power status t) (see_demand-IsTracked power status js t k)))

charging_cases :
    (b : Bool) (now : ℕ) (js : List Judgement) (t : Scheduling) (run : TestRun)
    (y : Scheduling × TestRun)
    → (if b then judge_reading t.power_reading now t run else returned (t, run)) ≡ returned y
    → IsTracked js t
    → IsTracked (if b then reading_judgements t.power_reading now t js else js) y.0
charging_cases true now js t run y h k = judge_reading-IsTracked t.power_reading now js t run y h k
charging_cases false now js t run y h k =
    subst (IsTracked js) {x = t} {y = y.0} (ap (λ z. z.0) (returned_inj h)) k

charging-IsTracked :
    (now : ℕ) (reply : Reply) (js : List Judgement) (t : Scheduling) (run : TestRun)
    (x : Tested Scheduling)
    → handle_charging_status now (returned reply) t run ≡ returned x
    → IsTracked js t
    → IsTracked (if is_good reply then reading_judgements t.power_reading now t js else js) x.test
unfolding handle_charging_status
charging-IsTracked now reply js t run x h k =
    let after : List Judgement =
      if is_good reply then reading_judgements t.power_reading now t js else js in
    let (judged, e, h1) =
      bind_inv {A = Scheduling × TestRun}
        (if is_good reply then judge_reading t.power_reading now t run else returned (t, run))
        (λ (judged : Scheduling × TestRun).
          returned (record { test = judged.0; run = judged.1; reply = reply }))
        h in
    subst (IsTracked after) {x = judged.0} {y = x.test}
      (ap (λ (z : Tested Scheduling). z.test) (returned_inj h1))
      (charging_cases (is_good reply) now js t run judged e k)

meter-IsTracked :
    (power : Option ℤ) (js : List Judgement) (t : Scheduling)
    → IsTracked js t
    → IsTracked js (on_powermeter_event power t)
unfolding on_powermeter_event
meter-IsTracked none js t k = k
meter-IsTracked (some power) js t k = k

pub Session-IsTracked : {js : List Judgement} {t : Scheduling} → Session js t → IsTracked js t
Session-IsTracked opened = (refl, refl)
Session-IsTracked (parameters_sent {js} {t} validate now limits base run x before h) =
    parameters-IsTracked validate now limits base js t run x h (Session-IsTracked before)
Session-IsTracked (delivered {js} {t} now starts base run x before h) =
    delivery-IsTracked now starts base js t run x h (Session-IsTracked before)
Session-IsTracked (demanded {js} {t} now power status reply run x before h) =
    demand-IsTracked now power status reply js t run x h (Session-IsTracked before)
Session-IsTracked (charging {js} {t} now reply run x before h) =
    charging-IsTracked now reply js t run x h (Session-IsTracked before)
Session-IsTracked (stopped {js} {t} base run x before h) =
    session_stop-IsTracked base js t run x h (Session-IsTracked before)
Session-IsTracked (metered {js} {t} power before) =
    meter-IsTracked power js t (Session-IsTracked before)
