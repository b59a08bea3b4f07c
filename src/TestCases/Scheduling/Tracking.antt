-- ===== src/TestCases/Scheduling/Tracking.antt =====
-- modules/EvseTestV2G/testcases/chx_smart_charging_scheduling_base.cpp: the flags of a test case against the
-- judgements of its session.
use mathlib.Core.Path.{subst}
use Prim.Native.String.{String}
use evse_test_system.Base.{
  ℕ, ◌-◌, ◌≡◌, ap, true, false, Bool, Option, none, some, ◌||◌, not, List, [], ◌∷◌, arith,
  if◌then◌else◌,
}
use evse_test_system.Base.Int.{ℤ, pos}
use evse_test_system.V2g.Iso.Server.{returned, ◌>>=◌}
use evse_test_system.V2g.Iso.Answers.{returned_inj}
use evse_test_system.V2g.Iso.Delivery.{bind_inv}
use evse_test_system.TestCases.Common.{TestRun}
use evse_test_system.TestCases.Scheduling.Schedule.{
  Judgement, within_limit, in_last_grace, in_next_grace, exceeded, indeterminate, judge_dc,
  judge_ac, is_at_most, idle_power,
}
use evse_test_system.TestCases.Scheduling.State.{
  Scheduling, note_excess, apply_judgement, note_power, stop_if_done,
}
use evse_test_system.TestCases.Scheduling.Handlers.{judge_demand, judge_reading}

abbrev pub is_exceeded : Judgement → Bool
is_exceeded exceeded = true
is_exceeded _ = false

abbrev pub any_exceeded : List Judgement → Bool
any_exceeded [] = false
any_exceeded (j ∷ js) = is_exceeded j || any_exceeded js

-- The flag tells whether some judgement was an excess, and one thread stops the charging where it is
-- to be stopped.
abbrev pub IsTracked : List Judgement → Scheduling → Type 0
IsTracked js t =
    (t.ev_exceeded_scheduled_pmax ≡ any_exceeded js)
    × (t.stop_threads ≡ (if t.stopping_charging_session then 1 else 0))

pub stop-IsTracked :
    (now : ℕ) (js : List Judgement) (t : Scheduling)
    → IsTracked js t
    → IsTracked js (stop_if_done now t)
unfolding stop_if_done
stop-IsTracked now js t h = ground arith

power-IsTracked :
    (b : Bool) (js : List Judgement) (t : Scheduling)
    → IsTracked js t
    → IsTracked js (note_power b t)
unfolding note_power
power-IsTracked b js t h = ground arith

excess-IsTracked :
    (text : String) (js : List Judgement) (t : Scheduling) (run : TestRun)
    → IsTracked js t
    → IsTracked (exceeded ∷ js) (note_excess text t run).0
unfolding note_excess
excess-IsTracked text js t run h = ground arith

apply-IsTracked :
    (j : Judgement) (text : String) (js : List Judgement) (t : Scheduling) (run : TestRun)
    (y : Scheduling × TestRun)
    → apply_judgement j text t run ≡ returned y
    → IsTracked js t
    → IsTracked (j ∷ js) y.0
unfolding apply_judgement
apply-IsTracked within_limit text js t run y h k =
    subst (IsTracked js) {x = t} {y = y.0} (ap (λ z. z.0) (returned_inj h)) k
apply-IsTracked in_last_grace text js t run y h k =
    subst (IsTracked js) {x = t} {y = y.0} (ap (λ z. z.0) (returned_inj h)) k
apply-IsTracked in_next_grace text js t run y h k =
    subst (IsTracked js) {x = t} {y = y.0} (ap (λ z. z.0) (returned_inj h)) k
apply-IsTracked exceeded text js t run y h k =
    subst (IsTracked (exceeded ∷ js)) {x = (note_excess text t run).0} {y = y.0}
      (ap (λ z. z.0) (returned_inj h)) (excess-IsTracked text js t run k)
apply-IsTracked indeterminate text js t run y h k = cc

-- A judgement with what follows it.
judged-IsTracked :
    (j : Judgement) (text : String) (now : ℕ) (b : Bool) (js : List Judgement) (t : Scheduling)
    (run : TestRun) (y : Scheduling × TestRun)
    → (apply_judgement j text t run >>= λ judged.
        returned (stop_if_done now (note_power b judged.0), judged.1))
      ≡ returned y
    → IsTracked js t
    → IsTracked (j ∷ js) y.0
judged-IsTracked j text now b js t run y h k =
    let (judged, e, h1) =
      bind_inv {A = Scheduling × TestRun} (apply_judgement j text t run)
        (λ (judged : Scheduling × TestRun).
          returned (stop_if_done now (note_power b judged.0), judged.1))
        h in
    subst (IsTracked (j ∷ js)) {x = stop_if_done now (note_power b judged.0)} {y = y.0}
      (ap (λ z. z.0) (returned_inj h1))
      (stop-IsTracked now (j ∷ js) (note_power b judged.0)
        (power-IsTracked b (j ∷ js) judged.0 (apply-IsTracked j text js t run judged e k)))

pub judge_demand-IsTracked :
    (now : ℕ) (power : ℤ) (js : List Judgement) (t : Scheduling) (run : TestRun)
    (y : Scheduling × TestRun)
    → judge_demand now power t run ≡ returned y
    → IsTracked js t
    → IsTracked (judge_dc power (now - t.schedule_start_time) t.limits ∷ js) y.0
unfolding judge_demand
judge_demand-IsTracked now power js t run y h k =
    judged-IsTracked (judge_dc power (now - t.schedule_start_time) t.limits)
      "EV Target Power exceeds scheduled PMax" now (not (is_at_most power (pos 1))) js t run y h k

-- The judgement of a reading, where there is one.
abbrev pub reading_judgements : Option ℤ → ℕ → Scheduling → List Judgement → List Judgement
reading_judgements none now t js = js
reading_judgements (some power) now t js =
    judge_ac power (now - t.schedule_start_time) t.limits ∷ js

pub judge_reading-IsTracked :
    (o : Option ℤ) (now : ℕ) (js : List Judgement) (t : Scheduling) (run : TestRun)
    (y : Scheduling × TestRun)
    → judge_reading o now t run ≡ returned y
    → IsTracked js t
    → IsTracked (reading_judgements o now t js) y.0
unfolding judge_reading
judge_reading-IsTracked none now js t run y h k =
    subst (IsTracked js) {x = stop_if_done now t} {y = y.0} (ap (λ z. z.0) (returned_inj h))
      (stop-IsTracked now js t k)
judge_reading-IsTracked (some power) now js t run y h k =
    judged-IsTracked (judge_ac power (now - t.schedule_start_time) t.limits)
      "Power draw exceeds scheduled PMax" now (not (is_at_most power (pos idle_power))) js
      (record t { power_reading = none }) run y h k
