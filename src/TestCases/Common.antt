-- ===== src/TestCases/Common.antt =====
-- modules/EvseTestV2G/testcase.hpp and testcase.cpp: what the test cases share. A test case changes the outcome,
-- the errors and the reports of the running test, and calls the handler of the server that it is
-- derived from. A time point of the system clock is its nanoseconds since the epoch, and 0 where
-- it was never set.
use evse_test_system.Base.{
  ℕ, ◌-◌, ◌/◌, ◌≡◌, refl, ap, leb, ◌==◌, ◌||◌, Bool, true, false, List, [], ◌∷◌, ◌++◌,
  if◌then◌else◌,
}
use evse_test_system.Base.Int.{ℤ, pos, sub_ℕ, ltb_ℤ}
use Prim.Native.String.{String}
use evse_test_system.Types.{TestOutcome, pass_criteria_not_met, pass_criteria_met}
use evse_test_system.V2g.Types.{
  V2gEvent, no_event, send_and_terminate, V2gMsgTypeId, session_stop_msg, msg_number,
}
use evse_test_system.V2g.Iso.Server.{Outcome, returned, unfinished, undefined, ◌>>=◌, Reply}
use evse_test_system.V2g.Iso.Answers.{returned_inj}
use evse_test_system.V2g.Iso.Delivery.{bind_inv}

-- What is reported: the fields of a message and the times in its metadata are left out.
pub data Report : Type 0 where
  request_report : V2gMsgTypeId → Report
  response_report : V2gMsgTypeId → ℕ → Report
  state_b_report connection_closed_report : Report

-- The part of `test_data` that the test cases write.
pub record TestRun : Type 0 where
  pub outcome : TestOutcome
  pub errors : List String
  pub reports : List Report

abbrev pub add_error : String → TestRun → TestRun
add_error e run = record run { errors = run.errors ++ (e ∷ []) }

abbrev pub add_report : Report → TestRun → TestRun
add_report r run = record run { reports = run.reports ++ (r ∷ []) }

-- The outcome and the error that stand side by side in the code.
abbrev pub conclude_with : TestOutcome → String → TestRun → TestRun
conclude_with o e run = record (add_error e run) { outcome = o }

abbrev pub fail_with : String → TestRun → TestRun
fail_with e run = conclude_with pass_criteria_not_met e run

abbrev pub fail_if : Bool → String → TestRun → TestRun
fail_if b e run = if b then fail_with e run else run

abbrev pub is_not_met : TestOutcome → Bool
is_not_met pass_criteria_not_met = true
is_not_met _ = false

abbrev pub pass_unless_failed : TestRun → TestRun
pass_unless_failed run =
    if is_not_met run.outcome then run else record run { outcome = pass_criteria_met }

abbrev pub nanoseconds_per_ms : ℕ
nanoseconds_per_ms = 1000000

-- duration_cast<milliseconds>(b - a), which is rounded towards zero.
abbrev pub ms_between : ℕ → ℕ → ℤ
ms_between a b =
    if leb a b then pos ((b - a) / nanoseconds_per_ms) else sub_ℕ 0 ((a - b) / nanoseconds_per_ms)

-- The duration from `a` to `b` is more than the milliseconds.
abbrev pub is_longer_ms : ℕ → ℕ → ℕ → Bool
is_longer_ms limit a b = ltb_ℤ (pos limit) (ms_between a b)

-- time_since_epoch().count() == 0
abbrev pub is_unset : ℕ → Bool
is_unset t = t == 0

abbrev pub is_answered : V2gEvent → Bool
is_answered no_event = true
is_answered send_and_terminate = true
is_answered _ = false

abbrev pub is_no_event : V2gEvent → Bool
is_no_event no_event = true
is_no_event _ = false

-- What a handler of a test case leaves, for the state `T` of the test case.
pub record Tested (T : Type 0) : Type 0 where
  pub test : T
  pub run : TestRun
  pub reply : Reply

abbrev pub is_stop : V2gMsgTypeId → Bool
is_stop session_stop_msg = true
is_stop _ = false

-- The requests that a test case lets through to its server: all up to one message, and the stop.
abbrev pub is_let_through : V2gMsgTypeId → V2gMsgTypeId → Bool
is_let_through limit m = leb (msg_number m) (msg_number limit) || is_stop m

-- The conclusion of a server's `handle_request` on what the handler of the test case left.
abbrev pub conclude_tested :
    {T : Type 0} → (Reply → Outcome Reply) → Outcome (Tested T) → Outcome (Tested T)
conclude_tested f o = o >>= λ x. f x.reply >>= λ reply. returned (record x { reply = reply })

-- A handler that the test case does not override.
abbrev pub untouched : {T : Type 0} → T → TestRun → Outcome Reply → Outcome (Tested T)
untouched t run o = o >>= λ reply. returned (record { test = t; run = run; reply = reply })

pub conclude_tested-test :
    {T : Type 0} (f : Reply → Outcome Reply) (o : Outcome (Tested T)) (x : Tested T)
    → conclude_tested f o ≡ returned x
    → (y : Tested T) × (o ≡ returned y) × (y.test ≡ x.test)
conclude_tested-test f (returned y) x h =
    let (reply, e, h1) =
      bind_inv {A = Reply} (f y.reply) (λ reply. returned (record y { reply = reply })) h in
    (y, refl, ap (λ z. z.test) (returned_inj h1))
conclude_tested-test f unfinished x h = cc
conclude_tested-test f undefined x h = cc

pub untouched-test :
    {T : Type 0} (t : T) (run : TestRun) (o : Outcome Reply) (x : Tested T)
    → untouched t run o ≡ returned x
    → t ≡ x.test
untouched-test t run (returned reply) x h = ap (λ z. z.test) (returned_inj h)
untouched-test t run unfinished x h = cc
untouched-test t run undefined x h = cc

-- A split on a test of the code, where both branches return what is claimed.
pub branches :
    {T : Type 0} (b : Bool) (o p : Outcome T) (x : T) (P : Type 0)
    → (if b then o else p) ≡ returned x
    → (o ≡ returned x → P)
    → (p ≡ returned x → P)
    → P
branches true o p x P h f g = f h
branches false o p x P h f g = g h
