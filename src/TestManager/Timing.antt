-- ===== src/TestManager/Timing.antt =====
-- The timeouts of TestStateMachine.cpp, and what a disabled machine does.
use evse_test_system.Base.{
  ℕ, ◌-◌, ◌≤◌, ◌<◌, ◌≡◌, ◌≢◌, refl, ◌/◌, ◌↔◌, ◌⊎◌, inl, inr, true, false, Bool, Option, none, some,
  List, [], ◌∷◌, arith,
}
use Prim.Native.String.{String}
use evse_test_system.TestManager.Machine.{
  TestInstance, TestingState, disabled, idle, setup_test, running_test, cancel_test, cleanup_test,
  Machine, Reading, LoopReadings, next_write, cancellation_timeout, rounds_for, store_enabled,
  round, loop, run_state_machine,
}
use evse_test_system.TestManager.Handlers.{process_heartbeat, schedule_enqueue, schedule_publish}
use evse_test_system.TestManager.Loop.{run_state_machine_inv}
use evse_test_system.TestManager.Invariant.{Call, tick, heartbeat, step, run_calls}
use evse_test_system.TestManager.Queue.{IsReady, step-IsReady}

-- The heartbeats of the V2G module, and the runs of the loop in which nothing is stored in
-- `state_machine_enabled`.
pub data Pulse : Type 0 where
  heard : ℕ → Pulse
  checked : (ℕ → Reading) → Pulse

abbrev quiet : (ℕ → Reading) → LoopReadings
quiet reading = record { reading = reading; writes = [] }

abbrev pub call_of : {Report : Type 0} → Pulse → Call Report
call_of (heard now) = heartbeat now
call_of (checked reading) = tick (quiet reading)

abbrev pub calls_of : {Report : Type 0} → List Pulse → List (Call Report)
calls_of [] = []
calls_of (p ∷ ps) = call_of p ∷ calls_of ps

-- Every run of the loop comes at most 20 seconds after the last heartbeat before it.
abbrev pub KeepsUp : ℕ → List Pulse → Type 0
KeepsUp last [] = Unit
KeepsUp last (heard now ∷ ps) = KeepsUp now ps
KeepsUp last (checked reading ∷ ps) = ((reading 0).now - last ≤ 20000000000) × KeepsUp last ps

module _ {Report : Type 0} where
  round-not_running :
      (r : Reading) (s : TestingState) (m : Machine Report)
      → m.current_state ≡ s
      → m.current_state ≢ running_test
      → (round r m).current_state ≢ running_test
  unfolding round
  round-not_running r disabled m e h = ground arith
  round-not_running r idle m e h = ground arith
  round-not_running r s m e h = ground arith

  run_state_machine-not_running :
      (readings : LoopReadings) (m : Machine Report)
      → m.current_state ≢ running_test
      → (run_state_machine readings m).current_state ≢ running_test
  run_state_machine-not_running readings m h =
      run_state_machine_inv (λ n. n.current_state ≢ running_test)
        (λ r n k. round-not_running r n.current_state n refl k) (λ b n k. k) readings m h

  running_tick :
      (reading : ℕ → Reading) (m : Machine Report)
      → IsReady m
      → m.current_state ≡ running_test
      → m.enabled ≡ true
      → let n = run_state_machine (quiet reading) m in
        ((((reading 0).now - m.last_v2g_heartbeat ≤ 20000000000) × (n.current_state ≡ running_test))
          ⊎ ((20000000000 < (reading 0).now - m.last_v2g_heartbeat)
              × (n.current_state ≢ running_test)))
        × ((n.current_state ≡ running_test)
            → (n.enabled ≡ true) × (n.last_v2g_heartbeat ≡ m.last_v2g_heartbeat))
  unfolding run_state_machine rounds_for loop round store_enabled
  running_tick reading m v s e = (ground arith, ground arith)

module _ {Report : Type 0} (format_time : ℕ → String) where
  stays_given_up :
      (m : Machine Report) (ps : List Pulse)
      → m.current_state ≢ running_test
      → (run_calls format_time m (calls_of ps)).current_state ≢ running_test
  unfolding run_calls step process_heartbeat
  stays_given_up m [] h = h
  stays_given_up m (heard now ∷ ps) h = stays_given_up (process_heartbeat now m) ps h
  stays_given_up m (checked reading ∷ ps) h =
      stays_given_up (run_state_machine (quiet reading) m) ps
        (run_state_machine-not_running (quiet reading) m h)

  -- While a test runs in an enabled machine between two calls: over any heartbeats and runs of the
  -- loop in which nothing is stored in `state_machine_enabled`, the test still runs at the end
  -- exactly when every run of the loop came at most 20 seconds after the last heartbeat before it.
  -- A test that was given up once is not resumed by later heartbeats.
  pub run_calls-KeepsUp :
      (m : Machine Report) (ps : List Pulse)
      → IsReady m
      → m.current_state ≡ running_test
      → m.enabled ≡ true
      → ((run_calls format_time m (calls_of ps)).current_state ≡ running_test)
        ↔ KeepsUp m.last_v2g_heartbeat ps
  unfolding run_calls step process_heartbeat
  run_calls-KeepsUp m [] v s e = (λ h. tt, λ h. s)
  run_calls-KeepsUp m (heard now ∷ ps) v s e =
      run_calls-KeepsUp (process_heartbeat now m) ps (step-IsReady format_time m (heartbeat now) v)
        s e
  run_calls-KeepsUp m (checked reading ∷ ps) v s e =
      let n = run_state_machine (quiet reading) m in
      let (judged, kept) = running_tick reading m v s e in
      elim judged [
        | inl (soon, runs) ↦
            let (enabled, last) = kept runs in
            let rest =
              run_calls-KeepsUp n ps (step-IsReady format_time m (tick (quiet reading)) v) runs
                enabled in
            (λ h. (soon, ground (arith, rest.0 h)), λ h. rest.1 (rw last h.1))
        | inr (late, given_up) ↦
            (λ h. absurd (stays_given_up n ps given_up h), λ h. absurd (omega (arith, late, h.0)))
      ]

module _ {Report : Type 0} where
  -- A machine between two calls that was disabled while a test is being set up or is running stays
  -- in that state over every run of its loop in which nothing is stored, however long ago the last
  -- heartbeat was.
  disabled_never_aborts :
      (reading : ℕ → Reading) (m : Machine Report)
      → IsReady m
      → (m.current_state ≡ setup_test) ⊎ (m.current_state ≡ running_test)
      → m.enabled ≡ false
      → (run_state_machine (quiet reading) m).current_state ≡ m.current_state
  unfolding run_state_machine rounds_for loop round store_enabled
  disabled_never_aborts reading m v s e = ground arith

  -- A cancelled test of a machine between two calls is given up by the next run of the loop exactly
  -- when the state is more than ten seconds old; before that the machine waits for the V2G module.
  cancel_gives_up_iff :
      (reading : ℕ → Reading) (m : Machine Report)
      → IsReady m
      → m.current_state ≡ cancel_test
      → let n = run_state_machine (quiet reading) m in
        ((n.current_state ≡ cleanup_test)
          ↔ (cancellation_timeout < ((reading 0).now - m.current_state_started) / 1000000))
        × ((n.current_state ≡ cancel_test)
            ↔ (((reading 0).now - m.current_state_started) / 1000000 ≤ cancellation_timeout))
  unfolding run_state_machine rounds_for loop round store_enabled
  cancel_gives_up_iff reading m v s = (ground arith, ground arith)

  race :
      (reading : ℕ → Reading) (ws : List (Option Bool)) (t : TestInstance) (m : Machine Report)
      → IsReady m
      → m.current_state ≡ idle
      → (store_enabled (next_write ws) m).enabled ≡ true
      → m.scheduled_tests ≡ []
      → (schedule_publish t.instance_id (
          run_state_machine
            (record { reading = reading; writes = ws })
            (schedule_enqueue t m))).undefined
        ≡ true
  unfolding run_state_machine rounds_for loop round store_enabled schedule_enqueue schedule_publish
  race reading [] t m v s e q = ground arith
  race reading (none ∷ []) t m v s e q = ground arith
  race reading (some b ∷ []) t m v s e q = ground arith
  race reading (none ∷ none ∷ ws) t m v s e q = ground arith
  race reading (none ∷ some c ∷ ws) t m v s e q = ground arith
  race reading (some b ∷ none ∷ ws) t m v s e q = ground arith
  race reading (some b ∷ some c ∷ ws) t m v s e q = ground arith

  -- The race of `schedule_test`: if the main thread runs the loop of an idle machine between two calls
  -- with an empty queue, which is enabled in the first round, between the `emplace_back` and the
  -- publishing, the new test is taken from the queue, and the publishing reads a dangling reference.
  pub schedule_race :
      (readings : LoopReadings) (t : TestInstance) (m : Machine Report)
      → IsReady m
      → m.current_state ≡ idle
      → (store_enabled (next_write readings.writes) m).enabled ≡ true
      → m.scheduled_tests ≡ []
      → (schedule_publish t.instance_id
          (run_state_machine readings (schedule_enqueue t m))).undefined
        ≡ true
  schedule_race readings t m v s e q = race readings.reading readings.writes t m v s e q
