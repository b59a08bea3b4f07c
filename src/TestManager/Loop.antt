-- ===== src/TestManager/Loop.antt =====
-- The loop of `run_state_machine` ends, also where other threads store in `state_machine_enabled` while it
-- runs.
use evse_test_system.Base.{
  ℕ, zero, suc, ◌+◌, ◌≤◌, ◌<◌, ◌≡◌, refl, inl, inr, Bool, Option, none, some, List, [], ◌∷◌, length,
  true, false, not, if◌then◌else◌, Bool-cases, arith,
}
use evse_test_system.TestManager.Machine.{
  TestingState, disabled, idle, setup_test, running_test, cancel_test, cleanup_test, Machine,
  Reading, LoopReadings, same_state, next_write, later_writes, rounds_for, store_enabled, round,
  loop, after, run_state_machine,
}

-- How many rounds a state takes at most, by whether the machine is enabled and whether the state
-- is new.
abbrev rank : TestingState → Bool → Bool → ℕ
rank disabled enabled init = if enabled then 3 else 1
rank idle enabled init = 2
rank setup_test enabled init = 1
rank running_test enabled init = if init then 1 else 2
rank cancel_test enabled init = if init then 1 else 2
rank cleanup_test enabled init = if init then 1 else 3

rounds_for-length : (ws : List (Option Bool)) → rounds_for ws ≡ length ws + 3
unfolding rounds_for
rounds_for-length [] = refl
rounds_for-length (w ∷ ws) = omega (arith, rounds_for-length ws)

module _ {Report : Type 0} where
  -- The condition under which the loop ends.
  abbrev pub is_stable : Machine Report → Bool
  is_stable m = same_state m.last_state_detect_state_change m.current_state

  abbrev pub rounds_left : Machine Report → ℕ
  rounds_left m = rank m.current_state m.enabled (not (is_stable m))

  -- A round that does not end the loop takes away from what is left.
  round-lt :
      (r : Reading) (s : TestingState) (m : Machine Report)
      → m.current_state ≡ s
      → is_stable (round r m) ≡ false
      → rounds_left (round r m) < rounds_left m
  unfolding round
  round-lt r disabled m h e = ground arith
  round-lt r idle m h e = ground arith
  round-lt r s m h e = ground arith

  rounds_left_bounds : (m : Machine Report) → (0 < rounds_left m) × (rounds_left m ≤ 3)
  rounds_left_bounds m = ground arith

  -- The loop has ended, after at most `bound` rounds, and the last round changed no state.
  abbrev pub Ends : Option (ℕ × Machine Report) → ℕ → Type 0
  Ends result bound =
      (k : ℕ) × (m' : Machine Report) × (result ≡ some (k, m'))
      × (is_stable m' ≡ true)
      × (k ≤ bound)

  Ends-mono : {o : Option (ℕ × Machine Report)} {a b : ℕ} → Ends o a → a ≤ b → Ends o b
  Ends-mono (k, m', e, stable, h) le = (k, m', e, stable, omega arith)

  -- Once nothing is stored any more.
  quiet-Ends :
      (fuel : ℕ) (reading : ℕ → Reading) (runs : ℕ) (m : Machine Report)
      → rounds_left m ≤ fuel
      → Ends (loop fuel reading [] runs m) (runs + rounds_left m)
  unfolding loop store_enabled
  quiet-Ends zero reading runs m h = absurd (omega (arith, rounds_left_bounds m))
  quiet-Ends (suc fuel) reading runs m h = elim (Bool-cases (is_stable (round (reading runs) m))) [
    | inl stop ↦
        (suc runs, round (reading runs) m, rw stop, stop, omega (arith, rounds_left_bounds m))
    | inr more ↦
        let less = round-lt (reading runs) m.current_state m refl more in
        rw more (
          Ends-mono (quiet-Ends fuel reading (suc runs) (round (reading runs) m) (omega arith))
            (omega arith))
  ]

  loop-Ends :
      (ws : List (Option Bool)) (reading : ℕ → Reading) (runs : ℕ) (m : Machine Report)
      → Ends (loop (rounds_for ws) reading ws runs m) (runs + rounds_for ws)
  unfolding loop rounds_for
  loop-Ends [] reading runs m =
      Ends-mono (quiet-Ends 3 reading runs m (rounds_left_bounds m).1)
        (omega (arith, rounds_left_bounds m))
  loop-Ends (w ∷ ws) reading runs m =
      let m' = round (reading runs) (store_enabled w m) in
      elim (Bool-cases (is_stable m')) [
        | inl stop ↦ (suc runs, m', rw stop, stop, omega arith)
        | inr more ↦ rw more (Ends-mono (loop-Ends ws reading (suc runs) m') (omega arith))
      ]

  -- From every machine, and whatever other threads store in `state_machine_enabled` in the rounds
  -- that `writes` lists, the loop of `run_state_machine` ends at most three rounds after those:
  -- within three where nothing is stored while it runs. So the fuel of the model is enough, the
  -- warning about more than ten rounds needs a list of more than seven, and the machine that the
  -- loop leaves has no change of state that a further round would still have to handle.
  pub run_state_machine_ends :
      (readings : LoopReadings) (m : Machine Report)
      → (k : ℕ) × (loop (rounds_for readings.writes) readings.reading readings.writes 0 m
          ≡ some (k, run_state_machine readings m))
        × (is_stable (run_state_machine readings m) ≡ true)
        × (k ≤ length readings.writes + 3)
  unfolding run_state_machine
  run_state_machine_ends readings m =
      let (k, m', e, stable, h) = loop-Ends readings.writes readings.reading 0 m in
      (k, rw e, rw e stable, omega (arith, rounds_for-length readings.writes))

  store_inv {ℓ} :
      (P : Machine Report → Type ℓ)
      → ((b : Bool) (m : Machine Report) → P m → P (record m { enabled = b }))
      → (w : Option Bool) (m : Machine Report) → P m
      → P (store_enabled w m)
  unfolding store_enabled
  store_inv P stored none m p = p
  store_inv P stored (some b) m p = stored b m p

  -- What every round and every store keeps, the loop keeps.
  loop_inv {ℓ} :
      (P : Machine Report → Type ℓ)
      → ((r : Reading) (m : Machine Report) → P m → P (round r m))
      → ((b : Bool) (m : Machine Report) → P m → P (record m { enabled = b }))
      → (fuel : ℕ) (reading : ℕ → Reading) (ws : List (Option Bool)) (runs : ℕ)
        (d m : Machine Report)
      → P d
      → P m
      → P (after d (loop fuel reading ws runs m))
  unfolding loop
  loop_inv P keep stored zero reading ws runs d m q p = q
  loop_inv P keep stored (suc fuel) reading ws runs d m q p =
      let m' = round (reading runs) (store_enabled (next_write ws) m) in
      let p' : P m' = keep (reading runs) _ (store_inv P stored (next_write ws) m p) in
      elim (Bool-cases (is_stable m')) [
        | inl stop ↦ rw stop p'
        | inr more ↦
            rw more (loop_inv P keep stored fuel reading (later_writes ws) (suc runs) d m' q p')
      ]

  pub run_state_machine_inv {ℓ} :
      (P : Machine Report → Type ℓ)
      → ((r : Reading) (m : Machine Report) → P m → P (round r m))
      → ((b : Bool) (m : Machine Report) → P m → P (record m { enabled = b }))
      → (readings : LoopReadings) (m : Machine Report) → P m
      → P (run_state_machine readings m)
  unfolding run_state_machine
  run_state_machine_inv P keep stored readings m p =
      loop_inv P keep stored (rounds_for readings.writes) readings.reading readings.writes 0 m m p p
