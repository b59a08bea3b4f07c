-- ===== src/V2g/Iso/ProfileEnds.antt =====
-- modules/EvseTestV2G/server/iso_server.cpp: when `check_iso2_charging_profile_values` ends against the schedule
-- that `handle_iso_charge_parameter_discovery` configures by itself.
use native.Mathlib.Nat.{mod-eq_of_lt}
use evse_test_system.Base.{
  ℕ, zero, suc, ◌+◌, ◌%◌, ◌^◌, ◌≡◌, ◌≤◌, ◌<◌, ◌⊎◌, inl, inr, refl, ap, ◌∙◌, Bool, true, false, some,
  List, [], ◌∷◌, arith, if◌then◌else◌,
}
use evse_test_system.V2g.Iso.States.{ok}
use evse_test_system.V2g.Iso.Server.{returned, unfinished, ◌>>=◌, PhysicalValue, ScheduleEntry}
use evse_test_system.V2g.Iso.Parameters.{sa_schedule_duration, automatic_entry}
use evse_test_system.V2g.Iso.Profile.{
  ProfileEntry, Progress, is_in_entry, find_interval, check_entries, start_progress,
  check_iso2_charging_profile_values,
}

le_or_lt : (a b : ℕ) → (a ≤ b) ⊎ (b < a)
le_or_lt a b = ground arith

start_time : (n : ℕ) → n < 2 ^ 32 → (0 + n) % 2 ^ 32 ≡ n
start_time n b = let e : 0 + n ≡ n = omega arith in ap (λ x. x % 2 ^ 32) e ∙ mod-eq_of_lt b

module _ (exceeds : PhysicalValue → PhysicalValue → Bool) where
  -- An entry after the day is looked for again and again in the only entry of the schedule.
  find_interval_hangs :
      (fuel : ℕ) (limit power : PhysicalValue) (time w : ℕ)
      → sa_schedule_duration < time
      → find_interval exceeds fuel
          (automatic_entry limit ∷ [])
          power
          time
          (record { evse_time_sum = 0; evse_idx = 0; is_within = false; warnings = w })
        ≡ unfinished
  unfolding find_interval is_in_entry
  find_interval_hangs zero limit power time w h = refl
  find_interval_hangs (suc fuel) limit power time w h =
      ground (arith, find_interval_hangs fuel limit power time (suc w) h)

  find_interval_within :
      (fuel : ℕ) (schedule : List ScheduleEntry) (power : PhysicalValue) (time : ℕ) (p : Progress)
      → p.is_within ≡ true
      → find_interval exceeds (suc fuel) schedule power time p ≡ returned p
  unfolding find_interval
  find_interval_within fuel schedule power time p h = rw h

  -- Once an entry was found, the later ones are not looked for.
  check_entries_within :
      (fuel : ℕ) (schedule : List ScheduleEntry) (es : List ProfileEntry) (time : ℕ) (p : Progress)
      → p.is_within ≡ true
      → check_entries exceeds (suc fuel) schedule es time p ≡ returned p
  unfolding check_entries
  check_entries_within fuel schedule [] time p h = refl
  check_entries_within fuel schedule (e ∷ es) time p h =
      rw (find_interval_within fuel schedule e.max_power ((time + e.entry_start) % 2 ^ 32) p h)
        (check_entries_within fuel schedule es ((time + e.entry_start) % 2 ^ 32) p h)

  find_interval_first :
      (fuel : ℕ) (limit power : PhysicalValue) (time : ℕ)
      → time ≤ sa_schedule_duration
      → (p : Progress) × (find_interval exceeds
            (suc fuel)
            (automatic_entry limit ∷ [])
            power
            time
            start_progress
          ≡ returned p)
        × (p.is_within ≡ true)
  unfolding find_interval is_in_entry
  find_interval_first fuel limit power time h = (
    record {
      evse_time_sum = 0;
      evse_idx = 0;
      is_within = true;
      warnings = if exceeds power limit then 1 else 0;
    },
    ground arith,
    refl,
  )

  first_entry :
      (fuel : ℕ) (schedule : List ScheduleEntry) (e : ProfileEntry) (es : List ProfileEntry)
      → e.entry_start < 2 ^ 32
      → check_iso2_charging_profile_values exceeds fuel (some (e ∷ es)) schedule ok ≡ (
          find_interval exceeds fuel schedule e.max_power e.entry_start start_progress
          >>= check_entries exceeds fuel schedule es e.entry_start)
  unfolding check_iso2_charging_profile_values check_entries
  first_entry fuel schedule e es b =
      ap
        (λ time.
          find_interval exceeds fuel schedule e.max_power time start_progress
          >>= check_entries exceeds fuel schedule es time)
        (start_time e.entry_start b)

-- The check of a charging profile whose first entry has a 32-bit start, against the schedule of
-- one day that is configured by itself. Where that entry starts within the day, the check
-- returns, with whatever fuel there is but none. Where it starts later, the check returns with
-- no amount of fuel: the loop in the handler of the request never ends.
pub check_profile_cases :
    (exceeds : PhysicalValue → PhysicalValue → Bool) (limit : PhysicalValue) (e : ProfileEntry)
    (es : List ProfileEntry)
    → e.entry_start < 2 ^ 32
    → ((e.entry_start ≤ sa_schedule_duration)
        × ((fuel : ℕ)
            → (p : Progress) × (check_iso2_charging_profile_values exceeds
                  (suc fuel)
                  (some (e ∷ es))
                  (automatic_entry limit ∷ [])
                  ok
                ≡ returned p)))
      ⊎ ((sa_schedule_duration < e.entry_start)
          × ((fuel : ℕ)
              → check_iso2_charging_profile_values exceeds fuel
                  (some (e ∷ es))
                  (automatic_entry limit ∷ [])
                  ok
                ≡ unfinished))
check_profile_cases exceeds limit e es b = elim (le_or_lt e.entry_start sa_schedule_duration) [
  | inl h ↦ inl (
    h,
    λ fuel.
        let (p, found, inside) =
          find_interval_first exceeds fuel limit e.max_power e.entry_start h in
        (
          p,
          first_entry exceeds (suc fuel) (automatic_entry limit ∷ []) e es b
              ∙ rw found (
                  check_entries_within exceeds fuel (automatic_entry limit ∷ []) es e.entry_start p
                    inside),
        ),
  )
  | inr h ↦ inr (
    h,
    λ fuel.
        first_entry exceeds fuel (automatic_entry limit ∷ []) e es b
        ∙ rw (find_interval_hangs exceeds fuel limit e.max_power e.entry_start 0 h),
  )
]
