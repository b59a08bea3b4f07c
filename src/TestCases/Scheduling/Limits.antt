-- ===== src/TestCases/Scheduling/Limits.antt =====
-- modules/EvseTestV2G/testcases/chx_smart_charging_scheduling_base.cpp: when the judgement finds that a vehicle
-- exceeds the schedule.
use evse_test_system.Base.{none, some, ℕ, ◌+◌, ◌*◌, ◌≤◌, ◌<◌, ◌≡◌, ◌≢◌, ◌⊎◌, ◌↔◌, arith}
use evse_test_system.Base.Int.{ℤ, pos_part, neg_part, ◌+ℤ◌, ◌*ℤ◌}
use evse_test_system.TestCases.Scheduling.Schedule.{
  grace_period, schedule_entry_start_1, schedule_entry_start_2, schedule_entry_duration, PmaxLimits,
  minus_one, judge_dc, judge_ac, judge_ac_in, schedule_entry_start_0, exceeded, indeterminate,
}

-- The power is above the limit: `limit` watts are less than `power` microwatts.
abbrev pub IsAbove : ℤ → ℤ → Type 0
IsAbove power limit =
    pos_part limit * 1000000 + neg_part power < pos_part power + neg_part limit * 1000000

abbrev pub IsNatural : PmaxLimits → Type 0
IsNatural p = (neg_part p.power_0 ≡ 0) × (neg_part p.power_1 ≡ 0) × (neg_part p.power_2 ≡ 0)

-- In the first interval a vehicle may take the limit of the second from 120 seconds before it on; in
-- the second the limit of the first, all the time, and that of the third from 120 seconds before it
-- on; in the third that of the second for an hour and two minutes after its start.
abbrev pub Exceeds : ℤ → ℕ → PmaxLimits → Type 0
Exceeds power elapsed p =
    ((elapsed < schedule_entry_start_1)
      × IsAbove power p.power_0
      × ((elapsed + grace_period < schedule_entry_start_1) ⊎ IsAbove power p.power_1))
    ⊎ ((schedule_entry_start_1 ≤ elapsed)
        × (elapsed < schedule_entry_start_2)
        × IsAbove power p.power_1
        × IsAbove power p.power_0
        × ((elapsed + grace_period < schedule_entry_start_2) ⊎ IsAbove power p.power_2))
    ⊎ ((schedule_entry_start_2 ≤ elapsed)
        × (elapsed ≤ schedule_entry_start_2 + schedule_entry_duration)
        × IsAbove power p.power_2
        × ((schedule_entry_start_1 + schedule_entry_duration + grace_period < elapsed)
            ⊎ IsAbove power p.power_1))
    ⊎ ((schedule_entry_start_2 + schedule_entry_duration < elapsed) × IsAbove power minus_one)

-- On limits that are not negative, a requested power is judged an excess exactly when it is
-- above its interval of the schedule and above what the grace of the other intervals allows: in
-- the first interval the limit of the second from 120 seconds before it on; in the second the
-- limit of the first, all the time, and that of the third from 120 seconds before it on; in the
-- third that of the second for an hour and two minutes after its start; and after the schedule
-- it is above -1 watt.
pub judge_dc-Exceeds_iff :
    (power : ℤ) (elapsed : ℕ) (p : PmaxLimits)
    → IsNatural p
    → (judge_dc power elapsed p ≡ exceeded) ↔ Exceeds power elapsed p
unfolding judge_dc ◌+ℤ◌ ◌*ℤ◌
judge_dc-Exceeds_iff power elapsed p n = (ground arith, ground arith)

-- In the interval a start is written wherever a power can reach its limit.
ac_without_last :
    (power this_pmax next_pmax : ℤ) (elapsed start : ℕ)
    → neg_part this_pmax ≡ 0
    → judge_ac_in power elapsed (record {
      last_pmax = minus_one;
      this_pmax = this_pmax;
      next_pmax = next_pmax;
      last_start = none;
      next_start = some start;
    })
      ≢ indeterminate
unfolding judge_ac_in ◌+ℤ◌ ◌*ℤ◌
ac_without_last power this_pmax next_pmax elapsed start n = ground arith

ac_with_both :
    (power last_pmax this_pmax next_pmax : ℤ) (elapsed before start : ℕ)
    → judge_ac_in power elapsed (record {
      last_pmax = last_pmax;
      this_pmax = this_pmax;
      next_pmax = next_pmax;
      last_start = some before;
      next_start = some start;
    })
      ≢ indeterminate
unfolding judge_ac_in
ac_with_both power last_pmax this_pmax next_pmax elapsed before start = ground arith

ac_without_next :
    (power last_pmax this_pmax : ℤ) (elapsed before : ℕ)
    → neg_part this_pmax ≡ 0
    → judge_ac_in power elapsed (record {
      last_pmax = last_pmax;
      this_pmax = this_pmax;
      next_pmax = minus_one;
      last_start = some before;
      next_start = none;
    })
      ≢ indeterminate
unfolding judge_ac_in ◌+ℤ◌ ◌*ℤ◌
ac_without_next power last_pmax this_pmax elapsed before n = ground arith

ac_without_entry :
    (power : ℤ) (elapsed : ℕ)
    → judge_ac_in power elapsed (record {
      last_pmax = minus_one;
      this_pmax = minus_one;
      next_pmax = minus_one;
      last_start = none;
      next_start = none;
    })
      ≢ indeterminate
unfolding judge_ac_in ◌+ℤ◌ ◌*ℤ◌
ac_without_entry power elapsed = ground arith

judge_ac-written :
    (power : ℤ) (elapsed : ℕ) (p : PmaxLimits)
    → IsNatural p
    → judge_ac power elapsed p ≢ indeterminate
unfolding judge_ac
judge_ac-written power elapsed p n = ground (
  arith,
  ac_without_last power p.power_0 p.power_1 elapsed schedule_entry_start_1 n.0,
  ac_with_both power p.power_0 p.power_1 p.power_2 elapsed schedule_entry_start_0
      schedule_entry_start_2,
  ac_without_next power p.power_1 p.power_2 elapsed schedule_entry_start_1 n.2,
  ac_without_entry power elapsed,
)

-- On limits that are not negative, no judgement of a power, at a DC or an AC charger, reads a
-- start of an interval that was never written.
pub judge-reads_written :
    (power : ℤ) (elapsed : ℕ) (p : PmaxLimits)
    → IsNatural p
    → (judge_dc power elapsed p ≢ indeterminate) × (judge_ac power elapsed p ≢ indeterminate)
unfolding judge_dc ◌+ℤ◌ ◌*ℤ◌
judge-reads_written power elapsed p n = (ground arith, judge_ac-written power elapsed p n)
