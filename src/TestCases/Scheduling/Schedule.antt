-- ===== src/TestCases/Scheduling/Schedule.antt =====
-- modules/EvseTestV2G/testcases/chx_smart_charging_scheduling_base.hpp and .cpp: the intervals of the schedule, and
-- the judgement of a power against them. A power is a whole number of microwatts, to which
-- the double of the source is rounded outside of the model; the limits of the schedule are in watts.
use evse_test_system.Base.{
  ℕ, ◌+◌, ltb, leb, ◌&&◌, ◌||◌, Bool, not, Option, none, some, if◌then◌else◌,
}
use evse_test_system.Base.Int.{ℤ, pos, negsuc, ltb_ℤ, ◌+ℤ◌, ◌*ℤ◌}

-- V2G_TEST_SCHEDULE_ENTRY_GRACE_PERIOD, and the other durations, in milliseconds.
abbrev pub grace_period : ℕ
grace_period = 120000

abbrev max_setup_time : ℕ
max_setup_time = 60000

abbrev min_time_in_entry : ℕ
min_time_in_entry = 20000

abbrev pub schedule_entry_start_0 : ℕ
schedule_entry_start_0 = 0

abbrev pub schedule_entry_start_1 : ℕ
schedule_entry_start_1 = schedule_entry_start_0 + max_setup_time + grace_period + min_time_in_entry

abbrev pub schedule_entry_start_2 : ℕ
schedule_entry_start_2 = schedule_entry_start_1 + grace_period + min_time_in_entry + grace_period

abbrev pub schedule_entry_duration : ℕ
schedule_entry_duration = 3600000

-- Counted from the start of the first entry, which is 0.
abbrev pub target_charging_duration : ℕ
target_charging_duration = schedule_entry_start_1 + grace_period + min_time_in_entry

-- maximum_scheduled_power_0, maximum_scheduled_power_1 and maximum_scheduled_power_2
pub record PmaxLimits : Type 0 where
  pub power_0 : ℤ
  pub power_1 : ℤ
  pub power_2 : ℤ

-- The variables of a handler; `none`: a start that was never written.
pub record Interval : Type 0 where
  pub last_pmax : ℤ
  pub this_pmax : ℤ
  pub next_pmax : ℤ
  pub last_start : Option ℕ
  pub next_start : Option ℕ

abbrev pub minus_one : ℤ
minus_one = negsuc 0

-- `elapsed`: since the schedule was sent.
abbrev pub interval_at : ℕ → PmaxLimits → Interval
interval_at elapsed p =
    if ltb elapsed schedule_entry_start_1
    then record {
      last_pmax = minus_one;
      this_pmax = p.power_0;
      next_pmax = p.power_1;
      last_start = none;
      next_start = some schedule_entry_start_1;
    }
    else if ltb elapsed schedule_entry_start_2
    then record {
      last_pmax = p.power_0;
      this_pmax = p.power_1;
      next_pmax = p.power_2;
      last_start = some schedule_entry_start_0;
      next_start = some schedule_entry_start_2;
    }
    else if leb elapsed (schedule_entry_start_2 + schedule_entry_duration)
    then record {
      last_pmax = p.power_1;
      this_pmax = p.power_2;
      next_pmax = minus_one;
      last_start = some schedule_entry_start_1;
      next_start = none;
    }
    else record {
      last_pmax = minus_one;
      this_pmax = minus_one;
      next_pmax = minus_one;
      last_start = none;
      next_start = none;
    }

abbrev pub microwatts : ℤ → ℤ
microwatts p = p *ℤ pos 1000000

-- `indeterminate`: a start is read that was never written.
pub data Judgement : Type 0 where
  within_limit in_last_grace in_next_grace exceeded indeterminate : Judgement

-- The power is at most the limit.
abbrev pub is_at_most : ℤ → ℤ → Bool
is_at_most power limit = not (ltb_ℤ (microwatts limit) power)

-- The grace of the next interval, for a power that is at most its limit.
abbrev judge_next : ℕ → Option ℕ → Judgement
judge_next elapsed none = indeterminate
judge_next elapsed (some start) =
    if leb start (elapsed + grace_period) then in_next_grace else exceeded

abbrev is_in_last_grace : ℕ → ℕ → Bool
is_in_last_grace elapsed start = leb elapsed (start + schedule_entry_duration + grace_period)

-- A power that exceeds its interval; `tolerance`: in watts, added to the limits of the other two.
abbrev pub judge_excess : ℕ → ℤ → ℕ → Interval → Judgement
judge_excess tolerance power elapsed i =
    let next =
      if is_at_most power (i.next_pmax +ℤ pos tolerance)
      then judge_next elapsed i.next_start
      else exceeded in
    if is_at_most power (i.last_pmax +ℤ pos tolerance)
    then elim i.last_start [
      | none ↦ indeterminate
      | some start ↦ if is_in_last_grace elapsed start then in_last_grace else next
    ]
    else next

-- The judgement of a power that a vehicle asks a DC charger for.
unfoldable pub judge_dc : ℤ → ℕ → PmaxLimits → Judgement
unfolding ◌+ℤ◌ ◌*ℤ◌
judge_dc power elapsed p =
    let i = interval_at elapsed p in
    if is_at_most power i.this_pmax then within_limit else judge_excess 0 power elapsed i

abbrev pub tolerance : ℕ
tolerance = 50

-- The power in watts below which nothing is drawn.
abbrev pub idle_power : ℕ
idle_power = 120

abbrev is_zero : ℤ → Bool
is_zero p = not (ltb_ℤ p (pos 0)) && not (ltb_ℤ (pos 0) p)

-- The judgement of a power that is measured at an AC charger.
unfoldable pub judge_ac_in : ℤ → ℕ → Interval → Judgement
unfolding ◌+ℤ◌ ◌*ℤ◌
judge_ac_in power elapsed i =
    if (is_zero i.this_pmax && not (is_at_most power (pos idle_power)))
      || (ltb_ℤ (pos 1) i.this_pmax && not (is_at_most power (i.this_pmax +ℤ pos tolerance)))
    then judge_excess tolerance power elapsed i
    else within_limit

unfoldable pub judge_ac : ℤ → ℕ → PmaxLimits → Judgement
judge_ac power elapsed p = judge_ac_in power elapsed (interval_at elapsed p)
