-- ===== src/V2g/Iso/Profile.antt =====
-- modules/EvseTestV2G/server/iso_server.cpp: `check_iso2_charging_profile_values`. The sums are 32-bit words. The
-- comparison of two powers, in floating point, is an argument; it changes no result, since the response
-- code is left as it is. The inner loop is on fuel.
use evse_test_system.Base.{
  ℕ, zero, suc, ◌+◌, ◌-◌, ◌%◌, ◌^◌, Bool, true, false, ◌&&◌, ◌==◌, ltb, leb, Option, none, some,
  List, [], ◌∷◌, length, get_elem?, if◌then◌else◌,
}
use evse_test_system.V2g.Iso.States.{ok}
use evse_test_system.V2g.Iso.Server.{
  Outcome, returned, unfinished, ◌>>=◌, PhysicalValue, ScheduleEntry,
}

-- An entry of the vehicle's ChargingProfile.
pub record ProfileEntry : Type 0 where
  pub entry_start : ℕ
  pub max_power : PhysicalValue

-- The variables of the loops, without those of the outer one; `warnings` counts the lines that are logged.
pub record Progress : Type 0 where
  pub evse_time_sum : ℕ
  pub evse_idx : ℕ
  pub is_within : Bool
  pub warnings : ℕ

abbrev entry_duration : ScheduleEntry → ℕ
entry_duration e = elim e.duration [ none ↦ 0 | some d ↦ d ]

-- The end of the interval of an entry: the start of the one after it, or its duration.
unfoldable pub is_in_entry : ℕ → ℕ → ScheduleEntry → Option ScheduleEntry → Bool
is_in_entry ev_time evse_time entry (some after) =
    leb evse_time ev_time && ltb ev_time ((evse_time + after.start) % 2 ^ 32)
is_in_entry ev_time evse_time entry none =
    leb evse_time ev_time && leb ev_time ((evse_time + entry_duration entry) % 2 ^ 32)

-- The inner loop, for the entry of the vehicle at `ev_time`.
unfoldable pub find_interval :
    (PhysicalValue → PhysicalValue → Bool)
    → ℕ
    → List ScheduleEntry
    → PhysicalValue
    → ℕ
    → Progress
    → Outcome Progress
unfolding is_in_entry
find_interval exceeds zero schedule power ev_time p = unfinished
find_interval exceeds (suc fuel) schedule power ev_time p =
    if p.is_within then returned p else elim (get_elem? schedule p.evse_idx) [
      | none ↦ returned p
      | some entry ↦
          let time = (p.evse_time_sum + entry.start) % 2 ^ 32 in
          let inside = is_in_entry ev_time time entry (get_elem? schedule (suc p.evse_idx)) in
          let is_last = p.evse_idx == length schedule - 1 in
          let rest = find_interval exceeds fuel schedule power ev_time (record p {
            evse_time_sum = time;
            evse_idx = if is_last then p.evse_idx else suc p.evse_idx;
            warnings = if is_last then suc p.warnings else p.warnings;
          }) in
          if inside
          then returned (record p {
            evse_time_sum = time;
            is_within = true;
            warnings = if exceeds power entry.p_max then suc p.warnings else p.warnings;
          })
          else rest
    ]

-- The outer loop, over the entries of the vehicle.
unfoldable pub check_entries :
    (PhysicalValue → PhysicalValue → Bool)
    → ℕ
    → List ScheduleEntry
    → List ProfileEntry
    → ℕ
    → Progress
    → Outcome Progress
unfolding find_interval
check_entries exceeds fuel schedule [] ev_time p = returned p
check_entries exceeds fuel schedule (e ∷ es) ev_time p =
    let time = (ev_time + e.entry_start) % 2 ^ 32 in
    find_interval exceeds fuel schedule e.max_power time p
    >>= check_entries exceeds fuel schedule es time

abbrev pub start_progress : Progress
start_progress = record { evse_time_sum = 0; evse_idx = 0; is_within = false; warnings = 0 }

-- `profile`: `none` where ChargingProfile is not used. `fuel` bounds each run of the inner loop.
unfoldable pub check_iso2_charging_profile_values :
    (PhysicalValue → PhysicalValue → Bool)
    → ℕ
    → Option (List ProfileEntry)
    → List ScheduleEntry
    → ℕ
    → Outcome Progress
unfolding check_entries
check_iso2_charging_profile_values exceeds fuel none schedule code = returned start_progress
check_iso2_charging_profile_values exceeds fuel (some entries) schedule code =
    if code == ok
    then check_entries exceeds fuel schedule entries 0 start_progress
    else returned start_progress
