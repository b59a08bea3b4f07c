-- ===== src/Examples/Station.antt =====
-- Runs of the models of modules/EvseTestManager's sniffer and charger module, and of
-- modules/EvseTestV2G's time arithmetic and random data, on concrete inputs.
use evse_test_system.Base.{
  ℕ, ◌+◌, ◌≤◌, ◌≡◌, refl, ◌≢◌, ◌⊎◌, inr, some, true, false, List, [], ◌∷◌, drop, arith,
}
use evse_test_system.Base.Int.{pos}
use evse_test_system.TestManager.Sniffer.{
  capturing, stopping, stopped, gone, polling, outside, entered, checking, Sniffer, exchange, Step,
  ThreadReach, own, left, here, next, IsAlive, stop_never_returns, stop_can_finish,
}
use evse_test_system.TestManager.Evse.{EnableDisableSource, other_source}
use evse_test_system.Tools.Time.{
  Timespec, IsNormalized, nanoseconds_pos, nanoseconds_neg, timespec_add, timespec_sub,
  timespec_add_sub-exact,
}
use evse_test_system.Tools.Random.{
  ReadCall, stored, generate_random_data, generate_random_data-tail,
}

abbrev lost_sniffer : Sniffer
lost_sniffer = record { state = capturing; thread = gone; stopper = entered }

abbrev waiting_sniffer : Sniffer
waiting_sniffer = record { state = stopping; thread = gone; stopper = checking }

stop_never_returns_example : waiting_sniffer.stopper ≢ outside
stop_never_returns_example =
    stop_never_returns {f = true} {s = lost_sniffer} {t = waiting_sniffer} refl refl refl
      (next here (exchange refl))

abbrev open_sniffer : Sniffer
open_sniffer = record { state = capturing; thread = polling; stopper = entered }

abbrev stopping_sniffer : Sniffer
stopping_sniffer = record { state = stopping; thread = polling; stopper = checking }

open-IsAlive : IsAlive open_sniffer
open-IsAlive = record { runs = λ h. inr refl; ends = λ h. ground arith; rests = λ h. ground arith }

stop_can_finish_example :
    (stopping_sniffer.thread ≢ gone)
    × ((u : Sniffer) × ThreadReach false stopping_sniffer u × (u.state ≡ stopped))
    × ((v : Sniffer) (e : Step false stopping_sniffer v)
        → (v.state ≡ stopped)
          ⊎ ((v.state ≡ stopping) × (left v.thread + own e ≤ left stopping_sniffer.thread)))
stop_can_finish_example =
    stop_can_finish {s = open_sniffer} {t = stopping_sniffer} open-IsAlive
      (next here (exchange refl)) refl

abbrev outside_source : EnableDisableSource
outside_source = record {
  enable_source = other_source 3;
  enable_state = true;
  enable_priority = 1234;
}

abbrev early : Timespec
early = record { tv_sec = pos 3; tv_nsec = pos 200000000 }

abbrev late : Timespec
late = record { tv_sec = pos 5; tv_nsec = pos 900000000 }

timespec_add_sub-exact_example :
    ((s : Timespec) × (timespec_add early late ≡ some s)
      × IsNormalized s
      × (nanoseconds_pos s + nanoseconds_neg early + nanoseconds_neg late
          ≡ nanoseconds_neg s + nanoseconds_pos early + nanoseconds_pos late))
    × ((d : Timespec) × (timespec_sub early late ≡ some d)
        × IsNormalized d
        × (nanoseconds_pos d + nanoseconds_neg early + nanoseconds_pos late
            ≡ nanoseconds_neg d + nanoseconds_pos early + nanoseconds_neg late))
timespec_add_sub-exact_example =
    timespec_add_sub-exact early late (refl, omega arith) (refl, omega arith)
      (omega arith, omega arith) (omega arith, omega arith)

abbrev two_short_reads : List ReadCall
two_short_reads = stored (11 ∷ 12 ∷ []) ∷ stored (13 ∷ 14 ∷ []) ∷ []

-- Two reads of two bytes each fill four bytes by their count, but the last two stay 0.
generate_random_data-tail_example :
    drop {A = ℕ} 2 (13 ∷ 14 ∷ 0 ∷ 0 ∷ []) ≡ drop {A = ℕ} 2 (0 ∷ 0 ∷ 0 ∷ 0 ∷ [])
unfolding generate_random_data
generate_random_data-tail_example =
    generate_random_data-tail true (0 ∷ 0 ∷ 0 ∷ 0 ∷ []) two_short_reads 2 (pos 0)
      (13 ∷ 14 ∷ 0 ∷ 0 ∷ []) (omega arith, (omega arith, tt)) refl
