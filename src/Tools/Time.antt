-- ===== src/Tools/Time.antt =====
-- modules/EvseTestV2G/tools.cpp: `set_normalized_timespec`, `timespec_add`, `timespec_sub` and
-- `timespec_to_ms`, where `time_t`, `long` and `int64_t` have 64 bits. `none` is a signed overflow, which is
-- undefined.
use evse_test_system.Base.{
  ℕ, zero, suc, ◌+◌, ◌-◌, ◌*◌, ◌/◌, ◌%◌, ◌^◌, ◌≡◌, sym, ◌≤◌, ◌<◌, leb, ltb, ◌&&◌, Bool, Option,
  none, some, if◌then◌else◌, arith,
}
use mathlib.Core.Path.{subst}
use evse_test_system.Base.Int.{
  ℤ, pos, negsuc, ◌+ℤ◌, ◌-ℤ◌, ◌*ℤ◌, pos_part, neg_part, sub_ℕ, +ℤ_parts, -ℤ_parts,
}

abbrev nsec_per_sec : ℕ
nsec_per_sec = 1000000000

pub record Timespec : Type 0 where
  pub tv_sec : ℤ
  pub tv_nsec : ℤ

-- The first loop, on a number of nanoseconds that is not negative; `fuel` is a number of rounds.
unfoldable pub carry : ℕ → ℤ → ℕ → Timespec
carry zero sec nsec = record { tv_sec = sec; tv_nsec = pos nsec }
carry (suc fuel) sec nsec =
    let rest = carry fuel (sec +ℤ pos 1) (nsec - nsec_per_sec) in
    if leb nsec_per_sec nsec then rest else record { tv_sec = sec; tv_nsec = pos nsec }

-- The second loop, on `nsec` = -(n + 1), which ends as soon as `nsec` is not negative.
unfoldable pub borrow : ℕ → ℤ → ℕ → Timespec
borrow zero sec n = record { tv_sec = sec; tv_nsec = negsuc n }
borrow (suc fuel) sec n =
    let rest = borrow fuel (sec -ℤ pos 1) (n - nsec_per_sec) in
    if leb nsec_per_sec n
    then rest
    else record { tv_sec = sec -ℤ pos 1; tv_nsec = pos (nsec_per_sec - 1 - n) }

-- As many rounds as there are nanoseconds are enough.
unfoldable pub set_normalized_timespec : ℤ → ℤ → Timespec
unfolding carry borrow
set_normalized_timespec sec (pos n) = carry n sec n
set_normalized_timespec sec (negsuc n) = borrow (suc n) sec n

abbrev is_int64 : ℤ → Bool
is_int64 z = ltb (pos_part z) (2 ^ 63) && leb (neg_part z) (2 ^ 63)

-- `set_normalized_timespec` of arguments that were computed: they fit, and so do the seconds of the
-- result. The seconds move in one direction only, so those between fit as well.
unfoldable pub normalized : ℤ → ℤ → Option Timespec
unfolding set_normalized_timespec
normalized sec nsec =
    let t = set_normalized_timespec sec nsec in
    if is_int64 sec && (is_int64 nsec && is_int64 t.tv_sec) then some t else none

unfoldable pub timespec_add : Timespec → Timespec → Option Timespec
unfolding normalized
timespec_add l r = normalized (l.tv_sec +ℤ r.tv_sec) (l.tv_nsec +ℤ r.tv_nsec)

unfoldable pub timespec_sub : Timespec → Timespec → Option Timespec
unfolding normalized
timespec_sub l r = normalized (l.tv_sec -ℤ r.tv_sec) (l.tv_nsec -ℤ r.tv_nsec)

-- The quotient of the source rounds towards 0, and the product takes its sign.
unfoldable pub timespec_add_ms : Timespec → ℤ → Option Timespec
unfolding normalized
timespec_add_ms t (pos m) =
    normalized (t.tv_sec +ℤ pos (m / 1000)) (t.tv_nsec +ℤ pos (m % 1000 * 1000 * 1000))
timespec_add_ms t (negsuc n) =
    normalized (t.tv_sec +ℤ sub_ℕ 0 (suc n / 1000))
      (t.tv_nsec +ℤ sub_ℕ 0 (suc n % 1000 * 1000 * 1000))

-- The quotient of a `tv_nsec` that is not negative; otherwise it is rounded towards 0.
unfoldable pub timespec_to_ms : Timespec → Option ℤ
timespec_to_ms t =
    let sec = t.tv_sec *ℤ pos 1000 in
    let ms = sec +ℤ sub_ℕ (pos_part t.tv_nsec / 1000000) (neg_part t.tv_nsec / 1000000) in
    if is_int64 sec && is_int64 ms then some ms else none

-- A timespec as a number of nanoseconds, and the range of a normalized one.
abbrev pub nanoseconds_pos : Timespec → ℕ
nanoseconds_pos t = nsec_per_sec * pos_part t.tv_sec + pos_part t.tv_nsec

abbrev pub nanoseconds_neg : Timespec → ℕ
nanoseconds_neg t = nsec_per_sec * neg_part t.tv_sec + neg_part t.tv_nsec

-- Two timespecs of the same time.
abbrev pub SameTime : Timespec → Timespec → Type 0
SameTime s t = nanoseconds_pos s + nanoseconds_neg t ≡ nanoseconds_pos t + nanoseconds_neg s

abbrev pub IsNormalized : Timespec → Type 0
IsNormalized t = (neg_part t.tv_nsec ≡ 0) × (pos_part t.tv_nsec < nsec_per_sec)

abbrev IsNormalOf : ℤ → ℤ → Timespec → Type 0
IsNormalOf sec nsec t = IsNormalized t × SameTime t (record { tv_sec = sec; tv_nsec = nsec })

carry-lem : (fuel : ℕ) (sec : ℤ) (n : ℕ) → n ≤ fuel → IsNormalOf sec (pos n) (carry fuel sec n)
unfolding carry
carry-lem zero sec n h = ground arith
carry-lem (suc fuel) sec n h =
    ground (arith, carry-lem fuel (sec +ℤ pos 1) (n - nsec_per_sec), +ℤ_parts sec (pos 1))

borrow-lem : (fuel : ℕ) (sec : ℤ) (n : ℕ) → n < fuel → IsNormalOf sec (negsuc n) (borrow fuel sec n)
unfolding borrow
borrow-lem zero sec n h = ground arith
borrow-lem (suc fuel) sec n h =
    ground (arith, borrow-lem fuel (sec -ℤ pos 1) (n - nsec_per_sec), -ℤ_parts sec (pos 1))

set_normalized_timespec-lem :
    (sec nsec : ℤ) → IsNormalOf sec nsec (set_normalized_timespec sec nsec)
unfolding set_normalized_timespec
set_normalized_timespec-lem sec (pos n) = carry-lem n sec n (omega arith)
set_normalized_timespec-lem sec (negsuc n) = borrow-lem (suc n) sec n (omega arith)

normalized-lem :
    (sec nsec : ℤ)
    → pos_part sec < 2 ^ 63 - 2
    → neg_part sec < 2 ^ 63 - 2
    → pos_part nsec < 2 * nsec_per_sec
    → neg_part nsec < 2 * nsec_per_sec
    → (t : Timespec) × (normalized sec nsec ≡ some t) × IsNormalOf sec nsec t
unfolding normalized
normalized-lem sec nsec a b c d =
    let t = set_normalized_timespec sec nsec in
    let k = set_normalized_timespec-lem sec nsec in
    let bound : (pos_part t.tv_sec < 2 ^ 63) × (neg_part t.tv_sec ≤ 2 ^ 63) = ground (arith, k) in
    (t, ground arith, k)

normalized-IsNormalOf :
    (sec nsec : ℤ) (t : Timespec) → normalized sec nsec ≡ some t → IsNormalOf sec nsec t
unfolding normalized
normalized-IsNormalOf sec nsec t e =
    let k = set_normalized_timespec-lem sec nsec in
    let same : t ≡ set_normalized_timespec sec nsec = ground arith in
    subst (IsNormalOf sec nsec) (sym same) k

sum-nanoseconds :
    (l r t : Timespec)
    → SameTime t (record { tv_sec = l.tv_sec +ℤ r.tv_sec; tv_nsec = l.tv_nsec +ℤ r.tv_nsec })
    → nanoseconds_pos t + nanoseconds_neg l + nanoseconds_neg r
      ≡ nanoseconds_neg t + nanoseconds_pos l + nanoseconds_pos r
sum-nanoseconds l r t h = omega (arith, h, +ℤ_parts l.tv_sec r.tv_sec, +ℤ_parts l.tv_nsec r.tv_nsec)

difference-nanoseconds :
    (l r t : Timespec)
    → SameTime t (record { tv_sec = l.tv_sec -ℤ r.tv_sec; tv_nsec = l.tv_nsec -ℤ r.tv_nsec })
    → nanoseconds_pos t + nanoseconds_neg l + nanoseconds_pos r
      ≡ nanoseconds_neg t + nanoseconds_pos l + nanoseconds_neg r
difference-nanoseconds l r t h =
    omega (arith, h, -ℤ_parts l.tv_sec r.tv_sec, -ℤ_parts l.tv_nsec r.tv_nsec)

-- A time less than 2 ^ 62 - 2 seconds from 0.
abbrev pub IsInRange : Timespec → Type 0
IsInRange t = (pos_part t.tv_sec < 2 ^ 62 - 2) × (neg_part t.tv_sec < 2 ^ 62 - 2)

-- The sum and the difference of two normalized times, each less than 2 ^ 62 - 2 seconds from 0, do
-- not overflow; they are normalized, with `tv_nsec` from 0 to 999999999, and exact: as numbers of
-- nanoseconds, the sum is l + r and the difference l - r.
pub timespec_add_sub-exact :
    (l r : Timespec)
    → IsNormalized l
    → IsNormalized r
    → IsInRange l
    → IsInRange r
    → ((s : Timespec) × (timespec_add l r ≡ some s)
        × IsNormalized s
        × (nanoseconds_pos s + nanoseconds_neg l + nanoseconds_neg r
            ≡ nanoseconds_neg s + nanoseconds_pos l + nanoseconds_pos r))
      × ((d : Timespec) × (timespec_sub l r ≡ some d)
          × IsNormalized d
          × (nanoseconds_pos d + nanoseconds_neg l + nanoseconds_pos r
              ≡ nanoseconds_neg d + nanoseconds_pos l + nanoseconds_neg r))
unfolding timespec_add timespec_sub ◌+ℤ◌ ◌-ℤ◌
timespec_add_sub-exact l r a b c d =
    let sum =
      normalized-lem (l.tv_sec +ℤ r.tv_sec) (l.tv_nsec +ℤ r.tv_nsec) (ground arith) (ground arith)
        (ground arith) (ground arith) in
    let difference =
      normalized-lem (l.tv_sec -ℤ r.tv_sec) (l.tv_nsec -ℤ r.tv_nsec) (ground arith) (ground arith)
        (ground arith) (ground arith) in
    (
      (sum.0, sum.1, sum.2.0, sum-nanoseconds l r sum.0 sum.2.1),
      (
        difference.0,
        difference.1,
        difference.2.0,
        difference-nanoseconds l r difference.0 difference.2.1,
      ),
    )

ms-nanoseconds :
    (t u : Timespec) (sec nsec : ℤ) (p n : ℕ)
    → nsec_per_sec * pos_part sec + pos_part nsec + n
      ≡ nsec_per_sec * neg_part sec + neg_part nsec + p
    → SameTime u (record { tv_sec = t.tv_sec +ℤ sec; tv_nsec = t.tv_nsec +ℤ nsec })
    → nanoseconds_pos u + nanoseconds_neg t + n ≡ nanoseconds_neg u + nanoseconds_pos t + p
ms-nanoseconds t u sec nsec p n e h =
    omega (arith, e, h, +ℤ_parts t.tv_sec sec, +ℤ_parts t.tv_nsec nsec)

-- Where adding milliseconds, also a negative number of them, does not overflow, it moves the time
-- by exactly 1000000 nanoseconds for each, and the result is normalized.
timespec_add_ms-exact :
    (t u : Timespec) (ms : ℤ)
    → timespec_add_ms t ms ≡ some u
    → IsNormalized u
      × (nanoseconds_pos u + nanoseconds_neg t + 1000000 * neg_part ms
          ≡ nanoseconds_neg u + nanoseconds_pos t + 1000000 * pos_part ms)
unfolding timespec_add_ms
timespec_add_ms-exact t u (pos m) e =
    let sec = pos (m / 1000) in
    let nsec = pos (m % 1000 * 1000 * 1000) in
    let k = normalized-IsNormalOf (t.tv_sec +ℤ sec) (t.tv_nsec +ℤ nsec) u e in
    (k.0, ms-nanoseconds t u sec nsec (1000000 * m) 0 (omega arith) k.1)
timespec_add_ms-exact t u (negsuc n) e =
    let sec = sub_ℕ 0 (suc n / 1000) in
    let nsec = sub_ℕ 0 (suc n % 1000 * 1000 * 1000) in
    let k = normalized-IsNormalOf (t.tv_sec +ℤ sec) (t.tv_nsec +ℤ nsec) u e in
    (k.0, ms-nanoseconds t u sec nsec 0 (1000000 * suc n) (ground arith) k.1)
