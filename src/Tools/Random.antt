-- ===== src/Tools/Random.antt =====
-- modules/EvseTestV2G/tools.cpp: `safe_read` and `generate_random_data`. `read` is the system's: what
-- its calls give is a list, which the loops consume from the front.
use evse_test_system.Base.{
  ℕ, zero, suc, ◌+◌, ◌≡◌, refl, ◌≤◌, Bool, true, false, List, [], ◌∷◌, ◌++◌, Option, none, some,
  length, take, drop, length-take, if◌then◌else◌, ltb, arith,
}
use evse_test_system.Base.Int.{ℤ, pos, negsuc}

-- A call of `read`: interrupted, failed, or the bytes that it stored at the start of the destination.
pub data ReadCall : Type 0 where
  interrupted failed : ReadCall
  stored : List ℕ → ReadCall

-- The loop; `memory` is the destination. Each call stores at its start and may fill all of it, as
-- `dest` and `dest_len` stay what they are. After an interrupted call `safe_read` calls again.
-- `none`: still waiting for `read`.
unfoldable pub fill : List ℕ → ℕ → ℕ → List ReadCall → Option (ℤ × List ℕ)
fill memory dest_len len [] = if ltb len dest_len then none else some (pos 0, memory)
fill memory dest_len len (interrupted ∷ cs) =
    let rest = fill memory dest_len len cs in
    if ltb len dest_len then rest else some (pos 0, memory)
fill memory dest_len len (failed ∷ cs) =
    if ltb len dest_len then some (negsuc 0, memory) else some (pos 0, memory)
fill memory dest_len len (stored bytes ∷ cs) =
    let new = take dest_len bytes in
    let rest = fill (new ++ drop (length new) memory) dest_len (len + length new) cs in
    if ltb len dest_len then rest else some (pos 0, memory)

-- `is_open`: `/dev/urandom` could be opened.
unfoldable pub generate_random_data : Bool → List ℕ → List ReadCall → Option (ℤ × List ℕ)
unfolding fill
generate_random_data is_open dest calls =
    if is_open then fill dest (length dest) 0 calls else some (negsuc 0, dest)

-- No call gives more than `k` bytes.
abbrev pub AtMost : ℕ → List ReadCall → Type 0
AtMost k [] = Unit
AtMost k (stored bytes ∷ cs) = (length bytes ≤ k) × AtMost k cs
AtMost k (interrupted ∷ cs) = AtMost k cs
AtMost k (failed ∷ cs) = AtMost k cs

drop_nil : (n : ℕ) → drop {A = ℕ} n [] ≡ []
drop_nil zero = refl
drop_nil (suc n) = refl

drop_overwritten :
    (k : ℕ) (new memory : List ℕ)
    → length new ≤ k
    → drop k (new ++ drop (length new) memory) ≡ drop k memory
drop_overwritten k [] memory h = refl
drop_overwritten zero (x ∷ xs) memory h = ground arith
drop_overwritten (suc k) (x ∷ xs) [] h =
    grind (arith, drop_nil (length xs), drop_nil k, drop_overwritten k xs [])
drop_overwritten (suc k) (x ∷ xs) (m ∷ ms) h = drop_overwritten k xs ms (omega (arith, h))

fill-keeps :
    (k : ℕ) (memory : List ℕ) (dest_len len : ℕ) (cs : List ReadCall) (v : ℤ) (m : List ℕ)
    → AtMost k cs
    → fill memory dest_len len cs ≡ some (v, m)
    → drop k m ≡ drop k memory
unfolding fill
fill-keeps k memory dest_len len [] v m h e = ground arith
fill-keeps k memory dest_len len (interrupted ∷ cs) v m h e =
    ground (arith, fill-keeps k memory dest_len len cs v m h)
fill-keeps k memory dest_len len (failed ∷ cs) v m h e = ground arith
fill-keeps k memory dest_len len (stored bytes ∷ cs) v m h e =
    let new = take dest_len bytes in
    let next = new ++ drop (length new) memory in
    ground (
      arith,
      fill-keeps k next dest_len (len + length new) cs v m h.1,
      drop_overwritten k new memory,
      length-take dest_len bytes,
    )

-- When no call of `read` gives more than `k` bytes, `generate_random_data` leaves every byte of the
-- destination from index `k` on as it was, also where it returns 0.
pub generate_random_data-tail :
    (is_open : Bool) (dest : List ℕ) (calls : List ReadCall) (k : ℕ) (v : ℤ) (m : List ℕ)
    → AtMost k calls
    → generate_random_data is_open dest calls ≡ some (v, m)
    → drop k m ≡ drop k dest
unfolding generate_random_data
generate_random_data-tail true dest calls k v m h e =
    fill-keeps k dest (length dest) 0 calls v m h e
generate_random_data-tail false dest calls k v m h e = ground arith
