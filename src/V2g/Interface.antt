-- ===== src/V2g/Interface.antt =====
-- The interface between the V2G server and its connections: the function pointer `read` of
-- `v2g_connection` (modules/EvseTestV2G/v2g.hpp), with what the server relies on.
use evse_test_system.Base.{ℕ, ◌⊎◌, ◌≤◌, ◌≡◌, List, length}
use evse_test_system.Base.Int.{ℤ, pos, negsuc}

-- What a read returns: the value of the call, and the bytes that it stored.
pub record ReadResult : Type 0 where
  pub value : ℤ
  pub bytes : List ℕ

-- A read of `count` bytes stores no more than were asked for, and returns their number or an error.
abbrev pub IsBounded : ℕ → ReadResult → Type 0
IsBounded count r =
    (length r.bytes ≤ count) × ((r.value ≡ pos (length r.bytes)) ⊎ ((n : ℕ) × (r.value ≡ negsuc n)))

pub record Transport : Type 1 where
  pub Link : Type 0
  pub read : Link → ℕ → ReadResult × Link
  pub read-IsBounded : (l : Link) (count : ℕ) → IsBounded count (read l count).0
