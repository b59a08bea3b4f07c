-- ===== src/V2g/Transport/Tcp.antt =====
-- modules/EvseTestV2G/connection/connection.cpp: `is_sequence_timeout` and `connection_read`, the
-- read of a plain TCP connection. A link is what the rounds of the loop meet. Each round of
-- `select` waits for at most `network_read_timeout`, so the sequence timeout comes after finitely
-- many rounds: the end of the list is the round at which it has come.
use evse_test_system.Base.{
  ℕ, ◌+◌, ◌-◌, ◌≤◌, ◌≡◌, refl, Bool, true, false, not, ◌&&◌, ◌||◌, List, [], ◌∷◌, ◌++◌, length,
  take, length-append, length-take, ltb, if◌then◌else◌, Option, none, some, zero, suc, ◌⊎◌, inl,
  inr, arith,
}
use evse_test_system.Base.Int.{ℤ, pos, negsuc, ltb_ℤ}
use evse_test_system.V2g.Interface.{ReadResult, Transport, IsBounded}

abbrev pub sequence_timeout_60s : ℕ
sequence_timeout_60s = 60000

-- `available bytes`: what `read` gave, of which it stores no more than it was asked for;
-- `available []` is the end of the peer's data.
pub data Event : Type 0 where
  select_interrupted select_failed not_ready read_interrupted read_failed : Event
  available : List ℕ → Event

pub record Round : Type 0 where
  pub clock_failed : Bool
  -- `timespec_to_ms` of the time since the start of the read.
  pub elapsed_ms : ℤ
  pub is_connection_terminated : Bool
  pub force_next_connection_req_res : Bool
  pub event : Event

unfoldable pub is_sequence_timeout : Round → Bool
is_sequence_timeout r = r.clock_failed || ltb_ℤ (pos sequence_timeout_60s) r.elapsed_ms

-- What follows the loop. The flags are read again; they are those of the last round.
abbrev finish : Bool → Bool → List ℕ → ReadResult
finish terminated force got =
    if terminated && not force
    then record { value = negsuc 1; bytes = got }
    else record { value = pos (length got); bytes = got }

abbrev failed : List ℕ → ReadResult
failed got = record { value = negsuc 0; bytes = got }

-- What one evaluation of the loop's condition and body does: leave the loop, return from within it,
-- or go on with the new bytes.
pub data Outcome : Type 0 where
  leave return : ReadResult → Outcome
  go_on : List ℕ → Outcome

pub round : Bool → ℕ → List ℕ → Round → Outcome
unfolding is_sequence_timeout
round tls count got r =
    if ltb (length got) count
      && (not (is_sequence_timeout r)
          && (not r.is_connection_terminated || r.force_next_connection_req_res))
    then if tls then return (failed got) else elim r.event [
      | select_interrupted ↦ go_on []
      | select_failed ↦ return (failed got)
      | not_ready ↦ go_on []
      | read_interrupted ↦ go_on []
      | read_failed ↦ return (failed got)
      | available new ↦ elim new [
        | [] ↦ return (record { value = pos (length got); bytes = got })
        | b ∷ bs ↦ go_on (take (count - length got) (b ∷ bs))
      ]
    ]
    else leave (finish r.is_connection_terminated r.force_next_connection_req_res got)

-- The loop; `got` are the bytes read so far.
read_loop : Bool → ℕ → List ℕ → List Round → ReadResult × List Round
read_loop tls count got [] = (record { value = pos (length got); bytes = got }, [])
read_loop tls count got (r ∷ rs) = elim (round tls count got r) [
  | leave result ↦ (result, r ∷ rs)
  | return result ↦ (result, rs)
  | go_on new ↦ read_loop tls count (got ++ new) rs
]

-- `start_failed`: the first reading of the clock failed.
unfoldable pub connection_read : Bool → Bool → ℕ → List Round → ReadResult × List Round
unfolding read_loop
connection_read start_failed tls count rounds =
    if start_failed then (failed [], rounds) else read_loop tls count [] rounds

-- What a call of `write` gave; `written 0` is a closed connection.
pub data WriteEvent : Type 0 where
  write_interrupted write_failed : WriteEvent
  written : ℕ → WriteEvent

-- The loop of `connection_write`, which has no timeout: without a further event it is blocked in
-- `write`. The test of the connection's kind comes after the first call of `write`.
write_loop : Bool → ℕ → ℕ → List WriteEvent → Option ℤ
write_loop tls count done [] = if ltb done count then none else some (pos done)
write_loop tls count done (e ∷ es) =
    let again = write_loop tls count done es in
    let more = λ (n : ℕ). write_loop tls count (done + n) es in
    if ltb done count
    then if tls then some (negsuc 0) else elim e [
      | write_interrupted ↦ again
      | write_failed ↦ some (negsuc 0)
      | written n ↦ elim n [ zero ↦ some (pos done) | suc k ↦ more (suc k) ]
    ]
    else some (pos done)

unfoldable pub connection_write : Bool → ℕ → List WriteEvent → Option ℤ
unfolding write_loop
connection_write tls count events = write_loop tls count 0 events

-- What a call may return.
IsRead : ℕ → ReadResult → Type 0
IsRead count r =
    (length r.bytes ≤ count)
    × (r.value ≡ pos (length r.bytes) ⊎ r.value ≡ negsuc 0 ⊎ r.value ≡ negsuc 1)

IsOutcome : ℕ → List ℕ → Outcome → Type 0
IsOutcome count got (leave r) = IsRead count r
IsOutcome count got (return r) = IsRead count r
IsOutcome count got (go_on new) = length (got ++ new) ≤ count

round-IsOutcome :
    (tls : Bool) (count : ℕ) (got : List ℕ) (r : Round) (e : Event)
    → r.event ≡ e
    → length got ≤ count
    → IsOutcome count got (round tls count got r)
unfolding round IsOutcome IsRead
round-IsOutcome tls count got r (available (b ∷ bs)) e h = ground (
  arith,
  length-append got (take (count - length got) (b ∷ bs)),
  length-take (count - length got) (b ∷ bs),
)
round-IsOutcome tls count got r _ e h = ground (arith, length-append got [])

read_loop-IsRead :
    (tls : Bool) (count : ℕ) (got : List ℕ) (rs : List Round)
    → length got ≤ count
    → IsRead count (read_loop tls count got rs).0
unfolding read_loop IsRead IsOutcome
read_loop-IsRead tls count got [] h = (h, inl refl)
read_loop-IsRead tls count got (r ∷ rs) h =
    elim (round tls count got r)
        as (λ o.
          IsOutcome count got o
          → IsRead count
              (elim o as (λ _. ReadResult × List Round) [
                | leave result ↦ (result, r ∷ rs)
                | return result ↦ (result, rs)
                | go_on new ↦ read_loop tls count (got ++ new) rs
              ]).0) [
                | leave _ ↦ λ p. p
                | return _ ↦ λ p. p
                | go_on new ↦ λ p. read_loop-IsRead tls count (got ++ new) rs p
              ]
      (round-IsOutcome tls count got r r.event refl h)

-- Every call of `connection_read` stores at most as many bytes as it was asked for, and returns their
-- number, -1 or -2, for every course of the rounds.
pub connection_read-bounded :
    (start_failed tls : Bool) (count : ℕ) (rounds : List Round)
    → let r = (connection_read start_failed tls count rounds).0 in
      (length r.bytes ≤ count)
      × (r.value ≡ pos (length r.bytes) ⊎ r.value ≡ negsuc 0 ⊎ r.value ≡ negsuc 1)
unfolding connection_read IsRead
connection_read-bounded true tls count rounds = ground arith
connection_read-bounded false tls count rounds = read_loop-IsRead tls count [] rounds (omega arith)

pub connection_read-IsBounded :
    (count : ℕ) (rounds : List Round) → IsBounded count (connection_read false false count rounds).0
connection_read-IsBounded count rounds =
    let b = connection_read-bounded false false count rounds in
    (b.0, elim b.1 [ inl e ↦ inl e | inr f ↦ elim f [ inl e ↦ inr (0, e) | inr e ↦ inr (1, e) ] ])

-- A link of a plain TCP connection of a V2G server: the rounds to come.
abbrev pub tcp_transport : Transport
tcp_transport = record {
  Link = List Round;
  read = λ l count. connection_read false false count l;
  read-IsBounded = λ l count. connection_read-IsBounded count l;
}
