-- ===== src/TestManager/Sniffer.antt =====
-- modules/EvseTestManager/PacketSniffer.cpp: the state word that `start_capture`, `stop_capture`
-- and the detached capture thread share, one atomic operation to a step. libpcap is the
-- environment: it decides whether the dump file opens and whether a poll fails.
use evse_test_system.Base.{ℕ, ◌+◌, ◌≤◌, ◌≡◌, refl, ◌≢◌, ◌⊎◌, inl, Bool, true, false, arith}

pub data SnifferState : Type 0 where
  off standby capturing stopping stopped : SnifferState

-- Where the capture thread stands. `gone` is a thread that has returned, or none.
pub data CaptureThread : Type 0 where
  gone opening polling closing : CaptureThread

-- Where the caller of `stop_capture` stands: before the first exchange, before the test of the
-- state, between the predicate of `cv.wait` and the block, blocked, and before the last exchange.
pub data Stopper : Type 0 where
  outside entered checking about_to_block blocked resetting : Stopper

pub record Sniffer : Type 0 where
  pub state : SnifferState
  pub thread : CaptureThread
  pub stopper : Stopper

-- `compare_exchange_strong` on the state.
abbrev exchange_running : SnifferState → SnifferState
exchange_running capturing = stopping
exchange_running s = s

abbrev exchange_stopping : SnifferState → SnifferState
exchange_stopping stopping = stopped
exchange_stopping s = s

abbrev exchange_stopped : SnifferState → SnifferState
exchange_stopped stopped = standby
exchange_stopped s = s

-- `notify_all` lets a blocked caller test its predicate again.
abbrev notified : Stopper → Stopper
notified blocked = checking
notified p = p

-- The steps. `may_fail` says whether `pcap_dump_open` can fail.
pub data Step (may_fail : Bool) (s : Sniffer) : Sniffer → Type 0 where
  start : s.state ≡ standby → Step may_fail s (record s { state = capturing; thread = opening })
  open_ok : s.thread ≡ opening → Step may_fail s (record s { thread = polling })
  open_fails : may_fail ≡ true → s.thread ≡ opening → Step may_fail s (record s { thread = gone })
  poll_error :
      s.thread ≡ polling
      → s.state ≡ capturing
      → Step may_fail s (record s { state = stopping; thread = closing })
  leave_loop :
      s.thread ≡ polling → s.state ≢ capturing → Step may_fail s (record s { thread = closing })
  close_dump :
      s.thread ≡ closing
      → s.state ≡ stopping
      → Step may_fail s (record s { state = stopped; thread = gone; stopper = notified s.stopper })
  close_late :
      s.thread ≡ closing → s.state ≢ stopping → Step may_fail s (record s { thread = gone })
  call_stop : s.stopper ≡ outside → s.state ≢ off → Step may_fail s (record s { stopper = entered })
  exchange :
      s.stopper ≡ entered
      → Step may_fail s (record s { state = exchange_running s.state; stopper = checking })
  must_wait :
      s.stopper ≡ checking
      → s.state ≡ stopping
      → Step may_fail s (record s { stopper = about_to_block })
  no_wait :
      s.stopper ≡ checking → s.state ≢ stopping → Step may_fail s (record s { stopper = resetting })
  block : s.stopper ≡ about_to_block → Step may_fail s (record s { stopper = blocked })
  wake_spuriously : s.stopper ≡ blocked → Step may_fail s (record s { stopper = checking })
  return_from_stop :
      s.stopper ≡ resetting
      → Step may_fail s (record s { state = exchange_stopped s.state; stopper = outside })

pub data Reach (may_fail : Bool) (s : Sniffer) : Sniffer → Type 0 where
  here : Reach may_fail s s
  next : {t u : Sniffer} → Reach may_fail s t → Step may_fail t u → Reach may_fail s u

-- The capture thread has returned without an exchange, and `stop_capture` is under way.
abbrev pub IsStuck : Sniffer → Type 0
IsStuck s =
    (s.thread ≡ gone)
    × (((s.state ≡ capturing) × (s.stopper ≡ entered))
        ⊎ ((s.state ≡ stopping)
            × ((s.stopper ≡ checking) ⊎ (s.stopper ≡ about_to_block) ⊎ (s.stopper ≡ blocked))))

Step-IsStuck : {f : Bool} {s t : Sniffer} → Step f s t → IsStuck s → IsStuck t
Step-IsStuck (start e) h = ground arith
Step-IsStuck (open_ok e) h = ground arith
Step-IsStuck (open_fails f e) h = ground arith
Step-IsStuck (poll_error e s) h = ground arith
Step-IsStuck (leave_loop e s) h = ground arith
Step-IsStuck (close_dump e s) h = ground arith
Step-IsStuck (close_late e s) h = ground arith
Step-IsStuck (call_stop e s) h = ground arith
Step-IsStuck (exchange e) h = ground arith
Step-IsStuck (must_wait e s) h = ground arith
Step-IsStuck (no_wait e s) h = ground arith
Step-IsStuck (block e) h = ground arith
Step-IsStuck (wake_spuriously e) h = ground arith
Step-IsStuck (return_from_stop e) h = ground arith

Reach-IsStuck : {f : Bool} {s t : Sniffer} → IsStuck s → Reach f s t → IsStuck t
Reach-IsStuck h here = h
Reach-IsStuck h (next r e) = Step-IsStuck e (Reach-IsStuck h r)

-- If the dump file did not open, so that the capture thread has returned while the state still
-- says that it runs, then a call of `stop_capture` that has begun never returns, whatever happens.
pub stop_never_returns :
    {f : Bool} {s t : Sniffer}
    → s.thread ≡ gone
    → s.state ≡ capturing
    → s.stopper ≡ entered
    → Reach f s t
    → t.stopper ≢ outside
stop_never_returns h c e r = stuck_inside (Reach-IsStuck (h, inl (c, e)) r)
  where
    stuck_inside : {t : Sniffer} → IsStuck t → t.stopper ≢ outside
    stuck_inside h = ground arith

-- While the state says that a capture runs or is being stopped, its thread has not returned.
pub record IsAlive (s : Sniffer) : Type 0 where
  pub runs : s.state ≡ capturing → (s.thread ≡ opening) ⊎ (s.thread ≡ polling)
  pub ends : s.state ≡ stopping → s.thread ≢ gone
  pub rests : (s.state ≡ standby) ⊎ (s.state ≡ stopped) → s.thread ≡ gone

Step-IsAlive : {s t : Sniffer} → Step false s t → IsAlive s → IsAlive t
Step-IsAlive (start e) h = ground arith
Step-IsAlive (open_ok e) h = ground arith
Step-IsAlive (open_fails f e) h = ground arith
Step-IsAlive (poll_error e s) h = ground arith
Step-IsAlive (leave_loop e s) h = ground arith
Step-IsAlive (close_dump e s) h = ground arith
Step-IsAlive (close_late e s) h = ground arith
Step-IsAlive (call_stop e s) h = ground arith
Step-IsAlive (exchange e) h = ground arith
Step-IsAlive (must_wait e s) h = ground arith
Step-IsAlive (no_wait e s) h = ground arith
Step-IsAlive (block e) h = ground arith
Step-IsAlive (wake_spuriously e) h = ground arith
Step-IsAlive (return_from_stop e) h = ground arith

Reach-IsAlive : {s t : Sniffer} → IsAlive s → Reach false s t → IsAlive t
Reach-IsAlive h here = h
Reach-IsAlive h (next r e) = Step-IsAlive e (Reach-IsAlive h r)

-- 1 for a step of the capture thread, 0 for one of somebody else.
abbrev pub own : {f : Bool} {s t : Sniffer} → Step f s t → ℕ
own (open_ok _) = 1
own (open_fails _ _) = 1
own (poll_error _ _) = 1
own (leave_loop _ _) = 1
own (close_dump _ _) = 1
own (close_late _ _) = 1
own _ = 0

-- What is reached by steps of the capture thread alone.
pub data ThreadReach (may_fail : Bool) (s : Sniffer) : Sniffer → Type 0 where
  resting : ThreadReach may_fail s s
  act :
      {t u : Sniffer}
      → ThreadReach may_fail s t
      → (e : Step may_fail t u) → own e ≡ 1
      → ThreadReach may_fail s u

-- How many steps the thread of a capture that is being stopped still makes.
abbrev pub left : CaptureThread → ℕ
left opening = 3
left polling = 2
left closing = 1
left gone = 0

finish_closing :
    {f : Bool} {s : Sniffer} (t : Sniffer)
    → ThreadReach f s t
    → t.thread ≡ closing
    → t.state ≡ stopping
    → (u : Sniffer) × ThreadReach f s u × (u.state ≡ stopped)
finish_closing t r c e = (
  record t { state = stopped; thread = gone; stopper = notified t.stopper },
  act r (close_dump c e) refl,
  refl,
)

finish_from :
    (th : CaptureThread) (t : Sniffer)
    → t.thread ≡ th
    → th ≢ gone
    → t.state ≡ stopping
    → (u : Sniffer) × ThreadReach false t u × (u.state ≡ stopped)
finish_from gone t c h e = absurd (h refl)
finish_from opening t c h e =
    finish_closing (record t { thread = closing })
      (act (act resting (open_ok c) refl) (leave_loop refl (ground arith)) refl) refl e
finish_from polling t c h e =
    finish_closing (record t { thread = closing }) (act resting (leave_loop c (ground arith)) refl)
      refl e
finish_from closing t c h e = finish_closing t resting c e

stopping_step :
    {t v : Sniffer}
    → t.thread ≢ gone
    → t.state ≡ stopping
    → (e : Step false t v)
    → (v.state ≡ stopped) ⊎ ((v.state ≡ stopping) × (left v.thread + own e ≤ left t.thread))
stopping_step h s (start e) = ground arith
stopping_step h s (open_ok e) = ground arith
stopping_step h s (open_fails f e) = ground arith
stopping_step h s (poll_error e c) = ground arith
stopping_step h s (leave_loop e c) = ground arith
stopping_step h s (close_dump e c) = ground arith
stopping_step h s (close_late e c) = ground arith
stopping_step h s (call_stop e c) = ground arith
stopping_step h s (exchange e) = ground arith
stopping_step h s (must_wait e c) = ground arith
stopping_step h s (no_wait e c) = ground arith
stopping_step h s (block e) = ground arith
stopping_step h s (wake_spuriously e) = ground arith
stopping_step h s (return_from_stop e) = ground arith

-- Where opening the dump file does not fail: after any steps from a state in which the capture
-- thread is alive, a capture that is being stopped still has its thread; steps of that thread alone
-- lead to the state for which `stop_capture` waits; and every step, of anybody, leads to that state
-- or leaves the capture being stopped, where one of the thread takes away from the steps that are
-- left to it, three at most, and one of somebody else adds none.
pub stop_can_finish :
    {s t : Sniffer}
    → IsAlive s
    → Reach false s t
    → t.state ≡ stopping
    → (t.thread ≢ gone)
      × ((u : Sniffer) × ThreadReach false t u × (u.state ≡ stopped))
      × ((v : Sniffer) (e : Step false t v)
          → (v.state ≡ stopped) ⊎ ((v.state ≡ stopping) × (left v.thread + own e ≤ left t.thread)))
stop_can_finish {s} {t} h r e =
    let alive = (Reach-IsAlive h r).ends e in
    (alive, finish_from t.thread t refl alive e, λ v step. stopping_step alive e step)
