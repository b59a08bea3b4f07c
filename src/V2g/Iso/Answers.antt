-- ===== src/V2g/Iso/Answers.antt =====
-- What every handler of modules/EvseTestV2G/server/iso_server.cpp leaves of the state of the session: the targets
-- of its message, and a request that is allowed where the response is no failure.
use evse_test_system.Base.{
  ℕ, ◌≡◌, ◌≤◌, ◌<◌, ◌⊎◌, ap, true, none, some, List, [], ◌∷◌, arith, sym, ◌∙◌, Option,
}
use mathlib.Core.Path.{subst}
use evse_test_system.V2g.Types.{V2gEvent}
use evse_test_system.V2g.Iso.States.{
  ok, failed, iso_validate_state, IsoContext, validate_with, iso_validate_response_code,
}
use evse_test_system.V2g.Iso.Server.{
  Outcome, returned, unfinished, undefined, reply_with, Server, Response, Reply, set_code, answer,
}

abbrev pub OneOf : ℕ → List ℕ → Type 0
OneOf n [] = ⊥
OneOf n (m ∷ ms) = (n ≡ m) ⊎ OneOf n ms

-- The request was allowed, or is answered by a failure, or was not checked, since the connection
-- is terminated.
abbrev pub IsChecked : IsoContext → ℕ → Type 0
IsChecked c code =
    (iso_validate_state c.state c.current_v2g_msg c.is_dc_charger ≡ some ok)
    ⊎ (failed ≤ code)
    ⊎ (c.is_connection_terminated ≡ true)

abbrev pub Moves : IsoContext → List ℕ → Reply → Type 0
Moves c targets t =
    (t.server.stop.iso.is_dc_charger ≡ c.is_dc_charger)
    × OneOf t.server.stop.iso.state targets
    × IsChecked c t.response.response_code

from_returned : {A : Type 0} → A → Outcome A → A
from_returned d (returned a) = a
from_returned d unfinished = d
from_returned d undefined = d

pub returned_inj : {A : Type 0} {a b : A} → returned a ≡ returned b → a ≡ b
unfolding from_returned
returned_inj {A} {a} h = ap (from_returned a) h

pub validate-IsChecked :
    (c : IsoContext) (code n : ℕ) (e : V2gEvent)
    → iso_validate_response_code c code ≡ some (n, e)
    → IsChecked c n
unfolding iso_validate_response_code iso_validate_state validate_with
validate-IsChecked c code n e h = ground arith

-- A reply is an inverse of what it was built from.
pub reply_with-inv :
    (o : Option (ℕ × V2gEvent)) (s : Server) (r : Response) (t : Reply)
    → reply_with o s r ≡ returned t
    → (s ≡ t.server) × (o ≡ some (t.response.response_code, t.event))
reply_with-inv none s r t h = cc
reply_with-inv (some checked) s r t h =
    let e = returned_inj h in
    (ap (λ u. u.server) e, ap (λ u. some (u.response.response_code, u.event)) e)

pub answer-Moves :
    (after : Server) (c : IsoContext) (r : Response) (t : Reply)
    → answer after c r ≡ returned t
    → (targets : List ℕ) → after.stop.iso.is_dc_charger ≡ c.is_dc_charger
    → OneOf after.stop.iso.state targets
    → Moves c targets t
unfolding answer
answer-Moves after c r t h targets d o =
    let inv = reply_with-inv (iso_validate_response_code c r.response_code) after r t h in
    (
      sym (ap (λ u. u.stop.iso.is_dc_charger) inv.0) ∙ d,
      subst (λ u. OneOf u.stop.iso.state targets) inv.0 o,
      validate-IsChecked c r.response_code t.response.response_code t.event inv.1,
    )

response-inv :
    (o : Option (ℕ × V2gEvent)) (s : Server) (r : Response) (t : Reply)
    → reply_with o s r ≡ returned t
    → set_code t.response.response_code r ≡ t.response
response-inv none s r t h = cc
response-inv (some checked) s r t h =
    let e = returned_inj h in
    ap (λ u. set_code u.response.response_code r) (sym e) ∙ ap (λ u. u.response) e

-- A failure stays a failure.
validate_failed :
    (c : IsoContext) (code n : ℕ) (e : V2gEvent)
    → iso_validate_response_code c code ≡ some (n, e)
    → (code < failed) ⊎ (failed ≤ n)
unfolding iso_validate_response_code iso_validate_state validate_with
validate_failed c code n e h = ground arith

-- What the end of a handler was called with.
pub answer-inv :
    (after : Server) (c : IsoContext) (r : Response) (t : Reply)
    → answer after c r ≡ returned t
    → (after ≡ t.server)
      × (set_code t.response.response_code r ≡ t.response)
      × ((r.response_code < failed) ⊎ (failed ≤ t.response.response_code))
      × IsChecked c t.response.response_code
unfolding answer
answer-inv after c r t h =
    let o = iso_validate_response_code c r.response_code in
    let (same, e) = reply_with-inv o after r t h in
    (
      same,
      response-inv o after r t h,
      validate_failed c r.response_code t.response.response_code t.event e,
      validate-IsChecked c r.response_code t.response.response_code t.event e,
    )

-- The code and the event are those of the check.
pub answer-validate :
    (after : Server) (c : IsoContext) (r : Response) (t : Reply)
    → answer after c r ≡ returned t
    → iso_validate_response_code c r.response_code ≡ some (t.response.response_code, t.event)
unfolding answer
answer-validate after c r t h =
    (reply_with-inv (iso_validate_response_code c r.response_code) after r t h).1
