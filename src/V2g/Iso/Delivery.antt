-- ===== src/V2g/Iso/Delivery.antt =====
-- modules/EvseTestV2G/server/iso_server.cpp: the states that `handle_iso_power_delivery`, the certificate
-- handlers and `handle_iso_session_stop` go to, on a DC charger.
use mathlib.Core.Path.{subst}
use evse_test_system.Base.{ℕ, ◌≡◌, refl, ap, ◌∙◌, Bool, true, List, [], ◌∷◌, arith}
use evse_test_system.V2g.Iso.States.{IsoContext}
use evse_test_system.V2g.Iso.Server.{
  Outcome, returned, unfinished, undefined, ◌>>=◌, PhysicalValue, Server, Response, Reply, answer,
  publish_dc_ev_status,
}
use evse_test_system.V2g.Iso.Answers.{OneOf, Moves, answer-Moves, returned_inj}
use evse_test_system.V2g.Iso.Profile.{Progress}
use evse_test_system.V2g.Iso.Waiting.{WakeUp}
use evse_test_system.V2g.Iso.PowerDelivery.{
  ChargeProgress, progress_start, progress_stop, progress_renegotiate, progress_other,
  PowerDeliveryReq, publish_iso_power_delivery_req, progress_case, power_delivery_state,
  power_delivery_next, power_delivery_code, abort_code, delivery_after, delivery_response, deliver,
  handle_iso_power_delivery,
}

pub bind_inv :
    {A B : Type 0} (m : Outcome A) (f : A → Outcome B) {b : B}
    → (m >>= f) ≡ returned b
    → (a : A) × (m ≡ returned a) × (f a ≡ returned b)
bind_inv (returned a) f h = (a, refl, h)
bind_inv unfinished f h = cc
bind_inv undefined f h = cc

pub publish-stop :
    (req : PowerDeliveryReq) (s : Server) → (publish_iso_power_delivery_req req s).stop ≡ s.stop
unfolding publish_iso_power_delivery_req publish_dc_ev_status
publish-stop req s = ground arith

pub progress_case-stop :
    (p : ChargeProgress) (w : List WakeUp) (s u : Server) (n : ℕ)
    → s.stop.iso.is_dc_charger ≡ true
    → progress_case p w s ≡ returned (u, n)
    → u.stop ≡ s.stop
unfolding progress_case
progress_case-stop progress_start w s u n dc h = ground arith
progress_case-stop progress_stop w s u n dc h = ground arith
progress_case-stop progress_renegotiate w s u n dc h = ground arith
progress_case-stop progress_other w s u n dc h = ground arith

state_OneOf :
    (p : ChargeProgress) (s : Server)
    → s.stop.iso.is_dc_charger ≡ true
    → OneOf (power_delivery_state p s) (6 ∷ 11 ∷ 13 ∷ [])
unfolding power_delivery_state
state_OneOf p s dc = ground arith

abort_code-Moves :
    (p : ChargeProgress) (s : Server) (c : IsoContext) (ns : List ℕ) (t : Reply)
    → Moves c ns t
    → Moves c ns (abort_code p s t)
unfolding abort_code
abort_code-Moves p s c ns t m = ground arith

answered-Moves :
    (req : PowerDeliveryReq) (s : Server) (code : ℕ) (r : Response) (t : Reply)
    → s.stop.iso.is_dc_charger ≡ true
    → answer (delivery_after req s) s.stop.iso (delivery_response code s r) ≡ returned t
    → Moves s.stop.iso (6 ∷ 11 ∷ 13 ∷ []) t
unfolding delivery_after power_delivery_next
answered-Moves req s code r t dc h =
    answer-Moves (delivery_after req s) s.stop.iso (delivery_response code s r) t h
      (6 ∷ 11 ∷ 13 ∷ []) refl (state_OneOf req.progress s dc)

deliver-Moves :
    (exceeds : PhysicalValue → PhysicalValue → Bool) (fuel : ℕ) (req : PowerDeliveryReq)
    (r : Response) (s : Server) (left : ℕ) (t : Reply)
    → s.stop.iso.is_dc_charger ≡ true
    → deliver exceeds fuel req r (s, left) ≡ returned t
    → Moves s.stop.iso (6 ∷ 11 ∷ 13 ∷ []) t
unfolding deliver
deliver-Moves exceeds fuel req r s left t dc h =
    let code = power_delivery_code req s left in
    let tail : Progress → Outcome Reply = λ checked.
      answer (delivery_after req s) s.stop.iso (delivery_response code s r) >>= λ answered.
      returned (abort_code req.progress s answered) in
    let (checked, e1, h1) = bind_inv {A = Progress} _ tail h in
    let (answered, e2, h2) =
      bind_inv (answer (delivery_after req s) s.stop.iso (delivery_response code s r))
        (λ answered. returned (abort_code req.progress s answered)) h1 in
    subst (Moves s.stop.iso (6 ∷ 11 ∷ 13 ∷ [])) {x = abort_code req.progress s answered} {y = t}
      (returned_inj h2)
      (abort_code-Moves req.progress s s.stop.iso (6 ∷ 11 ∷ 13 ∷ []) answered
        (answered-Moves req s code r answered dc e2))

pub power_delivery-Moves :
    (exceeds : PhysicalValue → PhysicalValue → Bool) (fuel : ℕ) (wake_ups : List WakeUp)
    (req : PowerDeliveryReq) (s : Server) (r : Response) (t : Reply)
    → s.stop.iso.is_dc_charger ≡ true
    → handle_iso_power_delivery exceeds fuel wake_ups req s r ≡ returned t
    → Moves s.stop.iso (6 ∷ 11 ∷ 13 ∷ []) t
unfolding handle_iso_power_delivery
power_delivery-Moves exceeds fuel wake_ups req s r t dc h =
    let told = publish_iso_power_delivery_req req s in
    let ((u, left), e, h1) =
      bind_inv {A = Server × ℕ} (progress_case req.progress wake_ups told)
        (deliver exceeds fuel req r) h in
    let told_dc = ap (λ x. x.iso.is_dc_charger) (publish-stop req s) ∙ dc in
    let same : u.stop ≡ s.stop =
      progress_case-stop req.progress wake_ups told u left told_dc e ∙ publish-stop req s in
    subst (λ x. Moves x.iso (6 ∷ 11 ∷ 13 ∷ []) t) {x = u.stop} {y = s.stop} same
      (deliver-Moves exceeds fuel req r u left t (ap (λ x. x.iso.is_dc_charger) same ∙ dc) h1)
