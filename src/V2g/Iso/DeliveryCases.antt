-- ===== src/V2g/Iso/DeliveryCases.antt =====
-- modules/EvseTestV2G/server/iso_server.cpp: which requests `handle_iso_power_delivery` of a DC charger answers without a
-- failure, and what they lead to.
use mathlib.Core.Path.{subst}
use evse_test_system.Base.{
  ℕ, ◌≡◌, ◌≢◌, ◌≤◌, ◌<◌, ◌⊎◌, inl, inr, refl, sym, ap, ◌∙◌, Bool, true, false, List, arith, is_some,
}
use evse_test_system.V2g.Iso.States.{failed}
use evse_test_system.V2g.Iso.Server.{
  Outcome, returned, ◌>>=◌, PhysicalValue, ScheduleTuple, phase_charge, Server, Response, Reply,
  answer, publish_dc_ev_status, get_emergency_status_code,
}
use evse_test_system.V2g.Iso.Answers.{answer-inv, returned_inj}
use evse_test_system.V2g.Iso.Profile.{Progress}
use evse_test_system.V2g.Iso.Waiting.{WakeUp}
use evse_test_system.V2g.Iso.PowerDelivery.{
  ChargeProgress, progress_start, progress_stop, progress_renegotiate, progress_other,
  PowerDeliveryReq, publish_iso_power_delivery_req, progress_case, find_tuple, is_ready,
  power_delivery_code, is_charging_message, is_after_charging, power_delivery_state,
  power_delivery_next, abort_code, delivery_after, delivery_response, deliver,
  handle_iso_power_delivery,
}
use evse_test_system.V2g.Iso.Delivery.{bind_inv}

-- The schedule is one of the charger's.
abbrev pub IsOfferedTuple : PowerDeliveryReq → List ScheduleTuple → Type 0
IsOfferedTuple req tuples = is_some (find_tuple req.tuple_id tuples) ≡ true

-- Where the power delivery leads: to the current demand, to a renegotiation or to the end. What follows
-- right on a current demand or a charging status is after the charging.
abbrev pub Leads : ChargeProgress → Server → ℕ → Type 0
Leads progress_start s n =
    (is_ready (get_emergency_status_code s phase_charge) ≡ true)
    × (is_after_charging s ≡ false)
    × (n ≡ 11)
Leads progress_stop s n = n ≡ 13
Leads progress_renegotiate s n = (is_after_charging s ≡ true) × (n ≡ 6)
Leads progress_other s n = ⊥

-- What the switch over the progress keeps on a DC charger.
abbrev Kept : Server → Server → ℕ → ChargeProgress → Type 0
Kept s u left p =
    (u.stop ≡ s.stop)
    × (u.evse_sa_schedule_list ≡ s.evse_sa_schedule_list)
    × (get_emergency_status_code u phase_charge ≡ get_emergency_status_code s phase_charge)
    × ((p ≢ progress_other) ⊎ (left ≡ failed))

publish-Kept :
    (req : PowerDeliveryReq) (s : Server)
    → Kept s (publish_iso_power_delivery_req req s) failed progress_other
unfolding publish_iso_power_delivery_req publish_dc_ev_status get_emergency_status_code
publish-Kept req s = ground arith

progress-Kept :
    (p : ChargeProgress) (w : List WakeUp) (s u : Server) (n : ℕ)
    → s.stop.iso.is_dc_charger ≡ true
    → progress_case p w s ≡ returned (u, n)
    → Kept s u n p
unfolding progress_case get_emergency_status_code
progress-Kept progress_start w s u n dc h = ground arith
progress-Kept progress_stop w s u n dc h = ground arith
progress-Kept progress_renegotiate w s u n dc h = ground arith
progress-Kept progress_other w s u n dc h = ground arith

code_cases :
    (req : PowerDeliveryReq) (u : Server) (left : ℕ) (p : ChargeProgress)
    → u.stop.iso.is_dc_charger ≡ true
    → req.progress ≡ p
    → (failed ≤ power_delivery_code req u left)
      ⊎ (IsOfferedTuple req u.evse_sa_schedule_list
          × (left < failed)
          × ((p ≢ progress_start) ⊎ (is_ready (get_emergency_status_code u phase_charge) ≡ true)))
unfolding power_delivery_code
code_cases req u left progress_start dc e = ground arith
code_cases req u left progress_stop dc e = ground arith
code_cases req u left progress_renegotiate dc e = ground arith
code_cases req u left progress_other dc e = ground arith

state_cases :
    (p : ChargeProgress) (u : Server) (a : Reply)
    → u.stop.iso.is_dc_charger ≡ true
    → p ≢ progress_other
    → (p ≢ progress_start) ⊎ (is_ready (get_emergency_status_code u phase_charge) ≡ true)
    → (failed ≤ (abort_code p u a).response.response_code) ⊎ Leads p u (power_delivery_state p u)
unfolding abort_code power_delivery_state
state_cases progress_start u a dc k r = ground arith
state_cases progress_stop u a dc k r = ground arith
state_cases progress_renegotiate u a dc k r = ground arith
state_cases progress_other u a dc k r = ground arith

abort_kept :
    (p : ChargeProgress) (u : Server) (a : Reply)
    → ((abort_code p u a).server ≡ a.server)
      × ((a.response.response_code < failed) ⊎ (failed ≤ (abort_code p u a).response.response_code))
unfolding abort_code
abort_kept p u a = ground arith

-- The result for the context after the switch.
unfoldable Ends : PowerDeliveryReq → Server → Reply → Type 0
Ends req u t =
    (failed ≤ t.response.response_code)
    ⊎ (IsOfferedTuple req u.evse_sa_schedule_list × Leads req.progress u t.server.stop.iso.state)

known :
    {p : ChargeProgress} {n : ℕ}
    → (p ≢ progress_other) ⊎ (n ≡ failed)
    → n < failed
    → p ≢ progress_other
known (inl k) l = k
known (inr e) l = absurd (omega arith)

answered-Ends :
    (req : PowerDeliveryReq) (u : Server) (left : ℕ) (a : Reply)
    → u.stop.iso.is_dc_charger ≡ true
    → (req.progress ≢ progress_other) ⊎ (left ≡ failed)
    → (power_delivery_code req u left < failed) ⊎ (failed ≤ a.response.response_code)
    → a.server.stop.iso.state ≡ power_delivery_state req.progress u
    → Ends req u (abort_code req.progress u a)
unfolding Ends
answered-Ends req u left a dc other code same =
    let kept = abort_kept req.progress u a in
    let state = ap (λ x. x.stop.iso.state) kept.0 ∙ same in
    elim (code_cases req u left req.progress dc refl) [
      | inl f ↦ inl (ground (arith, kept))
      | inr (tuple, l, ready) ↦ elim (state_cases req.progress u a dc (known other l) ready) [
        | inl f ↦ inl f
        | inr leads ↦ inr (tuple, subst (Leads req.progress u) (sym state) leads)
      ]
    ]

deliver-Ends :
    (exceeds : PhysicalValue → PhysicalValue → Bool) (fuel : ℕ) (req : PowerDeliveryReq)
    (r : Response) (u : Server) (left : ℕ) (t : Reply)
    → u.stop.iso.is_dc_charger ≡ true
    → (req.progress ≢ progress_other) ⊎ (left ≡ failed)
    → deliver exceeds fuel req r (u, left) ≡ returned t
    → Ends req u t
unfolding deliver delivery_after power_delivery_next delivery_response
deliver-Ends exceeds fuel req r u left t dc other h =
    let code = power_delivery_code req u left in
    let response = delivery_response code u r in
    let after = delivery_after req u in
    let tail : Progress → Outcome Reply =
      λ checked. answer after u.stop.iso response >>= λ a. returned (abort_code req.progress u a) in
    let (checked, e1, h1) = bind_inv {A = Progress} _ tail h in
    let (a, e2, h2) =
      bind_inv (answer after u.stop.iso response) (λ a. returned (abort_code req.progress u a))
        h1 in
    let (same, answered, kept, validated) = answer-inv after u.stop.iso response a e2 in
    subst (Ends req u) {x = abort_code req.progress u a} {y = t} (returned_inj h2)
      (answered-Ends req u left a dc other kept (sym (ap (λ x. x.stop.iso.state) same)))

Leads-kept :
    (p : ChargeProgress) (s u : Server) (n : ℕ)
    → u.stop ≡ s.stop
    → get_emergency_status_code u phase_charge ≡ get_emergency_status_code s phase_charge
    → Leads p u n
    → Leads p s n
Leads-kept progress_start s u n e f (ready, late, k) = (
  subst (λ c. is_ready c ≡ true) f ready,
  subst (λ c. is_charging_message c.last_v2g_msg ≡ false) e late,
  k,
)
Leads-kept progress_stop s u n e f k = k
Leads-kept progress_renegotiate s u n e f (late, k) =
    (subst (λ c. is_charging_message c.last_v2g_msg ≡ true) e late, k)
Leads-kept progress_other s u n e f k = k

-- An answered power delivery request to a DC charger is answered by a failure, or all of this
-- holds: it names a schedule of the charger; a start is to a charger whose status is ready, does
-- not follow right on a current demand or a charging status, and leads to the current demand; a
-- renegotiation follows right on one of those, and leads back to the parameters; a stop leads to
-- the welding detection; and there is no other progress.
pub handle_iso_power_delivery-cases :
    (exceeds : PhysicalValue → PhysicalValue → Bool) (fuel : ℕ) (wake_ups : List WakeUp)
    (req : PowerDeliveryReq) (s : Server) (r : Response) (t : Reply)
    → s.stop.iso.is_dc_charger ≡ true
    → handle_iso_power_delivery exceeds fuel wake_ups req s r ≡ returned t
    → (failed ≤ t.response.response_code)
      ⊎ (IsOfferedTuple req s.evse_sa_schedule_list × Leads req.progress s t.server.stop.iso.state)
unfolding handle_iso_power_delivery Ends
handle_iso_power_delivery-cases exceeds fuel wake_ups req s r t dc h =
    let told = publish_iso_power_delivery_req req s in
    let ((u, left), e, h1) =
      bind_inv {A = Server × ℕ} (progress_case req.progress wake_ups told)
        (deliver exceeds fuel req r) h in
    let (stop1, tuples1, status1, _) = publish-Kept req s in
    let told_dc = ap (λ x. x.iso.is_dc_charger) stop1 ∙ dc in
    let (stop2, tuples2, status2, other) =
      progress-Kept req.progress wake_ups told u left told_dc e in
    let u_dc = ap (λ x. x.iso.is_dc_charger) stop2 ∙ told_dc in
    elim (deliver-Ends exceeds fuel req r u left t u_dc other h1) [
      | inl f ↦ inl f
      | inr (tuple, leads) ↦ inr (
        subst (IsOfferedTuple req) (tuples2 ∙ tuples1) tuple,
        Leads-kept req.progress s u t.server.stop.iso.state (stop2 ∙ stop1) (status2 ∙ status1)
            leads,
      )
    ]
