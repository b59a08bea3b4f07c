-- ===== src/V2g/Iso/Refinement.antt =====
-- modules/EvseTestV2G/server/iso_server.cpp: `handle_request` of a DC charger implements the diagram of the phases.
use mathlib.Core.Path.{subst}
use evse_test_system.Base.{ℕ, ◌≡◌, ◌≤◌, ◌⊎◌, inl, inr, refl, sym, ap, ◌∙◌, true, false, arith}
use evse_test_system.V2g.Types.{
  V2gMsgTypeId, certificate_installation_msg, certificate_update_msg, unknown_msg,
}
use evse_test_system.V2g.Iso.States.{failed, IsoContext}
use evse_test_system.V2g.Iso.Server.{returned, Server, Response, Reply}
use evse_test_system.V2g.Iso.Diagram.{Phase, details, can_step}
use evse_test_system.V2g.Iso.Phases.{
  phase_number, targets, numbers, Steps, allowed-Steps, find_phase,
}
use evse_test_system.V2g.Iso.Answers.{IsChecked, Moves, returned_inj}
use evse_test_system.V2g.Iso.Moves.{
  session_setup-Moves, service_discovery-Moves, service_detail-Moves,
  payment_service_selection-Moves, payment_details-Moves, authorization-Moves,
  charge_parameter_discovery-Moves, cable_check-Moves, pre_charge-Moves, welding_detection-Moves,
  current_demand-Moves, charging_status-Moves, metering_receipt-Moves,
}
use evse_test_system.V2g.Iso.Delivery.{bind_inv, power_delivery-Moves}
use evse_test_system.V2g.Iso.Endings.{stop_session-Moves, certificate_installation-Goes}
use evse_test_system.V2g.Iso.Charging.{handle_iso_certificate_update}
use evse_test_system.V2g.Iso.Request.{
  Request, session_setup_req, service_discovery_req, service_detail_req,
  payment_service_selection_req, payment_details_req, authorization_req,
  charge_parameter_discovery_req, power_delivery_req, charging_status_req, metering_receipt_req,
  certificate_update_req, certificate_installation_req, cable_check_req, pre_charge_req,
  welding_detection_req, current_demand_req, session_stop_req, unknown_req, message_of, Outside,
  dispatch, receive, conclude, handle_request,
}

-- The messages whose handlers check nothing: the phase is that of an installed certificate, or the old one.
abbrev pub IsUnchecked : Phase → V2gMsgTypeId → Phase → Type 0
IsUnchecked p m q =
    ((m ≡ certificate_installation_msg) × (q ≡ details))
    ⊎ (((m ≡ certificate_update_msg) ⊎ (m ≡ unknown_msg)) × (q ≡ p))

-- The state is that of a phase, to which the diagram leads unless the answer is a failure.
abbrev pub Refines : Phase → V2gMsgTypeId → Reply → Type 0
Refines p m t =
    (q : Phase) × (t.server.stop.iso.state ≡ phase_number q)
    × (t.server.stop.iso.is_dc_charger ≡ true)
    × ((can_step p m q ≡ true) ⊎ (failed ≤ t.response.response_code) ⊎ IsUnchecked p m q)

-- The context of a checked message.
record IsAt (p : Phase) (m : V2gMsgTypeId) (c : IsoContext) : Type 0 where
  at_state : c.state ≡ phase_number p
  at_dc : c.is_dc_charger ≡ true
  at_msg : c.current_v2g_msg ≡ m
  at_connection : c.is_connection_terminated ≡ false

checked_cases :
    (p : Phase) (m : V2gMsgTypeId) (c : IsoContext) (code : ℕ)
    → IsAt p m c
    → IsChecked c code
    → Steps p m (targets m) ⊎ (failed ≤ code)
checked_cases p m c code a (inl e) =
    inl (allowed-Steps p m (rw (sym a.at_state) (rw (sym a.at_dc) (rw (sym a.at_msg) e))))
checked_cases p m c code a (inr (inl f)) = inr f
checked_cases p m c code a (inr (inr e)) = ground arith

Moves-Refines :
    (p : Phase) (m : V2gMsgTypeId) (c : IsoContext) (t : Reply)
    → IsAt p m c
    → Moves c (numbers (targets m)) t
    → Refines p m t
Moves-Refines p m c t a (dc, o, k) =
    let (q, e, step) = find_phase p m t.server.stop.iso.state (targets m) o in
    (
      q,
      e,
      dc ∙ a.at_dc,
      elim (checked_cases p m c t.response.response_code a k) [
        | inl steps ↦ inl (step steps)
        | inr f ↦ inr (inl f)
      ],
    )

-- The conclusion changes the last message only.
conclude-inv :
    (u t : Reply)
    → conclude u ≡ returned t
    → (t.server.stop.iso ≡ u.server.stop.iso) × (t.response ≡ u.response)
unfolding conclude
conclude-inv u t h = ground arith

conclude-Refines :
    (p : Phase) (m : V2gMsgTypeId) (u t : Reply)
    → conclude u ≡ returned t
    → Refines p m u
    → Refines p m t
conclude-Refines p m u t h (q, e, dc, r) =
    let (same, response) = conclude-inv u t h in
    (
      q,
      ap (λ c. c.state) same ∙ e,
      ap (λ c. c.is_dc_charger) same ∙ dc,
      subst
          (λ (x : Response).
            (can_step p m q ≡ true) ⊎ (failed ≤ x.response_code) ⊎ IsUnchecked p m q)
          (sym response) r,
    )

-- The context in which the handler of a message is called.
record IsCalled (p : Phase) (s : Server) : Type 0 where
  called_state : s.stop.iso.state ≡ phase_number p
  called_dc : s.stop.iso.is_dc_charger ≡ true
  called_connection : s.stop.iso.is_connection_terminated ≡ false

call-IsAt :
    (p : Phase) (m : V2gMsgTypeId) (id : ℕ) (s : Server)
    → IsCalled p s
    → (receive id m s).stop.iso.current_v2g_msg ≡ m
    → IsAt p m (receive id m s).stop.iso
unfolding receive
call-IsAt p m id s c e = record {
  at_state = c.called_state;
  at_dc = c.called_dc;
  at_msg = e;
  at_connection = c.called_connection;
}

-- The messages that change nothing.
same_phase :
    (p : Phase) (m : V2gMsgTypeId) (id : ℕ) (s : Server) (t : Reply)
    → IsCalled p s
    → (m ≡ certificate_update_msg) ⊎ (m ≡ unknown_msg)
    → (receive id m s).stop.iso ≡ t.server.stop.iso
    → Refines p m t
unfolding receive
same_phase p m id s t c e same = (
  p,
  sym (ap (λ x. x.state) same) ∙ c.called_state,
  sym (ap (λ x. x.is_dc_charger) same) ∙ c.called_dc,
  inr (inr (inr (e, refl))),
)

dispatch-Refines :
    (o : Outside) (id : ℕ) (req : Request) (p : Phase) (s : Server) (t : Reply)
    → IsCalled p s
    → dispatch o req (receive id (message_of req) s) ≡ returned t
    → Refines p (message_of req) t
unfolding dispatch receive handle_iso_certificate_update
dispatch-Refines o id (session_setup_req evccid) p s t c h =
    let s' = receive id (message_of (session_setup_req evccid)) s in
    Moves-Refines p (message_of (session_setup_req evccid)) s'.stop.iso t
      (call-IsAt p _ id s c refl) (session_setup-Moves evccid o.random s' o.initial t h)
dispatch-Refines o id (service_discovery_req scope) p s t c h =
    let s' = receive id (message_of (service_discovery_req scope)) s in
    Moves-Refines p (message_of (service_discovery_req scope)) s'.stop.iso t
      (call-IsAt p _ id s c refl) (service_discovery-Moves scope s' o.initial t h)
dispatch-Refines o id (service_detail_req sid) p s t c h =
    let s' = receive id (message_of (service_detail_req sid)) s in
    Moves-Refines p (message_of (service_detail_req sid)) s'.stop.iso t (call-IsAt p _ id s c refl)
      (service_detail-Moves sid s' o.initial t h)
dispatch-Refines o id (payment_service_selection_req req) p s t c h =
    let s' = receive id (message_of (payment_service_selection_req req)) s in
    Moves-Refines p (message_of (payment_service_selection_req req)) s'.stop.iso t
      (call-IsAt p _ id s c refl) (payment_service_selection-Moves o.now req s' o.initial t h)
dispatch-Refines o id (payment_details_req req) p s t c h =
    let s' = receive id (message_of (payment_details_req req)) s in
    Moves-Refines p (message_of (payment_details_req req)) s'.stop.iso t (call-IsAt p _ id s c refl)
      (payment_details-Moves o.now o.challenge req s' o.initial t h)
dispatch-Refines o id (authorization_req req) p s t c h =
    let s' = receive id (message_of (authorization_req req)) s in
    Moves-Refines p (message_of (authorization_req req)) s'.stop.iso t (call-IsAt p _ id s c refl)
      (authorization-Moves o.now req s' o.initial t h)
dispatch-Refines o id (charge_parameter_discovery_req req) p s t c h =
    let s' = receive id (message_of (charge_parameter_discovery_req req)) s in
    Moves-Refines p (message_of (charge_parameter_discovery_req req)) s'.stop.iso t
      (call-IsAt p _ id s c refl) (charge_parameter_discovery-Moves req s' o.initial t h)
dispatch-Refines o id (power_delivery_req req) p s t c h =
    let s' = receive id (message_of (power_delivery_req req)) s in
    Moves-Refines p (message_of (power_delivery_req req)) s'.stop.iso t (call-IsAt p _ id s c refl)
      (power_delivery-Moves o.exceeds o.fuel o.wake_ups req s' o.initial t c.called_dc h)
dispatch-Refines o id charging_status_req p s t c h =
    let s' = receive id (message_of charging_status_req) s in
    Moves-Refines p (message_of charging_status_req) s'.stop.iso t (call-IsAt p _ id s c refl)
      (charging_status-Moves s' o.initial t h)
dispatch-Refines o id metering_receipt_req p s t c h =
    let s' = receive id (message_of metering_receipt_req) s in
    Moves-Refines p (message_of metering_receipt_req) s'.stop.iso t (call-IsAt p _ id s c refl)
      (metering_receipt-Moves s' o.initial t c.called_dc h)
dispatch-Refines o id (cable_check_req status) p s t c h =
    let s' = receive id (message_of (cable_check_req status)) s in
    Moves-Refines p (message_of (cable_check_req status)) s'.stop.iso t (call-IsAt p _ id s c refl)
      (cable_check-Moves status s' o.initial t h)
dispatch-Refines o id (pre_charge_req status) p s t c h =
    let s' = receive id (message_of (pre_charge_req status)) s in
    Moves-Refines p (message_of (pre_charge_req status)) s'.stop.iso t (call-IsAt p _ id s c refl)
      (pre_charge-Moves status s' o.initial t h)
dispatch-Refines o id (welding_detection_req status) p s t c h =
    let s' = receive id (message_of (welding_detection_req status)) s in
    Moves-Refines p (message_of (welding_detection_req status)) s'.stop.iso t
      (call-IsAt p _ id s c refl) (welding_detection-Moves status s' o.initial t h)
dispatch-Refines o id (current_demand_req req) p s t c h =
    let s' = receive id (message_of (current_demand_req req)) s in
    Moves-Refines p (message_of (current_demand_req req)) s'.stop.iso t (call-IsAt p _ id s c refl)
      (current_demand-Moves o.limits req s' o.initial t h)
dispatch-Refines o id (session_stop_req request) p s t c h =
    let s' = receive id (message_of (session_stop_req request)) s in
    Moves-Refines p (message_of (session_stop_req request)) s'.stop.iso t
      (call-IsAt p _ id s c refl) (stop_session-Moves request s' o.initial t h)
dispatch-Refines o id (certificate_installation_req req) p s t c h =
    let s' = receive id certificate_installation_msg s in
    let goes = certificate_installation-Goes o.decode o.wake_ups req s' o.initial t h in
    (details, goes.1, goes.0 ∙ c.called_dc, inr (inr (inl (refl, refl))))
dispatch-Refines o id certificate_update_req p s t c h =
    same_phase p certificate_update_msg id s t c (inl refl)
      (ap (λ u. u.server.stop.iso) (returned_inj h))
dispatch-Refines o id unknown_req p s t c h =
    same_phase p unknown_msg id s t c (inr refl) (ap (λ u. u.server.stop.iso) (returned_inj h))

-- For a DC charger on a connection that is not terminated, in the state of a phase, every
-- request that `handle_request` returns from leads to the state of a phase, and that is one to
-- which the diagram of the phases leads with the message of the request, unless the response is
-- a failure or the message is one whose handler checks nothing: an installation of a certificate
-- leads to the wait for the payment details, an update of a certificate and an unknown message
-- stay in the phase.
pub handle_request-Refines :
    (o : Outside) (id : ℕ) (req : Request) (p : Phase) (s : Server) (t : Reply)
    → s.stop.iso.is_dc_charger ≡ true
    → s.stop.iso.is_connection_terminated ≡ false
    → s.stop.iso.state ≡ phase_number p
    → handle_request o id req s ≡ returned t
    → Refines p (message_of req) t
unfolding handle_request
handle_request-Refines o id req p s t dc ct e h =
    let (u, e1, h1) =
      bind_inv {A = Reply} (dispatch o req (receive id (message_of req) s)) conclude h in
    conclude-Refines p (message_of req) u t h1 (
      dispatch-Refines o id req p s u
        (record { called_state = e; called_dc = dc; called_connection = ct }) e1)
