-- ===== src/V2g/Din/Refinement.antt =====
-- modules/EvseTestV2G/server/din_server.cpp: `handle_request` implements the diagram of the phases.
use mathlib.Core.Path.{subst}
use evse_test_system.Base.{ℕ, ◌≡◌, ◌≤◌, ◌⊎◌, inl, inr, refl, sym, ap, ◌∙◌, true, false, arith}
use evse_test_system.V2g.Types.{V2gMsgTypeId, unknown_msg}
use evse_test_system.V2g.Iso.States.{failed, IsoContext}
use evse_test_system.V2g.Iso.Server.{returned, Server, Response, Reply}
use evse_test_system.V2g.Iso.Discovery.{RandomWords}
use evse_test_system.V2g.Iso.Answers.{returned_inj}
use evse_test_system.V2g.Iso.Delivery.{bind_inv}
use evse_test_system.V2g.Din.Diagram.{DinPhase, can_din_step}
use evse_test_system.V2g.Din.Phases.{
  din_phase_number, din_targets, din_numbers, DinSteps, allowed-DinSteps, find_din_phase,
}
use evse_test_system.V2g.Din.Moves.{
  IsDinChecked, DinMoves, din_session_setup-Moves, din_service_discovery-Moves,
  din_service_payment_selection-Moves, din_contract_authentication-Moves,
  din_charge_parameter-Moves, din_power_delivery-Moves, din_cable_check-Moves, din_pre_charge-Moves,
  din_welding_detection-Moves, din_current_demand-Moves, din_session_stop-Moves,
}
use evse_test_system.V2g.Din.Request.{
  DinRequest, din_session_setup_req, din_service_discovery_req, din_service_payment_selection_req,
  din_contract_authentication_req, din_charge_parameter_req, din_power_delivery_req,
  din_cable_check_req, din_pre_charge_req, din_welding_detection_req, din_current_demand_req,
  din_session_stop_req, din_unsupported_req, din_unknown_req, din_message_of, din_dispatch,
  din_receive, din_conclude, handle_din_request,
}

-- The state is that of a phase, to which the diagram leads unless the answer is a failure or the
-- message is ignored.
abbrev pub DinRefines : DinPhase → V2gMsgTypeId → Reply → Type 0
DinRefines p m t =
    (q : DinPhase) × (t.server.stop.iso.state ≡ din_phase_number q)
    × ((can_din_step p m q ≡ true)
        ⊎ (failed ≤ t.response.response_code)
        ⊎ ((m ≡ unknown_msg) × (q ≡ p)))

-- The context of a checked message.
record IsDinAt (p : DinPhase) (m : V2gMsgTypeId) (c : IsoContext) : Type 0 where
  at_state : c.state ≡ din_phase_number p
  at_msg : c.current_v2g_msg ≡ m
  at_connection : c.is_connection_terminated ≡ false

checked_cases :
    (p : DinPhase) (m : V2gMsgTypeId) (c : IsoContext) (code : ℕ)
    → IsDinAt p m c
    → IsDinChecked c code
    → DinSteps p m (din_targets m) ⊎ (failed ≤ code)
checked_cases p m c code a (inl e) =
    inl (allowed-DinSteps p m (rw (sym a.at_state) (rw (sym a.at_msg) e)))
checked_cases p m c code a (inr (inl f)) = inr f
checked_cases p m c code a (inr (inr e)) = ground arith

DinMoves-Refines :
    (p : DinPhase) (m : V2gMsgTypeId) (c : IsoContext) (t : Reply)
    → IsDinAt p m c
    → DinMoves c (din_numbers (din_targets m)) t
    → DinRefines p m t
DinMoves-Refines p m c t a (dc, o, k) =
    let (q, e, step) = find_din_phase p m t.server.stop.iso.state (din_targets m) o in
    (
      q,
      e,
      elim (checked_cases p m c t.response.response_code a k) [
        | inl steps ↦ inl (step steps)
        | inr f ↦ inr (inl f)
      ],
    )

-- The conclusion changes the last message only.
din_conclude-inv :
    (u t : Reply)
    → din_conclude u ≡ returned t
    → (t.server.stop.iso ≡ u.server.stop.iso) × (t.response ≡ u.response)
unfolding din_conclude
din_conclude-inv u t h = ground arith

din_conclude-Refines :
    (p : DinPhase) (m : V2gMsgTypeId) (u t : Reply)
    → din_conclude u ≡ returned t
    → DinRefines p m u
    → DinRefines p m t
din_conclude-Refines p m u t h (q, e, r) =
    let (same, response) = din_conclude-inv u t h in
    (
      q,
      ap (λ c. c.state) same ∙ e,
      subst
          (λ (x : Response).
            (can_din_step p m q ≡ true)
            ⊎ (failed ≤ x.response_code)
            ⊎ ((m ≡ unknown_msg) × (q ≡ p)))
          (sym response) r,
    )

-- The context in which the handler of a message is called.
record IsDinCalled (p : DinPhase) (s : Server) : Type 0 where
  called_state : s.stop.iso.state ≡ din_phase_number p
  called_connection : s.stop.iso.is_connection_terminated ≡ false

called-Refines :
    (p : DinPhase) (id : ℕ) (req : DinRequest) (s : Server) (t : Reply)
    → IsDinCalled p s
    → (din_receive id req s).stop.iso.current_v2g_msg ≡ din_message_of req
    → DinMoves (din_receive id req s).stop.iso (din_numbers (din_targets (din_message_of req))) t
    → DinRefines p (din_message_of req) t
unfolding din_receive
called-Refines p id req s t c e moves =
    DinMoves-Refines p (din_message_of req) (din_receive id req s).stop.iso t
      (record { at_state = c.called_state; at_msg = e; at_connection = c.called_connection }) moves

-- An ignored message changes nothing.
ignored-Refines :
    (p : DinPhase) (id : ℕ) (req : DinRequest) (s : Server) (t : Reply)
    → IsDinCalled p s
    → din_message_of req ≡ unknown_msg
    → (din_receive id req s).stop.iso ≡ t.server.stop.iso
    → DinRefines p (din_message_of req) t
unfolding din_receive
ignored-Refines p id req s t c e same =
    (p, sym (ap (λ x. x.state) same) ∙ c.called_state, inr (inr (e, refl)))

din_dispatch-Refines :
    (random : RandomWords) (r : Response) (id : ℕ) (req : DinRequest) (p : DinPhase) (s : Server)
    (t : Reply)
    → IsDinCalled p s
    → din_dispatch random r req (din_receive id req s) ≡ returned t
    → DinRefines p (din_message_of req) t
unfolding din_dispatch din_receive
din_dispatch-Refines random r id (din_session_setup_req evccid) p s t c h =
    let s' = din_receive id (din_session_setup_req evccid) s in
    called-Refines p id (din_session_setup_req evccid) s t c refl
      (din_session_setup-Moves evccid random s' r t h)
din_dispatch-Refines random r id din_service_discovery_req p s t c h =
    let s' = din_receive id din_service_discovery_req s in
    called-Refines p id din_service_discovery_req s t c refl (din_service_discovery-Moves s' r t h)
din_dispatch-Refines random r id (din_service_payment_selection_req option services) p s t c h =
    let s' = din_receive id (din_service_payment_selection_req option services) s in
    called-Refines p id (din_service_payment_selection_req option services) s t c refl
      (din_service_payment_selection-Moves option services s' r t h)
din_dispatch-Refines random r id din_contract_authentication_req p s t c h =
    let s' = din_receive id din_contract_authentication_req s in
    called-Refines p id din_contract_authentication_req s t c refl
      (din_contract_authentication-Moves s' r t h)
din_dispatch-Refines random r id (din_charge_parameter_req req) p s t c h =
    let s' = din_receive id (din_charge_parameter_req req) s in
    called-Refines p id (din_charge_parameter_req req) s t c refl
      (din_charge_parameter-Moves req s' r t h)
din_dispatch-Refines random r id (din_power_delivery_req req) p s t c h =
    let s' = din_receive id (din_power_delivery_req req) s in
    called-Refines p id (din_power_delivery_req req) s t c refl
      (din_power_delivery-Moves req s' r t h)
din_dispatch-Refines random r id (din_cable_check_req status) p s t c h =
    let s' = din_receive id (din_cable_check_req status) s in
    called-Refines p id (din_cable_check_req status) s t c refl
      (din_cable_check-Moves status s' r t h)
din_dispatch-Refines random r id (din_pre_charge_req status) p s t c h =
    let s' = din_receive id (din_pre_charge_req status) s in
    called-Refines p id (din_pre_charge_req status) s t c refl
      (din_pre_charge-Moves status s' r t h)
din_dispatch-Refines random r id (din_welding_detection_req status) p s t c h =
    let s' = din_receive id (din_welding_detection_req status) s in
    called-Refines p id (din_welding_detection_req status) s t c refl
      (din_welding_detection-Moves status s' r t h)
din_dispatch-Refines random r id (din_current_demand_req req) p s t c h =
    let s' = din_receive id (din_current_demand_req req) s in
    called-Refines p id (din_current_demand_req req) s t c refl
      (din_current_demand-Moves req s' r t h)
din_dispatch-Refines random r id din_session_stop_req p s t c h =
    let s' = din_receive id din_session_stop_req s in
    called-Refines p id din_session_stop_req s t c refl (din_session_stop-Moves s' r t h)
din_dispatch-Refines random r id din_unsupported_req p s t c h =
    ignored-Refines p id din_unsupported_req s t c refl
      (ap (λ u. u.server.stop.iso) (returned_inj h))
din_dispatch-Refines random r id din_unknown_req p s t c h =
    ignored-Refines p id din_unknown_req s t c refl (ap (λ u. u.server.stop.iso) (returned_inj h))

-- For the server of DIN 70121 on a connection that is not terminated, in the state of a phase,
-- every request that `handle_request` returns from leads to the state of a phase, and that is
-- one to which the diagram of the phases leads with the message of the request, unless the
-- response is a failure or the message is not supported or unknown: then it is ignored, and the
-- phase stays.
pub handle_din_request-Refines :
    (random : RandomWords) (r : Response) (id : ℕ) (req : DinRequest) (p : DinPhase) (s : Server)
    (t : Reply)
    → s.stop.iso.is_connection_terminated ≡ false
    → s.stop.iso.state ≡ din_phase_number p
    → handle_din_request random r id req s ≡ returned t
    → DinRefines p (din_message_of req) t
unfolding handle_din_request
handle_din_request-Refines random r id req p s t ct e h =
    let (u, e1, h1) =
      bind_inv {A = Reply} (din_dispatch random r req (din_receive id req s)) din_conclude h in
    din_conclude-Refines p (din_message_of req) u t h1 (
      din_dispatch-Refines random r id req p s u
        (record { called_state = e; called_connection = ct }) e1)
