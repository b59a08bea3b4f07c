-- ===== src/V2g/Din/Moves.antt =====
-- modules/EvseTestV2G/server/din_server.cpp: the states that each handler goes to.
use mathlib.Core.Path.{subst}
use evse_test_system.Base.{
  ℕ, ◌≡◌, ◌≤◌, ◌⊎◌, inl, refl, sym, ap, ◌∙◌, true, some, List, [], ◌∷◌, arith, not, ◌&&◌,
}
use evse_test_system.V2g.Types.{V2gEvent}
use evse_test_system.V2g.Iso.States.{ok, failed, IsoContext, validate_with}
use evse_test_system.V2g.Iso.Server.{
  returned, PaymentOption, DcEvStatus, Server, Response, Reply, go_to, set_code,
  publish_dc_ev_status,
}
use evse_test_system.V2g.Iso.SessionStop.{dlink_terminate}
use evse_test_system.V2g.Iso.Discovery.{RandomWords}
use evse_test_system.V2g.Iso.Charging.{CurrentDemandReq}
use evse_test_system.V2g.Iso.Answers.{OneOf, reply_with-inv, returned_inj}
use evse_test_system.V2g.Iso.Moves.{choice_OneOf}
use evse_test_system.V2g.Iso.Delivery.{bind_inv}
use evse_test_system.V2g.Din.States.{din_validate_state, din_validate_response_code, answer_din}
use evse_test_system.V2g.Din.StateIds.{din_wait_for_terminated_session}
use evse_test_system.V2g.Din.Handlers.{
  handle_din_session_setup, handle_din_service_discovery, handle_din_service_payment_selection,
  handle_din_contract_authentication, DinChargeParameterReq, handle_din_charge_parameter,
}
use evse_test_system.V2g.Din.Charging.{
  DinPowerDeliveryReq, is_after_demand, end_charging, din_delivery_after, din_delivery_response,
  handle_din_power_delivery, handle_din_cable_check, handle_din_pre_charge,
  handle_din_current_demand, handle_din_welding_detection, end_session, handle_din_session_stop,
}

-- The request was allowed, or is answered by a failure, or was not checked, since the connection
-- is terminated.
abbrev pub IsDinChecked : IsoContext → ℕ → Type 0
IsDinChecked c code =
    (din_validate_state c.state c.current_v2g_msg ≡ some ok)
    ⊎ (failed ≤ code)
    ⊎ (c.is_connection_terminated ≡ true)

abbrev pub DinMoves : IsoContext → List ℕ → Reply → Type 0
DinMoves c targets t =
    (t.server.stop.iso.is_dc_charger ≡ c.is_dc_charger)
    × OneOf t.server.stop.iso.state targets
    × IsDinChecked c t.response.response_code

validate-IsDinChecked :
    (c : IsoContext) (code n : ℕ) (e : V2gEvent)
    → din_validate_response_code c code ≡ some (n, e)
    → IsDinChecked c n
unfolding din_validate_response_code din_validate_state validate_with
validate-IsDinChecked c code n e h = ground arith

answer_din-Moves :
    (after : Server) (c : IsoContext) (r : Response) (t : Reply)
    → answer_din after c r ≡ returned t
    → (targets : List ℕ) → after.stop.iso.is_dc_charger ≡ c.is_dc_charger
    → OneOf after.stop.iso.state targets
    → DinMoves c targets t
unfolding answer_din
answer_din-Moves after c r t h targets d o =
    let inv = reply_with-inv (din_validate_response_code c r.response_code) after r t h in
    (
      sym (ap (λ u. u.stop.iso.is_dc_charger) inv.0) ∙ d,
      subst (λ u. OneOf u.stop.iso.state targets) inv.0 o,
      validate-IsDinChecked c r.response_code t.response.response_code t.event inv.1,
    )

pub din_session_setup-Moves :
    (evccid : List ℕ) (random : RandomWords) (s : Server) (r : Response) (t : Reply)
    → handle_din_session_setup evccid random s r ≡ returned t
    → DinMoves s.stop.iso (1 ∷ []) t
unfolding handle_din_session_setup
din_session_setup-Moves evccid random s r t h = answer_din-Moves _ _ _ t h (1 ∷ []) refl (inl refl)

pub din_service_discovery-Moves :
    (s : Server) (r : Response) (t : Reply)
    → handle_din_service_discovery s r ≡ returned t
    → DinMoves s.stop.iso (2 ∷ []) t
unfolding handle_din_service_discovery
din_service_discovery-Moves s r t h = answer_din-Moves _ _ _ t h (2 ∷ []) refl (inl refl)

pub din_service_payment_selection-Moves :
    (option : PaymentOption) (services : List ℕ) (s : Server) (r : Response) (t : Reply)
    → handle_din_service_payment_selection option services s r ≡ returned t
    → DinMoves s.stop.iso (3 ∷ []) t
unfolding handle_din_service_payment_selection
din_service_payment_selection-Moves option services s r t h =
    answer_din-Moves _ _ _ t h (3 ∷ []) refl (inl refl)

pub din_contract_authentication-Moves :
    (s : Server) (r : Response) (t : Reply)
    → handle_din_contract_authentication s r ≡ returned t
    → DinMoves s.stop.iso (4 ∷ 3 ∷ []) t
unfolding handle_din_contract_authentication
din_contract_authentication-Moves s r t h =
    answer_din-Moves _ _ _ t h (4 ∷ 3 ∷ []) refl (choice_OneOf _ 4 3)

pub din_charge_parameter-Moves :
    (req : DinChargeParameterReq) (s : Server) (r : Response) (t : Reply)
    → handle_din_charge_parameter req s r ≡ returned t
    → DinMoves s.stop.iso (5 ∷ 4 ∷ []) t
unfolding handle_din_charge_parameter
din_charge_parameter-Moves req s r t h =
    answer_din-Moves _ _ _ t h (5 ∷ 4 ∷ []) refl (choice_OneOf _ 5 4)

pub din_cable_check-Moves :
    (status : DcEvStatus) (s : Server) (r : Response) (t : Reply)
    → handle_din_cable_check status s r ≡ returned t
    → DinMoves s.stop.iso (6 ∷ 5 ∷ []) t
unfolding handle_din_cable_check publish_dc_ev_status
din_cable_check-Moves status s r t h =
    answer_din-Moves _ _ _ t h (6 ∷ 5 ∷ []) refl (choice_OneOf _ 6 5)

pub din_pre_charge-Moves :
    (status : DcEvStatus) (s : Server) (r : Response) (t : Reply)
    → handle_din_pre_charge status s r ≡ returned t
    → DinMoves s.stop.iso (7 ∷ []) t
unfolding handle_din_pre_charge publish_dc_ev_status
din_pre_charge-Moves status s r t h = answer_din-Moves _ _ _ t h (7 ∷ []) refl (inl refl)

pub din_welding_detection-Moves :
    (status : DcEvStatus) (s : Server) (r : Response) (t : Reply)
    → handle_din_welding_detection status s r ≡ returned t
    → DinMoves s.stop.iso (10 ∷ []) t
unfolding handle_din_welding_detection publish_dc_ev_status
din_welding_detection-Moves status s r t h = answer_din-Moves _ _ _ t h (10 ∷ []) refl (inl refl)

pub din_current_demand-Moves :
    (req : CurrentDemandReq) (s : Server) (r : Response) (t : Reply)
    → handle_din_current_demand req s r ≡ returned t
    → DinMoves s.stop.iso (9 ∷ []) t
unfolding handle_din_current_demand
din_current_demand-Moves req s r t h = answer_din-Moves _ _ _ t h (9 ∷ []) refl (inl refl)

end_charging-Moves :
    (req : DinPowerDeliveryReq) (s : Server) (c : IsoContext) (ns : List ℕ) (t : Reply)
    → DinMoves c ns t
    → DinMoves c ns (end_charging req s t)
unfolding end_charging
end_charging-Moves req s c ns t m = ground arith

delivered-Moves :
    (req : DinPowerDeliveryReq) (s : Server) (r : Response) (t : Reply)
    → answer_din (din_delivery_after req s) s.stop.iso (din_delivery_response req s r) ≡ returned t
    → DinMoves s.stop.iso (8 ∷ 10 ∷ []) t
unfolding din_delivery_after
delivered-Moves req s r t h =
    answer_din-Moves (din_delivery_after req s) s.stop.iso (din_delivery_response req s r) t h
      (8 ∷ 10 ∷ []) refl (choice_OneOf (req.is_ready_to_charge && not (is_after_demand s)) 8 10)

pub din_power_delivery-Moves :
    (req : DinPowerDeliveryReq) (s : Server) (r : Response) (t : Reply)
    → handle_din_power_delivery req s r ≡ returned t
    → DinMoves s.stop.iso (8 ∷ 10 ∷ []) t
unfolding handle_din_power_delivery
din_power_delivery-Moves req s r t h =
    let (answered, e, h1) =
      bind_inv {A = Reply}
        (answer_din (din_delivery_after req s) s.stop.iso (din_delivery_response req s r))
        (λ answered. returned (end_charging req s answered)) h in
    subst (DinMoves s.stop.iso (8 ∷ 10 ∷ [])) {x = end_charging req s answered} {y = t}
      (returned_inj h1)
      (end_charging-Moves req s s.stop.iso (8 ∷ 10 ∷ []) answered
        (delivered-Moves req s r answered e))

pub din_session_stop-Moves :
    (s : Server) (r : Response) (t : Reply)
    → handle_din_session_stop s r ≡ returned t
    → DinMoves s.stop.iso (12 ∷ []) t
unfolding handle_din_session_stop end_session
din_session_stop-Moves s r t h =
    let after : Server = record (go_to din_wait_for_terminated_session s) {
      stop = record s.stop {
        iso = record s.stop.iso { state = din_wait_for_terminated_session };
        dlink_action = dlink_terminate;
      };
    } in
    let (answered, e, h1) =
      bind_inv {A = Reply} (answer_din after s.stop.iso (set_code ok r))
        (λ answered. returned (end_session answered)) h in
    subst (DinMoves s.stop.iso (12 ∷ [])) {x = end_session answered} {y = t} (returned_inj h1)
      (answer_din-Moves after s.stop.iso (set_code ok r) answered e (12 ∷ []) refl (inl refl))
