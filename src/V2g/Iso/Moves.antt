-- ===== src/V2g/Iso/Moves.antt =====
-- modules/EvseTestV2G/server/iso_server.cpp: the states that each handler of a DC charger goes to.
use evse_test_system.Base.{
  ℕ, ◌≡◌, inl, inr, refl, Bool, true, false, Option, List, [], ◌∷◌, if◌then◌else◌,
}
use evse_test_system.V2g.Iso.Server.{
  returned, Server, Response, Reply, contract, same_option, DcEvStatus, publish_dc_ev_status,
}
use evse_test_system.V2g.Iso.Answers.{OneOf, Moves, answer-Moves}
use evse_test_system.V2g.Iso.Discovery.{
  RandomWords, handle_iso_session_setup, handle_iso_service_discovery, handle_iso_service_detail,
}
use evse_test_system.V2g.Iso.Payment.{
  PaymentServiceSelectionReq, selection_after, handle_iso_payment_service_selection,
  PaymentDetailsReq, handle_iso_payment_details,
}
use evse_test_system.V2g.Iso.Authorization.{AuthorizationReq, auth_after, handle_iso_authorization}
use evse_test_system.V2g.Iso.Parameters.{
  ChargeParameterDiscoveryReq, handle_iso_charge_parameter_discovery,
}
use evse_test_system.V2g.Iso.Charging.{
  handle_iso_charging_status, handle_iso_metering_receipt, handle_iso_cable_check,
  handle_iso_pre_charge, handle_iso_welding_detection, Limits, CurrentDemandReq,
  handle_iso_current_demand,
}

pub choice_OneOf : (b : Bool) (m n : ℕ) → OneOf (if b then m else n) (m ∷ n ∷ [])
choice_OneOf true m n = inl refl
choice_OneOf false m n = inr (inl refl)

pub session_setup-Moves :
    (evccid : List ℕ) (random : RandomWords) (s : Server) (r : Response) (t : Reply)
    → handle_iso_session_setup evccid random s r ≡ returned t
    → Moves s.stop.iso (1 ∷ []) t
unfolding handle_iso_session_setup
session_setup-Moves evccid random s r t h = answer-Moves _ _ _ t h (1 ∷ []) refl (inl refl)

pub service_discovery-Moves :
    (scope : Option (List ℕ)) (s : Server) (r : Response) (t : Reply)
    → handle_iso_service_discovery scope s r ≡ returned t
    → Moves s.stop.iso (2 ∷ []) t
unfolding handle_iso_service_discovery
service_discovery-Moves scope s r t h = answer-Moves _ _ _ t h (2 ∷ []) refl (inl refl)

pub service_detail-Moves :
    (id : ℕ) (s : Server) (r : Response) (t : Reply)
    → handle_iso_service_detail id s r ≡ returned t
    → Moves s.stop.iso (2 ∷ []) t
unfolding handle_iso_service_detail
service_detail-Moves id s r t h = answer-Moves _ _ _ t h (2 ∷ []) refl (inl refl)

pub payment_service_selection-Moves :
    (now : ℕ) (req : PaymentServiceSelectionReq) (s : Server) (r : Response) (t : Reply)
    → handle_iso_payment_service_selection now req s r ≡ returned t
    → Moves s.stop.iso (3 ∷ 5 ∷ []) t
unfolding handle_iso_payment_service_selection selection_after
payment_service_selection-Moves now req s r t h =
    answer-Moves _ _ _ t h (3 ∷ 5 ∷ []) refl
      (choice_OneOf (same_option req.payment_option contract) 3 5)

pub payment_details-Moves :
    (now : ℕ) (challenge : List ℕ) (req : PaymentDetailsReq) (s : Server) (r : Response) (t : Reply)
    → handle_iso_payment_details now challenge req s r ≡ returned t
    → Moves s.stop.iso (5 ∷ []) t
unfolding handle_iso_payment_details
payment_details-Moves now challenge req s r t h = answer-Moves _ _ _ t h (5 ∷ []) refl (inl refl)

pub authorization-Moves :
    (now : ℕ) (req : AuthorizationReq) (s : Server) (r : Response) (t : Reply)
    → handle_iso_authorization now req s r ≡ returned t
    → Moves s.stop.iso (6 ∷ 5 ∷ []) t
unfolding handle_iso_authorization auth_after
authorization-Moves now req s r t h = answer-Moves _ _ _ t h (6 ∷ 5 ∷ []) refl (choice_OneOf _ 6 5)

parameter_OneOf : (a b : Bool) → OneOf (if a then if b then 7 else 7 else 6) (7 ∷ 6 ∷ [])
parameter_OneOf true true = inl refl
parameter_OneOf true false = inl refl
parameter_OneOf false b = inr (inl refl)

pub charge_parameter_discovery-Moves :
    (req : ChargeParameterDiscoveryReq) (s : Server) (r : Response) (t : Reply)
    → handle_iso_charge_parameter_discovery req s r ≡ returned t
    → Moves s.stop.iso (7 ∷ 6 ∷ []) t
unfolding handle_iso_charge_parameter_discovery
charge_parameter_discovery-Moves req s r t h =
    answer-Moves _ _ _ t h (7 ∷ 6 ∷ []) refl (parameter_OneOf _ _)

pub cable_check-Moves :
    (status : DcEvStatus) (s : Server) (r : Response) (t : Reply)
    → handle_iso_cable_check status s r ≡ returned t
    → Moves s.stop.iso (8 ∷ 7 ∷ []) t
unfolding handle_iso_cable_check publish_dc_ev_status
cable_check-Moves status s r t h = answer-Moves _ _ _ t h (8 ∷ 7 ∷ []) refl (choice_OneOf _ 8 7)

pub pre_charge-Moves :
    (status : DcEvStatus) (s : Server) (r : Response) (t : Reply)
    → handle_iso_pre_charge status s r ≡ returned t
    → Moves s.stop.iso (9 ∷ []) t
unfolding handle_iso_pre_charge publish_dc_ev_status
pre_charge-Moves status s r t h = answer-Moves _ _ _ t h (9 ∷ []) refl (inl refl)

pub welding_detection-Moves :
    (status : DcEvStatus) (s : Server) (r : Response) (t : Reply)
    → handle_iso_welding_detection status s r ≡ returned t
    → Moves s.stop.iso (13 ∷ []) t
unfolding handle_iso_welding_detection publish_dc_ev_status
welding_detection-Moves status s r t h = answer-Moves _ _ _ t h (13 ∷ []) refl (inl refl)

pub current_demand-Moves :
    (limits : Limits) (req : CurrentDemandReq) (s : Server) (r : Response) (t : Reply)
    → handle_iso_current_demand limits req s r ≡ returned t
    → Moves s.stop.iso (12 ∷ 10 ∷ []) t
unfolding handle_iso_current_demand
current_demand-Moves limits req s r t h =
    answer-Moves _ _ _ t h (12 ∷ 10 ∷ []) refl (choice_OneOf _ 12 10)

pub charging_status-Moves :
    (s : Server) (r : Response) (t : Reply)
    → handle_iso_charging_status s r ≡ returned t
    → Moves s.stop.iso (10 ∷ 9 ∷ []) t
unfolding handle_iso_charging_status
charging_status-Moves s r t h = answer-Moves _ _ _ t h (10 ∷ 9 ∷ []) refl (choice_OneOf _ 10 9)

pub metering_receipt-Moves :
    (s : Server) (r : Response) (t : Reply)
    → s.stop.iso.is_dc_charger ≡ true
    → handle_iso_metering_receipt s r ≡ returned t
    → Moves s.stop.iso (10 ∷ []) t
unfolding handle_iso_metering_receipt
metering_receipt-Moves s r t dc h = answer-Moves _ _ _ t h (10 ∷ []) refl (inl (rw dc))
