-- ===== src/V2g/Iso/Phases.antt =====
-- modules/EvseTestV2G/server/iso_server.hpp: the numbered states and masks of a DC charger against the diagram of
-- the phases.
use evse_test_system.Base.{ℕ, ◌≡◌, inl, inr, true, some, List, [], ◌∷◌, arith}
use evse_test_system.V2g.Types.{
  V2gMsgTypeId, session_setup_msg, service_discovery_msg, service_detail_msg,
  payment_service_selection_msg, payment_details_msg, authorization_msg,
  charge_parameter_discovery_msg, metering_receipt_msg, charging_status_msg, cable_check_msg,
  pre_charge_msg, power_delivery_msg, current_demand_msg, welding_detection_msg, session_stop_msg,
}
use evse_test_system.V2g.Iso.States.{ok, iso_validate_state}
use evse_test_system.V2g.Iso.Diagram.{
  Phase, setup, discovery, selection, details_or_certificate, details, authorization, parameters,
  cable_check, pre_charge, pre_charge_or_delivery, demand_or_delivery, demand, receipt,
  welding_or_stop, terminated, can_step,
}
use evse_test_system.V2g.Iso.Answers.{OneOf}

abbrev pub phase_number : Phase → ℕ
phase_number setup = 0
phase_number discovery = 1
phase_number selection = 2
phase_number details_or_certificate = 3
phase_number details = 4
phase_number authorization = 5
phase_number parameters = 6
phase_number cable_check = 7
phase_number pre_charge = 8
phase_number pre_charge_or_delivery = 9
phase_number demand_or_delivery = 10
phase_number demand = 11
phase_number receipt = 12
phase_number welding_or_stop = 13
phase_number terminated = 14

-- The phases that the handler of a message goes to.
abbrev pub targets : V2gMsgTypeId → List Phase
targets session_setup_msg = discovery ∷ []
targets service_discovery_msg = selection ∷ []
targets service_detail_msg = selection ∷ []
targets payment_service_selection_msg = details_or_certificate ∷ authorization ∷ []
targets payment_details_msg = authorization ∷ []
targets authorization_msg = parameters ∷ authorization ∷ []
targets charge_parameter_discovery_msg = cable_check ∷ parameters ∷ []
targets cable_check_msg = pre_charge ∷ cable_check ∷ []
targets pre_charge_msg = pre_charge_or_delivery ∷ []
targets power_delivery_msg = parameters ∷ demand ∷ welding_or_stop ∷ []
targets current_demand_msg = receipt ∷ demand_or_delivery ∷ []
targets metering_receipt_msg = demand_or_delivery ∷ []
targets charging_status_msg = demand_or_delivery ∷ pre_charge_or_delivery ∷ []
targets welding_detection_msg = welding_or_stop ∷ []
targets session_stop_msg = setup ∷ terminated ∷ []
targets _ = []

abbrev pub Steps : Phase → V2gMsgTypeId → List Phase → Type 0
Steps p m [] = Unit
Steps p m (q ∷ qs) = (can_step p m q ≡ true) × Steps p m qs

pub allowed-Steps :
    (p : Phase) (m : V2gMsgTypeId)
    → iso_validate_state (phase_number p) m true ≡ some ok
    → Steps p m (targets m)
unfolding iso_validate_state
allowed-Steps p m h = ground arith

abbrev pub numbers : List Phase → List ℕ
numbers [] = []
numbers (q ∷ qs) = phase_number q ∷ numbers qs

-- A state out of a list of phases is one of them, and all of them are steps where one is asked for.
pub find_phase :
    (p : Phase) (m : V2gMsgTypeId) (n : ℕ) (qs : List Phase)
    → OneOf n (numbers qs)
    → (q : Phase) × (n ≡ phase_number q) × (Steps p m qs → can_step p m q ≡ true)
find_phase p m n [] o = absurd o
find_phase p m n (q ∷ qs) (inl e) = (q, e, λ h. h.0)
find_phase p m n (q ∷ qs) (inr o) = let r = find_phase p m n qs o in (r.0, r.1, λ h. r.2 h.1)
