-- ===== src/V2g/Din/Phases.antt =====
-- modules/EvseTestV2G/server/din_server.hpp: the numbered states and masks against the diagram of the phases.
use evse_test_system.Base.{ℕ, ◌≡◌, inl, inr, true, some, List, [], ◌∷◌, arith}
use evse_test_system.V2g.Types.{
  V2gMsgTypeId, session_setup_msg, service_discovery_msg, payment_service_selection_msg,
  authorization_msg, charge_parameter_discovery_msg, cable_check_msg, pre_charge_msg,
  power_delivery_msg, current_demand_msg, welding_detection_msg, session_stop_msg,
}
use evse_test_system.V2g.Iso.States.{ok}
use evse_test_system.V2g.Iso.Answers.{OneOf}
use evse_test_system.V2g.Din.States.{din_validate_state}
use evse_test_system.V2g.Din.Diagram.{
  DinPhase, din_setup, din_discovery, din_selection, din_authorization, din_parameters,
  din_cable_check, din_pre_charge, din_pre_charge_or_delivery, din_demand, din_demand_or_delivery,
  din_welding_or_stop, din_stop, din_terminated, can_din_step,
}

abbrev pub din_phase_number : DinPhase → ℕ
din_phase_number din_setup = 0
din_phase_number din_discovery = 1
din_phase_number din_selection = 2
din_phase_number din_authorization = 3
din_phase_number din_parameters = 4
din_phase_number din_cable_check = 5
din_phase_number din_pre_charge = 6
din_phase_number din_pre_charge_or_delivery = 7
din_phase_number din_demand = 8
din_phase_number din_demand_or_delivery = 9
din_phase_number din_welding_or_stop = 10
din_phase_number din_stop = 11
din_phase_number din_terminated = 12

-- The phases that the handler of a message goes to.
abbrev pub din_targets : V2gMsgTypeId → List DinPhase
din_targets session_setup_msg = din_discovery ∷ []
din_targets service_discovery_msg = din_selection ∷ []
din_targets payment_service_selection_msg = din_authorization ∷ []
din_targets authorization_msg = din_parameters ∷ din_authorization ∷ []
din_targets charge_parameter_discovery_msg = din_cable_check ∷ din_parameters ∷ []
din_targets cable_check_msg = din_pre_charge ∷ din_cable_check ∷ []
din_targets pre_charge_msg = din_pre_charge_or_delivery ∷ []
din_targets power_delivery_msg = din_demand ∷ din_welding_or_stop ∷ []
din_targets current_demand_msg = din_demand_or_delivery ∷ []
din_targets welding_detection_msg = din_welding_or_stop ∷ []
din_targets session_stop_msg = din_terminated ∷ []
din_targets _ = []

abbrev pub DinSteps : DinPhase → V2gMsgTypeId → List DinPhase → Type 0
DinSteps p m [] = Unit
DinSteps p m (q ∷ qs) = (can_din_step p m q ≡ true) × DinSteps p m qs

pub allowed-DinSteps :
    (p : DinPhase) (m : V2gMsgTypeId)
    → din_validate_state (din_phase_number p) m ≡ some ok
    → DinSteps p m (din_targets m)
unfolding din_validate_state
allowed-DinSteps p m h = ground arith

abbrev pub din_numbers : List DinPhase → List ℕ
din_numbers [] = []
din_numbers (q ∷ qs) = din_phase_number q ∷ din_numbers qs

-- A state out of a list of phases is one of them, and all of them are steps where one is asked for.
pub find_din_phase :
    (p : DinPhase) (m : V2gMsgTypeId) (n : ℕ) (qs : List DinPhase)
    → OneOf n (din_numbers qs)
    → (q : DinPhase) × (n ≡ din_phase_number q) × (DinSteps p m qs → can_din_step p m q ≡ true)
find_din_phase p m n [] o = absurd o
find_din_phase p m n (q ∷ qs) (inl e) = (q, e, λ h. h.0)
find_din_phase p m n (q ∷ qs) (inr o) =
    let r = find_din_phase p m n qs o in (r.0, r.1, λ h. r.2 h.1)
