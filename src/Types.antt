-- ===== src/Types.antt =====
-- The types of types/evse_test_common.yaml, which the test manager and the V2G module exchange.
use evse_test_system.Base.{List, Option}
use Prim.Native.String.{String}

-- TestId: the static identifiers of the test cases.
pub data TestId : Type 0 where
  session_setup_004 session_setup_007 service_discovery_008 service_detail_011 : TestId
  service_detail_013 service_detail_payment_selection_003 : TestId
  service_detail_payment_selection_012 authorization_004 authorization_009 : TestId
  charge_parameter_discovery_002 cable_check_006 cable_check_007 pre_charge_006 : TestId
  current_demand_002 current_demand_005 current_demand_007 welding_session_stop_001 : TestId
  smart_charging_scheduling_001 smart_charging_scheduling_002 : TestId
  smart_charging_scheduling_003 : TestId

pub data V2gProtocol : Type 0 where
  din_70121 iso_15118_2 : V2gProtocol

pub data ChargeMode : Type 0 where
  ac_mode dc_mode : ChargeMode

pub data IdentificationMode : Type 0 where
  eim pnc : IdentificationMode

pub data TestOutcome : Type 0 where
  not_started preconditions_not_met pass_criteria_not_met pass_criteria_met : TestOutcome
  canceled_outcome : TestOutcome

pub data TestState : Type 0 where
  queued running canceled finished : TestState

-- TestConstraints: every property is optional.
pub record TestConstraints : Type 0 where
  pub protocols : Option (List V2gProtocol)
  pub charge_modes : Option (List ChargeMode)
  pub ident_modes : Option (List IdentificationMode)

-- RunContext: no property is required.
pub record RunContext : Type 0 where
  pub start_timestamp : Option String
  pub end_timestamp : Option String
  pub protocol : Option V2gProtocol
  pub charge_mode : Option ChargeMode
  pub ident_mode : Option IdentificationMode

-- The TestResult of types/evse_test_v2g.yaml, over the type of a report.
pub record V2gTestResult (Report : Type 0) : Type 0 where
  pub outcome : TestOutcome
  pub context : RunContext
  pub evidence : List String
  pub reports : List Report
  pub errors : List String
