-- ===== src/V2g/Create.antt =====
-- modules/EvseTestV2G/v2g_server.cpp: `v2g_create_din_server` and `v2g_create_iso_server`, which test
-- server a session gets. A server is named by the test that it runs and its protocol.
use evse_test_system.Base.{◌≡◌, Option, none, some, ◌↔◌, ◌⊎◌, arith}
use evse_test_system.Types.{
  TestId, session_setup_004, session_setup_007, service_discovery_008, service_detail_011,
  service_detail_013, service_detail_payment_selection_003, service_detail_payment_selection_012,
  authorization_004, authorization_009, charge_parameter_discovery_002, cable_check_006,
  cable_check_007, pre_charge_006, current_demand_002, current_demand_005, current_demand_007,
  welding_session_stop_001, smart_charging_scheduling_001, smart_charging_scheduling_002,
  smart_charging_scheduling_003,
}

-- The test servers: the namespace of the class, and `DinTestServer` or `Iso2TestServer`.
pub data TestServer : Type 0 where
  din_test_server iso2_test_server : TestId → TestServer

unfoldable pub v2g_create_din_server : TestId → Option TestServer
v2g_create_din_server session_setup_004 = some (din_test_server session_setup_004)
v2g_create_din_server session_setup_007 = some (din_test_server session_setup_007)
v2g_create_din_server service_discovery_008 = some (din_test_server service_discovery_008)
v2g_create_din_server service_detail_payment_selection_003 =
    some (din_test_server service_detail_payment_selection_003)
v2g_create_din_server service_detail_payment_selection_012 =
    some (din_test_server service_detail_payment_selection_012)
v2g_create_din_server authorization_004 = some (din_test_server authorization_004)
v2g_create_din_server authorization_009 = some (din_test_server authorization_009)
v2g_create_din_server charge_parameter_discovery_002 =
    some (din_test_server charge_parameter_discovery_002)
v2g_create_din_server cable_check_006 = some (din_test_server cable_check_006)
v2g_create_din_server cable_check_007 = some (din_test_server cable_check_007)
v2g_create_din_server pre_charge_006 = some (din_test_server pre_charge_006)
v2g_create_din_server current_demand_002 = some (din_test_server current_demand_002)
v2g_create_din_server current_demand_005 = some (din_test_server current_demand_005)
v2g_create_din_server current_demand_007 = some (din_test_server current_demand_007)
v2g_create_din_server welding_session_stop_001 = some (din_test_server welding_session_stop_001)
v2g_create_din_server smart_charging_scheduling_001 =
    some (din_test_server smart_charging_scheduling_001)
v2g_create_din_server smart_charging_scheduling_002 =
    some (din_test_server smart_charging_scheduling_002)
v2g_create_din_server smart_charging_scheduling_003 =
    some (din_test_server smart_charging_scheduling_003)
v2g_create_din_server _ = none

unfoldable pub v2g_create_iso_server : TestId → Option TestServer
v2g_create_iso_server session_setup_004 = some (iso2_test_server session_setup_004)
v2g_create_iso_server session_setup_007 = some (iso2_test_server session_setup_007)
v2g_create_iso_server service_discovery_008 = some (iso2_test_server service_discovery_008)
v2g_create_iso_server service_detail_011 = some (iso2_test_server service_detail_011)
v2g_create_iso_server service_detail_013 = some (iso2_test_server service_detail_013)
v2g_create_iso_server service_detail_payment_selection_003 =
    some (iso2_test_server service_detail_payment_selection_003)
v2g_create_iso_server service_detail_payment_selection_012 =
    some (iso2_test_server service_detail_payment_selection_012)
v2g_create_iso_server authorization_004 = some (iso2_test_server authorization_004)
v2g_create_iso_server charge_parameter_discovery_002 =
    some (iso2_test_server charge_parameter_discovery_002)
v2g_create_iso_server cable_check_006 = some (iso2_test_server cable_check_006)
v2g_create_iso_server cable_check_007 = some (iso2_test_server cable_check_007)
v2g_create_iso_server pre_charge_006 = some (iso2_test_server pre_charge_006)
v2g_create_iso_server current_demand_002 = some (iso2_test_server current_demand_002)
v2g_create_iso_server current_demand_005 = some (iso2_test_server current_demand_005)
v2g_create_iso_server current_demand_007 = some (iso2_test_server current_demand_007)
v2g_create_iso_server welding_session_stop_001 = some (iso2_test_server welding_session_stop_001)
v2g_create_iso_server smart_charging_scheduling_001 =
    some (iso2_test_server smart_charging_scheduling_001)
v2g_create_iso_server smart_charging_scheduling_002 =
    some (iso2_test_server smart_charging_scheduling_002)
v2g_create_iso_server smart_charging_scheduling_003 =
    some (iso2_test_server smart_charging_scheduling_003)
v2g_create_iso_server authorization_009 = none

-- Every test id has a server for DIN 70121 or for ISO 15118-2, and a server runs the test that it was asked
-- for: DIN 70121 lacks exactly the service detail tests 011 and 013, ISO 15118-2 exactly the
-- authorization test 009.
create_server_cases :
    (t : TestId)
    → (v2g_create_din_server t ≡ none ↔ (t ≡ service_detail_011) ⊎ (t ≡ service_detail_013))
      × (v2g_create_iso_server t ≡ none ↔ t ≡ authorization_009)
      × ((v2g_create_din_server t ≡ none) ⊎ (v2g_create_din_server t ≡ some (din_test_server t)))
      × ((v2g_create_iso_server t ≡ none) ⊎ (v2g_create_iso_server t ≡ some (iso2_test_server t)))
unfolding v2g_create_din_server v2g_create_iso_server
create_server_cases t = ground arith
