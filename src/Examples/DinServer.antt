-- ===== src/Examples/DinServer.antt =====
-- A run of the model of modules/EvseTestV2G/server/din_server.cpp on a concrete input.
use evse_test_system.Base.{refl}
use evse_test_system.V2g.Types.{cable_check_msg}
use evse_test_system.V2g.Iso.Server.{Reply}
use evse_test_system.V2g.Iso.Discovery.{RandomWords}
use evse_test_system.V2g.Din.States.{din_validate_response_code}
use evse_test_system.V2g.Din.Diagram.{din_cable_check}
use evse_test_system.V2g.Din.Request.{din_cable_check_req, handle_din_request}
use evse_test_system.V2g.Din.Refinement.{DinRefines, handle_din_request-Refines}
use evse_test_system.Examples.IsoServer.{ready_status, charger, blank, reply_of}

abbrev pub words : RandomWords
words = record { first = 1; second = 2; third = 3; fourth = 4 }

-- The charger waits for a cable check, and its isolation is checked.
abbrev checked_din_cable : Reply
checked_din_cable =
    reply_of (handle_din_request words blank 77 (din_cable_check_req ready_status) (charger 5))

handle_din_request-Refines_example : DinRefines din_cable_check cable_check_msg checked_din_cable
unfolding handle_din_request din_validate_response_code
handle_din_request-Refines_example =
    handle_din_request-Refines words blank 77 (din_cable_check_req ready_status) din_cable_check
      (charger 5) checked_din_cable refl refl refl
