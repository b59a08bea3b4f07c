-- ===== src/Lib.antt =====
-- The EVSE test system: a charging station that tests electric vehicles. An operator schedules test
-- cases with the module EvseTestManager; the module EvseTestV2G then talks to the vehicle that is
-- plugged in, plays the station's part of the test case, and reports an outcome.
--
-- How the parts interact. `TestStateMachine` takes a test from its queue and signals its setup; the
-- charger module `evse_test_managerImpl` hands the test to the V2G module (`set_test_context`) and
-- enables the charger. The vehicle finds the V2G server by the discovery protocol (`sdp.cpp`) and opens a
-- connection; `v2g_handle_connection` negotiates a protocol, creates the server of the test, exchanges
-- messages until the session ends, and publishes heartbeats, status and result, which come back to
-- the state machine as `process_heartbeat`, `process_test_status` and `process_test_result`.
--
-- Which file models which part:
--   Types                  types/evse_test_common.yaml and the result of types/evse_test_v2g.yaml
--   TestManager/Machine    modules/EvseTestManager/TestStateMachine.hpp and TestStateMachine.cpp:
--                          `run_state_machine`, with one function per case of its switch
--   TestManager/Handlers   the same file: the calls of other threads
--   TestManager/Loop, Invariant, Queue, Graph, Timing
--                          proofs about both, over sequences of calls
--   TestManager/Sniffer    modules/EvseTestManager/PacketSniffer.cpp, as a step relation
--   TestManager/Evse       modules/EvseTestManager/evse/evse_test_managerImpl.cpp
--   V2g/Types              the enumerations of modules/EvseTestV2G/v2g.hpp
--   V2g/MessageId          `get_v2g_message_id` of modules/EvseTestV2G/v2g_server.cpp and the functions
--                          `get_din_request_id` to `get_iso2_response_id` of testcase.cpp
--   V2g/Interface          the function pointer `read` of a connection, with what the server relies on
--   V2g/Transport/Tcp      `connection_read` and `connection_write` of connection/connection.cpp
--   V2g/Transport/Incoming `v2g_incoming_v2gtp` of v2g_server.cpp
--   V2g/Handshake          `v2g_handle_apphandshake` of v2g_server.cpp; Handshake/Best: its choice
--   V2g/Create             `v2g_create_din_server` and `v2g_create_iso_server` of v2g_server.cpp
--   V2g/Session            `v2g_handle_connection` of v2g_server.cpp: Env its environment and its
--                          actions, Stages and Connection its parts, the others proofs
--   V2g/Iso                modules/EvseTestV2G/server/iso_server.cpp and iso_server.hpp:
--     States, StateIds     the tables of requests, the numbers of the states, and the validation
--     Server               the context of the handlers, their responses, and their common end
--     Discovery, Payment, Authorization, Parameters, PowerDelivery, Charging, Installation, SessionStop
--                          the handlers of the messages, in the order of a session
--     Profile, Waiting     the check of a charging profile, and the waits on `mqtt_cond`
--     Request              `handle_request`
--     Diagram              the phases of a DC session, as a specification of its own
--     the other files      proofs
--   V2g/Din                modules/EvseTestV2G/server/din_server.cpp and din_server.hpp:
--     States, StateIds     the table of requests, the numbers of the states, and the validation
--     Handlers, Charging   the handlers of the messages, in the order of a session
--     Finding, Request     `find_req_message_type` and `handle_request`
--     Diagram              the phases of a session, as a specification of its own
--     the other files      proofs
--   V2g/Tester             modules/EvseTestV2G/tester/evse_test_v2gImpl.cpp
--   Tools                  modules/EvseTestV2G/tools.cpp: Time and Random
--   Sdp                    modules/EvseTestV2G/sdp.cpp
--   TestCases              modules/EvseTestV2G/testcases, around the handlers of the two servers: Common
--     PreCharge            chn_precharge_006: Close the state and the verdict, Server the handlers
--     CableCheck           chn_cable_check_006: State the state, Close the verdict, Handlers and Servers the
--                          handlers, the others proofs
--     Scheduling           chx_smart_charging_scheduling_base, 001, 002 and 003: Schedule the intervals and
--                          the judgement of a power, State the state and the verdict, Tests the limits,
--                          Handlers and Servers the handlers
--     Timeout              chn_session_setup_004, chn_current_demand_005 and chn_service_detail_011: Close the
--                          state and the verdict, the others the handlers and the request
--   Examples               runs on concrete inputs
--
-- How the code is modelled. A method is a function from a state record to a new one; what it tells
-- others is a list in the state (the newest first in the machine and the charger module) or a list of
-- actions in order (the session). Numbers are natural numbers, time points are nanoseconds or
-- milliseconds as in the code, and an unsigned width is written out where a value can reach it.
-- Clocks, sockets, allocation, the EXI codec and the V2GTP codec are outside of the modules: what they
-- gave is an argument, and a list of such answers stands for a loop of calls, whose end is said where
-- the list is declared.
--
-- Bounds. `run_state_machine` has fuel for three rounds after the last one before which another thread
-- may store in `state_machine_enabled`; the loop always ends within them. `carry` and `borrow` have as much
-- fuel as there are nanoseconds, and each round takes away a second.
-- The fuel of the check of charging profiles is an argument, since that loop need not end.
--
-- What is not modelled: the other test cases, whose answers are events of the environment of a session,
-- as those of the two servers are there; in the servers and the test cases the values that are only
-- copied into a response, the physical values that are published and the fields of reports; TLS,
-- cryptography and logging, which are calls of libraries; the threads around the event loop; and the
-- modules in other languages.
pub mod Base
pub mod Types
pub mod TestManager
pub mod V2g
pub mod Tools
pub mod Sdp
pub mod TestCases
pub mod Examples
