-- ===== src/V2g/Session/Accounts.antt =====
-- v2g_server.cpp, `v2g_handle_connection`: what a session allocates it frees, and the calls of the test
-- server are paired, on every path.
use Prim.Native.String.{String}
use evse_test_system.Base.{ℕ, ◌≤◌, ◌≡◌, refl, Bool, true, arith}
use evse_test_system.Types.{finished}
use evse_test_system.V2g.Session.Env.{
  Document, exi_in, exi_out, Action, publish_test_status, publish_heartbeat, publish_v2g_message_in,
  publish_v2g_message_out, publish_test_result, malloc_buffer, free_buffer, calloc_document,
  free_document, dispatch_test_started, dispatch_connection_close_event, dispatch_test_finished,
  outgoing, Env,
}
use evse_test_system.V2g.Session.Connection.{v2g_handle_connection}
use evse_test_system.V2g.Session.Totals.{total, IsQuiet, clean_flags}
use evse_test_system.V2g.Session.Endings.{connection-total}

-- The five weights that count one kind of action each.
abbrev pub count_alloc : Document → Action → ℕ
count_alloc exi_in (calloc_document exi_in) = 1
count_alloc exi_out (calloc_document exi_out) = 1
count_alloc _ _ = 0

abbrev pub count_free : Document → Action → ℕ
count_free exi_in (free_document exi_in) = 1
count_free exi_out (free_document exi_out) = 1
count_free _ _ = 0

abbrev pub count_malloc : Action → ℕ
count_malloc malloc_buffer = 1
count_malloc _ = 0

abbrev pub count_free_buffer : Action → ℕ
count_free_buffer free_buffer = 1
count_free_buffer _ = 0

abbrev pub count_started : Action → ℕ
count_started dispatch_test_started = 1
count_started _ = 0

abbrev pub count_closed : Action → ℕ
count_closed dispatch_connection_close_event = 1
count_closed _ = 0

abbrev pub count_finished : Action → ℕ
count_finished dispatch_test_finished = 1
count_finished _ = 0

abbrev pub count_results : Action → ℕ
count_results (publish_test_result _ _ _) = 1
count_results _ = 0

abbrev pub count_ends : Action → ℕ
count_ends (publish_test_status finished) = 1
count_ends _ = 0

IsQuiet-by :
    (w : Action → ℕ)
    → w publish_heartbeat ≡ 0
    → w publish_v2g_message_in ≡ 0
    → w publish_v2g_message_out ≡ 0
    → ((b : Bool) → w (outgoing b) ≡ 0)
    → IsQuiet w
IsQuiet-by w a b c d = record { no_heartbeat = a; no_request = b; no_response = c; no_outgoing = d }

documents_freed :
    (v : Env)
    → v.buffer_ok ≡ true
    → (d : Document)
    → let done = (v2g_handle_connection v).0 in
      (total (count_alloc d) done ≡ total (count_free d) done) × (total (count_alloc d) done ≤ 1)
unfolding clean_flags
documents_freed v h exi_in =
    let k = connection-total v h in
    ground (
      arith,
      k.1 (count_alloc exi_in) (IsQuiet-by _ refl refl refl (λ b. refl)),
      k.1 (count_free exi_in) (IsQuiet-by _ refl refl refl (λ b. refl)),
    )
documents_freed v h exi_out =
    let k = connection-total v h in
    ground (
      arith,
      k.1 (count_alloc exi_out) (IsQuiet-by _ refl refl refl (λ b. refl)),
      k.1 (count_free exi_out) (IsQuiet-by _ refl refl refl (λ b. refl)),
    )

-- Every session whose buffer was allocated frees each document as often as it allocated it, and at most
-- once; it frees the buffer once; it tells the test that it started, that the connection closed and that
-- it finished equally often, at most once; and it publishes one result and one status `finished`.
pub v2g_handle_connection-accounts :
    (v : Env)
    → v.buffer_ok ≡ true
    → let done = (v2g_handle_connection v).0 in
      ((d : Document)
        → (total (count_alloc d) done ≡ total (count_free d) done)
          × (total (count_alloc d) done ≤ 1))
      × (total count_malloc done ≡ 1)
      × (total count_free_buffer done ≡ 1)
      × (total count_started done ≡ total count_closed done)
      × (total count_started done ≡ total count_finished done)
      × (total count_started done ≤ 1)
      × (total count_results done ≡ 1)
      × (total count_ends done ≡ 1)
unfolding clean_flags
v2g_handle_connection-accounts v h =
    let k = connection-total v h in
    ground (
      arith,
      documents_freed v h,
      k.1 count_malloc (IsQuiet-by _ refl refl refl (λ b. refl)),
      k.1 count_free_buffer (IsQuiet-by _ refl refl refl (λ b. refl)),
      k.1 count_started (IsQuiet-by _ refl refl refl (λ b. refl)),
      k.1 count_closed (IsQuiet-by _ refl refl refl (λ b. refl)),
      k.1 count_finished (IsQuiet-by _ refl refl refl (λ b. refl)),
      k.1 count_results (IsQuiet-by _ refl refl refl (λ b. refl)),
      k.1 count_ends (IsQuiet-by _ refl refl refl (λ b. refl)),
    )
