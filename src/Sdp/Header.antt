-- ===== src/Sdp/Header.antt =====
-- modules/EvseTestV2G/sdp.cpp: `sdp_write_header` and `sdp_validate_header`.
use evse_test_system.Base.{ℕ, ◌≡◌, ◌<◌, ◌↔◌, List, ◌++◌, length, arith}
use evse_test_system.Base.Int.{pos}
use evse_test_system.Sdp.{sdp_write_header, sdp_validate_header, sdp_header_len}

-- Whatever follows it, a header that `sdp_write_header` writes for a 16-bit type and a 32-bit
-- length is accepted by `sdp_validate_header` exactly for that type and that length.
pub sdp_header-roundtrip :
    (rest : List ℕ) (payload_type payload_len expected_type expected_len : ℕ)
    → payload_type < 65536
    → payload_len < 4294967296
    → (length (sdp_write_header payload_type payload_len) ≡ sdp_header_len)
      × (sdp_validate_header
              (sdp_write_header payload_type payload_len ++ rest)
              expected_type
              expected_len
            ≡ pos 0
          ↔ (payload_type ≡ expected_type) × (payload_len ≡ expected_len))
unfolding sdp_write_header sdp_validate_header
sdp_header-roundtrip rest payload_type payload_len expected_type expected_len h k = ground arith
