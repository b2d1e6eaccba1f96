-- ===== src/Protocol/Runs.antt =====
-- Concrete runs of the message formats, and the theorems at concrete inputs.
use mcp2515_rpi.Base.{◌+◌, ◌%◌, ◌≡◌, ◌↔◌, refl, true, false, [], ◌∷◌}
use mcp2515_rpi.Base.{some}
use mcp2515_rpi.Base.Texts.{text}
use mcp2515_rpi.Manufacturer.Samples.{ops}
use mcp2515_rpi.Diagnostics.Dtc.Codes.{encode_code, stoi, digits_value, to_string}
use mcp2515_rpi.Protocol.Pids.{decode_pid, init_pids, find_pid, formula_value}
use mcp2515_rpi.Protocol.Gmlan.{encode_gm_dtc, decode_gm_dtc}
use mcp2515_rpi.Protocol.Checksum.{add_bytes, calculate_checksum}
use mcp2515_rpi.Protocol.Obd2.{verify_checksum}
use mcp2515_rpi.Protocol.Kwp2000.{build_kwp_message, validate_kwp_frame, validate-build}

-- A start of communication, which its own validation refuses.
start_communication : validate_kwp_frame (build_kwp_message 0x33 0xF1 0x81 []) ≡ false
unfolding validate_kwp_frame build_kwp_message calculate_checksum add_bytes
start_communication = refl

validate-build_example :
    (verify_checksum (build_kwp_message 0x33 0xF1 0x81 []) ≡ true)
    × ((validate_kwp_frame (build_kwp_message 0x33 0xF1 0x81 []) ≡ true)
        ↔ ((0x33 + 0xF1 + 0x81 + 0) % 128 ≡ 0))
validate-build_example = validate-build 0x33 0xF1 0x81 []

-- The engine speed by its formula, and a parameter that is not in the table.
decoded : (decode_pid ops 0x0C (0x0C ∷ 0x80 ∷ []) ≡ 800) × (decode_pid ops 0x99 (1 ∷ []) ≡ 0)
unfolding decode_pid init_pids find_pid formula_value
decoded = (refl, refl)

catalyst_encoded :
    (encode_code (text "P0420") ≡ some 420) × (encode_gm_dtc (text "P0420") ≡ some 420)
unfolding encode_code encode_gm_dtc stoi digits_value
catalyst_encoded = (refl, refl)

-- The first digit keeps the two bits of the letter.
written_code : decode_gm_dtc 0x4123 ≡ text "C4123"
unfolding decode_gm_dtc to_string
written_code = refl
