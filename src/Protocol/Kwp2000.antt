-- ===== src/Protocol/Kwp2000.antt =====
-- src/protocols/kwp2000.cpp: messages with an additive checksum at the end.
use mcp2515_rpi.Base.{
  ℕ, ◌+◌, ◌*◌, ◌%◌, ◌≡◌, ◌↔◌, Bool, true, false, List, [], ◌∷◌, ◌++◌, arith, u8, bit_or, length,
  ltb, ◌==◌, if◌then◌else◌, length-append,
}
use mcp2515_rpi.Protocol.Checksum.{calculate_checksum, total, total-append, checksum-total}
use mcp2515_rpi.Protocol.Obd2.{verify_checksum, verify-total}

unfoldable pub build_kwp_response : ℕ → List ℕ → List ℕ
build_kwp_response service bytes =
    let msg = u8 (bit_or 0x80 (service + 0x40)) ∷ bytes in msg ++ calculate_checksum msg ∷ []

unfoldable pub validate_kwp_frame : List ℕ → Bool
validate_kwp_frame frame = if ltb (length frame) 3 then false else calculate_checksum frame == 0

unfoldable pub build_kwp_message : ℕ → ℕ → ℕ → List ℕ → List ℕ
build_kwp_message target source service bytes =
    let msg = target ∷ source ∷ service ∷ bytes in msg ++ calculate_checksum msg ∷ []

-- The sum of a frame with its checksum is twice the sum of the message, up to 256.
frame_sum :
    (msg : List ℕ) → calculate_checksum (msg ++ calculate_checksum msg ∷ []) ≡ 2 * total msg % 256
frame_sum msg = ground (
  arith,
  checksum-total (msg ++ calculate_checksum msg ∷ []),
  checksum-total msg,
  total-append msg (calculate_checksum msg ∷ []),
)

-- The checksum that the builder appends is the one that OBD2Standard::verifyChecksum wants, on every
-- message; validateKWPFrame wants the whole frame to add up to 0 instead, and so accepts the builder's
-- message exactly when the sum of its bytes is a multiple of 128.
pub validate-build :
    (target source service : ℕ) (bytes : List ℕ)
    → let frame = build_kwp_message target source service bytes in
      (verify_checksum frame ≡ true)
      × ((validate_kwp_frame frame ≡ true) ↔ ((target + source + service + total bytes) % 128 ≡ 0))
unfolding build_kwp_message validate_kwp_frame
validate-build target source service bytes =
    let msg = target ∷ source ∷ service ∷ bytes in
    (
      ground (arith, verify-total msg (calculate_checksum msg), checksum-total msg),
      ground (arith, frame_sum msg, length-append msg (calculate_checksum msg ∷ [])),
    )
