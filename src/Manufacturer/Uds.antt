-- ===== src/Manufacturer/Uds.antt =====
-- BaseManufacturer's UDS services. `now` is the clock, `generated` what the seed generator returns.
use mcp2515_rpi.Base.{
  ℕ, ◌+◌, Bool, true, List, [], ◌∷◌, ◌++◌, bit_and, bit_or, u8, ◌>>◌, ◌==◌, if◌then◌else◌,
}
use mcp2515_rpi.Session.{
  SessionManager, change_session, request_seed, send_key, set_tester_present, reset_timers,
}
use mcp2515_rpi.Manufacturer.{Ecu}
use mcp2515_rpi.Manufacturer.Profiles.{FloatOps}
use mcp2515_rpi.Manufacturer.Pids.{high_low}
use mcp2515_rpi.Manufacturer.Modes.{four_bytes}

unfoldable pub handle_ecu_reset : ℕ → List ℕ
handle_ecu_reset reset_type = 0x51 ∷ reset_type ∷ []

unfoldable pub handle_communication_control : ℕ → List ℕ
handle_communication_control control_type = 0x50 ∷ 0x28 ∷ 0x00 ∷ []

unfoldable pub handle_write_data_by_identifier : ℕ → List ℕ → List ℕ
handle_write_data_by_identifier did payload = 0x6F ∷ 0x2E ∷ u8 (did >> 8) ∷ bit_and did 0xFF ∷ []

unfoldable pub handle_read_memory_by_address : ℕ → ℕ → List ℕ
handle_read_memory_by_address address size = 0x7F ∷ 0x23 ∷ 0x12 ∷ []

unfoldable pub handle_write_memory_by_address : ℕ → List ℕ → List ℕ
handle_write_memory_by_address address payload = 0x7F ∷ 0x3D ∷ 0x12 ∷ []

unfoldable pub handle_routine_control : ℕ → ℕ → List ℕ → List ℕ
handle_routine_control routine_type routine_id payload =
    0x70 ∷ u8 (routine_type + 0x30) ∷ (high_low routine_id ++ 0x00 ∷ [])

unfoldable pub handle_request_download : ℕ → ℕ → ℕ → List ℕ
handle_request_download data_format address size = 0x74 ∷ 0x20 ∷ []

unfoldable pub handle_request_upload : ℕ → ℕ → ℕ → List ℕ
handle_request_upload data_format address size = 0x75 ∷ 0x20 ∷ []

unfoldable pub handle_transfer_data : ℕ → List ℕ → List ℕ
handle_transfer_data block_seq_num payload = 0x76 ∷ block_seq_num ∷ []

unfoldable pub handle_request_transfer_exit : List ℕ
handle_request_transfer_exit = 0x77 ∷ []

module _ {F : Type 0} where
  -- What a call of the session manager leaves, and a response for either result.
  abbrev pub answer : Ecu F → SessionManager × Bool → List ℕ → List ℕ → Ecu F × List ℕ
  answer e (m, ok) positive negative =
      (record e { session_manager = m }, if ok then positive else negative)

  unfoldable pub handle_diagnostic_session_control : Ecu F → ℕ → ℕ → Ecu F × List ℕ
  unfolding change_session
  handle_diagnostic_session_control e now session_type =
      answer e (change_session e.session_manager now session_type)
        (0x50 ∷ session_type ∷ 0x00 ∷ 0x00 ∷ 0x00 ∷ []) (0x7F ∷ 0x10 ∷ 0x12 ∷ [])

  unfoldable pub handle_security_access : Ecu F → ℕ → List ℕ → ℕ → List ℕ → Ecu F × List ℕ
  unfolding request_seed send_key
  handle_security_access e now generated level payload =
      if bit_and level 0x01 == 0x01
      then answer e (request_seed e.session_manager level generated) (0x67 ∷ level ∷ [])
          (0x7F ∷ 0x27 ∷ 0x12 ∷ [])
      else answer e (send_key e.session_manager now (bit_or level 0x01) payload) (0x67 ∷ level ∷ [])
          (0x7F ∷ 0x27 ∷ 0x35 ∷ [])

  unfoldable pub handle_tester_present : Ecu F → ℕ → Ecu F × List ℕ
  unfolding set_tester_present reset_timers
  handle_tester_present e now = (
    record e { session_manager = reset_timers (set_tester_present e.session_manager true) now },
    0x7E ∷ 0x3E ∷ 0x00 ∷ [],
  )

  unfoldable pub handle_read_data_by_identifier : FloatOps F → Ecu F → ℕ → List ℕ → List ℕ
  handle_read_data_by_identifier ops e did payload =
      if did == 0xF190
      then 0x62 ∷ (high_low did ++ e.vin)
      else if did == 0xF187
      then 0x62 ∷ 0xF1 ∷ 0x87 ∷ b'M' ∷ b'u' ∷ b'l' ∷ b't' ∷ b'i' ∷ b'-' ∷ b'E' ∷ b'C' ∷ b'U' ∷ b' '
        ∷ b'E' ∷ b'm' ∷ b'u' ∷ b'l' ∷ b'a' ∷ b't' ∷ b'o' ∷ b'r' ∷ []
      else if did == 0xF18C
      then 0x62 ∷ 0xF1 ∷ 0x8C ∷ four_bytes e.ecu_serial
      else if did == 0x0100
      then 0x62 ∷ 0x01 ∷ 0x00 ∷ high_low (ops.to_u16 (ops.mul e.engine_rpm (ops.literal 4 1)))
      else if did == 0x0101
      then 0x62 ∷ 0x01 ∷ 0x01 ∷ ops.to_u8 (ops.mul e.vehicle_speed (ops.literal 1 1)) ∷ []
      else 0x7F ∷ 0x22 ∷ 0x12 ∷ []
