-- ===== src/Manufacturer/Modes.antt =====
-- BaseManufacturer::handleMode01 to handleMode0A. `noise` is the draw that a sensor override makes.
use mcp2515_rpi.Base.{
  ℕ, min, Bool, true, false, Option, none, some, List, [], ◌∷◌, ◌++◌, length, take, bit_and, u8,
  ◌>>◌, ◌==◌, if◌then◌else◌,
}
use mcp2515_rpi.Manufacturer.{Ecu, DtcInfo, FreezeFrame, PidEntry, get_dtcs, clear_dtcs}
use mcp2515_rpi.Manufacturer.Profiles.{FloatOps}
use mcp2515_rpi.Manufacturer.Pids.{get_pid_entry, encode_pid_response, mode01_value, high_low}

unfoldable pub dtc_bytes : List DtcInfo → List ℕ
dtc_bytes [] = []
dtc_bytes (d ∷ ds) = high_low d.code ++ dtc_bytes ds

abbrev pub four_bytes : ℕ → List ℕ
four_bytes n =
    bit_and (n >> 24) 0xFF ∷ bit_and (n >> 16) 0xFF ∷ bit_and (n >> 8) 0xFF ∷ bit_and n 0xFF ∷ []

abbrev is_none : Option PidEntry → Bool
is_none none = true
is_none (some e) = false

unfoldable pub handle_mode05 : ℕ → List ℕ
handle_mode05 test_id = 0x05 ∷ 0x00 ∷ []

unfoldable pub handle_mode06 : ℕ → List ℕ
handle_mode06 monitor_id = 0x06 ∷ 0x00 ∷ []

unfoldable pub handle_mode08 : ℕ → List ℕ → List ℕ
handle_mode08 test_id payload = 0x08 ∷ 0x00 ∷ []

module _ {F : Type 0} where
  unfoldable pub handle_mode01 : FloatOps F → Ecu F → F → ℕ → List ℕ
  unfolding get_pid_entry mode01_value encode_pid_response
  handle_mode01 ops e noise pid =
      if is_none (get_pid_entry e.pid_table pid)
      then 0x7F ∷ 0x01 ∷ 0x12 ∷ []
      else encode_pid_response ops e.pid_table pid (mode01_value ops e noise pid)

  abbrev no_frames : List (FreezeFrame F) → Bool
  no_frames [] = true
  no_frames (f ∷ fs) = false

  unfoldable pub handle_mode02 : FloatOps F → Ecu F → F → ℕ → List ℕ
  unfolding handle_mode01
  handle_mode02 ops e noise pid =
      if no_frames e.freeze_frames then 0x7F ∷ 0x02 ∷ 0x31 ∷ [] else handle_mode01 ops e noise pid

  -- The result always starts with the count, so that the source's last test never holds.
  unfoldable pub handle_mode03 : Ecu F → List ℕ
  unfolding get_dtcs dtc_bytes
  handle_mode03 e =
      let active = get_dtcs e true in
      u8 (min (length active) 255) ∷ dtc_bytes (take (min (length active) 255) active)

  unfoldable pub handle_mode04 : F → Ecu F → Ecu F × List ℕ
  unfolding clear_dtcs
  handle_mode04 zero_float e = (clear_dtcs zero_float e, 0x04 ∷ 0x00 ∷ [])

  unfoldable pub handle_mode07 : Ecu F → List ℕ
  unfolding handle_mode03
  handle_mode07 e = handle_mode03 e

  unfoldable pub handle_mode09 : Ecu F → ℕ → List ℕ
  handle_mode09 e info_type =
      if info_type == 0x00
      then 0x09 ∷ 0x00 ∷ 0x01 ∷ 0x02 ∷ 0x04 ∷ 0x05 ∷ 0x06 ∷ 0x08 ∷ 0x0A ∷ 0x0B ∷ []
      else if info_type == 0x01
      then 0x09 ∷ 0x01 ∷ e.vin
      else if info_type == 0x02
      then 0x09 ∷ 0x02 ∷ b'E' ∷ b'C' ∷ b'U' ∷ b' ' ∷ b'E' ∷ b'm' ∷ b'u' ∷ b'l' ∷ b'a' ∷ b't' ∷ b'o'
        ∷ b'r' ∷ b' ' ∷ b'v' ∷ b'1' ∷ b'.' ∷ b'0' ∷ []
      else if info_type == 0x04
      then 0x09 ∷ 0x04 ∷ e.calibration.calibration_id
      else if info_type == 0x05
      then 0x09 ∷ 0x05 ∷ four_bytes e.calibration.cvn
      else if info_type == 0x06
      then 0x09 ∷ 0x06 ∷ []
      else if info_type == 0x08
      then 0x09 ∷ 0x08 ∷ four_bytes e.ecu_serial
      else if info_type == 0x0A
      then 0x09 ∷ 0x0A ∷ b'1' ∷ b'.' ∷ b'0' ∷ b'.' ∷ b'0' ∷ []
      else if info_type == 0x0B
      then 0x09 ∷ 0x0B ∷ []
      else 0x7F ∷ 0x09 ∷ 0x12 ∷ []

  unfoldable pub handle_mode0a : Ecu F → List ℕ
  unfolding handle_mode03
  handle_mode0a e = handle_mode03 e
