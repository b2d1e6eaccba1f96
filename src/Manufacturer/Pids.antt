-- ===== src/Manufacturer/Pids.antt =====
-- BaseManufacturer's parameter table and the encoding of a parameter's value.
pub mod Supported
use mcp2515_rpi.Base.{
  ℕ, ◌+◌, ◌-◌, ◌*◌, ◌/◌, ◌%◌, Bool, true, false, ◌&&◌, ◌||◌, Option, none, some, List, [], ◌∷◌,
  bit_and, bit_or, u8, ◌<<◌, ◌>>◌, ltb, leb, ◌==◌, set, get_or, replicate, if◌then◌else◌,
}
use mcp2515_rpi.Manufacturer.{Ecu, PidEntry}
use mcp2515_rpi.Manufacturer.Profiles.{FloatOps, apply_sensor_override}

abbrev pid_entry : ℕ → Bool → PidEntry
pid_entry pid wide = record { pid = pid; formula_mentions_256 = wide }

abbrev pub default_pids : List PidEntry
default_pids =
    pid_entry 0x00 false
    ∷ pid_entry 0x01 false
    ∷ pid_entry 0x03 false
    ∷ pid_entry 0x04 false
    ∷ pid_entry 0x05 false
    ∷ pid_entry 0x06 false
    ∷ pid_entry 0x07 false
    ∷ pid_entry 0x08 false
    ∷ pid_entry 0x09 false
    ∷ pid_entry 0x0A false
    ∷ pid_entry 0x0B false
    ∷ pid_entry 0x0C true
    ∷ pid_entry 0x0D false
    ∷ pid_entry 0x0E false
    ∷ pid_entry 0x0F false
    ∷ pid_entry 0x10 true
    ∷ pid_entry 0x11 false
    ∷ pid_entry 0x12 false
    ∷ pid_entry 0x13 false
    ∷ pid_entry 0x14 false
    ∷ pid_entry 0x15 false
    ∷ pid_entry 0x16 false
    ∷ pid_entry 0x17 false
    ∷ pid_entry 0x1C false
    ∷ pid_entry 0x1F true
    ∷ pid_entry 0x20 false
    ∷ pid_entry 0x21 true
    ∷ pid_entry 0x22 true
    ∷ pid_entry 0x2F false
    ∷ pid_entry 0x31 true
    ∷ pid_entry 0x33 false
    ∷ pid_entry 0x3C true
    ∷ pid_entry 0x42 true
    ∷ pid_entry 0x43 true
    ∷ pid_entry 0x44 true
    ∷ pid_entry 0x45 false
    ∷ pid_entry 0x46 false
    ∷ pid_entry 0x49 false
    ∷ pid_entry 0x4A false
    ∷ pid_entry 0x4B false
    ∷ pid_entry 0x4C false
    ∷ pid_entry 0x50 false
    ∷ pid_entry 0x5C false
    ∷ pid_entry 0x5D true
    ∷ pid_entry 0x5E true
    ∷ []

unfoldable pub get_pid_entry : List PidEntry → ℕ → Option PidEntry
get_pid_entry [] pid = none
get_pid_entry (e ∷ es) pid = if e.pid == pid then some e else get_pid_entry es pid

-- One entry of the loop of `getSupportedPIDs`.
abbrev pub mark_pid : ℕ → List ℕ → ℕ → List ℕ
mark_pid start result pid =
    if leb start pid && ltb pid (u8 (start + 0x20))
    then set result ((pid - start) / 8)
        (bit_or (get_or result ((pid - start) / 8) 0) (1 << (7 - (pid - start) % 8)))
    else result

unfoldable pub mark_pids : ℕ → List PidEntry → List ℕ → List ℕ
mark_pids start [] result = result
mark_pids start (e ∷ es) result = mark_pids start es (mark_pid start result e.pid)

unfoldable pub get_supported_pids : List PidEntry → ℕ → List ℕ
unfolding mark_pids
get_supported_pids table range = mark_pids (u8 (range * 0x20)) table (replicate 4 0)

abbrev pub high_low : ℕ → List ℕ
high_low n = bit_and (n >> 8) 0xFF ∷ bit_and n 0xFF ∷ []

abbrev among : ℕ → List ℕ → Bool
among n [] = false
among n (x ∷ xs) = n == x || among n xs

module _ {F : Type 0} (ops : FloatOps F) where
  abbrev whole : ℕ → F
  whole n = ops.literal n 1

  -- The bytes after the service and the parameter.
  unfoldable pub encode_value : ℕ → Bool → F → List ℕ
  encode_value pid wide value =
      if pid == 0x0C
      then high_low (ops.to_u16 (ops.mul value (whole 4)))
      else if pid == 0x0D
      then ops.to_u8 value ∷ []
      else if among pid (0x04 ∷ 0x05 ∷ 0x0F ∷ 0x11 ∷ 0x2F ∷ 0x46 ∷ 0x5C ∷ [])
      then ops.to_u8 (ops.add value (whole 40)) ∷ []
      else if pid == 0x10
      then high_low (ops.to_u16 (ops.mul value (whole 100)))
      else if among pid (0x14 ∷ 0x15 ∷ 0x16 ∷ 0x17 ∷ [])
      then ops.to_u8 (ops.div value (ops.literal 5 1000)) ∷ replicate 5 0x80
      else if pid == 0x0B
      then ops.to_u8 value ∷ []
      else if pid == 0x0A
      then ops.to_u8 (ops.div value (whole 3)) ∷ []
      else if among pid (0x1F ∷ 0x21 ∷ 0x31 ∷ [])
      then high_low (ops.to_u16 value)
      else if pid == 0x42
      then high_low (ops.to_u16 (ops.mul value (whole 1000)))
      else if wide
      then high_low (ops.to_u16 value)
      else ops.to_u8 value ∷ []

  abbrev encoded : ℕ → F → Option PidEntry → List ℕ
  encoded pid value none = 0x7F ∷ 0x01 ∷ 0x12 ∷ []
  encoded pid value (some entry) = 0x41 ∷ pid ∷ encode_value pid entry.formula_mentions_256 value

  unfoldable pub encode_pid_response : List PidEntry → ℕ → F → List ℕ
  unfolding get_pid_entry encode_value
  encode_pid_response table pid value = encoded pid value (get_pid_entry table pid)

  -- The value that mode 01 reports, by the parameter.
  unfoldable pub mode01_value : Ecu F → F → ℕ → F
  unfolding apply_sensor_override
  mode01_value e noise pid =
      let seen : F → F =
        λ base. apply_sensor_override ops e.profile_manager noise pid base (whole 0) in
      if pid == 0x0C
      then seen e.engine_rpm
      else if pid == 0x0D
      then seen e.vehicle_speed
      else if pid == 0x05
      then seen e.coolant_temp
      else if pid == 0x0F
      then seen e.intake_temp
      else if pid == 0x10
      then seen e.maf
      else if pid == 0x11
      then seen e.throttle_pos
      else if pid == 0x14
      then seen (get_or e.o2_voltage 0 (whole 0))
      else if pid == 0x15
      then seen (get_or e.o2_voltage 1 (whole 0))
      else if pid == 0x22
      then seen e.fuel_pressure
      else if pid == 0x2F
      then seen e.fuel_level
      else if pid == 0x04
      then seen e.timing_advance
      else if pid == 0x0B
      then seen e.intake_pressure
      else if pid == 0x42
      then seen e.battery_voltage
      else if pid == 0x1F
      then e.run_time
      else if pid == 0x21
      then e.distance_with_mil
      else if pid == 0x31
      then e.distance_since_clear
      else whole 0
