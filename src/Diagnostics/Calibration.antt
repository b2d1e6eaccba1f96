-- ===== src/Diagnostics/Calibration.antt =====
-- src/diagnostics/calibration.hpp and calibration.cpp, CalibrationManager. The random
-- `generateCalibrationID` is not modelled.
pub mod Cvn
use Prim.Native.String.{String}
use mcp2515_rpi.Base.{
  ℕ, zero, suc, ◌+◌, ◌-◌, ◌/◌, ◌%◌, ◌<◌, ◌≤◌, ◌≡◌, ◌≢◌, ap, ◌∙◌, sym, refl, Bool, true, false, List,
  [], ◌∷◌, ◌++◌, arith, ltb, ◌==◌, ◌>>◌, if◌then◌else◌, bit_and, bit_xor, IsByte, IsBytes,
  Bool-cases, inl, inr,
}
use mcp2515_rpi.Base.Bits.{bit_xor_cancel, bit_xor-lt, bit_xor_comm, bit_xor_div, bit_and_low}

pub record CalibrationData : Type 0 where
  pub cvn : ℕ
  pub calibration_id : String
  pub sw_version : String
  pub hw_version : String
  pub part_number : String
  pub supplier : String
  pub ecu_serial : ℕ

unfoldable pub init : CalibrationData
init = record {
  cvn = 0x12345678;
  calibration_id = "MULTI_ECU_V1.0";
  sw_version = "1.0.0";
  hw_version = "Rev C";
  part_number = "A0000001";
  supplier = "OpenCode Emulator";
  ecu_serial = 0x87654321;
}

-- One turn of the inner loop.
pub crc_bit : ℕ → ℕ
crc_bit crc = if bit_and crc 1 == 0 then crc >> 1 else bit_xor (crc >> 1) 0xEDB88320

pub crc_bits : ℕ → ℕ → ℕ
unfolding crc_bit
crc_bits zero crc = crc
crc_bits (suc n) crc = crc_bits n (crc_bit crc)

pub crc_loop : List ℕ → ℕ → ℕ
unfolding crc_bits
crc_loop [] crc = crc
crc_loop (b ∷ bs) crc = crc_loop bs (crc_bits 8 (bit_xor crc b))

unfoldable pub calculate_cvn : List ℕ → ℕ
unfolding crc_loop
calculate_cvn bytes = 0xFFFFFFFF - crc_loop bytes 0xFFFFFFFF

unfoldable pub set_calibration : CalibrationData → CalibrationData → CalibrationData
set_calibration old cal = cal
