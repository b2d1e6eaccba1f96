-- ===== src/Diagnostics/Runs.antt =====
-- Concrete runs of the diagnostics, and the theorems at concrete inputs.
use mcp2515_rpi.Base.{
  ℕ, ◌/◌, ◌%◌, ◌≡◌, ◌≢◌, ◌↔◌, refl, true, false, some, List, [], ◌∷◌, arith, length,
}
use mcp2515_rpi.Diagnostics.Dtc.{
  Severity, DtcManager, get_dtc, new_dtc, clear_all, set_pending, get_active_dtcs, get_all_dtcs,
  get_dtcs_by_severity, has_active_dtcs, has_pending_dtcs, count, select, modify,
}
use mcp2515_rpi.Diagnostics.Dtc.Codes.{encode_code, decode_code, IsDecimal, encode-decode_code_iff}
use mcp2515_rpi.Diagnostics.Dtc.Store.{Distinct}
use mcp2515_rpi.Diagnostics.Readiness.{reset, set_supported, get_all_monitors, get_obd_status}
use mcp2515_rpi.Diagnostics.FreezeFrames.{FreezeFrame, clear_all as clear_frames, get_all}
use mcp2515_rpi.Diagnostics.Vin.{
  Text, validate_checksum, calculate_checksum, generate_vin, decode, get_make_from_wmi,
}
use mcp2515_rpi.Diagnostics.Vin.Checks.{generated_refused}
use mcp2515_rpi.Diagnostics.Calibration.{init, calculate_cvn, set_calibration, CalibrationData}
use mcp2515_rpi.Diagnostics.Calibration.Cvn.{cvn_detects}

p0301_IsDecimal : IsDecimal 0x0301
p0301_IsDecimal = record {
  top = omega arith;
  second = omega arith;
  third = omega arith;
  fourth = omega arith;
}

encode-decode_code_iff_example :
    (encode_code (decode_code 0x0301) ≡ some 0x0301)
    ↔ (◌≡◌ {A = ℕ} (0x0301 / 256 % 16) 0) × (◌≡◌ {A = ℕ} (0x0301 / 16 % 16) 0)
encode-decode_code_iff_example = encode-decode_code_iff 0x0301 (omega arith) p0301_IsDecimal

abbrev misfire : DtcManager
misfire =
    new_dtc 7 0x0301 "Cylinder 1 Misfire" Severity.major false
    ∷ new_dtc 5 0x0420 "Catalyst" Severity.minor true
    ∷ []

misfire-Distinct : Distinct misfire
unfolding Distinct get_dtc
misfire-Distinct = (refl, (refl, tt))

two_kept :
    (count misfire ≡ 2)
    × (length (get_active_dtcs misfire) ≡ 1)
    × (length (get_all_dtcs misfire) ≡ 2)
unfolding count get_active_dtcs select get_all_dtcs
two_kept = (refl, refl, refl)

major_found :
    (length (get_dtcs_by_severity misfire Severity.major) ≡ 1)
    × (has_active_dtcs misfire ≡ true)
    × (has_pending_dtcs misfire ≡ true)
    × (has_pending_dtcs (set_pending misfire 0x0420 false) ≡ false)
    × (clear_all misfire ≡ [])
unfolding get_dtcs_by_severity has_active_dtcs has_pending_dtcs set_pending clear_all select modify
major_found = (refl, refl, refl, refl, refl)

all_ready : get_obd_status reset ≡ 0xFF ∷ 0x07 ∷ 0xFF ∷ 0x00 ∷ 0x00 ∷ []
unfolding get_obd_status reset
all_ready = refl

seven_supported : length (get_all_monitors (set_supported reset 3 false)) ≡ 7
unfolding get_all_monitors set_supported reset
seven_supported = refl

abbrev captured : List (FreezeFrame ℕ)
captured =
    record { dtc_code = 0x0301; pid_values = 3000; timestamp = 1 }
    ∷ record { dtc_code = 0x0420; pid_values = 800; timestamp = 2 }
    ∷ []

nothing_left : (clear_frames captured ≡ []) × (get_all captured ≡ captured)
unfolding clear_frames get_all
nothing_left = (refl, refl)

-- The standard's sample number, with check digit 3; the code's weights give 9.
abbrev honda : Text
honda =
    b'1' ∷ b'H' ∷ b'G' ∷ b'C' ∷ b'M' ∷ b'8' ∷ b'2' ∷ b'6' ∷ b'3' ∷ b'3' ∷ b'A' ∷ b'0' ∷ b'0' ∷ b'4'
    ∷ b'3' ∷ b'5' ∷ b'2' ∷ []

honda_digit : calculate_checksum honda ≡ some b'9'
unfolding calculate_checksum
honda_digit = refl

honda_refused : validate_checksum honda ≡ some false
unfolding validate_checksum
honda_refused = refl

honda_known : get_make_from_wmi (b'J' ∷ b'H' ∷ b'M' ∷ []) ≡ "Honda"
unfolding get_make_from_wmi
honda_known = refl

abbrev ford : Text
ford = b'F' ∷ b'o' ∷ b'r' ∷ b'd' ∷ []

generated_refused_example :
    (validate_checksum (generate_vin ford [] 2023) ≡ some false)
    × ((decode 0 (generate_vin ford [] 2023)).year ≡ 2008)
generated_refused_example = generated_refused ford [] 2023 0

-- The check value of the usual cyclic redundancy code.
crc_check :
    calculate_cvn (b'1' ∷ b'2' ∷ b'3' ∷ b'4' ∷ b'5' ∷ b'6' ∷ b'7' ∷ b'8' ∷ b'9' ∷ []) ≡ 0xCBF43926
unfolding calculate_cvn
crc_check = refl

first_serial : (cal : CalibrationData) → (set_calibration cal init).ecu_serial ≡ 0x87654321
unfolding set_calibration init
first_serial cal = refl

cvn_detects_example : calculate_cvn (1 ∷ 2 ∷ 3 ∷ []) ≢ calculate_cvn (1 ∷ 7 ∷ 3 ∷ [])
cvn_detects_example =
    cvn_detects (1 ∷ []) (3 ∷ []) 2 7 (omega arith, tt) (omega arith, tt) (omega arith)
      (omega arith) (λ e. omega (arith, e))
