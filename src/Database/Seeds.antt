-- ===== src/Database/Seeds.antt =====
-- src/database/seed_data.hpp and seed_data.cpp, SeedData.
use Prim.Native.String.{String}
use mcp2515_rpi.Base.{ℕ, List, [], ◌∷◌}
use mcp2515_rpi.Manufacturer.Profiles.{FloatOps}

pub record SeedVehicle : Type 0 where
  pub vin : String
  pub make : String
  pub model : String
  pub year : ℕ

pub record SeedDtc : Type 0 where
  pub code : String
  pub description : String
  pub severity : String

pub record SeedParameter (F : Type 0) : Type 0 where
  pub name : String
  pub value : F
  pub unit : String

abbrev vehicle : String → String → String → ℕ → SeedVehicle
vehicle vin make model year = record { vin = vin; make = make; model = model; year = year }

abbrev dtc : String → String → String → SeedDtc
dtc code description severity = record {
  code = code;
  description = description;
  severity = severity;
}

unfoldable pub get_vehicles : List SeedVehicle
get_vehicles =
    vehicle "1G1ZB5ST1GF100001" "Chevrolet" "Silverado" 2023
    ∷ vehicle "1FTFW1ET3BFA10001" "Ford" "F-150" 2023
    ∷ vehicle "JT2BF22K1Y0123456" "Toyota" "Camry" 2023
    ∷ vehicle "WBA3A5C5XDF123456" "BMW" "3 Series" 2023
    ∷ vehicle "WVWZZZ1KZ8W123456" "Volkswagen" "Golf" 2023
    ∷ vehicle "WDB2030461F123456" "Mercedes-Benz" "C-Class" 2023
    ∷ vehicle "JHMFA36216S012345" "Honda" "Civic" 2023
    ∷ vehicle "JN1AZ4EH6BM123456" "Nissan" "Altima" 2023
    ∷ []

unfoldable pub get_default_dtcs : List SeedDtc
get_default_dtcs =
    dtc "P0101" "Mass Air Flow Circuit Range/Performance" "major"
    ∷ dtc "P0102" "Mass Air Flow Circuit Low Input" "major"
    ∷ dtc "P0103" "Mass Air Flow Circuit High Input" "major"
    ∷ dtc "P0113" "Intake Air Temperature Circuit High Input" "minor"
    ∷ dtc "P0118" "Engine Coolant Temperature Circuit High Input" "major"
    ∷ dtc "P0121" "Throttle/Pedal Position Sensor Circuit" "major"
    ∷ dtc "P0171" "System Too Lean Bank 1" "moderate"
    ∷ dtc "P0172" "System Too Rich Bank 1" "moderate"
    ∷ dtc "P0174" "System Too Lean Bank 2" "moderate"
    ∷ dtc "P0300" "Random/Multiple Cylinder Misfire Detected" "major"
    ∷ dtc "P0301" "Cylinder 1 Misfire Detected" "major"
    ∷ dtc "P0302" "Cylinder 2 Misfire Detected" "major"
    ∷ dtc "P0303" "Cylinder 3 Misfire Detected" "major"
    ∷ dtc "P0304" "Cylinder 4 Misfire Detected" "major"
    ∷ dtc "P0420" "Catalyst System Efficiency Below Threshold" "moderate"
    ∷ dtc "P0430" "Catalyst System Efficiency Below Threshold Bank 2" "moderate"
    ∷ dtc "P0440" "Evaporative Emission System Malfunction" "minor"
    ∷ dtc "P0442" "Evaporative Emission System Leak Detected Small" "minor"
    ∷ dtc "P0455" "Evaporative Emission System Leak Detected Large" "minor"
    ∷ dtc "P0500" "Vehicle Speed Sensor Malfunction" "major"
    ∷ dtc "P0505" "Idle Control System Malfunction" "moderate"
    ∷ dtc "P0507" "Idle Control System RPM Higher Than Expected" "minor"
    ∷ dtc "P0601" "Internal Control Module Memory Checksum Error" "critical"
    ∷ dtc "P0606" "ECU/PCM Processor Fault" "critical"
    ∷ dtc "P0620" "Generator Control Circuit Malfunction" "moderate"
    ∷ dtc "P0700" "Transmission Control System Malfunction" "major"
    ∷ dtc "P1135" "Pedal Position Sensor Circuit Malfunction" "major"
    ∷ dtc "P2101" "Throttle Actuator Control Motor Circuit" "major"
    ∷ dtc "P2119" "Throttle Actuator Control Throttle Body Range" "major"
    ∷ dtc "P2122" "Throttle/Pedal Position Sensor Circuit Low" "major"
    ∷ dtc "P2135" "Throttle/Pedal Position Sensor Correlation" "major"
    ∷ []

module _ {F : Type 0} where
  abbrev parameter : String → F → String → SeedParameter F
  parameter name value unit = record { name = name; value = value; unit = unit }

  unfoldable pub get_default_parameters : FloatOps F → List (SeedParameter F)
  get_default_parameters ops =
      parameter "engine_rpm" (ops.literal 0 1) "rpm"
      ∷ parameter "vehicle_speed" (ops.literal 0 1) "km/h"
      ∷ parameter "coolant_temp" (ops.literal 95 1) "°C"
      ∷ parameter "intake_temp" (ops.literal 35 1) "°C"
      ∷ parameter "maf" (ops.literal 35 10) "g/s"
      ∷ parameter "throttle_pos" (ops.literal 0 1) "%"
      ∷ parameter "fuel_pressure" (ops.literal 350 1) "kPa"
      ∷ parameter "fuel_level" (ops.literal 50 1) "%"
      ∷ parameter "battery_voltage" (ops.literal 126 10) "V"
      ∷ parameter "timing_advance" (ops.literal 10 1) "°"
      ∷ parameter "intake_pressure" (ops.literal 101 1) "kPa"
      ∷ parameter "o2_voltage_b1s1" (ops.literal 45 100) "V"
      ∷ parameter "o2_voltage_b1s2" (ops.literal 45 100) "V"
      ∷ []

unfoldable pub get_seed_sql : List String
get_seed_sql =
    "INSERT OR IGNORE INTO parameters (name, value, unit) VALUES ('engine_rpm', 0, 'rpm');"
    ∷ "INSERT OR IGNORE INTO parameters (name, value, unit) VALUES ('vehicle_speed', 0, 'km/h');"
    ∷ "INSERT OR IGNORE INTO parameters (name, value, unit) VALUES ('coolant_temp', 95, '°C');"
    ∷ "INSERT OR IGNORE INTO parameters (name, value, unit) VALUES ('intake_temp', 35, '°C');"
    ∷ "INSERT OR IGNORE INTO parameters (name, value, unit) VALUES ('maf', 3.5, 'g/s');"
    ∷ "INSERT OR IGNORE INTO simulation_profiles (name, type, config) VALUES ('urban', 'urban', '{\"rpm_base\": 1500, \"speed_base\": 40}');"
    ∷ "INSERT OR IGNORE INTO simulation_profiles (name, type, config) VALUES ('highway', 'highway', '{\"rpm_base\": 2500, \"speed_base\": 110}');"
    ∷ "INSERT OR IGNORE INTO simulation_profiles (name, type, config) VALUES ('mixed', 'mixed', '{\"rpm_base\": 2000, \"speed_base\": 70}');"
    ∷ []
