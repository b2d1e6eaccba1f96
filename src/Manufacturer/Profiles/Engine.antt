-- ===== src/Manufacturer/Profiles/Engine.antt =====
-- src/simulation/vehicle_profile.cpp, the profiles of the air flow, the coolant and the misfires. `garbage` gives the content of the fields that the source leaves
-- without a value, by their number.
use mcp2515_rpi.Base.{ℕ, true, false, [], ◌∷◌}
use mcp2515_rpi.Base.Texts.{text}
use mcp2515_rpi.Manufacturer.Profiles.{FloatOps, VehicleProfile}
use mcp2515_rpi.Manufacturer.Profiles.Idle.{sensor_override}

module _ {F : Type 0} where
  unfoldable pub gm_maf_fault : FloatOps F → (ℕ → F) → VehicleProfile F
  gm_maf_fault ops garbage = record {
    name = text "maf_fault";
    description = "Sensor MAF defectuoso: lecturas incorrectas de flujo de aire";
    rpm_idle_min = ops.literal 600 1;
    rpm_idle_max = ops.literal 900 1;
    rpm_drive_min = ops.literal 1300 1;
    rpm_drive_max = ops.literal 5000 1;
    unstable_idle = true;
    idle_fluctuation_hz = ops.literal 1 1;
    idle_fluctuation_amp = ops.literal 150 1;
    active_dtcs = 0x0101 ∷ 0x0102 ∷ 0x0103 ∷ 0x0171 ∷ [];
    dtc_descriptions =
        "MAF Circuit Range/Performance" ∷ "MAF Circuit Low Input" ∷ "MAF Circuit High Input"
        ∷ "System Too Lean Bank 1" ∷ [];
    sensor_overrides =
        (
          0x10,
          sensor_override ops (ops.literal 5 10) (ops.literal 15 10) (ops.literal 3 10)
              (ops.literal 0 1) false (ops.literal 0 1),
        )
        ∷ (
          0x0C,
          sensor_override ops (ops.literal 600 1) (ops.literal 900 1) (ops.literal 50 1)
              (ops.literal 0 1) false (ops.literal 0 1),
        )
        ∷ (
          0x06,
          sensor_override ops (ops.literal 20 1) (ops.literal 30 1) (ops.literal 0 1)
              (ops.literal 0 1) false (ops.literal 0 1),
        )
        ∷ [];
    fuel_consumption_rate = ops.literal 13 10;
    oil_temp_base = ops.literal 93 1;
    oil_pressure_base = ops.literal 310 1;
    throttle_response_delay = garbage 13;
    max_speed = garbage 14;
    acceleration_rate = garbage 15;
  }

  unfoldable pub gm_coolant_fault : FloatOps F → (ℕ → F) → VehicleProfile F
  gm_coolant_fault ops garbage = record {
    name = text "coolant_fault";
    description =
        "Sensor de temperatura del refrigerante defectuoso: lectura fija en -40°C o valores erráticos";
    rpm_idle_min = ops.literal 750 1;
    rpm_idle_max = ops.literal 850 1;
    rpm_drive_min = ops.literal 1500 1;
    rpm_drive_max = ops.literal 5000 1;
    unstable_idle = false;
    idle_fluctuation_hz = garbage 5;
    idle_fluctuation_amp = garbage 6;
    active_dtcs = 0x0118 ∷ 0x0125 ∷ 0x0126 ∷ [];
    dtc_descriptions =
        "ECT Sensor Circuit High Input" ∷ "ECT Sensor Circuit Low Input"
        ∷ "ECT Sensor Circuit Range/Performance" ∷ [];
    sensor_overrides =
        (
          0x05,
          sensor_override ops (ops.neg (ops.literal 40 1)) (ops.neg (ops.literal 40 1))
              (ops.literal 0 1) (ops.literal 0 1) true (ops.neg (ops.literal 40 1)),
        )
        ∷ [];
    fuel_consumption_rate = ops.literal 2 1;
    oil_temp_base = ops.literal 85 1;
    oil_pressure_base = ops.literal 340 1;
    throttle_response_delay = garbage 13;
    max_speed = garbage 14;
    acceleration_rate = garbage 15;
  }

  unfoldable pub gm_misfire : FloatOps F → (ℕ → F) → VehicleProfile F
  gm_misfire ops garbage = record {
    name = text "misfire";
    description = "Fallo de encendido en cilindros múltiples, motor vibra";
    rpm_idle_min = ops.literal 400 1;
    rpm_idle_max = ops.literal 700 1;
    rpm_drive_min = ops.literal 1000 1;
    rpm_drive_max = ops.literal 4000 1;
    unstable_idle = true;
    idle_fluctuation_hz = ops.literal 3 1;
    idle_fluctuation_amp = ops.literal 300 1;
    active_dtcs = 0x0300 ∷ 0x0301 ∷ 0x0303 ∷ 0x0304 ∷ [];
    dtc_descriptions =
        "Random/Multiple Cylinder Misfire" ∷ "Cylinder 1 Misfire" ∷ "Cylinder 3 Misfire"
        ∷ "Cylinder 4 Misfire" ∷ [];
    sensor_overrides =
        (
          0x0C,
          sensor_override ops (ops.literal 400 1) (ops.literal 700 1) (ops.literal 120 1)
              (ops.literal 0 1) false (ops.literal 0 1),
        )
        ∷ (
          0x04,
          sensor_override ops (ops.literal 60 1) (ops.literal 90 1) (ops.literal 5 1)
              (ops.literal 0 1) false (ops.literal 0 1),
        )
        ∷ (
          0x5C,
          sensor_override ops (ops.literal 100 1) (ops.literal 120 1) (ops.literal 0 1)
              (ops.literal 0 1) false (ops.literal 0 1),
        )
        ∷ [];
    fuel_consumption_rate = ops.literal 25 10;
    oil_temp_base = ops.literal 98 1;
    oil_pressure_base = ops.literal 260 1;
    throttle_response_delay = garbage 13;
    max_speed = ops.literal 120 1;
    acceleration_rate = ops.literal 1 1;
  }
