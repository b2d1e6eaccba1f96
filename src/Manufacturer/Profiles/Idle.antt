-- ===== src/Manufacturer/Profiles/Idle.antt =====
-- src/simulation/vehicle_profile.cpp, the profiles of a sound engine, an unstable idle and an oxygen sensor. `garbage` gives the content of the fields that the source leaves
-- without a value, by their number.
use mcp2515_rpi.Base.{ℕ, Bool, true, false, [], ◌∷◌}
use mcp2515_rpi.Base.Texts.{text}
use mcp2515_rpi.Manufacturer.Profiles.{FloatOps, SensorOverride, VehicleProfile}

module _ {F : Type 0} where
  abbrev pub sensor_override : FloatOps F → F → F → F → F → Bool → F → SensorOverride F
  sensor_override ops low high noise drift stuck at = record {
    min_val = low;
    max_val = high;
    noise_amplitude = noise;
    drift_per_sec = drift;
    stuck_value = stuck;
    stuck_at = at;
  }

  abbrev pub o2_stuck : FloatOps F → (ℕ → F) → SensorOverride F
  o2_stuck ops garbage = record {
    min_val = ops.literal 44 100;
    max_val = ops.literal 46 100;
    noise_amplitude = garbage 16;
    drift_per_sec = garbage 17;
    stuck_value = true;
    stuck_at = ops.literal 45 100;
  }

  unfoldable pub gm_normal_idle : FloatOps F → (ℕ → F) → VehicleProfile F
  gm_normal_idle ops garbage = record {
    name = text "normal";
    description = "Ralentí normal, sensores dentro de especificación";
    rpm_idle_min = ops.literal 650 1;
    rpm_idle_max = ops.literal 750 1;
    rpm_drive_min = ops.literal 1500 1;
    rpm_drive_max = ops.literal 6000 1;
    unstable_idle = false;
    idle_fluctuation_hz = ops.literal 0 1;
    idle_fluctuation_amp = ops.literal 0 1;
    active_dtcs = [];
    dtc_descriptions = [];
    sensor_overrides = [];
    fuel_consumption_rate = ops.literal 8 10;
    oil_temp_base = ops.literal 90 1;
    oil_pressure_base = ops.literal 350 1;
    throttle_response_delay = ops.literal 1 10;
    max_speed = ops.literal 200 1;
    acceleration_rate = ops.literal 3 1;
  }

  unfoldable pub gm_custom : FloatOps F → (ℕ → F) → VehicleProfile F
  gm_custom ops garbage = record {
    name = text "custom";
    description = "Perfil personalizable vía API";
    rpm_idle_min = ops.literal 650 1;
    rpm_idle_max = ops.literal 750 1;
    rpm_drive_min = ops.literal 1500 1;
    rpm_drive_max = ops.literal 6000 1;
    unstable_idle = false;
    idle_fluctuation_hz = ops.literal 0 1;
    idle_fluctuation_amp = ops.literal 0 1;
    active_dtcs = [];
    dtc_descriptions = [];
    sensor_overrides = [];
    fuel_consumption_rate = ops.literal 8 10;
    oil_temp_base = ops.literal 90 1;
    oil_pressure_base = ops.literal 350 1;
    throttle_response_delay = ops.literal 1 10;
    max_speed = ops.literal 200 1;
    acceleration_rate = ops.literal 3 1;
  }

  unfoldable pub gm_unstable_idle : FloatOps F → (ℕ → F) → VehicleProfile F
  gm_unstable_idle ops garbage = record {
    name = text "unstable_idle";
    description = "Ralentí inestable: RPM fluctúa entre 500-1100, posible fallo de IAC o vacío";
    rpm_idle_min = ops.literal 500 1;
    rpm_idle_max = ops.literal 1100 1;
    rpm_drive_min = ops.literal 1200 1;
    rpm_drive_max = ops.literal 5000 1;
    unstable_idle = true;
    idle_fluctuation_hz = ops.literal 2 1;
    idle_fluctuation_amp = ops.literal 250 1;
    active_dtcs = 0x0505 ∷ 0x0507 ∷ 0x0500 ∷ [];
    dtc_descriptions =
        "Idle Control System Malfunction" ∷ "Idle Control System RPM Higher Than Expected"
        ∷ "Vehicle Speed Sensor Malfunction" ∷ [];
    sensor_overrides =
        (
          0x0C,
          sensor_override ops (ops.literal 500 1) (ops.literal 1100 1) (ops.literal 80 1)
              (ops.literal 0 1) false (ops.literal 0 1),
        )
        ∷ (
          0x0B,
          sensor_override ops (ops.literal 70 1) (ops.literal 120 1) (ops.literal 5 1)
              (ops.literal 0 1) false (ops.literal 0 1),
        )
        ∷ (
          0x11,
          sensor_override ops (ops.literal 0 1) (ops.literal 100 1) (ops.literal 3 1)
              (ops.literal 0 1) false (ops.literal 0 1),
        )
        ∷ [];
    fuel_consumption_rate = ops.literal 15 10;
    oil_temp_base = ops.literal 95 1;
    oil_pressure_base = ops.literal 280 1;
    throttle_response_delay = ops.literal 3 10;
    max_speed = ops.literal 170 1;
    acceleration_rate = ops.literal 2 1;
  }

  unfoldable pub gm_bad_o2_sensor : FloatOps F → (ℕ → F) → VehicleProfile F
  gm_bad_o2_sensor ops garbage = record {
    name = text "bad_o2";
    description = "Sensor de oxígeno defectuoso: voltaje fijo en 0.45V o lecturas erráticas";
    rpm_idle_min = ops.literal 700 1;
    rpm_idle_max = ops.literal 800 1;
    rpm_drive_min = ops.literal 1500 1;
    rpm_drive_max = ops.literal 5500 1;
    unstable_idle = false;
    idle_fluctuation_hz = ops.literal 5 10;
    idle_fluctuation_amp = ops.literal 30 1;
    active_dtcs = 0x0135 ∷ 0x0171 ∷ 0x0172 ∷ [];
    dtc_descriptions =
        "O2 Sensor Heater Circuit Bank 1 Sensor 1" ∷ "System Too Lean Bank 1"
        ∷ "System Too Rich Bank 1" ∷ [];
    sensor_overrides =
        (0x14, o2_stuck ops garbage)
        ∷ (0x15, o2_stuck ops garbage)
        ∷ (
          0x06,
          sensor_override ops (ops.literal 15 1) (ops.literal 25 1) (ops.literal 0 1)
              (ops.literal 0 1) false (ops.literal 0 1),
        )
        ∷ (
          0x07,
          sensor_override ops (ops.literal 10 1) (ops.literal 20 1) (ops.literal 0 1)
              (ops.literal 0 1) false (ops.literal 0 1),
        )
        ∷ [];
    fuel_consumption_rate = ops.literal 12 10;
    oil_temp_base = ops.literal 92 1;
    oil_pressure_base = ops.literal 330 1;
    throttle_response_delay = ops.literal 15 100;
    max_speed = ops.literal 190 1;
    acceleration_rate = ops.literal 25 10;
  }
