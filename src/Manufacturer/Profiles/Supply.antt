-- ===== src/Manufacturer/Profiles/Supply.antt =====
-- src/simulation/vehicle_profile.cpp, the profiles of the battery, the fuel pressure and the emissions. `garbage` gives the content of the fields that the source leaves
-- without a value, by their number.
use mcp2515_rpi.Base.{ℕ, true, false, [], ◌∷◌}
use mcp2515_rpi.Base.Texts.{text}
use mcp2515_rpi.Manufacturer.Profiles.{FloatOps, VehicleProfile}
use mcp2515_rpi.Manufacturer.Profiles.Idle.{sensor_override}

module _ {F : Type 0} where
  unfoldable pub gm_low_battery : FloatOps F → (ℕ → F) → VehicleProfile F
  gm_low_battery ops garbage = record {
    name = text "low_battery";
    description =
        "Batería baja o alternador defectuoso: voltaje 10.5-11.5V, múltiples fallos eléctricos";
    rpm_idle_min = ops.literal 700 1;
    rpm_idle_max = ops.literal 800 1;
    rpm_drive_min = ops.literal 1500 1;
    rpm_drive_max = ops.literal 5000 1;
    unstable_idle = false;
    idle_fluctuation_hz = ops.literal 3 10;
    idle_fluctuation_amp = ops.literal 50 1;
    active_dtcs = 0x0620 ∷ 0x0560 ∷ 0x0562 ∷ 0x0563 ∷ [];
    dtc_descriptions =
        "Generator Control Circuit Malfunction" ∷ "System Voltage Low" ∷ "System Voltage Unstable"
        ∷ "System Voltage High" ∷ [];
    sensor_overrides =
        (
          0x42,
          sensor_override ops (ops.literal 102 10) (ops.literal 118 10) (ops.literal 5 10)
              (ops.neg (ops.literal 1 100)) false (ops.literal 0 1),
        )
        ∷ [];
    fuel_consumption_rate = ops.literal 1 1;
    oil_temp_base = ops.literal 90 1;
    oil_pressure_base = ops.literal 320 1;
    throttle_response_delay = garbage 13;
    max_speed = garbage 14;
    acceleration_rate = garbage 15;
  }

  unfoldable pub gm_fuel_pressure_fault : FloatOps F → (ℕ → F) → VehicleProfile F
  gm_fuel_pressure_fault ops garbage = record {
    name = text "fuel_pressure";
    description = "Presión de combustible incorrecta: bomba de combustible o regulador defectuoso";
    rpm_idle_min = ops.literal 600 1;
    rpm_idle_max = ops.literal 750 1;
    rpm_drive_min = ops.literal 1200 1;
    rpm_drive_max = ops.literal 4500 1;
    unstable_idle = true;
    idle_fluctuation_hz = ops.literal 15 10;
    idle_fluctuation_amp = ops.literal 120 1;
    active_dtcs = 0x0087 ∷ 0x0088 ∷ 0x0089 ∷ 0x0171 ∷ [];
    dtc_descriptions =
        "Fuel Rail Pressure Too Low" ∷ "Fuel Rail Pressure Too High" ∷ "Fuel Pressure Regulator"
        ∷ "System Too Lean Bank 1" ∷ [];
    sensor_overrides =
        (
          0x22,
          sensor_override ops (ops.literal 50 1) (ops.literal 150 1) (ops.literal 20 1)
              (ops.literal 0 1) false (ops.literal 0 1),
        )
        ∷ (
          0x06,
          sensor_override ops (ops.literal 20 1) (ops.literal 35 1) (ops.literal 0 1)
              (ops.literal 0 1) false (ops.literal 0 1),
        )
        ∷ (
          0x0A,
          sensor_override ops (ops.literal 10 1) (ops.literal 40 1) (ops.literal 5 1)
              (ops.literal 0 1) false (ops.literal 0 1),
        )
        ∷ [];
    fuel_consumption_rate = ops.literal 18 10;
    oil_temp_base = garbage 11;
    oil_pressure_base = ops.literal 300 1;
    throttle_response_delay = garbage 13;
    max_speed = garbage 14;
    acceleration_rate = garbage 15;
  }

  unfoldable pub gm_emission_fail : FloatOps F → (ℕ → F) → VehicleProfile F
  gm_emission_fail ops garbage = record {
    name = text "emission_fail";
    description = "Fallo de emisiones: convertidor catalítico ineficiente, sistema EVAP";
    rpm_idle_min = ops.literal 700 1;
    rpm_idle_max = ops.literal 800 1;
    rpm_drive_min = ops.literal 1500 1;
    rpm_drive_max = ops.literal 5500 1;
    unstable_idle = false;
    idle_fluctuation_hz = ops.literal 0 1;
    idle_fluctuation_amp = ops.literal 0 1;
    active_dtcs = 0x0420 ∷ 0x0430 ∷ 0x0442 ∷ 0x0455 ∷ [];
    dtc_descriptions =
        "Catalyst System Efficiency Below Threshold Bank 1"
        ∷ "Catalyst System Efficiency Below Threshold Bank 2" ∷ "EVAP System Leak Detected Small"
        ∷ "EVAP System Leak Detected Large" ∷ [];
    sensor_overrides =
        (
          0x15,
          sensor_override ops (ops.literal 1 10) (ops.literal 8 10) (ops.literal 1 10)
              (ops.literal 0 1) false (ops.literal 0 1),
        )
        ∷ (
          0x17,
          sensor_override ops (ops.literal 1 10) (ops.literal 8 10) (ops.literal 1 10)
              (ops.literal 0 1) false (ops.literal 0 1),
        )
        ∷ [];
    fuel_consumption_rate = ops.literal 11 10;
    oil_temp_base = ops.literal 95 1;
    oil_pressure_base = ops.literal 340 1;
    throttle_response_delay = garbage 13;
    max_speed = garbage 14;
    acceleration_rate = garbage 15;
  }
