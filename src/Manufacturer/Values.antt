-- ===== src/Manufacturer/Values.antt =====
-- src/manufacturers/base.cpp, BaseManufacturer: the constructor, the simulated values and the odometer.
use mcp2515_rpi.Base.{
  ℕ, Bool, true, false, List, [], ◌∷◌, set, get_or, replicate, ltb, ◌==◌, if◌then◌else◌,
}
use mcp2515_rpi.Base.Texts.{text}
use mcp2515_rpi.Session
use mcp2515_rpi.Router.{ManufacturerConfig}
use mcp2515_rpi.Manufacturer.Profiles.{FloatOps, get_available_profiles}
use mcp2515_rpi.Manufacturer.Profiles.Predefined.{init as profiles_init}
use mcp2515_rpi.Manufacturer.{Ecu, FreezeFrame, CalibrationInfo, PidEntry, apply_profile_dtcs}
use mcp2515_rpi.Manufacturer.Pids.{default_pids}

unfoldable pub has_pid : List PidEntry → ℕ → Bool
has_pid [] pid = false
has_pid (p ∷ table) pid = let rest = has_pid table pid in if p.pid == pid then true else rest

module _ {F : Type 0} where
  unfoldable pub set_engine_rpm : Ecu F → F → Ecu F
  set_engine_rpm e value = record e { engine_rpm = value }

  unfoldable pub set_vehicle_speed : Ecu F → F → Ecu F
  set_vehicle_speed e value = record e { vehicle_speed = value }

  unfoldable pub set_coolant_temp : Ecu F → F → Ecu F
  set_coolant_temp e value = record e { coolant_temp = value }

  unfoldable pub set_intake_temp : Ecu F → F → Ecu F
  set_intake_temp e value = record e { intake_temp = value }

  unfoldable pub set_maf : Ecu F → F → Ecu F
  set_maf e value = record e { maf = value }

  unfoldable pub set_throttle_position : Ecu F → F → Ecu F
  set_throttle_position e value = record e { throttle_pos = value }

  unfoldable pub set_fuel_pressure : Ecu F → F → Ecu F
  set_fuel_pressure e value = record e { fuel_pressure = value }

  unfoldable pub set_fuel_level : Ecu F → F → Ecu F
  set_fuel_level e value = record e { fuel_level = value }

  unfoldable pub set_timing_advance : Ecu F → F → Ecu F
  set_timing_advance e value = record e { timing_advance = value }

  unfoldable pub set_intake_pressure : Ecu F → F → Ecu F
  set_intake_pressure e value = record e { intake_pressure = value }

  unfoldable pub set_battery_voltage : Ecu F → F → Ecu F
  set_battery_voltage e value = record e { battery_voltage = value }

  -- A bank that there is not: the read gives 0, the write changes nothing.
  unfoldable pub get_o2_sensor_voltage : FloatOps F → Ecu F → ℕ → F
  get_o2_sensor_voltage ops e bank =
      if ltb bank 8 then get_or e.o2_voltage bank (ops.literal 0 1) else ops.literal 0 1

  unfoldable pub set_o2_sensor_voltage : Ecu F → ℕ → F → Ecu F
  set_o2_sensor_voltage e bank voltage =
      if ltb bank 8 then record e { o2_voltage = set e.o2_voltage bank voltage } else e

  unfoldable pub set_vin : Ecu F → List ℕ → Ecu F
  set_vin e vin = record e { vin = vin }

  unfoldable pub set_odometer : FloatOps F → Ecu F → F → Ecu F
  set_odometer ops e km = record e {
    odometer_km = if ops.less (ops.literal 0 1) km then km else ops.literal 0 1;
  }

  unfoldable pub increment_odometer : FloatOps F → Ecu F → F → Ecu F
  increment_odometer ops e km =
      if ops.less (ops.literal 0 1) km
      then record e { odometer_km = ops.add e.odometer_km km; trip_km = ops.add e.trip_km km }
      else e

  unfoldable pub reset_trip : FloatOps F → Ecu F → Ecu F
  reset_trip ops e = record e { trip_km = ops.literal 0 1 }

  -- `config_ = cfg`, of which the unit reads the identifiers.
  unfoldable pub on_manufacturer_selected : Ecu F → ManufacturerConfig → Ecu F
  on_manufacturer_selected e cfg = record e {
    rx_id = cfg.rx_id;
    tx_id = cfg.tx_id;
    functional_id = cfg.functional_id;
  }

  unfoldable pub get_freeze_frames : Ecu F → List (FreezeFrame F)
  get_freeze_frames e = e.freeze_frames

  unfoldable pub get_readiness_status : Ecu F → List ℕ
  get_readiness_status e = 0x00 ∷ 0x07 ∷ 0xFF ∷ 0x00 ∷ 0x00 ∷ []

  unfoldable pub is_pid_supported : Ecu F → ℕ → Bool
  unfolding has_pid
  is_pid_supported e pid = has_pid e.pid_table pid

  unfoldable pub decode_pid_value : FloatOps F → ℕ → List ℕ → F
  decode_pid_value ops pid bytes = ops.literal 0 1

  unfoldable pub profile_names : Ecu F → List (List ℕ)
  unfolding get_available_profiles
  profile_names e = get_available_profiles e.profile_manager

  -- The constructor. The identifiers, the calibration and the sessions are those of their own classes.
  unfoldable pub init : FloatOps F → (ℕ → F) → ℕ → ℕ → ℕ → CalibrationInfo → ℕ → Ecu F
  unfolding apply_profile_dtcs profiles_init Session.init
  init ops garbage rx tx functional calibration now =
      (apply_profile_dtcs record {
        rx_id = rx;
        tx_id = tx;
        functional_id = functional;
        session_manager = Session.init now;
        engine_rpm = ops.literal 0 1;
        vehicle_speed = ops.literal 0 1;
        coolant_temp = ops.literal 95 1;
        intake_temp = ops.literal 35 1;
        maf = ops.literal 35 10;
        throttle_pos = ops.literal 0 1;
        o2_voltage = replicate 8 (ops.literal 45 100);
        fuel_pressure = ops.literal 350 1;
        fuel_level = ops.literal 50 1;
        timing_advance = ops.literal 10 1;
        intake_pressure = ops.literal 101 1;
        battery_voltage = ops.literal 126 10;
        run_time = ops.literal 0 1;
        distance_with_mil = ops.literal 0 1;
        distance_since_clear = ops.literal 0 1;
        odometer_km = ops.literal 0 1;
        trip_km = ops.literal 0 1;
        profile_manager = profiles_init ops garbage;
        vin = text "XXXXXXXXXXXXXXXXX";
        calibration = calibration;
        ecu_serial = 0x12345678;
        dtcs = [];
        freeze_frames = [];
        pid_table = default_pids;
        sent = [];
      }).0
