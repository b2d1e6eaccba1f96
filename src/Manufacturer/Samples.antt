-- ===== src/Manufacturer/Samples.antt =====
-- Concrete data for the tests: natural numbers in place of the floats, two profiles, a control unit and its inputs.
use mcp2515_rpi.Base.{
  ℕ, ◌+◌, ◌-◌, leb, ◌*◌, ◌/◌, true, false, none, some, List, [], ◌∷◌, ltb, replicate, u8, u16, u32,
}
use mcp2515_rpi.Session.{SessionManager}
use mcp2515_rpi.Session as session
use mcp2515_rpi.Manufacturer.{Ecu}
use mcp2515_rpi.Manufacturer.Profiles.{FloatOps, VehicleProfile, ProfileManager}
use mcp2515_rpi.Manufacturer.Pids.{default_pids}
use mcp2515_rpi.Manufacturer.Makes.{Inputs}

abbrev pub ops : FloatOps ℕ
ops = record {
  literal = λ n d. n / d;
  add = λ a b. a + b;
  sub = λ a b. a - b;
  neg = λ a. 0;
  sin = λ a. a;
  pow = λ a b. a;
  mul = λ a b. a * b;
  div = λ a b. a / b;
  less = ltb;
  at_most = leb;
  to_u8 = u8;
  to_u16 = u16;
  to_u32 = u32;
}

abbrev pub normal : VehicleProfile ℕ
normal = record {
  name = b'n' ∷ [];
  description = "";
  rpm_idle_min = 650;
  rpm_idle_max = 750;
  rpm_drive_min = 1500;
  rpm_drive_max = 6000;
  unstable_idle = false;
  idle_fluctuation_hz = 0;
  idle_fluctuation_amp = 0;
  active_dtcs = [];
  dtc_descriptions = [];
  sensor_overrides = [];
  fuel_consumption_rate = 0;
  oil_temp_base = 90;
  oil_pressure_base = 350;
  throttle_response_delay = 0;
  max_speed = 200;
  acceleration_rate = 3;
}

abbrev pub misfire : VehicleProfile ℕ
misfire = record normal {
  name = b'm' ∷ [];
  active_dtcs = 0x0300 ∷ 0x0301 ∷ [];
  dtc_descriptions = "Random/Multiple Cylinder Misfire" ∷ [];
}

abbrev pub profiles : ProfileManager ℕ
profiles = record {
  profiles = (b'n' ∷ [], normal) ∷ (b'm' ∷ [], misfire) ∷ [];
  current_profile = b'm' ∷ [];
  idle_phase = none;
}

abbrev pub manager : SessionManager
manager = record (session.init 0) {
  has_seed_generator = true;
  key_validator = some (λ seed key. true);
}

abbrev pub vin : List ℕ
vin =
    b'1' ∷ b'G' ∷ b'1' ∷ b'Z' ∷ b'Z' ∷ b'Z' ∷ b'1' ∷ b'Z' ∷ b'K' ∷ b'8' ∷ b'W' ∷ b'1' ∷ b'2' ∷ b'3'
    ∷ b'4' ∷ b'5' ∷ b'6' ∷ []

abbrev pub unit : Ecu ℕ
unit = record {
  rx_id = 0x7E8;
  tx_id = 0x7E0;
  functional_id = 0x7DF;
  session_manager = manager;
  engine_rpm = 800;
  vehicle_speed = 0;
  coolant_temp = 95;
  intake_temp = 35;
  maf = 3;
  throttle_pos = 0;
  o2_voltage = replicate 8 0;
  fuel_pressure = 350;
  fuel_level = 50;
  timing_advance = 10;
  intake_pressure = 101;
  battery_voltage = 12;
  run_time = 0;
  distance_with_mil = 0;
  distance_since_clear = 0;
  odometer_km = 0;
  trip_km = 0;
  profile_manager = profiles;
  vin = vin;
  calibration = record { cvn = 0; calibration_id = [] };
  ecu_serial = 0x12345678;
  dtcs =
      record {
        code = 0x0420;
        description = "Catalyst";
        is_pending = false;
        is_permanent = false;
        severity = "minor";
      }
      ∷ [];
  freeze_frames = [];
  pid_table = default_pids;
  sent = [];
}

abbrev pub io : Inputs ℕ
io = record { now = 7; generated = 1 ∷ 2 ∷ []; noise = 0 }
