-- ===== src/Simulation/Sensors.antt =====
-- src/simulation/sensor_simulator.hpp and sensor_simulator.cpp, SensorSimulator. The draws of the normal
-- distribution of mean 0 and deviation 1 are arguments, in the order in which the source takes them; the order of the
-- two sides of a sum, which C++ leaves open, is from left to right.
use mcp2515_rpi.Base.{ℕ, if◌then◌else◌}
use mcp2515_rpi.Manufacturer.Profiles.{FloatOps, clamp}
use mcp2515_rpi.Simulation.Environment.{max_float, min_float}

pub record SensorSimulator (F : Type 0) : Type 0 where
  pub engine_rpm : F
  pub vehicle_speed : F
  pub coolant_temp : F
  pub intake_temp : F
  pub maf : F
  pub throttle_pos : F
  pub fuel_level : F
  pub battery_voltage : F
  pub timing_advance : F
  pub intake_pressure : F
  pub fuel_pressure : F
  pub noise_level : F

module _ {F : Type 0} where
  unfoldable pub init : FloatOps F → SensorSimulator F
  init ops = record {
    engine_rpm = ops.literal 0 1;
    vehicle_speed = ops.literal 0 1;
    coolant_temp = ops.literal 95 1;
    intake_temp = ops.literal 35 1;
    maf = ops.literal 35 10;
    throttle_pos = ops.literal 0 1;
    fuel_level = ops.literal 50 1;
    battery_voltage = ops.literal 126 10;
    timing_advance = ops.literal 10 1;
    intake_pressure = ops.literal 1013 10;
    fuel_pressure = ops.literal 350 1;
    noise_level = ops.literal 5 1000;
  }

  unfoldable pub set_engine_rpm : FloatOps F → SensorSimulator F → F → SensorSimulator F
  set_engine_rpm ops s value = record s { engine_rpm = max_float ops (ops.literal 0 1) value }

  unfoldable pub set_vehicle_speed : FloatOps F → SensorSimulator F → F → SensorSimulator F
  set_vehicle_speed ops s value = record s { vehicle_speed = max_float ops (ops.literal 0 1) value }

  unfoldable pub set_coolant_temp : FloatOps F → SensorSimulator F → F → SensorSimulator F
  set_coolant_temp ops s value = record s {
    coolant_temp = clamp ops value (ops.neg (ops.literal 40 1)) (ops.literal 215 1);
  }

  unfoldable pub set_intake_temp : FloatOps F → SensorSimulator F → F → SensorSimulator F
  set_intake_temp ops s value = record s {
    intake_temp = clamp ops value (ops.neg (ops.literal 40 1)) (ops.literal 215 1);
  }

  unfoldable pub set_maf : FloatOps F → SensorSimulator F → F → SensorSimulator F
  set_maf ops s value = record s { maf = max_float ops (ops.literal 0 1) value }

  unfoldable pub set_throttle_position : FloatOps F → SensorSimulator F → F → SensorSimulator F
  set_throttle_position ops s value = record s {
    throttle_pos = clamp ops value (ops.literal 0 1) (ops.literal 100 1);
  }

  unfoldable pub set_fuel_level : FloatOps F → SensorSimulator F → F → SensorSimulator F
  set_fuel_level ops s value = record s {
    fuel_level = clamp ops value (ops.literal 0 1) (ops.literal 100 1);
  }

  unfoldable pub set_battery_voltage : FloatOps F → SensorSimulator F → F → SensorSimulator F
  set_battery_voltage ops s value = record s {
    battery_voltage = max_float ops (ops.literal 0 1) value;
  }

  unfoldable pub set_timing_advance : FloatOps F → SensorSimulator F → F → SensorSimulator F
  set_timing_advance ops s value = record s { timing_advance = value }

  unfoldable pub set_intake_pressure : FloatOps F → SensorSimulator F → F → SensorSimulator F
  set_intake_pressure ops s value = record s {
    intake_pressure = max_float ops (ops.literal 0 1) value;
  }

  unfoldable pub set_fuel_pressure : FloatOps F → SensorSimulator F → F → SensorSimulator F
  set_fuel_pressure ops s value = record s { fuel_pressure = max_float ops (ops.literal 0 1) value }

  unfoldable pub set_noise_level : FloatOps F → SensorSimulator F → F → SensorSimulator F
  set_noise_level ops s level = record s { noise_level = max_float ops (ops.literal 0 1) level }

  abbrev noise : FloatOps F → SensorSimulator F → F → F → F
  noise ops s amplitude draw = ops.mul (ops.mul draw s.noise_level) amplitude

  -- `draws n` is the n-th draw of the call.
  unfoldable pub add_noise : FloatOps F → SensorSimulator F → F → (ℕ → F) → SensorSimulator F
  add_noise ops s amplitude draws = record s {
    engine_rpm =
        ops.add s.engine_rpm (ops.mul (noise ops s amplitude (draws 0)) (ops.literal 20 1));
    vehicle_speed = ops.add s.vehicle_speed (noise ops s amplitude (draws 1));
    coolant_temp = ops.add s.coolant_temp (noise ops s amplitude (draws 2));
    battery_voltage =
        ops.add s.battery_voltage (ops.mul (noise ops s amplitude (draws 3)) (ops.literal 1 10));
  }

  -- The sensors that follow a running engine; `part` is rpm / 6000.
  abbrev pub derived : FloatOps F → SensorSimulator F → F → F → (ℕ → F) → SensorSimulator F
  derived ops s rpm speed draws =
      let part = ops.div rpm (ops.literal 6000 1) in
      record s {
        coolant_temp = max_float ops (ops.literal 85 1) (
            ops.sub (ops.add (ops.literal 90 1) (ops.mul part (ops.literal 10 1)))
              (ops.mul (draws 0) (ops.literal 3 1)));
        intake_temp = max_float ops (ops.literal 25 1) (
            ops.sub (ops.add (ops.literal 30 1) (ops.mul part (ops.literal 15 1)))
              (ops.mul (draws 1) (ops.literal 5 1)));
        maf =
            ops.add
              (ops.mul (ops.div rpm (ops.literal 1000 1)) (
                if ops.less (ops.literal 0 1) speed
                then ops.add (ops.literal 1 1) (ops.div speed (ops.literal 200 1))
                else ops.literal 5 10))
              (ops.mul (draws 2) (ops.literal 2 10));
        throttle_pos = min_float ops (ops.literal 100 1) (
            ops.add s.throttle_pos (
              if ops.less (ops.literal 2000 1) rpm
              then ops.literal 5 10
              else ops.neg (ops.literal 3 10)));
        intake_pressure =
            ops.add (ops.add (ops.literal 1013 10) (ops.mul part (ops.literal 30 1))) (draws 3);
        fuel_pressure = ops.add (ops.literal 350 1) (ops.mul (draws 4) (ops.literal 10 1));
        timing_advance =
            ops.sub (ops.add (ops.literal 10 1) (ops.mul part (ops.literal 20 1))) (draws 5);
      }

  -- `draws` are those of the derived sensors, `voltage` that of the battery, `noises` those of addNoise.
  unfoldable pub update_driving :
      FloatOps F → SensorSimulator F → F → F → (ℕ → F) → F → (ℕ → F) → SensorSimulator F
  unfolding add_noise
  update_driving ops s rpm speed draws voltage noises =
      let running = ops.less (ops.literal 0 1) rpm in
      let moved = record s { engine_rpm = rpm; vehicle_speed = speed } in
      let followed = if running then derived ops moved rpm speed draws else moved in
      add_noise ops
        (record followed {
          battery_voltage =
              ops.add
                (ops.sub (ops.literal 126 10)
                  (if running then ops.literal 5 10 else ops.literal 0 1))
                (ops.mul voltage (ops.literal 2 10));
        })
        (ops.literal 1 100) noises
