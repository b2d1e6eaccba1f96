-- ===== src/Simulation/Environment.antt =====
-- src/simulation/environment.hpp and environment.cpp, EnvironmentSimulator. Random draws and the clock, in
-- nanoseconds, are arguments.
use mcp2515_rpi.Base.{ℕ, ◌-◌, ◌/◌, Bool, true, false, leb, if◌then◌else◌}
use mcp2515_rpi.Manufacturer.Profiles.{FloatOps, clamp}

pub record EnvironmentSimulator (F : Type 0) : Type 0 where
  pub ambient_temp : F
  pub barometric_pressure : F
  pub altitude : F
  pub humidity : F
  pub dynamic_conditions : Bool
  pub last_update : ℕ

module _ {F : Type 0} where
  -- `std::max` and `std::min`.
  abbrev pub max_float : FloatOps F → F → F → F
  max_float ops a b = if ops.less a b then b else a

  abbrev pub min_float : FloatOps F → F → F → F
  min_float ops a b = if ops.less b a then b else a

  unfoldable pub init : FloatOps F → ℕ → EnvironmentSimulator F
  init ops now = record {
    ambient_temp = ops.literal 25 1;
    barometric_pressure = ops.literal 101325 1000;
    altitude = ops.literal 0 1;
    humidity = ops.literal 50 1;
    dynamic_conditions = false;
    last_update = now;
  }

  unfoldable pub set_ambient_temp : FloatOps F → EnvironmentSimulator F → F → EnvironmentSimulator F
  set_ambient_temp ops e temp = record e {
    ambient_temp = clamp ops temp (ops.neg (ops.literal 40 1)) (ops.literal 60 1);
  }

  unfoldable pub set_barometric_pressure :
      FloatOps F → EnvironmentSimulator F → F → EnvironmentSimulator F
  set_barometric_pressure ops e pressure = record e {
    barometric_pressure = max_float ops (ops.literal 60 1) pressure;
  }

  abbrev pressure_at : FloatOps F → F → F
  pressure_at ops altitude =
      let drop = ops.div (ops.mul (ops.literal 65 10000) altitude) (ops.literal 28815 100) in
      ops.mul (ops.literal 101325 1000)
        (ops.pow (ops.sub (ops.literal 1 1) drop) (ops.literal 525577 100000))

  unfoldable pub set_altitude : FloatOps F → EnvironmentSimulator F → F → EnvironmentSimulator F
  set_altitude ops e meters =
      let altitude = max_float ops (ops.literal 0 1) meters in
      record e { altitude = altitude; barometric_pressure = pressure_at ops altitude }

  unfoldable pub set_humidity : FloatOps F → EnvironmentSimulator F → F → EnvironmentSimulator F
  set_humidity ops e percent = record e {
    humidity = clamp ops percent (ops.literal 0 1) (ops.literal 100 1);
  }

  -- The three draws between -2 and 2.
  unfoldable pub simulate_weather_change :
      FloatOps F → EnvironmentSimulator F → F → F → F → EnvironmentSimulator F
  simulate_weather_change ops e first second third = record e {
    ambient_temp =
        clamp ops (ops.add e.ambient_temp first) (ops.neg (ops.literal 10 1)) (ops.literal 50 1);
    humidity =
        clamp ops (ops.add e.humidity (ops.mul second (ops.literal 5 1))) (ops.literal 10 1)
          (ops.literal 95 1);
    barometric_pressure = max_float ops (ops.literal 95 1) (ops.add e.barometric_pressure third);
  }

  unfoldable pub update :
      FloatOps F → EnvironmentSimulator F → ℕ → F → F → F → EnvironmentSimulator F
  unfolding simulate_weather_change
  update ops e now first second third =
      if e.dynamic_conditions
      then (if leb 30 ((now - e.last_update) / 1000000000)
          then record (simulate_weather_change ops e first second third) { last_update = now }
          else e)
      else e

  unfoldable pub set_dynamic_conditions : EnvironmentSimulator F → Bool → ℕ → EnvironmentSimulator F
  set_dynamic_conditions e dynamic now =
      if dynamic
      then record e { dynamic_conditions = true; last_update = now }
      else record e { dynamic_conditions = false }
