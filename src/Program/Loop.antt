-- ===== src/Program/Loop.antt =====
-- src/main.cpp: one round of the simulation loop, which passes the driving cycle through the profile and the sensors
-- to the control unit and the metrics.
pub mod Laws
use Prim.Native.String.{String}
use mcp2515_rpi.Base.{ℕ, Bool, true, false, Option, none, some, List, [], ◌∷◌, ◌++◌, if◌then◌else◌}
use mcp2515_rpi.Base.Texts.{text}
use mcp2515_rpi.Manufacturer.{Ecu, set_dtc}
use mcp2515_rpi.Manufacturer.Profiles.{FloatOps, apply_rpm_profile}
use mcp2515_rpi.Manufacturer.Values.{
  set_engine_rpm, set_vehicle_speed, set_coolant_temp, set_intake_temp, set_maf,
  set_throttle_position, set_fuel_level, set_battery_voltage, increment_odometer,
}
use mcp2515_rpi.Simulation.DrivingCycle.{DrivingCycle, DrivingCyclePoint, get_point}
use mcp2515_rpi.Simulation.Sensors.{SensorSimulator, update_driving}
use mcp2515_rpi.Simulation.Environment.{EnvironmentSimulator, update, max_float}
use mcp2515_rpi.Simulation.Faults.{FaultInjector, should_trigger}
use mcp2515_rpi.Logging.Metrics.{Metrics, gauge, record_dtc_set}
use mcp2515_rpi.Logging.Logger.{CanLogger, LogLevel, log}
use mcp2515_rpi.Api.Rest.Response.{decimal}
use mcp2515_rpi.Program.{App}

-- What one round takes from outside: the draws, the clock and the answers of the file system.
pub record Inputs (F : Type 0) : Type 0 where
  pub pi : F
  pub idle_noise : F
  pub draws : ℕ → F
  pub voltage : F
  pub noises : ℕ → F
  pub now : ℕ
  pub weather : ℕ → F
  pub fault_draw : F
  pub fault_index : ℕ
  pub stamp : List ℕ
  pub log_position : Option ℕ
  pub log_answer : Bool

abbrev pub fault_message : ℕ → List ℕ
fault_message code = text "Fault injected: DTC 0x" ++ decimal 20 code

module _ {F : Type 0} where
  abbrev pub time_step : FloatOps F → F
  time_step ops = ops.literal 5 100

  -- The cycle's point, through the profile, into the sensors; then the weather.
  unfoldable pub drive : FloatOps F → Inputs F → App F → App F
  unfolding get_point apply_rpm_profile update_driving update
  drive ops io a =
      let time = ops.add a.sim_time (time_step ops) in
      let point : DrivingCyclePoint F = get_point ops a.driving_cycle time in
      let rpm =
        apply_rpm_profile ops a.profile_manager io.pi io.idle_noise point.rpm (time_step ops) in
      record a {
        sim_time = time;
        profile_manager = rpm.0;
        sensor_sim =
            update_driving ops a.sensor_sim rpm.1 point.speed io.draws io.voltage io.noises;
        env_sim = update ops a.env_sim io.now (io.weather 0) (io.weather 1) (io.weather 2);
      }

  abbrev pub fault_set : FloatOps F → Inputs F → App F → Option ℕ → Option (Ecu F) → App F
  fault_set ops io a none current = a
  fault_set ops io a (some code) none = a
  fault_set ops io a (some code) (some e) = record a {
    current = some (record e { dtcs = set_dtc e.dtcs code "Simulated fault via injection" true });
    metrics = record_dtc_set ops a.metrics;
    logger =
        log a.logger io.stamp io.log_position io.log_answer LogLevel.warning (fault_message code);
  }

  unfoldable pub inject : FloatOps F → Inputs F → App F → App F
  unfolding should_trigger record_dtc_set log
  inject ops io a =
      fault_set ops io a (should_trigger ops a.fault_injector io.fault_draw io.fault_index)
        a.current

  -- The eight values that the control unit is given.
  unfoldable pub sync_values : SensorSimulator F → Ecu F → Ecu F
  unfolding set_engine_rpm set_vehicle_speed set_coolant_temp set_intake_temp set_maf
      set_throttle_position set_fuel_level set_battery_voltage
  sync_values s e =
      let a =
        set_coolant_temp (set_vehicle_speed (set_engine_rpm e s.engine_rpm) s.vehicle_speed)
          s.coolant_temp in
      let b =
        set_throttle_position (set_maf (set_intake_temp a s.intake_temp) s.maf) s.throttle_pos in
      set_battery_voltage (set_fuel_level b s.fuel_level) s.battery_voltage

  -- What has been driven since the odometer was last moved, with this round.
  unfoldable pub driven : FloatOps F → App F → F
  driven ops a =
      let speed = max_float ops (ops.literal 0 1) a.sensor_sim.vehicle_speed in
      ops.add a.odo_accum (ops.mul (ops.div speed (ops.literal 3600 1)) (time_step ops))

  -- The odometer moves by hundredths of a kilometre or more.
  abbrev pub synced : FloatOps F → App F → Option (Ecu F) → App F
  synced ops a none = a
  synced ops a (some e) =
      if ops.at_most (ops.literal 1 100) (driven ops a)
      then record a {
        current = some (increment_odometer ops (sync_values a.sensor_sim e) (driven ops a));
        odo_accum = ops.literal 0 1;
      }
      else record a { current = some (sync_values a.sensor_sim e); odo_accum = driven ops a }

  unfoldable pub sync : FloatOps F → App F → App F
  unfolding increment_odometer sync_values driven
  sync ops a = synced ops a a.current

  abbrev pub odometer_of : FloatOps F → Option (Ecu F) → F
  odometer_of ops none = ops.literal 0 1
  odometer_of ops (some e) = e.odometer_km

  unfoldable pub measure : FloatOps F → App F → App F
  unfolding gauge
  measure ops a =
      let rpm = gauge ops a.metrics (text "ecu_engine_rpm") a.sensor_sim.engine_rpm in
      let speed = gauge ops rpm (text "ecu_vehicle_speed") a.sensor_sim.vehicle_speed in
      let battery = gauge ops speed (text "ecu_battery_voltage") a.sensor_sim.battery_voltage in
      let uptime = gauge ops battery (text "ecu_uptime_seconds") a.sim_time in
      record a { metrics = gauge ops uptime (text "ecu_odometer_km") (odometer_of ops a.current) }

  -- One round of the loop.
  unfoldable pub step : FloatOps F → Inputs F → App F → App F
  unfolding drive inject sync measure
  step ops io a = measure ops (sync ops (inject ops io (drive ops io a)))
