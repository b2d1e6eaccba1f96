-- ===== src/Program/Start.antt =====
-- src/main.cpp: the program's state before the loop, and the message for the clients of the WebSocket server.
use mcp2515_rpi.Base.{ℕ, Bool, Option, none, some, List, [], ◌∷◌}
use mcp2515_rpi.Base.Texts.{text}
use mcp2515_rpi.Router.{Manufacturer, ProtocolRouter, register_manufacturer}
use mcp2515_rpi.Manufacturer.{Ecu}
use mcp2515_rpi.Manufacturer.Profiles.{FloatOps, VehicleProfile, get_current_profile}
use mcp2515_rpi.Manufacturer.Profiles.Predefined as predefined
use mcp2515_rpi.Manufacturer.Values.{set_odometer}
use mcp2515_rpi.Simulation.DrivingCycle.{CycleType}
use mcp2515_rpi.Simulation.DrivingCycle as driving_cycle
use mcp2515_rpi.Simulation.Sensors as sensors
use mcp2515_rpi.Simulation.Environment as environment
use mcp2515_rpi.Simulation.Faults as faults
use mcp2515_rpi.Logging.Metrics as metrics
use mcp2515_rpi.Logging.Logger as logger
use mcp2515_rpi.Logging.Logger.{Files, level_from_string}
use mcp2515_rpi.Program.{App, start_profile}

-- The values of the configuration that the start uses, each with its default where the file has none.
pub record Config (F : Type 0) : Type 0 where
  pub log_level : List ℕ
  pub log_max_size_mb : ℕ
  pub log_max_files : ℕ
  pub profile : List ℕ
  pub initial_km : Option F

-- The eight makes, in the order of their registration.
abbrev pub makes : List Manufacturer
makes =
    Manufacturer.chevrolet ∷ Manufacturer.ford ∷ Manufacturer.toyota ∷ Manufacturer.bmw
    ∷ Manufacturer.volkswagen ∷ Manufacturer.mercedes ∷ Manufacturer.honda ∷ Manufacturer.nissan
    ∷ []

unfoldable pub register_all :
    {I : Type 0} → (Manufacturer → I) → ProtocolRouter I → List Manufacturer → ProtocolRouter I
unfolding register_manufacturer
register_all made r [] = r
register_all made r (m ∷ ms) = register_all made (register_manufacturer r m (made m)).0 ms

module _ {F : Type 0} where
  abbrev pub first_odometer : FloatOps F → Option F → Option (Ecu F) → Option (Ecu F)
  first_odometer ops none current = current
  first_odometer ops (some km) none = none
  first_odometer ops (some km) (some e) = some (set_odometer ops e km)

  -- `current` is the control unit that the router has selected; `garbage` is what the profiles leave unset.
  unfoldable pub init_app :
      FloatOps F → (ℕ → F) → Config F → Files → Bool → ℕ → Option (Ecu F) → App F
  unfolding set_odometer start_profile predefined.init
  init_app ops garbage config files log_answer now current = record {
    profile_manager = start_profile (predefined.init ops garbage) config.profile;
    current = first_odometer ops config.initial_km current;
    sensor_sim = sensors.init ops;
    driving_cycle = driving_cycle.init ops CycleType.urban;
    fault_injector = faults.init ops;
    env_sim = environment.init ops now;
    metrics = metrics.init ops;
    logger =
        logger.init files (level_from_string config.log_level) config.log_max_size_mb
          config.log_max_files log_answer;
    sim_time = ops.literal 0 1;
    odo_accum = ops.literal 0 1;
  }

-- The message of one update.
pub record Update (F : Type 0) : Type 0 where
  pub rpm : F
  pub speed : F
  pub coolant : F
  pub intake_temp : F
  pub maf : F
  pub throttle : F
  pub fuel_level : F
  pub battery : F
  pub intake_pressure : F
  pub fuel_pressure : F
  pub profile : List ℕ
  pub odometer_km : F

module _ {F : Type 0} where
  abbrev current_name : Option (VehicleProfile F) → List ℕ
  current_name none = text "normal"
  current_name (some p) = p.name

  abbrev pub shown_odometer : FloatOps F → Option (Ecu F) → F
  shown_odometer ops none = ops.literal 0 1
  shown_odometer ops (some e) = e.odometer_km

  unfoldable pub update_of : FloatOps F → App F → Update F
  update_of ops a = record {
    rpm = a.sensor_sim.engine_rpm;
    speed = a.sensor_sim.vehicle_speed;
    coolant = a.sensor_sim.coolant_temp;
    intake_temp = a.sensor_sim.intake_temp;
    maf = a.sensor_sim.maf;
    throttle = a.sensor_sim.throttle_pos;
    fuel_level = a.sensor_sim.fuel_level;
    battery = a.sensor_sim.battery_voltage;
    intake_pressure = a.sensor_sim.intake_pressure;
    fuel_pressure = a.sensor_sim.fuel_pressure;
    profile = current_name (get_current_profile a.profile_manager);
    odometer_km = shown_odometer ops a.current;
  }
