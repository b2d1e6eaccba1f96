-- ===== src/Program/Loop/Laws.antt =====
-- src/main.cpp: what the control unit and the metrics hold after a round of the simulation loop.
use mcp2515_rpi.Base.{
  ℕ, ◌≡◌, refl, ap, ◌∙◌, true, Option, none, some, List, [], if◌then◌else◌, inl, inr, Bool-cases,
}
use mcp2515_rpi.Base.Texts.{text, same_text}
use mcp2515_rpi.Manufacturer.{Ecu, set_dtc}
use mcp2515_rpi.Manufacturer.Profiles.{FloatOps}
use mcp2515_rpi.Manufacturer.Values.{
  set_engine_rpm, set_vehicle_speed, set_coolant_temp, set_intake_temp, set_maf,
  set_throttle_position, set_fuel_level, set_battery_voltage, increment_odometer,
}
use mcp2515_rpi.Simulation.Sensors.{SensorSimulator}
use mcp2515_rpi.Simulation.Faults.{should_trigger}
use mcp2515_rpi.Logging.Metrics.{Metrics, get, gauge}
use mcp2515_rpi.Logging.Metrics.Laws.{operations_lem}
use mcp2515_rpi.Program.{App}
use mcp2515_rpi.Program.Loop.{
  Inputs, drive, inject, fault_set, sync, sync_values, driven, odometer_of, measure, step,
}

module _ {F : Type 0} where
  -- A control unit whose values are the sensors'.
  pub record Follows (s : SensorSimulator F) (e : Ecu F) : Type 0 where
    pub rpm : e.engine_rpm ≡ s.engine_rpm
    pub speed : e.vehicle_speed ≡ s.vehicle_speed
    pub coolant : e.coolant_temp ≡ s.coolant_temp
    pub intake : e.intake_temp ≡ s.intake_temp
    pub maf : e.maf ≡ s.maf
    pub throttle : e.throttle_pos ≡ s.throttle_pos
    pub fuel : e.fuel_level ≡ s.fuel_level
    pub battery : e.battery_voltage ≡ s.battery_voltage

  sync_values-Follows : (s : SensorSimulator F) (e : Ecu F) → Follows s (sync_values s e)
  unfolding sync_values set_engine_rpm set_vehicle_speed set_coolant_temp set_intake_temp set_maf
      set_throttle_position set_fuel_level set_battery_voltage
  sync_values-Follows s e = record {
    rpm = refl;
    speed = refl;
    coolant = refl;
    intake = refl;
    maf = refl;
    throttle = refl;
    fuel = refl;
    battery = refl;
  }

  increment-Follows :
      (ops : FloatOps F) (s : SensorSimulator F) (e : Ecu F) (km : F)
      → Follows s e
      → Follows s (increment_odometer ops e km)
  unfolding increment_odometer
  increment-Follows ops s e km f = elim (Bool-cases (ops.less (ops.literal 0 1) km)) [
    | inl more ↦
        rw (more, if◌then◌else◌)
          (record {
            rpm = f.rpm;
            speed = f.speed;
            coolant = f.coolant;
            intake = f.intake;
            maf = f.maf;
            throttle = f.throttle;
            fuel = f.fuel;
            battery = f.battery;
          })
    | inr still ↦ rw (still, if◌then◌else◌) f
  ]

  fault_set_keeps :
      (ops : FloatOps F) (io : Inputs F) (a : App F) (fault : Option ℕ) (e : Ecu F)
      → a.current ≡ some e
      → (e' : Ecu F) × ((fault_set ops io a fault (some e)).current ≡ some e')
  fault_set_keeps ops io a none e h = (e, h)
  fault_set_keeps ops io a (some code) e h =
      (record e { dtcs = set_dtc e.dtcs code "Simulated fault via injection" true }, refl)

  inject_keeps :
      (ops : FloatOps F) (io : Inputs F) (a : App F) (e : Ecu F)
      → a.current ≡ some e
      → (e' : Ecu F) × ((inject ops io a).current ≡ some e')
  unfolding inject
  inject_keeps ops io a e h =
      let fault = should_trigger ops a.fault_injector io.fault_draw io.fault_index in
      let (e', kept) = fault_set_keeps ops io a fault e h in
      (e', ap (λ c. (fault_set ops io a fault c).current) h ∙ kept)

  sync_agrees :
      (ops : FloatOps F) (a : App F) (e : Ecu F)
      → a.current ≡ some e
      → (e' : Ecu F) × ((sync ops a).current ≡ some e') × Follows (sync ops a).sensor_sim e'
  unfolding sync
  sync_agrees ops a e h = elim (Bool-cases (ops.at_most (ops.literal 1 100) (driven ops a))) [
    | inl far ↦ (
      increment_odometer ops (sync_values a.sensor_sim e) (driven ops a),
      rw (h, far) refl,
      rw (h, far)
          (increment-Follows ops a.sensor_sim (sync_values a.sensor_sim e) (driven ops a)
            (sync_values-Follows a.sensor_sim e)),
    )
    | inr near ↦ (
      sync_values a.sensor_sim e,
      rw (h, near) refl,
      rw (h, near) (sync_values-Follows a.sensor_sim e),
    )
  ]

  gauge_lem :
      (ops : FloatOps F) (metrics : Metrics F) (name other : List ℕ) (value : F)
      → get ops (gauge ops metrics name value) other
        ≡ (if same_text name other then value else get ops metrics other)
  gauge_lem ops metrics name other value = (operations_lem ops metrics name [] other value).2

  -- What the metrics hold of the program's state.
  pub record Measured (ops : FloatOps F) (a : App F) (e : Ecu F) : Type 0 where
    pub rpm : get ops a.metrics (text "ecu_engine_rpm") ≡ a.sensor_sim.engine_rpm
    pub speed : get ops a.metrics (text "ecu_vehicle_speed") ≡ a.sensor_sim.vehicle_speed
    pub battery : get ops a.metrics (text "ecu_battery_voltage") ≡ a.sensor_sim.battery_voltage
    pub uptime : get ops a.metrics (text "ecu_uptime_seconds") ≡ a.sim_time
    pub odometer : get ops a.metrics (text "ecu_odometer_km") ≡ e.odometer_km

  measure-Measured :
      (ops : FloatOps F) (a : App F) (e : Ecu F)
      → a.current ≡ some e
      → Measured ops (measure ops a) e
  unfolding measure
  measure-Measured ops a e h =
      let rpm = gauge ops a.metrics (text "ecu_engine_rpm") a.sensor_sim.engine_rpm in
      let speed = gauge ops rpm (text "ecu_vehicle_speed") a.sensor_sim.vehicle_speed in
      let battery = gauge ops speed (text "ecu_battery_voltage") a.sensor_sim.battery_voltage in
      let uptime = gauge ops battery (text "ecu_uptime_seconds") a.sim_time in
      let past = λ (name : List ℕ).
        gauge_lem ops uptime (text "ecu_odometer_km") name (odometer_of ops a.current) in
      record {
        rpm =
            past (text "ecu_engine_rpm")
            ∙ gauge_lem ops battery _ (text "ecu_engine_rpm") _
            ∙ gauge_lem ops speed _ (text "ecu_engine_rpm") _
            ∙ gauge_lem ops rpm _ (text "ecu_engine_rpm") _
            ∙ gauge_lem ops a.metrics _ (text "ecu_engine_rpm") _;
        speed =
            past (text "ecu_vehicle_speed")
            ∙ gauge_lem ops battery _ (text "ecu_vehicle_speed") _
            ∙ gauge_lem ops speed _ (text "ecu_vehicle_speed") _
            ∙ gauge_lem ops rpm _ (text "ecu_vehicle_speed") _;
        battery =
            past (text "ecu_battery_voltage")
            ∙ gauge_lem ops battery _ (text "ecu_battery_voltage") _
            ∙ gauge_lem ops speed _ (text "ecu_battery_voltage") _;
        uptime =
            past (text "ecu_uptime_seconds")
            ∙ gauge_lem ops battery _ (text "ecu_uptime_seconds") _;
        odometer = past (text "ecu_odometer_km") ∙ ap (odometer_of ops) h;
      }

  -- After a round of the loop there is still a control unit where there was one; its eight values are those of the
  -- sensors, and the metrics hold the sensors' engine speed, speed and voltage, the simulated time and the unit's
  -- odometer, whatever the draws, the weather and the injected fault.
  pub step_lem :
      (ops : FloatOps F) (io : Inputs F) (a : App F) (e : Ecu F)
      → a.current ≡ some e
      → (e' : Ecu F) × ((step ops io a).current ≡ some e')
        × Follows (step ops io a).sensor_sim e'
        × Measured ops (step ops io a) e'
  unfolding step drive
  step_lem ops io a e h =
      let driven_app = drive ops io a in
      let (faulty, kept) = inject_keeps ops io driven_app e h in
      let (e', current, follows) = sync_agrees ops (inject ops io driven_app) faulty kept in
      (
        e',
        unfold measure in current,
        unfold measure in follows,
        measure-Measured ops (sync ops (inject ops io driven_app)) e' current,
      )
