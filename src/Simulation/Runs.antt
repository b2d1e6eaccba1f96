-- ===== src/Simulation/Runs.antt =====
-- Concrete runs of the simulators, with natural numbers as the floats.
use mcp2515_rpi.Base.{ℕ, ◌≡◌, refl, true, some, [], ◌∷◌}
use mcp2515_rpi.Manufacturer.Samples.{ops}
use mcp2515_rpi.Simulation.DrivingCycle.{
  DrivingCycle, CycleType, point, get_point, get_total_duration, set_type, set_custom_profile,
  get_type_name,
}
use mcp2515_rpi.Simulation.DrivingCycle as driving_cycle
use mcp2515_rpi.Simulation.Faults.{FaultInjector, remove_dtc, should_trigger}
use mcp2515_rpi.Simulation.Environment.{
  EnvironmentSimulator, set_dynamic_conditions, update, set_humidity, set_ambient_temp,
}
use mcp2515_rpi.Simulation.Environment as environment
use mcp2515_rpi.Simulation.Sensors.{SensorSimulator, update_driving}
use mcp2515_rpi.Simulation.Sensors as sensors

-- The first point of the urban cycle lasts ten seconds; the constructor gives the steady cycle the same points.
cycle_points :
    (get_point ops (driving_cycle.init ops CycleType.urban) 10 ≡ point 800 0 0 0 10)
    × (get_point ops (driving_cycle.init ops CycleType.urban) 11 ≡ point 1200 20 15 0 8)
    × (get_point ops (driving_cycle.init ops CycleType.steady_state) 1 ≡ point 800 0 0 0 10)
    × (get_point ops
          (set_type ops (driving_cycle.init ops CycleType.urban) CycleType.steady_state)
          1
        ≡ point 1500 80 25 0 60)
unfolding get_point driving_cycle.init driving_cycle.generate_urban set_type
cycle_points = (refl, refl, refl, refl)

urban_time : get_total_duration ops (driving_cycle.init ops CycleType.urban) ≡ 116
unfolding get_total_duration driving_cycle.init driving_cycle.generate_urban
urban_time = refl

abbrev injector : FaultInjector ℕ
injector = record {
  enabled = true;
  probability = 1;
  faults =
      record { code = 0x0300; description = "Misfire"; probability_weight = 1 }
      ∷ record { code = 0x0420; description = "Catalyst"; probability_weight = 1 }
      ∷ [];
}

fault_triggered : should_trigger ops (remove_dtc injector 0x0300) 1 0 ≡ some 0x0420
unfolding should_trigger remove_dtc
fault_triggered = refl

-- Weather changes after thirty seconds and keeps the humidity within its limits.
weather :
    let e = set_dynamic_conditions (environment.init ops 0) true 0 in
    (update ops e 29999999999 1 100 1 ≡ e) × ((update ops e 30000000000 1 100 1).humidity ≡ 95)
unfolding update set_dynamic_conditions environment.init environment.simulate_weather_change
weather = (refl, refl)

sensors_follow :
    (update_driving ops (sensors.init ops) 2000 50 (λ n. 0) 13 (λ n. 0)).engine_rpm ≡ 2000
unfolding update_driving sensors.init
sensors_follow = refl
