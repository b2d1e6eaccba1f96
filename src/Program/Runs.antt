-- ===== src/Program/Runs.antt =====
-- Concrete runs of the program, with natural numbers as the floats, and the theorems at concrete inputs.
use mcp2515_rpi.Base.{
  ℕ, ◌≡◌, refl, true, none, some, List, [], ◌∷◌, arith, length, ◌==◌, if◌then◌else◌,
}
use mcp2515_rpi.Base.Texts.{text}
use mcp2515_rpi.Manufacturer.{Ecu}
use mcp2515_rpi.Manufacturer.Profiles.{select_profile}
use mcp2515_rpi.Manufacturer.Values.{set_odometer}
use mcp2515_rpi.Manufacturer.Samples.{ops, profiles, unit}
use mcp2515_rpi.Simulation.DrivingCycle.{CycleType}
use mcp2515_rpi.Simulation.DrivingCycle as driving_cycle
use mcp2515_rpi.Simulation.Faults as faults
use mcp2515_rpi.Simulation.Environment as environment
use mcp2515_rpi.Simulation.Sensors as sensors
use mcp2515_rpi.Logging.Metrics as metrics
use mcp2515_rpi.Logging.Logger as logger
use mcp2515_rpi.Logging.Logger.{LogLevel}
use mcp2515_rpi.Api.Rest.{serve, respond}
use mcp2515_rpi.Api.Rest.Laws.{IsWord, request}
use mcp2515_rpi.Program.{App, JsonOps, profile_selected, unknown_profile, odometer_set, route}
use mcp2515_rpi.Program.Laws.{InSync, route-InSync}
use mcp2515_rpi.Program.Requests.{rest_handler, posts_fail}
use mcp2515_rpi.Program.Loop.{Inputs, step}
use mcp2515_rpi.Program.Loop.Laws.{Follows, Measured, step_lem}

-- Requests are read as nothing but a name of a profile.
abbrev json : JsonOps ℕ (List ℕ)
json = record {
  parse = λ body. if length body == 0 then none else some body;
  name = λ j. some (some j);
  odometer_km = λ j. some (some 100);
  reset_trip = λ j. some none;
}

abbrev app : App ℕ
app = record {
  profile_manager = profiles;
  current = some unit;
  sensor_sim = sensors.init ops;
  driving_cycle = driving_cycle.init ops CycleType.urban;
  fault_injector = faults.init ops;
  env_sim = environment.init ops 0;
  metrics = metrics.init ops;
  logger = logger.init (λ j. none) LogLevel.info 1 3 true;
  sim_time = 0;
  odo_accum = 0;
}

app-InSync : InSync app
app-InSync = (refl, refl)

route-InSync_example : InSync (route ops json app (text "/profile") (text "POST") (b'n' ∷ []) []).0
route-InSync_example =
    route-InSync ops json app (text "/profile") (text "POST") (b'n' ∷ []) [] app-InSync

profile_switched :
    ((route ops json app (text "/profile") (text "POST") (b'n' ∷ []) []).1
      ≡ profile_selected (b'n' ∷ []))
    × ((route ops json app (text "/profile") (text "POST") (b'x' ∷ []) []).1
        ≡ unknown_profile (b'x' ∷ []))
    × ((route ops json app (text "/odometer") (text "POST") (b'x' ∷ []) []).1 ≡ odometer_set 100 0)
unfolding route select_profile set_odometer
profile_switched = (refl, refl, refl)

version_IsWord : IsWord (text "HTTP")
version_IsWord = record {
  ink = (refl, (refl, (refl, (refl, tt))));
  no_zero = (refl, (refl, (refl, (refl, tt))));
  long = omega arith;
}

posts_fail_example :
    (serve
        (some (rest_handler ops json (λ r. text "error")))
        app
        (request (text "POST") (text "/profile") (text "HTTP") (text "n"))
      ≡ some (app, respond (text "error")))
    × (serve
          (some (rest_handler ops json (λ r. text "error")))
          app
          (request (text "POST") (text "/odometer") (text "HTTP") (text "n"))
        ≡ some (app, respond (text "error")))
posts_fail_example =
    posts_fail ops json (λ r. text "error") app unit (text "HTTP") (text "n") refl refl
      version_IsWord

abbrev io : Inputs ℕ
io = record {
  pi = 3;
  idle_noise = 0;
  draws = λ n. 0;
  voltage = 0;
  noises = λ n. 0;
  now = 0;
  weather = λ n. 0;
  fault_draw = 0;
  fault_index = 0;
  stamp = [];
  log_position = some 0;
  log_answer = true;
}

step_lem_example :
    (e : Ecu ℕ) × ((step ops io app).current ≡ some e)
    × Follows (step ops io app).sensor_sim e
    × Measured ops (step ops io app) e
step_lem_example = step_lem ops io app unit refl
