-- ===== src/Simulation/DrivingCycle.antt =====
-- src/simulation/driving_cycle.hpp and driving_cycle.cpp, DrivingCycle. The interpolation that getPoint computes and
-- does not use is left out.
use mcp2515_rpi.Base.{ℕ, List, [], ◌∷◌, if◌then◌else◌}
use mcp2515_rpi.Base.Texts.{text}
use mcp2515_rpi.Manufacturer.Profiles.{FloatOps}

pub record DrivingCyclePoint (F : Type 0) : Type 0 where
  pub rpm : F
  pub speed : F
  pub throttle : F
  pub load : F
  pub duration_s : F

pub data CycleType : Type 0 where
  urban highway mixed steady_state custom : CycleType

pub record DrivingCycle (F : Type 0) : Type 0 where
  pub cycle_type : CycleType
  pub custom_points : List (DrivingCyclePoint F)
  pub active_points : List (DrivingCyclePoint F)

unfoldable pub type_name : CycleType → List ℕ
type_name CycleType.urban = text "urban"
type_name CycleType.highway = text "highway"
type_name CycleType.mixed = text "mixed"
type_name CycleType.steady_state = text "steady"
type_name CycleType.custom = text "custom"

module _ {F : Type 0} where
  abbrev pub point : F → F → F → F → F → DrivingCyclePoint F
  point rpm speed throttle load duration = record {
    rpm = rpm;
    speed = speed;
    throttle = throttle;
    load = load;
    duration_s = duration;
  }

  unfoldable pub generate_urban : FloatOps F → List (DrivingCyclePoint F)
  generate_urban ops =
      point (ops.literal 800 1) (ops.literal 0 1) (ops.literal 0 1) (ops.literal 1 10)
        (ops.literal 10 1)
      ∷ point (ops.literal 1200 1) (ops.literal 20 1) (ops.literal 15 1) (ops.literal 2 10)
          (ops.literal 8 1)
      ∷ point (ops.literal 1500 1) (ops.literal 35 1) (ops.literal 20 1) (ops.literal 3 10)
          (ops.literal 10 1)
      ∷ point (ops.literal 2000 1) (ops.literal 50 1) (ops.literal 25 1) (ops.literal 35 100)
          (ops.literal 12 1)
      ∷ point (ops.literal 1200 1) (ops.literal 20 1) (ops.literal 10 1) (ops.literal 2 10)
          (ops.literal 6 1)
      ∷ point (ops.literal 800 1) (ops.literal 0 1) (ops.literal 0 1) (ops.literal 1 10)
          (ops.literal 8 1)
      ∷ point (ops.literal 1500 1) (ops.literal 40 1) (ops.literal 22 1) (ops.literal 3 10)
          (ops.literal 10 1)
      ∷ point (ops.literal 1800 1) (ops.literal 55 1) (ops.literal 28 1) (ops.literal 4 10)
          (ops.literal 15 1)
      ∷ point (ops.literal 2500 1) (ops.literal 60 1) (ops.literal 35 1) (ops.literal 5 10)
          (ops.literal 8 1)
      ∷ point (ops.literal 800 1) (ops.literal 0 1) (ops.literal 0 1) (ops.literal 1 10)
          (ops.literal 5 1)
      ∷ point (ops.literal 1000 1) (ops.literal 15 1) (ops.literal 10 1) (ops.literal 15 100)
          (ops.literal 6 1)
      ∷ point (ops.literal 1500 1) (ops.literal 30 1) (ops.literal 20 1) (ops.literal 25 100)
          (ops.literal 10 1)
      ∷ point (ops.literal 800 1) (ops.literal 0 1) (ops.literal 0 1) (ops.literal 1 10)
          (ops.literal 8 1)
      ∷ []

  unfoldable pub generate_highway : FloatOps F → List (DrivingCyclePoint F)
  generate_highway ops =
      point (ops.literal 800 1) (ops.literal 0 1) (ops.literal 0 1) (ops.literal 1 10)
        (ops.literal 5 1)
      ∷ point (ops.literal 2000 1) (ops.literal 40 1) (ops.literal 30 1) (ops.literal 3 10)
          (ops.literal 10 1)
      ∷ point (ops.literal 2500 1) (ops.literal 80 1) (ops.literal 35 1) (ops.literal 4 10)
          (ops.literal 15 1)
      ∷ point (ops.literal 2800 1) (ops.literal 100 1) (ops.literal 38 1) (ops.literal 45 100)
          (ops.literal 30 1)
      ∷ point (ops.literal 3000 1) (ops.literal 120 1) (ops.literal 40 1) (ops.literal 5 10)
          (ops.literal 40 1)
      ∷ point (ops.literal 2500 1) (ops.literal 110 1) (ops.literal 35 1) (ops.literal 45 100)
          (ops.literal 30 1)
      ∷ point (ops.literal 2000 1) (ops.literal 90 1) (ops.literal 30 1) (ops.literal 4 10)
          (ops.literal 20 1)
      ∷ point (ops.literal 1500 1) (ops.literal 60 1) (ops.literal 25 1) (ops.literal 3 10)
          (ops.literal 10 1)
      ∷ point (ops.literal 800 1) (ops.literal 0 1) (ops.literal 0 1) (ops.literal 1 10)
          (ops.literal 5 1)
      ∷ []

  unfoldable pub generate_mixed : FloatOps F → List (DrivingCyclePoint F)
  generate_mixed ops =
      point (ops.literal 800 1) (ops.literal 0 1) (ops.literal 0 1) (ops.literal 1 10)
        (ops.literal 5 1)
      ∷ point (ops.literal 1500 1) (ops.literal 30 1) (ops.literal 20 1) (ops.literal 25 100)
          (ops.literal 8 1)
      ∷ point (ops.literal 2000 1) (ops.literal 50 1) (ops.literal 30 1) (ops.literal 35 100)
          (ops.literal 10 1)
      ∷ point (ops.literal 2500 1) (ops.literal 80 1) (ops.literal 35 1) (ops.literal 4 10)
          (ops.literal 20 1)
      ∷ point (ops.literal 2800 1) (ops.literal 110 1) (ops.literal 40 1) (ops.literal 5 10)
          (ops.literal 25 1)
      ∷ point (ops.literal 1500 1) (ops.literal 60 1) (ops.literal 25 1) (ops.literal 3 10)
          (ops.literal 12 1)
      ∷ point (ops.literal 1200 1) (ops.literal 35 1) (ops.literal 20 1) (ops.literal 25 100)
          (ops.literal 8 1)
      ∷ point (ops.literal 800 1) (ops.literal 0 1) (ops.literal 0 1) (ops.literal 1 10)
          (ops.literal 6 1)
      ∷ point (ops.literal 2000 1) (ops.literal 45 1) (ops.literal 28 1) (ops.literal 35 100)
          (ops.literal 10 1)
      ∷ point (ops.literal 2500 1) (ops.literal 75 1) (ops.literal 35 1) (ops.literal 4 10)
          (ops.literal 15 1)
      ∷ point (ops.literal 1500 1) (ops.literal 40 1) (ops.literal 22 1) (ops.literal 3 10)
          (ops.literal 8 1)
      ∷ point (ops.literal 800 1) (ops.literal 0 1) (ops.literal 0 1) (ops.literal 1 10)
          (ops.literal 5 1)
      ∷ []

  -- The constructor's points: those of the urban cycle for the types that it does not name.
  abbrev pub first_points : FloatOps F → CycleType → List (DrivingCyclePoint F)
  first_points ops CycleType.urban = generate_urban ops
  first_points ops CycleType.highway = generate_highway ops
  first_points ops CycleType.mixed = generate_mixed ops
  first_points ops CycleType.steady_state = generate_urban ops
  first_points ops CycleType.custom = generate_urban ops

  unfoldable pub init : FloatOps F → CycleType → DrivingCycle F
  init ops kind = record {
    cycle_type = kind;
    custom_points = [];
    active_points = first_points ops kind;
  }

  abbrev pub or_urban : FloatOps F → List (DrivingCyclePoint F) → List (DrivingCyclePoint F)
  or_urban ops [] = generate_urban ops
  or_urban ops (p ∷ points) = p ∷ points

  abbrev pub points_of :
      FloatOps F → CycleType → List (DrivingCyclePoint F) → List (DrivingCyclePoint F)
  points_of ops CycleType.urban saved = generate_urban ops
  points_of ops CycleType.highway saved = generate_highway ops
  points_of ops CycleType.mixed saved = generate_mixed ops
  points_of ops CycleType.steady_state saved =
      point (ops.literal 1500 1) (ops.literal 80 1) (ops.literal 25 1) (ops.literal 3 10)
        (ops.literal 60 1)
      ∷ []
  points_of ops CycleType.custom saved = or_urban ops saved

  unfoldable pub set_type : FloatOps F → DrivingCycle F → CycleType → DrivingCycle F
  set_type ops c kind = record c {
    cycle_type = kind;
    active_points = points_of ops kind c.custom_points;
  }

  unfoldable pub get_type_name : DrivingCycle F → List ℕ
  unfolding type_name
  get_type_name c = type_name c.cycle_type

  -- The loop from the time accumulated so far; `last` is the point before.
  unfoldable pub find_point :
      FloatOps F → F → F → DrivingCyclePoint F → List (DrivingCyclePoint F) → DrivingCyclePoint F
  find_point ops time accumulated last [] = last
  find_point ops time accumulated last (p ∷ points) =
      let later = find_point ops time (ops.add accumulated p.duration_s) p points in
      if ops.at_most time (ops.add accumulated p.duration_s) then p else later

  unfoldable pub get_point : FloatOps F → DrivingCycle F → F → DrivingCyclePoint F
  unfolding find_point
  get_point ops c time =
      let origin = ops.literal 0 1 in
      find_point ops time origin (point origin origin origin origin origin) c.active_points

  unfoldable pub get_full_cycle : DrivingCycle F → List (DrivingCyclePoint F)
  get_full_cycle c = c.active_points

  unfoldable pub sum_durations : FloatOps F → F → List (DrivingCyclePoint F) → F
  sum_durations ops total [] = total
  sum_durations ops total (p ∷ points) = sum_durations ops (ops.add total p.duration_s) points

  unfoldable pub get_total_duration : FloatOps F → DrivingCycle F → F
  unfolding sum_durations
  get_total_duration ops c = sum_durations ops (ops.literal 0 1) c.active_points

  abbrev pub with_custom :
      CycleType
      → List (DrivingCyclePoint F)
      → List (DrivingCyclePoint F)
      → List (DrivingCyclePoint F)
  with_custom CycleType.custom points active = points
  with_custom CycleType.urban points active = active
  with_custom CycleType.highway points active = active
  with_custom CycleType.mixed points active = active
  with_custom CycleType.steady_state points active = active

  unfoldable pub set_custom_profile : DrivingCycle F → List (DrivingCyclePoint F) → DrivingCycle F
  set_custom_profile c points = record c {
    custom_points = points;
    active_points = with_custom c.cycle_type points c.active_points;
  }
