-- ===== src/Manufacturer/Profiles.antt =====
-- src/simulation/vehicle_profile.hpp and vehicle_profile.cpp, VehicleProfileManager: the choice of a profile and
-- its effects on the engine speed and on a sensor. A random draw is an argument.
pub mod Idle
pub mod Engine
pub mod Supply
pub mod Predefined
pub mod Laws
use Prim.Native.String.{String}
use mcp2515_rpi.Base.Texts.{text, same_text}
use mcp2515_rpi.Base.{
  ℕ, Bool, true, false, ◌&&◌, Option, none, some, List, [], ◌∷◌, map, ◌==◌, if◌then◌else◌,
}

-- The machine's operations on `float` and `double`. `literal n d` is the value that the source writes for n / d.
pub record FloatOps (F : Type 0) : Type 0 where
  pub literal : ℕ → ℕ → F
  pub add : F → F → F
  pub sub : F → F → F
  pub neg : F → F
  pub sin : F → F
  pub pow : F → F → F
  pub mul : F → F → F
  pub div : F → F → F
  pub less : F → F → Bool
  pub at_most : F → F → Bool
  pub to_u8 : F → ℕ
  pub to_u16 : F → ℕ
  pub to_u32 : F → ℕ

pub record SensorOverride (F : Type 0) : Type 0 where
  pub min_val : F
  pub max_val : F
  pub noise_amplitude : F
  pub drift_per_sec : F
  pub stuck_value : Bool
  pub stuck_at : F

pub record VehicleProfile (F : Type 0) : Type 0 where
  pub name : List ℕ
  pub description : String
  pub rpm_idle_min : F
  pub rpm_idle_max : F
  pub rpm_drive_min : F
  pub rpm_drive_max : F
  pub unstable_idle : Bool
  pub idle_fluctuation_hz : F
  pub idle_fluctuation_amp : F
  pub active_dtcs : List ℕ
  pub dtc_descriptions : List String
  pub sensor_overrides : List (ℕ × SensorOverride F)
  pub fuel_consumption_rate : F
  pub oil_temp_base : F
  pub oil_pressure_base : F
  pub throttle_response_delay : F
  pub max_speed : F
  pub acceleration_rate : F

-- The idle phase is `none` for the 0 of the constructor and of selectProfile.
pub record ProfileManager (F : Type 0) : Type 0 where
  pub profiles : List (List ℕ × VehicleProfile F)
  pub current_profile : List ℕ
  pub idle_phase : Option F

module _ {F : Type 0} where
  unfoldable pub find_profile :
      List (List ℕ × VehicleProfile F) → List ℕ → Option (VehicleProfile F)
  find_profile [] name = none
  find_profile ((n, p) ∷ rest) name = if same_text n name then some p else find_profile rest name

  unfoldable pub get_current_profile : ProfileManager F → Option (VehicleProfile F)
  unfolding find_profile
  get_current_profile m = find_profile m.profiles m.current_profile

  abbrev pub is_some : Option (VehicleProfile F) → Bool
  is_some none = false
  is_some (some p) = true

  unfoldable pub select_profile : ProfileManager F → List ℕ → ProfileManager F × Bool
  unfolding find_profile
  select_profile m name =
      if is_some (find_profile m.profiles name)
      then (record m { current_profile = name; idle_phase = none }, true)
      else (m, false)

  pub find_override : List (ℕ × SensorOverride F) → ℕ → Option (SensorOverride F)
  find_override [] pid = none
  find_override ((k, ov) ∷ rest) pid = if k == pid then some ov else find_override rest pid

  abbrev pub clamp : FloatOps F → F → F → F → F
  clamp ops v low high = if ops.less v low then low else if ops.less high v then high else v

  abbrev overridden : FloatOps F → F → F → F → SensorOverride F → F
  overridden ops noise base dt ov =
      if ov.stuck_value
      then ov.stuck_at
      else clamp ops (ops.add (ops.add base noise) (ops.mul ov.drift_per_sec dt)) ov.min_val
          ov.max_val

  abbrev through : FloatOps F → F → F → F → Option (SensorOverride F) → F
  through ops noise base dt none = base
  through ops noise base dt (some ov) = overridden ops noise base dt ov

  unfoldable pub apply_sensor_override : FloatOps F → ProfileManager F → F → ℕ → F → F → F
  unfolding get_current_profile find_override
  apply_sensor_override ops m noise pid base dt = elim (get_current_profile m) [
    | none ↦ base
    | some p ↦ through ops noise base dt (find_override p.sensor_overrides pid)
  ]

  unfoldable pub get_available_profiles : ProfileManager F → List (List ℕ)
  get_available_profiles m = map (λ p. p.0) m.profiles

  -- `profiles_[name] = profile`.
  unfoldable pub put_profile :
      List (List ℕ × VehicleProfile F)
      → List ℕ
      → VehicleProfile F
      → List (List ℕ × VehicleProfile F)
  put_profile [] name profile = (name, profile) ∷ []
  put_profile ((n, p) ∷ rest) name profile =
      let more = put_profile rest name profile in
      if same_text n name then (n, profile) ∷ rest else (n, p) ∷ more

  unfoldable pub apply_custom_profile :
      ProfileManager F → VehicleProfile F → ProfileManager F × Bool
  unfolding put_profile
  apply_custom_profile m profile =
      (record m { profiles = put_profile m.profiles (text "custom") profile }, true)

  abbrev phase_of : FloatOps F → Option F → F
  phase_of ops none = ops.literal 0 1
  phase_of ops (some phase) = phase

  -- `pi` is `M_PI`; `noise` is the draw of mean 0 and deviation 30.
  abbrev idle_rpm :
      FloatOps F → ProfileManager F → F → F → F → F → VehicleProfile F → ProfileManager F × F
  idle_rpm ops m pi noise base dt p =
      let phase =
        ops.add (phase_of ops m.idle_phase)
          (ops.mul (ops.mul (ops.mul dt p.idle_fluctuation_hz) (ops.literal 2 1)) pi) in
      let fluctuation = ops.add (ops.mul (ops.sin phase) p.idle_fluctuation_amp) noise in
      if p.unstable_idle
      then (
        record m { idle_phase = some phase },
        clamp ops (ops.add base fluctuation) p.rpm_idle_min p.rpm_drive_max,
      )
      else (m, clamp ops base p.rpm_idle_min p.rpm_drive_max)

  abbrev rpm_of_profile :
      FloatOps F
      → ProfileManager F
      → F
      → F
      → F
      → F
      → Option (VehicleProfile F)
      → ProfileManager F × F
  rpm_of_profile ops m pi noise base dt none = (m, base)
  rpm_of_profile ops m pi noise base dt (some p) = idle_rpm ops m pi noise base dt p

  unfoldable pub apply_rpm_profile :
      FloatOps F → ProfileManager F → F → F → F → F → ProfileManager F × F
  unfolding get_current_profile
  apply_rpm_profile ops m pi noise base dt =
      rpm_of_profile ops m pi noise base dt (get_current_profile m)

  abbrev unstable : Option (VehicleProfile F) → Bool
  unstable none = false
  unstable (some p) = p.unstable_idle

  unfoldable pub is_unstable_idle : ProfileManager F → Bool
  unfolding get_current_profile
  is_unstable_idle m = unstable (get_current_profile m)
