-- ===== src/Manufacturer/Profiles/Predefined.antt =====
-- src/simulation/vehicle_profile.cpp, the constructor with its ten profiles.
use mcp2515_rpi.Base.{ℕ, [], none}
use mcp2515_rpi.Base.Texts.{text}
use mcp2515_rpi.Manufacturer.Profiles.{FloatOps, ProfileManager, put_profile}
use mcp2515_rpi.Manufacturer.Profiles.Idle.{
  gm_normal_idle, gm_custom, gm_unstable_idle, gm_bad_o2_sensor,
}
use mcp2515_rpi.Manufacturer.Profiles.Engine.{gm_maf_fault, gm_coolant_fault, gm_misfire}
use mcp2515_rpi.Manufacturer.Profiles.Supply.{
  gm_low_battery, gm_fuel_pressure_fault, gm_emission_fail,
}

module _ {F : Type 0} where
  -- The constructor.
  unfoldable pub init : FloatOps F → (ℕ → F) → ProfileManager F
  unfolding put_profile gm_normal_idle gm_unstable_idle gm_bad_o2_sensor gm_maf_fault
      gm_coolant_fault gm_misfire gm_low_battery gm_fuel_pressure_fault gm_emission_fail gm_custom
  init ops garbage = record {
    profiles =
        put_profile
          (put_profile
            (put_profile
              (put_profile
                (put_profile
                  (put_profile
                    (put_profile
                      (put_profile
                        (put_profile (put_profile ([]) (text "normal") (gm_normal_idle ops garbage))
                          (text "unstable_idle") (gm_unstable_idle ops garbage))
                        (text "bad_o2") (gm_bad_o2_sensor ops garbage))
                      (text "maf_fault") (gm_maf_fault ops garbage))
                    (text "coolant_fault") (gm_coolant_fault ops garbage))
                  (text "misfire") (gm_misfire ops garbage))
                (text "low_battery") (gm_low_battery ops garbage))
              (text "fuel_pressure") (gm_fuel_pressure_fault ops garbage))
            (text "emission_fail") (gm_emission_fail ops garbage))
          (text "custom") (gm_custom ops garbage);
    current_profile = text "normal";
    idle_phase = none;
  }
