-- ===== src/Manufacturer.antt =====
-- src/manufacturers/base.hpp and base.cpp, BaseManufacturer: one emulated control unit. A `float` is a value of
-- any type `F` with the operations of `FloatOps`, which stand for the machine's. `sent` lists the frames handed
-- to the CAN manager's `sendFrame`, in order. Texts are ASCII codes.
pub mod Profiles
pub mod Pids
pub mod Modes
pub mod Uds
pub mod Makes
pub mod OwnServices
pub mod Values
pub mod Laws
pub mod Samples
mod Runs
use Prim.Native.String.{String}
use mcp2515_rpi.Base.{
  ℕ, zero, suc, ◌+◌, Bool, true, false, not, ◌&&◌, ◌||◌, Option, none, some, List, [], ◌∷◌, ◌++◌,
  u8, ltb, ◌==◌, get_or, set, if◌then◌else◌,
}
use mcp2515_rpi.Can.{CanFrame, make_frame}
use mcp2515_rpi.Session.{SessionManager, lock, change_session, default_session}
use Profiles.{ProfileManager, VehicleProfile, get_current_profile, select_profile}

pub record DtcInfo : Type 0 where
  pub code : ℕ
  pub description : String
  pub is_pending : Bool
  pub is_permanent : Bool
  pub severity : String

pub record FreezeFrame (F : Type 0) : Type 0 where
  pub dtc_code : ℕ
  pub pid_values : List (ℕ × F)
  pub timestamp : ℕ

pub record CalibrationInfo : Type 0 where
  pub cvn : ℕ
  pub calibration_id : List ℕ

-- A parameter's number, and whether its formula's text mentions 256; the rest of the entry is for display.
pub record PidEntry : Type 0 where
  pub pid : ℕ
  pub formula_mentions_256 : Bool

pub record Ecu (F : Type 0) : Type 0 where
  pub rx_id : ℕ
  pub tx_id : ℕ
  pub functional_id : ℕ
  pub session_manager : SessionManager
  pub engine_rpm : F
  pub vehicle_speed : F
  pub coolant_temp : F
  pub intake_temp : F
  pub maf : F
  pub throttle_pos : F
  pub o2_voltage : List F
  pub fuel_pressure : F
  pub fuel_level : F
  pub timing_advance : F
  pub intake_pressure : F
  pub battery_voltage : F
  pub run_time : F
  pub distance_with_mil : F
  pub distance_since_clear : F
  pub odometer_km : F
  pub trip_km : F
  pub profile_manager : ProfileManager F
  pub vin : List ℕ
  pub calibration : CalibrationInfo
  pub ecu_serial : ℕ
  pub dtcs : List DtcInfo
  pub freeze_frames : List (FreezeFrame F)
  pub pid_table : List PidEntry
  pub sent : List CanFrame

-- The active entries, or all.
abbrev active_of : List DtcInfo → List DtcInfo
active_of [] = []
active_of (d ∷ ds) = let rest = active_of ds in if not d.is_pending then d ∷ rest else rest

unfoldable pub set_dtc : List DtcInfo → ℕ → String → Bool → List DtcInfo
set_dtc [] code description pending =
    record {
      code = code;
      description = description;
      is_pending = pending;
      is_permanent = false;
      severity = "minor";
    }
    ∷ []
set_dtc (d ∷ ds) code description pending =
    let rest = set_dtc ds code description pending in
    if d.code == code then record d { is_pending = pending } ∷ ds else d ∷ rest

abbrev pub is_code_of : ℕ → List ℕ → Bool
is_code_of code [] = false
is_code_of code (c ∷ cs) = if code == c then true else is_code_of code cs

-- The first loop of `applyProfileDTCs`.
pub drop_codes : List ℕ → List DtcInfo → List DtcInfo
drop_codes codes [] = []
drop_codes codes (d ∷ ds) =
    let rest = drop_codes codes ds in if is_code_of d.code codes then rest else d ∷ rest

-- The second loop, over the codes and the descriptions from one index on.
pub set_codes : List DtcInfo → List ℕ → List String → List DtcInfo
unfolding set_dtc
set_codes dtcs [] descriptions = dtcs
set_codes dtcs (c ∷ cs) [] = set_codes (set_dtc dtcs c "Profile fault" false) cs []
set_codes dtcs (c ∷ cs) (text ∷ texts) = set_codes (set_dtc dtcs c text false) cs texts

abbrev replace_codes : List DtcInfo → List ℕ → List String → List DtcInfo
replace_codes dtcs codes descriptions = set_codes (drop_codes codes dtcs) codes descriptions

module _ {F : Type 0} where
  unfoldable pub send_response : Ecu F → ℕ → List ℕ → Ecu F
  unfolding make_frame
  send_response e id payload = record e { sent = e.sent ++ make_frame id payload false ∷ [] }

  unfoldable pub send_positive_response : Ecu F → ℕ → List ℕ → Ecu F
  unfolding send_response
  send_positive_response e service payload = send_response e e.rx_id (u8 (service + 0x40) ∷ payload)

  unfoldable pub send_negative_response : Ecu F → ℕ → ℕ → Ecu F
  unfolding send_response
  send_negative_response e service nrc = send_response e e.rx_id (0x7F ∷ service ∷ nrc ∷ [])

  unfoldable pub get_dtcs : Ecu F → Bool → List DtcInfo
  get_dtcs e only_active = if only_active then active_of e.dtcs else e.dtcs

  unfoldable pub clear_dtcs : F → Ecu F → Ecu F
  clear_dtcs zero_float e = record e {
    dtcs = [];
    freeze_frames = [];
    distance_since_clear = zero_float;
  }

  unfoldable pub apply_profile_dtcs : Ecu F → Ecu F × Bool
  unfolding set_codes drop_codes get_current_profile
  apply_profile_dtcs e = elim (get_current_profile e.profile_manager) [
    | none ↦ (e, false)
    | some profile ↦ (
      record e { dtcs = replace_codes e.dtcs profile.active_dtcs profile.dtc_descriptions },
      true,
    )
  ]

  abbrev pub profile_applied : Ecu F → ProfileManager F × Bool → Ecu F × Bool
  profile_applied e (m, false) = (e, false)
  profile_applied e (m, true) = ((apply_profile_dtcs (record e { profile_manager = m })).0, true)

  unfoldable pub set_profile : Ecu F → List ℕ → Ecu F × Bool
  unfolding apply_profile_dtcs select_profile
  set_profile e name = profile_applied e (select_profile e.profile_manager name)

  -- `literal` makes the floats that the source writes: 0, 95 and 12.6.
  unfoldable pub reset : (ℕ → ℕ → F) → ℕ → Ecu F → Ecu F
  unfolding lock change_session
  reset literal now e = record e {
    dtcs = [];
    freeze_frames = [];
    session_manager = (change_session (lock e.session_manager) now default_session).0;
    engine_rpm = literal 0 1;
    vehicle_speed = literal 0 1;
    coolant_temp = literal 95 1;
    battery_voltage = literal 126 10;
  }
