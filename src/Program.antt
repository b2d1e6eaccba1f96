-- ===== src/Program.antt =====
-- src/main.cpp: the state of the program, its choices at the start and the routes of the REST API. The JSON library
-- is an argument: `JsonOps` reads the requests, and a reply is a value that `dump` makes a text of.
pub mod Loop
pub mod Laws
pub mod Requests
pub mod Start
mod Runs
use Prim.Native.String.{String}
use mcp2515_rpi.Base.{
  ℕ, Bool, true, false, not, ◌&&◌, ◌||◌, Option, none, some, List, [], ◌∷◌, if◌then◌else◌,
}
use mcp2515_rpi.Base.Texts.{text, same_text}
use mcp2515_rpi.Router.{
  Manufacturer, ProtocolRouter, Implementation, select_manufacturer, string_to_manufacturer,
}
use mcp2515_rpi.Manufacturer.{Ecu, DtcInfo, get_dtcs, clear_dtcs, set_profile}
use mcp2515_rpi.Manufacturer.Profiles.{
  FloatOps, VehicleProfile, ProfileManager, get_current_profile, select_profile,
  get_available_profiles,
}
use mcp2515_rpi.Manufacturer.Values.{set_odometer, reset_trip}
use mcp2515_rpi.Simulation.DrivingCycle.{DrivingCycle}
use mcp2515_rpi.Simulation.Sensors.{SensorSimulator}
use mcp2515_rpi.Simulation.Environment.{EnvironmentSimulator}
use mcp2515_rpi.Simulation.Faults.{FaultInjector}
use mcp2515_rpi.Logging.Metrics.{Metrics}
use mcp2515_rpi.Logging.Logger.{CanLogger}
use mcp2515_rpi.Api.Rest.{Params, count_param}

-- `current` is the control unit that `router->getCurrentImplementation()` points to.
pub record App (F : Type 0) : Type 0 where
  pub profile_manager : ProfileManager F
  pub current : Option (Ecu F)
  pub sensor_sim : SensorSimulator F
  pub driving_cycle : DrivingCycle F
  pub fault_injector : FaultInjector F
  pub env_sim : EnvironmentSimulator F
  pub metrics : Metrics F
  pub logger : CanLogger
  pub sim_time : F
  pub odo_accum : F

-- What the routes ask of a parsed text. `none` is an exception; a key that is absent has the inner `none`.
pub record JsonOps (F : Type 0) (J : Type 0) : Type 0 where
  pub parse : List ℕ → Option J
  pub name : J → Option (Option (List ℕ))
  pub odometer_km : J → Option (Option F)
  pub reset_trip : J → Option (Option Bool)

-- `nothing` is the empty text, which the caller turns into a 404; `failed` is the text of an exception.
pub data Reply (F : Type 0) : Type 0 where
  nothing failed : Reply F
  health : List ℕ → F → Reply F
  profile_info : VehicleProfile F → Reply F
  profile_names : List (List ℕ) → Reply F
  unknown_profile : List ℕ → Reply F
  profile_selected : List ℕ → Reply F
  odometer : F → F → Reply F
  odometer_set : F → F → Reply F
  dtc_list : List DtcInfo → Reply F
  cleared : Reply F

-- The make of the configuration, or else Chevrolet.
unfoldable pub start_manufacturer :
    {I : Type 0} → Implementation I → ProtocolRouter I → List ℕ → ProtocolRouter I
unfolding select_manufacturer string_to_manufacturer
start_manufacturer ops r active =
    let chosen = select_manufacturer ops r (string_to_manufacturer active) in
    if chosen.1 then chosen.0 else (select_manufacturer ops r Manufacturer.chevrolet).0

module _ {F : Type 0} where
  -- The profile of the configuration, or else the normal one.
  unfoldable pub start_profile : ProfileManager F → List ℕ → ProfileManager F
  unfolding select_profile
  start_profile m name =
      if (select_profile m name).1
      then (select_profile m name).0
      else (select_profile m (text "normal")).0

  abbrev pub name_of : Option (VehicleProfile F) → List ℕ
  name_of none = text "none"
  name_of (some p) = p.name

  abbrev pub info_of : Option (VehicleProfile F) → Reply F
  info_of none = nothing
  info_of (some p) = profile_info p

  abbrev pub sync_profile : List ℕ → Option (Ecu F) → Option (Ecu F)
  sync_profile name none = none
  sync_profile name (some e) = some (set_profile e name).0

  -- POST /profile with the name it asks for.
  unfoldable pub switch_profile : App F → List ℕ → App F × Reply F
  switch_profile a name =
      if (select_profile a.profile_manager name).1
      then (
        record a {
          profile_manager = (select_profile a.profile_manager name).0;
          current = sync_profile name a.current;
        },
        profile_selected name,
      )
      else (a, unknown_profile name)

  abbrev pub asked_profile : App F → Option (Option (List ℕ)) → App F × Reply F
  asked_profile a none = (a, failed)
  asked_profile a (some none) = switch_profile a (text "normal")
  asked_profile a (some (some name)) = switch_profile a name

  abbrev pub show_odometer : Option (Ecu F) → Reply F
  show_odometer none = nothing
  show_odometer (some e) = odometer e.odometer_km e.trip_km

  abbrev pub moved : FloatOps F → Ecu F → Option F → Ecu F
  moved ops e none = e
  moved ops e (some km) = set_odometer ops e km

  abbrev pub trip_reset : FloatOps F → App F → Ecu F → Option (Option Bool) → App F × Reply F
  trip_reset ops a e none = (record a { current = some e }, failed)
  trip_reset ops a e (some none) =
      (record a { current = some e }, odometer_set e.odometer_km e.trip_km)
  trip_reset ops a e (some (some false)) =
      (record a { current = some e }, odometer_set e.odometer_km e.trip_km)
  trip_reset ops a e (some (some true)) =
      let r = reset_trip ops e in
      (record a { current = some r }, odometer_set r.odometer_km r.trip_km)

  -- The kilometres are set before the trip is looked at.
  abbrev pub asked_odometer :
      FloatOps F → App F → Ecu F → Option (Option F) → Option (Option Bool) → App F × Reply F
  asked_odometer ops a e none trip = (a, failed)
  asked_odometer ops a e (some km) trip = trip_reset ops a (moved ops e km) trip

  abbrev pub show_dtcs : Bool → Option (Ecu F) → Reply F
  show_dtcs only_active none = nothing
  show_dtcs only_active (some e) = dtc_list (get_dtcs e only_active)

  abbrev pub clear_codes : FloatOps F → App F → Option (Ecu F) → App F × Reply F
  clear_codes ops a none = (a, nothing)
  clear_codes ops a (some e) =
      (record a { current = some (clear_dtcs (ops.literal 0 1) e) }, cleared)

module _ {F J : Type 0} where
  abbrev pub post_profile : JsonOps F J → App F → Option J → App F × Reply F
  post_profile json a none = (a, failed)
  post_profile json a (some req) = asked_profile a (json.name req)

  abbrev pub post_odometer :
      FloatOps F → JsonOps F J → App F → Option (Ecu F) → Option J → App F × Reply F
  post_odometer ops json a none req = (a, nothing)
  post_odometer ops json a (some e) none = (a, failed)
  post_odometer ops json a (some e) (some req) =
      asked_odometer ops a e (json.odometer_km req) (json.reset_trip req)

  -- The route handler.
  unfoldable pub route :
      FloatOps F → JsonOps F J → App F → List ℕ → List ℕ → List ℕ → Params → App F × Reply F
  unfolding switch_profile
  route ops json a path method body params =
      let get = same_text method (text "GET") in
      let post = same_text method (text "POST") in
      if same_text path (text "/") || same_text path (text "/health")
      then (a, health (name_of (get_current_profile a.profile_manager)) a.sim_time)
      else if same_text path (text "/profile") && get
      then (a, info_of (get_current_profile a.profile_manager))
      else if same_text path (text "/profiles") && get
      then (a, profile_names (get_available_profiles a.profile_manager))
      else if same_text path (text "/profile") && post
      then post_profile json a (json.parse body)
      else if same_text path (text "/odometer") && get
      then (a, show_odometer a.current)
      else if same_text path (text "/odometer") && post
      then post_odometer ops json a a.current (json.parse body)
      else if same_text path (text "/dtcs") && get
      then (a, show_dtcs (not (count_param params (text "all"))) a.current)
      else if same_text path (text "/dtcs/clear") && post
      then clear_codes ops a a.current
      else (a, nothing)
