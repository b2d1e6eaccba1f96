-- ===== src/Program/Laws.antt =====
-- src/main.cpp: the profile of the program and of its control unit, and the requests through the REST API.
use mcp2515_rpi.Base.{
  ℕ, ◌≡◌, refl, ap, ◌∙◌, Bool, true, false, not, ◌&&◌, ◌||◌, Option, none, some, List,
  if◌then◌else◌, arith, inl, inr, Bool-cases, Option-cases,
}
use mcp2515_rpi.Base.Texts.{text, same_text}
use mcp2515_rpi.Manufacturer.{Ecu, clear_dtcs, set_profile, apply_profile_dtcs, profile_applied}
use mcp2515_rpi.Manufacturer.Profiles.{
  FloatOps, ProfileManager, find_profile, get_current_profile, select_profile, is_some,
  get_available_profiles,
}
use mcp2515_rpi.Manufacturer.Values.{set_odometer, reset_trip}
use mcp2515_rpi.Api.Rest.{Params, count_param}
use mcp2515_rpi.Program.{
  App, JsonOps, Reply, nothing, health, profile_names, route, switch_profile, asked_profile,
  sync_profile, post_profile, post_odometer, asked_odometer, trip_reset, moved, clear_codes,
  name_of, info_of, show_odometer, show_dtcs,
}

module _ {F : Type 0} where
  -- The control unit has the program's profiles, and the same one is current.
  abbrev pub Same : ProfileManager F → Option (Ecu F) → Type 0
  Same m none = Unit {0}
  Same m (some e) =
      (e.profile_manager.profiles ≡ m.profiles)
      × (e.profile_manager.current_profile ≡ m.current_profile)

  abbrev pub InSync : App F → Type 0
  InSync a = Same a.profile_manager a.current

  apply_keeps : (e : Ecu F) → (apply_profile_dtcs e).0.profile_manager ≡ e.profile_manager
  unfolding apply_profile_dtcs
  apply_keeps e = elim (Option-cases (get_current_profile e.profile_manager)) [
    | inl missing ↦ ground (arith, missing)
    | inr found ↦ ground (arith, found.1)
  ]

  -- A selection that succeeds, or one that fails, for a name that the profiles have or have not.
  selected :
      (m : ProfileManager F) (name : List ℕ)
      → is_some (find_profile m.profiles name) ≡ true
      → select_profile m name ≡ (record m { current_profile = name; idle_phase = none }, true)
  unfolding select_profile
  selected m name h = rw (h) refl

  refused :
      (m : ProfileManager F) (name : List ℕ)
      → is_some (find_profile m.profiles name) ≡ false
      → select_profile m name ≡ (m, false)
  unfolding select_profile
  refused m name h = rw (h) refl

  set_profile_lem :
      (e : Ecu F) (name : List ℕ)
      → is_some (find_profile e.profile_manager.profiles name) ≡ true
      → (set_profile e name).0.profile_manager
        ≡ record e.profile_manager { current_profile = name; idle_phase = none }
  unfolding set_profile
  set_profile_lem e name h =
      ap (λ r. (profile_applied e r).0.profile_manager) (selected e.profile_manager name h)
      ∙ apply_keeps (record e {
        profile_manager = record e.profile_manager { current_profile = name; idle_phase = none };
      })

  sync_Same :
      (m : ProfileManager F) (current : Option (Ecu F)) (name : List ℕ)
      → Same m current
      → is_some (find_profile m.profiles name) ≡ true
      → Same (record m { current_profile = name; idle_phase = none }) (sync_profile name current)
  sync_Same m none name h found = tt
  sync_Same m (some e) name h found =
      let e_found : is_some (find_profile e.profile_manager.profiles name) ≡ true =
        ap (λ profiles. is_some (find_profile profiles name)) h.0 ∙ found in
      rw (set_profile_lem e name e_found) (h.0, refl)

  switch-InSync : (a : App F) (name : List ℕ) → InSync a → InSync (switch_profile a name).0
  unfolding switch_profile
  switch-InSync a name h =
      elim (Bool-cases (is_some (find_profile a.profile_manager.profiles name))) [
        | inl found ↦
            rw (selected a.profile_manager name found, if◌then◌else◌)
              (sync_Same a.profile_manager a.current name h found)
        | inr missing ↦ rw (refused a.profile_manager name missing, if◌then◌else◌) h
      ]

  asked-InSync :
      (a : App F) (name : Option (Option (List ℕ))) → InSync a → InSync (asked_profile a name).0
  asked-InSync a none h = h
  asked-InSync a (some none) h = switch-InSync a (text "normal") h
  asked-InSync a (some (some name)) h = switch-InSync a name h

  odometer_keeps :
      (ops : FloatOps F) (e : Ecu F) (km : Option F)
      → (moved ops e km).profile_manager ≡ e.profile_manager
  unfolding set_odometer
  odometer_keeps ops e none = refl
  odometer_keeps ops e (some km) = refl

  trip-InSync :
      (ops : FloatOps F) (a : App F) (e : Ecu F) (trip : Option (Option Bool))
      → Same a.profile_manager (some e)
      → InSync (trip_reset ops a e trip).0
  unfolding reset_trip
  trip-InSync ops a e none h = h
  trip-InSync ops a e (some none) h = h
  trip-InSync ops a e (some (some false)) h = h
  trip-InSync ops a e (some (some true)) h = h

  odometer-InSync :
      (ops : FloatOps F) (a : App F) (e : Ecu F) (km : Option (Option F))
      (trip : Option (Option Bool))
      → InSync a
      → Same a.profile_manager (some e)
      → InSync (asked_odometer ops a e km trip).0
  odometer-InSync ops a e none trip h s = h
  odometer-InSync ops a e (some km) trip h s =
      trip-InSync ops a (moved ops e km) trip (rw (odometer_keeps ops e km) s)

  clear-InSync :
      (ops : FloatOps F) (a : App F) (current : Option (Ecu F))
      → InSync a
      → Same a.profile_manager current
      → InSync (clear_codes ops a current).0
  unfolding clear_dtcs
  clear-InSync ops a none h s = h
  clear-InSync ops a (some e) h s = s

  -- A reply that leaves the two in agreement.
  record Keeps (r : App F × Reply F) : Type 0 where
    agrees : InSync r.0

  Keeps-of : (r : App F × Reply F) → InSync r.0 → Keeps r
  Keeps-of r h = record { agrees = h }

  keeps : (a : App F) (reply : Reply F) → InSync a → Keeps (a, reply)
  keeps a reply h = record { agrees = h }

  either :
      (b : Bool) (x y : App F × Reply F)
      → Keeps x
      → Keeps y
      → Keeps (if◌then◌else◌ {A = App F × Reply F} b x y)
  either true x y hx hy = hx
  either false x y hx hy = hy

module _ {F J : Type 0} where
  post_profile-InSync :
      (json : JsonOps F J) (a : App F) (req : Option J)
      → InSync a
      → InSync (post_profile json a req).0
  post_profile-InSync json a none h = h
  post_profile-InSync json a (some req) h = asked-InSync a (json.name req) h

  post_odometer-InSync :
      (ops : FloatOps F) (json : JsonOps F J) (a : App F) (current : Option (Ecu F))
      (req : Option J)
      → InSync a
      → Same a.profile_manager current
      → InSync (post_odometer ops json a current req).0
  post_odometer-InSync ops json a none req h s = h
  post_odometer-InSync ops json a (some e) none h s = h
  post_odometer-InSync ops json a (some e) (some req) h s =
      odometer-InSync ops a e (json.odometer_km req) (json.reset_trip req) h s

  route-Keeps :
      (ops : FloatOps F) (json : JsonOps F J) (a : App F) (path method body : List ℕ)
      (params : Params)
      → InSync a
      → Keeps (route ops json a path method body params)
  unfolding route
  route-Keeps ops json a path method body params h =
      let get = same_text method (text "GET") in
      let post = same_text method (text "POST") in
      let same = λ (reply : Reply F). keeps a reply h in
      let clear =
        either (same_text path (text "/dtcs/clear") && post) _ _
          (Keeps-of (clear_codes ops a a.current) (clear-InSync ops a a.current h h))
          (same nothing) in
      let dtcs =
        either (same_text path (text "/dtcs") && get) _ _
          (same (show_dtcs (not (count_param params (text "all"))) a.current)) clear in
      let set_km =
        either (same_text path (text "/odometer") && post) _ _
          (Keeps-of (post_odometer ops json a a.current (json.parse body))
            (post_odometer-InSync ops json a a.current (json.parse body) h h))
          dtcs in
      let km =
        either (same_text path (text "/odometer") && get) _ _ (same (show_odometer a.current))
          set_km in
      let set_profile =
        either (same_text path (text "/profile") && post) _ _
          (Keeps-of (post_profile json a (json.parse body))
            (post_profile-InSync json a (json.parse body) h))
          km in
      let names =
        either (same_text path (text "/profiles") && get) _ _
          (same (profile_names (get_available_profiles a.profile_manager))) set_profile in
      let profile =
        either (same_text path (text "/profile") && get) _ _
          (same (info_of (get_current_profile a.profile_manager))) names in
      either (same_text path (text "/") || same_text path (text "/health")) _ _
        (same (health (name_of (get_current_profile a.profile_manager)) a.sim_time)) profile

  -- No request makes the program and its control unit disagree on the profiles or on the current one: where they
  -- agree before a call of the route handler, whatever its path, method, body and parameters, they agree after it.
  pub route-InSync :
      (ops : FloatOps F) (json : JsonOps F J) (a : App F) (path method body : List ℕ)
      (params : Params)
      → InSync a
      → InSync (route ops json a path method body params).0
  route-InSync ops json a path method body params h =
      (route-Keeps ops json a path method body params h).agrees
