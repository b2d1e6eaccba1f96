-- ===== src/Manufacturer/Profiles/Laws.antt =====
-- src/simulation/vehicle_profile.cpp: the range of the simulated engine speed, and the custom profile.
use mcp2515_rpi.Base.{
  ℕ, ◌≡◌, refl, ap, ◌∙◌, Bool, true, false, some, List, [], ◌∷◌, inl, inr, Bool-cases,
  if◌then◌else◌,
}
use mcp2515_rpi.Base.Texts.{text, same_text, same_text_refl, same_text-eq}
use mcp2515_rpi.Manufacturer.Profiles.{
  FloatOps, VehicleProfile, ProfileManager, find_profile, get_current_profile, select_profile,
  put_profile, apply_custom_profile, apply_rpm_profile, clamp, is_some,
}

module _ {F : Type 0} where
  clamp_lem :
      (ops : FloatOps F) (v low high : F)
      → ((x : F) → ops.less x x ≡ false)
      → ops.less high low ≡ false
      → (ops.less (clamp ops v low high) low ≡ false)
        × (ops.less high (clamp ops v low high) ≡ false)
  clamp_lem ops v low high irreflexive ordered = elim (Bool-cases (ops.less v low)) [
    | inl under ↦ rw (under, if◌then◌else◌) (irreflexive low, ordered)
    | inr above ↦ elim (Bool-cases (ops.less high v)) [
      | inl over ↦ rw (above, if◌then◌else◌, over) (ordered, irreflexive high)
      | inr inside ↦ rw (above, if◌then◌else◌, inside) (above, inside)
    ]
  ]

  -- Where comparison is irreflexive and a profile's lowest idle speed is not above its highest driving speed, the
  -- simulated speed lies between the two for every base speed, draw, time step and phase.
  pub apply_rpm_profile_lem :
      (ops : FloatOps F) (m : ProfileManager F) (p : VehicleProfile F) (pi noise base dt : F)
      → get_current_profile m ≡ some p
      → ((x : F) → ops.less x x ≡ false)
      → ops.less p.rpm_drive_max p.rpm_idle_min ≡ false
      → (ops.less (apply_rpm_profile ops m pi noise base dt).1 p.rpm_idle_min ≡ false)
        × (ops.less p.rpm_drive_max (apply_rpm_profile ops m pi noise base dt).1 ≡ false)
  unfolding apply_rpm_profile
  apply_rpm_profile_lem ops m p pi noise base dt current irreflexive ordered =
      rw (current) (elim (Bool-cases p.unstable_idle) [
        | inl moving ↦
            rw (moving, if◌then◌else◌)
              (clamp_lem ops _ p.rpm_idle_min p.rpm_drive_max irreflexive ordered)
        | inr still ↦
            rw (still, if◌then◌else◌)
              (clamp_lem ops base p.rpm_idle_min p.rpm_drive_max irreflexive ordered)
      ])

  find-put :
      (profiles : List (List ℕ × VehicleProfile F)) (name : List ℕ) (p : VehicleProfile F)
      → find_profile (put_profile profiles name p) name ≡ some p
  unfolding find_profile put_profile
  find-put [] name p = rw (same_text_refl name, if◌then◌else◌) refl
  find-put ((n, q) ∷ rest) name p = elim (Bool-cases (same_text n name)) [
    | inl found ↦ rw (found, if◌then◌else◌, found) refl
    | inr other ↦ rw (other, if◌then◌else◌, other) (find-put rest name p)
  ]

  find-put_other :
      (profiles : List (List ℕ × VehicleProfile F)) (name other : List ℕ) (p : VehicleProfile F)
      → same_text name other ≡ false
      → find_profile (put_profile profiles name p) other ≡ find_profile profiles other
  unfolding find_profile put_profile
  find-put_other [] name other p h = rw (h, if◌then◌else◌) refl
  find-put_other ((n, q) ∷ rest) name other p h = elim (Bool-cases (same_text n name)) [
    | inl found ↦
        let e : same_text n other ≡ false =
          ap (λ t. same_text t other) (same_text-eq n name found) ∙ h in
        rw (found, if◌then◌else◌, e) refl
    | inr apart ↦ elim (Bool-cases (same_text n other)) [
      | inl here ↦ rw (apart, if◌then◌else◌, here) refl
      | inr there ↦ rw (apart, if◌then◌else◌, there) (find-put_other rest name other p h)
    ]
  ]

  same_answer :
      (b : Bool) (m n k l : ProfileManager F)
      → (if◌then◌else◌ {A = ProfileManager F × Bool} b (m, true) (n, false)).1
        ≡ (if◌then◌else◌ {A = ProfileManager F × Bool} b (k, true) (l, false)).1
  same_answer true m n k l = refl
  same_answer false m n k l = refl

  -- A custom profile is current after it is applied and selected, whatever profiles there were; a selection of any
  -- other name finds the same profile, or none, as before.
  pub custom_profile_lem :
      (m : ProfileManager F) (p : VehicleProfile F) (other : List ℕ)
      → same_text (text "custom") other ≡ false
      → (get_current_profile (select_profile (apply_custom_profile m p).0 (text "custom")).0
          ≡ some p)
        × ((select_profile (apply_custom_profile m p).0 (text "custom")).1 ≡ true)
        × ((select_profile (apply_custom_profile m p).0 other).1 ≡ (select_profile m other).1)
        × (find_profile (apply_custom_profile m p).0.profiles other ≡ find_profile m.profiles other)
  unfolding get_current_profile select_profile apply_custom_profile
  custom_profile_lem m p other h =
      let found = find-put m.profiles (text "custom") p in
      let same = find-put_other m.profiles (text "custom") other p h in
      (
        rw (found, is_some, if◌then◌else◌, found) refl,
        rw (found) refl,
        rw (same) (same_answer (is_some (find_profile m.profiles other)) _ _ _ _),
        same,
      )
