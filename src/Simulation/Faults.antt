-- ===== src/Simulation/Faults.antt =====
-- src/simulation/fault_injector.hpp and fault_injector.cpp, FaultInjector. The two random draws are arguments.
use Prim.Native.String.{String}
use mcp2515_rpi.Base.{
  ℕ, zero, suc, ◌≡◌, ◌≢◌, refl, sym, ◌∙◌, Bool, true, false, not, ◌||◌, Option, none, some, List,
  [], ◌∷◌, ◌++◌, get_elem?, ◌==◌, if◌then◌else◌, arith, inl, inr, Bool-cases, ==_iff,
  true_not_false,
}
use mcp2515_rpi.Manufacturer.Profiles.{FloatOps, clamp}

pub record FaultConfig (F : Type 0) : Type 0 where
  pub code : ℕ
  pub description : String
  pub probability_weight : F

pub record FaultInjector (F : Type 0) : Type 0 where
  pub enabled : Bool
  pub probability : F
  pub faults : List (FaultConfig F)

no_some : (n : ℕ) → some n ≢ none
no_some n e = ground (arith, e)

module _ {F : Type 0} where
  unfoldable pub init : FloatOps F → FaultInjector F
  init ops = record { enabled = false; probability = ops.literal 0 1; faults = [] }

  unfoldable pub enable : FaultInjector F → Bool → FaultInjector F
  enable f on = record f { enabled = on }

  unfoldable pub set_probability : FloatOps F → FaultInjector F → F → FaultInjector F
  set_probability ops f prob = record f {
    probability = clamp ops prob (ops.literal 0 1) (ops.literal 1 1);
  }

  unfoldable pub add_dtc : FloatOps F → FaultInjector F → ℕ → String → FaultInjector F
  add_dtc ops f code description = record f {
    faults =
        f.faults
        ++ record { code = code; description = description; probability_weight = ops.literal 1 1 }
          ∷ [];
  }

  unfoldable pub without_code : List (FaultConfig F) → ℕ → List (FaultConfig F)
  without_code [] code = []
  without_code (f ∷ faults) code =
      let rest = without_code faults code in if f.code == code then rest else f ∷ rest

  unfoldable pub remove_dtc : FaultInjector F → ℕ → FaultInjector F
  unfolding without_code
  remove_dtc f code = record f { faults = without_code f.faults code }

  unfoldable pub clear_dtcs : FaultInjector F → FaultInjector F
  clear_dtcs f = record f { faults = [] }

  unfoldable pub set_faults : FaultInjector F → List (FaultConfig F) → FaultInjector F
  set_faults f faults = record f { faults = faults }

  abbrev is_empty : List (FaultConfig F) → Bool
  is_empty [] = true
  is_empty (f ∷ faults) = false

  abbrev code_of : Option (FaultConfig F) → Option ℕ
  code_of none = none
  code_of (some f) = some f.code

  -- The code that is triggered; `none` is the answer `false`. `index` is drawn between 0 and the last place.
  unfoldable pub should_trigger : FloatOps F → FaultInjector F → F → ℕ → Option ℕ
  should_trigger ops f draw index =
      if not f.enabled || is_empty f.faults
      then none
      else if ops.less f.probability draw
      then none
      else code_of (get_elem? f.faults index)

  unfoldable pub trigger_now : FaultInjector F → ℕ → FaultInjector F
  trigger_now f code = f

  pub has_code : List (FaultConfig F) → ℕ → Bool
  has_code [] code = false
  has_code (f ∷ faults) code = if f.code == code then true else has_code faults code

  without-has :
      (faults : List (FaultConfig F)) (code other : ℕ)
      → has_code (without_code faults code) other
        ≡ (if other == code then false else has_code faults other)
  unfolding has_code without_code
  without-has [] code other = ground arith
  without-has (f ∷ faults) code other = ground (arith, without-has faults code other)

  get_has :
      (faults : List (FaultConfig F)) (index code : ℕ)
      → code_of (get_elem? faults index) ≡ some code
      → has_code faults code ≡ true
  unfolding has_code
  get_has [] index code h = cc
  get_has (f ∷ faults) zero code h = ground (arith, h)
  get_has (f ∷ faults) (suc index) code h = ground (arith, get_has faults index code h)

  trigger_has :
      (ops : FloatOps F) (f : FaultInjector F) (draw : F) (index code : ℕ)
      → should_trigger ops f draw index ≡ some code
      → (f.enabled ≡ true) × (ops.less f.probability draw ≡ false) × (has_code f.faults code ≡ true)
  unfolding should_trigger
  trigger_has ops f draw index code h = elim (Bool-cases (not f.enabled || is_empty f.faults)) [
    | inl off ↦ absurd (no_some code (sym h ∙ rw (off, if◌then◌else◌) refl))
    | inr on ↦ elim (Bool-cases (ops.less f.probability draw)) [
      | inl above ↦ absurd (no_some code (sym h ∙ rw (on, if◌then◌else◌, above) refl))
      | inr within ↦ (
        ground (arith, on),
        within,
        get_has f.faults index code (sym (rw (on, if◌then◌else◌, within) refl) ∙ h),
      )
    ]
  ]

  kept_has :
      (faults : List (FaultConfig F)) (removed code : ℕ)
      → has_code (without_code faults removed) code ≡ true
      → (has_code faults code ≡ true) × (code ≢ removed)
  kept_has faults removed code h =
      let test = sym (without-has faults removed code) ∙ h in
      elim (Bool-cases (code == removed)) [
        | inl same ↦ absurd (true_not_false (sym test ∙ rw (same, if◌then◌else◌) refl))
        | inr other ↦ (
          sym (rw (other, if◌then◌else◌) refl) ∙ test,
          λ e. true_not_false (sym ((==_iff code removed).1 e) ∙ other),
        )
      ]

  nothing_left :
      (ops : FloatOps F) (f : FaultInjector F) (draw : F) (index : ℕ)
      → should_trigger ops (clear_dtcs f) draw index ≡ none
  unfolding should_trigger clear_dtcs
  nothing_left ops f draw index = ground arith

  -- A fault that is triggered needs an injector that is enabled, a draw not above the probability, and a configured
  -- code: no draw triggers a code that has been removed, or any code after a clear.
  pub should_trigger_lem :
      (ops : FloatOps F) (f : FaultInjector F) (draw : F) (index code removed : ℕ)
      → should_trigger ops (remove_dtc f removed) draw index ≡ some code
      → (f.enabled ≡ true)
        × (ops.less f.probability draw ≡ false)
        × (has_code f.faults code ≡ true)
        × (code ≢ removed)
        × (should_trigger ops (clear_dtcs f) draw index ≡ none)
  unfolding remove_dtc
  should_trigger_lem ops f draw index code removed h =
      let (on, within, found) = trigger_has ops (remove_dtc f removed) draw index code h in
      let (kept, other) = kept_has f.faults removed code found in
      (on, within, kept, other, nothing_left ops f draw index)
