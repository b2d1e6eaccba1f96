-- ===== src/Diagnostics/Readiness.antt =====
-- src/diagnostics/readiness.hpp and readiness.cpp, ReadinessMonitor. The two arrays of eight are lists.
use mcp2515_rpi.Base.{
  dec_lt, ℕ, zero, suc, ◌+◌, ◌-◌, ◌<◌, ◌≡◌, ◌↔◌, refl, Bool, true, false, not, ◌&&◌, List, [], ◌∷◌,
  arith, ltb, leb, ◌==◌, length, set, length-set, get_or-set_same, get_or-set_other, get_or,
  replicate, bit_or, ◌<<◌, if◌then◌else◌,
}
use Prim.Native.String.{String}

pub record MonitorStatus : Type 0 where
  pub name : String
  pub supported : Bool
  pub complete : Bool

pub record ReadinessMonitor : Type 0 where
  pub supported : List Bool
  pub complete : List Bool

unfoldable pub reset : ReadinessMonitor
reset = record { supported = replicate 8 true; complete = replicate 8 true }

unfoldable pub set_supported : ReadinessMonitor → ℕ → Bool → ReadinessMonitor
set_supported r id v = if ltb id 8 then record r { supported = set r.supported id v } else r

pub set_complete : ReadinessMonitor → ℕ → Bool → ReadinessMonitor
set_complete r id v = if ltb id 8 then record r { complete = set r.complete id v } else r

pub is_supported : ReadinessMonitor → ℕ → Bool
is_supported r id = if leb 8 id then false else get_or r.supported id false

pub is_complete : ReadinessMonitor → ℕ → Bool
is_complete r id = if leb 8 id then false else get_or r.complete id false

abbrev names : List String
names =
    "Misfire" ∷ "Fuel System" ∷ "Components" ∷ "Catalyst" ∷ "Heated Catalyst" ∷ "EVAP System"
    ∷ "Secondary Air" ∷ "AC System" ∷ []

pub monitor_name : ℕ → String
monitor_name id = if ltb id 8 then get_or names id "Unknown" else "Unknown"

-- The loops of `getAllMonitors`, `getOBDStatus` and `allComplete` from index `i`, over the two arrays.
monitors_from : ℕ → List Bool → List Bool → List MonitorStatus
unfolding monitor_name
monitors_from i (s ∷ ss) (c ∷ cs) =
    let rest = monitors_from (i + 1) ss cs in
    if s then record { name = monitor_name i; supported = true; complete = c } ∷ rest else rest
monitors_from i _ _ = []

unfoldable pub get_all_monitors : ReadinessMonitor → List MonitorStatus
unfolding monitors_from
get_all_monitors r = monitors_from 0 r.supported r.complete

status_from : ℕ → List Bool → List Bool → ℕ → ℕ
status_from i (s ∷ ss) (c ∷ cs) b1 =
    status_from (i + 1) ss cs (if s && c then bit_or b1 (1 << (7 - i)) else b1)
status_from i _ _ b1 = b1

unfoldable pub get_obd_status : ReadinessMonitor → List ℕ
unfolding status_from
get_obd_status r = status_from 0 r.supported r.complete 0 ∷ 0x07 ∷ 0xFF ∷ 0x00 ∷ 0x00 ∷ []

complete_from : List Bool → List Bool → Bool
complete_from (s ∷ ss) (c ∷ cs) = if s && not c then false else complete_from ss cs
complete_from _ _ = true

pub all_complete : ReadinessMonitor → Bool
unfolding complete_from
all_complete r = complete_from r.supported r.complete

-- The arrays have eight entries.
unfoldable pub Sized : ReadinessMonitor → Type 0
Sized r = (length r.supported ≡ 8) × (length r.complete ≡ 8)

-- A monitor that is set as complete or not reads back as set, ids from 8 on are ignored, no other monitor
-- changes, the supported flags stay, and the arrays keep their size.
pub complete-set_complete :
    (r : ReadinessMonitor) (id other : ℕ) (v : Bool)
    → Sized r
    → Sized (set_complete r id v)
      × (is_complete (set_complete r id v) other
          ≡ (if other == id then v && ltb id 8 else is_complete r other))
      × (is_supported (set_complete r id v) other ≡ is_supported r other)
unfolding Sized set_complete is_complete is_supported dec_lt
complete-set_complete r id other v (hs, hc) = elim (dec_lt id 8) [
  | yes small ↦ ground (
    arith,
    hs,
    hc,
    length-set r.complete id v,
    get_or-set_same r.complete id v false,
    get_or-set_other r.complete id other v false,
  )
  | no large ↦ ground (arith, hs, hc)
]

-- Every entry that `ss` has set is set in `cs`.
abbrev Covers : List Bool → List Bool → Type 0
Covers ss cs = (i : ℕ) → i < length ss → get_or ss i false ≡ true → get_or cs i false ≡ true

Covers-cons :
    (s c : Bool) (ss cs : List Bool)
    → (s ≡ true → c ≡ true)
    → Covers ss cs
    → Covers (s ∷ ss) (c ∷ cs)
Covers-cons s c ss cs first rest zero h e = first e
Covers-cons s c ss cs first rest (suc i) h e = rest i (omega arith) e

Covers-tail : (s c : Bool) (ss cs : List Bool) → Covers (s ∷ ss) (c ∷ cs) → Covers ss cs
Covers-tail s c ss cs all i h e = all (suc i) (omega arith) e

complete_from-Covers :
    (ss cs : List Bool) → length ss ≡ length cs → (complete_from ss cs ≡ true) ↔ Covers ss cs
unfolding complete_from
complete_from-Covers [] cs e = (λ h i lt given. absurd (omega (arith, lt)), λ h. refl)
complete_from-Covers (s ∷ ss) [] e = absurd (omega (arith, e))
complete_from-Covers (false ∷ ss) (c ∷ cs) e =
    let rest = complete_from-Covers ss cs (omega (arith, e)) in
    (
      λ h. Covers-cons false c ss cs (λ b. ground (arith, b)) (rest.0 h),
      λ h. rest.1 (Covers-tail false c ss cs h),
    )
complete_from-Covers (true ∷ ss) (true ∷ cs) e =
    let rest = complete_from-Covers ss cs (omega (arith, e)) in
    (
      λ h. Covers-cons true true ss cs (λ b. b) (rest.0 h),
      λ h. rest.1 (Covers-tail true true ss cs h),
    )
complete_from-Covers (true ∷ ss) (false ∷ cs) e =
    (λ h. absurd (ground (arith, h)), λ h. h 0 (omega arith) refl)

-- `allComplete` holds exactly when every supported monitor of the eight is complete.
pub all_complete_iff :
    (r : ReadinessMonitor)
    → Sized r
    → (all_complete r ≡ true)
      ↔ ((id : ℕ) → id < 8 → is_supported r id ≡ true → is_complete r id ≡ true)
unfolding Sized all_complete is_supported is_complete
all_complete_iff r (hs, hc) =
    let all = complete_from-Covers r.supported r.complete (omega (arith, hs, hc)) in
    (
      λ done id h given. ground (arith, all.0 done id (omega (arith, hs))),
      λ given. all.1 (λ i h e. ground (arith, given i, hs)),
    )
