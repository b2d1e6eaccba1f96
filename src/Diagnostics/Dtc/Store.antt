-- ===== src/Diagnostics/Dtc/Store.antt =====
-- DTCManager as a map from codes to entries.
use mcp2515_rpi.Base.{
  ℕ, ◌+◌, ◌≡◌, ap, subst, ◌≢◌, inl, inr, refl, Bool, Option, none, some, [], ◌∷◌, arith, length,
  ◌==◌, ==_iff, if◌then◌else◌, Bool-cases, at_or_else, ◌∙◌, Option-cases,
}
use mcp2515_rpi.Diagnostics.Dtc.{
  Severity, Dtc, DtcManager, get_dtc, modify, again, new_dtc, add_dtc, remove_dtc, select,
  clear_active, clear_pending, get_active_dtcs, get_pending_dtcs, count,
}
use Prim.Native.String.{String}

-- A change that keeps the code.
KeepsCode : (Dtc → Dtc) → Type 0
KeepsCode f = (d : Dtc) → (f d).code ≡ d.code

some_inj : (x d : Dtc) → some x ≡ some d → x ≡ d
some_inj x d e = ap (λ (o : Option Dtc). elim o [ none ↦ x | some y ↦ y ]) e

get-modify_same :
    (f : Dtc → Dtc) (code : ℕ) (m : DtcManager) (d : Dtc)
    → KeepsCode f
    → get_dtc m code ≡ some d
    → get_dtc (modify f code m) code ≡ some (f d)
unfolding get_dtc modify KeepsCode
get-modify_same f code [] d keeps h = ground (arith, h)
get-modify_same f code (x ∷ m) d keeps h =
    ground (arith, keeps x, get-modify_same f code m d keeps, h, some_inj x d)

get-modify_other :
    (f : Dtc → Dtc) (code other : ℕ) (m : DtcManager)
    → KeepsCode f
    → other ≢ code
    → get_dtc (modify f code m) other ≡ get_dtc m other
unfolding get_dtc modify KeepsCode
get-modify_other f code other [] keeps h = refl
get-modify_other f code other (x ∷ m) keeps h =
    ground (arith, keeps x, get-modify_other f code other m keeps h)

-- The entry that an addition leaves under its code.
pub added : ℕ → ℕ → String → Severity → Bool → Option Dtc → Dtc
added now code desc sev pending none = new_dtc now code desc sev pending
added now code desc sev pending (some d) = again now pending d

get-add_dtc_same :
    (m : DtcManager) (now code : ℕ) (desc : String) (sev : Severity) (pending : Bool)
    → get_dtc (add_dtc m now code desc sev pending) code
      ≡ some (added now code desc sev pending (get_dtc m code))
unfolding add_dtc added get_dtc KeepsCode
get-add_dtc_same m now code desc sev pending = elim (Option-cases (get_dtc m code)) [
  | inl absent ↦ rw (add_dtc, absent, if◌then◌else◌) (ground arith)
  | inr (d, found) ↦
      rw (add_dtc, found, if◌then◌else◌)
        (get-modify_same (again now pending) code m d (λ d. refl) found)
]

get-add_dtc_other :
    (m : DtcManager) (now code other : ℕ) (desc : String) (sev : Severity) (pending : Bool)
    → other ≢ code
    → get_dtc (add_dtc m now code desc sev pending) other ≡ get_dtc m other
unfolding add_dtc get_dtc KeepsCode
get-add_dtc_other m now code other desc sev pending differs = elim (Option-cases (get_dtc m code)) [
  | inl absent ↦ rw (add_dtc, absent, if◌then◌else◌) (ground arith)
  | inr (d, found) ↦
      rw (add_dtc, found, if◌then◌else◌)
        (get-modify_other (again now pending) code other m (λ d. refl) differs)
]

-- After an addition the code has its earlier entry with the count one higher, modulo 2 ^ 32, or else a
-- new entry with count 1, and every other code has what it had.
pub get-add_dtc :
    (m : DtcManager) (now code other : ℕ) (desc : String) (sev : Severity) (pending : Bool)
    → get_dtc (add_dtc m now code desc sev pending) other ≡ (
        if other == code
        then some (added now code desc sev pending (get_dtc m code))
        else get_dtc m other)
get-add_dtc m now code other desc sev pending =
    at_or_else other code _ _ _
      (λ e.
        ap (get_dtc (add_dtc m now code desc sev pending)) e
        ∙ get-add_dtc_same m now code desc sev pending)
      (get-add_dtc_other m now code other desc sev pending)

-- No code has two entries.
unfoldable pub Distinct : DtcManager → Type 0
Distinct [] = Unit
Distinct (d ∷ m) = (get_dtc m d.code ≡ none) × Distinct m

get-modify-none :
    (f : Dtc → Dtc) (code other : ℕ) (m : DtcManager)
    → KeepsCode f
    → get_dtc m other ≡ none
    → get_dtc (modify f code m) other ≡ none
unfolding get_dtc modify KeepsCode
get-modify-none f code other [] keeps h = refl
get-modify-none f code other (x ∷ m) keeps h =
    ground (arith, keeps x, get-modify-none f code other m keeps)

modify-Distinct :
    (f : Dtc → Dtc) (code : ℕ) (m : DtcManager)
    → KeepsCode f
    → Distinct m
    → Distinct (modify f code m)
unfolding modify KeepsCode Distinct
modify-Distinct f code [] keeps h = h
modify-Distinct f code (x ∷ m) keeps (h, hs) = elim (Bool-cases (x.code == code)) [
  | inl e ↦ rw (e, if◌then◌else◌, keeps x) (h, hs)
  | inr e ↦
      rw (e, if◌then◌else◌)
        (get-modify-none f code x.code m keeps h, modify-Distinct f code m keeps hs)
]

-- An addition keeps the codes distinct.
pub add_dtc-Distinct :
    (m : DtcManager) (now code : ℕ) (desc : String) (sev : Severity) (pending : Bool)
    → Distinct m
    → Distinct (add_dtc m now code desc sev pending)
unfolding add_dtc Distinct KeepsCode
add_dtc-Distinct m now code desc sev pending h = elim (Option-cases (get_dtc m code)) [
  | inl absent ↦ rw (absent, if◌then◌else◌) (absent, h)
  | inr (d, found) ↦
      rw (found, if◌then◌else◌) (modify-Distinct (again now pending) code m (λ d. refl) h)
]

remove-get_none :
    (m : DtcManager) (code other : ℕ)
    → get_dtc m other ≡ none
    → get_dtc (remove_dtc m code) other ≡ none
unfolding get_dtc remove_dtc
remove-get_none [] code other h = refl
remove-get_none (d ∷ m) code other h = ground (arith, remove-get_none m code other)

remove_dtc-Distinct : (m : DtcManager) (code : ℕ) → Distinct m → Distinct (remove_dtc m code)
unfolding remove_dtc Distinct
remove_dtc-Distinct [] code h = h
remove_dtc-Distinct (d ∷ m) code (h, hs) = elim (Bool-cases (d.code == code)) [
  | inl e ↦ rw (e, if◌then◌else◌) hs
  | inr e ↦ rw (e, if◌then◌else◌) (remove-get_none m code d.code h, remove_dtc-Distinct m code hs)
]

get-remove_same : (m : DtcManager) (code : ℕ) → Distinct m → get_dtc (remove_dtc m code) code ≡ none
unfolding get_dtc remove_dtc Distinct
get-remove_same [] code h = refl
get-remove_same (d ∷ m) code (h, hs) = elim (Bool-cases (d.code == code)) [
  | inl e ↦ rw (e, if◌then◌else◌) (subst (λ c. get_dtc m c ≡ none) ((==_iff d.code code).0 e) h)
  | inr e ↦ rw (e, if◌then◌else◌, e) (get-remove_same m code hs)
]

get-remove_other :
    (m : DtcManager) (code other : ℕ)
    → other ≢ code
    → get_dtc (remove_dtc m code) other ≡ get_dtc m other
unfolding get_dtc remove_dtc
get-remove_other [] code other differs = refl
get-remove_other (d ∷ m) code other differs = ground (arith, get-remove_other m code other differs)

-- Where codes are distinct, a removal takes the entry of its code away, keeps every other, and keeps the
-- codes distinct.
pub remove_dtc-lem :
    (m : DtcManager) (code other : ℕ)
    → Distinct m
    → Distinct (remove_dtc m code)
      × (get_dtc (remove_dtc m code) other ≡ (if other == code then none else get_dtc m other))
remove_dtc-lem m code other h = (
  remove_dtc-Distinct m code h,
  at_or_else other code _ _ _ (λ e. ap (get_dtc (remove_dtc m code)) e ∙ get-remove_same m code h)
      (get-remove_other m code other),
)

active-clear_active : (m : DtcManager) → get_active_dtcs (clear_active m) ≡ []
unfolding get_active_dtcs clear_active select
active-clear_active [] = refl
active-clear_active (d ∷ m) = elim (Bool-cases d.is_pending) [
  | inl e ↦ rw (e, if◌then◌else◌) (active-clear_active m)
  | inr e ↦ rw (e, if◌then◌else◌) (active-clear_active m)
]

active-clear_pending : (m : DtcManager) → get_active_dtcs (clear_pending m) ≡ clear_pending m
unfolding get_active_dtcs clear_pending select
active-clear_pending [] = refl
active-clear_pending (d ∷ m) = elim (Bool-cases d.is_pending) [
  | inl e ↦ rw (e, if◌then◌else◌, active-clear_pending m) refl
  | inr e ↦ rw (e, if◌then◌else◌, active-clear_pending m) refl
]

active_and_pending :
    (m : DtcManager) → length (get_active_dtcs m) + length (get_pending_dtcs m) ≡ count m
unfolding get_active_dtcs get_pending_dtcs count select
active_and_pending [] = refl
active_and_pending (d ∷ m) = elim (Bool-cases d.is_pending) [
  | inl e ↦ rw (e, if◌then◌else◌) (omega (arith, active_and_pending m))
  | inr e ↦ rw (e, if◌then◌else◌) (omega (arith, active_and_pending m))
]

-- `clearActive` leaves exactly the pending entries and no active one, `clearPending` makes every entry
-- active, and the active and the pending entries together are all.
pub clear_lem :
    (m : DtcManager)
    → (clear_active m ≡ get_pending_dtcs m)
      × (get_active_dtcs (clear_active m) ≡ [])
      × (get_active_dtcs (clear_pending m) ≡ clear_pending m)
      × (length (get_active_dtcs m) + length (get_pending_dtcs m) ≡ count m)
unfolding clear_active get_pending_dtcs
clear_lem m = (refl, active-clear_active m, active-clear_pending m, active_and_pending m)
