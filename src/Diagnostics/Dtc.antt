-- ===== src/Diagnostics/Dtc.antt =====
-- src/diagnostics/dtc_manager.hpp and dtc_manager.cpp, DTCManager. The hash map is an association list,
-- and its order stands for the unspecified order of iteration. The clock is an argument `now`.
pub mod Codes
pub mod Store
use Prim.Native.String.{String}
use mcp2515_rpi.Base.{
  ℕ, ◌+◌, Bool, true, false, not, Option, none, some, List, [], ◌∷◌, length, ◌==◌, if◌then◌else◌,
  u32,
}
use Codes.{decode_code}

pub data Severity : Type 0 where
  minor moderate major critical : Severity

pub record Dtc : Type 0 where
  pub code : ℕ
  pub display_code : List ℕ
  pub description : String
  pub severity : Severity
  pub is_pending : Bool
  pub is_permanent : Bool
  pub occurrence_count : ℕ
  pub first_occurrence : ℕ
  pub last_occurrence : ℕ

abbrev pub DtcManager : Type 0
DtcManager = List Dtc

unfoldable pub get_dtc : DtcManager → ℕ → Option Dtc
get_dtc [] code = none
get_dtc (d ∷ m) code = if d.code == code then some d else get_dtc m code

abbrev pub has_dtc : DtcManager → ℕ → Bool
has_dtc m code = elim (get_dtc m code) [ none ↦ false | some d ↦ true ]

-- A change of the entry that `find` returned.
unfoldable pub modify : (Dtc → Dtc) → ℕ → DtcManager → DtcManager
modify f code [] = []
modify f code (d ∷ m) = if d.code == code then f d ∷ m else d ∷ modify f code m

abbrev pub again : ℕ → Bool → Dtc → Dtc
again now pending d = record d {
  occurrence_count = u32 (d.occurrence_count + 1);
  last_occurrence = now;
  is_pending = pending;
}

abbrev pub new_dtc : ℕ → ℕ → String → Severity → Bool → Dtc
new_dtc now code desc sev pending = record {
  code = code;
  display_code = decode_code code;
  description = desc;
  severity = sev;
  is_pending = pending;
  is_permanent = false;
  occurrence_count = 1;
  first_occurrence = now;
  last_occurrence = now;
}

pub add_dtc : DtcManager → ℕ → ℕ → String → Severity → Bool → DtcManager
unfolding get_dtc
add_dtc m now code desc sev pending =
    if has_dtc m code
    then modify (again now pending) code m
    else new_dtc now code desc sev pending ∷ m

pub remove_dtc : DtcManager → ℕ → DtcManager
remove_dtc [] code = []
remove_dtc (d ∷ m) code = if d.code == code then m else d ∷ remove_dtc m code

unfoldable pub clear_all : DtcManager → DtcManager
clear_all m = []

-- The entries that a test holds of, in the order of iteration.
unfoldable pub select : (Dtc → Bool) → DtcManager → List Dtc
select test [] = []
select test (d ∷ m) = let rest = select test m in if test d then d ∷ rest else rest

pub clear_active : DtcManager → DtcManager
clear_active m = select (λ d. d.is_pending) m

pub clear_pending : DtcManager → DtcManager
clear_pending [] = []
clear_pending (d ∷ m) =
    (if d.is_pending then record d { is_pending = false } else d) ∷ clear_pending m

unfoldable pub set_pending : DtcManager → ℕ → Bool → DtcManager
set_pending m code pending = modify (λ d. record d { is_pending = pending }) code m

unfoldable pub get_active_dtcs : DtcManager → List Dtc
get_active_dtcs m = select (λ d. not d.is_pending) m

pub get_pending_dtcs : DtcManager → List Dtc
get_pending_dtcs m = select (λ d. d.is_pending) m

unfoldable pub get_all_dtcs : DtcManager → List Dtc
get_all_dtcs m = m

abbrev same_severity : Severity → Severity → Bool
same_severity Severity.minor Severity.minor = true
same_severity Severity.moderate Severity.moderate = true
same_severity Severity.major Severity.major = true
same_severity Severity.critical Severity.critical = true
same_severity _ _ = false

unfoldable pub get_dtcs_by_severity : DtcManager → Severity → List Dtc
get_dtcs_by_severity m sev = select (λ d. same_severity d.severity sev) m

unfoldable pub has_active_dtcs : DtcManager → Bool
has_active_dtcs [] = false
has_active_dtcs (d ∷ m) = if not d.is_pending then true else has_active_dtcs m

unfoldable pub has_pending_dtcs : DtcManager → Bool
has_pending_dtcs [] = false
has_pending_dtcs (d ∷ m) = if d.is_pending then true else has_pending_dtcs m

unfoldable pub count : DtcManager → ℕ
count m = length m
