-- ===== src/Logging/Replay/Analysis/Counts.antt =====
-- src/logging/replay_analyzer.cpp, ReplayAnalyzer::analyze: the count of each identifier.
use mcp2515_rpi.Base.{
  ℕ, suc, ◌+◌, ◌<◌, ◌≡◌, refl, Bool, true, false, List, [], ◌∷◌, map, All, ltb, ◌==◌, if◌then◌else◌,
  arith, inl, inr, Bool-cases,
}
use mcp2515_rpi.Logging.Replay.Text.{CanLogEntry}
use mcp2515_rpi.Logging.Replay.Analysis.{add_count, count_ids, key}

-- How many frames have an identifier.
unfoldable pub occurrences : ℕ → List CanLogEntry → ℕ
occurrences id [] = 0
occurrences id (f ∷ frames) =
    if id == f.can_id then suc (occurrences id frames) else occurrences id frames

unfoldable pub contains : List ℕ → ℕ → Bool
contains [] id = false
contains (k ∷ rest) id = if id == k then true else contains rest id

abbrev pub Increasing : List ℕ → Type 0
Increasing [] = Unit {0}
Increasing (k ∷ rest) = All (λ j. k < j) rest × Increasing rest

-- The count of an identifier, 0 where there is none.
unfoldable pub count_of : List (ℕ × ℕ) → ℕ → ℕ
count_of [] id = 0
count_of ((k, n) ∷ rest) id = if id == k then n else count_of rest id

pub add_count-All :
    (P : ℕ → Type 0) (counts : List (ℕ × ℕ)) (id : ℕ)
    → P id
    → All P (map key counts)
    → All P (map key (add_count counts id))
unfolding add_count
add_count-All P [] id h hs = (h, tt)
add_count-All P ((k, n) ∷ rest) id h hs = elim (Bool-cases (id == k)) [
  | inl same ↦ rw (same, if◌then◌else◌) hs
  | inr other ↦ elim (Bool-cases (ltb id k)) [
    | inl less ↦ rw (other, if◌then◌else◌, less) (h, hs)
    | inr more ↦ rw (other, if◌then◌else◌, more) (hs.0, add_count-All P rest id h hs.1)
  ]
]

pub All-more : (k j : ℕ) (ids : List ℕ) → k < j → All (λ i. j < i) ids → All (λ i. k < i) ids
All-more k j [] h hs = tt
All-more k j (i ∷ ids) h hs = (omega (arith, hs.0), All-more k j ids h hs.1)

pub add_count-Increasing :
    (counts : List (ℕ × ℕ)) (id : ℕ)
    → Increasing (map key counts)
    → Increasing (map key (add_count counts id))
unfolding add_count
add_count-Increasing [] id h = (tt, tt)
add_count-Increasing ((k, n) ∷ rest) id h = elim (Bool-cases (id == k)) [
  | inl same ↦ rw (same, if◌then◌else◌) h
  | inr other ↦ elim (Bool-cases (ltb id k)) [
    | inl less ↦
        rw (other, if◌then◌else◌, less)
          (((ground (arith, less), All-more id k (map key rest) (ground (arith, less)) h.0), h))
    | inr more ↦
        rw (other, if◌then◌else◌, more)
          (
            add_count-All (λ j. k < j) rest id (ground (arith, other, more)) h.0,
            add_count-Increasing rest id h.1,
          )
  ]
]

pub count_of_above :
    (counts : List (ℕ × ℕ)) (id : ℕ) → All (λ j. id < j) (map key counts) → count_of counts id ≡ 0
unfolding count_of
count_of_above [] id h = refl
count_of_above ((k, n) ∷ rest) id h = ground (arith, count_of_above rest id h.1, h.0)

pub count_of-add_count :
    (counts : List (ℕ × ℕ)) (id j : ℕ)
    → Increasing (map key counts)
    → count_of (add_count counts id) j
      ≡ (if j == id then suc (count_of counts j) else count_of counts j)
unfolding count_of add_count
count_of-add_count [] id j h = refl
count_of-add_count ((k, n) ∷ rest) id j h = ground (
  arith,
  count_of-add_count rest id j h.1,
  All-more j k (map key rest),
  h.0,
  count_of_above rest j,
)

pub contains-add_count :
    (counts : List (ℕ × ℕ)) (id j : ℕ)
    → contains (map key (add_count counts id)) j
      ≡ (if j == id then true else contains (map key counts) j)
unfolding contains add_count
contains-add_count [] id j = refl
contains-add_count ((k, n) ∷ rest) id j = ground (arith, contains-add_count rest id j)

pub count_ids-Increasing :
    (frames : List CanLogEntry) (counts : List (ℕ × ℕ))
    → Increasing (map key counts)
    → Increasing (map key (count_ids counts frames))
unfolding count_ids
count_ids-Increasing [] counts h = h
count_ids-Increasing (f ∷ frames) counts h =
    count_ids-Increasing frames (add_count counts f.can_id) (add_count-Increasing counts f.can_id h)

pub count_of-count_ids :
    (frames : List CanLogEntry) (counts : List (ℕ × ℕ)) (j : ℕ)
    → Increasing (map key counts)
    → count_of (count_ids counts frames) j ≡ count_of counts j + occurrences j frames
unfolding count_ids occurrences
count_of-count_ids [] counts j h = omega arith
count_of-count_ids (f ∷ frames) counts j h = ground (
  arith,
  count_of-count_ids frames (add_count counts f.can_id) j (add_count-Increasing counts f.can_id h),
  count_of-add_count counts f.can_id j h,
)

pub contains-count_ids :
    (frames : List CanLogEntry) (counts : List (ℕ × ℕ)) (j : ℕ)
    → contains (map key (count_ids counts frames)) j
      ≡ (if ltb 0 (occurrences j frames) then true else contains (map key counts) j)
unfolding count_ids occurrences
contains-count_ids [] counts j = refl
contains-count_ids (f ∷ frames) counts j = ground (
  arith,
  contains-count_ids frames (add_count counts f.can_id) j,
  contains-add_count counts f.can_id j,
)

-- Each entry holds the count of its key.
pub entries_under :
    (k n : ℕ) (rest xs : List (ℕ × ℕ))
    → All (λ e. e.1 ≡ count_of rest e.0) xs
    → All (λ j. k < j) (map key xs)
    → All (λ e. e.1 ≡ count_of ((k, n) ∷ rest) e.0) xs
unfolding count_of
entries_under k n rest [] h above = tt
entries_under k n rest ((j, m) ∷ xs) h above =
    (ground (arith, h.0, above.0), entries_under k n rest xs h.1 above.1)

pub entries :
    (counts : List (ℕ × ℕ))
    → Increasing (map key counts)
    → All (λ e. e.1 ≡ count_of counts e.0) counts
entries [] h = tt
entries ((k, n) ∷ rest) h =
    (unfold count_of in ground arith, entries_under k n rest rest (entries rest h.1) h.0)
