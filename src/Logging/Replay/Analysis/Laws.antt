-- ===== src/Logging/Replay/Analysis/Laws.antt =====
-- src/logging/replay_analyzer.cpp, ReplayAnalyzer::analyze: the report.
use mathlib.Core.List.{Perm}
use mathlib.Core.List.Perm
use mcp2515_rpi.Base.{
  sym, ap, ap₂, subst, min, ◌++◌, ℕ, zero, suc, ◌+◌, ◌≤◌, ◌≡◌, refl, ◌∙◌, Bool, true, false, List,
  [], ◌∷◌, map, length, length-take, take, All, ltb, leb, if◌then◌else◌, arith, inl, inr,
  Bool-cases,
}
use mcp2515_rpi.Logging.Replay.Text.{CanLogEntry}
use mcp2515_rpi.Logging.Replay.{ReplayAnalyzer}
use mcp2515_rpi.Logging.Replay.Analysis.{
  count_ids, count_tx, count_rx, insert_count, sort_counts, key, analyze,
}
use mcp2515_rpi.Logging.Replay.Analysis.Counts.{
  occurrences, contains, Increasing, count_of, count_ids-Increasing, count_of-count_ids,
  contains-count_ids, entries,
}

abbrev pub Descending : List (ℕ × ℕ) → Type 0
Descending [] = Unit {0}
Descending ((id, n) ∷ rest) = All (λ e. e.1 ≤ n) rest × Descending rest

All-imp :
    (P Q : ℕ × ℕ → Type 0) (xs : List (ℕ × ℕ)) → ((e : ℕ × ℕ) → P e → Q e) → All P xs → All Q xs
All-imp P Q [] f h = tt
All-imp P Q (e ∷ xs) f h = (f e h.0, All-imp P Q xs f h.1)

none_before : (j n : ℕ) → count_of [] j + n ≡ n
unfolding count_of
none_before j n = omega arith

counted :
    (frames : List CanLogEntry) → All (λ e. e.1 ≡ occurrences e.0 frames) (count_ids [] frames)
counted frames =
    let counts = count_ids [] frames in
    All-imp (λ e. e.1 ≡ count_of counts e.0) (λ e. e.1 ≡ occurrences e.0 frames) counts
      (λ e h. h ∙ count_of-count_ids frames [] e.0 tt ∙ none_before e.0 (occurrences e.0 frames))
      (entries counts (count_ids-Increasing frames [] tt))

insert_count-All :
    (P : ℕ × ℕ → Type 0) (e : ℕ × ℕ) (counts : List (ℕ × ℕ))
    → P e
    → All P counts
    → All P (insert_count e counts)
unfolding insert_count
insert_count-All P (id, n) [] h hs = (h, tt)
insert_count-All P (id, n) ((k, m) ∷ rest) h hs = elim (Bool-cases (leb m n)) [
  | inl first ↦ rw (first, if◌then◌else◌) (h, hs)
  | inr later ↦ rw (later, if◌then◌else◌) (hs.0, insert_count-All P (id, n) rest h hs.1)
]

insert_count-perm : (e : ℕ × ℕ) (counts : List (ℕ × ℕ)) → Perm (insert_count e counts) (e ∷ counts)
unfolding insert_count
insert_count-perm (id, n) [] = Perm.rfl
insert_count-perm (id, n) ((k, m) ∷ rest) = elim (Bool-cases (leb m n)) [
  | inl first ↦ rw (first, if◌then◌else◌) Perm.rfl
  | inr later ↦
      rw (later, if◌then◌else◌)
        (Perm.trans (Perm.cons (k, m) (insert_count-perm (id, n) rest))
          (Perm.swap (id, n) (k, m) rest))
]

sort_counts-perm : (counts : List (ℕ × ℕ)) → Perm (sort_counts counts) counts
unfolding sort_counts
sort_counts-perm [] = Perm.rfl
sort_counts-perm (e ∷ counts) =
    Perm.trans (insert_count-perm e (sort_counts counts)) (Perm.cons e (sort_counts-perm counts))

-- An identifier with the number of its frames.
abbrev pub with_occurrences : List CanLogEntry → ℕ → ℕ × ℕ
with_occurrences frames id = (id, occurrences id frames)

-- Counts are given by their identifiers.
counts_of_keys :
    (frames : List CanLogEntry) (counts : List (ℕ × ℕ))
    → All (λ e. e.1 ≡ occurrences e.0 frames) counts
    → map (with_occurrences frames) (map key counts) ≡ counts
counts_of_keys frames [] h = refl
counts_of_keys frames ((id, n) ∷ counts) (same, h) =
    ap₂ (λ m rest. (id, m) ∷ rest) (sym same) (counts_of_keys frames counts h)

abbrev leave : ℕ → List (ℕ × ℕ) → List (ℕ × ℕ)
leave zero counts = counts
leave (suc n) [] = []
leave (suc n) (e ∷ counts) = leave n counts

take-leave : (n : ℕ) (counts : List (ℕ × ℕ)) → take n counts ++ leave n counts ≡ counts
take-leave zero counts = refl
take-leave (suc n) [] = refl
take-leave (suc n) (e ∷ counts) = ap (λ rest. e ∷ rest) (take-leave n counts)

insert_count_longer :
    (e : ℕ × ℕ) (counts : List (ℕ × ℕ)) → length (insert_count e counts) ≡ suc (length counts)
unfolding insert_count
insert_count_longer (id, n) [] = refl
insert_count_longer (id, n) ((k, m) ∷ rest) = ground (arith, insert_count_longer (id, n) rest)

length-sort_counts : (counts : List (ℕ × ℕ)) → length (sort_counts counts) ≡ length (map key counts)
unfolding sort_counts
length-sort_counts [] = refl
length-sort_counts (e ∷ counts) =
    insert_count_longer e (sort_counts counts) ∙ ap suc (length-sort_counts counts)

All-less :
    (m n : ℕ) (counts : List (ℕ × ℕ))
    → m ≤ n
    → All (λ e. e.1 ≤ m) counts
    → All (λ e. e.1 ≤ n) counts
All-less m n [] h hs = tt
All-less m n ((k, i) ∷ counts) h hs = (omega (arith, hs.0), All-less m n counts h hs.1)

insert_count-Descending :
    (e : ℕ × ℕ) (counts : List (ℕ × ℕ)) → Descending counts → Descending (insert_count e counts)
unfolding insert_count
insert_count-Descending (id, n) [] h = (tt, tt)
insert_count-Descending (id, n) ((k, m) ∷ rest) h = elim (Bool-cases (leb m n)) [
  | inl first ↦
      rw (first, if◌then◌else◌)
        ((ground (arith, first), All-less m n rest (ground (arith, first)) h.0), h)
  | inr later ↦
      rw (later, if◌then◌else◌)
        (
          insert_count-All (λ e. e.1 ≤ m) (id, n) rest (ground (arith, later)) h.0,
          insert_count-Descending (id, n) rest h.1,
        )
]

sort_counts-Descending : (counts : List (ℕ × ℕ)) → Descending (sort_counts counts)
unfolding sort_counts
sort_counts-Descending [] = tt
sort_counts-Descending (e ∷ counts) =
    insert_count-Descending e (sort_counts counts) (sort_counts-Descending counts)

count_both : (frames : List CanLogEntry) → count_rx frames + count_tx frames ≡ length frames
unfolding count_rx count_tx
count_both [] = omega arith
count_both (f ∷ frames) = ground (arith, count_both frames)

if_true : (id : ℕ) (b : Bool) → (if b then true else contains (map key []) id) ≡ b
unfolding contains
if_true id true = refl
if_true id false = refl

-- The report of a recording: received and sent frames add up to the total; the identifiers are those that some
-- frame has, each once and in increasing order. The busiest ones are ten, or all where there are fewer: those
-- identifiers, each with the number of its frames, are rearranged so that the numbers decrease, and the busiest are the
-- first of them.
pub analyze_lem :
    (r : ReplayAnalyzer) (id : ℕ)
    → ((analyze r).rx_count + (analyze r).tx_count ≡ (analyze r).total_frames)
      × (contains (analyze r).unique_ids id ≡ ltb 0 (occurrences id r.frames))
      × Increasing (analyze r).unique_ids
      × (length (analyze r).top_ids ≡ min 10 (length (analyze r).unique_ids))
      × (rest : List (ℕ × ℕ)) × Descending ((analyze r).top_ids ++ rest)
      × Perm ((analyze r).top_ids ++ rest) (map (with_occurrences r.frames) (analyze r).unique_ids)
unfolding analyze
analyze_lem r id =
    let counts = count_ids [] r.frames in
    let sorted = sort_counts counts in
    let whole = take-leave 10 sorted in
    (
      count_both r.frames,
      contains-count_ids r.frames [] id ∙ if_true id (ltb 0 (occurrences id r.frames)),
      count_ids-Increasing r.frames [] tt,
      length-take 10 sorted ∙ ap (min 10) (length-sort_counts counts),
      leave 10 sorted,
      subst Descending (sym whole) (sort_counts-Descending counts),
      subst (λ xs. Perm xs (map (with_occurrences r.frames) (map key counts))) (sym whole)
          (subst (Perm sorted) (sym (counts_of_keys r.frames counts (counted r.frames)))
            (sort_counts-perm counts)),
    )
