-- ===== src/Logging/Replay/Analysis.antt =====
-- src/logging/replay_analyzer.cpp, ReplayAnalyzer::analyze. `std::map` is a list in the order of its keys. Of the
-- order of equal counts, which `std::sort` leaves open, the model takes the one that keeps the smaller identifier first.
pub mod Counts
pub mod Laws
use mcp2515_rpi.Base.{
  ℕ, zero, suc, ◌+◌, ◌≤◌, ◌<◌, ◌≡◌, refl, ap, sym, ◌∙◌, Bool, true, false, Option, none, some, List,
  [], ◌∷◌, ◌++◌, map, length, length-take, take, min, All, All-take, ltb, leb, ◌==◌, if◌then◌else◌,
  arith, inl, inr, Bool-cases,
}
use mcp2515_rpi.Logging.Replay.Text.{CanLogEntry}
use mcp2515_rpi.Logging.Replay.{ReplayAnalyzer}

-- `duration`: the first and the last time, whose difference is the duration; `none` where the source leaves the
-- field without a value.
pub record AnalysisReport : Type 0 where
  pub total_frames : ℕ
  pub rx_count : ℕ
  pub tx_count : ℕ
  pub duration : Option (ℕ × ℕ)
  pub unique_ids : List ℕ
  pub top_ids : List (ℕ × ℕ)

-- `id_count[id]++`.
unfoldable pub add_count : List (ℕ × ℕ) → ℕ → List (ℕ × ℕ)
add_count [] id = (id, 1) ∷ []
add_count ((k, n) ∷ rest) id =
    let more = add_count rest id in
    if id == k
    then (k, suc n) ∷ rest
    else if ltb id k
    then (id, 1) ∷ (k, n) ∷ rest
    else (k, n) ∷ more

unfoldable pub count_ids : List (ℕ × ℕ) → List CanLogEntry → List (ℕ × ℕ)
unfolding add_count
count_ids counts [] = counts
count_ids counts (f ∷ frames) = count_ids (add_count counts f.can_id) frames

unfoldable pub count_tx : List CanLogEntry → ℕ
count_tx [] = 0
count_tx (f ∷ frames) = if f.is_tx then suc (count_tx frames) else count_tx frames

unfoldable pub count_rx : List CanLogEntry → ℕ
count_rx [] = 0
count_rx (f ∷ frames) = if f.is_tx then count_rx frames else suc (count_rx frames)

unfoldable pub insert_count : ℕ × ℕ → List (ℕ × ℕ) → List (ℕ × ℕ)
insert_count (id, n) [] = (id, n) ∷ []
insert_count (id, n) ((k, m) ∷ rest) =
    let more = insert_count (id, n) rest in
    if leb m n then (id, n) ∷ (k, m) ∷ rest else (k, m) ∷ more

unfoldable pub sort_counts : List (ℕ × ℕ) → List (ℕ × ℕ)
unfolding insert_count
sort_counts [] = []
sort_counts (e ∷ counts) = insert_count e (sort_counts counts)

abbrev last_time : ℕ → List CanLogEntry → ℕ
last_time t [] = t
last_time t (f ∷ frames) = last_time f.timestamp frames

abbrev pub times : List CanLogEntry → Option (ℕ × ℕ)
times [] = none
times (f ∷ frames) = some (f.timestamp, last_time f.timestamp frames)

abbrev pub key : ℕ × ℕ → ℕ
key (id, n) = id

unfoldable pub analyze : ReplayAnalyzer → AnalysisReport
unfolding count_ids count_tx count_rx sort_counts
analyze r =
    let counts = count_ids [] r.frames in
    record {
      total_frames = length r.frames;
      rx_count = count_rx r.frames;
      tx_count = count_tx r.frames;
      duration = times r.frames;
      unique_ids = map key counts;
      top_ids = take 10 (sort_counts counts);
    }
