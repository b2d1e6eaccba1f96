-- ===== src/Logging/Logger/Laws.antt =====
-- src/logging/can_logger.cpp: the recent entries, the rotation of the files and the names of the levels.
use mcp2515_rpi.Base.{
  ℕ, zero, suc, ◌-◌, ◌≤◌, ◌<◌, ◌≡◌, refl, ap, sym, ◌∙◌, Bool, true, false, Option, none, some, List,
  [], ◌∷◌, ◌++◌, append-nil, append_assoc, length, min, ltb, leb, ◌==◌, if◌then◌else◌, arith, inl,
  inr, Bool-cases,
}
use mcp2515_rpi.Base.Latest.{ltb-false, latest, push_latest, latest-latest, latest_short}
use mcp2515_rpi.Logging.Logger.{
  CanLogger, LogLevel, Files, rank, rotate_if_needed, rename_from, rename, open_file, write_log,
  log, formatted, get_recent_logs, level_to_string, level_from_string,
}

-- A call of `log`: what it logs, and what the system answers.
pub record Call : Type 0 where
  pub stamp : List ℕ
  pub pos : Option ℕ
  pub answer : Bool
  pub level : LogLevel
  pub message : List ℕ

pub log_all : CanLogger → List Call → CanLogger
unfolding log
log_all l [] = l
log_all l (c ∷ calls) = log_all (log l c.stamp c.pos c.answer c.level c.message) calls

abbrev pub line : Call → List ℕ
line c = formatted c.stamp c.level c.message

-- The lines of the calls at a level or above it.
pub lines_from : LogLevel → List Call → List (List ℕ)
lines_from level [] = []
lines_from level (c ∷ calls) =
    let rest = lines_from level calls in
    if ltb (rank c.level) (rank level) then rest else line c ∷ rest

module _ (l : CanLogger) (pos : Option ℕ) (answer : Bool) where
  rotate_keeps :
      ((rotate_if_needed l pos answer).recent_logs ≡ l.recent_logs)
      × ((rotate_if_needed l pos answer).level ≡ l.level)
  unfolding rotate_if_needed open_file
  rotate_keeps = ground arith

  write_recent :
      (entry : List ℕ) (history : List (List ℕ))
      → l.recent_logs ≡ latest 1000 history
      → ((write_log l pos answer entry).recent_logs ≡ latest 1000 (history ++ entry ∷ []))
        × ((write_log l pos answer entry).level ≡ l.level)
  unfolding write_log
  write_recent entry history e =
      (rw (rotate_keeps.0, e) (push_latest 1000 history entry), rotate_keeps.1)

log_low :
    (l : CanLogger) (c : Call)
    → ltb (rank c.level) (rank l.level) ≡ true
    → log l c.stamp c.pos c.answer c.level c.message ≡ l
unfolding log
log_low l c low = rw (low) refl

log_high :
    (l : CanLogger) (c : Call)
    → ltb (rank c.level) (rank l.level) ≡ false
    → log l c.stamp c.pos c.answer c.level c.message ≡ write_log l c.pos c.answer (line c)
unfolding log
log_high l c high = rw (high) refl

log_all-latest :
    (l : CanLogger) (calls : List Call) (history : List (List ℕ))
    → l.recent_logs ≡ latest 1000 history
    → (log_all l calls).recent_logs ≡ latest 1000 (history ++ lines_from l.level calls)
unfolding log_all lines_from
log_all-latest l [] history e = rw (append-nil history) e
log_all-latest l (c ∷ calls) history e = elim (Bool-cases (ltb (rank c.level) (rank l.level))) [
  | inl low ↦
      ap (λ s. (log_all s calls).recent_logs) (log_low l c low)
      ∙ rw (low, if◌then◌else◌) (log_all-latest l calls history e)
  | inr high ↦
      let next = write_log l c.pos c.answer (line c) in
      let h = write_recent l c.pos c.answer (line c) history e in
      ap (λ s. (log_all s calls).recent_logs) (log_high l c high)
      ∙ rw (high, if◌then◌else◌)
          (log_all-latest next calls (history ++ line c ∷ []) h.0
            ∙ ap (λ level. latest 1000 ((history ++ line c ∷ []) ++ lines_from level calls)) h.1
            ∙ ap (latest 1000) (append_assoc history (line c ∷ []) (lines_from l.level calls)))
]

get_recent-latest :
    (l : CanLogger) (count : ℕ) → get_recent_logs l count ≡ latest count l.recent_logs
unfolding get_recent_logs
get_recent-latest l count = elim (Bool-cases (leb (length l.recent_logs) count)) [
  | inl all ↦ rw (all, if◌then◌else◌) (sym (latest_short count l.recent_logs (ground (arith, all))))
  | inr more ↦ rw (more, if◌then◌else◌) refl
]

-- After any sequence of calls of `log`, whatever the files do, getRecentLogs of a logger that began with no entry
-- returns the last `count` of the lines at its level or above it, in order, and never more than 1000.
pub get_recent_logs_lem :
    (l : CanLogger) (calls : List Call) (count : ℕ)
    → l.recent_logs ≡ []
    → get_recent_logs (log_all l calls) count ≡ latest (min count 1000) (lines_from l.level calls)
get_recent_logs_lem l calls count e =
    rw (get_recent-latest (log_all l calls) count, log_all-latest l calls [] e)
      (latest-latest 1000 count (lines_from l.level calls))

level-Strings : (level : LogLevel) → level_from_string (level_to_string level) ≡ level
unfolding level_from_string level_to_string
level-Strings LogLevel.trace = refl
level-Strings LogLevel.debug = refl
level-Strings LogLevel.info = refl
level-Strings LogLevel.warning = refl
level-Strings LogLevel.error = refl
level-Strings LogLevel.critical = refl

-- What the loop of renames leaves at each number.
abbrev pub or_else : Option (List (List ℕ)) → Option (List (List ℕ)) → Option (List (List ℕ))
or_else none other = other
or_else (some lines) other = some lines

abbrev shifted : ℕ → Files → ℕ → Option (List (List ℕ))
shifted count files j =
    if j == 0
    then files 0
    else if ltb (suc count) j
    then files j
    else if j == suc count
    then (if count == 0 then files j else or_else (files count) (files j))
    else if j == 1
    then none
    else files (j - 1)

rename_lem :
    (files : Files) (old new j : ℕ)
    → rename files old new j
      ≡ (if j == new then or_else (files old) (files j) else if j == old then none else files j)
rename_lem files old new j = ground arith

shift_more :
    (count : ℕ) (files : Files) (j : ℕ)
    → shifted count (rename files (suc count) (suc (suc count))) j ≡ shifted (suc count) files j
shift_more count files j =
    let at = rename_lem files (suc count) (suc (suc count)) in
    ground (arith, at 0, at j, at count, at (j - 1))

rename_from-shifted :
    (count : ℕ) (files : Files) (j : ℕ) → rename_from count files j ≡ shifted count files j
unfolding rename_from
rename_from-shifted zero files j = ground arith
rename_from-shifted (suc count) files j =
    rename_from-shifted count (rename files (suc count) (suc (suc count))) j
    ∙ shift_more count files j

-- When the open log has reached its size, the files move up by one number: each number up to `max_files` gets the
-- file before it, the oldest one being replaced if there is a file to put there; higher numbers are not touched, and
-- the log itself starts again empty, unless it cannot be opened.
pub rotate_if_needed_lem :
    (l : CanLogger) (pos j : ℕ) (answer : Bool)
    → l.file_is_open ≡ true
    → l.max_size ≤ pos
    → 0 < l.max_files
    → (rotate_if_needed l (some pos) answer).files j ≡ (
        if j == 0
        then (if answer then some [] else none)
        else if ltb l.max_files j
        then l.files j
        else if j == l.max_files
        then or_else (l.files (j - 1)) (l.files j)
        else l.files (j - 1))
unfolding rotate_if_needed open_file
rotate_if_needed_lem l pos j answer opened large some_file =
    let moved = rename_from (l.max_files - 1) l.files in
    let last = rename_lem moved 0 1 in
    let loop = rename_from-shifted (l.max_files - 1) l.files in
    rw (opened, ltb-false pos l.max_size large, if◌then◌else◌)
      (ground (arith, last 0, last j, loop 0, loop j, loop 1))
