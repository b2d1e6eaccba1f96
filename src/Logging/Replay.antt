-- ===== src/Logging/Replay.antt =====
-- src/logging/replay_analyzer.hpp and replay_analyzer.cpp, ReplayAnalyzer: the frames, their replay and their
-- recording. The clock, the answer to an open and the lines of a file are arguments; a line is a list of characters.
pub mod Text
pub mod Laws
pub mod Digits
pub mod Lines
pub mod BadLines
pub mod Files
pub mod Recording
pub mod Analysis
use mcp2515_rpi.Base.{
  ℕ, ◌+◌, ◌-◌, ◌%◌, Bool, true, false, not, ◌&&◌, Option, none, some, List, [], ◌∷◌, ◌++◌, length,
  take, drop, min, leb, if◌then◌else◌,
}
use Text.{LocalTime, CanLogEntry, parse_line, format_can_entry}

-- An `std::ofstream`: whether a file is open, its fail bit, and the lines written to the file.
pub record OutputFile : Type 0 where
  pub is_open : Bool
  pub failed : Bool
  pub written : List (List ℕ)

pub record ReplayAnalyzer : Type 0 where
  pub frames : List CanLogEntry
  pub replay_position : ℕ
  pub replaying : Bool
  pub recording : Bool
  pub recording_file : OutputFile
  pub recording_path : List ℕ

unfoldable pub init : ReplayAnalyzer
init = record {
  frames = [];
  replay_position = 0;
  replaying = false;
  recording = false;
  recording_file = record { is_open = false; failed = false; written = [] };
  recording_path = [];
}

-- How a load ends: `false`, `true`, or the exception of `std::stoul`.
pub data Loaded : Type 0 where
  refused loaded thrown : Loaded

abbrev pub load_step : Option CanLogEntry → List CanLogEntry × Loaded → List CanLogEntry × Loaded
load_step none rest = ([], thrown)
load_step (some entry) rest = (entry ∷ rest.0, rest.1)

-- The loop over the lines: the frames it adds, and how it ends.
unfoldable pub load_lines : List (List ℕ) → List CanLogEntry × Loaded
load_lines [] = ([], loaded)
load_lines (line ∷ lines) = load_step (parse_line line) (load_lines lines)

unfoldable pub load_file : ReplayAnalyzer → Option (List (List ℕ)) → ReplayAnalyzer × Loaded
load_file r none = (r, refused)
load_file r (some lines) = (record r { frames = (load_lines lines).0 }, (load_lines lines).1)

unfoldable pub start_replay : ReplayAnalyzer → ReplayAnalyzer
start_replay r = record r { replay_position = 0; replaying = true }

unfoldable pub stop_replay : ReplayAnalyzer → ReplayAnalyzer
stop_replay r = record r { replaying = false }

-- `size_t` has 64 bits.
abbrev pub size_t : ℕ → ℕ
size_t n = n % 18446744073709551616

abbrev pub replay_end : ReplayAnalyzer → ℕ → ℕ
replay_end r count = min (size_t (r.replay_position + count)) (length r.frames)

unfoldable pub get_next_frames : ReplayAnalyzer → ℕ → ReplayAnalyzer × List CanLogEntry
get_next_frames r count =
    if r.replaying
    then (
      record r {
        replay_position = replay_end r count;
        replaying = not (leb (length r.frames) (replay_end r count));
      },
      take (replay_end r count - r.replay_position) (drop r.replay_position r.frames),
    )
    else (r, [])

-- An open of a stream that is open already fails, and leaves the old file open.
abbrev pub open_output : OutputFile → Bool → OutputFile
open_output f answer =
    if f.is_open
    then record f { failed = true }
    else if answer
    then record { is_open = true; failed = false; written = [] }
    else record f { failed = true }

unfoldable pub start_recording : ReplayAnalyzer → List ℕ → Bool → ReplayAnalyzer × Bool
start_recording r path answer =
    let file = open_output r.recording_file answer in
    if file.is_open
    then (record r { recording_path = path; recording_file = file; recording = true }, true)
    else (record r { recording_path = path; recording_file = file }, false)

unfoldable pub stop_recording : ReplayAnalyzer → ReplayAnalyzer
stop_recording r = record r {
  recording = false;
  recording_file = record r.recording_file { is_open = false };
}

-- A stream whose fail bit is set writes nothing.
abbrev pub write_line : OutputFile → List ℕ → OutputFile
write_line f line = if f.failed then f else record f { written = f.written ++ line ∷ [] }

unfoldable pub record_frame : ReplayAnalyzer → ℕ → LocalTime → ℕ → List ℕ → Bool → ReplayAnalyzer
record_frame r now local can_id payload tx =
    let entry : CanLogEntry = record {
      timestamp = now;
      can_id = can_id;
      payload = payload;
      is_tx = tx;
    } in
    record r {
      recording_file =
          if r.recording && r.recording_file.is_open
          then write_line r.recording_file (format_can_entry local entry)
          else r.recording_file;
      frames = r.frames ++ entry ∷ [];
    }
