-- ===== src/Logging/Runs.antt =====
-- Concrete runs of the recorder, the log and the metrics, and the theorems at concrete inputs.
use mathlib.Core.List.{Perm}
use mcp2515_rpi.Base.{
  ℕ, ◌+◌, ◌≡◌, refl, true, false, none, some, List, [], ◌∷◌, ◌++◌, map, arith, length, take, leb,
  ltb, not, min,
}
use mcp2515_rpi.Base.Texts.{text}
use mcp2515_rpi.Base.Latest.{latest}
use mcp2515_rpi.Logging.Replay.{
  ReplayAnalyzer, refused, loaded, thrown, init, load_file, start_replay, stop_replay,
  get_next_frames, start_recording, stop_recording,
}
use mcp2515_rpi.Logging.Replay.Text.{
  LocalTime, CanLogEntry, parse_line, format_can_entry, frame_text, hex_text, bytes_text, stoul,
  read_bytes, read_u32,
}
use mcp2515_rpi.Logging.Replay.Laws.{play, sum, play_lem}
use mcp2515_rpi.Logging.Replay.Lines.{parse-frame_text}
use mcp2515_rpi.Logging.Replay.BadLines.{line_text, line_entry, no_digit}
use mcp2515_rpi.Logging.Replay.Recording.{
  record_frames, line_of, frame_of, reloaded, load_lem, record-load, restart_lem,
}
use mcp2515_rpi.Logging.Replay.Analysis.{analyze}
use mcp2515_rpi.Logging.Replay.Analysis.Counts.{occurrences, contains, Increasing}
use mcp2515_rpi.Logging.Replay.Analysis.Laws.{Descending, with_occurrences, analyze_lem}
use mcp2515_rpi.Logging.Logger.{
  LogLevel, CanLogger, rotate_if_needed, get_recent_logs, level_from_string, log_can_frame,
  set_level,
}
use mcp2515_rpi.Logging.Logger.Laws.{
  Call, log_all, lines_from, get_recent_logs_lem, rotate_if_needed_lem, or_else,
}

abbrev frame : ℕ → CanLogEntry
frame id = record { timestamp = 5; can_id = id; payload = 0x02 ∷ 0x01 ∷ 0x0C ∷ []; is_tx = true }

abbrev noon : LocalTime
noon = record { year = 2024; month = 5; day = 6; hour = 12; minute = 30; second = 1; ms = 250 }

abbrev recording : ReplayAnalyzer
recording = record init { frames = frame 0x7E0 ∷ frame 0x7E8 ∷ frame 0x7E0 ∷ [] }

play_lem_example :
    ((play (start_replay recording) (2 ∷ 0 ∷ [])).1 ≡ take (sum (2 ∷ 0 ∷ [])) recording.frames)
    × ((play (start_replay recording) (2 ∷ 0 ∷ [])).0.replaying
        ≡ not (leb (length recording.frames) (sum (2 ∷ 0 ∷ []))))
play_lem_example = play_lem recording 2 (0 ∷ []) (omega arith, (omega arith, tt))

stopped : (get_next_frames (stop_replay recording) 2).1 ≡ []
unfolding stop_replay get_next_frames
stopped = refl

-- The line of the comment in startRecording.
written_line :
    format_can_entry noon (frame 0x7E0) ≡ text "2024-05-06 12:30:01.250 0x7e0 TX 02 01 0c"
unfolding format_can_entry hex_text bytes_text
written_line = refl

read_line : parse_line (text "t 0x7e0 TX 02 01 0c") ≡ some (record (frame 0x7E0) { timestamp = 0 })
unfolding parse_line stoul read_bytes read_u32
read_line = refl

parse-frame_text_example :
    parse_line (b't' ∷ ([] ++ frame_text (frame 0x7E0)))
    ≡ some (record (frame 0x7E0) { timestamp = 0 })
parse-frame_text_example =
    parse-frame_text (frame 0x7E0) b't' [] (refl, tt) (omega arith)
      (omega arith, (omega arith, (omega arith, tt)))

-- Without a hexadecimal number in the second word the load throws.
bad_line : parse_line (text "t x") ≡ none
unfolding parse_line stoul
bad_line = refl

abbrev lines : List (List ℕ × CanLogEntry)
lines = (text "t", frame 0x7E0) ∷ []

load_lem_example :
    (load_file recording none ≡ (recording, refused))
    × (load_file recording (some (map line_text lines))
        ≡ (record recording { frames = map line_entry lines }, loaded))
    × (load_file recording (some (map line_text lines ++ (text "t x" ∷ text "t 0x7e0 TX" ∷ [])))
        ≡ (record recording { frames = map line_entry lines }, thrown))
load_lem_example =
    load_lem recording lines (text "t x") (text "t 0x7e0 TX" ∷ [])
      (
        record {
          ink = (refl, tt);
          long = omega arith;
          id = omega arith;
          bytes = (omega arith, (omega arith, (omega arith, tt)));
        },
        tt,
      )
      (no_digit (text "t") b'x' [] (refl, tt) (omega arith) refl)

record-load_example :
    let es : List (LocalTime × CanLogEntry) = (noon, frame 0x7E0) ∷ [] in
    ((stop_recording (record_frames (start_recording init [] true).0 es)).recording_file.written
      ≡ map line_of es)
    × (load_file recording (some (map line_of es))
        ≡ (record recording { frames = map reloaded es }, loaded))
unfolding init
record-load_example =
    record-load init recording [] ((noon, frame 0x7E0) ∷ []) refl (omega arith, tt)

abbrev open_recording : ReplayAnalyzer
open_recording = record init {
  recording = true;
  recording_file = record { is_open = true; failed = false; written = [] };
}

restart_lem_example :
    let es : List (LocalTime × CanLogEntry) = (noon, frame 0x7E0) ∷ [] in
    ((start_recording open_recording (text "b") true).1 ≡ true)
    × ((record_frames (start_recording open_recording (text "b") true).0 es).recording_file.written
        ≡ [])
    × ((record_frames (start_recording open_recording (text "b") true).0 es).frames
        ≡ [] ++ map frame_of es)
unfolding init
restart_lem_example = restart_lem open_recording (text "b") true ((noon, frame 0x7E0) ∷ []) refl

busiest : (analyze recording).top_ids ≡ (0x7E0, 2) ∷ (0x7E8, 1) ∷ []
unfolding analyze
busiest = refl

analyze_lem_example :
    ((analyze recording).rx_count + (analyze recording).tx_count ≡ (analyze recording).total_frames)
    × (contains (analyze recording).unique_ids 0x7E8 ≡ ltb 0 (occurrences 0x7E8 recording.frames))
    × Increasing (analyze recording).unique_ids
    × (length (analyze recording).top_ids ≡ min 10 (length (analyze recording).unique_ids))
    × (rest : List (ℕ × ℕ)) × Descending ((analyze recording).top_ids ++ rest)
    × Perm
        ((analyze recording).top_ids ++ rest)
        (map (with_occurrences recording.frames) (analyze recording).unique_ids)
analyze_lem_example = analyze_lem recording 0x7E8

abbrev quiet : CanLogger
quiet = record {
  level = LogLevel.warning;
  max_size = 100;
  max_files = 2;
  file_is_open = true;
  files = λ j. some (text "line" ∷ []);
  recent_logs = [];
}

abbrev call : LogLevel → Call
call level = record { stamp = []; pos = some 5; answer = true; level = level; message = text "m" }

get_recent_logs_lem_example :
    get_recent_logs (log_all quiet (call LogLevel.error ∷ call LogLevel.debug ∷ [])) 7
    ≡ latest
        (min 7 1000)
        (lines_from LogLevel.warning (call LogLevel.error ∷ call LogLevel.debug ∷ []))
get_recent_logs_lem_example =
    get_recent_logs_lem quiet (call LogLevel.error ∷ call LogLevel.debug ∷ []) 7 refl

rotate_if_needed_lem_example :
    (rotate_if_needed quiet (some 100) true).files 2 ≡ or_else (quiet.files 1) (quiet.files 2)
rotate_if_needed_lem_example =
    rotate_if_needed_lem quiet 100 2 true refl (omega arith) (omega arith)

levels :
    (level_from_string (text "WARN") ≡ LogLevel.warning)
    × (level_from_string (text "loud") ≡ LogLevel.info)
unfolding level_from_string
levels = (refl, refl)

frame_logged :
    (log_can_frame
      (set_level quiet LogLevel.trace)
      (text "now")
      none
      true
      true
      0x7E0
      (0x3E ∷ 0x00 ∷ [])).recent_logs
    ≡ text "[now] [TRACE] TX ID:0x7e0 [3e 00]" ∷ []
unfolding log_can_frame set_level hex_text
frame_logged = refl
