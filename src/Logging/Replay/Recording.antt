-- ===== src/Logging/Replay/Recording.antt =====
-- src/logging/replay_analyzer.cpp: a recording from its start to its load, and the errors of a load.
use mcp2515_rpi.Base.{
  ℕ, ◌+◌, ◌*◌, ◌/◌, ◌%◌, ◌<◌, ◌≡◌, refl, ap, sym, ◌∙◌, Bool, true, false, none, some, List, [], ◌∷◌,
  ◌++◌, map, append-nil, append_assoc, All, arith, if◌then◌else◌,
}
use mcp2515_rpi.Logging.Replay.Text.{LocalTime, CanLogEntry, parse_line, format_can_entry}
use mcp2515_rpi.Logging.Replay.Files.{parse-format}
use mcp2515_rpi.Logging.Replay.BadLines.{
  line_text, line_entry, IsLine, parse-line_text, NoNumber, NoNumber-throws,
}
use mcp2515_rpi.Logging.Replay.{
  ReplayAnalyzer, OutputFile, refused, loaded, thrown, load_lines, load_file, start_recording,
  stop_recording, record_frame,
}

-- Frames recorded one after the other, each with its local time.
pub record_frames : ReplayAnalyzer → List (LocalTime × CanLogEntry) → ReplayAnalyzer
unfolding record_frame
record_frames r [] = r
record_frames r ((local, e) ∷ es) =
    record_frames (record_frame r e.timestamp local e.can_id e.payload e.is_tx) es

abbrev pub line_of : LocalTime × CanLogEntry → List ℕ
line_of (local, e) = format_can_entry local e

abbrev pub frame_of : LocalTime × CanLogEntry → CanLogEntry
frame_of (local, e) = e

-- What a load makes of a recorded line.
abbrev pub reloaded : LocalTime × CanLogEntry → CanLogEntry
reloaded (local, e) = record {
  timestamp = 0;
  can_id = local.hour / 10 % 10 * 16 + local.hour % 10;
  payload = [];
  is_tx = false;
}

abbrev pub HasId : LocalTime × CanLogEntry → Type 0
HasId (local, e) = e.can_id < 4294967296

record_frames_keeps :
    (r : ReplayAnalyzer) (es : List (LocalTime × CanLogEntry))
    → (record_frames r es).frames ≡ r.frames ++ map frame_of es
unfolding record_frames
record_frames_keeps r [] = rw (append-nil r.frames) refl
record_frames_keeps r ((local, e) ∷ es) =
    record_frames_keeps (record_frame r e.timestamp local e.can_id e.payload e.is_tx) es
    ∙ append_assoc r.frames (e ∷ []) (map frame_of es)

module _ (r : ReplayAnalyzer) (local : LocalTime) (e : CanLogEntry) where
  next_file : OutputFile
  unfolding record_frame
  next_file = (record_frame r e.timestamp local e.can_id e.payload e.is_tx).recording_file

  written_file :
      r.recording ≡ true
      → r.recording_file.is_open ≡ true
      → r.recording_file.failed ≡ false
      → next_file ≡ record r.recording_file {
        written = r.recording_file.written ++ format_can_entry local e ∷ [];
      }
  unfolding next_file
  written_file on opened fine = rw (on, opened, fine) refl

  failed_file : r.recording_file.failed ≡ true → next_file ≡ r.recording_file
  unfolding next_file
  failed_file failed = ground (arith, failed)

-- While a stream that works is recording, each frame becomes a line.
record_frames_writes :
    (r : ReplayAnalyzer) (es : List (LocalTime × CanLogEntry))
    → r.recording ≡ true
    → r.recording_file.is_open ≡ true
    → r.recording_file.failed ≡ false
    → (record_frames r es).recording_file
      ≡ record r.recording_file { written = r.recording_file.written ++ map line_of es }
unfolding record_frames next_file
record_frames_writes r [] on opened fine = rw (append-nil r.recording_file.written) refl
record_frames_writes r ((local, e) ∷ es) on opened fine =
    let file = written_file r local e on opened fine in
    record_frames_writes (record_frame r e.timestamp local e.can_id e.payload e.is_tx) es on
      (ap (λ f. f.is_open) file ∙ opened) (ap (λ f. f.failed) file ∙ fine)
    ∙ rw (file, append_assoc r.recording_file.written (line_of (local, e) ∷ []) (map line_of es))
        refl

-- A stream that has failed keeps what it has.
record_frames_failed :
    (r : ReplayAnalyzer) (es : List (LocalTime × CanLogEntry))
    → r.recording_file.failed ≡ true
    → (record_frames r es).recording_file ≡ r.recording_file
unfolding record_frames next_file
record_frames_failed r [] failed = refl
record_frames_failed r ((local, e) ∷ es) failed =
    let file = failed_file r local e failed in
    record_frames_failed (record_frame r e.timestamp local e.can_id e.payload e.is_tx) es
      (ap (λ f. f.failed) file ∙ failed)
    ∙ file

-- The lines that read as the entries, one by one.
abbrev pub Reads : List (List ℕ) → List CanLogEntry → Type 0
Reads [] [] = Unit {0}
Reads (line ∷ lines) (e ∷ es) = (parse_line line ≡ some e) × Reads lines es
Reads [] (e ∷ es) = ⊥
Reads (line ∷ lines) [] = ⊥

load_lines-append :
    (lines more : List (List ℕ)) (es : List CanLogEntry)
    → Reads lines es
    → load_lines (lines ++ more) ≡ (es ++ (load_lines more).0, (load_lines more).1)
unfolding load_lines
load_lines-append [] more [] h = refl
load_lines-append [] more (e ∷ es) h = absurd h
load_lines-append (l ∷ lines) more [] h = absurd h
load_lines-append (l ∷ lines) more (e ∷ es) h = rw (h.0, load_lines-append lines more es h.1) refl

recorded-Reads :
    (es : List (LocalTime × CanLogEntry)) → All HasId es → Reads (map line_of es) (map reloaded es)
recorded-Reads [] h = tt
recorded-Reads ((local, e) ∷ es) h = (parse-format local e h.0, recorded-Reads es h.1)

load_lines_all :
    (lines : List (List ℕ)) (es : List CanLogEntry)
    → Reads lines es
    → load_lines lines ≡ (es, loaded)
unfolding load_lines
load_lines_all lines es h =
    ap load_lines (sym (append-nil lines))
    ∙ load_lines-append lines [] es h
    ∙ ap (λ x. (x, loaded)) (append-nil es)

load_all :
    (r : ReplayAnalyzer) (lines : List (List ℕ)) (es : List CanLogEntry)
    → Reads lines es
    → load_file r (some lines) ≡ (record r { frames = es }, loaded)
unfolding load_file
load_all r lines es h = rw (load_lines_all lines es h) refl

load_bad :
    (lines after : List (List ℕ)) (bad : List ℕ) (es : List CanLogEntry)
    → Reads lines es
    → parse_line bad ≡ none
    → load_lines (lines ++ (bad ∷ after)) ≡ (es, thrown)
unfolding load_lines
load_bad lines after bad es h fails =
    load_lines-append lines (bad ∷ after) es h ∙ rw (fails) (ap (λ x. (x, thrown)) (append-nil es))

lines-Reads :
    (lines : List (List ℕ × CanLogEntry))
    → All IsLine lines
    → Reads (map line_text lines) (map line_entry lines)
lines-Reads [] h = tt
lines-Reads (line ∷ lines) (h, hs) = (parse-line_text line h, lines-Reads lines hs)

-- A load of a file that cannot be opened is refused and changes nothing. A file of lines of a time of one word, an
-- identifier of 32 bits, a direction and bytes gives exactly their entries, without the times. An empty line after
-- them, one of a single word, or one whose second word begins with no sign and no hexadecimal digit makes the load
-- throw, whatever follows it; the frames from before the load are then lost, and those of the lines before it are in
-- their place.
pub load_lem :
    (r : ReplayAnalyzer) (lines : List (List ℕ × CanLogEntry)) (bad : List ℕ)
    (after : List (List ℕ))
    → All IsLine lines
    → NoNumber bad
    → (load_file r none ≡ (r, refused))
      × (load_file r (some (map line_text lines))
          ≡ (record r { frames = map line_entry lines }, loaded))
      × (load_file r (some (map line_text lines ++ (bad ∷ after)))
          ≡ (record r { frames = map line_entry lines }, thrown))
unfolding load_file
load_lem r lines bad after good no_number =
    let reads = lines-Reads lines good in
    (
      refl,
      load_all r (map line_text lines) (map line_entry lines) reads,
      rw
          (load_bad (map line_text lines) after bad (map line_entry lines) reads
            (NoNumber-throws bad no_number))
          refl,
    )

-- A start on a closed stream, and on an open one.
start_closed :
    (r : ReplayAnalyzer) (path : List ℕ)
    → r.recording_file.is_open ≡ false
    → start_recording r path true ≡ (
      record r {
        recording_path = path;
        recording_file = record { is_open = true; failed = false; written = [] };
        recording = true;
      },
      true,
    )
unfolding start_recording
start_closed r path closed = rw (closed, if◌then◌else◌) refl

start_open :
    (r : ReplayAnalyzer) (path : List ℕ) (answer : Bool)
    → r.recording_file.is_open ≡ true
    → start_recording r path answer ≡ (
      record r {
        recording_path = path;
        recording_file = record r.recording_file { failed = true };
        recording = true;
      },
      true,
    )
unfolding start_recording
start_open r path answer opened = ground (arith, opened)

-- Recording from a closed stream writes one line for each frame; after the stop, loading those lines gives one
-- frame for each, but every one received, empty, and with the hour for its identifier.
pub record-load :
    (r q : ReplayAnalyzer) (path : List ℕ) (es : List (LocalTime × CanLogEntry))
    → r.recording_file.is_open ≡ false
    → All HasId es
    → ((stop_recording (record_frames (start_recording r path true).0 es)).recording_file.written
        ≡ map line_of es)
      × (load_file q (some (map line_of es)) ≡ (record q { frames = map reloaded es }, loaded))
unfolding stop_recording
record-load r q path es closed ids =
    let started : ReplayAnalyzer = record r {
      recording_path = path;
      recording_file = record { is_open = true; failed = false; written = [] };
      recording = true;
    } in
    (
      ap (λ s. (record_frames s.0 es).recording_file.written) (start_closed r path closed)
          ∙ ap (λ f. f.written) (record_frames_writes started es refl refl refl),
      load_all q (map line_of es) (map reloaded es) (recorded-Reads es ids),
    )

-- Starting a recording while another one is open answers `true`, and from then on no frame is written, neither to
-- the new file nor to the old one, while the frames are still kept in memory.
pub restart_lem :
    (r : ReplayAnalyzer) (path : List ℕ) (answer : Bool) (es : List (LocalTime × CanLogEntry))
    → r.recording_file.is_open ≡ true
    → ((start_recording r path answer).1 ≡ true)
      × ((record_frames (start_recording r path answer).0 es).recording_file.written
          ≡ r.recording_file.written)
      × ((record_frames (start_recording r path answer).0 es).frames ≡ r.frames ++ map frame_of es)
restart_lem r path answer es opened =
    let started : ReplayAnalyzer = record r {
      recording_path = path;
      recording_file = record r.recording_file { failed = true };
      recording = true;
    } in
    rw (start_open r path answer opened) (
      refl,
      ap (λ f. f.written) (record_frames_failed started es refl),
      record_frames_keeps started es,
    )
