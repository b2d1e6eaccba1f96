-- ===== src/Logging/Logger.antt =====
-- src/logging/can_logger.hpp and can_logger.cpp, CANLogger. Files are a map from the number behind the path, 0 for
-- none; the clock's text, the position in the file and the answer to an open are arguments.
pub mod Laws
use mcp2515_rpi.Base.{
  ℕ, zero, suc, ◌+◌, ◌-◌, ◌*◌, ◌/◌, ◌%◌, Bool, true, false, ◌||◌, not, ◌&&◌, Option, none, some,
  List, [], ◌∷◌, ◌++◌, map, length, drop, ltb, leb, ◌==◌, if◌then◌else◌,
}
use mcp2515_rpi.Base.Texts.{text, same_text}
use mcp2515_rpi.Logging.Replay.Text.{hex_digit, hex_text}
use mcp2515_rpi.Router.{to_lower}

pub data LogLevel : Type 0 where
  trace debug info warning error critical : LogLevel

abbrev pub rank : LogLevel → ℕ
rank LogLevel.trace = 0
rank LogLevel.debug = 1
rank LogLevel.info = 2
rank LogLevel.warning = 3
rank LogLevel.error = 4
rank LogLevel.critical = 5

abbrev pub Files : Type 0
Files = ℕ → Option (List (List ℕ))

pub record CanLogger : Type 0 where
  pub level : LogLevel
  pub max_size : ℕ
  pub max_files : ℕ
  pub file_is_open : Bool
  pub files : Files
  pub recent_logs : List (List ℕ)

-- `ofstream::open` for appending makes the file where there is none.
abbrev pub existing : Option (List (List ℕ)) → Option (List (List ℕ))
existing none = some []
existing (some lines) = some lines

abbrev pub put_file : Files → ℕ → Option (List (List ℕ)) → Files
put_file files k content j = if j == k then content else files j

unfoldable pub open_file : CanLogger → Bool → CanLogger
open_file l answer =
    if answer
    then record l { file_is_open = true; files = put_file l.files 0 (existing (l.files 0)) }
    else record l { file_is_open = false }

unfoldable pub init : Files → LogLevel → ℕ → ℕ → Bool → CanLogger
unfolding open_file
init files level max_size_mb max_files answer =
    open_file
      record {
        level = level;
        max_size = max_size_mb * 1024 * 1024 % 18446744073709551616;
        max_files = max_files;
        file_is_open = false;
        files = files;
        recent_logs = [];
      }
      answer

-- `std::rename` replaces the target, and changes nothing when the source does not exist.
abbrev pub rename_found : Files → ℕ → ℕ → Option (List (List ℕ)) → Files
rename_found files old new none = files
rename_found files old new (some lines) = put_file (put_file files old none) new (some lines)

abbrev pub rename : Files → ℕ → ℕ → Files
rename files old new = rename_found files old new (files old)

-- The loop from `i` down to 1.
unfoldable pub rename_from : ℕ → Files → Files
rename_from zero files = files
rename_from (suc i) files = rename_from i (rename files (suc i) (suc (suc i)))

-- `tellp`, which answers -1 for a stream that has failed, against the size as a signed number of 64 bits.
abbrev pub below_size : Option ℕ → ℕ → Bool
below_size none size = ltb size 9223372036854775808
below_size (some pos) size = ltb size 9223372036854775808 && ltb pos size

unfoldable pub rotate_if_needed : CanLogger → Option ℕ → Bool → CanLogger
unfolding rename_from open_file
rotate_if_needed l pos answer =
    if not l.file_is_open || below_size pos l.max_size
    then l
    else open_file (record l { files = rename (rename_from (l.max_files - 1) l.files) 0 1 }) answer

abbrev pub append_line : Option (List (List ℕ)) → List ℕ → Option (List (List ℕ))
append_line none line = some (line ∷ [])
append_line (some lines) line = some (lines ++ line ∷ [])

abbrev pub write_file : CanLogger → List ℕ → Files
write_file l line =
    if l.file_is_open then put_file l.files 0 (append_line (l.files 0) line) else l.files

unfoldable pub write_log : CanLogger → Option ℕ → Bool → List ℕ → CanLogger
unfolding rotate_if_needed
write_log l pos answer formatted =
    let r = rotate_if_needed l pos answer in
    let recent = r.recent_logs ++ formatted ∷ [] in
    record r {
      files = write_file r formatted;
      recent_logs = if ltb 1000 (length recent) then drop 1 recent else recent;
    }

unfoldable pub level_to_string : LogLevel → List ℕ
level_to_string LogLevel.trace = text "TRACE"
level_to_string LogLevel.debug = text "DEBUG"
level_to_string LogLevel.info = text "INFO"
level_to_string LogLevel.warning = text "WARNING"
level_to_string LogLevel.error = text "ERROR"
level_to_string LogLevel.critical = text "CRITICAL"

abbrev from_lower : List ℕ → LogLevel
from_lower lower =
    if same_text lower (text "trace")
    then LogLevel.trace
    else if same_text lower (text "debug")
    then LogLevel.debug
    else if same_text lower (text "info")
    then LogLevel.info
    else if same_text lower (text "warning") || same_text lower (text "warn")
    then LogLevel.warning
    else if same_text lower (text "error")
    then LogLevel.error
    else if same_text lower (text "critical") || same_text lower (text "fatal")
    then LogLevel.critical
    else LogLevel.info

unfoldable pub level_from_string : List ℕ → LogLevel
level_from_string s = from_lower (map to_lower s)

-- "[" time "] [" level "] " message.
unfoldable pub formatted : List ℕ → LogLevel → List ℕ → List ℕ
unfolding level_to_string
formatted stamp level message =
    (b'[' ∷ (stamp ++ (text "] [" ++ (level_to_string level ++ (text "] " ++ message)))))

unfoldable pub log : CanLogger → List ℕ → Option ℕ → Bool → LogLevel → List ℕ → CanLogger
unfolding write_log formatted
log l stamp pos answer level message =
    if ltb (rank level) (rank l.level)
    then l
    else write_log l pos answer (formatted stamp level message)

unfoldable pub payload_text : List ℕ → List ℕ
payload_text [] = []
payload_text (b ∷ []) = hex_digit (b / 16) ∷ hex_digit (b % 16) ∷ []
payload_text (b ∷ c ∷ bytes) =
    hex_digit (b / 16) ∷ hex_digit (b % 16) ∷ 32 ∷ payload_text (c ∷ bytes)

abbrev pub tx_text : Bool → List ℕ
tx_text true = text "TX"
tx_text false = text "RX"

unfoldable pub frame_message : Bool → ℕ → List ℕ → List ℕ
unfolding payload_text
frame_message tx can_id payload =
    tx_text tx
    ++ (text " ID:0x" ++ (hex_text 7 can_id ++ (text " [" ++ (payload_text payload ++ text "]"))))

unfoldable pub log_can_frame : CanLogger → List ℕ → Option ℕ → Bool → Bool → ℕ → List ℕ → CanLogger
unfolding log frame_message
log_can_frame l stamp pos answer tx can_id payload =
    log l stamp pos answer LogLevel.trace (frame_message tx can_id payload)

unfoldable pub set_level : CanLogger → LogLevel → CanLogger
set_level l level = record l { level = level }

unfoldable pub get_recent_logs : CanLogger → ℕ → List (List ℕ)
get_recent_logs l count =
    if leb (length l.recent_logs) count
    then l.recent_logs
    else drop (length l.recent_logs - count) l.recent_logs
