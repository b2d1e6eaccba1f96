-- ===== src/Logging/Replay/Text.antt =====
-- src/logging/replay_analyzer.cpp: the lines of a recording, as the streams, std::stoul and std::put_time of the
-- C++ library read and write them.
use mcp2515_rpi.Base.{
  ℕ, suc, zero, ◌+◌, ◌-◌, ◌*◌, ◌/◌, ◌%◌, Bool, true, false, ◌&&◌, ◌||◌, Option, none, some, List,
  [], ◌∷◌, ◌++◌, ltb, leb, ◌==◌, if◌then◌else◌, u8, u32, length,
}

-- What std::localtime answers for the time of an entry, with its milliseconds.
pub record LocalTime : Type 0 where
  pub year : ℕ
  pub month : ℕ
  pub day : ℕ
  pub hour : ℕ
  pub minute : ℕ
  pub second : ℕ
  pub ms : ℕ

-- The time is a count of the clock's ticks.
pub record CanLogEntry : Type 0 where
  pub timestamp : ℕ
  pub can_id : ℕ
  pub payload : List ℕ
  pub is_tx : Bool

abbrev pub is_space : ℕ → Bool
is_space c = c == 32 || (leb 9 c && leb c 13)

abbrev pub is_hex : ℕ → Bool
is_hex c = (leb 48 c && leb c 57) || (leb 97 c && leb c 102) || (leb 65 c && leb c 70)

abbrev pub hex_value : ℕ → ℕ
hex_value c = if leb c 57 then c - 48 else if leb c 70 then c - 55 else c - 87

unfoldable pub skip_spaces : List ℕ → List ℕ
skip_spaces [] = []
skip_spaces (c ∷ cs) = let rest = skip_spaces cs in if is_space c then rest else c ∷ cs

-- The characters before the next space, and the rest.
unfoldable pub split_word : List ℕ → List ℕ × List ℕ
split_word [] = ([], [])
split_word (c ∷ cs) =
    let rest = split_word cs in if is_space c then ([], c ∷ cs) else (c ∷ rest.0, rest.1)

unfoldable pub read_word : List ℕ → List ℕ × List ℕ
unfolding skip_spaces split_word
read_word text = split_word (skip_spaces text)

abbrev pub starts_hex : List ℕ → Bool
starts_hex [] = false
starts_hex (c ∷ cs) = is_hex c

unfoldable pub hex_digits : ℕ → List ℕ → ℕ × List ℕ
hex_digits value [] = (value, [])
hex_digits value (c ∷ cs) =
    let rest = hex_digits (value * 16 + hex_value c) cs in
    if is_hex c then rest else (value, c ∷ cs)

abbrev pub is_negative : List ℕ → Bool
is_negative [] = false
is_negative (c ∷ cs) = c == b'-'

abbrev pub without_sign : List ℕ → List ℕ
without_sign [] = []
without_sign (c ∷ cs) = if c == b'-' || c == b'+' then cs else c ∷ cs

abbrev pub without_prefix : List ℕ → List ℕ
without_prefix [] = []
without_prefix (c ∷ []) = c ∷ []
without_prefix (c ∷ d ∷ cs) = if c == b'0' && (d == b'x' || d == b'X') then cs else c ∷ d ∷ cs

-- `ss >> std::hex >> byte`: a 32-bit number and the rest, or the fail bit.
unfoldable pub read_u32 : List ℕ → Option (ℕ × List ℕ)
unfolding skip_spaces hex_digits
read_u32 text =
    let start = skip_spaces text in
    let digits = without_prefix (without_sign start) in
    let number = hex_digits 0 digits in
    if starts_hex digits && leb number.0 4294967295
    then some
        (if is_negative start then (4294967296 - number.0) % 4294967296 else number.0, number.1)
    else none

-- `std::stoul(text, nullptr, 16)`: the prefix counts only before a digit. `none` is its exception.
unfoldable pub stoul : List ℕ → Option ℕ
unfolding skip_spaces hex_digits
stoul text =
    let start = skip_spaces text in
    let body = without_sign start in
    let digits = if starts_hex (without_prefix body) then without_prefix body else body in
    let number = hex_digits 0 digits in
    if starts_hex digits && leb number.0 18446744073709551615
    then some (
        if is_negative start
        then (18446744073709551616 - number.0) % 18446744073709551616
        else number.0)
    else none

abbrev pub keep_byte : Option (ℕ × List ℕ) → (List ℕ → List ℕ) → List ℕ
keep_byte none next = []
keep_byte (some (byte, rest)) next = u8 byte ∷ next rest

-- The loop over the bytes. Each number read takes a character, so that the length of the text is enough fuel.
unfoldable pub read_bytes : ℕ → List ℕ → List ℕ
read_bytes zero text = []
read_bytes (suc fuel) text = keep_byte (read_u32 text) (λ rest. read_bytes fuel rest)

abbrev pub is_tx_text : List ℕ → Bool
is_tx_text (c ∷ d ∷ []) = c == b'T' && d == b'X'
is_tx_text _ = false

abbrev pub entry_of : Option ℕ → List ℕ → List ℕ → Option CanLogEntry
entry_of none direction bytes = none
entry_of (some id) direction bytes = some record {
  timestamp = 0;
  can_id = u32 id;
  payload = read_bytes (length bytes) bytes;
  is_tx = is_tx_text direction;
}

-- One line: a word of time, an identifier, a direction and the bytes. `none` is the exception of stoul.
unfoldable pub parse_line : List ℕ → Option CanLogEntry
unfolding read_word
parse_line line =
    let stamp = read_word line in
    let id = read_word stamp.1 in
    let direction = read_word id.1 in entry_of (stoul id.0) direction.0 direction.1

abbrev pub digit : ℕ → ℕ
digit d = 48 + d

abbrev pub two_digits : ℕ → List ℕ
two_digits n = digit (n / 10 % 10) ∷ digit (n % 10) ∷ []

abbrev pub three_digits : ℕ → List ℕ
three_digits n = digit (n / 100 % 10) ∷ two_digits n

abbrev pub four_digits : ℕ → List ℕ
four_digits n = digit (n / 1000 % 10) ∷ three_digits n

-- "%Y-%m-%d".
abbrev pub date_text : LocalTime → List ℕ
date_text t = four_digits t.year ++ (b'-' ∷ (two_digits t.month ++ (b'-' ∷ two_digits t.day)))

-- "%H:%M:%S" and the milliseconds.
abbrev pub clock_text : LocalTime → List ℕ
clock_text t =
    two_digits t.hour
    ++ (b':'
        ∷ (two_digits t.minute ++ (b':' ∷ (two_digits t.second ++ (b'.' ∷ three_digits t.ms)))))

abbrev pub hex_digit : ℕ → ℕ
hex_digit d = if ltb d 10 then 48 + d else 87 + d

-- `std::hex` with no width. Eight digits hold an identifier of 32 bits.
unfoldable pub hex_text : ℕ → ℕ → List ℕ
hex_text zero n = hex_digit (n % 16) ∷ []
hex_text (suc more) n =
    let front = hex_text more (n / 16) in
    if ltb n 16 then hex_digit n ∷ [] else front ++ hex_digit (n % 16) ∷ []

unfoldable pub bytes_text : List ℕ → List ℕ
bytes_text [] = []
bytes_text (b ∷ bs) = 32 ∷ hex_digit (b / 16) ∷ hex_digit (b % 16) ∷ bytes_text bs

abbrev pub direction_text : Bool → List ℕ
direction_text true = b'T' ∷ b'X' ∷ []
direction_text false = b'R' ∷ b'X' ∷ []

-- What follows the time: identifier, direction and bytes.
abbrev pub frame_text : CanLogEntry → List ℕ
frame_text entry =
    32
    ∷ b'0'
    ∷ b'x'
    ∷ (hex_text 7 entry.can_id ++ (32 ∷ (direction_text entry.is_tx ++ bytes_text entry.payload)))

unfoldable pub format_can_entry : LocalTime → CanLogEntry → List ℕ
format_can_entry local entry = date_text local ++ (32 ∷ (clock_text local ++ frame_text entry))
