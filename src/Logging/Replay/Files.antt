-- ===== src/Logging/Replay/Files.antt =====
-- src/logging/replay_analyzer.cpp: recordings that are written and loaded.
use mcp2515_rpi.Base.{
  ℕ, zero, suc, ◌+◌, ◌*◌, ◌/◌, ◌%◌, ◌<◌, ◌≡◌, refl, ap, ◌∙◌, Bool, true, false, some, List, [], ◌∷◌,
  ◌++◌, arith, leb, if◌then◌else◌,
}
use mcp2515_rpi.Logging.Replay.Text.{
  LocalTime, CanLogEntry, is_space, is_hex, hex_value, hex_text, skip_spaces, read_u32, stoul,
  read_bytes, bytes_text, is_tx_text, direction_text, frame_text, parse_line, format_can_entry,
  date_text, clock_text, two_digits,
}
use mcp2515_rpi.Logging.Replay.Digits.{is_plain, Ink, hex_text-Ink}
use mcp2515_rpi.Logging.Replay.Lines.{
  read_word_of, read_word_lem, plain_head, plain_second, parse_words,
}

digit_is_ink : (n : ℕ) → is_space (48 + n % 10) ≡ false
digit_is_ink n = ground arith

two_digits-Ink : (n : ℕ) → Ink (two_digits n)
two_digits-Ink n = (digit_is_ink (n / 10), (digit_is_ink n, tt))

date_text-Ink : (t : LocalTime) → Ink (date_text t)
date_text-Ink t = (
  digit_is_ink (t.year / 1000),
  (
    digit_is_ink (t.year / 100),
    (
      digit_is_ink (t.year / 10),
      (
        digit_is_ink t.year,
        (refl, (digit_is_ink (t.month / 10), (digit_is_ink t.month, (refl, two_digits-Ink t.day)))),
      ),
    ),
  ),
)

clock_text-Ink : (t : LocalTime) → Ink (clock_text t)
clock_text-Ink t = (
  digit_is_ink (t.hour / 10),
  (
    digit_is_ink t.hour,
    (
      refl,
      (
        digit_is_ink (t.minute / 10),
        (
          digit_is_ink t.minute,
          (
            refl,
            (
              digit_is_ink (t.second / 10),
              (digit_is_ink t.second, (refl, (digit_is_ink (t.ms / 100), two_digits-Ink t.ms))),
            ),
          ),
        ),
      ),
    ),
  ),
)

stoul_two :
    (c d v : ℕ) (cs : List ℕ)
    → is_plain c ≡ true
    → is_plain d ≡ true
    → is_hex c ≡ true
    → is_hex d ≡ true
    → (0 * 16 + hex_value c) * 16 + hex_value d ≡ v
    → leb v 18446744073709551615 ≡ true
    → stoul (c ∷ d ∷ b':' ∷ cs) ≡ some v
unfolding stoul
stoul_two c d v cs plain_c plain_d hex_c hex_d value small =
    let (skip, after_space, sign, positive) = plain_head c (d ∷ b':' ∷ cs) plain_c in
    rw
      (
        skip,
        sign,
        plain_second c d (b':' ∷ cs) plain_d,
        hex_c,
        if◌then◌else◌,
        hex_c,
        hex_d,
        value,
        small,
        positive,
      )
      refl

digit_is_plain : (n : ℕ) → (is_plain (48 + n % 10) ≡ true) × (is_hex (48 + n % 10) ≡ true)
digit_is_plain n = (ground arith, ground arith)

stoul-clock_text :
    (t : LocalTime) → stoul (clock_text t) ≡ some (t.hour / 10 % 10 * 16 + t.hour % 10)
stoul-clock_text t =
    let (plain_c, hex_c) = digit_is_plain (t.hour / 10) in
    let (plain_d, hex_d) = digit_is_plain t.hour in
    stoul_two _ _ _ _ plain_c plain_d hex_c hex_d (ground arith) (ground arith)

not_tx : (cs : List ℕ) → is_tx_text (b'0' ∷ cs) ≡ false
not_tx [] = refl
not_tx (c ∷ []) = refl
not_tx (c ∷ d ∷ cs) = refl

no_bytes :
    (fuel : ℕ) (tx : Bool) (cs : List ℕ) → read_bytes fuel (32 ∷ (direction_text tx ++ cs)) ≡ []
unfolding read_bytes read_u32 skip_spaces
no_bytes zero tx cs = refl
no_bytes (suc fuel) true cs = refl
no_bytes (suc fuel) false cs = refl

-- A line that recordFrame writes is loaded, whatever frame it records, as a received frame without bytes whose
-- identifier is made of the two digits of the hour.
pub parse-format :
    (local : LocalTime) (entry : CanLogEntry)
    → entry.can_id < 4294967296
    → parse_line (format_can_entry local entry)
      ≡ some record {
        timestamp = 0;
        can_id = local.hour / 10 % 10 * 16 + local.hour % 10;
        payload = [];
        is_tx = false;
      }
unfolding format_can_entry
parse-format local entry id =
    parse_words _ _ _ _ _ _ _
      (read_word_of (date_text local) (32 ∷ (clock_text local ++ frame_text entry))
        (date_text-Ink local) (omega arith) refl).0
      (read_word_of (clock_text local) (frame_text entry) (clock_text-Ink local) (omega arith)
        refl).1
      (read_word_lem b'0' (b'x' ∷ hex_text 7 entry.can_id)
        (32 ∷ (direction_text entry.is_tx ++ bytes_text entry.payload))
        (refl, (refl, hex_text-Ink 7 entry.can_id (omega arith))) refl).1
    ∙ rw
        (
          stoul-clock_text local,
          not_tx (b'x' ∷ hex_text 7 entry.can_id),
          no_bytes _ entry.is_tx (bytes_text entry.payload),
        )
        (ap (λ n. some (record { timestamp = 0; can_id = n; payload = []; is_tx = false }))
          {x = (local.hour / 10 % 10 * 16 + local.hour % 10) % 4294967296} (omega arith))
