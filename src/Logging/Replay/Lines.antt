-- ===== src/Logging/Replay/Lines.antt =====
-- src/logging/replay_analyzer.cpp: a line of words, and the bytes at its end.
use mcp2515_rpi.Base.{
  ℕ, zero, suc, ◌+◌, ◌*◌, ◌/◌, ◌%◌, ◌≤◌, ◌<◌, ◌≡◌, refl, ap, sym, ◌∙◌, Bool, true, false, some,
  List, [], ◌∷◌, ◌++◌, append-nil, length, All, IsBytes, arith, leb, if◌then◌else◌,
}
use mcp2515_rpi.Logging.Replay.Text.{
  CanLogEntry, is_space, is_hex, hex_value, hex_digit, hex_digits, hex_text, starts_hex,
  is_negative, without_sign, without_prefix, skip_spaces, split_word, read_word, read_u32, stoul,
  read_bytes, bytes_text, entry_of, is_tx_text, direction_text, frame_text, parse_line,
}
use mcp2515_rpi.Logging.Replay.Digits.{
  hex_digit_value, hex_digit-is_hex, Fits, hex_digits-hex_text, is_plain, hex_digit-is_plain, Ink,
  hex_text-Ink, hex_text_starts,
}

-- The rest of a line that ends a word: nothing, or a space.
abbrev pub ends_word : List ℕ → Bool
ends_word [] = true
ends_word (c ∷ cs) = is_space c

pub split_word_lem :
    (word rest : List ℕ)
    → Ink word
    → ends_word rest ≡ true
    → split_word (word ++ rest) ≡ (word, rest)
unfolding split_word
split_word_lem [] [] ink end = refl
split_word_lem [] (c ∷ rest) ink end = rw (end, if◌then◌else◌) refl
split_word_lem (c ∷ word) rest ink end =
    rw (ink.0, if◌then◌else◌, split_word_lem word rest ink.1 end) refl

-- Reading a word after a space.
pub read_word_lem :
    (c : ℕ) (word rest : List ℕ)
    → Ink (c ∷ word)
    → ends_word rest ≡ true
    → (read_word (c ∷ (word ++ rest)) ≡ (c ∷ word, rest))
      × (read_word (32 ∷ c ∷ (word ++ rest)) ≡ (c ∷ word, rest))
unfolding read_word skip_spaces
read_word_lem c word rest ink end =
    rw (ink.0, if◌then◌else◌, split_word_lem (c ∷ word) rest ink end) (refl, refl)

pub bytes_text_ends : (bytes : List ℕ) → ends_word (bytes_text bytes) ≡ true
unfolding bytes_text
bytes_text_ends [] = refl
bytes_text_ends (b ∷ bytes) = refl

pub hex_digits_end : (n : ℕ) (rest : List ℕ) → ends_word rest ≡ true → hex_digits n rest ≡ (n, rest)
unfolding hex_digits
hex_digits_end n [] end = refl
hex_digits_end n (c ∷ rest) end = ground arith

-- What is not read as a sign or a prefix.
pub plain_head :
    (c : ℕ) (cs : List ℕ)
    → is_plain c ≡ true
    → (skip_spaces (c ∷ cs) ≡ c ∷ cs)
      × (skip_spaces (32 ∷ c ∷ cs) ≡ c ∷ cs)
      × (without_sign (c ∷ cs) ≡ c ∷ cs)
      × (is_negative (c ∷ cs) ≡ false)
unfolding skip_spaces
plain_head c cs h = (ground (arith, h), ground (arith, h), ground (arith, h), ground (arith, h))

pub plain_second :
    (c d : ℕ) (cs : List ℕ) → is_plain d ≡ true → without_prefix (c ∷ d ∷ cs) ≡ c ∷ d ∷ cs
plain_second c d cs h = ground (arith, h)

-- Two digits are read, and no more.
pub read_two :
    (c d v : ℕ) (rest : List ℕ)
    → is_plain c ≡ true
    → is_plain d ≡ true
    → is_hex c ≡ true
    → is_hex d ≡ true
    → (0 * 16 + hex_value c) * 16 + hex_value d ≡ v
    → leb v 4294967295 ≡ true
    → ends_word rest ≡ true
    → read_u32 (32 ∷ c ∷ d ∷ rest) ≡ some (v, rest)
unfolding read_u32
read_two c d v rest plain_c plain_d hex_c hex_d value small end =
    let (skip, after_space, sign, positive) = plain_head c (d ∷ rest) plain_c in
    rw
      (
        after_space,
        sign,
        plain_second c d rest plain_d,
        hex_c,
        hex_d,
        value,
        hex_digits_end v rest end,
        small,
        positive,
      )
      refl

pub read_byte :
    (b : ℕ) (rest : List ℕ)
    → b < 256
    → ends_word rest ≡ true
    → read_u32 (32 ∷ hex_digit (b / 16) ∷ hex_digit (b % 16) ∷ rest) ≡ some (b, rest)
read_byte b rest h end =
    let high : b / 16 < 16 = omega arith in
    let low : b % 16 < 16 = omega arith in
    read_two (hex_digit (b / 16)) (hex_digit (b % 16)) b rest (hex_digit-is_plain (b / 16) high)
      (hex_digit-is_plain (b % 16) low) (hex_digit-is_hex (b / 16) high)
      (hex_digit-is_hex (b % 16) low)
      (rw (hex_digit_value (b / 16) high, hex_digit_value (b % 16) low) (omega arith))
      (ground arith) end

pub read_bytes-bytes_text :
    (fuel : ℕ) (bytes : List ℕ)
    → IsBytes bytes
    → length bytes ≤ fuel
    → read_bytes fuel (bytes_text bytes) ≡ bytes
unfolding read_bytes bytes_text
read_bytes-bytes_text zero [] h enough = refl
read_bytes-bytes_text zero (b ∷ bytes) h enough = absurd (omega arith)
read_bytes-bytes_text (suc fuel) [] h enough = unfold read_u32 in refl
read_bytes-bytes_text (suc fuel) (b ∷ bytes) h enough =
    rw
      (
        read_byte b (bytes_text bytes) h.0 (bytes_text_ends bytes),
        read_bytes-bytes_text fuel bytes h.1 (omega arith),
      )
      (ap (λ v. v ∷ bytes) {x = b % 256} (omega arith))

pub bytes_text_longer : (bytes : List ℕ) → length bytes ≤ length (bytes_text bytes)
unfolding bytes_text
bytes_text_longer [] = omega arith
bytes_text_longer (b ∷ bytes) = omega (arith, bytes_text_longer bytes)

-- The identifier is read back.
pub stoul-hex_text : (n : ℕ) → n < 4294967296 → stoul (b'0' ∷ b'x' ∷ hex_text 7 n) ≡ some n
unfolding stoul skip_spaces
stoul-hex_text n h =
    let fits : Fits 7 n = omega arith in
    let same = append-nil (hex_text 7 n) in
    rw
      (
        ap starts_hex (sym same) ∙ hex_text_starts 7 n [] fits,
        if◌then◌else◌,
        ap starts_hex (sym same) ∙ hex_text_starts 7 n [] fits,
        ap (hex_digits 0) (sym same) ∙ hex_digits-hex_text 7 n [] fits,
      )
      (ground arith)

pub ends_after :
    (tx : Bool) (bytes : List ℕ) → Ink (direction_text tx) × (is_tx_text (direction_text tx) ≡ tx)
ends_after true bytes = ((refl, (refl, tt)), refl)
ends_after false bytes = ((refl, (refl, tt)), refl)

-- The words of a line: what parse_line makes of them.
pub parse_words :
    (line stamp more id rest direction bytes : List ℕ)
    → read_word line ≡ (stamp, more)
    → read_word more ≡ (id, rest)
    → read_word rest ≡ (direction, bytes)
    → parse_line line ≡ entry_of (stoul id) direction bytes
unfolding parse_line
parse_words line stamp more id rest direction bytes one two three = rw (one, two, three) refl

pub direction_word :
    (tx : Bool) (bytes : List ℕ)
    → read_word (32 ∷ (direction_text tx ++ bytes_text bytes))
      ≡ (direction_text tx, bytes_text bytes)
direction_word true bytes =
    (read_word_lem b'T' (b'X' ∷ []) (bytes_text bytes) (refl, (refl, tt)) (bytes_text_ends bytes)).1
direction_word false bytes =
    (read_word_lem b'R' (b'X' ∷ []) (bytes_text bytes) (refl, (refl, tt)) (bytes_text_ends bytes)).1

-- A line with a time of one word, without spaces, before an identifier of 32 bits, a direction and bytes is loaded
-- with exactly that identifier, direction and those bytes.
pub parse-frame_text :
    (entry : CanLogEntry) (c : ℕ) (stamp : List ℕ)
    → All (λ c. is_space c ≡ false) (c ∷ stamp)
    → entry.can_id < 4294967296
    → IsBytes entry.payload
    → parse_line (c ∷ (stamp ++ frame_text entry)) ≡ some (record entry { timestamp = 0 })
parse-frame_text entry c stamp ink id bytes =
    parse_words _ _ _ _ _ _ _ (read_word_lem c stamp (frame_text entry) ink refl).0
      (read_word_lem b'0' (b'x' ∷ hex_text 7 entry.can_id)
        (32 ∷ (direction_text entry.is_tx ++ bytes_text entry.payload))
        (refl, (refl, hex_text-Ink 7 entry.can_id (omega arith))) refl).1
      (direction_word entry.is_tx entry.payload)
    ∙ rw
        (
          stoul-hex_text entry.can_id id,
          (ends_after entry.is_tx []).1,
          read_bytes-bytes_text _ entry.payload bytes (bytes_text_longer entry.payload),
        )
        (ap (λ n. some (record entry { timestamp = 0; can_id = n })) {x = entry.can_id % 4294967296}
          (omega arith))

pub read_word_of :
    (word rest : List ℕ)
    → Ink word
    → 0 < length word
    → ends_word rest ≡ true
    → (read_word (word ++ rest) ≡ (word, rest)) × (read_word (32 ∷ (word ++ rest)) ≡ (word, rest))
read_word_of [] rest ink long end = absurd (omega arith)
read_word_of (c ∷ word) rest ink long end = read_word_lem c word rest ink end
