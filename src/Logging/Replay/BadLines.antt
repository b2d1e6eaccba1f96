-- ===== src/Logging/Replay/BadLines.antt =====
-- src/logging/replay_analyzer.cpp, ReplayAnalyzer::loadFile: the lines that a recording is made of, and those that
-- std::stoul throws on.
use mcp2515_rpi.Base.{
  ℕ, ◌<◌, ◌≡◌, refl, ap, sym, ◌∙◌, Bool, false, ◌||◌, none, some, List, [], ◌∷◌, ◌++◌, append-nil,
  length, IsBytes, arith, ◌==◌, if◌then◌else◌,
}
use mcp2515_rpi.Logging.Replay.Text.{
  CanLogEntry, is_space, is_hex, skip_spaces, split_word, read_word, stoul, frame_text, parse_line,
}
use mcp2515_rpi.Logging.Replay.Digits.{Ink}
use mcp2515_rpi.Logging.Replay.Lines.{read_word_of, parse_words, parse-frame_text}

-- A time of one word with the entry after it, the line that they make, and what is loaded of it.
abbrev pub line_text : List ℕ × CanLogEntry → List ℕ
line_text (stamp, entry) = stamp ++ frame_text entry

abbrev pub line_entry : List ℕ × CanLogEntry → CanLogEntry
line_entry (stamp, entry) = record entry { timestamp = 0 }

pub record IsLine (line : List ℕ × CanLogEntry) : Type 0 where
  pub ink : Ink line.0
  pub long : 0 < length line.0
  pub id : line.1.can_id < 4294967296
  pub bytes : IsBytes line.1.payload

pub parse-line_text :
    (line : List ℕ × CanLogEntry)
    → IsLine line
    → parse_line (line_text line) ≡ some (line_entry line)
parse-line_text ([], entry) h = absurd (impossible h.long)
  where
    impossible : 0 < length {A = ℕ} [] → ⊥
    impossible h = omega arith
parse-line_text (c ∷ stamp, entry) h = parse-frame_text entry c stamp h.ink h.id h.bytes

abbrev pub starts_number : ℕ → Bool
starts_number c = is_space c || is_hex c || c == b'-' || c == b'+'

-- The lines without a number in their second word: an empty one, a single word, and one whose second word begins
-- with no sign and no digit.
pub data NoNumber : List ℕ → Type 0 where
  empty_line : NoNumber []
  one_word : (word : List ℕ) → Ink word → 0 < length word → NoNumber word
  no_digit :
      (word : List ℕ) (c : ℕ) (rest : List ℕ)
      → Ink word
      → 0 < length word
      → starts_number c ≡ false
      → NoNumber (word ++ (32 ∷ c ∷ rest))

stoul_empty : stoul [] ≡ none
unfolding stoul skip_spaces
stoul_empty = refl

split_word_head :
    (c : ℕ) (rest : List ℕ)
    → is_space c ≡ false
    → split_word (c ∷ rest) ≡ (c ∷ (split_word rest).0, (split_word rest).1)
unfolding split_word
split_word_head c rest h = rw (h, if◌then◌else◌) refl

stoul_no_digit : (c : ℕ) (rest : List ℕ) → starts_number c ≡ false → stoul (c ∷ rest) ≡ none
unfolding stoul skip_spaces
stoul_no_digit c [] h = ground (arith, h)
stoul_no_digit c (d ∷ rest) h = ground (arith, h)

second_word :
    (c : ℕ) (rest : List ℕ)
    → starts_number c ≡ false
    → read_word (32 ∷ c ∷ rest) ≡ (c ∷ (split_word rest).0, (split_word rest).1)
unfolding read_word skip_spaces
second_word c rest h =
    let ink : is_space c ≡ false = ground (arith, h) in
    rw (ink, if◌then◌else◌) (split_word_head c rest ink)

no_word : read_word [] ≡ ([], [])
unfolding read_word skip_spaces split_word
no_word = refl

pub NoNumber-throws : (line : List ℕ) → NoNumber line → parse_line line ≡ none
NoNumber-throws _ empty_line = unfold parse_line read_word stoul in refl
NoNumber-throws _ (one_word word ink long) =
    parse_words word word [] [] [] [] []
      (ap read_word (sym (append-nil word)) ∙ (read_word_of word [] ink long refl).0) no_word
      no_word
    ∙ rw (stoul_empty) refl
NoNumber-throws _ (no_digit word c rest ink long h) =
    parse_words (word ++ (32 ∷ c ∷ rest)) word (32 ∷ c ∷ rest) (c ∷ (split_word rest).0)
      (split_word rest).1 (read_word (split_word rest).1).0 (read_word (split_word rest).1).1
      (read_word_of word (32 ∷ c ∷ rest) ink long refl).0 (second_word c rest h) refl
    ∙ rw (stoul_no_digit c (split_word rest).0 h) refl
