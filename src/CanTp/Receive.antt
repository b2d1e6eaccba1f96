-- ===== src/CanTp/Receive.antt =====
-- What the receiver does with each kind of frame that a sender builds.
use mcp2515_rpi.Base.{
  ℕ, ◌+◌, ◌*◌, ◌/◌, ◌%◌, ◌≤◌, ◌<◌, bit_and, bit_or, ◌≡◌, List, [], ◌∷◌, ◌++◌, arith, length, take,
  u8, ltb, if◌then◌else◌, take_all, length-append, length-take,
}
use mcp2515_rpi.Base.Bits.{bit_or_join, bit_and_0f, bit_and_ff}
use mcp2515_rpi.Base.Tables.{high_nibble}
use mcp2515_rpi.CanTp.{
  State, CanTp, Received, next_seq_num, process_frame, build_single_frame, build_first_frame,
  build_consecutive_frame,
}

-- The first byte of each frame: its type above, its low nibble below.
single_byte : (n : ℕ) → n < 16 → u8 (bit_or 0x00 n) ≡ n
single_byte n h = omega (arith, bit_or_join 4 0 n h)

first_byte : (n : ℕ) → u8 (bit_or 0x10 (bit_and n 0x0F)) ≡ 16 + n % 16
first_byte n = ground (arith, bit_and_0f n, bit_or_join 4 1 (n % 16) (omega arith))

consecutive_byte : (n : ℕ) → u8 (bit_or 0x20 (bit_and n 0x0F)) ≡ 32 + n % 16
consecutive_byte n = ground (arith, bit_and_0f n, bit_or_join 4 2 (n % 16) (omega arith))

type_nibble : (k n : ℕ) → k < 16 → n < 16 → bit_and (k * 16 + n) 0xF0 ≡ k * 16
type_nibble k n h p = omega (arith, high_nibble (k * 16 + n) (omega arith))

-- The receiver of a message from `id` of `total` bytes, of which `buffer` has come.
abbrev pub receiving : CanTp → ℕ → ℕ → ℕ → List ℕ → CanTp
receiving t id total seq buffer = record t {
  receive_buffer = buffer;
  expected_total_size = total;
  received_size = length buffer;
  expected_seq_num = seq;
  current_source_id = id;
  state = State.receiving_multi_frame;
}

-- A consecutive frame in sequence adds its chunk, and the message is out when all has come.
abbrev pub after_chunk : CanTp → ℕ → ℕ → ℕ → List ℕ → CanTp × List Received
after_chunk t id total seq buffer =
    if ltb (length buffer) total then (receiving t id total (next_seq_num seq) buffer, []) else (
      record (receiving t id total (next_seq_num seq) buffer) {
        receive_buffer = [];
        state = State.idle;
      },
      record { source_id = id; payload = buffer } ∷ [],
    )

pub process-single :
    (t : CanTp) (id : ℕ) (bytes : List ℕ)
    → length bytes ≤ 7
    → process_frame t id (build_single_frame bytes)
      ≡ (t, record { source_id = id; payload = bytes } ∷ [])
unfolding process_frame build_single_frame
process-single t id bytes h = ground (
  arith,
  single_byte (length bytes),
  type_nibble 0 (length bytes),
  bit_and_0f (length bytes),
  take_all (length bytes) bytes,
)

-- A consecutive frame in sequence, from the sender of the message.
pub process-consecutive :
    (t : CanTp) (id total seq : ℕ) (buffer chunk : List ℕ)
    → seq < 16
    → length buffer + length chunk ≤ total
    → total < 4096
    → length chunk ≤ 7
    → process_frame (receiving t id total seq buffer) id (build_consecutive_frame seq chunk)
      ≡ after_chunk t id total seq (buffer ++ chunk)
unfolding process_frame build_consecutive_frame
process-consecutive t id total seq buffer chunk h fits small seven = ground (
  arith,
  consecutive_byte seq,
  type_nibble 2 (seq % 16),
  bit_and_0f (32 + seq),
  take_all (length chunk) chunk,
  length-append buffer chunk,
)

-- A first frame starts a message of the length that it announces, with the first six bytes.
pub process-first :
    (t : CanTp) (id : ℕ) (bytes : List ℕ)
    → 7 < length bytes
    → length bytes < 4096
    → process_frame t id (build_first_frame bytes).0
      ≡ (receiving t id (length bytes) 2 (take 6 bytes), [])
unfolding process_frame build_first_frame
process-first t id bytes h small = ground (
  arith,
  first_byte (length bytes / 256),
  type_nibble 1 (length bytes / 256 % 16),
  bit_and_0f (16 + length bytes / 256),
  bit_and_ff (length bytes),
  bit_or_join 8 (length bytes / 256) (length bytes % 256),
  length-take 6 bytes,
  take_all 6 (take 6 bytes),
)
