-- ===== src/CanTp.antt =====
-- src/protocols/can_tp.hpp and can_tp.cpp: the ISO 15765-2 transport, in both directions.
-- A frame is a CAN identifier and a list of bytes. A received message leaves `target_id` and
-- `is_extended` uninitialised in the source, so `Received` has only the two fields it sets.
pub mod Receive
pub mod Invariant
pub mod RoundTrip
pub mod Frames
pub mod Reach
pub mod Sequence
mod Runs
use mcp2515_rpi.Base.{
  ℕ, zero, suc, ◌+◌, ◌-◌, ◌%◌, ◌^◌, min, bit_and, bit_or, Bool, true, false, not, ◌||◌, Option,
  none, some, List, [], ◌∷◌, ◌++◌, leb, ltb, ◌==◌, if◌then◌else◌, length, take, drop, u8, u16, ◌<<◌,
  ◌>>◌,
}

pub data State : Type 0 where
  idle wait_single_frame wait_first_frame receiving_multi_frame sending_multi_frame : State

pub record Message : Type 0 where
  pub payload : List ℕ
  pub source_id : ℕ
  pub target_id : ℕ
  pub is_extended : Bool

pub record Received : Type 0 where
  pub source_id : ℕ
  pub payload : List ℕ

pub record CanTp : Type 0 where
  pub state : State
  pub current_source_id : ℕ
  pub receive_buffer : List ℕ
  pub expected_total_size : ℕ
  pub received_size : ℕ
  pub expected_seq_num : ℕ
  pub block_size : ℕ
  pub st_min : ℕ
  pub frames_sent : ℕ
  pub total_frames : ℕ
  pub current_target_id : ℕ
  pub is_extended : Bool

abbrev pub Frame : Type 0
Frame = ℕ × List ℕ

pub init : CanTp
init = record {
  state = State.idle;
  current_source_id = 0;
  receive_buffer = [];
  expected_total_size = 0;
  received_size = 0;
  expected_seq_num = 1;
  block_size = 0;
  st_min = 0;
  frames_sent = 0;
  total_frames = 0;
  current_target_id = 0;
  is_extended = false;
}

abbrev is_receiving : State → Bool
is_receiving State.receiving_multi_frame = true
is_receiving _ = false

abbrev is_sending : State → Bool
is_sending State.sending_multi_frame = true
is_sending _ = false

pub get_pci_type : ℕ → ℕ
get_pci_type first_byte = bit_and first_byte 0xF0

pub get_pci_length : ℕ → ℕ
get_pci_length first_byte = bit_and first_byte 0x0F

-- `((data[0] & 0x0F) << 8) | data[1]` as a `uint16_t`.
abbrev length_field : ℕ → ℕ → ℕ
length_field b0 b1 = u16 (bit_or (bit_and b0 0x0F << 8) b1)

pub get_full_length : List ℕ → ℕ
get_full_length [] = 0
get_full_length (b0 ∷ []) = 0
get_full_length (b0 ∷ b1 ∷ rest) = length_field b0 b1

-- The case of a single frame; `rest` is the frame from byte 1 on.
pub receive_single : CanTp → ℕ → ℕ → List ℕ → CanTp × List Received
receive_single t can_id b0 rest =
    let pci_len = bit_and b0 0x0F in
    let payload =
      if ltb 1 (length (b0 ∷ rest)) then take (min pci_len (length rest)) rest else [] in
    (t, record { source_id = can_id; payload = payload } ∷ [])

pub receive_first : CanTp → ℕ → ℕ → List ℕ → CanTp × List Received
receive_first t can_id b0 [] = (t, [])
receive_first t can_id b0 (b1 ∷ rest) =
    let total_len = length_field b0 b1 in
    let init_data = if ltb 0 (length rest) then min (length rest) total_len else 0 in
    (
      record t {
        receive_buffer = take init_data rest;
        expected_total_size = total_len;
        received_size = u16 init_data;
        expected_seq_num = 2;
        current_source_id = can_id;
        state = State.receiving_multi_frame;
      },
      [],
    )

-- `seq_num + 1`, from 15 back to 0.
abbrev pub next_seq_num : ℕ → ℕ
next_seq_num seq_num = if seq_num == 0x0F then 0 else u8 (seq_num + 1)

-- The difference of two `uint16_t` is an `int`, and wraps as a `size_t` when it is negative.
abbrev size_difference : ℕ → ℕ → ℕ
size_difference a b = (a + 2 ^ 64 - b) % 2 ^ 64

-- A consecutive frame that has the expected sequence number.
accept_consecutive : CanTp → ℕ → List ℕ → CanTp × List Received
accept_consecutive t seq_num rest =
    let remaining = size_difference t.expected_total_size t.received_size in
    let to_copy = min remaining (length rest) in
    let buffer = t.receive_buffer ++ take to_copy rest in
    let received = u16 (t.received_size + to_copy) in
    let t' = record t {
      expected_seq_num = next_seq_num seq_num;
      receive_buffer = buffer;
      received_size = received;
    } in
    if leb t.expected_total_size received
    then (
      record t' { receive_buffer = []; state = State.idle },
      record { source_id = t.current_source_id; payload = buffer } ∷ [],
    )
    else (t', [])

pub receive_consecutive : CanTp → ℕ → ℕ → List ℕ → CanTp × List Received
unfolding accept_consecutive
receive_consecutive t can_id b0 rest =
    if not (is_receiving t.state) || not (can_id == t.current_source_id)
    then (t, [])
    else if not (bit_and b0 0x0F == t.expected_seq_num)
    then (record t { state = State.idle }, [])
    else accept_consecutive t (bit_and b0 0x0F) rest

-- Only an overflow flag changes anything, and only while a message is being sent.
pub receive_flow_control : CanTp → ℕ → CanTp × List Received
receive_flow_control t b0 =
    if not (is_sending t.state)
    then (t, [])
    else if bit_and b0 0x0F == 0x00
    then (t, [])
    else if bit_and b0 0x0F == 0x02
    then (record t { state = State.idle }, [])
    else (t, [])

pub process_frame : CanTp → ℕ → List ℕ → CanTp × List Received
unfolding receive_single receive_first receive_consecutive receive_flow_control
process_frame t can_id [] = (t, [])
process_frame t can_id (b0 ∷ rest) =
    let pci_type = bit_and b0 0xF0 in
    if pci_type == 0x00
    then receive_single t can_id b0 rest
    else if pci_type == 0x10
    then receive_first t can_id b0 rest
    else if pci_type == 0x20
    then receive_consecutive t can_id b0 rest
    else if pci_type == 0x30
    then receive_flow_control t b0
    else (t, [])

-- The frames of a bus in turn, with every message that they complete.
pub process_frames : CanTp → List Frame → CanTp × List Received
process_frames t [] = (t, [])
process_frames t ((can_id, bytes) ∷ frames) =
    let (t', done) = process_frame t can_id bytes in
    let (t'', more) = process_frames t' frames in (t'', done ++ more)

pub reset : CanTp → CanTp
reset t = record t {
  state = State.idle;
  receive_buffer = [];
  expected_total_size = 0;
  received_size = 0;
  expected_seq_num = 0;
}

pub get_state : CanTp → State
get_state t = t.state

pub build_single_frame : List ℕ → List ℕ
build_single_frame message =
    let len = u8 (min (length message) 7) in u8 (bit_or 0x00 len) ∷ take len message

pub build_first_frame : List ℕ → List ℕ × List ℕ
build_first_frame message =
    let total_len = u16 (length message) in
    let init_data = min (length message) 6 in
    (
      u8 (bit_or 0x10 (bit_and (total_len >> 8) 0x0F))
          ∷ u8 (bit_and total_len 0xFF)
          ∷ take init_data message,
      drop init_data message,
    )

pub build_consecutive_frame : ℕ → List ℕ → List ℕ
build_consecutive_frame seq_num chunk =
    u8 (bit_or 0x20 (bit_and seq_num 0x0F)) ∷ take (min (length chunk) 7) chunk

pub build_flow_control : ℕ → ℕ → ℕ → List ℕ
build_flow_control flag block_size st_min = u8 (bit_or 0x30 flag) ∷ block_size ∷ st_min ∷ []

-- The `while` of `prepareMessage`; `none` means that the fuel ran out.
pub consecutive_frames : ℕ → ℕ → ℕ → List ℕ → Option (List Frame)
consecutive_frames fuel target_id seq_num [] = some []
consecutive_frames zero target_id seq_num (x ∷ xs) = none
consecutive_frames (suc fuel) target_id seq_num (x ∷ xs) =
    let remaining = x ∷ xs in
    let chunk = min (length remaining) 7 in
    let frame : Frame = (target_id, build_consecutive_frame seq_num (take chunk remaining)) in
    elim (consecutive_frames fuel target_id (next_seq_num seq_num) (drop chunk remaining)) [
      | none ↦ none
      | some frames ↦ some (frame ∷ frames)
    ]

-- `block_size` and `st_min` are ignored, as in the source.
pub prepare_message : Message → ℕ → ℕ → Option (List Frame)
unfolding build_single_frame build_first_frame build_consecutive_frame consecutive_frames
prepare_message msg block_size st_min =
    if leb (length msg.payload) 7
    then some ((msg.target_id, build_single_frame msg.payload) ∷ [])
    else let (first, remaining) = build_first_frame msg.payload in
      elim (consecutive_frames (length remaining) msg.target_id 2 remaining) [
        | none ↦ none
        | some frames ↦ some ((msg.target_id, first) ∷ frames)
      ]
