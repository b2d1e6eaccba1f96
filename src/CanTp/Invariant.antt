-- ===== src/CanTp/Invariant.antt =====
-- What holds of a receiver between frames, on any traffic.
use mcp2515_rpi.Base.{
  ℕ, ◌%◌, ◌≤◌, ◌<◌, min, bit_and, bit_or, ◌≡◌, refl, List, [], ◌∷◌, arith, length, take,
  length-take, length-append, All, All-append, IsBytes, u16, ◌<<◌, Bool-cases, inl, inr,
  if◌then◌else◌, ◌==◌,
}
use mcp2515_rpi.Base.Bits.{bit_or_join, bit_and_0f}
use mcp2515_rpi.CanTp.{
  State, CanTp, Frame, Received, init, receive_single, receive_first, receive_consecutive,
  receive_flow_control, process_frame, process_frames, size_difference, reset,
}

-- While a message is coming, the buffer holds what was counted, within the announced length.
pub record Inv (t : CanTp) : Type 0 where
  pub counted : t.state ≡ State.receiving_multi_frame → length t.receive_buffer ≡ t.received_size
  pub within : t.state ≡ State.receiving_multi_frame → t.received_size ≤ t.expected_total_size
  pub announced : t.expected_total_size < 4096
  pub sequence : t.expected_seq_num < 16

-- A message that a frame from `id` completed.
abbrev pub IsDelivery : ℕ → Received → Type 0
IsDelivery id m = (m.source_id ≡ id) × (length m.payload < 4096)

abbrev pub Keeps : ℕ → CanTp × List Received → Type 0
Keeps id r = Inv r.0 × All (IsDelivery id) r.1

pub init-Inv : Inv init
unfolding init
init-Inv = ground arith

pub reset-Inv : (t : CanTp) → Inv (reset t)
unfolding reset
reset-Inv t = ground arith

single-Keeps :
    (t : CanTp) (id b0 : ℕ) (rest : List ℕ) → Inv t → Keeps id (receive_single t id b0 rest)
unfolding receive_single
single-Keeps t id b0 rest v = (
  v,
  (
    (refl, ground (arith, bit_and_0f b0, length-take (min (bit_and b0 0x0F) (length rest)) rest)),
    tt,
  ),
)

field-lt : (b0 b1 : ℕ) → b1 < 256 → u16 (bit_or (bit_and b0 0x0F << 8) b1) < 4096
field-lt b0 b1 h = ground (arith, bit_and_0f b0, bit_or_join 8 (b0 % 16) b1)

first-Keeps :
    (t : CanTp) (id b0 : ℕ) (rest : List ℕ)
    → IsBytes rest
    → Inv t
    → Keeps id (receive_first t id b0 rest)
unfolding receive_first
first-Keeps t id b0 [] h v = (v, tt)
first-Keeps t id b0 (b1 ∷ rest) h v = ground (
  arith,
  field-lt b0 b1 h.0,
  length-take (min (length rest) (u16 (bit_or (bit_and b0 0x0F << 8) b1))) rest,
  length-take 0 rest,
)

consecutive-Keeps :
    (t : CanTp) (id b0 : ℕ) (rest : List ℕ) → Inv t → Keeps id (receive_consecutive t id b0 rest)
unfolding receive_consecutive
consecutive-Keeps t id b0 rest v =
    let remaining = size_difference t.expected_total_size t.received_size in
    ground (
      arith,
      bit_and_0f b0,
      length-take (min remaining (length rest)) rest,
      length-append t.receive_buffer (take (min remaining (length rest)) rest),
    )

flow_control-Keeps : (t : CanTp) (id b0 : ℕ) → Inv t → Keeps id (receive_flow_control t b0)
unfolding receive_flow_control
flow_control-Keeps t id b0 v = ground arith

-- The switch on the frame's type.
pub split_frame {ℓ} :
    (P : CanTp × List Received → Type ℓ) (t : CanTp) (id b0 : ℕ) (rest : List ℕ)
    → P (receive_single t id b0 rest)
    → P (receive_first t id b0 rest)
    → P (receive_consecutive t id b0 rest)
    → P (receive_flow_control t b0)
    → P (t, [])
    → P (process_frame t id (b0 ∷ rest))
unfolding process_frame
split_frame P t id b0 rest single first consecutive flow other =
    elim (Bool-cases (bit_and b0 0xF0 == 0x00)) [
      | inl e ↦ rw (e, if◌then◌else◌) single
      | inr e ↦
          rw (e, if◌then◌else◌)
            (elim (Bool-cases (bit_and b0 0xF0 == 0x10)) [
              | inl e' ↦ rw (e', if◌then◌else◌) first
              | inr e' ↦
                  rw (e', if◌then◌else◌)
                    (elim (Bool-cases (bit_and b0 0xF0 == 0x20)) [
                      | inl e'' ↦ rw (e'', if◌then◌else◌) consecutive
                      | inr e'' ↦ rw (e'', if◌then◌else◌) (ground arith)
                    ])
            ])
    ]

-- Every frame of bytes, whatever it is, keeps the invariant; what it completes carries the
-- identifier of that frame and has at most 4095 bytes.
pub process_frame-Keeps :
    (t : CanTp) (id : ℕ) (bytes : List ℕ)
    → IsBytes bytes
    → Inv t
    → Inv (process_frame t id bytes).0 × All (IsDelivery id) (process_frame t id bytes).1
process_frame-Keeps t id [] h v = unfold process_frame in (v, tt)
process_frame-Keeps t id (b0 ∷ rest) h v =
    split_frame (Keeps id) t id b0 rest (single-Keeps t id b0 rest v)
      (first-Keeps t id b0 rest h.1 v) (consecutive-Keeps t id b0 rest v)
      (flow_control-Keeps t id b0 v) (v, tt)

abbrev pub IsShort : Received → Type 0
IsShort m = length m.payload < 4096

deliveries-IsShort : (id : ℕ) (ms : List Received) → All (IsDelivery id) ms → All IsShort ms
deliveries-IsShort id [] h = tt
deliveries-IsShort id (m ∷ ms) h = (h.0.1, deliveries-IsShort id ms h.1)

-- From a receiver whose invariant holds, no traffic of bytes, from however many senders, makes it
-- deliver a message of more than 4095 bytes, and the invariant holds after it: while a message is
-- coming, the buffer holds what was counted, within the announced length.
pub process_frames-Inv :
    (t : CanTp) (frames : List Frame)
    → All (λ f. IsBytes f.1) frames
    → Inv t
    → Inv (process_frames t frames).0 × All IsShort (process_frames t frames).1
unfolding process_frames
process_frames-Inv t [] h v = (v, tt)
process_frames-Inv t ((id, bytes) ∷ frames) h v =
    let (v', done) = process_frame-Keeps t id bytes h.0 v in
    let (v'', more) = process_frames-Inv (process_frame t id bytes).0 frames h.1 v' in
    (v'', All-append IsShort _ _ (deliveries-IsShort id _ done) more)
