-- ===== src/CanTp/Sequence.antt =====
-- A lost or reordered consecutive frame loses the message, never a part of it.
use mcp2515_rpi.Base.{ℕ, bit_and, ◌≡◌, ◌≢◌, refl, List, [], ◌∷◌, arith, All}
use mcp2515_rpi.CanTp.{State, CanTp, Frame, process_frame, process_frames}

-- A frame whose first byte says that it continues a message.
abbrev pub IsConsecutive : List ℕ → Type 0
IsConsecutive [] = ⊥
IsConsecutive (b0 ∷ rest) = bit_and b0 0xF0 ≡ 0x20

idle_ignores :
    (t : CanTp) (id : ℕ) (bytes : List ℕ)
    → t.state ≡ State.idle
    → IsConsecutive bytes
    → process_frame t id bytes ≡ (t, [])
unfolding process_frame
idle_ignores t id [] h c = absurd c
idle_ignores t id (b0 ∷ rest) h c = ground arith

idle_ignores_rest :
    (t : CanTp) (frames : List Frame)
    → t.state ≡ State.idle
    → All (λ f. IsConsecutive f.1) frames
    → process_frames t frames ≡ (t, [])
unfolding process_frames
idle_ignores_rest t [] h c = refl
idle_ignores_rest t ((id, bytes) ∷ frames) h c =
    ground (arith, idle_ignores t id bytes h c.0, idle_ignores_rest t frames h c.1)

-- While a message is coming, a consecutive frame from its sender whose number is not the expected
-- one makes the receiver idle, and neither it nor any run of consecutive frames after it, from
-- whatever sender, delivers anything.
pub sequence_gap :
    (t : CanTp) (b0 : ℕ) (rest : List ℕ) (frames : List Frame)
    → t.state ≡ State.receiving_multi_frame
    → bit_and b0 0xF0 ≡ 0x20
    → bit_and b0 0x0F ≢ t.expected_seq_num
    → All (λ f. IsConsecutive f.1) frames
    → process_frames t ((t.current_source_id, b0 ∷ rest) ∷ frames)
      ≡ (record t { state = State.idle }, [])
unfolding process_frames process_frame
sequence_gap t b0 rest frames receiving pci gap c =
    ground (arith, idle_ignores_rest (record t { state = State.idle }) frames refl c)

-- A consecutive frame from any other sender, in any state, changes nothing and delivers nothing.
pub foreign_consecutive :
    (t : CanTp) (id b0 : ℕ) (rest : List ℕ) (frames : List Frame)
    → id ≢ t.current_source_id
    → bit_and b0 0xF0 ≡ 0x20
    → process_frames t ((id, b0 ∷ rest) ∷ frames) ≡ process_frames t frames
unfolding process_frames process_frame
foreign_consecutive t id b0 rest frames ne pci = ground arith
