-- ===== src/CanTp/Runs.antt =====
-- Concrete runs of the transport, and the theorems at concrete inputs.
use mcp2515_rpi.Base.{
  ℕ, ◌≤◌, ◌<◌, ◌≡◌, ◌≢◌, refl, some, List, [], ◌∷◌, arith, replicate, length-replicate,
  All-replicate, IsByte, sym, All, false,
}
use native.Mathlib.Nat.{le_of_eq}
use mcp2515_rpi.CanTp.{
  State, CanTp, Frame, Message, init, process_frame, process_frames, prepare_message,
  get_full_length, get_pci_type, get_pci_length, build_flow_control, get_state,
}
use mcp2515_rpi.CanTp.Invariant.{Inv, init-Inv, IsShort, process_frames-Inv}
use mcp2515_rpi.CanTp.RoundTrip.{process-prepare}
use mcp2515_rpi.CanTp.Frames.{IsCanFrame, prepare-IsCanFrame, oversize_lost}
use mcp2515_rpi.CanTp.Sequence.{sequence_gap}

abbrev message : List ℕ → Message
message bytes = record {
  payload = bytes;
  source_id = 0x7E0;
  target_id = 0x7E8;
  is_extended = false;
}

abbrev ten : List ℕ
ten = 1 ∷ 2 ∷ 3 ∷ 4 ∷ 5 ∷ 6 ∷ 7 ∷ 8 ∷ 9 ∷ 10 ∷ []

abbrev ten_frames : List Frame
ten_frames =
    (0x7E8, 0x10 ∷ 10 ∷ 1 ∷ 2 ∷ 3 ∷ 4 ∷ 5 ∷ 6 ∷ []) ∷ (0x7E8, 0x22 ∷ 7 ∷ 8 ∷ 9 ∷ 10 ∷ []) ∷ []

ten_cut : prepare_message (message ten) 0 0 ≡ some ten_frames
unfolding prepare_message
ten_cut = refl

abbrev waiting : CanTp
unfolding init process_frame
waiting = (process_frame init 0x7E8 (0x10 ∷ 10 ∷ 1 ∷ 2 ∷ 3 ∷ 4 ∷ 5 ∷ 6 ∷ [])).0

-- The sequence numbers start from 2 on both sides; a standard sender's 1 is out of sequence.
standard_sender :
    process_frames waiting ((0x7E8, 0x21 ∷ 7 ∷ 8 ∷ 9 ∷ 10 ∷ []) ∷ [])
    ≡ (record waiting { state = State.idle }, [])
unfolding init process_frame process_frames
standard_sender = refl

process-prepare_example :
    (frames : List Frame) × (t' : CanTp) × (prepare_message (message ten) 0 0 ≡ some frames)
    × (process_frames init frames ≡ (t', record { source_id = 0x7E8; payload = ten } ∷ []))
    × (10 ≤ 7 → t' ≡ init)
    × (7 < 10 → t'.state ≡ State.idle)
process-prepare_example = process-prepare init (message ten) 0 0 (omega arith)

process_frames-Inv_example :
    Inv (process_frames init ten_frames).0 × All IsShort (process_frames init ten_frames).1
process_frames-Inv_example = process_frames-Inv init ten_frames (omega arith) init-Inv

prepare-IsCanFrame_example :
    (frames : List Frame) × (prepare_message (message ten) 0 0 ≡ some frames)
    × All (IsCanFrame 0x7E8) frames
prepare-IsCanFrame_example = prepare-IsCanFrame (message ten) 0 0 (omega arith)

oversize_lost_example :
    (frames : List Frame) × (prepare_message (message (replicate 4096 7)) 0 0 ≡ some frames)
    × All (λ m. m.payload ≢ replicate 4096 7) (process_frames init frames).1
oversize_lost_example =
    oversize_lost init (message (replicate 4096 7)) 0 0 init-Inv
      (All-replicate IsByte 4096 7 (omega arith)) (le_of_eq (sym (length-replicate {A = ℕ} 4096 7)))

sequence_gap_example :
    process_frames waiting ((0x7E8, 0x21 ∷ 7 ∷ []) ∷ (0x7E8, 0x22 ∷ 8 ∷ []) ∷ [])
    ≡ (record waiting { state = State.idle }, [])
unfolding init process_frame
sequence_gap_example =
    sequence_gap waiting 0x21 (7 ∷ []) ((0x7E8, 0x22 ∷ 8 ∷ []) ∷ []) refl refl (omega arith)
      (refl, tt)

first_length : get_full_length (0x10 ∷ 10 ∷ 1 ∷ []) ≡ 10
unfolding get_full_length
first_length = refl

first_type : (get_pci_type 0x2A ≡ 0x20) × (get_pci_length 0x2A ≡ 10)
unfolding get_pci_type get_pci_length
first_type = (refl, refl)

wait_frame : build_flow_control 1 0 20 ≡ 0x31 ∷ 0 ∷ 20 ∷ []
unfolding build_flow_control
wait_frame = refl

waiting_state : get_state waiting ≡ State.receiving_multi_frame
unfolding init process_frame get_state
waiting_state = refl
