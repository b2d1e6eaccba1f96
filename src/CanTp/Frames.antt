-- ===== src/CanTp/Frames.antt =====
-- The frames that a sender builds, for a message of any length.
use mcp2515_rpi.Base.{
  ℕ, zero, suc, ◌≤◌, min, ◌≡◌, ◌≢◌, refl, ap, Option, some, List, [], ◌∷◌, arith, length, take,
  drop, length-take, length-drop, All, All-take, All-drop, IsBytes, ◌%◌, Bool-cases, inl, inr, leb,
}
use mcp2515_rpi.CanTp.{
  CanTp, Frame, Received, Message, next_seq_num, build_single_frame, build_first_frame,
  build_consecutive_frame, consecutive_frames, prepare_message, process_frames,
}
use mcp2515_rpi.CanTp.Invariant.{Inv, IsShort, process_frames-Inv}
use mcp2515_rpi.Base.{IsByte}

-- A frame that the bus can carry, to `target_id`.
pub record IsCanFrame (target_id : ℕ) (f : Frame) : Type 0 where
  pub addressed : f.0 ≡ target_id
  pub filled : 1 ≤ length f.1
  pub fits : length f.1 ≤ 8
  pub bytes : IsBytes f.1

single-IsCanFrame : (id : ℕ) (m : List ℕ) → IsBytes m → IsCanFrame id (id, build_single_frame m)
unfolding build_single_frame
single-IsCanFrame id m h = record {
  addressed = refl;
  filled = omega arith;
  fits = omega (arith, length-take (min (length m) 7 % 256) m);
  bytes = (omega arith, All-take IsByte (min (length m) 7 % 256) m h);
}

first-IsCanFrame : (id : ℕ) (m : List ℕ) → IsBytes m → IsCanFrame id (id, (build_first_frame m).0)
unfolding build_first_frame
first-IsCanFrame id m h = record {
  addressed = refl;
  filled = omega arith;
  fits = omega (arith, length-take (min (length m) 6) m);
  bytes = (omega arith, (omega arith, All-take IsByte (min (length m) 6) m h));
}

consecutive-IsCanFrame :
    (id seq : ℕ) (c : List ℕ) → IsBytes c → IsCanFrame id (id, build_consecutive_frame seq c)
unfolding build_consecutive_frame
consecutive-IsCanFrame id seq c h = record {
  addressed = refl;
  filled = omega arith;
  fits = omega (arith, length-take (min (length c) 7) c);
  bytes = (omega arith, All-take IsByte (min (length c) 7) c h);
}

abbrev Builds : ℕ → Option (List Frame) → Type 0
Builds id r = (frames : List Frame) × (r ≡ some frames) × All (IsCanFrame id) frames

consecutive-Builds :
    (fuel id seq : ℕ) (rest : List ℕ)
    → length rest ≤ fuel
    → IsBytes rest
    → Builds id (consecutive_frames fuel id seq rest)
unfolding consecutive_frames
consecutive-Builds zero id seq [] h b = ([], refl, tt)
consecutive-Builds (suc fuel) id seq [] h b = ([], refl, tt)
consecutive-Builds zero id seq (x ∷ xs) h b = absurd (omega arith)
consecutive-Builds (suc fuel) id seq (x ∷ xs) h b =
    let n = min (length (x ∷ xs)) 7 in
    let (frames, e, fs) =
      consecutive-Builds fuel id (next_seq_num seq) (drop n (x ∷ xs))
        (omega (arith, length-drop n (x ∷ xs))) (All-drop IsByte n (x ∷ xs) b) in
    (
      (id, build_consecutive_frame seq (take n (x ∷ xs))) ∷ frames,
      rw (e, consecutive_frames),
      (consecutive-IsCanFrame id seq (take n (x ∷ xs)) (All-take IsByte n (x ∷ xs) b), fs),
    )

-- The loop always ends: a message of bytes, of any length, is cut into frames that all go to its
-- target, and each has between one and eight bytes.
pub prepare-IsCanFrame :
    (msg : Message) (block_size st_min : ℕ)
    → IsBytes msg.payload
    → (frames : List Frame) × (prepare_message msg block_size st_min ≡ some frames)
      × All (IsCanFrame msg.target_id) frames
unfolding prepare_message
prepare-IsCanFrame msg block_size st_min b = elim (Bool-cases (leb (length msg.payload) 7)) [
  | inl short ↦ (
    (msg.target_id, build_single_frame msg.payload) ∷ [],
    rw short,
    (single-IsCanFrame msg.target_id msg.payload b, tt),
  )
  | inr long ↦
      let rest = drop (min (length msg.payload) 6) msg.payload in
      let (frames, e, fs) =
        consecutive-Builds (length rest) msg.target_id 2 rest (omega arith)
          (All-drop IsByte (min (length msg.payload) 6) msg.payload b) in
      (
        (msg.target_id, (build_first_frame msg.payload).0) ∷ frames,
        ground (arith, long, e),
        (first-IsCanFrame msg.target_id msg.payload b, fs),
      )
]

IsCanFrame-IsBytes : (id : ℕ) (fs : List Frame) → All (IsCanFrame id) fs → All (λ f. IsBytes f.1) fs
IsCanFrame-IsBytes id [] h = tt
IsCanFrame-IsBytes id (f ∷ fs) h = (h.0.bytes, IsCanFrame-IsBytes id fs h.1)

IsShort-ne :
    (long : List ℕ) (ms : List Received)
    → 4096 ≤ length long
    → All IsShort ms
    → All (λ m. m.payload ≢ long) ms
IsShort-ne long [] h s = tt
IsShort-ne long (m ∷ ms) h s =
    ((λ e. absurd (omega (arith, ap length e, s.0))), IsShort-ne long ms h s.1)

-- A message of 4096 bytes or more is cut into frames without a complaint, and the receiver that
-- gets them never delivers it.
pub oversize_lost :
    (t : CanTp) (msg : Message) (block_size st_min : ℕ)
    → Inv t
    → IsBytes msg.payload
    → 4096 ≤ length msg.payload
    → (frames : List Frame) × (prepare_message msg block_size st_min ≡ some frames)
      × All (λ m. m.payload ≢ msg.payload) (process_frames t frames).1
oversize_lost t msg block_size st_min v b long =
    let (frames, e, fs) = prepare-IsCanFrame msg block_size st_min b in
    let (kept, short) =
      process_frames-Inv t frames (IsCanFrame-IsBytes msg.target_id frames fs) v in
    (frames, e, IsShort-ne msg.payload _ long short)
