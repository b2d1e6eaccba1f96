-- ===== src/CanTp/RoundTrip.antt =====
-- What a sender cuts into frames, a receiver puts together again.
use mcp2515_rpi.Base.{
  ℕ, zero, suc, ◌+◌, ◌≤◌, ◌<◌, min, ◌≡◌, refl, some, List, [], ◌∷◌, ◌++◌, arith, length, take, drop,
  take-append-drop, length-take, length-drop, length-append, append_assoc, append-nil, ap, sym, ◌∙◌,
  inl, inr, List-cases, subst, dec_le, lt→ltb,
}
use mcp2515_rpi.CanTp.{
  State, CanTp, Frame, Message, next_seq_num, process_frames, build_single_frame, build_first_frame,
  build_consecutive_frame, consecutive_frames, prepare_message,
}
use mcp2515_rpi.CanTp.Receive.{receiving, process-single, process-first, process-consecutive}

-- What every frame of a run of `frames` leads to: one message, and an idle receiver.
abbrev pub Delivers : CanTp → ℕ → List ℕ → List Frame → Type 0
Delivers t id bytes frames =
    (t' : CanTp) × (process_frames t frames ≡ (t', record { source_id = id; payload = bytes } ∷ []))
    × (t'.state ≡ State.idle)

next_seq_num-lt : (seq : ℕ) → seq < 16 → next_seq_num seq < 16
next_seq_num-lt seq h = ground arith

module _ (t : CanTp) (id total seq : ℕ) (buffer chunk : List ℕ) (in_range : seq < 16)
    (small : total < 4096) (seven : length chunk ≤ 7) where
  -- The last chunk completes the message.
  deliver_final :
      length buffer + length chunk ≡ total
      → Delivers
          (receiving t id total seq buffer)
          id
          (buffer ++ chunk)
          ((id, build_consecutive_frame seq chunk) ∷ [])
  unfolding process_frames
  deliver_final e = (
    record (receiving t id total (next_seq_num seq) (buffer ++ chunk)) {
      receive_buffer = [];
      state = State.idle;
    },
    ground (
      arith,
      process-consecutive t id total seq buffer chunk in_range (omega arith) small seven,
      length-append buffer chunk,
    ),
    refl,
  )

  -- Any other chunk leaves a receiver that waits for the rest.
  deliver_further :
      (bytes : List ℕ) (frames : List Frame)
      → length buffer + length chunk < total
      → Delivers (receiving t id total (next_seq_num seq) (buffer ++ chunk)) id bytes frames
      → Delivers
          (receiving t id total seq buffer)
          id
          bytes
          ((id, build_consecutive_frame seq chunk) ∷ frames)
  unfolding process_frames
  deliver_further bytes frames less (t', e, halted) = (
    t',
    ground (
      arith,
      process-consecutive t id total seq buffer chunk in_range (omega arith) small seven,
      length-append buffer chunk,
      e,
    ),
    halted,
  )

consecutive_frames-nil : (fuel id seq : ℕ) → consecutive_frames fuel id seq [] ≡ some []
unfolding consecutive_frames
consecutive_frames-nil zero id seq = refl
consecutive_frames-nil (suc fuel) id seq = refl

-- One round of the loop, over the chunk that it takes and the rest that it leaves.
consecutive_frames-suc :
    (fuel id seq : ℕ) (rest : List ℕ) (frames : List Frame)
    → 0 < length rest
    → consecutive_frames fuel id (next_seq_num seq) (drop (min (length rest) 7) rest) ≡ some frames
    → consecutive_frames (suc fuel) id seq rest
      ≡ some ((id, build_consecutive_frame seq (take (min (length rest) 7) rest)) ∷ frames)
unfolding consecutive_frames
consecutive_frames-suc fuel id seq [] frames pos e = absurd (omega arith)
consecutive_frames-suc fuel id seq (x ∷ xs) frames pos e = rw (e, consecutive_frames)

-- The rest of a message goes through, whatever part of it has come.
consecutive_frames_lem :
    (fuel : ℕ) (t : CanTp) (id total seq : ℕ) (buffer bytes rest : List ℕ)
    → buffer ++ rest ≡ bytes
    → total ≡ length buffer + length rest
    → length rest ≤ fuel
    → 0 < length rest
    → seq < 16
    → total < 4096
    → (frames : List Frame) × (consecutive_frames fuel id seq rest ≡ some frames)
      × Delivers (receiving t id total seq buffer) id bytes frames
consecutive_frames_lem zero t id total seq buffer bytes rest whole sum h pos s small =
    absurd (omega arith)
consecutive_frames_lem (suc fuel) t id total seq buffer bytes rest whole sum h pos s small =
    elim (List-cases left) [
      | inl e ↦ (
        frame ∷ [],
        consecutive_frames-suc fuel id seq rest [] pos
            (rw e (consecutive_frames-nil fuel id (next_seq_num seq))),
        subst (λ b. Delivers (receiving t id total seq buffer) id b (frame ∷ []))
            (sym (append-nil (buffer ++ chunk)) ∙ ap (◌++◌ (buffer ++ chunk)) (sym e) ∙ joined)
            (deliver_final t id total seq buffer chunk s small seven
              (omega (arith, sizes, ap length e))),
      )
      | inr more ↦
          let (frames, e, d) =
            consecutive_frames_lem fuel t id total (next_seq_num seq) (buffer ++ chunk) bytes left
              joined (omega (arith, sizes, length-append buffer chunk)) (omega (arith, sizes)) more
              (next_seq_num-lt seq s) small in
          (
            frame ∷ frames,
            consecutive_frames-suc fuel id seq rest frames pos e,
            deliver_further t id total seq buffer chunk s small seven bytes frames
                (omega (arith, sizes)) d,
          )
    ]
  where
    chunk : List ℕ
    chunk = take (min (length rest) 7) rest

    left : List ℕ
    left = drop (min (length rest) 7) rest

    frame : Frame
    frame = (id, build_consecutive_frame seq chunk)

    seven : length chunk ≤ 7
    seven = omega (arith, length-take (min (length rest) 7) rest)

    sizes : (length chunk + length left ≡ length rest) × (0 < length chunk)
    sizes =
        omega
          (arith, length-take (min (length rest) 7) rest, length-drop (min (length rest) 7) rest)

    joined : (buffer ++ chunk) ++ left ≡ bytes
    joined =
        append_assoc buffer chunk left
        ∙ ap (◌++◌ buffer) (take-append-drop (min (length rest) 7) rest)
        ∙ whole

prepare_multi :
    (msg : Message) (block_size st_min : ℕ) (frames : List Frame)
    → 7 < length msg.payload
    → let rest = drop 6 msg.payload in
      consecutive_frames (length rest) msg.target_id 2 rest ≡ some frames
      → prepare_message msg block_size st_min
        ≡ some ((msg.target_id, (build_first_frame msg.payload).0) ∷ frames)
unfolding prepare_message build_first_frame
prepare_multi msg block_size st_min frames long e =
    ground (arith, e, lt→ltb 7 (length msg.payload) long)

process_multi :
    (t : CanTp) (msg : Message) (frames : List Frame)
    → 7 < length msg.payload
    → length msg.payload < 4096
    → Delivers
        (receiving t msg.target_id (length msg.payload) 2 (take 6 msg.payload))
        msg.target_id
        msg.payload
        frames
    → Delivers t msg.target_id msg.payload
        ((msg.target_id, (build_first_frame msg.payload).0) ∷ frames)
unfolding process_frames
process_multi t msg frames long small (t', e, halted) =
    (t', ground (arith, process-first t msg.target_id msg.payload long small, e), halted)

-- A message of at most 4095 bytes is cut into frames, and any receiver that gets them in order
-- answers with exactly one message, which has its bytes and carries the identifier that they were
-- sent to. After more than seven bytes the receiver is idle; a single frame leaves it as it was.
pub process-prepare :
    (t : CanTp) (msg : Message) (block_size st_min : ℕ)
    → length msg.payload < 4096
    → (frames : List Frame) × (t' : CanTp) × (prepare_message msg block_size st_min ≡ some frames)
      × (process_frames t frames
          ≡ (t', record { source_id = msg.target_id; payload = msg.payload } ∷ []))
      × (length msg.payload ≤ 7 → t' ≡ t)
      × (7 < length msg.payload → t'.state ≡ State.idle)
process-prepare t msg block_size st_min h = elim (dec_le (length msg.payload) 7) [
  | yes short ↦ (
    (msg.target_id, build_single_frame msg.payload) ∷ [],
    t,
    unfold prepare_message in ground arith,
    unfold process_frames in ground (arith, process-single t msg.target_id msg.payload short),
    λ _. refl,
    λ long. absurd (omega arith),
  )
  | no long ↦
      let rest : List ℕ = drop 6 msg.payload in
      let sizes : (length (take 6 msg.payload) ≡ 6) × (length rest + 6 ≡ length msg.payload) =
        omega (arith, length-take 6 msg.payload, length-drop 6 msg.payload) in
      let (frames, cut, received) =
        consecutive_frames_lem (length rest) t msg.target_id (length msg.payload) 2
          (take 6 msg.payload) msg.payload rest (take-append-drop 6 msg.payload)
          (omega (arith, sizes)) (omega arith) (omega (arith, sizes)) (omega arith) h in
      let (t', e, halted) = process_multi t msg frames (omega arith) h received in
      (
        (msg.target_id, (build_first_frame msg.payload).0) ∷ frames,
        t',
        prepare_multi msg block_size st_min frames (omega arith) cut,
        e,
        λ short. absurd (long short),
        λ _. halted,
      )
]
