-- ===== src/Logging/Replay/Laws.antt =====
-- src/logging/replay_analyzer.cpp: a replay by repeated calls of getNextFrames.
use mcp2515_rpi.Base.{
  ℕ, ◌+◌, ◌-◌, ◌≤◌, ◌<◌, ◌≡◌, refl, ap, sym, ◌∙◌, true, false, not, List, [], ◌∷◌, ◌++◌, append-nil,
  length, length-drop, take-add, drop-drop, take, take_all, drop, leb, dec_le, All, arith,
  if◌then◌else◌,
}
use mcp2515_rpi.Logging.Replay.Text.{CanLogEntry}
use mcp2515_rpi.Logging.Replay.{ReplayAnalyzer, replay_end, get_next_frames, start_replay}

-- Calls of getNextFrames one after the other, and all that they return.
pub play : ReplayAnalyzer → List ℕ → ReplayAnalyzer × List CanLogEntry
unfolding get_next_frames
play r [] = (r, [])
play r (count ∷ counts) =
    let step = get_next_frames r count in
    let rest = play step.0 counts in (rest.0, step.1 ++ rest.1)

abbrev pub sum : List ℕ → ℕ
sum [] = 0
sum (n ∷ ns) = n + sum ns

module _ {A : Type 0} where
  -- A count past the end takes what is left.
  take_past : (p c : ℕ) (xs : List A) → length xs ≤ p + c → take c (drop p xs) ≡ drop p xs
  take_past p c xs h = take_all c (drop p xs) (omega (arith, length-drop p xs))

play_stopped :
    (r : ReplayAnalyzer) (counts : List ℕ) → r.replaying ≡ false → play r counts ≡ (r, [])
unfolding play
play_stopped r [] h = refl
play_stopped r (c ∷ counts) h = ground (arith, play_stopped r counts h)

module _ (r : ReplayAnalyzer) (count : ℕ) where
  after : ReplayAnalyzer
  after = (get_next_frames r count).0

  -- A call that reaches the end returns all that is left and stops the replay.
  last_call :
      r.replaying ≡ true
      → r.replay_position ≤ length r.frames
      → length r.frames + count < 18446744073709551616
      → length r.frames ≤ r.replay_position + count
      → (after.replaying ≡ false) × ((get_next_frames r count).1 ≡ drop r.replay_position r.frames)
  unfolding after get_next_frames
  last_call on within small past =
      let e : replay_end r count ≡ length r.frames = omega arith in
      rw (on, if◌then◌else◌, e)
        (
          ground arith,
          take_all _ (drop r.replay_position r.frames)
              (omega (arith, length-drop r.replay_position r.frames)),
        )

  -- A call before it returns `count` frames and moves on.
  inner_call :
      r.replaying ≡ true
      → length r.frames + count < 18446744073709551616
      → r.replay_position + count < length r.frames
      → (get_next_frames r count).1 ≡ take count (drop r.replay_position r.frames)
  unfolding get_next_frames
  inner_call on small within =
      let e : replay_end r count - r.replay_position ≡ count = omega arith in
      rw (on, if◌then◌else◌, e) refl

  inner_state :
      r.replaying ≡ true
      → length r.frames + count < 18446744073709551616
      → r.replay_position + count < length r.frames
      → after ≡ record r { replay_position = r.replay_position + count; replaying = true }
  unfolding after get_next_frames
  inner_state on small within = ground arith

-- What a sequence of calls from a replay's position returns, and whether the replay goes on.
abbrev Plays : ReplayAnalyzer → List ℕ → Type 0
Plays r counts =
    ((play r counts).1 ≡ take (sum counts) (drop r.replay_position r.frames))
    × ((play r counts).0.replaying ≡ not (leb (length r.frames) (r.replay_position + sum counts)))

abbrev Small : ReplayAnalyzer → List ℕ → Type 0
Small r = All (λ count. length r.frames + count < 18446744073709551616)

play_last :
    (r : ReplayAnalyzer) (count : ℕ) (counts : List ℕ)
    → r.replaying ≡ true
    → r.replay_position ≤ length r.frames
    → length r.frames + count < 18446744073709551616
    → length r.frames ≤ r.replay_position + count
    → Plays r (count ∷ counts)
unfolding play after
play_last r count counts on within small past =
    let h = last_call r count on within small past in
    rw (play_stopped (after r count) counts h.0, h.1, append-nil (drop r.replay_position r.frames))
      (
        sym (take_past r.replay_position (count + sum counts) r.frames (omega arith)),
        ground (arith, h.0),
      )

play_on :
    (r : ReplayAnalyzer) (count : ℕ) (counts : List ℕ)
    → r.replaying ≡ true
    → length r.frames + count < 18446744073709551616
    → r.replay_position + count < length r.frames
    → Plays (record r { replay_position = r.replay_position + count; replaying = true }) counts
    → Plays r (count ∷ counts)
unfolding play after
play_on r count counts on small inside (returned, state) =
    rw
      (
        inner_state r count on small inside,
        inner_call r count on small inside,
        returned,
        state,
        ← drop-drop r.replay_position count r.frames,
      )
      (
        take-add count (sum counts) (drop r.replay_position r.frames),
        ap (λ n. not (leb (length r.frames) n)) {x = r.replay_position + count + sum counts}
            (omega arith),
      )

play_from :
    (r : ReplayAnalyzer) (count : ℕ) (counts : List ℕ)
    → r.replaying ≡ true
    → r.replay_position ≤ length r.frames
    → Small r (count ∷ counts)
    → Plays r (count ∷ counts)
unfolding play
play_from r count [] on within small = elim (dec_le (length r.frames) (r.replay_position + count)) [
  | yes past ↦ play_last r count [] on within small.0 past
  | no inside ↦ play_on r count [] on small.0 (omega arith) (refl, ground arith)
]
play_from r count (c ∷ counts) on within small =
    elim (dec_le (length r.frames) (r.replay_position + count)) [
      | yes past ↦ play_last r count (c ∷ counts) on within small.0 past
      | no inside ↦ play_on r count (c ∷ counts) on small.0 (omega arith) (
          play_from (record r { replay_position = r.replay_position + count; replaying = true }) c
            counts refl (omega arith) small.1)
    ]

-- A replay that is started and then asked for frames by any sequence of one or more calls, whose counts do not
-- overflow the 64-bit position, returns in all the first frames of the recording, in order and without gap, as many
-- as the counts add up to; it has stopped exactly when they add up to the whole recording.
pub play_lem :
    (r : ReplayAnalyzer) (count : ℕ) (counts : List ℕ)
    → All (λ c. length r.frames + c < 18446744073709551616) (count ∷ counts)
    → ((play (start_replay r) (count ∷ counts)).1 ≡ take (sum (count ∷ counts)) r.frames)
      × ((play (start_replay r) (count ∷ counts)).0.replaying
          ≡ not (leb (length r.frames) (sum (count ∷ counts))))
unfolding start_replay
play_lem r count counts small =
    let h = play_from (start_replay r) count counts refl (omega arith) small in
    (
      h.0,
      h.1 ∙ ap (λ n. not (leb (length r.frames) n)) {x = 0 + sum (count ∷ counts)} (omega arith),
    )
