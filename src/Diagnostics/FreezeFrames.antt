-- ===== src/Diagnostics/FreezeFrames.antt =====
-- src/diagnostics/freeze_frame.hpp and freeze_frame.cpp, FreezeFrameManager. The values of the parameters are
-- of any type, and the clock is an argument `now`.
use mcp2515_rpi.Base.{
  ◌-◌, dec_le, append-nil, append_assoc, ℕ, zero, suc, ◌≡◌, ◌≢◌, ◌≤◌, ◌<◌, refl, ap, true, false,
  List, [], ◌∷◌, ◌++◌, arith, length, length-append, length-drop, drop, leb, ◌==◌, if◌then◌else◌,
  at_or_else, ◌∙◌,
}

abbrev pub max_frames : ℕ
max_frames = 50

pub record FreezeFrame (V : Type 0) : Type 0 where
  pub dtc_code : ℕ
  pub pid_values : V
  pub timestamp : ℕ

module _ {V : Type 0} where
  pub capture_frame : List (FreezeFrame V) → ℕ → ℕ → V → List (FreezeFrame V)
  capture_frame frames now code values =
      (if leb max_frames (length frames) then drop 1 frames else frames)
      ++ record { dtc_code = code; pid_values = values; timestamp = now } ∷ []

  pub clear_for_dtc : List (FreezeFrame V) → ℕ → List (FreezeFrame V)
  clear_for_dtc [] code = []
  clear_for_dtc (f ∷ frames) code =
      let rest = clear_for_dtc frames code in if f.dtc_code == code then rest else f ∷ rest

  unfoldable pub clear_all : List (FreezeFrame V) → List (FreezeFrame V)
  clear_all frames = []

  unfoldable pub get_all : List (FreezeFrame V) → List (FreezeFrame V)
  get_all frames = frames

  pub get_for_dtc : List (FreezeFrame V) → ℕ → List (FreezeFrame V)
  get_for_dtc [] code = []
  get_for_dtc (f ∷ frames) code =
      let rest = get_for_dtc frames code in if f.dtc_code == code then f ∷ rest else rest

  unfoldable pub count : List (FreezeFrame V) → ℕ
  count frames = length frames

module _ {A : Type 0} where
  drop_within : (k : ℕ) (xs ys : List A) → k ≤ length xs → drop k (xs ++ ys) ≡ drop k xs ++ ys
  drop_within zero xs ys h = refl
  drop_within (suc k) [] ys h = absurd (omega arith)
  drop_within (suc k) (x ∷ xs) ys h = drop_within k xs ys (omega arith)

  drop_once_more : (k : ℕ) (xs : List A) → drop 1 (drop k xs) ≡ drop (suc k) xs
  drop_once_more zero xs = refl
  drop_once_more (suc k) [] = refl
  drop_once_more (suc k) (x ∷ xs) = drop_once_more k xs

  -- The last fifty of a history.
  abbrev pub latest : List A → List A
  latest xs = drop (length xs - max_frames) xs

  length_further : (xs : List A) (x : A) → length (xs ++ x ∷ []) ≡ suc (length xs)
  length_further xs x = omega (arith, length-append xs (x ∷ []))

  full_test : (xs : List A) → 50 ≤ length xs → leb max_frames (length (latest xs)) ≡ true
  full_test xs h = ground (arith, length-drop (length xs - 50) xs)

  short_test : (xs : List A) → length xs < 50 → leb max_frames (length xs) ≡ false
  short_test xs h = ground arith

  nothing_over : (xs : List A) → length xs ≤ 50 → length xs - max_frames ≡ 0
  nothing_over xs h = omega arith

  pub latest_short : (xs : List A) → length xs ≤ 50 → latest xs ≡ xs
  latest_short xs h = rw (nothing_over xs h) refl

  latest_further :
      (xs : List A) (x : A)
      → (if leb max_frames (length (latest xs)) then drop 1 (latest xs) else latest xs) ++ x ∷ []
        ≡ latest (xs ++ x ∷ [])
  latest_further xs x = elim (dec_le 50 (length xs)) [
    | yes full ↦
        rw
          (
            full_test xs full,
            if◌then◌else◌,
            drop_once_more (length xs - 50) xs,
            length_further xs x,
            ← drop_within (suc (length xs - 50)) xs (x ∷ []) (omega arith),
          )
          (ap (λ k. drop k (xs ++ x ∷ [])) {x = suc (length xs - 50)} (omega arith))
    | no room ↦
        rw
          (
            latest_short xs (omega arith),
            latest_short (xs ++ x ∷ []) (omega (arith, length_further xs x)),
            short_test xs (omega arith),
            if◌then◌else◌,
          )
          refl
  ]

module _ {V : Type 0} where
  -- A sequence of captures.
  pub capture_frames : List (FreezeFrame V) → List (FreezeFrame V) → List (FreezeFrame V)
  unfolding capture_frame
  capture_frames frames [] = frames
  capture_frames frames (f ∷ fs) =
      capture_frames (capture_frame frames f.timestamp f.dtc_code f.pid_values) fs

  capture_frames-latest :
      (old new : List (FreezeFrame V)) → capture_frames (latest old) new ≡ latest (old ++ new)
  unfolding capture_frames
  capture_frames-latest old [] = rw (append-nil old) refl
  capture_frames-latest old (f ∷ new) =
      rw
        (
          latest_further old f,
          capture_frames-latest (old ++ f ∷ []) new,
          append_assoc old (f ∷ []) new,
        )
        refl

  clear-get :
      (frames : List (FreezeFrame V)) (code : ℕ) → get_for_dtc (clear_for_dtc frames code) code ≡ []
  unfolding get_for_dtc clear_for_dtc
  clear-get [] code = refl
  clear-get (f ∷ frames) code = ground (arith, clear-get frames code)

  clear-get_other :
      (frames : List (FreezeFrame V)) (code other : ℕ)
      → other ≢ code
      → get_for_dtc (clear_for_dtc frames code) other ≡ get_for_dtc frames other
  unfolding get_for_dtc clear_for_dtc
  clear-get_other [] code other h = refl
  clear-get_other (f ∷ frames) code other h = ground (arith, clear-get_other frames code other h)

  -- From an empty store, the frames kept after any sequence of captures are its last fifty, in order, and
  -- never more than fifty.
  pub capture_frames_lem :
      (history : List (FreezeFrame V))
      → (capture_frames [] history ≡ latest history) × (count (capture_frames [] history) ≤ 50)
  unfolding count
  capture_frames_lem history =
      rw (capture_frames-latest [] history)
        (refl, omega (arith, length-drop (length history - 50) history))

  -- Clearing a code leaves no frame of that code and exactly the frames of every other.
  pub clear_for_dtc_lem :
      (frames : List (FreezeFrame V)) (code other : ℕ)
      → get_for_dtc (clear_for_dtc frames code) other
        ≡ (if other == code then [] else get_for_dtc frames other)
  clear_for_dtc_lem frames code other =
      at_or_else other code _ _ _
        (λ e. ap (get_for_dtc (clear_for_dtc frames code)) e ∙ clear-get frames code)
        (clear-get_other frames code other)
