-- ===== src/Can/Transmit.antt =====
-- The transmit path: what a frame holds, and the order in which frames reach the socket.
use mcp2515_rpi.Base.{
  ℕ, zero, suc, ◌-◌, ◌≤◌, ◌<◌, ◌≡◌, refl, sym, ap, ◌∙◌, min, Bool, true, false, Option, none, some,
  List, [], ◌∷◌, ◌++◌, arith, length, take, replicate, length-take, length-append, length-replicate,
  dec_le, take_all, map, append_assoc, append-nil,
}
use mcp2515_rpi.Can.{CanFrame, CanManager, make_frame, frame_payload, send_frame, tx_turn}

min_small : (n m : ℕ) → n ≤ m → min n m ≡ n
min_small n m h = omega arith

min_large : (n m : ℕ) → m < n → min n m ≡ m
min_large n m h = omega arith

module _ {A : Type 0} where
  take-append_short : (n : ℕ) (xs ys : List A) → length xs ≡ n → take n (xs ++ ys) ≡ xs
  take-append_short zero [] ys e = refl
  take-append_short zero (x ∷ xs) ys e = absurd (omega (arith, e))
  take-append_short (suc n) [] ys e = absurd (omega (arith, e))
  take-append_short (suc n) (x ∷ xs) ys e =
      ap (◌∷◌ x) (take-append_short n xs ys (omega (arith, e)))

  take-min : (n : ℕ) (xs : List A) → take (min (length xs) n) xs ≡ take n xs
  take-min n xs = elim (dec_le (length xs) n) [
    | yes short ↦
        rw (min_small (length xs) n short)
          (take_all (length xs) xs (omega arith) ∙ sym (take_all n xs short))
    | no long ↦ rw (min_large (length xs) n (omega arith)) refl
  ]

-- A frame holds eight data bytes, says at most eight, and a receiver reads exactly the first eight bytes of
-- what was sent.
pub make_frame_lem :
    (id : ℕ) (payload : List ℕ) (is_extended : Bool)
    → (frame_payload (make_frame id payload is_extended) ≡ take 8 payload)
      × ((make_frame id payload is_extended).can_dlc ≤ 8)
      × (length (make_frame id payload is_extended).bytes ≡ 8)
unfolding make_frame
make_frame_lem id payload is_extended =
    let size = length-take (min (length payload) 8) payload in
    (
      take-append_short (min (length payload) 8) (take (min (length payload) 8) payload)
            (replicate (8 - min (length payload) 8) 0) (omega (arith, size))
          ∙ take-min 8 payload,
      omega arith,
      omega (
        arith,
        size,
        length-append (take (min (length payload) 8) payload)
            (replicate (8 - min (length payload) 8) 0),
        length-replicate {A = ℕ} (8 - min (length payload) 8) 0,
      ),
    )

-- What the program and the transmit thread do to the queue; a turn has the answer of `write`.
pub data Event : Type 0 where
  send : CanFrame → Event
  turn : Bool → Event

pub sent : List Event → List CanFrame
sent [] = []
sent (Event.send f ∷ es) = f ∷ sent es
sent (Event.turn b ∷ es) = sent es

-- How many turns have a given answer of `write`.
pub turns : Bool → List Event → ℕ
turns b [] = 0
turns b (Event.send f ∷ es) = turns b es
turns true (Event.turn true ∷ es) = suc (turns true es)
turns true (Event.turn false ∷ es) = turns true es
turns false (Event.turn true ∷ es) = turns false es
turns false (Event.turn false ∷ es) = suc (turns false es)

-- The frames that `write` answered in a given way.
pub answered : Bool → List (CanFrame × Bool) → List CanFrame
answered b [] = []
answered true ((f, true) ∷ handed) = f ∷ answered true handed
answered true ((f, false) ∷ handed) = answered true handed
answered false ((f, true) ∷ handed) = answered false handed
answered false ((f, false) ∷ handed) = f ∷ answered false handed

abbrev pub frame_of : CanFrame × Bool → CanFrame
frame_of (f, written) = f

abbrev with_handed : Option (CanFrame × Bool) → List (CanFrame × Bool) → List (CanFrame × Bool)
with_handed none rest = rest
with_handed (some f) rest = f ∷ rest

abbrev with_frame : Option (CanFrame × Bool) → List CanFrame → List CanFrame
with_frame none rest = rest
with_frame (some f) rest = frame_of f ∷ rest

handed_frames :
    (o : Option (CanFrame × Bool)) (xs : List (CanFrame × Bool)) (ys : List CanFrame)
    → map frame_of (with_handed o xs) ++ ys ≡ with_frame o (map frame_of xs ++ ys)
handed_frames none xs ys = refl
handed_frames (some f) xs ys = refl

frame-append :
    (o : Option (CanFrame × Bool)) (xs ys : List CanFrame)
    → with_frame o xs ++ ys ≡ with_frame o (xs ++ ys)
frame-append none xs ys = refl
frame-append (some f) xs ys = refl

module _ {C : Type 0} where
  -- The queue's owner after the events, and the frames handed to `write`, each with its answer.
  unfoldable pub play : CanManager C → List Event → CanManager C × List (CanFrame × Bool)
  play m [] = (m, [])
  play m (Event.send f ∷ es) = play (send_frame m f).0 es
  play m (Event.turn b ∷ es) =
      let rest = play (tx_turn m b).0 es in (rest.0, with_handed (tx_turn m b).1 rest.1)

  turn_of :
      (m : CanManager C) (running b : Bool) (queue : List CanFrame)
      → let m' = record m { running = running; tx_queue = queue } in
        with_frame (tx_turn m' b).1 (tx_turn m' b).0.tx_queue ≡ queue
  unfolding tx_turn
  turn_of m false b queue = refl
  turn_of m true b [] = refl
  turn_of m true b (f ∷ rest) = refl

  sent_later :
      (m : CanManager C) (f : CanFrame) (es : List Event)
      → (send_frame m f).0.tx_queue ++ sent es ≡ m.tx_queue ++ f ∷ sent es
  unfolding send_frame
  sent_later m f es = append_assoc m.tx_queue (f ∷ []) (sent es)

  in_order :
      (m : CanManager C) (es : List Event)
      → map frame_of (play m es).1 ++ (play m es).0.tx_queue ≡ m.tx_queue ++ sent es
  unfolding play sent
  in_order m [] = sym (append-nil m.tx_queue)
  in_order m (Event.send f ∷ es) = rw (in_order (send_frame m f).0 es) (sent_later m f es)
  in_order m (Event.turn b ∷ es) =
      let next = (tx_turn m b).0 in
      let out = (tx_turn m b).1 in
      handed_frames out (play next es).1 (play next es).0.tx_queue
      ∙ ap (with_frame out) (in_order next es)
      ∙ sym (frame-append out next.tx_queue (sent es))
      ∙ ap (λ q. q ++ sent es) (turn_of m m.running b m.tx_queue)

  -- A turn hands over at most one frame, with the answer that it gets.
  one_answer :
      (m : CanManager C) (running b c : Bool) (queue : List CanFrame)
      (rest : List (CanFrame × Bool)) (es : List Event)
      → length (answered c rest) ≤ turns c es
      → length (
          answered c
            (with_handed (tx_turn (record m { running = running; tx_queue = queue }) b).1 rest))
        ≤ turns c (Event.turn b ∷ es)
  unfolding tx_turn answered turns
  one_answer m false true true queue rest es h = omega (arith, h)
  one_answer m false true false queue rest es h = omega (arith, h)
  one_answer m false false true queue rest es h = omega (arith, h)
  one_answer m false false false queue rest es h = omega (arith, h)
  one_answer m true true true [] rest es h = omega (arith, h)
  one_answer m true true false [] rest es h = omega (arith, h)
  one_answer m true false true [] rest es h = omega (arith, h)
  one_answer m true false false [] rest es h = omega (arith, h)
  one_answer m true true true (f ∷ queue) rest es h = omega (arith, h)
  one_answer m true true false (f ∷ queue) rest es h = omega (arith, h)
  one_answer m true false true (f ∷ queue) rest es h = omega (arith, h)
  one_answer m true false false (f ∷ queue) rest es h = omega (arith, h)

  answers :
      (m : CanManager C) (es : List Event) (c : Bool)
      → length (answered c (play m es).1) ≤ turns c es
  unfolding play turns answered
  answers m [] c = omega arith
  answers m (Event.send f ∷ es) c = answers (send_frame m f).0 es c
  answers m (Event.turn b ∷ es) c =
      one_answer m m.running b c m.tx_queue (play (tx_turn m b).0 es).1 es
        (answers (tx_turn m b).0 es c)

  -- However sends and turns of the transmit thread interleave, the frames handed to `write`, followed by those still
  -- queued, are those queued before followed by those sent, in the order of sending: none is repeated or overtaken, and
  -- none disappears from the queue otherwise. A frame whose write fails is not tried again: of the frames handed over,
  -- at most as many are lost as there are turns with a failing write, and at most as many are written as there are
  -- others.
  pub play-order :
      (m : CanManager C) (es : List Event)
      → (map frame_of (play m es).1 ++ (play m es).0.tx_queue ≡ m.tx_queue ++ sent es)
        × (length (answered false (play m es).1) ≤ turns false es)
        × (length (answered true (play m es).1) ≤ turns true es)
  play-order m es = (in_order m es, answers m es false, answers m es true)
