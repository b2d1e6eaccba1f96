-- ===== src/CanTp/Reach.antt =====
-- The states that traffic and resets lead to.
use mcp2515_rpi.Base.{ℕ, bit_and, ◌≡◌, refl, ◌⊎◌, inl, inr, List, [], ◌∷◌, arith}
use mcp2515_rpi.CanTp.{
  State, CanTp, init, reset, receive_single, receive_first, receive_consecutive,
  receive_flow_control, process_frame,
}
use mcp2515_rpi.CanTp.Invariant.{split_frame}

pub data Step (t : CanTp) : CanTp → Type 0 where
  frame : (id : ℕ) (bytes : List ℕ) → Step t (process_frame t id bytes).0
  resets : Step t (reset t)

pub data Reach : CanTp → Type 0 where
  start : Reach init
  next : {t u : CanTp} → Reach t → Step t u → Reach u

abbrev pub IsSettled : CanTp → Type 0
IsSettled t = (t.state ≡ State.idle) ⊎ (t.state ≡ State.receiving_multi_frame)

first-IsSettled :
    (t : CanTp) (id b0 : ℕ) (rest : List ℕ) → IsSettled t → IsSettled (receive_first t id b0 rest).0
unfolding receive_first
first-IsSettled t id b0 [] h = h
first-IsSettled t id b0 (b1 ∷ rest) h = inr refl

consecutive-IsSettled :
    (t : CanTp) (id b0 : ℕ) (rest : List ℕ)
    → IsSettled t
    → IsSettled (receive_consecutive t id b0 rest).0
unfolding receive_consecutive
consecutive-IsSettled t id b0 rest h = ground arith

flow_control-IsSettled :
    (t : CanTp) (b0 : ℕ) → IsSettled t → IsSettled (receive_flow_control t b0).0
unfolding receive_flow_control
flow_control-IsSettled t b0 h = ground arith

process_frame-IsSettled :
    (t : CanTp) (id : ℕ) (bytes : List ℕ) → IsSettled t → IsSettled (process_frame t id bytes).0
process_frame-IsSettled t id [] h = unfold process_frame in h
process_frame-IsSettled t id (b0 ∷ rest) h =
    split_frame (λ r. IsSettled r.0) t id b0 rest (unfold receive_single in h)
      (first-IsSettled t id b0 rest h) (consecutive-IsSettled t id b0 rest h)
      (flow_control-IsSettled t b0 h) h

Reach-IsSettled : {t : CanTp} → Reach t → IsSettled t
Reach-IsSettled start = unfold init in inl refl
Reach-IsSettled (next {t} r (frame id bytes)) =
    process_frame-IsSettled t id bytes (Reach-IsSettled r)
Reach-IsSettled (next r resets) = unfold reset in inl refl

-- Whatever frames and resets came before, a flow control frame changes nothing and delivers
-- nothing: no operation ever enters the sending state in which its flag would be read.
pub Reach-flow_control :
    (t : CanTp) (id b0 : ℕ) (rest : List ℕ)
    → Reach t
    → bit_and b0 0xF0 ≡ 0x30
    → process_frame t id (b0 ∷ rest) ≡ (t, [])
unfolding process_frame
Reach-flow_control t id b0 rest r pci = ground (arith, Reach-IsSettled r)
