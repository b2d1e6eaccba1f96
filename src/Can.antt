-- ===== src/Can.antt =====
-- src/core/can_manager.hpp and can_manager.cpp, CANManager: the socket's life, the transmit queue and the
-- receive filters. What the kernel answers is an argument of each call, and the descriptors opened and
-- closed are logged. A callback is a value of any type, and the mutexes make each function one step.
pub mod Transmit
pub mod Filters
pub mod Sockets
mod Runs
use mcp2515_rpi.Base.{
  ℕ, zero, suc, ◌+◌, ◌-◌, min, Bool, true, false, not, ◌&&◌, Option, none, some, List, [], ◌∷◌,
  ◌++◌, length, take, replicate, bit_and, bit_or, ◌==◌, if◌then◌else◌,
}

pub data CanState : Type 0 where
  down up error : CanState

pub record CanFrame : Type 0 where
  pub can_id : ℕ
  pub can_dlc : ℕ
  pub bytes : List ℕ

pub record FilterEntry (C : Type 0) : Type 0 where
  pub can_id : ℕ
  pub mask : ℕ
  pub callback : Option C

pub record CanManager (C : Type 0) : Type 0 where
  pub socket : Option ℕ
  pub state : CanState
  pub running : Bool
  pub filters : List (FilterEntry C)
  pub tx_queue : List CanFrame
  pub opened : List ℕ
  pub closed : List ℕ

abbrev can_eff_flag : ℕ
can_eff_flag = 0x80000000

-- What the kernel answers to a turn of `rxLoop`. A failure is an interruption, EINTR, or not.
pub data RxAnswer : Type 0 where
  poll_fails receive_fails : Bool → RxAnswer
  timeout : RxAnswer
  received : ℕ → RxAnswer

-- The frame that `sendFrame` makes of an identifier and its data.
unfoldable pub make_frame : ℕ → List ℕ → Bool → CanFrame
make_frame id payload is_extended =
    let dlc = min (length payload) 8 in
    record {
      can_id = if is_extended then bit_or id can_eff_flag else id;
      can_dlc = dlc;
      bytes = take dlc payload ++ replicate (8 - dlc) 0;
    }

-- The frame's data, as a receiver reads it.
abbrev pub frame_payload : CanFrame → List ℕ
frame_payload f = take f.can_dlc f.bytes

abbrev is_up : CanState → Bool
is_up CanState.up = true
is_up _ = false

module _ {C : Type 0} where
  unfoldable pub init : CanManager C
  init = record {
    socket = none;
    state = CanState.down;
    running = false;
    filters = [];
    tx_queue = [];
    opened = [];
    closed = [];
  }

  -- `opened` is what `openSocket` returns, `configured` what `configureInterface` does.
  open_with : CanManager C → Option ℕ → Bool → CanManager C × Bool
  open_with m none configured = (record m { state = CanState.error; socket = none }, false)
  open_with m (some fd) false = (
    record m {
      state = CanState.error;
      socket = none;
      opened = m.opened ++ fd ∷ [];
      closed = m.closed ++ fd ∷ [];
    },
    false,
  )
  open_with m (some fd) true = (
    record m {
      state = CanState.up;
      socket = some fd;
      running = true;
      opened = m.opened ++ fd ∷ [];
    },
    true,
  )

  unfoldable pub start : CanManager C → Option ℕ → Bool → CanManager C × Bool
  unfolding open_with
  start m opened configured = if is_up m.state then (m, true) else open_with m opened configured

  abbrev close_socket : CanManager C → Option ℕ → CanManager C
  close_socket m none = m
  close_socket m (some fd) = record m { socket = none; closed = m.closed ++ fd ∷ [] }

  unfoldable pub stop : CanManager C → CanManager C
  stop m = close_socket (record m { running = false; state = CanState.down }) m.socket

  unfoldable pub send_frame : CanManager C → CanFrame → CanManager C × Bool
  send_frame m frame = (record m { tx_queue = m.tx_queue ++ frame ∷ [] }, true)

  unfoldable pub send_bytes : CanManager C → ℕ → List ℕ → Bool → CanManager C × Bool
  unfolding make_frame send_frame
  send_bytes m id payload is_extended = send_frame m (make_frame id payload is_extended)

  unfoldable pub register_callback : CanManager C → ℕ → ℕ → Option C → CanManager C
  register_callback m can_id mask cb = record m {
    filters = m.filters ++ record { can_id = can_id; mask = mask; callback = cb } ∷ [];
  }

  pub without : List (FilterEntry C) → ℕ → List (FilterEntry C)
  without [] can_id = []
  without (e ∷ es) can_id =
      let rest = without es can_id in if e.can_id == can_id then rest else e ∷ rest

  unfoldable pub unregister_callback : CanManager C → ℕ → CanManager C
  unfolding without
  unregister_callback m can_id = record m { filters = without m.filters can_id }

  abbrev pub matches : FilterEntry C → ℕ → Bool
  matches e id = bit_and id e.mask == bit_and e.can_id e.mask

  abbrev called : Option C → List C → List C
  called none rest = rest
  called (some cb) rest = cb ∷ rest

  -- The callbacks that `rxLoop` calls for a frame, in order.
  unfoldable pub dispatch : List (FilterEntry C) → ℕ → List C
  dispatch [] id = []
  dispatch (e ∷ es) id =
      let rest = dispatch es id in if matches e id then called e.callback rest else rest

  -- A turn of `rxLoop`: whether the loop goes on, and the callbacks called.
  unfoldable pub rx_turn : CanManager C → RxAnswer → Bool × List C
  unfolding dispatch
  rx_turn m (poll_fails interrupted) = (interrupted, [])
  rx_turn m timeout = (true, [])
  rx_turn m (receive_fails interrupted) = (interrupted, [])
  rx_turn m (received can_id) = (true, dispatch m.filters can_id)

  -- The loop while the manager runs: whether it still does after these answers, and the callbacks called.
  unfoldable pub rx_loop : CanManager C → List RxAnswer → Bool × List C
  unfolding rx_turn
  rx_loop m [] = (true, [])
  rx_loop m (a ∷ answers) =
      let rest = rx_loop m answers in
      if (rx_turn m a).0 then (rest.0, (rx_turn m a).1 ++ rest.1) else (false, [])

  -- One turn of `txLoop`, where `written` tells whether `write` takes the frame: the frame handed to it, if any,
  -- with that answer. A frame that it does not take is out of the queue all the same.
  unfoldable pub tx_turn : CanManager C → Bool → CanManager C × Option (CanFrame × Bool)
  tx_turn m written = if not m.running then (m, none) else elim m.tx_queue [
    | [] ↦ (m, none)
    | frame ∷ rest ↦ (record m { tx_queue = rest }, some (frame, written))
  ]
