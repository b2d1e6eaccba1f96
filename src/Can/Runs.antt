-- ===== src/Can/Runs.antt =====
-- Concrete runs of the CAN manager, and the theorems at concrete inputs.
use mcp2515_rpi.Base.{ℕ, ◌≡◌, ◌≤◌, refl, length, map, true, false, none, some, List, [], ◌∷◌, ◌++◌}
use mcp2515_rpi.Can.{
  CanFrame, CanManager, init, start, make_frame, send_bytes, register_callback, dispatch, tx_turn,
  rx_loop, rx_turn, received, poll_fails, timeout, receive_fails,
}
use mcp2515_rpi.Can.Transmit.{Event, sent, turns, answered, frame_of, play, play-order}
use mcp2515_rpi.Can.Sockets.{Call, Sound, calls, calls-Sound}

-- Ten bytes are cut to eight.
cut :
    (make_frame 0x7E8 (1 ∷ 2 ∷ 3 ∷ 4 ∷ 5 ∷ 6 ∷ 7 ∷ 8 ∷ 9 ∷ 10 ∷ []) false).bytes
    ≡ 1 ∷ 2 ∷ 3 ∷ 4 ∷ 5 ∷ 6 ∷ 7 ∷ 8 ∷ []
unfolding make_frame
cut = refl

extended : (make_frame 0x18DAF110 [] true).can_id ≡ 0x98DAF110
unfolding make_frame
extended = refl

abbrev up : CanManager ℕ
up = (start init (some 3) true).0

abbrev one : CanFrame
one = make_frame 0x7E8 (0x50 ∷ 0x03 ∷ []) false

abbrev two : CanFrame
two = make_frame 0x7E8 (0x7E ∷ 0x00 ∷ []) false

abbrev busy : List Event
busy = Event.send one ∷ Event.turn false ∷ Event.send two ∷ Event.turn true ∷ []

-- A frame whose write fails is lost.
one_lost : (play up busy).1 ≡ (one, false) ∷ (two, true) ∷ []
unfolding play start init tx_turn send_bytes
one_lost = refl

play-order_example :
    (map frame_of (play up busy).1 ++ (play up busy).0.tx_queue ≡ up.tx_queue ++ sent busy)
    × (length (answered false (play up busy).1) ≤ turns false busy)
    × (length (answered true (play up busy).1) ≤ turns true busy)
play-order_example = play-order up busy

abbrev listening : CanManager ℕ
listening = register_callback init 0x000 0x000 (some 7)

all_frames : dispatch listening.filters 0x7E0 ≡ 7 ∷ []
unfolding dispatch register_callback init
all_frames = refl

-- An error of the socket other than an interruption ends the loop of the receive thread.
receiving :
    (rx_loop listening (received 0x7E0 ∷ poll_fails true ∷ timeout ∷ received 0x7E8 ∷ [])
      ≡ (true, 7 ∷ 7 ∷ []))
    × (rx_loop listening (receive_fails false ∷ received 0x7E0 ∷ []) ≡ (false, []))
unfolding rx_loop rx_turn dispatch register_callback init
receiving = (refl, refl)

abbrev session : List Call
session =
    Call.start_with none true
    ∷ Call.start_with (some 3) false
    ∷ Call.start_with (some 4) true
    ∷ Call.halt
    ∷ Call.start_with (some 5) true
    ∷ []

calls-Sound_example : Sound (calls (init {C = ℕ}) session)
calls-Sound_example = calls-Sound session
