-- ===== src/Api/Servers.antt =====
-- src/api/websocket.hpp, websocket.cpp, grpc_server.hpp and grpc_server.cpp: WebSocketServer and GRPCServer. The
-- answers of the writes are arguments, and what is written is a list of pairs of a client and a message.
use mcp2515_rpi.Base.{
  ℕ, ◌≡◌, refl, Bool, true, false, Option, none, some, List, [], ◌∷◌, if◌then◌else◌, arith, ap,
}

pub record WebSocketServer (S : Type 0) : Type 0 where
  pub running : Bool
  pub thread_runs : Bool
  pub update_gen : Option (S → List ℕ)
  pub frame_handler : Option (List ℕ → List ℕ → S → S)
  pub clients : List ℕ

module _ {S : Type 0} where
  unfoldable pub init : WebSocketServer S
  init = record {
    running = false;
    thread_runs = false;
    update_gen = none;
    frame_handler = none;
    clients = [];
  }

  unfoldable pub start : WebSocketServer S → WebSocketServer S × Bool
  start w = if w.running then (w, true) else (record w { running = true; thread_runs = true }, true)

  unfoldable pub stop : WebSocketServer S → WebSocketServer S
  stop w = record w { running = false; thread_runs = false }

  unfoldable pub set_update_generator : WebSocketServer S → (S → List ℕ) → WebSocketServer S
  set_update_generator w generator = record w { update_gen = some generator }

  unfoldable pub set_frame_handler :
      WebSocketServer S → (List ℕ → List ℕ → S → S) → WebSocketServer S
  set_frame_handler w handler = record w { frame_handler = some handler }

-- The loop of `broadcast`: the clients whose write fails are closed and dropped.
unfoldable pub keep_clients : (ℕ → Bool) → List ℕ → List ℕ
keep_clients write_fails [] = []
keep_clients write_fails (c ∷ clients) =
    let rest = keep_clients write_fails clients in if write_fails c then rest else c ∷ rest

unfoldable pub written : List ℕ → List ℕ → List (ℕ × List ℕ)
written message [] = []
written message (c ∷ clients) = (c, message) ∷ written message clients

module _ {S : Type 0} where
  unfoldable pub broadcast :
      (ℕ → Bool) → WebSocketServer S → List ℕ → WebSocketServer S × List (ℕ × List ℕ)
  unfolding keep_clients written
  broadcast write_fails w message =
      (record w { clients = keep_clients write_fails w.clients }, written message w.clients)

  abbrev pub update_with :
      (ℕ → Bool)
      → WebSocketServer S
      → S
      → Option (S → List ℕ)
      → WebSocketServer S × List (ℕ × List ℕ)
  update_with write_fails w s none = (w, [])
  update_with write_fails w s (some generator) = broadcast write_fails w (generator s)

  -- One round of `wsLoop`.
  unfoldable pub ws_round :
      (ℕ → Bool) → WebSocketServer S → S → WebSocketServer S × List (ℕ × List ℕ)
  unfolding broadcast
  ws_round write_fails w s = if w.running then update_with write_fails w s w.update_gen else (w, [])

  -- What the program does with the server.
  pub data Step : WebSocketServer S → WebSocketServer S → Type 0 where
    starts : (w : WebSocketServer S) → Step w (start w).0
    stops : (w : WebSocketServer S) → Step w (stop w)
    generates : (w : WebSocketServer S) (g : S → List ℕ) → Step w (set_update_generator w g)
    handles : (w : WebSocketServer S) (h : List ℕ → List ℕ → S → S) → Step w (set_frame_handler w h)
    rounds : (fails : ℕ → Bool) (w : WebSocketServer S) (s : S) → Step w (ws_round fails w s).0

  pub data Reach : WebSocketServer S → Type 0 where
    begin : Reach init
    next : {w v : WebSocketServer S} → Reach w → Step w v → Reach v

  update_clients :
      (fails : ℕ → Bool) (w : WebSocketServer S) (s : S) (generator : Option (S → List ℕ))
      → w.clients ≡ []
      → ((update_with fails w s generator).0.clients ≡ [])
        × ((update_with fails w s generator).1 ≡ [])
  unfolding broadcast keep_clients written
  update_clients fails w s none h = (h, refl)
  update_clients fails w s (some g) h = (ap (keep_clients fails) h, ap (written (g s)) h)

  either_round :
      (b : Bool) (w : WebSocketServer S) (r : WebSocketServer S × List (ℕ × List ℕ))
      → w.clients ≡ []
      → (r.0.clients ≡ []) × (r.1 ≡ [])
      → ((if◌then◌else◌ {A = WebSocketServer S × List (ℕ × List ℕ)} b r (w, [])).0.clients ≡ [])
        × ((if◌then◌else◌ {A = WebSocketServer S × List (ℕ × List ℕ)} b r (w, [])).1 ≡ [])
  either_round true w r h k = k
  either_round false w r h k = (h, refl)

  round_clients :
      (fails : ℕ → Bool) (w : WebSocketServer S) (s : S)
      → w.clients ≡ []
      → ((ws_round fails w s).0.clients ≡ []) × ((ws_round fails w s).1 ≡ [])
  unfolding ws_round
  round_clients fails w s h =
      either_round w.running w (update_with fails w s w.update_gen) h
        (update_clients fails w s w.update_gen h)

  step_clients : {w v : WebSocketServer S} → Step w v → w.clients ≡ [] → v.clients ≡ []
  unfolding start stop set_update_generator set_frame_handler
  step_clients (starts w) h = ground (arith, h)
  step_clients (stops w) h = h
  step_clients (generates w g) h = h
  step_clients (handles w k) h = h
  step_clients (rounds fails w s) h = (round_clients fails w s h).0

  reach_clients : {w : WebSocketServer S} → Reach w → w.clients ≡ []
  unfolding init
  reach_clients begin = refl
  reach_clients (next r st) = step_clients st (reach_clients r)

  -- No sequence of calls gives the server a client: in every state that it reaches, a round of its loop writes
  -- nothing to anybody.
  pub ws_round_lem :
      {w : WebSocketServer S} (fails : ℕ → Bool) (s : S)
      → Reach w
      → (w.clients ≡ []) × ((ws_round fails w s).1 ≡ [])
  ws_round_lem {w} fails s r = (reach_clients r, (round_clients fails w s (reach_clients r)).1)

pub record GrpcServer : Type 0 where
  pub running : Bool

unfoldable pub grpc_start : GrpcServer → GrpcServer × Bool
grpc_start g = (record { running = true }, true)

unfoldable pub grpc_stop : GrpcServer → GrpcServer
grpc_stop g = record { running = false }
