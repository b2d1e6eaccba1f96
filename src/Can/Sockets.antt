-- ===== src/Can/Sockets.antt =====
-- The socket's life: starting, stopping, and the descriptors that they open and close.
use mcp2515_rpi.Base.{
  ℕ, ◌≡◌, refl, sym, ap, ◌∙◌, Bool, true, false, Option, none, some, List, [], ◌∷◌, ◌++◌,
  append-nil, arith, Bool-cases, inl, inr, if◌then◌else◌,
}
use mcp2515_rpi.Can.{CanManager, init, start, stop, open_with, is_up}

abbrev held : Option ℕ → List ℕ
held none = []
held (some fd) = fd ∷ []

abbrev is_some : Option ℕ → Bool
is_some none = false
is_some (some fd) = true

-- The descriptors opened are those closed, then the one that is held; one is held exactly when the interface is up,
-- and exactly when `running_` is set, the flag that the loops of the threads test.
pub record Sound {C : Type 0} (m : CanManager C) : Type 0 where
  pub balanced : m.opened ≡ m.closed ++ held m.socket
  pub up_iff : is_up m.state ≡ is_some m.socket
  pub running_iff : m.running ≡ is_some m.socket

pub data Call : Type 0 where
  start_with : Option ℕ → Bool → Call
  halt : Call

nothing_held : (s : Option ℕ) → is_some s ≡ false → s ≡ none
nothing_held none e = refl
nothing_held (some fd) e = absurd (ground (arith, e))

module _ {C : Type 0} where
  unfoldable pub call : CanManager C → Call → CanManager C
  call m (Call.start_with fd ok) = (start m fd ok).0
  call m Call.halt = stop m

  unfoldable pub calls : CanManager C → List Call → CanManager C
  unfolding call
  calls m [] = m
  calls m (c ∷ cs) = calls (call m c) cs

  all_closed : (m : CanManager C) → Sound m → m.socket ≡ none → m.opened ≡ m.closed
  all_closed m h free = h.balanced ∙ ap (λ s. m.closed ++ held s) free ∙ append-nil m.closed

  open-Sound :
      (m : CanManager C) (fd : Option ℕ) (ok : Bool)
      → Sound m
      → m.socket ≡ none
      → Sound (open_with m fd ok).0
  unfolding open_with
  open-Sound m none ok h free = record {
    balanced = h.balanced ∙ ap (λ s. m.closed ++ held s) free;
    up_iff = refl;
    running_iff = h.running_iff ∙ ap is_some free;
  }
  open-Sound m (some fd) false h free = record {
    balanced =
        ap (λ o. o ++ fd ∷ []) (all_closed m h free) ∙ sym (append-nil (m.closed ++ fd ∷ []));
    up_iff = refl;
    running_iff = h.running_iff ∙ ap is_some free;
  }
  open-Sound m (some fd) true h free = record {
    balanced = ap (λ o. o ++ fd ∷ []) (all_closed m h free);
    up_iff = refl;
    running_iff = refl;
  }

  start-Sound : (m : CanManager C) (fd : Option ℕ) (ok : Bool) → Sound m → Sound (start m fd ok).0
  unfolding start
  start-Sound m fd ok h = elim (Bool-cases (is_up m.state)) [
    | inl up ↦ rw (up, if◌then◌else◌) h
    | inr other ↦
        rw (other, if◌then◌else◌)
          (open-Sound m fd ok h (nothing_held m.socket (sym h.up_iff ∙ other)))
  ]

  stop_of :
      (m : CanManager C) (s : Option ℕ)
      → m.opened ≡ m.closed ++ held s
      → Sound (stop (record m { socket = s }))
  unfolding stop
  stop_of m none h = record { balanced = h; up_iff = refl; running_iff = refl }
  stop_of m (some fd) h = record {
    balanced = h ∙ sym (append-nil (m.closed ++ fd ∷ []));
    up_iff = refl;
    running_iff = refl;
  }

  stop-Sound : (m : CanManager C) → Sound m → Sound (stop m)
  stop-Sound m h = stop_of m m.socket h.balanced

  call-Sound : (m : CanManager C) (c : Call) → Sound m → Sound (call m c)
  unfolding call
  call-Sound m (Call.start_with fd ok) h = start-Sound m fd ok h
  call-Sound m Call.halt h = stop-Sound m h

  calls_from-Sound : (m : CanManager C) (cs : List Call) → Sound m → Sound (calls m cs)
  unfolding calls
  calls_from-Sound m [] h = h
  calls_from-Sound m (c ∷ cs) h = calls_from-Sound (call m c) cs (call-Sound m c h)

  init-Sound : Sound (init {C = C})
  unfolding init
  init-Sound = record { balanced = refl; up_iff = refl; running_iff = refl }

  -- After any sequence of starts, with any answers of the kernel, and stops, the descriptors opened are those
  -- closed and after them the one that is held, if any; one is held exactly when the state is up, and exactly when the
  -- flag `running_` is set.
  pub calls-Sound : (cs : List Call) → Sound (calls (init {C = C}) cs)
  calls-Sound cs = calls_from-Sound init cs init-Sound

  stopped_of : (m : CanManager C) (s : Option ℕ) → (stop (record m { socket = s })).socket ≡ none
  unfolding stop
  stopped_of m none = refl
  stopped_of m (some fd) = refl

-- A stop after any sequence of calls leaves every descriptor closed.
pub stop_closes :
    (C : Type 0) (cs : List Call)
    → (stop (calls (init {C = C}) cs)).opened ≡ (stop (calls (init {C = C}) cs)).closed
stop_closes C cs =
    let m = calls (init {C = C}) cs in
    all_closed (stop m) (stop-Sound m (calls-Sound cs)) (stopped_of m m.socket)
