-- ===== src/Can/Filters.antt =====
-- The receive filters: which callbacks a frame reaches.
use mcp2515_rpi.Base.{
  ℕ, ◌≡◌, ◌≢◌, refl, sym, ap, ◌∙◌, Option, none, some, List, [], ◌∷◌, ◌++◌, arith, ◌==◌,
  if◌then◌else◌, bit_and, Bool-cases, at_or_else, inl, inr,
}
use mcp2515_rpi.Can.{
  FilterEntry, CanManager, dispatch, matches, called, without, register_callback,
  unregister_callback,
}

module _ {C : Type 0} where
  called_append : (o : Option C) (xs ys : List C) → called o xs ++ ys ≡ called o (xs ++ ys)
  called_append none xs ys = refl
  called_append (some c) xs ys = refl

  dispatch-append :
      (es es' : List (FilterEntry C)) (id : ℕ)
      → dispatch (es ++ es') id ≡ dispatch es id ++ dispatch es' id
  unfolding dispatch
  dispatch-append [] es' id = refl
  dispatch-append (e ∷ es) es' id = elim (Bool-cases (matches e id)) [
    | inl hit ↦
        rw (hit, if◌then◌else◌, dispatch-append es es' id)
          (sym (called_append e.callback (dispatch es id) (dispatch es' id)))
    | inr miss ↦ rw (miss, if◌then◌else◌) (dispatch-append es es' id)
  ]

  dispatch_one :
      (can_id mask id : ℕ) (cb : C)
      → dispatch (record { can_id = can_id; mask = mask; callback = some cb } ∷ []) id
        ≡ (if bit_and id mask == bit_and can_id mask then cb ∷ [] else [])
  unfolding dispatch
  dispatch_one can_id mask id cb = refl

  -- A callback registered last is called last, for exactly the frames whose masked identifier is its own,
  -- and the callbacks registered before are called as before.
  pub dispatch-register :
      (m : CanManager C) (can_id mask id : ℕ) (cb : C)
      → dispatch (register_callback m can_id mask (some cb)).filters id
        ≡ dispatch m.filters id ++ (if bit_and id mask == bit_and can_id mask then cb ∷ [] else [])
  unfolding register_callback
  dispatch-register m can_id mask id cb =
      dispatch-append m.filters (record { can_id = can_id; mask = mask; callback = some cb } ∷ [])
        id
      ∙ ap (λ cs. dispatch m.filters id ++ cs) (dispatch_one can_id mask id cb)

  -- The filters of an identifier.
  pub of_id : List (FilterEntry C) → ℕ → List (FilterEntry C)
  of_id [] can_id = []
  of_id (e ∷ es) can_id =
      let rest = of_id es can_id in if e.can_id == can_id then e ∷ rest else rest

  without-none : (es : List (FilterEntry C)) (can_id : ℕ) → of_id (without es can_id) can_id ≡ []
  unfolding of_id without
  without-none [] can_id = refl
  without-none (e ∷ es) can_id = ground (arith, without-none es can_id)

  without-other :
      (es : List (FilterEntry C)) (can_id other : ℕ)
      → other ≢ can_id
      → of_id (without es can_id) other ≡ of_id es other
  unfolding of_id without
  without-other [] can_id other h = refl
  without-other (e ∷ es) can_id other h = ground (arith, without-other es can_id other h)

  -- Unregistering an identifier removes every filter of it, and keeps those of every other in order.
  pub unregister_lem :
      (m : CanManager C) (can_id other : ℕ)
      → of_id (unregister_callback m can_id).filters other
        ≡ (if other == can_id then [] else of_id m.filters other)
  unfolding unregister_callback
  unregister_lem m can_id other =
      at_or_else other can_id _ _ _
        (λ e. ap (of_id (without m.filters can_id)) e ∙ without-none m.filters can_id)
        (without-other m.filters can_id other)
