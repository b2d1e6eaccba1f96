-- ===== src/Router/Selection.antt =====
-- Registration, selection and routing.
use mcp2515_rpi.Base.{
  ℕ, zero, suc, ◌≡◌, ◌≢◌, inl, inr, refl, sym, ap, ◌∙◌, subst, true, false, Option, none, some,
  List, [], ◌∷◌, ==_iff, Bool-cases, true_not_false, Option-cases, if◌then◌else◌,
}
use mcp2515_rpi.Can.{CanFrame}
use mcp2515_rpi.Router.{
  Manufacturer, Implementation, ProtocolRouter, find, modify, get_current_implementation,
  select_manufacturer, route_can_frame, get_config_for, is_some, same, ordinal,
}

from_ordinal : ℕ → Manufacturer
from_ordinal zero = Manufacturer.chevrolet
from_ordinal (suc zero) = Manufacturer.ford
from_ordinal (suc (suc zero)) = Manufacturer.toyota
from_ordinal (suc (suc (suc zero))) = Manufacturer.bmw
from_ordinal (suc (suc (suc (suc zero)))) = Manufacturer.volkswagen
from_ordinal (suc (suc (suc (suc (suc zero))))) = Manufacturer.mercedes
from_ordinal (suc (suc (suc (suc (suc (suc zero)))))) = Manufacturer.honda
from_ordinal (suc (suc (suc (suc (suc (suc (suc zero))))))) = Manufacturer.nissan
from_ordinal (suc (suc (suc (suc (suc (suc (suc (suc zero)))))))) = Manufacturer.hyundai
from_ordinal (suc (suc (suc (suc (suc (suc (suc (suc (suc n))))))))) = Manufacturer.unknown

from_ordinal_lem : (m : Manufacturer) → from_ordinal (ordinal m) ≡ m
unfolding from_ordinal
from_ordinal_lem Manufacturer.chevrolet = refl
from_ordinal_lem Manufacturer.ford = refl
from_ordinal_lem Manufacturer.toyota = refl
from_ordinal_lem Manufacturer.bmw = refl
from_ordinal_lem Manufacturer.volkswagen = refl
from_ordinal_lem Manufacturer.mercedes = refl
from_ordinal_lem Manufacturer.honda = refl
from_ordinal_lem Manufacturer.nissan = refl
from_ordinal_lem Manufacturer.hyundai = refl
from_ordinal_lem Manufacturer.unknown = refl

same-equal : (a b : Manufacturer) → same a b ≡ true → a ≡ b
same-equal a b e =
    sym (from_ordinal_lem a)
    ∙ ap from_ordinal ((==_iff (ordinal a) (ordinal b)).0 e)
    ∙ from_ordinal_lem b

same_refl : (a : Manufacturer) → same a a ≡ true
same_refl a = (==_iff (ordinal a) (ordinal a)).1 refl

equal_same : (a b : Manufacturer) → a ≡ b → same a b ≡ true
equal_same a b e = (==_iff (ordinal a) (ordinal b)).1 (ap (λ m. ordinal m) e)

same_differs : (a b : Manufacturer) → a ≢ b → same a b ≡ false
same_differs a b h = elim (Bool-cases (same a b)) [
  | inl e ↦ absurd (h (same-equal a b e))
  | inr e ↦ e
]

module _ {I : Type 0} where
  abbrev pub changed : (I → I) → Option I → Option I
  changed f none = none
  changed f (some impl) = some (f impl)

  find-modify :
      (f : I → I) (is : List (Manufacturer × I)) (mfr : Manufacturer)
      → find (modify f is mfr) mfr ≡ changed f (find is mfr)
  unfolding find modify
  find-modify f [] mfr = refl
  find-modify f ((m, impl) ∷ is) mfr = elim (Bool-cases (same m mfr)) [
    | inl e ↦ rw (e, if◌then◌else◌, e) refl
    | inr e ↦ rw (e, if◌then◌else◌, e) (find-modify f is mfr)
  ]

  find-modify_other :
      (f : I → I) (is : List (Manufacturer × I)) (mfr other : Manufacturer)
      → other ≢ mfr
      → find (modify f is mfr) other ≡ find is other
  unfolding find modify
  find-modify_other f [] mfr other h = refl
  find-modify_other f ((m, impl) ∷ is) mfr other h = elim (Bool-cases (same m mfr)) [
    | inl e ↦
        let apart = same_differs m other (λ x. h (sym x ∙ same-equal m mfr e)) in
        rw (e, if◌then◌else◌, apart) refl
    | inr e ↦ rw (e, if◌then◌else◌, find-modify_other f is mfr other h) refl
  ]

  find_modified :
      (f : I → I) (is : List (Manufacturer × I)) (mfr other : Manufacturer)
      → find (modify f is mfr) other
        ≡ (if same other mfr then changed f (find is other) else find is other)
  find_modified f is mfr other = elim (Bool-cases (same other mfr)) [
    | inl e ↦
        rw (e, if◌then◌else◌)
          (subst (λ x. find (modify f is x) other ≡ changed f (find is other))
            (same-equal other mfr e) (find-modify f is other))
    | inr e ↦
        rw (e, if◌then◌else◌)
          (find-modify_other f is mfr other
            (λ x. true_not_false (sym (equal_same other mfr x) ∙ e)))
  ]

  unchanged :
      (f : I → I) (is : List (Manufacturer × I)) (mfr other : Manufacturer)
      → find is mfr ≡ none
      → find is other ≡ (if same other mfr then changed f (find is other) else find is other)
  unchanged f is mfr other e = elim (Bool-cases (same other mfr)) [
    | inl h ↦
        rw (h, if◌then◌else◌)
          (subst (λ x. find is x ≡ changed f (find is x)) (sym (same-equal other mfr h))
            (rw (e) refl))
    | inr h ↦ rw (h, if◌then◌else◌) refl
  ]

  -- Routing a frame changes the current implementation alone, by its own handler, and nothing where none
  -- is selected; the selection stays.
  pub route_lem :
      (ops : Implementation I) (r : ProtocolRouter I) (frame : CanFrame) (other : Manufacturer)
      → (find (route_can_frame ops r frame).implementations other ≡ (
          if same other r.current_manufacturer
          then changed (λ impl. ops.handle_can_frame impl frame) (find r.implementations other)
          else find r.implementations other))
        × ((route_can_frame ops r frame).current_manufacturer ≡ r.current_manufacturer)
  unfolding route_can_frame get_current_implementation
  route_lem ops r frame other =
      let current = r.current_manufacturer in
      let handle : I → I = λ impl. ops.handle_can_frame impl frame in
      elim (Option-cases (find r.implementations current)) [
        | inl e ↦ rw (e, if◌then◌else◌) (unchanged handle r.implementations current other e, refl)
        | inr (impl, e) ↦
            rw (e, if◌then◌else◌) (find_modified handle r.implementations current other, refl)
      ]

  -- A selection succeeds exactly for a registered manufacturer; it then makes that manufacturer current and
  -- hands its configuration to its implementation, and no other; a failed selection changes nothing.
  pub select_lem :
      (ops : Implementation I) (r : ProtocolRouter I) (mfr other : Manufacturer)
      → let after = select_manufacturer ops r mfr in
        (after.1 ≡ is_some (find r.implementations mfr))
        × (after.0.current_manufacturer ≡ (if after.1 then mfr else r.current_manufacturer))
        × (find after.0.implementations other ≡ (
            if same other mfr
            then changed
                (λ impl. ops.on_manufacturer_selected impl (get_config_for mfr))
                (find r.implementations other)
            else find r.implementations other))
  unfolding select_manufacturer
  select_lem ops r mfr other =
      let configure : I → I = λ impl. ops.on_manufacturer_selected impl (get_config_for mfr) in
      elim (Option-cases (find r.implementations mfr)) [
        | inl e ↦
            rw (e, if◌then◌else◌) (refl, refl, unchanged configure r.implementations mfr other e)
        | inr (impl, e) ↦
            rw (e, if◌then◌else◌) (refl, refl, find_modified configure r.implementations mfr other)
      ]
