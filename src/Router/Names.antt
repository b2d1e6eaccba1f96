-- ===== src/Router/Names.antt =====
-- The names of the manufacturers.
use mcp2515_rpi.Base.{ℕ, ◌≡◌, refl, sym, ◌∙◌, ap, ap₂, [], ◌∷◌, map, arith}
use mcp2515_rpi.Router.{
  Manufacturer, Text, to_lower, from_lower, string_to_manufacturer, manufacturer_to_string,
}

to_lower_twice : (c : ℕ) → to_lower (to_lower c) ≡ to_lower c
to_lower_twice c = ground arith

lower_twice : (str : Text) → map to_lower (map to_lower str) ≡ map to_lower str
lower_twice [] = refl
lower_twice (c ∷ cs) = ap₂ (λ x xs. x ∷ xs) (to_lower_twice c) (lower_twice cs)

to-string : (m : Manufacturer) → string_to_manufacturer (manufacturer_to_string m) ≡ m
unfolding string_to_manufacturer manufacturer_to_string
to-string Manufacturer.chevrolet = refl
to-string Manufacturer.ford = refl
to-string Manufacturer.toyota = refl
to-string Manufacturer.bmw = refl
to-string Manufacturer.volkswagen = refl
to-string Manufacturer.mercedes = refl
to-string Manufacturer.honda = refl
to-string Manufacturer.nissan = refl
to-string Manufacturer.hyundai = refl
to-string Manufacturer.unknown = refl

any_case : (str : Text) → string_to_manufacturer (map to_lower str) ≡ string_to_manufacturer str
unfolding string_to_manufacturer
any_case str = ap (λ s. from_lower s) (lower_twice str)

-- A name that is a manufacturer's own, in any case of its letters, is read as that manufacturer.
pub string-manufacturer :
    (m : Manufacturer) (str : Text)
    → map to_lower str ≡ manufacturer_to_string m
    → string_to_manufacturer str ≡ m
string-manufacturer m str e =
    sym (any_case str) ∙ ap (λ s. string_to_manufacturer s) e ∙ to-string m
