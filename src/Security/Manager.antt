-- ===== src/Security/Manager.antt =====
-- src/core/security.hpp and security.cpp, SecurityManager: the registry of algorithms by manufacturer
-- and level, and the check of a key. A registered algorithm is any function of its type.
use Prim.Native.String.{String}
use text.Mathlib.Text.{◌==◌ as str_eq}
use text.Mathlib.TextEquality.{eq_iff}
use mcp2515_rpi.Base.{
  ℕ, zero, suc, ◌+◌, ◌≡◌, ◌↔◌, refl, Bool, true, false, not, ◌&&◌, Option, none, some, List, [],
  ◌∷◌, arith, bit_xor, length, length-map, map, ◌==◌, if◌then◌else◌,
}

abbrev pub SeedKeyAlgorithm : Type 0
SeedKeyAlgorithm = List ℕ → List ℕ → Bool → List ℕ

pub record Entry : Type 0 where
  pub manufacturer : String
  pub level : ℕ
  pub algorithm : SeedKeyAlgorithm

pub record SecurityManager : Type 0 where
  pub algorithms : List Entry
  pub seed_sizes : List (ℕ × ℕ)

find_size : ℕ → List (ℕ × ℕ) → Option ℕ
find_size level [] = none
find_size level ((l, size) ∷ rest) = if l == level then some size else find_size level rest

put_size : ℕ → ℕ → List (ℕ × ℕ) → List (ℕ × ℕ)
put_size level size [] = (level, size) ∷ []
put_size level size ((l, old) ∷ rest) =
    if l == level then (l, size) ∷ rest else (l, old) ∷ put_size level size rest

abbrev is_at : Entry → String → ℕ → Bool
is_at e manufacturer level = str_eq e.manufacturer manufacturer && e.level == level

find : String → ℕ → List Entry → Option SeedKeyAlgorithm
find manufacturer level [] = none
find manufacturer level (e ∷ rest) =
    if is_at e manufacturer level then some e.algorithm else find manufacturer level rest

put : String → ℕ → SeedKeyAlgorithm → List Entry → List Entry
put manufacturer level algo [] =
    record { manufacturer = manufacturer; level = level; algorithm = algo } ∷ []
put manufacturer level algo (e ∷ rest) =
    if is_at e manufacturer level
    then record e { algorithm = algo } ∷ rest
    else e ∷ put manufacturer level algo rest

unfoldable pub init : SecurityManager
init = record { algorithms = []; seed_sizes = (1, 4) ∷ (2, 4) ∷ (3, 8) ∷ [] }

unfoldable pub register_algorithm :
    SecurityManager → String → ℕ → SeedKeyAlgorithm → SecurityManager
unfolding put
register_algorithm m manufacturer level algo = record m {
  algorithms = put manufacturer level algo m.algorithms;
}

pub set_seed_size : SecurityManager → ℕ → ℕ → SecurityManager
unfolding put_size
set_seed_size m level size = record m { seed_sizes = put_size level size m.seed_sizes }

pub get_seed_size : SecurityManager → ℕ → ℕ
unfolding find_size
get_seed_size m level = elim (find_size level m.seed_sizes) [ none ↦ 4 | some size ↦ size ]

-- The first `n` values that `random i` gives, as the fresh seed.
random_bytes : (ℕ → ℕ) → ℕ → ℕ → List ℕ
random_bytes random zero i = []
random_bytes random (suc n) i = random i ∷ random_bytes random n (i + 1)

-- `random` is the uniform distribution on bytes, a value for each draw.
pub generate_seed : SecurityManager → (ℕ → ℕ) → String → ℕ → List ℕ
unfolding find random_bytes
generate_seed m random manufacturer level =
    let seed = random_bytes random (get_seed_size m level) 0 in
    elim (find manufacturer level m.algorithms) [ none ↦ seed | some algo ↦ algo seed [] true ]

abbrev pub complement : List ℕ → List ℕ
complement = map (λ b. bit_xor b 0xFF)

-- `key == expected` of two vectors.
unfoldable pub same_bytes : List ℕ → List ℕ → Bool
same_bytes [] [] = true
same_bytes [] (y ∷ ys) = false
same_bytes (x ∷ xs) [] = false
same_bytes (x ∷ xs) (y ∷ ys) = x == y && same_bytes xs ys

abbrev is_success : List ℕ → Bool
is_success [] = false
is_success (r ∷ rest) = r == 0x01

unfoldable pub validate_key : SecurityManager → String → ℕ → List ℕ → List ℕ → Bool
unfolding find
validate_key m manufacturer level seed key = elim (find manufacturer level m.algorithms) [
  | none ↦ if not (length seed == length key) then false else same_bytes key (complement seed)
  | some algo ↦ is_success (algo seed key false)
]

find-put :
    (k j : String) (level at_level : ℕ) (algo : SeedKeyAlgorithm) (es : List Entry)
    → find j at_level (put k level algo es)
      ≡ (if str_eq k j && level == at_level then some algo else find j at_level es)
unfolding find put
find-put k j level at_level algo [] = refl
find-put k j level at_level algo (e ∷ es) = ground (
  arith,
  eq_iff k j,
  eq_iff e.manufacturer k,
  eq_iff e.manufacturer j,
  find-put k j level at_level algo es,
)

-- A registration decides the keys of its own manufacturer and level, by the first byte of what the
-- algorithm answers, replacing any earlier one, and changes nothing for the others.
pub validate-register :
    (m : SecurityManager) (k j : String) (level at_level : ℕ) (algo : SeedKeyAlgorithm)
    (seed key : List ℕ)
    → validate_key (register_algorithm m k level algo) j at_level seed key ≡ (
        if str_eq k j && level == at_level
        then is_success (algo seed key false)
        else validate_key m j at_level seed key)
unfolding validate_key register_algorithm
validate-register m k j level at_level algo seed key =
    ground (arith, find-put k j level at_level algo m.algorithms)

same_bytes_iff : (xs ys : List ℕ) → (same_bytes xs ys ≡ true) ↔ (xs ≡ ys)
unfolding same_bytes
same_bytes_iff [] [] = ground arith
same_bytes_iff [] (y ∷ ys) = ground arith
same_bytes_iff (x ∷ xs) [] = ground arith
same_bytes_iff (x ∷ xs) (y ∷ ys) = ground (arith, same_bytes_iff xs ys)

-- With no algorithm registered, the one key that is accepted is the seed with every bit flipped.
pub validate_unregistered :
    (j : String) (level : ℕ) (seed key : List ℕ)
    → (validate_key init j level seed key ≡ true) ↔ (key ≡ complement seed)
unfolding validate_key init
validate_unregistered j level seed key =
    ground (arith, same_bytes_iff key (complement seed), length-map (λ b. bit_xor b 0xFF) seed)
