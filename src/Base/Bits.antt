-- ===== src/Base/Bits.antt =====
-- The bit operations as arithmetic, at variables.
use Prim.Native.Nat.{
  ℕ, zero, suc, ◌+◌, ◌-◌, ◌*◌, ◌/◌, ◌%◌, ◌^◌, ◌≤◌, ◌<◌, min, max, bit_and, bit_or, bit_xor, digits,
  differ, bit_and-bitwise, bit_or-bitwise, bit_xor-bitwise,
}
use mathlib.Core.Path.{◌≡◌, refl, ap, ◌∙◌}
use native.Mathlib.Nat.{pow-suc, one-le-pow, div-div-eq-div-mul}
use native.Mathlib.Omega.{arith}

-- More fuel than the first operand needs makes no difference.
module _ (z : ℕ → ℕ) (f : ℕ → ℕ → ℕ) where
  digits_enough :
      (fuel more x y : ℕ) → x ≤ fuel → x ≤ more → digits z f fuel x y ≡ digits z f more x y
  digits_enough (suc fuel) (suc more) (suc x) y within beyond =
      omega (arith, digits_enough fuel more (suc x / 2) (y / 2) (omega arith) (omega arith))
  digits_enough (suc fuel) zero (suc x) y within beyond = elim beyond [ ]
  digits_enough zero more (suc x) y within beyond = elim within [ ]
  digits_enough (suc fuel) (suc more) zero y within beyond = refl
  digits_enough (suc fuel) zero zero y within beyond = refl
  digits_enough zero (suc more) zero y within beyond = refl
  digits_enough zero zero zero y within beyond = refl

-- Each operation from its lowest digit.
pub bit_and_step :
    (left right : ℕ)
    → bit_and left right ≡ bit_and (left / 2) (right / 2) * 2 + min (left % 2) (right % 2)
bit_and_step zero right = omega (arith, bit_and-bitwise 0 right, bit_and-bitwise 0 (right / 2))
bit_and_step (suc left) right = omega (
  arith,
  bit_and-bitwise (suc left) right,
  bit_and-bitwise (suc left / 2) (right / 2),
  digits_enough (λ b. zero) min left (suc left / 2) (suc left / 2) (right / 2) (omega arith)
      (omega arith),
)

pub bit_or_step :
    (left right : ℕ)
    → bit_or left right ≡ bit_or (left / 2) (right / 2) * 2 + max (left % 2) (right % 2)
bit_or_step zero right = omega (arith, bit_or-bitwise 0 right, bit_or-bitwise 0 (right / 2))
bit_or_step (suc left) right = omega (
  arith,
  bit_or-bitwise (suc left) right,
  bit_or-bitwise (suc left / 2) (right / 2),
  digits_enough (λ b. b) max left (suc left / 2) (suc left / 2) (right / 2) (omega arith)
      (omega arith),
)

differ-zero : (b : ℕ) → differ 0 b ≡ b
differ-zero zero = refl
differ-zero (suc b) = refl

pub bit_xor_step : (a b : ℕ) → bit_xor a b ≡ bit_xor (a / 2) (b / 2) * 2 + differ (a % 2) (b % 2)
bit_xor_step zero b =
    omega (arith, bit_xor-bitwise 0 b, bit_xor-bitwise 0 (b / 2), differ-zero (b % 2))
bit_xor_step (suc a) b = omega (
  arith,
  bit_xor-bitwise (suc a) b,
  bit_xor-bitwise (suc a / 2) (b / 2),
  digits_enough (λ b. b) differ a (suc a / 2) (suc a / 2) (b / 2) (omega arith) (omega arith),
)

-- A zero operand, by a bound on the other that halves.
and_zero_below : (n a : ℕ) → a ≤ n → bit_and a 0 ≡ 0
and_zero_below n zero h = refl
and_zero_below zero (suc a) h = absurd (omega arith)
and_zero_below (suc n) (suc a) h =
    omega (arith, bit_and_step (suc a) 0, and_zero_below n (suc a / 2) (omega arith))

or_zero_below : (n a : ℕ) → a ≤ n → bit_or a 0 ≡ a
or_zero_below n zero h = refl
or_zero_below zero (suc a) h = absurd (omega arith)
or_zero_below (suc n) (suc a) h =
    omega (arith, bit_or_step (suc a) 0, or_zero_below n (suc a / 2) (omega arith))

double_power : (q k : ℕ) → q * 2 ^ suc k ≡ 2 * (q * 2 ^ k)
double_power q k = omega (arith, ap (λ (t : ℕ). q * t) (pow-suc 2 k))

-- `hi << k | lo`, where `lo` has `k` digits, is a sum.
pub bit_or_join : (k hi lo : ℕ) → lo < 2 ^ k → bit_or (hi * 2 ^ k) lo ≡ hi * 2 ^ k + lo
bit_or_join zero hi lo h = ground (arith, or_zero_below hi hi (omega arith))
bit_or_join (suc k) hi lo h = ground (
  arith,
  bit_or_step (hi * 2 ^ suc k) lo,
  double_power hi k,
  bit_or_join k hi (lo / 2) (omega arith),
)

bit_and_join : (k hi lo : ℕ) → lo < 2 ^ k → bit_and (hi * 2 ^ k + lo) (2 ^ k - 1) ≡ lo
bit_and_join zero hi lo h =
    ground (arith, and_zero_below (hi * 2 ^ 0 + lo) (hi * 2 ^ 0 + lo) (omega arith))
bit_and_join (suc k) hi lo h = ground (
  arith,
  bit_and_step (hi * 2 ^ suc k + lo) (2 ^ suc k - 1),
  double_power hi k,
  pow-suc 2 k,
  bit_and_join k hi (lo / 2) (omega arith),
)

-- `& (2 ^ k - 1)` keeps the lowest `k` digits.
pub bit_and_low : (k a : ℕ) → bit_and a (2 ^ k - 1) ≡ a % 2 ^ k
bit_and_low k a = ground (arith, one-le-pow k 2, bit_and_join k (a / 2 ^ k) (a % 2 ^ k))

div_twice : (a k : ℕ) → a / 2 / 2 ^ k ≡ a / 2 ^ suc k
div_twice a k = div-div-eq-div-mul a 2 (2 ^ k) ∙ ap (λ t. a / t) (omega (arith, pow-suc 2 k))

-- A mask whose lowest `k` digits are clear sees the digits above them.
pub bit_and_shifted : (k a c : ℕ) → bit_and a (c * 2 ^ k) ≡ bit_and (a / 2 ^ k) c * 2 ^ k
bit_and_shifted zero a c = ground arith
bit_and_shifted (suc k) a c = ground (
  arith,
  bit_and_step a (c * 2 ^ suc k),
  double_power c k,
  double_power (bit_and (a / 2 ^ suc k) c) k,
  pow-suc 2 k,
  one-le-pow k 2,
  bit_and_shifted k (a / 2) c,
  div_twice a k,
)

pub bit_and_0f : (a : ℕ) → bit_and a 0x0F ≡ a % 16
bit_and_0f a = bit_and_low 4 a

pub bit_and_ff : (a : ℕ) → bit_and a 0xFF ≡ a % 256
bit_and_ff a = bit_and_low 8 a

-- Exclusive or of two digits.
differ_digits : (x y : ℕ) → x < 2 → y < 2 → (differ x y < 2) × (differ (differ x y) y ≡ x)
differ_digits zero zero h k = omega arith
differ_digits zero (suc zero) h k = omega arith
differ_digits (suc zero) zero h k = omega arith
differ_digits (suc zero) (suc zero) h k = omega arith
differ_digits (suc (suc x)) y h k = absurd (omega arith)
differ_digits zero (suc (suc y)) h k = absurd (omega arith)
differ_digits (suc zero) (suc (suc y)) h k = absurd (omega arith)

xor_cancel_below : (n a b : ℕ) → a ≤ n → b ≤ n → bit_xor (bit_xor a b) b ≡ a
xor_cancel_below zero zero zero h k = refl
xor_cancel_below zero (suc a) b h k = absurd (omega arith)
xor_cancel_below zero zero (suc b) h k = absurd (omega arith)
xor_cancel_below (suc n) a b h k = ground (
  arith,
  bit_xor_step a b,
  bit_xor_step (bit_xor a b) b,
  differ_digits (a % 2) (b % 2),
  xor_cancel_below n (a / 2) (b / 2) (omega arith) (omega arith),
)

-- Exclusive or with the same number twice changes nothing.
pub bit_xor_cancel : (a b : ℕ) → bit_xor (bit_xor a b) b ≡ a
bit_xor_cancel a b = xor_cancel_below (a + b) a b (omega arith) (omega arith)

-- It stays within the width of its operands.
pub bit_xor-lt : (k a b : ℕ) → a < 2 ^ k → b < 2 ^ k → bit_xor a b < 2 ^ k
bit_xor-lt zero zero zero h p = omega arith
bit_xor-lt zero (suc a) b h p = absurd (omega arith)
bit_xor-lt zero zero (suc b) h p = absurd (omega arith)
bit_xor-lt (suc k) a b h p = ground (
  arith,
  bit_xor_step a b,
  pow-suc 2 k,
  differ_digits (a % 2) (b % 2),
  bit_xor-lt k (a / 2) (b / 2) (omega (arith, pow-suc 2 k)) (omega (arith, pow-suc 2 k)),
)

differ_comm : (x y : ℕ) → x < 2 → y < 2 → differ x y ≡ differ y x
differ_comm zero zero h k = refl
differ_comm zero (suc zero) h k = refl
differ_comm (suc zero) zero h k = refl
differ_comm (suc zero) (suc zero) h k = refl
differ_comm (suc (suc x)) y h k = absurd (omega arith)
differ_comm zero (suc (suc y)) h k = absurd (omega arith)
differ_comm (suc zero) (suc (suc y)) h k = absurd (omega arith)

xor_comm_below : (n a b : ℕ) → a ≤ n → b ≤ n → bit_xor a b ≡ bit_xor b a
xor_comm_below zero zero zero h k = refl
xor_comm_below zero (suc a) b h k = absurd (omega arith)
xor_comm_below zero zero (suc b) h k = absurd (omega arith)
xor_comm_below (suc n) a b h k = ground (
  arith,
  bit_xor_step a b,
  bit_xor_step b a,
  differ_comm (a % 2) (b % 2),
  xor_comm_below n (a / 2) (b / 2) (omega arith) (omega arith),
)

pub bit_xor_comm : (a b : ℕ) → bit_xor a b ≡ bit_xor b a
bit_xor_comm a b = xor_comm_below (a + b) a b (omega arith) (omega arith)

-- A shift of an exclusive or.
pub bit_xor_div : (k a b : ℕ) → bit_xor a b / 2 ^ k ≡ bit_xor (a / 2 ^ k) (b / 2 ^ k)
bit_xor_div zero a b = ground arith
bit_xor_div (suc k) a b = ground (
  arith,
  bit_xor_step a b,
  differ_digits (a % 2) (b % 2),
  div_twice (bit_xor a b) k,
  div_twice a k,
  div_twice b k,
  bit_xor_div k (a / 2) (b / 2),
)

pub bit_or_div : (k a b : ℕ) → bit_or a b / 2 ^ k ≡ bit_or (a / 2 ^ k) (b / 2 ^ k)
bit_or_div zero a b = ground arith
bit_or_div (suc k) a b = ground (
  arith,
  bit_or_step a b,
  div_twice (bit_or a b) k,
  div_twice a k,
  div_twice b k,
  bit_or_div k (a / 2) (b / 2),
)
