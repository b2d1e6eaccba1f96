-- ===== src/Base/Tables.antt =====
-- Facts about bytes that are checked value by value.
use Prim.Native.Nat.{ℕ, zero, suc, ◌*◌, ◌/◌, ◌<◌, bit_and}
use mathlib.Core.Path.{◌≡◌, refl}
use mathlib.Core.Bool.{Bool, true, ◌&&◌}
use native.Mathlib.Omega.{arith}
use mcp2515_rpi.Base.Tests.{◌==◌, ==_iff}

unfoldable pub all_below : (ℕ → Bool) → ℕ → Bool
all_below test zero = true
all_below test (suc size) = all_below test size && test size

pub below_table :
    (test : ℕ → Bool) (size entry : ℕ)
    → entry < size
    → all_below test size ≡ true
    → test entry ≡ true
unfolding all_below
below_table test zero entry below table = elim below [ ]
below_table test (suc size) entry below table = ground (arith, below_table test size entry)

-- Two functions that agree on a table agree below its size.
pub agree_below :
    (n : ℕ) (f g : ℕ → ℕ) → all_below (λ x. f x == g x) n ≡ true → (x : ℕ) → x < n → f x ≡ g x
agree_below n f g h x lt = (==_iff (f x) (g x)).0 (below_table (λ x. f x == g x) n x lt h)

pub high_nibble : (b : ℕ) → b < 256 → bit_and b 0xF0 ≡ b / 16 * 16
unfolding all_below
high_nibble = agree_below 256 (λ b. bit_and b 0xF0) (λ b. b / 16 * 16) refl
