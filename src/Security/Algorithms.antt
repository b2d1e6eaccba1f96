-- ===== src/Security/Algorithms.antt =====
-- src/core/security.cpp, from gmAlgorithm28bit on: the lambdas, each a function of the seed, the key
-- and the flag that asks for a seed. The answer {1} is success, {0} a wrong key, {} a short one.
pub mod Laws
use mcp2515_rpi.Base.{
  ℕ, zero, suc, ◌+◌, ◌-◌, ◌*◌, ◌/◌, ◌%◌, ◌^◌, ◌<◌, ◌≤◌, Bool, true, false, not, ◌||◌, List, [], ◌∷◌,
  u8, u32, bit_and, bit_or, bit_xor, length, get_or, ltb, ◌==◌, if◌then◌else◌, ◌<<◌, ◌>>◌,
}

pub data Algorithm : Type 0 where
  gm28 gm40 ford toyota bmw vw mercedes honda nissan : Algorithm

-- `seed[i]`: every read stands behind a check of the size.
abbrev pub at : List ℕ → ℕ → ℕ
at bytes i = get_or bytes i 0

-- How many bytes of the seed and of the key an algorithm looks at.
abbrev pub key_size : Algorithm → ℕ
key_size Algorithm.gm40 = 5
key_size Algorithm.mercedes = 8
key_size _ = 4

-- The byte that `key[i]` is held against. `~x` of an `int` is 2^32 - 1 - x, cut to a byte, and so is
-- a sum. The previous byte of BMW's rolling pattern is the seed's, and 0 at the start.
unfoldable pub expected : Algorithm → List ℕ → ℕ → ℕ
expected Algorithm.gm28 seed i = u8 (2 ^ 32 - 1 - bit_and (at seed i + 0x55 + i) 0xFF)
expected Algorithm.gm40 seed i = u8 (bit_and (at seed i * 0x1B + 0x4A) 0xFF)
expected Algorithm.ford seed i = u8 (bit_xor (at seed i) 0x5A + i)
expected Algorithm.toyota seed i = u8 (bit_xor (at seed i + 0xAA) 0x55)
expected Algorithm.bmw seed zero = u8 (bit_xor (bit_xor (at seed 0) 0x87) 0)
expected Algorithm.bmw seed (suc i) = u8 (bit_xor (bit_xor (at seed (suc i)) 0x87) (at seed i))
expected Algorithm.vw seed i =
    bit_xor (u8 (bit_or (at seed i << 2) (at seed ((i + 1) % 4) >> 6))) 0x3C
expected Algorithm.mercedes seed i = u8 (bit_and (at seed i * 0x1D + 0x3B) 0xFF)
expected Algorithm.honda seed i = u8 (bit_xor (at seed i) 0x5C)
expected Algorithm.nissan seed i = 0

-- `for (int i = 0; i < n; i++) if (key[i] != expected) ok = false;` with `left` rounds to go.
unfoldable pub check_loop : (ℕ → ℕ) → List ℕ → ℕ → ℕ → Bool → Bool
check_loop want key zero i ok = ok
check_loop want key (suc left) i ok =
    check_loop want key left (i + 1) (if not (at key i == want i) then false else ok)

-- `(b[0] << 24) | (b[1] << 16) | (b[2] << 8) | b[3]`, as a `uint32_t`.
abbrev pub word32 : List ℕ → ℕ
word32 b = u32 (bit_or (bit_or (bit_or (at b 0 << 24) (at b 1 << 16)) (at b 2 << 8)) (at b 3))

nissan_ok : List ℕ → List ℕ → Bool
nissan_ok seed key = word32 key == u32 (2 ^ 32 - 1 - word32 seed + 0xA5A5A5A5)

-- Nissan compares two words, and all others byte by byte.
unfoldable pub key_ok : Algorithm → List ℕ → List ℕ → Bool
unfolding nissan_ok
key_ok Algorithm.nissan seed key = nissan_ok seed key
key_ok algorithm seed key = check_loop (expected algorithm seed) key (key_size algorithm) 0 true

unfoldable pub apply : Algorithm → List ℕ → List ℕ → Bool → List ℕ
apply algorithm seed key true = seed
apply algorithm seed key false =
    if ltb (length key) (key_size algorithm) || ltb (length seed) (key_size algorithm)
    then []
    else if key_ok algorithm seed key
    then 1 ∷ []
    else 0 ∷ []
