-- ===== src/Protocol/Checksum.antt =====
-- The additive checksum that OBD2Standard and KWP2000Protocol share, word for word.
use mcp2515_rpi.Base.{ℕ, ◌+◌, ◌%◌, ◌<◌, ◌≡◌, List, [], ◌∷◌, ◌++◌, arith, u8, bit_and}
use mcp2515_rpi.Base.Bits.{bit_and_ff}

-- `for (auto b : data) cs += b`, on a `uint8_t`.
unfoldable pub add_bytes : ℕ → List ℕ → ℕ
add_bytes cs [] = cs
add_bytes cs (b ∷ bs) = add_bytes (u8 (cs + b)) bs

-- OBD2Standard::calculateChecksum and KWP2000Protocol::calculateChecksum.
unfoldable pub calculate_checksum : List ℕ → ℕ
calculate_checksum bytes = bit_and (add_bytes 0 bytes) 0xFF

-- The sum that the checksum is the remainder of.
abbrev pub total : List ℕ → ℕ
total [] = 0
total (b ∷ bs) = b + total bs

pub total-append : (xs ys : List ℕ) → total (xs ++ ys) ≡ total xs + total ys
total-append [] ys = omega arith
total-append (x ∷ xs) ys = omega (arith, total-append xs ys)

pub add_bytes-total : (cs : ℕ) (bs : List ℕ) → cs < 256 → add_bytes cs bs ≡ (cs + total bs) % 256
unfolding add_bytes
add_bytes-total cs [] h = omega arith
add_bytes-total cs (b ∷ bs) h = omega (arith, add_bytes-total (u8 (cs + b)) bs (omega arith))

pub checksum-total : (bs : List ℕ) → calculate_checksum bs ≡ total bs % 256
unfolding calculate_checksum
checksum-total bs = omega (arith, bit_and_ff (add_bytes 0 bs), add_bytes-total 0 bs (omega arith))
