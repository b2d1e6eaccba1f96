-- ===== src/Diagnostics/Calibration/Cvn.antt =====
-- CalibrationManager::calculateCVN tells data that differ in one byte apart.
use mcp2515_rpi.Base.{
  ℕ, zero, suc, ◌/◌, ◌%◌, ◌<◌, ◌≡◌, ◌≢◌, ap, ◌∙◌, sym, List, [], ◌∷◌, ◌++◌, arith, bit_xor, IsByte,
  IsBytes, All-append,
}
use mcp2515_rpi.Base.Bits.{bit_xor_cancel, bit_xor-lt, bit_xor_comm, bit_xor_div, bit_and_low}
use mcp2515_rpi.Diagnostics.Calibration.{crc_bit, crc_bits, crc_loop, calculate_cvn}

abbrev Word : ℕ → Type 0
Word c = c < 4294967296

-- The top bit of the next register is the bit that was shifted out.
crc_bit_top : (c : ℕ) → Word c → (Word (crc_bit c)) × (crc_bit c / 2147483648 ≡ c % 2)
unfolding crc_bit
crc_bit_top c h =
    ground
      (arith, bit_and_low 1 c, bit_xor_div 31 (c / 2) 0xEDB88320, bit_xor-lt 32 (c / 2) 0xEDB88320)

crc_bit-injective : (c d : ℕ) → Word c → Word d → crc_bit c ≡ crc_bit d → c ≡ d
unfolding crc_bit
crc_bit-injective c d h k e = ground (
  arith,
  bit_and_low 1 c,
  bit_and_low 1 d,
  crc_bit_top c h,
  crc_bit_top d k,
  bit_xor_cancel (c / 2) 0xEDB88320,
  bit_xor_cancel (d / 2) 0xEDB88320,
)

crc_bits-Word : (n c : ℕ) → Word c → Word (crc_bits n c)
unfolding crc_bits
crc_bits-Word zero c h = h
crc_bits-Word (suc n) c h = crc_bits-Word n (crc_bit c) (crc_bit_top c h).0

crc_bits-injective : (n c d : ℕ) → Word c → Word d → crc_bits n c ≡ crc_bits n d → c ≡ d
unfolding crc_bits
crc_bits-injective zero c d h k e = e
crc_bits-injective (suc n) c d h k e =
    crc_bit-injective c d h k
      (crc_bits-injective n (crc_bit c) (crc_bit d) (crc_bit_top c h).0 (crc_bit_top d k).0 e)

xor-Word : (c b : ℕ) → Word c → IsByte b → Word (bit_xor c b)
xor-Word c b h k = bit_xor-lt 32 c b h (omega arith)

xor-injective : (c d b : ℕ) → bit_xor c b ≡ bit_xor d b → c ≡ d
xor-injective c d b e = sym (bit_xor_cancel c b) ∙ ap (λ x. bit_xor x b) e ∙ bit_xor_cancel d b

crc_loop-injective :
    (bs : List ℕ) (c d : ℕ) → IsBytes bs → Word c → Word d → crc_loop bs c ≡ crc_loop bs d → c ≡ d
unfolding crc_loop
crc_loop-injective [] c d bytes h k e = e
crc_loop-injective (b ∷ bs) c d (byte, bytes) h k e =
    let hc = xor-Word c b h byte in
    let hd = xor-Word d b k byte in
    xor-injective c d b (
      crc_bits-injective 8 (bit_xor c b) (bit_xor d b) hc hd (
        crc_loop-injective bs (crc_bits 8 (bit_xor c b)) (crc_bits 8 (bit_xor d b)) bytes
          (crc_bits-Word 8 (bit_xor c b) hc) (crc_bits-Word 8 (bit_xor d b) hd) e))

crc_loop-Word : (bs : List ℕ) (c : ℕ) → IsBytes bs → Word c → Word (crc_loop bs c)
unfolding crc_loop
crc_loop-Word [] c bytes h = h
crc_loop-Word (b ∷ bs) c (byte, bytes) h =
    crc_loop-Word bs (crc_bits 8 (bit_xor c b)) bytes
      (crc_bits-Word 8 (bit_xor c b) (xor-Word c b h byte))

crc_loop_change :
    (before after : List ℕ) (b b' c : ℕ)
    → IsBytes before
    → IsBytes after
    → IsByte b
    → IsByte b'
    → Word c
    → crc_loop (before ++ b ∷ after) c ≡ crc_loop (before ++ b' ∷ after) c
    → b ≡ b'
unfolding crc_loop
crc_loop_change [] after b b' c hb ha byte byte' h e =
    let hc = xor-Word c b h byte in
    let hd = xor-Word c b' h byte' in
    let same = crc_bits-injective 8 (bit_xor c b) (bit_xor c b') hc hd (
      crc_loop-injective after (crc_bits 8 (bit_xor c b)) (crc_bits 8 (bit_xor c b')) ha
        (crc_bits-Word 8 (bit_xor c b) hc) (crc_bits-Word 8 (bit_xor c b') hd) e) in
    xor-injective b b' c (bit_xor_comm b c ∙ same ∙ bit_xor_comm c b')
crc_loop_change (x ∷ before) after b b' c (byte_x, hb) ha byte byte' h e =
    crc_loop_change before after b b' (crc_bits 8 (bit_xor c x)) hb ha byte byte'
      (crc_bits-Word 8 (bit_xor c x) (xor-Word c x h byte_x)) e

-- A change of exactly one byte of data that are bytes, wherever it stands, changes the verification
-- number.
pub cvn_detects :
    (before after : List ℕ) (b b' : ℕ)
    → IsBytes before
    → IsBytes after
    → IsByte b
    → IsByte b'
    → b ≢ b'
    → calculate_cvn (before ++ b ∷ after) ≢ calculate_cvn (before ++ b' ∷ after)
unfolding calculate_cvn
cvn_detects before after b b' hb ha byte byte' differs same =
    let start : Word 0xFFFFFFFF = omega arith in
    let one =
      crc_loop-Word (before ++ b ∷ after) 0xFFFFFFFF
        (All-append IsByte before (b ∷ after) hb (byte, ha)) start in
    let other =
      crc_loop-Word (before ++ b' ∷ after) 0xFFFFFFFF
        (All-append IsByte before (b' ∷ after) hb (byte', ha)) start in
    differs (
      crc_loop_change before after b b' 0xFFFFFFFF hb ha byte byte' start
        (omega (arith, one, other, same)))
