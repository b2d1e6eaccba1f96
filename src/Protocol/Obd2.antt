-- ===== src/Protocol/Obd2.antt =====
-- src/protocols/obd2_standard.cpp: trouble codes on the wire, and checksums.
use mcp2515_rpi.Base.{
  ℕ, suc, ◌+◌, ◌/◌, ◌%◌, ◌<◌, ◌≡◌, ◌≢◌, refl, ap, ◌∙◌, Bool, true, false, List, [], ◌∷◌, ◌++◌,
  arith, u8, u16, bit_and, bit_or, length, length-append, get_or, leb, ◌==◌, if◌then◌else◌, ◌<<◌,
  ◌>>◌, IsByte,
}
use mcp2515_rpi.Base.Bits.{bit_and_ff, bit_or_join}
use mcp2515_rpi.Protocol.Checksum.{
  add_bytes, calculate_checksum, total, total-append, add_bytes-total, checksum-total,
}

unfoldable pub encode_dtc : ℕ → List ℕ
encode_dtc code = u8 (bit_and (code >> 8) 0xFF) ∷ u8 (bit_and code 0xFF) ∷ []

-- The reads stand behind the bound check, so the default of `get_or` is never used.
unfoldable pub decode_dtc : List ℕ → ℕ → ℕ
decode_dtc bytes offset =
    if leb (length bytes) (offset + 1)
    then 0
    else u16 (bit_or (get_or bytes offset 0 << 8) (get_or bytes (offset + 1) 0))

get_or-append : (xs ys : List ℕ) (i d : ℕ) → get_or (xs ++ ys) (length xs + i) d ≡ get_or ys i d
get_or-append [] ys i d = ap (λ (n : ℕ). get_or ys n d) (omega arith)
get_or-append (x ∷ xs) ys i d =
    ap (λ (n : ℕ). get_or (x ∷ xs ++ ys) n d) (shift (length xs)) ∙ get_or-append xs ys i d
  where
    shift : (n : ℕ) → suc n + i ≡ suc (n + i)
    shift n = omega arith

-- A trouble code of 16 bits is read back from wherever it was written.
pub decode-encode_dtc :
    (code : ℕ) (before after : List ℕ)
    → code < 65536
    → decode_dtc (before ++ (encode_dtc code ++ after)) (length before) ≡ code
unfolding decode_dtc encode_dtc
decode-encode_dtc code before after h =
    let sent = u8 (bit_and (code >> 8) 0xFF) ∷ u8 (bit_and code 0xFF) ∷ after in
    ground (
      arith,
      length-append before sent,
      get_or-append before sent 0 0,
      get_or-append before sent 1 0,
      bit_and_ff (code / 256),
      bit_and_ff code,
      bit_or_join 8 (code / 256) (code % 256),
    )

-- `data.back()`, and the bytes before it.
abbrev last_byte : List ℕ → ℕ
last_byte [] = 0
last_byte (b ∷ []) = b
last_byte (b ∷ c ∷ bs) = last_byte (c ∷ bs)

abbrev without_last : List ℕ → List ℕ
without_last [] = []
without_last (b ∷ []) = []
without_last (b ∷ c ∷ bs) = b ∷ without_last (c ∷ bs)

unfoldable pub verify_checksum : List ℕ → Bool
verify_checksum [] = false
verify_checksum (b ∷ bs) = bit_and (add_bytes 0 (without_last (b ∷ bs))) 0xFF == last_byte (b ∷ bs)

last-append : (bs : List ℕ) (c : ℕ) → last_byte (bs ++ c ∷ []) ≡ c
last-append [] c = refl
last-append (a ∷ []) c = refl
last-append (a ∷ b ∷ bs) c = last-append (b ∷ bs) c

without_last-append : (bs : List ℕ) (c : ℕ) → without_last (bs ++ c ∷ []) ≡ bs
without_last-append [] c = refl
without_last-append (a ∷ []) c = refl
without_last-append (a ∷ b ∷ bs) c = ap (◌∷◌ a) (without_last-append (b ∷ bs) c)

-- The test in terms of the sum, on a frame of `bs` and a last byte.
pub verify-total : (bs : List ℕ) (c : ℕ) → verify_checksum (bs ++ c ∷ []) ≡ (total bs % 256 == c)
unfolding verify_checksum
verify-total [] c = ground (arith, bit_and_ff (add_bytes 0 []), add_bytes-total 0 [])
verify-total (b ∷ bs) c = ground (
  arith,
  last-append (b ∷ bs) c,
  without_last-append (b ∷ bs) c,
  bit_and_ff (add_bytes 0 (b ∷ bs)),
  add_bytes-total 0 (b ∷ bs),
)

-- A frame with its checksum behind it is accepted, and if one byte of the data is then changed into
-- another byte, it is refused.
pub checksum_detects :
    (before after : List ℕ) (sent got : ℕ)
    → IsByte sent
    → IsByte got
    → got ≢ sent
    → let sum = calculate_checksum (before ++ sent ∷ after) in
      (verify_checksum ((before ++ sent ∷ after) ++ sum ∷ []) ≡ true)
      × (verify_checksum ((before ++ got ∷ after) ++ sum ∷ []) ≡ false)
checksum_detects before after sent got s g ne =
    let sum = calculate_checksum (before ++ sent ∷ after) in
    (
      ground (
        arith,
        verify-total (before ++ sent ∷ after) sum,
        checksum-total (before ++ sent ∷ after),
      ),
      ground (
        arith,
        verify-total (before ++ got ∷ after) sum,
        checksum-total (before ++ sent ∷ after),
        total-append before (sent ∷ after),
        total-append before (got ∷ after),
      ),
    )
