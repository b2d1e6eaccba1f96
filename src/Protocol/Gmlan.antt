-- ===== src/Protocol/Gmlan.antt =====
-- src/protocols/gmlan.cpp. An `int` that overflows in `atoi`, which C leaves undefined, wraps.
use mcp2515_rpi.Base.{
  ℕ, ◌↔◌, ◌≡◌, refl, ap, sym, ◌∙◌, Option, none, some, List, [], ◌∷◌, ◌++◌, arith, u8, ltb, length,
  take, take_all, drop, length-drop, bit_and, bit_xor, if◌then◌else◌, ◌>>◌,
}
use mcp2515_rpi.Base.Bits.{bit_xor_cancel, bit_xor_comm}
use mcp2515_rpi.Diagnostics.Dtc.Codes.{stoi, letter_bits, join_code, encode_code, to_string, letter}

unfoldable pub build_read_did_response : ℕ → List ℕ → List ℕ
build_read_did_response did payload =
    0x62 ∷ u8 (bit_and (did >> 8) 0xFF) ∷ u8 (bit_and did 0xFF) ∷ payload

unfoldable pub get_tx_id_for_function : ℕ → ℕ
get_tx_id_for_function function = 0x7E0

unfoldable pub xor_bytes : ℕ → List ℕ → ℕ
xor_bytes cs [] = cs
xor_bytes cs (b ∷ bytes) = xor_bytes (bit_xor cs b) bytes

unfoldable pub calculate_checksum : List ℕ → ℕ
unfolding xor_bytes
calculate_checksum bytes = bit_xor (xor_bytes 0 bytes) 0xFF

-- `std::atoi`: 0 where there is no number.
abbrev pub or_zero : Option ℕ → ℕ
or_zero none = 0
or_zero (some n) = n

unfoldable pub encode_gm_dtc : List ℕ → Option ℕ
unfolding stoi
encode_gm_dtc [] = some 0
encode_gm_dtc (c ∷ cs) = if ltb (length (c ∷ cs)) 5 then some 0 else elim (letter_bits c) [
  | none ↦ some 0
  | some bits ↦ elim (stoi (take 1 cs)) [
    | none ↦ none
    | some high ↦ some (join_code bits high (or_zero (stoi (drop 1 cs))))
  ]
]

unfoldable pub decode_gm_dtc : ℕ → List ℕ
unfolding to_string
decode_gm_dtc code =
    letter (bit_and code 0xC000)
    ∷ (to_string (bit_and (code >> 12) 0x0F)
        ++ (to_string (bit_and (code >> 8) 0x0F)
            ++ (to_string (bit_and (code >> 4) 0x0F) ++ to_string (bit_and code 0x0F))))

xor_bytes-append :
    (cs : ℕ) (xs ys : List ℕ) → xor_bytes cs (xs ++ ys) ≡ xor_bytes (xor_bytes cs xs) ys
unfolding xor_bytes
xor_bytes-append cs [] ys = refl
xor_bytes-append cs (x ∷ xs) ys = xor_bytes-append (bit_xor cs x) xs ys

with_last :
    (bytes : List ℕ) (last : ℕ)
    → calculate_checksum (bytes ++ last ∷ []) ≡ bit_xor (bit_xor (xor_bytes 0 bytes) last) 0xFF
unfolding calculate_checksum xor_bytes
with_last bytes last = rw (xor_bytes-append 0 bytes (last ∷ [])) refl

closes : (f last : ℕ) → last ≡ bit_xor f 0xFF → bit_xor (bit_xor f last) 0xFF ≡ 0
closes f last e =
    rw (e, bit_xor_comm f (bit_xor f 0xFF), bit_xor_comm f 0xFF, bit_xor_cancel 0xFF f) refl

only_one : (f last : ℕ) → bit_xor (bit_xor f last) 0xFF ≡ 0 → last ≡ bit_xor f 0xFF
only_one f last h =
    let e : bit_xor f last ≡ 0xFF =
      sym (bit_xor_cancel (bit_xor f last) 0xFF) ∙ ap (λ n. bit_xor n 0xFF) h in
    sym (bit_xor_cancel last f)
    ∙ ap (λ n. bit_xor n f) (bit_xor_comm last f ∙ e)
    ∙ bit_xor_comm 0xFF f

-- A message has the checksum 0 exactly when its last byte is the checksum of those before it.
pub checksum_iff :
    (bytes : List ℕ) (last : ℕ)
    → (calculate_checksum (bytes ++ last ∷ []) ≡ 0) ↔ (last ≡ calculate_checksum bytes)
unfolding calculate_checksum
checksum_iff bytes last =
    let f = xor_bytes 0 bytes in
    (
      λ h. only_one f last (sym (with_last bytes last) ∙ h),
      λ e. with_last bytes last ∙ closes f last e,
    )

-- Where DTCManager::encodeCode reads a code of five characters, encodeGMDTC reads the same number.
pub encode_gm_dtc_lem :
    (c : ℕ) (cs : List ℕ) (value : ℕ)
    → length cs ≡ 4
    → encode_code (c ∷ cs) ≡ some value
    → encode_gm_dtc (c ∷ cs) ≡ some value
unfolding encode_code encode_gm_dtc
encode_gm_dtc_lem c cs value size e =
    ground (arith, e, take_all 3 (drop 1 cs) (omega (arith, length-drop 1 cs)))
