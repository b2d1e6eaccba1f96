-- ===== src/Security/SecureComm.antt =====
-- src/security/secure_comm.cpp: the XOR cipher and its one-byte signature.
use mcp2515_rpi.Base.{
  ℕ, ◌+◌, ◌%◌, ◌≡◌, ◌≢◌, refl, ap, sym, ◌∙◌, Bool, true, false, Option, none, some, List, [], ◌∷◌,
  ◌++◌, arith, bit_xor, length, get_or, ◌==◌,
}
use mcp2515_rpi.Base.Bits.{bit_xor_cancel, bit_xor_comm}
use mcp2515_rpi.Security.Manager.{same_bytes}

pub record SecureCommunication : Type 0 where
  pub session_key : List ℕ
  pub message_counter : ℕ

unfoldable pub init : SecureCommunication
init = record {
  session_key = 0x01 ∷ 0x02 ∷ 0x03 ∷ 0x04 ∷ 0x05 ∷ 0x06 ∷ 0x07 ∷ 0x08 ∷ [];
  message_counter = 0;
}

unfoldable pub set_session_key : SecureCommunication → List ℕ → SecureCommunication
set_session_key c key = record c { session_key = key }

-- The loop of `encrypt`, from index `i` on.
mix : List ℕ → ℕ → List ℕ → List ℕ
mix key i [] = []
mix key i (b ∷ bs) = bit_xor b (get_or key (i % length key) 0) ∷ mix key (i + 1) bs

-- `none` is the remainder by 0 of an empty session key, which C++ leaves undefined.
unfoldable pub encrypt : SecureCommunication → List ℕ → Option (List ℕ)
unfolding mix
encrypt c [] = some []
encrypt c (b ∷ bs) = elim c.session_key [ [] ↦ none | k ∷ ks ↦ some (mix (k ∷ ks) 0 (b ∷ bs)) ]

unfoldable pub decrypt : SecureCommunication → List ℕ → Option (List ℕ)
unfolding encrypt
decrypt c bytes = encrypt c bytes

-- `for (auto b : data) sig ^= b`.
pub xor_bytes : ℕ → List ℕ → ℕ
xor_bytes sig [] = sig
xor_bytes sig (b ∷ bs) = xor_bytes (bit_xor sig b) bs

unfoldable pub sign : SecureCommunication → List ℕ → List ℕ
sign c bytes = xor_bytes (xor_bytes 0 bytes) c.session_key ∷ []

unfoldable pub verify : SecureCommunication → List ℕ → List ℕ → Bool
verify c bytes signature = same_bytes (sign c bytes) signature

mix_twice : (key : List ℕ) (i : ℕ) (bytes : List ℕ) → mix key i (mix key i bytes) ≡ bytes
unfolding mix
mix_twice key i [] = refl
mix_twice key i (b ∷ bs) =
    ground (arith, bit_xor_cancel b (get_or key (i % length key) 0), mix_twice key (i + 1) bs)

-- With a session key that is not empty, every message is encrypted, and decrypted to itself again.
pub decrypt-encrypt :
    (c : SecureCommunication) (bytes : List ℕ)
    → c.session_key ≢ []
    → (sent : List ℕ) × (encrypt c bytes ≡ some sent) × (decrypt c sent ≡ some bytes)
unfolding encrypt decrypt
decrypt-encrypt c [] ne = ([], refl, refl)
decrypt-encrypt c (b ∷ bs) ne =
    (mix c.session_key 0 (b ∷ bs), ground arith, ground (arith, mix_twice c.session_key 0 (b ∷ bs)))

xor-injective : (a b k : ℕ) → bit_xor a k ≡ bit_xor b k → a ≡ b
xor-injective a b k e =
    sym (bit_xor_cancel a k) ∙ ap (λ (x : ℕ). bit_xor x k) e ∙ bit_xor_cancel b k

xor_bytes-injective : (bs : List ℕ) (x y : ℕ) → xor_bytes x bs ≡ xor_bytes y bs → x ≡ y
unfolding xor_bytes
xor_bytes-injective [] x y e = e
xor_bytes-injective (b ∷ bs) x y e =
    xor-injective x y b (xor_bytes-injective bs (bit_xor x b) (bit_xor y b) e)

xor_bytes-append :
    (sig : ℕ) (xs ys : List ℕ) → xor_bytes sig (xs ++ ys) ≡ xor_bytes (xor_bytes sig xs) ys
unfolding xor_bytes
xor_bytes-append sig [] ys = refl
xor_bytes-append sig (x ∷ xs) ys = xor_bytes-append (bit_xor sig x) xs ys

same_bytes-one : (x y : ℕ) → same_bytes (x ∷ []) (y ∷ []) ≡ (x == y)
unfolding same_bytes
same_bytes-one x y = ground arith

-- A message verifies against its own signature, and with one byte changed it does not.
pub verify-sign :
    (c : SecureCommunication) (before after : List ℕ) (sent got : ℕ)
    → got ≢ sent
    → let signature = sign c (before ++ sent ∷ after) in
      (verify c (before ++ sent ∷ after) signature ≡ true)
      × (verify c (before ++ got ∷ after) signature ≡ false)
unfolding verify sign xor_bytes
verify-sign c before after sent got ne =
    (rw (same_bytes-one) (ground arith), rw (same_bytes-one) (ground (arith, different)))
  where
    -- The two running values part at the changed byte, and never meet again.
    different :
        xor_bytes (xor_bytes 0 (before ++ got ∷ after)) c.session_key
        ≢ xor_bytes (xor_bytes 0 (before ++ sent ∷ after)) c.session_key
    different e = ne (
        xor-injective got sent (xor_bytes 0 before) (
          bit_xor_comm got (xor_bytes 0 before)
          ∙ xor_bytes-injective after _ _ (
              sym (xor_bytes-append 0 before (got ∷ after))
              ∙ xor_bytes-injective c.session_key _ _ e
              ∙ xor_bytes-append 0 before (sent ∷ after))
          ∙ bit_xor_comm (xor_bytes 0 before) sent))
