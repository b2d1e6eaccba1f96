-- ===== src/Security/Algorithms/Laws.antt =====
-- Which keys the algorithms accept.
use mcp2515_rpi.Base.{
  ℕ, zero, suc, ◌+◌, ◌-◌, ◌*◌, ◌^◌, ◌<◌, ◌≤◌, ◌≡◌, ◌≢◌, ◌↔◌, refl, subst, u32, sym, ◌∙◌, inl, inr,
  true, false, not, List, [], ◌∷◌, arith, length, IsByte, IsBytes, ◌==◌, Bool-cases, ==_iff,
  ℕ_discrete,
}
use mcp2515_rpi.Base.Bits.{bit_or_join}
use mcp2515_rpi.Security.Algorithms.{
  Algorithm, at, key_size, expected, check_loop, word32, key_ok, apply,
}

-- A failed byte is not forgotten.
check_loop-false : (want : ℕ → ℕ) (key : List ℕ) (n i : ℕ) → check_loop want key n i false ≡ false
unfolding check_loop
check_loop-false want key zero i = refl
check_loop-false want key (suc n) i = elim (Bool-cases (not (at key i == want i))) [
  | inl e ↦ rw e (check_loop-false want key n (i + 1))
  | inr e ↦ rw e (check_loop-false want key n (i + 1))
]

abbrev Matches : (ℕ → ℕ) → List ℕ → ℕ → ℕ → Type 0
Matches want key lo hi = (j : ℕ) → lo ≤ j → j < hi → at key j ≡ want j

check_loop→Matches :
    (want : ℕ → ℕ) (key : List ℕ) (n i hi : ℕ)
    → i + n ≡ hi
    → check_loop want key n i true ≡ true
    → Matches want key i hi
unfolding check_loop
check_loop→Matches want key zero i hi e h j lo lt = absurd (omega arith)
check_loop→Matches want key (suc n) i hi e h j lo lt = elim (Bool-cases (at key i == want i)) [
  | inl hit ↦ elim (ℕ_discrete i j) [
    | yes same ↦ rw (← same) ((==_iff _ _).0 hit)
    | no other ↦
        check_loop→Matches want key n (i + 1) hi (omega arith) (rw hit at h) j (omega arith) lt
  ]
  | inr miss ↦ absurd (ground (arith, miss, check_loop-false want key n (i + 1)))
]

Matches→check_loop :
    (want : ℕ → ℕ) (key : List ℕ) (n i hi : ℕ)
    → i + n ≡ hi
    → Matches want key i hi
    → check_loop want key n i true ≡ true
unfolding check_loop
Matches→check_loop want key zero i hi e h = refl
Matches→check_loop want key (suc n) i hi e h =
    rw ((==_iff _ _).1 (h i (omega arith) (omega arith)))
      (Matches→check_loop want key n (i + 1) hi (omega arith) (λ j lo lt. h j (omega arith) lt))

key_ok-check_loop :
    (a : Algorithm) (seed key : List ℕ)
    → a ≢ Algorithm.nissan
    → key_ok a seed key ≡ check_loop (expected a seed) key (key_size a) 0 true
unfolding key_ok
key_ok-check_loop Algorithm.nissan seed key ne = absurd (ne refl)
key_ok-check_loop _ seed key ne = refl

abbrev IsLongEnough : Algorithm → List ℕ → List ℕ → Type 0
IsLongEnough a seed key = (key_size a ≤ length key) × (key_size a ≤ length seed)

apply_iff :
    (a : Algorithm) (seed key : List ℕ)
    → (apply a seed key false ≡ 1 ∷ []) ↔ (IsLongEnough a seed key × (key_ok a seed key ≡ true))
unfolding apply
apply_iff a seed key = ground arith

-- Every algorithm but Nissan's accepts a key exactly when the seed and the key have the bytes that it
-- looks at, and each of these bytes of the key is the one that it expects for the seed.
pub accepts_iff :
    (a : Algorithm) (seed key : List ℕ)
    → a ≢ Algorithm.nissan
    → (apply a seed key false ≡ 1 ∷ []) ↔ (
        (key_size a ≤ length key)
        × (key_size a ≤ length seed)
        × ((i : ℕ) → i < key_size a → at key i ≡ expected a seed i))
accepts_iff a seed key ne = (
  λ h.
      let (sizes, good) = (apply_iff a seed key).0 h in
      (
        sizes.0,
        sizes.1,
        λ i lt.
            check_loop→Matches (expected a seed) key (key_size a) 0 (key_size a) (omega arith)
              (sym (key_ok-check_loop a seed key ne) ∙ good) i (omega arith) lt,
      ),
  λ (long, long', all). (apply_iff a seed key).1 (
    (long, long'),
    key_ok-check_loop a seed key ne
        ∙ Matches→check_loop (expected a seed) key (key_size a) 0 (key_size a) (omega arith)
            (λ j lo lt. all j lt),
  ),
)

word32-sum :
    (b : List ℕ)
    → IsByte (at b 0)
    → IsByte (at b 1)
    → IsByte (at b 2)
    → IsByte (at b 3)
    → word32 b ≡ at b 0 * 16777216 + at b 1 * 65536 + at b 2 * 256 + at b 3
word32-sum b h0 h1 h2 h3 = ground (
  arith,
  bit_or_join 24 (at b 0) (at b 1 * 65536),
  bit_or_join 16 (at b 0 * 256 + at b 1) (at b 2 * 256),
  bit_or_join 8 (at b 0 * 65536 + at b 1 * 256 + at b 2) (at b 3),
)

at-IsByte : (bytes : List ℕ) (i : ℕ) → IsBytes bytes → IsByte (at bytes i)
at-IsByte [] i h = omega arith
at-IsByte (b ∷ bs) zero h = h.0
at-IsByte (b ∷ bs) (suc i) h = at-IsByte bs i h.1

word32-bytes :
    (b : List ℕ) → IsBytes b → word32 b ≡ at b 0 * 16777216 + at b 1 * 65536 + at b 2 * 256 + at b 3
word32-bytes b h =
    word32-sum b (at-IsByte b 0 h) (at-IsByte b 1 h) (at-IsByte b 2 h) (at-IsByte b 3 h)

same_digits :
    (a b c d a' b' c' d' : ℕ)
    → IsBytes (b ∷ c ∷ d ∷ b' ∷ c' ∷ d' ∷ [])
    → a * 16777216 + b * 65536 + c * 256 + d ≡ a' * 16777216 + b' * 65536 + c' * 256 + d'
    → (a ≡ a') × (b ≡ b') × (c ≡ c') × (d ≡ d')
same_digits a b c d a' b' c' d' h e = omega arith

agree :
    (x y : List ℕ)
    → IsBytes x
    → IsBytes y
    → word32 x ≡ word32 y
    → (at x 0 ≡ at y 0) × (at x 1 ≡ at y 1) × (at x 2 ≡ at y 2) × (at x 3 ≡ at y 3)
agree x y hx hy e =
    same_digits (at x 0) (at x 1) (at x 2) (at x 3) (at y 0) (at y 1) (at y 2) (at y 3)
      (
        at-IsByte x 1 hx,
        (
          at-IsByte x 2 hx,
          (at-IsByte x 3 hx, (at-IsByte y 1 hy, (at-IsByte y 2 hy, (at-IsByte y 3 hy, tt)))),
        ),
      )
      (sym (word32-bytes x hx) ∙ e ∙ word32-bytes y hy)

words_agree :
    (x y : List ℕ) → IsBytes x → IsBytes y → word32 x ≡ word32 y → (i : ℕ) → i < 4 → at x i ≡ at y i
words_agree x y hx hy e zero lt = (agree x y hx hy e).0
words_agree x y hx hy e (suc zero) lt = (agree x y hx hy e).1
words_agree x y hx hy e (suc (suc zero)) lt = (agree x y hx hy e).2
words_agree x y hx hy e (suc (suc (suc zero))) lt = (agree x y hx hy e).3
words_agree x y hx hy e (suc (suc (suc (suc i)))) lt = absurd (omega arith)

nissan_word :
    (seed key : List ℕ)
    → key_ok Algorithm.nissan seed key ≡ true
    → word32 key ≡ u32 (2 ^ 32 - 1 - word32 seed + 0xA5A5A5A5)
unfolding key_ok
nissan_word seed key h = (==_iff _ _).0 h

Algorithm-discrete : Discrete Algorithm
Algorithm-discrete = hlevel

-- For one seed an algorithm accepts one key only, in the bytes that it looks at.
pub one_key :
    (a : Algorithm) (seed x y : List ℕ)
    → IsBytes x
    → IsBytes y
    → apply a seed x false ≡ 1 ∷ []
    → apply a seed y false ≡ 1 ∷ []
    → (i : ℕ) → i < key_size a
    → at x i ≡ at y i
one_key a seed x y hx hy ex ey i lt = elim (Algorithm-discrete a Algorithm.nissan) [
  | yes e ↦
      words_agree x y hx hy
        (nissan_word seed x (nissan x ex e) ∙ sym (nissan_word seed y (nissan y ey e))) i
        (subst (λ b. i < key_size b) e lt)
  | no ne ↦ ((accepts_iff a seed x ne).0 ex).2 i lt ∙ sym (((accepts_iff a seed y ne).0 ey).2 i lt)
]
  where
    nissan :
        (k : List ℕ)
        → apply a seed k false ≡ 1 ∷ []
        → a ≡ Algorithm.nissan
        → key_ok Algorithm.nissan seed k ≡ true
    nissan k ek e = subst (λ b. key_ok b seed k ≡ true) e (((apply_iff a seed k).0 ek).1)
