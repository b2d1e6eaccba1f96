-- ===== src/Base/Latest.antt =====
-- The last elements of a history, as a store of bounded size keeps them.
use mcp2515_rpi.Base.Lists.{length, length-append, length-drop, drop, drop-drop}
use mcp2515_rpi.Base.Tests.{ltb, lt→ltb, if◌then◌else◌}
use Prim.Native.Nat.{ℕ, zero, suc, ◌-◌, ◌≤◌, ◌<◌, min}
use mathlib.Core.Path.{◌≡◌, refl, ap, ◌∙◌}
use mathlib.Core.Bool.{false}
use mathlib.Core.List.{List, [], ◌∷◌, ◌++◌}
use native.Mathlib.Omega.{arith}
use native.Mathlib.Decide.{dec_le}

pub ltb-false : (a b : ℕ) → b ≤ a → ltb a b ≡ false
ltb-false a b h = ground arith

module _ {A : Type 0} where
  abbrev pub latest : ℕ → List A → List A
  latest cap xs = drop (length xs - cap) xs

  pub drop_within : (k : ℕ) (xs ys : List A) → k ≤ length xs → drop k (xs ++ ys) ≡ drop k xs ++ ys
  drop_within zero xs ys h = refl
  drop_within (suc k) [] ys h = absurd (omega arith)
  drop_within (suc k) (x ∷ xs) ys h = drop_within k xs ys (omega arith)

  pub length_further : (xs : List A) (x : A) → length (xs ++ x ∷ []) ≡ suc (length xs)
  length_further xs x = omega (arith, length-append xs (x ∷ []))

  pub latest_short : (cap : ℕ) (xs : List A) → length xs ≤ cap → latest cap xs ≡ xs
  latest_short cap xs h = ap (λ n. drop n xs) {y = 0} (omega arith)

  trim :
      (cap k : ℕ) (zs : List A)
      → k ≡ length zs - 1 - cap
      → 0 < length zs
      → (if ltb cap (length (drop k zs)) then drop 1 (drop k zs) else drop k zs) ≡ latest cap zs
  trim cap k zs e long = elim (dec_le (length zs) cap) [
    | yes room ↦
        rw (ltb-false cap (length (drop k zs)) (omega (arith, length-drop k zs)), if◌then◌else◌)
          (ap (λ n. drop n zs) (omega arith))
    | no full ↦
        rw
          (
            lt→ltb cap (length (drop k zs)) (omega (arith, length-drop k zs)),
            if◌then◌else◌,
            drop-drop k 1 zs,
          )
          (ap (λ n. drop n zs) (omega arith))
  ]

  -- One more element, and the first one dropped when there are too many.
  pub push_latest :
      (cap : ℕ) (xs : List A) (x : A)
      → (if ltb cap (length (latest cap xs ++ x ∷ []))
          then drop 1 (latest cap xs ++ x ∷ [])
          else latest cap xs ++ x ∷ [])
        ≡ latest cap (xs ++ x ∷ [])
  push_latest cap xs x = rw (← drop_within (length xs - cap) xs (x ∷ []) (omega arith)) (
      trim cap (length xs - cap) (xs ++ x ∷ []) (omega (arith, length_further xs x))
        (omega (arith, length_further xs x)))

  -- The latest of the latest.
  pub latest-latest :
      (cap small : ℕ) (xs : List A) → latest small (latest cap xs) ≡ latest (min small cap) xs
  latest-latest cap small xs =
      drop-drop (length xs - cap) (length (latest cap xs) - small) xs
      ∙ ap (λ n. drop n xs) (omega (arith, length-drop (length xs - cap) xs))
