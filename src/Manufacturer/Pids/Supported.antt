-- ===== src/Manufacturer/Pids/Supported.antt =====
-- The bit mask of the supported parameters.
use mcp2515_rpi.Base.{
  ℕ, zero, suc, ◌+◌, ◌-◌, ◌*◌, ◌/◌, ◌%◌, ◌^◌, ◌<◌, ◌≤◌, max, ◌≡◌, ◌≢◌, refl, sym, ap, ◌∙◌, Bool,
  true, false, ◌&&◌, List, [], ◌∷◌, arith, u8, bit_or, ltb, leb, ◌==◌, ==_iff, length, set, get_or,
  get_or-set_same, get_or-set_other, length-set, replicate, if◌then◌else◌, ◌<<◌, subst, Bool-cases,
  inl, inr, true_not_false,
}
use native.Mathlib.Nat.{zero-div}
use native.Mathlib.Nat.{zero-div}
use mcp2515_rpi.Base.Bits.{bit_or_div, bit_or_step}
use mcp2515_rpi.Base.Tables.{agree_below, all_below}
use mcp2515_rpi.Manufacturer.{PidEntry}
use mcp2515_rpi.Manufacturer.Pids.{mark_pid, mark_pids, get_supported_pids}

-- The bit of a mask, counted from the highest bit of its first byte.
pub mask_bit : List ℕ → ℕ → ℕ
mask_bit mask i = get_or mask (i / 8) 0 / 2 ^ (7 - i % 8) % 2

-- 1 where the table has the parameter.
pub present_bit : List PidEntry → ℕ → ℕ
present_bit [] pid = 0
present_bit (e ∷ es) pid = if e.pid == pid then 1 else present_bit es pid

single_bit_table :
    (n : ℕ) → n < 64 → 2 ^ (n / 8) / 2 ^ (n % 8) % 2 ≡ (if n / 8 == n % 8 then 1 else 0)
unfolding all_below
single_bit_table =
    agree_below 64 (λ n. 2 ^ (n / 8) / 2 ^ (n % 8) % 2) (λ n. if n / 8 == n % 8 then 1 else 0) refl

single_bit : (k j : ℕ) → k < 8 → j < 8 → 2 ^ k / 2 ^ j % 2 ≡ (if k == j then 1 else 0)
single_bit k j hk hj =
    let high : (k * 8 + j) / 8 ≡ k = omega arith in
    let low : (k * 8 + j) % 8 ≡ j = omega arith in
    subst (λ x. 2 ^ x / 2 ^ j % 2 ≡ (if x == j then 1 else 0)) high
      (subst (λ y. 2 ^ ((k * 8 + j) / 8) / 2 ^ y % 2 ≡ (if (k * 8 + j) / 8 == y then 1 else 0)) low
        (single_bit_table (k * 8 + j) (omega arith)))

or_bit : (a b j : ℕ) → bit_or a b / 2 ^ j % 2 ≡ max (a / 2 ^ j % 2) (b / 2 ^ j % 2)
or_bit a b j = ground (arith, bit_or_div j a b, bit_or_step (a / 2 ^ j) (b / 2 ^ j))

-- The mask with the bit of one parameter added.
abbrev with_bit : List ℕ → ℕ → List ℕ
with_bit mask q = set mask (q / 8) (bit_or (get_or mask (q / 8) 0) (1 << (7 - q % 8)))

same_place : (q o : ℕ) → o / 8 ≡ q / 8 → (7 - q % 8 == 7 - o % 8) ≡ (q == o)
same_place q o e = ground (arith, e)

same_byte :
    (byte q o : ℕ)
    → o / 8 ≡ q / 8
    → bit_or byte (1 << (7 - q % 8)) / 2 ^ (7 - o % 8) % 2
      ≡ max (byte / 2 ^ (7 - o % 8) % 2) (if q == o then 1 else 0)
same_byte byte q o e =
    let shifted : 1 << (7 - q % 8) ≡ 2 ^ (7 - q % 8) = omega arith in
    rw
      (
        shifted,
        or_bit byte (2 ^ (7 - q % 8)) (7 - o % 8),
        single_bit (7 - q % 8) (7 - o % 8) (omega arith) (omega arith),
      )
      (ap (λ b. max (byte / 2 ^ (7 - o % 8) % 2) (if b then 1 else 0)) (same_place q o e))

marked :
    (mask : List ℕ) (q o : ℕ)
    → length mask ≡ 4
    → q < 32
    → mask_bit (with_bit mask q) o ≡ max (mask_bit mask o) (if q == o then 1 else 0)
unfolding mask_bit
marked mask q o size h = elim (Bool-cases (o / 8 == q / 8)) [
  | inl e ↦
      let at_byte = (==_iff (o / 8) (q / 8)).0 e in
      rw
        (
          at_byte,
          get_or-set_same mask (q / 8) (bit_or (get_or mask (q / 8) 0) (1 << (7 - q % 8))) 0
              (omega (arith, size)),
        )
        (same_byte (get_or mask (q / 8) 0) q o at_byte)
  | inr e ↦
      let differs : o / 8 ≢ q / 8 = λ x. true_not_false (sym ((==_iff (o / 8) (q / 8)).1 x) ∙ e) in
      rw
        (get_or-set_other mask (q / 8) (o / 8) (bit_or (get_or mask (q / 8) 0) (1 << (7 - q % 8))) 0
          differs)
        (ground (arith, differs))
]

in_range :
    (start pid : ℕ)
    → start ≤ 192
    → (leb start pid && ltb pid (u8 (start + 0x20))) ≡ true
    → (start ≤ pid) × (pid < start + 32)
in_range start pid h e = ground (arith, e)

same_offset : (start pid o : ℕ) → start ≤ pid → (pid - start == o) ≡ (pid == start + o)
same_offset start pid o h = ground arith

out_of_range :
    (start pid o : ℕ)
    → start ≤ 192
    → o < 32
    → (leb start pid && ltb pid (u8 (start + 0x20))) ≡ false
    → (pid == start + o) ≡ false
out_of_range start pid o h ho e = ground (arith, e)

mark_bit :
    (start pid o : ℕ) (mask : List ℕ)
    → length mask ≡ 4
    → start ≤ 192
    → o < 32
    → (mask_bit (mark_pid start mask pid) o
        ≡ max (mask_bit mask o) (if pid == start + o then 1 else 0))
      × (length (mark_pid start mask pid) ≡ 4)
mark_bit start pid o mask size h ho =
    elim (Bool-cases (leb start pid && ltb pid (u8 (start + 0x20)))) [
      | inl e ↦
          let bounds = in_range start pid h e in
          rw (e, if◌then◌else◌)
            (
              marked mask (pid - start) o size (omega (arith, bounds))
                  ∙ ap (λ b. max (mask_bit mask o) (if b then 1 else 0))
                      (same_offset start pid o bounds.0),
              length-set mask ((pid - start) / 8)
                    (bit_or (get_or mask ((pid - start) / 8) 0) (1 << (7 - (pid - start) % 8)))
                  ∙ size,
            )
      | inr e ↦ rw (e, if◌then◌else◌, out_of_range start pid o h ho e) (omega arith, size)
    ]

present_bit-le : (es : List PidEntry) (pid : ℕ) → present_bit es pid ≤ 1
unfolding present_bit
present_bit-le [] pid = omega arith
present_bit-le (e ∷ es) pid = ground (arith, present_bit-le es pid)

keep_max :
    (x : ℕ) (b : Bool) (p : ℕ)
    → p ≤ 1
    → max (max x (if b then 1 else 0)) p ≡ max x (if b then 1 else p)
keep_max x true p h = omega arith
keep_max x false p h = omega arith

mark_pids-bit :
    (table : List PidEntry) (start o : ℕ) (mask : List ℕ)
    → length mask ≡ 4
    → start ≤ 192
    → o < 32
    → mask_bit (mark_pids start table mask) o
      ≡ max (mask_bit mask o) (present_bit table (start + o))
unfolding mark_pids present_bit
mark_pids-bit [] start o mask size h ho = omega arith
mark_pids-bit (e ∷ es) start o mask size h ho =
    let one = mark_bit start e.pid o mask size h ho in
    mark_pids-bit es start o (mark_pid start mask e.pid) one.1 h ho
    ∙ ap (λ x. max x (present_bit es (start + o))) one.0
    ∙ keep_max (mask_bit mask o) (e.pid == start + o) (present_bit es (start + o))
        (present_bit-le es (start + o))

empty_mask : (i : ℕ) → get_or {A = ℕ} (replicate 4 0) i 0 ≡ 0
empty_mask zero = refl
empty_mask (suc zero) = refl
empty_mask (suc (suc zero)) = refl
empty_mask (suc (suc (suc zero))) = refl
empty_mask (suc (suc (suc (suc i)))) = refl

zero_max : (n : ℕ) → max 0 n ≡ n
zero_max n = omega arith

zero_bit : (j : ℕ) → 0 / 2 ^ j % 2 ≡ 0
zero_bit j = rw (zero-div (2 ^ j)) refl

empty_mask_bit : (o : ℕ) → mask_bit (replicate 4 0) o ≡ 0
unfolding mask_bit
empty_mask_bit o = rw (empty_mask (o / 8)) (zero_bit (7 - o % 8))

-- In the mask of the range `32 * range` to `32 * range + 31`, for the first seven ranges, the bit at `offset`
-- from the highest bit of the first byte is set exactly where the table has the parameter
-- `32 * range + offset`.
pub supported_bit :
    (table : List PidEntry) (range offset : ℕ)
    → range < 7
    → offset < 32
    → mask_bit (get_supported_pids table range) offset ≡ present_bit table (range * 32 + offset)
unfolding get_supported_pids
supported_bit table range offset h ho =
    let start : u8 (range * 32) ≡ range * 32 = omega arith in
    rw (start) (
      mark_pids-bit table (range * 32) offset (replicate 4 0) refl (omega arith) ho
      ∙ ap (λ x. max x (present_bit table (range * 32 + offset))) (empty_mask_bit offset)
      ∙ zero_max (present_bit table (range * 32 + offset)))
