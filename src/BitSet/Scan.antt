-- ===== src/BitSet/Scan.antt =====
-- The loop over the set bits of a word of an AtomicBitSet, as the engines write it: `bitset & -bitset`,
-- `__builtin_ctzll` and `bitset ^= t` (runtime/src/engines/nvm_inst_engine.cpp).
use native.Mathlib.Nat.{pow-suc}
use libcrpm.Base.{
  ℕ, zero, suc, ◌+◌, ◌-◌, ◌/◌, ◌%◌, ◌^◌, ◌≤◌, ◌<◌, ◌≡◌, ap, List, [], ◌∷◌, bit_and, bit_xor, ◌==◌,
  if◌then◌else◌, contains, arith, Bool-cases, inl, inr, ltb,
}
use libcrpm.Base.Bits.{
  bit_at, bit_at-lt, bit_and_step, bit_xor_one_bit, bit_at-bit_xor, bit_at-pow, zero-bit_and,
  zero-bit_at,
}

-- `__builtin_ctzll`, for a word of at most `n` bits that is not 0.
pub ctz : ℕ → ℕ → ℕ
ctz zero w = 0
ctz (suc n) w = let higher = ctz n (w / 2) in if w % 2 == 1 then 0 else suc higher

-- `bitset & -bitset` on 64 bits.
pub lowest_bit : ℕ → ℕ
lowest_bit w = bit_and w ((2 ^ 64 - w) % 2 ^ 64)

-- `while (bitset != 0) { t = bitset & -bitset; i = ctz(bitset); bitset ^= t; … }`: the values of `i`.
unfoldable pub set_bits : ℕ → ℕ → List ℕ
set_bits zero w = []
set_bits (suc n) w =
    let rest = set_bits n (bit_xor w (lowest_bit w)) in if w == 0 then [] else ctz 64 w ∷ rest

complement-bit_and : (n v : ℕ) → v < 2 ^ n → bit_and v (2 ^ n - 1 - v) ≡ 0
complement-bit_and zero v h = let e : v ≡ 0 = omega arith in rw e (zero-bit_and 0)
complement-bit_and (suc n) v h =
    let half : (2 ^ suc n - 1 - v) / 2 ≡ 2 ^ n - 1 - v / 2 = omega (arith, pow-suc 2 n) in
    ground (
      arith,
      bit_and_step v (2 ^ suc n - 1 - v),
      ap (λ t. bit_and (v / 2) t) half,
      pow-suc 2 n,
      complement-bit_and n (v / 2),
    )

lowest_one : (n w : ℕ) → 0 < w → w < 2 ^ n → bit_and w (2 ^ n - w) ≡ 2 ^ ctz n w
unfolding ctz
lowest_one zero w pos h = absurd (omega arith)
lowest_one (suc n) w pos h = elim (Bool-cases (w % 2 == 1)) [
  | inl odd ↦
      let half : (2 ^ suc n - w) / 2 ≡ 2 ^ n - 1 - w / 2 = ground (arith, pow-suc 2 n) in
      rw odd (
        ground (
          arith,
          bit_and_step w (2 ^ suc n - w),
          ap (λ t. bit_and (w / 2) t) half,
          pow-suc 2 n,
          complement-bit_and n (w / 2),
        ))
  | inr even ↦
      let half : (2 ^ suc n - w) / 2 ≡ 2 ^ n - w / 2 = ground (arith, pow-suc 2 n) in
      rw even (
        ground (
          arith,
          bit_and_step w (2 ^ suc n - w),
          ap (λ t. bit_and (w / 2) t) half,
          pow-suc 2 n,
          pow-suc 2 (ctz n (w / 2)),
          lowest_one n (w / 2),
        ))
]

ctz-bit_at : (n w : ℕ) → 0 < w → w < 2 ^ n → bit_at w (ctz n w) ≡ 1
unfolding ctz bit_at
ctz-bit_at zero w pos h = absurd (omega arith)
ctz-bit_at (suc n) w pos h = elim (Bool-cases (w % 2 == 1)) [
  | inl odd ↦ rw odd (ground arith)
  | inr even ↦ rw even (ground (arith, pow-suc 2 n, ctz-bit_at n (w / 2)))
]

below-ctz : (n w j : ℕ) → 0 < w → w < 2 ^ n → j < ctz n w → bit_at w j ≡ 0
unfolding ctz bit_at
below-ctz zero w j pos h lt = absurd (omega arith)
below-ctz (suc n) w zero pos h lt = ground arith
below-ctz (suc n) w (suc j) pos h lt = ground (arith, pow-suc 2 n, below-ctz n (w / 2) j)

pub beyond-bit_at : (n w i : ℕ) → w < 2 ^ n → n ≤ i → bit_at w i ≡ 0
unfolding bit_at
beyond-bit_at zero w i h le = let e : w ≡ 0 = omega arith in rw e (zero-bit_at i)
beyond-bit_at (suc n) w zero h le = absurd (omega arith)
beyond-bit_at (suc n) w (suc i) h le =
    beyond-bit_at n (w / 2) i (omega (arith, pow-suc 2 n)) (omega arith)

lowest_bit_lem : (w : ℕ) → 0 < w → w < 2 ^ 64 → lowest_bit w ≡ 2 ^ ctz 64 w
unfolding lowest_bit
lowest_bit_lem w pos h =
    let small : (2 ^ 64 - w) % 2 ^ 64 ≡ 2 ^ 64 - w = omega arith in rw small (lowest_one 64 w pos h)

-- With the bits below `k` clear, `64 - k` rounds are enough.
set_bits_from :
    (n k w i : ℕ)
    → 64 ≤ n + k
    → w < 2 ^ 64
    → ((j : ℕ) → j < k → bit_at w j ≡ 0)
    → contains (set_bits n w) i ≡ (bit_at w i == 1)
unfolding set_bits
set_bits_from zero k w i enough h clear = elim (Bool-cases (ltb i k)) [
  | inl lo ↦ ground (arith, clear i)
  | inr hi ↦ ground (arith, beyond-bit_at 64 w i)
]
set_bits_from (suc n) k w i enough h clear = elim (Bool-cases (w == 0)) [
  | inl none_left ↦
      let e : w ≡ 0 = ground arith in rw (none_left, e) (ground (arith, zero-bit_at i))
  | inr more ↦
      let pos : 0 < w = ground arith in
      let one : bit_at w (ctz 64 w) ≡ 1 = ctz-bit_at 64 w pos h in
      let next = bit_xor w (lowest_bit w) in
      let next_bits : (j : ℕ) → bit_at next j ≡ (if ctz 64 w == j then 0 else bit_at w j) = λ j.
        rw (lowest_bit_lem w pos h) (
          ground
            (arith, bit_at-bit_xor j w (2 ^ ctz 64 w), bit_at-pow (ctz 64 w) j, bit_at-lt w j)) in
      let smaller : next < 2 ^ 64 =
        rw (lowest_bit_lem w pos h) (omega (arith, bit_xor_one_bit (ctz 64 w) w one)) in
      let rest =
        set_bits_from n (k + 1) next i (omega arith) smaller
          (λ j lt. ground (arith, next_bits j, clear j, clear (ctz 64 w), below-ctz 64 w j)) in
      rw more (ground (arith, rest, next_bits i))
]

-- The loop visits an index exactly if that bit of the word is set.
pub set_bits_lem : (w i : ℕ) → w < 2 ^ 64 → contains (set_bits 64 w) i ≡ (bit_at w i == 1)
set_bits_lem w i h = set_bits_from 64 0 w i (omega arith) h (λ j lt. absurd (omega arith))
