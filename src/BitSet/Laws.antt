-- ===== src/BitSet/Laws.antt =====
-- The operations of `AtomicBitSet` against the set of indices that it stands for.
use native.Mathlib.Nat.{one-le-pow}
use libcrpm.Base.{
  ℕ, zero, suc, ◌+◌, ◌-◌, ◌/◌, ◌%◌, ◌≡◌, refl, false, arith, ◌==◌, ◌||◌, ltb, leb, ◌&&◌, update,
  if◌then◌else◌,
}
use libcrpm.Base.Bits.{bit_at, bit_at-lt, bit_and_one_bit, bit_at-bit_or, bit_at-pow, zero-bit_and}
use libcrpm.BitSet.{
  BitSet, allocate, idx_off, idx_bit, set, test, clear_all, clear_words, clear_region,
}

-- `test` reads bit `idx % 64` of word `idx / 64`.
pub test-eq-bit_at : (s : BitSet) (i : ℕ) → test s i ≡ (bit_at (s.buf (i / 64)) (i % 64) == 1)
unfolding test idx_off idx_bit
test-eq-bit_at s i = grind (
  arith,
  bit_and_one_bit (i % 64) (s.buf (i / 64)),
  bit_at-lt (s.buf (i / 64)) (i % 64),
  one-le-pow (i % 64) 2,
)

bit_at-idx_bit : (i j : ℕ) → bit_at (idx_bit i) (j % 64) ≡ (if i % 64 == j % 64 then 1 else 0)
unfolding idx_bit
bit_at-idx_bit i j = bit_at-pow (i % 64) (j % 64)

-- After set of bit i, bit i reads as set and each other bit reads as before, in the same word or
-- another.
pub test-set : (s : BitSet) (i j : ℕ) → test (set s i) j ≡ (i == j || test s j)
unfolding set idx_off
test-set s i j = ground (
  arith,
  test-eq-bit_at s j,
  test-eq-bit_at (set s i) j,
  bit_at-bit_or (j % 64) (s.buf (i / 64)) (idx_bit i),
  bit_at-idx_bit i j,
  bit_at-lt (s.buf (j / 64)) (j % 64),
)

zero-test : (s : BitSet) (j : ℕ) → s.buf (j / 64) ≡ 0 → test s j ≡ false
unfolding test idx_off
zero-test s j h = rw (h, zero-bit_and) refl

-- After clear_all of bit i the 64 bits of the word of i read as clear and each other bit reads as
-- before.
pub test-clear_all :
    (s : BitSet) (i j : ℕ) → test (clear_all s i) j ≡ (if i / 64 == j / 64 then false else test s j)
unfolding clear_all idx_off
test-clear_all s i j =
    ground
      (arith, test-eq-bit_at s j, test-eq-bit_at (clear_all s i) j, zero-test (clear_all s i) j)

pub clear_words_lem :
    (n off : ℕ) (buf : ℕ → ℕ) (w : ℕ)
    → clear_words n off buf w ≡ (if leb off w && ltb w (off + n) then 0 else buf w)
unfolding clear_words
clear_words_lem zero off buf w = ground arith
clear_words_lem (suc n) off buf w = ground (arith, clear_words_lem n (off + 1) (update buf off 0) w)

-- After clear_region from a to b the bits in the words from that of a up to, and without, that of b
-- read as clear, and every other bit reads as before: a last word that b cuts in two is left alone.
pub test-clear_region :
    (s : BitSet) (a b j : ℕ)
    → test (clear_region s a b) j
      ≡ (if leb (a / 64) (j / 64) && ltb (j / 64) (b / 64) then false else test s j)
unfolding clear_region idx_off
test-clear_region s a b j = ground (
  arith,
  test-eq-bit_at s j,
  test-eq-bit_at (clear_region s a b) j,
  zero-test (clear_region s a b) j,
  clear_words_lem (b / 64 - a / 64) (a / 64) s.buf (j / 64),
)

pub test-allocate : (n j : ℕ) → test (allocate n) j ≡ false
unfolding allocate
test-allocate n j = zero-test (allocate n) j refl
