-- ===== src/BitSet/Words.antt =====
-- The loops over the set bits of an AtomicBitSet, one word of 64 after the other (`test_all` and the scan of
-- its word, in runtime/src/engines/nvm_inst_engine.cpp).
use libcrpm.Base.{
  ℕ, zero, suc, ◌+◌, ◌-◌, ◌*◌, ◌/◌, ◌%◌, ◌^◌, ◌≤◌, ◌<◌, ◌≡◌, refl, false, List, [], ◌∷◌, ◌++◌, ◌&&◌,
  ◌==◌, ltb, leb, if◌then◌else◌, contains, contains-append, arith, Bool-cases, inl, inr,
}
use libcrpm.Base.Bits.{bit_or-lt, pow-lt}
use libcrpm.BitSet.{BitSet, allocate, test_all, test, set, clear_region, idx_off, idx_bit}
use libcrpm.BitSet.Laws.{test-eq-bit_at, clear_words_lem}
use libcrpm.BitSet.Scan.{set_bits, set_bits_lem, beyond-bit_at}

-- `id + i` for each `i`.
unfoldable pub offset_by : ℕ → List ℕ → List ℕ
offset_by id [] = []
offset_by id (i ∷ is) = (id + i) ∷ offset_by id is

-- `for (id = start; id < stop; id += kBitWidth)`, by the rounds that are left: the indices `id + i`.
unfoldable pub scan_words : ℕ → BitSet → ℕ → ℕ → List ℕ
scan_words zero s id stop = []
scan_words (suc n) s id stop =
    let rest = scan_words n s (id + 64) stop in
    if ltb id stop then offset_by id (set_bits 64 (test_all s id)) ++ rest else []

-- The words are of 64 bits.
abbrev pub IsWide : BitSet → Type 0
IsWide s = (w : ℕ) → s.buf w < 2 ^ 64

offset_by-below : (id : ℕ) (is : List ℕ) (j : ℕ) → j < id → contains (offset_by id is) j ≡ false
unfolding offset_by
offset_by-below id [] j h = refl
offset_by-below id (i ∷ is) j h = ground (arith, offset_by-below id is j h)

offset_by-contains :
    (id : ℕ) (is : List ℕ) (i : ℕ) → contains (offset_by id is) (id + i) ≡ contains is i
unfolding offset_by
offset_by-contains id [] i = refl
offset_by-contains id (k ∷ is) i = ground (arith, offset_by-contains id is i)

module _ (s : BitSet) (wide : IsWide s) where
  -- The indices that the scan of one word gives.
  word_bits :
      (id j : ℕ)
      → id % 64 ≡ 0
      → contains (offset_by id (set_bits 64 (test_all s id))) j ≡ ((id / 64 == j / 64) && test s j)
  unfolding test_all idx_off
  word_bits id j aligned = elim (Bool-cases (ltb j id)) [
    | inl lo ↦ ground (arith, offset_by-below id (set_bits 64 (s.buf (id / 64))) j)
    | inr hi ↦
        let e : id + (j - id) ≡ j = ground arith in
        ground (
          arith,
          offset_by-contains id (set_bits 64 (s.buf (id / 64))) (j - id),
          e,
          set_bits_lem (s.buf (id / 64)) (j - id) (wide (id / 64)),
          test-eq-bit_at s j,
          beyond-bit_at 64 (s.buf (id / 64)) (j - id) (wide (id / 64)),
        )
  ]

  -- From an index that is a multiple of 64, with fuel for each word before the bound, the scan by
  -- lowest set bits visits an index exactly when it is from the first index on, in a word that
  -- begins below the bound, and set.
  pub scan_words_lem :
      (n id stop j : ℕ)
      → id % 64 ≡ 0
      → stop ≤ id + 64 * n
      → contains (scan_words n s id stop) j ≡ (leb id j && (ltb (j / 64 * 64) stop && test s j))
  unfolding scan_words
  scan_words_lem zero id stop j aligned enough = ground arith
  scan_words_lem (suc n) id stop j aligned enough = elim (Bool-cases (ltb id stop)) [
    | inr done ↦ rw done (ground arith)
    | inl more ↦ rw more (
        ground (
          arith,
          contains-append (offset_by id (set_bits 64 (test_all s id)))
              (scan_words n s (id + 64) stop) j,
          word_bits id j aligned,
          scan_words_lem n (id + 64) stop j (omega arith) (omega arith),
        ))
  ]

pub allocate-IsWide : (n : ℕ) → IsWide (allocate n)
unfolding allocate
allocate-IsWide n w = omega arith

pub set-IsWide : (s : BitSet) (i : ℕ) → IsWide s → IsWide (set s i)
unfolding set idx_bit idx_off
set-IsWide s i wide w =
    let bit : 2 ^ (i % 64) < 2 ^ 64 = pow-lt 64 (i % 64) (omega arith) in
    ground (arith, wide w, bit_or-lt 64 (s.buf (i / 64)) (2 ^ (i % 64)) (wide (i / 64)) bit)

pub clear_region-IsWide : (s : BitSet) (a b : ℕ) → IsWide s → IsWide (clear_region s a b)
unfolding clear_region idx_off
clear_region-IsWide s a b wide w =
    ground (arith, wide w, clear_words_lem (b / 64 - a / 64) (a / 64) s.buf w)
