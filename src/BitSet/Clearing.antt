-- ===== src/BitSet/Clearing.antt =====
-- What `clear` of AtomicBitSet (runtime/include/internal/common.h) does to the bits and to the words.
use libcrpm.Base.{ℕ, ◌-◌, ◌/◌, ◌%◌, ◌^◌, ◌≡◌, false, ◌==◌, if◌then◌else◌, arith}
use libcrpm.Base.Bits.{bit_at-bit_and, bit_at-complement, bit_at-pow, bit_at-lt, pow-lt}
use libcrpm.BitSet.{BitSet, test, clear, idx_off, idx_bit}
use libcrpm.BitSet.Laws.{test-eq-bit_at}

-- Clearing a bit clears it and no other, in the same word or another.
pub test-clear : (s : BitSet) (i j : ℕ) → test (clear s i) j ≡ (if i == j then false else test s j)
unfolding clear idx_off idx_bit
test-clear s i j = ground (
  arith,
  test-eq-bit_at s j,
  test-eq-bit_at (clear s i) j,
  bit_at-bit_and (j % 64) (s.buf (i / 64)) (2 ^ 64 - 1 - 2 ^ (i % 64)),
  bit_at-complement 64 (2 ^ (i % 64)) (j % 64) (pow-lt 64 (i % 64) (omega arith)) (omega arith),
  bit_at-pow (i % 64) (j % 64),
  bit_at-lt (s.buf (j / 64)) (j % 64),
)
