-- ===== src/BitSet.antt =====
-- `AtomicBitSet` (runtime/include/internal/common.h): bits in words of 64, as `buf` holds them.
pub mod Laws
pub mod Scan
pub mod Words
pub mod Clearing
use libcrpm.Base.{
  ℕ, zero, suc, ◌+◌, ◌-◌, ◌*◌, ◌/◌, ◌%◌, ◌^◌, bit_and, bit_or, Bool, not, ◌==◌, ltb, leb, ◌&&◌,
  if◌then◌else◌, update,
}

-- `nr_bits` and `buf`, with the words beyond the allocation read as 0.
pub record BitSet : Type 0 where
  pub nr_bits : ℕ
  pub buf : ℕ → ℕ

pub allocate : ℕ → BitSet
allocate n = record { nr_bits = n; buf = λ w. 0 }

-- `idx >> kBitShift` and `1ull << (idx & kBitMask)`.
pub idx_off : ℕ → ℕ
idx_off idx = idx / 2 ^ 6

pub idx_bit : ℕ → ℕ
idx_bit idx = 2 ^ (idx % 64)

pub set : BitSet → ℕ → BitSet
set s idx = record s {
  buf = update s.buf (idx_off idx) (bit_or (s.buf (idx_off idx)) (idx_bit idx));
}

pub test : BitSet → ℕ → Bool
test s idx = not (bit_and (s.buf (idx_off idx)) (idx_bit idx) == 0)

-- `~idx_bit` on 64 bits.
pub clear : BitSet → ℕ → BitSet
clear s idx = record s {
  buf = update s.buf (idx_off idx) (bit_and (s.buf (idx_off idx)) (2 ^ 64 - 1 - idx_bit idx));
}

pub test_all : BitSet → ℕ → ℕ
test_all s idx = s.buf (idx_off idx)

pub clear_all : BitSet → ℕ → BitSet
clear_all s idx = record s { buf = update s.buf (idx_off idx) 0 }

-- `for (idx_off = start_idx_off; idx_off < end_idx_off; idx_off++)`, with the rounds that are left.
pub clear_words : ℕ → ℕ → (ℕ → ℕ) → ℕ → ℕ
clear_words zero off buf = buf
clear_words (suc n) off buf = clear_words n (off + 1) (update buf off 0)

pub clear_region : BitSet → ℕ → ℕ → BitSet
clear_region s start end = record s {
  buf = clear_words (idx_off end - idx_off start) (idx_off start) s.buf;
}
