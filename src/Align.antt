-- ===== src/Align.antt =====
-- `RoundUp` and the cache lines that `FlushRegion` flushes (runtime/include/internal/common.h).
pub mod Laws
use libcrpm.Base.{
  ℕ, zero, suc, ◌+◌, ◌-◌, ◌*◌, ◌/◌, ◌%◌, ◌≤◌, Bool, List, [], ◌∷◌, ltb, leb, ◌==◌, ◌&&◌,
  if◌then◌else◌, true, false,
}
use libcrpm.Constants.{cache_line_size}

-- The wrap of `uint64_t` is left out: the sizes of a file stay far below 2 ^ 64.
abbrev pub round_up : ℕ → ℕ → ℕ
round_up a b = let mod_b = a % b in if mod_b == 0 then a else a - mod_b + b

-- The loop `for (ptr = addr & ~mask; ptr < addr + len; ptr += kCacheLineSize)`: the lines it visits.
pub flush_loop : ℕ → ℕ → ℕ → List ℕ
flush_loop zero ptr end = []
flush_loop (suc fuel) ptr end =
    let rest = flush_loop fuel (ptr + cache_line_size) end in if ltb ptr end then ptr ∷ rest else []

pub flush_region : ℕ → ℕ → List ℕ
flush_region addr len =
    flush_loop (len / cache_line_size + 2) (addr - addr % cache_line_size) (addr + len)
