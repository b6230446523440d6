-- ===== src/Nvm/Hook.antt =====
-- The hooks of NvmInstEngine: `hook_routine` before a write, block by block, and
-- `hook_copy_on_write_routine`, segment by segment.
use libcrpm.Base.{ℕ, zero, suc, ◌+◌, ◌-◌, ◌/◌, ◌%◌, true, ltb, if◌then◌else◌, Outcome, ok, ◌>>=◌}
use libcrpm.Constants.{block_size, segment_size}
use libcrpm.BitSet
use libcrpm.Buckets
use libcrpm.Nvm.Defs.{NvmInstEngine, set_segment_dirty}
use libcrpm.Nvm.WriteBack.{lazy_write_back}

module _ {B : Type 0} where
  -- Past the computation of `block_id`, for the thread `tid`.
  unfoldable pub hook_block : NvmInstEngine B → ℕ → ℕ → NvmInstEngine B
  hook_block e tid block_id =
      let marked = record e {
        block_dirty = BitSet.set e.block_dirty block_id;
        flush_blocks = Buckets.push e.flush_blocks tid block_id;
      } in
      if BitSet.test e.block_dirty block_id then e else marked

  unfoldable pub hook_routine : NvmInstEngine B → ℕ → ℕ → NvmInstEngine B
  hook_routine e tid addr = hook_block e tid ((addr - e.address_first) / block_size)

  -- `for (ptr = delta & ~kBlockMask; ptr < delta + len; ptr += kBlockSize)`, by the rounds that are left.
  unfoldable pub hook_loop : ℕ → NvmInstEngine B → ℕ → ℕ → ℕ → NvmInstEngine B
  hook_loop zero e tid ptr end = e
  hook_loop (suc n) e tid ptr end =
      let hooked = if ltb ptr end then hook_routine e tid (e.address_first + ptr) else e in
      hook_loop n hooked tid (ptr + block_size) end

  -- A range of `len` bytes meets at most `len / kBlockSize + 2` blocks.
  unfoldable pub hook_range : NvmInstEngine B → ℕ → ℕ → ℕ → NvmInstEngine B
  hook_range e tid addr len =
      let delta = addr - e.address_first in
      hook_loop (len / block_size + 2) e tid (delta - delta % block_size) (delta + len)

  unfoldable pub hook_segment : NvmInstEngine B → ℕ → Outcome (NvmInstEngine B)
  hook_segment e segment_id =
      let lazily = lazy_write_back e segment_id true >>= λ r. ok r.0 in
      let skipped = ok (set_segment_dirty e segment_id) in
      if BitSet.test e.segment_dirty segment_id
      then ok e
      else (if e.skip_copy_on_write then skipped else lazily)

  unfoldable pub hook_copy_on_write_routine : NvmInstEngine B → ℕ → Outcome (NvmInstEngine B)
  hook_copy_on_write_routine e addr = hook_segment e ((addr - e.address_first) / segment_size)

  -- `for (segment_id = start; segment_id < end; ++segment_id)`, by the rounds that are left.
  unfoldable pub hook_segments : ℕ → NvmInstEngine B → ℕ → Outcome (NvmInstEngine B)
  hook_segments zero e segment_id = ok e
  hook_segments (suc n) e segment_id =
      hook_segment e segment_id >>= λ hooked. hook_segments n hooked (segment_id + 1)

  unfoldable pub hook_copy_on_write_range : NvmInstEngine B → ℕ → ℕ → Outcome (NvmInstEngine B)
  hook_copy_on_write_range e addr len =
      let delta = addr - e.address_first in
      let start_segment_id = delta / segment_size in
      let end_segment_id = (delta + len + (segment_size - 1)) / segment_size in
      hook_segments (end_segment_id - start_segment_id) e start_segment_id
