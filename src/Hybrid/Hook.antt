-- ===== src/Hybrid/Hook.antt =====
-- HybridInstEngine::hook_routine, the entry points that an instrumented program calls, and the buffers of addresses.
use libcrpm.Base.{
  ℕ, zero, suc, ◌+◌, ◌-◌, ◌/◌, ◌%◌, ◌^◌, Bool, false, ◌&&◌, List, [], ◌∷◌, ◌++◌, ◌==◌, leb, ltb,
  if◌then◌else◌, update, length, Outcome, ok, spins, ◌>>=◌,
}
use libcrpm.Constants.{block_size, segment_size, max_threads}
use libcrpm.BitSet
use libcrpm.Buckets
use libcrpm.Buckets.{threads}
use libcrpm.Hybrid.Defs.{HybridInstEngine, set_segment_dirty}

module _ {B : Type 0} where
  -- The mark of the block and its entry in the bucket of the thread.
  unfoldable pub mark_block : HybridInstEngine B → ℕ → ℕ → HybridInstEngine B
  mark_block e tid block_id = record e {
    block_dirty = update e.block_dirty e.epoch (BitSet.set (e.block_dirty e.epoch) block_id);
    flush_blocks = Buckets.push e.flush_blocks tid block_id;
  }

  -- The segment is marked unless it is already.
  unfoldable pub mark_segment : HybridInstEngine B → ℕ → HybridInstEngine B
  mark_segment e segment_id =
      if BitSet.test (e.segment_dirty e.epoch) segment_id then e else set_segment_dirty e segment_id

  unfoldable pub hook_block : HybridInstEngine B → ℕ → ℕ → HybridInstEngine B
  hook_block e tid delta =
      let marked = mark_segment (mark_block e tid (delta / block_size)) (delta / segment_size) in
      if BitSet.test (e.block_dirty e.epoch) (delta / block_size) then e else marked

  unfoldable pub hook_routine : HybridInstEngine B → ℕ → ℕ → HybridInstEngine B
  hook_routine e tid addr = hook_block e tid (addr - e.address_first)

  -- One round of the loop over a range, with `last_segment_id`, which starts as UINT64_MAX.
  unfoldable pub range_round : HybridInstEngine B → ℕ → ℕ → ℕ → HybridInstEngine B
  range_round e tid last delta =
      let marked = mark_block e tid (delta / block_size) in
      if BitSet.test (e.block_dirty e.epoch) (delta / block_size)
      then e
      else (if delta / segment_size == last
          then marked
          else mark_segment marked (delta / segment_size))

  -- `last_segment_id` after the round.
  unfoldable pub last_after : HybridInstEngine B → ℕ → ℕ → ℕ
  last_after e last delta =
      if BitSet.test (e.block_dirty e.epoch) (delta / block_size)
      then last
      else delta / segment_size

  -- The loop, by the rounds that are left.
  unfoldable pub range_loop : ℕ → HybridInstEngine B → ℕ → ℕ → ℕ → ℕ → HybridInstEngine B
  range_loop zero e tid last delta end = e
  range_loop (suc n) e tid last delta end =
      let inside = ltb delta end in
      range_loop n (if inside then range_round e tid last delta else e) tid
        (if inside then last_after e last delta else last) (delta + block_size) end

  -- A range of `len` bytes meets at most `len / kBlockSize + 2` blocks.
  unfoldable pub hook_range : HybridInstEngine B → ℕ → ℕ → ℕ → HybridInstEngine B
  hook_range e tid addr len =
      let offset = addr - e.address_first in
      range_loop (len / block_size + 2) e tid (2 ^ 64 - 1) (offset - offset % block_size)
        (offset + len)

abbrev pub buffered_addresses : ℕ
buffered_addresses = 504

-- `ptr[0 .. length)` and `spinlock` of each AddressBuffer. One engine is registered.
pub record Program (B : Type 0) : Type 0 where
  pub engine : HybridInstEngine B
  pub address_buffer : ℕ → List ℕ
  pub spinlock : ℕ → Bool

module _ {B : Type 0} where
  abbrev pub covers : HybridInstEngine B → ℕ → Bool
  covers e addr = leb e.address_first addr && ltb addr (e.address_first + e.capacity)

  unfoldable pub hook_addresses : HybridInstEngine B → ℕ → List ℕ → HybridInstEngine B
  hook_addresses e tid [] = e
  hook_addresses e tid (addr ∷ addrs) =
      hook_addresses (if covers e addr then hook_routine e tid addr else e) tid addrs

  -- `tid` is the thread that calls, `i` the buffer.
  unfoldable pub address_buffer_clear : Program B → ℕ → ℕ → Outcome (Program B)
  address_buffer_clear p tid i =
      let cleared = record p {
        engine = hook_addresses p.engine tid (p.address_buffer i);
        address_buffer = update p.address_buffer i [];
        spinlock = update p.spinlock i false;
      } in
      if p.spinlock i then spins else ok cleared

  unfoldable pub address_buffer_clear_each : List ℕ → Program B → ℕ → Outcome (Program B)
  address_buffer_clear_each [] p tid = ok p
  address_buffer_clear_each (i ∷ is) p tid =
      address_buffer_clear p tid i >>= λ cleared. address_buffer_clear_each is cleared tid

  unfoldable pub address_buffer_clear_all : Program B → ℕ → Outcome (Program B)
  address_buffer_clear_all p tid = address_buffer_clear_each (threads max_threads 0) p tid

  unfoldable pub hook_rt_store : Program B → ℕ → ℕ → Outcome (Program B)
  hook_rt_store p tid addr =
      let addrs = p.address_buffer tid ++ (addr ∷ []) in
      let buffered = record p { address_buffer = update p.address_buffer tid addrs } in
      if length addrs == buffered_addresses
      then address_buffer_clear buffered tid tid
      else ok buffered

  -- A range inside one block is a store.
  unfoldable pub hook_rt_range_store : Program B → ℕ → ℕ → ℕ → Outcome (Program B)
  hook_rt_range_store p tid addr len =
      let hooked =
        if covers p.engine addr
        then record p { engine = hook_range p.engine tid addr len }
        else p in
      if leb (addr % block_size + len) block_size then hook_rt_store p tid addr else ok hooked
