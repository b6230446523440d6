-- ===== src/Nvm/Program.antt =====
-- What an instrumented program calls before it writes (the C entry points at the end of
-- runtime/src/engines/nvm_inst_engine.cpp), with the buffers of the addresses that the engine is told of later. One
-- engine is registered.
use libcrpm.Base.{
  ℕ, ◌+◌, ◌-◌, ◌/◌, ◌%◌, Bool, false, ◌&&◌, List, [], ◌∷◌, ◌++◌, ◌==◌, leb, ltb, if◌then◌else◌,
  update, length, Outcome, ok, spins, ◌>>=◌,
}
use libcrpm.Constants.{block_size, max_threads}
use libcrpm.Pm.Region
use libcrpm.Buckets.{threads}
use libcrpm.Nvm.Defs.{NvmInstEngine}
use libcrpm.Nvm.Hook.{
  hook_routine, hook_range, hook_copy_on_write_routine, hook_copy_on_write_range,
}

abbrev pub buffered_addresses : ℕ
buffered_addresses = 120

-- `ptr[0 .. length)` and `spinlock` of each AddressBuffer.
pub record Program (B : Type 0) : Type 0 where
  pub engine : NvmInstEngine B
  pub address_buffer : ℕ → List ℕ
  pub spinlock : ℕ → Bool

module _ {B : Type 0} where
  abbrev pub covers : NvmInstEngine B → ℕ → Bool
  covers e addr = leb e.address_first addr && ltb addr (e.address_first + e.capacity)

  unfoldable pub hook_addresses : NvmInstEngine B → ℕ → List ℕ → NvmInstEngine B
  hook_addresses e tid [] = e
  hook_addresses e tid (addr ∷ addrs) =
      hook_addresses (if covers e addr then hook_routine e tid addr else e) tid addrs

  -- `tid` is the thread that calls, `i` the buffer.
  unfoldable pub address_buffer_clear : Program B → ℕ → ℕ → Outcome (Program B)
  address_buffer_clear p tid i =
      let cleared = record p {
        engine = hook_addresses p.engine tid (p.address_buffer i);
        address_buffer = update p.address_buffer i [];
        spinlock = update p.spinlock i false;
      } in
      if p.spinlock i then spins else ok cleared

  unfoldable pub address_buffer_clear_each : List ℕ → Program B → ℕ → Outcome (Program B)
  address_buffer_clear_each [] p tid = ok p
  address_buffer_clear_each (i ∷ is) p tid =
      address_buffer_clear p tid i >>= λ cleared. address_buffer_clear_each is cleared tid

  unfoldable pub address_buffer_clear_all : Program B → ℕ → Outcome (Program B)
  address_buffer_clear_all p tid = address_buffer_clear_each (threads max_threads 0) p tid

  -- `registry->hook_copy_on_write_routine(addr)`.
  unfoldable pub protect : NvmInstEngine B → ℕ → Outcome (NvmInstEngine B)
  protect e addr = if covers e addr then hook_copy_on_write_routine e addr else ok e

  -- The address goes to the buffer of the thread, which is cleared when it is full.
  unfoldable pub buffer_address : Program B → ℕ → ℕ → Outcome (Program B)
  buffer_address p tid addr =
      let addrs = p.address_buffer tid ++ (addr ∷ []) in
      let buffered = record p { address_buffer = update p.address_buffer tid addrs } in
      if length addrs == buffered_addresses
      then address_buffer_clear buffered tid tid
      else ok buffered

  unfoldable pub hook_rt_store : Program B → ℕ → ℕ → Outcome (Program B)
  hook_rt_store p tid addr = do
    hooked ← protect p.engine addr
    buffer_address (record p { engine = hooked }) tid addr

  unfoldable pub hook_rt_range_store : Program B → ℕ → ℕ → ℕ → Outcome (Program B)
  hook_rt_range_store p tid addr len =
      let ranged =
        if covers p.engine addr
        then (hook_copy_on_write_range p.engine addr len >>= λ hooked.
            ok (record p { engine = hook_range hooked tid addr len }))
        else ok p in
      if leb (addr % block_size + len) block_size then hook_rt_store p tid addr else ranged

  -- `AnnotateCheckpointRegion`; the flag says whether `__crpm_hook_rt_init` has run.
  unfoldable pub annotate_checkpoint_region : Bool → Program B → ℕ → ℕ → ℕ → Outcome (Program B)
  annotate_checkpoint_region process_instrumented p tid addr len =
      if process_instrumented then hook_rt_range_store p tid addr len else ok p

  -- The write of the program itself: it leaves the content `v` in the block of the address.
  unfoldable pub program_write : NvmInstEngine B → ℕ → B → NvmInstEngine B
  program_write e addr v = record e {
    image = record e.image {
      main_memory = Region.store e.image.main_memory ((addr - e.address_first) / block_size) v;
    };
  }

  -- A store of the program as the compiler pass leaves it: the hook, then the store.
  unfoldable pub instrumented_store : Program B → ℕ → ℕ → B → Outcome (Program B)
  instrumented_store p tid addr v = do
    told ← hook_rt_store p tid addr
    ok (record told { engine = program_write told.engine addr v })
