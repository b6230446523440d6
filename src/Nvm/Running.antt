-- ===== src/Nvm/Running.antt =====
-- An instrumented program between two checkpoints: whatever it writes, a crash leaves the last checkpoint.
use libcrpm.Base.{
  ℕ, ◌-◌, ◌*◌, ◌/◌, ◌<◌, ◌≡◌, ◌≢◌, inl, inr, refl, sym, ◌∙◌, ap, subst, true, false, ◌||◌, List, [],
  ◌∷◌, ◌++◌, ◌==◌, update, length, ok, Returns, arith, Bool-cases,
}
use libcrpm.Constants.{null_segment_index, block_size, segment_size, max_threads}
use libcrpm.BitSet
use libcrpm.Nvm.Defs.{NvmInstEngine}
use libcrpm.Nvm.Program.{Program, covers, buffered_addresses, address_buffer_clear, buffer_address}
use libcrpm.Nvm.Protection.{Snapshot}
use libcrpm.Nvm.Invariant.{IsProtected}
use libcrpm.Nvm.Telling.{Tells, hook_addresses-marks}
use libcrpm.Nvm.Buffers.{
  waiting, told_engine, told-Tells, cleared-IsProtected, pushed, block, pushed_here, pushed_now,
  pushed-IsProtected,
}

module _ {B : Type 0} where
  -- The program between two of its instructions.
  pub record IsRunning (s : Snapshot B) (old : ℕ → ℕ) (p : Program B) : Type 0 where
    pub protected : IsProtected s (waiting p.engine p.address_buffer) old p.engine
    pub all_bound : (i : ℕ) → i < s.nr_main → p.engine.image.main_to_back i ≢ null_segment_index
    pub not_skipped : p.engine.skip_copy_on_write ≡ false
    pub locks_free : (l : ℕ) → p.engine.segment_locks l ≡ false
    pub back_lock_free : p.engine.back_memory_lock ≡ false
    pub buffers_free : (i : ℕ) → p.spinlock i ≡ false
    pub size : p.engine.capacity ≡ s.nr_main * segment_size

  -- What the hook leaves once the engine is told, or will be: the block of the address is dirty or waits.
  pub record HasTold (s : Snapshot B) (old : ℕ → ℕ) (p : Program B) (addr : ℕ) (q : Program B)
      : Type 0 where
    pub running : IsRunning s old q
    pub same_image : q.engine.image ≡ p.engine.image
    pub same_dirty : q.engine.segment_dirty ≡ p.engine.segment_dirty
    pub same_range :
        (q.engine.address_first ≡ p.engine.address_first) × (q.engine.capacity ≡ p.engine.capacity)
    pub known :
        (waiting q.engine q.address_buffer ((addr - p.engine.address_first) / block_size)
          || BitSet.test q.engine.block_dirty ((addr - p.engine.address_first) / block_size))
        ≡ true

  module _ (s : Snapshot B) (old : ℕ → ℕ) (p : Program B) (tid addr : ℕ) (r : IsRunning s old p)
      (ours : covers p.engine addr ≡ true) (in_range : tid < max_threads)
      (is_dirty : (seg : ℕ)
        → (addr - p.engine.address_first) / segment_size ≡ seg
        → BitSet.test p.engine.segment_dirty seg ≡ true) where
    abbrev addrs : ℕ → List ℕ
    addrs = pushed p.engine p.address_buffer tid addr ours in_range

    abbrev buffered : Program B
    buffered = record p { address_buffer = addrs }

    buffered-IsRunning : IsRunning s old buffered
    buffered-IsRunning = record {
      protected =
          pushed-IsProtected p.engine p.address_buffer tid addr ours in_range s old is_dirty
            r.protected;
      all_bound = r.all_bound;
      not_skipped = r.not_skipped;
      locks_free = r.locks_free;
      back_lock_free = r.back_lock_free;
      buffers_free = r.buffers_free;
      size = r.size;
    }

    told : Tells p.engine (told_engine p.engine addrs tid tid)
    told = told-Tells p.engine addrs tid tid

    abbrev cleared : Program B
    cleared = record {
      engine = told_engine p.engine addrs tid tid;
      address_buffer = update addrs tid [];
      spinlock = update p.spinlock tid false;
    }

    cleared-IsRunning : IsRunning s old cleared
    cleared-IsRunning = record {
      protected = cleared-IsProtected p.engine addrs tid tid s old buffered-IsRunning.protected;
      all_bound = λ i lt none.
          r.all_bound i lt
            (sym (ap (λ (g : NvmInstEngine B). g.image.main_to_back i) told.same) ∙ none);
      not_skipped = ap (λ (g : NvmInstEngine B). g.skip_copy_on_write) told.same ∙ r.not_skipped;
      locks_free = λ l. ap (λ (g : NvmInstEngine B). g.segment_locks l) told.same ∙ r.locks_free l;
      back_lock_free =
          ap (λ (g : NvmInstEngine B). g.back_memory_lock) told.same ∙ r.back_lock_free;
      buffers_free = λ i. ground (arith, r.buffers_free i);
      size = ap (λ (g : NvmInstEngine B). g.capacity) told.same ∙ r.size;
    }

    buffered-HasTold : HasTold s old p addr buffered
    buffered-HasTold = record {
      running = buffered-IsRunning;
      same_image = refl;
      same_dirty = refl;
      same_range = (refl, refl);
      known = rw (pushed_now p.engine p.address_buffer tid addr ours in_range) refl;
    }

    cleared-HasTold : HasTold s old p addr cleared
    cleared-HasTold = record {
      running = cleared-IsRunning;
      same_image = ap (λ (g : NvmInstEngine B). g.image) told.same;
      same_dirty = ap (λ (g : NvmInstEngine B). g.segment_dirty) told.same;
      same_range = (
        ap (λ (g : NvmInstEngine B). g.address_first) told.same,
        ap (λ (g : NvmInstEngine B). g.capacity) told.same,
      );
      known =
          rw
            (hook_addresses-marks p.engine tid (addrs tid)
              (block p.engine p.address_buffer tid addr ours in_range)
              (pushed_here p.engine p.address_buffer tid addr ours in_range))
            (ground arith);
    }

    buffer_full :
        (length (p.address_buffer tid ++ (addr ∷ [])) == buffered_addresses) ≡ true
        → buffer_address p tid addr ≡ ok cleared
    unfolding buffer_address address_buffer_clear
    buffer_full full = simp (full, r.buffers_free tid) refl

    buffer_room :
        (length (p.address_buffer tid ++ (addr ∷ [])) == buffered_addresses) ≡ false
        → buffer_address p tid addr ≡ ok buffered
    unfolding buffer_address
    buffer_room room = simp room refl

    pub buffer_address-HasTold : Returns (HasTold s old p addr) (buffer_address p tid addr)
    buffer_address-HasTold =
        elim (Bool-cases (length (p.address_buffer tid ++ (addr ∷ [])) == buffered_addresses)) [
          | inl full ↦
              subst (Returns (HasTold s old p addr)) (sym (buffer_full full)) cleared-HasTold
          | inr room ↦
              subst (Returns (HasTold s old p addr)) (sym (buffer_room room)) buffered-HasTold
        ]
