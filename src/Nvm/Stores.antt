-- ===== src/Nvm/Stores.antt =====
-- One store of an instrumented program between two checkpoints.
use libcrpm.Base.{
  ℕ, ◌-◌, ◌/◌, ◌<◌, ◌≡◌, inl, inr, refl, sym, ◌∙◌, ap, subst, true, ◌||◌, List, [], ◌∷◌, ◌==◌,
  update, Outcome, ok, Returns, Returns-bind, Returns-map, arith, Bool-cases,
}
use libcrpm.Constants.{blocks_per_segment, block_size, segment_size, max_threads}
use libcrpm.Pm.Region
use libcrpm.BitSet
use libcrpm.Buckets.{in_buckets, threads}
use libcrpm.Image.Defs.{Image}
use libcrpm.Nvm.Defs.{NvmInstEngine, cell, lock_of}
use libcrpm.Nvm.Hook.{hook_segment, hook_copy_on_write_routine}
use libcrpm.Nvm.Program.{
  Program, covers, protect, buffer_address, hook_rt_store, program_write, instrumented_store,
}
use libcrpm.Nvm.Protection.{Snapshot}
use libcrpm.Nvm.Invariant.{IsProtected}
use libcrpm.Nvm.Telling.{told_blocks, program_write-IsProtected}
use libcrpm.Nvm.Lazy.{IsHooked}
use libcrpm.Nvm.Hooked.{Hooking, no_room, hooked, hook_segment-Hooking}
use libcrpm.Nvm.Allocation.{funext}
use libcrpm.Nvm.Buffers.{waiting}
use libcrpm.Nvm.Running.{IsRunning, HasTold, buffer_address-HasTold}

module _ {B : Type 0} where
  same-waiting :
      (e g : NvmInstEngine B) (buffers : ℕ → List ℕ)
      → (g.address_first ≡ e.address_first) × (g.capacity ≡ e.capacity)
      → waiting g buffers ≡ waiting e buffers
  same-waiting e g buffers range =
      ap (λ fb. in_buckets fb (threads max_threads 0))
        (funext (λ t. told_blocks g (buffers t)) (λ t. told_blocks e (buffers t))
          (λ t. same (buffers t)))
    where
      same : (l : List ℕ) → told_blocks g l ≡ told_blocks e l
      same [] = refl
      same (a ∷ l) = rw (same l, range.0, range.1) refl

  -- The hook has protected the segment of the address.
  record HasHooked (s : Snapshot B) (p : Program B) (addr : ℕ) (g : NvmInstEngine B) : Type 0 where
    states : ℕ → ℕ
    running : IsRunning s states (record p { engine = g })
    is_dirty :
        (seg : ℕ)
        → (addr - p.engine.address_first) / segment_size ≡ seg
        → BitSet.test g.segment_dirty seg ≡ true
    same_blocks : (x : ℕ) → g.image.main_memory.view x ≡ p.engine.image.main_memory.view x
    same_range : (g.address_first ≡ p.engine.address_first) × (g.capacity ≡ p.engine.capacity)

  module _ (s : Snapshot B) (old : ℕ → ℕ) (p : Program B) (addr : ℕ) (r : IsRunning s old p)
      (ours : covers p.engine addr ≡ true) where
    abbrev segment : ℕ
    segment = (addr - p.engine.address_first) / segment_size

    in_range : segment < s.nr_main
    in_range = ground (arith, r.size)

    IsHooked-HasHooked :
        (g : NvmInstEngine B)
        → IsHooked s (waiting p.engine p.address_buffer) p.engine segment g
        → HasHooked s p addr g
    IsHooked-HasHooked g h = record {
      states = h.states;
      running = record {
        protected =
            subst (λ w. IsProtected s w h.states g)
              (sym (same-waiting p.engine g p.address_buffer h.same_range)) h.protected;
        all_bound = λ i lt. rw (h.same_table (r.all_bound segment in_range) i) (r.all_bound i lt);
        not_skipped = h.same_skip ∙ r.not_skipped;
        locks_free = λ l. h.same_locks l (r.locks_free l);
        back_lock_free = h.same_back_lock ∙ r.back_lock_free;
        buffers_free = r.buffers_free;
        size = h.same_range.1 ∙ r.size;
      };
      is_dirty = λ seg at. subst (λ i. BitSet.test g.segment_dirty i ≡ true) at h.is_dirty;
      same_blocks = h.same_blocks;
      same_range = h.same_range;
    }

    hooks : protect p.engine addr ≡ hook_segment p.engine segment
    unfolding protect hook_copy_on_write_routine
    hooks = simp ours refl

    already :
        BitSet.test p.engine.segment_dirty segment ≡ true
        → hook_segment p.engine segment ≡ ok p.engine
    unfolding hook_segment
    already dirty = simp dirty refl

    Hooking-HasHooked :
        (o : Outcome (NvmInstEngine B))
        → Hooking s (waiting p.engine p.address_buffer) p.engine segment o
        → Returns (HasHooked s p addr) o
    Hooking-HasHooked o (no_room free none same) = absurd (r.all_bound segment in_range free)
    Hooking-HasHooked o (hooked g h same) =
        subst (Returns (HasHooked s p addr)) (sym same) (IsHooked-HasHooked g h)

    protect-HasHooked : Returns (HasHooked s p addr) (protect p.engine addr)
    protect-HasHooked =
        subst (Returns (HasHooked s p addr)) (sym hooks)
          (elim (Bool-cases (BitSet.test p.engine.segment_dirty segment)) [
            | inl dirty ↦ subst (Returns (HasHooked s p addr)) (sym (already dirty)) (record {
              states = old;
              running = r;
              is_dirty =
                  λ seg at. subst (λ i. BitSet.test p.engine.segment_dirty i ≡ true) at dirty;
              same_blocks = λ x. refl;
              same_range = (refl, refl);
            })
            | inr idle ↦ Hooking-HasHooked (hook_segment p.engine segment) (
                hook_segment-Hooking s (waiting p.engine p.address_buffer) old p.engine segment
                  r.protected in_range idle (λ back. r.all_bound segment in_range) r.not_skipped
                  (r.locks_free (lock_of segment)) r.back_lock_free)
          ])

  -- What a store of the program leaves.
  pub record HasStored (s : Snapshot B) (p : Program B) (addr : ℕ) (v : B) (q : Program B)
      : Type 0 where
    pub states : ℕ → ℕ
    pub running : IsRunning s states q
    pub written :
        (x : ℕ)
        → q.engine.image.main_memory.view x
          ≡ update p.engine.image.main_memory.view
              ((addr - p.engine.address_first) / block_size)
              v
              x
    pub same_range :
        (q.engine.address_first ≡ p.engine.address_first) × (q.engine.capacity ≡ p.engine.capacity)

  module _ (s : Snapshot B) (p : Program B) (addr : ℕ) (v : B) where
    -- From the told program to the one after the write.
    HasTold-HasStored :
        (g : NvmInstEngine B) (h : HasHooked s p addr g) (q : Program B)
        → HasTold s h.states (record p { engine = g }) addr q
        → HasStored s p addr v (record q { engine = program_write q.engine addr v })
    unfolding program_write Region.store
    HasTold-HasStored g h q t =
        let known : (seg k : ℕ)
            → k < blocks_per_segment
            → (addr - q.engine.address_first) / block_size ≡ cell seg k
            → (BitSet.test q.engine.segment_dirty seg ≡ true)
              × ((waiting q.engine q.address_buffer (cell seg k)
                    || BitSet.test q.engine.block_dirty (cell seg k))
                  ≡ true) =
          λ seg k lt at. (
            ap (λ d. BitSet.test d seg) t.same_dirty
                ∙ h.is_dirty seg (omega (arith, at, t.same_range.0, h.same_range.0)),
            subst
                (λ b.
                  (waiting q.engine q.address_buffer b || BitSet.test q.engine.block_dirty b)
                  ≡ true)
                (ap (λ a. (addr - a) / block_size) (sym t.same_range.0) ∙ at) t.known,
          ) in
        let first : q.engine.address_first ≡ p.engine.address_first =
          t.same_range.0 ∙ h.same_range.0 in
        record {
          states = h.states;
          running = record {
            protected =
                program_write-IsProtected s _ h.states q.engine addr v t.running.protected known;
            all_bound = t.running.all_bound;
            not_skipped = t.running.not_skipped;
            locks_free = t.running.locks_free;
            back_lock_free = t.running.back_lock_free;
            buffers_free = t.running.buffers_free;
            size = t.running.size;
          };
          written = λ x. elim (Bool-cases ((addr - p.engine.address_first) / block_size == x)) [
            | inl here ↦ rw (first, here) refl
            | inr there ↦
                rw (first, there)
                  (ap (λ (m : Image B). m.main_memory.view x) t.same_image ∙ h.same_blocks x)
          ];
          same_range = (first, t.same_range.1 ∙ h.same_range.1);
        }

    -- The hook has protected the segment, and then told the engine.
    abbrev IsHookedAndTold : Program B → Type 0
    IsHookedAndTold q =
        (g : NvmInstEngine B) × (h : HasHooked s p addr g) × HasTold s h.states
          (record p { engine = g }) addr q

    hook_rt_store-IsHookedAndTold :
        (old : ℕ → ℕ) (tid : ℕ)
        → IsRunning s old p
        → covers p.engine addr ≡ true
        → tid < max_threads
        → Returns IsHookedAndTold (hook_rt_store p tid addr)
    unfolding hook_rt_store
    hook_rt_store-IsHookedAndTold old tid r ours tid_in_range =
        Returns-bind (HasHooked s p addr) IsHookedAndTold (protect p.engine addr)
          (λ g. buffer_address (record p { engine = g }) tid addr)
          (protect-HasHooked s old p addr r ours)
          (λ g h.
            Returns-map (HasTold s h.states (record p { engine = g }) addr) IsHookedAndTold
              (buffer_address (record p { engine = g }) tid addr) (λ q t. (g, h, t))
              (buffer_address-HasTold s h.states (record p { engine = g }) tid addr h.running
                (rw (h.same_range.0, h.same_range.1) ours) tid_in_range
                (λ seg at.
                  h.is_dirty seg (sym (ap (λ a. (addr - a) / segment_size) h.same_range.0) ∙ at))))

    pub instrumented_store-HasStored :
        (old : ℕ → ℕ) (tid : ℕ)
        → IsRunning s old p
        → covers p.engine addr ≡ true
        → tid < max_threads
        → Returns (HasStored s p addr v) (instrumented_store p tid addr v)
    unfolding instrumented_store
    instrumented_store-HasStored old tid r ours tid_in_range =
        Returns-bind IsHookedAndTold (HasStored s p addr v) (hook_rt_store p tid addr)
          (λ q. ok (record q { engine = program_write q.engine addr v }))
          (hook_rt_store-IsHookedAndTold old tid r ours tid_in_range)
          (λ q t. HasTold-HasStored t.0 t.1 q t.2)
