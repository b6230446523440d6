-- ===== src/Nvm/Telling.antt =====
-- The steps of an instrumented program that keep the last checkpoint protected: telling the engine of a block,
-- clearing a buffer of addresses, and writing to a block of a dirty segment.
use libcrpm.Base.{
  ℕ, ◌-◌, ◌/◌, ◌<◌, ◌≡◌, inl, inr, refl, sym, ◌∙◌, ap, subst, Bool, true, false, ◌||◌, List, [],
  ◌∷◌, ◌==◌, if◌then◌else◌, contains, arith, Bool-cases,
}
use libcrpm.Constants.{blocks_per_segment, block_size}
use libcrpm.Pm.Region
use libcrpm.Pm.Region.{Region, clean, dirty}
use libcrpm.BitSet
use libcrpm.BitSet.{BitSet}
use libcrpm.BitSet.Laws.{test-set}
use libcrpm.BitSet.Words.{IsWide, set-IsWide}
use libcrpm.Buckets.{BlockLists}
use libcrpm.Nvm.Defs.{NvmInstEngine, cell}
use libcrpm.Nvm.Hook.{hook_block, hook_routine}
use libcrpm.Nvm.Program.{covers, hook_addresses, program_write}
use libcrpm.Nvm.Protection.{Snapshot}
use libcrpm.Nvm.Covering.{==_eq}
use libcrpm.Nvm.Invariant.{IsProtected}

module _ {B : Type 0} where
  -- The set of pending blocks may change, and bits of dirty blocks may be set, as long as no block is forgotten.
  pub told-IsProtected :
      (s : Snapshot B) (pending later : ℕ → Bool) (old : ℕ → ℕ) (e : NvmInstEngine B)
      (marks : BitSet) (buckets : BlockLists)
      → IsProtected s pending old e
      → IsWide marks
      → ((x : ℕ)
          → later x ≡ false
          → BitSet.test marks x ≡ false
          → (pending x ≡ false) × (BitSet.test e.block_dirty x ≡ false))
      → ((seg k : ℕ)
          → seg < s.nr_main
          → k < blocks_per_segment
          → later (cell seg k) ≡ true
          → BitSet.test e.segment_dirty seg ≡ true)
      → IsProtected s later old (record e { block_dirty = marks; flush_blocks = buckets })
  told-IsProtected s pending later old e marks buckets p wide kept within = record {
    updating = p.updating;
    covers = p.covers;
    promised_states = p.promised_states;
    known_states = p.known_states;
    synced = λ seg k q some told clean.
        let before = kept (cell seg k) told clean in p.synced seg k q some before.0 before.1;
    pending_dirty = within;
    blocks = p.blocks;
    wide = wide;
    next_in_range = p.next_in_range;
  }

  -- A call of the hook for a block does not undo what other calls did.
  pub record Tells (e g : NvmInstEngine B) : Type 0 where
    pub marks : BitSet
    pub buckets : BlockLists
    pub same : g ≡ record e { block_dirty = marks; flush_blocks = buckets }
    pub still : (x : ℕ) → BitSet.test e.block_dirty x ≡ true → BitSet.test marks x ≡ true
    pub wide : IsWide e.block_dirty → IsWide marks

  pub Tells-refl : (e : NvmInstEngine B) → Tells e e
  Tells-refl e = record {
    marks = e.block_dirty;
    buckets = e.flush_blocks;
    same = refl;
    still = λ x h. h;
    wide = λ h. h;
  }

  pub Tells-trans : (e f g : NvmInstEngine B) → Tells e f → Tells f g → Tells e g
  Tells-trans e f g a b = record {
    marks = b.marks;
    buckets = b.buckets;
    same =
        b.same
        ∙ ap (λ (h : NvmInstEngine B). record h { block_dirty = b.marks; flush_blocks = b.buckets })
            a.same;
    still = λ x h.
        b.still x (ap (λ (n : NvmInstEngine B). BitSet.test n.block_dirty x) a.same ∙ a.still x h);
    wide =
        λ h. b.wide (subst (λ (n : NvmInstEngine B). IsWide n.block_dirty) (sym a.same) (a.wide h));
  }

  hook_block-Tells :
      (e : NvmInstEngine B) (tid b : ℕ)
      → Tells e (hook_block e tid b) × (BitSet.test (hook_block e tid b).block_dirty b ≡ true)
  unfolding hook_block
  hook_block-Tells e tid b = elim (Bool-cases (BitSet.test e.block_dirty b)) [
    | inl marked ↦ simp marked (Tells-refl e, refl)
    | inr fresh ↦ simp fresh (
      record {
        marks = BitSet.set e.block_dirty b;
        buckets = _;
        same = refl;
        still = λ x h. ground (arith, test-set e.block_dirty b x);
        wide = set-IsWide e.block_dirty b;
      },
      ground (arith, test-set e.block_dirty b b),
    )
  ]

  -- The blocks of the addresses that belong to the engine.
  abbrev pub told_blocks : NvmInstEngine B → List ℕ → List ℕ
  told_blocks e [] = []
  told_blocks e (addr ∷ addrs) =
      if covers e addr
      then ((addr - e.address_first) / block_size) ∷ told_blocks e addrs
      else told_blocks e addrs

  pub told_blocks-Tells :
      (e f : NvmInstEngine B) (addrs : List ℕ)
      → Tells e f
      → told_blocks f addrs ≡ told_blocks e addrs
  told_blocks-Tells e f addrs t =
      ap (λ (g : NvmInstEngine B). told_blocks g addrs) t.same ∙ same addrs
    where
      same :
          (l : List ℕ)
          → told_blocks (record e { block_dirty = t.marks; flush_blocks = t.buckets }) l
            ≡ told_blocks e l
      same [] = refl
      same (a ∷ l) = rw (same l) refl

  hook_routine-Tells :
      (e : NvmInstEngine B) (tid addr : ℕ)
      → Tells e (hook_routine e tid addr)
        × (BitSet.test (hook_routine e tid addr).block_dirty ((addr - e.address_first) / block_size)
            ≡ true)
  unfolding hook_routine
  hook_routine-Tells e tid addr = hook_block-Tells e tid ((addr - e.address_first) / block_size)

  pub hook_addresses-Tells :
      (e : NvmInstEngine B) (tid : ℕ) (addrs : List ℕ) → Tells e (hook_addresses e tid addrs)
  unfolding hook_addresses
  hook_addresses-Tells e tid [] = Tells-refl e
  hook_addresses-Tells e tid (addr ∷ addrs) = elim (Bool-cases (covers e addr)) [
    | inl ours ↦ simp ours (
        Tells-trans e _ _ (hook_routine-Tells e tid addr).0
          (hook_addresses-Tells (hook_routine e tid addr) tid addrs))
    | inr other ↦ simp other (hook_addresses-Tells e tid addrs)
  ]

  still_marked :
      (e f : NvmInstEngine B) (x : ℕ)
      → Tells e f
      → BitSet.test e.block_dirty x ≡ true
      → BitSet.test f.block_dirty x ≡ true
  still_marked e f x t h =
      ap (λ (g : NvmInstEngine B). BitSet.test g.block_dirty x) t.same ∙ t.still x h

  -- Each address of the engine marks its block.
  pub hook_addresses-marks :
      (e : NvmInstEngine B) (tid : ℕ) (addrs : List ℕ) (b : ℕ)
      → contains (told_blocks e addrs) b ≡ true
      → BitSet.test (hook_addresses e tid addrs).block_dirty b ≡ true
  unfolding hook_addresses
  hook_addresses-marks e tid [] b h = absurd (cc)
  hook_addresses-marks e tid (addr ∷ addrs) b h = elim (Bool-cases (covers e addr)) [
    | inr other ↦ simp other (hook_addresses-marks e tid addrs b (rw other at h))
    | inl ours ↦
        let hooked = hook_routine e tid addr in
        let t = hook_routine-Tells e tid addr in
        simp ours (elim (Bool-cases ((addr - e.address_first) / block_size == b)) [
          | inl here ↦
              still_marked hooked (hook_addresses hooked tid addrs) b
                (hook_addresses-Tells hooked tid addrs)
                (subst (λ x. BitSet.test hooked.block_dirty x ≡ true) (==_eq _ b here) t.1)
          | inr later ↦ hook_addresses-marks hooked tid addrs b (
              ap (λ l. contains l b) (told_blocks-Tells e hooked addrs t.0) ∙ rw (ours, later) at h)
        ])
  ]

  -- A write to a block that is dirty or pending, in a dirty segment, does not touch the checkpoint.
  pub program_write-IsProtected :
      (s : Snapshot B) (pending : ℕ → Bool) (old : ℕ → ℕ) (e : NvmInstEngine B) (addr : ℕ) (v : B)
      → IsProtected s pending old e
      → ((seg k : ℕ)
          → k < blocks_per_segment
          → (addr - e.address_first) / block_size ≡ cell seg k
          → (BitSet.test e.segment_dirty seg ≡ true)
            × ((pending (cell seg k) || BitSet.test e.block_dirty (cell seg k)) ≡ true))
      → IsProtected s pending old (program_write e addr v)
  unfolding program_write Region.store
  program_write-IsProtected s pending old e addr v p known = record {
    updating = record {
      stable = record {
        epoch = p.updating.stable.epoch;
        epoch_sure = p.updating.stable.epoch_sure;
        copy = p.updating.stable.copy;
      };
      pending = p.updating.pending;
      marked = p.updating.marked;
    };
    covers = record {
      main_size = p.covers.main_size;
      back_size = p.covers.back_size;
      few_main = p.covers.few_main;
      few_back = p.covers.few_back;
      bound = record { forward = p.covers.bound.forward; backward = p.covers.bound.backward };
      bound_sure = p.covers.bound_sure;
      main_kept = λ seg k q idle.
          elim (Bool-cases ((addr - e.address_first) / block_size == cell seg k)) [
            | inl here ↦ absurd (ground (arith, idle, (known seg k q.1 (==_eq _ _ here)).0))
            | inr there ↦ rw there (p.covers.main_kept seg k q idle)
          ];
      back_kept = p.covers.back_kept;
      dirty_kept = p.covers.dirty_kept;
    };
    promised_states = p.promised_states;
    known_states = p.known_states;
    synced = λ seg k q some told clean.
        elim (Bool-cases ((addr - e.address_first) / block_size == cell seg k)) [
          | inl here ↦ absurd (ground (arith, told, clean, (known seg k q.1 (==_eq _ _ here)).1))
          | inr there ↦ rw there (p.synced seg k q some told clean)
        ];
    pending_dirty = p.pending_dirty;
    blocks = p.blocks;
    wide = p.wide;
    next_in_range = p.next_in_range;
  }
