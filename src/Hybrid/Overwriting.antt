-- ===== src/Hybrid/Overwriting.antt =====
-- What HybridInstEngine does to a main segment that has no back segment before it writes to it.
use libcrpm.Base.{
  ℕ, suc, ◌+◌, ◌-◌, ◌*◌, ◌%◌, ◌<◌, ◌≡◌, true, false, List, [], ◌∷◌, ◌==◌, if◌then◌else◌, contains,
  refl, ap, subst, inl, inr, ◌||◌, not, Bool-cases, sym, ◌∙◌, arith, ok, ◌>>=◌, Returns, ==_refl,
}
use libcrpm.Constants.{null_segment_index, blocks_per_segment}
use libcrpm.Pm.Region
use libcrpm.BitSet
use libcrpm.Image.Defs.{Image, ss_main, ss_back, get_segment_state, set_segment_state_atomic}
use libcrpm.Image.Defs
use libcrpm.Image.Binding.{bind_back_segment}
use libcrpm.Nvm.Defs.{cell}
use libcrpm.Nvm.Copying.{range_lem}
use libcrpm.Hybrid.Defs.{
  HybridInstEngine, acquire_back_lock, release_back_lock, advance_next_back_segment,
}
use libcrpm.Hybrid.BackSegment.{
  bind_next, allocate_round, allocate_loop, allocate_back_segment, found_after, find_back_segment,
}
use libcrpm.Hybrid.Apply.{all_blocks, back_to_main, prepared, prepare_main}

module _ {B : Type 0} where
  -- The copy goes from the back segment to the main segment.
  back_to_main_lem :
      (bs : List ℕ) (back : ℕ) (e : HybridInstEngine B) (x : ℕ)
      → (back_to_main back bs e).image.main_memory.view x ≡ (
          if contains bs x
          then e.image.back_memory.view (back * blocks_per_segment + x % blocks_per_segment)
          else e.image.main_memory.view x)
  unfolding back_to_main Region.nt_store
  back_to_main_lem [] back e x = refl
  back_to_main_lem (b ∷ bs) back e x = back_to_main_lem bs back _ x ∙ ground arith

  -- The segment is as the back segment that comes next was.
  abbrev pub IsOverwritten : HybridInstEngine B → ℕ → HybridInstEngine B → Type 0
  IsOverwritten e seg g =
      (k : ℕ)
      → k < blocks_per_segment
      → g.image.main_memory.view (cell seg k)
        ≡ e.image.back_memory.view (cell e.next_back_segment k)

  module _ (e : HybridInstEngine B) (seg : ℕ)
      (none : (e.image.main_to_back seg == null_segment_index) ≡ true)
      (open_to_it : ((e.image.back_to_main e.next_back_segment).value == null_segment_index
          || not (
              BitSet.test
                (e.segment_dirty e.epoch)
                (e.image.back_to_main e.next_back_segment).value))
        ≡ true)
      (some : 0 < e.image.nr_back_segments)
      (known : (e.next_back_segment == null_segment_index) ≡ false)
      (unlocked : e.back_memory_lock ≡ false) where
    abbrev bound : HybridInstEngine B
    bound = release_back_lock (bind_next (record e { back_memory_lock = true }) seg)

    taken : (n : ℕ) → allocate_loop (suc n) (record e { back_memory_lock = true }) seg ≡ bound
    unfolding allocate_loop allocate_round
    taken n =
        elim (Bool-cases ((e.image.back_to_main e.next_back_segment).value == null_segment_index)) [
          | inl unused ↦ simp unused refl
          | inr used ↦
              let rested : BitSet.test (e.segment_dirty e.epoch)
                    (e.image.back_to_main e.next_back_segment).value
                  ≡ false =
                ground (arith, used, open_to_it) in
              simp (used, rested) refl
        ]

    allocated : allocate_back_segment e seg ≡ ok bound
    unfolding allocate_back_segment acquire_back_lock
    allocated =
        let size : suc (e.image.nr_back_segments - 1) ≡ e.image.nr_back_segments =
          omega (arith, some) in
        simp unlocked (
          ap (λ n. ok (allocate_loop n (record e { back_memory_lock = true }) seg)) (sym size)
          ∙ ap ok (taken (e.image.nr_back_segments - 1)))

    has_it : bound.image.main_to_back seg ≡ e.next_back_segment
    unfolding bind_next advance_next_back_segment release_back_lock bind_back_segment
        Defs.store_fence
    has_it = rw (==_refl seg) refl

    same_back : bound.image.back_memory.view ≡ e.image.back_memory.view
    unfolding bind_next advance_next_back_segment release_back_lock bind_back_segment
        Defs.store_fence Region.fence
    same_back = refl

    found :
        find_back_segment e seg
        ≡ ok (record { engine = bound; back_id = e.next_back_segment; created = true })
    unfolding find_back_segment found_after
    found = simp none (ap (λ r. r >>= λ a. found_after a seg) allocated ∙ rw has_it (rw known refl))

    prepared-IsOverwritten :
        IsOverwritten e seg
          (prepared seg (record { engine = bound; back_id = e.next_back_segment; created = true }))
    unfolding prepared set_segment_state_atomic Defs.store_fence Region.fence
    prepared-IsOverwritten k small =
        let inside : contains (all_blocks seg) (cell seg k) ≡ true =
          range_lem blocks_per_segment (seg * blocks_per_segment) (cell seg k)
          ∙ ground (arith, small) in
        let place : cell seg k % blocks_per_segment ≡ k = omega (arith, small) in
        back_to_main_lem (all_blocks seg) e.next_back_segment bound (cell seg k)
        ∙ ap
            (λ c.
              if c
              then bound.image.back_memory.view
                  (e.next_back_segment * blocks_per_segment + cell seg k % blocks_per_segment)
              else bound.image.main_memory.view (cell seg k))
            inside
        ∙ ap (λ x. bound.image.back_memory.view (e.next_back_segment * blocks_per_segment + x))
            place
        ∙ ap (λ v. v (cell e.next_back_segment k)) same_back

    -- Before the hybrid engine writes to a segment whose state is SS_Main and that has no back
    -- segment, when the back segment that comes next is not bound, or is bound to a segment that is
    -- not dirty in the epoch, and the lock of the back memory is free, it returns with every block
    -- of the main segment as the block of that back segment was: the data of the checkpoint are
    -- overwritten.
    pub prepare_main-IsOverwritten :
        (get_segment_state e.image seg == ss_main) ≡ true
        → Returns (IsOverwritten e seg) (prepare_main e seg)
    unfolding prepare_main
    prepare_main-IsOverwritten in_main = simp in_main (
        subst (λ r. Returns (IsOverwritten e seg) (r >>= λ f. ok (prepared seg f))) (sym found)
          prepared-IsOverwritten)
