-- ===== src/Image/Committed.antt =====
-- What CheckpointImage::commit_segment_state_update achieves, and runs of updates against the states
-- that they promise.
use libcrpm.Base.{
  ℕ, zero, suc, ◌+◌, ◌-◌, ◌/◌, ◌%◌, ◌<◌, ◌≤◌, ◌≡◌, ◌⊎◌, inl, inr, refl, ◌∙◌, true, false, [], ◌==◌,
  arith, Bool-cases, ==_refl,
}
use libcrpm.Pm.Word.{Word, May, May-sure}
use libcrpm.Pm.Word
use libcrpm.Pm.Run.{run, AtEachPoint-run}
use libcrpm.Image.Defs.{
  Image, store_fence, bi_epoch, copy_round, rounds, lines, next_epoch, copy_instructions, published,
  commit_segment_state_update,
}
use libcrpm.Image.Crash.{IsStable, rounds-keep}
use libcrpm.Image.Update.{Reaches, Reaches-fence, IsUpdating}
use libcrpm.Image.Commit.{
  flushed-Flushes, flushed, flushed-IsStable, published-IsStable, copy_points, next_copy,
}

module _ {S : Type 0} where
  -- The mark of a line is cleared in its round, and no later round sets it.
  copy_round_unmarked :
      (bi l k : ℕ) (m : Image S)
      → m.segment_state_dirty l ≡ false
      → (copy_round bi k m).segment_state_dirty l ≡ false
  unfolding copy_round
  copy_round_unmarked bi l k m off = ground arith

  copy_round_clears : (bi k : ℕ) (m : Image S) → (copy_round bi k m).segment_state_dirty k ≡ false
  unfolding copy_round
  copy_round_clears bi k m = ground arith

  copied_unmarked :
      (bi l n k : ℕ) (m : Image S)
      → k ≤ l
      → l < k + n
      → (run (rounds (copy_round bi) n k) m).segment_state_dirty l ≡ false
  copied_unmarked bi l zero k m lo hi = absurd (omega arith)
  copied_unmarked bi l (suc n) k m lo hi = elim (Bool-cases (k == l)) [
    | inr later ↦ copied_unmarked bi l n (k + 1) (copy_round bi k m) (ground arith) (omega arith)
    | inl here ↦
        let at : k ≡ l = ground arith in
        AtEachPoint-run (λ g. g.segment_state_dirty l ≡ false) (rounds (copy_round bi) n (k + 1))
          (copy_round bi k m)
          (rounds-keep (λ g. g.segment_state_dirty l ≡ false) (copy_round bi)
            (λ j g. copy_round_unmarked bi l j g) n (k + 1) (copy_round bi k m)
            (rw at (copy_round_clears bi l m)))
  ]

  -- In the second loop the slots of the lines that are not marked agree with the new states.
  record IsCopying (bi nr : ℕ) (new : ℕ → ℕ) (m : Image S) : Type 0 where
    size : m.nr_main_segments ≡ nr
    copy : (seg : ℕ) → seg < nr → (m.segment_state bi seg).value ≡ new seg
    slots :
        (seg : ℕ)
        → seg < nr
        → (m.segment_state_dirty (seg / 64) ≡ true)
          ⊎ (((m.segment_state (1 - bi) seg).value ≡ new seg)
              × Reaches (m.segment_state (1 - bi) seg))

  copy_round-IsCopying :
      (bi nr : ℕ) (new : ℕ → ℕ) (k : ℕ) (m : Image S)
      → IsCopying bi nr new m
      → IsCopying bi nr new (copy_round bi k m)
  unfolding copy_round Word.nt_store
  copy_round-IsCopying bi nr new k m c = elim (Bool-cases (m.segment_state_dirty k)) [
    | inr off ↦ rw off c
    | inl on ↦ rw on (record {
      size = c.size;
      copy = λ seg lt. ground (arith, c.copy seg lt);
      slots = λ seg lt. elim (Bool-cases (seg / 64 == k)) [
        | inl here ↦
            inr
              (rw (==_refl (1 - bi), here) (c.copy seg lt), rw (==_refl (1 - bi), here) (inl refl))
        | inr there ↦
            let not_cleared : (k == seg / 64) ≡ false = ground arith in
            rw (not_cleared, ==_refl (1 - bi), there) (c.slots seg lt)
      ];
    })
  ]

  module _ (old new : ℕ → ℕ) (m : Image S) (u : IsUpdating old new m) where
    open u use {stable, pending, marked}

    was_current : 1 - next_epoch m % 2 ≡ bi_epoch m
    was_current = omega arith

    -- A slot that was on the medium is on the medium after the two fences.
    twice_fenced : (w : Word) → w.older ≡ [] → (Word.fence (Word.fence w)).older ≡ []
    twice_fenced w sure = Reaches-fence (Word.fence w) (inr (Reaches-fence w (inr sure)))

    published-IsCopying : IsCopying (next_copy old new m u) m.nr_main_segments new (published m)
    published-IsCopying = record {
      size = unfold published store_fence in (flushed-Flushes old new m u).size;
      copy = λ seg lt. ((published-IsStable old new m u).copy seg lt).0;
      slots =
          unfold published store_fence in
          λ seg lt. elim (marked seg lt) [
            | inl on ↦ inl ((flushed-Flushes old new m u).marks (seg / 64) ∙ on)
            | inr (reaches, agrees) ↦ rw was_current (
                inr (
                  unfold Word.fence in
                      (flushed-Flushes old new m u).values (bi_epoch m) seg
                      ∙ (stable.copy seg lt).0
                      ∙ agrees,
                  inr (
                      twice_fenced ((flushed old new m u).segment_state (bi_epoch m) seg)
                        ((flushed-IsStable old new m u).copy seg lt).1),
                ))
          ];
    }

    abbrev copied : Image S
    copied = run (copy_instructions m) (published m)

    copied-IsStable : IsStable m.nr_main_segments (next_copy old new m u) new copied
    copied-IsStable =
        AtEachPoint-run _ (copy_instructions m) (published m) (copy_points old new m u)

    copied-IsCopying : IsCopying (next_copy old new m u) m.nr_main_segments new copied
    copied-IsCopying = AtEachPoint-run _ (copy_instructions m) (published m) (
        rounds-keep (IsCopying (next_copy old new m u) m.nr_main_segments new)
          (copy_round (next_copy old new m u))
          (λ k g. copy_round-IsCopying (next_copy old new m u) m.nr_main_segments new k g) (lines m)
          0 (published m) published-IsCopying)

    -- No line is marked any more.
    copied_slots :
        (seg : ℕ)
        → seg < m.nr_main_segments
        → ((copied.segment_state (1 - next_copy old new m u) seg).value ≡ new seg)
          × Reaches (copied.segment_state (1 - next_copy old new m u) seg)
    copied_slots seg lt = elim (copied-IsCopying.slots seg lt) [
      | inl on ↦
          let off =
            copied_unmarked (next_copy old new m u) (seg / 64) (lines m) 0 (published m)
              (omega arith) (omega arith) in
          absurd (cc)
      | inr same ↦ same
    ]

    -- A commit makes the pending states of an image the committed ones, in both copies, and does
    -- not change the number of segments.
    pub commit-IsUpdating :
        IsUpdating new new (commit_segment_state_update m)
        × ((commit_segment_state_update m).nr_main_segments ≡ m.nr_main_segments)
    unfolding commit_segment_state_update
    commit-IsUpdating = (
      record {
        stable =
            rw (copied-IsCopying.size, copied-IsStable.epoch)
              (record {
                epoch = copied-IsStable.epoch;
                epoch_sure = copied-IsStable.epoch_sure;
                copy = copied-IsStable.copy;
              });
        pending =
            rw (copied-IsCopying.size, copied-IsStable.epoch) (λ seg lt. (copied_slots seg lt).0);
        marked =
            rw (copied-IsCopying.size, copied-IsStable.epoch)
              (λ seg lt. inr ((copied_slots seg lt).1, refl));
      },
      copied-IsCopying.size,
    )
