-- ===== src/Image/Commit.antt =====
-- CheckpointImage::commit_segment_state_update: what it achieves, and what a crash inside it leaves.
use libcrpm.Base.{
  ℕ, zero, suc, ◌+◌, ◌-◌, ◌/◌, ◌%◌, ◌<◌, ◌≤◌, ◌≡◌, ◌≢◌, ◌⊎◌, inl, inr, refl, ◌∙◌, ap, true, ◌==◌,
  arith, Bool-cases, ==_refl,
}
use libcrpm.Pm.Word.{Word, May, May-sure}
use libcrpm.Pm.Word
use libcrpm.Pm.Run.{run, AtEachPoint, AtEachPoint-map, AtEachPoint-run}
use libcrpm.Image.Defs.{
  Image, store_fence, bi_epoch, flush_round, copy_round, rounds, lines, next_epoch,
  publish_instructions, flush_instructions, copy_instructions, published,
}
use libcrpm.Image.Crash.{
  IsStable, IsStable-found, HasCopy, StateMedium, LeavesStates, found_state, rounds-keep,
  store_fence-IsStable, flush_round-IsStable, copy_round-IsStable,
}
use libcrpm.Image.Update.{Reaches, Reaches-fence, IsUpdating}

module _ {S : Type 0} where
  pub next_parity : (m : Image S) → next_epoch m % 2 ≡ 1 - bi_epoch m
  next_parity m = omega arith

  -- What a round of the flush keeps.
  pub record Flushes (q : ℕ) (m f : Image S) : Type 0 where
    pub size : f.nr_main_segments ≡ m.nr_main_segments
    pub epoch : f.committed_epoch ≡ m.committed_epoch
    pub marks : (k : ℕ) → f.segment_state_dirty k ≡ m.segment_state_dirty k
    pub values : (bi seg : ℕ) → (f.segment_state bi seg).value ≡ (m.segment_state bi seg).value
    pub reaches : (seg : ℕ) → Reaches (m.segment_state q seg) → Reaches (f.segment_state q seg)

  flush_round-Flushes :
      (q : ℕ) (start : Image S) (k : ℕ) (m : Image S)
      → Flushes q start m
      → Flushes q start (flush_round q k m)
  unfolding flush_round Word.flush
  flush_round-Flushes q start k m h = elim (Bool-cases (m.segment_state_dirty k)) [
    | inr off ↦ rw off h
    | inl on ↦ rw on (record {
      size = h.size;
      epoch = h.epoch;
      marks = h.marks;
      values = λ bi seg. ground (arith, h.values bi seg);
      reaches = λ seg r. rw (==_refl q) (elim (Bool-cases (seg / 64 == k)) [
        | inl here ↦ rw here (inl refl)
        | inr there ↦ rw there (h.reaches seg r)
      ]);
    })
  ]

  flush_round_marks :
      (q k : ℕ) (m : Image S) → (flush_round q k m).segment_state_dirty ≡ m.segment_state_dirty
  unfolding flush_round
  flush_round_marks q k m = elim (Bool-cases (m.segment_state_dirty k)) [
    | inr off ↦ rw off refl
    | inl on ↦ rw on refl
  ]

  -- The round of a marked line flushes its slots, and no later round takes that back.
  Reaches-flush_round :
      (q seg k : ℕ) (m : Image S)
      → Reaches (m.segment_state q seg)
      → Reaches ((flush_round q k m).segment_state q seg)
  unfolding flush_round Word.flush
  Reaches-flush_round q seg k m r = elim (Bool-cases (m.segment_state_dirty k)) [
    | inr off ↦ rw off r
    | inl on ↦
        rw (on, ==_refl q)
          (elim (Bool-cases (seg / 64 == k)) [
            | inl here ↦ rw here (inl refl)
            | inr there ↦ rw there r
          ])
  ]

  flush_round_hit :
      (q seg : ℕ) (m : Image S)
      → m.segment_state_dirty (seg / 64) ≡ true
      → Reaches ((flush_round q (seg / 64) m).segment_state q seg)
  unfolding flush_round Word.flush
  flush_round_hit q seg m on = rw (on, ==_refl q, ==_refl (seg / 64)) (inl refl)

  flushed_line :
      (q seg n k : ℕ) (m : Image S)
      → k ≤ seg / 64
      → seg / 64 < k + n
      → m.segment_state_dirty (seg / 64) ≡ true
      → Reaches ((run (rounds (flush_round q) n k) m).segment_state q seg)
  flushed_line q seg zero k m lo hi on = absurd (omega arith)
  flushed_line q seg (suc n) k m lo hi on = elim (Bool-cases (k == seg / 64)) [
    | inr later ↦
        flushed_line q seg n (k + 1) (flush_round q k m) (ground arith) (omega arith)
          (ap (λ d. d (seg / 64)) (flush_round_marks q k m) ∙ on)
    | inl here ↦
        let at : k ≡ seg / 64 = ground arith in
        AtEachPoint-run (λ g. Reaches (g.segment_state q seg)) (rounds (flush_round q) n (k + 1))
          (flush_round q k m)
          (rounds-keep (λ g. Reaches (g.segment_state q seg)) (flush_round q)
            (λ j g. Reaches-flush_round q seg j g) n (k + 1) (flush_round q k m)
            (rw at (flush_round_hit q seg m on)))
  ]

  module _ (old new : ℕ → ℕ) (m : Image S) (u : IsUpdating old new m) where
    open u use {stable, pending, marked}

    -- The copy that the commit publishes.
    abbrev pub next_copy : ℕ
    next_copy = next_epoch m % 2

    abbrev pub nr : ℕ
    nr = m.nr_main_segments

    abbrev pub flushed : Image S
    flushed = run (flush_instructions m) m

    other_copy : next_copy ≢ bi_epoch m
    other_copy = omega arith

    pub flush_points : AtEachPoint (IsStable nr (bi_epoch m) old) (flush_instructions m) m
    flush_points =
        rounds-keep (IsStable nr (bi_epoch m) old) (flush_round next_copy)
          (λ k g. flush_round-IsStable nr (bi_epoch m) next_copy k old g other_copy) (lines m) 0 m
          stable

    pub flushed-IsStable : IsStable nr (bi_epoch m) old flushed
    flushed-IsStable = AtEachPoint-run _ (flush_instructions m) m flush_points

    pub flushed-Flushes : Flushes next_copy m flushed
    flushed-Flushes = AtEachPoint-run _ (flush_instructions m) m (
        rounds-keep (Flushes next_copy m) (flush_round next_copy)
          (λ k g. flush_round-Flushes next_copy m k g) (lines m) 0 m
          (record {
            size = refl;
            epoch = refl;
            marks = λ k. refl;
            values = λ bi seg. refl;
            reaches = λ seg r. r;
          }))

    flushed-Reaches : (seg : ℕ) → seg < nr → Reaches (flushed.segment_state next_copy seg)
    flushed-Reaches seg lt = elim (marked seg lt) [
      | inl on ↦ flushed_line next_copy seg (lines m) 0 m (omega arith) (omega arith) on
      | inr (reaches, agrees) ↦ flushed-Flushes.reaches seg (rw (next_parity m) reaches)
    ]

    fenced-HasCopy : HasCopy nr next_copy new (store_fence flushed)
    unfolding store_fence
    fenced-HasCopy seg lt = (
      unfold Word.fence in
          flushed-Flushes.values next_copy seg ∙ rw (next_parity m) (pending seg lt),
      Reaches-fence (flushed.segment_state next_copy seg) (flushed-Reaches seg lt),
    )

    pub published-IsStable : IsStable nr next_copy new (published m)
    unfolding published store_fence Word.fence Word.nt_store
    published-IsStable = record { epoch = refl; epoch_sure = refl; copy = fenced-HasCopy }

    -- The states of before the update, or those of after it, of all segments together.
    abbrev pub IsEither : Image S → Type 0
    IsEither g =
        (f : StateMedium)
        → LeavesStates g f
        → ((seg : ℕ) → seg < nr → found_state f seg ≡ old seg)
          ⊎ ((seg : ℕ) → seg < nr → found_state f seg ≡ new seg)

    old-IsEither : (g : Image S) → IsStable nr (bi_epoch m) old g → IsEither g
    old-IsEither g s f left = inl (IsStable-found nr (bi_epoch m) old g s f left)

    new-IsEither : (g : Image S) → IsStable nr next_copy new g → IsEither g
    new-IsEither g s f left = inr (IsStable-found nr next_copy new g s f left)

    -- While the new epoch is on its way, both copies are on the medium.
    between_epochs :
        (g : Image S)
        → IsStable nr (bi_epoch m) old g
        → HasCopy nr next_copy new g
        → IsEither (record g { committed_epoch = Word.nt_store g.committed_epoch (next_epoch m) })
    unfolding Word.nt_store
    between_epochs g s has f left = elim left.committed_epoch [
      | inl here ↦ inr (λ seg lt. rw here (
          May-sure (g.segment_state next_copy seg) (f.segment_state next_copy seg) (has seg lt).1
            (left.segment_state next_copy seg)
          ∙ (has seg lt).0))
      | inr before ↦ inl (
          IsStable-found nr (bi_epoch m) old g s f
            (record { committed_epoch = before; segment_state = left.segment_state }))
    ]

    publish_points : AtEachPoint IsEither (publish_instructions (next_epoch m)) flushed
    publish_points = (
      old-IsEither flushed flushed-IsStable,
      (
        old-IsEither (store_fence flushed)
            (store_fence-IsStable nr (bi_epoch m) old flushed flushed-IsStable),
        (
          between_epochs (store_fence flushed)
              (store_fence-IsStable nr (bi_epoch m) old flushed flushed-IsStable) fenced-HasCopy,
          new-IsEither _ (unfold published in published-IsStable),
        ),
      ),
    )

    pub copy_points : AtEachPoint (IsStable nr next_copy new) (copy_instructions m) (published m)
    copy_points =
        rounds-keep (IsStable nr next_copy new) (copy_round next_copy)
          (λ k g. copy_round-IsStable nr next_copy k new g) (lines m) 0 (published m)
          published-IsStable

    -- A commit of an image with committed and pending states may be cut by a crash before, between
    -- or after the rounds of its first loop, the instructions that publish the epoch, and the
    -- rounds of its second loop: the file then holds the committed states of all segments or the
    -- pending states of all segments.
    pub commit_states-crash_safe :
        AtEachPoint IsEither (flush_instructions m) m
        × AtEachPoint IsEither (publish_instructions (next_epoch m)) flushed
        × AtEachPoint IsEither (copy_instructions m) (published m)
    commit_states-crash_safe = (
      AtEachPoint-map old-IsEither (flush_instructions m) m flush_points,
      publish_points,
      AtEachPoint-map new-IsEither (copy_instructions m) (published m) copy_points,
    )
