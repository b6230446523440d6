-- ===== src/Nvm/CrashSafety.antt =====
-- The write-back of a segment by NvmInstEngine::lazy_write_back, cut by a crash at any point.
use libcrpm.Base.{
  ℕ, ◌<◌, ◌≡◌, ◌≢◌, ◌⊎◌, inl, inr, sym, ◌∙◌, ap, subst, Bool, true, false, List, ◌∷◌, update,
  contains, arith, Bool-cases,
}
use libcrpm.Constants.{null_segment_index, blocks_per_segment}
use libcrpm.Pm.Word
use libcrpm.Pm.Word.{Word}
use libcrpm.Pm.Region
use libcrpm.Pm.Region.{Region, clean, flushing, settled}
use libcrpm.Pm.Run.{
  run, AtEachPoint, AtEachPoint-map, AtEachPoint-run, AtEachPoint-keep, AtEachPoint-both,
  AtEachPoint-append, run-append,
}
use libcrpm.Image.Defs.{Image, ss_back, bi_epoch, atomic_instructions, set_segment_state_atomic}
use libcrpm.Image.Defs
use libcrpm.Image.Update.{IsUpdating}
use libcrpm.Image.Atomic.{IsEither, atomic-crash_safe, atomic-IsUpdating}
use libcrpm.Nvm.Defs.{cell}
use libcrpm.Nvm.WriteBack.{copy_blocks, write_back_instructions}
use libcrpm.Nvm.Protection.{Snapshot, IsPromised, Holds, Covers, Covers-IsRestored}
use libcrpm.Nvm.Covering.{
  IsSafe, IsUpdating-IsSafe, IsUpdating-memory, IsUpdating-fence, Covers-fence, Covers-states,
  copy-Covers, new-Covers,
}
use libcrpm.Nvm.Copying.{AreIn, IsCopy, copies-IsCopy, same-IsCopy, copies-HasCopied}

module _ {B : Type 0} where
  module _ (s : Snapshot B) (is_dirty : ℕ → Bool) (old : ℕ → ℕ) (seg back : ℕ)
      (idle : is_dirty seg ≡ false) (not_back : old seg ≢ ss_back) (m : Image B) (bs : List ℕ)
      (u : IsUpdating old old m) (c : Covers s is_dirty old m) (in_range : seg < s.nr_main)
      (mine : m.main_to_back seg ≡ back) (some : back ≢ null_segment_index) (within : AreIn seg bs)
      (filled : (k : ℕ)
        → IsPromised s seg k
        → (contains bs (cell seg k) ≡ true)
          ⊎ Holds m.back_memory (cell back k) (s.content (cell seg k))) where
    owner : (back < s.nr_back) × ((m.back_to_main back).value ≡ seg)
    owner =
        let h = c.bound.forward seg back (rw c.main_size in_range) mine some in
        (rw c.back_size at h.0, h.1)

    points : AtEachPoint (IsCopy m back) (copy_blocks back seg bs) m
    points = copies-IsCopy m back seg bs m within (same-IsCopy m back seg)

    IsCopy-Covers : (f : Image B) → IsCopy m back f → IsUpdating old old f × Covers s is_dirty old f
    IsCopy-Covers f copy =
        subst (λ g. IsUpdating old old g × Covers s is_dirty old g) (sym copy.same)
          (
            IsUpdating-memory old old m copy.memory u,
            copy-Covers s is_dirty old seg back idle not_back m copy.memory c owner.1 owner.0
                copy.elsewhere,
          )

    abbrev copied : Image B
    copied = run (copy_blocks back seg bs) m

    copied-IsCopy : IsCopy m back copied
    copied-IsCopy = AtEachPoint-run (IsCopy m back) (copy_blocks back seg bs) m points

    abbrev fenced : Image B
    fenced = Defs.store_fence copied

    fenced-IsUpdating : IsUpdating old old fenced
    fenced-IsUpdating = IsUpdating-fence old old copied (IsCopy-Covers copied copied-IsCopy).0

    fenced-Covers : Covers s is_dirty old fenced
    fenced-Covers = Covers-fence s is_dirty old copied (IsCopy-Covers copied copied-IsCopy).1

    copied_main : copied.main_memory ≡ m.main_memory
    copied_main = ap (λ (g : Image B). g.main_memory) copied-IsCopy.same

    copied_mine : copied.main_to_back seg ≡ back
    copied_mine = ap (λ (g : Image B). g.main_to_back seg) copied-IsCopy.same ∙ mine

    fenced_mine : fenced.main_to_back seg ≡ back
    unfolding Defs.store_fence
    fenced_mine = copied_mine

    -- The copies are on the medium.
    fenced_full :
        (k : ℕ)
        → IsPromised s seg k
        → Holds fenced.back_memory (cell back k) (s.content (cell seg k))
    unfolding Defs.store_fence Region.fence
    fenced_full k p =
        let h = copies-HasCopied back seg bs m within in
        let main = c.main_kept seg k p idle in
        elim (Bool-cases (contains bs (cell seg k))) [
          | inl now ↦ ((h.copied k p.1 now).0 ∙ main.0, ground (arith, (h.copied k p.1 now).1))
          | inr before ↦ elim (filled k p) [
            | inl now ↦ absurd (cc)
            | inr old_copy ↦ (
              (h.others k p.1 before).0 ∙ old_copy.0,
              ground (arith, (h.others k p.1 before).1, old_copy.1),
            )
          ]
        ]

    fenced_bi : bi_epoch fenced ≡ bi_epoch m
    unfolding Defs.store_fence Word.fence
    fenced_bi = ap (λ (g : Image B). bi_epoch g) copied-IsCopy.same

    abbrev CoversBoth : Image B → Type 0
    CoversBoth g = Covers s is_dirty old g × Covers s is_dirty (update old seg ss_back) g

    fenced-CoversBoth : CoversBoth fenced
    fenced-CoversBoth = (
      fenced-Covers,
      new-Covers s is_dirty old seg back idle not_back fenced fenced-Covers fenced_mine fenced_full,
    )

    states-CoversBoth :
        (g : Image B) (ws : ℕ → ℕ → Word)
        → CoversBoth g
        → CoversBoth (record g { segment_state = ws })
    states-CoversBoth g ws h = (
      Covers-states s is_dirty old g ws h.0,
      Covers-states s is_dirty (update old seg ss_back) g ws h.1,
    )

    atomic_points :
        AtEachPoint CoversBoth (atomic_instructions (bi_epoch fenced) seg ss_back) fenced
    atomic_points =
        AtEachPoint-keep CoversBoth (atomic_instructions (bi_epoch fenced) seg ss_back) fenced
          (
            λ g h. states-CoversBoth g _ h,
            (
              λ g h. states-CoversBoth g _ h,
              (
                λ g h. (
                  Covers-fence s is_dirty old g h.0,
                  Covers-fence s is_dirty (update old seg ss_back) g h.1,
                ),
                (λ g h. states-CoversBoth g _ h, (λ g h. states-CoversBoth g _ h, tt)),
              ),
            ),
          )
          fenced-CoversBoth

    fenced_in_range : seg < fenced.nr_main_segments
    fenced_in_range = rw fenced-Covers.main_size in_range

    either-IsSafe :
        (g : Image B)
        → IsEither old old fenced fenced-IsUpdating seg ss_back fenced_in_range g × CoversBoth g
        → IsSafe s g
    either-IsSafe g h d left = elim (h.0 d.states left.states) [
      | inl before ↦
          Covers-IsRestored s is_dirty old g d h.1.0 left
            (λ i lt. before i (rw fenced-Covers.main_size lt))
      | inr after ↦
          Covers-IsRestored s is_dirty (update old seg ss_back) g d h.1.1 left
            (λ i lt. after i (rw fenced-Covers.main_size lt))
    ]

    atomic-IsSafe :
        AtEachPoint (IsSafe s) (atomic_instructions (bi_epoch fenced) seg ss_back) fenced
    atomic-IsSafe =
        AtEachPoint-map either-IsSafe (atomic_instructions (bi_epoch fenced) seg ss_back) fenced (
          AtEachPoint-both (IsEither old old fenced fenced-IsUpdating seg ss_back fenced_in_range)
            CoversBoth (atomic_instructions (bi_epoch fenced) seg ss_back) fenced
            (atomic-crash_safe old old fenced fenced-IsUpdating seg ss_back fenced_in_range)
            atomic_points)

    -- At each point of the write-back a crash leaves the checkpoint.
    pub write_back-IsSafe :
        AtEachPoint (IsSafe s) (write_back_instructions (bi_epoch m) back seg bs) m
    write_back-IsSafe =
        AtEachPoint-append (IsSafe s) (copy_blocks back seg bs)
          (Defs.store_fence ∷ atomic_instructions (bi_epoch m) seg ss_back) m
          (AtEachPoint-map
            (λ f copy.
              IsUpdating-IsSafe s is_dirty old old f (IsCopy-Covers f copy).0
                (IsCopy-Covers f copy).1)
            (copy_blocks back seg bs) m points)
          (
            IsUpdating-IsSafe s is_dirty old old copied (IsCopy-Covers copied copied-IsCopy).0
                (IsCopy-Covers copied copied-IsCopy).1,
            subst (λ bi. AtEachPoint (IsSafe s) (atomic_instructions bi seg ss_back) fenced)
                fenced_bi atomic-IsSafe,
          )

    abbrev written : Image B
    written = run (write_back_instructions (bi_epoch m) back seg bs) m

    written_lem : set_segment_state_atomic fenced seg ss_back ≡ written
    unfolding set_segment_state_atomic
    written_lem =
        ap (λ bi. run (atomic_instructions bi seg ss_back) fenced) fenced_bi
        ∙ sym (
            run-append (copy_blocks back seg bs)
              (Defs.store_fence ∷ atomic_instructions (bi_epoch m) seg ss_back) m)

    -- After it, the back segment is what a restart takes.
    pub written-Covers :
        IsUpdating (update old seg ss_back) (update old seg ss_back) written
        × Covers s is_dirty (update old seg ss_back) written
    unfolding set_segment_state_atomic
    written-Covers =
        subst
          (λ g.
            IsUpdating (update old seg ss_back) (update old seg ss_back) g
            × Covers s is_dirty (update old seg ss_back) g)
          written_lem
          (
            atomic-IsUpdating old old fenced fenced-IsUpdating seg ss_back,
            (AtEachPoint-run CoversBoth (atomic_instructions (bi_epoch fenced) seg ss_back) fenced
                atomic_points).1,
          )

    fenced_main : (x : ℕ) → fenced.main_memory.view x ≡ m.main_memory.view x
    unfolding Defs.store_fence Region.fence
    fenced_main x = ap (λ (r : Region B). r.view x) copied_main

    fenced_table : (i : ℕ) → fenced.main_to_back i ≡ m.main_to_back i
    unfolding Defs.store_fence
    fenced_table i = ap (λ (g : Image B). g.main_to_back i) copied-IsCopy.same

    fenced_other :
        (b k : ℕ) (v : B)
        → b ≢ back
        → k < blocks_per_segment
        → Holds m.back_memory (cell b k) v
        → Holds fenced.back_memory (cell b k) v
    unfolding Defs.store_fence Region.fence
    fenced_other b k v ne lt h =
        let e = copied-IsCopy.elsewhere b k ne lt in
        let same = ap (λ (g : Image B). g.back_memory) copied-IsCopy.same in
        (
          ap (λ (r : Region B). r.view (cell b k)) same ∙ e.0 ∙ h.0,
          ap (λ (r : Region B). settled (r.status (cell b k))) same ∙ ap settled (e.1 ∙ h.1),
        )

    -- What the write-back does to the contents.
    pub record IsWritten (g : Image B) : Type 0 where
      pub main : (x : ℕ) → g.main_memory.view x ≡ m.main_memory.view x
      pub table : (i : ℕ) → g.main_to_back i ≡ m.main_to_back i
      pub own :
          (k : ℕ) → IsPromised s seg k → Holds g.back_memory (cell back k) (s.content (cell seg k))
      pub other :
          (b k : ℕ) (v : B)
          → b ≢ back
          → k < blocks_per_segment
          → Holds m.back_memory (cell b k) v
          → Holds g.back_memory (cell b k) v

    pub written-IsWritten : IsWritten written
    written-IsWritten = subst IsWritten written_lem (record {
      main = unfold set_segment_state_atomic Defs.store_fence Region.fence in fenced_main;
      table = unfold set_segment_state_atomic Defs.store_fence in fenced_table;
      own =
          unfold set_segment_state_atomic Defs.store_fence Region.fence in
          λ k p. ((fenced_full k p).0, ap settled (fenced_full k p).1);
      other =
          unfold set_segment_state_atomic Defs.store_fence Region.fence in
          λ b k v ne lt h.
            ((fenced_other b k v ne lt h).0, ap settled (fenced_other b k v ne lt h).1);
    })
