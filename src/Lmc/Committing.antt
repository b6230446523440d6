-- ===== src/Lmc/Committing.antt =====
-- The commit of LmcEngine, the advance of its epoch: a crash inside it.
use libcrpm.Base.{
  ℕ, ◌+◌, ◌<◌, ◌≤◌, ◌≡◌, Bool, true, false, [], ◌==◌, if◌then◌else◌, ltb, ◌&&◌, not, ◌⊎◌, inl, inr,
  refl, ap, subst, sym, ◌∷◌, arith, Bool-cases,
}
use libcrpm.Pm.Word.{Word, May}
use libcrpm.Pm.Word
use libcrpm.Pm.Region.{Region, clean, Survives}
use libcrpm.Pm.Region
use libcrpm.Pm.Run.{AtEachPoint, AtSomePoint}
use libcrpm.Lmc.Defs.{
  LmcEngine, store_fence, epoch_instructions, reset_tags, flush_tags, last_epoch,
  advance_instructions,
}
use libcrpm.Lmc.Recover.{Medium}
use libcrpm.Lmc.Safety.{Leaves, restored, Covers, Covers-IsSafe, fence-May}

module _ {B : Type 0} where
  -- A crash leaves one of two contents, as a whole.
  abbrev pub IsEither : (ℕ → B) → (ℕ → B) → LmcEngine B → Type 0
  IsEither s w e =
      (d : Medium B)
      → Leaves e d
      → ((i : ℕ) → i < e.nr_blocks → restored d i ≡ s i)
        ⊎ ((i : ℕ) → i < e.nr_blocks → restored d i ≡ w i)

  module _ (s : ℕ → B) (e : LmcEngine B) (c : Covers s e)
      (written : (i : ℕ) → i < e.nr_blocks → e.working.status i ≡ clean)
      (sure : (i : ℕ) → i < e.nr_blocks → (e.tagmap i).older ≡ [])
      (tags : (i : ℕ) → i < e.nr_blocks → (e.tagmap i).value ≤ e.current_epoch.value) where
    abbrev next : ℕ
    next = e.current_epoch.value + 1

    -- With the next epoch, no block has its tag.
    new_epoch :
        (d : Medium B)
        → ((i : ℕ) → May (e.tagmap i) (d.tagmap i))
        → Survives e.working d.working
        → d.current_epoch ≡ next
        → (i : ℕ) → i < e.nr_blocks
        → restored d i ≡ e.working.view i
    new_epoch d tagged working epoch i lt =
        let tag : d.tagmap i ≡ (e.tagmap i).value =
          Word.May-sure (e.tagmap i) (d.tagmap i) (sure i lt) (tagged i) in
        let other : (d.tagmap i == d.current_epoch) ≡ false =
          ground (arith, tag, epoch, tags i lt) in
        simp other (working i (written i lt))

    old_epoch :
        (d : Medium B)
        → d.nr_blocks ≡ e.nr_blocks
        → ((i : ℕ) → May (e.tagmap i) (d.tagmap i))
        → Survives e.working d.working
        → Survives e.shadow d.shadow
        → d.current_epoch ≡ e.current_epoch.value
        → (i : ℕ) → i < e.nr_blocks
        → restored d i ≡ s i
    old_epoch d size tagged working shadow epoch = Covers-IsSafe s e c d (record {
      nr_blocks = size;
      current_epoch = inl epoch;
      tagmap = tagged;
      working = working;
      shadow = shadow;
    })

    -- Either epoch decides.
    either :
        (d : Medium B)
        → d.nr_blocks ≡ e.nr_blocks
        → ((i : ℕ) → May (e.tagmap i) (d.tagmap i))
        → Survives e.working d.working
        → Survives e.shadow d.shadow
        → May (Word.store e.current_epoch next) d.current_epoch
        → ((i : ℕ) → i < e.nr_blocks → restored d i ≡ s i)
          ⊎ ((i : ℕ) → i < e.nr_blocks → restored d i ≡ e.working.view i)
    unfolding Word.store
    either d size tagged working shadow (inl now) = inr (new_epoch d tagged working now)
    either d size tagged working shadow (inr (inl old)) =
        inl (old_epoch d size tagged working shadow old)
    either d size tagged working shadow (inr (inr older)) =
        absurd (subst (λ vs. Word.Among d.current_epoch vs) c.epoch_sure older)

    fence_view :
        (r : Region B) (m : ℕ → B)
        → Survives (Region.fence r) m
        → (i : ℕ) → r.status i ≡ clean
        → m i ≡ r.view i
    unfolding Region.fence
    fence_view r m h i on = h i (ap Region.settled on)

    -- The instructions that store the next epoch.
    next_points : AtEachPoint (IsEither s e.working.view) (epoch_instructions next) e
    unfolding Word.flush store_fence
    next_points = (
      (λ d left. inl (Covers-IsSafe s e c d left)),
      (
        (λ d left. either d left.nr_blocks left.tagmap left.working left.shadow left.current_epoch),
        (
          (λ d left.
              either d left.nr_blocks left.tagmap left.working left.shadow left.current_epoch),
          (λ d left.
              either d left.nr_blocks (λ i. fence-May (e.tagmap i) (d.tagmap i) (left.tagmap i))
                (λ i h. fence_view e.working d.working left.working i h)
                (λ i h. fence_view e.shadow d.shadow left.shadow i h)
                (fence-May _ d.current_epoch left.current_epoch)),
        ),
      ),
    )

    -- From such an LMC engine, at an epoch below 255, once the working blocks are on the medium and
    -- with tags that are sure and not above the epoch, a crash anywhere in the instructions that
    -- advance the epoch leaves either the last checkpoint or the working state, as a whole.
    pub advance-crash_safe :
        e.current_epoch.value < last_epoch
        → AtEachPoint (IsEither s e.working.view) (advance_instructions e.current_epoch.value) e
    advance-crash_safe before =
        let more : (e.current_epoch.value == last_epoch) ≡ false = ground (arith, before) in
        subst
          (λ c.
            AtEachPoint (IsEither s e.working.view)
              (if c
                then reset_tags ∷ flush_tags ∷ store_fence ∷ epoch_instructions 1
                else epoch_instructions next)
              e)
          (sym more) next_points

  -- A crash while the tags are reset: the blocks of `torn` have lost their tag.
  abbrev pub torn_medium : LmcEngine B → (ℕ → Bool) → Medium B
  torn_medium e torn = record {
    nr_blocks = e.nr_blocks;
    attributes = e.attributes.value;
    current_epoch = e.current_epoch.value;
    tagmap = λ i. if torn i && ltb i e.nr_blocks then 0 else (e.tagmap i).value;
    working = e.working.view;
    shadow = e.shadow.view;
  }

  tag_left :
      (e : LmcEngine B) (torn : ℕ → Bool) (i : ℕ)
      → May ((flush_tags (reset_tags e)).tagmap i) ((torn_medium e torn).tagmap i)
  unfolding flush_tags reset_tags Word.flush Word.store
  tag_left e torn i = elim (Bool-cases (ltb i e.nr_blocks)) [
    | inr beyond ↦ rw beyond (elim (Bool-cases (torn i)) [
      | inl gone ↦ rw gone (inl refl)
      | inr there ↦ rw there (inl refl)
    ])
    | inl inside ↦ rw inside (elim (Bool-cases (torn i)) [
      | inl gone ↦ rw gone (inl refl)
      | inr there ↦ rw there (inr (inl refl))
    ])
  ]

  wraps :
      (e : LmcEngine B)
      → e.current_epoch.value ≡ last_epoch
      → (e.current_epoch.value == last_epoch) ≡ true
  wraps e last = ground (arith, last)

  -- At epoch 255, at some point of the instructions that advance the epoch a crash may leave, for
  -- any set of blocks, a file in which these have lost their tag and the others have not: among the
  -- blocks that had the tag of the epoch, the recovery takes the working state of the former and
  -- the shadow of the latter.
  pub advance-IsTorn :
      (e : LmcEngine B) (torn : ℕ → Bool)
      → e.current_epoch.value ≡ last_epoch
      → AtSomePoint
          (λ g. Leaves g (torn_medium e torn))
          (advance_instructions e.current_epoch.value)
          e
        × ((i : ℕ)
            → i < e.nr_blocks
            → (e.tagmap i).value ≡ last_epoch
            → restored (torn_medium e torn) i
              ≡ (if torn i then e.working.view i else e.shadow.view i))
  unfolding flush_tags reset_tags
  advance-IsTorn e torn last = (
    subst
        (λ c.
          AtSomePoint (λ g. Leaves g (torn_medium e torn))
            (if c
              then reset_tags ∷ flush_tags ∷ store_fence ∷ epoch_instructions 1
              else epoch_instructions (e.current_epoch.value + 1))
            e)
        (sym (wraps e last))
        (inr (
          inr (
            inl (record {
              nr_blocks = refl;
              current_epoch = inl refl;
              tagmap = λ i. tag_left e torn i;
              working = λ i h. refl;
              shadow = λ i h. refl;
            })))),
    λ i lt tagged.
        let reset : (if torn i && ltb i e.nr_blocks then 0 else (e.tagmap i).value)
              == e.current_epoch.value
            ≡ not (torn i) =
          ground (arith, last, tagged, lt) in
        simp reset
          (elim (Bool-cases (torn i)) [ inl gone ↦ simp gone refl | inr there ↦ simp there refl ]),
  )
