-- ===== src/Lmc/Safety.antt =====
-- What a crash leaves of LmcEngine, and when it leaves the last checkpoint; a crash inside the hook.
use libcrpm.Base.{
  ℕ, ◌<◌, ◌≡◌, true, false, [], ◌==◌, if◌then◌else◌, inl, inr, refl, ap, subst, sym, ◌∙◌, arith,
  Bool-cases, ==_refl,
}
use libcrpm.Pm.Word.{Word, May}
use libcrpm.Pm.Word
use libcrpm.Pm.Region.{Region, clean, Survives}
use libcrpm.Pm.Region
use libcrpm.Pm.WordArray.{store_at, flush_at}
use libcrpm.Pm.Run.{AtEachPoint, AtEachPoint-map}
use libcrpm.Nvm.Protection.{Holds}
use libcrpm.Nvm.Covering.{==_eq}
use libcrpm.Lmc.Defs.{LmcEngine, store_fence}
use libcrpm.Lmc.Hook.{shadow_instructions}
use libcrpm.Lmc.Recover.{Medium}

pub fence-May : (w : Word) (t : ℕ) → May (Word.fence w) t → May w t
unfolding Word.fence
fence-May w t (inl here) = inl here
fence-May w t (inr there) = elim (Bool-cases w.in_flight) [
  | inl flown ↦ absurd (subst (λ c. Word.Among t (if c then [] else w.older)) flown there)
  | inr kept ↦ inr (subst (λ c. Word.Among t (if c then [] else w.older)) kept there)
]

pub fence-sure : (w : Word) → w.older ≡ [] → (Word.fence w).older ≡ []
unfolding Word.fence
fence-sure w sure = elim (Bool-cases w.in_flight) [
  | inl flown ↦ rw flown refl
  | inr kept ↦ rw kept sure
]

flush_at-May : (ws : ℕ → Word) (b i t : ℕ) → May (flush_at ws b i) t → May (ws i) t
unfolding Word.flush
flush_at-May ws b i t m = elim (Bool-cases (b == i)) [
  | inl here ↦ subst (λ x. May (ws x) t) (==_eq b i here) (rw here at m)
  | inr there ↦ rw there at m
]

module _ {B : Type 0} where
  pub record Leaves (e : LmcEngine B) (d : Medium B) : Type 0 where
    pub nr_blocks : d.nr_blocks ≡ e.nr_blocks
    pub current_epoch : May e.current_epoch d.current_epoch
    pub tagmap : (i : ℕ) → May (e.tagmap i) (d.tagmap i)
    pub working : Survives e.working d.working
    pub shadow : Survives e.shadow d.shadow

  -- What a recovery takes: the shadow of a block that has the tag of the epoch, and else the working state.
  abbrev pub restored : Medium B → ℕ → B
  restored d i = if d.tagmap i == d.current_epoch then d.shadow i else d.working i

  abbrev pub IsSafe : (ℕ → B) → LmcEngine B → Type 0
  IsSafe s e = (d : Medium B) → Leaves e d → (i : ℕ) → i < e.nr_blocks → restored d i ≡ s i

  -- Whichever of its tags a block has after a crash, what that tag says to take is on the medium.
  pub record Covers (s : ℕ → B) (e : LmcEngine B) : Type 0 where
    pub epoch_sure : e.current_epoch.older ≡ []
    pub logged :
        (i t : ℕ)
        → i < e.nr_blocks
        → May (e.tagmap i) t
        → (t == e.current_epoch.value) ≡ true
        → Holds e.shadow i (s i)
    pub kept :
        (i t : ℕ)
        → i < e.nr_blocks
        → May (e.tagmap i) t
        → (t == e.current_epoch.value) ≡ false
        → Holds e.working i (s i)

  pub Covers-IsSafe : (s : ℕ → B) (e : LmcEngine B) → Covers s e → IsSafe s e
  Covers-IsSafe s e c d left i lt =
      let epoch : d.current_epoch ≡ e.current_epoch.value =
        Word.May-sure e.current_epoch d.current_epoch c.epoch_sure left.current_epoch in
      elim (Bool-cases (d.tagmap i == d.current_epoch)) [
        | inl tagged ↦
            let h = c.logged i (d.tagmap i) lt (left.tagmap i) (rw (sym epoch) tagged) in
            simp tagged (left.shadow i h.1 ∙ h.0)
        | inr other ↦
            let h = c.kept i (d.tagmap i) lt (left.tagmap i) (rw (sym epoch) other) in
            simp other (left.working i h.1 ∙ h.0)
      ]

  pub fence-Holds : (r : Region B) (x : ℕ) (v : B) → Holds r x v → Holds (Region.fence r) x v
  unfolding Region.fence
  fence-Holds r x v h = (h.0, ap Region.settled h.1)

  fence-Covers : (s : ℕ → B) (e : LmcEngine B) → Covers s e → Covers s (store_fence e)
  unfolding store_fence Word.fence
  fence-Covers s e c = record {
    epoch_sure = (unfold Word.fence in fence-sure e.current_epoch c.epoch_sure);
    logged = λ i t lt m tagged.
        fence-Holds e.shadow i (s i) (c.logged i t lt (fence-May (e.tagmap i) t m) tagged);
    kept = λ i t lt m other.
        fence-Holds e.working i (s i) (c.kept i t lt (fence-May (e.tagmap i) t m) other);
  }

  module _ (s : ℕ → B) (e : LmcEngine B) (b : ℕ) (c : Covers s e) (in_range : b < e.nr_blocks)
      (fresh : ((e.tagmap b).value == e.current_epoch.value) ≡ false)
      (sure : (e.tagmap b).older ≡ []) where
    abbrev copying : LmcEngine B
    copying = record e { shadow = Region.nt_store e.shadow b (e.working.view b) }

    -- The block has no tag of the epoch, so that its shadow is free.
    not_tagged : (t : ℕ) → May (e.tagmap b) t → (t == e.current_epoch.value) ≡ false
    not_tagged t m = rw (Word.May-sure (e.tagmap b) t sure m) fresh

    copying-Covers : Covers s copying
    unfolding Region.nt_store
    copying-Covers = record {
      epoch_sure = c.epoch_sure;
      logged = λ i t lt m tagged. elim (Bool-cases (b == i)) [
        | inl here ↦ absurd (
            ground (
              arith,
              tagged,
              not_tagged t (subst (λ x. May (e.tagmap x) t) (sym (==_eq b i here)) m),
            ))
        | inr there ↦ rw there (c.logged i t lt m tagged)
      ];
      kept = c.kept;
    }

    abbrev shadowed : LmcEngine B
    shadowed = store_fence copying

    block_saved : Holds shadowed.shadow b (s b)
    unfolding store_fence Region.fence Region.nt_store
    block_saved = rw (==_refl b) ((c.kept b (e.tagmap b).value in_range (inl refl) fresh).0, refl)

    abbrev tagging : LmcEngine B
    tagging = record shadowed { tagmap = store_at shadowed.tagmap b e.current_epoch.value }

    tagging-Covers : Covers s tagging
    unfolding store_fence Word.store Word.fence
    tagging-Covers =
        let f = fence-Covers s copying copying-Covers in
        record {
          epoch_sure = f.epoch_sure;
          logged = λ i t lt m tagged. elim (Bool-cases (b == i)) [
            | inl here ↦ subst (λ x. Holds shadowed.shadow x (s x)) (==_eq b i here) block_saved
            | inr there ↦ f.logged i t lt (rw there at m) tagged
          ];
          kept = λ i t lt m other. elim (Bool-cases (b == i)) [
            | inl here ↦
                subst (λ x. Holds tagging.working x (s x)) (==_eq b i here)
                  (fence-Holds e.working b (s b)
                    (c.kept b (e.tagmap b).value in_range (inl refl) fresh))
            | inr there ↦ f.kept i t lt (rw there at m) other
          ];
        }

    abbrev flushing : LmcEngine B
    flushing = record tagging { tagmap = flush_at tagging.tagmap b }

    flushing-Covers : Covers s flushing
    flushing-Covers = record {
      epoch_sure = tagging-Covers.epoch_sure;
      logged = λ i t lt m tagged.
          tagging-Covers.logged i t lt (flush_at-May tagging.tagmap b i t m) tagged;
      kept =
          λ i t lt m other. tagging-Covers.kept i t lt (flush_at-May tagging.tagmap b i t m) other;
    }

    -- From an LMC engine in which, whichever of its tags a block has after a crash, the state that
    -- this tag says to take is on the medium with the content of the last checkpoint, the
    -- instructions that shadow a block in range, which surely has no tag of the epoch, may be cut
    -- by a crash anywhere: what a recovery takes is the last checkpoint.
    pub shadow_instructions-IsSafe :
        AtEachPoint (IsSafe s) (shadow_instructions e.current_epoch.value b) e
    shadow_instructions-IsSafe =
        AtEachPoint-map (Covers-IsSafe s) (shadow_instructions e.current_epoch.value b) e (
          c,
          (
            copying-Covers,
            (
              fence-Covers s copying copying-Covers,
              (tagging-Covers, (flushing-Covers, fence-Covers s flushing flushing-Covers)),
            ),
          ),
        )
