-- ===== src/Image/Atomic.antt =====
-- CheckpointImage::set_segment_state_atomic: one state, in both copies, outside or inside an update.
use libcrpm.Base.{
  ℕ, ◌-◌, ◌<◌, ◌≡◌, ◌⊎◌, inl, inr, refl, ◌∙◌, false, ◌==◌, update, arith, Bool-cases, ==_refl,
  subst,
}
use libcrpm.Pm.Word.{Word, May, May-sure}
use libcrpm.Pm.Word
use libcrpm.Pm.WordArray.{store_at, flush_at}
use libcrpm.Pm.Run.{run, AtEachPoint}
use libcrpm.Image.Defs.{
  Image, store_fence, bi_epoch, atomic_instructions, slot_instructions, set_segment_state_atomic,
}
use libcrpm.Image.Crash.{IsStable, IsStable-found, StateMedium, LeavesStates, found_state}
use libcrpm.Image.Update.{Reaches-fence, IsUpdating}

module _ {S : Type 0} (old new : ℕ → ℕ) (m : Image S) (u : IsUpdating old new m)
    (seg state : ℕ) where
  open u use {stable, pending, marked}

  sides_differ : (bi_epoch m == 1 - bi_epoch m) ≡ false
  sides_differ = ground arith

  sides_differ_back : (1 - bi_epoch m == bi_epoch m) ≡ false
  sides_differ_back = ground arith

  -- The call changes the committed and the pending state of its segment to the same state.
  pub atomic-IsUpdating :
      IsUpdating
        (update old seg state)
        (update new seg state)
        (set_segment_state_atomic m seg state)
  unfolding set_segment_state_atomic store_fence Word.fence Word.store Word.flush
  atomic-IsUpdating = record {
    stable = record {
      epoch = refl;
      epoch_sure = ground (arith, stable.epoch_sure);
      copy = λ c lt. elim (Bool-cases (seg == c)) [
        | inl here ↦ rw (sides_differ_back, ==_refl (bi_epoch m), here, ==_refl seg) (refl, refl)
        | inr there ↦
            rw (sides_differ_back, ==_refl (bi_epoch m), there)
              (
                (stable.copy c lt).0,
                Reaches-fence (m.segment_state (bi_epoch m) c) (inr (stable.copy c lt).1),
              )
      ];
    };
    pending = λ c lt. elim (Bool-cases (seg == c)) [
      | inl here ↦ rw (==_refl (1 - bi_epoch m), here, ==_refl seg) refl
      | inr there ↦ rw (==_refl (1 - bi_epoch m), there, sides_differ) (pending c lt)
    ];
    marked = λ c lt. elim (marked c lt) [
      | inl on ↦ inl on
      | inr (reaches, agrees) ↦ inr (elim (Bool-cases (seg == c)) [
        | inl here ↦ (inl (rw (==_refl (1 - bi_epoch m), here) refl), rw here refl)
        | inr there ↦ (
          inr (
              rw (==_refl (1 - bi_epoch m), there, sides_differ)
                (Reaches-fence (m.segment_state (1 - bi_epoch m) c) reaches)),
          rw there agrees,
        )
      ])
    ];
  }

  module _ (in_range : seg < m.nr_main_segments) where
    -- The committed states of before the call, or those with the new state of the segment.
    abbrev pub IsEither : Image S → Type 0
    IsEither g =
        (f : StateMedium)
        → LeavesStates g f
        → ((c : ℕ) → c < m.nr_main_segments → found_state f c ≡ old c)
          ⊎ ((c : ℕ) → c < m.nr_main_segments → found_state f c ≡ update old seg state c)

    -- While one slot of the current copy is on its way.
    slot-IsEither :
        (g : Image S)
        → g.committed_epoch ≡ m.committed_epoch
        → ((c : ℕ)
            → (seg == c) ≡ false
            → g.segment_state (bi_epoch m) c ≡ m.segment_state (bi_epoch m) c)
        → ((v : ℕ) → May (g.segment_state (bi_epoch m) seg) v → (v ≡ old seg) ⊎ (v ≡ state))
        → IsEither g
    slot-IsEither g same_epoch others slot f left =
        elim (slot (f.segment_state (bi_epoch m) seg) (left.segment_state (bi_epoch m) seg)) [
          | inl before ↦ inl (λ c lt. elim (Bool-cases (seg == c)) [
            | inl here ↦ let at : seg ≡ c = ground arith in rw (found c, ← at) before
            | inr there ↦ rw (found c) (other c lt there)
          ])
          | inr after ↦ inr (λ c lt. elim (Bool-cases (seg == c)) [
            | inl here ↦ let at : seg ≡ c = ground arith in rw (found c, here, ← at) after
            | inr there ↦ rw (found c, there) (other c lt there)
          ])
        ]
      where
        epoch_kept : f.committed_epoch ≡ m.committed_epoch.value
        epoch_kept =
            May-sure m.committed_epoch f.committed_epoch stable.epoch_sure
              (subst (λ w. May w f.committed_epoch) same_epoch left.committed_epoch)

        found : (c : ℕ) → found_state f c ≡ f.segment_state (bi_epoch m) c
        found c = rw epoch_kept refl

        other :
            (c : ℕ)
            → c < m.nr_main_segments
            → (seg == c) ≡ false
            → f.segment_state (bi_epoch m) c ≡ old c
        other c lt there =
            May-sure (m.segment_state (bi_epoch m) c) (f.segment_state (bi_epoch m) c)
              (stable.copy c lt).1
              (subst (λ w. May w (f.segment_state (bi_epoch m) c)) (others c there)
                (left.segment_state (bi_epoch m) c))
            ∙ (stable.copy c lt).0

    -- The slot holds the state or, while it is on its way, what it held.
    stored_slot :
        (v : ℕ)
        → May (Word.store (m.segment_state (bi_epoch m) seg) state) v
        → (v ≡ old seg) ⊎ (v ≡ state)
    unfolding Word.store
    stored_slot v (inl now) = inr now
    stored_slot v (inr before) = inl (
        May-sure (m.segment_state (bi_epoch m) seg) v (stable.copy seg in_range).1 before
        ∙ (stable.copy seg in_range).0)

    abbrev stored : ℕ → ℕ → Word
    stored = update m.segment_state (bi_epoch m) (store_at (m.segment_state (bi_epoch m)) seg state)

    abbrev flushed : ℕ → ℕ → Word
    flushed = update stored (bi_epoch m) (flush_at (stored (bi_epoch m)) seg)

    written :
        (v : ℕ) (w : Word)
        → May w v
        → w ≡ Word.store (m.segment_state (bi_epoch m) seg) state
        → May (Word.store (m.segment_state (bi_epoch m) seg) state) v
    written v w may same = subst (λ x. May x v) same may

    flushed_slot :
        (v : ℕ) (w : Word)
        → May w v
        → w ≡ Word.flush (Word.store (m.segment_state (bi_epoch m) seg) state)
        → May (Word.store (m.segment_state (bi_epoch m) seg) state) v
    unfolding Word.flush
    flushed_slot v w may same = subst (λ x. May x v) same may

    abbrev fenced : Image S
    fenced = store_fence (run (slot_instructions (bi_epoch m) seg state) m)

    fenced-IsStable : IsStable m.nr_main_segments (bi_epoch m) (update old seg state) fenced
    unfolding store_fence Word.fence Word.store Word.flush
    fenced-IsStable = record {
      epoch = refl;
      epoch_sure = ground (arith, stable.epoch_sure);
      copy = λ c lt. elim (Bool-cases (seg == c)) [
        | inl here ↦ rw (==_refl (bi_epoch m), here, ==_refl seg) (refl, refl)
        | inr there ↦
            rw (==_refl (bi_epoch m), there)
              (
                (stable.copy c lt).0,
                Reaches-fence (m.segment_state (bi_epoch m) c) (inr (stable.copy c lt).1),
              )
      ];
    }

    fenced-IsEither :
        (g : Image S)
        → IsStable m.nr_main_segments (bi_epoch m) (update old seg state) g
        → IsEither g
    fenced-IsEither g s f left =
        inr (IsStable-found m.nr_main_segments (bi_epoch m) (update old seg state) g s f left)

    -- What is written to the other copy is not found.
    other-IsStable :
        (g : Image S) (ws : ℕ → Word)
        → IsStable m.nr_main_segments (bi_epoch m) (update old seg state) g
        → IsStable m.nr_main_segments
            (bi_epoch m)
            (update old seg state)
            (record g { segment_state = update g.segment_state (1 - bi_epoch m) ws })
    other-IsStable g ws s = record {
      epoch = s.epoch;
      epoch_sure = s.epoch_sure;
      copy = λ c lt. rw sides_differ_back (s.copy c lt);
    }

    -- An atomic set of the state of a segment in range may be cut by a crash before, between or
    -- after its instructions: the file then holds the committed states of before the call, or those
    -- with the new state of the segment.
    pub atomic-crash_safe : AtEachPoint IsEither (atomic_instructions (bi_epoch m) seg state) m
    atomic-crash_safe = (
      λ f left. inl (IsStable-found m.nr_main_segments (bi_epoch m) old m stable f left),
      (
        slot-IsEither _ refl (λ c there. rw (==_refl (bi_epoch m), there) refl)
            (λ v may. stored_slot v (
              written v (stored (bi_epoch m) seg) may
                (rw (==_refl (bi_epoch m), ==_refl seg) refl))),
        (
          slot-IsEither _ refl (λ c there. rw (==_refl (bi_epoch m), there) refl)
              (λ v may. stored_slot v (
                flushed_slot v (flushed (bi_epoch m) seg) may
                  (rw (==_refl (bi_epoch m), ==_refl seg) refl))),
          (
            fenced-IsEither fenced fenced-IsStable,
            (
              fenced-IsEither _ (other-IsStable fenced _ fenced-IsStable),
              fenced-IsEither _ (other-IsStable _ _ (other-IsStable fenced _ fenced-IsStable)),
            ),
          ),
        ),
      ),
    )
