-- ===== src/Nvm/Binding.antt =====
-- The binding of a back segment by NvmInstEngine::allocate_back_segment, cut by a crash at any point.
use libcrpm.Base.{
  ℕ, ◌<◌, ◌≡◌, ◌≢◌, ◌⊎◌, inl, inr, refl, sym, ◌∙◌, ap, subst, Bool, true, false, List, [], ◌∷◌,
  ◌==◌, if◌then◌else◌, update, arith, Bool-cases, ==_refl,
}
use libcrpm.Constants.{null_segment_index}
use libcrpm.Pm.Word
use libcrpm.Pm.Word.{Word, May, Among, word_on_medium}
use libcrpm.Pm.WordArray.{nt_store_at}
use libcrpm.Pm.Region
use libcrpm.Pm.Run.{run, AtEachPoint}
use libcrpm.Image.Defs.{Image, ss_back, bi_epoch}
use libcrpm.Image.Defs
use libcrpm.Image.Update.{IsUpdating}
use libcrpm.Image.Binding.{IsBound, bind_back_segment}
use libcrpm.Nvm.Defs.{cell}
use libcrpm.Nvm.Protection.{Snapshot, Covers, Holds}
use libcrpm.Nvm.Allocation.{funext}
use libcrpm.Nvm.Covering.{
  IsSafe, IsUpdating-IsSafe, IsUpdating-fence, Covers-fence, ==_eq, fence-Holds,
}

module _ {B : Type 0} where
  -- The table `main_to_back` once the back segment has changed hands.
  abbrev pub rebound : Image B → ℕ → ℕ → ℕ → ℕ
  rebound m main_id back_id =
      let old_main = (m.back_to_main back_id).value in
      update
        (if old_main == null_segment_index
          then m.main_to_back
          else update m.main_to_back old_main null_segment_index)
        main_id back_id

  -- The store to `back_to_main`, with the table in memory, and `StoreFence()`.
  abbrev pub bind_instructions : ℕ → ℕ → List (Image B → Image B)
  bind_instructions main_id back_id =
      (λ m. record m {
        back_to_main = nt_store_at m.back_to_main back_id main_id;
        main_to_back = rebound m main_id back_id;
      })
      ∷ Defs.store_fence
      ∷ []

  pub bind_instructions_lem :
      (m : Image B) (main_id back_id : ℕ)
      → run (bind_instructions main_id back_id) m ≡ bind_back_segment m main_id back_id
  unfolding bind_back_segment
  bind_instructions_lem m main_id back_id = refl

  -- The image as if the store had reached the medium at once.
  abbrev at_once : Image B → ℕ → ℕ → Image B
  at_once m main_id back_id = record m {
    back_to_main = update m.back_to_main back_id (word_on_medium main_id);
    main_to_back = rebound m main_id back_id;
  }

  fenced_at_once :
      (m : Image B) (main_id back_id : ℕ)
      → Defs.store_fence (at_once m main_id back_id) ≡ bind_back_segment m main_id back_id
  unfolding bind_back_segment Defs.store_fence Word.fence Word.nt_store
  fenced_at_once m main_id back_id =
      ap (λ words. record (bind_back_segment m main_id back_id) { back_to_main = words })
        (funext _ _ (λ b. elim (Bool-cases (back_id == b)) [
          | inl here ↦ rw here refl
          | inr there ↦ rw there refl
        ]))

  IsUpdating-at_once :
      (old new : ℕ → ℕ) (m : Image B) (main_id back_id : ℕ)
      → IsUpdating old new m
      → IsUpdating old new (at_once m main_id back_id)
  IsUpdating-at_once old new m main_id back_id u = record {
    stable = record {
      epoch = u.stable.epoch;
      epoch_sure = u.stable.epoch_sure;
      copy = u.stable.copy;
    };
    pending = u.pending;
    marked = u.marked;
  }

  pub bind-IsUpdating :
      (old new : ℕ → ℕ) (m : Image B) (main_id back_id : ℕ)
      → IsUpdating old new m
      → IsUpdating old new (bind_back_segment m main_id back_id)
  bind-IsUpdating old new m main_id back_id u =
      subst (IsUpdating old new) (fenced_at_once m main_id back_id) (
        IsUpdating-fence old new (at_once m main_id back_id)
          (IsUpdating-at_once old new m main_id back_id u))

  module _ (s : Snapshot B) (is_dirty : ℕ → Bool) (old : ℕ → ℕ) (m : Image B) (seg back : ℕ)
      (u : IsUpdating old old m) (c : Covers s is_dirty old m) (idle : is_dirty seg ≡ false)
      (not_back : old seg ≢ ss_back) (in_range : seg < s.nr_main) (back_in_range : back < s.nr_back)
      (free : m.main_to_back seg ≡ null_segment_index)
      (can : ((m.back_to_main back).value ≡ null_segment_index)
        ⊎ (is_dirty (m.back_to_main back).value ≡ false)) where
    -- A segment that has a back segment after the binding had the same one before, unless it is the new owner.
    rebound_other :
        (i : ℕ)
        → i < s.nr_main
        → i ≢ seg
        → rebound m seg back i ≢ null_segment_index
        → m.main_to_back i ≡ rebound m seg back i
    rebound_other i lt ne some = ground arith

    at_once-IsBound : IsBound (at_once m seg back)
    at_once-IsBound = record {
      forward = λ i b lt at some. ground (arith, c.bound.forward i b);
      backward = λ b i lt at some.
          ground (arith, c.bound.backward b i, c.bound.backward back (m.back_to_main back).value);
    }

    -- A dirty segment keeps its back segment.
    rebound_dirty :
        (i : ℕ)
        → i < s.nr_main
        → is_dirty i ≡ true
        → m.main_to_back i ≢ null_segment_index
        → rebound m seg back i ≢ null_segment_index
    rebound_dirty i lt dirty some =
        let not_seg : (seg == i) ≡ false = elim (Bool-cases (seg == i)) [
          | inl here ↦ absurd (ground (arith, ap is_dirty (==_eq seg i here)))
          | inr there ↦ there
        ] in
        elim can [
          | inl nobody ↦ ground arith
          | inr idle_owner ↦ elim (Bool-cases ((m.back_to_main back).value == i)) [
            | inl here ↦ absurd (ground (arith, ap is_dirty (==_eq _ i here)))
            | inr there ↦ ground arith
          ]
        ]

    at_once-Covers : Covers s is_dirty old (at_once m seg back)
    at_once-Covers = record {
      main_size = c.main_size;
      back_size = c.back_size;
      few_main = c.few_main;
      few_back = c.few_back;
      bound = at_once-IsBound;
      bound_sure = λ b lt. ground (arith, c.bound_sure b lt);
      main_kept = c.main_kept;
      back_kept = λ i k p is_back some.
          let other : i ≢ seg = λ same. not_back (ap old (sym same) ∙ is_back) in
          let e = rebound_other i p.0 other some in
          subst (λ b. Holds m.back_memory (cell b k) (s.content (cell i k))) e
            (c.back_kept i k p is_back (rw e some));
      dirty_kept =
          λ i k p dirty. let h = c.dirty_kept i k p dirty in (h.0, rebound_dirty i p.0 dirty h.1);
    }

    at_once-IsSafe : IsSafe s (at_once m seg back)
    at_once-IsSafe =
        IsUpdating-IsSafe s is_dirty old old (at_once m seg back)
          (IsUpdating-at_once old old m seg back u) at_once-Covers

    stored : Image B
    stored =
        run
          ((λ (g : Image B). record g {
            back_to_main = nt_store_at g.back_to_main back seg;
            main_to_back = rebound g seg back;
          })
            ∷ [])
          m

    -- Until the fence the medium holds the old owner or the new one.
    stored-IsSafe : IsSafe s stored
    unfolding stored Word.nt_store
    stored-IsSafe d left = elim (rw (==_refl back) at (left.back_to_main back)) [
      | inl new_owner ↦ at_once-IsSafe d (record {
        states = record {
          committed_epoch = left.states.committed_epoch;
          segment_state = left.states.segment_state;
        };
        back_to_main = λ b. elim (Bool-cases (back == b)) [
          | inl here ↦ rw here (inl (ap d.back_to_main (sym (==_eq back b here)) ∙ new_owner))
          | inr there ↦ rw there (rw there at (left.back_to_main b))
        ];
        main_memory = left.main_memory;
        back_memory = left.back_memory;
      })
      | inr (inl old_owner) ↦ IsUpdating-IsSafe s is_dirty old old m u c d (record {
        states = record {
          committed_epoch = left.states.committed_epoch;
          segment_state = left.states.segment_state;
        };
        back_to_main = λ b. elim (Bool-cases (back == b)) [
          | inl here ↦
              let e : back ≡ b = ==_eq back b here in
              inl (ap d.back_to_main (sym e) ∙ old_owner ∙ ap (λ x. (m.back_to_main x).value) e)
          | inr there ↦ rw there at (left.back_to_main b)
        ];
        main_memory = left.main_memory;
        back_memory = left.back_memory;
      })
      | inr (inr earlier) ↦
          absurd
            (subst (λ vs. Among (d.back_to_main back) vs) (c.bound_sure back back_in_range) earlier)
    ]

    -- At each point of the binding a crash leaves the checkpoint.
    pub bind-IsSafe : AtEachPoint (IsSafe s) (bind_instructions seg back) m
    unfolding stored Defs.store_fence bind_back_segment
    bind-IsSafe = (
      IsUpdating-IsSafe s is_dirty old old m u c,
      (
        stored-IsSafe,
        subst (IsSafe s) (fenced_at_once m seg back) (
            IsUpdating-IsSafe s is_dirty old old (Defs.store_fence (at_once m seg back))
              (IsUpdating-fence old old (at_once m seg back)
                (IsUpdating-at_once old old m seg back u))
              (Covers-fence s is_dirty old (at_once m seg back) at_once-Covers)),
      ),
    )

    pub bind-Covers :
        IsUpdating old old (bind_back_segment m seg back)
        × Covers s is_dirty old (bind_back_segment m seg back)
    bind-Covers =
        subst (λ g. IsUpdating old old g × Covers s is_dirty old g) (fenced_at_once m seg back)
          (
            IsUpdating-fence old old (at_once m seg back) (IsUpdating-at_once old old m seg back u),
            Covers-fence s is_dirty old (at_once m seg back) at_once-Covers,
          )

    -- What the others have does not change.
    pub bind-other :
        (i k : ℕ) (v : B)
        → i < s.nr_main
        → i ≢ seg
        → (bind_back_segment m seg back).main_to_back i ≢ null_segment_index
        → (m.main_to_back i ≢ null_segment_index)
          × (Holds m.back_memory (cell (m.main_to_back i) k) v
              → Holds
                  (bind_back_segment m seg back).back_memory
                  (cell ((bind_back_segment m seg back).main_to_back i) k)
                  v)
    unfolding bind_back_segment Defs.store_fence Region.fence
    bind-other i k v lt ne some =
        let e = rebound_other i lt ne some in
        (
          rw e some,
          λ h.
              subst (λ b. Holds (Region.fence m.back_memory) (cell b k) v) e
                (fence-Holds s is_dirty m.back_memory (cell (m.main_to_back i) k) v h),
        )
