-- ===== src/Nvm/Covering.antt =====
-- Which changes of an image keep the last checkpoint covered.
use libcrpm.Base.{
  ℕ, ◌-◌, ◌<◌, ◌≡◌, ◌≢◌, inl, inr, refl, sym, ◌∙◌, ap, subst, Bool, true, false, ◌==◌, update,
  arith, Bool-cases,
}
use libcrpm.Constants.{blocks_per_segment}
use libcrpm.Pm.Word
use libcrpm.Pm.Word.{Word}
use libcrpm.Pm.Region
use libcrpm.Pm.Region.{Region, clean, flushing}
use libcrpm.Image.Defs.{Image, ss_back, bi_epoch, atomic_instructions, set_segment_state_atomic}
use libcrpm.Image.Defs
use libcrpm.Image.Crash.{IsStable-found, store_fence-IsStable}
use libcrpm.Image.Update.{IsUpdating, Reaches-fence}
use libcrpm.Nvm.Defs.{cell}
use libcrpm.Nvm.Protection.{
  Medium, Leaves, Snapshot, IsPromised, IsRestored, Holds, Covers, Covers-IsRestored,
}

pub ==_eq : (a b : ℕ) → (a == b) ≡ true → a ≡ b
==_eq a b h = ground arith

module _ {B : Type 0} where
  -- Whatever a crash leaves now, the recovery finds the checkpoint.
  abbrev pub IsSafe : Snapshot B → Image B → Type 0
  IsSafe s m = (d : Medium B) → Leaves m d → IsRestored s d

  -- An image whose committed states are `states` is safe if those states cover the checkpoint.
  pub IsUpdating-IsSafe :
      (s : Snapshot B) (is_dirty : ℕ → Bool) (old new : ℕ → ℕ) (m : Image B)
      → IsUpdating old new m
      → Covers s is_dirty old m
      → IsSafe s m
  IsUpdating-IsSafe s is_dirty old new m u c d left =
      Covers-IsRestored s is_dirty old m d c left (λ seg lt.
        IsStable-found m.nr_main_segments (bi_epoch m) old m u.stable d.states left.states seg
          (rw c.main_size lt))

  pub IsUpdating-memory :
      (old new : ℕ → ℕ) (m : Image B) (r : Region B)
      → IsUpdating old new m
      → IsUpdating old new (record m { back_memory = r })
  IsUpdating-memory old new m r u = record {
    stable = record {
      epoch = u.stable.epoch;
      epoch_sure = u.stable.epoch_sure;
      copy = u.stable.copy;
    };
    pending = u.pending;
    marked = u.marked;
  }

  pub IsUpdating-fence :
      (old new : ℕ → ℕ) (m : Image B)
      → IsUpdating old new m
      → IsUpdating old new (Defs.store_fence m)
  unfolding Defs.store_fence Word.fence
  IsUpdating-fence old new m u = record {
    stable = store_fence-IsStable m.nr_main_segments (bi_epoch m) old m u.stable;
    pending = u.pending;
    marked = λ seg lt. elim (u.marked seg lt) [
      | inl on ↦ inl on
      | inr h ↦ inr (inr (Reaches-fence (m.segment_state (1 - bi_epoch m) seg) h.0), h.1)
    ];
  }

  module _ (s : Snapshot B) (is_dirty : ℕ → Bool) where
    pub fence-Holds : (r : Region B) (x : ℕ) (v : B) → Holds r x v → Holds (Region.fence r) x v
    unfolding Region.fence
    fence-Holds r x v h = (h.0, ground (arith, h.1))

    pub Covers-fence :
        (states : ℕ → ℕ) (m : Image B)
        → Covers s is_dirty states m
        → Covers s is_dirty states (Defs.store_fence m)
    unfolding Defs.store_fence Word.fence
    Covers-fence states m c = record {
      main_size = c.main_size;
      back_size = c.back_size;
      few_main = c.few_main;
      few_back = c.few_back;
      bound = record { forward = c.bound.forward; backward = c.bound.backward };
      bound_sure = λ b lt. ground (arith, c.bound_sure b lt);
      main_kept = λ seg k p idle. fence-Holds m.main_memory _ _ (c.main_kept seg k p idle);
      back_kept =
          λ seg k p back some. fence-Holds m.back_memory _ _ (c.back_kept seg k p back some);
      dirty_kept = c.dirty_kept;
    }

    pub Covers-states :
        (states : ℕ → ℕ) (m : Image B) (ws : ℕ → ℕ → Word)
        → Covers s is_dirty states m
        → Covers s is_dirty states (record m { segment_state = ws })
    Covers-states states m ws c = record {
      main_size = c.main_size;
      back_size = c.back_size;
      few_main = c.few_main;
      few_back = c.few_back;
      bound = record { forward = c.bound.forward; backward = c.bound.backward };
      bound_sure = c.bound_sure;
      main_kept = c.main_kept;
      back_kept = c.back_kept;
      dirty_kept = c.dirty_kept;
    }

    module _ (old : ℕ → ℕ) (seg back : ℕ) (idle : is_dirty seg ≡ false)
        (not_back : old seg ≢ ss_back) where
      -- While the blocks are copied.
      pub copy-Covers :
          (m : Image B) (r : Region B)
          → Covers s is_dirty old m
          → (m.back_to_main back).value ≡ seg
          → back < s.nr_back
          → ((b k : ℕ)
              → b ≢ back
              → k < blocks_per_segment
              → (r.view (cell b k) ≡ m.back_memory.view (cell b k))
                × (r.status (cell b k) ≡ m.back_memory.status (cell b k)))
          → Covers s is_dirty old (record m { back_memory = r })
      copy-Covers m r c owner lt elsewhere = record {
        main_size = c.main_size;
        back_size = c.back_size;
        few_main = c.few_main;
        few_back = c.few_back;
        bound = record { forward = c.bound.forward; backward = c.bound.backward };
        bound_sure = c.bound_sure;
        main_kept = c.main_kept;
        back_kept = λ i k p is_back some.
            let mine = c.bound.forward i (m.main_to_back i) (rw c.main_size p.0) refl some in
            let other : m.main_to_back i ≢ back = λ same. not_back (
              ap old (sym owner ∙ ap (λ b. (m.back_to_main b).value) (sym same) ∙ mine.1)
              ∙ is_back) in
            let h = c.back_kept i k p is_back some in
            let e = elsewhere (m.main_to_back i) k other p.1 in (e.0 ∙ h.0, e.1 ∙ h.1);
        dirty_kept = c.dirty_kept;
      }

      -- Once the back segment has the data, it may be what a restart takes.
      pub new-Covers :
          (m : Image B)
          → Covers s is_dirty old m
          → m.main_to_back seg ≡ back
          → ((k : ℕ)
              → IsPromised s seg k
              → Holds m.back_memory (cell back k) (s.content (cell seg k)))
          → Covers s is_dirty (update old seg ss_back) m
      new-Covers m c mine full = record {
        main_size = c.main_size;
        back_size = c.back_size;
        few_main = c.few_main;
        few_back = c.few_back;
        bound = c.bound;
        bound_sure = c.bound_sure;
        main_kept = c.main_kept;
        back_kept = λ i k p is_back some. elim (Bool-cases (seg == i)) [
          | inl here ↦
              let e : seg ≡ i = ground arith in
              subst
                (λ j.
                  IsPromised s j k
                  → Holds m.back_memory (cell (m.main_to_back j) k) (s.content (cell j k)))
                e (λ q. rw mine (full k q)) p
          | inr there ↦ c.back_kept i k p (rw there at is_back) some
        ];
        dirty_kept = λ i k p dirty. elim (Bool-cases (seg == i)) [
          | inl here ↦ absurd (ground (arith, ap is_dirty (==_eq seg i here)))
          | inr there ↦ rw there (c.dirty_kept i k p dirty)
        ];
      }
