-- ===== src/Nvm/HookCrash.antt =====
-- NvmInstEngine::hook_copy_on_write_routine, cut by a crash between any two of its instructions.
use libcrpm.Base.{
  ℕ, ◌<◌, ◌≡◌, ◌≢◌, ◌⊎◌, inl, inr, refl, sym, ◌∙◌, ap, subst, Bool, true, false, not, ◌&&◌, List,
  [], ◌++◌, ◌==◌, if◌then◌else◌, Outcome, ok, exited, spins, ◌>>=◌, arith, Bool-cases,
}
use libcrpm.Constants.{null_segment_index}
use libcrpm.Pm.Run.{run, AtEachPoint, AtEachPoint-append, run-append}
use libcrpm.BitSet
use libcrpm.Image.Defs.{Image, ss_main, ss_back, bi_epoch, get_segment_state}
use libcrpm.Nvm.Defs.{NvmInstEngine, set_segment_dirty, release_lock, lock_of}
use libcrpm.Nvm.BackSegment.{Found, find_back_segment}
use libcrpm.Nvm.Allocation.{can_take, turn, bound_at}
use libcrpm.Nvm.Finding.{Finding, had, took, exits, find_back_segment-Finding}
use libcrpm.Nvm.WriteBack.{blocks_to_copy, write_back_instructions, write_back, lazy_locked}
use libcrpm.Nvm.Hook.{hook_segment}
use libcrpm.Nvm.Protection.{Snapshot}
use libcrpm.Nvm.Covering.{IsSafe}
use libcrpm.Nvm.Binding.{bind_instructions, bind_instructions_lem, bind-IsSafe}
use libcrpm.Nvm.Invariant.{IsProtected, IsProtected-IsSafe, locks-IsProtected}
use libcrpm.Nvm.Lazy.{fill-IsSafe}
use libcrpm.Nvm.Filling.{bound-IsFillable, rebound-IsFillable, turn_in_range, owner_is_idle}
use libcrpm.Nvm.Hooked.{locked, state_is, ready, lazy_free, lazy_in_place, lazy_bound, lazily}

module _ {B : Type 0} where
  -- The instructions of the call that change what a crash leaves, in order.
  unfoldable pub found_instructions : ℕ → ℕ → Outcome (Found B) → List (Image B → Image B)
  found_instructions seg attribute (ok f) =
      bind_instructions seg f.back_id
      ++ write_back_instructions (bi_epoch f.engine.image) f.back_id seg
          (blocks_to_copy f.engine seg attribute f.created)
  found_instructions seg attribute exited = []
  found_instructions seg attribute spins = []

  unfoldable pub hook_instructions : NvmInstEngine B → ℕ → List (Image B → Image B)
  hook_instructions e seg =
      let attribute = get_segment_state e.image seg in
      let back = e.image.main_to_back seg in
      if not (attribute == ss_main) && not (back == null_segment_index)
      then []
      else (if back == null_segment_index
          then found_instructions seg attribute (find_back_segment e seg)
          else write_back_instructions (bi_epoch e.image) back seg
              (blocks_to_copy e seg attribute false))

  -- The instructions lead from the image to that of the result, and a crash at any point leaves the checkpoint.
  pub record IsCrashSafe (s : Snapshot B) (m : Image B) (is : List (Image B → Image B))
      (r : Outcome (NvmInstEngine B)) : Type 0 where
    pub points : AtEachPoint (IsSafe s) is m
    pub leads : (r ≡ exited) ⊎ ((g : NvmInstEngine B) × (r ≡ ok g) × (g.image ≡ run is m))

  module _ (s : Snapshot B) (pending : ℕ → Bool) (old : ℕ → ℕ) (e : NvmInstEngine B) (seg : ℕ)
      (p : IsProtected s pending old e) (in_range : seg < s.nr_main)
      (idle : BitSet.test e.segment_dirty seg ≡ false)
      (kept : old seg ≡ ss_back → e.image.main_to_back seg ≢ null_segment_index)
      (unlocked : e.back_memory_lock ≡ false) where
    abbrev then_engine : Outcome (NvmInstEngine B × Bool) → Outcome (NvmInstEngine B)
    then_engine r = r >>= λ x. ok x.0

    written_image :
        (f : NvmInstEngine B) (back attribute : ℕ) (created : Bool)
        → (write_back f seg back attribute created true).image
          ≡ run
              (write_back_instructions
                (bi_epoch f.image)
                back
                seg
                (blocks_to_copy f seg attribute created))
              f.image
    unfolding write_back release_lock set_segment_dirty
    written_image f back attribute created = refl

    the_call :
        (is : List (Image B → Image B)) (r : Outcome (NvmInstEngine B × Bool))
        → hook_instructions e seg ≡ is
        → lazy_locked e seg true ≡ r
        → IsCrashSafe s e.image is (then_engine r)
        → IsCrashSafe s e.image (hook_instructions e seg) (then_engine (lazy_locked e seg true))
    the_call is r same_is same_r c =
        subst (λ x. IsCrashSafe s e.image x (then_engine (lazy_locked e seg true))) (sym same_is)
          (subst (λ x. IsCrashSafe s e.image is (then_engine x)) (sym same_r) c)

    in_place-instructions :
        (get_segment_state e.image seg == ss_main) ≡ false
        → (e.image.main_to_back seg == null_segment_index) ≡ false
        → hook_instructions e seg ≡ []
    unfolding hook_instructions
    in_place-instructions elsewhere some = simp (some, elsewhere) refl

    bound-instructions :
        (get_segment_state e.image seg == ss_main) ≡ true
        → (e.image.main_to_back seg == null_segment_index) ≡ false
        → hook_instructions e seg
          ≡ write_back_instructions
              (bi_epoch e.image)
              (e.image.main_to_back seg)
              seg
              (blocks_to_copy e seg (get_segment_state e.image seg) false)
    unfolding hook_instructions
    bound-instructions in_main some = simp (some, in_main) refl

    free-instructions :
        (e.image.main_to_back seg == null_segment_index) ≡ true
        → hook_instructions e seg
          ≡ found_instructions seg (get_segment_state e.image seg) (find_back_segment e seg)
    unfolding hook_instructions
    free-instructions none = elim (Bool-cases (get_segment_state e.image seg == ss_main)) [
      | inl in_main ↦ simp (none, in_main) refl
      | inr elsewhere ↦ simp (none, elsewhere) refl
    ]

    at : get_segment_state e.image seg ≡ old seg
    at = state_is s pending old e seg p in_range idle kept unlocked

    bound-IsCrashSafe :
        (old seg == ss_main) ≡ true
        → (e.image.main_to_back seg == null_segment_index) ≡ false
        → IsCrashSafe s e.image
            (write_back_instructions
              (bi_epoch e.image)
              (e.image.main_to_back seg)
              seg
              (blocks_to_copy e seg (old seg) false))
            (ok (write_back e seg (e.image.main_to_back seg) (old seg) false true))
    bound-IsCrashSafe in_main some = record {
      points =
          fill-IsSafe s pending old e seg (e.image.main_to_back seg)
            (blocks_to_copy e seg (old seg) false)
            (bound-IsFillable s pending old e seg p in_range idle (ground arith) (ground arith));
      leads = inr (_, refl, written_image e (e.image.main_to_back seg) (old seg) false);
    }

    abbrev taking : ℕ → List (Image B → Image B)
    taking k =
        bind_instructions seg (turn e k)
        ++ write_back_instructions (bi_epoch (bound_at e seg k).image) (turn e k) seg
            (blocks_to_copy (bound_at e seg k) seg (old seg) true)

    taken-IsCrashSafe :
        (k : ℕ)
        → e.image.main_to_back seg ≡ null_segment_index
        → can_take e (turn e k) ≡ true
        → IsCrashSafe s e.image
            (taking k)
            (ok (write_back (bound_at e seg k) seg (turn e k) (old seg) true true))
    taken-IsCrashSafe k free can =
        let not_back = λ (is_back : old seg ≡ ss_back). kept is_back free in
        let bs = blocks_to_copy (bound_at e seg k) seg (old seg) true in
        let bound = bind_instructions_lem e.image seg (turn e k) in
        let write = write_back_instructions (bi_epoch (bound_at e seg k).image) (turn e k) seg bs in
        record {
          points =
              AtEachPoint-append (IsSafe s) (bind_instructions seg (turn e k)) write e.image
                (bind-IsSafe s (BitSet.test e.segment_dirty) old e.image seg (turn e k) p.updating
                  p.covers idle not_back in_range
                  (turn_in_range s pending old e seg p in_range idle k free not_back can) free
                  (owner_is_idle s pending old e seg p in_range idle k free not_back can))
                (subst (AtEachPoint (IsSafe s) write) (sym bound) (
                  fill-IsSafe s pending old (bound_at e seg k) seg (turn e k) bs
                    (rebound-IsFillable s pending old e seg p in_range idle k free not_back can)));
          leads = inr (
            _,
            refl,
            written_image (bound_at e seg k) (turn e k) (old seg) true
                ∙ ap (run write) (sym bound)
                ∙ sym (run-append (bind_instructions seg (turn e k)) write e.image),
          );
        }

    found-IsCrashSafe :
        e.image.main_to_back seg ≡ null_segment_index
        → Finding e seg (find_back_segment e seg)
        → IsCrashSafe s e.image (found_instructions seg (old seg) (find_back_segment e seg)) (
            then_engine (
              find_back_segment e seg >>= λ f.
              ok (write_back f.engine seg f.back_id (old seg) f.created true, true)))
    unfolding found_instructions
    found-IsCrashSafe free (had some found) = absurd (some free)
    found-IsCrashSafe free (took k _ lt before can _ found) =
        rw found (taken-IsCrashSafe k free can)
    found-IsCrashSafe free (exits _ none found) =
        rw found (record { points = IsProtected-IsSafe s pending old e p; leads = inl refl })

    locked-IsCrashSafe :
        IsCrashSafe s e.image (hook_instructions e seg) (then_engine (lazy_locked e seg true))
    locked-IsCrashSafe = elim (Bool-cases (e.image.main_to_back seg == null_segment_index)) [
      | inl none ↦
          let free : e.image.main_to_back seg ≡ null_segment_index = ground arith in
          the_call _ _ (free-instructions none)
            (lazy_free s pending old e seg p in_range idle kept unlocked free)
            (subst
              (λ a. IsCrashSafe s e.image (found_instructions seg a (find_back_segment e seg)) (
                then_engine (
                  find_back_segment e seg >>= λ f.
                  ok (write_back f.engine seg f.back_id a f.created true, true))))
              (sym at)
              (found-IsCrashSafe free (
                find_back_segment-Finding e seg
                  (ready s pending old e seg p in_range idle kept unlocked)
                  (rw p.covers.main_size in_range))))
      | inr some ↦ elim (Bool-cases (get_segment_state e.image seg == ss_main)) [
        | inr elsewhere ↦
            the_call _ _ (in_place-instructions elsewhere some)
              (lazy_in_place s pending old e seg p in_range idle kept unlocked elsewhere some)
              (record {
                points = IsProtected-IsSafe s pending old e p;
                leads = inr (_, refl, (unfold release_lock set_segment_dirty in refl));
              })
        | inl in_main ↦
            the_call _ _ (bound-instructions in_main some)
              (lazy_bound s pending old e seg p in_range idle kept unlocked in_main some)
              (rw at (bound-IsCrashSafe (rw at at in_main) some))
      ]
    ]

  -- From an engine that protects a checkpoint and does not skip the copy on write, for a segment
  -- that is not dirty, has a back segment if its state is SS_Back, and whose lock is free like that
  -- of the back memory, the persistent-memory instructions of the hook lead to the image that the
  -- hook returns, or the process ends; whatever a crash between any two of them leaves, the
  -- recovery finds the checkpoint.
  pub hook_segment-IsCrashSafe :
      (s : Snapshot B) (pending : ℕ → Bool) (old : ℕ → ℕ) (e : NvmInstEngine B) (seg : ℕ)
      → IsProtected s pending old e
      → seg < s.nr_main
      → BitSet.test e.segment_dirty seg ≡ false
      → (old seg ≡ ss_back → e.image.main_to_back seg ≢ null_segment_index)
      → e.skip_copy_on_write ≡ false
      → e.segment_locks (lock_of seg) ≡ false
      → e.back_memory_lock ≡ false
      → IsCrashSafe s e.image (hook_instructions (locked e seg) seg) (hook_segment e seg)
  hook_segment-IsCrashSafe s pending old e seg p in_range idle kept not_skipped free back_free =
      subst (IsCrashSafe s e.image (hook_instructions (locked e seg) seg))
        (sym (lazily s pending old e seg idle not_skipped free))
        (locked-IsCrashSafe s pending old (locked e seg) seg (locks-IsProtected s pending old e _ p)
          in_range idle kept back_free)
