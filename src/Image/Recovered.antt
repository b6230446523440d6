-- ===== src/Image/Recovered.antt =====
-- What CheckpointImage::recovery achieves.
use libcrpm.Base.{
  ℕ, zero, suc, ◌+◌, ◌<◌, ◌≤◌, ◌≡◌, ◌≢◌, refl, ◌∙◌, true, ◌==◌, if◌then◌else◌, arith, Bool-cases,
  ok, Returns, Returns-bind, Returns-map, inl, inr, ◌%◌,
}
use libcrpm.Constants.{null_segment_index}
use libcrpm.Pm.Region
use libcrpm.Pm.Run.{run, AtEachPoint-run}
use libcrpm.Image.Defs.{
  Image, ss_initial, ss_main, ss_back, get_segment_state, begin_segment_state_update,
  commit_segment_state_update, flush_round, copy_round, lines, next_epoch, flush_instructions,
  copy_instructions, published, store_fence,
}
use libcrpm.Image.Crash.{rounds-keep}
use libcrpm.Image.Update.{IsUpdating, get_segment_state_lem, begin-IsUpdating}
use libcrpm.Image.Committed.{commit-IsUpdating}
use libcrpm.Image.Binding.{IsBound}
use libcrpm.Image.Recovery.{recovery_round, recovery_loop, recovery}
use libcrpm.Image.RecoveryRound.{
  IsRecovered, IsInjective, IsBound-IsInjective, recovery_round-IsRound, two_parts,
}

module _ {S : Type 0} where
  IsRecovered-IsInjective :
      (old new : ℕ → ℕ) (to_state lo hi : ℕ) (m f : Image S)
      → IsRecovered old new to_state lo hi m f
      → IsInjective m
      → IsInjective f
  IsRecovered-IsInjective old new to_state lo hi m f r inj = record {
    in_range = λ b lt some.
        rw (r.same_back b, r.size)
          (inj.in_range b (rw r.back_size at lt) (rw (r.same_back b) at some));
    alone = λ a b lt_a lt_b same some.
        inj.alone a b (rw r.back_size at lt_a) (rw r.back_size at lt_b)
          (rw (r.same_back a, r.same_back b) at same) (rw (r.same_back b) at some);
  }

  loop-IsRecovered :
      (n : ℕ) (old new : ℕ → ℕ) (to_state lo : ℕ) (m : Image S)
      → lo + n ≤ m.nr_back_segments
      → IsInjective m
      → IsUpdating old new m
      → m.segment_state_update ≡ true
      → Returns (IsRecovered old new to_state lo (lo + n) m) (recovery_loop n lo to_state m)
  unfolding recovery_loop
  loop-IsRecovered zero old new to_state lo m few inj u opened = record {
    reached = new;
    updating = u;
    size = refl;
    back_size = refl;
    opened = refl;
    same_back = λ b. refl;
    main_data = λ b lt some. ground arith;
    back_data = λ b lt some. ground arith;
    states = λ b lt some. ground arith;
  }
  loop-IsRecovered (suc n) old new to_state lo m few inj u opened =
      Returns-bind (IsRecovered old new to_state lo (lo + 1) m)
        (IsRecovered old new to_state lo (lo + suc n) m) (recovery_round to_state lo m)
        (recovery_loop n (lo + 1) to_state)
        (recovery_round-IsRound old new to_state m inj lo (omega arith) u opened)
        (λ g first.
          let ends : lo + suc n ≡ lo + 1 + n = omega arith in
          rw ends (
            Returns-map (IsRecovered old first.reached to_state (lo + 1) (lo + 1 + n) g)
              (IsRecovered old new to_state lo (lo + 1 + n) m) (recovery_loop n (lo + 1) to_state g)
              (λ f second.
                two_parts old to_state new lo (lo + 1) (lo + 1 + n) m g f (omega arith)
                  (omega arith) first second)
              (loop-IsRecovered n old first.reached to_state (lo + 1) g
                (omega (arith, first.back_size))
                (IsRecovered-IsInjective old new to_state lo (lo + 1) m g first inj) first.updating
                (first.opened ∙ opened))))

  -- A commit leaves the segments alone.
  abbrev SameMemory : Image S → Image S → Type 0
  SameMemory m g =
      ((j : ℕ) → g.main_memory.view j ≡ m.main_memory.view j)
      × ((j : ℕ) → g.back_memory.view j ≡ m.back_memory.view j)

  flush_round-SameMemory :
      (bi : ℕ) (m : Image S) (k : ℕ) (g : Image S)
      → SameMemory m g
      → SameMemory m (flush_round bi k g)
  unfolding flush_round
  flush_round-SameMemory bi m k g h = elim (Bool-cases (g.segment_state_dirty k)) [
    | inl on ↦ rw on h
    | inr off ↦ rw off h
  ]

  copy_round-SameMemory :
      (bi : ℕ) (m : Image S) (k : ℕ) (g : Image S)
      → SameMemory m g
      → SameMemory m (copy_round bi k g)
  unfolding copy_round
  copy_round-SameMemory bi m k g h = elim (Bool-cases (g.segment_state_dirty k)) [
    | inl on ↦ rw on h
    | inr off ↦ rw off h
  ]

  commit-SameMemory : (m : Image S) → SameMemory m (commit_segment_state_update m)
  unfolding commit_segment_state_update published store_fence Region.fence
  commit-SameMemory m = AtEachPoint-run (SameMemory m) (copy_instructions m) (published m) (
      rounds-keep (SameMemory m) (copy_round (next_epoch m % 2))
        (copy_round-SameMemory (next_epoch m % 2) m) (lines m) 0 (published m) before)
    where
      flushed : SameMemory m (run (flush_instructions m) m)
      flushed = AtEachPoint-run (SameMemory m) (flush_instructions m) m (
          rounds-keep (SameMemory m) (flush_round (next_epoch m % 2))
            (flush_round-SameMemory (next_epoch m % 2) m) (lines m) 0 m (λ j. refl, λ j. refl))

      before : SameMemory m (published m)
      before = flushed

  -- What a recovery makes of each back segment and of the main segment that has it.
  pub record IsEqualised (old : ℕ → ℕ) (to_state : ℕ) (m f : Image S) : Type 0 where
    pub main_data :
        (b : ℕ)
        → b < m.nr_back_segments
        → (m.back_to_main b).value ≢ null_segment_index
        → f.main_memory.view (m.back_to_main b).value ≡ (
            if old (m.back_to_main b).value == ss_back
            then m.back_memory.view b
            else m.main_memory.view (m.back_to_main b).value)
    pub back_data :
        (b : ℕ)
        → b < m.nr_back_segments
        → (m.back_to_main b).value ≢ null_segment_index
        → f.back_memory.view b ≡ (
            if old (m.back_to_main b).value == ss_main
            then m.main_memory.view (m.back_to_main b).value
            else m.back_memory.view b)
    pub states :
        (b : ℕ)
        → b < m.nr_back_segments
        → (m.back_to_main b).value ≢ null_segment_index
        → get_segment_state f (m.back_to_main b).value
          ≡ (if old (m.back_to_main b).value == ss_initial then ss_initial else to_state)

  begin-IsInjective : (m : Image S) → IsInjective m → IsInjective (begin_segment_state_update m)
  unfolding begin_segment_state_update
  begin-IsInjective m inj = record { in_range = inj.in_range; alone = inj.alone }

  committed-IsEqualised :
      (old : ℕ → ℕ) (m : Image S) (to_state : ℕ) (g : Image S)
      → IsInjective m
      → IsRecovered old old to_state 0 (0 + m.nr_back_segments) (begin_segment_state_update m) g
      → IsEqualised old to_state m (commit_segment_state_update g)
  unfolding begin_segment_state_update
  committed-IsEqualised old m to_state g inj r =
      let c = commit-IsUpdating old r.reached g r.updating in
      record {
        main_data = λ b lt some. (commit-SameMemory g).0 _ ∙ r.main_data b lt some ∙ ground arith;
        back_data = λ b lt some. (commit-SameMemory g).1 b ∙ r.back_data b lt some ∙ ground arith;
        states = λ b lt some.
            get_segment_state_lem r.reached r.reached (commit_segment_state_update g) c.0
              (m.back_to_main b).value (rw (c.1, r.size) (inj.in_range b lt some))
            ∙ r.states b lt some
            ∙ ground arith;
      }

  -- From an image whose committed and pending states are the same and whose two tables are inverse
  -- where not null, the recovery to a state returns; for each bound back segment and its main
  -- segment, both then hold the content of the main segment if the state was main, that of the back
  -- segment if it was back, and else what they held, and the state that a read finds is the one
  -- asked for, or the initial one if it was initial.
  pub recovery-IsEqualised :
      (old : ℕ → ℕ) (m : Image S) (to_state : ℕ)
      → IsUpdating old old m
      → IsBound m
      → Returns (IsEqualised old to_state m) (recovery m to_state)
  unfolding recovery begin_segment_state_update
  recovery-IsEqualised old m to_state u bound =
      let inj = IsBound-IsInjective m bound in
      Returns-bind
        (IsRecovered old old to_state 0 (0 + m.nr_back_segments) (begin_segment_state_update m))
        (IsEqualised old to_state m)
        (recovery_loop m.nr_back_segments 0 to_state (begin_segment_state_update m))
        (λ g. ok (commit_segment_state_update g)) (begun inj)
        (λ g r. committed-IsEqualised old m to_state g inj r)
    where
      begun :
          IsInjective m
          → Returns
              (IsRecovered old old to_state 0
                (0 + m.nr_back_segments)
                (begin_segment_state_update m))
              (recovery_loop m.nr_back_segments 0 to_state (begin_segment_state_update m))
      begun inj =
          loop-IsRecovered m.nr_back_segments old old to_state 0 (begin_segment_state_update m)
            (omega arith) (begin-IsInjective m inj) (begin-IsUpdating old old m u) refl
