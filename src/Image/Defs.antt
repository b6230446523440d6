-- ===== src/Image/Defs.antt =====
-- The state of a CheckpointImage, and its operations on the states of the segments.
use libcrpm.Base.{
  ℕ, zero, suc, ◌+◌, ◌-◌, ◌/◌, ◌%◌, ◌^◌, Bool, true, false, List, [], ◌∷◌, ◌++◌, ◌==◌,
  if◌then◌else◌, update, Outcome, ok, exited,
}
use libcrpm.Pm.Region.{Region}
use libcrpm.Pm.Region
use libcrpm.Pm.Word.{Word}
use libcrpm.Pm.Word
use libcrpm.Pm.WordArray.{store_at, fence_all, flush_at, flush_line, copy_line}
use libcrpm.Pm.Run.{run}

-- SS_Initial, SS_Main, SS_Back, SS_Identical.
abbrev pub ss_initial : ℕ
ss_initial = 0

abbrev pub ss_main : ℕ
ss_main = 1

abbrev pub ss_back : ℕ
ss_back = 2

abbrev pub ss_identical : ℕ
ss_identical = 3

-- `segment_state` has the two copies, 0 and 1; `segment_state_update` is the flag of the thread; `S`
-- is the content of a segment.
pub record Image (S : Type 0) : Type 0 where
  pub nr_main_segments : ℕ
  pub nr_back_segments : ℕ
  pub attributes : Word
  pub committed_epoch : Word
  pub segment_state : ℕ → ℕ → Word
  pub back_to_main : ℕ → Word
  pub main_to_back : ℕ → ℕ
  pub segment_state_dirty : ℕ → Bool
  pub segment_state_update : Bool
  pub main_memory : Region S
  pub back_memory : Region S

module _ {S : Type 0} where
  unfoldable pub store_fence : Image S → Image S
  store_fence m = record m {
    attributes = Word.fence m.attributes;
    committed_epoch = Word.fence m.committed_epoch;
    segment_state = λ bi. fence_all (m.segment_state bi);
    back_to_main = fence_all m.back_to_main;
    main_memory = Region.fence m.main_memory;
    back_memory = Region.fence m.back_memory;
  }

  -- `header->committed_epoch & 1`.
  abbrev pub bi_epoch : Image S → ℕ
  bi_epoch m = m.committed_epoch.value % 2

  unfoldable pub get_segment_state : Image S → ℕ → ℕ
  get_segment_state m segment_id = (m.segment_state (bi_epoch m) segment_id).value

  unfoldable pub begin_segment_state_update : Image S → Image S
  begin_segment_state_update m = record m { segment_state_update = true }

  -- The slot is that of the copy which the epoch does not name.
  unfoldable pub write_slot : Image S → ℕ → ℕ → Image S
  write_slot m segment_id state =
      let bi = 1 - bi_epoch m in
      let written = record m {
        segment_state = update m.segment_state bi (store_at (m.segment_state bi) segment_id state);
        segment_state_dirty = update m.segment_state_dirty (segment_id / 64) true;
      } in
      if (m.segment_state bi segment_id).value == state then m else written

  unfoldable pub set_segment_state : Image S → ℕ → ℕ → Outcome (Image S)
  set_segment_state m segment_id state =
      if m.segment_state_update then ok (write_slot m segment_id state) else exited

  -- One round of the first loop of the commit, for the line `k` of the copy `bi`.
  unfoldable pub flush_round : ℕ → ℕ → Image S → Image S
  flush_round bi k m =
      let flushed = record m {
        segment_state = update m.segment_state bi (flush_line (m.segment_state bi) k);
      } in
      if m.segment_state_dirty k then flushed else m

  -- One round of the second loop: the line goes to the other copy, and its mark is cleared.
  unfoldable pub copy_round : ℕ → ℕ → Image S → Image S
  copy_round bi k m =
      let other = 1 - bi in
      let copied = record m {
        segment_state =
            update m.segment_state other (copy_line (m.segment_state other) (m.segment_state bi) k);
        segment_state_dirty = update m.segment_state_dirty k false;
      } in
      if m.segment_state_dirty k then copied else m

  -- `for (i = 0; i < nr_main_segments; i += kRecordsPerCacheLine)`, by the rounds that are left.
  abbrev pub rounds : (ℕ → Image S → Image S) → ℕ → ℕ → List (Image S → Image S)
  rounds round zero k = []
  rounds round (suc n) k = round k ∷ rounds round n (k + 1)

  abbrev pub lines : Image S → ℕ
  lines m = (m.nr_main_segments + 63) / 64

  -- `uint32_t next_epoch = header->committed_epoch + 1`.
  abbrev pub next_epoch : Image S → ℕ
  next_epoch m = (m.committed_epoch.value + 1) % 2 ^ 32

  abbrev pub publish_instructions : ℕ → List (Image S → Image S)
  publish_instructions next =
      store_fence
      ∷ (λ m. record m { committed_epoch = Word.nt_store m.committed_epoch next })
      ∷ store_fence
      ∷ []

  abbrev pub flush_instructions : Image S → List (Image S → Image S)
  flush_instructions m = rounds (flush_round (next_epoch m % 2)) (lines m) 0

  abbrev pub copy_instructions : Image S → List (Image S → Image S)
  copy_instructions m = rounds (copy_round (next_epoch m % 2)) (lines m) 0

  -- The engine once the new epoch is on the medium.
  unfoldable pub published : Image S → Image S
  published m = run (publish_instructions (next_epoch m)) (run (flush_instructions m) m)

  unfoldable pub commit_segment_state_update : Image S → Image S
  commit_segment_state_update m = record (run (copy_instructions m) (published m)) {
    segment_state_update = false;
  }

  -- The slot of the current copy is written, flushed and fenced, then that of the other copy.
  abbrev pub slot_instructions : ℕ → ℕ → ℕ → List (Image S → Image S)
  slot_instructions bi segment_id state =
      (λ m. record m {
        segment_state = update m.segment_state bi (store_at (m.segment_state bi) segment_id state);
      })
      ∷ (λ m. record m {
        segment_state = update m.segment_state bi (flush_at (m.segment_state bi) segment_id);
      })
      ∷ []

  abbrev pub atomic_instructions : ℕ → ℕ → ℕ → List (Image S → Image S)
  atomic_instructions bi segment_id state =
      slot_instructions bi segment_id state
      ++ (store_fence ∷ slot_instructions (1 - bi) segment_id state)

  unfoldable pub set_segment_state_atomic : Image S → ℕ → ℕ → Image S
  set_segment_state_atomic m segment_id state =
      run (atomic_instructions (bi_epoch m) segment_id state) m
