-- ===== src/Tests/Hybrid.antt =====
-- The theorems of HybridInstEngine at engines of one and of two segments.
use libcrpm.Base.{
  Bool-cases, inl, ap, not, ◌*◌, ◌==◌, if◌then◌else◌, ℕ, ◌+◌, ◌/◌, ◌<◌, ◌≤◌, ◌≡◌, refl, true, false,
  [], Returns, arith, inr,
}
use libcrpm.Constants.{null_segment_index, blocks_per_segment}
use libcrpm.Pm.Word.{word_on_medium}
use libcrpm.Pm.Region.{on_medium}
use libcrpm.BitSet
use libcrpm.BitSet.Laws.{test-allocate, test-set}
use libcrpm.BitSet.Words.{IsWide, allocate-IsWide, set-IsWide}
use libcrpm.Buckets.{no_action}
use libcrpm.Image.Defs.{Image, ss_main, ss_back, get_segment_state}
use libcrpm.Image.Update.{IsUpdating}
use libcrpm.Hybrid.Defs.{HybridInstEngine, wb_idle}
use libcrpm.Hybrid.Hook.{hook_range}
use libcrpm.Hybrid.Marks.{Marks, is_block_dirty, hook_range-Marks}
use libcrpm.Hybrid.Apply.{prepare_main}
use libcrpm.Hybrid.Overwriting.{IsOverwritten, prepare_main-IsOverwritten}
use libcrpm.Hybrid.Checkpoint.{commit_layout_state, clear_dirty_bits_last_epoch, end_checkpoint}
use libcrpm.Hybrid.Layout.{IsCommitted, commit_layout_state-IsCommitted}
use libcrpm.Hybrid.Turning.{IsTurned, clear-IsTurned}

abbrev content : ℕ → ℕ
content i = i

-- One segment, whose checkpoint is in the main segment, without a back segment.
abbrev image : Image ℕ
image = record {
  nr_main_segments = 1;
  nr_back_segments = 1;
  attributes = word_on_medium 0;
  committed_epoch = word_on_medium 0;
  segment_state = λ bi seg. word_on_medium ss_main;
  back_to_main = λ b. word_on_medium null_segment_index;
  main_to_back = λ seg. null_segment_index;
  segment_state_dirty = λ k. false;
  segment_state_update = false;
  main_memory = on_medium content;
  back_memory = on_medium content;
}

abbrev engine : HybridInstEngine ℕ
engine = record {
  has_snapshot = true;
  image = image;
  working_memory = content;
  nr_blocks = blocks_per_segment;
  nr_segments = 1;
  capacity = 2097152;
  segment_dirty = λ epoch. BitSet.allocate 1;
  block_dirty = λ epoch. BitSet.allocate blocks_per_segment;
  next_thread_id = 0;
  write_back_state = wb_idle;
  write_back_thread_lock = false;
  checkpoint_in_progress = false;
  checkpoint_traffic = 0;
  flush_blocks = λ tid. [];
  flush_mode = no_action;
  prev_flush_mode = no_action;
  address_first = 4096;
  next_back_segment = 0;
  back_memory_lock = false;
  epoch = 1;
}

abbrev in_main : ℕ → ℕ
in_main seg = ss_main

image-IsUpdating : IsUpdating in_main in_main image
image-IsUpdating = record {
  stable = record { epoch = refl; epoch_sure = refl; copy = λ seg lt. (refl, refl) };
  pending = λ seg lt. refl;
  marked = λ seg lt. inr (inr refl, refl);
}

hook_range-Marks_example :
    Marks engine (hook_range engine 0 5000 600)
    × ((x : ℕ)
        → 904 ≤ x
        → x < 904 + 600
        → is_block_dirty (hook_range engine 0 5000 600) (x / 256) ≡ true)
hook_range-Marks_example =
    hook_range-Marks engine 0 5000 600
      (λ b h. absurd (ground (arith, test-allocate blocks_per_segment b, h))) (omega arith)

-- Two segments and one back segment, which `Open` has bound to the first. The second, whose
-- checkpoint is in the main segment, is dirty in the epoch that writes to the main segments.
abbrev stolen_image : Image ℕ
stolen_image = record image {
  nr_main_segments = 2;
  back_to_main = λ b. word_on_medium 0;
  main_to_back = λ seg. if seg == 0 then 0 else null_segment_index;
  main_memory = on_medium content;
  back_memory = on_medium (λ b. 0);
}

abbrev stealing : HybridInstEngine ℕ
stealing = record engine {
  image = stolen_image;
  nr_blocks = 2 * blocks_per_segment;
  nr_segments = 2;
  capacity = 2 * 2097152;
  segment_dirty =
      λ epoch. if epoch == 0 then BitSet.set (BitSet.allocate 2) 1 else BitSet.allocate 2;
  block_dirty = λ epoch. BitSet.allocate (2 * blocks_per_segment);
  epoch = 0;
}

first_rested : BitSet.test (BitSet.set (BitSet.allocate 2) 1) 0 ≡ false
first_rested = ground (arith, test-set (BitSet.allocate 2) 1 0, test-allocate 2 0)

prepare_main-IsOverwritten_example : Returns (IsOverwritten stealing 1) (prepare_main stealing 1)
unfolding get_segment_state
prepare_main-IsOverwritten_example =
    prepare_main-IsOverwritten stealing 1 refl (ap not first_rested) (omega arith) refl refl refl

-- The segment has been dirty in the epoch before, with its block 3.
abbrev marked_before : HybridInstEngine ℕ
marked_before = record engine {
  segment_dirty =
      λ epoch. if epoch == 0 then BitSet.set (BitSet.allocate 1) 0 else BitSet.allocate 1;
  block_dirty = λ epoch.
      if epoch == 0
      then BitSet.set (BitSet.allocate blocks_per_segment) 3
      else BitSet.allocate blocks_per_segment;
}

marked_before-IsWide : (epoch : ℕ) → IsWide (marked_before.segment_dirty epoch)
marked_before-IsWide epoch = elim (Bool-cases (epoch == 0)) [
  | inl before ↦ simp before (set-IsWide (BitSet.allocate 1) 0 (allocate-IsWide 1))
  | inr now ↦ simp now (allocate-IsWide 1)
]

marked_within : (epoch i : ℕ) → 1 ≤ i → BitSet.test (marked_before.segment_dirty epoch) i ≡ false
marked_within epoch i beyond = elim (Bool-cases (epoch == 0)) [
  | inl before ↦
      simp before (ground (arith, test-set (BitSet.allocate 1) 0 i, test-allocate 1 i, beyond))
  | inr now ↦ simp now (test-allocate 1 i)
]

marked_inside :
    (b : ℕ)
    → BitSet.test (marked_before.block_dirty 0) b ≡ true
    → BitSet.test (marked_before.segment_dirty 0) (b / blocks_per_segment) ≡ true
marked_inside b h = ground (
  arith,
  h,
  test-set (BitSet.allocate blocks_per_segment) 3 b,
  test-allocate blocks_per_segment b,
  test-set (BitSet.allocate 1) 0 (b / blocks_per_segment),
)

commit_layout_state-IsCommitted_example :
    Returns (IsCommitted in_main ss_back marked_before) (commit_layout_state ss_back marked_before)
commit_layout_state-IsCommitted_example =
    commit_layout_state-IsCommitted ss_back in_main marked_before marked_before-IsWide refl
      marked_within image-IsUpdating

clear-IsTurned_example :
    IsTurned marked_before (end_checkpoint (clear_dirty_bits_last_epoch marked_before))
clear-IsTurned_example =
    clear-IsTurned marked_before (omega arith) refl (marked_within 0) marked_inside
