-- ===== src/Tests/Nvm.antt =====
-- The theorems of NvmInstEngine at an engine of one segment, whose data are in its main segment.
use libcrpm.Base.{
  ℕ, ◌+◌, ◌*◌, ◌/◌, ◌≡◌, inl, inr, refl, true, false, List, [], ◌∷◌, ◌==◌, Returns, All, arith,
  contains, leb, ltb, ◌&&◌, if◌then◌else◌, ◌≤◌, Bool-cases,
}
use libcrpm.Constants.{null_segment_index, blocks_per_segment, max_threads}
use libcrpm.Pm.Word.{word_on_medium}
use libcrpm.Pm.Region.{on_medium}
use libcrpm.BitSet
use libcrpm.BitSet.{BitSet}
use libcrpm.BitSet.Laws.{test-allocate, test-set}
use libcrpm.BitSet.Words.{set-IsWide, allocate-IsWide, scan_words, scan_words_lem}
use libcrpm.Buckets.{in_buckets, threads}
use libcrpm.Image.Defs.{Image, ss_initial, ss_main, ss_back}
use libcrpm.Image.Update.{IsUpdating}
use libcrpm.Image.Binding.{IsBound, bind_back_segment}
use libcrpm.Nvm.Defs.{NvmInstEngine, cell, lock_of, wb_started}
use libcrpm.Nvm.Open.{new_engine}
use libcrpm.Nvm.Protection.{Medium, Leaves, Snapshot, Covers}
use libcrpm.Nvm.Invariant.{IsProtected}
use libcrpm.Nvm.Program.{Program}
use libcrpm.Nvm.Buffers.{waiting}
use libcrpm.Nvm.Running.{IsRunning}
use libcrpm.Nvm.Session.{
  Store, IsValidStore, HasRun, instrumented_stores, instrumented_stores-HasRun,
}
use libcrpm.Nvm.Hook.{hook_segment}
use libcrpm.Nvm.HookCrash.{IsCrashSafe, hook_instructions, hook_segment-IsCrashSafe}
use libcrpm.Nvm.Hooked.{Hooking, locked, hook_segment-Hooking}
use libcrpm.Nvm.BackSegment.{find_back_segment}
use libcrpm.Nvm.Finding.{IsReady, Finding, find_back_segment-Finding}
use libcrpm.Nvm.Checkpoint.{checkpoint_by_wbinvd}
use libcrpm.Nvm.Whole.{IsWhole, checkpoint_by_wbinvd-IsWhole}
use libcrpm.Nvm.Cleaner.{Cleaner, wait_for_background_task}
use libcrpm.Nvm.Cleaning.{IsDone, wait_for_background_task-IsDone}
use libcrpm.Nvm.Exposed.{IsExposed, bind-IsExposed}
use libcrpm.Pm.Word
use libcrpm.Pm.Region
use libcrpm.Image.Defs

abbrev content : ℕ → ℕ
content i = i

abbrev image : Image ℕ
image = record {
  nr_main_segments = 1;
  nr_back_segments = 1;
  attributes = word_on_medium 0;
  committed_epoch = word_on_medium 0;
  segment_state = λ bi seg. word_on_medium ss_main;
  back_to_main = λ b. word_on_medium 0;
  main_to_back = λ seg. 0;
  segment_state_dirty = λ k. false;
  segment_state_update = false;
  main_memory = on_medium content;
  back_memory = on_medium content;
}

abbrev engine : NvmInstEngine ℕ
engine = new_engine image 4096 true

abbrev snapshot : Snapshot ℕ
snapshot = record { nr_main = 1; nr_back = 1; content = content; promised = λ x. true }

abbrev in_main : ℕ → ℕ
in_main seg = ss_main

image-IsUpdating : IsUpdating in_main in_main image
image-IsUpdating = record {
  stable = record { epoch = refl; epoch_sure = refl; copy = λ seg lt. (refl, refl) };
  pending = λ seg lt. refl;
  marked = λ seg lt. inr (inr refl, refl);
}

image-IsBound : IsBound image
image-IsBound = record {
  forward = λ i b lt at some. (omega arith, omega arith);
  backward = λ b i lt at some. (omega arith, omega arith);
}

image-Covers : (n : ℕ) → Covers snapshot (BitSet.test (BitSet.allocate n)) in_main image
image-Covers n = record {
  main_size = refl;
  back_size = refl;
  few_main = omega arith;
  few_back = omega arith;
  bound = image-IsBound;
  bound_sure = λ b lt. refl;
  main_kept = λ seg k p idle. (refl, refl);
  back_kept = λ seg k p back some. absurd (omega arith);
  dirty_kept = λ seg k p dirty. absurd (ground (arith, test-allocate n seg));
}

nothing_waits : (is : List ℕ) (x : ℕ) → in_buckets (λ t. []) is x ≡ false
nothing_waits [] x = refl
nothing_waits (t ∷ is) x = nothing_waits is x

abbrev buffers : ℕ → List ℕ
buffers t = []

engine-IsProtected : IsProtected snapshot (waiting engine buffers) in_main engine
unfolding new_engine
engine-IsProtected = record {
  updating = image-IsUpdating;
  covers = image-Covers 1;
  promised_states = λ seg k p. omega arith;
  known_states = λ seg lt. inr (inl refl);
  synced = λ seg k p some told clean. (omega (arith, p.0), refl);
  pending_dirty = λ seg k lt k_lt waits.
      absurd (ground (arith, nothing_waits (threads max_threads 0) (cell seg k)));
  blocks = refl;
  wide = allocate-IsWide (1 * blocks_per_segment);
  next_in_range = omega arith;
}

abbrev program : Program ℕ
program = record { engine = engine; address_buffer = buffers; spinlock = λ i. false }

program-IsRunning : IsRunning snapshot in_main program
unfolding new_engine
program-IsRunning = record {
  protected = engine-IsProtected;
  all_bound = λ i lt. omega arith;
  not_skipped = refl;
  locks_free = λ l. refl;
  back_lock_free = refl;
  buffers_free = λ i. refl;
  size = refl;
}

-- Two threads write, the second where the first wrote.
abbrev writes : List (Store ℕ)
writes =
    record { tid = 3; addr = 4196; value = 7 } ∷ record { tid = 5; addr = 4097; value = 8 } ∷ []

writes_valid : All (IsValidStore program.engine) writes
unfolding new_engine
writes_valid = ((refl, omega arith), ((refl, omega arith), tt))

instrumented_stores-HasRun_example :
    Returns (HasRun snapshot program writes) (instrumented_stores program writes)
instrumented_stores-HasRun_example =
    instrumented_stores-HasRun snapshot in_main program writes program-IsRunning writes_valid

engine_idle : BitSet.test engine.segment_dirty 0 ≡ false
unfolding new_engine
engine_idle = test-allocate 1 0

engine_open :
    (engine.skip_copy_on_write ≡ false)
    × (engine.segment_locks (lock_of 0) ≡ false)
    × (engine.back_memory_lock ≡ false)
unfolding new_engine
engine_open = (refl, refl, refl)

hook_segment-IsCrashSafe_example :
    IsCrashSafe snapshot engine.image
      (hook_instructions (locked engine 0) 0)
      (hook_segment engine 0)
hook_segment-IsCrashSafe_example =
    hook_segment-IsCrashSafe snapshot (waiting engine buffers) in_main engine 0 engine-IsProtected
      (omega arith) engine_idle (λ back. omega arith) engine_open.0 engine_open.1 engine_open.2

hook_segment-Hooking_example :
    Hooking snapshot (waiting engine buffers) engine 0 (hook_segment engine 0)
hook_segment-Hooking_example =
    hook_segment-Hooking snapshot (waiting engine buffers) in_main engine 0 engine-IsProtected
      (omega arith) engine_idle (λ back. omega arith) engine_open.0 engine_open.1 engine_open.2

-- An image without any back segment in use.
abbrev unbound : Image ℕ
unbound = record image {
  back_to_main = λ b. word_on_medium null_segment_index;
  main_to_back = λ seg. null_segment_index;
}

unbound-IsReady : IsReady (new_engine unbound 4096 true)
unfolding new_engine
unbound-IsReady = record {
  bound = record {
    forward = λ i b lt at some. absurd (omega arith);
    backward = λ b i lt at some. absurd (omega arith);
  };
  few_main = omega arith;
  few_back = omega arith;
  next_in_range = omega arith;
  unlocked = refl;
}

find_back_segment-Finding_example :
    Finding (new_engine unbound 4096 true) 0 (find_back_segment (new_engine unbound 4096 true) 0)
find_back_segment-Finding_example =
    find_back_segment-Finding (new_engine unbound 4096 true) 0 unbound-IsReady
      (unfold new_engine in omega arith)

abbrev dirty_engine : NvmInstEngine ℕ
dirty_engine = record engine { segment_dirty = BitSet.set (BitSet.allocate 1) 0 }

dirty_within : (i : ℕ) → 1 ≤ i → BitSet.test dirty_engine.segment_dirty i ≡ false
dirty_within i h = ground (arith, test-set (BitSet.allocate 1) 0 i, test-allocate 1 i)

checkpoint_by_wbinvd-IsWhole_example :
    Returns (IsWhole in_main dirty_engine) (checkpoint_by_wbinvd dirty_engine 2)
unfolding new_engine
checkpoint_by_wbinvd-IsWhole_example =
    checkpoint_by_wbinvd-IsWhole in_main dirty_engine 2 image-IsUpdating refl
      (set-IsWide (BitSet.allocate 1) 0 (allocate-IsWide 1)) dirty_within

abbrev started : Cleaner ℕ
started = record { engine = record engine { cleaner_state = wb_started }; segment_id = 5 }

wait_for_background_task-IsDone_example :
    Returns IsDone (wait_for_background_task (started.engine.nr_segments + 2) started)
unfolding new_engine
wait_for_background_task-IsDone_example =
    wait_for_background_task-IsDone started refl refl (λ l. refl) (omega arith)

abbrev bits : BitSet
bits = BitSet.set (BitSet.set (BitSet.allocate 200) 70) 3

scan_words_lem_example :
    contains (scan_words 4 bits 0 200) 70
    ≡ (leb 0 70 && (ltb (70 / 64 * 64) 200 && BitSet.test bits 70))
scan_words_lem_example =
    scan_words_lem bits
      (set-IsWide (BitSet.set (BitSet.allocate 200) 70) 3
        (set-IsWide (BitSet.allocate 200) 70 (allocate-IsWide 200)))
      4 0 200 70 refl (omega arith)

-- A segment that a restart takes from its back segment, and that has lost it.
abbrev stolen : Image ℕ
stolen = record unbound { segment_state = λ bi seg. word_on_medium ss_back }

abbrev in_back : ℕ → ℕ
in_back seg = ss_back

stolen-IsUpdating : IsUpdating in_back in_back stolen
stolen-IsUpdating = record {
  stable = record { epoch = refl; epoch_sure = refl; copy = λ seg lt. (refl, refl) };
  pending = λ seg lt. refl;
  marked = λ seg lt. inr (inr refl, refl);
}

abbrev crashed : Medium ℕ
crashed = record {
  states = record { committed_epoch = 0; segment_state = λ bi seg. ss_back };
  back_to_main = λ b. if 0 == b then 0 else null_segment_index;
  main_memory = content;
  back_memory = content;
}

crashed-Leaves : Leaves (bind_back_segment stolen 0 0) crashed
unfolding bind_back_segment Defs.store_fence Word.fence Word.nt_store Region.fence
crashed-Leaves = record {
  states = record { committed_epoch = inl refl; segment_state = λ bi seg. inl refl };
  back_to_main = λ b. elim (Bool-cases (0 == b)) [
    | inl here ↦ rw here (inl refl)
    | inr there ↦ rw there (inl refl)
  ];
  main_memory = λ x h. refl;
  back_memory = λ x h. refl;
}

bind-IsExposed_example : IsExposed stolen 0 0 crashed
bind-IsExposed_example =
    bind-IsExposed in_back stolen 0 0 crashed stolen-IsUpdating (omega arith) refl refl
      crashed-Leaves
