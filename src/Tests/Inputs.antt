-- ===== src/Tests/Inputs.antt =====
-- A pool of the smallest capacity whose block `b` holds the number `b`, the same pool after a first
-- call of the hook, and a file that a crash leaves of that.
use libcrpm.Base.{ℕ, ◌+◌, ◌<◌, ◌≡◌, refl, false, arith, List, [], ◌∷◌, inl}
use libcrpm.Pm.Region
use libcrpm.BitSet
use libcrpm.BitSet.Laws.{test-allocate}
use libcrpm.Undo.Defs.{UndoLogEngine, LogEntry, log_size, store_fence}
use libcrpm.Undo.Hook.{push_bucket, release_lock, set_dirty, count_traffic}
use libcrpm.Undo.HookResult.{hooked, IsHooked, hooked-IsHooked}
use libcrpm.Undo.CheckpointResult.{IsTracked}
use libcrpm.Undo.Program.{Action, writes, checkpoints, Copies, Implements, hooked-IsTracked}
use libcrpm.Undo.Open.{open_created, open_created-Implements, blocks_for, layout_for}
use libcrpm.Undo.Recover.{Medium, Leaves}
use libcrpm.Undo.Log.{SafeAt}
use libcrpm.Undo.Safety.{IsLogging, IsLogging-IsSafe}

abbrev pub content : ℕ → ℕ
content b = b

abbrev pub no_entry : ℕ → LogEntry
no_entry o = record { magic = 0; offset = 0; size = 0 }

abbrev pub fresh : UndoLogEngine ℕ
fresh = open_created 0 content no_entry content

abbrev pub start : Copies ℕ
start = record { saved = content; current = content }

abbrev pub trace : List (Action ℕ)
trace = writes 0 5 42 ∷ writes 1 5 43 ∷ checkpoints 2 ∷ writes 1 7 44 ∷ []

pub fresh-Implements : Implements start fresh
fresh-Implements = open_created-Implements 0 content no_entry content

pub fresh-room : fresh.log_head + log_size < fresh.log_capacity
unfolding open_created layout_for blocks_for
fresh-room = omega arith

pub fresh-unmarked : BitSet.test fresh.block_dirty 5 ≡ false
unfolding open_created
fresh-unmarked = test-allocate (blocks_for 0) 5

pub fresh-block : 5 < fresh.nr_blocks
unfolding open_created blocks_for
fresh-block = omega arith

abbrev pub touched : UndoLogEngine ℕ
touched = hooked content fresh 0 5

touched-IsHooked : IsHooked content 0 5 fresh touched
touched-IsHooked = hooked-IsHooked content fresh 0 5 fresh-Implements.logging fresh-unmarked

pub touched-IsLogging : IsLogging content touched
touched-IsLogging = touched-IsHooked.logging

pub touched-IsTracked : IsTracked touched
touched-IsTracked =
    hooked-IsTracked content fresh touched 0 5 (omega arith) fresh-block fresh-Implements.tracked
      touched-IsHooked

-- What the program sees may be what is left.
abbrev pub left_over : Medium ℕ
left_over = record {
  nr_blocks = touched.nr_blocks;
  data_offset = touched.address_first;
  log_capacity = touched.log_capacity;
  attributes = touched.attributes.value;
  log_head = touched.header_log_head.value;
  heap = touched.heap.view;
  entries = touched.entries.view;
  payloads = touched.payloads.view;
}

pub touched-Leaves : Leaves touched left_over
touched-Leaves = record {
  nr_blocks = refl;
  data_offset = refl;
  log_capacity = refl;
  attributes = inl refl;
  log_head = inl refl;
  heap = λ i h. refl;
  entries = λ i h. refl;
  payloads = λ i h. refl;
}

pub touched-Implements : Implements start touched
unfolding push_bucket release_lock set_dirty count_traffic store_fence Region.fence open_created
touched-Implements = record {
  logging = touched-IsLogging;
  tracked = touched-IsTracked;
  data_current = λ b. refl;
}

pub touched-SafeAt : SafeAt content touched left_over.log_head
touched-SafeAt =
    IsLogging-IsSafe content touched touched-IsLogging left_over.log_head touched-Leaves.log_head
