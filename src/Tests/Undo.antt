-- ===== src/Tests/Undo.antt =====
-- The theorems of the undo-log engine at the pool and the file of the inputs.
use libcrpm.Base.{
  none, some, ℕ, max, ◌+◌, ◌*◌, ◌≤◌, ◌<◌, ◌/◌, ◌≡◌, ◌≢◌, refl, arith, [], ◌∷◌, length, Returns,
}
use libcrpm.Constants.{block_size, min_container_size}
use libcrpm.Pm.Run.{AtEachPoint}
use libcrpm.Buckets.{use_flush_blocks, no_action, scan, mode_of, push, scan_sizes}
use libcrpm.Undo.Defs.{log_size, store_fence}
use libcrpm.Undo.Hook.{hook_block, push_bucket, release_lock, set_dirty, count_traffic}
use libcrpm.Undo.HookResult.{IsRecoverable, Hooking, hook_block-Hooking}
use libcrpm.Undo.HookRange.{IsRangeHooked, hook_range-IsHooked}
use libcrpm.Undo.Hook.{hook_range}
use libcrpm.Undo.Checkpoint.{checkpoint, commit_instructions}
use libcrpm.Undo.CheckpointResult.{IsCheckpointed, checkpoint-IsCheckpointed}
use libcrpm.Undo.CheckpointCrash.{commit-crash_safe, cleared, IsEither}
use libcrpm.Undo.Open.{
  open_created, open_existing-Implements, layout_for, layout_for_lem, blocks_for,
}
use libcrpm.Undo.Program.{run_actions, run_actions_crash, spec_run, Implements}
use libcrpm.Undo.Recover.{
  recover, reopen, open_existing, truncate_instructions, recover_rounds, LeadsTo,
}
use libcrpm.Undo.RecoverCrash.{in_loop, recover_rounds-crash_safe, truncate-crash_safe}
use libcrpm.Undo.Restore.{IsRestored, recover-IsRestored}
use libcrpm.Undo.Registry.{
  Engine, Registry, no_engines, do_register, do_unregister, find, insert, erase, default_after,
  find_from, find_other, search_engines, find-do_unregister,
}
use libcrpm.Tests.Inputs.{
  content, fresh, start, trace, fresh-Implements, touched, touched-Implements, touched-IsLogging,
  touched-IsTracked, left_over, touched-Leaves, touched-SafeAt,
}

trace_room : fresh.log_head + log_size * length trace < fresh.log_capacity
unfolding open_created layout_for blocks_for
trace_room = omega arith

trace_blocks : (5 < fresh.nr_blocks) × (7 < fresh.nr_blocks)
unfolding open_created blocks_for
trace_blocks = (omega arith, omega arith)

run_actions_crash_example :
    Returns
      (λ f.
        ((b : ℕ) → f.heap.view b ≡ (spec_run start trace).current b)
        × IsRecoverable (spec_run start trace).saved f)
      (run_actions fresh trace)
run_actions_crash_example =
    run_actions_crash start fresh trace fresh-Implements
      (
        (omega arith, trace_blocks.0),
        ((omega arith, trace_blocks.0), (omega arith, ((omega arith, trace_blocks.1), tt))),
      )
      trace_room

touched-mode : mode_of (scan touched.flush_blocks) ≡ use_flush_blocks
unfolding mode_of scan scan_sizes push push_bucket release_lock set_dirty count_traffic store_fence
    open_created
touched-mode = refl

use_flush_blocks_acts : use_flush_blocks ≢ no_action
use_flush_blocks_acts p = cc

commit-crash_safe_example :
    AtEachPoint
      (IsEither content touched touched-IsLogging 2 touched-IsTracked
        (omega arith)
        use_flush_blocks
        touched-mode
        use_flush_blocks_acts)
      commit_instructions
      (cleared content touched touched-IsLogging 2 touched-IsTracked
        (omega arith)
        use_flush_blocks
        touched-mode
        use_flush_blocks_acts)
commit-crash_safe_example =
    commit-crash_safe content touched touched-IsLogging 2 touched-IsTracked (omega arith)
      use_flush_blocks touched-mode use_flush_blocks_acts

checkpoint-IsCheckpointed_example : IsCheckpointed touched (checkpoint touched 2)
checkpoint-IsCheckpointed_example =
    checkpoint-IsCheckpointed content touched touched-IsLogging 2 touched-IsTracked (omega arith)

open_existing-Implements_example :
    Returns
      (Implements (record { saved = start.saved; current = start.saved }))
      (open_existing left_over)
open_existing-Implements_example =
    open_existing-Implements start touched touched-Implements left_over touched-Leaves

hook_block-Hooking_example : Hooking content 0 5 fresh (hook_block fresh 0 5)
hook_block-Hooking_example = hook_block-Hooking content fresh 0 5 fresh-Implements.logging

range_room : fresh.log_head + log_size * (1000 / block_size + 2) < fresh.log_capacity
unfolding open_created layout_for blocks_for
range_room = omega arith

hook_range-IsHooked_example :
    Returns
      (IsRangeHooked content 700 (700 + 1000) fresh)
      (hook_range fresh 0 (fresh.address_first + 700) 1000)
hook_range-IsHooked_example =
    hook_range-IsHooked content fresh 0 700 1000 fresh-Implements.logging range_room

recover_rounds-crash_safe_example :
    LeadsTo (IsRecoverable content) (recover_rounds 1 (reopen left_over) 0)
recover_rounds-crash_safe_example =
    recover_rounds-crash_safe content touched left_over touched-Leaves touched-SafeAt 1

truncate-crash_safe_example :
    AtEachPoint
      (IsRecoverable content)
      truncate_instructions
      (in_loop content touched left_over touched-Leaves touched-SafeAt touched-SafeAt.ids)
truncate-crash_safe_example =
    truncate-crash_safe content touched left_over touched-Leaves touched-SafeAt

recover-IsRestored_example : Returns (IsRestored content) (recover (reopen left_over))
recover-IsRestored_example =
    recover-IsRestored content touched left_over touched-Leaves touched-SafeAt

layout_for_lem_example :
    (max 20000000 min_container_size ≤ blocks_for 20000000 * block_size)
    × (blocks_for 20000000 * block_size < max 20000000 min_container_size + block_size)
    × ((layout_for 20000000).log_capacity ≡ blocks_for 20000000 * block_size)
    × ((layout_for 20000000).data_offset + blocks_for 20000000 * block_size
        ≡ (layout_for 20000000).log_offset)
    × ((layout_for 20000000).log_offset + (layout_for 20000000).log_capacity
        ≡ (layout_for 20000000).fs_size)
layout_for_lem_example = layout_for_lem 20000000

abbrev first_engine : Engine
first_engine = record { id = 1; first = 1000; second = 2000 }

abbrev second_engine : Engine
second_engine = record { id = 2; first = 3000; second = 4000 }

abbrev both_engines : Registry
both_engines = do_register (do_register no_engines first_engine) second_engine

found : find both_engines 3500 ≡ some second_engine
unfolding find do_register insert erase default_after find_from find_other search_engines
found = refl

find-do_unregister_example :
    (find (do_unregister (do_register (do_register no_engines first_engine) second_engine) 1) 3500
      ≡ none)
    × ((do_unregister (do_register (do_register no_engines first_engine) second_engine) 1).engines
        ≡ second_engine ∷ [])
find-do_unregister_example = find-do_unregister first_engine second_engine 3500 (omega arith)
