-- ===== src/Image/Recovery.antt =====
-- CheckpointImage::recovery, the build without USE_MULTI_THREADS_RECOVERY: main and back segments are
-- made the same, and the states of the bound segments are set.
use libcrpm.Base.{ℕ, zero, suc, ◌+◌, ◌==◌, ◌||◌, if◌then◌else◌, Outcome, ok, ◌>>=◌}
use libcrpm.Constants.{null_segment_index}
use libcrpm.Pm.Region
use libcrpm.Image.Defs.{
  Image, ss_initial, ss_main, ss_back, get_segment_state, set_segment_state,
  begin_segment_state_update, commit_segment_state_update,
}

module _ {S : Type 0} where
  -- The copy between the two segments; the elimination of stores that change nothing is left out.
  unfoldable pub copy_segment : Image S → ℕ → ℕ → ℕ → Image S
  copy_segment m state main_id back_id =
      if state == ss_main
      then record m {
        back_memory = Region.nt_store m.back_memory back_id (m.main_memory.view main_id);
      }
      else (if state == ss_back
          then record m {
            main_memory = Region.nt_store m.main_memory main_id (m.back_memory.view back_id);
          }
          else m)

  -- One round of the loop over the back segments.
  unfoldable pub recovery_round : ℕ → ℕ → Image S → Outcome (Image S)
  recovery_round to_state back_id m =
      let main_id = (m.back_to_main back_id).value in
      let state = get_segment_state m main_id in
      let copied = copy_segment m state main_id back_id in
      if main_id == null_segment_index || state == ss_initial
      then ok m
      else (if to_state == state then ok copied else set_segment_state copied main_id to_state)

  unfoldable pub recovery_loop : ℕ → ℕ → ℕ → Image S → Outcome (Image S)
  recovery_loop zero back_id to_state m = ok m
  recovery_loop (suc n) back_id to_state m =
      recovery_round to_state back_id m >>= recovery_loop n (back_id + 1) to_state

  unfoldable pub recovery : Image S → ℕ → Outcome (Image S)
  recovery m to_state = do
    recovered ← recovery_loop m.nr_back_segments 0 to_state (begin_segment_state_update m)
    ok (commit_segment_state_update recovered)
