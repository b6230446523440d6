-- ===== src/Nvm/Cleaner.antt =====
-- NvmInstEngine::WriteBackThreadRoutine, the thread that writes segments back between two checkpoints, and the
-- wait for it.
use libcrpm.Base.{ℕ, zero, suc, ◌+◌, Bool, false, ◌==◌, if◌then◌else◌, Outcome, ok, spins, ◌>>=◌}
use libcrpm.Nvm.Defs.{NvmInstEngine, CleanerState, wb_started, wb_running, wb_idle}
use libcrpm.Nvm.WriteBack.{lazy_write_back}
use libcrpm.Nvm.Checkpoint.{is_busy}

-- The engine and the local variable `segment_id` of the thread.
pub record Cleaner (B : Type 0) : Type 0 where
  pub engine : NvmInstEngine B
  pub segment_id : ℕ

module _ {B : Type 0} where
  -- Once a segment has been looked at: the next, or the end.
  unfoldable pub cleaned : Cleaner B → NvmInstEngine B → Cleaner B
  cleaned c e =
      let next = c.segment_id + 1 in
      let idle = record e { cleaner_state = wb_idle } in
      record { engine = if next == e.nr_segments then idle else e; segment_id = next }

  -- One round of the loop in each state; a wait on the condition variable changes nothing.
  unfoldable pub cleaner_round_in : CleanerState → Cleaner B → Outcome (Cleaner B)
  cleaner_round_in wb_started c =
      ok (record { engine = record c.engine { cleaner_state = wb_running }; segment_id = 0 })
  cleaner_round_in wb_running c =
      let go_on = lazy_write_back c.engine c.segment_id false >>= λ r. ok (cleaned c r.0) in
      if c.engine.checkpoint_in_progress then ok c else go_on
  cleaner_round_in wb_idle c = ok c

  unfoldable pub cleaner_round : Cleaner B → Outcome (Cleaner B)
  cleaner_round c = cleaner_round_in c.engine.cleaner_state c

  -- `n` rounds.
  unfoldable pub cleaner_rounds : ℕ → Cleaner B → Outcome (Cleaner B)
  cleaner_rounds zero c = ok c
  cleaner_rounds (suc n) c = cleaner_round c >>= cleaner_rounds n

  abbrev pub has_background_task : NvmInstEngine B → Bool
  has_background_task e = is_busy e.cleaner_state

  -- `wait_for_background_task`, by the rounds that the cleaner runs meanwhile.
  unfoldable pub wait_for_background_task : ℕ → Cleaner B → Outcome (Cleaner B)
  wait_for_background_task zero c = spins
  wait_for_background_task (suc n) c =
      let later = cleaner_round c >>= wait_for_background_task n in
      let done = record c { engine = record c.engine { checkpoint_traffic = 0 } } in
      if has_background_task c.engine then later else ok done
