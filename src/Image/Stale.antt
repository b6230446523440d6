-- ===== src/Image/Stale.antt =====
-- An update after a restart: `Open` does not make the two copies of the states the same, and it marks
-- no line.
use libcrpm.Base.{ℕ, ◌-◌, ◌%◌, ◌≡◌, refl, ◌∙◌, ap, false}
use libcrpm.Pm.Word
use libcrpm.Pm.Run.{run, AtEachPoint-run}
use libcrpm.Image.Defs.{
  Image, bi_epoch, store_fence, get_segment_state, begin_segment_state_update, flush_round,
  copy_round, rounds, lines, next_epoch, flush_instructions, copy_instructions, published,
  commit_segment_state_update,
}
use libcrpm.Image.Crash.{rounds-keep}
use libcrpm.Image.Commit.{next_parity}
use libcrpm.Image.Open.{ImageMedium, open_image}

module _ {S : Type 0} where
  -- Without a marked line the loops of a commit do nothing.
  record IsQuiet (m g : Image S) : Type 0 where
    marks : (k : ℕ) → g.segment_state_dirty k ≡ false
    epoch : g.committed_epoch ≡ m.committed_epoch
    values : (bi seg : ℕ) → (g.segment_state bi seg).value ≡ (m.segment_state bi seg).value

  flush_round-IsQuiet :
      (bi : ℕ) (m : Image S) (k : ℕ) (g : Image S) → IsQuiet m g → IsQuiet m (flush_round bi k g)
  unfolding flush_round
  flush_round-IsQuiet bi m k g q = rw (q.marks k) q

  copy_round-IsQuiet :
      (bi : ℕ) (m : Image S) (k : ℕ) (g : Image S) → IsQuiet m g → IsQuiet m (copy_round bi k g)
  unfolding copy_round
  copy_round-IsQuiet bi m k g q = rw (q.marks k) q

  rounds-IsQuiet :
      (round : ℕ → Image S → Image S) (n : ℕ) (m : Image S)
      → ((k : ℕ) (g : Image S) → IsQuiet m g → IsQuiet m (round k g))
      → ((k : ℕ) → m.segment_state_dirty k ≡ false)
      → IsQuiet m (run (rounds round n 0) m)
  rounds-IsQuiet round n m keep off = AtEachPoint-run (IsQuiet m) (rounds round n 0) m (
      rounds-keep (IsQuiet m) round keep n 0 m
        (record { marks = off; epoch = refl; values = λ bi seg. refl }))

  -- A commit without a marked line makes the states of the other copy the current ones.
  pub commit_unmarked :
      (m : Image S)
      → ((k : ℕ) → m.segment_state_dirty k ≡ false)
      → (seg : ℕ)
      → get_segment_state (commit_segment_state_update m) seg
        ≡ (m.segment_state (1 - bi_epoch m) seg).value
  unfolding get_segment_state commit_segment_state_update published store_fence Word.fence
      Word.nt_store
  commit_unmarked m off seg = rw (c.epoch) (
      c.values (next_epoch m % 2) seg
      ∙ f.values (next_epoch m % 2) seg
      ∙ ap (λ bi. (m.segment_state bi seg).value) (next_parity m))
    where
      f : IsQuiet m (run (flush_instructions m) m)
      f =
          rounds-IsQuiet (flush_round (next_epoch m % 2)) (lines m) m
            (flush_round-IsQuiet (next_epoch m % 2) m) off

      c : IsQuiet (published m) (run (copy_instructions m) (published m))
      c =
          rounds-IsQuiet (copy_round (next_epoch m % 2)) (lines m) (published m)
            (copy_round-IsQuiet (next_epoch m % 2) (published m)) f.marks

  -- After a restart, an update that sets no state commits, for each segment, the state that the
  -- file has in the copy which its epoch does not name.
  pub reopened-commit :
      (f : ImageMedium S) (seg : ℕ)
      → get_segment_state
          (commit_segment_state_update (begin_segment_state_update (open_image f)))
          seg
        ≡ f.segment_state (1 - f.committed_epoch % 2) seg
  unfolding begin_segment_state_update open_image
  reopened-commit f seg =
      commit_unmarked (begin_segment_state_update (open_image f)) (λ k. refl) seg
