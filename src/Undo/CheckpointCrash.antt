-- ===== src/Undo/CheckpointCrash.antt =====
-- A crash inside the commit of UndoLogEngine::checkpoint.
use libcrpm.Base.{
  ℕ, ◌*◌, ◌<◌, ◌≡◌, ◌≢◌, ◌⊎◌, inl, inr, refl, ◌∙◌, ap, true, [], ◌∷◌, length, arith, Returns,
}
use libcrpm.Pm.Region.{Region, clean, settled}
use libcrpm.Pm.Region
use libcrpm.Pm.Word.{Word, May, May-sure}
use libcrpm.Pm.Word
use libcrpm.Pm.Run.{AtEachPoint}
use libcrpm.Buckets.{FlushMode, no_action, scan, mode_of}
use libcrpm.Undo.Defs.{UndoLogEngine, log_size, store_fence}
use libcrpm.Undo.Checkpoint.{commit_instructions, flushed_by}
use libcrpm.Undo.Clear.{SameButMarks}
use libcrpm.Undo.Flush.{flushed_by-Still}
use libcrpm.Undo.Keeps.{Still, Keeps-Logged, Keeps-Kept}
use libcrpm.Undo.Log.{SafeAt}
use libcrpm.Undo.Recover.{Medium, Leaves, recover, reopen}
use libcrpm.Undo.Restore.{IsRestored, recover-IsRestored}
use libcrpm.Undo.Safety.{IsLogging}
use libcrpm.Undo.CheckpointResult
use libcrpm.Undo.CheckpointResult.{IsTracked}

module _ {B : Type 0} where
  module _ (snap : ℕ → B) (e : UndoLogEngine B) (l : IsLogging snap e) (n : ℕ) (t : IsTracked e)
      (pos : 0 < n) (mode : FlushMode) (m : mode_of (scan e.flush_blocks) ≡ mode)
      (act : mode ≢ no_action) where
    -- The engine after the flush and the clearing phases.
    abbrev pub cleared : UndoLogEngine B
    cleared = CheckpointResult.cleared snap e l n t pos mode m act

    same : SameButMarks (flushed_by mode n e) cleared
    same = CheckpointResult.same snap e l n t pos mode m act

    cleared_view : (b : ℕ) → cleared.heap.view b ≡ e.heap.view b
    cleared_view = CheckpointResult.cleared_view snap e l n t pos mode m act

    cleared_clean : (b : ℕ) → cleared.heap.status b ≡ clean
    cleared_clean = CheckpointResult.cleared_clean snap e l n t pos mode m act

    -- The data of the last checkpoint, or the data of this one.
    abbrev pub IsEither : UndoLogEngine B → Type 0
    IsEither g =
        (f : Medium B)
        → Leaves g f
        → Returns (IsRestored snap) (recover (reopen f))
          ⊎ Returns (IsRestored e.heap.view) (recover (reopen f))

    flushed-Still : Still (log_size * length l.ids) e (flushed_by mode n e)
    flushed-Still = flushed_by-Still mode n (log_size * length l.ids) e

    -- While the head of the log is the old one, the old data can be recovered.
    old_SafeAt :
        (g : UndoLogEngine B) (v : ℕ)
        → g.heap ≡ cleared.heap
        → g.entries ≡ cleared.entries
        → g.payloads ≡ cleared.payloads
        → May cleared.header_log_head v
        → SafeAt snap g v
    old_SafeAt g v hd he hp may = record {
      ids = l.ids;
      reaches = at;
      logged =
          rw (he, hp, same.entries, same.payloads)
            (Keeps-Logged snap _ e (flushed_by mode n e) flushed-Still.keeps l.ids (omega arith)
              l.logged);
      kept =
          rw (hd, same.heap)
            (Keeps-Kept snap _ e (flushed_by mode n e) flushed-Still.keeps l.ids l.kept);
    }
      where
        at : v ≡ log_size * length l.ids
        at =
            May-sure (flushed_by mode n e).header_log_head v (flushed-Still.sure l.head_sure)
              (rw same.head at may)
            ∙ flushed-Still.head
            ∙ l.head

    -- Once the head is 0, it is the new data that is recovered.
    new_SafeAt :
        (g : UndoLogEngine B) (v : ℕ)
        → ((b : ℕ) → g.heap.view b ≡ cleared.heap.view b)
        → ((b : ℕ) → cleared.heap.status b ≡ clean → g.heap.status b ≡ clean)
        → v ≡ 0
        → SafeAt e.heap.view g v
    new_SafeAt g v view still z = record {
      ids = [];
      reaches = omega arith;
      logged = tt;
      kept = λ b out. (view b ∙ cleared_view b, still b (cleared_clean b));
    }

    before_truncation :
        (g : UndoLogEngine B)
        → g.header_log_head ≡ cleared.header_log_head
        → g.heap ≡ cleared.heap
        → g.entries ≡ cleared.entries
        → g.payloads ≡ cleared.payloads
        → IsEither g
    before_truncation g hh hd he hp f left = inl (
        recover-IsRestored snap g f left
          (old_SafeAt g f.log_head hd he hp (rw hh at left.log_head)))

    in_truncation :
        (g : UndoLogEngine B)
        → g.header_log_head ≡ Word.nt_store cleared.header_log_head 0
        → g.heap ≡ cleared.heap
        → g.entries ≡ cleared.entries
        → g.payloads ≡ cleared.payloads
        → IsEither g
    unfolding Word.nt_store
    in_truncation g hh hd he hp f left =
        let may : May
            (record {
              value = 0;
              older = cleared.header_log_head.value ∷ cleared.header_log_head.older;
              in_flight = true;
            })
            f.log_head =
          rw hh at left.log_head in
        elim may [
          | inl new ↦ inr (
              recover-IsRestored e.heap.view g f left
                (new_SafeAt g f.log_head (λ b. ap (λ h. h.view b) hd) (λ b c. rw hd c) new))
          | inr old ↦ inl (recover-IsRestored snap g f left (old_SafeAt g f.log_head hd he hp old))
        ]

    after_truncation :
        (g : UndoLogEngine B)
        → g.header_log_head.value ≡ 0
        → g.header_log_head.older ≡ []
        → ((b : ℕ) → g.heap.view b ≡ cleared.heap.view b)
        → ((b : ℕ) → cleared.heap.status b ≡ clean → g.heap.status b ≡ clean)
        → IsEither g
    after_truncation g value sure view still f left = inr (
        recover-IsRestored e.heap.view g f left (
          new_SafeAt g f.log_head view still
            (May-sure g.header_log_head f.log_head sure left.log_head ∙ value)))

    commit_points : AtEachPoint IsEither commit_instructions cleared
    unfolding store_fence Region.fence Word.fence Word.nt_store
    commit_points = (
      before_truncation _ refl refl refl refl,
      (
        before_truncation _ refl refl refl refl,
        (
          in_truncation _ refl refl refl refl,
          after_truncation _ refl refl (λ b. refl) (λ b h. ap settled h),
        ),
      ),
    )

    -- For a checkpoint that takes action, by at least one thread, from an engine between two calls
    -- whose marked blocks are all in a bucket or dropped by a full one: once its flush and clearing
    -- phases are over, a crash before, between or after the leader's instructions leaves a file
    -- from which the recovery returns with the data of the last checkpoint, of all blocks, or with
    -- the data of this one, of all blocks.
    pub commit-crash_safe : AtEachPoint IsEither commit_instructions cleared
    commit-crash_safe = commit_points
