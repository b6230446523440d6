-- ===== src/Undo/RecoverCrash.antt =====
-- A crash inside UndoLogEngine::recover: the recovery can be run again.
use mathlib.Core.List.{append-nil}
use libcrpm.Base.{
  ℕ, ◌+◌, ◌≡◌, inl, inr, refl, ◌∙◌, ap, sym, subst, false, List, [], ◌∷◌, ◌++◌, contains,
  contains-append, arith,
}
use libcrpm.Pm.Region.{clean, settled, Survives, Region}
use libcrpm.Pm.Region
use libcrpm.Pm.Word.{May, May-sure}
use libcrpm.Pm.Word
use libcrpm.Pm.Run.{AtEachPoint}
use libcrpm.Undo.Defs.{UndoLogEngine, log_size, store_fence}
use libcrpm.Undo.Log.{SafeAt, Kept, Logged, Holds, Logged-Survives}
use libcrpm.Undo.Recover.{
  Medium, Leaves, LeadsTo, LeadsTo-map, reopen, recover_rounds, truncate_instructions,
}
use libcrpm.Pm.Region.{on_medium}
use libcrpm.Pm.Word.{word_on_medium}
use libcrpm.Undo.Restore.{
  replay, replay_untouched, replay-on_medium, recover-IsRestored, IsMidway, recover_rounds-IsMidway,
}
use libcrpm.Undo.HookResult.{IsRecoverable}

module _ {B : Type 0} (snap : ℕ → B) where
  -- What is surely on the medium is there after the restart.
  Holds-Logged :
      (ids : List ℕ) (off : ℕ) (m : Medium B)
      → Holds snap m.entries m.payloads off ids
      → Logged snap (on_medium m.entries) (on_medium m.payloads) off ids
  Holds-Logged [] off m h = tt
  Holds-Logged (b ∷ ids) off m h = (h.0, refl, h.1, refl, Holds-Logged ids (off + log_size) m h.2)

  module _ (e : UndoLogEngine B) (m : Medium B) (left : Leaves e m)
      (safe : SafeAt snap e m.log_head) where
    open safe use {ids}

    -- The engine in the loop of the recovery, once it has copied back the blocks `done`.
    abbrev pub in_loop : List ℕ → UndoLogEngine B
    in_loop done = record (reopen m) { heap = replay snap (on_medium m.heap) done }

    reopened-Logged : Logged snap (on_medium m.entries) (on_medium m.payloads) 0 ids
    reopened-Logged =
        Holds-Logged ids 0 m (Logged-Survives snap ids 0 left.entries left.payloads safe.logged)

    in_loop-Kept :
        (done rest : List ℕ)
        → done ++ rest ≡ ids
        → Kept snap (replay snap (on_medium m.heap) done) ids
    in_loop-Kept done rest split b out =
        let out_of_done : contains done b ≡ false =
          ground (arith, contains-append done rest b, ap (λ xs. contains xs b) split) in
        let u = replay_untouched snap done (on_medium m.heap) b out_of_done in
        (u.0 ∙ left.heap b (safe.kept b out).1 ∙ (safe.kept b out).0, u.1)

    loop_SafeAt :
        (done rest : List ℕ) (g : UndoLogEngine B)
        → done ++ rest ≡ ids
        → g.entries ≡ on_medium m.entries
        → g.payloads ≡ on_medium m.payloads
        → ((b : ℕ) → g.heap.view b ≡ (in_loop done).heap.view b)
        → ((b : ℕ) → (in_loop done).heap.status b ≡ clean → g.heap.status b ≡ clean)
        → SafeAt snap g m.log_head
    loop_SafeAt done rest g split he hp view still = record {
      ids = ids;
      reaches = safe.reaches;
      logged = rw (he, hp) reopened-Logged;
      kept = λ b out. let k = in_loop-Kept done rest split b out in (view b ∙ k.0, still b k.1);
    }

    old_head_IsRecoverable :
        (done rest : List ℕ) (g : UndoLogEngine B) (f : Medium B)
        → done ++ rest ≡ ids
        → g.entries ≡ on_medium m.entries
        → g.payloads ≡ on_medium m.payloads
        → ((b : ℕ) → g.heap.view b ≡ (in_loop done).heap.view b)
        → ((b : ℕ) → (in_loop done).heap.status b ≡ clean → g.heap.status b ≡ clean)
        → May (word_on_medium m.log_head) f.log_head
        → SafeAt snap g f.log_head
    old_head_IsRecoverable done rest g f split he hp view still may =
        let at : f.log_head ≡ m.log_head =
          May-sure (word_on_medium m.log_head) f.log_head refl may in
        rw at (loop_SafeAt done rest g split he hp view still)

    midway-IsRecoverable :
        (done rest : List ℕ) → done ++ rest ≡ ids → IsRecoverable snap (in_loop done)
    unfolding reopen
    midway-IsRecoverable done rest split f again = recover-IsRestored snap (in_loop done) f again (
        old_head_IsRecoverable done rest (in_loop done) f split refl refl (λ b. refl) (λ b h. h)
          again.log_head)

    -- From a file that a crash leaves of an engine, whose log head is safe to recover from, any
    -- number of rounds of the loop of the recovery meet no broken entry, and a crash after them
    -- leaves a file from which the recovery returns with the data of the snapshot.
    pub recover_rounds-crash_safe :
        (n : ℕ) → LeadsTo (IsRecoverable snap) (recover_rounds n (reopen m) 0)
    unfolding reopen
    recover_rounds-crash_safe n =
        LeadsTo-map (IsMidway snap (reopen m) ids) (IsRecoverable snap)
          (recover_rounds n (reopen m) 0)
          (λ g k.
            subst (IsRecoverable snap) (sym k.same) (midway-IsRecoverable k.done k.rest k.split))
          (recover_rounds-IsMidway snap n ids (reopen m) 0 (omega (arith, safe.reaches))
            (Logged-Survives snap ids 0 left.entries left.payloads safe.logged))

    -- Once the copies are on the medium, the log may be empty.
    new_head_SafeAt :
        (g : UndoLogEngine B) (v : ℕ)
        → ((b : ℕ) → g.heap.view b ≡ (in_loop ids).heap.view b)
        → ((b : ℕ) → settled ((in_loop ids).heap.status b) ≡ clean → g.heap.status b ≡ clean)
        → v ≡ 0
        → SafeAt snap g v
    new_head_SafeAt g v view still z = record {
      ids = [];
      reaches = omega arith;
      logged = tt;
      kept = λ b out.
          let r = replay-on_medium snap ids e.heap m.heap safe.kept left.heap b in
          (view b ∙ r.0, still b r.1);
    }

    -- A crash before, between or after the last instructions of a recovery from a file that is safe
    -- to recover from, those that empty the log, leaves a file from which the recovery returns with
    -- the same data.
    pub truncate-crash_safe : AtEachPoint (IsRecoverable snap) truncate_instructions (in_loop ids)
    unfolding reopen store_fence Region.fence Word.fence Word.nt_store
    truncate-crash_safe = (
      midway-IsRecoverable ids [] (append-nil ids),
      (
        λ f again. recover-IsRestored snap _ f again (
            old_head_IsRecoverable ids [] _ f (append-nil ids) refl refl (λ b. refl)
              (λ b h. ap settled h) again.log_head),
        (
          λ f again. recover-IsRestored snap _ f again (elim again.log_head [
            | inl new ↦ new_head_SafeAt _ f.log_head (λ b. refl) (λ b h. h) new
            | inr old ↦
                old_head_IsRecoverable ids [] _ f (append-nil ids) refl refl (λ b. refl)
                  (λ b h. ap settled h) old
          ]),
          λ f again. recover-IsRestored snap _ f again (
              new_head_SafeAt _ f.log_head (λ b. refl) (λ b h. ap settled h)
                (elim again.log_head [ inl new ↦ new | inr none_older ↦ absurd none_older ])),
        ),
      ),
    )
