-- ===== src/Undo/Restore.antt =====
-- UndoLogEngine::recover brings the data back to the content of the last checkpoint.
use libcrpm.Base.{
  ℕ, zero, suc, ◌+◌, ◌*◌, ◌/◌, ◌<◌, ◌≡◌, refl, ◌∙◌, ap, List, [], ◌∷◌, ◌++◌, true, false, length,
  contains, arith, Returns, ok, lt→ltb, le→ltb, Bool-cases, inl, inr,
}
use libcrpm.Constants.{block_size}
use libcrpm.Pm.Region.{Region, Status, clean, flushing, Survives, settled}
use libcrpm.Pm.Region
use libcrpm.Pm.Word
use libcrpm.BitSet
use libcrpm.BitSet.Laws.{test-allocate}
use libcrpm.Undo.Defs.{UndoLogEngine, log_size, store_fence}
use libcrpm.Undo.Hook.{entry_of}
use libcrpm.Undo.Recover.{
  Medium, Leaves, finished, outcome_of, LeadsTo, LeadsTo-map, recover_round, recover_rounds,
  recover_loop, recover, reopen,
}
use libcrpm.Pm.Region.{on_medium}
use libcrpm.Pm.Word.{word_on_medium}
use libcrpm.Undo.Log.{Holds, Kept, SafeAt, Logged-Survives}

block_of_offset : (b : ℕ) → (entry_of b).offset / block_size ≡ b
block_of_offset b = omega arith

module _ {B : Type 0} (snap : ℕ → B) where
  -- The stores of the recovery, one for each block of the log.
  pub replay : Region B → List ℕ → Region B
  replay h [] = h
  replay h (b ∷ ids) = replay (Region.nt_store h b (snap b)) ids

  pub replay_untouched :
      (ids : List ℕ) (h : Region B) (b : ℕ)
      → contains ids b ≡ false
      → ((replay h ids).view b ≡ h.view b) × ((replay h ids).status b ≡ h.status b)
  unfolding replay Region.nt_store
  replay_untouched [] h b out = (refl, refl)
  replay_untouched (c ∷ ids) h b out =
      ground (arith, replay_untouched ids (Region.nt_store h c (snap c)) b)

  pub replay_touched :
      (ids : List ℕ) (h : Region B) (b : ℕ)
      → contains ids b ≡ true
      → ((replay h ids).view b ≡ snap b) × ((replay h ids).status b ≡ flushing)
  unfolding replay Region.nt_store
  replay_touched [] h b found = cc
  replay_touched (c ∷ ids) h b found = elim (Bool-cases (contains ids b)) [
    | inl again ↦ replay_touched ids (Region.nt_store h c (snap c)) b again
    | inr once ↦ ground (arith, replay_untouched ids (Region.nt_store h c (snap c)) b)
  ]

  recover_rounds_lem :
      (fuel : ℕ) (ids : List ℕ) (e : UndoLogEngine B) (cursor : ℕ)
      → length ids < fuel
      → e.header_log_head.value ≡ cursor + log_size * length ids
      → Holds snap e.entries.view e.payloads.view cursor ids
      → recover_rounds fuel e cursor ≡ finished (record e { heap = replay e.heap ids })
  unfolding recover_rounds recover_round replay
  recover_rounds_lem zero ids e cursor f head h = absurd (omega arith)
  recover_rounds_lem (suc fuel) [] e cursor f head h =
      rw (le→ltb cursor e.header_log_head.value (omega arith))
  recover_rounds_lem (suc fuel) (b ∷ ids) e cursor f head h =
      rw (lt→ltb cursor e.header_log_head.value (omega arith), h.0, h.1, block_of_offset b)
        (recover_rounds_lem fuel ids (record e { heap = Region.nt_store e.heap b (snap b) })
          (cursor + log_size) (omega arith) (omega arith) h.2)

  recover_loop_lem :
      (fuel : ℕ) (ids : List ℕ) (e : UndoLogEngine B) (cursor : ℕ)
      → length ids < fuel
      → e.header_log_head.value ≡ cursor + log_size * length ids
      → Holds snap e.entries.view e.payloads.view cursor ids
      → recover_loop fuel e cursor ≡ ok (record e { heap = replay e.heap ids })
  unfolding recover_loop
  recover_loop_lem fuel ids e cursor f head h =
      ap outcome_of (recover_rounds_lem fuel ids e cursor f head h)

  -- The engine has the blocks `done` of the log copied back, and `rest` before it.
  pub record IsMidway (e : UndoLogEngine B) (ids : List ℕ) (g : UndoLogEngine B) : Type 0 where
    pub done : List ℕ
    pub rest : List ℕ
    pub split : done ++ rest ≡ ids
    pub same : g ≡ record e { heap = replay e.heap done }

  pub recover_rounds-IsMidway :
      (n : ℕ) (ids : List ℕ) (e : UndoLogEngine B) (cursor : ℕ)
      → e.header_log_head.value ≡ cursor + log_size * length ids
      → Holds snap e.entries.view e.payloads.view cursor ids
      → LeadsTo (IsMidway e ids) (recover_rounds n e cursor)
  unfolding recover_rounds recover_round replay
  recover_rounds-IsMidway zero ids e cursor head h = record {
    done = [];
    rest = ids;
    split = refl;
    same = refl;
  }
  recover_rounds-IsMidway (suc n) [] e cursor head h =
      rw (le→ltb cursor e.header_log_head.value (omega arith))
        (record { done = []; rest = []; split = refl; same = refl })
  recover_rounds-IsMidway (suc n) (b ∷ ids) e cursor head h =
      let copied : UndoLogEngine B = record e { heap = Region.nt_store e.heap b (snap b) } in
      rw (lt→ltb cursor e.header_log_head.value (omega arith), h.0, h.1, block_of_offset b)
        (LeadsTo-map (IsMidway copied ids) (IsMidway e (b ∷ ids))
          (recover_rounds n copied (cursor + log_size))
          (λ g k. record {
            done = b ∷ k.done;
            rest = k.rest;
            split = ap (λ xs. b ∷ xs) k.split;
            same = k.same;
          })
          (recover_rounds-IsMidway n ids copied (cursor + log_size) (omega arith) h.2))

  -- The engine has the data of the checkpoint, all of it on the medium, and an empty log.
  pub record IsRestored (e : UndoLogEngine B) : Type 0 where
    pub data_view : (b : ℕ) → e.heap.view b ≡ snap b
    pub data_clean : (b : ℕ) → e.heap.status b ≡ clean
    pub log_empty : e.header_log_head ≡ word_on_medium 0
    pub volatile_log_empty : e.log_head ≡ 0
    pub unmarked : (b : ℕ) → BitSet.test e.block_dirty b ≡ false
    pub unlocked : (k : ℕ) → e.segment_locks k ≡ false

  pub replay-on_medium :
      (ids : List ℕ) (h : Region B) (m : ℕ → B)
      → Kept snap h ids
      → Survives h m
      → (b : ℕ)
      → ((replay (on_medium m) ids).view b ≡ snap b)
        × (settled ((replay (on_medium m) ids).status b) ≡ clean)
  replay-on_medium ids h m kept left b = elim (Bool-cases (contains ids b)) [
    | inl found ↦ let t = replay_touched ids (on_medium m) b found in (t.0, ap settled t.1)
    | inr out ↦
        let u = replay_untouched ids (on_medium m) b out in
        (u.0 ∙ left b (kept b out).1 ∙ (kept b out).0, ap settled u.1)
  ]

  -- From a file that a crash leaves of an engine, whose log head is safe to recover from, the
  -- recovery ends without a broken entry; every block then has the content of the checkpoint and is
  -- on the medium, the log is empty, no block is marked and no lock is held.
  pub recover-IsRestored :
      (e : UndoLogEngine B) (m : Medium B)
      → Leaves e m
      → SafeAt snap e m.log_head
      → Returns IsRestored (recover (reopen m))
  unfolding recover reopen store_fence Region.fence Word.fence Word.nt_store
  recover-IsRestored e m left safe =
      rw (loop, recover)
        (record {
          data_view = λ b. (replay-on_medium safe.ids e.heap m.heap safe.kept left.heap b).0;
          data_clean =
              λ b. ap settled (replay-on_medium safe.ids e.heap m.heap safe.kept left.heap b).1;
          log_empty = refl;
          volatile_log_empty = refl;
          unmarked = λ b. test-allocate m.nr_blocks b;
          unlocked = λ k. refl;
        })
    where
      loop :
          recover_loop (m.log_head + 1) (reopen m) 0
          ≡ ok (record (reopen m) { heap = replay (on_medium m.heap) safe.ids })
      loop =
          recover_loop_lem (m.log_head + 1) safe.ids (reopen m) 0 (omega (arith, safe.reaches))
            (omega (arith, safe.reaches))
            (Logged-Survives snap safe.ids 0 left.entries left.payloads safe.logged)
