-- ===== src/Undo/Safety.antt =====
-- The hook of an UndoLogEngine is safe against a crash at each of its instructions.
use libcrpm.Base.{
  ℕ, ◌+◌, ◌*◌, ◌≡◌, sym, ◌∙◌, ap, List, [], ◌∷◌, ◌++◌, Bool, false, length, contains, arith, ◌==◌,
  ◌||◌, ◌⊎◌, inl, inr, length-append, contains-append, subst,
}
use libcrpm.Pm.Region.{Region, Status, clean, flushing, dirty, settled, flushed}
use libcrpm.Pm.Region
use libcrpm.Pm.Word.{Word, May, Among, May-sure}
use libcrpm.Pm.Word
use libcrpm.Pm.Run.{run, AtEachPoint, AtEachPoint-rel, AtEachPoint-map, AtEachPoint-run}
use libcrpm.BitSet
use libcrpm.BitSet.Laws.{test-set}
use libcrpm.Undo.Defs.{UndoLogEngine, log_size, store_fence}
use libcrpm.Undo.Hook.{entry_instructions, publish_instructions}
use libcrpm.Undo.Keeps.{
  Keeps, Still, Still-volatile, Still-refl, Still-trans, Keeps-refl, Keeps-trans,
  entry_instructions-Still, publish_instructions-Keeps, Keeps-Logged, Keeps-Kept,
}
use libcrpm.Undo.Log.{Logged, Kept, SafeAt, Logged-append}

module _ {B : Type 0} (snap : ℕ → B) where
  -- Between two calls: the blocks logged since the checkpoint are those marked dirty, and each is
  -- on the medium with the content that it had then.
  pub record IsLogging (e : UndoLogEngine B) : Type 0 where
    pub ids : List ℕ
    pub head : e.header_log_head.value ≡ log_size * length ids
    pub head_sure : e.header_log_head.older ≡ []
    pub reserved : e.log_head ≡ log_size * length ids
    pub logged : Logged snap e.entries e.payloads 0 ids
    pub kept : Kept snap e.heap ids
    pub marked : (b : ℕ) → BitSet.test e.block_dirty b ≡ contains ids b
    pub unlocked : (l : ℕ) → e.segment_locks l ≡ false

  -- Whatever head a crash leaves, the recovery from it gives the data of the checkpoint.
  abbrev pub IsSafe : UndoLogEngine B → Type 0
  IsSafe e = (v : ℕ) → May e.header_log_head v → SafeAt snap e v

  Keeps-SafeAt :
      (e f : UndoLogEngine B) (l : IsLogging e)
      → Keeps (log_size * length l.ids) e f
      → (v : ℕ) → v ≡ log_size * length l.ids
      → SafeAt snap f v
  Keeps-SafeAt e f l k v at = record {
    ids = l.ids;
    reaches = at;
    logged = Keeps-Logged snap _ e f k l.ids (omega arith) l.logged;
    kept = Keeps-Kept snap _ e f k l.ids l.kept;
  }

  pub Still-IsSafe :
      (e f : UndoLogEngine B) (l : IsLogging e) → Still (log_size * length l.ids) e f → IsSafe f
  Still-IsSafe e f l s v may =
      Keeps-SafeAt e f l s.keeps v
        (May-sure f.header_log_head v (s.sure l.head_sure) may ∙ s.head ∙ l.head)

  pub IsLogging-IsSafe : (e : UndoLogEngine B) → IsLogging e → IsSafe e
  IsLogging-IsSafe e l = Still-IsSafe e e l (Still-refl _ e)

  module _ (e : UndoLogEngine B) (l : IsLogging e) (b : ℕ)
      (fresh : BitSet.test e.block_dirty b ≡ false) (n : ℕ) (locks : ℕ → Bool) where
    open l use {ids}

    -- The engine with the log space reserved and the lock held.
    abbrev pub start : UndoLogEngine B
    start = record e { log_head = n; segment_locks = locks }

    abbrev pub end : ℕ
    end = log_size * length ids

    abbrev pub written : UndoLogEngine B
    written = run (entry_instructions e.log_head b) start

    start-Still : Still end e start
    start-Still = Still-volatile end e n locks

    entry-Still : AtEachPoint (Still end e) (entry_instructions e.log_head b) start
    entry-Still =
        AtEachPoint-rel (Still end) (Still-trans end) (entry_instructions e.log_head b)
          (entry_instructions-Still end e.log_head b (omega (arith, l.reserved))) e start
          start-Still

    -- A crash at any point of the writing of the entry finds the log as it was.
    pub entry_points : AtEachPoint IsSafe (entry_instructions e.log_head b) start
    entry_points =
        AtEachPoint-map (λ f s. Still-IsSafe e f l s) (entry_instructions e.log_head b) start
          entry-Still

    written-Still : Still end e written
    written-Still =
        AtEachPoint-run (Still end e) (entry_instructions e.log_head b) start entry-Still

    not_logged : contains ids b ≡ false
    not_logged = sym (l.marked b) ∙ fresh

    new_entry : Logged snap written.entries written.payloads end (b ∷ [])
    unfolding store_fence Region.store Region.flush Region.nt_store Region.fence
    new_entry =
        subst (λ o. Logged snap written.entries written.payloads o (b ∷ [])) l.reserved
          (ground arith, ground arith, ground (arith, (l.kept b not_logged).0), ground arith, tt)

    grown : List ℕ
    grown = ids ++ b ∷ []

    length-grown : log_size * length grown ≡ end + log_size
    unfolding grown
    length-grown = omega (arith, length-append ids (b ∷ []))

    grown-Logged : Logged snap written.entries written.payloads 0 grown
    unfolding grown
    grown-Logged =
        Logged-append snap written.entries written.payloads ids 0 b
          (Keeps-Logged snap end e written written-Still.keeps ids (omega arith) l.logged)
          (subst (λ o. Logged snap written.entries written.payloads o (b ∷ [])) (omega arith)
            new_entry)

    grown-Kept : Kept snap written.heap grown
    unfolding grown
    grown-Kept c out =
        Keeps-Kept snap end e written written-Still.keeps ids l.kept c
          (ground (arith, contains-append ids (b ∷ []) c))

    abbrev pub Published : UndoLogEngine B → Type 0
    Published f = Keeps (end + log_size) written f

    grown_SafeAt :
        (f : UndoLogEngine B) → Published f → (v : ℕ) → v ≡ end + log_size → SafeAt snap f v
    grown_SafeAt f k v at = record {
      ids = grown;
      reaches = omega (arith, length-grown);
      logged = Keeps-Logged snap _ written f k grown (omega (arith, length-grown)) grown-Logged;
      kept = Keeps-Kept snap _ written f k grown grown-Kept;
    }

    old_SafeAt : (f : UndoLogEngine B) → Published f → (v : ℕ) → v ≡ end → SafeAt snap f v
    old_SafeAt f k v at = record {
      ids = ids;
      reaches = at;
      logged =
          Keeps-Logged snap _ written f k ids (omega arith)
            (Keeps-Logged snap end e written written-Still.keeps ids (omega arith) l.logged);
      kept =
          Keeps-Kept snap _ written f k ids
            (Keeps-Kept snap end e written written-Still.keeps ids l.kept);
    }

    publish-Published : AtEachPoint Published (publish_instructions e.log_head) written
    publish-Published =
        AtEachPoint-rel (Keeps (end + log_size)) (Keeps-trans (end + log_size))
          (publish_instructions e.log_head) (publish_instructions-Keeps (end + log_size) e.log_head)
          written written (Keeps-refl (end + log_size) written)

    pub run-Published : Published (run (publish_instructions e.log_head) written)
    run-Published =
        AtEachPoint-run Published (publish_instructions e.log_head) written publish-Published

    -- A crash at any point of the publication finds the old log or the new one.
    pub publish_points : AtEachPoint IsSafe (publish_instructions e.log_head) written
    unfolding store_fence Word.store Word.flush Word.fence
    publish_points = (
      Still-IsSafe e written l written-Still,
      (
        either _ publish-Published.1.0,
        (
          either _ publish-Published.1.1.0,
          λ v may. grown_SafeAt _ publish-Published.1.1.1 v (elim may [
            | inl new ↦ new ∙ ap (λ t. t + log_size) l.reserved
            | inr bad ↦ absurd bad
          ]),
        ),
      ),
    )
      where
        either :
            (f : UndoLogEngine B)
            → Published f
            → (v : ℕ)
            → (v ≡ e.log_head + log_size)
              ⊎ ((v ≡ written.header_log_head.value) ⊎ Among v written.header_log_head.older)
            → SafeAt snap f v
        either f k v may = elim may [
          | inl new ↦ grown_SafeAt f k v (new ∙ ap (λ t. t + log_size) l.reserved)
          | inr old ↦ old_SafeAt f k v (
              May-sure written.header_log_head v (written-Still.sure l.head_sure) old
              ∙ written-Still.head
              ∙ l.head)
        ]

    -- The state after the entry and the head are written, with the block marked dirty.
    pub logged_IsLogging :
        (f : UndoLogEngine B)
        → Published f
        → f.header_log_head.value ≡ end + log_size
        → f.header_log_head.older ≡ []
        → f.log_head ≡ end + log_size
        → f.block_dirty ≡ BitSet.set e.block_dirty b
        → ((k : ℕ) → f.segment_locks k ≡ false)
        → IsLogging f
    logged_IsLogging f k head sure reserved dirty_bits unlocked = record {
      ids = grown;
      head = head ∙ sym length-grown;
      head_sure = sure;
      reserved = reserved ∙ sym length-grown;
      logged = Keeps-Logged snap _ written f k grown (omega (arith, length-grown)) grown-Logged;
      kept = Keeps-Kept snap _ written f k grown grown-Kept;
      marked = λ c. rw dirty_bits (test-set e.block_dirty b c ∙ marks c);
      unlocked = unlocked;
    }
      where
        marks : (c : ℕ) → (b == c || BitSet.test e.block_dirty c) ≡ contains grown c
        marks c = unfold grown in ground (arith, contains-append ids (b ∷ []) c, l.marked c)
