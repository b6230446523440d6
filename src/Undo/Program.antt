-- ===== src/Undo/Program.antt =====
-- A run of an instrumented program over an UndoLogEngine, against two copies of the data: what the
-- program sees, and what the last checkpoint saved.
use mathlib.Core.Path.{fun_ext}
use libcrpm.Base.{
  ℕ, ◌+◌, ◌*◌, ◌<◌, ◌≤◌, ◌≡◌, ◌⊎◌, inl, inr, ◌∙◌, true, List, [], ◌∷◌, length, contains, arith,
  Bool-cases, Returns, Outcome, ok, ◌>>=◌, ◌==◌, subst, update, ==_iff, All, Returns-bind,
  Returns-map,
}
use libcrpm.Constants.{max_threads, max_flush_blocks}
use libcrpm.Pm.Region
use libcrpm.Pm.Region.{Region, clean}
use libcrpm.BitSet
use libcrpm.Buckets.Laws.{push-covers, push-keeps}
use libcrpm.Undo.Defs.{UndoLogEngine, log_size}
use libcrpm.Undo.Hook.{hook_block}
use libcrpm.Undo.HookResult.{IsHooked, hook_block-IsHooked, IsRecoverable, IsLogging-IsRecoverable}
use libcrpm.Undo.Checkpoint.{checkpoint}
use libcrpm.Undo.CheckpointResult.{IsTracked, checkpoint-IsCheckpointed}
use libcrpm.Undo.Safety.{IsLogging}

-- What the program does: a store of new content to a block, which the compiler pass makes the hook
-- precede, or a checkpoint by so many threads.
pub data Action (B : Type 0) : Type 0 where
  writes : ℕ → ℕ → B → Action B
  checkpoints : ℕ → Action B

-- The promise: `current` is what loads see, `saved` is what a crash goes back to.
pub record Copies (B : Type 0) : Type 0 where
  pub saved : ℕ → B
  pub current : ℕ → B

module _ {B : Type 0} where
  unfoldable pub spec_step : Copies B → Action B → Copies B
  spec_step s (writes tid b v) = record s { current = update s.current b v }
  spec_step s (checkpoints n) = record s { saved = s.current }

  abbrev pub spec_run : Copies B → List (Action B) → Copies B
  spec_run s [] = s
  spec_run s (a ∷ rest) = spec_run (spec_step s a) rest

  unfoldable pub store_block : UndoLogEngine B → ℕ → B → UndoLogEngine B
  store_block e b v = record e { heap = Region.store e.heap b v }

  unfoldable pub step : UndoLogEngine B → Action B → Outcome (UndoLogEngine B)
  step e (writes tid b v) = do hooked ← hook_block e tid b; ok (store_block hooked b v)
  step e (checkpoints n) = ok (checkpoint e n)

  unfoldable pub run_actions : UndoLogEngine B → List (Action B) → Outcome (UndoLogEngine B)
  run_actions e [] = ok e
  run_actions e (a ∷ rest) = step e a >>= λ f. run_actions f rest

  -- The thread has an id, the block lies in the heap, and a checkpoint has threads.
  abbrev pub IsValidAction : UndoLogEngine B → Action B → Type 0
  IsValidAction e (writes tid b v) = (tid < max_threads) × (b < e.nr_blocks)
  IsValidAction e (checkpoints n) = 0 < n

  -- The engine stands for the two copies.
  pub record Implements (s : Copies B) (e : UndoLogEngine B) : Type 0 where
    pub logging : IsLogging s.saved e
    pub tracked : IsTracked e
    pub data_current : (b : ℕ) → e.heap.view b ≡ s.current b

  store_block-IsLogging :
      (snap : ℕ → B) (e : UndoLogEngine B) (b : ℕ) (v : B)
      → BitSet.test e.block_dirty b ≡ true
      → IsLogging snap e
      → IsLogging snap (store_block e b v)
  unfolding store_block Region.store
  store_block-IsLogging snap e b v on l = record {
    ids = l.ids;
    head = l.head;
    head_sure = l.head_sure;
    reserved = l.reserved;
    logged = l.logged;
    kept = λ c out. ground (arith, l.kept c out, l.marked b);
    marked = l.marked;
    unlocked = l.unlocked;
  }

  pub hooked-IsTracked :
      (snap : ℕ → B) (e f : UndoLogEngine B) (tid b : ℕ)
      → tid < max_threads
      → b < e.nr_blocks
      → IsTracked e
      → IsHooked snap tid b e f
      → IsTracked f
  hooked-IsTracked snap e f tid b tid_ok b_ok t h = record { in_heap = heap; in_bucket = bucket }
    where
      heap : (c : ℕ) → BitSet.test f.block_dirty c ≡ true → c < f.nr_blocks
      heap c on = rw h.same_size (ground (arith, h.marks c, t.in_heap c))

      Found : UndoLogEngine B → ℕ → Type 0
      Found g c =
          (i : ℕ) × (i < max_threads)
          × ((contains (g.flush_blocks i) c ≡ true)
              ⊎ (length (g.flush_blocks i) ≡ max_flush_blocks))

      old_found : (c : ℕ) → Found e c → Found f c
      old_found c (i, lt, there) = (
        i,
        lt,
        elim h.buckets [
          | inl pushed ↦ rw pushed (elim there [
            | inl m ↦ inl ((push-keeps e.flush_blocks tid b i c).0 m)
            | inr full ↦ inr ((push-keeps e.flush_blocks tid b i c).1 full)
          ])
          | inr (kept, on) ↦ rw kept there
        ],
      )

      new_found : (c : ℕ) → b ≡ c → Found f c
      new_found c same = elim h.buckets [
        | inl pushed ↦ (tid, tid_ok, rw (pushed, ← same) (push-covers e.flush_blocks tid b))
        | inr (kept, on) ↦ old_found c (t.in_bucket c (rw (← same) on))
      ]

      bucket : (c : ℕ) → BitSet.test f.block_dirty c ≡ true → Found f c
      bucket c on = elim (Bool-cases (b == c)) [
        | inl same ↦ new_found c ((==_iff b c).0 same)
        | inr other ↦ old_found c (t.in_bucket c (ground (arith, h.marks c)))
      ]

  -- What one action keeps of the sizes, and how far it moves the log.
  record IsStep (s : Copies B) (e f : UndoLogEngine B) : Type 0 where
    implements : Implements s f
    same_size : f.nr_blocks ≡ e.nr_blocks
    same_capacity : f.log_capacity ≡ e.log_capacity
    one_record : f.log_head ≤ e.log_head + log_size

  stored-IsStep :
      (s : Copies B) (e f : UndoLogEngine B) (tid b : ℕ) (v : B)
      → tid < max_threads
      → b < e.nr_blocks
      → Implements s e
      → IsHooked s.saved tid b e f
      → IsStep (spec_step s (writes tid b v)) e (store_block f b v)
  unfolding spec_step
  stored-IsStep s e f tid b v tid_ok b_ok i h = record {
    implements = record {
      logging = store_block-IsLogging s.saved f b v (h.marks b ∙ ground arith) h.logging;
      tracked = record {
        in_heap = unfold store_block in tracked.in_heap;
        in_bucket = unfold store_block in tracked.in_bucket;
      };
      data_current =
          unfold store_block Region.store in λ c. ground (arith, h.same_data c, i.data_current c);
    };
    same_size = unfold store_block in h.same_size;
    same_capacity = unfold store_block in h.same_capacity;
    one_record = unfold store_block in h.one_record;
  }
    where
      tracked : IsTracked f
      tracked = hooked-IsTracked s.saved e f tid b tid_ok b_ok i.tracked h

  checkpointed-IsStep :
      (s : Copies B) (e : UndoLogEngine B) (n : ℕ)
      → 0 < n
      → Implements s e
      → IsStep (spec_step s (checkpoints n)) e (checkpoint e n)
  unfolding spec_step
  checkpointed-IsStep s e n pos i =
      let c = checkpoint-IsCheckpointed s.saved e i.logging n i.tracked pos in
      let same : e.heap.view ≡ s.current = fun_ext i.data_current in
      record {
        implements = record {
          logging = subst (λ snap. IsLogging snap (checkpoint e n)) same c.logging;
          tracked = c.tracked;
          data_current = λ b. c.same_data b ∙ i.data_current b;
        };
        same_size = c.same_size;
        same_capacity = c.same_capacity;
        one_record = omega (arith, c.log_empty);
      }

  step-IsStep :
      (s : Copies B) (e : UndoLogEngine B) (a : Action B)
      → IsValidAction e a
      → e.log_head + log_size < e.log_capacity
      → Implements s e
      → Returns (IsStep (spec_step s a) e) (step e a)
  unfolding step
  step-IsStep s e (writes tid b v) valid room i =
      Returns-bind (IsHooked s.saved tid b e) (IsStep (spec_step s (writes tid b v)) e)
        (hook_block e tid b) (λ f. ok (store_block f b v))
        (hook_block-IsHooked s.saved e tid b i.logging room)
        (λ f h. stored-IsStep s e f tid b v valid.0 valid.1 i h)
  step-IsStep s e (checkpoints n) valid room i = checkpointed-IsStep s e n valid i

  valid-same_size :
      (e f : UndoLogEngine B) (todo : List (Action B))
      → f.nr_blocks ≡ e.nr_blocks
      → All (IsValidAction e) todo
      → All (IsValidAction f) todo
  valid-same_size e f [] same valid = tt
  valid-same_size e f (writes tid b v ∷ rest) same valid =
      ((valid.0.0, rw same valid.0.1), valid-same_size e f rest same valid.1)
  valid-same_size e f (checkpoints n ∷ rest) same valid =
      (valid.0, valid-same_size e f rest same valid.1)

  -- While the log has room for a record of each action, a run of valid actions returns, and the
  -- engine stands for the two copies that the actions lead to.
  pub run_actions-Implements :
      (s : Copies B) (e : UndoLogEngine B) (todo : List (Action B))
      → Implements s e
      → All (IsValidAction e) todo
      → e.log_head + log_size * length todo < e.log_capacity
      → Returns (Implements (spec_run s todo)) (run_actions e todo)
  unfolding run_actions
  run_actions-Implements s e [] i valid room = i
  run_actions-Implements s e (a ∷ rest) i valid room =
      Returns-bind (IsStep (spec_step s a) e) (Implements (spec_run (spec_step s a) rest))
        (step e a) (λ f. run_actions f rest) (step-IsStep s e a valid.0 (omega arith) i)
        (λ f h.
          run_actions-Implements (spec_step s a) f rest h.implements
            (valid-same_size e f rest h.same_size valid.1)
            (omega (arith, h.same_capacity, h.one_record)))

  -- A run of valid actions (instrumented stores by threads with an id to blocks of the heap, and
  -- checkpoints by at least one thread) over an engine that stands for two copies of the data, and
  -- whose log has room for one record for each action, returns; loads then see the content that was
  -- stored last in each block, and from whatever file a crash leaves then the recovery returns with
  -- the content that each block had at the last checkpoint.
  pub run_actions_crash :
      (s : Copies B) (e : UndoLogEngine B) (todo : List (Action B))
      → Implements s e
      → All (IsValidAction e) todo
      → e.log_head + log_size * length todo < e.log_capacity
      → Returns
          (λ f.
            ((b : ℕ) → f.heap.view b ≡ (spec_run s todo).current b)
            × IsRecoverable (spec_run s todo).saved f)
          (run_actions e todo)
  run_actions_crash s e todo i valid room =
      Returns-map (Implements (spec_run s todo)) _ (run_actions e todo)
        (λ f h. (h.data_current, IsLogging-IsRecoverable (spec_run s todo).saved f h.logging))
        (run_actions-Implements s e todo i valid room)
