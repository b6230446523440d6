-- ===== src/Undo/Recover.antt =====
-- What a crash leaves of an UndoLogEngine, how `Open` takes it up, and UndoLogEngine::recover.
use libcrpm.Base.{
  ℕ, zero, suc, ◌+◌, ◌/◌, ◌≡◌, Bool, false, List, [], ◌∷◌, ltb, ◌==◌, if◌then◌else◌, Outcome, ok,
  exited, spins, ◌>>=◌, bit_and, not,
}
use libcrpm.Constants.{block_size, cache_line_size, attribute_has_snapshot}
use libcrpm.Align.{round_up}
use libcrpm.Pm.Region.{Region, Survives, on_medium}
use libcrpm.Pm.Region
use libcrpm.Pm.Word.{Word, May, word_on_medium}
use libcrpm.Pm.Word
use libcrpm.Pm.Run.{run}
use libcrpm.BitSet
use libcrpm.Undo.Defs.{UndoLogEngine, LogEntry, store_fence, log_entry_magic, log_entry_size}

-- The file after a crash.
pub record Medium (B : Type 0) : Type 0 where
  pub nr_blocks : ℕ
  pub data_offset : ℕ
  pub log_capacity : ℕ
  pub attributes : ℕ
  pub log_head : ℕ
  pub heap : ℕ → B
  pub entries : ℕ → LogEntry
  pub payloads : ℕ → B

-- The engine `e` may leave the file `m` behind.
pub record Leaves {B : Type 0} (e : UndoLogEngine B) (m : Medium B) : Type 0 where
  pub nr_blocks : m.nr_blocks ≡ e.nr_blocks
  pub data_offset : m.data_offset ≡ e.address_first
  pub log_capacity : m.log_capacity ≡ e.log_capacity
  pub attributes : May e.attributes m.attributes
  pub log_head : May e.header_log_head m.log_head
  pub heap : Survives e.heap m.heap
  pub entries : Survives e.entries m.entries
  pub payloads : Survives e.payloads m.payloads

-- What rounds of the recovery lead to: the engine before the next round, or at the end of the loop, or a wrong
-- entry, which ends the process.
pub data Rounds (B : Type 0) : Type 0 where
  unfinished : UndoLogEngine B → Rounds B
  finished : UndoLogEngine B → Rounds B
  broken : Rounds B

module _ {B : Type 0} where
  -- The branch of `Open` for a file that exists, with what it and the constructor set, before
  -- `recover()`.
  unfoldable pub reopen : Medium B → UndoLogEngine B
  reopen m = record {
    nr_blocks = m.nr_blocks;
    address_first = m.data_offset;
    log_capacity = m.log_capacity;
    attributes = word_on_medium m.attributes;
    header_log_head = word_on_medium m.log_head;
    heap = on_medium m.heap;
    entries = on_medium m.entries;
    payloads = on_medium m.payloads;
    has_snapshot = false;
    block_dirty = BitSet.allocate m.nr_blocks;
    log_head = 0;
    segment_locks = λ l. false;
    flush_blocks = λ t. [];
    checkpoint_traffic = 0;
  }

  -- Some rounds lead to an engine of which something holds, and to no broken entry.
  abbrev pub LeadsTo : (UndoLogEngine B → Type 0) → Rounds B → Type 0
  LeadsTo P (unfinished e) = P e
  LeadsTo P (finished e) = P e
  LeadsTo P broken = ⊥

  pub LeadsTo-map :
      (P Q : UndoLogEngine B → Type 0) (r : Rounds B)
      → ((e : UndoLogEngine B) → P e → Q e)
      → LeadsTo P r
      → LeadsTo Q r
  LeadsTo-map P Q (unfinished e) f h = f e h
  LeadsTo-map P Q (finished e) f h = f e h
  LeadsTo-map P Q broken f h = h

  -- A round of the loop. The copy of an entry is a store to the block at its offset: every entry is written with
  -- `size = kBlockSize` and a block's offset.
  unfoldable pub recover_round : UndoLogEngine B → ℕ → UndoLogEngine B
  recover_round e cursor = record e {
    heap =
        Region.nt_store e.heap ((e.entries.view cursor).offset / block_size)
          (e.payloads.view cursor);
  }

  -- The loop `while (cursor < header->log_head)`, for some rounds at most.
  unfoldable pub recover_rounds : ℕ → UndoLogEngine B → ℕ → Rounds B
  recover_rounds zero e cursor = unfinished e
  recover_rounds (suc n) e cursor =
      let entry = e.entries.view cursor in
      let rest =
        recover_rounds n (recover_round e cursor)
          (cursor + round_up (log_entry_size + entry.size) cache_line_size) in
      if ltb cursor e.header_log_head.value
      then (if entry.magic == log_entry_magic then rest else broken)
      else finished e

  abbrev pub outcome_of : Rounds B → Outcome (UndoLogEngine B)
  outcome_of (unfinished e) = spins
  outcome_of (finished e) = ok e
  outcome_of broken = exited

  unfoldable pub recover_loop : ℕ → UndoLogEngine B → ℕ → Outcome (UndoLogEngine B)
  recover_loop fuel e cursor = outcome_of (recover_rounds fuel e cursor)

  abbrev pub truncate_instructions : List (UndoLogEngine B → UndoLogEngine B)
  truncate_instructions =
      store_fence
      ∷ (λ e. record e { header_log_head = Word.nt_store e.header_log_head 0 })
      ∷ store_fence
      ∷ []

  -- Each round of the loop moves the cursor on by at least one cache line.
  unfoldable pub recover : UndoLogEngine B → Outcome (UndoLogEngine B)
  recover e = do
    copied ← recover_loop (e.header_log_head.value + 1) e 0
    ok (run truncate_instructions copied)

  unfoldable pub exist_snapshot : UndoLogEngine B → Bool
  exist_snapshot e = not (bit_and e.attributes.value attribute_has_snapshot == 0)

  -- `Open` of a file that exists.
  unfoldable pub open_existing : Medium B → Outcome (UndoLogEngine B)
  open_existing m = do
    recovered ← recover (reopen m)
    ok (record recovered { has_snapshot = exist_snapshot recovered })
