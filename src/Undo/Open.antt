-- ===== src/Undo/Open.antt =====
-- UndoLogEngine::Open: the file that it lays out, and the engine that it gives back.
use libcrpm.Base.{
  ℕ, ◌+◌, ◌*◌, ◌/◌, ◌%◌, ◌≤◌, ◌<◌, ◌≡◌, refl, ◌∙◌, ap, Bool, false, [], max, arith, Returns, ok,
  if◌then◌else◌, ◌==◌, Returns-bind,
}
use libcrpm.Constants.{block_size, huge_page_size, min_container_size}
use libcrpm.BitSet
use libcrpm.BitSet.Laws.{test-allocate}
use libcrpm.Undo.Defs.{UndoLogEngine, LogEntry}
use libcrpm.Undo.CheckpointResult.{unmarked-IsTracked}
use libcrpm.Undo.Program.{Copies, Implements}
use libcrpm.Undo.Recover.{Medium, Leaves, recover, reopen, open_existing, exist_snapshot}
use libcrpm.Pm.Region.{on_medium}
use libcrpm.Pm.Word.{word_on_medium}
use libcrpm.Undo.Restore.{IsRestored}
use libcrpm.Undo.HookResult.{IsLogging-IsRecoverable}

-- `capacity >> kBlockShift`, and one more block for a rest.
unfoldable pub blocks_for : ℕ → ℕ
blocks_for option_capacity =
    let capacity = max option_capacity min_container_size in
    if capacity % block_size == 0 then capacity / block_size else capacity / block_size + 1

-- Where the data and the log stand in the file, and how long it is.
pub record FileLayout : Type 0 where
  pub data_offset : ℕ
  pub log_offset : ℕ
  pub log_capacity : ℕ
  pub fs_size : ℕ

unfoldable pub layout_for : ℕ → FileLayout
unfolding blocks_for
layout_for option_capacity =
    let capacity = blocks_for option_capacity * block_size in
    record {
      data_offset = huge_page_size;
      log_offset = huge_page_size + capacity;
      log_capacity = capacity;
      fs_size = huge_page_size + capacity * 2;
    }

-- In a new pool the data area holds the capacity that was asked for and the smallest container
-- size, and less than one block more than the larger of them; the log area follows the data area
-- and has the same size, and the file ends with the log.
pub layout_for_lem :
    (option_capacity : ℕ)
    → (max option_capacity min_container_size ≤ blocks_for option_capacity * block_size)
      × (blocks_for option_capacity * block_size
          < max option_capacity min_container_size + block_size)
      × ((layout_for option_capacity).log_capacity ≡ blocks_for option_capacity * block_size)
      × ((layout_for option_capacity).data_offset + blocks_for option_capacity * block_size
          ≡ (layout_for option_capacity).log_offset)
      × ((layout_for option_capacity).log_offset + (layout_for option_capacity).log_capacity
          ≡ (layout_for option_capacity).fs_size)
unfolding layout_for
layout_for_lem c = (ground arith, ground arith, refl, omega arith, omega arith)

module _ {B : Type 0} where
  -- The branch of `Open` that creates the file: the header is cleared, filled and flushed. The data
  -- is what the new file holds.
  unfoldable pub open_created : ℕ → (ℕ → B) → (ℕ → LogEntry) → (ℕ → B) → UndoLogEngine B
  open_created option_capacity file entries payloads = record {
    nr_blocks = blocks_for option_capacity;
    address_first = (layout_for option_capacity).data_offset;
    log_capacity = (layout_for option_capacity).log_capacity;
    attributes = word_on_medium 0;
    header_log_head = word_on_medium 0;
    heap = on_medium file;
    entries = on_medium entries;
    payloads = on_medium payloads;
    has_snapshot = false;
    block_dirty = BitSet.allocate (blocks_for option_capacity);
    log_head = 0;
    segment_locks = λ l. false;
    flush_blocks = λ t. [];
    checkpoint_traffic = 0;
  }

  -- A pool that Open creates stands for the content of the new file, both as what loads see and as
  -- what is saved.
  pub open_created-Implements :
      (option_capacity : ℕ) (file : ℕ → B) (entries : ℕ → LogEntry) (payloads : ℕ → B)
      → Implements
          (record { saved = file; current = file })
          (open_created option_capacity file entries payloads)
  unfolding open_created
  open_created-Implements c file entries payloads = record {
    logging = record {
      ids = [];
      head = omega arith;
      head_sure = refl;
      reserved = omega arith;
      logged = tt;
      kept = λ b out. (refl, refl);
      marked = test-allocate (blocks_for c);
      unlocked = λ l. refl;
    };
    tracked = unmarked-IsTracked _ (test-allocate (blocks_for c));
    data_current = λ b. refl;
  }

  IsRestored-Implements :
      (snap : ℕ → B) (e : UndoLogEngine B) (has : Bool)
      → IsRestored snap e
      → Implements (record { saved = snap; current = snap }) (record e { has_snapshot = has })
  IsRestored-Implements snap e has r = record {
    logging = record {
      ids = [];
      head = ap (λ w. w.value) r.log_empty ∙ omega arith;
      head_sure = ap (λ w. w.older) r.log_empty;
      reserved = r.volatile_log_empty ∙ omega arith;
      logged = tt;
      kept = λ b out. (r.data_view b, r.data_clean b);
      marked = r.unmarked;
      unlocked = r.unlocked;
    };
    tracked = unmarked-IsTracked _ r.unmarked;
    data_current = r.data_view;
  }

  -- From whatever file a crash leaves of an engine that stands for two copies of the data, opening
  -- the pool returns an engine whose current and saved data are both the saved copy, and that can
  -- be used as before.
  pub open_existing-Implements :
      (s : Copies B) (e : UndoLogEngine B)
      → Implements s e
      → (m : Medium B) → Leaves e m
      → Returns (Implements (record { saved = s.saved; current = s.saved })) (open_existing m)
  unfolding open_existing
  open_existing-Implements s e i m left =
      Returns-bind (IsRestored s.saved) (Implements (record { saved = s.saved; current = s.saved }))
        (recover (reopen m)) (λ r. ok (record r { has_snapshot = exist_snapshot r }))
        (IsLogging-IsRecoverable s.saved e i.logging m left)
        (λ r h. IsRestored-Implements s.saved r (exist_snapshot r) h)
