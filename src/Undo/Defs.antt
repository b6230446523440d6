-- ===== src/Undo/Defs.antt =====
-- The state of an UndoLogEngine (runtime/include/internal/engines/undolog_engine.h).
use libcrpm.Base.{ℕ, ◌+◌, Bool, List}
use libcrpm.Constants.{block_size, cache_line_size}
use libcrpm.Align.{round_up}
use libcrpm.Pm.Region.{Region}
use libcrpm.Pm.Region
use libcrpm.Pm.Word.{Word}
use libcrpm.Pm.Word
use libcrpm.BitSet.{BitSet}

abbrev pub log_entry_magic : ℕ
log_entry_magic = 0x7a7a2020

-- sizeof(LogEntry): the first cache line of an entry.
abbrev pub log_entry_size : ℕ
log_entry_size = 64

-- The bytes that one record takes in the log.
abbrev pub log_size : ℕ
log_size = log_entry_size + round_up block_size cache_line_size

-- The fields of a `LogEntry` but for the payload, which stands in the lines that follow.
pub record LogEntry : Type 0 where
  pub magic : ℕ
  pub offset : ℕ
  pub size : ℕ

-- `address_first` is where the data starts, counted from the start of the mapping.
-- `heap` is the data area by blocks; `entries` and `payloads` are the log area, by the byte offset
-- at which an entry starts. `B` is the content of a block.
pub record UndoLogEngine (B : Type 0) : Type 0 where
  pub nr_blocks : ℕ
  pub address_first : ℕ
  pub log_capacity : ℕ
  pub attributes : Word
  pub header_log_head : Word
  pub heap : Region B
  pub entries : Region LogEntry
  pub payloads : Region B
  pub has_snapshot : Bool
  pub block_dirty : BitSet
  pub log_head : ℕ
  pub segment_locks : ℕ → Bool
  pub flush_blocks : ℕ → List ℕ
  pub checkpoint_traffic : ℕ

module _ {B : Type 0} where
  -- `StoreFence` orders every store of the processor.
  unfoldable pub store_fence : UndoLogEngine B → UndoLogEngine B
  store_fence e = record e {
    attributes = Word.fence e.attributes;
    header_log_head = Word.fence e.header_log_head;
    heap = Region.fence e.heap;
    entries = Region.fence e.entries;
    payloads = Region.fence e.payloads;
  }
