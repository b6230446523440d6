-- ===== src/Lmc/Defs.antt =====
-- The state of LmcEngine (runtime/include/internal/engines/lmc_engine.h), and the advance of its epoch.
use libcrpm.Base.{ℕ, ◌+◌, Bool, List, [], ◌∷◌, ◌==◌, ltb, if◌then◌else◌}
use libcrpm.Pm.Word.{Word}
use libcrpm.Pm.Word
use libcrpm.Pm.WordArray.{fence_all}
use libcrpm.Pm.Region.{Region}
use libcrpm.Pm.Region
use libcrpm.Pm.Run.{run}
use libcrpm.Buckets.{BlockLists, FlushMode}

-- `B` is the content of a block; `working` and `shadow` are the two states, `tagmap` has a byte for each block.
pub record LmcEngine (B : Type 0) : Type 0 where
  pub has_snapshot : Bool
  pub nr_blocks : ℕ
  pub next_thread_id : ℕ
  pub checkpoint_traffic : ℕ
  pub attributes : Word
  pub current_epoch : Word
  pub tagmap : ℕ → Word
  pub working : Region B
  pub shadow : Region B
  pub segment_locks : ℕ → Bool
  pub flush_blocks : BlockLists
  pub flush_mode : FlushMode
  pub address_first : ℕ

-- `UINT8_MAX`.
abbrev pub last_epoch : ℕ
last_epoch = 255

module _ {B : Type 0} where
  unfoldable pub store_fence : LmcEngine B → LmcEngine B
  store_fence e = record e {
    attributes = Word.fence e.attributes;
    current_epoch = Word.fence e.current_epoch;
    tagmap = fence_all e.tagmap;
    working = Region.fence e.working;
    shadow = Region.fence e.shadow;
  }

  -- The epoch is stored, flushed and fenced.
  abbrev pub epoch_instructions : ℕ → List (LmcEngine B → LmcEngine B)
  epoch_instructions next =
      (λ e. record e { current_epoch = Word.store e.current_epoch next })
      ∷ (λ e. record e { current_epoch = Word.flush e.current_epoch })
      ∷ store_fence
      ∷ []

  -- `memset` of the tags, and `FlushRegion` of these.
  unfoldable pub reset_tags : LmcEngine B → LmcEngine B
  reset_tags e = record e {
    tagmap = λ i. if ltb i e.nr_blocks then Word.store (e.tagmap i) 0 else e.tagmap i;
  }

  unfoldable pub flush_tags : LmcEngine B → LmcEngine B
  flush_tags e = record e {
    tagmap = λ i. if ltb i e.nr_blocks then Word.flush (e.tagmap i) else e.tagmap i;
  }

  -- After the last epoch comes epoch 1, with no block tagged.
  abbrev pub advance_instructions : ℕ → List (LmcEngine B → LmcEngine B)
  advance_instructions epoch =
      if epoch == last_epoch
      then reset_tags ∷ flush_tags ∷ store_fence ∷ epoch_instructions 1
      else epoch_instructions (epoch + 1)

  unfoldable pub advance_current_epoch : LmcEngine B → LmcEngine B
  advance_current_epoch e = run (advance_instructions e.current_epoch.value) e
