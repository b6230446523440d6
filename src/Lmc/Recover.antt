-- ===== src/Lmc/Recover.antt =====
-- LmcEngine::recover, and Open of a new file and of one that is there.
use libcrpm.Base.{
  ℕ, zero, suc, ◌+◌, ◌*◌, ◌/◌, ◌%◌, Bool, false, not, bit_and, [], ◌==◌, if◌then◌else◌, max,
}
use libcrpm.Constants.{block_size, min_container_size}
use libcrpm.Pm.Word.{word_on_medium}
use libcrpm.Pm.Region.{on_medium}
use libcrpm.Pm.Region
use libcrpm.Buckets.{no_action}
use libcrpm.Lmc.Defs.{LmcEngine, store_fence, advance_current_epoch}
use libcrpm.Lmc.Checkpoint.{attribute_has_snapshot}

-- What a file holds.
pub record Medium (B : Type 0) : Type 0 where
  pub nr_blocks : ℕ
  pub attributes : ℕ
  pub current_epoch : ℕ
  pub tagmap : ℕ → ℕ
  pub working : ℕ → B
  pub shadow : ℕ → B

-- `capacity >> kBlockShift`, and one more if bytes are left.
pub blocks_for : ℕ → ℕ
blocks_for wanted =
    let capacity = max wanted min_container_size in
    if capacity % block_size == 0 then capacity / block_size else capacity / block_size + 1

module _ {B : Type 0} where
  -- `for (i = 0; i < nr_blocks; ++i)`, by the rounds that are left.
  unfoldable pub recover_loop : ℕ → ℕ → LmcEngine B → LmcEngine B
  recover_loop zero i e = e
  recover_loop (suc n) i e = recover_loop n (i + 1) (
      if (e.tagmap i).value == e.current_epoch.value
      then record e { working = Region.nt_store e.working i (e.shadow.view i) }
      else e)

  unfoldable pub recover : LmcEngine B → LmcEngine B
  recover e = advance_current_epoch (store_fence (recover_loop e.nr_blocks 0 e))

  -- The engine over a file.
  unfoldable pub mapped : Medium B → ℕ → LmcEngine B
  mapped d address_first = record {
    has_snapshot = false;
    nr_blocks = d.nr_blocks;
    next_thread_id = 0;
    checkpoint_traffic = 0;
    attributes = word_on_medium d.attributes;
    current_epoch = word_on_medium d.current_epoch;
    tagmap = λ i. word_on_medium (d.tagmap i);
    working = on_medium d.working;
    shadow = on_medium d.shadow;
    segment_locks = λ l. false;
    flush_blocks = λ tid. [];
    flush_mode = no_action;
    address_first = address_first;
  }

  unfoldable pub exist_snapshot : LmcEngine B → Bool
  exist_snapshot e = not (bit_and e.attributes.value attribute_has_snapshot == 0)

  unfoldable pub open_existing : Medium B → ℕ → LmcEngine B
  open_existing d address_first =
      let recovered = recover (mapped d address_first) in
      record recovered { has_snapshot = exist_snapshot recovered }

  -- A new file has epoch 1 and no tag.
  unfoldable pub open_created : (ℕ → B) → (ℕ → B) → ℕ → ℕ → LmcEngine B
  open_created working shadow wanted address_first =
      mapped
        (record {
          nr_blocks = blocks_for wanted;
          attributes = 0;
          current_epoch = 1;
          tagmap = λ i. 0;
          working = working;
          shadow = shadow;
        })
        address_first

  unfoldable pub get_capacity : LmcEngine B → ℕ
  get_capacity e = e.nr_blocks * block_size
