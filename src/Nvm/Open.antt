-- ===== src/Nvm/Open.antt =====
-- How NvmInstEngine::Open sizes a new pool, and the engine that its constructor and it set up.
use libcrpm.Base.{
  ℕ, ◌+◌, ◌-◌, ◌*◌, ◌%◌, ◌^◌, bit_and, not, ◌≤◌, ◌<◌, ◌≡◌, Bool, false, [], ◌==◌, if◌then◌else◌,
  max, arith,
}
use libcrpm.Constants.{blocks_per_segment, segment_size, min_container_size, attribute_has_snapshot}
use libcrpm.BitSet
use libcrpm.BitSet.{BitSet}
use libcrpm.Buckets.{no_action}
use libcrpm.Image.Defs.{Image}
use libcrpm.Nvm.Defs.{NvmInstEngine, wb_idle}

-- `max(option.capacity, kMinContainerSize)`, rounded up to whole segments.
pub pool_capacity : ℕ → ℕ
pool_capacity wanted =
    let capacity = max wanted min_container_size in
    if capacity % segment_size == 0
    then capacity
    else (capacity - capacity % segment_size + segment_size) % 2 ^ 64

-- Where it does not overflow, the capacity of a pool is the least number of whole segments that holds what is
-- wanted.
pub pool_capacity_lem :
    (wanted : ℕ)
    → wanted + segment_size ≤ 2 ^ 64
    → (pool_capacity wanted % segment_size ≡ 0)
      × (wanted ≤ pool_capacity wanted)
      × (min_container_size ≤ pool_capacity wanted)
      × (pool_capacity wanted < max wanted min_container_size + segment_size)
unfolding pool_capacity
pool_capacity_lem wanted small = ground arith

module _ {B : Type 0} where
  -- The fields that the constructor and `Open` set, for an image with these numbers of segments.
  unfoldable pub new_engine : Image B → ℕ → Bool → NvmInstEngine B
  new_engine m address_first has_snapshot = record {
    has_snapshot = has_snapshot;
    image = m;
    nr_blocks = m.nr_main_segments * blocks_per_segment;
    nr_segments = m.nr_main_segments;
    nr_back_segments = m.nr_back_segments;
    capacity = m.nr_main_segments * segment_size;
    skip_copy_on_write = false;
    segment_dirty = BitSet.allocate m.nr_main_segments;
    block_dirty = BitSet.allocate (m.nr_main_segments * blocks_per_segment);
    next_thread_id = 0;
    segment_locks = λ l. false;
    cleaner_state = wb_idle;
    checkpoint_in_progress = false;
    checkpoint_traffic = 0;
    flush_blocks = λ tid. [];
    flush_mode = no_action;
    address_first = address_first;
    next_back_id = 0;
    back_memory_lock = false;
  }

  -- `image->get_attributes() & kAttributeHasSnapshot`.
  unfoldable pub exist_snapshot : NvmInstEngine B → Bool
  exist_snapshot e = not (bit_and e.image.attributes.value attribute_has_snapshot == 0)

  unfoldable pub get_address : NvmInstEngine B → ℕ → ℕ
  get_address e offset = e.address_first + offset
