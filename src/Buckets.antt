-- ===== src/Buckets.antt =====
-- The buckets of dirty blocks, one for each thread id, as each engine keeps them in `flush_blocks`
-- and `flush_blocks_count` (after runtime/src/engines/undolog_engine.cpp).
pub mod Laws
pub mod Flushing
use libcrpm.Base.{
  ℕ, zero, suc, ◌+◌, ◌-◌, ◌*◌, ◌<◌, ◌≡◌, Bool, true, false, not, List, [], ◌∷◌, ◌++◌, ltb, ◌==◌,
  ◌&&◌, ◌||◌, if◌then◌else◌, update, length, contains,
}
use libcrpm.Constants.{max_flush_blocks, max_threads}
use libcrpm.Pm.Region.{Region}
use libcrpm.Pm.Region

abbrev pub BlockLists : Type 0
BlockLists = ℕ → List ℕ

-- A bucket that is full drops the block.
unfoldable pub push : BlockLists → ℕ → ℕ → BlockLists
push fb tid b =
    if length (fb tid) == max_flush_blocks then fb else update fb tid (fb tid ++ (b ∷ []))

pub data FlushMode : Type 0 where
  no_action use_flush_blocks wbinvd : FlushMode

-- The leader's loop over the sizes, with the flags `all_empty` and `has_full`.
pub record Flags : Type 0 where
  pub all_empty : Bool
  pub has_full : Bool

unfoldable pub scan_sizes : ℕ → ℕ → BlockLists → Flags → Flags
scan_sizes zero i fb f = f
scan_sizes (suc n) i fb f = scan_sizes n (i + 1) fb (record {
  all_empty = if length (fb i) == 0 then f.all_empty else false;
  has_full = if length (fb i) == max_flush_blocks then true else f.has_full;
})

unfoldable pub scan : BlockLists → Flags
scan fb = scan_sizes max_threads 0 fb (record { all_empty = true; has_full = false })

unfoldable pub mode_of : Flags → FlushMode
mode_of f = if f.all_empty then no_action else (if f.has_full then wbinvd else use_flush_blocks)

-- `id = tid; while (id < bound) { …; id += nr_threads; }`: the values that `id` takes.
unfoldable pub strided : ℕ → ℕ → ℕ → ℕ → List ℕ
strided zero id step bound = []
strided (suc fuel) id step bound =
    let rest = strided fuel (id + step) step bound in if ltb id bound then id ∷ rest else []

-- The threads of a checkpoint, which the barriers hold together.
unfoldable pub threads : ℕ → ℕ → List ℕ
threads zero tid = []
threads (suc n) tid = tid ∷ threads n (tid + 1)

-- Some bucket among `ids` holds the block.
abbrev pub in_buckets : BlockLists → List ℕ → ℕ → Bool
in_buckets fb [] b = false
in_buckets fb (i ∷ is) b = contains (fb i) b || in_buckets fb is b

-- `flush_blocks_count[id] = 0` for each of the ids.
abbrev pub empty_buckets : BlockLists → List ℕ → BlockLists
empty_buckets fb [] = fb
empty_buckets fb (i ∷ is) = empty_buckets (update fb i []) is

module _ {A : Type 0} where
  -- `FlushRegion` of each block of a bucket.
  abbrev pub flush_blocks : Region A → List ℕ → Region A
  flush_blocks r [] = r
  flush_blocks r (b ∷ bs) = flush_blocks (Region.flush r b) bs

  abbrev pub flush_buckets : Region A → BlockLists → List ℕ → Region A
  flush_buckets r fb [] = r
  flush_buckets r fb (i ∷ is) = flush_buckets (flush_blocks r (fb i)) fb is
