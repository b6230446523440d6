-- ===== src/Alloc/SizeClass.antt =====
-- The table of the size classes, and the constructor of SizeClass, which fills the lookup table.
use libcrpm.Base.{ℕ, zero, suc, ◌+◌, ◌-◌, ◌*◌, ◌/◌, ◌^◌, List, [], ◌∷◌, update, max}

abbrev pub super_block_size : ℕ
super_block_size = 2 ^ 16

abbrev pub max_size_classes : ℕ
max_size_classes = 40

abbrev pub max_size : ℕ
max_size = 2 ^ 13 + 2 ^ 11 * 3

-- The block size of a row `SC(index, lg_grp, lg_delta, ndelta, …)`.
abbrev class_size : ℕ → ℕ → ℕ → ℕ
class_size lg_grp lg_delta ndelta = 2 ^ lg_grp + ndelta * 2 ^ lg_delta

-- `SIZE_CLASSES`, the rows 0 to 38: those with `no` under `bin`, from 39 on, expand to nothing.
abbrev pub size_classes : List ℕ
size_classes =
    class_size 3 3 0
    ∷ class_size 3 3 1
    ∷ class_size 3 3 2
    ∷ class_size 3 3 3
    ∷ class_size 5 3 1
    ∷ class_size 5 3 2
    ∷ class_size 5 3 3
    ∷ class_size 5 3 4
    ∷ class_size 6 4 1
    ∷ class_size 6 4 2
    ∷ class_size 6 4 3
    ∷ class_size 6 4 4
    ∷ class_size 7 5 1
    ∷ class_size 7 5 2
    ∷ class_size 7 5 3
    ∷ class_size 7 5 4
    ∷ class_size 8 6 1
    ∷ class_size 8 6 2
    ∷ class_size 8 6 3
    ∷ class_size 8 6 4
    ∷ class_size 9 7 1
    ∷ class_size 9 7 2
    ∷ class_size 9 7 3
    ∷ class_size 9 7 4
    ∷ class_size 10 8 1
    ∷ class_size 10 8 2
    ∷ class_size 10 8 3
    ∷ class_size 10 8 4
    ∷ class_size 11 9 1
    ∷ class_size 11 9 2
    ∷ class_size 11 9 3
    ∷ class_size 11 9 4
    ∷ class_size 12 10 1
    ∷ class_size 12 10 2
    ∷ class_size 12 10 3
    ∷ class_size 12 10 4
    ∷ class_size 13 11 1
    ∷ class_size 13 11 2
    ∷ class_size 13 11 3
    ∷ []

pub record SizeClassEntry : Type 0 where
  pub block_size : ℕ
  pub sb_size : ℕ
  pub block_num : ℕ
  pub cache_block_num : ℕ

abbrev pub entry_of_size : ℕ → SizeClassEntry
entry_of_size size = record {
  block_size = size;
  sb_size = super_block_size;
  block_num = super_block_size / size;
  cache_block_num = super_block_size / size;
}

-- `size_classes[idx]`: the entry 0 is all zeros.
unfoldable pub nth_entry : List ℕ → ℕ → SizeClassEntry
nth_entry [] idx = record { block_size = 0; sb_size = 0; block_num = 0; cache_block_num = 0 }
nth_entry (size ∷ sizes) zero = entry_of_size size
nth_entry (size ∷ sizes) (suc idx) = nth_entry sizes idx

unfoldable pub get_entry : ℕ → SizeClassEntry
get_entry zero = record { block_size = 0; sb_size = 0; block_num = 0; cache_block_num = 0 }
get_entry (suc idx) = nth_entry size_classes idx

-- `while (size_idx <= block_size) { … }`, with the rounds that it makes.
unfoldable pub fill_while : ℕ → ℕ → ℕ → (ℕ → ℕ) → ℕ → ℕ
fill_while zero size_idx entry_idx table = table
fill_while (suc n) size_idx entry_idx table =
    fill_while n (size_idx + 1) entry_idx (update table size_idx entry_idx)

-- `for (entry_idx = 1; entry_idx < kMaxSizeClasses; ++entry_idx)`, over the entries that are left;
-- the inner loop leaves `size_idx` past the block size.
unfoldable pub fill : ℕ → List ℕ → ℕ → (ℕ → ℕ) → ℕ → ℕ
fill entry_idx [] size_idx table = table
fill entry_idx (block_size ∷ sizes) size_idx table =
    fill (entry_idx + 1) sizes (max size_idx (block_size + 1))
      (fill_while (block_size + 1 - size_idx) size_idx entry_idx table)

unfoldable pub lookup : ℕ → ℕ
lookup = fill 1 size_classes 0 (λ size. 0)
