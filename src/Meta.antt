-- ===== src/Meta.antt =====
-- MetadataV1 (runtime/src/metadata.cpp, runtime/include/internal/metadata.h): two copies of the data
-- of a pool, and the word that says which of them is consistent.
pub mod Recovery
use libcrpm.Base.{
  ℕ, zero, suc, ◌+◌, ◌*◌, Bool, Option, none, some, List, [], ◌∷◌, ◌==◌, if◌then◌else◌, bit_and,
  not,
}
use libcrpm.Constants.{huge_page_size, cache_line_size}
use libcrpm.Pm.Region.{Region, on_medium}
use libcrpm.Pm.Region
use libcrpm.Pm.Word.{Word, word_on_medium}
use libcrpm.Pm.Word
use libcrpm.Pm.Run.{run}

-- kMetadataV1Magic, kMainData and kBackData.
abbrev pub metadata_v1_magic : ℕ
metadata_v1_magic = 0x6f6f0101

abbrev pub main_data_mark : ℕ
main_data_mark = 1

abbrev pub back_data_mark : ℕ
back_data_mark = 2

-- The data is held by cache lines, each a number.
pub record MetadataV1 : Type 0 where
  pub attributes : Word
  pub consistent_data : Word
  pub nr_lines : ℕ
  pub main_data : Region ℕ
  pub back_data : Region ℕ

unfoldable pub store_fence : MetadataV1 → MetadataV1
store_fence m = record m {
  attributes = Word.fence m.attributes;
  consistent_data = Word.fence m.consistent_data;
  main_data = Region.fence m.main_data;
  back_data = Region.fence m.back_data;
}

-- What the file holds when `Open` maps it.
pub record MetadataMedium : Type 0 where
  pub magic : ℕ
  pub attributes : ℕ
  pub consistent_data : ℕ
  pub nr_lines : ℕ
  pub main_data : ℕ → ℕ
  pub back_data : ℕ → ℕ

-- `Open` without `create`.
unfoldable pub open_metadata : MetadataMedium → Option MetadataV1
open_metadata f =
    if f.magic == metadata_v1_magic
    then some (record {
      attributes = word_on_medium f.attributes;
      consistent_data = word_on_medium f.consistent_data;
      nr_lines = f.nr_lines;
      main_data = on_medium f.main_data;
      back_data = on_medium f.back_data;
    })
    else none

-- NonTemporalCopyWithWriteElimination, by the lines that are left: a line that is the same is not
-- stored.
unfoldable pub copy_lines : ℕ → ℕ → (ℕ → ℕ) → Region ℕ → Region ℕ
copy_lines zero i src dst = dst
copy_lines (suc n) i src dst =
    copy_lines n (i + 1) src (if src i == dst.view i then dst else Region.nt_store dst i (src i))

abbrev pub consistent_instructions : ℕ → List (MetadataV1 → MetadataV1)
consistent_instructions mark =
    (λ m. record m { consistent_data = Word.nt_store m.consistent_data mark }) ∷ store_fence ∷ []

unfoldable pub set_consistent_data : MetadataV1 → ℕ → MetadataV1
set_consistent_data m mark = run (consistent_instructions mark) m

unfoldable pub set_attributes : MetadataV1 → ℕ → MetadataV1
set_attributes m attributes =
    store_fence (record m { attributes = Word.nt_store m.attributes attributes })

abbrev pub back_copied : MetadataV1 → MetadataV1
back_copied m = record m { back_data = copy_lines m.nr_lines 0 m.main_data.view m.back_data }

abbrev pub main_copied : MetadataV1 → MetadataV1
main_copied m = record m { main_data = copy_lines m.nr_lines 0 m.back_data.view m.main_data }

-- What `recover_data` does to persistent memory, in its order: a copy, and the instructions of
-- `set_consistent_data`.
unfoldable pub recover_instructions : MetadataV1 → List (MetadataV1 → MetadataV1)
recover_instructions m =
    if m.consistent_data.value == main_data_mark
    then back_copied ∷ consistent_instructions back_data_mark
    else main_copied ∷ []

unfoldable pub recover_data : MetadataV1 → MetadataV1
recover_data m = run (recover_instructions m) m

-- The data of the consistent copy.
abbrev pub consistent : MetadataV1 → ℕ → ℕ
consistent m i =
    if m.consistent_data.value == main_data_mark then m.main_data.view i else m.back_data.view i
