-- ===== src/Tests/Parts.antt =====
-- The theorems of the allocator's parts and of the metadata at small inputs.
use libcrpm.Base.{
  ℕ, ◌<◌, ◌≡◌, ◌≢◌, ◌⊎◌, inl, inr, refl, [], ◌∷◌, update, arith, ◌==◌, if◌then◌else◌, Bool-cases,
}
use libcrpm.Pm.Region.{on_medium}
use libcrpm.Pm.Word.{word_on_medium}
use libcrpm.Pm.Run.{AtSomePoint}
use libcrpm.Alloc.SizeClass.{lookup}
use libcrpm.Alloc.Lookup.{IsFit, lookup-IsFit}
use libcrpm.Alloc.Bin.{
  Cache, IsChain, IsBin, push_block, pop_block, push_list, push_list-IsBin, pop_block-push_block,
}
use libcrpm.Meta.{
  MetadataV1, recover_data, recover_instructions, main_data_mark, back_data_mark, consistent,
}
use libcrpm.Meta.Recovery.{recover_data_lem, recover_data_window, LeavesData}

lookup-IsFit_example : IsFit 100 (lookup 100)
lookup-IsFit_example = lookup-IsFit 100 (omega arith)

-- Three free blocks at 64, 128 and 192.
abbrev linked : ℕ → ℕ
linked = update (update (λ b. 0) 64 128) 128 192

abbrev empty : Cache
empty = record { next = linked; bin = record { block = 0; block_num = 0 } }

abbrev three : Cache
three = push_list empty 64 3

three-IsBin : IsBin three (64 ∷ 128 ∷ 192 ∷ [])
three-IsBin =
    push_list-IsBin empty 64 (64 ∷ 128 ∷ 192 ∷ [])
      (refl, omega arith, (refl, omega arith, (refl, omega arith, refl)))

pop_block-push_block_example :
    ((pop_block (push_block three 256)).0 ≡ 256)
    × IsBin (pop_block (push_block three 256)).1 (64 ∷ 128 ∷ 192 ∷ [])
pop_block-push_block_example =
    pop_block-push_block three (64 ∷ 128 ∷ 192 ∷ []) 256 (omega arith) refl three-IsBin

third : IsChain three.next 192 (192 ∷ [])
unfolding push_list
third = (refl, omega arith, refl)

abbrev metadata : MetadataV1
metadata = record {
  attributes = word_on_medium 0;
  consistent_data = word_on_medium main_data_mark;
  nr_lines = 4;
  main_data = on_medium (λ i. i);
  back_data = on_medium (λ i. 0);
}

recover_data_lem_example :
    ((recover_data metadata).main_data.view 3 ≡ consistent metadata 3)
    × ((recover_data metadata).back_data.view 3 ≡ consistent metadata 3)
    × ((recover_data metadata).consistent_data.value ≡ (
        if metadata.consistent_data.value == main_data_mark
        then back_data_mark
        else metadata.consistent_data.value))
recover_data_lem_example = recover_data_lem metadata 3 (omega arith)

-- A file in which the copy of the line 2 has not arrived.
abbrev torn : ℕ → ℕ
torn i = if i == 2 then 77 else 0

torn_agrees :
    (i : ℕ)
    → ((i < metadata.nr_lines) × (metadata.main_data.view i ≢ metadata.back_data.view i))
      ⊎ (torn i ≡ metadata.back_data.view i)
torn_agrees i = elim (Bool-cases (i == 2)) [
  | inl here ↦ inl (ground arith, ground arith)
  | inr there ↦ inr (ground arith)
]

recover_data_window_example :
    AtSomePoint
      (λ g. LeavesData g back_data_mark metadata.main_data.view torn)
      (recover_instructions metadata)
      metadata
recover_data_window_example = recover_data_window metadata torn refl torn_agrees
