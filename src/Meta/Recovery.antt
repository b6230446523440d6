-- ===== src/Meta/Recovery.antt =====
-- What MetadataV1::recover_data achieves, and what a crash inside it may leave.
use libcrpm.Base.{
  ℕ, zero, suc, ◌+◌, ◌<◌, ◌≡◌, ◌≢◌, refl, inl, inr, ◌==◌, ◌&&◌, leb, ltb, if◌then◌else◌, arith,
  Bool-cases, not, ◌⊎◌, ◌∷◌, subst, sym,
}
use libcrpm.Pm.Region.{Region, Survives, clean, flushing, on_medium, settled}
use libcrpm.Pm.Region
use libcrpm.Pm.Word.{Word, May}
use libcrpm.Pm.Word
use libcrpm.Pm.Run.{AtSomePoint}
use libcrpm.Meta.{
  MetadataV1, store_fence, copy_lines, recover_instructions, consistent_instructions, recover_data,
  main_data_mark, back_data_mark, back_copied, consistent,
}

copy_lines-view :
    (n i : ℕ) (src : ℕ → ℕ) (dst : Region ℕ) (j : ℕ)
    → (copy_lines n i src dst).view j ≡ (if leb i j && ltb j (i + n) then src j else dst.view j)
unfolding copy_lines Region.nt_store
copy_lines-view zero i src dst j = ground arith
copy_lines-view (suc n) i src dst j = elim (Bool-cases (src i == dst.view i)) [
  | inl same ↦ rw (same, copy_lines) (ground (arith, copy_lines-view n (i + 1) src dst j))
  | inr other ↦
      rw (other, copy_lines)
        (ground (arith, copy_lines-view n (i + 1) src (Region.nt_store dst i (src i)) j))
]

-- The recovery of the metadata keeps, for each line in range, the data of the consistent copy in
-- both copies, and marks the back copy as the consistent one if the main copy was, and leaves the
-- mark otherwise.
pub recover_data_lem :
    (m : MetadataV1) (i : ℕ)
    → i < m.nr_lines
    → ((recover_data m).main_data.view i ≡ consistent m i)
      × ((recover_data m).back_data.view i ≡ consistent m i)
      × ((recover_data m).consistent_data.value ≡ (
          if m.consistent_data.value == main_data_mark
          then back_data_mark
          else m.consistent_data.value))
unfolding recover_data recover_instructions store_fence Region.fence Word.fence Word.nt_store
recover_data_lem m i lt = elim (Bool-cases (m.consistent_data.value == main_data_mark)) [
  | inl main ↦
      rw main
        (refl, ground (arith, copy_lines-view m.nr_lines 0 m.main_data.view m.back_data i), refl)
  | inr back ↦
      rw back
        (ground (arith, copy_lines-view m.nr_lines 0 m.back_data.view m.main_data i), refl, refl)
]

copy_lines-status :
    (n i : ℕ) (src : ℕ → ℕ) (dst : Region ℕ) (j : ℕ)
    → (copy_lines n i src dst).status j
      ≡ (if leb i j && ltb j (i + n) && not (src j == dst.view j) then flushing else dst.status j)
unfolding copy_lines Region.nt_store
copy_lines-status zero i src dst j = ground arith
copy_lines-status (suc n) i src dst j = elim (Bool-cases (src i == dst.view i)) [
  | inl same ↦ rw (same, copy_lines) (ground (arith, copy_lines-status n (i + 1) src dst j))
  | inr other ↦
      rw (other, copy_lines)
        (ground (arith, copy_lines-status n (i + 1) src (Region.nt_store dst i (src i)) j))
]

-- What a crash may leave of the word and of the two copies.
pub record LeavesData (m : MetadataV1) (mark : ℕ) (main_data back_data : ℕ → ℕ) : Type 0 where
  pub mark_left : May m.consistent_data mark
  pub main_left : Survives m.main_data main_data
  pub back_left : Survives m.back_data back_data

-- The mark of the back copy, with another content of it.
abbrev LeavesTorn : MetadataV1 → (ℕ → ℕ) → MetadataV1 → Type 0
LeavesTorn m torn g = LeavesData g back_data_mark m.main_data.view torn

from_main :
    (m : MetadataV1)
    → m.consistent_data.value ≡ main_data_mark
    → recover_instructions m ≡ back_copied ∷ consistent_instructions back_data_mark
unfolding recover_instructions
from_main m main = rw main refl

marked_LeavesTorn :
    (m : MetadataV1) (torn : ℕ → ℕ)
    → ((i : ℕ)
        → ((i < m.nr_lines) × (m.main_data.view i ≢ m.back_data.view i))
          ⊎ (torn i ≡ m.back_data.view i))
    → LeavesTorn m torn (record (back_copied m) {
      consistent_data = Word.nt_store m.consistent_data back_data_mark;
    })
unfolding Word.nt_store
marked_LeavesTorn m torn agrees = record {
  mark_left = inl refl;
  main_left = λ i h. refl;
  back_left = λ i h. elim (agrees i) [
    | inl (lt, differs) ↦
        absurd (ground (arith, h, copy_lines-status m.nr_lines 0 m.main_data.view m.back_data i))
    | inr same ↦ ground (
      arith,
      h,
      copy_lines-status m.nr_lines 0 m.main_data.view m.back_data i,
      copy_lines-view m.nr_lines 0 m.main_data.view m.back_data i,
    )
  ];
}

-- If the main copy is the consistent one and the content `torn` is that of the back copy, but in
-- lines in range in which the copies differed, then at some point of the instructions of the
-- recovery of the metadata a crash may leave the mark of the back copy, with the main data as they
-- were and the content `torn` as the back data.
pub recover_data_window :
    (m : MetadataV1) (torn : ℕ → ℕ)
    → m.consistent_data.value ≡ main_data_mark
    → ((i : ℕ)
        → ((i < m.nr_lines) × (m.main_data.view i ≢ m.back_data.view i))
          ⊎ (torn i ≡ m.back_data.view i))
    → AtSomePoint
        (λ g. LeavesData g back_data_mark m.main_data.view torn)
        (recover_instructions m)
        m
recover_data_window m torn main agrees =
    subst (λ is. AtSomePoint (LeavesTorn m torn) is m) (sym (from_main m main))
      (inr (inr (inl (marked_LeavesTorn m torn agrees))))
