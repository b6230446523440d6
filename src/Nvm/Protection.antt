-- ===== src/Nvm/Protection.antt =====
-- What protects the last checkpoint while the program runs under NvmInstEngine: what a crash leaves, what the
-- next recovery makes of it, and which blocks have to hold the data of the checkpoint.
use libcrpm.Base.{
  ℕ, ◌<◌, ◌≤◌, ◌≡◌, ◌≢◌, ◌⊎◌, inl, inr, refl, sym, ◌∙◌, ap, Bool, true, false, [], arith,
  Bool-cases,
}
use libcrpm.Constants.{null_segment_index, blocks_per_segment}
use libcrpm.Pm.Word.{May, May-sure}
use libcrpm.Pm.Region.{Region, clean}
use libcrpm.Pm.Region
use libcrpm.Image.Defs.{Image, ss_back}
use libcrpm.Image.Crash.{StateMedium, LeavesStates, found_state}
use libcrpm.Image.Binding.{IsBound}
use libcrpm.Nvm.Defs.{cell}

-- The parts of the file that a recovery reads.
pub record Medium (B : Type 0) : Type 0 where
  pub states : StateMedium
  pub back_to_main : ℕ → ℕ
  pub main_memory : ℕ → B
  pub back_memory : ℕ → B

module _ {B : Type 0} where
  -- What a crash may leave.
  pub record Leaves (m : Image B) (d : Medium B) : Type 0 where
    pub states : LeavesStates m d.states
    pub back_to_main : (b : ℕ) → May (m.back_to_main b) (d.back_to_main b)
    pub main_memory : Region.Survives m.main_memory d.main_memory
    pub back_memory : Region.Survives m.back_memory d.back_memory

-- The last checkpoint: the content of the blocks, and which of them it promises.
pub record Snapshot (B : Type 0) : Type 0 where
  pub nr_main : ℕ
  pub nr_back : ℕ
  pub content : ℕ → B
  pub promised : ℕ → Bool

module _ {B : Type 0} where
  -- Block `k` of the segment is one that the checkpoint promises.
  abbrev pub IsPromised : Snapshot B → ℕ → ℕ → Type 0
  IsPromised s seg k =
      (seg < s.nr_main) × (k < blocks_per_segment) × (s.promised (cell seg k) ≡ true)

  -- The recovery takes a segment from its back segment if the state says so and it has one, and else from itself
  -- (see Image.Recovery). Either way it is the content of the checkpoint.
  pub record IsRestored (s : Snapshot B) (d : Medium B) : Type 0 where
    pub from_back :
        (seg k b : ℕ)
        → IsPromised s seg k
        → found_state d.states seg ≡ ss_back
        → b < s.nr_back
        → d.back_to_main b ≡ seg
        → d.back_memory (cell b k) ≡ s.content (cell seg k)
    pub from_main :
        (seg k : ℕ)
        → IsPromised s seg k
        → (found_state d.states seg ≢ ss_back) ⊎ ((b : ℕ) → b < s.nr_back → d.back_to_main b ≢ seg)
        → d.main_memory (cell seg k) ≡ s.content (cell seg k)

  -- A cell surely holds the value on the medium.
  abbrev pub Holds : Region B → ℕ → B → Type 0
  Holds r x v = (r.view x ≡ v) × (r.status x ≡ clean)

  -- A crash now is harmless, if the states that it leaves are `states`: `is_dirty` says which segments the
  -- program may write.
  pub record Covers (s : Snapshot B) (is_dirty : ℕ → Bool) (states : ℕ → ℕ) (m : Image B)
      : Type 0 where
    pub main_size : m.nr_main_segments ≡ s.nr_main
    pub back_size : m.nr_back_segments ≡ s.nr_back
    pub few_main : s.nr_main ≤ null_segment_index
    pub few_back : s.nr_back ≤ null_segment_index
    pub bound : IsBound m
    pub bound_sure : (b : ℕ) → b < s.nr_back → (m.back_to_main b).older ≡ []
    pub main_kept :
        (seg k : ℕ)
        → IsPromised s seg k
        → is_dirty seg ≡ false
        → Holds m.main_memory (cell seg k) (s.content (cell seg k))
    pub back_kept :
        (seg k : ℕ)
        → IsPromised s seg k
        → states seg ≡ ss_back
        → m.main_to_back seg ≢ null_segment_index
        → Holds m.back_memory (cell (m.main_to_back seg) k) (s.content (cell seg k))
    pub dirty_kept :
        (seg k : ℕ)
        → IsPromised s seg k
        → is_dirty seg ≡ true
        → (states seg ≡ ss_back) × (m.main_to_back seg ≢ null_segment_index)

  -- After a crash that leaves those states, the recovery finds the checkpoint.
  pub Covers-IsRestored :
      (s : Snapshot B) (is_dirty : ℕ → Bool) (states : ℕ → ℕ) (m : Image B) (d : Medium B)
      → Covers s is_dirty states m
      → Leaves m d
      → ((seg : ℕ) → seg < s.nr_main → found_state d.states seg ≡ states seg)
      → IsRestored s d
  Covers-IsRestored s is_dirty states m d c left found = record {
    from_back = λ seg k b p back lt at.
        let owner : (m.back_to_main b).value ≡ seg =
          sym (
            May-sure (m.back_to_main b) (d.back_to_main b) (c.bound_sure b lt)
              (left.back_to_main b))
          ∙ at in
        let mine =
          c.bound.backward b seg (rw c.back_size lt) owner (omega (arith, p.0, c.few_main)) in
        let some : m.main_to_back seg ≢ null_segment_index =
          rw mine.1 (omega (arith, lt, c.few_back)) in
        let h = c.back_kept seg k p (sym (found seg p.0) ∙ back) some in
        ap (λ x. d.back_memory (cell x k)) (sym mine.1)
        ∙ left.back_memory (cell (m.main_to_back seg) k) h.1
        ∙ h.0;
    from_main = λ seg k p not_back. elim (Bool-cases (is_dirty seg)) [
      | inr idle ↦ let h = c.main_kept seg k p idle in left.main_memory (cell seg k) h.1 ∙ h.0
      | inl dirty ↦
          let h = c.dirty_kept seg k p dirty in
          let mine = c.bound.forward seg (m.main_to_back seg) (rw c.main_size p.0) refl h.1 in
          let lt : m.main_to_back seg < s.nr_back = rw c.back_size at mine.0 in
          let on_medium : d.back_to_main (m.main_to_back seg) ≡ seg =
            May-sure (m.back_to_main (m.main_to_back seg)) (d.back_to_main (m.main_to_back seg))
              (c.bound_sure (m.main_to_back seg) lt) (left.back_to_main (m.main_to_back seg))
            ∙ mine.1 in
          absurd (elim not_back [
            | inl other ↦ other (found seg p.0 ∙ h.0)
            | inr nobody ↦ nobody (m.main_to_back seg) lt on_medium
          ])
    ];
  }
