-- ===== src/Nvm/Copying.antt =====
-- What the copies of blocks to a back segment change, and what they leave alone.
use libcrpm.Base.{
  ℕ, zero, suc, ◌+◌, ◌-◌, ◌*◌, ◌<◌, ◌≤◌, ◌≡◌, ◌≢◌, refl, ◌∙◌, true, false, ◌||◌, List, [], ◌∷◌,
  ◌++◌, ◌==◌, leb, ltb, ◌&&◌, if◌then◌else◌, length, contains, contains-append, arith, Bool-cases,
  inl, inr, ap, ==_refl,
}
use libcrpm.Constants.{blocks_per_segment}
use libcrpm.Pm.Region.{Region, flushing, clean}
use libcrpm.Pm.Region
use libcrpm.Pm.Run.{run, AtEachPoint}
use libcrpm.Image.Defs.{Image}
use libcrpm.Nvm.Defs.{cell}
use libcrpm.Nvm.WriteBack.{address_list_capacity, range, copy_order, copy_block, copy_blocks}

-- The order of the copies has each block that was dirty, once the list is empty again.
pub copy_order_lem :
    (bs list : List ℕ) (b : ℕ)
    → contains (copy_order bs list) b ≡ (contains list b || contains bs b)
unfolding copy_order
copy_order_lem [] list b = ground arith
copy_order_lem (c ∷ bs) list b =
    elim (Bool-cases (length (list ++ (c ∷ [])) == address_list_capacity)) [
      | inl full ↦ rw full (
          ground (
            arith,
            contains-append (list ++ (c ∷ [])) (copy_order bs []) b,
            contains-append list (c ∷ []) b,
            copy_order_lem bs [] b,
          ))
      | inr room ↦
          rw room (
            ground (arith, contains-append list (c ∷ []) b, copy_order_lem bs (list ++ (c ∷ [])) b))
    ]

pub range_lem : (n start b : ℕ) → contains (range n start) b ≡ (leb start b && ltb b (start + n))
unfolding range
range_lem zero start b = ground arith
range_lem (suc n) start b = ground (arith, range_lem n (start + 1) b)

-- The blocks are blocks of the segment.
abbrev pub AreIn : ℕ → List ℕ → Type 0
AreIn seg bs =
    (b : ℕ)
    → contains bs b ≡ true
    → (seg * blocks_per_segment ≤ b) × (b < seg * blocks_per_segment + blocks_per_segment)

module _ {B : Type 0} where
  -- The image differs from `m` in the back segment alone.
  pub record IsCopy (m : Image B) (back : ℕ) (f : Image B) : Type 0 where
    pub memory : Region B
    pub same : f ≡ record m { back_memory = memory }
    pub elsewhere :
        (b k : ℕ)
        → b ≢ back
        → k < blocks_per_segment
        → (memory.view (cell b k) ≡ m.back_memory.view (cell b k))
          × (memory.status (cell b k) ≡ m.back_memory.status (cell b k))

  -- What the copies leave in the back segment.
  pub record HasCopied (m : Image B) (back seg : ℕ) (bs : List ℕ) (f : Image B) : Type 0 where
    pub copied :
        (k : ℕ)
        → k < blocks_per_segment
        → contains bs (cell seg k) ≡ true
        → (f.back_memory.view (cell back k) ≡ m.main_memory.view (cell seg k))
          × (f.back_memory.status (cell back k) ≡ flushing)
    pub others :
        (k : ℕ)
        → k < blocks_per_segment
        → contains bs (cell seg k) ≡ false
        → (f.back_memory.view (cell back k) ≡ m.back_memory.view (cell back k))
          × (f.back_memory.status (cell back k) ≡ m.back_memory.status (cell back k))

  module _ (m : Image B) (back seg : ℕ) where
    copy_block-IsCopy :
        (b : ℕ) (f : Image B)
        → seg * blocks_per_segment ≤ b
        → b < seg * blocks_per_segment + blocks_per_segment
        → IsCopy m back f
        → IsCopy m back (copy_block back seg b f)
    unfolding copy_block Region.nt_store
    copy_block-IsCopy b f lo hi c = record {
      memory =
          Region.nt_store c.memory (b + back * blocks_per_segment - seg * blocks_per_segment)
            (m.main_memory.view b);
      same = ap (copy_block back seg b) c.same;
      elsewhere = λ o k ne lt. ground (arith, c.elsewhere o k ne lt);
    }

    -- Each point of the copies.
    pub copies-IsCopy :
        (bs : List ℕ) (f : Image B)
        → AreIn seg bs
        → IsCopy m back f
        → AtEachPoint (IsCopy m back) (copy_blocks back seg bs) f
    copies-IsCopy [] f within c = c
    copies-IsCopy (b ∷ bs) f within c = (
      c,
      copies-IsCopy bs (copy_block back seg b f) (λ o h. within o (ground (arith, h)))
          (copy_block-IsCopy b f (within b (ground arith)).0 (within b (ground arith)).1 c),
    )

    pub same-IsCopy : IsCopy m back m
    same-IsCopy = record {
      memory = m.back_memory;
      same = refl;
      elsewhere = λ o k ne lt. (refl, refl);
    }

  copy_block-cell :
      (back seg b k : ℕ) (m : Image B)
      → seg * blocks_per_segment ≤ b
      → k < blocks_per_segment
      → ((copy_block back seg b m).back_memory.view (cell back k)
          ≡ (if b == cell seg k then m.main_memory.view b else m.back_memory.view (cell back k)))
        × ((copy_block back seg b m).back_memory.status (cell back k)
            ≡ (if b == cell seg k then flushing else m.back_memory.status (cell back k)))
  unfolding copy_block Region.nt_store
  copy_block-cell back seg b k m lo lt =
      let place : (b + back * blocks_per_segment - seg * blocks_per_segment == cell back k)
          ≡ (b == cell seg k) =
        ground arith in
      rw place (refl, refl)

  pub copies-HasCopied :
      (back seg : ℕ) (bs : List ℕ) (m : Image B)
      → AreIn seg bs
      → HasCopied m back seg bs (run (copy_blocks back seg bs) m)
  unfolding copy_block
  copies-HasCopied back seg [] m within = record {
    copied = λ k lt h. absurd (cc);
    others = λ k lt h. (refl, refl);
  }
  copies-HasCopied back seg (b ∷ bs) m within =
      let rest =
        copies-HasCopied back seg bs (copy_block back seg b m)
          (λ o h. within o (ground (arith, h))) in
      let first = λ (k : ℕ) (lt : k < blocks_per_segment).
        copy_block-cell back seg b k m (within b (ground arith)).0 lt in
      record {
        copied = λ k lt h. elim (Bool-cases (contains bs (cell seg k))) [
          | inl later ↦ rest.copied k lt later
          | inr now ↦
              let here : b ≡ cell seg k = ground arith in
              (
                (rest.others k lt now).0 ∙ (first k lt).0 ∙ rw (here, ==_refl (cell seg k)) refl,
                (rest.others k lt now).1 ∙ (first k lt).1 ∙ rw (here, ==_refl (cell seg k)) refl,
              )
        ];
        others = λ k lt h.
            let now : contains bs (cell seg k) ≡ false = ground arith in
            let there : (b == cell seg k) ≡ false = ground arith in
            (
              (rest.others k lt now).0 ∙ (first k lt).0 ∙ rw there refl,
              (rest.others k lt now).1 ∙ (first k lt).1 ∙ rw there refl,
            );
      }
