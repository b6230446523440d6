-- ===== src/Alloc/Lookup.antt =====
-- What the lookup table holds: the smallest class that a size fits.
use libcrpm.Base.{
  ℕ, zero, suc, ◌+◌, ◌-◌, ◌<◌, ◌≤◌, ◌≡◌, refl, List, [], ◌∷◌, update, max, leb, ltb, if◌then◌else◌,
  arith, ◌&&◌, ◌∙◌, inl, inr, ◌⊎◌, Bool-cases, length, subst, sym,
}
use libcrpm.Alloc.SizeClass.{
  size_classes, max_size_classes, max_size, get_entry, nth_entry, fill_while, fill, lookup,
}

-- The first of the classes, numbered from `idx`, whose blocks are large enough.
unfoldable pub first_fit : ℕ → List ℕ → ℕ → ℕ
first_fit idx [] size = 0
first_fit idx (block_size ∷ sizes) size =
    if leb size block_size then idx else first_fit (idx + 1) sizes size

fill_while_lem :
    (n start idx : ℕ) (table : ℕ → ℕ) (size : ℕ)
    → fill_while n start idx table size
      ≡ (if leb start size && ltb size (start + n) then idx else table size)
unfolding fill_while
fill_while_lem zero start idx table size = ground arith
fill_while_lem (suc n) start idx table size =
    ground (arith, fill_while_lem n (start + 1) idx (update table start idx) size)

-- Sizes below `size_idx` are left alone.
fill_below :
    (idx : ℕ) (sizes : List ℕ) (size_idx : ℕ) (table : ℕ → ℕ) (size : ℕ)
    → size < size_idx
    → fill idx sizes size_idx table size ≡ table size
unfolding fill
fill_below idx [] size_idx table size lt = refl
fill_below idx (b ∷ sizes) size_idx table size lt =
    fill_below (idx + 1) sizes (max size_idx (b + 1)) _ size (omega arith)
    ∙ ground (arith, fill_while_lem (b + 1 - size_idx) size_idx idx table size)

fill-first_fit :
    (idx : ℕ) (sizes : List ℕ) (size_idx : ℕ) (table : ℕ → ℕ) (size : ℕ)
    → size_idx ≤ size
    → table size ≡ 0
    → fill idx sizes size_idx table size ≡ first_fit idx sizes size
unfolding fill first_fit
fill-first_fit idx [] size_idx table size le empty = empty
fill-first_fit idx (b ∷ sizes) size_idx table size le empty = elim (Bool-cases (leb size b)) [
  | inl fits ↦
      fill_below (idx + 1) sizes (max size_idx (b + 1)) _ size (ground arith)
      ∙ ground (arith, fill_while_lem (b + 1 - size_idx) size_idx idx table size)
  | inr small ↦ rw small (
      fill-first_fit (idx + 1) sizes (max size_idx (b + 1)) _ size (ground arith)
        (ground (arith, fill_while_lem (b + 1 - size_idx) size_idx idx table size)))
]

-- The table that the constructor of SizeClass fills holds, for each size, the first class whose
-- blocks are large enough, and 0 for a size that no class fits.
pub lookup-first_fit : (size : ℕ) → lookup size ≡ first_fit 1 size_classes size
unfolding lookup
lookup-first_fit size = fill-first_fit 1 size_classes 0 (λ s. 0) size (omega arith) refl

-- The class is the smallest whose blocks have the size.
pub record IsFit (size class : ℕ) : Type 0 where
  pub positive : 0 < class
  pub in_table : class < max_size_classes
  pub fits : size ≤ (get_entry class).block_size
  pub smallest : (j : ℕ) → 0 < j → j < class → (get_entry j).block_size < size

largest : (nth_entry size_classes 38).block_size ≡ max_size
unfolding nth_entry
largest = refl

small_before :
    (b : ℕ) (sizes : List ℕ) (size n : ℕ)
    → b < size
    → ((k : ℕ) → k < n → (nth_entry sizes k).block_size < size)
    → (k : ℕ) → k < suc n
    → (nth_entry (b ∷ sizes) k).block_size < size
unfolding nth_entry
small_before b sizes size n small rest zero lt = small
small_before b sizes size n small rest (suc k) lt = rest k (omega arith)

first_fit_lem :
    (idx : ℕ) (sizes : List ℕ) (size : ℕ)
    → ((k : ℕ) → k < length sizes → (nth_entry sizes k).block_size < size)
      ⊎ ((k : ℕ) × (first_fit idx sizes size ≡ idx + k)
          × (k < length sizes)
          × (size ≤ (nth_entry sizes k).block_size)
          × ((j : ℕ) → j < k → (nth_entry sizes j).block_size < size))
unfolding first_fit nth_entry
first_fit_lem idx [] size = inl (λ k lt. absurd (omega arith))
first_fit_lem idx (b ∷ sizes) size = elim (Bool-cases (leb size b)) [
  | inl fits ↦
      inr (0, rw fits (omega arith), omega arith, ground arith, λ j lt. absurd (omega arith))
  | inr small ↦ elim (first_fit_lem (idx + 1) sizes size) [
    | inl none ↦ inl (small_before b sizes size (length sizes) (ground arith) none)
    | inr (k, at, lt, fits, before) ↦ inr (
      suc k,
      rw small (omega (arith, at)),
      omega arith,
      fits,
      small_before b sizes size k (ground arith) before,
    )
  ]
]

suc-IsFit :
    (size k : ℕ)
    → k < length size_classes
    → size ≤ (nth_entry size_classes k).block_size
    → ((j : ℕ) → j < k → (nth_entry size_classes j).block_size < size)
    → IsFit size (suc k)
unfolding get_entry
suc-IsFit size k lt fits before = record {
  positive = omega arith;
  in_table = omega arith;
  fits = fits;
  smallest = earlier;
}
  where
    earlier : (j : ℕ) → 0 < j → j < suc k → (get_entry j).block_size < size
    earlier zero pos lt_k = absurd (omega arith)
    earlier (suc j) pos lt_k = before j (omega arith)

-- Each size up to the largest gets a class of the table after the first, which is empty: its blocks
-- are large enough, and those of the classes before it are not.
pub lookup-IsFit : (size : ℕ) → size ≤ max_size → IsFit size (lookup size)
lookup-IsFit size le = elim (first_fit_lem 1 size_classes size) [
  | inl none ↦ absurd (omega (arith, largest, none 38 (omega arith)))
  | inr (k, at, lt, fits, before) ↦
      subst (λ class. IsFit size class) (sym (lookup-first_fit size ∙ at ∙ omega arith))
        (suc-IsFit size k lt fits before)
]
