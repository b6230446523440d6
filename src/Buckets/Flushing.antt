-- ===== src/Buckets/Flushing.antt =====
-- After the threads have flushed their buckets, each block of a bucket is on its way to the medium.
use libcrpm.Base.{
  ℕ, ◌≡◌, refl, ◌∙◌, Bool, true, false, List, [], ◌∷◌, if◌then◌else◌, contains, arith,
}
use libcrpm.Pm.Region.{Region, Status, clean, flushing, dirty, flushed, settled}
use libcrpm.Pm.Region
use libcrpm.Buckets.{BlockLists, in_buckets, flush_blocks, flush_buckets}

-- Written since the last flush.
abbrev pub is_dirty : Status → Bool
is_dirty clean = false
is_dirty flushing = false
is_dirty dirty = true

module _ {A : Type 0} where
  pub flush_blocks-view :
      (bs : List ℕ) (r : Region A) (b : ℕ) → (flush_blocks r bs).view b ≡ r.view b
  unfolding Region.flush
  flush_blocks-view [] r b = refl
  flush_blocks-view (c ∷ bs) r b = flush_blocks-view bs (Region.flush r c) b

  flush_blocks-dirty :
      (bs : List ℕ) (r : Region A) (b : ℕ)
      → is_dirty ((flush_blocks r bs).status b)
        ≡ (if contains bs b then false else is_dirty (r.status b))
  unfolding Region.flush
  flush_blocks-dirty [] r b = refl
  flush_blocks-dirty (c ∷ bs) r b = ground (arith, flush_blocks-dirty bs (Region.flush r c) b)

  pub flush_buckets-view :
      (is : List ℕ) (fb : BlockLists) (r : Region A) (b : ℕ)
      → (flush_buckets r fb is).view b ≡ r.view b
  flush_buckets-view [] fb r b = refl
  flush_buckets-view (i ∷ is) fb r b =
      flush_buckets-view is fb (flush_blocks r (fb i)) b ∙ flush_blocks-view (fb i) r b

  -- What a thread flushes is no longer dirty, and nothing else changes in that respect.
  pub flush_buckets-dirty :
      (is : List ℕ) (fb : BlockLists) (r : Region A) (b : ℕ)
      → is_dirty ((flush_buckets r fb is).status b)
        ≡ (if in_buckets fb is b then false else is_dirty (r.status b))
  flush_buckets-dirty [] fb r b = refl
  flush_buckets-dirty (i ∷ is) fb r b =
      ground
        (arith, flush_buckets-dirty is fb (flush_blocks r (fb i)) b, flush_blocks-dirty (fb i) r b)

  pub fence-dirty :
      (r : Region A) (b : ℕ) → is_dirty ((Region.fence r).status b) ≡ is_dirty (r.status b)
  unfolding Region.fence
  fence-dirty r b = ground arith

  -- A fence makes clean what is not dirty.
  pub fence-clean :
      (r : Region A) (b : ℕ) → is_dirty (r.status b) ≡ false → (Region.fence r).status b ≡ clean
  unfolding Region.fence
  fence-clean r b h = ground arith

  pub write_back_all-dirty :
      (r : Region A) (b : ℕ) → is_dirty ((Region.write_back_all r).status b) ≡ false
  unfolding Region.write_back_all
  write_back_all-dirty r b = ground arith

  flush_blocks-clean :
      (bs : List ℕ) (r : Region A) (b : ℕ)
      → r.status b ≡ clean
      → (flush_blocks r bs).status b ≡ clean
  unfolding Region.flush
  flush_blocks-clean [] r b h = h
  flush_blocks-clean (c ∷ bs) r b h = flush_blocks-clean bs (Region.flush r c) b (ground arith)

  pub flush_buckets-clean :
      (is : List ℕ) (fb : BlockLists) (r : Region A) (b : ℕ)
      → r.status b ≡ clean
      → (flush_buckets r fb is).status b ≡ clean
  flush_buckets-clean [] fb r b h = h
  flush_buckets-clean (i ∷ is) fb r b h =
      flush_buckets-clean is fb (flush_blocks r (fb i)) b (flush_blocks-clean (fb i) r b h)
