-- ===== src/Alloc/Bin.antt =====
-- TCacheBin: a stack of free blocks, linked through the blocks themselves.
use libcrpm.Base.{
  ℕ, ◌+◌, ◌-◌, ◌≡◌, ◌≢◌, refl, false, List, [], ◌∷◌, ◌++◌, length, contains, update, arith, subst,
  sym, length-append,
}

-- `next` is the pointer that the first word of a free block holds; 0 is the null pointer.
pub record TCacheBin : Type 0 where
  pub block : ℕ
  pub block_num : ℕ

pub record Cache : Type 0 where
  pub next : ℕ → ℕ
  pub bin : TCacheBin

unfoldable pub push_block : Cache → ℕ → Cache
push_block c new_block = record {
  next = update c.next new_block c.bin.block;
  bin = record { block = new_block; block_num = c.bin.block_num + 1 };
}

unfoldable pub pop_block : Cache → ℕ × Cache
pop_block c = (
  c.bin.block,
  record c { bin = record { block = c.next c.bin.block; block_num = c.bin.block_num - 1 } },
)

unfoldable pub push_list : Cache → ℕ → ℕ → Cache
push_list c head count = record c { bin = record { block = head; block_num = count } }

unfoldable pub pop_list : Cache → ℕ → ℕ → Cache
pop_list c head count = record c {
  bin = record { block = head; block_num = c.bin.block_num - count };
}

-- The blocks of a chain, from its head to the null pointer.
abbrev pub IsChain : (ℕ → ℕ) → ℕ → List ℕ → Type 0
IsChain next head [] = head ≡ 0
IsChain next head (x ∷ xs) = (head ≡ x) × (x ≢ 0) × IsChain next (next x) xs

-- The bin holds the blocks of the list, and counts them.
pub record IsBin (c : Cache) (xs : List ℕ) : Type 0 where
  pub chain : IsChain c.next c.bin.block xs
  pub count : c.bin.block_num ≡ length xs

-- A store to a block that is not in a chain leaves the chain alone.
IsChain-other :
    (next : ℕ → ℕ) (head : ℕ) (xs : List ℕ) (b v : ℕ)
    → contains xs b ≡ false
    → IsChain next head xs
    → IsChain (update next b v) head xs
IsChain-other next head [] b v out h = h
IsChain-other next head (x ∷ xs) b v out h =
    let kept : update next b v x ≡ next x = ground arith in
    (
      h.0,
      h.1,
      subst (λ t. IsChain (update next b v) t xs) (sym kept)
          (IsChain-other next (next x) xs b v (ground arith) h.2),
    )

-- A push puts a block that is not in the bin, and not null, on top.
pub push_block-IsBin :
    (c : Cache) (xs : List ℕ) (b : ℕ)
    → b ≢ 0
    → contains xs b ≡ false
    → IsBin c xs
    → IsBin (push_block c b) (b ∷ xs)
unfolding push_block
push_block-IsBin c xs b some out h = record {
  chain =
      let linked : update c.next b c.bin.block b ≡ c.bin.block = ground arith in
      (
        refl,
        some,
        subst (λ t. IsChain (update c.next b c.bin.block) t xs) (sym linked)
            (IsChain-other c.next c.bin.block xs b c.bin.block out h.chain),
      );
  count = omega (arith, h.count);
}

-- A pop of a bin that is not empty gives back the block on top, and the others stay.
pub pop_block-IsBin :
    (c : Cache) (x : ℕ) (xs : List ℕ)
    → IsBin c (x ∷ xs)
    → ((pop_block c).0 ≡ x) × IsBin (pop_block c).1 xs
unfolding pop_block
pop_block-IsBin c x xs h = (
  h.chain.0,
  record {
    chain = subst (λ t. IsChain c.next (c.next t) xs) (sym h.chain.0) h.chain.2;
    count = omega (arith, h.count);
  },
)

-- A list that is pushed is what the bin then holds.
pub push_list-IsBin :
    (c : Cache) (head : ℕ) (xs : List ℕ)
    → IsChain c.next head xs
    → IsBin (push_list c head (length xs)) xs
unfolding push_list
push_list-IsBin c head xs h = record { chain = h; count = refl }

-- After a pop of the first blocks of a bin, up to the one that the new head names, the bin holds
-- the other blocks and counts them.
pub pop_list-IsBin :
    (c : Cache) (xs ys : List ℕ) (head : ℕ)
    → IsBin c (xs ++ ys)
    → IsChain c.next head ys
    → IsBin (pop_list c head (length xs)) ys
unfolding pop_list
pop_list-IsBin c xs ys head h rest = record {
  chain = rest;
  count = omega (arith, h.count, length-append xs ys);
}

-- A block that is not null and not in a bin of a thread cache, once pushed, is what the next pop
-- gives back, and the bin then holds the blocks of before.
pub pop_block-push_block :
    (c : Cache) (xs : List ℕ) (b : ℕ)
    → b ≢ 0
    → contains xs b ≡ false
    → IsBin c xs
    → ((pop_block (push_block c b)).0 ≡ b) × IsBin (pop_block (push_block c b)).1 xs
pop_block-push_block c xs b some out h =
    pop_block-IsBin (push_block c b) b xs (push_block-IsBin c xs b some out h)
