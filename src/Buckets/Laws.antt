-- ===== src/Buckets/Laws.antt =====
-- What the scan of the buckets finds, and that the strided loops of the threads visit every index.
use libcrpm.Base.{
  ℕ, zero, suc, ◌+◌, ◌*◌, ◌/◌, ◌%◌, ◌<◌, ◌≤◌, ◌≡◌, ◌≢◌, ◌⊎◌, inl, inr, refl, true, false, List, [],
  ◌∷◌, ◌==◌, update, length, contains, contains-append, arith, Bool-cases, lt→ltb, subst,
}
use native.Mathlib.Nat.{mod-add-div', div-le_self}
use libcrpm.Constants.{max_flush_blocks, max_threads}
use libcrpm.Buckets.{
  BlockLists, push, Flags, scan_sizes, scan, mode_of, no_action, use_flush_blocks, strided, threads,
  in_buckets, empty_buckets,
}

scan_sizes-empty :
    (n i : ℕ) (fb : BlockLists) (f : Flags)
    → (scan_sizes n i fb f).all_empty ≡ true
    → (f.all_empty ≡ true) × ((j : ℕ) → i ≤ j → j < i + n → length (fb j) ≡ 0)
unfolding scan_sizes
scan_sizes-empty zero i fb f h = (h, λ j lo hi. absurd (omega arith))
scan_sizes-empty (suc n) i fb f h =
    let rest = scan_sizes-empty n (i + 1) fb _ h in
    (ground (arith, rest.0), λ j lo hi. ground (arith, rest.0, rest.1 j))

scan_sizes-full_stays :
    (n i : ℕ) (fb : BlockLists) (f : Flags)
    → f.has_full ≡ true
    → (scan_sizes n i fb f).has_full ≡ true
unfolding scan_sizes
scan_sizes-full_stays zero i fb f h = h
scan_sizes-full_stays (suc n) i fb f h = scan_sizes-full_stays n (i + 1) fb _ (ground arith)

scan_sizes-full :
    (n i : ℕ) (fb : BlockLists) (f : Flags) (j : ℕ)
    → i ≤ j
    → j < i + n
    → length (fb j) ≡ max_flush_blocks
    → (scan_sizes n i fb f).has_full ≡ true
unfolding scan_sizes
scan_sizes-full zero i fb f j lo hi h = absurd (omega arith)
scan_sizes-full (suc n) i fb f j lo hi h = elim (Bool-cases (i == j)) [
  | inl here ↦ scan_sizes-full_stays n (i + 1) fb _ (ground arith)
  | inr later ↦ scan_sizes-full n (i + 1) fb _ j (ground arith) (omega arith) h
]

pub length-zero_contains : (xs : List ℕ) (b : ℕ) → length xs ≡ 0 → contains xs b ≡ false
length-zero_contains [] b h = refl
length-zero_contains (x ∷ xs) b h = absurd (omega arith)

-- A checkpoint takes no action only if the buckets of all thread ids are empty.
pub no_action-empty :
    (fb : BlockLists)
    → mode_of (scan fb) ≡ no_action
    → (j : ℕ) → j < max_threads
    → length (fb j) ≡ 0
unfolding mode_of scan
no_action-empty fb h j lt =
    (scan_sizes-empty max_threads 0 fb (record { all_empty = true; has_full = false })
        (ground arith)).1
      j (omega arith) (omega arith)

-- A checkpoint flushes by buckets only if none of them is full.
pub use_flush_blocks-not_full :
    (fb : BlockLists)
    → mode_of (scan fb) ≡ use_flush_blocks
    → (j : ℕ) → j < max_threads
    → length (fb j) ≢ max_flush_blocks
unfolding mode_of scan
use_flush_blocks-not_full fb h j lt full =
    let found =
      scan_sizes-full max_threads 0 fb (record { all_empty = true; has_full = false }) j
        (omega arith) (omega arith) full in
    ground arith

pub strided_covers :
    (k fuel id step bound : ℕ)
    → k < fuel
    → id + k * step < bound
    → contains (strided fuel id step bound) (id + k * step) ≡ true
unfolding strided
strided_covers k zero id step bound f lt = absurd (omega arith)
strided_covers zero (suc fuel) id step bound f lt = ground arith
strided_covers (suc k) (suc fuel) id step bound f lt =
    let e : id + suc k * step ≡ id + step + k * step = omega arith in
    rw (e, lt→ltb id bound (omega arith))
      (ground (arith, strided_covers k fuel (id + step) step bound))

pub threads-covers : (n t x : ℕ) → t ≤ x → x < t + n → contains (threads n t) x ≡ true
unfolding threads
threads-covers zero t x lo hi = absurd (omega arith)
threads-covers (suc n) t x lo hi = ground (arith, threads-covers n (t + 1) x)

-- When a positive number n of threads walk the indices below a bound in strides of n, each from its
-- own id, the thread x mod n visits each index x below the bound.
pub strided-mod :
    (n x bound : ℕ) → 0 < n → x < bound → contains (strided bound (x % n) n bound) x ≡ true
strided-mod n x bound pos lt =
    let e : x % n + x / n * n ≡ x = mod-add-div' x n in
    let le : x / n ≤ x = div-le_self x n in
    subst (λ y. contains (strided bound (x % n) n bound) y ≡ true) e
      (strided_covers (x / n) bound (x % n) n bound (omega arith) (rw e lt))

-- A block that is pushed is in its bucket, or the bucket was full.
pub push-covers :
    (fb : BlockLists) (t b : ℕ)
    → (contains (push fb t b t) b ≡ true) ⊎ (length (push fb t b t) ≡ max_flush_blocks)
unfolding push
push-covers fb t b = elim (Bool-cases (length (fb t) == max_flush_blocks)) [
  | inl full ↦ rw full (inr (ground arith))
  | inr room ↦ rw room (inl (ground (arith, contains-append (fb t) (b ∷ []) b)))
]

-- A push takes nothing out of a bucket, and a full bucket stays full.
pub push-keeps :
    (fb : BlockLists) (t b i c : ℕ)
    → (contains (fb i) c ≡ true → contains (push fb t b i) c ≡ true)
      × (length (fb i) ≡ max_flush_blocks → length (push fb t b i) ≡ max_flush_blocks)
unfolding push
push-keeps fb t b i c = (ground (arith, contains-append (fb t) (b ∷ []) c), ground arith)

pub in_buckets-member :
    (fb : BlockLists) (is : List ℕ) (i b : ℕ)
    → contains is i ≡ true
    → contains (fb i) b ≡ true
    → in_buckets fb is b ≡ true
in_buckets-member fb [] i b m h = cc
in_buckets-member fb (j ∷ is) i b m h = ground (arith, in_buckets-member fb is i b)

pub empty_buckets-other :
    (fb : BlockLists) (is : List ℕ) (i : ℕ) → contains is i ≡ false → empty_buckets fb is i ≡ fb i
empty_buckets-other fb [] i h = refl
empty_buckets-other fb (j ∷ is) i h = ground (arith, empty_buckets-other (update fb j []) is i)

pub empty_buckets_stay :
    (fb : BlockLists) (is : List ℕ) (i : ℕ) → fb i ≡ [] → empty_buckets fb is i ≡ []
empty_buckets_stay fb [] i h = h
empty_buckets_stay fb (j ∷ is) i h = empty_buckets_stay (update fb j []) is i (ground arith)

pub empty_buckets-hit :
    (fb : BlockLists) (is : List ℕ) (i : ℕ) → contains is i ≡ true → empty_buckets fb is i ≡ []
empty_buckets-hit fb [] i h = cc
empty_buckets-hit fb (j ∷ is) i h = elim (Bool-cases (j == i)) [
  | inl here ↦ empty_buckets_stay (update fb j []) is i (ground arith)
  | inr later ↦ empty_buckets-hit (update fb j []) is i (ground arith)
]
