-- ===== src/Image/Open.antt =====
-- CheckpointImage::Open: the image that it gives back, and the loop that builds main_to_back.
use libcrpm.Base.{
  ℕ, zero, suc, ◌+◌, ◌<◌, ◌≤◌, ◌≡◌, ◌≢◌, ◌⊎◌, inl, inr, refl, sym, ◌∙◌, ap, false, ◌==◌,
  if◌then◌else◌, update, arith, Bool-cases, subst,
}
use libcrpm.Constants.{null_segment_index}
use libcrpm.Image.Defs.{Image, ss_initial}
use libcrpm.Image.Binding.{IsBound}
use libcrpm.Image.Calls.{Keeps}
use libcrpm.Pm.Region.{on_medium}
use libcrpm.Pm.Word.{word_on_medium}

-- `for (i = 0; i < nr_back_segments; ++i)`, by the rounds that are left.
unfoldable pub link_loop : ℕ → ℕ → (ℕ → ℕ) → (ℕ → ℕ) → ℕ → ℕ
link_loop zero i back_to_main main_to_back = main_to_back
link_loop (suc n) i back_to_main main_to_back = link_loop n (i + 1) back_to_main (
    if back_to_main i == null_segment_index
    then main_to_back
    else update main_to_back (back_to_main i) i)

link_step :
    (i r : ℕ) (btm mtb : ℕ → ℕ) (x : ℕ)
    → r ≡ (if btm i == null_segment_index then mtb else update mtb (btm i) i) x
    → (r ≡ mtb x) ⊎ ((r ≡ i) × (btm i ≡ x) × (btm i ≢ null_segment_index))
link_step i r btm mtb x at = elim (Bool-cases (btm i == null_segment_index)) [
  | inl none ↦ inl (ground arith)
  | inr some ↦ elim (Bool-cases (btm i == x)) [
    | inl here ↦ inr (ground arith, ground arith, ground arith)
    | inr there ↦ inl (ground arith)
  ]
]

-- What the loop leaves for `x` is what was there, or a back segment of the range that has `x`.
link_loop_sound :
    (n i : ℕ) (btm mtb : ℕ → ℕ) (x : ℕ)
    → (link_loop n i btm mtb x ≡ mtb x)
      ⊎ ((btm (link_loop n i btm mtb x) ≡ x) × (link_loop n i btm mtb x < i + n))
unfolding link_loop
link_loop_sound zero i btm mtb x = inl refl
link_loop_sound (suc n) i btm mtb x = elim (link_loop_sound n (i + 1) btm _ x) [
  | inr found ↦ inr (found.0, omega (arith, found.1))
  | inl kept ↦ elim (link_step i _ btm mtb x kept) [
    | inl same ↦ inl same
    | inr (at, has, some) ↦ inr (ap btm at ∙ has, omega (arith, at))
  ]
]

link_loop_other :
    (n i : ℕ) (btm mtb : ℕ → ℕ) (x : ℕ)
    → ((j : ℕ) → i ≤ j → j < i + n → btm j ≢ x)
    → link_loop n i btm mtb x ≡ mtb x
unfolding link_loop
link_loop_other zero i btm mtb x none = refl
link_loop_other (suc n) i btm mtb x none =
    link_loop_other n (i + 1) btm _ x (λ j lo hi. none j (omega arith) (omega arith))
    ∙ ground (arith, none i (omega arith) (omega arith))

-- If `j` alone of the range has `x`, the loop leaves `j` for `x`.
link_loop_finds :
    (n i : ℕ) (btm mtb : ℕ → ℕ) (x j : ℕ)
    → i ≤ j
    → j < i + n
    → btm j ≡ x
    → x ≢ null_segment_index
    → ((k : ℕ) → i ≤ k → k < i + n → btm k ≡ x → k ≡ j)
    → link_loop n i btm mtb x ≡ j
unfolding link_loop
link_loop_finds zero i btm mtb x j lo hi has some alone = absurd (omega arith)
link_loop_finds (suc n) i btm mtb x j lo hi has some alone = elim (Bool-cases (i == j)) [
  | inl here ↦
      link_loop_other n (i + 1) btm _ x (λ k lo' hi' p.
        let same : k ≡ j = alone k (omega arith) (omega arith) p in absurd (ground arith))
      ∙ ground arith
  | inr there ↦
      link_loop_finds n (i + 1) btm _ x j (ground arith) (omega arith) has some
        (λ k lo' hi' p. alone k (omega arith) (omega arith) p)
]

-- What Open reads of a file with an image.
pub record ImageMedium (S : Type 0) : Type 0 where
  pub nr_main_segments : ℕ
  pub nr_back_segments : ℕ
  pub attributes : ℕ
  pub committed_epoch : ℕ
  pub segment_state : ℕ → ℕ → ℕ
  pub back_to_main : ℕ → ℕ
  pub main_memory : ℕ → S
  pub back_memory : ℕ → S

module _ {S : Type 0} where
  -- The part of `Open` that both branches share.
  unfoldable pub open_image : ImageMedium S → Image S
  open_image f = record {
    nr_main_segments = f.nr_main_segments;
    nr_back_segments = f.nr_back_segments;
    attributes = word_on_medium f.attributes;
    committed_epoch = word_on_medium f.committed_epoch;
    segment_state = λ bi i. word_on_medium (f.segment_state bi i);
    back_to_main = λ i. word_on_medium (f.back_to_main i);
    main_to_back = link_loop f.nr_back_segments 0 f.back_to_main (λ i. null_segment_index);
    segment_state_dirty = λ k. false;
    segment_state_update = false;
    main_memory = on_medium f.main_memory;
    back_memory = on_medium f.back_memory;
  }

  -- What the branch `initialize` flushes to the file, with the memory that the file has.
  unfoldable pub initialized : ℕ → ℕ → (ℕ → S) → (ℕ → S) → ImageMedium S
  initialized nr_main nr_back main_memory back_memory = record {
    nr_main_segments = nr_main;
    nr_back_segments = nr_back;
    attributes = 0;
    committed_epoch = 0;
    segment_state = λ bi i. ss_initial;
    back_to_main = λ i. i;
    main_memory = main_memory;
    back_memory = back_memory;
  }

  -- From a file in which each back segment has a main segment in range or none, and no two have the
  -- same, Open builds a table main_to_back that is inverse to back_to_main.
  pub open_image-IsBound :
      (f : ImageMedium S)
      → ((b : ℕ)
          → b < f.nr_back_segments
          → f.back_to_main b ≢ null_segment_index
          → f.back_to_main b < f.nr_main_segments)
      → ((a b : ℕ)
          → a < f.nr_back_segments
          → b < f.nr_back_segments
          → f.back_to_main a ≡ f.back_to_main b
          → f.back_to_main b ≢ null_segment_index
          → a ≡ b)
      → IsBound (open_image f)
  unfolding open_image
  open_image-IsBound f in_range alone = record {
    forward = λ i b lt at some.
        elim (link_loop_sound f.nr_back_segments 0 f.back_to_main (λ c. null_segment_index) i) [
          | inl none ↦ absurd (some (sym at ∙ none))
          | inr (has, lt_b) ↦ (
            subst (λ x. x < f.nr_back_segments) at (omega (arith, lt_b)),
            subst (λ x. f.back_to_main x ≡ i) at has,
          )
        ];
    backward = λ b i lt at some. (
      subst (λ x. x < f.nr_main_segments) at (in_range b lt (λ p. some (sym at ∙ p))),
      link_loop_finds f.nr_back_segments 0 f.back_to_main (λ c. null_segment_index) i b
          (omega arith) (omega arith) at some
          (λ k lo hi p. alone k b (omega arith) lt (p ∙ sym at) (λ q. some (sym at ∙ q))),
    );
  }

  -- A new image with no more back segments than main segments pairs the segments of the same number.
  pub initialized-IsBound :
      (nr_main nr_back : ℕ) (main_memory back_memory : ℕ → S)
      → nr_back ≤ nr_main
      → IsBound (open_image (initialized nr_main nr_back main_memory back_memory))
  unfolding initialized
  initialized-IsBound nr_main nr_back main_memory back_memory few =
      open_image-IsBound _ (λ b lt some. omega arith) (λ a b lt_a lt_b same some. same)

  -- A new image has every segment in the initial state, committed and pending, outside an update.
  pub initialized-Keeps :
      (nr_main nr_back : ℕ) (main_memory back_memory : ℕ → S)
      → Keeps nr_main
          (record { is_open = false; committed = λ i. ss_initial; pending = λ i. ss_initial })
          (open_image (initialized nr_main nr_back main_memory back_memory))
  unfolding open_image initialized
  initialized-Keeps nr_main nr_back main_memory back_memory = record {
    same_size = refl;
    same_open = refl;
    updating = record {
      stable = record { epoch = refl; epoch_sure = refl; copy = λ seg lt. (refl, refl) };
      pending = λ seg lt. refl;
      marked = λ seg lt. inr (inr refl, refl);
    };
  }
