-- ===== src/Hybrid/Marks.antt =====
-- What the hook of HybridInstEngine marks.
use libcrpm.Base.{
  ℕ, zero, suc, ◌+◌, ◌-◌, ◌*◌, ◌/◌, ◌%◌, ◌^◌, ◌<◌, ◌≤◌, ◌≡◌, Bool, true, ◌==◌, leb, ltb,
  if◌then◌else◌, ◌⊎◌, ◌||◌, inl, inr, refl, ap, subst, sym, ◌∙◌, arith, Bool-cases, ==_refl,
}
use libcrpm.Constants.{block_size, segment_size, blocks_per_segment}
use libcrpm.BitSet
use libcrpm.BitSet.Laws.{test-set}
use libcrpm.Nvm.Covering.{==_eq}
use libcrpm.Hybrid.Defs.{HybridInstEngine, set_segment_dirty}
use libcrpm.Hybrid.Hook.{mark_block, mark_segment, range_round, last_after, range_loop, hook_range}

module _ {B : Type 0} where
  abbrev pub is_block_dirty : HybridInstEngine B → ℕ → Bool
  is_block_dirty e b = BitSet.test (e.block_dirty e.epoch) b

  abbrev pub is_segment_dirty : HybridInstEngine B → ℕ → Bool
  is_segment_dirty e seg = BitSet.test (e.segment_dirty e.epoch) seg

  -- Each block that is dirty in this epoch lies in a segment that is.
  abbrev pub IsMarked : HybridInstEngine B → Type 0
  IsMarked e =
      (b : ℕ) → is_block_dirty e b ≡ true → is_segment_dirty e (b / blocks_per_segment) ≡ true

  -- `last_segment_id` is the start value or a segment that is marked.
  abbrev IsLast : HybridInstEngine B → ℕ → Type 0
  IsLast e last = (last ≡ 2 ^ 64 - 1) ⊎ (is_segment_dirty e last ≡ true)

  -- Nothing that was marked is unmarked, and the data and the epoch are the same.
  pub record Marks (e g : HybridInstEngine B) : Type 0 where
    pub marked : IsMarked g
    pub still : (b : ℕ) → is_block_dirty e b ≡ true → is_block_dirty g b ≡ true
    pub still_segment : (i : ℕ) → is_segment_dirty e i ≡ true → is_segment_dirty g i ≡ true
    pub same_epoch : g.epoch ≡ e.epoch
    pub same_memory : g.working_memory ≡ e.working_memory
    pub same_image : g.image ≡ e.image

  Marks-refl : (e : HybridInstEngine B) → IsMarked e → Marks e e
  Marks-refl e m = record {
    marked = m;
    still = λ b h. h;
    still_segment = λ i h. h;
    same_epoch = refl;
    same_memory = refl;
    same_image = refl;
  }

  Marks-trans : (e f g : HybridInstEngine B) → Marks e f → Marks f g → Marks e g
  Marks-trans e f g a b = record {
    marked = b.marked;
    still = λ x h. b.still x (a.still x h);
    still_segment = λ i h. b.still_segment i (a.still_segment i h);
    same_epoch = b.same_epoch ∙ a.same_epoch;
    same_memory = b.same_memory ∙ a.same_memory;
    same_image = b.same_image ∙ a.same_image;
  }

  block_marked :
      (e : HybridInstEngine B) (tid x b : ℕ)
      → is_block_dirty (mark_block e tid x) b ≡ (x == b || is_block_dirty e b)
  unfolding mark_block
  block_marked e tid x b = rw (==_refl e.epoch) (test-set (e.block_dirty e.epoch) x b)

  segment_kept :
      (e : HybridInstEngine B) (tid x i : ℕ)
      → is_segment_dirty (mark_block e tid x) i ≡ is_segment_dirty e i
  unfolding mark_block
  segment_kept e tid x i = refl

  segment_marked :
      (e : HybridInstEngine B) (x i : ℕ)
      → is_segment_dirty (mark_segment e x) i ≡ (x == i || is_segment_dirty e i)
  unfolding mark_segment set_segment_dirty
  segment_marked e x i = elim (Bool-cases (is_segment_dirty e x)) [
    | inl had ↦ simp had (elim (Bool-cases (x == i)) [
      | inl here ↦ rw (here, sym (==_eq x i here)) had
      | inr there ↦ rw there refl
    ])
    | inr new ↦ simp new (rw (==_refl e.epoch) (test-set (e.segment_dirty e.epoch) x i))
  ]

  block_kept :
      (e : HybridInstEngine B) (x b : ℕ) → is_block_dirty (mark_segment e x) b ≡ is_block_dirty e b
  unfolding mark_segment set_segment_dirty
  block_kept e x b = elim (Bool-cases (is_segment_dirty e x)) [
    | inl had ↦ simp had refl
    | inr new ↦ simp new refl
  ]

  segment_same :
      (e : HybridInstEngine B) (x : ℕ)
      → ((mark_segment e x).epoch ≡ e.epoch)
        × ((mark_segment e x).working_memory ≡ e.working_memory)
        × ((mark_segment e x).image ≡ e.image)
  unfolding mark_segment set_segment_dirty
  segment_same e x = elim (Bool-cases (is_segment_dirty e x)) [
    | inl had ↦ simp had (refl, refl, refl)
    | inr new ↦ simp new (refl, refl, refl)
  ]

  module _ (e : HybridInstEngine B) (tid delta : ℕ) (m : IsMarked e) where
    abbrev block : ℕ
    block = delta / block_size

    abbrev segment : ℕ
    segment = delta / segment_size

    in_segment : block / blocks_per_segment ≡ segment
    in_segment = omega arith

    in_marked : (b : ℕ) → (block == b) ≡ true → b / blocks_per_segment ≡ segment
    in_marked b here = sym (ap (λ x. x / blocks_per_segment) (==_eq block b here)) ∙ in_segment

    block-Marks : is_segment_dirty e segment ≡ true → Marks e (mark_block e tid block)
    unfolding mark_block
    block-Marks known = record {
      marked = λ b h. elim (Bool-cases (block == b)) [
        | inl here ↦ rw (in_marked b here) known
        | inr there ↦ m b (sym (block_marked e tid block b ∙ rw there refl) ∙ h)
      ];
      still = λ b h. block_marked e tid block b ∙ ground (arith, h);
      still_segment = λ i h. h;
      same_epoch = refl;
      same_memory = refl;
      same_image = refl;
    }

    both_blocks :
        (b : ℕ)
        → is_block_dirty (mark_segment (mark_block e tid block) segment) b
          ≡ (block == b || is_block_dirty e b)
    both_blocks b = block_kept (mark_block e tid block) segment b ∙ block_marked e tid block b

    both_segments :
        (i : ℕ)
        → is_segment_dirty (mark_segment (mark_block e tid block) segment) i
          ≡ (segment == i || is_segment_dirty e i)
    both_segments i =
        segment_marked (mark_block e tid block) segment i
        ∙ ap (λ c. segment == i || c) (segment_kept e tid block i)

    both-Marks : Marks e (mark_segment (mark_block e tid block) segment)
    both-Marks = record {
      marked = λ b h. elim (Bool-cases (block == b)) [
        | inl here ↦ rw (in_marked b here) (both_segments segment ∙ rw (==_refl segment) refl)
        | inr there ↦
            both_segments (b / blocks_per_segment)
            ∙ rw (m b (sym (both_blocks b ∙ rw there refl) ∙ h)) (ground arith)
      ];
      still = λ b h. both_blocks b ∙ ground (arith, h);
      still_segment = λ i h. both_segments i ∙ ground (arith, h);
      same_epoch = (segment_same (mark_block e tid block) segment).0 ∙ (unfold mark_block in refl);
      same_memory = (segment_same (mark_block e tid block) segment).1 ∙ (unfold mark_block in refl);
      same_image = (segment_same (mark_block e tid block) segment).2 ∙ (unfold mark_block in refl);
    }

    -- What a round leaves.
    abbrev IsRound : HybridInstEngine B → ℕ → Type 0
    IsRound g last = Marks e g × IsLast g last × (is_block_dirty g block ≡ true)

    fresh-IsRound :
        (last : ℕ)
        → IsLast e last
        → segment < 2 ^ 64 - 1
        → IsRound
            (if segment == last
              then mark_block e tid block
              else mark_segment (mark_block e tid block) segment)
            segment
    fresh-IsRound last l small = elim (Bool-cases (segment == last)) [
      | inl same ↦
          let known : is_segment_dirty e segment ≡ true = elim l [
            | inl start ↦ absurd (ground (arith, ==_eq segment last same, start))
            | inr had ↦ subst (λ x. is_segment_dirty e x ≡ true) (sym (==_eq segment last same)) had
          ] in
          subst
            (λ c.
              IsRound
                (if c
                  then mark_block e tid block
                  else mark_segment (mark_block e tid block) segment)
                segment)
            (sym same)
            (
              block-Marks known,
              inr (segment_kept e tid block segment ∙ known),
              block_marked e tid block block ∙ rw (==_refl block) refl,
            )
      | inr other ↦
          subst
            (λ c.
              IsRound
                (if c
                  then mark_block e tid block
                  else mark_segment (mark_block e tid block) segment)
                segment)
            (sym other)
            (
              both-Marks,
              inr (both_segments segment ∙ rw (==_refl segment) refl),
              both_blocks block ∙ rw (==_refl block) refl,
            )
    ]

    -- A round marks the block, and its segment unless that is the last one, which is marked.
    range_round-IsRound :
        (last : ℕ)
        → IsLast e last
        → delta < 2 ^ 64
        → IsRound (range_round e tid last delta) (last_after e last delta)
    unfolding range_round last_after
    range_round-IsRound last l small = elim (Bool-cases (is_block_dirty e block)) [
      | inl had ↦
          subst
            (λ c.
              IsRound
                (if c
                  then e
                  else (if segment == last
                      then mark_block e tid block
                      else mark_segment (mark_block e tid block) segment))
                (if c then last else segment))
            (sym had) (Marks-refl e m, l, had)
      | inr new ↦
          subst
            (λ c.
              IsRound
                (if c
                  then e
                  else (if segment == last
                      then mark_block e tid block
                      else mark_segment (mark_block e tid block) segment))
                (if c then last else segment))
            (sym new) (fresh-IsRound last l (omega (arith, small)))
    ]

  -- The loop marks the block of each delta that it reaches.
  loop-Marks :
      (n : ℕ) (e : HybridInstEngine B) (tid last delta end : ℕ)
      → IsMarked e
      → IsLast e last
      → end ≤ 2 ^ 64
      → delta % block_size ≡ 0
      → Marks e (range_loop n e tid last delta end)
        × ((x : ℕ)
            → delta ≤ x
            → x < end
            → x < delta + n * block_size
            → is_block_dirty (range_loop n e tid last delta end) (x / block_size) ≡ true)
  unfolding range_loop
  loop-Marks zero e tid last delta end m l fits aligned =
      (Marks-refl e m, λ x a b c. absurd (omega (arith, a, c)))
  loop-Marks (suc n) e tid last delta end m l fits aligned = elim (Bool-cases (ltb delta end)) [
    | inr outside ↦
        let rest = loop-Marks n e tid last (delta + block_size) end m l fits (omega arith) in
        simp outside (rest.0, λ x a b c. absurd (ground arith))
    | inl inside ↦
        let r = range_round-IsRound e tid delta m last l (ground arith) in
        let f = range_round e tid last delta in
        let rest =
          loop-Marks n f tid (last_after e last delta) (delta + block_size) end r.0.marked r.1 fits
            (omega arith) in
        simp inside (
          Marks-trans e f _ r.0 rest.0,
          λ x a b c. elim (Bool-cases (leb (delta + block_size) x)) [
            | inl later ↦ rest.1 x (ground arith) b (omega (arith, c))
            | inr now ↦
                let same : x / block_size ≡ delta / block_size = ground arith in
                rw same (rest.0.still (delta / block_size) r.2)
          ],
        )
  ]

  -- If every block that is dirty in this epoch lies in a segment that is, the hook of the hybrid
  -- engine on a range of bytes that ends within 2^64 bytes from the start of the data keeps this,
  -- marks the block of each byte of the range, unmarks nothing, and changes neither the data, the
  -- image nor the epoch.
  pub hook_range-Marks :
      (e : HybridInstEngine B) (tid addr len : ℕ)
      → IsMarked e
      → addr - e.address_first + len ≤ 2 ^ 64
      → Marks e (hook_range e tid addr len)
        × ((x : ℕ)
            → addr - e.address_first ≤ x
            → x < addr - e.address_first + len
            → is_block_dirty (hook_range e tid addr len) (x / block_size) ≡ true)
  unfolding hook_range
  hook_range-Marks e tid addr len m fits =
      let offset = addr - e.address_first in
      let h =
        loop-Marks (len / block_size + 2) e tid (2 ^ 64 - 1) (offset - offset % block_size)
          (offset + len) m (inl refl) fits (omega arith) in
      (h.0, λ x a b. h.1 x (omega (arith, a)) b (omega (arith, a, b)))
