-- ===== src/Image/RecoveryRound.antt =====
-- What the rounds of CheckpointImage::recovery do.
use libcrpm.Base.{
  ℕ, ◌+◌, ◌-◌, ◌<◌, ◌≤◌, ◌≡◌, ◌≢◌, refl, sym, ◌∙◌, ap, true, false, not, ◌==◌, ◌&&◌, ◌||◌, leb, ltb,
  if◌then◌else◌, update, arith, Bool-cases, ok, Returns, inl, inr,
}
use libcrpm.Constants.{null_segment_index}
use libcrpm.Pm.Region
use libcrpm.Image.Defs.{
  Image, bi_epoch, ss_initial, ss_main, ss_back, get_segment_state, set_segment_state, write_slot,
}
use libcrpm.Image.Update.{IsUpdating, write_slot-IsUpdating, get_segment_state_lem}
use libcrpm.Image.Binding.{IsBound}
use libcrpm.Image.Calls.{set_open}
use libcrpm.Image.Recovery.{copy_segment, recovery_round}

module _ {S : Type 0} where
  -- What a part of the loop, over the back segments from `lo` to `hi`, makes of the image `m`.
  pub record IsRecovered (old new : ℕ → ℕ) (to_state lo hi : ℕ) (m f : Image S) : Type 0 where
    pub reached : ℕ → ℕ
    pub updating : IsUpdating old reached f
    pub size : f.nr_main_segments ≡ m.nr_main_segments
    pub back_size : f.nr_back_segments ≡ m.nr_back_segments
    pub opened : f.segment_state_update ≡ m.segment_state_update
    pub same_back : (b : ℕ) → (f.back_to_main b).value ≡ (m.back_to_main b).value
    pub main_data :
        (b : ℕ)
        → b < m.nr_back_segments
        → (m.back_to_main b).value ≢ null_segment_index
        → f.main_memory.view (m.back_to_main b).value ≡ (
            if leb lo b && ltb b hi && old (m.back_to_main b).value == ss_back
            then m.back_memory.view b
            else m.main_memory.view (m.back_to_main b).value)
    pub back_data :
        (b : ℕ)
        → b < m.nr_back_segments
        → (m.back_to_main b).value ≢ null_segment_index
        → f.back_memory.view b ≡ (
            if leb lo b && ltb b hi && old (m.back_to_main b).value == ss_main
            then m.main_memory.view (m.back_to_main b).value
            else m.back_memory.view b)
    pub states :
        (b : ℕ)
        → b < m.nr_back_segments
        → (m.back_to_main b).value ≢ null_segment_index
        → reached (m.back_to_main b).value ≡ (
            if leb lo b
              && ltb b hi
              && (not (old (m.back_to_main b).value == ss_initial)
                  && not (to_state == old (m.back_to_main b).value))
            then to_state
            else new (m.back_to_main b).value)

  -- No two back segments have the same main segment, and each has one in range or none.
  pub record IsInjective (m : Image S) : Type 0 where
    pub in_range :
        (b : ℕ)
        → b < m.nr_back_segments
        → (m.back_to_main b).value ≢ null_segment_index
        → (m.back_to_main b).value < m.nr_main_segments
    pub alone :
        (a b : ℕ)
        → a < m.nr_back_segments
        → b < m.nr_back_segments
        → (m.back_to_main a).value ≡ (m.back_to_main b).value
        → (m.back_to_main b).value ≢ null_segment_index
        → a ≡ b

  pub IsBound-IsInjective : (m : Image S) → IsBound m → IsInjective m
  IsBound-IsInjective m h = record {
    in_range = λ b lt some. (h.backward b (m.back_to_main b).value lt refl some).0;
    alone = λ a b lt_a lt_b same some.
        sym (h.backward a (m.back_to_main b).value lt_a same some).1
        ∙ (h.backward b (m.back_to_main b).value lt_b refl some).1;
  }

  memory-IsUpdating :
      (old new : ℕ → ℕ) (m : Image S) (main back : Region.Region S)
      → IsUpdating old new m
      → IsUpdating old new (record m { main_memory = main; back_memory = back })
  memory-IsUpdating old new m main back u = record {
    stable = record { epoch = refl; epoch_sure = u.stable.epoch_sure; copy = u.stable.copy };
    pending = u.pending;
    marked = u.marked;
  }

  copy_segment-IsUpdating :
      (old new : ℕ → ℕ) (m : Image S) (state i k : ℕ)
      → IsUpdating old new m
      → IsUpdating old new (copy_segment m state i k)
  unfolding copy_segment
  copy_segment-IsUpdating old new m state i k u = elim (Bool-cases (state == ss_main)) [
    | inl main ↦ rw main (memory-IsUpdating old new m _ _ u)
    | inr other ↦ elim (Bool-cases (state == ss_back)) [
      | inl back ↦ rw (other, back) (memory-IsUpdating old new m _ _ u)
      | inr none ↦ rw (other, none) u
    ]
  ]

  -- What is the same after the copy of one segment, and what it makes of the two memories.
  record IsCopied (m : Image S) (state i k : ℕ) (f : Image S) : Type 0 where
    size : f.nr_main_segments ≡ m.nr_main_segments
    back_size : f.nr_back_segments ≡ m.nr_back_segments
    opened : f.segment_state_update ≡ m.segment_state_update
    same_back : f.back_to_main ≡ m.back_to_main
    main_data :
        (j : ℕ)
        → f.main_memory.view j
          ≡ (if i == j && state == ss_back then m.back_memory.view k else m.main_memory.view j)
    back_data :
        (j : ℕ)
        → f.back_memory.view j
          ≡ (if k == j && state == ss_main then m.main_memory.view i else m.back_memory.view j)

  copy_segment-IsCopied :
      (m : Image S) (state i k : ℕ) → IsCopied m state i k (copy_segment m state i k)
  unfolding copy_segment Region.nt_store
  copy_segment-IsCopied m state i k = elim (Bool-cases (state == ss_main)) [
    | inl main ↦
        let not_back : (state == ss_back) ≡ false = ground arith in
        rw main (record {
          size = refl;
          back_size = refl;
          opened = refl;
          same_back = refl;
          main_data = λ j. ground arith;
          back_data = λ j. ground arith;
        })
    | inr other ↦ elim (Bool-cases (state == ss_back)) [
      | inl back ↦
          rw (other, back)
            (record {
              size = refl;
              back_size = refl;
              opened = refl;
              same_back = refl;
              main_data = λ j. ground arith;
              back_data = λ j. ground arith;
            })
      | inr none ↦
          rw (other, none)
            (record {
              size = refl;
              back_size = refl;
              opened = refl;
              same_back = refl;
              main_data = λ j. ground arith;
              back_data = λ j. ground arith;
            })
    ]
  ]

  write_slot-IsCopied :
      (m g : Image S) (state i k seg to : ℕ)
      → IsCopied m state i k g
      → IsCopied m state i k (write_slot g seg to)
  unfolding write_slot
  write_slot-IsCopied m g state i k seg to c =
      elim (Bool-cases ((g.segment_state (1 - bi_epoch g) seg).value == to)) [
        | inl same ↦ rw same c
        | inr other ↦ rw other (record {
          size = c.size;
          back_size = c.back_size;
          opened = c.opened;
          same_back = c.same_back;
          main_data = c.main_data;
          back_data = c.back_data;
        })
      ]

  module _ (old new : ℕ → ℕ) (to_state : ℕ) (m : Image S) (inj : IsInjective m) (k : ℕ)
      (lt_k : k < m.nr_back_segments) where
    abbrev main_of : ℕ → ℕ
    main_of b = (m.back_to_main b).value

    abbrev IsRound : Image S → Type 0
    IsRound = IsRecovered old new to_state k (k + 1) m

    -- Another back segment has another main segment.
    others :
        (b : ℕ)
        → b < m.nr_back_segments
        → main_of b ≢ null_segment_index
        → (k == b) ≡ false
        → (main_of k == main_of b) ≡ false
    others b lt some differs = elim (Bool-cases (main_of k == main_of b)) [
      | inr apart ↦ apart
      | inl same ↦
          let at : k ≡ b = inj.alone k b lt_k lt (ground arith) some in absurd (ground arith)
    ]

    copied-IsRound :
        (f : Image S) (reached : ℕ → ℕ)
        → IsCopied m (old (main_of k)) (main_of k) k f
        → IsUpdating old reached f
        → (old (main_of k) == ss_initial) ≡ false
        → reached (main_of k) ≡ (if to_state == old (main_of k) then new (main_of k) else to_state)
        → ((j : ℕ) → (main_of k == j) ≡ false → reached j ≡ new j)
        → IsRound f
    copied-IsRound f reached c u used here_state other_states = record {
      reached = reached;
      updating = u;
      size = c.size;
      back_size = c.back_size;
      opened = c.opened;
      same_back = λ b. rw c.same_back refl;
      main_data = λ b lt some. elim (Bool-cases (k == b)) [
        | inl here ↦
            let at : k ≡ b = ground arith in
            ground (arith, c.main_data (main_of b), ap (λ x. main_of x) at)
        | inr there ↦ ground (arith, c.main_data (main_of b), others b lt some there)
      ];
      back_data = λ b lt some. elim (Bool-cases (k == b)) [
        | inl here ↦
            let at : k ≡ b = ground arith in ground (arith, c.back_data b, ap (λ x. main_of x) at)
        | inr there ↦ ground (arith, c.back_data b)
      ];
      states = λ b lt some. elim (Bool-cases (k == b)) [
        | inl here ↦
            let at : k ≡ b = ground arith in
            ground (arith, here_state, used, ap (λ x. main_of x) at)
        | inr there ↦ ground (arith, other_states (main_of b), others b lt some there)
      ];
    }

    -- A back segment that is not bound, or whose main segment is in the initial state.
    idle-IsRound :
        IsUpdating old new m
        → (main_of k == null_segment_index || old (main_of k) == ss_initial) ≡ true
        → IsRound m
    idle-IsRound u idle = record {
      reached = new;
      updating = u;
      size = refl;
      back_size = refl;
      opened = refl;
      same_back = λ b. refl;
      main_data = λ b lt some. elim (Bool-cases (k == b)) [
        | inl here ↦
            let at : k ≡ b = ground arith in ground (arith, idle, some, ap (λ x. main_of x) at)
        | inr there ↦ ground arith
      ];
      back_data = λ b lt some. elim (Bool-cases (k == b)) [
        | inl here ↦
            let at : k ≡ b = ground arith in ground (arith, idle, some, ap (λ x. main_of x) at)
        | inr there ↦ ground arith
      ];
      states = λ b lt some. elim (Bool-cases (k == b)) [
        | inl here ↦
            let at : k ≡ b = ground arith in ground (arith, idle, some, ap (λ x. main_of x) at)
        | inr there ↦ ground arith
      ];
    }

    used-IsRound :
        IsUpdating old new m
        → m.segment_state_update ≡ true
        → main_of k < m.nr_main_segments
        → (old (main_of k) == ss_initial) ≡ false
        → Returns IsRound (
            if to_state == old (main_of k)
            then ok (copy_segment m (old (main_of k)) (main_of k) k)
            else set_segment_state
                (copy_segment m (old (main_of k)) (main_of k) k)
                (main_of k)
                to_state)
    used-IsRound u opened lt used = elim (Bool-cases (to_state == old (main_of k))) [
      | inl same ↦ rw same (
          copied-IsRound copied new copied_facts copied_updating used (rw same refl)
            (λ j apart. refl))
      | inr differs ↦
          rw (differs, set_open copied (main_of k) to_state (copied_facts.opened ∙ opened))
            (copied-IsRound (write_slot copied (main_of k) to_state)
              (update new (main_of k) to_state)
              (write_slot-IsCopied m copied _ (main_of k) k (main_of k) to_state copied_facts)
              (write_slot-IsUpdating old new copied (main_of k) to_state (rw copied_facts.size lt)
                copied_updating)
              used (ground arith) (λ j apart. ground arith))
    ]
      where
        copied : Image S
        copied = copy_segment m (old (main_of k)) (main_of k) k

        copied_facts : IsCopied m (old (main_of k)) (main_of k) k copied
        copied_facts = copy_segment-IsCopied m (old (main_of k)) (main_of k) k

        copied_updating : IsUpdating old new copied
        copied_updating = copy_segment-IsUpdating old new m (old (main_of k)) (main_of k) k u

    pub recovery_round-IsRound :
        IsUpdating old new m
        → m.segment_state_update ≡ true
        → Returns IsRound (recovery_round to_state k m)
    unfolding recovery_round
    recovery_round-IsRound u opened = elim (Bool-cases (main_of k == null_segment_index)) [
      | inl none ↦ rw none (idle-IsRound u (ground arith))
      | inr some ↦
          let lt : main_of k < m.nr_main_segments = inj.in_range k lt_k (ground arith) in
          let is_old : get_segment_state m (main_of k) ≡ old (main_of k) =
            get_segment_state_lem old new m u (main_of k) lt in
          rw (is_old, some)
            (elim (Bool-cases (old (main_of k) == ss_initial)) [
              | inl idle ↦ rw idle (idle-IsRound u (ground arith))
              | inr used ↦ rw used (used-IsRound u opened lt used)
            ])
    ]

  module _ (old : ℕ → ℕ) (to_state : ℕ) where
    pub two_parts :
        (new : ℕ → ℕ) (lo mid hi : ℕ) (m g f : Image S)
        → lo ≤ mid
        → mid ≤ hi
        → (first : IsRecovered old new to_state lo mid m g)
        → IsRecovered old first.reached to_state mid hi g f
        → IsRecovered old new to_state lo hi m f
    two_parts new lo mid hi m g f le_mid le_hi first second = record {
      reached = second.reached;
      updating = second.updating;
      size = second.size ∙ first.size;
      back_size = second.back_size ∙ first.back_size;
      opened = second.opened ∙ first.opened;
      same_back = λ b. second.same_back b ∙ first.same_back b;
      main_data = λ b lt some.
          let after =
            rw (first.same_back b) at
              (second.main_data b (rw first.back_size lt) (rw (first.same_back b) some)) in
          ground (arith, after, first.main_data b lt some, first.back_data b lt some);
      back_data = λ b lt some.
          let after =
            rw (first.same_back b) at
              (second.back_data b (rw first.back_size lt) (rw (first.same_back b) some)) in
          ground (arith, after, first.main_data b lt some, first.back_data b lt some);
      states = λ b lt some.
          let after =
            rw (first.same_back b) at
              (second.states b (rw first.back_size lt) (rw (first.same_back b) some)) in
          ground (arith, after, first.states b lt some);
    }
