-- ===== src/Nvm/Allocation.antt =====
-- Which back segment NvmInstEngine::allocate_back_segment takes.
use native.Mathlib.Nat.{mod-lt, mod-eq_of_lt, mod-add-mod, add-zero}
use libcrpm.Base.{
  ℕ, zero, suc, ◌+◌, ◌%◌, ◌<◌, ◌≡◌, inl, inr, refl, sym, ◌∙◌, ap, Bool, true, false, not, ◌&&◌,
  ◌||◌, ◌==◌, update, Returns, arith, Bool-cases,
}
use libcrpm.Constants.{null_segment_index}
use libcrpm.BitSet
use libcrpm.Image.Defs.{Image}
use libcrpm.Image.Defs
use libcrpm.Image.Binding.{bind_back_segment}
use libcrpm.Nvm.Defs.{
  NvmInstEngine, lock_of, release_lock, acquire_back_lock, release_back_lock,
  advance_next_back_segment,
}
use libcrpm.Nvm.BackSegment.{
  bind_next, take_lock, taken_now, taken_under, passed_over, allocate_round, allocate_loop,
  allocate_back_segment,
}

pub funext {ℓ κ} : {A : Type ℓ} {C : Type κ} (f g : A → C) → ((x : A) → f x ≡ g x) → f ≡ g
funext f g h = λ i. λ x. h x i

module _ {B : Type 0} where
  -- A back segment can be taken if it has no main segment, or one that is not dirty and, outside a checkpoint,
  -- whose lock is free.
  abbrev pub can_take : NvmInstEngine B → ℕ → Bool
  can_take e b =
      let old = (e.image.back_to_main b).value in
      old == null_segment_index
      || (not (BitSet.test e.segment_dirty old)
          && (e.checkpoint_in_progress || not (e.segment_locks (lock_of old))))

  released :
      (e : NvmInstEngine B) (l : ℕ) → e.segment_locks l ≡ false → release_lock (take_lock e l) l ≡ e
  unfolding release_lock take_lock
  released e l free =
      ap (λ locks. record e { segment_locks = locks })
        (funext (update (update e.segment_locks l true) l false) e.segment_locks
          (λ k. ground (arith, free)))

  bound_released :
      (e : NvmInstEngine B) (l main_id : ℕ)
      → e.segment_locks l ≡ false
      → release_lock (bind_next (take_lock e l) main_id) l ≡ bind_next e main_id
  unfolding release_lock take_lock bind_next advance_next_back_segment
  bound_released e l main_id free =
      ap (λ locks. record (bind_next e main_id) { segment_locks = locks })
        (funext (update (update e.segment_locks l true) l false) e.segment_locks
          (λ k. ground (arith, free)))

  round_takes :
      (e : NvmInstEngine B) (main_id : ℕ)
      → can_take e e.next_back_id ≡ true
      → allocate_round e main_id ≡ taken_now e main_id
  unfolding allocate_round taken_under taken_now
  round_takes e main_id can =
      let old = (e.image.back_to_main e.next_back_id).value in
      elim (Bool-cases (old == null_segment_index)) [
        | inl free ↦ rw free refl
        | inr owned ↦ elim (Bool-cases (BitSet.test e.segment_dirty old)) [
          | inl dirty ↦ absurd (ground arith)
          | inr clean ↦ elim (Bool-cases e.checkpoint_in_progress) [
            | inl during ↦ simp (owned, during, clean) refl
            | inr outside ↦
                let idle : e.segment_locks (lock_of old) ≡ false = ground arith in
                simp (owned, outside, idle, clean)
                  (ap (λ f. record { engine = release_back_lock f; taken = true })
                    (bound_released e (lock_of old) main_id idle))
          ]
        ]
      ]

  round_passes :
      (e : NvmInstEngine B) (main_id : ℕ)
      → can_take e e.next_back_id ≡ false
      → allocate_round e main_id ≡ passed_over e
  unfolding allocate_round
  round_passes e main_id cannot =
      let old = (e.image.back_to_main e.next_back_id).value in
      elim (Bool-cases (old == null_segment_index)) [
        | inl free ↦ absurd (ground arith)
        | inr owned ↦ elim (Bool-cases e.checkpoint_in_progress) [
          | inl during ↦
              let dirty : BitSet.test e.segment_dirty old ≡ true = ground arith in
              simp (owned, during, dirty) refl
          | inr outside ↦ elim (Bool-cases (e.segment_locks (lock_of old))) [
            | inl held ↦ simp (owned, outside, held) refl
            | inr idle ↦
                let dirty : BitSet.test e.segment_dirty old ≡ true = ground arith in
                simp (owned, outside, idle, dirty) (ap passed_over (released e (lock_of old) idle))
          ]
        ]
      ]

  -- The back segment that comes `j` rounds later.
  abbrev pub turn : NvmInstEngine B → ℕ → ℕ
  turn e j = (e.next_back_id + j) % e.image.nr_back_segments

  -- The engine with the back segment of round `k` bound.
  abbrev pub bound_at : NvmInstEngine B → ℕ → ℕ → NvmInstEngine B
  bound_at e main_id k = record e {
    image = bind_back_segment e.image main_id (turn e k);
    next_back_id = turn e (suc k);
    back_memory_lock = false;
  }

  -- The first back segment in turn that can be taken is bound; with none, nothing is.
  pub data Allocation (e : NvmInstEngine B) (main_id n : ℕ) (f : NvmInstEngine B) : Type 0 where
    taken :
        (k : ℕ)
        → k < n
        → ((j : ℕ) → j < k → can_take e (turn e j) ≡ false)
        → can_take e (turn e k) ≡ true
        → f ≡ bound_at e main_id k
        → Allocation e main_id n f
    none_left :
        ((j : ℕ) → j < n → can_take e (turn e j) ≡ false)
        → f.image ≡ e.image
        → f.back_memory_lock ≡ e.back_memory_lock
        → Allocation e main_id n f

  turn-zero :
      (e : NvmInstEngine B) → e.next_back_id < e.image.nr_back_segments → turn e 0 ≡ e.next_back_id
  turn-zero e lt = rw (add-zero e.next_back_id) (mod-eq_of_lt lt)

  turn-advance :
      (e : NvmInstEngine B) (j : ℕ) → turn (advance_next_back_segment e) j ≡ turn e (suc j)
  unfolding advance_next_back_segment
  turn-advance e j =
      mod-add-mod (e.next_back_id + 1) e.image.nr_back_segments j
      ∙ ap (λ t. t % e.image.nr_back_segments) (omega arith)

  can_take-advance :
      (e : NvmInstEngine B) (b : ℕ) → can_take (advance_next_back_segment e) b ≡ can_take e b
  unfolding advance_next_back_segment
  can_take-advance e b = refl

  cannot_yet :
      (e : NvmInstEngine B) (n : ℕ)
      → can_take e (turn e 0) ≡ false
      → ((j : ℕ)
          → j < n
          → can_take (advance_next_back_segment e) (turn (advance_next_back_segment e) j) ≡ false)
      → (j : ℕ) → j < suc n
      → can_take e (turn e j) ≡ false
  cannot_yet e n first later zero lt = first
  cannot_yet e n first later (suc j) lt =
      ap (can_take e) (sym (turn-advance e j))
      ∙ sym (can_take-advance e (turn (advance_next_back_segment e) j))
      ∙ later j (omega arith)

  bound_at-advance :
      (e : NvmInstEngine B) (main_id k : ℕ)
      → bound_at (advance_next_back_segment e) main_id k ≡ bound_at e main_id (suc k)
  unfolding advance_next_back_segment
  bound_at-advance e main_id k =
      ap
        (λ t. record (bound_at e main_id (suc k)) {
          image = bind_back_segment e.image main_id t;
          next_back_id = turn (advance_next_back_segment e) (suc k);
        })
        (turn-advance e k)
      ∙ ap (λ t. record (bound_at e main_id (suc k)) { next_back_id = t }) (turn-advance e (suc k))

  one_later :
      (e : NvmInstEngine B) (main_id n : ℕ) (f : NvmInstEngine B)
      → can_take e (turn e 0) ≡ false
      → Allocation (advance_next_back_segment e) main_id n f
      → Allocation e main_id (suc n) f
  one_later e main_id n f first (taken k lt before can same) =
      taken (suc k) (omega arith) (cannot_yet e k first before)
        (ap (can_take e) (sym (turn-advance e k))
          ∙ sym (can_take-advance e (turn (advance_next_back_segment e) k))
          ∙ can)
        (same ∙ bound_at-advance e main_id k)
  one_later e main_id n f first (none_left before image lock) =
      none_left (cannot_yet e n first before) (image ∙ (unfold advance_next_back_segment in refl))
        (lock ∙ (unfold advance_next_back_segment in refl))

  taken_at_once :
      (e : NvmInstEngine B) (main_id : ℕ)
      → turn e 0 ≡ e.next_back_id
      → (taken_now e main_id).engine ≡ bound_at e main_id 0
  unfolding taken_now release_back_lock bind_next advance_next_back_segment bind_back_segment
      Defs.store_fence
  taken_at_once e main_id first =
      ap (λ t. record (bound_at e main_id 0) { image = bind_back_segment e.image main_id t })
        (sym first)

  allocate_loop-Allocation :
      (n : ℕ) (e : NvmInstEngine B) (main_id : ℕ)
      → e.next_back_id < e.image.nr_back_segments
      → Allocation e main_id n (allocate_loop n e main_id)
  unfolding allocate_loop taken_now passed_over
  allocate_loop-Allocation zero e main_id lt = none_left (λ j l. absurd (omega arith)) refl refl
  allocate_loop-Allocation (suc n) e main_id lt =
      let first : turn e 0 ≡ e.next_back_id = turn-zero e lt in
      elim (Bool-cases (can_take e e.next_back_id)) [
        | inl can ↦ rw (round_takes e main_id can) (
            taken 0 (omega arith) (λ j l. absurd (omega arith)) (rw first can)
              (taken_at_once e main_id first))
        | inr cannot ↦ rw (round_passes e main_id cannot) (
            one_later e main_id n _ (rw first cannot) (
              allocate_loop-Allocation n (advance_next_back_segment e) main_id
                (unfold advance_next_back_segment in mod-lt (e.next_back_id + 1) (omega arith))))
      ]

  -- What a call of `allocate_back_segment` does when the lock of the back memory is free.
  pub allocate_back_segment-Allocation :
      (e : NvmInstEngine B) (main_id : ℕ)
      → e.back_memory_lock ≡ false
      → e.next_back_id < e.image.nr_back_segments
      → Returns
          (Allocation (record e { back_memory_lock = true }) main_id e.image.nr_back_segments)
          (allocate_back_segment e main_id)
  unfolding allocate_back_segment acquire_back_lock
  allocate_back_segment-Allocation e main_id free lt = simp free (
      allocate_loop-Allocation e.image.nr_back_segments (record e { back_memory_lock = true })
        main_id lt)
