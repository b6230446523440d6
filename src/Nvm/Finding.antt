-- ===== src/Nvm/Finding.antt =====
-- What NvmInstEngine::find_back_segment finds.
use native.Mathlib.Nat.{mod-lt, mod-eq_of_lt, add-mod_right}
use libcrpm.Base.{
  ℕ, ◌+◌, ◌-◌, ◌<◌, ◌≤◌, ◌≡◌, ◌≢◌, inl, inr, sym, subst, ◌∙◌, ap, true, false, ◌==◌, leb,
  if◌then◌else◌, Outcome, ok, exited, spins, ◌>>=◌, Returns, arith, Bool-cases,
}
use libcrpm.Constants.{null_segment_index}
use libcrpm.Image.Binding.{IsBound, bind-IsBound}
use libcrpm.Nvm.Defs.{NvmInstEngine}
use libcrpm.Nvm.BackSegment.{allocate_back_segment, Found, found_after, find_back_segment}
use libcrpm.Nvm.Allocation.{
  can_take, turn, bound_at, Allocation, taken, none_left, allocate_back_segment-Allocation,
}

module _ {B : Type 0} where
  -- The tables are inverse, the numbers of segments are below the null index, and nothing holds the lock of the
  -- back memory.
  pub record IsReady (e : NvmInstEngine B) : Type 0 where
    pub bound : IsBound e.image
    pub few_main : e.image.nr_main_segments ≤ null_segment_index
    pub few_back : e.image.nr_back_segments ≤ null_segment_index
    pub next_in_range : e.next_back_id < e.image.nr_back_segments
    pub unlocked : e.back_memory_lock ≡ false

  -- The back segment that the segment has; else the first in turn that can be taken; else the process ends.
  pub data Finding (e : NvmInstEngine B) (seg : ℕ) (r : Outcome (Found B)) : Type 0 where
    had :
        e.image.main_to_back seg ≢ null_segment_index
        → r ≡ ok (record { engine = e; back_id = e.image.main_to_back seg; created = false })
        → Finding e seg r
    took :
        (k : ℕ)
        → e.image.main_to_back seg ≡ null_segment_index
        → k < e.image.nr_back_segments
        → ((j : ℕ) → j < k → can_take e (turn e j) ≡ false)
        → can_take e (turn e k) ≡ true
        → IsBound (bound_at e seg k).image
        → r ≡ ok (record { engine = bound_at e seg k; back_id = turn e k; created = true })
        → Finding e seg r
    exits :
        e.image.main_to_back seg ≡ null_segment_index
        → ((b : ℕ) → b < e.image.nr_back_segments → can_take e b ≡ false)
        → r ≡ exited
        → Finding e seg r

  -- Every back segment has its turn.
  turn-covers :
      (e : NvmInstEngine B)
      → e.next_back_id < e.image.nr_back_segments
      → ((j : ℕ) → j < e.image.nr_back_segments → can_take e (turn e j) ≡ false)
      → (b : ℕ) → b < e.image.nr_back_segments
      → can_take e b ≡ false
  turn-covers e lt none b in_range = elim (Bool-cases (leb e.next_back_id b)) [
    | inl after ↦
        let e1 : e.next_back_id + (b - e.next_back_id) ≡ b = ground arith in
        let here : turn e (b - e.next_back_id) ≡ b = rw e1 (mod-eq_of_lt in_range) in
        rw here at (none (b - e.next_back_id) (ground arith))
    | inr before ↦
        let e1 : e.next_back_id + (b + e.image.nr_back_segments - e.next_back_id)
            ≡ b + e.image.nr_back_segments =
          ground arith in
        let here : turn e (b + e.image.nr_back_segments - e.next_back_id) ≡ b =
          rw e1 (add-mod_right b e.image.nr_back_segments ∙ mod-eq_of_lt in_range) in
        rw here at (none (b + e.image.nr_back_segments - e.next_back_id) (ground arith))
  ]

  found_after_some :
      (f : NvmInstEngine B) (seg b : ℕ)
      → f.image.main_to_back seg ≡ b
      → (b == null_segment_index) ≡ false
      → found_after f seg ≡ ok (record { engine = f; back_id = b; created = true })
  unfolding found_after
  found_after_some f seg b same some =
      let found = λ (i : ℕ). ok (record { engine = f; back_id = i; created = true }) in
      ap (λ i. if i == null_segment_index then exited else found i) same
      ∙ ap (λ c. if c then exited else found b) some

  found_after_none :
      (f : NvmInstEngine B) (seg : ℕ)
      → f.image.main_to_back seg ≡ null_segment_index
      → found_after f seg ≡ exited
  unfolding found_after
  found_after_none f seg none =
      ap
        (λ i.
          if i == null_segment_index
          then exited
          else ok (record { engine = f; back_id = i; created = true }))
        none

  module _ (e : NvmInstEngine B) (seg : ℕ) (ready : IsReady e)
      (in_range : seg < e.image.nr_main_segments)
      (free : e.image.main_to_back seg ≡ null_segment_index) where
    IsBound-next :
        (k : ℕ)
        → IsBound (bound_at e seg k).image
          × ((bound_at e seg k).image.main_to_back seg ≡ turn e k)
          × ((turn e k == null_segment_index) ≡ false)
    IsBound-next k =
        let lt : turn e k < e.image.nr_back_segments =
          mod-lt (e.next_back_id + k) (omega (arith, ready.next_in_range)) in
        let b =
          bind-IsBound e.image seg (turn e k) in_range lt ready.few_main ready.few_back free
            ready.bound in
        (b.0, b.1, ground (arith, ready.few_back))

    found_after-bound :
        (k : ℕ)
        → found_after (bound_at e seg k) seg
          ≡ ok (record { engine = bound_at e seg k; back_id = turn e k; created = true })
    found_after-bound k =
        found_after_some (bound_at e seg k) seg (turn e k) (IsBound-next k).1 (IsBound-next k).2

    after-Finding :
        (o : Outcome (NvmInstEngine B))
        → Returns (Allocation (record e { back_memory_lock = true }) seg e.image.nr_back_segments) o
        → Finding e seg (o >>= λ allocated. found_after allocated seg)
    after-Finding exited h = absurd h
    after-Finding spins h = absurd h
    after-Finding (ok f) (taken k lt before can same) =
        took k free lt before can (IsBound-next k).0
          (ap (λ a. found_after a seg) same ∙ found_after-bound k)
    after-Finding (ok f) (none_left before image lock) =
        exits free (turn-covers e ready.next_in_range before)
          (found_after_none f seg (ap (λ m. m.main_to_back seg) image ∙ free))

  find_free :
      (e : NvmInstEngine B) (seg : ℕ)
      → e.image.main_to_back seg ≡ null_segment_index
      → find_back_segment e seg
        ≡ (allocate_back_segment e seg >>= λ allocated. found_after allocated seg)
  unfolding find_back_segment
  find_free e seg free =
      ap
        (λ i.
          if i == null_segment_index
          then (allocate_back_segment e seg >>= λ allocated. found_after allocated seg)
          else ok (record { engine = e; back_id = i; created = false }))
        free

  find_had :
      (e : NvmInstEngine B) (seg : ℕ)
      → (e.image.main_to_back seg == null_segment_index) ≡ false
      → find_back_segment e seg
        ≡ ok (record { engine = e; back_id = e.image.main_to_back seg; created = false })
  unfolding find_back_segment
  find_had e seg has =
      ap
        (λ c.
          if c
          then (allocate_back_segment e seg >>= λ allocated. found_after allocated seg)
          else ok (record { engine = e; back_id = e.image.main_to_back seg; created = false }))
        has

  -- With inverse tables, numbers of segments at most the null index, the next back segment in range
  -- and the lock of the back memory free, the search for the back segment of a segment in range
  -- returns the one that it has; else it takes the first in turn, from the next one on, that can be
  -- taken, keeps the tables inverse and binds it; and it ends the process exactly when the segment
  -- has none and none of them can be taken.
  pub find_back_segment-Finding :
      (e : NvmInstEngine B) (seg : ℕ)
      → IsReady e
      → seg < e.image.nr_main_segments
      → Finding e seg (find_back_segment e seg)
  find_back_segment-Finding e seg ready in_range =
      elim (Bool-cases (e.image.main_to_back seg == null_segment_index)) [
        | inr has ↦ had (ground arith) (find_had e seg has)
        | inl none ↦
            let free : e.image.main_to_back seg ≡ null_segment_index = ground arith in
            subst (Finding e seg) (sym (find_free e seg free)) (
              after-Finding e seg ready in_range free (allocate_back_segment e seg)
                (allocate_back_segment-Allocation e seg ready.unlocked ready.next_in_range))
      ]
