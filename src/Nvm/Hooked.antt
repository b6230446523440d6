-- ===== src/Nvm/Hooked.antt =====
-- What NvmInstEngine::hook_copy_on_write_routine achieves: lazy_write_back on demand, on each of its paths.
use libcrpm.Base.{
  ℕ, ◌<◌, ◌≡◌, ◌≢◌, inl, inr, refl, sym, ◌∙◌, ap, subst, Bool, true, false, ◌==◌, update, Outcome,
  ok, exited, ◌>>=◌, arith, Bool-cases,
}
use libcrpm.Constants.{null_segment_index}
use libcrpm.BitSet
use libcrpm.BitSet.Laws.{test-set}
use libcrpm.Image.Defs.{Image, ss_initial, ss_main, ss_back, get_segment_state}
use libcrpm.Image.Defs
use libcrpm.Image.Update.{get_segment_state_lem}
use libcrpm.Image.Binding.{bind_back_segment}
use libcrpm.Nvm.Defs.{NvmInstEngine, set_segment_dirty, acquire_lock, release_lock, lock_of}
use libcrpm.Nvm.BackSegment.{Found, find_back_segment}
use libcrpm.Nvm.Allocation.{can_take, turn, bound_at}
use libcrpm.Nvm.Finding.{IsReady, Finding, had, took, exits, find_back_segment-Finding}
use libcrpm.Nvm.WriteBack.{write_back, lazy_locked, lazy_write_back}
use libcrpm.Nvm.Protection.{Snapshot, IsPromised}
use libcrpm.Pm.Region
use libcrpm.Nvm.Invariant.{IsProtected, marked-IsProtected, locks-IsProtected}
use libcrpm.Nvm.Covering.{==_eq}
use libcrpm.Nvm.Filling.{bound-IsFillable, rebound-IsFillable}
use libcrpm.Nvm.Hook.{hook_segment}
use libcrpm.Nvm.Lazy.{IsHooked, write_back-IsHooked}

-- What a call of lazy_write_back on demand does to a segment that is not dirty.
pub data Lazily {B : Type 0} (s : Snapshot B) (pending : ℕ → Bool) (e : NvmInstEngine B) (seg : ℕ)
    (r : Outcome (NvmInstEngine B × Bool)) : Type 0 where
  ends :
      e.image.main_to_back seg ≡ null_segment_index
      → ((b : ℕ) → b < e.image.nr_back_segments → can_take e b ≡ false)
      → r ≡ exited
      → Lazily s pending e seg r
  returns :
      (g : NvmInstEngine B) (copied : Bool)
      → IsHooked s pending e seg g
      → r ≡ ok (g, copied)
      → Lazily s pending e seg r

module _ {B : Type 0} (s : Snapshot B) (pending : ℕ → Bool) (old : ℕ → ℕ) (e : NvmInstEngine B)
    (seg : ℕ) (p : IsProtected s pending old e) (in_range : seg < s.nr_main)
    (idle : BitSet.test e.segment_dirty seg ≡ false)
    (kept : old seg ≡ ss_back → e.image.main_to_back seg ≢ null_segment_index)
    (unlocked : e.back_memory_lock ≡ false) where
  pub state_is : get_segment_state e.image seg ≡ old seg
  state_is = get_segment_state_lem old old e.image p.updating seg (rw p.covers.main_size in_range)

  abbrev pub found_then : Found B → Outcome (NvmInstEngine B × Bool)
  found_then f =
      ok (write_back f.engine seg f.back_id (get_segment_state e.image seg) f.created true, true)

  pub lazy_free :
      e.image.main_to_back seg ≡ null_segment_index
      → lazy_locked e seg true ≡ (find_back_segment e seg >>= found_then)
  unfolding lazy_locked
  lazy_free free =
      let none : (e.image.main_to_back seg == null_segment_index) ≡ true = ground arith in
      elim (Bool-cases (get_segment_state e.image seg == ss_main)) [
        | inl in_main ↦ simp (none, in_main) refl
        | inr elsewhere ↦ simp (none, elsewhere) refl
      ]

  pub ready : IsReady e
  ready = record {
    bound = p.covers.bound;
    few_main = rw p.covers.main_size p.covers.few_main;
    few_back = rw p.covers.back_size p.covers.few_back;
    next_in_range = rw p.covers.back_size p.next_in_range;
    unlocked = unlocked;
  }

  bound_at-IsHooked :
      (k : ℕ) (g : NvmInstEngine B)
      → e.image.main_to_back seg ≡ null_segment_index
      → IsHooked s pending (bound_at e seg k) seg g
      → IsHooked s pending e seg g
  unfolding bind_back_segment Defs.store_fence Region.fence
  bound_at-IsHooked k g free h = record {
    states = h.states;
    protected = h.protected;
    is_dirty = h.is_dirty;
    same_blocks = h.same_blocks;
    still_dirty = h.still_dirty;
    same_locks = h.same_locks;
    released = h.released;
    same_back_lock = h.same_back_lock ∙ sym unlocked;
    same_skip = h.same_skip;
    same_range = h.same_range;
    same_table = λ bound. absurd (bound free);
  }

  taken-IsHooked :
      (k : ℕ)
      → e.image.main_to_back seg ≡ null_segment_index
      → can_take e (turn e k) ≡ true
      → IsHooked s pending e seg
          (write_back (bound_at e seg k) seg (turn e k) (get_segment_state e.image seg) true true)
  taken-IsHooked k free can =
      let filled =
        rebound-IsFillable s pending old e seg p in_range idle k free (λ is_back. kept is_back free)
          can in
      rw state_is (
        bound_at-IsHooked k _ free (
          write_back-IsHooked s pending old (bound_at e seg k) seg (turn e k) (old seg) true
            filled))

  found-Lazily :
      e.image.main_to_back seg ≡ null_segment_index
      → Finding e seg (find_back_segment e seg)
      → Lazily s pending e seg (find_back_segment e seg >>= found_then)
  found-Lazily free (had some found) = absurd (some free)
  found-Lazily free (took k _ lt before can _ found) =
      returns
        (write_back (bound_at e seg k) seg (turn e k) (get_segment_state e.image seg) true true)
        true (taken-IsHooked k free can) (ap (λ r. r >>= found_then) found)
  found-Lazily free (exits _ none found) = ends free none (ap (λ r. r >>= found_then) found)

  pub lazy_in_place :
      (get_segment_state e.image seg == ss_main) ≡ false
      → (e.image.main_to_back seg == null_segment_index) ≡ false
      → lazy_locked e seg true ≡ ok (release_lock (set_segment_dirty e seg) (lock_of seg), false)
  unfolding lazy_locked
  lazy_in_place elsewhere some = simp (some, elsewhere) refl

  pub lazy_bound :
      (get_segment_state e.image seg == ss_main) ≡ true
      → (e.image.main_to_back seg == null_segment_index) ≡ false
      → lazy_locked e seg true
        ≡ ok (
          write_back e seg (e.image.main_to_back seg) (get_segment_state e.image seg) false true,
          true,
        )
  unfolding lazy_locked
  lazy_bound in_main some = simp (some, in_main) refl

  back_state : (k : ℕ) → IsPromised s seg k → (old seg == ss_main) ≡ false → old seg ≡ ss_back
  back_state k q elsewhere = elim (p.known_states seg in_range) [
    | inl initial ↦ absurd (p.promised_states seg k q initial)
    | inr (inl in_main) ↦ absurd (ground arith)
    | inr (inr back) ↦ back
  ]

  in_place-IsHooked :
      (old seg == ss_main) ≡ false
      → (e.image.main_to_back seg == null_segment_index) ≡ false
      → IsHooked s pending e seg (release_lock (set_segment_dirty e seg) (lock_of seg))
  unfolding release_lock
  in_place-IsHooked elsewhere some = record {
    states = old;
    protected = locks-IsProtected s pending old (set_segment_dirty e seg) _ (
        marked-IsProtected s pending old e seg p (λ k q. (back_state k q elsewhere, ground arith)));
    is_dirty = unfold set_segment_dirty in ground (arith, test-set e.segment_dirty seg seg);
    same_blocks = unfold set_segment_dirty in λ x. refl;
    still_dirty = unfold set_segment_dirty in λ i h. ground (arith, test-set e.segment_dirty seg i);
    same_locks = unfold set_segment_dirty in λ l h. ground arith;
    released = ground arith;
    same_back_lock = unfold set_segment_dirty in refl;
    same_skip = unfold set_segment_dirty in refl;
    same_range = unfold set_segment_dirty in (refl, refl);
    same_table = unfold set_segment_dirty in λ bound i. refl;
  }

  bound-IsHooked :
      (old seg == ss_main) ≡ true
      → (e.image.main_to_back seg == null_segment_index) ≡ false
      → IsHooked s pending e seg
          (write_back e seg (e.image.main_to_back seg) (get_segment_state e.image seg) false true)
  bound-IsHooked in_main some = rw state_is (
      write_back-IsHooked s pending old e seg (e.image.main_to_back seg) (old seg) false
        (bound-IsFillable s pending old e seg p in_range idle (ground arith) (ground arith)))

  pub lazy_locked-Lazily : Lazily s pending e seg (lazy_locked e seg true)
  lazy_locked-Lazily = elim (Bool-cases (e.image.main_to_back seg == null_segment_index)) [
    | inl none ↦
        let free : e.image.main_to_back seg ≡ null_segment_index = ground arith in
        subst (Lazily s pending e seg) (sym (lazy_free free)) (
          found-Lazily free
            (find_back_segment-Finding e seg ready (rw p.covers.main_size in_range)))
    | inr some ↦ elim (Bool-cases (get_segment_state e.image seg == ss_main)) [
      | inr elsewhere ↦
          returns _ false (in_place-IsHooked (rw state_is at elsewhere) some)
            (lazy_in_place elsewhere some)
      | inl in_main ↦
          returns _ true (bound-IsHooked (rw state_is at in_main) some) (lazy_bound in_main some)
    ]
  ]

-- The engine that holds the lock of the segment.
abbrev pub locked : {B : Type 0} → NvmInstEngine B → ℕ → NvmInstEngine B
locked e seg = record e { segment_locks = update e.segment_locks (lock_of seg) true }

-- What a call of the hook does to a segment that is not dirty.
pub data Hooking {B : Type 0} (s : Snapshot B) (pending : ℕ → Bool) (e : NvmInstEngine B) (seg : ℕ)
    (r : Outcome (NvmInstEngine B)) : Type 0 where
  no_room :
      e.image.main_to_back seg ≡ null_segment_index
      → ((b : ℕ) → b < e.image.nr_back_segments → can_take (locked e seg) b ≡ false)
      → r ≡ exited
      → Hooking s pending e seg r
  hooked : (g : NvmInstEngine B) → IsHooked s pending e seg g → r ≡ ok g → Hooking s pending e seg r

module _ {B : Type 0} (s : Snapshot B) (pending : ℕ → Bool) (old : ℕ → ℕ) (e : NvmInstEngine B)
    (seg : ℕ) where
  unlocked-IsHooked :
      (g : NvmInstEngine B) → IsHooked s pending (locked e seg) seg g → IsHooked s pending e seg g
  unlocked-IsHooked g h = record {
    states = h.states;
    protected = h.protected;
    is_dirty = h.is_dirty;
    same_blocks = h.same_blocks;
    still_dirty = h.still_dirty;
    same_locks = λ l free. elim (Bool-cases (lock_of seg == l)) [
      | inl here ↦ subst (λ x. g.segment_locks x ≡ false) (==_eq (lock_of seg) l here) h.released
      | inr there ↦ h.same_locks l (rw there free)
    ];
    released = h.released;
    same_back_lock = h.same_back_lock;
    same_skip = h.same_skip;
    same_range = h.same_range;
    same_table = h.same_table;
  }

  Lazily-Hooking :
      (r : Outcome (NvmInstEngine B × Bool))
      → Lazily s pending (locked e seg) seg r
      → Hooking s pending e seg (r >>= λ x. ok x.0)
  Lazily-Hooking r (ends free none found) = no_room free none (ap (λ o. o >>= λ x. ok x.0) found)
  Lazily-Hooking r (returns g copied h found) =
      hooked g (unlocked-IsHooked g h) (ap (λ o. o >>= λ x. ok x.0) found)

  pub lazily :
      BitSet.test e.segment_dirty seg ≡ false
      → e.skip_copy_on_write ≡ false
      → e.segment_locks (lock_of seg) ≡ false
      → hook_segment e seg ≡ (lazy_locked (locked e seg) seg true >>= λ x. ok x.0)
  unfolding hook_segment lazy_write_back acquire_lock
  lazily idle not_skipped free = simp (idle, not_skipped, free) refl

  -- From an engine that protects a checkpoint and does not skip the copy on write, for a segment
  -- that is not dirty, has a back segment if its state is SS_Back, and whose lock is free like that
  -- of the back memory, the hook ends the process if the segment has no back segment and none can
  -- be taken; else it returns with the checkpoint protected, the segment dirty, every dirty segment
  -- still dirty, the data, the range of addresses, the flag to skip, the lock of the back memory
  -- and the other free locks as before, and the lock of the segment free.
  pub hook_segment-Hooking :
      IsProtected s pending old e
      → seg < s.nr_main
      → BitSet.test e.segment_dirty seg ≡ false
      → (old seg ≡ ss_back → e.image.main_to_back seg ≢ null_segment_index)
      → e.skip_copy_on_write ≡ false
      → e.segment_locks (lock_of seg) ≡ false
      → e.back_memory_lock ≡ false
      → Hooking s pending e seg (hook_segment e seg)
  hook_segment-Hooking p in_range idle kept not_skipped free back_free =
      subst (Hooking s pending e seg) (sym (lazily idle not_skipped free)) (
        Lazily-Hooking (lazy_locked (locked e seg) seg true) (
          lazy_locked-Lazily s pending old (locked e seg) seg
            (locks-IsProtected s pending old e _ p) in_range idle kept back_free))
