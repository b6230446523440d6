-- ===== src/Undo/HookRange.antt =====
-- UndoLogEngine::hook_routine on a range of bytes: the loop over the blocks that the range meets.
use libcrpm.Base.{
  ℕ, zero, suc, ◌+◌, ◌-◌, ◌*◌, ◌/◌, ◌%◌, ◌<◌, ◌≤◌, ◌≡◌, refl, ◌∙◌, arith, Returns, ltb, ◌||◌, ◌&&◌,
  Bool-cases, le→ltb, ltb→le, ltb→lt, inl, inr, Returns-bind, Returns-map,
}
use libcrpm.Constants.{block_size}
use libcrpm.BitSet
use libcrpm.Undo.Defs.{UndoLogEngine, log_size}
use libcrpm.Undo.Hook.{hook_routine, hook_loop, hook_range}
use libcrpm.Undo.HookResult.{IsHooked, hook_block-IsHooked}
use libcrpm.Undo.Safety.{IsLogging}

module _ {B : Type 0} (snap : ℕ → B) where
  -- The blocks from the byte `ptr` of the data up to the byte `end` are marked, and no others that
  -- were not.
  pub record IsRangeHooked (ptr end : ℕ) (e f : UndoLogEngine B) : Type 0 where
    pub logging : IsLogging snap f
    pub marks :
        (b : ℕ)
        → BitSet.test f.block_dirty b ≡ (
            ltb ptr (b * block_size + block_size) && ltb (b * block_size) end
            || BitSet.test e.block_dirty b)
    pub same_data : (c : ℕ) → f.heap.view c ≡ e.heap.view c
    pub same_capacity : f.log_capacity ≡ e.log_capacity

  hook_routine-IsHooked :
      (e : UndoLogEngine B) (tid ptr : ℕ)
      → IsLogging snap e
      → e.log_head + log_size < e.log_capacity
      → Returns
          (IsHooked snap tid (ptr / block_size) e)
          (hook_routine e tid (e.address_first + ptr))
  unfolding hook_routine
  hook_routine-IsHooked e tid ptr l room =
      let same : e.address_first + ptr - e.address_first ≡ ptr = omega arith in
      rw same (hook_block-IsHooked snap e tid (ptr / block_size) l room)

  done-IsRangeHooked :
      (e : UndoLogEngine B) (ptr end : ℕ)
      → IsLogging snap e
      → ptr % block_size ≡ 0
      → end ≤ ptr
      → IsRangeHooked ptr end e e
  done-IsRangeHooked e ptr end l al over = record {
    logging = l;
    marks = λ b. ground arith;
    same_data = λ c. refl;
    same_capacity = refl;
  }

  step-IsRangeHooked :
      (e f g : UndoLogEngine B) (tid ptr end : ℕ)
      → ptr % block_size ≡ 0
      → ptr < end
      → IsHooked snap tid (ptr / block_size) e f
      → IsRangeHooked (ptr + block_size) end f g
      → IsRangeHooked ptr end e g
  step-IsRangeHooked e f g tid ptr end al lt h r = record {
    logging = r.logging;
    marks = λ b. ground (arith, r.marks b, h.marks b);
    same_data = λ c. r.same_data c ∙ h.same_data c;
    same_capacity = r.same_capacity ∙ h.same_capacity;
  }

  hook_loop-IsRangeHooked :
      (n : ℕ) (e : UndoLogEngine B) (tid ptr end : ℕ)
      → IsLogging snap e
      → ptr % block_size ≡ 0
      → end ≤ ptr + n * block_size
      → e.log_head + log_size * n < e.log_capacity
      → Returns (IsRangeHooked ptr end e) (hook_loop (suc n) e tid ptr end)
  unfolding hook_loop
  hook_loop-IsRangeHooked zero e tid ptr end l al enough room =
      rw (le→ltb ptr end (omega arith)) (done-IsRangeHooked e ptr end l al (omega arith))
  hook_loop-IsRangeHooked (suc n) e tid ptr end l al enough room = elim (Bool-cases (ltb ptr end)) [
    | inr over ↦ rw over (done-IsRangeHooked e ptr end l al (ltb→le ptr end over))
    | inl more ↦ rw more (
        Returns-bind (IsHooked snap tid (ptr / block_size) e) (IsRangeHooked ptr end e)
          (hook_routine e tid (e.address_first + ptr))
          (λ f. hook_loop (suc n) f tid (ptr + block_size) end)
          (hook_routine-IsHooked e tid ptr l (omega arith))
          (λ f h.
            Returns-map (IsRangeHooked (ptr + block_size) end f) (IsRangeHooked ptr end e)
              (hook_loop (suc n) f tid (ptr + block_size) end)
              (λ g r. step-IsRangeHooked e f g tid ptr end al (ltb→lt ptr end more) h r)
              (hook_loop-IsRangeHooked n f tid (ptr + block_size) end h.logging (omega arith)
                (omega arith) (omega (arith, h.one_record, h.same_capacity)))))
  ]

  -- Between two calls and with room in the log for a record of each block that the range may meet,
  -- the hook on a range of bytes from the start of the data on returns in a state between two calls
  -- for the same snapshot, with the same data, with each block that meets the range marked, and
  -- without taking a mark away.
  pub hook_range-IsHooked :
      (e : UndoLogEngine B) (tid delta len : ℕ)
      → IsLogging snap e
      → e.log_head + log_size * (len / block_size + 2) < e.log_capacity
      → Returns
          (IsRangeHooked delta (delta + len) e)
          (hook_range e tid (e.address_first + delta) len)
  unfolding hook_range
  hook_range-IsHooked e tid delta len l room =
      let same : e.address_first + delta - e.address_first ≡ delta = omega arith in
      rw same (
        Returns-map (IsRangeHooked (delta - delta % block_size) (delta + len) e)
          (IsRangeHooked delta (delta + len) e) _
          (λ f r. record {
            logging = r.logging;
            marks = λ b. ground (arith, r.marks b);
            same_data = r.same_data;
            same_capacity = r.same_capacity;
          })
          (hook_loop-IsRangeHooked (len / block_size + 2) e tid (delta - delta % block_size)
            (delta + len) l (omega arith) (omega arith) room))
