-- ===== src/Align/Laws.antt =====
-- What `round_up` returns, and that `flush_region` visits the line of each byte of the range.
use native.Mathlib.Nat.{mul-mod_right, add-mod_right, mod-add-div}
use libcrpm.Base.{
  ℕ, zero, suc, ◌+◌, ◌-◌, ◌*◌, ◌/◌, ◌%◌, ◌≤◌, ◌<◌, ◌≡◌, inl, inr, true, arith, Bool-cases, ◌==◌,
  contains, ◌∙◌, ap,
}
use libcrpm.Align.{round_up, flush_loop, flush_region}

round_up_mod : (a b : ℕ) → round_up a b % b ≡ 0
round_up_mod a b = elim (Bool-cases (a % b == 0)) [
  | inl e ↦ rw e (ground arith)
  | inr e ↦ rw e (
      add-mod_right (a - a % b) b
      ∙ ap (λ t. t % b) (omega (arith, mod-add-div a b))
      ∙ mul-mod_right b (a / b))
]

-- For a positive b, RoundUp of a to b is a multiple of b that is not below a and is less than b
-- above it.
pub round_up_lem :
    (a b : ℕ) → 0 < b → (round_up a b % b ≡ 0) × (a ≤ round_up a b) × (round_up a b < a + b)
round_up_lem a b pos = (round_up_mod a b, ground arith, ground arith)

-- The line of an address at or after `ptr` and before `end` is visited, when the fuel reaches `end`.
flush_loop_covers :
    (fuel ptr end x : ℕ)
    → ptr % 64 ≡ 0
    → end ≤ ptr + fuel * 64
    → ptr ≤ x
    → x < end
    → contains (flush_loop fuel ptr end) (x - x % 64) ≡ true
unfolding flush_loop
flush_loop_covers zero ptr end x al f lo hi = absurd (omega arith)
flush_loop_covers (suc fuel) ptr end x al f lo hi =
    ground (arith, flush_loop_covers fuel (ptr + 64) end x)

-- FlushRegion visits the cache line of each byte of its range.
pub flush_region_covers :
    (addr len x : ℕ)
    → addr ≤ x
    → x < addr + len
    → contains (flush_region addr len) (x - x % 64) ≡ true
unfolding flush_region
flush_region_covers addr len x lo hi =
    flush_loop_covers (len / 64 + 2) (addr - addr % 64) (addr + len) x (omega arith) (omega arith)
      (omega arith) hi
