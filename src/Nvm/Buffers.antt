-- ===== src/Nvm/Buffers.antt =====
-- The addresses that an instrumented program has written to and that wait in the buffers of the threads.
use libcrpm.Base.{
  ℕ, ◌-◌, ◌/◌, ◌<◌, ◌≡◌, ◌≢◌, ◌⊎◌, inl, inr, sym, ◌∙◌, ap, subst, Bool, true, false, ◌&&◌, ◌||◌,
  List, [], ◌∷◌, ◌++◌, ◌==◌, update, contains, arith, Bool-cases, ==_refl, update_self, update_ne,
}
use libcrpm.Constants.{block_size, segment_size, max_threads}
use libcrpm.BitSet
use libcrpm.Buckets.{BlockLists, in_buckets, threads}
use libcrpm.Buckets.Laws.{in_buckets-member, threads-covers}
use libcrpm.Nvm.Defs.{NvmInstEngine, cell}
use libcrpm.Nvm.Program.{covers, hook_addresses}
use libcrpm.Nvm.Protection.{Snapshot}
use libcrpm.Nvm.Covering.{==_eq}
use libcrpm.Nvm.Invariant.{IsProtected}
use libcrpm.Nvm.Telling.{
  Tells, told-IsProtected, told_blocks, told_blocks-Tells, hook_addresses-Tells,
  hook_addresses-marks,
}

-- One bucket is emptied: a block is in it, or is still in the others.
in_buckets-emptied :
    (fb gb : BlockLists) (i : ℕ) (is : List ℕ) (x : ℕ)
    → ((t : ℕ) → t ≢ i → gb t ≡ fb t)
    → in_buckets fb is x ≡ true
    → (contains (fb i) x ≡ true) ⊎ (in_buckets gb is x ≡ true)
in_buckets-emptied fb gb i [] x same h = inr h
in_buckets-emptied fb gb i (t ∷ is) x same h = elim (Bool-cases (contains (fb t) x)) [
  | inl here ↦ elim (Bool-cases (t == i)) [
    | inl it ↦ inl (subst (λ j. contains (fb j) x ≡ true) (==_eq t i it) here)
    | inr other ↦ inr (ground (arith, ap (λ l. contains l x) (same t (ground arith))))
  ]
  | inr there ↦ elim (in_buckets-emptied fb gb i is x same (rw there at h)) [
    | inl found ↦ inl found
    | inr left ↦ inr (ground arith)
  ]
]

in_buckets-within :
    (fb gb : BlockLists) (is : List ℕ) (x : ℕ)
    → ((t : ℕ) → contains (gb t) x ≡ true → contains (fb t) x ≡ true)
    → in_buckets gb is x ≡ true
    → in_buckets fb is x ≡ true
in_buckets-within fb gb [] x same h = h
in_buckets-within fb gb (t ∷ is) x same h =
    ground (arith, same t, in_buckets-within fb gb is x same)

module _ {B : Type 0} where
  -- The blocks of the addresses that wait in a buffer.
  abbrev pub waiting : NvmInstEngine B → (ℕ → List ℕ) → ℕ → Bool
  waiting e buffers x = in_buckets (λ t. told_blocks e (buffers t)) (threads max_threads 0) x

  module _ (e : NvmInstEngine B) (buffers : ℕ → List ℕ) (tid i : ℕ) where
    abbrev pub told_engine : NvmInstEngine B
    told_engine = hook_addresses e tid (buffers i)

    abbrev pub emptied : ℕ → List ℕ
    emptied = update buffers i []

    pub told-Tells : Tells e told_engine
    told-Tells = hook_addresses-Tells e tid (buffers i)

    waiting_before :
        (x : ℕ)
        → waiting e buffers x ≡ true
        → (contains (told_blocks e (buffers i)) x ≡ true) ⊎ (waiting told_engine emptied x ≡ true)
    waiting_before x h =
        in_buckets-emptied (λ t. told_blocks e (buffers t))
          (λ t. told_blocks told_engine (emptied t)) i (threads max_threads 0) x
          (λ t ne.
            told_blocks-Tells e told_engine (emptied t) told-Tells
            ∙ ap (told_blocks e) (update_ne buffers i [] t (λ q. ne (sym q))))
          h

    waiting_after : (x : ℕ) → waiting told_engine emptied x ≡ true → waiting e buffers x ≡ true
    waiting_after x h =
        in_buckets-within (λ t. told_blocks e (buffers t))
          (λ t. told_blocks told_engine (emptied t)) (threads max_threads 0) x
          (λ t found. elim (Bool-cases (i == t)) [
            | inl here ↦ absurd (
                cc (
                  found,
                  ap (λ l. contains (told_blocks told_engine l) x)
                      (subst (λ j. update buffers i [] j ≡ []) (==_eq i t here)
                        (update_self buffers i [])),
                ))
            | inr there ↦
                ap (λ l. contains l x)
                  (sym (ap (told_blocks e) (update_ne buffers i [] t (ground arith)))
                    ∙ sym (told_blocks-Tells e told_engine (emptied t) told-Tells))
                ∙ found
          ])
          h

    no_block_forgotten :
        (x : ℕ)
        → waiting told_engine emptied x ≡ false
        → BitSet.test (Tells.marks told-Tells) x ≡ false
        → (waiting e buffers x ≡ false) × (BitSet.test e.block_dirty x ≡ false)
    no_block_forgotten x not_waiting unmarked = (
      elim (Bool-cases (waiting e buffers x)) [
        | inr idle ↦ idle
        | inl waits ↦ elim (waiting_before x waits) [
          | inr still ↦ absurd (cc)
          | inl told ↦
              let marked =
                sym (
                  ap (λ (g : NvmInstEngine B). BitSet.test g.block_dirty x) (Tells.same told-Tells))
                ∙ hook_addresses-marks e tid (buffers i) x told in
              absurd (cc)
        ]
      ],
      elim (Bool-cases (BitSet.test e.block_dirty x)) [
        | inr clean ↦ clean
        | inl dirty ↦ let marked = Tells.still told-Tells x dirty in absurd (cc)
      ],
    )

    pub cleared-IsProtected :
        (s : Snapshot B) (old : ℕ → ℕ)
        → IsProtected s (waiting e buffers) old e
        → IsProtected s (waiting told_engine emptied) old told_engine
    cleared-IsProtected s old p =
        subst (IsProtected s (waiting told_engine emptied) old) (sym (Tells.same told-Tells)) (
          told-IsProtected s (waiting e buffers) (waiting told_engine emptied) old e
            (Tells.marks told-Tells) (Tells.buckets told-Tells) p (Tells.wide told-Tells p.wide)
            no_block_forgotten
            (λ seg k lt k_lt waits.
              p.pending_dirty seg k lt k_lt (waiting_after (cell seg k) waits)))

  told_blocks-append :
      (e : NvmInstEngine B) (l : List ℕ) (addr x : ℕ)
      → contains (told_blocks e (l ++ (addr ∷ []))) x ≡ (
          contains (told_blocks e l) x
          || (covers e addr && (addr - e.address_first) / block_size == x))
  told_blocks-append e [] addr x = ground arith
  told_blocks-append e (a ∷ l) addr x = ground (arith, told_blocks-append e l addr x)

  -- The engine and the buffers after an address has gone to the buffer of a thread.
  module _ (e : NvmInstEngine B) (buffers : ℕ → List ℕ) (tid addr : ℕ) (ours : covers e addr ≡ true)
      (in_range : tid < max_threads) where
    abbrev pub pushed : ℕ → List ℕ
    pushed = update buffers tid (buffers tid ++ (addr ∷ []))

    abbrev pub block : ℕ
    block = (addr - e.address_first) / block_size

    pushed_blocks :
        (t x : ℕ)
        → contains (told_blocks e (pushed t)) x ≡ true
        → (contains (told_blocks e (buffers t)) x ≡ true) ⊎ (block ≡ x)
    pushed_blocks t x found = elim (Bool-cases (tid == t)) [
      | inr there ↦ inl (rw there at found)
      | inl here ↦
          let now : contains (told_blocks e (buffers tid ++ (addr ∷ []))) x ≡ true =
            rw here at found in
          elim (Bool-cases (contains (told_blocks e (buffers tid)) x)) [
            | inl before ↦ inl (
                subst (λ j. contains (told_blocks e (buffers j)) x ≡ true) (==_eq tid t here)
                  before)
            | inr not_before ↦ inr (ground (arith, told_blocks-append e (buffers tid) addr x))
          ]
    ]

    pushed-waiting :
        (x : ℕ) → waiting e pushed x ≡ true → (waiting e buffers x ≡ true) ⊎ (block ≡ x)
    pushed-waiting x h = elim (Bool-cases (block == x)) [
      | inl here ↦ inr (==_eq block x here)
      | inr there ↦ inl (
          in_buckets-within (λ t. told_blocks e (buffers t)) (λ t. told_blocks e (pushed t))
            (threads max_threads 0) x
            (λ t found. elim (pushed_blocks t x found) [
              | inl before ↦ before
              | inr same ↦ absurd (ground arith)
            ])
            h)
    ]

    pushed_still : (x : ℕ) → waiting e buffers x ≡ true → waiting e pushed x ≡ true
    pushed_still x h =
        in_buckets-within (λ t. told_blocks e (pushed t)) (λ t. told_blocks e (buffers t))
          (threads max_threads 0) x
          (λ t found. elim (Bool-cases (tid == t)) [
            | inr there ↦ rw there found
            | inl here ↦ rw here (
                told_blocks-append e (buffers tid) addr x
                ∙ ap (λ b. b || (covers e addr && block == x))
                    (subst (λ j. contains (told_blocks e (buffers j)) x ≡ true)
                      (sym (==_eq tid t here)) found))
          ])
          h

    pub pushed_here : contains (told_blocks e (pushed tid)) block ≡ true
    pushed_here =
        rw (==_refl tid)
          (ground (arith, told_blocks-append e (buffers tid) addr block, ==_refl block))

    pub pushed_now : waiting e pushed block ≡ true
    pushed_now =
        in_buckets-member (λ t. told_blocks e (pushed t)) (threads max_threads 0) tid block
          (threads-covers max_threads 0 tid (omega arith) (omega arith)) pushed_here

    pub pushed-IsProtected :
        (s : Snapshot B) (old : ℕ → ℕ)
        → ((seg : ℕ)
            → (addr - e.address_first) / segment_size ≡ seg
            → BitSet.test e.segment_dirty seg ≡ true)
        → IsProtected s (waiting e buffers) old e
        → IsProtected s (waiting e pushed) old e
    pushed-IsProtected s old is_dirty p =
        told-IsProtected s (waiting e buffers) (waiting e pushed) old e e.block_dirty e.flush_blocks
          p p.wide
          (λ x idle clean. (
            elim (Bool-cases (waiting e buffers x)) [
              | inl waits ↦ let now = pushed_still x waits in absurd (cc)
              | inr not_before ↦ not_before
            ],
            clean,
          ))
          (λ seg k lt k_lt waits. elim (pushed-waiting (cell seg k) waits) [
            | inl before ↦ p.pending_dirty seg k lt k_lt before
            | inr here ↦ is_dirty seg (omega (arith, here))
          ])
