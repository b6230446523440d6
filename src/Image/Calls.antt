-- ===== src/Image/Calls.antt =====
-- Calls of a CheckpointImage on the states of the segments, against what they promise: the committed
-- states, which reads and restarts find, and the pending ones.
use libcrpm.Base.{
  ℕ, ◌<◌, ◌≡◌, inl, inr, refl, ap, ◌∙◌, Bool, true, false, List, [], ◌∷◌, update, Outcome, ok,
  exited, spins, ◌>>=◌, All, if◌then◌else◌, Bool-cases,
}
use libcrpm.Image.Defs.{
  Image, store_fence, bi_epoch, get_segment_state, begin_segment_state_update, set_segment_state,
  write_slot, commit_segment_state_update, set_segment_state_atomic,
}
use libcrpm.Image.Crash.{StateMedium, LeavesStates, found_state, IsStable-found}
use libcrpm.Image.Update.{
  IsUpdating, get_segment_state_lem, write_slot-IsUpdating, write_slot_rest, begin-IsUpdating,
}
use libcrpm.Image.Committed.{commit-IsUpdating}
use libcrpm.Image.Atomic.{atomic-IsUpdating}

pub data Call : Type 0 where
  begins : Call
  sets : ℕ → ℕ → Call
  commits : Call
  sets_now : ℕ → ℕ → Call

pub record States : Type 0 where
  pub is_open : Bool
  pub committed : ℕ → ℕ
  pub pending : ℕ → ℕ

-- A state that is set outside an update ends the process.
unfoldable pub promise : States → Call → Outcome States
promise s begins = ok (record s { is_open = true })
promise s (sets seg state) =
    if s.is_open then ok (record s { pending = update s.pending seg state }) else exited
promise s commits = ok (record { is_open = false; committed = s.pending; pending = s.pending })
promise s (sets_now seg state) =
    ok (record s { committed = update s.committed seg state; pending = update s.pending seg state })

unfoldable pub promises : States → List Call → Outcome States
promises s [] = ok s
promises s (c ∷ rest) = promise s c >>= λ t. promises t rest

abbrev pub IsValidCall : ℕ → Call → Type 0
IsValidCall nr (sets seg state) = seg < nr
IsValidCall nr (sets_now seg state) = seg < nr
IsValidCall nr _ = Unit

module _ {S : Type 0} where
  unfoldable pub call : Image S → Call → Outcome (Image S)
  call m begins = ok (begin_segment_state_update m)
  call m (sets seg state) = set_segment_state m seg state
  call m commits = ok (commit_segment_state_update m)
  call m (sets_now seg state) = ok (set_segment_state_atomic m seg state)

  unfoldable pub calls : Image S → List Call → Outcome (Image S)
  calls m [] = ok m
  calls m (c ∷ rest) = call m c >>= λ n. calls n rest

  -- The image stands for the states.
  pub record Keeps (nr : ℕ) (s : States) (m : Image S) : Type 0 where
    pub same_size : m.nr_main_segments ≡ nr
    pub same_open : m.segment_state_update ≡ s.is_open
    pub updating : IsUpdating s.committed s.pending m

  -- Both return, or both end the process.
  abbrev pub Both : (States → Image S → Type 0) → Outcome States → Outcome (Image S) → Type 0
  Both P (ok s) (ok m) = P s m
  Both P exited exited = Unit
  Both P _ _ = ⊥

  Both-bind :
      (P Q : States → Image S → Type 0) (a : Outcome States) (b : Outcome (Image S))
      (f : States → Outcome States) (g : Image S → Outcome (Image S))
      → Both P a b
      → ((s : States) (m : Image S) → P s m → Both Q (f s) (g m))
      → Both Q (a >>= f) (b >>= g)
  Both-bind P Q (ok s) (ok m) f g h k = k s m h
  Both-bind P Q exited exited f g h k = tt
  Both-bind P Q (ok s) exited f g h k = absurd h
  Both-bind P Q (ok s) spins f g h k = absurd h
  Both-bind P Q exited (ok m) f g h k = absurd h
  Both-bind P Q exited spins f g h k = absurd h
  Both-bind P Q spins (ok m) f g h k = absurd h
  Both-bind P Q spins exited f g h k = absurd h
  Both-bind P Q spins spins f g h k = absurd h

  Both-map :
      (P Q : States → Image S → Type 0) (a : Outcome States) (b : Outcome (Image S))
      → ((s : States) (m : Image S) → P s m → Q s m)
      → Both P a b
      → Both Q a b
  Both-map P Q (ok s) (ok m) k h = k s m h
  Both-map P Q exited exited k h = tt
  Both-map P Q (ok s) exited k h = absurd h
  Both-map P Q (ok s) spins k h = absurd h
  Both-map P Q exited (ok m) k h = absurd h
  Both-map P Q exited spins k h = absurd h
  Both-map P Q spins (ok m) k h = absurd h
  Both-map P Q spins exited k h = absurd h
  Both-map P Q spins spins k h = absurd h

  pub set_open :
      (m : Image S) (seg state : ℕ)
      → m.segment_state_update ≡ true
      → set_segment_state m seg state ≡ ok (write_slot m seg state)
  unfolding set_segment_state
  set_open m seg state h = ap (λ b. if b then ok (write_slot m seg state) else exited) h

  set_closed :
      (m : Image S) (seg state : ℕ)
      → m.segment_state_update ≡ false
      → set_segment_state m seg state ≡ exited
  unfolding set_segment_state
  set_closed m seg state h = ap (λ b. if b then ok (write_slot m seg state) else exited) h

  call-Keeps :
      (nr : ℕ) (s : States) (m : Image S) (c : Call)
      → IsValidCall nr c
      → Keeps nr s m
      → Both (Keeps nr) (promise s c) (call m c)
  unfolding promise call
  call-Keeps nr s m begins v k = record {
    same_size = unfold begin_segment_state_update in k.same_size;
    same_open = unfold begin_segment_state_update in refl;
    updating = begin-IsUpdating s.committed s.pending m k.updating;
  }
  call-Keeps nr s m (sets seg state) v k = elim (Bool-cases s.is_open) [
    | inr closed ↦ rw (set_closed m seg state (k.same_open ∙ closed), closed) tt
    | inl opened ↦
        rw (set_open m seg state (k.same_open ∙ opened), opened)
          (record {
            same_size = (write_slot_rest m seg state).0 ∙ k.same_size;
            same_open = (write_slot_rest m seg state).1 ∙ k.same_open ∙ opened;
            updating =
                write_slot-IsUpdating s.committed s.pending m seg state (rw k.same_size v)
                  k.updating;
          })
  ]
  call-Keeps nr s m commits v k = record {
    same_size = (commit-IsUpdating s.committed s.pending m k.updating).1 ∙ k.same_size;
    same_open = unfold commit_segment_state_update in refl;
    updating = (commit-IsUpdating s.committed s.pending m k.updating).0;
  }
  call-Keeps nr s m (sets_now seg state) v k = record {
    same_size = unfold set_segment_state_atomic store_fence in k.same_size;
    same_open = unfold set_segment_state_atomic store_fence in k.same_open;
    updating = atomic-IsUpdating s.committed s.pending m k.updating seg state;
  }

  calls-Keeps :
      (nr : ℕ) (s : States) (m : Image S) (todo : List Call)
      → All (IsValidCall nr) todo
      → Keeps nr s m
      → Both (Keeps nr) (promises s todo) (calls m todo)
  unfolding promises calls
  calls-Keeps nr s m [] v k = k
  calls-Keeps nr s m (c ∷ rest) v k =
      Both-bind (Keeps nr) (Keeps nr) (promise s c) (call m c) (λ t. promises t rest)
        (λ n. calls n rest) (call-Keeps nr s m c v.0 k) (λ t n k'. calls-Keeps nr t n rest v.1 k')

  -- A read of each state, and a restart after a crash, find the committed one.
  pub record IsFound (nr : ℕ) (s : States) (m : Image S) : Type 0 where
    pub get : (seg : ℕ) → seg < nr → get_segment_state m seg ≡ s.committed seg
    pub restart :
        (f : StateMedium)
        → LeavesStates m f
        → (seg : ℕ) → seg < nr
        → found_state f seg ≡ s.committed seg

  Keeps-IsFound : (nr : ℕ) (s : States) (m : Image S) → Keeps nr s m → IsFound nr s m
  Keeps-IsFound nr s m k = record {
    get =
        λ seg lt. get_segment_state_lem s.committed s.pending m k.updating seg (rw k.same_size lt);
    restart = λ f left seg lt.
        IsStable-found m.nr_main_segments (bi_epoch m) s.committed m k.updating.stable f left seg
          (rw k.same_size lt);
  }

  -- From an image that stands for committed and pending states of its segments, a sequence of calls
  -- on segments in range (begin, set, commit and the atomic set) ends the process exactly when a
  -- state is set outside an update, and otherwise returns; every read of a state, and every restart
  -- after a crash between two calls, then finds the committed state that the calls lead to.
  pub calls-IsFound :
      (nr : ℕ) (s : States) (m : Image S) (todo : List Call)
      → All (IsValidCall nr) todo
      → Keeps nr s m
      → Both (IsFound nr) (promises s todo) (calls m todo)
  calls-IsFound nr s m todo v k =
      Both-map (Keeps nr) (IsFound nr) (promises s todo) (calls m todo) (Keeps-IsFound nr)
        (calls-Keeps nr s m todo v k)
