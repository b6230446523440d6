-- ===== src/Image/Crash.antt =====
-- What a crash leaves of the states of the segments while they are updated.
use libcrpm.Base.{ℕ, zero, suc, ◌+◌, ◌%◌, ◌<◌, ◌≡◌, ◌≢◌, inl, inr, ◌∙◌, [], arith, Bool-cases}
use libcrpm.Pm.Word.{Word, May, May-sure}
use libcrpm.Pm.Word
use libcrpm.Pm.Run.{AtEachPoint}
use libcrpm.Image.Defs.{Image, store_fence, flush_round, copy_round, rounds}

-- The epoch and the two copies of the states in the file after a crash, and the states that the next
-- `Open` finds.
pub record StateMedium : Type 0 where
  pub committed_epoch : ℕ
  pub segment_state : ℕ → ℕ → ℕ

abbrev pub found_state : StateMedium → ℕ → ℕ
found_state f segment_id = f.segment_state (f.committed_epoch % 2) segment_id

module _ {S : Type 0} where
  pub record LeavesStates (m : Image S) (f : StateMedium) : Type 0 where
    pub committed_epoch : May m.committed_epoch f.committed_epoch
    pub segment_state : (bi seg : ℕ) → May (m.segment_state bi seg) (f.segment_state bi seg)

  -- The copy `bi` is surely on the medium, with the states `states`.
  abbrev pub HasCopy : ℕ → ℕ → (ℕ → ℕ) → Image S → Type 0
  HasCopy nr bi states m =
      (seg : ℕ)
      → seg < nr
      → ((m.segment_state bi seg).value ≡ states seg) × ((m.segment_state bi seg).older ≡ [])

  -- Whatever a crash leaves, the next `Open` finds these states.
  pub record IsStable (nr bi : ℕ) (states : ℕ → ℕ) (m : Image S) : Type 0 where
    pub epoch : m.committed_epoch.value % 2 ≡ bi
    pub epoch_sure : m.committed_epoch.older ≡ []
    pub copy : HasCopy nr bi states m

  pub IsStable-found :
      (nr bi : ℕ) (states : ℕ → ℕ) (m : Image S)
      → IsStable nr bi states m
      → (f : StateMedium) → LeavesStates m f
      → (seg : ℕ) → seg < nr
      → found_state f seg ≡ states seg
  IsStable-found nr bi states m s f left seg lt =
      let e : f.committed_epoch ≡ m.committed_epoch.value =
        May-sure m.committed_epoch f.committed_epoch s.epoch_sure left.committed_epoch in
      rw (e, s.epoch)
        (May-sure (m.segment_state bi seg) (f.segment_state bi seg) (s.copy seg lt).1
            (left.segment_state bi seg)
          ∙ (s.copy seg lt).0)

  pub store_fence-IsStable :
      (nr bi : ℕ) (states : ℕ → ℕ) (m : Image S)
      → IsStable nr bi states m
      → IsStable nr bi states (store_fence m)
  unfolding store_fence Word.fence
  store_fence-IsStable nr bi states m s = record {
    epoch = s.epoch;
    epoch_sure = ground (arith, s.epoch_sure);
    copy = λ seg lt. ((s.copy seg lt).0, ground (arith, s.copy seg lt));
  }

  pub flush_round-IsStable :
      (nr bi other k : ℕ) (states : ℕ → ℕ) (m : Image S)
      → other ≢ bi
      → IsStable nr bi states m
      → IsStable nr bi states (flush_round other k m)
  unfolding flush_round
  flush_round-IsStable nr bi other k states m ne s = elim (Bool-cases (m.segment_state_dirty k)) [
    | inl on ↦ rw on (record {
      epoch = s.epoch;
      epoch_sure = s.epoch_sure;
      copy = λ seg lt. ground (arith, s.copy seg lt);
    })
    | inr off ↦ rw off s
  ]

  pub copy_round-IsStable :
      (nr bi k : ℕ) (states : ℕ → ℕ) (m : Image S)
      → IsStable nr bi states m
      → IsStable nr bi states (copy_round bi k m)
  unfolding copy_round
  copy_round-IsStable nr bi k states m s = elim (Bool-cases (m.segment_state_dirty k)) [
    | inl on ↦ rw on (record {
      epoch = s.epoch;
      epoch_sure = s.epoch_sure;
      copy = λ seg lt. ground (arith, s.copy seg lt);
    })
    | inr off ↦ rw off s
  ]

  -- What each round keeps holds at each point of the loop.
  pub rounds-keep :
      (P : Image S → Type 0) (round : ℕ → Image S → Image S)
      → ((k : ℕ) (m : Image S) → P m → P (round k m))
      → (n k : ℕ) (m : Image S) → P m
      → AtEachPoint P (rounds round n k) m
  rounds-keep P round keep zero k m h = h
  rounds-keep P round keep (suc n) k m h =
      (h, rounds-keep P round keep n (k + 1) (round k m) (keep k m h))
