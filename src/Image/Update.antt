-- ===== src/Image/Update.antt =====
-- Updates of the states of the segments: what is committed and what is pending.
use libcrpm.Base.{
  ℕ, ◌-◌, ◌/◌, ◌<◌, ◌≡◌, ◌⊎◌, inl, inr, refl, true, false, [], ◌==◌, update, arith, Bool-cases,
  ==_refl,
}
use libcrpm.Pm.Word.{Word}
use libcrpm.Pm.Word
use libcrpm.Image.Defs.{Image, bi_epoch, get_segment_state, begin_segment_state_update, write_slot}
use libcrpm.Image.Crash.{IsStable}

-- The next fence puts the word on the medium, or it is there already.
abbrev pub Reaches : Word → Type 0
Reaches w = (w.in_flight ≡ true) ⊎ (w.older ≡ [])

pub Reaches-fence : (w : Word) → Reaches w → (Word.fence w).older ≡ []
unfolding Word.fence
Reaches-fence w (inl flying) = rw flying refl
Reaches-fence w (inr sure) = elim (Bool-cases w.in_flight) [
  | inl flying ↦ rw flying refl
  | inr idle ↦ rw idle sure
]

module _ {S : Type 0} where
  -- The current copy is surely on the medium and holds `old`; the other holds `new`, and is marked,
  -- line by line, where a commit has to flush it; lines that are not marked agree.
  pub record IsUpdating (old new : ℕ → ℕ) (m : Image S) : Type 0 where
    pub stable : IsStable m.nr_main_segments (bi_epoch m) old m
    pub pending :
        (seg : ℕ)
        → seg < m.nr_main_segments
        → (m.segment_state (1 - bi_epoch m) seg).value ≡ new seg
    pub marked :
        (seg : ℕ)
        → seg < m.nr_main_segments
        → (m.segment_state_dirty (seg / 64) ≡ true)
          ⊎ (Reaches (m.segment_state (1 - bi_epoch m) seg) × (old seg ≡ new seg))

  -- The states that a call reads are the committed ones.
  pub get_segment_state_lem :
      (old new : ℕ → ℕ) (m : Image S)
      → IsUpdating old new m
      → (seg : ℕ) → seg < m.nr_main_segments
      → get_segment_state m seg ≡ old seg
  unfolding get_segment_state
  get_segment_state_lem old new m u seg lt = (u.stable.copy seg lt).0

  pub write_slot_rest :
      (m : Image S) (seg state : ℕ)
      → ((write_slot m seg state).nr_main_segments ≡ m.nr_main_segments)
        × ((write_slot m seg state).segment_state_update ≡ m.segment_state_update)
  unfolding write_slot
  write_slot_rest m seg state =
      elim (Bool-cases ((m.segment_state (1 - bi_epoch m) seg).value == state)) [
        | inl same ↦ rw same (refl, refl)
        | inr other ↦ rw other (refl, refl)
      ]

  -- A call of `set_segment_state` changes the pending state of its segment and no committed state.
  pub write_slot-IsUpdating :
      (old new : ℕ → ℕ) (m : Image S) (seg state : ℕ)
      → seg < m.nr_main_segments
      → IsUpdating old new m
      → IsUpdating old (update new seg state) (write_slot m seg state)
  unfolding write_slot Word.store
  write_slot-IsUpdating old new m seg state lt u =
      elim (Bool-cases ((m.segment_state (1 - bi_epoch m) seg).value == state)) [
        | inl same ↦ rw same (record {
          stable = u.stable;
          pending = λ c in_range. ground (arith, u.pending c in_range, u.pending seg lt);
          marked = λ c in_range. elim (u.marked c in_range) [
            | inl on ↦ inl on
            | inr (reaches, agrees) ↦ inr (reaches, ground (arith, u.pending c in_range))
          ];
        })
        | inr other ↦ rw other (record {
          stable = record {
            epoch = refl;
            epoch_sure = u.stable.epoch_sure;
            copy = λ c in_range. ground (arith, u.stable.copy c in_range);
          };
          pending = λ c in_range. ground (arith, u.pending c in_range);
          marked = λ c in_range. elim (Bool-cases (seg / 64 == c / 64)) [
            | inl same_line ↦ inl (ground arith)
            | inr other_line ↦
                let differs : (seg == c) ≡ false = ground arith in
                elim (u.marked c in_range) [
                  | inl on ↦ inl (rw other_line on)
                  | inr (reaches, agrees) ↦
                      inr (rw (==_refl (1 - bi_epoch m), differs) reaches, rw differs agrees)
                ]
          ];
        })
      ]

  pub begin-IsUpdating :
      (old new : ℕ → ℕ) (m : Image S)
      → IsUpdating old new m
      → IsUpdating old new (begin_segment_state_update m)
  unfolding begin_segment_state_update
  begin-IsUpdating old new m u = record {
    stable = record { epoch = refl; epoch_sure = u.stable.epoch_sure; copy = u.stable.copy };
    pending = u.pending;
    marked = u.marked;
  }
