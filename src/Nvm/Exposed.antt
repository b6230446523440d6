-- ===== src/Nvm/Exposed.antt =====
-- What a crash finds just after a segment that a restart takes from its back segment has got a new one.
use libcrpm.Base.{ℕ, ◌<◌, ◌≡◌, refl, ◌∙◌, ap, ==_refl}
use libcrpm.Constants.{null_segment_index}
use libcrpm.Pm.Word
use libcrpm.Pm.Word.{May-sure}
use libcrpm.Pm.Region
use libcrpm.Pm.Region.{clean}
use libcrpm.Image.Defs.{Image, ss_back, bi_epoch}
use libcrpm.Image.Defs
use libcrpm.Image.Crash.{found_state, IsStable-found}
use libcrpm.Image.Update.{IsUpdating}
use libcrpm.Image.Binding.{bind_back_segment}
use libcrpm.Nvm.Binding.{bind-IsUpdating}
use libcrpm.Nvm.Protection.{Medium, Leaves}

module _ {B : Type 0} where
  -- The recovery copies the back segment over the segment, whatever the back segment holds.
  pub record IsExposed (m : Image B) (seg back : ℕ) (d : Medium B) : Type 0 where
    pub state : found_state d.states seg ≡ ss_back
    pub owner : d.back_to_main back ≡ seg
    pub content : (x : ℕ) → m.back_memory.status x ≡ clean → d.back_memory x ≡ m.back_memory.view x

  -- If the states of the segments are on the medium, a segment in range has the state SS_Back and
  -- no back segment, and a back segment is bound to it, then whatever a crash leaves says that the
  -- segment is to be taken from that back segment, whose blocks that had reached the medium hold
  -- what they held before the binding.
  pub bind-IsExposed :
      (old : ℕ → ℕ) (m : Image B) (seg back : ℕ) (d : Medium B)
      → IsUpdating old old m
      → seg < m.nr_main_segments
      → old seg ≡ ss_back
      → m.main_to_back seg ≡ null_segment_index
      → Leaves (bind_back_segment m seg back) d
      → IsExposed m seg back d
  unfolding bind_back_segment Defs.store_fence Region.fence Word.fence Word.nt_store
  bind-IsExposed old m seg back d u lt is_back free left = record {
    state =
        IsStable-found m.nr_main_segments (bi_epoch m) old (bind_back_segment m seg back)
          (bind-IsUpdating old old m seg back u).stable d.states left.states seg lt
        ∙ is_back;
    owner =
        May-sure ((bind_back_segment m seg back).back_to_main back) (d.back_to_main back)
          (rw (==_refl back) refl) (left.back_to_main back)
        ∙ rw (==_refl back) refl;
    content = λ x h. left.back_memory x (ap Region.settled h);
  }
