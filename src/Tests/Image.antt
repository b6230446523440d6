-- ===== src/Tests/Image.antt =====
-- The theorems of the checkpoint image at a new image of 100 main and 50 back segments.
use libcrpm.Base.{
  inr, ◌+◌, Returns, ℕ, ◌-◌, ◌%◌, ◌<◌, ◌≤◌, ◌≡◌, ◌≢◌, ◌==◌, if◌then◌else◌, refl, false, List, [],
  ◌∷◌, update, arith,
}
use libcrpm.Constants.{null_segment_index}
use libcrpm.Pm.Region.{on_medium}
use libcrpm.Pm.Word.{word_on_medium}
use libcrpm.Pm.Run.{AtEachPoint}
use libcrpm.Image.Defs.{
  Image, ss_initial, ss_main, ss_back, bi_epoch, next_epoch, write_slot, get_segment_state,
  begin_segment_state_update, commit_segment_state_update, flush_instructions, publish_instructions,
  copy_instructions, published, atomic_instructions,
}
use libcrpm.Image.Update.{IsUpdating, write_slot-IsUpdating}
use libcrpm.Image.Commit
use libcrpm.Image.Commit.{commit_states-crash_safe, flushed}
use libcrpm.Image.Atomic
use libcrpm.Image.Atomic.{atomic-crash_safe}
use libcrpm.Image.Calls.{
  Call, begins, sets, commits, sets_now, States, promises, calls, Both, IsFound, Keeps,
  calls-IsFound,
}
use libcrpm.Image.Binding.{IsBound}
use libcrpm.Image.Layout.{IsLaidOut, image_layout, image_layout-IsLaidOut}
use libcrpm.Image.Open.{
  ImageMedium, open_image, initialized, link_loop, initialized-IsBound, initialized-Keeps,
}
use libcrpm.Image.Recovery.{recovery}
use libcrpm.Image.Recovered.{IsEqualised, recovery-IsEqualised}
use libcrpm.Image.Stale.{reopened-commit}

abbrev content : ℕ → ℕ
content i = i

abbrev file : ImageMedium ℕ
file = initialized 100 50 content content

abbrev image : Image ℕ
image = open_image file

abbrev initial : ℕ → ℕ
initial i = ss_initial

abbrev new_states : States
new_states = record { is_open = false; committed = initial; pending = initial }

image-Keeps : Keeps 100 new_states image
image-Keeps = initialized-Keeps 100 50 content content

abbrev todo : List Call
todo = begins ∷ sets 70 ss_main ∷ commits ∷ sets_now 3 ss_back ∷ []

calls-IsFound_example : Both (IsFound 100) (promises new_states todo) (calls image todo)
calls-IsFound_example =
    calls-IsFound 100 new_states image todo (tt, (omega arith, (tt, (omega arith, tt)))) image-Keeps

image-size : (70 < image.nr_main_segments) × (60 < image.nr_main_segments)
unfolding open_image initialized
image-size = (omega arith, omega arith)

abbrev changed : Image ℕ
changed = write_slot image 70 ss_main

abbrev wanted : ℕ → ℕ
wanted = update initial 70 ss_main

changed-IsUpdating : IsUpdating initial wanted changed
changed-IsUpdating =
    write_slot-IsUpdating initial initial image 70 ss_main image-size.0 image-Keeps.updating

commit_states-crash_safe_example :
    AtEachPoint
      (Commit.IsEither initial wanted changed changed-IsUpdating)
      (flush_instructions changed)
      changed
    × AtEachPoint
        (Commit.IsEither initial wanted changed changed-IsUpdating)
        (publish_instructions (next_epoch changed))
        (flushed initial wanted changed changed-IsUpdating)
    × AtEachPoint
        (Commit.IsEither initial wanted changed changed-IsUpdating)
        (copy_instructions changed)
        (published changed)
commit_states-crash_safe_example =
    commit_states-crash_safe initial wanted changed changed-IsUpdating

atomic-crash_safe_example :
    AtEachPoint
      (Atomic.IsEither initial initial image image-Keeps.updating 70 ss_back image-size.0)
      (atomic_instructions (bi_epoch image) 70 ss_back)
      image
atomic-crash_safe_example =
    atomic-crash_safe initial initial image image-Keeps.updating 70 ss_back image-size.0

image-IsBound : IsBound image
image-IsBound = initialized-IsBound 100 50 content content (omega arith)

image_free :
    (7 < image.nr_back_segments)
    × (image.nr_main_segments ≤ null_segment_index)
    × (image.nr_back_segments ≤ null_segment_index)
    × (image.main_to_back 60 ≡ null_segment_index)
unfolding open_image initialized link_loop
image_free = (omega arith, omega arith, omega arith, refl)

image_layout-IsLaidOut_example : IsLaidOut 100 50 (image_layout 100 50)
image_layout-IsLaidOut_example = image_layout-IsLaidOut 100 50

in_range :
    (b : ℕ)
    → b < file.nr_back_segments
    → file.back_to_main b ≢ null_segment_index
    → file.back_to_main b < file.nr_main_segments
unfolding initialized
in_range b lt some = omega arith

alone :
    (a b : ℕ)
    → a < file.nr_back_segments
    → b < file.nr_back_segments
    → file.back_to_main a ≡ file.back_to_main b
    → file.back_to_main b ≢ null_segment_index
    → a ≡ b
unfolding initialized
alone a b lt_a lt_b same some = same

-- A file whose epoch names the copy 1, with a state that the copy 0 does not have.
abbrev torn : ImageMedium ℕ
torn = record file {
  committed_epoch = 1;
  segment_state = λ bi i. if bi == 1 then ss_main else ss_initial;
}

reopened-commit_example :
    get_segment_state (commit_segment_state_update (begin_segment_state_update (open_image torn))) 3
    ≡ torn.segment_state (1 - torn.committed_epoch % 2) 3
reopened-commit_example = reopened-commit torn 3

-- An image in which the checkpoint of the segments 1 and 3 is in the main and in the back memory,
-- and the two memories differ.
abbrev mixed : ℕ → ℕ
mixed i = if i == 1 then ss_main else (if i == 3 then ss_back else ss_initial)

abbrev mixed_image : Image ℕ
mixed_image = record image {
  segment_state = λ bi i. word_on_medium (mixed i);
  back_memory = on_medium (λ b. b + 1000);
}

mixed-IsUpdating : IsUpdating mixed mixed mixed_image
unfolding open_image
mixed-IsUpdating = record {
  stable = record { epoch = refl; epoch_sure = refl; copy = λ seg lt. (refl, refl) };
  pending = λ seg lt. refl;
  marked = λ seg lt. inr (inr refl, refl);
}

mixed-IsBound : IsBound mixed_image
mixed-IsBound = record { forward = image-IsBound.forward; backward = image-IsBound.backward }

recovery-IsEqualised_example :
    Returns (IsEqualised mixed ss_back mixed_image) (recovery mixed_image ss_back)
recovery-IsEqualised_example =
    recovery-IsEqualised mixed mixed_image ss_back mixed-IsUpdating mixed-IsBound
