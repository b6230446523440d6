-- ===== src/Tests/Lmc.antt =====
-- The theorems of LmcEngine at an engine of two blocks.
use libcrpm.Base.{ℕ, ◌<◌, ◌≡◌, refl, Bool, true, false, [], ◌==◌, if◌then◌else◌, arith}
use libcrpm.Pm.Word.{word_on_medium}
use libcrpm.Pm.Region.{on_medium}
use libcrpm.Pm.Run.{AtEachPoint, AtSomePoint}
use libcrpm.Buckets.{no_action}
use libcrpm.Lmc.Defs.{LmcEngine, advance_instructions, last_epoch}
use libcrpm.Lmc.Hook.{shadow_instructions}
use libcrpm.Lmc.Recover.{Medium}
use libcrpm.Lmc.Safety.{Leaves, IsSafe, Covers, restored, shadow_instructions-IsSafe}
use libcrpm.Lmc.Committing.{IsEither, torn_medium, advance-crash_safe, advance-IsTorn}

abbrev content : ℕ → ℕ
content i = i

-- No block is tagged.
abbrev engine : ℕ → LmcEngine ℕ
engine tag = record {
  has_snapshot = true;
  nr_blocks = 2;
  next_thread_id = 0;
  checkpoint_traffic = 0;
  attributes = word_on_medium 16;
  current_epoch = word_on_medium 255;
  tagmap = λ i. word_on_medium tag;
  working = on_medium content;
  shadow = on_medium (λ i. 0);
  segment_locks = λ l. false;
  flush_blocks = λ tid. [];
  flush_mode = no_action;
  address_first = 4096;
}

engine-Covers : Covers content (engine 3)
engine-Covers = record {
  epoch_sure = refl;
  logged = λ i t lt m tagged. absurd (ground (arith, m, tagged));
  kept = λ i t lt m other. (refl, refl);
}

shadow_instructions-IsSafe_example :
    AtEachPoint (IsSafe content) (shadow_instructions 255 1) (engine 3)
shadow_instructions-IsSafe_example =
    shadow_instructions-IsSafe content (engine 3) 1 engine-Covers (omega arith) refl refl

-- In epoch 7 block 0 was shadowed and then written.
abbrev logged : LmcEngine ℕ
logged = record (engine 3) {
  current_epoch = word_on_medium 7;
  tagmap = λ i. word_on_medium (if i == 0 then 7 else 3);
  working = on_medium (λ i. if i == 0 then 100 else i);
  shadow = on_medium content;
}

logged-Covers : Covers content logged
logged-Covers = record {
  epoch_sure = refl;
  logged = λ i t lt m tagged. (refl, refl);
  kept = λ i t lt m other. (ground (arith, m, other), refl);
}

advance-crash_safe_example :
    AtEachPoint (IsEither content (λ i. if i == 0 then 100 else i)) (advance_instructions 7) logged
advance-crash_safe_example =
    advance-crash_safe content logged logged-Covers (λ i lt. refl) (λ i lt. refl)
      (λ i lt. ground arith) (omega arith)

-- Block 0 lost its tag and block 1 did not.
abbrev first_block : ℕ → Bool
first_block i = i == 0

advance-IsTorn_example :
    AtSomePoint
      (λ g. Leaves g (torn_medium (engine 255) first_block))
      (advance_instructions 255)
      (engine 255)
    × ((i : ℕ)
        → i < 2
        → ((engine 255).tagmap i).value ≡ last_epoch
        → restored (torn_medium (engine 255) first_block) i ≡ (if first_block i then i else 0))
advance-IsTorn_example = advance-IsTorn (engine 255) first_block refl

abbrev file : Medium ℕ
file = record {
  nr_blocks = 2;
  attributes = 16;
  current_epoch = 7;
  tagmap = λ i. if i == 0 then 7 else 3;
  working = content;
  shadow = λ i. 9;
}
