-- ===== src/Image/Binding.antt =====
-- CheckpointImage::bind_back_segment, and the table main_to_back that Open builds.
use libcrpm.Base.{ℕ, ◌<◌, ◌≤◌, ◌≡◌, ◌≢◌, ◌==◌, if◌then◌else◌, update, arith}
use libcrpm.Constants.{null_segment_index}
use libcrpm.Pm.Word.{Word}
use libcrpm.Pm.Word
use libcrpm.Pm.WordArray.{nt_store_at}
use libcrpm.Image.Defs.{Image, store_fence}

module _ {S : Type 0} where
  unfoldable pub bind_back_segment : Image S → ℕ → ℕ → Image S
  bind_back_segment m main_id back_id =
      let old_main = (m.back_to_main back_id).value in
      let unbound =
        if old_main == null_segment_index
        then m.main_to_back
        else update m.main_to_back old_main null_segment_index in
      store_fence (record m {
        back_to_main = nt_store_at m.back_to_main back_id main_id;
        main_to_back = update unbound main_id back_id;
      })

  -- The two tables are inverse to each other, where they are not null.
  pub record IsBound (m : Image S) : Type 0 where
    pub forward :
        (i b : ℕ)
        → i < m.nr_main_segments
        → m.main_to_back i ≡ b
        → b ≢ null_segment_index
        → (b < m.nr_back_segments) × ((m.back_to_main b).value ≡ i)
    pub backward :
        (b i : ℕ)
        → b < m.nr_back_segments
        → (m.back_to_main b).value ≡ i
        → i ≢ null_segment_index
        → (i < m.nr_main_segments) × (m.main_to_back i ≡ b)

  -- In an image whose tables back_to_main and main_to_back are inverse to each other where not
  -- null, binding a back segment to a main segment that has none, both in range and the numbers of
  -- segments at most the null index, keeps the tables inverse to each other and gives the main
  -- segment that back segment.
  pub bind-IsBound :
      (m : Image S) (main_id back_id : ℕ)
      → main_id < m.nr_main_segments
      → back_id < m.nr_back_segments
      → m.nr_main_segments ≤ null_segment_index
      → m.nr_back_segments ≤ null_segment_index
      → m.main_to_back main_id ≡ null_segment_index
      → IsBound m
      → IsBound (bind_back_segment m main_id back_id)
        × ((bind_back_segment m main_id back_id).main_to_back main_id ≡ back_id)
  unfolding bind_back_segment store_fence Word.fence Word.nt_store
  bind-IsBound m main_id back_id lt_main lt_back few_main few_back free h = (
    record {
      forward = λ i b lt at some. ground (arith, h.forward i b lt);
      backward = λ b i lt at some.
          ground
            (arith, h.backward b i lt, h.backward back_id (m.back_to_main back_id).value lt_back);
    },
    ground arith,
  )
