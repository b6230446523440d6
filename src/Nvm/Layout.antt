-- ===== src/Nvm/Layout.antt =====
-- What NvmInstEngine::commit_layout_state commits, and what a checkpoint by WBINVD leaves of the dirty segments.
use libcrpm.Base.{
  ℕ, ◌+◌, ◌*◌, ◌/◌, ◌<◌, ◌≡◌, refl, ◌∙◌, subst, true, ◌&&◌, List, [], ◌∷◌, ltb, if◌then◌else◌,
  update, contains, Returns, Returns-bind, Returns-map, arith,
}
use libcrpm.BitSet
use libcrpm.BitSet.{BitSet}
use libcrpm.BitSet.Words.{IsWide, scan_words_lem}
use libcrpm.Buckets.{FlushMode, wbinvd}
use libcrpm.Image.Defs.{Image, begin_segment_state_update, write_slot}
use libcrpm.Image.Update.{IsUpdating, write_slot-IsUpdating, write_slot_rest, begin-IsUpdating}
use libcrpm.Image.Committed.{commit-IsUpdating}
use libcrpm.Image.Calls.{set_open}
use libcrpm.Nvm.Defs.{NvmInstEngine}
use libcrpm.Nvm.Checkpoint.{set_states, layout_segments, commit_layout_state}

-- The states after some segments got a new one.
abbrev pub set_all : List ℕ → ℕ → (ℕ → ℕ) → ℕ → ℕ
set_all segs state states i = if contains segs i then state else states i

module _ {B : Type 0} where
  pub record IsSetting (old new : ℕ → ℕ) (nr : ℕ) (m : Image B) : Type 0 where
    pub updating : IsUpdating old new m
    pub size : m.nr_main_segments ≡ nr
    pub opened : m.segment_state_update ≡ true

  IsUpdating-ext :
      (old new new' : ℕ → ℕ) (m : Image B)
      → ((i : ℕ) → new i ≡ new' i)
      → IsUpdating old new m
      → IsUpdating old new' m
  IsUpdating-ext old new new' m same u = subst (λ f. IsUpdating old f m) (λ j. λ i. same i j) u

  pub set_states-IsSetting :
      (segs : List ℕ) (state nr : ℕ) (old new : ℕ → ℕ) (m : Image B)
      → ((i : ℕ) → contains segs i ≡ true → i < nr)
      → IsSetting old new nr m
      → Returns (IsSetting old (set_all segs state new) nr) (set_states segs state m)
  unfolding set_states
  set_states-IsSetting [] state nr old new m within h = h
  set_states-IsSetting (seg ∷ segs) state nr old new m within h =
      rw (set_open m seg state h.opened) (
        Returns-map _ _ (set_states segs state (write_slot m seg state))
          (λ g k. record {
            updating = IsUpdating-ext old _ _ g (λ i. ground arith) k.updating;
            size = k.size;
            opened = k.opened;
          })
          (set_states-IsSetting segs state nr old (update new seg state) (write_slot m seg state)
            (λ i c. within i (ground (arith, c)))
            (record {
              updating =
                  write_slot-IsUpdating old new m seg state (rw h.size (within seg (ground arith)))
                    h.updating;
              size = (write_slot_rest m seg state).0 ∙ h.size;
              opened = (write_slot_rest m seg state).1 ∙ h.opened;
            })))

  -- The committed states after `commit_layout_state`; nothing else of the engine changes.
  pub record HasLayout (e : NvmInstEngine B) (states : ℕ → ℕ) (g : NvmInstEngine B) : Type 0 where
    pub updating : IsUpdating states states g.image
    pub size : g.image.nr_main_segments ≡ e.image.nr_main_segments
    pub same : g ≡ record e { image = g.image }

  pub begin-IsSetting :
      (old : ℕ → ℕ) (m : Image B)
      → IsUpdating old old m
      → IsSetting old old m.nr_main_segments (begin_segment_state_update m)
  unfolding begin_segment_state_update
  begin-IsSetting old m u = record {
    updating = begin-IsUpdating old old m u;
    size = refl;
    opened = refl;
  }

  pub commit_layout_state-HasLayout :
      (mode : FlushMode) (state : ℕ) (old : ℕ → ℕ) (e : NvmInstEngine B)
      → IsUpdating old old e.image
      → ((i : ℕ) → contains (layout_segments mode e) i ≡ true → i < e.image.nr_main_segments)
      → Returns
          (HasLayout e (set_all (layout_segments mode e) state old))
          (commit_layout_state mode state e)
  unfolding commit_layout_state
  commit_layout_state-HasLayout mode state old e u within =
      let segs = layout_segments mode e in
      let states = set_all segs state old in
      Returns-bind (IsSetting old states e.image.nr_main_segments) (HasLayout e states)
        (set_states segs state (begin_segment_state_update e.image)) _
        (set_states-IsSetting segs state e.image.nr_main_segments old old
          (begin_segment_state_update e.image) within (begin-IsSetting old e.image u))
        (λ set h. record {
          updating = (commit-IsUpdating old states set h.updating).0;
          size = (commit-IsUpdating old states set h.updating).1 ∙ h.size;
          same = refl;
        })

  -- With the whole cache, the segments are those whose dirty bit is set.
  pub wbinvd_segments :
      (e : NvmInstEngine B) (i : ℕ)
      → IsWide e.segment_dirty
      → contains (layout_segments wbinvd e) i
        ≡ (ltb (i / 64 * 64) e.nr_segments && BitSet.test e.segment_dirty i)
  unfolding layout_segments
  wbinvd_segments e i wide =
      scan_words_lem e.segment_dirty wide (e.nr_segments / 64 + 1) 0 e.nr_segments i (omega arith)
        (omega arith)
      ∙ ground arith
