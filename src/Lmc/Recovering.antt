-- ===== src/Lmc/Recovering.antt =====
-- The recovery of LmcEngine.
use libcrpm.Base.{ℕ, ◌+◌, ◌<◌, ◌≤◌, ◌≡◌, ◌==◌, if◌then◌else◌, leb, ltb, ◌&&◌}
use libcrpm.Pm.Word.{Word, May}
use libcrpm.Pm.Word
use libcrpm.Pm.Region.{Region, clean}
use libcrpm.Pm.Region
use libcrpm.Lmc.Defs.{LmcEngine}
use libcrpm.Lmc.Recover.{Medium, recover_loop, mapped}

module _ {B : Type 0} where
  -- What the loop leaves: the blocks that it has passed are copied if they have the tag.
  record HasCopied (e : LmcEngine B) (i n : ℕ) (g : LmcEngine B) : Type 0 where
    content :
        (x : ℕ)
        → g.working.view x ≡ (
            if leb i x && ltb x (i + n) && ((e.tagmap x).value == e.current_epoch.value)
            then e.shadow.view x
            else e.working.view x)
    settles :
        (x : ℕ)
        → Region.settled (e.working.status x) ≡ clean
        → Region.settled (g.working.status x) ≡ clean
    same : g ≡ record e { working = g.working }

  module _ (d : Medium B) (address_first : ℕ)
      (tags : (i : ℕ) → i < d.nr_blocks → d.tagmap i ≤ d.current_epoch) where
    abbrev looped : LmcEngine B
    looped = recover_loop d.nr_blocks 0 (mapped d address_first)
