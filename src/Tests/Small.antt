-- ===== src/Tests/Small.antt =====
-- The theorems of the shared parts at small inputs.
use libcrpm.Base.{◌/◌, ◌≡◌, ◌&&◌, false, if◌then◌else◌, leb, ltb}
use libcrpm.BitSet.{BitSet, allocate, set, test, clear_region}
use libcrpm.BitSet.Laws.{test-clear_region}

abbrev bits : BitSet
bits = set (allocate 100) 70

test-clear_region_example :
    test (clear_region bits 0 100) 70
    ≡ (if leb (0 / 64) (70 / 64) && ltb (70 / 64) (100 / 64) then false else test bits 70)
test-clear_region_example = test-clear_region bits 0 100 70
