-- ===== src/Constants.antt =====
-- The constants of runtime/include/internal/common.h, at the default shifts of the build.
use libcrpm.Base.{ℕ, ◌-◌, ◌/◌, ◌^◌}

abbrev pub cache_line_shift : ℕ
cache_line_shift = 6

abbrev pub cache_line_size : ℕ
cache_line_size = 2 ^ cache_line_shift

abbrev pub huge_page_size : ℕ
huge_page_size = 2 ^ 21

-- BLOCK_SHIFT and SEGMENT_SHIFT.
abbrev pub block_shift : ℕ
block_shift = 8

abbrev pub block_size : ℕ
block_size = 2 ^ block_shift

abbrev pub segment_shift : ℕ
segment_shift = 21

abbrev pub segment_size : ℕ
segment_size = 2 ^ segment_shift

abbrev pub parity_size : ℕ
parity_size = 2 ^ 14

abbrev pub max_flush_blocks : ℕ
max_flush_blocks = 2 ^ 25 / 2 ^ block_shift

abbrev pub blocks_per_segment : ℕ
blocks_per_segment = segment_size / block_size

abbrev pub min_container_size : ℕ
min_container_size = 2 ^ 24

abbrev pub max_threads : ℕ
max_threads = 256

abbrev pub segment_lock_count : ℕ
segment_lock_count = 1024

abbrev pub attribute_has_snapshot : ℕ
attribute_has_snapshot = 0x10

abbrev pub null_segment_index : ℕ
null_segment_index = 2 ^ 64 - 1
