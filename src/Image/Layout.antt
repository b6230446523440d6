-- ===== src/Image/Layout.antt =====
-- The layout of the file of a CheckpointImage: CheckpointImage::CalculateHeaderSize, CalculateFileSize,
-- and the offsets that Open computes.
use libcrpm.Base.{ℕ, ◌+◌, ◌*◌, ◌^◌, ◌≤◌, ◌≡◌, refl, ap, arith}
use libcrpm.Constants.{cache_line_size, huge_page_size, segment_size, parity_size}
use libcrpm.Align.{round_up}
use libcrpm.Align.Laws.{round_up_lem}

-- sizeof(Header): two numbers of 4 bytes and four of 8.
abbrev pub header_struct_size : ℕ
header_struct_size = 40

unfoldable pub calculate_header_size : ℕ → ℕ → ℕ
calculate_header_size nr_main nr_back =
    let header_size =
      round_up header_struct_size cache_line_size
      + round_up nr_main cache_line_size * 2
      + round_up (8 * nr_back) cache_line_size in
    round_up header_size huge_page_size * 2

unfoldable pub calculate_file_size : ℕ → ℕ → ℕ
calculate_file_size nr_main nr_back =
    calculate_header_size nr_main nr_back
    + (nr_main + nr_back) * segment_size
    + (nr_main + nr_back) * parity_size

-- Where the parts of the file start.
pub record ImageLayout : Type 0 where
  pub segment_state_0 : ℕ
  pub segment_state_1 : ℕ
  pub back_to_main : ℕ
  pub header_size : ℕ
  pub header_shadow : ℕ
  pub main_memory : ℕ
  pub back_memory : ℕ
  pub parity_memory : ℕ

unfoldable pub image_layout : ℕ → ℕ → ImageLayout
image_layout nr_main nr_back =
    let state_0 = round_up header_struct_size cache_line_size in
    let state_1 = state_0 + round_up nr_main cache_line_size in
    let back = state_1 + round_up nr_main cache_line_size in
    let header = round_up (back + round_up (8 * nr_back) cache_line_size) huge_page_size in
    record {
      segment_state_0 = state_0;
      segment_state_1 = state_1;
      back_to_main = back;
      header_size = header;
      header_shadow = header;
      main_memory = header * 2;
      back_memory = header * 2 + nr_main * segment_size;
      parity_memory = header * 2 + nr_main * segment_size + nr_back * segment_size;
    }

-- The parts follow each other without overlap, in a file of the size that `CalculateFileSize` gives.
pub record IsLaidOut (nr_main nr_back : ℕ) (l : ImageLayout) : Type 0 where
  pub header_fits : header_struct_size ≤ l.segment_state_0
  pub states_0_fit : l.segment_state_0 + nr_main ≤ l.segment_state_1
  pub states_1_fit : l.segment_state_1 + nr_main ≤ l.back_to_main
  pub table_fits : l.back_to_main + 8 * nr_back ≤ l.header_size
  pub shadow_fits : l.header_shadow + l.header_size ≡ l.main_memory
  pub main_start : l.main_memory ≡ calculate_header_size nr_main nr_back
  pub main_fits : l.main_memory + nr_main * segment_size ≡ l.back_memory
  pub back_fits : l.back_memory + nr_back * segment_size ≡ l.parity_memory
  pub file_ends :
      l.parity_memory + (nr_main + nr_back) * parity_size ≡ calculate_file_size nr_main nr_back

-- In the file of an image the two copies of the states and the back table lie behind each other
-- within the header, the main memory starts where CalculateHeaderSize says, the back memory and the
-- parity follow it, and a file of the size that CalculateFileSize gives ends with the parity of all
-- segments.
pub image_layout-IsLaidOut :
    (nr_main nr_back : ℕ) → IsLaidOut nr_main nr_back (image_layout nr_main nr_back)
unfolding image_layout calculate_file_size calculate_header_size
image_layout-IsLaidOut n b =
    let states = (round_up_lem n 64 (omega arith)).1 in
    let table = (round_up_lem (8 * b) 64 (omega arith)).1 in
    let whole =
      (round_up_lem (64 + round_up n 64 + round_up n 64 + round_up (8 * b) 64) (2 ^ 21)
        (omega arith)).1 in
    let same : 64 + round_up n 64 + round_up n 64 + round_up (8 * b) 64
        ≡ 64 + round_up n 64 * 2 + round_up (8 * b) 64 =
      omega arith in
    let start = ap (λ t. round_up t (2 ^ 21) * 2) same in
    record {
      header_fits = omega arith;
      states_0_fit = omega (arith, states);
      states_1_fit = omega (arith, states);
      table_fits = omega (arith, table, whole);
      shadow_fits = omega arith;
      main_start = start;
      main_fits = refl;
      back_fits = refl;
      file_ends = omega (arith, start);
    }
