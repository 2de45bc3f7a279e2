-- ===== src/Display.antt =====
-- The sizes of cutty/src/display/mod.rs and the arithmetic of `u32`, with its wrap-around.
pub mod Rects
pub mod Frames
pub mod Boxes
pub mod Merge
pub mod Covers
pub mod Flips
mod Tests
use cu_tty.Prelude.{ℕ, ◌+◌, ◌-◌, ◌*◌, ◌%◌, ◌^◌}

-- `SizeInfo<u32>`, in pixels.
pub record SizeInfo : Type 0 where
  pub width : ℕ
  pub height : ℕ
  pub cell_width : ℕ
  pub cell_height : ℕ
  pub padding_x : ℕ
  pub padding_y : ℕ
  pub screen_lines : ℕ
  pub columns : ℕ

-- `n as u32`
abbrev pub as_u32 : ℕ → ℕ
as_u32 n = n % 2 ^ 32

abbrev pub add_u32 : ℕ → ℕ → ℕ
add_u32 a b = (a + b) % 2 ^ 32

abbrev pub sub_u32 : ℕ → ℕ → ℕ
sub_u32 a b = (a + 2 ^ 32 - b) % 2 ^ 32

abbrev pub mul_u32 : ℕ → ℕ → ℕ
mul_u32 a b = (a * b) % 2 ^ 32
