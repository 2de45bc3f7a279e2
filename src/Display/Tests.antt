-- ===== src/Display/Tests.antt =====
-- Runs of cutty/src/display/damage.rs on a window of 20 by 5 cells, and the theorems at it.
use cu_tty.Prelude.{
  ℕ, ◌≡◌, refl, true, false, some, none, [], ◌∷◌, get_elem?, All, arith, Returns, length, ◌⊎◌,
}
use cu_tty.Prelude.Int.{pos, negsuc, ◌+ℤ◌, ◌-ℤ◌}
use cu_tty.Prelude.Machine.{wrap_i32}
use cu_tty.Term.Damage.{LineDamageBounds, is_damaged}
use cu_tty.Display.{SizeInfo}
use cu_tty.Display.Frames.{
  DamageTracker, FrameDamage, add_viewport_rect, damage_y_to_viewport_y, shape_frame_damage,
}
use cu_tty.Display.Boxes.{IsWindow}
use cu_tty.Display.Covers.{AtSome, Redraws, IsShown, shape_frame_damage_lem}
use cu_tty.Display.Flips.{damage_y_to_viewport_y-add_viewport_rect}

abbrev size : SizeInfo
size = record {
  width = 210;
  height = 110;
  cell_width = 10;
  cell_height = 20;
  padding_x = 5;
  padding_y = 5;
  screen_lines = 5;
  columns = 20;
}

size-IsWindow : IsWindow size
size-IsWindow = record {
  few_columns = omega arith;
  few_lines = omega arith;
  small = (omega arith, omega arith);
  cell = (omega arith, omega arith);
  cell_tall = (omega arith, omega arith);
}

-- The lines 0, 1 and 4 are damaged.
abbrev frame : FrameDamage
frame = record {
  full = false;
  lines =
      record { line = 0; left = 2; right = 4 }
      ∷ record { line = 1; left = 3; right = 19 }
      ∷ record { line = 2; left = 20; right = 0 }
      ∷ record { line = 3; left = 20; right = 0 }
      ∷ record { line = 4; left = 0; right = 0 }
      ∷ [];
  rects = record { x = negsuc 4; y = pos 0; width = pos 10; height = pos 20 } ∷ [];
}

abbrev tracker : DamageTracker
tracker = record {
  old_vi_cursor = none;
  old_selection = none;
  debug = false;
  frame = frame;
  next_frame = frame;
  screen_lines = 5;
  columns = 20;
}

shape_frame_damage_lem_example :
    ((b : LineDamageBounds) (k : ℕ)
      → get_elem? frame.lines k ≡ some b
      → is_damaged b ≡ true
      → AtSome (Redraws size b) (shape_frame_damage size tracker))
    × All (λ r. IsShown size r ⊎ AtSome (λ q. q ≡ r) frame.rects) (shape_frame_damage size tracker)
shape_frame_damage_lem_example = shape_frame_damage_lem size size-IsWindow tracker (
  (omega arith, omega arith),
  (
    (omega arith, omega arith),
    ((omega arith, omega arith), ((omega arith, omega arith), ((omega arith, omega arith), tt))),
  ),
)

-- The two damaged lines at the top are one rectangle, and the rectangle left of the window is another.
merges_lines : length (shape_frame_damage size tracker) ≡ 3
unfolding shape_frame_damage wrap_i32 ◌+ℤ◌ ◌-ℤ◌
merges_lines = refl

damage_y_to_viewport_y-add_viewport_rect_example :
    Returns
      (λ rect. (damage_y_to_viewport_y (pos 110) rect ≡ pos 7) × (rect.height ≡ pos 20))
      (get_elem? (add_viewport_rect (pos 110) (pos 0) (pos 7) (pos 210) (pos 20) frame).rects 1)
damage_y_to_viewport_y-add_viewport_rect_example =
    damage_y_to_viewport_y-add_viewport_rect (pos 110) (pos 0) (pos 7) (pos 210) (pos 20) frame
      (omega arith, omega arith)
