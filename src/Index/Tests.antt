-- ===== src/Index/Tests.antt =====
-- Runs of index.rs on a grid of twenty lines, ten of them on the screen, and the theorem at it.
use cu_tty.Prelude.{◌≡◌, refl, arith}
use cu_tty.Prelude.Int.{pos, negsuc, ◌+ℤ◌, ◌-ℤ◌}
use cu_tty.Prelude.Machine.{wrap_i32}
use cu_tty.Index.{
  Point, Dimensions, grid, cursor, add, sub, grid_clamp, add_line, sub_line, topmost_line,
  bottommost_line, last_column, history_size,
}
use cu_tty.Index.Motion.{IsGrid, InGrid, place, add_lem}
use cu_tty.Index.Back.{sub_lem}

abbrev screen : Dimensions
screen = record { total_lines = 20; screen_lines = 10; columns = 5 }

abbrev at : Point
at = record { line = negsuc 1; column = 3 }

screen-IsGrid : IsGrid screen
screen-IsGrid = record {
  has_column = omega arith;
  has_line = omega arith;
  screen_le = omega arith;
  few = omega arith;
}

add_lem_example : (place screen (add screen grid at 9) ≡ 52) × InGrid screen (add screen grid at 9)
unfolding ◌+ℤ◌
add_lem_example =
    add_lem screen screen-IsGrid at 9 (omega arith, omega arith, omega arith) (omega arith)

add_crosses_lines : add screen grid at 9 ≡ record { line = pos 0; column = 2 }
unfolding add add_line grid_clamp topmost_line bottommost_line last_column history_size wrap_i32
    ◌+ℤ◌ ◌-ℤ◌
add_crosses_lines = refl

sub_stops_at_the_screen :
    sub screen cursor (record { line = pos 0; column = 3 }) 4 ≡ record { line = pos 0; column = 0 }
unfolding sub sub_line grid_clamp topmost_line bottommost_line last_column history_size wrap_i32
    ◌+ℤ◌ ◌-ℤ◌
sub_stops_at_the_screen = refl

sub_lem_example :
    (place screen (sub screen grid at 12) ≡ 31) × InGrid screen (sub screen grid at 12)
unfolding ◌+ℤ◌
sub_lem_example =
    sub_lem screen screen-IsGrid at 12 (omega arith, omega arith, omega arith) (omega arith)
