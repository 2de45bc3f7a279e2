-- ===== src/Selection/Tests.antt =====
-- Runs of selection.rs on a grid of ten columns, and the theorems at them.
use cu_tty.Prelude.{ℕ, ◌<◌, ◌≡◌, refl, true, false, none, some, arith}
use cu_tty.Prelude.Int.{ℤ, pos, ◌+ℤ◌, ◌-ℤ◌}
use cu_tty.Prelude.Whenever.{Whenever}
use cu_tty.Prelude.Machine.{wrap_i32}
use cu_tty.Index.{Direction, left, right, Dimensions, bottommost_line}
use cu_tty.Selection.{
  Anchor, SelectionRange, Selection, rotate, rotate_start, rotate_end, range_simple,
  intersects_range, included, excluded, upper, lower,
}
use cu_tty.Selection.Range.{covers}
use cu_tty.Selection.Simple.{selects, drag, range_simple_lem, range_simple_over_line_break}
use cu_tty.Selection.Move.{rotate_region}

abbrev at : ℤ → ℕ → Direction → Anchor
at l c side = record { point = record { line = l; column = c }; side = side }

abbrev screen : Dimensions
screen = record { total_lines = 20; screen_lines = 10; columns = 10 }

-- Dragged upwards, from the left of a cell on line 3 to the right of one on line 1.
abbrev dragged : Selection
dragged = drag (at (pos 3) 0 left) (at (pos 1) 9 right)

abbrev whole : SelectionRange
whole = record {
  start = record { line = pos 2; column = 0 };
  end = record { line = pos 2; column = 9 };
  is_block = false;
}

simple_run : range_simple dragged (upper dragged) (lower dragged) 10 ≡ some whole
unfolding range_simple wrap_i32 ◌+ℤ◌ ◌-ℤ◌
simple_run = refl

range_simple_lem_example :
    (selects
        (range_simple dragged (at (pos 1) 9 right) (at (pos 3) 0 left) 10)
        (record { line = pos 2; column = 4 })
      ≡ true)
    × Whenever
        (λ r.
          (r.start.column < 10) × (covers (at (pos 1) 9 right) (at (pos 3) 0 left) r.start ≡ true))
        (range_simple dragged (at (pos 1) 9 right) (at (pos 3) 0 left) 10)
unfolding ◌+ℤ◌ ◌-ℤ◌
range_simple_lem_example =
    range_simple_lem (at (pos 3) 0 left) (at (pos 1) 9 right) 10
      (record { line = pos 2; column = 4 }) refl (omega arith) (omega arith) (omega arith)
      (omega arith, omega arith) (omega arith, omega arith) refl

range_simple_over_line_break_example :
    (covers (at (pos 1) 9 right) (at (pos 2) 0 left) (record { line = pos 1; column = 9 }) ≡ false)
    × (selects
          (range_simple
            (drag (at (pos 1) 9 right) (at (pos 2) 0 left))
            (at (pos 1) 9 right)
            (at (pos 2) 0 left)
            10)
          (record { line = pos 1; column = 9 })
        ≡ true)
unfolding ◌+ℤ◌ ◌-ℤ◌
range_simple_over_line_break_example =
    range_simple_over_line_break (at (pos 1) 9 right) (at (pos 2) 0 left) 10
      (record { line = pos 1; column = 9 }) (omega arith) (omega arith) (omega arith, omega arith)
      (omega arith, omega arith) refl

rotate_region_example :
    rotate dragged screen (pos 1) (pos 5) (pos 1)
    ≡ some (drag (at (pos 2) 0 left) (at (pos 1) 0 left))
unfolding ◌-ℤ◌ bottommost_line wrap_i32
rotate_region_example =
    rotate_region dragged screen (pos 1) (pos 5) (pos 1) (omega arith) (omega arith) (omega arith)
      (omega arith) (omega arith, omega arith) (omega arith, omega arith) (omega arith, omega arith)

rotate_leaves : rotate dragged screen (pos 1) (pos 5) (pos 3) ≡ none
unfolding rotate rotate_start rotate_end wrap_i32 ◌-ℤ◌ bottommost_line
rotate_leaves = refl

meets_from_below : intersects_range dragged (included (pos 2)) (excluded (pos 9)) ≡ true
unfolding intersects_range wrap_i32 ◌-ℤ◌
meets_from_below = refl
