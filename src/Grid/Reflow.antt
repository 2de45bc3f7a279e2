-- ===== src/Grid/Reflow.antt =====
-- cutty_terminal/src/grid/resize.rs, the changes of the number of columns: the flags of the cells and
-- the cursor. A vector of rows that is built up is a list whose head is the vector's last element.
pub mod Grow
pub mod Shrink
pub mod Ends
use cu_tty.Prelude.{
  ℕ, zero, suc, ◌+◌, ◌-◌, ◌^◌, Bool, true, false, ◌&&◌, ◌||◌, not, ltb, leb, ◌==◌, if◌then◌else◌,
  Option, none, some, List, [], ◌∷◌, ◌++◌, length, replicate, get_elem?, set, take, drop, min, max,
  map, ◌>>=◌, ◌>>◌, assert,
}
use cu_tty.Prelude.Int.{ℤ, pos, negsuc}
use cu_tty.Prelude.Machine.{eqb_ℤ, max_ℤ, sub_i32, as_i32}
use cu_tty.Index.{Point, add_line, sub_line, sub, grid_clamp}
use cu_tty.Index
use cu_tty.Row.{GridCell, Row}
use cu_tty.Row
use cu_tty.Storage
use cu_tty.Cell.Flags.{wrapline, wide_char, leading_wide_char_spacer, contains, insert, remove}
use cu_tty.Grid.{Grid, dimensions, history}
use cu_tty.Grid.Edit.{cell_at}

-- `rows.rev()` of the enumerated rows: the index of a row is the number of rows that follow.
abbrev pub backwards : {A : Type 0} → List A → List A → List A
backwards [] done = done
backwards (x ∷ xs) done = backwards xs (x ∷ done)

-- `delta.0 as usize`, of 64 bits.
abbrev pub as_lines : ℤ → ℕ
as_lines (pos n) = n
as_lines (negsuc n) = 2 ^ 64 - 1 - n

module _ {T : Type 0} where
  abbrev pub at_point : Point → Grid T → Grid T
  at_point p g = record g { cursor = record g.cursor { point = p } }

  -- `self.lines - self.cursor.point.line.0 as usize - 1` panics below 0.
  unfoldable pub buffer_line : Grid T → Option ℕ
  buffer_line g = elim g.cursor.point.line [
    | pos n ↦ if ltb n g.lines then some (g.lines - n - 1) else none
    | negsuc n ↦ none
  ]

  -- The special case of a cursor that waits to wrap: it is moved outside of the grid.
  unfoldable pub unwrap_cursor : Bool → Grid T → Grid T
  unwrap_cursor reflow g =
      let p = g.cursor.point in
      if g.cursor.input_needs_wrap && reflow
      then record g {
        cursor = record g.cursor {
          input_needs_wrap = false;
          point = record p { column = p.column + 1 };
        };
      }
      else g

module _ {T : Type 0} (cell : GridCell T) where
  abbrev pub has : ℕ → T → Bool
  has flag c = contains (cell.flags c) flag

  abbrev pub with : ℕ → T → T
  with flag c = cell.with_flags c (insert (cell.flags c) flag)

  abbrev pub without : ℕ → T → T
  without flag c = cell.with_flags c (remove (cell.flags c) flag)

  -- `cells.last().map(|c| c.flags().contains(flag)).unwrap_or(false)`
  abbrev pub last_has : ℕ → List T → Bool
  last_has flag cells = elim (get_elem? cells (length cells - 1)) [
    | none ↦ false
    | some c ↦ has flag c
  ]

  abbrev pub spacer : T
  spacer = with leading_wide_char_spacer cell.default
