-- ===== src/Grid/Iterate.antt =====
-- The iterator over the cells of the grid, `GridIterator` of cutty_terminal/src/grid/mod.rs, and
-- `clear_viewport`, which looks for the last line in use with it.
use cu_tty.Prelude.{
  ℕ, zero, suc, ◌+◌, ◌-◌, ◌*◌, Bool, ◌||◌, not, leb, ◌==◌, if◌then◌else◌, Option, none, some, ◌>>=◌,
  ◌>>◌, assert,
}
use cu_tty.Prelude.Int.{pos, negsuc, pos_part, ◌+ℤ◌, ◌-ℤ◌, ltb_ℤ}
use cu_tty.Prelude.Machine.{leb_ℤ, min_ℤ, wrap_i32, as_i32, sub_i32}
use cu_tty.Row.{GridCell}
use cu_tty.Index.{Point, leb_point, last_column, topmost_line, bottommost_line, add_line, sub_line}
use cu_tty.Grid.{Grid, dimensions, reset_lines, scroll_up}
use cu_tty.Grid.Edit.{cell_at}

-- `Indexed`
pub record Indexed (T : Type 0) : Type 0 where
  pub point : Point
  pub cell : T

pub record GridIterator : Type 0 where
  pub point : Point
  pub end : Point

module _ {T : Type 0} where
  unfoldable pub iter_from : Grid T → Point → GridIterator
  unfolding bottommost_line last_column
  iter_from g p = record {
    point = p;
    end = record { line = bottommost_line (dimensions g); column = last_column (dimensions g) };
  }

  unfoldable pub display_iter : Grid T → GridIterator
  unfolding bottommost_line last_column add_line
  display_iter g =
      let last = last_column (dimensions g) in
      let start = wrap_i32 (wrap_i32 (pos 0 -ℤ as_i32 g.display_offset) -ℤ pos 1) in
      record {
        point = record { line = start; column = last };
        end = record {
          line = min_ℤ (add_line start g.lines) (bottommost_line (dimensions g));
          column = last;
        };
      }

  -- The place after `p`.
  unfoldable pub step_forward : Grid T → Point → Point
  unfolding last_column add_line
  step_forward g p =
      if leb (last_column (dimensions g)) p.column
      then record { line = add_line p.line 1; column = 0 }
      else record p { column = p.column + 1 }

  -- The place before `p`.
  unfoldable pub step_back : Grid T → Point → Point
  unfolding last_column sub_line
  step_back g p =
      if p.column == 0
      then record { line = sub_line p.line 1; column = last_column (dimensions g) }
      else record p { column = p.column - 1 }

  -- The item at the new position, with the iterator; the outer `none` is a panic.
  unfoldable pub visit : Grid T → GridIterator → Point → Option (Option (Indexed T) × GridIterator)
  unfolding cell_at
  visit g iter p = do
    c ← cell_at g p
    some (some (record { point = p; cell = c }), record iter { point = p })

  unfoldable pub next : Grid T → GridIterator → Option (Option (Indexed T) × GridIterator)
  unfolding step_forward visit
  next g iter =
      if leb_point iter.end iter.point
      then some (none, iter)
      else visit g iter (step_forward g iter.point)

  unfoldable pub prev : Grid T → GridIterator → Option (Option (Indexed T) × GridIterator)
  unfolding step_back visit topmost_line
  prev g iter =
      if leb_point iter.point (record { line = topmost_line (dimensions g); column = 0 })
      then some (none, iter)
      else visit g iter (step_back g iter.point)

module _ {T : Type 0} (cell : GridCell T) where
  -- `!cell.is_empty() || cell.point.line < 0`
  abbrev pub stops : Indexed T → Bool
  stops c = not (cell.is_empty c.cell) || ltb_ℤ c.point.line (pos 0)

  -- `while let Some(cell) = iter.prev()`, of which one round is made; `none` is also a lack of fuel.
  unfoldable pub find_used : ℕ → Grid T → GridIterator → Option GridIterator
  unfolding prev
  find_used zero g iter = none
  find_used (suc fuel) g iter = do
    (item, iter') ← prev g iter
    let rest = find_used fuel g iter'
    elim item [ none ↦ some iter' | some c ↦ if stops c then some iter' else rest ]

  unfoldable pub clear_viewport : Grid T → Option (Grid T)
  unfolding iter_from find_used
  clear_viewport g = do
    let end : Point = record { line = sub_i32 (as_i32 g.lines) (pos 1); column = g.columns }
    iter ← find_used (g.lines * g.columns + 1) g (iter_from g end)
    assert (leb_ℤ (negsuc 0) iter.point.line)
    let positions = pos_part (iter.point.line +ℤ pos 1)
    g ← scroll_up cell g (pos 0) (as_i32 g.lines) positions
    assert (leb positions g.lines)
    raw ← reset_lines cell g.cursor.template (pos 0) (pos (g.lines - positions)) g.raw
    some (record g { raw = raw })
