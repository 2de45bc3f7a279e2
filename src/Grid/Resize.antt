-- ===== src/Grid/Resize.antt =====
-- cutty_terminal/src/grid/resize.rs: the changes of the number of lines, and `resize`.
use cu_tty.Prelude.{
  ℕ, ◌+◌, ◌-◌, ◌%◌, ◌^◌, Bool, ltb, leb, ◌==◌, if◌then◌else◌, Option, some, min, ◌>>=◌, ◌>>◌,
  assert,
}
use cu_tty.Prelude.Int.{ℤ, pos}
use cu_tty.Prelude.Machine.{min_ℤ, sub_i32, as_i32}
use cu_tty.Index.{add_line}
use cu_tty.Row.{GridCell}
use cu_tty.Storage
use cu_tty.Grid.{Grid, Cursor, history, scroll_up, decrease_scroll_limit}
use cu_tty.Grid.Reflow.{as_lines}
use cu_tty.Grid.Reflow.Grow.{grow_columns}
use cu_tty.Grid.Reflow.Shrink.{shrink_columns}

abbrev pub move_line : {T : Type 0} → (ℤ → ℤ) → Cursor T → Cursor T
move_line f c = let p = c.point in record c { point = record p { line = f p.line } }

abbrev pub set_template : {T : Type 0} → T → Grid T → Grid T
set_template template g = record g { cursor = record g.cursor { template = template } }

module _ {T : Type 0} (cell : GridCell T) where
  unfoldable pub grow_lines : ℕ → Grid T → Option (Grid T)
  unfolding scroll_up decrease_scroll_limit add_line
  grow_lines target g = do
    assert (leb g.lines target)
    let lines_added = target - g.lines
    raw ← Storage.grow_visible_lines cell g.raw target
    let g = record g { raw = raw; lines = target }
    let from_history = min (history g) lines_added
    g ←
        (if from_history == lines_added
          then some g
          else scroll_up cell g (pos 0) (as_i32 target) (lines_added - from_history))
    let down = λ (line : ℤ). add_line line from_history
    decrease_scroll_limit
        (record g {
          saved_cursor = move_line down g.saved_cursor;
          cursor = move_line down g.cursor;
          display_offset = g.display_offset - lines_added;
        })
        lines_added

  unfoldable pub shrink_lines : ℕ → Grid T → Option (Grid T)
  unfolding scroll_up
  shrink_lines target g = do
    let clamp = λ (line : ℤ). min_ℤ line (sub_i32 (as_i32 target) (pos 1))
    let required = (as_lines g.cursor.point.line + 1) % 2 ^ 64 - target
    g ←
        (if ltb 0 required
          then (do
            g ← scroll_up cell g (pos 0) (as_i32 g.lines) required
            some (record g { cursor = move_line clamp g.cursor }))
          else some g)
    assert (leb target g.lines)
    raw ← Storage.rotate g.raw (pos (g.lines - target))
    raw ← Storage.shrink_visible_lines raw target
    some (record g { saved_cursor = move_line clamp g.saved_cursor; raw = raw; lines = target })

  unfoldable pub resize : Bool → ℕ → ℕ → Grid T → Option (Grid T)
  unfolding grow_lines shrink_lines grow_columns shrink_columns
  resize reflow lines columns g = do
    let template = g.cursor.template
    let g = set_template cell.default g
    g ←
        (if ltb g.lines lines
          then grow_lines lines g
          else if ltb lines g.lines
          then shrink_lines lines g
          else some g)
    g ←
        (if ltb g.columns columns
          then grow_columns cell reflow columns g
          else if ltb columns g.columns
          then shrink_columns cell reflow columns g
          else some g)
    some (set_template template g)
