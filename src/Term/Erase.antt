-- ===== src/Term/Erase.antt =====
-- The erasure, insertion and deletion of cells in cutty_terminal/src/term/mod.rs.
use cu_tty.Prelude.{
  ℕ, zero, suc, ◌+◌, ◌-◌, not, ltb, leb, if◌then◌else◌, Option, none, some, [], length, min, ◌>>=◌,
  ◌>>◌, assert,
}
use cu_tty.Prelude.Int.{ℤ, pos, ltb_ℤ}
use cu_tty.Prelude.Machine.{as_i32}
use cu_tty.Index.{Point, Boundary, clamp_line, add_line, sub_line}
use cu_tty.Selection.{Selection, Bound, included, excluded, unbounded, intersects_range}
use cu_tty.Row.{modify_range}
use cu_tty.Row.Shift.{modify_all, fill}
use cu_tty.Row.Blanks.{insert_cells, delete_cells}
use cu_tty.Cell.{Cell, Palette, grid_cell, default_cell, from_color}
use cu_tty.Grid.{Grid, history, clear_history, reset_region, for_up}
use cu_tty.Grid
use cu_tty.Grid.Edit.{edit_cell, edit_line}
use cu_tty.Grid.Iterate.{clear_viewport}
use cu_tty.Term.{Term, size, point, mark, mark_fully_damaged, default_modes, as_usize}
use cu_tty.Term.Moves.{set_scrolling_region}
use cu_tty.Term.Tabs

-- `LineClearMode` and `ClearMode` of the vte crate.
pub data LineClearMode : Type 0 where
  right left all : LineClearMode

pub data ClearMode : Type 0 where
  below above all saved : ClearMode

-- `self.selection.take().filter(|s| !s.intersects_range(from..to))`
unfoldable pub deselect : Bound → Bound → Option Selection → Option Selection
unfolding intersects_range
deselect from to selection =
    selection >>= (λ s. if intersects_range s from to then none else some s)

module _ {C H : Type 0} (palette : Palette C) where
  -- `for column in 0..columns` of `decaln`, on line `line`.
  unfoldable pub fill_line : ℕ → ℕ → ℤ → Grid (Cell C H) → Option (Grid (Cell C H))
  unfolding edit_cell
  fill_line zero column line g = some g
  fill_line (suc n) column line g = do
    let p : Point = record { line = line; column = column }
    g ← edit_cell p (λ _. record (default_cell palette) { c = 69 }) g
    fill_line n (column + 1) line g

module _ {C H S K : Type 0} (palette : Palette C) where
  abbrev pub blank_cell : Term (Cell C H) S K → Cell C H
  blank_cell t = from_color palette t.grid.cursor.template.bg

  -- `for cell in &mut self.grid[line][start..end] { *cell = bg.into() }`
  unfoldable pub erase : ℤ → ℕ → ℕ → Term (Cell C H) S K → Option (Term (Cell C H) S K)
  unfolding edit_line
  erase line start end t = do
    g ← edit_line line (modify_range start end (λ _. blank_cell t)) t.grid
    some (record t { grid = g })

  unfoldable pub insert_blank : ℕ → Term (Cell C H) S K → Option (Term (Cell C H) S K)
  unfolding mark edit_line modify_all insert_cells
  insert_blank count t = do
    assert (leb (point t).column t.grid.columns)
    let count = min count (t.grid.columns - (point t).column)
    t ← mark (point t).line 0 (t.grid.columns - 1) t
    g ←
        edit_line (point t).line
          (modify_all (insert_cells t.grid.columns (point t).column count (blank_cell t))) t.grid
    some (record t { grid = g })

  unfoldable pub erase_chars : ℕ → Term (Cell C H) S K → Option (Term (Cell C H) S K)
  unfolding mark erase
  erase_chars count t = do
    let start = (point t).column
    let end = min (start + count) t.grid.columns
    t ← mark (point t).line start end t
    erase (point t).line start end t

  unfoldable pub delete_chars : ℕ → Term (Cell C H) S K → Option (Term (Cell C H) S K)
  unfolding mark edit_line modify_all delete_cells
  delete_chars count t = do
    let columns = t.grid.columns
    let count = min count columns
    t ← mark (point t).line 0 (columns - 1) t
    g ←
        edit_line (point t).line
          (modify_all (delete_cells columns (point t).column count (blank_cell t))) t.grid
    some (record t { grid = g })

  -- The range of columns that `clear_line` clears; `none` where it does nothing.
  unfoldable pub line_range : LineClearMode → Term (Cell C H) S K → Option (ℕ × ℕ)
  line_range LineClearMode.right t =
      if t.grid.cursor.input_needs_wrap then none else some ((point t).column, t.grid.columns)
  line_range LineClearMode.left t = some (0, (point t).column + 1)
  line_range LineClearMode.all t = some (0, t.grid.columns)

  -- The part of `clear_line` after its range is known.
  unfoldable pub clear_columns : ℕ → ℕ → Term (Cell C H) S K → Option (Term (Cell C H) S K)
  unfolding mark erase deselect
  clear_columns from to t = do
    t ← mark (point t).line from (to - 1) t
    t ← erase (point t).line from to t
    let line = (point t).line
    some (record t { selection = deselect (included line) (included line) t.selection })

  unfoldable pub clear_line : LineClearMode → Term (Cell C H) S K → Option (Term (Cell C H) S K)
  unfolding line_range clear_columns
  clear_line mode t = elim (line_range mode t) [
    | none ↦ some t
    | some (from, to) ↦ clear_columns from to t
  ]

  unfoldable pub clear_above : Term (Cell C H) S K → Option (Term (Cell C H) S K)
  unfolding erase deselect
  clear_above t = do
    let cursor = point t
    g ←
        (if ltb_ℤ (pos 1) cursor.line
          then reset_region (grid_cell palette) t.grid (pos 0) cursor.line
          else some t.grid)
    t ← erase cursor.line 0 (min (cursor.column + 1) t.grid.columns) (record t { grid = g })
    some (record t { selection = deselect (included (pos 0)) (included cursor.line) t.selection })

  unfoldable pub clear_below : Term (Cell C H) S K → Option (Term (Cell C H) S K)
  unfolding edit_line modify_all fill deselect add_line
  clear_below t = do
    let cursor = point t
    g ←
        edit_line cursor.line
          (modify_all (λ cells. fill cursor.column (length cells) (blank_cell t) cells)) t.grid
    g ←
        (if ltb (as_usize cursor.line) (g.lines - 1)
          then reset_region (grid_cell palette) g (add_line cursor.line 1) (as_i32 g.lines)
          else some g)
    some (record t {
      grid = g;
      selection = deselect (included cursor.line) (excluded (as_i32 g.lines)) t.selection;
    })

  unfoldable pub clear_all : Term (Cell C H) S K → Option (Term (Cell C H) S K)
  unfolding clear_viewport clamp_line sub_line
  clear_all t =
      if t.mode.alt_screen
      then (do
        g ← reset_region (grid_cell palette) t.grid (pos 0) (as_i32 t.grid.lines)
        some (record t { grid = g; selection = none }))
      else do
        g ← clear_viewport (grid_cell palette) t.grid
        let lines = g.display_offset - t.grid.display_offset
        let t' = record t { grid = g }
        let line = clamp_line (size t') Boundary.grid (sub_line t.vi_mode_cursor.line lines)
        some (record t' {
          selection = none;
          vi_mode_cursor = record t.vi_mode_cursor { line = line };
        })

  unfoldable pub clear_saved : Term (Cell C H) S K → Option (Term (Cell C H) S K)
  unfolding clamp_line deselect
  clear_saved t = if not (ltb 0 (history t.grid)) then some t else do
    g ← clear_history t.grid
    let t' = record t { grid = g }
    some (record t' {
      vi_mode_cursor = record t.vi_mode_cursor {
        line = clamp_line (size t') Boundary.cursor t.vi_mode_cursor.line;
      };
      selection = deselect unbounded (excluded (pos 0)) t.selection;
    })

  unfoldable pub clear_screen : ClearMode → Term (Cell C H) S K → Option (Term (Cell C H) S K)
  unfolding clear_above clear_below clear_all clear_saved
  clear_screen mode t = do
    t ← elim mode [
      | above ↦ clear_above t
      | below ↦ clear_below t
      | all ↦ clear_all t
      | saved ↦ clear_saved t
    ]
    some (mark_fully_damaged t)

  unfoldable pub decaln : Term (Cell C H) S K → Option (Term (Cell C H) S K)
  unfolding fill_line for_up
  decaln t = do
    g ← for_up t.grid.lines (pos 0) (fill_line palette t.grid.columns 0) t.grid
    some (mark_fully_damaged (record t { grid = g }))

  unfoldable pub deccolm : Term (Cell C H) S K → Option (Term (Cell C H) S K)
  unfolding set_scrolling_region
  deccolm t = do
    t ← set_scrolling_region 1 none t
    g ← reset_region (grid_cell palette) t.grid (pos 0) (as_i32 t.grid.lines)
    some (mark_fully_damaged (record t { grid = g }))

  -- `reset_state`; the vi mode is kept.
  unfoldable pub reset_state : K → Term (Cell C H) S K → Option (Term (Cell C H) S K)
  reset_state no_mode t = do
    let active = if t.mode.alt_screen then t.inactive_grid else t.grid
    let inactive = if t.mode.alt_screen then t.grid else t.inactive_grid
    g ← Grid.reset (grid_cell palette) active
    i ← Grid.reset (grid_cell palette) inactive
    some (
        mark_fully_damaged (record t {
          grid = g;
          inactive_grid = i;
          active_charset = 0;
          cursor_style = none;
          region_start = pos 0;
          region_end = as_i32 g.lines;
          tabs = Tabs.new g.columns;
          title_stack = [];
          title = none;
          selection = none;
          vi_mode_cursor = record { line = pos 0; column = 0 };
          keyboard_mode_stack = [];
          inactive_keyboard_mode_stack = [];
          mode = record (default_modes no_mode) { vi = t.mode.vi };
        }))
