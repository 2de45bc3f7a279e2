-- ===== src/Grid/Reflow/Shrink.antt =====
-- `shrink_columns` of cutty_terminal/src/grid/resize.rs.
use cu_tty.Prelude.{
  ℕ, zero, suc, ◌+◌, ◌-◌, Bool, true, ◌&&◌, ◌||◌, not, ltb, leb, ◌==◌, if◌then◌else◌, Option, none,
  some, List, [], ◌∷◌, ◌++◌, length, replicate, get_elem?, set, take, min, ◌>>=◌, ◌>>◌, assert,
}
use cu_tty.Prelude.Int.{pos}
use cu_tty.Prelude.Machine.{max_ℤ}
use cu_tty.Index.{Point, add_line, sub_line, sub, grid_clamp}
use cu_tty.Index
use cu_tty.Row.{GridCell, Row}
use cu_tty.Row
use cu_tty.Storage
use cu_tty.Cell.Flags.{wrapline, wide_char, leading_wide_char_spacer, contains, insert, remove}
use cu_tty.Grid.{Grid, dimensions, history}
use cu_tty.Grid.Edit.{cell_at}
use cu_tty.Grid.Reflow.{
  backwards, at_point, buffer_line, unwrap_cursor, has, with, without, last_has, spacer,
}

-- What the loops of `shrink_columns` change.
pub record Shrinking (T : Type 0) : Type 0 where
  pub grid : Grid T
  pub new_raw : List (Row T)
  pub buffered : Option (List T)

-- A round of the inner loop of `shrink_columns`: it breaks, or goes on with another row.
pub data Round (T : Type 0) : Type 0 where
  broken : Shrinking T → Round T
  again : Row T → Shrinking T → Round T

-- The loop on fuel.
pub data Outcome (T : Type 0) : Type 0 where
  unfinished : Outcome T
  finished : Shrinking T → Outcome T

module _ {T : Type 0} (cell : GridCell T) where
  -- Cells left over from the row before are put in front of the row.
  unfoldable pub take_buffered : ℕ → Row T → Shrinking T → Option (Row T × Shrinking T)
  unfolding buffer_line
  take_buffered i row st = elim st.buffered [
    | none ↦ some (row, st)
    | some cells ↦ do
      cursor_buffer_line ← buffer_line st.grid
      let p = st.grid.cursor.point
      let column = if i == cursor_buffer_line then p.column + length cells else p.column
      some (
        Row.append_front row cells,
        record st { grid = at_point (record p { column = column }) st.grid; buffered = none },
      )
  ]

  -- The cursor, the new row and the display offset once cells were cut off.
  unfoldable pub next_row : ℕ → ℕ → ℕ → List T → Shrinking T → Round T
  unfolding sub_line
  next_row columns i cursor_buffer_line wrapped st =
      let g = st.grid in
      let p = g.cursor.point in
      let above = (i == cursor_buffer_line && ltb p.column columns) || ltb i cursor_buffer_line in
      let line = if above then max_ℤ (sub_line p.line 1) (pos 0) else p.line in
      let beyond = i == cursor_buffer_line && leb columns p.column in
      let column = if beyond then p.column - columns else p.column in
      let offset = if ltb i g.display_offset then g.display_offset + 1 else g.display_offset in
      let cells = wrapped ++ replicate (columns - length wrapped) cell.default in
      again (Row.from_vec cells (length wrapped)) (record st {
        grid =
            at_point (record { line = line; column = column })
              (record g { display_offset = offset });
      })

  -- The row is pushed; the cells cut off go to the next row, or become a row.
  unfoldable pub push_row : ℕ → ℕ → Row T → List T → Shrinking T → Option (Round T)
  unfolding buffer_line next_row contains insert remove
  push_row columns i row wrapped st =
      let st = record st { new_raw = Row.modify_last (with cell wrapline) row ∷ st.new_raw } in
      let len = length wrapped in
      if last_has cell wrapline wrapped && leb 1 i && ltb len columns
      then (do
        c ← get_elem? wrapped (len - 1)
        some (
            broken
              (record st { buffered = some (set wrapped (len - 1) (without cell wrapline c)) })))
      else (do
        cursor_buffer_line ← buffer_line st.grid
        some (next_row columns i cursor_buffer_line wrapped st))

  -- A fullwidth character in the last column goes to the next row.
  unfoldable pub move_wide : ℕ → Row T → List T → Option (Row T × List T)
  unfolding contains insert
  move_wide columns row wrapped =
      if leb columns (length row.inner)
      then (do
        assert (leb 1 columns)
        c ← get_elem? row.inner (columns - 1)
        if has cell wide_char c
            then (do row ← Row.modify (columns - 1) (λ _. spacer cell) row; some (row, c ∷ wrapped))
            else some (row, wrapped))
      else some (row, wrapped)

  unfoldable pub wrap_row : ℕ → ℕ → Row T → List T → Shrinking T → Option (Round T)
  unfolding move_wide push_row contains insert
  wrap_row columns i row wrapped st = do
    moved ← move_wide columns row wrapped
    let len = length moved.1
    if last_has cell leading_wide_char_spacer moved.1
        then (if len == 1
            then (do
              row ← Row.modify (columns - 1) (with cell wrapline) moved.0
              some (broken (record st { new_raw = row ∷ st.new_raw })))
            else (do
              c ← get_elem? moved.1 (len - 2)
              push_row columns i moved.0
                  (take (len - 1) (set moved.1 (len - 2) (with cell wrapline c))) st))
        else push_row columns i moved.0 moved.1 st

  unfoldable pub shrink_round : Bool → ℕ → ℕ → Row T → Shrinking T → Option (Round T)
  unfolding buffer_line wrap_row
  shrink_round reflow columns i row st =
      let shrunk = Row.shrink cell row columns in
      let fits = do
        cursor_buffer_line ← buffer_line st.grid
        if reflow && (i == cursor_buffer_line) && ltb columns st.grid.cursor.point.column
            then wrap_row columns i shrunk.0 [] st
            else some (broken (record st { new_raw = shrunk.0 ∷ st.new_raw }))
      in elim shrunk.1 [
        | none ↦ fits
        | some wrapped ↦ if reflow then wrap_row columns i shrunk.0 wrapped st else fits
      ]

  unfoldable pub shrink_row : ℕ → Bool → ℕ → ℕ → Row T → Shrinking T → Option (Outcome T)
  unfolding shrink_round
  shrink_row zero reflow columns i row st = some unfinished
  shrink_row (suc rounds) reflow columns i row st = do
    round ← shrink_round reflow columns i row st
    elim round [
      | broken st ↦ some (finished st)
      | again row st ↦ shrink_row rounds reflow columns i row st
    ]

  -- Each row has enough rounds for its cells and the columns up to the cursor.
  unfoldable pub shrink_rows : Bool → ℕ → List (Row T) → Shrinking T → Option (Outcome T)
  unfolding take_buffered shrink_row
  shrink_rows reflow columns [] st = some (finished st)
  shrink_rows reflow columns (row ∷ rows) st = do
    taken ← take_buffered (length rows) row st
    let rounds = length taken.0.inner + taken.1.grid.cursor.point.column + 1
    outcome ← shrink_row rounds reflow columns (length rows) taken.0 taken.1
    elim outcome [ unfinished ↦ some unfinished | finished st ↦ shrink_rows reflow columns rows st ]

  -- The cursor once the rows are in place.
  unfoldable pub clamp_cursor : Bool → ℕ → Grid T → Option (Grid T)
  unfolding grid_clamp cell_at contains
  clamp_cursor reflow columns g =
      let p = g.cursor.point in
      let clamped = some (at_point (grid_clamp (dimensions g) Index.cursor p) g) in
      if not reflow
      then some (at_point (record p { column = min p.column (columns - 1) }) g)
      else if p.column == columns
      then (do
        c ← cell_at g (record p { column = columns - 1 })
        if not (has cell wrapline c)
            then some (record g {
              cursor = record g.cursor {
                input_needs_wrap = true;
                point = record p { column = p.column - 1 };
              };
            })
            else clamped)
      else clamped

  unfoldable pub shrink_columns : Bool → ℕ → Grid T → Option (Grid T)
  unfolding unwrap_cursor shrink_rows clamp_cursor
  shrink_columns reflow columns g = do
    assert (leb 1 columns)
    let g = unwrap_cursor reflow (record g { columns = columns })
    taken ← Storage.take_all g.raw
    outcome ←
        shrink_rows reflow columns (backwards taken.1 [])
          (record { grid = record g { raw = taken.0 }; new_raw = []; buffered = none })
    st ← elim outcome [ unfinished ↦ none | finished st ↦ some st ]
    let reversed = take (st.grid.max_scroll_limit + st.grid.lines) st.new_raw
    let g = record st.grid { raw = Storage.replace_inner st.grid.raw reversed }
    g ← clamp_cursor reflow columns (record g { display_offset = min g.display_offset (history g) })
    let saved = g.saved_cursor.point
    some (record g {
      saved_cursor = record g.saved_cursor {
        point = record saved { column = min saved.column (columns - 1) };
      };
    })
