-- ===== src/Grid/Reflow/Grow.antt =====
-- `grow_columns` of cutty_terminal/src/grid/resize.rs.
use cu_tty.Prelude.{
  ℕ, ◌+◌, ◌-◌, Bool, false, ◌&&◌, ◌||◌, not, ltb, leb, ◌==◌, if◌then◌else◌, Option, some, List, [],
  ◌∷◌, ◌++◌, length, get_elem?, drop, min, map, ◌>>=◌, ◌>>◌, assert,
}
use cu_tty.Prelude.Int.{pos}
use cu_tty.Prelude.Machine.{eqb_ℤ, max_ℤ, sub_i32, as_i32}
use cu_tty.Index.{Point, add_line, sub_line, sub, grid_clamp}
use cu_tty.Index
use cu_tty.Row.{GridCell, Row}
use cu_tty.Row
use cu_tty.Storage
use cu_tty.Cell.Flags.{wrapline, wide_char, leading_wide_char_spacer, contains, insert, remove}
use cu_tty.Grid.{Grid, dimensions, history}
use cu_tty.Grid.Reflow.{
  backwards, as_lines, at_point, buffer_line, unwrap_cursor, has, with, without, spacer,
}

-- What the loop of `grow_columns` changes.
pub record Growing (T : Type 0) : Type 0 where
  pub grid : Grid T
  pub reversed : List (Row T)
  pub cursor_line_delta : ℕ

module _ {T : Type 0} (cell : GridCell T) where
  unfoldable pub should_reflow : Bool → ℕ → Row T → Option Bool
  unfolding contains
  should_reflow reflow columns row =
      let len = length row.inner in
      if reflow && ltb 0 len && ltb len columns
      then (do c ← get_elem? row.inner (len - 1); some (has cell wrapline c))
      else some false

  -- The placeholder at the end of the line that is filled is removed.
  unfoldable pub drop_spacer : Row T → Option (Row T)
  unfolding contains
  drop_spacer row =
      let len = length row.inner in
      if leb 1 len
      then (do
        c ← get_elem? row.inner (len - 1)
        some (
            if has cell leading_wide_char_spacer c then (Row.shrink cell row (len - 1)).0 else row))
      else some row

  -- The cells of `row` that are pulled up: how many columns they fill, the rest of the row, and they.
  unfoldable pub pull_cells : ℕ → Row T → Option (ℕ × Row T × List T)
  unfolding contains insert
  pull_cells num_wrapped row = do
    let len = min (length row.inner) num_wrapped
    assert (leb 1 len)
    c ← get_elem? row.inner (len - 1)
    if has cell wide_char c
        then (do
          split ← Row.front_split_off row (len - 1)
          some (num_wrapped - 1, split.0, split.1 ++ (spacer cell ∷ [])))
        else (do split ← Row.front_split_off row len; some (num_wrapped, split.0, split.1))

  abbrev pub push_wrapped : Row T → Row T → List (Row T) → List (Row T)
  push_wrapped row last_row reversed =
      row ∷ Row.modify_last (with cell wrapline) last_row ∷ reversed

  -- The cursor's line: the cursor moves with the cells. `last_row` is the line above.
  unfoldable pub reflow_cursor : ℕ → Row T → Row T → Growing T → Growing T
  unfolding sub insert
  reflow_cursor num_wrapped row last_row st =
      let g = st.grid in
      let clear = Row.is_clear cell row in
      let target = sub (dimensions g) Index.cursor g.cursor.point num_wrapped in
      let waits = target.column == 0 && clear in
      let target = if waits then sub (dimensions g) Index.cursor target 1 else target in
      let line = g.cursor.point.line in
      let g' = record g {
        cursor = record g.cursor {
          input_needs_wrap = waits || g.cursor.input_needs_wrap;
          point = record { line = line; column = target.column };
        };
      } in
      let line_delta = sub_i32 line target.line in
      if not (eqb_ℤ line_delta (pos 0)) && clear
      then record st { grid = g'; reversed = last_row ∷ st.reversed }
      else record {
        grid = g';
        reversed = push_wrapped row last_row st.reversed;
        cursor_line_delta = st.cursor_line_delta + as_lines line_delta;
      }

  -- A line without content is dropped.
  unfoldable pub drop_line : ℕ → ℕ → Row T → Growing T → Growing T
  unfolding add_line
  drop_line i cursor_buffer_line last_row st =
      let g = st.grid in
      let p = g.cursor.point in
      let offset = if ltb i g.display_offset then g.display_offset - 1 else g.display_offset in
      let line = if ltb i cursor_buffer_line then add_line p.line 1 else p.line in
      record st {
        grid = at_point (record p { line = line }) (record g { display_offset = offset });
        reversed = last_row ∷ st.reversed;
      }

  -- A row that follows a wrapped one, whose vector without that one is `above`.
  unfoldable pub pull_row : Bool → ℕ → ℕ → Row T → Row T → Growing T → Option (Growing T)
  unfolding drop_spacer pull_cells buffer_line reflow_cursor drop_line remove insert
  pull_row reflow columns i row last_row st = do
    last_row ← drop_spacer (Row.modify_last (without cell wrapline) last_row)
    assert (leb (length last_row.inner) columns)
    pulled ← pull_cells (columns - length last_row.inner) row
    let row = pulled.1
    let last_row = Row.append last_row pulled.2
    cursor_buffer_line ← buffer_line st.grid
    some (
        if i == cursor_buffer_line && reflow
        then reflow_cursor pulled.0 row last_row st
        else if Row.is_clear cell row
        then drop_line i cursor_buffer_line last_row st
        else record st { reversed = push_wrapped row last_row st.reversed })

  unfoldable pub grow_row : Bool → ℕ → ℕ → Row T → Growing T → Option (Growing T)
  unfolding should_reflow pull_row
  grow_row reflow columns i row st = elim st.reversed [
    | [] ↦ some (record st { reversed = row ∷ [] })
    | last_row ∷ above ↦ do
      wrapped ← should_reflow reflow columns last_row
      if wrapped
          then pull_row reflow columns i row last_row (record st { reversed = above })
          else some (record st { reversed = row ∷ last_row ∷ above })
  ]

  unfoldable pub grow_rows : Bool → ℕ → List (Row T) → Growing T → Option (Growing T)
  unfolding grow_row
  grow_rows reflow columns [] st = some st
  grow_rows reflow columns (row ∷ rows) st = do
    st ← grow_row reflow columns (length rows) row st
    grow_rows reflow columns rows st

  -- The viewport is filled.
  unfoldable pub fill_viewport : ℕ → Growing T → Option (Growing T)
  fill_viewport columns st =
      let g = st.grid in
      let p = g.cursor.point in
      let count = length st.reversed in
      if ltb count g.lines
      then (do
        rows ← Storage.new_rows cell (g.lines - count) columns
        some (record st {
          grid =
              at_point
                (record p { line = max_ℤ (sub_i32 p.line (as_i32 (g.lines - count))) (pos 0) }) g;
          reversed = rows ++ st.reversed;
        }))
      else some st

  -- The content is pulled down to the cursor.
  unfoldable pub pull_down : Growing T → Option (Growing T)
  unfolding buffer_line sub_line
  pull_down st =
      let g = st.grid in
      let p = g.cursor.point in
      let count = length st.reversed in
      if st.cursor_line_delta == 0 then some st else do
        cursor_buffer_line ← buffer_line g
        assert (leb g.lines count)
        let overflow = st.cursor_line_delta - min cursor_buffer_line (count - g.lines)
        assert (leb st.cursor_line_delta (count + overflow))
        some (record st {
          grid = at_point (record p { line = max_ℤ (sub_line p.line overflow) (pos 0) }) g;
          reversed = drop (st.cursor_line_delta - overflow) st.reversed;
        })

  unfoldable pub grow_columns : Bool → ℕ → Grid T → Option (Grid T)
  unfolding unwrap_cursor grow_rows fill_viewport pull_down
  grow_columns reflow columns g = do
    let g = unwrap_cursor reflow (record g { columns = columns })
    taken ← Storage.take_all g.raw
    st ←
        grow_rows reflow columns (backwards taken.1 [])
          (record { grid = record g { raw = taken.0 }; reversed = []; cursor_line_delta = 0 })
    st ← fill_viewport columns st
    st ← pull_down st
    let new_raw = map (λ row. Row.grow cell row columns) st.reversed
    let g = record st.grid { raw = Storage.replace_inner st.grid.raw new_raw }
    some (record g { display_offset = min g.display_offset (history g) })
