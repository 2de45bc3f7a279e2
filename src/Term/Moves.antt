-- ===== src/Term/Moves.antt =====
-- The cursor of cutty_terminal/src/term/mod.rs: its motions, the tab stops, the scroll region and the
-- saved cursor.
use cu_tty.Prelude.{
  ℕ, ◌+◌, ◌-◌, Bool, true, false, ltb, leb, if◌then◌else◌, Option, none, some, length, set, min,
  ◌>>=◌, ◌>>◌, assert,
}
use cu_tty.Prelude.Int.{ℤ, pos}
use cu_tty.Prelude.Machine.{min_ℤ, max_ℤ, add_i32, sub_i32, as_i32}
use cu_tty.Index.{Point, bottommost_line, last_column, add_line, sub_line}
use cu_tty.Term.Tabs
use cu_tty.Term.{size, point, with_point, settle, mark, damage_cursor, Term}

module _ {T S K : Type 0} where
  unfoldable pub goto : ℤ → ℕ → Term T S K → Option (Term T S K)
  unfolding damage_cursor
  goto line col t = do
    let y_offset = if t.mode.origin then t.region_start else pos 0
    let max_y = if t.mode.origin then sub_i32 t.region_end (pos 1) else bottommost_line (size t)
    t ← damage_cursor t
    let to : Point = record {
      line = max_ℤ (min_ℤ (add_i32 line y_offset) max_y) (pos 0);
      column = min col (last_column (size t));
    }
    t ← damage_cursor (with_point t to)
    some (settle t)

  unfoldable pub goto_line : ℤ → Term T S K → Option (Term T S K)
  unfolding goto
  goto_line line t = goto line (point t).column t

  unfoldable pub goto_col : ℕ → Term T S K → Option (Term T S K)
  unfolding goto
  goto_col col t = goto (point t).line col t

  unfoldable pub move_up : ℕ → Term T S K → Option (Term T S K)
  unfolding goto
  move_up lines t = goto (sub_line (point t).line lines) (point t).column t

  unfoldable pub move_down : ℕ → Term T S K → Option (Term T S K)
  unfolding goto
  move_down lines t = goto (add_line (point t).line lines) (point t).column t

  unfoldable pub move_down_and_cr : ℕ → Term T S K → Option (Term T S K)
  unfolding goto
  move_down_and_cr lines t = goto (add_line (point t).line lines) 0 t

  unfoldable pub move_up_and_cr : ℕ → Term T S K → Option (Term T S K)
  unfolding goto
  move_up_and_cr lines t = goto (sub_line (point t).line lines) 0 t

  abbrev pub at_column : ℕ → Term T S K → Term T S K
  at_column column t = with_point t (record { line = (point t).line; column = column })

  unfoldable pub move_forward : ℕ → Term T S K → Option (Term T S K)
  unfolding mark
  move_forward cols t = do
    let last = min ((point t).column + cols) (last_column (size t))
    t ← mark (point t).line (point t).column last t
    some (settle (at_column last t))

  unfoldable pub move_backward : ℕ → Term T S K → Option (Term T S K)
  unfolding mark
  move_backward cols t = do
    let column = (point t).column - cols
    t ← mark (point t).line column (point t).column t
    some (settle (at_column column t))

  unfoldable pub backspace : Term T S K → Option (Term T S K)
  unfolding mark
  backspace t =
      let column = (point t).column in
      if ltb 0 column
      then mark (point t).line (column - 1) column (settle (at_column (column - 1) t))
      else some t

  unfoldable pub carriage_return : Term T S K → Option (Term T S K)
  unfolding mark
  carriage_return t = do t ← mark (point t).line 0 (point t).column t; some (settle (at_column 0 t))

  unfoldable pub move_forward_tabs : ℕ → Term T S K → Option (Term T S K)
  unfolding mark
  move_forward_tabs count t = do
    let old_col = (point t).column
    col ← Tabs.forward t.tabs t.grid.columns count old_col
    mark (point t).line old_col col (at_column col t)

  unfoldable pub move_backward_tabs : ℕ → Term T S K → Option (Term T S K)
  unfolding mark
  move_backward_tabs count t = do
    let old_col = (point t).column
    col ← Tabs.backward t.tabs count old_col
    mark (point t).line col old_col (at_column col t)

  -- `self.tabs[column] = stop`
  unfoldable pub set_tabstop : Bool → Term T S K → Option (Term T S K)
  set_tabstop stop t = do
    assert (ltb (point t).column (length t.tabs))
    some (record t { tabs = set t.tabs (point t).column stop })

  unfoldable pub set_horizontal_tabstop : Term T S K → Option (Term T S K)
  unfolding set_tabstop
  set_horizontal_tabstop t = set_tabstop true t

  -- `clear_tabs`, of the current tab stop or of all.
  unfoldable pub clear_tabs : Bool → Term T S K → Option (Term T S K)
  unfolding set_tabstop
  clear_tabs all t =
      if all then some (record t { tabs = Tabs.clear_all t.tabs }) else set_tabstop false t

  unfoldable pub set_scrolling_region : ℕ → Option ℕ → Term T S K → Option (Term T S K)
  unfolding goto
  set_scrolling_region top bottom t =
      let last : ℕ = elim bottom [ none ↦ t.grid.lines | some b ↦ b ] in
      if leb last top
      then some t
      else (let start = sub_i32 (as_i32 top) (pos 1) in
          let screen_lines = as_i32 t.grid.lines in
          goto (pos 0) 0 (record t {
            region_start = min_ℤ start screen_lines;
            region_end = min_ℤ (as_i32 last) screen_lines;
          }))

  unfoldable pub save_cursor_position : Term T S K → Term T S K
  save_cursor_position t = record t { grid = record t.grid { saved_cursor = t.grid.cursor } }

  unfoldable pub restore_cursor_position : Term T S K → Option (Term T S K)
  unfolding damage_cursor
  restore_cursor_position t = do
    t ← damage_cursor t
    damage_cursor (record t { grid = record t.grid { cursor = t.grid.saved_cursor } })
