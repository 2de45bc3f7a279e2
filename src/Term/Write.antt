-- ===== src/Term/Write.antt =====
-- Writing to the grid in cutty_terminal/src/term/mod.rs: characters, line wraps and tabs. The
-- character sets of the vte crate are a function of a set and a character, and the width of a
-- character is that of the unicode_width crate, where `none` is a control character.
use cu_tty.Prelude.{
  ℕ, zero, suc, ◌+◌, ◌-◌, Bool, true, ◌&&◌, not, ltb, leb, ◌==◌, if◌then◌else◌, Option, none, some,
  List, get_elem?, ◌>>=◌,
}
use cu_tty.Prelude.Machine.{leb_ℤ, eqb_ℤ}
use cu_tty.Index.{last_column, topmost_line, add_line, sub_line}
use cu_tty.Row.Shift.{modify_all, swap_each_rev}
use cu_tty.Cell.{Cell, Palette, grid_cell, clear_wide, push_zerowidth}
use cu_tty.Cell.Flags.{
  contains, intersects, insert, remove, wrapline, wide_char, wide_char_spacer,
  leading_wide_char_spacer,
}
use cu_tty.Grid.{Grid, dimensions}
use cu_tty.Grid.Edit.{cell_at, edit_cell, edit_line}
use cu_tty.Term.{Term, point, with_point, settle, damage_cursor}
use cu_tty.Term.Moves.{at_column}
use cu_tty.Term.Scroll.{linefeed}

-- The `loop` of `put_tab` from `column` on, with `rounds` columns right of it: the next tab stop, or
-- the last column.
unfoldable pub tab_from : ℕ → List Bool → ℕ → Option ℕ
tab_from zero tabs column = some column
tab_from (suc rounds) tabs column = do
  stop ← get_elem? tabs (column + 1)
  let rest = tab_from rounds tabs (column + 1)
  if stop then some (column + 1) else rest

module _ {C H : Type 0} where
  abbrev pub set_flags : (ℕ → ℕ) → Cell C H → Cell C H
  set_flags f cell = record cell { flags = f cell.flags }

  -- The other half of the fullwidth cell or spacer `old` at the cursor is cleared.
  unfoldable pub clear_half : Cell C H → Grid (Cell C H) → Option (Grid (Cell C H))
  unfolding edit_cell contains remove last_column
  clear_half old g =
      let p = g.cursor.point in
      if contains old.flags wide_char && ltb p.column (last_column (dimensions g))
      then edit_cell (record p { column = p.column + 1 })
          (set_flags (λ flags. remove flags wide_char_spacer)) g
      else if ltb 0 p.column
      then edit_cell (record p { column = p.column - 1 }) clear_wide g
      else some g

  -- The placeholder at the end of the line above is no longer one.
  unfoldable pub clear_leading : Grid (Cell C H) → Option (Grid (Cell C H))
  unfolding edit_cell remove topmost_line last_column sub_line
  clear_leading g =
      let p = g.cursor.point in
      if leb p.column 1 && not (eqb_ℤ p.line (topmost_line (dimensions g)))
      then edit_cell (record { line = sub_line p.line 1; column = last_column (dimensions g) })
          (set_flags (λ flags. remove flags leading_wide_char_spacer)) g
      else some g

  unfoldable pub clear_related : Cell C H → Grid (Cell C H) → Option (Grid (Cell C H))
  unfolding clear_half clear_leading
  clear_related old g = do g ← clear_half old g; clear_leading g

module _ {C H S K : Type 0} where
  abbrev pub template_flags : (ℕ → ℕ) → Term (Cell C H) S K → Term (Cell C H) S K
  template_flags f t = record t {
    grid = record t.grid {
      cursor = record t.grid.cursor { template = set_flags f t.grid.cursor.template };
    };
  }

  abbrev pub needs_wrap : Term (Cell C H) S K → Term (Cell C H) S K
  needs_wrap t = record t {
    grid = record t.grid { cursor = record t.grid.cursor { input_needs_wrap = true } };
  }

  -- `charsets[active_charset].map(c)`
  abbrev pub mapped : (ℕ → ℕ → ℕ) → ℕ → Term (Cell C H) S K → Option ℕ
  mapped charset c t = do
    set ← get_elem? t.grid.cursor.charsets t.active_charset
    some (charset set c)

  -- All five fields of the cell are written.
  unfoldable pub write_at_cursor :
      (ℕ → ℕ → ℕ) → ℕ → Term (Cell C H) S K → Option (Term (Cell C H) S K)
  unfolding cell_at edit_cell clear_related intersects
  write_at_cursor charset c t = do
    c ← mapped charset c t
    let template = t.grid.cursor.template
    old ← cell_at t.grid (point t)
    g ←
        (if intersects old.flags (wide_char + wide_char_spacer)
          then clear_related old t.grid
          else some t.grid)
    g ← edit_cell (point t) (λ _. record template { c = c }) g
    some (record t { grid = g })

  -- Shifts the cells from the cursor on to the right by `width`.
  unfoldable pub shift_right : ℕ → Term (Cell C H) S K → Option (Term (Cell C H) S K)
  unfolding edit_line modify_all swap_each_rev
  shift_right width t = do
    let col = (point t).column
    g ←
        edit_line (point t).line
          (modify_all (swap_each_rev (t.grid.columns - width - col) col (col + width))) t.grid
    some (record t { grid = g })

  -- The insert mode of `input`.
  unfoldable pub make_room : ℕ → Term (Cell C H) S K → Option (Term (Cell C H) S K)
  unfolding shift_right
  make_room width t =
      if t.mode.insert && ltb ((point t).column + width) t.grid.columns
      then shift_right width t
      else some t

  -- The end of `input`: the cursor moves on, or waits to wrap.
  unfoldable pub advance : Term (Cell C H) S K → Term (Cell C H) S K
  advance t =
      if ltb ((point t).column + 1) t.grid.columns
      then at_column ((point t).column + 1) t
      else needs_wrap t

  unfoldable pub push_zero_width : ℕ → Term (Cell C H) S K → Option (Term (Cell C H) S K)
  unfolding cell_at edit_cell contains
  push_zero_width c t = do
    let here = (point t).column
    let column = if t.grid.cursor.input_needs_wrap then here else here - 1
    cell ← cell_at t.grid (record { line = (point t).line; column = column })
    let first = if contains cell.flags wide_char_spacer then column - 1 else column
    g ← edit_cell (record { line = (point t).line; column = first }) (push_zerowidth c) t.grid
    some (record t { grid = g })

module _ {C H S K : Type 0} (palette : Palette C) where
  -- `wrapline`, where lines wrap.
  unfoldable pub wrap_now : Term (Cell C H) S K → Option (Term (Cell C H) S K)
  unfolding edit_cell insert add_line damage_cursor linefeed
  wrap_now t = do
    g ← edit_cell (point t) (set_flags (λ flags. insert flags wrapline)) t.grid
    let t' = record t { grid = g }
    t ←
        (if leb_ℤ t'.region_end (add_line (point t').line 1)
          then linefeed (grid_cell palette) t'
          else (do
            t ← damage_cursor t'
            some (
                with_point t
                  (record { line = add_line (point t).line 1; column = (point t).column }))))
    damage_cursor (settle (at_column 0 t))

  -- `wrapline`
  unfoldable pub wrap_line : Term (Cell C H) S K → Option (Term (Cell C H) S K)
  unfolding wrap_now
  wrap_line t = if not t.mode.line_wrap then some t else wrap_now t

  module _ (charset : ℕ → ℕ → ℕ) where
    -- A fullwidth character, with its spacer; `none` on the left means that it does not fit.
    unfoldable pub write_wide : ℕ → Term (Cell C H) S K → Option (Term (Cell C H) S K)
    unfolding write_at_cursor insert remove
    write_wide c t = do
      t ← write_at_cursor charset c (template_flags (λ flags. insert flags wide_char) t)
      let t' = template_flags (λ flags. remove flags wide_char) t
      let next = at_column ((point t').column + 1) t'
      t ← write_at_cursor charset 32 (template_flags (λ flags. insert flags wide_char_spacer) next)
      some (advance (template_flags (λ flags. remove flags wide_char_spacer) t))

    unfoldable pub input_wide : ℕ → Term (Cell C H) S K → Option (Term (Cell C H) S K)
    unfolding write_at_cursor insert remove wrap_line write_wide
    input_wide c t =
        if leb t.grid.columns ((point t).column + 1)
        then if t.mode.line_wrap
          then (do
            t ←
                write_at_cursor charset 32
                  (template_flags (λ flags. insert flags leading_wide_char_spacer) t)
            t ← wrap_line (template_flags (λ flags. remove flags leading_wide_char_spacer) t)
            write_wide c t)
          else some (needs_wrap t)
        else write_wide c t

    unfoldable pub input_width : ℕ → ℕ → Term (Cell C H) S K → Option (Term (Cell C H) S K)
    unfolding push_zero_width wrap_line make_room write_at_cursor input_wide advance
    input_width width c t = if width == 0 then push_zero_width c t else do
      t ← (if t.grid.cursor.input_needs_wrap then wrap_line t else some t)
      t ← make_room width t
      if width == 1 then (do t ← write_at_cursor charset c t; some (advance t)) else input_wide c t

    -- A control character, whose width is `none`, is ignored.
    unfoldable pub input_measured :
        Option ℕ → ℕ → Term (Cell C H) S K → Option (Term (Cell C H) S K)
    unfolding input_width
    input_measured none c t = some t
    input_measured (some width) c t = input_width width c t

    -- `input`
    unfoldable pub input : (ℕ → Option ℕ) → ℕ → Term (Cell C H) S K → Option (Term (Cell C H) S K)
    unfolding input_measured
    input char_width c t = input_measured (char_width c) c t

    -- The rounds of `put_tab`.
    unfoldable pub put_tabs : ℕ → Term (Cell C H) S K → Option (Term (Cell C H) S K)
    unfolding edit_cell tab_from
    put_tabs zero t = some t
    put_tabs (suc count) t = if not (ltb (point t).column t.grid.columns) then some t else do
      tab ← mapped charset 9 t
      g ←
          edit_cell (point t) (λ cell. if cell.c == 32 then record cell { c = tab } else cell)
            t.grid
      col ← tab_from (t.grid.columns - ((point t).column + 1)) t.tabs (point t).column
      put_tabs count (at_column col (record t { grid = g }))

    unfoldable pub put_tab : ℕ → Term (Cell C H) S K → Option (Term (Cell C H) S K)
    unfolding put_tabs wrap_line
    put_tab count t = if t.grid.cursor.input_needs_wrap then wrap_line t else put_tabs count t
