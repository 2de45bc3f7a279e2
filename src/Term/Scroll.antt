-- ===== src/Term/Scroll.antt =====
-- The scrolling of cutty_terminal/src/term/mod.rs, with the selection and the vi cursor, and what
-- scrolls: linefeeds and the insertion and deletion of lines.
use cu_tty.Prelude.{
  ℕ, ◌-◌, Bool, ◌&&◌, ltb, leb, if◌then◌else◌, Option, some, min, ◌>>=◌, ◌>>◌, assert,
}
use cu_tty.Prelude.Int.{ℤ, pos, ltb_ℤ}
use cu_tty.Prelude.Machine.{leb_ℤ, eqb_ℤ, min_ℤ, max_ℤ, sub_i32, as_i32}
use cu_tty.Index.{Point, add_line, sub_line}
use cu_tty.Selection.{Selection}
use cu_tty.Selection
use cu_tty.Row.{GridCell}
use cu_tty.Grid.{Cursor, Grid, dimensions}
use cu_tty.Grid
use cu_tty.Term.{
  as_index, as_usize, size, point, with_point, mark_fully_damaged, damage_cursor, Term,
}
use cu_tty.Term.Moves.{carriage_return}

module _ {T S K : Type 0} (cell : GridCell T) where
  unfoldable pub scroll_down_relative : ℤ → ℕ → Term T S K → Option (Term T S K)
  scroll_down_relative origin lines t = do
    let count =
        min (min lines (as_usize (sub_i32 t.region_end t.region_start)))
          (as_usize (sub_i32 t.region_end origin))
    let selection =
        t.selection
        >>= (λ s. Selection.rotate s (size t) origin t.region_end (sub_i32 (pos 0) (as_i32 count)))
    let vi = t.vi_mode_cursor
    let vi' : Point =
        if leb_ℤ origin vi.line && ltb_ℤ vi.line t.region_end
        then record {
          line = min_ℤ (add_line vi.line count) (sub_i32 t.region_end (pos 1));
          column = vi.column;
        }
        else vi
    grid ← Grid.scroll_down cell t.grid origin t.region_end count
    some
        (mark_fully_damaged (record t { selection = selection; vi_mode_cursor = vi'; grid = grid }))

  unfoldable pub scroll_up_relative : ℤ → ℕ → Term T S K → Option (Term T S K)
  scroll_up_relative origin lines t = do
    let count = min lines (as_usize (sub_i32 t.region_end t.region_start))
    let selection =
        t.selection >>= (λ s. Selection.rotate s (size t) origin t.region_end (as_i32 count))
    grid ← Grid.scroll_up cell t.grid origin t.region_end count
    let top = if eqb_ℤ origin (pos 0) then sub_i32 (pos 0) (as_i32 grid.display_offset) else origin
    let vi = t.vi_mode_cursor
    let vi' : Point =
        if leb_ℤ top vi.line && ltb_ℤ vi.line t.region_end
        then record { line = max_ℤ (sub_line vi.line count) top; column = vi.column }
        else vi
    some
        (mark_fully_damaged (record t { selection = selection; vi_mode_cursor = vi'; grid = grid }))

  unfoldable pub scroll_up : ℕ → Term T S K → Option (Term T S K)
  scroll_up lines t = scroll_up_relative t.region_start lines t

  unfoldable pub scroll_down : ℕ → Term T S K → Option (Term T S K)
  scroll_down lines t = scroll_down_relative t.region_start lines t

  unfoldable pub linefeed : Term T S K → Option (Term T S K)
  unfolding damage_cursor
  linefeed t =
      let next = add_line (point t).line 1 in
      if eqb_ℤ next t.region_end
      then scroll_up 1 t
      else if ltb_ℤ next (as_i32 t.grid.lines)
      then (do
        t ← damage_cursor t
        damage_cursor
            (with_point t (record { line = add_line (point t).line 1; column = (point t).column })))
      else some t

  unfoldable pub newline : Term T S K → Option (Term T S K)
  unfolding linefeed carriage_return
  newline t = do t ← linefeed t; if t.mode.line_feed_new_line then carriage_return t else some t

  unfoldable pub reverse_index : Term T S K → Option (Term T S K)
  unfolding damage_cursor
  reverse_index t = if eqb_ℤ (point t).line t.region_start then scroll_down 1 t else do
    t ← damage_cursor t
    damage_cursor (
        with_point t
          (record { line = max_ℤ (sub_line (point t).line 1) (pos 0); column = (point t).column }))

  -- `self.scroll_region.contains(&origin)`
  abbrev pub in_region : ℤ → Term T S K → Bool
  in_region origin t = leb_ℤ t.region_start origin && ltb_ℤ origin t.region_end

  unfoldable pub insert_blank_lines : ℕ → Term T S K → Option (Term T S K)
  insert_blank_lines lines t =
      if in_region (point t).line t then scroll_down_relative (point t).line lines t else some t

  -- `self.screen_lines() - origin.0 as usize` panics below 0.
  unfoldable pub delete_lines : ℕ → Term T S K → Option (Term T S K)
  delete_lines lines t = do
    origin ← as_index (point t).line
    assert (leb origin t.grid.lines)
    let count = min (t.grid.lines - origin) lines
    if ltb 0 count && in_region (point t).line t
        then scroll_up_relative (point t).line count t
        else some t
