-- ===== src/Term/Total.antt =====
-- Every character and every tab of cutty_terminal/src/term/mod.rs leaves a terminal that is ready
-- ready, whatever its width.
use cu_tty.Prelude.{
  ℕ, ◌+◌, ◌-◌, ◌<◌, ◌≡◌, refl, ◌∙◌, ap, Bool, true, false, ◌==◌, Option, none, some, arith, Returns,
  Returns-bind, Returns-map, if◌then◌else◌, ◌>>=◌, inl, inr, Bool-cases, leb_cases,
}
use cu_tty.Prelude.Index.{get_elem?-some}
use cu_tty.Row.{IsLawful}
use cu_tty.Cell.{Cell, Palette, grid_cell, push_zerowidth}
use cu_tty.Cell.Flags.{
  contains, insert, remove, wide_char, wide_char_spacer, leading_wide_char_spacer,
}
use cu_tty.Grid.{Cursor}
use cu_tty.Grid.Edit.{edit_cell}
use cu_tty.Term.{Term, Modes, point}
use cu_tty.Term.Moves.{at_column}
use cu_tty.Term.Write.{
  needs_wrap, write_at_cursor, wrap_line, make_room, input, input_measured, input_width,
  push_zero_width, input_wide, write_wide, template_flags, advance,
}
use cu_tty.Term.Ready.{edit_cell-Kept, screen_cell, screen-InBuffer}
use cu_tty.Term.Input.{IsReady, with_cells, with_cursor, write_at_cursor-Written}
use cu_tty.Term.Wrap.{Wrapped, wrap_line-Wrapped}
use cu_tty.Term.Typing.{RoomMade, make_room-RoomMade, Begun, start-Begun, advance-IsReady}

module _ {C H S K : Type 0} (palette : Palette C) (law : IsLawful (grid_cell {H = H} palette)) where
  abbrev Ready : Term (Cell C H) S K → Type 0
  Ready = IsReady (grid_cell palette)

  -- One cell of the cursor's line is changed.
  edit-Ready :
      (t : Term (Cell C H) S K) (column : ℕ) (f : Cell C H → Cell C H)
      → Ready t
      → column < t.grid.columns
      → Returns Ready (
          edit_cell (record { line = (point t).line; column = column }) f t.grid >>= λ g.
          some (record t { grid = g }))
  edit-Ready t column f r h =
      Returns-bind Ready (edit_cell (record { line = (point t).line; column = column }) f t.grid) _
        (edit_cell-Kept (grid_cell palette) t.grid
          (record { line = (point t).line; column = column }) f r.valid
          (screen-InBuffer (grid_cell palette) t.grid (point t) r.valid r.is_placed.on_screen) h)
        (λ g k. with_cells (grid_cell palette) t g r k)

  -- The column that a character without width is for.
  push_zero_width-Ready :
      (c : ℕ) (t : Term (Cell C H) S K) → Ready t → Returns Ready (push_zero_width c t)
  unfolding push_zero_width
  push_zero_width-Ready c t r =
      let column =
        if t.grid.cursor.input_needs_wrap then (point t).column else (point t).column - 1 in
      let low : column < t.grid.columns = ground (arith, r.is_placed.on_screen.2) in
      let (old, e) =
        screen_cell (grid_cell palette) t.grid (record { line = (point t).line; column = column })
          r.valid (r.is_placed.on_screen.0, r.is_placed.on_screen.1, low) in
      rw e (
        edit-Ready t (if contains old.flags wide_char_spacer then column - 1 else column)
          (push_zerowidth c) r (ground (arith, low)))

  -- The terminal is ready, with the same cursor, width and modes.
  abbrev Stays : Term (Cell C H) S K → Term (Cell C H) S K → Type 0
  Stays t u =
      Ready u
      × (u.grid.cursor ≡ t.grid.cursor)
      × (u.grid.columns ≡ t.grid.columns)
      × (u.mode ≡ t.mode)

  -- The character is written, and the cursor stays.
  writes :
      (charset : ℕ → ℕ → ℕ) (c : ℕ) (t : Term (Cell C H) S K)
      → Ready t
      → Returns (Stays t) (write_at_cursor charset c t)
  writes charset c t r =
      let (set, e) = get_elem?-some t.grid.cursor.charsets t.active_charset r.charset in
      Returns-map (write_at_cursor charset c t)
        (λ u w. (w.ready, w.same_cursor, w.same_columns, w.same_mode))
        (write_at_cursor-Written palette charset c set t r e)

  flagged : (f : ℕ → ℕ) (t : Term (Cell C H) S K) → Ready t → Ready (template_flags f t)
  flagged f t r =
      with_cursor (grid_cell palette) t (template_flags f t).grid.cursor r r.is_placed.on_screen
        refl

  write_wide-Ready :
      (charset : ℕ → ℕ → ℕ) (c : ℕ) (t : Term (Cell C H) S K)
      → Ready t
      → (point t).column + 1 < t.grid.columns
      → Returns Ready (write_wide palette charset c t)
  unfolding write_wide
  write_wide-Ready charset c t r h =
      Returns-bind Ready
        (write_at_cursor charset c (template_flags (λ flags. insert flags wide_char) t)) _
        (writes charset c (template_flags (λ flags. insert flags wide_char) t)
          (flagged (λ flags. insert flags wide_char) t r))
        (λ u (ready, cursor, columns, _).
          let u' = template_flags (λ flags. remove flags wide_char) u in
          let ready' : Ready (at_column ((point u').column + 1) u') =
            with_cursor (grid_cell palette) u' (at_column ((point u').column + 1) u').grid.cursor
              (flagged (λ flags. remove flags wide_char) u ready)
              (
                ready.is_placed.on_screen.0,
                ready.is_placed.on_screen.1,
                omega (arith, h, columns, ap (λ (x : Cursor (Cell C H)). x.point.column) cursor),
              )
              refl in
          Returns-bind
            {P = Stays (
              template_flags (λ flags. insert flags wide_char_spacer)
                (at_column ((point u').column + 1) u'))}
            Ready _ _
            (writes charset 32 _ (
              flagged (λ flags. insert flags wide_char_spacer)
                (at_column ((point u').column + 1) u') ready'))
            (λ w (last, _, _, _).
              (advance-IsReady palette law
                (template_flags (λ flags. remove flags wide_char_spacer) w)
                (flagged (λ flags. remove flags wide_char_spacer) w last)).0))

  input_wide-Ready :
      (charset : ℕ → ℕ → ℕ) (c : ℕ) (t : Term (Cell C H) S K)
      → Ready t
      → Returns Ready (input_wide palette charset c t)
  unfolding input_wide
  input_wide-Ready charset c t r = elim (leb_cases t.grid.columns ((point t).column + 1)) [
    | inr (e, l) ↦ rw e (write_wide-Ready charset c t r l)
    | inl (e, _) ↦ rw e (by_mode t.mode.line_wrap refl)
  ]
    where
      placeholder : Term (Cell C H) S K
      placeholder = template_flags (λ flags. insert flags leading_wide_char_spacer) t

      by_mode :
          (b : Bool)
          → t.mode.line_wrap ≡ b
          → Returns Ready (
              if b
              then (write_at_cursor charset 32 placeholder >>= λ u.
                  wrap_line palette
                    (template_flags (λ flags. remove flags leading_wide_char_spacer) u)
                  >>= λ w. write_wide palette charset c w)
              else some (needs_wrap t))
      by_mode false e =
          with_cursor (grid_cell palette) t (needs_wrap t).grid.cursor r r.is_placed.on_screen refl
      by_mode true e =
          Returns-bind Ready (write_at_cursor charset 32 placeholder) _
            (writes charset 32 placeholder
              (flagged (λ flags. insert flags leading_wide_char_spacer) t r))
            (λ u (ready, _, _, mode).
              let v = template_flags (λ flags. remove flags leading_wide_char_spacer) u in
              Returns-bind {P = Wrapped palette law v} Ready (wrap_line palette v)
                (write_wide palette charset c)
                (wrap_line-Wrapped palette law v
                  (flagged (λ flags. remove flags leading_wide_char_spacer) u ready))
                (λ w wrapped.
                  let now = wrapped.1 (ap (λ (m : Modes K). m.line_wrap) mode ∙ e) in
                  write_wide-Ready charset c w wrapped.0.0
                    (omega (arith, now.1, wrapped.0.0.wide))))

  -- No input panics on a terminal that is ready, whatever the width of the character, and the terminal is ready again.
  pub input-Ready :
      (charset : ℕ → ℕ → ℕ) (char_width : ℕ → Option ℕ) (c : ℕ) (t : Term (Cell C H) S K)
      → Ready t
      → Returns Ready (input palette charset char_width c t)
  unfolding input input_measured input_width
  input-Ready charset char_width c t r = by_width (char_width c)
    where
      narrow :
          (width : ℕ) (t : Term (Cell C H) S K)
          → Ready t
          → Returns Ready (
              if width == 1
              then (write_at_cursor charset c t >>= λ u. some (advance u))
              else input_wide palette charset c t)
      narrow width t r = elim (Bool-cases (width == 1)) [
        | inl e ↦ rw e (
            Returns-bind Ready (write_at_cursor charset c t) _ (writes charset c t r)
              (λ u w. (advance-IsReady palette law u w.0).0))
        | inr e ↦ rw e (input_wide-Ready charset c t r)
      ]

      by_width : (w : Option ℕ) → Returns Ready (input_measured palette charset w c t)
      by_width none = r
      by_width (some width) = elim (Bool-cases (width == 0)) [
        | inl e ↦ rw e (push_zero_width-Ready c t r)
        | inr e ↦ rw e (
            Returns-bind {P = Begun palette law t} Ready _ _ (start-Begun palette law t r)
              (λ u begun.
                Returns-bind {P = RoomMade palette law u} Ready (make_room width u) _
                  (make_room-RoomMade palette law width u begun.0.0)
                  (λ v room. narrow width v room.0.0)))
      ]
