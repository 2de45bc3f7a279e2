-- ===== src/Term/Typing.antt =====
-- The characters of cutty_terminal/src/term/mod.rs: every `input` on a terminal that is ready leaves
-- it ready, and a character of one column stands where the cursor was.
use cu_tty.Prelude.Int.{ℤ}
use cu_tty.Prelude.{
  ℕ, ◌+◌, ◌-◌, ◌≤◌, ◌<◌, ◌≡◌, refl, ◌∙◌, sym, ap, Bool, true, false, not, ◌&&◌, Option, some,
  get_elem?, arith, Returns, Returns-bind, Returns-map, subst, ltb, if◌then◌else◌, ◌>>=◌, inl, inr,
  ltb_cases, ap₂,
}
use cu_tty.Index.{Point}
use cu_tty.Row.{IsLawful}
use cu_tty.Row.Shift.{swap_each_rev, swap_each_rev-Pushed, Pushed}
use cu_tty.Cell.{Cell, Palette, grid_cell}
use cu_tty.Grid.{Grid, Cursor}
use cu_tty.Grid.Edit.{cell_at, cell_at-raw}
use cu_tty.Term.{Term, point}
use cu_tty.Term.Moves.{at_column}
use cu_tty.Term.Cells.{edit_all-Repainted}
use cu_tty.Term.Write.{
  make_room, advance, needs_wrap, write_at_cursor, wrap_line, input, input_measured, input_width,
  shift_right,
}
use cu_tty.Term.Ready.{Edited-Kept}
use cu_tty.Term.Input.{IsReady, with_cursor, write_at_cursor-Written}
use cu_tty.Term.Frame.{Framed-refl, Framed-trans}
use cu_tty.Term.Wrap.{Again, wrap_line-Wrapped, begun}

module _ {C H S K : Type 0} (palette : Palette C) (law : IsLawful (grid_cell {H = H} palette)) where
  -- The terminal is ready, and only its rows differ.
  abbrev pub RoomMade : Term (Cell C H) S K → Term (Cell C H) S K → Type 0
  RoomMade t t' = Again (grid_cell palette) law t t' × (t'.grid.cursor ≡ t.grid.cursor)

  shift_right-RoomMade :
      (width : ℕ) (t : Term (Cell C H) S K)
      → IsReady (grid_cell palette) t
      → (point t).column + width < t.grid.columns
      → Returns (RoomMade t) (shift_right width t)
  unfolding shift_right
  shift_right-RoomMade width t r h =
      let n = t.grid.columns - width - (point t).column in
      let shift = swap_each_rev {T = Cell C H} n (point t).column ((point t).column + width) in
      let (g, e, done) =
        edit_all-Repainted (grid_cell palette) t t.damage
          (λ r r'. Pushed n (point t).column ((point t).column + width) r.inner r'.inner) shift
          r.is_placed r.valid.sound refl
          (λ row w.
            Returns-map (shift row.inner) (λ ys p. (p.0 ∙ w, λ _. p))
              (swap_each_rev-Pushed n (point t).column ((point t).column + width) row.inner
                (omega arith) (omega (arith, w, h)))) in
      let kept = Edited-Kept (grid_cell palette) t.grid g r.valid done.edited in
      rw e (begun palette law t g r kept, ap (λ (x : Grid (Cell C H)). x.cursor) kept.same)

  pub make_room-RoomMade :
      (width : ℕ) (t : Term (Cell C H) S K)
      → IsReady (grid_cell palette) t
      → Returns (RoomMade t) (make_room width t)
  unfolding make_room
  make_room-RoomMade width t r =
      by_room (t.mode.insert && ltb ((point t).column + width) t.grid.columns) (λ h. ground arith)
    where
      by_room :
          (b : Bool)
          → (b ≡ true → (point t).column + width < t.grid.columns)
          → Returns (RoomMade t) (if b then shift_right width t else some t)
      by_room true h = shift_right-RoomMade width t r (h refl)
      by_room false h = ((r, Framed-refl t), refl)

  -- The column in which a character is written.
  abbrev pub first_column : Term (Cell C H) S K → ℕ
  first_column t =
      if t.grid.cursor.input_needs_wrap && t.mode.line_wrap then 0 else (point t).column

  -- The line has been wrapped if the cursor waited for it and lines wrap.
  abbrev pub Begun : Term (Cell C H) S K → Term (Cell C H) S K → Type 0
  Begun t t' =
      Again (grid_cell palette) law t t'
      × ((point t').column ≡ first_column t)
      × (t'.grid.cursor.input_needs_wrap ≡ (t.grid.cursor.input_needs_wrap && not t.mode.line_wrap))

  pub start-Begun :
      (t : Term (Cell C H) S K)
      → IsReady (grid_cell palette) t
      → Returns (Begun t) (if t.grid.cursor.input_needs_wrap then wrap_line palette t else some t)
  start-Begun t r = by_wait t.grid.cursor.input_needs_wrap t.mode.line_wrap refl refl
    where
      by_wait :
          (b l : Bool)
          → t.grid.cursor.input_needs_wrap ≡ b
          → t.mode.line_wrap ≡ l
          → Returns
              (λ t'.
                Again (grid_cell palette) law t t'
                × ((point t').column ≡ (if b && l then 0 else (point t).column))
                × (t'.grid.cursor.input_needs_wrap ≡ (b && not l)))
              (if b then wrap_line palette t else some t)
      by_wait false l e f = ((r, Framed-refl t), refl, e)
      by_wait true true e f =
          Returns-map (wrap_line palette t) (λ t' w. w.1 f) (wrap_line-Wrapped palette law t r)
      by_wait true false e f =
          Returns-map (wrap_line palette t)
            (λ t' w. (
              w.0,
              ap (λ (x : Term (Cell C H) S K). (point x).column) (w.2 f),
              ap (λ (x : Term (Cell C H) S K). x.grid.cursor.input_needs_wrap) (w.2 f) ∙ e,
            ))
            (wrap_line-Wrapped palette law t r)

  -- The cursor after a character at `column` that needs one cell: in the next column, or waiting in the last one.
  abbrev pub AdvancedFrom : ℕ → Bool → Term (Cell C H) S K → Type 0
  AdvancedFrom column waits t =
      (column + 1 < t.grid.columns
        → ((point t).column ≡ column + 1) × (t.grid.cursor.input_needs_wrap ≡ waits))
      × (t.grid.columns ≤ column + 1
          → ((point t).column ≡ column) × (t.grid.cursor.input_needs_wrap ≡ true))

  pub advance-IsReady :
      (t : Term (Cell C H) S K)
      → IsReady (grid_cell palette) t
      → IsReady (grid_cell palette) (advance t)
        × AdvancedFrom (point t).column t.grid.cursor.input_needs_wrap (advance t)
        × ((advance t).grid.raw ≡ t.grid.raw)
        × ((point (advance t)).line ≡ (point t).line)
  unfolding advance
  advance-IsReady t r = elim (ltb_cases ((point t).column + 1) t.grid.columns) [
    | inl (e, l) ↦ rw e (
      with_cursor (grid_cell palette) t (at_column ((point t).column + 1) t).grid.cursor r
          (r.is_placed.on_screen.0, r.is_placed.on_screen.1, l) refl,
      (λ _. (refl, refl), λ h. absurd (omega arith)),
      refl,
      refl,
    )
    | inr (e, l) ↦ rw e (
      with_cursor (grid_cell palette) t (needs_wrap t).grid.cursor r r.is_placed.on_screen refl,
      (λ h. absurd (omega arith), λ _. (refl, refl)),
      refl,
      refl,
    )
  ]

  -- The character `c` has been typed on the terminal `t`.
  pub record Typed (c : ℕ) (t t' : Term (Cell C H) S K) : Type 0 where
    pub ready : IsReady (grid_cell palette) t'
    pub written :
        cell_at t'.grid (record { line = (point t').line; column = first_column t })
        ≡ some (record t.grid.cursor.template { c = c })
    pub advanced :
        AdvancedFrom (first_column t) (t.grid.cursor.input_needs_wrap && not t.mode.line_wrap) t'

  ends_narrow :
      (charset : ℕ → ℕ → ℕ) (c set : ℕ) (t u : Term (Cell C H) S K)
      → get_elem? t.grid.cursor.charsets t.active_charset ≡ some set
      → Again (grid_cell palette) law t u
      → (point u).column ≡ first_column t
      → u.grid.cursor.input_needs_wrap ≡ (t.grid.cursor.input_needs_wrap && not t.mode.line_wrap)
      → Returns (Typed (charset set c) t) (write_at_cursor charset c u >>= λ w. some (advance w))
  ends_narrow charset c set t u e (r, f) col waits =
      Returns-bind (Typed (charset set c) t) (write_at_cursor charset c u) _
        (write_at_cursor-Written palette charset c set u r (
          ap (λ n. get_elem? u.grid.cursor.charsets n) f.like.same_charset
          ∙ ap (λ l. get_elem? l t.active_charset) f.like.same_charsets
          ∙ e))
        (λ w h.
          let (ready, advanced, raw, line) = advance-IsReady w h.ready in
          record {
            ready = ready;
            written =
                cell_at-raw (advance w).grid w.grid raw (place w)
                ∙ ap (cell_at w.grid) (
                    ap₂ (λ (l : ℤ) (n : ℕ). let p : Point = record { line = l; column = n } in p)
                      (line ∙ ap (λ (x : Cursor (Cell C H)). x.point.line) h.same_cursor) (sym col))
                ∙ h.written
                ∙ ap (λ (x : Cell C H). some (record x { c = charset set c })) f.same_template;
            advanced =
                subst
                  (λ n.
                    AdvancedFrom n (t.grid.cursor.input_needs_wrap && not t.mode.line_wrap)
                      (advance w))
                  (ap (λ (x : Cursor (Cell C H)). x.point.column) h.same_cursor ∙ col)
                  (subst (λ b. AdvancedFrom (point w).column b (advance w))
                    (ap (λ (x : Cursor (Cell C H)). x.input_needs_wrap) h.same_cursor ∙ waits)
                    advanced);
          })
    where
      place : Term (Cell C H) S K → Point
      place w = record { line = (point (advance w)).line; column = first_column t }

  -- On a terminal that is ready, whose lines may wrap, scroll at the bottom or be shifted in insert mode, the input of a character that takes one column does not panic and leaves the terminal ready. The character, in the active character set and with the attributes of the cursor, stands in the cursor's line at the column where the cursor was, or in the first column if the cursor waited to wrap and lines wrap. The cursor is in the next column, and where that was the last column it stays and waits.
  pub input_narrow :
      (charset : ℕ → ℕ → ℕ) (char_width : ℕ → Option ℕ) (c set : ℕ) (t : Term (Cell C H) S K)
      → IsReady (grid_cell palette) t
      → char_width c ≡ some 1
      → get_elem? t.grid.cursor.charsets t.active_charset ≡ some set
      → Returns (Typed (charset set c) t) (input palette charset char_width c t)
  unfolding input input_measured input_width
  input_narrow charset char_width c set t r one e =
      subst (λ w. Returns (Typed (charset set c) t) (input_measured palette charset w c t))
        (sym one)
        (Returns-bind {P = Begun t} (Typed (charset set c) t) _ _ (start-Begun t r) (λ u begun.
          Returns-bind {P = RoomMade u} (Typed (charset set c) t) (make_room 1 u) _
            (make_room-RoomMade 1 u begun.0.0)
            (λ w room.
              ends_narrow charset c set t w e (room.0.0, Framed-trans t u w begun.0.1 room.0.1)
                (ap (λ (x : Cursor (Cell C H)). x.point.column) room.1 ∙ begun.1)
                (ap (λ (x : Cursor (Cell C H)). x.input_needs_wrap) room.1 ∙ begun.2))))
