-- ===== src/Term/Input.antt =====
-- Characters, line wraps and tabs of cutty_terminal/src/term/mod.rs keep the terminal ready for
-- more: its cursor on the screen and its grid valid.
use cu_tty.Prelude.{
  ℕ, ◌+◌, ◌≤◌, ◌<◌, ◌≡◌, refl, ◌∙◌, sym, ap, Option, some, length, get_elem?, arith, Returns,
  Returns-bind, subst, if◌then◌else◌, inl, inr, Bool-cases,
}
use cu_tty.Prelude.Int.{pos, pos_part, neg_part}
use cu_tty.Row.{GridCell}
use cu_tty.Cell.{Cell, Palette, grid_cell}
use cu_tty.Cell.Flags.{intersects, wide_char, wide_char_spacer}
use cu_tty.Grid.{Grid, Cursor}
use cu_tty.Grid.Valid.{IsValid}
use cu_tty.Grid.Edit.{
  Edited, InBuffer, CellChanged, edit_cell, edit_cell-Edited, cell_at, cell_at-Edited,
}
use cu_tty.Term.{Term, point}
use cu_tty.Term.Like.{IsLike}
use cu_tty.Term.Motion.{IsPlaced, OnScreen}
use cu_tty.Term.Write.{write_at_cursor, clear_related}
use cu_tty.Term.Ready.{
  Kept, Kept-refl, Kept-trans, Edited-Kept, screen_cell, clear_related-Kept, screen-InBuffer,
}

module _ {T : Type 0} (cell : GridCell T) where
  pub with_cursor-IsValid :
      (g : Grid T) (c : Cursor T) → IsValid cell g → IsValid cell (record g { cursor = c })
  with_cursor-IsValid g c v = record {
    sound = record {
      rows = v.sound.rows;
      has_column = v.sound.has_column;
      has_line = v.sound.has_line;
      few_lines = v.sound.few_lines;
      history_le = v.sound.history_le;
    };
    offset_le = v.offset_le;
  }

module _ {T S K : Type 0} (cell : GridCell T) where
  -- The cursor and the scroll region are on the screen, the region begins at the top, the grid is valid and has room for a fullwidth character, and the active character set is there.
  pub record IsReady (t : Term T S K) : Type 0 where
    pub is_placed : IsPlaced t
    pub valid : IsValid cell t.grid
    pub top : t.region_start ≡ pos 0
    pub wide : 2 ≤ t.grid.columns
    pub charset : t.active_charset < length t.grid.cursor.charsets

  pub IsReady-like :
      (t t' : Term T S K)
      → IsReady t
      → IsValid cell t'.grid
      → OnScreen t'.grid (point t')
      → IsLike t t'
      → IsReady t'
  IsReady-like t t' r v on l = record {
    is_placed = record {
      on_screen = on;
      damaged = omega (arith, l.same_damage, r.is_placed.damaged, l.same_lines);
      few_lines = omega (arith, r.is_placed.few_lines, l.same_lines);
      region_start_le = omega (
        arith,
        r.is_placed.region_start_le,
        l.same_lines,
        ap pos_part l.same_start,
        ap neg_part l.same_start,
      );
      region_end_le = omega (
        arith,
        r.is_placed.region_end_le,
        l.same_lines,
        ap pos_part l.same_end,
        ap neg_part l.same_end,
      );
    };
    valid = v;
    top = l.same_start ∙ r.top;
    wide = omega (arith, r.wide, l.same_columns);
    charset = omega (arith, r.charset, ap length l.same_charsets, l.same_charset);
  }

  -- Other cells of the same grid.
  pub with_cells :
      (t : Term T S K) (g : Grid T)
      → IsReady t
      → Kept cell t.grid g
      → IsReady (record t { grid = g })
  with_cells t g r k =
      IsReady-like t (record t { grid = g }) r k.valid
        (subst (λ (h : Grid T). OnScreen h h.cursor.point) (sym k.same) r.is_placed.on_screen)
        (record {
          same_lines = ap (λ (h : Grid T). h.lines) k.same;
          same_columns = ap (λ (h : Grid T). h.columns) k.same;
          same_charsets = ap (λ (h : Grid T). h.cursor.charsets) k.same;
          same_charset = refl;
          same_start = refl;
          same_end = refl;
          same_damage = refl;
        })

  -- Another cursor on the screen, with the same character sets.
  pub with_cursor :
      (t : Term T S K) (c : Cursor T)
      → IsReady t
      → OnScreen t.grid c.point
      → c.charsets ≡ t.grid.cursor.charsets
      → IsReady (record t { grid = record t.grid { cursor = c } })
  with_cursor t c r on same =
      IsReady-like t (record t { grid = record t.grid { cursor = c } }) r
        (with_cursor-IsValid cell t.grid c r.valid) on
        (record {
          same_lines = refl;
          same_columns = refl;
          same_charsets = same;
          same_charset = refl;
          same_start = refl;
          same_end = refl;
          same_damage = refl;
        })

module _ {C H S K : Type 0} (palette : Palette C) where
  -- The terminal is ready, its cursor and mode are the same, and the cell at the cursor is the template with `c`.
  pub record Written (c : ℕ) (t t' : Term (Cell C H) S K) : Type 0 where
    pub ready : IsReady (grid_cell palette) t'
    pub same_cursor : t'.grid.cursor ≡ t.grid.cursor
    pub same_columns : t'.grid.columns ≡ t.grid.columns
    pub same_mode : t'.mode ≡ t.mode
    pub written : cell_at t'.grid (point t) ≡ some (record t.grid.cursor.template { c = c })

  related-Kept :
      (t : Term (Cell C H) S K) (old : Cell C H)
      → IsReady (grid_cell palette) t
      → Returns (Kept (grid_cell palette) t.grid) (
          if intersects old.flags (wide_char + wide_char_spacer)
          then clear_related old t.grid
          else some t.grid)
  related-Kept t old r = elim (Bool-cases (intersects old.flags (wide_char + wide_char_spacer))) [
    | inl e ↦
        rw e (
          clear_related-Kept palette old t.grid r.valid r.is_placed.on_screen r.is_placed.few_lines)
    | inr e ↦ rw e (Kept-refl (grid_cell palette) t.grid r.valid)
  ]

  pub write_at_cursor-Written :
      (charset : ℕ → ℕ → ℕ) (c set : ℕ) (t : Term (Cell C H) S K)
      → IsReady (grid_cell palette) t
      → get_elem? t.grid.cursor.charsets t.active_charset ≡ some set
      → Returns (Written (charset set c) t) (write_at_cursor charset c t)
  unfolding write_at_cursor
  write_at_cursor-Written charset c set t r e =
      let (old, read) =
        screen_cell (grid_cell palette) t.grid (point t) r.valid r.is_placed.on_screen in
      rw (e, read)
        (Returns-bind (Written (charset set c) t) (related old) _ (related-Kept t old r) (λ g k.
          Returns-bind (Written (charset set c) t) (edit_cell (point t) (λ _. new) g) _
            (edit_cell-Edited (grid_cell palette) g k.valid.sound (point t) (λ _. new) (inside g k)
              (omega
                (arith, r.is_placed.on_screen, ap (λ (h : Grid (Cell C H)). h.columns) k.same)))
            (λ h ed. done g h k ed)))
    where
      new : Cell C H
      new = record t.grid.cursor.template { c = charset set c }

      related : Cell C H → Option (Grid (Cell C H))
      related old =
          if intersects old.flags (wide_char + wide_char_spacer)
          then clear_related old t.grid
          else some t.grid

      inside :
          (g : Grid (Cell C H))
          → Kept (grid_cell palette) t.grid g
          → InBuffer (grid_cell palette) g (point t).line
      inside g k =
          screen-InBuffer (grid_cell palette) g (point t) k.valid
            (subst (λ h. OnScreen h (point t)) (sym k.same) r.is_placed.on_screen)

      done :
          (g h : Grid (Cell C H))
          → Kept (grid_cell palette) t.grid g
          → Edited
              (grid_cell palette)
              (point t).line
              (CellChanged (grid_cell palette) (point t).column (λ _. new))
              g
              h
          → Written (charset set c) t (record t { grid = h })
      done g h k ed =
          let whole =
            Kept-trans (grid_cell palette) t.grid g h k
              (Edited-Kept (grid_cell palette) g h k.valid ed) in
          record {
            ready = with_cells (grid_cell palette) t h r whole;
            same_cursor = ap (λ (x : Grid (Cell C H)). x.cursor) whole.same;
            same_columns = ap (λ (x : Grid (Cell C H)). x.columns) whole.same;
            same_mode = refl;
            written = (cell_at-Edited (grid_cell palette) g h (point t) (λ _. new) ed).2;
          }
