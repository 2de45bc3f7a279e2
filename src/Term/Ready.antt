-- ===== src/Term/Ready.antt =====
-- What the operations of cutty_terminal/src/term/mod.rs that write keep: the cursor on the screen
-- and the grid valid.
use cu_tty.Prelude.Index.{get_elem?-some}
use cu_tty.Prelude.{
  ℕ, zero, suc, ◌+◌, ◌-◌, ◌<◌, ◌≡◌, refl, ◌∙◌, sym, ap, false, some, arith, Returns, Returns-bind,
  Returns-map, subst, ltb, if◌then◌else◌, inl, inr, Bool-cases, ltb_cases, leb_cases, ◌^◌, ==_cases,
}
use cu_tty.Prelude.Int.{ℤ, pos, negsuc, pos_part, neg_part, ◌-ℤ◌}
use cu_tty.Prelude.Machine.{eqb_ℤ, wrap_i32}
use cu_tty.Index.{Point, topmost_line, sub_line, last_column, history_size}
use cu_tty.Row.{GridCell, Row}
use cu_tty.Row
use cu_tty.Cell.{Cell, Palette, grid_cell, clear_wide}
use cu_tty.Cell.Flags.{contains, wide_char}
use cu_tty.Grid.{Grid, dimensions, history}
use cu_tty.Grid.Valid.{IsValid}
use cu_tty.Grid.Edit.{
  Edited, InBuffer, edit_cell, edit_cell-Edited, Edited-IsValid, line_at-IsRow, cell_at,
}
use cu_tty.Term.Motion.{OnScreen}
use cu_tty.Term.Write.{clear_half, clear_leading, clear_related}

prev_line : (n : ℕ) → suc n < 2 ^ 31 → sub_line (pos (suc n)) 1 ≡ pos n
unfolding sub_line ◌-ℤ◌ wrap_i32
prev_line n h = ground arith

line_above : sub_line (pos 0) 1 ≡ negsuc 0
unfolding sub_line ◌-ℤ◌ wrap_i32
line_above = refl

no_history : {T : Type 0} (g : Grid T) → history g ≡ 0 → topmost_line (dimensions g) ≡ pos 0
unfolding topmost_line history_size ◌-ℤ◌ wrap_i32
no_history g h = rw h

module _ {T : Type 0} (cell : GridCell T) where
  -- The grid is valid, and only its rows are others.
  pub record Kept (g g' : Grid T) : Type 0 where
    pub valid : IsValid cell g'
    pub same : g' ≡ record g { raw = g'.raw }
    pub same_len : g'.raw.len ≡ g.raw.len

  pub Kept-refl : (g : Grid T) → IsValid cell g → Kept g g
  Kept-refl g v = record { valid = v; same = refl; same_len = refl }

  pub Kept-trans : (a b c : Grid T) → Kept a b → Kept b c → Kept a c
  Kept-trans a b c h k = record {
    valid = k.valid;
    same = k.same ∙ ap (λ (g : Grid T). record g { raw = c.raw }) h.same;
    same_len = k.same_len ∙ h.same_len;
  }

  pub Edited-Kept :
      {line : ℤ} {P : Row T → Row T → Type 0} (g g' : Grid T)
      → IsValid cell g
      → Edited cell line P g g'
      → Kept g g'
  Edited-Kept g g' v e = record {
    valid = Edited-IsValid cell g g' v e;
    same = e.same;
    same_len = e.same_len;
  }

  -- One cell is written.
  pub edit_cell-Kept :
      (g : Grid T) (p : Point) (f : T → T)
      → IsValid cell g
      → InBuffer cell g p.line
      → p.column < g.columns
      → Returns (Kept g) (edit_cell p f g)
  edit_cell-Kept g p f v h k =
      Returns-map (edit_cell p f g) (λ g' e. Edited-Kept g g' v e)
        (edit_cell-Edited cell g v.sound p f h k)

  pub screen-InBuffer :
      (g : Grid T) (p : Point) → IsValid cell g → OnScreen g p → InBuffer cell g p.line
  screen-InBuffer g p v on =
      omega (arith, on, v.sound.rows.valid.visible_le, v.sound.rows.same_visible)

  -- A cell on the screen can be read.
  pub screen_cell :
      (g : Grid T) (p : Point) → IsValid cell g → OnScreen g p → (c : T) × (cell_at g p ≡ some c)
  unfolding cell_at Row.index
  screen_cell g p v on =
      let (r, e, row) = line_at-IsRow cell g v.sound p.line (screen-InBuffer g p v on) in
      let (c, e') = get_elem?-some r.inner p.column (omega (arith, on, row.width)) in (c, rw e e')

  -- The line above one on the screen is in the buffer, unless it is above the topmost.
  above-InBuffer :
      (g : Grid T) (line : ℤ)
      → IsValid cell g
      → neg_part line ≡ 0
      → pos_part line < g.lines
      → g.lines < 2 ^ 31
      → eqb_ℤ line (topmost_line (dimensions g)) ≡ false
      → InBuffer cell g (sub_line line 1)
  above-InBuffer g (pos zero) v a b few e = elim (==_cases (history g) 0) [
    | inl (_, h) ↦ absurd (differ (sym (ap (eqb_ℤ (pos 0)) (no_history g h)) ∙ e))
    | inr (_, ne) ↦ subst (InBuffer cell g) (sym line_above) (omega arith, omega arith)
  ]
    where
      differ : eqb_ℤ (pos 0) (pos 0) ≡ false → ⊥
      differ h = cc h
  above-InBuffer g (pos (suc n)) v a b few e =
      subst (InBuffer cell g) (sym (prev_line n (omega arith)))
        (omega (arith, v.sound.rows.valid.visible_le, v.sound.rows.same_visible))
  above-InBuffer g (negsuc n) v a b few e = absurd (omega arith)

module _ {C H : Type 0} (palette : Palette C) where
  clear_half-Kept :
      (old : Cell C H) (g : Grid (Cell C H))
      → IsValid (grid_cell palette) g
      → OnScreen g g.cursor.point
      → Returns (Kept (grid_cell palette) g) (clear_half old g)
  unfolding clear_half last_column
  clear_half-Kept old g v on =
      let here = screen-InBuffer (grid_cell palette) g g.cursor.point v on in
      elim (Bool-cases (contains old.flags wide_char)) [
        | inl w ↦ elim (ltb_cases g.cursor.point.column (g.columns - 1)) [
          | inl (e, l) ↦
              rw (w, e)
                (edit_cell-Kept (grid_cell palette) g
                  (record { line = g.cursor.point.line; column = g.cursor.point.column + 1 }) _ v
                  here (omega arith))
          | inr (e, l) ↦ rw (w, e) (left g v on here)
        ]
        | inr w ↦ rw w (left g v on here)
      ]
    where
      left :
          (g : Grid (Cell C H)) (v : IsValid (grid_cell palette) g)
          → OnScreen g g.cursor.point
          → InBuffer (grid_cell palette) g g.cursor.point.line
          → Returns (Kept (grid_cell palette) g) (
              if ltb 0 g.cursor.point.column
              then edit_cell
                  (record g.cursor.point { column = g.cursor.point.column - 1 })
                  clear_wide
                  g
              else some g)
      left g v on here = elim (ltb_cases 0 g.cursor.point.column) [
        | inl (e, l) ↦ rw e (
            edit_cell-Kept (grid_cell palette) g
              (record { line = g.cursor.point.line; column = g.cursor.point.column - 1 }) _ v here
              (omega (arith, on)))
        | inr (e, l) ↦ rw e (Kept-refl (grid_cell palette) g v)
      ]

  clear_leading-Kept :
      (g : Grid (Cell C H))
      → IsValid (grid_cell palette) g
      → OnScreen g g.cursor.point
      → g.lines < 2 ^ 31
      → Returns (Kept (grid_cell palette) g) (clear_leading g)
  unfolding clear_leading last_column
  clear_leading-Kept g v on few = elim (leb_cases g.cursor.point.column 1) [
    | inl (e, _) ↦ elim (Bool-cases (eqb_ℤ g.cursor.point.line (topmost_line (dimensions g)))) [
      | inl q ↦ rw (e, q) (Kept-refl (grid_cell palette) g v)
      | inr q ↦
          rw (e, q)
            (edit_cell-Kept (grid_cell palette) g _ _ v
              (above-InBuffer (grid_cell palette) g g.cursor.point.line v on.0 on.1 few q)
              (omega (arith, on)))
    ]
    | inr (e, _) ↦ rw e (Kept-refl (grid_cell palette) g v)
  ]

  Kept-OnScreen :
      (g g' : Grid (Cell C H))
      → Kept (grid_cell palette) g g'
      → OnScreen g g.cursor.point
      → OnScreen g' g'.cursor.point
  Kept-OnScreen g g' k on = subst (λ h. OnScreen h h.cursor.point) (sym k.same) on

  pub clear_related-Kept :
      (old : Cell C H) (g : Grid (Cell C H))
      → IsValid (grid_cell palette) g
      → OnScreen g g.cursor.point
      → g.lines < 2 ^ 31
      → Returns (Kept (grid_cell palette) g) (clear_related old g)
  unfolding clear_related
  clear_related-Kept old g v on few =
      Returns-bind (Kept (grid_cell palette) g) (clear_half old g) clear_leading
        (clear_half-Kept old g v on)
        (λ h k.
          Returns-map (clear_leading h) (λ i l. Kept-trans (grid_cell palette) g h i k l)
            (clear_leading-Kept h k.valid (Kept-OnScreen g h k on)
              (omega (arith, few, ap (λ (x : Grid (Cell C H)). x.lines) k.same))))
