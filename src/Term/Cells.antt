-- ===== src/Term/Cells.antt =====
-- What the erasure, insertion and deletion of cells in cutty_terminal/src/term/mod.rs do to the
-- line of the cursor, and that they leave the rest of the terminal alone.
use cu_tty.Prelude.{
  ℕ, ◌-◌, ◌<◌, ◌≡◌, refl, ◌∙◌, sym, Option, some, List, length, get_elem?, min, arith, Returns,
  Returns-eq, Returns-map, subst, le→leb, ap, ◌≤◌,
}
use cu_tty.Row.{GridCell, Row}
use cu_tty.Row.Shift.{modify_all}
use cu_tty.Row.Blanks.{
  insert_cells, insert_cells_lem, inserted, delete_cells, delete_cells_lem, deleted,
}
use cu_tty.Cell.{Cell, Palette, grid_cell}
use cu_tty.Grid.{Grid}
use cu_tty.Grid.Valid.{IsRow, IsSound}
use cu_tty.Grid.Edit.{Edited, InBuffer, edit_line, edit_line-Edited}
use cu_tty.Term.{Term, point}
use cu_tty.Term.Damage.{TermDamageState}
use cu_tty.Term.Like.{IsLike}
use cu_tty.Term.Motion.{IsPlaced, mark-eq}
use cu_tty.Term.Erase.{blank_cell, insert_blank, delete_chars}

module _ {T S K : Type 0} where
  -- The terminal with other rows and other damage.
  pub repainted :
      (t : Term T S K) (d : TermDamageState) (g : Grid T)
      → IsPlaced t
      → length d.lines ≡ length t.damage.lines
      → g ≡ record t.grid { raw = g.raw }
      → IsPlaced (record t { damage = d; grid = g })
  repainted t d g v long same =
      subst (λ h. IsPlaced (record t { damage = d; grid = h })) (sym same)
        (record {
          on_screen = v.on_screen;
          damaged = long ∙ v.damaged;
          few_lines = v.few_lines;
          region_start_le = v.region_start_le;
          region_end_le = v.region_end_le;
        })

module _ {T S K : Type 0} where
  pub redrawn :
      (t : Term T S K) (d : TermDamageState) (g : Grid T)
      → length d.lines ≡ length t.damage.lines
      → g ≡ record t.grid { raw = g.raw }
      → IsLike t (record t { damage = d; grid = g })
  redrawn t d g long same = record {
    same_lines = ap (λ (h : Grid T). h.lines) same;
    same_columns = ap (λ (h : Grid T). h.columns) same;
    same_charsets = ap (λ (h : Grid T). h.cursor.charsets) same;
    same_charset = refl;
    same_start = refl;
    same_end = refl;
    same_damage = long;
  }

module _ {T S K : Type 0} (cell : GridCell T) where
  pub cursor-InBuffer :
      (t : Term T S K) → IsPlaced t → IsSound cell t.grid → InBuffer cell t.grid (point t).line
  cursor-InBuffer t v s = omega (arith, v.on_screen, s.rows.valid.visible_le, s.rows.same_visible)

  -- The cursor's line is changed in the way of `P`, each other line, the cursor, the sizes, the mode, the scroll region and the character sets are not; the grid is sound and the cursor on the screen.
  pub record Repainted (P : Row T → Row T → Type 0) (t t' : Term T S K) : Type 0 where
    pub is_placed : IsPlaced t'
    pub edited : Edited cell (point t).line P t.grid t'.grid
    pub same_mode : t'.mode ≡ t.mode
    pub like : IsLike t t'

  -- A change of all cells of the cursor's line to as many others.
  pub edit_all-Repainted :
      (t : Term T S K) (d : TermDamageState) (P : Row T → Row T → Type 0)
      (f : List T → Option (List T))
      → IsPlaced t
      → IsSound cell t.grid
      → length d.lines ≡ length t.damage.lines
      → ((r : Row T)
          → length r.inner ≡ t.grid.columns
          → Returns
              (λ ys.
                (length ys ≡ t.grid.columns) × ((occ : ℕ) → P r (record { inner = ys; occ = occ })))
              (f r.inner))
      → (g : Grid T) × (edit_line (point t).line (modify_all f) t.grid ≡ some g)
        × Repainted P t (record t { damage = d; grid = g })
  unfolding modify_all
  edit_all-Repainted t d P f v s long keep =
      let (g, e, edited) = Returns-eq _ (
        edit_line-Edited cell t.grid s (point t).line P (modify_all f) (cursor-InBuffer t v s)
          (λ r row. change r row (keep r row.width))) in
      (
        g,
        e,
        record {
          is_placed = repainted t d g v long edited.same;
          edited = edited;
          same_mode = refl;
          like = redrawn t d g long edited.same;
        },
      )
    where
      change :
          (r : Row T)
          → IsRow cell t.grid.columns r
          → Returns
              (λ ys.
                (length ys ≡ t.grid.columns) × ((occ : ℕ) → P r (record { inner = ys; occ = occ })))
              (f r.inner)
          → Returns (λ r'. IsRow cell t.grid.columns r' × P r r') (modify_all f r)
      change r row h =
          let (ys, e, (w, p)) = Returns-eq (f r.inner) h in
          rw e (
            record {
              template = row.template;
              valid = record {
                occ_le = omega (arith, w, row.width);
                clean = λ i a b. absurd (omega (arith, w, row.width));
              };
              width = w;
            },
            p (length r.inner),
          )

module _ {C H S K : Type 0} (palette : Palette C) where
  -- Inserting blanks does not panic on a sound grid whose cursor is on the screen. In the cursor's line, `count` blank cells in the background of the cursor, or as many as fit, stand at the cursor, what stood there is moved right by as many and lost past the end, and what stands left of the cursor stays; no other line changes, the grid stays sound and the cursor where it is.
  pub insert_blank_lem :
      (t : Term (Cell C H) S K) (count : ℕ)
      → IsPlaced t
      → IsSound (grid_cell palette) t.grid
      → Returns
          (Repainted
            (grid_cell palette)
            (λ r r'.
              (k : ℕ)
              → k < t.grid.columns
              → get_elem? r'.inner k
                ≡ inserted
                    (point t).column
                    (min count (t.grid.columns - (point t).column))
                    (blank_cell palette t)
                    r.inner
                    k)
            t)
          (insert_blank palette count t)
  unfolding insert_blank
  insert_blank_lem t count v s =
      let fits : (point t).column ≤ t.grid.columns = omega (arith, v.on_screen) in
      let n = min count (t.grid.columns - (point t).column) in
      let c = blank_cell palette t in
      let (d, marked, long) =
        mark-eq t (point t).line 0 (t.grid.columns - 1) v.on_screen.0
          (omega (arith, v.on_screen, v.damaged)) in
      let (g, e, done) =
        edit_all-Repainted (grid_cell palette) t d _
          (insert_cells t.grid.columns (point t).column n c) v s long
          (λ r w.
            Returns-map (insert_cells t.grid.columns (point t).column n c r.inner)
              (λ ys h. (h.0, λ _. h.1))
              (insert_cells_lem t.grid.columns (point t).column n c r.inner w
                (omega (arith, v.on_screen)))) in
      rw (le→leb (point t).column t.grid.columns fits, marked, e) done

  -- Deleting cells does not panic on a sound grid whose cursor is on the screen. The last `count` cells of the cursor's line, or all if it has fewer, become blank in the background of the cursor, even where they stand left of the cursor; of the cells before those, what stands left of the cursor stays and each other is replaced by the one `count` columns to the right. No other line changes, the grid stays sound and the cursor where it is.
  pub delete_chars_lem :
      (t : Term (Cell C H) S K) (count : ℕ)
      → IsPlaced t
      → IsSound (grid_cell palette) t.grid
      → Returns
          (Repainted
            (grid_cell palette)
            (λ r r'.
              (k : ℕ)
              → k < t.grid.columns
              → get_elem? r'.inner k
                ≡ deleted t.grid.columns
                    (point t).column
                    (min count t.grid.columns)
                    (blank_cell palette t)
                    r.inner
                    k)
            t)
          (delete_chars palette count t)
  unfolding delete_chars
  delete_chars_lem t count v s =
      let n = min count t.grid.columns in
      let c = blank_cell palette t in
      let (d, marked, long) =
        mark-eq t (point t).line 0 (t.grid.columns - 1) v.on_screen.0
          (omega (arith, v.on_screen, v.damaged)) in
      let (g, e, done) =
        edit_all-Repainted (grid_cell palette) t d _
          (delete_cells t.grid.columns (point t).column n c) v s long
          (λ r w.
            Returns-map (delete_cells t.grid.columns (point t).column n c r.inner)
              (λ ys h. (h.0, λ _. h.1))
              (delete_cells_lem t.grid.columns (point t).column n c r.inner w
                (omega (arith, v.on_screen)) (omega arith))) in
      rw (marked, e) done
