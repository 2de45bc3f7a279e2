-- ===== src/Grid/Edit.antt =====
-- Reads and writes of one line through the `Index` and `IndexMut` of grid/mod.rs.
use cu_tty.Prelude.{
  ◌<◌, ◌≡◌, ◌≢◌, refl, ◌∙◌, sym, ap, Option, some, length, get_elem?, set, arith, Returns,
  Returns-eq, ◌>>=◌, subst, inl, inr, ==_cases, get_elem?-set_ne, get_elem?-set_self, ℕ, max, ◌+◌,
}
use cu_tty.Prelude.Int.{ℤ}
use cu_tty.Prelude.Index.{get_elem?-set, get_elem?-some, get_elem?-lt}
use cu_tty.Row.{GridCell, Row}
use cu_tty.Row
use cu_tty.Row.Valid.{modify-IsValid}
use cu_tty.Storage.{Storage}
use cu_tty.Storage
use cu_tty.Storage.Ring.{
  IsLine, offset, offset_inj, offset-parts, ring, Holds, modify-Holds, index-eq, length-ring,
}
use cu_tty.Index.{Point}
use cu_tty.Grid.{Grid}
use cu_tty.Grid.Valid.{IsRow, IsSound, IsValid}

module _ {T : Type 0} where
  -- `grid[line]`
  unfoldable pub line_at : Grid T → ℤ → Option (Row T)
  line_at g line = Storage.index g.raw line

  -- `grid[point]`
  unfoldable pub cell_at : Grid T → Point → Option T
  unfolding line_at
  cell_at g p = do row ← line_at g p.line; Row.index row p.column

  -- `grid[line]` as a place that is written to.
  unfoldable pub edit_line : ℤ → (Row T → Option (Row T)) → Grid T → Option (Grid T)
  edit_line line f g = do raw ← Storage.modify line f g.raw; some (record g { raw = raw })

  -- `grid[point]` as a place that is written to.
  unfoldable pub edit_cell : Point → (T → T) → Grid T → Option (Grid T)
  unfolding edit_line
  edit_cell p f g = edit_line p.line (Row.modify p.column f) g

module _ {T : Type 0} where
  pub cell_at-raw : (g h : Grid T) → g.raw ≡ h.raw → (p : Point) → cell_at g p ≡ cell_at h p
  unfolding cell_at line_at
  cell_at-raw g h e p = ap (λ s. Storage.index s p.line >>= λ (r : Row T). Row.index r p.column) e

module _ {T : Type 0} (cell : GridCell T) where
  -- The grid is sound and differs in its rows alone, of these only at one line, where `P` relates the row to the one before.
  pub record Edited (line : ℤ) (P : Row T → Row T → Type 0) (g g' : Grid T) : Type 0 where
    pub sound : IsSound cell g'
    pub same : g' ≡ record g { raw = g'.raw }
    pub same_len : g'.raw.len ≡ g.raw.len
    pub old : Row T
    pub new : Row T
    pub was : line_at g line ≡ some old
    pub is : line_at g' line ≡ some new
    pub related : P old new
    pub others : (l : ℤ) → IsLine g.lines g.raw.len l → l ≢ line → line_at g' l ≡ line_at g l

  abbrev pub InBuffer : Grid T → ℤ → Type 0
  InBuffer g line = IsLine g.lines g.raw.len line

  -- The cell at one column is changed.
  abbrev pub CellChanged : ℕ → (T → T) → Row T → Row T → Type 0
  CellChanged column f r r' =
      (c : T) × (get_elem? r.inner column ≡ some c) × (r'.inner ≡ set r.inner column (f c))

  modify-eq :
      (column : ℕ) (f : T → T) (r : Row T) (c : T)
      → get_elem? r.inner column ≡ some c
      → Row.modify column f r
        ≡ some (record { inner = set r.inner column (f c); occ = max r.occ (column + 1) })
  unfolding Row.modify
  modify-eq column f r c e = rw e

  modify-CellChanged :
      (columns column : ℕ) (f : T → T) (r : Row T)
      → IsRow cell columns r
      → column < columns
      → Returns (λ r'. IsRow cell columns r' × CellChanged column f r r') (Row.modify column f r)
  modify-CellChanged columns column f r row h =
      let (c, e) = get_elem?-some r.inner column (omega (arith, row.width)) in
      let (r', e', vw) =
        Returns-eq (Row.modify column f r)
          (modify-IsValid cell row.template r column f row.valid (omega (arith, row.width))) in
      rw e' (
        record { template = row.template; valid = vw.0; width = vw.1 ∙ row.width },
        (c, e, cc (sym e' ∙ modify-eq column f r c e)),
      )

  -- A change of one line keeps the grid valid.
  pub Edited-IsValid :
      {line : ℤ} {P : Row T → Row T → Type 0} (g g' : Grid T)
      → IsValid cell g
      → Edited line P g g'
      → IsValid cell g'
  Edited-IsValid g g' v e = record {
    sound = e.sound;
    offset_le = omega (
      arith,
      v.offset_le,
      e.same_len,
      ap (λ (h : Grid T). h.display_offset) e.same,
      ap (λ (h : Grid T). h.lines) e.same,
    );
  }

  module _ (g : Grid T) (v : IsSound cell g) where
    row_of :
        (line : ℤ)
        → InBuffer g line
        → (r : Row T) × (get_elem? (ring g.raw) (offset g.lines line) ≡ some r)
          × IsRow cell g.columns r
    row_of line h = Returns-eq _ (
        v.rows.at (offset g.lines line)
          (omega (arith, offset-parts g.lines line h.0, v.rows.valid.len_le)))

    pub line_at-ring :
        (line : ℤ) → InBuffer g line → line_at g line ≡ get_elem? (ring g.raw) (offset g.lines line)
    unfolding line_at
    line_at-ring line h =
        index-eq g.raw v.rows.valid line (omega (arith, v.rows.same_visible))
        ∙ ap (λ n. get_elem? (ring g.raw) (offset n line)) v.rows.same_visible

    -- A line of the buffer can be read, and is a row of the grid's width.
    pub line_at-IsRow :
        (line : ℤ)
        → InBuffer g line
        → (r : Row T) × (line_at g line ≡ some r) × IsRow cell g.columns r
    line_at-IsRow line h = let (r, e, k) = row_of line h in (r, line_at-ring line h ∙ e, k)

    rebuilt :
        (line : ℤ) (P : Row T → Row T → Type 0) (r r' : Row T) (s : Storage T)
        → InBuffer g line
        → get_elem? (ring g.raw) (offset g.lines line) ≡ some r
        → IsRow cell g.columns r'
        → P r r'
        → Holds g.raw v.rows.valid (set (ring g.raw) (offset g.lines line) r') s
        → Edited line P g (record g { raw = s })
    unfolding line_at
    rebuilt line P r r' s h e k p holds = record {
      sound = record {
        rows = record {
          valid = holds.valid;
          same_size = refl;
          same_len = refl;
          same_visible = holds.same_visible ∙ v.rows.same_visible;
          at = λ i lt.
              subst (λ xs. Returns (IsRow cell g.columns) (get_elem? xs i)) (sym holds.same_rows)
                (elim (==_cases i (offset g.lines line)) [
                  | inl (t, q) ↦
                      rw (get_elem?-set (ring g.raw) (offset g.lines line) i r' place, t) k
                  | inr (t, q) ↦
                      rw (get_elem?-set (ring g.raw) (offset g.lines line) i r' place, t)
                        (v.rows.at i (omega (arith, holds.same_size)))
                ]);
        };
        has_column = v.has_column;
        has_line = v.has_line;
        few_lines = v.few_lines;
        history_le = omega (arith, v.history_le, holds.same_len);
      };
      same = refl;
      same_len = holds.same_len;
      old = r;
      new = r';
      was = line_at-ring line h ∙ e;
      is = read line h ∙ get_elem?-set_self (ring g.raw) (offset g.lines line) r' place;
      related = p;
      others = λ l b ne.
          read l b
          ∙ get_elem?-set_ne (ring g.raw) r'
              (λ q. ne (sym (offset_inj g.lines g.raw.len line l h b q)))
          ∙ sym (line_at-ring l b);
    }
      where
        place : offset g.lines line < length (ring g.raw)
        place = omega (arith, offset-parts g.lines line h.0, v.rows.valid.len_le, length-ring g.raw)

        read :
            (l : ℤ)
            → InBuffer g l
            → Storage.index s l
              ≡ get_elem? (set (ring g.raw) (offset g.lines line) r') (offset g.lines l)
        read l b =
            index-eq s holds.valid l
              (omega (arith, v.rows.same_visible, holds.same_visible, holds.same_len))
            ∙ ap (λ n. get_elem? (ring s) (offset n l)) (holds.same_visible ∙ v.rows.same_visible)
            ∙ ap (λ xs. get_elem? xs (offset g.lines l)) holds.same_rows

    -- A change of one line that makes a row of each row.
    pub edit_line-Edited :
        (line : ℤ) (P : Row T → Row T → Type 0) (f : Row T → Option (Row T))
        → InBuffer g line
        → ((r : Row T)
            → IsRow cell g.columns r
            → Returns (λ r'. IsRow cell g.columns r' × P r r') (f r))
        → Returns (Edited line P g) (edit_line line f g)
    unfolding edit_line
    edit_line-Edited line P f h keep =
        let (r, e, k) = row_of line h in
        let (r', e', k') = Returns-eq (f r) (keep r k) in
        let (s, es, holds) = Returns-eq (Storage.modify line f g.raw) (
          modify-Holds g.raw v.rows.valid line f r r' (omega (arith, v.rows.same_visible))
            (ap (λ n. get_elem? (ring g.raw) (offset n line)) v.rows.same_visible ∙ e) e') in
        rw es (
          rebuilt line P r r' s h e k'.0 k'.1 (
            subst (λ n. Holds g.raw v.rows.valid (set (ring g.raw) (offset n line) r') s)
              v.rows.same_visible holds))

    pub edit_cell-Edited :
        (p : Point) (f : T → T)
        → InBuffer g p.line
        → p.column < g.columns
        → Returns (Edited p.line (CellChanged p.column f) g) (edit_cell p f g)
    unfolding edit_cell
    edit_cell-Edited p f h k =
        edit_line-Edited p.line (CellChanged p.column f) (Row.modify p.column f) h
          (λ r row. modify-CellChanged g.columns p.column f r row k)

  -- The cell is read back.
  pub cell_at-Edited :
      (g g' : Grid T) (p : Point) (f : T → T)
      → Edited p.line (CellChanged p.column f) g g'
      → (c : T) × (cell_at g p ≡ some c) × (cell_at g' p ≡ some (f c))
  unfolding cell_at Row.index
  cell_at-Edited g g' p f e =
      let (c, was, is) = e.related in
      (
        c,
        ap (λ m. m >>= λ (r : Row T). get_elem? r.inner p.column) e.was ∙ was,
        ap (λ m. m >>= λ (r : Row T). get_elem? r.inner p.column) e.is
            ∙ ap (λ xs. get_elem? xs p.column) is
            ∙ get_elem?-set_self e.old.inner p.column (f c) (get_elem?-lt e.old.inner p.column was),
      )
