-- ===== src/Grid/Region.antt =====
-- What `reset_region` of cutty_terminal/src/grid/mod.rs does to the lines of the grid.
use cu_tty.Prelude.{
  ℕ, ◌+◌, ◌-◌, ◌≤◌, ◌<◌, ◌≡◌, refl, ◌∙◌, sym, ap, some, length, get_elem?, arith, Returns,
  Returns-eq, Returns-bind, lt→ltb, le→leb, subst,
}
use cu_tty.Prelude.Int.{ℤ, pos, negsuc}
use cu_tty.Row.{GridCell, IsLawful, Row}
use cu_tty.Storage.{Storage}
use cu_tty.Storage.Ring.{IsLine, offset, offset-parts, ring}
use cu_tty.Grid.{Grid, history, reset_region, reset_lines}
use cu_tty.Grid.Loops.{Meets, Meets-weaken}
use cu_tty.Grid.Valid.{
  IsRow, IsSound, Patched, Patched-all, blank_row, blank_row-IsRow, reset_lines-Meets,
  range_size-eq, exact_i32,
}
use cu_tty.Grid.Edit.{line_at, line_at-ring}

module _ {T : Type 0} (cell : GridCell T) where
  -- The lines from `a` up to `b` are blank in the cursor's colour, and every other line, the sizes and the rest of the grid are as before.
  pub record RegionReset (a b : ℕ) (g g' : Grid T) : Type 0 where
    pub sound : IsSound cell g'
    pub same : g' ≡ record g { raw = g'.raw }
    pub same_len : g'.raw.len ≡ g.raw.len
    pub cleared :
        (k : ℕ)
        → a ≤ k
        → k < b
        → line_at g' (pos k) ≡ some (blank_row cell g.columns g.cursor.template)
    pub before : (k : ℕ) → k < a → line_at g' (pos k) ≡ line_at g (pos k)
    pub after : (k : ℕ) → b ≤ k → k < g.lines → line_at g' (pos k) ≡ line_at g (pos k)
    pub above : (k : ℕ) → k < history g → line_at g' (negsuc k) ≡ line_at g (negsuc k)

  module _ (law : IsLawful cell) (g : Grid T) (v : IsSound cell g) where
    -- The row that was at the place.
    abbrev Was : ℕ → Row T → Type 0
    Was k r = IsRow cell g.columns r × (get_elem? (ring g.raw) k ≡ some r)

    size : ℕ
    size = length g.raw.inner

    was : Meets size g.raw.len g.lines Was g.raw
    unfolding size
    was = record {
      valid = v.rows.valid;
      same_size = v.rows.same_size;
      same_len = v.rows.same_len;
      same_visible = v.rows.same_visible;
      at = λ k h.
          let (r, e, row) = Returns-eq (get_elem? (ring g.raw) k) (v.rows.at k h) in rw e (row, e);
    }

    blank_line : Row T
    blank_line = blank_row cell g.columns g.cursor.template

    rebuilt :
        (a b : ℕ) (s : Storage T)
        → a ≤ b
        → b ≤ g.lines
        → Meets size g.raw.len g.lines (Patched (g.lines - b) (g.lines - a) blank_line Was) s
        → RegionReset a b g (record g { raw = s })
    unfolding size blank_line
    rebuilt a b s h k m = record {
      sound = sound;
      same = refl;
      same_len = m.same_len;
      cleared = λ i l j.
          let (r, e, p) = row_at (pos i) (omega (arith, tall)) in
          e
          ∙ ap some (
              p.0 (omega (arith, offset-parts g.lines (pos i) (omega arith)))
                (omega (arith, offset-parts g.lines (pos i) (omega arith))));
      before = λ i l.
          kept (pos i) (omega (arith, tall))
            (λ r p. p.2 (omega (arith, offset-parts g.lines (pos i) (omega arith))));
      after = λ i l j.
          kept (pos i) (omega (arith, tall))
            (λ r p. p.1 (omega (arith, offset-parts g.lines (pos i) (omega arith))));
      above = λ i l.
          kept (negsuc i) (omega (arith, tall))
            (λ r p. p.2 (omega (arith, offset-parts g.lines (negsuc i) (omega arith))));
    }
      where
        lo : ℕ
        lo = g.lines - b

        Now : ℕ → Row T → Type 0
        Now = Patched lo (g.lines - a) blank_line Was

        tall : g.lines ≤ g.raw.len
        tall = omega (arith, v.rows.valid.visible_le, v.rows.same_visible)

        weak : Meets size g.raw.len g.lines (λ i r. IsRow cell g.columns r) s
        weak =
            Meets-weaken size g.raw.len g.lines Now (λ i r. IsRow cell g.columns r)
              (λ i r _ p.
                Patched-all lo (g.lines - a) blank_line Was (IsRow cell g.columns) i r
                  (blank_row-IsRow cell law g.columns v.has_column g.cursor.template) (λ f. f.0) p)
              m

        sound : IsSound cell (record g { raw = s })
        sound = record {
          rows = record {
            valid = weak.valid;
            same_size = refl;
            same_len = refl;
            same_visible = weak.same_visible;
            at = λ i lt. weak.at i (omega (arith, lt, weak.same_size));
          };
          has_column = v.has_column;
          has_line = v.has_line;
          few_lines = v.few_lines;
          history_le = omega (arith, v.history_le, m.same_len);
        }

        row_at :
            (l : ℤ)
            → IsLine g.lines g.raw.len l
            → (r : Row T) × (line_at (record g { raw = s }) l ≡ some r) × Now (offset g.lines l) r
        row_at l i =
            let (r, e, p) = Returns-eq (get_elem? (ring s) (offset g.lines l)) (
              m.at (offset g.lines l)
                (omega (arith, offset-parts g.lines l i.0, v.rows.valid.len_le))) in
            (
              r,
              line_at-ring cell (record g { raw = s }) sound l (omega (arith, i, m.same_len)) ∙ e,
              p,
            )

        kept :
            (l : ℤ)
            → IsLine g.lines g.raw.len l
            → ((r : Row T) → Now (offset g.lines l) r → Was (offset g.lines l) r)
            → line_at (record g { raw = s }) l ≡ line_at g l
        kept l i f =
            let (r, e, p) = row_at l i in e ∙ sym (f r p).1 ∙ sym (line_at-ring cell g v l i)

    pub reset_region_lem :
        (a b : ℕ)
        → a ≤ b
        → b ≤ g.lines
        → a < g.lines
        → Returns (RegionReset a b g) (reset_region cell g (pos a) (pos b))
    unfolding reset_region size blank_line
    reset_region_lem a b h k l =
        rw
          (
            exact_i32 g.lines v.few_lines,
            lt→ltb (a + 0) (g.lines + 0) (omega arith),
            le→leb (b + 0) (g.lines + 0) (omega arith),
          )
          (Returns-bind (RegionReset a b g)
            (reset_lines cell g.cursor.template (pos a) (pos b) g.raw) _
            (reset_lines-Meets cell law g.columns v.has_column size g.raw.len g.lines Was g.raw
              (pos a) (pos b) (g.lines - a) (b - a) g.cursor.template was (omega arith)
              (range_size-eq (pos a) (pos b) (b - a) (omega arith)) (omega arith)
              (omega (arith, v.rows.valid.visible_le, v.rows.same_visible)) (λ i r f. f.0))
            (λ s m. rebuilt a b s h k (
              subst (λ n. Meets size g.raw.len g.lines (Patched n (g.lines - a) blank_line Was) s)
                (omega arith) m)))
