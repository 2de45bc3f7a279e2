-- ===== src/Term/Screen.antt =====
-- The clearing of the screen above and below the cursor in cutty_terminal/src/term/mod.rs.
use cu_tty.Prelude.{
  ℕ, ◌+◌, ◌≤◌, ◌<◌, ◌≡◌, ◌≢◌, refl, ◌∙◌, sym, ap, some, min, arith, Returns, Returns-bind,
  Returns-map, subst, if◌then◌else◌, inl, inr, ltb_cases,
}
use cu_tty.Prelude.Int.{ℤ, pos, pos_part, ltb_ℤ}
use cu_tty.Row.{Row, IsLawful, modify_range}
use cu_tty.Row.Blanks.{Filled}
use cu_tty.Cell.{Cell, Palette, grid_cell}
use cu_tty.Grid.{Grid, reset_region}
use cu_tty.Grid.Valid.{IsSound, blank_row}
use cu_tty.Grid.Edit.{Edited, edit_line-Edited, line_at}
use cu_tty.Grid.Region.{reset_region_lem}
use cu_tty.Term.{Term, point}
use cu_tty.Term.Motion.{IsPlaced}
use cu_tty.Term.Erase.{ClearMode, blank_cell, erase, clear_above, clear_screen}
use cu_tty.Term.Clear.{blanked}

module _ {C H : Type 0} (palette : Palette C) (law : IsLawful (grid_cell {H = H} palette)) where
  -- The lines above the cursor's, before its cells are cleared.
  record Upper (n : ℕ) (g h : Grid (Cell C H)) : Type 0 where
    pub sound : IsSound (grid_cell palette) h
    pub same : h ≡ record g { raw = h.raw }
    pub same_len : h.raw.len ≡ g.raw.len
    pub cleared :
        2 ≤ n
        → (k : ℕ) → k < n
        → line_at h (pos k) ≡ some (blank_row (grid_cell palette) g.columns g.cursor.template)
    pub kept : n ≡ 1 → line_at h (pos 0) ≡ line_at g (pos 0)
    pub rest : (k : ℕ) → n ≤ k → k < g.lines → line_at h (pos k) ≡ line_at g (pos k)

  Upper-splits :
      (n : ℕ) (g : Grid (Cell C H))
      → IsSound (grid_cell palette) g
      → n < g.lines
      → Returns (Upper n g) (
          if ltb_ℤ (pos 1) (pos n)
          then reset_region (grid_cell palette) g (pos 0) (pos n)
          else some g)
  Upper-splits n g v h = elim (ltb_cases (1 + 0) (n + 0)) [
    | inl (e, l) ↦ rw e (
        Returns-map (reset_region (grid_cell palette) g (pos 0) (pos n))
          (λ s r. record {
            sound = r.sound;
            same = r.same;
            same_len = r.same_len;
            cleared = λ _ k a. r.cleared k (omega arith) a;
            kept = λ one. absurd (omega arith);
            rest = r.after;
          })
          (reset_region_lem (grid_cell palette) law g v 0 n (omega arith) (omega arith)
            (omega arith)))
    | inr (e, l) ↦ rw e (record {
      sound = v;
      same = refl;
      same_len = refl;
      cleared = λ two. absurd (omega arith);
      kept = λ _. refl;
      rest = λ _ _ _. refl;
    })
  ]

  Upper-at :
      (n : ℕ) (z : ℤ) (g : Grid (Cell C H))
      → IsSound (grid_cell palette) g
      → n < g.lines
      → z ≡ pos n
      → Returns
          (Upper n g)
          (if ltb_ℤ (pos 1) z then reset_region (grid_cell palette) g (pos 0) z else some g)
  Upper-at n z g v h e =
      subst
        (λ y.
          Returns (Upper n g)
            (if ltb_ℤ (pos 1) y then reset_region (grid_cell palette) g (pos 0) y else some g))
        (sym e) (Upper-splits n g v h)

module _ {C H S K : Type 0} (palette : Palette C) (law : IsLawful (grid_cell {H = H} palette)) where
  -- The cell type of the terminal.
  abbrev Blank : Term (Cell C H) S K → Row (Cell C H)
  Blank t = blank_row (grid_cell palette) t.grid.columns t.grid.cursor.template

  -- The cells up to the cursor are blank, and so are the lines above, but not the first line if the cursor is in the second.
  pub record ClearedAbove (n : ℕ) (t : Term (Cell C H) S K) (g' : Grid (Cell C H)) : Type 0 where
    pub sound : IsSound (grid_cell palette) g'
    pub same : g' ≡ record t.grid { raw = g'.raw }
    pub old : Row (Cell C H)
    pub new : Row (Cell C H)
    pub was : line_at t.grid (pos n) ≡ some old
    pub is : line_at g' (pos n) ≡ some new
    pub cells : Filled 0 ((point t).column + 1) (blank_cell palette t) old.inner new.inner
    pub upper : 2 ≤ n → (k : ℕ) → k < n → line_at g' (pos k) ≡ some (Blank t)
    pub first_kept : n ≡ 1 → line_at g' (pos 0) ≡ line_at t.grid (pos 0)
    pub lower : (k : ℕ) → n < k → k < t.grid.lines → line_at g' (pos k) ≡ line_at t.grid (pos k)

  above :
      (n : ℕ) (t : Term (Cell C H) S K)
      → IsPlaced t
      → IsSound (grid_cell palette) t.grid
      → (point t).line ≡ pos n
      → Returns (λ t'. ClearedAbove n t t'.grid) (clear_above palette t)
  unfolding clear_above erase
  above n t v s at =
      Returns-bind {P = Upper palette law n t.grid} (λ t'. ClearedAbove n t t'.grid) _ _
        (Upper-at palette law n (point t).line t.grid s low at)
        (λ h u.
          let c = blank_cell palette (record t { grid = h }) in
          Returns-bind {P = λ t'. ClearedAbove n t t'.grid} (λ t'. ClearedAbove n t t'.grid) _ _
            (Returns-bind
              {P = Edited (grid_cell palette) (point t).line
                (λ r r'. Filled 0 end c r.inner r'.inner) h}
              (λ t'. ClearedAbove n t t'.grid) _ _
              (edit_line-Edited (grid_cell palette) h u.sound (point t).line _
                (modify_range 0 end (λ _. c))
                (omega (
                  arith,
                  v.on_screen,
                  u.sound.rows.valid.visible_le,
                  u.sound.rows.same_visible,
                  same_lines h u,
                ))
                (λ r row.
                  blanked (grid_cell palette) h.columns r 0 end c row (omega arith)
                    (omega (arith, ap (λ (x : Grid (Cell C H)). x.columns) u.same))))
              (λ g e. joined h g u e))
            (λ w k. k))
    where
      end : ℕ
      end = min ((point t).column + 1) t.grid.columns

      low : n < t.grid.lines
      low = omega (arith, v.on_screen, ap pos_part at)

      same_lines : (h : Grid (Cell C H)) → Upper palette law n t.grid h → h.lines ≡ t.grid.lines
      same_lines h u = ap (λ (x : Grid (Cell C H)). x.lines) u.same

      joined :
          (h g : Grid (Cell C H)) (u : Upper palette law n t.grid h)
          → Edited
              (grid_cell palette)
              (point t).line
              (λ r r'. Filled 0 end (blank_cell palette (record t { grid = h })) r.inner r'.inner)
              h
              g
          → ClearedAbove n t g
      joined h g u e = record {
        sound = e.sound;
        same = e.same ∙ ap (λ (x : Grid (Cell C H)). record x { raw = g.raw }) u.same;
        old = e.old;
        new = e.new;
        was = sym (u.rest n (omega arith) low) ∙ ap (line_at h) (sym at) ∙ e.was;
        is = ap (line_at g) (sym at) ∙ e.is;
        cells =
            subst (λ m. Filled 0 m (blank_cell palette t) e.old.inner e.new.inner)
              (omega (arith, v.on_screen))
              (subst
                (λ (x : Grid (Cell C H)).
                  Filled 0 end (blank_cell palette (record t { grid = x })) e.old.inner e.new.inner)
                (u.same) e.related);
        upper = λ two k a. other k (omega arith) (omega (arith, low)) ∙ u.cleared two k a;
        first_kept = λ one. other 0 (omega arith) (omega (arith, low)) ∙ u.kept one;
        lower = λ k a b. other k (omega arith) b ∙ u.rest k (omega arith) b;
      }
        where
          other : (k : ℕ) → k ≢ n → k < t.grid.lines → line_at g (pos k) ≡ line_at h (pos k)
          other k ne b =
              e.others (pos k)
                (omega
                  (arith, u.sound.rows.valid.visible_le, u.sound.rows.same_visible, same_lines h u))
                (λ q. ne (ap pos_part (q ∙ at)))

  -- Clearing the screen above the cursor does not panic if the cursor is on the screen and the grid is sound, and keeps it sound. In the cursor's line the cells up to the cursor with it become blank in the background of the cursor and no others. The lines above it become blank if there are at least two; a cursor in the second line leaves the one line above it as it was. The lines below stay.
  pub clear_above_lem :
      (n : ℕ) (t : Term (Cell C H) S K)
      → IsPlaced t
      → IsSound (grid_cell palette) t.grid
      → (point t).line ≡ pos n
      → Returns (λ t'. ClearedAbove n t t'.grid) (clear_screen palette ClearMode.above t)
  unfolding clear_screen
  clear_above_lem n t v s at =
      Returns-bind (λ t'. ClearedAbove n t t'.grid) (clear_above palette t) _ (above n t v s at)
        (λ w k. k)
