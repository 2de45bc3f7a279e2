-- ===== src/Term/Clear.antt =====
-- The erasures within the cursor's line in cutty_terminal/src/term/mod.rs.
use cu_tty.Prelude.{
  ℕ, ◌+◌, ◌-◌, ◌≤◌, ◌<◌, ◌≡◌, refl, ◌∙◌, sym, ap, Bool, true, false, not, ◌&&◌, Option, none, some,
  length, get_elem?, min, arith, Returns, Returns-eq, subst, le→leb, max, ◌>>=◌, >>=_assoc,
  Returns-bind, ltb, leb, if◌then◌else◌, ◌⊎◌, inl, inr, Bool-cases, ltb_cases, leb_cases,
}
use cu_tty.Row.{GridCell, Row, modify_range}
use cu_tty.Row.Valid.{modify_range-IsValid}
use cu_tty.Row.Shift.{fill}
use cu_tty.Row.Blanks.{Filled, fill-Filled}
use cu_tty.Cell.{Cell, Palette, grid_cell}
use cu_tty.Selection.{Bound, included, Selection, intersects_range}
use cu_tty.Grid.{Grid}
use cu_tty.Grid.Valid.{IsRow, IsSound}
use cu_tty.Grid.Edit.{Edited, edit_line, edit_line-Edited, line_at-IsRow}
use cu_tty.Term.{Term, point, mark}
use cu_tty.Term.Motion.{IsPlaced, mark-eq}
use cu_tty.Term.Erase.{
  blank_cell, erase, erase_chars, clear_line, clear_columns, line_range, deselect, LineClearMode,
}
use cu_tty.Term.Cells.{redrawn, Repainted, repainted, cursor-InBuffer}

-- A range of cells that becomes one cell.
modify_range-eq :
    {T : Type 0} (r : Row T) (start end : ℕ) (c : T)
    → start ≤ end
    → end ≤ length r.inner
    → modify_range start end (λ _. c) r
      ≡ (fill start end c r.inner >>= λ ys. some (record { inner = ys; occ = max r.occ end }))
unfolding modify_range fill
modify_range-eq r start end c h k = rw (le→leb start end h, le→leb end (length r.inner) k)

-- The row that a range which becomes one cell leaves.
pub blanked :
    {T : Type 0} (cell : GridCell T) (columns : ℕ) (r : Row T) (start end : ℕ) (c : T)
    → IsRow cell columns r
    → start ≤ end
    → end ≤ columns
    → Returns
        (λ r'. IsRow cell columns r' × Filled start end c r.inner r'.inner)
        (modify_range start end (λ _. c) r)
blanked cell columns r start end c row h k =
    let (ys, e, filled) =
      Returns-eq (fill start end c r.inner)
        (fill-Filled start end c r.inner h (omega (arith, row.width))) in
    let (r', e', vw) = Returns-eq (modify_range start end (λ _. c) r) (
      modify_range-IsValid cell row.template r start end (λ _. c) row.valid h
        (omega (arith, row.width))) in
    let same : some r' ≡ some (record { inner = ys; occ = max r.occ end }) =
      sym e' ∙ modify_range-eq r start end c h (omega (arith, row.width)) ∙ rw e refl in
    rw e' (
      record { template = row.template; valid = vw.0; width = vw.1 ∙ row.width },
      subst (Filled start end c r.inner) (cc same) filled,
    )

deselect-cases :
    (a b : Bound) (s : Option Selection) → (deselect a b s ≡ none) ⊎ (deselect a b s ≡ s)
unfolding deselect
deselect-cases a b none = inl refl
deselect-cases a b (some s) = elim (Bool-cases (intersects_range s a b)) [
  | inl e ↦ inl (rw e)
  | inr e ↦ inr (rw e)
]

module _ {C H S K : Type 0} (palette : Palette C) where
  -- Between the two columns stands the blank cell.
  abbrev pub Erased : ℕ → ℕ → Term (Cell C H) S K → Term (Cell C H) S K → Type 0
  Erased from to t =
      Repainted (grid_cell palette) (λ r r'. Filled from to (blank_cell palette t) r.inner r'.inner)
        t

  erased :
      (t : Term (Cell C H) S K) (from to left right : ℕ)
      → IsPlaced t
      → IsSound (grid_cell palette) t.grid
      → from ≤ to
      → to ≤ t.grid.columns
      → Returns
          (λ t'. Erased from to t t' × (t'.selection ≡ t.selection))
          (mark (point t).line left right t >>= λ u. erase palette (point u).line from to u)
  unfolding erase
  erased t from to left right v s h k =
      let (d, marked, long) =
        mark-eq t (point t).line left right v.on_screen.0 (omega (arith, v.on_screen, v.damaged)) in
      let (g, e, edited) =
        Returns-eq
          (edit_line (point t).line (modify_range from to (λ _. blank_cell palette t)) t.grid)
          (edit_line-Edited (grid_cell palette) t.grid s (point t).line
            (λ r r'. Filled from to (blank_cell palette t) r.inner r'.inner)
            (modify_range from to (λ _. blank_cell palette t))
            (cursor-InBuffer (grid_cell palette) t v s)
            (λ r row.
              blanked (grid_cell palette) t.grid.columns r from to (blank_cell palette t) row h
                k)) in
      rw (marked, e)
        (
          record {
            is_placed = repainted t d g v long edited.same;
            edited = edited;
            same_mode = refl;
            like = redrawn t d g long edited.same;
          },
          refl,
        )

  -- Erasing characters does not panic on a sound grid whose cursor is on the screen: the `count` cells from the cursor on, or as many as there are, become blank in the background of the cursor. No other cell of the line, no other line and not the selection changes, the grid stays sound and the cursor where it is.
  pub erase_chars_lem :
      (t : Term (Cell C H) S K) (count : ℕ)
      → IsPlaced t
      → IsSound (grid_cell palette) t.grid
      → Returns
          (λ t'.
            Erased (point t).column (min ((point t).column + count) t.grid.columns) t t'
            × (t'.selection ≡ t.selection))
          (erase_chars palette count t)
  unfolding erase_chars
  erase_chars_lem t count v s =
      let end = min ((point t).column + count) t.grid.columns in
      erased t (point t).column end (point t).column end v s (omega (arith, v.on_screen))
        (omega arith)

  -- The cells of the cursor's line that a mode of `clear_line` is for.
  abbrev pub cleared : LineClearMode → Term (Cell C H) S K → ℕ → Bool
  cleared LineClearMode.right t k = not t.grid.cursor.input_needs_wrap && leb (point t).column k
  cleared LineClearMode.left t k = leb k (point t).column
  cleared LineClearMode.all t k = true

  -- The cells of the mode are blank, the others of the line as before.
  abbrev pub ClearedBy :
      LineClearMode → Term (Cell C H) S K → Row (Cell C H) → Row (Cell C H) → Type 0
  ClearedBy mode t r r' =
      (k : ℕ)
      → k < t.grid.columns
      → get_elem? r'.inner k
        ≡ (if cleared mode t k then some (blank_cell palette t) else get_elem? r.inner k)

  abbrev pub LineCleared : LineClearMode → Term (Cell C H) S K → Term (Cell C H) S K → Type 0
  LineCleared mode t t' =
      Repainted (grid_cell palette) (ClearedBy mode t) t t'
      × ((t'.selection ≡ none) ⊎ (t'.selection ≡ t.selection))

  columns_cleared :
      (mode : LineClearMode) (t : Term (Cell C H) S K) (from to : ℕ)
      → IsPlaced t
      → IsSound (grid_cell palette) t.grid
      → from ≤ to
      → to ≤ t.grid.columns
      → ((k : ℕ) → k < t.grid.columns → cleared mode t k ≡ (leb from k && ltb k to))
      → Returns (LineCleared mode t) (clear_columns palette from to t)
  unfolding clear_columns
  columns_cleared mode t from to v s h k same =
      let mark_it = mark (point t).line from (to - 1) t in
      let erase_it = λ (u : Term (Cell C H) S K). erase palette (point u).line from to u in
      let drop_it = λ (u : Term (Cell C H) S K). some (record u {
        selection = deselect (included (point u).line) (included (point u).line) u.selection;
      }) in
      subst (Returns (LineCleared mode t)) (>>=_assoc mark_it erase_it drop_it) (
        Returns-bind (LineCleared mode t) (mark_it >>= erase_it) drop_it
          (erased t from to from (to - 1) v s h k)
          (λ u (painted, chosen). (
            record {
              is_placed = record {
                on_screen = painted.is_placed.on_screen;
                damaged = painted.is_placed.damaged;
                few_lines = painted.is_placed.few_lines;
                region_start_le = painted.is_placed.region_start_le;
                region_end_le = painted.is_placed.region_end_le;
              };
              edited = weaken painted.edited;
              same_mode = painted.same_mode;
              like = record {
                same_lines = painted.like.same_lines;
                same_columns = painted.like.same_columns;
                same_charsets = painted.like.same_charsets;
                same_charset = painted.like.same_charset;
                same_start = painted.like.same_start;
                same_end = painted.like.same_end;
                same_damage = painted.like.same_damage;
              };
            },
            elim (deselect-cases (included (point u).line) (included (point u).line) u.selection) [
              | inl e ↦ inl e
              | inr e ↦ inr (e ∙ chosen)
            ],
          )))
    where
      test :
          (r r' : Row (Cell C H))
          → Filled from to (blank_cell palette t) r.inner r'.inner
          → ClearedBy mode t r r'
      test r r' (_, within, left, right) j lt = rw (same j lt) (elim (leb_cases from j) [
        | inl (e, a) ↦ elim (ltb_cases j to) [
          | inl (e', b) ↦ rw (e, e') (within j a b)
          | inr (e', b) ↦ rw (e, e') (right j b)
        ]
        | inr (e, a) ↦ rw e (left j a)
      ])

      weaken :
          {g' : Grid (Cell C H)}
          → Edited
              (grid_cell palette)
              (point t).line
              (λ r r'. Filled from to (blank_cell palette t) r.inner r'.inner)
              t.grid
              g'
          → Edited (grid_cell palette) (point t).line (ClearedBy mode t) t.grid g'
      weaken e = record {
        sound = e.sound;
        same = e.same;
        same_len = e.same_len;
        old = e.old;
        new = e.new;
        was = e.was;
        is = e.is;
        related = test e.old e.new e.related;
        others = e.others;
      }

  range_clears : Term (Cell C H) S K → Option (ℕ × ℕ) → Option (Term (Cell C H) S K)
  range_clears t none = some t
  range_clears t (some (from, to)) = clear_columns palette from to t

  waits :
      (t : Term (Cell C H) S K)
      → t.grid.cursor.input_needs_wrap ≡ true
      → clear_line palette LineClearMode.right t ≡ some t
  unfolding clear_line line_range range_clears
  waits t e =
      ap (λ b. range_clears t (if b then none else some ((point t).column, t.grid.columns))) e

  clears :
      (t : Term (Cell C H) S K)
      → t.grid.cursor.input_needs_wrap ≡ false
      → clear_line palette LineClearMode.right t
        ≡ clear_columns palette (point t).column t.grid.columns t
  unfolding clear_line line_range range_clears
  clears t e =
      ap (λ b. range_clears t (if b then none else some ((point t).column, t.grid.columns))) e

  untouched :
      (t : Term (Cell C H) S K)
      → t.grid.cursor.input_needs_wrap ≡ true
      → IsPlaced t
      → IsSound (grid_cell palette) t.grid
      → LineCleared LineClearMode.right t t
  untouched t e v s =
      let (r, is, row) =
        line_at-IsRow (grid_cell palette) t.grid s (point t).line
          (cursor-InBuffer (grid_cell palette) t v s) in
      (
        record {
          is_placed = v;
          edited = record {
            sound = s;
            same = refl;
            old = r;
            new = r;
            was = is;
            is = is;
            related = λ k h. ground arith;
            same_len = refl;
            others = λ l a b. refl;
          };
          same_mode = refl;
          like = redrawn t t.damage t.grid refl refl;
        },
        inr refl,
      )

  -- Clearing the cursor's line does not panic on a sound grid whose cursor is on the screen. The cells that become blank in the background of the cursor are those from the cursor on (`right`, none of them if the cursor waits to wrap), those up to the cursor with it (`left`), or all; no other cell of the line and no other line changes, the grid stays sound and the cursor where it is, and the selection stays or is dropped.
  pub clear_line_lem :
      (mode : LineClearMode) (t : Term (Cell C H) S K)
      → IsPlaced t
      → IsSound (grid_cell palette) t.grid
      → Returns (LineCleared mode t) (clear_line palette mode t)
  unfolding clear_line line_range
  clear_line_lem LineClearMode.left t v s =
      columns_cleared LineClearMode.left t 0 ((point t).column + 1) v s (omega arith)
        (omega (arith, v.on_screen)) (λ k h. ground arith)
  clear_line_lem LineClearMode.all t v s =
      columns_cleared LineClearMode.all t 0 t.grid.columns v s (omega arith) (omega arith)
        (λ k h. ground arith)
  clear_line_lem LineClearMode.right t v s = elim (Bool-cases t.grid.cursor.input_needs_wrap) [
    | inl e ↦
        subst (Returns (LineCleared LineClearMode.right t)) (sym (waits t e)) (untouched t e v s)
    | inr e ↦ subst (Returns (LineCleared LineClearMode.right t)) (sym (clears t e)) (
        columns_cleared LineClearMode.right t (point t).column t.grid.columns v s
          (omega (arith, v.on_screen)) (omega arith) (λ k h. ground arith))
  ]
