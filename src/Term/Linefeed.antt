-- ===== src/Term/Linefeed.antt =====
-- The linefeed of term/mod.rs: down by a line, or a scroll at the bottom of the scroll region.
use cu_tty.Prelude.{
  ℕ, ◌+◌, ◌-◌, ◌^◌, ◌≤◌, ◌<◌, ◌≡◌, refl, ◌∙◌, sym, ap, true, false, ◌==◌, min, arith, ap₂, lt→ltb,
  Returns, Returns-bind, subst, ◌≢◌, le→ltb_false, some,
}
use cu_tty.Prelude.Int.{pos, pos_part, ◌+ℤ◌, ◌-ℤ◌, ltb_ℤ}
use cu_tty.Prelude.Machine.{eqb_ℤ, as_i32, sub_i32, wrap_i32, wrap_i32_id}
use cu_tty.Row.{GridCell, IsLawful}
use cu_tty.Storage.Ring.{lines}
use cu_tty.Index.{Point, add_line}
use cu_tty.Grid.{Grid}
use cu_tty.Grid
use cu_tty.Grid.Valid.{IsValid, blank_row, added, exact_i32}
use cu_tty.Grid.Rows.{moved_up}
use cu_tty.Grid.Up.{scroll_up_top}
use cu_tty.Term.{Term, point, as_usize, damage_cursor, with_point}
use cu_tty.Term.Scroll.{scroll_up_relative, scroll_up, linefeed}
use cu_tty.Term.Motion.{IsPlaced, OnScreen, mark-eq, placed}

-- The height of a region from the top.
height : (b : ℕ) → 1 ≤ b → b < 2 ^ 31 → min 1 (as_usize (sub_i32 (pos b) (pos 0))) ≡ 1
unfolding ◌-ℤ◌
height b h k =
    ap (λ z. min 1 (as_usize z)) (ap wrap_i32 (minus_zero b) ∙ wrap_i32_id (pos b) (k, omega arith))
    ∙ omega arith
  where
    minus_zero : (b : ℕ) → pos b -ℤ pos 0 ≡ pos b
    minus_zero b = ground arith

pub next_line : (n : ℕ) → n + 1 < 2 ^ 31 → add_line (pos n) 1 ≡ pos (n + 1)
unfolding add_line ◌+ℤ◌ wrap_i32
next_line n h = ground arith

module _ {T S K : Type 0} (cell : GridCell T) (law : IsLawful cell) where
  -- The terminal with the region from the top to line `b` scrolled up by one line.
  abbrev pub ScrolledByOne : ℕ → Term T S K → Term T S K → Type 0
  ScrolledByOne b t t' =
      (lines t'.grid.raw
        ≡ moved_up (t.grid.lines - b) (t.grid.raw.len + added t.grid 1 - (t.grid.lines - b)) 1
            (blank_row cell t.grid.columns t.grid.cursor.template) (lines t.grid.raw))
      × (t'.grid.cursor ≡ t.grid.cursor)
      × IsValid cell t'.grid
      × (t'.damage.full ≡ true)

  scrolls :
      (t : Term T S K) (b : ℕ)
      → t.region_start ≡ pos 0
      → t.region_end ≡ pos b
      → 1 ≤ b
      → b ≤ t.grid.lines
      → t.grid.lines < 2 ^ 31
      → IsValid cell t.grid
      → Returns (ScrolledByOne b t) (scroll_up cell 1 t)
  unfolding scroll_up scroll_up_relative
  scrolls t b start end one low few v =
      rw (start, end, height b one (omega arith))
        (Returns-bind (ScrolledByOne b t) (Grid.scroll_up cell t.grid (pos 0) (pos b) 1) _
          (scroll_up_top cell law t.grid v b 1 (omega arith) one low)
          λ g (rows, _, same, valid). (rows, same, valid, refl))

  -- With a valid grid and a scroll region from the top of the screen, a linefeed on the last line of the region does not panic and scrolls the region up by one line: a blank line in the cursor's colour comes in, the top line goes into the history, the oldest line is lost if the history is at its limit, the cursor stays, the grid stays valid and the whole screen counts as damaged.
  pub linefeed_scrolls :
      (t : Term T S K) (n : ℕ)
      → IsPlaced t
      → IsValid cell t.grid
      → t.region_start ≡ pos 0
      → t.region_end ≡ pos (n + 1)
      → (point t).line ≡ pos n
      → Returns (ScrolledByOne (n + 1) t) (linefeed cell t)
  unfolding linefeed
  linefeed_scrolls t n v valid start end at =
      let low : n < t.grid.lines = omega (arith, v.on_screen, ap pos_part at) in
      let test : eqb_ℤ (add_line (point t).line 1) t.region_end ≡ true =
        ap₂ (λ l r. eqb_ℤ (add_line l 1) r) at end
        ∙ ap (λ l. eqb_ℤ l (pos (n + 1))) (next_line n (omega (arith, v.few_lines)))
        ∙ same (n + 1 + 0) in
      rw test (scrolls t (n + 1) start end (omega arith) (omega arith) v.few_lines valid)
    where
      same : (k : ℕ) → (k == k) ≡ true
      same k = ground arith

  -- A linefeed on a line that is the last neither of the scroll region nor of the screen does not panic on a terminal whose cursor and scroll region are on the screen: the cursor goes down by one line, in its column, and nothing else of the grid changes.
  pub linefeed_descends :
      (t : Term T S K) (n b : ℕ)
      → IsPlaced t
      → t.region_end ≡ pos b
      → (point t).line ≡ pos n
      → n + 1 ≢ b
      → n + 1 < t.grid.lines
      → Returns
          (λ t'.
            IsPlaced t'
            × ((point t').line ≡ pos (n + 1))
            × ((point t').column ≡ (point t).column)
            × (t'.grid ≡ record t.grid { cursor = t'.grid.cursor }))
          (linefeed cell t)
  unfolding linefeed damage_cursor
  linefeed_descends t n b v end at other low =
      let next : add_line (point t).line 1 ≡ pos (n + 1) =
        ap (λ l. add_line l 1) at ∙ next_line n (omega (arith, v.few_lines)) in
      let test : eqb_ℤ (add_line (point t).line 1) t.region_end ≡ false =
        ap₂ eqb_ℤ next end ∙ differ (n + 1) b other in
      let test' : ltb_ℤ (add_line (point t).line 1) (as_i32 t.grid.lines) ≡ true =
        ap₂ ltb_ℤ next (exact_i32 t.grid.lines v.few_lines)
        ∙ lt→ltb (n + 1 + 0) (t.grid.lines + 0) (omega arith) in
      let to : Point = record { line = add_line (point t).line 1; column = (point t).column } in
      let on : OnScreen t.grid to =
        subst (λ l. OnScreen t.grid (record { line = l; column = (point t).column })) (sym next)
          (refl, omega arith, v.on_screen.2) in
      let (d, first, long) =
        mark-eq t (point t).line (point t).column (point t).column v.on_screen.0
          (omega (arith, v.on_screen, v.damaged)) in
      let u = with_point (record t { damage = d }) to in
      let (d', second, long') =
        mark-eq u to.line to.column to.column on.0 (omega (arith, on, v.damaged, long)) in
      rw (test, test', first, second)
        (placed t to d' t.grid.cursor.input_needs_wrap v on (long' ∙ long), next, refl, refl)
    where
      differ : (k b : ℕ) → k ≢ b → eqb_ℤ (pos k) (pos b) ≡ false
      differ k b h = ground arith

  pub linefeed_stays :
      (t : Term T S K) (n b : ℕ)
      → IsPlaced t
      → t.region_end ≡ pos b
      → (point t).line ≡ pos n
      → n + 1 ≢ b
      → t.grid.lines ≤ n + 1
      → linefeed cell t ≡ some t
  unfolding linefeed
  linefeed_stays t n b v end at other low =
      let next : add_line (point t).line 1 ≡ pos (n + 1) =
        ap (λ l. add_line l 1) at
        ∙ next_line n (omega (arith, v.few_lines, v.on_screen, ap pos_part at)) in
      let test : eqb_ℤ (add_line (point t).line 1) t.region_end ≡ false =
        ap₂ eqb_ℤ next end ∙ differ (n + 1) b other in
      let test' : ltb_ℤ (add_line (point t).line 1) (as_i32 t.grid.lines) ≡ false =
        ap₂ ltb_ℤ next (exact_i32 t.grid.lines v.few_lines)
        ∙ le→ltb_false (n + 1 + 0) (t.grid.lines + 0) (omega arith) in
      rw (test, test') refl
    where
      differ : (k b : ℕ) → k ≢ b → eqb_ℤ (pos k) (pos b) ≡ false
      differ k b h = ground arith
