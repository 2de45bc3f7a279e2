-- ===== src/Grid/Down.antt =====
-- `Grid::scroll_down` of grid/mod.rs against `moved_down`.
use cu_tty.Prelude.{
  ℕ, ◌+◌, ◌-◌, ◌^◌, ◌≤◌, ◌<◌, ◌≡◌, refl, Option, some, length, arith, Returns, Returns-bind, min,
  inl, inr, ◌==◌, if◌then◌else◌, ◌>>=◌, leb_cases, ==_cases, le→leb, lt→leb_false,
}
use cu_tty.Prelude.Int.{pos, pos_part, neg_part, ◌-ℤ◌, -ℤ_parts}
use cu_tty.Row.{GridCell, IsLawful}
use cu_tty.Storage.{Storage}
use cu_tty.Storage.Ring.{lines, ring, length-lines}
use cu_tty.Grid.{
  Grid, history, reset_lines, scroll_down, scroll_down_swapping, scroll_down_rotating,
}
use cu_tty.Grid.Loops.{Meets, Meets-weaken}
use cu_tty.Grid.Valid.{IsRow, IsSound, blank_row, exact_i32, exact_difference}
use cu_tty.Grid.Rows.{moved_down}
use cu_tty.Grid.Sinking.{finish_down}
use cu_tty.Grid.ScrollUp.{agree}
use cu_tty.Grid.ScrollDown.{Sunk, swapping, rotating, emptied}

module _ {T : Type 0} (cell : GridCell T) (law : IsLawful cell) (g : Grid T)
    (v : IsSound cell g) where
  open g use {raw}

  -- A grid whose rows are those of `g`, with the region between `a` and `b` moved down by `p`.
  abbrev Lower : ℕ → ℕ → ℕ → Grid T → Type 0
  Lower a b p g' =
      (lines g'.raw
        ≡ moved_down (g.lines - b) (b - a) p (blank_row cell g.columns g.cursor.template)
            (lines raw))
      × (history g' ≡ history g)
      × (g'.display_offset ≡ g.display_offset)
      × (g'.cursor ≡ g.cursor)
      × IsSound cell g'

  -- The way from the places of the rows to the list of lines.
  lowered :
      (a b p : ℕ)
      → a < b
      → b ≤ g.lines
      → p ≤ b - a
      → (m : Option (Storage T))
      → Returns
          (Meets (length raw.inner) raw.len g.lines (Sunk cell law g v (g.lines - b) (b - a) p))
          m
      → Returns (Lower a b p) (m >>= (λ raw'. some (record g { raw = raw' })))
  lowered a b p h k fits m r =
      let len_le : g.lines ≤ length (lines raw) =
        omega
          (arith, length-lines raw v.rows.valid, v.rows.valid.visible_le, v.rows.same_visible) in
      Returns-bind
        {P = Meets (length raw.inner) raw.len g.lines (Sunk cell law g v (g.lines - b) (b - a) p)}
        (Lower a b p) m _ r
        λ raw' meets. (
          finish_down (length raw.inner) raw.len g.lines (g.lines - b) (b - a) p
              (blank_row cell g.columns g.cursor.template) (ring raw) (lines raw) fits
              (omega (arith, len_le)) (length-lines raw v.rows.valid) (agree cell law g v) raw'
              (Meets-weaken (length raw.inner) raw.len g.lines _ _ (λ i r _ f. f.1) meets),
          omega (arith, meets.same_len),
          refl,
          refl,
          record {
            rows = record {
              valid = meets.valid;
              same_size = refl;
              same_len = refl;
              same_visible = meets.same_visible;
              at = λ i lt.
                  (Meets-weaken (length raw.inner) raw.len g.lines _ (λ _. IsRow cell g.columns)
                      (λ i r _ f. f.0) meets).at
                    i (omega (arith, meets.same_size));
            };
            has_column = v.has_column;
            has_line = v.has_line;
            few_lines = v.few_lines;
            history_le = omega (arith, meets.same_len, v.history_le);
          },
        )

  whole_branch :
      (a b p : ℕ)
      → a < b
      → b ≤ a + p
      → b ≤ g.lines
      → p < 2 ^ 31
      → scroll_down cell g (pos a) (pos b) p ≡ (
          reset_lines cell g.cursor.template (pos a) (pos b) raw
          >>= (λ raw'. some (record g { raw = raw' })))
  unfolding scroll_down
  whole_branch a b p lt h k small =
      rw
        (
          exact_difference b a (omega (arith, v.few_lines)) (omega (arith, v.few_lines)),
          exact_i32 p small,
          le→leb (pos_part (pos b -ℤ pos a) + 0) (p + neg_part (pos b -ℤ pos a))
              (omega (arith, -ℤ_parts (pos b) (pos a))),
        )
        refl

  part_branch :
      (a b p : ℕ)
      → a + p < b
      → b ≤ g.lines
      → scroll_down cell g (pos a) (pos b) p ≡ (
          (if g.max_scroll_limit == 0
            then scroll_down_rotating cell g (pos a) (pos b) p
            else scroll_down_swapping cell g (pos a) (pos b) p)
          >>= (λ raw'. some (record g { raw = raw' })))
  unfolding scroll_down
  part_branch a b p h k =
      rw
        (
          exact_difference b a (omega (arith, v.few_lines)) (omega (arith, v.few_lines)),
          exact_i32 p (omega (arith, v.few_lines)),
          lt→leb_false (pos_part (pos b -ℤ pos a) + 0) (p + neg_part (pos b -ℤ pos a))
              (omega (arith, -ℤ_parts (pos b) (pos a))),
        )
        refl

  -- On a sound grid, with or without a history, scrolling the region from line `a` to `b > a` down by `p > 0`, less than 2^31, moves its rows down by `p`, or by its height if that is less: the rows above and below the region, the history, the display offset and the cursor stay, and rows that are blank in the cursor's colour fill the top of the region. The two ways in which the code does it (a rotation of the whole storage when there can be no history, swaps otherwise) meet this one description, and neither panics.
  pub scroll_down_lem :
      (a b p : ℕ)
      → a < b
      → b ≤ g.lines
      → 1 ≤ p
      → p < 2 ^ 31
      → Returns
          (λ g'.
            (lines g'.raw
              ≡ moved_down
                  (g.lines - b)
                  (b - a)
                  (min p (b - a))
                  (blank_row cell g.columns g.cursor.template)
                  (lines g.raw))
            × (history g' ≡ history g)
            × (g'.display_offset ≡ g.display_offset)
            × (g'.cursor ≡ g.cursor)
            × IsSound cell g')
          (scroll_down cell g (pos a) (pos b) p)
  scroll_down_lem a b p h k one small = elim (leb_cases b (a + p)) [
    | inl (_, l) ↦
        rw (whole_branch a b p h l k small, min_right p (b - a) (omega arith))
          (lowered a b (b - a) h k (omega arith) _ (emptied cell law g v a b h k))
    | inr (_, l) ↦
        rw (part_branch a b p l k, min_left p (b - a) (omega arith))
          (lowered a b p h k (omega arith) _ (part l))
  ]
    where
      min_left : (m n : ℕ) → m ≤ n → min m n ≡ m
      min_left m n h = omega arith

      min_right : (m n : ℕ) → n ≤ m → min m n ≡ n
      min_right m n h = omega arith

      part :
          a + p < b
          → Returns
              (Meets (length raw.inner) raw.len g.lines (Sunk cell law g v (g.lines - b) (b - a) p))
              (if g.max_scroll_limit == 0
                then scroll_down_rotating cell g (pos a) (pos b) p
                else scroll_down_swapping cell g (pos a) (pos b) p)
      part l = elim (==_cases g.max_scroll_limit 0) [
        | inl (e, z) ↦ rw e (rotating cell law g v a b p z one l k)
        | inr (e, _) ↦ rw e (swapping cell law g v a b p one l k)
      ]
