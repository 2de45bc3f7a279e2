-- ===== src/Selection/Simple.antt =====
-- `range_simple` of selection.rs selects the cells between the two anchors.
use cu_tty.Prelude.{
  ℕ, ◌+◌, ◌<◌, ◌≡◌, refl, ◌∙◌, sym, ap, Bool, true, false, ◌&&◌, ◌||◌, ◌==◌, Option, none, some,
  arith, inl, inr, Bool-cases, ap₂,
}
use cu_tty.Prelude.Int.{ℤ, pos, pos_part, neg_part, ◌+ℤ◌, ◌-ℤ◌, +ℤ_parts, -ℤ_parts}
use cu_tty.Prelude.Whenever.{Whenever}
use cu_tty.Prelude.Machine.{eqb_ℤ, wrap_i32_id, IsI32}
use cu_tty.Index.{Point, ltb_point, eqb_point}
use cu_tty.Selection.{
  Anchor, SelectionRange, contains, simple, Selection, is_empty, upper, lower, range_simple,
  is_left, is_right, eqb_anchor,
}
use cu_tty.Selection.Range.{
  contains_lem, covers, last_point, first_point, until, from, apart, before,
}

abbrev pub selects : Option SelectionRange → Point → Bool
selects none p = false
selects (some r) p = contains r p

-- The anchors are the right side of the last cell of a line and the left side of the first cell of the next: nothing lies between them.
abbrev pub is_line_break : Anchor → Anchor → ℕ → Bool
is_line_break start end columns =
    is_right start.side
    && is_left end.side
    && (end.point.column == 0)
    && (start.point.column + 1 == columns)
    && eqb_ℤ start.point.line (end.point.line -ℤ pos 1)

-- They are the two sides of one edge within a line.
abbrev is_edge : Anchor → Anchor → Bool
is_edge start end =
    is_right start.side
    && is_left end.side
    && eqb_ℤ start.point.line end.point.line
    && (start.point.column + 1 == end.point.column)

one_line_apart :
    (upper lower below above : ℤ)
    → pos_part below + neg_part upper ≡ neg_part below + 1 + pos_part upper
    → pos_part above + 1 + neg_part lower ≡ neg_part above + pos_part lower
    → eqb_ℤ below lower ≡ eqb_ℤ upper above
one_line_apart upper lower below above h k = ground arith

module _ (start end : Anchor) (columns : ℕ) where
  abbrev last : Point
  last = last_point start end columns (end.point.line -ℤ pos 1)

  abbrev first : Point
  first = first_point start last columns (start.point.line +ℤ pos 1)

  range-eq :
      (s : Selection)
      → is_empty s ≡ false
      → eqb_point start.point end.point ≡ false
      → IsI32 (end.point.line -ℤ pos 1)
      → IsI32 (start.point.line +ℤ pos 1)
      → range_simple s start end columns
        ≡ some (record { start = first; end = last; is_block = false })
  unfolding range_simple last_point first_point
  range-eq s e ne h k =
      rw (e, ne, wrap_i32_id (end.point.line -ℤ pos 1) h, wrap_i32_id (start.point.line +ℤ pos 1) k)
        (elim (Bool-cases (is_left end.side)) [ inl f ↦ rw f refl | inr f ↦ rw f refl ])

  selects-range :
      (p : Point)
      → p.column < columns
      → start.point.column < columns
      → end.point.column < columns
      → ltb_point start.point end.point ≡ true
      → is_edge start end ≡ false
      → is_line_break start end columns ≡ false
      → contains (record { start = first; end = last; is_block = false }) p ≡ covers start end p
  unfolding first_point last_point
  selects-range p hp hs he lt edge break =
      contains_lem (record { start = first; end = last; is_block = false }) p
      ∙ ap₂ ◌&&◌
          (from start.point end.point p columns start.side last (start.point.line +ℤ pos 1) hp hs
            (omega (arith, +ℤ_parts start.point.line (pos 1)))
            (apart start.point end.point p columns start.side end.side (end.point.line -ℤ pos 1) hs
              he lt (omega (arith, -ℤ_parts end.point.line (pos 1))) edge break))
          (until start.point end.point p columns end.side (end.point.line -ℤ pos 1) hp he
            (omega (arith, -ℤ_parts end.point.line (pos 1))))

  -- The range of a selection begins with a cell that lies between the anchors.
  first-covered :
      start.point.column < columns
      → end.point.column < columns
      → ltb_point start.point end.point ≡ true
      → is_edge start end ≡ false
      → is_line_break start end columns ≡ false
      → (first.column < columns) × (covers start end first ≡ true)
  first-covered hs he lt edge break =
      before start.point end.point columns start.side end.side last (start.point.line +ℤ pos 1) hs
        he lt (omega (arith, +ℤ_parts start.point.line (pos 1))) edge
        (ap
            (λ q.
              is_right start.side
              && is_left end.side
              && (end.point.column == 0)
              && (start.point.column + 1 == columns)
              && q)
            (one_line_apart start.point.line end.point.line (start.point.line +ℤ pos 1)
              (end.point.line -ℤ pos 1) (omega (arith, +ℤ_parts start.point.line (pos 1)))
              (omega (arith, -ℤ_parts end.point.line (pos 1))))
          ∙ break)
        (apart start.point end.point start.point columns start.side end.side
          (end.point.line -ℤ pos 1) hs he lt (omega (arith, -ℤ_parts end.point.line (pos 1))) edge
          break)

-- The selection from one anchor to another.
abbrev pub drag : Anchor → Anchor → Selection
drag a b = record { ty = simple; start = a; end = b }

-- What the anchors of a selection that is not empty are not.
is_empty-eq :
    (a b : Anchor)
    → is_empty (drag a b) ≡ (
        eqb_anchor (upper (drag a b)) (lower (drag a b))
        || is_edge (upper (drag a b)) (lower (drag a b)))
unfolding is_empty
is_empty-eq a b = refl

no_edge : (x y : Bool) → (x || y) ≡ false → y ≡ false
no_edge x y h = ground arith

same_point : (a b : Point) → ltb_point a b ≡ true → eqb_point a b ≡ false
same_point a b h = ground arith

nothing :
    (start end : Anchor) (p : Point)
    → ltb_point start.point end.point ≡ true
    → (eqb_anchor start end || is_edge start end) ≡ true
    → covers start end p ≡ false
nothing start end p lt h = ground arith

none_if :
    (s : Selection) (start end : Anchor) (columns : ℕ)
    → is_empty s ≡ true
    → range_simple s start end columns ≡ none
unfolding range_simple
none_if s start end columns e = rw e refl

-- The simple selection between two anchors at different points, with columns within the grid and lines that can be counted up and down by one, selects exactly the cells that lie between the anchors as a whole, whichever anchor comes first; if there is a range then its first cell is a cell of the grid that lies between them, so it is none if no cell does. The anchors must not be the two sides of a line break.
pub range_simple_lem :
    (a b : Anchor) (columns : ℕ) (p : Point)
    → ltb_point (upper (drag a b)).point (lower (drag a b)).point ≡ true
    → (upper (drag a b)).point.column < columns
    → (lower (drag a b)).point.column < columns
    → p.column < columns
    → IsI32 ((lower (drag a b)).point.line -ℤ pos 1)
    → IsI32 ((upper (drag a b)).point.line +ℤ pos 1)
    → is_line_break (upper (drag a b)) (lower (drag a b)) columns ≡ false
    → (selects (range_simple (drag a b) (upper (drag a b)) (lower (drag a b)) columns) p
        ≡ covers (upper (drag a b)) (lower (drag a b)) p)
      × Whenever
          (λ r.
            (r.start.column < columns)
            × (covers (upper (drag a b)) (lower (drag a b)) r.start ≡ true))
          (range_simple (drag a b) (upper (drag a b)) (lower (drag a b)) columns)
range_simple_lem a b columns p lt hs he hp h k break = elim (Bool-cases (is_empty (drag a b))) [
  | inl e ↦ rw (empty e) (sym (nothing start end p lt (sym (is_empty-eq a b) ∙ e)), tt)
  | inr e ↦
      let edge = no_edge (eqb_anchor start end) (is_edge start end) (sym (is_empty-eq a b) ∙ e) in
      rw (range-eq start end columns (drag a b) e (same_point start.point end.point lt) h k) (
        selects-range start end columns p hp hs he lt edge break,
        first-covered start end columns hs he lt edge break,
      )
]
  where
    start : Anchor
    start = upper (drag a b)

    end : Anchor
    end = lower (drag a b)

    empty : is_empty (drag a b) ≡ true → range_simple (drag a b) start end columns ≡ none
    empty e = none_if (drag a b) start end columns e

-- What follows from a line break.
module _ (start end : Anchor) (columns : ℕ) where
  abbrev Above : ℤ → Type 0
  Above above =
      pos_part above + 1 + neg_part end.point.line ≡ neg_part above + pos_part end.point.line

  uncovered :
      (p : Point)
      → p.column < columns
      → Above (end.point.line -ℤ pos 1)
      → is_line_break start end columns ≡ true
      → covers start end p ≡ false
  uncovered p hp e break = ground arith

  not_empty :
      0 < columns
      → Above (end.point.line -ℤ pos 1)
      → is_line_break start end columns ≡ true
      → (eqb_anchor start end || is_edge start end) ≡ false
  not_empty wide e break = ground arith

  two_points :
      Above (end.point.line -ℤ pos 1)
      → is_line_break start end columns ≡ true
      → eqb_point start.point end.point ≡ false
  two_points e break = ground arith

module _ (start end : Anchor) (columns : ℕ) where
  at_last :
      0 < columns
      → is_line_break start end columns ≡ true
      → eqb_point start.point (last start end columns) ≡ true
  unfolding last_point
  at_last wide break = ground arith

  taken :
      0 < columns
      → is_line_break start end columns ≡ true
      → contains
          (record {
            start = first start end columns;
            end = last start end columns;
            is_block = false;
          })
          start.point
        ≡ true
  unfolding first_point
  taken wide break =
      contains_lem
        (record { start = first start end columns; end = last start end columns; is_block = false })
        start.point
      ∙ rw (at_last wide break) (elim (Bool-cases (is_right start.side)) [
        | inl f ↦ rw f (ground (arith, at_last wide break))
        | inr f ↦ rw f (ground (arith, at_last wide break))
      ])

-- Between the two sides of a line break, in whichever order, no cell lies as a whole, and yet the last cell of the upper line is selected.
pub range_simple_over_line_break :
    (a b : Anchor) (columns : ℕ) (p : Point)
    → 0 < columns
    → p.column < columns
    → IsI32 ((lower (drag a b)).point.line -ℤ pos 1)
    → IsI32 ((upper (drag a b)).point.line +ℤ pos 1)
    → is_line_break (upper (drag a b)) (lower (drag a b)) columns ≡ true
    → (covers (upper (drag a b)) (lower (drag a b)) p ≡ false)
      × (selects
            (range_simple (drag a b) (upper (drag a b)) (lower (drag a b)) columns)
            (upper (drag a b)).point
          ≡ true)
range_simple_over_line_break a b columns p wide hp h k break = (
  uncovered start end columns p hp (omega (arith, -ℤ_parts end.point.line (pos 1))) break,
  ap (λ r. selects r start.point)
        (range-eq start end columns (drag a b)
          (is_empty-eq a b
            ∙ not_empty start end columns wide (omega (arith, -ℤ_parts end.point.line (pos 1)))
                break)
          (two_points start end columns (omega (arith, -ℤ_parts end.point.line (pos 1))) break) h k)
      ∙ taken start end columns wide break,
)
  where
    start : Anchor
    start = upper (drag a b)

    end : Anchor
    end = lower (drag a b)
