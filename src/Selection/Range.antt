-- ===== src/Selection/Range.antt =====
-- What the ranges of selection.rs contain.
use cu_tty.Prelude.{
  ℕ, ◌+◌, ◌-◌, ◌<◌, ◌≡◌, refl, Bool, true, false, ◌&&◌, ◌||◌, not, leb, ◌==◌, if◌then◌else◌, arith,
  inl, inr, Bool-cases, ==_cases,
}
use cu_tty.Prelude.Int.{ℤ, pos_part, neg_part}
use cu_tty.Prelude.Machine.{leb_ℤ, eqb_ℤ}
use cu_tty.Index.{Direction, left, right, Point, ltb_point, leb_point, eqb_point}
use cu_tty.Selection.{
  Anchor, SelectionRange, contains, simple, block, semantic, whole_lines, Selection, is_empty,
  include_all, is_left, is_right,
}

-- A range that is no block contains the points between its ends in reading order; a block contains the rectangle.
pub contains_lem :
    (r : SelectionRange) (p : Point)
    → contains r p ≡ (
        if r.is_block
        then (leb_ℤ r.start.line p.line && leb_ℤ p.line r.end.line)
          && (leb r.start.column p.column && leb p.column r.end.column)
        else leb_point r.start p && leb_point p r.end)
unfolding contains
contains_lem r p = elim (Bool-cases r.is_block) [
  | inl e ↦ rw e (ground arith)
  | inr e ↦ rw e (ground arith)
]

-- A selection that was widened by `include_all` is not empty, whatever its type and its anchors, and its points are as before.
pub include_all_lem :
    (s : Selection)
    → (is_empty (include_all s) ≡ false)
      × ((include_all s).start.point ≡ s.start.point)
      × ((include_all s).end.point ≡ s.end.point)
unfolding include_all is_empty
include_all_lem s = (
  elim s.ty as (λ ty. is_empty (include_all (record s { ty = ty })) ≡ false) [
    | simple ↦ ground arith
    | block ↦ ground arith
    | semantic ↦ refl
    | whole_lines ↦ refl
  ],
  refl,
  refl,
)

-- All of the cell `p` lies between the two anchors: an anchor on the left of a cell is before it, one on the right is behind it.
abbrev pub covers : Anchor → Anchor → Point → Bool
covers start end p =
    (ltb_point start.point p || (eqb_point start.point p && is_left start.side))
    && (ltb_point p end.point || (eqb_point p end.point && is_right end.side))

-- The end of the range, and its start.
unfoldable pub last_point : Anchor → Anchor → ℕ → ℤ → Point
last_point start end columns above =
    if is_left end.side
    then if end.point.column == 0
      then record { line = above; column = columns - 1 }
      else record { line = end.point.line; column = end.point.column - 1 }
    else end.point

unfoldable pub first_point : Anchor → Point → ℕ → ℤ → Point
first_point start last columns below =
    if is_right start.side && not (eqb_point start.point last)
    then if start.point.column + 1 == columns
      then record { line = below; column = 0 }
      else record { line = start.point.line; column = start.point.column + 1 }
    else start.point

module _ (start end p : Point) (columns : ℕ) where
  -- The cells up to the end of the range are those before the lower anchor.
  pub until :
      (side : Direction) (above : ℤ)
      → p.column < columns
      → end.column < columns
      → pos_part above + 1 + neg_part end.line ≡ neg_part above + pos_part end.line
      → leb_point p (
          last_point
            (record { point = start; side = side })
            (record { point = end; side = side })
            columns
            above)
        ≡ (ltb_point p end || (eqb_point p end && is_right side))
  unfolding last_point
  until left above h k e = ground arith
  until right above h k e = ground arith

  pub from :
      (side : Direction) (last : Point) (below : ℤ)
      → p.column < columns
      → start.column < columns
      → pos_part below + neg_part start.line ≡ neg_part below + 1 + pos_part start.line
      → (is_right side && eqb_point start last) ≡ false
      → leb_point (first_point (record { point = start; side = side }) last columns below) p
        ≡ (ltb_point start p || (eqb_point start p && is_left side))
  unfolding first_point
  from left last below h k e ne = ground arith
  from right last below h k e ne = elim (==_cases (start.column + 1) columns) [
    | inl (f, _) ↦ rw (ne, f) (ground arith)
    | inr (f, _) ↦ rw (ne, f) (ground arith)
  ]

  -- The range starts behind its end only if the anchors are on the two sides of one edge.
  pub apart :
      (side side' : Direction) (above : ℤ)
      → start.column < columns
      → end.column < columns
      → ltb_point start end ≡ true
      → pos_part above + 1 + neg_part end.line ≡ neg_part above + pos_part end.line
      → (is_right side
          && is_left side'
          && eqb_ℤ start.line end.line
          && (start.column + 1 == end.column))
        ≡ false
      → (is_right side
          && is_left side'
          && (end.column == 0)
          && (start.column + 1 == columns)
          && eqb_ℤ start.line above)
        ≡ false
      → (is_right side
          && eqb_point start (
              last_point
                (record { point = start; side = side })
                (record { point = end; side = side' })
                columns
                above))
        ≡ false
  unfolding last_point
  apart left side' above h k lt e near wraps = refl
  apart right right above h k lt e near wraps = ground arith
  apart right left above h k lt e near wraps = ground arith

-- The range starts with a cell that lies between the anchors, unless nothing does.
pub before :
    (start end : Point) (columns : ℕ) (side side' : Direction) (last : Point) (below : ℤ)
    → start.column < columns
    → end.column < columns
    → ltb_point start end ≡ true
    → pos_part below + neg_part start.line ≡ neg_part below + 1 + pos_part start.line
    → (is_right side
        && is_left side'
        && eqb_ℤ start.line end.line
        && (start.column + 1 == end.column))
      ≡ false
    → (is_right side
        && is_left side'
        && (end.column == 0)
        && (start.column + 1 == columns)
        && eqb_ℤ below end.line)
      ≡ false
    → (is_right side && eqb_point start last) ≡ false
    → let first : Point = first_point (record { point = start; side = side }) last columns below in
      (first.column < columns)
      × (covers (record { point = start; side = side }) (record { point = end; side = side' }) first
          ≡ true)
unfolding first_point
before start end columns left side' last below hs he lt e edge break apart = (hs, ground arith)
before start end columns right left last below hs he lt e edge break apart =
    elim (==_cases (start.column + 1) columns) [
      | inl (f, _) ↦ rw (apart, f) (omega arith, ground arith)
      | inr (f, _) ↦ rw (apart, f) (ground arith, ground arith)
    ]
before start end columns right right last below hs he lt e edge break apart =
    elim (==_cases (start.column + 1) columns) [
      | inl (f, _) ↦ rw (apart, f) (omega arith, ground arith)
      | inr (f, _) ↦ rw (apart, f) (ground arith, ground arith)
    ]
