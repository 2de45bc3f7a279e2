-- ===== src/Selection.antt =====
-- cutty_terminal/src/selection.rs, the selection of a region of the grid. Lines are `i32` as in
-- Index.
pub mod Range
pub mod Simple
pub mod Move
pub mod Convert
mod Tests
use cu_tty.Prelude.{
  ℕ, ◌+◌, ◌-◌, Bool, true, false, ◌&&◌, ◌||◌, not, ltb, leb, ◌==◌, if◌then◌else◌, Option, none,
  some, ◌>>=◌,
}
use cu_tty.Prelude.Int.{ℤ, pos, negsuc, ltb_ℤ}
use cu_tty.Prelude.Machine.{leb_ℤ, eqb_ℤ, min_ℤ, add_i32, sub_i32}
use cu_tty.Index.{
  Direction, left, right, Point, Dimensions, ltb_point, leb_point, eqb_point, bottommost_line,
  topmost_line, last_column,
}
use cu_tty.Index

pub record Anchor : Type 0 where
  pub point : Point
  pub side : Direction

abbrev pub is_left : Direction → Bool
is_left left = true
is_left right = false

abbrev pub is_right : Direction → Bool
is_right side = not (is_left side)

abbrev pub eqb_side : Direction → Direction → Bool
eqb_side left side = is_left side
eqb_side right side = is_right side

abbrev pub eqb_anchor : Anchor → Anchor → Bool
eqb_anchor a b = eqb_point a.point b.point && eqb_side a.side b.side

pub record SelectionRange : Type 0 where
  pub start : Point
  pub end : Point
  pub is_block : Bool

unfoldable pub contains : SelectionRange → Point → Bool
contains r p =
    leb_ℤ r.start.line p.line
    && leb_ℤ p.line r.end.line
    && (leb r.start.column p.column || (not (eqb_ℤ r.start.line p.line) && not r.is_block))
    && (leb p.column r.end.column || (not (eqb_ℤ r.end.line p.line) && not r.is_block))

-- `contains_cell`, of a cell at `at` that is `wide` or not, where the cursor stands at `cursor` and
-- is a block or not.
unfoldable pub contains_cell : SelectionRange → Point → Bool → Point → Bool → Bool
unfolding contains
contains_cell r at wide cursor block_cursor =
    let corner =
      eqb_point r.start at
      || eqb_point r.end at
      || (r.is_block
          && ((eqb_ℤ r.start.line at.line && (r.end.column == at.column))
              || (eqb_ℤ r.end.line at.line && (r.start.column == at.column)))) in
    if block_cursor && eqb_point cursor at && corner
    then false
    else if contains r at
    then true
    else wide && contains r (record at { column = at.column + 1 })

pub data SelectionType : Type 0 where
  simple block semantic whole_lines : SelectionType

abbrev pub is_block_type : SelectionType → Bool
is_block_type block = true
is_block_type _ = false

-- `Selection`, whose `region` is two anchors.
pub record Selection : Type 0 where
  pub ty : SelectionType
  pub start : Anchor
  pub end : Anchor

unfoldable pub new : SelectionType → Point → Direction → Selection
new ty location side =
    let anchor : Anchor = record { point = location; side = side } in
    record { ty = ty; start = anchor; end = anchor }

unfoldable pub update : Selection → Point → Direction → Selection
update s point side = record s { end = record { point = point; side = side } }

abbrev pub move_to : Anchor → ℤ → Anchor
move_to a line = record a { point = record { line = line; column = a.point.column } }

-- The first half of `rotate`, on the upper anchor; `none` deletes the selection.
unfoldable pub rotate_start :
    SelectionType → Dimensions → ℤ → ℤ → ℤ → Anchor → Anchor → Option Anchor
rotate_start ty d range_top range_bottom delta start end =
    if (leb_ℤ range_top start.point.line || eqb_ℤ range_top (pos 0))
      && ltb_ℤ start.point.line range_bottom
    then (let line = min_ℤ (sub_i32 start.point.line delta) (bottommost_line d) in
        if leb_ℤ range_bottom line && ltb_ℤ end.point.line range_bottom
        then none
        else if ltb_ℤ line range_top && not (eqb_ℤ range_top (pos 0))
        then some (
            if is_block_type ty
            then move_to start range_top
            else record { point = record { line = range_top; column = 0 }; side = left })
        else some (move_to start line))
    else some start

-- The second half, on the lower anchor.
unfoldable pub rotate_end : SelectionType → Dimensions → ℤ → ℤ → ℤ → Anchor → Anchor → Option Anchor
rotate_end ty d range_top range_bottom delta start end =
    if (leb_ℤ range_top end.point.line || eqb_ℤ range_top (pos 0))
      && ltb_ℤ end.point.line range_bottom
    then (let line = min_ℤ (sub_i32 end.point.line delta) (bottommost_line d) in
        if ltb_ℤ line start.point.line
        then none
        else if leb_ℤ range_bottom line
        then some (
            if is_block_type ty then move_to end (sub_i32 range_bottom (pos 1)) else record {
              point = record { line = sub_i32 range_bottom (pos 1); column = last_column d };
              side = right;
            })
        else some (move_to end line))
    else some end

abbrev pub is_reversed : Selection → Bool
is_reversed s = ltb_point s.end.point s.start.point

abbrev pub upper : Selection → Anchor
upper s = if is_reversed s then s.end else s.start

abbrev pub lower : Selection → Anchor
lower s = if is_reversed s then s.start else s.end

-- The anchors are changed in place: each keeps its side of the region.
unfoldable pub rotate : Selection → Dimensions → ℤ → ℤ → ℤ → Option Selection
rotate s d range_top range_bottom delta = do
  first ← rotate_start s.ty d range_top range_bottom delta (upper s) (lower s)
  second ← rotate_end s.ty d range_top range_bottom delta first (lower s)
  some (
      if is_reversed s
      then record s { start = second; end = first }
      else record s { start = first; end = second })

unfoldable pub is_empty : Selection → Bool
is_empty s = elim s.ty [
  | simple ↦
      let start = upper s in
      let end = lower s in
      eqb_anchor start end
      || (is_right start.side
          && is_left end.side
          && eqb_ℤ start.point.line end.point.line
          && (start.point.column + 1 == end.point.column))
  | block ↦
      let start = s.start in
      let end = s.end in
      ((start.point.column == end.point.column) && eqb_side start.side end.side)
      || ((start.point.column + 1 == end.point.column) && is_right start.side && is_left end.side)
      || ((end.point.column + 1 == start.point.column) && is_left start.side && is_right end.side)
  | _ ↦ false
]

pub data Bound : Type 0 where
  included excluded : ℤ → Bound
  unbounded : Bound

abbrev pub range_top : Bound → ℤ
range_top (included l) = l
range_top (excluded l) = add_i32 l (pos 1)
range_top unbounded = negsuc 2147483647

abbrev pub range_bottom : Bound → ℤ
range_bottom (included l) = l
range_bottom (excluded l) = sub_i32 l (pos 1)
range_bottom unbounded = pos 2147483647

unfoldable pub intersects_range : Selection → Bound → Bound → Bool
intersects_range s from to =
    let reversed = ltb_ℤ s.end.point.line s.start.point.line in
    let start = if reversed then s.end.point.line else s.start.point.line in
    let end = if reversed then s.start.point.line else s.end.point.line in
    leb_ℤ start (range_bottom to) && leb_ℤ (range_top from) end

unfoldable pub include_all : Selection → Selection
include_all s =
    let start = s.start.point in
    let end = s.end.point in
    let backwards =
      if is_block_type s.ty
      then ltb end.column start.column
        || ((start.column == end.column) && ltb_ℤ end.line start.line)
      else is_reversed s in
    record s {
      start = record { point = start; side = if backwards then right else left };
      end = record { point = end; side = if backwards then left else right };
    }

-- `range_simple`, whose `self` is asked only whether it is empty.
unfoldable pub range_simple : Selection → Anchor → Anchor → ℕ → Option SelectionRange
unfolding is_empty
range_simple s start end columns =
    if is_empty s
    then none
    else (let last : Point =
          if is_left end.side && not (eqb_point start.point end.point)
          then if end.point.column == 0
            then record { line = sub_i32 end.point.line (pos 1); column = columns - 1 }
            else record { line = end.point.line; column = end.point.column - 1 }
          else end.point in
        let first : Point =
          if is_right start.side && not (eqb_point start.point last)
          then if start.point.column + 1 == columns
            then record { line = add_i32 start.point.line (pos 1); column = 0 }
            else record { line = start.point.line; column = start.point.column + 1 }
          else start.point in
        some (record { start = first; end = last; is_block = false }))
