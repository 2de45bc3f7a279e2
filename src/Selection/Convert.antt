-- ===== src/Selection/Convert.antt =====
-- `range_block` and `to_range` of selection.rs, by the type of the selection. The searches that
-- widen a selection by words or lines, of term/search.rs, are given.
use cu_tty.Prelude.{◌+◌, ◌-◌, true, false, ◌&&◌, ◌||◌, not, ltb, if◌then◌else◌, Option, none, some}
use cu_tty.Prelude.Int.{ltb_ℤ}
use cu_tty.Prelude.Machine.{eqb_ℤ}
use cu_tty.Index.{
  Direction, left, right, Point, Dimensions, ltb_point, leb_point, eqb_point, bottommost_line,
  topmost_line, last_column,
}
use cu_tty.Index
use cu_tty.Selection.{
  Anchor, is_left, is_right, SelectionRange, simple, block, semantic, whole_lines, Selection, upper,
  lower, is_empty, range_simple,
}

unfoldable pub range_block : Selection → Anchor → Anchor → Option SelectionRange
unfolding is_empty
range_block s start end =
    if is_empty s
    then none
    else (let crossed = ltb end.point.column start.point.column in
        let a : Anchor =
          if crossed
          then record {
            point = record { line = start.point.line; column = end.point.column };
            side = end.side;
          }
          else start in
        let b : Anchor =
          if crossed
          then record {
            point = record { line = end.point.line; column = start.point.column };
            side = start.side;
          }
          else end in
        let last : Point =
          if is_left b.side && not (eqb_point a.point b.point) && ltb 0 b.point.column
          then record { line = b.point.line; column = b.point.column - 1 }
          else b.point in
        let first : Point =
          if is_right a.side && not (eqb_point a.point last)
          then record { line = a.point.line; column = a.point.column + 1 }
          else a.point in
        some (record { start = first; end = last; is_block = true }))

-- The searches of the terminal that `to_range` uses.
pub record Searches : Type 0 where
  pub bracket_search : Point → Option Point
  pub semantic_search_left : Point → Point
  pub semantic_search_right : Point → Point
  pub line_search_left : Point → Point
  pub line_search_right : Point → Point

unfoldable pub range_semantic : Searches → Point → Point → SelectionRange
range_semantic search start end =
    elim (if eqb_point start end then search.bracket_search start else none) [
      | none ↦ record {
        start = search.semantic_search_left start;
        end = search.semantic_search_right end;
        is_block = false;
      }
      | some matching ↦
          if (eqb_ℤ matching.line start.line && ltb matching.column start.column)
            || ltb_ℤ matching.line start.line
          then record { start = matching; end = end; is_block = false }
          else record { start = start; end = matching; is_block = false }
    ]

unfoldable pub range_lines : Searches → Point → Point → SelectionRange
range_lines search start end = record {
  start = search.line_search_left start;
  end = search.line_search_right end;
  is_block = false;
}

unfoldable pub to_range : Searches → Dimensions → Selection → Option SelectionRange
unfolding range_simple range_block range_semantic range_lines
to_range search d s =
    let start : Anchor = record {
      point = Index.grid_clamp d Index.grid (upper s).point;
      side = (upper s).side;
    } in
    let end : Anchor = record {
      point = Index.grid_clamp d Index.grid (lower s).point;
      side = (lower s).side;
    } in
    if ltb_ℤ (lower s).point.line (topmost_line d) then none else elim s.ty [
      | simple ↦ range_simple s start end d.columns
      | block ↦ range_block s start end
      | semantic ↦ some (range_semantic search start.point end.point)
      | whole_lines ↦ some (range_lines search start.point end.point)
    ]
