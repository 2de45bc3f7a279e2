-- ===== src/Display/Rects.antt =====
-- The rectangles of cutty/src/display/damage.rs that are redrawn for the damaged lines.
use cu_tty.Prelude.{
  ℕ, zero, suc, ◌+◌, ◌-◌, ◌%◌, ◌/◌, ◌^◌, Bool, ◌||◌, not, if◌then◌else◌, Option, none, some, List,
  [], ◌∷◌, length,
}
use cu_tty.Prelude.Int.{ℤ, pos, negsuc, ltb_ℤ, ◌-ℤ◌}
use cu_tty.Prelude.Machine.{min_ℤ, max_ℤ, add_i32, sub_i32, as_i32}
use cu_tty.Term.Damage.{LineDamageBounds}
use cu_tty.Display.{SizeInfo, as_u32, add_u32, sub_u32, mul_u32}

pub record DamageRect : Type 0 where
  pub x : ℤ
  pub y : ℤ
  pub width : ℤ
  pub height : ℤ

-- The end of a rectangle in each direction.
abbrev pub right_of : DamageRect → ℤ
right_of r = add_i32 r.x r.width

abbrev pub top_of : DamageRect → ℤ
top_of r = add_i32 r.y r.height

unfoldable pub rects_overlap : DamageRect → DamageRect → Bool
rects_overlap lhs rhs = not (
    ltb_ℤ (right_of lhs) rhs.x
    || ltb_ℤ (right_of rhs) lhs.x
    || ltb_ℤ (top_of lhs) rhs.y
    || ltb_ℤ (top_of rhs) lhs.y)

unfoldable pub merge_rects : DamageRect → DamageRect → DamageRect
merge_rects lhs rhs =
    let left_x = min_ℤ lhs.x rhs.x in
    let right_x = max_ℤ (right_of lhs) (right_of rhs) in
    let y_top = max_ℤ (top_of lhs) (top_of rhs) in
    let y_bottom = min_ℤ lhs.y rhs.y in
    record {
      x = left_x;
      y = y_bottom;
      width = sub_i32 right_x left_x;
      height = sub_i32 y_top y_bottom;
    }

-- Division of an `i32` by 2, towards 0.
abbrev pub half : ℤ → ℤ
half (pos n) = pos (n / 2)
half (negsuc n) = pos 0 -ℤ pos ((n + 1) / 2)

module _ (s : SizeInfo) where
  -- The difference of `usize` wraps too.
  unfoldable pub rect_for_line : LineDamageBounds → DamageRect
  rect_for_line b =
      let y_top = sub_u32 s.height s.padding_y in
      let x = add_u32 s.padding_x (mul_u32 (as_u32 b.left) s.cell_width) in
      let y = sub_u32 y_top (mul_u32 (as_u32 (b.line + 1)) s.cell_height) in
      let cells = as_u32 ((b.right + 2 ^ 64 - b.left) % 2 ^ 64 + 1) in
      record {
        x = as_i32 x;
        y = as_i32 y;
        width = as_i32 (mul_u32 cells s.cell_width);
        height = as_i32 s.cell_height;
      }

  unfoldable pub overdamage : DamageRect → DamageRect
  overdamage r =
      let cell_width = as_i32 s.cell_width in
      let x = max_ℤ (sub_i32 r.x cell_width) (pos 0) in
      let width =
        min_ℤ (max_ℤ (sub_i32 (as_i32 s.width) x) (pos 0))
          (add_i32 r.width (add_i32 cell_width cell_width)) in
      let y = max_ℤ (sub_i32 r.y (half (as_i32 s.cell_height))) (pos 0) in
      let height =
        min_ℤ (max_ℤ (sub_i32 (as_i32 s.height) y) (pos 0))
          (add_i32 r.height (as_i32 s.cell_height)) in
      record { x = x; y = y; width = width; height = height }

  -- The loop of `RenderDamageIterator::next`, with the lines that the inner iterator has left.
  unfoldable pub merge_while :
      DamageRect → List LineDamageBounds → DamageRect × List LineDamageBounds
  unfolding rect_for_line overdamage rects_overlap merge_rects
  merge_while total [] = (total, [])
  merge_while total (line ∷ lines) =
      let next_rect = overdamage (rect_for_line line) in
      let rest = merge_while (merge_rects total next_rect) lines in
      if not (rects_overlap total next_rect) then (total, line ∷ lines) else rest

  unfoldable pub next : List LineDamageBounds → Option (DamageRect × List LineDamageBounds)
  unfolding rect_for_line overdamage merge_while
  next [] = none
  next (line ∷ lines) = some (merge_while (overdamage (rect_for_line line)) lines)

  -- What the iterator yields until it ends; each round takes at least one line.
  unfoldable pub yielded : ℕ → List LineDamageBounds → List DamageRect
  unfolding next
  yielded zero lines = []
  yielded (suc rounds) lines = elim (next lines) [
    | none ↦ []
    | some (rect, left) ↦ rect ∷ yielded rounds left
  ]

  unfoldable pub render : List LineDamageBounds → List DamageRect
  unfolding yielded
  render lines = yielded (length lines) lines
