-- ===== src/Display/Boxes.antt =====
-- The rectangles of cutty/src/display/damage.rs as boxes of natural numbers inside the window.
use native.Mathlib.Nat.{add-mul, mul-le-mul_left, mul-le-mul_right}
use cu_tty.Prelude.{ℕ, ◌+◌, ◌-◌, ◌*◌, ◌/◌, ◌%◌, ◌^◌, ◌≤◌, ◌<◌, ◌≡◌, ◌∙◌, ap, ap₂, min, max, arith}
use cu_tty.Prelude.Int.{ℤ, pos, ◌+ℤ◌, ◌-ℤ◌}
use cu_tty.Prelude.Machine.{wrap_i32, min_ℤ, max_ℤ, add_i32, sub_i32, as_i32}
use cu_tty.Term.Damage.{LineDamageBounds}
use cu_tty.Display.{SizeInfo, add_u32, sub_u32, mul_u32, as_u32}
use cu_tty.Display.Rects.{DamageRect, rect_for_line, overdamage, merge_rects, half}

-- A box from its lower left to its upper right corner.
pub record Box : Type 0 where
  pub left : ℕ
  pub bottom : ℕ
  pub right : ℕ
  pub top : ℕ

abbrev pub rect_of : Box → DamageRect
rect_of b = record {
  x = pos b.left;
  y = pos b.bottom;
  width = pos (b.right - b.left);
  height = pos (b.top - b.bottom);
}

-- The smallest box with both.
abbrev pub hull : Box → Box → Box
hull a b = record {
  left = min a.left b.left;
  bottom = min a.bottom b.bottom;
  right = max a.right b.right;
  top = max a.top b.top;
}

abbrev pub Encloses : Box → Box → Type 0
Encloses a b = (a.left ≤ b.left) × (a.bottom ≤ b.bottom) × (b.right ≤ a.right) × (b.top ≤ a.top)

-- The grid of cells has room in the window, whose sizes are far from the bounds of `i32`.
pub record IsWindow (s : SizeInfo) : Type 0 where
  pub few_columns : s.padding_x + s.columns * s.cell_width ≤ s.width
  pub few_lines : s.padding_y + s.screen_lines * s.cell_height ≤ s.height
  pub small : (s.width < 2 ^ 29) × (s.height < 2 ^ 29)
  pub cell : (1 ≤ s.cell_width) × (s.cell_width ≤ s.width)
  pub cell_tall : (1 ≤ s.cell_height) × (s.cell_height ≤ s.height)

abbrev pub IsInside : SizeInfo → Box → Type 0
IsInside s b = (b.left ≤ b.right) × (b.right ≤ s.width) × (b.bottom ≤ b.top) × (b.top ≤ s.height)

-- The bounds are those of a line on the screen.
abbrev pub OnView : SizeInfo → LineDamageBounds → Type 0
OnView s b = (b.left ≤ b.right) × (b.right < s.columns) × (b.line < s.screen_lines)

-- The cells of the damaged part of a line.
abbrev pub cells_of : SizeInfo → LineDamageBounds → Box
cells_of s b = record {
  left = s.padding_x + b.left * s.cell_width;
  bottom = s.height - s.padding_y - (b.line + 1) * s.cell_height;
  right = s.padding_x + (b.right + 1) * s.cell_width;
  top = s.height - s.padding_y - b.line * s.cell_height;
}

-- The box with a cell more on each side, and half a cell below and above, cut to the window.
abbrev pub grown : SizeInfo → Box → Box
grown s b =
    let left = b.left - s.cell_width in
    let bottom = b.bottom - s.cell_height / 2 in
    record {
      left = left;
      bottom = bottom;
      right = left + min (s.width - left) (b.right - b.left + (s.cell_width + s.cell_width));
      top = bottom + min (s.height - bottom) (b.top - b.bottom + s.cell_height);
    }

pub small_i32 : (n : ℕ) → n < 2 ^ 31 → as_i32 n ≡ pos n
unfolding wrap_i32
small_i32 n h = ground arith

sum_i32 : (a b : ℕ) → a + b < 2 ^ 31 → add_i32 (pos a) (pos b) ≡ pos (a + b)
unfolding wrap_i32 ◌+ℤ◌
sum_i32 a b h = ground arith

difference_i32 : (a b : ℕ) → b ≤ a → a < 2 ^ 31 → sub_i32 (pos a) (pos b) ≡ pos (a - b)
unfolding wrap_i32 ◌-ℤ◌
difference_i32 a b k h = ground arith

clamped_i32 :
    (a b : ℕ) → a < 2 ^ 31 → b < 2 ^ 31 → max_ℤ (sub_i32 (pos a) (pos b)) (pos 0) ≡ pos (a - b)
unfolding wrap_i32 ◌-ℤ◌
clamped_i32 a b h k = ground arith

min_pos : (a b : ℕ) → min_ℤ (pos a) (pos b) ≡ pos (min a b)
min_pos a b = ground arith

max_pos : (a b : ℕ) → max_ℤ (pos a) (pos b) ≡ pos (max a b)
max_pos a b = ground arith

-- The extent of a box that grows by `more` and begins at `low`, cut to the window's `size`.
cut_i32 :
    (size more low c d : ℕ) (z add : ℤ)
    → size < 2 ^ 29
    → more ≤ size + size
    → c ≤ d
    → d ≤ size
    → low ≤ size
    → z ≡ pos low
    → add ≡ pos more
    → min_ℤ (max_ℤ (sub_i32 (as_i32 size) z) (pos 0)) (add_i32 (pos (d - c)) add)
      ≡ pos (low + min (size - low) (d - c + more) - low)
cut_i32 size more low c d z add h k l m n e f =
    ap₂ (λ u v. min_ℤ (max_ℤ (sub_i32 u v) (pos 0)) (add_i32 (pos (d - c)) add))
      (small_i32 size (omega arith)) e
    ∙ ap (λ u. min_ℤ (max_ℤ (sub_i32 (pos size) (pos low)) (pos 0)) (add_i32 (pos (d - c)) u)) f
    ∙ ap₂ min_ℤ (clamped_i32 size low (omega arith) (omega arith))
        (sum_i32 (d - c) more (omega arith))
    ∙ min_pos (size - low) (d - c + more)
    ∙ ap pos (omega arith)

half-eq : (n : ℕ) → n < 2 ^ 31 → half (as_i32 n) ≡ pos (n / 2)
half-eq n h = ap half (small_i32 n h)

small_u32 : (n : ℕ) → n < 2 ^ 32 → as_u32 n ≡ n
small_u32 n h = ground arith

product_u32 : (n m : ℕ) → n < 2 ^ 29 → n * m < 2 ^ 29 → mul_u32 (as_u32 n) m ≡ n * m
product_u32 n m h k =
    ap (λ u. mul_u32 u m) (small_u32 n (omega arith)) ∙ small_u32 (n * m) (omega arith)

-- The columns from the left to the right end of the damage.
span_u32 :
    (l r m : ℕ)
    → l ≤ r
    → r + 1 < 2 ^ 29
    → (r + 1) * m < 2 ^ 29
    → mul_u32 (as_u32 ((r + 2 ^ 64 - l) % 2 ^ 64 + 1)) m ≡ (r + 1) * m - l * m
span_u32 l r m h k small =
    let n = r - l + 1 in
    let apart : (r + 1) * m ≡ l * m + n * m =
      ap (λ u. u * m) {x = r + 1} {y = l + n} (omega arith) ∙ add-mul l n m in
    ap (λ u. mul_u32 (as_u32 (u + 1)) m) {x = (r + 2 ^ 64 - l) % 2 ^ 64} {y = r - l} (ground arith)
    ∙ product_u32 n m (omega arith) (omega (arith, apart))
    ∙ omega (arith, apart)

module _ (s : SizeInfo) where
  pub merge_rects-eq :
      (a b : Box)
      → IsWindow s
      → IsInside s a
      → IsInside s b
      → merge_rects (rect_of a) (rect_of b) ≡ rect_of (hull a b)
  unfolding merge_rects
  merge_rects-eq a b w i j =
      let ends : (c d e f : ℕ)
          → c ≤ d
          → e ≤ f
          → d < 2 ^ 29
          → f < 2 ^ 29
          → sub_i32 (max_ℤ (add_i32 (pos c) (pos (d - c))) (add_i32 (pos e) (pos (f - e))))
              (min_ℤ (pos c) (pos e))
            ≡ pos (max d f - min c e) =
        λ c d e f h k p q.
          ap₂ (λ u v. sub_i32 (max_ℤ u v) (min_ℤ (pos c) (pos e)))
            (sum_i32 c (d - c) (omega arith) ∙ ap pos (omega arith))
            (sum_i32 e (f - e) (omega arith) ∙ ap pos (omega arith))
          ∙ ap₂ sub_i32 (max_pos d f) (min_pos c e)
          ∙ difference_i32 (max d f) (min c e) (omega arith) (omega arith) in
      ap₂ (λ (p q : ℤ × ℤ). record { x = p.0; width = p.1; y = q.0; height = q.1 })
        (ap₂ (λ u v. (u, v)) (min_pos a.left b.left)
          (ends a.left a.right b.left b.right i.0 j.0 (omega (arith, i, w.small))
            (omega (arith, j, w.small))))
        (ap₂ (λ u v. (u, v)) (min_pos a.bottom b.bottom)
          (ends a.bottom a.top b.bottom b.top i.2 j.2 (omega (arith, i, w.small))
            (omega (arith, j, w.small))))

  pub overdamage-eq :
      (b : Box) → IsWindow s → IsInside s b → overdamage s (rect_of b) ≡ rect_of (grown s b)
  unfolding overdamage
  overdamage-eq b w i =
      let cell = small_i32 s.cell_width (omega (arith, w.small, w.cell)) in
      let tall = small_i32 s.cell_height (omega (arith, w.small, w.cell_tall)) in
      let left =
        ap (λ c. max_ℤ (sub_i32 (pos b.left) c) (pos 0)) cell
        ∙ clamped_i32 b.left s.cell_width (omega (arith, i, w.small))
            (omega (arith, w.small, w.cell)) in
      let bottom =
        ap (λ c. max_ℤ (sub_i32 (pos b.bottom) c) (pos 0))
          (half-eq s.cell_height (omega (arith, w.small, w.cell_tall)))
        ∙ clamped_i32 b.bottom (s.cell_height / 2) (omega (arith, i, w.small))
            (omega (arith, w.small, w.cell_tall)) in
      let twice =
        ap₂ add_i32 cell cell
        ∙ sum_i32 s.cell_width s.cell_width (omega (arith, w.small, w.cell)) in
      ap₂ (λ (p q : ℤ × ℤ). record { x = p.0; width = p.1; y = q.0; height = q.1 })
        (ap₂ (λ u v. (u, v)) left
          (cut_i32 s.width (s.cell_width + s.cell_width) (b.left - s.cell_width) b.left b.right _ _
            w.small.0 (omega (arith, w.cell)) i.0 i.1 (omega (arith, i)) left twice))
        (ap₂ (λ u v. (u, v)) bottom
          (cut_i32 s.height s.cell_height (b.bottom - s.cell_height / 2) b.bottom b.top _ _
            w.small.1 (omega (arith, w.cell_tall)) i.2 i.3 (omega (arith, i)) bottom tall))

  -- Multiples of the size of a cell, up to the size of the window.
  product_small :
      (n m cell size more : ℕ)
      → 1 ≤ cell
      → more + m * cell ≤ size
      → size < 2 ^ 29
      → n ≤ m
      → (n < 2 ^ 29) × (more + n * cell ≤ size) × (n * cell ≤ m * cell)
  product_small n m cell size more one fits small le =
      let up = mul-le-mul_right cell le in
      let self = mul-le-mul_left n one in (omega (arith, up, self), omega (arith, up), up)

  pub rect_for_line-eq :
      (b : LineDamageBounds)
      → IsWindow s
      → OnView s b
      → (rect_for_line s b ≡ rect_of (cells_of s b)) × IsInside s (cells_of s b)
  unfolding rect_for_line
  rect_for_line-eq b w v =
      let cw = s.cell_width in
      let ch = s.cell_height in
      let (few, in_width, up) =
        product_small (b.right + 1) s.columns cw s.width s.padding_x w.cell.0 w.few_columns
          w.small.0 (omega (arith, v)) in
      let (lines, in_height, up_lines) =
        product_small (b.line + 1) s.screen_lines ch s.height s.padding_y w.cell_tall.0 w.few_lines
          w.small.1 (omega (arith, v)) in
      let lower = mul-le-mul_right {m = b.left} {n = b.right + 1} cw (omega (arith, v)) in
      let below = mul-le-mul_right {m = b.line} {n = b.line + 1} ch (omega arith) in
      let next_line = add-mul b.line 1 ch in
      let left =
        ap (λ u. as_i32 (add_u32 s.padding_x u))
          (product_u32 b.left cw (omega (arith, v, few)) (omega (arith, lower, in_width, w.small)))
        ∙ ap as_i32
            (small_u32 (s.padding_x + b.left * cw) (omega (arith, lower, in_width, w.small)))
        ∙ small_i32 (s.padding_x + b.left * cw) (omega (arith, lower, in_width, w.small)) in
      let top = s.height - s.padding_y in
      let bottom =
        ap₂ (λ u v. as_i32 (sub_u32 u v)) {x = sub_u32 s.height s.padding_y} {y = top}
          (ground (arith, in_height, w.small))
          (product_u32 (b.line + 1) ch (omega (arith, lines)) (omega (arith, in_height, w.small)))
        ∙ ap as_i32 {x = sub_u32 top ((b.line + 1) * ch)} {y = top - (b.line + 1) * ch}
            (ground (arith, in_height, w.small))
        ∙ small_i32 (top - (b.line + 1) * ch) (omega (arith, w.small)) in
      let width =
        ap as_i32
          (span_u32 b.left b.right cw v.0 (omega (arith, few)) (omega (arith, in_width, w.small)))
        ∙ small_i32 ((b.right + 1) * cw - b.left * cw) (omega (arith, in_width, w.small))
        ∙ ap pos {x = (b.right + 1) * cw - b.left * cw}
            {y = s.padding_x + (b.right + 1) * cw - (s.padding_x + b.left * cw)} (omega arith) in
      let height =
        small_i32 ch (omega (arith, w.cell_tall, w.small))
        ∙ ap pos {x = ch} {y = top - b.line * ch - (top - (b.line + 1) * ch)}
            (omega (arith, next_line, in_height)) in
      (
        ap₂ (λ (p q : ℤ × ℤ). record { x = p.0; width = p.1; y = q.0; height = q.1 })
            (ap₂ (λ u v. (u, v)) left width) (ap₂ (λ u v. (u, v)) bottom height),
        (omega (arith, lower), in_width, omega (arith, below), omega arith),
      )
