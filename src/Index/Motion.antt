-- ===== src/Index/Motion.antt =====
-- `Point::add` of index.rs counts cells in reading order.
use native.Mathlib.Nat.{div-add-mod', mod-lt, mul-le-mul_right}
use cu_tty.Prelude.{
  ℕ, ◌+◌, ◌-◌, ◌*◌, ◌/◌, ◌%◌, ◌^◌, ◌≤◌, ◌<◌, ◌≡◌, refl, ◌∙◌, sym, ap, min, arith, inl, inr,
  ltb_cases, le→ltb_false,
}
use cu_tty.Prelude.Int.{ℤ, pos, negsuc, pos_part, neg_part, ◌+ℤ◌, ◌-ℤ◌, +ℤ_parts, -ℤ_parts}
use cu_tty.Prelude.Machine.{wrap_i32, wrap_i32_id, IsI32}
use cu_tty.Index.{
  Point, Dimensions, grid, history_size, last_column, topmost_line, bottommost_line, add_line,
  grid_clamp, add,
}

-- A grid with a line and a column, and fewer than 2^30 lines.
pub record IsGrid (d : Dimensions) : Type 0 where
  pub has_column : 1 ≤ d.columns
  pub has_line : 1 ≤ d.screen_lines
  pub screen_le : d.screen_lines ≤ d.total_lines
  pub few : d.total_lines < 2 ^ 30

-- The row of a line, counted from the topmost one.
abbrev pub row : Dimensions → ℤ → ℕ
row d l = pos_part (l +ℤ pos (d.total_lines - d.screen_lines))

-- The number of cells before the point, in reading order from the topmost line.
abbrev pub place : Dimensions → Point → ℕ
place d p = row d p.line * d.columns + p.column

-- The point is one of the grid's.
abbrev pub InGrid : Dimensions → Point → Type 0
InGrid d p =
    (neg_part p.line ≤ d.total_lines - d.screen_lines)
    × (pos_part p.line < d.screen_lines)
    × (p.column < d.columns)

-- Numbers below 2^30 on one side of 0 are `i32`.
small_sum : (a : ℤ) (n : ℕ) → pos_part a + n ≡ neg_part a → n < 2 ^ 30 → IsI32 a
small_sum (pos k) n e h = (omega arith, omega arith)
small_sum (negsuc k) n e h = (omega arith, omega arith)

less : (n : ℕ) → 1 ≤ n → pos n -ℤ pos 1 ≡ pos (n - 1)
unfolding ◌-ℤ◌
less n h = ground arith

sum-IsI32 :
    (a : ℤ) (q : ℕ) → pos_part a < 2 ^ 30 → neg_part a < 2 ^ 30 → q < 2 ^ 30 → IsI32 (a +ℤ pos q)
unfolding ◌+ℤ◌
sum-IsI32 a q h k l = (ground arith, ground arith)

pub row_parts :
    (a : ℤ) (n : ℕ) → neg_part a ≤ n → pos_part (a +ℤ pos n) + neg_part a ≡ pos_part a + n
unfolding ◌+ℤ◌
row_parts a n h = ground arith

-- The parts of a sum are not both positive.
sum_sign : (a : ℤ) (q n : ℕ) → neg_part a ≤ n → neg_part (a +ℤ pos q) ≤ n
unfolding ◌+ℤ◌
sum_sign a q n h = ground arith

sum_bound :
    (a : ℤ) (q n : ℕ)
    → pos_part (a +ℤ pos q) < n + neg_part (a +ℤ pos q)
    → 1 ≤ n
    → pos_part (a +ℤ pos q) < n
unfolding ◌+ℤ◌
sum_bound a q n h k = ground arith

suc_rows : (t cols : ℕ) → (t + 1) * cols ≡ t * cols + cols
suc_rows t cols = grind arith

pred_rows : (total cols : ℕ) → 1 ≤ total → total * cols ≡ (total - 1) * cols + cols
pred_rows total cols h = ap (λ n. n * cols) (one_less total h) ∙ suc_rows (total - 1) cols
  where
    one_less : (n : ℕ) → 1 ≤ n → n ≡ n - 1 + 1
    one_less n h = omega arith

pub add_rows : (l q cols : ℕ) → (l + q) * cols ≡ l * cols + q * cols
add_rows l q cols = grind arith

module _ (cols l q r total col rhs : ℕ) (e : q * cols + r ≡ rhs + col) (small : r < cols)
    (inside : col < cols) (low : l < total) where
  place_before : l + q < total → (l + q) * cols + r ≡ min (l * cols + col + rhs) (total * cols - 1)
  place_before h = grind (arith, mul-le-mul_right {m = l + q + 1} {n = total} cols (omega arith))

  place_behind :
      total ≤ l + q
      → (total - 1) * cols + (cols - 1) ≡ min (l * cols + col + rhs) (total * cols - 1)
  place_behind h = omega (
    arith,
    add_rows l q cols,
    pred_rows total cols (omega arith),
    mul-le-mul_right {m = total} {n = l + q} cols h,
  )

module _ (d : Dimensions) (g : IsGrid d) where
  pub topmost_line-eq : topmost_line d ≡ pos 0 -ℤ pos (d.total_lines - d.screen_lines)
  unfolding topmost_line history_size
  topmost_line-eq =
      rw
        (
          wrap_i32_id (pos (d.total_lines - d.screen_lines)) (omega (arith, g.few), omega arith),
          wrap_i32_id (pos 0 -ℤ pos (d.total_lines - d.screen_lines))
              (negative (d.total_lines - d.screen_lines) (omega (arith, g.few))),
        )
        refl
    where
      negative : (n : ℕ) → n < 2 ^ 30 → IsI32 (pos 0 -ℤ pos n)
      negative n h = small_sum (pos 0 -ℤ pos n) n (omega (arith, -ℤ_parts (pos 0) (pos n))) h

  pub bottommost_line-eq : bottommost_line d ≡ pos (d.screen_lines - 1)
  unfolding bottommost_line
  bottommost_line-eq =
      rw (wrap_i32_id (pos d.screen_lines) (omega (arith, g.few, g.screen_le), omega arith)) (
        ap wrap_i32 (less d.screen_lines g.has_line)
        ∙ wrap_i32_id (pos (d.screen_lines - 1)) (omega (arith, g.few, g.screen_le), omega arith))

  -- From a point of the grid, `add` with the boundary of the grid goes as many cells further in reading order, or to the last cell of the grid if there are fewer; it never leaves the grid. The number of lines crossed must be below 2^30, and so must the number of the grid's lines.
  pub add_lem :
      (p : Point) (rhs : ℕ)
      → InGrid d p
      → (rhs + p.column) / d.columns < 2 ^ 30
      → (place d (add d grid p rhs) ≡ min (place d p + rhs) (d.total_lines * d.columns - 1))
        × InGrid d (add d grid p rhs)
  unfolding add add_line grid_clamp last_column
  add_lem p rhs h few =
      let q = (rhs + p.column) / d.columns in
      let r = (rhs + p.column) % d.columns in
      let hist = d.total_lines - d.screen_lines in
      let line = p.line +ℤ pos q in
      let top = pos 0 -ℤ pos hist in
      let e : q * d.columns + r ≡ rhs + p.column = div-add-mod' (rhs + p.column) d.columns in
      let small : r < d.columns = mod-lt (rhs + p.column) (omega (arith, g.has_column)) in
      let start = row_parts p.line hist h.0 in
      let moved = row_parts line hist (sum_sign p.line q hist h.0) in
      let sum = +ℤ_parts p.line (pos q) in
      let low : row d p.line < d.total_lines = omega (arith, start, g.screen_le, h) in
      let order : r ≡ (p.column + rhs) % d.columns = ap (λ n. n % d.columns) (omega arith) in
      rw
        (
          topmost_line-eq,
          bottommost_line-eq,
          wrap_i32_id (pos q) (omega arith, omega arith),
          wrap_i32_id line (
              sum-IsI32 p.line q (omega (arith, h, g.few, g.screen_le)) (omega (arith, h, g.few))
                few),
          le→ltb_false (pos_part line + neg_part top) (pos_part top + neg_part line)
              (omega (arith, -ℤ_parts (pos 0) (pos hist), sum, h.0)),
          sym order,
        )
        (elim (ltb_cases (d.screen_lines - 1 + neg_part line) (pos_part line + 0)) [
          | inl (f, past) ↦
              let last = row_parts (pos (d.screen_lines - 1)) hist (omega arith) in
              rw f (
                ap (λ n. n * d.columns + (d.columns - 1))
                      (omega (arith, last, g.screen_le, g.has_line))
                    ∙ place_behind d.columns (row d p.line) q r d.total_lines p.column rhs e small
                        h.2 low (omega (arith, start, sum, g.screen_le)),
                (omega arith, omega (arith, g.has_line), omega (arith, g.has_column)),
              )
          | inr (f, within) ↦
              let inner : min r (d.columns - 1) ≡ r = omega (arith, small) in
              rw (f, inner)
                (
                  ap (λ n. n * d.columns + r) (omega (arith, moved, start, sum))
                      ∙ place_before d.columns (row d p.line) q r d.total_lines p.column rhs e small
                          h.2 low (omega (arith, start, sum, g.screen_le, g.has_line)),
                  (
                    sum_sign p.line q hist h.0,
                    sum_bound p.line q d.screen_lines (omega (arith, g.has_line)) g.has_line,
                    small,
                  ),
                )
        ])
