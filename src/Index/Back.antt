-- ===== src/Index/Back.antt =====
-- `Point::sub` of index.rs counts cells back in reading order.
use native.Mathlib.Nat.{div-add-mod', mod-lt, mul-le-mul_right}
use cu_tty.Prelude.{
  ℕ, ◌+◌, ◌-◌, ◌*◌, ◌/◌, ◌%◌, ◌^◌, ◌≤◌, ◌<◌, ◌≡◌, ◌∙◌, sym, ap, min, arith, inl, inr, ltb_cases,
  leb_cases, le→ltb_false,
}
use cu_tty.Prelude.Int.{ℤ, pos, pos_part, neg_part, ◌+ℤ◌, ◌-ℤ◌, -ℤ_parts}
use cu_tty.Prelude.Machine.{wrap_i32_id, IsI32}
use cu_tty.Index.{Point, Dimensions, grid, last_column, sub_line, grid_clamp, sub}
use cu_tty.Index.Motion.{
  IsGrid, InGrid, row, place, topmost_line-eq, bottommost_line-eq, row_parts, add_rows,
}

module _ (cols : ℕ) where
  -- The quotient and the remainder are the only ones.
  quotient_le : (k k' s s' : ℕ) → k * cols + s ≡ k' * cols + s' → s < cols → k' ≤ k
  quotient_le k k' s s' e h = elim (leb_cases k' k) [
    | inl (_, l) ↦ l
    | inr (_, l) ↦
        absurd (
          omega
            (arith, mul-le-mul_right {m = k + 1} {n = k'} cols (omega arith), add_rows k 1 cols))
  ]

  quotient : (k k' s s' : ℕ) → k * cols + s ≡ k' * cols + s' → s < cols → s' < cols → k ≡ k'
  quotient k k' s s' e h h' =
      omega (arith, quotient_le k k' s s' e h, quotient_le k' k s' s (sym e) h')

  quotient-eq : (a k s : ℕ) → a ≡ k * cols + s → s < cols → (a / cols ≡ k) × (a % cols ≡ s)
  quotient-eq a k s e h =
      let f =
        quotient (a / cols) k (a % cols) s (div-add-mod' a cols ∙ e) (mod-lt a (omega arith)) h in
      (f, omega (arith, div-add-mod' a cols, ap (λ q. q * cols) f))

  -- The rows and columns that `sub` crosses.
  crossed :
      (n col : ℕ)
      → col < cols
      → ((n + cols - 1 - col) / cols * cols + col ≡ n + (cols + col - n % cols) % cols)
        × ((cols + col - n % cols) % cols < cols)
  crossed n col h =
      let m = n % cols in
      let q = n / cols in
      let e = div-add-mod' n cols in
      let small : m < cols = mod-lt n (omega arith) in
      (
        elim (leb_cases m col) [
          | inl (_, l) ↦
              let (a, _) =
                quotient-eq (n + cols - 1 - col) q (m + cols - 1 - col) (omega (arith, e, small))
                  (omega arith) in
              let (_, b) = quotient-eq (cols + col - m) 1 (col - m) (omega arith) (omega arith) in
              omega (arith, e, b, ap (λ k. k * cols) a)
          | inr (_, l) ↦
              let (a, _) =
                quotient-eq (n + cols - 1 - col) (q + 1) (m - 1 - col)
                  (omega (arith, e, small, add_rows q 1 cols)) (omega arith) in
              let (_, b) =
                quotient-eq (cols + col - m) 0 (cols + col - m) (omega arith) (omega arith) in
              omega (arith, e, b, small, ap (λ k. k * cols) a, add_rows q 1 cols)
        ],
        mod-lt (cols + col - m) (omega arith),
      )

  module _ (l k c col n : ℕ) (e : k * cols + col ≡ n + c) (small : c < cols) where
    place_within : k ≤ l → (l - k) * cols + c ≡ l * cols + col - n
    place_within h = omega (arith, add_rows (l - k) k cols, ap (λ r. r * cols) (restore l k h))
      where
        restore : (l k : ℕ) → k ≤ l → l - k + k ≡ l
        restore l k h = omega arith

    place_beyond : l < k → 0 * cols + 0 ≡ l * cols + col - n
    place_beyond h =
        omega (arith, mul-le-mul_right {m = l + 1} {n = k} cols (omega arith), add_rows l 1 cols)

difference-IsI32 :
    (a : ℤ) (q : ℕ) → pos_part a < 2 ^ 30 → neg_part a < 2 ^ 30 → q < 2 ^ 30 → IsI32 (a -ℤ pos q)
unfolding ◌-ℤ◌
difference-IsI32 a q h k l = (ground arith, ground arith)

difference_sign : (a : ℤ) (q n : ℕ) → neg_part a + q ≤ n + pos_part a → neg_part (a -ℤ pos q) ≤ n
unfolding ◌-ℤ◌
difference_sign a q n h = ground arith

difference_bound : (a : ℤ) (q n : ℕ) → pos_part a < n → pos_part (a -ℤ pos q) < n
unfolding ◌-ℤ◌
difference_bound a q n h = ground arith

top_row :
    (n : ℕ)
    → (pos_part (pos 0 -ℤ pos n +ℤ pos n) ≡ 0)
      × (neg_part (pos 0 -ℤ pos n) ≤ n)
      × (pos_part (pos 0 -ℤ pos n) ≡ 0)
unfolding ◌-ℤ◌ ◌+ℤ◌
top_row n = (ground arith, ground arith, ground arith)

module _ (d : Dimensions) (g : IsGrid d) where
  -- From a point of the grid, `sub` with the boundary of the grid goes as many cells back in reading order, or to the first cell of the grid if there are fewer; it never leaves the grid. The number of lines crossed must be below 2^30, and so must the number of the grid's lines.
  pub sub_lem :
      (p : Point) (rhs : ℕ)
      → InGrid d p
      → (rhs + d.columns - 1 - p.column) / d.columns < 2 ^ 30
      → (place d (sub d grid p rhs) ≡ place d p - rhs) × InGrid d (sub d grid p rhs)
  unfolding sub sub_line grid_clamp last_column
  sub_lem p rhs h few =
      let k = (rhs + d.columns - 1 - p.column) / d.columns in
      let c = (d.columns + p.column - rhs % d.columns) % d.columns in
      let hist = d.total_lines - d.screen_lines in
      let line = p.line -ℤ pos k in
      let (tops, low, _) = top_row hist in
      let top = pos 0 -ℤ pos hist in
      let (e, small) = crossed d.columns rhs p.column h.2 in
      let start = row_parts p.line hist h.0 in
      let sum = -ℤ_parts p.line (pos k) in
      let edge = -ℤ_parts (pos 0) (pos hist) in
      rw
        (
          topmost_line-eq d g,
          bottommost_line-eq d g,
          wrap_i32_id (pos k) (omega arith, omega arith),
          wrap_i32_id line (
              difference-IsI32 p.line k (omega (arith, h, g.few, g.screen_le))
                (omega (arith, h, g.few)) few),
        )
        (elim (ltb_cases (pos_part line + neg_part top) (pos_part top + neg_part line)) [
          | inl (f, past) ↦ rw f (
            ap (λ r. r * d.columns + 0) tops
                ∙ place_beyond d.columns (row d p.line) k c p.column rhs e small
                    (omega (arith, start, sum, edge)),
            (low, omega (arith, (top_row hist).2, g.has_line), omega (arith, g.has_column)),
          )
          | inr (f, within) ↦
              let sign = difference_sign p.line k hist (omega (arith, sum, edge)) in
              let moved = row_parts line hist sign in
              let inner : min c (d.columns - 1) ≡ c = omega (arith, small) in
              rw
                (
                  f,
                  le→ltb_false (d.screen_lines - 1 + neg_part line) (pos_part line + 0)
                      (omega (arith, difference_bound p.line k d.screen_lines h.1)),
                  inner,
                )
                (
                  ap (λ r. r * d.columns + c) (omega (arith, moved, start, sum))
                      ∙ place_within d.columns (row d p.line) k c p.column rhs e small
                          (omega (arith, start, sum, edge)),
                  (sign, difference_bound p.line k d.screen_lines h.1, small),
                )
        ])
