-- ===== src/Index.antt =====
-- cutty_terminal/src/index.rs, points and lines, and the trait `Dimensions` of grid/mod.rs.
-- A line is an `i32`, kept as an integer: every sum, difference and cast wraps as in the source.
pub mod Motion
pub mod Back
mod Tests
use cu_tty.Prelude.{ℕ, ◌+◌, ◌-◌, ◌/◌, ◌%◌, Bool, ◌&&◌, ◌||◌, not, ltb, ◌==◌, if◌then◌else◌, min}
use cu_tty.Prelude.Int.{ℤ, pos, pos_part, neg_part, ◌+ℤ◌, ◌-ℤ◌, ltb_ℤ}
use cu_tty.Prelude.Machine.{wrap_i32, as_i32, leb_ℤ, eqb_ℤ, min_ℤ, max_ℤ}

-- `Direction`, also called `Side`.
pub data Direction : Type 0 where
  left right : Direction

unfoldable pub opposite : Direction → Direction
opposite right = left
opposite left = right

pub data Boundary : Type 0 where
  cursor grid unbounded : Boundary

pub record Point : Type 0 where
  pub line : ℤ
  pub column : ℕ

-- `Ord for Point`: by line, then by column.
abbrev pub ltb_point : Point → Point → Bool
ltb_point p q = ltb_ℤ p.line q.line || (eqb_ℤ p.line q.line && ltb p.column q.column)

abbrev pub leb_point : Point → Point → Bool
leb_point p q = not (ltb_point q p)

abbrev pub eqb_point : Point → Point → Bool
eqb_point p q = eqb_ℤ p.line q.line && (p.column == q.column)

-- What `Dimensions` asks of a grid.
pub record Dimensions : Type 0 where
  pub total_lines : ℕ
  pub screen_lines : ℕ
  pub columns : ℕ

unfoldable pub history_size : Dimensions → ℕ
history_size d = d.total_lines - d.screen_lines

-- A grid has a column, so the subtraction does not wrap.
unfoldable pub last_column : Dimensions → ℕ
last_column d = d.columns - 1

unfoldable pub topmost_line : Dimensions → ℤ
unfolding history_size
topmost_line d = wrap_i32 (pos 0 -ℤ as_i32 (history_size d))

unfoldable pub bottommost_line : Dimensions → ℤ
bottommost_line d = wrap_i32 (as_i32 d.screen_lines -ℤ pos 1)

-- `Line + usize`, and `Line - usize`.
unfoldable pub add_line : ℤ → ℕ → ℤ
add_line l n = wrap_i32 (l +ℤ as_i32 n)

unfoldable pub sub_line : ℤ → ℕ → ℤ
sub_line l n = wrap_i32 (l -ℤ as_i32 n)

-- `i32 %`, which takes the sign of the dividend.
unfoldable pub rem_i32 : ℤ → ℕ → ℤ
rem_i32 a n = pos (pos_part a % n) -ℤ pos (neg_part a % n)

-- `Line::grid_clamp`
unfoldable pub clamp_line : Dimensions → Boundary → ℤ → ℤ
unfolding bottommost_line topmost_line rem_i32
clamp_line d cursor l = max_ℤ (pos 0) (min_ℤ (bottommost_line d) l)
clamp_line d grid l = max_ℤ (topmost_line d) (min_ℤ (bottommost_line d) l)
clamp_line d unbounded l =
    let screen = as_i32 d.screen_lines in
    let total = pos_part (as_i32 d.total_lines) in
    if leb_ℤ screen l
    then wrap_i32 (topmost_line d +ℤ rem_i32 (wrap_i32 (l -ℤ screen)) total)
    else wrap_i32 (bottommost_line d +ℤ rem_i32 (wrap_i32 (wrap_i32 (l -ℤ screen) +ℤ pos 1)) total)

-- `Point::grid_clamp`
unfoldable pub grid_clamp : Dimensions → Boundary → Point → Point
unfolding bottommost_line topmost_line last_column clamp_line
grid_clamp d cursor p =
    let q = record p { column = min p.column (last_column d) } in
    if ltb_ℤ p.line (pos 0)
    then record { line = pos 0; column = 0 }
    else if ltb_ℤ (bottommost_line d) p.line
    then record { line = bottommost_line d; column = last_column d }
    else q
grid_clamp d grid p =
    let q = record p { column = min p.column (last_column d) } in
    if ltb_ℤ p.line (topmost_line d)
    then record { line = topmost_line d; column = 0 }
    else if ltb_ℤ (bottommost_line d) p.line
    then record { line = bottommost_line d; column = last_column d }
    else q
grid_clamp d unbounded p = record {
  line = clamp_line d unbounded p.line;
  column = min p.column (last_column d);
}

-- `Point::add`
unfoldable pub add : Dimensions → Boundary → Point → ℕ → Point
unfolding grid_clamp add_line
add d b p rhs = grid_clamp d b (record {
  line = add_line p.line ((rhs + p.column) / d.columns);
  column = (p.column + rhs) % d.columns;
})

-- `Point::sub`; `saturating_sub` stops at 0 as `-` does here.
unfoldable pub sub : Dimensions → Boundary → Point → ℕ → Point
unfolding grid_clamp sub_line
sub d b p rhs =
    let cols = d.columns in
    grid_clamp d b (record {
      line = sub_line p.line ((rhs + cols - 1 - p.column) / cols);
      column = (cols + p.column - rhs % cols) % cols;
    })
