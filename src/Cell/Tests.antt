-- ===== src/Cell/Tests.antt =====
-- Runs of term/cell.rs with numbers for colours and hyperlinks, and the theorems at them.
use cu_tty.Prelude.{ℕ, ◌≡◌, refl, true, ◌==◌, ==_iff, none, some, [], ◌∷◌}
use cu_tty.Row.{IsLawful}
use cu_tty.Cell.{Cell, Palette, default_cell, grid_cell, is_empty, clear_wide}
use cu_tty.Cell.Lawful.{grid_cell-IsLawful}

abbrev palette : Palette ℕ
palette = record { background = 0; foreground = 7; same_color = λ a b. a == b }

grid_cell-IsLawful_example : IsLawful (grid_cell {H = ℕ} palette)
grid_cell-IsLawful_example = grid_cell-IsLawful palette ==_iff

-- A wide character with an accent and a hyperlink.
abbrev wide : Cell ℕ ℕ
wide = record {
  c = 20013;
  fg = 7;
  bg = 0;
  flags = 34;
  extra = some (record { zerowidth = 769 ∷ []; underline_color = none; hyperlink = some 3 });
}

clear_wide_keeps_bold : (clear_wide wide).flags ≡ 2
unfolding clear_wide
clear_wide_keeps_bold = refl

tab_is_empty : is_empty {H = ℕ} palette (record (default_cell palette) { c = 9 }) ≡ true
unfolding is_empty
tab_is_empty = refl
