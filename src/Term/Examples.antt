-- ===== src/Term/Examples.antt =====
-- Runs of the control functions of term/mod.rs on a screen of three lines and three columns, and
-- the theorems at it.
use cu_tty.Prelude.{
  ℕ, ◌+◌, ◌-◌, ◌<◌, ◌≡◌, refl, true, false, none, some, Option, [], ◌∷◌, get_elem?, arith, Returns,
  ◌==◌, ==_iff,
}
use cu_tty.Prelude.Int.{pos}
use cu_tty.Prelude.Index.{All-at}
use cu_tty.Row.{Row, IsLawful}
use cu_tty.Row.Blanks.{inserted, deleted}
use cu_tty.Cell.{Cell, Palette, default_cell, grid_cell}
use cu_tty.Cell.Lawful.{grid_cell-IsLawful}
use cu_tty.Storage.{Storage}
use cu_tty.Storage.Ring.{ring}
use cu_tty.Grid.{Cursor, Grid}
use cu_tty.Grid.Valid.{IsRow, IsSound}
use cu_tty.Term.{default_modes, Term}
use cu_tty.Term.Damage.{undamaged_lines}
use cu_tty.Term.Tabs.{new}
use cu_tty.Term.Motion.{IsPlaced}
use cu_tty.Term.Input.{IsReady}
use cu_tty.Term.Write.{input}
use cu_tty.Term.Erase.{
  LineClearMode, ClearMode, blank_cell, insert_blank, delete_chars, erase_chars, clear_line,
  clear_screen,
}
use cu_tty.Term.Cells.{Repainted, insert_blank_lem, delete_chars_lem}
use cu_tty.Term.Clear.{Erased, LineCleared, erase_chars_lem, clear_line_lem}
use cu_tty.Term.Typing.{Typed, input_narrow}
use cu_tty.Term.Screen.{ClearedAbove, clear_above_lem}
use cu_tty.Term.Run.{Control, run, run-IsReady}
use cu_tty.Term.Mode.{
  NamedPrivateMode, PrivateMode, switched_on, switched_off, set_private_mode, unset_private_mode,
}
use cu_tty.Term.Switch.{SwitchedTo, private_mode_lem}

abbrev palette : Palette ℕ
palette = record { background = 0; foreground = 7; same_color = λ a b. a == b }

abbrev Glyph : Type 0
Glyph = Cell ℕ ℕ

abbrev glyph : ℕ → Glyph
glyph n = record (default_cell palette) { c = n }

law : IsLawful (grid_cell {H = ℕ} palette)
law = grid_cell-IsLawful palette ==_iff

abbrev line : ℕ → Row Glyph
line n = record { inner = glyph n ∷ glyph (n + 1) ∷ glyph (n + 2) ∷ []; occ = 3 }

line-IsRow : (n : ℕ) → IsRow (grid_cell palette) 3 (line n)
line-IsRow n = record {
  template = glyph 32;
  valid = record { occ_le = omega arith; clean = λ i a b. absurd (omega arith) };
  width = refl;
}

-- The lines of the screen read `abc`, `def` and `ghi`.
abbrev storage : Storage Glyph
storage = record {
  inner = line 103 ∷ line 100 ∷ line 97 ∷ [];
  zero = 0;
  visible_lines = 3;
  len = 3;
}

abbrev cursor : Cursor Glyph
cursor = record {
  point = record { line = pos 1; column = 1 };
  template = record (glyph 32) { bg = 4 };
  charsets = 0 ∷ 0 ∷ 0 ∷ 0 ∷ [];
  input_needs_wrap = false;
}

abbrev screen : Grid Glyph
screen = record {
  cursor = cursor;
  saved_cursor = cursor;
  raw = storage;
  columns = 3;
  lines = 3;
  display_offset = 0;
  max_scroll_limit = 2;
}

screen-IsSound : IsSound (grid_cell palette) screen
screen-IsSound = record {
  rows = record {
    valid = record { zero_lt = omega arith; len_le = omega arith; visible_le = omega arith };
    same_size = refl;
    same_len = refl;
    same_visible = refl;
    at =
        All-at (IsRow (grid_cell palette) 3) (ring storage)
          (line-IsRow 103, (line-IsRow 100, (line-IsRow 97, tt)));
  };
  has_column = omega arith;
  has_line = omega arith;
  few_lines = omega arith;
  history_le = omega arith;
}

abbrev term : Term Glyph ℕ ℕ
term = record {
  vi_mode_cursor = record { line = pos 0; column = 0 };
  selection = none;
  grid = screen;
  inactive_grid = screen;
  tabs = new 3;
  mode = default_modes 0;
  region_start = pos 0;
  region_end = pos 3;
  active_charset = 1;
  cursor_style = none;
  title = none;
  title_stack = [];
  keyboard_mode_stack = [];
  inactive_keyboard_mode_stack = [];
  damage = record {
    full = false;
    lines = undamaged_lines 0 3 3;
    last_cursor = record { line = pos 0; column = 0 };
  };
  kitty_keyboard = true;
}

term-IsPlaced : IsPlaced term
term-IsPlaced = record {
  on_screen = (refl, omega arith, omega arith);
  damaged = refl;
  few_lines = omega arith;
  region_start_le = (refl, omega arith);
  region_end_le = (refl, omega arith, omega arith);
}

term-IsReady : IsReady (grid_cell palette) term
term-IsReady = record {
  is_placed = term-IsPlaced;
  valid = record { sound = screen-IsSound; offset_le = omega arith };
  top = refl;
  wide = omega arith;
  charset = omega arith;
}

-- Capital letters, and the width of the characters.
abbrev capital : ℕ → ℕ → ℕ
capital set c = c - 32

abbrev one_wide : ℕ → Option ℕ
one_wide c = some 1

input_narrow_example : Returns (Typed palette law 88 term) (input palette capital one_wide 120 term)
input_narrow_example = input_narrow palette law capital one_wide 120 0 term term-IsReady refl refl

run-IsReady_example : Returns (IsReady (grid_cell palette)) (
    run palette capital one_wide
      (Control.type 120
        ∷ Control.type 121
        ∷ Control.type 122
        ∷ Control.feed
        ∷ Control.delete 2
        ∷ Control.clear LineClearMode.left
        ∷ [])
      term)
run-IsReady_example =
    run-IsReady palette capital one_wide law
      (Control.type 120
        ∷ Control.type 121
        ∷ Control.type 122
        ∷ Control.feed
        ∷ Control.delete 2
        ∷ Control.clear LineClearMode.left
        ∷ [])
      term term-IsReady

clear_line_lem_example :
    Returns
      (LineCleared palette LineClearMode.right term)
      (clear_line palette LineClearMode.right term)
clear_line_lem_example =
    clear_line_lem palette LineClearMode.right term term-IsPlaced screen-IsSound

clear_above_lem_example :
    Returns
      (λ t'. ClearedAbove palette law 1 term t'.grid)
      (clear_screen palette ClearMode.above term)
clear_above_lem_example = clear_above_lem palette law 1 term term-IsPlaced screen-IsSound refl

erase_chars_lem_example :
    Returns (λ t'. Erased palette 1 3 term t' × (t'.selection ≡ none)) (erase_chars palette 5 term)
erase_chars_lem_example = erase_chars_lem palette term 5 term-IsPlaced screen-IsSound

private_mode_lem_example :
    Returns
      (SwitchedTo palette law 0 (0, false) switched_on NamedPrivateMode.swap_screen)
      (set_private_mode palette 0 (0, false) (PrivateMode.named NamedPrivateMode.swap_screen) term)
    × Returns (SwitchedTo palette law 0 (0, false) switched_off NamedPrivateMode.swap_screen) (
        unset_private_mode palette 0
          (0, false)
          (PrivateMode.named NamedPrivateMode.swap_screen)
          term)
private_mode_lem_example =
    private_mode_lem palette law 0 (0, false) NamedPrivateMode.swap_screen term term-IsPlaced
      screen-IsSound screen-IsSound (refl, refl, refl)

insert_blank_lem_example :
    Returns
      (Repainted
        (grid_cell palette)
        (λ r r'.
          (k : ℕ) → k < 3 → get_elem? r'.inner k ≡ inserted 1 1 (blank_cell palette term) r.inner k)
        term)
      (insert_blank palette 1 term)
insert_blank_lem_example = insert_blank_lem palette term 1 term-IsPlaced screen-IsSound

delete_chars_lem_example :
    Returns
      (Repainted
        (grid_cell palette)
        (λ r r'.
          (k : ℕ)
          → k < 3
          → get_elem? r'.inner k ≡ deleted 3 1 3 (blank_cell palette term) r.inner k)
        term)
      (delete_chars palette 7 term)
delete_chars_lem_example = delete_chars_lem palette term 7 term-IsPlaced screen-IsSound
