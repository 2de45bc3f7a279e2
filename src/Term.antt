-- ===== src/Term.antt =====
-- cutty_terminal/src/term/mod.rs: the parts of `Term` that hold the cursor, the tab stops, the
-- scroll region, the damage and the two stacks. A panic is `none`; a method returns the terminal.
pub mod Damage
pub mod Moves
pub mod Scroll
pub mod Write
pub mod Erase
pub mod Cells
pub mod Clear
pub mod Ready
pub mod Input
pub mod Frame
pub mod Wrap
pub mod Typing
pub mod Total
pub mod Run
pub mod Screen
pub mod Mode
pub mod Sides
pub mod Switch
pub mod Tabs
pub mod Like
pub mod Motion
pub mod Line
pub mod Linefeed
pub mod Stacks
mod Tests
mod Examples
use cu_tty.Prelude.{
  ℕ, ◌+◌, ◌-◌, ◌^◌, Bool, true, false, ◌&&◌, ◌||◌, not, ltb, leb, ◌==◌, if◌then◌else◌, Option, none,
  some, List, [], ◌∷◌, ◌++◌, length, set, drop, take, min, max, ◌>>=◌, ◌>>◌, assert, get_elem?,
}
use cu_tty.Prelude.Int.{ℤ, pos, negsuc, pos_part, neg_part, ltb_ℤ, ◌+ℤ◌, ◌-ℤ◌}
use cu_tty.Prelude.Machine.{leb_ℤ, eqb_ℤ, min_ℤ, max_ℤ, add_i32, sub_i32, wrap_i32, as_i32}
use cu_tty.Index.{Point, Dimensions, bottommost_line, last_column, add_line, sub_line}
use cu_tty.Selection.{Selection}
use cu_tty.Selection
use cu_tty.Row.{GridCell}
use cu_tty.Grid.{Cursor, Grid, dimensions}
use cu_tty.Grid
use Damage.{TermDamageState, damage_line}
use Tabs

-- `TermMode`, with the five flags of the keyboard protocol as one value.
pub record Modes (K : Type 0) : Type 0 where
  pub show_cursor : Bool
  pub app_cursor : Bool
  pub app_keypad : Bool
  pub mouse_report_click : Bool
  pub bracketed_paste : Bool
  pub sgr_mouse : Bool
  pub mouse_motion : Bool
  pub line_wrap : Bool
  pub line_feed_new_line : Bool
  pub origin : Bool
  pub insert : Bool
  pub focus_in_out : Bool
  pub alt_screen : Bool
  pub mouse_drag : Bool
  pub utf8_mouse : Bool
  pub alternate_scroll : Bool
  pub vi : Bool
  pub urgency_hints : Bool
  pub keyboard : K

-- `TermMode::default()`
abbrev pub default_modes : {K : Type 0} → K → Modes K
default_modes no_mode = record {
  show_cursor = true;
  app_cursor = false;
  app_keypad = false;
  mouse_report_click = false;
  bracketed_paste = false;
  sgr_mouse = false;
  mouse_motion = false;
  line_wrap = true;
  line_feed_new_line = false;
  origin = false;
  insert = false;
  focus_in_out = false;
  alt_screen = false;
  mouse_drag = false;
  utf8_mouse = false;
  alternate_scroll = true;
  vi = false;
  urgency_hints = true;
  keyboard = no_mode;
}

-- `Term`, for cells `T`, titles `S` and the keyboard modes `K` of the vte crate; its cursor style is
-- a shape and whether it blinks.
pub record Term (T S K : Type 0) : Type 0 where
  pub vi_mode_cursor : Point
  pub selection : Option Selection
  pub grid : Grid T
  pub inactive_grid : Grid T
  pub tabs : List Bool
  pub mode : Modes K
  pub region_start : ℤ
  pub region_end : ℤ
  pub active_charset : ℕ
  pub cursor_style : Option (ℕ × Bool)
  pub title : Option S
  pub title_stack : List (Option S)
  pub keyboard_mode_stack : List K
  pub inactive_keyboard_mode_stack : List K
  pub damage : TermDamageState
  pub kitty_keyboard : Bool

-- `line.0 as usize` of a negative line is no index of a list.
abbrev pub as_index : ℤ → Option ℕ
as_index (pos n) = some n
as_index (negsuc n) = none

-- `line.0 as usize`, of 64 bits.
abbrev pub as_usize : ℤ → ℕ
as_usize (pos n) = n
as_usize (negsuc n) = 2 ^ 64 - 1 - n

module _ {T S K : Type 0} where
  abbrev pub size : Term T S K → Dimensions
  size t = dimensions t.grid

  abbrev pub point : Term T S K → Point
  point t = t.grid.cursor.point

  abbrev pub with_point : Term T S K → Point → Term T S K
  with_point t p = record t { grid = record t.grid { cursor = record t.grid.cursor { point = p } } }

  -- `input_needs_wrap = false`
  abbrev pub settle : Term T S K → Term T S K
  settle t = record t {
    grid = record t.grid { cursor = record t.grid.cursor { input_needs_wrap = false } };
  }

  -- `self.damage.damage_line(line.0 as usize, left, right)`
  unfoldable pub mark : ℤ → ℕ → ℕ → Term T S K → Option (Term T S K)
  unfolding damage_line
  mark line left right t = do
    i ← as_index line
    damage ← damage_line i left right t.damage
    some (record t { damage = damage })

  abbrev pub mark_fully_damaged : Term T S K → Term T S K
  mark_fully_damaged t = record t { damage = record t.damage { full = true } }

  unfoldable pub damage_cursor : Term T S K → Option (Term T S K)
  unfolding mark
  damage_cursor t = mark (point t).line (point t).column (point t).column t
