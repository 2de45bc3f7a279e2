-- ===== src/Term/Mode.antt =====
-- The modes of cutty_terminal/src/term/mod.rs that control functions switch and report, the
-- attributes of the cursor, and the character sets. The modes and attributes are enumerations of
-- the vte crate; the events that tell the user interface of a change are not modelled.
use cu_tty.Prelude.{ℕ, Bool, true, false, not, if◌then◌else◌, Option, none, some}
use cu_tty.Prelude.Int.{pos}
use cu_tty.Cell.{Cell, Palette, grid_cell}
use cu_tty.Term.{Term, Modes}
use cu_tty.Term.Moves.{goto}
use cu_tty.Term.Stacks.{swap_alt}
use cu_tty.Term.Erase.{deccolm}

pub data NamedPrivateMode : Type 0 where
  cursor_keys column_mode origin line_wrap blinking_cursor show_cursor : NamedPrivateMode
  report_mouse_clicks report_cell_mouse_motion report_all_mouse_motion : NamedPrivateMode
  report_focus_in_out utf8_mouse sgr_mouse alternate_scroll urgency_hints : NamedPrivateMode
  swap_screen bracketed_paste sync_update : NamedPrivateMode

pub data PrivateMode : Type 0 where
  named : NamedPrivateMode → PrivateMode
  unknown : ℕ → PrivateMode

pub data ModeState : Type 0 where
  not_supported switched_on switched_off : ModeState

abbrev pub state_of : Bool → ModeState
state_of true = switched_on
state_of false = switched_off

-- `cursor_style.get_or_insert(default)`
abbrev pub style_or : ℕ × Bool → Option (ℕ × Bool) → ℕ × Bool
style_or default none = default
style_or default (some style) = style

-- `self.mode.remove(TermMode::MOUSE_MODE)`
abbrev pub no_mouse : {K : Type 0} → Modes K → Modes K
no_mouse m = record m { mouse_report_click = false; mouse_motion = false; mouse_drag = false }

module _ {T S K : Type 0} where
  abbrev pub with_mode : (Modes K → Modes K) → Term T S K → Term T S K
  with_mode f t = record t { mode = f t.mode }

  abbrev pub blink : ℕ × Bool → Bool → Term T S K → Term T S K
  blink default on t = record t { cursor_style = some ((style_or default t.cursor_style).0, on) }

module _ {C H S K : Type 0} (palette : Palette C) (no_mode : K) (default_style : ℕ × Bool) where
  unfoldable pub set_named : NamedPrivateMode → Term (Cell C H) S K → Option (Term (Cell C H) S K)
  unfolding swap_alt goto deccolm
  set_named urgency_hints t = some (with_mode (λ m. record m { urgency_hints = true }) t)
  set_named swap_screen t =
      if not t.mode.alt_screen then swap_alt no_mode (grid_cell palette) t else some t
  set_named show_cursor t = some (with_mode (λ m. record m { show_cursor = true }) t)
  set_named cursor_keys t = some (with_mode (λ m. record m { app_cursor = true }) t)
  set_named report_mouse_clicks t =
      some (with_mode (λ m. record (no_mouse m) { mouse_report_click = true }) t)
  set_named report_cell_mouse_motion t =
      some (with_mode (λ m. record (no_mouse m) { mouse_drag = true }) t)
  set_named report_all_mouse_motion t =
      some (with_mode (λ m. record (no_mouse m) { mouse_motion = true }) t)
  set_named report_focus_in_out t = some (with_mode (λ m. record m { focus_in_out = true }) t)
  set_named bracketed_paste t = some (with_mode (λ m. record m { bracketed_paste = true }) t)
  set_named sgr_mouse t =
      some (with_mode (λ m. record m { utf8_mouse = false; sgr_mouse = true }) t)
  set_named utf8_mouse t =
      some (with_mode (λ m. record m { sgr_mouse = false; utf8_mouse = true }) t)
  set_named alternate_scroll t = some (with_mode (λ m. record m { alternate_scroll = true }) t)
  set_named line_wrap t = some (with_mode (λ m. record m { line_wrap = true }) t)
  set_named origin t = goto (pos 0) 0 (with_mode (λ m. record m { origin = true }) t)
  set_named column_mode t = deccolm palette t
  set_named blinking_cursor t = some (blink default_style true t)
  set_named sync_update t = some t

  unfoldable pub set_private_mode : PrivateMode → Term (Cell C H) S K → Option (Term (Cell C H) S K)
  unfolding set_named
  set_private_mode (named mode) t = set_named mode t
  set_private_mode (unknown mode) t = some t

  unfoldable pub unset_named : NamedPrivateMode → Term (Cell C H) S K → Option (Term (Cell C H) S K)
  unfolding swap_alt deccolm
  unset_named urgency_hints t = some (with_mode (λ m. record m { urgency_hints = false }) t)
  unset_named swap_screen t =
      if t.mode.alt_screen then swap_alt no_mode (grid_cell palette) t else some t
  unset_named show_cursor t = some (with_mode (λ m. record m { show_cursor = false }) t)
  unset_named cursor_keys t = some (with_mode (λ m. record m { app_cursor = false }) t)
  unset_named report_mouse_clicks t =
      some (with_mode (λ m. record m { mouse_report_click = false }) t)
  unset_named report_cell_mouse_motion t = some (with_mode (λ m. record m { mouse_drag = false }) t)
  unset_named report_all_mouse_motion t =
      some (with_mode (λ m. record m { mouse_motion = false }) t)
  unset_named report_focus_in_out t = some (with_mode (λ m. record m { focus_in_out = false }) t)
  unset_named bracketed_paste t = some (with_mode (λ m. record m { bracketed_paste = false }) t)
  unset_named sgr_mouse t = some (with_mode (λ m. record m { sgr_mouse = false }) t)
  unset_named utf8_mouse t = some (with_mode (λ m. record m { utf8_mouse = false }) t)
  unset_named alternate_scroll t = some (with_mode (λ m. record m { alternate_scroll = false }) t)
  unset_named line_wrap t = some (with_mode (λ m. record m { line_wrap = false }) t)
  unset_named origin t = some (with_mode (λ m. record m { origin = false }) t)
  unset_named column_mode t = deccolm palette t
  unset_named blinking_cursor t = some (blink default_style false t)
  unset_named sync_update t = some t

  unfoldable pub unset_private_mode :
      PrivateMode → Term (Cell C H) S K → Option (Term (Cell C H) S K)
  unfolding unset_named
  unset_private_mode (named mode) t = unset_named mode t
  unset_private_mode (unknown mode) t = some t

  -- The state that `report_private_mode` sends. For the blinking cursor it also stores the default
  -- style where there is none, which `report_stores` is.
  unfoldable pub reported : PrivateMode → Term (Cell C H) S K → ModeState
  reported (named cursor_keys) t = state_of t.mode.app_cursor
  reported (named origin) t = state_of t.mode.origin
  reported (named line_wrap) t = state_of t.mode.line_wrap
  reported (named blinking_cursor) t = state_of (style_or default_style t.cursor_style).1
  reported (named show_cursor) t = state_of t.mode.show_cursor
  reported (named report_mouse_clicks) t = state_of t.mode.mouse_report_click
  reported (named report_cell_mouse_motion) t = state_of t.mode.mouse_drag
  reported (named report_all_mouse_motion) t = state_of t.mode.mouse_motion
  reported (named report_focus_in_out) t = state_of t.mode.focus_in_out
  reported (named utf8_mouse) t = state_of t.mode.utf8_mouse
  reported (named sgr_mouse) t = state_of t.mode.sgr_mouse
  reported (named alternate_scroll) t = state_of t.mode.alternate_scroll
  reported (named urgency_hints) t = state_of t.mode.urgency_hints
  reported (named swap_screen) t = state_of t.mode.alt_screen
  reported (named bracketed_paste) t = state_of t.mode.bracketed_paste
  reported (named sync_update) t = switched_off
  reported (named column_mode) t = not_supported
  reported (unknown mode) t = not_supported

  unfoldable pub report_stores : PrivateMode → Term (Cell C H) S K → Term (Cell C H) S K
  report_stores (named blinking_cursor) t = record t {
    cursor_style = some (style_or default_style t.cursor_style);
  }
  report_stores _ t = t
