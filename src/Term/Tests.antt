-- ===== src/Term/Tests.antt =====
-- Runs of term/mod.rs on a screen of three lines, and the theorems at it.
use cu_tty.Prelude.{
  ℕ, ◌≤◌, ◌<◌, ◌≡◌, refl, true, false, none, some, [], ◌∷◌, length, replicate, length-replicate,
  arith, Returns,
}
use cu_tty.Prelude.Int.{pos, ◌+ℤ◌, ◌-ℤ◌, pos_part}
use cu_tty.Grid.{Grid, Cursor}
use cu_tty.Row.Ink.{Ink, ink, ink-IsLawful}
use cu_tty.Grid.Sample.{red, scrolled, scrolled-IsSound, scrolled-IsValid}
use cu_tty.Grid.Valid.{IsValid}
use cu_tty.Term.Linefeed.{ScrolledByOne, linefeed_scrolls}
use cu_tty.Term.Scroll.{linefeed}
use cu_tty.Term.{default_modes, Term, point}
use cu_tty.Term.Moves.{goto, goto_col, move_forward, move_backward, backspace, carriage_return}
use cu_tty.Term.Damage.{undamaged_lines, damage_line, damage_iterator, damage_iterator_lem, reset}
use cu_tty.Term.Tabs.{IsNext, forward, forward_lem, new}
use cu_tty.Term.Motion.{IsPlaced, MovedTo, goto_lem, goto_col_descends}
use cu_tty.Term.Line.{BackedUp, motions_lem}
use cu_tty.Term.Stacks.{
  push_title, pop_title, set_title, push_keyboard_mode, pop_keyboard_modes, pop_title-push_title,
  pop_keyboard_modes-push_keyboard_mode, push_keyboard_mode_overflows,
}

abbrev cursor : Cursor Ink
cursor = record {
  point = record { line = pos 1; column = 2 };
  template = (0, 0);
  charsets = [];
  input_needs_wrap = true;
}

abbrev grid : Grid Ink
grid = record {
  cursor = cursor;
  saved_cursor = cursor;
  raw = record { inner = []; zero = 0; visible_lines = 3; len = 3 };
  columns = 20;
  lines = 3;
  display_offset = 0;
  max_scroll_limit = 0;
}

-- In origin mode, with a scroll region of the last two lines.
abbrev term : Term Ink ℕ ℕ
term = record {
  vi_mode_cursor = record { line = pos 0; column = 0 };
  selection = none;
  grid = grid;
  inactive_grid = grid;
  tabs = new 20;
  mode = record (default_modes 0) { origin = true };
  region_start = pos 1;
  region_end = pos 3;
  active_charset = 0;
  cursor_style = none;
  title = some 5;
  title_stack = some 6 ∷ [];
  keyboard_mode_stack = 4 ∷ [];
  inactive_keyboard_mode_stack = [];
  damage = record {
    full = false;
    lines = undamaged_lines 0 3 20;
    last_cursor = record { line = pos 0; column = 0 };
  };
  kitty_keyboard = true;
}

term-IsPlaced : IsPlaced term
term-IsPlaced = record {
  on_screen = (refl, omega arith, omega arith);
  damaged = refl;
  few_lines = omega arith;
  region_start_le = (refl, omega arith);
  region_end_le = (refl, omega arith, omega arith);
}

goto_lem_example : Returns (MovedTo term (pos 2) 19) (goto (pos 7) 30 term)
unfolding ◌+ℤ◌ ◌-ℤ◌
goto_lem_example =
    goto_lem term (pos 7) 30 term-IsPlaced (omega arith, omega arith) (omega arith, omega arith)

motions_lem_example :
    Returns (MovedTo term (pos 1) 5) (move_forward 3 term)
    × Returns (MovedTo term (pos 1) 0) (move_backward 3 term)
    × Returns (BackedUp term) (backspace term)
    × Returns (MovedTo term (pos 1) 0) (carriage_return term)
motions_lem_example = motions_lem term 3 term-IsPlaced

goto_col_descends_example : Returns (λ t'. 1 < pos_part (point t').line) (goto_col 4 term)
unfolding ◌+ℤ◌
goto_col_descends_example =
    goto_col_descends term 4 term-IsPlaced refl (omega arith) (omega arith)
      (omega arith, omega arith)

damage_iterator_lem_example :
    Returns
      (λ s'.
        (damage_iterator s'.lines 1 ≡ record { line = 2; left = 4; right = 9 } ∷ [])
        × (s'.full ≡ false))
      (damage_line 1 4 9 (reset 20 term.damage))
damage_iterator_lem_example =
    damage_iterator_lem term.damage 20 1 4 9 1 (record { line = 1; left = 20; right = 0 }) refl
      (omega arith) (omega arith)

forward_lem_example : Returns (IsNext (new 20) 20 3) (forward (new 20) 20 1 3)
unfolding new
forward_lem_example = forward_lem (new 20) 20 3 refl (omega arith)

stops_each_eight : forward (new 20) 20 2 3 ≡ some 16
unfolding forward new
stops_each_eight = refl

pop_title-push_title_example :
    Returns
      (λ t'. (length t'.title_stack ≤ 4096) × ((pop_title (set_title none t')).title ≡ some 5))
      (push_title term)
pop_title-push_title_example = pop_title-push_title term none (omega arith)

pop_keyboard_modes-push_keyboard_mode_example :
    Returns
      (λ t'.
        (t'.mode.keyboard ≡ 9)
        × (t'.title_stack ≡ some 6 ∷ [])
        × ((pop_keyboard_modes 0 1 t').keyboard_mode_stack ≡ 4 ∷ [])
        × ((pop_keyboard_modes 0 1 t').mode.keyboard ≡ 4))
      (push_keyboard_mode 9 term)
pop_keyboard_modes-push_keyboard_mode_example =
    pop_keyboard_modes-push_keyboard_mode term 0 9 refl (omega arith)

-- A stack of keyboard modes that is full.
abbrev deep : Term Ink ℕ ℕ
deep = record term { keyboard_mode_stack = replicate 4096 1 }

push_keyboard_mode_overflows_example :
    (push_keyboard_mode 9 (record deep { title_stack = [] }) ≡ none)
    × Returns
        (λ t'. (4096 < length t'.keyboard_mode_stack) × (t'.title_stack ≡ []))
        (push_keyboard_mode 9 (record deep { title_stack = some 6 ∷ [] }))
push_keyboard_mode_overflows_example =
    push_keyboard_mode_overflows deep 9 (some 6) [] refl
      (omega (arith, length-replicate {A = ℕ} 4096 1))

-- The cursor on the last line of a screen with a history.
abbrev full : Term Ink ℕ ℕ
full = record term {
  grid = record scrolled { cursor = record red { point = record { line = pos 2; column = 1 } } };
  region_start = pos 0;
}

full-IsPlaced : IsPlaced full
full-IsPlaced = record {
  on_screen = (refl, omega arith, omega arith);
  damaged = refl;
  few_lines = omega arith;
  region_start_le = (refl, omega arith);
  region_end_le = (refl, omega arith, omega arith);
}

full-IsValid : IsValid ink full.grid
full-IsValid = record {
  sound = record {
    rows = scrolled-IsSound.rows;
    has_column = scrolled-IsSound.has_column;
    has_line = scrolled-IsSound.has_line;
    few_lines = scrolled-IsSound.few_lines;
    history_le = scrolled-IsSound.history_le;
  };
  offset_le = scrolled-IsValid.offset_le;
}

linefeed_scrolls_example : Returns (ScrolledByOne ink ink-IsLawful 3 full) (linefeed ink full)
linefeed_scrolls_example =
    linefeed_scrolls ink ink-IsLawful full 2 full-IsPlaced full-IsValid refl refl refl
