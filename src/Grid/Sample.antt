-- ===== src/Grid/Sample.antt =====
-- A small grid for runs of grid/mod.rs: a screen of three lines with a history of one.
use cu_tty.Prelude.{ℕ, refl, false, [], ◌∷◌, arith}
use cu_tty.Prelude.Int.{pos}
use cu_tty.Prelude.Index.{All-at}
use cu_tty.Row.{Row}
use cu_tty.Row.Ink.{Ink, ink}
use cu_tty.Storage.{Storage}
use cu_tty.Storage.Ring.{ring}
use cu_tty.Grid.{Cursor, Grid}
use cu_tty.Grid.Valid.{IsRow, IsSound, IsValid}

abbrev pub letter : ℕ → Row Ink
letter n = record { inner = (0, n) ∷ (0, 0) ∷ []; occ = 1 }

pub letter-IsRow : (n : ℕ) → IsRow ink 2 (letter n)
letter-IsRow n = record {
  template = (0, 0);
  valid = record { occ_le = omega arith; clean = λ i a b. ground arith };
  width = refl;
}

-- The lines 2, 1, 0 of the screen hold the letters 10, 11, 12, the history 13.
abbrev pub screen : Storage Ink
screen = record {
  inner = letter 13 ∷ letter 10 ∷ letter 11 ∷ letter 12 ∷ [];
  zero = 1;
  visible_lines = 3;
  len = 4;
}

abbrev pub red : Cursor Ink
red = record {
  point = record { line = pos 0; column = 0 };
  template = (6, 0);
  charsets = [];
  input_needs_wrap = false;
}

abbrev pub scrolled : Grid Ink
scrolled = record {
  cursor = red;
  saved_cursor = red;
  raw = screen;
  columns = 2;
  lines = 3;
  display_offset = 1;
  max_scroll_limit = 2;
}

pub scrolled-IsSound : IsSound ink scrolled
scrolled-IsSound = record {
  rows = record {
    valid = record { zero_lt = omega arith; len_le = omega arith; visible_le = omega arith };
    same_size = refl;
    same_len = refl;
    same_visible = refl;
    at =
        All-at (IsRow ink 2) (ring screen)
          (letter-IsRow 10, (letter-IsRow 11, (letter-IsRow 12, (letter-IsRow 13, tt))));
  };
  has_column = omega arith;
  has_line = omega arith;
  few_lines = omega arith;
  history_le = omega arith;
}

pub scrolled-IsValid : IsValid ink scrolled
scrolled-IsValid = record { sound = scrolled-IsSound; offset_le = omega arith }
