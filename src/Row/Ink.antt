-- ===== src/Row/Ink.antt =====
-- A cell type for runs of grid/row.rs, small enough to read.
use cu_tty.Prelude.{ℕ, ◌≡◌, refl, true, ◌==◌, ==_iff, arith}
use cu_tty.Row.{GridCell, IsLawful}

-- A cell is its background colour and its letter; colour 0 is the default, letter 0 a blank.
abbrev pub Ink : Type 0
Ink = ℕ × ℕ

abbrev pub ink : GridCell Ink
ink = record {
  default = (0, 0);
  is_empty = λ c. c.0 == 0;
  reset = λ c t. (t.0, 0);
  same_discriminant = λ s t. s.0 == t.0;
  flags = λ c. 0;
  with_flags = λ c f. c;
}

ink_same : (s t : Ink) → (s.0 == t.0) ≡ true → s.0 ≡ t.0
ink_same s t h = (==_iff s.0 t.0).0 h

pub ink-IsLawful : IsLawful ink
ink-IsLawful = record {
  reset_const = λ a b t. refl;
  reset_default = refl;
  reset_discriminant = λ a t. (==_iff t.0 t.0).1 refl;
  reset_same = λ a s t h. ground (arith, ink_same s t h);
  same_symm = λ s t h. ground (arith, ink_same s t h);
  same_trans = λ s t u h k. ground (arith, ink_same s t h, ink_same t u k);
}
