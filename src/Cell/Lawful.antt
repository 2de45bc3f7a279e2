-- ===== src/Cell/Lawful.antt =====
-- The cell of term/cell.rs is what grid/row.rs relies on.
use cu_tty.Prelude.{◌≡◌, refl, ◌∙◌, sym, ap, true, ◌↔◌}
use cu_tty.Row.{IsLawful}
use cu_tty.Cell.{Palette, grid_cell, from_color}

-- The comparison of colours is an equality test.
abbrev pub IsPalette : {C : Type 0} → Palette C → Type 0
IsPalette {C} palette = (a b : C) → (palette.same_color a b ≡ true) ↔ (a ≡ b)

-- Where the comparison of colours is an equality test, a reset of a cell of the terminal depends on the background of the template alone, and the backgrounds are compared by an equivalence: all that the reset of a row relies on holds.
pub grid_cell-IsLawful :
    {C H : Type 0} (palette : Palette C) → IsPalette palette → IsLawful (grid_cell {H = H} palette)
grid_cell-IsLawful palette law = record {
  reset_const = λ a b t. refl;
  reset_default = refl;
  reset_discriminant = λ a t. (law t.bg t.bg).1 refl;
  reset_same = λ a s t h. ap (from_color palette) ((law s.bg t.bg).0 h);
  same_symm = λ s t h. (law t.bg s.bg).1 (sym ((law s.bg t.bg).0 h));
  same_trans = λ s t u h k. (law s.bg u.bg).1 ((law s.bg t.bg).0 h ∙ (law t.bg u.bg).0 k);
}
