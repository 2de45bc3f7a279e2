-- ===== src/Row/Tests.antt =====
-- Runs on rows of letters, and the theorems at a row.
use cu_tty.Prelude.{ℕ, ◌≡◌, refl, none, some, [], ◌∷◌, get_elem?, arith, ◌<◌}
use cu_tty.Row.{Row, new, grow, shrink, reset, modify}
use cu_tty.Row.Valid.{IsValid}
use cu_tty.Row.Reset.{reset_lem}
use cu_tty.Row.Ink.{Ink, ink, ink-IsLawful}
use cu_tty.Row.Grow.{cleared, reset-grow_stale}

abbrev written : Row Ink
written = record { inner = (0, 7) ∷ (2, 8) ∷ (0, 0) ∷ (0, 0) ∷ []; occ = 2 }

written-IsValid : IsValid ink (0, 0) written
written-IsValid = record { occ_le = omega arith; clean = λ i a b. ground arith }

reset_lem_example :
    reset ink written (5, 1)
    ≡ some (record { inner = (5, 0) ∷ (5, 0) ∷ (5, 0) ∷ (5, 0) ∷ []; occ = 0 })
reset_lem_example = reset_lem ink ink-IsLawful (0, 0) (5, 1) written written-IsValid (omega arith)

reset-grow_stale_example :
    (reset ink (grow ink (cleared ink 2 (3, 0)) 4) (0, 0)
      ≡ some (grow ink (cleared ink 2 (3, 0)) 4))
    × ((i : ℕ) → i < 2 → get_elem? (grow ink (cleared ink 2 (3, 0)) 4).inner i ≡ some (3, 0))
reset-grow_stale_example = reset-grow_stale ink ink-IsLawful 2 4 (3, 0) (omega arith) (omega arith)

new_needs_a_column : new ink 0 ≡ none
unfolding new
new_needs_a_column = refl

shrink_wraps : shrink ink written 1 ≡ (record { inner = (0, 7) ∷ []; occ = 1 }, some ((2, 8) ∷ []))
unfolding shrink
shrink_wraps = refl

modify_second :
    modify 1 (λ c. (9, 9)) written
    ≡ some (record { inner = (0, 7) ∷ (9, 9) ∷ (0, 0) ∷ (0, 0) ∷ []; occ = 2 })
unfolding modify
modify_second = refl
