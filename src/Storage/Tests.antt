-- ===== src/Storage/Tests.antt =====
-- The theorems on grid/storage.rs at a ring of five rows whose first stands in the middle.
use cu_tty.Prelude.{
  ℕ, suc, ◌-◌, ◌≤◌, ◌<◌, ◌≡◌, refl, none, some, [], ◌∷◌, get_elem?, set, arith, Returns,
}
use cu_tty.Prelude.Int.{pos, negsuc, ◌-ℤ◌}
use cu_tty.Prelude.Rotation.{rotate_left}
use cu_tty.Row.{Row}
use cu_tty.Row
use cu_tty.Row.Ink.{Ink, ink}
use cu_tty.Storage.{Storage, compute_index, swap, rotate, shrink_lines, initialize}
use cu_tty.Storage.Ring.{IsValid, IsLine, ring, offset, Holds, compute_index_lem, swap-Holds}
use cu_tty.Storage.Rotate.{rotate-Holds}
use cu_tty.Storage.Resize.{Shrunk, shrink_lines-Shrunk, Grown, initialize-Grown}

abbrev letter : ℕ → Row Ink
letter n = record { inner = (0, n) ∷ []; occ = 1 }

-- Three lines on the screen, one above it, one spare row; the bottom line is at index 3.
abbrev five : Storage Ink
five = record {
  inner = letter 10 ∷ letter 11 ∷ letter 12 ∷ letter 13 ∷ letter 14 ∷ [];
  zero = 3;
  visible_lines = 3;
  len = 4;
}

five-IsValid : IsValid five
five-IsValid = record { zero_lt = omega arith; len_le = omega arith; visible_le = omega arith }

bottom_line : compute_index five (pos 2) ≡ some 3
unfolding compute_index ◌-ℤ◌
bottom_line = refl

history_line : compute_index five (negsuc 0) ≡ some 1
unfolding compute_index ◌-ℤ◌
history_line = refl

no_line : compute_index five (pos 3) ≡ none
unfolding compute_index ◌-ℤ◌
no_line = refl

compute_index_lem_example :
    (IsLine 3 4 (pos 2) → Returns (λ i. i < 5) (compute_index five (pos 2)))
    × (IsLine 3 4 (pos 2)
        → IsLine 3 4 (negsuc 0)
        → compute_index five (pos 2) ≡ compute_index five (negsuc 0)
        → pos 2 ≡ negsuc 0)
    × (¬ IsLine 3 4 (pos 2) → compute_index five (pos 2) ≡ none)
compute_index_lem_example = compute_index_lem five five-IsValid (pos 2) (negsuc 0)

swap-Holds_example :
    Returns
      (Holds five five-IsValid
        (set (set (ring five) (offset 3 (pos 2)) (letter 11)) (offset 3 (negsuc 0)) (letter 13)))
      (swap five (pos 2) (negsuc 0))
unfolding ◌-ℤ◌
swap-Holds_example =
    swap-Holds five five-IsValid (pos 2) (negsuc 0) (letter 13) (letter 11) (omega arith)
      (omega arith) at_bottom at_history
  where
    at_bottom : get_elem? (ring five) (offset 3 (pos 2)) ≡ some (letter 13)
    at_bottom = refl

    at_history : get_elem? (ring five) (offset 3 (negsuc 0)) ≡ some (letter 11)
    at_history = refl

rotate-Holds_example :
    ((k : ℕ)
      → k ≤ 5
      → Returns (Holds five five-IsValid (rotate_left k (ring five))) (rotate five (pos k)))
    × ((k : ℕ)
        → suc k ≤ 5
        → Returns
            (Holds five five-IsValid (rotate_left (5 - suc k) (ring five)))
            (rotate five (negsuc k)))
rotate-Holds_example = rotate-Holds five five-IsValid

shrink_lines-Shrunk_example : Returns (Shrunk (λ r. r.occ ≡ 1) five 1) (shrink_lines five 1)
shrink_lines-Shrunk_example =
    shrink_lines-Shrunk (λ r. r.occ ≡ 1) five 1 five-IsValid (omega arith)
      (refl, (refl, (refl, (refl, (refl, tt)))))

initialize-Grown_example : Returns (Grown (λ r. r.occ ≤ 1) five 3) (initialize ink five 3 1)
unfolding Row.new
initialize-Grown_example =
    initialize-Grown (λ r. r.occ ≤ 1) ink five 3 1 five-IsValid (omega arith)
      (omega arith, (omega arith, (omega arith, (omega arith, (omega arith, tt))))) fresh
  where
    fresh : (r : Row Ink) → Row.new ink 1 ≡ some r → r.occ ≤ 1
    fresh r e = ground arith
