-- ===== src/Grid/Swaps.antt =====
-- The swaps by which grid/mod.rs scrolls a region up, round by round.
use cu_tty.Prelude.{
  ℕ, suc, ◌+◌, ◌-◌, ◌^◌, ◌≤◌, ◌<◌, ◌≡◌, ◌∙◌, sym, ap, some, List, length, get_elem?, arith, Returns,
  subst, inl, inr, ltb_cases,
}
use cu_tty.Prelude.Int.{ℤ, pos, pos_part, neg_part, ◌+ℤ◌, ◌-ℤ◌, +ℤ_parts, -ℤ_parts}
use cu_tty.Row.{Row}
use cu_tty.Storage.{Storage}
use cu_tty.Storage.Ring.{lines}
use cu_tty.Grid.{for_up, for_down, swap_up_by}
use cu_tty.Grid.Loops.{Meets, Meets-weaken, for_up-Returns, for_down-Returns}
use cu_tty.Grid.Valid.{swap_up_by-Meets}
use cu_tty.Grid.Rows.{moved_up, length-moved_up, get_elem?-moved_up, lines-eq}

-- `r` is the row at the place `k` of `rows`.
abbrev pub Old : {A : Type 0} → List A → ℕ → A → Type 0
Old rows k r = some r ≡ get_elem? rows k

module _ {T : Type 0} (Good : Row T → Type 0) (rows : List (Row T)) (p : ℕ) where
  -- `j` rounds of the swaps that move a region up, which ends `hi` places above the bottom: its
  -- `j` top rows have arrived, and the `p` rows below them are leftovers.
  abbrev pub Rising : ℕ → ℕ → ℕ → Row T → Type 0
  Rising hi j k r =
      Good r
      × (k + p + j < hi → Old rows k r)
      × (hi ≤ k + j → k < hi → Old rows (k - p) r)
      × (hi ≤ k → Old rows k r)

  -- `j` rounds of the swaps that put the fixed rows at the bottom back after a rotation by `p`.
  abbrev pub Fixing : ℕ → ℕ → Row T → Type 0
  Fixing j k r = Good r × (k < j → Old rows k r) × (j + p ≤ k → Old rows (k - p) r)

module _ {T : Type 0} (Good : Row T → Type 0) (rows : List (Row T)) (size len visible p : ℕ)
    (one : 1 ≤ p) (few : (visible < 2 ^ 31) × (p < 2 ^ 31)) where
  raise_one :
      (hi : ℕ) (a : ℤ) (n : ℕ)
      → visible + neg_part a ≡ hi + pos_part a
      → hi ≤ len
      → hi ≤ visible
      → n + p ≤ hi
      → (j : ℕ) (s : Storage T) → j < n
      → Meets size len visible (Rising Good rows p hi j) s
      → Returns
          (Meets size len visible (Rising Good rows p hi (suc j)))
          (swap_up_by (pos p) (a +ℤ pos j) s)
  raise_one hi a n ha hl low fit j s lt m =
      swap_up_by-Meets size len visible (Rising Good rows p hi j) (Rising Good rows p hi (suc j)) s
        (pos p) (a +ℤ pos j) (hi - 1 - j) (hi - 1 - j - p) m (few.0, omega (arith, few))
        (omega (arith, +ℤ_parts a (pos j))) (omega arith)
        (omega (arith, +ℤ_parts a (pos j), +ℤ_parts (a +ℤ pos j) (pos p))) (omega arith)
        (omega arith)
        (λ r f.
          (f.0, λ h. absurd (omega arith), λ h l. f.1 (omega arith), λ h. absurd (omega arith)))
        (λ r f.
          (f.0, λ h. absurd (omega arith), λ h l. absurd (omega arith), λ h. absurd (omega arith)))
        (λ k r ne₁ ne₂ f. (f.0, λ h. f.1 (omega arith), λ h l. f.2 (omega arith) l, λ h. f.3 h))

  pub rising :
      (hi : ℕ) (a : ℤ) (n : ℕ) (s : Storage T)
      → visible + neg_part a ≡ hi + pos_part a
      → hi ≤ len
      → hi ≤ visible
      → n + p ≤ hi
      → Meets size len visible (λ k r. Good r × Old rows k r) s
      → Returns
          (Meets size len visible (Rising Good rows p hi n))
          (for_up n a (swap_up_by (pos p)) s)
  rising hi a n s ha hl low fit m =
      for_up-Returns (λ j. Meets size len visible (Rising Good rows p hi j)) a (swap_up_by (pos p))
        n s (raise_one hi a n ha hl low fit)
        (Meets-weaken size len visible (λ k r. Good r × Old rows k r) (Rising Good rows p hi 0)
          (λ k r _ f. (f.0, λ _. f.1, λ h l. absurd (omega arith), λ _. f.1)) m)

  fix_one :
      (n : ℕ)
      → n + p ≤ len
      → n ≤ visible
      → (j : ℕ) (s : Storage T) → j < n
      → Meets size len visible (Fixing Good rows p j) s
      → Returns
          (Meets size len visible (Fixing Good rows p (suc j)))
          (swap_up_by (pos 0 -ℤ pos p) (pos visible -ℤ pos 1 -ℤ pos j) s)
  fix_one n fit low j s lt m =
      let line = pos visible -ℤ pos 1 -ℤ pos j in
      swap_up_by-Meets size len visible (Fixing Good rows p j) (Fixing Good rows p (suc j)) s
        (pos 0 -ℤ pos p) line j (j + p) m (few.0, omega (arith, few))
        (omega (arith, -ℤ_parts (pos visible) (pos 1), -ℤ_parts (pos visible -ℤ pos 1) (pos j)))
        (omega arith)
        (omega (
          arith,
          -ℤ_parts (pos visible) (pos 1),
          -ℤ_parts (pos visible -ℤ pos 1) (pos j),
          +ℤ_parts line (pos 0 -ℤ pos p),
          -ℤ_parts (pos 0) (pos p),
        ))
        (omega arith) (omega arith)
        (λ r f. (
          f.0,
          λ h. subst (λ k. Old rows k r) (omega arith) (f.2 (omega arith)),
          λ h. absurd (omega arith),
        ))
        (λ r f. (f.0, λ h. absurd (omega arith), λ h. absurd (omega arith)))
        (λ k r ne₁ ne₂ f. (f.0, λ h. f.1 (omega arith), λ h. f.2 (omega arith)))

  pub fixing :
      (n : ℕ) (s : Storage T)
      → n + p ≤ len
      → n ≤ visible
      → Meets size len visible (Fixing Good rows p 0) s
      → Returns
          (Meets size len visible (Fixing Good rows p n))
          (for_down n (pos visible -ℤ pos 1) (swap_up_by (pos 0 -ℤ pos p)) s)
  fixing n s fit low m =
      for_down-Returns (λ j. Meets size len visible (Fixing Good rows p j)) (pos visible -ℤ pos 1)
        (swap_up_by (pos 0 -ℤ pos p)) n s (fix_one n fit low) m

module _ {T : Type 0} (len f m p : ℕ) (b : Row T) (R : List (Row T)) where
  -- What a scrolled storage holds at each place, in terms of the rows `R` that it began with.
  abbrev pub Moved : ℕ → Row T → Type 0
  Moved k r =
      (k < f → Old R k r)
      × (f ≤ k → k < f + p → r ≡ b)
      × (f + p ≤ k → k < f + m → Old R (k - p) r)
      × (f + m ≤ k → k < len → Old R k r)

module _ {T : Type 0} (size len visible f m p : ℕ) (b : Row T) (R L : List (Row T)) where
  pub finish :
      f ≤ length L
      → p ≤ m
      → m - p ≤ length L - f
      → f + m + (length L - (f + m)) ≡ len
      → ((k : ℕ) → k < length L → get_elem? R k ≡ get_elem? L k)
      → (s : Storage T) → Meets size len visible (Moved len f m p b R) s
      → lines s ≡ moved_up f m p b L
  finish low fits few total agree s h =
      lines-eq size len visible (moved_up f m p b L) s
        (Meets-weaken size len visible (Moved len f m p b R)
          (λ k r. k < len → some r ≡ get_elem? (moved_up f m p b L) k) here h)
        (length-moved_up f m p b L low fits few ∙ total)
    where
      here :
          (k : ℕ) (r : Row T)
          → k < size
          → Moved len f m p b R k r
          → k < len
          → some r ≡ get_elem? (moved_up f m p b L) k
      here k r _ h lt =
          let e = get_elem?-moved_up f m p b L low fits few k in
          elim (ltb_cases k f) [
            | inl (_, x) ↦ h.0 x ∙ agree k (omega arith) ∙ sym (e.0 x)
            | inr (_, x) ↦ elim (ltb_cases k (f + p)) [
              | inl (_, y) ↦ ap some (h.1 x y) ∙ sym (e.1 x y)
              | inr (_, y) ↦ elim (ltb_cases k (f + m)) [
                | inl (_, z) ↦ h.2 y z ∙ agree (k - p) (omega arith) ∙ sym (e.2 y z)
                | inr (_, z) ↦ h.3 z lt ∙ agree k (omega arith) ∙ sym (e.3 z)
              ]
            ]
          ]
