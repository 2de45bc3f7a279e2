-- ===== src/Grid/Sinking.antt =====
-- The swaps by which grid/mod.rs scrolls a region down, round by round.
use cu_tty.Prelude.{
  ℕ, suc, ◌+◌, ◌-◌, ◌^◌, ◌≤◌, ◌<◌, ◌≡◌, ◌∙◌, sym, ap, some, List, length, get_elem?, arith, Returns,
  subst, inl, inr, ltb_cases,
}
use cu_tty.Prelude.Int.{ℤ, pos, pos_part, neg_part, ◌+ℤ◌, ◌-ℤ◌, +ℤ_parts, -ℤ_parts}
use cu_tty.Row.{Row}
use cu_tty.Storage.{Storage}
use cu_tty.Storage.Ring.{lines}
use cu_tty.Grid.{for_up, for_down, swap_up_by}
use cu_tty.Grid.Loops.{Meets, Meets-weaken, for_up-Returns, for_down-Returns}
use cu_tty.Grid.Valid.{PlaceOf, swap_up_by-Meets}
use cu_tty.Grid.Rows.{lines-eq}
use cu_tty.Grid.Swaps.{Old}
use cu_tty.Grid.Rows.{moved_down, get_elem?-moved_down, length-moved_down}

module _ {T : Type 0} (Good : Row T → Type 0) (rows : List (Row T)) (p : ℕ) where
  -- `j` rounds of the swaps that move a region down, whose bottom is the place `lo`: its `j` lowest
  -- rows have arrived, and the `p` rows above them are leftovers.
  abbrev pub Sinking : ℕ → ℕ → ℕ → Row T → Type 0
  Sinking lo j k r =
      Good r
      × (k < lo → Old rows k r)
      × (lo ≤ k → k < lo + j → Old rows (k + p) r)
      × (lo + j + p ≤ k → Old rows k r)

  -- `j` rounds of the swaps that save the rows below a region: they stand `p` places higher, and the
  -- `p` rows under them are leftovers.
  abbrev pub Saving : ℕ → ℕ → ℕ → Row T → Type 0
  Saving lo j k r =
      Good r
      × (k + j < lo → Old rows k r)
      × (lo + p ≤ k + j → k < lo + p → Old rows (k - p) r)
      × (lo + p ≤ k → Old rows k r)

module _ {T : Type 0} (Good : Row T → Type 0) (rows : List (Row T)) (p : ℕ) (b : Row T) where
  -- `j` rounds of the swaps that put the rows above a region back after a rotation by `p`, on a
  -- screen of `top` lines: they and the rows of the region have arrived, and `p` blank rows are between.
  abbrev pub Settling : ℕ → ℕ → ℕ → ℕ → Row T → Type 0
  Settling top lo j k r =
      Good r
      × (k < lo → Old rows k r)
      × (lo ≤ k → k + p + j < top → Old rows (k + p) r)
      × (top ≤ k + p + j → k + j < top → r ≡ b)
      × (top ≤ k + j → k < top → Old rows k r)

module _ {T : Type 0} (Good : Row T → Type 0) (rows : List (Row T)) (size len visible p : ℕ)
    (one : 1 ≤ p) (few : (visible < 2 ^ 31) × (p < 2 ^ 31)) where
  sink_one :
      (lo : ℕ) (last : ℤ) (n : ℕ)
      → PlaceOf visible last lo
      → lo + n + p ≤ len
      → lo + n + p ≤ visible
      → (j : ℕ) (s : Storage T) → j < n
      → Meets size len visible (Sinking Good rows p lo j) s
      → Returns
          (Meets size len visible (Sinking Good rows p lo (suc j)))
          (swap_up_by (pos 0 -ℤ pos p) (last -ℤ pos j) s)
  sink_one lo last n at fit low j s lt m =
      swap_up_by-Meets size len visible (Sinking Good rows p lo j) (Sinking Good rows p lo (suc j))
        s (pos 0 -ℤ pos p) (last -ℤ pos j) (lo + j) (lo + j + p) m (few.0, omega (arith, few))
        (omega (arith, -ℤ_parts last (pos j))) (omega arith)
        (omega (
          arith,
          -ℤ_parts last (pos j),
          +ℤ_parts (last -ℤ pos j) (pos 0 -ℤ pos p),
          -ℤ_parts (pos 0) (pos p),
        ))
        (omega arith) (omega arith)
        (λ r f.
          (f.0, λ h. absurd (omega arith), λ h l. f.3 (omega arith), λ h. absurd (omega arith)))
        (λ r f.
          (f.0, λ h. absurd (omega arith), λ h l. absurd (omega arith), λ h. absurd (omega arith)))
        (λ k r ne₁ ne₂ f. (f.0, λ h. f.1 h, λ h l. f.2 h (omega arith), λ h. f.3 (omega arith)))

  pub sinking :
      (lo : ℕ) (last : ℤ) (n : ℕ) (s : Storage T)
      → PlaceOf visible last lo
      → lo + n + p ≤ len
      → lo + n + p ≤ visible
      → Meets size len visible (λ k r. Good r × Old rows k r) s
      → Returns
          (Meets size len visible (Sinking Good rows p lo n))
          (for_down n last (swap_up_by (pos 0 -ℤ pos p)) s)
  sinking lo last n s at fit low m =
      for_down-Returns (λ j. Meets size len visible (Sinking Good rows p lo j)) last
        (swap_up_by (pos 0 -ℤ pos p)) n s (sink_one lo last n at fit low)
        (Meets-weaken size len visible (λ k r. Good r × Old rows k r) (Sinking Good rows p lo 0)
          (λ k r _ f. (f.0, λ _. f.1, λ h l. absurd (omega arith), λ _. f.1)) m)

  save_one :
      (lo : ℕ) (first : ℤ)
      → visible + neg_part first ≡ lo + pos_part first
      → lo + p ≤ len
      → lo + p ≤ visible
      → (j : ℕ) (s : Storage T) → j < lo
      → Meets size len visible (Saving Good rows p lo j) s
      → Returns
          (Meets size len visible (Saving Good rows p lo (suc j)))
          (swap_up_by (pos 0 -ℤ pos p) (first +ℤ pos j) s)
  save_one lo first at fit low j s lt m =
      swap_up_by-Meets size len visible (Saving Good rows p lo j) (Saving Good rows p lo (suc j)) s
        (pos 0 -ℤ pos p) (first +ℤ pos j) (lo - 1 - j) (lo - 1 - j + p) m
        (few.0, omega (arith, few)) (omega (arith, +ℤ_parts first (pos j))) (omega arith)
        (omega (
          arith,
          +ℤ_parts first (pos j),
          +ℤ_parts (first +ℤ pos j) (pos 0 -ℤ pos p),
          -ℤ_parts (pos 0) (pos p),
        ))
        (omega arith) (omega arith)
        (λ r f.
          (f.0, λ h. absurd (omega arith), λ h l. absurd (omega arith), λ h. absurd (omega arith)))
        (λ r f. (
          f.0,
          λ h. absurd (omega arith),
          λ h l. subst (λ i. Old rows i r) (omega arith) (f.1 (omega arith)),
          λ h. absurd (omega arith),
        ))
        (λ k r ne₁ ne₂ f. (f.0, λ h. f.1 (omega arith), λ h l. f.2 (omega arith) l, λ h. f.3 h))

  pub saving :
      (lo : ℕ) (first : ℤ) (s : Storage T)
      → visible + neg_part first ≡ lo + pos_part first
      → lo + p ≤ len
      → lo + p ≤ visible
      → Meets size len visible (λ k r. Good r × Old rows k r) s
      → Returns
          (Meets size len visible (Saving Good rows p lo lo))
          (for_up lo first (swap_up_by (pos 0 -ℤ pos p)) s)
  saving lo first s at fit low m =
      for_up-Returns (λ j. Meets size len visible (Saving Good rows p lo j)) first
        (swap_up_by (pos 0 -ℤ pos p)) lo s (save_one lo first at fit low)
        (Meets-weaken size len visible (λ k r. Good r × Old rows k r) (Saving Good rows p lo 0)
          (λ k r _ f. (f.0, λ _. f.1, λ h l. absurd (omega arith), λ _. f.1)) m)

  settle_one :
      (b : Row T) (lo n : ℕ)
      → lo + p + n ≤ visible
      → visible ≤ len
      → (j : ℕ) (s : Storage T) → j < n
      → Meets size len visible (Settling Good rows p b visible lo j) s
      → Returns
          (Meets size len visible (Settling Good rows p b visible lo (suc j)))
          (swap_up_by (pos p) (pos 0 +ℤ pos j) s)
  settle_one b lo n fit small j s lt m =
      swap_up_by-Meets size len visible (Settling Good rows p b visible lo j)
        (Settling Good rows p b visible lo (suc j)) s (pos p) (pos 0 +ℤ pos j) (visible - 1 - j)
        (visible - 1 - j - p) m (few.0, omega (arith, few))
        (omega (arith, +ℤ_parts (pos 0) (pos j))) (omega arith)
        (omega (arith, +ℤ_parts (pos 0) (pos j), +ℤ_parts (pos 0 +ℤ pos j) (pos p))) (omega arith)
        (omega arith)
        (λ r f. (
          f.0,
          λ h. absurd (omega arith),
          λ h l. absurd (omega arith),
          λ h l. absurd (omega arith),
          λ h l. subst (λ i. Old rows i r) (omega arith) (f.2 (omega arith) (omega arith)),
        ))
        (λ r f. (
          f.0,
          λ h. absurd (omega arith),
          λ h l. absurd (omega arith),
          λ h l. f.3 (omega arith) (omega arith),
          λ h l. absurd (omega arith),
        ))
        (λ k r ne₁ ne₂ f. (
          f.0,
          λ h. f.1 h,
          λ h l. f.2 h (omega arith),
          λ h l. f.3 (omega arith) (omega arith),
          λ h l. f.4 (omega arith) l,
        ))

  pub settling :
      (b : Row T) (lo n : ℕ) (s : Storage T)
      → lo + p + n ≤ visible
      → visible ≤ len
      → Meets size len visible (Settling Good rows p b visible lo 0) s
      → Returns
          (Meets size len visible (Settling Good rows p b visible lo n))
          (for_up n (pos 0) (swap_up_by (pos p)) s)
  settling b lo n s fit small m =
      for_up-Returns (λ j. Meets size len visible (Settling Good rows p b visible lo j)) (pos 0)
        (swap_up_by (pos p)) n s (settle_one b lo n fit small) m

module _ {T : Type 0} (len f m p : ℕ) (b : Row T) (R : List (Row T)) where
  -- What a storage scrolled down holds at each place, in terms of the rows `R` that it began with.
  abbrev pub Lowered : ℕ → Row T → Type 0
  Lowered k r =
      (k < f → Old R k r)
      × (f ≤ k → k + p < f + m → Old R (k + p) r)
      × (f + m ≤ k + p → k < f + m → r ≡ b)
      × (f + m ≤ k → k < len → Old R k r)

module _ {T : Type 0} (size len visible f m p : ℕ) (b : Row T) (R L : List (Row T)) where
  pub finish_down :
      p ≤ m
      → f + m ≤ length L
      → length L ≡ len
      → ((k : ℕ) → k < length L → get_elem? R k ≡ get_elem? L k)
      → (s : Storage T) → Meets size len visible (Lowered len f m p b R) s
      → lines s ≡ moved_down f m p b L
  finish_down fits low long agree s h =
      lines-eq size len visible (moved_down f m p b L) s
        (Meets-weaken size len visible (Lowered len f m p b R)
          (λ k r. k < len → some r ≡ get_elem? (moved_down f m p b L) k) here h)
        (length-moved_down f m p b L fits low ∙ long)
    where
      here :
          (k : ℕ) (r : Row T)
          → k < size
          → Lowered len f m p b R k r
          → k < len
          → some r ≡ get_elem? (moved_down f m p b L) k
      here k r _ h lt =
          let e = get_elem?-moved_down f m p b L fits low k in
          elim (ltb_cases k f) [
            | inl (_, x) ↦ h.0 x ∙ agree k (omega arith) ∙ sym (e.0 x)
            | inr (_, x) ↦ elim (ltb_cases (k + p) (f + m)) [
              | inl (_, y) ↦ h.1 x y ∙ agree (k + p) (omega arith) ∙ sym (e.1 x y)
              | inr (_, y) ↦ elim (ltb_cases k (f + m)) [
                | inl (_, z) ↦ ap some (h.2 y z) ∙ sym (e.2 y z)
                | inr (_, z) ↦ h.3 z lt ∙ agree k (omega arith) ∙ sym (e.3 z)
              ]
            ]
          ]
