-- ===== src/Grid/ScrollDown.antt =====
-- The three ways in which `Grid::scroll_down` of grid/mod.rs moves the rows, place by place.
use cu_tty.Prelude.{
  ℕ, suc, ◌+◌, ◌-◌, ◌^◌, ◌≤◌, ◌<◌, ◌≡◌, refl, length, arith, Returns, Returns-map, Returns-bind,
  subst,
}
use cu_tty.Prelude.Int.{ℤ, pos, ◌+ℤ◌, ◌-ℤ◌, +ℤ_parts, -ℤ_parts}
use cu_tty.Prelude.Rotation.{wrap_index}
use cu_tty.Row.{GridCell, IsLawful, Row}
use cu_tty.Storage.{Storage}
use cu_tty.Storage
use cu_tty.Storage.Ring.{ring, offset-parts}
use cu_tty.Grid.{Grid, reset_lines, for_up, for_down, range_size, swap_up_by}
use cu_tty.Grid.Loops.{Meets, Meets-weaken, for_down-Returns, rotated-Meets}
use cu_tty.Grid.Valid.{
  IsRow, IsSound, blank_row, range_size-eq, Patched, Patched-all, PlaceOf, reset_lines-Meets,
  exact_i32, exact_sum,
}
use cu_tty.Grid.Swaps.{Old}
use cu_tty.Storage.Rotate.{rotate_down-Holds}
use cu_tty.Grid.{scroll_down_rotating, scroll_down_swapping, reset_line}
use cu_tty.Grid.Valid.{reset_line-Meets}
use cu_tty.Grid.Sinking.{Sinking, sinking, Saving, saving, Settling, settling, Lowered}
use cu_tty.Grid.ScrollUp.{Good, fill, fill-IsRow, at_start}

module _ {T : Type 0} (cell : GridCell T) (law : IsLawful cell) (columns : ℕ) (wide : 1 ≤ columns)
    (size len visible : ℕ) (F : ℕ → Row T → Type 0) where
  -- The reset of `n` lines from the lowest up, which begins `lo` places above the bottom.
  resetting :
      (s : Storage T) (last : ℤ) (lo n : ℕ) (t : T)
      → Meets size len visible F s
      → PlaceOf visible last lo
      → lo + n ≤ len
      → ((k : ℕ) (r : Row T) → F k r → IsRow cell columns r)
      → Returns
          (Meets size len visible (Patched lo (lo + n) (blank_row cell columns t) F))
          (for_down n last (reset_line cell t) s)
  resetting s last lo n t m at fit row = for_down-Returns P last (reset_line cell t) n s step (
      Meets-weaken size len visible F (Patched lo (lo + 0) (blank_row cell columns t) F)
        (λ j r _ f. (λ a b. absurd (omega arith), λ _. f, λ _. f)) m)
    where
      P : ℕ → Storage T → Type 0
      P i = Meets size len visible (Patched lo (lo + i) (blank_row cell columns t) F)

      step :
          (i : ℕ) (u : Storage T)
          → i < n
          → P i u
          → Returns (P (suc i)) (reset_line cell t (last -ℤ pos i) u)
      step i u lt p =
          reset_line-Meets cell law columns wide size len visible
            (Patched lo (lo + i) (blank_row cell columns t) F)
            (Patched lo (lo + suc i) (blank_row cell columns t) F) u (last -ℤ pos i) (lo + i) t p
            (omega (arith, -ℤ_parts last (pos i)))
            (omega (
              arith,
              offset-parts visible (last -ℤ pos i) (omega (arith, -ℤ_parts last (pos i))),
              -ℤ_parts last (pos i),
            ))
            (λ r f. row (lo + i) r (f.2 (omega arith)))
            (λ _ _. refl, λ low. absurd (omega arith), λ high. absurd (omega arith))
            (λ j r ne f. (λ a b. f.0 a (omega arith), λ c. f.1 c, λ c. f.2 (omega arith)))

module _ {T : Type 0} (cell : GridCell T) (law : IsLawful cell) (g : Grid T)
    (v : IsSound cell g) where
  open g use {columns, max_scroll_limit, raw}
  open g use {lines as visible}

  abbrev Row' : Row T → Type 0
  Row' = Good cell law g v

  abbrev blank' : Row T
  blank' = fill cell law g v

  abbrev pub Sunk : ℕ → ℕ → ℕ → ℕ → Row T → Type 0
  Sunk f m p k r = Row' r × Lowered raw.len f m p blank' (ring raw) k r

  visible_len : visible ≤ raw.len
  visible_len = omega (arith, v.rows.valid.visible_le, v.rows.same_visible)

  few : {p : ℕ} → p < visible → (visible < 2 ^ 31) × (p < 2 ^ 31)
  few h = (v.few_lines, omega (arith, v.few_lines))

  pub swapping :
      (a b p : ℕ)
      → 1 ≤ p
      → a + p < b
      → b ≤ visible
      → Returns
          (Meets (length raw.inner) raw.len visible (Sunk (visible - b) (b - a) p))
          (scroll_down_swapping cell g (pos a) (pos b) p)
  unfolding scroll_down_swapping
  swapping a b p one h k =
      let size = length raw.inner in
      let lo = visible - b in
      let n = b - (a + p) in
      let from = pos a +ℤ pos p in
      let F = Sinking Row' (ring raw) p lo n in
      rw (exact_i32 p (omega (arith, v.few_lines)), exact_sum a p (omega (arith, v.few_lines)))
        (Returns-bind {P = Meets size raw.len visible F}
          (Meets size raw.len visible (Sunk lo (b - a) p))
          (for_down (range_size from (pos b)) (pos b -ℤ pos 1) (swap_up_by (pos 0 -ℤ pos p)) raw) _
          (rw (range_size-eq from (pos b) n (omega (arith, +ℤ_parts (pos a) (pos p)))) (
            sinking Row' (ring raw) size raw.len visible p one (few (omega arith)) lo
              (pos b -ℤ pos 1) n raw (omega (arith, -ℤ_parts (pos b) (pos 1)))
              (omega (arith, visible_len)) (omega arith) (at_start cell law g v)))
          λ s meets. rw (range_size-eq (pos a) from p (omega (arith, +ℤ_parts (pos a) (pos p)))) (
            Returns-map (for_down p (from -ℤ pos 1) (reset_line cell g.cursor.template) s)
              (λ t m.
                Meets-weaken size raw.len visible (Patched (lo + n) (lo + n + p) blank' F)
                  (Sunk lo (b - a) p)
                  (λ i r _ t. (
                    Patched-all (lo + n) (lo + n + p) blank' F Row' i r (fill-IsRow cell law g v)
                        (λ f. f.0) t,
                    (
                      λ x. (t.1 (omega arith)).1 x,
                      λ x y. (t.1 (omega arith)).2 x (omega arith),
                      λ x y. t.0 (omega arith) (omega arith),
                      λ x y. (t.2 (omega arith)).3 (omega arith),
                    ),
                  ))
                  m)
              (resetting cell law columns v.has_column size raw.len visible F s (from -ℤ pos 1)
                (lo + n) p g.cursor.template meets
                (omega (arith, +ℤ_parts (pos a) (pos p), -ℤ_parts from (pos 1)))
                (omega (arith, visible_len)) (λ _ _ f. f.0))))

  -- The rows once those below the region are back in their places and the rotation is done.
  abbrev Turned : ℕ → ℕ → ℕ → Row T → Type 0
  Turned p lo k r =
      Row' r × (k < lo → Old (ring raw) k r) × (lo ≤ k → k + p < raw.len → Old (ring raw) (k + p) r)

  unwrapped : (n p k : ℕ) → p ≤ n → k + p < n → wrap_index n p k ≡ k + p
  unwrapped n p k h l = ground arith

  turning :
      (lo p : ℕ) (s : Storage T)
      → lo + p ≤ raw.len
      → 1 ≤ p
      → Meets (length raw.inner) raw.len visible (Saving Row' (ring raw) p lo lo) s
      → Returns (Meets (length raw.inner) raw.len visible (Turned p lo)) (Storage.rotate_down s p)
  turning lo p s h one m =
      Returns-map (Storage.rotate_down s p)
        (rotated-Meets (length raw.inner) raw.len visible (Saving Row' (ring raw) p lo lo)
          (Turned p lo) s p m (omega (arith, m.valid.len_le, m.same_len, m.same_size))
          λ k r lt f. (f.0, λ x. below k r lt x f, λ x y. above k r lt x y f))
        (rotate_down-Holds s m.valid p (omega (arith, m.valid.len_le, m.same_len, m.same_size)))
    where
      short : raw.len ≤ length raw.inner
      short = v.rows.valid.len_le

      below :
          (k : ℕ) (r : Row T)
          → k < length raw.inner
          → k < lo
          → Saving Row' (ring raw) p lo lo (wrap_index (length raw.inner) p k) r
          → Old (ring raw) k r
      below k r lt x f =
          let e = unwrapped (length raw.inner) p k (omega (arith, short)) (omega (arith, short)) in
          let (_, _, q, _) = subst (λ i. Saving Row' (ring raw) p lo lo i r) e f in
          subst (λ i. Old (ring raw) i r) (omega arith) (q (omega arith) (omega arith))

      above :
          (k : ℕ) (r : Row T)
          → k < length raw.inner
          → lo ≤ k
          → k + p < raw.len
          → Saving Row' (ring raw) p lo lo (wrap_index (length raw.inner) p k) r
          → Old (ring raw) (k + p) r
      above k r lt x y f =
          let e = unwrapped (length raw.inner) p k (omega (arith, short)) (omega (arith, short)) in
          let (_, _, _, q) = subst (λ i. Saving Row' (ring raw) p lo lo i r) e f in q (omega arith)

  pub rotating :
      (a b p : ℕ)
      → max_scroll_limit ≡ 0
      → 1 ≤ p
      → a + p < b
      → b ≤ visible
      → Returns
          (Meets (length raw.inner) raw.len visible (Sunk (visible - b) (b - a) p))
          (scroll_down_rotating cell g (pos a) (pos b) p)
  unfolding scroll_down_rotating
  rotating a b p no_history one h k =
      let size = length raw.inner in
      let lo = visible - b in
      let goal = Meets size raw.len visible (Sunk lo (b - a) p) in
      let exact : raw.len ≡ visible = omega (arith, visible_len, v.history_le) in
      rw
        (
          exact_i32 p (omega (arith, v.few_lines)),
          exact_i32 visible v.few_lines,
          range_size-eq (pos b) (pos visible) lo (omega arith),
        )
        (Returns-bind {P = Meets size raw.len visible (Saving Row' (ring raw) p lo lo)} goal
          (for_up lo (pos b) (swap_up_by (pos 0 -ℤ pos p)) raw) _
          (saving Row' (ring raw) size raw.len visible p one (few (omega arith)) lo (pos b) raw
            (omega arith) (omega (arith, exact)) (omega arith) (at_start cell law g v))
          λ s saved.
            Returns-bind {P = Meets size raw.len visible (Turned p lo)} goal
              (Storage.rotate_down s p) _ (turning lo p s (omega (arith, exact)) one saved)
              λ t turned.
                Returns-bind
                  {P = Meets size raw.len visible
                    (Patched (visible - p) visible blank' (Turned p lo))}
                  goal (reset_lines cell g.cursor.template (pos 0) (pos p) t) _
                  (reset_lines-Meets cell law columns v.has_column size raw.len visible
                    (Turned p lo) t (pos 0) (pos p) visible p g.cursor.template turned (omega arith)
                    (range_size-eq (pos 0) (pos p) p (omega arith)) (omega arith)
                    (omega (arith, exact)) (λ _ _ f. f.0))
                  λ u blank. rw (range_size-eq (pos 0) (pos a) a (omega arith)) (
                    Returns-map (for_up a (pos 0) (swap_up_by (pos p)) u)
                      (λ w m.
                        Meets-weaken size raw.len visible
                          (Settling Row' (ring raw) p blank' visible lo a) (Sunk lo (b - a) p)
                          (λ i r _ f. (
                            f.0,
                            (
                              λ x. f.1 x,
                              λ x y. f.2 x (omega arith),
                              λ x y. f.3 (omega arith) (omega arith),
                              λ x y. f.4 (omega arith) (omega (arith, exact)),
                            ),
                          ))
                          m)
                      (settling Row' (ring raw) size raw.len visible p one (few (omega arith))
                        blank' lo a u (omega arith) (omega (arith, exact))
                        (Meets-weaken size raw.len visible
                          (Patched (visible - p) visible blank' (Turned p lo))
                          (Settling Row' (ring raw) p blank' visible lo 0)
                          (λ i r _ f. (
                            Patched-all (visible - p) visible blank' (Turned p lo) Row' i r
                                (fill-IsRow cell law g v) (λ q. q.0) f,
                            λ x. (f.1 (omega arith)).1 x,
                            λ x y. (f.1 (omega arith)).2 x (omega (arith, exact)),
                            λ x y. f.0 (omega arith) (omega arith),
                            λ x y. absurd (omega arith),
                          ))
                          blank))))

  -- The reset of a whole region.
  pub emptied :
      (a b : ℕ)
      → a < b
      → b ≤ visible
      → Returns
          (Meets (length raw.inner) raw.len visible (Sunk (visible - b) (b - a) (b - a)))
          (reset_lines cell g.cursor.template (pos a) (pos b) raw)
  emptied a b h k =
      let size = length raw.inner in
      let n = b - a in
      let hi = visible - a in
      let F = λ (i : ℕ) (r : Row T). Row' r × Old (ring raw) i r in
      Returns-map (reset_lines cell g.cursor.template (pos a) (pos b) raw)
        (λ t meets.
          Meets-weaken size raw.len visible (Patched (hi - n) hi blank' F) (Sunk (visible - b) n n)
            (λ i r _ t. (
              Patched-all (hi - n) hi blank' F Row' i r (fill-IsRow cell law g v) (λ f. f.0) t,
              (
                λ x. (t.1 (omega arith)).1,
                λ x y. absurd (omega arith),
                λ x y. t.0 (omega arith) (omega arith),
                λ x y. (t.2 (omega arith)).1,
              ),
            ))
            meets)
        (reset_lines-Meets cell law columns v.has_column size raw.len visible F raw (pos a) (pos b)
          hi n g.cursor.template (at_start cell law g v) (omega arith)
          (range_size-eq (pos a) (pos b) n (omega arith)) (omega arith) (omega (arith, visible_len))
          (λ _ _ f. f.0))
