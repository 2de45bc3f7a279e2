-- ===== src/Grid/ScrollUp.antt =====
-- The two branches of `Grid::scroll_up` in grid/mod.rs, place by place.
use cu_tty.Prelude.{
  ℕ, zero, suc, ◌+◌, ◌-◌, ◌^◌, ◌≤◌, ◌<◌, ◌≡◌, refl, ◌∙◌, sym, some, List, length, get_elem?, arith,
  Returns, Returns-map, Returns-bind, Returns-self, All, subst, inl, inr, le→leb, ==_cases, take,
  ◌>>=◌,
}
use cu_tty.Prelude.Int.{pos, negsuc, ◌-ℤ◌, -ℤ_parts, int_laws}
use cu_tty.Prelude.Index.{get_elem?-take, All-at, All_intro, All-rotated}
use cu_tty.Prelude.Rotation.{wrap_index}
use cu_tty.Row.{GridCell, IsLawful, Row}
use cu_tty.Row
use cu_tty.Row.Valid
use cu_tty.Storage.{Storage}
use cu_tty.Storage
use cu_tty.Storage.Ring.{ring, lines, length-ring, length-lines}
use cu_tty.Storage.Rotate.{rotate-Holds}
use cu_tty.Storage.Resize.{Grown, initialize-Grown, All-ring}
use cu_tty.Grid.{
  Grid, history, reset_lines, for_up, for_down, range_size, swap_up_by, scroll_up_swapping,
  scroll_up_rotating, increase_scroll_limit,
}
use cu_tty.Grid.Loops.{Meets, Meets-weaken, rotated-Meets}
use cu_tty.Grid.Valid.{
  IsRow, IsSound, added, blank_row, range_size-eq, Patched, Patched-all, reset_lines-Meets,
  blank_row-IsRow, exact_i32, exact_difference,
}
use cu_tty.Grid.Swaps.{Old, Rising, Fixing, rising, fixing, Moved}

neg_suc : (q : ℕ) → pos 0 -ℤ pos (suc q) ≡ negsuc q
neg_suc q = omega (int_laws)

-- Where a rotation to the right by `p` takes the rows that it does not wrap.
wrapped : (n p k : ℕ) → p ≤ n → p ≤ k → k < n → wrap_index n (n - p) k ≡ k - p
wrapped n p k h l lt = ground arith

module _ {T : Type 0} (cell : GridCell T) (law : IsLawful cell) (g : Grid T)
    (v : IsSound cell g) where
  open g use {columns, display_offset, max_scroll_limit, raw}
  open g use {lines as visible}

  abbrev pub Good : Row T → Type 0
  Good = IsRow cell columns

  abbrev pub fill : Row T
  fill = blank_row cell columns g.cursor.template

  pub lines_long : length (lines raw) ≡ raw.len
  lines_long = length-lines raw v.rows.valid

  pub agree : (k : ℕ) → k < length (lines raw) → get_elem? (ring raw) k ≡ get_elem? (lines raw) k
  agree k h = sym (get_elem?-take raw.len (ring raw) k (omega (arith, lines_long)))

  pub at_start : Meets (length raw.inner) raw.len visible (λ k r. Good r × Old (ring raw) k r) raw
  at_start = record {
    valid = v.rows.valid;
    same_size = refl;
    same_len = refl;
    same_visible = v.rows.same_visible;
    at = λ k h. Returns-self Good (get_elem? (ring raw) k) (v.rows.at k h);
  }

  module _ (size len : ℕ) (R : List (Row T)) where
    -- The rows are those of the grid's width, and moved as said.
    abbrev pub Scrolled : ℕ → ℕ → ℕ → ℕ → Row T → Type 0
    Scrolled f m p k r = Good r × Moved len f m p fill R k r

    -- The reset that ends `scroll_up`.
    clear_leftovers :
        (F : ℕ → Row T → Type 0) (s : Storage T) (b f m p : ℕ)
        → b + f ≡ visible
        → f + p ≤ len
        → ((k : ℕ) (r : Row T) → F k r → Good r)
        → ((k : ℕ) (r : Row T) → Patched (f + p - p) (f + p) fill F k r → Scrolled f m p k r)
        → Meets size len visible F s
        → Returns
            (Meets size len visible (Scrolled f m p))
            (reset_lines cell g.cursor.template (pos b -ℤ pos p) (pos b) s)
    clear_leftovers F s b f m p e h row done meets =
        Returns-map (reset_lines cell g.cursor.template (pos b -ℤ pos p) (pos b) s)
          (λ t meets'.
            Meets-weaken size len visible (Patched (f + p - p) (f + p) fill F) (Scrolled f m p)
              (λ k r _. done k r) meets')
          (reset_lines-Meets cell law columns v.has_column size len visible F s (pos b -ℤ pos p)
            (pos b) (f + p) p g.cursor.template meets (omega (arith, -ℤ_parts (pos b) (pos p)))
            (range_size-eq (pos b -ℤ pos p) (pos b) p (omega (arith, -ℤ_parts (pos b) (pos p))))
            (omega arith) h row)

  pub fill-IsRow : Good fill
  fill-IsRow = blank_row-IsRow cell law columns v.has_column g.cursor.template

  -- The swaps, then the reset of the leftovers.
  pub region :
      (a b p : ℕ)
      → 1 ≤ p
      → a + p < b
      → b ≤ visible
      → Returns
          (Meets
            (length raw.inner)
            raw.len
            visible
            (Scrolled (length raw.inner) raw.len (ring raw) (visible - b) (b - a) p))
          (scroll_up_swapping cell g (pos a) (pos b) p
            >>= reset_lines cell g.cursor.template (pos b -ℤ pos p) (pos b))
  unfolding scroll_up_swapping
  region a b p one h k =
      let size = length raw.inner in
      let F = Rising Good (ring raw) p (visible - a) (b - p - a) in
      let few : (visible < 2 ^ 31) × (p < 2 ^ 31) = (v.few_lines, omega (arith, v.few_lines)) in
      rw (exact_i32 p few.1, exact_difference b p (omega (arith, few)) few.1)
        (Returns-bind
          (Meets size raw.len visible (Scrolled size raw.len (ring raw) (visible - b) (b - a) p))
          (for_up (range_size (pos a) (pos b -ℤ pos p)) (pos a) (swap_up_by (pos p)) raw) _
          (rw
            (range_size-eq (pos a) (pos b -ℤ pos p) (b - p - a)
              (omega (arith, -ℤ_parts (pos b) (pos p))))
            (rising Good (ring raw) size raw.len visible p one few (visible - a) (pos a) (b - p - a)
              raw (omega arith) (omega (arith, v.rows.valid.visible_le, v.rows.same_visible))
              (omega arith) (omega arith) at_start))
          λ s meets.
            clear_leftovers size raw.len (ring raw) F s b (visible - b) (b - a) p (omega arith)
              (omega (arith, v.rows.valid.visible_le, v.rows.same_visible)) (λ k r f. f.0)
              (λ i r t. (
                Patched-all (visible - b + p - p) (visible - b + p) fill F Good i r fill-IsRow
                    (λ f. f.0) t,
                (
                  λ x. (t.1 (omega arith)).1 (omega arith),
                  λ x y. t.0 (omega arith) y,
                  λ x y. (t.2 x).2 (omega arith) (omega arith),
                  λ x y. (t.2 (omega arith)).3 (omega arith),
                ),
              ))
              meets)

  -- What `increase_scroll_limit` leaves.
  pub record Raised (c : ℕ) (s : Storage T) : Type 0 where
    pub meets : Meets (length s.inner) (raw.len + c) visible (λ k r. Good r × Old (ring s) k r) s
    pub below : take raw.len (ring s) ≡ lines raw

  raise :
      (p : ℕ)
      → Returns
          (λ g'. Raised (added g p) g'.raw × (g'.lines ≡ visible))
          (increase_scroll_limit cell g p)
  unfolding increase_scroll_limit
  raise p = rw (le→leb (history g) max_scroll_limit v.history_le) (elim (==_cases (added g p) 0) [
    | inl (e, z) ↦ rw e (
      record {
        meets =
            subst (λ n. Meets (length raw.inner) n visible (λ k r. Good r × Old (ring raw) k r) raw)
              (omega arith) at_start;
        below = refl;
      },
      refl,
    )
    | inr (e, z) ↦ rw e (
        Returns-bind {P = Grown Good raw (added g p)}
          (λ g'. Raised (added g p) g'.raw × (g'.lines ≡ visible))
          (Storage.initialize cell raw (added g p) columns) _
          (initialize-Grown Good cell raw (added g p) columns v.rows.valid v.has_column all_good
            (λ r e. new_good r e))
          (λ s w. (larger s w, refl)))
  ])
    where
      all_good : All Good raw.inner
      all_good =
          All-rotated Good raw.zero raw.inner
            (All_intro Good (ring raw) (λ k h. v.rows.at k (omega (arith, length-ring raw))))

      new_good : (r : Row T) → Row.new cell columns ≡ some r → Good r
      new_good r e =
          let (q, w) =
            subst (Returns (λ r'. Valid.IsValid cell cell.default r' × (length r'.inner ≡ columns)))
              e (Valid.new-IsValid cell law columns v.has_column) in
          record { template = cell.default; valid = q; width = w }

      larger : (s : Storage T) → Grown Good raw (added g p) s → Raised (added g p) s
      larger s w = record {
        meets = record {
          valid = w.valid;
          same_size = refl;
          same_len = w.new_len;
          same_visible = w.same_visible ∙ v.rows.same_visible;
          at = λ k h.
              Returns-self Good (get_elem? (ring s) k)
                (All-at Good (ring s) (All-ring Good s w.kept) k (omega (arith, length-ring s)));
        };
        below = w.old_lines;
      }

  -- What is left of the new lines once the fixed rows are back.
  abbrev Turned : ℕ → ℕ → Storage T → Type 0
  Turned p f u =
      (s : Storage T) × Raised (added g p) s
      × Meets (length s.inner) (raw.len + added g p) visible (Fixing Good (ring s) p f) u

  rotated :
      (p b : ℕ)
      → 1 ≤ p
      → p ≤ b
      → b ≤ visible
      → Returns (Turned p (visible - b)) (scroll_up_rotating cell g (pos 0) (pos b) p)
  unfolding scroll_up_rotating for_down
  rotated p b one h k =
      Returns-bind {P = λ g'. Raised (added g p) g'.raw × (g'.lines ≡ visible)}
        (Turned p (visible - b)) (increase_scroll_limit cell g p) _ (raise p)
        λ g' (r, same).
          rw
            (
              range_size-eq (pos 0) (pos 0) 0 (omega arith),
              same,
              exact_i32 p (omega (arith, v.few_lines)),
              exact_i32 visible v.few_lines,
            )
            (Returns-bind (Turned p (visible - b)) (Storage.rotate g'.raw (pos 0 -ℤ pos p)) _
              (turn p g'.raw one
                (omega (
                  arith, v.rows.valid.visible_le, v.rows.same_visible, r.meets.valid.len_le,
                  r.meets.same_len,
                ))
                r.meets)
              λ t meets. rw (range_size-eq (pos b) (pos visible) (visible - b) (omega arith)) (
                Returns-map
                  (for_down (visible - b) (pos visible -ℤ pos 1) (swap_up_by (pos 0 -ℤ pos p)) t)
                  (λ u m. (g'.raw, r, m))
                  (fixing Good (ring g'.raw) (length g'.raw.inner) (raw.len + added g p) visible p
                    one (v.few_lines, omega (arith, v.few_lines)) (visible - b) t
                    (omega (arith, v.rows.valid.visible_le, v.rows.same_visible)) (omega arith)
                    meets)))
    where
      turn :
          (p : ℕ) (s : Storage T) {len : ℕ}
          → 1 ≤ p
          → p ≤ length s.inner
          → Meets (length s.inner) len visible (λ k r. Good r × Old (ring s) k r) s
          → Returns
              (Meets (length s.inner) len visible (Fixing Good (ring s) p 0))
              (Storage.rotate s (pos 0 -ℤ pos p))
      turn zero s one h m = absurd (omega arith)
      turn (suc q) s {len} one h m = rw (neg_suc q) (
          Returns-map (Storage.rotate s (negsuc q))
            (λ t holds.
              rotated-Meets (length s.inner) len visible (λ k r. Good r × Old (ring s) k r)
                (Fixing Good (ring s) (suc q) 0) s (length s.inner - suc q) m (omega arith)
                (λ k r lt f. (
                  f.0,
                  λ x. absurd (omega arith),
                  λ x.
                      subst (λ i. Old (ring s) i r)
                        (wrapped (length s.inner) (suc q) k h (omega arith) lt) f.1,
                ))
                t holds)
            ((rotate-Holds s m.valid).1 q h))

  -- What is left of the new lines once the leftovers are blank.
  abbrev pub Topped : ℕ → ℕ → Storage T → Type 0
  Topped p f u =
      (s : Storage T) × Raised (added g p) s
      × Meets (length s.inner) (raw.len + added g p) visible
          (Scrolled (length s.inner) (raw.len + added g p) (ring s) f (raw.len + added g p - f) p) u

  pub top :
      (p b : ℕ)
      → 1 ≤ p
      → p ≤ b
      → b ≤ visible
      → Returns (Topped p (visible - b)) (
          scroll_up_rotating cell g (pos 0) (pos b) p
          >>= reset_lines cell g.cursor.template (pos b -ℤ pos p) (pos b))
  top p b one h k =
      Returns-bind {P = Turned p (visible - b)} (Topped p (visible - b))
        (scroll_up_rotating cell g (pos 0) (pos b) p) _ (rotated p b one h k)
        λ u (s, r, meets).
          let F = Fixing Good (ring s) p (visible - b) in
          let len = raw.len + added g p in
          Returns-map (reset_lines cell g.cursor.template (pos b -ℤ pos p) (pos b) u)
            (λ w m. (s, r, m))
            (clear_leftovers (length s.inner) len (ring s) F u b (visible - b) (len - (visible - b))
              p (omega arith) (omega (arith, v.rows.valid.visible_le, v.rows.same_visible))
              (λ k r f. f.0)
              (λ i r t. (
                Patched-all (visible - b + p - p) (visible - b + p) fill F Good i r fill-IsRow
                    (λ f. f.0) t,
                (
                  λ x. (t.1 (omega arith)).1 x,
                  λ x y. t.0 (omega arith) y,
                  λ x y. (t.2 x).2 x,
                  λ x y. absurd (omega (arith, v.rows.valid.visible_le, v.rows.same_visible)),
                ),
              ))
              meets)

  -- The reset of a whole region.
  pub all_blank :
      (a b : ℕ)
      → a < b
      → b ≤ visible
      → Returns
          (Meets
            (length raw.inner)
            raw.len
            visible
            (Scrolled (length raw.inner) raw.len (ring raw) (visible - b) (b - a) (b - a)))
          (reset_lines cell g.cursor.template (pos a) (pos b) raw)
  all_blank a b h k =
      let size = length raw.inner in
      let n = b - a in
      let hi = visible - a in
      let F = λ (i : ℕ) (r : Row T). Good r × Old (ring raw) i r in
      Returns-map (reset_lines cell g.cursor.template (pos a) (pos b) raw)
        (λ t meets.
          Meets-weaken size raw.len visible (Patched (hi - n) hi fill F)
            (Scrolled size raw.len (ring raw) (visible - b) n n)
            (λ i r _ t. (
              Patched-all (hi - n) hi fill F Good i r fill-IsRow (λ f. f.0) t,
              (
                λ x. (t.1 (omega arith)).1,
                λ x y. t.0 (omega arith) (omega arith),
                λ x y. absurd (omega arith),
                λ x y. (t.2 (omega arith)).1,
              ),
            ))
            meets)
        (reset_lines-Meets cell law columns v.has_column size raw.len visible F raw (pos a) (pos b)
          hi n g.cursor.template at_start (omega arith)
          (range_size-eq (pos a) (pos b) n (omega arith)) (omega arith)
          (omega (arith, v.rows.valid.visible_le, v.rows.same_visible)) (λ _ _ f. f.0))
