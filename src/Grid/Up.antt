-- ===== src/Grid/Up.antt =====
-- `Grid::scroll_up` of grid/mod.rs against `moved_up`.
use cu_tty.Prelude.{
  get_elem?, ℕ, ◌+◌, ◌-◌, ◌^◌, ◌≤◌, ◌<◌, ◌≡◌, refl, ◌∙◌, sym, ap, true, false, Bool, some, length,
  arith, Returns, Returns-map, Returns-bind, min, inl, inr, leb, ◌==◌, if◌then◌else◌, ◌&&◌, ◌>>=◌,
  >>=_assoc, leb_cases, le→leb, lt→leb_false,
}
use cu_tty.Prelude.Int.{pos, pos_part, neg_part, ◌-ℤ◌, -ℤ_parts}
use cu_tty.Prelude.Machine.{leb_ℤ, as_i32, sub_i32}
use cu_tty.Prelude.Index.{get_elem?-take}
use cu_tty.Row.{GridCell, IsLawful}
use cu_tty.Storage.{Storage}
use cu_tty.Storage.Ring.{lines, ring, length-lines}
use cu_tty.Grid.{Grid, history, reset_lines, scroll_up, scroll_up_swapping, scroll_up_rotating}
use cu_tty.Grid.Loops.{Meets, Meets-weaken}
use cu_tty.Grid.Valid.{added, IsRow, IsSound, IsValid, blank_row, exact_i32, exact_difference}
use cu_tty.Grid.Rows.{moved_up}
use cu_tty.Grid.Swaps.{finish}
use cu_tty.Grid.ScrollUp.{region, all_blank, top, agree}

module _ {T : Type 0} (cell : GridCell T) (law : IsLawful cell) (g : Grid T) where
  -- The display offset after a scroll by `p`.
  abbrev pub moved_offset : ℕ → ℕ
  moved_offset p =
      if g.display_offset == 0 then 0 else min (g.display_offset + p) g.max_scroll_limit

  abbrev with_offset : ℕ → Grid T
  with_offset p = record g { display_offset = moved_offset p }

  -- The order of the tests, for a region that begins below the top.
  region_branch :
      (a b p : ℕ)
      → 1 ≤ a
      → a + p < b
      → b < 2 ^ 31
      → scroll_up cell g (pos a) (pos b) p ≡ (
          scroll_up_swapping cell (with_offset p) (pos a) (pos b) p
          >>= reset_lines cell g.cursor.template (pos b -ℤ pos p) (pos b)
          >>= (λ raw. some (record (with_offset p) { raw = raw })))
  unfolding scroll_up
  region_branch a b p low h few =
      rw
        (
          exact_difference b a few (omega arith),
          exact_i32 p (omega arith),
          exact_difference b p few (omega arith),
          lt→leb_false (pos_part (pos b -ℤ pos a) + 0) (p + neg_part (pos b -ℤ pos a))
              (omega (arith, -ℤ_parts (pos b) (pos a))),
          eq_false a low,
        )
        (sym (
          >>=_assoc (scroll_up_swapping cell (with_offset p) (pos a) (pos b) p)
            (reset_lines cell g.cursor.template (pos b -ℤ pos p) (pos b)) _))
    where
      eq_false : (a : ℕ) → 1 ≤ a → (a + 0 == 0) ≡ false
      eq_false a h = ground arith

  whole_branch :
      (a b p : ℕ)
      → 1 ≤ a
      → a < b
      → b ≤ a + p
      → b < 2 ^ 31
      → p < 2 ^ 31
      → scroll_up cell g (pos a) (pos b) p ≡ (
          reset_lines cell g.cursor.template (pos a) (pos b) g.raw
          >>= (λ raw. some (record g { raw = raw })))
  unfolding scroll_up
  whole_branch a b p low lt h few small = rw (
    exact_difference b a few (omega arith),
    exact_i32 p small,
    le→leb (pos_part (pos b -ℤ pos a) + 0) (p + neg_part (pos b -ℤ pos a)) (sizes a b p h),
    eq_false a low,
  )
    where
      eq_false : (a : ℕ) → 1 ≤ a → (a + 0 == 0) ≡ false
      eq_false a h = ground arith

      sizes :
          (a b p : ℕ) → b ≤ a + p → pos_part (pos b -ℤ pos a) + 0 ≤ p + neg_part (pos b -ℤ pos a)
      sizes a b p h = omega (arith, -ℤ_parts (pos b) (pos a))

  top_branch :
      (b p : ℕ)
      → p ≤ b
      → b < 2 ^ 31
      → scroll_up cell g (pos 0) (pos b) p ≡ (
          scroll_up_rotating cell (with_offset p) (pos 0) (pos b) p
          >>= reset_lines cell g.cursor.template (pos b -ℤ pos p) (pos b)
          >>= (λ raw. some (record (with_offset p) { raw = raw })))
  unfolding scroll_up
  top_branch b p h few =
      rw
        (
          and_false (leb_ℤ (sub_i32 (pos b) (pos 0)) (as_i32 p)),
          exact_i32 p (omega arith),
          exact_difference b p few (omega arith),
        )
        (sym (
          >>=_assoc (scroll_up_rotating cell (with_offset p) (pos 0) (pos b) p)
            (reset_lines cell g.cursor.template (pos b -ℤ pos p) (pos b)) _))
    where
      and_false : (t : Bool) → (t && false) ≡ false
      and_false true = refl
      and_false false = refl

  with_offset-IsSound : IsSound cell g → (o : ℕ) → IsSound cell (record g { display_offset = o })
  with_offset-IsSound v o = record {
    rows = v.rows;
    has_column = v.has_column;
    has_line = v.has_line;
    few_lines = v.few_lines;
    history_le = v.history_le;
  }

  long : IsSound cell g → length (lines g.raw) ≡ g.raw.len
  long v = length-lines g.raw v.rows.valid

  still-IsSound :
      IsSound cell g
      → (raw : Storage T) (size len o : ℕ) → len - g.lines ≤ g.max_scroll_limit
      → Meets size len g.lines (λ k r. IsRow cell g.columns r) raw
      → IsSound cell (record g { raw = raw; display_offset = o })
  still-IsSound v raw size len o h m = record {
    rows = record {
      valid = m.valid;
      same_size = refl;
      same_len = refl;
      same_visible = m.same_visible;
      at = λ k lt. m.at k (omega (arith, m.same_size));
    };
    has_column = v.has_column;
    has_line = v.has_line;
    few_lines = v.few_lines;
    history_le = omega (arith, m.same_len);
  }

  scroll_up_part :
      (v : IsSound cell g)
      → (a b p : ℕ) → 1 ≤ a
      → 1 ≤ p
      → a + p < b
      → b ≤ g.lines
      → Returns
          (λ g'.
            (lines g'.raw
              ≡ moved_up
                  (g.lines - b)
                  (b - a)
                  p
                  (blank_row cell g.columns g.cursor.template)
                  (lines g.raw))
            × (history g' ≡ history g)
            × (g'.display_offset ≡ moved_offset p)
            × (g'.cursor ≡ g.cursor)
            × IsSound cell g')
          (scroll_up cell g (pos a) (pos b) p)
  scroll_up_part v a b p low one h k =
      let w = with_offset-IsSound v (moved_offset p) in
      rw (region_branch a b p low h (omega (arith, v.few_lines))) (
        Returns-bind _
          (scroll_up_swapping cell (with_offset p) (pos a) (pos b) p
            >>= reset_lines cell g.cursor.template (pos b -ℤ pos p) (pos b))
          _ (region cell law (with_offset p) w a b p one h k)
          λ raw meets. (
            finish (length g.raw.inner) g.raw.len g.lines (g.lines - b) (b - a) p
                (blank_row cell g.columns g.cursor.template) (ring g.raw) (lines g.raw)
                (omega (arith, long v, v.rows.valid.visible_le, v.rows.same_visible)) (omega arith)
                (omega (arith, long v, v.rows.valid.visible_le, v.rows.same_visible))
                (omega (arith, long v, v.rows.valid.visible_le, v.rows.same_visible))
                (agree cell law (with_offset p) w) raw
                (Meets-weaken (length g.raw.inner) g.raw.len g.lines _ _ (λ i r _ f. f.1) meets),
            omega (arith, meets.same_len),
            refl,
            refl,
            still-IsSound v raw (length g.raw.inner) g.raw.len (moved_offset p) v.history_le
                (Meets-weaken (length g.raw.inner) g.raw.len g.lines _ _ (λ i r _ f. f.0) meets),
          ))

  -- All rows of the region leave it: they are reset in place.
  scroll_up_whole :
      (v : IsSound cell g)
      → (a b p : ℕ) → 1 ≤ a
      → a < b
      → b ≤ a + p
      → b ≤ g.lines
      → p < 2 ^ 31
      → Returns
          (λ g'.
            (lines g'.raw
              ≡ moved_up
                  (g.lines - b)
                  (b - a)
                  (b - a)
                  (blank_row cell g.columns g.cursor.template)
                  (lines g.raw))
            × (history g' ≡ history g)
            × (g'.display_offset ≡ g.display_offset)
            × (g'.cursor ≡ g.cursor)
            × IsSound cell g')
          (scroll_up cell g (pos a) (pos b) p)
  scroll_up_whole v a b p low h l k small =
      rw (whole_branch a b p low h l (omega (arith, v.few_lines)) small) (
        Returns-bind _ (reset_lines cell g.cursor.template (pos a) (pos b) g.raw) _
          (all_blank cell law g v a b h k)
          λ raw meets. (
            finish (length g.raw.inner) g.raw.len g.lines (g.lines - b) (b - a) (b - a)
                (blank_row cell g.columns g.cursor.template) (ring g.raw) (lines g.raw)
                (omega (arith, long v, v.rows.valid.visible_le, v.rows.same_visible)) (omega arith)
                (omega (arith, long v, v.rows.valid.visible_le, v.rows.same_visible))
                (omega (arith, long v, v.rows.valid.visible_le, v.rows.same_visible))
                (agree cell law g v) raw
                (Meets-weaken (length g.raw.inner) g.raw.len g.lines _ _ (λ i r _ f. f.1) meets),
            omega (arith, meets.same_len),
            refl,
            refl,
            still-IsSound v raw (length g.raw.inner) g.raw.len g.display_offset v.history_le
                (Meets-weaken (length g.raw.inner) g.raw.len g.lines _ _ (λ i r _ f. f.0) meets),
          ))

  -- On a valid grid, scrolling the region from the top of the screen to line `b` by `p > 0`, at most its height, puts `p` rows that are blank in the cursor's colour above the rows below `b`, moves all other rows up by `p` into the history, and lets the history grow by `p` up to its limit; the oldest rows beyond the limit are lost. The grid stays valid, the cursor stays, and a display offset that was not 0 follows the rows.
  pub scroll_up_top :
      (v : IsValid cell g)
      → (b p : ℕ) → 1 ≤ p
      → p ≤ b
      → b ≤ g.lines
      → Returns
          (λ g'.
            (lines g'.raw
              ≡ moved_up
                  (g.lines - b)
                  (g.raw.len + added g p - (g.lines - b))
                  p
                  (blank_row cell g.columns g.cursor.template)
                  (lines g.raw))
            × (g'.display_offset ≡ moved_offset p)
            × (g'.cursor ≡ g.cursor)
            × IsValid cell g')
          (scroll_up cell g (pos 0) (pos b) p)
  scroll_up_top v b p one h k =
      let w = with_offset-IsSound v.sound (moved_offset p) in
      rw (top_branch b p h (omega (arith, v.sound.few_lines))) (
        Returns-bind _
          (scroll_up_rotating cell (with_offset p) (pos 0) (pos b) p
            >>= reset_lines cell g.cursor.template (pos b -ℤ pos p) (pos b))
          _ (top cell law (with_offset p) w p b one h k)
          λ raw (s, r, meets).
            let len = g.raw.len + added g p in
            (
              finish (length s.inner) len g.lines (g.lines - b) (len - (g.lines - b)) p
                  (blank_row cell g.columns g.cursor.template) (ring s) (lines g.raw)
                  (omega
                    (arith, long v.sound, v.sound.rows.valid.visible_le, v.sound.rows.same_visible))
                  (omega (arith, v.sound.rows.valid.visible_le, v.sound.rows.same_visible))
                  (omega
                    (arith, long v.sound, v.sound.rows.valid.visible_le, v.sound.rows.same_visible))
                  (omega
                    (arith, long v.sound, v.sound.rows.valid.visible_le, v.sound.rows.same_visible))
                  (λ i lt.
                    sym (get_elem?-take g.raw.len (ring s) i (omega (arith, long v.sound)))
                    ∙ ap (λ xs. get_elem? xs i) r.below)
                  raw (Meets-weaken (length s.inner) len g.lines _ _ (λ i x _ f. f.1) meets),
              refl,
              refl,
              record {
                sound =
                    still-IsSound v.sound raw (length s.inner) len (moved_offset p)
                      (omega (arith, v.sound.history_le))
                      (Meets-weaken (length s.inner) len g.lines _ _ (λ i x _ f. f.0) meets);
                offset_le = offset_bound (omega (arith, meets.same_len));
              },
            ))
    where
      offset_bound : {n : ℕ} → n ≡ history g + added g p → moved_offset p ≤ n
      offset_bound e = ground (arith, v.offset_le, v.sound.history_le)

  -- On a sound grid, scrolling the region from line `a > 0` to `b > a` by `p > 0`, less than 2^31, moves its rows up by `p`, or by its height if that is less: the rows above and below the region, the number of lines and the cursor stay, and rows that are blank in the cursor's colour fill the bottom of the region. The display offset grows by `p`, up to the limit of the history, if it was not 0 and a row of the region is left.
  pub scroll_up_region :
      IsSound cell g
      → (a b p : ℕ) → 1 ≤ a
      → a < b
      → b ≤ g.lines
      → 1 ≤ p
      → p < 2 ^ 31
      → Returns
          (λ g'.
            (lines g'.raw
              ≡ moved_up
                  (g.lines - b)
                  (b - a)
                  (min p (b - a))
                  (blank_row cell g.columns g.cursor.template)
                  (lines g.raw))
            × (history g' ≡ history g)
            × (g'.display_offset ≡ (if leb b (a + p) then g.display_offset else moved_offset p))
            × (g'.cursor ≡ g.cursor)
            × IsSound cell g')
          (scroll_up cell g (pos a) (pos b) p)
  scroll_up_region v a b p low h k one small = elim (leb_cases b (a + p)) [
    | inl (e, l) ↦
        rw (e, min_right p (b - a) (omega arith)) (scroll_up_whole v a b p low h l k small)
    | inr (e, l) ↦ rw (e, min_left p (b - a) (omega arith)) (scroll_up_part v a b p low one l k)
  ]
    where
      min_left : (m n : ℕ) → m ≤ n → min m n ≡ m
      min_left m n h = omega arith

      min_right : (m n : ℕ) → n ≤ m → min m n ≡ n
      min_right m n h = omega arith

  -- On a valid grid whose display stands at the top of a history that is not at its limit, scrolling a region that begins below the top of the screen, by less than its height, leaves a display offset beyond the history.
  pub scroll_up_region_overshoots :
      IsValid cell g
      → (a b p : ℕ) → 1 ≤ a
      → 1 ≤ p
      → a + p < b
      → b ≤ g.lines
      → 0 < g.display_offset
      → g.display_offset ≡ history g
      → history g < g.max_scroll_limit
      → Returns (λ g'. history g' < g'.display_offset) (scroll_up cell g (pos a) (pos b) p)
  scroll_up_region_overshoots v a b p low one h k shown all room =
      Returns-map (scroll_up cell g (pos a) (pos b) p)
        (λ g' (rows, same, offset, _, _). over g' same offset)
        (scroll_up_part v.sound a b p low one h k)
    where
      over :
          (g' : Grid T)
          → history g' ≡ history g
          → g'.display_offset ≡ moved_offset p
          → history g' < g'.display_offset
      over g' same offset = ground (arith, same, offset)
