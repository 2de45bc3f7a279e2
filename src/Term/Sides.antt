-- ===== src/Term/Sides.antt =====
-- What leaves the modes of the terminal as they are in cutty_terminal/src/term/mod.rs: the swap of the
-- screens but for its own flag, going home, and `deccolm`.
use cu_tty.Prelude.{
  ℕ, ◌^◌, ◌<◌, ◌≡◌, refl, sym, ap, Bool, true, false, not, Option, none, some, arith, Returns,
  Returns-bind, Returns-map, subst, if◌then◌else◌, ◌>>=◌, inl, inr, leb_cases,
}
use cu_tty.Prelude.Int.{ℤ, pos, pos_part, neg_part, ◌+ℤ◌, ◌-ℤ◌}
use cu_tty.Prelude.Machine.{IsI32, as_i32, sub_i32, min_ℤ, wrap_i32}
use cu_tty.Row.{GridCell, IsLawful}
use cu_tty.Cell.{Cell, Palette, grid_cell}
use cu_tty.Grid.{Grid, Cursor, reset_region}
use cu_tty.Grid.Valid.{IsSound, exact_i32}
use cu_tty.Grid.Region.{RegionReset, reset_region_lem}
use cu_tty.Term.{Term, Modes, mark_fully_damaged}
use cu_tty.Term.Moves.{goto, set_scrolling_region}
use cu_tty.Term.Motion.{IsPlaced, goto_lem}
use cu_tty.Term.Stacks.{swap_alt, last_mode}
use cu_tty.Term.Erase.{deccolm}

with_cursor-IsSound :
    {T : Type 0} (cell : GridCell T) (g : Grid T) (c : Cursor T)
    → IsSound cell g
    → IsSound cell (record g { cursor = c })
with_cursor-IsSound cell g c v = record {
  rows = v.rows;
  has_column = v.has_column;
  has_line = v.has_line;
  few_lines = v.few_lines;
  history_le = v.history_le;
}

-- The whole screen can be reset.
reset_screen :
    {T : Type 0} (cell : GridCell T) (law : IsLawful cell) (g : Grid T) (v : IsSound cell g)
    → Returns (RegionReset cell 0 g.lines g) (reset_region cell g (pos 0) (as_i32 g.lines))
reset_screen cell law g v = rw (exact_i32 g.lines v.few_lines) (
    reset_region_lem cell law g v 0 g.lines (omega arith) (omega arith) (omega (arith, v.has_line)))

module _ {T S K : Type 0} (cell : GridCell T) (law : IsLawful cell) (no_mode : K) where
  -- The other screen is shown, with its modes of the keyboard.
  abbrev pub Swapped : Term T S K → Term T S K → Type 0
  Swapped t t' =
      t'.mode ≡ record t.mode { keyboard = t'.mode.keyboard; alt_screen = not t.mode.alt_screen }

  pub swap_alt-Swapped :
      (t : Term T S K)
      → IsSound cell t.inactive_grid
      → Returns (Swapped t) (swap_alt no_mode cell t)
  unfolding swap_alt
  swap_alt-Swapped t v = by_screen t.mode.alt_screen
    where
      shown : Term T S K → Option (Term T S K)
      shown u =
          let swapped = record u {
            keyboard_mode_stack = u.inactive_keyboard_mode_stack;
            inactive_keyboard_mode_stack = u.keyboard_mode_stack;
            grid = u.inactive_grid;
            inactive_grid = u.grid;
            selection = none;
          } in
          some (
            mark_fully_damaged (record swapped {
              mode = record swapped.mode {
                keyboard = last_mode no_mode swapped.keyboard_mode_stack;
                alt_screen = not swapped.mode.alt_screen;
              };
            }))

      entered : Grid T
      entered = record t.inactive_grid { cursor = t.grid.cursor }

      enter : Option (Term T S K)
      enter = reset_region cell entered (pos 0) (as_i32 entered.lines) >>= λ inactive.
          some (record t {
            inactive_grid = inactive;
            grid = record t.grid { saved_cursor = t.grid.cursor };
          })

      first : (b : Bool) → Returns (λ u. u.mode ≡ t.mode) (if not b then enter else some t)
      first true = refl
      first false =
          Returns-bind (λ u. u.mode ≡ t.mode)
            (reset_region cell entered (pos 0) (as_i32 entered.lines)) _
            (reset_screen cell law entered
              (with_cursor-IsSound cell t.inactive_grid t.grid.cursor v))
            (λ g r. refl)

      by_screen : (b : Bool) → Returns (Swapped t) ((if not b then enter else some t) >>= shown)
      by_screen b =
          Returns-bind (Swapped t) (if not b then enter else some t) shown (first b) (λ u h.
            ap
              (λ (m : Modes K). record m {
                keyboard = last_mode no_mode u.inactive_keyboard_mode_stack;
                alt_screen = not m.alt_screen;
              })
              h)

-- The region that `deccolm` asks for.
full_region :
    (lines : ℕ)
    → lines < 2 ^ 31
    → (min_ℤ (sub_i32 (as_i32 1) (pos 1)) (as_i32 lines) ≡ pos 0)
      × (min_ℤ (as_i32 lines) (as_i32 lines) ≡ pos lines)
unfolding wrap_i32 ◌-ℤ◌
full_region lines h = (ground arith, ground arith)

zero_plus : (a : ℤ) → neg_part a ≡ 0 → pos_part a < 2 ^ 31 → IsI32 (pos 0 +ℤ a)
unfolding ◌+ℤ◌
zero_plus a h k = ground arith

module _ {T S K : Type 0} where
  -- Going home changes no mode, and no row.
  pub home :
      (t : Term T S K)
      → IsPlaced t
      → Returns
          (λ t'. (t'.mode ≡ t.mode) × (t'.grid ≡ record t.grid { cursor = t'.grid.cursor }))
          (goto (pos 0) 0 t)
  home t v =
      Returns-map (goto (pos 0) 0 t) (λ t' m. (m.5, m.4))
        (goto_lem t (pos 0) 0 v (omega arith, omega arith)
          (zero_plus t.region_start v.region_start_le.0
            (omega (arith, v.region_start_le, v.few_lines))))

  pub with_mode-IsPlaced :
      (t : Term T S K) (m : Modes K) → IsPlaced t → IsPlaced (record t { mode = m })
  with_mode-IsPlaced t m v = record {
    on_screen = v.on_screen;
    damaged = v.damaged;
    few_lines = v.few_lines;
    region_start_le = v.region_start_le;
    region_end_le = v.region_end_le;
  }

  whole_screen :
      (t : Term T S K) (start end : ℤ)
      → IsPlaced t
      → start ≡ pos 0
      → end ≡ pos t.grid.lines
      → IsPlaced (record t { region_start = start; region_end = end })
  whole_screen t start end v e f = record {
    on_screen = v.on_screen;
    damaged = v.damaged;
    few_lines = v.few_lines;
    region_start_le = omega (arith, ap pos_part e, ap neg_part e);
    region_end_le = omega (arith, v.on_screen, ap pos_part f, ap neg_part f);
  }

module _ {C H S K : Type 0} (palette : Palette C) (law : IsLawful (grid_cell {H = H} palette)) where
  region-mode :
      (t : Term (Cell C H) S K)
      → IsPlaced t
      → IsSound (grid_cell palette) t.grid
      → Returns
          (λ u. (u.mode ≡ t.mode) × IsSound (grid_cell palette) u.grid)
          (set_scrolling_region 1 none t)
  unfolding set_scrolling_region
  region-mode t v s = elim (leb_cases t.grid.lines 1) [
    | inl (e, _) ↦ rw e (refl, s)
    | inr (e, _) ↦ rw e (
        Returns-map (goto (pos 0) 0 whole)
          (λ u (mode, same). (
            mode,
            subst (IsSound (grid_cell palette)) (sym same)
                (with_cursor-IsSound (grid_cell palette) t.grid u.grid.cursor s),
          ))
          (home whole (
            whole_screen t start end v (full_region t.grid.lines v.few_lines).0
              (full_region t.grid.lines v.few_lines).1)))
  ]
    where
      start : ℤ
      start = min_ℤ (sub_i32 (as_i32 1) (pos 1)) (as_i32 t.grid.lines)

      end : ℤ
      end = min_ℤ (as_i32 t.grid.lines) (as_i32 t.grid.lines)

      whole : Term (Cell C H) S K
      whole = record t { region_start = start; region_end = end }

  pub deccolm-mode :
      (t : Term (Cell C H) S K)
      → IsPlaced t
      → IsSound (grid_cell palette) t.grid
      → Returns (λ t'. t'.mode ≡ t.mode) (deccolm palette t)
  unfolding deccolm
  deccolm-mode t v s =
      Returns-bind (λ t'. t'.mode ≡ t.mode) (set_scrolling_region 1 none t) _ (region-mode t v s)
        (λ u (mode, sound).
          Returns-bind (λ t'. t'.mode ≡ t.mode)
            (reset_region (grid_cell palette) u.grid (pos 0) (as_i32 u.grid.lines)) _
            (reset_screen (grid_cell palette) law u.grid sound) (λ g r. mode))
