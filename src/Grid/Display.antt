-- ===== src/Grid/Display.antt =====
-- The display offset and the history of grid/mod.rs.
use cu_tty.Prelude.{
  ℕ, ◌+◌, ◌-◌, ◌≤◌, ◌<◌, ◌≡◌, refl, ◌∙◌, sym, ap, ltb, if◌then◌else◌, some, length, take, min,
  arith, Returns, Returns-bind, Returns-map, All, inl, inr, ltb_cases,
}
use cu_tty.Prelude.Index.{All-at, All_intro, All-rotated, take_all_lem}
use cu_tty.Row.{GridCell}
use cu_tty.Storage.{Storage}
use cu_tty.Storage
use cu_tty.Storage.Ring.{ring, lines, length-ring, length-lines}
use cu_tty.Storage.Resize.{Shrunk, shrink_lines-Shrunk, All-ring}
use cu_tty.Grid.{
  Grid, Scroll, delta, page_up, page_down, top, bottom, history, scroll_display, update_history,
}
use cu_tty.Grid.Loops.{Meets}
use cu_tty.Grid.Valid.{IsRow, IsSound}
use cu_tty.Grid.Valid

module _ {T : Type 0} (cell : GridCell T) (g : Grid T) where
  at_offset-IsSound : IsSound cell g → (o : ℕ) → IsSound cell (record g { display_offset = o })
  at_offset-IsSound v o = record {
    rows = v.rows;
    has_column = v.has_column;
    has_line = v.has_line;
    few_lines = v.few_lines;
    history_le = v.history_le;
  }

  -- However a valid grid is scrolled, it stays valid, so that the display never leaves the history; the rows and the cursor stay.
  pub scroll_display_lem :
      (scroll : Scroll)
      → Valid.IsValid cell g
      → Valid.IsValid cell (scroll_display scroll g)
        × ((scroll_display scroll g).raw ≡ g.raw)
        × ((scroll_display scroll g).cursor ≡ g.cursor)
  unfolding scroll_display
  scroll_display_lem (delta count) v =
      (record { sound = at_offset-IsSound v.sound _; offset_le = omega arith }, refl, refl)
  scroll_display_lem page_up v =
      (record { sound = at_offset-IsSound v.sound _; offset_le = omega arith }, refl, refl)
  scroll_display_lem page_down v = (
    record { sound = at_offset-IsSound v.sound _; offset_le = omega (arith, v.offset_le) },
    refl,
    refl,
  )
  scroll_display_lem top v =
      (record { sound = at_offset-IsSound v.sound _; offset_le = omega arith }, refl, refl)
  scroll_display_lem bottom v =
      (record { sound = at_offset-IsSound v.sound _; offset_le = omega arith }, refl, refl)

  module _ (v : Valid.IsValid cell g) where
    rows_good : All (IsRow cell g.columns) g.raw.inner
    rows_good = All-rotated (IsRow cell g.columns) g.raw.zero g.raw.inner (
        All_intro (IsRow cell g.columns) (ring g.raw)
          (λ k h. v.sound.rows.at k (omega (arith, length-ring g.raw))))

    -- A limit of `n` on the history, with a storage that obeys it.
    abbrev Limited : ℕ → Storage T → Type 0
    Limited n raw =
        Meets (length raw.inner) raw.len g.lines (λ k. IsRow cell g.columns) raw
        × (lines raw ≡ take (g.lines + n) (lines g.raw))
        × (raw.len ≡ min g.raw.len (g.lines + n))

    unchanged : (n : ℕ) → history g ≤ n → Limited n g.raw
    unchanged n h = (
      record {
        valid = v.sound.rows.valid;
        same_size = refl;
        same_len = refl;
        same_visible = v.sound.rows.same_visible;
        at = v.sound.rows.at;
      },
      sym (
          take_all_lem (lines g.raw) (g.lines + n) (
            omega (
              arith,
              length-lines g.raw v.sound.rows.valid,
              v.sound.rows.same_visible,
              v.sound.rows.valid.visible_le,
            ))),
      omega (arith, v.sound.rows.same_visible, v.sound.rows.valid.visible_le),
    )

    shrunk :
        (n : ℕ)
        → n < history g
        → (raw : Storage T) → Shrunk (IsRow cell g.columns) g.raw (history g - n) raw
        → Limited n raw
    shrunk n h raw s =
        let len : raw.len ≡ g.lines + n = omega (arith, s.new_len) in
        (
          record {
            valid = record {
              zero_lt = s.zero_lt;
              len_le = s.len_le;
              visible_le = omega (arith, s.same_visible, v.sound.rows.same_visible, len);
            };
            same_size = refl;
            same_len = refl;
            same_visible = s.same_visible ∙ v.sound.rows.same_visible;
            at = λ k lt.
                All-at (IsRow cell g.columns) (ring raw)
                  (All-ring (IsRow cell g.columns) raw s.kept) k (omega (arith, length-ring raw));
          },
          s.new_lines ∙ ap (λ m. take m (lines g.raw)) len,
          omega (arith, len, h),
        )

    -- Setting the limit of the history of a valid grid to `n` does not panic and leaves a valid grid with this limit: of the lines, the screen and the `n` newest of the history are kept, the cursor stays, and so does the display offset, as far as there is a history to show.
    pub update_history_lem :
        (n : ℕ)
        → Returns
            (λ g'.
              Valid.IsValid cell g'
              × (g'.max_scroll_limit ≡ n)
              × (lines g'.raw ≡ take (g.lines + n) (lines g.raw))
              × (g'.display_offset ≡ min g.display_offset n)
              × (g'.cursor ≡ g.cursor))
            (update_history g n)
    unfolding update_history
    update_history_lem n =
        Returns-bind {P = Limited n} _
          (if ltb n (history g) then Storage.shrink_lines g.raw (history g - n) else some g.raw) _
          (elim (ltb_cases n (history g)) [
            | inl (e, h) ↦ rw e (
                Returns-map {Q = Limited n} (Storage.shrink_lines g.raw (history g - n))
                  (shrunk n h)
                  (shrink_lines-Shrunk (IsRow cell g.columns) g.raw (history g - n)
                    v.sound.rows.valid (omega (arith, v.sound.has_line)) rows_good))
            | inr (e, h) ↦ rw e (unchanged n h)
          ])
          λ raw (meets, kept, len). (
            record {
              sound = record {
                rows = meets;
                has_column = v.sound.has_column;
                has_line = v.sound.has_line;
                few_lines = v.sound.few_lines;
                history_le = omega (arith, len);
              };
              offset_le = omega (arith, len, v.offset_le);
            },
            refl,
            kept,
            refl,
            refl,
          )
