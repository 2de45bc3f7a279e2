-- ===== src/Grid/Tests.antt =====
-- The theorems on grid/mod.rs at a screen of three lines with a history of one.
use cu_tty.Prelude.{
  ℕ, ◌<◌, ◌≡◌, ◌≢◌, refl, true, Option, none, some, length, ◌>>=◌, [], ◌∷◌, arith, Returns,
}
use cu_tty.Prelude.Int.{pos}
use cu_tty.Row.{Row}
use cu_tty.Row.Ink.{Ink, ink, ink-IsLawful}
use cu_tty.Storage.Ring.{lines}
use cu_tty.Grid.{history, scroll_up, scroll_down, update_history}
use cu_tty.Grid.Display.{update_history_lem}
use cu_tty.Grid.Valid.{IsSound, IsValid, blank_row}
use cu_tty.Grid.Up.{scroll_up_top, scroll_up_region, scroll_up_region_overshoots}
use cu_tty.Grid.Down.{scroll_down_lem}
use cu_tty.Grid.Reflow.Shrink.{Shrinking, Outcome, unfinished, finished, shrink_rows}
use cu_tty.Grid.Reflow.Ends.{shrink_rows_lem}
use cu_tty.Grid.Sample.{letter, red, scrolled, scrolled-IsSound, scrolled-IsValid}

scroll_up_top_example :
    Returns
      (λ g'.
        (lines g'.raw ≡ blank_row ink 2 (6, 0) ∷ letter 10 ∷ letter 11 ∷ letter 12 ∷ letter 13 ∷ [])
        × (g'.display_offset ≡ 2)
        × (g'.cursor ≡ red)
        × IsValid ink g')
      (scroll_up ink scrolled (pos 0) (pos 3) 1)
scroll_up_top_example =
    scroll_up_top ink ink-IsLawful scrolled scrolled-IsValid 3 1 (omega arith) (omega arith)
      (omega arith)

scroll_up_region_example :
    Returns
      (λ g'.
        (lines g'.raw ≡ blank_row ink 2 (6, 0) ∷ letter 10 ∷ letter 12 ∷ letter 13 ∷ [])
        × (history g' ≡ 1)
        × (g'.display_offset ≡ 2)
        × (g'.cursor ≡ red)
        × IsSound ink g')
      (scroll_up ink scrolled (pos 1) (pos 3) 1)
scroll_up_region_example =
    scroll_up_region ink ink-IsLawful scrolled scrolled-IsSound 1 3 1 (omega arith) (omega arith)
      (omega arith) (omega arith) (omega arith)

scroll_up_region_overshoots_example :
    Returns (λ g'. history g' < g'.display_offset) (scroll_up ink scrolled (pos 1) (pos 3) 1)
scroll_up_region_overshoots_example =
    scroll_up_region_overshoots ink ink-IsLawful scrolled scrolled-IsValid 1 3 1 (omega arith)
      (omega arith) (omega arith) (omega arith) (omega arith) refl (omega arith)

scroll_down_lem_example :
    Returns
      (λ g'.
        (lines g'.raw ≡ letter 11 ∷ blank_row ink 2 (6, 0) ∷ letter 12 ∷ letter 13 ∷ [])
        × (history g' ≡ 1)
        × (g'.display_offset ≡ 1)
        × (g'.cursor ≡ red)
        × IsSound ink g')
      (scroll_down ink scrolled (pos 1) (pos 3) 1)
scroll_down_lem_example =
    scroll_down_lem ink ink-IsLawful scrolled scrolled-IsSound 1 3 1 (omega arith) (omega arith)
      (omega arith) (omega arith)

update_history_lem_example :
    Returns
      (λ g'.
        IsValid ink g'
        × (g'.max_scroll_limit ≡ 0)
        × (lines g'.raw ≡ letter 10 ∷ letter 11 ∷ letter 12 ∷ [])
        × (g'.display_offset ≡ 0)
        × (g'.cursor ≡ red))
      (update_history scrolled 0)
update_history_lem_example = update_history_lem ink scrolled scrolled-IsValid 0

-- A line of five cells, with the cursor right of them, over the line of two.
abbrev shrinking : Shrinking Ink
shrinking = record {
  grid = record scrolled { cursor = record red { point = record { line = pos 2; column = 7 } } };
  new_raw = [];
  buffered = none;
}

abbrev long_row : Row Ink
long_row = record { inner = (0, 1) ∷ (0, 2) ∷ (0, 3) ∷ (0, 4) ∷ (0, 5) ∷ []; occ = 5 }

shrink_rows_lem_example :
    shrink_rows ink true 2 (letter 13 ∷ long_row ∷ letter 10 ∷ []) shrinking ≢ some unfinished
shrink_rows_lem_example =
    shrink_rows_lem ink 2 true (letter 13 ∷ long_row ∷ letter 10 ∷ []) shrinking (omega arith)

-- The number of rows that are left.
abbrev rows_of : Outcome Ink → Option ℕ
rows_of unfinished = none
rows_of (finished st) = some (length st.new_raw)

-- The five cells and the blanks up to the cursor become four lines.
wraps_long_row :
    (shrink_rows ink true 2 (letter 13 ∷ long_row ∷ letter 10 ∷ []) shrinking >>= rows_of) ≡ some 6
unfolding shrink_rows cu_tty.Row.shrink cu_tty.Row.from_vec
wraps_long_row = refl
