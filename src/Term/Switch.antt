-- ===== src/Term/Switch.antt =====
-- The private modes of cutty_terminal/src/term/mod.rs: switching one, and what is reported then.
use cu_tty.Prelude.{
  ℕ, ◌≡◌, refl, ◌∙◌, sym, ap, Bool, true, false, not, ◌&&◌, ◌||◌, some, arith, Returns, Returns-map,
  subst, if◌then◌else◌, inl, inr, Bool-cases,
}
use cu_tty.Prelude.Int.{pos}
use cu_tty.Row.{IsLawful}
use cu_tty.Cell.{Cell, Palette, grid_cell}
use cu_tty.Grid.Valid.{IsSound}
use cu_tty.Term.{Term, Modes}
use cu_tty.Term.Moves.{goto}
use cu_tty.Term.Motion.{IsPlaced}
use cu_tty.Term.Stacks.{swap_alt}
use cu_tty.Term.Erase.{deccolm}
use cu_tty.Term.Mode.{
  NamedPrivateMode, PrivateMode, ModeState, switched_on, switched_off, set_named, set_private_mode,
  unset_named, unset_private_mode, reported,
}
use cu_tty.Term.Mode
use cu_tty.Term.Sides.{swap_alt-Swapped, home, with_mode-IsPlaced, deccolm-mode}

-- At most one of the mouse protocols is on, and at most one of the mouse encodings.
abbrev pub IsExclusive : {K : Type 0} → Modes K → Type 0
IsExclusive m =
    ((m.mouse_report_click && (m.mouse_motion || m.mouse_drag)) ≡ false)
    × ((m.mouse_motion && m.mouse_drag) ≡ false)
    × ((m.sgr_mouse && m.utf8_mouse) ≡ false)

-- A mode that is a switch: it can be on and off.
abbrev pub is_switch : NamedPrivateMode → Bool
is_switch NamedPrivateMode.sync_update = false
is_switch NamedPrivateMode.column_mode = false
is_switch _ = true

module _ {C H S K : Type 0} (palette : Palette C) (law : IsLawful (grid_cell {H = H} palette)) where
  module _ (no_mode : K) (default_style : ℕ × Bool) where
    -- The mode is reported as it was switched, and the mouse modes exclude one another.
    abbrev pub SwitchedTo : ModeState → NamedPrivateMode → Term (Cell C H) S K → Type 0
    SwitchedTo state mode t' =
        IsExclusive t'.mode
        × (is_switch mode ≡ true
            → reported palette no_mode default_style (PrivateMode.named mode) t' ≡ state)

    swaps :
        (state : ModeState) (b : Bool) (t : Term (Cell C H) S K)
        → IsSound (grid_cell palette) t.inactive_grid
        → IsExclusive t.mode
        → t.mode.alt_screen ≡ b
        → Mode.state_of (not b) ≡ state
        → Returns
            (SwitchedTo state NamedPrivateMode.swap_screen)
            (swap_alt no_mode (grid_cell palette) t)
    unfolding reported
    swaps state b t s x e f =
        Returns-map (swap_alt no_mode (grid_cell palette) t)
          (λ t' same. (
            subst IsExclusive (sym same) x,
            λ _.
                ap (λ (m : Modes K). Mode.state_of m.alt_screen) same
                ∙ ap (λ c. Mode.state_of (not c)) e
                ∙ f,
          ))
          (swap_alt-Swapped (grid_cell palette) law no_mode t s)

    set_named_lem :
        (mode : NamedPrivateMode) (t : Term (Cell C H) S K)
        → IsPlaced t
        → IsSound (grid_cell palette) t.grid
        → IsSound (grid_cell palette) t.inactive_grid
        → IsExclusive t.mode
        → Returns (SwitchedTo switched_on mode) (set_named palette no_mode default_style mode t)
    unfolding set_named reported
    set_named_lem NamedPrivateMode.urgency_hints t v s i x =
        ((ground arith, ground arith, ground arith), λ _. refl)
    set_named_lem NamedPrivateMode.show_cursor t v s i x =
        ((ground arith, ground arith, ground arith), λ _. refl)
    set_named_lem NamedPrivateMode.cursor_keys t v s i x =
        ((ground arith, ground arith, ground arith), λ _. refl)
    set_named_lem NamedPrivateMode.report_mouse_clicks t v s i x =
        ((ground arith, ground arith, ground arith), λ _. refl)
    set_named_lem NamedPrivateMode.report_cell_mouse_motion t v s i x =
        ((ground arith, ground arith, ground arith), λ _. refl)
    set_named_lem NamedPrivateMode.report_all_mouse_motion t v s i x =
        ((ground arith, ground arith, ground arith), λ _. refl)
    set_named_lem NamedPrivateMode.report_focus_in_out t v s i x =
        ((ground arith, ground arith, ground arith), λ _. refl)
    set_named_lem NamedPrivateMode.bracketed_paste t v s i x =
        ((ground arith, ground arith, ground arith), λ _. refl)
    set_named_lem NamedPrivateMode.sgr_mouse t v s i x =
        ((ground arith, ground arith, ground arith), λ _. refl)
    set_named_lem NamedPrivateMode.utf8_mouse t v s i x =
        ((ground arith, ground arith, ground arith), λ _. refl)
    set_named_lem NamedPrivateMode.alternate_scroll t v s i x =
        ((ground arith, ground arith, ground arith), λ _. refl)
    set_named_lem NamedPrivateMode.line_wrap t v s i x =
        ((ground arith, ground arith, ground arith), λ _. refl)
    set_named_lem NamedPrivateMode.blinking_cursor t v s i x =
        ((ground arith, ground arith, ground arith), λ _. refl)
    set_named_lem NamedPrivateMode.origin t v s i x =
        Returns-map (goto (pos 0) 0 (record t { mode = record t.mode { origin = true } }))
          (λ t' (same, rows). (
            subst IsExclusive (sym same) x,
            λ _. ap (λ (m : Modes K). Mode.state_of m.origin) same,
          ))
          (home (record t { mode = record t.mode { origin = true } }) (with_mode-IsPlaced t _ v))
    set_named_lem NamedPrivateMode.swap_screen t v s i x = elim (Bool-cases t.mode.alt_screen) [
      | inl e ↦
          subst
            (λ b.
              Returns (SwitchedTo switched_on NamedPrivateMode.swap_screen)
                (if not b then swap_alt no_mode (grid_cell palette) t else some t))
            (sym e) (x, λ _. ap Mode.state_of e)
      | inr e ↦
          subst
            (λ b.
              Returns (SwitchedTo switched_on NamedPrivateMode.swap_screen)
                (if not b then swap_alt no_mode (grid_cell palette) t else some t))
            (sym e) (swaps switched_on false t i x e refl)
    ]
    set_named_lem NamedPrivateMode.column_mode t v s i x =
        Returns-map (deccolm palette t)
          (λ t' same. (subst IsExclusive (sym same) x, λ e. absurd (ground arith)))
          (deccolm-mode palette law t v s)
    set_named_lem NamedPrivateMode.sync_update t v s i x = (x, λ e. absurd (ground arith))

    unset_named_lem :
        (mode : NamedPrivateMode) (t : Term (Cell C H) S K)
        → IsPlaced t
        → IsSound (grid_cell palette) t.grid
        → IsSound (grid_cell palette) t.inactive_grid
        → IsExclusive t.mode
        → Returns (SwitchedTo switched_off mode) (unset_named palette no_mode default_style mode t)
    unfolding unset_named reported
    unset_named_lem NamedPrivateMode.urgency_hints t v s i x =
        ((ground arith, ground arith, ground arith), λ _. refl)
    unset_named_lem NamedPrivateMode.show_cursor t v s i x =
        ((ground arith, ground arith, ground arith), λ _. refl)
    unset_named_lem NamedPrivateMode.cursor_keys t v s i x =
        ((ground arith, ground arith, ground arith), λ _. refl)
    unset_named_lem NamedPrivateMode.report_mouse_clicks t v s i x =
        ((ground arith, ground arith, ground arith), λ _. refl)
    unset_named_lem NamedPrivateMode.report_cell_mouse_motion t v s i x =
        ((ground arith, ground arith, ground arith), λ _. refl)
    unset_named_lem NamedPrivateMode.report_all_mouse_motion t v s i x =
        ((ground arith, ground arith, ground arith), λ _. refl)
    unset_named_lem NamedPrivateMode.report_focus_in_out t v s i x =
        ((ground arith, ground arith, ground arith), λ _. refl)
    unset_named_lem NamedPrivateMode.bracketed_paste t v s i x =
        ((ground arith, ground arith, ground arith), λ _. refl)
    unset_named_lem NamedPrivateMode.sgr_mouse t v s i x =
        ((ground arith, ground arith, ground arith), λ _. refl)
    unset_named_lem NamedPrivateMode.utf8_mouse t v s i x =
        ((ground arith, ground arith, ground arith), λ _. refl)
    unset_named_lem NamedPrivateMode.alternate_scroll t v s i x =
        ((ground arith, ground arith, ground arith), λ _. refl)
    unset_named_lem NamedPrivateMode.line_wrap t v s i x =
        ((ground arith, ground arith, ground arith), λ _. refl)
    unset_named_lem NamedPrivateMode.blinking_cursor t v s i x =
        ((ground arith, ground arith, ground arith), λ _. refl)
    unset_named_lem NamedPrivateMode.origin t v s i x = (x, λ _. refl)
    unset_named_lem NamedPrivateMode.swap_screen t v s i x = elim (Bool-cases t.mode.alt_screen) [
      | inl e ↦
          subst
            (λ b.
              Returns (SwitchedTo switched_off NamedPrivateMode.swap_screen)
                (if b then swap_alt no_mode (grid_cell palette) t else some t))
            (sym e) (swaps switched_off true t i x e refl)
      | inr e ↦
          subst
            (λ b.
              Returns (SwitchedTo switched_off NamedPrivateMode.swap_screen)
                (if b then swap_alt no_mode (grid_cell palette) t else some t))
            (sym e) (x, λ _. ap Mode.state_of e)
    ]
    unset_named_lem NamedPrivateMode.column_mode t v s i x =
        Returns-map (deccolm palette t)
          (λ t' same. (subst IsExclusive (sym same) x, λ e. absurd (ground arith)))
          (deccolm-mode palette law t v s)
    unset_named_lem NamedPrivateMode.sync_update t v s i x = (x, λ e. absurd (ground arith))

    -- On a terminal whose cursor and scroll region are on the screen, whose two grids are sound and whose mouse modes exclude one another, setting and unsetting a private mode do not panic. The mouse modes exclude one another after it, and the mode is reported as set or unset; the column mode and the synchronized update, which are no switches, keep the first only.
    pub private_mode_lem :
        (mode : NamedPrivateMode) (t : Term (Cell C H) S K)
        → IsPlaced t
        → IsSound (grid_cell palette) t.grid
        → IsSound (grid_cell palette) t.inactive_grid
        → IsExclusive t.mode
        → Returns
            (SwitchedTo switched_on mode)
            (set_private_mode palette no_mode default_style (PrivateMode.named mode) t)
          × Returns
              (SwitchedTo switched_off mode)
              (unset_private_mode palette no_mode default_style (PrivateMode.named mode) t)
    unfolding set_private_mode unset_private_mode
    private_mode_lem mode t v s i x = (set_named_lem mode t v s i x, unset_named_lem mode t v s i x)
