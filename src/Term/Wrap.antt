-- ===== src/Term/Wrap.antt =====
-- Linefeeds and line wraps of cutty_terminal/src/term/mod.rs on a terminal that is ready.
use cu_tty.Prelude.{
  ℕ, ◌+◌, ◌<◌, ◌≡◌, refl, ◌∙◌, sym, ap, Bool, true, false, not, Option, none, some, arith, Returns,
  Returns-bind, Returns-map, Returns-self, subst, if◌then◌else◌, ◌>>=◌, inl, inr, Bool-cases,
  ==_cases, ltb_cases,
}
use cu_tty.Prelude.Int.{ℤ, pos, negsuc, pos_part, neg_part, ltb_ℤ}
use cu_tty.Prelude.Machine.{eqb_ℤ, leb_ℤ, as_i32}
use cu_tty.Index.{Point, add_line}
use cu_tty.Row.{GridCell, IsLawful}
use cu_tty.Grid.{Grid, Cursor}
use cu_tty.Grid.Valid.{IsValid}
use cu_tty.Term.{Term, point, with_point, settle, damage_cursor}
use cu_tty.Term.Scroll.{scroll_up, linefeed}
use cu_tty.Term.Write.{wrap_line, wrap_now}
use cu_tty.Term.Moves.{at_column}
use cu_tty.Grid.Edit.{edit_cell}
use cu_tty.Term.Ready.{Kept, edit_cell-Kept, screen-InBuffer}
use cu_tty.Term.Motion.{OnScreen, mark-eq}
use cu_tty.Term.Linefeed.{linefeed_scrolls, linefeed_descends, linefeed_stays, next_line}
use cu_tty.Cell.{Cell, Palette, grid_cell}
use cu_tty.Term.Input.{IsReady, with_cursor, with_cells, IsReady-like, with_cursor-IsValid}
use cu_tty.Term.Frame.{
  Framed, Framed-refl, Framed-trans, moved-Framed, damage_cursor-Framed, scroll_up_relative-Framed,
}

natural : (z : ℤ) → neg_part z ≡ 0 → (n : ℕ) × (z ≡ pos n)
natural (pos n) h = (n, refl)
natural (negsuc n) h = absurd (omega arith)

module _ {T S K : Type 0} (cell : GridCell T) where
  linefeed-Framed : (t t' : Term T S K) → linefeed cell t ≡ some t' → Framed t t'
  unfolding linefeed scroll_up
  linefeed-Framed t t' h =
      branch (eqb_ℤ (add_line (point t).line 1) t.region_end)
        (ltb_ℤ (add_line (point t).line 1) (as_i32 t.grid.lines)) h
    where
      descend :
          (m : Option (Term T S K))
          → ((u : Term T S K) → m ≡ some u → Framed t u)
          → (m >>= λ u. damage_cursor (
              with_point u
                (record { line = add_line (point u).line 1; column = (point u).column })))
            ≡ some t'
          → Framed t t'
      descend none f e = absurd (ground arith)
      descend (some u) f e =
          let v =
            with_point u (record { line = add_line (point u).line 1; column = (point u).column }) in
          Framed-trans t u t' (f u refl)
            (Framed-trans u v t' (moved-Framed u _) (damage_cursor-Framed v t' e))

      branch :
          (b c : Bool)
          → (if b
              then scroll_up cell 1 t
              else if c
              then (damage_cursor t >>= λ u. damage_cursor (
                  with_point u
                    (record { line = add_line (point u).line 1; column = (point u).column })))
              else some t)
            ≡ some t'
          → Framed t t'
      branch true c e = scroll_up_relative-Framed cell t t' t.region_start 1 e
      branch false true e = descend (damage_cursor t) (λ u. damage_cursor-Framed t u) e
      branch false false e = subst (Framed t) (cc e) (Framed-refl t)

  module _ (law : IsLawful cell) where
    -- The terminal is ready again, in the same frame.
    abbrev pub Again : Term T S K → Term T S K → Type 0
    Again t t' = IsReady cell t' × Framed t t'

    ends_where :
        (t : Term T S K) (n b : ℕ)
        → IsReady cell t
        → (point t).line ≡ pos n
        → t.region_end ≡ pos b
        → Returns (λ t'. IsValid cell t'.grid × OnScreen t'.grid (point t')) (linefeed cell t)
    ends_where t n b r at end = elim (==_cases (n + 1) b) [
      | inl (_, e) ↦
          Returns-map (linefeed cell t)
            (λ t' x. (
              x.0.2,
              subst (λ c. OnScreen t'.grid c.point) (sym x.0.1)
                  (omega (
                    arith,
                    r.is_placed.on_screen,
                    (linefeed-Framed t t' (sym x.1)).like.same_lines,
                    (linefeed-Framed t t' (sym x.1)).like.same_columns,
                  )),
            ))
            (Returns-self _ (linefeed cell t)
              (linefeed_scrolls cell law t n r.is_placed r.valid r.top (end ∙ ap pos (sym e)) at))
      | inr (_, ne) ↦ elim (ltb_cases (n + 1) t.grid.lines) [
        | inl (_, l) ↦
            Returns-map (linefeed cell t)
              (λ t' (placed, _, _, same). (
                subst (IsValid cell) (sym same)
                    (with_cursor-IsValid cell t.grid t'.grid.cursor r.valid),
                placed.on_screen,
              ))
              (linefeed_descends cell law t n b r.is_placed end at ne l)
        | inr (_, l) ↦
            rw (linefeed_stays cell law t n b r.is_placed end at ne l)
              (r.valid, r.is_placed.on_screen)
      ]
    ]

    pub linefeed-Again : (t : Term T S K) → IsReady cell t → Returns (Again t) (linefeed cell t)
    linefeed-Again t r =
        let (n, at) = natural (point t).line r.is_placed.on_screen.0 in
        let (b, end) = natural t.region_end r.is_placed.region_end_le.0 in
        Returns-map (linefeed cell t)
          (λ t' x.
            let f = linefeed-Framed t t' (sym x.1) in
            (IsReady-like cell t t' r x.0.0 x.0.1 f.like, f))
          (Returns-self _ (linefeed cell t) (ends_where t n b r at end))

module _ {C H S K : Type 0} (palette : Palette C) (law : IsLawful (grid_cell {H = H} palette)) where
  -- A motion of the cursor on a terminal that is ready.
  moved-Again :
      (t : Term (Cell C H) S K) (c : Cursor (Cell C H))
      → IsReady (grid_cell palette) t
      → OnScreen t.grid c.point
      → c.charsets ≡ t.grid.cursor.charsets
      → c.template ≡ t.grid.cursor.template
      → Again (grid_cell palette) law t (record t { grid = record t.grid { cursor = c } })
  moved-Again t c r on same same' = (
    with_cursor (grid_cell palette) t c r on same,
    record {
      like = record {
        same_lines = refl;
        same_columns = refl;
        same_charsets = same;
        same_charset = refl;
        same_start = refl;
        same_end = refl;
        same_damage = refl;
      };
      same_template = same';
      same_mode = refl;
    },
  )

  damage_cursor-Again :
      (t : Term (Cell C H) S K)
      → IsReady (grid_cell palette) t
      → Returns (λ t'. Again (grid_cell palette) law t t' × (t'.grid ≡ t.grid)) (damage_cursor t)
  unfolding damage_cursor
  damage_cursor-Again t r =
      let (d, e, long) =
        mark-eq t (point t).line (point t).column (point t).column r.is_placed.on_screen.0
          (omega (arith, r.is_placed.on_screen, r.is_placed.damaged)) in
      rw e (
        (
          IsReady-like (grid_cell palette) t (record t { damage = d }) r r.valid
              r.is_placed.on_screen (damage_cursor-Framed t (record t { damage = d }) e).like,
          damage_cursor-Framed t (record t { damage = d }) e,
        ),
        refl,
      )

  descends :
      (t : Term (Cell C H) S K)
      → IsReady (grid_cell palette) t
      → leb_ℤ t.region_end (add_line (point t).line 1) ≡ false
      → Returns (Again (grid_cell palette) law t) (
          damage_cursor t >>= λ u.
          some
            (with_point u (record { line = add_line (point u).line 1; column = (point u).column })))
  descends t r e =
      Returns-bind (Again (grid_cell palette) law t) (damage_cursor t) _ (damage_cursor-Again t r)
        (λ u h.
          let (n, at) = natural (point u).line h.0.0.is_placed.on_screen.0 in
          let below : (n + 1 < u.grid.lines) × (add_line (point u).line 1 ≡ pos (n + 1)) =
            lower u n h.0.0 at (
              subst (λ p. leb_ℤ u.region_end (add_line p 1) ≡ false)
                (ap (λ (g : Grid (Cell C H)). g.cursor.point.line) (sym h.1))
                (ap (λ z. leb_ℤ z (add_line (point t).line 1)) h.0.1.like.same_end ∙ e)) in
          let to : Point = record { line = add_line (point u).line 1; column = (point u).column } in
          let (ready, framed) =
            moved-Again u (record u.grid.cursor { point = to }) h.0.0
              (subst (λ l. OnScreen u.grid (record { line = l; column = (point u).column }))
                (sym below.1) (refl, below.0, h.0.0.is_placed.on_screen.2))
              refl refl in
          (ready, Framed-trans t u _ h.0.1 framed))
    where
      test_lt : (x y : ℤ) → leb_ℤ x y ≡ false → pos_part y + neg_part x < pos_part x + neg_part y
      test_lt x y h = ground arith

      lower :
          (u : Term (Cell C H) S K) (n : ℕ)
          → IsReady (grid_cell palette) u
          → (point u).line ≡ pos n
          → leb_ℤ u.region_end (add_line (point u).line 1) ≡ false
          → (n + 1 < u.grid.lines) × (add_line (point u).line 1 ≡ pos (n + 1))
      lower u n r at e =
          let next =
            ap (λ l. add_line l 1) at
            ∙ next_line n
                (omega (arith, r.is_placed.few_lines, r.is_placed.on_screen, ap pos_part at)) in
          (
            omega (
              arith,
              test_lt u.region_end (add_line (point u).line 1) e,
              ap pos_part next,
              ap neg_part next,
              r.is_placed.region_end_le,
            ),
            next,
          )

  -- The terminal is ready again; the cursor is in the first column and does not wait.
  abbrev pub WrappedNow : Term (Cell C H) S K → Term (Cell C H) S K → Type 0
  WrappedNow t t' =
      Again (grid_cell palette) law t t'
      × ((point t').column ≡ 0)
      × (t'.grid.cursor.input_needs_wrap ≡ false)

  -- Where lines do not wrap, nothing changes.
  abbrev pub Wrapped : Term (Cell C H) S K → Term (Cell C H) S K → Type 0
  Wrapped t t' =
      Again (grid_cell palette) law t t'
      × (t.mode.line_wrap ≡ true → WrappedNow t t')
      × (t.mode.line_wrap ≡ false → t' ≡ t)

  pub begun :
      (t : Term (Cell C H) S K) (g : Grid (Cell C H))
      → IsReady (grid_cell palette) t
      → Kept (grid_cell palette) t.grid g
      → Again (grid_cell palette) law t (record t { grid = g })
  begun t g r k = (
    with_cells (grid_cell palette) t g r k,
    record {
      like = record {
        same_lines = ap (λ (h : Grid (Cell C H)). h.lines) k.same;
        same_columns = ap (λ (h : Grid (Cell C H)). h.columns) k.same;
        same_charsets = ap (λ (h : Grid (Cell C H)). h.cursor.charsets) k.same;
        same_charset = refl;
        same_start = refl;
        same_end = refl;
        same_damage = refl;
      };
      same_template = ap (λ (h : Grid (Cell C H)). h.cursor.template) k.same;
      same_mode = refl;
    },
  )

  -- The cursor goes to the first column.
  ends :
      (t u : Term (Cell C H) S K)
      → Again (grid_cell palette) law t u
      → Returns (WrappedNow t) (damage_cursor (settle (at_column 0 u)))
  ends t u (ready, framed) =
      let v = settle (at_column 0 u) in
      let (ready', framed') =
        moved-Again u v.grid.cursor ready
          (ready.is_placed.on_screen.0, ready.is_placed.on_screen.1, omega (arith, ready.wide)) refl
          refl in
      Returns-map (damage_cursor v)
        (λ w ((again, framed''), same). (
          (again, Framed-trans t u w framed (Framed-trans u v w framed' framed'')),
          ap (λ (g : Grid (Cell C H)). g.cursor.point.column) same,
          ap (λ (g : Grid (Cell C H)). g.cursor.input_needs_wrap) same,
        ))
        (damage_cursor-Again v ready')

  wrap_now-WrappedNow :
      (t : Term (Cell C H) S K)
      → IsReady (grid_cell palette) t
      → Returns (WrappedNow t) (wrap_now palette t)
  unfolding wrap_now
  wrap_now-WrappedNow t r =
      Returns-bind (WrappedNow t) (edit_cell (point t) _ t.grid) _
        (edit_cell-Kept (grid_cell palette) t.grid (point t) _ r.valid
          (screen-InBuffer (grid_cell palette) t.grid (point t) r.valid r.is_placed.on_screen)
          r.is_placed.on_screen.2)
        (λ g k.
          let t' = record t { grid = g } in
          let (ready, framed) = begun t g r k in
          Returns-bind {P = Again (grid_cell palette) law t'} (WrappedNow t) _
            (λ u. damage_cursor (settle (at_column 0 u))) (down t' ready)
            (λ u (ready', framed'). ends t u (ready', Framed-trans t t' u framed framed')))
    where
      down :
          (u : Term (Cell C H) S K)
          → IsReady (grid_cell palette) u
          → Returns (Again (grid_cell palette) law u) (
              if leb_ℤ u.region_end (add_line (point u).line 1)
              then linefeed (grid_cell palette) u
              else (damage_cursor u >>= λ u. some (
                  with_point u
                    (record { line = add_line (point u).line 1; column = (point u).column }))))
      down u ready = elim (Bool-cases (leb_ℤ u.region_end (add_line (point u).line 1))) [
        | inl e ↦ rw e (linefeed-Again (grid_cell palette) law u ready)
        | inr e ↦ rw e (descends u ready e)
      ]

  pub wrap_line-Wrapped :
      (t : Term (Cell C H) S K)
      → IsReady (grid_cell palette) t
      → Returns (Wrapped t) (wrap_line palette t)
  unfolding wrap_line
  wrap_line-Wrapped t r = by_mode t.mode.line_wrap refl
    where
      by_mode :
          (b : Bool)
          → t.mode.line_wrap ≡ b
          → Returns (Wrapped t) (if not b then some t else wrap_now palette t)
      by_mode true e =
          Returns-map (wrap_now palette t) (λ t' w. (w.0, λ _. w, λ h. absurd (ground arith)))
            (wrap_now-WrappedNow t r)
      by_mode false e = ((r, Framed-refl t), λ h. absurd (ground arith), λ _. refl)
