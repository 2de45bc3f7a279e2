-- ===== src/Term/Frame.antt =====
-- What a linefeed of cutty_terminal/src/term/mod.rs never touches, and that it succeeds on every
-- terminal that is ready.
use cu_tty.Prelude.{
  ℕ, ◌+◌, ◌≡◌, refl, ◌∙◌, sym, ap, Bool, true, false, not, ◌&&◌, Option, none, some, length,
  get_elem?, set, arith, >>=-eq-some, subst, if◌then◌else◌, ◌>>=◌, length-set, min, ◌==◌,
}
use cu_tty.Prelude.Int.{ℤ, pos, negsuc}
use cu_tty.Prelude.Machine.{eqb_ℤ, leb_ℤ, as_i32, sub_i32}
use cu_tty.Index.{Point}
use cu_tty.Row.{GridCell}
use cu_tty.Grid.{Grid, scroll_up, reset_lines, scroll_up_rotating, scroll_up_swapping}
use cu_tty.Storage.{Storage}
use cu_tty.Selection.{Selection}
use cu_tty.Term.{Term, point, with_point, mark, damage_cursor, mark_fully_damaged}
use cu_tty.Term.Scroll.{scroll_up_relative}
use cu_tty.Term.Damage.{TermDamageState, damage_line, expand}
use cu_tty.Term.Like.{IsLike}

module _ {T S K : Type 0} where
  -- Alike, with the same template and modes.
  pub record Framed (t t' : Term T S K) : Type 0 where
    pub like : IsLike t t'
    pub same_template : t'.grid.cursor.template ≡ t.grid.cursor.template
    pub same_mode : t'.mode ≡ t.mode

  pub Framed-refl : (t : Term T S K) → Framed t t
  Framed-refl t = record {
    like = record {
      same_lines = refl;
      same_columns = refl;
      same_charsets = refl;
      same_charset = refl;
      same_start = refl;
      same_end = refl;
      same_damage = refl;
    };
    same_template = refl;
    same_mode = refl;
  }

  pub Framed-trans : (a b c : Term T S K) → Framed a b → Framed b c → Framed a c
  Framed-trans a b c h k = record {
    like = record {
      same_lines = k.like.same_lines ∙ h.like.same_lines;
      same_columns = k.like.same_columns ∙ h.like.same_columns;
      same_charsets = k.like.same_charsets ∙ h.like.same_charsets;
      same_charset = k.like.same_charset ∙ h.like.same_charset;
      same_start = k.like.same_start ∙ h.like.same_start;
      same_end = k.like.same_end ∙ h.like.same_end;
      same_damage = k.like.same_damage ∙ h.like.same_damage;
    };
    same_template = k.same_template ∙ h.same_template;
    same_mode = k.same_mode ∙ h.same_mode;
  }

  -- Only the grid's cursor, its rows, its offset and its damage may differ.
  mark-Framed : (line : ℤ) (l r : ℕ) (t t' : Term T S K) → mark line l r t ≡ some t' → Framed t t'
  unfolding mark damage_line
  mark-Framed (negsuc n) l r t t' h = absurd (ground arith)
  mark-Framed (pos n) l r t t' h =
      let (d, e, k) =
        >>=-eq-some
          (get_elem? t.damage.lines n >>= λ b.
            some (record t.damage { lines = set t.damage.lines n (expand l r b) }))
          _ h in
      let (b, e', k') = >>=-eq-some (get_elem? t.damage.lines n) _ e in
      let damaged : record t { damage = d } ≡ t' = cc k in
      let lined : record t.damage { lines = set t.damage.lines n (expand l r b) } ≡ d = cc k' in
      subst (Framed t) damaged (record {
        like = record {
          same_lines = refl;
          same_columns = refl;
          same_charsets = refl;
          same_charset = refl;
          same_start = refl;
          same_end = refl;
          same_damage =
              ap (λ (x : TermDamageState). length x.lines) (sym lined)
              ∙ length-set t.damage.lines n (expand l r b);
        };
        same_template = refl;
        same_mode = refl;
      })

  pub moved-Framed : (t : Term T S K) (p : Point) → Framed t (with_point t p)
  moved-Framed t p = record {
    like = record {
      same_lines = refl;
      same_columns = refl;
      same_charsets = refl;
      same_charset = refl;
      same_start = refl;
      same_end = refl;
      same_damage = refl;
    };
    same_template = refl;
    same_mode = refl;
  }

  pub damage_cursor-Framed : (t t' : Term T S K) → damage_cursor t ≡ some t' → Framed t t'
  unfolding damage_cursor
  damage_cursor-Framed t t' h = mark-Framed (point t).line (point t).column (point t).column t t' h

module _ {T : Type 0} (cell : GridCell T) where
  one_step :
      (m : Option (Storage T)) (g g' : Grid T) (o : ℕ)
      → (m >>= λ raw. some (record g { raw = raw; display_offset = o })) ≡ some g'
      → g' ≡ record g { raw = g'.raw; display_offset = g'.display_offset }
  one_step none g g' o h = absurd (ground arith)
  one_step (some raw) g g' o h =
      let e : record g { raw = raw; display_offset = o } ≡ g' = cc h in
      sym e ∙ ap (λ (x : Grid T). record g { raw = x.raw; display_offset = x.display_offset }) e

  two_steps :
      (m : Option (Storage T)) (f : Storage T → Option (Storage T)) (g g' : Grid T) (o : ℕ)
      → (m >>= λ raw. f raw >>= λ raw. some (record g { raw = raw; display_offset = o })) ≡ some g'
      → g' ≡ record g { raw = g'.raw; display_offset = g'.display_offset }
  two_steps none f g g' o h = absurd (ground arith)
  two_steps (some raw) f g g' o h = one_step (f raw) g g' o h

  pick :
      (b : Bool) (x y : Option (Grid T)) (g' : Grid T) (P : Type 0)
      → (if b then x else y) ≡ some g'
      → (x ≡ some g' → P)
      → (y ≡ some g' → P)
      → P
  pick true x y g' P h left right = left h
  pick false x y g' P h left right = right h

  -- A scroll changes the rows and the display offset alone.
  scroll_up-same :
      (g g' : Grid T) (start end : ℤ) (p : ℕ)
      → scroll_up cell g start end p ≡ some g'
      → g' ≡ record g { raw = g'.raw; display_offset = g'.display_offset }
  unfolding scroll_up
  scroll_up-same g g' start end p h =
      let template = g.cursor.template in
      let offset =
        if g.display_offset == 0 then 0 else min (g.display_offset + p) g.max_scroll_limit in
      let g0 = record g { display_offset = offset } in
      pick (leb_ℤ (sub_i32 end start) (as_i32 p) && not (eqb_ℤ start (pos 0))) _ _ g' _ h
        (one_step (reset_lines cell template start end g.raw) g g' g.display_offset)
        (two_steps
          (if eqb_ℤ start (pos 0)
            then scroll_up_rotating cell g0 start end p
            else scroll_up_swapping cell g0 start end p)
          (reset_lines cell template (sub_i32 end (as_i32 p)) end) g g' offset)

module _ {T S K : Type 0} (cell : GridCell T) where
  scrolled-Framed :
      (t t' : Term T S K) (m : Option (Grid T)) (sel : Grid T → Option Selection)
      (vi : Grid T → Point)
      → ((g : Grid T)
          → m ≡ some g
          → g ≡ record t.grid { raw = g.raw; display_offset = g.display_offset })
      → (m >>= λ g.
          some
            (mark_fully_damaged (record t { selection = sel g; vi_mode_cursor = vi g; grid = g })))
        ≡ some t'
      → Framed t t'
  scrolled-Framed t t' none sel vi same h = absurd (ground arith)
  scrolled-Framed t t' (some g) sel vi same h =
      let e : mark_fully_damaged (record t { selection = sel g; vi_mode_cursor = vi g; grid = g })
          ≡ t' =
        cc h in
      let q = same g refl in
      subst (Framed t) e (record {
        like = record {
          same_lines = ap (λ (x : Grid T). x.lines) q;
          same_columns = ap (λ (x : Grid T). x.columns) q;
          same_charsets = ap (λ (x : Grid T). x.cursor.charsets) q;
          same_charset = refl;
          same_start = refl;
          same_end = refl;
          same_damage = refl;
        };
        same_template = ap (λ (x : Grid T). x.cursor.template) q;
        same_mode = refl;
      })

  pub scroll_up_relative-Framed :
      (t t' : Term T S K) (origin : ℤ) (lines : ℕ)
      → scroll_up_relative cell origin lines t ≡ some t'
      → Framed t t'
  unfolding scroll_up_relative
  scroll_up_relative-Framed t t' origin lines h =
      scrolled-Framed t t' (scroll_up cell t.grid origin t.region_end _) _ _
        (λ g e. scroll_up-same cell t.grid g origin t.region_end _ e) h
