-- ===== src/Term/Motion.antt =====
-- The motions of the cursor in term/mod.rs keep it on the screen.
use cu_tty.Prelude.{
  ℕ, ◌+◌, ◌-◌, ◌^◌, ◌≤◌, ◌<◌, ◌≡◌, refl, Bool, true, false, if◌then◌else◌, some, length, set, min,
  arith, Returns, Returns-map, inl, inr, Bool-cases, ◌∙◌, sym, subst, length-set,
}
use cu_tty.Prelude.Int.{ℤ, pos, negsuc, pos_part, neg_part, ◌+ℤ◌, ◌-ℤ◌, -ℤ_parts}
use cu_tty.Prelude.Machine.{min_ℤ, max_ℤ, add_i32, sub_i32, wrap_i32_id, IsI32}
use cu_tty.Prelude.Index.{get_elem?-some}
use cu_tty.Index.{Point, bottommost_line, last_column}
use cu_tty.Grid.{Grid}
use cu_tty.Term.{Term, size, point, with_point, mark, damage_cursor}
use cu_tty.Term.Moves.{goto, goto_col}
use cu_tty.Term.Like.{IsLike, alike}
use cu_tty.Term.Damage.{TermDamageState, expand, damage_line}

-- The point is on the screen.
abbrev pub OnScreen : {T : Type 0} → Grid T → Point → Type 0
OnScreen g p = (neg_part p.line ≡ 0) × (pos_part p.line < g.lines) × (p.column < g.columns)

clamped :
    (line last : ℤ) (n : ℕ)
    → pos_part last < n + neg_part last
    → 1 ≤ n
    → (neg_part (max_ℤ (min_ℤ line last) (pos 0)) ≡ 0)
      × (pos_part (max_ℤ (min_ℤ line last) (pos 0)) < n)
clamped line last n h k = (ground arith, ground arith)

pred-IsI32 : (a : ℤ) → neg_part a ≡ 0 → pos_part a < 2 ^ 31 → IsI32 (a -ℤ pos 1)
unfolding ◌-ℤ◌
pred-IsI32 a h k = (ground arith, ground arith)

below :
    (line start end : ℤ)
    → neg_part line ≡ 0
    → neg_part start ≡ 0
    → 1 ≤ pos_part start
    → pos_part line + 1 < pos_part end
    → pos_part line < pos_part (max_ℤ (min_ℤ (line +ℤ start) (end -ℤ pos 1)) (pos 0))
unfolding ◌+ℤ◌ ◌-ℤ◌
below line start end a b c d = ground arith

plus_zero : (a : ℤ) → a +ℤ pos 0 ≡ a
unfolding ◌+ℤ◌
plus_zero a = ground arith

module _ {T S K : Type 0} where
  -- The cursor is on the screen, the scroll region too, and there is damage for each line.
  pub record IsPlaced (t : Term T S K) : Type 0 where
    pub on_screen : OnScreen t.grid (point t)
    pub damaged : length t.damage.lines ≡ t.grid.lines
    pub few_lines : t.grid.lines < 2 ^ 31
    pub region_start_le : (neg_part t.region_start ≡ 0) × (pos_part t.region_start ≤ t.grid.lines)
    pub region_end_le :
        (neg_part t.region_end ≡ 0)
        × (1 ≤ pos_part t.region_end)
        × (pos_part t.region_end ≤ t.grid.lines)

  -- Only the damage changes.
  pub mark-eq :
      (t : Term T S K) (line : ℤ) (l r : ℕ)
      → neg_part line ≡ 0
      → pos_part line < length t.damage.lines
      → (d : TermDamageState) × (mark line l r t ≡ some (record t { damage = d }))
        × (length d.lines ≡ length t.damage.lines)
  unfolding mark damage_line
  mark-eq t (pos n) l r h k =
      let (b, e) = get_elem?-some t.damage.lines n k in
      (
        record t.damage { lines = set t.damage.lines n (expand l r b) },
        rw e refl,
        length-set t.damage.lines n (expand l r b),
      )
  mark-eq t (negsuc n) l r h k = absurd (omega arith)

  pub placed :
      (t : Term T S K) (p : Point) (d : TermDamageState) (w : Bool)
      → IsPlaced t
      → OnScreen t.grid p
      → length d.lines ≡ length t.damage.lines
      → IsPlaced (record t {
        damage = d;
        grid = record t.grid { cursor = record t.grid.cursor { point = p; input_needs_wrap = w } };
      })
  placed t p d w v h e = record {
    on_screen = h;
    damaged = e ∙ v.damaged;
    few_lines = v.few_lines;
    region_start_le = v.region_start_le;
    region_end_le = v.region_end_le;
  }

  -- Where `goto` goes: to the line, counted from the scroll region in origin mode, clamped to the region or the screen.
  abbrev pub target_line : Term T S K → ℤ → ℤ
  target_line t line =
      if t.mode.origin
      then max_ℤ (min_ℤ (line +ℤ t.region_start) (t.region_end -ℤ pos 1)) (pos 0)
      else max_ℤ (min_ℤ line (pos t.grid.lines -ℤ pos 1)) (pos 0)

  target-OnScreen :
      (t : Term T S K) (line : ℤ) (col : ℕ)
      → IsPlaced t
      → OnScreen t.grid
          (record { line = target_line t line; column = min col (t.grid.columns - 1) })
  target-OnScreen t line col v = elim (Bool-cases t.mode.origin) [
    | inl e ↦
        let (a, b) =
          clamped (line +ℤ t.region_start) (t.region_end -ℤ pos 1) t.grid.lines
            (omega (arith, v.region_end_le, -ℤ_parts t.region_end (pos 1)))
            (omega (arith, v.on_screen)) in
        rw e (a, b, omega (arith, v.on_screen))
    | inr e ↦
        let (a, b) =
          clamped line (pos t.grid.lines -ℤ pos 1) t.grid.lines
            (omega (arith, -ℤ_parts (pos t.grid.lines) (pos 1), v.on_screen))
            (omega (arith, v.on_screen)) in
        rw e (a, b, omega (arith, v.on_screen))
  ]

  -- The line that `goto` computes with the arithmetic of `i32`.
  machine_line : Term T S K → ℤ → ℤ
  machine_line t line =
      max_ℤ
        (min_ℤ (add_i32 line (if t.mode.origin then t.region_start else pos 0))
          (if t.mode.origin then sub_i32 t.region_end (pos 1) else bottommost_line (size t)))
        (pos 0)

  machine_line-eq :
      (t : Term T S K) (line : ℤ)
      → IsPlaced t
      → IsI32 line
      → IsI32 (line +ℤ t.region_start)
      → machine_line t line ≡ target_line t line
  unfolding machine_line bottommost_line
  machine_line-eq t line v h k = elim (Bool-cases t.mode.origin) [
    | inl e ↦
        rw
          (
            e,
            wrap_i32_id (line +ℤ t.region_start) k,
            wrap_i32_id (t.region_end -ℤ pos 1) (
                pred-IsI32 t.region_end v.region_end_le.0
                  (omega (arith, v.region_end_le, v.few_lines))),
          )
          refl
    | inr e ↦
        rw
          (
            e,
            plus_zero line,
            wrap_i32_id line h,
            wrap_i32_id (pos t.grid.lines) (omega (arith, v.few_lines), omega arith),
            wrap_i32_id (pos t.grid.lines -ℤ pos 1)
                (pred-IsI32 (pos t.grid.lines) refl v.few_lines),
          )
          refl
  ]

  -- The cursor is at the point, has not to wrap, and is on the screen; the rest of the grid, the mode, the scroll region and the character set are as before.
  abbrev pub MovedTo : Term T S K → ℤ → ℕ → Term T S K → Type 0
  MovedTo t line col t' =
      IsPlaced t'
      × ((point t').line ≡ line)
      × ((point t').column ≡ col)
      × (t'.grid.cursor.input_needs_wrap ≡ false)
      × (t'.grid ≡ record t.grid { cursor = t'.grid.cursor })
      × (t'.mode ≡ t.mode)
      × IsLike t t'

  -- `goto` does not panic on a terminal whose cursor and scroll region are on the screen, if the line and its sum with the start of the region are `i32`: the cursor goes to the column, or the last one if that is less, of the line, which in origin mode is counted from the start of the region and clamped to it, and clamped to the screen otherwise. The cursor has not to wrap then and is on the screen, and the rest of the grid, the mode, the scroll region and the character sets are as before.
  pub goto_lem :
      (t : Term T S K) (line : ℤ) (col : ℕ)
      → IsPlaced t
      → IsI32 line
      → IsI32 (line +ℤ t.region_start)
      → Returns (MovedTo t (target_line t line) (min col (t.grid.columns - 1))) (goto line col t)
  unfolding goto damage_cursor machine_line last_column
  goto_lem t line col v h k =
      let to : Point = record {
        line = machine_line t line;
        column = min col (last_column (size t));
      } in
      let e = machine_line-eq t line v h k in
      let on =
        subst (λ l. OnScreen t.grid (record { line = l; column = min col (last_column (size t)) }))
          (sym e) (target-OnScreen t line col v) in
      let (d, first, long) =
        mark-eq t (point t).line (point t).column (point t).column v.on_screen.0
          (omega (arith, v.on_screen, v.damaged)) in
      let u = with_point (record t { damage = d }) to in
      let (d', second, long') =
        mark-eq u to.line to.column to.column on.0 (omega (arith, on, v.damaged, long)) in
      rw (first, second)
        (
          placed t to d' false v on (long' ∙ long),
          e,
          refl,
          refl,
          refl,
          refl,
          alike t to d' false (long' ∙ long),
        )

  -- In origin mode, with a scroll region that does not begin at the top and a cursor above the last line of the region, setting the column alone with `goto_col` moves the cursor down.
  pub goto_col_descends :
      (t : Term T S K) (col : ℕ)
      → IsPlaced t
      → t.mode.origin ≡ true
      → 1 ≤ pos_part t.region_start
      → pos_part (point t).line + 1 < pos_part t.region_end
      → IsI32 ((point t).line +ℤ t.region_start)
      → Returns (λ t'. pos_part (point t).line < pos_part (point t').line) (goto_col col t)
  unfolding goto_col
  goto_col_descends t col v origin one above k =
      Returns-map {P = MovedTo t (target_line t (point t).line) (min col (t.grid.columns - 1))}
        (goto (point t).line col t)
        (λ t' m. subst (λ l. pos_part (point t).line < pos_part l) (sym m.1) lower)
        (goto_lem t (point t).line col v
          (omega (arith, v.on_screen, v.few_lines), omega (arith, v.on_screen)) k)
    where
      lower : pos_part (point t).line < pos_part (target_line t (point t).line)
      lower = rw origin (
          below (point t).line t.region_start t.region_end v.on_screen.0 v.region_start_le.0 one
            above)
