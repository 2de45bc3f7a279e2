-- ===== src/Selection/Move.antt =====
-- `Selection::rotate` of selection.rs moves a selection with the lines that scroll.
use cu_tty.Prelude.{
  ◌+◌, ◌<◌, ◌≡◌, refl, ◌∙◌, sym, ap, Bool, true, false, ◌&&◌, ◌||◌, not, if◌then◌else◌, none, some,
  arith, inl, inr, Bool-cases, leb_cases, le→leb, lt→ltb, le→ltb_false, subst,
}
use cu_tty.Prelude.Int.{ℤ, pos, pos_part, neg_part, ltb_ℤ, ◌-ℤ◌, ◌≤ℤ◌, -ℤ_parts}
use cu_tty.Prelude.Machine.{leb_ℤ, eqb_ℤ, min_ℤ, wrap_i32_id, IsI32}
use cu_tty.Index.{left, right, Dimensions, bottommost_line, last_column}
use cu_tty.Selection.{
  Anchor, SelectionType, is_block_type, Selection, rotate, rotate_start, rotate_end, upper, lower,
  is_reversed, move_to,
}

abbrev pub ◌<ℤ◌ : ℤ → ℤ → Type 0
a <ℤ b = pos_part a + neg_part b < pos_part b + neg_part a

infix 50 ◌<ℤ◌
-- What becomes of an upper anchor whose line moves to `line`, in a region that begins at `top`.
abbrev pub clamp_start : SelectionType → ℤ → ℤ → Anchor → Anchor
clamp_start ty top line a =
    if ltb_ℤ line top
    then (if is_block_type ty
        then move_to a top
        else record { point = record { line = top; column = 0 }; side = left })
    else move_to a line

-- What becomes of a lower anchor, in a region whose last line is `last`.
abbrev pub clamp_end : SelectionType → Dimensions → ℤ → ℤ → Anchor → Anchor
clamp_end ty d last line a =
    if ltb_ℤ last line
    then (if is_block_type ty
        then move_to a last
        else record { point = record { line = last; column = last_column d }; side = right })
    else move_to a line

abbrev pub with_anchors : Selection → Anchor → Anchor → Selection
with_anchors s first second =
    if is_reversed s
    then record s { start = second; end = first }
    else record s { start = first; end = second }

and_true : (b : Bool) → (b && true) ≡ b
and_true true = refl
and_true false = refl

top_low : (top : ℤ) → pos 1 ≤ℤ top → eqb_ℤ top (pos 0) ≡ false
top_low top h = ground arith

module _ (ty : SelectionType) (d : Dimensions) (top bottom delta : ℤ) where
  start_inside :
      (a b : Anchor)
      → pos 1 ≤ℤ top
      → top ≤ℤ a.point.line
      → a.point.line <ℤ bottom
      → b.point.line <ℤ bottom
      → bottom ≤ℤ bottommost_line d
      → IsI32 (a.point.line -ℤ delta)
      → rotate_start ty d top bottom delta a b ≡ (
          if leb_ℤ bottom (a.point.line -ℤ delta)
          then none
          else some (clamp_start ty top (a.point.line -ℤ delta) a))
  unfolding rotate_start
  start_inside a b one low high below fits i =
      rw
        (
          wrap_i32_id (a.point.line -ℤ delta) i,
          le→leb (pos_part top + neg_part a.point.line) (pos_part a.point.line + neg_part top)
              (omega arith),
          lt→ltb (pos_part a.point.line + neg_part bottom) (pos_part bottom + neg_part a.point.line)
              (omega arith),
          lt→ltb (pos_part b.point.line + neg_part bottom) (pos_part bottom + neg_part b.point.line)
              (omega arith),
        )
        (steps (a.point.line -ℤ delta) (bottommost_line d) one fits)
    where
      steps :
          (x last : ℤ)
          → pos 1 ≤ℤ top
          → bottom ≤ℤ last
          → (if leb_ℤ bottom (min_ℤ x last) && true
              then none
              else if ltb_ℤ (min_ℤ x last) top && not (eqb_ℤ top (pos 0))
              then some (
                  if is_block_type ty
                  then move_to a top
                  else record { point = record { line = top; column = 0 }; side = left })
              else some (move_to a (min_ℤ x last)))
            ≡ (if leb_ℤ bottom x then none else some (clamp_start ty top x a))
      steps x last one fits =
          rw (top_low top one)
            (elim (leb_cases (pos_part x + neg_part last) (pos_part last + neg_part x)) [
              | inl (e, _) ↦
                  rw (e, and_true (leb_ℤ bottom x), and_true (ltb_ℤ x top))
                    (elim (Bool-cases (ltb_ℤ x top)) [ inl f ↦ rw f refl | inr f ↦ rw f refl ])
              | inr (e, past) ↦
                  rw
                    (
                      e,
                      le→leb (pos_part bottom + neg_part last) (pos_part last + neg_part bottom)
                          (omega arith),
                      le→leb (pos_part bottom + neg_part x) (pos_part x + neg_part bottom)
                          (omega arith),
                    )
                    refl
            ])

  end_inside :
      (a b : Anchor)
      → pos 1 ≤ℤ top
      → top ≤ℤ b.point.line
      → b.point.line <ℤ bottom
      → a.point.line <ℤ bottom
      → bottom ≤ℤ bottommost_line d
      → IsI32 (b.point.line -ℤ delta)
      → IsI32 (bottom -ℤ pos 1)
      → rotate_end ty d top bottom delta a b ≡ (
          if ltb_ℤ (b.point.line -ℤ delta) a.point.line
          then none
          else some (clamp_end ty d (bottom -ℤ pos 1) (b.point.line -ℤ delta) b))
  unfolding rotate_end
  end_inside a b one low high below fits i j =
      rw
        (
          wrap_i32_id (b.point.line -ℤ delta) i,
          wrap_i32_id (bottom -ℤ pos 1) j,
          le→leb (pos_part top + neg_part b.point.line) (pos_part b.point.line + neg_part top)
              (omega arith),
          lt→ltb (pos_part b.point.line + neg_part bottom) (pos_part bottom + neg_part b.point.line)
              (omega arith),
        )
        (steps (b.point.line -ℤ delta) (bottommost_line d) (bottom -ℤ pos 1) below fits
          (omega (arith, -ℤ_parts bottom (pos 1))))
    where
      same_test :
          (x under : ℤ)
          → pos_part under + 1 + neg_part bottom ≡ neg_part under + pos_part bottom
          → leb_ℤ bottom x ≡ ltb_ℤ under x
      same_test x under e = ground arith

      steps :
          (x last under : ℤ)
          → a.point.line <ℤ bottom
          → bottom ≤ℤ last
          → pos_part under + 1 + neg_part bottom ≡ neg_part under + pos_part bottom
          → (if ltb_ℤ (min_ℤ x last) a.point.line
              then none
              else if leb_ℤ bottom (min_ℤ x last)
              then some (
                  if is_block_type ty then move_to b under else record {
                    point = record { line = under; column = last_column d };
                    side = right;
                  })
              else some (move_to b (min_ℤ x last)))
            ≡ (if ltb_ℤ x a.point.line then none else some (clamp_end ty d under x b))
      steps x last under below fits e =
          elim (leb_cases (pos_part x + neg_part last) (pos_part last + neg_part x)) [
            | inl (f, _) ↦
                rw (f, same_test x under e)
                  (elim (Bool-cases (ltb_ℤ under x)) [ inl c ↦ rw c refl | inr c ↦ rw c refl ])
            | inr (f, past) ↦
                rw
                  (
                    f,
                    le→leb (pos_part bottom + neg_part last) (pos_part last + neg_part bottom)
                        (omega arith),
                    le→ltb_false (pos_part last + neg_part a.point.line)
                        (pos_part a.point.line + neg_part last) (omega arith),
                    le→ltb_false (pos_part x + neg_part a.point.line)
                        (pos_part a.point.line + neg_part x) (omega arith),
                    lt→ltb (pos_part under + neg_part x) (pos_part x + neg_part under)
                        (omega arith),
                  )
                  refl
          ]

-- The upper anchor is not below the lower one.
in_order : (s : Selection) → (upper s).point.line ≤ℤ (lower s).point.line
in_order s = elim (Bool-cases (is_reversed s)) [
  | inl e ↦ rw e (ground (arith, e))
  | inr e ↦ rw e (ground (arith, e))
]

line-clamp_start :
    (ty : SelectionType) (top x : ℤ) (a : Anchor)
    → (clamp_start ty top x a).point.line ≡ (if ltb_ℤ x top then top else x)
line-clamp_start ty top x a = elim (Bool-cases (ltb_ℤ x top)) [
  | inl e ↦ rw e (elim (Bool-cases (is_block_type ty)) [ inl f ↦ rw f refl | inr f ↦ rw f refl ])
  | inr e ↦ rw e refl
]

start_test : (top xs xe : ℤ) → xs ≤ℤ xe → ltb_ℤ xe (if ltb_ℤ xs top then top else xs) ≡ ltb_ℤ xe top
start_test top xs xe h = ground arith

start_bound :
    (top xs bottom : ℤ)
    → top <ℤ bottom
    → leb_ℤ bottom xs ≡ false
    → (if ltb_ℤ xs top then top else xs) <ℤ bottom
start_bound top xs bottom h k = ground arith

-- A selection within a region that begins below the top line and ends above the bottom line, scrolled by `delta` lines: it is deleted if its first line leaves the region at the bottom or its last line at the top. If not, its lines move by `delta` and are cut off at the ends of the region; an anchor that is cut off goes to the first or the last column, except in a block.
pub rotate_region :
    (s : Selection) (d : Dimensions) (top bottom delta : ℤ)
    → pos 1 ≤ℤ top
    → top ≤ℤ (upper s).point.line
    → (lower s).point.line <ℤ bottom
    → bottom ≤ℤ bottommost_line d
    → IsI32 ((upper s).point.line -ℤ delta)
    → IsI32 ((lower s).point.line -ℤ delta)
    → IsI32 (bottom -ℤ pos 1)
    → rotate s d top bottom delta ≡ (
        if leb_ℤ bottom ((upper s).point.line -ℤ delta) || ltb_ℤ ((lower s).point.line -ℤ delta) top
        then none
        else some (
            with_anchors s
              (clamp_start s.ty top ((upper s).point.line -ℤ delta) (upper s))
              (clamp_end s.ty d (bottom -ℤ pos 1) ((lower s).point.line -ℤ delta) (lower s))))
unfolding rotate
rotate_region s d top bottom delta one low high fits i j k =
    let order = in_order s in
    let xs = (upper s).point.line -ℤ delta in
    let xe = (lower s).point.line -ℤ delta in
    let first = clamp_start s.ty top xs (upper s) in
    let line = line-clamp_start s.ty top xs (upper s) in
    rw
      (start_inside s.ty d top bottom delta (upper s) (lower s) one low (omega (arith, order)) high
        fits i)
      (elim (Bool-cases (leb_ℤ bottom xs)) [
        | inl e ↦ rw e refl
        | inr e ↦
            let inside : first.point.line <ℤ bottom =
              subst (λ l. l <ℤ bottom) (sym line)
                (start_bound top xs bottom (omega (arith, order)) e) in
            let test : ltb_ℤ xe first.point.line ≡ ltb_ℤ xe top =
              ap (ltb_ℤ xe) line
              ∙ start_test top xs xe (
                  omega (
                    arith,
                    order,
                    -ℤ_parts (upper s).point.line delta,
                    -ℤ_parts (lower s).point.line delta,
                  )) in
            rw
              (
                e,
                end_inside s.ty d top bottom delta first (lower s) one (omega (arith, order)) high
                    inside fits j k,
                test,
              )
              (elim (Bool-cases (ltb_ℤ xe top)) [ inl f ↦ rw f refl | inr f ↦ rw f refl ])
      ])
