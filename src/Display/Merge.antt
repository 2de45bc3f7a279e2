-- ===== src/Display/Merge.antt =====
-- The loop of `RenderDamageIterator::next` in cutty/src/display/damage.rs.
use cu_tty.Prelude.{
  ◌≡◌, refl, ◌∙◌, sym, ap, ap₂, Bool, not, List, [], ◌∷◌, ◌++◌, All, arith, subst, inl, inr,
  Bool-cases, if◌then◌else◌,
}
use cu_tty.Term.Damage.{LineDamageBounds}
use cu_tty.Display.{SizeInfo}
use cu_tty.Display.Rects.{
  DamageRect, rect_for_line, overdamage, merge_rects, rects_overlap, merge_while,
}
use cu_tty.Display.Boxes.{
  Box, rect_of, hull, Encloses, IsWindow, IsInside, OnView, cells_of, grown, merge_rects-eq,
  overdamage-eq, rect_for_line-eq,
}

module _ (s : SizeInfo) where
  grown-Encloses : (b : Box) → IsInside s b → IsInside s (grown s b) × Encloses (grown s b) b
  grown-Encloses b i = (
    (omega (arith, i), omega (arith, i), omega (arith, i), omega (arith, i)),
    (omega arith, omega arith, omega (arith, i), omega (arith, i)),
  )

  module _ (w : IsWindow s) where
    -- The rectangle of a line, grown.
    pub line-eq :
        (b : LineDamageBounds)
        → OnView s b
        → (overdamage s (rect_for_line s b) ≡ rect_of (grown s (cells_of s b)))
          × IsInside s (grown s (cells_of s b))
          × Encloses (grown s (cells_of s b)) (cells_of s b)
    line-eq b v =
        let (e, i) = rect_for_line-eq s b w v in
        let (inside, around) = grown-Encloses (cells_of s b) i in
        (ap (overdamage s) e ∙ overdamage-eq s (cells_of s b) w i, inside, around)

    -- The loop takes some lines, which are all inside the rectangle that it leaves.
    pub record Merged (a : Box) (lines : List LineDamageBounds) (r : DamageRect)
        (left : List LineDamageBounds) : Type 0 where
      pub box : Box
      pub shown : (r ≡ rect_of box) × IsInside s box
      pub larger : Encloses box a
      pub taken : List LineDamageBounds
      pub split : lines ≡ taken ++ left
      pub within : All (λ b. Encloses box (cells_of s b)) taken

    pub merge_while-Merged :
        (lines : List LineDamageBounds) (a : Box) (r : DamageRect)
        → All (OnView s) lines
        → r ≡ rect_of a
        → IsInside s a
        → Merged a lines (merge_while s r lines).0 (merge_while s r lines).1
    unfolding merge_while
    merge_while-Merged [] a r v e i = record {
      box = a;
      shown = (e, i);
      larger = (omega arith, omega arith, omega arith, omega arith);
      taken = [];
      split = refl;
      within = tt;
    }
    merge_while-Merged (b ∷ bs) a r v e i = elim (Bool-cases (rects_overlap r next_rect)) [
      | inl overlap ↦
          let (same, inside, _) = line-eq b v.0 in
          subst Here (sym overlap) (
            merged (
              merge_while-Merged bs (hull a cell) (merge_rects r next_rect) v.1
                (ap₂ merge_rects e same ∙ merge_rects-eq s a cell w i inside)
                (
                  omega (arith, i, inside),
                  omega (arith, i, inside),
                  omega (arith, i, inside),
                  omega (arith, i, inside),
                )))
      | inr apart ↦ subst Here (sym apart) (record {
        box = a;
        shown = (e, i);
        larger = (omega arith, omega arith, omega arith, omega arith);
        taken = [];
        split = refl;
        within = tt;
      })
    ]
      where
        next_rect : DamageRect
        next_rect = overdamage s (rect_for_line s b)

        both : DamageRect × List LineDamageBounds
        both = merge_while s (merge_rects r next_rect) bs

        Here : Bool → Type 0
        Here o =
            Merged a (b ∷ bs) (if not o then (r, b ∷ bs) else both).0
              (if not o then (r, b ∷ bs) else both).1

        cell : Box
        cell = grown s (cells_of s b)

        merged : Merged (hull a cell) bs both.0 both.1 → Merged a (b ∷ bs) both.0 both.1
        merged rest =
            let (_, _, around) = line-eq b v.0 in
            let more = rest.larger in
            record {
              box = rest.box;
              shown = rest.shown;
              larger = (
                omega (arith, more),
                omega (arith, more),
                omega (arith, more),
                omega (arith, more),
              );
              taken = b ∷ rest.taken;
              split = ap (λ xs. b ∷ xs) rest.split;
              within = (
                (
                  omega (arith, more, around),
                  omega (arith, more, around),
                  omega (arith, more, around),
                  omega (arith, more, around),
                ),
                rest.within,
              );
            }
