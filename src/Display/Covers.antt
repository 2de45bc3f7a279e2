-- ===== src/Display/Covers.antt =====
-- What `RenderDamageIterator` of cutty/src/display/damage.rs yields for the damaged lines.
use cu_tty.Prelude.{
  ℕ, zero, suc, ◌+◌, ◌-◌, ◌≤◌, ◌<◌, ◌≡◌, ◌∙◌, sym, ap, refl, ap₂, Bool, true, some, List, [], ◌∷◌,
  ◌++◌, length, get_elem?, All, All-append, All-get, arith, Returns, Returns-eq, subst, inl, inr,
  ◌⊎◌, Bool-cases, if◌then◌else◌, length-append, false,
}
use cu_tty.Prelude.Int.{pos}
use cu_tty.Prelude.Index.{get_elem?-append_left, take_all_lem, get_elem?-lt}
use cu_tty.Prelude.Machine.{as_i32}
use cu_tty.Term.Damage.{LineDamageBounds, is_damaged, damage_iterator, damaged}
use cu_tty.Display.{SizeInfo}
use cu_tty.Display.Frames.{DamageTracker, shape_frame_damage}
use cu_tty.Display.Rects.{DamageRect, rect_for_line, overdamage, merge_while, next, yielded, render}
use cu_tty.Display.Boxes.{
  Box, rect_of, Encloses, IsWindow, IsInside, OnView, cells_of, grown, rect_for_line-eq, small_i32,
}
use cu_tty.Display.Merge.{line-eq, merge_while-Merged}

-- Some element of the list has the property.
abbrev pub AtSome : {A : Type 0} → (A → Type 0) → List A → Type 0
AtSome P xs = (k : ℕ) × Returns P (get_elem? xs k)

module _ {A : Type 0} where
  AtSome-append : (P : A → Type 0) (xs ys : List A) → AtSome P xs → AtSome P (xs ++ ys)
  AtSome-append P xs ys (k, h) =
      let (a, e, p) = Returns-eq (get_elem? xs k) h in
      (k, subst (Returns P) (sym (get_elem?-append_left xs ys k (get_elem?-lt xs k e) ∙ e)) p)

  All-append_left : (P : A → Type 0) (xs ys : List A) → All P (xs ++ ys) → All P ys
  All-append_left P [] ys h = h
  All-append_left P (x ∷ xs) ys h = All-append_left P xs ys h.1

  All-weaken : (P Q : A → Type 0) → ((x : A) → P x → Q x) → (xs : List A) → All P xs → All Q xs
  All-weaken P Q f [] h = tt
  All-weaken P Q f (x ∷ xs) h = (f x h.0, All-weaken P Q f xs h.1)

  All-among : (xs : List A) → All (λ x. AtSome (λ y. y ≡ x) xs) xs
  All-among [] = tt
  All-among (x ∷ xs) =
      ((0, refl), All-weaken _ _ (λ y (k, found). (suc k, found)) xs (All-among xs))

module _ (s : SizeInfo) where
  -- The rectangle is a box inside the window.
  abbrev pub IsShown : DamageRect → Type 0
  IsShown r = (b : Box) × (r ≡ rect_of b) × IsInside s b

  -- The rectangle is a box inside the window, around the damaged cells of the line.
  abbrev pub Redraws : LineDamageBounds → DamageRect → Type 0
  Redraws line r = (b : Box) × (r ≡ rect_of b) × IsInside s b × Encloses b (cells_of s line)

  module _ (w : IsWindow s) where
    -- What is yielded for the lines, with a round for each of them.
    abbrev Rendered : List LineDamageBounds → List DamageRect → Type 0
    Rendered lines rects = All (λ b. AtSome (Redraws b) rects) lines × All IsShown rects

    yielded-Rendered :
        (rounds : ℕ) (lines : List LineDamageBounds)
        → length lines ≤ rounds
        → All (OnView s) lines
        → Rendered lines (yielded s rounds lines)
    unfolding yielded next
    yielded-Rendered zero [] h v = (tt, tt)
    yielded-Rendered zero (b ∷ bs) h v = absurd (omega arith)
    yielded-Rendered (suc rounds) [] h v = (tt, tt)
    yielded-Rendered (suc rounds) (b ∷ bs) h v =
        let (same, inside, around) = line-eq s w b v.0 in
        let m =
          merge_while-Merged s w bs (grown s (cells_of s b)) (overdamage s (rect_for_line s b)) v.1
            same inside in
        let left = (merge_while s (overdamage s (rect_for_line s b)) bs).1 in
        let rest =
          yielded-Rendered rounds left
            (omega (arith, h, ap length m.split, length-append m.taken left))
            (All-append_left (OnView s) m.taken left (subst (All (OnView s)) m.split v.1)) in
        let here : (c : LineDamageBounds)
            → Encloses m.box (cells_of s c)
            → AtSome (Redraws c) (yielded s (suc rounds) (b ∷ bs)) =
          λ c k. (0, (m.box, m.shown.0, m.shown.1, k)) in
        (
          (
            here b (
              omega (arith, m.larger, around),
              omega (arith, m.larger, around),
              omega (arith, m.larger, around),
              omega (arith, m.larger, around),
            ),
            subst (All _) (sym m.split) (
                All-append _ m.taken left (All-weaken _ _ here m.taken m.within)
                  (All-weaken _ _ (λ c (k, x). (suc k, x)) left rest.0)),
          ),
          ((m.box, m.shown.0, m.shown.1), rest.1),
        )

    -- Every line's bounds are on the screen.
    abbrev pub Bounded : List LineDamageBounds → Type 0
    Bounded = All (λ b. (b.right < s.columns) × (b.line < s.screen_lines))

    same_line : (b : LineDamageBounds) → record b { line = b.line + 0 } ≡ b
    same_line b = ap (λ n. record b { line = n }) {x = b.line + 0} {y = b.line} (omega arith)

    -- A line is yielded, or passed over.
    by_damage :
        (P : List LineDamageBounds → Type 0) (b : LineDamageBounds) (bs : List LineDamageBounds)
        → (is_damaged b ≡ true → P (b ∷ damaged 0 bs))
        → (is_damaged b ≡ false → P (damaged 0 bs))
        → P (damaged 0 (b ∷ bs))
    by_damage P b bs h k = elim (Bool-cases (is_damaged b)) [
      | inl e ↦
          subst (λ d. P (if d then record b { line = b.line + 0 } ∷ damaged 0 bs else damaged 0 bs))
            (sym e) (subst (λ c. P (c ∷ damaged 0 bs)) (sym (same_line b)) (h e))
      | inr e ↦
          subst (λ d. P (if d then record b { line = b.line + 0 } ∷ damaged 0 bs else damaged 0 bs))
            (sym e) (k e)
    ]

    damaged-OnView :
        (lines : List LineDamageBounds) → Bounded lines → All (OnView s) (damaged 0 lines)
    damaged-OnView [] h = tt
    damaged-OnView (b ∷ bs) h =
        let rest = damaged-OnView bs h.1 in
        by_damage (All (OnView s)) b bs (λ e. ((ground (arith, e), h.0.0, h.0.1), rest)) (λ _. rest)

    at_damaged :
        (lines : List LineDamageBounds) (k : ℕ) (b : LineDamageBounds)
        → get_elem? lines k ≡ some b
        → is_damaged b ≡ true
        → AtSome (λ c. c ≡ b) (damaged 0 lines)
    at_damaged [] k b at e = absurd (ground arith)
    at_damaged (x ∷ xs) zero b at e =
        let same : x ≡ b = cc in
        by_damage (AtSome (λ c. c ≡ b)) x xs (λ _. (0, same))
          (λ d. absurd (ground (arith, sym d ∙ ap is_damaged same ∙ e)))
    at_damaged (x ∷ xs) (suc k) b at e =
        let (i, found) = at_damaged xs k b at e in
        by_damage (AtSome (λ c. c ≡ b)) x xs (λ _. (suc i, found)) (λ _. (i, found))

    -- What the iterator yields for the lines of a frame.
    render-Rendered :
        (lines : List LineDamageBounds)
        → Bounded lines
        → Rendered (damaged 0 lines) (render s (damage_iterator lines 0))
    unfolding render damage_iterator
    render-Rendered lines v =
        subst (λ xs. Rendered (damaged 0 lines) (yielded s (length (damaged 0 xs)) (damaged 0 xs)))
          (sym (take_all_lem lines (length lines - 0) (omega arith)))
          (yielded-Rendered (length (damaged 0 lines)) (damaged 0 lines) (omega arith)
            (damaged-OnView lines v))

    -- What is redrawn for a frame whose bounds are on the screen, in a window in which the grid has room and whose sides are shorter than 2^29 pixels: for every damaged line there is a rectangle inside the window and around the damaged cells of the line, and every rectangle is inside the window or is one of those that were added to the frame, whatever these are.
    pub shape_frame_damage_lem :
        (t : DamageTracker)
        → Bounded t.frame.lines
        → ((b : LineDamageBounds) (k : ℕ)
            → get_elem? t.frame.lines k ≡ some b
            → is_damaged b ≡ true
            → AtSome (Redraws b) (shape_frame_damage s t))
          × All (λ r. IsShown r ⊎ AtSome (λ q. q ≡ r) t.frame.rects) (shape_frame_damage s t)
    unfolding shape_frame_damage
    shape_frame_damage_lem t v = elim (Bool-cases t.frame.full) [
      | inl e ↦ subst Here (sym e) (
        (λ b k at d. (0, (window, whole, inside, around b k at d))),
        (inl (window, whole, inside), tt),
      )
      | inr e ↦
          let (redrawn, rendered) = render-Rendered t.frame.lines v in
          subst Here (sym e) (
            (λ b k at d.
                let (i, found) = at_damaged t.frame.lines k b at d in
                let (c, same, is_b) = Returns-eq (get_elem? (damaged 0 t.frame.lines) i) found in
                AtSome-append (Redraws b) (render s (damage_iterator t.frame.lines 0)) t.frame.rects
                  (subst (λ c. AtSome (Redraws c) (render s (damage_iterator t.frame.lines 0))) is_b
                    (All-get _ (damaged 0 t.frame.lines) i redrawn same))),
            All-append Accounted (render s (damage_iterator t.frame.lines 0)) t.frame.rects
                (All-weaken IsShown Accounted (λ _ shown. inl shown)
                  (render s (damage_iterator t.frame.lines 0)) rendered)
                (All-weaken _ Accounted (λ _ added. inr added) t.frame.rects
                  (All-among t.frame.rects)),
          )
    ]
      where
        Accounted : DamageRect → Type 0
        Accounted r = IsShown r ⊎ AtSome (λ q. q ≡ r) t.frame.rects

        window : Box
        window = record { left = 0; bottom = 0; right = s.width; top = s.height }

        inside : IsInside s window
        inside = (omega arith, omega arith, omega arith, omega arith)

        around :
            (b : LineDamageBounds) (k : ℕ)
            → get_elem? t.frame.lines k ≡ some b
            → is_damaged b ≡ true
            → Encloses window (cells_of s b)
        around b k at d =
            let (columns, lines) = All-get _ t.frame.lines k v at in
            let (_, cells) = rect_for_line-eq s b w (ground (arith, d), columns, lines) in
            (omega arith, omega arith, omega (arith, cells), omega (arith, cells))

        full_rect : DamageRect
        full_rect = record {
          x = pos 0;
          y = pos 0;
          width = as_i32 s.width;
          height = as_i32 s.height;
        }

        whole : full_rect ≡ rect_of window
        whole =
            ap₂ (λ u v. record { x = pos 0; y = pos 0; width = u; height = v })
              (small_i32 s.width (omega (arith, w.small)) ∙ ap pos (omega arith))
              (small_i32 s.height (omega (arith, w.small)) ∙ ap pos (omega arith))

        Here : Bool → Type 0
        Here full =
            ((b : LineDamageBounds) (k : ℕ)
              → get_elem? t.frame.lines k ≡ some b
              → is_damaged b ≡ true
              → AtSome (Redraws b) (
                  if full
                  then full_rect ∷ []
                  else render s (damage_iterator t.frame.lines 0) ++ t.frame.rects))
            × All Accounted (
                if full
                then full_rect ∷ []
                else render s (damage_iterator t.frame.lines 0) ++ t.frame.rects)
