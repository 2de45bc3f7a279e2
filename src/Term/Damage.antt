-- ===== src/Term/Damage.antt =====
-- The damage of the lines of the viewport, of term/mod.rs.
use cu_tty.Prelude.{
  ℕ, zero, suc, ◌+◌, ◌-◌, ◌≤◌, ◌<◌, ◌≡◌, refl, Bool, true, false, ltb, leb, if◌then◌else◌, Option,
  some, List, [], ◌∷◌, length, get_elem?, set, take, min, max, ◌>>=◌, arith, length-set, Returns,
  ap, ◌∙◌, lt→leb_false, le→leb, le→ltb_false, lt→ltb,
}
use cu_tty.Prelude.Int.{pos}
use cu_tty.Index.{Point}
use cu_tty.Prelude.Index.{get_elem?-lt}

pub record LineDamageBounds : Type 0 where
  pub line : ℕ
  pub left : ℕ
  pub right : ℕ

abbrev pub undamaged : ℕ → ℕ → LineDamageBounds
undamaged line num_cols = record { line = line; left = num_cols; right = 0 }

abbrev pub reset_bounds : ℕ → LineDamageBounds → LineDamageBounds
reset_bounds num_cols b = undamaged b.line num_cols

abbrev pub expand : ℕ → ℕ → LineDamageBounds → LineDamageBounds
expand left right b = record b { left = min b.left left; right = max b.right right }

abbrev pub is_damaged : LineDamageBounds → Bool
is_damaged b = leb b.left b.right

pub record TermDamageState : Type 0 where
  pub full : Bool
  pub lines : List LineDamageBounds
  pub last_cursor : Point

-- `(0..num_lines).map(…)`, from the line `from` on.
abbrev pub undamaged_lines : ℕ → ℕ → ℕ → List LineDamageBounds
undamaged_lines from zero num_cols = []
undamaged_lines from (suc n) num_cols =
    undamaged from num_cols ∷ undamaged_lines (suc from) n num_cols

-- `new`, and `resize`, which leaves the same state.
unfoldable pub new : ℕ → ℕ → TermDamageState
new num_cols num_lines = record {
  full = true;
  lines = undamaged_lines 0 num_lines num_cols;
  last_cursor = record { line = pos 0; column = 0 };
}

unfoldable pub resize : ℕ → ℕ → TermDamageState → TermDamageState
resize num_cols num_lines s = record s {
  last_cursor = record { line = pos 0; column = 0 };
  full = true;
  lines = undamaged_lines 0 num_lines num_cols;
}

unfoldable pub damage_line : ℕ → ℕ → ℕ → TermDamageState → Option TermDamageState
damage_line line left right s = do
  b ← get_elem? s.lines line
  some (record s { lines = set s.lines line (expand left right b) })

unfoldable pub damage_point : ℕ → ℕ → TermDamageState → Option TermDamageState
unfolding damage_line
damage_point line column s = damage_line line column column s

abbrev pub reset_all : ℕ → List LineDamageBounds → List LineDamageBounds
reset_all num_cols [] = []
reset_all num_cols (b ∷ bs) = reset_bounds num_cols b ∷ reset_all num_cols bs

unfoldable pub reset : ℕ → TermDamageState → TermDamageState
reset num_cols s = record s { full = false; lines = reset_all num_cols s.lines }

-- What `TermDamageIterator` yields until it ends.
abbrev pub damaged : ℕ → List LineDamageBounds → List LineDamageBounds
damaged offset [] = []
damaged offset (b ∷ bs) =
    let rest = damaged offset bs in
    if is_damaged b then record b { line = b.line + offset } ∷ rest else rest

unfoldable pub damage_iterator : List LineDamageBounds → ℕ → List LineDamageBounds
damage_iterator lines display_offset =
    damaged display_offset (take (length lines - display_offset) lines)

module _ (num_cols : ℕ) (wide : 1 ≤ num_cols) (offset : ℕ) where
  clean :
      (m : ℕ) (bs : List LineDamageBounds) → damaged offset (take m (reset_all num_cols bs)) ≡ []
  clean zero bs = refl
  clean (suc m) [] = refl
  clean (suc m) (b ∷ bs) = rw (lt→leb_false num_cols 0 (omega arith)) (clean m bs)

  one_line :
      (m i : ℕ) (bs : List LineDamageBounds) (b : LineDamageBounds)
      → i < length bs
      → is_damaged b ≡ true
      → damaged offset (take m (set (reset_all num_cols bs) i b))
        ≡ (if ltb i m then record b { line = b.line + offset } ∷ [] else [])
  one_line m i [] b h d = absurd (omega arith)
  one_line zero i (x ∷ bs) b h d =
      rw (le→ltb_false i 0 (omega arith)) (empty_take (set (reset_all num_cols (x ∷ bs)) i b))
    where
      empty_take : (xs : List LineDamageBounds) → damaged offset (take zero xs) ≡ []
      empty_take xs = refl
  one_line (suc m) zero (x ∷ bs) b h d =
      rw (d, lt→ltb 0 (suc m) (omega arith))
        (ap (λ rest. record b { line = b.line + offset } ∷ rest) (clean m bs))
  one_line (suc m) (suc i) (x ∷ bs) b h d = rw (lt→leb_false num_cols 0 (omega arith)) (
      one_line m i bs b (omega arith) d
      ∙ ap (λ t. if t then record b { line = b.line + offset } ∷ [] else []) (shift i m))
    where
      shift : (i m : ℕ) → ltb i m ≡ ltb (suc i) (suc m)
      shift i m = ground arith

get_elem?-reset_all :
    (num_cols : ℕ) (bs : List LineDamageBounds) (i : ℕ) (b : LineDamageBounds)
    → get_elem? bs i ≡ some b
    → get_elem? (reset_all num_cols bs) i ≡ some (reset_bounds num_cols b)
get_elem?-reset_all num_cols [] i b e = absurd (ground (arith, e))
get_elem?-reset_all num_cols (x ∷ bs) zero b e =
    ap (λ o. o >>= (λ y. some (reset_bounds num_cols y))) e
get_elem?-reset_all num_cols (x ∷ bs) (suc i) b e = get_elem?-reset_all num_cols bs i b e

-- After a reset and the damage of one line, from one column to another that is not left of it, the iterator yields this line alone, with exactly these columns, moved down by the display offset; it yields nothing if that moves the line out of the viewport.
pub damage_iterator_lem :
    (s : TermDamageState) (num_cols line left right offset : ℕ) (b : LineDamageBounds)
    → get_elem? s.lines line ≡ some b
    → left ≤ right
    → right < num_cols
    → Returns
        (λ s'.
          (damage_iterator s'.lines offset ≡ (
            if ltb (line + offset) (length s.lines)
            then record { line = b.line + offset; left = left; right = right } ∷ []
            else []))
          × (s'.full ≡ false))
        (damage_line line left right (reset num_cols s))
unfolding damage_line reset damage_iterator
damage_iterator_lem s num_cols line left right offset b e h k =
    rw (get_elem?-reset_all num_cols s.lines line b e) (
      ap
            (λ n. damaged offset (
              take (n - offset) (
                set (reset_all num_cols s.lines) line
                  (expand left right (reset_bounds num_cols b)))))
            (length-set (reset_all num_cols s.lines) line
                (expand left right (reset_bounds num_cols b))
              ∙ length-reset_all num_cols s.lines)
          ∙ one_line num_cols (omega arith) offset (length s.lines - offset) line s.lines
              (expand left right (reset_bounds num_cols b)) (get_elem?-lt s.lines line e)
              (le→leb (min num_cols left) (max 0 right) (omega arith))
          ∙ rows,
      refl,
    )
  where
    length-reset_all : (n : ℕ) (bs : List LineDamageBounds) → length (reset_all n bs) ≡ length bs
    length-reset_all n [] = refl
    length-reset_all n (x ∷ bs) = ap suc (length-reset_all n bs)

    rows :
        if◌then◌else◌ {A = List LineDamageBounds}
          (ltb line (length s.lines - offset))
          (record { line = b.line + offset; left = min num_cols left; right = max 0 right } ∷ [])
          []
        ≡ if◌then◌else◌ {A = List LineDamageBounds}
            (ltb (line + offset) (length s.lines))
            (record { line = b.line + offset; left = left; right = right } ∷ [])
            []
    rows = ground arith
