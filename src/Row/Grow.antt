-- ===== src/Row/Grow.antt =====
-- `Row::grow` of grid/row.rs appends default cells behind cells that may be blank in another
-- colour, and leaves the count of occupied cells.
use cu_tty.Prelude.{
  ℕ, ◌+◌, ◌-◌, ◌<◌, ◌≡◌, refl, ◌∙◌, sym, ap, List, inl, inr, leb_cases, true, some, ◌++◌, length,
  get_elem?, replicate, arith, length-append, length-replicate, lt→leb_false, le→leb, subst,
}
use cu_tty.Prelude.Index.{get_elem?-append_left, get_elem?-append_right, get_elem?-replicate}
use cu_tty.Row.{GridCell, IsLawful, Row, grow, reset}
use cu_tty.Row.Valid.{IsValid, blank}

module _ {T : Type 0} (cell : GridCell T) where
  -- The row of `n` cells that a reset by `s` leaves.
  abbrev pub cleared : ℕ → T → Row T
  cleared n s = record { inner = replicate n (blank cell s); occ = 0 }

module _ {T : Type 0} (cell : GridCell T) (law : IsLawful cell) where
  -- Where the row was cleared in the default colour, growing it keeps the promise of `occ`.
  pub grow-IsValid :
      (r : Row T) (columns : ℕ)
      → IsValid cell cell.default r
      → IsValid cell cell.default (grow cell r columns)
  unfolding grow
  grow-IsValid r columns v = elim (leb_cases columns (length r.inner)) [
    | inl (e, h) ↦ rw e v
    | inr (e, h) ↦ rw e (record {
      occ_le = omega (arith, v.occ_le, long);
      clean = λ i a b. elim (leb_cases (length r.inner) i) [
        | inl (_, k) ↦
            get_elem?-append_right r.inner fill i (i - length r.inner) (omega arith)
            ∙ get_elem?-replicate (columns - length r.inner) cell.default (i - length r.inner)
                (omega (arith, long))
            ∙ ap some (sym law.reset_default)
        | inr (_, k) ↦ get_elem?-append_left r.inner fill i k ∙ v.clean i a k
      ];
    })
  ]
    where
      fill : List T
      fill = replicate (columns - length r.inner) cell.default

      long : length (r.inner ++ fill) ≡ length r.inner + (columns - length r.inner)
      long = omega (
        arith,
        length-append r.inner fill,
        length-replicate (columns - length r.inner) cell.default,
      )

  -- A row of `n > 0` cells that was cleared by a template `s`, grown to more columns, is left as it is by a reset with the default template: every cell of the old width is still blank in the colour of `s`, whatever `s` is.
  pub reset-grow_stale :
      (n columns : ℕ) (s : T)
      → 0 < n
      → n < columns
      → (reset cell (grow cell (cleared cell n s) columns) cell.default
          ≡ some (grow cell (cleared cell n s) columns))
        × ((i : ℕ)
            → i < n
            → get_elem? (grow cell (cleared cell n s) columns).inner i ≡ some (blank cell s))
  unfolding grow reset
  reset-grow_stale n columns s h k =
      rw (lt→leb_false columns (length (replicate n (blank cell s))) (omega (arith, long))) (
        rw (last, same, le→leb 0 (length (replicate n (blank cell s) ++ fill)) (omega arith)) refl,
        λ i l.
            get_elem?-append_left (replicate n (blank cell s)) fill i (omega (arith, long))
            ∙ get_elem?-replicate n (blank cell s) i l,
      )
    where
      long : length (replicate n (blank cell s)) ≡ n
      long = length-replicate n (blank cell s)

      fill : List T
      fill = replicate (columns - length (replicate n (blank cell s))) cell.default

      last :
          get_elem?
            (replicate n (blank cell s) ++ fill)
            (length (replicate n (blank cell s) ++ fill) - 1)
          ≡ some cell.default
      last =
          get_elem?-append_right (replicate n (blank cell s)) fill _ (columns - n - 1) (
            omega (
              arith,
              long,
              length-append (replicate n (blank cell s)) fill,
              length-replicate (columns - length (replicate n (blank cell s))) cell.default,
            ))
          ∙ get_elem?-replicate (columns - length (replicate n (blank cell s))) cell.default
              (columns - n - 1) (omega (arith, long))

      same : cell.same_discriminant cell.default cell.default ≡ true
      same =
          subst (λ c. cell.same_discriminant c cell.default ≡ true) law.reset_default
            (law.reset_discriminant cell.default cell.default)
