-- ===== src/Row/Valid.antt =====
-- The promise of `occ` in grid/row.rs: every cell after it is the same blank cell.
use cu_tty.Prelude.{
  ℕ, ◌+◌, ◌-◌, ◌≤◌, ◌<◌, ◌≡◌, refl, ◌∙◌, sym, ap, leb, some, List, ◌++◌, map, length, get_elem?,
  take, drop, arith, Returns, le→leb, get_elem?-set_ne, length-append, length-take, length-drop,
  length-replicate, length-set, length-map, Bool-cases, inl, inr,
}
use cu_tty.Prelude.Index.{
  get_elem?-append_right, get_elem?-drop, get_elem?-take, get_elem?-replicate, get_elem?-some,
}
use cu_tty.Row.{
  GridCell, IsLawful, Row, new, shrink, append_front, front_split_off, modify, modify_range,
}

module _ {T : Type 0} (cell : GridCell T) where
  -- The cell that a reset by `t` leaves.
  abbrev pub blank : T → T
  blank t = cell.reset t t

  pub record IsValid (t : T) (r : Row T) : Type 0 where
    pub occ_le : r.occ ≤ length r.inner
    pub clean : (i : ℕ) → r.occ ≤ i → i < length r.inner → get_elem? r.inner i ≡ some (blank t)

  pub new-IsValid :
      IsLawful cell
      → (columns : ℕ) → 1 ≤ columns
      → Returns (λ r. IsValid cell.default r × (length r.inner ≡ columns)) (new cell columns)
  unfolding new
  new-IsValid law columns h = rw (le→leb 1 columns h) (
    record {
      occ_le = omega arith;
      clean = λ i _ k.
          get_elem?-replicate columns cell.default i
            (omega (arith, length-replicate columns cell.default))
          ∙ ap some (sym law.reset_default);
    },
    length-replicate columns cell.default,
  )

  pub shrink-IsValid :
      (t : T) (r : Row T) (columns : ℕ) → IsValid t r → IsValid t (shrink cell r columns).0
  unfolding shrink
  shrink-IsValid t r columns v = elim (Bool-cases (leb (length r.inner) columns)) [
    | inl e ↦ rw e v
    | inr e ↦ rw e (record {
      occ_le = omega (arith, length-take columns r.inner, v.occ_le);
      clean = λ i h k.
          get_elem?-take columns r.inner i (omega (arith, length-take columns r.inner))
          ∙ v.clean i (omega (arith, v.occ_le, length-take columns r.inner))
              (omega (arith, length-take columns r.inner));
    })
  ]

  pub append_front-IsValid :
      (t : T) (r : Row T) (vec : List T) → IsValid t r → IsValid t (append_front r vec)
  unfolding append_front
  append_front-IsValid t r vec v = record {
    occ_le = omega (arith, v.occ_le, length-append vec r.inner);
    clean = λ i h k.
        get_elem?-append_right vec r.inner i (i - length vec) (omega arith)
        ∙ v.clean (i - length vec) (omega arith) (omega (arith, length-append vec r.inner));
  }

  pub front_split_off-IsValid :
      (t : T) (r : Row T) (at : ℕ)
      → IsValid t r
      → at ≤ length r.inner
      → Returns (λ out. IsValid t out.0) (front_split_off r at)
  unfolding front_split_off
  front_split_off-IsValid t r at v h = rw (le→leb at (length r.inner) h) (record {
    occ_le = omega (arith, v.occ_le, length-drop at r.inner);
    clean = λ i k l.
        get_elem?-drop at r.inner i (at + i) refl
        ∙ v.clean (at + i) (omega arith) (omega (arith, length-drop at r.inner));
  })

  pub modify-IsValid :
      (t : T) (r : Row T) (column : ℕ) (f : T → T)
      → IsValid t r
      → column < length r.inner
      → Returns (λ r'. IsValid t r' × (length r'.inner ≡ length r.inner)) (modify column f r)
  unfolding modify
  modify-IsValid t r column f v h =
      let (c, e) = get_elem?-some r.inner column h in
      rw e (
        record {
          occ_le = omega (arith, v.occ_le, length-set r.inner column (f c));
          clean = λ i k l.
              get_elem?-set_ne r.inner (f c) (omega arith)
              ∙ v.clean i (omega arith) (omega (arith, length-set r.inner column (f c)));
        },
        length-set r.inner column (f c),
      )

  length-splice :
      (xs : List T) (start end : ℕ) (f : T → T)
      → start ≤ end
      → end ≤ length xs
      → length (take start xs ++ (map f (take (end - start) (drop start xs)) ++ drop end xs))
        ≡ length xs
  length-splice xs start end f h k = omega (
    arith,
    length-append (take start xs) (map f (take (end - start) (drop start xs)) ++ drop end xs),
    length-append (map f (take (end - start) (drop start xs))) (drop end xs),
    length-map (take (end - start) (drop start xs)) f,
    length-take start xs,
    length-take (end - start) (drop start xs),
    length-drop start xs,
    length-drop end xs,
  )

  -- Past `end` a splice changes nothing.
  get_elem?-splice_after :
      (xs : List T) (start end : ℕ) (f : T → T) (i : ℕ)
      → start ≤ end
      → end ≤ length xs
      → end ≤ i
      → get_elem? (take start xs ++ (map f (take (end - start) (drop start xs)) ++ drop end xs)) i
        ≡ get_elem? xs i
  get_elem?-splice_after xs start end f i h k l =
      let middle = map f (take (end - start) (drop start xs)) in
      get_elem?-append_right (take start xs) (middle ++ drop end xs) i (i - start)
        (omega (arith, length-take start xs))
      ∙ get_elem?-append_right middle (drop end xs) (i - start) (i - end) (
          omega (
            arith,
            length-map (take (end - start) (drop start xs)) f,
            length-take (end - start) (drop start xs),
            length-drop start xs,
          ))
      ∙ get_elem?-drop end xs (i - end) i (omega arith)

  -- Changing the cells from `start` up to `end` of a row, for `start ≤ end` within the row, does not panic and keeps the width of the row and the promise of its count of occupied cells.
  pub modify_range-IsValid :
      (t : T) (r : Row T) (start end : ℕ) (f : T → T)
      → IsValid t r
      → start ≤ end
      → end ≤ length r.inner
      → Returns
          (λ r'. IsValid t r' × (length r'.inner ≡ length r.inner))
          (modify_range start end f r)
  unfolding modify_range
  modify_range-IsValid t r start end f v h k =
      rw (le→leb start end h, le→leb end (length r.inner) k)
        (
          record {
            occ_le = omega (arith, v.occ_le, length-splice r.inner start end f);
            clean = λ i l m.
                get_elem?-splice_after r.inner start end f i h k (omega arith)
                ∙ v.clean i (omega arith) (omega (arith, length-splice r.inner start end f));
          },
          length-splice r.inner start end f h k,
        )
