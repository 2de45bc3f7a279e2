-- ===== src/Row/Blanks.antt =====
-- Inserting and deleting cells in a row, in cutty_terminal/src/term/mod.rs: what `insert_blank` and
-- `delete_chars` do to the slice of the row's cells. `columns` is the width of the grid.
use cu_tty.Prelude.{
  ℕ, ◌+◌, ◌-◌, ◌≤◌, ◌<◌, ◌≡◌, ◌∙◌, ap, leb, Option, some, List, ◌++◌, map, length, get_elem?, take,
  drop, min, arith, Returns, Returns-bind, Returns-map, ◌>>=◌, le→leb, inl, inr, ltb, ltb_cases,
  length-append, length-take, length-drop, length-map, if◌then◌else◌, leb_cases, refl, zero, suc,
  [], ◌∷◌,
}
use cu_tty.Prelude.Index.{
  get_elem?-append_left, get_elem?-append_right, get_elem?-take, get_elem?-drop,
}
use cu_tty.Row.Shift.{swap_each, swap_each_rev, fill, swap_each-Pulled, swap_each_rev-Pushed}

module _ {T : Type 0} where
  unfoldable pub insert_cells : ℕ → ℕ → ℕ → T → List T → Option (List T)
  unfolding swap_each_rev fill
  insert_cells columns source count c xs = do
    let destination = source + count
    ys ← swap_each_rev (columns - destination) source destination xs
    fill source destination c ys

  unfoldable pub delete_cells : ℕ → ℕ → ℕ → T → List T → Option (List T)
  unfolding swap_each fill
  delete_cells columns start count c xs = do
    let end = min (start + count) (columns - 1)
    ys ← swap_each (columns - end) start end xs
    fill (columns - count) (length ys) c ys

  constant_at :
      (xs : List T) (c : T) (k : ℕ) → k < length xs → get_elem? (map (λ _. c) xs) k ≡ some c
  constant_at [] c k h = absurd (omega arith)
  constant_at (x ∷ xs) c zero h = refl
  constant_at (x ∷ xs) c (suc k) h = constant_at xs c k (omega arith)

  -- Between the two places stands the new cell, elsewhere nothing changes.
  abbrev pub Filled : ℕ → ℕ → T → List T → List T → Type 0
  Filled start end c xs ys =
      (length ys ≡ length xs)
      × ((k : ℕ) → start ≤ k → k < end → get_elem? ys k ≡ some c)
      × ((k : ℕ) → k < start → get_elem? ys k ≡ get_elem? xs k)
      × ((k : ℕ) → end ≤ k → get_elem? ys k ≡ get_elem? xs k)

  pub fill-Filled :
      (start end : ℕ) (c : T) (xs : List T)
      → start ≤ end
      → end ≤ length xs
      → Returns (Filled start end c xs) (fill start end c xs)
  unfolding fill
  fill-Filled start end c xs h k =
      let part = take (end - start) (drop start xs) in
      let middle = map (λ _. c) part in
      let short : length part ≡ end - start =
        omega (arith, length-take (end - start) (drop start xs), length-drop start xs) in
      let mid : length middle ≡ end - start = length-map part (λ _. c) ∙ short in
      let low : length (take start xs) ≡ start = omega (arith, length-take start xs) in
      rw (le→leb start end h, le→leb end (length xs) k)
        (
          omega (
            arith,
            length-append (take start xs) (middle ++ drop end xs),
            length-append middle (drop end xs),
            length-drop end xs,
          ),
          λ i a b.
              get_elem?-append_right (take start xs) (middle ++ drop end xs) i (i - start)
                (omega arith)
              ∙ get_elem?-append_left middle (drop end xs) (i - start) (omega arith)
              ∙ constant_at part c (i - start) (omega arith),
          λ i a.
              get_elem?-append_left (take start xs) (middle ++ drop end xs) i (omega arith)
              ∙ get_elem?-take start xs i a,
          λ i a.
              get_elem?-append_right (take start xs) (middle ++ drop end xs) i (i - start)
                (omega arith)
              ∙ get_elem?-append_right middle (drop end xs) (i - start) (i - end) (omega arith)
              ∙ get_elem?-drop end xs (i - end) i (omega arith),
        )

  -- The row after `count` cells were inserted at `source`.
  abbrev pub inserted : ℕ → ℕ → T → List T → ℕ → Option T
  inserted source count c xs k =
      if ltb k source
      then get_elem? xs k
      else if ltb k (source + count)
      then some c
      else get_elem? xs (k - count)

  pub insert_cells_lem :
      (columns source count : ℕ) (c : T) (xs : List T)
      → length xs ≡ columns
      → source + count ≤ columns
      → Returns
          (λ ys.
            (length ys ≡ columns)
            × ((k : ℕ) → k < columns → get_elem? ys k ≡ inserted source count c xs k))
          (insert_cells columns source count c xs)
  unfolding insert_cells
  insert_cells_lem columns source count c xs w h =
      Returns-bind _ (swap_each_rev (columns - (source + count)) source (source + count) xs) _
        (swap_each_rev-Pushed (columns - (source + count)) source (source + count) xs (omega arith)
          (omega arith))
        λ ys (long, before, moved, _).
          Returns-map (fill source (source + count) c ys)
            (λ zs (long', new, left, right). (
              long' ∙ long ∙ w,
              λ k b. elim (ltb_cases k source) [
                | inl (e, l) ↦ rw e (left k l ∙ before k l)
                | inr (e, l) ↦ elim (ltb_cases k (source + count)) [
                  | inl (e', m) ↦ rw (e, e') (new k l m)
                  | inr (e', m) ↦
                      rw (e, e')
                        (right k m
                          ∙ ap (get_elem? ys) (omega arith)
                          ∙ moved (k - (source + count)) (omega arith)
                          ∙ ap (get_elem? xs) (omega arith))
                ]
              ],
            ))
            (fill-Filled source (source + count) c ys (omega arith) (omega (arith, long)))

  -- The row after `count` cells were deleted at `start`, as the code has it.
  abbrev pub deleted : ℕ → ℕ → ℕ → T → List T → ℕ → Option T
  deleted columns start count c xs k =
      if leb (columns - count) k
      then some c
      else if ltb k start
      then get_elem? xs k
      else get_elem? xs (k + count)

  pub delete_cells_lem :
      (columns start count : ℕ) (c : T) (xs : List T)
      → length xs ≡ columns
      → start < columns
      → count ≤ columns
      → Returns
          (λ ys.
            (length ys ≡ columns)
            × ((k : ℕ) → k < columns → get_elem? ys k ≡ deleted columns start count c xs k))
          (delete_cells columns start count c xs)
  unfolding delete_cells
  delete_cells_lem columns start count c xs w h few =
      let end = min (start + count) (columns - 1) in
      Returns-bind _ (swap_each (columns - end) start end xs) _
        (swap_each-Pulled (columns - end) start end xs (omega arith) (omega arith))
        λ ys (long, before, moved, _).
          Returns-map (fill (columns - count) (length ys) c ys)
            (λ zs (long', new, left, _). (
              long' ∙ long ∙ w,
              λ k b. elim (leb_cases (columns - count) k) [
                | inl (e, l) ↦ rw e (new k l (omega arith))
                | inr (e, l) ↦ elim (ltb_cases k start) [
                  | inl (e', m) ↦ rw (e, e') (left k l ∙ before k m)
                  | inr (e', m) ↦
                      rw (e, e')
                        (left k l
                          ∙ ap (get_elem? ys) (omega arith)
                          ∙ moved (k - start) (omega arith)
                          ∙ ap (get_elem? xs) (omega arith))
                ]
              ],
            ))
            (fill-Filled (columns - count) (length ys) c ys (omega arith) (omega arith))
