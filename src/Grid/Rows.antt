-- ===== src/Grid/Rows.antt =====
-- What the scrolling of grid/mod.rs does to the list of lines, the bottommost line first: the
-- reference definitions, read place by place.
use cu_tty.Prelude.{
  ℕ, ◌+◌, ◌-◌, ◌≤◌, ◌<◌, ◌≡◌, ◌∙◌, some, List, ◌++◌, length, replicate, get_elem?, take, drop,
  arith, Returns-eq, length-replicate, length-append, length-take, length-drop,
}
use cu_tty.Prelude.Index.{
  get_elem?-replicate, get_elem?-append_left, get_elem?-append_right, get_elem?-take,
  get_elem?-drop, list_ext,
}
use cu_tty.Row.{Row}
use cu_tty.Storage.{Storage}
use cu_tty.Storage.Ring.{ring, lines, length-ring}
use cu_tty.Grid.Loops.{Meets}

module _ {A : Type 0} where
  -- The `n` rows above the lowest `f` move up by `p`, and `p` copies of `b` fill their place.
  abbrev pub moved_up : ℕ → ℕ → ℕ → A → List A → List A
  moved_up f n p b rows =
      take f rows ++ (replicate p b ++ (take (n - p) (drop f rows) ++ drop (f + n) rows))

  -- The `n` rows above the lowest `f` move down by `p`, and `p` copies of `b` fill the top.
  abbrev pub moved_down : ℕ → ℕ → ℕ → A → List A → List A
  moved_down f n p b rows =
      take f rows ++ (take (n - p) (drop (f + p) rows) ++ (replicate p b ++ drop (f + n) rows))

  module _ (f n p : ℕ) (b : A) (rows : List A) (low : f ≤ length rows) (fits : p ≤ n)
      (few : n - p ≤ length rows - f) where
    body : ℕ
    body = length (take (n - p) (drop f rows))

    body-eq : body ≡ n - p
    unfolding body
    body-eq = omega (arith, length-take (n - p) (drop f rows), length-drop f rows)

    pub length-moved_up : length (moved_up f n p b rows) ≡ f + n + (length rows - (f + n))
    unfolding body
    length-moved_up = omega (
      arith,
      length-append (take f rows)
          (replicate p b ++ (take (n - p) (drop f rows) ++ drop (f + n) rows)),
      length-append (replicate p b) (take (n - p) (drop f rows) ++ drop (f + n) rows),
      length-append (take (n - p) (drop f rows)) (drop (f + n) rows),
      length-take f rows,
      length-replicate p b,
      body-eq,
      length-drop (f + n) rows,
    )

    -- The row at each place after the move.
    pub get_elem?-moved_up :
        (k : ℕ)
        → (k < f → get_elem? (moved_up f n p b rows) k ≡ get_elem? rows k)
          × (f ≤ k → k < f + p → get_elem? (moved_up f n p b rows) k ≡ some b)
          × (f + p ≤ k → k < f + n → get_elem? (moved_up f n p b rows) k ≡ get_elem? rows (k - p))
          × (f + n ≤ k → get_elem? (moved_up f n p b rows) k ≡ get_elem? rows k)
    unfolding body
    get_elem?-moved_up k = (
      λ h.
          get_elem?-append_left (take f rows) rest₁ k (omega (arith, length-take f rows))
          ∙ get_elem?-take f rows k h,
      λ h l.
          past h
          ∙ get_elem?-append_left (replicate p b) rest₂ (k - f)
              (omega (arith, length-replicate p b))
          ∙ get_elem?-replicate p b (k - f) (omega arith),
      λ h l.
          past (omega arith)
          ∙ later h
          ∙ get_elem?-append_left (take (n - p) (drop f rows)) rest₃ (k - f - p)
              (omega (arith, body-eq))
          ∙ get_elem?-take (n - p) (drop f rows) (k - f - p) (omega arith)
          ∙ get_elem?-drop f rows (k - f - p) (k - p) (omega arith),
      λ h.
          past (omega arith)
          ∙ later (omega arith)
          ∙ get_elem?-append_right (take (n - p) (drop f rows)) rest₃ (k - f - p) (k - (f + n))
              (omega (arith, body-eq))
          ∙ get_elem?-drop (f + n) rows (k - (f + n)) k (omega arith),
    )
      where
        rest₃ : List A
        rest₃ = drop (f + n) rows

        rest₂ : List A
        rest₂ = take (n - p) (drop f rows) ++ rest₃

        rest₁ : List A
        rest₁ = replicate p b ++ rest₂

        past : f ≤ k → get_elem? (take f rows ++ rest₁) k ≡ get_elem? rest₁ (k - f)
        past h =
            get_elem?-append_right (take f rows) rest₁ k (k - f) (omega (arith, length-take f rows))

        later : f + p ≤ k → get_elem? rest₁ (k - f) ≡ get_elem? rest₂ (k - f - p)
        later h =
            get_elem?-append_right (replicate p b) rest₂ (k - f) (k - f - p)
              (omega (arith, length-replicate p b))

module _ {A : Type 0} (f n p : ℕ) (b : A) (rows : List A) (fits : p ≤ n)
    (low : f + n ≤ length rows) where
  blanks : List A
  blanks = replicate p b ++ drop (f + n) rows

  kept : List A
  kept = take (n - p) (drop (f + p) rows)

  length-kept : length kept ≡ n - p
  unfolding kept
  length-kept = omega (arith, length-take (n - p) (drop (f + p) rows), length-drop (f + p) rows)

  pub length-moved_down : length (moved_down f n p b rows) ≡ length rows
  unfolding kept blanks
  length-moved_down = omega (
    arith,
    length-append (take f rows) (kept ++ blanks),
    length-append kept blanks,
    length-append (replicate p b) (drop (f + n) rows),
    length-take f rows,
    length-replicate p b,
    length-kept,
    length-drop (f + n) rows,
  )

  -- The row at each place after the move.
  pub get_elem?-moved_down :
      (k : ℕ)
      → (k < f → get_elem? (moved_down f n p b rows) k ≡ get_elem? rows k)
        × (f ≤ k → k + p < f + n → get_elem? (moved_down f n p b rows) k ≡ get_elem? rows (k + p))
        × (f + n ≤ k + p → k < f + n → get_elem? (moved_down f n p b rows) k ≡ some b)
        × (f + n ≤ k → get_elem? (moved_down f n p b rows) k ≡ get_elem? rows k)
  unfolding kept blanks
  get_elem?-moved_down k = (
    λ h.
        get_elem?-append_left (take f rows) (kept ++ blanks) k (omega (arith, length-take f rows))
        ∙ get_elem?-take f rows k h,
    λ h l.
        past h
        ∙ get_elem?-append_left kept blanks (k - f) (omega (arith, length-kept))
        ∙ get_elem?-take (n - p) (drop (f + p) rows) (k - f) (omega arith)
        ∙ get_elem?-drop (f + p) rows (k - f) (k + p) (omega arith),
    λ h l.
        past (omega arith)
        ∙ later (omega arith) (omega arith)
        ∙ get_elem?-append_left (replicate p b) (drop (f + n) rows) (k + p - (f + n))
            (omega (arith, length-replicate p b))
        ∙ get_elem?-replicate p b (k + p - (f + n)) (omega arith),
    λ h.
        past (omega arith)
        ∙ later (omega arith) (omega arith)
        ∙ get_elem?-append_right (replicate p b) (drop (f + n) rows) (k + p - (f + n)) (k - (f + n))
            (omega (arith, length-replicate p b))
        ∙ get_elem?-drop (f + n) rows (k - (f + n)) k (omega arith),
  )
    where
      past :
          f ≤ k → get_elem? (take f rows ++ (kept ++ blanks)) k ≡ get_elem? (kept ++ blanks) (k - f)
      past h =
          get_elem?-append_right (take f rows) (kept ++ blanks) k (k - f)
            (omega (arith, length-take f rows))

      later :
          f ≤ k
          → f + n ≤ k + p
          → get_elem? (kept ++ blanks) (k - f) ≡ get_elem? blanks (k + p - (f + n))
      later h l =
          get_elem?-append_right kept blanks (k - f) (k + p - (f + n)) (omega (arith, length-kept))

module _ {T : Type 0} where
  -- A storage whose rows agree with a list at each place holds that list of lines.
  pub lines-eq :
      (size len visible : ℕ) (rows : List (Row T)) (s : Storage T)
      → Meets size len visible (λ k r. k < len → some r ≡ get_elem? rows k) s
      → length rows ≡ len
      → lines s ≡ rows
  lines-eq size len visible rows s m e =
      list_ext (lines s) rows
        (omega (arith, length-take s.len (ring s), length-ring s, m.valid.len_le, m.same_len))
        λ i h.
          let inside : i < s.len = omega (arith, length-take s.len (ring s)) in
          let (r, er, hr) =
            Returns-eq (get_elem? (ring s) i)
              (m.at i (omega (arith, m.valid.len_le, m.same_size))) in
          get_elem?-take s.len (ring s) i inside ∙ er ∙ hr (omega (arith, m.same_len))
