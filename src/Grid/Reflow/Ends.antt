-- ===== src/Grid/Reflow/Ends.antt =====
-- The inner loop of `shrink_columns` in cutty_terminal/src/grid/resize.rs ends.
use cu_tty.Prelude.{
  ℕ, zero, suc, ◌+◌, ◌-◌, ◌≤◌, ◌<◌, ◌≡◌, ◌≢◌, ◌⊎◌, refl, sym, ap, Bool, true, false, ◌&&◌, ltb, leb,
  ◌==◌, if◌then◌else◌, Option, none, some, List, [], ◌∷◌, length, replicate, get_elem?, set, take,
  drop, min, ◌>>=◌, assert, arith, subst, inl, inr, length-append, length-replicate, length-take,
  length-drop, length-set,
}
use cu_tty.Row.{GridCell, Row}
use cu_tty.Row
use cu_tty.Cell.Flags.{wrapline, wide_char, leading_wide_char_spacer}
use cu_tty.Grid.Reflow.{buffer_line, has, with, last_has, spacer}
use cu_tty.Grid.Reflow.Shrink.{
  Shrinking, Round, broken, again, Outcome, unfinished, finished, next_row, push_row, move_wide,
  wrap_row, shrink_round, shrink_row, shrink_rows, take_buffered,
}
use cu_tty.Prelude.Whenever.{Whenever, Whenever-bind, Whenever-if, Whenever-elim, anything, itself}

cut_branch :
    {T : Type 0} (fits clear : Bool) (row row' : Row T) (cut wrapped : List T)
    → (if◌then◌else◌ {A = Row T × Option (List T)} fits
        (row, none)
        (row', if clear then none else some cut)).1
      ≡ some wrapped
    → (fits ≡ false) × (cut ≡ wrapped)
cut_branch true clear row row' cut wrapped e = absurd (ground arith)
cut_branch false true row row' cut wrapped e = absurd (ground arith)
cut_branch false false row row' cut wrapped e = (refl, cc)

module _ {T : Type 0} (cell : GridCell T) (columns : ℕ) where
  -- The cells that do not fit, and the columns up to the cursor.
  abbrev pub measure : Row T → Shrinking T → ℕ
  measure row st = length row.inner - columns + st.grid.cursor.point.column

  -- The round breaks, or goes on with less than `n`.
  abbrev pub Smaller : ℕ → Round T → Type 0
  Smaller n (broken st) = Unit
  Smaller n (again row st) = measure row st < n

  -- Less is left after a round of the line `i` that cut `len` cells off, with the cursor in the
  -- column `c` of `line`.
  abbrev pub Falls : (n i line len c : ℕ) → Type 0
  Falls n i line len c =
      (len - columns + c < n)
      ⊎ ((len ≤ columns) × (i ≡ line) × (1 ≤ columns) × (columns ≤ c) × (c - columns < n))

  next_row-Smaller :
      (n i line : ℕ) (wrapped : List T) (st : Shrinking T)
      → Falls n i line (length wrapped) st.grid.cursor.point.column
      → Smaller n (next_row cell columns i line wrapped st)
  unfolding next_row Row.from_vec
  next_row-Smaller n i line wrapped st h = ground (
    arith,
    h,
    length-append wrapped (replicate (columns - length wrapped) cell.default),
    length-replicate (columns - length wrapped) cell.default,
  )

  push_row-Smaller :
      (n i : ℕ) (row : Row T) (wrapped : List T) (st : Shrinking T)
      → ((line : ℕ)
          → buffer_line st.grid ≡ some line
          → Falls n i line (length wrapped) st.grid.cursor.point.column)
      → Whenever (Smaller n) (push_row cell columns i row wrapped st)
  unfolding push_row
  push_row-Smaller n i row wrapped st h =
      Whenever-if (Smaller n)
        (last_has cell wrapline wrapped && leb 1 i && ltb (length wrapped) columns) _ _
        (λ _.
          Whenever-bind (Smaller n) (get_elem? wrapped (length wrapped - 1)) _
            (anything (get_elem? wrapped (length wrapped - 1))) (λ c _. tt))
        (λ _.
          Whenever-bind (Smaller n) (buffer_line st.grid) _ (itself (buffer_line st.grid))
            (λ line e.
              next_row-Smaller n i line wrapped
                (record st { new_raw = Row.modify_last (with cell wrapline) row ∷ st.new_raw })
                (h line (sym e))))

  -- One cell more than before at most.
  move_wide-length :
      (row : Row T) (wrapped : List T)
      → Whenever (λ moved. length moved.1 ≤ length wrapped + 1) (move_wide cell columns row wrapped)
  unfolding move_wide
  move_wide-length row wrapped =
      Whenever-if Longer (leb columns (length row.inner)) _ _
        (λ _.
          Whenever-bind Longer (assert (leb 1 columns)) _ (anything (assert (leb 1 columns)))
            (λ _ _.
              Whenever-bind Longer (get_elem? row.inner (columns - 1)) _
                (anything (get_elem? row.inner (columns - 1)))
                (λ c _.
                  Whenever-if Longer (has cell wide_char c) _ _
                    (λ _.
                      Whenever-bind Longer (Row.modify (columns - 1) (λ _. spacer cell) row) _
                        (anything (Row.modify (columns - 1) (λ _. spacer cell) row))
                        (λ row _. omega arith))
                    (λ _. omega arith))))
        (λ _. omega arith)
    where
      Longer : Row T × List T → Type 0
      Longer moved = length moved.1 ≤ length wrapped + 1

  wrap_row-Smaller :
      (n i : ℕ) (row : Row T) (wrapped : List T) (st : Shrinking T)
      → ((line len : ℕ)
          → buffer_line st.grid ≡ some line
          → len ≤ length wrapped + 1
          → Falls n i line len st.grid.cursor.point.column)
      → Whenever (Smaller n) (wrap_row cell columns i row wrapped st)
  unfolding wrap_row
  wrap_row-Smaller n i row wrapped st h =
      Whenever-bind (Smaller n) (move_wide cell columns row wrapped) _
        (move_wide-length row wrapped)
        (λ (moved, cells) longer.
          Whenever-if (Smaller n) (last_has cell leading_wide_char_spacer cells) _ _
            (λ _.
              Whenever-if (Smaller n) (length cells == 1) _ _
                (λ _.
                  Whenever-bind (Smaller n) (Row.modify (columns - 1) (with cell wrapline) moved) _
                    (anything (Row.modify (columns - 1) (with cell wrapline) moved)) (λ _ _. tt))
                (λ _.
                  Whenever-bind (Smaller n) (get_elem? cells (length cells - 2)) _
                    (anything (get_elem? cells (length cells - 2)))
                    (λ c _.
                      let kept = set cells (length cells - 2) (with cell wrapline c) in
                      push_row-Smaller n i moved (take (length cells - 1) kept) st (λ line e.
                        h line (length (take (length cells - 1) kept)) e (
                          omega (
                            arith,
                            longer,
                            length-take (length cells - 1) kept,
                            length-set cells (length cells - 2) (with cell wrapline c),
                          ))))))
            (λ _. push_row-Smaller n i moved cells st (λ line e. h line (length cells) e longer)))

  -- The cells cut off are among those that do not fit.
  cut_off :
      (row : Row T) (wrapped : List T)
      → (Row.shrink cell row columns).1 ≡ some wrapped
      → (columns < length row.inner) × (length wrapped + columns ≤ length row.inner)
  unfolding Row.shrink
  cut_off row wrapped e =
      let split = drop columns row.inner in
      let cut = take (Row.occupied cell split) split in
      let (longer, same) =
        cut_branch (leb (length row.inner) columns) (length cut == 0) row
          (record { inner = take columns row.inner; occ = min row.occ columns }) cut wrapped e in
      let many : columns < length row.inner = ground (arith, longer) in
      (
        many,
        omega (
          arith,
          many,
          ap length same,
          length-take (Row.occupied cell split) split,
          length-drop columns row.inner,
        ),
      )

  shrink_round-Smaller :
      (reflow : Bool) (i : ℕ) (row : Row T) (st : Shrinking T)
      → 2 ≤ columns
      → Whenever (Smaller (measure row st)) (shrink_round cell reflow columns i row st)
  unfolding shrink_round
  shrink_round-Smaller reflow i row st wide = Whenever-elim Less removed _ _ fits (λ wrapped e.
      let (longer, short) = cut_off row wrapped e in
      Whenever-if Less reflow _ _
        (λ _.
          wrap_row-Smaller (measure row st) i kept wrapped st
            (λ line len _ h. inl (omega (arith, longer, short, h, wide))))
        (λ _. fits))
    where
      Less : Round T → Type 0
      Less = Smaller (measure row st)

      kept : Row T
      kept = (Row.shrink cell row columns).0

      removed : Option (List T)
      removed = (Row.shrink cell row columns).1

      beyond : ℕ → Bool
      beyond line = reflow && (i == line) && ltb columns st.grid.cursor.point.column

      fits : Whenever Less (
          buffer_line st.grid >>= λ line.
          if beyond line
          then wrap_row cell columns i kept [] st
          else some (broken (record st { new_raw = kept ∷ st.new_raw })))
      fits = Whenever-bind Less (buffer_line st.grid) _ (itself (buffer_line st.grid)) (λ line e.
          Whenever-if Less (beyond line) _ _
            (λ b. wrap_row-Smaller (measure row st) i kept [] st (λ other len f h.
              let same : line ≡ other = cc in
              inr (
                omega (arith, wide, h),
                ground (arith, b, same),
                omega (arith, wide),
                ground (arith, b),
                ground (arith, b, wide),
              )))
            (λ _. tt))

  IsFinished : Outcome T → Type 0
  IsFinished unfinished = ⊥
  IsFinished (finished st) = Unit

  abbrev Ended : Outcome T → Type 0
  Ended outcome = outcome ≢ unfinished

  -- What follows a round.
  goes_on :
      (n : ℕ) (round : Round T) (continue : Row T → Shrinking T → Option (Outcome T))
      → Smaller n round
      → ((row : Row T) (st : Shrinking T) → measure row st < n → Whenever Ended (continue row st))
      → Whenever Ended
          (elim round [ broken st ↦ some (finished st) | again row st ↦ continue row st ])
  unfolding IsFinished
  goes_on n (broken st) continue less h = λ e. subst IsFinished e tt
  goes_on n (again row st) continue less h = h row st less

  shrink_row-Ended :
      (rounds : ℕ) (reflow : Bool) (i : ℕ) (row : Row T) (st : Shrinking T)
      → 2 ≤ columns
      → measure row st < rounds
      → Whenever Ended (shrink_row cell rounds reflow columns i row st)
  unfolding shrink_row
  shrink_row-Ended zero reflow i row st wide h = absurd (omega arith)
  shrink_row-Ended (suc rounds) reflow i row st wide h =
      Whenever-bind Ended (shrink_round cell reflow columns i row st) _
        (shrink_round-Smaller reflow i row st wide)
        (λ round less.
          goes_on (measure row st) round (shrink_row cell rounds reflow columns i) less
            (λ row' st' fewer.
              shrink_row-Ended rounds reflow i row' st' wide (omega (arith, h, fewer))))

  -- What follows a row.
  next_rows :
      (outcome : Outcome T) (continue : Shrinking T → Option (Outcome T))
      → Ended outcome
      → ((st : Shrinking T) → Whenever Ended (continue st))
      → Whenever Ended (elim outcome [ unfinished ↦ some unfinished | finished st ↦ continue st ])
  next_rows unfinished continue e h = absurd (e refl)
  next_rows (finished st) continue e h = h st

  shrink_rows-Ended :
      (reflow : Bool) (rows : List (Row T)) (st : Shrinking T)
      → 2 ≤ columns
      → Whenever Ended (shrink_rows cell reflow columns rows st)
  unfolding shrink_rows IsFinished
  shrink_rows-Ended reflow [] st wide = λ e. subst IsFinished e tt
  shrink_rows-Ended reflow (row ∷ rows) st wide =
      Whenever-bind Ended (take_buffered cell (length rows) row st) _
        (anything (take_buffered cell (length rows) row st))
        (λ taken _.
          Whenever-bind Ended
            (shrink_row cell (length taken.0.inner + taken.1.grid.cursor.point.column + 1) reflow
              columns (length rows) taken.0 taken.1)
            _ (shrink_row-Ended _ reflow (length rows) taken.0 taken.1 wide (omega arith))
            (λ outcome e.
              next_rows outcome (shrink_rows cell reflow columns rows) e
                (λ st. shrink_rows-Ended reflow rows st wide)))

  ended : (m : Option (Outcome T)) → Whenever Ended m → m ≢ some unfinished
  ended none h e = absurd (ground arith)
  ended (some outcome) h e = h cc

  -- With two columns or more, the rounds of the inner loop of `shrink_columns` are enough for every row: unless the code panics, the loop over the rows comes to its end, whatever the rows, the cursor and the flags of the cells are.
  pub shrink_rows_lem :
      (reflow : Bool) (rows : List (Row T)) (st : Shrinking T)
      → 2 ≤ columns
      → shrink_rows cell reflow columns rows st ≢ some unfinished
  shrink_rows_lem reflow rows st wide =
      ended (shrink_rows cell reflow columns rows st) (shrink_rows-Ended reflow rows st wide)
