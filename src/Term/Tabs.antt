-- ===== src/Term/Tabs.antt =====
-- `TabStops` of term/mod.rs, and the cursor's motion by tab stops.
use cu_tty.Prelude.{
  ℕ, zero, suc, ◌+◌, ◌-◌, ◌%◌, ◌≤◌, ◌<◌, ◌≡◌, refl, Bool, true, false, ltb, leb, ◌==◌,
  if◌then◌else◌, Option, some, List, [], ◌∷◌, ◌++◌, length, get_elem?, take, replicate, ◌>>=◌,
  arith, Returns, Returns-bind, lt→ltb, inl, inr, ◌⊎◌, Bool-cases, ap, ◌∙◌, sym, leb_cases,
  ltb_cases,
}
use cu_tty.Prelude.Index.{
  get_elem?-append_left, get_elem?-append_right, get_elem?-take, get_elem?-some,
}

abbrev pub initial_tabstops : ℕ
initial_tabstops = 8

-- The stops of the `n` columns from `index` on.
abbrev pub stops : ℕ → ℕ → List Bool
stops index zero = []
stops index (suc n) = (index % initial_tabstops == 0) ∷ stops (suc index) n

unfoldable pub new : ℕ → List Bool
new columns = stops 0 columns

unfoldable pub clear_all : List Bool → List Bool
clear_all tabs = replicate (length tabs) false

-- `Vec::resize_with`, whose closure counts on from the old length.
unfoldable pub resize : ℕ → List Bool → List Bool
resize columns tabs =
    if leb columns (length tabs)
    then take columns tabs
    else tabs ++ stops (length tabs) (columns - length tabs)

-- The loop of `move_forward_tabs` over the columns from `from` on, of which `n` are left; `col` is the last one seen.
unfoldable pub next_stop : List Bool → ℕ → ℕ → ℕ → Option ℕ
next_stop tabs col from zero = some col
next_stop tabs col from (suc n) =
    let rest = next_stop tabs from (suc from) n in
    get_elem? tabs from >>= (λ stop. if stop then some from else rest)

-- The loop of `move_backward_tabs` over the `n` columns before a column, downwards.
unfoldable pub previous_stop : List Bool → ℕ → ℕ → Option ℕ
previous_stop tabs col zero = some col
previous_stop tabs col (suc i) =
    let rest = previous_stop tabs col i in
    get_elem? tabs i >>= (λ stop. if stop then some i else rest)

-- The columns that `move_forward_tabs` and `move_backward_tabs` reach from `col`.
unfoldable pub forward : List Bool → ℕ → ℕ → ℕ → Option ℕ
unfolding next_stop
forward tabs num_cols zero col = some col
forward tabs num_cols (suc count) col =
    if col == num_cols - 1
    then some col
    else (next_stop tabs col (col + 1) (num_cols - (col + 1))
        >>= (λ next. forward tabs num_cols count next))

unfoldable pub backward : List Bool → ℕ → ℕ → Option ℕ
unfolding previous_stop
backward tabs zero col = some col
backward tabs (suc count) col =
    if col == 0
    then some col
    else (previous_stop tabs col col >>= (λ next. backward tabs count next))

length-stops : (index n : ℕ) → length (stops index n) ≡ n
length-stops index zero = refl
length-stops index (suc n) = ap suc (length-stops (suc index) n)

get_elem?-stops :
    (index n i : ℕ) → i < n → get_elem? (stops index n) i ≡ some ((index + i) % 8 == 0)
get_elem?-stops index zero i h = absurd (omega arith)
get_elem?-stops index (suc n) zero h = ap (λ k. some (k % 8 == 0)) (omega arith)
get_elem?-stops index (suc n) (suc i) h =
    get_elem?-stops (suc index) n i (omega arith) ∙ ap (λ k. some (k % 8 == 0)) (omega arith)

-- Tab stops that are resized keep the stops of the columns that stay, and a new column has a stop if it is a multiple of eight, as in new tab stops.
pub resize_lem :
    (tabs : List Bool) (columns i : ℕ)
    → i < columns
    → get_elem? (resize columns tabs) i
      ≡ (if ltb i (length tabs) then get_elem? tabs i else get_elem? (new columns) i)
unfolding resize new
resize_lem tabs columns i h = elim (leb_cases columns (length tabs)) [
  | inl (e, k) ↦ rw (e, lt→ltb i (length tabs) (omega arith)) (get_elem?-take columns tabs i h)
  | inr (e, k) ↦ rw e (elim (ltb_cases i (length tabs)) [
    | inl (f, l) ↦
        rw f (get_elem?-append_left tabs (stops (length tabs) (columns - length tabs)) i l)
    | inr (f, l) ↦ rw f (
        get_elem?-append_right tabs (stops (length tabs) (columns - length tabs)) i
          (i - length tabs) (omega arith)
        ∙ get_elem?-stops (length tabs) (columns - length tabs) (i - length tabs) (omega arith)
        ∙ ap (λ k. some (k % 8 == 0)) (omega arith)
        ∙ sym (get_elem?-stops 0 columns i h))
  ])
]

-- `stop` is the first column with a tab stop behind `col`, or the last column if there is none.
pub record IsNext (tabs : List Bool) (num_cols col stop : ℕ) : Type 0 where
  pub behind : col < stop
  pub within : stop < num_cols
  pub passed : (i : ℕ) → col < i → i < stop → get_elem? tabs i ≡ some false
  pub reached : (get_elem? tabs stop ≡ some true) ⊎ (suc stop ≡ num_cols)

next_stop-IsNext :
    (tabs : List Bool) (num_cols start col from n : ℕ)
    → length tabs ≡ num_cols
    → from + n ≡ num_cols
    → suc col ≡ from
    → start ≤ col
    → ((i : ℕ) → start < i → i < from → get_elem? tabs i ≡ some false)
    → (start < col) ⊎ (0 < n)
    → Returns (IsNext tabs num_cols start) (next_stop tabs col from n)
unfolding next_stop
next_stop-IsNext tabs num_cols start col from zero len sum next le passed more = record {
  behind = elim more [ inl h ↦ h | inr h ↦ absurd (omega arith) ];
  within = omega arith;
  passed = λ i a b. passed i a (omega arith);
  reached = inr (omega arith);
}
next_stop-IsNext tabs num_cols start col from (suc n) len sum next le passed more =
    let (stop, e) = get_elem?-some tabs from (omega arith) in
    rw e (elim (Bool-cases stop) [
      | inl f ↦ rw f (record {
        behind = omega arith;
        within = omega arith;
        passed = passed;
        reached = inl (e ∙ ap some f);
      })
      | inr f ↦ rw f (
          next_stop-IsNext tabs num_cols start from (suc from) n len (omega arith) refl
            (omega arith)
            (λ i a b. elim (ltb_cases i from) [
              | inl (_, l) ↦ passed i a l
              | inr (_, l) ↦ ap (get_elem? tabs) (omega arith) ∙ e ∙ ap some f
            ])
            (inl (omega arith)))
    ])

-- From a column that is not the last, the tab motion forward by one stops at the first tab stop behind the column, or at the last column if there is none, and never leaves the line.
pub forward_lem :
    (tabs : List Bool) (num_cols col : ℕ)
    → length tabs ≡ num_cols
    → suc col < num_cols
    → Returns (IsNext tabs num_cols col) (forward tabs num_cols 1 col)
unfolding forward
forward_lem tabs num_cols col len h = rw (no_end (omega arith)) (
    Returns-bind {P = IsNext tabs num_cols col} (IsNext tabs num_cols col)
      (next_stop tabs col (col + 1) (num_cols - (col + 1))) _
      (next_stop-IsNext tabs num_cols col col (col + 1) (num_cols - (col + 1)) len (omega arith)
        (omega arith) (omega arith) (λ i a b. absurd (omega arith)) (inr (omega arith)))
      (λ stop r. r))
  where
    no_end : suc col < num_cols → (col == num_cols - 1) ≡ false
    no_end h = ground arith
