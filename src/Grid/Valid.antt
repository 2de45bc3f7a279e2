-- ===== src/Grid/Valid.antt =====
-- The invariant of the grid, and the steps of its loops on rows that obey it.
use cu_tty.Prelude.{
  ℕ, min, suc, ◌+◌, ◌-◌, ◌^◌, ◌≤◌, ◌<◌, ◌≡◌, refl, ◌∙◌, sym, ap, some, length, replicate, arith,
  Returns, ◌≢◌, length-replicate, subst, inl, inr, ltb_cases,
}
use cu_tty.Prelude.Int.{ℤ, pos, pos_part, neg_part, ◌+ℤ◌, negsuc, ◌-ℤ◌, +ℤ_parts}
use cu_tty.Prelude.Index.{get_elem?-replicate}
use cu_tty.Prelude.Machine.{IsI32, as_i32, sub_i32, add_i32, wrap_i32_id}
use cu_tty.Row.{GridCell, IsLawful, Row}
use cu_tty.Row
use cu_tty.Row.Valid.{blank}
use cu_tty.Row.Valid
use cu_tty.Row.Reset.{reset_lem}
use cu_tty.Storage.{Storage}
use cu_tty.Storage.Ring.{IsLine, offset, offset-parts}
use cu_tty.Grid.{Grid, history, reset_line, reset_lines, range_size, swap_up_by}
use cu_tty.Grid.Loops.{Meets, Meets-weaken, modify-Meets, swap-Meets, for_up-Returns}

-- The places from `lo` up to `hi` hold `b`, and the others meet `F`.
abbrev pub Patched : {A : Type 0} → ℕ → ℕ → A → (ℕ → A → Type 0) → ℕ → A → Type 0
Patched lo hi b F k r = (lo ≤ k → k < hi → r ≡ b) × (k < lo → F k r) × (hi ≤ k → F k r)

pub Patched-all :
    {A : Type 0} (lo hi : ℕ) (b : A) (F : ℕ → A → Type 0) (Q : A → Type 0) (k : ℕ) (r : A)
    → Q b
    → (F k r → Q r)
    → Patched lo hi b F k r
    → Q r
Patched-all lo hi b F Q k r q f h = elim (ltb_cases k lo) [
  | inl (_, x) ↦ f (h.1 x)
  | inr (_, x) ↦ elim (ltb_cases k hi) [
    | inl (_, y) ↦ subst Q (sym (h.0 x y)) q
    | inr (_, y) ↦ f (h.2 y)
  ]
]

pub range_size-eq :
    (a b : ℤ) (n : ℕ) → pos_part b + neg_part a ≡ n + pos_part a + neg_part b → range_size a b ≡ n
unfolding ◌-ℤ◌
range_size-eq a b n h = ground arith

-- The place of the line `i` rounds after the first.
pub place_after :
    (visible hi i : ℕ) (a : ℤ)
    → visible + neg_part a ≡ hi + pos_part a
    → i < hi
    → offset visible (a +ℤ pos i) ≡ hi - 1 - i
place_after visible hi i a e h = omega (
  arith,
  offset-parts visible (a +ℤ pos i) (omega (arith, +ℤ_parts a (pos i))),
  +ℤ_parts a (pos i),
)

module _ {T : Type 0} (cell : GridCell T) where
  -- A row of the grid's width that keeps the promise of `occ`.
  pub record IsRow (columns : ℕ) (r : Row T) : Type 0 where
    pub template : T
    pub valid : Valid.IsValid cell template r
    pub width : length r.inner ≡ columns

  -- The row that a reset by `t` leaves.
  abbrev pub blank_row : ℕ → T → Row T
  blank_row columns t = record { inner = replicate columns (blank cell t); occ = 0 }

  -- The rows and sizes of a grid, whose screen has fewer than 2^31 lines: the number of a line is an `i32`.
  pub record IsSound (g : Grid T) : Type 0 where
    pub rows : Meets (length g.raw.inner) g.raw.len g.lines (λ k r. IsRow g.columns r) g.raw
    pub has_column : 1 ≤ g.columns
    pub has_line : 1 ≤ g.lines
    pub few_lines : g.lines < 2 ^ 31
    pub history_le : history g ≤ g.max_scroll_limit

  -- A sound grid that displays lines which it has.
  pub record IsValid (g : Grid T) : Type 0 where
    pub sound : IsSound g
    pub offset_le : g.display_offset ≤ history g

  module _ (law : IsLawful cell) (columns : ℕ) (wide : 1 ≤ columns) where
    pub blank_row-IsRow : (t : T) → IsRow columns (blank_row columns t)
    blank_row-IsRow t = record {
      template = t;
      valid = record {
        occ_le = omega arith;
        clean = λ i _ k.
            get_elem?-replicate columns (blank cell t) i
              (omega (arith, length-replicate columns (blank cell t)));
      };
      width = length-replicate columns (blank cell t);
    }

    pub reset-IsRow :
        (t : T) (r : Row T) → IsRow columns r → Row.reset cell r t ≡ some (blank_row columns t)
    reset-IsRow t r h =
        reset_lem cell law h.template t r h.valid (omega (arith, h.width))
        ∙ ap (λ n. some (blank_row n t)) h.width

    module _ (size len visible : ℕ) (F G : ℕ → Row T → Type 0) where
      pub reset_line-Meets :
          (s : Storage T) (a : ℤ) (i : ℕ) (t : T)
          → Meets size len visible F s
          → IsLine visible len a
          → offset visible a ≡ i
          → ((r : Row T) → F i r → IsRow columns r)
          → G i (blank_row columns t)
          → ((k : ℕ) (r : Row T) → k ≢ i → F k r → G k r)
          → Returns (Meets size len visible G) (reset_line cell t a s)
      unfolding reset_line
      reset_line-Meets s a i t m ha ea row new rest =
          modify-Meets size len visible F G s a i _ m ha ea
            (λ r h. rw (reset-IsRow t r (row r h)) new) rest

    module _ (size len visible : ℕ) (F : ℕ → Row T → Type 0) where
      -- All lines of a range that begins `hi` places above the bottom become blank, no others change.
      pub reset_lines-Meets :
          (s : Storage T) (a b : ℤ) (hi n : ℕ) (t : T)
          → Meets size len visible F s
          → visible + neg_part a ≡ hi + pos_part a
          → range_size a b ≡ n
          → n ≤ hi
          → hi ≤ len
          → ((k : ℕ) (r : Row T) → F k r → IsRow columns r)
          → Returns
              (Meets size len visible (Patched (hi - n) hi (blank_row columns t) F))
              (reset_lines cell t a b s)
      unfolding reset_lines
      reset_lines-Meets s a b hi n t m ha hn h k row =
          rw hn (for_up-Returns P a (reset_line cell t) n s step start)
        where
          P : ℕ → Storage T → Type 0
          P i = Meets size len visible (Patched (hi - i) hi (blank_row columns t) F)

          start : P 0 s
          start =
              Meets-weaken size len visible F (Patched (hi - 0) hi (blank_row columns t) F)
                (λ j r _ f. (λ a b. absurd (omega arith), λ _. f, λ _. f)) m

          step :
              (i : ℕ) (u : Storage T)
              → i < n
              → P i u
              → Returns (P (suc i)) (reset_line cell t (a +ℤ pos i) u)
          step i u lt p =
              reset_line-Meets size len visible (Patched (hi - i) hi (blank_row columns t) F)
                (Patched (hi - suc i) hi (blank_row columns t) F) u (a +ℤ pos i) (hi - 1 - i) t p
                (omega (arith, +ℤ_parts a (pos i))) (place_after visible hi i a ha (omega arith))
                (λ r f. row (hi - 1 - i) r (f.1 (omega arith)))
                (λ _ _. refl, λ low. absurd (omega arith), λ high. absurd (omega arith))
                (λ j r ne f. (λ a b. f.0 (omega arith) b, λ c. f.1 (omega arith), λ c. f.2 c))

-- How many lines a scroll by `p` adds to the history: as many as its limit has room for.
abbrev pub added : {T : Type 0} → Grid T → ℕ → ℕ
added g p = min p (g.max_scroll_limit - history g)

-- Sums and differences of `i32` that do not wrap.
pub exact_i32 : (n : ℕ) → n < 2 ^ 31 → as_i32 n ≡ pos n
exact_i32 n h = wrap_i32_id (pos n) (omega arith, omega arith)

pub exact_difference :
    (b p : ℕ) → b < 2 ^ 31 → p < 2 ^ 31 → sub_i32 (pos b) (pos p) ≡ pos b -ℤ pos p
unfolding ◌-ℤ◌
exact_difference b p h k = wrap_i32_id (pos b -ℤ pos p) (ground arith, ground arith)

pub exact_sum : (a p : ℕ) → a + p < 2 ^ 31 → add_i32 (pos a) (pos p) ≡ pos a +ℤ pos p
unfolding ◌+ℤ◌
exact_sum a p h = wrap_i32_id (pos a +ℤ pos p) (ground arith, ground arith)

-- Line `l` stands `q` places above the bottom of the screen.
abbrev pub PlaceOf : ℕ → ℤ → ℕ → Type 0
PlaceOf visible l q = visible + neg_part l ≡ q + 1 + pos_part l

place_IsI32 :
    (visible : ℕ) (l : ℤ) (q : ℕ)
    → (visible < 2 ^ 31) × (q < visible + 2 ^ 31)
    → PlaceOf visible l q
    → IsI32 l
place_IsI32 visible (pos n) q few at = (omega (arith, few), omega arith)
place_IsI32 visible (negsuc n) q few at = (omega arith, omega (arith, few))

module _ {T : Type 0} (size len visible : ℕ) (F G : ℕ → Row T → Type 0) where
  -- A swap of a line with the line `by` below it (above it, if `by` is negative).
  pub swap_up_by-Meets :
      (s : Storage T) (by l : ℤ) (i j : ℕ)
      → Meets size len visible F s
      → (visible < 2 ^ 31) × (j < visible + 2 ^ 31)
      → PlaceOf visible l i
      → i < len
      → PlaceOf visible (l +ℤ by) j
      → j < len
      → i ≢ j
      → ((r : Row T) → F j r → G i r)
      → ((r : Row T) → F i r → G j r)
      → ((k : ℕ) (r : Row T) → k ≢ i → k ≢ j → F k r → G k r)
      → Returns (Meets size len visible G) (swap_up_by by l s)
  unfolding swap_up_by
  swap_up_by-Meets s by l i j m few hl il hj jl =
      rw (wrap_i32_id (l +ℤ by) (place_IsI32 visible (l +ℤ by) j few hj)) (
        swap-Meets size len visible F G s l (l +ℤ by) i j m (omega arith)
          (omega (arith, offset-parts visible l (omega arith))) (omega arith)
          (omega (arith, offset-parts visible (l +ℤ by) (omega arith))))
