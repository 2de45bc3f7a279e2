-- ===== src/Row/Shift.antt =====
-- The loops that move the cells of a row in cutty_terminal/src/term/mod.rs, `insert_blank`,
-- `delete_chars` and the insert mode of `input`, on the slice of all cells of the row. A swap or a
-- range past the end panics, which is `none`.
use cu_tty.Prelude.{
  ℕ, zero, suc, ◌+◌, ◌-◌, ◌≤◌, ◌<◌, ◌≡◌, refl, ◌∙◌, ap, leb, ◌&&◌, Option, some, List, ◌++◌, map,
  length, get_elem?, set, take, drop, arith, Returns, Returns-bind, Returns-map, ◌>>=◌, ◌>>◌,
  assert, ◌==◌, if◌then◌else◌, length-set, inl, inr, ==_cases, ◌≢◌,
}
use cu_tty.Prelude.Index.{get_elem?-some, get_elem?-set}
use cu_tty.Row.{Row}

module _ {T : Type 0} where
  -- `row.swap(i, j)`
  abbrev pub swap_cells : ℕ → ℕ → List T → Option (List T)
  swap_cells i j xs = do x ← get_elem? xs i; y ← get_elem? xs j; some (set (set xs i y) j x)

  -- `for offset in 0..n { row.swap(start + offset, end + offset) }`
  unfoldable pub swap_each : ℕ → ℕ → ℕ → List T → Option (List T)
  swap_each zero start end xs = some xs
  swap_each (suc n) start end xs = do
    ys ← swap_cells start end xs
    swap_each n (start + 1) (end + 1) ys

  -- `for offset in (0..n).rev() { row.swap(end + offset, start + offset) }`
  unfoldable pub swap_each_rev : ℕ → ℕ → ℕ → List T → Option (List T)
  swap_each_rev zero start end xs = some xs
  swap_each_rev (suc n) start end xs = do
    ys ← swap_cells (end + n) (start + n) xs
    swap_each_rev n start end ys

  -- `for cell in &mut row[start..end] { *cell = c }`
  unfoldable pub fill : ℕ → ℕ → T → List T → Option (List T)
  fill start end c xs = do
    assert (leb start end && leb end (length xs))
    some (take start xs ++ (map (λ _. c) (take (end - start) (drop start xs)) ++ drop end xs))

  -- `&mut row[..]`, with the change made through the reference.
  unfoldable pub modify_all : (List T → Option (List T)) → Row T → Option (Row T)
  modify_all f r = do inner ← f r.inner; some (record { inner = inner; occ = length r.inner })

  swapped :
      (xs : List T) (i j : ℕ)
      → i < length xs
      → j < length xs
      → Returns
          (λ ys.
            (length ys ≡ length xs)
            × ((k : ℕ)
                → get_elem? ys k ≡ (
                    if k == j
                    then get_elem? xs i
                    else (if k == i then get_elem? xs j else get_elem? xs k))))
          (swap_cells i j xs)
  swapped xs i j hi hj =
      let (x, ex) = get_elem?-some xs i hi in
      let (y, ey) = get_elem?-some xs j hj in
      rw (ex, ey)
        (
          length-set (set xs i y) j x ∙ length-set xs i y,
          λ k.
              get_elem?-set (set xs i y) j k x (omega (arith, length-set xs i y))
              ∙ rw (get_elem?-set xs i k y hi) refl,
        )

  -- The `n` cells from `start` are those from `end` before; what stands left of `start` and from `end + n` on is as before.
  abbrev pub Pulled : ℕ → ℕ → ℕ → List T → List T → Type 0
  Pulled n start end xs ys =
      (length ys ≡ length xs)
      × ((k : ℕ) → k < start → get_elem? ys k ≡ get_elem? xs k)
      × ((k : ℕ) → k < n → get_elem? ys (start + k) ≡ get_elem? xs (end + k))
      × ((k : ℕ) → end + n ≤ k → get_elem? ys k ≡ get_elem? xs k)

  pub swap_each-Pulled :
      (n start end : ℕ) (xs : List T)
      → start ≤ end
      → end + n ≤ length xs
      → Returns (Pulled n start end xs) (swap_each n start end xs)
  unfolding swap_each
  swap_each-Pulled zero start end xs h l =
      (refl, λ k _. refl, λ k b. absurd (omega arith), λ k _. refl)
  swap_each-Pulled (suc n) start end xs h l =
      Returns-bind (Pulled (suc n) start end xs) (swap_cells start end xs) _
        (swapped xs start end (omega arith) (omega arith))
        λ ys (long, at).
          Returns-map (swap_each n (start + 1) (end + 1) ys)
            (λ zs (long', before, moved, after). (
              long' ∙ long,
              λ k b. before k (omega arith) ∙ at k ∙ ground arith,
              λ k b. elim (==_cases k 0) [
                | inl (_, e) ↦
                    ap (get_elem? zs) (omega arith)
                    ∙ before start (omega arith)
                    ∙ at start
                    ∙ first xs start end k e
                | inr (_, ne) ↦
                    ap (get_elem? zs) (omega arith)
                    ∙ moved (k - 1) (omega arith)
                    ∙ at (end + 1 + (k - 1))
                    ∙ later xs start end k h ne
              ],
              λ k b. after k (omega arith) ∙ at k ∙ ground arith,
            ))
            (swap_each-Pulled n (start + 1) (end + 1) ys (omega arith) (omega (arith, long)))
    where
      first :
          (xs : List T) (start end k : ℕ)
          → k ≡ 0
          → (if start == end
              then get_elem? xs start
              else (if start == start then get_elem? xs end else get_elem? xs start))
            ≡ get_elem? xs (end + k)
      first xs start end k e = elim (==_cases start end) [
        | inl (t, q) ↦ rw t (ap (get_elem? xs) (omega arith))
        | inr (t, q) ↦ elim (==_cases start start) [
          | inl (u, _) ↦ rw (t, u) (ap (get_elem? xs) (omega arith))
          | inr (_, w) ↦ absurd (w refl)
        ]
      ]

      later :
          (xs : List T) (start end k : ℕ)
          → start ≤ end
          → k ≢ 0
          → (if end + 1 + (k - 1) == end
              then get_elem? xs start
              else (if end + 1 + (k - 1) == start
                  then get_elem? xs end
                  else get_elem? xs (end + 1 + (k - 1))))
            ≡ get_elem? xs (end + k)
      later xs start end k h ne = elim (==_cases (end + 1 + (k - 1)) end) [
        | inl (_, q) ↦ absurd (omega arith)
        | inr (t, _) ↦ elim (==_cases (end + 1 + (k - 1)) start) [
          | inl (_, q) ↦ absurd (omega arith)
          | inr (u, _) ↦ rw (t, u) (ap (get_elem? xs) (omega arith))
        ]
      ]

  -- The `n` cells from `end` are those from `start` before.
  abbrev pub Pushed : ℕ → ℕ → ℕ → List T → List T → Type 0
  Pushed n start end xs ys =
      (length ys ≡ length xs)
      × ((k : ℕ) → k < start → get_elem? ys k ≡ get_elem? xs k)
      × ((k : ℕ) → k < n → get_elem? ys (end + k) ≡ get_elem? xs (start + k))
      × ((k : ℕ) → end + n ≤ k → get_elem? ys k ≡ get_elem? xs k)

  pub swap_each_rev-Pushed :
      (n start end : ℕ) (xs : List T)
      → start ≤ end
      → end + n ≤ length xs
      → Returns (Pushed n start end xs) (swap_each_rev n start end xs)
  unfolding swap_each_rev
  swap_each_rev-Pushed zero start end xs h l =
      (refl, λ k _. refl, λ k b. absurd (omega arith), λ k _. refl)
  swap_each_rev-Pushed (suc n) start end xs h l =
      Returns-bind (Pushed (suc n) start end xs) (swap_cells (end + n) (start + n) xs) _
        (swapped xs (end + n) (start + n) (omega arith) (omega arith))
        λ ys (long, at).
          Returns-map (swap_each_rev n start end ys)
            (λ zs (long', before, moved, after). (
              long' ∙ long,
              λ k b. before k b ∙ at k ∙ ground arith,
              λ k b. elim (==_cases k n) [
                | inl (_, e) ↦
                    after (end + k) (omega arith) ∙ at (end + k) ∙ last xs start end n k e
                | inr (_, ne) ↦
                    moved k (omega arith) ∙ at (start + k) ∙ inner xs start end n k h (omega arith)
              ],
              λ k b. after k (omega arith) ∙ at k ∙ ground arith,
            ))
            (swap_each_rev-Pushed n start end ys h (omega (arith, long)))
    where
      last :
          (xs : List T) (start end n k : ℕ)
          → k ≡ n
          → (if end + k == start + n
              then get_elem? xs (end + n)
              else (if end + k == end + n
                  then get_elem? xs (start + n)
                  else get_elem? xs (end + k)))
            ≡ get_elem? xs (start + k)
      last xs start end n k e = elim (==_cases (end + k) (start + n)) [
        | inl (t, q) ↦ rw t (ap (get_elem? xs) (omega arith))
        | inr (t, q) ↦ elim (==_cases (end + k) (end + n)) [
          | inl (u, _) ↦ rw (t, u) (ap (get_elem? xs) (omega arith))
          | inr (_, w) ↦ absurd (w (omega arith))
        ]
      ]

      inner :
          (xs : List T) (start end n k : ℕ)
          → start ≤ end
          → k < n
          → (if start + k == start + n
              then get_elem? xs (end + n)
              else (if start + k == end + n
                  then get_elem? xs (start + n)
                  else get_elem? xs (start + k)))
            ≡ get_elem? xs (start + k)
      inner xs start end n k h l = ground arith
