-- ===== src/Storage/Ring.antt =====
-- The ring buffer of grid/storage.rs seen as a list of rows, from the bottommost line upwards.
use cu_tty.Prelude.{
  ℕ, ◌+◌, ◌-◌, ◌≤◌, ◌<◌, ◌≡◌, refl, ◌∙◌, sym, ap, Option, none, some, List, length, get_elem?, set,
  take, arith, length-take, length-set, inl, inr, ltb_cases, le→ltb_false, lt→ltb, Returns,
}
use cu_tty.Prelude.Int.{ℤ, pos, pos_part, neg_part, ◌-ℤ◌}
use cu_tty.Prelude.Index.{get_elem?-some}
use cu_tty.Prelude.Rotation.{
  wrap_index, wrap_index-lt, wrap_index_inj, rotate_left, get_elem?-rotate_left, length-rotate_left,
  set-rotate_left,
}
use cu_tty.Row.{Row}
use cu_tty.Storage.{Storage, compute_index, index, modify, swap}

module _ {T : Type 0} where
  pub record IsValid (s : Storage T) : Type 0 where
    pub zero_lt : s.zero < length s.inner
    pub len_le : s.len ≤ length s.inner
    pub visible_le : s.visible_lines ≤ s.len

  -- All rows that are allocated, the bottommost line first.
  abbrev pub ring : Storage T → List (Row T)
  ring s = rotate_left s.zero s.inner

  -- The rows of the terminal: the visible lines, and above them the history.
  abbrev pub lines : Storage T → List (Row T)
  lines s = take s.len (ring s)

  pub length-ring : (s : Storage T) → length (ring s) ≡ length s.inner
  length-ring s = length-rotate_left s.zero s.inner

  pub length-lines : (s : Storage T) → IsValid s → length (lines s) ≡ s.len
  length-lines s v = omega (arith, length-take s.len (ring s), length-ring s, v.len_le)

-- How far line `l` lies above the bottom of a screen of `visible` lines.
abbrev pub offset : ℕ → ℤ → ℕ
offset visible l = pos_part (pos visible -ℤ l) - 1

-- Line `l` is below the end of the screen and within the `len` lines of the buffer.
abbrev pub IsLine : ℕ → ℕ → ℤ → Type 0
IsLine visible len l =
    (pos_part l < visible + neg_part l) × (visible + neg_part l ≤ len + pos_part l)

pub offset-parts :
    (visible : ℕ) (l : ℤ)
    → pos_part l < visible + neg_part l
    → offset visible l + pos_part l + 1 ≡ visible + neg_part l
unfolding ◌-ℤ◌
offset-parts visible l h = ground arith

pub offset_inj :
    (visible len : ℕ) (a b : ℤ)
    → IsLine visible len a
    → IsLine visible len b
    → offset visible a ≡ offset visible b
    → a ≡ b
offset_inj visible len a b h k e =
    ground (arith, offset-parts visible a h.0, offset-parts visible b k.0)

module _ {T : Type 0} (s : Storage T) (v : IsValid s) where
  compute_index-eq :
      (l : ℤ)
      → IsLine s.visible_lines s.len l
      → compute_index s l ≡ some (wrap_index (length s.inner) s.zero (offset s.visible_lines l))
  unfolding compute_index
  compute_index-eq l h =
      let small : offset s.visible_lines l < s.len =
        omega (arith, offset-parts s.visible_lines l h.0) in
      rw (
        lt→ltb (pos_part l + 0) (s.visible_lines + neg_part l) (omega arith),
        lt→ltb (offset s.visible_lines l) s.len small,
      )

  small : (l : ℤ) → IsLine s.visible_lines s.len l → offset s.visible_lines l < length s.inner
  small l h = omega (arith, offset-parts s.visible_lines l h.0, v.len_le)

  refuse : (l : ℤ) → ¬ IsLine s.visible_lines s.len l → compute_index s l ≡ none
  unfolding compute_index
  refuse l h = elim (ltb_cases (pos_part l + 0) (s.visible_lines + neg_part l)) [
    | inl (e, k) ↦
        let near : pos_part l < s.visible_lines + neg_part l = omega arith in
        let far : ¬ (s.visible_lines + neg_part l ≤ s.len + pos_part l) = λ m. h (near, m) in
        rw (
          e,
          le→ltb_false (offset s.visible_lines l) s.len
              (omega (arith, offset-parts s.visible_lines l near)),
        )
    | inr (e, k) ↦ rw e
  ]

  -- In a valid storage, each line of the buffer has an index within the allocation, no two lines share one, and a line outside the buffer is refused.
  pub compute_index_lem :
      (a b : ℤ)
      → (IsLine s.visible_lines s.len a → Returns (λ i. i < length s.inner) (compute_index s a))
        × (IsLine s.visible_lines s.len a
            → IsLine s.visible_lines s.len b
            → compute_index s a ≡ compute_index s b
            → a ≡ b)
        × (¬ IsLine s.visible_lines s.len a → compute_index s a ≡ none)
  compute_index_lem a b = (
    λ h.
        rw (compute_index-eq a h)
          (wrap_index-lt (length s.inner) s.zero _ (omega (arith, v.zero_lt)) (small a h)),
    λ h k e. offset_inj s.visible_lines s.len a b h k (
        wrap_index_inj (length s.inner) s.zero _ _ (omega (arith, v.zero_lt)) (small a h)
          (small b k) (cc (compute_index-eq a h, compute_index-eq b k, e))),
    refuse a,
  )

  -- A read by line number is a read of the list of rows.
  pub index-eq :
      (l : ℤ)
      → IsLine s.visible_lines s.len l
      → index s l ≡ get_elem? (ring s) (offset s.visible_lines l)
  unfolding index
  index-eq l h =
      rw (compute_index-eq l h)
        (sym (get_elem?-rotate_left s.zero s.inner _ (omega (arith, v.zero_lt)) (small l h)))

  pub index-some :
      (l : ℤ)
      → IsLine s.visible_lines s.len l
      → (r : Row T) × (get_elem? (ring s) (offset s.visible_lines l) ≡ some r)
  index-some l h =
      get_elem?-some (ring s) (offset s.visible_lines l) (omega (arith, small l h, length-ring s))

  -- The storage keeps its sizes, and its list of rows is `rows`.
  pub record Holds (rows : List (Row T)) (s' : Storage T) : Type 0 where
    pub valid : IsValid s'
    pub same_visible : s'.visible_lines ≡ s.visible_lines
    pub same_len : s'.len ≡ s.len
    pub same_size : length s'.inner ≡ length s.inner
    pub same_rows : ring s' ≡ rows

  write-Holds :
      (k : ℕ) (r : Row T)
      → k < length s.inner
      → Holds
          (set (ring s) k r)
          (record s { inner = set s.inner (wrap_index (length s.inner) s.zero k) r })
  write-Holds k r h =
      let long = length-set s.inner (wrap_index (length s.inner) s.zero k) r in
      record {
        valid = record {
          zero_lt = omega (arith, long, v.zero_lt);
          len_le = omega (arith, long, v.len_le);
          visible_le = v.visible_le;
        };
        same_visible = refl;
        same_len = refl;
        same_size = long;
        same_rows = set-rotate_left s.zero s.inner k r (omega (arith, v.zero_lt)) h;
      }

  read-eq :
      (l : ℤ)
      → IsLine s.visible_lines s.len l
      → (r : Row T) → get_elem? (ring s) (offset s.visible_lines l) ≡ some r
      → get_elem? s.inner (wrap_index (length s.inner) s.zero (offset s.visible_lines l)) ≡ some r
  read-eq l h r e =
      sym (get_elem?-rotate_left s.zero s.inner _ (omega (arith, v.zero_lt)) (small l h)) ∙ e

  -- A change of one line changes that row of the list, and no other.
  pub modify-Holds :
      (l : ℤ) (f : Row T → Option (Row T)) (r r' : Row T)
      → IsLine s.visible_lines s.len l
      → get_elem? (ring s) (offset s.visible_lines l) ≡ some r
      → f r ≡ some r'
      → Returns (Holds (set (ring s) (offset s.visible_lines l) r')) (modify l f s)
  unfolding modify
  modify-Holds l f r r' h e e' =
      rw (compute_index-eq l h, read-eq l h r e, e')
        (write-Holds (offset s.visible_lines l) r' (small l h))

  -- Swapping two lines of a valid storage does not panic: each row goes to the other's place in the list of rows, every other row and all sizes stay.
  pub swap-Holds :
      (a b : ℤ) (x y : Row T)
      → IsLine s.visible_lines s.len a
      → IsLine s.visible_lines s.len b
      → get_elem? (ring s) (offset s.visible_lines a) ≡ some x
      → get_elem? (ring s) (offset s.visible_lines b) ≡ some y
      → Returns
          (Holds (set (set (ring s) (offset s.visible_lines a) y) (offset s.visible_lines b) x))
          (swap s a b)
  unfolding swap
  swap-Holds a b x y h k e e' =
      rw (compute_index-eq a h, compute_index-eq b k, read-eq a h x e, read-eq b k y e')
        (record {
          valid = record {
            zero_lt = omega (arith, long, v.zero_lt);
            len_le = omega (arith, long, v.len_le);
            visible_le = v.visible_le;
          };
          same_visible = refl;
          same_len = refl;
          same_size = long;
          same_rows =
              ap
                (λ n.
                  rotate_left s.zero (set ys (wrap_index n s.zero (offset s.visible_lines b)) x))
                (sym short)
              ∙ set-rotate_left s.zero ys (offset s.visible_lines b) x
                  (omega (arith, short, v.zero_lt)) (omega (arith, short, small b k))
              ∙ ap (λ w. set w (offset s.visible_lines b) x)
                  (set-rotate_left s.zero s.inner (offset s.visible_lines a) y
                    (omega (arith, v.zero_lt)) (small a h));
        })
    where
      i : ℕ
      i = wrap_index (length s.inner) s.zero (offset s.visible_lines a)

      j : ℕ
      j = wrap_index (length s.inner) s.zero (offset s.visible_lines b)

      ys : List (Row T)
      ys = set s.inner i y

      short : length ys ≡ length s.inner
      short = length-set s.inner i y

      long : length (set (set s.inner i y) j x) ≡ length s.inner
      long = length-set (set s.inner i y) j x ∙ length-set s.inner i y
