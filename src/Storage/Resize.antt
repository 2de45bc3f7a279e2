-- ===== src/Storage/Resize.antt =====
-- The operations of grid/storage.rs that change how many rows there are.
use mathlib.Core.List.{append-nil}
use cu_tty.Prelude.{
  ℕ, ◌+◌, ◌-◌, ◌≤◌, ◌<◌, ◌≡◌, refl, ◌∙◌, sym, ap, some, List, length, take, drop, arith,
  length-append, length-take, length-replicate, inl, inr, ltb_cases, ==_cases, subst, le→leb,
  Returns, Returns-map, Returns-bind, max, All, All-append, All-take, All-drop, All-replicate,
}
use cu_tty.Prelude.Index.{take-take, take-append, take_all_lem}
use cu_tty.Prelude.Rotation.{rotate_left}
use cu_tty.Row.{GridCell, Row}
use cu_tty.Row
use cu_tty.Storage.{
  Storage, rezero, truncate, shrink_lines, new_rows, reallocate, initialize, max_cache_size,
}
use cu_tty.Storage.Ring.{IsValid, ring, lines, length-ring}

module _ {T : Type 0} where
  rotate_left-zero : (xs : List (Row T)) → rotate_left 0 xs ≡ xs
  rotate_left-zero xs = append-nil xs

  -- What `rezero` leaves.
  record Rezeroed (s s' : Storage T) : Type 0 where
    at_start : s'.zero ≡ 0
    same_inner : s'.inner ≡ ring s
    same_len : s'.len ≡ s.len
    same_visible : s'.visible_lines ≡ s.visible_lines

  rezero-Rezeroed : (s : Storage T) → s.zero < length s.inner → Returns (Rezeroed s) (rezero s)
  unfolding rezero
  rezero-Rezeroed s h = elim (==_cases s.zero 0) [
    | inl (e, z) ↦ rw e (record {
      at_start = z;
      same_inner = sym (ap (λ c. rotate_left c s.inner) z ∙ rotate_left-zero s.inner);
      same_len = refl;
      same_visible = refl;
    })
    | inr (e, z) ↦
        rw (e, le→leb s.zero (length s.inner) (omega arith))
          (record { at_start = refl; same_inner = refl; same_len = refl; same_visible = refl })
  ]

  -- What `truncate` leaves: the rows of the terminal, and nothing else.
  record Truncated (s s' : Storage T) : Type 0 where
    at_start : s'.zero ≡ 0
    same_inner : s'.inner ≡ lines s
    same_len : s'.len ≡ s.len
    same_visible : s'.visible_lines ≡ s.visible_lines

  truncate-Truncated :
      (s : Storage T) → s.zero < length s.inner → Returns (Truncated s) (truncate s)
  unfolding truncate
  truncate-Truncated s h = Returns-bind (Truncated s) (rezero s) _ (rezero-Rezeroed s h) λ a r.
      record {
        at_start = r.at_start;
        same_inner = ap (λ xs. take a.len xs) r.same_inner ∙ ap (λ n. take n (ring s)) r.same_len;
        same_len = r.same_len;
        same_visible = r.same_visible;
      }

  length-Truncated :
      (s s' : Storage T) → s.len ≤ length s.inner → Truncated s s' → length s'.inner ≡ s'.len
  length-Truncated s s' h t =
      omega (arith, ap length t.same_inner, length-take s.len (ring s), length-ring s, t.same_len)

  lines-Truncated :
      (s s' : Storage T) → s.len ≤ length s.inner → Truncated s s' → lines s' ≡ lines s
  lines-Truncated s s' h t =
      ap (λ c. take s'.len (rotate_left c s'.inner)) t.at_start
      ∙ ap (take s'.len) (rotate_left-zero s'.inner)
      ∙ take_all_lem s'.inner s'.len (omega (arith, length-Truncated s s' h t))
      ∙ t.same_inner

module _ {T : Type 0} (P : Row T → Type 0) where
  pub All-ring : (s : Storage T) → All P s.inner → All P (ring s)
  All-ring s h =
      All-append P (drop s.zero s.inner) (take s.zero s.inner) (All-drop P s.zero s.inner h)
        (All-take P s.zero s.inner h)

  -- What `shrink_lines` by `n` leaves: the bottommost lines, and at most `max_cache_size` rows beside them; `P` is kept.
  pub record Shrunk (s : Storage T) (n : ℕ) (s' : Storage T) : Type 0 where
    pub zero_lt : s'.zero < length s'.inner
    pub len_le : s'.len ≤ length s'.inner
    pub new_len : s'.len + n ≡ s.len
    pub same_visible : s'.visible_lines ≡ s.visible_lines
    pub new_lines : lines s' ≡ take s'.len (lines s)
    pub cache : length s'.inner ≤ s'.len + max_cache_size
    pub kept : All P s'.inner

  -- Shrinking a valid storage by fewer lines than it has does not panic; whether or not it frees the rows that are left over, the bottommost lines stay as they were, and at most `max_cache_size` rows are allocated beside them, each of them a row from before.
  pub shrink_lines-Shrunk :
      (s : Storage T) (n : ℕ)
      → IsValid s
      → n < s.len
      → All P s.inner
      → Returns (Shrunk s n) (shrink_lines s n)
  unfolding shrink_lines
  shrink_lines-Shrunk s n v h all =
      rw (le→leb n s.len (omega arith))
        (elim (ltb_cases (s.len - n + max_cache_size) (length s.inner)) [
          | inl (e, k) ↦
              rw e
                (Returns-map {Q = Shrunk s n} (truncate s0) cut (truncate-Truncated s0 v.zero_lt))
          | inr (e, k) ↦ rw e (record {
            zero_lt = v.zero_lt;
            len_le = omega (arith, v.len_le);
            new_len = omega arith;
            same_visible = refl;
            new_lines = fewer;
            cache = k;
            kept = all;
          })
        ])
    where
      s0 : Storage T
      s0 = record s { len = s.len - n }

      fewer : lines s0 ≡ take (s.len - n) (lines s)
      fewer = sym (take-take (s.len - n) s.len (ring s) (omega arith))

      cut : (a : Storage T) → Truncated s0 a → Shrunk s n a
      cut a t =
          let long = length-Truncated s0 a (omega (arith, v.len_le)) t in
          record {
            zero_lt = omega (arith, long, t.at_start, t.same_len);
            len_le = omega (arith, long);
            new_len = omega (arith, t.same_len);
            same_visible = t.same_visible;
            new_lines =
                lines-Truncated s0 a (omega (arith, v.len_le)) t
                ∙ fewer
                ∙ ap (λ m. take m (lines s)) (sym t.same_len);
            cache = omega (arith, long);
            kept =
                subst (All P) (sym t.same_inner) (All-take P (s.len - n) (ring s) (All-ring s all));
          }

  -- What `initialize` by `n` lines leaves: the lines as they were, and `n` more above them.
  pub record Grown (s : Storage T) (n : ℕ) (s' : Storage T) : Type 0 where
    pub valid : IsValid s'
    pub new_len : s'.len ≡ s.len + n
    pub same_visible : s'.visible_lines ≡ s.visible_lines
    pub old_lines : take s.len (ring s') ≡ lines s
    pub kept : All P s'.inner

  record Reallocated (s : Storage T) (n : ℕ) (a : Storage T) : Type 0 where
    at_start : a.zero ≡ 0
    room : s.len + n ≤ length a.inner
    start_rows : take s.len a.inner ≡ lines s
    same_len : a.len ≡ s.len
    same_visible : a.visible_lines ≡ s.visible_lines
    all_rows : All P a.inner
    nonempty : 0 < length a.inner

  larger :
      (s : Storage T) (n : ℕ)
      → IsValid s
      → (a : Storage T) → Reallocated s n a
      → Grown s n (record a { len = a.len + n })
  larger s n v a r = record {
    valid = record {
      zero_lt = omega (arith, r.nonempty, r.at_start);
      len_le = omega (arith, r.room, r.same_len);
      visible_le = omega (arith, v.visible_le, r.same_len, r.same_visible);
    };
    new_len = omega (arith, r.same_len);
    same_visible = r.same_visible;
    old_lines =
        ap (λ c. take s.len (rotate_left c a.inner)) r.at_start
        ∙ ap (take s.len) (rotate_left-zero a.inner)
        ∙ r.start_rows;
    kept = r.all_rows;
  }

  module _ (cell : GridCell T) where
    new_rows-All :
        (n columns : ℕ)
        → 1 ≤ columns
        → ((r : Row T) → Row.new cell columns ≡ some r → P r)
        → Returns (λ rows. (length rows ≡ n) × All P rows) (new_rows cell n columns)
    unfolding new_rows Row.new
    new_rows-All n columns h p = elim (==_cases n 0) [
      | inl (e, z) ↦ rw e (sym z, tt)
      | inr (e, z) ↦
          rw (e, le→leb 1 columns h)
            (length-replicate n _, All-replicate P n (p _ (rw (le→leb 1 columns h))))
    ]

    reallocate-Reallocated :
        (s : Storage T) (n columns : ℕ)
        → IsValid s
        → 1 ≤ columns
        → All P s.inner
        → ((r : Row T) → Row.new cell columns ≡ some r → P r)
        → Returns (Reallocated s n) (reallocate cell s n columns)
    unfolding reallocate
    reallocate-Reallocated s n columns v h all p =
        Returns-bind (Reallocated s n) (rezero s) _ (rezero-Rezeroed s v.zero_lt) λ z r.
          Returns-bind (Reallocated s n) (new_rows cell (max n max_cache_size) columns) _
            (new_rows-All (max n max_cache_size) columns h p)
            λ rows q.
              let size : length z.inner ≡ length s.inner = ap length r.same_inner ∙ length-ring s in
              record {
                at_start = r.at_start;
                room = omega (arith, v.len_le, q.0, size, length-append z.inner rows);
                start_rows =
                    take-append s.len z.inner rows (omega (arith, v.len_le, size))
                    ∙ ap (take s.len) r.same_inner;
                nonempty = omega (arith, v.zero_lt, size, length-append z.inner rows);
                same_len = r.same_len;
                same_visible = r.same_visible;
                all_rows =
                    All-append P z.inner rows (subst (All P) (sym r.same_inner) (All-ring s all))
                      q.1;
              }

    -- Growing a valid storage by `n` lines does not panic if a row has a column; the old lines stay where they were, seen from the bottom, and a condition that all rows and every new row meet holds for all allocated rows.
    pub initialize-Grown :
        (s : Storage T) (n columns : ℕ)
        → IsValid s
        → 1 ≤ columns
        → All P s.inner
        → ((r : Row T) → Row.new cell columns ≡ some r → P r)
        → Returns (Grown s n) (initialize cell s n columns)
    unfolding initialize
    initialize-Grown s n columns v h all p = elim (ltb_cases (length s.inner) (s.len + n)) [
      | inl (e, k) ↦ rw e (
          Returns-bind (Grown s n) (reallocate cell s n columns) _
            (reallocate-Reallocated s n columns v h all p) (larger s n v))
      | inr (e, k) ↦ rw e (record {
        valid = record {
          zero_lt = v.zero_lt;
          len_le = k;
          visible_le = omega (arith, v.visible_le);
        };
        new_len = refl;
        same_visible = refl;
        old_lines = refl;
        kept = all;
      })
    ]
