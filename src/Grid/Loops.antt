-- ===== src/Grid/Loops.antt =====
-- The loops of grid/mod.rs over the lines of a storage: a rule for `for`, and one rule for each
-- step, about a condition that every allocated row meets at its place above the bottom line.
use cu_tty.Prelude.{
  ℕ, zero, suc, ◌+◌, ◌≤◌, ◌<◌, ◌≡◌, ◌∙◌, sym, ap, Option, List, length, get_elem?, set, arith, inl,
  inr, ==_cases, ◌≢◌, subst, Returns, Returns-eq, Returns-bind, Returns-map, length-set,
}
use cu_tty.Prelude.Int.{ℤ, pos, pos_part, neg_part, ◌+ℤ◌, ◌-ℤ◌, int_laws}
use cu_tty.Prelude.Index.{get_elem?-set}
use cu_tty.Prelude.Rotation.{rotate_left, wrap_index, wrap_index-lt, get_elem?-rotate_left}
use cu_tty.Row.{Row}
use cu_tty.Storage.{Storage}
use cu_tty.Storage
use cu_tty.Storage.Ring.{
  IsValid, IsLine, offset, ring, length-ring, Holds, swap-Holds, modify-Holds, offset-parts,
}
use cu_tty.Grid.{for_up, for_down}

module _ {ℓ} {S : Type ℓ} (P : ℕ → S → Type 0) (start : ℤ) (body : ℤ → S → Option S) where
  for_up-from :
      (m j : ℕ) (l : ℤ) (s : S)
      → l ≡ start +ℤ pos j
      → ((i : ℕ) (t : S) → i < j + m → P i t → Returns (P (suc i)) (body (start +ℤ pos i) t))
      → P j s
      → Returns (P (j + m)) (for_up m l body s)
  unfolding for_up
  for_up-from zero j l s e keep h = subst (λ n. P n s) (omega arith) h
  for_up-from (suc m) j l s e keep h =
      Returns-bind (P (j + suc m)) (body l s) _
        (subst (λ i. Returns (P (suc j)) (body i s)) (sym e) (keep j s (omega arith) h))
        λ t k.
          subst (λ n. Returns (P n) (for_up m (l +ℤ pos 1) body t)) (omega arith)
            (for_up-from m (suc j) (l +ℤ pos 1) t (next e) (λ i u lt. keep i u (omega arith)) k)
    where
      next : l ≡ start +ℤ pos j → l +ℤ pos 1 ≡ start +ℤ pos (suc j)
      next e = omega (int_laws, ap pos_part e, ap neg_part e)

  -- An invariant that counts the rounds holds after all of them.
  pub for_up-Returns :
      (n : ℕ) (s : S)
      → ((i : ℕ) (t : S) → i < n → P i t → Returns (P (suc i)) (body (start +ℤ pos i) t))
      → P 0 s
      → Returns (P n) (for_up n start body s)
  for_up-Returns n s keep h =
      subst (λ m. Returns (P m) (for_up n start body s)) (omega arith)
        (for_up-from n 0 start s (omega int_laws) (λ i t lt. keep i t (omega arith)) h)

  for_down-from :
      (m j : ℕ) (l : ℤ) (s : S)
      → l ≡ start -ℤ pos j
      → ((i : ℕ) (t : S) → i < j + m → P i t → Returns (P (suc i)) (body (start -ℤ pos i) t))
      → P j s
      → Returns (P (j + m)) (for_down m l body s)
  unfolding for_down
  for_down-from zero j l s e keep h = subst (λ n. P n s) (omega arith) h
  for_down-from (suc m) j l s e keep h =
      Returns-bind (P (j + suc m)) (body l s) _
        (subst (λ i. Returns (P (suc j)) (body i s)) (sym e) (keep j s (omega arith) h))
        λ t k.
          subst (λ n. Returns (P n) (for_down m (l -ℤ pos 1) body t)) (omega arith)
            (for_down-from m (suc j) (l -ℤ pos 1) t (next e) (λ i u lt. keep i u (omega arith)) k)
    where
      next : l ≡ start -ℤ pos j → l -ℤ pos 1 ≡ start -ℤ pos (suc j)
      next e = omega (int_laws, ap pos_part e, ap neg_part e)

  pub for_down-Returns :
      (n : ℕ) (s : S)
      → ((i : ℕ) (t : S) → i < n → P i t → Returns (P (suc i)) (body (start -ℤ pos i) t))
      → P 0 s
      → Returns (P n) (for_down n start body s)
  for_down-Returns n s keep h =
      subst (λ m. Returns (P m) (for_down n start body s)) (omega arith)
        (for_down-from n 0 start s (omega int_laws) (λ i t lt. keep i t (omega arith)) h)

module _ {T : Type 0} where
  -- A valid storage of these sizes, whose row at each place `k` meets `F k`.
  pub record Meets (size len visible : ℕ) (F : ℕ → Row T → Type 0) (s : Storage T) : Type 0 where
    pub valid : IsValid s
    pub same_size : length s.inner ≡ size
    pub same_len : s.len ≡ len
    pub same_visible : s.visible_lines ≡ visible
    pub at : (k : ℕ) → k < size → Returns (F k) (get_elem? (ring s) k)

module _ {T : Type 0} (size len visible : ℕ) (F G : ℕ → Row T → Type 0) where
  pub Meets-weaken :
      {s : Storage T}
      → ((k : ℕ) (r : Row T) → k < size → F k r → G k r)
      → Meets size len visible F s
      → Meets size len visible G s
  Meets-weaken f m = record {
    valid = m.valid;
    same_size = m.same_size;
    same_len = m.same_len;
    same_visible = m.same_visible;
    at = λ k h. Returns-map _ (λ r. f k r h) (m.at k h);
  }

  from-Holds :
      (s : Storage T) (m : Meets size len visible F s) (rows : List (Row T))
      → ((k : ℕ) → k < size → Returns (G k) (get_elem? rows k))
      → (s' : Storage T) → Holds s m.valid rows s'
      → Meets size len visible G s'
  from-Holds s m rows at s' h = record {
    valid = h.valid;
    same_size = h.same_size ∙ m.same_size;
    same_len = h.same_len ∙ m.same_len;
    same_visible = h.same_visible ∙ m.same_visible;
    at = λ k lt. subst (λ xs. Returns (G k) (get_elem? xs k)) (sym h.same_rows) (at k lt);
  }

  -- A change of the line at the place `i`.
  pub modify-Meets :
      (s : Storage T) (a : ℤ) (i : ℕ) (f : Row T → Option (Row T))
      → Meets size len visible F s
      → IsLine visible len a
      → offset visible a ≡ i
      → ((r : Row T) → F i r → Returns (G i) (f r))
      → ((k : ℕ) (r : Row T) → k ≢ i → F k r → G k r)
      → Returns (Meets size len visible G) (Storage.modify a f s)
  modify-Meets s a i f m ha ea change rest =
      let i<size : i < size =
        omega (arith, m.valid.len_le, m.same_size, m.same_len, offset-parts visible a ha.0) in
      let (x, ex, hx) = Returns-eq (get_elem? (ring s) i) (m.at i i<size) in
      let (x', ex', hx') = Returns-eq (f x) (change x hx) in
      let o = place s a i m ea in
      Returns-map {Q = Meets size len visible G} (Storage.modify a f s)
        (from-Holds s m _ (λ k lt. changed s m i x' o hx' rest i<size k lt))
        (modify-Holds s m.valid a f x x' (line s a m ha) (ap (get_elem? (ring s)) o ∙ ex) ex')
    where
      place :
          (s : Storage T) (a : ℤ) (i : ℕ)
          → Meets size len visible F s
          → offset visible a ≡ i
          → offset s.visible_lines a ≡ i
      place s a i m ea = ap (λ n. offset n a) m.same_visible ∙ ea

      line :
          (s : Storage T) (a : ℤ)
          → Meets size len visible F s
          → IsLine visible len a
          → IsLine s.visible_lines s.len a
      line s a m ha = omega (arith, m.same_visible, m.same_len)

      changed :
          (s : Storage T)
          → Meets size len visible F s
          → (i : ℕ) (x' : Row T) → {o : ℕ} → o ≡ i
          → G i x'
          → ((k : ℕ) (r : Row T) → k ≢ i → F k r → G k r)
          → i < size
          → (k : ℕ) → k < size
          → Returns (G k) (get_elem? (set (ring s) o x') k)
      changed s m i x' {o} e hx rest lt k kt =
          rw (e, get_elem?-set (ring s) i k x' (omega (arith, m.same_size, length-ring s)))
            (elim (==_cases k i) [
              | inl (t, same) ↦ rw (t, same) hx
              | inr (t, other) ↦
                  rw t
                    (Returns-map {Q = G k} (get_elem? (ring s) k) (λ r. rest k r other) (m.at k kt))
            ])

  -- A swap of the lines at the places `i` and `j`.
  pub swap-Meets :
      (s : Storage T) (a b : ℤ) (i j : ℕ)
      → Meets size len visible F s
      → IsLine visible len a
      → offset visible a ≡ i
      → IsLine visible len b
      → offset visible b ≡ j
      → i ≢ j
      → ((r : Row T) → F j r → G i r)
      → ((r : Row T) → F i r → G j r)
      → ((k : ℕ) (r : Row T) → k ≢ i → k ≢ j → F k r → G k r)
      → Returns (Meets size len visible G) (Storage.swap s a b)
  swap-Meets s a b i j m ha ea hb eb ne f g rest =
      let i<size : i < size =
        omega (arith, m.valid.len_le, m.same_size, m.same_len, offset-parts visible a ha.0) in
      let j<size : j < size =
        omega (arith, m.valid.len_le, m.same_size, m.same_len, offset-parts visible b hb.0) in
      let (x, ex, hx) = Returns-eq (get_elem? (ring s) i) (m.at i i<size) in
      let (y, ey, hy) = Returns-eq (get_elem? (ring s) j) (m.at j j<size) in
      let oa : offset s.visible_lines a ≡ i = ap (λ n. offset n a) m.same_visible ∙ ea in
      let ob : offset s.visible_lines b ≡ j = ap (λ n. offset n b) m.same_visible ∙ eb in
      Returns-map {Q = Meets size len visible G} (Storage.swap s a b)
        (from-Holds s m _ (λ k lt. swapped x y oa ob (g x hx) (f y hy) i<size j<size k lt))
        (swap-Holds s m.valid a b x y (omega (arith, m.same_visible, m.same_len))
          (omega (arith, m.same_visible, m.same_len)) (ap (get_elem? (ring s)) oa ∙ ex)
          (ap (get_elem? (ring s)) ob ∙ ey))
    where
      swapped :
          (x y : Row T) {oa ob : ℕ}
          → oa ≡ i
          → ob ≡ j
          → G j x
          → G i y
          → i < size
          → j < size
          → (k : ℕ) → k < size
          → Returns (G k) (get_elem? (set (set (ring s) oa y) ob x) k)
      swapped x y {oa} {ob} ea eb hx hy li lj k lt =
          rw
            (
              ea,
              eb,
              get_elem?-set (set (ring s) i y) j k x
                  (omega (arith, m.same_size, length-ring s, length-set (ring s) i y)),
              get_elem?-set (ring s) i k y (omega (arith, m.same_size, length-ring s)),
            )
            (elim (==_cases k j) [
              | inl (t, same) ↦ rw (t, same) hx
              | inr (t, far) ↦ rw t (elim (==_cases k i) [
                | inl (u, same) ↦ rw (u, same) hy
                | inr (u, other) ↦ rw u (
                    Returns-map {Q = G k} (get_elem? (ring s) k) (λ r. rest k r other far)
                      (m.at k lt))
              ])
            ])

  -- A rotation that takes the row at `wrap_index size c k` to the place `k`.
  pub rotated-Meets :
      (s : Storage T) (c : ℕ) (m : Meets size len visible F s)
      → c ≤ size
      → ((k : ℕ) (r : Row T) → k < size → F (wrap_index size c k) r → G k r)
      → (s' : Storage T) → Holds s m.valid (rotate_left c (ring s)) s'
      → Meets size len visible G s'
  rotated-Meets s c m h f s' holds = from-Holds s m (rotate_left c (ring s)) at s' holds
    where
      long : length (ring s) ≡ size
      long = length-ring s ∙ m.same_size

      at : (k : ℕ) → k < size → Returns (G k) (get_elem? (rotate_left c (ring s)) k)
      at k lt =
          rw (get_elem?-rotate_left c (ring s) k (omega (arith, long)) (omega (arith, long)), long)
            (Returns-map {Q = G k} (get_elem? (ring s) (wrap_index size c k)) (λ r. f k r lt)
              (m.at (wrap_index size c k) (wrap_index-lt size c k h lt)))
