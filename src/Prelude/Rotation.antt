-- ===== src/Prelude/Rotation.antt =====
-- `slice::rotate_left`, and where it takes each element.
use native.Mathlib.Nat.{mod-eq_of_lt, mod-eq-sub-mod}
use cu_tty.Prelude.{
  ℕ, ◌+◌, ◌-◌, ◌%◌, ◌≤◌, ◌<◌, ◌≡◌, refl, ◌∙◌, sym, ap, leb, ◌==◌, if◌then◌else◌, some, List, ◌++◌,
  length, get_elem?, set, take, drop, arith, length-append, length-take, length-drop, length-set,
  inl, inr, leb_cases,
}
use cu_tty.Prelude.Index.{
  get_elem?-append_left, get_elem?-append_right, get_elem?-drop, get_elem?-take, get_elem?-set,
  list_ext,
}

-- The index that lies `k` steps after `z`, going round at `n`.
abbrev pub wrap_index : ℕ → ℕ → ℕ → ℕ
wrap_index n z k = if leb n (z + k) then z + k - n else z + k

pub wrap_index-lt : (n z k : ℕ) → z ≤ n → k < n → wrap_index n z k < n
wrap_index-lt n z k h l = ground arith

pub wrap_index_inj :
    (n z j k : ℕ) → z ≤ n → j < n → k < n → wrap_index n z j ≡ wrap_index n z k → j ≡ k
wrap_index_inj n z j k h a b e = ground arith

pub wrap_index_add :
    (n z c k m : ℕ)
    → z ≤ n
    → c ≤ n
    → k < n
    → m ≡ (if leb n (z + c) then z + c - n else z + c)
    → wrap_index n z (wrap_index n c k) ≡ wrap_index n m k
wrap_index_add n z c k m a b d e = ground arith

-- A remainder of a number below twice the divisor.
pub mod-eq-wrap : (n z c : ℕ) → z < n → c ≤ n → (z + c) % n ≡ wrap_index n z c
mod-eq-wrap n z c h k = elim (leb_cases n (z + c)) [
  | inl (e, l) ↦
      rw e
        (mod-eq-sub-mod {n = z + c} {m = n} l ∙ mod-eq_of_lt {n = z + c - n} {m = n} (omega arith))
  | inr (e, l) ↦ rw e (mod-eq_of_lt l)
]

module _ {ℓ} {A : Type ℓ} where
  abbrev pub rotate_left : ℕ → List A → List A
  rotate_left c xs = drop c xs ++ take c xs

  pub length-rotate_left : (c : ℕ) (xs : List A) → length (rotate_left c xs) ≡ length xs
  length-rotate_left c xs =
      omega (arith, length-append (drop c xs) (take c xs), length-drop c xs, length-take c xs)

  pub get_elem?-rotate_left :
      (c : ℕ) (xs : List A) (k : ℕ)
      → c ≤ length xs
      → k < length xs
      → get_elem? (rotate_left c xs) k ≡ get_elem? xs (wrap_index (length xs) c k)
  get_elem?-rotate_left c xs k h l = elim (leb_cases (length xs) (c + k)) [
    | inl (e, m) ↦ rw e (
        get_elem?-append_right (drop c xs) (take c xs) k (c + k - length xs)
          (omega (arith, length-drop c xs))
        ∙ get_elem?-take c xs (c + k - length xs) (omega arith))
    | inr (e, m) ↦ rw e (
        get_elem?-append_left (drop c xs) (take c xs) k (omega (arith, length-drop c xs))
        ∙ get_elem?-drop c xs k (c + k) refl)
  ]

  pub rotate_left-rotate_left :
      (c z m : ℕ) (xs : List A)
      → z ≤ length xs
      → c ≤ length xs
      → m ≡ wrap_index (length xs) z c
      → rotate_left c (rotate_left z xs) ≡ rotate_left m xs
  rotate_left-rotate_left c z m xs h k e =
      list_ext (rotate_left c (rotate_left z xs)) (rotate_left m xs)
        (omega (arith, long, length-rotate_left c (rotate_left z xs), length-rotate_left m xs))
        λ i l. here i (omega (arith, long, length-rotate_left c (rotate_left z xs)))
    where
      long : length (rotate_left z xs) ≡ length xs
      long = length-rotate_left z xs

      inside : m ≤ length xs
      inside = ground arith

      here :
          (i : ℕ)
          → i < length xs
          → get_elem? (rotate_left c (rotate_left z xs)) i ≡ get_elem? (rotate_left m xs) i
      here i l =
          get_elem?-rotate_left c (rotate_left z xs) i (omega (arith, long)) (omega (arith, long))
          ∙ ap (λ n. get_elem? (rotate_left z xs) (wrap_index n c i)) long
          ∙ get_elem?-rotate_left z xs (wrap_index (length xs) c i) h
              (wrap_index-lt (length xs) c i k l)
          ∙ ap (get_elem? xs) (wrap_index_add (length xs) z c i m h k l e)
          ∙ sym (get_elem?-rotate_left m xs i inside l)

  pub set-rotate_left :
      (z : ℕ) (xs : List A) (k : ℕ) (v : A)
      → z ≤ length xs
      → k < length xs
      → rotate_left z (set xs (wrap_index (length xs) z k) v) ≡ set (rotate_left z xs) k v
  set-rotate_left z xs k v h l =
      list_ext (rotate_left z (set xs w v)) (set (rotate_left z xs) k v)
        (omega (
          arith,
          length-rotate_left z (set xs w v),
          length-rotate_left z xs,
          length-set xs w v,
          length-set (rotate_left z xs) k v,
        ))
        λ i m. here i (omega (arith, length-rotate_left z (set xs w v), length-set xs w v))
    where
      w : ℕ
      w = wrap_index (length xs) z k

      inside : w < length xs
      inside = wrap_index-lt (length xs) z k h l

      same_test : (i : ℕ) → i < length xs → (wrap_index (length xs) z i == w) ≡ (i == k)
      same_test i m = ground arith

      here :
          (i : ℕ)
          → i < length xs
          → get_elem? (rotate_left z (set xs w v)) i ≡ get_elem? (set (rotate_left z xs) k v) i
      here i m =
          get_elem?-rotate_left z (set xs w v) i (omega (arith, length-set xs w v))
            (omega (arith, length-set xs w v))
          ∙ ap (λ n. get_elem? (set xs w v) (wrap_index n z i)) (length-set xs w v)
          ∙ get_elem?-set xs w (wrap_index (length xs) z i) v inside
          ∙ ap (λ b. if b then some v else get_elem? xs (wrap_index (length xs) z i))
              (same_test i m)
          ∙ ap (λ o. if i == k then some v else o) (sym (get_elem?-rotate_left z xs i h m))
          ∙ sym (get_elem?-set (rotate_left z xs) k i v (omega (arith, length-rotate_left z xs)))
