-- ===== src/Row.antt =====
-- cutty_terminal/src/grid/row.rs, the row of cells with its count of occupied entries, and the
-- trait `GridCell` of grid/mod.rs. A panic is `none`; a method that changes the row returns it.
pub mod Valid
pub mod Reset
pub mod Grow
pub mod Shift
pub mod Blanks
pub mod Ink
mod Tests
use cu_tty.Prelude.{
  ℕ, ◌+◌, ◌-◌, ◌≡◌, Bool, true, ◌&&◌, ltb, leb, ◌==◌, if◌then◌else◌, Option, none, some, List, [],
  ◌∷◌, ◌++◌, map, length, get_elem?, set, take, drop, replicate, min, max, ◌>>=◌, ◌>>◌, assert,
}

-- `GridCell`, `Default` and `ResetDiscriminant` of a cell type; `flags` are the bits of `Flags`.
pub record GridCell (T : Type 0) : Type 0 where
  pub default : T
  pub is_empty : T → Bool
  pub reset : T → T → T
  pub same_discriminant : T → T → Bool
  pub flags : T → ℕ
  pub with_flags : T → ℕ → T

-- What `Row.reset` relies on: the cell that a reset leaves depends on the template's discriminant
-- alone, and the discriminants are compared by an equivalence.
pub record IsLawful {T : Type 0} (cell : GridCell T) : Type 0 where
  pub reset_const : (a b t : T) → cell.reset a t ≡ cell.reset b t
  pub reset_default : cell.reset cell.default cell.default ≡ cell.default
  pub reset_discriminant : (a t : T) → cell.same_discriminant (cell.reset a t) t ≡ true
  pub reset_same : (a s t : T) → cell.same_discriminant s t ≡ true → cell.reset a s ≡ cell.reset a t
  pub same_symm : (s t : T) → cell.same_discriminant s t ≡ true → cell.same_discriminant t s ≡ true
  pub same_trans :
      (s t u : T)
      → cell.same_discriminant s t ≡ true
      → cell.same_discriminant t u ≡ true
      → cell.same_discriminant s u ≡ true

pub record Row (T : Type 0) : Type 0 where
  pub inner : List T
  pub occ : ℕ

module _ {T : Type 0} (cell : GridCell T) where
  -- `debug_assert!(columns >= 1)`
  unfoldable pub new : ℕ → Option (Row T)
  new columns = do
    assert (leb 1 columns)
    some (record { inner = replicate columns cell.default; occ = 0 })

  unfoldable pub grow : Row T → ℕ → Row T
  grow r columns =
      if leb columns (length r.inner)
      then r
      else record r { inner = r.inner ++ replicate (columns - length r.inner) cell.default }

  -- One more than the position of the last cell that is not empty, or 0.
  abbrev pub occupied : List T → ℕ
  occupied [] = 0
  occupied (x ∷ xs) =
      let n = occupied xs in if n == 0 then (if cell.is_empty x then 0 else 1) else n + 1

  -- The cells that were removed, without the empty ones at the end, if any are left.
  unfoldable pub shrink : Row T → ℕ → Row T × Option (List T)
  shrink r columns =
      if leb (length r.inner) columns
      then (r, none)
      else (let split = drop columns r.inner in
          let new_row = take (occupied split) split in
          (
            record { inner = take columns r.inner; occ = min r.occ columns },
            (if length new_row == 0 then none else some new_row),
          ))

  -- `for item in &mut self.inner[0..occ] { item.reset(template) }`
  abbrev pub reset_first : ℕ → List T → T → List T
  reset_first occ cells template =
      map (λ c. cell.reset c template) (take occ cells) ++ drop occ cells

  unfoldable pub reset : Row T → T → Option (Row T)
  reset r template = do
    let len = length r.inner
    last ← get_elem? r.inner (len - 1)
    let occ = if cell.same_discriminant last template then r.occ else len
    assert (leb occ len)
    some (record { inner = reset_first occ r.inner template; occ = 0 })

  unfoldable pub is_clear : Row T → Bool
  is_clear r = all r.inner
    where
      all : List T → Bool
      all [] = true
      all (c ∷ cs) = cell.is_empty c && all cs

module _ {T : Type 0} where
  unfoldable pub from_vec : List T → ℕ → Row T
  from_vec vec occ = record { inner = vec; occ = occ }

  unfoldable pub len : Row T → ℕ
  len r = length r.inner

  -- `last_mut`, with the change made through the reference.
  unfoldable pub modify_last : (T → T) → Row T → Row T
  modify_last f r =
      let n = length r.inner in record { inner = change (get_elem? r.inner (n - 1)); occ = n }
    where
      change : Option T → List T
      change none = r.inner
      change (some c) = set r.inner (length r.inner - 1) (f c)

  unfoldable pub append : Row T → List T → Row T
  append r vec = record { inner = r.inner ++ vec; occ = r.occ + length vec }

  unfoldable pub append_front : Row T → List T → Row T
  append_front r vec = record { inner = vec ++ r.inner; occ = r.occ + length vec }

  -- The row that is left, and the cells that were split off. `Vec::split_off` panics past the end.
  unfoldable pub front_split_off : Row T → ℕ → Option (Row T × List T)
  front_split_off r at = do
    assert (leb at (length r.inner))
    some (record { inner = drop at r.inner; occ = r.occ - at }, take at r.inner)

  -- `row[column]`
  unfoldable pub index : Row T → ℕ → Option T
  index r column = get_elem? r.inner column

  -- `index_mut`, with the change made through the reference.
  unfoldable pub modify : ℕ → (T → T) → Row T → Option (Row T)
  modify column f r = do
    c ← get_elem? r.inner column
    some (record { inner = set r.inner column (f c); occ = max r.occ (column + 1) })

  -- `for cell in &mut row[start..end] { *cell = f(cell) }`
  unfoldable pub modify_range : ℕ → ℕ → (T → T) → Row T → Option (Row T)
  modify_range start end f r = do
    assert (leb start end && leb end (length r.inner))
    let middle = map f (take (end - start) (drop start r.inner))
    some
        (record { inner = take start r.inner ++ (middle ++ drop end r.inner); occ = max r.occ end })
