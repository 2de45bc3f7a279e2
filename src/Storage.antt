-- ===== src/Storage.antt =====
-- cutty_terminal/src/grid/storage.rs, the ring buffer of rows. A panic, a failed `debug_assert!`
-- and a read past the end are `none`; a method that changes the storage returns it.
pub mod Ring
pub mod Resize
pub mod Rotate
mod Tests
use cu_tty.Prelude.{
  ℕ, zero, suc, ◌+◌, ◌-◌, ◌*◌, ◌%◌, ◌≤◌, ◌<◌, ◌≡◌, Bool, true, ◌&&◌, not, ltb, leb, ◌==◌,
  if◌then◌else◌, Option, none, some, List, [], ◌∷◌, ◌++◌, length, get_elem?, set, take, drop,
  replicate, min, max, ◌>>=◌, ◌>>◌, assert,
}
use cu_tty.Prelude.Int.{ℤ, pos, negsuc, pos_part, neg_part, ◌+ℤ◌, ◌-ℤ◌, ltb_ℤ}
use cu_tty.Row.{GridCell, Row}
use cu_tty.Row

-- Maximum number of buffered lines outside of the grid.
abbrev pub max_cache_size : ℕ
max_cache_size = 1000

pub record Storage (T : Type 0) : Type 0 where
  pub inner : List (Row T)
  pub zero : ℕ
  pub visible_lines : ℕ
  pub len : ℕ

module _ {T : Type 0} where
  -- `inner.rotate_left(zero)`, which panics past the end.
  unfoldable pub rezero : Storage T → Option (Storage T)
  rezero s = if s.zero == 0 then some s else do
    assert (leb s.zero (length s.inner))
    some (record s { inner = drop s.zero s.inner ++ take s.zero s.inner; zero = 0 })

  unfoldable pub truncate : Storage T → Option (Storage T)
  truncate s = do s' ← rezero s; some (record s' { inner = take s'.len s'.inner })

  -- `self.len -= shrinkage` panics below 0.
  unfoldable pub shrink_lines : Storage T → ℕ → Option (Storage T)
  shrink_lines s shrinkage = do
    assert (leb shrinkage s.len)
    let s' = record s { len = s.len - shrinkage }
    if ltb (s'.len + max_cache_size) (length s'.inner) then truncate s' else some s'

  unfoldable pub shrink_visible_lines : Storage T → ℕ → Option (Storage T)
  shrink_visible_lines s next = do
    assert (leb next s.visible_lines)
    s' ← shrink_lines s (s.visible_lines - next)
    some (record s' { visible_lines = next })

  -- `-(requested - visible_lines)`, cast to `usize`, is one more than the index from the bottom.
  unfoldable pub compute_index : Storage T → ℤ → Option ℕ
  compute_index s requested = do
    assert (ltb_ℤ requested (pos s.visible_lines))
    let positive = pos_part (pos s.visible_lines -ℤ requested) - 1
    assert (ltb positive s.len)
    let zeroed = s.zero + positive
    some (if leb (length s.inner) zeroed then zeroed - length s.inner else zeroed)

  -- `storage[line]`
  unfoldable pub index : Storage T → ℤ → Option (Row T)
  index s line = do i ← compute_index s line; get_elem? s.inner i

  -- `storage[line]` as a place that is written to.
  unfoldable pub modify : ℤ → (Row T → Option (Row T)) → Storage T → Option (Storage T)
  modify line f s = do
    i ← compute_index s line
    row ← get_elem? s.inner i
    row' ← f row
    some (record s { inner = set s.inner i row' })

  unfoldable pub swap : Storage T → ℤ → ℤ → Option (Storage T)
  swap s a b = do
    i ← compute_index s a
    j ← compute_index s b
    x ← get_elem? s.inner i
    y ← get_elem? s.inner j
    some (record s { inner = set (set s.inner i y) j x })

  -- A remainder by 0 panics.
  unfoldable pub rotate_down : Storage T → ℕ → Option (Storage T)
  rotate_down s count = do
    assert (ltb 0 (length s.inner))
    some (record s { zero = (s.zero + count) % length s.inner })

  -- `count` is signed; its magnitude is at most the length, so the sum is not negative.
  unfoldable pub rotate : Storage T → ℤ → Option (Storage T)
  rotate s count = do
    let len = length s.inner
    assert (leb (pos_part count + neg_part count) len)
    assert (ltb 0 len)
    some (record s { zero = pos_part (pos s.zero +ℤ count +ℤ pos len) % len })

  unfoldable pub replace_inner : Storage T → List (Row T) → Storage T
  replace_inner s vec = record s { inner = vec; zero = 0; len = length vec }

  unfoldable pub take_all : Storage T → Option (Storage T × List (Row T))
  take_all s = do s' ← truncate s; some (record s' { inner = []; len = 0 }, s'.inner)

module _ {T : Type 0} (cell : GridCell T) where
  -- `n` times `Row::new(columns)`
  unfoldable pub new_rows : ℕ → ℕ → Option (List (Row T))
  new_rows n columns =
      if n == 0 then some [] else do row ← Row.new cell columns; some (replicate n row)

  unfoldable pub with_capacity : ℕ → ℕ → Option (Storage T)
  with_capacity visible_lines columns = do
    inner ← new_rows visible_lines columns
    some (record { inner = inner; zero = 0; visible_lines = visible_lines; len = visible_lines })

  -- The branch of `initialize` that reallocates.
  unfoldable pub reallocate : Storage T → ℕ → ℕ → Option (Storage T)
  reallocate s additional_rows columns = do
    z ← rezero s
    rows ← new_rows (max additional_rows max_cache_size) columns
    some (record z { inner = z.inner ++ rows })

  unfoldable pub initialize : Storage T → ℕ → ℕ → Option (Storage T)
  initialize s additional_rows columns = do
    s' ←
        if ltb (length s.inner) (s.len + additional_rows)
        then reallocate s additional_rows columns
        else some s
    some (record s' { len = s'.len + additional_rows })

  unfoldable pub grow_visible_lines : Storage T → ℕ → Option (Storage T)
  grow_visible_lines s next = do
    assert (leb s.visible_lines next)
    row ← index s (pos 0)
    s' ← initialize s (next - s.visible_lines) (Row.len row)
    some (record s' { visible_lines = next })
