-- ===== src/Grid.antt =====
-- cutty_terminal/src/grid/mod.rs: the grid of rows with its history, its cursors and the display
-- offset. A panic is `none`; a method that changes the grid returns it. A line number
-- is an integer; sums, differences and casts of `i32` wrap.
pub mod Loops
pub mod Display
pub mod Valid
pub mod Rows
pub mod Swaps
pub mod ScrollUp
pub mod Up
pub mod Sinking
pub mod ScrollDown
pub mod Down
pub mod Edit
pub mod Region
pub mod Iterate
pub mod Reflow
pub mod Resize
pub mod Sample
mod Tests
use package.cu_tty.Prelude.{
  ℕ, zero, suc, ◌+◌, ◌-◌, ◌≤◌, ◌<◌, ◌≡◌, Bool, true, false, ◌&&◌, ◌||◌, not, ltb, leb, ◌==◌,
  if◌then◌else◌, Option, none, some, List, [], ◌∷◌, ◌++◌, length, replicate, min, max, ◌>>=◌, ◌>>◌,
  assert,
}
use package.cu_tty.Prelude.Int.{ℤ, pos, negsuc, pos_part, neg_part, ◌+ℤ◌, ◌-ℤ◌, ltb_ℤ}
use package.cu_tty.Prelude.Machine.{leb_ℤ, eqb_ℤ, min_ℤ, max_ℤ, add_i32, sub_i32, as_i32}
use package.cu_tty.Row.{GridCell, Row}
use package.cu_tty.Row
use package.cu_tty.Storage.{Storage}
use package.cu_tty.Storage
use package.cu_tty.Index.{Point, Dimensions, leb_point}
use package.cu_tty.Index

-- `Cursor`. The four character sets are given by the discriminants of `StandardCharset`, an
-- enumeration of the vte crate whose default is its first value.
pub record Cursor (T : Type 0) : Type 0 where
  pub point : Point
  pub template : T
  pub charsets : List ℕ
  pub input_needs_wrap : Bool

pub data Scroll : Type 0 where
  delta : ℤ → Scroll
  page_up page_down top bottom : Scroll

pub record Grid (T : Type 0) : Type 0 where
  pub cursor : Cursor T
  pub saved_cursor : Cursor T
  pub raw : Storage T
  pub columns : ℕ
  pub lines : ℕ
  pub display_offset : ℕ
  pub max_scroll_limit : ℕ

-- `for line in (start..start + n)`, and the same lines in reverse from `last` downwards.
unfoldable pub for_up {ℓ} : {S : Type ℓ} → ℕ → ℤ → (ℤ → S → Option S) → S → Option S
for_up zero start body s = some s
for_up (suc n) start body s = do s' ← body start s; for_up n (start +ℤ pos 1) body s'

unfoldable pub for_down {ℓ} : {S : Type ℓ} → ℕ → ℤ → (ℤ → S → Option S) → S → Option S
for_down zero last body s = some s
for_down (suc n) last body s = do s' ← body last s; for_down n (last -ℤ pos 1) body s'

-- The number of lines in `a..b`.
abbrev pub range_size : ℤ → ℤ → ℕ
range_size a b = pos_part (b -ℤ a)

module _ {T : Type 0} where
  abbrev pub dimensions : Grid T → Dimensions
  dimensions g = record { total_lines = g.raw.len; screen_lines = g.lines; columns = g.columns }

  -- `history_size` of `Dimensions`
  abbrev pub history : Grid T → ℕ
  history g = g.raw.len - g.lines

  -- The body of `for i in … { self.raw.swap(i, i + positions) }`, a sum of `i32`; `by` may be negative.
  unfoldable pub swap_up_by : ℤ → ℤ → Storage T → Option (Storage T)
  swap_up_by by l raw = Storage.swap raw l (add_i32 l by)

  unfoldable pub update_history : Grid T → ℕ → Option (Grid T)
  update_history g history_size = do
    let current = history g
    raw ←
        if ltb history_size current
        then Storage.shrink_lines g.raw (current - history_size)
        else some g.raw
    some (record g {
      raw = raw;
      display_offset = min g.display_offset history_size;
      max_scroll_limit = history_size;
    })

  unfoldable pub scroll_display : Scroll → Grid T → Grid T
  scroll_display (delta count) g = record g {
    display_offset =
        min (pos_part (max_ℤ (add_i32 (as_i32 g.display_offset) count) (pos 0))) (history g);
  }
  scroll_display page_up g = record g {
    display_offset = min (g.display_offset + g.lines) (history g);
  }
  scroll_display page_down g = record g { display_offset = g.display_offset - g.lines }
  scroll_display top g = record g { display_offset = history g }
  scroll_display bottom g = record g { display_offset = 0 }

  unfoldable pub decrease_scroll_limit : Grid T → ℕ → Option (Grid T)
  decrease_scroll_limit g n =
      let count = min n (history g) in
      if count == 0 then some g else do
        raw ← Storage.shrink_lines g.raw (min count (history g))
        let g' = record g { raw = raw }
        some (record g' { display_offset = min g'.display_offset (history g') })

  unfoldable pub clear_history : Grid T → Option (Grid T)
  clear_history g = do
    raw ← Storage.shrink_lines g.raw (history g)
    some (record g { raw = raw; display_offset = 0 })

module _ {T : Type 0} (cell : GridCell T) where
  abbrev pub default_cursor : Cursor T
  default_cursor = record {
    point = record { line = pos 0; column = 0 };
    template = cell.default;
    charsets = 0 ∷ 0 ∷ 0 ∷ 0 ∷ [];
    input_needs_wrap = false;
  }

  unfoldable pub new : ℕ → ℕ → ℕ → Option (Grid T)
  new lines columns max_scroll_limit = do
    raw ← Storage.with_capacity cell lines columns
    some (record {
      raw = raw;
      max_scroll_limit = max_scroll_limit;
      display_offset = 0;
      saved_cursor = default_cursor;
      cursor = default_cursor;
      lines = lines;
      columns = columns;
    })

  -- `self.max_scroll_limit - self.history_size()` panics below 0.
  unfoldable pub increase_scroll_limit : Grid T → ℕ → Option (Grid T)
  increase_scroll_limit g n = do
    assert (leb (history g) g.max_scroll_limit)
    let count = min n (g.max_scroll_limit - history g)
    raw ← if count == 0 then some g.raw else Storage.initialize cell g.raw count g.columns
    some (record g { raw = raw })

  -- `self.raw[i].reset(&self.cursor.template)`
  unfoldable pub reset_line : T → ℤ → Storage T → Option (Storage T)
  reset_line template l raw = Storage.modify l (λ r. Row.reset cell r template) raw

  -- `for i in start..end` with that body.
  unfoldable pub reset_lines : T → ℤ → ℤ → Storage T → Option (Storage T)
  unfolding reset_line
  reset_lines template start end = for_up (range_size start end) start (reset_line template)

  -- The branch of `scroll_down` without a history.
  unfoldable pub scroll_down_rotating : Grid T → ℤ → ℤ → ℕ → Option (Storage T)
  unfolding swap_up_by reset_lines
  scroll_down_rotating g start end positions = do
    let template = g.cursor.template
    let count = as_i32 positions
    raw ← for_up (range_size end (as_i32 g.lines)) end (swap_up_by (pos 0 -ℤ count)) g.raw
    raw ← Storage.rotate_down raw positions
    raw ← reset_lines template (pos 0) (pos positions) raw
    for_up (range_size (pos 0) start) (pos 0) (swap_up_by count) raw

  -- The branch of `scroll_down` with one: "subregion rotation".
  unfoldable pub scroll_down_swapping : Grid T → ℤ → ℤ → ℕ → Option (Storage T)
  unfolding swap_up_by reset_line
  scroll_down_swapping g start end positions = do
    let count = as_i32 positions
    let from = add_i32 start count
    raw ← for_down (range_size from end) (end -ℤ pos 1) (swap_up_by (pos 0 -ℤ count)) g.raw
    for_down (range_size start from) (from -ℤ pos 1) (reset_line g.cursor.template) raw

  unfoldable pub scroll_down : Grid T → ℤ → ℤ → ℕ → Option (Grid T)
  scroll_down g start end positions = do
    raw ←
        (if leb_ℤ (sub_i32 end start) (as_i32 positions)
          then reset_lines g.cursor.template start end g.raw
          else if g.max_scroll_limit == 0
          then scroll_down_rotating g start end positions
          else scroll_down_swapping g start end positions)
    some (record g { raw = raw })

  -- The branch of `scroll_up` whose region starts at the top of the screen.
  unfoldable pub scroll_up_rotating : Grid T → ℤ → ℤ → ℕ → Option (Storage T)
  unfolding swap_up_by increase_scroll_limit
  scroll_up_rotating g start end positions = do
    g ← increase_scroll_limit g positions
    let count = as_i32 positions
    raw ← for_down (range_size (pos 0) start) (start -ℤ pos 1) (swap_up_by count) g.raw
    raw ← Storage.rotate raw (pos 0 -ℤ pos positions)
    for_down (range_size end (as_i32 g.lines)) (as_i32 g.lines -ℤ pos 1)
        (swap_up_by (pos 0 -ℤ count)) raw

  unfoldable pub scroll_up_swapping : Grid T → ℤ → ℤ → ℕ → Option (Storage T)
  unfolding swap_up_by
  scroll_up_swapping g start end positions =
      let count = as_i32 positions in
      for_up (range_size start (sub_i32 end count)) start (swap_up_by count) g.raw

  unfoldable pub scroll_up : Grid T → ℤ → ℤ → ℕ → Option (Grid T)
  scroll_up g start end positions =
      if leb_ℤ (sub_i32 end start) (as_i32 positions) && not (eqb_ℤ start (pos 0))
      then (do raw ← reset_lines g.cursor.template start end g.raw; some (record g { raw = raw }))
      else do
        let offset =
            if g.display_offset == 0
            then 0
            else min (g.display_offset + positions) g.max_scroll_limit
        let g' = record g { display_offset = offset }
        raw ←
            (if eqb_ℤ start (pos 0)
              then scroll_up_rotating g' start end positions
              else scroll_up_swapping g' start end positions)
        raw ← reset_lines g.cursor.template (sub_i32 end (as_i32 positions)) end raw
        some (record g' { raw = raw })

  -- `reset_region(start..end)`; the bounds of `..` are 0 and the screen height.
  unfoldable pub reset_region : Grid T → ℤ → ℤ → Option (Grid T)
  unfolding reset_lines
  reset_region g start end = do
    assert (ltb_ℤ start (as_i32 g.lines))
    assert (leb_ℤ end (as_i32 g.lines))
    raw ← reset_lines g.cursor.template start end g.raw
    some (record g { raw = raw })

  unfoldable pub reset : Grid T → Option (Grid T)
  unfolding clear_history reset_lines
  reset g = do
    g ← clear_history g
    let g' = record g { saved_cursor = default_cursor; cursor = default_cursor; display_offset = 0 }
    raw ← reset_lines cell.default (pos 0 -ℤ as_i32 (history g')) (as_i32 g'.lines) g'.raw
    some (record g' { raw = raw })
