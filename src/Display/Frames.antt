-- ===== src/Display/Frames.antt =====
-- The damage of the frames in cutty/src/display/damage.rs.
use cu_tty.Prelude.{
  ℕ, zero, suc, ◌+◌, ◌-◌, Bool, true, false, ◌||◌, ◌&&◌, not, leb, if◌then◌else◌, Option, none,
  some, List, [], ◌∷◌, ◌++◌, get_elem?, set, ◌>>=◌, ◌==◌, assert, ◌>>◌,
}
use cu_tty.Prelude.Int.{ℤ, pos, ltb_ℤ, pos_part}
use cu_tty.Prelude.Machine.{eqb_ℤ, max_ℤ, add_i32, sub_i32, as_i32}
use cu_tty.Index.{Point}
use cu_tty.Selection.{SelectionRange}
use cu_tty.Term.Damage.{LineDamageBounds, undamaged_lines, expand, is_damaged, damage_iterator}
use cu_tty.Display.{SizeInfo}
use cu_tty.Display.Rects.{DamageRect, render}

-- `Point<usize>`
pub record ViewPoint : Type 0 where
  pub line : ℕ
  pub column : ℕ

pub record FrameDamage : Type 0 where
  pub full : Bool
  pub lines : List LineDamageBounds
  pub rects : List DamageRect

-- `frames` are the active frame and the next.
pub record DamageTracker : Type 0 where
  pub old_vi_cursor : Option ViewPoint
  pub old_selection : Option SelectionRange
  pub debug : Bool
  pub frame : FrameDamage
  pub next_frame : FrameDamage
  pub screen_lines : ℕ
  pub columns : ℕ

-- `FrameDamage::default()`
abbrev pub no_damage : FrameDamage
no_damage = record { full = false; lines = []; rects = [] }

-- `self.lines[line].expand(left, right)`
unfoldable pub expand_line : ℕ → ℕ → ℕ → FrameDamage → Option FrameDamage
expand_line line left right f = do
  b ← get_elem? f.lines line
  some (record f { lines = set f.lines line (expand left right b) })

unfoldable pub damage_line : LineDamageBounds → FrameDamage → Option FrameDamage
unfolding expand_line
damage_line damage f = expand_line damage.line damage.left damage.right f

unfoldable pub damage_point : ViewPoint → FrameDamage → Option FrameDamage
unfolding expand_line
damage_point point f = expand_line point.line point.column point.column f

unfoldable pub mark_fully_damaged : FrameDamage → FrameDamage
mark_fully_damaged f = record f { full = true }

-- `size_info.height() as i32` is given as `window`.
unfoldable pub viewport_y_to_damage_y : ℤ → ℤ → ℤ → ℤ
viewport_y_to_damage_y window y height = sub_i32 (sub_i32 window y) height

unfoldable pub damage_y_to_viewport_y : ℤ → DamageRect → ℤ
damage_y_to_viewport_y window rect = sub_i32 (sub_i32 window rect.y) rect.height

unfoldable pub add_viewport_rect : ℤ → ℤ → ℤ → ℤ → ℤ → FrameDamage → FrameDamage
unfolding viewport_y_to_damage_y
add_viewport_rect window x y width height f = record f {
  rects =
      f.rects
      ++ (record {
        x = x;
        y = viewport_y_to_damage_y window y height;
        width = width;
        height = height;
      }
          ∷ []);
}

unfoldable pub reset : ℕ → ℕ → FrameDamage → FrameDamage
reset num_lines num_cols f = record {
  full = false;
  rects = [];
  lines = undamaged_lines 0 num_lines num_cols;
}

-- `(start..start + rounds).any(|line| self.lines[line].is_damaged())`
unfoldable pub any_damaged : ℕ → ℕ → List LineDamageBounds → Option Bool
any_damaged zero start lines = some false
any_damaged (suc rounds) start lines = do
  b ← get_elem? lines start
  let rest = any_damaged rounds (start + 1) lines
  if is_damaged b then some true else rest

abbrev pub within : LineDamageBounds → ℕ → Bool
within b column = leb b.left column && leb column b.right

unfoldable pub intersects : ViewPoint → ViewPoint → FrameDamage → Option Bool
unfolding any_damaged
intersects start end f = do
  start_line ← get_elem? f.lines start.line
  end_line ← get_elem? f.lines end.line
  if f.full || within start_line start.column || within end_line end.column
      then some true
      else any_damaged (end.line - (start.line + 1)) (start.line + 1) f.lines

unfoldable pub resize : ℕ → ℕ → DamageTracker → DamageTracker
unfolding reset
resize screen_lines columns t = record t {
  screen_lines = screen_lines;
  columns = columns;
  frame = record (reset screen_lines columns t.frame) { full = true };
  next_frame = reset screen_lines columns t.next_frame;
}

unfoldable pub new : ℕ → ℕ → DamageTracker
unfolding resize
new screen_lines columns = resize screen_lines columns (record {
  columns = columns;
  screen_lines = screen_lines;
  debug = false;
  old_vi_cursor = none;
  old_selection = none;
  frame = no_damage;
  next_frame = no_damage;
})

unfoldable pub swap_damage : DamageTracker → DamageTracker
unfolding reset
swap_damage t = record t {
  frame = t.next_frame;
  next_frame = reset t.screen_lines t.columns t.frame;
}

abbrev pub damage_cursor : Option ViewPoint → FrameDamage → Option FrameDamage
damage_cursor none f = some f
damage_cursor (some point) f = damage_point point f

unfoldable pub damage_vi_cursor : Option ViewPoint → DamageTracker → Option DamageTracker
unfolding damage_point
damage_vi_cursor vi_cursor t =
    let swapped = record t { old_vi_cursor = vi_cursor } in
    if t.frame.full then some swapped else do
      f ← damage_cursor vi_cursor t.frame
      f ← damage_cursor t.old_vi_cursor f
      some (record swapped { frame = f })

unfoldable pub shape_frame_damage : SizeInfo → DamageTracker → List DamageRect
unfolding render damage_iterator
shape_frame_damage s t =
    if t.frame.full
    then (record { x = pos 0; y = pos 0; width = as_i32 s.width; height = as_i32 s.height } ∷ [])
    else render s (damage_iterator t.frame.lines 0) ++ t.frame.rects

-- `for line in start..start + rounds { lines[line].expand(0, columns - 1) }`
unfoldable pub expand_lines : ℕ → ℕ → ℕ → FrameDamage → Option FrameDamage
unfolding expand_line
expand_lines zero start columns f = some f
expand_lines (suc rounds) start columns f = do
  assert (leb 1 columns)
  f ← expand_line start 0 (columns - 1) f
  expand_lines rounds (start + 1) columns f

-- `abs`, which leaves the least `i32` as it is.
abbrev pub abs_i32 : ℤ → ℤ
abs_i32 z = if ltb_ℤ z (pos 0) then sub_i32 (pos 0) z else z

-- `clamp(0, last)` panics if `last` is negative.
abbrev pub clamp_line : ℤ → ℤ → Option ℤ
clamp_line z last =
    if ltb_ℤ last (pos 0)
    then none
    else some (if ltb_ℤ z (pos 0) then pos 0 else if ltb_ℤ last z then last else z)

-- The damage of one selection.
unfoldable pub damage_range : ℕ → ℕ → ℕ → SelectionRange → FrameDamage → Option FrameDamage
unfolding expand_lines
damage_range screen_lines columns display_offset selection f =
    let offset = as_i32 display_offset in
    let last_visible_line = sub_i32 (as_i32 screen_lines) (pos 1) in
    let last = add_i32 selection.end.line offset in
    if ltb_ℤ last (pos 0) || ltb_ℤ (abs_i32 selection.start.line) (sub_i32 offset last_visible_line)
    then some f
    else do
      let start = pos_part (max_ℤ (add_i32 selection.start.line offset) (pos 0))
      end ← clamp_line last last_visible_line
      expand_lines (pos_part end + 1 - start) start columns f

abbrev pub damage_ranges : ℕ → ℕ → ℕ → Option SelectionRange → FrameDamage → Option FrameDamage
damage_ranges screen_lines columns display_offset none f = some f
damage_ranges screen_lines columns display_offset (some selection) f =
    damage_range screen_lines columns display_offset selection f

abbrev pub eqb_point : Point → Point → Bool
eqb_point p q = eqb_ℤ p.line q.line && (p.column == q.column)

abbrev pub eqb_Bool : Bool → Bool → Bool
eqb_Bool a b = if a then b else not b

abbrev pub eqb_range : SelectionRange → SelectionRange → Bool
eqb_range a b = eqb_point a.start b.start && eqb_point a.end b.end && eqb_Bool a.is_block b.is_block

abbrev pub same_selection : Option SelectionRange → Option SelectionRange → Bool
same_selection none none = true
same_selection (some a) (some b) = eqb_range a b
same_selection none (some b) = false
same_selection (some a) none = false

unfoldable pub damage_selection : Option SelectionRange → ℕ → DamageTracker → Option DamageTracker
unfolding damage_range
damage_selection selection display_offset t =
    let swapped = record t { old_selection = selection } in
    if t.frame.full || same_selection t.old_selection selection then some swapped else do
      f ← damage_ranges t.screen_lines t.columns display_offset selection t.frame
      f ← damage_ranges t.screen_lines t.columns display_offset t.old_selection f
      some (record swapped { frame = f })
