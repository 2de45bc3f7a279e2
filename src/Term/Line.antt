-- ===== src/Term/Line.antt =====
-- The motions of term/mod.rs within a line.
use cu_tty.Prelude.{
  ℕ, ◌+◌, ◌-◌, ◌<◌, ◌≡◌, refl, false, length, min, arith, Returns, inl, inr, ltb_cases,
}
use cu_tty.Index.{last_column}
use cu_tty.Term.{Term, size, point, settle}
use cu_tty.Term.Moves.{move_forward, move_backward, backspace, carriage_return, at_column}
use cu_tty.Term.Like.{IsLike, alike}
use cu_tty.Term.Damage.{TermDamageState}
use cu_tty.Term.Motion.{IsPlaced, MovedTo, mark-eq, placed}

module _ {T S K : Type 0} where
  settled :
      (t : Term T S K) (col : ℕ) (d : TermDamageState)
      → IsPlaced t
      → col < t.grid.columns
      → length d.lines ≡ length t.damage.lines
      → MovedTo t (point t).line col (settle (at_column col (record t { damage = d })))
  settled t col d v h e = (
    placed t (record { line = (point t).line; column = col }) d false v
        (v.on_screen.0, v.on_screen.1, h) e,
    refl,
    refl,
    refl,
    refl,
    refl,
    alike t (record { line = (point t).line; column = col }) d false e,
  )

  pub forward_moves :
      (n : ℕ) (t : Term T S K)
      → IsPlaced t
      → Returns
          (MovedTo t (point t).line (min ((point t).column + n) (t.grid.columns - 1)))
          (move_forward n t)
  unfolding move_forward last_column
  forward_moves n t v =
      let to = min ((point t).column + n) (last_column (size t)) in
      let (d, e, long) =
        mark-eq t (point t).line (point t).column to v.on_screen.0
          (omega (arith, v.on_screen, v.damaged)) in
      rw e (settled t to d v (omega (arith, v.on_screen)) long)

  pub backward_moves :
      (n : ℕ) (t : Term T S K)
      → IsPlaced t
      → Returns (MovedTo t (point t).line ((point t).column - n)) (move_backward n t)
  unfolding move_backward
  backward_moves n t v =
      let to = (point t).column - n in
      let (d, e, long) =
        mark-eq t (point t).line to (point t).column v.on_screen.0
          (omega (arith, v.on_screen, v.damaged)) in
      rw e (settled t to d v (omega (arith, v.on_screen)) long)

  pub returns_carriage :
      (t : Term T S K) → IsPlaced t → Returns (MovedTo t (point t).line 0) (carriage_return t)
  unfolding carriage_return
  returns_carriage t v =
      let (d, e, long) =
        mark-eq t (point t).line 0 (point t).column v.on_screen.0
          (omega (arith, v.on_screen, v.damaged)) in
      rw e (settled t 0 d v (omega (arith, v.on_screen)) long)

  -- The cursor is one column to the left if there is one, and only the cursor and the damage differ.
  abbrev pub BackedUp : Term T S K → Term T S K → Type 0
  BackedUp t t' =
      IsPlaced t'
      × ((point t').line ≡ (point t).line)
      × ((point t').column ≡ (point t).column - 1)
      × (t'.grid ≡ record t.grid { cursor = t'.grid.cursor })
      × IsLike t t'

  pub goes_back : (t : Term T S K) → IsPlaced t → Returns (BackedUp t) (backspace t)
  unfolding backspace
  goes_back t v = elim (ltb_cases 0 (point t).column) [
    | inl (f, _) ↦
        let col = (point t).column in
        let (d, e, long) =
          mark-eq (settle (at_column (col - 1) t)) (point t).line (col - 1) col v.on_screen.0
            (omega (arith, v.on_screen, v.damaged)) in
        rw (f, e)
          (
            placed t (record { line = (point t).line; column = col - 1 }) d false v
                (v.on_screen.0, v.on_screen.1, omega (arith, v.on_screen)) long,
            refl,
            refl,
            refl,
            alike t (record { line = (point t).line; column = col - 1 }) d false long,
          )
    | inr (f, z) ↦ rw f (
      v,
      refl,
      omega arith,
      refl,
      record {
        same_lines = refl;
        same_columns = refl;
        same_charsets = refl;
        same_charset = refl;
        same_start = refl;
        same_end = refl;
        same_damage = refl;
      },
    )
  ]

  -- On a terminal whose cursor and scroll region are on the screen none of the motions within a line panics, and each keeps the cursor on the screen and on its line: forward by `n` columns it stops at the last column, backward by `n` and by a backspace at the first, and a carriage return goes there. The rest of the grid, the scroll region and the character sets are as before, and all that was asked holds again.
  pub motions_lem :
      (t : Term T S K) (n : ℕ)
      → IsPlaced t
      → Returns
          (MovedTo t (point t).line (min ((point t).column + n) (t.grid.columns - 1)))
          (move_forward n t)
        × Returns (MovedTo t (point t).line ((point t).column - n)) (move_backward n t)
        × Returns (BackedUp t) (backspace t)
        × Returns (MovedTo t (point t).line 0) (carriage_return t)
  motions_lem t n v =
      (forward_moves n t v, backward_moves n t v, goes_back t v, returns_carriage t v)
