-- ===== src/Display/Flips.antt =====
-- The two coordinates of cutty/src/display/damage.rs, from the top of the window and from its bottom.
use cu_tty.Prelude.{
  ℕ, ◌+◌, ◌^◌, ◌≡◌, refl, sym, arith, length, get_elem?, [], ◌∷◌, Returns, subst, ◌*◌,
}
use cu_tty.Prelude.Int.{ℤ, pos_part, neg_part, ◌-ℤ◌, -ℤ_parts, eq_of_parts}
use cu_tty.Prelude.Machine.{IsI32, sub_i32, wrap_i32-multiple, wrap_i32-IsI32}
use cu_tty.Prelude.Index.{get_elem?-append_right}
use cu_tty.Display.Frames.{
  FrameDamage, add_viewport_rect, viewport_y_to_damage_y, damage_y_to_viewport_y,
}

-- A difference that wraps around.
sub_i32-multiple :
    (a b : ℤ)
    → (q : ℕ) × (r : ℕ) × (pos_part (sub_i32 a b) + neg_part a + pos_part b + q * 2 ^ 32
        ≡ pos_part a + neg_part b + neg_part (sub_i32 a b) + r * 2 ^ 32)
sub_i32-multiple a b =
    let (q, r, e) = wrap_i32-multiple (a -ℤ b) in (q, r, omega (arith, e, -ℤ_parts a b))

-- A rectangle that is given by its coordinate from the top of the window is added with a coordinate from which `damage_y_to_viewport_y` finds the first again, for all `i32` values, whatever wraps around on the way.
pub damage_y_to_viewport_y-add_viewport_rect :
    (window x y width height : ℤ) (f : FrameDamage)
    → IsI32 y
    → Returns
        (λ rect. (damage_y_to_viewport_y window rect ≡ y) × (rect.height ≡ height))
        (get_elem? (add_viewport_rect window x y width height f).rects (length f.rects))
unfolding add_viewport_rect viewport_y_to_damage_y damage_y_to_viewport_y
damage_y_to_viewport_y-add_viewport_rect window x y width height f i =
    let z = sub_i32 (sub_i32 window y) height in
    subst
      (Returns (λ rect. (sub_i32 (sub_i32 window rect.y) rect.height ≡ y) × (rect.height ≡ height)))
      (sym (
        get_elem?-append_right f.rects
          (record { x = x; y = z; width = width; height = height } ∷ []) (length f.rects) 0
          (omega arith)))
      (
        eq_of_parts _ _ (
            omega (
              arith,
              sub_i32-multiple window y,
              sub_i32-multiple (sub_i32 window y) height,
              sub_i32-multiple window z,
              sub_i32-multiple (sub_i32 window z) height,
              wrap_i32-IsI32 (sub_i32 window z -ℤ height),
              i,
            )),
        refl,
      )
