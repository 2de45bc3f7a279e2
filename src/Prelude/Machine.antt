-- ===== src/Prelude/Machine.antt =====
-- `i32`: the integers from -2^31 to 2^31 - 1, with two's complement wrap-around.
use cu_tty.Prelude.{
  ℕ, ◌+◌, ◌-◌, ◌%◌, ◌^◌, ◌≤◌, ◌<◌, ◌≡◌, Bool, ltb, leb, if◌then◌else◌, arith, ◌==◌, ◌↔◌, true, ◌/◌,
  ◌*◌, ltb_cases, inl, inr,
}
use cu_tty.Prelude.Int.{ℤ, pos, negsuc, pos_part, neg_part, ◌+ℤ◌, ◌-ℤ◌}

-- The integer with the same 32 bits: `negsuc n` has the bits of 2^32 - 1 - n.
unfoldable pub wrap_i32 : ℤ → ℤ
wrap_i32 (pos n) = let m = n % 2 ^ 32 in if ltb m (2 ^ 31) then pos m else negsuc (2 ^ 32 - 1 - m)
wrap_i32 (negsuc n) =
    let m = n % 2 ^ 32 in if ltb m (2 ^ 31) then negsuc m else pos (2 ^ 32 - 1 - m)

abbrev pub IsI32 : ℤ → Type 0
IsI32 z = (pos_part z < 2 ^ 31) × (neg_part z ≤ 2 ^ 31)

-- `n as i32`
abbrev pub as_i32 : ℕ → ℤ
as_i32 n = wrap_i32 (pos n)

pub wrap_i32-IsI32 : (z : ℤ) → IsI32 (wrap_i32 z)
unfolding wrap_i32
wrap_i32-IsI32 (pos n) = ground arith
wrap_i32-IsI32 (negsuc n) = ground arith

pub wrap_i32_id : (z : ℤ) → IsI32 z → wrap_i32 z ≡ z
unfolding wrap_i32
wrap_i32_id (pos n) h = ground arith
wrap_i32_id (negsuc n) h = ground arith

-- Comparisons.
abbrev pub leb_ℤ : ℤ → ℤ → Bool
leb_ℤ a b = leb (pos_part a + neg_part b) (pos_part b + neg_part a)

abbrev pub eqb_ℤ : ℤ → ℤ → Bool
eqb_ℤ a b = pos_part a + neg_part b == pos_part b + neg_part a

abbrev pub min_ℤ : ℤ → ℤ → ℤ
min_ℤ a b = if leb_ℤ a b then a else b

-- `cmp::max` of equal values is the second, which is the same value here.
abbrev pub max_ℤ : ℤ → ℤ → ℤ
max_ℤ a b = if leb_ℤ a b then b else a

pub eqb_ℤ_iff : (a b : ℤ) → (eqb_ℤ a b ≡ true) ↔ (a ≡ b)
eqb_ℤ_iff a b = (λ h. ground arith, λ h. ground arith)

-- `i32` sums and differences.
abbrev pub add_i32 : ℤ → ℤ → ℤ
add_i32 a b = wrap_i32 (a +ℤ b)

abbrev pub sub_i32 : ℤ → ℤ → ℤ
sub_i32 a b = wrap_i32 (a -ℤ b)

-- The wrap-around changes an integer by a multiple of 2^32.
pub wrap_i32-multiple :
    (z : ℤ)
    → (q : ℕ) × (r : ℕ) × (pos_part (wrap_i32 z) + neg_part z + q * 2 ^ 32
        ≡ pos_part z + neg_part (wrap_i32 z) + r * 2 ^ 32)
unfolding wrap_i32
wrap_i32-multiple (pos n) = elim (ltb_cases (n % 2 ^ 32) (2 ^ 31)) [
  | inl (e, h) ↦ rw e (n / 2 ^ 32, 0, omega arith)
  | inr (e, h) ↦ rw e (n / 2 ^ 32 + 1, 0, omega arith)
]
wrap_i32-multiple (negsuc n) = elim (ltb_cases (n % 2 ^ 32) (2 ^ 31)) [
  | inl (e, h) ↦ rw e (0, n / 2 ^ 32, omega arith)
  | inr (e, h) ↦ rw e (0, n / 2 ^ 32 + 1, omega arith)
]
