-- ===== src/Storage/Rotate.antt =====
-- The rotations of grid/storage.rs, which move `zero` alone, rotate the list of rows.
use native.Mathlib.Nat.{add-mod_right}
use cu_tty.Prelude.{
  ℕ, suc, ◌+◌, ◌-◌, ◌%◌, ◌≤◌, ◌≡◌, refl, ◌∙◌, sym, ap, ltb, true, length, arith, le→leb, lt→ltb,
  Returns,
}
use cu_tty.Prelude.Int.{pos, negsuc, pos_part, ◌+ℤ◌}
use cu_tty.Prelude.Rotation.{rotate_left, rotate_left-rotate_left, mod-eq-wrap, wrap_index}
use cu_tty.Storage.{Storage, rotate, rotate_down}
use cu_tty.Storage.Ring.{IsValid, ring, Holds}

module _ {T : Type 0} (s : Storage T) (v : IsValid s) where
  moved :
      (count z : ℕ)
      → count ≤ length s.inner
      → z ≡ (s.zero + count) % length s.inner
      → Holds s v (rotate_left count (ring s)) (record s { zero = z })
  moved count z h e =
      let e' : z ≡ wrap_index (length s.inner) s.zero count =
        e ∙ mod-eq-wrap (length s.inner) s.zero count v.zero_lt h in
      record {
        valid = record { zero_lt = ground arith; len_le = v.len_le; visible_le = v.visible_le };
        same_visible = refl;
        same_len = refl;
        same_size = refl;
        same_rows =
            sym (rotate_left-rotate_left count s.zero z s.inner (omega (arith, v.zero_lt)) h e');
      }

  pub rotate_down-Holds :
      (count : ℕ)
      → count ≤ length s.inner
      → Returns (Holds s v (rotate_left count (ring s))) (rotate_down s count)
  unfolding rotate_down
  rotate_down-Holds count h =
      rw (lt→ltb 0 (length s.inner) (omega (arith, v.zero_lt))) (moved count _ h refl)

  sum-neg :
      (k : ℕ)
      → suc k ≤ length s.inner
      → pos_part (pos s.zero +ℤ negsuc k +ℤ pos (length s.inner))
        ≡ s.zero + (length s.inner - suc k)
  unfolding ◌+ℤ◌
  sum-neg k h = ground arith

  sum-pos :
      (k : ℕ) → pos_part (pos s.zero +ℤ pos k +ℤ pos (length s.inner)) ≡ s.zero + k + length s.inner
  unfolding ◌+ℤ◌
  sum-pos k = ground arith

  -- On a valid storage, a rotation by a count of at most the allocated length does not panic and keeps all sizes; a positive count `k` rotates the list of all allocated rows to the left by `k`, a negative one, `-(k + 1)`, to the right by `k + 1`.
  pub rotate-Holds :
      ((k : ℕ)
        → k ≤ length s.inner
        → Returns (Holds s v (rotate_left k (ring s))) (rotate s (pos k)))
      × ((k : ℕ)
          → suc k ≤ length s.inner
          → Returns
              (Holds s v (rotate_left (length s.inner - suc k) (ring s)))
              (rotate s (negsuc k)))
  unfolding rotate
  rotate-Holds = (
    λ k h.
        rw (le→leb (k + 0) (length s.inner) (omega arith), nonempty)
          (moved k _ h (
            ap (λ t. t % length s.inner) (sum-pos k)
            ∙ add-mod_right (s.zero + k) (length s.inner))),
    λ k h.
        rw (le→leb (0 + suc k) (length s.inner) (omega arith), nonempty)
          (moved (length s.inner - suc k) _ (omega arith)
            (ap (λ t. t % length s.inner) (sum-neg k h))),
  )
    where
      nonempty : ltb 0 (length s.inner) ≡ true
      nonempty = lt→ltb 0 (length s.inner) (omega (arith, v.zero_lt))
