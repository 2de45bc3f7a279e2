-- ===== src/Row/Reset.antt =====
-- `Row::reset` of grid/row.rs clears the whole row, though it visits the occupied cells only.
use cu_tty.Prelude.{
  ℕ, zero, suc, ◌-◌, ◌≤◌, ◌<◌, ◌≡◌, refl, ◌∙◌, ap, ap₂, true, some, List, [], ◌∷◌, length,
  get_elem?, replicate, arith, le→leb, Bool-cases, inl, inr,
}
use cu_tty.Prelude.Index.{get_elem?-some}
use cu_tty.Row.{GridCell, IsLawful, Row, reset, reset_first}
use cu_tty.Row.Valid.{IsValid, blank}

module _ {T : Type 0} (cell : GridCell T) (law : IsLawful cell) where
  -- What is past the occupied cells is blank already, so visiting the occupied ones is enough.
  reset_first-eq :
      (n : ℕ) (xs : List T) (t : T)
      → n ≤ length xs
      → ((i : ℕ) → n ≤ i → i < length xs → get_elem? xs i ≡ some (blank cell t))
      → reset_first cell n xs t ≡ replicate (length xs) (blank cell t)
  reset_first-eq zero [] t h clean = refl
  reset_first-eq zero (x ∷ xs) t h clean = ground (
    arith,
    clean 0 (omega arith) (omega arith),
    reset_first-eq zero xs t (omega arith) (λ i a b. clean (suc i) (omega arith) (omega arith)),
  )
  reset_first-eq (suc n) [] t h clean = absurd (omega arith)
  reset_first-eq (suc n) (x ∷ xs) t h clean =
      ap₂ ◌∷◌ (law.reset_const x t t)
        (reset_first-eq n xs t (omega arith) (λ i a b. clean (suc i) (omega arith) (omega arith)))

  -- A row that was clean for one template is clean for each template with the same discriminant.
  blank-eq :
      (s t : T) → cell.same_discriminant (blank cell s) t ≡ true → blank cell s ≡ blank cell t
  blank-eq s t h =
      law.reset_same s s t (
        law.same_trans s (blank cell s) t
          (law.same_symm (blank cell s) s (law.reset_discriminant s s)) h)
      ∙ law.reset_const s t t

  -- Reset by any template, a valid row that has a cell becomes the row of blank cells of that template, with none occupied: no panic, and no cell is left out by the count of occupied cells.
  pub reset_lem :
      (s t : T) (r : Row T)
      → IsValid cell s r
      → 0 < length r.inner
      → reset cell r t
        ≡ some (record { inner = replicate (length r.inner) (blank cell t); occ = 0 })
  unfolding reset
  reset_lem s t r v h =
      let (last, e) = get_elem?-some r.inner (length r.inner - 1) (omega arith) in
      elim (Bool-cases (cell.same_discriminant last t)) [
        | inl same ↦
            let clean : (i : ℕ)
                → r.occ ≤ i
                → i < length r.inner
                → get_elem? r.inner i ≡ some (blank cell t) =
              λ i a b. v.clean i a b ∙ ap some (blank-eq s t (last_blank i a b last e same)) in
            rw (e, same, le→leb r.occ (length r.inner) v.occ_le)
              (ap (λ xs. some (record { inner = xs; occ = 0 }))
                (reset_first-eq r.occ r.inner t v.occ_le clean))
        | inr other ↦
            rw (e, other, le→leb (length r.inner) (length r.inner) (omega arith))
              (ap (λ xs. some (record { inner = xs; occ = 0 }))
                (reset_first-eq (length r.inner) r.inner t (omega arith)
                  (λ i a b. absurd (omega arith))))
      ]
    where
      -- If a cell is not occupied, the last one is not, and is blank.
      last_blank :
          (i : ℕ)
          → r.occ ≤ i
          → i < length r.inner
          → (last : T) → get_elem? r.inner (length r.inner - 1) ≡ some last
          → cell.same_discriminant last t ≡ true
          → cell.same_discriminant (blank cell s) t ≡ true
      last_blank i a b last e same =
          cc (e, v.clean (length r.inner - 1) (omega arith) (omega arith), same)
