-- ===== src/Scheduler/Cancel.antt =====
-- What cutty/src/scheduler.rs cancels.
use cu_tty.Prelude.{
  ◌≤◌, ◌≡◌, refl, ◌∙◌, ap, Bool, true, false, if◌then◌else◌, Option, none, some, List, [], ◌∷◌,
  ◌++◌, All, arith, inl, inr, Bool-cases, is_some, ◌↔◌, ◌≢◌, ==_iff, subst,
}
use cu_tty.Scheduler.{
  Topic, discriminant, Timer, TimerId, eqb_id, unschedule, scheduled, unschedule_window,
}
use cu_tty.Scheduler.Order.{IsSorted}

-- The comparison of windows is an equality test.
abbrev pub IsEqb : {W : Type 0} → (W → W → Bool) → Type 0
IsEqb same = (v w : _) → (same v w ≡ true) ↔ (v ≡ w)

discriminant_inj : (s t : Topic) → discriminant s ≡ discriminant t → s ≡ t
discriminant_inj s t h = ground arith

module _ {W : Type 0} (same : W → W → Bool) (law : IsEqb same) where
  eqb_id_iff : (a b : TimerId W) → (eqb_id same a b ≡ true) ↔ (a ≡ b)
  eqb_id_iff a b = (
    λ h.
        let t =
          discriminant_inj a.topic b.topic
            ((==_iff (discriminant a.topic) (discriminant b.topic)).0 (ground arith)) in
        let w = (law a.window_id b.window_id).0 (ground arith) in cc (t, w),
    λ e.
        subst (λ c. eqb_id same a c ≡ true) e
          (ground (
            arith,
            (law a.window_id a.window_id).1 refl,
            (==_iff (discriminant a.topic) (discriminant a.topic)).1 refl,
          )),
  )

  other : (a b : TimerId W) → eqb_id same a b ≡ false → a ≢ b
  other a b e h = absurd (ground (arith, e, (eqb_id_iff a b).1 h))

module _ {E W : Type 0} (same : W → W → Bool) (law : IsEqb same) where
  -- What `unschedule` of `id` did to the timers `ts`: nothing, as none has that identifier, or it took out the first that has it.
  abbrev pub Unscheduled :
      TimerId W → List (Timer E W) → Option (Timer E W) × List (Timer E W) → Type 0
  Unscheduled id ts (none, rest) = (rest ≡ ts) × All (λ (u : Timer E W). u.id ≢ id) ts
  Unscheduled id ts (some t, rest) =
      (xs : List (Timer E W)) × (ys : List (Timer E W)) × (ts ≡ xs ++ (t ∷ ys))
      × (rest ≡ xs ++ ys)
      × (t.id ≡ id)
      × All (λ (u : Timer E W). u.id ≢ id) xs

  pass :
      (id : TimerId W) (t : Timer E W) (ts : List (Timer E W))
      → t.id ≢ id
      → (out : Option (Timer E W)) (rest : List (Timer E W)) → Unscheduled id ts (out, rest)
      → Unscheduled id (t ∷ ts) (out, t ∷ rest)
  pass id t ts ne none rest (e, all) = (ap (λ us. t ∷ us) e, (ne, all))
  pass id t ts ne (some u) rest (xs, ys, e, e', same_id, all) =
      (t ∷ xs, ys, ap (λ us. t ∷ us) e, ap (λ us. t ∷ us) e', same_id, (ne, all))

  -- Where the comparison of windows is an equality test, `unschedule` takes out the first timer with the identifier, and leaves the others in their order; it returns none exactly if no timer has the identifier, which is what `scheduled` says.
  pub unschedule_lem :
      (id : TimerId W) (ts : List (Timer E W))
      → Unscheduled id ts (unschedule same id ts)
        × (is_some (unschedule same id ts).0 ≡ scheduled same id ts)
  unfolding unschedule scheduled
  unschedule_lem id [] = ((refl, tt), refl)
  unschedule_lem id (t ∷ ts) = elim (Bool-cases (eqb_id same t.id id)) [
    | inl e ↦ rw e (([], ts, refl, refl, (eqb_id_iff same law t.id id).0 e, tt), refl)
    | inr e ↦
        let (h, k) = unschedule_lem id ts in
        rw e (
          pass id t ts (other same law t.id id e) (unschedule same id ts).0
              (unschedule same id ts).1 h,
          k,
        )
  ]

  All-unschedule_window :
      (P : Timer E W → Type 0) (w : W) (ts : List (Timer E W))
      → All P ts
      → All P (unschedule_window same w ts)
  unfolding unschedule_window
  All-unschedule_window P w [] h = tt
  All-unschedule_window P w (t ∷ ts) h = elim (Bool-cases (same t.id.window_id w)) [
    | inl e ↦ rw e (All-unschedule_window P w ts h.1)
    | inr e ↦ rw e (h.0, All-unschedule_window P w ts h.1)
  ]

  unschedule_window-IsSorted :
      (w : W) (ts : List (Timer E W)) → IsSorted ts → IsSorted (unschedule_window same w ts)
  unfolding unschedule_window
  unschedule_window-IsSorted w [] h = tt
  unschedule_window-IsSorted w (t ∷ ts) h = elim (Bool-cases (same t.id.window_id w)) [
    | inl e ↦ rw e (unschedule_window-IsSorted w ts h.1)
    | inr e ↦ rw e (
      All-unschedule_window (λ u. t.deadline ≤ u.deadline) w ts h.0,
      unschedule_window-IsSorted w ts h.1,
    )
  ]

  scheduled-unschedule_window :
      (w : W) (id : TimerId W) (ts : List (Timer E W))
      → scheduled same id (unschedule_window same w ts)
        ≡ (if same id.window_id w then false else scheduled same id ts)
  unfolding unschedule_window scheduled
  scheduled-unschedule_window w id [] = ground arith
  scheduled-unschedule_window w id (t ∷ ts) =
      let ih = scheduled-unschedule_window w id ts in
      elim (Bool-cases (same t.id.window_id w)) [
        | inl e ↦ rw e (elim (Bool-cases (eqb_id same t.id id)) [
          | inl e' ↦
              let here : same id.window_id w ≡ true =
                subst (λ i. same i.window_id w ≡ true) ((eqb_id_iff same law t.id id).0 e') e in
              ih ∙ rw here refl
          | inr e' ↦ rw e' ih
        ])
        | inr e ↦ rw e (elim (Bool-cases (eqb_id same t.id id)) [
          | inl e' ↦
              let there : same id.window_id w ≡ false =
                subst (λ i. same i.window_id w ≡ false) ((eqb_id_iff same law t.id id).0 e') e in
              rw (e', there) refl
          | inr e' ↦ rw e' ih
        ])
      ]

  -- On timers in the order of their deadlines, after `unschedule_window` no timer of the window is scheduled, what is scheduled for other windows is as before, and the order is kept.
  pub unschedule_window_lem :
      (w : W) (ts : List (Timer E W)) (id : TimerId W)
      → IsSorted ts
      → (scheduled same id (unschedule_window same w ts)
          ≡ (if same id.window_id w then false else scheduled same id ts))
        × IsSorted (unschedule_window same w ts)
  unschedule_window_lem w ts id h =
      (scheduled-unschedule_window w id ts, unschedule_window-IsSorted w ts h)
