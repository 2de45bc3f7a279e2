-- ===== src/Scheduler/Order.antt =====
-- `schedule` of cutty/src/scheduler.rs keeps the timers in the order of their deadlines.
use cu_tty.Prelude.{
  ℕ, suc, ◌+◌, ◌≤◌, ◌<◌, ◌≡◌, refl, ◌∙◌, sym, ap, Bool, ltb, if◌then◌else◌, none, some, List, [],
  ◌∷◌, ◌++◌, length, All, arith, inl, inr, ltb_cases, Option-cases, subst,
}
use cu_tty.Scheduler.{Timer, TimerId, position, unwrap_or, insert_at, schedule}

module _ {E W : Type 0} where
  -- A timer is due no later than those behind it.
  abbrev pub IsSorted : List (Timer E W) → Type 0
  IsSorted [] = Unit
  IsSorted (t ∷ ts) = All (λ (u : Timer E W). t.deadline ≤ u.deadline) ts × IsSorted ts

  -- `t` behind all timers that are due no later.
  abbrev pub insert : Timer E W → List (Timer E W) → List (Timer E W)
  insert t [] = t ∷ []
  insert t (u ∷ us) = if ltb t.deadline u.deadline then t ∷ u ∷ us else u ∷ insert t us

  insert_at-eq :
      (t : Timer E W) (ts : List (Timer E W))
      → insert_at (unwrap_or (position (λ u. ltb t.deadline u.deadline) ts) (length ts)) t ts
        ≡ insert t ts
  unfolding position
  insert_at-eq t [] = refl
  insert_at-eq t (u ∷ us) = elim (ltb_cases t.deadline u.deadline) [
    | inl (e, _) ↦ rw e refl
    | inr (e, _) ↦
        rw e (elim (Option-cases (position (λ (u : Timer E W). ltb t.deadline u.deadline) us)) [
          | inl o ↦ rw o (
              ap (λ ts. u ∷ ts)
                (subst (λ i. insert_at (unwrap_or i (length us)) t us ≡ insert t us) o
                  (insert_at-eq t us)))
          | inr (i, o) ↦ rw o (
              ap (λ ts. u ∷ ts)
                (subst (λ i. insert_at (unwrap_or i (length us)) t us ≡ insert t us) o
                  (insert_at-eq t us)))
        ])
  ]

  -- The timer that `schedule` makes.
  abbrev pub new_timer : ℕ → E → ℕ → Bool → TimerId W → Timer E W
  new_timer now event interval repeat id = record {
    interval = if repeat then some interval else none;
    deadline = now + interval;
    event = event;
    id = id;
  }

  pub schedule-eq :
      (now : ℕ) (ts : List (Timer E W)) (event : E) (interval : ℕ) (repeat : Bool) (id : TimerId W)
      → schedule now ts event interval repeat id
        ≡ insert (new_timer now event interval repeat id) ts
  unfolding schedule
  schedule-eq now ts event interval repeat id =
      insert_at-eq (new_timer now event interval repeat id) ts

  pub All-insert :
      (P : Timer E W → Type 0) (t : Timer E W) (ts : List (Timer E W))
      → P t
      → All P ts
      → All P (insert t ts)
  All-insert P t [] p h = (p, tt)
  All-insert P t (u ∷ us) p h = elim (ltb_cases t.deadline u.deadline) [
    | inl (e, _) ↦ rw e (p, h)
    | inr (e, _) ↦ rw e (h.0, All-insert P t us p h.1)
  ]

  All-later :
      (a b : ℕ) (ts : List (Timer E W))
      → a ≤ b
      → All (λ (u : Timer E W). b ≤ u.deadline) ts
      → All (λ (u : Timer E W). a ≤ u.deadline) ts
  All-later a b [] h all = tt
  All-later a b (t ∷ ts) h all = (omega (arith, all.0), All-later a b ts h all.1)

  pub IsSorted-insert :
      (t : Timer E W) (ts : List (Timer E W)) → IsSorted ts → IsSorted (insert t ts)
  IsSorted-insert t [] h = (tt, tt)
  IsSorted-insert t (u ∷ us) h = elim (ltb_cases t.deadline u.deadline) [
    | inl (e, lt) ↦ rw e ((omega arith, All-later t.deadline u.deadline us (omega arith) h.0), h)
    | inr (e, le) ↦
        rw e (All-insert (λ v. u.deadline ≤ v.deadline) t us le h.0, IsSorted-insert t us h.1)
  ]

  -- Where `insert` puts the timer.
  insert-splits :
      (t : Timer E W) (ts : List (Timer E W))
      → IsSorted ts
      → (xs : List (Timer E W)) × (ys : List (Timer E W)) × (ts ≡ xs ++ ys)
        × (insert t ts ≡ xs ++ (t ∷ ys))
        × All (λ (u : Timer E W). u.deadline ≤ t.deadline) xs
        × All (λ (u : Timer E W). suc t.deadline ≤ u.deadline) ys
  insert-splits t [] h = ([], [], refl, refl, tt, tt)
  insert-splits t (u ∷ us) h = elim (ltb_cases t.deadline u.deadline) [
    | inl (e, lt) ↦ rw e (
      [],
      u ∷ us,
      refl,
      refl,
      tt,
      (omega arith, All-later (suc t.deadline) u.deadline us (omega arith) h.0),
    )
    | inr (e, le) ↦
        let (xs, ys, same, put, before, after) = insert-splits t us h.1 in
        rw e
          (u ∷ xs, ys, ap (λ ts. u ∷ ts) same, ap (λ ts. u ∷ ts) put, (omega arith, before), after)
  ]

  -- On timers in the order of their deadlines, `schedule` puts the new timer, due an interval after `now`, behind every timer that is due no later and ahead of every one that is due later, leaves the others in their order, and the timers stay in the order of their deadlines.
  pub schedule_lem :
      (now : ℕ) (ts : List (Timer E W)) (event : E) (interval : ℕ) (repeat : Bool) (id : TimerId W)
      → IsSorted ts
      → IsSorted (schedule now ts event interval repeat id)
        × ((xs : List (Timer E W)) × (ys : List (Timer E W)) × (ts ≡ xs ++ ys)
            × (schedule now ts event interval repeat id
                ≡ xs ++ (new_timer now event interval repeat id ∷ ys))
            × All (λ (u : Timer E W). u.deadline ≤ now + interval) xs
            × All (λ (u : Timer E W). now + interval < u.deadline) ys)
  schedule_lem now ts event interval repeat id h =
      let t = new_timer now event interval repeat id in
      let (xs, ys, same, put, before, after) = insert-splits t ts h in
      (
        subst IsSorted (sym (schedule-eq now ts event interval repeat id)) (IsSorted-insert t ts h),
        (xs, ys, same, schedule-eq now ts event interval repeat id ∙ put, before, after),
      )
