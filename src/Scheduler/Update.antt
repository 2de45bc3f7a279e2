-- ===== src/Scheduler/Update.antt =====
-- `update` of cutty/src/scheduler.rs: its loop ends, and sends what is due.
use cu_tty.Prelude.{
  ℕ, zero, suc, ◌≤◌, ◌<◌, ◌≡◌, refl, ◌∙◌, sym, ap, Bool, true, leb, if◌then◌else◌, some, List, [],
  ◌∷◌, ◌++◌, map, length, All, arith, inl, inr, ltb_cases, leb_cases, Option-cases, Returns,
  Returns-bind, Returns-map, lt→leb_false,
}
use mathlib.Core.List.{append-nil, append_assoc}
use cu_tty.Scheduler.{Timer, repeat_timer, update_loop, update, front_deadline}
use cu_tty.Scheduler.Order.{IsSorted, insert, IsSorted-insert, All-insert, schedule-eq, new_timer}

module _ {E W : Type 0} where
  -- The timers at the front of the queue that are due at `now`.
  abbrev pub due : ℕ → List (Timer E W) → List (Timer E W)
  due now [] = []
  due now (t ∷ ts) = if leb t.deadline now then t ∷ due now ts else []

  -- The timers behind them.
  abbrev pub later : ℕ → List (Timer E W) → List (Timer E W)
  later now [] = []
  later now (t ∷ ts) = if leb t.deadline now then later now ts else t ∷ ts

  -- If the timer is repeated, it is after some time.
  abbrev pub IsPositive : Timer E W → Type 0
  IsPositive t = (d : ℕ) → t.interval ≡ some d → 1 ≤ d

  due-insert :
      (now : ℕ) (t : Timer E W) (ts : List (Timer E W))
      → now < t.deadline
      → due now (insert t ts) ≡ due now ts
  due-insert now t [] h = rw (lt→leb_false t.deadline now h) refl
  due-insert now t (u ∷ us) h = elim (ltb_cases t.deadline u.deadline) [
    | inl (e, lt) ↦
        rw (e, lt→leb_false t.deadline now h, lt→leb_false u.deadline now (omega arith)) refl
    | inr (e, le) ↦ rw e (elim (leb_cases u.deadline now) [
      | inl (f, _) ↦ rw f (ap (λ xs. u ∷ xs) (due-insert now t us h))
      | inr (f, _) ↦ rw f refl
    ])
  ]

  length-due : (now : ℕ) (ts : List (Timer E W)) → length (due now ts) ≤ length ts
  length-due now [] = omega arith
  length-due now (t ∷ ts) = elim (leb_cases t.deadline now) [
    | inl (e, _) ↦ rw e (omega (arith, length-due now ts))
    | inr (e, _) ↦ rw e (omega arith)
  ]

  -- Timers in order, of which none is repeated without a pause.
  abbrev Proper : List (Timer E W) → Type 0
  Proper ts = IsSorted ts × All IsPositive ts

  -- How many timers pass a test.
  abbrev pub count : (Timer E W → Bool) → List (Timer E W) → ℕ
  count p [] = 0
  count p (t ∷ ts) = if p t then suc (count p ts) else count p ts

  count-insert :
      (p : Timer E W → Bool) (t : Timer E W) (ts : List (Timer E W))
      → count p (insert t ts) ≡ count p (t ∷ ts)
  count-insert p t [] = refl
  count-insert p t (u ∷ us) = elim (ltb_cases t.deadline u.deadline) [
    | inl (e, _) ↦ rw e refl
    | inr (e, _) ↦ rw e (ground (arith, count-insert p t us))
  ]

  later-insert :
      (p : Timer E W → Bool) (now : ℕ) (t : Timer E W) (ts : List (Timer E W))
      → now < t.deadline
      → count p (later now ts) ≤ count p (later now (insert t ts))
  later-insert p now t [] h = omega arith
  later-insert p now t (u ∷ us) h = elim (ltb_cases t.deadline u.deadline) [
    | inl (e, lt) ↦
        rw (e, lt→leb_false t.deadline now h, lt→leb_false u.deadline now (omega arith))
          (ground arith)
    | inr (e, le) ↦ rw e (elim (leb_cases u.deadline now) [
      | inl (f, _) ↦ rw f (later-insert p now t us h)
      | inr (f, _) ↦ rw f (ground (arith, count-insert p t us))
    ])
  ]

  record Repeated (p : Timer E W → Bool) (now : ℕ) (ts ts' : List (Timer E W)) : Type 0 where
    proper : Proper ts'
    same_due : due now ts' ≡ due now ts
    keeps : count p (later now ts) ≤ count p (later now ts')

  repeat_timer-Repeated :
      (p : Timer E W → Bool) (clock : ℕ → ℕ) (now i : ℕ) (t : Timer E W) (ts : List (Timer E W))
      → ((j : ℕ) → now ≤ clock j)
      → IsPositive t
      → Proper ts
      → Repeated p now ts (repeat_timer clock i t ts).1
  repeat_timer-Repeated p clock now i t ts late positive (sorted, all) =
      elim (Option-cases t.interval) [
        | inl e ↦ rw e (record { proper = (sorted, all); same_due = refl; keeps = omega arith })
        | inr (d, e) ↦
            let again : Timer E W = new_timer (clock i) t.event d true t.id in
            let after : now < again.deadline = omega (arith, late i, positive d e) in
            rw (e, schedule-eq (clock i) ts t.event d true t.id)
              (record {
                proper = (
                  IsSorted-insert again ts sorted,
                  All-insert IsPositive again ts (λ c h. ground (arith, h, positive d e)) all,
                );
                same_due = due-insert now again ts after;
                keeps = later-insert p now again ts after;
              })
      ]

  All-pending :
      (now : ℕ) (a : ℕ) (ts : List (Timer E W))
      → now < a
      → All (λ (u : Timer E W). a ≤ u.deadline) ts
      → All (λ (u : Timer E W). now < u.deadline) ts
  All-pending now a [] h all = tt
  All-pending now a (t ∷ ts) h all = (omega (arith, all.0), All-pending now a ts h all.1)

  -- What the loop leaves: timers in order of which none is due, no fewer of those that pass the test `p` than there were behind the due ones, and the events of the timers that were due, sent in order after `sent`.
  pub record Updated (p : Timer E W → Bool) (now : ℕ) (ts : List (Timer E W)) (sent : List E)
      (out : List (Timer E W) × List E) : Type 0 where
    pub sorted : IsSorted out.0
    pub pending : All (λ (u : Timer E W). now < u.deadline) out.0
    pub keeps : count p (later now ts) ≤ count p out.0
    pub events : out.1 ≡ sent ++ map (λ (u : Timer E W). u.event) (due now ts)

  update_loop-Updated :
      (p : Timer E W → Bool) (fuel : ℕ) (clock : ℕ → ℕ) (now i : ℕ) (ts : List (Timer E W))
      (sent : List E)
      → ((j : ℕ) → now ≤ clock j)
      → Proper ts
      → length (due now ts) < fuel
      → Returns (Updated p now ts sent) (update_loop fuel clock now i ts sent)
  unfolding update_loop
  update_loop-Updated p zero clock now i ts sent late proper h = absurd (omega arith)
  update_loop-Updated p (suc n) clock now i [] sent late proper h = record {
    sorted = tt;
    pending = tt;
    keeps = omega arith;
    events = sym (append-nil sent);
  }
  update_loop-Updated p (suc n) clock now i (t ∷ ts) sent late ((first, sorted), (positive, all))
        h =
      elim (leb_cases t.deadline now) [
        | inl (e, _) ↦ rw e (
            let k = rw e at h in
            let ts' = (repeat_timer clock i t ts).1 in
            let r = repeat_timer-Repeated p clock now i t ts late positive (sorted, all) in
            Returns-map
              (update_loop n clock now (repeat_timer clock i t ts).0 ts' (sent ++ (t.event ∷ [])))
              (λ out u. record {
                sorted = u.sorted;
                pending = u.pending;
                keeps = rw e (omega (arith, u.keeps, r.keeps));
                events = rw e (
                    u.events
                    ∙ ap (λ us. sent ++ (t.event ∷ []) ++ map (λ (u : Timer E W). u.event) us)
                        r.same_due
                    ∙ append_assoc sent (t.event ∷ [])
                        (map (λ (u : Timer E W). u.event) (due now ts)));
              })
              (update_loop-Updated p n clock now (repeat_timer clock i t ts).0 ts'
                (sent ++ (t.event ∷ [])) late r.proper (omega (arith, k, ap length r.same_due))))
        | inr (e, lt) ↦ rw e (record {
          sorted = (first, sorted);
          pending = (lt, All-pending now t.deadline ts lt first);
          keeps = rw e (omega arith);
          events = rw e (sym (append-nil sent));
        })
      ]

  -- With timers in the order of their deadlines, no repetition without a pause, and a clock that does not run backwards from its first reading, the loop of `update` ends within one round more than there are timers: it sends the events of the timers that are due, in the order of their deadlines, leaves timers in order of which none is due, loses no timer that was not due (whatever the test `p`, as many pass it as before), and returns the deadline of the first that is left.
  pub update_lem :
      (p : Timer E W → Bool) (clock : ℕ → ℕ) (ts : List (Timer E W))
      → ((j : ℕ) → clock 0 ≤ clock j)
      → IsSorted ts
      → All IsPositive ts
      → Returns
          (λ out.
            (out.1 ≡ map (λ (u : Timer E W). u.event) (due (clock 0) ts))
            × IsSorted out.0
            × All (λ (u : Timer E W). clock 0 < u.deadline) out.0
            × (count p (later (clock 0) ts) ≤ count p out.0)
            × (out.2 ≡ front_deadline out.0))
          (update (suc (length ts)) clock ts)
  unfolding update
  update_lem p clock ts late sorted all =
      Returns-bind {P = Updated p (clock 0) ts []} _
        (update_loop (suc (length ts)) clock (clock 0) 1 ts []) _
        (update_loop-Updated p (suc (length ts)) clock (clock 0) 1 ts [] late (sorted, all)
          (omega (arith, length-due (clock 0) ts)))
        (λ out u. (u.events, u.sorted, u.pending, u.keeps, refl))
