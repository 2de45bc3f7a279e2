-- ===== src/Scheduler.antt =====
-- cutty/src/scheduler.rs, the timers of the application in the order of their deadlines. Instants
-- and durations are numbers of nanoseconds. The events and window identifiers are those of other
-- crates, given as types with the comparison of windows. `Instant::now()` is read from `clock`,
-- whose `i`-th value is the `i`-th reading; the events sent to the event loop are returned.
pub mod Order
pub mod Cancel
pub mod Update
mod Tests
use cu_tty.Prelude.{
  ℕ, zero, suc, ◌+◌, ◌≤◌, Bool, true, false, ◌&&◌, not, ltb, leb, ◌==◌, if◌then◌else◌, Option, none,
  some, List, [], ◌∷◌, ◌++◌, length, take, drop, ◌>>=◌,
}

pub data Topic : Type 0 where
  selection_scrolling delayed_search blink_cursor blink_timeout frame : Topic

-- The derived `PartialEq` compares the discriminants.
abbrev pub discriminant : Topic → ℕ
discriminant selection_scrolling = 0
discriminant delayed_search = 1
discriminant blink_cursor = 2
discriminant blink_timeout = 3
discriminant frame = 4

pub record TimerId (W : Type 0) : Type 0 where
  pub topic : Topic
  pub window_id : W

pub record Timer (E W : Type 0) : Type 0 where
  pub deadline : ℕ
  pub event : E
  pub id : TimerId W
  pub interval : Option ℕ

-- `Iterator::position`, `Option::unwrap_or`, and `VecDeque::insert` at an index in the queue.
unfoldable pub position : {A : Type 0} → (A → Bool) → List A → Option ℕ
position p [] = none
position p (x ∷ xs) =
    let rest = position p xs in if p x then some 0 else (rest >>= (λ i. some (suc i)))

abbrev pub unwrap_or : Option ℕ → ℕ → ℕ
unwrap_or none d = d
unwrap_or (some i) d = i

abbrev pub insert_at : {A : Type 0} → ℕ → A → List A → List A
insert_at i x xs = take i xs ++ (x ∷ drop i xs)

abbrev pub eqb_id : {W : Type 0} → (W → W → Bool) → TimerId W → TimerId W → Bool
eqb_id same_window a b =
    (discriminant a.topic == discriminant b.topic) && same_window a.window_id b.window_id

module _ {E W : Type 0} where
  -- `schedule`, at the reading `now` of the clock.
  unfoldable pub schedule : ℕ → List (Timer E W) → E → ℕ → Bool → TimerId W → List (Timer E W)
  unfolding position
  schedule now timers event interval repeat timer_id =
      let deadline = now + interval in
      let index =
        unwrap_or (position (λ timer. ltb deadline timer.deadline) timers) (length timers) in
      insert_at index
        (record {
          interval = if repeat then some interval else none;
          deadline = deadline;
          event = event;
          id = timer_id;
        })
        timers

  -- `if let Some(interval) = timer.interval { self.schedule(…) }`, with the number of the next reading.
  abbrev pub repeat_timer : (ℕ → ℕ) → ℕ → Timer E W → List (Timer E W) → ℕ × List (Timer E W)
  repeat_timer clock i timer timers = elim timer.interval [
    | none ↦ (i, timers)
    | some interval ↦ (suc i, schedule (clock i) timers timer.event interval true timer.id)
  ]

  -- The loop of `update`, on fuel: the timers that are left, and the events sent.
  unfoldable pub update_loop :
      ℕ → (ℕ → ℕ) → ℕ → ℕ → List (Timer E W) → List E → Option (List (Timer E W) × List E)
  unfolding schedule
  update_loop zero clock now i timers sent = none
  update_loop (suc fuel) clock now i [] sent = some ([], sent)
  update_loop (suc fuel) clock now i (timer ∷ timers) sent =
      let (j, timers') = repeat_timer clock i timer timers in
      let rest = update_loop fuel clock now j timers' (sent ++ (timer.event ∷ [])) in
      if leb timer.deadline now then rest else some (timer ∷ timers, sent)

  abbrev pub front_deadline : List (Timer E W) → Option ℕ
  front_deadline [] = none
  front_deadline (timer ∷ _) = some timer.deadline

  unfoldable pub update :
      ℕ → (ℕ → ℕ) → List (Timer E W) → Option (List (Timer E W) × List E × Option ℕ)
  unfolding update_loop
  update fuel clock timers = do
    out ← update_loop fuel clock (clock 0) 1 timers []
    some (out.0, out.1, front_deadline out.0)

  module _ (same_window : W → W → Bool) where
    -- `unschedule`, with the timers that are left.
    unfoldable pub unschedule : TimerId W → List (Timer E W) → Option (Timer E W) × List (Timer E W)
    unschedule id [] = (none, [])
    unschedule id (timer ∷ timers) =
        let (out, rest) = unschedule id timers in
        if eqb_id same_window timer.id id then (some timer, timers) else (out, timer ∷ rest)

    unfoldable pub scheduled : TimerId W → List (Timer E W) → Bool
    scheduled id [] = false
    scheduled id (timer ∷ timers) =
        let rest = scheduled id timers in if eqb_id same_window timer.id id then true else rest

    unfoldable pub unschedule_window : W → List (Timer E W) → List (Timer E W)
    unschedule_window window_id [] = []
    unschedule_window window_id (timer ∷ timers) =
        let rest = unschedule_window window_id timers in
        if same_window timer.id.window_id window_id then rest else timer ∷ rest
