-- ===== src/Scheduler/Tests.antt =====
-- Runs of cutty/src/scheduler.rs with two windows, and the theorems at them.
use cu_tty.Prelude.{
  ℕ, ◌+◌, ◌≤◌, ◌<◌, ◌≡◌, refl, Bool, false, is_some, ◌==◌, ==_iff, none, some, List, [], ◌∷◌, ◌++◌,
  All, arith, Returns,
}
use cu_tty.Scheduler.{
  blink_cursor, frame, delayed_search, Timer, schedule, update, unschedule, scheduled,
  front_deadline,
}
use cu_tty.Scheduler.Order.{IsSorted, schedule_lem, new_timer}
use cu_tty.Scheduler.Cancel.{Unscheduled, unschedule_lem}
use cu_tty.Scheduler.Update.{update_lem, count}

abbrev blink : Timer ℕ ℕ
blink = record {
  deadline = 20;
  event = 70;
  id = record { topic = blink_cursor; window_id = 1 };
  interval = some 50;
}

abbrev redraw : Timer ℕ ℕ
redraw = record {
  deadline = 30;
  event = 80;
  id = record { topic = frame; window_id = 2 };
  interval = none;
}

abbrev search_again : Timer ℕ ℕ
search_again = record {
  deadline = 90;
  event = 60;
  id = record { topic = delayed_search; window_id = 1 };
  interval = none;
}

abbrev queue : List (Timer ℕ ℕ)
queue = blink ∷ redraw ∷ search_again ∷ []

-- The clock reads 40, then 41, 42 and so on.
abbrev clock : ℕ → ℕ
clock i = 40 + i

abbrev same : ℕ → ℕ → Bool
same v w = v == w

queue-IsSorted : IsSorted queue
queue-IsSorted = ((omega arith, (omega arith, tt)), ((omega arith, tt), (tt, tt)))

update_repeats :
    update 4 clock queue
    ≡ some (search_again ∷ record blink { deadline = 91 } ∷ [], 70 ∷ 80 ∷ [], some 90)
unfolding update
update_repeats = refl

schedule_lem_example :
    IsSorted (schedule 5 queue 9 25 false blink.id)
    × ((xs : List (Timer ℕ ℕ)) × (ys : List (Timer ℕ ℕ)) × (queue ≡ xs ++ ys)
        × (schedule 5 queue 9 25 false blink.id ≡ xs ++ (new_timer 5 9 25 false blink.id ∷ ys))
        × All (λ (u : Timer ℕ ℕ). u.deadline ≤ 30) xs
        × All (λ (u : Timer ℕ ℕ). 30 < u.deadline) ys)
schedule_lem_example = schedule_lem 5 queue 9 25 false blink.id queue-IsSorted

unschedule_lem_example :
    Unscheduled same ==_iff redraw.id queue (unschedule same redraw.id queue)
    × (is_some (unschedule same redraw.id queue).0 ≡ scheduled same redraw.id queue)
unschedule_lem_example = unschedule_lem same ==_iff redraw.id queue

update_lem_example :
    Returns
      (λ out.
        (out.1 ≡ 70 ∷ 80 ∷ [])
        × IsSorted out.0
        × All (λ (u : Timer ℕ ℕ). 40 < u.deadline) out.0
        × (1 ≤ count (λ u. u.event == 60) out.0)
        × (out.2 ≡ front_deadline out.0))
      (update 4 clock queue)
update_lem_example =
    update_lem (λ u. u.event == 60) clock queue (λ j. omega arith) queue-IsSorted
      ((λ d e. ground arith), ((λ d e. ground arith), ((λ d e. ground arith), tt)))
