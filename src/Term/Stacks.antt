-- ===== src/Term/Stacks.antt =====
-- The stacks of titles and keyboard modes of term/mod.rs, and the swap with the alternate screen.
use cu_tty.Prelude.{
  ℕ, suc, ◌-◌, ◌≤◌, ◌<◌, ◌≡◌, refl, true, not, leb, if◌then◌else◌, Option, none, some, List, [],
  ◌∷◌, ◌++◌, length, get_elem?, take, ◌>>=◌, arith, Returns, Returns-bind, inl, inr, leb_cases,
  lt→leb_false, le→leb, ap, ◌∙◌, length-append,
}
use cu_tty.Prelude.Int.{pos}
use cu_tty.Prelude.Index.{take-append, take_all_lem, get_elem?-append_right}
use cu_tty.Row.{GridCell}
use cu_tty.Prelude.Machine.{as_i32}
use cu_tty.Grid.{reset_region}
use cu_tty.Term.{Term, mark_fully_damaged}

-- `TITLE_STACK_MAX_DEPTH`, which is `KEYBOARD_MODE_STACK_MAX_DEPTH` too.
abbrev pub max_depth : ℕ
max_depth = 4096

-- `Vec::remove(0)`, which panics if there is no first element.
abbrev pub remove_first : {A : Type 0} → List A → Option (List A)
remove_first [] = none
remove_first (x ∷ xs) = some xs

-- `Vec::last`
abbrev pub last_of : {A : Type 0} → List A → Option A
last_of xs = get_elem? xs (length xs - 1)

abbrev pub last_mode : {K : Type 0} → K → List K → K
last_mode no_mode modes = elim (last_of modes) [ none ↦ no_mode | some mode ↦ mode ]

module _ {T S K : Type 0} where
  unfoldable pub push_title : Term T S K → Option (Term T S K)
  push_title t = do
    kept ←
        if leb max_depth (length t.title_stack)
        then remove_first t.title_stack
        else some t.title_stack
    some (record t { title_stack = kept ++ (t.title ∷ []) })

  unfoldable pub set_title : Option S → Term T S K → Term T S K
  set_title title t = record t { title = title }

  unfoldable pub pop_title : Term T S K → Term T S K
  unfolding set_title
  pop_title t = elim (last_of t.title_stack) [
    | none ↦ t
    | some popped ↦
        set_title popped (record t { title_stack = take (length t.title_stack - 1) t.title_stack })
  ]

  -- `set_keyboard_mode` with `KeyboardModesApplyBehavior::Replace`
  abbrev pub replace_keyboard_mode : K → Term T S K → Term T S K
  replace_keyboard_mode mode t = record t { mode = record t.mode { keyboard = mode } }

  -- The full stack takes an entry from the stack of titles.
  unfoldable pub push_keyboard_mode : K → Term T S K → Option (Term T S K)
  push_keyboard_mode mode t = if not t.kitty_keyboard then some t else do
    titles ←
        if leb max_depth (length t.keyboard_mode_stack)
        then remove_first t.title_stack
        else some t.title_stack
    some (
        replace_keyboard_mode mode (record t {
          title_stack = titles;
          keyboard_mode_stack = t.keyboard_mode_stack ++ (mode ∷ []);
        }))

  module _ (no_mode : K) where
    unfoldable pub pop_keyboard_modes : ℕ → Term T S K → Term T S K
    pop_keyboard_modes to_pop t =
        if not t.kitty_keyboard
        then t
        else (let modes = take (length t.keyboard_mode_stack - to_pop) t.keyboard_mode_stack in
            replace_keyboard_mode (last_mode no_mode modes)
              (record t { keyboard_mode_stack = modes }))

    -- `swap_alt`; the flag is the exclusive or with `ALT_SCREEN`.
    unfoldable pub swap_alt : GridCell T → Term T S K → Option (Term T S K)
    swap_alt cell t = do
      t ←
          (if not t.mode.alt_screen
            then (do
              let entered = record t.inactive_grid { cursor = t.grid.cursor }
              inactive ← reset_region cell entered (pos 0) (as_i32 entered.lines)
              some (record t {
                inactive_grid = inactive;
                grid = record t.grid { saved_cursor = t.grid.cursor };
              }))
            else some t)
      let swapped = record t {
        keyboard_mode_stack = t.inactive_keyboard_mode_stack;
        inactive_keyboard_mode_stack = t.keyboard_mode_stack;
        grid = t.inactive_grid;
        inactive_grid = t.grid;
        selection = none;
      }
      some (
          mark_fully_damaged (record swapped {
            mode = record swapped.mode {
              keyboard = last_mode no_mode swapped.keyboard_mode_stack;
              alt_screen = not swapped.mode.alt_screen;
            };
          }))

last_of-append : {A : Type 0} (xs : List A) (x : A) → last_of (xs ++ (x ∷ [])) ≡ some x
last_of-append xs x =
    get_elem?-append_right xs (x ∷ []) (length (xs ++ (x ∷ [])) - 1) 0
      (omega (arith, length-append xs (x ∷ [])))

take-append_one :
    {A : Type 0} (xs : List A) (x : A) (n : ℕ) → n ≡ length xs → take n (xs ++ (x ∷ [])) ≡ xs
take-append_one xs x n e =
    take-append n xs (x ∷ []) (omega (arith, e)) ∙ take_all_lem xs n (omega (arith, e))

kept_titles :
    {A : Type 0} (xs : List A)
    → length xs ≤ max_depth
    → Returns
        (λ ys. (suc (length ys) ≤ max_depth) × (length xs < max_depth → ys ≡ xs))
        (if leb max_depth (length xs) then remove_first xs else some xs)
kept_titles {A} xs h = elim (leb_cases max_depth (length xs)) [
  | inl (e, k) ↦ rw e (full xs k h)
  | inr (e, k) ↦ rw e (omega arith, λ _. refl)
]
  where
    full :
        (xs : List A)
        → max_depth ≤ length xs
        → length xs ≤ max_depth
        → Returns
            (λ ys. (suc (length ys) ≤ max_depth) × (length xs < max_depth → ys ≡ xs))
            (remove_first xs)
    full [] k h = absurd (omega arith)
    full (x ∷ xs) k h = (omega arith, λ l. absurd (omega arith))

module _ {T S K : Type 0} where
  -- With at most `max_depth` titles on the stack, pushing the title does not panic and leaves at most `max_depth`; whatever the title is set to afterwards, popping brings the pushed one back.
  pub pop_title-push_title :
      (t : Term T S K) (other : Option S)
      → length t.title_stack ≤ max_depth
      → Returns
          (λ t'.
            (length t'.title_stack ≤ max_depth)
            × ((pop_title (set_title other t')).title ≡ t.title))
          (push_title t)
  unfolding push_title pop_title set_title
  pop_title-push_title t other h =
      Returns-bind
        {P = λ (ys : List (Option S)).
          (suc (length ys) ≤ max_depth) × (length t.title_stack < max_depth → ys ≡ t.title_stack)}
        _
        (if leb max_depth (length t.title_stack)
          then remove_first t.title_stack
          else some t.title_stack)
        _ (kept_titles t.title_stack h)
        λ ys (few, same). (
          omega (arith, few, length-append ys (t.title ∷ [])),
          rw (last_of-append ys t.title, pop_title) refl,
        )

  -- On a terminal whose keyboard protocol is switched on (`kitty_keyboard`, which is off by default), while the stack of keyboard modes has room, pushing a mode makes it the active one and keeps the titles, and popping one mode brings the stack back and makes its last mode active, or no mode if it is empty.
  pub pop_keyboard_modes-push_keyboard_mode :
      (t : Term T S K) (no_mode mode : K)
      → t.kitty_keyboard ≡ true
      → length t.keyboard_mode_stack < max_depth
      → Returns
          (λ t'.
            (t'.mode.keyboard ≡ mode)
            × (t'.title_stack ≡ t.title_stack)
            × ((pop_keyboard_modes no_mode 1 t').keyboard_mode_stack ≡ t.keyboard_mode_stack)
            × ((pop_keyboard_modes no_mode 1 t').mode.keyboard
                ≡ last_mode no_mode t.keyboard_mode_stack))
          (push_keyboard_mode mode t)
  unfolding push_keyboard_mode pop_keyboard_modes
  pop_keyboard_modes-push_keyboard_mode t no_mode mode on h =
      let back =
        take-append_one t.keyboard_mode_stack mode
          (length (t.keyboard_mode_stack ++ (mode ∷ [])) - 1)
          (omega (arith, length-append t.keyboard_mode_stack (mode ∷ []))) in
      rw (on, lt→leb_false max_depth (length t.keyboard_mode_stack) h)
        (refl, refl, back, ap (last_mode no_mode) back)

  -- On a terminal whose keyboard protocol is switched on (`kitty_keyboard`, which is off by default), pushing a keyboard mode onto a full stack takes away the oldest title and lets the stack of keyboard modes grow beyond `max_depth`; it panics if there is no title on the other stack.
  pub push_keyboard_mode_overflows :
      (t : Term T S K) (mode : K) (oldest : Option S) (titles : List (Option S))
      → t.kitty_keyboard ≡ true
      → max_depth ≤ length t.keyboard_mode_stack
      → (push_keyboard_mode mode (record t { title_stack = [] }) ≡ none)
        × Returns
            (λ t'. (max_depth < length t'.keyboard_mode_stack) × (t'.title_stack ≡ titles))
            (push_keyboard_mode mode (record t { title_stack = oldest ∷ titles }))
  unfolding push_keyboard_mode
  push_keyboard_mode_overflows t mode oldest titles on h =
      rw (on, le→leb max_depth (length t.keyboard_mode_stack) h)
        (refl, (omega (arith, length-append t.keyboard_mode_stack (mode ∷ [])), refl))
