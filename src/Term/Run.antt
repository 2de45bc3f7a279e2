-- ===== src/Term/Run.antt =====
-- Sequences of the control functions of cutty_terminal/src/term/mod.rs, as the parser of the vte
-- crate calls them.
use cu_tty.Prelude.{
  ℕ, ◌≡◌, sym, Option, some, List, [], ◌∷◌, arith, Returns, Returns-bind, Returns-map, subst,
  if◌then◌else◌, ◌>>=◌, inl, inr, Bool-cases,
}
use cu_tty.Prelude.Int.{ℤ, pos, ◌+ℤ◌}
use cu_tty.Prelude.Machine.{IsI32}
use cu_tty.Row.{Row, IsLawful}
use cu_tty.Cell.{Cell, Palette, grid_cell}
use cu_tty.Grid.Valid.{IsValid}
use cu_tty.Term.{Term, point}
use cu_tty.Term.Moves.{goto, move_forward, move_backward, backspace, carriage_return}
use cu_tty.Term.Scroll.{linefeed, newline}
use cu_tty.Term.Write.{input}
use cu_tty.Term.Erase.{LineClearMode, insert_blank, delete_chars, erase_chars, clear_line}
use cu_tty.Term.Like.{IsLike}
use cu_tty.Term.Motion.{OnScreen, MovedTo, goto_lem}
use cu_tty.Term.Line.{forward_moves, backward_moves, returns_carriage, goes_back}
use cu_tty.Term.Cells.{Repainted, insert_blank_lem, delete_chars_lem}
use cu_tty.Term.Clear.{erase_chars_lem, clear_line_lem}
use cu_tty.Term.Ready.{Edited-Kept}
use cu_tty.Term.Input.{IsReady, IsReady-like, with_cursor-IsValid}
use cu_tty.Term.Wrap.{linefeed-Again}
use cu_tty.Term.Total.{input-Ready}

plus_zero : (a : ℤ) → IsI32 a → IsI32 (a +ℤ pos 0)
unfolding ◌+ℤ◌
plus_zero a h = ground arith

plus_top : (a b : ℤ) → b ≡ pos 0 → IsI32 a → IsI32 (a +ℤ b)
plus_top a b e h = subst (λ z. IsI32 (a +ℤ z)) (sym e) (plus_zero a h)

-- The control functions, with their arguments; a line of `goto` is an `i32`.
pub data Control : Type 0 where
  type : ℕ → Control
  feed new_line return back : Control
  forward backward insert delete erase : ℕ → Control
  clear : LineClearMode → Control
  go : (line : ℤ) (column : ℕ) → IsI32 line → Control

module _ {C H S K : Type 0} (palette : Palette C) (charset : ℕ → ℕ → ℕ)
    (char_width : ℕ → Option ℕ) where
  unfoldable pub call : Control → Term (Cell C H) S K → Option (Term (Cell C H) S K)
  call (type c) t = input palette charset char_width c t
  call feed t = linefeed (grid_cell palette) t
  call new_line t = newline (grid_cell palette) t
  call return t = carriage_return t
  call back t = backspace t
  call (forward n) t = move_forward n t
  call (backward n) t = move_backward n t
  call (insert n) t = insert_blank palette n t
  call (delete n) t = delete_chars palette n t
  call (erase n) t = erase_chars palette n t
  call (clear mode) t = clear_line palette mode t
  call (go line column _) t = goto line column t

  unfoldable pub run : List Control → Term (Cell C H) S K → Option (Term (Cell C H) S K)
  unfolding call
  run [] t = some t
  run (c ∷ cs) t = do t ← call c t; run cs t

  module _ (law : IsLawful (grid_cell {H = H} palette)) where
    abbrev Ready : Term (Cell C H) S K → Type 0
    Ready = IsReady (grid_cell palette)

    moved :
        (t t' : Term (Cell C H) S K)
        → Ready t
        → OnScreen t'.grid (point t')
        → t'.grid ≡ record t.grid { cursor = t'.grid.cursor }
        → IsLike t t'
        → Ready t'
    moved t t' r on same like =
        IsReady-like (grid_cell palette) t t' r
          (subst (IsValid (grid_cell palette)) (sym same)
            (with_cursor-IsValid (grid_cell palette) t.grid t'.grid.cursor r.valid))
          on like

    went :
        (line : ℤ) (col : ℕ) (t : Term (Cell C H) S K) (m : Option (Term (Cell C H) S K))
        → Ready t
        → Returns (MovedTo t line col) m
        → Returns Ready m
    went line col t m r h =
        Returns-map m
          (λ t' (placed, _, _, _, same, _, like). moved t t' r placed.on_screen same like) h

    painted :
        (P : Row (Cell C H) → Row (Cell C H) → Type 0) (t t' : Term (Cell C H) S K)
        → Ready t
        → Repainted (grid_cell palette) P t t'
        → Ready t'
    painted P t t' r p =
        IsReady-like (grid_cell palette) t t' r
          (Edited-Kept (grid_cell palette) t.grid t'.grid r.valid p.edited).valid
          p.is_placed.on_screen p.like

    call-Ready : (c : Control) (t : Term (Cell C H) S K) → Ready t → Returns Ready (call c t)
    unfolding call newline
    call-Ready (type c) t r = input-Ready palette law charset char_width c t r
    call-Ready feed t r =
        Returns-map (linefeed (grid_cell palette) t) (λ u a. a.0)
          (linefeed-Again (grid_cell palette) law t r)
    call-Ready new_line t r =
        Returns-bind Ready (linefeed (grid_cell palette) t) _
          (linefeed-Again (grid_cell palette) law t r) (λ u a. returned u a.0)
      where
        returned :
            (u : Term (Cell C H) S K)
            → Ready u
            → Returns Ready (if u.mode.line_feed_new_line then carriage_return u else some u)
        returned u r = elim (Bool-cases u.mode.line_feed_new_line) [
          | inl e ↦
              subst (λ b. Returns Ready (if b then carriage_return u else some u)) (sym e)
                (went (point u).line 0 u (carriage_return u) r (returns_carriage u r.is_placed))
          | inr e ↦ subst (λ b. Returns Ready (if b then carriage_return u else some u)) (sym e) r
        ]
    call-Ready return t r =
        went (point t).line 0 t (carriage_return t) r (returns_carriage t r.is_placed)
    call-Ready back t r =
        Returns-map (backspace t) (λ t' b. moved t t' r b.0.on_screen b.3 b.4)
          (goes_back t r.is_placed)
    call-Ready (forward n) t r = went _ _ t (move_forward n t) r (forward_moves n t r.is_placed)
    call-Ready (backward n) t r = went _ _ t (move_backward n t) r (backward_moves n t r.is_placed)
    call-Ready (insert n) t r =
        Returns-map (insert_blank palette n t) (λ t' p. painted _ t t' r p)
          (insert_blank_lem palette t n r.is_placed r.valid.sound)
    call-Ready (delete n) t r =
        Returns-map (delete_chars palette n t) (λ t' p. painted _ t t' r p)
          (delete_chars_lem palette t n r.is_placed r.valid.sound)
    call-Ready (erase n) t r =
        Returns-map (erase_chars palette n t) (λ t' p. painted _ t t' r p.0)
          (erase_chars_lem palette t n r.is_placed r.valid.sound)
    call-Ready (clear mode) t r =
        Returns-map (clear_line palette mode t) (λ t' p. painted _ t t' r p.0)
          (clear_line_lem palette mode t r.is_placed r.valid.sound)
    call-Ready (go line column i) t r =
        went _ _ t (goto line column t) r
          (goto_lem t line column r.is_placed i (plus_top line t.region_start r.top i))

    -- No sequence of characters of any width, linefeeds, newlines, carriage returns, backspaces, motions of the cursor, insertions, deletions and erasures of cells and clearings of a line panics on a terminal that is ready, whose scroll region begins at the top of the screen: after all of them the cursor and the scroll region are on the screen and the grid is valid.
    pub run-IsReady :
        (cs : List Control) (t : Term (Cell C H) S K)
        → IsReady (grid_cell palette) t
        → Returns (IsReady (grid_cell palette)) (run cs t)
    unfolding run
    run-IsReady [] t r = r
    run-IsReady (c ∷ cs) t r =
        Returns-bind Ready (call c t) (run cs) (call-Ready c t r) (λ u a. run-IsReady cs u a)
