-- ===== src/Lib.antt =====
-- A verification library for CuTTY, a terminal emulator: the screen buffer of the crate
-- cutty_terminal, from the rows of cells to the control functions of the terminal, its selections,
-- the damage of the window and the timers of the application.
--
-- The parts and how they interact. A row (cutty_terminal/src/grid/row.rs) is a list of cells and a
-- count `occ` of cells that may have been written. The storage (cutty_terminal/src/grid/storage.rs)
-- keeps the rows in a ring: `zero` is the index of the bottom line of the screen, the other lines
-- follow upwards, `len` of them are the screen and its history, the rest is a cache. The grid
-- (cutty_terminal/src/grid/mod.rs) scrolls by rotating the ring and swapping the lines that stay,
-- resets the lines that come in, and keeps the display offset. Points, lines and the clamps to the
-- grid are those of cutty_terminal/src/index.rs. The terminal (cutty_terminal/src/term/mod.rs)
-- moves a cursor over the grid, writes characters and erases cells at it, scrolls regions of it
-- together with the selection, and notes what it damages. What the terminal damages becomes
-- rectangles of the window (cutty/src/display/damage.rs). The scheduler (cutty/src/scheduler.rs)
-- keeps timers in the order of their deadlines.
--
-- The files:
--
-- - Prelude and Prelude/: lists, options, integers, 32-bit wrap-around, rotations of lists, and
--   properties of what may panic (Prelude/Whenever).
-- - Row: `Row` and the trait `GridCell`; Row/Valid is the promise of `occ`, Row/Reset the reset,
--   Row/Grow the growth of a row, Row/Shift the loops that swap and fill cells, Row/Blanks the
--   insertion and deletion of cells.
-- - Storage: `Storage`; Storage/Ring reads and writes by line number, Storage/Rotate the rotations,
--   Storage/Resize what changes the number of rows.
-- - Index: `Direction`, `Boundary`, `Point`, `Line` and the trait `Dimensions`; Index/Motion and
--   Index/Back say that `Point::add` and `Point::sub` count cells in reading order.
-- - Grid: `Grid`; Grid/Valid is its invariant, Grid/Resize and Grid/Reflow the resize of
--   cutty_terminal/src/grid/resize.rs (Grid/Reflow/Grow and Grid/Reflow/Shrink the columns,
--   Grid/Reflow/Ends the end of the loop), Grid/Edit the indexing, Grid/Iterate the iterator over
--   the cells, Grid/Region the reset of a region, Grid/Display the display offset and the limit of
--   the history, Grid/Loops the rules for its loops, Grid/Rows the description of a scroll on the
--   list of lines, Grid/Swaps and Grid/ScrollUp lead to Grid/Up, Grid/Sinking and Grid/ScrollDown
--   to Grid/Down.
-- - The modules named Tests and Examples run the definitions; Row/Ink and Grid/Sample hold the
--   small cell type and grid that they use.
-- - Cell: `Cell` and `CellExtra` of cutty_terminal/src/term/cell.rs; Cell/Lawful shows that it is a
--   cell type as the grid wants it, Cell/Extra is about its optional attributes, Cell/Flags its
--   flags.
-- - Selection: `Selection` and `SelectionRange` of cutty_terminal/src/selection.rs; Selection/Range
--   and Selection/Simple say which cells are selected, Selection/Move how a selection scrolls,
--   Selection/Convert is `to_range`.
-- - Term: the state of `Term` in cutty_terminal/src/term/mod.rs; Term/Moves the motions of the
--   cursor, Term/Scroll what scrolls, Term/Write `input` and `put_tab`, Term/Erase what inserts,
--   deletes and clears cells, Term/Mode the modes, Term/Damage the damage of lines, Term/Tabs the
--   tab stops, Term/Stacks the stacks of titles and keyboard modes. Term/Motion and Term/Line are
--   the safety of the motions, Term/Linefeed the linefeed down to the lines of the grid,
--   Term/Cells, Term/Clear and Term/Screen what is cleared and shifted, Term/Ready, Term/Input,
--   Term/Frame, Term/Wrap and Term/Typing follow a character into the grid, Term/Total is `input`
--   for every width, Term/Run the sequences of control functions, Term/Sides what leaves the modes
--   as they are, Term/Switch the private modes.
-- - Display: the sizes of cutty/src/display/mod.rs and the damage of cutty/src/display/damage.rs;
--   Display/Frames is `FrameDamage` and `DamageTracker`, Display/Rects the rectangles that are
--   redrawn, Display/Boxes writes them as boxes of the window, Display/Merge follows the loop that
--   merges them, Display/Covers says that they cover the damage, Display/Flips is about the two
--   directions of `y`.
-- - Scheduler: `Scheduler` of cutty/src/scheduler.rs; Scheduler/Order is the order of the timers,
--   Scheduler/Cancel what is unscheduled, Scheduler/Update the loop of `update`.
--
-- How code corresponds to definitions. A method that changes its receiver returns it. A panic (an
-- index out of range, a debug assertion, a subtraction below 0 on `usize`, a rotation past the end)
-- is `none`, and `Returns P m` says that `m` does not panic and that its result meets `P`. A `for`
-- over a range of lines is `for_up` or `for_down`, whose count is the size of the range, so no fuel
-- is chosen; the inner loop of `shrink_columns` runs on as many rounds as the row has cells and the
-- cursor stands from the left, and one more, which is enough from two columns on; the loop of
-- `Scheduler::update` runs on fuel, of which one more than there are timers is enough if no timer
-- is repeated without a pause. `usize` is a natural number: the sizes of a grid are bounded by
-- memory. The width of a damaged line is the one difference of `usize` that wraps instead, so that
-- Display/Rects is total; the lines that are redrawn have a left end that is not right of the right
-- end. A line number is an integer; in Index, Grid, Selection, Term and Display the sums and casts
-- of `i32` and `u32` wrap as in the source, in Storage a line lies between minus the number of
-- lines and the height of the screen. The invariant of the grid (`IsSound` in Grid/Valid, which
-- `IsValid` and the invariants of the terminal contain) bounds the height of the screen by 2^31, so
-- that its lines have numbers; the number of positions of a scroll is bounded by 2^31 where a
-- theorem says so. The four character sets of a cursor are kept as the discriminants of an
-- enumeration of the vte crate; what a set maps a character to, and how many columns a character
-- takes, are functions given to `input`. The events that a control function sends to the user
-- interface are not modelled.
--
-- The cell type is a parameter: an instance of the record `GridCell`, of which `IsLawful` asks what
-- `Row::reset` relies on. The cell of the terminal is one (Cell/Lawful); its colours are those of
-- the vte crate, given as a type with its comparison.
--
-- Not modelled: `Term::resize`, the colours and answers of the terminal, search and vi mode; the
-- event loop, the pseudo-terminals, the rest of the rendering, windows and configuration, which
-- call the system or other libraries.
pub mod Prelude
pub mod Row
pub mod Storage
pub mod Index
pub mod Grid
pub mod Cell
pub mod Scheduler
pub mod Selection
pub mod Term
pub mod Display
