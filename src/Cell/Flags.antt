-- ===== src/Cell/Flags.antt =====
-- The bits of `Flags` in cutty_terminal/src/term/cell.rs, and the operations of the bitflags crate
-- on them.
use Prim.Native.Nat.{bit_and, bit_or}
use cu_tty.Prelude.{ℕ, ◌+◌, ◌-◌, Bool, not, ◌==◌}

abbrev pub inverse : ℕ
inverse = 1

abbrev pub bold : ℕ
bold = 2

abbrev pub italic : ℕ
italic = 4

abbrev pub underline : ℕ
underline = 8

abbrev pub wrapline : ℕ
wrapline = 16

abbrev pub wide_char : ℕ
wide_char = 32

abbrev pub wide_char_spacer : ℕ
wide_char_spacer = 64

abbrev pub dim : ℕ
dim = 128

abbrev pub hidden : ℕ
hidden = 256

abbrev pub strikeout : ℕ
strikeout = 512

abbrev pub leading_wide_char_spacer : ℕ
leading_wide_char_spacer = 1024

abbrev pub double_underline : ℕ
double_underline = 2048

abbrev pub undercurl : ℕ
undercurl = 4096

abbrev pub dotted_underline : ℕ
dotted_underline = 8192

abbrev pub dashed_underline : ℕ
dashed_underline = 16384

abbrev pub all_underlines : ℕ
all_underlines = underline + double_underline + undercurl + dotted_underline + dashed_underline

unfoldable pub contains : ℕ → ℕ → Bool
contains flags other = bit_and flags other == other

unfoldable pub intersects : ℕ → ℕ → Bool
intersects flags other = not (bit_and flags other == 0)

unfoldable pub insert : ℕ → ℕ → ℕ
insert flags other = bit_or flags other

unfoldable pub remove : ℕ → ℕ → ℕ
remove flags other = flags - bit_and flags other
