-- ===== src/Cell.antt =====
-- cutty_terminal/src/term/cell.rs, the cell of the terminal's grid. A character is its code point,
-- the colours are those of the vte crate, given as a type with its comparison, and a hyperlink is a
-- value of a type. `Arc::make_mut` copies what is shared, so a cell owns its extra content.
pub mod Lawful
pub mod Extra
pub mod Flags
mod Tests
use Prim.Native.Nat.{bit_and}
use cu_tty.Prelude.{
  ℕ, ◌+◌, ◌-◌, Bool, true, false, ◌&&◌, ◌||◌, not, ◌==◌, if◌then◌else◌, Option, none, some, List,
  [], ◌∷◌, ◌++◌, ◌>>=◌, is_some,
}
use cu_tty.Row.{GridCell}

-- The bits of `Flags` that are used below.
abbrev pub wide_char : ℕ
wide_char = 32

-- `INVERSE | ALL_UNDERLINES | STRIKEOUT | WRAPLINE | WIDE_CHAR_SPACER | LEADING_WIDE_CHAR_SPACER`
abbrev pub visible_flags : ℕ
visible_flags = 1 + (8 + 2048 + 4096 + 8192 + 16384) + 512 + 16 + 64 + 1024

-- `CellExtra`, for colours `C` and hyperlinks `H`.
pub record CellExtra (C H : Type 0) : Type 0 where
  pub zerowidth : List ℕ
  pub underline_color : Option C
  pub hyperlink : Option H

pub record Cell (C H : Type 0) : Type 0 where
  pub c : ℕ
  pub fg : C
  pub bg : C
  pub flags : ℕ
  pub extra : Option (CellExtra C H)

-- The named colours of the default cell, and `PartialEq` of colours.
pub record Palette (C : Type 0) : Type 0 where
  pub background : C
  pub foreground : C
  pub same_color : C → C → Bool

abbrev pub is_nil : List ℕ → Bool
is_nil [] = true
is_nil (_ ∷ _) = false

module _ {C H : Type 0} where
  abbrev pub no_extra : CellExtra C H
  no_extra = record { zerowidth = []; underline_color = none; hyperlink = none }

  -- `self.extra.get_or_insert(Default::default())`
  abbrev pub extra_of : Cell C H → CellExtra C H
  extra_of cell = elim cell.extra [ none ↦ no_extra | some extra ↦ extra ]

  unfoldable pub push_zerowidth : ℕ → Cell C H → Cell C H
  push_zerowidth character cell =
      let extra = extra_of cell in
      record cell {
        extra = some (record extra { zerowidth = extra.zerowidth ++ (character ∷ []) });
      }

  unfoldable pub clear_wide : Cell C H → Cell C H
  clear_wide cell = record cell {
    flags = cell.flags - bit_and cell.flags wide_char;
    extra = cell.extra >>= (λ extra. some (record extra { zerowidth = [] }));
    c = 32;
  }

  unfoldable pub set_underline_color : Option C → Cell C H → Cell C H
  set_underline_color color cell =
      if not (is_some color)
        && (is_nil (extra_of cell).zerowidth && not (is_some (extra_of cell).hyperlink))
      then record cell { extra = none }
      else record cell { extra = some (record (extra_of cell) { underline_color = color }) }

  unfoldable pub underline_color : Cell C H → Option C
  underline_color cell = cell.extra >>= (λ extra. extra.underline_color)

  unfoldable pub set_hyperlink : Option H → Cell C H → Cell C H
  set_hyperlink hyperlink cell =
      if not (is_some hyperlink)
        && (is_nil (extra_of cell).zerowidth && not (is_some (extra_of cell).underline_color))
      then record cell { extra = none }
      else record cell { extra = some (record (extra_of cell) { hyperlink = hyperlink }) }

  unfoldable pub hyperlink : Cell C H → Option H
  hyperlink cell = cell.extra >>= (λ extra. extra.hyperlink)

  unfoldable pub zerowidth : Cell C H → Option (List ℕ)
  zerowidth cell = cell.extra >>= (λ extra. some extra.zerowidth)

  module _ (palette : Palette C) where
    abbrev pub default_cell : Cell C H
    default_cell = record {
      c = 32;
      bg = palette.background;
      fg = palette.foreground;
      flags = 0;
      extra = none;
    }

    -- `From<Color>`, and `reset`, which takes the background of the template.
    abbrev pub from_color : C → Cell C H
    from_color color = record default_cell { bg = color }

    unfoldable pub is_empty : Cell C H → Bool
    is_empty cell =
        ((cell.c == 32) || (cell.c == 9))
        && palette.same_color cell.bg palette.background
        && palette.same_color cell.fg palette.foreground
        && (bit_and cell.flags visible_flags == 0)
        && elim cell.extra [ none ↦ true | some extra ↦ is_nil extra.zerowidth ]

    abbrev pub grid_cell : GridCell (Cell C H)
    grid_cell = record {
      default = default_cell;
      is_empty = is_empty;
      reset = λ cell template. from_color template.bg;
      same_discriminant = λ s t. palette.same_color s.bg t.bg;
      flags = λ cell. cell.flags;
      with_flags = λ cell flags. record cell { flags = flags };
    }
