-- ===== src/Cell/Extra.antt =====
-- The extra content of a cell of term/cell.rs, which is allocated only when it is needed.
use cu_tty.Prelude.{ℕ, ◌≡◌, refl, Option, none, some, List, [], ◌∷◌}
use cu_tty.Cell.{
  Cell, CellExtra, extra_of, set_underline_color, underline_color, set_hyperlink, hyperlink,
}

module _ {C H : Type 0} where
  abbrev Colored : Cell C H → Option C → Type 0
  Colored cell color =
      (underline_color (set_underline_color color cell) ≡ color)
      × (hyperlink (set_underline_color color cell) ≡ hyperlink cell)
      × ((extra_of (set_underline_color color cell)).zerowidth ≡ (extra_of cell).zerowidth)

  abbrev Linked : Cell C H → Option H → Type 0
  Linked cell link =
      (hyperlink (set_hyperlink link cell) ≡ link)
      × (underline_color (set_hyperlink link cell) ≡ underline_color cell)
      × ((extra_of (set_hyperlink link cell)).zerowidth ≡ (extra_of cell).zerowidth)

  abbrev with_extra : Cell C H → List ℕ → Option C → Option H → Cell C H
  with_extra cell z u h = record cell {
    extra = some (record { zerowidth = z; underline_color = u; hyperlink = h });
  }

  colored :
      (cell : Cell C H) (z : List ℕ) (u : Option C) (h : Option H) (color : Option C)
      → Colored (with_extra cell z u h) color
  unfolding set_underline_color underline_color hyperlink
  colored cell z u h (some color) = (refl, refl, refl)
  colored cell [] u none none = (refl, refl, refl)
  colored cell [] u (some h) none = (refl, refl, refl)
  colored cell (x ∷ z) u h none = (refl, refl, refl)

  linked :
      (cell : Cell C H) (z : List ℕ) (u : Option C) (h : Option H) (link : Option H)
      → Linked (with_extra cell z u h) link
  unfolding set_hyperlink underline_color hyperlink
  linked cell z u h (some link) = (refl, refl, refl)
  linked cell [] none h none = (refl, refl, refl)
  linked cell [] (some u) h none = (refl, refl, refl)
  linked cell (x ∷ z) u h none = (refl, refl, refl)

  kept :
      (cell : Cell C H) (extra : Option (CellExtra C H)) (color : Option C) (link : Option H)
      → Colored (record cell { extra = extra }) color × Linked (record cell { extra = extra }) link
  unfolding set_underline_color underline_color set_hyperlink hyperlink
  kept cell (some extra) color link = (
    colored cell extra.zerowidth extra.underline_color extra.hyperlink color,
    linked cell extra.zerowidth extra.underline_color extra.hyperlink link,
  )
  kept cell none none none = ((refl, refl, refl), (refl, refl, refl))
  kept cell none none (some link) = ((refl, refl, refl), (refl, refl, refl))
  kept cell none (some color) none = ((refl, refl, refl), (refl, refl, refl))
  kept cell none (some color) (some link) = ((refl, refl, refl), (refl, refl, refl))

  -- Each attribute that is set can be read back, and the others stay: setting the underline colour keeps the hyperlink and the characters of no width, and setting the hyperlink keeps the underline colour and these characters, also where the extra content is dropped.
  pub extra_lem :
      (cell : Cell C H) (color : Option C) (link : Option H)
      → (underline_color (set_underline_color color cell) ≡ color)
        × (hyperlink (set_underline_color color cell) ≡ hyperlink cell)
        × ((extra_of (set_underline_color color cell)).zerowidth ≡ (extra_of cell).zerowidth)
        × (hyperlink (set_hyperlink link cell) ≡ link)
        × (underline_color (set_hyperlink link cell) ≡ underline_color cell)
        × ((extra_of (set_hyperlink link cell)).zerowidth ≡ (extra_of cell).zerowidth)
  extra_lem cell color link =
      let (a, b) = kept cell cell.extra color link in (a.0, a.1, a.2, b.0, b.1, b.2)
