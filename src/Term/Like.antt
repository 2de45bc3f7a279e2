-- ===== src/Term/Like.antt =====
-- What the operations of cutty_terminal/src/term/mod.rs within a screen leave alone.
use cu_tty.Prelude.{◌≡◌, length, refl, Bool}
use cu_tty.Index.{Point}
use cu_tty.Term.{Term}
use cu_tty.Term.Damage.{TermDamageState}

module _ {T S K : Type 0} where
  -- What was read off the terminal `t` is so in the terminal `t'` too.
  pub record IsLike (t t' : Term T S K) : Type 0 where
    pub same_lines : t'.grid.lines ≡ t.grid.lines
    pub same_columns : t'.grid.columns ≡ t.grid.columns
    pub same_charsets : t'.grid.cursor.charsets ≡ t.grid.cursor.charsets
    pub same_charset : t'.active_charset ≡ t.active_charset
    pub same_start : t'.region_start ≡ t.region_start
    pub same_end : t'.region_end ≡ t.region_end
    pub same_damage : length t'.damage.lines ≡ length t.damage.lines

  -- A motion of the cursor, with its damage.
  pub alike :
      (t : Term T S K) (p : Point) (d : TermDamageState) (w : Bool)
      → length d.lines ≡ length t.damage.lines
      → IsLike t (record t {
        damage = d;
        grid = record t.grid { cursor = record t.grid.cursor { point = p; input_needs_wrap = w } };
      })
  alike t p d w e = record {
    same_lines = refl;
    same_columns = refl;
    same_charsets = refl;
    same_charset = refl;
    same_start = refl;
    same_end = refl;
    same_damage = e;
  }
