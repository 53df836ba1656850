-- ===== src/Cea608/Pen.antt =====
-- `PenState` and `StyledUnicodeChar`. A colour's name is a constructor; `semi c` is `c + '_semi'`.
use v4l2rtspserver.Base.{ℕ, Bool, false, not, ◌&&◌, Option, none, some, ◌==◌, if◌then◌else◌}
use mathlib.Core.Bool.{decide}

pub data Color : Type 0 where
  white green blue cyan red yellow magenta black transparent : Color
  semi : Color → Color

unfoldable pub Color-discrete : Discrete Color
Color-discrete = hlevel

unfoldable pub color_eq : Color → Color → Bool
unfolding Color-discrete
color_eq a b = decide (Color-discrete a b)

unfoldable pub bool_eq : Bool → Bool → Bool
bool_eq a b = if a then b else not b

pub record PenState : Type 0 where
  pub foreground : Color
  pub underline : Bool
  pub italics : Bool
  pub background : Color
  pub flash : Bool

-- `new PenState()`, and what `reset` leaves.
abbrev pub default_pen : PenState
default_pen = record {
  foreground = white;
  underline = false;
  italics = false;
  background = black;
  flash = false;
}

-- An object of styles: `none` is a property that the object does not have.
pub record Styles : Type 0 where
  pub foreground : Option Color
  pub underline : Option Bool
  pub italics : Option Bool
  pub background : Option Color
  pub flash : Option Bool

abbrev pub no_styles : Styles
no_styles = record {
  foreground = none;
  underline = none;
  italics = none;
  background = none;
  flash = none;
}

abbrev pub or_old {ℓ} : {A : Type ℓ} → Option A → A → A
or_old none a = a
or_old (some b) a = b

unfoldable pub set_styles : Styles → PenState → PenState
set_styles s p = record {
  foreground = or_old s.foreground p.foreground;
  underline = or_old s.underline p.underline;
  italics = or_old s.italics p.italics;
  background = or_old s.background p.background;
  flash = or_old s.flash p.flash;
}

unfoldable pub is_default : PenState → Bool
is_default p =
    color_eq p.foreground white
    && not p.underline
    && not p.italics
    && color_eq p.background black
    && not p.flash

unfoldable pub pen_equals : PenState → PenState → Bool
pen_equals p q =
    color_eq p.foreground q.foreground
    && bool_eq p.underline q.underline
    && bool_eq p.italics q.italics
    && color_eq p.background q.background
    && bool_eq p.flash q.flash

pub record StyledUnicodeChar : Type 0 where
  pub uchar : ℕ
  pub pen_state : PenState

-- `new StyledUnicodeChar()`, and what `reset` leaves: a space under the default pen.
abbrev pub blank : StyledUnicodeChar
blank = record { uchar = 0x20; pen_state = default_pen }

unfoldable pub set_char : ℕ → PenState → StyledUnicodeChar → StyledUnicodeChar
set_char uchar pen c = record { uchar = uchar; pen_state = pen }

unfoldable pub set_pen_state : PenState → StyledUnicodeChar → StyledUnicodeChar
set_pen_state pen c = record c { pen_state = pen }

unfoldable pub char_equals : StyledUnicodeChar → StyledUnicodeChar → Bool
char_equals c d = c.uchar == d.uchar && pen_equals c.pen_state d.pen_state

unfoldable pub char_is_empty : StyledUnicodeChar → Bool
char_is_empty c = c.uchar == 0x20 && is_default c.pen_state
