-- ===== src/Cea608/Screen.antt =====
-- `CaptionScreen`: 15 rows, the current row and the height of a roll-up window. `none` is a thrown
-- TypeError. Nothing assigns `lastOutputScreen` of a screen (a channel has its own field of that
-- name), so `setPAC` reads undefined there and its copying loop is never reached.
pub mod Laws
pub mod Pac
pub mod RollUp
use v4l2rtspserver.Base.{
  ℕ, suc, ◌+◌, ◌-◌, Bool, true, false, not, ◌&&◌, Option, none, some, List, [], ◌∷◌, ◌++◌, map,
  ◌==◌, ltb, leb, if◌then◌else◌, ◌>>=◌, get_elem?, set, replicate, length, take, drop, max,
}
use v4l2rtspserver.Base.Int.{ℤ}
use v4l2rtspserver.Cea608.Charset.{nr_rows}
use v4l2rtspserver.Cea608.Pen.{Color, black, Styles}
use v4l2rtspserver.Cea608.Row
use v4l2rtspserver.Cea608.Row.{Row, new_row}

pub record CaptionScreen : Type 0 where
  pub rows : List Row
  pub curr_row : ℕ
  pub nr_roll_up_rows : Option ℕ

-- What `interpretPAC` returns.
pub record PacData : Type 0 where
  pub color : Option Color
  pub italics : Bool
  pub indent : Option ℕ
  pub underline : Bool
  pub row : ℕ

-- `nrRollUpRows` stays as it is.
unfoldable pub reset : CaptionScreen → CaptionScreen
reset s = record s { rows = map Row.clear s.rows; curr_row = nr_rows - 1 }

abbrev pub new_screen : CaptionScreen
new_screen = record {
  rows = replicate nr_rows new_row;
  curr_row = nr_rows - 1;
  nr_roll_up_rows = none;
}

unfoldable pub rows_equal : List Row → List Row → Bool
rows_equal [] qs = true
rows_equal (r ∷ rs) [] = false
rows_equal (r ∷ rs) (q ∷ qs) = Row.equals r q && rows_equal rs qs

unfoldable pub equals : CaptionScreen → CaptionScreen → Bool
equals s other = rows_equal s.rows other.rows

unfoldable pub copy_rows : List Row → List Row → List Row
copy_rows [] qs = []
copy_rows (r ∷ rs) [] = r ∷ rs
copy_rows (r ∷ rs) (q ∷ qs) = Row.copy r q ∷ copy_rows rs qs

unfoldable pub copy : CaptionScreen → CaptionScreen → CaptionScreen
copy s other = record s { rows = copy_rows s.rows other.rows }

unfoldable pub rows_are_empty : List Row → Bool
rows_are_empty [] = true
rows_are_empty (r ∷ rs) = Row.is_empty r && rows_are_empty rs

unfoldable pub is_empty : CaptionScreen → Bool
is_empty s = rows_are_empty s.rows

-- A method of `this.rows[this.currRow]`.
unfoldable pub on_row : (Row → Option Row) → CaptionScreen → Option CaptionScreen
on_row f s = do
  row ← get_elem? s.rows s.curr_row
  row' ← f row
  some (record s { rows = set s.rows s.curr_row row' })

unfoldable pub back_space : CaptionScreen → Option CaptionScreen
back_space s = on_row Row.back_space s

unfoldable pub clear_to_end_of_row : CaptionScreen → Option CaptionScreen
clear_to_end_of_row s = on_row (λ row. some (Row.clear_to_end_of_row row)) s

unfoldable pub insert_char : ℕ → CaptionScreen → Option CaptionScreen
insert_char char s = on_row (Row.insert_char char) s

unfoldable pub set_pen : Styles → CaptionScreen → Option CaptionScreen
set_pen styles s = on_row (Row.set_pen_styles styles) s

unfoldable pub move_cursor : ℤ → CaptionScreen → Option CaptionScreen
move_cursor rel_pos s = on_row (Row.move_cursor rel_pos) s

unfoldable pub set_cursor : ℤ → CaptionScreen → Option CaptionScreen
set_cursor abs_pos s = on_row (λ row. some (Row.set_cursor abs_pos row)) s

-- `if (this.nrRollUpRows)`: neither null nor 0.
unfoldable pub is_rolling : Option ℕ → Bool
is_rolling none = false
is_rolling (some n) = not (n == 0)

-- The row that a preamble code moves to: in roll-up mode the window must fit above it.
unfoldable pub base_row : Option ℕ → ℕ → ℕ
base_row none new_row = new_row
base_row (some n) new_row = if not (n == 0) && ltb new_row (n - 1) then n - 1 else new_row

-- The pen's colour is the code's, or with an indent that of the cell left of it.
unfoldable pub pac_color : PacData → Row → Option Color
pac_color pac row = pick pac.indent
  where
    pick : Option ℕ → Option Color
    pick none = pac.color
    pick (some n) = do c ← get_elem? row.chars (max (n - 1) 0); some c.pen_state.foreground

unfoldable pub indent_row : Option ℕ → Row → Row
indent_row none row = row
indent_row (some n) row = Row.set_cursor (ℤ.pos n) row

unfoldable pub pac_styles : PacData → Color → Styles
pac_styles pac color = record {
  foreground = some color;
  underline = some pac.underline;
  italics = some pac.italics;
  background = some black;
  flash = some false;
}

-- The last part of `setPAC`, on the row that is now the current one.
unfoldable pub pac_row : PacData → Row → Option Row
pac_row pac row =
    let row' = indent_row pac.indent row in
    pac_color pac row' >>= λ color. Row.set_pen_styles (pac_styles pac color) row'

-- `pac.row` counts from 1. Moving a roll-up window clears the screen.
unfoldable pub set_pac : PacData → CaptionScreen → Option CaptionScreen
set_pac pac s =
    let new_row = base_row s.nr_roll_up_rows (pac.row - 1) in
    let rows =
      if is_rolling s.nr_roll_up_rows && not (s.curr_row == new_row)
      then map Row.clear s.rows
      else s.rows in
    on_row (pac_row pac) (record s { rows = rows; curr_row = new_row })

unfoldable pub set_bkg_data : Styles → CaptionScreen → Option CaptionScreen
set_bkg_data bkg_data s = do s₁ ← back_space s; s₂ ← set_pen bkg_data s₁; insert_char 0x20 s₂

unfoldable pub set_roll_up_rows : ℕ → CaptionScreen → CaptionScreen
set_roll_up_rows nr_rows s = record s { nr_roll_up_rows = some nr_rows }

-- Where `splice` starts for the index `a - b`: a negative index counts from the end, and stops at 0.
unfoldable pub splice_start : ℕ → ℕ → ℕ → ℕ
splice_start len a b = if leb b a then a - b else len + a - b

-- `rows.splice(i, 1)[0]`, cleared and put back by `rows.splice(currRow, 0, topRow)`.
unfoldable pub splice_rows : ℕ → ℕ → List Row → Option (List Row)
splice_rows i curr_row rows = do
  top_row ← get_elem? rows i
  let rest = take i rows ++ drop (suc i) rows
  some (take curr_row rest ++ Row.clear top_row ∷ drop curr_row rest)

unfoldable pub roll_up_by : Option ℕ → CaptionScreen → Option CaptionScreen
roll_up_by none s = some s
roll_up_by (some n) s = do
  rows ← splice_rows (splice_start (length s.rows) (s.curr_row + 1) n) s.curr_row s.rows
  some (record s { rows = rows })

unfoldable pub roll_up : CaptionScreen → Option CaptionScreen
roll_up s = roll_up_by s.nr_roll_up_rows s
