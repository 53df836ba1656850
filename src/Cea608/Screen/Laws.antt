-- ===== src/Cea608/Screen/Laws.antt =====
-- A screen keeps its 15 rows of 100 cells, its current row and its window in range.
use v4l2rtspserver.Base.{
  ℕ, suc, ◌≤◌, ◌<◌, ◌≡◌, refl, ap, ◌∙◌, Option, none, some, List, [], ◌∷◌, map, length, set,
  get_elem?, All, All-set, All-get_elem?, All-replicate, length-set, length-replicate,
  get_elem?-in_range, >>=-eq-some, arith,
}
use mathlib.Core.Path.{subst}
use mathlib.Core.Option.{some-injective}
use v4l2rtspserver.Base.Yields.{Yields, Returns}
use v4l2rtspserver.Base.Int.{ℤ}
use v4l2rtspserver.Cea608.Pen.{Styles}
use v4l2rtspserver.Cea608.Row
use v4l2rtspserver.Cea608.Row.{Row, new_row}
use v4l2rtspserver.Cea608.Row.Laws
use v4l2rtspserver.Cea608.Row.Keeps.{Sound, set_pen_styles-Sound, move_cursor-Sound}
use v4l2rtspserver.Cea608.Screen.{
  CaptionScreen, new_screen, reset, copy_rows, copy, on_row, back_space, clear_to_end_of_row,
  insert_char, set_pen, move_cursor, set_roll_up_rows,
}

-- The window of a roll-up mode is 1 to 15 rows high.
abbrev pub WindowFits : Option ℕ → Type 0
WindowFits none = Unit {0}
WindowFits (some n) = (1 ≤ n) × (n ≤ 15)

pub record IsValid (s : CaptionScreen) : Type 0 where
  pub rows_valid : All Laws.IsValid s.rows
  pub height : length s.rows ≡ 15
  pub curr_in : s.curr_row < 15
  pub window : WindowFits s.nr_roll_up_rows

abbrev pub ScreenSound : Option CaptionScreen → Type 0
ScreenSound o = Yields IsValid o

abbrev pub ScreenReturns : Option CaptionScreen → Type 0
ScreenReturns o = Returns IsValid o

pub new_screen-IsValid : IsValid new_screen
new_screen-IsValid = record {
  rows_valid = All-replicate Laws.IsValid 15 new_row Laws.new_row-IsValid;
  height = length-replicate 15 new_row;
  curr_in = omega arith;
  window = tt;
}

-- The screen with one row replaced by a valid one.
set_row-IsValid :
    (s : CaptionScreen) (row : Row)
    → IsValid s
    → Laws.IsValid row
    → IsValid (record s { rows = set s.rows s.curr_row row })
set_row-IsValid s row v w = record {
  rows_valid = All-set Laws.IsValid s.rows s.curr_row row v.rows_valid w;
  height = length-set s.rows s.curr_row row ∙ v.height;
  curr_in = v.curr_in;
  window = v.window;
}

-- A method of the current row that always returns.
pub on_row_total :
    (f : Row → Option Row) (s : CaptionScreen)
    → IsValid s
    → ((r : Row) → Laws.IsValid r → Laws.RowReturns (f r))
    → ScreenReturns (on_row f s)
unfolding on_row
on_row_total f s v total =
    let (row, e) = get_elem?-in_range s.rows s.curr_row (omega (arith, v.height, v.curr_in)) in
    let w : Laws.IsValid row = All-get_elem? Laws.IsValid s.rows s.curr_row v.rows_valid e in
    let (row', e', w') = total row w in
    (record s { rows = set s.rows s.curr_row row' }, rw (e, e'), set_row-IsValid s row' v w')

pub on_row-Sound :
    (f : Row → Option Row) (s : CaptionScreen)
    → IsValid s
    → ((r : Row) → Laws.IsValid r → Sound (f r))
    → ScreenSound (on_row f s)
unfolding on_row
on_row-Sound f s v sound s' h =
    let (row, e, h₁) = >>=-eq-some (get_elem? s.rows s.curr_row) _ h in
    let (row', e', h₂) = >>=-eq-some (f row) _ h₁ in
    let w : Laws.IsValid row = All-get_elem? Laws.IsValid s.rows s.curr_row v.rows_valid e in
    subst IsValid (some-injective _ _ h₂) (set_row-IsValid s row' v (sound row w row' e'))

pub back_space_total : (s : CaptionScreen) → IsValid s → ScreenReturns (back_space s)
unfolding back_space
back_space_total s v = on_row_total Row.back_space s v Laws.back_space_total

pub clear_to_end_of_row_total :
    (s : CaptionScreen) → IsValid s → ScreenReturns (clear_to_end_of_row s)
unfolding clear_to_end_of_row
clear_to_end_of_row_total s v =
    on_row_total _ s v
      (λ r w. (Row.clear_to_end_of_row r, refl, Laws.clear_to_end_of_row-IsValid r w))

pub insert_char_total :
    (byte : ℕ) (s : CaptionScreen) → IsValid s → ScreenReturns (insert_char byte s)
unfolding insert_char
insert_char_total byte s v = on_row_total (Row.insert_char byte) s v (Laws.insert_char_total byte)

pub set_pen_sound :
    (styles : Styles) (s : CaptionScreen) → IsValid s → ScreenSound (set_pen styles s)
unfolding set_pen
set_pen_sound styles s v =
    on_row-Sound (Row.set_pen_styles styles) s v (set_pen_styles-Sound styles)

pub move_cursor_sound :
    (n : ℕ) (s : CaptionScreen) → IsValid s → ScreenSound (move_cursor (ℤ.pos n) s)
unfolding move_cursor
move_cursor_sound n s v = on_row-Sound (Row.move_cursor (ℤ.pos n)) s v (move_cursor-Sound n)

pub All-clear : (rows : List Row) → All Laws.IsValid rows → All Laws.IsValid (map Row.clear rows)
All-clear [] h = tt
All-clear (r ∷ rs) h = (Laws.clear-IsValid r h.0, All-clear rs h.1)

pub length-clear : (rows : List Row) → length (map Row.clear rows) ≡ length rows
length-clear [] = refl
length-clear (r ∷ rs) = ap suc (length-clear rs)

pub reset-IsValid : (s : CaptionScreen) → IsValid s → IsValid (reset s)
unfolding reset
reset-IsValid s v = record {
  rows_valid = All-clear s.rows v.rows_valid;
  height = length-clear s.rows ∙ v.height;
  curr_in = omega arith;
  window = v.window;
}

pub set_roll_up_rows-IsValid :
    (n : ℕ) (s : CaptionScreen) → 1 ≤ n → n ≤ 15 → IsValid s → IsValid (set_roll_up_rows n s)
unfolding set_roll_up_rows
set_roll_up_rows-IsValid n s lo hi v = record {
  rows_valid = v.rows_valid;
  height = v.height;
  curr_in = v.curr_in;
  window = (lo, hi);
}

All-copy_rows :
    (rs qs : List Row)
    → All Laws.IsValid rs
    → All Laws.IsValid qs
    → All Laws.IsValid (copy_rows rs qs)
unfolding copy_rows
All-copy_rows [] qs h k = h
All-copy_rows (r ∷ rs) [] h k = h
All-copy_rows (r ∷ rs) (q ∷ qs) h k = (Laws.copy-IsValid r q h.0 k.0, All-copy_rows rs qs h.1 k.1)

length-copy_rows : (rs qs : List Row) → length (copy_rows rs qs) ≡ length rs
unfolding copy_rows
length-copy_rows [] qs = refl
length-copy_rows (r ∷ rs) [] = refl
length-copy_rows (r ∷ rs) (q ∷ qs) = ap suc (length-copy_rows rs qs)

pub copy-IsValid : (s other : CaptionScreen) → IsValid s → IsValid other → IsValid (copy s other)
unfolding copy
copy-IsValid s other v w = record {
  rows_valid = All-copy_rows s.rows other.rows v.rows_valid w.rows_valid;
  height = length-copy_rows s.rows other.rows ∙ v.height;
  curr_in = v.curr_in;
  window = v.window;
}
