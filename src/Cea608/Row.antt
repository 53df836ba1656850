-- ===== src/Cea608/Row.antt =====
-- `Row`: 100 styled characters, a cursor and a pen. A method that reads `chars` past its end throws
-- a TypeError, which is `none`. `clearFromPos`, `equals`, `copy` and `isEmpty` walk the columns
-- 0 to 99 of arrays of 100 cells; here they walk the lists.
pub mod Laws
pub mod Keeps
pub mod Text
use v4l2rtspserver.Base.{
  ℕ, zero, suc, ◌+◌, Bool, true, false, ◌&&◌, Option, none, some, List, [], ◌∷◌, map, ◌==◌, ltb,
  leb, if◌then◌else◌, ◌>>=◌, get_elem?, set, replicate,
}
use v4l2rtspserver.Base.Int.{ℤ, sub_ℕ}
use v4l2rtspserver.Cea608.Charset.{nr_cols, get_char_for_byte}
use v4l2rtspserver.Cea608.Pen.{
  PenState, default_pen, Styles, set_styles, StyledUnicodeChar, blank, set_char, set_pen_state,
  char_equals, char_is_empty,
}

pub record Row : Type 0 where
  pub chars : List StyledUnicodeChar
  pub pos : ℕ
  pub curr_pen_state : PenState

abbrev pub new_row : Row
new_row = record { chars = replicate nr_cols blank; pos = 0; curr_pen_state = default_pen }

unfoldable pub chars_equal : List StyledUnicodeChar → List StyledUnicodeChar → Bool
chars_equal [] ds = true
chars_equal (c ∷ cs) [] = false
chars_equal (c ∷ cs) (d ∷ ds) = char_equals c d && chars_equal cs ds

unfoldable pub equals : Row → Row → Bool
equals r other = chars_equal r.chars other.chars

-- Only the cells are copied, not the cursor and the pen.
unfoldable pub copy : Row → Row → Row
copy r other = record r { chars = other.chars }

unfoldable pub chars_are_empty : List StyledUnicodeChar → Bool
chars_are_empty [] = true
chars_are_empty (c ∷ cs) = char_is_empty c && chars_are_empty cs

unfoldable pub is_empty : Row → Bool
is_empty r = chars_are_empty r.chars

-- The column that `setCursor` takes for `absPos`.
unfoldable pub clamp_column : ℤ → ℕ
clamp_column (ℤ.pos n) = if ltb nr_cols n then nr_cols else n
clamp_column (ℤ.negsuc n) = 0

unfoldable pub set_cursor : ℤ → Row → Row
set_cursor abs_pos r = record r { pos = clamp_column abs_pos }

-- `f(chars[i])`, a method call that throws where `chars[i]` is undefined.
unfoldable pub update_cell :
    (StyledUnicodeChar → StyledUnicodeChar)
    → ℕ
    → List StyledUnicodeChar
    → Option (List StyledUnicodeChar)
update_cell f i chars = get_elem? chars i >>= λ c. some (set chars i (f c))

-- The loop of `moveCursor`: `n` columns from `i` on take the pen.
unfoldable pub style_range :
    ℕ → ℕ → PenState → List StyledUnicodeChar → Option (List StyledUnicodeChar)
style_range zero i pen chars = some chars
style_range (suc n) i pen chars = do
  chars' ← update_cell (set_pen_state pen) i chars
  style_range n (i + 1) pen chars'

unfoldable pub move_cursor : ℤ → Row → Option Row
move_cursor (ℤ.pos n) r =
    let new_pos = r.pos + n in
    if ltb 1 n
    then (do
      chars ← style_range n (r.pos + 1) r.curr_pen_state r.chars
      some (set_cursor (ℤ.pos new_pos) (record r { chars = chars })))
    else some (set_cursor (ℤ.pos new_pos) r)
move_cursor (ℤ.negsuc n) r = some (set_cursor (sub_ℕ r.pos (n + 1)) r)

-- A method of the cell under the cursor.
unfoldable pub at_cursor : (StyledUnicodeChar → StyledUnicodeChar) → Row → Option Row
at_cursor f r = do chars ← update_cell f r.pos r.chars; some (record r { chars = chars })

unfoldable pub back_space : Row → Option Row
back_space r = do r' ← move_cursor (ℤ.negsuc 0) r; at_cursor (set_char 0x20 r'.curr_pen_state) r'

-- What `insertChar` does once an extended character has taken one step back.
unfoldable pub put_char : ℕ → Row → Option Row
put_char byte r = if leb nr_cols r.pos then some r else (do
  r' ← at_cursor (set_char (get_char_for_byte byte) r.curr_pen_state) r
  move_cursor (ℤ.pos 1) r')

unfoldable pub insert_char : ℕ → Row → Option Row
insert_char byte r = if leb 0x90 byte then back_space r >>= put_char byte else put_char byte r

unfoldable pub reset_from : ℕ → List StyledUnicodeChar → List StyledUnicodeChar
reset_from start [] = []
reset_from zero (c ∷ cs) = blank ∷ reset_from zero cs
reset_from (suc start) (c ∷ cs) = c ∷ reset_from start cs

unfoldable pub clear_from_pos : ℕ → Row → Row
clear_from_pos start r = record r { chars = reset_from start r.chars }

unfoldable pub clear : Row → Row
clear r = record (clear_from_pos 0 r) { pos = 0; curr_pen_state = default_pen }

unfoldable pub clear_to_end_of_row : Row → Row
clear_to_end_of_row r = clear_from_pos r.pos r

unfoldable pub all_spaces : List ℕ → Bool
all_spaces [] = true
all_spaces (c ∷ cs) = c == 0x20 && all_spaces cs

-- The text as its codes; the empty string if all columns are spaces.
unfoldable pub get_text_string : Row → List ℕ
get_text_string r =
    let codes = map (λ (c : StyledUnicodeChar). c.uchar) r.chars in
    if all_spaces codes then [] else codes

-- The pen changes first; the cell under the cursor then takes it.
unfoldable pub set_pen_styles : Styles → Row → Option Row
set_pen_styles styles r =
    let pen = set_styles styles r.curr_pen_state in
    at_cursor (set_pen_state pen) (record r { curr_pen_state = pen })
