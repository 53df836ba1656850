-- ===== src/Cea608/Row/Laws.antt =====
-- What the methods of a row do on a row of 100 cells, and when they throw.
use v4l2rtspserver.Base.{
  ℕ, zero, suc, ◌+◌, ◌-◌, ◌≤◌, ◌<◌, ◌≡◌, refl, ap, ◌∙◌, Option, none, some, List, [], ◌∷◌, length,
  set, get_elem?, arith, length-set, get_elem?-in_range, get_elem?-out_of_range, length-replicate,
  replicate, leb, ltb, Bool-cases, inl, inr, true, false,
}
use native.Mathlib.Decide.{dec_lt}
use v4l2rtspserver.Base.Yields.{Returns}
use v4l2rtspserver.Base.Int.{ℤ, sub_ℕ}
use v4l2rtspserver.Cea608.Charset.{get_char_for_byte}
use v4l2rtspserver.Cea608.Pen.{
  PenState, Styles, StyledUnicodeChar, blank, set_char, set_pen_state, set_styles,
}
use v4l2rtspserver.Cea608.Row.{
  Row, new_row, set_cursor, clamp_column, update_cell, style_range, move_cursor, at_cursor,
  back_space, put_char, insert_char, reset_from, clear_from_pos, clear, clear_to_end_of_row,
  set_pen_styles, copy,
}

-- 100 cells, and the cursor on one of them or just past the last.
pub record IsValid (r : Row) : Type 0 where
  pub width : length r.chars ≡ 100
  pub within : r.pos ≤ 100

-- The call returns, and what it returns is valid.
abbrev pub RowReturns : Option Row → Type 0
RowReturns o = Returns IsValid o

pub new_row-IsValid : IsValid new_row
new_row-IsValid = record { width = length-replicate 100 blank; within = omega arith }

pub update_cell-some :
    (f : StyledUnicodeChar → StyledUnicodeChar) (i : ℕ) (chars : List StyledUnicodeChar)
    → i < length chars
    → (c : StyledUnicodeChar) × (get_elem? chars i ≡ some c)
      × (update_cell f i chars ≡ some (set chars i (f c)))
unfolding update_cell
update_cell-some f i chars h = let (c, e) = get_elem?-in_range chars i h in (c, e, rw e)

pub update_cell-none :
    (f : StyledUnicodeChar → StyledUnicodeChar) (i : ℕ) (chars : List StyledUnicodeChar)
    → length chars ≤ i
    → update_cell f i chars ≡ none
unfolding update_cell
update_cell-none f i chars h = rw (get_elem?-out_of_range chars i h)

pub style_range_total :
    (n i : ℕ) (pen : PenState) (chars : List StyledUnicodeChar)
    → i + n ≤ length chars
    → (cs : List StyledUnicodeChar) × (style_range n i pen chars ≡ some cs)
      × (length cs ≡ length chars)
unfolding style_range
style_range_total zero i pen chars h = (chars, refl, refl)
style_range_total (suc n) i pen chars h =
    let (c, e, u) = update_cell-some (set_pen_state pen) i chars (omega arith) in
    let l : length (set chars i (set_pen_state pen c)) ≡ length chars = length-set chars i _ in
    let (cs, e', l') =
      style_range_total n (i + 1) pen (set chars i (set_pen_state pen c)) (omega arith) in
    (cs, rw u e', l' ∙ l)

pub style_range_throws :
    (n i : ℕ) (pen : PenState) (chars : List StyledUnicodeChar)
    → 0 < n
    → length chars < i + n
    → style_range n i pen chars ≡ none
unfolding style_range
style_range_throws zero i pen chars k h = absurd (omega arith)
style_range_throws (suc n) i pen chars k h = elim (dec_lt i (length chars)) [
  | yes lt ↦
      let (c, e, u) = update_cell-some (set_pen_state pen) i chars lt in
      rw u (
        style_range_throws n (i + 1) pen (set chars i (set_pen_state pen c))
          (omega (arith, length-set chars i (set_pen_state pen c)))
          (omega (arith, length-set chars i (set_pen_state pen c))))
  | no ge ↦ rw (update_cell-none (set_pen_state pen) i chars (omega arith))
]

pub at_cursor_total :
    (f : StyledUnicodeChar → StyledUnicodeChar) (r : Row)
    → IsValid r
    → r.pos < 100
    → (c : StyledUnicodeChar) × (get_elem? r.chars r.pos ≡ some c)
      × (at_cursor f r ≡ some (record r { chars = set r.chars r.pos (f c) }))
      × IsValid (record r { chars = set r.chars r.pos (f c) })
unfolding at_cursor
at_cursor_total f r v h =
    let (c, e, u) = update_cell-some f r.pos r.chars (omega arith) in
    (c, e, rw u, record { width = length-set r.chars r.pos (f c) ∙ v.width; within = v.within })

-- Under a cursor past the last column there is no cell.
pub at_cursor_throws :
    (f : StyledUnicodeChar → StyledUnicodeChar) (r : Row)
    → IsValid r
    → r.pos ≡ 100
    → at_cursor f r ≡ none
unfolding at_cursor
at_cursor_throws f r v h = rw (update_cell-none f r.pos r.chars (omega arith))

-- A row with the cell at `i` written by the row's pen, and the cursor at `pos`.
abbrev pub written : Row → ℕ → ℕ → ℕ → Row
written r i uchar pos = record r {
  chars = set r.chars i (record { uchar = uchar; pen_state = r.curr_pen_state });
  pos = pos;
}

pub written-IsValid :
    (r : Row) (i uchar pos : ℕ) → IsValid r → pos ≤ 100 → IsValid (written r i uchar pos)
written-IsValid r i uchar pos v h = record { width = length-set r.chars i _ ∙ v.width; within = h }

set_cursor_within : (n : ℕ) (r : Row) → n ≤ 100 → set_cursor (ℤ.pos n) r ≡ record r { pos = n }
unfolding set_cursor clamp_column
set_cursor_within n r h = ground arith

set_cursor_left :
    (r : Row) → r.pos ≤ 100 → set_cursor (sub_ℕ r.pos 1) r ≡ record r { pos = r.pos - 1 }
unfolding set_cursor clamp_column
set_cursor_left r h = ground arith

-- `backSpace` steps left, not beyond the first column, and writes a space there.
pub back_space_lem :
    (r : Row) → IsValid r → back_space r ≡ some (written r (r.pos - 1) 0x20 (r.pos - 1))
back_space_lem r v =
    let left : Row = record r { pos = r.pos - 1 } in
    let (c, e, done, ok) =
      at_cursor_total (set_char 0x20 r.curr_pen_state) left
        (record { width = v.width; within = omega arith }) (omega arith) in
    unfold back_space move_cursor in rw (set_cursor_left r v.within) (unfold set_char in done)

-- A character goes to the cell under the cursor, and the cursor moves on.
pub put_char_lem :
    (byte : ℕ) (r : Row)
    → IsValid r
    → r.pos < 100
    → put_char byte r ≡ some (written r r.pos (get_char_for_byte byte) (r.pos + 1))
put_char_lem byte r v h =
    let (c, e, done, ok) =
      at_cursor_total (set_char (get_char_for_byte byte) r.curr_pen_state) r v h in
    let moved : Row = record r {
      chars =
          set r.chars r.pos
            (record { uchar = get_char_for_byte byte; pen_state = r.curr_pen_state });
    } in
    let fits : leb 100 r.pos ≡ false = ground arith in
    unfold put_char move_cursor set_char in
    rw (fits, done) (ap some (set_cursor_within (r.pos + 1) moved (omega arith)))

-- Past the last column nothing is written.
pub put_char_full : (byte : ℕ) (r : Row) → r.pos ≡ 100 → put_char byte r ≡ some r
unfolding put_char
put_char_full byte r h = rw h

pub back_space_total : (r : Row) → IsValid r → RowReturns (back_space r)
back_space_total r v = (
  written r (r.pos - 1) 0x20 (r.pos - 1),
  back_space_lem r v,
  written-IsValid r (r.pos - 1) 0x20 (r.pos - 1) v (omega (arith, v.within)),
)

put_char_total : (byte : ℕ) (r : Row) → IsValid r → RowReturns (put_char byte r)
put_char_total byte r v = elim (dec_lt r.pos 100) [
  | yes h ↦ (
    written r r.pos (get_char_for_byte byte) (r.pos + 1),
    put_char_lem byte r v h,
    written-IsValid r r.pos (get_char_for_byte byte) (r.pos + 1) v (omega arith),
  )
  | no h ↦ (r, put_char_full byte r (omega (arith, v.within)), v)
]

-- `insertChar` never throws on a valid row, and leaves it valid.
pub insert_char_total : (byte : ℕ) (r : Row) → IsValid r → RowReturns (insert_char byte r)
unfolding insert_char
insert_char_total byte r v = elim (Bool-cases (leb 0x90 byte)) [
  | inl extended ↦
      let (r₁, e, v₁) = back_space_total r v in
      let (r₂, e₂, v₂) = put_char_total byte r₁ v₁ in (r₂, rw (extended, e) e₂, v₂)
  | inr standard ↦ let (r₂, e₂, v₂) = put_char_total byte r v in (r₂, rw standard e₂, v₂)
]

-- Below 0x90 it writes at the cursor, and past the last column nothing.
pub insert_char_standard :
    (byte : ℕ) (r : Row)
    → IsValid r
    → byte < 0x90
    → r.pos < 100
    → insert_char byte r ≡ some (written r r.pos (get_char_for_byte byte) (r.pos + 1))
unfolding insert_char
insert_char_standard byte r v hb h =
    let standard : leb 0x90 byte ≡ false = ground arith in rw standard (put_char_lem byte r v h)

pub set_pen_styles_total :
    (styles : Styles) (r : Row) → IsValid r → r.pos < 100 → RowReturns (set_pen_styles styles r)
unfolding set_pen_styles
set_pen_styles_total styles r v h =
    let pen = set_styles styles r.curr_pen_state in
    let (c, e, done, ok) =
      at_cursor_total (set_pen_state pen) (record r { curr_pen_state = pen })
        (record { width = v.width; within = v.within }) h in
    (_, done, ok)

-- A change of pen under a cursor past the last column throws.
pub set_pen_styles_throws :
    (styles : Styles) (r : Row) → IsValid r → r.pos ≡ 100 → set_pen_styles styles r ≡ none
unfolding set_pen_styles
set_pen_styles_throws styles r v h =
    at_cursor_throws _ (record r { curr_pen_state = set_styles styles r.curr_pen_state })
      (record { width = v.width; within = v.within }) h

-- A tab of more than one column styles the cells that it passes, so these must exist.
pub move_cursor_total :
    (n : ℕ) (r : Row) → IsValid r → r.pos + n < 100 → RowReturns (move_cursor (ℤ.pos n) r)
unfolding move_cursor
move_cursor_total n r v h = elim (Bool-cases (ltb 1 n)) [
  | inl far ↦
      let (cs, e, l) =
        style_range_total n (r.pos + 1) r.curr_pen_state r.chars (omega (arith, v.width)) in
      (
        record r { chars = cs; pos = r.pos + n },
        rw (far, e)
            (ap some (set_cursor_within (r.pos + n) (record r { chars = cs }) (omega arith))),
        record { width = l ∙ v.width; within = omega arith },
      )
  | inr near ↦ (
    record r { pos = r.pos + n },
    rw near (ap some (set_cursor_within (r.pos + n) r (omega arith))),
    record { width = v.width; within = omega arith },
  )
]

pub move_cursor_throws :
    (n : ℕ) (r : Row) → IsValid r → 1 < n → 100 ≤ r.pos + n → move_cursor (ℤ.pos n) r ≡ none
unfolding move_cursor
move_cursor_throws n r v far h =
    let t : ltb 1 n ≡ true = ground arith in
    rw (
      t,
      style_range_throws n (r.pos + 1) r.curr_pen_state r.chars (omega arith)
          (omega (arith, v.width)),
    )

length-reset_from :
    (start : ℕ) (cs : List StyledUnicodeChar) → length (reset_from start cs) ≡ length cs
unfolding reset_from
length-reset_from start [] = refl
length-reset_from zero (c ∷ cs) = ap suc (length-reset_from zero cs)
length-reset_from (suc start) (c ∷ cs) = ap suc (length-reset_from start cs)

pub clear_to_end_of_row-IsValid : (r : Row) → IsValid r → IsValid (clear_to_end_of_row r)
unfolding clear_to_end_of_row clear_from_pos
clear_to_end_of_row-IsValid r v = record {
  width = length-reset_from r.pos r.chars ∙ v.width;
  within = v.within;
}

pub clear-IsValid : (r : Row) → IsValid r → IsValid (clear r)
unfolding clear clear_from_pos
clear-IsValid r v = record { width = length-reset_from 0 r.chars ∙ v.width; within = omega arith }

pub copy-IsValid : (r other : Row) → IsValid r → IsValid other → IsValid (copy r other)
unfolding copy
copy-IsValid r other v w = record { width = w.width; within = v.within }

reset_from_zero : (cs : List StyledUnicodeChar) → reset_from 0 cs ≡ replicate (length cs) blank
unfolding reset_from
reset_from_zero [] = refl
reset_from_zero (c ∷ cs) = ap (λ (t : List StyledUnicodeChar). blank ∷ t) (reset_from_zero cs)

-- `clear` turns any valid row into a new row, its pen and cursor included.
clear-new_row : (r : Row) → IsValid r → clear r ≡ new_row
unfolding clear clear_from_pos
clear-new_row r v =
    ap (λ (cs : List StyledUnicodeChar). record new_row { chars = cs })
      (reset_from_zero r.chars ∙ ap (λ (n : ℕ). replicate n blank) v.width)
