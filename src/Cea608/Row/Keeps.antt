-- ===== src/Cea608/Row/Keeps.antt =====
-- Whenever a method of a valid row returns, the row is valid; a call that throws satisfies this.
use v4l2rtspserver.Base.{ℕ, ◌+◌, ◌≤◌, ◌≡◌, refl, Option, some, ltb, false, arith}
use native.Mathlib.Decide.{dec_lt}
use v4l2rtspserver.Base.Yields.{Yields, Returns-Yields, none-Yields}
use v4l2rtspserver.Base.Int.{ℤ}
use v4l2rtspserver.Cea608.Pen.{Styles}
use v4l2rtspserver.Cea608.Row.{
  Row, set_cursor, clamp_column, move_cursor, insert_char, set_pen_styles,
}
use v4l2rtspserver.Cea608.Row.Laws.{
  IsValid, insert_char_total, set_pen_styles_total, set_pen_styles_throws, move_cursor_total,
  move_cursor_throws,
}

abbrev pub Sound : Option Row → Type 0
Sound o = Yields IsValid o

pub insert_char-Sound : (byte : ℕ) (r : Row) → IsValid r → Sound (insert_char byte r)
insert_char-Sound byte r v =
    Returns-Yields IsValid (insert_char byte r) (insert_char_total byte r v)

pub set_pen_styles-Sound : (styles : Styles) (r : Row) → IsValid r → Sound (set_pen_styles styles r)
set_pen_styles-Sound styles r v = elim (dec_lt r.pos 100) [
  | yes h ↦ Returns-Yields IsValid _ (set_pen_styles_total styles r v h)
  | no h ↦ none-Yields IsValid _ (set_pen_styles_throws styles r v (omega (arith, v.within)))
]

clamp_column-le : (n : ℤ) → clamp_column n ≤ 100
unfolding clamp_column
clamp_column-le (ℤ.pos n) = ground arith
clamp_column-le (ℤ.negsuc n) = omega arith

pub set_cursor-IsValid : (n : ℤ) (r : Row) → IsValid r → IsValid (set_cursor n r)
unfolding set_cursor
set_cursor-IsValid n r v = record { width = v.width; within = clamp_column-le n }

near-Sound : (n : ℕ) (r : Row) → IsValid r → n ≤ 1 → Sound (move_cursor (ℤ.pos n) r)
unfolding move_cursor
near-Sound n r v h =
    let near : ltb 1 n ≡ false = ground arith in
    rw near (
      Returns-Yields IsValid (some (set_cursor (ℤ.pos (r.pos + n)) r))
        (set_cursor (ℤ.pos (r.pos + n)) r, refl, set_cursor-IsValid (ℤ.pos (r.pos + n)) r v))

pub move_cursor-Sound : (n : ℕ) (r : Row) → IsValid r → Sound (move_cursor (ℤ.pos n) r)
move_cursor-Sound n r v = elim (dec_lt 1 n) [
  | yes far ↦ elim (dec_lt (r.pos + n) 100) [
    | yes h ↦ Returns-Yields IsValid _ (move_cursor_total n r v h)
    | no h ↦ none-Yields IsValid _ (move_cursor_throws n r v far (omega arith))
  ]
  | no near ↦ near-Sound n r v (omega arith)
]
