-- ===== src/Cea608/Channel/Throws.antt =====
-- When a change of pen or a tab makes a channel throw: the cursor may stand past the last column, where
-- there is no cell.
use v4l2rtspserver.Base.{
  ℕ, ◌+◌, ◌≤◌, ◌<◌, ◌≡◌, Option, none, some, set, get_elem?, ◌⊎◌, inl, inr, arith, All-get_elem?,
}
use native.Mathlib.Decide.{dec_lt}
use v4l2rtspserver.Base.Int.{ℤ}
use v4l2rtspserver.Cea608.Row
use v4l2rtspserver.Cea608.Row.{Row}
use v4l2rtspserver.Cea608.Row.Laws
use v4l2rtspserver.Cea608.Screen
use v4l2rtspserver.Cea608.Screen.{CaptionScreen}
use v4l2rtspserver.Cea608.Screen.Laws as ScreenLaws
use v4l2rtspserver.Cea608.Channel.{
  Cea608Channel, Memory, displayed, non_displayed, write_memory, on_screen, cc_midrow, cc_to,
  midrow_styles,
}
use v4l2rtspserver.Cea608.Channel.Valid.{IsValid}

-- The screen and the row that commands write to.
abbrev pub memory : Memory → Cea608Channel → CaptionScreen
memory displayed c = c.displayed_memory
memory non_displayed c = c.non_displayed_memory

abbrev pub written_row : Cea608Channel → Option Row
written_row c = get_elem? (memory c.write_screen c).rows (memory c.write_screen c).curr_row

abbrev Result : Option Cea608Channel → Type 0
Result o = (c : Cea608Channel) × (o ≡ some c)

write_memory-none :
    (m : Memory) (f : CaptionScreen → Option CaptionScreen) (c : Cea608Channel)
    → f (memory m c) ≡ none
    → write_memory m f c ≡ none
unfolding write_memory
write_memory-none displayed f c h = rw h
write_memory-none non_displayed f c h = rw h

write_memory-some :
    (m : Memory) (f : CaptionScreen → Option CaptionScreen) (c : Cea608Channel) (s : CaptionScreen)
    → f (memory m c) ≡ some s
    → Result (write_memory m f c)
unfolding write_memory
write_memory-some displayed f c s h = (record c { displayed_memory = s }, rw h)
write_memory-some non_displayed f c s h = (record c { non_displayed_memory = s }, rw h)

-- A method of the current row of the written screen throws, or returns, as it does on that row.
on_row-none :
    (f : Row → Option Row) (c : Cea608Channel) (r : Row)
    → written_row c ≡ some r
    → f r ≡ none
    → on_screen (Screen.on_row f) c ≡ none
unfolding on_screen Screen.on_row
on_row-none f c r e h = write_memory-none c.write_screen _ c (rw (e, h))

on_row-some :
    (f : Row → Option Row) (c : Cea608Channel) (r r' : Row)
    → written_row c ≡ some r
    → f r ≡ some r'
    → Result (on_screen (Screen.on_row f) c)
unfolding on_screen Screen.on_row
on_row-some f c r r' e h =
    let s = memory c.write_screen c in
    write_memory-some c.write_screen _ c (record s { rows = set s.rows s.curr_row r' }) (rw (e, h))

memory-IsValid : (m : Memory) (c : Cea608Channel) → IsValid c → ScreenLaws.IsValid (memory m c)
memory-IsValid displayed c v = v.shown
memory-IsValid non_displayed c v = v.hidden

row-IsValid : (c : Cea608Channel) (r : Row) → IsValid c → written_row c ≡ some r → Laws.IsValid r
row-IsValid c r v e =
    All-get_elem? Laws.IsValid (memory c.write_screen c).rows (memory c.write_screen c).curr_row
      (memory-IsValid c.write_screen c v).rows_valid e

-- On a valid channel a mid-row code throws if the cursor of the written row stands past the last
-- column, and returns if it stands on a column; there is no third case.
pub cc_midrow_throws :
    (b : ℕ) (c : Cea608Channel) (r : Row)
    → IsValid c
    → written_row c ≡ some r
    → ((r.pos ≡ 100) × (cc_midrow b c ≡ none))
      ⊎ ((r.pos < 100) × ((c' : Cea608Channel) × (cc_midrow b c ≡ some c')))
unfolding cc_midrow Screen.set_pen
cc_midrow_throws b c r v e =
    let w = row-IsValid c r v e in
    elim (dec_lt r.pos 100) [
      | yes h ↦
          let (r', k, w') = Laws.set_pen_styles_total (midrow_styles b) r w h in
          inr (h, on_row-some (Row.set_pen_styles (midrow_styles b)) c r r' e k)
      | no h ↦
          let full : r.pos ≡ 100 = omega (arith, w.within) in
          inl (full, on_row-none _ c r e (Laws.set_pen_styles_throws (midrow_styles b) r w full))
    ]

-- On a valid channel a tab of two or more columns throws if it would reach past the last column, and
-- returns otherwise.
pub cc_to_throws :
    (n : ℕ) (c : Cea608Channel) (r : Row)
    → IsValid c
    → 1 < n
    → written_row c ≡ some r
    → ((100 ≤ r.pos + n) × (cc_to n c ≡ none))
      ⊎ ((r.pos + n < 100) × ((c' : Cea608Channel) × (cc_to n c ≡ some c')))
unfolding cc_to Screen.move_cursor
cc_to_throws n c r v far e =
    let w = row-IsValid c r v e in
    elim (dec_lt (r.pos + n) 100) [
      | yes h ↦
          let (r', k, w') = Laws.move_cursor_total n r w h in
          inr (h, on_row-some (Row.move_cursor (ℤ.pos n)) c r r' e k)
      | no h ↦
          let over : 100 ≤ r.pos + n = omega arith in
          inl (over, on_row-none _ c r e (Laws.move_cursor_throws n r w far over))
    ]
