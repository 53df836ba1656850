-- ===== src/Cea608/Channel/Cues.antt =====
-- The cues that a channel outputs.
use v4l2rtspserver.Base.{
  ℕ, ◌≡◌, refl, ap, sym, ◌∙◌, true, false, not, ◌&&◌, Option, none, some, List, [], ◌∷◌, length,
  arith,
}
use mathlib.Core.Bool.{decide_iff}
use v4l2rtspserver.Cea608.Pen.{
  Color, Color-discrete, color_eq, bool_eq, PenState, pen_equals, StyledUnicodeChar, char_equals,
}
use v4l2rtspserver.Cea608.Row
use v4l2rtspserver.Cea608.Row.{Row, chars_equal}
use v4l2rtspserver.Cea608.Screen
use v4l2rtspserver.Cea608.Screen.{CaptionScreen, rows_equal, copy_rows}
use v4l2rtspserver.Cea608.Channel.{
  Cea608Channel, OutputFilter, emit, is_none, update_cue, update_output, output_data_update,
}
use v4l2rtspserver.Cea608.Channel.Valid.{IsValid}

color_eq_refl : (a : Color) → color_eq a a ≡ true
unfolding color_eq
color_eq_refl a = (decide_iff (Color-discrete a a)).1 refl

pen_equals_refl : (p : PenState) → pen_equals p p ≡ true
unfolding pen_equals bool_eq
pen_equals_refl p = ground (arith, color_eq_refl p.foreground, color_eq_refl p.background)

char_equals_refl : (c : StyledUnicodeChar) → char_equals c c ≡ true
unfolding char_equals
char_equals_refl c = ground (arith, pen_equals_refl c.pen_state)

chars_equal_refl : (cs : List StyledUnicodeChar) → chars_equal cs cs ≡ true
unfolding chars_equal
chars_equal_refl [] = refl
chars_equal_refl (c ∷ cs) = rw (char_equals_refl c, chars_equal_refl cs)

rows_equal-copy_rows :
    (ls ds : List Row) → length ls ≡ length ds → rows_equal ds (copy_rows ls ds) ≡ true
unfolding rows_equal copy_rows Row.equals Row.copy
rows_equal-copy_rows ls [] h = refl
rows_equal-copy_rows [] (d ∷ ds) h = absurd (omega arith)
rows_equal-copy_rows (l ∷ ls) (d ∷ ds) h =
    rw (chars_equal_refl d.chars, rows_equal-copy_rows ls ds (omega arith))

copy_rows-copy_rows : (ls ds : List Row) → copy_rows (copy_rows ls ds) ds ≡ copy_rows ls ds
unfolding copy_rows Row.copy
copy_rows-copy_rows [] ds = refl
copy_rows-copy_rows (l ∷ ls) [] = refl
copy_rows-copy_rows (l ∷ ls) (d ∷ ds) =
    ap (λ (t : List Row). record l { chars = d.chars } ∷ t) (copy_rows-copy_rows ls ds)

-- The screen that was last output shows what the displayed one shows, and a cue is open unless that is
-- empty.
record IsShown (c : Cea608Channel) : Type 0 where
  same : Screen.equals c.displayed_memory c.last_output_screen ≡ true
  copied : Screen.copy c.last_output_screen c.displayed_memory ≡ c.last_output_screen
  open_cue : (is_none c.cue_start_time && not (Screen.is_empty c.displayed_memory)) ≡ false

equals-copy :
    (l d : CaptionScreen) → length l.rows ≡ length d.rows → Screen.equals d (Screen.copy l d) ≡ true
unfolding Screen.equals Screen.copy
equals-copy l d h = rows_equal-copy_rows l.rows d.rows h

copy-copy : (l d : CaptionScreen) → Screen.copy (Screen.copy l d) d ≡ Screen.copy l d
unfolding Screen.copy
copy-copy l d =
    ap (λ (rows : List Row). record l { rows = rows }) (copy_rows-copy_rows l.rows d.rows)

update_output-IsShown :
    (filter : OutputFilter) (t : ℕ) (c : Cea608Channel)
    → IsValid c
    → IsShown (update_output (some filter) t c)
unfolding update_output update_cue emit is_none
update_output-IsShown filter t c v = ground (
  arith,
  equals-copy c.last_output_screen c.displayed_memory,
  copy-copy c.last_output_screen c.displayed_memory,
  v.shown.height,
  v.last.height,
)

shown_again :
    (filter : OutputFilter) (t : ℕ) (c : Cea608Channel)
    → filter.has_update_data ≡ false
    → IsShown c
    → update_output (some filter) t c ≡ c
unfolding update_output update_cue emit
shown_again filter t c h s = rw (h, s.open_cue, s.same, s.copied)

output_filter-update :
    (filter : Option OutputFilter) (t : ℕ) (c : Cea608Channel)
    → (update_output filter t c).output_filter ≡ c.output_filter
unfolding update_output update_cue emit
output_filter-update none t c = refl
output_filter-update (some filter) t c = ground arith

with_filter :
    (t : ℕ) (filter : OutputFilter) (c : Cea608Channel)
    → c.output_filter ≡ some filter
    → output_data_update (some t) c ≡ update_output (some filter) t c
unfolding output_data_update
with_filter t filter c f = ap (λ (o : Option OutputFilter). update_output o t c) f

-- On a valid channel whose output filter has no `updateData`, a second output at any time changes
-- nothing, so that it records no cue a second time.
pub output_data_update_again :
    (t t' : ℕ) (filter : OutputFilter) (c : Cea608Channel)
    → IsValid c
    → c.output_filter ≡ some filter
    → filter.has_update_data ≡ false
    → output_data_update (some t') (output_data_update (some t) c) ≡ output_data_update (some t) c
output_data_update_again t t' filter c v f h =
    let u = update_output (some filter) t c in
    ap (output_data_update (some t')) (with_filter t filter c f)
    ∙ with_filter t' filter u (output_filter-update (some filter) t c ∙ f)
    ∙ shown_again filter t' u h (update_output-IsShown filter t c v)
    ∙ sym (with_filter t filter c f)
