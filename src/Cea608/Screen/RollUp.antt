-- ===== src/Cea608/Screen/RollUp.antt =====
-- `rollUp`: it keeps a screen valid, and what it does to the rows.
use v4l2rtspserver.Base.{
  take-length-append, drop-length-append, ℕ, suc, ◌+◌, ◌-◌, ◌≤◌, ◌<◌, ◌≡◌, refl, sym, ◌∙◌, Option,
  none, some, List, [], ◌∷◌, ◌++◌, length, get_elem?, take, drop, All, All-get_elem?, All-append,
  All-take, All-drop, length-append, length-take, length-drop, get_elem?-in_range, arith,
}
use mathlib.Core.List.{append_assoc}
use v4l2rtspserver.Cea608.Row
use v4l2rtspserver.Cea608.Row.{Row}
use v4l2rtspserver.Cea608.Row.Laws
use v4l2rtspserver.Cea608.Screen.{CaptionScreen, splice_start, splice_rows, roll_up_by, roll_up}
use v4l2rtspserver.Cea608.Screen.Laws.{IsValid, WindowFits, ScreenReturns}

splice_start-lt : (len a n : ℕ) → 1 ≤ n → n ≤ len → a < len → splice_start len (a + 1) n < len
unfolding splice_start
splice_start-lt len a n lo hi h = ground arith

spliced : ℕ → ℕ → List Row → Row → List Row
spliced i curr rows top =
    let rest = take i rows ++ drop (suc i) rows in take curr rest ++ Row.clear top ∷ drop curr rest

length-spliced :
    (i curr : ℕ) (rows : List Row) (top : Row)
    → i < length rows
    → length (spliced i curr rows top) ≡ length rows
unfolding spliced
length-spliced i curr rows top h =
    let rest = take i rows ++ drop (suc i) rows in
    omega (
      arith,
      length-append (take curr rest) (Row.clear top ∷ drop curr rest),
      length-take curr rest,
      length-drop curr rest,
      length-append (take i rows) (drop (suc i) rows),
      length-take i rows,
      length-drop (suc i) rows,
    )

All-spliced :
    (i curr : ℕ) (rows : List Row) (top : Row)
    → All Laws.IsValid rows
    → Laws.IsValid top
    → All Laws.IsValid (spliced i curr rows top)
unfolding spliced
All-spliced i curr rows top h w =
    let rest = take i rows ++ drop (suc i) rows in
    let ok : All Laws.IsValid rest =
      All-append Laws.IsValid (take i rows) (drop (suc i) rows) (All-take Laws.IsValid i rows h)
        (All-drop Laws.IsValid (suc i) rows h) in
    All-append Laws.IsValid (take curr rest) (Row.clear top ∷ drop curr rest)
      (All-take Laws.IsValid curr rest ok)
      (Laws.clear-IsValid top w, All-drop Laws.IsValid curr rest ok)

roll_up_by_total :
    (nr : Option ℕ) (s : CaptionScreen)
    → WindowFits nr
    → IsValid s
    → ScreenReturns (roll_up_by nr s)
unfolding roll_up_by splice_rows spliced
roll_up_by_total none s w v = (s, refl, v)
roll_up_by_total (some n) s w v =
    let i = splice_start (length s.rows) (s.curr_row + 1) n in
    let lt : i < length s.rows =
      splice_start-lt (length s.rows) s.curr_row n w.0 (omega (arith, v.height))
        (omega (arith, v.height, v.curr_in)) in
    let (top, e) = get_elem?-in_range s.rows i lt in
    let w' : Laws.IsValid top = All-get_elem? Laws.IsValid s.rows i v.rows_valid e in
    (
      record s { rows = spliced i s.curr_row s.rows top },
      rw e,
      record {
        rows_valid = All-spliced i s.curr_row s.rows top v.rows_valid w';
        height = length-spliced i s.curr_row s.rows top lt ∙ v.height;
        curr_in = v.curr_in;
        window = v.window;
      },
    )

-- `rollUp` never throws on a valid screen, and leaves it valid.
pub roll_up_total : (s : CaptionScreen) → IsValid s → ScreenReturns (roll_up s)
unfolding roll_up
roll_up_total s v = roll_up_by_total s.nr_roll_up_rows s v.window v

drop-suc-length-append {ℓ} :
    {A : Type ℓ} (xs ys : List A) (x : A) → drop (suc (length xs)) (xs ++ x ∷ ys) ≡ ys
drop-suc-length-append [] ys x = refl
drop-suc-length-append (y ∷ xs) ys x = drop-suc-length-append xs ys x

get_elem?-length-append {ℓ} :
    {A : Type ℓ} (xs ys : List A) (x : A) → get_elem? (xs ++ x ∷ ys) (length xs) ≡ some x
get_elem?-length-append [] ys x = refl
get_elem?-length-append (y ∷ xs) ys x = get_elem?-length-append xs ys x

-- The row behind `front` is taken out, and comes back cleared behind the first rows of the rest.
splice_rows_lem :
    (front back left right : List Row) (top : Row)
    → front ++ back ≡ left ++ right
    → splice_rows (length front) (length left) (front ++ top ∷ back)
      ≡ some (left ++ Row.clear top ∷ right)
unfolding splice_rows
splice_rows_lem front back left right top e = rw (
  get_elem?-length-append front back top,
  take-length-append front (top ∷ back),
  drop-suc-length-append front back top,
  e,
  take-length-append left right,
  drop-length-append left right,
)

-- With a window of n rows that ends at the current row and lies inside the screen, `rollUp` moves its
-- rows up by one: the top row of the window is dropped, a cleared row becomes the current one, and the
-- rows outside the window stay.
pub roll_up_window :
    (s : CaptionScreen) (n : ℕ) (above window below : List Row) (top : Row)
    → s.nr_roll_up_rows ≡ some n
    → s.rows ≡ above ++ top ∷ (window ++ below)
    → length window + 1 ≡ n
    → length above + length window ≡ s.curr_row
    → roll_up s ≡ some (record s { rows = (above ++ window) ++ Row.clear top ∷ below })
unfolding roll_up roll_up_by
roll_up_window s n above window below top nr rows size place =
    let start : splice_start (length s.rows) (s.curr_row + 1) n ≡ length above =
      unfold splice_start in ground arith in
    let curr : s.curr_row ≡ length (above ++ window) = omega (arith, length-append above window) in
    rw (nr, start, rows, curr)
      (rw (
        splice_rows_lem above (window ++ below) (above ++ window) below top
          (sym (append_assoc above window below))))

-- On 15 rows, with a window of at most 15 rows that is higher than the rows down to the current one, the
-- row at 15 + (current row + 1) - n is dropped, and a cleared row is put in front of the current one.
pub roll_up_too_high :
    (s : CaptionScreen) (n : ℕ) (above between below : List Row) (top : Row)
    → s.nr_roll_up_rows ≡ some n
    → s.rows ≡ (above ++ between) ++ top ∷ below
    → length s.rows ≡ 15
    → length above ≡ s.curr_row
    → n ≤ 15
    → s.curr_row + 1 < n
    → length above + length between ≡ 15 + (s.curr_row + 1) - n
    → roll_up s ≡ some (record s { rows = above ++ Row.clear top ∷ (between ++ below) })
unfolding roll_up roll_up_by
roll_up_too_high s n above between below top nr rows size curr small high place =
    let start : splice_start (length s.rows) (s.curr_row + 1) n ≡ length (above ++ between) =
      unfold splice_start in ground (arith, length-append above between) in
    rw (nr, start, rows, ← curr)
      (rw (
        splice_rows_lem (above ++ between) below above (between ++ below) top
          (append_assoc above between below)))
