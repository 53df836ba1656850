-- ===== src/Cea608/Screen/Pac.antt =====
-- `setPAC` and `setBkgData` keep a screen valid.
use v4l2rtspserver.Base.{
  ℕ, ◌-◌, ◌≤◌, ◌<◌, ◌∙◌, Option, none, some, >>=-eq-some, inl, inr, arith, ◌==◌, Bool-cases, not,
  ◌&&◌,
}
use v4l2rtspserver.Base.Yields.{Returns-Yields, bind-Yields}
use v4l2rtspserver.Base.Int.{ℤ}
use v4l2rtspserver.Cea608.Pen.{Styles}
use v4l2rtspserver.Cea608.Row.{Row}
use v4l2rtspserver.Cea608.Row.Laws
use v4l2rtspserver.Cea608.Row.Keeps.{Sound, set_pen_styles-Sound, set_cursor-IsValid}
use v4l2rtspserver.Cea608.Screen.{
  CaptionScreen, PacData, back_space, insert_char, set_pen, is_rolling, base_row, pac_color,
  indent_row, pac_row, pac_styles, set_pac, set_bkg_data,
}
use v4l2rtspserver.Cea608.Screen.Laws.{
  IsValid, WindowFits, ScreenSound, on_row-Sound, back_space_total, insert_char_total,
  set_pen_sound, All-clear, length-clear,
}

base_row-lt : (nr : Option ℕ) (row : ℕ) → WindowFits nr → row < 15 → base_row nr row < 15
unfolding base_row
base_row-lt none row w h = h
base_row-lt (some n) row w h = ground arith

indent_row-IsValid :
    (indent : Option ℕ) (r : Row) → Laws.IsValid r → Laws.IsValid (indent_row indent r)
unfolding indent_row
indent_row-IsValid none r v = v
indent_row-IsValid (some n) r v = set_cursor-IsValid (ℤ.pos n) r v

pac_row-Sound : (pac : PacData) (r : Row) → Laws.IsValid r → Sound (pac_row pac r)
unfolding pac_row
pac_row-Sound pac r v r' h =
    let row = indent_row pac.indent r in
    let (color, e, h₁) = >>=-eq-some (pac_color pac row) _ h in
    set_pen_styles-Sound (pac_styles pac color) row (indent_row-IsValid pac.indent r v) r' h₁

pub set_pac_sound :
    (pac : PacData) (s : CaptionScreen)
    → 1 ≤ pac.row
    → pac.row ≤ 15
    → IsValid s
    → ScreenSound (set_pac pac s)
unfolding set_pac
set_pac_sound pac s lo hi v =
    on_row-Sound (pac_row pac) _
      (elim (Bool-cases (is_rolling s.nr_roll_up_rows && not (s.curr_row == base))) [
        | inl moved ↦ rw moved (record {
          rows_valid = All-clear s.rows v.rows_valid;
          height = length-clear s.rows ∙ v.height;
          curr_in = in_range;
          window = v.window;
        })
        | inr same ↦ rw same (record {
          rows_valid = v.rows_valid;
          height = v.height;
          curr_in = in_range;
          window = v.window;
        })
      ])
      (pac_row-Sound pac)
  where
    base : ℕ
    base = base_row s.nr_roll_up_rows (pac.row - 1)

    in_range : base < 15
    in_range = base_row-lt s.nr_roll_up_rows (pac.row - 1) v.window (omega arith)

pub set_bkg_data_sound :
    (styles : Styles) (s : CaptionScreen) → IsValid s → ScreenSound (set_bkg_data styles s)
unfolding set_bkg_data
set_bkg_data_sound styles s v =
    bind-Yields IsValid IsValid (back_space s) _
      (Returns-Yields IsValid (back_space s) (back_space_total s v))
      λ s₁ v₁.
        bind-Yields IsValid IsValid (set_pen styles s₁) _ (set_pen_sound styles s₁ v₁)
          λ s₂ v₂. Returns-Yields IsValid (insert_char 0x20 s₂) (insert_char_total 0x20 s₂ v₂)
