-- ===== src/Cea608/Channel/Commands.antt =====
-- The commands of a channel on valid screens: which always return, and that all leave it valid.
use v4l2rtspserver.Base.{
  ℕ, ◌≤◌, refl, Bool, true, false, Option, none, some, List, [], ◌∷◌, ◌>>=◌, arith, Bool-cases, inl,
  inr, if◌then◌else◌,
}
use v4l2rtspserver.Base.Yields.{bind-Returns}
use v4l2rtspserver.Cea608.Pen.{Styles}
use v4l2rtspserver.Cea608.Screen
use v4l2rtspserver.Cea608.Screen.{CaptionScreen, PacData}
use v4l2rtspserver.Cea608.Screen.Laws
use v4l2rtspserver.Cea608.Screen.Pac.{set_pac_sound, set_bkg_data_sound}
use v4l2rtspserver.Cea608.Screen.RollUp.{roll_up_total}
use v4l2rtspserver.Cea608.Channel.{
  Cea608Channel, roll_up, pop_on, paint_on, text, displayed, OutputFilter, on_screen, set_pac,
  set_bkg_data, is_mode, set_mode, emit, output_data_update, insert_all, output_if_live,
  insert_chars, is_displayed, cc_rcl, cc_bs, cc_der, cc_ru, cc_fon, cc_rdc, cc_tr, cc_edm, cc_cr,
  cc_enm, flip_memories, cc_eoc, cc_to, midrow_styles, cc_midrow, split_cue, cue_split_at_time,
}
use v4l2rtspserver.Cea608.Channel.Valid.{
  IsValid, ChannelSound, ChannelReturns, on_screen_total, on_screen_sound, set_mode-IsValid,
  output_data_update-IsValid,
}

pub set_pac-Sound :
    (pac : PacData) (c : Cea608Channel)
    → 1 ≤ pac.row
    → pac.row ≤ 15
    → IsValid c
    → ChannelSound (set_pac pac c)
unfolding set_pac
set_pac-Sound pac c lo hi v =
    on_screen_sound (Screen.set_pac pac) c v (λ s. set_pac_sound pac s lo hi)

pub set_bkg_data-Sound :
    (styles : Styles) (c : Cea608Channel) → IsValid c → ChannelSound (set_bkg_data styles c)
unfolding set_bkg_data
set_bkg_data-Sound styles c v =
    on_screen_sound (Screen.set_bkg_data styles) c v (set_bkg_data_sound styles)

insert_all_total :
    (chars : List ℕ) (c : Cea608Channel) → IsValid c → ChannelReturns (insert_all chars c)
unfolding insert_all
insert_all_total [] c v = (c, refl, v)
insert_all_total (char ∷ chars) c v =
    bind-Returns IsValid IsValid (on_screen (Screen.insert_char char) c) (insert_all chars)
      (on_screen_total (Screen.insert_char char) c v (Laws.insert_char_total char))
      (insert_all_total chars)

output_if_live-IsValid :
    (time : Option ℕ) (c : Cea608Channel) → IsValid c → IsValid (output_if_live time c)
unfolding output_if_live
output_if_live-IsValid time c v = ground (arith, output_data_update-IsValid time c v)

-- Characters never make a valid channel throw, whatever the mode and however full the row, and leave it
-- valid.
pub insert_chars_total :
    (time : Option ℕ) (chars : List ℕ) (c : Cea608Channel)
    → IsValid c
    → ChannelReturns (insert_chars time chars c)
unfolding insert_chars
insert_chars_total time chars c v =
    bind-Returns IsValid IsValid (insert_all chars c) _ (insert_all_total chars c v)
      λ c' v'. (output_if_live time c', refl, output_if_live-IsValid time c' v')

-- A command on the written screen, then an output.
on_screen_output_total :
    (time : Option ℕ) (f : CaptionScreen → Option CaptionScreen) (c : Cea608Channel)
    → IsValid c
    → ((s : CaptionScreen) → Laws.IsValid s → Laws.ScreenReturns (f s))
    → ChannelReturns (on_screen f c >>= λ c'. some (output_data_update time c'))
on_screen_output_total time f c v total =
    bind-Returns IsValid IsValid (on_screen f c) _ (on_screen_total f c v total)
      λ c' v'. (output_data_update time c', refl, output_data_update-IsValid time c' v')

bs_output-IsValid :
    (time : Option ℕ) (b : Bool) (c : Cea608Channel)
    → IsValid c
    → IsValid (if b then output_data_update time c else c)
bs_output-IsValid time true c v = output_data_update-IsValid time c v
bs_output-IsValid time false c v = v

pub cc_bs_total : (time : Option ℕ) (c : Cea608Channel) → IsValid c → ChannelReturns (cc_bs time c)
unfolding cc_bs
cc_bs_total time c v = elim (Bool-cases (is_mode text c.mode)) [
  | inl off ↦ (c, rw off, v)
  | inr on ↦ rw on (
      bind-Returns IsValid IsValid (on_screen Screen.back_space c) _
        (on_screen_total Screen.back_space c v Laws.back_space_total)
        λ c' v'. (_, refl, bs_output-IsValid time (is_displayed c'.write_screen) c' v'))
]

pub cc_der_total :
    (time : Option ℕ) (c : Cea608Channel) → IsValid c → ChannelReturns (cc_der time c)
unfolding cc_der
cc_der_total time c v =
    on_screen_output_total time Screen.clear_to_end_of_row c v Laws.clear_to_end_of_row_total

-- A carriage return never makes a valid channel throw, and leaves it valid.
pub cc_cr_total : (time : Option ℕ) (c : Cea608Channel) → IsValid c → ChannelReturns (cc_cr time c)
unfolding cc_cr
cc_cr_total time c v = on_screen_output_total time Screen.roll_up c v roll_up_total

pub cc_ru_total :
    (n : ℕ) (c : Cea608Channel) → 1 ≤ n → n ≤ 15 → IsValid c → ChannelReturns (cc_ru n c)
unfolding cc_ru
cc_ru_total n c lo hi v =
    on_screen_total _ (set_mode roll_up (record c { write_screen = displayed }))
      (set_mode-IsValid roll_up (record c { write_screen = displayed })
        (record { shown = v.shown; hidden = v.hidden; last = v.last }))
      λ s w. (Screen.set_roll_up_rows n s, refl, Laws.set_roll_up_rows-IsValid n s lo hi w)

pub cc_fon-Sound : (c : Cea608Channel) → IsValid c → ChannelSound (cc_fon c)
unfolding cc_fon
cc_fon-Sound c v = on_screen_sound _ c v (Laws.set_pen_sound _)

pub cc_midrow-Sound : (b : ℕ) (c : Cea608Channel) → IsValid c → ChannelSound (cc_midrow b c)
unfolding cc_midrow
cc_midrow-Sound b c v = on_screen_sound _ c v (Laws.set_pen_sound (midrow_styles b))

pub cc_to-Sound : (n : ℕ) (c : Cea608Channel) → IsValid c → ChannelSound (cc_to n c)
unfolding cc_to
cc_to-Sound n c v = on_screen_sound _ c v (Laws.move_cursor_sound n)

pub cc_rcl-IsValid : (c : Cea608Channel) → IsValid c → IsValid (cc_rcl c)
unfolding cc_rcl
cc_rcl-IsValid c v = set_mode-IsValid pop_on c v

pub cc_rdc-IsValid : (c : Cea608Channel) → IsValid c → IsValid (cc_rdc c)
unfolding cc_rdc
cc_rdc-IsValid c v = set_mode-IsValid paint_on c v

pub cc_tr-IsValid : (c : Cea608Channel) → IsValid c → IsValid (cc_tr c)
unfolding cc_tr
cc_tr-IsValid c v = set_mode-IsValid text c v

pub cc_edm-IsValid : (time : Option ℕ) (c : Cea608Channel) → IsValid c → IsValid (cc_edm time c)
unfolding cc_edm
cc_edm-IsValid time c v = output_data_update-IsValid time _ (record {
  shown = Laws.reset-IsValid c.displayed_memory v.shown;
  hidden = v.hidden;
  last = v.last;
})

pub cc_enm-IsValid : (c : Cea608Channel) → IsValid c → IsValid (cc_enm c)
unfolding cc_enm
cc_enm-IsValid c v = record {
  shown = v.shown;
  hidden = Laws.reset-IsValid c.non_displayed_memory v.hidden;
  last = v.last;
}

flip_memories-IsValid : (c : Cea608Channel) → IsValid c → IsValid (flip_memories c)
unfolding flip_memories
flip_memories-IsValid c v = ground arith

pub cc_eoc-IsValid : (time : Option ℕ) (c : Cea608Channel) → IsValid c → IsValid (cc_eoc time c)
unfolding cc_eoc
cc_eoc-IsValid time c v =
    output_data_update-IsValid time (flip_memories c) (flip_memories-IsValid c v)

split_cue-IsValid :
    (filter : Option OutputFilter) (t : ℕ) (c : Cea608Channel)
    → IsValid c
    → IsValid (split_cue filter t c)
unfolding split_cue emit
split_cue-IsValid none t c v = v
split_cue-IsValid (some filter) t c v = ground arith

pub cue_split_at_time-IsValid :
    (t : ℕ) (c : Cea608Channel) → IsValid c → IsValid (cue_split_at_time t c)
unfolding cue_split_at_time
cue_split_at_time-IsValid t c v = split_cue-IsValid c.output_filter t c v
