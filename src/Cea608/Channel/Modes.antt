-- ===== src/Cea608/Channel/Modes.antt =====
-- The modes of a channel and the two screens.
use v4l2rtspserver.Base.{ℕ, ◌≡◌, refl, true, false, Option, none, some, arith, Bool-cases, inl, inr}
use v4l2rtspserver.Cea608.Screen
use v4l2rtspserver.Cea608.Screen.{CaptionScreen}
use v4l2rtspserver.Cea608.Channel.{
  Cea608Channel, Mode, roll_up, pop_on, non_displayed, select_screen, forget_roll_up, leave_roll_up,
  mode_eq, is_mode, set_mode, flip_memories, cc_eoc, output_data_update, update_output, update_cue,
  emit, OutputFilter,
}

mode_eq_self : (m : Mode) → mode_eq m m ≡ true
unfolding mode_eq
mode_eq_self roll_up = refl
mode_eq_self _ = refl

set_mode-in_mode :
    (m : Mode) (c : Cea608Channel) → is_mode m c.mode ≡ false → (set_mode m c).mode ≡ some m
unfolding set_mode select_screen leave_roll_up forget_roll_up mode_eq Screen.reset
set_mode-in_mode roll_up c h = ground arith
set_mode-in_mode _ c h = ground arith

set_mode_same : (m : Mode) (d : Cea608Channel) → is_mode m d.mode ≡ true → set_mode m d ≡ d
unfolding set_mode
set_mode_same m d h = rw h

set_mode-is_mode : (m : Mode) (c : Cea608Channel) → is_mode m (set_mode m c).mode ≡ true
set_mode-is_mode m c = elim (Bool-cases (is_mode m c.mode)) [
  | inl same ↦ rw (set_mode_same m c same) same
  | inr other ↦
      let h : (set_mode m c).mode ≡ some m = set_mode-in_mode m c other in
      rw h (unfold is_mode in mode_eq_self m)
]

-- A mode that is set twice is set once: the second call of `setMode` changes nothing.
set_mode-set_mode : (m : Mode) (c : Cea608Channel) → set_mode m (set_mode m c) ≡ set_mode m c
set_mode-set_mode m c = set_mode_same m (set_mode m c) (set_mode-is_mode m c)

-- An output changes neither the memories nor the mode.
pub record SameScreens (c d : Cea608Channel) : Type 0 where
  pub shown : d.displayed_memory ≡ c.displayed_memory
  pub hidden : d.non_displayed_memory ≡ c.non_displayed_memory
  pub target : d.write_screen ≡ c.write_screen
  pub in_mode : d.mode ≡ c.mode

update_output-SameScreens :
    (filter : Option OutputFilter) (t : ℕ) (c : Cea608Channel)
    → SameScreens c (update_output filter t c)
unfolding update_output update_cue emit
update_output-SameScreens none t c = ground arith
update_output-SameScreens (some filter) t c = ground arith

pub output_data_update-SameScreens :
    (time : Option ℕ) (c : Cea608Channel) → SameScreens c (output_data_update time c)
unfolding output_data_update
output_data_update-SameScreens none c = ground arith
output_data_update-SameScreens (some t) c = update_output-SameScreens c.output_filter t c

-- In pop-on mode `ccEOC` exchanges the displayed and the hidden screen and writes to the hidden one from
-- then on; a second one restores both screens.
pub cc_eoc_lem :
    (time time' : Option ℕ) (c : Cea608Channel)
    → c.mode ≡ some pop_on
    → ((cc_eoc time c).displayed_memory ≡ c.non_displayed_memory)
      × ((cc_eoc time c).non_displayed_memory ≡ c.displayed_memory)
      × ((cc_eoc time c).write_screen ≡ non_displayed)
      × ((cc_eoc time' (cc_eoc time c)).displayed_memory ≡ c.displayed_memory)
      × ((cc_eoc time' (cc_eoc time c)).non_displayed_memory ≡ c.non_displayed_memory)
unfolding cc_eoc flip_memories is_mode mode_eq
cc_eoc_lem time time' c h = ground (
  arith,
  output_data_update-SameScreens time (flip_memories c),
  output_data_update-SameScreens time' (flip_memories (cc_eoc time c)),
)
