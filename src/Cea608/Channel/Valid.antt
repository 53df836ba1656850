-- ===== src/Cea608/Channel/Valid.antt =====
-- Every command keeps the three screens of a channel valid, and most never throw.
use v4l2rtspserver.Base.{ℕ, Bool, true, false, Option, none, some, arith, Bool-cases, inl, inr}
use v4l2rtspserver.Base.Yields.{Yields, Returns, some-Yields, bind-Yields}
use v4l2rtspserver.Cea608.Screen.{CaptionScreen}
use v4l2rtspserver.Cea608.Screen.Laws
use v4l2rtspserver.Cea608.Channel.{
  Cea608Channel, Mode, roll_up, pop_on, Memory, displayed, non_displayed, CueEvent, OutputFilter,
  new_channel, reset, write_memory, on_screen, select_screen, forget_roll_up, leave_roll_up,
  is_mode, set_mode, emit, update_cue, update_output, output_data_update,
}

pub record IsValid (c : Cea608Channel) : Type 0 where
  pub shown : Laws.IsValid c.displayed_memory
  pub hidden : Laws.IsValid c.non_displayed_memory
  pub last : Laws.IsValid c.last_output_screen

abbrev pub ChannelSound : Option Cea608Channel → Type 0
ChannelSound o = Yields IsValid o

abbrev pub ChannelReturns : Option Cea608Channel → Type 0
ChannelReturns o = Returns IsValid o

pub new_channel-IsValid : (filter : Option OutputFilter) → IsValid (new_channel filter)
new_channel-IsValid filter = record {
  shown = Laws.new_screen-IsValid;
  hidden = Laws.new_screen-IsValid;
  last = Laws.new_screen-IsValid;
}

pub reset-IsValid : (c : Cea608Channel) → IsValid c → IsValid (reset c)
unfolding reset
reset-IsValid c v = record {
  shown = Laws.reset-IsValid c.displayed_memory v.shown;
  hidden = Laws.reset-IsValid c.non_displayed_memory v.hidden;
  last = Laws.reset-IsValid c.last_output_screen v.last;
}

write_memory_total :
    (m : Memory) (f : CaptionScreen → Option CaptionScreen) (c : Cea608Channel)
    → IsValid c
    → ((s : CaptionScreen) → Laws.IsValid s → Laws.ScreenReturns (f s))
    → ChannelReturns (write_memory m f c)
unfolding write_memory
write_memory_total displayed f c v total =
    let (s, e, w) = total c.displayed_memory v.shown in
    (
      record c { displayed_memory = s },
      rw e,
      record { shown = w; hidden = v.hidden; last = v.last },
    )
write_memory_total non_displayed f c v total =
    let (s, e, w) = total c.non_displayed_memory v.hidden in
    (
      record c { non_displayed_memory = s },
      rw e,
      record { shown = v.shown; hidden = w; last = v.last },
    )

write_memory_sound :
    (m : Memory) (f : CaptionScreen → Option CaptionScreen) (c : Cea608Channel)
    → IsValid c
    → ((s : CaptionScreen) → Laws.IsValid s → Laws.ScreenSound (f s))
    → ChannelSound (write_memory m f c)
unfolding write_memory
write_memory_sound displayed f c v sound =
    bind-Yields Laws.IsValid IsValid (f c.displayed_memory) _ (sound c.displayed_memory v.shown)
      λ s w. some-Yields IsValid _ (record { shown = w; hidden = v.hidden; last = v.last })
write_memory_sound non_displayed f c v sound =
    bind-Yields Laws.IsValid IsValid (f c.non_displayed_memory) _
      (sound c.non_displayed_memory v.hidden)
      λ s w. some-Yields IsValid _ (record { shown = v.shown; hidden = w; last = v.last })

pub on_screen_total :
    (f : CaptionScreen → Option CaptionScreen) (c : Cea608Channel)
    → IsValid c
    → ((s : CaptionScreen) → Laws.IsValid s → Laws.ScreenReturns (f s))
    → ChannelReturns (on_screen f c)
unfolding on_screen
on_screen_total f c v total = write_memory_total c.write_screen f c v total

pub on_screen_sound :
    (f : CaptionScreen → Option CaptionScreen) (c : Cea608Channel)
    → IsValid c
    → ((s : CaptionScreen) → Laws.IsValid s → Laws.ScreenSound (f s))
    → ChannelSound (on_screen f c)
unfolding on_screen
on_screen_sound f c v sound = write_memory_sound c.write_screen f c v sound

select_screen-IsValid : (m : Mode) (c : Cea608Channel) → IsValid c → IsValid (select_screen m c)
unfolding select_screen
select_screen-IsValid pop_on c v = record { shown = v.shown; hidden = v.hidden; last = v.last }
select_screen-IsValid _ c v = record {
  shown = Laws.reset-IsValid c.displayed_memory v.shown;
  hidden = v.hidden;
  last = v.last;
}

forget_roll_up-IsValid : (s : CaptionScreen) → Laws.IsValid s → Laws.IsValid (forget_roll_up s)
unfolding forget_roll_up
forget_roll_up-IsValid s v = record {
  rows_valid = v.rows_valid;
  height = v.height;
  curr_in = v.curr_in;
  window = tt;
}

leave_roll_up-IsValid : (m : Mode) (c : Cea608Channel) → IsValid c → IsValid (leave_roll_up m c)
unfolding leave_roll_up
leave_roll_up-IsValid roll_up c v = v
leave_roll_up-IsValid _ c v = record {
  shown = forget_roll_up-IsValid c.displayed_memory v.shown;
  hidden = forget_roll_up-IsValid c.non_displayed_memory v.hidden;
  last = v.last;
}

pub set_mode-IsValid : (m : Mode) (c : Cea608Channel) → IsValid c → IsValid (set_mode m c)
unfolding set_mode
set_mode-IsValid m c v = elim (Bool-cases (is_mode m c.mode)) [
  | inl same ↦ rw same v
  | inr other ↦ rw other (
      leave_roll_up-IsValid m (select_screen m (record c { mode = some m })) (
        select_screen-IsValid m (record c { mode = some m })
          (record { shown = v.shown; hidden = v.hidden; last = v.last })))
]

emit-IsValid : (b : Bool) (e : CueEvent) (c : Cea608Channel) → IsValid c → IsValid (emit b e c)
unfolding emit
emit-IsValid true e c v = record { shown = v.shown; hidden = v.hidden; last = v.last }
emit-IsValid false e c v = v

update_cue-IsValid :
    (filter : OutputFilter) (t : ℕ) (c : Cea608Channel)
    → IsValid c
    → IsValid (update_cue filter t c)
unfolding update_cue emit
update_cue-IsValid filter t c v = ground arith

update_output-IsValid :
    (filter : Option OutputFilter) (t : ℕ) (c : Cea608Channel)
    → IsValid c
    → IsValid (update_output filter t c)
unfolding update_output
update_output-IsValid none t c v = v
update_output-IsValid (some filter) t c v =
    let w =
      update_cue-IsValid filter t
        (emit filter.has_update_data (CueEvent.update_data t c.displayed_memory) c)
        (emit-IsValid filter.has_update_data (CueEvent.update_data t c.displayed_memory) c v) in
    record { shown = w.shown; hidden = w.hidden; last = Laws.copy-IsValid _ _ w.last w.shown }

pub output_data_update-IsValid :
    (time : Option ℕ) (c : Cea608Channel) → IsValid c → IsValid (output_data_update time c)
unfolding output_data_update
output_data_update-IsValid none c v = v
output_data_update-IsValid (some t) c v = update_output-IsValid c.output_filter t c v
