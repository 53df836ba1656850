-- ===== src/Cea608/Channel.antt =====
-- `Cea608Channel`: the displayed and the hidden screen, and the commands. `writeScreen` is always one
-- of the two, so it is modelled by which. The calls of the output filter are recorded in `events`,
-- the latest last; a filter is known by the callbacks that it has. `logger.time`, which `addData`
-- sets, is the argument `time`. `currRollUpRow` and `lastCueEndTime` are assigned and never read.
pub mod Cues
pub mod Modes
pub mod Valid
pub mod Commands
pub mod Throws
use v4l2rtspserver.Base.{
  ℕ, ◌-◌, ◌/◌, ◌%◌, Bool, true, false, not, ◌&&◌, Option, none, some, List, [], ◌∷◌, ◌++◌, ◌==◌,
  leb, if◌then◌else◌, ◌>>=◌, get_elem?,
}
use v4l2rtspserver.Base.Int.{ℤ}
use v4l2rtspserver.Cea608.Pen.{
  Color, white, green, blue, cyan, red, yellow, magenta, Styles, no_styles,
}
use v4l2rtspserver.Cea608.Screen
use v4l2rtspserver.Cea608.Screen.{CaptionScreen, PacData, new_screen}

pub data Mode : Type 0 where
  roll_up pop_on paint_on text : Mode

unfoldable pub mode_eq : Mode → Mode → Bool
mode_eq roll_up roll_up = true
mode_eq pop_on pop_on = true
mode_eq paint_on paint_on = true
mode_eq text text = true
mode_eq _ _ = false

-- `mode === m` for a mode that may be null.
unfoldable pub is_mode : Mode → Option Mode → Bool
is_mode m none = false
is_mode m (some n) = mode_eq m n

pub data Memory : Type 0 where
  displayed non_displayed : Memory

pub data CueEvent : Type 0 where
  update_data : ℕ → CaptionScreen → CueEvent
  new_cue : Option ℕ → ℕ → CaptionScreen → CueEvent

pub record OutputFilter : Type 0 where
  pub has_update_data : Bool
  pub has_new_cue : Bool

pub record Cea608Channel : Type 0 where
  pub output_filter : Option OutputFilter
  pub mode : Option Mode
  pub displayed_memory : CaptionScreen
  pub non_displayed_memory : CaptionScreen
  pub last_output_screen : CaptionScreen
  pub write_screen : Memory
  pub cue_start_time : Option ℕ
  pub events : List CueEvent

abbrev pub new_channel : Option OutputFilter → Cea608Channel
new_channel filter = record {
  output_filter = filter;
  mode = none;
  displayed_memory = new_screen;
  non_displayed_memory = new_screen;
  last_output_screen = new_screen;
  write_screen = displayed;
  cue_start_time = none;
  events = [];
}

unfoldable pub reset : Cea608Channel → Cea608Channel
reset c = record c {
  mode = none;
  displayed_memory = Screen.reset c.displayed_memory;
  non_displayed_memory = Screen.reset c.non_displayed_memory;
  last_output_screen = Screen.reset c.last_output_screen;
  write_screen = displayed;
  cue_start_time = none;
}

unfoldable pub is_displayed : Memory → Bool
is_displayed displayed = true
is_displayed non_displayed = false

unfoldable pub write_memory :
    Memory → (CaptionScreen → Option CaptionScreen) → Cea608Channel → Option Cea608Channel
write_memory displayed f c = do s ← f c.displayed_memory; some (record c { displayed_memory = s })
write_memory non_displayed f c = do
  s ← f c.non_displayed_memory
  some (record c { non_displayed_memory = s })

-- A method of `this.writeScreen`.
unfoldable pub on_screen :
    (CaptionScreen → Option CaptionScreen) → Cea608Channel → Option Cea608Channel
on_screen f c = write_memory c.write_screen f c

unfoldable pub set_pac : PacData → Cea608Channel → Option Cea608Channel
set_pac pac c = on_screen (Screen.set_pac pac) c

unfoldable pub set_bkg_data : Styles → Cea608Channel → Option Cea608Channel
set_bkg_data bkg_data c = on_screen (Screen.set_bkg_data bkg_data) c

-- The screen that a new mode writes to; any but pop-on erases the displayed one.
unfoldable pub select_screen : Mode → Cea608Channel → Cea608Channel
select_screen pop_on c = record c { write_screen = non_displayed }
select_screen _ c = record c {
  write_screen = displayed;
  displayed_memory = Screen.reset c.displayed_memory;
}

unfoldable pub forget_roll_up : CaptionScreen → CaptionScreen
forget_roll_up s = record s { nr_roll_up_rows = none }

unfoldable pub leave_roll_up : Mode → Cea608Channel → Cea608Channel
leave_roll_up roll_up c = c
leave_roll_up _ c = record c {
  displayed_memory = forget_roll_up c.displayed_memory;
  non_displayed_memory = forget_roll_up c.non_displayed_memory;
}

unfoldable pub set_mode : Mode → Cea608Channel → Cea608Channel
set_mode new_mode c =
    if is_mode new_mode c.mode
    then c
    else leave_roll_up new_mode (select_screen new_mode (record c { mode = some new_mode }))

unfoldable pub emit : Bool → CueEvent → Cea608Channel → Cea608Channel
emit true e c = record c { events = c.events ++ e ∷ [] }
emit false e c = c

pub is_none {ℓ} : {A : Type ℓ} → Option A → Bool
is_none none = true
is_none (some a) = false

-- The cue that ends at `t`, and the start of the next one.
unfoldable pub update_cue : OutputFilter → ℕ → Cea608Channel → Cea608Channel
update_cue filter t c =
    if is_none c.cue_start_time && not (Screen.is_empty c.displayed_memory)
    then record c { cue_start_time = some t }
    else if Screen.equals c.displayed_memory c.last_output_screen
    then c
    else record (emit filter.has_new_cue (new_cue c.cue_start_time t c.last_output_screen) c) {
      cue_start_time = if Screen.is_empty c.displayed_memory then none else some t;
    }

unfoldable pub update_output : Option OutputFilter → ℕ → Cea608Channel → Cea608Channel
update_output none t c = c
update_output (some filter) t c =
    let c' =
      update_cue filter t (emit filter.has_update_data (update_data t c.displayed_memory) c) in
    record c' { last_output_screen = Screen.copy c'.last_output_screen c'.displayed_memory }

unfoldable pub output_data_update : Option ℕ → Cea608Channel → Cea608Channel
output_data_update none c = c
output_data_update (some t) c = update_output c.output_filter t c

unfoldable pub insert_all : List ℕ → Cea608Channel → Option Cea608Channel
insert_all [] c = some c
insert_all (char ∷ chars) c = do c' ← on_screen (Screen.insert_char char) c; insert_all chars c'

-- In the modes that write to the displayed screen the text is output at once.
unfoldable pub output_if_live : Option ℕ → Cea608Channel → Cea608Channel
output_if_live time c =
    if is_mode paint_on c.mode
    then output_data_update time c
    else if is_mode roll_up c.mode
    then output_data_update time c
    else c

unfoldable pub insert_chars : Option ℕ → List ℕ → Cea608Channel → Option Cea608Channel
insert_chars time chars c = insert_all chars c >>= λ c'. some (output_if_live time c')

unfoldable pub cc_rcl : Cea608Channel → Cea608Channel
cc_rcl c = set_mode pop_on c

unfoldable pub cc_bs : Option ℕ → Cea608Channel → Option Cea608Channel
cc_bs time c = if is_mode text c.mode then some c else (do
  c' ← on_screen Screen.back_space c
  some (if is_displayed c'.write_screen then output_data_update time c' else c'))

-- `ccAOF` and `ccAON` return at once.
abbrev pub cc_reserved : Cea608Channel → Cea608Channel
cc_reserved c = c

unfoldable pub cc_der : Option ℕ → Cea608Channel → Option Cea608Channel
cc_der time c = on_screen Screen.clear_to_end_of_row c >>= λ c'. some (output_data_update time c')

unfoldable pub cc_ru : ℕ → Cea608Channel → Option Cea608Channel
cc_ru nr_rows c =
    on_screen (λ s. some (Screen.set_roll_up_rows nr_rows s))
      (set_mode roll_up (record c { write_screen = displayed }))

unfoldable pub cc_fon : Cea608Channel → Option Cea608Channel
cc_fon c = on_screen (Screen.set_pen (record no_styles { flash = some true })) c

unfoldable pub cc_rdc : Cea608Channel → Cea608Channel
cc_rdc c = set_mode paint_on c

-- `ccTR` and `ccRTD`.
unfoldable pub cc_tr : Cea608Channel → Cea608Channel
cc_tr c = set_mode text c

unfoldable pub cc_edm : Option ℕ → Cea608Channel → Cea608Channel
cc_edm time c =
    output_data_update time (record c { displayed_memory = Screen.reset c.displayed_memory })

unfoldable pub cc_cr : Option ℕ → Cea608Channel → Option Cea608Channel
cc_cr time c = on_screen Screen.roll_up c >>= λ c'. some (output_data_update time c')

unfoldable pub cc_enm : Cea608Channel → Cea608Channel
cc_enm c = record c { non_displayed_memory = Screen.reset c.non_displayed_memory }

unfoldable pub flip_memories : Cea608Channel → Cea608Channel
flip_memories c =
    if is_mode pop_on c.mode
    then record c {
      displayed_memory = c.non_displayed_memory;
      non_displayed_memory = c.displayed_memory;
      write_screen = non_displayed;
    }
    else c

unfoldable pub cc_eoc : Option ℕ → Cea608Channel → Cea608Channel
cc_eoc time c = output_data_update time (flip_memories c)

unfoldable pub cc_to : ℕ → Cea608Channel → Option Cea608Channel
cc_to nr_cols c = on_screen (Screen.move_cursor (ℤ.pos nr_cols)) c

abbrev pub midrow_colors : List Color
midrow_colors = white ∷ green ∷ blue ∷ cyan ∷ red ∷ yellow ∷ magenta ∷ []

-- A foreground of undefined would be set as it is; it does not occur (`parseMidrow` guards the byte).
unfoldable pub midrow_styles : ℕ → Styles
midrow_styles second_byte = record no_styles {
  flash = some false;
  underline = some (second_byte % 2 == 1);
  italics = some (leb 0x2e second_byte);
  foreground =
      if leb 0x2e second_byte then some white else get_elem? midrow_colors (second_byte / 2 - 0x10);
}

unfoldable pub cc_midrow : ℕ → Cea608Channel → Option Cea608Channel
cc_midrow second_byte c = on_screen (Screen.set_pen (midrow_styles second_byte)) c

unfoldable pub split_cue : Option OutputFilter → ℕ → Cea608Channel → Cea608Channel
split_cue none t c = c
split_cue (some filter) t c =
    if Screen.is_empty c.displayed_memory
    then c
    else record (emit filter.has_new_cue (new_cue c.cue_start_time t c.displayed_memory) c) {
      cue_start_time = some t;
    }

unfoldable pub cue_split_at_time : ℕ → Cea608Channel → Cea608Channel
cue_split_at_time t c = split_cue c.output_filter t c
