-- ===== src/Cea608/Parser.antt =====
-- `Cea608Parser`: byte pairs to commands on two channels. The channel numbers 1 and 2 are
-- constructors, and `none` is the initial `currChNr`, -1. `none` as a result is a thrown TypeError.
pub mod Decode
pub mod Repeat
pub mod Count
pub mod Stream
pub mod Isolation
pub mod Valid
use v4l2rtspserver.Base.{
  ℕ, ◌+◌, ◌-◌, ◌*◌, ◌/◌, ◌%◌, Bool, true, false, not, ◌&&◌, ◌||◌, Option, none, some, List, [], ◌∷◌,
  ◌==◌, leb, if◌then◌else◌, ◌>>=◌, get_elem?, bit_and,
}
use v4l2rtspserver.Cea608.Charset.{lookup, rows_low_ch1, rows_high_ch1, rows_low_ch2, rows_high_ch2}
use v4l2rtspserver.Cea608.Pen.{
  Color, white, green, blue, cyan, red, yellow, magenta, black, transparent, semi, Styles,
  no_styles,
}
use v4l2rtspserver.Cea608.Screen.{PacData}
use v4l2rtspserver.Cea608.Channel
use v4l2rtspserver.Cea608.Channel.{Cea608Channel, OutputFilter, new_channel, cc_reserved}

pub data ChannelNumber : Type 0 where
  ch1 ch2 : ChannelNumber

pub record Counters : Type 0 where
  pub padding : ℕ
  pub char : ℕ
  pub cmd : ℕ
  pub other : ℕ

pub record Cea608Parser : Type 0 where
  pub channel1 : Cea608Channel
  pub channel2 : Cea608Channel
  pub curr_ch_nr : Option ChannelNumber
  pub last_cmd_a : Option ℕ
  pub last_cmd_b : Option ℕ
  pub last_time : Option ℕ
  pub data_counters : Counters

abbrev pub new_parser : Option OutputFilter → Option OutputFilter → Cea608Parser
new_parser out1 out2 = record {
  channel1 = new_channel out1;
  channel2 = new_channel out2;
  curr_ch_nr = none;
  last_cmd_a = none;
  last_cmd_b = none;
  last_time = none;
  data_counters = record { padding = 0; char = 0; cmd = 0; other = 0 };
}

unfoldable pub same_channel : ChannelNumber → Option ChannelNumber → Bool
same_channel n none = false
same_channel ch1 (some ch1) = true
same_channel ch2 (some ch2) = true
same_channel _ (some _) = false

-- A method of `this.channels[chNr - 1]`.
unfoldable pub on_channel :
    ChannelNumber → (Cea608Channel → Option Cea608Channel) → Cea608Parser → Option Cea608Parser
on_channel ch1 f p = f p.channel1 >>= λ c. some (record p { channel1 = c })
on_channel ch2 f p = f p.channel2 >>= λ c. some (record p { channel2 = c })

-- `v === o` for an `o` that may be null.
unfoldable pub is_number : ℕ → Option ℕ → Bool
is_number v none = false
is_number v (some w) = v == w

abbrev pub between : ℕ → ℕ → ℕ → Bool
between lo x hi = leb lo x && leb x hi

-- The pair is the last command once more.
unfoldable pub is_repeated : ℕ → ℕ → Cea608Parser → Bool
is_repeated a b p = is_number a p.last_cmd_a && is_number b p.last_cmd_b

unfoldable pub forget_command : Cea608Parser → Cea608Parser
forget_command p = record p { last_cmd_a = none; last_cmd_b = none }

unfoldable pub remember_command : ℕ → ℕ → ChannelNumber → Cea608Parser → Cea608Parser
remember_command a b ch p = record p {
  last_cmd_a = some a;
  last_cmd_b = some b;
  curr_ch_nr = some ch;
}

unfoldable pub is_cmd : ℕ → ℕ → Bool
is_cmd a b =
    ((a == 0x14 || a == 0x1C) && between 0x20 b 0x2F)
    || ((a == 0x17 || a == 0x1F) && between 0x21 b 0x23)

-- The commands of the first bytes 0x14 and 0x1C, by the second byte.
unfoldable pub misc_command : Option ℕ → ℕ → Cea608Channel → Option Cea608Channel
misc_command time b c =
    if b == 0x20
    then some (Channel.cc_rcl c)
    else if b == 0x21
    then Channel.cc_bs time c
    else if b == 0x22
    then some (cc_reserved c)
    else if b == 0x23
    then some (cc_reserved c)
    else if b == 0x24
    then Channel.cc_der time c
    else if b == 0x25
    then Channel.cc_ru 2 c
    else if b == 0x26
    then Channel.cc_ru 3 c
    else if b == 0x27
    then Channel.cc_ru 4 c
    else if b == 0x28
    then Channel.cc_fon c
    else if b == 0x29
    then some (Channel.cc_rdc c)
    else if b == 0x2A
    then some (Channel.cc_tr c)
    else if b == 0x2B
    then some (Channel.cc_tr c)
    else if b == 0x2C
    then some (Channel.cc_edm time c)
    else if b == 0x2D
    then Channel.cc_cr time c
    else if b == 0x2E
    then some (Channel.cc_enm c)
    else if b == 0x2F
    then some (Channel.cc_eoc time c)
    else some c

unfoldable pub cmd_channel : ℕ → ChannelNumber
cmd_channel a = if a == 0x14 || a == 0x17 then ch1 else ch2

unfoldable pub run_command : Option ℕ → ℕ → ℕ → Cea608Channel → Option Cea608Channel
run_command time a b c =
    if a == 0x14 || a == 0x1C then misc_command time b c else Channel.cc_to (b - 0x20) c

-- Each parse function returns whether it took the pair, and the parser.
unfoldable pub parse_cmd : Option ℕ → ℕ → ℕ → Cea608Parser → Option (Bool × Cea608Parser)
parse_cmd time a b p =
    if not (is_cmd a b)
    then some (false, p)
    else if is_repeated a b p
    then some (true, forget_command p)
    else (do
      p' ← on_channel (cmd_channel a) (run_command time a b) p
      some (true, remember_command a b (cmd_channel a) p'))

unfoldable pub midrow_channel : ℕ → ChannelNumber
midrow_channel a = if a == 0x11 then ch1 else ch2

unfoldable pub parse_midrow : ℕ → ℕ → Cea608Parser → Option (Bool × Cea608Parser)
parse_midrow a b p =
    if (a == 0x11 || a == 0x19)
      && between 0x20 b 0x2f
      && same_channel (midrow_channel a) p.curr_ch_nr
    then (do p' ← on_channel (midrow_channel a) (Channel.cc_midrow b) p; some (true, p'))
    else some (false, p)

unfoldable pub is_pac : ℕ → ℕ → Bool
is_pac a b =
    ((between 0x11 a 0x17 || between 0x19 a 0x1F) && between 0x40 b 0x7F)
    || ((a == 0x10 || a == 0x18) && between 0x40 b 0x5F)

unfoldable pub pac_channel : ℕ → ChannelNumber
pac_channel a = if leb a 0x17 then ch1 else ch2

unfoldable pub channel_row : ChannelNumber → ℕ → ℕ → Option ℕ
channel_row ch1 a b = if between 0x40 b 0x5F then lookup a rows_low_ch1 else lookup a rows_high_ch1
channel_row ch2 a b = if between 0x40 b 0x5F then lookup a rows_low_ch2 else lookup a rows_high_ch2

-- The row of a preamble code, from 1; `none` is undefined.
unfoldable pub pac_row : ℕ → ℕ → Option ℕ
pac_row a b = channel_row (pac_channel a) a b

abbrev pub pac_colors : List Color
pac_colors = white ∷ green ∷ blue ∷ cyan ∷ red ∷ yellow ∷ magenta ∷ white ∷ []

unfoldable pub pac_index : ℕ → ℕ
pac_index byte = if leb byte 0x5F then byte - 0x40 else byte - 0x60

unfoldable pub interpret_pac : ℕ → ℕ → PacData
interpret_pac row byte =
    let i = pac_index byte in
    record {
      underline = bit_and i 1 == 1;
      color =
          if leb i 0xd
          then get_elem? pac_colors (i / 2)
          else if leb i 0xf
          then some white
          else none;
      italics = not (leb i 0xd) && leb i 0xf;
      indent = if leb i 0xf then none else some ((i - 0x10) / 2 * 4);
      row = row;
    }

-- An undefined row would make a row number that is no number, and a TypeError at `rows[NaN]`.
unfoldable pub parse_pac : ℕ → ℕ → Cea608Parser → Option (Bool × Cea608Parser)
parse_pac a b p =
    if not (is_pac a b)
    then some (false, p)
    else if is_repeated a b p
    then some (true, forget_command p)
    else (do
      row ← pac_row a b
      p' ← on_channel (pac_channel a) (Channel.set_pac (interpret_pac row b)) p
      some (true, remember_command a b (pac_channel a) p'))

abbrev pub background_colors : List Color
background_colors = white ∷ green ∷ blue ∷ cyan ∷ red ∷ yellow ∷ magenta ∷ black ∷ transparent ∷ []

unfoldable pub is_background : ℕ → ℕ → Bool
is_background a b =
    ((a == 0x10 || a == 0x18) && between 0x20 b 0x2f)
    || ((a == 0x17 || a == 0x1f) && between 0x2d b 0x2f)

unfoldable pub background_color : ℕ → Option Color
background_color b = do
  color ← get_elem? background_colors ((b - 0x20) / 2)
  some (if b % 2 == 1 then semi color else color)

unfoldable pub background_styles : ℕ → ℕ → Styles
background_styles a b =
    if a == 0x10 || a == 0x18
    then record no_styles { background = background_color b }
    else if b == 0x2d
    then record no_styles { background = some transparent }
    else record no_styles {
      foreground = some black;
      underline = if b == 0x2f then some true else none;
    }

unfoldable pub background_channel : ℕ → ChannelNumber
background_channel a = if leb 0x18 a then ch2 else ch1

unfoldable pub parse_background_attributes : ℕ → ℕ → Cea608Parser → Option (Bool × Cea608Parser)
parse_background_attributes a b p = if not (is_background a b) then some (false, p) else (do
  p' ← on_channel (background_channel a) (Channel.set_bkg_data (background_styles a b)) p
  some (true, forget_command p'))

unfoldable pub char_code1 : ℕ → ℕ
char_code1 a = if leb 0x19 a then a - 8 else a

-- The codes of one or two characters; `none` is null.
unfoldable pub char_codes : ℕ → ℕ → Option (List ℕ)
char_codes a b =
    if char_code1 a == 0x11
    then some ((b + 0x50) ∷ [])
    else if char_code1 a == 0x12
    then some ((b + 0x70) ∷ [])
    else if char_code1 a == 0x13
    then some ((b + 0x90) ∷ [])
    else if between 0x20 a 0x7f
    then some (if b == 0 then a ∷ [] else a ∷ b ∷ [])
    else none

unfoldable pub forget_if : Option (List ℕ) → Cea608Parser → Cea608Parser
forget_if none p = p
forget_if (some codes) p = forget_command p

unfoldable pub parse_chars : ℕ → ℕ → Cea608Parser → Option (List ℕ) × Cea608Parser
parse_chars a b p = (char_codes a b, forget_if (char_codes a b) p)

unfoldable pub insert_into :
    Option ℕ → List ℕ → Option ChannelNumber → Cea608Parser → Option Cea608Parser
insert_into time codes none p = some p
insert_into time codes (some ch) p = on_channel ch (Channel.insert_chars time codes) p

abbrev pub count_cmd : Counters → Counters
count_cmd n = record n { cmd = n.cmd + 2 }

abbrev pub count_char : Counters → Counters
count_char n = record n { char = n.char + 2 }

abbrev pub count_other : Counters → Counters
count_other n = record n { other = n.other + 2 }

abbrev pub count_padding : Counters → Counters
count_padding n = record n { padding = n.padding + 2 }

unfoldable pub count : (Counters → Counters) → Cea608Parser → Cea608Parser
count f p = record p { data_counters = f p.data_counters }

-- The characters go to the channel of the last command, if there was one.
unfoldable pub add_chars : Option ℕ → Option (List ℕ) × Cea608Parser → Option Cea608Parser
add_chars time (none, p) = some (count count_other p)
add_chars time (some codes, p) =
    insert_into time codes p.curr_ch_nr p >>= λ p'. some (count count_char p')

-- The next parse function runs where the one before did not take the pair.
abbrev pub or_else :
    Option (Bool × Cea608Parser)
    → (Cea608Parser → Option (Bool × Cea608Parser))
    → Option (Bool × Cea608Parser)
or_else none next = none
or_else (some (true, p)) next = some (true, p)
or_else (some (false, p)) next = next p

abbrev pub finish_pair :
    Option (Bool × Cea608Parser) → (Cea608Parser → Option Cea608Parser) → Option Cea608Parser
finish_pair none chars = none
finish_pair (some (true, p)) chars = some (count count_cmd p)
finish_pair (some (false, p)) chars = chars p

unfoldable pub find_command : Option ℕ → ℕ → ℕ → Cea608Parser → Option (Bool × Cea608Parser)
find_command time a b p =
    or_else (or_else (or_else (parse_cmd time a b p) (parse_midrow a b)) (parse_pac a b))
      (parse_background_attributes a b)

-- One round of the loop of `addData`, on bytes without their parity bits.
unfoldable pub add_pair : Option ℕ → ℕ → ℕ → Cea608Parser → Option Cea608Parser
add_pair time a b p =
    if a == 0 && b == 0
    then some (count count_padding p)
    else finish_pair (find_command time a b p) (λ p'. add_chars time (parse_chars a b p'))

-- At an odd length the last pair's second byte is undefined, and `& 0x7f` makes it 0; unless the pair
-- is padding, the log line then calls `toString` of undefined, which throws.
unfoldable pub add_last : ℕ → Cea608Parser → Option Cea608Parser
add_last a p = if a == 0 then some (count count_padding p) else none

unfoldable pub add_pairs : Option ℕ → List ℕ → Cea608Parser → Option Cea608Parser
add_pairs time [] p = some p
add_pairs time (a ∷ []) p = add_last (bit_and a 0x7f) p
add_pairs time (a ∷ b ∷ bytes) p =
    add_pair time (bit_and a 0x7f) (bit_and b 0x7f) p >>= λ p'. add_pairs time bytes p'

unfoldable pub add_data : ℕ → List ℕ → Cea608Parser → Option Cea608Parser
add_data t byte_list p = add_pairs (some t) byte_list (record p { last_time = some t })

unfoldable pub reset : Cea608Parser → Cea608Parser
reset p = record p {
  channel1 = Channel.reset p.channel1;
  channel2 = Channel.reset p.channel2;
  last_cmd_a = none;
  last_cmd_b = none;
}

unfoldable pub cue_split_at_time : ℕ → Cea608Parser → Cea608Parser
cue_split_at_time t p = record p {
  channel1 = Channel.cue_split_at_time t p.channel1;
  channel2 = Channel.cue_split_at_time t p.channel2;
}
