-- ===== src/Cea608/Tests.antt =====
-- Runs of the decoder on concrete bytes and screens.
use v4l2rtspserver.Base.{
  bit_and, ◌≢◌, ℕ, ◌+◌, ◌*◌, ◌≡◌, ◌≤◌, ◌<◌, ◌⊎◌, refl, Bool, true, false, Option, none, some, List,
  [], ◌∷◌, ◌++◌, ◌>>=◌, map, get_elem?, set, All-set, take, drop, replicate, arith,
}
use v4l2rtspserver.Cea608.Charset
use v4l2rtspserver.Cea608.Pen
use v4l2rtspserver.Cea608.Row
use v4l2rtspserver.Cea608.Screen
use v4l2rtspserver.Cea608.Channel
use v4l2rtspserver.Cea608.Parser
use v4l2rtspserver.Cea608.Row.{Row, new_row, clear, insert_char}
use v4l2rtspserver.Cea608.Row.Laws as RowLaws
use v4l2rtspserver.Cea608.Row.Laws.{new_row-IsValid}
use v4l2rtspserver.Cea608.Row.Text.{insert_row, insert_row_text, codes}
use v4l2rtspserver.Cea608.Screen.{CaptionScreen, new_screen, roll_up}
use v4l2rtspserver.Cea608.Screen.Laws as ScreenLaws
use v4l2rtspserver.Cea608.Screen.RollUp.{roll_up_window, roll_up_too_high}
use v4l2rtspserver.Cea608.Channel.{
  Cea608Channel, OutputFilter, Mode, new_channel, pop_on, displayed, non_displayed, is_mode,
  mode_eq, set_mode, cc_eoc, cc_midrow, cc_to, cc_cr, insert_chars, output_data_update,
}
use v4l2rtspserver.Cea608.Channel.Valid as ChannelLaws
use v4l2rtspserver.Cea608.Channel.Cues.{output_data_update_again}
use v4l2rtspserver.Cea608.Channel.Modes.{cc_eoc_lem}
use v4l2rtspserver.Cea608.Channel.Throws.{cc_midrow_throws, cc_to_throws}
use v4l2rtspserver.Cea608.Channel.Commands.{insert_chars_total}
use v4l2rtspserver.Cea608.Parser.{
  Cea608Parser, new_parser, add_data, add_pairs, ch1, parse_cmd, parse_pac, is_cmd, is_pac,
  is_repeated, forget_command, cmd_channel, pac_channel, pac_row,
}
use v4l2rtspserver.Cea608.Parser.Valid as ParserLaws
use v4l2rtspserver.Cea608.Parser.Valid.{add_data-IsValid, new_parser-IsValid}
use v4l2rtspserver.Cea608.Parser.Repeat.{parse_cmd_repeated}
use v4l2rtspserver.Cea608.Parser.Decode.{pac_row_total}
use v4l2rtspserver.Cea608.Parser.Count.{total, pairs, add_data-total}
use v4l2rtspserver.Cea608.Parser.Stream.{add_data-strip, strip_parity, add_data_odd_throws}
use v4l2rtspserver.Cea608.Parser.Isolation.{
  is_for, IsStreamFor, opposite, channel_of, add_data-IsQuiet,
}

-- Roll-up on two rows, sent twice, then "HI".
abbrev bytes : List ℕ
bytes = 0x14 ∷ 0x25 ∷ 0x14 ∷ 0x25 ∷ 0x48 ∷ 0x49 ∷ []

abbrev start : Cea608Parser
start = new_parser none none

or_start : Option Cea608Parser → Cea608Parser
or_start none = start
or_start (some p) = p

abbrev typed : Cea608Parser
typed = or_start (add_data 5 bytes start)

typed-ran : add_data 5 bytes start ≡ some typed
unfolding Parser.same_channel Parser.on_channel Parser.is_number Parser.is_repeated
    Parser.forget_command Parser.remember_command Parser.is_cmd Parser.misc_command
    Parser.cmd_channel Parser.run_command Parser.parse_cmd Parser.midrow_channel Parser.parse_midrow
    Parser.is_pac Parser.pac_channel Parser.channel_row Parser.pac_row Parser.pac_index
    Parser.interpret_pac Parser.parse_pac Parser.is_background Parser.background_color
    Parser.background_styles Parser.background_channel Parser.parse_background_attributes
    Parser.char_code1 Parser.char_codes Parser.forget_if Parser.parse_chars Parser.insert_into
    Parser.count Parser.add_chars Parser.find_command Parser.add_pair Parser.add_last
    Parser.add_pairs Parser.add_data Parser.reset Parser.cue_split_at_time Channel.mode_eq
    Channel.is_mode Channel.reset Channel.is_displayed Channel.write_memory Channel.on_screen
    Channel.set_pac Channel.set_bkg_data Channel.select_screen Channel.forget_roll_up
    Channel.leave_roll_up Channel.set_mode Channel.emit Channel.update_cue Channel.update_output
    Channel.output_data_update Channel.insert_all Channel.output_if_live Channel.insert_chars
    Channel.cc_rcl Channel.cc_bs Channel.cc_der Channel.cc_ru Channel.cc_fon Channel.cc_rdc
    Channel.cc_tr Channel.cc_edm Channel.cc_cr Channel.cc_enm Channel.flip_memories Channel.cc_eoc
    Channel.cc_to Channel.midrow_styles Channel.cc_midrow Channel.split_cue
    Channel.cue_split_at_time Screen.reset Screen.rows_equal Screen.equals Screen.copy_rows
    Screen.copy Screen.rows_are_empty Screen.is_empty Screen.on_row Screen.back_space
    Screen.clear_to_end_of_row Screen.insert_char Screen.set_pen Screen.move_cursor
    Screen.set_cursor Screen.is_rolling Screen.base_row Screen.pac_color Screen.indent_row
    Screen.pac_styles Screen.pac_row Screen.set_pac Screen.set_bkg_data Screen.set_roll_up_rows
    Screen.splice_start Screen.splice_rows Screen.roll_up_by Screen.roll_up Row.chars_equal
    Row.equals Row.copy Row.chars_are_empty Row.is_empty Row.clamp_column Row.set_cursor
    Row.update_cell Row.style_range Row.move_cursor Row.at_cursor Row.back_space Row.put_char
    Row.insert_char Row.reset_from Row.clear_from_pos Row.clear Row.clear_to_end_of_row
    Row.all_spaces Row.get_text_string Row.set_pen_styles Pen.color_eq Pen.bool_eq Pen.set_styles
    Pen.is_default Pen.pen_equals Pen.set_char Pen.set_pen_state Pen.char_equals Pen.char_is_empty
    Charset.lookup Charset.char_or Charset.get_char_for_byte or_start
typed-ran = refl

-- What stands in the last row.
hello :
    (get_elem? typed.channel1.displayed_memory.rows 14 >>= λ row.
    some (take 2 (Row.get_text_string row)))
    ≡ some (0x48 ∷ 0x49 ∷ [])
unfolding Parser.same_channel Parser.on_channel Parser.is_number Parser.is_repeated
    Parser.forget_command Parser.remember_command Parser.is_cmd Parser.misc_command
    Parser.cmd_channel Parser.run_command Parser.parse_cmd Parser.midrow_channel Parser.parse_midrow
    Parser.is_pac Parser.pac_channel Parser.channel_row Parser.pac_row Parser.pac_index
    Parser.interpret_pac Parser.parse_pac Parser.is_background Parser.background_color
    Parser.background_styles Parser.background_channel Parser.parse_background_attributes
    Parser.char_code1 Parser.char_codes Parser.forget_if Parser.parse_chars Parser.insert_into
    Parser.count Parser.add_chars Parser.find_command Parser.add_pair Parser.add_last
    Parser.add_pairs Parser.add_data Parser.reset Parser.cue_split_at_time Channel.mode_eq
    Channel.is_mode Channel.reset Channel.is_displayed Channel.write_memory Channel.on_screen
    Channel.set_pac Channel.set_bkg_data Channel.select_screen Channel.forget_roll_up
    Channel.leave_roll_up Channel.set_mode Channel.emit Channel.update_cue Channel.update_output
    Channel.output_data_update Channel.insert_all Channel.output_if_live Channel.insert_chars
    Channel.cc_rcl Channel.cc_bs Channel.cc_der Channel.cc_ru Channel.cc_fon Channel.cc_rdc
    Channel.cc_tr Channel.cc_edm Channel.cc_cr Channel.cc_enm Channel.flip_memories Channel.cc_eoc
    Channel.cc_to Channel.midrow_styles Channel.cc_midrow Channel.split_cue
    Channel.cue_split_at_time Screen.reset Screen.rows_equal Screen.equals Screen.copy_rows
    Screen.copy Screen.rows_are_empty Screen.is_empty Screen.on_row Screen.back_space
    Screen.clear_to_end_of_row Screen.insert_char Screen.set_pen Screen.move_cursor
    Screen.set_cursor Screen.is_rolling Screen.base_row Screen.pac_color Screen.indent_row
    Screen.pac_styles Screen.pac_row Screen.set_pac Screen.set_bkg_data Screen.set_roll_up_rows
    Screen.splice_start Screen.splice_rows Screen.roll_up_by Screen.roll_up Row.chars_equal
    Row.equals Row.copy Row.chars_are_empty Row.is_empty Row.clamp_column Row.set_cursor
    Row.update_cell Row.style_range Row.move_cursor Row.at_cursor Row.back_space Row.put_char
    Row.insert_char Row.reset_from Row.clear_from_pos Row.clear Row.clear_to_end_of_row
    Row.all_spaces Row.get_text_string Row.set_pen_styles Pen.color_eq Pen.bool_eq Pen.set_styles
    Pen.is_default Pen.pen_equals Pen.set_char Pen.set_pen_state Pen.char_equals Pen.char_is_empty
    Charset.lookup Charset.char_or Charset.get_char_for_byte or_start
hello = refl

add_data-IsValid_example : ParserLaws.IsValid typed
add_data-IsValid_example =
    add_data-IsValid 5 bytes start typed (new_parser-IsValid none none) typed-ran

add_data-total_example : total typed.data_counters ≡ total start.data_counters + 2 * pairs bytes
add_data-total_example = add_data-total 5 bytes start typed typed-ran

add_data-strip_example :
    add_data 5 (map strip_parity (0x94 ∷ 0x25 ∷ [])) start ≡ add_data 5 (0x94 ∷ 0x25 ∷ []) start
add_data-strip_example = add_data-strip 5 (0x94 ∷ 0x25 ∷ []) start (omega arith, (omega arith, tt))

second_or_start : Option (Bool × Cea608Parser) → Cea608Parser
second_or_start none = start
second_or_start (some t) = t.1

abbrev commanded : Cea608Parser
commanded = second_or_start (parse_cmd none 0x14 0x25 start)

commanded-ran :
    (is_cmd 0x14 0x25 ≡ true)
    × (is_repeated 0x14 0x25 start ≡ false)
    × (parse_cmd none 0x14 0x25 start ≡ some (true, commanded))
unfolding Parser.same_channel Parser.on_channel Parser.is_number Parser.is_repeated
    Parser.forget_command Parser.remember_command Parser.is_cmd Parser.misc_command
    Parser.cmd_channel Parser.run_command Parser.parse_cmd Parser.midrow_channel Parser.parse_midrow
    Parser.is_pac Parser.pac_channel Parser.channel_row Parser.pac_row Parser.pac_index
    Parser.interpret_pac Parser.parse_pac Parser.is_background Parser.background_color
    Parser.background_styles Parser.background_channel Parser.parse_background_attributes
    Parser.char_code1 Parser.char_codes Parser.forget_if Parser.parse_chars Parser.insert_into
    Parser.count Parser.add_chars Parser.find_command Parser.add_pair Parser.add_last
    Parser.add_pairs Parser.add_data Parser.reset Parser.cue_split_at_time Channel.mode_eq
    Channel.is_mode Channel.reset Channel.is_displayed Channel.write_memory Channel.on_screen
    Channel.set_pac Channel.set_bkg_data Channel.select_screen Channel.forget_roll_up
    Channel.leave_roll_up Channel.set_mode Channel.emit Channel.update_cue Channel.update_output
    Channel.output_data_update Channel.insert_all Channel.output_if_live Channel.insert_chars
    Channel.cc_rcl Channel.cc_bs Channel.cc_der Channel.cc_ru Channel.cc_fon Channel.cc_rdc
    Channel.cc_tr Channel.cc_edm Channel.cc_cr Channel.cc_enm Channel.flip_memories Channel.cc_eoc
    Channel.cc_to Channel.midrow_styles Channel.cc_midrow Channel.split_cue
    Channel.cue_split_at_time Screen.reset Screen.rows_equal Screen.equals Screen.copy_rows
    Screen.copy Screen.rows_are_empty Screen.is_empty Screen.on_row Screen.back_space
    Screen.clear_to_end_of_row Screen.insert_char Screen.set_pen Screen.move_cursor
    Screen.set_cursor Screen.is_rolling Screen.base_row Screen.pac_color Screen.indent_row
    Screen.pac_styles Screen.pac_row Screen.set_pac Screen.set_bkg_data Screen.set_roll_up_rows
    Screen.splice_start Screen.splice_rows Screen.roll_up_by Screen.roll_up Row.chars_equal
    Row.equals Row.copy Row.chars_are_empty Row.is_empty Row.clamp_column Row.set_cursor
    Row.update_cell Row.style_range Row.move_cursor Row.at_cursor Row.back_space Row.put_char
    Row.insert_char Row.reset_from Row.clear_from_pos Row.clear Row.clear_to_end_of_row
    Row.all_spaces Row.get_text_string Row.set_pen_styles Pen.color_eq Pen.bool_eq Pen.set_styles
    Pen.is_default Pen.pen_equals Pen.set_char Pen.set_pen_state Pen.char_equals Pen.char_is_empty
    Charset.lookup Charset.char_or Charset.get_char_for_byte second_or_start
commanded-ran = (refl, refl, refl)

parse_cmd_repeated_example :
    (parse_cmd none 0x14 0x25 commanded ≡ some (true, forget_command commanded))
    × (is_repeated 0x14 0x25 (forget_command commanded) ≡ false)
    × (commanded.curr_ch_nr ≡ some (cmd_channel 0x14))
parse_cmd_repeated_example =
    parse_cmd_repeated none 0x14 0x25 start commanded commanded-ran.0 commanded-ran.1
      commanded-ran.2

abbrev placed : Cea608Parser
placed = second_or_start (parse_pac 0x14 0x70 start)

placed-ran :
    (is_pac 0x14 0x70 ≡ true)
    × (is_repeated 0x14 0x70 start ≡ false)
    × (parse_pac 0x14 0x70 start ≡ some (true, placed))
unfolding Parser.same_channel Parser.on_channel Parser.is_number Parser.is_repeated
    Parser.forget_command Parser.remember_command Parser.is_cmd Parser.misc_command
    Parser.cmd_channel Parser.run_command Parser.parse_cmd Parser.midrow_channel Parser.parse_midrow
    Parser.is_pac Parser.pac_channel Parser.channel_row Parser.pac_row Parser.pac_index
    Parser.interpret_pac Parser.parse_pac Parser.is_background Parser.background_color
    Parser.background_styles Parser.background_channel Parser.parse_background_attributes
    Parser.char_code1 Parser.char_codes Parser.forget_if Parser.parse_chars Parser.insert_into
    Parser.count Parser.add_chars Parser.find_command Parser.add_pair Parser.add_last
    Parser.add_pairs Parser.add_data Parser.reset Parser.cue_split_at_time Channel.mode_eq
    Channel.is_mode Channel.reset Channel.is_displayed Channel.write_memory Channel.on_screen
    Channel.set_pac Channel.set_bkg_data Channel.select_screen Channel.forget_roll_up
    Channel.leave_roll_up Channel.set_mode Channel.emit Channel.update_cue Channel.update_output
    Channel.output_data_update Channel.insert_all Channel.output_if_live Channel.insert_chars
    Channel.cc_rcl Channel.cc_bs Channel.cc_der Channel.cc_ru Channel.cc_fon Channel.cc_rdc
    Channel.cc_tr Channel.cc_edm Channel.cc_cr Channel.cc_enm Channel.flip_memories Channel.cc_eoc
    Channel.cc_to Channel.midrow_styles Channel.cc_midrow Channel.split_cue
    Channel.cue_split_at_time Screen.reset Screen.rows_equal Screen.equals Screen.copy_rows
    Screen.copy Screen.rows_are_empty Screen.is_empty Screen.on_row Screen.back_space
    Screen.clear_to_end_of_row Screen.insert_char Screen.set_pen Screen.move_cursor
    Screen.set_cursor Screen.is_rolling Screen.base_row Screen.pac_color Screen.indent_row
    Screen.pac_styles Screen.pac_row Screen.set_pac Screen.set_bkg_data Screen.set_roll_up_rows
    Screen.splice_start Screen.splice_rows Screen.roll_up_by Screen.roll_up Row.chars_equal
    Row.equals Row.copy Row.chars_are_empty Row.is_empty Row.clamp_column Row.set_cursor
    Row.update_cell Row.style_range Row.move_cursor Row.at_cursor Row.back_space Row.put_char
    Row.insert_char Row.reset_from Row.clear_from_pos Row.clear Row.clear_to_end_of_row
    Row.all_spaces Row.get_text_string Row.set_pen_styles Pen.color_eq Pen.bool_eq Pen.set_styles
    Pen.is_default Pen.pen_equals Pen.set_char Pen.set_pen_state Pen.char_equals Pen.char_is_empty
    Charset.lookup Charset.char_or Charset.get_char_for_byte second_or_start
placed-ran = (refl, refl, refl)

pac_row_total_example : (row : ℕ) × (pac_row 0x14 0x70 ≡ some row) × (1 ≤ row) × (row ≤ 15)
pac_row_total_example = pac_row_total 0x14 0x70 (omega arith) (omega arith) placed-ran.0

abbrev channel : Cea608Channel
channel = new_channel (some (record { has_update_data = false; has_new_cue = true }))

channel-IsValid : ChannelLaws.IsValid channel
channel-IsValid = ChannelLaws.new_channel-IsValid channel.output_filter

output_data_update_again_example :
    output_data_update (some 7) (output_data_update (some 5) channel)
    ≡ output_data_update (some 5) channel
output_data_update_again_example =
    output_data_update_again 5 7 (record { has_update_data = false; has_new_cue = true }) channel
      channel-IsValid refl refl

insert_chars_total_example :
    ChannelLaws.ChannelReturns (insert_chars (some 5) (0x48 ∷ 0x49 ∷ []) channel)
insert_chars_total_example = insert_chars_total (some 5) (0x48 ∷ 0x49 ∷ []) channel channel-IsValid

-- The cursor of the last row stands past the last column.
abbrev full_row : Row
full_row = record new_row { pos = 100 }

abbrev full_screen : CaptionScreen
full_screen = record new_screen { rows = set new_screen.rows 14 full_row }

abbrev full_channel : Cea608Channel
full_channel = record channel { displayed_memory = full_screen }

full_row-IsValid : RowLaws.IsValid full_row
full_row-IsValid = record { width = refl; within = omega arith }

full_screen-IsValid : ScreenLaws.IsValid full_screen
full_screen-IsValid = record {
  rows_valid =
      All-set RowLaws.IsValid new_screen.rows 14 full_row ScreenLaws.new_screen-IsValid.rows_valid
        full_row-IsValid;
  height = refl;
  curr_in = omega arith;
  window = tt;
}

full_channel-IsValid : ChannelLaws.IsValid full_channel
full_channel-IsValid = record {
  shown = full_screen-IsValid;
  hidden = channel-IsValid.hidden;
  last = channel-IsValid.last;
}

cc_midrow_throws_example :
    ((full_row.pos ≡ 100) × (cc_midrow 0x20 full_channel ≡ none))
    ⊎ ((full_row.pos < 100) × ((c' : Cea608Channel) × (cc_midrow 0x20 full_channel ≡ some c')))
cc_midrow_throws_example = cc_midrow_throws 0x20 full_channel full_row full_channel-IsValid refl

cc_to_throws_example :
    ((100 ≤ full_row.pos + 2) × (cc_to 2 full_channel ≡ none))
    ⊎ ((full_row.pos + 2 < 100) × ((c' : Cea608Channel) × (cc_to 2 full_channel ≡ some c')))
cc_to_throws_example = cc_to_throws 2 full_channel full_row full_channel-IsValid (omega arith) refl

abbrev pop_on_channel : Cea608Channel
pop_on_channel = record full_channel { mode = some pop_on; write_screen = non_displayed }

cc_eoc_example :
    ((cc_eoc (some 5) pop_on_channel).displayed_memory ≡ pop_on_channel.non_displayed_memory)
    × ((cc_eoc (some 5) pop_on_channel).non_displayed_memory ≡ pop_on_channel.displayed_memory)
    × ((cc_eoc (some 5) pop_on_channel).write_screen ≡ non_displayed)
    × ((cc_eoc (some 7) (cc_eoc (some 5) pop_on_channel)).displayed_memory
        ≡ pop_on_channel.displayed_memory)
    × ((cc_eoc (some 7) (cc_eoc (some 5) pop_on_channel)).non_displayed_memory
        ≡ pop_on_channel.non_displayed_memory)
cc_eoc_example = cc_eoc_lem (some 5) (some 7) pop_on_channel refl

-- Two columns before the end.
insert_row_text_example :
    (r' : Row) × (insert_row (0x48 ∷ 0x49 ∷ []) (record new_row { pos = 98 }) ≡ some r')
    × RowLaws.IsValid r'
    × (r'.pos ≡ 98 + 2)
    × (codes r'
        ≡ take 98 (codes new_row)
          ++ (map Charset.get_char_for_byte (0x48 ∷ 0x49 ∷ []) ++ drop (98 + 2) (codes new_row)))
insert_row_text_example =
    insert_row_text (0x48 ∷ 0x49 ∷ []) (record new_row { pos = 98 })
      (record { width = refl; within = omega arith }) (omega arith, (omega arith, tt)) (omega arith)

-- A window of two rows; the cursor of the last row marks it.
abbrev two_rows : CaptionScreen
two_rows = record full_screen { nr_roll_up_rows = some 2 }

roll_up_window_example :
    roll_up two_rows
    ≡ some
        (record two_rows { rows = (replicate 13 new_row ++ full_row ∷ []) ++ clear new_row ∷ [] })
roll_up_window_example =
    roll_up_window two_rows 2 (replicate 13 new_row) (full_row ∷ []) [] new_row refl refl refl refl

-- The second row is the current one in a window of four rows, so that row 13 of 0 to 14 is dropped.
abbrev high_window : CaptionScreen
high_window = record full_screen { nr_roll_up_rows = some 4; curr_row = 1 }

roll_up_too_high_example :
    roll_up high_window
    ≡ some (record high_window {
      rows = (new_row ∷ []) ++ clear new_row ∷ (replicate 12 new_row ++ full_row ∷ []);
    })
roll_up_too_high_example =
    roll_up_too_high high_window 4 (new_row ∷ []) (replicate 12 new_row) (full_row ∷ []) new_row
      refl refl refl refl (omega arith) (omega arith) refl

not_zero : bit_and 0x4a 0x7f ≢ 0
not_zero e = omega arith

add_data_odd_throws_example : add_data 5 (bytes ++ 0x4a ∷ []) start ≡ none
add_data_odd_throws_example = add_data_odd_throws 5 0x4a bytes start tt not_zero

bytes-IsStreamFor : IsStreamFor ch1 bytes
unfolding is_for
bytes-IsStreamFor = (refl, (refl, (refl, tt)))

no_channel : Parser.same_channel (opposite ch1) start.curr_ch_nr ≡ false
unfolding Parser.same_channel
no_channel = refl

add_data-IsQuiet_example :
    (channel_of (opposite ch1) typed ≡ channel_of (opposite ch1) start)
    × (Parser.same_channel (opposite ch1) typed.curr_ch_nr ≡ false)
add_data-IsQuiet_example =
    add_data-IsQuiet ch1 5 bytes start typed bytes-IsStreamFor no_channel typed-ran
