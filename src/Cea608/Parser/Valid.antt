-- ===== src/Cea608/Parser/Valid.antt =====
-- The well-formedness of a parser, through each of its operations.
use v4l2rtspserver.Base.{
  ℕ, ◌-◌, ◌≡◌, refl, Bool, true, false, not, Option, none, some, List, [], ◌∷◌, ◌==◌, ◌>>=◌, arith,
  if◌then◌else◌, ◌&&◌, ◌||◌, bit_and,
}
use v4l2rtspserver.Base.Yields.{
  none-Yields, Yields, some-Yields, Returns-Yields, bind-Yields, if_Yields,
}
use v4l2rtspserver.Cea608.Channel
use v4l2rtspserver.Cea608.Channel.{Cea608Channel, OutputFilter}
use v4l2rtspserver.Cea608.Channel.Valid
use v4l2rtspserver.Cea608.Channel.Valid.{ChannelSound}
use v4l2rtspserver.Cea608.Channel.Commands
use v4l2rtspserver.Cea608.Parser.Decode.{IsRow, pac_row-IsRow}
use v4l2rtspserver.Cea608.Parser.{
  ChannelNumber, ch1, ch2, Counters, Cea608Parser, new_parser, on_channel, is_repeated,
  forget_command, remember_command, is_cmd, misc_command, cmd_channel, run_command, parse_cmd,
  midrow_channel, parse_midrow, is_pac, pac_channel, pac_row, interpret_pac, parse_pac,
  is_background, background_styles, background_channel, parse_background_attributes, char_codes,
  forget_if, parse_chars, insert_into, count, add_chars, count_other, count_char, count_cmd,
  count_padding, or_else, finish_pair, find_command, add_pair, add_last, add_pairs, add_data, reset,
  cue_split_at_time,
}

pub record IsValid (p : Cea608Parser) : Type 0 where
  pub first : Valid.IsValid p.channel1
  pub second : Valid.IsValid p.channel2

abbrev ParserSound : Option Cea608Parser → Type 0
ParserSound o = Yields IsValid o

-- The parser of a pair that says whether a command was found.
abbrev HasValid : Bool × Cea608Parser → Type 0
HasValid q = IsValid q.1

pub new_parser-IsValid : (out1 out2 : Option OutputFilter) → IsValid (new_parser out1 out2)
new_parser-IsValid out1 out2 = record {
  first = Valid.new_channel-IsValid out1;
  second = Valid.new_channel-IsValid out2;
}

on_channel-Sound :
    (n : ChannelNumber) (f : Cea608Channel → Option Cea608Channel) (p : Cea608Parser)
    → IsValid p
    → ((c : Cea608Channel) → Valid.IsValid c → ChannelSound (f c))
    → ParserSound (on_channel n f p)
unfolding on_channel
on_channel-Sound ch1 f p v sound =
    bind-Yields Valid.IsValid IsValid (f p.channel1) _ (sound p.channel1 v.first)
      λ c w. some-Yields IsValid _ (record { first = w; second = v.second })
on_channel-Sound ch2 f p v sound =
    bind-Yields Valid.IsValid IsValid (f p.channel2) _ (sound p.channel2 v.second)
      λ c w. some-Yields IsValid _ (record { first = v.first; second = w })

misc_command-Sound :
    (time : Option ℕ) (b : ℕ) (c : Cea608Channel)
    → Valid.IsValid c
    → ChannelSound (misc_command time b c)
unfolding misc_command
misc_command-Sound time b c v = branch (b == 0x20) (returns (Commands.cc_rcl-IsValid c v)) (
    branch (b == 0x21) (total (Commands.cc_bs_total time c v)) (
      branch (b == 0x22) (returns v) (
        branch (b == 0x23) (returns v) (
          branch (b == 0x24) (total (Commands.cc_der_total time c v)) (
            branch (b == 0x25) (total (Commands.cc_ru_total 2 c (omega arith) (omega arith) v)) (
              branch (b == 0x26) (total (Commands.cc_ru_total 3 c (omega arith) (omega arith) v)) (
                branch (b == 0x27) (total (Commands.cc_ru_total 4 c (omega arith) (omega arith) v))
                  (branch (b == 0x28) (Commands.cc_fon-Sound c v) (
                    branch (b == 0x29) (returns (Commands.cc_rdc-IsValid c v)) (
                      branch (b == 0x2A) (returns (Commands.cc_tr-IsValid c v)) (
                        branch (b == 0x2B) (returns (Commands.cc_tr-IsValid c v)) (
                          branch (b == 0x2C) (returns (Commands.cc_edm-IsValid time c v)) (
                            branch (b == 0x2D) (total (Commands.cc_cr_total time c v)) (
                              branch (b == 0x2E) (returns (Commands.cc_enm-IsValid c v)) (
                                branch (b == 0x2F) (returns (Commands.cc_eoc-IsValid time c v))
                                  (returns v))))))))))))))))
  where
    branch :
        (t : Bool) {x y : Option Cea608Channel}
        → ChannelSound x
        → ChannelSound y
        → ChannelSound (if t then x else y)
    branch t x y = if_Yields Valid.IsValid t x y

    returns : {d : Cea608Channel} → Valid.IsValid d → ChannelSound (some d)
    returns {d} w = some-Yields Valid.IsValid d w

    total : {o : Option Cea608Channel} → Valid.ChannelReturns o → ChannelSound o
    total {o} w = Returns-Yields Valid.IsValid o w

run_command-Sound :
    (time : Option ℕ) (a b : ℕ) (c : Cea608Channel)
    → Valid.IsValid c
    → ChannelSound (run_command time a b c)
unfolding run_command
run_command-Sound time a b c v =
    if_Yields Valid.IsValid (a == 0x14 || a == 0x1C) (misc_command-Sound time b c v)
      (Commands.cc_to-Sound (b - 0x20) c v)

forget_command-IsValid : (p : Cea608Parser) → IsValid p → IsValid (forget_command p)
unfolding forget_command
forget_command-IsValid p v = record { first = v.first; second = v.second }

remember_command-IsValid :
    (a b : ℕ) (n : ChannelNumber) (p : Cea608Parser)
    → IsValid p
    → IsValid (remember_command a b n p)
unfolding remember_command
remember_command-IsValid a b n p v = record { first = v.first; second = v.second }

-- A command of one channel that is then remembered or forgotten.
found-Sound :
    (n : ChannelNumber) (f : Cea608Channel → Option Cea608Channel)
    (after : Cea608Parser → Cea608Parser) (p : Cea608Parser)
    → IsValid p
    → ((c : Cea608Channel) → Valid.IsValid c → ChannelSound (f c))
    → ((q : Cea608Parser) → IsValid q → IsValid (after q))
    → Yields HasValid (on_channel n f p >>= λ q. some (true, after q))
found-Sound n f after p v sound keeps =
    bind-Yields IsValid HasValid (on_channel n f p) _ (on_channel-Sound n f p v sound)
      λ q w. some-Yields HasValid (true, after q) (keeps q w)

parse_cmd-Sound :
    (time : Option ℕ) (a b : ℕ) (p : Cea608Parser)
    → IsValid p
    → Yields HasValid (parse_cmd time a b p)
unfolding parse_cmd
parse_cmd-Sound time a b p v =
    if_Yields HasValid (not (is_cmd a b)) (some-Yields HasValid (false, p) v) (
      if_Yields HasValid (is_repeated a b p)
        (some-Yields HasValid (true, forget_command p) (forget_command-IsValid p v))
        (found-Sound (cmd_channel a) (run_command time a b) (remember_command a b (cmd_channel a)) p
          v (run_command-Sound time a b) (remember_command-IsValid a b (cmd_channel a))))

parse_midrow-Sound : (a b : ℕ) (p : Cea608Parser) → IsValid p → Yields HasValid (parse_midrow a b p)
unfolding parse_midrow
parse_midrow-Sound a b p v =
    if_Yields HasValid _
      (found-Sound (midrow_channel a) (Channel.cc_midrow b) (λ q. q) p v
        (Commands.cc_midrow-Sound b) (λ q w. w))
      (some-Yields HasValid (false, p) v)

parse_pac-Sound : (a b : ℕ) (p : Cea608Parser) → IsValid p → Yields HasValid (parse_pac a b p)
unfolding parse_pac
parse_pac-Sound a b p v =
    if_Yields HasValid (not (is_pac a b)) (some-Yields HasValid (false, p) v) (
      if_Yields HasValid (is_repeated a b p)
        (some-Yields HasValid (true, forget_command p) (forget_command-IsValid p v))
        (bind-Yields IsRow HasValid (pac_row a b) _ (pac_row-IsRow a b) λ row h.
          found-Sound (pac_channel a) (Channel.set_pac (interpret_pac row b))
            (remember_command a b (pac_channel a)) p v
            (λ c w.
              unfold interpret_pac in Commands.set_pac-Sound (interpret_pac row b) c h.0 h.1 w)
            (remember_command-IsValid a b (pac_channel a))))

parse_background_attributes-Sound :
    (a b : ℕ) (p : Cea608Parser) → IsValid p → Yields HasValid (parse_background_attributes a b p)
unfolding parse_background_attributes
parse_background_attributes-Sound a b p v =
    if_Yields HasValid (not (is_background a b)) (some-Yields HasValid (false, p) v) (
      found-Sound (background_channel a) (Channel.set_bkg_data (background_styles a b))
        forget_command p v (Commands.set_bkg_data-Sound (background_styles a b))
        forget_command-IsValid)

or_else-Sound :
    (o : Option (Bool × Cea608Parser)) (next : Cea608Parser → Option (Bool × Cea608Parser))
    → Yields HasValid o
    → ((p : Cea608Parser) → IsValid p → Yields HasValid (next p))
    → Yields HasValid (or_else o next)
or_else-Sound none next h k = h
or_else-Sound (some (true, p)) next h k = h
or_else-Sound (some (false, p)) next h k = k p (h (false, p) refl)

find_command-Sound :
    (time : Option ℕ) (a b : ℕ) (p : Cea608Parser)
    → IsValid p
    → Yields HasValid (find_command time a b p)
unfolding find_command
find_command-Sound time a b p v =
    or_else-Sound (or_else (or_else (parse_cmd time a b p) (parse_midrow a b)) (parse_pac a b))
      (parse_background_attributes a b)
      (or_else-Sound (or_else (parse_cmd time a b p) (parse_midrow a b)) (parse_pac a b)
        (or_else-Sound (parse_cmd time a b p) (parse_midrow a b) (parse_cmd-Sound time a b p v)
          (parse_midrow-Sound a b))
        (parse_pac-Sound a b))
      (parse_background_attributes-Sound a b)

count-IsValid : (f : Counters → Counters) (p : Cea608Parser) → IsValid p → IsValid (count f p)
unfolding count
count-IsValid f p v = record { first = v.first; second = v.second }

insert_into-Sound :
    (time : Option ℕ) (codes : List ℕ) (n : Option ChannelNumber) (p : Cea608Parser)
    → IsValid p
    → ParserSound (insert_into time codes n p)
unfolding insert_into
insert_into-Sound time codes none p v = some-Yields IsValid p v
insert_into-Sound time codes (some n) p v =
    on_channel-Sound n (Channel.insert_chars time codes) p v
      λ c w. Returns-Yields Valid.IsValid _ (Commands.insert_chars_total time codes c w)

add_chars-Sound :
    (time : Option ℕ) (codes : Option (List ℕ)) (p : Cea608Parser)
    → IsValid p
    → ParserSound (add_chars time (codes, p))
unfolding add_chars
add_chars-Sound time none p v = some-Yields IsValid _ (count-IsValid count_other p v)
add_chars-Sound time (some codes) p v =
    bind-Yields IsValid IsValid (insert_into time codes p.curr_ch_nr p) _
      (insert_into-Sound time codes p.curr_ch_nr p v)
      λ q w. some-Yields IsValid (count count_char q) (count-IsValid count_char q w)

forget_if-IsValid :
    (codes : Option (List ℕ)) (p : Cea608Parser) → IsValid p → IsValid (forget_if codes p)
unfolding forget_if
forget_if-IsValid none p v = v
forget_if-IsValid (some codes) p v = forget_command-IsValid p v

finish_pair-Sound :
    (o : Option (Bool × Cea608Parser)) (chars : Cea608Parser → Option Cea608Parser)
    → Yields HasValid o
    → ((p : Cea608Parser) → IsValid p → ParserSound (chars p))
    → ParserSound (finish_pair o chars)
finish_pair-Sound none chars h k = λ q e. cc
finish_pair-Sound (some (true, p)) chars h k =
    some-Yields IsValid (count count_cmd p) (count-IsValid count_cmd p (h (true, p) refl))
finish_pair-Sound (some (false, p)) chars h k = k p (h (false, p) refl)

add_pair-Sound :
    (time : Option ℕ) (a b : ℕ) (p : Cea608Parser) → IsValid p → ParserSound (add_pair time a b p)
unfolding add_pair parse_chars
add_pair-Sound time a b p v =
    if_Yields IsValid (a == 0 && b == 0)
      (some-Yields IsValid (count count_padding p) (count-IsValid count_padding p v))
      (finish_pair-Sound (find_command time a b p) _ (find_command-Sound time a b p v) λ q w.
        add_chars-Sound time (char_codes a b) (forget_if (char_codes a b) q)
          (forget_if-IsValid (char_codes a b) q w))

add_last-Sound : (a : ℕ) (p : Cea608Parser) → IsValid p → Yields IsValid (add_last a p)
unfolding add_last
add_last-Sound a p v =
    if_Yields IsValid (a == 0)
      (some-Yields IsValid (count count_padding p) (count-IsValid count_padding p v))
      (none-Yields IsValid none refl)

add_pairs-Sound :
    (time : Option ℕ) (bytes : List ℕ) (p : Cea608Parser)
    → IsValid p
    → ParserSound (add_pairs time bytes p)
unfolding add_pairs
add_pairs-Sound time [] p v = some-Yields IsValid p v
add_pairs-Sound time (a ∷ []) p v = add_last-Sound (bit_and a 0x7f) p v
add_pairs-Sound time (a ∷ b ∷ bytes) p v =
    bind-Yields IsValid IsValid (add_pair time (bit_and a 0x7f) (bit_and b 0x7f) p) _
      (add_pair-Sound time (bit_and a 0x7f) (bit_and b 0x7f) p v) (add_pairs-Sound time bytes)

-- When `addData` returns from a valid parser, the parser is valid: in both channels every screen has 15
-- rows of 100 columns, its current row is one of them, each cursor stands on a column or right behind the
-- last one, and a roll-up window is 1 to 15 rows high.
pub add_data-IsValid :
    (t : ℕ) (bytes : List ℕ) (p q : Cea608Parser)
    → IsValid p
    → add_data t bytes p ≡ some q
    → IsValid q
unfolding add_data
add_data-IsValid t bytes p q v =
    add_pairs-Sound (some t) bytes (record p { last_time = some t })
      (record { first = v.first; second = v.second }) q

pub reset-IsValid : (p : Cea608Parser) → IsValid p → IsValid (reset p)
unfolding reset
reset-IsValid p v = record {
  first = Valid.reset-IsValid p.channel1 v.first;
  second = Valid.reset-IsValid p.channel2 v.second;
}

pub cue_split_at_time-IsValid :
    (t : ℕ) (p : Cea608Parser) → IsValid p → IsValid (cue_split_at_time t p)
unfolding cue_split_at_time
cue_split_at_time-IsValid t p v = record {
  first = Commands.cue_split_at_time-IsValid t p.channel1 v.first;
  second = Commands.cue_split_at_time-IsValid t p.channel2 v.second;
}
