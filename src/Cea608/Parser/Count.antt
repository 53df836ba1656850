-- ===== src/Cea608/Parser/Count.antt =====
-- The counters of `addData`: padding, characters, commands and the rest.
use v4l2rtspserver.Base.{
  ◌==◌, ℕ, ◌+◌, ◌*◌, ◌/◌, ◌≡◌, refl, ap, ◌∙◌, Bool, true, false, Option, none, some, List, [], ◌∷◌,
  length, ◌>>=◌, >>=-eq-some, arith, bit_and,
}
use mathlib.Core.Option.{some-injective}
use v4l2rtspserver.Base.Yields.{none-Yields, Yields, some-Yields, bind-Yields, if_Yields}
use v4l2rtspserver.Cea608.Channel
use v4l2rtspserver.Cea608.Channel.{Cea608Channel}
use v4l2rtspserver.Cea608.Parser.{
  ChannelNumber, ch1, ch2, Counters, Cea608Parser, on_channel, forget_command, remember_command,
  parse_cmd, cmd_channel, midrow_channel, pac_channel, pac_row, background_channel, parse_midrow,
  parse_pac, parse_background_attributes, char_codes, forget_if, parse_chars, insert_into, count,
  add_chars, count_other, count_char, count_cmd, count_padding, or_else, finish_pair, find_command,
  add_pair, add_last, add_pairs, add_data,
}

pub total : Counters → ℕ
total n = n.padding + n.char + n.cmd + n.other

abbrev Keeps : Counters → Cea608Parser → Type 0
Keeps n q = q.data_counters ≡ n

abbrev KeepsBoth : Counters → Bool × Cea608Parser → Type 0
KeepsBoth n q = q.1.data_counters ≡ n

-- A call on a channel, and what follows it, leave the counters alone.
on_channel-Keeps :
    (n : ChannelNumber) (f : Cea608Channel → Option Cea608Channel) (p : Cea608Parser)
    → Yields (Keeps p.data_counters) (on_channel n f p)
unfolding on_channel
on_channel-Keeps ch1 f p =
    bind-Yields (λ c. Unit {0}) (Keeps p.data_counters) (f p.channel1) _ (λ c e. tt)
      λ c u. some-Yields (Keeps p.data_counters) _ refl
on_channel-Keeps ch2 f p =
    bind-Yields (λ c. Unit {0}) (Keeps p.data_counters) (f p.channel2) _ (λ c e. tt)
      λ c u. some-Yields (Keeps p.data_counters) _ refl

found-Keeps :
    (n : ChannelNumber) (f : Cea608Channel → Option Cea608Channel)
    (after : Cea608Parser → Cea608Parser) (p : Cea608Parser)
    → ((q : Cea608Parser) → (after q).data_counters ≡ q.data_counters)
    → Yields (KeepsBoth p.data_counters) (on_channel n f p >>= λ q. some (true, after q))
found-Keeps n f after p same =
    bind-Yields (Keeps p.data_counters) (KeepsBoth p.data_counters) (on_channel n f p) _
      (on_channel-Keeps n f p)
      λ q e. some-Yields (KeepsBoth p.data_counters) (true, after q) (same q ∙ e)

forget-Keeps : (p : Cea608Parser) → (forget_command p).data_counters ≡ p.data_counters
unfolding forget_command
forget-Keeps p = refl

remember-Keeps :
    (a b : ℕ) (n : ChannelNumber) (p : Cea608Parser)
    → (remember_command a b n p).data_counters ≡ p.data_counters
unfolding remember_command
remember-Keeps a b n p = refl

parse_cmd-Keeps :
    (time : Option ℕ) (a b : ℕ) (p : Cea608Parser)
    → Yields (KeepsBoth p.data_counters) (parse_cmd time a b p)
unfolding parse_cmd
parse_cmd-Keeps time a b p =
    if_Yields (KeepsBoth p.data_counters) _
      (some-Yields (KeepsBoth p.data_counters) (false, p) refl)
      (if_Yields (KeepsBoth p.data_counters) _
        (some-Yields (KeepsBoth p.data_counters) (true, forget_command p) (forget-Keeps p))
        (found-Keeps (cmd_channel a) _ _ p (remember-Keeps a b (cmd_channel a))))

parse_midrow-Keeps :
    (a b : ℕ) (p : Cea608Parser) → Yields (KeepsBoth p.data_counters) (parse_midrow a b p)
unfolding parse_midrow
parse_midrow-Keeps a b p =
    if_Yields (KeepsBoth p.data_counters) _
      (found-Keeps (midrow_channel a) _ (λ q. q) p (λ q. refl))
      (some-Yields (KeepsBoth p.data_counters) (false, p) refl)

parse_pac-Keeps :
    (a b : ℕ) (p : Cea608Parser) → Yields (KeepsBoth p.data_counters) (parse_pac a b p)
unfolding parse_pac
parse_pac-Keeps a b p =
    if_Yields (KeepsBoth p.data_counters) _
      (some-Yields (KeepsBoth p.data_counters) (false, p) refl)
      (if_Yields (KeepsBoth p.data_counters) _
        (some-Yields (KeepsBoth p.data_counters) (true, forget_command p) (forget-Keeps p))
        (bind-Yields (λ row. Unit {0}) (KeepsBoth p.data_counters) (pac_row a b) _ (λ row e. tt)
          λ row u. found-Keeps (pac_channel a) _ _ p (remember-Keeps a b (pac_channel a))))

parse_background_attributes-Keeps :
    (a b : ℕ) (p : Cea608Parser)
    → Yields (KeepsBoth p.data_counters) (parse_background_attributes a b p)
unfolding parse_background_attributes
parse_background_attributes-Keeps a b p =
    if_Yields (KeepsBoth p.data_counters) _
      (some-Yields (KeepsBoth p.data_counters) (false, p) refl)
      (found-Keeps (background_channel a) _ forget_command p forget-Keeps)

or_else-Keeps :
    (n : Counters) (o : Option (Bool × Cea608Parser))
    (next : Cea608Parser → Option (Bool × Cea608Parser))
    → Yields (KeepsBoth n) o
    → ((p : Cea608Parser) → Yields (KeepsBoth p.data_counters) (next p))
    → Yields (KeepsBoth n) (or_else o next)
or_else-Keeps n none next h k = h
or_else-Keeps n (some (true, p)) next h k = h
or_else-Keeps n (some (false, p)) next h k = λ q e. k p q e ∙ h (false, p) refl

find_command-Keeps :
    (time : Option ℕ) (a b : ℕ) (p : Cea608Parser)
    → Yields (KeepsBoth p.data_counters) (find_command time a b p)
unfolding find_command
find_command-Keeps time a b p =
    or_else-Keeps p.data_counters
      (or_else (or_else (parse_cmd time a b p) (parse_midrow a b)) (parse_pac a b))
      (parse_background_attributes a b)
      (or_else-Keeps p.data_counters (or_else (parse_cmd time a b p) (parse_midrow a b))
        (parse_pac a b)
        (or_else-Keeps p.data_counters (parse_cmd time a b p) (parse_midrow a b)
          (parse_cmd-Keeps time a b p) (parse_midrow-Keeps a b))
        (parse_pac-Keeps a b))
      (parse_background_attributes-Keeps a b)

-- One more pair is counted.
abbrev CountsPair : Counters → Cea608Parser → Type 0
CountsPair n q = total q.data_counters ≡ total n + 2

count-CountsPair :
    (p : Cea608Parser)
    → CountsPair p.data_counters (count count_cmd p)
      × CountsPair p.data_counters (count count_char p)
      × CountsPair p.data_counters (count count_other p)
      × CountsPair p.data_counters (count count_padding p)
unfolding count total
count-CountsPair p = omega arith

insert_into-Keeps :
    (time : Option ℕ) (codes : List ℕ) (n : Option ChannelNumber) (p : Cea608Parser)
    → Yields (Keeps p.data_counters) (insert_into time codes n p)
unfolding insert_into
insert_into-Keeps time codes none p = some-Yields (Keeps p.data_counters) p refl
insert_into-Keeps time codes (some n) p = on_channel-Keeps n (Channel.insert_chars time codes) p

forget_if-Keeps :
    (codes : Option (List ℕ)) (p : Cea608Parser)
    → (forget_if codes p).data_counters ≡ p.data_counters
unfolding forget_if
forget_if-Keeps none p = refl
forget_if-Keeps (some codes) p = forget-Keeps p

add_chars-CountsPair :
    (time : Option ℕ) (codes : Option (List ℕ)) (p : Cea608Parser)
    → Yields (CountsPair p.data_counters) (add_chars time (codes, p))
unfolding add_chars
add_chars-CountsPair time none p = some-Yields (CountsPair p.data_counters) _ (count-CountsPair p).2
add_chars-CountsPair time (some codes) p =
    bind-Yields (Keeps p.data_counters) (CountsPair p.data_counters)
      (insert_into time codes p.curr_ch_nr p) _ (insert_into-Keeps time codes p.curr_ch_nr p)
      λ q e.
        some-Yields (CountsPair p.data_counters) (count count_char q)
          (rw (← e) (count-CountsPair q).1)

finish_pair-CountsPair :
    (n : Counters) (o : Option (Bool × Cea608Parser)) (chars : Cea608Parser → Option Cea608Parser)
    → Yields (KeepsBoth n) o
    → ((p : Cea608Parser) → Yields (CountsPair p.data_counters) (chars p))
    → Yields (CountsPair n) (finish_pair o chars)
finish_pair-CountsPair n none chars h k = λ q e. cc
finish_pair-CountsPair n (some (true, p)) chars h k =
    some-Yields (CountsPair n) (count count_cmd p) (rw (← h (true, p) refl) (count-CountsPair p).0)
finish_pair-CountsPair n (some (false, p)) chars h k = rw (← h (false, p) refl) (k p)

add_pair-CountsPair :
    (time : Option ℕ) (a b : ℕ) (p : Cea608Parser)
    → Yields (CountsPair p.data_counters) (add_pair time a b p)
unfolding add_pair parse_chars
add_pair-CountsPair time a b p =
    if_Yields (CountsPair p.data_counters) _
      (some-Yields (CountsPair p.data_counters) (count count_padding p) (count-CountsPair p).3)
      (finish_pair-CountsPair p.data_counters (find_command time a b p) _
        (find_command-Keeps time a b p)
        λ q r e.
          add_chars-CountsPair time (char_codes a b) (forget_if (char_codes a b) q) r e
          ∙ ap (λ (n : Counters). total n + 2) (forget_if-Keeps (char_codes a b) q))

add_last-CountsPair :
    (a : ℕ) (p : Cea608Parser) → Yields (CountsPair p.data_counters) (add_last a p)
unfolding add_last
add_last-CountsPair a p =
    if_Yields (CountsPair p.data_counters) (a == 0)
      (some-Yields (CountsPair p.data_counters) (count count_padding p) (count-CountsPair p).3)
      (none-Yields (CountsPair p.data_counters) none refl)

-- The bytes of a list in pairs, the last one perhaps half empty.
pub pairs : List ℕ → ℕ
pairs bytes = (length bytes + 1) / 2

add_pairs-total :
    (time : Option ℕ) (bytes : List ℕ) (p q : Cea608Parser)
    → add_pairs time bytes p ≡ some q
    → total q.data_counters ≡ total p.data_counters + 2 * pairs bytes
unfolding add_pairs pairs
add_pairs-total time [] p q h =
    omega (arith, ap (λ (r : Cea608Parser). total r.data_counters) (some-injective p q h))
add_pairs-total time (a ∷ []) p q h = omega (arith, add_last-CountsPair (bit_and a 0x7f) p q h)
add_pairs-total time (a ∷ b ∷ bytes) p q h =
    let (p', e, k) = >>=-eq-some (add_pair time (bit_and a 0x7f) (bit_and b 0x7f) p) _ h in
    omega (
      arith,
      add_pair-CountsPair time (bit_and a 0x7f) (bit_and b 0x7f) p p' e,
      add_pairs-total time bytes p' q k,
    )

-- When `addData` returns, each byte is counted under one of the four headings; an odd last byte counts
-- as a pair.
pub add_data-total :
    (t : ℕ) (bytes : List ℕ) (p q : Cea608Parser)
    → add_data t bytes p ≡ some q
    → total q.data_counters ≡ total p.data_counters + 2 * pairs bytes
unfolding add_data
add_data-total t bytes p q = add_pairs-total (some t) bytes (record p { last_time = some t }) q
