-- ===== src/Cea608/Parser/Isolation.antt =====
-- The two channels of a stream, and bytes that carry control codes of only one of them.
use v4l2rtspserver.Base.{
  ℕ, ◌≡◌, refl, ap, ◌∙◌, Bool, true, false, not, ◌&&◌, ◌||◌, Option, none, some, List, [], ◌∷◌,
  ◌==◌, leb, if◌then◌else◌, ◌>>=◌, bit_and, arith,
}
use v4l2rtspserver.Base.Yields.{none-Yields, Yields, some-Yields, bind-Yields}
use v4l2rtspserver.Cea608.Channel
use v4l2rtspserver.Cea608.Channel.{Cea608Channel}
use v4l2rtspserver.Cea608.Parser.{
  ChannelNumber, ch1, ch2, Counters, Cea608Parser, between, same_channel, on_channel,
  forget_command, remember_command, is_cmd, is_repeated, parse_cmd, cmd_channel, midrow_channel,
  is_pac, pac_channel, pac_row, is_background, background_channel, parse_midrow, parse_pac,
  parse_background_attributes, char_codes, forget_if, parse_chars, insert_into, count, add_chars,
  count_other, count_char, count_cmd, count_padding, or_else, finish_pair, find_command, add_pair,
  add_last, add_pairs, add_data,
}

unfoldable pub opposite : ChannelNumber → ChannelNumber
opposite ch1 = ch2
opposite ch2 = ch1

unfoldable pub channel_of : ChannelNumber → Cea608Parser → Cea608Channel
channel_of ch1 p = p.channel1
channel_of ch2 p = p.channel2

-- The first byte of a pair is no control code of the other channel: those of the first channel are 0x10 up
-- to 0x17, and those of the second 0x18 up to 0x1f.
unfoldable pub is_for : ChannelNumber → ℕ → Bool
is_for ch1 a = leb a 0x17 || leb 0x20 a
is_for ch2 a = leb a 0x0f || leb 0x18 a

abbrev pub IsStreamFor : ChannelNumber → List ℕ → Type 0
IsStreamFor n [] = Unit {0}
IsStreamFor n (a ∷ []) = Unit {0}
IsStreamFor n (a ∷ b ∷ bytes) = (is_for n (bit_and a 0x7f) ≡ true) × IsStreamFor n bytes

-- The other channel is `c` and not the current one.
pub record IsQuiet (n : ChannelNumber) (c : Cea608Channel) (p : Cea608Parser) : Type 0 where
  pub rests : channel_of (opposite n) p ≡ c
  pub aside : same_channel (opposite n) p.curr_ch_nr ≡ false

if_Yields_on {ℓ κ} :
    {A : Type ℓ} (P : A → Type κ) (b : Bool) {x y : Option A}
    → (b ≡ true → Yields P x)
    → (b ≡ false → Yields P y)
    → Yields P (if b then x else y)
if_Yields_on P true p q = p refl
if_Yields_on P false p q = q refl

is_true_of : (b : Bool) → not b ≡ false → b ≡ true
is_true_of true e = refl
is_true_of false e = cc

and_left : (b c : Bool) → (b && c) ≡ true → b ≡ true
and_left true c e = refl
and_left false c e = cc

cmd_channel-is_for :
    (n : ChannelNumber) (a b : ℕ) → is_for n a ≡ true → is_cmd a b ≡ true → cmd_channel a ≡ n
unfolding is_for is_cmd cmd_channel
cmd_channel-is_for ch1 a b h k = ground arith
cmd_channel-is_for ch2 a b h k = ground arith

midrow_channel-is_for :
    (n : ChannelNumber) (a : ℕ)
    → is_for n a ≡ true
    → (a == 0x11 || a == 0x19) ≡ true
    → midrow_channel a ≡ n
unfolding is_for midrow_channel
midrow_channel-is_for ch1 a h k = ground arith
midrow_channel-is_for ch2 a h k = ground arith

pac_channel-is_for :
    (n : ChannelNumber) (a b : ℕ) → is_for n a ≡ true → is_pac a b ≡ true → pac_channel a ≡ n
unfolding is_for is_pac pac_channel
pac_channel-is_for ch1 a b h k = ground arith
pac_channel-is_for ch2 a b h k = ground arith

background_channel-is_for :
    (n : ChannelNumber) (a b : ℕ)
    → is_for n a ≡ true
    → is_background a b ≡ true
    → background_channel a ≡ n
unfolding is_for is_background background_channel
background_channel-is_for ch1 a b h k = ground arith
background_channel-is_for ch2 a b h k = ground arith

channel_of_same :
    (m : ChannelNumber) (p q : Cea608Parser)
    → q.channel1 ≡ p.channel1
    → q.channel2 ≡ p.channel2
    → channel_of m q ≡ channel_of m p
unfolding channel_of
channel_of_same ch1 p q e f = e
channel_of_same ch2 p q e f = f

opposite_aside : (n : ChannelNumber) → same_channel (opposite n) (some n) ≡ false
unfolding same_channel opposite
opposite_aside ch1 = refl
opposite_aside ch2 = refl

-- A call on a channel changes neither the other channel nor which one is current.
abbrev Rests : ChannelNumber → Cea608Parser → Cea608Parser → Type 0
Rests n p q =
    (channel_of (opposite n) q ≡ channel_of (opposite n) p) × (q.curr_ch_nr ≡ p.curr_ch_nr)

on_channel-Rests :
    (n : ChannelNumber) (f : Cea608Channel → Option Cea608Channel) (p : Cea608Parser)
    → Yields (Rests n p) (on_channel n f p)
unfolding on_channel channel_of opposite
on_channel-Rests ch1 f p =
    bind-Yields (λ c. Unit {0}) (Rests ch1 p) (f p.channel1) _ (λ c e. tt)
      λ c u. some-Yields (Rests ch1 p) _ (refl, refl)
on_channel-Rests ch2 f p =
    bind-Yields (λ c. Unit {0}) (Rests ch2 p) (f p.channel2) _ (λ c e. tt)
      λ c u. some-Yields (Rests ch2 p) _ (refl, refl)

aside_lem : (n m : ChannelNumber) → same_channel (opposite n) (some m) ≡ false → m ≡ n
unfolding same_channel opposite
aside_lem ch1 ch1 e = refl
aside_lem ch1 ch2 e = cc
aside_lem ch2 ch1 e = cc
aside_lem ch2 ch2 e = refl

module _ (n : ChannelNumber) (c : Cea608Channel) where
  abbrev IsQuietBoth : Bool × Cea608Parser → Type 0
  IsQuietBoth r = IsQuiet n c r.1

  forget-IsQuiet : (p : Cea608Parser) → IsQuiet n c p → IsQuiet n c (forget_command p)
  unfolding forget_command
  forget-IsQuiet p v = record {
    rests = channel_of_same (opposite n) p _ refl refl ∙ v.rests;
    aside = v.aside;
  }

  remember-IsQuiet :
      (a b : ℕ) (p : Cea608Parser) → IsQuiet n c p → IsQuiet n c (remember_command a b n p)
  unfolding remember_command
  remember-IsQuiet a b p v = record {
    rests = channel_of_same (opposite n) p _ refl refl ∙ v.rests;
    aside = opposite_aside n;
  }

  count-IsQuiet :
      (f : Counters → Counters) (p : Cea608Parser) → IsQuiet n c p → IsQuiet n c (count f p)
  unfolding count
  count-IsQuiet f p v = record {
    rests = channel_of_same (opposite n) p _ refl refl ∙ v.rests;
    aside = v.aside;
  }

  on_channel-IsQuiet :
      (m : ChannelNumber) (f : Cea608Channel → Option Cea608Channel) (p : Cea608Parser)
      → m ≡ n
      → IsQuiet n c p
      → Yields (IsQuiet n c) (on_channel m f p)
  on_channel-IsQuiet m f p e v q h =
      let (rests, aside) = on_channel-Rests n f p q (rw e at h) in
      record { rests = rests ∙ v.rests; aside = ap (same_channel (opposite n)) aside ∙ v.aside }

  -- A parse function that takes the pair: its call, and what follows it.
  found-IsQuiet :
      (m : ChannelNumber) (f : Cea608Channel → Option Cea608Channel)
      (after : Cea608Parser → Cea608Parser) (p : Cea608Parser)
      → m ≡ n
      → ((q : Cea608Parser) → IsQuiet n c q → IsQuiet n c (after q))
      → IsQuiet n c p
      → Yields IsQuietBoth (on_channel m f p >>= λ q. some (true, after q))
  found-IsQuiet m f after p e keeps v =
      bind-Yields (IsQuiet n c) IsQuietBoth (on_channel m f p) _ (on_channel-IsQuiet m f p e v)
        λ q w. some-Yields IsQuietBoth (true, after q) (keeps q w)

  not_taken : (p : Cea608Parser) → IsQuiet n c p → Yields IsQuietBoth (some (false, p))
  not_taken p v = some-Yields IsQuietBoth (false, p) v

  dropped : (p : Cea608Parser) → IsQuiet n c p → Yields IsQuietBoth (some (true, forget_command p))
  dropped p v = some-Yields IsQuietBoth (true, forget_command p) (forget-IsQuiet p v)

  module _ (a b : ℕ) (h : is_for n a ≡ true) where
    remember_on :
        (m : ChannelNumber)
        → m ≡ n
        → (q : Cea608Parser) → IsQuiet n c q
        → IsQuiet n c (remember_command a b m q)
    remember_on m e q w = rw e (remember-IsQuiet a b q w)

    parse_cmd-IsQuiet :
        (time : Option ℕ) (p : Cea608Parser)
        → IsQuiet n c p
        → Yields IsQuietBoth (parse_cmd time a b p)
    unfolding parse_cmd
    parse_cmd-IsQuiet time p v =
        if_Yields_on IsQuietBoth (not (is_cmd a b)) (λ k. not_taken p v)
          λ k.
            let e = cmd_channel-is_for n a b h (is_true_of _ k) in
            if_Yields_on IsQuietBoth (is_repeated a b p) (λ r. dropped p v)
              λ r. found-IsQuiet (cmd_channel a) _ _ p e (remember_on (cmd_channel a) e) v

    parse_midrow-IsQuiet :
        (p : Cea608Parser) → IsQuiet n c p → Yields IsQuietBoth (parse_midrow a b p)
    unfolding parse_midrow
    parse_midrow-IsQuiet p v =
        if_Yields_on IsQuietBoth
          ((a == 0x11 || a == 0x19)
            && between 0x20 b 0x2f
            && same_channel (midrow_channel a) p.curr_ch_nr)
          (λ k.
            found-IsQuiet (midrow_channel a) _ (λ q. q) p
              (midrow_channel-is_for n a h (and_left _ _ (and_left _ _ k))) (λ q w. w) v)
          (λ k. not_taken p v)

    parse_pac-IsQuiet : (p : Cea608Parser) → IsQuiet n c p → Yields IsQuietBoth (parse_pac a b p)
    unfolding parse_pac
    parse_pac-IsQuiet p v =
        if_Yields_on IsQuietBoth (not (is_pac a b)) (λ k. not_taken p v)
          λ k.
            let e = pac_channel-is_for n a b h (is_true_of _ k) in
            if_Yields_on IsQuietBoth (is_repeated a b p) (λ r. dropped p v)
              λ r.
                bind-Yields (λ row. Unit {0}) IsQuietBoth (pac_row a b) _ (λ row s. tt)
                  λ row u. found-IsQuiet (pac_channel a) _ _ p e (remember_on (pac_channel a) e) v

    parse_background_attributes-IsQuiet :
        (p : Cea608Parser) → IsQuiet n c p → Yields IsQuietBoth (parse_background_attributes a b p)
    unfolding parse_background_attributes
    parse_background_attributes-IsQuiet p v =
        if_Yields_on IsQuietBoth (not (is_background a b)) (λ k. not_taken p v)
          λ k.
            found-IsQuiet (background_channel a) _ forget_command p
              (background_channel-is_for n a b h (is_true_of _ k)) forget-IsQuiet v

    or_else-IsQuiet :
        (o : Option (Bool × Cea608Parser)) (later : Cea608Parser → Option (Bool × Cea608Parser))
        → Yields IsQuietBoth o
        → ((p : Cea608Parser) → IsQuiet n c p → Yields IsQuietBoth (later p))
        → Yields IsQuietBoth (or_else o later)
    or_else-IsQuiet none later k l = k
    or_else-IsQuiet (some (true, p)) later k l = k
    or_else-IsQuiet (some (false, p)) later k l = l p (k (false, p) refl)

    find_command-IsQuiet :
        (time : Option ℕ) (p : Cea608Parser)
        → IsQuiet n c p
        → Yields IsQuietBoth (find_command time a b p)
    unfolding find_command
    find_command-IsQuiet time p v =
        or_else-IsQuiet _ _
          (or_else-IsQuiet _ _
            (or_else-IsQuiet _ _ (parse_cmd-IsQuiet time p v) parse_midrow-IsQuiet)
            parse_pac-IsQuiet)
          parse_background_attributes-IsQuiet

    forget_if-IsQuiet :
        (codes : Option (List ℕ)) (p : Cea608Parser)
        → IsQuiet n c p
        → IsQuiet n c (forget_if codes p)
    unfolding forget_if
    forget_if-IsQuiet none p v = v
    forget_if-IsQuiet (some codes) p v = forget-IsQuiet p v

    insert_into-IsQuiet :
        (time : Option ℕ) (codes : List ℕ) (m : Option ChannelNumber) (p : Cea608Parser)
        → same_channel (opposite n) m ≡ false
        → IsQuiet n c p
        → Yields (IsQuiet n c) (insert_into time codes m p)
    unfolding insert_into
    insert_into-IsQuiet time codes none p e v = some-Yields (IsQuiet n c) p v
    insert_into-IsQuiet time codes (some m) p e v =
        on_channel-IsQuiet m (Channel.insert_chars time codes) p (aside_lem n m e) v

    add_chars-IsQuiet :
        (time : Option ℕ) (codes : Option (List ℕ)) (p : Cea608Parser)
        → IsQuiet n c p
        → Yields (IsQuiet n c) (add_chars time (codes, p))
    unfolding add_chars
    add_chars-IsQuiet time none p v = some-Yields (IsQuiet n c) _ (count-IsQuiet count_other p v)
    add_chars-IsQuiet time (some codes) p v =
        bind-Yields (IsQuiet n c) (IsQuiet n c) (insert_into time codes p.curr_ch_nr p) _
          (insert_into-IsQuiet time codes p.curr_ch_nr p v.aside v)
          λ q w. some-Yields (IsQuiet n c) (count count_char q) (count-IsQuiet count_char q w)

    finish_pair-IsQuiet :
        (o : Option (Bool × Cea608Parser)) (chars : Cea608Parser → Option Cea608Parser)
        → Yields IsQuietBoth o
        → ((p : Cea608Parser) → IsQuiet n c p → Yields (IsQuiet n c) (chars p))
        → Yields (IsQuiet n c) (finish_pair o chars)
    finish_pair-IsQuiet none chars k l = λ q e. cc
    finish_pair-IsQuiet (some (true, p)) chars k l =
        some-Yields (IsQuiet n c) (count count_cmd p) (count-IsQuiet count_cmd p (k (true, p) refl))
    finish_pair-IsQuiet (some (false, p)) chars k l = l p (k (false, p) refl)

    add_pair-IsQuiet :
        (time : Option ℕ) (p : Cea608Parser)
        → IsQuiet n c p
        → Yields (IsQuiet n c) (add_pair time a b p)
    unfolding add_pair parse_chars
    add_pair-IsQuiet time p v =
        if_Yields_on (IsQuiet n c) _
          (λ k. some-Yields (IsQuiet n c) (count count_padding p) (count-IsQuiet count_padding p v))
          (λ k.
            finish_pair-IsQuiet (find_command time a b p) _ (find_command-IsQuiet time p v) λ q w.
              add_chars-IsQuiet time (char_codes a b) (forget_if (char_codes a b) q)
                (forget_if-IsQuiet (char_codes a b) q w))

  add_pairs-IsQuiet :
      (time : Option ℕ) (bytes : List ℕ) (p : Cea608Parser)
      → IsStreamFor n bytes
      → IsQuiet n c p
      → Yields (IsQuiet n c) (add_pairs time bytes p)
  unfolding add_pairs add_last
  add_pairs-IsQuiet time [] p h v = some-Yields (IsQuiet n c) p v
  add_pairs-IsQuiet time (a ∷ []) p h v =
      if_Yields_on (IsQuiet n c) _
        (λ k. some-Yields (IsQuiet n c) (count count_padding p) (count-IsQuiet count_padding p v))
        (λ k. none-Yields (IsQuiet n c) none refl)
  add_pairs-IsQuiet time (a ∷ b ∷ bytes) p (h, hs) v =
      bind-Yields (IsQuiet n c) (IsQuiet n c) (add_pair time (bit_and a 0x7f) (bit_and b 0x7f) p) _
        (add_pair-IsQuiet (bit_and a 0x7f) (bit_and b 0x7f) h time p v)
        λ q w. add_pairs-IsQuiet time bytes q hs w

-- When `addData` returns on a stream without control codes of the other channel, and that channel was
-- not the parser's current one, that channel is left as it was and is not the current one, whichever
-- of the two it is.
pub add_data-IsQuiet :
    (n : ChannelNumber) (t : ℕ) (bytes : List ℕ) (p q : Cea608Parser)
    → IsStreamFor n bytes
    → same_channel (opposite n) p.curr_ch_nr ≡ false
    → add_data t bytes p ≡ some q
    → (channel_of (opposite n) q ≡ channel_of (opposite n) p)
      × (same_channel (opposite n) q.curr_ch_nr ≡ false)
unfolding add_data
add_data-IsQuiet n t bytes p q h aside ran =
    let timed : Cea608Parser = record p { last_time = some t } in
    let start : IsQuiet n (channel_of (opposite n) p) timed = record {
      rests = channel_of_same (opposite n) p timed refl refl;
      aside = aside;
    } in
    let end = add_pairs-IsQuiet n (channel_of (opposite n) p) (some t) bytes timed h start q ran in
    (end.rests, end.aside)
