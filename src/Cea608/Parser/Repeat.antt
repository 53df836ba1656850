-- ===== src/Cea608/Parser/Repeat.antt =====
-- Commands are sent twice, and the second one is dropped.
use v4l2rtspserver.Base.{ℕ, ◌≡◌, refl, Bool, true, false, Option, some, ◌>>=◌, >>=-eq-some, arith}
use mathlib.Core.Path.{subst, ap}
use mathlib.Core.Option.{some-injective}
use v4l2rtspserver.Cea608.Parser.{
  ChannelNumber, Cea608Parser, on_channel, is_number, is_repeated, forget_command, remember_command,
  is_cmd, cmd_channel, run_command, parse_cmd, is_pac, pac_channel, pac_row, parse_pac,
}

-- The last command is this pair on this channel.
pub record Remembers (a b : ℕ) (n : ChannelNumber) (q : Cea608Parser) : Type 0 where
  pub repeated : is_repeated a b q ≡ true
  pub current : q.curr_ch_nr ≡ some n

remember-Remembers :
    (a b : ℕ) (n : ChannelNumber) (p : Cea608Parser) → Remembers a b n (remember_command a b n p)
unfolding is_repeated remember_command is_number
remember-Remembers a b n p = ground arith

forgotten : (a b : ℕ) (p : Cea608Parser) → is_repeated a b (forget_command p) ≡ false
unfolding is_repeated forget_command is_number
forgotten a b p = refl

-- What a command that ran leaves behind.
ran-Remembers :
    (a b : ℕ) (n : ChannelNumber) (m : Option Cea608Parser) (q : Cea608Parser)
    → ◌>>=◌ {B = Bool × Cea608Parser} m (λ p'. some (true, remember_command a b n p'))
      ≡ some (true, q)
    → Remembers a b n q
ran-Remembers a b n m q h =
    let (p', e, k) = >>=-eq-some m (λ p'. some (true, remember_command a b n p')) h in
    subst (Remembers a b n) (ap (λ (t : Bool × Cea608Parser). t.1) (some-injective _ _ k))
      (remember-Remembers a b n p')

-- After a command that was not a repetition and ran, the same pair only clears the memory of the last
-- command, after which it no longer counts as a repetition; the current channel is that of the command.
pub parse_cmd_repeated :
    (time : Option ℕ) (a b : ℕ) (p q : Cea608Parser)
    → is_cmd a b ≡ true
    → is_repeated a b p ≡ false
    → parse_cmd time a b p ≡ some (true, q)
    → (parse_cmd time a b q ≡ some (true, forget_command q))
      × (is_repeated a b (forget_command q) ≡ false)
      × (q.curr_ch_nr ≡ some (cmd_channel a))
unfolding parse_cmd
parse_cmd_repeated time a b p q c r h =
    let m : Remembers a b (cmd_channel a) q =
      ran-Remembers a b (cmd_channel a) (on_channel (cmd_channel a) (run_command time a b) p) q
        (rw (c, r) at h) in
    (rw (c, m.repeated), forgotten a b q, m.current)

-- The same for a preamble code: right after one that ran the same pair only clears the memory, the next
-- one counts as new again, and the current channel is that of the code.
parse_pac_repeated :
    (a b : ℕ) (p q : Cea608Parser)
    → is_pac a b ≡ true
    → is_repeated a b p ≡ false
    → parse_pac a b p ≡ some (true, q)
    → (parse_pac a b q ≡ some (true, forget_command q))
      × (is_repeated a b (forget_command q) ≡ false)
      × (q.curr_ch_nr ≡ some (pac_channel a))
unfolding parse_pac
parse_pac_repeated a b p q c r h =
    let (row, e, k) = >>=-eq-some (pac_row a b) _ (rw (c, r) at h) in
    let m : Remembers a b (pac_channel a) q = ran-Remembers a b (pac_channel a) _ q k in
    (rw (c, m.repeated), forgotten a b q, m.current)
