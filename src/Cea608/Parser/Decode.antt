-- ===== src/Cea608/Parser/Decode.antt =====
-- The tables of preamble codes.
use v4l2rtspserver.Base.{
  ℕ, ◌≤◌, ◌<◌, ◌≡◌, refl, Bool, true, false, not, Option, none, some, List, [], ◌∷◌, ◌==◌, arith,
  All, ◌||◌,
}
use v4l2rtspserver.Base.Bytes.{holds_below, holds_below_lem}
use v4l2rtspserver.Base.Yields.{Yields, some-Yields, if_Yields}
use v4l2rtspserver.Cea608.Charset.{lookup, rows_low_ch1, rows_high_ch1, rows_low_ch2, rows_high_ch2}
use v4l2rtspserver.Cea608.Parser.{
  ChannelNumber, ch1, ch2, is_pac, pac_channel, channel_row, pac_row, between,
}

abbrev pub IsRow : ℕ → Type 0
IsRow row = (1 ≤ row) × (row ≤ 15)

lookup-IsRow :
    (a : ℕ) (table : List (ℕ × ℕ))
    → All (λ (q : ℕ × ℕ). IsRow q.1) table
    → Yields IsRow (lookup a table)
unfolding lookup
lookup-IsRow a [] h = λ q e. cc
lookup-IsRow a ((k, row) ∷ table) h =
    if_Yields IsRow (a == k) (some-Yields IsRow row h.0) (lookup-IsRow a table h.1)

channel_row-IsRow : (n : ChannelNumber) (a b : ℕ) → Yields IsRow (channel_row n a b)
unfolding channel_row
channel_row-IsRow ch1 a b =
    if_Yields IsRow (between 0x40 b 0x5F) (lookup-IsRow a rows_low_ch1 (omega arith))
      (lookup-IsRow a rows_high_ch1 (omega arith))
channel_row-IsRow ch2 a b =
    if_Yields IsRow (between 0x40 b 0x5F) (lookup-IsRow a rows_low_ch2 (omega arith))
      (lookup-IsRow a rows_high_ch2 (omega arith))

pub pac_row-IsRow : (a b : ℕ) → Yields IsRow (pac_row a b)
unfolding pac_row
pac_row-IsRow a b = channel_row-IsRow (pac_channel a) a b

defined : Option ℕ → Bool
defined none = false
defined (some row) = true

defined-some : (o : Option ℕ) → defined o ≡ true → (row : ℕ) × (o ≡ some row)
unfolding defined
defined-some none h = cc
defined-some (some row) h = (row, refl)

-- Every pair of seven-bit bytes that is taken for a preamble code has a row.
rows_table :
    holds_below 128 (λ a. holds_below 128 (λ b. not (is_pac a b) || defined (pac_row a b))) ≡ true
unfolding holds_below is_pac defined pac_row channel_row pac_channel lookup
rows_table = refl

or-true : (x y : Bool) → (not x || y) ≡ true → x ≡ true → y ≡ true
or-true x y h k = ground arith

-- Every pair of seven-bit bytes that `parsePAC` takes for a preamble code names a row, from 1 up to 15.
pub pac_row_total :
    (a b : ℕ)
    → a < 128
    → b < 128
    → is_pac a b ≡ true
    → (row : ℕ) × (pac_row a b ≡ some row) × (1 ≤ row) × (row ≤ 15)
pac_row_total a b ha hb h =
    let at_a =
      holds_below_lem 128 (λ a. holds_below 128 (λ b. not (is_pac a b) || defined (pac_row a b))) a
        rows_table ha in
    let at_b = holds_below_lem 128 (λ b. not (is_pac a b) || defined (pac_row a b)) b at_a hb in
    let (row, e) =
      defined-some (pac_row a b) (or-true (is_pac a b) (defined (pac_row a b)) at_b h) in
    (row, e, (pac_row-IsRow a b row e).0, (pac_row-IsRow a b row e).1)
