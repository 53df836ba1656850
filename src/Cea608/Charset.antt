-- ===== src/Cea608/Charset.antt =====
-- The character codes and the tables of cea-608-parser.js. A character is its UTF-16 code, and an
-- object with numeric keys is a list of pairs.
use v4l2rtspserver.Base.{ℕ, List, [], ◌∷◌, Option, none, some, ◌==◌, if◌then◌else◌}

-- `table[key]`, with `none` for undefined.
unfoldable pub lookup : ℕ → List (ℕ × ℕ) → Option ℕ
lookup k [] = none
lookup k ((j, v) ∷ m) = if k == j then some v else lookup k m

abbrev pub special_cea608_chars_codes : List (ℕ × ℕ)
special_cea608_chars_codes =
    (0x2a, 0xe1)
    ∷ (0x5c, 0xe9)
    ∷ (0x5e, 0xed)
    ∷ (0x5f, 0xf3)
    ∷ (0x60, 0xfa)
    ∷ (0x7b, 0xe7)
    ∷ (0x7c, 0xf7)
    ∷ (0x7d, 0xd1)
    ∷ (0x7e, 0xf1)
    ∷ (0x7f, 0x2588)
    ∷ (0x80, 0xae)
    ∷ (0x81, 0xb0)
    ∷ (0x82, 0xbd)
    ∷ (0x83, 0xbf)
    ∷ (0x84, 0x2122)
    ∷ (0x85, 0xa2)
    ∷ (0x86, 0xa3)
    ∷ (0x87, 0x266a)
    ∷ (0x88, 0xe0)
    ∷ (0x89, 0x20)
    ∷ (0x8a, 0xe8)
    ∷ (0x8b, 0xe2)
    ∷ (0x8c, 0xea)
    ∷ (0x8d, 0xee)
    ∷ (0x8e, 0xf4)
    ∷ (0x8f, 0xfb)
    ∷ (0x90, 0xc1)
    ∷ (0x91, 0xc9)
    ∷ (0x92, 0xd3)
    ∷ (0x93, 0xda)
    ∷ (0x94, 0xdc)
    ∷ (0x95, 0xfc)
    ∷ (0x96, 0x2018)
    ∷ (0x97, 0xa1)
    ∷ (0x98, 0x2a)
    ∷ (0x99, 0x2019)
    ∷ (0x9a, 0x2501)
    ∷ (0x9b, 0xa9)
    ∷ (0x9c, 0x2120)
    ∷ (0x9d, 0x2022)
    ∷ (0x9e, 0x201c)
    ∷ (0x9f, 0x201d)
    ∷ (0xa0, 0xc0)
    ∷ (0xa1, 0xc2)
    ∷ (0xa2, 0xc7)
    ∷ (0xa3, 0xc8)
    ∷ (0xa4, 0xca)
    ∷ (0xa5, 0xcb)
    ∷ (0xa6, 0xeb)
    ∷ (0xa7, 0xce)
    ∷ (0xa8, 0xcf)
    ∷ (0xa9, 0xef)
    ∷ (0xaa, 0xd4)
    ∷ (0xab, 0xd9)
    ∷ (0xac, 0xf9)
    ∷ (0xad, 0xdb)
    ∷ (0xae, 0xab)
    ∷ (0xaf, 0xbb)
    ∷ (0xb0, 0xc3)
    ∷ (0xb1, 0xe3)
    ∷ (0xb2, 0xcd)
    ∷ (0xb3, 0xcc)
    ∷ (0xb4, 0xec)
    ∷ (0xb5, 0xd2)
    ∷ (0xb6, 0xf2)
    ∷ (0xb7, 0xd5)
    ∷ (0xb8, 0xf5)
    ∷ (0xb9, 0x7b)
    ∷ (0xba, 0x7d)
    ∷ (0xbb, 0x5c)
    ∷ (0xbc, 0x5e)
    ∷ (0xbd, 0x5f)
    ∷ (0xbe, 0x7c)
    ∷ (0xbf, 0x223c)
    ∷ (0xc0, 0xc4)
    ∷ (0xc1, 0xe4)
    ∷ (0xc2, 0xd6)
    ∷ (0xc3, 0xf6)
    ∷ (0xc4, 0xdf)
    ∷ (0xc5, 0xa5)
    ∷ (0xc6, 0xa4)
    ∷ (0xc7, 0x2503)
    ∷ (0xc8, 0xc5)
    ∷ (0xc9, 0xe5)
    ∷ (0xca, 0xd8)
    ∷ (0xcb, 0xf8)
    ∷ (0xcc, 0x250f)
    ∷ (0xcd, 0x2513)
    ∷ (0xce, 0x2517)
    ∷ (0xcf, 0x251b)
    ∷ []

unfoldable pub char_or : ℕ → Option ℕ → ℕ
char_or code none = code
char_or code (some c) = c

unfoldable pub get_char_for_byte : ℕ → ℕ
get_char_for_byte byte = char_or byte (lookup byte special_cea608_chars_codes)

abbrev pub nr_rows : ℕ
nr_rows = 15

abbrev pub nr_cols : ℕ
nr_cols = 100

-- The screen's rows by the first byte of a preamble access code, for the low and the high half of
-- the second byte.
abbrev pub rows_low_ch1 : List (ℕ × ℕ)
rows_low_ch1 =
    (0x11, 1)
    ∷ (0x12, 3)
    ∷ (0x15, 5)
    ∷ (0x16, 7)
    ∷ (0x17, 9)
    ∷ (0x10, 11)
    ∷ (0x13, 12)
    ∷ (0x14, 14)
    ∷ []

abbrev pub rows_high_ch1 : List (ℕ × ℕ)
rows_high_ch1 =
    (0x11, 2) ∷ (0x12, 4) ∷ (0x15, 6) ∷ (0x16, 8) ∷ (0x17, 10) ∷ (0x13, 13) ∷ (0x14, 15) ∷ []

abbrev pub rows_low_ch2 : List (ℕ × ℕ)
rows_low_ch2 =
    (0x19, 1)
    ∷ (0x1A, 3)
    ∷ (0x1D, 5)
    ∷ (0x1E, 7)
    ∷ (0x1F, 9)
    ∷ (0x18, 11)
    ∷ (0x1B, 12)
    ∷ (0x1C, 14)
    ∷ []

abbrev pub rows_high_ch2 : List (ℕ × ℕ)
rows_high_ch2 =
    (0x19, 2) ∷ (0x1A, 4) ∷ (0x1D, 6) ∷ (0x1E, 8) ∷ (0x1F, 10) ∷ (0x1B, 13) ∷ (0x1C, 15) ∷ []
