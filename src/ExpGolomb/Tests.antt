-- ===== src/ExpGolomb/Tests.antt =====
-- Runs of the reader on the bytes of a sequence parameter set.
use v4l2rtspserver.Base.{
  ℕ, ◌+◌, ◌*◌, ◌/◌, ◌≡◌, ◌≤◌, refl, true, false, Option, none, some, List, [], ◌∷◌, ◌++◌, length,
  inr, All, arith,
}
use v4l2rtspserver.Base.Bytes.{IsByte}
use v4l2rtspserver.Base.Int.{pattern32, ℤ, pos}
use v4l2rtspserver.ExpGolomb.{
  ExpGolomb, bits_to_take, shift_right, shift_left, shift_count, beyond, next_word, load_word,
  uint32, join_bits, int32, skip_zeros, first_one, read_on, new_reader, skip_bits, read_bits,
  skip_lz, read_ueg,
}
use v4l2rtspserver.ExpGolomb.Bits.{bits_of}
use v4l2rtspserver.ExpGolomb.Reader.{IsReader, bits_left, data_bits}
use v4l2rtspserver.ExpGolomb.Words.{Reads}
use v4l2rtspserver.ExpGolomb.Refine.{new_reader-IsReader, read_bits-Reads}
use v4l2rtspserver.ExpGolomb.Skips.{Drops, skip_bits-Drops, skip_bits_twice, skip_bits_throws}
use v4l2rtspserver.ExpGolomb.Codes.{ReadsCode, ue_code, read_ueg-ue_code}
use v4l2rtspserver.ExpGolomb.Sps.{◌>>=◌, read_sps, read_slice_type, has_chroma, ratio_of}
use v4l2rtspserver.ExpGolomb.Parses.{Parsed, Code}
use v4l2rtspserver.ExpGolomb.SpsParts.{
  with_lsb, in_table, pic_order_bits, crop_bits, ratio_bits, crop_of, pixel_ratio_of,
}
use v4l2rtspserver.ExpGolomb.SpsBits.{
  size_bits, chroma_bits, adaptive_bits, SpsFields, sps_bits, picture_of, read_sps-sps_bits,
}

-- 320 by 240 pixels, of the ratio 12 to 11.
abbrev set_bytes : List ℕ
set_bytes = 103 ∷ 66 ∷ 192 ∷ 30 ∷ 237 ∷ 2 ∷ 131 ∷ 246 ∷ 5 ∷ []

abbrev set_reader : ExpGolomb
set_reader = new_reader set_bytes

set_bytes-All : All IsByte set_bytes
set_bytes-All = (
  omega arith,
  (
    omega arith,
    (
      omega arith,
      (omega arith, (omega arith, (omega arith, (omega arith, (omega arith, (omega arith, tt)))))),
    ),
  ),
)

set_reader-IsReader : IsReader 0 9 set_reader
set_reader-IsReader = new_reader-IsReader set_bytes set_bytes-All

-- 0010 1000: two zeros, and 5 in three bits.
abbrev code_reader : ExpGolomb
code_reader = new_reader (40 ∷ [])

code_reader-IsReader : IsReader 0 1 code_reader
code_reader-IsReader = new_reader-IsReader (40 ∷ []) (omega arith, tt)

code_left : bits_left code_reader ≡ 0 ∷ 0 ∷ 1 ∷ 0 ∷ 1 ∷ 0 ∷ 0 ∷ 0 ∷ []
unfolding data_bits bits_of
code_left = refl

set_left-length : 12 ≤ length (bits_left set_reader)
unfolding data_bits bits_of
set_left-length = omega arith

read_bits-Reads_example : Reads 12 set_reader (read_bits 12 set_reader)
read_bits-Reads_example =
    read_bits-Reads 12 0 9 set_reader set_reader-IsReader (omega arith) (omega arith)
      set_left-length

skip_bits-Drops_example : Drops 5 set_reader (skip_bits 5 set_reader)
skip_bits-Drops_example =
    skip_bits-Drops 5 0 9 set_reader set_reader-IsReader (omega arith) (inr (omega arith))

skip_bits_twice_example : Drops (16 + 8 * (16 / 8)) set_reader (skip_bits 16 set_reader)
skip_bits_twice_example =
    skip_bits_twice 16 0 9 set_reader set_reader-IsReader (omega arith) (omega arith) (omega arith)

skip_bits_throws_example : skip_bits 3 (new_reader []) ≡ none
skip_bits_throws_example =
    skip_bits_throws 3 0 (new_reader []) (new_reader-IsReader [] tt) (omega arith) (omega arith)

code_left_of_4 : bits_left code_reader ≡ ue_code 2 4 ++ (0 ∷ 0 ∷ 0 ∷ [])
unfolding data_bits bits_of
code_left_of_4 = refl

read_ueg-ue_code_example : ReadsCode 4 (0 ∷ 0 ∷ 0 ∷ []) (read_ueg code_reader)
read_ueg-ue_code_example =
    read_ueg-ue_code 2 4 0 1 (0 ∷ 0 ∷ 0 ∷ []) code_reader (omega arith) (omega arith) (omega arith)
      code_reader-IsReader code_left_of_4

abbrev code_0 : {limit : ℕ} → Code limit
code_0 = record {
  zeros = 0;
  number = 0;
  few = omega arith;
  above = omega arith;
  below = omega arith;
}

abbrev set_fields : SpsFields
set_fields = record {
  nal_type = record { number = 103; small = omega arith };
  profile = record { number = 66; small = omega arith };
  constraints = record { number = 24; small = omega arith };
  reserved = record { number = 0; small = omega arith };
  level = record { number = 30; small = omega arith };
  id = code_0;
  chroma = none;
  max_frame_num = code_0;
  order = with_lsb (record {
    zeros = 1;
    number = 2;
    few = omega arith;
    above = omega arith;
    below = omega arith;
  });
  max_ref_frames = record {
    zeros = 1;
    number = 1;
    few = omega arith;
    above = omega arith;
    below = omega arith;
  };
  gaps_allowed = false;
  width_in_mbs_minus1 = record {
    zeros = 4;
    number = 19;
    few = omega arith;
    above = omega arith;
    below = omega arith;
  };
  height_in_units_minus1 = record {
    zeros = 3;
    number = 14;
    few = omega arith;
    above = omega arith;
    below = omega arith;
  };
  frame_mbs_only = none;
  direct_inference = true;
  crop = none;
  ratio = in_table (record { number = 2; small = omega arith }) (omega arith);
}

set_left : bits_left set_reader ≡ sps_bits set_fields ++ (1 ∷ [])
unfolding data_bits bits_of sps_bits size_bits pic_order_bits chroma_bits adaptive_bits crop_bits
    ratio_bits
set_left = refl

no_chroma : has_chroma (pos 66) ≡ false
unfolding has_chroma
no_chroma = refl

read_sps-sps_bits_example : Parsed (picture_of set_fields) (1 ∷ []) (read_sps set_reader)
read_sps-sps_bits_example =
    read_sps-sps_bits set_fields 0 9 set_reader (1 ∷ []) no_chroma set_reader-IsReader set_left
      (omega arith)

set_picture :
    picture_of set_fields
    ≡ record { width = pos 320; height = pos 240; pixel_ratio = (pos 12, pos 11) }
unfolding picture_of crop_of pixel_ratio_of ratio_of
set_picture = refl

abbrev number_of : Option (ℤ × ExpGolomb) → Option ℤ
number_of none = none
number_of (some (n, s)) = some n

-- A slice of type 7, and one that ends before its type.
slice_type_run :
    (number_of (read_slice_type (new_reader (101 ∷ 136 ∷ 128 ∷ []))) ≡ some (pos 7))
    × (read_slice_type (new_reader (101 ∷ [])) ≡ none)
unfolding read_slice_type ◌>>=◌ read_bits read_on bits_to_take shift_right shift_left shift_count
    beyond next_word load_word uint32 join_bits int32 pattern32 skip_lz skip_zeros first_one
    read_ueg
slice_type_run = (refl, refl)
