-- ===== src/ExpGolomb/SpsBits.antt =====
-- A sequence parameter set as its bits, and what `readSPS` makes of them.
use v4l2rtspserver.Base.{
  ℕ, ◌+◌, ◌*◌, ◌==◌, ◌≡◌, ◌≤◌, refl, Bool, true, false, Option, none, some, List, [], ◌++◌, length,
  arith, if◌then◌else◌,
}
use v4l2rtspserver.Base.Int.{ℤ, pos, is_nat, ◌+ℤ◌, ◌-ℤ◌, ◌*ℤ◌}
use v4l2rtspserver.ExpGolomb.{ExpGolomb, skip_bits}
use v4l2rtspserver.ExpGolomb.Bits.{length-bits_of}
use v4l2rtspserver.ExpGolomb.Reader.{IsReader, bits_left}
use v4l2rtspserver.ExpGolomb.Sps.{
  skipping, when, has_chroma, skip_chroma, skip_chroma_depths, Sps, sps_of, read_picture, read_sps,
}
use v4l2rtspserver.ExpGolomb.Parses.{
  Parsed, Parses, pure-Parses, bind-Parses, read_bits-Parses, bit, bit-lt, read_boolean-Parses,
  skip_bits-Parses, Code, code_bits, read_ueg-Parses, skip_ueg-Parses,
}
use v4l2rtspserver.ExpGolomb.SpsParts.{
  Field, field_bits, flag, PicOrder, pic_order_bits, le_30, skip_flag, skip_pic_order-Parses,
  CropCodes, crop_bits, crop_of, read_crop-Parses, Ratio, ratio_bits, pixel_ratio_of, read_field,
  read_byte, read_pixel_ratio-Parses,
}

-- The chroma format, which is 3 with one flag more, the bit depths, and no scaling matrix.
pub data ChromaFormat : Type 0 where
  format_3 : Bool → ChromaFormat
  other_format : (c : Code 30) → (c.number == 3) ≡ false → ChromaFormat

pub record Chroma : Type 0 where
  pub format : ChromaFormat
  pub luma_depth : Code 6
  pub chroma_depth : Code 6
  pub transform_bypass : Bool

abbrev pub code_of_3 : Code 30
code_of_3 = record {
  zeros = 2;
  number = 3;
  few = omega arith;
  above = omega arith;
  below = omega arith;
}

abbrev pub chroma_rest : Chroma → List ℕ
chroma_rest c =
    code_bits c.luma_depth
    ++ (code_bits c.chroma_depth ++ (flag c.transform_bypass ++ (flag false ++ [])))

unfoldable pub chroma_bits_of : ChromaFormat → Chroma → List ℕ
chroma_bits_of (format_3 separate) c = code_bits code_of_3 ++ (flag separate ++ chroma_rest c)
chroma_bits_of (other_format format _) c = code_bits format ++ ([] ++ chroma_rest c)

unfoldable pub chroma_bits : Option Chroma → List ℕ
chroma_bits none = []
chroma_bits (some c) = chroma_bits_of c.format c

abbrev pub is_some : Option Chroma → Bool
is_some none = false
is_some (some _) = true

-- What a set says, in the order of its bits.
pub record SpsFields : Type 0 where
  pub nal_type : Field 8
  pub profile : Field 8
  pub constraints : Field 5
  pub reserved : Field 3
  pub level : Field 8
  pub id : Code 6
  pub chroma : Option Chroma
  pub max_frame_num : Code 6
  pub order : PicOrder
  pub max_ref_frames : Code 6
  pub gaps_allowed : Bool
  pub width_in_mbs_minus1 : Code 30
  pub height_in_units_minus1 : Code 30
  pub frame_mbs_only : Option Bool
  pub direct_inference : Bool
  pub crop : Option CropCodes
  pub ratio : Ratio

-- Interlaced sets have one more flag.
abbrev pub is_only_frames : Option Bool → Bool
is_only_frames none = true
is_only_frames (some adaptive) = false

unfoldable pub adaptive_bits : Option Bool → List ℕ
adaptive_bits none = []
adaptive_bits (some adaptive) = flag adaptive

unfoldable pub size_bits : SpsFields → List ℕ
size_bits f =
    code_bits f.width_in_mbs_minus1
    ++ (code_bits f.height_in_units_minus1
        ++ (flag (is_only_frames f.frame_mbs_only)
            ++ (adaptive_bits f.frame_mbs_only
                ++ (flag f.direct_inference ++ (crop_bits f.crop ++ (ratio_bits f.ratio ++ []))))))

unfoldable pub sps_bits : SpsFields → List ℕ
sps_bits f =
    field_bits f.nal_type
    ++ (field_bits f.profile
        ++ (field_bits f.constraints
            ++ (field_bits f.reserved
                ++ (field_bits f.level
                    ++ (code_bits f.id
                        ++ (chroma_bits f.chroma
                            ++ (code_bits f.max_frame_num
                                ++ (pic_order_bits f.order
                                    ++ (code_bits f.max_ref_frames
                                        ++ (flag f.gaps_allowed ++ size_bits f))))))))))

-- The size of the pictures: 16 pixels to a macroblock, two fields to an interlaced frame, less the cropping
-- by two columns and by two lines, of a field.
unfoldable pub picture_of : SpsFields → Sps
picture_of f =
    let crop = crop_of f.crop in
    let lines : ℕ = if is_only_frames f.frame_mbs_only then 16 else 32 in
    let cropped : ℕ = if is_only_frames f.frame_mbs_only then 2 else 4 in
    record {
      width =
          pos ((f.width_in_mbs_minus1.number + 1) * 16)
          -ℤ crop.left *ℤ pos 2
          -ℤ crop.right *ℤ pos 2;
      height =
          pos (lines * (f.height_in_units_minus1.number + 1))
          -ℤ pos cropped *ℤ (crop.top +ℤ crop.bottom);
      pixel_ratio = pixel_ratio_of f.ratio;
    }

chroma_rest-Parses :
    (c : Chroma) (format : ℤ) → Parses (skip_chroma_depths format) (chroma_rest c) tt
unfolding skip_chroma_depths
chroma_rest-Parses c format = bind-Parses _ _ _ (skip_ueg-Parses c.luma_depth) (
    bind-Parses _ _ _ (skip_ueg-Parses c.chroma_depth) (
      bind-Parses _ _ _ (skip_flag c.transform_bypass)
        (bind-Parses _ _ _ (read_boolean-Parses false) (pure-Parses tt))))

chroma_format-Parses :
    (format : ChromaFormat) (c : Chroma) → Parses skip_chroma (chroma_bits_of format c) tt
unfolding skip_chroma chroma_bits_of
chroma_format-Parses (format_3 separate) c =
    bind-Parses _ (code_bits code_of_3) _ (read_ueg-Parses code_of_3 le_30)
      (bind-Parses _ _ _ (skip_flag separate) (chroma_rest-Parses c (pos 3)))
chroma_format-Parses (other_format format e) c =
    bind-Parses _ _ _ (read_ueg-Parses format le_30)
      (bind-Parses _ [] _ (rw e (pure-Parses tt)) (chroma_rest-Parses c (pos format.number)))

chroma-Parses :
    (p : ℤ) (c : Option Chroma)
    → has_chroma p ≡ is_some c
    → Parses (when (has_chroma p) skip_chroma) (chroma_bits c) tt
unfolding chroma_bits
chroma-Parses p none e = rw e (pure-Parses tt)
chroma-Parses p (some c) e = rw e (chroma_format-Parses c.format c)

adaptive-Parses :
    (m : Option Bool)
    → Parses
        (when (is_nat (pos (bit (is_only_frames m))) 0) (skipping (skip_bits 1)))
        (adaptive_bits m)
        tt
unfolding adaptive_bits
adaptive-Parses none = pure-Parses tt
adaptive-Parses (some adaptive) = skip_flag adaptive

mbs_size : (w : ℕ) → (pos w +ℤ pos 1) *ℤ pos 16 ≡ pos ((w + 1) * 16)
mbs_size w = ground arith

lines_size :
    (h : ℕ) (m : Option Bool)
    → (pos 2 -ℤ pos (bit (is_only_frames m))) *ℤ (pos h +ℤ pos 1) *ℤ pos 16
      ≡ pos ((if is_only_frames m then 16 else 32) * (h + 1))
lines_size h none = ground arith
lines_size h (some _) = ground arith

crop_factor :
    (m : Option Bool)
    → (if is_nat (pos (bit (is_only_frames m))) 0 then pos 4 else pos 2)
      ≡ pos (if is_only_frames m then 2 else 4)
crop_factor none = refl
crop_factor (some _) = refl

sps_of-picture_of :
    (f : SpsFields)
    → sps_of
        (pos f.width_in_mbs_minus1.number)
        (pos f.height_in_units_minus1.number)
        (pos (bit (is_only_frames f.frame_mbs_only)))
        (crop_of f.crop)
        (pixel_ratio_of f.ratio)
      ≡ picture_of f
unfolding sps_of picture_of
sps_of-picture_of f = rw (
  mbs_size f.width_in_mbs_minus1.number,
  lines_size f.height_in_units_minus1.number f.frame_mbs_only,
  crop_factor f.frame_mbs_only,
)

-- From the size of the picture on.
read_size : (f : SpsFields) → Parses read_picture (size_bits f) (picture_of f)
unfolding read_picture size_bits
read_size f = bind-Parses _ _ _ (read_ueg-Parses f.width_in_mbs_minus1 le_30) (
    bind-Parses _ _ _ (read_ueg-Parses f.height_in_units_minus1 le_30) (
      bind-Parses _ _ _
        (read_bits-Parses 1 (bit (is_only_frames f.frame_mbs_only)) (omega arith) (omega arith)
          (bit-lt _))
        (bind-Parses _ _ _ (adaptive-Parses f.frame_mbs_only) (
          bind-Parses _ _ _ (skip_flag f.direct_inference) (
            bind-Parses _ _ _ (read_crop-Parses f.crop) (
              bind-Parses _ _ _ (read_pixel_ratio-Parses f.ratio)
                (rw (sps_of-picture_of f) (pure-Parses (picture_of f)))))))))

read_set :
    (f : SpsFields)
    → has_chroma (pos f.profile.number) ≡ is_some f.chroma
    → Parses read_sps (sps_bits f) (picture_of f)
unfolding read_sps sps_bits
read_set f profile = bind-Parses _ _ _ (read_byte f.nal_type) (
    bind-Parses _ _ _ (read_byte f.profile) (
      bind-Parses _ _ _ (read_field f.constraints (omega arith) (omega arith)) (
        bind-Parses _ _ _
          (skip_bits-Parses 3 (field_bits f.reserved) (omega arith)
            (length-bits_of 3 f.reserved.number))
          (bind-Parses _ _ _ (read_byte f.level) (
            bind-Parses _ _ _ (skip_ueg-Parses f.id) (
              bind-Parses _ _ _ (chroma-Parses (pos f.profile.number) f.chroma profile) (
                bind-Parses _ _ _ (skip_ueg-Parses f.max_frame_num) (
                  bind-Parses _ _ _ (skip_pic_order-Parses f.order) (
                    bind-Parses _ _ _ (skip_ueg-Parses f.max_ref_frames)
                      (bind-Parses _ _ _ (skip_flag f.gaps_allowed) (read_size f)))))))))))

-- `readSPS` reads back the picture of a set without a scaling matrix from its bits, and takes off just
-- these, if the profile is one with a chroma format just where the set has one, the skipped codes have
-- at most six zeros, and more bits follow.
pub read_sps-sps_bits :
    (f : SpsFields) (b y : ℕ) (s : ExpGolomb) (rest : List ℕ)
    → has_chroma (pos f.profile.number) ≡ is_some f.chroma
    → IsReader b y s
    → bits_left s ≡ sps_bits f ++ rest
    → 1 ≤ length rest
    → Parsed (picture_of f) rest (read_sps s)
read_sps-sps_bits f b y s rest profile v e more = read_set f profile b y s rest v e more
