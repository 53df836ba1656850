-- ===== src/ExpGolomb/Sps.antt =====
-- `readSPS`, `skipScalingList` and `readSliceType`. The bound methods of `readSPS` are the readers
-- themselves.
use v4l2rtspserver.Base.{
  ℕ, zero, suc, ◌+◌, ◌%◌, Bool, true, false, ◌||◌, Option, some, ltb, if◌then◌else◌,
  ◌>>=◌ as and_then, List, [], ◌∷◌, get_or,
}
use v4l2rtspserver.Base.Int.{pattern32, ℤ, pos, negsuc, sub_ℕ, pos_part, ◌-ℤ◌, ◌+ℤ◌, ◌*ℤ◌, is_nat}
use v4l2rtspserver.ExpGolomb.{
  ExpGolomb, join_bits, skip_bits, read_bits, skip_ueg, read_ueg, read_eg, read_boolean, read_ubyte,
}

-- A step that reads from the reader, and may throw.
abbrev pub Parser : Type 0 → Type 0
Parser A = ExpGolomb → Option (A × ExpGolomb)

infixl 5 ◌>>=◌ ◌>>◌
unfoldable pub ◌>>=◌ : {A B : Type 0} → Parser A → (A → Parser B) → Parser B
◌>>=◌ m f = λ s. and_then (m s) (λ r. f r.0 r.1)

abbrev pub ◌>>◌ : {A B : Type 0} → Parser A → Parser B → Parser B
m >> k = m >>= λ _. k

unfoldable pub pure : {A : Type 0} → A → Parser A
pure a = λ s. some (a, s)

unfoldable pub skipping : (ExpGolomb → Option ExpGolomb) → Parser (Unit {0})
skipping f = λ s. and_then (f s) (λ s'. some (tt, s'))

abbrev pub when : Bool → Parser (Unit {0}) → Parser (Unit {0})
when true m = m
when false m = pure tt

-- `n % 256`, with the sign of `n`.
unfoldable pub rem256 : ℤ → ℤ
rem256 (pos n) = pos (n % 256)
rem256 (negsuc n) = sub_ℕ 0 ((n + 1) % 256)

-- The loop of `skipScalingList`, with `count - j` rounds left.
unfoldable pub skip_scales : ℕ → ℤ → ℤ → Parser (Unit {0})
skip_scales zero last_scale next_scale = pure tt
skip_scales (suc n) last_scale next_scale =
    let more : ℤ → Parser (Unit {0}) =
      λ scale. skip_scales n (if is_nat scale 0 then last_scale else scale) scale in
    if is_nat next_scale 0
    then more next_scale
    else do delta_scale ← read_eg; more (rem256 (last_scale +ℤ delta_scale +ℤ pos 256))

unfoldable pub skip_scaling_list : ℕ → Parser (Unit {0})
skip_scaling_list count = skip_scales count (pos 8) (pos 8)

-- The loop over the lists, with `n` of them left from the `i`-th one on.
unfoldable pub skip_scaling_lists : ℕ → ℕ → Parser (Unit {0})
skip_scaling_lists zero i = pure tt
skip_scaling_lists (suc n) i = do
  present ← read_boolean
  when present (skip_scaling_list (if ltb i 6 then 16 else 64))
  skip_scaling_lists n (suc i)

unfoldable pub has_chroma : ℤ → Bool
has_chroma profile_idc =
    is_nat profile_idc 100
    || is_nat profile_idc 110
    || is_nat profile_idc 122
    || is_nat profile_idc 244
    || is_nat profile_idc 44
    || is_nat profile_idc 83
    || is_nat profile_idc 86
    || is_nat profile_idc 118
    || is_nat profile_idc 128

-- What some profiles have more, from the bit depths on and from the chroma format on.
unfoldable pub skip_chroma_depths : ℤ → Parser (Unit {0})
skip_chroma_depths chroma_format_idc = do
  skipping skip_ueg
  skipping skip_ueg
  skipping (skip_bits 1)
  present ← read_boolean
  when present (skip_scaling_lists (if is_nat chroma_format_idc 3 then 12 else 8) 0)

unfoldable pub skip_chroma : Parser (Unit {0})
skip_chroma = do
  chroma_format_idc ← read_ueg
  when (is_nat chroma_format_idc 3) (skipping (skip_bits 1))
  skip_chroma_depths chroma_format_idc

unfoldable pub skip_offsets : ℕ → Parser (Unit {0})
skip_offsets zero = pure tt
skip_offsets (suc n) = skipping skip_ueg >> skip_offsets n

unfoldable pub skip_pic_order : Parser (Unit {0})
skip_pic_order = do
  pic_order_cnt_type ← read_ueg
  if is_nat pic_order_cnt_type 0
      then (read_ueg >> pure tt)
      else when (is_nat pic_order_cnt_type 1) do
        skipping (skip_bits 1)
        skipping skip_ueg
        skipping skip_ueg
        num_ref_frames ← read_ueg
        skip_offsets (pos_part num_ref_frames)

-- The offsets on the left, on the right, at the top and at the bottom.
pub record Crop : Type 0 where
  pub left : ℤ
  pub right : ℤ
  pub top : ℤ
  pub bottom : ℤ

abbrev pub no_crop : Crop
no_crop = record { left = pos 0; right = pos 0; top = pos 0; bottom = pos 0 }

unfoldable pub read_crop : Parser Crop
read_crop = do
  present ← read_boolean
  let cropped : Parser Crop = do
    left ← read_ueg
    right ← read_ueg
    top ← read_ueg
    bottom ← read_ueg
    pure (record { left = left; right = right; top = top; bottom = bottom })
  if present then cropped else pure no_crop

abbrev pub ratios : List (ℤ × ℤ)
ratios =
    (pos 1, pos 1)
    ∷ (pos 1, pos 1)
    ∷ (pos 12, pos 11)
    ∷ (pos 10, pos 11)
    ∷ (pos 16, pos 11)
    ∷ (pos 40, pos 33)
    ∷ (pos 24, pos 11)
    ∷ (pos 20, pos 11)
    ∷ (pos 32, pos 11)
    ∷ (pos 80, pos 33)
    ∷ (pos 18, pos 11)
    ∷ (pos 15, pos 11)
    ∷ (pos 64, pos 33)
    ∷ (pos 160, pos 99)
    ∷ (pos 4, pos 3)
    ∷ (pos 3, pos 2)
    ∷ (pos 2, pos 1)
    ∷ []

-- [1, 1] stays for an index that is not in the table.
unfoldable pub ratio_of : ℕ → ℤ × ℤ
ratio_of aspect_ratio_idc = get_or ratios aspect_ratio_idc (pos 1, pos 1)

-- `readUByte() << 8 | readUByte()`
unfoldable pub read_term : Parser ℤ
read_term = do high ← read_ubyte; low ← read_ubyte; pure (join_bits (pattern32 high) 8 low)

unfoldable pub read_pixel_ratio : Parser (ℤ × ℤ)
read_pixel_ratio = do
  vui ← read_boolean
  let ratio : Parser (ℤ × ℤ) = do
    present ← read_boolean
    let known : Parser (ℤ × ℤ) = do
      aspect_ratio_idc ← read_ubyte
      let given : Parser (ℤ × ℤ) = do width ← read_term; height ← read_term; pure (width, height)
      if is_nat aspect_ratio_idc 255 then given else pure (ratio_of (pos_part aspect_ratio_idc))
    if present then known else pure (pos 1, pos 1)
  if vui then ratio else pure (pos 1, pos 1)

pub record Sps : Type 0 where
  pub width : ℤ
  pub height : ℤ
  pub pixel_ratio : ℤ × ℤ

-- The object that `readSPS` returns; its number of pixels is whole, so that `Math.ceil` keeps it.
unfoldable pub sps_of : ℤ → ℤ → ℤ → Crop → ℤ × ℤ → Sps
sps_of width_in_mbs_minus1 height_in_units_minus1 frame_mbs_only crop ratio = record {
  width = (width_in_mbs_minus1 +ℤ pos 1) *ℤ pos 16 -ℤ crop.left *ℤ pos 2 -ℤ crop.right *ℤ pos 2;
  height =
      (pos 2 -ℤ frame_mbs_only) *ℤ (height_in_units_minus1 +ℤ pos 1) *ℤ pos 16
      -ℤ (if is_nat frame_mbs_only 0 then pos 4 else pos 2) *ℤ (crop.top +ℤ crop.bottom);
  pixel_ratio = ratio;
}

-- From the size of the picture on.
unfoldable pub read_picture : Parser Sps
read_picture = do
  width_in_mbs_minus1 ← read_ueg
  height_in_units_minus1 ← read_ueg
  frame_mbs_only ← read_bits 1
  when (is_nat frame_mbs_only 0) (skipping (skip_bits 1))
  skipping (skip_bits 1)
  crop ← read_crop
  ratio ← read_pixel_ratio
  pure (sps_of width_in_mbs_minus1 height_in_units_minus1 frame_mbs_only crop ratio)

unfoldable pub read_sps : Parser Sps
read_sps = do
  _ ← read_ubyte
  profile_idc ← read_ubyte
  _ ← read_bits 5
  skipping (skip_bits 3)
  _ ← read_ubyte
  skipping skip_ueg
  when (has_chroma profile_idc) skip_chroma
  skipping skip_ueg
  skip_pic_order
  skipping skip_ueg
  skipping (skip_bits 1)
  read_picture

unfoldable pub read_slice_type : Parser ℤ
read_slice_type = do _ ← read_ubyte; _ ← read_ueg; read_ueg
