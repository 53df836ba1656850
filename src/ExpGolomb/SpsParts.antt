-- ===== src/ExpGolomb/SpsParts.antt =====
-- The parts of a sequence parameter set as their bits, and the steps of readSPS that read them.
use native.Mathlib.Nat.{mod-eq_of_lt}
use v4l2rtspserver.Base.{
  ltb, ℕ, ◌+◌, ◌*◌, ◌%◌, ◌==◌, ◌^◌, ◌≡◌, ◌≤◌, ◌<◌, Bool, true, false, Option, none, some, List, [],
  ◌∷◌, ◌++◌, length, arith,
}
use v4l2rtspserver.Base.Int.{pattern32, ℤ, pos}
use v4l2rtspserver.ExpGolomb.{join_bits, shift_left, shift_count, int32, skip_bits, read_bits}
use v4l2rtspserver.ExpGolomb.Bits.{bits_of, length-bits_of, bit_or-add}
use v4l2rtspserver.ExpGolomb.Sps.{
  skipping, skip_offsets, skip_pic_order, Crop, no_crop, read_crop, ratio_of, read_term,
  read_pixel_ratio,
}
use v4l2rtspserver.ExpGolomb.Parses.{
  Parses, pure-Parses, bind-Parses, read_bits-Parses, bit, read_boolean-Parses, skip_bits-Parses,
  Code, code_bits, read_ueg-Parses, skip_ueg-Parses,
}

-- A number of so many bits.
pub record Field (width : ℕ) : Type 0 where
  pub number : ℕ
  pub small : number < 2 ^ width

abbrev pub field_bits : {width : ℕ} → Field width → List ℕ
field_bits {width} f = bits_of width f.number

abbrev pub flag : Bool → List ℕ
flag c = bits_of 1 (bit c)

abbrev pub code_of_0 : Code 30
code_of_0 = record {
  zeros = 0;
  number = 0;
  few = omega arith;
  above = omega arith;
  below = omega arith;
}

abbrev pub code_of_1 : Code 30
code_of_1 = record {
  zeros = 1;
  number = 1;
  few = omega arith;
  above = omega arith;
  below = omega arith;
}

abbrev pub code_of_2 : Code 30
code_of_2 = record {
  zeros = 1;
  number = 2;
  few = omega arith;
  above = omega arith;
  below = omega arith;
}

-- The picture order count, of type 0, 1 or 2.
pub data PicOrder : Type 0 where
  with_lsb : Code 30 → PicOrder
  with_offsets :
      Bool
      → Code 6
      → Code 6
      → (n : Code 30) (offsets : List (Code 6)) → length offsets ≡ n.number
      → PicOrder
  in_output_order : PicOrder

unfoldable pub offsets_bits : List (Code 6) → List ℕ
offsets_bits [] = []
offsets_bits (c ∷ cs) = code_bits c ++ offsets_bits cs

unfoldable pub pic_order_bits : PicOrder → List ℕ
pic_order_bits (with_lsb c) = code_bits code_of_0 ++ (code_bits c ++ [])
pic_order_bits (with_offsets always_zero ref field n offsets _) =
    code_bits code_of_1
    ++ (flag always_zero
        ++ (code_bits ref ++ (code_bits field ++ (code_bits n ++ offsets_bits offsets))))
pic_order_bits in_output_order = code_bits code_of_2 ++ []

skip_offsets-Parses : (cs : List (Code 6)) → Parses (skip_offsets (length cs)) (offsets_bits cs) tt
unfolding skip_offsets offsets_bits
skip_offsets-Parses [] = pure-Parses tt
skip_offsets-Parses (c ∷ cs) = bind-Parses _ _ _ (skip_ueg-Parses c) (skip_offsets-Parses cs)

pub le_30 : 30 ≤ 30
le_30 = omega arith

pub skip_flag : (c : Bool) → Parses (skipping (skip_bits 1)) (flag c) tt
skip_flag c = skip_bits-Parses 1 (flag c) (omega arith) (length-bits_of 1 (bit c))

pub skip_pic_order-Parses : (o : PicOrder) → Parses skip_pic_order (pic_order_bits o) tt
unfolding skip_pic_order pic_order_bits
skip_pic_order-Parses (with_lsb c) =
    bind-Parses _ _ _ (read_ueg-Parses code_of_0 le_30)
      (bind-Parses _ _ _ (read_ueg-Parses c le_30) (pure-Parses tt))
skip_pic_order-Parses (with_offsets z ref field n offsets e) =
    bind-Parses _ (code_bits code_of_1) _ (read_ueg-Parses code_of_1 le_30) (
      bind-Parses _ _ _ (skip_flag z) (
        bind-Parses _ _ _ (skip_ueg-Parses ref) (
          bind-Parses _ _ _ (skip_ueg-Parses field)
            (bind-Parses _ _ _ (read_ueg-Parses n le_30) (rw e at (skip_offsets-Parses offsets))))))
skip_pic_order-Parses in_output_order =
    bind-Parses _ (code_bits code_of_2) [] (read_ueg-Parses code_of_2 le_30) (pure-Parses tt)

pub record CropCodes : Type 0 where
  pub left : Code 30
  pub right : Code 30
  pub top : Code 30
  pub bottom : Code 30

unfoldable pub crop_bits : Option CropCodes → List ℕ
crop_bits none = flag false ++ []
crop_bits (some c) =
    flag true
    ++ (code_bits c.left ++ (code_bits c.right ++ (code_bits c.top ++ (code_bits c.bottom ++ []))))

unfoldable pub crop_of : Option CropCodes → Crop
crop_of none = no_crop
crop_of (some c) = record {
  left = pos c.left.number;
  right = pos c.right.number;
  top = pos c.top.number;
  bottom = pos c.bottom.number;
}

pub read_crop-Parses : (c : Option CropCodes) → Parses read_crop (crop_bits c) (crop_of c)
unfolding read_crop crop_bits crop_of
read_crop-Parses none = bind-Parses _ _ _ (read_boolean-Parses false) (pure-Parses no_crop)
read_crop-Parses (some c) = bind-Parses _ _ _ (read_boolean-Parses true) (
    bind-Parses _ _ _ (read_ueg-Parses c.left le_30) (
      bind-Parses _ _ _ (read_ueg-Parses c.right le_30) (
        bind-Parses _ _ _ (read_ueg-Parses c.top le_30)
          (bind-Parses _ _ _ (read_ueg-Parses c.bottom le_30) (pure-Parses _)))))

-- No parameters of usability, such without an aspect ratio, with one of the table, or with a written one.
pub data Ratio : Type 0 where
  no_vui : Ratio
  no_aspect : Ratio
  in_table : (idc : Field 8) → ◌<◌ idc.number 255 → Ratio
  written : Field 8 → Field 8 → Field 8 → Field 8 → Ratio

unfoldable pub ratio_bits : Ratio → List ℕ
ratio_bits no_vui = flag false ++ []
ratio_bits no_aspect = flag true ++ (flag false ++ [])
ratio_bits (in_table idc _) = flag true ++ (flag true ++ (field_bits idc ++ []))
ratio_bits (written a b c d) =
    flag true
    ++ (flag true
        ++ (bits_of 8 255
            ++ ((field_bits a ++ (field_bits b ++ []))
                ++ ((field_bits c ++ (field_bits d ++ [])) ++ []))))

unfoldable pub pixel_ratio_of : Ratio → ℤ × ℤ
pixel_ratio_of no_vui = (pos 1, pos 1)
pixel_ratio_of no_aspect = (pos 1, pos 1)
pixel_ratio_of (in_table idc _) = ratio_of idc.number
pixel_ratio_of (written a b c d) =
    (pos (a.number * 256 + b.number), pos (c.number * 256 + d.number))

pub read_field :
    {width : ℕ} (f : Field width)
    → 1 ≤ width
    → width ≤ 31
    → Parses (read_bits width) (field_bits f) (pos f.number)
read_field {width} f lo hi = read_bits-Parses width f.number lo hi f.small

pub read_byte : (f : Field 8) → Parses (read_bits 8) (field_bits f) (pos f.number)
read_byte f = read_field f (omega arith) (omega arith)

join_bytes :
    (a b : Field 8)
    → join_bits (pattern32 (pos a.number)) 8 (pos b.number) ≡ pos (a.number * 256 + b.number)
unfolding join_bits pattern32 shift_left shift_count int32
join_bytes a b =
    let high : a.number % 2 ^ 32 ≡ a.number = mod-eq_of_lt (omega (arith, a.small)) in
    let whole : a.number * 256 % 2 ^ 32 ≡ a.number * 256 = mod-eq_of_lt (omega (arith, a.small)) in
    let low : b.number % 2 ^ 32 ≡ b.number = mod-eq_of_lt (omega (arith, b.small)) in
    let sum = bit_or-add 8 a.number b.number b.small in
    let fits : ltb (a.number * 256 + b.number) (2 ^ 31) ≡ true = ground (arith, a.small, b.small) in
    rw (high, whole, low, sum, fits)

read_term-Parses :
    (a b : Field 8)
    → Parses read_term (field_bits a ++ (field_bits b ++ [])) (pos (a.number * 256 + b.number))
unfolding read_term
read_term-Parses a b = bind-Parses _ _ _ (read_byte a) (
    bind-Parses _ _ _ (read_byte b)
      (rw (join_bytes a b) (pure-Parses (pos (a.number * 256 + b.number)))))

pub read_pixel_ratio-Parses :
    (r : Ratio) → Parses read_pixel_ratio (ratio_bits r) (pixel_ratio_of r)
unfolding read_pixel_ratio ratio_bits pixel_ratio_of
read_pixel_ratio-Parses no_vui = bind-Parses _ _ _ (read_boolean-Parses false) (pure-Parses _)
read_pixel_ratio-Parses no_aspect =
    bind-Parses _ _ _ (read_boolean-Parses true)
      (bind-Parses _ _ _ (read_boolean-Parses false) (pure-Parses _))
read_pixel_ratio-Parses (in_table idc lt) =
    let other : (idc.number == 255) ≡ false = ground arith in
    bind-Parses _ _ _ (read_boolean-Parses true) (
      bind-Parses _ _ _ (read_boolean-Parses true)
        (bind-Parses _ _ _ (read_byte idc) (rw other (pure-Parses (ratio_of idc.number)))))
read_pixel_ratio-Parses (written a b c d) = bind-Parses _ _ _ (read_boolean-Parses true) (
    bind-Parses _ _ _ (read_boolean-Parses true) (
      bind-Parses _ _ _ (read_bits-Parses 8 255 (omega arith) (omega arith) (omega arith)) (
        bind-Parses _ _ _ (read_term-Parses a b)
          (bind-Parses _ _ _ (read_term-Parses c d) (pure-Parses _)))))
