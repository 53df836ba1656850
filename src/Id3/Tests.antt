-- ===== src/Id3/Tests.antt =====
-- ID3 tags and strings on concrete bytes.
use v4l2rtspserver.Base.{ℕ, ◌+◌, ◌≡◌, refl, true, false, some, List, [], ◌∷◌, ◌++◌, arith}
use v4l2rtspserver.Id3.{
  all_frames, get_id3_frames, is_header, is_footer, is_tag, is_byte, is_below, read_size,
  tag_length, get_id3_data, subarray, decode_priv_frame, binary, codes,
}
use v4l2rtspserver.Id3.Scan.{get_id3_data_two}
use v4l2rtspserver.Id3.Frames.{get_id3_frames-fuel}
use v4l2rtspserver.Id3.Text.{decode_priv_frame_lem, priv_body}

-- The owner "ab".
abbrev owner : List ℕ
owner = 97 ∷ 98 ∷ []

decode_priv_frame_example :
    decode_priv_frame
      (record { type = codes "PRIV"; size = 5; body = priv_body owner (1 ∷ 2 ∷ []) })
    ≡ some (record { key = codes "PRIV"; info = some owner; content = binary (1 ∷ 2 ∷ []) })
decode_priv_frame_example =
    decode_priv_frame_lem (codes "PRIV") 5 owner (1 ∷ 2 ∷ [])
      ((omega arith, omega arith), ((omega arith, omega arith), tt)) (omega arith)

-- A tag of ten bytes, with nothing behind the header.
abbrev tag : List ℕ
tag = 0x49 ∷ 0x44 ∷ 0x33 ∷ 4 ∷ 0 ∷ 0 ∷ 0 ∷ 0 ∷ 0 ∷ 0 ∷ []

-- Three tags, and a byte.
abbrev tags : List ℕ
tags = tag ++ (tag ++ (tag ++ 0xff ∷ []))

tags_header : (is_header tags 0 ≡ true) × (is_header tags 10 ≡ true)
unfolding is_header is_tag is_byte is_below
tags_header = (refl, refl)

third_header : is_header tags 20 ≡ true
unfolding is_header is_tag is_byte is_below
third_header = refl

tags_length : (tag_length tags 0 ≡ 10) × (tag_length tags 10 ≡ 10)
unfolding tag_length read_size is_footer is_tag is_byte is_below
tags_length = (refl, refl)

sought : is_header tags (10 + (tag_length tags 0 + tag_length tags 10)) ≡ false
unfolding tag_length read_size is_footer is_header is_tag is_byte is_below
sought = refl

second : 10 ≡ 0 + tag_length tags 0
unfolding tag_length read_size is_footer is_tag is_byte is_below
second = refl

-- The third tag is missed.
get_id3_data_two_example :
    get_id3_data tags 0 ≡ some (subarray tags 0 (tag_length tags 0 + tag_length tags 10))
get_id3_data_two_example = get_id3_data_two tags 0 10 second tags_header.0 (tags_header.1) sought

get_id3_frames-fuel_example : all_frames 40 tags 0 [] ≡ get_id3_frames tags
get_id3_frames-fuel_example = get_id3_frames-fuel tags 40 (omega arith)
