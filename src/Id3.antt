-- ===== src/Id3.antt =====
-- hls.js/src/demux/id3.js: ID3 tags and their frames. A string is the list of its UTF-16 codes. A read
-- past the end is undefined: it fails every comparison, and counts as 0 under a bit operation and for
-- `String.fromCharCode`.
pub mod Scan
mod Frames
mod Text
mod Tests
use Prim.Native.Char.{code}
use Prim.Native.String.{String}
use v4l2rtspserver.Base.{
  ℕ, zero, suc, ◌+◌, ◌-◌, ◌*◌, ◌/◌, ◌%◌, Bool, true, false, not, ◌&&◌, ◌||◌, Option, none, some,
  List, [], ◌∷◌, ◌++◌, ◌==◌, ltb, leb, if◌then◌else◌, ◌>>=◌, get_elem?, length, take, drop, bit_and,
  bit_or,
}
use v4l2rtspserver.Base.Bytes.{byte_at}

-- `data.subarray(start, end)` from `start` on, for `n` bytes, or to the end.
abbrev pub subarray : List ℕ → ℕ → ℕ → List ℕ
subarray bytes start n = take n (drop start bytes)

abbrev pub codes : String → List ℕ
codes String.[] = []
codes (String.◌∷◌ c s) = code c ∷ codes s

-- `===` of strings.
unfoldable pub text_eq : List ℕ → List ℕ → Bool
text_eq [] [] = true
text_eq [] (d ∷ ds) = false
text_eq (c ∷ cs) [] = false
text_eq (c ∷ cs) (d ∷ ds) = c == d && text_eq cs ds

unfoldable pub is_byte : Option ℕ → ℕ → Bool
is_byte none v = false
is_byte (some b) v = b == v

unfoldable pub is_below : Option ℕ → ℕ → Bool
is_below none v = false
is_below (some b) v = ltb b v

-- The test that `isHeader` and `isFooter` share, for an identifier of three bytes.
unfoldable pub is_tag : ℕ → ℕ → ℕ → List ℕ → ℕ → Bool
is_tag x y z bytes offset =
    leb (offset + 10) (length bytes)
    && (is_byte (get_elem? bytes offset) x
        && is_byte (get_elem? bytes (offset + 1)) y
        && is_byte (get_elem? bytes (offset + 2)) z)
    && (is_below (get_elem? bytes (offset + 3)) 0xFF
        && is_below (get_elem? bytes (offset + 4)) 0xFF)
    && (is_below (get_elem? bytes (offset + 6)) 0x80
        && is_below (get_elem? bytes (offset + 7)) 0x80
        && is_below (get_elem? bytes (offset + 8)) 0x80
        && is_below (get_elem? bytes (offset + 9)) 0x80)

unfoldable pub is_header : List ℕ → ℕ → Bool
is_header bytes offset = is_tag 0x49 0x44 0x33 bytes offset

unfoldable pub is_footer : List ℕ → ℕ → Bool
is_footer bytes offset = is_tag 0x33 0x44 0x49 bytes offset

unfoldable pub read_size : List ℕ → ℕ → ℕ
read_size bytes offset =
    bit_or
      (bit_or
        (bit_or (bit_and (byte_at bytes offset) 0x7f * 2097152)
          (bit_and (byte_at bytes (offset + 1)) 0x7f * 16384))
        (bit_and (byte_at bytes (offset + 2)) 0x7f * 128))
      (bit_and (byte_at bytes (offset + 3)) 0x7f)

-- What one round of `getID3Data` adds to `length`. The footer is looked for right behind the header.
unfoldable pub tag_length : List ℕ → ℕ → ℕ
tag_length bytes offset =
    10 + read_size bytes (offset + 6) + (if is_footer bytes (offset + 10) then 10 else 0)

-- The loop of `getID3Data`, on fuel: the offset moves by the whole length found so far.
unfoldable pub scan_tags : ℕ → List ℕ → ℕ → ℕ → ℕ
scan_tags zero bytes offset len = len
scan_tags (suc fuel) bytes offset len =
    let len' = len + tag_length bytes offset in
    let rest = scan_tags fuel bytes (offset + len') len' in
    if is_header bytes offset then rest else len

-- A round moves the offset by ten bytes at least, so there are at most as many as bytes.
unfoldable pub get_id3_data : List ℕ → ℕ → Option (List ℕ)
get_id3_data bytes offset =
    let len = scan_tags (length bytes) bytes offset 0 in
    if ltb 0 len then some (subarray bytes offset len) else none

-- A frame before decoding.
pub record FrameData : Type 0 where
  pub type : List ℕ
  pub size : ℕ
  pub body : List ℕ

pub data Content : Type 0 where
  text : List ℕ → Content
  binary : List ℕ → Content

pub record Frame : Type 0 where
  pub key : List ℕ
  pub info : Option (List ℕ)
  pub content : Content

unfoldable pub get_frame_data : List ℕ → FrameData
get_frame_data bytes =
    let size = read_size bytes 4 in
    record {
      type = byte_at bytes 0 ∷ byte_at bytes 1 ∷ byte_at bytes 2 ∷ byte_at bytes 3 ∷ [];
      size = size;
      body = subarray bytes 10 size;
    }

-- The `switch` of `_utf8ArrayToStr` by the high half of a byte.
pub data Lead : Type 0 where
  stop one two three skip : Lead

unfoldable pub lead : ℕ → Lead
lead c =
    let high = c / 16 in
    if high == 0
    then stop
    else if leb high 7
    then one
    else if high == 12 || high == 13
    then two
    else if high == 14
    then three
    else skip

unfoldable pub code2 : ℕ → ℕ → ℕ
code2 c char2 = bit_or (bit_and c 0x1F * 64) (bit_and char2 0x3F)

unfoldable pub code3 : ℕ → ℕ → ℕ → ℕ
code3 c char2 char3 =
    bit_or (bit_or (bit_and c 0x0F * 4096) (bit_and char2 0x3F * 64)) (bit_and char3 0x3F)

-- One clause for each number of bytes that are left.
unfoldable pub utf8_array_to_str : List ℕ → List ℕ
utf8_array_to_str [] = []
utf8_array_to_str (c ∷ []) = elim (lead c) [
  | stop ↦ []
  | one ↦ c ∷ []
  | two ↦ code2 c 0 ∷ []
  | three ↦ code3 c 0 0 ∷ []
  | skip ↦ []
]
utf8_array_to_str (c ∷ d ∷ []) = elim (lead c) [
  | stop ↦ []
  | one ↦ c ∷ utf8_array_to_str (d ∷ [])
  | two ↦ code2 c d ∷ []
  | three ↦ code3 c d 0 ∷ []
  | skip ↦ utf8_array_to_str (d ∷ [])
]
utf8_array_to_str (c ∷ d ∷ e ∷ bytes) = elim (lead c) [
  | stop ↦ []
  | one ↦ c ∷ utf8_array_to_str (d ∷ e ∷ bytes)
  | two ↦ code2 c d ∷ utf8_array_to_str (e ∷ bytes)
  | three ↦ code3 c d e ∷ utf8_array_to_str bytes
  | skip ↦ utf8_array_to_str (d ∷ e ∷ bytes)
]

unfoldable pub decode_priv_frame : FrameData → Option Frame
decode_priv_frame frame =
    let owner = utf8_array_to_str frame.body in
    if ltb frame.size 2
    then none
    else some (record {
      key = frame.type;
      info = some owner;
      content = binary (drop (length owner + 1) frame.body);
    })

-- The two strings of a TXXX or WXXX frame, behind the byte of the encoding. The second one is sought by
-- the number of characters of the first.
unfoldable pub two_strings : FrameData → Frame
two_strings frame =
    let description = utf8_array_to_str (drop 1 frame.body) in
    record {
      key = frame.type;
      info = some description;
      content = text (utf8_array_to_str (drop (1 + (length description + 1)) frame.body));
    }

unfoldable pub decode_text_frame : FrameData → Option Frame
decode_text_frame frame =
    if ltb frame.size 2
    then none
    else if text_eq frame.type (codes "TXXX")
    then some (two_strings frame)
    else some (record {
      key = frame.type;
      info = none;
      content = text (utf8_array_to_str (drop 1 frame.body));
    })

unfoldable pub decode_url_frame : FrameData → Option Frame
decode_url_frame frame =
    if text_eq frame.type (codes "WXXX")
    then (if ltb frame.size 2 then none else some (two_strings frame))
    else some
        (record { key = frame.type; info = none; content = text (utf8_array_to_str frame.body) })

unfoldable pub decode_frame : FrameData → Option Frame
decode_frame frame =
    if text_eq frame.type (codes "PRIV")
    then decode_priv_frame frame
    else if is_byte (get_elem? frame.type 0) b'T'
    then decode_text_frame frame
    else if is_byte (get_elem? frame.type 0) b'W'
    then decode_url_frame frame
    else none

unfoldable pub push : Option Frame → List Frame → List Frame
push none frames = frames
push (some frame) frames = frames ++ frame ∷ []

-- The loop over the frames of one tag, on fuel: the offset behind it, and the frames.
unfoldable pub tag_frames : ℕ → List ℕ → ℕ → ℕ → List Frame → ℕ × List Frame
tag_frames zero bytes offset end frames = (offset, frames)
tag_frames (suc fuel) bytes offset end frames =
    let frame_data = get_frame_data (drop offset bytes) in
    let rest =
      tag_frames fuel bytes (offset + (frame_data.size + 10)) end
        (push (decode_frame frame_data) frames) in
    if ltb (offset + 8) end then rest else (offset, frames)

unfoldable pub skip_footer : List ℕ → ℕ → ℕ
skip_footer bytes offset = if is_footer bytes offset then offset + 10 else offset

-- The loop over the tags, on fuel.
unfoldable pub all_frames : ℕ → List ℕ → ℕ → List Frame → List Frame
all_frames zero bytes offset frames = frames
all_frames (suc fuel) bytes offset frames =
    let size = read_size bytes (offset + 6) in
    let tag = tag_frames size bytes (offset + 10) (offset + 10 + size) frames in
    let rest = all_frames fuel bytes (skip_footer bytes tag.0) tag.1 in
    if is_header bytes offset then rest else frames

-- Each round moves the offset by ten bytes at least.
unfoldable pub get_id3_frames : List ℕ → List Frame
get_id3_frames id3_data = all_frames (length id3_data) id3_data 0 []

abbrev pub time_stamp_owner : List ℕ
time_stamp_owner = codes "com.apple.streaming.transportStreamTimestamp"

unfoldable pub info_is : Option (List ℕ) → List ℕ → Bool
info_is none t = false
info_is (some s) t = text_eq s t

unfoldable pub is_time_stamp_frame : Frame → Bool
is_time_stamp_frame frame = text_eq frame.key (codes "PRIV") && info_is frame.info time_stamp_owner

-- The sum of the shifted bytes, before the division by 45.
unfoldable pub time_stamp_ticks : List ℕ → ℕ
time_stamp_ticks bytes =
    byte_at bytes 4 * 8388608 + byte_at bytes 5 * 32768 + byte_at bytes 6 * 128 + byte_at bytes 7

-- `Math.round` of `ticks / 45`, plus 47721858.84 if the 33rd bit is set, over the common denominator.
-- No such value lies near the middle of two integers, so the floating-point result is the same.
unfoldable pub round_time_stamp : Bool → ℕ → ℕ
round_time_stamp pts33_bit ticks =
    if pts33_bit then (100 * ticks + 45 * 4772185884 + 2250) / 4500 else (2 * ticks + 45) / 90

-- `none` is undefined.
unfoldable pub read_time_stamp : Content → Option ℕ
read_time_stamp (text s) = none
read_time_stamp (binary bytes) =
    if length bytes == 8
    then some (round_time_stamp (bit_and (byte_at bytes 3) 0x1 == 1) (time_stamp_ticks bytes))
    else none

unfoldable pub first_time_stamp : List Frame → Option ℕ
first_time_stamp [] = none
first_time_stamp (frame ∷ frames) =
    if is_time_stamp_frame frame then read_time_stamp frame.content else first_time_stamp frames

unfoldable pub get_time_stamp : List ℕ → Option ℕ
get_time_stamp bytes = first_time_stamp (get_id3_frames bytes)
