-- ===== src/MpegAudio.antt =====
-- hls.js/src/demux/mpegaudio.js: MPEG audio frames. Timestamps as in Adts: `stamp_at pts i rate` stands
-- for the floating-point `pts + i * (1152 * 90000 / rate)`. The frame length's quotient is a
-- floating-point number that is rounded down at once; for these sizes that is the quotient of numbers.
pub mod Laws
mod Tests
use v4l2rtspserver.Base.{
  ℕ, suc, ◌+◌, ◌-◌, ◌*◌, ◌/◌, ◌%◌, Bool, true, false, not, ◌&&◌, ◌||◌, Option, none, some, List, [],
  ◌∷◌, ◌++◌, ◌==◌, ltb, leb, if◌then◌else◌, ◌>>=◌, get_elem?, get_or, length, take, drop, bit_and,
}
use v4l2rtspserver.Base.Bytes.{byte_at}

-- One column after the other, 14 bit rates each.
abbrev pub bitrates_map : List ℕ
bitrates_map =
    32 ∷ 64 ∷ 96 ∷ 128 ∷ 160 ∷ 192 ∷ 224 ∷ 256 ∷ 288 ∷ 320 ∷ 352 ∷ 384 ∷ 416 ∷ 448 ∷ 32 ∷ 48 ∷ 56
    ∷ 64 ∷ 80 ∷ 96 ∷ 112 ∷ 128 ∷ 160 ∷ 192 ∷ 224 ∷ 256 ∷ 320 ∷ 384 ∷ 32 ∷ 40 ∷ 48 ∷ 56 ∷ 64 ∷ 80
    ∷ 96 ∷ 112 ∷ 128 ∷ 160 ∷ 192 ∷ 224 ∷ 256 ∷ 320 ∷ 32 ∷ 48 ∷ 56 ∷ 64 ∷ 80 ∷ 96 ∷ 112 ∷ 128 ∷ 144
    ∷ 160 ∷ 176 ∷ 192 ∷ 224 ∷ 256 ∷ 8 ∷ 16 ∷ 24 ∷ 32 ∷ 40 ∷ 48 ∷ 56 ∷ 64 ∷ 80 ∷ 96 ∷ 112 ∷ 128 ∷ 144
    ∷ 160 ∷ []

abbrev pub sampling_rate_map : List ℕ
sampling_rate_map = 44100 ∷ 48000 ∷ 32000 ∷ 22050 ∷ 24000 ∷ 16000 ∷ 11025 ∷ 12000 ∷ 8000 ∷ []

pub record Header : Type 0 where
  pub sample_rate : ℕ
  pub channel_count : ℕ
  pub frame_length : ℕ

-- The bit fields B (version), C (layer), E (bit rate), F (sampling rate) and G (padding) of a header.
pub record Fields : Type 0 where
  pub version : ℕ
  pub layer : ℕ
  pub bitrate_index : ℕ
  pub rate_index : ℕ
  pub padded : Bool

pub header_fields : List ℕ → ℕ → Fields
header_fields bytes offset = record {
  version = bit_and (byte_at bytes (offset + 1) / 8) 3;
  layer = bit_and (byte_at bytes (offset + 1) / 2) 3;
  bitrate_index = bit_and (byte_at bytes (offset + 2) / 16) 15;
  rate_index = bit_and (byte_at bytes (offset + 2) / 4) 3;
  padded = not (bit_and (byte_at bytes (offset + 2)) 2 == 0);
}

pub fields_valid : Fields → Bool
fields_valid h =
    not (h.version == 1)
    && not (h.bitrate_index == 0)
    && not (h.bitrate_index == 15)
    && not (h.rate_index == 3)

pub column_in_bitrates : Fields → ℕ
column_in_bitrates h = if h.version == 3 then 3 - h.layer else if h.layer == 3 then 3 else 4

pub column_in_sample_rates : Fields → ℕ
column_in_sample_rates h = if h.version == 3 then 0 else if h.version == 2 then 1 else 2

-- A lookup past the table would be undefined; it does not happen, as `Laws` shows.
pub bit_rate : Fields → Option ℕ
bit_rate h = get_elem? bitrates_map (column_in_bitrates h * 14 + h.bitrate_index - 1) >>= λ kbit.
    some (kbit * 1000)

pub sample_rate_of : Fields → Option ℕ
sample_rate_of h = get_elem? sampling_rate_map (column_in_sample_rates h * 3 + h.rate_index)

-- Layer I counts slots of four bytes.
pub frame_length_of : Fields → ℕ → ℕ → ℕ
frame_length_of h bits rate =
    let padding = if h.padded then 1 else 0 in
    if h.layer == 3
    then ((if h.version == 3 then 12 else 6) * bits / rate + padding) * 4
    else (if h.version == 3 then 144 else 72) * bits / rate + padding

pub channels_of : ℕ → ℕ
channels_of b = if b / 64 == 3 then 1 else 2

-- `none` is undefined.
pub parse_header : List ℕ → ℕ → Option Header
parse_header bytes offset =
    let h = header_fields bytes offset in
    if fields_valid h
    then (do
      bits ← bit_rate h
      rate ← sample_rate_of h
      some (record {
        sample_rate = rate;
        channel_count = channels_of (byte_at bytes (offset + 3));
        frame_length = frame_length_of h bits rate;
      }))
    else none

-- `data[i] === v` is false for undefined.
pub byte_is : Option ℕ → ℕ → Bool
byte_is none v = false
byte_is (some b) v = b == v

pub is_header_pattern : List ℕ → ℕ → Bool
is_header_pattern bytes offset =
    byte_is (get_elem? bytes offset) 0xff
    && bit_and (byte_at bytes (offset + 1)) 0xe0 == 0xe0
    && not (bit_and (byte_at bytes (offset + 1)) 0x06 == 0x00)

pub is_header : List ℕ → ℕ → Bool
is_header bytes offset = ltb (offset + 1) (length bytes) && is_header_pattern bytes offset

-- The length of the frame, or 4 where there is no header or its length is 0.
pub probe_length : Option Header → ℕ
probe_length none = 4
probe_length (some h) = if h.frame_length == 0 then 4 else h.frame_length

pub probe : List ℕ → ℕ → Bool
probe bytes offset =
    let new_offset = offset + probe_length (parse_header bytes offset) in
    is_header bytes offset && (new_offset == length bytes || is_header bytes new_offset)

pub record Sample (T : Type 0) : Type 0 where
  pub unit : List ℕ
  pub pts : T
  pub dts : T

pub record Track (T : Type 0) : Type 0 where
  pub config : List ℕ
  pub channel_count : ℕ
  pub samplerate : ℕ
  pub samples : List (Sample T)
  pub len : ℕ

pub append_header :
    {T : Type 0}
    → (T → ℕ → ℕ → T)
    → Track T
    → List ℕ
    → ℕ
    → T
    → ℕ
    → Header
    → Option (Track T × Sample T × ℕ)
append_header {T} stamp_at track bytes offset pts frame_index h =
    let stamp = stamp_at pts frame_index h.sample_rate in
    let sample : Sample T = record {
      unit = take h.frame_length (drop offset bytes);
      pts = stamp;
      dts = stamp;
    } in
    let track' : Track T = record {
      config = [];
      channel_count = h.channel_count;
      samplerate = h.sample_rate;
      samples = track.samples ++ sample ∷ [];
      len = track.len + h.frame_length;
    } in
    if leb (offset + h.frame_length) (length bytes)
    then some (track', sample, h.frame_length)
    else none

-- The track, the sample and the length that was taken; `none` is undefined.
pub append_frame :
    {T : Type 0} → (T → ℕ → ℕ → T) → Track T → List ℕ → ℕ → T → ℕ → Option (Track T × Sample T × ℕ)
append_frame stamp_at track bytes offset pts frame_index =
    if ltb (length bytes) (offset + 24)
    then none
    else parse_header bytes offset >>= append_header stamp_at track bytes offset pts frame_index
