-- ===== src/Adts.antt =====
-- hls.js/src/demux/adts.js: AAC frames in ADTS headers. The tests of `navigator.userAgent` are the
-- fields of `Browser`. A timestamp is of any type `T`; the argument `stamp_at pts i rate` stands for the
-- floating-point `pts + i * (1024 * 90000 / rate)`. Logging is left out.
pub mod Config
pub mod Frames
mod Tests
use v4l2rtspserver.Base.{
  ℕ, suc, ◌+◌, ◌-◌, ◌*◌, ◌/◌, ◌%◌, ◌^◌, ◌≤◌, ◌<◌, Bool, true, false, not, ◌&&◌, ◌||◌, Option, none,
  some, List, [], ◌∷◌, ◌++◌, ◌==◌, ltb, leb, if◌then◌else◌, ◌>>=◌, get_elem?, length, take, drop,
  bit_and, bit_or,
}
use v4l2rtspserver.Base.Bytes.{byte_at}
use Prim.Native.String.{String}
use text.Mathlib.Text.{find?}

pub record Browser : Type 0 where
  pub is_firefox : Bool
  pub is_android : Bool
  pub is_vivaldi : Bool

-- `codec` is the object type behind 'mp4a.40.'.
pub record AudioConfig : Type 0 where
  pub config : List ℕ
  pub samplerate : ℕ
  pub channel_count : ℕ
  pub codec : ℕ
  pub manifest_codec : Option String

abbrev pub adts_sampling_rates : List ℕ
adts_sampling_rates =
    96000 ∷ 88200 ∷ 64000 ∷ 48000 ∷ 44100 ∷ 32000 ∷ 24000 ∷ 22050 ∷ 16000 ∷ 12000 ∷ 11025 ∷ 8000
    ∷ 7350 ∷ []

-- `s.indexOf(part) !== -1`
pub has_part : String → String → Bool
has_part s part = found (find? part s)
  where
    found : Option ℕ → Bool
    found none = false
    found (some i) = true

-- A codec that is undefined or empty is no codec.
pub given : Option String → Bool
given none = false
given (some String.[]) = false
given (some (String.◌∷◌ c s)) = true

pub codec_has : Option String → String → Bool
codec_has none part = false
codec_has (some s) part = has_part s part

-- The object type and the index of the extension's sampling rate. A negative index is its 32-bit
-- pattern.
pub record Choice : Type 0 where
  pub object_type : ℕ
  pub extension_index : ℕ

abbrev pub less_three : ℕ → ℕ
less_three index = (index + 2 ^ 32 - 3) % 2 ^ 32

pub choose_sbr : Option String → ℕ → Bool
choose_sbr audio_codec index =
    (given audio_codec && (codec_has audio_codec "mp4a.40.29" || codec_has audio_codec "mp4a.40.5"))
    || (not (given audio_codec) && leb 6 index)

pub choose_plain : Browser → Option String → ℕ → ℕ → Bool
choose_plain browser audio_codec index channels =
    (given audio_codec
      && codec_has audio_codec "mp4a.40.2"
      && ((leb 6 index && channels == 1) || browser.is_vivaldi))
    || (not (given audio_codec) && channels == 1)

pub choose : Browser → Option String → ℕ → ℕ → Choice
choose browser audio_codec index channels =
    if browser.is_firefox
    then (if leb 6 index
        then record { object_type = 5; extension_index = less_three index }
        else record { object_type = 2; extension_index = index })
    else if browser.is_android
    then record { object_type = 2; extension_index = index }
    else if choose_sbr audio_codec index
    then record { object_type = 5; extension_index = less_three index }
    else record {
      object_type = if choose_plain browser audio_codec index channels then 2 else 5;
      extension_index = index;
    }

-- `config`: the array has two elements, or four for the object type 5. An element that is not yet set
-- counts as 0 under `|=`.
pub specific_config : ℕ → ℕ → ℕ → ℕ → List ℕ
specific_config object_type index channels extension_index =
    let config0 = bit_or (object_type * 8) (bit_and index 0x0E / 2) in
    let config1 = bit_or (bit_and index 0x01 * 128) (channels * 8) in
    if object_type == 5
    then config0
      ∷ bit_or config1 (bit_and extension_index 0x0E / 2)
      ∷ bit_or (bit_and extension_index 0x01 * 128) 8
      ∷ 0
      ∷ []
    else config0 ∷ config1 ∷ []

pub sampling_index : List ℕ → ℕ → ℕ
sampling_index bytes offset = bit_and (byte_at bytes (offset + 2)) 0x3C / 4

pub channel_config : List ℕ → ℕ → ℕ
channel_config bytes offset =
    bit_or (bit_and (byte_at bytes (offset + 2)) 0x01 * 4)
      (bit_and (byte_at bytes (offset + 3)) 0xC0 / 64)

-- `none` is undefined, after an error event. The object type of the header is read, and then always
-- overwritten.
pub get_audio_config : Browser → List ℕ → ℕ → Option String → Option AudioConfig
get_audio_config browser bytes offset audio_codec =
    get_elem? adts_sampling_rates (sampling_index bytes offset) >>= λ rate.
    let index = sampling_index bytes offset in
    let channels = channel_config bytes offset in
    let c = choose browser audio_codec index channels in
    some (record {
      config = specific_config c.object_type index channels c.extension_index;
      samplerate = rate;
      channel_count = channels;
      codec = c.object_type;
      manifest_codec = audio_codec;
    })

-- `data[i] === v` is false for undefined.
unfoldable pub byte_is : List ℕ → ℕ → ℕ → Bool
byte_is bytes i v = check (get_elem? bytes i)
  where
    check : Option ℕ → Bool
    check none = false
    check (some b) = b == v

unfoldable pub is_header_pattern : List ℕ → ℕ → Bool
is_header_pattern bytes offset =
    byte_is bytes offset 0xff && bit_and (byte_at bytes (offset + 1)) 0xf6 == 0xf0

unfoldable pub get_header_length : List ℕ → ℕ → ℕ
get_header_length bytes offset = if bit_and (byte_at bytes (offset + 1)) 0x01 == 0 then 9 else 7

unfoldable pub get_full_frame_length : List ℕ → ℕ → ℕ
get_full_frame_length bytes offset =
    bit_or
      (bit_or (bit_and (byte_at bytes (offset + 3)) 0x03 * 2048) (byte_at bytes (offset + 4) * 8))
      (bit_and (byte_at bytes (offset + 5)) 0xE0 / 32)

unfoldable pub is_header : List ℕ → ℕ → Bool
is_header bytes offset = ltb (offset + 1) (length bytes) && is_header_pattern bytes offset

unfoldable pub probe : List ℕ → ℕ → Bool
probe bytes offset =
    let frame_length =
      if ltb (offset + 5) (length bytes)
      then get_full_frame_length bytes offset
      else get_header_length bytes offset in
    let new_offset = offset + frame_length in
    ltb (offset + 1) (length bytes)
    && is_header_pattern bytes offset
    && (new_offset == length bytes
        || (ltb (new_offset + 1) (length bytes) && is_header_pattern bytes new_offset))

pub record FrameHeader : Type 0 where
  pub header_length : ℕ
  pub frame_length : ℕ

-- The header's lengths; the stamp is computed by `append_frame`. Where the frame is shorter than its
-- header the source's difference is negative, and fails the test as 0 does.
unfoldable pub parse_frame_header : List ℕ → ℕ → Option FrameHeader
parse_frame_header bytes offset =
    let header_length = get_header_length bytes offset in
    let frame_length = get_full_frame_length bytes offset - header_length in
    if ltb 0 frame_length && leb (offset + header_length + frame_length) (length bytes)
    then some (record { header_length = header_length; frame_length = frame_length })
    else none

pub record Sample (T : Type 0) : Type 0 where
  pub unit : List ℕ
  pub pts : T
  pub dts : T

-- The fields of a track that this file reads or writes; `samplerate` is 0 until it is known.
pub record Track (T : Type 0) : Type 0 where
  pub config : List ℕ
  pub samplerate : ℕ
  pub channel_count : ℕ
  pub codec : Option ℕ
  pub manifest_codec : Option String
  pub samples : List (Sample T)
  pub len : ℕ

-- `none` is the TypeError of `config.config` where `getAudioConfig` returned undefined.
unfoldable pub init_track_config :
    {T : Type 0} → Browser → Track T → List ℕ → ℕ → Option String → Option (Track T)
init_track_config browser track bytes offset audio_codec =
    if track.samplerate == 0
    then get_audio_config browser bytes offset audio_codec >>= (λ c. some (record track {
      config = c.config;
      samplerate = c.samplerate;
      channel_count = c.channel_count;
      codec = some c.codec;
      manifest_codec = c.manifest_codec;
    }))
    else some track

-- The track, and the length that was taken; `none` is undefined.
unfoldable pub append_frame :
    {T : Type 0} → (T → ℕ → ℕ → T) → Track T → List ℕ → ℕ → T → ℕ → Option (Track T × Sample T × ℕ)
append_frame {T} stamp_at track bytes offset pts frame_index =
    parse_frame_header bytes offset >>= λ header.
    let stamp = stamp_at pts frame_index track.samplerate in
    let sample : Sample T = record {
      unit = take header.frame_length (drop (offset + header.header_length) bytes);
      pts = stamp;
      dts = stamp;
    } in
    some (
      record track {
        samples = track.samples ++ sample ∷ [];
        len = track.len + header.frame_length;
      },
      sample,
      header.frame_length + header.header_length,
    )
