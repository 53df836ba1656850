-- ===== src/AudioDemuxers/Tests.antt =====
-- The demuxers on a tag with a time stamp and one AAC frame.
use v4l2rtspserver.Base.{
  ℕ, ◌+◌, ◌*◌, ◌/◌, ◌≡◌, refl, true, false, Option, some, none, List, [], ◌∷◌, ◌++◌, All, arith,
}
use v4l2rtspserver.Base.Bytes.{IsByte}
use v4l2rtspserver.Adts
use v4l2rtspserver.MpegAudio
use v4l2rtspserver.Id3
use v4l2rtspserver.AudioDemuxers.{aac_probe, has_time_stamp}
use v4l2rtspserver.AudioDemuxers.Laws.{IsStampedFrame, aac_probe_finds, aac_probe_sound}

-- A tag with one PRIV frame, whose owner is that of time stamps.
abbrev tag : List ℕ
tag =
    0x49
    ∷ 0x44
    ∷ 0x33
    ∷ 4
    ∷ 0
    ∷ 0
    ∷ 0
    ∷ 0
    ∷ 0
    ∷ 63
    ∷ (Id3.codes "PRIV"
        ++ (0
            ∷ 0
            ∷ 0
            ∷ 53
            ∷ 0
            ∷ 0
            ∷ (Id3.time_stamp_owner ++ (0 ∷ 0 ∷ 0 ∷ 0 ∷ 0 ∷ 0 ∷ 1 ∷ 95 ∷ 144 ∷ []))))

abbrev aac_data : List ℕ
aac_data = tag ++ (255 ∷ 241 ∷ 80 ∷ 128 ∷ 1 ∷ 32 ∷ 0 ∷ 33 ∷ 34 ∷ [])

stamped : IsStampedFrame Adts.probe aac_data tag 73
unfolding Id3.text_eq Id3.is_byte Id3.is_below Id3.is_tag Id3.is_header Id3.is_footer Id3.read_size
    Id3.tag_length Id3.scan_tags Id3.get_id3_data Id3.get_frame_data Id3.lead Id3.code2 Id3.code3
    Id3.utf8_array_to_str Id3.decode_priv_frame Id3.two_strings Id3.decode_text_frame
    Id3.decode_url_frame Id3.decode_frame Id3.push Id3.tag_frames Id3.skip_footer Id3.all_frames
    Id3.get_id3_frames Id3.info_is Id3.is_time_stamp_frame Id3.time_stamp_ticks Id3.round_time_stamp
    Id3.read_time_stamp Id3.first_time_stamp Id3.get_time_stamp Adts.probe Adts.is_header_pattern
    Adts.get_full_frame_length Adts.byte_is has_time_stamp
stamped = record {
  tag = refl;
  stamped = refl;
  frame = refl;
  behind = omega arith;
  near = omega arith;
  inside = omega arith;
}

aac_probe_finds_example : aac_probe aac_data ≡ true
aac_probe_finds_example = aac_probe_finds aac_data tag 73 stamped

aac_probe_sound_example :
    (id3_data : List ℕ) × (k : ℕ) × IsStampedFrame Adts.probe aac_data id3_data k
aac_probe_sound_example = aac_probe_sound aac_data aac_probe_finds_example

abbrev stamp : ℕ → ℕ → ℕ → ℕ
stamp pts i rate = pts + i * (1024 * 90000 / rate)

-- 90 times the time stamp, or 0.
start : Option ℕ → ℕ
start none = 0
start (some t) = 90 * t

abbrev chrome : Adts.Browser
chrome = record { is_firefox = false; is_android = false; is_vivaldi = false }

abbrev aac_track : Adts.Track ℕ
aac_track = record {
  config = [];
  samplerate = 0;
  channel_count = 0;
  codec = none;
  manifest_codec = none;
  samples = [];
  len = 0;
}

abbrev mp3_track : MpegAudio.Track ℕ
mp3_track = record { config = []; channel_count = 0; samplerate = 0; samples = []; len = 0 }

-- A header of MPEG audio behind a byte.
abbrev mp3_data : List ℕ
mp3_data = 0 ∷ 0xff ∷ 0xfb ∷ 0x90 ∷ 0x00 ∷ []

mp3_data-IsByte : All IsByte mp3_data
mp3_data-IsByte = (omega arith, (omega arith, (omega arith, (omega arith, (omega arith, tt)))))
