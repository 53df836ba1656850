-- ===== src/Adts/Tests.antt =====
-- ADTS headers of AAC-LC at 44.1 kHz in stereo.
use v4l2rtspserver.Base.{
  ℕ, ◌+◌, ◌*◌, ◌/◌, ◌≡◌, ◌⊎◌, ◌≤◌, ◌<◌, refl, false, some, none, List, [], ◌∷◌, ◌++◌, length, take,
  drop, All, arith,
}
use v4l2rtspserver.Base.Bytes.{IsByte}
use v4l2rtspserver.Adts.{
  Browser, AudioConfig, Sample, Track, choose, choose_sbr, choose_plain, codec_has, given,
  specific_config, sampling_index, channel_config, get_audio_config, get_full_frame_length,
  get_header_length, append_frame, init_track_config,
}
use v4l2rtspserver.Adts.Config.{IsConfigOf, get_audio_config_decodes, init_track_config_throws}
use v4l2rtspserver.Adts.Frames.{append_frame_lem}

-- A frame of seven bytes of header and two of payload.
abbrev frame : List ℕ
frame = 0xff ∷ 0xf1 ∷ 0x50 ∷ 0x80 ∷ 0x01 ∷ 0x20 ∷ 0x00 ∷ 0x21 ∷ 0x22 ∷ []

frame-IsByte : All IsByte frame
frame-IsByte = (
  omega arith,
  (
    omega arith,
    (
      omega arith,
      (omega arith, (omega arith, (omega arith, (omega arith, (omega arith, (omega arith, tt)))))),
    ),
  ),
)

abbrev chrome : Browser
chrome = record { is_firefox = false; is_android = false; is_vivaldi = false }

abbrev config : AudioConfig
config = record {
  config = specific_config 5 4 2 4;
  samplerate = 44100;
  channel_count = 2;
  codec = 5;
  manifest_codec = none;
}

frame_config : get_audio_config chrome frame 0 none ≡ some config
unfolding get_audio_config sampling_index channel_config choose choose_sbr choose_plain given
    codec_has
frame_config = refl

get_audio_config_example :
    IsConfigOf
      (sampling_index frame 0)
      (channel_config frame 0)
      (choose chrome none (sampling_index frame 0) (channel_config frame 0))
      config
get_audio_config_example =
    get_audio_config_decodes chrome frame 0 none config frame-IsByte frame_config

lengths : (get_full_frame_length frame 0 ≡ 9) × (get_header_length frame 0 ≡ 7)
unfolding get_full_frame_length get_header_length
lengths = (refl, refl)

-- A whole clock for the time stamps.
abbrev stamp : ℕ → ℕ → ℕ → ℕ
stamp pts i rate = pts + i * (1024 * 90000 / rate)

abbrev track : Track ℕ
track = record {
  config = [];
  samplerate = 44100;
  channel_count = 2;
  codec = none;
  manifest_codec = none;
  samples = [];
  len = 0;
}

append_frame_example :
    (sample : Sample ℕ) × (track' : Track ℕ) × (append_frame stamp track frame 0 900 1
      ≡ some (track', sample, get_full_frame_length frame 0))
    × (length sample.unit + get_header_length frame 0 ≡ get_full_frame_length frame 0)
    × (sample.unit ≡ take (length sample.unit) (drop (0 + get_header_length frame 0) frame))
    × (sample.pts ≡ stamp 900 1 track.samplerate)
    × (track'.samples ≡ track.samples ++ sample ∷ [])
    × (track'.len ≡ track.len + length sample.unit)
append_frame_example =
    append_frame_lem stamp track frame 0 900 1 (omega (arith, lengths.0, lengths.1))
      (omega (arith, lengths.0))

cut : get_full_frame_length (take 8 frame) 0 ≡ 9
unfolding get_full_frame_length
cut = refl

abbrev new_track : Track ℕ
new_track = record track { samplerate = 0 }

-- A header with the sampling index 13.
abbrev reserved : List ℕ
reserved = 0xff ∷ 0xf1 ∷ 0x74 ∷ 0x80 ∷ []

init_track_config_throws_example :
    ((new_track.samplerate ≡ 0)
      × (13 ≤ sampling_index reserved 0)
      × (init_track_config chrome new_track reserved 0 none ≡ none))
    ⊎ ((new_track.samplerate ≡ 0)
        × (sampling_index reserved 0 < 13)
        × ((track' : Track ℕ) × (init_track_config chrome new_track reserved 0 none ≡ some track')
            × (1 ≤ track'.samplerate)
            × (track'.samples ≡ new_track.samples)
            × (init_track_config chrome track' frame 0 none ≡ some track')))
    ⊎ ((1 ≤ new_track.samplerate)
        × (init_track_config chrome new_track reserved 0 none ≡ some new_track))
init_track_config_throws_example =
    init_track_config_throws chrome new_track reserved 0 none frame 0 none

throws_run : init_track_config chrome new_track reserved 0 none ≡ none
unfolding init_track_config get_audio_config sampling_index
throws_run = refl
