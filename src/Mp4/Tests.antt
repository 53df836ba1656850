-- ===== src/Mp4/Tests.antt =====
-- Runs of the generator and of the demuxer on an audio track.
use v4l2rtspserver.Base.{
  ℕ, ◌+◌, ◌-◌, ◌*◌, ◌≡◌, ◌<◌, refl, true, false, none, some, List, [], ◌∷◌, ◌++◌, map, length, drop,
  All, arith,
}
use v4l2rtspserver.Base.Int.{pos}
use v4l2rtspserver.Mp4.{word_bytes, concat, box}
use v4l2rtspserver.Mp4.Types
use v4l2rtspserver.Mp4.Generator.{
  audio, Track, Sample, moof, mdat, mfhd, traf, tfhd, tfdt, trun, sdtp, long_bytes, samples_bytes,
  sample_bytes, init_segment, ftyp_box, moov, mvhd, mvhd_bytes, mvex, trex, trak, tkhd, mdia, mdhd,
  hdlr, minf, dinf_box, stbl, stsd, mp4a, sample_entry, esds, with_duration, ticks, unity_matrix,
}
use v4l2rtspserver.Mp4.Demuxer.{
  Found, whole, find_path, find_from, read_in, InitData, TrackInfo, no_init_data, with_track,
  lookup, parse_init_segment, get_start_dts, offset_start_dts, probe, same_type, subarray,
}
use v4l2rtspserver.Mp4.Find.{
  Entry, IsEntry, entries_bytes, content, contents_of, find_path-contents_of, find_from_ends,
}
use v4l2rtspserver.Mp4.Fragments.{fragment, get_start_dts-moof}
use v4l2rtspserver.Mp4.DataOffset.{data_offset-mdat}
use v4l2rtspserver.Mp4.Shift.{offset_start_dts-moof}
use v4l2rtspserver.Mp4.Append.{
  Mp4Demuxer, audio_only, init_pts_found, remux, or_old, tracks_key, reset_init_segment, append,
  append-moof,
}
use v4l2rtspserver.Mp4.InitSegment.{add_tracks, parse_init_segment-init_segment}

abbrev one_sample : Sample
one_sample = record {
  duration = pos 1024;
  size = 3;
  flags = record {
    is_leading = 0;
    depends_on = 1;
    is_depended_on = 0;
    has_redundancy = 0;
    padding_value = 0;
    is_non_sync = 0;
    degrad_prio = 0;
  };
  cts = pos 0;
}

abbrev sound : Track
sound = record {
  type = audio;
  id = 2;
  timescale = 44100;
  duration = 0;
  parts = 1;
  samples = one_sample ∷ [];
  sps = [];
  pps = [];
  width = 0;
  height = 0;
  pixel_ratio = (1, 1);
  config = 18 ∷ 16 ∷ [];
  samplerate = 44100;
  channel_count = 2;
  is_aac = true;
  codec_is_mp3 = false;
}

abbrev sound_data : InitData
sound_data = record {
  tracks = (2, record { timescale = 44100; type = audio }) ∷ [];
  audio_info = some (record { timescale = 44100; id = 2 });
  video_info = none;
}

abbrev sound_info : TrackInfo
sound_info = record { timescale = 44100; type = audio }

sound_known : lookup sound_data.tracks 2 ≡ some sound_info
unfolding lookup
sound_known = refl

sound_fits : length (moof 1 90000 sound ++ mdat (7 ∷ 8 ∷ 9 ∷ [])) < 4294967296
unfolding moof mfhd traf tfhd tfdt trun sdtp long_bytes samples_bytes sample_bytes mdat box concat
    word_bytes
sound_fits = omega arith

abbrev three_entries : List Entry
three_entries =
    record { type = Types.mdat; payload = (5 ∷ []) ∷ [] }
    ∷ record { type = Types.moof; payload = [] }
    ∷ record { type = Types.mdat; payload = (6 ∷ 7 ∷ []) ∷ (8 ∷ []) ∷ [] }
    ∷ []

three_entries-All : All IsEntry three_entries
unfolding concat
three_entries-All = (
  record { four = refl; fits = omega arith },
  (record { four = refl; fits = omega arith }, (record { four = refl; fits = omega arith }, tt)),
)

find_path-contents_of_example :
    map content (find_path Types.mdat [] (whole (entries_bytes three_entries)))
    ≡ contents_of Types.mdat three_entries
find_path-contents_of_example = find_path-contents_of three_entries Types.mdat three_entries-All

three_contents : contents_of Types.mdat three_entries ≡ (5 ∷ []) ∷ (6 ∷ 7 ∷ 8 ∷ []) ∷ []
unfolding contents_of same_type concat
three_contents = refl

-- Bytes of no box.
find_from_ends_example :
    find_from (4 + 100) (0 ∷ 0 ∷ 0 ∷ []) 0 3 Types.mdat (λ f. f ∷ [])
    ≡ find_from 4 (0 ∷ 0 ∷ 0 ∷ []) 0 3 Types.mdat (λ f. f ∷ [])
find_from_ends_example =
    find_from_ends 4 100 (0 ∷ 0 ∷ 0 ∷ []) 0 3 Types.mdat (λ f. f ∷ []) (omega arith) (omega arith)

get_start_dts-moof_example :
    get_start_dts sound_data (fragment 1 90000 sound (7 ∷ 8 ∷ 9 ∷ [])) ≡ some (90000, 44100)
get_start_dts-moof_example =
    get_start_dts-moof 1 90000 sound (7 ∷ 8 ∷ 9 ∷ []) sound_data sound_info sound_known
      (omega arith) (omega arith) (omega arith) sound_fits

data_offset-mdat_example :
    (run : Found) × (find_path Types.moof
        (Types.traf ∷ Types.trun ∷ [])
        (whole (moof 1 90000 sound ++ mdat (7 ∷ 8 ∷ 9 ∷ [])))
      ≡ run ∷ [])
    × (drop (read_in run 8) (moof 1 90000 sound ++ mdat (7 ∷ 8 ∷ 9 ∷ [])) ≡ 7 ∷ 8 ∷ 9 ∷ [])
data_offset-mdat_example = data_offset-mdat 1 90000 sound (7 ∷ 8 ∷ 9 ∷ []) sound_fits

offset_start_dts-moof_example :
    offset_start_dts sound_data (λ scale. pos (scale * 2)) (fragment 1 90000 sound (7 ∷ 8 ∷ 9 ∷ []))
    ≡ some (fragment 1 (90000 - 88200) sound (7 ∷ 8 ∷ 9 ∷ []))
offset_start_dts-moof_example =
    offset_start_dts-moof 1 sound (7 ∷ 8 ∷ 9 ∷ []) sound_data sound_info (λ scale. pos (scale * 2))
      90000 88200 sound_known (omega arith) refl (omega arith) (omega arith) (omega arith)
      sound_fits

abbrev sound_segment : List ℕ
sound_segment =
    ftyp_box
    ++ box Types.moov (
        mvhd (with_duration sound)
        ∷ trak (with_duration sound)
        ∷ mvex (with_duration sound ∷ [])
        ∷ [])

sound_segment_made : init_segment (sound ∷ []) ≡ some sound_segment
unfolding init_segment moov
sound_segment_made = refl

sound_segment_fits : length sound_segment < 4294967296
unfolding ftyp_box mvhd mvhd_bytes mvex trex trak tkhd mdia mdhd hdlr minf dinf_box stbl stsd mp4a
    sample_entry esds with_duration ticks unity_matrix long_bytes box concat word_bytes
sound_segment_fits = omega arith

parse_init_segment-init_segment_example :
    parse_init_segment sound_segment ≡ add_tracks no_init_data (sound ∷ [])
parse_init_segment-init_segment_example =
    parse_init_segment-init_segment sound [] sound_segment sound_segment_made
      (record { id = omega arith; timescale = omega arith }, tt) sound_segment_fits

sound_data_added : add_tracks no_init_data (sound ∷ []) ≡ sound_data
unfolding add_tracks with_track
sound_data_added = refl

-- A fragment is probed by the type of its first box.
probe_run : (probe (moof 1 0 sound) ≡ true) × (probe (mdat []) ≡ false)
unfolding probe same_type subarray moof mdat box word_bytes concat mfhd traf tfhd tfdt trun sdtp
    long_bytes samples_bytes sample_bytes
probe_run = (refl, refl)

-- Times in ticks of 44.1 kHz.
abbrev sound_demuxer : Mp4Demuxer ℕ
sound_demuxer = record {
  init_data = some sound_data;
  init_pts = none;
  audio_codec = [];
  video_codec = [];
  events = [];
}

append-moof_example :
    append
      (λ (r : ℕ × ℕ). r.0)
      (λ (a b : ℕ). a - b)
      (λ (s scale : ℕ). pos s)
      sound_demuxer
      (fragment 1 90000 sound (7 ∷ 8 ∷ 9 ∷ []))
      1800
    ≡ some (record sound_demuxer {
      init_pts = some 88200;
      events =
          ([] ++ (init_pts_found 88200 ∷ []))
          ++ (remux sound_data (90000 - 88200) (fragment 1 (90000 - 88200) sound (7 ∷ 8 ∷ 9 ∷ []))
              ∷ []);
    })
append-moof_example =
    append-moof (λ (r : ℕ × ℕ). r.0) (λ (a b : ℕ). a - b) (λ (s scale : ℕ). pos s) sound_demuxer
      sound_data sound_info 1800 1 90000 88200 sound (7 ∷ 8 ∷ 9 ∷ []) refl refl sound_known
      (omega arith) refl (omega arith) (omega arith) (omega arith) sound_fits

-- A segment resets the tracks, with a segment in the event if a duration is given.
reset_run :
    (reset_init_segment sound_demuxer [] (97 ∷ []) [] true
      ≡ record sound_demuxer { audio_codec = 97 ∷ [] })
    × (tracks_key sound_data.audio_info sound_data.video_info ≡ audio_only)
unfolding reset_init_segment or_old tracks_key
reset_run = (refl, refl)
