-- ===== src/Mp4/Append.antt =====
-- The object of the MP4 demuxer: its state, `resetInitSegment`, `resetTimeStamp` and `append`. Seconds are
-- floating-point numbers, whose arithmetic is a parameter.
use v4l2rtspserver.Base.{
  ℕ, ◌-◌, ◌≡◌, ◌≤◌, ◌<◌, Bool, false, Option, none, some, List, [], ◌∷◌, ◌++◌, length,
  if◌then◌else◌, ◌>>=◌, arith, length-append,
}
use v4l2rtspserver.Base.Int.{ℤ, pos}
use v4l2rtspserver.Mp4.Generator.{Track, moof, mdat}
use v4l2rtspserver.Mp4.Demuxer.{
  InitData, KindInfo, TrackInfo, lookup, parse_init_segment, get_start_dts, offset_start_dts,
}
use v4l2rtspserver.Mp4.Fragments.{fragment, get_start_dts-moof}
use v4l2rtspserver.Mp4.DataOffset.{data_offset-length}
use v4l2rtspserver.Mp4.Shift.{offset_start_dts-moof}

-- The key of the tracks object, of which there is one at most.
pub data TracksKey : Type 0 where
  audiovideo : TracksKey
  audio_only : TracksKey
  video_only : TracksKey
  no_tracks : TracksKey

-- The calls of the observer and of the remuxer. The codecs are names, of which the source joins two by a
-- comma and takes the one of its key otherwise; an empty one stands for one that is not given.
pub data Event {ℓ} (S : Type ℓ) : Type ℓ where
  frag_parsing_init_segment :
      TracksKey → (audio_codec video_codec : List ℕ) → (segment : Option (List ℕ)) → Event S
  init_pts_found : S → Event S
  remux : InitData → (start_dts : S) → (bytes : List ℕ) → Event S

pub record Mp4Demuxer {ℓ} (S : Type ℓ) : Type ℓ where
  pub init_data : Option InitData
  pub init_pts : Option S
  pub audio_codec : List ℕ
  pub video_codec : List ℕ
  pub events : List (Event S)

unfoldable pub tracks_key : Option KindInfo → Option KindInfo → TracksKey
tracks_key (some _) (some _) = audiovideo
tracks_key (some _) none = audio_only
tracks_key none (some _) = video_only
tracks_key none none = no_tracks

unfoldable pub or_old : List ℕ → List ℕ → List ℕ
or_old [] old = old
or_old (c ∷ codec) old = c ∷ codec

-- `has_duration` tells if a duration is given. A segment that is empty or missing is `[]`.
unfoldable pub reset_init_segment {ℓ} :
    {S : Type ℓ}
    → Mp4Demuxer S
    → List ℕ
    → (audio_codec video_codec : List ℕ) → (has_duration : Bool) → Mp4Demuxer S
reset_init_segment s [] audio_codec video_codec has_duration = record s {
  audio_codec = or_old audio_codec s.audio_codec;
  video_codec = or_old video_codec s.video_codec;
}
reset_init_segment s (b ∷ bytes) audio_codec video_codec has_duration =
    let init_data = parse_init_segment (b ∷ bytes) in
    record s {
      init_data = some init_data;
      events =
          s.events
          ++ (frag_parsing_init_segment (tracks_key init_data.audio_info init_data.video_info)
                audio_codec video_codec (if has_duration then some (b ∷ bytes) else none)
              ∷ []);
    }

unfoldable pub reset_time_stamp {ℓ} : {S : Type ℓ} → Mp4Demuxer S → Option S → Mp4Demuxer S
reset_time_stamp s init_pts = record s { init_pts = init_pts }

-- `seconds` is the division of ticks by their scale, `minus` the difference, and `ticks` the product with
-- a time scale, whole.
module _ {ℓ} {S : Type ℓ} (seconds : ℕ × ℕ → S) (minus : S → S → S) (ticks : S → ℕ → ℤ) where
  -- `append` with its data parsed for tracks, if there were none.
  unfoldable pub with_init_data : Mp4Demuxer S → List ℕ → Mp4Demuxer S
  with_init_data s bytes = from s.init_data
    where
      from : Option InitData → Mp4Demuxer S
      from none = reset_init_segment s bytes s.audio_codec s.video_codec false
      from (some d) = s

  -- The first start of a fragment becomes the origin of the times.
  unfoldable pub with_init_pts : Mp4Demuxer S → InitData → List ℕ → S → Option (S × Mp4Demuxer S)
  with_init_pts s d bytes time_offset = from s.init_pts
    where
      from : Option S → Option (S × Mp4Demuxer S)
      from none = get_start_dts d bytes >>= λ start_dts.
          let init_pts = minus (seconds start_dts) time_offset in
          some (
            init_pts,
            record s {
              init_pts = some init_pts;
              events = s.events ++ (init_pts_found init_pts ∷ []);
            },
          )
      from (some init_pts) = some (init_pts, s)

  -- Without tracks, `initData.audio` throws.
  unfoldable pub append : Mp4Demuxer S → List ℕ → S → Option (Mp4Demuxer S)
  append s₀ bytes time_offset = do
    let s = with_init_data s₀ bytes
    d ← s.init_data
    timed ← with_init_pts s d bytes time_offset
    bytes' ← offset_start_dts d (ticks timed.0) bytes
    start_dts ← get_start_dts d bytes'
    let s' = timed.1
    some (record s' { events = s'.events ++ (remux d (seconds start_dts) bytes' ∷ []) })

  -- With tracks and no origin of the times, `append` of a fragment makes its start, less the time
  -- offset, the origin, and passes to the remuxer the fragment that the generator makes for the
  -- start less that origin, if this is not negative, the track has a time scale, its number and the
  -- length of the fragment fit 32 bits and the start fits 64.
  pub append-moof :
      (s : Mp4Demuxer S) (d : InitData) (info : TrackInfo) (time_offset : S) (sn time earlier : ℕ)
      (track : Track) (content : List ℕ)
      → s.init_data ≡ some d
      → s.init_pts ≡ none
      → lookup d.tracks track.id ≡ some info
      → 1 ≤ info.timescale
      → ticks (minus (seconds (time, info.timescale)) time_offset) info.timescale ≡ pos earlier
      → earlier ≤ time
      → track.id < 4294967296
      → time < 18446744073709551616
      → length (fragment sn time track content) < 4294967296
      → append s (fragment sn time track content) time_offset
        ≡ some (record s {
          init_pts = some (minus (seconds (time, info.timescale)) time_offset);
          events =
              (s.events
                ++ (init_pts_found (minus (seconds (time, info.timescale)) time_offset) ∷ []))
              ++ (remux d
                    (seconds (time - earlier, info.timescale))
                    (fragment sn (time - earlier) track content)
                  ∷ []);
        })
  unfolding append with_init_data with_init_pts
  append-moof s d info time_offset sn time earlier track content has fresh known scaled offset le
        id_fits time_fits fits =
      let pts = minus (seconds (time, info.timescale)) time_offset in
      let later = time - earlier in
      let same : length (fragment sn later track content)
          ≡ length (fragment sn time track content) =
        omega (
          arith,
          length-append (moof sn later track) (mdat content),
          length-append (moof sn time track) (mdat content),
          data_offset-length sn later track content,
          data_offset-length sn time track content,
        ) in
      let start =
        get_start_dts-moof sn time track content d info known scaled id_fits time_fits fits in
      let moved =
        offset_start_dts-moof sn track content d info (ticks pts) time earlier known scaled offset
          le id_fits time_fits fits in
      let start' =
        get_start_dts-moof sn later track content d info known scaled id_fits (omega arith)
          (omega (arith, same)) in
      rw (has, fresh, start, moved, start')
