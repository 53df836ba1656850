-- ===== src/Mp4/Generator.antt =====
-- `MP4`, less `init`, whose constants stand here as they are used.
use v4l2rtspserver.Base.{
  ℕ, ◌+◌, ◌*◌, ◌/◌, ◌%◌, bit_and, bit_or, Bool, not, ◌&&◌, Option, none, some, List, [], ◌∷◌, ◌++◌,
  length, map, replicate, ◌==◌, if◌then◌else◌,
}
use v4l2rtspserver.Base.Bytes.{byte_at}
use v4l2rtspserver.Base.Int.{ℤ, pattern32}
use v4l2rtspserver.Mp4.{word_bytes, box}
use v4l2rtspserver.Mp4.Types

pub data TrackType : Type 0 where
  audio : TrackType
  video : TrackType

pub record SampleFlags : Type 0 where
  pub is_leading : ℕ
  pub depends_on : ℕ
  pub is_depended_on : ℕ
  pub has_redundancy : ℕ
  pub padding_value : ℕ
  pub is_non_sync : ℕ
  pub degrad_prio : ℕ

pub record Sample : Type 0 where
  pub duration : ℤ
  pub size : ℕ
  pub flags : SampleFlags
  pub cts : ℤ

-- The duration is `duration` of the source in units of 1 / `parts` seconds; `codec_is_mp3` is its test of
-- `codec`.
pub record Track : Type 0 where
  pub type : TrackType
  pub id : ℕ
  pub timescale : ℕ
  pub duration : ℕ
  pub parts : ℕ
  pub samples : List Sample
  pub sps : List (List ℕ)
  pub pps : List (List ℕ)
  pub width : ℕ
  pub height : ℕ
  pub pixel_ratio : ℕ × ℕ
  pub config : List ℕ
  pub samplerate : ℕ
  pub channel_count : ℕ
  pub is_aac : Bool
  pub codec_is_mp3 : Bool

abbrev video_hdlr : List ℕ
video_hdlr =
    0 ∷ 0 ∷ 0 ∷ 0 ∷ 0 ∷ 0 ∷ 0 ∷ 0 ∷ 118 ∷ 105 ∷ 100 ∷ 101 ∷ 0 ∷ 0 ∷ 0 ∷ 0 ∷ 0 ∷ 0 ∷ 0 ∷ 0 ∷ 0 ∷ 0
    ∷ 0 ∷ 0 ∷ 86 ∷ 105 ∷ 100 ∷ 101 ∷ 111 ∷ 72 ∷ 97 ∷ 110 ∷ 100 ∷ 108 ∷ 101 ∷ 114 ∷ 0 ∷ []

abbrev audio_hdlr : List ℕ
audio_hdlr =
    0 ∷ 0 ∷ 0 ∷ 0 ∷ 0 ∷ 0 ∷ 0 ∷ 0 ∷ 115 ∷ 111 ∷ 117 ∷ 110 ∷ 0 ∷ 0 ∷ 0 ∷ 0 ∷ 0 ∷ 0 ∷ 0 ∷ 0 ∷ 0 ∷ 0
    ∷ 0 ∷ 0 ∷ 83 ∷ 111 ∷ 117 ∷ 110 ∷ 100 ∷ 72 ∷ 97 ∷ 110 ∷ 100 ∷ 108 ∷ 101 ∷ 114 ∷ 0 ∷ []

abbrev pub hdlr_type : TrackType → List ℕ
hdlr_type video = video_hdlr
hdlr_type audio = audio_hdlr

abbrev dref_bytes : List ℕ
dref_bytes =
    0 ∷ 0 ∷ 0 ∷ 0 ∷ 0 ∷ 0 ∷ 0 ∷ 1 ∷ 0 ∷ 0 ∷ 0 ∷ 12 ∷ 117 ∷ 114 ∷ 108 ∷ 32 ∷ 0 ∷ 0 ∷ 0 ∷ 1 ∷ []

-- `STTS`, `STSC` and `STCO`
abbrev stco_bytes : List ℕ
stco_bytes = replicate 8 0

abbrev stsz_bytes : List ℕ
stsz_bytes = replicate 12 0

abbrev vmhd_bytes : List ℕ
vmhd_bytes = 0 ∷ 0 ∷ 0 ∷ 1 ∷ replicate 8 0

abbrev smhd_bytes : List ℕ
smhd_bytes = replicate 8 0

abbrev stsd_bytes : List ℕ
stsd_bytes = replicate 7 0 ++ (1 ∷ [])

unfoldable pub ftyp_box : List ℕ
ftyp_box = box Types.ftyp (
    (105 ∷ 115 ∷ 111 ∷ 109 ∷ [])
    ∷ (0 ∷ 0 ∷ 0 ∷ 1 ∷ [])
    ∷ (105 ∷ 115 ∷ 111 ∷ 109 ∷ [])
    ∷ (97 ∷ 118 ∷ 99 ∷ 49 ∷ [])
    ∷ [])

unfoldable pub dinf_box : List ℕ
dinf_box = box Types.dinf (box Types.dref (dref_bytes ∷ []) ∷ [])

unfoldable pub hdlr : TrackType → List ℕ
hdlr type = box Types.hdlr (hdlr_type type ∷ [])

unfoldable pub mdat : List ℕ → List ℕ
mdat content = box Types.mdat (content ∷ [])

-- The upper and the lower word of a time.
unfoldable pub long_bytes : ℕ → List ℕ
long_bytes time = word_bytes (time / 4294967296) ++ word_bytes (time % 4294967296)

-- The version, the flags and the times of creation and of modification.
abbrev head_of_version_1 : ℕ → List ℕ
head_of_version_1 flags =
    1 ∷ 0 ∷ 0 ∷ flags ∷ 0 ∷ 0 ∷ 0 ∷ 0 ∷ 0 ∷ 0 ∷ 0 ∷ 2 ∷ 0 ∷ 0 ∷ 0 ∷ 0 ∷ 0 ∷ 0 ∷ 0 ∷ 3 ∷ []

-- `duration * timescale`, of which the words keep the whole part.
unfoldable pub ticks : Track → ℕ
ticks track = track.duration * track.timescale / track.parts

unfoldable pub mdhd : Track → List ℕ
mdhd track = box Types.mdhd (
    (head_of_version_1 0
      ++ (word_bytes track.timescale ++ (long_bytes (ticks track) ++ (85 ∷ 196 ∷ 0 ∷ 0 ∷ []))))
    ∷ [])

unfoldable pub mfhd : ℕ → List ℕ
mfhd sequence_number = box Types.mfhd ((replicate 4 0 ++ word_bytes sequence_number) ∷ [])

unfoldable pub unity_matrix : List ℕ
unity_matrix =
    0 ∷ 1 ∷ 0 ∷ 0 ∷ (replicate 12 0 ++ (0 ∷ 1 ∷ 0 ∷ 0 ∷ (replicate 12 0 ++ (64 ∷ 0 ∷ 0 ∷ 0 ∷ []))))

unfoldable pub mvhd_bytes : Track → List ℕ
mvhd_bytes track =
    head_of_version_1 0
    ++ (word_bytes track.timescale
        ++ (long_bytes (ticks track)
            ++ (0
                ∷ 1
                ∷ 0
                ∷ 0
                ∷ 1
                ∷ 0
                ∷ (replicate 10 0 ++ (unity_matrix ++ (replicate 24 0 ++ replicate 4 255))))))

unfoldable pub mvhd : Track → List ℕ
mvhd track = box Types.mvhd (mvhd_bytes track ∷ [])

unfoldable pub sdtp_byte : SampleFlags → ℕ
sdtp_byte flags =
    bit_or (bit_or (flags.depends_on * 16) (flags.is_depended_on * 4)) flags.has_redundancy % 256

unfoldable pub sdtp : Track → List ℕ
sdtp track =
    box Types.sdtp ((replicate 4 0 ++ map (λ (s : Sample). sdtp_byte s.flags) track.samples) ∷ [])

-- The parameter sets, each behind its length.
unfoldable pub set_bytes : List (List ℕ) → List ℕ
set_bytes [] = []
set_bytes (data' ∷ sets) = length data' / 256 % 256 ∷ length data' % 256 ∷ (data' ++ set_bytes sets)

unfoldable pub avcc : Track → List ℕ
avcc track =
    let sps = set_bytes track.sps in
    box Types.avc_c (
      (1
        ∷ byte_at sps 3
        ∷ byte_at sps 4
        ∷ byte_at sps 5
        ∷ 255
        ∷ bit_or 224 (length track.sps) % 256
        ∷ (sps ++ (length track.pps % 256 ∷ set_bytes track.pps)))
      ∷ [])

-- The `compressorname`, behind its length.
abbrev compressor : List ℕ
compressor =
    18 ∷ 100 ∷ 97 ∷ 105 ∷ 108 ∷ 121 ∷ 109 ∷ 111 ∷ 116 ∷ 105 ∷ 111 ∷ 110 ∷ 47 ∷ 104 ∷ 108 ∷ 115 ∷ 46
    ∷ 106 ∷ 115 ∷ 0 ∷ 0 ∷ 0 ∷ 0 ∷ 0 ∷ 0 ∷ 0 ∷ 0 ∷ 0 ∷ 0 ∷ 0 ∷ 0 ∷ 0 ∷ []

unfoldable pub avc1 : Track → List ℕ
avc1 track = box Types.avc1 (
    (replicate 7 0
      ++ (1
          ∷ (replicate 16 0
              ++ (track.width / 256 % 256
                  ∷ track.width % 256
                  ∷ track.height / 256 % 256
                  ∷ track.height % 256
                  ∷ (0
                      ∷ 72
                      ∷ 0
                      ∷ 0
                      ∷ 0
                      ∷ 72
                      ∷ 0
                      ∷ 0
                      ∷ 0
                      ∷ 0
                      ∷ 0
                      ∷ 0
                      ∷ 0
                      ∷ 1
                      ∷ (compressor ++ (0 ∷ 24 ∷ 17 ∷ 17 ∷ [])))))))
    ∷ avcc track
    ∷ box Types.btrt ((0 ∷ 28 ∷ 156 ∷ 128 ∷ 0 ∷ 45 ∷ 198 ∷ 192 ∷ 0 ∷ 45 ∷ 198 ∷ 192 ∷ []) ∷ [])
    ∷ box Types.pasp ((word_bytes track.pixel_ratio.0 ++ word_bytes track.pixel_ratio.1) ∷ [])
    ∷ [])

unfoldable pub esds : Track → List ℕ
esds track =
    let configlen = length track.config in
    0
    ∷ 0
    ∷ 0
    ∷ 0
    ∷ 3
    ∷ (23 + configlen) % 256
    ∷ 0
    ∷ 1
    ∷ 0
    ∷ 4
    ∷ (15 + configlen) % 256
    ∷ 64
    ∷ 21
    ∷ (replicate 11 0
        ++ (5 ∷ configlen % 256 ∷ (map (λ (b : ℕ). b % 256) track.config ++ (6 ∷ 1 ∷ 2 ∷ []))))

unfoldable pub sample_entry : Track → List ℕ
sample_entry track =
    replicate 7 0
    ++ (1
        ∷ (replicate 9 0
            ++ (track.channel_count % 256
                ∷ 0
                ∷ 16
                ∷ 0
                ∷ 0
                ∷ 0
                ∷ 0
                ∷ track.samplerate / 256 % 256
                ∷ track.samplerate % 256
                ∷ 0
                ∷ 0
                ∷ [])))

unfoldable pub mp4a : Track → List ℕ
mp4a track = box Types.mp4a (sample_entry track ∷ box Types.esds (esds track ∷ []) ∷ [])

unfoldable pub mp3 : Track → List ℕ
mp3 track = box Types.mp3_type (sample_entry track ∷ [])

unfoldable pub stsd : Track → List ℕ
stsd track = entry track.type
  where
    entry : TrackType → List ℕ
    entry audio = box Types.stsd (
        stsd_bytes
        ∷ (if not track.is_aac && track.codec_is_mp3 then mp3 track else mp4a track)
        ∷ [])
    entry video = box Types.stsd (stsd_bytes ∷ avc1 track ∷ [])

unfoldable pub stbl : Track → List ℕ
stbl track = box Types.stbl (
    stsd track
    ∷ box Types.stts (stco_bytes ∷ [])
    ∷ box Types.stsc (stco_bytes ∷ [])
    ∷ box Types.stsz (stsz_bytes ∷ [])
    ∷ box Types.stco (stco_bytes ∷ [])
    ∷ [])

abbrev pub media_header : TrackType → List ℕ
media_header audio = box Types.smhd (smhd_bytes ∷ [])
media_header video = box Types.vmhd (vmhd_bytes ∷ [])

unfoldable pub minf : Track → List ℕ
minf track = box Types.minf (media_header track.type ∷ dinf_box ∷ stbl track ∷ [])

unfoldable pub mdia : Track → List ℕ
mdia track = box Types.mdia (mdhd track ∷ hdlr track.type ∷ minf track ∷ [])

unfoldable pub tkhd : Track → List ℕ
tkhd track = box Types.tkhd (
    (head_of_version_1 7
      ++ (word_bytes track.id
          ++ (replicate 4 0
              ++ (long_bytes (ticks track)
                  ++ (replicate 16 0
                      ++ (unity_matrix
                          ++ (track.width / 256 % 256
                              ∷ track.width % 256
                              ∷ 0
                              ∷ 0
                              ∷ track.height / 256 % 256
                              ∷ track.height % 256
                              ∷ 0
                              ∷ 0
                              ∷ [])))))))
    ∷ [])

-- What `trak` leaves of its track: `duration || 0xffffffff`.
unfoldable pub with_duration : Track → Track
with_duration track =
    if track.duration == 0 then record track { duration = 4294967295; parts = 1 } else track

-- The box of a track that has its duration.
unfoldable pub trak : Track → List ℕ
trak track = box Types.trak (tkhd track ∷ mdia track ∷ [])

unfoldable pub trex : Track → List ℕ
trex track = box Types.trex (
    (replicate 4 0
      ++ (word_bytes track.id ++ (0 ∷ 0 ∷ 0 ∷ 1 ∷ (replicate 8 0 ++ (0 ∷ 1 ∷ 0 ∷ 1 ∷ [])))))
    ∷ [])

unfoldable pub mvex : List Track → List ℕ
mvex tracks = box Types.mvex (map trex tracks)

-- Without a track, `tracks[0]` has no `timescale`: an error. The boxes of the tracks come first, so that
-- the header has the duration they leave.
unfoldable pub moov : List Track → Option (List ℕ)
moov [] = none
moov (track ∷ tracks) =
    let all = map with_duration (track ∷ tracks) in
    some (box Types.moov (mvhd (with_duration track) ∷ (map trak all ++ (mvex all ∷ []))))

unfoldable pub init_segment : List Track → Option (List ℕ)
init_segment tracks = ftyp_with (moov tracks)
  where
    ftyp_with : Option (List ℕ) → Option (List ℕ)
    ftyp_with none = none
    ftyp_with (some movie) = some (ftyp_box ++ movie)

-- `degradPrio & 0xF0 << 8` is a test of the bits of 0xf000, and all but its low byte is lost.
unfoldable pub sample_bytes : Sample → List ℕ
sample_bytes s =
    word_bytes (pattern32 s.duration)
    ++ (word_bytes s.size
        ++ (bit_or (s.flags.is_leading * 4) s.flags.depends_on % 256
            ∷ bit_or
                (bit_or (bit_or (s.flags.is_depended_on * 64) (s.flags.has_redundancy * 16))
                  (s.flags.padding_value * 2))
                s.flags.is_non_sync
              % 256
            ∷ bit_and s.flags.degrad_prio 61440 % 256
            ∷ bit_and s.flags.degrad_prio 15
            ∷ word_bytes (pattern32 s.cts)))

unfoldable pub samples_bytes : List Sample → List ℕ
samples_bytes [] = []
samples_bytes (s ∷ samples) = sample_bytes s ++ samples_bytes samples

unfoldable pub trun : Track → ℕ → List ℕ
trun track offset =
    let len = length track.samples in
    box Types.trun (
      (0
        ∷ 0
        ∷ 15
        ∷ 1
        ∷ (word_bytes len
            ++ (word_bytes (offset + (8 + (12 + 16 * len))) ++ samples_bytes track.samples)))
      ∷ [])

unfoldable pub tfhd : Track → List ℕ
tfhd track = box Types.tfhd ((replicate 4 0 ++ word_bytes track.id) ∷ [])

unfoldable pub tfdt : ℕ → List ℕ
tfdt base_media_decode_time =
    box Types.tfdt ((1 ∷ 0 ∷ 0 ∷ 0 ∷ long_bytes base_media_decode_time) ∷ [])

unfoldable pub traf : Track → ℕ → List ℕ
traf track base_media_decode_time =
    let dependency = sdtp track in
    box Types.traf (
      tfhd track
      ∷ tfdt base_media_decode_time
      ∷ trun track (length dependency + 16 + 20 + 8 + 16 + 8 + 8)
      ∷ dependency
      ∷ [])

unfoldable pub moof : ℕ → ℕ → Track → List ℕ
moof sn base_media_decode_time track =
    box Types.moof (mfhd sn ∷ traf track base_media_decode_time ∷ [])
