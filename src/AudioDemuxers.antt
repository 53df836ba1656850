-- ===== src/AudioDemuxers.antt =====
-- hls.js/src/demux/aacdemuxer.js and mp3demuxer.js: the probes of the two demuxers and the loops of their
-- `append`, up to the call of the remuxer. `start` stands for `90 * getTimeStamp(...)`, which is
-- floating-point and may be NaN, and `stamp_at` for the time stamps of frames.
mod Laws
mod Moves
mod Tests
use v4l2rtspserver.Base.{
  ℕ, zero, suc, ◌+◌, ◌-◌, Bool, true, false, ◌&&◌, ◌||◌, Option, none, some, List, [], ◌∷◌, ◌++◌,
  ltb, if◌then◌else◌, ◌>>=◌, length, min,
}
use v4l2rtspserver.Adts
use v4l2rtspserver.Adts.{Browser}
use v4l2rtspserver.MpegAudio
use v4l2rtspserver.Id3

-- The loop of `probe`: a number of offsets, one after the other.
pub seek : (ℕ → Bool) → ℕ → ℕ → Bool
seek test zero offset = false
seek test (suc n) offset = test offset || seek test n (offset + 1)

-- At most 100 offsets, and none of the last byte.
pub offsets_to_probe : List ℕ → ℕ → ℕ
offsets_to_probe bytes offset = min (length bytes - 1) (offset + 100) - offset

pub has_time_stamp : Option ℕ → Bool
has_time_stamp none = false
has_time_stamp (some t) = true

-- `probe` of both demuxers, by the probe for a frame.
pub probe_with : (List ℕ → ℕ → Bool) → List ℕ → Option (List ℕ) → Bool
probe_with test bytes none = false
probe_with test bytes (some id3_data) =
    if has_time_stamp (Id3.get_time_stamp id3_data)
    then seek (test bytes) (offsets_to_probe bytes (length id3_data)) (length id3_data)
    else false

pub aac_probe : List ℕ → Bool
aac_probe bytes = probe_with Adts.probe bytes (Id3.get_id3_data bytes 0)

pub mp3_probe : List ℕ → Bool
mp3_probe bytes = probe_with MpegAudio.probe bytes (Id3.get_id3_data bytes 0)

pub record Id3Sample (T : Type 0) : Type 0 where
  pub pts : T
  pub dts : T
  pub unit : List ℕ

-- The local variables of `append` that its loop changes, for a kind of track.
pub record Scan (T K : Type 0) : Type 0 where
  pub track : K
  pub offset : ℕ
  pub frame_index : ℕ
  pub stamp : T
  pub id3_samples : List (Id3Sample T)

-- One round: it goes on, or breaks the loop.
pub data Round (S : Type 0) : Type 0 where
  next break : S → Round S

module _ {T K : Type 0} where
  -- A frame that `appendFrame` took, or undefined.
  pub take_frame : {S : Type 0} → (S → T) → Scan T K → Option (K × S × ℕ) → Round (Scan T K)
  take_frame pts s none = break s
  take_frame pts s (some (track, sample, len)) = next (record s {
    track = track;
    offset = s.offset + len;
    frame_index = s.frame_index + 1;
    stamp = pts sample;
  })

  -- A tag between the frames; `none` is the TypeError of `id3Data.length`.
  pub take_tag : Scan T K → Option (List ℕ) → Option (Round (Scan T K))
  take_tag s none = none
  take_tag s (some id3_data) = some (
      next (record s {
        offset = s.offset + length id3_data;
        id3_samples =
            s.id3_samples ++ record { pts = s.stamp; dts = s.stamp; unit = id3_data } ∷ [];
      }))

  pub skip_byte : Scan T K → Scan T K
  skip_byte s = record s { offset = s.offset + 1 }

  -- What both loops do where no frame starts.
  pub no_frame : List ℕ → Scan T K → Option (Round (Scan T K))
  no_frame bytes s =
      if Id3.is_header bytes s.offset
      then take_tag s (Id3.get_id3_data bytes s.offset)
      else some (next (skip_byte s))

  -- What follows a round.
  pub resume : (Scan T K → Option (Scan T K)) → Option (Round (Scan T K)) → Option (Scan T K)
  resume rest none = none
  resume rest (some (next s)) = rest s
  resume rest (some (break s)) = some s

  -- The loop, on fuel, for its condition and its body.
  pub rounds :
      (ℕ → Bool) → (Scan T K → Option (Round (Scan T K))) → ℕ → Scan T K → Option (Scan T K)
  rounds goes_on body zero s = some s
  rounds goes_on body (suc fuel) s =
      let rest = resume (λ s'. rounds goes_on body fuel s') (body s) in
      if goes_on s.offset then rest else some s

  -- `append` with the first tag, by the stamp before the first frame.
  pub scan_from : T → T → K → List ℕ → Scan T K
  scan_from pts stamp track id3_data = record {
    track = track;
    offset = length id3_data;
    frame_index = 0;
    stamp = stamp;
    id3_samples = record { pts = pts; dts = pts; unit = id3_data } ∷ [];
  }

module _ {T : Type 0} (stamp_at : T → ℕ → ℕ → T) (start : Option ℕ → T) (bytes : List ℕ) where
  pub aac_round : Browser → T → Scan T (Adts.Track T) → Option (Round (Scan T (Adts.Track T)))
  aac_round browser pts s =
      if Adts.is_header bytes s.offset && ltb (s.offset + 5) (length bytes)
      then (Adts.init_track_config browser s.track bytes s.offset s.track.manifest_codec
          >>= λ track. some (
              take_frame (λ (x : Adts.Sample T). x.pts) (record s { track = track })
                (Adts.append_frame stamp_at track bytes s.offset pts s.frame_index)))
      else no_frame bytes s

  -- `none` is a TypeError: no tag at the start of the data, or one of a round.
  pub aac_append : Browser → Adts.Track T → Option (Scan T (Adts.Track T))
  aac_append browser track = Id3.get_id3_data bytes 0 >>= λ id3_data.
      let pts = start (Id3.get_time_stamp id3_data) in
      rounds (λ offset. ltb offset (length bytes - 1)) (aac_round browser pts) (length bytes)
        (scan_from pts pts track id3_data)

  pub mp3_round : T → Scan T (MpegAudio.Track T) → Option (Round (Scan T (MpegAudio.Track T)))
  mp3_round pts s =
      if MpegAudio.is_header bytes s.offset
      then some (
          take_frame (λ (x : MpegAudio.Sample T). x.pts) s
            (MpegAudio.append_frame stamp_at s.track bytes s.offset pts s.frame_index))
      else no_frame bytes s

  -- The stamp is `zero_stamp`, the number 0, until a frame is taken.
  pub mp3_append : T → MpegAudio.Track T → Option (Scan T (MpegAudio.Track T))
  mp3_append zero_stamp track = Id3.get_id3_data bytes 0 >>= λ id3_data.
      let pts = start (Id3.get_time_stamp id3_data) in
      rounds (λ offset. ltb offset (length bytes)) (mp3_round pts) (length bytes)
        (scan_from pts zero_stamp track id3_data)
