-- ===== src/Mp4/DataOffset.antt =====
-- The data offset that the generator writes into a fragment.
use v4l2rtspserver.Base.{
  ℕ, ◌+◌, ◌*◌, ◌≡◌, ◌<◌, ap, ◌∙◌, List, [], ◌∷◌, ◌++◌, length, drop, arith, length-append,
  drop-append_add,
}
use mathlib.Core.List.{append-nil}
use v4l2rtspserver.Mp4.{word_bytes, concat, box}
use v4l2rtspserver.Mp4.Types
use v4l2rtspserver.Mp4.Generator.{
  Track, Sample, long_bytes, mfhd, tfhd, tfdt, trun, sdtp, traf, moof, mdat, sample_bytes,
  samples_bytes,
}
use v4l2rtspserver.Mp4.Demuxer.{Found, whole, find_path, read_in}
use v4l2rtspserver.Mp4.Fragments.{fragment, data_offset}
use v4l2rtspserver.Mp4.Fragments as F

length-samples_bytes :
    (samples : List Sample) → length (samples_bytes samples) ≡ 16 * length samples
unfolding samples_bytes sample_bytes word_bytes
length-samples_bytes [] = omega arith
length-samples_bytes (s ∷ samples) = omega (arith, length-samples_bytes samples)

-- A box is 8 bytes and its parts.
length-box :
    (a b c d : ℕ) (payload : List (List ℕ))
    → length (box (a ∷ b ∷ c ∷ d ∷ []) payload) ≡ 8 + length (concat payload)
unfolding box word_bytes
length-box a b c d payload = omega arith

module _ (sn time : ℕ) (track : Track) where
  length-trun : (offset : ℕ) → length (trun track offset) ≡ 8 + (12 + 16 * length track.samples)
  unfolding trun concat word_bytes
  length-trun offset =
      let samples = samples_bytes track.samples in
      omega (
        arith,
        length-samples_bytes track.samples,
        ap length (append-nil samples),
        length-box 116 114 117 110 (
            (0
              ∷ 0
              ∷ 15
              ∷ 1
              ∷ (word_bytes (length track.samples)
                  ++ (word_bytes (offset + (8 + (12 + 16 * length track.samples))) ++ samples)))
            ∷ []),
      )

  length-traf :
      length (traf track time)
      ≡ 8 + 16 + 20 + (8 + (12 + 16 * length track.samples)) + length (sdtp track)
  unfolding traf tfhd tfdt concat long_bytes word_bytes box
  length-traf =
      let offset = length (sdtp track) + 16 + 20 + 8 + 16 + 8 + 8 in
      omega (
        arith,
        length-trun offset,
        length-append (trun track offset) (sdtp track ++ []),
        ap length (append-nil (sdtp track)),
      )

  -- The data offset of a fragment is the length of its `moof` box and the 8 bytes of the header of `mdat`.
  pub data_offset-length :
      (data_bytes : List ℕ) → data_offset sn time track data_bytes ≡ length (moof sn time track) + 8
  unfolding moof mfhd concat word_bytes box
  data_offset-length data_bytes =
      omega (arith, length-traf, ap length (append-nil (traf track time)))

  -- In a fragment whose length fits 32 bits the demuxer finds one `trun`, and the data start at the
  -- offset that stands in it.
  pub data_offset-mdat :
      (data_bytes : List ℕ)
      → length (moof sn time track ++ mdat data_bytes) < 4294967296
      → (run : Found) × (find_path Types.moof
            (Types.traf ∷ Types.trun ∷ [])
            (whole (moof sn time track ++ mdat data_bytes))
          ≡ run ∷ [])
        × (drop (read_in run 8) (moof sn time track ++ mdat data_bytes) ≡ data_bytes)
  unfolding mdat box concat word_bytes
  data_offset-mdat data_bytes fits =
      let offset = data_offset sn time track data_bytes in
      let e = data_offset-length data_bytes in
      let front = moof sn time track in
      let small : offset < 4294967296 = omega (arith, e, length-append front (mdat data_bytes)) in
      let read = F.read_trun sn time track data_bytes fits small in
      let start = drop-append_add 8 front (mdat data_bytes) in
      (
        F.trun_found sn time track data_bytes fits,
        F.find_trun sn time track data_bytes fits,
        ap (λ (k : ℕ). drop k (front ++ mdat data_bytes)) (read ∙ e)
            ∙ start
            ∙ append-nil data_bytes,
      )
