-- ===== src/AudioDemuxers/Moves.antt =====
-- Each round of the loops of `append` moves on, so that the loops end.
use v4l2rtspserver.Base.{
  ℕ, ◌+◌, ◌-◌, ◌≤◌, ◌<◌, ◌≡◌, sym, ◌∙◌, ap, refl, true, Option, none, some, List, All, length,
  arith, Bool-cases, Option-cases, inl, inr, ltb, ◌&&◌, >>=-eq-some, drop, length-take, length-drop,
  ◌⊎◌,
}
use mathlib.Core.Option.{some-injective}
use v4l2rtspserver.Adts
use v4l2rtspserver.Adts.{Browser, get_header_length, get_full_frame_length}
use v4l2rtspserver.Adts.Frames.{append_frame_lem, append_frame_undefined}
use v4l2rtspserver.Id3
use v4l2rtspserver.Id3.Scan.{is_header-le, get_id3_data-subarray}
use v4l2rtspserver.AudioDemuxers.{
  Scan, Round, next, break, take_frame, take_tag, skip_byte, no_frame, rounds, aac_round, mp3_round,
}
use v4l2rtspserver.MpegAudio
use v4l2rtspserver.MpegAudio.Laws.{append_frame-length}
use v4l2rtspserver.Base.Bytes.{IsByte, byte_at-lt}
use v4l2rtspserver.AudioDemuxers.Laws.{rounds-fuel}

abbrev offset_of : {T K : Type 0} → ℕ → Option (Round (Scan T K)) → ℕ
offset_of d none = d
offset_of d (some (next s)) = s.offset
offset_of d (some (break s)) = d

fits :
    (bytes : List ℕ) (offset : ℕ)
    → ((get_header_length bytes offset < get_full_frame_length bytes offset)
        × (offset + get_full_frame_length bytes offset ≤ length bytes))
      ⊎ ((get_full_frame_length bytes offset ≤ get_header_length bytes offset)
          ⊎ (length bytes < offset + get_full_frame_length bytes offset))
fits bytes offset = ground arith

tag_length-pos :
    (bytes : List ℕ) (offset : ℕ) (d : List ℕ)
    → Id3.is_header bytes offset ≡ true
    → Id3.get_id3_data bytes offset ≡ some d
    → 0 < length d
tag_length-pos bytes offset d h e =
    let room = is_header-le bytes offset h in
    let (n, pos, q) = get_id3_data-subarray bytes offset d e in
    omega (arith, ap length q, length-take n (drop offset bytes), length-drop offset bytes)

frame_length-pos :
    {T : Type 0} (stamp_at : T → ℕ → ℕ → T) (track track' : Adts.Track T) (bytes : List ℕ)
    (offset : ℕ) (pts : T) (i n : ℕ) (x : Adts.Sample T)
    → Adts.append_frame stamp_at track bytes offset pts i ≡ some (track', x, n)
    → 0 < n
frame_length-pos {T} stamp_at track track' bytes offset pts i n x e = elim (fits bytes offset) [
  | inr bad ↦ let u = append_frame_undefined stamp_at track bytes offset pts i bad in cc
  | inl (long, inside) ↦
      let (sample, t, q, _, _, _, _, _) =
        append_frame_lem stamp_at track bytes offset pts i long inside in
      omega (
        arith,
        long,
        ap (λ (z : Adts.Track T × Adts.Sample T × ℕ). z.2) (some-injective _ _ (sym q ∙ e)),
      )
]

no_frame-moves :
    {T K : Type 0} (bytes : List ℕ) (s s' : Scan T K)
    → no_frame bytes s ≡ some (next s')
    → s.offset < s'.offset
unfolding no_frame take_tag skip_byte
no_frame-moves bytes s s' h = elim (Bool-cases (Id3.is_header bytes s.offset)) [
  | inr off ↦ omega (arith, ap (offset_of 0) (rw off at h))
  | inl on ↦ elim (Option-cases (Id3.get_id3_data bytes s.offset)) [
    | inl u ↦ let e = rw (on, u) at h in cc
    | inr (d, e) ↦
        omega (arith, ap (offset_of 0) (rw (on, e) at h), tag_length-pos bytes s.offset d on e)
  ]
]

take_frame-moves :
    {T K S : Type 0} (pts : S → T) (s s' : Scan T K) (o : Option (K × S × ℕ))
    → ((t : K) (x : S) (n : ℕ) → o ≡ some (t, x, n) → 0 < n)
    → take_frame pts s o ≡ next s'
    → s.offset < s'.offset
unfolding take_frame
take_frame-moves pts s s' none p h = cc
take_frame-moves pts s s' (some (t, x, n)) p h =
    omega (arith, p t x n refl, ap (λ (r : Round (Scan _ _)). offset_of 0 (some r)) h)

module _ {T : Type 0} (stamp_at : T → ℕ → ℕ → T) (start : Option ℕ → T) (bytes : List ℕ)
    (browser : Browser) (pts : T) where
  aac_round-moves :
      (s s' : Scan T (Adts.Track T))
      → aac_round stamp_at start bytes browser pts s ≡ some (next s')
      → s.offset < s'.offset
  unfolding aac_round
  aac_round-moves s s' h =
      elim (Bool-cases (Adts.is_header bytes s.offset && ltb (s.offset + 5) (length bytes))) [
        | inr off ↦ no_frame-moves bytes s s' (rw off at h)
        | inl on ↦
            let (track, e, k) =
              >>=-eq-some
                (Adts.init_track_config browser s.track bytes s.offset s.track.manifest_codec) _
                (rw on at h) in
            take_frame-moves (λ (x : Adts.Sample T). x.pts) (record s { track = track }) s'
              (Adts.append_frame stamp_at track bytes s.offset pts s.frame_index)
              (λ t x n q. frame_length-pos stamp_at track t bytes s.offset pts s.frame_index n x q)
              (some-injective _ _ k)
      ]

  -- The loop of the AAC demuxer's `append` ends: any two amounts of fuel that reach the end of the data
  -- give the same result.
  aac_rounds-fuel :
      (f g : ℕ) (s : Scan T (Adts.Track T))
      → length bytes ≤ s.offset + f
      → length bytes ≤ s.offset + g
      → rounds
          (λ offset. ltb offset (length bytes - 1))
          (aac_round stamp_at start bytes browser pts)
          f
          s
        ≡ rounds
            (λ offset. ltb offset (length bytes - 1))
            (aac_round stamp_at start bytes browser pts)
            g
            s
  aac_rounds-fuel f g s hf hg =
      rounds-fuel (λ offset. ltb offset (length bytes - 1))
        (aac_round stamp_at start bytes browser pts) (length bytes) (λ offset h. ground arith)
        aac_round-moves f g s hf hg

module _ {T : Type 0} (stamp_at : T → ℕ → ℕ → T) (start : Option ℕ → T) (bytes : List ℕ)
    (are_bytes : All IsByte bytes) (pts : T) where
  mp3_round-moves :
      (s s' : Scan T (MpegAudio.Track T))
      → mp3_round stamp_at start bytes pts s ≡ some (next s')
      → s.offset < s'.offset
  unfolding mp3_round
  mp3_round-moves s s' h = elim (Bool-cases (MpegAudio.is_header bytes s.offset)) [
    | inr off ↦ no_frame-moves bytes s s' (rw off at h)
    | inl on ↦
        take_frame-moves (λ (x : MpegAudio.Sample T). x.pts) s s'
          (MpegAudio.append_frame stamp_at s.track bytes s.offset pts s.frame_index)
          (λ t x n q.
            let long =
              append_frame-length bytes s.offset (byte_at-lt bytes (s.offset + 1) are_bytes)
                (byte_at-lt bytes (s.offset + 2) are_bytes) stamp_at s.track t pts s.frame_index n x
                q in
            omega arith)
          (some-injective _ _ (rw on at h))
  ]

  -- The loop of the MP3 demuxer's `append` ends on bytes: any two amounts of fuel that reach the end of the
  -- data give the same result.
  mp3_rounds-fuel :
      (f g : ℕ) (s : Scan T (MpegAudio.Track T))
      → length bytes ≤ s.offset + f
      → length bytes ≤ s.offset + g
      → rounds (λ offset. ltb offset (length bytes)) (mp3_round stamp_at start bytes pts) f s
        ≡ rounds (λ offset. ltb offset (length bytes)) (mp3_round stamp_at start bytes pts) g s
  mp3_rounds-fuel f g s hf hg =
      rounds-fuel (λ offset. ltb offset (length bytes)) (mp3_round stamp_at start bytes pts)
        (length bytes) (λ offset h. ground arith) mp3_round-moves f g s hf hg
