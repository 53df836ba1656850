-- ===== src/AudioDemuxers/Laws.antt =====
-- What the probes find, and that the loops of `append` move on.
use v4l2rtspserver.Base.{
  ℕ, zero, suc, ◌+◌, ◌-◌, ◌≤◌, ◌<◌, ◌≡◌, sym, ◌∙◌, refl, Bool, true, false, Option, none, some,
  List, length, arith, Bool-cases, inr, ◌||◌, min, ==_iff, Option-cases, ◌==◌, inl,
}
use v4l2rtspserver.Adts
use v4l2rtspserver.MpegAudio
use v4l2rtspserver.Id3
use v4l2rtspserver.AudioDemuxers.{
  seek, offsets_to_probe, has_time_stamp, probe_with, aac_probe, mp3_probe, Scan, Round, next,
  break, resume, rounds,
}

or_true : (b : Bool) → (b || true) ≡ true
or_true b = ground arith

seek_finds :
    (test : ℕ → Bool) (n offset k : ℕ)
    → test k ≡ true
    → offset ≤ k
    → k < offset + n
    → seek test n offset ≡ true
unfolding seek
seek_finds test zero offset k h lo hi = absurd (omega arith)
seek_finds test (suc n) offset k h lo hi = elim (Bool-cases (offset == k)) [
  | inl q ↦ let e : offset ≡ k = (==_iff offset k).0 q in rw (e, h) refl
  | inr q ↦
      let far : offset + 1 ≤ k = ground arith in
      rw (seek_finds test n (offset + 1) k h far (omega arith)) (or_true (test offset))
]

seek_sound :
    (test : ℕ → Bool) (n offset : ℕ)
    → seek test n offset ≡ true
    → (k : ℕ) × (test k ≡ true) × (offset ≤ k) × (k < offset + n)
unfolding seek
seek_sound test zero offset h = cc
seek_sound test (suc n) offset h = elim (Bool-cases (test offset)) [
  | inl e ↦ (offset, e, omega arith, omega arith)
  | inr e ↦
      let (k, t, lo, hi) = seek_sound test n (offset + 1) (rw e at h) in
      (k, t, omega arith, omega arith)
]

-- A tag with a time stamp at the start of the data, and a frame from the end of the tag on, before the
-- last byte and within 100 bytes.
pub record IsStampedFrame (test : List ℕ → ℕ → Bool) (bytes id3_data : List ℕ) (k : ℕ)
    : Type 0 where
  pub tag : Id3.get_id3_data bytes 0 ≡ some id3_data
  pub stamped : has_time_stamp (Id3.get_time_stamp id3_data) ≡ true
  pub frame : test bytes k ≡ true
  pub behind : length id3_data ≤ k
  pub near : k < length id3_data + 100
  pub inside : k + 1 < length bytes

off : false ≡ true → ⊥
off h = cc

probe_with_finds :
    (test : List ℕ → ℕ → Bool) (bytes id3_data : List ℕ) (k : ℕ)
    → IsStampedFrame test bytes id3_data k
    → probe_with test bytes (Id3.get_id3_data bytes 0) ≡ true
unfolding probe_with offsets_to_probe
probe_with_finds test bytes id3_data k f =
    rw (f.tag, f.stamped)
      (seek_finds (test bytes) (min (length bytes - 1) (length id3_data + 100) - length id3_data)
        (length id3_data) k f.frame f.behind (omega (arith, f.behind, f.near, f.inside)))

probe_with_sound :
    (test : List ℕ → ℕ → Bool) (bytes : List ℕ)
    → probe_with test bytes (Id3.get_id3_data bytes 0) ≡ true
    → (id3_data : List ℕ) × (k : ℕ) × IsStampedFrame test bytes id3_data k
unfolding probe_with offsets_to_probe
probe_with_sound test bytes h = elim (Option-cases (Id3.get_id3_data bytes 0)) [
  | inl n ↦ absurd (off (rw n at h))
  | inr (id3_data, e) ↦ elim (Bool-cases (has_time_stamp (Id3.get_time_stamp id3_data))) [
    | inr n ↦ absurd (off (rw (e, n) at h))
    | inl stamped ↦
        let (k, frame, lo, hi) =
          seek_sound (test bytes) (min (length bytes - 1) (length id3_data + 100) - length id3_data)
            (length id3_data) (rw (e, stamped) at h) in
        (
          id3_data,
          k,
          record {
            tag = e;
            stamped = stamped;
            frame = frame;
            behind = lo;
            near = omega (arith, lo, hi);
            inside = omega (arith, lo, hi);
          },
        )
  ]
]

module _ (bytes id3_data : List ℕ) (k : ℕ) where
  -- The AAC probe finds an ADTS frame in the 100 bytes behind a tag with a time stamp at the start of the
  -- data, if it starts before the last byte.
  pub aac_probe_finds : IsStampedFrame Adts.probe bytes id3_data k → aac_probe bytes ≡ true
  unfolding aac_probe
  aac_probe_finds f = probe_with_finds Adts.probe bytes id3_data k f

  -- The MP3 probe finds a frame of MPEG audio in the same place.
  pub mp3_probe_finds : IsStampedFrame MpegAudio.probe bytes id3_data k → mp3_probe bytes ≡ true
  unfolding mp3_probe
  mp3_probe_finds f = probe_with_finds MpegAudio.probe bytes id3_data k f

module _ (bytes : List ℕ) where
  -- What the AAC probe takes starts with a tag with a time stamp, and has an ADTS frame in the 100 bytes
  -- behind it, before the last byte.
  pub aac_probe_sound :
      aac_probe bytes ≡ true
      → (id3_data : List ℕ) × (k : ℕ) × IsStampedFrame Adts.probe bytes id3_data k
  unfolding aac_probe
  aac_probe_sound h = probe_with_sound Adts.probe bytes h

  -- What the MP3 probe takes starts with a tag with a time stamp, and has a frame of MPEG audio in the 100
  -- bytes behind it, before the last byte.
  pub mp3_probe_sound :
      mp3_probe bytes ≡ true
      → (id3_data : List ℕ) × (k : ℕ) × IsStampedFrame MpegAudio.probe bytes id3_data k
  unfolding mp3_probe
  mp3_probe_sound h = probe_with_sound MpegAudio.probe bytes h

resume_ext :
    {T K : Type 0} (o : Option (Round (Scan T K))) (p q : Scan T K → Option (Scan T K))
    → ((s' : Scan T K) → o ≡ some (next s') → p s' ≡ q s')
    → resume p o ≡ resume q o
unfolding resume
resume_ext none p q h = refl
resume_ext (some (next s')) p q h = h s' refl
resume_ext (some (break s')) p q h = refl

-- A loop that moves on in every round ends: any two amounts of fuel that reach the end of its range give
-- the same result.
module _ {T K : Type 0} (goes_on : ℕ → Bool) (body : Scan T K → Option (Round (Scan T K)))
    (limit : ℕ) (bounded : (offset : ℕ) → goes_on offset ≡ true → offset < limit)
    (moves : (s s' : Scan T K) → body s ≡ some (next s') → s.offset < s'.offset) where
  stopped : (f : ℕ) (s : Scan T K) → goes_on s.offset ≡ false → rounds goes_on body f s ≡ some s
  unfolding rounds
  stopped zero s n = refl
  stopped (suc f) s n = rw n

  not_zero : (s : Scan T K) → limit ≤ s.offset → goes_on s.offset ≡ false
  not_zero s h = elim (Bool-cases (goes_on s.offset)) [
    | inl t ↦ let lt = bounded s.offset t in absurd (omega arith)
    | inr n ↦ n
  ]

  goes :
      (f : ℕ) (s : Scan T K)
      → goes_on s.offset ≡ true
      → rounds goes_on body (suc f) s ≡ resume (λ s'. rounds goes_on body f s') (body s)
  unfolding rounds
  goes f s h = rw h

  pub rounds-fuel :
      (f g : ℕ) (s : Scan T K)
      → limit ≤ s.offset + f
      → limit ≤ s.offset + g
      → rounds goes_on body f s ≡ rounds goes_on body g s
  rounds-fuel zero g s hf hg =
      let n = not_zero s (omega arith) in stopped zero s n ∙ sym (stopped g s n)
  rounds-fuel (suc f) zero s hf hg =
      let n = not_zero s (omega arith) in stopped (suc f) s n ∙ sym (stopped zero s n)
  rounds-fuel (suc f) (suc g) s hf hg = elim (Bool-cases (goes_on s.offset)) [
    | inr n ↦ stopped (suc f) s n ∙ sym (stopped (suc g) s n)
    | inl h ↦
        goes f s h
        ∙ resume_ext (body s) (λ s'. rounds goes_on body f s') (λ s'. rounds goes_on body g s')
            (λ s' e. let lt = moves s s' e in rounds-fuel f g s' (omega arith) (omega arith))
        ∙ sym (goes g s h)
  ]
