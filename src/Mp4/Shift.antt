-- ===== src/Mp4/Shift.antt =====
-- A fragment whose start the demuxer moves.
use v4l2rtspserver.Base.{
  ℕ, suc, ◌+◌, ◌-◌, ◌*◌, ◌/◌, ◌%◌, ◌^◌, ◌≡◌, ◌≤◌, ◌<◌, refl, sym, ap, ◌∙◌, false, some, List, [],
  ◌∷◌, ◌++◌, length, take, drop, set, ◌==◌, arith, length-append,
}
use native.Mathlib.Nat.{mod-eq_of_lt}
use mathlib.Core.List.{append_assoc}
use v4l2rtspserver.Mp4.Words.{length-word_bytes}
use v4l2rtspserver.Base.Int.{ℤ, pos, ◌-ℤ◌, pattern32}
use v4l2rtspserver.Mp4.{word_bytes, concat, box}
use v4l2rtspserver.Mp4.Generator.{Track, long_bytes, mfhd, tfhd, tfdt, traf, moof}
use v4l2rtspserver.Mp4.Demuxer.{
  InitData, TrackInfo, lookup, scale_of, write_uint32, upper_word, lower_word, offset_tfdt,
  offset_tfdts, offset_tfhds, offset_trafs, offset_start_dts,
}
use v4l2rtspserver.Mp4.Fragments.{fragment}
use v4l2rtspserver.Mp4.Fragments as F

set-append_add : (xs ys : List ℕ) (k v : ℕ) → set (xs ++ ys) (length xs + k) v ≡ xs ++ set ys k v
set-append_add [] ys k v = let e : 0 + k ≡ k = omega arith in rw e
set-append_add (x ∷ xs) ys k v =
    let e : suc (length xs) + k ≡ suc (length xs + k) = omega arith in
    rw e (ap (λ (t : List ℕ). x ∷ t) (set-append_add xs ys k v))

-- `writeUint32` replaces the four bytes that stand at its place by those of the number.
write_uint32-word_bytes :
    (before after : List ℕ) (m n : ℕ)
    → n < 4294967296
    → write_uint32 (before ++ (word_bytes m ++ after)) (length before) (pos n)
      ≡ before ++ (word_bytes n ++ after)
unfolding write_uint32 word_bytes pattern32
write_uint32-word_bytes before after m n small =
    let whole : n % 2 ^ 32 ≡ n = mod-eq_of_lt small in
    let top : n / 16777216 % 256 ≡ n / 16777216 = omega arith in
    let start : length before + 0 ≡ length before = omega arith in
    let first = rw start at (set-append_add before (word_bytes m ++ after) 0 (n / 16777216)) in
    let a = n / 16777216 in
    let b = n / 65536 % 256 in
    let c = n / 256 % 256 in
    let second =
      set-append_add before (a ∷ m / 65536 % 256 ∷ m / 256 % 256 ∷ m % 256 ∷ after) 1 b in
    let third = set-append_add before (a ∷ b ∷ m / 256 % 256 ∷ m % 256 ∷ after) 2 c in
    let fourth = set-append_add before (a ∷ b ∷ c ∷ m % 256 ∷ after) 3 (n % 256) in
    rw (whole, first, second, third, fourth, top)

module _ (sn : ℕ) (track : Track) (data_bytes : List ℕ) where
  -- The bytes of a fragment before and after its time.
  abbrev front : List ℕ
  front = take 60 (fragment sn 0 track data_bytes)

  abbrev back : List ℕ
  back = drop 68 (fragment sn 0 track data_bytes)

  split_time :
      (time : ℕ)
      → fragment sn time track data_bytes
        ≡ front ++ (word_bytes (time / 4294967296) ++ (word_bytes (time % 4294967296) ++ back))
  unfolding moof mfhd traf tfhd tfdt long_bytes box concat word_bytes
  split_time time = refl

  length-front : length front ≡ 60
  unfolding moof mfhd traf tfhd tfdt long_bytes box concat word_bytes
  length-front = refl

  write_time :
      (old time : ℕ)
      → time < 18446744073709551616
      → write_uint32
          (write_uint32 (fragment sn old track data_bytes) (length front) (pos (time / 4294967296)))
          (length front + 4)
          (pos (time % 4294967296))
        ≡ fragment sn time track data_bytes
  write_time old time small =
      let upper = time / 4294967296 in
      let lower = time % 4294967296 in
      let first =
        write_uint32-word_bytes front (word_bytes (old % 4294967296) ++ back) (old / 4294967296)
          upper (omega arith) in
      let second =
        write_uint32-word_bytes (front ++ word_bytes upper) back (old % 4294967296) lower
          (omega arith) in
      let size : length (front ++ word_bytes upper) ≡ length front + 4 =
        omega (arith, length-append front (word_bytes upper), length-word_bytes upper) in
      ap
        (λ (b : List ℕ).
          write_uint32 (write_uint32 b (length front) (pos upper)) (length front + 4) (pos lower))
        (split_time old)
      ∙ ap (λ (b : List ℕ). write_uint32 b (length front + 4) (pos lower)) first
      ∙ ap (λ (b : List ℕ). write_uint32 b (length front + 4) (pos lower))
          (sym (append_assoc front (word_bytes upper) (word_bytes (old % 4294967296) ++ back)))
      ∙ rw size at second
      ∙ append_assoc front (word_bytes upper) (word_bytes lower ++ back)
      ∙ sym (split_time time)

  -- Moving the start of a fragment back, to 0 at the earliest, makes the fragment that the
  -- generator makes for the earlier time, if the initialisation segment has a time scale for its
  -- track, the number of the track and the length of the fragment fit 32 bits and the start fits
  -- 64.
  pub offset_start_dts-moof :
      (init_data : InitData) (info : TrackInfo) (offset_of : ℕ → ℤ) (time earlier : ℕ)
      → lookup init_data.tracks track.id ≡ some info
      → 1 ≤ info.timescale
      → offset_of info.timescale ≡ pos earlier
      → earlier ≤ time
      → track.id < 4294967296
      → time < 18446744073709551616
      → length (fragment sn time track data_bytes) < 4294967296
      → offset_start_dts init_data offset_of (fragment sn time track data_bytes)
        ≡ some (fragment sn (time - earlier) track data_bytes)
  unfolding offset_start_dts offset_trafs offset_tfhds offset_tfdts offset_tfdt scale_of upper_word
      lower_word concat moof word_bytes box write_uint32 mfhd traf tfhd tfdt
  offset_start_dts-moof init_data info offset_of time earlier known scaled offset le id_fits
        time_fits fits =
      let scale : (info.timescale == 0) ≡ false = ground arith in
      let words = F.read_words sn time track data_bytes fits time_fits in
      let total : time / 4294967296 * 4294967296 + time % 4294967296 ≡ time = omega arith in
      let less : pos time -ℤ pos earlier ≡ pos (time - earlier) = ground arith in
      rw
        (
          F.find_trafs sn time track data_bytes fits,
          F.find_tfhd sn time track data_bytes fits,
          F.read_tfhd sn time track data_bytes fits id_fits,
          known,
          scale,
          F.find_tfdt sn time track data_bytes fits,
          F.version_tfdt sn time track data_bytes fits,
          words.0,
          words.1,
          offset,
          total,
          less,
        )
        (ap some (write_time time (time - earlier) (omega arith)))
