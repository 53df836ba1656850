-- ===== src/Adts/Frames.antt =====
-- The lengths in an ADTS header, and the frame that `appendFrame` cuts out.
use v4l2rtspserver.Base.{
  ℕ, ◌+◌, ◌-◌, ◌*◌, ◌/◌, ◌%◌, ◌≤◌, ◌<◌, ◌≡◌, refl, ap, sym, ◌⊎◌, Bool, true, none, some, List, [],
  ◌∷◌, ◌++◌, ◌==◌, ◌&&◌, length, take, drop, All, bit_and, bit_or, arith, ==_iff, length-take,
  length-drop,
}
use v4l2rtspserver.Base.Bytes.{byte_at, IsByte, holds_below, holds_below_lem}
use v4l2rtspserver.Adts.{
  get_header_length, get_full_frame_length, parse_frame_header, Sample, Track, append_frame,
}
use v4l2rtspserver.Base.Bytes.{byte_at-lt}

masks : holds_below 256 (λ b. bit_and b 0x03 == b % 4 && bit_and b 0xE0 / 32 == b / 32) ≡ true
unfolding holds_below
masks = refl

high_table :
    holds_below 4 (λ x. holds_below 256 (λ y. bit_or (x * 2048) (y * 8) == x * 2048 + y * 8)) ≡ true
unfolding holds_below
high_table = refl

low_table : holds_below 1024 (λ z. holds_below 8 (λ w. bit_or (z * 8) w == z * 8 + w)) ≡ true
unfolding holds_below
low_table = refl

and_true : (x y : Bool) → (x && y) ≡ true → (x ≡ true) × (y ≡ true)
and_true x y h = ground arith

mask_values : (b : ℕ) → b < 256 → (bit_and b 0x03 ≡ b % 4) × (bit_and b 0xE0 / 32 ≡ b / 32)
mask_values b h =
    let (x, y) = and_true _ _ (holds_below_lem 256 _ b masks h) in
    ((==_iff _ _).0 x, (==_iff _ _).0 y)

or_high : (x y : ℕ) → x < 4 → y < 256 → bit_or (x * 2048) (y * 8) ≡ x * 2048 + y * 8
or_high x y hx hy = (==_iff _ _).0 (
    holds_below_lem 256 _ y
      (holds_below_lem 4 (λ x. holds_below 256 (λ y. bit_or (x * 2048) (y * 8) == x * 2048 + y * 8))
        x high_table hx)
      hy)

or_low : (z w : ℕ) → z < 1024 → w < 8 → bit_or (z * 8) w ≡ z * 8 + w
or_low z w hz hw = (==_iff _ _).0 (
    holds_below_lem 8 _ w
      (holds_below_lem 1024 (λ z. holds_below 8 (λ w. bit_or (z * 8) w == z * 8 + w)) z low_table
        hz)
      hw)

-- On bytes, the frame length is the 13-bit number whose bits are the last two of the fourth byte, the
-- fifth byte and the first three of the sixth, so it is below 8192.
get_full_frame_length_lem :
    (bytes : List ℕ) (offset : ℕ)
    → All IsByte bytes
    → (get_full_frame_length bytes offset
        ≡ byte_at bytes (offset + 3) % 4 * 2048
          + byte_at bytes (offset + 4) * 8
          + byte_at bytes (offset + 5) / 32)
      × (get_full_frame_length bytes offset < 8192)
unfolding get_full_frame_length
get_full_frame_length_lem bytes offset h =
    let b3 = byte_at-lt bytes (offset + 3) h in
    let b4 = byte_at-lt bytes (offset + 4) h in
    let b5 = byte_at-lt bytes (offset + 5) h in
    let x = byte_at bytes (offset + 3) % 4 in
    let y = byte_at bytes (offset + 4) in
    let w = byte_at bytes (offset + 5) / 32 in
    let regroup : x * 2048 + y * 8 ≡ (x * 256 + y) * 8 = omega arith in
    let value : bit_or (bit_or (bit_and (byte_at bytes (offset + 3)) 0x03 * 2048) (y * 8))
          (bit_and (byte_at bytes (offset + 5)) 0xE0 / 32)
        ≡ x * 2048 + y * 8 + w =
      rw (
        (mask_values _ b3).0,
        (mask_values _ b5).1,
        or_high x y (omega arith) b4,
        regroup,
        or_low (x * 256 + y) w (omega arith) (omega arith),
      ) in
    (value, omega (arith, value))

get_header_length-le : (bytes : List ℕ) (offset : ℕ) → get_header_length bytes offset ≤ 9
unfolding get_header_length
get_header_length-le bytes offset = ground arith

parse_frame_header-some :
    (bytes : List ℕ) (offset : ℕ)
    → get_header_length bytes offset < get_full_frame_length bytes offset
    → offset + get_full_frame_length bytes offset ≤ length bytes
    → parse_frame_header bytes offset
      ≡ some (record {
        header_length = get_header_length bytes offset;
        frame_length = get_full_frame_length bytes offset - get_header_length bytes offset;
      })
unfolding parse_frame_header
parse_frame_header-some bytes offset h fits = ground arith

parse_frame_header-none :
    (bytes : List ℕ) (offset : ℕ)
    → (get_full_frame_length bytes offset ≤ get_header_length bytes offset)
      ⊎ (length bytes < offset + get_full_frame_length bytes offset)
    → parse_frame_header bytes offset ≡ none
unfolding parse_frame_header
parse_frame_header-none bytes offset h = ground arith

-- What `appendFrame` makes of a frame that is longer than its header and lies in the data: a sample of
-- the payload behind the header, stamped by the frame's index and the track's rate, is put at the end of
-- the track's samples, the track's length grows by the payload, and the whole frame is taken.
pub append_frame_lem :
    {T : Type 0} (stamp_at : T → ℕ → ℕ → T) (track : Track T) (bytes : List ℕ) (offset : ℕ)
    (pts : T) (frame_index : ℕ)
    → get_header_length bytes offset < get_full_frame_length bytes offset
    → offset + get_full_frame_length bytes offset ≤ length bytes
    → (sample : Sample T) × (track' : Track T) × (append_frame stamp_at track bytes offset pts
          frame_index
        ≡ some (track', sample, get_full_frame_length bytes offset))
      × (length sample.unit + get_header_length bytes offset ≡ get_full_frame_length bytes offset)
      × (sample.unit
          ≡ take (length sample.unit) (drop (offset + get_header_length bytes offset) bytes))
      × (sample.pts ≡ stamp_at pts frame_index track.samplerate)
      × (track'.samples ≡ track.samples ++ sample ∷ [])
      × (track'.len ≡ track.len + length sample.unit)
unfolding append_frame
append_frame_lem {T} stamp_at track bytes offset pts frame_index h fits = (
  sample,
  track',
  rw (parse_frame_header-some bytes offset h fits)
      (ap (λ (n : ℕ). some (track_of payload, sample, n)) (omega arith)),
  omega (arith, size),
  ap (λ (n : ℕ). take n (drop (offset + head) bytes)) (sym size),
  refl,
  refl,
  ap (λ (n : ℕ). track.len + n) (sym size),
)
  where
    head : ℕ
    head = get_header_length bytes offset

    payload : ℕ
    payload = get_full_frame_length bytes offset - head

    sample : Sample T
    sample =
        let stamp = stamp_at pts frame_index track.samplerate in
        record { unit = take payload (drop (offset + head) bytes); pts = stamp; dts = stamp }

    track_of : ℕ → Track T
    track_of n = record track { samples = track.samples ++ sample ∷ []; len = track.len + n }

    track' : Track T
    track' = track_of payload

    size : length sample.unit ≡ payload
    size =
        omega (
          arith,
          length-take payload (drop (offset + head) bytes),
          length-drop (offset + head) bytes,
        )

-- Where the frame is not longer than its header, or reaches past the end of the data, `appendFrame`
-- returns undefined.
pub append_frame_undefined :
    {T : Type 0} (stamp_at : T → ℕ → ℕ → T) (track : Track T) (bytes : List ℕ) (offset : ℕ)
    (pts : T) (frame_index : ℕ)
    → (get_full_frame_length bytes offset ≤ get_header_length bytes offset)
      ⊎ (length bytes < offset + get_full_frame_length bytes offset)
    → append_frame stamp_at track bytes offset pts frame_index ≡ none
unfolding append_frame
append_frame_undefined stamp_at track bytes offset pts frame_index h =
    rw (parse_frame_header-none bytes offset h)
