-- ===== src/MpegAudio/Laws.antt =====
-- The headers of MPEG audio frames: the tables have an entry for every valid header, and the frames have
-- bounded lengths.
use v4l2rtspserver.Base.{
  sym, ap, ◌∙◌, ℕ, ◌+◌, ◌/◌, ◌≤◌, ◌<◌, ◌≡◌, refl, Bool, true, false, not, Option, none, some, List,
  inl, inr, ltb, leb, ◌>>=◌, >>=-eq-some, ◌&&◌, ◌||◌, length, bit_and, arith, ltb→lt, leb→le,
  Bool-cases,
}
use mathlib.Core.Option.{some-injective}
use v4l2rtspserver.Base.Bytes.{byte_at, IsByte, holds_below, holds_below_lem}
use v4l2rtspserver.MpegAudio.{
  Sample, Header, Fields, header_fields, fields_valid, column_in_bitrates, column_in_sample_rates,
  bit_rate, sample_rate_of, frame_length_of, channels_of, parse_header, Track, append_header,
  append_frame,
}

-- The length for the fields, where both tables have an entry.
length_for : Fields → Option ℕ
length_for h =
    bit_rate h >>= λ bits. sample_rate_of h >>= λ rate. some (frame_length_of h bits rate)

in_bounds : Option ℕ → Bool
in_bounds none = false
in_bounds (some n) = leb 24 n && leb n 1729

entry_ok : ℕ → ℕ → ℕ → ℕ → Bool → Bool
entry_ok v l e f g =
    let h : Fields = record {
      version = v;
      layer = l;
      bitrate_index = e;
      rate_index = f;
      padded = g;
    } in
    not (fields_valid h) || in_bounds (length_for h)

table :
    holds_below 4 (λ v. holds_below 4 (λ l.
      holds_below 16 (λ e. holds_below 4 (λ f. entry_ok v l e f true && entry_ok v l e f false))))
    ≡ true
unfolding holds_below entry_ok fields_valid in_bounds length_for bit_rate sample_rate_of
    frame_length_of column_in_bitrates column_in_sample_rates
table = refl

masks :
    holds_below 256 (λ b.
      ltb (bit_and (b / 8) 3) 4
      && ltb (bit_and (b / 2) 3) 4
      && ltb (bit_and (b / 16) 15) 16
      && ltb (bit_and (b / 4) 3) 4)
    ≡ true
unfolding holds_below
masks = refl

and_true : (x y : Bool) → (x && y) ≡ true → (x ≡ true) × (y ≡ true)
and_true x y h = ground arith

and_true4 :
    (x y z w : Bool) → (x && y && z && w) ≡ true → (x ≡ true) × (y ≡ true) × (z ≡ true) × (w ≡ true)
and_true4 x y z w h = ground arith

or_true : (x y : Bool) → x ≡ true → (not x || y) ≡ true → y ≡ true
or_true x y v h = ground arith

padded_entry : (v l e f : ℕ) (g : Bool) → v < 4 → l < 4 → e < 16 → f < 4 → entry_ok v l e f g ≡ true
padded_entry v l e f g hv hl he hf =
    let t1 =
      holds_below_lem 4
        (λ v. holds_below 4 (λ l.
          holds_below 16
            (λ e. holds_below 4 (λ f. entry_ok v l e f true && entry_ok v l e f false))))
        v table hv in
    let t2 =
      holds_below_lem 4
        (λ l.
          holds_below 16
            (λ e. holds_below 4 (λ f. entry_ok v l e f true && entry_ok v l e f false)))
        l t1 hl in
    let t3 =
      holds_below_lem 16 (λ e. holds_below 4 (λ f. entry_ok v l e f true && entry_ok v l e f false))
        e t2 he in
    let t4 = holds_below_lem 4 (λ f. entry_ok v l e f true && entry_ok v l e f false) f t3 hf in
    let (x, y) = and_true _ _ t4 in elim (Bool-cases g) [ inl q ↦ rw q x | inr q ↦ rw q y ]

fields_entry :
    (bytes : List ℕ) (offset : ℕ)
    → byte_at bytes (offset + 1) < 256
    → byte_at bytes (offset + 2) < 256
    → (not (fields_valid (header_fields bytes offset))
        || in_bounds (length_for (header_fields bytes offset)))
      ≡ true
unfolding header_fields entry_ok
fields_entry bytes offset h1 h2 =
    let (v, l, x, y) =
      and_true4 _ _ _ _ (holds_below_lem 256 _ (byte_at bytes (offset + 1)) masks h1) in
    let (z, w, e, f) =
      and_true4 (ltb (bit_and (byte_at bytes (offset + 2) / 8) 3) 4)
        (ltb (bit_and (byte_at bytes (offset + 2) / 2) 3) 4) _ _
        (holds_below_lem 256 _ (byte_at bytes (offset + 2)) masks h2) in
    padded_entry _ _ _ _ _ (ltb→lt _ _ v) (ltb→lt _ _ l) (ltb→lt _ _ e) (ltb→lt _ _ f)

bounded : (o : Option ℕ) → in_bounds o ≡ true → (n : ℕ) × (o ≡ some n) × (24 ≤ n) × (n ≤ 1729)
unfolding in_bounds
bounded none h = cc
bounded (some n) h = let (x, y) = and_true _ _ h in (n, refl, leb→le _ _ x, leb→le _ _ y)

-- The header of two given bytes behind the offset.
module _ (bytes : List ℕ) (offset : ℕ) (h1 : IsByte (byte_at bytes (offset + 1)))
    (h2 : IsByte (byte_at bytes (offset + 2))) where
  -- `parseHeader` of bytes whose fields are valid finds an entry in both tables, and the length of the
  -- frame is from 24 up to 1729.
  pub parse_header_bounds :
      fields_valid (header_fields bytes offset) ≡ true
      → (h : Header) × (parse_header bytes offset ≡ some h)
        × (24 ≤ h.frame_length)
        × (h.frame_length ≤ 1729)
  unfolding parse_header length_for
  parse_header_bounds v =
      let fields = header_fields bytes offset in
      let inside : in_bounds (length_for fields) ≡ true =
        or_true _ _ v (fields_entry bytes offset h1 h2) in
      let (n, e, lo, hi) = bounded (length_for fields) inside in
      let (bits, eb, e2) = >>=-eq-some (bit_rate fields) _ e in
      let (rate, er, e3) = >>=-eq-some (sample_rate_of fields) _ e2 in
      let len = some-injective _ _ e3 in
      let h : Header = record {
        sample_rate = rate;
        channel_count = channels_of (byte_at bytes (offset + 3));
        frame_length = frame_length_of fields bits rate;
      } in
      (h, rw (v, eb, er), rw len lo, rw len hi)

  -- `parseHeader` of bytes whose fields are not valid is undefined.
  pub parse_header_undefined :
      fields_valid (header_fields bytes offset) ≡ false → parse_header bytes offset ≡ none
  unfolding parse_header
  parse_header_undefined v = rw v

  -- The first test of `appendFrame`, for 24 bytes behind the offset, changes nothing: the frame of a
  -- header that is found is not shorter than that.
  append_frame-parse_header :
      {T : Type 0} (stamp_at : T → ℕ → ℕ → T) (track : Track T) (pts : T) (frame_index : ℕ)
      → append_frame stamp_at track bytes offset pts frame_index
        ≡ (parse_header bytes offset >>= append_header stamp_at track bytes offset pts frame_index)
  unfolding append_frame append_header
  append_frame-parse_header stamp_at track pts frame_index =
      elim (Bool-cases (ltb (length bytes) (offset + 24))) [
        | inr q ↦ rw q
        | inl q ↦ elim (Bool-cases (fields_valid (header_fields bytes offset))) [
          | inr v ↦ rw (q, parse_header_undefined v)
          | inl v ↦
              let (h, e, lo, hi) = parse_header_bounds v in
              let short : leb (offset + h.frame_length) (length bytes) ≡ false = ground arith in
              rw (q, e, short)
        ]
      ]

  -- A frame that `appendFrame` takes has a length from 24 on.
  pub append_frame-length :
      {T : Type 0} (stamp_at : T → ℕ → ℕ → T) (track track' : Track T) (pts : T) (frame_index n : ℕ)
      (sample : Sample T)
      → append_frame stamp_at track bytes offset pts frame_index ≡ some (track', sample, n)
      → 24 ≤ n
  unfolding append_header
  append_frame-length {T} stamp_at track track' pts frame_index n sample e =
      let e' = sym (append_frame-parse_header stamp_at track pts frame_index) ∙ e in
      elim (Bool-cases (fields_valid (header_fields bytes offset))) [
        | inr v ↦ let q = rw (parse_header_undefined v) at e' in cc
        | inl v ↦
            let (h, p, lo, hi) = parse_header_bounds v in
            elim (Bool-cases (leb (offset + h.frame_length) (length bytes))) [
              | inr out ↦ let q = rw (p, out) at e' in cc
              | inl fits ↦ omega (
                arith,
                ap (λ (z : Track T × Sample T × ℕ). z.2) (some-injective _ _ (rw (p, fits) at e')),
              )
            ]
      ]
