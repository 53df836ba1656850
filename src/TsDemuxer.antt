-- ===== src/TsDemuxer.antt =====
-- hls.js/src/demux/tsdemuxer.js: the probe of transport streams, and the packets of their elementary
-- streams. `none` is a thrown error.
mod Chunks
mod Tests
use v4l2rtspserver.Base.{
  ℕ, zero, suc, ◌+◌, ◌-◌, ◌*◌, ◌/◌, Bool, true, false, not, ◌&&◌, Option, none, some, List, [], ◌∷◌,
  ◌++◌, bit_and, length, drop, replicate, ltb, leb, ◌==◌, if◌then◌else◌, ◌>>=◌,
}
use v4l2rtspserver.Base.Bytes.{byte_at}
use v4l2rtspserver.Base.Int.{ℤ, pos, sub_ℕ, pos_part, neg_part, ◌-ℤ◌}

unfoldable pub probe : List ℕ → Bool
probe bytes =
    leb (3 * 188) (length bytes)
    && byte_at bytes 0 == 71
    && byte_at bytes 188 == 71
    && byte_at bytes (2 * 188) == 71

-- The result of `_parsePES`; a time that the header does not have is undefined.
pub record Pes : Type 0 where
  pub bytes : List ℕ
  pub pts : Option ℤ
  pub dts : Option ℤ
  pub len : ℤ

-- The loop that gathers the 19 bytes that a header may need in the first chunk.
unfoldable pub merge_head : List ℕ → List (List ℕ) → List ℕ × List (List ℕ)
merge_head head [] = (head, [])
merge_head head (chunk ∷ chunks) =
    let more = merge_head (head ++ chunk) chunks in
    if ltb (length head) 19 then more else (head, chunk ∷ chunks)

-- A time of 33 bits, of which those above 32 bits are negative.
unfoldable pub time_at : List ℕ → ℕ → ℤ
time_at frag i =
    let time =
      bit_and (byte_at frag i) 14 * 536870912
      + byte_at frag (i + 1) * 4194304
      + bit_and (byte_at frag (i + 2)) 254 * 16384
      + byte_at frag (i + 3) * 128
      + bit_and (byte_at frag (i + 4)) 254 / 2 in
    if ltb 4294967295 time then sub_ℕ time 8589934592 else pos time

unfoldable pub more_than : ℤ → ℕ → Bool
more_than a n = ltb (n + neg_part a) (pos_part a)

-- The two times; a presentation more than a minute behind its decoding is aligned to it.
unfoldable pub times_of : List ℕ → Option ℤ × Option ℤ
times_of frag =
    let pts = time_at frag 9 in
    let dts = time_at frag 14 in
    if bit_and (byte_at frag 7) 192 == 0
    then (none, none)
    else if bit_and (byte_at frag 7) 64 == 0
    then (some pts, some pts)
    else ((if more_than (pts -ℤ dts) 5400000 then some dts else some pts), some dts)

-- What is copied of the chunks behind `offset` bytes.
unfoldable pub trim : ℕ → List (List ℕ) → List ℕ
trim offset [] = []
trim offset (frag ∷ chunks) =
    let rest = trim (offset - length frag) chunks in
    if ltb (length frag) offset then rest else drop offset frag ++ rest

-- The array of the packet: of a negative size, or too small for the copy, it throws.
unfoldable pub pes_data : (size offset : ℕ) → List (List ℕ) → Option (List ℕ)
pes_data size offset chunks =
    let bytes = trim offset chunks in
    if leb offset size && leb (length bytes) (size - offset)
    then some (bytes ++ replicate (size - offset - length bytes) 0)
    else none

-- `null` is `some none`. A length that is cut off is NaN, which counts as no length; without a header length
-- the array has no room for the copy.
unfoldable pub parse_merged : List ℕ → List (List ℕ) → ℕ → Option (Option Pes)
parse_merged frag chunks size =
    let prefix = byte_at frag 0 * 65536 + byte_at frag 1 * 256 + byte_at frag 2 in
    let pes_len : ℕ = if ltb (length frag) 6 then 0 else byte_at frag 4 * 256 + byte_at frag 5 in
    let header = byte_at frag 8 in
    let times = times_of frag in
    let packet = pes_data size (header + 9) (frag ∷ chunks) >>= λ bytes. some (
      some (record {
        bytes = bytes;
        pts = times.0;
        dts = times.1;
        len = if pes_len == 0 then pos 0 else sub_ℕ pes_len (header + 3);
      })) in
    if not (prefix == 1)
    then some none
    else if not (pes_len == 0) && ltb size (pes_len + 6)
    then some none
    else if ltb (length frag) 9
    then none
    else packet

unfoldable pub parse_pes : List (List ℕ) → ℕ → Option (Option Pes)
parse_pes chunks zero = some none
parse_pes [] (suc size) = none
parse_pes (head ∷ chunks) (suc size) =
    let merged = merge_head head chunks in parse_merged merged.0 merged.1 (suc size)
