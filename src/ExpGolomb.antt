-- ===== src/ExpGolomb.antt =====
-- hls.js/src/demux/exp-golomb.js: the reader of bits and of exponential-Golomb codes. A word is its bit
-- pattern of 32 bits, whether the source sees it signed or not. `none` is a thrown error.

mod Bits
mod Reader
mod Words
mod Refine
mod Skips
mod Codes
mod Sps
mod Parses
mod SpsParts
mod SpsBits
mod Tests
use v4l2rtspserver.Base.{
  ℕ, zero, suc, ◌+◌, ◌-◌, ◌*◌, ◌/◌, ◌%◌, ◌^◌, min, Bool, true, false, not, ◌&&◌, Option, none, some,
  List, [], ◌∷◌, ◌==◌, ltb, if◌then◌else◌, ◌>>=◌, get_or, length, take, drop, bit_or,
}
use v4l2rtspserver.Base.Int.{
  ℤ, pos, negsuc, sub_ℕ, pos_part, neg_part, ◌-ℤ◌, ◌+ℤ◌, is_nat, pattern32,
}
use v4l2rtspserver.Base.Bytes.{byte_at}

-- Both counts may become negative, in `skipBits`.
pub record ExpGolomb : Type 0 where
  pub bytes : List ℕ
  pub bytes_available : ℤ
  pub word : ℕ
  pub bits_available : ℤ

abbrev pub new_reader : List ℕ → ExpGolomb
new_reader bytes = record {
  bytes = bytes;
  bytes_available = pos (length bytes);
  word = 0;
  bits_available = pos 0;
}

-- A shift uses the five low bits of its count.
unfoldable pub shift_count : ℤ → ℕ
shift_count (pos n) = n % 32
shift_count (negsuc n) = 31 - n % 32

unfoldable pub shift_left : ℕ → ℤ → ℕ
shift_left word n = word * 2 ^ shift_count n % 2 ^ 32

unfoldable pub shift_right : ℕ → ℤ → ℕ
shift_right word n = word / 2 ^ shift_count n

-- The number that a pattern is as the result of `|`.
unfoldable pub int32 : ℕ → ℤ
int32 w = if ltb w (2 ^ 31) then pos w else sub_ℕ w (2 ^ 32)

-- `getUint32(0)` of four bytes, of which those that are missing are 0.
unfoldable pub uint32 : List ℕ → ℕ
uint32 b = byte_at b 0 * 16777216 + byte_at b 1 * 65536 + byte_at b 2 * 256 + byte_at b 3

-- With a negative count the copied part is empty and the count comes back to 0.
unfoldable pub load_word : ExpGolomb → Option ExpGolomb
load_word s = load s.bytes_available
  where
    load : ℤ → Option ExpGolomb
    load (pos zero) = none
    load (pos (suc n)) = some (record s {
      word = uint32 (take (min 4 (suc n)) (drop (length s.bytes - suc n) s.bytes));
      bits_available = pos (min 4 (suc n) * 8);
      bytes_available = pos (suc n - min 4 (suc n));
    })
    load (negsuc n) =
        some (record s { word = 0; bits_available = sub_ℕ 0 (suc n * 8); bytes_available = pos 0 })

-- `count - this.bitsAvailable`, where this is not negative.
unfoldable pub beyond : ℕ → ℤ → ℕ
beyond count bits = count + neg_part bits - pos_part bits

unfoldable pub skip_bits : ℕ → ExpGolomb → Option ExpGolomb
skip_bits count s =
    let rest = beyond count s.bits_available in
    let skip_bytes = rest / 8 in
    let count' = rest - skip_bytes / 8 in
    if ltb count (pos_part s.bits_available)
    then some (record s {
      word = shift_left s.word (pos count);
      bits_available = pos (pos_part s.bits_available - count);
    })
    else (load_word (record s { bytes_available = s.bytes_available -ℤ pos skip_bytes }) >>= λ s'.
        some (record s' {
          word = shift_left s'.word (pos count');
          bits_available = s'.bits_available -ℤ pos count';
        }))

-- `Math.min(this.bitsAvailable, size)`
unfoldable pub bits_to_take : ℕ → ℤ → ℤ
bits_to_take size (pos b) = pos (min b size)
bits_to_take size (negsuc n) = negsuc n

-- The word after `bits` of it are read; at its end the next one is loaded, if there is one.
unfoldable pub next_word : ℤ → ExpGolomb → Option ExpGolomb
next_word bits s =
    let left = s.bits_available -ℤ bits in
    if ltb 0 (pos_part left)
    then some (record s { word = shift_left s.word bits; bits_available = left })
    else if ltb 0 (pos_part s.bytes_available)
    then load_word (record s { bits_available = left })
    else some (record s { bits_available = left })

unfoldable pub join_bits : ℕ → ℕ → ℤ → ℤ
join_bits value rest low = int32 (bit_or (shift_left value (pos rest)) (pattern32 low))

-- On fuel, for the recursive call.
unfoldable pub read_on : ℕ → ℕ → ExpGolomb → Option (ℤ × ExpGolomb)
read_on zero size s = none
read_on (suc fuel) size s =
    let bits = bits_to_take size s.bits_available in
    let value = shift_right s.word (pos 32 -ℤ bits) in
    let rest = beyond size bits in
    next_word bits s >>= λ s'.
    let more = read_on fuel rest s' >>= λ r. some (join_bits value rest r.0, r.1) in
    if ltb 0 rest && not (is_nat s'.bits_available 0) then more else some (pos value, s')

-- Each call but the first takes a bit at least.
unfoldable pub read_bits : ℕ → ExpGolomb → Option (ℤ × ExpGolomb)
read_bits size s = read_on (size + neg_part s.bits_available + 2) size s

-- The loop of `skipLZ` over the bits of the word, from the `i`-th one from the top on.
unfoldable pub first_one : ℕ → ℕ → ℕ → Option ℕ
first_one zero i word = none
first_one (suc n) i word = if word / 2 ^ (31 - i) % 2 == 1 then some i else first_one n (suc i) word

-- On fuel: a word takes a byte at least, and the error of `loadWord` ends the recursion.
unfoldable pub skip_zeros : ℕ → ExpGolomb → Option (ℕ × ExpGolomb)
skip_zeros zero s = none
skip_zeros (suc fuel) s =
    let more = load_word s >>= λ s'.
    skip_zeros fuel s' >>= λ r. some (pos_part s.bits_available + r.0, r.1) in
    elim (first_one (pos_part s.bits_available) 0 s.word) [
      | some n ↦ some (
        n,
        record s { word = shift_left s.word (pos n); bits_available = s.bits_available -ℤ pos n },
      )
      | none ↦ more
    ]

unfoldable pub skip_lz : ExpGolomb → Option (ℕ × ExpGolomb)
skip_lz s = skip_zeros (length s.bytes + 2) s

-- `skipUEG` and `skipEG`
unfoldable pub skip_ueg : ExpGolomb → Option ExpGolomb
skip_ueg s = skip_lz s >>= λ r. skip_bits (1 + r.0) r.1

unfoldable pub read_ueg : ExpGolomb → Option (ℤ × ExpGolomb)
read_ueg s = skip_lz s >>= λ r. read_bits (r.0 + 1) r.1 >>= λ v. some (v.0 -ℤ pos 1, v.1)

-- Odd codes are positive, even ones are not.
unfoldable pub signed_code : ℤ → ℤ
signed_code value =
    if pattern32 value % 2 == 1
    then pos (pattern32 (pos 1 +ℤ value) / 2)
    else sub_ℕ 0 (pattern32 value / 2)

unfoldable pub read_eg : ExpGolomb → Option (ℤ × ExpGolomb)
read_eg s = read_ueg s >>= λ v. some (signed_code v.0, v.1)

unfoldable pub read_boolean : ExpGolomb → Option (Bool × ExpGolomb)
read_boolean s = read_bits 1 s >>= λ v. some (is_nat v.0 1, v.1)

abbrev pub read_ubyte : ExpGolomb → Option (ℤ × ExpGolomb)
read_ubyte s = read_bits 8 s

abbrev pub read_ushort : ExpGolomb → Option (ℤ × ExpGolomb)
read_ushort s = read_bits 16 s

abbrev pub read_uint : ExpGolomb → Option (ℤ × ExpGolomb)
read_uint s = read_bits 32 s
