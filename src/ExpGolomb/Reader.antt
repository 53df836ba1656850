-- ===== src/ExpGolomb/Reader.antt =====
-- The list of bits that a reader stands for, and what a load makes of it.
use native.Mathlib.Nat.{zero-div}
use v4l2rtspserver.Base.{
  ℕ, zero, suc, ◌+◌, ◌-◌, ◌*◌, ◌%◌, ◌^◌, min, ◌≡◌, ◌≤◌, ◌<◌, ◌⊎◌, inl, inr, refl, sym, ap, ◌∙◌,
  some, List, [], ◌∷◌, ◌++◌, length, take, drop, replicate, All, arith, length-drop, take-append_le,
  take-drop_lem, drop-drop_lem, All-drop, All-take,
}
use v4l2rtspserver.Base.Bytes.{IsByte, byte_at-lt}
use v4l2rtspserver.Base.Int.{pos, pos_part, ◌-ℤ◌}
use v4l2rtspserver.ExpGolomb.{ExpGolomb, shift_count, shift_left, shift_right, uint32, load_word}
use v4l2rtspserver.ExpGolomb.Bits.{
  bits_of, value, value_from, length-bits_of, bits_of-shift, value-take, bits_of_bytes,
}

unfoldable pub data_bits : List ℕ → List ℕ
data_bits [] = []
data_bits (b ∷ bytes) = bits_of 8 b ++ data_bits bytes

-- The bytes that are not loaded yet, and the bits that are left.
abbrev pub rest_of : ExpGolomb → List ℕ
rest_of s = drop (length s.bytes - pos_part s.bytes_available) s.bytes

abbrev pub bits_left : ExpGolomb → List ℕ
bits_left s = take (pos_part s.bits_available) (bits_of 32 s.word) ++ data_bits (rest_of s)

-- A reader of bytes between calls: `b` bits of the word and `y` bytes are left, and an empty word with
-- bytes behind it is 0.
pub record IsReader (b y : ℕ) (s : ExpGolomb) : Type 0 where
  pub bits : s.bits_available ≡ pos b
  pub left : s.bytes_available ≡ pos y
  pub in_word : b ≤ 32
  pub in_bytes : y ≤ length s.bytes
  pub is_word : s.word < 2 ^ 32
  pub are_bytes : All IsByte s.bytes
  pub fresh : (1 ≤ b) ⊎ ((s.word ≡ 0) ⊎ (y ≡ 0))

-- The result of a load from `left + 1` bytes.
pub record Loaded (left : ℕ) (s s' : ExpGolomb) : Type 0 where
  pub b : ℕ
  pub y : ℕ
  pub loads : load_word s ≡ some s'
  pub reader : IsReader b y s'
  pub some_bits : 8 ≤ b
  pub fewer : y ≤ left
  pub filled : b ≡ min 4 (suc left) * 8
  pub keeps : bits_left s' ≡ data_bits (rest_of s)
  pub same : s'.bytes ≡ s.bytes

load_bits :
    (t : List ℕ)
    → All IsByte t
    → 1 ≤ length t
    → take (min 4 (length t) * 8) (bits_of 32 (uint32 (take (min 4 (length t)) t)))
        ++ data_bits (drop (min 4 (length t)) t)
      ≡ data_bits t
unfolding uint32 data_bits bits_of
load_bits [] h le = absurd (omega arith)
load_bits (a ∷ []) h le =
    ap (λ (bits : List ℕ). take 8 bits ++ [])
      (bits_of_bytes a 0 0 0 (omega arith) (omega arith) (omega arith))
load_bits (a ∷ b ∷ []) (ha, (hb, h)) le =
    ap (λ (bits : List ℕ). take 16 bits ++ [])
      (bits_of_bytes a b 0 0 hb (omega arith) (omega arith))
load_bits (a ∷ b ∷ c ∷ []) (ha, (hb, (hc, h))) le =
    ap (λ (bits : List ℕ). take 24 bits ++ []) (bits_of_bytes a b c 0 hb hc (omega arith))
load_bits (a ∷ b ∷ c ∷ d ∷ t) (ha, (hb, (hc, (hd, h)))) le =
    let four : min 4 (length (a ∷ b ∷ c ∷ d ∷ t)) ≡ 4 = omega arith in
    rw four (ap (λ (bits : List ℕ). take 32 bits ++ data_bits t) (bits_of_bytes a b c d hb hc hd))

uint32-lt : (t : List ℕ) → All IsByte t → uint32 t < 2 ^ 32
unfolding uint32
uint32-lt t h =
    omega (arith, byte_at-lt t 0 h, byte_at-lt t 1 h, byte_at-lt t 2 h, byte_at-lt t 3 h)

pub load_Loaded :
    (s : ExpGolomb) (n : ℕ)
    → s.bytes_available ≡ pos (suc n)
    → suc n ≤ length s.bytes
    → All IsByte s.bytes
    → (s' : ExpGolomb) × Loaded n s s'
unfolding load_word
load_Loaded s n e le h =
    let at = length s.bytes - suc n in
    let m = min 4 (suc n) in
    let t = drop at s.bytes in
    let size : length t ≡ suc n = omega (arith, length-drop at s.bytes) in
    let s' : ExpGolomb = record s {
      word = uint32 (take m t);
      bits_available = pos (m * 8);
      bytes_available = pos (suc n - m);
    } in
    let t_bytes = All-drop IsByte at s.bytes h in
    let bits = load_bits t t_bytes (omega arith) in
    let moved : drop (length s.bytes - (suc n - m)) s.bytes ≡ drop m t =
      ap (λ (k : ℕ). drop k s.bytes) (omega arith) ∙ sym (drop-drop_lem m at s.bytes) in
    (
      s',
      record {
        b = m * 8;
        y = suc n - m;
        loads = rw e;
        reader = record {
          bits = refl;
          left = refl;
          in_word = omega arith;
          in_bytes = omega arith;
          is_word = uint32-lt (take m t) (All-take IsByte m t t_bytes);
          are_bytes = h;
          fresh = inl (omega arith);
        };
        some_bits = omega arith;
        fewer = omega arith;
        filled = refl;
        keeps = rw (e, moved) (rw size at bits);
        same = refl;
      },
    )

-- The value that a read takes from the word.
pub word_value :
    (m w : ℕ)
    → m ≤ 32
    → w < 2 ^ 32
    → (1 ≤ m) ⊎ (w ≡ 0)
    → shift_right w (pos 32 -ℤ pos m) ≡ value (take m (bits_of 32 w))
unfolding shift_right shift_count value_from
word_value zero w le lt (inl h) = absurd (omega arith)
word_value zero w le lt (inr h) = rw h (zero-div (2 ^ shift_count (pos 32 -ℤ pos 0)))
word_value (suc m) w le lt h =
    let n = suc m in
    let e : pos 32 -ℤ pos n ≡ pos (32 - n) = ground arith in
    let c : (32 - n) % 32 ≡ 32 - n = omega arith in
    let total : n + (32 - n) ≡ 32 = omega arith in
    rw (e, c) (sym (rw total at (value-take n (32 - n) w (rw total lt))))

pub shift_left-lt : (w n : ℕ) → shift_left w (pos n) < 2 ^ 32
unfolding shift_left
shift_left-lt w n = omega arith

-- The bits that are left in the word after a read of fewer.
pub shifted_bits :
    (m b w : ℕ)
    → m < b
    → b ≤ 32
    → take (b - m) (bits_of 32 (shift_left w (pos m))) ≡ drop m (take b (bits_of 32 w))
unfolding shift_left shift_count
shifted_bits m b w h le =
    let c : m % 32 ≡ m = omega arith in
    let high : 32 - m + m ≡ 32 = omega arith in
    let low : m + (32 - m) ≡ 32 = omega arith in
    let bits = bits_of 32 w in
    let shift : bits_of 32 (w * 2 ^ m % 2 ^ 32) ≡ drop m bits ++ replicate m 0 =
      rw (high, low) at (bits_of-shift (32 - m) m w) in
    let size : length (drop m bits) ≡ 32 - m =
      omega (arith, length-drop m bits, length-bits_of 32 w) in
    let sum : m + (b - m) ≡ b = omega arith in
    rw (c, shift)
      (take-append_le (b - m) (drop m bits) (replicate m 0) (omega arith)
        ∙ take-drop_lem m (b - m) bits
        ∙ ap (λ (k : ℕ). drop m (take k bits)) sum)
