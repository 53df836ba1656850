-- ===== src/ExpGolomb/Skips.antt =====
-- What `skipBits` skips.
use v4l2rtspserver.Base.{
  ℕ, zero, suc, ◌+◌, ◌-◌, ◌*◌, ◌/◌, min, ◌≡◌, ◌≤◌, ◌<◌, ◌⊎◌, inl, inr, refl, sym, ap, ◌∙◌, true,
  false, Option, some, none, List, [], ◌∷◌, ◌++◌, length, take, drop, arith, length-take,
  length-drop, drop-append_le, drop-append_add, drop-drop_lem, ltb,
}
use v4l2rtspserver.Base.Int.{pos, pos_part, neg_part, ◌-ℤ◌}
use v4l2rtspserver.ExpGolomb.{ExpGolomb, shift_left, load_word, beyond, skip_bits}
use v4l2rtspserver.ExpGolomb.Bits.{bits_of, length-bits_of}
use v4l2rtspserver.ExpGolomb.Reader.{
  IsReader, Loaded, load_Loaded, bits_left, rest_of, data_bits, shifted_bits, shift_left-lt,
}
use v4l2rtspserver.ExpGolomb.Words.{le_or_lt}

-- After a skip the reader has dropped `n` bits.
pub record Drops (n : ℕ) (s : ExpGolomb) (run : Option ExpGolomb) : Type 0 where
  pub after : ExpGolomb
  pub b : ℕ
  pub y : ℕ
  pub returns : run ≡ some after
  pub reader : IsReader b y after
  pub rest : bits_left after ≡ drop n (bits_left s)

-- A shift of the word inside a reader.
module _ (m b y : ℕ) (s : ExpGolomb) (v : IsReader b y s) (lt : m < b) where
  moved : ExpGolomb
  moved = record s { word = shift_left s.word (pos m); bits_available = pos (b - m) }

  moved-IsReader : IsReader (b - m) y moved
  unfolding moved
  moved-IsReader = record {
    bits = refl;
    left = v.left;
    in_word = omega (arith, v.in_word);
    in_bytes = v.in_bytes;
    is_word = shift_left-lt s.word m;
    are_bytes = v.are_bytes;
    fresh = inl (omega arith);
  }

  moved_lem : bits_left moved ≡ drop m (bits_left s)
  unfolding moved
  moved_lem =
      let bits = take b (bits_of 32 s.word) in
      let size : length bits ≡ b =
        omega (arith, length-take b (bits_of 32 s.word), length-bits_of 32 s.word, v.in_word) in
      rw v.bits (
        ap (λ (t : List ℕ). t ++ data_bits (rest_of s)) (shifted_bits m b s.word lt v.in_word)
        ∙ sym (drop-append_le m bits (data_bits (rest_of s)) (omega (arith, size))))

-- The bits of a reader behind its word.
drop_word :
    (n b y : ℕ) (s : ExpGolomb)
    → IsReader b y s
    → b ≤ n
    → drop n (bits_left s) ≡ drop (n - b) (data_bits (rest_of s))
drop_word n b y s v le =
    let bits = take b (bits_of 32 s.word) in
    let size : length bits ≡ b =
      omega (arith, length-take b (bits_of 32 s.word), length-bits_of 32 s.word, v.in_word) in
    let sum : n ≡ length bits + (n - b) = omega (arith, size) in
    rw v.bits (
      ap (λ (k : ℕ). drop k (bits ++ data_bits (rest_of s))) sum
      ∙ drop-append_add (n - b) bits (data_bits (rest_of s)))

drop-data_bits :
    (q : ℕ) (t : List ℕ) → q ≤ length t → data_bits (drop q t) ≡ drop (8 * q) (data_bits t)
unfolding data_bits
drop-data_bits zero t h = refl
drop-data_bits (suc q) [] h = absurd (omega arith)
drop-data_bits (suc q) (a ∷ t) h =
    let sum : 8 * suc q ≡ length (bits_of 8 a) + 8 * q = omega (arith, length-bits_of 8 a) in
    drop-data_bits q t (omega arith)
    ∙ sym (drop-append_add (8 * q) (bits_of 8 a) (data_bits t))
    ∙ ap (λ (k : ℕ). drop k (bits_of 8 a ++ data_bits t)) (sym sum)

pub skip_inside : (n b y : ℕ) (s : ExpGolomb) → IsReader b y s → n < b → Drops n s (skip_bits n s)
unfolding skip_bits moved
skip_inside n b y s v lt =
    let inside : ltb n (pos_part s.bits_available) ≡ true = rw v.bits (ground arith) in
    let left : pos_part s.bits_available - n ≡ b - n = rw v.bits in
    record {
      after = moved n b y s v lt;
      b = b - n;
      y = y;
      returns = rw (inside, left);
      reader = moved-IsReader n b y s v lt;
      rest = moved_lem n b y s v lt;
    }

-- A skip beyond the word, with `q` whole bytes in its distance, fewer than eight of them: these bytes
-- are skipped, and after the load the whole distance is skipped again.
skip_beyond :
    (n b y q y' : ℕ) (s : ExpGolomb)
    → IsReader b y s
    → b ≤ n
    → (n - b) / 8 ≡ q
    → q < 8
    → y ≡ q + suc y'
    → n - b < min 4 (suc y') * 8
    → (s' : ExpGolomb) → Loaded y' (record s { bytes_available = pos (suc y') }) s'
    → Drops (n + 8 * q) s (skip_bits n s)
unfolding skip_bits beyond moved
skip_beyond n b y q y' s v le whole few split enough s' l =
    let m = n - b in
    let lt : m < l.b = omega (arith, l.filled) in
    let outside : ltb n (pos_part s.bits_available) ≡ false = rw v.bits (ground arith) in
    let far : n + neg_part s.bits_available - pos_part s.bits_available ≡ m =
      rw v.bits (omega arith) in
    let none_more : q / 8 ≡ 0 = omega arith in
    let m_less : m - 0 ≡ m = omega arith in
    let bytes : s.bytes_available -ℤ pos q ≡ pos (suc y') = rw (v.left, split) (ground arith) in
    let bits : s'.bits_available -ℤ pos m ≡ pos (l.b - m) = rw l.reader.bits (ground arith) in
    let at : length s.bytes - suc y' ≡ length s.bytes - y + q = omega (arith, v.in_bytes) in
    let bytes_left : drop (length s.bytes - suc y') s.bytes
        ≡ drop q (drop (length s.bytes - y) s.bytes) =
      ap (λ (k : ℕ). drop k s.bytes) at ∙ sym (drop-drop_lem q (length s.bytes - y) s.bytes) in
    let skipped : drop q (rest_of s) ≡ drop q (drop (length s.bytes - y) s.bytes) = rw v.left in
    let size : q ≤ length (rest_of s) =
      rw v.left (omega (arith, length-drop (length s.bytes - y) s.bytes, v.in_bytes)) in
    let kept : bits_left s' ≡ drop (8 * q) (data_bits (rest_of s)) =
      l.keeps ∙ ap data_bits (bytes_left ∙ sym skipped) ∙ drop-data_bits q (rest_of s) size in
    let total : 8 * q + m ≡ n + 8 * q - b = omega arith in
    record {
      after = moved m l.b l.y s' l.reader lt;
      b = l.b - m;
      y = l.y;
      returns = rw (outside, far, whole, none_more, m_less, bytes, l.loads, bits);
      reader = moved-IsReader m l.b l.y s' l.reader lt;
      rest =
          moved_lem m l.b l.y s' l.reader lt
          ∙ ap (drop m) kept
          ∙ drop-drop_lem m (8 * q) (data_bits (rest_of s))
          ∙ ap (λ (k : ℕ). drop k (data_bits (rest_of s))) total
          ∙ sym (drop_word (n + 8 * q) b y s v (omega arith));
    }

skip_loaded :
    (n b y q y' : ℕ) (s : ExpGolomb)
    → IsReader b y s
    → b ≤ n
    → (n - b) / 8 ≡ q
    → q < 8
    → y ≡ q + suc y'
    → n - b < min 4 (suc y') * 8
    → Drops (n + 8 * q) s (skip_bits n s)
skip_loaded n b y q y' s v le whole few split enough =
    let r =
      load_Loaded (record s { bytes_available = pos (suc y') }) y' refl (omega (arith, v.in_bytes))
        v.are_bytes in
    skip_beyond n b y q y' s v le whole few split enough r.0 r.1

-- Of a reader of bytes between its calls, `skipBits` takes off just as many bits as it is told, if
-- fewer than eight of them lie beyond the word, and there is a byte behind the word or they are
-- fewer than the bits in it.
pub skip_bits-Drops :
    (n b y : ℕ) (s : ExpGolomb)
    → IsReader b y s
    → n < b + 8
    → (n < b) ⊎ (1 ≤ y)
    → Drops n s (skip_bits n s)
skip_bits-Drops n b y s v near (inl lt) = skip_inside n b y s v lt
skip_bits-Drops n b zero s v near (inr some_left) = absurd (omega arith)
skip_bits-Drops n b (suc y) s v near (inr some_left) = elim (le_or_lt b n) [
  | inr lt ↦ skip_inside n b (suc y) s v lt
  | inl le ↦
      let same : n + 8 * 0 ≡ n = omega arith in
      rw same at
        (skip_loaded n b (suc y) 0 y s v le (omega arith) (omega arith) (omega arith) (omega arith))
]

-- Of a reader of bytes between its calls, if whole bytes lie beyond the word in what is to be
-- skipped, less than 32 bits of it do, and four bytes more are left, `skipBits` takes off the bits
-- of these bytes twice.
pub skip_bits_twice :
    (n b y : ℕ) (s : ExpGolomb)
    → IsReader b y s
    → b + 8 ≤ n
    → n < b + 32
    → (n - b) / 8 + 4 ≤ y
    → Drops (n + 8 * ((n - b) / 8)) s (skip_bits n s)
skip_bits_twice n b y s v far near enough =
    let q = (n - b) / 8 in
    skip_loaded n b y q (y - q - 1) s v (omega arith) refl (omega arith) (omega arith) (omega arith)

-- Of a reader with no byte behind its word, `skipBits` throws if it is to skip the whole rest of
-- the word, or up to seven bits more.
pub skip_bits_throws :
    (n b : ℕ) (s : ExpGolomb) → IsReader b 0 s → b ≤ n → n < b + 8 → skip_bits n s ≡ none
unfolding skip_bits beyond load_word
skip_bits_throws n b s v le near =
    let outside : ltb n (pos_part s.bits_available) ≡ false = rw v.bits (ground arith) in
    let far : (n + neg_part s.bits_available - pos_part s.bits_available) / 8 ≡ 0 =
      rw v.bits (omega arith) in
    let bytes : s.bytes_available -ℤ pos 0 ≡ pos 0 = rw v.left in rw (outside, far, bytes)
