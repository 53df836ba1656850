-- ===== src/ExpGolomb/Words.antt =====
-- Reads inside a word and across two words.
use native.Mathlib.Nat.{mod-eq_of_lt, pow-suc, pow-le-pow_right}
use mathlib.Core.List.{append-nil}
use v4l2rtspserver.Base.{
  ℕ, zero, suc, ◌+◌, ◌-◌, ◌*◌, ◌%◌, ◌^◌, min, ◌≡◌, ◌≤◌, ◌<◌, ◌⊎◌, inl, inr, refl, sym, ap, ◌∙◌,
  Option, some, List, [], ◌∷◌, ◌++◌, length, take, drop, All, arith, length-append, length-take,
  take-append_le, drop-append_le, take-append_add, drop-append_add, take-take_le, All-append,
  All-take, ltb, true, false,
}
use v4l2rtspserver.Base.Int.{pattern32, ℤ, pos, pos_part, ◌-ℤ◌, is_nat}
use v4l2rtspserver.ExpGolomb.{
  ExpGolomb, shift_count, shift_left, shift_right, int32, load_word, beyond, bits_to_take,
  next_word, join_bits, read_on,
}
use v4l2rtspserver.ExpGolomb.Bits.{
  bits_of, value, value_from, length-bits_of, bit_or-add, value_from-acc, value_from-append,
}
use v4l2rtspserver.ExpGolomb.Reader.{
  data_bits, rest_of, bits_left, IsReader, word_value, shift_left-lt, shifted_bits,
}

-- What a read of `n` bits promises.
pub record Reads (n : ℕ) (s : ExpGolomb) (run : Option (ℤ × ExpGolomb)) : Type 0 where
  pub after : ExpGolomb
  pub b : ℕ
  pub y : ℕ
  pub returns : run ≡ some (pos (value (take n (bits_left s))), after)
  pub reader : IsReader b y after
  pub rest : bits_left after ≡ drop n (bits_left s)
  pub same : after.bytes ≡ s.bytes

-- The call without its recursive one, and with it.
pub read_last :
    (fuel n m : ℕ) (s s' : ExpGolomb)
    → bits_to_take n s.bits_available ≡ pos m
    → n ≤ m
    → next_word (pos m) s ≡ some s'
    → read_on (suc fuel) n s ≡ some (pos (shift_right s.word (pos 32 -ℤ pos m)), s')
unfolding read_on beyond
read_last fuel n m s s' e le h =
    let done : ltb 0 (n + 0 - m) ≡ false = ground arith in rw (e, h, done)

pub read_more :
    (fuel n m k : ℕ) (v : ℤ) (s s' s'' : ExpGolomb)
    → bits_to_take n s.bits_available ≡ pos m
    → m < n
    → next_word (pos m) s ≡ some s'
    → s'.bits_available ≡ pos k
    → 1 ≤ k
    → read_on fuel (n - m) s' ≡ some (v, s'')
    → read_on (suc fuel) n s
      ≡ some (join_bits (shift_right s.word (pos 32 -ℤ pos m)) (n - m) v, s'')
unfolding read_on beyond
read_more fuel n m k v s s' s'' e lt h bits le more =
    let size : n + 0 - m ≡ n - m = omega arith in
    let goes : ltb 0 (n - m) ≡ true = ground arith in
    let full : is_nat s'.bits_available 0 ≡ false = rw bits (ground arith) in
    rw (e, h, size, goes, full, more)

-- A read inside the word.
pub read_inside :
    (fuel n b y : ℕ) (s : ExpGolomb)
    → IsReader b y s
    → 1 ≤ n
    → n < b
    → Reads n s (read_on (suc fuel) n s)
unfolding next_word bits_to_take
read_inside fuel n b y s v le lt =
    let m : min b n ≡ n = omega arith in
    let takes : bits_to_take n s.bits_available ≡ pos n = rw (v.bits, m) in
    let after : ExpGolomb = record s {
      word = shift_left s.word (pos n);
      bits_available = pos (b - n);
    } in
    let left : s.bits_available -ℤ pos n ≡ pos (b - n) = rw v.bits (ground arith) in
    let some_left : ltb 0 (b - n) ≡ true = ground arith in
    let next : next_word (pos n) s ≡ some after = rw (left, some_left) in
    let bits = bits_of 32 s.word in
    let size : length (take b bits) ≡ b =
      omega (arith, length-take b bits, length-bits_of 32 s.word, v.in_word) in
    let first : take n (take b bits ++ data_bits (rest_of s)) ≡ take n bits =
      take-append_le n (take b bits) (data_bits (rest_of s)) (omega (arith, size))
      ∙ take-take_le n b bits (omega arith) in
    record {
      after = after;
      b = b - n;
      y = y;
      returns =
          read_last fuel n n s after takes (omega arith) next
          ∙ ap (λ (k : ℕ). some (pos k, after))
              (word_value n s.word (omega (arith, v.in_word)) v.is_word (inl le)
                ∙ ap value (rw v.bits (sym first)));
      reader = record {
        bits = refl;
        left = v.left;
        in_word = omega (arith, v.in_word);
        in_bytes = v.in_bytes;
        is_word = shift_left-lt s.word n;
        are_bytes = v.are_bytes;
        fresh = inl (omega arith);
      };
      rest = rw v.bits (
          ap (λ (t : List ℕ). t ++ data_bits (rest_of s)) (shifted_bits n b s.word lt v.in_word)
          ∙ sym (drop-append_le n (take b bits) (data_bits (rest_of s)) (omega (arith, size))));
      same = refl;
    }

-- A read of the whole word, before what follows it.
pub next_word_empty :
    (b y : ℕ) (s : ExpGolomb)
    → IsReader b y s
    → y ≡ 0
    → next_word (pos b) s ≡ some (record s { bits_available = pos 0 })
unfolding next_word
next_word_empty b y s v none_left =
    let left : s.bits_available -ℤ pos b ≡ pos 0 = rw v.bits (ground arith) in
    let no_bytes : ltb 0 (pos_part s.bytes_available) ≡ false = rw (v.left, none_left) in
    rw (left, no_bytes)

pub next_word_load :
    (b y : ℕ) (s s' : ExpGolomb)
    → IsReader b (suc y) s
    → load_word (record s { bits_available = pos 0 }) ≡ some s'
    → next_word (pos b) s ≡ some s'
unfolding next_word
next_word_load b y s s' v h =
    let left : s.bits_available -ℤ pos b ≡ pos 0 = rw v.bits (ground arith) in
    let bytes : ltb 0 (pos_part s.bytes_available) ≡ true = rw v.left (ground arith) in
    rw (left, bytes, h)

pub takes_all :
    (b n y : ℕ) (s : ExpGolomb) → IsReader b y s → b ≤ n → bits_to_take n s.bits_available ≡ pos b
unfolding bits_to_take
takes_all b n y s v le = let m : min b n ≡ b = omega arith in rw (v.bits, m)

-- The bits of a read that goes beyond the word.
module _ (b y n : ℕ) (s : ExpGolomb) (v : IsReader b y s) (le : b ≤ n) where
  unfoldable pub word_bits : List ℕ
  word_bits = take b (bits_of 32 s.word)

  length-word_bits : length word_bits ≡ b
  unfolding word_bits
  length-word_bits =
      omega (arith, length-take b (bits_of 32 s.word), length-bits_of 32 s.word, v.in_word)

  left_lem : bits_left s ≡ word_bits ++ data_bits (rest_of s)
  unfolding word_bits
  left_lem = rw v.bits

  take_beyond : take n (bits_left s) ≡ word_bits ++ take (n - b) (data_bits (rest_of s))
  take_beyond =
      let sum : n ≡ length word_bits + (n - b) = omega (arith, length-word_bits) in
      rw left_lem (
        ap (λ (k : ℕ). take k (word_bits ++ data_bits (rest_of s))) sum
        ∙ take-append_add (n - b) word_bits (data_bits (rest_of s)))

  pub drop_beyond : drop n (bits_left s) ≡ drop (n - b) (data_bits (rest_of s))
  drop_beyond =
      let sum : n ≡ length word_bits + (n - b) = omega (arith, length-word_bits) in
      rw left_lem (
        ap (λ (k : ℕ). drop k (word_bits ++ data_bits (rest_of s))) sum
        ∙ drop-append_add (n - b) word_bits (data_bits (rest_of s)))

  pub length-left : length (bits_left s) ≡ b + length (data_bits (rest_of s))
  length-left =
      rw left_lem (omega (arith, length-append word_bits (data_bits (rest_of s)), length-word_bits))

-- A read of the whole word and no more.
module _ (b y n : ℕ) (s : ExpGolomb) (v : IsReader b y s) (same : n ≡ b) where
  le_same : b ≤ n
  le_same = omega arith

  pub take_word : take n (bits_left s) ≡ take b (bits_of 32 s.word)
  unfolding word_bits
  take_word =
      let none : n - b ≡ 0 = omega arith in
      take_beyond b y n s v le_same ∙ rw none (append-nil (take b (bits_of 32 s.word)))

  pub drop_word : drop n (bits_left s) ≡ data_bits (rest_of s)
  drop_word = let none : n - b ≡ 0 = omega arith in drop_beyond b y n s v le_same ∙ rw none

abbrev pub IsBit : ℕ → Type 0
IsBit b = b ≤ 1

bits_of-IsBit : (n x : ℕ) → All IsBit (bits_of n x)
unfolding bits_of
bits_of-IsBit zero x = tt
bits_of-IsBit (suc n) x = (omega arith, bits_of-IsBit n x)

data_bits-IsBit : (bytes : List ℕ) → All IsBit (data_bits bytes)
unfolding data_bits
data_bits-IsBit [] = tt
data_bits-IsBit (b ∷ bytes) =
    All-append IsBit (bits_of 8 b) (data_bits bytes) (bits_of-IsBit 8 b) (data_bits-IsBit bytes)

value_from-lt :
    (acc : ℕ) (bits : List ℕ) → All IsBit bits → value_from acc bits < (acc + 1) * 2 ^ length bits
unfolding value_from
value_from-lt acc [] h = omega arith
value_from-lt acc (b ∷ bits) (hb, h) =
    let rest = value_from-lt (acc * 2 + b) bits h in
    let p = 2 ^ length bits in rw (pow-suc 2 (length bits)) (grind arith)

pub value-lt : (bits : List ℕ) → All IsBit bits → value bits < 2 ^ length bits
value-lt bits h = omega (arith, value_from-lt 0 bits h)

join_value :
    (xs ys : List ℕ)
    → All IsBit xs
    → All IsBit ys
    → length xs + length ys ≤ 31
    → join_bits (value xs) (length ys) (pos (value ys)) ≡ pos (value (xs ++ ys))
unfolding join_bits shift_left shift_count pattern32 int32
join_value xs ys hx hy le =
    let r = length ys in
    let p = 2 ^ r in
    let small : r % 32 ≡ r = omega arith in
    let v : value (xs ++ ys) ≡ value xs * p + value ys =
      value_from-append 0 xs ys ∙ value_from-acc (value xs) ys in
    let below : value (xs ++ ys) < 2 ^ length (xs ++ ys) =
      value-lt (xs ++ ys) (All-append IsBit xs ys hx hy) in
    let exponent : length (xs ++ ys) ≤ 31 = omega (arith, length-append xs ys) in
    let powers : 2 ^ length (xs ++ ys) ≤ 2 ^ 31 = pow-le-pow_right (omega arith) exponent in
    let high : value xs * p + value ys < 2 ^ 31 = omega (arith, below, powers, v) in
    let whole : value xs * p % 2 ^ 32 ≡ value xs * p = mod-eq_of_lt (omega arith) in
    let low : value ys % 2 ^ 32 ≡ value ys = mod-eq_of_lt (omega arith) in
    let sum = bit_or-add r (value xs) (value ys) (value-lt ys hy) in
    let fits : ltb (value xs * p + value ys) (2 ^ 31) ≡ true = ground arith in
    rw (small, whole, low, sum, fits, v)

word_bits-IsBit :
    (b y n : ℕ) (s : ExpGolomb) (v : IsReader b y s) (le : b ≤ n)
    → All IsBit (word_bits b y n s v le)
unfolding word_bits
word_bits-IsBit b y n s v le = All-take IsBit b (bits_of 32 s.word) (bits_of-IsBit 32 s.word)

abbrev pub Fuel : ℕ → ℕ → ℕ → Type 0
Fuel b n fuel = ((1 ≤ b) × (n + 1 ≤ fuel)) ⊎ (n + 2 ≤ fuel)

pub le_or_lt : (m n : ℕ) → (m ≤ n) ⊎ (n < m)
le_or_lt m n = ground arith

pub enough_left : (b n fuel : ℕ) → Fuel b n (suc fuel) → 1 ≤ n - b → b ≤ n → n - b + 1 ≤ fuel
enough_left b n fuel (inl (h, k)) lo le = omega arith
enough_left b n fuel (inr h) lo le = omega arith

drop-all {ℓ} : {A : Type ℓ} (n : ℕ) (xs : List A) → length xs ≤ n → drop n xs ≡ []
drop-all zero [] h = refl
drop-all zero (x ∷ xs) h = absurd (omega arith)
drop-all (suc n) [] h = refl
drop-all (suc n) (x ∷ xs) h = drop-all n xs (omega arith)

-- The first part of a read across words.
pub first_value :
    (b y n : ℕ) (s : ExpGolomb) (v : IsReader b (suc y) s) (le : b ≤ n)
    → shift_right s.word (pos 32 -ℤ pos b) ≡ value (word_bits b (suc y) n s v le)
unfolding word_bits
first_value b y n s v le =
    word_value b s.word v.in_word v.is_word
      (elim v.fresh [ inl h ↦ inl h | inr (inl z) ↦ inr z | inr (inr z) ↦ absurd (omega arith) ])

-- With no bytes left the bits are those of the word.
no_data : (b : ℕ) (s : ExpGolomb) → IsReader b 0 s → data_bits (rest_of s) ≡ []
unfolding data_bits
no_data b s v =
    let none_left : rest_of s ≡ [] =
      rw v.left (drop-all (length s.bytes - 0) s.bytes (omega arith)) in
    rw none_left

pub length-left_at_end : (b : ℕ) (s : ExpGolomb) → IsReader b 0 s → length (bits_left s) ≡ b
length-left_at_end b s v =
    omega (arith, length-left b 0 b s v (omega arith), ap length (no_data b s v))

-- The two parts of a read across words make the value of all its bits.
pub joined :
    (b y n : ℕ) (s : ExpGolomb) (v : IsReader b (suc y) s) (le : b ≤ n)
    → n ≤ 31
    → (s' : ExpGolomb) → bits_left s' ≡ data_bits (rest_of s)
    → b < n
    → n - b ≤ length (bits_left s')
    → join_bits
        (shift_right s.word (pos 32 -ℤ pos b))
        (n - b)
        (pos (value (take (n - b) (bits_left s'))))
      ≡ pos (value (take n (bits_left s)))
joined b y n s v le hi s' keeps lt enough =
    let xs = word_bits b (suc y) n s v le in
    let ys = take (n - b) (data_bits (rest_of s)) in
    let len = length-word_bits b (suc y) n s v le in
    let size : length ys ≡ n - b =
      omega (arith, length-take (n - b) (data_bits (rest_of s)), ap length keeps) in
    let whole = take_beyond b (suc y) n s v le in
    let ys_bits = All-take IsBit (n - b) (data_bits (rest_of s)) (data_bits-IsBit (rest_of s)) in
    let join =
      join_value xs ys (word_bits-IsBit b (suc y) n s v le) ys_bits (omega (arith, len, size)) in
    let ends : value (take (n - b) (bits_left s')) ≡ value ys =
      ap (λ (t : List ℕ). value (take (n - b) t)) keeps in
    rw (first_value b y n s v le, ends, whole) (rw size at join)
