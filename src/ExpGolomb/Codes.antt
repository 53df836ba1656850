-- ===== src/ExpGolomb/Codes.antt =====
-- Exponential-Golomb codes: what `skipLZ` and `readUEG` make of the bits of a code.
use native.Mathlib.Nat.{mod-eq_of_lt, div-eq_of_lt-le, pow-suc}
use mathlib.Core.List.{append_assoc}
use v4l2rtspserver.Base.{
  ℕ, zero, suc, ◌+◌, ◌-◌, ◌*◌, ◌/◌, ◌^◌, ◌≡◌, ◌≤◌, ◌<◌, inl, inr, refl, sym, ap, ◌∙◌, Option, some,
  none, List, [], ◌∷◌, ◌++◌, length, take, drop, replicate, arith, length-append, length-take,
  length-replicate, drop-append_le, take-length-append, drop-length-append, if◌then◌else◌, ◌==◌,
}
use v4l2rtspserver.Base.Int.{ℤ, pos, pos_part, ◌-ℤ◌}
use v4l2rtspserver.ExpGolomb.{ExpGolomb, shift_left, first_one, skip_zeros, skip_lz, read_ueg}
use v4l2rtspserver.ExpGolomb.Bits.{bits_of, value, length-bits_of, value_from-bits_of}
use v4l2rtspserver.ExpGolomb.Reader.{
  IsReader, load_Loaded, bits_left, rest_of, data_bits, shifted_bits, shift_left-lt,
}
use v4l2rtspserver.ExpGolomb.Refine.{read_bits-Reads}
use v4l2rtspserver.ExpGolomb.Words.{length-left_at_end, le_or_lt}

-- The place of the first one in a list of bits.
find_one : ℕ → List ℕ → Option ℕ
find_one i [] = none
find_one i (b ∷ bits) = if b == 1 then some i else find_one (suc i) bits

first_one-find_one :
    (n i w : ℕ) → i + n ≤ 32 → first_one n i w ≡ find_one i (take n (bits_of (32 - i) w))
unfolding first_one find_one bits_of
first_one-find_one zero i w h = refl
first_one-find_one (suc n) i w h =
    let e : 32 - i ≡ suc (31 - i) = omega arith in
    let k : 31 - i ≡ 32 - suc i = omega arith in
    rw (e, first_one-find_one n (suc i) w (omega arith), ← k)

-- A run of zeros and a one.
abbrev pub zeros_one : ℕ → List ℕ → List ℕ
zeros_one k rest = replicate k 0 ++ 1 ∷ rest

find_one-found :
    (i k b : ℕ) (rest : List ℕ) → k < b → find_one i (take b (zeros_one k rest)) ≡ some (i + k)
unfolding find_one
find_one-found i k zero rest h = absurd (omega arith)
find_one-found i zero (suc b) rest h = ap some (omega arith)
find_one-found i (suc k) (suc b) rest h =
    find_one-found (suc i) k b rest (omega arith) ∙ ap some (omega arith)

find_one-none : (i k b : ℕ) (rest : List ℕ) → b ≤ k → find_one i (take b (zeros_one k rest)) ≡ none
unfolding find_one
find_one-none i k zero rest h = refl
find_one-none i zero (suc b) rest h = absurd (omega arith)
find_one-none i (suc k) (suc b) rest h = find_one-none (suc i) k b rest (omega arith)

drop-zeros : (b k : ℕ) (rest : List ℕ) → b ≤ k → drop b (zeros_one k rest) ≡ zeros_one (k - b) rest
drop-zeros zero k rest h = let e : k - 0 ≡ k = omega arith in rw e
drop-zeros (suc b) zero rest h = absurd (omega arith)
drop-zeros (suc b) (suc k) rest h =
    let e : suc k - suc b ≡ k - b = omega arith in rw e (drop-zeros b k rest (omega arith))

drop-zeros_all : (k : ℕ) (rest : List ℕ) → drop k (zeros_one k rest) ≡ 1 ∷ rest
drop-zeros_all zero rest = refl
drop-zeros_all (suc k) rest = drop-zeros_all k rest

pub take_front {ℓ} : {A : Type ℓ} (b : ℕ) (xs ys : List A) → length xs ≡ b → take b (xs ++ ys) ≡ xs
take_front b xs ys e = ap (λ (k : ℕ). take k (xs ++ ys)) (sym e) ∙ take-length-append xs ys

pub drop_front {ℓ} : {A : Type ℓ} (b : ℕ) (xs ys : List A) → length xs ≡ b → drop b (xs ++ ys) ≡ ys
drop_front b xs ys e = ap (λ (k : ℕ). drop k (xs ++ ys)) (sym e) ∙ drop-length-append xs ys

-- What `skipLZ` promises on `k` zeros and a one.
pub record Skips (k : ℕ) (rest : List ℕ) (s : ExpGolomb) (run : Option (ℕ × ExpGolomb))
    : Type 0 where
  pub after : ExpGolomb
  pub b : ℕ
  pub y : ℕ
  pub returns : run ≡ some (k, after)
  pub reader : IsReader b y after
  pub left : bits_left after ≡ 1 ∷ rest
  pub same : after.bytes ≡ s.bytes

-- The one stands in the word.
skip_inside :
    (fuel k b y : ℕ) (rest : List ℕ) (s : ExpGolomb)
    → IsReader b y s
    → bits_left s ≡ zeros_one k rest
    → k < b
    → Skips k rest s (skip_zeros (suc fuel) s)
unfolding skip_zeros
skip_inside fuel k b y rest s v e lt =
    let bits = bits_of 32 s.word in
    let size : length (take b bits) ≡ b =
      omega (arith, length-take b bits, length-bits_of 32 s.word, v.in_word) in
    let whole : take b bits ++ data_bits (rest_of s) ≡ zeros_one k rest = rw v.bits at e in
    let word : take b bits ≡ take b (zeros_one k rest) =
      sym (take_front b (take b bits) (data_bits (rest_of s)) size) ∙ ap (take b) whole in
    let found : first_one (pos_part s.bits_available) 0 s.word ≡ some k =
      rw
        (
          v.bits,
          first_one-find_one b 0 s.word (omega (arith, v.in_word)),
          word,
          find_one-found 0 k b rest lt,
        )
        (ap some (omega arith)) in
    let left : s.bits_available -ℤ pos k ≡ pos (b - k) = rw v.bits (ground arith) in
    record {
      after = record s { word = shift_left s.word (pos k); bits_available = pos (b - k) };
      b = b - k;
      y = y;
      returns = rw (skip_zeros, found, left);
      reader = record {
        bits = refl;
        left = v.left;
        in_word = omega (arith, v.in_word);
        in_bytes = v.in_bytes;
        is_word = shift_left-lt s.word k;
        are_bytes = v.are_bytes;
        fresh = inl (omega arith);
      };
      left =
          ap (λ (t : List ℕ). t ++ data_bits (rest_of s)) (shifted_bits k b s.word lt v.in_word)
          ∙ sym (drop-append_le k (take b bits) (data_bits (rest_of s)) (omega (arith, size)))
          ∙ ap (drop k) whole
          ∙ drop-zeros_all k rest;
      same = refl;
    }

-- The one stands further on.
skip_beyond :
    (fuel k b y : ℕ) (rest : List ℕ) (s : ExpGolomb)
    → IsReader b (suc y) s
    → bits_left s ≡ zeros_one k rest
    → b ≤ k
    → ((b' y' : ℕ) (s' : ExpGolomb)
        → IsReader b' y' s'
        → y' ≤ y
        → bits_left s' ≡ zeros_one (k - b) rest
        → Skips (k - b) rest s' (skip_zeros fuel s'))
    → Skips k rest s (skip_zeros (suc fuel) s)
unfolding skip_zeros
skip_beyond fuel k b y rest s v e le more =
    let (s', l) = load_Loaded s y v.left v.in_bytes v.are_bytes in
    let bits = bits_of 32 s.word in
    let size : length (take b bits) ≡ b =
      omega (arith, length-take b bits, length-bits_of 32 s.word, v.in_word) in
    let whole : take b bits ++ data_bits (rest_of s) ≡ zeros_one k rest = rw v.bits at e in
    let word : take b bits ≡ take b (zeros_one k rest) =
      sym (take_front b (take b bits) (data_bits (rest_of s)) size) ∙ ap (take b) whole in
    let none_found : first_one (pos_part s.bits_available) 0 s.word ≡ none =
      rw (v.bits, first_one-find_one b 0 s.word (omega (arith, v.in_word)), word)
        (find_one-none 0 k b rest le) in
    let left : bits_left s' ≡ zeros_one (k - b) rest =
      l.keeps
      ∙ sym (drop_front b (take b bits) (data_bits (rest_of s)) size)
      ∙ ap (drop b) whole
      ∙ drop-zeros b k rest le in
    let r = more l.b l.y s' l.reader l.fewer left in
    let total : pos_part s.bits_available + (k - b) ≡ k = rw v.bits (omega arith) in
    record {
      after = r.after;
      b = r.b;
      y = r.y;
      returns = rw (skip_zeros, none_found, l.loads, r.returns, total);
      reader = r.reader;
      left = r.left;
      same = r.same ∙ l.same;
    }

skip_zeros-Skips :
    (fuel k b y : ℕ) (rest : List ℕ) (s : ExpGolomb)
    → IsReader b y s
    → bits_left s ≡ zeros_one k rest
    → y + 1 ≤ fuel
    → Skips k rest s (skip_zeros fuel s)
skip_zeros-Skips zero k b y rest s v e f = absurd (omega arith)
skip_zeros-Skips (suc fuel) k b zero rest s v e f = elim (le_or_lt b k) [
  | inr lt ↦ skip_inside fuel k b 0 rest s v e lt
  | inl le ↦
      let long : length (zeros_one k rest) ≡ k + suc (length rest) =
        omega (arith, length-append (replicate k 0) (1 ∷ rest), length-replicate {A = ℕ} k 0) in
      absurd (omega (arith, long, ap length e, length-left_at_end b s v))
]
skip_zeros-Skips (suc fuel) k b (suc y) rest s v e f = elim (le_or_lt b k) [
  | inr lt ↦ skip_inside fuel k b (suc y) rest s v e lt
  | inl le ↦
      skip_beyond fuel k b y rest s v e le
        λ b' y' s' v' fewer e'. skip_zeros-Skips fuel (k - b) b' y' rest s' v' e' (omega arith)
]

-- `skipLZ` on zeros and a one counts the zeros, and leaves the one and what is behind it.
pub skip_lz-Skips :
    (k b y : ℕ) (rest : List ℕ) (s : ExpGolomb)
    → IsReader b y s
    → bits_left s ≡ zeros_one k rest
    → Skips k rest s (skip_lz s)
unfolding skip_lz
skip_lz-Skips k b y rest s v e =
    skip_zeros-Skips (length s.bytes + 2) k b y rest s v e (omega (arith, v.in_bytes))

-- The bits of an exponential-Golomb code: `k` zeros, and `n + 1` in `k + 1` bits.
abbrev pub ue_code : ℕ → ℕ → List ℕ
ue_code k n = replicate k 0 ++ bits_of (suc k) (n + 1)

quotient_one : (p x : ℕ) → p ≤ x → x < p * 2 → x / p ≡ 1
quotient_one p x lo hi = div-eq_of_lt-le p (omega arith) (omega arith)

pub top_bit : (k x : ℕ) → 2 ^ k ≤ x → x < 2 ^ suc k → bits_of (suc k) x ≡ 1 ∷ bits_of k x
unfolding bits_of
top_bit k x lo hi =
    let one : x / 2 ^ k ≡ 1 = quotient_one (2 ^ k) x lo (omega (arith, hi, pow-suc 2 k)) in rw one

-- What `readUEG` promises.
pub record ReadsCode (n : ℕ) (rest : List ℕ) (run : Option (ℤ × ExpGolomb)) : Type 0 where
  pub after : ExpGolomb
  pub b : ℕ
  pub y : ℕ
  pub returns : run ≡ some (pos n, after)
  pub reader : IsReader b y after
  pub left : bits_left after ≡ rest

-- Of a reader of bytes between its calls, `readUEG` reads back the exponential-Golomb code of any
-- number below 2 ^ 31 - 1 in front of the bits that are left, across words or not, and takes off
-- just that.
pub read_ueg-ue_code :
    (k n b y : ℕ) (rest : List ℕ) (s : ExpGolomb)
    → k ≤ 30
    → 2 ^ k ≤ n + 1
    → n + 1 < 2 ^ suc k
    → IsReader b y s
    → bits_left s ≡ ue_code k n ++ rest
    → ReadsCode n rest (read_ueg s)
unfolding read_ueg
read_ueg-ue_code k n b y rest s hk lo hi v e =
    let code = bits_of k (n + 1) in
    let top : bits_of (suc k) (n + 1) ≡ 1 ∷ code = top_bit k (n + 1) lo hi in
    let zeros : bits_left s ≡ zeros_one k (code ++ rest) =
      e ∙ rw top (append_assoc (replicate k 0) (1 ∷ code) rest) in
    let z = skip_lz-Skips k b y (code ++ rest) s v zeros in
    let size : length (1 ∷ code) ≡ k + 1 = omega (arith, length-bits_of k (n + 1)) in
    let fits : k + 1 ≤ length (bits_left z.after) =
      omega (arith, ap length z.left, size, length-append code rest) in
    let r = read_bits-Reads (k + 1) z.b z.y z.after z.reader (omega arith) (omega arith) fits in
    let taken : take (k + 1) (bits_left z.after) ≡ bits_of (suc k) (n + 1) =
      ap (take (k + 1)) z.left ∙ take_front (k + 1) (1 ∷ code) rest size ∙ sym top in
    let got : value (take (k + 1) (bits_left z.after)) ≡ n + 1 =
      ap value taken ∙ value_from-bits_of (suc k) 0 (n + 1) ∙ rw (mod-eq_of_lt hi) (omega arith) in
    let less : pos (n + 1) -ℤ pos 1 ≡ pos n = ground arith in
    record {
      after = r.after;
      b = r.b;
      y = r.y;
      returns = rw (z.returns, r.returns, got, less);
      reader = r.reader;
      left = r.rest ∙ ap (drop (k + 1)) z.left ∙ drop_front (k + 1) (1 ∷ code) rest size;
    }
