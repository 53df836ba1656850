-- ===== src/ExpGolomb/Parses.antt =====
-- What a step of `readSPS` reads: a run of bits, with more bits behind it.
use v4l2rtspserver.Base.{
  ℕ, zero, suc, replicate, ◌+◌, ◌^◌, ◌≡◌, ◌≤◌, refl, ap, ◌∙◌, Bool, true, false, Option, some, List,
  [], ◌∷◌, ◌++◌, length, take, drop, arith, length-append, ◌⊎◌, inl, inr, ◌<◌,
}
use native.Mathlib.Nat.{mod-eq_of_lt}
use mathlib.Core.List.{append_assoc}
use v4l2rtspserver.Base.Int.{pos}
use v4l2rtspserver.ExpGolomb.{ExpGolomb, skip_bits, read_bits, skip_ueg, read_ueg, read_boolean}
use v4l2rtspserver.ExpGolomb.Bits.{bits_of, value_from-bits_of, length-bits_of, value}
use v4l2rtspserver.ExpGolomb.Reader.{IsReader, bits_left}
use v4l2rtspserver.ExpGolomb.Words.{length-left_at_end}
use v4l2rtspserver.ExpGolomb.Refine.{read_bits-Reads}
use v4l2rtspserver.ExpGolomb.Skips.{skip_bits-Drops}
use v4l2rtspserver.ExpGolomb.Codes.{
  zeros_one, top_bit, take_front, drop_front, ue_code, skip_lz-Skips, read_ueg-ue_code,
}
use v4l2rtspserver.ExpGolomb.Sps.{Parser, ◌>>=◌, pure, skipping}

-- The step returns `a` and leaves the bits `rest`.
pub record Parsed {A : Type 0} (a : A) (rest : List ℕ) (run : Option (A × ExpGolomb)) : Type 0 where
  pub after : ExpGolomb
  pub b : ℕ
  pub y : ℕ
  pub returns : run ≡ some (a, after)
  pub reader : IsReader b y after
  pub left : bits_left after ≡ rest

abbrev pub Parses : {A : Type 0} → Parser A → List ℕ → A → Type 0
Parses m code a =
    (b y : ℕ) (s : ExpGolomb) (rest : List ℕ)
    → IsReader b y s
    → bits_left s ≡ code ++ rest
    → 1 ≤ length rest
    → Parsed a rest (m s)

pub pure-Parses : {A : Type 0} (a : A) → Parses (pure a) [] a
unfolding pure
pure-Parses a b y s rest v e more = record {
  after = s;
  b = b;
  y = y;
  returns = refl;
  reader = v;
  left = e;
}

pub bind-Parses :
    {A B : Type 0} {m : Parser A} {a : A} {c : B} (f : A → Parser B) (xs ys : List ℕ)
    → Parses m xs a
    → Parses (f a) ys c
    → Parses (m >>= f) (xs ++ ys) c
unfolding ◌>>=◌
bind-Parses f xs ys first second b y s rest v e more =
    let p =
      first b y s (ys ++ rest) v (e ∙ append_assoc xs ys rest)
        (omega (arith, length-append ys rest)) in
    let q = second p.b p.y p.after rest p.reader p.left more in
    record {
      after = q.after;
      b = q.b;
      y = q.y;
      returns = rw (p.returns, q.returns);
      reader = q.reader;
      left = q.left;
    }

pub read_bits-Parses :
    (n x : ℕ) → 1 ≤ n → n ≤ 31 → x < 2 ^ n → Parses (read_bits n) (bits_of n x) (pos x)
read_bits-Parses n x lo hi small b y s rest v e more =
    let size = length-bits_of n x in
    let fits : n ≤ length (bits_left s) =
      omega (arith, ap length e, length-append (bits_of n x) rest, size) in
    let r = read_bits-Reads n b y s v lo hi fits in
    let got : value (take n (bits_left s)) ≡ x =
      ap (λ (t : List ℕ). value (take n t)) e
      ∙ ap value (take_front n (bits_of n x) rest size)
      ∙ value_from-bits_of n 0 x
      ∙ rw (mod-eq_of_lt small) (omega arith) in
    record {
      after = r.after;
      b = r.b;
      y = r.y;
      returns = rw got at r.returns;
      reader = r.reader;
      left = r.rest ∙ ap (drop n) e ∙ drop_front n (bits_of n x) rest size;
    }

-- A flag.
abbrev pub bit : Bool → ℕ
bit true = 1
bit false = 0

pub bit-lt : (c : Bool) → bit c < 2 ^ 1
bit-lt true = omega arith
bit-lt false = omega arith

pub read_boolean-Parses : (c : Bool) → Parses read_boolean (bits_of 1 (bit c)) c
unfolding read_boolean
read_boolean-Parses true b y s rest v e more =
    let p = read_bits-Parses 1 1 (omega arith) (omega arith) (omega arith) b y s rest v e more in
    record {
      after = p.after;
      b = p.b;
      y = p.y;
      returns = rw p.returns;
      reader = p.reader;
      left = p.left;
    }
read_boolean-Parses false b y s rest v e more =
    let p = read_bits-Parses 1 0 (omega arith) (omega arith) (omega arith) b y s rest v e more in
    record {
      after = p.after;
      b = p.b;
      y = p.y;
      returns = rw p.returns;
      reader = p.reader;
      left = p.left;
    }

pub skip_bits-Parses :
    (n : ℕ) (xs : List ℕ) → n ≤ 7 → length xs ≡ n → Parses (skipping (skip_bits n)) xs tt
unfolding skipping
skip_bits-Parses n xs small size b y s rest v e more =
    let long : n + 1 ≤ length (bits_left s) =
      omega (arith, ap length e, length-append xs rest, size) in
    let r = skip_bits-Drops n b y s v (omega arith) (within n b y s v long) in
    record {
      after = r.after;
      b = r.b;
      y = r.y;
      returns = rw r.returns;
      reader = r.reader;
      left = r.rest ∙ ap (drop n) e ∙ drop_front n xs rest size;
    }
  where
    within :
        (n b y : ℕ) (s : ExpGolomb)
        → IsReader b y s
        → n + 1 ≤ length (bits_left s)
        → (n < b) ⊎ (1 ≤ y)
    within n b zero s v long = inl (omega (arith, length-left_at_end b s v))
    within n b (suc y) s v long = inr (omega arith)

-- A number with its exponential-Golomb code of at most `limit` zeros.
pub record Code (limit : ℕ) : Type 0 where
  pub zeros : ℕ
  pub number : ℕ
  pub few : zeros ≤ limit
  pub above : 2 ^ zeros ≤ number + 1
  pub below : number + 1 < 2 ^ suc zeros

abbrev pub code_bits : {limit : ℕ} → Code limit → List ℕ
code_bits c = ue_code c.zeros c.number

pub read_ueg-Parses :
    {limit : ℕ} (c : Code limit) → limit ≤ 30 → Parses read_ueg (code_bits c) (pos c.number)
read_ueg-Parses c small b y s rest v e more =
    let r =
      read_ueg-ue_code c.zeros c.number b y rest s (omega (arith, c.few)) c.above c.below v e in
    record {
      after = r.after;
      b = r.b;
      y = r.y;
      returns = r.returns;
      reader = r.reader;
      left = r.left;
    }

pub skip_ueg-Parses : (c : Code 6) → Parses (skipping skip_ueg) (code_bits c) tt
unfolding skip_ueg skipping
skip_ueg-Parses c b y s rest v e more =
    let k = c.zeros in
    let code = bits_of k (c.number + 1) in
    let zeros : bits_left s ≡ zeros_one k (code ++ rest) =
      e
      ∙ rw (top_bit k (c.number + 1) c.above c.below)
          (append_assoc (replicate k 0) (1 ∷ code) rest) in
    let z = skip_lz-Skips k b y (code ++ rest) s v zeros in
    let size : length (1 ∷ code) ≡ 1 + k = omega (arith, length-bits_of k (c.number + 1)) in
    let p =
      skip_bits-Parses (1 + k) (1 ∷ code) (omega (arith, c.few)) size z.b z.y z.after rest z.reader
        z.left more in
    record {
      after = p.after;
      b = p.b;
      y = p.y;
      returns = rw z.returns p.returns;
      reader = p.reader;
      left = p.left;
    }
