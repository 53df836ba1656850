-- ===== src/ExpGolomb/Bits.antt =====
-- Lists of bits, most significant first: what the shifts of a word do to its bits.
use Prim.Native.Nat.{digits, bit_or-bitwise}
use native.Mathlib.Nat.{
  pow-suc, pow-zero, div-div-eq-div-mul, mul-div_cancel, one-le-pow, mul-add-mod_self_right,
  le_refl, mul_comm, mod-eq_of_lt, div-lt_iff_lt-mul, mul-add-div_right, zero-div, add-zero,
  div-add-mod', mod-lt,
}
use v4l2rtspserver.Base.{
  ℕ, zero, suc, ◌+◌, ◌*◌, ◌/◌, ◌%◌, ◌^◌, max, ◌≡◌, ◌≤◌, ◌<◌, take-length-append, drop-length-append,
  refl, sym, ap, ap₂, ◌∙◌, List, [], ◌∷◌, ◌++◌, length, take, drop, replicate, arith, bit_or,
}

-- The `n` low bits of a number.
unfoldable pub bits_of : ℕ → ℕ → List ℕ
bits_of zero x = []
bits_of (suc n) x = (x / 2 ^ n % 2) ∷ bits_of n x

unfoldable pub value_from : ℕ → List ℕ → ℕ
value_from acc [] = acc
value_from acc (b ∷ bits) = value_from (acc * 2 + b) bits

-- The number that a list of bits stands for.
abbrev pub value : List ℕ → ℕ
value bits = value_from 0 bits

pub pow2-pos : (n : ℕ) → 1 ≤ 2 ^ n
pow2-pos n = one-le-pow n 2 (omega arith)

pub pow2-add : (m n : ℕ) → 2 ^ (m + n) ≡ 2 ^ m * 2 ^ n
pow2-add m zero =
    let e : m + 0 ≡ m = omega arith in
    let k : 2 ^ m * 1 ≡ 2 ^ m = omega arith in rw (e, pow-zero, k)
pow2-add m (suc n) =
    let e : m + suc n ≡ suc (m + n) = omega arith in
    let p = pow2-add m n in rw (e, pow-suc 2 (m + n), pow-suc 2 n, p) (grind arith)

pub length-bits_of : (n x : ℕ) → length (bits_of n x) ≡ n
unfolding bits_of
length-bits_of zero x = refl
length-bits_of (suc n) x = ap suc (length-bits_of n x)

-- The bits of the high part, then those of the low part.
pub bits_of-add : (m n x : ℕ) → bits_of (m + n) x ≡ bits_of m (x / 2 ^ n) ++ bits_of n x
unfolding bits_of
bits_of-add zero n x = let e : 0 + n ≡ n = omega arith in rw e
bits_of-add (suc m) n x =
    let e : suc m + n ≡ suc (m + n) = omega arith in
    let d : x / 2 ^ n / 2 ^ m ≡ x / 2 ^ (m + n) =
      rw (div-div-eq-div-mul, pow2-add m n) (ap (λ (k : ℕ). x / k) (mul_comm (2 ^ n) (2 ^ m))) in
    rw (e, bits_of-add m n x, d)

rw_two : (q p r : ℕ) → q * p + r ≡ q / 2 * (p * 2) + (q % 2 * p + r)
rw_two q p r =
    let e : q ≡ q / 2 * 2 + q % 2 = omega arith in ap (λ (k : ℕ). k * p + r) e ∙ grind arith

split_digit :
    (p x acc : ℕ) → 1 ≤ p → (acc * 2 + x / p % 2) * p + x % p ≡ acc * (p * 2) + x % (p * 2)
split_digit p x acc h =
    let q = x / p in
    let r = x % p in
    let small : r < p = mod-lt x h in
    let low : q % 2 * p + r < p * 2 = grind arith in
    let whole : x ≡ q / 2 * (p * 2) + (q % 2 * p + r) = sym (div-add-mod' x p) ∙ rw_two q p r in
    let e : x % (p * 2) ≡ q % 2 * p + r =
      ap (λ (y : ℕ). y % (p * 2)) whole
      ∙ mul-add-mod_self_right (q / 2) (p * 2) (q % 2 * p + r)
      ∙ mod-eq_of_lt low in
    rw e (grind arith)

pub value_from-bits_of : (n acc x : ℕ) → value_from acc (bits_of n x) ≡ acc * 2 ^ n + x % 2 ^ n
unfolding value_from bits_of
value_from-bits_of zero acc x = omega arith
value_from-bits_of (suc n) acc x =
    let h = value_from-bits_of n (acc * 2 + x / 2 ^ n % 2) x in
    rw h (rw (pow-suc 2 n) (split_digit (2 ^ n) x acc (pow2-pos n)))

pub value_from-append :
    (acc : ℕ) (xs ys : List ℕ) → value_from acc (xs ++ ys) ≡ value_from (value_from acc xs) ys
unfolding value_from
value_from-append acc [] ys = refl
value_from-append acc (x ∷ xs) ys = value_from-append (acc * 2 + x) xs ys

pub value_from-acc : (acc : ℕ) (xs : List ℕ) → value_from acc xs ≡ acc * 2 ^ length xs + value xs
unfolding value_from
value_from-acc acc [] = omega arith
value_from-acc acc (x ∷ xs) =
    let h = value_from-acc (acc * 2 + x) xs in
    let k = value_from-acc (0 + x) xs in rw (h, k, pow-suc) (grind arith)

-- What stands above the `n` low bits does not matter to them.
pub bits_of-mul-add : (n a c : ℕ) → bits_of n (a * 2 ^ n + c) ≡ bits_of n c
unfolding bits_of
bits_of-mul-add zero a c = refl
bits_of-mul-add (suc n) a c =
    let e : a * 2 ^ suc n + c ≡ a * 2 * 2 ^ n + c = rw (pow-suc 2 n) (grind arith) in
    let d : (a * 2 * 2 ^ n + c) / 2 ^ n ≡ a * 2 + c / 2 ^ n =
      mul-add-div_right (pow2-pos n) (a * 2) c in
    let h : (a * 2 + c / 2 ^ n) % 2 ≡ c / 2 ^ n % 2 = omega arith in
    rw (e, d, h, bits_of-mul-add n (a * 2) c)

bits_of_zero : (n : ℕ) → bits_of n 0 ≡ replicate n 0
unfolding bits_of
bits_of_zero zero = refl
bits_of_zero (suc n) = rw (zero-div, bits_of_zero n)

pub bits_of-mod : (n x : ℕ) → bits_of n (x % 2 ^ n) ≡ bits_of n x
bits_of-mod n x =
    sym (bits_of-mul-add n (x / 2 ^ n) (x % 2 ^ n)) ∙ ap (bits_of n) (div-add-mod' x (2 ^ n))

mul-lt-mul_right_of : {r a b : ℕ} → r < a → 1 ≤ b → r * b < a * b
mul-lt-mul_right_of p q = grind arith

shifted : (m n x : ℕ) → x * 2 ^ n % 2 ^ (m + n) ≡ x % 2 ^ m * 2 ^ n
shifted m n x =
    let a = 2 ^ m in
    let b = 2 ^ n in
    let q = x / a in
    let r = x % a in
    let small : r < a = mod-lt x (pow2-pos m) in
    let low : r * b < a * b = mul-lt-mul_right_of small (pow2-pos n) in
    let whole : x * b ≡ q * (a * b) + r * b =
      ap (λ (y : ℕ). y * b) (sym (div-add-mod' x a)) ∙ grind arith in
    rw (pow2-add m n) (
      ap (λ (y : ℕ). y % (a * b)) whole
      ∙ mul-add-mod_self_right q (a * b) (r * b)
      ∙ mod-eq_of_lt low)

pub drop_high : (n m x : ℕ) → drop n (bits_of (n + m) x) ≡ bits_of m x
drop_high n m x =
    let high = bits_of n (x / 2 ^ m) in
    rw (bits_of-add n m x) (
      ap (λ (k : ℕ). drop k (high ++ bits_of m x)) (sym (length-bits_of n (x / 2 ^ m)))
      ∙ drop-length-append high (bits_of m x))

pub take_high : (n m x : ℕ) → take n (bits_of (n + m) x) ≡ bits_of n (x / 2 ^ m)
take_high n m x =
    let high = bits_of n (x / 2 ^ m) in
    rw (bits_of-add n m x) (
      ap (λ (k : ℕ). take k (high ++ bits_of m x)) (sym (length-bits_of n (x / 2 ^ m)))
      ∙ take-length-append high (bits_of m x))

-- A shift to the left drops bits and brings in zeros.
pub bits_of-shift :
    (m n x : ℕ)
    → bits_of (m + n) (x * 2 ^ n % 2 ^ (m + n)) ≡ drop n (bits_of (n + m) x) ++ replicate n 0
bits_of-shift m n x =
    let y = x % 2 ^ m in
    let low : bits_of n (y * 2 ^ n) ≡ replicate n 0 =
      ap (bits_of n) (sym (add-zero (y * 2 ^ n))) ∙ bits_of-mul-add n y 0 ∙ bits_of_zero n in
    let high : bits_of m (y * 2 ^ n / 2 ^ n) ≡ bits_of m x =
      ap (bits_of m) (mul-div_cancel y (pow2-pos n)) ∙ bits_of-mod m x in
    let dropped : drop n (bits_of (n + m) x) ≡ bits_of m x = drop_high n m x in
    rw (shifted m n x, bits_of-add m n, high, low, dropped)

-- A shift to the right leaves the value of the high bits.
pub value-take : (n m x : ℕ) → x < 2 ^ (n + m) → value (take n (bits_of (n + m) x)) ≡ x / 2 ^ m
value-take n m x h =
    let small : x / 2 ^ m < 2 ^ n =
      (div-lt_iff_lt-mul (pow2-pos m)).1 (rw (sym (pow2-add n m)) h) in
    rw (take_high n m x, value_from-bits_of n 0 (x / 2 ^ m), mod-eq_of_lt small) (omega arith)

-- The 32 bits of a word of four bytes are those of the bytes.
pub bits_of_bytes :
    (a b c d : ℕ)
    → b < 256
    → c < 256
    → d < 256
    → bits_of 32 (a * 16777216 + b * 65536 + c * 256 + d)
      ≡ bits_of 8 a ++ (bits_of 8 b ++ (bits_of 8 c ++ bits_of 8 d))
bits_of_bytes a b c d hb hc hd =
    let x = a * 16777216 + b * 65536 + c * 256 + d in
    let high : x / 2 ^ 24 ≡ a = omega arith in
    let second : x / 2 ^ 16 ≡ a * 2 ^ 8 + b = omega arith in
    let third : x / 2 ^ 8 ≡ (a * 256 + b) * 2 ^ 8 + c = omega arith in
    let fourth : x ≡ (a * 65536 + b * 256 + c) * 2 ^ 8 + d = omega arith in
    bits_of-add 8 24 x
    ∙ ap₂ (λ (u v : List ℕ). u ++ v) (ap (bits_of 8) high)
        (bits_of-add 8 16 x
          ∙ ap₂ (λ (u v : List ℕ). u ++ v) (ap (bits_of 8) second ∙ bits_of-mul-add 8 a b)
              (bits_of-add 8 8 x
                ∙ ap₂ (λ (u v : List ℕ). u ++ v)
                    (ap (bits_of 8) third ∙ bits_of-mul-add 8 (a * 256 + b) c)
                    (ap (bits_of 8) fourth ∙ bits_of-mul-add 8 (a * 65536 + b * 256 + c) d)))

-- `|` from its recursion on digits: of a multiple of a power of 2 and a number below that power it is
-- the sum.
abbrev or_digits : ℕ → ℕ → ℕ → ℕ
or_digits fuel a b = digits (λ y. y) max fuel a b

or_none : (fuel b : ℕ) → or_digits fuel 0 b ≡ b
or_none zero b = refl
or_none (suc fuel) b = refl

or_low : (n fuel x a b : ℕ) → a ≡ x * 2 ^ n → b < 2 ^ n → a ≤ fuel → or_digits fuel a b ≡ a + b
or_low n fuel x zero b e h le = or_none fuel b ∙ omega arith
or_low n zero x (suc a) b e h le = absurd (omega arith)
or_low zero (suc fuel) x (suc a) b e h le =
    let rest =
      or_low zero fuel (suc a / 2) (suc a / 2) (b / 2) (omega arith) (omega arith) (omega arith) in
    let none : b ≡ 0 = omega arith in rw rest (omega arith)
or_low (suc n) (suc fuel) x (suc a) b e h le =
    let twice : suc a ≡ x * 2 ^ n * 2 = e ∙ ap (λ (p : ℕ). x * p) (pow-suc 2 n) ∙ grind arith in
    let half : suc a / 2 ≡ x * 2 ^ n = omega arith in
    let rest =
      or_low n fuel x (suc a / 2) (b / 2) half (omega (arith, pow-suc 2 n)) (omega arith) in
    rw rest (omega arith)

pub bit_or-add : (n x b : ℕ) → b < 2 ^ n → bit_or (x * 2 ^ n) b ≡ x * 2 ^ n + b
bit_or-add n x b h =
    bit_or-bitwise (x * 2 ^ n) b ∙ or_low n (x * 2 ^ n) x (x * 2 ^ n) b refl h (le_refl _)
