-- ===== src/Cea608/Row/Text.antt =====
-- The text that a row shows after characters were typed into it.
use v4l2rtspserver.Base.{
  ℕ, zero, suc, ◌+◌, ◌≤◌, ◌<◌, ◌≡◌, refl, ap, ◌∙◌, Option, some, List, [], ◌∷◌, ◌++◌, map, length,
  set, take, drop, All, ◌>>=◌, arith,
}
use mathlib.Core.List.{append_assoc}
use native.Mathlib.Nat.{add-zero}
use native.Mathlib.Numerals.{add-one}
use v4l2rtspserver.Cea608.Charset.{get_char_for_byte}
use v4l2rtspserver.Cea608.Pen.{StyledUnicodeChar}
use v4l2rtspserver.Cea608.Row.{Row, insert_char}
use v4l2rtspserver.Cea608.Row.Laws.{IsValid, written, written-IsValid, insert_char_standard}

-- The characters of all columns, spaces included.
abbrev pub codes : Row → List ℕ
codes r = map (λ (c : StyledUnicodeChar). c.uchar) r.chars

abbrev pub IsStandard : ℕ → Type 0
IsStandard byte = byte < 0x90

-- The bytes one after the other.
unfoldable pub insert_row : List ℕ → Row → Option Row
insert_row [] r = some r
insert_row (byte ∷ bytes) r = insert_char byte r >>= insert_row bytes

map-set {ℓ κ} :
    {A : Type ℓ} {B : Type κ} (f : A → B) (xs : List A) (i : ℕ) (v : A)
    → map f (set xs i v) ≡ set (map f xs) i (f v)
map-set f [] i v = refl
map-set f (x ∷ xs) zero v = refl
map-set {B = B} f (x ∷ xs) (suc i) v = ap (λ (t : List B). f x ∷ t) (map-set f xs i v)

length-map {ℓ κ} :
    {A : Type ℓ} {B : Type κ} (f : A → B) (xs : List A) → length (map f xs) ≡ length xs
length-map f [] = refl
length-map f (x ∷ xs) = ap suc (length-map f xs)

take-set {ℓ} :
    {A : Type ℓ} (xs : List A) (i : ℕ) (v : A)
    → i < length xs
    → take (suc i) (set xs i v) ≡ take i xs ++ v ∷ []
take-set [] i v h = absurd (omega arith)
take-set (x ∷ xs) zero v h = refl
take-set {A = A} (x ∷ xs) (suc i) v h = ap (λ (t : List A). x ∷ t) (take-set xs i v (omega arith))

drop-set {ℓ} :
    {A : Type ℓ} (xs : List A) (i n : ℕ) (v : A) → i < n → drop n (set xs i v) ≡ drop n xs
drop-set xs i zero v h = absurd (omega arith)
drop-set [] i (suc n) v h = refl
drop-set (x ∷ xs) zero (suc n) v h = refl
drop-set (x ∷ xs) (suc i) (suc n) v h = drop-set xs i n v (omega arith)

take-append-drop {ℓ} : {A : Type ℓ} (n : ℕ) (xs : List A) → take n xs ++ drop n xs ≡ xs
take-append-drop zero xs = refl
take-append-drop (suc n) [] = refl
take-append-drop (suc n) (x ∷ xs) = rw (take-append-drop n xs)

-- One written element moves from the part behind to the middle.
splice_step :
    (cs mid : List ℕ) (i n v : ℕ)
    → i < length cs
    → take (i + 1) (set cs i v) ++ (mid ++ drop (i + 1 + n) (set cs i v))
      ≡ take i cs ++ ((v ∷ mid) ++ drop (i + suc n) cs)
splice_step cs mid i n v h =
    let e : i + 1 + n ≡ i + suc n = omega arith in
    rw (
      add-one,
      ← add-one,
      e,
      drop-set cs i (i + suc n) v (omega arith),
      add-one,
      take-set cs i v h,
      append_assoc,
    )

splice_codes :
    (r : Row) (bytes : List ℕ) (c : ℕ)
    → IsValid r
    → r.pos < 100
    → take (r.pos + 1) (codes (written r r.pos c (r.pos + 1)))
        ++ (map get_char_for_byte bytes
            ++ drop (r.pos + 1 + length bytes) (codes (written r r.pos c (r.pos + 1))))
      ≡ take r.pos (codes r)
        ++ ((c ∷ map get_char_for_byte bytes) ++ drop (r.pos + suc (length bytes)) (codes r))
splice_codes r bytes c v h = rw (map-set (λ (d : StyledUnicodeChar). d.uchar) r.chars r.pos) (
    splice_step (codes r) (map get_char_for_byte bytes) r.pos (length bytes) c
      (omega (arith, length-map (λ (d : StyledUnicodeChar). d.uchar) r.chars, v.width)))

-- Bytes below 0x90 that fit in a valid row are inserted without an exception: the row stays valid, the
-- cursor moves behind them, their characters replace the columns from the cursor on, and the other
-- columns keep their characters.
pub insert_row_text :
    (bytes : List ℕ) (r : Row)
    → IsValid r
    → All IsStandard bytes
    → r.pos + length bytes ≤ 100
    → (r' : Row) × (insert_row bytes r ≡ some r')
      × IsValid r'
      × (r'.pos ≡ r.pos + length bytes)
      × (codes r'
          ≡ take r.pos (codes r)
            ++ (map get_char_for_byte bytes ++ drop (r.pos + length bytes) (codes r)))
unfolding insert_row
insert_row_text [] r v h fits =
    (r, refl, v, omega arith, rw (add-zero, take-append-drop r.pos (codes r)))
insert_row_text (byte ∷ bytes) r v (hb, hs) fits =
    let c = get_char_for_byte byte in
    let r₁ : Row = written r r.pos c (r.pos + 1) in
    let v₁ : IsValid r₁ = written-IsValid r r.pos c (r.pos + 1) v (omega arith) in
    let step : insert_char byte r ≡ some r₁ = insert_char_standard byte r v hb (omega arith) in
    let (r', e, v', p, t) = insert_row_text bytes r₁ v₁ hs (omega arith) in
    (r', rw step e, v', omega (arith, p), t ∙ splice_codes r bytes c v (omega arith))
