-- ===== src/Cea608/Parser/Stream.antt =====
-- How `addData` takes a stream of bytes: pair by pair, and without the parity bits.
use v4l2rtspserver.Base.{
  ℕ, ◌<◌, ◌≡◌, refl, sym, ◌∙◌, true, Option, none, some, List, [], ◌∷◌, ◌++◌, map, All, ◌==◌, ◌>>=◌,
  ==_iff, bit_and, ◌≢◌, false, arith, Option-cases, inl, inr,
}
use v4l2rtspserver.Base.Bytes.{IsByte, holds_below, holds_below_lem}
use v4l2rtspserver.Cea608.Parser.{Cea608Parser, add_pair, add_pairs, add_last, add_data}

-- An even number of bytes.
abbrev pub IsEven : List ℕ → Type 0
IsEven [] = Unit {0}
IsEven (a ∷ []) = ⊥
IsEven (a ∷ b ∷ bytes) = IsEven bytes

>>=-assoc {ℓ κ ν} :
    {A : Type ℓ} {B : Type κ} {C : Type ν} (m : Option A) (f : A → Option B) (g : B → Option C)
    → ((m >>= f) >>= g) ≡ (m >>= λ a. f a >>= g)
>>=-assoc none f g = refl
>>=-assoc (some a) f g = refl

bind_ext {ℓ κ} :
    {A : Type ℓ} {B : Type κ} (m : Option A) (f g : A → Option B)
    → ((a : A) → f a ≡ g a)
    → (m >>= f) ≡ (m >>= g)
bind_ext none f g h = refl
bind_ext (some a) f g h = h a

add_pairs-append :
    (time : Option ℕ) (xs ys : List ℕ) (p : Cea608Parser)
    → IsEven xs
    → add_pairs time (xs ++ ys) p ≡ (add_pairs time xs p >>= add_pairs time ys)
unfolding add_pairs
add_pairs-append time [] ys p h = refl
add_pairs-append time (a ∷ []) ys p h = absurd h
add_pairs-append time (a ∷ b ∷ xs) ys p h =
    bind_ext (add_pair time (bit_and a 0x7f) (bit_and b 0x7f) p) _ _
      (λ q. add_pairs-append time xs ys q h)
    ∙ sym (>>=-assoc (add_pair time (bit_and a 0x7f) (bit_and b 0x7f) p) _ (add_pairs time ys))

add_data-append :
    (t : ℕ) (xs ys : List ℕ) (p : Cea608Parser)
    → IsEven xs
    → add_data t (xs ++ ys) p ≡ (add_data t xs p >>= add_pairs (some t) ys)
unfolding add_data
add_data-append t xs ys p h = add_pairs-append (some t) xs ys (record p { last_time = some t }) h

-- Bytes of an odd number whose last one is not 0 or 0x80 make `addData` throw, whatever it does on the
-- others.
pub add_data_odd_throws :
    (t a : ℕ) (xs : List ℕ) (p : Cea608Parser)
    → IsEven xs
    → bit_and a 0x7f ≢ 0
    → add_data t (xs ++ a ∷ []) p ≡ none
unfolding add_pairs add_last
add_data_odd_throws t a xs p even ne =
    let ne' : (bit_and a 0x7f == 0) ≡ false = ground arith in
    add_data-append t xs (a ∷ []) p even
    ∙ elim (Option-cases (add_data t xs p)) [ inl n ↦ rw n | inr (q, e) ↦ rw (e, ne') ]

mask_table : holds_below 256 (λ a. bit_and (bit_and a 0x7f) 0x7f == bit_and a 0x7f) ≡ true
unfolding holds_below
mask_table = refl

mask_mask : (a : ℕ) → a < 256 → bit_and (bit_and a 0x7f) 0x7f ≡ bit_and a 0x7f
mask_mask a h = (==_iff _ _).0 (holds_below_lem 256 _ a mask_table h)

abbrev pub strip_parity : ℕ → ℕ
strip_parity a = bit_and a 0x7f

add_pairs-strip :
    (time : Option ℕ) (bytes : List ℕ) (p : Cea608Parser)
    → All IsByte bytes
    → add_pairs time (map strip_parity bytes) p ≡ add_pairs time bytes p
unfolding add_pairs
add_pairs-strip time [] p h = refl
add_pairs-strip time (a ∷ []) p h = rw (mask_mask a h.0)
add_pairs-strip time (a ∷ b ∷ bytes) p (ha, (hb, h)) =
    rw (mask_mask a ha, mask_mask b hb)
      (bind_ext (add_pair time (bit_and a 0x7f) (bit_and b 0x7f) p) _ _
        (λ q. add_pairs-strip time bytes q h))

-- The top bit of a byte, its parity bit, has no effect: `addData` of the bytes without it is `addData`
-- of the bytes.
pub add_data-strip :
    (t : ℕ) (bytes : List ℕ) (p : Cea608Parser)
    → All IsByte bytes
    → add_data t (map strip_parity bytes) p ≡ add_data t bytes p
unfolding add_data
add_data-strip t bytes p h = add_pairs-strip (some t) bytes (record p { last_time = some t }) h
