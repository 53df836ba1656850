-- ===== src/Id3/Text.antt =====
-- Strings in ID3 frames: what `_utf8ArrayToStr` reads of ASCII bytes, and the owner and data of a PRIV
-- frame.
use v4l2rtspserver.Base.{
  ℕ, suc, ◌+◌, ◌≤◌, ◌<◌, ◌≡◌, refl, ap, ◌∙◌, false, some, List, [], ◌∷◌, ◌++◌, ltb, length, drop,
  All, arith,
}
use v4l2rtspserver.Id3.{
  one, lead, utf8_array_to_str, binary, decode_priv_frame, decode_frame, text_eq, codes,
}

-- The bytes that stand for themselves.
abbrev pub IsPlain : ℕ → Type 0
IsPlain c = (16 ≤ c) × (c < 128)

lead_plain : (c : ℕ) → IsPlain c → lead c ≡ one
unfolding lead
lead_plain c h = ground arith

-- A plain byte with a byte behind it is read as itself.
plain_step :
    (c d : ℕ) (bytes : List ℕ)
    → lead c ≡ one
    → utf8_array_to_str (c ∷ d ∷ bytes) ≡ c ∷ utf8_array_to_str (d ∷ bytes)
unfolding utf8_array_to_str
plain_step c d [] h = rw (utf8_array_to_str, h)
plain_step c d (e ∷ bytes) h = rw (utf8_array_to_str, h)

zero_step : (rest : List ℕ) → utf8_array_to_str (0 ∷ rest) ≡ []
unfolding utf8_array_to_str lead
zero_step [] = refl
zero_step (d ∷ []) = refl
zero_step (d ∷ e ∷ rest) = refl

-- `_utf8ArrayToStr` reads bytes from 16 up to 127 as themselves up to the first zero, whatever is
-- behind it.
utf8_array_to_str_plain : (s rest : List ℕ) → All IsPlain s → utf8_array_to_str (s ++ 0 ∷ rest) ≡ s
utf8_array_to_str_plain [] rest h = zero_step rest
utf8_array_to_str_plain (c ∷ []) rest h =
    plain_step c 0 rest (lead_plain c h.0) ∙ ap (λ (t : List ℕ). c ∷ t) (zero_step rest)
utf8_array_to_str_plain (c ∷ d ∷ s) rest h =
    plain_step c d (s ++ 0 ∷ rest) (lead_plain c h.0)
    ∙ ap (λ (t : List ℕ). c ∷ t) (utf8_array_to_str_plain (d ∷ s) rest h.1)

drop-append : (s rest : List ℕ) → drop (suc (length s)) (s ++ 0 ∷ rest) ≡ rest
drop-append [] rest = refl
drop-append (c ∷ s) rest = drop-append s rest

-- The body of a PRIV frame: the owner, a zero and the data.
abbrev pub priv_body : List ℕ → List ℕ → List ℕ
priv_body owner payload = owner ++ 0 ∷ payload

-- `_decodePrivFrame` of a frame of two bytes or more, whose body is an owner of bytes from 16 up to 127,
-- a zero and a payload, gives the owner and the payload back.
pub decode_priv_frame_lem :
    (type : List ℕ) (size : ℕ) (owner payload : List ℕ)
    → All IsPlain owner
    → 2 ≤ size
    → decode_priv_frame (record { type = type; size = size; body = priv_body owner payload })
      ≡ some (record { key = type; info = some owner; content = binary payload })
unfolding decode_priv_frame
decode_priv_frame_lem type size owner payload h le =
    let e = utf8_array_to_str_plain owner payload h in
    let next : length owner + 1 ≡ suc (length owner) = omega arith in
    let d = drop-append owner payload in
    let small : ltb size 2 ≡ false = ground arith in rw (small, e, next, d)

-- `decodeFrame` sends such a frame to `_decodePrivFrame` if its type is PRIV.
decode_frame_priv :
    (size : ℕ) (body : List ℕ)
    → decode_frame (record { type = codes "PRIV"; size = size; body = body })
      ≡ decode_priv_frame (record { type = codes "PRIV"; size = size; body = body })
unfolding decode_frame text_eq
decode_frame_priv size body = refl
