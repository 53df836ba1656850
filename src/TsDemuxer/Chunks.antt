-- ===== src/TsDemuxer/Chunks.antt =====
-- The chunks in which a packet comes make no difference to what is parsed.
use v4l2rtspserver.Base.{
  ℕ, zero, suc, ◌+◌, ◌-◌, ◌≡◌, ◌≤◌, ◌<◌, inl, inr, refl, sym, ap, ◌∙◌, false, Bool-cases, ltb→lt,
  List, [], ◌∷◌, ◌++◌, length, drop, ltb, arith, length-append, drop-append_le, drop-append_add,
}
use mathlib.Core.List.{append_assoc, append-nil}
use v4l2rtspserver.Base.Bytes.{byte_at}
use v4l2rtspserver.TsDemuxer.{
  merge_head, time_at, times_of, trim, pes_data, parse_merged, parse_pes,
}

-- The bytes of all chunks.
unfoldable pub concat : List (List ℕ) → List ℕ
concat [] = []
concat (chunk ∷ chunks) = chunk ++ concat chunks

drop_all : (n : ℕ) (xs : List ℕ) → length xs ≤ n → drop n xs ≡ []
drop_all zero [] h = refl
drop_all zero (x ∷ xs) h = absurd (omega arith)
drop_all (suc n) [] h = refl
drop_all (suc n) (x ∷ xs) h = drop_all n xs (omega arith)

drop_across : (n : ℕ) (xs ys : List ℕ) → length xs ≤ n → drop n (xs ++ ys) ≡ drop (n - length xs) ys
drop_across n xs ys h =
    let e : n ≡ length xs + (n - length xs) = omega arith in
    ap (λ (k : ℕ). drop k (xs ++ ys)) e ∙ drop-append_add (n - length xs) xs ys

trim-concat :
    (offset : ℕ) (chunks : List (List ℕ)) → trim offset chunks ≡ drop offset (concat chunks)
unfolding trim concat
trim-concat zero [] = refl
trim-concat (suc offset) [] = refl
trim-concat offset (frag ∷ chunks) =
    let ih = trim-concat (offset - length frag) chunks in
    elim (Bool-cases (ltb (length frag) offset)) [
      | inl far ↦
          rw (far, ih)
            (sym (
              drop_across offset frag (concat chunks)
                (omega (arith, ltb→lt (length frag) offset far))))
      | inr near ↦
          let le : offset ≤ length frag = ground (arith, near) in
          let none_left : offset - length frag ≡ 0 = omega arith in
          rw (near, none_left, trim-concat 0 chunks)
            (sym (drop-append_le offset frag (concat chunks) le))
    ]

-- The first chunk and the others after the merge.
merge_head-concat :
    (head : List ℕ) (chunks : List (List ℕ))
    → (merge_head head chunks).0 ++ concat (merge_head head chunks).1 ≡ head ++ concat chunks
unfolding merge_head concat
merge_head-concat head [] = refl
merge_head-concat head (chunk ∷ chunks) = elim (Bool-cases (ltb (length head) 19)) [
  | inl short ↦
      rw short (merge_head-concat (head ++ chunk) chunks ∙ append_assoc head chunk (concat chunks))
  | inr long ↦ rw long
]

merge_head_long :
    (head : List ℕ) (chunks : List (List ℕ))
    → 19 ≤ length (head ++ concat chunks)
    → 19 ≤ length (merge_head head chunks).0
unfolding merge_head concat
merge_head_long head [] h = omega (arith, h, ap length (append-nil head))
merge_head_long head (chunk ∷ chunks) h = elim (Bool-cases (ltb (length head) 19)) [
  | inl short ↦ rw short (
      merge_head_long (head ++ chunk) chunks
        (omega (arith, h, ap length (append_assoc head chunk (concat chunks)))))
  | inr long ↦ rw long (ground (arith, long))
]

byte_at-append : (k : ℕ) (xs ys : List ℕ) → k < length xs → byte_at (xs ++ ys) k ≡ byte_at xs k
byte_at-append k [] ys h = absurd (omega arith)
byte_at-append zero (x ∷ xs) ys h = refl
byte_at-append (suc k) (x ∷ xs) ys h = byte_at-append k xs ys (omega arith)

parse_merged-concat :
    (frag : List ℕ) (chunks : List (List ℕ)) (size : ℕ)
    → 19 ≤ length frag
    → parse_merged frag chunks size ≡ parse_merged (frag ++ concat chunks) [] size
unfolding parse_merged times_of time_at pes_data concat
parse_merged-concat frag chunks size long =
    let b : (k : ℕ) → k < 19 → byte_at (frag ++ concat chunks) k ≡ byte_at frag k =
      λ k h. byte_at-append k frag (concat chunks) (omega (arith, h)) in
    let same : (offset : ℕ)
        → trim offset ((frag ++ concat chunks) ∷ []) ≡ trim offset (frag ∷ chunks) =
      λ offset.
        trim-concat offset ((frag ++ concat chunks) ∷ [])
        ∙ ap (drop offset) (append-nil (frag ++ concat chunks))
        ∙ sym (trim-concat offset (frag ∷ chunks)) in
    let whole : length frag ≤ length (frag ++ concat chunks) =
      omega (arith, length-append frag (concat chunks)) in
    let len : ltb (length frag) 6 ≡ false = ground (arith, long) in
    let len' : ltb (length (frag ++ concat chunks)) 6 ≡ false = ground (arith, long, whole) in
    let header : ltb (length frag) 9 ≡ false = ground (arith, long) in
    let header' : ltb (length (frag ++ concat chunks)) 9 ≡ false = ground (arith, long, whole) in
    rw (
      len,
      len',
      header,
      header',
      b 0 (omega arith),
      b 1 (omega arith),
      b 2 (omega arith),
      b 4 (omega arith),
      b 5 (omega arith),
      b 7 (omega arith),
      b 8 (omega arith),
      b 9 (omega arith),
      b 10 (omega arith),
      b 11 (omega arith),
      b 12 (omega arith),
      b 13 (omega arith),
      b 14 (omega arith),
      b 15 (omega arith),
      b 16 (omega arith),
      b 17 (omega arith),
      b 18 (omega arith),
      same (byte_at frag 8 + 9),
    )

-- Of a packet of 19 bytes or more, `_parsePES` makes the same in whatever chunks it comes: the result or
-- the error for all its bytes in one.
pub parse_pes-concat :
    (head : List ℕ) (chunks : List (List ℕ)) (size : ℕ)
    → 19 ≤ length (concat (head ∷ chunks))
    → parse_pes (head ∷ chunks) size ≡ parse_pes (concat (head ∷ chunks) ∷ []) size
unfolding parse_pes concat merge_head
parse_pes-concat head chunks zero h = refl
parse_pes-concat head chunks (suc size) h =
    let merged = merge_head head chunks in
    parse_merged-concat merged.0 merged.1 (suc size) (merge_head_long head chunks h)
    ∙ ap (λ (frag : List ℕ). parse_merged frag [] (suc size)) (merge_head-concat head chunks)
