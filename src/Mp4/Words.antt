-- ===== src/Mp4/Words.antt =====
-- What is read at a place of a byte array whose bytes from there on are known.
use v4l2rtspserver.Base.{
  ℕ, zero, suc, ◌+◌, ◌-◌, ◌/◌, ◌%◌, ◌≡◌, ◌<◌, refl, sym, ap, ◌∙◌, List, [], ◌∷◌, ◌++◌, length, drop,
  get_or, arith, take-length-append, drop-length-append, drop-drop_lem,
}
use mathlib.Core.List.{append_assoc, append-nil}
use v4l2rtspserver.Base.Bytes.{byte_at}
use v4l2rtspserver.Mp4.{word_bytes, read_uint32}
use v4l2rtspserver.Mp4.Demuxer.{subarray}

pub get_or-drop : (xs : List ℕ) (i k : ℕ) → get_or xs (i + k) 0 ≡ get_or (drop i xs) k 0
get_or-drop xs zero k = let e : 0 + k ≡ k = omega arith in rw e
get_or-drop [] (suc i) zero = refl
get_or-drop [] (suc i) (suc k) = refl
get_or-drop (x ∷ xs) (suc i) k =
    let e : suc i + k ≡ suc (i + k) = omega arith in rw e (get_or-drop xs i k)

-- The bytes from `i` on start with `xs`.
module _ (bytes xs rest : List ℕ) (i : ℕ) (at : drop i bytes ≡ xs ++ rest) where
  pub drop_on : (k : ℕ) → k ≡ length xs → drop (i + k) bytes ≡ rest
  drop_on k e = sym (drop-drop_lem k i bytes) ∙ ap (drop k) at ∙ rw e (drop-length-append xs rest)

  pub subarray_at : (j : ℕ) → j ≡ i + length xs → subarray bytes i j ≡ xs
  unfolding subarray
  subarray_at j e =
      let size : j - i ≡ length xs = omega arith in rw (size, at) (take-length-append xs rest)

pub read_at :
    (bytes rest : List ℕ) (i n : ℕ)
    → drop i bytes ≡ word_bytes n ++ rest
    → n < 4294967296
    → read_uint32 bytes i ≡ n
unfolding read_uint32 word_bytes
read_at bytes rest i n at small =
    let b : (k : ℕ) → byte_at bytes (i + k) ≡ byte_at (word_bytes n ++ rest) k =
      λ k. get_or-drop bytes i k ∙ ap (λ (t : List ℕ). byte_at t k) at in
    let start : i + 0 ≡ i = omega arith in
    let b0 : byte_at bytes i ≡ n / 16777216 % 256 = rw start at (b 0) in
    rw (b0, b 1, b 2, b 3) (omega arith)

pub length-word_bytes : (n : ℕ) → length (word_bytes n) ≡ 4
unfolding word_bytes
length-word_bytes n = refl

-- `readUint32` reads back any number below 2 ^ 32 that the generator has written, wherever it stands.
read_uint32-word_bytes :
    (n : ℕ) (before after : List ℕ)
    → n < 4294967296
    → read_uint32 (before ++ (word_bytes n ++ after)) (length before) ≡ n
read_uint32-word_bytes n before after small =
    read_at (before ++ (word_bytes n ++ after)) after (length before) n
      (drop-length-append before (word_bytes n ++ after)) small

-- A number inside the one part of a box.
pub read_inside :
    (bytes rest xs ys : List ℕ) (i k n : ℕ)
    → drop i bytes ≡ ((xs ++ (word_bytes n ++ ys)) ++ []) ++ rest
    → k ≡ length xs
    → n < 4294967296
    → read_uint32 bytes (i + k) ≡ n
read_inside bytes rest xs ys i k n at e small =
    let part = xs ++ (word_bytes n ++ ys) in
    let left : drop i bytes ≡ xs ++ ((word_bytes n ++ ys) ++ rest) =
      at
      ∙ ap (λ (t : List ℕ). t ++ rest) (append-nil part)
      ∙ append_assoc xs (word_bytes n ++ ys) rest in
    let there = drop_on bytes xs ((word_bytes n ++ ys) ++ rest) i left k e in
    read_at bytes (ys ++ rest) (i + k) n (there ∙ append_assoc (word_bytes n) ys rest) small
