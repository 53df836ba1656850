-- ===== src/Mp4/Find.antt =====
-- What `findBox` finds in a sequence of boxes, and that it ends.
use v4l2rtspserver.Base.{
  ℕ, zero, suc, ◌+◌, ◌≡◌, ◌≤◌, ◌<◌, ◌⊎◌, inl, inr, refl, sym, ap, ◌∙◌, true, false, Bool-cases,
  ltb→lt, List, [], ◌∷◌, ◌++◌, map, length, drop, All, get_or, ltb, if◌then◌else◌, arith,
  length-append, length-drop,
}
use mathlib.Core.List.{append_assoc, append-nil}
use v4l2rtspserver.Mp4.{word_bytes, concat, box, read_uint32}
use v4l2rtspserver.Mp4.Words.{drop_on, subarray_at, read_at, length-word_bytes}
use v4l2rtspserver.Mp4.Demuxer.{
  same_type, subarray, Found, whole, end_of_box, find_from, find_fuel, find_path,
}

-- A box: its type, and its parts.
pub record Entry : Type 0 where
  pub type : List ℕ
  pub payload : List (List ℕ)

unfoldable pub entry_bytes : Entry → List ℕ
entry_bytes e = box e.type e.payload

unfoldable pub entries_bytes : List Entry → List ℕ
entries_bytes [] = []
entries_bytes (e ∷ es) = entry_bytes e ++ entries_bytes es

-- Its type has four characters, and its size fits its field.
pub record IsEntry (e : Entry) : Type 0 where
  pub four : length e.type ≡ 4
  pub fits : 8 + length (concat e.payload) < 4294967296

abbrev pub size : Entry → ℕ
size e = 8 + length (concat e.payload)

pub length-entry_bytes : (e : Entry) → IsEntry e → length (entry_bytes e) ≡ size e
unfolding entry_bytes box word_bytes
length-entry_bytes e h = omega (arith, length-append e.type (concat e.payload), h.four)

-- The results of the search at each of the boxes.
unfoldable pub places : List ℕ → ℕ → List Entry → List ℕ → (Found → List Found) → List Found
places bytes i [] type more = []
places bytes i (e ∷ es) type more =
    let here : List Found =
      if same_type e.type type
      then more (record { bytes = bytes; start = i + 8; end = i + size e })
      else [] in
    here ++ places bytes (i + size e) es type more

find_at_end :
    (fuel : ℕ) (bytes : List ℕ) (i : ℕ) (type : List ℕ) (more : Found → List Found)
    → find_from fuel bytes i i type more ≡ []
unfolding find_from
find_at_end zero bytes i type more = refl
find_at_end (suc fuel) bytes i type more = let same : ltb i i ≡ false = ground arith in rw same

-- The box at a place.
module _ (bytes rest : List ℕ) (i : ℕ) (e : Entry) (h : IsEntry e)
    (at : drop i bytes ≡ entry_bytes e ++ rest) where
  header : drop i bytes ≡ word_bytes (size e) ++ (e.type ++ (concat e.payload ++ rest))
  unfolding entry_bytes box
  header =
      at
      ∙ append_assoc (word_bytes (size e)) (e.type ++ concat e.payload) rest
      ∙ ap (λ (t : List ℕ). word_bytes (size e) ++ t) (append_assoc e.type (concat e.payload) rest)

  pub end_of_entry : (end : ℕ) → end_of_box bytes i end ≡ i + size e
  unfolding end_of_box
  end_of_entry end =
      let s = read_at bytes (e.type ++ (concat e.payload ++ rest)) i (size e) header h.fits in
      let big : ltb 1 (size e) ≡ true = ground arith in rw (s, big)

  at_type : drop (i + 4) bytes ≡ e.type ++ (concat e.payload ++ rest)
  at_type =
      drop_on bytes (word_bytes (size e)) (e.type ++ (concat e.payload ++ rest)) i header 4
        (sym (length-word_bytes (size e)))

  pub type_of_entry : subarray bytes (i + 4) (i + 8) ≡ e.type
  type_of_entry =
      subarray_at bytes e.type (concat e.payload ++ rest) (i + 4) at_type (i + 8)
        (omega (arith, h.four))

  pub at_payload : drop (i + 8) bytes ≡ concat e.payload ++ rest
  at_payload =
      let eight : i + 4 + 4 ≡ i + 8 = omega arith in
      rw eight at (drop_on bytes e.type (concat e.payload ++ rest) (i + 4) at_type 4 (sym h.four))

  pub after_entry : drop (i + size e) bytes ≡ rest
  after_entry = drop_on bytes (entry_bytes e) rest i at (size e) (sym (length-entry_bytes e h))

  pub in_bytes : i + size e ≤ length bytes
  in_bytes = omega (
    arith,
    length-drop i bytes,
    ap length at,
    length-append (entry_bytes e) rest,
    length-entry_bytes e h,
  )

-- `findBox` comes to each box of a sequence, and makes the results of the type's.
pub find_from-places :
    (fuel : ℕ) (bytes rest : List ℕ) (i end : ℕ) (es : List Entry) (type : List ℕ)
    (more : Found → List Found)
    → All IsEntry es
    → drop i bytes ≡ entries_bytes es ++ rest
    → end ≡ i + length (entries_bytes es)
    → length bytes < fuel + i
    → find_from fuel bytes i end type more ≡ places bytes i es type more
unfolding entries_bytes places find_from
find_from-places fuel bytes rest i end [] type more h at e enough =
    let same : end ≡ i = omega arith in rw same (find_at_end fuel bytes i type more)
find_from-places zero bytes rest i end (b ∷ es) type more h at e enough =
    let left : drop i bytes ≡ entry_bytes b ++ (entries_bytes es ++ rest) =
      at ∙ append_assoc (entry_bytes b) (entries_bytes es) rest in
    absurd (omega (arith, in_bytes bytes (entries_bytes es ++ rest) i b h.0 left))
find_from-places (suc fuel) bytes rest i end (b ∷ es) type more h at e enough =
    let left : drop i bytes ≡ entry_bytes b ++ (entries_bytes es ++ rest) =
      at ∙ append_assoc (entry_bytes b) (entries_bytes es) rest in
    let total : end ≡ i + size b + length (entries_bytes es) =
      omega (arith, length-append (entry_bytes b) (entries_bytes es), length-entry_bytes b h.0) in
    let inside : ltb i end ≡ true = ground arith in
    let after = after_entry bytes (entries_bytes es ++ rest) i b h.0 left in
    let rest_of =
      find_from-places fuel bytes rest (i + size b) end es type more h.1 after total
        (omega arith) in
    rw (
      inside,
      end_of_entry bytes (entries_bytes es ++ rest) i b h.0 left end,
      type_of_entry bytes (entries_bytes es ++ rest) i b h.0 left,
      rest_of,
    )

-- The first of the boxes from a place on, and the others.
pub entry_at :
    (bytes rest : List ℕ) (i : ℕ) (e : Entry) (es : List Entry)
    → IsEntry e
    → drop i bytes ≡ entries_bytes (e ∷ es) ++ rest
    → (drop (i + 8) bytes ≡ concat e.payload ++ (entries_bytes es ++ rest))
      × (drop (i + size e) bytes ≡ entries_bytes es ++ rest)
unfolding entries_bytes
entry_at bytes rest i e es h at =
    let left = at ∙ append_assoc (entry_bytes e) (entries_bytes es) rest in
    (
      at_payload bytes (entries_bytes es ++ rest) i e h left,
      after_entry bytes (entries_bytes es ++ rest) i e h left,
    )

-- The boxes are all of the region.
pub find_path-places :
    (bytes rest : List ℕ) (start end : ℕ) (es : List Entry)
    → All IsEntry es
    → drop start bytes ≡ entries_bytes es ++ rest
    → end ≡ start + length (entries_bytes es)
    → (type : List ℕ)
    → (find_path type [] (record { bytes = bytes; start = start; end = end })
        ≡ places bytes start es type (λ f. f ∷ []))
      × ((later : List ℕ) (path : List (List ℕ))
          → find_path type (later ∷ path) (record { bytes = bytes; start = start; end = end })
            ≡ places bytes start es type (find_path later path))
unfolding find_path
find_path-places bytes rest start end es h at e type =
    let run = λ (more : Found → List Found).
      find_from-places (find_fuel bytes) bytes rest start end es type more h at e (omega arith) in
    (run (λ f. f ∷ []), λ later path. run (find_path later path))

-- The content of what was found, and that of the boxes of the type.
unfoldable pub content : Found → List ℕ
content f = subarray f.bytes f.start f.end

unfoldable pub contents_of : List ℕ → List Entry → List (List ℕ)
contents_of type [] = []
contents_of type (e ∷ es) =
    if same_type e.type type then concat e.payload ∷ contents_of type es else contents_of type es

contents_of-places :
    (bytes : List ℕ) (i : ℕ) (es : List Entry) (type : List ℕ)
    → All IsEntry es
    → drop i bytes ≡ entries_bytes es
    → map content (places bytes i es type (λ f. f ∷ [])) ≡ contents_of type es
unfolding places contents_of entries_bytes content
contents_of-places bytes i [] type h at = refl
contents_of-places bytes i (e ∷ es) type h at =
    let ih =
      contents_of-places bytes (i + size e) es type h.1
        (after_entry bytes (entries_bytes es) i e h.0 at) in
    let found =
      subarray_at bytes (concat e.payload) (entries_bytes es) (i + 8)
        (at_payload bytes (entries_bytes es) i e h.0 at) (i + size e) (omega arith) in
    elim (Bool-cases (same_type e.type type)) [
      | inl yes_same ↦ rw (yes_same, found, ih)
      | inr no_same ↦ rw (no_same, ih)
    ]

-- In a sequence of boxes, of types of four characters and of sizes that fit 32 bits, `findBox`
-- finds the contents of just the boxes of the type, in their order.
pub find_path-contents_of :
    (es : List Entry) (type : List ℕ)
    → All IsEntry es
    → map content (find_path type [] (whole (entries_bytes es))) ≡ contents_of type es
unfolding whole
find_path-contents_of es type h =
    let bytes = entries_bytes es in
    let found =
      find_path-places bytes [] 0 (length bytes) es h (sym (append-nil bytes)) (omega arith) type in
    ap (map content) found.0 ∙ contents_of-places bytes 0 es type h refl

le_or_lt : (m n : ℕ) → (m ≤ n) ⊎ (n < m)
le_or_lt m n = ground arith

get_or-out : (xs : List ℕ) (i : ℕ) → length xs ≤ i → get_or xs i 0 ≡ 0
get_or-out [] i h = refl
get_or-out (x ∷ xs) zero h = absurd (omega arith)
get_or-out (x ∷ xs) (suc i) h = get_or-out xs i (omega arith)

-- A box takes two bytes at least, of which one is there, or all that is left.
missing : (bytes : List ℕ) (i : ℕ) → length bytes ≤ i → read_uint32 bytes i ≡ 0
unfolding read_uint32
missing bytes i out = rw (
  get_or-out bytes i out,
  get_or-out bytes (i + 1) (omega arith),
  get_or-out bytes (i + 2) (omega arith),
  get_or-out bytes (i + 3) (omega arith),
)

end_of_box-cases :
    (bytes : List ℕ) (i end : ℕ)
    → (end_of_box bytes i end ≡ end) ⊎ ((i < length bytes) × (i + 2 ≤ end_of_box bytes i end))
unfolding end_of_box
end_of_box-cases bytes i end = elim (Bool-cases (ltb 1 (read_uint32 bytes i))) [
  | inr small ↦ inl (rw small)
  | inl big ↦ elim (le_or_lt (length bytes) i) [
    | inl out ↦ absurd (omega (arith, missing bytes i out, ltb→lt 1 (read_uint32 bytes i) big))
    | inr inside ↦ inr (inside, rw big (omega (arith, ltb→lt 1 (read_uint32 bytes i) big)))
  ]
]

-- The loop of `findBox` ends on any bytes: with more rounds than there are bytes from its place on,
-- it finds the same as with any further ones.
pub find_from_ends :
    (fuel more_fuel : ℕ) (bytes : List ℕ) (i end : ℕ) (type : List ℕ) (more : Found → List Found)
    → length bytes < fuel + i
    → 1 ≤ fuel
    → find_from (fuel + more_fuel) bytes i end type more ≡ find_from fuel bytes i end type more
unfolding find_from
find_from_ends zero more_fuel bytes i end type more enough some_fuel = absurd (omega arith)
find_from_ends (suc fuel) more_fuel bytes i end type more enough some_fuel =
    let sum : suc fuel + more_fuel ≡ suc (fuel + more_fuel) = omega arith in
    let later : find_from (fuel + more_fuel) bytes (end_of_box bytes i end) end type more
        ≡ find_from fuel bytes (end_of_box bytes i end) end type more =
      elim (end_of_box-cases bytes i end) [
        | inl e ↦ rw e (
            find_at_end (fuel + more_fuel) bytes end type more
            ∙ sym (find_at_end fuel bytes end type more))
        | inr far ↦
            find_from_ends fuel more_fuel bytes (end_of_box bytes i end) end type more
              (omega (arith, far.0, far.1)) (omega (arith, far.0))
      ] in
    rw (sum, later)
