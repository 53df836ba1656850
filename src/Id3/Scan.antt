-- ===== src/Id3/Scan.antt =====
-- `getID3Data`: the size of a tag, and which tags it takes.
use v4l2rtspserver.Base.{
  ℕ, zero, suc, ◌+◌, ◌≤◌, ◌≡◌, refl, ap, sym, ◌∙◌, true, false, none, some, List, ltb, length,
  arith, Bool-cases, ltb→lt, ◌<◌, inl, inr,
}
use mathlib.Core.Option.{some-injective}
use v4l2rtspserver.Id3.{is_tag, is_header, tag_length, scan_tags, get_id3_data, subarray}

-- A header fits in the bytes, so an empty rest has none.
pub is_header-le :
    (bytes : List ℕ) (offset : ℕ) → is_header bytes offset ≡ true → offset + 10 ≤ length bytes
unfolding is_header is_tag
is_header-le bytes offset h = ground arith

module _ (bytes : List ℕ) where
  scan_stops :
      (fuel offset len : ℕ) → is_header bytes offset ≡ false → scan_tags fuel bytes offset len ≡ len
  unfolding scan_tags
  scan_stops zero offset len n = refl
  scan_stops (suc fuel) offset len n = rw n

  scan_goes :
      (fuel offset len : ℕ)
      → is_header bytes offset ≡ true
      → scan_tags (suc fuel) bytes offset len
        ≡ scan_tags fuel bytes
            (offset + (len + tag_length bytes offset))
            (len + tag_length bytes offset)
  unfolding scan_tags
  scan_goes fuel offset len h = rw h

  tag_length-le : (offset : ℕ) → 10 ≤ tag_length bytes offset
  unfolding tag_length
  tag_length-le offset = ground arith

  pub no_header : (offset : ℕ) → length bytes ≤ offset → is_header bytes offset ≡ false
  no_header offset le = elim (Bool-cases (is_header bytes offset)) [
    | inl h ↦ let room = is_header-le bytes offset h in absurd (omega arith)
    | inr n ↦ n
  ]

  -- The loop of `getID3Data` ends: any two amounts of fuel that reach the end of the bytes give the same
  -- length.
  scan_tags-fuel :
      (f g offset len : ℕ)
      → length bytes ≤ offset + f
      → length bytes ≤ offset + g
      → scan_tags f bytes offset len ≡ scan_tags g bytes offset len
  scan_tags-fuel zero g offset len hf hg =
      let n = no_header offset (omega arith) in
      scan_stops zero offset len n ∙ sym (scan_stops g offset len n)
  scan_tags-fuel (suc f) zero offset len hf hg =
      let n = no_header offset (omega arith) in
      scan_stops (suc f) offset len n ∙ sym (scan_stops zero offset len n)
  scan_tags-fuel (suc f) (suc g) offset len hf hg = elim (Bool-cases (is_header bytes offset)) [
    | inr n ↦ scan_stops (suc f) offset len n ∙ sym (scan_stops (suc g) offset len n)
    | inl h ↦
        let long = tag_length-le offset in
        let next =
          scan_tags-fuel f g (offset + (len + tag_length bytes offset))
            (len + tag_length bytes offset) (omega arith) (omega arith) in
        scan_goes f offset len h ∙ next ∙ sym (scan_goes g offset len h)
  ]

  scan_one :
      (fuel offset len : ℕ)
      → 1 ≤ fuel
      → is_header bytes offset ≡ true
      → is_header bytes (offset + (len + tag_length bytes offset)) ≡ false
      → scan_tags fuel bytes offset len ≡ len + tag_length bytes offset
  scan_one zero offset len le h n = absurd (omega arith)
  scan_one (suc fuel) offset len le h n = scan_goes fuel offset len h ∙ scan_stops fuel _ _ n

  scan_two :
      (fuel offset len second : ℕ)
      → 2 ≤ fuel
      → second ≡ offset + (len + tag_length bytes offset)
      → is_header bytes offset ≡ true
      → is_header bytes second ≡ true
      → is_header bytes (second + (len + tag_length bytes offset + tag_length bytes second)) ≡ false
      → scan_tags fuel bytes offset len ≡ len + tag_length bytes offset + tag_length bytes second
  scan_two zero offset len second le q h k n = absurd (omega arith)
  scan_two (suc fuel) offset len second le q h k n =
      scan_goes fuel offset len h
      ∙ ap (λ (o : ℕ). scan_tags fuel bytes o (len + tag_length bytes offset)) (sym q)
      ∙ scan_one fuel second (len + tag_length bytes offset) (omega arith) k n

module _ (bytes : List ℕ) (offset : ℕ) where
  -- One tag at the offset, with no header right behind it: `getID3Data` gives that tag.
  pub get_id3_data_one :
      is_header bytes offset ≡ true
      → is_header bytes (offset + tag_length bytes offset) ≡ false
      → get_id3_data bytes offset ≡ some (subarray bytes offset (tag_length bytes offset))
  unfolding get_id3_data
  get_id3_data_one h n =
      let room = is_header-le bytes offset h in
      let long = tag_length-le bytes offset in
      let z : 0 + tag_length bytes offset ≡ tag_length bytes offset = omega arith in
      let n' : is_header bytes (offset + (0 + tag_length bytes offset)) ≡ false = rw z n in
      let e = scan_one bytes (length bytes) offset 0 (omega arith) h n' ∙ z in
      let pos : ltb 0 (tag_length bytes offset) ≡ true = ground arith in rw (e, pos)

  -- With two tags in a row at the offset, `getID3Data` looks for a third header at the second tag's offset
  -- plus the length of both tags, and gives just the two tags if there is none there.
  pub get_id3_data_two :
      (second : ℕ)
      → second ≡ offset + tag_length bytes offset
      → is_header bytes offset ≡ true
      → is_header bytes second ≡ true
      → is_header bytes (second + (tag_length bytes offset + tag_length bytes second)) ≡ false
      → get_id3_data bytes offset
        ≡ some (subarray bytes offset (tag_length bytes offset + tag_length bytes second))
  unfolding get_id3_data
  get_id3_data_two second q h k n =
      let room = is_header-le bytes second k in
      let long = tag_length-le bytes offset in
      let z : 0 + tag_length bytes offset ≡ tag_length bytes offset = omega arith in
      let e : scan_tags (length bytes) bytes offset 0
          ≡ tag_length bytes offset + tag_length bytes second =
        scan_two bytes (length bytes) offset 0 second (omega arith) (rw z q) h k (rw z n)
        ∙ ap (λ (x : ℕ). x + tag_length bytes second) z in
      let pos : ltb 0 (tag_length bytes offset + tag_length bytes second) ≡ true = ground arith in
      rw (e, pos)

  -- No header at the offset: undefined.
  pub get_id3_data-none : is_header bytes offset ≡ false → get_id3_data bytes offset ≡ none
  unfolding get_id3_data
  get_id3_data-none n = rw (scan_stops bytes (length bytes) offset 0 n)

-- A result is a part of the bytes from the offset on, cut behind a positive length.
pub get_id3_data-subarray :
    (bytes : List ℕ) (offset : ℕ) (found : List ℕ)
    → get_id3_data bytes offset ≡ some found
    → (n : ℕ) × (0 < n) × (found ≡ subarray bytes offset n)
unfolding get_id3_data
get_id3_data-subarray bytes offset found h =
    let len = scan_tags (length bytes) bytes offset 0 in
    elim (Bool-cases (ltb 0 len)) [
      | inr off ↦ let e = rw off at h in cc
      | inl on ↦ (len, ltb→lt 0 len on, sym (some-injective _ _ (rw on at h)))
    ]
