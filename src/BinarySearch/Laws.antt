-- ===== src/BinarySearch/Laws.antt =====
-- The search is sound, and finds the item of an ordered list.
use v4l2rtspserver.Base.{
  ℕ, zero, suc, ◌+◌, ◌-◌, ◌/◌, ◌≤◌, ◌<◌, ◌≡◌, Option, none, some, List, [], ◌∷◌, ltb, get_elem?,
  length, arith, get_elem?-in_range, ap, inl, inr, ◌⊎◌, Bool-cases,
}
use mathlib.Core.Option.{some-injective}
use v4l2rtspserver.BinarySearch.{
  Sign, positive, negative, equal, Look, missing, higher, lower, found, judge, look, search_loop,
  search,
}

get_elem?-lt : {A : Type 0} (xs : List A) (i : ℕ) {x : A} → get_elem? xs i ≡ some x → i < length xs
get_elem?-lt [] i h = absurd (cc)
get_elem?-lt (x ∷ xs) zero h = omega arith
get_elem?-lt (x ∷ xs) (suc i) h = omega (arith, get_elem?-lt xs i h)

module _ {A : Type 0} (compare : A → Sign) (list : List A) where
  look-found :
      (i : ℕ) {x : A}
      → look compare list i ≡ found x
      → (compare x ≡ equal) × (get_elem? list i ≡ some x)
  unfolding look judge
  look-found i h = ground arith

  after_look :
      (l : Look A) (left right : Option A) {x : A}
      → (elim l [ missing ↦ none | higher ↦ right | lower ↦ left | found y ↦ some y ]) ≡ some x
      → (l ≡ found x) ⊎ (left ≡ some x) ⊎ (right ≡ some x)
  after_look missing left right h = absurd (cc)
  after_look higher left right h = inr (inr h)
  after_look lower left right h = inr (inl h)
  after_look (found y) left right h = inl (ap found (some-injective _ _ h))

  search_loop_sound :
      (fuel lo hi : ℕ) {x : A}
      → search_loop compare list fuel lo hi ≡ some x
      → (compare x ≡ equal) × ((i : ℕ) × (get_elem? list i ≡ some x))
  unfolding search_loop
  search_loop_sound zero lo hi h = absurd (cc)
  search_loop_sound (suc fuel) lo hi h = elim (Bool-cases (ltb lo hi)) [
    | inr done ↦ absurd (cc (rw done at h))
    | inl more ↦ elim (after_look (look compare list ((lo + hi - 1) / 2)) _ _ (rw more at h)) [
      | inl f ↦ let (c, e) = look-found ((lo + hi - 1) / 2) f in (c, ((lo + hi - 1) / 2, e))
      | inr (inl left) ↦ search_loop_sound fuel lo ((lo + hi - 1) / 2) left
      | inr (inr right) ↦ search_loop_sound fuel ((lo + hi - 1) / 2 + 1) hi right
    ]
  ]

  -- The item at `k` compares equal, those before it positive and those behind it negative.
  pub record IsOrderedAt (k : ℕ) (x : A) : Type 0 where
    pub found : get_elem? list k ≡ some x
    pub here : compare x ≡ equal
    pub before : (i : ℕ) (y : A) → get_elem? list i ≡ some y → i < k → compare y ≡ positive
    pub behind : (i : ℕ) (y : A) → get_elem? list i ≡ some y → k < i → compare y ≡ negative

  pub search_loop_finds :
      (fuel lo hi k : ℕ) (x : A)
      → IsOrderedAt k x
      → lo ≤ k
      → k < hi
      → hi ≤ length list
      → hi ≤ lo + fuel
      → search_loop compare list fuel lo hi ≡ some x
  unfolding search_loop look judge
  search_loop_finds zero lo hi k x o a b c d = absurd (omega arith)
  search_loop_finds (suc fuel) lo hi k x o a b c d =
      let mid = (lo + hi - 1) / 2 in
      let (y, e) = get_elem?-in_range list mid (omega arith) in
      ground (
        arith,
        e,
        o.before mid y e,
        o.behind mid y e,
        search_loop_finds fuel (mid + 1) hi k x o,
        search_loop_finds fuel lo mid k x o,
        o.found,
      )

  -- What the search returns is an item of the list, and it compares equal.
  search_sound :
      {x : A}
      → search list compare ≡ some x
      → (compare x ≡ equal) × ((i : ℕ) × (get_elem? list i ≡ some x))
  unfolding search
  search_sound h = search_loop_sound (length list) 0 (length list) h

  -- On a list where the item at an index compares equal, those before it positive and those behind it
  -- negative, the search returns that item.
  pub search_finds : (k : ℕ) (x : A) → IsOrderedAt k x → search list compare ≡ some x
  unfolding search
  search_finds k x o =
      search_loop_finds (length list) 0 (length list) k x o (omega arith)
        (get_elem?-lt list k o.found) (omega arith) (omega arith)
