-- ===== src/BinarySearch/Tests.antt =====
-- The binary search on three numbers.
use v4l2rtspserver.Base.{
  ℕ, zero, suc, ◌<◌, ◌≡◌, refl, some, List, [], ◌∷◌, ltb, if◌then◌else◌, get_elem?, arith,
}
use mathlib.Core.Path.{subst}
use mathlib.Core.Option.{some-injective}
use v4l2rtspserver.BinarySearch.{Sign, positive, negative, equal, search, search_loop, look, judge}
use v4l2rtspserver.BinarySearch.Laws.{IsOrderedAt, search_finds}

abbrev three : List ℕ
three = 2 ∷ 5 ∷ 9 ∷ []

-- `compare(item)` for the item 9.
abbrev nine : ℕ → Sign
nine x = if ltb x 9 then positive else if ltb 9 x then negative else equal

three-IsOrderedAt : IsOrderedAt nine three 2 9
three-IsOrderedAt = record { found = refl; here = refl; before = before; behind = behind }
  where
    before : (i : ℕ) (y : ℕ) → get_elem? three i ≡ some y → i < 2 → nine y ≡ positive
    before zero y e h = subst (λ (z : ℕ). nine z ≡ positive) (some-injective _ _ e) refl
    before (suc zero) y e h = subst (λ (z : ℕ). nine z ≡ positive) (some-injective _ _ e) refl
    before (suc (suc i)) y e h = absurd (omega arith)

    behind : (i : ℕ) (y : ℕ) → get_elem? three i ≡ some y → 2 < i → nine y ≡ negative
    behind zero y e h = absurd (omega arith)
    behind (suc zero) y e h = absurd (omega arith)
    behind (suc (suc zero)) y e h = absurd (omega arith)
    behind (suc (suc (suc i))) y e h = cc

search_finds_example : search three nine ≡ some 9
search_finds_example = search_finds nine three 2 9 three-IsOrderedAt

found : search three nine ≡ some 9
unfolding search search_loop look judge
found = refl
