-- ===== src/BinarySearch.antt =====
-- hls.js/src/utils/binary-search.js. The number that the comparison function returns matters only by
-- its sign. `maxIndex` starts at `list.length - 1` and may fall to -1: the argument `hi` is
-- `maxIndex + 1`.
mod Laws
mod Tests
use v4l2rtspserver.Base.{
  ℕ, zero, suc, ◌+◌, ◌-◌, ◌/◌, Option, none, some, List, ltb, if◌then◌else◌, get_elem?, length,
}

-- Positive: the item lies at a higher index; negative: at a lower one; zero: this is the item.
pub data Sign : Type 0 where
  positive negative equal : Sign

-- What a look at one index tells; `missing` is a read out of range, which does not happen.
pub data Look (A : Type 0) : Type 0 where
  missing higher lower : Look A
  found : A → Look A

pub judge : {A : Type 0} → Sign → A → Look A
judge positive x = higher
judge negative x = lower
judge equal x = found x

pub look : {A : Type 0} → (A → Sign) → List A → ℕ → Look A
look {A} compare list i = at_item (get_elem? list i)
  where
    at_item : Option A → Look A
    at_item none = missing
    at_item (some x) = judge (compare x) x

-- The loop, on fuel; `none` is null.
pub search_loop : {A : Type 0} → (A → Sign) → List A → ℕ → ℕ → ℕ → Option A
search_loop compare list zero lo hi = none
search_loop {A} compare list (suc fuel) lo hi =
    let mid = (lo + hi - 1) / 2 in
    let next : Option A = elim (look compare list mid) [
      | missing ↦ none
      | higher ↦ search_loop compare list fuel (mid + 1) hi
      | lower ↦ search_loop compare list fuel lo mid
      | found x ↦ some x
    ] in
    if ltb lo hi then next else none

-- As many rounds as there are items are enough.
pub search : {A : Type 0} → List A → (A → Sign) → Option A
search list compare = search_loop compare list (length list) 0 (length list)
