-- ===== src/Base/Bytes.antt =====
-- Byte arrays as lists of numbers, and laws of masks that are checked by evaluation.
use Prim.Native.Nat.{ℕ, zero, suc, ◌<◌}
use mathlib.Core.Path.{◌≡◌}
use mathlib.Core.Bool.{Bool, true, ◌&&◌}
use mathlib.Core.List.{List, [], ◌∷◌}
use native.Mathlib.Omega.{arith}
use v4l2rtspserver.Base.Lists.{get_or, All}

-- `data[i]` under a bit operation: a read past the end is `undefined`, which counts as 0 there.
abbrev pub byte_at : List ℕ → ℕ → ℕ
byte_at bytes i = get_or bytes i 0

abbrev pub IsByte : ℕ → Type 0
IsByte b = b < 256

-- A test of every number below a bound, and what it says of one of them.
unfoldable pub holds_below : (bound : ℕ) (test : ℕ → Bool) → Bool
holds_below zero test = true
holds_below (suc bound) test = holds_below bound test && test bound

pub holds_below_lem :
    (bound : ℕ) (test : ℕ → Bool) (k : ℕ)
    → holds_below bound test ≡ true
    → k < bound
    → test k ≡ true
unfolding holds_below
holds_below_lem zero test k _ small = absurd (omega arith)
holds_below_lem (suc bound) test k all small = ground (arith, holds_below_lem bound test k)

pub byte_at-lt : (bytes : List ℕ) (i : ℕ) → All IsByte bytes → byte_at bytes i < 256
byte_at-lt [] i h = omega arith
byte_at-lt (b ∷ bytes) zero h = h.0
byte_at-lt (b ∷ bytes) (suc i) h = byte_at-lt bytes i h.1
