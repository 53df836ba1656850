-- ===== src/Base/Yields.antt =====
-- What a call that may throw returns: `Yields P o` says it of the result if there is one, `Returns P o`
-- also says that there is one.
use mathlib.Core.Path.{◌≡◌, sym, ◌∙◌, subst}
use mathlib.Core.Bool.{Bool, true, false}
use mathlib.Core.Option.{Option, none, some, some-injective}
use v4l2rtspserver.Base.Tests.{◌>>=◌, >>=-eq-some, if◌then◌else◌}

abbrev pub Yields {ℓ κ} : {A : Type ℓ} → (A → Type κ) → Option A → Type (ℓ ⊔ κ)
Yields {A} P o = (a : A) → o ≡ some a → P a

abbrev pub Returns {ℓ κ} : {A : Type ℓ} → (A → Type κ) → Option A → Type (ℓ ⊔ κ)
Returns {A} P o = (a : A) × (o ≡ some a) × P a

module _ {ℓ κ} {A : Type ℓ} (P : A → Type κ) where
  pub some-Yields : (a : A) → P a → Yields P (some a)
  some-Yields a p b e = subst P (some-injective a b e) p

  pub Returns-Yields : (o : Option A) → Returns P o → Yields P o
  Returns-Yields o (a, e, p) b h = subst P (some-injective a b (sym e ∙ h)) p

  pub none-Yields : (o : Option A) → o ≡ none → Yields P o
  none-Yields o e q h = cc

  pub if_Yields :
      (b : Bool) {x y : Option A} → Yields P x → Yields P y → Yields P (if b then x else y)
  if_Yields true p q = p
  if_Yields false p q = q

module _ {ℓ κ ν μ} {A : Type ℓ} {B : Type κ} (P : A → Type ν) (Q : B → Type μ) where
  pub bind-Yields :
      (m : Option A) (f : A → Option B)
      → Yields P m
      → ((a : A) → P a → Yields Q (f a))
      → Yields Q (m >>= f)
  bind-Yields m f p q b h = let (a, e, k) = >>=-eq-some m f h in q a (p a e) b k

  pub bind-Returns :
      (m : Option A) (f : A → Option B)
      → Returns P m
      → ((a : A) → P a → Returns Q (f a))
      → Returns Q (m >>= f)
  bind-Returns m f (a, e, p) q = let (b, k, r) = q a p in (b, rw e k, r)
