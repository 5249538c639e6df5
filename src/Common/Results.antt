-- ===== src/Common/Results.antt =====
-- Option as the monad of code that may abort: `none` is an uncaught exception or a failed assertion.
use mathlib.Core.Option.{Option, none, some}
use mathlib.Core.Path.{◌≡◌, refl, ap, subst}

infixl 5 ◌>>=◌
abbrev pub ◌>>=◌ {ℓ κ} : {A : Type ℓ} {B : Type κ} → Option A → (A → Option B) → Option B
none >>= f = none
some a >>= f = f a

pub some-injective {ℓ} : {A : Type ℓ} {a b : A} → some a ≡ some b → a ≡ b
some-injective {A = A} {a = a} e = ap or_a e
  where
    or_a : Option A → A
    or_a none = a
    or_a (some x) = x

-- What holds of a result holds under its other name.
pub of_some {ℓ κ} : {A : Type ℓ} (P : A → Type κ) {a b : A} → P a → some a ≡ some b → P b
of_some P p e = subst P (some-injective e) p

-- A chain that gives a result went through its first part.
pub bind-some {ℓ κ} :
    {A : Type ℓ} {B : Type κ} (o : Option A) {f : A → Option B} {b : B}
    → (o >>= f) ≡ some b
    → (a : A) × (o ≡ some a) × (f a ≡ some b)
bind-some none e = absurd cc e
bind-some (some a) e = (a, refl, e)
