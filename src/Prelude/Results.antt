-- ===== src/Prelude/Results.antt =====
-- Code that ends at its first error.
use mathlib.Core.Path.{◌≡◌}
use mathlib.Core.Option.{Option, none, some}
use mathlib.Core.Bool.{Bool, true, false}

pub data Result {ℓ} (E A : Type ℓ) : Type ℓ where
  passed : A → Result E A
  refused : E → Result E A

infixl 5 ◌>>=◌ ◌>>◌
abbrev pub ◌>>=◌ {ℓ} : {E A B : Type ℓ} → Result E A → (A → Result E B) → Result E B
passed a >>= f = f a
refused e >>= f = refused e

abbrev pub ◌>>◌ : {E B : Type 0} → Result E (Unit {0}) → Result E B → Result E B
m >> k = m >>= λ _. k

abbrev pub need {ℓ} : {E A : Type ℓ} → Option A → E → Result E A
need none e = refused e
need (some a) e = passed a

abbrev pub require : {E : Type 0} → Bool → E → Result E (Unit {0})
require true e = passed tt
require false e = refused e

module _ {ℓ} {E A : Type ℓ} where
  abbrev accepted : A → Result E A
  accepted a = passed a

  pub passed-inj : {a b : A} → accepted a ≡ accepted b → a ≡ b
  passed-inj e = cc
