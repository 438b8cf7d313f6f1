-- ===== src/Common/Result.antt =====
-- Go's `(value, error)` pair, over a type of errors.
use mathlib.Core.Path.{◌≡◌, refl}
use mathlib.Core.Bool.{Bool, true, false}
use go_tari_lib.Common.Tests.{if◌then◌else◌}
use mathlib.Core.Logic.{◌⊎◌, inl, inr}
use mathlib.Core.Option.{Option, none, some}

pub data Result {ℓ κ} (E : Type κ) (A : Type ℓ) : Type (ℓ ⊔ κ) where
  ok : A → Result E A
  err : E → Result E A

-- `if err != nil { return …, err }`
infixl 5 ◌>>=◌
abbrev pub ◌>>=◌ {ℓ κ μ} :
    {E : Type κ} {A : Type ℓ} {B : Type μ} → Result E A → (A → Result E B) → Result E B
ok a >>= f = f a
err e >>= f = err e

-- `if err != nil { return …, e }`: the callee's error is replaced.
abbrev pub or_fail {ℓ κ μ} : {E : Type κ} {F : Type μ} {A : Type ℓ} → Result F A → E → Result E A
or_fail (ok a) e = ok a
or_fail (err f) e = err e

abbrev pub some_or_fail {ℓ κ} : {E : Type κ} {A : Type ℓ} → Option A → E → Result E A
some_or_fail (some a) e = ok a
some_or_fail none e = err e

pub Result-cases {ℓ κ} :
    {E : Type κ} {A : Type ℓ} (r : Result E A) → ((a : A) × (r ≡ ok a)) ⊎ ((e : E) × (r ≡ err e))
Result-cases (ok a) = inl (a, refl)
Result-cases (err e) = inr (e, refl)

-- What a success of a composed step says of its parts.
module _ {ℓ κ μ} {E : Type κ} {A : Type ℓ} {B : Type μ} where
  pub bind-eq-ok :
      (next : A → Result E B) (first : Result E A) (b : B)
      → (first >>= next) ≡ ok b
      → (a : A) × (first ≡ ok a) × (next a ≡ ok b)
  bind-eq-ok next (err e) b h = cc
  bind-eq-ok next (ok a) b h = (a, refl, h)

pub or_fail-eq-ok {ℓ κ μ} :
    {E : Type κ} {F : Type μ} {A : Type ℓ} (r : Result F A) (e : E) {a : A}
    → or_fail r e ≡ ok a
    → r ≡ ok a
or_fail-eq-ok (ok a) e h = cc
or_fail-eq-ok (err f) e h = cc

module _ {ℓ κ} {E : Type κ} {A : Type ℓ} where
  pub some_or_fail-eq-ok : (o : Option A) (e : E) {a : A} → some_or_fail o e ≡ ok a → o ≡ some a
  some_or_fail-eq-ok (some a) e h = cc
  some_or_fail-eq-ok none e h = cc

  pub guard-eq-ok :
      (c : Bool) (e : E) (m : Result E A) {a : A}
      → (if c then err e else m) ≡ ok a
      → (c ≡ false) × (m ≡ ok a)
  guard-eq-ok true e m h = cc
  guard-eq-ok false e m h = (refl, h)

  pub ok-injective : (a b : A) → ◌≡◌ {A = Result E A} (ok a) (ok b) → a ≡ b
  ok-injective a b h = cc
