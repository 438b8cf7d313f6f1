-- ===== src/Common/Action.antt =====
-- Actions on a state that may fail: what was done before the failure stays done.
use mathlib.Core.Path.{◌≡◌, refl, ap}
use go_tari_lib.Common.Result.{Result, ok, err}

abbrev pub Action : Type 0 → Type 0 → Type 0 → Type 0
Action S E A = S → Result E A × S

module _ {S E A : Type 0} where
  abbrev pub give : Result E A → Action S E A
  give r s = (r, s)

  abbrev pub pure : A → Action S E A
  pure a s = (ok a, s)

  abbrev pub raise : E → Action S E A
  raise e s = (err e, s)

module _ {S E A B : Type 0} where
  abbrev proceed : (A → Action S E B) → Result E A → S → Result E B × S
  proceed next (ok a) s = next a s
  proceed next (err e) s = (err e, s)

  infixl 5 ◌>>=◌
  abbrev pub ◌>>=◌ : Action S E A → (A → Action S E B) → Action S E B
  ◌>>=◌ first next s = let (r, s') = first s in proceed next r s'

  pub bind-ok :
      (first : Action S E A) (next : A → Action S E B) (s : S) {a : A} {s' : S}
      → first s ≡ (ok a, s')
      → (first >>= next) s ≡ next a s'
  bind-ok first next s h = ap (λ p. let (r, s') = p in proceed next r s') h

  pub bind-err :
      (first : Action S E A) (next : A → Action S E B) (s : S) {e : E} {s' : S}
      → first s ≡ (err e, s')
      → (first >>= next) s ≡ (err e, s')
  bind-err first next s h = ap (λ p. let (r, s') = p in proceed next r s') h

module _ {S E A B : Type 0} where
  infixl 5 ◌>>◌
  abbrev pub ◌>>◌ : Action S E A → Action S E B → Action S E B
  first >> next = first >>= λ _. next

-- What a success of a composed action says of its parts.
module _ {S E A B : Type 0} where
  proceed-eq-ok :
      (next : A → Action S E B) (r : Result E A) (s s' : S) (b : B)
      → proceed next r s ≡ (ok b, s')
      → (a : A) × (r ≡ ok a) × (next a s ≡ (ok b, s'))
  proceed-eq-ok next (ok a) s s' b h = (a, refl, h)
  proceed-eq-ok next (err e) s s' b h = cc

  pub bind-eq-ok :
      (first : Action S E A) (next : A → Action S E B) (s s' : S) (b : B)
      → (first >>= next) s ≡ (ok b, s')
      → (a : A) × (s1 : S) × (first s ≡ (ok a, s1)) × (next a s1 ≡ (ok b, s'))
  bind-eq-ok first next s s' b h =
      let (a, e, k) = proceed-eq-ok next (first s).0 (first s).1 s' b h in
      (a, (first s).1, ap (λ r. (r, (first s).1)) e, k)
