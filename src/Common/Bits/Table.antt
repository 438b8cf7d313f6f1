-- ===== src/Common/Bits/Table.antt =====
-- Facts over a small range, checked by evaluation.
use Prim.Native.Nat.{ℕ, zero, suc, ◌<◌}
use mathlib.Core.Path.{◌≡◌}
use mathlib.Core.Bool.{Bool, true, false}
use native.Mathlib.Omega.{arith}
use go_tari_lib.Common.Tests.{if◌then◌else◌}

module _ (test : ℕ → Bool) where
  every : ℕ → Bool
  every zero = true
  every (suc k) = let lower = every k in if test k then lower else false

  every-at : (x k : ℕ) → x < k → every k ≡ true → test x ≡ true
  unfolding every
  every-at x zero below e = absurd (omega arith)
  every-at x (suc k) below e = ground (arith, every-at x k)

unfoldable pub all_below : ℕ → (ℕ → Bool) → Bool
unfolding every
all_below bound test = every test bound

pub all_below_sound :
    (bound x : ℕ) (test : ℕ → Bool) → x < bound → all_below bound test ≡ true → test x ≡ true
unfolding all_below
all_below_sound bound x test below e = every-at test x bound below e

unfoldable pub all_pairs : ℕ → (ℕ → ℕ → Bool) → Bool
unfolding all_below
all_pairs bound test = all_below bound (λ x. all_below bound (test x))

pub all_pairs_sound :
    (bound x y : ℕ) (test : ℕ → ℕ → Bool)
    → x < bound
    → y < bound
    → all_pairs bound test ≡ true
    → test x y ≡ true
unfolding all_pairs
all_pairs_sound bound x y test hx hy e =
    all_below_sound bound y (test x) hy
      (all_below_sound bound x (λ t. all_below bound (test t)) hx e)
