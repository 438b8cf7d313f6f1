-- ===== src/Common/Bits/Xor.antt =====
-- `^` at variables. Every law follows from one equation for the lowest bit.
use Prim.Native.Nat.{ℕ, zero, suc, ◌+◌, ◌*◌, ◌/◌, ◌%◌, ◌≤◌, ◌<◌}
use Prim.Native.Nat.{digits, differ, bit_xor, bit_xor-bitwise}
use mathlib.Core.Path.{◌≡◌, refl, sym, ap, ◌∙◌}
use native.Mathlib.Omega.{arith}

abbrev from_bits : ℕ → ℕ → ℕ → ℕ
from_bits = digits (λ y. y) differ

-- The count of bits to go only has to be large enough.
from_bits_count : (n m a b : ℕ) → a ≤ n → a ≤ m → from_bits n a b ≡ from_bits m a b
from_bits_count zero zero a b hn hm = refl
from_bits_count zero (suc m) zero b hn hm = refl
from_bits_count zero (suc m) (suc a) b hn hm = absurd (omega arith)
from_bits_count (suc n) zero zero b hn hm = refl
from_bits_count (suc n) zero (suc a) b hn hm = absurd (omega arith)
from_bits_count (suc n) (suc m) zero b hn hm = refl
from_bits_count (suc n) (suc m) (suc a) b hn hm =
    ap (λ t. t * 2 + differ (suc a % 2) (b % 2))
      (from_bits_count n m (suc a / 2) (b / 2) (omega arith) (omega arith))

differ-eq : (x y : ℕ) → x < 2 → y < 2 → differ x y ≡ (x + y) % 2
differ-eq zero zero hx hy = refl
differ-eq zero (suc zero) hx hy = refl
differ-eq (suc zero) zero hx hy = refl
differ-eq (suc zero) (suc zero) hx hy = refl
differ-eq (suc (suc x)) y hx hy = absurd (omega arith)
differ-eq x (suc (suc y)) hx hy = absurd (omega arith)

pub zero-xor : (b : ℕ) → bit_xor 0 b ≡ b
zero-xor b = bit_xor-bitwise 0 b

pub xor_step : (a b : ℕ) → bit_xor a b ≡ bit_xor (a / 2) (b / 2) * 2 + (a + b) % 2
xor_step zero b = omega (arith, zero-xor b, zero-xor (b / 2))
xor_step (suc a) b = omega (
  arith,
  bit_xor-bitwise (suc a) b,
  bit_xor-bitwise (suc a / 2) (b / 2),
  from_bits_count a (suc a / 2) (suc a / 2) (b / 2) (omega arith) (omega arith),
  differ-eq (suc a % 2) (b % 2) (omega arith) (omega arith),
)

xor_comm_below : (n a b : ℕ) → a + b ≤ n → bit_xor a b ≡ bit_xor b a
xor_comm_below n zero zero h = refl
xor_comm_below zero (suc a) b h = absurd (omega arith)
xor_comm_below zero a (suc b) h = absurd (omega arith)
xor_comm_below (suc n) a b h =
    omega (arith, xor_step a b, xor_step b a, xor_comm_below n (a / 2) (b / 2) (omega arith))

pub xor_comm : (a b : ℕ) → bit_xor a b ≡ bit_xor b a
xor_comm a b = xor_comm_below (a + b) a b (omega arith)

pub xor-zero : (a : ℕ) → bit_xor a 0 ≡ a
xor-zero a = xor_comm a 0 ∙ zero-xor a

xor_self_below : (n a : ℕ) → a ≤ n → bit_xor a a ≡ 0
xor_self_below n zero h = refl
xor_self_below zero (suc a) h = absurd (omega arith)
xor_self_below (suc n) (suc a) h =
    omega (arith, xor_step (suc a) (suc a), xor_self_below n (suc a / 2) (omega arith))

pub xor_self : (a : ℕ) → bit_xor a a ≡ 0
xor_self a = xor_self_below a a (omega arith)

-- The two parts of a number that `^` makes.
xor-div : (a b : ℕ) → bit_xor a b / 2 ≡ bit_xor (a / 2) (b / 2)
xor-div a b = omega (arith, xor_step a b)

xor-mod : (a b : ℕ) → bit_xor a b % 2 ≡ (a + b) % 2
xor-mod a b = omega (arith, xor_step a b)

xor_assoc_below : (n a b c : ℕ) → a + b + c ≤ n → bit_xor (bit_xor a b) c ≡ bit_xor a (bit_xor b c)
xor_assoc_below n zero b c h = ap (λ t. bit_xor t c) (zero-xor b) ∙ sym (zero-xor (bit_xor b c))
xor_assoc_below zero (suc a) b c h = absurd (omega arith)
xor_assoc_below (suc n) (suc a) b c h =
    let p = suc a in
    let inner = xor_assoc_below n (p / 2) (b / 2) (c / 2) (omega arith) in
    let left = ap (λ t. bit_xor t (c / 2)) (xor-div p b) in
    let right = ap (λ t. bit_xor (p / 2) t) (xor-div b c) in
    omega (
      arith,
      xor_step (bit_xor p b) c,
      xor_step p (bit_xor b c),
      xor-mod p b,
      xor-mod b c,
      left ∙ inner ∙ sym right,
    )

pub xor_assoc : (a b c : ℕ) → bit_xor (bit_xor a b) c ≡ bit_xor a (bit_xor b c)
xor_assoc a b c = xor_assoc_below (a + b + c) a b c (omega arith)

-- What is added twice is gone.
pub xor_cancel : (a b : ℕ) → bit_xor a (bit_xor a b) ≡ b
xor_cancel a b = sym (xor_assoc a a b) ∙ ap (λ t. bit_xor t b) (xor_self a) ∙ zero-xor b

pub xor-injective : (a b c : ℕ) → bit_xor a b ≡ bit_xor a c → b ≡ c
xor-injective a b c e = sym (xor_cancel a b) ∙ ap (λ t. bit_xor a t) e ∙ xor_cancel a c

pub eq_of_xor_zero : (a b : ℕ) → bit_xor a b ≡ 0 → a ≡ b
eq_of_xor_zero a b e = xor-injective b a b (xor_comm b a ∙ e ∙ sym (xor_self b))

-- An equation of sums, with a term of each side moved to the other.
pub xor_exchange : (a b x y : ℕ) → bit_xor a y ≡ bit_xor b x → bit_xor a b ≡ bit_xor x y
xor_exchange a b x y e =
    xor_comm a b
    ∙ sym (xor-zero (bit_xor b a))
    ∙ ap (λ t. bit_xor (bit_xor b a) t) (sym (xor_self y))
    ∙ sym (xor_assoc (bit_xor b a) y y)
    ∙ ap (λ t. bit_xor t y) (xor_assoc b a y ∙ ap (λ t. bit_xor b t) e ∙ xor_cancel b x)
