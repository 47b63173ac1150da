-- ===== src/Base/Bits.antt =====
-- `&`, `|` and `^` at variables: laws that the libraries leave to their users, from the equation
-- for the lowest digit.
use Prim.Native.Nat.{
  ℕ, zero, suc, ◌+◌, ◌*◌, ◌/◌, ◌%◌, ◌^◌, ◌≤◌, ◌<◌, min, max, digits, bitwise, differ,
}
use Prim.Native.Nat.{bit_and, bit_or, bit_xor, bit_and-bitwise, bit_or-bitwise, bit_xor-bitwise}
use mathlib.Core.Path.{◌≡◌, refl, ap, ◌∙◌}
use mathlib.Core.Logic.{◌⊎◌, inl, inr}
use native.Mathlib.Nat.{le_refl, pow-suc}
use native.Mathlib.Omega.{arith}

le-or-eq : (a n : ℕ) → a ≤ suc n → (a ≤ n) ⊎ (a ≡ suc n)
le-or-eq a n h = ground arith

module _ (z : ℕ → ℕ) (f : ℕ → ℕ → ℕ) where
  -- One more unit of fuel than the first number makes no difference.
  spare_unit : (n a b : ℕ) → a ≤ n → digits z f (suc n) a b ≡ digits z f n a b
  spare_unit zero zero b h = refl
  spare_unit zero (suc a) b h = absurd (omega arith)
  spare_unit (suc n) zero b h = refl
  spare_unit (suc n) (suc a) b h = rw (spare_unit n (suc a / 2) (b / 2) (omega arith)) refl

  enough_fuel : (n a b : ℕ) → a ≤ n → digits z f n a b ≡ bitwise z f a b
  enough_fuel zero a b h = let e : a ≡ 0 = omega arith in rw e refl
  enough_fuel (suc n) a b h = elim (le-or-eq a n h) [
    | inl below ↦ spare_unit n a b below ∙ enough_fuel n a b below
    | inr top ↦ rw top refl
  ]

  -- What an operation on the digits does to the lowest ones.
  low_digits :
      (op : ℕ → ℕ → ℕ)
      → ((a b : ℕ) → op a b ≡ bitwise z f a b)
      → ((b : ℕ) → z b ≡ f 0 (b % 2) + 2 * z (b / 2))
      → (a b : ℕ) → op a b ≡ f (a % 2) (b % 2) + 2 * op (a / 2) (b / 2)
  low_digits op mean at_zero zero b = rw (mean 0 b, mean 0 (b / 2)) (at_zero b)
  low_digits op mean at_zero (suc a) b =
      rw (mean (suc a) b, mean (suc a / 2) (b / 2))
        (omega (arith, enough_fuel a (suc a / 2) (b / 2) (omega arith)))

pub bit_and_step : (a b : ℕ) → bit_and a b ≡ min (a % 2) (b % 2) + 2 * bit_and (a / 2) (b / 2)
bit_and_step = low_digits (λ y. 0) min bit_and bit_and-bitwise (λ b. omega arith)

pub bit_or_step : (a b : ℕ) → bit_or a b ≡ max (a % 2) (b % 2) + 2 * bit_or (a / 2) (b / 2)
bit_or_step = low_digits (λ y. y) max bit_or bit_or-bitwise (λ b. omega arith)

differ_sum : (x y : ℕ) → x < 2 → y < 2 → differ x y ≡ (x + y) % 2
differ_sum zero y p q = omega arith
differ_sum (suc zero) zero p q = refl
differ_sum (suc zero) (suc zero) p q = refl
differ_sum (suc zero) (suc (suc y)) p q = absurd (omega arith)
differ_sum (suc (suc x)) y p q = absurd (omega arith)

pub bit_xor_step : (a b : ℕ) → bit_xor a b ≡ (a + b) % 2 + 2 * bit_xor (a / 2) (b / 2)
bit_xor_step a b =
    let low =
      low_digits (λ y. y) differ bit_xor bit_xor-bitwise
        (λ b. omega (arith, differ_sum 0 (b % 2) (omega arith) (omega arith))) a b in
    omega (arith, low, differ_sum (a % 2) (b % 2) (omega arith) (omega arith))

scaled-suc : (k q : ℕ) → q * 2 ^ suc k ≡ q * 2 ^ k + q * 2 ^ k
scaled-suc k q = let power = ap (λ (t : ℕ). q * t) (pow-suc 2 k) in omega (power, arith)

-- An operation that works digit by digit works field by field.
module _ (op : ℕ → ℕ → ℕ) (f : ℕ → ℕ → ℕ)
    (step : (a b : ℕ) → op a b ≡ f (a % 2) (b % 2) + 2 * op (a / 2) (b / 2))
    (small : (x y : ℕ) → x < 2 → y < 2 → f x y < 2) (at_zero : op 0 0 ≡ 0) where
  pub op_fields :
      (k p q r s : ℕ)
      → r < 2 ^ k
      → s < 2 ^ k
      → op (p * 2 ^ k + r) (q * 2 ^ k + s) ≡ op p q * 2 ^ k + op r s
  op_fields zero p q r s hr hs =
      let er : r ≡ 0 = omega arith in
      let es : s ≡ 0 = omega arith in
      let ep : p * 1 + 0 ≡ p = omega arith in
      let eq : q * 1 + 0 ≡ q = omega arith in rw (er, es, at_zero) (rw (ep, eq) (omega arith))
  op_fields (suc k) p q r s hr hs = ground (
    arith,
    step (p * 2 ^ suc k + r) (q * 2 ^ suc k + s),
    step r s,
    scaled-suc k p,
    scaled-suc k q,
    scaled-suc k (op p q),
    op_fields k p q (r / 2) (s / 2) (omega (arith, pow-suc 2 k)) (omega (arith, pow-suc 2 k)),
  )

  pub op-lt : (k r s : ℕ) → r < 2 ^ k → s < 2 ^ k → op r s < 2 ^ k
  op-lt zero r s hr hs =
      let er : r ≡ 0 = omega arith in
      let es : s ≡ 0 = omega arith in rw (er, es, at_zero) (omega arith)
  op-lt (suc k) r s hr hs = omega (
    arith,
    pow-suc 2 k,
    step r s,
    small (r % 2) (s % 2) (omega arith) (omega arith),
    op-lt k (r / 2) (s / 2) (omega (arith, pow-suc 2 k)) (omega (arith, pow-suc 2 k)),
  )

max_bits : (x y : ℕ) → x < 2 → y < 2 → max x y < 2
max_bits x y p q = omega arith

min_bits : (x y : ℕ) → x < 2 → y < 2 → min x y < 2
min_bits x y p q = omega arith

bit_xor_digits : (a b : ℕ) → bit_xor a b ≡ (a % 2 + b % 2) % 2 + 2 * bit_xor (a / 2) (b / 2)
bit_xor_digits a b = omega (arith, bit_xor_step a b)

pub bit_or_fields :
    (k p q r s : ℕ)
    → r < 2 ^ k
    → s < 2 ^ k
    → bit_or (p * 2 ^ k + r) (q * 2 ^ k + s) ≡ bit_or p q * 2 ^ k + bit_or r s
bit_or_fields = op_fields bit_or max bit_or_step max_bits refl

pub bit_and_fields :
    (k p q r s : ℕ)
    → r < 2 ^ k
    → s < 2 ^ k
    → bit_and (p * 2 ^ k + r) (q * 2 ^ k + s) ≡ bit_and p q * 2 ^ k + bit_and r s
bit_and_fields = op_fields bit_and min bit_and_step min_bits refl

pub bit_xor_fields :
    (k p q r s : ℕ)
    → r < 2 ^ k
    → s < 2 ^ k
    → bit_xor (p * 2 ^ k + r) (q * 2 ^ k + s) ≡ bit_xor p q * 2 ^ k + bit_xor r s
bit_xor_fields = op_fields bit_xor (λ x y. (x + y) % 2) bit_xor_digits (λ x y p q. omega arith) refl

pub bit_xor-lt : (k r s : ℕ) → r < 2 ^ k → s < 2 ^ k → bit_xor r s < 2 ^ k
bit_xor-lt = op-lt bit_xor (λ x y. (x + y) % 2) bit_xor_digits (λ x y p q. omega arith) refl

pub bit_or-lt : (k r s : ℕ) → r < 2 ^ k → s < 2 ^ k → bit_or r s < 2 ^ k
bit_or-lt = op-lt bit_or max bit_or_step max_bits refl

-- A number bounds the recursion that takes its lowest digit away.
or_zero_below : (n a : ℕ) → a ≤ n → bit_or a 0 ≡ a
or_zero_below n zero h = refl
or_zero_below zero (suc a) h = absurd (omega arith)
or_zero_below (suc n) (suc a) h =
    omega (arith, bit_or_step (suc a) 0, or_zero_below n (suc a / 2) (omega arith))

pub bit_or-zero : (a : ℕ) → bit_or a 0 ≡ a
bit_or-zero a = or_zero_below a a (le_refl _)

pub zero-bit_or : (a : ℕ) → bit_or 0 a ≡ a
zero-bit_or a = simp bit_or-bitwise

and_zero_below : (n a : ℕ) → a < n → bit_and a 0 ≡ 0
and_zero_below zero a h = absurd (omega arith)
and_zero_below (suc n) zero h = refl
and_zero_below (suc n) (suc a) h =
    let half = and_zero_below n (suc a / 2) (omega arith) in
    omega (arith, half, bit_and_step (suc a) 0)

pub bit_and-zero : (a : ℕ) → bit_and a 0 ≡ 0
bit_and-zero a = and_zero_below (suc a) a (omega arith)

xor_xor_below : (n a b : ℕ) → a ≤ n → b ≤ n → bit_xor (bit_xor a b) b ≡ a
xor_xor_below zero zero zero p q = refl
xor_xor_below zero zero (suc b) p q = absurd (omega arith)
xor_xor_below zero (suc a) b p q = absurd (omega arith)
xor_xor_below (suc n) a b p q = ground (
  arith,
  bit_xor_step a b,
  bit_xor_step (bit_xor a b) b,
  xor_xor_below n (a / 2) (b / 2) (omega arith) (omega arith),
)

-- Masking twice with one key gives the byte back.
pub xor_xor : (a b : ℕ) → bit_xor (bit_xor a b) b ≡ a
xor_xor a b = xor_xor_below (a + b) a b (omega arith) (omega arith)

-- Two fields that do not overlap are a sum.
pub bit_or_disjoint : (k q r : ℕ) → r < 2 ^ k → bit_or (q * 2 ^ k) r ≡ q * 2 ^ k + r
bit_or_disjoint k q r h =
    let e : q * 2 ^ k + 0 ≡ q * 2 ^ k = omega arith in
    let e' : 0 * 2 ^ k + r ≡ r = omega arith in
    let fields = bit_or_fields k q 0 0 r (omega arith) h in
    let fields' : bit_or (q * 2 ^ k) r ≡ bit_or q 0 * 2 ^ k + bit_or 0 r = rw (e, e') at fields in
    rw (fields', bit_or-zero q, zero-bit_or r)
