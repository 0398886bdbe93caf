-- ===== src/Prelude/Bits.antt =====
-- The bits of a native number, and what the bitwise operations make of them.
use Prim.Native.Nat.{
  ℕ, zero, suc, ◌+◌, ◌-◌, ◌*◌, ◌/◌, ◌%◌, ◌^◌, ◌≤◌, ◌<◌, min, max, bit_and, bit_or, bit_xor, digits,
  differ, bit_and-bitwise, bit_or-bitwise, bit_xor-bitwise,
}
use mathlib.Core.Path.{◌≡◌, refl, sym, ap, ◌∙◌}
use mathlib.Core.Bool.{Bool, true, false, not, ◌&&◌, ◌||◌}
use native.Mathlib.Omega.{arith}
use native.Mathlib.Nat.{two-pow-succ, one-le-pow}
use mathlib.Core.Logic.{inl, inr}
use aniparse.Prelude.Tests.{Bool-cases, ==_iff, ltb, ◌==◌, if◌then◌else◌}

-- The bit at a place, the lowest at 0.
abbrev pub test_bit : ℕ → ℕ → Bool
test_bit a zero = a % 2 == 1
test_bit a (suc i) = test_bit (a / 2) i

pub test_bit_zero : (i : ℕ) → test_bit 0 i ≡ false
test_bit_zero zero = refl
test_bit_zero (suc i) = test_bit_zero i

-- An operation on numbers that acts on digits as `op` does on bits.
module _ (op : Bool → Bool → Bool) (alone : ℕ → ℕ) (pair : ℕ → ℕ → ℕ)
    (alone_bits : (b i : ℕ) → test_bit (alone b) i ≡ op false (test_bit b i))
    (pair_digit : (x y : ℕ)
      → pair (x % 2) (y % 2) ≡ (if op (x % 2 == 1) (y % 2 == 1) then 1 else 0)) where
  test_bit-digits :
      (fuel a b i : ℕ)
      → a ≤ fuel
      → test_bit (digits alone pair fuel a b) i ≡ op (test_bit a i) (test_bit b i)
  test_bit-digits zero zero b i h =
      alone_bits b i ∙ ap (λ t. op t (test_bit b i)) (sym (test_bit_zero i))
  test_bit-digits zero (suc a) b i h = absurd (omega (arith, h))
  test_bit-digits (suc fuel) zero b i h =
      alone_bits b i ∙ ap (λ t. op t (test_bit b i)) (sym (test_bit_zero i))
  test_bit-digits (suc fuel) (suc a) b zero h = ground (arith, pair_digit (suc a) b)
  test_bit-digits (suc fuel) (suc a) b (suc i) h =
      let rest : ℕ = digits alone pair fuel (suc a / 2) (b / 2) in
      let halved : (rest * 2 + pair (suc a % 2) (b % 2)) / 2 ≡ rest =
        ground (arith, pair_digit (suc a) b) in
      ap (λ v. test_bit v i) halved ∙ test_bit-digits fuel (suc a / 2) (b / 2) i (omega (arith, h))

and_digit : (x y : ℕ) → min (x % 2) (y % 2) ≡ (if x % 2 == 1 && y % 2 == 1 then 1 else 0)
and_digit x y = ground arith

or_digit : (x y : ℕ) → max (x % 2) (y % 2) ≡ (if x % 2 == 1 || y % 2 == 1 then 1 else 0)
or_digit x y = ground arith

abbrev pub xor : Bool → Bool → Bool
xor true b = not b
xor false b = b

differ_bits : (a b : ℕ) → a < 2 → b < 2 → differ a b ≡ (if xor (a == 1) (b == 1) then 1 else 0)
differ_bits zero b p q = ground arith
differ_bits (suc zero) zero p q = refl
differ_bits (suc zero) (suc b) p q = ground arith
differ_bits (suc (suc a)) b p q = absurd (omega (arith, p))

pub test_bit-bit_and : (a b i : ℕ) → test_bit (bit_and a b) i ≡ (test_bit a i && test_bit b i)
test_bit-bit_and a b i =
    ap (λ v. test_bit v i) (bit_and-bitwise a b)
    ∙ test_bit-digits ◌&&◌ (λ c. 0) min (λ c j. test_bit_zero j) and_digit a a b i (omega arith)

pub test_bit-bit_or : (a b i : ℕ) → test_bit (bit_or a b) i ≡ (test_bit a i || test_bit b i)
test_bit-bit_or a b i =
    ap (λ v. test_bit v i) (bit_or-bitwise a b)
    ∙ test_bit-digits ◌||◌ (λ c. c) max (λ c j. refl) or_digit a a b i (omega arith)

pub test_bit-bit_xor : (a b i : ℕ) → test_bit (bit_xor a b) i ≡ xor (test_bit a i) (test_bit b i)
test_bit-bit_xor a b i =
    ap (λ v. test_bit v i) (bit_xor-bitwise a b)
    ∙ test_bit-digits xor (λ c. c) differ (λ c j. refl)
        (λ x y. differ_bits (x % 2) (y % 2) (omega arith) (omega arith)) a a b i (omega arith)

pub pow_double : (p : ℕ) → (2 ^ suc p ≡ 2 * 2 ^ p) × (0 < 2 ^ p)
pow_double p = (omega (arith, two-pow-succ p), one-le-pow p 2 (omega arith))

pub test_bit-pow : (p i : ℕ) → test_bit (2 ^ p) i ≡ (p == i)
test_bit-pow zero zero = refl
test_bit-pow zero (suc i) = ground (arith, test_bit_zero i)
test_bit-pow (suc p) zero = ground (arith, pow_double p)
test_bit-pow (suc p) (suc i) =
    let halved : 2 ^ suc p / 2 ≡ 2 ^ p = omega (arith, pow_double p) in
    ap (λ v. test_bit v i) halved ∙ test_bit-pow p i ∙ ground arith

-- All bits below a width, and no other.
pub test_bit_ones : (w i : ℕ) → test_bit (2 ^ w - 1) i ≡ ltb i w
test_bit_ones zero i = test_bit_zero i ∙ ground arith
test_bit_ones (suc w) zero = ground (arith, pow_double w)
test_bit_ones (suc w) (suc i) =
    let halved : (2 ^ suc w - 1) / 2 ≡ 2 ^ w - 1 = omega (arith, pow_double w) in
    ap (λ v. test_bit v i) halved ∙ test_bit_ones w i ∙ ground arith

-- Numbers with the same bits are equal.
pub test_bit_ext :
    (fuel a b : ℕ) → a ≤ fuel → b ≤ fuel → ((i : ℕ) → test_bit a i ≡ test_bit b i) → a ≡ b
test_bit_ext zero a b p q h = omega arith
test_bit_ext (suc fuel) a b p q h =
    let low = h 0 in
    let high = test_bit_ext fuel (a / 2) (b / 2) (omega arith) (omega arith) (λ i. h (suc i)) in
    ground arith

-- A number without bits from a width on is below the power of the width.
pub lt_of_bits : (w a : ℕ) → ((i : ℕ) → w ≤ i → test_bit a i ≡ false) → a < 2 ^ w
lt_of_bits zero a h =
    let none_set : a ≡ 0 =
      test_bit_ext a a 0 (omega arith) (omega arith)
        (λ i. h i (omega arith) ∙ sym (test_bit_zero i)) in
    omega (arith, none_set)
lt_of_bits (suc w) a h =
    let half : a / 2 < 2 ^ w = lt_of_bits w (a / 2) (λ i p. h (suc i) (omega (arith, p))) in
    omega (arith, half, pow_double w)

-- And the other way.
pub test_bit-lt : (w a i : ℕ) → a < 2 ^ w → w ≤ i → test_bit a i ≡ false
test_bit-lt zero a i h p =
    let none_set : a ≡ 0 = omega (arith, h) in ap (λ v. test_bit v i) none_set ∙ test_bit_zero i
test_bit-lt (suc w) a zero h p = absurd (omega (arith, p))
test_bit-lt (suc w) a (suc i) h p =
    test_bit-lt w (a / 2) i (omega (arith, h, pow_double w)) (omega (arith, p))

-- The complement of a number in a width.
pub test_bit_complement :
    (w a i : ℕ) → a < 2 ^ w → i < w → test_bit (2 ^ w - 1 - a) i ≡ not (test_bit a i)
test_bit_complement zero a i h p = absurd (omega (arith, p))
test_bit_complement (suc w) a zero h p = ground (arith, pow_double w)
test_bit_complement (suc w) a (suc i) h p =
    let halved : (2 ^ suc w - 1 - a) / 2 ≡ 2 ^ w - 1 - a / 2 = omega (arith, h, pow_double w) in
    ap (λ v. test_bit v i) halved
    ∙ test_bit_complement w (a / 2) i (omega (arith, h, pow_double w)) (omega (arith, p))

one_bit : (a p i : ℕ) → (test_bit a i && p == i) ≡ test_bit (if test_bit a p then 2 ^ p else 0) i
one_bit a p i = elim (Bool-cases (p == i)) [
  | inl same ↦
      let place : p ≡ i = (==_iff p i).0 same in
      let here : test_bit a i ≡ test_bit a p = ap (test_bit a) (sym place) in
      ground (arith, here, test_bit-pow p i, test_bit_zero i)
  | inr other ↦ ground (arith, test_bit-pow p i, test_bit_zero i)
]

-- A mask of one bit tests it.
pub bit_and-pow : (a p : ℕ) → bit_and a (2 ^ p) ≡ (if test_bit a p then 2 ^ p else 0)
bit_and-pow a p =
    let result : ℕ = if test_bit a p then 2 ^ p else 0 in
    test_bit_ext (bit_and a (2 ^ p) + result) (bit_and a (2 ^ p)) result (omega arith) (omega arith)
      (λ i.
        test_bit-bit_and a (2 ^ p) i
        ∙ ap (λ t. test_bit a i && t) (test_bit-pow p i)
        ∙ one_bit a p i)
