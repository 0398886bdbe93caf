-- ===== src/Prelude/Decimal.antt =====
-- `std::to_string` and `std::from_chars` for a 64-bit signed integer.
use Prim.Native.Nat.{ℕ, zero, suc, ◌+◌, ◌-◌, ◌*◌, ◌/◌, ◌%◌, ◌^◌, ◌≤◌, ◌<◌}
use mathlib.Core.Path.{◌≡◌, refl, sym, ap, ◌∙◌}
use mathlib.Core.Logic.{inl, inr}
use mathlib.Core.Bool.{true, false}
use mathlib.Core.List.{[], ◌∷◌, ◌++◌}
use native.Mathlib.Omega.{arith}
use aniparse.Prelude.Tests.{ltb, leb, ltb→lt, lt→ltb, le→leb, ◌==◌, if◌then◌else◌, Bool-cases}
use aniparse.Prelude.Lists.{All, All-append}
use aniparse.Prelude.ByteStrings.{Bytes, is_digit}
use aniparse.Prelude.Int.{ℤ, pos, negsuc, neg, abs}

-- The decimal digits, on enough fuel.
unfoldable pub digits : ℕ → ℕ → Bytes
digits zero n = []
digits (suc f) n =
    let front = digits f (n / 10) ++ (b'0' + n % 10) ∷ [] in
    if ltb n 10 then (b'0' + n) ∷ [] else front

unfoldable pub decimal : ℕ → Bytes
decimal n = digits (n + 1) n

unfoldable pub to_string : ℤ → Bytes
to_string (pos n) = decimal n
to_string (negsuc n) = b'-' ∷ decimal (suc n)

-- The value of the digits at the front.
unfoldable pub read_digits : ℕ → Bytes → ℕ
read_digits acc [] = acc
read_digits acc (c ∷ s) =
    let rest = read_digits (acc * 10 + (c - b'0')) s in if is_digit c then rest else acc

-- What `from_chars` leaves in a value that was 0: nothing is written when there are no digits or
-- the number does not fit.
unfoldable pub from_chars : Bytes → ℤ
from_chars [] = pos 0
from_chars (c ∷ s) =
    if c == b'-'
    then (if leb (read_digits 0 s) (2 ^ 63) then neg (read_digits 0 s) else pos 0)
    else if ltb (read_digits 0 (c ∷ s)) (2 ^ 63)
    then pos (read_digits 0 (c ∷ s))
    else pos 0

AllDigits : Bytes → Type 0
AllDigits = All (λ c. is_digit c ≡ true)

digit-printable : (c : ℕ) → is_digit c ≡ true → b'-' ≤ c
unfolding is_digit
digit-printable c h = ground arith

digits-printable : (s : Bytes) → AllDigits s → All (λ c. b'-' ≤ c) s
unfolding AllDigits
digits-printable [] h = tt
digits-printable (c ∷ s) h = (digit-printable c h.0, digits-printable s h.1)

read_digits-concat :
    (xs : Bytes) (acc d : ℕ)
    → AllDigits xs
    → is_digit d ≡ true
    → read_digits acc (xs ++ d ∷ []) ≡ read_digits acc xs * 10 + (d - b'0')
unfolding read_digits AllDigits
read_digits-concat [] acc d h hd = rw hd refl
read_digits-concat (c ∷ xs) acc d h hd =
    rw h.0 (read_digits-concat xs (acc * 10 + (c - b'0')) d h.1 hd)

digit-is_digit : (n : ℕ) → n < 10 → is_digit (b'0' + n) ≡ true
unfolding is_digit
digit-is_digit n h = ground arith

digits-AllDigits : (f n : ℕ) → AllDigits (digits f n)
unfolding digits AllDigits
digits-AllDigits zero n = tt
digits-AllDigits (suc f) n = elim (Bool-cases (ltb n 10)) [
  | inl small ↦ rw small (digit-is_digit n (ltb→lt n 10 small), tt)
  | inr big ↦ rw big (
      All-append (λ c. is_digit c ≡ true) (digits f (n / 10)) _ (digits-AllDigits f (n / 10))
        (digit-is_digit (n % 10) (omega arith), tt))
]

read_digits-digits : (f n : ℕ) → n < f → read_digits 0 (digits f n) ≡ n
unfolding digits
read_digits-digits zero n h = absurd (omega arith)
read_digits-digits (suc f) n h = elim (Bool-cases (ltb n 10)) [
  | inl small ↦
      rw small (unfold read_digits in rw (digit-is_digit n (ltb→lt n 10 small)) (omega arith))
  | inr big ↦ rw big (
      read_digits-concat (digits f (n / 10)) 0 (b'0' + n % 10) (digits-AllDigits f (n / 10))
        (digit-is_digit (n % 10) (omega arith))
      ∙ rw (read_digits-digits f (n / 10) (ground arith)) (omega arith))
]

decimal-head :
    (f n : ℕ) → n < f → (c : ℕ) × (s : Bytes) × (digits f n ≡ c ∷ s) × (is_digit c ≡ true)
unfolding digits
decimal-head zero n h = absurd (omega arith)
decimal-head (suc f) n h = elim (Bool-cases (ltb n 10)) [
  | inl small ↦ (b'0' + n, [], rw small refl, digit-is_digit n (ltb→lt n 10 small))
  | inr big ↦
      let (c, s, e, d) = decimal-head f (n / 10) (ground arith) in
      (c, s ++ (b'0' + n % 10) ∷ [], rw (big, e) refl, d)
]

is_digit-ne-minus : (c : ℕ) → is_digit c ≡ true → (c == b'-') ≡ false
unfolding is_digit
is_digit-ne-minus c h = ground arith

from_chars-decimal : (n : ℕ) → n < 2 ^ 63 → from_chars (decimal n) ≡ pos n
unfolding decimal
from_chars-decimal n h =
    let (c, s, e, d) = decimal-head (n + 1) n (omega arith) in
    let value : read_digits 0 (c ∷ s) ≡ n =
      ap (read_digits 0) (sym e) ∙ read_digits-digits (n + 1) n (omega arith) in
    rw e (unfold from_chars in rw (is_digit-ne-minus c d, value, lt→ltb n (2 ^ 63) h) refl)

-- Reading back a printed integer of 64 bits.
pub from_chars-to_string : (z : ℤ) → abs z < 2 ^ 63 → from_chars (to_string z) ≡ z
unfolding to_string
from_chars-to_string (pos n) h = from_chars-decimal n h
from_chars-to_string (negsuc n) h =
    let value : read_digits 0 (decimal (suc n)) ≡ suc n =
      unfold decimal in read_digits-digits (suc n + 1) (suc n) (omega arith) in
    unfold from_chars in rw (value, le→leb (suc n) (2 ^ 63) (omega arith)) refl

-- No byte of a printed integer is below `-`, so it holds no white space.
pub to_string-printable : (z : ℤ) → All (λ c. b'-' ≤ c) (to_string z)
unfolding to_string decimal
to_string-printable (pos n) = digits-printable (digits (n + 1) n) (digits-AllDigits (n + 1) n)
to_string-printable (negsuc n) = (
  omega arith,
  digits-printable (digits (suc n + 1) (suc n)) (digits-AllDigits (suc n + 1) (suc n)),
)
