-- ===== src/Bitset.antt =====
-- `BitsetLite` (include/aniparse/detail/BitsetLite.hpp) of `n` bits in words of `w` bits, and
-- `StrongBitset` over it, which forwards every operation. The array is the list of its words.
mod Arrays
pub mod Operators
pub mod Positions
mod Places
pub mod Queries
pub mod Equality
mod Tests
use aniparse.Prelude.{
  ℕ, ◌+◌, ◌-◌, ◌/◌, ◌%◌, ◌^◌, Bool, true, false, not, ◌&&◌, ◌||◌, List, ◌∷◌, ◌++◌, map, Option,
  none, some, ◌==◌, leb, bytes_eq, any_of, all_of, if◌then◌else◌, get_or, set, take, drop,
  replicate,
}
use Prim.Native.Nat.{bit_and, bit_or, bit_xor}

abbrev pub Words : Type 0
Words = List ℕ

unfoldable pub combine : (ℕ → ℕ → ℕ) → Words → Words → Words
combine f (x ∷ xs) (y ∷ ys) = f x y ∷ combine f xs ys
combine f xs ys = xs

module _ (n w : ℕ) where
  unfoldable pub word_count : ℕ
  word_count = if n == 0 then 0 else (n - 1) / w + 1

  abbrev pub all_ones_word : ℕ
  all_ones_word = 2 ^ w - 1

  abbrev pub last_word_bits : ℕ
  last_word_bits = n % w

  unfoldable pub last_word_mask : ℕ
  last_word_mask = if last_word_bits == 0 then all_ones_word else 2 ^ last_word_bits - 1

  -- The array has a word also when there are no bits.
  abbrev pub array_size : ℕ
  array_size = if word_count == 0 then 1 else word_count

  -- The default constructor.
  unfoldable pub blank : Words
  blank = replicate array_size 0

  -- The constructor from a word.
  unfoldable pub from_word : ℕ → Words
  from_word value =
      if n == 0
      then blank
      else if leb n w
      then set blank 0 (bit_and value last_word_mask)
      else set blank 0 value

  unfoldable pub get_bit : ℕ → Words → Bool
  get_bit at array = not (bit_and (get_or array (at / w) 0) (2 ^ (at % w)) == 0)

  unfoldable pub set_nothrow : ℕ → Bool → Words → Words
  set_nothrow at value array =
      let word = get_or array (at / w) 0 in
      let new_bit = 2 ^ (at % w) in
      set array (at / w)
        (if value then bit_or word new_bit else bit_and word (all_ones_word - new_bit))

  -- `set(pos, value)`, `reset(pos)` and `test(pos)`; `none` is `std::out_of_range`.
  unfoldable pub set_bit : ℕ → Bool → Words → Option Words
  set_bit at value array = if leb n at then none else some (set_nothrow at value array)

  unfoldable pub reset_bit : ℕ → Words → Option Words
  reset_bit at array = if leb n at then none else some (set_nothrow at false array)

  unfoldable pub test : ℕ → Words → Option Bool
  test at array = if leb n at then none else some (get_bit at array)

  -- `std::fill` on the words that are counted.
  unfoldable pub set_all : Words → Words
  set_all array = replicate word_count all_ones_word ++ drop word_count array

  unfoldable pub reset_all : Words → Words
  reset_all array = replicate word_count 0 ++ drop word_count array

  unfoldable pub all : Words → Bool
  all array =
      if n == 0
      then true
      else all_of (λ word. word == all_ones_word) (take (word_count - 1) array)
        && bit_and (get_or array (word_count - 1) 0) last_word_mask == last_word_mask

  unfoldable pub any : Words → Bool
  any array =
      if n == 0
      then false
      else any_of (λ word. not (word == 0)) (take (word_count - 1) array)
        || not (bit_and (get_or array (word_count - 1) 0) last_word_mask == 0)

  unfoldable pub none_set : Words → Bool
  none_set array = not (any array)

  unfoldable pub equal : Words → Words → Bool
  equal left right = bytes_eq (take word_count left) (take word_count right)

  -- `std::transform` on the words that are counted.
  unfoldable pub transform : (ℕ → ℕ → ℕ) → Words → Words → Words
  transform f left right = if word_count == 0 then left else combine f left right

  unfoldable pub or_assign : Words → Words → Words
  or_assign left right = transform bit_or left right

  unfoldable pub and_assign : Words → Words → Words
  and_assign left right = transform bit_and left right

  unfoldable pub xor_assign : Words → Words → Words
  xor_assign left right = transform bit_xor left right

  -- The operator on a copy of the left operand or on a temporary, and on a temporary at the right.
  unfoldable pub or_of : Words → Words → Words
  or_of left right = or_assign left right

  unfoldable pub or_of_right : Words → Words → Words
  or_of_right left right = or_assign right left

  unfoldable pub and_of : Words → Words → Words
  and_of left right = and_assign left right

  unfoldable pub and_of_right : Words → Words → Words
  and_of_right left right = and_assign right left

  unfoldable pub xor_of : Words → Words → Words
  xor_of left right = xor_assign left right

  unfoldable pub xor_of_right : Words → Words → Words
  xor_of_right left right = xor_assign right left

  unfoldable pub complement : Words → Words
  complement array =
      if word_count == 0 then blank else map (λ word. bit_xor word all_ones_word) array

  unfoldable pub to_ullong : Words → ℕ
  to_ullong array =
      if n == 0
      then 0
      else if leb n w
      then bit_and (get_or array 0 0) last_word_mask
      else get_or array 0 0

  -- `StrongBitset::has`
  unfoldable pub has : Words → Words → Bool
  has flags values = equal (and_assign flags values) values
