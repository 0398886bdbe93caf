-- ===== src/Bitset/Operators.antt =====
-- The overloads of the binary operators, which take their operands as copies or as temporaries.
use aniparse.Prelude.{
  ℕ, ◌+◌, ◌<◌, Bool, true, false, ◌&&◌, ◌||◌, [], ◌∷◌, ◌≡◌, refl, sym, ◌∙◌, arith, ◌==◌, length,
}
use Prim.Native.Nat.{bit_and, bit_or, bit_xor}
use aniparse.Prelude.Bits.{
  test_bit, test_bit-bit_and, test_bit-bit_or, test_bit-bit_xor, test_bit_ext, xor,
}
use aniparse.Bitset.{
  Words, combine, word_count, transform, or_assign, and_assign, xor_assign, or_of, and_of, xor_of,
  or_of_right, and_of_right, xor_of_right,
}
use aniparse.Bitset.Positions.{IsBitset}

combine_comm :
    (f : ℕ → ℕ → ℕ) (a b : Words)
    → ((x y : ℕ) → f x y ≡ f y x)
    → length a ≡ length b
    → combine f a b ≡ combine f b a
unfolding combine
combine_comm f [] [] comm h = refl
combine_comm f [] (y ∷ b) comm h = absurd (omega (arith, h))
combine_comm f (x ∷ a) [] comm h = absurd (omega (arith, h))
combine_comm f (x ∷ a) (y ∷ b) comm h =
    let here = comm x y in let there = combine_comm f a b comm (omega (arith, h)) in cc

-- Operations whose bits are a commutative operation on bits.
comm_of_bits :
    (f : ℕ → ℕ → ℕ) (op : Bool → Bool → Bool)
    → ((x y i : ℕ) → test_bit (f x y) i ≡ op (test_bit x i) (test_bit y i))
    → ((s t : Bool) → op s t ≡ op t s)
    → (x y : ℕ) → f x y ≡ f y x
comm_of_bits f op bits comm x y =
    test_bit_ext (f x y + f y x) (f x y) (f y x) (omega arith) (omega arith)
      (λ i. bits x y i ∙ comm (test_bit x i) (test_bit y i) ∙ sym (bits y x i))

or_comm : (s t : Bool) → (s || t) ≡ (t || s)
or_comm true t = ground arith
or_comm false t = ground arith

and_comm : (s t : Bool) → (s && t) ≡ (t && s)
and_comm true t = ground arith
and_comm false t = ground arith

xor_comm : (s t : Bool) → xor s t ≡ xor t s
xor_comm true t = ground arith
xor_comm false t = ground arith

module _ (n w : ℕ) (wide : 0 < w) (a b : Words) (valid : IsBitset n w wide a)
    (valid' : IsBitset n w wide b) where
  same_length : length a ≡ length b
  same_length = valid.sized ∙ sym valid'.sized

  transform_comm :
      (f : ℕ → ℕ → ℕ)
      → (filled : (word_count n w == 0) ≡ false) → ((x y : ℕ) → f x y ≡ f y x)
      → transform n w f b a ≡ transform n w f a b
  unfolding transform
  transform_comm f filled comm = rw filled (combine_comm f b a comm (sym same_length))

  -- Where the set has bits, the overload that reuses a temporary at the right gives the result of
  -- the others.
  pub operators_right :
      0 < n
      → (or_of_right n w a b ≡ or_of n w a b)
        × (and_of_right n w a b ≡ and_of n w a b)
        × (xor_of_right n w a b ≡ xor_of n w a b)
  unfolding or_of_right and_of_right xor_of_right or_of and_of xor_of or_assign and_assign
      xor_assign word_count
  operators_right some_bit = (
    transform_comm bit_or (ground arith) (comm_of_bits bit_or ◌||◌ test_bit-bit_or or_comm),
    transform_comm bit_and (ground arith) (comm_of_bits bit_and ◌&&◌ test_bit-bit_and and_comm),
    transform_comm bit_xor (ground arith) (comm_of_bits bit_xor xor test_bit-bit_xor xor_comm),
  )
