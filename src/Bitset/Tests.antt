-- ===== src/Bitset/Tests.antt =====
-- Sets of 10 bits in words of 4.
use aniparse.Prelude.{ℕ, ◌<◌, true, false, [], ◌∷◌, ◌≡◌, refl, arith, all_of}
use aniparse.Bitset.{
  Words, blank, from_word, word_count, get_bit, set_nothrow, set_bit, test, set_all, or_assign,
  and_assign, xor_assign, complement, or_of_right, or_of, and_of, and_of_right, xor_of,
  xor_of_right, to_ullong, all, any, equal, has,
}
use aniparse.Bitset.Positions.{IsBitset}
use aniparse.Bitset.Queries.{queries_iff}
use aniparse.Bitset.Equality.{IsClean, equal-set_all}

abbrev left : Words
left = 5 ∷ 0 ∷ 2 ∷ []

abbrev right : Words
right = 1 ∷ 8 ∷ 2 ∷ []

abbrev full : Words
full = 15 ∷ 15 ∷ 3 ∷ []

wide : 0 < 4
wide = omega arith

left-IsBitset : IsBitset 10 4 wide left
unfolding aniparse.Bitset.word_count
left-IsBitset = record { sized = refl; words = ground arith }

right-IsBitset : IsBitset 10 4 wide right
unfolding aniparse.Bitset.word_count
right-IsBitset = record { sized = refl; words = ground arith }

full-IsBitset : IsBitset 10 4 wide full
unfolding aniparse.Bitset.word_count
full-IsBitset = record { sized = refl; words = ground arith }

some_bit : 0 < 10
some_bit = omega arith

left-IsClean : IsClean 10 4 wide some_bit left
left-IsClean = record { valid = left-IsBitset; trimmed = omega arith }

right-IsClean : IsClean 10 4 wide some_bit right
right-IsClean = record { valid = right-IsBitset; trimmed = omega arith }

full-IsClean : IsClean 10 4 wide some_bit full
full-IsClean = record { valid = full-IsBitset; trimmed = omega arith }

full-all : all 10 4 full ≡ true
unfolding aniparse.Bitset.all aniparse.Bitset.word_count aniparse.Bitset.last_word_mask all_of
full-all = refl

full_bits : (at : ℕ) → at < 10 → get_bit 10 4 at full ≡ true
full_bits = (queries_iff 10 4 wide some_bit full full-IsBitset).0.0 full-all

equal-set_all_example :
    ((at : ℕ) → at < 10 → get_bit 10 4 at (set_all 10 4 left) ≡ get_bit 10 4 at full)
    × (equal 10 4 (set_all 10 4 left) full ≡ false)
equal-set_all_example =
    equal-set_all 10 4 wide some_bit left left-IsBitset full full-IsClean
      (λ e. absurd (omega (arith, e))) full_bits
