-- ===== src/Bitset/Arrays.antt =====
-- The array of a bit set word by word, and its words bit by bit.
use aniparse.Prelude.{
  ℕ, zero, suc, ◌-◌, ◌^◌, ◌<◌, Bool, true, false, [], ◌∷◌, map, ◌≡◌, refl, ap, ◌∙◌, arith, ◌==◌,
  if◌then◌else◌, length, get_or, set, All,
}
use Prim.Native.Nat.{bit_and, bit_or, bit_xor}
use aniparse.Prelude.Bits.{
  test_bit, test_bit-bit_and, test_bit-bit_or, test_bit-bit_xor, test_bit-pow, test_bit_complement,
  lt_of_bits, test_bit-lt,
}
use aniparse.Bitset.{Words, combine}

pub get_or-set :
    (a : Words) (i j v : ℕ)
    → i < length a
    → get_or (set a i v) j 0 ≡ (if i == j then v else get_or a j 0)
get_or-set [] i j v h = absurd (omega (arith, h))
get_or-set (x ∷ a) zero zero v h = refl
get_or-set (x ∷ a) zero (suc j) v h = ground arith
get_or-set (x ∷ a) (suc i) zero v h = ground arith
get_or-set (x ∷ a) (suc i) (suc j) v h = get_or-set a i j v (omega (arith, h)) ∙ ground arith

pub get_or-combine :
    (f : ℕ → ℕ → ℕ) (a b : Words) (i : ℕ)
    → i < length a
    → i < length b
    → get_or (combine f a b) i 0 ≡ f (get_or a i 0) (get_or b i 0)
unfolding combine
get_or-combine f [] b i h k = absurd (omega (arith, h))
get_or-combine f (x ∷ a) [] i h k = absurd (omega (arith, k))
get_or-combine f (x ∷ a) (y ∷ b) zero h k = refl
get_or-combine f (x ∷ a) (y ∷ b) (suc i) h k =
    get_or-combine f a b i (omega (arith, h)) (omega (arith, k))

pub get_or-map :
    (f : ℕ → ℕ) (a : Words) (i : ℕ) → i < length a → get_or (map f a) i 0 ≡ f (get_or a i 0)
get_or-map f [] i h = absurd (omega (arith, h))
get_or-map f (x ∷ a) zero h = refl
get_or-map f (x ∷ a) (suc i) h = get_or-map f a i (omega (arith, h))

pub All-get_or :
    (bound : ℕ) (a : Words) (i : ℕ) → 0 < bound → All (λ x. x < bound) a → get_or a i 0 < bound
All-get_or bound [] i h all = h
All-get_or bound (x ∷ a) zero h all = all.0
All-get_or bound (x ∷ a) (suc i) h all = All-get_or bound a i h all.1

pub pow-lt : (k w : ℕ) → k < w → 2 ^ k < 2 ^ w
pow-lt k w h = lt_of_bits w (2 ^ k) (λ i p. test_bit-pow k i ∙ ground arith)

-- A word after one bit of it is written.
abbrev pub written : ℕ → ℕ → Bool → ℕ → ℕ
written w k v word = if v then bit_or word (2 ^ k) else bit_and word (2 ^ w - 1 - 2 ^ k)

pub test_bit-written :
    (w k j word : ℕ) (v : Bool)
    → k < w
    → j < w
    → test_bit (written w k v word) j ≡ (if k == j then v else test_bit word j)
test_bit-written w k j word true h p =
    ground (arith, test_bit-bit_or word (2 ^ k) j, test_bit-pow k j)
test_bit-written w k j word false h p = ground (
  arith,
  test_bit-bit_and word (2 ^ w - 1 - 2 ^ k) j,
  test_bit_complement w (2 ^ k) j (pow-lt k w h) p,
  test_bit-pow k j,
)

pub written-lt : (w k b word : ℕ) (v : Bool) → k < b → word < 2 ^ b → written w k v word < 2 ^ b
written-lt w k b word true h small = lt_of_bits b (bit_or word (2 ^ k)) (λ i p.
    ground (arith, test_bit-bit_or word (2 ^ k) i, test_bit-lt b word i small p, test_bit-pow k i))
written-lt w k b word false h small = lt_of_bits b (bit_and word (2 ^ w - 1 - 2 ^ k)) (λ i p.
    ground (arith, test_bit-bit_and word (2 ^ w - 1 - 2 ^ k) i, test_bit-lt b word i small p))

pub length-set : (words : Words) (place word : ℕ) → length (set words place word) ≡ length words
length-set [] place word = refl
length-set (w ∷ words) zero word = refl
length-set (w ∷ words) (suc place) word = ap suc (length-set words place word)

pub length-map : (f : ℕ → ℕ) (a : Words) → length (map f a) ≡ length a
length-map f [] = refl
length-map f (x ∷ a) = ap suc (length-map f a)

pub length-combine :
    (f : ℕ → ℕ → ℕ) (a b : Words) → length a ≡ length b → length (combine f a b) ≡ length a
unfolding combine
length-combine f [] b h = refl
length-combine f (x ∷ a) [] h = refl
length-combine f (x ∷ a) (y ∷ b) h = ap suc (length-combine f a b (omega (arith, h)))

pub All-map :
    (f : ℕ → ℕ) (bound : ℕ) (a : Words)
    → ((x : ℕ) → x < bound → f x < bound)
    → All (λ x. x < bound) a
    → All (λ x. x < bound) (map f a)
All-map f bound [] small all = tt
All-map f bound (x ∷ a) small all = (small x all.0, All-map f bound a small all.1)

pub All-combine :
    (f : ℕ → ℕ → ℕ) (bound : ℕ) (a b : Words)
    → ((x y : ℕ) → x < bound → y < bound → f x y < bound)
    → All (λ x. x < bound) a
    → All (λ x. x < bound) b
    → All (λ x. x < bound) (combine f a b)
unfolding combine
All-combine f bound [] b small all all' = tt
All-combine f bound (x ∷ a) [] small all all' = all
All-combine f bound (x ∷ a) (y ∷ b) small all all' =
    (small x y all.0 all'.0, All-combine f bound a b small all.1 all'.1)

module _ (w x y : ℕ) (small : x < 2 ^ w) (small' : y < 2 ^ w) where
  pub and-lt : bit_and x y < 2 ^ w
  and-lt =
      lt_of_bits w (bit_and x y)
        (λ i p. ground (arith, test_bit-bit_and x y i, test_bit-lt w x i small p))

  pub or-lt : bit_or x y < 2 ^ w
  or-lt = lt_of_bits w (bit_or x y) (λ i p.
      ground (arith, test_bit-bit_or x y i, test_bit-lt w x i small p, test_bit-lt w y i small' p))

  pub xor-lt : bit_xor x y < 2 ^ w
  xor-lt = lt_of_bits w (bit_xor x y) (λ i p.
      ground (arith, test_bit-bit_xor x y i, test_bit-lt w x i small p, test_bit-lt w y i small' p))
