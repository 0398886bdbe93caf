-- ===== src/Bitset/Positions.antt =====
-- Every operation as one on the set of positions below `n`.
use aniparse.Prelude.{
  ℕ, ◌+◌, ◌-◌, ◌*◌, ◌/◌, ◌%◌, ◌^◌, ◌≤◌, ◌<◌, Bool, false, not, ◌&&◌, ◌||◌, map, ◌≡◌, refl, ap, sym,
  ◌∙◌, inl, inr, arith, ◌==◌, ==_iff, if◌then◌else◌, Bool-cases, length, get_or, ◌>>=◌, leb, none,
  some, All, All-set,
}
use Prim.Native.Nat.{bit_and, bit_or, bit_xor}
use native.Mathlib.Nat.{mod-lt, div-add-mod', le-div_iff_mul-le, div-mul-le_self}
use aniparse.Prelude.Bits.{
  test_bit, xor, test_bit-bit_and, test_bit-bit_or, test_bit-bit_xor, test_bit_ones, bit_and-pow,
  pow_double,
}
use aniparse.Bitset.{
  Words, combine, word_count, array_size, blank, get_bit, set_nothrow, set_bit, test, or_assign,
  and_assign, xor_assign, complement, transform,
}
use aniparse.Bitset.Arrays.{
  get_or-set, get_or-combine, get_or-map, All-get_or, written, test_bit-written, written-lt,
  length-set, length-map, length-combine, All-map, All-combine, xor-lt,
}

module _ (n w : ℕ) (wide : 0 < w) where
  pub get_bit-test_bit :
      (at : ℕ) (a : Words) → get_bit n w at a ≡ test_bit (get_or a (at / w) 0) (at % w)
  unfolding get_bit
  get_bit-test_bit at a =
      ground (arith, bit_and-pow (get_or a (at / w) 0) (at % w), pow_double (at % w))

  -- The word of a position is one of the array.
  pub word-lt : (at : ℕ) → at < n → at / w < word_count n w
  unfolding word_count
  word-lt at h =
      let fewer : at / w ≤ (n - 1) / w =
        (le-div_iff_mul-le wide).1 (omega (arith, h, div-mul-le_self at w)) in
      ground arith

  same_place : (at p : ℕ) → (at == p) ≡ (at / w == p / w && at % w == p % w)
  same_place at p = elim (Bool-cases (at == p)) [
    | inl same ↦ let e : at ≡ p = (==_iff at p).0 same in rw e (ground arith)
    | inr differ ↦ elim (Bool-cases (at / w == p / w && at % w == p % w)) [
      | inl both ↦
          let q : at / w ≡ p / w = ground (arith, ==_iff (at / w) (p / w)) in
          let r : at % w ≡ p % w = ground (arith, ==_iff (at % w) (p % w)) in
          let e : at ≡ p =
            sym (div-add-mod' at w)
            ∙ ap (λ t. t * w + at % w) q
            ∙ ap (λ t. p / w * w + t) r
            ∙ div-add-mod' p w in
          absurd (ground (arith, ==_iff at p))
      | inr either ↦ differ ∙ sym either
    ]
  ]

  -- An array of the size of the set, of words of the width.
  pub record IsBitset (a : Words) : Type 0 where
    pub sized : length a ≡ array_size n w
    pub words : All (λ word. word < 2 ^ w) a

  module _ (a : Words) (valid : IsBitset a) where
    pub position-lt : (at : ℕ) → at < n → at / w < length a
    position-lt at h = ground (arith, word-lt at h, valid.sized)

    -- After a bit below `n` is written, it reads as written, and every other reads as before.
    pub get_bit-set_nothrow :
        (at p : ℕ) (v : Bool)
        → at < n
        → get_bit n w p (set_nothrow n w at v a) ≡ (if at == p then v else get_bit n w p a)
    unfolding set_nothrow
    get_bit-set_nothrow at p v h =
        let inside : at / w < length a = position-lt at h in
        let word : ℕ = get_or a (at / w) 0 in
        get_bit-test_bit p (set_nothrow n w at v a)
        ∙ ap (λ x. test_bit x (p % w))
            (get_or-set a (at / w) (p / w) (written w (at % w) v word) inside)
        ∙ elim (Bool-cases (at / w == p / w)) [
          | inl same ↦
              let place : at / w ≡ p / w = (==_iff (at / w) (p / w)).0 same in
              let here : word ≡ get_or a (p / w) 0 = ap (λ i. get_or a i 0) place in
              ground (
                arith,
                here,
                same_place at p,
                get_bit-test_bit p a,
                test_bit-written w (at % w) (p % w) word v (mod-lt at wide) (mod-lt p wide),
              )
          | inr other ↦ ground (arith, same_place at p, get_bit-test_bit p a)
        ]

    -- Setting or clearing a position and then reading one below `n`: out of range it throws, else
    -- the position reads as written and every other reads as before.
    pub test-set_bit :
        (at p : ℕ) (v : Bool)
        → p < n
        → (set_bit n w at v a >>= test n w p)
          ≡ (if leb n at then none else some (if at == p then v else get_bit n w p a))
    unfolding set_bit test
    test-set_bit at p v h = elim (Bool-cases (leb n at)) [
      | inl out ↦ rw out refl
      | inr inside ↦ rw inside (ground (arith, get_bit-set_nothrow at p v (ground arith), h))
    ]

    pub set_nothrow-IsBitset : (at : ℕ) (v : Bool) → at < n → IsBitset (set_nothrow n w at v a)
    unfolding set_nothrow
    set_nothrow-IsBitset at v h =
        let word : ℕ = get_or a (at / w) 0 in
        let small : word < 2 ^ w = All-get_or (2 ^ w) a (at / w) (pow_double w).1 valid.words in
        record {
          sized = length-set a (at / w) (written w (at % w) v word) ∙ valid.sized;
          words =
              All-set (λ x. x < 2 ^ w) a (at / w) (written w (at % w) v word) valid.words
                (written-lt w (at % w) w word v (mod-lt at wide) small);
        }

    get_bit-complement :
        (at : ℕ) → at < n → get_bit n w at (complement n w a) ≡ not (get_bit n w at a)
    unfolding complement
    get_bit-complement at h =
        let some_word : (word_count n w == 0) ≡ false = ground (arith, word-lt at h) in
        let word : ℕ = get_or a (at / w) 0 in
        rw some_word (
          get_bit-test_bit at (map (λ x. bit_xor x (2 ^ w - 1)) a)
          ∙ ap (λ x. test_bit x (at % w))
              (get_or-map (λ x. bit_xor x (2 ^ w - 1)) a (at / w) (position-lt at h))
          ∙ test_bit-bit_xor word (2 ^ w - 1) (at % w)
          ∙ ground (arith, test_bit_ones w (at % w), mod-lt at wide, get_bit-test_bit at a))

    complement-IsBitset : IsBitset (complement n w a)
    unfolding complement blank
    complement-IsBitset = elim (Bool-cases (word_count n w == 0)) [
      | inl empty ↦ rw empty (record { sized = ground arith; words = ((pow_double w).1, tt) })
      | inr filled ↦ rw filled (record {
        sized = length-map (λ x. bit_xor x (2 ^ w - 1)) a ∙ valid.sized;
        words =
            All-map (λ x. bit_xor x (2 ^ w - 1)) (2 ^ w) a
              (λ x small. xor-lt w x (2 ^ w - 1) small (omega (arith, pow_double w))) valid.words;
      })
    ]

    module _ (b : Words) (valid' : IsBitset b) where
      get_bit-combine :
          (f : ℕ → ℕ → ℕ) (op : Bool → Bool → Bool)
          → ((x y i : ℕ) → test_bit (f x y) i ≡ op (test_bit x i) (test_bit y i))
          → (at : ℕ) → at < n
          → get_bit n w at (transform n w f a b) ≡ op (get_bit n w at a) (get_bit n w at b)
      unfolding transform
      get_bit-combine f op bits at h =
          let some_word : (word_count n w == 0) ≡ false = ground (arith, word-lt at h) in
          let there : at / w < length b = ground (arith, word-lt at h, valid'.sized) in
          rw some_word (
            get_bit-test_bit at (combine f a b)
            ∙ ap (λ x. test_bit x (at % w)) (get_or-combine f a b (at / w) (position-lt at h) there)
            ∙ bits (get_or a (at / w) 0) (get_or b (at / w) 0) (at % w)
            ∙ sym (
                ap (λ x. op x (get_bit n w at b)) (get_bit-test_bit at a)
                ∙ ap (op (test_bit (get_or a (at / w) 0) (at % w))) (get_bit-test_bit at b)))

      pub combine-IsBitset :
          (f : ℕ → ℕ → ℕ)
          → ((x y : ℕ) → x < 2 ^ w → y < 2 ^ w → f x y < 2 ^ w)
          → IsBitset (transform n w f a b)
      unfolding transform
      combine-IsBitset f small = elim (Bool-cases (word_count n w == 0)) [
        | inl empty ↦ rw empty valid
        | inr filled ↦ rw filled (record {
          sized = length-combine f a b (valid.sized ∙ sym valid'.sized) ∙ valid.sized;
          words = All-combine f (2 ^ w) a b small valid.words valid'.words;
        })
      ]

      -- Each operator on two sets is the operator on the bits of every position below `n`.
      pub get_bit-operators :
          (at : ℕ)
          → at < n
          → (get_bit n w at (or_assign n w a b) ≡ (get_bit n w at a || get_bit n w at b))
            × (get_bit n w at (and_assign n w a b) ≡ (get_bit n w at a && get_bit n w at b))
            × (get_bit n w at (xor_assign n w a b) ≡ xor (get_bit n w at a) (get_bit n w at b))
            × (get_bit n w at (complement n w a) ≡ not (get_bit n w at a))
      unfolding or_assign and_assign xor_assign
      get_bit-operators at h = (
        get_bit-combine bit_or ◌||◌ test_bit-bit_or at h,
        get_bit-combine bit_and ◌&&◌ test_bit-bit_and at h,
        get_bit-combine bit_xor xor test_bit-bit_xor at h,
        get_bit-complement at h,
      )
