-- ===== src/Bitset/Equality.antt =====
-- `==` and `has`, and the sets on which they compare what `test` reads.
use aniparse.Prelude.{
  ℕ, zero, suc, ◌+◌, ◌-◌, ◌*◌, ◌/◌, ◌%◌, ◌^◌, ◌<◌, Bool, true, false, [], ◌∷◌, ◌++◌, ◌≡◌, refl, ap,
  sym, ◌∙◌, ◌≢◌, ◌↔◌, inl, inr, arith, ◌==◌, ==_iff, ltb, ltb→lt, bytes_eq_iff, Bool-cases, length,
  get_or, take, drop, replicate,
}
use mathlib.Core.Path.{subst}
use Prim.Native.Nat.{bit_and, bit_or, bit_xor}
use native.Mathlib.Nat.{mod-lt, div-add-mod'}
use aniparse.Prelude.Bits.{test_bit, test_bit_ones, test_bit_ext, test_bit-lt, pow_double}
use aniparse.Bitset.{
  Words, word_count, get_bit, set_nothrow, set_all, or_assign, and_assign, xor_assign, transform,
  equal, has,
}
use aniparse.Bitset.Positions.{
  IsBitset, get_bit-test_bit, position-lt, word-lt, set_nothrow-IsBitset, combine-IsBitset,
  get_bit-operators,
}
use aniparse.Bitset.Places.{rest, filled, parts, AtBits, of_positions}
use aniparse.Bitset.Arrays.{
  All-get_or, get_or-set, get_or-combine, written, written-lt, pow-lt, and-lt, or-lt, xor-lt,
}

-- Arrays of one length with the same words are equal.
words_ext :
    (a b : Words)
    → length a ≡ length b
    → ((q : ℕ) → q < length a → get_or a q 0 ≡ get_or b q 0)
    → a ≡ b
words_ext [] [] h f = refl
words_ext [] (y ∷ b) h f = absurd (omega (arith, h))
words_ext (x ∷ a) [] h f = absurd (omega (arith, h))
words_ext (x ∷ a) (y ∷ b) h f =
    let here = f 0 (omega arith) in
    let there = words_ext a b (omega (arith, h)) (λ q l. f (suc q) (omega (arith, l))) in cc

-- Words below a power of two with the same bits below it are equal.
same_bits :
    (k x y : ℕ) → x < 2 ^ k → y < 2 ^ k → ((i : ℕ) → i < k → test_bit x i ≡ test_bit y i) → x ≡ y
same_bits k x y h h' f = test_bit_ext (x + y) x y (omega arith) (omega arith) (λ i.
    elim (Bool-cases (ltb i k)) [
      | inl low ↦ f i (ltb→lt i k low)
      | inr high ↦ ground (arith, test_bit-lt k x i h, test_bit-lt k y i h')
    ])

get_or-take : (k v q : ℕ) (tail : Words) → q < k → get_or (take k (replicate k v ++ tail)) q 0 ≡ v
get_or-take zero v q tail h = absurd (omega (arith, h))
get_or-take (suc k) v zero tail h = refl
get_or-take (suc k) v (suc q) tail h = get_or-take k v q tail (omega (arith, h))

take-length : (a : Words) (k : ℕ) → length a ≡ k → take k a ≡ a
take-length [] zero h = refl
take-length [] (suc k) h = refl
take-length (x ∷ a) zero h = absurd (omega (arith, h))
take-length (x ∷ a) (suc k) h = ap (◌∷◌ x) (take-length a k (omega (arith, h)))

get_or-replicate : (k v q : ℕ) (tail : Words) → q < k → get_or (replicate k v ++ tail) q 0 ≡ v
get_or-replicate zero v q tail h = absurd (omega (arith, h))
get_or-replicate (suc k) v zero tail h = refl
get_or-replicate (suc k) v (suc q) tail h = get_or-replicate k v q tail (omega (arith, h))

module _ (n w : ℕ) (wide : 0 < w) (some_bit : 0 < n) where
  -- No bit of the last word is set above those that count.
  pub record IsClean (a : Words) : Type 0 where
    pub valid : IsBitset n w wide a
    pub trimmed : get_or a ((n - 1) / w) 0 < 2 ^ rest n w wide some_bit

  small_word : (a : Words) → IsClean a → (q : ℕ) → get_or a q 0 < 2 ^ w
  small_word a clean q = All-get_or (2 ^ w) a q (pow_double w).1 clean.valid.words

  counted : (a : Words) → IsClean a → length a ≡ word_count n w
  counted a clean = ground (arith, clean.valid.sized, filled n w wide some_bit)

  module _ (a : Words) (clean : IsClean a) (b : Words) (clean' : IsClean b) where
    abbrev AgreeAt : ℕ → ℕ → Type 0
    AgreeAt q i = test_bit (get_or a q 0) i ≡ test_bit (get_or b q 0) i

    same_word :
        AtBits n w wide some_bit AgreeAt
        → (q : ℕ) → q < word_count n w
        → get_or a q 0 ≡ get_or b q 0
    same_word (full, last) q h = elim (Bool-cases (ltb q ((n - 1) / w))) [
      | inl before ↦
          same_bits w (get_or a q 0) (get_or b q 0) (small_word a clean q) (small_word b clean' q)
            (λ i l. full q i (ltb→lt q ((n - 1) / w) before) l)
      | inr final ↦
          let here : q ≡ (n - 1) / w = ground (arith, h, filled n w wide some_bit) in
          rw here (
            same_bits (rest n w wide some_bit) (get_or a ((n - 1) / w) 0) (get_or b ((n - 1) / w) 0)
              clean.trimmed clean'.trimmed last)
    ]

    equal_iff : (equal n w a b ≡ true) ↔ ((at : ℕ) → at < n → get_bit n w at a ≡ get_bit n w at b)
    unfolding equal
    equal_iff =
        rw
          (
            take-length a (word_count n w) (counted a clean),
            take-length b (word_count n w) (counted b clean'),
          )
          ((
            (λ e at h. ap (get_bit n w at) ((bytes_eq_iff a b).0 e)),
            λ f. (bytes_eq_iff a b).1 (
                words_ext a b (counted a clean ∙ sym (counted b clean')) (λ q l.
                  same_word
                    (of_positions n w wide some_bit AgreeAt (λ at h.
                      sym (get_bit-test_bit n w wide at a)
                      ∙ f at h
                      ∙ get_bit-test_bit n w wide at b))
                    q (omega (arith, l, counted a clean)))),
          ))

  -- Where the last word is not full, a set after `set()` reads the same at every position below
  -- `n` as any set without bits above the last position in which every position is set, and is not
  -- equal to it.
  pub equal-set_all :
      (a : Words)
      → IsBitset n w wide a
      → (b : Words) → IsClean b
      → n % w ≢ 0
      → ((at : ℕ) → at < n → get_bit n w at b ≡ true)
      → ((at : ℕ) → at < n → get_bit n w at (set_all n w a) ≡ get_bit n w at b)
        × (equal n w (set_all n w a) b ≡ false)
  unfolding equal set_all
  equal-set_all a valid b clean odd full = (
    (λ at h.
        get_bit-test_bit n w wide at (set_all n w a)
        ∙ ap (λ x. test_bit x (at % w))
            (get_or-replicate (word_count n w) (2 ^ w - 1) (at / w) (drop (word_count n w) a)
              (word-lt n w wide at h))
        ∙ ground (arith, test_bit_ones w (at % w), mod-lt at wide)
        ∙ sym (full at h)),
    elim (Bool-cases (equal n w (set_all n w a) b)) [
      | inl same ↦
          let words =
            (bytes_eq_iff (take (word_count n w) (set_all n w a)) (take (word_count n w) b)).0
              same in
          let inside : (n - 1) / w < word_count n w = omega (arith, filled n w wide some_bit) in
          let last : 2 ^ w - 1 ≡ get_or b ((n - 1) / w) 0 =
            sym (
              get_or-take (word_count n w) (2 ^ w - 1) ((n - 1) / w) (drop (word_count n w) a)
                inside)
            ∙ ap (λ x. get_or x ((n - 1) / w) 0) words
            ∙ ap (λ x. get_or x ((n - 1) / w) 0)
                (take-length b (word_count n w) (counted b clean)) in
          absurd (ground (arith, last, clean.trimmed, pow-lt (n % w) w (mod-lt n wide)))
      | inr differ ↦ differ
    ],
  )

  module _ (a : Words) (clean : IsClean a) where
    set_nothrow-IsClean : (at : ℕ) (v : Bool) → at < n → IsClean (set_nothrow n w at v a)
    unfolding set_nothrow
    set_nothrow-IsClean at v h =
        let k = rest n w wide some_bit in
        let word = get_or a (at / w) 0 in
        let inside = position-lt n w wide a clean.valid at h in
        record {
          valid = set_nothrow-IsBitset n w wide a clean.valid at v h;
          trimmed =
              subst (λ x. x < 2 ^ k)
                (sym (get_or-set a (at / w) ((n - 1) / w) (written w (at % w) v word) inside))
                (elim (Bool-cases (at / w == (n - 1) / w)) [
                  | inl same ↦
                      let here : at / w ≡ (n - 1) / w = (==_iff (at / w) ((n - 1) / w)).0 same in
                      let whole : (n - 1) / w * w + at % w ≡ at =
                        ap (λ t. t * w + at % w) (sym here) ∙ div-add-mod' at w in
                      let counts : at % w < k = omega (arith, whole, parts n w wide some_bit, h) in
                      rw same (
                        written-lt w (at % w) k word v counts
                          (subst (λ q. get_or a q 0 < 2 ^ k) (sym here) clean.trimmed))
                  | inr other ↦ rw other clean.trimmed
                ]);
        }

    module _ (b : Words) (clean' : IsClean b) where
      combine-IsClean :
          (f : ℕ → ℕ → ℕ)
          → ((k x y : ℕ) → x < 2 ^ k → y < 2 ^ k → f x y < 2 ^ k)
          → IsClean (transform n w f a b)
      unfolding transform
      combine-IsClean f small =
          let some_word : (word_count n w == 0) ≡ false =
            ground (arith, filled n w wide some_bit) in
          let inside : (n - 1) / w < length a =
            omega (arith, filled n w wide some_bit, counted a clean) in
          let inside' : (n - 1) / w < length b =
            omega (arith, filled n w wide some_bit, counted b clean') in
          record {
            valid = combine-IsBitset n w wide a clean.valid b clean'.valid f (small w);
            trimmed = rw some_word (
                subst (λ x. x < 2 ^ rest n w wide some_bit)
                  (sym (get_or-combine f a b ((n - 1) / w) inside inside'))
                  (small (rest n w wide some_bit) (get_or a ((n - 1) / w) 0)
                    (get_or b ((n - 1) / w) 0) clean.trimmed clean'.trimmed));
          }

      -- Writing a position below `n`, and the binary operators on two sets without bits above the
      -- last position, give a set without bits above it.
      pub operations-IsClean :
          ((at : ℕ) (v : Bool) → at < n → IsClean (set_nothrow n w at v a))
          × IsClean (or_assign n w a b)
          × IsClean (and_assign n w a b)
          × IsClean (xor_assign n w a b)
      unfolding or_assign and_assign xor_assign
      operations-IsClean = (
        set_nothrow-IsClean,
        combine-IsClean bit_or (λ k x y. or-lt k x y),
        combine-IsClean bit_and (λ k x y. and-lt k x y),
        combine-IsClean bit_xor (λ k x y. xor-lt k x y),
      )

      has_iff :
          (has n w a b ≡ true)
          ↔ ((at : ℕ) → at < n → get_bit n w at b ≡ true → get_bit n w at a ≡ true)
      unfolding has
      has_iff =
          let both : IsClean (and_assign n w a b) = operations-IsClean.2 in
          let (agree, equals) = equal_iff (and_assign n w a b) both b clean' in
          let reads = get_bit-operators n w wide a clean.valid b clean'.valid in
          (
            (λ e at h set. ground (arith, agree e at h, (reads at h).1)),
            λ f. equals (λ at h. ground (arith, (reads at h).1, f at h)),
          )

      -- Of two sets without bits above the last position: `==` is true exactly when every position
      -- below `n` reads the same, and `has` exactly when every one set in the second is set in the
      -- first.
      pub compare_iff :
          ((equal n w a b ≡ true) ↔ ((at : ℕ) → at < n → get_bit n w at a ≡ get_bit n w at b))
          × ((has n w a b ≡ true)
              ↔ ((at : ℕ) → at < n → get_bit n w at b ≡ true → get_bit n w at a ≡ true))
      compare_iff = (equal_iff a clean b clean', has_iff)
