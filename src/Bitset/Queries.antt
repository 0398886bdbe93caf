-- ===== src/Bitset/Queries.antt =====
-- `all`, `any` and `none` against the positions below `n`.
use aniparse.Prelude.{
  ℕ, zero, suc, ◌+◌, ◌-◌, ◌/◌, ◌^◌, ◌≤◌, ◌<◌, Bool, true, false, not, ◌&&◌, ◌||◌, [], ◌∷◌, ◌≡◌,
  refl, ap, sym, ◌∙◌, ◌↔◌, inl, inr, arith, ◌==◌, ==_iff, ltb, ltb→lt, any_of, all_of, Bool-cases,
  length, get_or, take, back,
}
use Prim.Native.Nat.{bit_and}
use aniparse.Prelude.Bits.{
  test_bit, test_bit-bit_and, test_bit_ones, test_bit_ext, test_bit-lt, pow_double, test_bit_zero,
}
use aniparse.Bitset.{Words, get_bit, all, any}
use aniparse.Bitset.Positions.{IsBitset, get_bit-test_bit}
use aniparse.Bitset.Places.{rest, last-rest, filled, AtBits, to_positions, of_positions}
use aniparse.Bitset.Arrays.{All-get_or}

-- The bits of a word below `k` all have the value `v`.
abbrev Uniform : Bool → ℕ → ℕ → Type 0
Uniform v k x = (i : ℕ) → i < k → test_bit x i ≡ v

masked_ones : (k x : ℕ) → (bit_and x (2 ^ k - 1) ≡ 2 ^ k - 1) ↔ Uniform true k x
masked_ones k x = (
  (λ e i h.
      ground
        (arith, test_bit-bit_and x (2 ^ k - 1) i, test_bit_ones k i, ap (λ t. test_bit t i) e)),
  λ ones.
      test_bit_ext (bit_and x (2 ^ k - 1) + (2 ^ k - 1)) (bit_and x (2 ^ k - 1)) (2 ^ k - 1)
        (omega arith) (omega arith)
        (λ i. elim (Bool-cases (ltb i k)) [
          | inl low ↦
              ground (
                arith,
                test_bit-bit_and x (2 ^ k - 1) i,
                test_bit_ones k i,
                ones i (ltb→lt i k low),
              )
          | inr high ↦ ground (arith, test_bit-bit_and x (2 ^ k - 1) i, test_bit_ones k i)
        ]),
)

masked_zeros : (k x : ℕ) → (bit_and x (2 ^ k - 1) ≡ 0) ↔ Uniform false k x
masked_zeros k x = (
  (λ e i h. ground (
    arith,
    test_bit-bit_and x (2 ^ k - 1) i,
    test_bit_ones k i,
    ap (λ t. test_bit t i) e,
    test_bit_zero i,
  )),
  λ zeros.
      test_bit_ext (bit_and x (2 ^ k - 1)) (bit_and x (2 ^ k - 1)) 0 (omega arith) (omega arith)
        (λ i. elim (Bool-cases (ltb i k)) [
          | inl low ↦
              ground
                (arith, test_bit-bit_and x (2 ^ k - 1) i, test_bit_zero i, zeros i (ltb→lt i k low))
          | inr high ↦
              ground (arith, test_bit-bit_and x (2 ^ k - 1) i, test_bit_ones k i, test_bit_zero i)
        ]),
)

-- The mask of a whole word changes nothing.
whole : (w x : ℕ) → x < 2 ^ w → bit_and x (2 ^ w - 1) ≡ x
whole w x small =
    test_bit_ext (bit_and x (2 ^ w - 1) + x) (bit_and x (2 ^ w - 1)) x (omega arith) (omega arith)
      (λ i. elim (Bool-cases (ltb i w)) [
        | inl low ↦ ground (arith, test_bit-bit_and x (2 ^ w - 1) i, test_bit_ones w i)
        | inr high ↦
            ground
              (arith, test_bit-bit_and x (2 ^ w - 1) i, test_bit_ones w i, test_bit-lt w x i small)
      ])

all_of-take :
    (p : ℕ → Bool) (k : ℕ) (a : Words)
    → k ≤ length a
    → (all_of p (take k a) ≡ true) ↔ ((q : ℕ) → q < k → p (get_or a q 0) ≡ true)
unfolding all_of
all_of-take p zero a h = ((λ e q l. absurd (omega (arith, l))), λ f. refl)
all_of-take p (suc k) [] h = absurd (omega (arith, h))
all_of-take p (suc k) (x ∷ a) h =
    let (there, back) = all_of-take p k a (omega (arith, h)) in
    (
      (λ e q l. at_place e there q l),
      λ f. ground (arith, f 0 (omega arith), back (λ q l. f (suc q) (omega (arith, l)))),
    )
  where
    at_place :
        (p x && all_of p (take k a)) ≡ true
        → (all_of p (take k a) ≡ true → (q : ℕ) → q < k → p (get_or a q 0) ≡ true)
        → (q : ℕ) → q < suc k
        → p (get_or (x ∷ a) q 0) ≡ true
    at_place e there zero l = ground arith
    at_place e there (suc q) l = there (ground arith) q (omega (arith, l))

any_of-take :
    (p : ℕ → Bool) (k : ℕ) (a : Words)
    → any_of p (take k a) ≡ not (all_of (λ x. not (p x)) (take k a))
unfolding all_of any_of
any_of-take p zero a = refl
any_of-take p (suc k) [] = refl
any_of-take p (suc k) (x ∷ a) = ground (arith, any_of-take p k a)

module _ (n w : ℕ) (wide : 0 < w) (some_bit : 0 < n) (a : Words) (valid : IsBitset n w wide a) where
  abbrev bits : ℕ
  bits = rest n w wide some_bit

  abbrev HasBit : Bool → ℕ → ℕ → Type 0
  HasBit v q i = test_bit (get_or a q 0) i ≡ v

  uniform_bit :
      (v : Bool) → AtBits n w wide some_bit (HasBit v) → (at : ℕ) → at < n → get_bit n w at a ≡ v
  uniform_bit v all at h =
      get_bit-test_bit n w wide at a ∙ to_positions n w wide some_bit (HasBit v) all at h

  uniform_words :
      (v : Bool) → ((at : ℕ) → at < n → get_bit n w at a ≡ v) → AtBits n w wide some_bit (HasBit v)
  uniform_words v f =
      of_positions n w wide some_bit (HasBit v)
        (λ at h. sym (get_bit-test_bit n w wide at a) ∙ f at h)

  small : (q : ℕ) → get_or a q 0 < 2 ^ w
  small q = All-get_or (2 ^ w) a q (pow_double w).1 valid.words

  within_array : (n - 1) / w ≤ length a
  within_array = ground (arith, filled n w wide some_bit, valid.sized)

  ones_iff : (q : ℕ) → ((get_or a q 0 == 2 ^ w - 1) ≡ true) ↔ Uniform true w (get_or a q 0)
  ones_iff q = ground (
    arith,
    masked_ones w (get_or a q 0),
    whole w (get_or a q 0) (small q),
    ==_iff (get_or a q 0) (2 ^ w - 1),
  )

  zeros_iff : (q : ℕ) → (not (not (get_or a q 0 == 0)) ≡ true) ↔ Uniform false w (get_or a q 0)
  zeros_iff q = ground (
    arith,
    masked_zeros w (get_or a q 0),
    whole w (get_or a q 0) (small q),
    ==_iff (get_or a q 0) 0,
  )

  abbrev last_word : ℕ
  last_word = get_or a ((n - 1) / w) 0

  all_lem : all n w a ≡ (
      all_of (λ x. x == 2 ^ w - 1) (take ((n - 1) / w) a)
      && bit_and last_word (2 ^ bits - 1) == 2 ^ bits - 1)
  unfolding all
  all_lem = rw (last-rest n w wide some_bit, (filled n w wide some_bit).0) (ground arith)

  any_lem : any n w a ≡ (
      not (all_of (λ x. not (not (x == 0))) (take ((n - 1) / w) a))
      || not (bit_and last_word (2 ^ bits - 1) == 0))
  unfolding any
  any_lem =
      rw (last-rest n w wide some_bit, (filled n w wide some_bit).0)
        (ground (arith, any_of-take (λ x. not (x == 0)) ((n - 1) / w) a))

  all_iff : (all n w a ≡ true) ↔ ((at : ℕ) → at < n → get_bit n w at a ≡ true)
  all_iff =
      let (front, front') = all_of-take (λ x. x == 2 ^ w - 1) ((n - 1) / w) a within_array in
      let (last, last') = masked_ones bits last_word in
      let test_lem = ==_iff (bit_and last_word (2 ^ bits - 1)) (2 ^ bits - 1) in
      (
        (λ e. uniform_bit true (
          (λ q i l. (ones_iff q).0 (front (ground (arith, all_lem)) q l) i),
          last (ground (arith, all_lem)),
        )),
        λ f.
            let (fronts, lasts) = uniform_words true f in
            let here = front' (λ q l. (ones_iff q).1 (λ i. fronts q i l)) in
            let there = last' lasts in ground (arith, all_lem),
      )

  any_iff : (any n w a ≡ false) ↔ ((at : ℕ) → at < n → get_bit n w at a ≡ false)
  any_iff =
      let (front, front') = all_of-take (λ x. not (not (x == 0))) ((n - 1) / w) a within_array in
      let (last, last') = masked_zeros bits last_word in
      let test_lem = ==_iff (bit_and last_word (2 ^ bits - 1)) 0 in
      (
        (λ e. uniform_bit false (
          (λ q i l. (zeros_iff q).0 (front (ground (arith, any_lem)) q l) i),
          last (ground (arith, any_lem)),
        )),
        λ f.
            let (fronts, lasts) = uniform_words false f in
            let here = front' (λ q l. (zeros_iff q).1 (λ i. fronts q i l)) in
            let there = last' lasts in ground (arith, any_lem),
      )

  -- Where there are positions, `all` is true exactly when every position below `n` is set, and
  -- `any` is false exactly when every one is clear.
  pub queries_iff :
      ((all n w a ≡ true) ↔ ((at : ℕ) → at < n → get_bit n w at a ≡ true))
      × ((any n w a ≡ false) ↔ ((at : ℕ) → at < n → get_bit n w at a ≡ false))
  queries_iff = (all_iff, any_iff)
