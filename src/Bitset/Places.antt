-- ===== src/Bitset/Places.antt =====
-- Positions below `n` as a word and a bit of it.
use aniparse.Prelude.{
  ℕ, suc, ◌+◌, ◌-◌, ◌*◌, ◌/◌, ◌%◌, ◌^◌, ◌<◌, ◌≡◌, ap, sym, ◌∙◌, inl, inr, arith, ◌==◌, ==_iff, ltb,
  ltb→lt, if◌then◌else◌, Bool-cases,
}
use mathlib.Core.Path.{subst}
use native.Mathlib.Nat.{
  mod-lt, div-add-mod', mul-add-div_right, div-eq_of_lt, suc-mul, mul-le-mul_right,
}
use aniparse.Bitset.{word_count, last_word_mask}
use aniparse.Bitset.Positions.{word-lt}

pub place_lem : (q w r : ℕ) → r < w → ((q * w + r) / w ≡ q) × ((q * w + r) % w ≡ r)
place_lem q w r h =
    let quotient : (q * w + r) / w ≡ q =
      mul-add-div_right (omega (arith, h)) q r ∙ ap (◌+◌ q) (div-eq_of_lt h) ∙ omega arith in
    let whole : q * w + (q * w + r) % w ≡ q * w + r =
      ap (λ t. t * w + (q * w + r) % w) (sym quotient) ∙ div-add-mod' (q * w + r) w in
    (quotient, omega (arith, whole))

module _ (n w : ℕ) (wide : 0 < w) (some_bit : 0 < n) where
  -- The bits of the last word that count.
  abbrev pub rest : ℕ
  rest = if n % w == 0 then w else n % w

  pub last-rest : last_word_mask n w ≡ 2 ^ rest - 1
  unfolding last_word_mask
  last-rest = ground arith

  pub filled : (word_count n w - 1 ≡ (n - 1) / w) × (0 < word_count n w)
  unfolding word_count
  filled = ground arith

  -- The words before the last are whole, and the rest of the bits is in the last.
  pub parts : n ≡ (n - 1) / w * w + rest
  parts =
      let last : (n - 1) / w * w + (n - 1) % w ≡ n - 1 = div-add-mod' (n - 1) w in
      elim (Bool-cases (suc ((n - 1) % w) == w)) [
        | inl full ↦
            let e : n ≡ suc ((n - 1) / w) * w + 0 = omega (
              arith,
              suc-mul ((n - 1) / w) w,
              last,
              (==_iff (suc ((n - 1) % w)) w).0 full,
              some_bit,
            ) in
            let exact : n % w ≡ 0 =
              ap (λ t. t % w) e ∙ (place_lem (suc ((n - 1) / w)) w 0 wide).1 in
            ground (arith, last, exact, ==_iff (suc ((n - 1) % w)) w)
        | inr partial ↦
            let e : n ≡ (n - 1) / w * w + suc ((n - 1) % w) = omega (arith, last, some_bit) in
            let below : suc ((n - 1) % w) < w =
              ground (arith, mod-lt (n - 1) wide, ==_iff (suc ((n - 1) % w)) w) in
            let exact : n % w ≡ suc ((n - 1) % w) =
              ap (λ t. t % w) e ∙ (place_lem ((n - 1) / w) w (suc ((n - 1) % w)) below).1 in
            ground (arith, last, exact)
      ]

  module _ (P : ℕ → ℕ → Type 0) where
    -- What holds at every bit of the words before the last and at the rest of the last.
    abbrev pub AtBits : Type 0
    AtBits =
        ((q i : ℕ) → q < (n - 1) / w → i < w → P q i) × ((i : ℕ) → i < rest → P ((n - 1) / w) i)

    -- A position below `n` is in a word before the last or in the rest of the last.
    pub to_positions : AtBits → (at : ℕ) → at < n → P (at / w) (at % w)
    to_positions (full, last) at h = elim (Bool-cases (ltb (at / w) ((n - 1) / w))) [
      | inl before ↦ full (at / w) (at % w) (ltb→lt (at / w) ((n - 1) / w) before) (mod-lt at wide)
      | inr final ↦
          let here : at / w ≡ (n - 1) / w = ground (arith, word-lt n w wide at h, filled) in
          let whole : (n - 1) / w * w + at % w ≡ at =
            ap (λ t. t * w + at % w) (sym here) ∙ div-add-mod' at w in
          subst (λ q. P q (at % w)) (sym here) (last (at % w) (omega (arith, whole, parts, h)))
    ]

    pub of_positions : ((at : ℕ) → at < n → P (at / w) (at % w)) → AtBits
    of_positions f = (
      (λ q i l k. at_place q i k (inside q l i k)),
      λ i k. at_place ((n - 1) / w) i (ground (arith, mod-lt n wide, k)) (omega (arith, parts, k)),
    )
      where
        inside : (q : ℕ) → q < (n - 1) / w → (i : ℕ) → i < w → q * w + i < n
        inside q l i k = omega (
          arith,
          suc-mul q w,
          mul-le-mul_right {m = suc q} {n = (n - 1) / w} w (omega (arith, l)),
          div-add-mod' (n - 1) w,
          some_bit,
        )

        at_place : (q i : ℕ) → i < w → q * w + i < n → P q i
        at_place q i k inside =
            let (quotient, remainder) = place_lem q w i k in
            subst (λ t. P q t) remainder
              (subst (λ t. P t ((q * w + i) % w)) quotient (f (q * w + i) inside))
