-- ===== src/JsParser/Transcode/Idempotence.antt =====
-- What a second run of `normalize_js_to_json` does.
use aniparse.Prelude.{
  ℕ, false, ◌&&◌, ◌||◌, [], ◌∷◌, ◌≡◌, refl, ap, inl, inr, arith, ◌==◌, ==_iff, Bytes, if◌then◌else◌,
  Bool-cases,
}
use aniparse.JsParser.{next_is}
use aniparse.JsParser.Transcode.{
  normalize, normalize_double, normalize_single, normalize_line, normalize_block,
}
use aniparse.JsParser.Transcode.Characters.{
  normalize-quote, normalize-apostrophe, normalize-plain, double_end, double_escape, double_plain,
  block_plain, single_end, single_quote, single_escape, single_apostrophe, single_plain, line_step,
  slash_step, next_is-normalize, next_is-block,
}

-- One character of each loop, run twice, from the second run on what is left.
module _ (c d : ℕ) (s : Bytes) where
  double-double_step :
      normalize (normalize (d ∷ s)) ≡ normalize (d ∷ s)
      → normalize_double (normalize_double (d ∷ s)) ≡ normalize_double (d ∷ s)
      → normalize_double (normalize_double s) ≡ normalize_double s
      → normalize_double (normalize_double (c ∷ d ∷ s)) ≡ normalize_double (c ∷ d ∷ s)
  double-double_step outside others after = elim (Bool-cases (c == 92)) [
    | inl backslash ↦
        let same : c ≡ 92 = ground (arith, ==_iff c 92) in
        rw same (cc (double_escape d s, double_escape d (normalize_double s), after))
    | inr p ↦ elim (Bool-cases (c == 34)) [
      | inl quote ↦
          let same : c ≡ 34 = ground (arith, ==_iff c 34) in
          rw same (cc (double_end (d ∷ s), double_end (normalize (d ∷ s)), outside))
      | inr q ↦
          cc (double_plain c (d ∷ s) p q, double_plain c (normalize_double (d ∷ s)) p q, others)
    ]
  ]

  double-single_step :
      normalize (normalize (d ∷ s)) ≡ normalize (d ∷ s)
      → normalize_double (normalize_single (d ∷ s)) ≡ normalize_single (d ∷ s)
      → normalize_double (normalize_single s) ≡ normalize_single s
      → normalize_double (normalize_single (c ∷ d ∷ s)) ≡ normalize_single (c ∷ d ∷ s)
  double-single_step outside others after = elim (Bool-cases (c == 92)) [
    | inl backslash ↦
        let same : c ≡ 92 = ground (arith, ==_iff c 92) in
        rw same elim (Bool-cases (d == 39)) [
          | inl apostrophe ↦
              let same_too : d ≡ 39 = ground (arith, ==_iff d 39) in
              rw same_too
                (cc (single_apostrophe s, double_plain 39 (normalize_single s) refl refl, after))
          | inr p ↦ cc (single_escape d s p, double_escape d (normalize_single s), after)
        ]
    | inr p ↦ elim (Bool-cases (c == 39)) [
      | inl apostrophe ↦
          let same : c ≡ 39 = ground (arith, ==_iff c 39) in
          rw same (cc (single_end (d ∷ s), double_end (normalize (d ∷ s)), outside))
      | inr q ↦ elim (Bool-cases (c == 34)) [
        | inl quote ↦
            let same : c ≡ 34 = ground (arith, ==_iff c 34) in
            rw same (cc (single_quote (d ∷ s), double_escape 34 (normalize_single (d ∷ s)), others))
        | inr r ↦
            cc (single_plain c (d ∷ s) p q r, double_plain c (normalize_single (d ∷ s)) p r, others)
      ]
    ]
  ]

  block-block_step :
      normalize (normalize s) ≡ normalize s
      → normalize_block (normalize_block (d ∷ s)) ≡ normalize_block (d ∷ s)
      → normalize_block (normalize_block (c ∷ d ∷ s)) ≡ normalize_block (c ∷ d ∷ s)
  block-block_step outside others = elim (Bool-cases (c == b'*' && d == b'/')) [
    | inl ending ↦
        let star : c ≡ b'*' = ground (arith, ==_iff c b'*') in
        let slash : d ≡ b'/' = ground (arith, ==_iff d b'/') in
        rw (star, slash) (cc ((slash_step s).2, (slash_step (normalize s)).2, outside))
    | inr p ↦
        let next : (c == b'*' && next_is b'/' (normalize_block (d ∷ s))) ≡ false =
          rw (next_is-block b'/' (d ∷ s)) p in
        cc (block_plain c (d ∷ s) p, block_plain c (normalize_block (d ∷ s)) next, others)
  ]

  normalize-normalize_step :
      normalize (normalize (d ∷ s)) ≡ normalize (d ∷ s)
      → normalize_double (normalize_double (d ∷ s)) ≡ normalize_double (d ∷ s)
      → normalize_double (normalize_single (d ∷ s)) ≡ normalize_single (d ∷ s)
      → normalize_line (normalize_line s) ≡ normalize_line s
      → normalize_block (normalize_block s) ≡ normalize_block s
      → normalize (normalize (c ∷ d ∷ s)) ≡ normalize (c ∷ d ∷ s)
  normalize-normalize_step others string quoted line block = elim (Bool-cases (c == 34)) [
    | inl quote ↦
        let same : c ≡ 34 = ground (arith, ==_iff c 34) in
        rw same (cc (normalize-quote (d ∷ s), normalize-quote (normalize_double (d ∷ s)), string))
    | inr p ↦ elim (Bool-cases (c == 39)) [
      | inl apostrophe ↦
          let same : c ≡ 39 = ground (arith, ==_iff c 39) in
          rw same
            (cc (normalize-apostrophe (d ∷ s), normalize-quote (normalize_single (d ∷ s)), quoted))
      | inr q ↦ elim (Bool-cases (c == b'/' && d == b'/')) [
        | inl comment ↦
            let same : c ≡ b'/' = ground (arith, ==_iff c b'/') in
            let same_too : d ≡ b'/' = ground (arith, ==_iff d b'/') in
            rw (same, same_too) (cc ((slash_step s).0, (slash_step (normalize_line s)).0, line))
        | inr no_line ↦ elim (Bool-cases (c == b'/' && d == b'*')) [
          | inl comment ↦
              let same : c ≡ b'/' = ground (arith, ==_iff c b'/') in
              let same_too : d ≡ b'*' = ground (arith, ==_iff d b'*') in
              rw (same, same_too) (cc ((slash_step s).1, (slash_step (normalize_block s)).1, block))
          | inr no_block ↦
              let first : (c == b'/' && (next_is b'/' (d ∷ s) || next_is b'*' (d ∷ s))) ≡ false =
                ground (arith, no_line, no_block) in
              let again : (c == b'/'
                    && (next_is b'/' (normalize (d ∷ s)) || next_is b'*' (normalize (d ∷ s))))
                  ≡ false =
                rw
                  (
                    next_is-normalize b'/' (d ∷ s) refl refl,
                    next_is-normalize b'*' (d ∷ s) refl refl,
                  )
                  first in
              cc (
                normalize-plain c (d ∷ s) p q first,
                normalize-plain c (normalize (d ∷ s)) p q again,
                others,
              )
        ]
      ]
    ]
  ]

-- At most one character.
module _ (c : ℕ) where
  normalize-normalize_char : normalize (normalize (c ∷ [])) ≡ normalize (c ∷ [])
  unfolding normalize
  normalize-normalize_char = ground arith

  double-single_char : normalize_double (normalize_single (c ∷ [])) ≡ normalize_single (c ∷ [])
  unfolding normalize
  double-single_char = ground arith

  copied_char : (normalize_double (c ∷ []) ≡ c ∷ []) × (normalize_block (c ∷ []) ≡ c ∷ [])
  unfolding normalize
  copied_char = (refl, refl)

nothing :
    (normalize [] ≡ [])
    × (normalize_double [] ≡ [])
    × (normalize_single [] ≡ [])
    × (normalize_line [] ≡ [])
    × (normalize_block [] ≡ [])
unfolding normalize
nothing = (refl, refl, refl, refl, refl)

mutual
  normalize_twice : (s : Bytes) → normalize (normalize s) ≡ normalize s
  normalize_twice [] = cc (nothing.0)
  normalize_twice (c ∷ []) = normalize-normalize_char c
  normalize_twice (c ∷ d ∷ s) =
      normalize-normalize_step c d s (normalize_twice (d ∷ s)) (double-double (d ∷ s))
        (double-single (d ∷ s)) (line-line s) (block-block s)

  double-double : (s : Bytes) → normalize_double (normalize_double s) ≡ normalize_double s
  double-double [] = cc (nothing.1)
  double-double (c ∷ []) = cc ((copied_char c).0)
  double-double (c ∷ d ∷ s) =
      double-double_step c d s (normalize_twice (d ∷ s)) (double-double (d ∷ s)) (double-double s)

  double-single : (s : Bytes) → normalize_double (normalize_single s) ≡ normalize_single s
  double-single [] = cc (nothing.1, nothing.2)
  double-single (c ∷ []) = double-single_char c
  double-single (c ∷ d ∷ s) =
      double-single_step c d s (normalize_twice (d ∷ s)) (double-single (d ∷ s)) (double-single s)

  line-line : (s : Bytes) → normalize_line (normalize_line s) ≡ normalize_line s
  line-line [] = cc (nothing.3)
  line-line (c ∷ s) =
      rw (line_step c s, line_step c (if c == 10 then normalize s else normalize_line s))
        (ap (◌∷◌ c) (ground (arith, normalize_twice s, line-line s)))

  block-block : (s : Bytes) → normalize_block (normalize_block s) ≡ normalize_block s
  block-block [] = cc (nothing.4)
  block-block (c ∷ []) = cc ((copied_char c).1)
  block-block (c ∷ d ∷ s) = block-block_step c d s (normalize_twice s) (block-block (d ∷ s))

-- Normalizing what was normalized changes nothing, whether strings and comments end or not.
pub normalize-normalize : (s : Bytes) → normalize (normalize s) ≡ normalize s
normalize-normalize = normalize_twice
