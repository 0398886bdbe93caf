-- ===== src/JsParser/Transcode/Strings.antt =====
-- What the string literals that `normalize_js_to_json` rewrites denote.
use aniparse.Prelude.{
  ℕ, false, not, ◌&&◌, ◌||◌, List, [], ◌∷◌, Option, none, some, ◌≡◌, refl, inl, inr, arith, ◌==◌,
  ==_iff, Bytes, if◌then◌else◌, Bool-cases,
}
use aniparse.JsParser.Transcode.{normalize, normalize_single}
use aniparse.JsParser.Transcode.Characters.{
  normalize-apostrophe, single_end, single_quote, single_escape, single_apostrophe, single_plain,
}

-- A character of a string's value: itself, or what an escape stands for. An escaped quote is itself.
pub data Symbol : Type 0 where
  itself : ℕ → Symbol
  escape : ℕ → Symbol

unfoldable pub symbol_of : ℕ → Symbol
symbol_of d = if d == 34 || d == 39 then itself d else escape d

unfoldable pub prepend : Symbol → Option (List Symbol × Bytes) → Option (List Symbol × Bytes)
prepend a none = none
prepend a (some (value, rest)) = some (a ∷ value, rest)

-- The value of the string literal after its opening quote, and what follows the closing one. An escaped
-- apostrophe is no escape of JSON: in double quotes nothing is read there.
unfoldable pub read_string : ℕ → Bytes → Option (List Symbol × Bytes)
read_string quote [] = none
read_string quote (c ∷ []) = if not (c == 92) && c == quote then some ([], []) else none
read_string quote (c ∷ d ∷ rest) =
    let later = prepend (symbol_of d) (read_string quote rest) in
    let escaped = if quote == 34 && d == 39 then none else later in
    let others = prepend (itself c) (read_string quote (d ∷ rest)) in
    if c == 92 then escaped else if c == quote then some ([], d ∷ rest) else others

read_end : (s : Bytes) → read_string 34 (34 ∷ s) ≡ some ([], s)
unfolding read_string
read_end [] = refl
read_end (d ∷ s) = refl

read_plain :
    (c : ℕ) (s : Bytes)
    → (c == 92) ≡ false
    → (c == 34) ≡ false
    → read_string 34 (c ∷ s) ≡ prepend (itself c) (read_string 34 s)
unfolding read_string prepend
read_plain c [] p q = ground (arith, p, q)
read_plain c (d ∷ s) p q = ground (arith, p, q)

read_escape :
    (d : ℕ) (s : Bytes)
    → (d == 39) ≡ false
    → read_string 34 (92 ∷ d ∷ s) ≡ prepend (symbol_of d) (read_string 34 s)
unfolding read_string
read_escape d s p = ground (arith, p)

-- The value stays, and what follows is normalized in turn.
unfoldable pub followed : Option (List Symbol × Bytes) → Option (List Symbol × Bytes)
followed none = none
followed (some (value, rest)) = some (value, normalize rest)

followed-prepend :
    (a : Symbol) (o : Option (List Symbol × Bytes))
    → followed (prepend a o) ≡ prepend a (followed o)
unfolding followed prepend
followed-prepend a none = refl
followed-prepend a (some (value, rest)) = refl

apostrophe_symbol : symbol_of 39 ≡ itself 39
unfolding symbol_of
apostrophe_symbol = refl

quote_symbol : symbol_of 34 ≡ itself 34
unfolding symbol_of
quote_symbol = refl

-- The reader of the code's string, at a character before any rest.
apostrophe_end : (s : Bytes) → followed (read_string 39 (39 ∷ s)) ≡ some ([], normalize s)
unfolding read_string followed
apostrophe_end [] = refl
apostrophe_end (d ∷ s) = refl

apostrophe_plain :
    (c d : ℕ) (s : Bytes)
    → (c == 92) ≡ false
    → (c == 39) ≡ false
    → read_string 39 (c ∷ d ∷ s) ≡ prepend (itself c) (read_string 39 (d ∷ s))
unfolding read_string
apostrophe_plain c d s p q = ground (arith, p, q)

apostrophe_escape :
    (d : ℕ) (s : Bytes) → read_string 39 (92 ∷ d ∷ s) ≡ prepend (symbol_of d) (read_string 39 s)
unfolding read_string
apostrophe_escape d s = refl

read_string-single_char :
    (c : ℕ) → read_string 34 (normalize_single (c ∷ [])) ≡ followed (read_string 39 (c ∷ []))
unfolding read_string normalize followed prepend
read_string-single_char c = ground arith

module _ (c d : ℕ) (s : Bytes) where
  read_string-single_step :
      read_string 34 (normalize_single s) ≡ followed (read_string 39 s)
      → read_string 34 (normalize_single (d ∷ s)) ≡ followed (read_string 39 (d ∷ s))
      → read_string 34 (normalize_single (c ∷ d ∷ s)) ≡ followed (read_string 39 (c ∷ d ∷ s))
  read_string-single_step after others = elim (Bool-cases (c == 92)) [
    | inl backslash ↦
        let same : c ≡ 92 = ground (arith, ==_iff c 92) in
        let moved = followed-prepend (symbol_of d) (read_string 39 s) in
        rw same elim (Bool-cases (d == 39)) [
          | inl apostrophe ↦
              let same_too : d ≡ 39 = ground (arith, ==_iff d 39) in
              rw (apostrophe_escape d s, moved, same_too, single_apostrophe s)
                (cc (read_plain 39 (normalize_single s) refl refl, apostrophe_symbol, after))
          | inr other ↦ cc (
            apostrophe_escape d s,
            moved,
            single_escape d s other,
            read_escape d (normalize_single s) other,
            after,
          )
        ]
    | inr p ↦ elim (Bool-cases (c == 39)) [
      | inl apostrophe ↦
          let same : c ≡ 39 = ground (arith, ==_iff c 39) in
          rw same (cc (single_end (d ∷ s), read_end (normalize (d ∷ s)), apostrophe_end (d ∷ s)))
      | inr q ↦
          let moved = followed-prepend (itself c) (read_string 39 (d ∷ s)) in
          rw (apostrophe_plain c d s p q, moved)
            elim (Bool-cases (c == 34)) [
              | inl quote ↦
                  let same : c ≡ 34 = ground (arith, ==_iff c 34) in
                  rw (same, single_quote (d ∷ s))
                    (cc (read_escape 34 (normalize_single (d ∷ s)) refl, quote_symbol, others))
              | inr r ↦ cc (
                single_plain c (d ∷ s) p q r,
                read_plain c (normalize_single (d ∷ s)) p r,
                others,
              )
            ]
    ]
  ]

read_string-single : (s : Bytes) → read_string 34 (normalize_single s) ≡ followed (read_string 39 s)
unfolding read_string normalize followed
read_string-single [] = refl
read_string-single (c ∷ []) = read_string-single_char c
read_string-single (c ∷ d ∷ s) =
    read_string-single_step c d s (read_string-single s) (read_string-single (d ∷ s))

-- Normalizing a single-quoted string literal gives a double-quoted one that denotes the same value, in
-- which no apostrophe is escaped, before the normalization of what follows; a literal that does not
-- end stays one that does not.
pub normalize-string :
    (s : Bytes)
    → (t : Bytes) × (normalize (39 ∷ s) ≡ 34 ∷ t) × (read_string 34 t ≡ followed (read_string 39 s))
normalize-string s = (normalize_single s, normalize-apostrophe s, read_string-single s)
