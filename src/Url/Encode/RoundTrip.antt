-- ===== src/Url/Encode/RoundTrip.antt =====
-- Decoding undoes encoding, and does not see the encoding of a whole URI.
use aniparse.Prelude.{
  ℕ, zero, suc, ◌/◌, ◌%◌, ◌<◌, Bool, true, false, ◌&&◌, [], ◌∷◌, ◌++◌, Option, none, some, ◌≡◌,
  refl, ap, sym, ◌∙◌, inl, inr, arith, ◌==◌, ==_iff, Bytes, AreBytes, if◌then◌else◌, Bool-cases,
  Option-cases,
}
use aniparse.Url.Encode.{
  is_unreserved, is_reserved, is_uri_character, hex, percent, encode_by, url_encode, url_encode_uri,
  hex_digit, escaped, url_decode,
}

-- A check of every number below a bound.
every_byte : (ℕ → Bool) → ℕ → Bool
every_byte test zero = true
every_byte test (suc bound) = every_byte test bound && test bound

every_byte_lem :
    (test : ℕ → Bool) (bound : ℕ)
    → (c : ℕ) → every_byte test bound ≡ true
    → c < bound
    → test c ≡ true
unfolding every_byte
every_byte_lem test zero c passed small = absurd (omega (arith, small))
every_byte_lem test (suc bound) c passed small = ground (arith, every_byte_lem test bound c)

same_option : Option ℕ → ℕ → Bool
same_option none c = false
same_option (some a) c = a == c

same_option_eq : (o : Option ℕ) (c : ℕ) → same_option o c ≡ true → o ≡ some c
unfolding same_option
same_option_eq none c h = cc
same_option_eq (some a) c h = ap some ((==_iff a c).0 h)

escape_table :
    every_byte (λ c. same_option (escaped b'%' (hex (c / 16)) (hex (c % 16))) c) 256 ≡ true
unfolding every_byte same_option escaped hex hex_digit
escape_table = refl

-- The escape of a byte names it.
escaped-hex : (c : ℕ) → c < 256 → escaped b'%' (hex (c / 16)) (hex (c % 16)) ≡ some c
escaped-hex c h = same_option_eq _ c (every_byte_lem _ 256 c escape_table h)

url_decode-percent : (c : ℕ) (s : Bytes) → c < 256 → url_decode (percent c ++ s) ≡ c ∷ url_decode s
unfolding percent url_decode
url_decode-percent c s h = rw (escaped-hex c h, url_decode) refl

escaped_plain : (c a b : ℕ) → (c == b'%') ≡ false → escaped c a b ≡ none
unfolding escaped
escaped_plain c a b h = rw h

-- What is no `%` is copied.
url_decode_plain : (c : ℕ) (s : Bytes) → (c == b'%') ≡ false → url_decode (c ∷ s) ≡ c ∷ url_decode s
unfolding url_decode
url_decode_plain c [] h = refl
url_decode_plain c (a ∷ []) h = refl
url_decode_plain c (a ∷ b ∷ s) h = rw (escaped_plain c a b h, url_decode) refl

unreserved-ne-percent : (c : ℕ) → is_unreserved c ≡ true → (c == b'%') ≡ false
unfolding is_unreserved
unreserved-ne-percent c h = ground arith

-- Decoding what `url_encode` made of a string of bytes gives the string back.
pub url_decode-url_encode : (s : Bytes) → AreBytes s → url_decode (url_encode s) ≡ s
unfolding url_encode encode_by
url_decode-url_encode [] h = unfold url_decode in refl
url_decode-url_encode (c ∷ s) h = elim (Bool-cases (is_unreserved c)) [
  | inl plain ↦ rw plain (
      url_decode_plain c (encode_by is_unreserved s) (unreserved-ne-percent c plain)
      ∙ ap (◌∷◌ c) (url_decode-url_encode s h.1))
  | inr special ↦ rw special (
      url_decode-percent c (encode_by is_unreserved s) h.0
      ∙ ap (◌∷◌ c) (url_decode-url_encode s h.1))
]

hex-ne-uri : (a : ℕ) → is_uri_character a ≡ false → hex_digit a ≡ none
unfolding is_uri_character is_unreserved hex_digit
hex-ne-uri a h = ground arith

uri-ne-percent : (c : ℕ) → is_uri_character c ≡ false → (c == b'%') ≡ false
unfolding is_uri_character is_reserved
uri-ne-percent c h = ground arith

-- A `%` that begins no escape is copied.
url_decode-copies :
    (a b : ℕ) (s : Bytes)
    → escaped b'%' a b ≡ none
    → url_decode (b'%' ∷ a ∷ b ∷ s) ≡ b'%' ∷ url_decode (a ∷ b ∷ s)
unfolding url_decode
url_decode-copies a b s h = rw (h, url_decode) refl

escaped-percent : (a : ℕ) → escaped b'%' b'%' a ≡ none
unfolding escaped hex_digit
escaped-percent a = refl

escaped_percent_second : (a : ℕ) → escaped b'%' a b'%' ≡ none
unfolding escaped hex_digit
escaped_percent_second a = ground arith

escaped-uri :
    (a b v : ℕ)
    → escaped b'%' a b ≡ some v
    → (is_uri_character a ≡ true) × (is_uri_character b ≡ true)
unfolding escaped hex_digit is_uri_character is_unreserved
escaped-uri a b v h = ground arith

abbrev encoded_byte : ℕ → Bytes
encoded_byte c = if is_uri_character c then c ∷ [] else percent c

-- A `%` in front of what the encoder writes begins an escape only where it did before.
percent_stays :
    (a b : ℕ) (s : Bytes)
    → escaped b'%' a b ≡ none
    → url_decode (b'%' ∷ (encoded_byte a ++ (encoded_byte b ++ s)))
      ≡ b'%' ∷ url_decode (encoded_byte a ++ (encoded_byte b ++ s))
unfolding percent
percent_stays a b s h = elim (Bool-cases (is_uri_character a)) [
  | inl ua ↦ elim (Bool-cases (is_uri_character b)) [
    | inl ub ↦ rw (ua, ub) (url_decode-copies a b s h)
    | inr nb ↦ rw (ua, nb) (url_decode-copies a b'%' _ (escaped_percent_second a))
  ]
  | inr na ↦ rw na (url_decode-copies b'%' (hex (a / 16)) _ (escaped-percent (hex (a / 16))))
]

other_byte :
    (c : ℕ) (t : Bytes)
    → c < 256
    → (c == b'%') ≡ false
    → url_decode (encoded_byte c ++ t) ≡ c ∷ url_decode t
other_byte c t h ne = elim (Bool-cases (is_uri_character c)) [
  | inl u ↦ rw u (url_decode_plain c t ne)
  | inr n ↦ rw n (url_decode-percent c t h)
]

other_step :
    (c : ℕ) (s : Bytes)
    → c < 256
    → (c == b'%') ≡ false
    → url_decode (url_encode_uri s) ≡ url_decode s
    → url_decode (url_encode_uri (c ∷ s)) ≡ url_decode (c ∷ s)
unfolding url_encode_uri encode_by
other_step c s h ne e =
    other_byte c (encode_by is_uri_character s) h ne ∙ ap (◌∷◌ c) e ∙ sym (url_decode_plain c s ne)

percent_encoded : (s : Bytes) → url_encode_uri (b'%' ∷ s) ≡ b'%' ∷ url_encode_uri s
unfolding url_encode_uri encode_by is_uri_character is_unreserved is_reserved
percent_encoded s = refl

percent_one :
    (a : ℕ) → a < 256 → url_decode (b'%' ∷ url_encode_uri (a ∷ [])) ≡ url_decode (b'%' ∷ a ∷ [])
unfolding url_encode_uri encode_by
percent_one a h = elim (Bool-cases (is_uri_character a)) [
  | inl u ↦ rw u refl
  | inr n ↦ rw n (
      unfold percent in
      url_decode-copies b'%' (hex (a / 16)) (hex (a % 16) ∷ []) (escaped-percent (hex (a / 16)))
      ∙ ap (◌∷◌ b'%') (url_decode-percent a [] h)
      ∙ unfold url_decode in refl)
]

percent_two :
    (a b : ℕ) (s : Bytes)
    → url_decode (url_encode_uri s) ≡ url_decode s
    → url_decode (url_encode_uri (a ∷ b ∷ s)) ≡ url_decode (a ∷ b ∷ s)
    → url_decode (b'%' ∷ url_encode_uri (a ∷ b ∷ s)) ≡ url_decode (b'%' ∷ a ∷ b ∷ s)
unfolding url_encode_uri encode_by
percent_two a b s rest tail = elim (Option-cases (escaped b'%' a b)) [
  | inl literal ↦
      percent_stays a b (encode_by is_uri_character s) literal
      ∙ ap (◌∷◌ b'%') tail
      ∙ sym (url_decode-copies a b s literal)
  | inr (v, names) ↦
      let (ua, ub) = escaped-uri a b v names in
      rw (ua, ub) (unfold url_decode in rw (names, url_decode) (ap (◌∷◌ v) rest))
]

-- A string of bytes decodes to the same after `url_encode_uri` as before it.
pub url_decode-url_encode_uri :
    (s : Bytes) → AreBytes s → url_decode (url_encode_uri s) ≡ url_decode s
url_decode-url_encode_uri [] h = unfold url_encode_uri encode_by in refl
url_decode-url_encode_uri (c ∷ []) h = elim (Bool-cases (c == b'%')) [
  | inl sign ↦
      rw ((==_iff c b'%').0 sign, percent_encoded) (unfold url_encode_uri encode_by in refl)
  | inr other ↦ other_step c [] h.0 other (unfold url_encode_uri encode_by in refl)
]
url_decode-url_encode_uri (c ∷ a ∷ []) h = elim (Bool-cases (c == b'%')) [
  | inl sign ↦ rw ((==_iff c b'%').0 sign, percent_encoded) (percent_one a h.1.0)
  | inr other ↦ other_step c (a ∷ []) h.0 other (url_decode-url_encode_uri (a ∷ []) h.1)
]
url_decode-url_encode_uri (c ∷ a ∷ b ∷ s) h =
    let tail = url_decode-url_encode_uri (a ∷ b ∷ s) h.1 in
    elim (Bool-cases (c == b'%')) [
      | inl sign ↦
          rw ((==_iff c b'%').0 sign, percent_encoded)
            (percent_two a b s (url_decode-url_encode_uri s h.1.1.1) tail)
      | inr other ↦ other_step c (a ∷ b ∷ s) h.0 other tail
    ]
