-- ===== src/Requests/Form.antt =====
-- A form body is read back, and the parameters are a multimap with an order.
use aniparse.Prelude.{
  ℕ, zero, suc, ◌+◌, ◌/◌, ◌%◌, ◌≤◌, ◌<◌, Bool, true, false, not, ◌&&◌, [], ◌∷◌, ◌++◌, append-nil,
  append_assoc, Option, none, some, ◌≡◌, refl, ap, sym, ◌∙◌, inl, inr, arith, ◌==◌, Bytes, AreBytes,
  bytes_eq, bytes_eq_iff, erase_if, all_of, or_else, if◌then◌else◌, Bool-cases, length,
  length-append, All,
}
use aniparse.Url.Encode.{is_unreserved, hex, percent, encode_by, url_encode, url_decode}
use aniparse.Url.Encode.RoundTrip.{url_decode-url_encode}
use aniparse.Requests.{
  UrlParameters, set_param, add_param, remove_param, get_param, urlencoded_from, to_urlencoded,
}

-- What set, add and remove do to a lookup.
pub get_param_lem :
    (j k v : Bytes) (params : UrlParameters)
    → (get_param j (set_param k v params) ≡ (if bytes_eq k j then some v else get_param j params))
      × (get_param j (add_param k v params)
          ≡ or_else (get_param j params) (if bytes_eq k j then some v else none))
      × (get_param j (remove_param k params).1
          ≡ (if bytes_eq k j then none else get_param j params))
unfolding get_param set_param add_param remove_param erase_if
get_param_lem j k v [] = (refl, refl, ground arith)
get_param_lem j k v ((i, w) ∷ params) =
    let (set', add', removed) = get_param_lem j k v params in
    (
      ground (arith, set', bytes_eq_iff i k, bytes_eq_iff k j, bytes_eq_iff i j),
      ground (arith, add'),
      ground (arith, removed, bytes_eq_iff i k, bytes_eq_iff k j, bytes_eq_iff i j),
    )

-- What an application/x-www-form-urlencoded body is read as: pairs between `&`, halves around `=`.
unfoldable pub cut : ℕ → Bytes → Bytes × Option Bytes
cut delimiter [] = ([], none)
cut delimiter (c ∷ s) =
    let (front, rest) = cut delimiter s in
    if c == delimiter then ([], some s) else (c ∷ front, rest)

unfoldable pub text_after : Option Bytes → Bytes
text_after none = []
text_after (some s) = s

unfoldable pub read_pair : Bytes → Bytes × Bytes
read_pair pair =
    let halves = cut b'=' pair in (url_decode halves.0, url_decode (text_after halves.1))

unfoldable pub read_pairs : ℕ → Option Bytes → UrlParameters
read_pairs zero s = []
read_pairs (suc fuel) none = []
read_pairs (suc fuel) (some s) =
    let halves = cut b'&' s in read_pair halves.0 ∷ read_pairs fuel halves.1

unfoldable pub read_form : Bytes → UrlParameters
read_form s = if length s == 0 then [] else read_pairs (suc (length s)) (some s)

abbrev AreParameters : UrlParameters → Type 0
AreParameters = All (λ p. AreBytes p.0 × AreBytes p.1)

-- Neither delimiter comes out of the encoder.
unfoldable pub is_inner : ℕ → Bool
is_inner c = not (c == b'&') && not (c == b'=')

is_inner-unreserved : (c : ℕ) → is_unreserved c ≡ true → is_inner c ≡ true
unfolding is_unreserved is_inner
is_inner-unreserved c h = ground (arith, h)

is_inner-hex : (n : ℕ) → n < 16 → is_inner (hex n) ≡ true
unfolding hex is_inner
is_inner-hex n h = ground (arith, h)

cut-append :
    (delimiter : ℕ) (s rest : Bytes)
    → all_of (λ c. not (c == delimiter)) s ≡ true
    → cut delimiter (s ++ (delimiter ∷ rest)) ≡ (s, some rest)
unfolding cut all_of
cut-append delimiter [] rest h = ground arith
cut-append delimiter (c ∷ s) rest h =
    let other : (c == delimiter) ≡ false = ground (arith, h) in
    rw (cut-append delimiter s rest (ground (arith, h)), other) refl

cut_all :
    (delimiter : ℕ) (s : Bytes)
    → all_of (λ c. not (c == delimiter)) s ≡ true
    → cut delimiter s ≡ (s, none)
unfolding cut all_of
cut_all delimiter [] h = refl
cut_all delimiter (c ∷ s) h =
    let other : (c == delimiter) ≡ false = ground (arith, h) in
    rw (cut_all delimiter s (ground (arith, h)), other) refl

all_of-append :
    (p : ℕ → Bool) (s t : Bytes) → all_of p s ≡ true → all_of p t ≡ true → all_of p (s ++ t) ≡ true
unfolding all_of
all_of-append p [] t h g = g
all_of-append p (c ∷ s) t h g = ground (arith, h, all_of-append p s t (ground (arith, h)) g)

url_encode_inner : (s : Bytes) → AreBytes s → all_of is_inner (url_encode s) ≡ true
unfolding url_encode encode_by all_of percent
url_encode_inner [] b = refl
url_encode_inner (c ∷ s) b = elim (Bool-cases (is_unreserved c)) [
  | inl plain ↦ rw plain (rw (is_inner-unreserved c plain) (url_encode_inner s b.1))
  | inr other ↦ rw other (
      rw
        (
          is_inner-hex (c / 16) (omega (arith, b.0)),
          is_inner-hex (c % 16) (omega arith),
          url_encode_inner s b.1,
        )
        (unfold is_inner in refl))
]

not_delimiter :
    (s : Bytes)
    → all_of is_inner s ≡ true
    → (all_of (λ c. not (c == b'&')) s ≡ true) × (all_of (λ c. not (c == b'=')) s ≡ true)
unfolding all_of is_inner
not_delimiter [] h = (refl, refl)
not_delimiter (c ∷ s) h =
    let (amp, eq) = not_delimiter s (ground (arith, h)) in
    (ground (arith, h, amp), ground (arith, h, eq))

-- One pair of the body.
written : Bytes × Bytes → Bytes
written p = url_encode p.0 ++ (b'=' ∷ url_encode p.1)

-- The pairs after the first.
written_after : UrlParameters → Bytes
written_after [] = []
written_after (p ∷ params) = b'&' ∷ (written p ++ written_after params)

urlencoded_from-written :
    (body : Bytes) (params : UrlParameters)
    → 0 < length body
    → urlencoded_from body params ≡ body ++ written_after params
unfolding urlencoded_from written written_after
urlencoded_from-written body [] h = sym (append-nil body)
urlencoded_from-written body ((k, v) ∷ params) h =
    let some_body : (length body == 0) ≡ false = ground (arith, h) in
    let next = (body ++ b'&' ∷ []) ++ (url_encode k ++ (b'=' ∷ url_encode v)) in
    let longer : 0 < length next = omega (
      arith,
      length-append {0} (body ++ b'&' ∷ []) (url_encode k ++ (b'=' ∷ url_encode v)),
      length-append {0} body (b'&' ∷ []),
    ) in
    rw some_body (urlencoded_from-written next params longer ∙ simp (append_assoc) refl)

to_urlencoded-written :
    (p : Bytes × Bytes) (params : UrlParameters)
    → to_urlencoded (p ∷ params) ≡ written p ++ written_after params
unfolding to_urlencoded urlencoded_from written
to_urlencoded-written (k, v) params =
    urlencoded_from-written (url_encode k ++ (b'=' ∷ url_encode v)) params
      (omega (arith, length-append {0} (url_encode k) (b'=' ∷ url_encode v)))

read_pair-written : (p : Bytes × Bytes) → AreBytes p.0 → AreBytes p.1 → read_pair (written p) ≡ p
unfolding read_pair written text_after
read_pair-written (k, v) bk bv =
    rw (cut-append b'=' (url_encode k) (url_encode v) (not_delimiter _ (url_encode_inner k bk)).1)
      (rw (url_decode-url_encode k bk, url_decode-url_encode v bv) refl)

written_no_amp :
    (p : Bytes × Bytes)
    → AreBytes p.0
    → AreBytes p.1
    → all_of (λ c. not (c == b'&')) (written p) ≡ true
unfolding written
written_no_amp (k, v) bk bv =
    all_of-append _ (url_encode k) (b'=' ∷ url_encode v) (not_delimiter _ (url_encode_inner k bk)).0
      (unfold all_of in (not_delimiter _ (url_encode_inner v bv)).0)

read_pairs-written :
    (p : Bytes × Bytes) (params : UrlParameters) (fuel : ℕ)
    → AreParameters (p ∷ params)
    → length params < fuel
    → read_pairs fuel (some (written p ++ written_after params)) ≡ p ∷ params
unfolding read_pairs written_after
read_pairs-written p params zero h lt = absurd (omega (arith, lt))
read_pairs-written p [] (suc zero) h lt =
    rw (append-nil (written p), cut_all b'&' (written p) (written_no_amp p h.0.0 h.0.1))
      (ap (λ q. q ∷ []) (read_pair-written p h.0.0 h.0.1))
read_pairs-written p [] (suc (suc fuel)) h lt =
    rw (append-nil (written p), cut_all b'&' (written p) (written_no_amp p h.0.0 h.0.1))
      (ap (λ q. q ∷ []) (read_pair-written p h.0.0 h.0.1))
read_pairs-written p (q ∷ params) (suc fuel) h lt =
    rw
      (
        cut-append b'&' (written p) (written q ++ written_after params)
            (written_no_amp p h.0.0 h.0.1),
        read_pair-written p h.0.0 h.0.1,
        read_pairs-written q params fuel h.1 (omega (arith, lt)),
      )
      refl

length-written_after : (params : UrlParameters) → length params ≤ length (written_after params)
unfolding written_after
length-written_after [] = omega arith
length-written_after (p ∷ params) =
    omega (arith, length-written_after params, length-append {0} (written p) (written_after params))

-- A form body is read back as the parameters it was made of, repeated and empty ones included.
pub read_form-to_urlencoded :
    (params : UrlParameters)
    → All (λ p. AreBytes p.0 × AreBytes p.1) params
    → read_form (to_urlencoded params) ≡ params
unfolding read_form
read_form-to_urlencoded [] h = unfold to_urlencoded urlencoded_from in refl
read_form-to_urlencoded (p ∷ params) h =
    let size = length-append {0} (written p) (written_after params) in
    let half : length (written p) ≡ length (url_encode p.0) + suc (length (url_encode p.1)) =
      unfold written in length-append (url_encode p.0) (b'=' ∷ url_encode p.1) in
    let some_body : (length (written p ++ written_after params) == 0) ≡ false =
      ground (arith, size, half) in
    rw (to_urlencoded-written p params, some_body)
      (read_pairs-written p params _ h (omega (arith, length-written_after params, size)))
