-- ===== src/Url/Parsed/Views.antt =====
-- The views of a parsed URL are the components that lexbor serialized.
use aniparse.Prelude.{
  ℕ, suc, ◌+◌, ◌≤◌, not, ◌||◌, [], ◌∷◌, ◌++◌, append-nil, append_assoc, some, ◌≡◌, refl, ap, sym,
  ◌∙◌, inl, inr, arith, ◌==◌, Bytes, is_some, if◌then◌else◌, Option-cases, length, length-append,
  take, drop, take-append,
}
use aniparse.Url.Parsed.{
  ParsedUrl, u32, sub64, u32_max, count_if, host_offset, parts, from_lexbor, view, scheme, host,
  path, query, fragment,
}
use aniparse.Url.Parsed.Components.{
  Components, text_of, marked, credentials, before_host, front, serialize, serialized, cut,
  sub64-le, length-credentials, length-marked, serialized_length_fits, marked_cut,
}

module _ (c : Components) (fits : length (serialize c) ≤ u32_max) where
  length-serialize :
      length (serialize c)
      ≡ length (front c)
        + (length c.path_text
            + (length (text_of c.query_text)
                + count_if (is_some c.query_text)
                + (length (text_of c.fragment_text) + count_if (is_some c.fragment_text))))
  unfolding serialize
  length-serialize = omega (
    arith,
    length-append (front c)
        (c.path_text ++ (marked b'?' c.query_text ++ marked b'#' c.fragment_text)),
    length-append c.path_text (marked b'?' c.query_text ++ marked b'#' c.fragment_text),
    length-append (marked b'?' c.query_text) (marked b'#' c.fragment_text),
    length-marked b'?' c.query_text,
    length-marked b'#' c.fragment_text,
  )

  path_offset_lem :
      u32 (
        sub64
          (sub64
            (sub64
              (sub64
                (sub64 (length (serialize c)) (length c.path_text))
                (length (text_of c.query_text)))
              (length (text_of c.fragment_text)))
            (count_if (is_some c.query_text)))
          (count_if (is_some c.fragment_text)))
      ≡ length (front c)
  path_offset_lem = omega (arith, length-serialize, fits, sub64-le)

  front_host : (h : Bytes) → c.host_text ≡ some h → front c ≡ before_host c ++ (h ++ c.between)
  unfolding front
  front_host h e = ground arith

  length-before_host :
      (h : Bytes)
      → c.host_text ≡ some h
      → length (front c) ≡ length (before_host c) + (length h + length c.between)
  length-before_host h e =
      ap length (front_host h e)
      ∙ length-append (before_host c) (h ++ c.between)
      ∙ omega (arith, length-append h c.between)

  before_host_lem :
      length (before_host c)
      ≡ length c.scheme_text
        + 3
        + (if not (length c.user == 0) || not (length c.secret == 0)
            then length c.user + length c.secret + 1 + count_if (not (length c.secret == 0))
            else 0)
  unfolding before_host
  before_host_lem =
      length-append c.scheme_text (b':' ∷ b'/' ∷ b'/' ∷ credentials c.user c.secret)
      ∙ ap (λ n. length c.scheme_text + suc (suc (suc n))) (length-credentials c.user c.secret)
      ∙ omega arith

  host_offset_lem :
      (h : Bytes)
      → c.host_text ≡ some h
      → host_offset (length c.scheme_text) (serialized c) ≡ length (before_host c)
  unfolding host_offset serialized
  host_offset_lem h e =
      ground (arith, before_host_lem, length-before_host h e, length-serialize, fits)

  -- What is made of lexbor's result.
  parsed : ParsedUrl
  unfolding parts serialized
  parsed =
      parts (serialize c) (serialized c) (length c.scheme_text) (length (text_of c.host_text))
        (length c.path_text) (length (text_of c.query_text)) (length (text_of c.fragment_text))

  component_fits : (h : Bytes) → c.host_text ≡ some h → length h ≤ u32_max
  component_fits h e = omega (arith, length-before_host h e, length-serialize, fits)

  scheme_front : (r : Bytes) × (front c ≡ c.scheme_text ++ r)
  unfolding front before_host
  scheme_front = elim (Option-cases c.host_text) [
    | inl bare ↦ (b':' ∷ c.between, ground arith)
    | inr (h, e) ↦ (
      (b':' ∷ b'/' ∷ b'/' ∷ credentials c.user c.secret) ++ (h ++ c.between),
      unfold before_host in
          front_host h e
          ∙ append_assoc c.scheme_text (b':' ∷ b'/' ∷ b'/' ∷ credentials c.user c.secret)
              (h ++ c.between),
    )
  ]

  length-scheme : length c.scheme_text ≤ length (front c)
  length-scheme =
      let (r, e) = scheme_front in omega (arith, ap length e, length-append c.scheme_text r)

  host_fits : length (text_of c.host_text) ≤ u32_max
  host_fits = elim (Option-cases c.host_text) [
    | inl bare ↦ rw bare (omega arith)
    | inr (h, e) ↦ rw e (component_fits h e)
  ]

  from_lexbor-parsed : from_lexbor (serialized c) ≡ some parsed
  unfolding from_lexbor serialized parsed
  from_lexbor-parsed = ground (
    arith,
    fits,
    length-serialize,
    length-scheme,
    host_fits,
    serialized_length_fits c.scheme_text,
    serialized_length_fits (text_of c.host_text),
    serialized_length_fits c.path_text,
    serialized_length_fits (text_of c.query_text),
    serialized_length_fits (text_of c.fragment_text),
  )

  scheme_view : scheme parsed ≡ c.scheme_text
  unfolding parsed parts view
  scheme_view =
      let (r, e) = scheme_front in
      let split : serialize c
          ≡ c.scheme_text
            ++ (r ++ (c.path_text ++ (marked b'?' c.query_text ++ marked b'#' c.fragment_text))) =
        unfold serialize in
        ap (λ f. f ++ (c.path_text ++ (marked b'?' c.query_text ++ marked b'#' c.fragment_text))) e
        ∙ append_assoc c.scheme_text r _ in
      rw split (take-append c.scheme_text _)

  cut_at :
      (pre x post : Bytes) (n : ℕ)
      → serialize c ≡ pre ++ (x ++ post)
      → n ≡ length pre
      → take (length x) (drop n (serialize c)) ≡ x
  cut_at pre x post n split e = rw split (cut pre x post n e)

  path_view : path parsed ≡ c.path_text
  unfolding parsed view
  path_view =
      cut_at (front c) c.path_text (marked b'?' c.query_text ++ marked b'#' c.fragment_text) _
        (unfold serialize in refl) path_offset_lem

  query_offset_lem :
      parsed.query_.offset ≡ length (front c) + length c.path_text + count_if (is_some c.query_text)
  unfolding parsed
  query_offset_lem =
      ap (λ n. u32 (n + length c.path_text + count_if (is_some c.query_text))) path_offset_lem
      ∙ omega (arith, length-serialize, fits)

  query_view : query parsed ≡ text_of c.query_text
  unfolding view parsed
  query_view =
      let split : serialize c
          ≡ (front c ++ c.path_text) ++ (marked b'?' c.query_text ++ marked b'#' c.fragment_text) =
        unfold serialize in sym (append_assoc (front c) c.path_text _) in
      let cut_out =
        marked_cut b'?' c.query_text (front c ++ c.path_text) (marked b'#' c.fragment_text)
          parsed.query_.offset
          (omega (arith, query_offset_lem, length-append (front c) c.path_text)) in
      ap (λ t. take (length (text_of c.query_text)) (drop parsed.query_.offset t)) split ∙ cut_out

  fragment_offset_lem :
      parsed.fragment_.offset
      ≡ length (front c)
        + length c.path_text
        + (length (text_of c.query_text) + count_if (is_some c.query_text))
        + count_if (is_some c.fragment_text)
  fragment_offset_lem =
      unfold parsed in
      (ap (λ n. u32 (n + length (text_of c.query_text) + count_if (is_some c.fragment_text)))
        query_offset_lem)
      ∙ omega (arith, length-serialize, fits)

  fragment_view : fragment parsed ≡ text_of c.fragment_text
  unfolding view parsed
  fragment_view =
      let pre : Bytes = front c ++ (c.path_text ++ marked b'?' c.query_text) in
      let split : serialize c ≡ pre ++ (marked b'#' c.fragment_text ++ []) =
        unfold serialize in
        ap (λ r. front c ++ r)
          (sym (append_assoc c.path_text (marked b'?' c.query_text) (marked b'#' c.fragment_text)))
        ∙ sym (
            append_assoc (front c) (c.path_text ++ marked b'?' c.query_text)
              (marked b'#' c.fragment_text))
        ∙ ap (λ r. pre ++ r) (sym (append-nil (marked b'#' c.fragment_text))) in
      let cut_out = marked_cut b'#' c.fragment_text pre [] parsed.fragment_.offset (
        omega (
          arith,
          fragment_offset_lem,
          length-append (front c) (c.path_text ++ marked b'?' c.query_text),
          length-append c.path_text (marked b'?' c.query_text),
          length-marked b'?' c.query_text,
        )) in
      ap (λ t. take (length (text_of c.fragment_text)) (drop parsed.fragment_.offset t)) split
      ∙ cut_out

  host_view_some : (h : Bytes) → c.host_text ≡ some h → host parsed ≡ h
  unfolding view parsed
  host_view_some h e =
      let rest : Bytes = c.path_text ++ (marked b'?' c.query_text ++ marked b'#' c.fragment_text) in
      let split : serialize c ≡ before_host c ++ (h ++ (c.between ++ rest)) =
        unfold serialize in
        ap (λ f. f ++ rest) (front_host h e)
        ∙ append_assoc (before_host c) (h ++ c.between) rest
        ∙ ap (λ r. before_host c ++ r) (append_assoc h c.between rest) in
      let at : take (length h)
            (drop (host_offset (length c.scheme_text) (serialized c)) (serialize c))
          ≡ h =
        cut_at (before_host c) h (c.between ++ rest) _ split (host_offset_lem h e) in
      ground (arith, at)

  host_view : host parsed ≡ text_of c.host_text
  host_view = elim (Option-cases c.host_text) [
    | inl bare ↦ unfold view parsed in ground arith
    | inr (h, e) ↦ ground (arith, host_view_some h e)
  ]

  -- Where lexbor's result is that of the components of a URL, serialized as the URL standard says
  -- into at most 2^32 - 1 bytes, a `ParsedUrl` is made of it, and each of its views is the component.
  pub from_lexbor-views :
      (u : ParsedUrl) × (from_lexbor (serialized c) ≡ some u)
      × (u.href_ ≡ serialize c)
      × (scheme u ≡ c.scheme_text)
      × (host u ≡ text_of c.host_text)
      × (path u ≡ c.path_text)
      × (query u ≡ text_of c.query_text)
      × (fragment u ≡ text_of c.fragment_text)
  from_lexbor-views = (
    parsed,
    from_lexbor-parsed,
    unfold parsed in refl,
    scheme_view,
    host_view,
    path_view,
    query_view,
    fragment_view,
  )
