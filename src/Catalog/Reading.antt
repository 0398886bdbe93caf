-- ===== src/Catalog/Reading.antt =====
-- The decoder fills its maps, key by key, with what the JSON gives.
use aniparse.Prelude.{
  ◌>>=◌, ℕ, false, List, [], ◌∷◌, Option, none, some, ◌≡◌, refl, ap, ◌∙◌, inl, inr, arith, ◌==◌,
  Bytes, codes, bytes_eq, bytes_eq_iff, or_else, if◌then◌else◌, Option-cases, length,
}
use aniparse.Prelude.StdMap.{StdMap, find, contains, find-insert}
use aniparse.Json.{
  Json, null, boolean_value, int64, uint64, double, string, array, object, if_object, if_string,
  object_field, array_field, str,
}
use aniparse.Catalog.{
  Section, emplace, emplace_filled, canonical_of, strings, read_urls, emplace_texts, read_canonical,
  read_patterns, read_entry, read_section, section_at, read_selectors, read_data,
}
use aniparse.Catalog.Given.{
  filled, texts, urls_at, text_at, origin_at, patterns_at, first_at, given, IsRead,
}

module _ {Real : Type 0} where
  strings-texts : (items : List (Json Real)) → strings items ≡ texts items
  unfolding strings if_string
  strings-texts [] = refl
  strings-texts (string text ∷ items) = ap (λ ts. text ∷ ts) (strings-texts items)
  strings-texts (null ∷ items) = strings-texts items
  strings-texts (boolean_value b ∷ items) = strings-texts items
  strings-texts (int64 z ∷ items) = strings-texts items
  strings-texts (uint64 n ∷ items) = strings-texts items
  strings-texts (double r ∷ items) = strings-texts items
  strings-texts (array a ∷ items) = strings-texts items
  strings-texts (object o ∷ items) = strings-texts items

  read_urls-filled :
      (fields : StdMap (Json Real)) (key : Bytes)
      → filled (read_urls fields key) ≡ urls_at key fields
  unfolding read_urls
  read_urls-filled fields key =
      elim (array_field fields key)
        as (λ o.
          filled (elim o as (λ x. List Bytes) [ none ↦ [] | some items ↦ strings items ])
          ≡ (o >>= λ items. filled (texts items))) [
            | none ↦ refl
            | some items ↦ ap filled (strings-texts items)
          ]

abbrev Always : Section → Type 0
Always s = Unit

abbrev HasOrigins : Section → Type 0
HasOrigins s = (urls : StdMap Bytes) × (s.canonical ≡ some urls)

module _ {V : Type 0} where
  find-emplace :
      (j k : Bytes) (v : V) (m : StdMap V)
      → find j (emplace k v m) ≡ or_else (find j m) (if bytes_eq k j then some v else none)
  unfolding emplace contains
  find-emplace j k v m = elim (Option-cases (find k m)) [
    | inl new ↦ ground (arith, find-insert k j v m new, new, bytes_eq_iff k j)
    | inr (w, old) ↦ ground (arith, old, bytes_eq_iff k j)
  ]

find-emplace_filled :
    {A : Type 0} (j k : Bytes) (vs : List A) (m : StdMap (List A))
    → find j (emplace_filled k vs m) ≡ or_else (find j m) (if bytes_eq k j then filled vs else none)
unfolding emplace_filled
find-emplace_filled j k [] m = ground arith
find-emplace_filled j k (v ∷ vs) m = find-emplace j k (v ∷ vs) m

module _ {Real : Type 0} where
  find-emplace_texts :
      (j : Bytes) (es : StdMap (Json Real)) (m : StdMap Bytes)
      → find j (emplace_texts es m) ≡ or_else (find j m) (text_at j es)
  unfolding emplace_texts
  find-emplace_texts j [] m = ground arith
  find-emplace_texts j ((k, item) ∷ rest) m = elim (Option-cases (if_string item)) [
    | inl other ↦ rw other (ground (arith, find-emplace_texts j rest m))
    | inr (text, there) ↦
        rw there
          (ground (arith, find-emplace_texts j rest (emplace k text m), find-emplace j k text m))
  ]

  -- A map of a section that each entry extends by what it gives, unless its identifier is there.
  module _ {V : Type 0} (Holds : Section → Type 0) (map_of : Section → StdMap V)
      (read : StdMap (Json Real) → Option V)
      (keeps : (k : Bytes) (fields : StdMap (Json Real)) (s : Section)
        → Holds s
        → Holds (read_entry k fields s))
      (step : (j k : Bytes) (fields : StdMap (Json Real)) (s : Section)
        → Holds s
        → find j (map_of (read_entry k fields s))
          ≡ or_else (find j (map_of s)) (if bytes_eq k j then read fields else none)) where
    find-read_section :
        (j : Bytes) (es : StdMap (Json Real)) (s : Section)
        → Holds s
        → find j (map_of (read_section es s)) ≡ or_else (find j (map_of s)) (first_at read j es)
    unfolding read_section
    find-read_section j [] s h = ground arith
    find-read_section j ((k, item) ∷ rest) s h = elim (Option-cases (if_object item)) [
      | inl other ↦ rw other (ground (arith, find-read_section j rest s h))
      | inr (fields, there) ↦
          let later = find-read_section j rest (read_entry k fields s) (keeps k fields s h) in
          rw there (ground (arith, later, step j k fields s h))
    ]

    find-section_at :
        (j : Bytes) (root : StdMap (Json Real)) (key : Bytes) (s : Section)
        → Holds s
        → map_of s ≡ []
        → find j (map_of (section_at root key s)) ≡ given root key read j
    unfolding section_at
    find-section_at j root key s h empty = elim (Option-cases (object_field root key)) [
      | inl missing ↦ rw (missing, section_at) (ap (find j) empty ∙ unfold find in refl)
      | inr (es, there) ↦
          rw (there, section_at)
            (find-read_section j es s h
              ∙ ap (λ m. or_else (find j m) (first_at read j es)) empty
              ∙ unfold find in refl)
    ]

  find-domains :
      (j k : Bytes) (fields : StdMap (Json Real)) (s : Section)
      → find j (read_entry k fields s).domains
        ≡ or_else
            (find j s.domains)
            (if bytes_eq k j then urls_at (codes "domains") fields else none)
  unfolding read_entry
  find-domains j k fields s =
      find-emplace_filled j k (read_urls fields (codes "domains")) s.domains
      ∙ ap (λ v. or_else (find j s.domains) (if bytes_eq k j then v else none))
          (read_urls-filled fields (codes "domains"))

  find-mirrors :
      (j k : Bytes) (fields : StdMap (Json Real)) (s : Section)
      → find j (read_entry k fields s).mirrors
        ≡ or_else
            (find j s.mirrors)
            (if bytes_eq k j then urls_at (codes "mirrors") fields else none)
  unfolding read_entry
  find-mirrors j k fields s =
      find-emplace_filled j k (read_urls fields (codes "mirrors")) s.mirrors
      ∙ ap (λ v. or_else (find j s.mirrors) (if bytes_eq k j then v else none))
          (read_urls-filled fields (codes "mirrors"))

  find-read_patterns :
      (j k : Bytes) (fields : StdMap (Json Real)) (m : StdMap (StdMap Bytes))
      → find j (read_patterns k fields m)
        ≡ or_else (find j m) (if bytes_eq k j then patterns_at fields else none)
  unfolding read_patterns
  find-read_patterns j k fields m = elim (Option-cases (object_field fields (codes "patterns"))) [
    | inl missing ↦ rw (missing, read_patterns) (ground arith)
    | inr (patterns, there) ↦
        rw (there, read_patterns) (find-emplace_filled j k (emplace_texts patterns []) m)
  ]

  find-read_canonical :
      (j k : Bytes) (fields : StdMap (Json Real)) (urls : StdMap Bytes)
      → find j (canonical_of (read_canonical k fields (some urls)))
        ≡ or_else (find j urls) (if bytes_eq k j then origin_at fields else none)
  unfolding read_canonical canonical_of
  find-read_canonical j k fields urls = emplaced (str fields (codes "canonical_base_url"))
    where
      emplaced :
          (url : Bytes)
          → find j (if length url == 0 then urls else emplace k url urls)
            ≡ or_else (find j urls) (if bytes_eq k j then filled url else none)
      emplaced [] = ground arith
      emplaced (c ∷ url) =
          let full : (length (c ∷ url) == 0) ≡ false = ground arith in
          rw full (find-emplace j k (c ∷ url) urls)

  keeps_origins :
      (k : Bytes) (fields : StdMap (Json Real)) (s : Section)
      → HasOrigins s
      → HasOrigins (read_entry k fields s)
  unfolding read_entry read_canonical
  keeps_origins k fields s (urls, e) = kept s.canonical e
    where
      kept :
          (o : Option (StdMap Bytes)) {u : StdMap Bytes}
          → o ≡ some u
          → (more : StdMap Bytes) × (read_canonical k fields o ≡ some more)
      kept none given_urls = cc (given_urls)
      kept (some u) given_urls = (_, refl)

  find-origins :
      (j k : Bytes) (fields : StdMap (Json Real)) (s : Section)
      → HasOrigins s
      → find j (canonical_of (read_entry k fields s).canonical)
        ≡ or_else
            (find j (canonical_of s.canonical))
            (if bytes_eq k j then origin_at fields else none)
  unfolding read_entry
  find-origins j k fields s (urls, e) =
      rw e (find-read_canonical j k fields urls ∙ unfold canonical_of in refl)

  -- The maps of any data that are read.
  pub read_data-IsRead :
      (revision : ℕ) (root : StdMap (Json Real)) → IsRead root (read_data revision root)
  unfolding read_data canonical_of read_selectors
  read_data-IsRead revision root =
      let at_domains =
        find-section_at Always (λ s. s.domains) (urls_at (codes "domains")) (λ k f s h. tt)
          (λ j k f s h. find-domains j k f s) in
      let at_mirrors =
        find-section_at Always (λ s. s.mirrors) (urls_at (codes "mirrors")) (λ k f s h. tt)
          (λ j k f s h. find-mirrors j k f s) in
      let at_patterns =
        find-section_at Always (λ s. s.patterns) patterns_at (λ k f s h. tt)
          (λ j k f s h. unfold read_entry in find-read_patterns j k f s.patterns) in
      let at_origins =
        find-section_at HasOrigins (λ s. canonical_of s.canonical) origin_at keeps_origins
          find-origins in
      record {
        domains = λ id. at_domains id root (codes "parsers") _ tt refl;
        mirrors = λ id. at_mirrors id root (codes "parsers") _ tt refl;
        origins = λ id. at_origins id root (codes "parsers") _ ([], refl) refl;
        patterns = λ id. at_patterns id root (codes "parsers") _ tt refl;
        extractor_domains = λ id. at_domains id root (codes "extractors") _ tt refl;
        extractor_mirrors = λ id. at_mirrors id root (codes "extractors") _ tt refl;
        extractor_patterns = λ id. at_patterns id root (codes "extractors") _ tt refl;
        selectors = selected;
        keyed = λ patterns key. find-emplace_texts key patterns [] ∙ unfold find in refl;
      }
    where
      selected :
          (key : Bytes)
          → find key (read_selectors root) ≡ (object_field root (codes "selectors") >>= text_at key)
      selected key = elim (Option-cases (object_field root (codes "selectors"))) [
        | inl missing ↦ rw (missing, read_selectors) (unfold find in refl)
        | inr (es, there) ↦
            rw (there, read_selectors) (find-emplace_texts key es [] ∙ unfold find in refl)
      ]
