-- ===== src/Catalog.antt =====
-- The decoder of catalogs, src/catalog/Catalog.cpp. The signature verifier is the host's and the
-- JSON parser is Boost's: both are parameters.
pub mod Hosts
pub mod Manager
pub mod Given
pub mod Reading
pub mod Decoding
mod Tests
use aniparse.Prelude.{
  ℕ, Bool, false, not, List, [], ◌∷◌, Option, none, some, ◌==◌, leb, Bytes, codes, if◌then◌else◌,
  length,
}
use aniparse.Prelude.Int.{ℤ, pos, negsuc}
use aniparse.Prelude.StdMap.{StdMap, contains, insert}
use aniparse.Json.{
  Json, if_object, if_string, is_number, if_contains, object_field, array_field, str, integer,
  to_uint64,
}

pub data CatalogError : Type 0 where
  bad_signature bad_format unsupported_version stale_revision : CatalogError

-- `expected<T, E>`
pub data Expected (E A : Type 0) : Type 0 where
  value : A → Expected E A
  unexpected : E → Expected E A

unfoldable pub require : {E A B : Type 0} → E → Option A → (A → Expected E B) → Expected E B
require e none next = unexpected e
require e (some a) next = next a

abbrev pub Routes : Type 0
Routes = StdMap (List Bytes)

pub record CatalogData : Type 0 where
  pub revision : ℕ
  pub domains : Routes
  pub mirrors : Routes
  pub canonical_base_urls : StdMap Bytes
  pub extractor_domains : Routes
  pub extractor_mirrors : Routes
  pub selectors : StdMap Bytes
  pub patterns : StdMap (StdMap Bytes)
  pub extractor_patterns : StdMap (StdMap Bytes)

-- `m.emplace(k, v)`
unfoldable pub emplace : {V : Type 0} → Bytes → V → StdMap V → StdMap V
emplace k v m = if contains k m then m else insert k v m

-- `emplace` of a container unless it is empty.
unfoldable pub emplace_filled : {A : Type 0} → Bytes → List A → StdMap (List A) → StdMap (List A)
emplace_filled k [] m = m
emplace_filled k (a ∷ as') m = emplace k (a ∷ as') m

-- The maps that `read_section` fills; an extractor section has no canonical origins.
pub record Section : Type 0 where
  pub domains : Routes
  pub mirrors : Routes
  pub canonical : Option (StdMap Bytes)
  pub patterns : StdMap (StdMap Bytes)

unfoldable pub canonical_of : Option (StdMap Bytes) → StdMap Bytes
canonical_of none = []
canonical_of (some urls) = urls

-- `catalog_schema_version`
abbrev pub catalog_schema_version : ℕ
catalog_schema_version = 1

unfoldable pub is_schema : ℤ → Bool
is_schema (pos n) = n == catalog_schema_version
is_schema (negsuc n) = false

module _ {Real : Type 0} where
  unfoldable pub strings : List (Json Real) → List Bytes
  strings [] = []
  strings (item ∷ items) =
      let rest = strings items in elim (if_string item) [ none ↦ rest | some url ↦ url ∷ rest ]

  unfoldable pub read_urls : StdMap (Json Real) → Bytes → List Bytes
  read_urls fields key = elim (array_field fields key) [ none ↦ [] | some items ↦ strings items ]

  -- The entries of an object whose values are strings, emplaced one by one.
  unfoldable pub emplace_texts : StdMap (Json Real) → StdMap Bytes → StdMap Bytes
  emplace_texts [] m = m
  emplace_texts ((key, item) ∷ rest) m = elim (if_string item) [
    | none ↦ emplace_texts rest m
    | some text ↦ emplace_texts rest (emplace key text m)
  ]

  unfoldable pub read_canonical :
      Bytes → StdMap (Json Real) → Option (StdMap Bytes) → Option (StdMap Bytes)
  read_canonical id fields none = none
  read_canonical id fields (some urls) = some (
      if length (str fields (codes "canonical_base_url")) == 0
      then urls
      else emplace id (str fields (codes "canonical_base_url")) urls)

  unfoldable pub read_patterns :
      Bytes → StdMap (Json Real) → StdMap (StdMap Bytes) → StdMap (StdMap Bytes)
  read_patterns id fields patterns = elim (object_field fields (codes "patterns")) [
    | none ↦ patterns
    | some entry_patterns ↦ emplace_filled id (emplace_texts entry_patterns []) patterns
  ]

  unfoldable pub read_entry : Bytes → StdMap (Json Real) → Section → Section
  read_entry id fields section = record {
    domains = emplace_filled id (read_urls fields (codes "domains")) section.domains;
    mirrors = emplace_filled id (read_urls fields (codes "mirrors")) section.mirrors;
    canonical = read_canonical id fields section.canonical;
    patterns = read_patterns id fields section.patterns;
  }

  unfoldable pub read_section : StdMap (Json Real) → Section → Section
  read_section [] section = section
  read_section ((id, item) ∷ rest) section = elim (if_object item) [
    | none ↦ read_section rest section
    | some fields ↦ read_section rest (read_entry id fields section)
  ]

  unfoldable pub section_at : StdMap (Json Real) → Bytes → Section → Section
  section_at root key section = elim (object_field root key) [
    | none ↦ section
    | some entries ↦ read_section entries section
  ]

  unfoldable pub read_selectors : StdMap (Json Real) → StdMap Bytes
  read_selectors root = elim (object_field root (codes "selectors")) [
    | none ↦ []
    | some selectors ↦ emplace_texts selectors []
  ]

  unfoldable pub read_data : ℕ → StdMap (Json Real) → CatalogData
  read_data revision root =
      let parsers =
        section_at root (codes "parsers")
          (record { domains = []; mirrors = []; canonical = some []; patterns = [] }) in
      let extractors =
        section_at root (codes "extractors")
          (record { domains = []; mirrors = []; canonical = none; patterns = [] }) in
      record {
        revision = revision;
        domains = parsers.domains;
        mirrors = parsers.mirrors;
        canonical_base_urls = canonical_of parsers.canonical;
        extractor_domains = extractors.domains;
        extractor_mirrors = extractors.mirrors;
        selectors = read_selectors root;
        patterns = parsers.patterns;
        extractor_patterns = extractors.patterns;
      }

  -- What the code relies on outside the repository: doubles as 64-bit integers, the verifier, and
  -- the JSON parser, whose exceptions are `none`.
  module _ (truncated : Real → ℤ) (verify : Bytes → Bytes → Bool)
      (parse : Bytes → Option (Json Real)) where
    unfoldable pub read_revision : ℕ → StdMap (Json Real) → Expected CatalogError CatalogData
    read_revision min_revision root =
        let revision = to_uint64 (integer truncated root (codes "revision")) in
        if leb revision min_revision
        then unexpected stale_revision
        else value (read_data revision root)

    unfoldable pub decode_root : ℕ → StdMap (Json Real) → Expected CatalogError CatalogData
    decode_root min_revision root =
        require bad_format (if_contains (codes "schema_version") root) (λ version.
          if not (is_number version)
          then unexpected bad_format
          else if not (is_schema (integer truncated root (codes "schema_version")))
          then unexpected unsupported_version
          else require bad_format (if_contains (codes "revision") root) (λ revision.
            if not (is_number revision)
            then unexpected bad_format
            else read_revision min_revision root))

    unfoldable pub decode_catalog : Bytes → Bytes → ℕ → Expected CatalogError CatalogData
    decode_catalog payload signature min_revision =
        if not (verify payload signature)
        then unexpected bad_signature
        else require bad_format (parse payload) (λ parsed.
          require bad_format (if_object parsed) (λ root. decode_root min_revision root))
