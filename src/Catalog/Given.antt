-- ===== src/Catalog/Given.antt =====
-- What the JSON of a catalog gives under each key, described without the decoder.
use aniparse.Prelude.{
  ◌>>=◌, List, [], ◌∷◌, Option, none, some, ◌≡◌, Bytes, codes, bytes_eq, or_else, if◌then◌else◌,
}
use aniparse.Prelude.StdMap.{StdMap, find}
use aniparse.Json.{Json, string, if_object, if_string, object_field, array_field, str}
use aniparse.Catalog.{CatalogData, emplace_texts}

abbrev pub filled : {A : Type 0} → List A → Option (List A)
filled [] = none
filled (a ∷ as') = some (a ∷ as')

module _ {Real : Type 0} where
  -- The strings of an array.
  abbrev pub texts : List (Json Real) → List Bytes
  texts [] = []
  texts (string text ∷ items) = text ∷ texts items
  texts (item ∷ items) = texts items

  -- The strings under a key, if there are any.
  abbrev pub urls_at : Bytes → StdMap (Json Real) → Option (List Bytes)
  urls_at key fields = array_field fields key >>= λ items. filled (texts items)

  -- The first string under a key.
  abbrev pub text_at : Bytes → StdMap (Json Real) → Option Bytes
  text_at key [] = none
  text_at key ((k, item) ∷ rest) =
      let later = text_at key rest in
      if bytes_eq k key then or_else (if_string item) later else later

  abbrev pub origin_at : StdMap (Json Real) → Option Bytes
  origin_at fields = filled (str fields (codes "canonical_base_url"))

  abbrev pub patterns_at : StdMap (Json Real) → Option (StdMap Bytes)
  patterns_at fields =
      object_field fields (codes "patterns") >>= λ patterns. filled (emplace_texts patterns [])

  -- The first object under an identifier that gives something.
  abbrev pub first_at :
      {V : Type 0} → (StdMap (Json Real) → Option V) → Bytes → StdMap (Json Real) → Option V
  first_at read id [] = none
  first_at read id ((k, item) ∷ rest) =
      let later = first_at read id rest in
      if bytes_eq k id then or_else (if_object item >>= read) later else later

  -- What a section of the catalog gives for an identifier.
  abbrev pub given :
      {V : Type 0} → StdMap (Json Real) → Bytes → (StdMap (Json Real) → Option V) → Bytes → Option V
  given root section read id = object_field root section >>= first_at read id

  -- The maps of the data hold, under every identifier, what the JSON gives for it.
  pub record IsRead (root : StdMap (Json Real)) (d : CatalogData) : Type 0 where
    pub domains :
        (id : Bytes)
        → find id d.domains ≡ given root (codes "parsers") (urls_at (codes "domains")) id
    pub mirrors :
        (id : Bytes)
        → find id d.mirrors ≡ given root (codes "parsers") (urls_at (codes "mirrors")) id
    pub origins :
        (id : Bytes) → find id d.canonical_base_urls ≡ given root (codes "parsers") origin_at id
    pub patterns : (id : Bytes) → find id d.patterns ≡ given root (codes "parsers") patterns_at id
    pub extractor_domains :
        (id : Bytes)
        → find id d.extractor_domains
          ≡ given root (codes "extractors") (urls_at (codes "domains")) id
    pub extractor_mirrors :
        (id : Bytes)
        → find id d.extractor_mirrors
          ≡ given root (codes "extractors") (urls_at (codes "mirrors")) id
    pub extractor_patterns :
        (id : Bytes) → find id d.extractor_patterns ≡ given root (codes "extractors") patterns_at id
    pub selectors :
        (key : Bytes)
        → find key d.selectors ≡ (object_field root (codes "selectors") >>= text_at key)
    pub keyed :
        (patterns' : StdMap (Json Real)) (key : Bytes)
        → find key (emplace_texts patterns' []) ≡ text_at key patterns'
