-- ===== src/Catalog/Manager.antt =====
-- `CatalogManager` (src/catalog/CatalogManager.cpp): the store, the optional extractor store and
-- services with the sources in their holders, and the revision that was last applied. A commit of
-- a refresh cannot fail here, since nothing else edits the stores while it runs.
pub mod Routing
pub mod Rollback
use aniparse.Prelude.{ℕ, Bool, List, [], ◌∷◌, Option, none, some, Bytes}
use aniparse.Prelude.Int.{ℤ}
use aniparse.Domains.Store.{Store, DomainOverrides}
use aniparse.ParserStore
use aniparse.ParserStore.{Parser}
use aniparse.Extractors
use aniparse.Extractors.{Outside, VideoExtractor}
use aniparse.Sources.{
  MirrorSource, SelectorSource, RegexSource, no_mirrors, no_selectors, no_patterns,
}
use aniparse.Json.{Json}
use aniparse.Catalog.{CatalogData, CatalogError, Expected, value, unexpected, decode_catalog}
use aniparse.Catalog.Hosts.{union_mirror_hosts, union_canonical_hosts}

-- The sources in the holders of a `ServiceState`, `none` where it has no holder, and the keys of
-- the resources that its cache holds.
pub record Services : Type 0 where
  pub mirrors : Option MirrorSource
  pub selectors : Option SelectorSource
  pub patterns : Option RegexSource
  pub resources : Option (List ℕ)

-- A payload and its signature.
abbrev pub Delivery : Type 0
Delivery = Bytes × Bytes

unfoldable pub accepted : Expected CatalogError ℕ → List ℕ → List ℕ
accepted (value revision) rest = revision ∷ rest
accepted (unexpected e) rest = rest

-- `holder->set(source)` where there is a holder.
unfoldable pub swap : {S : Type 0} → S → Option S → Option S
swap source none = none
swap source (some old) = some source

pub record Manager (o : Outside) : Type 0 where
  pub store : Store Parser
  pub services : Option Services
  pub extractors : Option (Store (VideoExtractor o))
  pub extractor_services : Option Services
  pub revision : ℕ

unfoldable pub serve :
    MirrorSource → SelectorSource → RegexSource → Option Services → Option Services
serve mirrors selectors patterns none = none
serve mirrors selectors patterns (some services) = some (record {
  mirrors = swap mirrors services.mirrors;
  selectors = swap selectors services.selectors;
  patterns = swap patterns services.patterns;
  resources = swap [] services.resources;
})

unfoldable pub serve_extractors : MirrorSource → RegexSource → Option Services → Option Services
serve_extractors mirrors patterns none = none
serve_extractors mirrors patterns (some services) = some (record services {
  mirrors = swap mirrors services.mirrors;
  patterns = swap patterns services.patterns;
})

unfoldable pub parser_routes : CatalogData → DomainOverrides
parser_routes decoded =
    union_canonical_hosts decoded.canonical_base_urls
      (union_mirror_hosts decoded.mirrors decoded.domains)

unfoldable pub extractor_routes : CatalogData → DomainOverrides
extractor_routes decoded = union_mirror_hosts decoded.extractor_mirrors decoded.extractor_domains

module _ (o : Outside) where
  unfoldable pub refresh_extractors :
      DomainOverrides → Option (Store (VideoExtractor o)) → Option (Store (VideoExtractor o))
  refresh_extractors overrides none = none
  refresh_extractors overrides (some s) = some (Extractors.refresh_domains o overrides s).1

  -- `apply` after a decoded payload.
  unfoldable pub adopt : CatalogData → Manager o → Manager o
  adopt decoded m = record {
    store = (ParserStore.refresh_domains (parser_routes decoded) m.store).1;
    extractors = refresh_extractors (extractor_routes decoded) m.extractors;
    services =
        serve
          (record {
            overrides = decoded.mirrors;
            canonical_base_urls = decoded.canonical_base_urls;
          })
          (record { overrides = decoded.selectors; scoped = [] })
          (record { overrides = []; scoped = decoded.patterns }) m.services;
    extractor_services =
        serve_extractors
          (record { overrides = decoded.extractor_mirrors; canonical_base_urls = [] })
          (record { overrides = []; scoped = decoded.extractor_patterns }) m.extractor_services;
    revision = decoded.revision;
  }

  unfoldable pub conclude :
      Expected CatalogError CatalogData → Manager o → Expected CatalogError ℕ × Manager o
  conclude (unexpected e) m = (unexpected e, m)
  conclude (value decoded) m = (value decoded.revision, adopt decoded m)

  unfoldable pub reset : Manager o → Manager o
  reset m = record {
    store = (ParserStore.refresh_domains [] m.store).1;
    extractors = refresh_extractors [] m.extractors;
    services = serve no_mirrors no_selectors no_patterns m.services;
    extractor_services = serve_extractors no_mirrors no_patterns m.extractor_services;
    revision = 0;
  }

  module _ {Real : Type 0} (truncated : Real → ℤ) (verify : Bytes → Bytes → Bool)
      (parse : Bytes → Option (Json Real)) where
    unfoldable pub apply : Bytes → Bytes → Manager o → Expected CatalogError ℕ × Manager o
    apply payload signature m =
        conclude (decode_catalog truncated verify parse payload signature m.revision) m

    -- A run of `apply`: the revisions that were applied, in order, and the manager after it.
    unfoldable pub apply_all : List Delivery → Manager o → List ℕ × Manager o
    apply_all [] m = ([], m)
    apply_all ((payload, signature) ∷ deliveries) m =
        let (result, m') = apply payload signature m in
        let (revisions, m'') = apply_all deliveries m' in (accepted result revisions, m'')
