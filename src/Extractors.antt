-- ===== src/Extractors.antt =====
-- `VideoExtractorStore` (src/video/VideoExtractor.cpp): the domain registry over video extractors.
-- An extractor is the virtual functions that the store calls; its request takes and returns the
-- world that answers it.
pub mod Extraction
pub mod Delegation
mod Tests
use aniparse.Prelude.{
  Bool, List, [], ◌∷◌, Option, none, some, ◌==◌, Bytes, if◌then◌else◌, length, ◌>>=◌, ◌>>◌, guard,
}
use aniparse.Prelude.StdMap
use aniparse.Domains.Store
use aniparse.Domains.Store.{DomainOverrides, Store, Edit, CommitResult}
use aniparse.Headers.{Headers}
use aniparse.Url.Parsed
use aniparse.Url.Parsed.{LexborUrl, ParsedUrl}

-- `Response<T>`
pub data Response (E A : Type 0) : Type 0 where
  response : A → Response E A
  failure : E → Response E A

pub record VideoExtractionLink : Type 0 where
  pub url : Bytes
  pub extractor_id : Option Bytes

-- What the store uses from elsewhere: the world that requests run in, streams, resource adapters
-- and errors, the adapter that chains some, and the errors that the store makes of a URL.
pub record Outside : Type 1 where
  pub World : Type 0
  pub Stream : Type 0
  pub Adapter : Type 0
  pub Failure : Type 0
  pub composed : List Adapter → Adapter
  pub not_implemented : Bytes → Failure
  pub invalid_arguments : Bytes → Failure

pub record VideoExtraction (o : Outside) : Type 0 where
  pub streams : List o.Stream
  pub links : List VideoExtractionLink
  pub headers : Headers
  pub adapter : Option o.Adapter

pub record VideoExtractor (o : Outside) : Type 0 where
  pub identifier : Bytes
  pub valid_for_url : ParsedUrl → Bool
  pub emplace_domains : List Bytes
  pub extract : ParsedUrl → o.World → Response o.Failure (VideoExtraction o) × o.World

-- What a call that may throw returns.
pub data Added (A : Type 0) : Type 0 where
  added : A → Added A
  empty_identifier : Added A
  conflicting_name : Bytes → Added A
  not_committed : CommitResult → Added A

-- `ResourceAdapter::compose`, by the adapter of a chain.
unfoldable pub present : {A : Type 0} → List (Option A) → List A
present [] = []
present (none ∷ adapters) = present adapters
present (some a ∷ adapters) = a ∷ present adapters

unfoldable pub chain : {A : Type 0} → (List A → A) → List A → Option A
chain composed [] = none
chain composed (a ∷ []) = some a
chain composed (a ∷ b ∷ adapters) = some (composed (a ∷ b ∷ adapters))

unfoldable pub compose : {A : Type 0} → (List A → A) → List (Option A) → Option A
compose composed adapters = chain composed (present adapters)

unfoldable pub committed_or : {A : Type 0} → CommitResult → A → Added A
committed_or Store.committed a = added a
committed_or r a = not_committed r

pub record VideoExtractionRoute (o : Outside) : Type 0 where
  pub extractor : VideoExtractor o
  pub url : ParsedUrl

module _ (o : Outside) where
  abbrev pub Extractor : Type 0
  Extractor = VideoExtractor o

  abbrev pub Route : Type 0
  Route = VideoExtractionRoute o

  abbrev pub emitter : Extractor → List Bytes
  emitter x = x.emplace_domains

  unfoldable pub edit_add_extractor :
      Extractor → Edit Extractor → Added (Option Extractor) × Edit Extractor
  edit_add_extractor x e =
      if length x.identifier == 0
      then (empty_identifier, e)
      else if StdMap.contains x.identifier e.entries
      then (conflicting_name x.identifier, e)
      else (let (new, e') = Store.add x.identifier x e in (added new, e'))

  unfoldable pub edit_remove_extractor : Bytes → Edit Extractor → Bool × Edit Extractor
  edit_remove_extractor identifier e = Store.remove identifier e

  unfoldable pub publish_edit :
      {A : Type 0} → Added A → Edit Extractor → Store Extractor → Added A × Store Extractor
  publish_edit (added a) e s =
      let (result, e', s') = Store.commit emitter e s in (committed_or result a, s')
  publish_edit empty_identifier e s = (empty_identifier, s)
  publish_edit (conflicting_name n) e s = (conflicting_name n, s)
  publish_edit (not_committed r) e s = (not_committed r, s)

  unfoldable pub add_extractor :
      Extractor → Store Extractor → Added (Option Extractor) × Store Extractor
  add_extractor x s =
      let (new, e) = edit_add_extractor x (Store.begin_edit s) in publish_edit new e s

  unfoldable pub refresh_domains :
      DomainOverrides → Store Extractor → Added (Unit {0}) × Store Extractor
  refresh_domains vol s =
      publish_edit (added tt) (Store.set_volatile_domains vol (Store.begin_edit s)) s

  unfoldable pub route_parsed : ParsedUrl → Store Extractor → Option Route
  route_parsed url s = do
    found ← Store.find_by_host (λ x. x.valid_for_url url) (Parsed.host url) s
    some (record { extractor = found; url = url })

  module _ (lexbor : Bytes → Option LexborUrl) where
    unfoldable pub route_url : Bytes → Store Extractor → Option Route
    route_url url s = do parsed ← Parsed.parse lexbor url; route_parsed parsed s

    unfoldable pub route_by_id : Bytes → ParsedUrl → Store Extractor → Option Route
    route_by_id identifier parsed s = do
      found ← Store.find_by_key identifier s
      guard (found.valid_for_url parsed)
      some (record { extractor = found; url = parsed })

    unfoldable pub route_target : Option Bytes → ParsedUrl → Store Extractor → Option Route
    route_target none parsed s = route_parsed parsed s
    route_target (some identifier) parsed s = route_by_id identifier parsed s

    unfoldable pub route_link : VideoExtractionLink → Store Extractor → Option Route
    route_link link s = do
      parsed ← Parsed.parse lexbor link.url
      route_target link.extractor_id parsed s
