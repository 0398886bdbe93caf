-- ===== src/ParserStore.antt =====
-- `ParserStore` (src/ParserStore.cpp): the domain registry over parsers, and the routing of URLs.
-- A parser is the virtual functions that the store calls. The URL parser is lexbor's.
pub mod Routing
mod Tests
use aniparse.Prelude.{◌>>=◌, Bool, List, ◌++◌, Option, some, Bytes, codes, is_some, if◌then◌else◌}
use aniparse.Prelude.StdMap
use aniparse.Domains.Store
use aniparse.Domains.Store.{DomainOverrides, Store, Edit, CommitResult}
use aniparse.Url.Parsed
use aniparse.Url.Parsed.{LexborUrl, ParsedUrl}

pub data GetterSuggestionType : Type 0 where
  unknown anime images manga video : GetterSuggestionType

pub record Parser : Type 0 where
  pub identifier : Bytes
  pub valid_for_url : ParsedUrl → Bool
  pub suggest_getter : ParsedUrl → GetterSuggestionType
  pub emplace_domains : List Bytes

pub record UrlRoute : Type 0 where
  pub parser : Parser
  pub type : GetterSuggestionType
  pub url : ParsedUrl

abbrev pub emitter : Parser → List Bytes
emitter p = p.emplace_domains

-- What a call that may throw `std::logic_error` returns.
pub data Outcome (A : Type 0) : Type 0 where
  done : A → Outcome A
  conflicting_name : Bytes → Outcome A
  edit_refused : CommitResult → Outcome A

-- `Edit::add_parser`
unfoldable pub edit_add_parser : Parser → Edit Parser → Outcome (Option Parser) × Edit Parser
edit_add_parser p e =
    if is_some (StdMap.find p.identifier e.entries)
    then (conflicting_name p.identifier, e)
    else (let (added, e') = Store.add p.identifier p e in (done added, e'))

unfoldable pub edit_remove_parser : Bytes → Edit Parser → Bool × Edit Parser
edit_remove_parser identifier e = Store.remove identifier e

unfoldable pub edit_refresh_domains : DomainOverrides → Edit Parser → Edit Parser
edit_refresh_domains vol e = Store.set_volatile_domains vol e

-- `edit.commit()`, whose failures throw.
unfoldable pub commit_outcome : {A : Type 0} → CommitResult → A → Outcome A
commit_outcome Store.committed a = done a
commit_outcome r a = edit_refused r

unfoldable pub publish_edit :
    {A : Type 0} → Outcome A → Edit Parser → Store Parser → Outcome A × Store Parser
publish_edit (done a) e s =
    let (result, e', s') = Store.commit emitter e s in (commit_outcome result a, s')
publish_edit (conflicting_name n) e s = (conflicting_name n, s)
publish_edit (edit_refused r) e s = (edit_refused r, s)

unfoldable pub add_parser : Parser → Store Parser → Outcome (Option Parser) × Store Parser
add_parser p s = let (added, e) = edit_add_parser p (Store.begin_edit s) in publish_edit added e s

unfoldable pub refresh_domains : DomainOverrides → Store Parser → Outcome (Unit {0}) × Store Parser
refresh_domains vol s = publish_edit (done tt) (edit_refresh_domains vol (Store.begin_edit s)) s

abbrev pub find_by_key : Bytes → Store Parser → Option Parser
find_by_key = Store.find_by_key

abbrev pub parsers : Store Parser → List Parser
parsers = Store.values

module _ (lexbor : Bytes → Option LexborUrl) where
  unfoldable pub find_for_url : Bytes → Store Parser → Option Parser
  find_for_url url s = do
    parsed ← Parsed.parse lexbor url
    Store.find_by_host (λ p. p.valid_for_url parsed) (Parsed.host parsed) s

  unfoldable pub find_by_domain : Bytes → Store Parser → Option Parser
  find_by_domain domain s = do
    parsed ← Parsed.parse lexbor (codes "https://" ++ domain)
    Store.find_by_host (λ p. p.valid_for_url parsed) (Parsed.host parsed) s

  unfoldable pub route_url : Bytes → Store Parser → Option UrlRoute
  route_url url s = do
    parsed ← Parsed.parse lexbor url
    found ← Store.find_by_host (λ p. p.valid_for_url parsed) (Parsed.host parsed) s
    some (record { parser = found; type = found.suggest_getter parsed; url = parsed })
