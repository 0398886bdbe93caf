-- ===== src/ParserStore/Tests.antt =====
-- A store with one parser. The URL parser of these tests knows one URL.
use aniparse.Prelude.{
  true, false, List, [], ◌∷◌, ◌++◌, Option, none, some, ◌≡◌, refl, ◌≢◌, ◌⊎◌, inl, inr, arith, Bytes,
  codes, bytes_eq, if◌then◌else◌, Elem,
}
use aniparse.Domains.Labels.{split_domains}
use aniparse.Domains.Store.{Store, make_snapshot}
use aniparse.Domains.Store.Routes.{IsCoherent}
use aniparse.Domains.Store.Lookup.{Serves}
use aniparse.Url.Parsed
use aniparse.Url.Parsed.{LexborUrl, ParsedUrl, UrlPart}
use aniparse.ParserStore.{
  Parser, UrlRoute, manga, emitter, refresh_domains, find_for_url, route_url,
}
use aniparse.ParserStore.Routing.{refresh_keeps_static, route_url-find_for_url}

abbrev reader : Parser
reader = record {
  identifier = codes "reader";
  valid_for_url = λ u. true;
  suggest_getter = λ u. manga;
  emplace_domains = codes "example.com" ∷ [];
}

abbrev other : Parser
other = record reader { identifier = codes "other" }

abbrev page_url : Bytes
page_url = codes "https://www.example.com/"

abbrev page_result : LexborUrl
page_result = record {
  href = some page_url;
  scheme = some (codes "https");
  host = some (codes "www.example.com");
  path = some (codes "/");
  query = some [];
  fragment = some [];
  has_query = false;
  has_fragment = false;
  has_host = true;
  username = [];
  password = [];
}

abbrev lexbor : Bytes → Option LexborUrl
lexbor url = if bytes_eq url page_url then some page_result else none

abbrev readers : Store Parser
readers = record { live = 1; snapshot = make_snapshot emitter ((codes "reader", reader) ∷ []) [] }

readers-IsCoherent : IsCoherent emitter readers
unfolding make_snapshot
readers-IsCoherent = refl

abbrev page : ParsedUrl
page = record {
  href_ = page_url;
  scheme_ = record { offset = 0; len = 5 };
  host_ = record { offset = 8; len = 15 };
  path_ = record { offset = 23; len = 1 };
  query_ = record { offset = 24; len = 0 };
  fragment_ = record { offset = 24; len = 0 };
}

page_parsed : Parsed.parse lexbor page_url ≡ some page
unfolding bytes_eq Parsed.parse Parsed.from_lexbor Parsed.parts Parsed.serialized_length
    Parsed.host_offset
page_parsed = refl

page_host : Parsed.host page ≡ codes "www" ++ (b'.' ∷ codes "example.com")
unfolding Parsed.view
page_host = refl

reader_entry : Elem (reader.identifier, reader) readers.snapshot.entries
unfolding make_snapshot
reader_entry = inl refl

refresh_keeps_static_example : find_for_url lexbor page_url (refresh_domains [] readers).1 ≢ none
refresh_keeps_static_example =
    refresh_keeps_static lexbor [] readers reader page_url (codes "example.com") page reader_entry
      (inl refl) page_parsed (inr (codes "www", ground arith, page_host)) refl

route_url-find_for_url_example :
    ((route_url lexbor page_url readers ≡ none) × (find_for_url lexbor page_url readers ≡ none))
    ⊎ ((r : UrlRoute) × (route_url lexbor page_url readers ≡ some r)
        × (find_for_url lexbor page_url readers ≡ some r.parser)
        × (Parsed.parse lexbor page_url ≡ some r.url)
        × (r.type ≡ r.parser.suggest_getter r.url)
        × (r.parser.valid_for_url r.url ≡ true)
        × (labels rest : List Bytes) × (split_domains (Parsed.host r.url) ≡ labels ++ rest)
        × Serves emitter readers labels r.parser)
route_url-find_for_url_example = route_url-find_for_url lexbor page_url readers readers-IsCoherent
