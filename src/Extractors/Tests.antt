-- ===== src/Extractors/Tests.antt =====
-- An extractor that delegates its links to another one.
use aniparse.Prelude.{
  ℕ, ◌+◌, true, false, [], ◌∷◌, Option, none, some, Bytes, codes, bytes_eq, if◌then◌else◌,
}
use aniparse.Domains.Store.{Store, make_snapshot}
use aniparse.Url.Parsed.{LexborUrl, ParsedUrl}
use aniparse.Extractors.{
  Outside, VideoExtractionLink, VideoExtractor, VideoExtractionRoute, response, emitter,
}

abbrev outside : Outside
outside = record {
  World = ℕ;
  Stream = Bytes;
  Adapter = Bytes;
  Failure = Bytes;
  composed = λ adapters. [];
  not_implemented = λ text. text;
  invalid_arguments = λ text. text;
}

abbrev page_url : Bytes
page_url = codes "https://b.example/"

abbrev page_result : LexborUrl
page_result = record {
  href = some page_url;
  scheme = some (codes "https");
  host = some (codes "b.example");
  path = some (codes "/");
  query = some [];
  fragment = some [];
  has_query = false;
  has_fragment = false;
  has_host = true;
  username = [];
  password = [];
}

abbrev lexbor : Bytes → Option LexborUrl
lexbor url = if bytes_eq url page_url then some page_result else none

abbrev page : ParsedUrl
page = record {
  href_ = page_url;
  scheme_ = record { offset = 0; len = 5 };
  host_ = record { offset = 8; len = 9 };
  path_ = record { offset = 17; len = 1 };
  query_ = record { offset = 18; len = 0 };
  fragment_ = record { offset = 18; len = 0 };
}

abbrev link : VideoExtractionLink
link = record { url = page_url; extractor_id = some (codes "b") }

-- Each request takes one from the world.
abbrev delegating : VideoExtractor outside
delegating = record {
  identifier = codes "a";
  valid_for_url = λ u. true;
  emplace_domains = codes "a.example" ∷ [];
  extract = λ u world. (
    response (record { streams = []; links = link ∷ []; headers = []; adapter = none }),
    world + 1,
  );
}

abbrev serving : VideoExtractor outside
serving = record {
  identifier = codes "b";
  valid_for_url = λ u. true;
  emplace_domains = codes "b.example" ∷ [];
  extract = λ u world. (
    response (record { streams = codes "video" ∷ []; links = []; headers = []; adapter = none }),
    world + 1,
  );
}

abbrev extractors : Store (VideoExtractor outside)
extractors = record {
  live = 2;
  snapshot =
      make_snapshot (emitter outside) ((codes "a", delegating) ∷ (codes "b", serving) ∷ []) [];
}

abbrev route : VideoExtractionRoute outside
route = record { extractor = delegating; url = page }
