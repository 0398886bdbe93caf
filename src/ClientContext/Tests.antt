-- ===== src/ClientContext/Tests.antt =====
-- A client that answers 404 to a request with a parameter of the configuration, and two contexts.
use aniparse.Prelude.{Elem, [], ◌∷◌, ℕ, List, Option, none, some, ◌≡◌, refl, ◌↔◌, ◌⊎◌, Bytes, codes}
use aniparse.Prelude.Int.{pos}
use aniparse.Requests.{ClientRequest, no_body, get}
use aniparse.ClientContext.{
  ParserConfig, new_config, RequestError, ResponseData, Response, ok, unexpected, Parsed, parsed,
  request, request_parsed,
}
use aniparse.ClientContext.Contexts.{
  Backend, ServiceState, RequestorContext, new_context, new_with_logger, alt_link, set_alt_link,
  assemble, placed, with_cache, with_jar, config_at,
}
use aniparse.ClientContext.Requesting.{IsSuccess, IsErrorOf, request_parsed_lem}
use aniparse.ClientContext.Sharing.{new_with_logger_shares}

abbrev session : ParserConfig ℕ
session = record {
  headers = (codes "User-Agent", codes "x") ∷ [];
  url_params = (codes "key", codes "1") ∷ [];
  cookie_jar = some 0;
  parser_id = [];
  alt_link = 0;
  modifiers = [];
}

abbrev page : ClientRequest
page = record {
  url = codes "https://a";
  url_params = [];
  headers = [];
  payload = no_body;
  method = get;
}

abbrev answer : ClientRequest → Option ℕ → Response ResponseData
answer r jar =
    ok (record { status_code = pos 404; body = r.url; headers = []; effective_url = none })

abbrev as_text : Bytes → Parsed Bytes
as_text body = parsed body

request_parsed_lem_example :
    let fetched = request answer session page in
    let result = request_parsed answer (codes "bad: ") as_text session page in
    ((v : Bytes)
      → (result ≡ ok v) ↔ (
          (response : ResponseData) × (fetched ≡ ok response)
          × IsSuccess response.status_code
          × (as_text response.body ≡ parsed v)))
    × ((e : RequestError)
        → result ≡ unexpected e
        → (fetched ≡ unexpected e)
          ⊎ ((response : ResponseData) × (fetched ≡ ok response) × IsErrorOf e response))
request_parsed_lem_example = request_parsed_lem answer (codes "bad: ") as_text session page

abbrev backend : Backend
backend = record {
  Client = ℕ;
  Jar = ℕ;
  Logger = ℕ;
  Cache = ℕ;
  make_cookie_jar = (λ (c : ℕ). some c);
  new_cache = 0;
}

abbrev services : ServiceState ℕ ℕ ℕ
services = record {
  client = some 7;
  logger = none;
  resources = none;
  selectors = none;
  patterns = none;
  mirrors = none;
}

-- The context that is made of it, with a new configuration.
abbrev context : RequestorContext ℕ ℕ ℕ
context = record {
  services = record {
    client = some 7;
    logger = none;
    resources = some 0;
    selectors = none;
    patterns = none;
    mirrors = none;
  };
  config = 0;
  mirror_snapshot = none;
}

abbrev with_session : List (ParserConfig ℕ)
with_session =
    record {
      headers = [];
      url_params = [];
      cookie_jar = some 7;
      parser_id = [];
      alt_link = 0;
      modifiers = [];
    }
    ∷ []

new_with_logger_shares_example :
    (context' : RequestorContext ℕ ℕ ℕ) × (new_with_logger backend (some 3) context with_session
      ≡ some (context', with_session))
    × (context'.config ≡ context.config)
    × ((chooser user : RequestorContext ℕ ℕ ℕ)
        → Elem chooser (context ∷ context' ∷ [])
        → Elem user (context ∷ context' ∷ [])
        → alt_link backend user (set_alt_link backend 2 chooser with_session) ≡ 2)
new_with_logger_shares_example =
    new_with_logger_shares backend services none [] with_session context (some 3) 2 {jar = 7} tt
      (unfold new_context placed assemble with_cache with_jar config_at new_config in refl)
      (unfold config_at in refl)
