-- ===== src/ClientContext.antt =====
-- src/ClientContext.cpp: how a configuration is merged into a request, and what becomes of the answer.
-- What a client answers is a parameter, as are the parsers of the responses and the type of cookie
-- jars. The code asserts that no modifier changes the kind of a request (its payload here).
pub mod Contexts
pub mod Requesting
pub mod Sharing
mod Tests
use aniparse.Prelude.{
  ℕ, Bool, false, ◌&&◌, ◌||◌, List, [], ◌∷◌, ◌++◌, Option, none, some, ◌==◌, Bytes, codes,
  if◌then◌else◌,
}
use aniparse.Prelude.Int.{ℤ, pos, negsuc, leb_ℤ, ltb_ℤ}
use aniparse.Prelude.Decimal.{to_string}
use aniparse.Prelude.StdMap.{StdMap}
use aniparse.Headers.{Headers, merge_missing}
use aniparse.Requests.{UrlParameters, add_param, ClientRequest}

-- The flags, which no code here reads, are left out.
pub record ParserConfig (Jar : Type 0) : Type 0 where
  pub headers : Headers
  pub url_params : StdMap Bytes
  pub cookie_jar : Option Jar
  pub parser_id : Bytes
  pub alt_link : ℕ
  pub modifiers : List (ClientRequest → ClientRequest)

unfoldable pub new_config : {Jar : Type 0} → ParserConfig Jar
new_config = record {
  headers = [];
  url_params = [];
  cookie_jar = none;
  parser_id = [];
  alt_link = 0;
  modifiers = [];
}

unfoldable pub add_params : StdMap Bytes → UrlParameters → UrlParameters
add_params [] params = params
add_params ((k, v) ∷ more) params = add_params more (add_param k v params)

unfoldable pub merged : {Jar : Type 0} → ParserConfig Jar → ClientRequest → ClientRequest
merged config request = record request {
  headers = merge_missing request.headers config.headers;
  url_params = add_params config.url_params request.url_params;
}

unfoldable pub modified : List (ClientRequest → ClientRequest) → ClientRequest → ClientRequest
modified [] request = request
modified (modifier ∷ modifiers) request = modified modifiers (modifier request)

unfoldable pub apply_config_to : {Jar : Type 0} → ParserConfig Jar → ClientRequest → ClientRequest
apply_config_to config request = modified config.modifiers (merged config request)

pub data RequestErrorCode : Type 0 where
  unknown not_implemented invalid_arguments network_error cancelled server_error : RequestErrorCode
  invalid_credentials not_found rate_limited unexpected_response interaction_required :
      RequestErrorCode

pub record RequestError : Type 0 where
  pub code : RequestErrorCode
  pub message : Bytes
  pub http_status : Option ℤ
  pub body : Bytes

pub record ResponseData : Type 0 where
  pub status_code : ℤ
  pub body : Bytes
  pub headers : Headers
  pub effective_url : Option Bytes

pub data Response {ℓ} (A : Type ℓ) : Type ℓ where
  ok : A → Response A
  unexpected : RequestError → Response A

unfoldable pub is_success_status : ℤ → Bool
is_success_status status = leb_ℤ (pos 200) status && ltb_ℤ status (pos 300)

unfoldable pub is_status : ℕ → ℤ → Bool
is_status n (pos m) = m == n
is_status n (negsuc m) = false

unfoldable pub status_to_error_code : ℤ → RequestErrorCode
status_to_error_code status =
    if is_status 401 status || is_status 403 status
    then invalid_credentials
    else if is_status 404 status
    then not_found
    else if is_status 429 status
    then rate_limited
    else if leb_ℤ (pos 500) status
    then server_error
    else unknown

unfoldable pub require_success : ResponseData → Response ResponseData
require_success response =
    if is_success_status response.status_code
    then ok response
    else unexpected record {
      code = status_to_error_code response.status_code;
      message = codes "HTTP " ++ to_string response.status_code;
      http_status = some response.status_code;
      body = response.body;
    }

unfoldable pub fetch_ok : Response ResponseData → Response ResponseData
fetch_ok (unexpected e) = unexpected e
fetch_ok (ok response) = require_success response

-- What a parser makes of a body: a value, or a message.
pub data Parsed (A : Type 0) : Type 0 where
  parsed : A → Parsed A
  refused : Bytes → Parsed A

module _ {A : Type 0} (prefix : Bytes) (parse : Bytes → Parsed A) where
  unfoldable pub parsed_as : ResponseData → Parsed A → Response A
  parsed_as response (parsed value) = ok value
  parsed_as response (refused why) = unexpected record {
    code = unexpected_response;
    message = prefix ++ why;
    http_status = some response.status_code;
    body = response.body;
  }

  unfoldable pub parse_fetched : Response ResponseData → Response A
  parse_fetched (unexpected e) = unexpected e
  parse_fetched (ok response) = parsed_as response (parse response.body)

-- `request`: the client gets the configured request with the jar of the session.
module _ {Jar : Type 0} (do_request : ClientRequest → Option Jar → Response ResponseData) where
  unfoldable pub request : ParserConfig Jar → ClientRequest → Response ResponseData
  request config any_request = do_request (apply_config_to config any_request) config.cookie_jar

  -- request_html and request_json, with their parser and the words before its message.
  unfoldable pub request_parsed :
      {A : Type 0} → Bytes → (Bytes → Parsed A) → ParserConfig Jar → ClientRequest → Response A
  request_parsed prefix parse config any_request =
      parse_fetched prefix parse (fetch_ok (request config any_request))

  -- Documents are what the HTML parser makes.
  unfoldable pub request_html :
      {Document : Type 0}
      → (Bytes → Parsed Document)
      → ParserConfig Jar
      → ClientRequest
      → Response Document
  request_html parse config any_request =
      request_parsed (codes "HTML parse failed: ") parse config any_request

  unfoldable pub request_json :
      {Value : Type 0} → (Bytes → Parsed Value) → ParserConfig Jar → ClientRequest → Response Value
  request_json parse config any_request =
      request_parsed (codes "JSON parse failed: ") parse config any_request
