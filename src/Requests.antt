-- ===== src/Requests.antt =====
-- include/aniparse/types/Request.hpp: URL parameters, the requests, and the form body.
pub mod Form
mod Tests
use aniparse.Prelude.{
  ℕ, ◌-◌, Bool, List, [], ◌∷◌, ◌++◌, Option, none, some, ◌==◌, Bytes, bytes_eq, erase_if, is_some,
  if◌then◌else◌, length,
}
use aniparse.Headers.{Headers}
use aniparse.Url.Encode.{url_encode}

-- Raw pairs in insertion order; a key may repeat.
abbrev pub UrlParameters : Type 0
UrlParameters = List (Bytes × Bytes)

unfoldable pub set_param : Bytes → Bytes → UrlParameters → UrlParameters
set_param key value [] = (key, value) ∷ []
set_param key value ((k, v) ∷ params) =
    let rest = set_param key value params in
    if bytes_eq k key then (k, value) ∷ params else (k, v) ∷ rest

unfoldable pub add_param : Bytes → Bytes → UrlParameters → UrlParameters
add_param key value params = params ++ (key, value) ∷ []

-- How many were removed, and what is left.
unfoldable pub remove_param : Bytes → UrlParameters → ℕ × UrlParameters
remove_param key params =
    let left = erase_if (λ p. bytes_eq p.0 key) params in (length params - length left, left)

unfoldable pub get_param : Bytes → UrlParameters → Option Bytes
get_param key [] = none
get_param key ((k, v) ∷ params) =
    let later = get_param key params in if bytes_eq k key then some v else later

unfoldable pub has_param : Bytes → UrlParameters → Bool
has_param key params = is_some (get_param key params)

-- `to_urlencoded`, from a body on.
unfoldable pub urlencoded_from : Bytes → UrlParameters → Bytes
urlencoded_from body [] = body
urlencoded_from body ((k, v) ∷ params) =
    let joined = if length body == 0 then body else body ++ b'&' ∷ [] in
    urlencoded_from (joined ++ (url_encode k ++ (b'=' ∷ url_encode v))) params

unfoldable pub to_urlencoded : UrlParameters → Bytes
to_urlencoded params = urlencoded_from [] params

pub data HttpMethod : Type 0 where
  get head post put patch delete options : HttpMethod

pub data PartSource : Type 0 where
  text_source buffer_source file_source : Bytes → PartSource

pub record MultipartPart : Type 0 where
  pub name : Bytes
  pub source : PartSource
  pub filename : Option Bytes
  pub content_type : Option Bytes

pub data Payload : Type 0 where
  no_body : Payload
  body : Bytes → Payload
  forms : List MultipartPart → Payload

-- GetRequest, PostRequest and PostMultipartRequest, which differ in their payload.
pub record ClientRequest : Type 0 where
  pub url : Bytes
  pub url_params : UrlParameters
  pub headers : Headers
  pub payload : Payload
  pub method : HttpMethod
