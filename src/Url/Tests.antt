-- ===== src/Url/Tests.antt =====
-- Concrete URLs.
use aniparse.Prelude.{◌≤◌, some, ◌≡◌, refl, arith, Bytes, AreBytes, codes, length}
use aniparse.Url.Parsed.{ParsedUrl, u32_max, from_lexbor, scheme, host, path, query, fragment}
use aniparse.Url.Parsed.Components.{
  Components, text_of, serialize, front, before_host, credentials, serialized,
}
use aniparse.Url.Parsed.Views.{from_lexbor-views}
use aniparse.Url.Encode.{url_encode, url_decode}
use aniparse.Url.Encode.RoundTrip.{url_decode-url_encode}

-- https://me:pw@example.com:8080/manga/1?tab=info#top
abbrev page : Components
page = record {
  scheme_text = codes "https";
  host_text = some (codes "example.com");
  between = codes ":8080";
  path_text = codes "/manga/1";
  query_text = some (codes "tab=info");
  fragment_text = some (codes "top");
  user = codes "me";
  secret = codes "pw";
}

page_fits : length (serialize page) ≤ u32_max
unfolding serialize front before_host credentials
page_fits = omega arith

page_href : serialize page ≡ codes "https://me:pw@example.com:8080/manga/1?tab=info#top"
unfolding serialize front before_host credentials
page_href = refl

from_lexbor-views_example :
    (u : ParsedUrl) × (from_lexbor (serialized page) ≡ some u)
    × (u.href_ ≡ serialize page)
    × (scheme u ≡ page.scheme_text)
    × (host u ≡ text_of page.host_text)
    × (path u ≡ page.path_text)
    × (query u ≡ text_of page.query_text)
    × (fragment u ≡ text_of page.fragment_text)
from_lexbor-views_example = from_lexbor-views page page_fits

abbrev title : Bytes
title = codes "50% off/\u{7f}"

title-AreBytes : AreBytes title
title-AreBytes = omega arith

url_decode-url_encode_example : url_decode (url_encode title) ≡ title
url_decode-url_encode_example = url_decode-url_encode title title-AreBytes
