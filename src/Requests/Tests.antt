-- ===== src/Requests/Tests.antt =====
-- A form with a repeated key and reserved characters.
use aniparse.Prelude.{List, [], ◌∷◌, ◌≡◌, refl, arith, Bytes, codes}
use aniparse.Requests.{to_urlencoded, urlencoded_from}
use aniparse.Requests.Form.{read_form, read_form-to_urlencoded}
use aniparse.Url.Encode.{url_encode, encode_by, is_unreserved, percent, hex}

abbrev form : List (Bytes × Bytes)
form = (codes "tag", codes "a&b") ∷ (codes "tag", []) ∷ []

form_body : to_urlencoded form ≡ codes "tag=a%26b&tag="
unfolding to_urlencoded urlencoded_from url_encode encode_by is_unreserved percent hex
form_body = refl

read_form-to_urlencoded_example : read_form (to_urlencoded form) ≡ form
read_form-to_urlencoded_example = read_form-to_urlencoded form (omega arith)
