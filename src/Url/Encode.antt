-- ===== src/Url/Encode.antt =====
-- The percent codecs of utility/UrlEncode.hpp, over the bytes of a string.
pub mod RoundTrip
use aniparse.Prelude.{
  ◌>>=◌, ℕ, ◌+◌, ◌-◌, ◌*◌, ◌/◌, ◌%◌, Bool, ◌||◌, [], ◌∷◌, ◌++◌, Option, none, some, ◌==◌, Bytes,
  codes, within, if◌then◌else◌, get_or,
}

unfoldable pub is_unreserved : ℕ → Bool
is_unreserved c =
    within b'A' b'Z' c
    || within b'a' b'z' c
    || within b'0' b'9' c
    || c == b'-'
    || c == b'.'
    || c == b'_'
    || c == b'~'

unfoldable pub is_reserved : ℕ → Bool
is_reserved c =
    c == b':'
    || c == b'/'
    || c == b'?'
    || c == b'#'
    || c == b'['
    || c == b']'
    || c == b'@'
    || c == b'!'
    || c == b'$'
    || c == b'&'
    || c == b'\''
    || c == b'('
    || c == b')'
    || c == b'*'
    || c == b'+'
    || c == b','
    || c == b';'
    || c == b'='
    || c == b'%'

unfoldable pub is_uri_character : ℕ → Bool
is_uri_character c = is_unreserved c || is_reserved c

-- `hex[n]`
unfoldable pub hex : ℕ → ℕ
hex n = get_or (codes "0123456789ABCDEF") n 0

-- `c >> 4` and `c & 0x0F` of a byte.
unfoldable pub percent : ℕ → Bytes
percent c = b'%' ∷ hex (c / 16) ∷ hex (c % 16) ∷ []

-- The loop of both encoders, over the bytes that pass through.
unfoldable pub encode_by : (ℕ → Bool) → Bytes → Bytes
encode_by passes [] = []
encode_by passes (c ∷ s) = (if passes c then c ∷ [] else percent c) ++ encode_by passes s

unfoldable pub url_encode : Bytes → Bytes
url_encode s = encode_by is_unreserved s

unfoldable pub url_encode_uri : Bytes → Bytes
url_encode_uri s = encode_by is_uri_character s

-- The value of a hexadecimal digit, `none` for the -1 of the code.
unfoldable pub hex_digit : ℕ → Option ℕ
hex_digit c =
    if within b'0' b'9' c
    then some (c - b'0')
    else if within b'A' b'F' c
    then some (c - b'A' + 10)
    else if within b'a' b'f' c
    then some (c - b'a' + 10)
    else none

-- The byte that three bytes name, if they are an escape.
unfoldable pub escaped : ℕ → ℕ → ℕ → Option ℕ
escaped c a b =
    if c == b'%' then (do hi ← hex_digit a; lo ← hex_digit b; some (hi * 16 + lo)) else none

unfoldable pub url_decode : Bytes → Bytes
url_decode [] = []
url_decode (c ∷ []) = c ∷ []
url_decode (c ∷ a ∷ []) = c ∷ url_decode (a ∷ [])
url_decode (c ∷ a ∷ b ∷ s) = elim (escaped c a b) [
  | none ↦ c ∷ url_decode (a ∷ b ∷ s)
  | some v ↦ v ∷ url_decode s
]
