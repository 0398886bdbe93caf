-- ===== src/Url/Parsed.antt =====
-- `ParsedUrl`: the parts of a URL as offsets into its serialization. The URL parser is lexbor's; what
-- the code reads of its result is `LexborUrl`, where `none` is a serializer that fails.
pub mod Components
pub mod Views
use aniparse.Prelude.{
  ◌>>=◌, ◌>>◌, ℕ, ◌+◌, ◌-◌, ◌%◌, ◌^◌, Bool, not, ◌||◌, Option, none, some, ◌==◌, ltb, Bytes,
  if◌then◌else◌, length, take, drop, guard,
}

pub record LexborUrl : Type 0 where
  pub href : Option Bytes
  pub scheme : Option Bytes
  pub host : Option Bytes
  pub path : Option Bytes
  pub query : Option Bytes
  pub fragment : Option Bytes
  pub has_query : Bool
  pub has_fragment : Bool
  pub has_host : Bool
  pub username : Bytes
  pub password : Bytes

pub record UrlPart : Type 0 where
  pub offset : ℕ
  pub len : ℕ

pub record ParsedUrl : Type 0 where
  pub href_ : Bytes
  pub scheme_ : UrlPart
  pub host_ : UrlPart
  pub path_ : UrlPart
  pub query_ : UrlPart
  pub fragment_ : UrlPart

abbrev pub u32 : ℕ → ℕ
u32 n = n % 2 ^ 32

-- `size_t` subtraction.
abbrev pub sub64 : ℕ → ℕ → ℕ
sub64 a b = (a + 2 ^ 64 - b) % 2 ^ 64

abbrev pub count_if : Bool → ℕ
count_if b = if b then 1 else 0

abbrev pub u32_max : ℕ
u32_max = 2 ^ 32 - 1

-- The length that a serializer reports, where it succeeds and the length fits.
unfoldable pub serialized_length : Option Bytes → Option ℕ
serialized_length serialized = do
  text ← serialized
  if ltb u32_max (length text) then none else some (length text)

-- The offset of the host in the serialization, behind the scheme and the credentials.
unfoldable pub host_offset : ℕ → LexborUrl → ℕ
host_offset scheme_length l =
    let user = length l.username in
    let secret = length l.password in
    let offset = u32 (scheme_length + 3) in
    if not (user == 0) || not (secret == 0)
    then u32 (u32 (offset + u32 (user + secret + 1)) + count_if (not (secret == 0)))
    else offset

unfoldable pub parts : Bytes → LexborUrl → ℕ → ℕ → ℕ → ℕ → ℕ → ParsedUrl
parts href l scheme_length host_length path_length query_length fragment_length =
    let mark = count_if l.has_query in
    let hash = count_if l.has_fragment in
    let path_offset = u32 (
      sub64
        (sub64 (sub64 (sub64 (sub64 (length href) path_length) query_length) fragment_length) mark)
        hash) in
    let query_offset = u32 (path_offset + path_length + mark) in
    record {
      href_ = href;
      scheme_ = record { offset = 0; len = scheme_length };
      host_ =
          if l.has_host
          then record { offset = host_offset scheme_length l; len = host_length }
          else record { offset = 0; len = 0 };
      path_ = record { offset = path_offset; len = path_length };
      query_ = record { offset = query_offset; len = query_length };
      fragment_ = record {
        offset = u32 (query_offset + query_length + hash);
        len = fragment_length;
      };
    }

-- What is made of lexbor's result.
unfoldable pub from_lexbor : LexborUrl → Option ParsedUrl
from_lexbor l = do
  href ← l.href
  guard (not (ltb u32_max (length href)))
  scheme_length ← serialized_length l.scheme
  host_length ← serialized_length l.host
  path_length ← serialized_length l.path
  query_length ← serialized_length l.query
  fragment_length ← serialized_length l.fragment
  some (parts href l scheme_length host_length path_length query_length fragment_length)

-- The whole of `ParsedUrl::parse`, over lexbor's parser.
unfoldable pub parse : (Bytes → Option LexborUrl) → Bytes → Option ParsedUrl
parse lexbor url = do parsed ← lexbor url; from_lexbor parsed

-- A view of a part.
unfoldable pub view : ParsedUrl → UrlPart → Bytes
view u p = take p.len (drop p.offset u.href_)

abbrev pub scheme : ParsedUrl → Bytes
scheme u = view u u.scheme_

abbrev pub host : ParsedUrl → Bytes
host u = view u u.host_

abbrev pub path : ParsedUrl → Bytes
path u = view u u.path_

abbrev pub query : ParsedUrl → Bytes
query u = view u u.query_

abbrev pub fragment : ParsedUrl → Bytes
fragment u = view u u.fragment_
