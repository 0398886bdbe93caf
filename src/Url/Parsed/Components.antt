-- ===== src/Url/Parsed/Components.antt =====
-- A URL's components, and its serialization as the URL standard writes it.
use aniparse.Prelude.{
  ℕ, ◌+◌, ◌-◌, ◌^◌, ◌≤◌, ◌<◌, not, ◌||◌, [], ◌∷◌, ◌++◌, append_assoc, Option, none, some, ◌≡◌, refl,
  ap, ◌∙◌, arith, ◌==◌, Bytes, is_some, if◌then◌else◌, length, length-append, take, drop,
  take-append, drop-append,
}
use aniparse.Url.Parsed.{LexborUrl, sub64, u32_max, count_if, serialized_length}

-- The components of a URL. `between` is what the serialization has between the host and the path:
-- a port, or the `/.` that keeps a path from reading as a host.
pub record Components : Type 0 where
  pub scheme_text : Bytes
  pub host_text : Option Bytes
  pub between : Bytes
  pub path_text : Bytes
  pub query_text : Option Bytes
  pub fragment_text : Option Bytes
  pub user : Bytes
  pub secret : Bytes

abbrev pub text_of : Option Bytes → Bytes
text_of none = []
text_of (some t) = t

abbrev pub marked : ℕ → Option Bytes → Bytes
marked mark none = []
marked mark (some t) = mark ∷ t

unfoldable pub credentials : Bytes → Bytes → Bytes
credentials user secret =
    if not (length user == 0) || not (length secret == 0)
    then user ++ ((if not (length secret == 0) then b':' ∷ secret else []) ++ b'@' ∷ [])
    else []

-- What stands in front of the host, and from the host to the path.
unfoldable pub before_host : Components → Bytes
before_host c = c.scheme_text ++ (b':' ∷ b'/' ∷ b'/' ∷ credentials c.user c.secret)

unfoldable pub front : Components → Bytes
front c = elim c.host_text [
  | none ↦ c.scheme_text ++ (b':' ∷ c.between)
  | some h ↦ before_host c ++ (h ++ c.between)
]

unfoldable pub serialize : Components → Bytes
serialize c = front c ++ (c.path_text ++ (marked b'?' c.query_text ++ marked b'#' c.fragment_text))

-- lexbor's result for a URL with these components, as the URL standard serializes it.
unfoldable pub serialized : Components → LexborUrl
serialized c = record {
  href = some (serialize c);
  scheme = some c.scheme_text;
  host = some (text_of c.host_text);
  path = some c.path_text;
  query = some (text_of c.query_text);
  fragment = some (text_of c.fragment_text);
  has_query = is_some c.query_text;
  has_fragment = is_some c.fragment_text;
  has_host = is_some c.host_text;
  username = c.user;
  password = c.secret;
}

-- Cutting a piece out of its place.
pub cut :
    (pre x post : Bytes) (n : ℕ)
    → n ≡ length pre
    → take (length x) (drop n (pre ++ (x ++ post))) ≡ x
cut pre x post n e = rw e (ap (take (length x)) (drop-append pre (x ++ post)) ∙ take-append x post)

pub sub64-le : (a b : ℕ) → b ≤ a → a < 2 ^ 64 → sub64 a b ≡ a - b
sub64-le a b h k = omega arith

pub length-credentials :
    (user secret : Bytes)
    → length (credentials user secret) ≡ (
        if not (length user == 0) || not (length secret == 0)
        then length user + length secret + 1 + count_if (not (length secret == 0))
        else 0)
unfolding credentials
length-credentials user secret = ground (
  arith,
  length-append user ((if not (length secret == 0) then b':' ∷ secret else []) ++ b'@' ∷ []),
  length-append (if not (length secret == 0) then b':' ∷ secret else []) (b'@' ∷ []),
)

pub length-marked :
    (m : ℕ) (o : Option Bytes) → length (marked m o) ≡ length (text_of o) + count_if (is_some o)
length-marked m none = omega arith
length-marked m (some t) = omega arith

pub serialized_length_fits :
    (t : Bytes) → length t ≤ u32_max → serialized_length (some t) ≡ some (length t)
unfolding serialized_length
serialized_length_fits t h = ground arith

-- The text behind a mark, if there is one.
pub marked_cut :
    (m : ℕ) (o : Option Bytes) (pre post : Bytes) (n : ℕ)
    → n ≡ length pre + count_if (is_some o)
    → take (length (text_of o)) (drop n (pre ++ (marked m o ++ post))) ≡ text_of o
marked_cut m none pre post n e = refl
marked_cut m (some t) pre post n e =
    rw (← append_assoc pre (m ∷ []) (t ++ post))
      (cut (pre ++ m ∷ []) t post n (omega (arith, e, length-append pre (m ∷ []))))
