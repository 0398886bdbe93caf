-- ===== src/Cookies.antt =====
-- Cookies: the matching rules, the Netscape line format and `CookieStore` of src/net/CookieStore.cpp
-- (the record is that of include/aniparse/net/CookieJar.hpp). A time point is a number of clock
-- ticks since the epoch, with `ticks` of them to the second.
pub mod Netscape
pub mod Store
pub mod Matching
pub mod Sent
mod Tests
use aniparse.Prelude.{
  ◌>>=◌, ℕ, zero, suc, ◌+◌, ◌-◌, Bool, true, false, not, ◌&&◌, ◌||◌, List, [], ◌∷◌, ◌++◌, Option,
  none, some, ◌==◌, ltb, leb, Bytes, codes, within, bytes_eq, has_prefix, if◌then◌else◌, length,
  get_or, drop,
}
use aniparse.Prelude.Int.{ℤ, pos, negsuc, leb_ℤ, scale, truncate}
use aniparse.Prelude.Decimal.{to_string, from_chars}

pub record Cookie : Type 0 where
  pub name : Bytes
  pub value : Bytes
  pub domain : Bytes
  pub path : Bytes
  pub expires : Option ℤ
  pub secure : Bool
  pub http_only : Bool
  pub include_subdomains : Bool

abbrev pub httponly_prefix : Bytes
httponly_prefix = codes "#HttpOnly_"

-- `std::tolower` of the C locale.
unfoldable pub tolower : ℕ → ℕ
tolower c = if within b'A' b'Z' c then c + 32 else c

-- `std::ranges::equal` with that comparison.
unfoldable pub equals_ignore_case : Bytes → Bytes → Bool
equals_ignore_case [] [] = true
equals_ignore_case (x ∷ xs) (y ∷ ys) = tolower x == tolower y && equals_ignore_case xs ys
equals_ignore_case _ _ = false

unfoldable pub ends_with_ignore_case : Bytes → Bytes → Bool
ends_with_ignore_case text suffix =
    leb (length suffix) (length text)
    && equals_ignore_case (drop (length text - length suffix) text) suffix

unfoldable pub is_expired : Cookie → ℤ → Bool
is_expired c now = elim c.expires [ none ↦ false | some t ↦ leb_ℤ t now ]

unfoldable pub same_identity : Cookie → Cookie → Bool
same_identity left right =
    bytes_eq left.name right.name
    && bytes_eq left.domain right.domain
    && bytes_eq left.path right.path

-- The domain without its leading dot, and the flag that the dot sets.
unfoldable pub domain_scope : Bytes → Bool → Bytes × Bool
domain_scope [] flag = ([], flag)
domain_scope (c ∷ d) flag = if c == b'.' then (d, true) else (c ∷ d, flag)

unfoldable pub cookie_domain_matches : Cookie → Bytes → Bool
cookie_domain_matches c host =
    let (domain, include_subdomains) = domain_scope c.domain c.include_subdomains in
    if length domain == 0
    then false
    else if equals_ignore_case host domain
    then true
    else include_subdomains
      && ltb (length domain) (length host)
      && ends_with_ignore_case host domain
      && get_or host (length host - length domain - 1) 0 == b'.'

unfoldable pub cookie_path_matches : Cookie → Bytes → Bool
cookie_path_matches c path =
    let scope = c.path in
    let full = if length path == 0 then b'/' ∷ [] else path in
    if length scope == 0 || bytes_eq scope (b'/' ∷ [])
    then true
    else if not (has_prefix scope full)
    then false
    else length full == length scope
      || get_or scope (length scope - 1) 0 == b'/'
      || get_or full (length scope) 0 == b'/'

-- `line.find('\t')`, with what stands before and behind it.
unfoldable pub cut_tab : Bytes → Option (Bytes × Bytes)
cut_tab [] = none
cut_tab (c ∷ s) =
    let rest = cut_tab s in if c == b'\t' then some ([], s) else (do p ← rest; some (c ∷ p.0, p.1))

-- The field loop, with the number of fields that are still wanted. The last field is the rest of the
-- line.
unfoldable pub split_fields : ℕ → Bytes → List Bytes
split_fields zero s = []
split_fields (suc zero) s = s ∷ []
split_fields (suc (suc k)) s = elim (cut_tab s) [
  | none ↦ s ∷ []
  | some (field, rest) ↦ field ∷ split_fields (suc k) rest
]

-- The domain field without its mark, and whether it had one.
unfoldable pub http_only_domain : Bytes → Bytes × Bool
http_only_domain d =
    if has_prefix httponly_prefix d then (drop (length httponly_prefix) d, true) else (d, false)

unfoldable pub is_true : Bytes → Bool
is_true field = bytes_eq field (codes "TRUE")

abbrev pub is_zero : ℤ → Bool
is_zero (pos zero) = true
is_zero _ = false

abbrev pub flag : Bool → Bytes
flag b = if b then codes "TRUE" else codes "FALSE"

module _ (ticks : ℕ) where
  unfoldable pub expires_of : Bytes → Option ℤ
  expires_of field =
      let seconds = from_chars field in if is_zero seconds then none else some (scale seconds ticks)

  unfoldable pub cookie_of : List Bytes → Option Cookie
  cookie_of (f0 ∷ f1 ∷ f2 ∷ f3 ∷ f4 ∷ f5 ∷ f6 ∷ []) =
      let (domain, http_only) = http_only_domain f0 in
      some (record {
        name = f5;
        value = f6;
        domain = domain;
        path = f2;
        expires = expires_of f4;
        secure = is_true f3;
        http_only = http_only;
        include_subdomains = is_true f1;
      })
  cookie_of _ = none

  unfoldable pub parse_netscape_line : Bytes → Option Cookie
  parse_netscape_line line = cookie_of (split_fields 7 line)

  unfoldable pub expires_seconds : Option ℤ → ℤ
  expires_seconds none = pos 0
  expires_seconds (some t) = truncate t ticks

  unfoldable pub to_netscape_line : Cookie → Bytes
  to_netscape_line c =
      ((if c.http_only then httponly_prefix else []) ++ c.domain)
      ++ (b'\t'
          ∷ (flag c.include_subdomains
              ++ (b'\t'
                  ∷ (c.path
                      ++ (b'\t'
                          ∷ (flag c.secure
                              ++ (b'\t'
                                  ∷ (to_string (expires_seconds c.expires)
                                      ++ (b'\t' ∷ (c.name ++ (b'\t' ∷ c.value)))))))))))
