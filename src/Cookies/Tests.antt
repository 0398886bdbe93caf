-- ===== src/Cookies/Tests.antt =====
-- Concrete cookies.
use aniparse.Prelude.{
  ◌↔◌, ℕ, true, false, not, [], ◌∷◌, some, ◌≡◌, refl, arith, codes, erase_if, has_prefix, find_if,
  bytes_eq,
}
use aniparse.Prelude.Int.{pos, truncate}
use aniparse.Cookies.{
  Cookie, is_expired, domain_scope, cookie_domain_matches, ends_with_ignore_case,
  equals_ignore_case, tolower, parse_netscape_line, to_netscape_line, same_identity,
  expires_seconds,
}
use aniparse.Cookies.Netscape.{IsLine, stored_expires, parse-to_netscape_line}
use aniparse.Cookies.Sent.{IsLive, IsSent, is_sent}
use aniparse.Cookies.Store.{cookies_for, IsDistinct, cookies_for_lem, epoch_cookie_revived}

-- Nanoseconds.
abbrev ticks : ℕ
ticks = 1000000000

abbrev session : Cookie
session = record {
  name = codes "sid";
  value = codes "a\tb";
  domain = codes "example.com";
  path = codes "/";
  expires = some (pos 1700000000500000000);
  secure = true;
  http_only = true;
  include_subdomains = true;
}

abbrev deleted : Cookie
deleted = record session { name = codes "old"; expires = some (pos 5) }

session-IsLine : IsLine ticks session
unfolding expires_seconds truncate has_prefix
session-IsLine = record {
  name_field = omega arith;
  domain_field = omega arith;
  path_field = omega arith;
  unmarked = refl;
  in_range = omega arith;
}

deleted-IsLine : IsLine ticks deleted
unfolding expires_seconds truncate has_prefix
deleted-IsLine = record {
  name_field = omega arith;
  domain_field = omega arith;
  path_field = omega arith;
  unmarked = refl;
  in_range = omega arith;
}

session_sent : cookie_domain_matches session (codes "api.Example.com") ≡ true
unfolding cookie_domain_matches ends_with_ignore_case equals_ignore_case tolower domain_scope
session_sent = refl

parse-to_netscape_line_example :
    parse_netscape_line ticks (to_netscape_line ticks session)
    ≡ some (record session { expires = stored_expires ticks session.expires })
parse-to_netscape_line_example = parse-to_netscape_line ticks session session-IsLine

two_cookies-IsDistinct : IsDistinct (session ∷ deleted ∷ [])
unfolding find_if same_identity bytes_eq
two_cookies-IsDistinct = (refl, (refl, tt))

cookies_for_lem_example :
    ((cookies_for (pos 10) (codes "example.com") (codes "/") true (session ∷ deleted ∷ [])).0
      ≡ erase_if
          (λ c. not (is_sent (pos 10) (codes "example.com") (codes "/") true c))
          (session ∷ deleted ∷ []))
    × ((cookies_for (pos 10) (codes "example.com") (codes "/") true (session ∷ deleted ∷ [])).1
        ≡ erase_if (λ c. is_expired c (pos 10)) (session ∷ deleted ∷ []))
    × ((c : Cookie)
        → ((is_sent (pos 10) (codes "example.com") (codes "/") true c ≡ true)
            ↔ IsSent (pos 10) (codes "example.com") (codes "/") true c)
          × ((is_expired c (pos 10) ≡ false) ↔ IsLive c (pos 10)))
cookies_for_lem_example =
    cookies_for_lem (pos 10) (codes "example.com") (codes "/") true (session ∷ deleted ∷ [])

epoch_cookie_revived_example :
    (is_expired deleted (pos 7) ≡ true)
    × (d : Cookie) × (parse_netscape_line ticks (to_netscape_line ticks deleted) ≡ some d)
    × (is_expired d (pos 1700000000) ≡ false)
epoch_cookie_revived_example =
    epoch_cookie_revived ticks deleted 5 (pos 7) (pos 1700000000) deleted-IsLine refl (omega arith)
      refl
