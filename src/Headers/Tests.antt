-- ===== src/Headers/Tests.antt =====
-- Concrete headers.
use aniparse.Prelude.{[], ◌∷◌, ◌≡◌, codes}
use aniparse.Headers.{Headers}
use aniparse.Prelude.{arith, refl}
use aniparse.Headers.{Header}
use aniparse.Headers.Wire.{to_header_lines, trim, trim_front, trim_back, parse_header_block}
use aniparse.Headers.Wire.RoundTrip.{wire, IsHeader, parse_header_block-to_header_lines}

abbrev response : Headers
response =
    (codes "Set-Cookie", codes "a=1")
    ∷ (codes "Server", codes "nginx")
    ∷ (codes "set-cookie", codes "b=2")
    ∷ []

abbrev defaults : Headers
defaults = (codes "SERVER", codes "none") ∷ (codes "Accept", codes "*/*") ∷ []

abbrev cookie_header : Header
cookie_header = (codes "Set-Cookie", codes "a=1; b")

cookie_header-IsHeader : IsHeader cookie_header
unfolding trim trim_front trim_back
cookie_header-IsHeader = record {
  named = ground arith;
  no_colon = omega arith;
  name_line = omega arith;
  value_line = omega arith;
  trimmed = refl;
}

parse_header_block-to_header_lines_example :
    parse_header_block (wire (to_header_lines (cookie_header ∷ cookie_header ∷ [])))
    ≡ cookie_header ∷ cookie_header ∷ []
parse_header_block-to_header_lines_example =
    parse_header_block-to_header_lines (cookie_header ∷ cookie_header ∷ [])
      (cookie_header-IsHeader, (cookie_header-IsHeader, tt))
