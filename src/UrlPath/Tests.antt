-- ===== src/UrlPath/Tests.antt =====
-- Concrete paths.
use aniparse.Prelude.{
  ◌+◌, true, false, none, some, ◌≡◌, refl, ◌≢◌, arith, Bytes, codes, has_prefix, is_digit, any_of,
  length,
}
use aniparse.UrlPath.{index_of, front_while, is_plain, segment_after, numeric_after}
use aniparse.UrlPath.Numbers.{numeric_after_ends}

abbrev page : Bytes
page = codes "/manga/one-piece?tab=info"

slug_found : segment_after page (codes "/manga/") (codes "/?#") ≡ some (codes "one-piece")
unfolding segment_after index_of has_prefix front_while is_plain any_of
slug_found = refl

numeric_after_ends_example :
    numeric_after
      (length (codes "pool_id=3&id=12") + 2)
      (codes "pool_id=3&id=12")
      (codes "id=")
      true
    ≢ none
numeric_after_ends_example =
    numeric_after_ends (codes "pool_id=3&id=12") (codes "id=") true (omega arith)

not_digit : is_digit b'/' ≡ false
unfolding is_digit
not_digit = refl
