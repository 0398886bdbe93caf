-- ===== src/UrlPath.antt =====
-- The scanners of include/aniparse/utility/UrlPath.hpp. A position in a string is an index; the loop
-- of `numeric_after` runs on fuel. The value of a run of digits has no bound, where the code's
-- `std::int64_t` overflows.
pub mod Segments
pub mod Numbers
mod Tests
use aniparse.Prelude.{
  ◌>>=◌, ℕ, zero, suc, ◌+◌, ◌-◌, ◌*◌, Bool, false, not, ◌&&◌, ◌||◌, [], ◌∷◌, Option, none, some,
  ◌==◌, ltb, Bytes, codes, is_digit, has_prefix, any_of, all_of, if◌then◌else◌, length, get_or,
  drop,
}

unfoldable pub all_digits : Bytes → Bool
all_digits text = if length text == 0 then false else all_of is_digit text

-- `text.find(marker)`
unfoldable pub index_of : Bytes → Bytes → Option ℕ
index_of marker [] = if length marker == 0 then some 0 else none
index_of marker (c ∷ s) =
    let later = index_of marker s in
    if has_prefix marker (c ∷ s) then some 0 else (do i ← later; some (suc i))

-- `text.find(marker, pos)`
unfoldable pub index_from : Bytes → Bytes → ℕ → Option ℕ
index_from marker text start =
    if ltb (length text) start
    then none
    else (do i ← index_of marker (drop start text); some (start + i))

-- The bytes at the front that pass a test.
unfoldable pub front_while : (ℕ → Bool) → Bytes → Bytes
front_while passes [] = []
front_while passes (c ∷ s) = let rest = front_while passes s in if passes c then c ∷ rest else []

-- `delims.find(c) == npos`
unfoldable pub is_plain : Bytes → ℕ → Bool
is_plain delims c = not (any_of (λ d. d == c) delims)

unfoldable pub segment_after : Bytes → Bytes → Bytes → Option Bytes
segment_after text marker delims = do
  start ← index_of marker text
  let segment = front_while (is_plain delims) (drop (start + length marker) text)
  if length segment == 0 then none else some segment

unfoldable pub decimal_value : ℕ → Bytes → ℕ
decimal_value value [] = value
decimal_value value (c ∷ s) = decimal_value (value * 10 + (c - b'0')) s

unfoldable pub at_boundary : Bytes → Bool → ℕ → Bool
at_boundary text require_boundary start =
    not require_boundary || start == 0 || any_of (λ b. b == get_or text (start - 1) 0) (codes "&?")

-- The loop, from an occurrence of the marker on; the outer `none` is a loop that has not ended.
unfoldable pub numeric_loop : ℕ → Bytes → Bytes → Bool → Option ℕ → Option (Option ℕ)
numeric_loop zero text marker require_boundary start = none
numeric_loop (suc fuel) text marker require_boundary none = some none
numeric_loop (suc fuel) text marker require_boundary (some start) =
    let next =
      numeric_loop fuel text marker require_boundary
        (index_from marker text (start + length marker)) in
    let run = front_while is_digit (drop (start + length marker) text) in
    if at_boundary text require_boundary start && not (length run == 0)
    then some (some (decimal_value 0 run))
    else next

unfoldable pub numeric_after : ℕ → Bytes → Bytes → Bool → Option (Option ℕ)
numeric_after fuel text marker require_boundary =
    numeric_loop fuel text marker require_boundary (index_of marker text)
