-- ===== src/Headers.antt =====
-- `Headers` (include/aniparse/types/Headers.hpp, src/types/Headers.cpp): an insertion-ordered list
-- of name and value pairs with lookup that ignores ASCII case.
pub mod Laws
pub mod Wire
mod Tests
use aniparse.Prelude.{
  ◌>>=◌, ℕ, ◌+◌, ◌-◌, Bool, true, false, not, ◌&&◌, List, [], ◌∷◌, ◌++◌, Option, none, some, ◌==◌,
  Bytes, within, bytes_eq, erase_if, any_of, is_some, if◌then◌else◌, length, get_elem?,
}

abbrev pub Header : Type 0
Header = Bytes × Bytes

abbrev pub Headers : Type 0
Headers = List Header

-- `CaseInsensitiveLess::to_lower`
unfoldable pub to_lower : ℕ → ℕ
to_lower c = if within b'A' b'Z' c then c - b'A' + b'a' else c

-- The loop of `iequal`, over names of one length.
unfoldable pub same_letters : Bytes → Bytes → Bool
same_letters (x ∷ xs) (y ∷ ys) = to_lower x == to_lower y && same_letters xs ys
same_letters _ _ = true

unfoldable pub iequal : Bytes → Bytes → Bool
iequal left right = if not (length left == length right) then false else same_letters left right

-- `find_index`, with `none` for `npos`.
unfoldable pub find_index_from : ℕ → Bytes → Headers → Option ℕ
find_index_from i name [] = none
find_index_from i name ((n, v) ∷ hs) =
    let rest = find_index_from (i + 1) name hs in if iequal n name then some i else rest

unfoldable pub find_index : Bytes → Headers → Option ℕ
find_index name hs = find_index_from 0 name hs

unfoldable pub contains : Bytes → Headers → Bool
contains name hs = is_some (find_index name hs)

abbrev pub value_at : Headers → ℕ → Option Bytes
value_at hs i = elim (get_elem? hs i) [ none ↦ none | some (n, v) ↦ some v ]

-- `at`; `none` is the exception `std::out_of_range`.
unfoldable pub at : Bytes → Headers → Option Bytes
at name hs = do i ← find_index name hs; value_at hs i

unfoldable pub get : Bytes → Headers → Bytes
get name hs = elim (at name hs) [ none ↦ [] | some v ↦ v ]

unfoldable pub get_all : Bytes → Headers → List Bytes
get_all name [] = []
get_all name ((n, v) ∷ hs) = let rest = get_all name hs in if iequal n name then v ∷ rest else rest

unfoldable pub append : Bytes → Bytes → Headers → Headers
append name value hs = hs ++ (name, value) ∷ []

-- The entries that `erase` leaves, and how many it removed.
unfoldable pub erased : Bytes → Headers → Headers
erased name hs = erase_if (λ h. iequal h.0 name) hs

unfoldable pub erase : Bytes → Headers → ℕ × Headers
erase name hs = let rest = erased name hs in (length hs - length rest, rest)

unfoldable pub set_header : Bytes → Bytes → Headers → Headers
set_header name value hs = append name value (erase name hs).1

-- `merge_missing`: each entry of the other set is compared with the original entries only.
unfoldable pub merge_loop : Headers → Headers → Headers → Headers
merge_loop original hs [] = hs
merge_loop original hs ((n, v) ∷ other) =
    merge_loop original (if any_of (λ h. iequal h.0 n) original then hs else append n v hs) other

unfoldable pub merge_missing : Headers → Headers → Headers
merge_missing hs other = merge_loop hs hs other

-- `operator==`
unfoldable pub equal_entries : Headers → Headers → Bool
equal_entries ((n, v) ∷ hs) ((m, w) ∷ ks) = iequal n m && bytes_eq v w && equal_entries hs ks
equal_entries _ _ = true

unfoldable pub equal : Headers → Headers → Bool
equal hs ks = if not (length hs == length ks) then false else equal_entries hs ks
