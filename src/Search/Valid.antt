-- ===== src/Search/Valid.antt =====
-- Which queries are valid.
use aniparse.Prelude.StdMap
use aniparse.Prelude.StdMap.{StdMap}
use aniparse.Prelude.{
  Bool, true, [], ◌∷◌, Option, none, some, ◌≡◌, refl, sym, ◌≢◌, ◌↔◌, arith, ◌==◌, Bytes,
  if◌then◌else◌, length, All,
}
use mathlib.Core.Path.{subst}
use aniparse.Search.{
  TextQuery, SearchItemVariant, text_query, int_interval, time_interval, relative_time_interval,
  item_selection, checkmark, SearchItems, SortOrder, SortDescriptor, SupportedSorts,
  exclusion_not_supported, invalid_value, report, exclusion_denied, text_invalid, filter_errors,
  key_errors, validate_search_query, sort_errors, validate_sort, SearchCompatibilities,
  validate_query,
}
use aniparse.Search.Intervals.{
  MayExclude, IsValue, append-none, report-none, exclusion_denied_iff, interval_errors_iff,
}
use aniparse.Search.Selections.{filter_errors-IsSelection}

text_errors_iff :
    (key : Bytes) (d v : TextQuery)
    → (filter_errors key (text_query d) (text_query v) ≡ [])
      ↔ (MayExclude d.exclusive v.exclusive × (length v.text ≢ 0))
unfolding filter_errors text_invalid
text_errors_iff key d v =
    let denied = exclusion_denied d.exclusive v.exclusive in
    let bad : Bool = length v.text == 0 in
    let split =
      append-none (report denied exclusion_not_supported key) (report bad invalid_value key) in
    let may = exclusion_denied_iff d.exclusive v.exclusive in
    (
      λ h.
          let full = (report-none bad invalid_value key).0 (split.0 h).1 in
          (
            may.0 ((report-none denied exclusion_not_supported key).0 (split.0 h).0),
            λ empty. absurd (ground (arith, full, empty)),
          ),
      λ h. split.1 (
        (report-none denied exclusion_not_supported key).1 (may.1 h.0),
        (report-none bad invalid_value key).1 (ground (arith, h.1)),
      ),
    )

filter_errors_iff :
    (key : Bytes) (d v : SearchItemVariant) → (filter_errors key d v ≡ []) ↔ IsValue d v
unfolding filter_errors
filter_errors_iff key (text_query d) (text_query v) = text_errors_iff key d v
filter_errors_iff key (int_interval d) (int_interval v) = interval_errors_iff key d v
filter_errors_iff key (time_interval d) (time_interval v) = interval_errors_iff key d v
filter_errors_iff key (relative_time_interval d) (relative_time_interval v) =
    interval_errors_iff key d v
filter_errors_iff key (item_selection d) (item_selection v) = filter_errors-IsSelection key d v
filter_errors_iff key (checkmark d) (checkmark v) =
    let may = exclusion_denied_iff d.exclusive v.exclusive in
    let none_found =
      report-none (exclusion_denied d.exclusive v.exclusive) exclusion_not_supported key in
    (λ h. may.0 (none_found.0 h), λ h. none_found.1 (may.1 h))
filter_errors_iff key _ _ = (λ h. absurd (ground arith), λ h. absurd h)

-- A filter is supported under its key and its value is one that the descriptor admits.
abbrev pub IsFilter : SearchItems → Bytes × SearchItemVariant → Type 0
IsFilter supported (key, value) =
    (d : SearchItemVariant) × (StdMap.find key supported ≡ some d) × IsValue d value

-- A sort is supported in the direction that is asked for.
abbrev pub IsSort : SupportedSorts → Option SortOrder → Type 0
IsSort supported none = Unit
IsSort supported (some sort) =
    (d : SortDescriptor) × (StdMap.find sort.key supported ≡ some d)
    × ((if sort.ascending then d.ascending else d.descending) ≡ true)

key_errors_iff :
    (key : Bytes) (value : SearchItemVariant) (listed : Option SearchItemVariant)
    → (key_errors key value listed ≡ [])
      ↔ ((d : SearchItemVariant) × (listed ≡ some d) × IsValue d value)
unfolding key_errors
key_errors_iff key value none = (λ h. absurd (ground arith), λ h. absurd (ground (arith, h.1)))
key_errors_iff key value (some d) = (
  λ h. (d, refl, (filter_errors_iff key d value).0 h),
  λ (e, same, valid).
      let eq : d ≡ e = cc in
      (filter_errors_iff key d value).1 (subst (λ x. IsValue x value) (sym eq) valid),
)

filters_iff :
    (supported filters : SearchItems)
    → (validate_search_query supported filters ≡ []) ↔ All (IsFilter supported) filters
unfolding validate_search_query
filters_iff supported [] = (λ h. tt, λ h. refl)
filters_iff supported ((key, value) ∷ filters) =
    let listed = StdMap.find key supported in
    let split =
      append-none (key_errors key value listed) (validate_search_query supported filters) in
    let first = key_errors_iff key value listed in
    let rest = filters_iff supported filters in
    (λ h. (first.0 (split.0 h).0, rest.0 (split.0 h).1), λ h. split.1 (first.1 h.0, rest.1 h.1))

sort_errors_iff :
    (sort : SortOrder) (listed : Option SortDescriptor)
    → (sort_errors sort listed ≡ []) ↔ (
        (d : SortDescriptor) × (listed ≡ some d)
        × ((if sort.ascending then d.ascending else d.descending) ≡ true))
unfolding sort_errors
sort_errors_iff sort none = (λ h. absurd (ground arith), λ h. absurd (ground (arith, h.1)))
sort_errors_iff sort (some d) =
    (λ h. (d, refl, ground arith), λ (e, same, offered). let eq : d ≡ e = cc in ground arith)

validate_sort-IsSort :
    (supported : SupportedSorts) (sort : Option SortOrder)
    → (validate_sort supported sort ≡ []) ↔ IsSort supported sort
unfolding validate_sort
validate_sort-IsSort supported none = (λ h. tt, λ h. refl)
validate_sort-IsSort supported (some sort) = sort_errors_iff sort (StdMap.find sort.key supported)

-- A query is reported without an error exactly if every filter of it is supported under its key
-- with a value the descriptor admits, and its sort, if it has one, is supported in its direction.
pub validate_query_iff :
    (support : SearchCompatibilities) (filters : SearchItems) (sort : Option SortOrder)
    → (validate_query support filters sort ≡ [])
      ↔ (All (IsFilter support.supported_filters) filters × IsSort support.supported_sorts sort)
unfolding validate_query
validate_query_iff support filters sort =
    let split =
      append-none (validate_search_query support.supported_filters filters)
        (validate_sort support.supported_sorts sort) in
    let kept = filters_iff support.supported_filters filters in
    let sorted = validate_sort-IsSort support.supported_sorts sort in
    (λ h. (kept.0 (split.0 h).0, sorted.0 (split.0 h).1), λ h. split.1 (kept.1 h.0, sorted.1 h.1))
