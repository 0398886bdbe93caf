-- ===== src/Search.antt =====
-- Validation of search queries (include/aniparse/types/Search.hpp, src/types/Search.cpp). The three
-- interval types differ only in what their integers count.
pub mod Intervals
pub mod Selections
pub mod Valid
use aniparse.Prelude.StdMap
use aniparse.Prelude.StdMap.{StdMap}
use aniparse.Prelude.{
  Bool, true, false, not, ◌&&◌, List, [], ◌∷◌, ◌++◌, Option, none, some, ◌==◌, ltb, Bytes, codes,
  any_of, is_some, if◌then◌else◌, length,
}
use aniparse.Prelude.Int.{ℤ, ltb_ℤ}

pub record TextQuery : Type 0 where
  pub text : Bytes
  pub exclusive : Bool

pub record Interval : Type 0 where
  pub from : Option ℤ
  pub to : Option ℤ
  pub exclusive : Bool

pub record ItemSelectionValue : Type 0 where
  pub name : Bytes
  pub exclusive : Bool

pub record ItemSelection : Type 0 where
  pub items : StdMap ItemSelectionValue
  pub single_selection : Bool

pub record Checkmark : Type 0 where
  pub exclusive : Bool

pub data SearchItemVariant : Type 0 where
  text_query : TextQuery → SearchItemVariant
  int_interval : Interval → SearchItemVariant
  time_interval : Interval → SearchItemVariant
  relative_time_interval : Interval → SearchItemVariant
  item_selection : ItemSelection → SearchItemVariant
  checkmark : Checkmark → SearchItemVariant

abbrev pub SearchItems : Type 0
SearchItems = StdMap SearchItemVariant

pub record SortOrder : Type 0 where
  pub key : Bytes
  pub ascending : Bool

pub record SortDescriptor : Type 0 where
  pub ascending : Bool
  pub descending : Bool

abbrev pub SupportedSorts : Type 0
SupportedSorts = StdMap SortDescriptor

pub data Reason : Type 0 where
  unknown_key type_mismatch exclusion_not_supported multiple_selection_not_supported : Reason
  invalid_value unknown_sort_key sort_direction_not_supported : Reason

pub record SearchQueryError : Type 0 where
  pub reason : Reason
  pub key : Bytes

-- `value.exclusive && !descriptor.exclusive`
unfoldable pub exclusion_denied : Bool → Bool → Bool
exclusion_denied descriptor value = value && not descriptor

-- The item's test against what the descriptor lists under its key.
unfoldable pub listed_denied : Option ItemSelectionValue → ItemSelectionValue → Bool
listed_denied none value = false
listed_denied (some found) value = value.exclusive && not found.exclusive

unfoldable pub item_exclusion_denied : ItemSelection → Bytes × ItemSelectionValue → Bool
item_exclusion_denied descriptor (k, v) = listed_denied (StdMap.find k descriptor.items) v

unfoldable pub selection_exclusion_denied : ItemSelection → ItemSelection → Bool
selection_exclusion_denied descriptor value = any_of (item_exclusion_denied descriptor) value.items

unfoldable pub multiple_selection_denied : ItemSelection → ItemSelection → Bool
multiple_selection_denied descriptor value =
    descriptor.single_selection && ltb 1 (length value.items)

-- `a && b && *a < *b`
unfoldable pub both_less : Option ℤ → Option ℤ → Bool
both_less (some a) (some b) = ltb_ℤ a b
both_less _ _ = false

unfoldable pub text_invalid : TextQuery → Bool
text_invalid value = length value.text == 0

unfoldable pub interval_invalid : Interval → Interval → Bool
interval_invalid descriptor value =
    if both_less value.to value.from
    then true
    else if both_less value.from descriptor.from
    then true
    else if both_less descriptor.to value.to
    then true
    else false

unfoldable pub selection_invalid : ItemSelection → ItemSelection → Bool
selection_invalid descriptor value =
    if length descriptor.items == 0
    then false
    else any_of (λ item. not (is_some (StdMap.find item.0 descriptor.items))) value.items

abbrev pub report : Bool → Reason → Bytes → List SearchQueryError
report test reason key = if test then record { reason = reason; key = key } ∷ [] else []

unfoldable pub interval_errors : Bytes → Interval → Interval → List SearchQueryError
interval_errors key d v =
    report (exclusion_denied d.exclusive v.exclusive) exclusion_not_supported key
    ++ report (interval_invalid d v) invalid_value key

-- The errors of one filter whose key is supported: `index()` must agree, then the visitor.
unfoldable pub filter_errors : Bytes → SearchItemVariant → SearchItemVariant → List SearchQueryError
filter_errors key (text_query d) (text_query v) =
    report (exclusion_denied d.exclusive v.exclusive) exclusion_not_supported key
    ++ report (text_invalid v) invalid_value key
filter_errors key (int_interval d) (int_interval v) = interval_errors key d v
filter_errors key (time_interval d) (time_interval v) = interval_errors key d v
filter_errors key (relative_time_interval d) (relative_time_interval v) = interval_errors key d v
filter_errors key (item_selection d) (item_selection v) =
    report (selection_exclusion_denied d v) exclusion_not_supported key
    ++ (report (selection_invalid d v) invalid_value key
        ++ report (multiple_selection_denied d v) multiple_selection_not_supported key)
filter_errors key (checkmark d) (checkmark v) =
    report (exclusion_denied d.exclusive v.exclusive) exclusion_not_supported key
filter_errors key d v = record { reason = type_mismatch; key = key } ∷ []

unfoldable pub key_errors :
    Bytes → SearchItemVariant → Option SearchItemVariant → List SearchQueryError
key_errors key value none = record { reason = unknown_key; key = key } ∷ []
key_errors key value (some descriptor) = filter_errors key descriptor value

unfoldable pub validate_search_query : SearchItems → SearchItems → List SearchQueryError
validate_search_query supported [] = []
validate_search_query supported ((key, value) ∷ filters) =
    key_errors key value (StdMap.find key supported) ++ validate_search_query supported filters

unfoldable pub sort_errors : SortOrder → Option SortDescriptor → List SearchQueryError
sort_errors sort none = record { reason = unknown_sort_key; key = sort.key } ∷ []
sort_errors sort (some d) =
    report (not (if sort.ascending then d.ascending else d.descending)) sort_direction_not_supported
      sort.key

unfoldable pub validate_sort : SupportedSorts → Option SortOrder → List SearchQueryError
validate_sort supported none = []
validate_sort supported (some sort) = sort_errors sort (StdMap.find sort.key supported)

pub record SearchCompatibilities : Type 0 where
  pub supported_filters : SearchItems
  pub supported_sorts : SupportedSorts

unfoldable pub validate_query :
    SearchCompatibilities → SearchItems → Option SortOrder → List SearchQueryError
validate_query support filters sort =
    validate_search_query support.supported_filters filters
    ++ validate_sort support.supported_sorts sort

unfoldable pub reason_text : Reason → Bytes
reason_text unknown_key = codes "unknown filter"
reason_text type_mismatch = codes "wrong value type for filter"
reason_text exclusion_not_supported = codes "exclusion is not supported for filter"
reason_text multiple_selection_not_supported =
    codes "multiple selections are not supported for filter"
reason_text invalid_value = codes "invalid value for filter"
reason_text unknown_sort_key = codes "unknown sort"
reason_text sort_direction_not_supported = codes "unsupported direction for sort"

unfoldable pub describe_onto : Bytes → List SearchQueryError → Bytes
describe_onto message [] = message
describe_onto message (e ∷ es) =
    describe_onto
      ((if length message == 0 then message else message ++ codes "; ")
        ++ (reason_text e.reason ++ (codes " '" ++ (e.key ++ codes "'"))))
      es

unfoldable pub describe_search_query_errors : List SearchQueryError → Bytes
describe_search_query_errors errors = describe_onto [] errors
