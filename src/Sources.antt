-- ===== src/Sources.antt =====
-- The tables of overrides that a catalog swaps in: mirrors
-- (include/aniparse/catalog/MirrorSource.hpp), selectors (src/html/SelectorSource.cpp) and regular
-- expressions (src/utility/RegexSource.cpp). Compilers of selectors and expressions are parameters.
pub mod Groups
pub mod Contracts
pub mod Scanned
pub mod Fallback
pub mod Tables
mod Tests
use aniparse.Prelude.{
  ℕ, Bool, true, false, not, ◌&&◌, List, [], ◌∷◌, Option, none, some, ◌==◌, ltb, Bytes, or_else,
  if◌then◌else◌, length, get_or, ◌>>=◌, ◌>>◌,
}
use aniparse.Prelude.StdMap.{StdMap, find, insert, erase}

-- `Mirrors`
pub record Mirrors : Type 0 where
  pub override_list : Option (List Bytes)
  pub builtin : List Bytes

unfoldable pub override_or : {A : Type 0} → Option (List Bytes) → (List Bytes → A) → A → A
override_or none present otherwise = otherwise
override_or (some []) present otherwise = otherwise
override_or (some (url ∷ urls)) present otherwise = present (url ∷ urls)

unfoldable pub count : Mirrors → ℕ
count m = override_or m.override_list length (length m.builtin)

-- The entry at an index, or the first one.
unfoldable pub clamped : List Bytes → ℕ → Bytes
clamped urls index = get_or urls (if ltb index (length urls) then index else 0) []

unfoldable pub base_url : Mirrors → ℕ → Bytes
base_url m index =
    override_or m.override_list (λ urls. clamped urls index)
      (if length m.builtin == 0 then [] else clamped m.builtin index)

pub record MirrorSource : Type 0 where
  pub overrides : StdMap (List Bytes)
  pub canonical_base_urls : StdMap Bytes

unfoldable pub list_for : Bytes → MirrorSource → Option (List Bytes)
list_for parser_id source = find parser_id source.overrides

unfoldable pub canonical_base_for : Bytes → MirrorSource → Option Bytes
canonical_base_for parser_id source = find parser_id source.canonical_base_urls

abbrev pub no_mirrors : MirrorSource
no_mirrors = record { overrides = []; canonical_base_urls = [] }

-- A holder of a source never holds null: a null source becomes an empty one.
unfoldable pub held : {S : Type 0} → S → Option S → S
held empty none = empty
held empty (some source) = source

-- `SelectorSource`: a flat table, and one for each parser.
pub record SelectorSource : Type 0 where
  pub overrides : StdMap Bytes
  pub scoped : StdMap (StdMap Bytes)

abbrev pub no_selectors : SelectorSource
no_selectors = record { overrides = []; scoped = [] }

-- `m.insert_or_assign(k, v)`
unfoldable pub insert_or_assign : {V : Type 0} → Bytes → V → StdMap V → StdMap V
insert_or_assign k v m = insert k v (erase k m)

unfoldable pub merge_over : StdMap Bytes → StdMap Bytes → StdMap Bytes
merge_over [] merged = merged
merge_over ((key, css) ∷ scope) merged = merge_over scope (insert_or_assign key css merged)

unfoldable pub or_nothing : {V : Type 0} → Option (StdMap V) → StdMap V
or_nothing none = []
or_nothing (some m) = m

-- `entry != end ? entry->second : fallback`
unfoldable pub text_or : Option Bytes → Bytes → Bytes
text_or none fallback = fallback
text_or (some text) fallback = text

unfoldable pub selector_text : SelectorSource → Bytes → Bytes → Bytes
selector_text source key fallback = text_or (find key source.overrides) fallback

unfoldable pub empty_map : {V : Type 0} → StdMap V → Bool
empty_map [] = true
empty_map (entry ∷ m) = false

unfoldable pub selectors_empty : SelectorSource → Bool
selectors_empty source = empty_map source.overrides && empty_map source.scoped

-- `scope != end && !scope->second.empty()`
unfoldable pub some_filled : {V : Type 0} → Option (StdMap V) → Bool
some_filled none = false
some_filled (some m) = not (empty_map m)

unfoldable pub has_scope : SelectorSource → Bytes → Bool
has_scope source parser_id = some_filled (find parser_id source.scoped)

unfoldable pub scoped_to : SelectorSource → Bytes → SelectorSource
scoped_to source parser_id = record {
  overrides = merge_over (or_nothing (find parser_id source.scoped)) source.overrides;
  scoped = [];
}

-- A built-in literal that does not compile throws: `none`.
module _ {Selector : Type 0} (try_compile : Bytes → Option Selector) where
  unfoldable pub compile_selector : SelectorSource → Bytes → Bytes → Option Selector
  compile_selector source key fallback =
      or_else (do css ← find key source.overrides; try_compile css) (try_compile fallback)

-- `RegexSource`: a flat table of one owner, or a table for each owner.
pub record RegexSource : Type 0 where
  pub overrides : StdMap Bytes
  pub scoped : StdMap (StdMap Bytes)

abbrev pub no_patterns : RegexSource
no_patterns = record { overrides = []; scoped = [] }

unfoldable pub pattern_text : RegexSource → Bytes → Bytes → Bytes
pattern_text source key fallback = text_or (find key source.overrides) fallback

unfoldable pub patterns_empty : RegexSource → Bool
patterns_empty source = empty_map source.overrides && empty_map source.scoped

unfoldable pub has_patterns : RegexSource → Bytes → Bool
has_patterns source owner = some_filled (find owner source.scoped)

unfoldable pub patterns_of : RegexSource → Bytes → RegexSource
patterns_of source owner = record { overrides = or_nothing (find owner source.scoped); scoped = [] }
