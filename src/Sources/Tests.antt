-- ===== src/Sources/Tests.antt =====
-- A scoped selector table, mirrors, and an override of a pattern.
use aniparse.Prelude.{
  Elem, [], ◌∷◌, Option, none, some, ◌≡◌, refl, ◌≢◌, Bytes, codes, bytes_eq, any_of,
}
use aniparse.Prelude.StdMap.{find}
use aniparse.Sources.{Mirrors, SelectorSource, RegexSource, or_nothing}
use aniparse.Sources.Groups.{named_groups_of, scan_groups, compile}
use aniparse.Sources.Contracts.{Opens}
use aniparse.Sources.Scanned.{IsGroup}
use aniparse.Sources.Fallback.{compile_lem, compile_prefix}
use aniparse.Sources.Tables.{DistinctKeys}

abbrev fallback : Bytes
fallback = codes "[(?<no](?<title>\\w+)"

abbrev longer : Bytes
longer = codes "^(?<titles>.*)"

abbrev source : RegexSource
source = record { overrides = (codes "info.title", longer) ∷ []; scoped = [] }

-- Every text compiles, to itself.
abbrev regex : Bytes → Option Bytes
regex text = some text

fallback_groups : named_groups_of fallback ≡ codes "title" ∷ []
unfolding named_groups_of scan_groups aniparse.Sources.Groups.turn
    aniparse.Sources.Groups.turn_group aniparse.Sources.Groups.push_group
    aniparse.Sources.Groups.group_name aniparse.Sources.Groups.group_at
    aniparse.Sources.Groups.index_of_char any_of
fallback_groups = refl

compile_lem_example :
    (regex fallback ≢ none → compile regex source (codes "info.title") fallback ≢ none)
    × ((r : Bytes)
        → compile regex source (codes "info.title") fallback ≡ some r
        → (text : Bytes) × (regex text ≡ some r)
          × ((name : Bytes) → Elem name (named_groups_of fallback) → Opens text name))
    × ((name : Bytes) → IsGroup fallback name → Elem name (named_groups_of fallback))
compile_lem_example = compile_lem regex source (codes "info.title") fallback

compile_prefix_example : compile regex source (codes "info.title") fallback ≡ some longer
compile_prefix_example =
    compile_prefix regex source (codes "info.title") fallback (codes "^") (codes "title")
      (codes "s>.*)") longer fallback_groups (unfold find bytes_eq in refl) refl

abbrev selectors : SelectorSource
selectors = record {
  overrides = (codes "example.info", codes "h1") ∷ [];
  scoped = (codes "example", (codes "info", codes "h2") ∷ []) ∷ [];
}

selectors-DistinctKeys : DistinctKeys (or_nothing (find (codes "example") selectors.scoped))
unfolding find bytes_eq or_nothing
selectors-DistinctKeys = (refl, tt)

abbrev mirrors : Mirrors
mirrors = record { override_list = some []; builtin = codes "https://a" ∷ codes "https://b" ∷ [] }
