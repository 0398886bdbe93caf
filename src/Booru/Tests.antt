-- ===== src/Booru/Tests.antt =====
-- A pool whose posts without fields have no file, and a search.
use aniparse.Prelude.{
  ℕ, true, false, List, [], ◌∷◌, Option, none, some, ◌≡◌, refl, ◌↔◌, Bytes, codes, length, take,
  drop, All,
}
use aniparse.Prelude.Int.{pos}
use aniparse.Prelude.StdMap.{StdMap}
use aniparse.Json.{
  Json, Fields, Items, no_field, field, no_item, item, null, int64, array, object, if_array,
}
use aniparse.Search.{SearchItems, int_interval, item_selection, SortOrder, SearchCompatibilities}
use aniparse.Search.Valid.{IsFilter, IsSort}
use aniparse.Pagination.{PageItem, PageResults}
use aniparse.Pagination.Windows.{numbered}
use aniparse.ClientContext.{Response, ok}
use aniparse.Booru.{Engine, Getter, pool_page, build_post_page, search}
use aniparse.Booru.Listing.{listed, search_lem}
use aniparse.Booru.Pools.{pool_page_repeats}

abbrev file_of : StdMap (Json ℕ) → Option Bytes
file_of [] = none
file_of ((k, v) ∷ fields) = some k

abbrev engine : Engine ℕ ℕ ℕ Bytes
engine = record {
  supports_pools = true;
  posts_of = if_array;
  single_post = (λ (j : Json ℕ). none);
  post_to_container_info = (λ (p : StdMap (Json ℕ)). length p);
  post_to_item = file_of;
  post_id_from_url = (λ (n : ℕ). some (pos n));
  pool_id_from_url = (λ (n : ℕ). some (pos n));
}

abbrev post : Fields ℕ
post = field (codes "f") null no_field

abbrev pool : List (Json ℕ)
pool = null ∷ object no_field ∷ object post ∷ null ∷ []

pool_page_repeats_example :
    let window = λ (from : ℕ). some (take 2 (drop from pool)) in
    let first = pool_page engine (pos 1) (window 1) in
    (first.results ≡ record { item = codes "f"; offset = pos 1 } ∷ [])
    × (first.next_offset ≡ pos 2)
    × (later : List (PageItem Bytes)) × ((pool_page engine (pos 2) (window 2)).results
        ≡ record { item = codes "f"; offset = pos 2 } ∷ later)
pool_page_repeats_example = pool_page_repeats engine pool (null ∷ []) 1 no_field post refl refl refl

abbrev support : SearchCompatibilities
support = record {
  supported_filters =
      (
        codes "genre",
        item_selection (record {
          items = (codes "action", record { name = codes "Action"; exclusive = true }) ∷ [];
          single_selection = false;
        }),
      )
      ∷ (
        codes "year",
        int_interval (record { from = some (pos 1960); to = none; exclusive = false }),
      )
      ∷ [];
  supported_sorts = (codes "date", record { ascending = false; descending = true }) ∷ [];
}

abbrev filters : SearchItems
filters =
    (
      codes "year",
      int_interval (record { from = some (pos 2000); to = some (pos 2010); exclusive = false }),
    )
    ∷ []

abbrev newest : SortOrder
newest = record { key = codes "date"; ascending = false }

-- A post with an id, and an entry that is no post.
abbrev listing : Items ℕ
listing = item (object (field (codes "id") (int64 (pos 7)) no_field)) (item null no_item)

search_lem_example :
    ((p : PageResults (Getter ℕ Bytes))
      → (search engine pos support filters (some newest) (pos 20) (ok (array listing)) ≡ ok p) ↔ (
          (All (IsFilter support.supported_filters) filters
            × IsSort support.supported_sorts (some newest))
          × (envelope : Json ℕ) × (◌≡◌ {A = Response (Json ℕ)} (ok (array listing)) (ok envelope))
          × (build_post_page engine pos (pos 20) envelope ≡ p)))
    × ((envelope : Json ℕ) (entries : List (Json ℕ))
        → engine.posts_of envelope ≡ some entries
        → (build_post_page engine pos (pos 20) envelope).results
          ≡ numbered (pos 20) 0 (listed engine pos entries))
search_lem_example =
    search_lem engine pos support filters (some newest) (pos 20) (ok (array listing))
