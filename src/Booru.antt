-- ===== src/Booru.antt =====
-- src/engines/booru: the getters over an engine, whose methods are parameters, as is what a request for
-- parsed JSON returns. The conversion of a double to an integer is a parameter. Requests, credentials,
-- suggestions and serialization are not modelled.
pub mod Listing
pub mod Pools
mod Tests
use aniparse.Prelude.{
  ◌>>=◌, zero, suc, ◌-◌, ◌%◌, ◌^◌, Bool, true, false, not, ◌&&◌, ◌||◌, List, [], ◌∷◌, ◌++◌, Option,
  none, some, ltb, codes, is_some, if◌then◌else◌, length,
}
use aniparse.Prelude.Int.{ℤ, pos, negsuc, ◌+ℤ◌}
use aniparse.Prelude.StdMap.{StdMap}
use aniparse.Json.{Json, to_uint64, if_object, integer}
use aniparse.ParserStore.{GetterSuggestionType, unknown, images}
use aniparse.Search.{
  SearchItems, SortOrder, SearchCompatibilities, SearchQueryError, validate_query,
  describe_search_query_errors,
}
use aniparse.Pagination.{Pageoff, PageResults, append_item}
use aniparse.ClientContext.{Response, ok, unexpected, RequestError, not_found, invalid_arguments}

-- A container of one post, with what a listing told of it, or a pool.
pub data Getter (Info Item : Type 0) : Type 0 where
  post_getter : ℤ → Option (Info × Option Item) → Getter Info Item
  pool_getter : ℤ → Getter Info Item

-- The methods of an engine that the getters use, its site's referer given.
pub record Engine (Url Real Info Item : Type 0) : Type 0 where
  pub supports_pools : Bool
  pub posts_of : Json Real → Option (List (Json Real))
  pub single_post : Json Real → Option (StdMap (Json Real))
  pub post_to_container_info : StdMap (Json Real) → Info
  pub post_to_item : StdMap (Json Real) → Option Item
  pub post_id_from_url : Url → Option ℤ
  pub pool_id_from_url : Url → Option ℤ

-- `static_cast` to the `int` of an id.
unfoldable pub to_int32 : ℤ → ℤ
to_int32 z =
    let word = to_uint64 z % 2 ^ 32 in
    if ltb word (2 ^ 31) then pos word else negsuc (2 ^ 32 - 1 - word)

unfoldable pub is_zero_id : ℤ → Bool
is_zero_id (pos zero) = true
is_zero_id (pos (suc n)) = false
is_zero_id (negsuc n) = false

unfoldable pub empty_page : {T : Type 0} → PageResults T
empty_page = record { results = []; next_offset = pos 0; total_count = 0 }

-- One entry of a pool, numbered by the items before it.
unfoldable pub push_item :
    {Item : Type 0} → Pageoff → Option Item → PageResults Item → PageResults Item
push_item from none page = page
push_item from (some it) page = record page {
  results = page.results ++ record { item = it; offset = from +ℤ pos (length page.results) } ∷ [];
}

unfoldable pub no_address : RequestError
no_address = record {
  code = invalid_arguments;
  message = codes "URL addresses no booru post or pool";
  http_status = none;
  body = [];
}

unfoldable pub no_post : RequestError
no_post = record {
  code = not_found;
  message = codes "booru post not found";
  http_status = none;
  body = [];
}

-- A post is a container of one.
unfoldable pub page_of : {Item : Type 0} → Option Item → PageResults Item
page_of none = empty_page
page_of (some it) = record {
  results = record { item = it; offset = pos 0 } ∷ [];
  next_offset = pos 1;
  total_count = 1;
}

module _ {Info Item : Type 0} where
  unfoldable pub post_or_error : Option ℤ → Response (Getter Info Item)
  post_or_error none = unexpected no_address
  post_or_error (some id) = ok (post_getter id none)

  unfoldable pub pool_or : Option ℤ → Response (Getter Info Item) → Response (Getter Info Item)
  pool_or none otherwise = otherwise
  pool_or (some id) otherwise = ok (pool_getter id)

module _ {Url Real Info Item : Type 0} (engine : Engine Url Real Info Item) where
  module _ (truncated : Real → ℤ) where
    unfoldable pub id_of : StdMap (Json Real) → ℤ
    id_of post = to_int32 (integer truncated post (codes "id"))

    unfoldable pub listed_getter : StdMap (Json Real) → Getter Info Item
    listed_getter post =
        post_getter (id_of post)
          (some (engine.post_to_container_info post, engine.post_to_item post))

    -- One entry of build_post_page.
    unfoldable pub list_entry :
        Pageoff
        → Option (StdMap (Json Real))
        → PageResults (Getter Info Item)
        → PageResults (Getter Info Item)
    list_entry from none page = page
    list_entry from (some post) page =
        if is_zero_id (id_of post) then page else append_item from (listed_getter post) page

    unfoldable pub list_entries :
        Pageoff → List (Json Real) → PageResults (Getter Info Item) → PageResults (Getter Info Item)
    list_entries from [] page = page
    list_entries from (entry ∷ entries) page =
        list_entries from entries (list_entry from (if_object entry) page)

    unfoldable pub entries_page :
        Pageoff → Option (List (Json Real)) → PageResults (Getter Info Item)
    entries_page from none = empty_page
    entries_page from (some entries) = list_entries from entries empty_page

    unfoldable pub build_post_page : Pageoff → Json Real → PageResults (Getter Info Item)
    build_post_page from envelope = entries_page from (engine.posts_of envelope)

    unfoldable pub listing_page :
        Pageoff → Response (Json Real) → Response (PageResults (Getter Info Item))
    listing_page from (unexpected e) = unexpected e
    listing_page from (ok envelope) = ok (build_post_page from envelope)

    -- A query with errors is not sent.
    unfoldable pub checked_page :
        List SearchQueryError
        → Pageoff
        → Response (Json Real)
        → Response (PageResults (Getter Info Item))
    checked_page [] from response = listing_page from response
    checked_page (e ∷ errors) from response = unexpected record {
      code = invalid_arguments;
      message = describe_search_query_errors (e ∷ errors);
      http_status = none;
      body = [];
    }

    -- `BooruImagesGetter::search`, of what the engine supports and what its request would return.
    unfoldable pub search :
        SearchCompatibilities
        → SearchItems
        → Option SortOrder
        → Pageoff
        → Response (Json Real)
        → Response (PageResults (Getter Info Item))
    search support filters sort from response =
        checked_page (validate_query support filters sort) from response

  -- What becomes of a post that was fetched.
  unfoldable pub mapped_post : Option (StdMap (Json Real)) → Response (Info × Option Item)
  mapped_post none = unexpected no_post
  mapped_post (some post) = ok (engine.post_to_container_info post, engine.post_to_item post)

  unfoldable pub fetch_post : Response (Json Real) → Response (Info × Option Item)
  fetch_post (unexpected e) = unexpected e
  fetch_post (ok envelope) = mapped_post (engine.single_post envelope)

  unfoldable pub fetched_page : Response (Info × Option Item) → Response (PageResults Item)
  fetched_page (unexpected e) = unexpected e
  fetched_page (ok post) = ok (page_of post.1)

  -- `BooruContainerGetter::items`, of what the listing told and what its request would return.
  unfoldable pub container_items :
      Option (Info × Option Item) → Response (Json Real) → Response (PageResults Item)
  container_items (some listed) response = ok (page_of listed.1)
  container_items none response = fetched_page (fetch_post response)

  unfoldable pub push_items : Pageoff → List (Json Real) → PageResults Item → PageResults Item
  push_items from [] page = page
  push_items from (entry ∷ entries) page =
      push_items from entries (push_item from (if_object entry >>= engine.post_to_item) page)

  unfoldable pub pool_page : Pageoff → Option (List (Json Real)) → PageResults Item
  pool_page from none = empty_page
  pool_page from (some entries) =
      let page = push_items from entries empty_page in
      record page { next_offset = from +ℤ pos (length page.results) }

  -- `BooruPoolGetter::items`, of what its request returns.
  unfoldable pub pool_items : Pageoff → Response (Json Real) → Response (PageResults Item)
  pool_items from (unexpected e) = unexpected e
  pool_items from (ok envelope) = ok (pool_page from (engine.posts_of envelope))

  unfoldable pub suggest_getter : Url → GetterSuggestionType
  suggest_getter url =
      if is_some (engine.post_id_from_url url)
        || engine.supports_pools && is_some (engine.pool_id_from_url url)
      then images
      else unknown

  unfoldable pub parse_url : Url → Response (Getter Info Item)
  parse_url url =
      pool_or (if engine.supports_pools then engine.pool_id_from_url url else none)
        (post_or_error (engine.post_id_from_url url))
