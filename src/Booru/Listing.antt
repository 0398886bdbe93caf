-- ===== src/Booru/Listing.antt =====
-- What a search gives: the composition of the check of its query, the request and the listing.
use aniparse.Prelude.{
  List, [], ◌∷◌, Option, none, some, ◌≡◌, refl, ap, ◌∙◌, ◌↔◌, inl, inr, if◌then◌else◌, Bool-cases,
  back, All,
}
use aniparse.Prelude.Int.{ℤ}
use aniparse.Prelude.StdMap.{StdMap}
use aniparse.Json.{Json, if_object}
use aniparse.Search.{
  SearchItems, SortOrder, SearchCompatibilities, SearchQueryError, validate_query,
}
use aniparse.Search.Valid.{IsFilter, IsSort, validate_query_iff}
use aniparse.Pagination.{Pageoff, PageResults}
use aniparse.Pagination.Windows.{append_items, append_items-results, numbered}
use aniparse.ClientContext.{Response, ok, unexpected}
use aniparse.Booru.{
  Engine, Getter, is_zero_id, empty_page, id_of, listed_getter, list_entry, list_entries,
  entries_page, build_post_page, listing_page, checked_page, search,
}

module _ {Url Real Info Item : Type 0} (engine : Engine Url Real Info Item)
    (truncated : Real → ℤ) where
  unfoldable pub listed_before :
      Option (StdMap (Json Real)) → List (Getter Info Item) → List (Getter Info Item)
  listed_before none more = more
  listed_before (some post) more =
      if is_zero_id (id_of engine truncated post)
      then more
      else listed_getter engine truncated post ∷ more

  -- The containers that the entries of a listing stand for: its objects that have an id.
  unfoldable pub listed : List (Json Real) → List (Getter Info Item)
  listed [] = []
  listed (entry ∷ more) = listed_before (if_object entry) (listed more)

  append_items-before :
      (from : Pageoff) (o : Option (StdMap (Json Real))) (more : List (Getter Info Item))
      (page : PageResults (Getter Info Item))
      → append_items from more (list_entry engine truncated from o page)
        ≡ append_items from (listed_before o more) page
  unfolding list_entry listed_before
  append_items-before from none more page = refl
  append_items-before from (some post) more page =
      elim (Bool-cases (is_zero_id (id_of engine truncated post))) [
        | inl zero_id ↦ rw zero_id refl
        | inr an_id ↦ rw an_id (unfold append_items in refl)
      ]

  list_entries-append_items :
      (from : Pageoff) (entries : List (Json Real)) (page : PageResults (Getter Info Item))
      → list_entries engine truncated from entries page ≡ append_items from (listed entries) page
  unfolding list_entries listed
  list_entries-append_items from [] page = unfold append_items in refl
  list_entries-append_items from (entry ∷ more) page =
      list_entries-append_items from more (list_entry engine truncated from (if_object entry) page)
      ∙ append_items-before from (if_object entry) (listed more) page

  listing_ok :
      (from : Pageoff) (response : Response (Json Real)) (page : PageResults (Getter Info Item))
      → (listing_page engine truncated from response ≡ ok page) ↔ (
          (envelope : Json Real) × (response ≡ ok envelope)
          × (build_post_page engine truncated from envelope ≡ page))
  unfolding listing_page
  listing_ok from (unexpected e) page = ((λ h. cc), λ g. let h = g.1 in cc (h))
  listing_ok from (ok envelope) page =
      ((λ h. (envelope, refl, cc (h))), λ g. let (other, same, made) = g in cc (same, made))

  checked_ok :
      (errors : List SearchQueryError) (from : Pageoff) (response : Response (Json Real))
      (page : PageResults (Getter Info Item))
      → (checked_page engine truncated errors from response ≡ ok page)
        ↔ ((errors ≡ []) × (listing_page engine truncated from response ≡ ok page))
  unfolding checked_page
  checked_ok [] from response page = ((λ h. (refl, h)), λ g. g.1)
  checked_ok (e ∷ errors) from response page = ((λ h. cc), λ g. let h = g.0 in cc (h))

  -- A search gives a page exactly when every filter and the sort are supported and the request is
  -- answered; the page then holds the containers of the answer's objects that have an id, in their
  -- order and numbered one by one from the offset that was asked for.
  pub search_lem :
      (support : SearchCompatibilities) (filters : SearchItems) (sort : Option SortOrder)
      (from : Pageoff) (response : Response (Json Real))
      → ((page : PageResults (Getter Info Item))
          → (search engine truncated support filters sort from response ≡ ok page) ↔ (
              (All (IsFilter support.supported_filters) filters
                × IsSort support.supported_sorts sort)
              × (envelope : Json Real) × (response ≡ ok envelope)
              × (build_post_page engine truncated from envelope ≡ page)))
        × ((envelope : Json Real) (entries : List (Json Real))
            → engine.posts_of envelope ≡ some entries
            → (build_post_page engine truncated from envelope).results
              ≡ numbered from 0 (listed entries))
  unfolding search
  search_lem support filters sort from response = (
    (λ page.
        let (to, back) = validate_query_iff support filters sort in
        let (split, join) = checked_ok (validate_query support filters sort) from response page in
        let (fetched, made) = listing_ok from response page in
        (
          (λ h.
              let (none_found, e) = split h in
              let (envelope, answered, listed_page) = fetched e in
              (to none_found, envelope, answered, listed_page)),
          λ g.
              let (admitted, envelope, answered, listed_page) = g in
              join (back admitted, made (envelope, answered, listed_page)),
        )),
    λ envelope entries e.
        unfold build_post_page entries_page empty_page in
        rw e (
          ap (λ p. p.results) (list_entries-append_items from entries empty_page)
          ∙ append_items-results from (listed entries) empty_page),
  )
