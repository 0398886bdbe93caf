-- ===== src/Booru/Pools.antt =====
-- Streaming a pool page by page, and the routing of URLs.
use aniparse.Prelude.{
  ◌>>=◌, ℕ, zero, suc, ◌+◌, Bool, true, false, ◌&&◌, ◌||◌, List, [], ◌∷◌, ◌++◌, append-nil,
  append_assoc, Option, none, some, ◌≡◌, refl, ap, sym, ◌∙◌, ◌↔◌, arith, is_some, if◌then◌else◌,
  length, length-append, take, drop,
}
use aniparse.Prelude.Int.{ℤ, pos}
use aniparse.Json.{Json, Fields, object, entries, if_object}
use aniparse.ParserStore.{unknown, images}
use aniparse.Pagination.{PageItem, PageResults}
use aniparse.ClientContext.{Response, ok}
use aniparse.Booru.{
  Engine, Getter, post_getter, pool_getter, empty_page, push_item, push_items, pool_page,
  suggest_getter, post_or_error, pool_or, parse_url,
}

-- The routing of what an engine finds in a URL.
module _ {Info Item : Type 0} where
  routed : Bool → Option ℤ → Option ℤ → Response (Getter Info Item)
  routed pools pool post = pool_or (if pools then pool else none) (post_or_error post)

  routed_iff :
      (pools : Bool) (pool post : Option ℤ)
      → ((is_some post || pools && is_some pool) ≡ true)
        ↔ ((getter : Getter Info Item) × (routed pools pool post ≡ ok getter))
  unfolding routed pool_or post_or_error
  routed_iff true none none = ((λ h. cc), λ g. let h = g.1 in cc (h))
  routed_iff true none (some id) = ((λ h. (post_getter id none, refl)), λ g. refl)
  routed_iff true (some id) none = ((λ h. (pool_getter id, refl)), λ g. refl)
  routed_iff true (some id) (some post) = ((λ h. (pool_getter id, refl)), λ g. refl)
  routed_iff false pool none = ((λ h. cc), λ g. let h = g.1 in cc (h))
  routed_iff false pool (some id) = ((λ h. (post_getter id none, refl)), λ g. refl)

suggested : (b : Bool) → ((if b then images else unknown) ≡ images) ↔ (b ≡ true)
suggested true = ((λ h. refl), λ h. refl)
suggested false = ((λ h. cc (h)), λ h. cc)

module _ {Url Real Info Item : Type 0} (engine : Engine Url Real Info Item) where
  -- A URL is suggested for the images getter exactly when that getter makes one of its containers for
  -- it, and a pool goes before a post.
  pub suggest_getter-parse_url :
      (url : Url)
      → ((suggest_getter engine url ≡ images)
          ↔ ((getter : Getter Info Item) × (parse_url engine url ≡ ok getter)))
        × ((id : ℤ)
            → engine.supports_pools ≡ true
            → engine.pool_id_from_url url ≡ some id
            → parse_url engine url ≡ ok (pool_getter id))
  unfolding suggest_getter parse_url routed
  suggest_getter-parse_url url =
      let post = engine.post_id_from_url url in
      let pool = engine.pool_id_from_url url in
      let pools = engine.supports_pools in
      let found = is_some post || pools && is_some pool in
      let (to, from) = routed_iff pools pool post in
      (
        (λ h. to ((suggested found).0 h), λ g. (suggested found).1 (from g)),
        λ id has_pools given. rw (has_pools, given) (unfold pool_or in refl),
      )

-- The items of a list of posts, numbered from an offset.
abbrev pub numbered : {Item : Type 0} → ℕ → List Item → List (PageItem Item)
numbered n [] = []
numbered n (a ∷ items) = record { item = a; offset = pos n } ∷ numbered (suc n) items

drop_next :
    {A : Type 0} (n : ℕ) (xs : List A) {x : A} {ys : List A}
    → drop n xs ≡ x ∷ ys
    → drop (suc n) xs ≡ ys
drop_next zero [] h = cc
drop_next zero (c ∷ xs) h = cc
drop_next (suc n) [] h = cc
drop_next (suc n) (c ∷ xs) h = drop_next n xs h

unfoldable pub prepend_item : {Item : Type 0} → Option Item → List Item → List Item
prepend_item none items = items
prepend_item (some a) items = a ∷ items

module _ {Url Real Info Item : Type 0} (engine : Engine Url Real Info Item) where
  -- The items that posts map to, in order.
  unfoldable pub items_of : List (Json Real) → List Item
  items_of [] = []
  items_of (entry ∷ more) = prepend_item (if_object entry >>= engine.post_to_item) (items_of more)

  -- A page that is being filled.
  filled : ℕ → PageResults Item → List Item → List (PageItem Item)
  filled n page items = page.results ++ numbered (n + length page.results) items

  push_item-filled :
      (n : ℕ) (o : Option Item) (page : PageResults Item) (items : List Item)
      → filled n (push_item (pos n) o page) items ≡ filled n page (prepend_item o items)
  unfolding filled push_item prepend_item
  push_item-filled n none page items = refl
  push_item-filled n (some a) page items =
      let count : n
            + length
                (page.results ++ record { item = a; offset = pos (n + length page.results) } ∷ [])
          ≡ suc (n + length page.results) =
        omega (
          arith,
          length-append {0} page.results
              (record { item = a; offset = pos (n + length page.results) } ∷ []),
        ) in
      rw count (
        append_assoc page.results (record { item = a; offset = pos (n + length page.results) } ∷ [])
          (numbered (suc (n + length page.results)) items))

  push_items-filled :
      (n : ℕ) (more : List (Json Real)) (page : PageResults Item)
      → (push_items engine (pos n) more page).results ≡ filled n page (items_of more)
  unfolding push_items items_of
  push_items-filled n [] page = unfold filled in sym (append-nil page.results)
  push_items-filled n (entry ∷ more) page =
      let o = if_object entry >>= engine.post_to_item in
      push_items-filled n more (push_item (pos n) o page)
      ∙ push_item-filled n o page (items_of more)

  length-numbered : (n : ℕ) (items : List Item) → length (numbered n items) ≡ length items
  length-numbered n [] = refl
  length-numbered n (a ∷ items) = ap suc (length-numbered (suc n) items)

  -- A page of a pool holds what its posts map to, numbered from the offset that was asked for, and the
  -- next offset is that one and the number of those items, whatever posts were skipped.
  pub pool_page_lem :
      (n : ℕ) (more : List (Json Real))
      → let page = pool_page engine (pos n) (some more) in
        (page.results ≡ numbered n (items_of more))
        × (page.next_offset ≡ pos (n + length (items_of more)))
  unfolding pool_page empty_page
  pool_page_lem n more =
      let here : n + 0 ≡ n = omega arith in
      let items = items_of more in
      let all : (push_items engine (pos n) more empty_page).results ≡ numbered n items =
        push_items-filled n more empty_page ∙ unfold filled in ap (λ k. numbered k items) here in
      (all, ap (λ k. pos (n + k)) (ap length all ∙ length-numbered n items))

  -- Where a post without a file stands before one with an item, a pool of which a page is two posts
  -- gives that item twice: the page from the first post ends with it, and the page from its next
  -- offset begins with it, under another offset.
  pub pool_page_repeats :
      (posts rest : List (Json Real)) (n : ℕ) (withheld post : Fields Real) {a : Item}
      → drop n posts ≡ object withheld ∷ object post ∷ rest
      → engine.post_to_item (entries withheld) ≡ none
      → engine.post_to_item (entries post) ≡ some a
      → let window = λ (from : ℕ). some (take 2 (drop from posts)) in
        let first = pool_page engine (pos n) (window n) in
        (first.results ≡ record { item = a; offset = pos n } ∷ [])
        × (first.next_offset ≡ pos (suc n))
        × (later : List (PageItem Item)) × ((pool_page engine
              (pos (suc n))
              (window (suc n))).results
            ≡ record { item = a; offset = pos (suc n) } ∷ later)
  pool_page_repeats posts rest n withheld post {a} here no_file file =
      let next : drop (suc n) posts ≡ object post ∷ rest = drop_next n posts here in
      let only : items_of (object withheld ∷ object post ∷ []) ≡ a ∷ [] =
        unfold items_of prepend_item if_object in rw (no_file, file) refl in
      let page = pool_page_lem n (object withheld ∷ object post ∷ []) in
      let later = pool_page_lem (suc n) (object post ∷ take 1 rest) in
      let starts : items_of (object post ∷ take 1 rest) ≡ a ∷ items_of (take 1 rest) =
        unfold items_of prepend_item if_object in rw file refl in
      rw (here, next)
        (
          page.0 ∙ ap (numbered n) only,
          page.1 ∙ ap (λ k. pos (n + length k)) only ∙ ap pos (omega arith),
          numbered (suc (suc n)) (items_of (take 1 rest)),
          later.0 ∙ ap (numbered (suc n)) starts,
        )
