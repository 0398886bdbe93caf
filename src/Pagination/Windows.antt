-- ===== src/Pagination/Windows.antt =====
-- Windows of items: where a page puts its items, and which page an item is on.
use aniparse.Prelude.{
  ℕ, suc, ◌+◌, ◌*◌, ◌/◌, ◌%◌, ◌^◌, ◌≤◌, ◌<◌, true, List, [], ◌∷◌, ◌++◌, append-nil, append_assoc,
  ◌≡◌, refl, ap, sym, ◌∙◌, ◌⊎◌, inl, inr, arith, ltb, length, length-append,
}
use native.Mathlib.Nat.{div-add-mod', mod-lt}
use aniparse.Prelude.Int.{pos, leb_ℤ, ltb_ℤ, truncate, remainder, ◌+ℤ◌}
use aniparse.Pagination.{
  Pageoff, page_no_limit, PageItem, PageResults, append_item, page, skip, to_pageoff, clamp_limit,
}

-- What a page builder does with the items that it has.
unfoldable pub append_items : {T : Type 0} → Pageoff → List T → PageResults T → PageResults T
append_items from [] p = p
append_items from (x ∷ xs) p = append_items from xs (append_item from x p)

-- The items, numbered from an offset.
abbrev pub numbered : {T : Type 0} → Pageoff → ℕ → List T → List (PageItem T)
numbered from n [] = []
numbered from n (x ∷ xs) = record { item = x; offset = from +ℤ pos n } ∷ numbered from (suc n) xs

module _ {T : Type 0} where
  pub append_items-results :
      (from : Pageoff) (xs : List T) (p : PageResults T)
      → (append_items from xs p).results ≡ p.results ++ numbered from (length p.results) xs
  unfolding append_items append_item
  append_items-results from [] p = sym (append-nil p.results)
  append_items-results from (x ∷ xs) p =
      append_items-results from xs (append_item from x p)
      ∙ ap (λ n. (p.results ++ here) ++ numbered from n xs)
          (length-append p.results here ∙ omega arith)
      ∙ append_assoc p.results here (numbered from (suc (length p.results)) xs)
    where
      here : List (PageItem T)
      here = record { item = x; offset = from +ℤ pos (length p.results) } ∷ []

  length-numbered : (from : Pageoff) (n : ℕ) (xs : List T) → length (numbered from n xs) ≡ length xs
  length-numbered from n [] = refl
  length-numbered from n (x ∷ xs) = ap suc (length-numbered from (suc n) xs)

  append_items-next_offset :
      (from : Pageoff) (xs : List T) (p : PageResults T)
      → p.next_offset ≡ from +ℤ pos (length p.results)
      → (append_items from xs p).next_offset ≡ from +ℤ pos (length (append_items from xs p).results)
  unfolding append_items append_item
  append_items-next_offset from [] p h = h
  append_items-next_offset from (x ∷ xs) p h =
      append_items-next_offset from xs (append_item from x p) refl

  -- A page on which one item or more is put by `append`, from an offset on, holds them in their order
  -- with consecutive offsets from there, and its next offset is the one behind the last of them.
  pub append-numbered :
      (from : Pageoff) (x : T) (xs : List T) (total : ℕ)
      → ((append_items from
            (x ∷ xs)
            (record { results = []; next_offset = pos 0; total_count = total })).results
          ≡ numbered from 0 (x ∷ xs))
        × ((append_items from
              (x ∷ xs)
              (record { results = []; next_offset = pos 0; total_count = total })).next_offset
            ≡ from +ℤ pos (length (x ∷ xs)))
  append-numbered from x xs total =
      let start : PageResults T = record {
        results = [];
        next_offset = pos 0;
        total_count = total;
      } in
      let items = append_items-results from (x ∷ xs) start in
      (
        items,
        unfold append_items in
            append_items-next_offset from xs (append_item from x start) (unfold append_item in refl)
            ∙ ap (λ rs. from +ℤ pos (length rs)) (unfold append_items in items)
            ∙ ap (λ n. from +ℤ pos n) (length-numbered from 0 (x ∷ xs)),
      )

-- The page of an item, counted from the API's first page, and the items to drop in front of it say
-- where in the listing the item is, and fewer items are dropped than a page holds.
pub page-skip :
    (base from want stride : ℕ)
    → 0 < stride
    → (k r : ℕ) × (page
          (pos base)
          (record { from = pos from; want = pos want; stride = pos stride })
        ≡ pos (k + base))
      × (skip (record { from = pos from; want = pos want; stride = pos stride }) ≡ pos r)
      × (k * stride + r ≡ from)
      × (r < stride)
unfolding page skip truncate remainder
page-skip base from want stride h =
    let many : ltb 0 stride ≡ true = ground arith in
    (
      from / stride,
      from % stride,
      ground arith,
      ground arith,
      div-add-mod' from stride,
      mod-lt from h,
    )

-- `clamp_limit` never asks for more than the endpoint gives.
clamp_limit-le :
    (limit : ℕ) (cap fallback : Pageoff) → leb_ℤ (clamp_limit limit cap fallback) cap ≡ true
unfolding clamp_limit
clamp_limit-le limit cap fallback = ground arith

-- A limit between 2^63 and the sentinel comes out negative, whatever the endpoint's cap, if that is
-- not negative itself.
pub clamp_limit_negative :
    (limit : ℕ) (cap fallback : Pageoff)
    → 2 ^ 63 ≤ limit
    → limit < page_no_limit
    → leb_ℤ (pos 0) cap ≡ true
    → ltb_ℤ (clamp_limit limit cap fallback) (pos 0) ≡ true
unfolding clamp_limit to_pageoff
clamp_limit_negative limit cap fallback big small cap_nonneg = ground arith

-- A limit below 2^63 is cut down to the endpoint's cap, and the sentinel stands for the fallback, cut
-- down to the cap as well.
pub clamp_limit_lem :
    (limit : ℕ) (cap fallback : Pageoff)
    → (limit < 2 ^ 63) ⊎ (limit ≡ page_no_limit)
    → (want : Pageoff) × (((limit < 2 ^ 63) × (want ≡ pos limit))
        ⊎ ((limit ≡ page_no_limit) × (want ≡ fallback)))
      × (leb_ℤ (clamp_limit limit cap fallback) cap ≡ true)
      × (leb_ℤ (clamp_limit limit cap fallback) want ≡ true)
      × ((clamp_limit limit cap fallback ≡ want) ⊎ (clamp_limit limit cap fallback ≡ cap))
unfolding clamp_limit to_pageoff
clamp_limit_lem limit cap fallback (inl h) =
    (pos limit, inl (h, refl), clamp_limit-le limit cap fallback, ground arith, ground arith)
clamp_limit_lem limit cap fallback (inr h) =
    (fallback, inr (h, refl), clamp_limit-le limit cap fallback, ground arith, ground arith)
