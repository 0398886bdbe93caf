-- ===== src/Pagination.antt =====
-- Paging in item offsets (include/aniparse/types/Pagination.hpp). An offset is an integer without
-- bounds: the overflow of `std::ptrdiff_t` is not modelled. A limit is a `size_t`.
pub mod Windows
mod Tests
use aniparse.Prelude.{ℕ, ◌-◌, ◌^◌, List, [], ◌∷◌, ◌++◌, ◌==◌, ltb, if◌then◌else◌, length}
use aniparse.Prelude.Int.{ℤ, pos, negsuc, abs, leb_ℤ, ltb_ℤ, truncate, remainder, ◌+ℤ◌}

abbrev pub Pageoff : Type 0
Pageoff = ℤ

abbrev pub page_no_limit : ℕ
page_no_limit = 2 ^ 64 - 1

pub record PageItem (T : Type 0) : Type 0 where
  pub item : T
  pub offset : Pageoff

pub record PageResults (T : Type 0) : Type 0 where
  pub results : List (PageItem T)
  pub next_offset : Pageoff
  pub total_count : ℕ

-- `PageResults::append`
unfoldable pub append_item : {T : Type 0} → Pageoff → T → PageResults T → PageResults T
append_item from item page =
    let offset = from +ℤ pos (length page.results) in
    let results = page.results ++ record { item = item; offset = offset } ∷ [] in
    record page { results = results; next_offset = from +ℤ pos (length results) }

pub record OffsetPaging : Type 0 where
  pub from : Pageoff
  pub want : Pageoff
  pub stride : Pageoff

unfoldable pub page : Pageoff → OffsetPaging → Pageoff
page base p = if ltb_ℤ (pos 0) p.stride then truncate p.from (abs p.stride) +ℤ base else base

unfoldable pub skip : OffsetPaging → Pageoff
skip p = if ltb_ℤ (pos 0) p.stride then remainder p.from (abs p.stride) else pos 0

-- `static_cast<Pageoff>` of a `size_t`.
unfoldable pub to_pageoff : ℕ → Pageoff
to_pageoff n = if ltb n (2 ^ 63) then pos n else negsuc (2 ^ 64 - 1 - n)

-- `clamp_limit`, of the limit of the filters.
unfoldable pub clamp_limit : ℕ → Pageoff → Pageoff → Pageoff
clamp_limit limit cap fallback =
    let want = if limit == page_no_limit then fallback else to_pageoff limit in
    if ltb_ℤ want cap then want else cap
