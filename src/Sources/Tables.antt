-- ===== src/Sources/Tables.antt =====
-- The tables of overrides: which mirror, and which selector text, a parser sees.
use aniparse.Prelude.{
  ℕ, zero, suc, ◌≤◌, ◌<◌, false, List, [], ◌∷◌, Option, none, some, ◌≡◌, refl, arith, ◌==◌, Bytes,
  bytes_eq_iff, bytes_eq_refl, or_else, length, get_elem?, get_or,
}
use aniparse.Prelude.StdMap.{StdMap, find, insert, erase, find-insert, find-erase}
use aniparse.Sources.{
  Mirrors, override_or, count, clamped, base_url, SelectorSource, merge_over, insert_or_assign,
  or_nothing, text_or, selector_text, scoped_to,
}

-- Each key once.
abbrev pub DistinctKeys : {V : Type 0} → StdMap V → Type 0
DistinctKeys [] = Unit
DistinctKeys ((k, v) ∷ m) = (find k m ≡ none) × DistinctKeys m

find-merge_over :
    (j : Bytes) (scope merged : StdMap Bytes)
    → DistinctKeys scope
    → find j (merge_over scope merged) ≡ or_else (find j scope) (find j merged)
unfolding merge_over insert_or_assign find
find-merge_over j [] merged distinct = refl
find-merge_over j ((k, css) ∷ scope) merged distinct = ground (
  arith,
  find-merge_over j scope (insert k css (erase k merged)) distinct.1,
  find-insert k j css (erase k merged),
  find-erase k k merged,
  find-erase k j merged,
  bytes_eq_iff k j,
  bytes_eq_refl k,
  distinct.0,
)

-- The source that one parser sees serves its own override, else the flat one, else the fallback.
pub selector_text-scoped_to :
    (source : SelectorSource) (id key fallback : Bytes)
    → DistinctKeys (or_nothing (find id source.scoped))
    → selector_text (scoped_to source id) key fallback
      ≡ text_or (find key (or_nothing (find id source.scoped))) (selector_text source key fallback)
unfolding selector_text scoped_to text_or
selector_text-scoped_to source id key fallback distinct =
    ground
      (arith, find-merge_over key (or_nothing (find id source.scoped)) source.overrides distinct)

-- The list that is read: the override where it has an entry.
abbrev pub chosen : Mirrors → List Bytes
chosen m = override_or m.override_list (λ urls. urls) m.builtin

get_or-get_elem? :
    (urls : List Bytes) (i : ℕ) → i < length urls → get_elem? urls i ≡ some (get_or urls i [])
get_or-get_elem? [] i h = absurd (omega (arith, h))
get_or-get_elem? (url ∷ urls) zero h = refl
get_or-get_elem? (url ∷ urls) (suc i) h = get_or-get_elem? urls i (omega (arith, h))

filled : (n : ℕ) → (suc n == 0) ≡ false
filled n = ground arith

clamped_lem :
    (url : Bytes) (urls : List Bytes) (i : ℕ)
    → (length (url ∷ urls) ≡ length (url ∷ urls))
      × (i < length (url ∷ urls) → get_elem? (url ∷ urls) i ≡ some (clamped (url ∷ urls) i))
      × (length (url ∷ urls) ≤ i
          → 0 < length (url ∷ urls)
          → some url ≡ some (clamped (url ∷ urls) i))
      × (length (url ∷ urls) ≡ 0 → clamped (url ∷ urls) i ≡ [])
unfolding clamped
clamped_lem url urls i = (
  refl,
  (λ h. ground (arith, get_or-get_elem? (url ∷ urls) i h)),
  (λ h k. ground (arith, h)),
  λ h. absurd (omega (arith, h)),
)

-- `count` is the length of the list that is read. Below it an index selects its entry, from it on
-- the first one, and of an empty list nothing.
pub base_url-count :
    (m : Mirrors) (i : ℕ)
    → (count m ≡ length (chosen m))
      × (i < count m → get_elem? (chosen m) i ≡ some (base_url m i))
      × (count m ≤ i → 0 < count m → get_elem? (chosen m) 0 ≡ some (base_url m i))
      × (count m ≡ 0 → base_url m i ≡ [])
unfolding count base_url override_or
base_url-count m i = served m.override_list m.builtin
  where
    served :
        (override : Option (List Bytes)) (builtin : List Bytes)
        → let m : Mirrors = record { override_list = override; builtin = builtin } in
          (count m ≡ length (chosen m))
          × (i < count m → get_elem? (chosen m) i ≡ some (base_url m i))
          × (count m ≤ i → 0 < count m → get_elem? (chosen m) 0 ≡ some (base_url m i))
          × (count m ≡ 0 → base_url m i ≡ [])
    served none [] =
        (refl, (λ h. absurd (omega (arith, h))), (λ h k. absurd (omega (arith, k))), λ h. refl)
    served none (url ∷ urls) = rw (filled (length urls)) (clamped_lem url urls i)
    served (some []) [] =
        (refl, (λ h. absurd (omega (arith, h))), (λ h k. absurd (omega (arith, k))), λ h. refl)
    served (some []) (url ∷ urls) = rw (filled (length urls)) (clamped_lem url urls i)
    served (some (url ∷ urls)) builtin = clamped_lem url urls i
