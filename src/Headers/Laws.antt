-- ===== src/Headers/Laws.antt =====
-- Lookup after each of the operations.
use aniparse.Prelude.{
  ℕ, suc, ◌+◌, Bool, true, false, List, [], ◌∷◌, ◌++◌, map, append-nil, append_assoc, Option, none,
  some, ◌≡◌, refl, ap, sym, ◌∙◌, ◌↔◌, ◌⊎◌, inl, inr, arith, ◌==◌, ==_iff, Bytes, erase_if, any_of,
  is_some, if◌then◌else◌, Bool-cases, length,
}
use aniparse.Headers.{
  Headers, to_lower, same_letters, iequal, find_index_from, find_index, contains, value_at, at,
  get_all, append, erased, erase, set_header, merge_loop, merge_missing,
}

-- A name in lower case.
abbrev pub lower : Bytes → Bytes
lower = map to_lower

same_letters_iff :
    (a b : Bytes) → length a ≡ length b → (same_letters a b ≡ true) ↔ (lower a ≡ lower b)
unfolding same_letters
same_letters_iff (x ∷ a) (y ∷ b) h = ground (arith, same_letters_iff a b)
same_letters_iff [] [] h = ground arith
same_letters_iff [] (y ∷ b) h = absurd (omega arith)
same_letters_iff (x ∷ a) [] h = absurd (omega arith)

length-lower : (a : Bytes) → length (lower a) ≡ length a
length-lower [] = refl
length-lower (x ∷ a) = ap suc (length-lower a)

-- Two names are equal exactly when their lower-case forms are.
pub iequal_iff : (a b : Bytes) → (iequal a b ≡ true) ↔ (lower a ≡ lower b)
unfolding iequal
iequal_iff a b = elim (Bool-cases (length a == length b)) [
  | inl same ↦ rw same (same_letters_iff a b ((==_iff _ _).0 same))
  | inr differ ↦ rw differ (
    (λ h. cc),
    λ h. cc (
      differ,
      (==_iff (length a) (length b)).1 (sym (length-lower a) ∙ ap length h ∙ length-lower b),
    ),
  )
]

-- Whether two names are equal depends only on their lower-case forms.
pub iequal_congr : (a b c : Bytes) → iequal a b ≡ true → iequal a c ≡ iequal b c
iequal_congr a b c h = ground (arith, iequal_iff a b, iequal_iff a c, iequal_iff b c)

pub get_all-append :
    (k n v : Bytes) (hs : Headers)
    → get_all k (append n v hs) ≡ get_all k hs ++ (if iequal n k then v ∷ [] else [])
unfolding append get_all
get_all-append k n v [] = refl
get_all-append k n v ((m, w) ∷ hs) = ground (arith, get_all-append k n v hs)

pub get_all-erase :
    (k n : Bytes) (hs : Headers)
    → get_all k (erase n hs).1 ≡ (if iequal n k then [] else get_all k hs)
unfolding erase erased erase_if get_all
get_all-erase k n [] = ground arith
get_all-erase k n ((m, w) ∷ hs) =
    ground (arith, get_all-erase k n hs, iequal_iff m n, iequal_iff n k, iequal_iff m k)

erase-le : (n : Bytes) (hs : Headers) → length (erased n hs) + length (get_all n hs) ≡ length hs
unfolding erased erase_if get_all
erase-le n [] = omega arith
erase-le n ((m, w) ∷ hs) = ground (arith, erase-le n hs)

-- `erase` removes every entry of the name, in whatever case, and returns how many there were; the
-- values of every other name stay as they were.
pub erase_lem :
    (k n : Bytes) (hs : Headers)
    → (get_all k (erase n hs).1 ≡ (if iequal n k then [] else get_all k hs))
      × ((erase n hs).0 ≡ length (get_all n hs))
erase_lem k n hs = (get_all-erase k n hs, unfold erase in omega (arith, erase-le n hs))

-- After `set`, the name has the one value, in whatever case it is asked for, and every other name
-- the values that it had.
pub get_all-set :
    (k n v : Bytes) (hs : Headers)
    → get_all k (set_header n v hs) ≡ (if iequal n k then v ∷ [] else get_all k hs)
unfolding set_header
get_all-set k n v hs =
    ground
      (arith, get_all-append k n v (erase n hs).1, get_all-erase k n hs, append-nil (get_all k hs))

-- The value of the first entry that has the name.
abbrev pub first : List Bytes → Option Bytes
first [] = none
first (v ∷ vs) = some v

found_from :
    (i : ℕ) (k : Bytes) (hs : Headers)
    → ((find_index_from i k hs ≡ none) × (get_all k hs ≡ []))
      ⊎ ((j : ℕ) × (find_index_from i k hs ≡ some (i + j)) × (value_at hs j ≡ first (get_all k hs)))
unfolding find_index_from get_all
found_from i k [] = inl (refl, refl)
found_from i k ((n, v) ∷ hs) = elim (Bool-cases (iequal n k)) [
  | inl here ↦ inr (0, rw here (ap some (omega arith)), rw here refl)
  | inr later ↦ elim (found_from (i + 1) k hs) [
    | inl (e, g) ↦ inl (rw later e, rw later g)
    | inr (j, e, g) ↦ inr (suc j, rw later (e ∙ ap some (omega arith)), rw later g)
  ]
]

-- `at` is the first of `get_all`, and throws exactly when there is none.
pub at-get_all : (k : Bytes) (hs : Headers) → at k hs ≡ first (get_all k hs)
unfolding at find_index
at-get_all k hs = elim (found_from 0 k hs) [
  | inl (e, g) ↦ rw (e, g) refl
  | inr (j, e, g) ↦ rw e (ap (value_at hs) (omega arith) ∙ g)
]

has : Bytes → Headers → Bool
has k hs = any_of (λ h. iequal h.0 k) hs

has_congr : (n k : Bytes) (hs : Headers) → iequal n k ≡ true → has n hs ≡ has k hs
unfolding has any_of
has_congr n k [] h = refl
has_congr n k ((m, v) ∷ hs) h =
    ground (arith, has_congr n k hs h, iequal_iff m n, iequal_iff n k, iequal_iff m k)

get_all-merge_loop :
    (k : Bytes) (o hs other : Headers)
    → get_all k (merge_loop o hs other) ≡ get_all k hs ++ (if has k o then [] else get_all k other)
unfolding merge_loop has get_all
get_all-merge_loop k o hs [] = ground (arith, append-nil (get_all k hs))
get_all-merge_loop k o hs ((n, v) ∷ other) = ground (
  arith,
  get_all-merge_loop k o hs other,
  get_all-merge_loop k o (append n v hs) other,
  get_all-append k n v hs,
  has_congr n k o,
  append-nil (get_all k hs),
  append_assoc (get_all k hs) (v ∷ []) (get_all k other),
)

has-find_index : (i : ℕ) (k : Bytes) (hs : Headers) → is_some (find_index_from i k hs) ≡ has k hs
unfolding has any_of find_index_from
has-find_index i k [] = refl
has-find_index i k ((n, v) ∷ hs) = ground (arith, has-find_index (i + 1) k hs)

has_none : (k : Bytes) (hs : Headers) → has k hs ≡ false → get_all k hs ≡ []
unfolding has any_of get_all
has_none k [] h = refl
has_none k ((n, v) ∷ hs) h = ground (arith, has_none k hs)

-- `merge_missing` takes all values of the names that were absent, and none of those present.
pub get_all-merge_missing :
    (k : Bytes) (hs other : Headers)
    → get_all k (merge_missing hs other) ≡ (if contains k hs then get_all k hs else get_all k other)
unfolding merge_missing contains find_index
get_all-merge_missing k hs other = ground (
  arith,
  get_all-merge_loop k hs hs other,
  has-find_index 0 k hs,
  has_none k hs,
  append-nil (get_all k hs),
)
