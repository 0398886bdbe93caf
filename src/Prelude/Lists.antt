-- ===== src/Prelude/Lists.antt =====
-- Lists measured and indexed by native numbers, and the searches of <algorithm>.
use Prim.Native.Nat.{ℕ, zero, suc, ◌+◌}
use mathlib.Core.Path.{subst, ◌≡◌, refl, ap}
use mathlib.Core.Logic.{◌≢◌, ◌⊎◌, inl, inr}
use mathlib.Core.Bool.{Bool, true, false, ◌&&◌, ◌||◌}
use mathlib.Core.List.{List, [], ◌∷◌, ◌++◌}
use mathlib.Core.Option.{Option, none, some}
use native.Mathlib.Omega.{arith}
use aniparse.Prelude.Tests.{if◌then◌else◌, or_else, Bool-cases}

module _ {ℓ} {A : Type ℓ} where
  abbrev pub length : List A → ℕ
  length [] = 0
  length (x ∷ xs) = suc (length xs)

  abbrev pub get_elem? : List A → ℕ → Option A
  get_elem? [] i = none
  get_elem? (x ∷ xs) zero = some x
  get_elem? (x ∷ xs) (suc i) = get_elem? xs i

  abbrev pub get_or : List A → ℕ → A → A
  get_or [] i d = d
  get_or (x ∷ xs) zero d = x
  get_or (x ∷ xs) (suc i) d = get_or xs i d

  abbrev pub set : List A → ℕ → A → List A
  set [] i v = []
  set (x ∷ xs) zero v = v ∷ xs
  set (x ∷ xs) (suc i) v = x ∷ set xs i v

  abbrev pub take : ℕ → List A → List A
  take zero xs = []
  take (suc n) [] = []
  take (suc n) (x ∷ xs) = x ∷ take n xs

  abbrev pub drop : ℕ → List A → List A
  drop zero xs = xs
  drop (suc n) [] = []
  drop (suc n) (x ∷ xs) = drop n xs

  abbrev pub replicate : ℕ → A → List A
  replicate zero a = []
  replicate (suc n) a = a ∷ replicate n a

  -- The last element, if there is one.
  abbrev pub back : List A → Option A
  back [] = none
  back (x ∷ []) = some x
  back (x ∷ y ∷ xs) = back (y ∷ xs)

  pub length-append : (xs ys : List A) → length (xs ++ ys) ≡ length xs + length ys
  length-append [] ys = omega arith
  length-append (x ∷ xs) ys = omega (arith, length-append xs ys)

  pub drop-append : (xs ys : List A) → drop (length xs) (xs ++ ys) ≡ ys
  drop-append [] ys = refl
  drop-append (x ∷ xs) ys = drop-append xs ys

  pub take-append : (xs ys : List A) → take (length xs) (xs ++ ys) ≡ xs
  take-append [] ys = refl
  take-append (x ∷ xs) ys = ap (◌∷◌ x) (take-append xs ys)

-- `std::find_if`, `std::erase_if` (what it keeps), `std::any_of` and `std::all_of`.
module _ {ℓ} {A : Type ℓ} where
  unfoldable pub find_if : (A → Bool) → List A → Option A
  find_if p [] = none
  find_if p (x ∷ xs) = if p x then some x else find_if p xs

  unfoldable pub erase_if : (A → Bool) → List A → List A
  erase_if p [] = []
  erase_if p (x ∷ xs) = let rest = erase_if p xs in if p x then rest else x ∷ rest

  unfoldable pub any_of : (A → Bool) → List A → Bool
  any_of p [] = false
  any_of p (x ∷ xs) = p x || any_of p xs

  unfoldable pub all_of : (A → Bool) → List A → Bool
  all_of p [] = true
  all_of p (x ∷ xs) = p x && all_of p xs

  pub find_if-append :
      (p : A → Bool) (xs ys : List A) → find_if p (xs ++ ys) ≡ or_else (find_if p xs) (find_if p ys)
  unfolding find_if
  find_if-append p [] ys = refl
  find_if-append p (x ∷ xs) ys = ground (arith, find_if-append p xs ys)

  pub find_if_accepts : (p : A → Bool) (xs : List A) {a : A} → find_if p xs ≡ some a → p a ≡ true
  unfolding find_if
  find_if_accepts p [] h = cc
  find_if_accepts p (x ∷ xs) h = elim (Bool-cases (p x)) [
    | inl t ↦ ground (arith, t)
    | inr f ↦ find_if_accepts p xs (rw f at h)
  ]

  pub erase_if-append :
      (p : A → Bool) (xs ys : List A) → erase_if p (xs ++ ys) ≡ erase_if p xs ++ erase_if p ys
  unfolding erase_if
  erase_if-append p [] ys = refl
  erase_if-append p (x ∷ xs) ys = ground (arith, erase_if-append p xs ys)

-- A predicate on every element computes to a tuple.
module _ {ℓ κ} {A : Type ℓ} (Holds : A → Type κ) where
  abbrev pub All : List A → Type κ
  All [] = Unit
  All (a ∷ as') = Holds a × All as'

  pub All-append : (front rest : List A) → All front → All rest → All (front ++ rest)
  All-append [] rest here there = there
  All-append (a ∷ front) rest here there = (here.0, All-append front rest here.1 there)

-- Membership with a position, which may be taken apart into data.
abbrev pub Elem : {A : Type 0} → A → List A → Type 0
Elem a [] = ⊥
Elem a (x ∷ xs) = (a ≡ x) ⊎ Elem a xs

module _ {A : Type 0} where
  pub Elem-append_left : (a : A) (xs ys : List A) → Elem a xs → Elem a (xs ++ ys)
  Elem-append_left a [] ys m = elim m [ ]
  Elem-append_left a (x ∷ xs) ys (inl e) = inl e
  Elem-append_left a (x ∷ xs) ys (inr m) = inr (Elem-append_left a xs ys m)

  pub Elem-append_right : (a : A) (xs ys : List A) → Elem a ys → Elem a (xs ++ ys)
  Elem-append_right a [] ys m = m
  Elem-append_right a (x ∷ xs) ys m = inr (Elem-append_right a xs ys m)

  pub Elem-append : (a : A) (xs ys : List A) → Elem a (xs ++ ys) → Elem a xs ⊎ Elem a ys
  Elem-append a [] ys m = inr m
  Elem-append a (x ∷ xs) ys (inl e) = inl (inl e)
  Elem-append a (x ∷ xs) ys (inr m) = elim (Elem-append a xs ys m) [
    | inl l ↦ inl (inr l)
    | inr r ↦ inr r
  ]

  pub find_if-Elem : (p : A → Bool) (xs : List A) {a : A} → find_if p xs ≡ some a → Elem a xs
  unfolding find_if
  find_if-Elem p [] h = cc
  find_if-Elem p (x ∷ xs) h = elim (Bool-cases (p x)) [
    | inl t ↦ inl (ground arith)
    | inr f ↦ inr (find_if-Elem p xs (ground arith))
  ]

  pub find_if_ne_none :
      (p : A → Bool) (xs : List A) (a : A) → Elem a xs → p a ≡ true → find_if p xs ≢ none
  unfolding find_if
  find_if_ne_none p [] a m t = elim m [ ]
  find_if_ne_none p (x ∷ xs) a (inl e) t = ground arith
  find_if_ne_none p (x ∷ xs) a (inr m) t = ground (arith, find_if_ne_none p xs a m t)

-- Writing and reading one element under a predicate on all.
module _ {ℓ κ} {A : Type ℓ} (P : A → Type κ) where
  pub All-set : (xs : List A) (i : ℕ) (v : A) → All P xs → P v → All P (set xs i v)
  All-set [] i v h hv = h
  All-set (x ∷ xs) zero v h hv = (hv, h.1)
  All-set (x ∷ xs) (suc i) v h hv = (h.0, All-set xs i v h.1 hv)

  pub All-get : (xs : List A) (i : ℕ) {a : A} → All P xs → get_elem? xs i ≡ some a → P a
  All-get [] i h e = cc
  All-get (x ∷ xs) zero {a} h e = let e' : x ≡ a = cc in subst P e' h.0
  All-get (x ∷ xs) (suc i) h e = All-get xs i h.1 e

module _ {ℓ κ} {A : Type ℓ} (P Q : A → Type κ) (h : (a : A) → P a → Q a) where
  pub All-weaken : (as' : List A) → All P as' → All Q as'
  All-weaken [] all = tt
  All-weaken (a ∷ as') all = (h a all.0, All-weaken as' all.1)
