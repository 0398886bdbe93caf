-- ===== src/UrlPath/Numbers.antt =====
-- The loop that looks for a number behind a marker.
use aniparse.Prelude.{
  ℕ, zero, suc, ◌+◌, ◌≤◌, ◌<◌, Bool, false, [], ◌∷◌, Option, none, some, ◌≡◌, refl, ◌≢◌, inl, inr,
  arith, ltb, Bytes, is_digit, has_prefix, Bool-cases, Option-cases, length, drop,
}
use aniparse.UrlPath.{index_of, index_from, front_while, numeric_loop, numeric_after, at_boundary}

index_of-le : (marker text : Bytes) {i : ℕ} → index_of marker text ≡ some i → i ≤ length text
unfolding index_of
index_of-le marker [] {i} h = ground arith
index_of-le marker (c ∷ s) {i} h = elim (Option-cases (index_of marker s)) [
  | inl absent ↦ ground arith
  | inr (j, found) ↦ ground (arith, index_of-le marker s found)
]

length-drop : (n : ℕ) (s : Bytes) → n ≤ length s → length (drop n s) + n ≡ length s
length-drop zero s h = omega arith
length-drop (suc n) [] h = absurd (omega (arith, h))
length-drop (suc n) (c ∷ s) h = omega (arith, length-drop n s (omega (arith, h)))

-- Where a later occurrence is looked for.
Later : Bytes → ℕ → Option ℕ → Type 0
Later text start none = Unit
Later text start (some i) = (start ≤ i) × (i ≤ length text)

index_from-Later :
    (marker text : Bytes) (start : ℕ) → Later text start (index_from marker text start)
unfolding index_from Later
index_from-Later marker text start = elim (Bool-cases (ltb (length text) start)) [
  | inl beyond ↦ rw beyond tt
  | inr inside ↦ elim (Option-cases (index_of marker (drop start text))) [
    | inl absent ↦ rw (inside, absent) tt
    | inr (i, found) ↦
        let fits : start ≤ length text = ground arith in
        let bound = index_of-le marker (drop start text) found in
        rw (inside, found) (omega arith, omega (arith, length-drop start text fits, bound))
  ]
]

loop_ends :
    (fuel : ℕ) (text marker : Bytes) (require_boundary : Bool) (start : ℕ) (at : Option ℕ)
    → 0 < length marker
    → Later text start at
    → length text + 2 ≤ fuel + start
    → 0 < fuel
    → numeric_loop fuel text marker require_boundary at ≢ none
unfolding numeric_loop Later
loop_ends zero text marker rb start at m l enough some_fuel = absurd (omega (arith, some_fuel))
loop_ends (suc fuel) text marker rb start none m l enough some_fuel = ground arith
loop_ends (suc fuel) text marker rb start (some i) m l enough some_fuel =
    let rest =
      loop_ends fuel text marker rb (i + length marker) (index_from marker text (i + length marker))
        m (index_from-Later marker text (i + length marker)) (omega (arith, l.0, l.1, m, enough))
        (omega (arith, l.0, l.1, enough)) in
    ground (arith, rest)

-- `numeric_after` ends, whatever the text, for a marker that is not empty: its loop runs at most once
-- for every byte of the text and twice more.
pub numeric_after_ends :
    (text marker : Bytes) (require_boundary : Bool)
    → 0 < length marker
    → numeric_after (length text + 2) text marker require_boundary ≢ none
unfolding numeric_after
numeric_after_ends text marker rb m = elim (Option-cases (index_of marker text)) [
  | inl absent ↦ rw absent (
      loop_ends (length text + 2) text marker rb 0 none m (unfold Later in tt) (omega arith)
        (omega arith))
  | inr (i, found) ↦ rw found (
      loop_ends (length text + 2) text marker rb 0 (some i) m
        (unfold Later in (omega arith, index_of-le marker text found)) (omega arith) (omega arith))
]

loop_hangs :
    (fuel c : ℕ) (s : Bytes)
    → is_digit c ≡ false
    → numeric_loop fuel (c ∷ s) [] false (some 0) ≡ none
unfolding numeric_loop index_from index_of has_prefix front_while at_boundary
loop_hangs zero c s h = refl
loop_hangs (suc fuel) c s h = ground (arith, h, loop_hangs fuel c s h)

-- With an empty marker and no boundary asked for, the loop has not ended on a text whose first byte is
-- not a digit, however much fuel it is given.
pub numeric_after_hangs :
    (fuel c : ℕ) (s : Bytes) → is_digit c ≡ false → numeric_after fuel (c ∷ s) [] false ≡ none
unfolding numeric_after index_of has_prefix
numeric_after_hangs fuel c s h = loop_hangs fuel c s h
