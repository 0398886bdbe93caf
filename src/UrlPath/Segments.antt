-- ===== src/UrlPath/Segments.antt =====
-- What a segment is, and where it stands.
use aniparse.Prelude.{
  ℕ, zero, suc, ◌+◌, ◌≤◌, ◌<◌, Bool, true, false, [], ◌∷◌, ◌++◌, some, ◌≡◌, refl, ap, sym, ◌∙◌, ◌≢◌,
  inl, inr, arith, ==_iff, Bytes, has_prefix, Bool-cases, Option-cases, length, take, drop, All,
}
use aniparse.UrlPath.{index_of, front_while, is_plain, segment_after}

prefix_split : (p s : Bytes) → has_prefix p s ≡ true → s ≡ p ++ drop (length p) s
unfolding has_prefix
prefix_split [] s h = refl
prefix_split (c ∷ p) [] h = cc
prefix_split (c ∷ p) (d ∷ s) h =
    let same : c ≡ d = ground (arith, ==_iff c d) in
    rw same (ap (◌∷◌ d) (prefix_split p s (ground arith)))

-- The text around an occurrence of the marker at a position.
abbrev pub OccursAt : Bytes → Bytes → ℕ → Type 0
OccursAt marker text i = text ≡ take i text ++ (marker ++ drop (length marker) (drop i text))

drop-nil : (k : ℕ) → ◌≡◌ {A = Bytes} (drop k []) []
drop-nil zero = refl
drop-nil (suc k) = refl

pub drop-drop : (i n : ℕ) (s : Bytes) → drop (i + n) s ≡ drop n (drop i s)
drop-drop zero n s = ap (λ k. drop k s) (omega arith)
drop-drop (suc i) n [] = drop-nil (suc i + n) ∙ sym (drop-nil n)
drop-drop (suc i) n (c ∷ s) =
    let moved : suc i + n ≡ suc (i + n) = omega arith in
    ap (λ k. drop k (c ∷ s)) moved ∙ drop-drop i n s

length-take : (i : ℕ) (s : Bytes) → length (take i s) ≤ i
length-take zero s = omega arith
length-take (suc i) [] = omega arith
length-take (suc i) (c ∷ s) = omega (arith, length-take i s)

pub index_of-OccursAt :
    (marker text : Bytes) {i : ℕ} → index_of marker text ≡ some i → OccursAt marker text i
unfolding index_of
index_of-OccursAt [] [] {i} h = let zero_index : 0 ≡ i = ground arith in rw (← zero_index) refl
index_of-OccursAt (m ∷ marker) [] h = absurd (ground arith)
index_of-OccursAt marker (c ∷ s) {i} h = elim (Bool-cases (has_prefix marker (c ∷ s))) [
  | inl here ↦
      let zero_index : 0 ≡ i = ground arith in rw (← zero_index) (prefix_split marker (c ∷ s) here)
  | inr later ↦ elim (Option-cases (index_of marker s)) [
    | inl absent ↦ absurd (ground arith)
    | inr (j, found) ↦
        let next_index : suc j ≡ i = ground arith in
        rw (← next_index) (ap (◌∷◌ c) (index_of-OccursAt marker s found))
  ]
]

-- The marker stands nowhere before the position.
pub index_of_first :
    (marker text : Bytes) {i : ℕ}
    → index_of marker text ≡ some i
    → (j : ℕ) → j < i
    → has_prefix marker (drop j text) ≡ false
unfolding index_of
index_of_first marker [] {i} h j lt = absurd (ground arith)
index_of_first marker (c ∷ s) {i} h j lt = elim (Bool-cases (has_prefix marker (c ∷ s))) [
  | inl here ↦ absurd (ground arith)
  | inr later ↦ elim (Option-cases (index_of marker s)) [
    | inl absent ↦ absurd (ground arith)
    | inr (k, found) ↦ before c s j k i later (ground arith) lt (index_of_first marker s found)
  ]
]
  where
    before :
        (d : ℕ) (t : Bytes) (j k i : ℕ)
        → has_prefix marker (d ∷ t) ≡ false
        → suc k ≡ i
        → j < i
        → ((l : ℕ) → l < k → has_prefix marker (drop l t) ≡ false)
        → has_prefix marker (drop j (d ∷ t)) ≡ false
    before d t zero k i first e below all = first
    before d t (suc j) k i first e below all = all j (omega (arith, e, below))

-- The front of a string: what passes, and what is left, which begins with nothing that passes.
abbrev pub StopsAt : (ℕ → Bool) → Bytes → Type 0
StopsAt passes [] = Unit
StopsAt passes (c ∷ s) = passes c ≡ false

pub front_while_lem :
    (passes : ℕ → Bool) (s : Bytes)
    → (rest : Bytes) × (s ≡ front_while passes s ++ rest)
      × All (λ c. passes c ≡ true) (front_while passes s)
      × StopsAt passes rest
unfolding front_while
front_while_lem passes [] = ([], refl, tt, tt)
front_while_lem passes (c ∷ s) = elim (Bool-cases (passes c)) [
  | inl t ↦
      let (rest, splits, pass, stop) = front_while_lem passes s in
      (rest, rw t (ap (◌∷◌ c) splits), rw t (t, pass), stop)
  | inr f ↦ (c ∷ s, rw f refl, rw f tt, f)
]

-- A segment that is found is not empty and holds no delimiter; it stands behind the first occurrence
-- of the marker, and ends at a delimiter or with the text.
pub segment_after_sound :
    (text marker delims : Bytes) {segment : Bytes}
    → segment_after text marker delims ≡ some segment
    → (length segment ≢ 0)
      × All (λ c. is_plain delims c ≡ true) segment
      × (before rest : Bytes) × (text ≡ before ++ (marker ++ (segment ++ rest)))
      × StopsAt (is_plain delims) rest
      × ((j : ℕ) → j < length before → has_prefix marker (drop j text) ≡ false)
unfolding segment_after
segment_after_sound text marker delims {segment} h = elim (Option-cases (index_of marker text)) [
  | inl absent ↦ absurd (ground arith)
  | inr (i, found) ↦
      let at = index_of-OccursAt marker text found in
      let (rest, splits, pass, stop) =
        front_while_lem (is_plain delims) (drop (i + length marker) text) in
      let same : front_while (is_plain delims) (drop (i + length marker) text) ≡ segment =
        ground arith in
      (
        (λ e. absurd (ground arith)),
        rw (← same) pass,
        take i text,
        rest,
        at
            ∙ ap (λ r. take i text ++ (marker ++ r))
                (sym (drop-drop i (length marker) text)
                  ∙ splits
                  ∙ ap (λ front. front ++ rest) same),
        stop,
        λ j lt. index_of_first marker text found j (omega (arith, lt, length-take i text)),
      )
]
