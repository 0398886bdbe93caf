-- ===== src/JsParser/Occurrences.antt =====
-- The loop over the occurrences of a name, src/html/JSParser.cpp.
use aniparse.Prelude.{
  ℕ, zero, suc, ◌+◌, ◌<◌, true, false, [], ◌∷◌, Option, none, some, ◌≡◌, refl, ap, ◌∙◌, ◌⊎◌, inl,
  inr, arith, ◌==◌, ltb, Bytes, within, has_prefix, if◌then◌else◌, Bool-cases, Option-cases, length,
  drop,
}
use aniparse.UrlPath.{index_of, index_from}
use aniparse.UrlPath.Segments.{drop-drop}
use aniparse.JsParser.Find.{found_or, search_on, search_from}

drop_cons :
    (pos : ℕ) (text : Bytes)
    → pos < length text
    → (c : ℕ) × (drop pos text ≡ c ∷ drop (suc pos) text)
drop_cons pos [] h = absurd (omega (arith, h))
drop_cons zero (c ∷ text) h = (c, refl)
drop_cons (suc pos) (c ∷ text) h = drop_cons pos text (omega (arith, h))

drop_all : (text : Bytes) → drop (length text) text ≡ []
drop_all [] = refl
drop_all (c ∷ text) = drop_all text

-- `find` looks at one position and then at the later ones.
index_from_step :
    (name text : Bytes) (pos : ℕ)
    → pos < length text
    → index_from name text pos
      ≡ (if has_prefix name (drop pos text) then some pos else index_from name text (suc pos))
unfolding index_from index_of
index_from_step name text pos h =
    let (c, e) = drop_cons pos text h in
    let fits : ltb (length text) pos ≡ false = ground (arith, h) in
    let fits_next : ltb (length text) (suc pos) ≡ false = ground (arith, h) in
    rw (fits, fits_next, e)
      (elim (Bool-cases (has_prefix name (c ∷ drop (suc pos) text))) [
        | inl here ↦ rw here (ap some (omega arith))
        | inr absent ↦ rw absent elim (Option-cases (index_of name (drop (suc pos) text))) [
          | inl nowhere ↦ rw nowhere refl
          | inr (i, there) ↦ rw there (ap some (omega arith))
        ]
      ])

index_from_end : (name text : Bytes) → 0 < length name → index_from name text (length text) ≡ none
unfolding index_from index_of
index_from_end name text h =
    let fits : ltb (length text) (length text) ≡ false = ground arith in
    let named : (length name == 0) ≡ false = ground (arith, h) in
    rw (fits, drop_all text) (rw named refl)

-- The attempt at each position in turn, as many as are asked for, where the name stands.
unfoldable pub first_try : (ℕ → Option Bytes) → Bytes → Bytes → ℕ → ℕ → Bytes
first_try attempt name text zero pos = []
first_try attempt name text (suc n) pos =
    let later = first_try attempt name text n (suc pos) in
    if has_prefix name (drop pos text) then found_or (attempt pos) later else later

module _ (attempt : ℕ → Option Bytes) (stride : ℕ) (name text : Bytes) where
  search_from_step :
      (fuel pos : ℕ)
      → pos < length text
      → search_from attempt stride name text (suc fuel) pos ≡ (
          if has_prefix name (drop pos text)
          then found_or (attempt pos) (search_from attempt stride name text fuel (pos + stride))
          else search_from attempt stride name text (suc fuel) (suc pos))
  unfolding search_from search_on
  search_from_step fuel pos h =
      rw (index_from_step name text pos h) elim (Bool-cases (has_prefix name (drop pos text))) [
        | inl here ↦ rw here refl
        | inr absent ↦ rw absent refl
      ]

  search_from_end :
      (fuel : ℕ) → 0 < length name → search_from attempt stride name text fuel (length text) ≡ []
  unfolding search_from search_on
  search_from_end zero h = refl
  search_from_end (suc fuel) h = rw (index_from_end name text h) refl

-- Advancing by one character, the search tries every position.
pub search_from-first_try :
    (attempt : ℕ → Option Bytes) (name text : Bytes) (n fuel pos : ℕ)
    → 0 < length name
    → n + pos ≡ length text
    → n < fuel
    → search_from attempt 1 name text fuel pos ≡ first_try attempt name text n pos
unfolding first_try
search_from-first_try attempt name text n zero pos h e lt = absurd (omega (arith, lt))
search_from-first_try attempt name text zero (suc fuel) pos h e lt =
    let last : pos ≡ length text = omega (arith, e) in
    rw last (search_from_end attempt 1 name text (suc fuel) h)
search_from-first_try attempt name text (suc n) (suc fuel) pos h e lt =
    let within : pos < length text = omega (arith, e) in
    search_from_step attempt 1 name text fuel pos within
    ∙ elim (Bool-cases (has_prefix name (drop pos text))) [
      | inl here ↦
          let next : pos + 1 ≡ suc pos = omega arith in
          rw (here, next)
            (ap (found_or (attempt pos)) (
              search_from-first_try attempt name text n fuel (suc pos) h (omega (arith, e))
                (omega (arith, lt))))
      | inr absent ↦ rw absent (
          search_from-first_try attempt name text n (suc fuel) (suc pos) h (omega (arith, e))
            (omega (arith, lt)))
    ]

pub search_from_first :
    (attempt : ℕ → Option Bytes) (stride : ℕ) (name text : Bytes) (fuel : ℕ) {start : ℕ}
    {found : Bytes}
    → index_from name text 0 ≡ some start
    → attempt start ≡ some found
    → search_from attempt stride name text (suc fuel) 0 ≡ found
unfolding search_from search_on found_or
search_from_first attempt stride name text fuel first success = rw first (rw success refl)

has_prefix-index_of :
    (name text : Bytes) (i : ℕ) → index_of name text ≡ some i → has_prefix name (drop i text) ≡ true
unfolding index_of has_prefix
has_prefix-index_of [] [] i h = refl
has_prefix-index_of (c ∷ name) [] i h = absurd (ground (arith, h))
has_prefix-index_of name (c ∷ s) i h = elim (Bool-cases (has_prefix name (c ∷ s))) [
  | inl here ↦ let first : i ≡ 0 = ground (arith, h, here) in rw first here
  | inr absent ↦ elim (Option-cases (index_of name s)) [
    | inl nowhere ↦ absurd (ground (arith, h, absent, nowhere))
    | inr (j, there) ↦
        let next : i ≡ suc j = ground (arith, h, absent, there) in
        rw next (has_prefix-index_of name s j there)
  ]
]

has_prefix-index_from :
    (name text : Bytes) (pos start : ℕ)
    → index_from name text pos ≡ some start
    → has_prefix name (drop start text) ≡ true
unfolding index_from
has_prefix-index_from name text pos start h = elim (Bool-cases (ltb (length text) pos)) [
  | inl beyond ↦ absurd (ground (arith, h, beyond))
  | inr within ↦ elim (Option-cases (index_of name (drop pos text))) [
    | inl nowhere ↦ absurd (ground (arith, h, within, nowhere))
    | inr (i, there) ↦
        let at : start ≡ pos + i = ground (arith, h, within, there) in
        rw (at, drop-drop pos i text) (has_prefix-index_of name (drop pos text) i there)
  ]
]

-- What an attempt at an occurrence of the name gave.
abbrev pub Found : (ℕ → Option Bytes) → Bytes → Bytes → Bytes → Type 0
Found attempt name text found =
    (start : ℕ) × (has_prefix name (drop start text) ≡ true) × (attempt start ≡ some found)

pub search_from-Found :
    (attempt : ℕ → Option Bytes) (stride : ℕ) (name text : Bytes) (fuel pos : ℕ)
    → (search_from attempt stride name text fuel pos ≡ [])
      ⊎ Found attempt name text (search_from attempt stride name text fuel pos)
unfolding search_from search_on found_or
search_from-Found attempt stride name text zero pos = inl refl
search_from-Found attempt stride name text (suc fuel) pos =
    elim (Option-cases (index_from name text pos)) [
      | inl absent ↦ inl (rw absent refl)
      | inr (start, here) ↦ elim (Option-cases (attempt start)) [
        | inl refused ↦
            rw here (rw refused (search_from-Found attempt stride name text fuel (start + stride)))
        | inr (found, success) ↦
            rw here
              (rw success (inr (start, has_prefix-index_from name text pos start here, success)))
      ]
    ]
