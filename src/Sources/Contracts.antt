-- ===== src/Sources/Contracts.antt =====
-- A pattern declares the groups that the scanner finds in it.
use aniparse.Prelude.{
  Elem, ℕ, zero, suc, ◌+◌, ◌≤◌, ◌<◌, Bool, true, not, ◌&&◌, [], ◌∷◌, ◌++◌, append_assoc, some, ◌≡◌,
  refl, ap, sym, ◌∙◌, ◌⊎◌, inl, inr, arith, ◌==◌, ==_iff, Bytes, codes, has_prefix,
  has_prefix-append, is_some, Bool-cases, Option-cases, length, take, drop, guard, >>=-eq-some,
}
use mathlib.Core.Path.{subst}
use aniparse.UrlPath.{index_of}
use aniparse.Sources.Groups.{group_at, index_of_char, group_name, turn_group, turn, declares_group}

take-drop : (k : ℕ) (s : Bytes) → take k s ++ drop k s ≡ s
take-drop zero s = refl
take-drop (suc k) [] = refl
take-drop (suc k) (c ∷ s) = ap (◌∷◌ c) (take-drop k s)

length-drop : (k : ℕ) (s : Bytes) → length (drop k s) ≤ length s
length-drop zero s = omega arith
length-drop (suc k) [] = omega arith
length-drop (suc k) (c ∷ s) = omega (arith, length-drop k s)

length-drop_pos : (k c : ℕ) (rest : Bytes) → 0 < k → length (drop k (c ∷ rest)) ≤ length rest
length-drop_pos zero c rest h = absurd (omega (arith, h))
length-drop_pos (suc k) c rest h = length-drop k rest

index_of-append :
    (needle front tail : Bytes) → is_some (index_of needle (front ++ (needle ++ tail))) ≡ true
unfolding index_of has_prefix
index_of-append needle (c ∷ front) tail = ground (arith, index_of-append needle front tail)
index_of-append [] [] [] = refl
index_of-append [] [] (c ∷ tail) = refl
index_of-append (c ∷ needle) [] tail = ground (arith, has_prefix-append (c ∷ needle) tail)

-- A text has an opening of a named group before the name, or before a longer name.
abbrev pub Opens : Bytes → Bytes → Type 0
Opens text name =
    (front opening rest : Bytes) × Elem opening (codes "(?<" ∷ codes "(?'" ∷ codes "(?P<" ∷ [])
    × (text ≡ front ++ ((opening ++ name) ++ rest))

prefix_rest : (p s : Bytes) → has_prefix p s ≡ true → (rest : Bytes) × (s ≡ p ++ rest)
unfolding has_prefix
prefix_rest [] s h = (s, refl)
prefix_rest (c ∷ p) [] h = cc (h)
prefix_rest (c ∷ p) (d ∷ s) h =
    let same : d ≡ c = ground (arith, h, ==_iff c d) in
    let (rest, e) = prefix_rest p s (ground (arith, h)) in (rest, rw same (ap (◌∷◌ c) e))

index_of-occurs :
    (needle s : Bytes)
    → is_some (index_of needle s) ≡ true
    → (front rest : Bytes) × (s ≡ front ++ (needle ++ rest))
unfolding index_of
index_of-occurs [] [] h = ([], [], refl)
index_of-occurs (c ∷ needle) [] h = absurd (ground (arith, h))
index_of-occurs needle (c ∷ s) h = elim (Bool-cases (has_prefix needle (c ∷ s))) [
  | inl here ↦ let (rest, e) = prefix_rest needle (c ∷ s) here in ([], rest, e)
  | inr other ↦
      let (front, rest, e) = index_of-occurs needle s (ground (arith, h, other)) in
      (c ∷ front, rest, ap (◌∷◌ c) e)
]

pub declares_group-Opens : (text name : Bytes) → declares_group text name ≡ true → Opens text name
unfolding declares_group
declares_group-Opens text name h =
    elim (Bool-cases (is_some (index_of (codes "(?<" ++ name) text))) [
      | inl angled ↦
          let (front, rest, e) = index_of-occurs (codes "(?<" ++ name) text angled in
          (front, codes "(?<", rest, inl refl, e)
      | inr not_angled ↦ elim (Bool-cases (is_some (index_of (codes "(?'" ++ name) text))) [
        | inl quoted ↦
            let (front, rest, e) = index_of-occurs (codes "(?'" ++ name) text quoted in
            (front, codes "(?'", rest, inr (inl refl), e)
        | inr neither ↦
            let python : is_some (index_of (codes "(?P<" ++ name) text) ≡ true =
              ground (arith, h, not_angled, neither) in
            let (front, rest, e) = index_of-occurs (codes "(?P<" ++ name) text python in
            (front, codes "(?P<", rest, inr (inr (inl refl)), e)
      ]
    ]

-- One of the three openings stands here, before the name.
opens :
    (s : Bytes) (begin close : ℕ)
    → group_at s ≡ some (begin, close)
    → (s ≡ codes "(?<" ++ drop begin s)
      ⊎ ((s ≡ codes "(?'" ++ drop begin s) ⊎ (s ≡ codes "(?P<" ++ drop begin s))
unfolding group_at
opens [] begin close h = absurd (ground arith)
opens (a ∷ []) begin close h = absurd (ground arith)
opens (a ∷ b ∷ []) begin close h = absurd (ground arith)
opens (a ∷ b ∷ c ∷ []) begin close h = absurd (ground arith)
opens (a ∷ b ∷ c ∷ d ∷ s) begin close h = elim (Bool-cases (a == b'(' && b == b'?')) [
  | inr other ↦ absurd (ground (arith, h))
  | inl open' ↦
      let first : a ≡ b'(' = ground (arith, ==_iff a b'(') in
      let second : b ≡ b'?' = ground (arith, ==_iff b b'?') in
      elim (Bool-cases (c == b'<' && not (d == b'=') && not (d == b'!'))) [
        | inl angled ↦
            let third : c ≡ b'<' = ground (arith, ==_iff c b'<') in
            let at : begin ≡ 3 = ground (arith, h) in inl (rw (first, second, third, at) refl)
        | inr other ↦ elim (Bool-cases (c == 39)) [
          | inl quoted ↦
              let third : c ≡ 39 = ground (arith, ==_iff c 39) in
              let at : begin ≡ 3 = ground (arith, h) in
              inr (inl (rw (first, second, third, at) refl))
          | inr neither ↦
              let third : c ≡ b'P' = ground (arith, h, ==_iff c b'P') in
              let fourth : d ≡ b'<' = ground (arith, h, ==_iff d b'<') in
              let at : begin ≡ 4 = ground (arith, h) in
              inr (inr (rw (first, second, third, fourth, at) refl))
        ]
      ]
]

pos-begin : (s : Bytes) (begin close : ℕ) → group_at s ≡ some (begin, close) → 0 < begin
unfolding group_at
pos-begin s begin close h = ground (arith, h)

-- The rest of a text from some place on.
abbrev pub Suffix : Bytes → Bytes → Type 0
Suffix s r = (front : Bytes) × (s ≡ front ++ r)

Suffix-drop : (k : ℕ) (s : Bytes) → Suffix s (drop k s)
Suffix-drop k s = (take k s, sym (take-drop k s))

pub Suffix-trans : (s r q : Bytes) → Suffix s r → Suffix r q → Suffix s q
Suffix-trans s r q (front, e) (front', e') =
    (front ++ front', e ∙ ap (λ t. front ++ t) e' ∙ sym (append_assoc front front' q))

pub declares-opening :
    (front name tail : Bytes)
    → (declares_group (front ++ (codes "(?<" ++ (name ++ tail))) name ≡ true)
      × (declares_group (front ++ (codes "(?'" ++ (name ++ tail))) name ≡ true)
      × (declares_group (front ++ (codes "(?P<" ++ (name ++ tail))) name ≡ true)
unfolding declares_group
declares-opening front name tail = (
  ground (arith, index_of-append (codes "(?<" ++ name) front tail),
  ground (arith, index_of-append (codes "(?'" ++ name) front tail),
  ground (arith, index_of-append (codes "(?P<" ++ name) front tail),
)

-- A group that is found is declared, and what follows it is a rest of the text, shorter by more
-- than the first character.
group_name_lem :
    (c : ℕ) (rest name after : Bytes)
    → group_name (c ∷ rest) ≡ some (name, after)
    → ((front : Bytes) → declares_group (front ++ (c ∷ rest)) name ≡ true)
      × Suffix (c ∷ rest) after
      × (length after ≤ length rest)
unfolding group_name
group_name_lem c rest name after h =
    let s = c ∷ rest in
    let (at, opening, h1) = >>=-eq-some (group_at s) _ h in
    let (end, closing, h2) = >>=-eq-some (index_of_char at.1 (drop at.0 s)) _ h1 in
    let (filled, some_name, h3) = >>=-eq-some (guard (not (end == 0))) _ h2 in
    let named : take end (drop at.0 s) ≡ name = cc h3 in
    let left : drop (end + 1) (drop at.0 s) ≡ after = cc h3 in
    let spelled : drop at.0 s ≡ name ++ drop end (drop at.0 s) =
      sym (take-drop end (drop at.0 s)) ∙ ap (λ n. n ++ drop end (drop at.0 s)) named in
    let declared = λ (front : Bytes). declares-opening front name (drop end (drop at.0 s)) in
    (
      (λ front. elim (opens s at.0 at.1 opening) [
        | inl e ↦
            subst (λ t. declares_group (front ++ t) name ≡ true)
              (sym (e ∙ ap (λ t. codes "(?<" ++ t) spelled)) (declared front).0
        | inr other ↦ elim other [
          | inl e ↦
              subst (λ t. declares_group (front ++ t) name ≡ true)
                (sym (e ∙ ap (λ t. codes "(?'" ++ t) spelled)) (declared front).1
          | inr e ↦
              subst (λ t. declares_group (front ++ t) name ≡ true)
                (sym (e ∙ ap (λ t. codes "(?P<" ++ t) spelled)) (declared front).2
        ]
      ]),
      subst (Suffix s) left (
          Suffix-trans s (drop at.0 s) (drop (end + 1) (drop at.0 s)) (Suffix-drop at.0 s)
            (Suffix-drop (end + 1) (drop at.0 s))),
      omega (
        arith,
        ap length left,
        length-drop (end + 1) (drop at.0 s),
        length-drop_pos at.0 c rest (pos-begin s at.0 at.1 opening),
      ),
    )

-- A turn goes on at a rest, shorter by more than the first character, with a declared group.
pub turn_lem :
    (in_class : Bool) (c : ℕ) (rest : Bytes)
    → Suffix (c ∷ rest) (turn in_class c rest).rest
      × (length (turn in_class c rest).rest ≤ length rest)
      × ((front name : Bytes)
          → (turn in_class c rest).found ≡ some name
          → declares_group (front ++ (c ∷ rest)) name ≡ true)
unfolding turn turn_group
turn_lem in_class c rest = elim (Bool-cases (c == 92)) [
  | inl escape ↦ rw escape (Suffix-drop 2 (c ∷ rest), length-drop 1 rest, λ front name h. absurd cc)
  | inr plain ↦ elim (Bool-cases in_class) [
    | inl inside ↦ rw (plain, inside) (next, omega arith, λ front name h. absurd cc)
    | inr outside ↦ elim (Bool-cases (c == b'[')) [
      | inl opening ↦ rw (plain, outside, opening) (next, omega arith, λ front name h. absurd cc)
      | inr other ↦ elim (Option-cases (group_name (c ∷ rest))) [
        | inl nothing ↦
            rw (plain, outside, other, nothing) (next, omega arith, λ front name h. absurd cc)
        | inr ((name, after), found) ↦
            let (declared, suffix, shorter) = group_name_lem c rest name after found in
            rw (plain, outside, other, found)
              (
                suffix,
                shorter,
                λ front n h.
                    subst (λ m. declares_group (front ++ (c ∷ rest)) m ≡ true) (cc h)
                      (declared front),
              )
      ]
    ]
  ]
]
  where
    next : Suffix (c ∷ rest) rest
    next = (c ∷ [], refl)
