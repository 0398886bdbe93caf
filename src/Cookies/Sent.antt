-- ===== src/Cookies/Sent.antt =====
-- Which cookies may be sent: expiry, transport, host and path.
use aniparse.Prelude.{
  ℕ, suc, ◌+◌, ◌-◌, Bool, true, false, not, ◌&&◌, ◌||◌, [], ◌∷◌, ◌++◌, append-nil, some, ◌≡◌, refl,
  ap, sym, ◌∙◌, ◌↔◌, ◌⊎◌, inl, inr, arith, ◌==◌, ==_iff, Bytes, bytes_eq, bytes_eq_iff, has_prefix,
  has_prefix-append, if◌then◌else◌, Bool-cases, Option-cases, length, length-append, get_or,
}
use aniparse.Prelude.Int.{ℤ, ltb_ℤ, leb_ℤ}
use aniparse.Cookies.{Cookie, is_expired, cookie_domain_matches, cookie_path_matches}
use aniparse.Cookies.Matching.{IsDomainMatch, cookie_domain_matches_iff}

-- The path of a request, which is the root where it is empty.
abbrev pub full_path : Bytes → Bytes
full_path [] = b'/' ∷ []
full_path (c ∷ path) = c ∷ path

-- A path is the scope or continues it at a border of segments.
abbrev pub IsUnder : Bytes → Bytes → Type 0
IsUnder scope path =
    (rest : Bytes) × (path ≡ scope ++ rest)
    × ((rest ≡ [])
        ⊎ (((front : Bytes) × (scope ≡ front ++ b'/' ∷ []))
            ⊎ ((more : Bytes) × (rest ≡ b'/' ∷ more))))

abbrev pub IsPathMatch : Cookie → Bytes → Type 0
IsPathMatch c path = (c.path ≡ []) ⊎ ((c.path ≡ b'/' ∷ []) ⊎ IsUnder c.path (full_path path))

abbrev pub IsLive : Cookie → ℤ → Type 0
IsLive c now = (t : ℤ) → c.expires ≡ some t → ltb_ℤ now t ≡ true

-- Not expired, on a transport that it may use, to its host and under its path.
abbrev pub IsSent : ℤ → Bytes → Bytes → Bool → Cookie → Type 0
IsSent now host path secure_transport c =
    IsLive c now
    × (c.secure ≡ true → secure_transport ≡ true)
    × IsDomainMatch c host
    × IsPathMatch c path

has_prefix-rest : (p s : Bytes) → has_prefix p s ≡ true → (rest : Bytes) × (s ≡ p ++ rest)
unfolding has_prefix
has_prefix-rest [] s h = (s, refl)
has_prefix-rest (c ∷ p) [] h = cc (h)
has_prefix-rest (c ∷ p) (d ∷ s) h =
    let same : d ≡ c = ground (arith, h, ==_iff c d) in
    let (rest, e) = has_prefix-rest p s (ground (arith, h)) in (rest, rw same (ap (◌∷◌ c) e))

last_split :
    (c x : ℕ) (s : Bytes)
    → get_or (x ∷ s) (length s) 0 ≡ c
    → (front : Bytes) × (x ∷ s ≡ front ++ c ∷ [])
last_split c x [] h = ([], ap (λ y. y ∷ []) h)
last_split c x (y ∷ s) h = let (front, e) = last_split c y s h in (x ∷ front, ap (◌∷◌ x) e)

get_or-behind :
    (front : Bytes) (rest : Bytes) → get_or (front ++ rest) (length front) 0 ≡ get_or rest 0 0
get_or-behind [] rest = refl
get_or-behind (x ∷ front) rest = get_or-behind front rest

-- The test behind the prefix.
at_border : Bytes → Bytes → Bool
at_border scope path =
    length path == length scope
    || get_or scope (length scope - 1) 0 == b'/'
    || get_or path (length scope) 0 == b'/'

rest_border :
    (scope rest : Bytes)
    → (get_or (scope ++ rest) (length scope) 0 == b'/') ≡ true
    → (more : Bytes) × (rest ≡ b'/' ∷ more)
rest_border scope [] h =
    absurd (let none_there = get_or-behind scope [] in ground (arith, h, none_there))
rest_border scope (c ∷ more) h =
    let there = get_or-behind scope (c ∷ more) in
    let same : c ≡ b'/' = ground (arith, h, there, ==_iff c b'/') in (more, rw same refl)

IsUnder-sound :
    (x : ℕ) (s path : Bytes)
    → has_prefix (x ∷ s) path ≡ true
    → at_border (x ∷ s) path ≡ true
    → IsUnder (x ∷ s) path
unfolding at_border
IsUnder-sound x s path h border =
    let (rest, e) = has_prefix-rest (x ∷ s) path h in
    let size : length path ≡ length (x ∷ s) + length rest =
      ap length e ∙ length-append (x ∷ s) rest in
    (
      rest,
      e,
      elim (Bool-cases (length path == length (x ∷ s))) [
        | inl same ↦ inl (nothing rest (ground (arith, same, size)))
        | inr longer ↦ elim (Bool-cases (get_or (x ∷ s) (length s) 0 == b'/')) [
          | inl closed ↦ inr (
              inl (
                last_split b'/' x s
                  (ground (arith, closed, ==_iff (get_or (x ∷ s) (length s) 0) b'/'))))
          | inr open' ↦ inr (
              inr (
                rest_border (x ∷ s) rest (
                  ap (λ q. get_or q (length (x ∷ s)) 0 == b'/') (sym e)
                  ∙ ground (arith, border, longer, open'))))
        ]
      ],
    )
  where
    nothing : (r : Bytes) → length r ≡ 0 → r ≡ []
    nothing [] n = refl
    nothing (c ∷ r) n = absurd (omega (arith, n))

IsUnder-complete :
    (x : ℕ) (s path : Bytes)
    → IsUnder (x ∷ s) path
    → (has_prefix (x ∷ s) path ≡ true) × (at_border (x ∷ s) path ≡ true)
unfolding at_border
IsUnder-complete x s path (rest, e, border) = (
  rw e (has_prefix-append (x ∷ s) rest),
  elim border [
    | inl same ↦
        let size : length path ≡ length (x ∷ s) =
          ap length (e ∙ ap (λ r. (x ∷ s) ++ r) same ∙ append-nil (x ∷ s)) in
        ground (arith, size)
    | inr other ↦ elim other [
      | inl (front, closed) ↦
          let last : get_or (x ∷ s) (length s) 0 ≡ b'/' = last_is x s front closed in
          ground (arith, last)
      | inr (more, next) ↦
          let there : get_or path (length (x ∷ s)) 0 ≡ b'/' =
            ap (λ q. get_or q (length (x ∷ s)) 0) e
            ∙ get_or-behind (x ∷ s) rest
            ∙ ap (λ r. get_or r 0 0) next in
          ground (arith, there)
    ]
  ],
)
  where
    last_is :
        (y : ℕ) (t front : Bytes) → y ∷ t ≡ front ++ b'/' ∷ [] → get_or (y ∷ t) (length t) 0 ≡ b'/'
    last_is y t front closed =
        let size : suc (length t) ≡ length front + 1 =
          ap length closed ∙ length-append front (b'/' ∷ []) in
        let at : length t ≡ length front = omega (arith, size) in
        rw (closed, at) (get_or-behind front (b'/' ∷ []))

path_body : Bytes → Bytes → Bool
path_body scope full =
    if length scope == 0 || bytes_eq scope (b'/' ∷ [])
    then true
    else if not (has_prefix scope full)
    then false
    else at_border scope full

path_body_iff :
    (scope full : Bytes)
    → (path_body scope full ≡ true) ↔ ((scope ≡ []) ⊎ ((scope ≡ b'/' ∷ []) ⊎ IsUnder scope full))
unfolding path_body
path_body_iff [] full = ((λ h. inl refl), λ g. refl)
path_body_iff (x ∷ s) full = elim (Bool-cases (bytes_eq (x ∷ s) (b'/' ∷ []))) [
  | inl root ↦
      let same = (bytes_eq_iff (x ∷ s) (b'/' ∷ [])).0 root in
      ((λ h. inr (inl same)), λ g. ground (arith, root))
  | inr other ↦ (
    λ h. inr (inr (IsUnder-sound x s full (ground (arith, h, other)) (ground (arith, h, other)))),
    λ g. elim g [
      | inl empty ↦ cc (empty)
      | inr more ↦ elim more [
        | inl root ↦ absurd (let yes = (bytes_eq_iff (x ∷ s) (b'/' ∷ [])).1 root in cc (yes, other))
        | inr under ↦
            let (pre, border) = IsUnder-complete x s full under in
            ground (arith, other, pre, border)
      ]
    ],
  )
]

cookie_path_matches_iff :
    (c : Cookie) (path : Bytes) → (cookie_path_matches c path ≡ true) ↔ IsPathMatch c path
unfolding cookie_path_matches path_body at_border
cookie_path_matches_iff c [] = path_body_iff c.path (b'/' ∷ [])
cookie_path_matches_iff c (x ∷ path) =
    let some_path : (length (x ∷ path) == 0) ≡ false = ground arith in
    rw some_path (path_body_iff c.path (x ∷ path))

pub is_expired_iff : (c : Cookie) (now : ℤ) → (is_expired c now ≡ false) ↔ IsLive c now
unfolding is_expired
is_expired_iff c now = elim (Option-cases c.expires) [
  | inl never ↦ rw never ((λ h t e. cc (e)), λ g. refl)
  | inr (t, some_time) ↦ rw some_time (
    (λ h u e. let same : t ≡ u = cc (e) in rw (← same) (leb_ℤ-ltb now t h)),
    λ g. ltb_ℤ-not_leb now t (g t refl),
  )
]
  where
    leb_ℤ-ltb : (a b : ℤ) → leb_ℤ b a ≡ false → ltb_ℤ a b ≡ true
    leb_ℤ-ltb a b h = ground arith

    ltb_ℤ-not_leb : (a b : ℤ) → ltb_ℤ a b ≡ true → leb_ℤ b a ≡ false
    ltb_ℤ-not_leb a b h = ground arith

-- What is sent with a request.
abbrev pub is_sent : ℤ → Bytes → Bytes → Bool → Cookie → Bool
is_sent now host path secure_transport c =
    not (is_expired c now)
    && (not c.secure || secure_transport)
    && cookie_domain_matches c host
    && cookie_path_matches c path

-- The tests of the code, one after the other, say just that.
pub is_sent_iff :
    (now : ℤ) (host path : Bytes) (secure_transport : Bool) (c : Cookie)
    → (is_sent now host path secure_transport c ≡ true) ↔ IsSent now host path secure_transport c
is_sent_iff now host path secure_transport c =
    let (live, expires) = is_expired_iff c now in
    let (on_host, host_on) = cookie_domain_matches_iff c host in
    let (on_path, path_on) = cookie_path_matches_iff c path in
    (
      λ h. (
        live (ground (arith, h)),
        (λ e. ground (arith, h, e)),
        on_host (ground (arith, h)),
        on_path (ground (arith, h)),
      ),
      λ g.
          let (alive, secured, there, under) = g in
          let a = expires alive in
          let b = host_on there in
          let d = path_on under in
          let e : (not c.secure || secure_transport) ≡ true = allowed c.secure secured in
          rw (a, b, d, e) refl,
    )
  where
    allowed : (s : Bool) → (s ≡ true → secure_transport ≡ true) → (not s || secure_transport) ≡ true
    allowed true h = h refl
    allowed false h = refl
