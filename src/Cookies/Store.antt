-- ===== src/Cookies/Store.antt =====
-- `CookieStore`, and `MemoryCookieJar`, whose methods are those of its store. The mutex makes each
-- method one step; the clock that `cookies_for` reads is an argument.
use native.Mathlib.Nat.{div-eq_of_lt}
use aniparse.Prelude.{
  ℕ, ◌/◌, ◌<◌, Bool, true, false, not, ◌&&◌, List, [], ◌∷◌, ◌++◌, map, Option, none, some, ◌≡◌,
  refl, ap, sym, ◌∙◌, ◌≢◌, ◌↔◌, inl, inr, arith, Bytes, bytes_eq, bytes_eq_iff, find_if, erase_if,
  if◌then◌else◌, Bool-cases, Option-cases, All,
}
use aniparse.Prelude.Int.{ℤ, pos, truncate, leb_ℤ}
use aniparse.Cookies.{
  Cookie, is_expired, same_identity, cookie_domain_matches, cookie_path_matches,
  parse_netscape_line, to_netscape_line,
}
use aniparse.Cookies.Sent.{IsLive, IsSent, is_sent, is_expired_iff, is_sent_iff}
use aniparse.Cookies.Netscape.{IsLine, stored_expires, parse-to_netscape_line}

unfoldable pub find : Bytes → List Cookie → Option Cookie
find name cookies = find_if (λ c. bytes_eq c.name name) cookies

abbrev pub all : List Cookie → List Cookie
all cookies = cookies

-- `*it = cookie` on the first cookie of the identity.
unfoldable pub assign : Cookie → List Cookie → List Cookie
assign cookie [] = []
assign cookie (c ∷ cs) =
    let rest = assign cookie cs in if same_identity c cookie then cookie ∷ cs else c ∷ rest

unfoldable pub set_cookie : Cookie → List Cookie → List Cookie
set_cookie cookie cookies = elim (find_if (λ stored. same_identity stored cookie) cookies) [
  | none ↦ cookies ++ cookie ∷ []
  | some c ↦ assign cookie cookies
]

abbrev pub clear : List Cookie → List Cookie
clear cookies = []

-- The loop of `cookies_for`.
unfoldable pub matching : Bytes → Bytes → Bool → List Cookie → List Cookie
matching host path secure_transport [] = []
matching host path secure_transport (c ∷ cs) =
    let rest = matching host path secure_transport cs in
    if c.secure && not secure_transport
    then rest
    else if cookie_domain_matches c host && cookie_path_matches c path
    then c ∷ rest
    else rest

-- The cookies to send, and the cookies kept.
unfoldable pub cookies_for : ℤ → Bytes → Bytes → Bool → List Cookie → List Cookie × List Cookie
cookies_for now host path secure_transport cookies =
    let kept = erase_if (λ c. is_expired c now) cookies in
    (matching host path secure_transport kept, kept)

module _ (ticks : ℕ) where
  unfoldable pub serialize : List Cookie → List Bytes
  serialize [] = []
  serialize (c ∷ cs) = to_netscape_line ticks c ∷ serialize cs

  -- The cookies of the lines that parse; they replace all that was stored.
  unfoldable pub restored : List Bytes → List Cookie
  restored [] = []
  restored (l ∷ ls) =
      let rest = restored ls in
      elim (parse_netscape_line ticks l) [ none ↦ rest | some c ↦ c ∷ rest ]

  unfoldable pub deserialize : List Bytes → List Cookie → List Cookie
  deserialize lines cookies = restored lines

abbrev pub lookup : Cookie → List Cookie → Option Cookie
lookup k cookies = find_if (λ c. same_identity c k) cookies

-- No two cookies of one identity.
abbrev pub IsDistinct : List Cookie → Type 0
IsDistinct [] = Unit
IsDistinct (c ∷ cs) = (lookup c cs ≡ none) × IsDistinct cs

same_identity_iff :
    (a b : Cookie)
    → (same_identity a b ≡ true) ↔ ((a.name ≡ b.name) × (a.domain ≡ b.domain) × (a.path ≡ b.path))
unfolding same_identity
same_identity_iff a b =
    ground (
      arith,
      bytes_eq_iff a.name b.name,
      bytes_eq_iff a.domain b.domain,
      bytes_eq_iff a.path b.path,
    )

lookup-assign :
    (k c : Cookie) (cs : List Cookie)
    → lookup c cs ≢ none
    → lookup k (assign c cs) ≡ (if same_identity c k then some c else lookup k cs)
unfolding assign find_if
lookup-assign k c [] h = absurd (h refl)
lookup-assign k c (d ∷ cs) h = ground (
  arith,
  lookup-assign k c cs,
  same_identity_iff d c,
  same_identity_iff c k,
  same_identity_iff d k,
)

lookup-concat :
    (k c : Cookie) (cs : List Cookie)
    → lookup c cs ≡ none
    → lookup k (cs ++ c ∷ []) ≡ (if same_identity c k then some c else lookup k cs)
unfolding find_if
lookup-concat k c [] h = ground arith
lookup-concat k c (d ∷ cs) h = ground (
  arith,
  lookup-concat k c cs,
  same_identity_iff d c,
  same_identity_iff c k,
  same_identity_iff d k,
)

-- After a cookie is set it is the one found under its name, domain and path, and what is found under
-- every other identity is as it was.
pub lookup-set :
    (k c : Cookie) (cs : List Cookie)
    → lookup k (set_cookie c cs) ≡ (if same_identity c k then some c else lookup k cs)
unfolding set_cookie
lookup-set k c cs = elim (Option-cases (lookup c cs)) [
  | inl new ↦ rw (new, set_cookie) (lookup-concat k c cs new)
  | inr (d, old) ↦ rw (old, set_cookie) (lookup-assign k c cs (λ e. cc))
]

lookup_congr :
    (a b : Cookie) (cs : List Cookie) → same_identity a b ≡ true → lookup a cs ≡ lookup b cs
unfolding find_if
lookup_congr a b [] h = refl
lookup_congr a b (c ∷ cs) h = ground (
  arith,
  lookup_congr a b cs h,
  same_identity_iff a b,
  same_identity_iff c a,
  same_identity_iff c b,
)

IsDistinct-assign :
    (c : Cookie) (cs : List Cookie) → lookup c cs ≢ none → IsDistinct cs → IsDistinct (assign c cs)
unfolding assign find_if
IsDistinct-assign c [] h d = tt
IsDistinct-assign c (x ∷ cs) h d = elim (Bool-cases (same_identity x c)) [
  | inl same ↦ rw same (sym (lookup_congr x c cs same) ∙ d.0, d.1)
  | inr differ ↦
      let behind : lookup c cs ≢ none = λ e. h (rw (differ, find_if) e) in
      rw differ (
        lookup-assign x c cs behind
            ∙ ground (arith, d.0, same_identity_iff x c, same_identity_iff c x),
        IsDistinct-assign c cs behind d.1,
      )
]

IsDistinct-concat :
    (c : Cookie) (cs : List Cookie) → lookup c cs ≡ none → IsDistinct cs → IsDistinct (cs ++ c ∷ [])
unfolding find_if
IsDistinct-concat c [] h d = (refl, tt)
IsDistinct-concat c (x ∷ cs) h d =
    let behind : lookup c cs ≡ none = ground arith in
    (
      lookup-concat x c cs behind
          ∙ ground (arith, d.0, same_identity_iff x c, same_identity_iff c x),
      IsDistinct-concat c cs behind d.1,
    )

lookup-erase_if :
    (p : Cookie → Bool) (k : Cookie) (cs : List Cookie)
    → lookup k cs ≡ none
    → lookup k (erase_if p cs) ≡ none
unfolding find_if erase_if
lookup-erase_if p k [] h = refl
lookup-erase_if p k (c ∷ cs) h = ground (arith, lookup-erase_if p k cs)

IsDistinct-erase_if :
    (p : Cookie → Bool) (cs : List Cookie) → IsDistinct cs → IsDistinct (erase_if p cs)
unfolding erase_if
IsDistinct-erase_if p [] d = tt
IsDistinct-erase_if p (c ∷ cs) d = elim (Bool-cases (p c)) [
  | inl gone ↦ rw gone (IsDistinct-erase_if p cs d.1)
  | inr kept ↦ rw kept (lookup-erase_if p c cs d.0, IsDistinct-erase_if p cs d.1)
]

matching-erase_if :
    (now : ℤ) (host path : Bytes) (secure_transport : Bool) (cs : List Cookie)
    → matching host path secure_transport (erase_if (λ c. is_expired c now) cs)
      ≡ erase_if (λ c. not (is_sent now host path secure_transport c)) cs
unfolding matching erase_if
matching-erase_if now host path secure_transport [] = refl
matching-erase_if now host path secure_transport (c ∷ cs) =
    ground (arith, matching-erase_if now host path secure_transport cs)

-- `cookies_for` sends, in order, exactly the stored cookies that have not expired, may use the
-- transport, have the host as their domain or, where they include subdomains, as a subdomain of it at
-- the border of a label, and whose path the request's path is or continues at the border of a segment;
-- it keeps, in order, exactly the cookies that have not expired.
pub cookies_for_lem :
    (now : ℤ) (host path : Bytes) (secure_transport : Bool) (cs : List Cookie)
    → ((cookies_for now host path secure_transport cs).0
        ≡ erase_if (λ c. not (is_sent now host path secure_transport c)) cs)
      × ((cookies_for now host path secure_transport cs).1 ≡ erase_if (λ c. is_expired c now) cs)
      × ((c : Cookie)
          → ((is_sent now host path secure_transport c ≡ true)
              ↔ IsSent now host path secure_transport c)
            × ((is_expired c now ≡ false) ↔ IsLive c now))
unfolding cookies_for
cookies_for_lem now host path secure_transport cs = (
  matching-erase_if now host path secure_transport cs,
  refl,
  λ c. (is_sent_iff now host path secure_transport c, is_expired_iff c now),
)

-- Where no two stored cookies have the same name, domain and path, none do after a cookie is set, and
-- none do after `cookies_for` has pruned the expired ones.
pub store-IsDistinct :
    (c : Cookie) (now : ℤ) (host path : Bytes) (secure_transport : Bool) (cs : List Cookie)
    → IsDistinct cs
    → IsDistinct (set_cookie c cs) × IsDistinct (cookies_for now host path secure_transport cs).1
unfolding set_cookie cookies_for
store-IsDistinct c now host path secure_transport cs d =
    (set_distinct, IsDistinct-erase_if (λ x. is_expired x now) cs d)
  where
    set_distinct : IsDistinct (set_cookie c cs)
    set_distinct = elim (Option-cases (lookup c cs)) [
      | inl new ↦ rw (new, set_cookie) (IsDistinct-concat c cs new d)
      | inr (x, old) ↦ rw (old, set_cookie) (IsDistinct-assign c cs (λ e. cc) d)
    ]

module _ (ticks : ℕ) where
  abbrev pub stored : Cookie → Cookie
  stored c = record c { expires = stored_expires ticks c.expires }

  -- A store is written out and read back, where every cookie of it has a name, a domain and a path
  -- without a tab, a domain that does not begin with the HttpOnly mark, and an expiry of fewer than
  -- 2^63 seconds. What is read holds the same cookies in the same order, but for their expiries,
  -- which come back in whole seconds and not at all at 0, whatever the store held before it read.
  pub deserialize-serialize :
      (cs before : List Cookie)
      → All (IsLine ticks) cs
      → deserialize ticks (serialize ticks cs) before ≡ map stored cs
  unfolding deserialize serialize restored
  deserialize-serialize [] before h = refl
  deserialize-serialize (c ∷ cs) before h =
      rw (parse-to_netscape_line ticks c h.0, restored)
        (ap (◌∷◌ (stored c)) (deserialize-serialize cs before h.1))

  -- An expiry within the first second after the epoch is lost: a cookie that has expired by now, and
  -- whose fields fit a line, comes back from its line as one that is expired at no later time.
  pub epoch_cookie_revived :
      (c : Cookie) (n : ℕ) (now later : ℤ)
      → IsLine ticks c
      → c.expires ≡ some (pos n)
      → n < ticks
      → leb_ℤ (pos n) now ≡ true
      → (is_expired c now ≡ true)
        × (d : Cookie) × (parse_netscape_line ticks (to_netscape_line ticks c) ≡ some d)
        × (is_expired d later ≡ false)
  unfolding is_expired
  epoch_cookie_revived c n now later h e lt past =
      (ground arith, stored c, parse-to_netscape_line ticks c h, expired_never)
    where
      zero_seconds : n / ticks ≡ 0
      zero_seconds = div-eq_of_lt lt

      expired_never : is_expired (stored c) later ≡ false
      expired_never = rw e (unfold truncate in rw zero_seconds refl)
