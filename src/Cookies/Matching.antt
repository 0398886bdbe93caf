-- ===== src/Cookies/Matching.antt =====
-- Which hosts a cookie is sent to.
use aniparse.Prelude.{
  ℕ, zero, suc, ◌+◌, ◌-◌, ◌<◌, true, [], ◌∷◌, ◌++◌, map, ◌≡◌, refl, ap, sym, ◌∙◌, ◌≢◌, ◌↔◌, ◌⊎◌,
  inl, inr, arith, ==_iff, Bytes, Bool-cases, length, length-append, get_or, take, drop,
}
use aniparse.Cookies.{
  Cookie, tolower, equals_ignore_case, ends_with_ignore_case, domain_scope, cookie_domain_matches,
}

abbrev pub lower : Bytes → Bytes
lower = map tolower

equals_ignore_case_iff : (a b : Bytes) → (equals_ignore_case a b ≡ true) ↔ (lower a ≡ lower b)
unfolding equals_ignore_case
equals_ignore_case_iff (x ∷ a) (y ∷ b) = ground (arith, equals_ignore_case_iff a b)
equals_ignore_case_iff _ _ = ground arith

take-append-drop : (n : ℕ) (s : Bytes) → take n s ++ drop n s ≡ s
take-append-drop zero s = refl
take-append-drop (suc n) [] = refl
take-append-drop (suc n) (c ∷ s) = ap (◌∷◌ c) (take-append-drop n s)

-- Where the byte in front of a suffix stands.
drop-get_or : (n : ℕ) (s : Bytes) → n < length s → drop n s ≡ get_or s n 0 ∷ drop (suc n) s
drop-get_or zero [] h = absurd (omega arith)
drop-get_or zero (c ∷ s) h = refl
drop-get_or (suc n) [] h = absurd (omega arith)
drop-get_or (suc n) (c ∷ s) h = drop-get_or n s (omega arith)

get_or-append :
    (front : Bytes) (c : ℕ) (rest : Bytes) → get_or (front ++ (c ∷ rest)) (length front) 0 ≡ c
get_or-append [] c rest = refl
get_or-append (x ∷ front) c rest = get_or-append front c rest

length-equals : (a b : Bytes) → equals_ignore_case a b ≡ true → length a ≡ length b
unfolding equals_ignore_case
length-equals [] [] h = refl
length-equals [] (y ∷ b) h = cc (h)
length-equals (x ∷ a) [] h = cc (h)
length-equals (x ∷ a) (y ∷ b) h = ap suc (length-equals a b (ground (arith, h)))

-- The host is the domain with a label or more in front.
pub record IsSubdomain (host domain : Bytes) : Type 0 where
  pub front : Bytes
  pub suffix : Bytes
  pub splits : host ≡ front ++ (b'.' ∷ suffix)
  pub same : lower suffix ≡ lower domain

-- A cookie that matches a host has a domain, after a leading dot is taken off, that is the host
-- itself but for case, or, where subdomains are included, what stands behind a dot of the host.
pub cookie_domain_matches_sound :
    (c : Cookie) (host : Bytes)
    → cookie_domain_matches c host ≡ true
    → (length (domain_scope c.domain c.include_subdomains).0 ≢ 0)
      × ((lower host ≡ lower (domain_scope c.domain c.include_subdomains).0)
          ⊎ (((domain_scope c.domain c.include_subdomains).1 ≡ true)
              × IsSubdomain host (domain_scope c.domain c.include_subdomains).0))
unfolding cookie_domain_matches ends_with_ignore_case
cookie_domain_matches_sound c host h =
    let d : Bytes = (domain_scope c.domain c.include_subdomains).0 in
    elim (Bool-cases (equals_ignore_case host d)) [
      | inl same ↦ (ground arith, inl ((equals_ignore_case_iff host d).0 same))
      | inr differ ↦
          let n : ℕ = length host - length d - 1 in
          let longer : length d < length host = ground arith in
          let dot : get_or host n 0 ≡ b'.' = ground (arith, ==_iff (get_or host n 0) b'.') in
          let ends : equals_ignore_case (drop (length host - length d) host) d ≡ true =
            ground arith in
          let behind : length host - length d ≡ suc n = omega arith in
          (
            ground arith,
            inr (
              ground arith,
              record {
                front = take n host;
                suffix = drop (suc n) host;
                splits =
                    sym (take-append-drop n host)
                    ∙ ap (λ r. take n host ++ r)
                        (drop-get_or n host (omega arith) ∙ ap (λ b. b ∷ drop (suc n) host) dot);
                same =
                    (equals_ignore_case_iff (drop (suc n) host) d).0
                      (ap (λ k. equals_ignore_case (drop k host) d) (sym behind) ∙ ends);
              },
            ),
          )
    ]

-- The host is the cookie's domain, without its leading dot and but for case, or, where subdomains are
-- included, has it behind a dot.
abbrev pub IsDomainMatch : Cookie → Bytes → Type 0
IsDomainMatch c host =
    let scope = domain_scope c.domain c.include_subdomains in
    (length scope.0 ≢ 0)
    × ((lower host ≡ lower scope.0) ⊎ ((scope.1 ≡ true) × IsSubdomain host scope.0))

cookie_domain_matches_complete :
    (c : Cookie) (host : Bytes) → IsDomainMatch c host → cookie_domain_matches c host ≡ true
unfolding cookie_domain_matches ends_with_ignore_case
cookie_domain_matches_complete c host (filled, inl same) =
    let d : Bytes = (domain_scope c.domain c.include_subdomains).0 in
    let equal : equals_ignore_case host d ≡ true = (equals_ignore_case_iff host d).1 same in
    ground (arith, filled, equal)
cookie_domain_matches_complete c host (filled, inr (included, below)) =
    let d : Bytes = (domain_scope c.domain c.include_subdomains).0 in
    let equal : equals_ignore_case below.suffix d ≡ true =
      (equals_ignore_case_iff below.suffix d).1 below.same in
    let size : length below.suffix ≡ length d = length-equals below.suffix d equal in
    let total : length host ≡ length below.front + suc (length below.suffix) =
      ap length below.splits ∙ length-append below.front (b'.' ∷ below.suffix) in
    let before : length host - length d - 1 ≡ length below.front = omega (arith, total, size) in
    let behind : length host - length d ≡ suc (length below.front) = omega (arith, total, size) in
    let dot : get_or host (length host - length d - 1) 0 ≡ b'.' =
      ap (λ k. get_or host k 0) before
      ∙ ap (λ s. get_or s (length below.front) 0) below.splits
      ∙ get_or-append below.front b'.' below.suffix in
    let tail : drop (length host - length d) host ≡ below.suffix =
      ap (λ k. drop k host) behind
      ∙ ap (drop (suc (length below.front))) below.splits
      ∙ drop_after below.front below.suffix in
    let ends : equals_ignore_case (drop (length host - length d) host) d ≡ true =
      ap (λ s. equals_ignore_case s d) tail ∙ equal in
    ground (arith, filled, included, dot, ends, total, size)
  where
    drop_after : (front rest : Bytes) → drop (suc (length front)) (front ++ (b'.' ∷ rest)) ≡ rest
    drop_after [] rest = refl
    drop_after (x ∷ front) rest = drop_after front rest

pub cookie_domain_matches_iff :
    (c : Cookie) (host : Bytes) → (cookie_domain_matches c host ≡ true) ↔ IsDomainMatch c host
cookie_domain_matches_iff c host =
    (cookie_domain_matches_sound c host, cookie_domain_matches_complete c host)
