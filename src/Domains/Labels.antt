-- ===== src/Domains/Labels.antt =====
-- `DomainStore::split_domains`: a host name as its labels, the top-level one first.
use mathlib.Core.List.{reverse-append, reverse-cons, reverse-reverse, map-append}
use aniparse.Prelude.{
  ℕ, List, [], ◌∷◌, ◌++◌, map, reverse, append_assoc, ◌≡◌, refl, ap, sym, ◌∙◌, ◌≢◌, arith, ◌==◌,
  ==_refl, Bytes, if◌then◌else◌,
}

unfoldable pub push_front : ℕ → List Bytes → List Bytes
push_front c [] = (c ∷ []) ∷ []
push_front c (w ∷ ws) = (c ∷ w) ∷ ws

-- The pieces of a range that is not empty.
unfoldable pub pieces : ℕ → Bytes → List Bytes
pieces d [] = [] ∷ []
pieces d (c ∷ s) = let rest = pieces d s in if c == d then [] ∷ rest else push_front c rest

-- `std::views::split`: an empty range has no pieces.
unfoldable pub split : ℕ → Bytes → List Bytes
split d [] = []
split d (c ∷ s) = pieces d (c ∷ s)

unfoldable pub split_domains : Bytes → List Bytes
split_domains host = map reverse (split b'.' (reverse host))

push_front-append :
    (c : ℕ) (xs ys : List Bytes) → xs ≢ [] → push_front c (xs ++ ys) ≡ push_front c xs ++ ys
unfolding push_front
push_front-append c [] ys h = absurd (h refl)
push_front-append c (x ∷ xs) ys h = refl

pieces-ne-nil : (d : ℕ) (s : Bytes) → pieces d s ≢ []
unfolding pieces push_front
pieces-ne-nil d [] = ground arith
pieces-ne-nil d (c ∷ s) = ground arith

pieces-append : (d : ℕ) (s t : Bytes) → pieces d (s ++ (d ∷ t)) ≡ pieces d s ++ pieces d t
unfolding pieces
pieces-append d [] t = rw (==_refl d)
pieces-append d (c ∷ s) t =
    ground (
      arith,
      pieces-append d s t,
      push_front-append c (pieces d s) (pieces d t) (pieces-ne-nil d s),
    )

-- The labels of a name, when it is not empty.
unfoldable pub named_labels : Bytes → List Bytes
named_labels host = map reverse (pieces b'.' (reverse host))

split-ne-nil : (d : ℕ) (s : Bytes) → s ≢ [] → split d s ≡ pieces d s
unfolding split
split-ne-nil d [] h = absurd (h refl)
split-ne-nil d (c ∷ s) h = refl

reverse-ne-nil : (s : Bytes) → s ≢ [] → reverse s ≢ []
reverse-ne-nil s h e = h (sym (reverse-reverse s) ∙ ap reverse e)

split_domains-named : (host : Bytes) → host ≢ [] → split_domains host ≡ named_labels host
unfolding split_domains named_labels
split_domains-named host h =
    ap (map reverse) (split-ne-nil b'.' (reverse host) (reverse-ne-nil host h))

reverse-subdomain :
    (sub domain : Bytes) → reverse (sub ++ (b'.' ∷ domain)) ≡ reverse domain ++ (b'.' ∷ reverse sub)
reverse-subdomain sub domain =
    reverse-append sub (b'.' ∷ domain)
    ∙ ap (λ r. r ++ reverse sub) (reverse-cons b'.' domain)
    ∙ append_assoc (reverse domain) (b'.' ∷ []) (reverse sub)

subdomain-ne-nil : (sub domain : Bytes) → sub ++ (b'.' ∷ domain) ≢ []
subdomain-ne-nil [] domain = ground arith
subdomain-ne-nil (c ∷ sub) domain = ground arith

-- The labels of a subdomain begin with those of its domain.
pub split_domains-subdomain :
    (sub domain : Bytes)
    → domain ≢ []
    → split_domains (sub ++ (b'.' ∷ domain)) ≡ split_domains domain ++ named_labels sub
split_domains-subdomain sub domain h =
    split_domains-named (sub ++ (b'.' ∷ domain)) (subdomain-ne-nil sub domain)
    ∙ unfold named_labels in
      (ap (λ r. map reverse (pieces b'.' r)) (reverse-subdomain sub domain)
        ∙ ap (map reverse) (pieces-append b'.' (reverse domain) (reverse sub))
        ∙ map-append reverse (pieces b'.' (reverse domain)) (pieces b'.' (reverse sub))
        ∙ ap (λ ls. ls ++ named_labels sub) (sym (split_domains-named domain h)))
