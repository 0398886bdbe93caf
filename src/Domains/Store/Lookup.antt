-- ===== src/Domains/Store/Lookup.antt =====
-- Which value a lookup by host finds, in terms of the domains that the values declare.
use aniparse.Prelude.StdMap.{StdMap}
use aniparse.Prelude.{
  Bool, true, List, [], ◌∷◌, ◌++◌, append-nil, none, some, ◌≡◌, refl, ap, sym, ◌∙◌, ◌≢◌, ◌⊎◌, inl,
  inr, Bytes, find_if_accepts, if◌then◌else◌, Bool-cases, Elem, Elem-append_left, Elem-append_right,
  Elem-append, find_if-Elem, find_if_ne_none,
}
use aniparse.Domains.Labels.{split_domains, split_domains-subdomain, named_labels}
use aniparse.Domains.Scanner.Registered.{path_eq, path_eq_iff}
use aniparse.Domains.Scanner.Matches.{Matches, longest_match-Matches, longest_match-ne-none}
use aniparse.Domains.Store.{DomainOverrides, Store, overrides_of, find_by_host}
use aniparse.Domains.Store.Routes.{hits, domains_of, routes, IsCoherent, find_by_host-longest_match}

-- The host is the domain, or a subdomain of it.
abbrev pub IsAtDomain : Bytes → Bytes → Type 0
IsAtDomain host domain =
    (host ≡ domain) ⊎ ((sub : Bytes) × (domain ≢ []) × (host ≡ sub ++ (b'.' ∷ domain)))

-- An entry of the map, a domain of its value, and the labels of that domain at the front of the
-- labels of the host.
pub record Serves {V : Type 0} (emitter : V → List Bytes) (s : Store V) (labels : List Bytes)
    (v : V) : Type 0 where
  pub identifier : Bytes
  pub is_entry : Elem (identifier, v) s.snapshot.entries
  pub domain : Bytes
  pub declared : Elem domain (domains_of emitter identifier v s.snapshot.volatile_domains)
  pub is_at : split_domains domain ≡ labels

module _ {V : Type 0} where
  -- A hit is the value, under a domain of the list that has the labels.
  hits-Elem :
      (ds : List Bytes) (v w : V) (ls : List Bytes)
      → Elem w (hits ds v ls)
      → (w ≡ v) × (d : Bytes) × Elem d ds × (split_domains d ≡ ls)
  hits-Elem [] v w ls m = elim m [ ]
  hits-Elem (d ∷ ds) v w ls m = elim (Bool-cases (path_eq (split_domains d) ls)) [
    | inl same ↦ elim (rw same at m) [
      | inl e ↦ (e, d, inl refl, (path_eq_iff _ _).0 same)
      | inr m' ↦ let (e, d', i, at) = hits-Elem ds v w ls m' in (e, d', inr i, at)
    ]
    | inr differ ↦ let (e, d', i, at) = hits-Elem ds v w ls (rw differ at m) in (e, d', inr i, at)
  ]

  Elem-hits :
      (ds : List Bytes) (v : V) (d : Bytes) → Elem d ds → Elem v (hits ds v (split_domains d))
  Elem-hits [] v d m = elim m [ ]
  Elem-hits (x ∷ ds) v d (inl e) =
      rw (← e) (rw ((path_eq_iff (split_domains d) (split_domains d)).1 refl) (inl refl))
  Elem-hits (x ∷ ds) v d (inr m) =
      Elem-append_right v (if path_eq (split_domains x) (split_domains d) then v ∷ [] else [])
        (hits ds v (split_domains d)) (Elem-hits ds v d m)

module _ {V : Type 0} (emitter : V → List Bytes) where
  routes-Elem :
      (es : StdMap V) (vol : DomainOverrides) (w : V) (ls : List Bytes)
      → Elem w (routes emitter es vol ls)
      → (identifier : Bytes) × Elem (identifier, w) es
        × (d : Bytes) × Elem d (domains_of emitter identifier w vol)
        × (split_domains d ≡ ls)
  unfolding routes domains_of
  routes-Elem [] vol w ls m = elim m [ ]
  routes-Elem ((i, v) ∷ es) vol w ls m = elim (Elem-append w (hits (emitter v) v ls) _ m) [
    | inl static ↦
        let (e, d, listed, at) = hits-Elem (emitter v) v w ls static in
        (i, inl (ap (λ x. (i, x)) e), d, rw e (Elem-append_left d (emitter v) _ listed), at)
    | inr later ↦ elim (Elem-append w (hits (overrides_of i vol) v ls) _ later) [
      | inl volatile ↦
          let (e, d, listed, at) = hits-Elem (overrides_of i vol) v w ls volatile in
          (i, inl (ap (λ x. (i, x)) e), d, Elem-append_right d (emitter w) _ listed, at)
      | inr rest ↦
          let (j, entry, d, listed, at) = routes-Elem es vol w ls rest in
          (j, inr entry, d, listed, at)
    ]
  ]

  Elem-routes :
      (es : StdMap V) (vol : DomainOverrides) (identifier : Bytes) (v : V) (d : Bytes)
      → Elem (identifier, v) es
      → Elem d (domains_of emitter identifier v vol)
      → Elem v (routes emitter es vol (split_domains d))
  unfolding routes domains_of
  Elem-routes [] vol i v d m h = elim m [ ]
  Elem-routes ((j, w) ∷ es) vol i v d (inl e) h =
      let same : v ≡ w = ap (λ (x : Bytes × V). x.1) e in
      let here : i ≡ j = ap (λ (x : Bytes × V). x.0) e in
      rw (← same, ← here)
        (elim (Elem-append d (emitter v) (overrides_of i vol) h) [
          | inl static ↦
              Elem-append_left v (hits (emitter v) v (split_domains d)) _
                (Elem-hits (emitter v) v d static)
          | inr volatile ↦ Elem-append_right v (hits (emitter v) v (split_domains d)) _ (
              Elem-append_left v (hits (overrides_of i vol) v (split_domains d)) _
                (Elem-hits (overrides_of i vol) v d volatile))
        ])
  Elem-routes ((j, w) ∷ es) vol i v d (inr m) h =
      Elem-append_right v (hits (emitter w) w (split_domains d)) _ (
        Elem-append_right v (hits (overrides_of j vol) w (split_domains d)) _
          (Elem-routes es vol i v d m h))

  -- In a store whose scanner is that of its entries, a value that a lookup by host returns is
  -- accepted and is the value of an entry, of which a domain has labels that begin the host's; it is
  -- the first accepted one under those labels, and under no longer run of the host's labels is any
  -- value accepted.
  pub find_by_host_sound :
      (accepts : V → Bool) (host : Bytes) (s : Store V) {v : V}
      → IsCoherent emitter s
      → find_by_host accepts host s ≡ some v
      → (accepts v ≡ true)
        × (m : Matches accepts
            (routes emitter s.snapshot.entries s.snapshot.volatile_domains)
            (split_domains host)
            v)
        × Serves emitter s m.prefix v
  find_by_host_sound accepts host s {v} coherent found =
      let m : Matches accepts (routes emitter s.snapshot.entries s.snapshot.volatile_domains)
          (split_domains host) v =
        longest_match-Matches accepts _ (split_domains host)
          (sym (find_by_host-longest_match emitter accepts host s coherent) ∙ found) in
      let (i, entry, d, listed, at) =
        routes-Elem s.snapshot.entries s.snapshot.volatile_domains v m.prefix
          (find_if-Elem accepts _ m.first) in
      (
        find_if_accepts accepts _ m.first,
        m,
        record { identifier = i; is_entry = entry; domain = d; declared = listed; is_at = at },
      )

  -- In a store whose scanner is that of its entries, a host whose labels begin with those of a domain
  -- of some entry, whose value is accepted, is served by some value.
  pub find_by_host_complete :
      (accepts : V → Bool) (host : Bytes) (s : Store V) (v : V) (labels rest : List Bytes)
      → IsCoherent emitter s
      → Serves emitter s labels v
      → accepts v ≡ true
      → split_domains host ≡ labels ++ rest
      → find_by_host accepts host s ≢ none
  find_by_host_complete accepts host s v labels rest coherent r t splits e =
      let at : List Bytes → List V =
        routes emitter s.snapshot.entries s.snapshot.volatile_domains in
      let routed : Elem v (at labels) = rw (← r.is_at) (
        Elem-routes s.snapshot.entries s.snapshot.volatile_domains r.identifier v r.domain
          r.is_entry r.declared) in
      longest_match-ne-none accepts at labels rest (find_if_ne_none accepts (at labels) v routed t)
        (rw (← splits) (sym (find_by_host-longest_match emitter accepts host s coherent) ∙ e))

  -- In a store whose scanner is that of its entries, a domain of an entry whose value is accepted, and
  -- every subdomain of it if it is not empty, is served by some value.
  pub find_by_host_at :
      (accepts : V → Bool) (host domain : Bytes) (s : Store V) (v : V)
      → IsCoherent emitter s
      → Serves emitter s (split_domains domain) v
      → accepts v ≡ true
      → IsAtDomain host domain
      → find_by_host accepts host s ≢ none
  find_by_host_at accepts host domain s v coherent r t (inl same) =
      find_by_host_complete accepts host s v (split_domains domain) [] coherent r t
        (ap split_domains same ∙ sym (append-nil (split_domains domain)))
  find_by_host_at accepts host domain s v coherent r t (inr (sub, ne, at)) =
      find_by_host_complete accepts host s v (split_domains domain) (named_labels sub) coherent r t
        (ap split_domains at ∙ split_domains-subdomain sub domain ne)
