-- ===== src/Catalog/Hosts/Union.antt =====
-- Which hosts the unions add.
use aniparse.Prelude.{
  true, List, [], ◌∷◌, map, ◌≡◌, refl, ap, sym, ◌∙◌, ◌↔◌, ◌⊎◌, inl, inr, arith, Bytes, bytes_eq,
  bytes_eq_iff, bytes_eq_refl, any_of, if◌then◌else◌, Bool-cases, back, Elem, Elem-append_left,
  Elem-append_right, Elem-append,
}
use mathlib.Core.Path.{subst}
use aniparse.Prelude.StdMap.{StdMap, erase, find-insert, find-erase}
use aniparse.Catalog.{Routes}
use aniparse.Catalog.Hosts.{
  host_of, push_new, push_hosts, list_or_empty, hosts_at, put_hosts, union_mirror_hosts,
  union_canonical_hosts,
}

any_of-Elem :
    (host : Bytes) (hosts : List Bytes) → any_of (bytes_eq host) hosts ≡ true → Elem host hosts
unfolding any_of
any_of-Elem host [] h = absurd cc
any_of-Elem host (x ∷ hosts) h = elim (Bool-cases (bytes_eq host x)) [
  | inl same ↦ inl ((bytes_eq_iff host x).0 same)
  | inr differ ↦ inr (any_of-Elem host hosts (ground arith))
]

Elem-push_new :
    (h host : Bytes) (hosts : List Bytes)
    → Elem h (push_new host hosts) ↔ (Elem h hosts ⊎ (h ≡ host))
unfolding push_new
Elem-push_new h host hosts = elim (Bool-cases (any_of (bytes_eq host) hosts)) [
  | inl there ↦
      rw there
        ((λ m. inl m), λ m. elim m [ inl m ↦ m | inr e ↦ rw e (any_of-Elem host hosts there) ])
  | inr new ↦ rw new (
    (λ m. elim (Elem-append h hosts (host ∷ []) m) [
      | inl m ↦ inl m
      | inr m ↦ elim m [ inl e ↦ inr e | inr m ↦ elim m [ ] ]
    ]),
    λ m. elim m [
      | inl m ↦ Elem-append_left h hosts (host ∷ []) m
      | inr e ↦ Elem-append_right h hosts (host ∷ []) (inl e)
    ],
  )
]

-- Some of the URLs has the host.
abbrev HostOf : Bytes → List Bytes → Type 0
HostOf h urls = (url : Bytes) × Elem url urls × (h ≡ host_of url)

Elem-push_hosts :
    (h : Bytes) (urls hosts : List Bytes)
    → Elem h (push_hosts urls hosts) ↔ (Elem h hosts ⊎ HostOf h urls)
unfolding push_hosts
Elem-push_hosts h [] hosts =
    ((λ m. inl m), λ m. elim m [ inl m ↦ m | inr (url, m, e) ↦ elim m [ ] ])
Elem-push_hosts h (url ∷ urls) hosts =
    let (there, back) = Elem-push_hosts h urls (push_new (host_of url) hosts) in
    let (new, old) = Elem-push_new h (host_of url) hosts in
    (
      (λ m. elim (there m) [
        | inl m ↦ elim (new m) [ inl m ↦ inl m | inr e ↦ inr (url, inl refl, e) ]
        | inr (u, m, e) ↦ inr (u, inr m, e)
      ]),
      λ m. elim m [
        | inl m ↦ back (inl (old (inl m)))
        | inr (u, m, e) ↦ elim m [
          | inl same ↦ back (inl (old (inr (e ∙ ap host_of same))))
          | inr m ↦ back (inr (u, m, e))
        ]
      ],
    )

hosts_at-put_hosts :
    (id j : Bytes) (hosts : List Bytes) (domains : Routes)
    → hosts_at j (put_hosts id hosts domains)
      ≡ (if bytes_eq id j then hosts else hosts_at j domains)
unfolding hosts_at put_hosts list_or_empty
hosts_at-put_hosts id j hosts domains = ground (
  arith,
  find-insert id j hosts (erase id domains),
  find-erase id id domains,
  find-erase id j domains,
  bytes_eq_refl id,
)

-- After the union, the hosts that route to an identifier are those from before and, of each mirror
-- listed under it, the host.
pub union_mirror_hosts_iff :
    (h j : Bytes) (mirrors : StdMap (List Bytes)) (domains : Routes)
    → Elem h (hosts_at j (union_mirror_hosts mirrors domains)) ↔ (
        Elem h (hosts_at j domains)
        ⊎ ((urls : List Bytes) × Elem (j, urls) mirrors
            × ((url : Bytes) × Elem url urls × (h ≡ host_of url))))
unfolding union_mirror_hosts
union_mirror_hosts_iff h j [] domains =
    ((λ m. inl m), λ m. elim m [ inl m ↦ m | inr (urls, m, rest) ↦ elim m [ ] ])
union_mirror_hosts_iff h j ((id, urls) ∷ mirrors) domains =
    let grown = push_hosts urls (hosts_at id domains) in
    let (there, back) = union_mirror_hosts_iff h j mirrors (put_hosts id grown domains) in
    let now = hosts_at-put_hosts id j grown domains in
    let (added, kept) = Elem-push_hosts h urls (hosts_at id domains) in
    elim (Bool-cases (bytes_eq id j)) [
      | inl same ↦
          let here : id ≡ j = (bytes_eq_iff id j).0 same in
          let at : hosts_at j (put_hosts id grown domains) ≡ grown = now ∙ rw same refl in
          let before : hosts_at id domains ≡ hosts_at j domains =
            ap (λ i. hosts_at i domains) here in
          (
            (λ m. elim (there m) [
              | inl m ↦ elim (added (subst (Elem h) at m)) [
                | inl m ↦ inl (subst (Elem h) before m)
                | inr found ↦ inr (urls, inl (ap (λ i. (i, urls)) (sym here)), found)
              ]
              | inr (us, m, found) ↦ inr (us, inr m, found)
            ]),
            λ m. elim m [
              | inl m ↦
                  back (inl (subst (Elem h) (sym at) (kept (inl (subst (Elem h) (sym before) m)))))
              | inr (us, m, found) ↦ elim m [
                | inl head ↦
                    let list : us ≡ urls = ap (λ e. e.1) head in
                    back (inl (subst (Elem h) (sym at) (kept (inr (subst (HostOf h) list found)))))
                | inr m ↦ back (inr (us, m, found))
              ]
            ],
          )
      | inr other ↦
          let at : hosts_at j (put_hosts id grown domains) ≡ hosts_at j domains =
            now ∙ rw other refl in
          (
            (λ m. elim (there m) [
              | inl m ↦ inl (subst (Elem h) at m)
              | inr (us, m, found) ↦ inr (us, inr m, found)
            ]),
            λ m. elim m [
              | inl m ↦ back (inl (subst (Elem h) (sym at) m))
              | inr (us, m, found) ↦ elim m [
                | inl head ↦
                    let same : j ≡ id = ap (λ e. e.0) head in
                    absurd (ground (arith, bytes_eq_iff id j))
                | inr m ↦ back (inr (us, m, found))
              ]
            ],
          )
    ]

-- A canonical origin is added as a list of one mirror would be.
pub union_canonical_hosts_lem :
    (canonical : StdMap Bytes) (domains : Routes)
    → union_canonical_hosts canonical domains
      ≡ union_mirror_hosts (map (λ e. (e.0, e.1 ∷ [])) canonical) domains
unfolding union_canonical_hosts union_mirror_hosts push_hosts
union_canonical_hosts_lem [] domains = refl
union_canonical_hosts_lem ((id, url) ∷ canonical) domains =
    union_canonical_hosts_lem canonical
      (put_hosts id (push_new (host_of url) (hosts_at id domains)) domains)
