-- ===== src/Domains/Store/Routes.antt =====
-- What a snapshot's scanner holds: the values of the entries, in the order of their identifiers,
-- once for each domain of theirs that has the labels.
use mathlib.Core.Path.{fun_ext}
use aniparse.Prelude.StdMap.{StdMap}
use aniparse.Prelude.{
  Bool, List, [], ◌∷◌, ◌++◌, append-nil, append_assoc, ◌≡◌, ap, sym, ◌∙◌, inl, inr, Bytes,
  if◌then◌else◌, Bool-cases,
}
use aniparse.Domains.Labels.{split_domains}
use aniparse.Domains.Scanner.{Node, empty, add_domain_parser}
use aniparse.Domains.Scanner.Registered.{path_eq, registered, registered-add, registered-empty}
use aniparse.Domains.Scanner.Search.{longest_match, search_all-longest_match}
use aniparse.Domains.Store.{
  DomainOverrides, Snapshot, Store, add_domains, overrides_of, scan_entries, make_snapshot,
  find_by_host,
}

-- `v` once for each of the domains that has the labels.
abbrev pub hits : {V : Type 0} → List Bytes → V → List Bytes → List V
hits [] v ls = []
hits (d ∷ ds) v ls = (if path_eq (split_domains d) ls then v ∷ [] else []) ++ hits ds v ls

module _ {V : Type 0} where
  registered-add_domains :
      (ds : List Bytes) (v : V) (n : Node V) (ls : List Bytes)
      → registered (add_domains ds v n) ls ≡ registered n ls ++ hits ds v ls
  unfolding add_domains
  registered-add_domains [] v n ls = sym (append-nil (registered n ls))
  registered-add_domains (d ∷ ds) v n ls =
      let tail = registered-add_domains ds v (add_domain_parser (split_domains d) v n) ls in
      let head = registered-add (split_domains d) v n ls in
      elim (Bool-cases (path_eq (split_domains d) ls)) [
        | inl same ↦
            tail
            ∙ ap (λ ps. ps ++ hits ds v ls) head
            ∙ rw same (append_assoc (registered n ls) (v ∷ []) (hits ds v ls))
        | inr differ ↦ tail ∙ ap (λ ps. ps ++ hits ds v ls) head ∙ rw differ
      ]

module _ {V : Type 0} (emitter : V → List Bytes) where
  -- Each value under the domains that it declares and those that the overrides give it.
  unfoldable pub domains_of : Bytes → V → DomainOverrides → List Bytes
  domains_of identifier v vol = emitter v ++ overrides_of identifier vol

  unfoldable pub routes : StdMap V → DomainOverrides → List Bytes → List V
  routes [] vol ls = []
  routes ((identifier, v) ∷ es) vol ls =
      hits (emitter v) v ls ++ (hits (overrides_of identifier vol) v ls ++ routes es vol ls)

  registered-scan_entries :
      (es : StdMap V) (vol : DomainOverrides) (n : Node V) (ls : List Bytes)
      → registered (scan_entries emitter es vol n) ls ≡ registered n ls ++ routes es vol ls
  unfolding scan_entries routes
  registered-scan_entries [] vol n ls = sym (append-nil (registered n ls))
  registered-scan_entries ((identifier, v) ∷ es) vol n ls =
      simp (registered-scan_entries es vol, registered-add_domains, append_assoc)

  -- The scanner is the one that the entries and the overrides of the snapshot make.
  abbrev pub IsCoherent : Store V → Type 0
  IsCoherent s = s.snapshot ≡ make_snapshot emitter s.snapshot.entries s.snapshot.volatile_domains

  registered-make_snapshot :
      (es : StdMap V) (vol : DomainOverrides)
      → ◌≡◌ {A = List Bytes → List V}
          (registered (make_snapshot emitter es vol).scanner)
          (routes es vol)
  unfolding make_snapshot
  registered-make_snapshot es vol = fun_ext λ ls.
      registered-scan_entries es vol empty ls
      ∙ ap (λ ps. ps ++ routes es vol ls) (registered-empty ls)

  -- In a store whose scanner is the one that its entries and overrides make, a lookup by host is the
  -- longest match over the domains that the entries declare and the overrides give them.
  pub find_by_host-longest_match :
      (accepts : V → Bool) (host : Bytes) (s : Store V)
      → IsCoherent s
      → find_by_host accepts host s
        ≡ longest_match accepts
            (routes s.snapshot.entries s.snapshot.volatile_domains)
            (split_domains host)
  unfolding find_by_host
  find_by_host-longest_match accepts host s coherent =
      search_all-longest_match accepts (split_domains host) s.snapshot.scanner
      ∙ ap (λ at. longest_match accepts at (split_domains host))
          (ap (λ (t : Snapshot V). registered t.scanner) coherent
            ∙ registered-make_snapshot s.snapshot.entries s.snapshot.volatile_domains)
