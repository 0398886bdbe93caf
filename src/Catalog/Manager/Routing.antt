-- ===== src/Catalog/Manager/Routing.antt =====
-- What an applied catalog makes routable, and what a reset takes back.
use aniparse.Prelude.{
  ℕ, ◌+◌, Bool, true, List, [], ◌∷◌, map, append-nil, Option, none, some, ◌≡◌, refl, sym, ◌∙◌, ◌≢◌,
  inl, inr, arith, ==_refl, Bytes, Option-cases, Elem, Elem-append_right,
}
use aniparse.Prelude.Int.{ℤ}
use aniparse.Prelude.StdMap
use aniparse.Json.{Json}
use aniparse.Domains.Labels.{split_domains}
use aniparse.Domains.Store
use aniparse.Domains.Store.{DomainOverrides, Store, Snapshot, make_snapshot, overrides_of}
use aniparse.Domains.Store.Routes.{domains_of}
use aniparse.Domains.Store.Lookup.{find_by_host_complete}
use aniparse.Url.Parsed
use aniparse.Url.Parsed.{LexborUrl, ParsedUrl}
use aniparse.ParserStore
use aniparse.ParserStore.{Parser, find_for_url}
use aniparse.ParserStore.Routing.{with_overrides, refresh_domains_done}
use aniparse.Extractors
use aniparse.Extractors.{Outside, VideoExtractor}
use aniparse.Sources.{
  MirrorSource, SelectorSource, RegexSource, no_mirrors, no_selectors, no_patterns,
}
use aniparse.Catalog.{CatalogData}
use aniparse.Catalog.Hosts.{host_of, hosts_at, list_or_empty, union_mirror_hosts}
use aniparse.Catalog.Hosts.Union.{union_mirror_hosts_iff, union_canonical_hosts_lem}
use aniparse.Catalog.Decoding.{IsCatalog, decode_catalog_iff}
use aniparse.Catalog.Manager.{
  Manager, Services, Delivery, adopt, parser_routes, extractor_routes, refresh_extractors, serve,
  serve_extractors, swap, conclude, apply, apply_all, reset,
}
use aniparse.Catalog.Manager.Rollback.{apply_cases}

overrides_of-hosts_at : (id : Bytes) (vol : DomainOverrides) → overrides_of id vol ≡ hosts_at id vol
unfolding overrides_of hosts_at list_or_empty
overrides_of-hosts_at id vol = elim (Option-cases (StdMap.find id vol)) [
  | inl absent ↦ ground (arith, absent)
  | inr (hosts, present) ↦ ground (arith, present)
]

-- The host of each mirror of a parser is one of the overrides that are applied.
mirror_routes :
    (d : CatalogData) (id url : Bytes) (urls : List Bytes)
    → Elem (id, urls) d.mirrors
    → Elem url urls
    → Elem (host_of url) (overrides_of id (parser_routes d))
unfolding parser_routes
mirror_routes d id url urls listed mirror =
    let base = union_mirror_hosts d.mirrors d.domains in
    let kept =
      (union_mirror_hosts_iff (host_of url) id (map (λ e. (e.0, e.1 ∷ [])) d.canonical_base_urls)
          base).1
        (inl (
          (union_mirror_hosts_iff (host_of url) id d.mirrors d.domains).1
            (inr (urls, listed, (url, mirror, refl))))) in
    rw (overrides_of-hosts_at, union_canonical_hosts_lem) kept

refresh_extractors_lem :
    (o : Outside) (vol : DomainOverrides) (s : Store (VideoExtractor o))
    → (Extractors.refresh_domains o vol s).1 ≡ record {
      live = s.live + 1;
      snapshot = make_snapshot (Extractors.emitter o) s.snapshot.entries vol;
    }
unfolding Extractors.refresh_domains Extractors.publish_edit Store.set_volatile_domains
    Store.begin_edit Store.commit Store.publish
refresh_extractors_lem o vol s = ground (arith, ==_refl s.live)

-- What can be seen of a manager: the snapshots of its stores, its services and its revision.
abbrev pub snapshots : {V : Type 0} → Option (Store V) → Option (Snapshot V)
snapshots none = none
snapshots (some s) = some s.snapshot

abbrev pub view :
    {o : Outside}
    → Manager o
    → Snapshot Parser × Option (Snapshot (VideoExtractor o)) × Option Services × Option Services × ℕ
view m = (m.store.snapshot, snapshots m.extractors, m.services, m.extractor_services, m.revision)

swap-twice : {S : Type 0} (source old : S) (h : Option S) → swap source (swap old h) ≡ swap source h
unfolding swap
swap-twice source old none = refl
swap-twice source old (some h) = refl

serve-twice :
    (mirrors : MirrorSource) (selectors : SelectorSource) (patterns : RegexSource)
    (mirrors' : MirrorSource) (selectors' : SelectorSource) (patterns' : RegexSource)
    (services : Option Services)
    → serve mirrors selectors patterns (serve mirrors' selectors' patterns' services)
      ≡ serve mirrors selectors patterns services
unfolding serve
serve-twice a b c a' b' c' none = refl
serve-twice a b c a' b' c' (some s) = simp (swap-twice)

serve_extractors-twice :
    (mirrors : MirrorSource) (patterns : RegexSource) (mirrors' : MirrorSource)
    (patterns' : RegexSource) (services : Option Services)
    → serve_extractors mirrors patterns (serve_extractors mirrors' patterns' services)
      ≡ serve_extractors mirrors patterns services
unfolding serve_extractors
serve_extractors-twice a c a' c' none = refl
serve_extractors-twice a c a' c' (some s) = simp (swap-twice)

snapshot-twice :
    (vol : DomainOverrides) (s : Store Parser)
    → (ParserStore.refresh_domains [] (ParserStore.refresh_domains vol s).1).1.snapshot
      ≡ (ParserStore.refresh_domains [] s).1.snapshot
unfolding with_overrides make_snapshot
snapshot-twice vol s =
    rw
      (
        refresh_domains_done vol s,
        refresh_domains_done [] s,
        refresh_domains_done [] (with_overrides vol s),
      )
      refl

snapshots-twice :
    (o : Outside) (vol : DomainOverrides) (s : Option (Store (VideoExtractor o)))
    → snapshots (refresh_extractors o [] (refresh_extractors o vol s))
      ≡ snapshots (refresh_extractors o [] s)
unfolding refresh_extractors make_snapshot
snapshots-twice o vol none = refl
snapshots-twice o vol (some s) = simp (refresh_extractors_lem)

module _ (o : Outside) {Real : Type 0} (truncated : Real → ℤ) (verify : Bytes → Bytes → Bool)
    (parse : Bytes → Option (Json Real)) where
  -- After a catalog was applied, a URL whose host is that of a mirror listed for a stored parser,
  -- and that this parser takes for valid, finds a parser.
  pub apply_routes_mirrors :
      (lexbor : Bytes → Option LexborUrl) (payload signature : Bytes) (m : Manager o)
      (d : CatalogData) (p : Parser) (urls : List Bytes) (url target : Bytes) (parsed : ParsedUrl)
      → IsCatalog truncated verify parse payload signature m.revision d
      → Elem (p.identifier, p) m.store.snapshot.entries
      → Elem (p.identifier, urls) d.mirrors
      → Elem url urls
      → Parsed.parse lexbor target ≡ some parsed
      → Parsed.host parsed ≡ host_of url
      → p.valid_for_url parsed ≡ true
      → find_for_url lexbor target (apply o truncated verify parse payload signature m).1.store
        ≢ none
  unfolding find_for_url apply conclude adopt
  apply_routes_mirrors lexbor payload signature m d p urls url target parsed c entry listed mirror
        is_url at valid =
      let decoded =
        (decode_catalog_iff truncated verify parse payload signature m.revision d).0.1 c in
      let routed = mirror_routes d p.identifier url urls listed mirror in
      let store = with_overrides (parser_routes d) m.store in
      rw (decoded, is_url, at, refresh_domains_done (parser_routes d) m.store)
        (find_by_host_complete ParserStore.emitter (λ q. q.valid_for_url parsed) (host_of url) store
          p (split_domains (host_of url)) [] (unfold with_overrides make_snapshot in refl)
          (unfold with_overrides make_snapshot in
            record {
              identifier = p.identifier;
              is_entry = entry;
              domain = host_of url;
              declared =
                  unfold domains_of in Elem-append_right (host_of url) p.emplace_domains _ routed;
              is_at = refl;
            })
          valid (sym (append-nil (split_domains (host_of url)))))

  -- What a reset leaves does not depend on the catalogs that were applied.
  view-adopt : (d : CatalogData) (m : Manager o) → view (reset o (adopt o d m)) ≡ view (reset o m)
  unfolding reset adopt
  view-adopt d m =
      let parsers = snapshot-twice (parser_routes d) m.store in
      let extractors = snapshots-twice o (extractor_routes d) m.extractors in
      let services = serve-twice no_mirrors no_selectors no_patterns _ _ _ m.services in
      let extractor_services =
        serve_extractors-twice no_mirrors no_patterns _ _ m.extractor_services in
      λ i. (parsers i, extractors i, services i, extractor_services i, 0)

  -- Whatever deliveries a manager has received, a reset leaves the snapshots, the sources and the
  -- revision that a reset of the first manager leaves.
  pub reset_forgets :
      (deliveries : List Delivery) (m : Manager o)
      → view (reset o (apply_all o truncated verify parse deliveries m).1) ≡ view (reset o m)
  unfolding apply_all
  reset_forgets [] m = refl
  reset_forgets ((payload, signature) ∷ deliveries) m =
      elim (apply_cases o truncated verify parse payload signature m) [
        | inl (e, failed) ↦ rw failed (reset_forgets deliveries m)
        | inr (d, catalog, applied) ↦
            rw applied (reset_forgets deliveries (adopt o d m) ∙ view-adopt d m)
      ]
