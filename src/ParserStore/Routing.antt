-- ===== src/ParserStore/Routing.antt =====
-- Registration and routing of parsers.
use aniparse.Prelude.StdMap
use aniparse.Prelude.StdMap.{find-insert}
use aniparse.Prelude.{
  ◌+◌, true, List, ◌++◌, Option, none, some, ◌≡◌, refl, ap, ◌∙◌, ◌≢◌, ◌⊎◌, inl, inr, arith, ==_refl,
  Bytes, bytes_eq, if◌then◌else◌, Option-cases, Elem, Elem-append_left,
}
use aniparse.Domains.Labels.{split_domains}
use aniparse.Domains.Store
use aniparse.Domains.Store.{DomainOverrides, Store, make_snapshot, Edit, CommitResult}
use aniparse.Domains.Store.Routes.{IsCoherent, domains_of}
use aniparse.Domains.Store.Lookup.{Serves, IsAtDomain, find_by_host_at, find_by_host_sound}
use aniparse.Url.Parsed
use aniparse.Url.Parsed.{LexborUrl, ParsedUrl}
use aniparse.ParserStore.{
  Parser, UrlRoute, emitter, Outcome, done, conflicting_name, edit_add_parser, commit_outcome,
  publish_edit, add_parser, edit_refresh_domains, refresh_domains, find_by_key, find_for_url,
  route_url,
}

-- The store after a new parser was added: the entries with it, under the same overrides.
with_parser : Parser → Store Parser → Store Parser
with_parser p s = record {
  live = s.live + 1;
  snapshot =
      make_snapshot emitter (StdMap.insert p.identifier p s.snapshot.entries)
        s.snapshot.volatile_domains;
}

add_parser_new :
    (p : Parser) (s : Store Parser)
    → StdMap.find p.identifier s.snapshot.entries ≡ none
    → add_parser p s ≡ (done (some p), with_parser p s)
unfolding add_parser edit_add_parser publish_edit commit_outcome with_parser Store.add
    Store.begin_edit Store.commit Store.publish
add_parser_new p s h = ground (arith, ==_refl s.live)

add_parser_taken :
    (p q : Parser) (s : Store Parser)
    → StdMap.find p.identifier s.snapshot.entries ≡ some q
    → add_parser p s ≡ (conflicting_name p.identifier, s)
unfolding add_parser edit_add_parser publish_edit Store.begin_edit
add_parser_taken p q s h = ground arith

-- A parser with a new identifier is stored, found under its identifier, and leaves every other
-- lookup by identifier as it was; one whose identifier is taken is refused and nothing changes.
pub add_parser-find_by_key :
    (p : Parser) (k : Bytes) (s : Store Parser)
    → ((find_by_key p.identifier s ≡ none)
        × ((add_parser p s).0 ≡ done (some p))
        × (find_by_key k (add_parser p s).1
            ≡ (if bytes_eq p.identifier k then some p else find_by_key k s))
        × IsCoherent emitter (add_parser p s).1)
      ⊎ ((q : Parser) × (find_by_key p.identifier s ≡ some q)
          × ((add_parser p s).0 ≡ conflicting_name p.identifier)
          × ((add_parser p s).1 ≡ s))
unfolding Store.find_by_key
add_parser-find_by_key p k s = elim (Option-cases (StdMap.find p.identifier s.snapshot.entries)) [
  | inl new ↦
      let added : add_parser p s ≡ (done (some p), with_parser p s) = add_parser_new p s new in
      inl (
        new,
        ap (λ r. r.0) added,
        ap (λ (r : Outcome (Option Parser) × Store Parser). StdMap.find k r.1.snapshot.entries)
              added
            ∙ unfold with_parser make_snapshot in
              find-insert p.identifier k p s.snapshot.entries new,
        rw added (unfold with_parser make_snapshot in refl),
      )
  | inr (q, taken) ↦
      let refused : add_parser p s ≡ (conflicting_name p.identifier, s) =
        add_parser_taken p q s taken in
      inr (q, taken, ap (λ r. r.0) refused, ap (λ r. r.1) refused)
]

-- The store after a refresh: the same entries, under other overrides.
unfoldable pub with_overrides : DomainOverrides → Store Parser → Store Parser
with_overrides vol s = record {
  live = s.live + 1;
  snapshot = make_snapshot emitter s.snapshot.entries vol;
}

pub refresh_domains_done :
    (vol : DomainOverrides) (s : Store Parser)
    → refresh_domains vol s ≡ (done tt, with_overrides vol s)
unfolding refresh_domains edit_refresh_domains publish_edit commit_outcome with_overrides
    Store.set_volatile_domains Store.begin_edit Store.commit Store.publish
refresh_domains_done vol s = ground (arith, ==_refl s.live)

module _ (lexbor : Bytes → Option LexborUrl) where
  -- Whatever overrides a refresh brings, a URL whose host is one of the domains that a stored parser
  -- declares itself, or a subdomain of one that is not empty, and that this parser takes for valid,
  -- still finds a parser after the refresh.
  pub refresh_keeps_static :
      (vol : DomainOverrides) (s : Store Parser) (p : Parser) (url domain : Bytes)
      (parsed : ParsedUrl)
      → Elem (p.identifier, p) s.snapshot.entries
      → Elem domain p.emplace_domains
      → Parsed.parse lexbor url ≡ some parsed
      → IsAtDomain (Parsed.host parsed) domain
      → p.valid_for_url parsed ≡ true
      → find_for_url lexbor url (refresh_domains vol s).1 ≢ none
  unfolding find_for_url
  refresh_keeps_static vol s p url domain parsed entry declared is_url at valid =
      rw (is_url, refresh_domains_done vol s)
        (find_by_host_at emitter (λ q. q.valid_for_url parsed) (Parsed.host parsed) domain
          (with_overrides vol s) p (unfold with_overrides make_snapshot in refl)
          (unfold with_overrides make_snapshot in
            record {
              identifier = p.identifier;
              is_entry = entry;
              domain = domain;
              declared = unfold domains_of in Elem-append_left domain p.emplace_domains _ declared;
              is_at = refl;
            })
          valid at)

  -- In a store whose scanner is that of its entries, `route_url` and `find_for_url` either both find
  -- nothing or find the same parser: a stored one, a domain of which has labels that begin those of
  -- the URL's host, that takes the parsed URL for valid, with its own classification of it.
  pub route_url-find_for_url :
      (url : Bytes) (s : Store Parser)
      → IsCoherent emitter s
      → ((route_url lexbor url s ≡ none) × (find_for_url lexbor url s ≡ none))
        ⊎ ((r : UrlRoute) × (route_url lexbor url s ≡ some r)
            × (find_for_url lexbor url s ≡ some r.parser)
            × (Parsed.parse lexbor url ≡ some r.url)
            × (r.type ≡ r.parser.suggest_getter r.url)
            × (r.parser.valid_for_url r.url ≡ true)
            × (labels rest : List Bytes) × (split_domains (Parsed.host r.url) ≡ labels ++ rest)
            × Serves emitter s labels r.parser)
  unfolding route_url find_for_url
  route_url-find_for_url url s coherent = elim (Option-cases (Parsed.parse lexbor url)) [
    | inl bad ↦ inl (rw bad refl, rw bad refl)
    | inr (u, is_url) ↦
        elim (Option-cases (Store.find_by_host (λ p. p.valid_for_url u) (Parsed.host u) s)) [
          | inl unserved ↦ inl (rw (is_url, unserved) refl, rw (is_url, unserved) refl)
          | inr (p, found) ↦
              let (valid, m, serves) =
                find_by_host_sound emitter (λ p. p.valid_for_url u) (Parsed.host u) s coherent
                  found in
              inr (
                record { parser = p; type = p.suggest_getter u; url = u },
                rw (is_url, found) refl,
                rw (is_url, found) refl,
                is_url,
                refl,
                valid,
                m.prefix,
                m.rest,
                m.splits,
                serves,
              )
        ]
  ]
