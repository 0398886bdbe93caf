-- ===== src/Domains/Tests.antt =====
-- A store with two sites, and two writers.
use aniparse.Prelude.StdMap.{StdMap, find}
use aniparse.Prelude.{
  Bool, true, List, [], ◌∷◌, ◌++◌, some, ◌≡◌, refl, inl, Bytes, codes, bytes_eq, find_if,
}
use aniparse.Domains.Labels.{split_domains, split, pieces, push_front}
use aniparse.Domains.Scanner.{
  Node, empty, find_child, insert_child, assign_child, with_child, add_domain_parser, search,
  search_all, find_deepest_node, search_up, find_parser_by_pred,
}
use aniparse.Domains.Scanner.Registered.{registered}
use aniparse.Domains.Scanner.Search.{longest_match, search-find_if, search_all-longest_match}
use aniparse.Domains.Store.{
  Store, make_store, make_snapshot, scan_entries, add_domains, overrides_of, find_by_host,
}
use aniparse.Domains.Store.Routes.{IsCoherent, routes, domains_of, find_by_host-longest_match}
use aniparse.Domains.Store.Lookup.{Serves}
use aniparse.Domains.Store.Schedule.{add_op, Action, begin, edit, commit_edit, run, initial, serial}
use aniparse.Domains.Store.Serial.{store_serializable, store-IsCoherent}

-- A site is a name and its domains.
abbrev Site : Type 0
Site = Bytes × List Bytes

abbrev emitter : Site → List Bytes
emitter site = site.1

abbrev anime : Site
anime = (codes "a", codes "example.com" ∷ [])

abbrev manga : Site
manga = (codes "b", codes "m.example.com" ∷ [])

abbrev com_example : List Bytes
com_example = codes "com" ∷ codes "example" ∷ []

abbrev accepts : Site → Bool
accepts site = true

abbrev same_site : Site → Site → Bool
same_site s t = bytes_eq s.0 t.0

abbrev scanner : Node Site
scanner = add_domain_parser com_example manga empty

search-find_if_example :
    search accepts com_example scanner ≡ find_if accepts (registered scanner com_example)
search-find_if_example = search-find_if accepts com_example scanner

search_all-longest_match_example :
    search_all accepts (com_example ++ codes "m" ∷ []) scanner
    ≡ longest_match accepts (registered scanner) (com_example ++ codes "m" ∷ [])
search_all-longest_match_example =
    search_all-longest_match accepts (com_example ++ codes "m" ∷ []) scanner

abbrev entries : StdMap Site
entries = (codes "a", anime) ∷ (codes "b", manga) ∷ []

abbrev sites : Store Site
sites = record { live = 3; snapshot = make_snapshot emitter entries [] }

sites-IsCoherent : IsCoherent emitter sites
unfolding make_snapshot
sites-IsCoherent = refl

anime-Serves : Serves emitter sites (split_domains (codes "example.com")) anime
unfolding make_snapshot domains_of
anime-Serves = record {
  identifier = codes "a";
  is_entry = inl refl;
  domain = codes "example.com";
  declared = inl refl;
  is_at = refl;
}

find_by_host-longest_match_example :
    find_by_host accepts (codes "www.example.com") sites
    ≡ longest_match accepts
        (routes emitter sites.snapshot.entries sites.snapshot.volatile_domains)
        (split_domains (codes "www.example.com"))
find_by_host-longest_match_example =
    find_by_host-longest_match emitter accepts (codes "www.example.com") sites sites-IsCoherent

subdomain_found : find_by_host accepts (codes "x.m.example.com") sites ≡ some manga
unfolding find_by_host make_snapshot scan_entries add_domains overrides_of split_domains split
    pieces push_front add_domain_parser with_child find_child insert_child assign_child search_all
    search_up find_deepest_node find_parser_by_pred find_if bytes_eq find
subdomain_found = refl

-- Two writers from one snapshot: the second commit is stale, its retry is not.
abbrev writers : List (Action Site)
writers =
    begin
    ∷ begin
    ∷ edit 0 (add_op (codes "a") anime)
    ∷ edit 1 (add_op (codes "b") manga)
    ∷ commit_edit 0
    ∷ commit_edit 1
    ∷ begin
    ∷ edit 2 (add_op (codes "b") manga)
    ∷ commit_edit 2
    ∷ []

store_serializable_example :
    (run emitter writers (initial emitter)).store
    ≡ serial emitter (run emitter writers (initial emitter)).batches (make_store emitter)
store_serializable_example = store_serializable emitter writers

store-IsCoherent_example : IsCoherent emitter (run emitter writers (initial emitter)).store
store-IsCoherent_example = store-IsCoherent emitter writers
