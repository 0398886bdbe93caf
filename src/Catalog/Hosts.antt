-- ===== src/Catalog/Hosts.antt =====
-- The routing hosts that a catalog adds (src/catalog/CatalogManager.cpp): those of its mirrors and
-- of its canonical origins.
pub mod Union
use aniparse.Prelude.{
  ℕ, ◌+◌, List, [], ◌∷◌, ◌++◌, Option, none, some, ◌==◌, Bytes, codes, bytes_eq, any_of,
  if◌then◌else◌, drop,
}
use aniparse.Prelude.StdMap.{StdMap, find, insert, erase}
use aniparse.Catalog.{Routes}
use aniparse.UrlPath.{index_of}

-- `text.substr(0, text.find(c))`
unfoldable pub before : ℕ → Bytes → Bytes
before c [] = []
before c (d ∷ text) = let rest = before c text in if d == c then [] else d ∷ rest

unfoldable pub after_scheme : Bytes → Option ℕ → Bytes
after_scheme url none = url
after_scheme url (some scheme) = drop (scheme + 3) url

unfoldable pub host_of : Bytes → Bytes
host_of url = before b':' (before b'/' (after_scheme url (index_of (codes "://") url)))

-- `if (std::find(hosts, host) == end) hosts.push_back(host)`
unfoldable pub push_new : Bytes → List Bytes → List Bytes
push_new host hosts = if any_of (bytes_eq host) hosts then hosts else hosts ++ (host ∷ [])

unfoldable pub push_hosts : List Bytes → List Bytes → List Bytes
push_hosts [] hosts = hosts
push_hosts (url ∷ urls) hosts = push_hosts urls (push_new (host_of url) hosts)

unfoldable pub list_or_empty : Option (List Bytes) → List Bytes
list_or_empty none = []
list_or_empty (some hosts) = hosts

-- `domains[id]`, written back after a change.
unfoldable pub hosts_at : Bytes → Routes → List Bytes
hosts_at id domains = list_or_empty (find id domains)

unfoldable pub put_hosts : Bytes → List Bytes → Routes → Routes
put_hosts id hosts domains = insert id hosts (erase id domains)

unfoldable pub union_mirror_hosts : StdMap (List Bytes) → Routes → Routes
union_mirror_hosts [] domains = domains
union_mirror_hosts ((id, urls) ∷ mirrors) domains =
    union_mirror_hosts mirrors (put_hosts id (push_hosts urls (hosts_at id domains)) domains)

unfoldable pub union_canonical_hosts : StdMap Bytes → Routes → Routes
union_canonical_hosts [] domains = domains
union_canonical_hosts ((id, url) ∷ canonical) domains =
    union_canonical_hosts canonical
      (put_hosts id (push_new (host_of url) (hosts_at id domains)) domains)
