-- ===== src/Catalog/Tests.antt =====
-- A catalog with a mirror of one parser, and one whose revision is -1. The verifier of these tests
-- accepts one signature, and the JSON parser knows two payloads.
use aniparse.Prelude.{
  ℕ, ◌-◌, ◌^◌, Bool, true, false, List, [], ◌∷◌, Option, none, some, ◌≡◌, refl, ◌≢◌, ◌↔◌, inl,
  arith, Bytes, codes, bytes_eq, has_prefix, if◌then◌else◌, Elem,
}
use aniparse.Prelude.Int.{ℤ, pos, negsuc}
use aniparse.Prelude.StdMap.{StdMap}
use aniparse.Domains.Store.{make_snapshot}
use aniparse.Url.Parsed
use aniparse.Url.Parsed.{LexborUrl, ParsedUrl}
use aniparse.ParserStore.{Parser, manga, emitter, find_for_url}
use aniparse.Extractors.{Outside}
use aniparse.Sources.{no_mirrors}
use aniparse.Json.{
  Json, object, array, string, int64, no_item, item, Fields, no_field, field, integer, entries,
  if_contains, to_uint64,
}
use aniparse.Catalog.{CatalogData, value, read_data, decode_catalog}
use aniparse.Catalog.Hosts.{host_of}
use aniparse.Catalog.Given.{IsRead}
use aniparse.Catalog.Decoding.{IsCatalog, decode_catalog_iff}
use aniparse.Catalog.Manager.{Manager, Delivery, apply, apply_all, reset}
use aniparse.Catalog.Manager.Rollback.{
  Ascending, last_or, apply_all-Ascending, negative_revision_locks,
}
use aniparse.Catalog.Manager.Routing.{view, apply_routes_mirrors, reset_forgets}

abbrev nothing : Outside
nothing = record {
  World = ℕ;
  Stream = Bytes;
  Adapter = Bytes;
  Failure = Bytes;
  composed = λ adapters. [];
  not_implemented = λ text. text;
  invalid_arguments = λ text. text;
}

abbrev reader : Parser
reader = record {
  identifier = codes "reader";
  valid_for_url = λ u. true;
  suggest_getter = λ u. manga;
  emplace_domains = codes "example.com" ∷ [];
}

abbrev mirror : Bytes
mirror = codes "https://m.example:443/x"

abbrev reader_fields : Fields ℕ
reader_fields = field (codes "mirrors") (array (item (string mirror) no_item)) no_field

abbrev catalog_of : ℤ → Fields ℕ
catalog_of revision = field (codes "schema_version") (int64 (pos 1)) (
    field (codes "revision") (int64 revision) (
      field (codes "parsers") (object (field (codes "reader") (object reader_fields) no_field))
        no_field))

abbrev parse : Bytes → Option (Json ℕ)
parse payload =
    if bytes_eq payload (codes "3")
    then some (object (catalog_of (pos 3)))
    else if bytes_eq payload (codes "-1")
    then some (object (catalog_of (negsuc 0)))
    else none

abbrev verify : Bytes → Bytes → Bool
verify payload signature = bytes_eq signature (codes "ok")

abbrev manager : Manager nothing
manager = record {
  store = record { live = 1; snapshot = make_snapshot emitter ((codes "reader", reader) ∷ []) [] };
  services = some (record {
    mirrors = some no_mirrors;
    selectors = none;
    patterns = none;
    resources = some [];
  });
  extractors = none;
  extractor_services = none;
  revision = 2;
}

third : CatalogData
third = read_data 3 (entries (catalog_of (pos 3)))

third-IsCatalog : IsCatalog pos verify parse (codes "3") (codes "ok") 2 third
unfolding third bytes_eq aniparse.Json.if_object aniparse.Json.if_contains aniparse.Json.is_number
    aniparse.Json.integer aniparse.Json.value_integer aniparse.Json.to_uint64
    aniparse.Catalog.is_schema aniparse.Prelude.StdMap.find
third-IsCatalog = record {
  verified = refl;
  parsed = object (catalog_of (pos 3));
  parses = refl;
  root = entries (catalog_of (pos 3));
  is_object = refl;
  version = int64 (pos 1);
  has_version = refl;
  version_number = refl;
  is_version = refl;
  revision = int64 (pos 3);
  has_revision = refl;
  revision_number = refl;
  newer = omega arith;
  reads = refl;
}

decode_catalog_iff_example :
    ((decode_catalog pos verify parse (codes "3") (codes "ok") 2 ≡ value third)
      ↔ IsCatalog pos verify parse (codes "3") (codes "ok") 2 third)
    × ((c : IsCatalog pos verify parse (codes "3") (codes "ok") 2 third)
        → IsRead c.root third
          × (third.revision ≡ to_uint64 (integer pos c.root (codes "revision"))))
decode_catalog_iff_example = decode_catalog_iff pos verify parse (codes "3") (codes "ok") 2 third

abbrev deliveries : List Delivery
deliveries = (codes "3", codes "forged") ∷ (codes "3", codes "ok") ∷ (codes "3", codes "ok") ∷ []

apply_all-Ascending_example :
    Ascending 2 (apply_all nothing pos verify parse deliveries manager).0
    × ((apply_all nothing pos verify parse deliveries manager).1.revision
        ≡ last_or 2 (apply_all nothing pos verify parse deliveries manager).0)
apply_all-Ascending_example = apply_all-Ascending nothing pos verify parse deliveries manager

reset_forgets_example :
    view (reset nothing (apply_all nothing pos verify parse deliveries manager).1)
    ≡ view (reset nothing manager)
reset_forgets_example = reset_forgets nothing pos verify parse deliveries manager

abbrev mirrors : StdMap (List Bytes)
mirrors = (codes "reader", mirror ∷ []) ∷ []

negative : CatalogData
negative = read_data (2 ^ 64 - 1) (entries (catalog_of (negsuc 0)))

negative-IsCatalog : IsCatalog pos verify parse (codes "-1") (codes "ok") 2 negative
unfolding negative bytes_eq aniparse.Json.if_object aniparse.Json.if_contains
    aniparse.Json.is_number aniparse.Json.integer aniparse.Json.value_integer
    aniparse.Json.to_uint64 aniparse.Catalog.is_schema aniparse.Prelude.StdMap.find
negative-IsCatalog = record {
  verified = refl;
  parsed = object (catalog_of (negsuc 0));
  parses = refl;
  root = entries (catalog_of (negsuc 0));
  is_object = refl;
  version = int64 (pos 1);
  has_version = refl;
  version_number = refl;
  is_version = refl;
  revision = int64 (negsuc 0);
  has_revision = refl;
  revision_number = refl;
  newer = omega arith;
  reads = refl;
}

negative-integer : integer pos negative-IsCatalog.root (codes "revision") ≡ negsuc 0
unfolding negative-IsCatalog aniparse.Json.integer aniparse.Json.if_contains
    aniparse.Prelude.StdMap.find aniparse.Json.value_integer bytes_eq
negative-integer = refl

negative_revision_locks_example :
    apply_all nothing pos verify parse deliveries
      (apply nothing pos verify parse (codes "-1") (codes "ok") manager).1
    ≡ ([], (apply nothing pos verify parse (codes "-1") (codes "ok") manager).1)
negative_revision_locks_example =
    negative_revision_locks nothing pos verify parse (codes "-1") (codes "ok") manager negative
      negative-IsCatalog negative-integer deliveries

abbrev page_url : Bytes
page_url = codes "https://m.example/"

abbrev page_result : LexborUrl
page_result = record {
  href = some page_url;
  scheme = some (codes "https");
  host = some (codes "m.example");
  path = some (codes "/");
  query = some [];
  fragment = some [];
  has_query = false;
  has_fragment = false;
  has_host = true;
  username = [];
  password = [];
}

abbrev lexbor : Bytes → Option LexborUrl
lexbor url = if bytes_eq url page_url then some page_result else none

abbrev page : ParsedUrl
page = record {
  href_ = page_url;
  scheme_ = record { offset = 0; len = 5 };
  host_ = record { offset = 8; len = 9 };
  path_ = record { offset = 17; len = 1 };
  query_ = record { offset = 18; len = 0 };
  fragment_ = record { offset = 18; len = 0 };
}

page_parsed : Parsed.parse lexbor page_url ≡ some page
unfolding bytes_eq Parsed.parse Parsed.from_lexbor Parsed.parts Parsed.serialized_length
    Parsed.host_offset
page_parsed = refl

page_host : Parsed.host page ≡ host_of mirror
unfolding Parsed.view host_of aniparse.Catalog.Hosts.before aniparse.Catalog.Hosts.after_scheme
    aniparse.UrlPath.index_of has_prefix
page_host = refl

reader_entry : Elem (reader.identifier, reader) manager.store.snapshot.entries
unfolding make_snapshot
reader_entry = inl refl

reader_mirrors : Elem (reader.identifier, mirror ∷ []) third.mirrors
unfolding third read_data aniparse.Catalog.section_at aniparse.Catalog.read_section
    aniparse.Catalog.read_entry aniparse.Catalog.read_urls aniparse.Catalog.emplace_filled
    aniparse.Catalog.emplace aniparse.Catalog.strings aniparse.Json.object_field
    aniparse.Json.array_field aniparse.Json.if_contains aniparse.Json.if_object
    aniparse.Json.if_array aniparse.Json.if_string aniparse.Prelude.StdMap.find
    aniparse.Prelude.StdMap.insert bytes_eq
reader_mirrors = inl refl

apply_routes_mirrors_example :
    find_for_url lexbor page_url
      (apply nothing pos verify parse (codes "3") (codes "ok") manager).1.store
    ≢ none
apply_routes_mirrors_example =
    apply_routes_mirrors nothing pos verify parse lexbor (codes "3") (codes "ok") manager third
      reader (mirror ∷ []) mirror page_url page third-IsCatalog reader_entry reader_mirrors
      (inl refl) page_parsed page_host refl
