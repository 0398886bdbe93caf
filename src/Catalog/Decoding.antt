-- ===== src/Catalog/Decoding.antt =====
-- Which payloads decode, and to what.
use aniparse.Prelude.{
  ℕ, ◌^◌, ◌<◌, Bool, true, false, not, Option, none, some, ◌≡◌, refl, ap, sym, ◌∙◌, ◌↔◌, arith, leb,
  Bytes, codes, if◌then◌else◌,
}
use aniparse.Prelude.Int.{ℤ, pos, negsuc}
use aniparse.Prelude.StdMap.{StdMap}
use aniparse.Json.{Json, if_object, is_number, if_contains, integer, to_uint64}
use aniparse.Catalog.Given.{IsRead}
use aniparse.Catalog.Reading.{read_data-IsRead}
use aniparse.Catalog.{
  CatalogData, Expected, value, unexpected, require, is_schema, read_data, read_revision,
  decode_root, decode_catalog, bad_signature, bad_format, unsupported_version, stale_revision,
}

require-value :
    {E A B : Type 0} (e : E) (o : Option A) (next : A → Expected E B) (b : B)
    → require e o next ≡ value b
    → (a : A) × (o ≡ some a) × (next a ≡ value b)
unfolding require
require-value e none next b h = absurd (cc)
require-value e (some a) next b h = (a, refl, h)

if-value :
    {E A : Type 0} (c : Bool) (e : E) (x : Expected E A) (a : A)
    → (if c then unexpected e else x) ≡ value a
    → (c ≡ false) × (x ≡ value a)
if-value true e x a h = absurd cc
if-value false e x a h = (refl, h)

is_schema-pos : (z : ℤ) → is_schema z ≡ true → z ≡ pos 1
unfolding is_schema
is_schema-pos (pos n) h = ap pos (ground (arith, h))
is_schema-pos (negsuc n) h = cc (h)

to_uint64-lt : (z : ℤ) → to_uint64 z < 2 ^ 64
unfolding to_uint64
to_uint64-lt (pos n) = omega arith
to_uint64-lt (negsuc n) = omega arith

module _ {Real : Type 0} (truncated : Real → ℤ) (verify : Bytes → Bytes → Bool)
    (parse : Bytes → Option (Json Real)) where
  -- A verified payload that is an object of the schema with a revision above the last one.
  pub record IsCatalog (payload signature : Bytes) (min_revision : ℕ) (d : CatalogData)
      : Type 0 where
    pub verified : verify payload signature ≡ true
    pub parsed : Json Real
    pub parses : parse payload ≡ some parsed
    pub root : StdMap (Json Real)
    pub is_object : if_object parsed ≡ some root
    pub version : Json Real
    pub has_version : if_contains (codes "schema_version") root ≡ some version
    pub version_number : is_number version ≡ true
    pub is_version : integer truncated root (codes "schema_version") ≡ pos 1
    pub revision : Json Real
    pub has_revision : if_contains (codes "revision") root ≡ some revision
    pub revision_number : is_number revision ≡ true
    pub newer : min_revision < to_uint64 (integer truncated root (codes "revision"))
    pub reads : d ≡ read_data (to_uint64 (integer truncated root (codes "revision"))) root

  decode_catalog_sound :
      (payload signature : Bytes) (min_revision : ℕ) (d : CatalogData)
      → decode_catalog truncated verify parse payload signature min_revision ≡ value d
      → IsCatalog payload signature min_revision d
  unfolding decode_catalog decode_root read_revision
  decode_catalog_sound payload signature min_revision d h =
      let (verified, h1) = if-value (not (verify payload signature)) bad_signature _ d h in
      let (parsed, parses, h2) = require-value bad_format (parse payload) _ d h1 in
      let (root, is_object, h3) = require-value bad_format (if_object parsed) _ d h2 in
      let (version, has_version, h4) =
        require-value bad_format (if_contains (codes "schema_version") root) _ d h3 in
      let (version_number, h5) = if-value (not (is_number version)) bad_format _ d h4 in
      let (is_version, h6) =
        if-value (not (is_schema (integer truncated root (codes "schema_version"))))
          unsupported_version _ d h5 in
      let (revision, has_revision, h7) =
        require-value bad_format (if_contains (codes "revision") root) _ d h6 in
      let (revision_number, h8) = if-value (not (is_number revision)) bad_format _ d h7 in
      let (newer, reads) =
        if-value (leb (to_uint64 (integer truncated root (codes "revision"))) min_revision)
          stale_revision _ d h8 in
      record {
        verified = ground arith;
        parsed = parsed;
        parses = parses;
        root = root;
        is_object = is_object;
        version = version;
        has_version = has_version;
        version_number = ground arith;
        is_version = is_schema-pos _ (ground arith);
        revision = revision;
        has_revision = has_revision;
        revision_number = ground arith;
        newer = ground arith;
        reads = ground arith;
      }

  decode_catalog_complete :
      (payload signature : Bytes) (min_revision : ℕ) (d : CatalogData)
      → IsCatalog payload signature min_revision d
      → decode_catalog truncated verify parse payload signature min_revision ≡ value d
  unfolding decode_catalog decode_root read_revision require
  decode_catalog_complete payload signature min_revision d c =
      let fresh : leb (to_uint64 (integer truncated c.root (codes "revision"))) min_revision
          ≡ false =
        ground (arith, c.newer) in
      let schema : is_schema (integer truncated c.root (codes "schema_version")) ≡ true =
        ap is_schema c.is_version ∙ unfold is_schema in refl in
      rw (c.verified, c.parses)
        (rw c.is_object (
          rw c.has_version (
            rw (c.version_number, schema, c.has_revision)
              (rw (c.revision_number, fresh) (ap value (sym c.reads))))))

  -- A payload decodes to some data exactly when it is a catalog of them: verified first, of schema 1,
  -- with a revision above the last applied one. The maps of the data then hold, under every
  -- identifier, what the JSON gives for it in the section and under the key of the map.
  pub decode_catalog_iff :
      (payload signature : Bytes) (min_revision : ℕ) (d : CatalogData)
      → ((decode_catalog truncated verify parse payload signature min_revision ≡ value d)
          ↔ IsCatalog payload signature min_revision d)
        × ((c : IsCatalog payload signature min_revision d)
            → IsRead c.root d
              × (d.revision ≡ to_uint64 (integer truncated c.root (codes "revision"))))
  decode_catalog_iff payload signature min_revision d = (
    (
      decode_catalog_sound payload signature min_revision d,
      decode_catalog_complete payload signature min_revision d,
    ),
    λ c. (
      rw c.reads (read_data-IsRead _ c.root),
      ap (λ e. e.revision) c.reads ∙ unfold read_data in refl,
    ),
  )

  pub IsCatalog-revision :
      (payload signature : Bytes) (min_revision : ℕ) (d : CatalogData)
      → IsCatalog payload signature min_revision d
      → (min_revision < d.revision) × (d.revision < 2 ^ 64)
  unfolding read_data
  IsCatalog-revision payload signature min_revision d c =
      let revision : d.revision ≡ to_uint64 (integer truncated c.root (codes "revision")) =
        ap (λ e. e.revision) c.reads in
      let below = to_uint64-lt (integer truncated c.root (codes "revision")) in
      (omega (arith, revision, c.newer), omega (arith, revision, below))
