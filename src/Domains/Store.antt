-- ===== src/Domains/Store.antt =====
-- `DomainStore`: readers load one immutable snapshot, a writer drafts an `Edit` and commits it with
-- one swap. A snapshot's pointer is the number of the commit that made it: a draft keeps its base
-- alive, so that no later snapshot has the same address. What the domain emitter passes to
-- `add_domain` for a value is the parameter `emitter`.
pub mod Routes
pub mod Lookup
pub mod Schedule
pub mod Serial
use aniparse.Prelude.StdMap
use aniparse.Prelude.StdMap.{StdMap}
use aniparse.Prelude.{
  ℕ, ◌+◌, Bool, true, false, not, List, [], ◌∷◌, map, Option, none, some, ◌==◌, Bytes,
  if◌then◌else◌,
}
use aniparse.Domains.Labels.{split_domains}
use aniparse.Domains.Scanner.{Node, empty, add_domain_parser, search_all}

abbrev pub DomainOverrides : Type 0
DomainOverrides = StdMap (List Bytes)

pub record Snapshot (V : Type 0) : Type 0 where
  pub entries : StdMap V
  pub volatile_domains : DomainOverrides
  pub scanner : Node V

-- The store, with the identity of the snapshot that `snapshot_` points to.
pub record Store (V : Type 0) : Type 0 where
  pub live : ℕ
  pub snapshot : Snapshot V

-- A draft; `attached` when `store_` is not null, and `base` the identity of its base.
pub record Edit (V : Type 0) : Type 0 where
  pub attached : Bool
  pub base : ℕ
  pub entries : StdMap V
  pub volatile_domains : DomainOverrides

pub data CommitResult : Type 0 where
  committed stale already_committed : CommitResult

-- `volatile_domains.find(identifier)`, no domains when it is absent
unfoldable pub overrides_of : Bytes → DomainOverrides → List Bytes
overrides_of identifier vol = elim (StdMap.find identifier vol) [ none ↦ [] | some ds ↦ ds ]

module _ {V : Type 0} where
  -- One value under each of a list of domains.
  unfoldable pub add_domains : List Bytes → V → Node V → Node V
  add_domains [] v scanner = scanner
  add_domains (d ∷ ds) v scanner = add_domains ds v (add_domain_parser (split_domains d) v scanner)

module _ {V : Type 0} (emitter : V → List Bytes) where
  -- The loop of `make_snapshot` over the entries.
  unfoldable pub scan_entries : StdMap V → DomainOverrides → Node V → Node V
  scan_entries [] vol scanner = scanner
  scan_entries ((identifier, v) ∷ es) vol scanner =
      scan_entries es vol
        (add_domains (overrides_of identifier vol) v (add_domains (emitter v) v scanner))

  unfoldable pub make_snapshot : StdMap V → DomainOverrides → Snapshot V
  make_snapshot es vol = record {
    entries = es;
    volatile_domains = vol;
    scanner = scan_entries es vol empty;
  }

  -- The constructor.
  unfoldable pub make_store : Store V
  make_store = record { live = 0; snapshot = make_snapshot [] [] }

  -- What `DomainStore::commit` makes of the store, from the identity of the draft's base.
  unfoldable pub publish : ℕ → StdMap V → DomainOverrides → Store V → CommitResult × Store V
  publish base es vol s =
      if s.live == base
      then (committed, record { live = s.live + 1; snapshot = make_snapshot es vol })
      else (stale, s)

  -- `Edit::commit`. Its maps are moved into the call, whose failure is an exception; only a
  -- success detaches the draft.
  unfoldable pub commit : Edit V → Store V → CommitResult × Edit V × Store V
  commit e s =
      if not e.attached
      then (already_committed, e, s)
      else (let (result, s') = publish e.base e.entries e.volatile_domains s in
          (
            result,
            record e {
              attached = (elim result [ committed ↦ false | _ ↦ true ]);
              entries = [];
              volatile_domains = [];
            },
            s',
          ))

module _ {V : Type 0} where
  unfoldable pub begin_edit : Store V → Edit V
  begin_edit s = record {
    attached = true;
    base = s.live;
    entries = s.snapshot.entries;
    volatile_domains = s.snapshot.volatile_domains;
  }

  -- `Edit::add`: null when the identifier is taken.
  unfoldable pub add : Bytes → V → Edit V → Option V × Edit V
  add identifier v e =
      if StdMap.contains identifier e.entries
      then (none, e)
      else (some v, record e { entries = StdMap.insert identifier v e.entries })

  unfoldable pub remove : Bytes → Edit V → Bool × Edit V
  remove identifier e =
      if StdMap.contains identifier e.entries
      then (true, record e { entries = StdMap.erase identifier e.entries })
      else (false, e)

  unfoldable pub set_volatile_domains : DomainOverrides → Edit V → Edit V
  set_volatile_domains vol e = record e { volatile_domains = vol }

  unfoldable pub contains : Bytes → Store V → Bool
  contains identifier s = StdMap.contains identifier s.snapshot.entries

  unfoldable pub find_by_key : Bytes → Store V → Option V
  find_by_key identifier s = StdMap.find identifier s.snapshot.entries

  unfoldable pub values : Store V → List V
  values s = map (λ e. e.1) s.snapshot.entries

  unfoldable pub find_by_host : (V → Bool) → Bytes → Store V → Option V
  find_by_host accepts host s = search_all accepts (split_domains host) s.snapshot.scanner
