-- ===== src/ResourceCache.antt =====
-- `ResourceCache` (include/aniparse/cache/ResourceCache.hpp). A key is the number of a resource
-- type. Each section under the lock is one event, so that calls of `get` by many threads are any
-- sequence of events: a call looks up, and after a miss builds outside the lock and stores.
pub mod Agreement
mod Tests
use aniparse.Prelude.{ℕ, List, [], ◌∷◌, Option, none, some, ◌==◌, if◌then◌else◌, ◌>>=◌, ◌>>◌}

-- `resources_`, by key.
abbrev pub Resources : Type 0 → Type 0
Resources V = List (ℕ × V)

pub data Event (V : Type 0) : Type 0 where
  look_up : ℕ → Event V
  store : ℕ → V → Event V
  evict : ℕ → Event V
  clear : Event V

module _ {V : Type 0} where
  unfoldable pub find : ℕ → Resources V → Option V
  find key [] = none
  find key ((k, v) ∷ resources) = if k == key then some v else find key resources

  unfoldable pub emplaced : ℕ → V → Resources V → Option V → V × Resources V
  emplaced key built resources none = (built, (key, built) ∷ resources)
  emplaced key built resources (some winner) = (winner, resources)

  -- `resources_.try_emplace(key, built)`: what is stored already wins.
  unfoldable pub try_emplace : ℕ → V → Resources V → V × Resources V
  try_emplace key built resources = emplaced key built resources (find key resources)

  unfoldable pub erase : ℕ → Resources V → Resources V
  erase key [] = []
  erase key ((k, v) ∷ resources) =
      let rest = erase key resources in if k == key then rest else (k, v) ∷ rest

  -- What a section gives a caller of `get`, if anything, and what it leaves.
  unfoldable pub section : Event V → Resources V → Option (ℕ × V) × Resources V
  section (look_up key) resources = (do v ← find key resources; some (key, v), resources)
  section (store key built) resources =
      let (winner, resources') = try_emplace key built resources in (some (key, winner), resources')
  section (evict key) resources = (none, erase key resources)
  section clear resources = (none, [])

  -- One call of `get` alone: what is built is stored after a miss only.
  unfoldable pub hit_or_store : ℕ → V → Resources V → Option V → V × Resources V
  hit_or_store key built resources none = try_emplace key built resources
  hit_or_store key built resources (some v) = (v, resources)

  unfoldable pub get : ℕ → V → Resources V → V × Resources V
  get key built resources = hit_or_store key built resources (find key resources)

  abbrev pub log : Option (ℕ × V) → List (ℕ × V) → List (ℕ × V)
  log none later = later
  log (some r) later = r ∷ later

  -- The results of a sequence of events, each with its key.
  unfoldable pub results : List (Event V) → Resources V → List (ℕ × V)
  results [] resources = []
  results (event ∷ events) resources =
      log (section event resources).0 (results events (section event resources).1)
