-- ===== src/Republishable.antt =====
-- include/aniparse/cache/Republishable.hpp and EnsurePublished.hpp: a cell that serves a seed until a
-- snapshot is published, and the calls that fetch one. A pointer that may be null is an `Option`. The
-- cell's loads and stores are single steps: a call that finds a snapshot loads it in a step of its own,
-- one that does not waits for the end of its fetch, and other calls may run in between. What a fetch
-- returns is part of the schedule.

pub mod Serving
pub mod Warm
mod Tests
use aniparse.Prelude.{
  ℕ, Bool, true, false, List, [], ◌∷◌, ◌++◌, Option, none, some, or_else, is_some, if◌then◌else◌,
  get_elem?, set,
}

pub record Republishable {ℓ} (A : Type ℓ) : Type ℓ where
  pub seed : Option A
  pub cell : Option A

pub data Response {ℓ κ} (Error : Type ℓ) (A : Type κ) : Type (ℓ ⊔ κ) where
  value : Option A → Response Error A
  unexpected : Error → Response Error A

-- A call of ensure_published_or_seed (`true`) or of ensure_published: at its fetch, before the load of a
-- snapshot that it found, or ended.
pub data Call {ℓ κ} (Error : Type ℓ) (A : Type κ) : Type (ℓ ⊔ κ) where
  fetching serving : Bool → Call Error A
  ended : Bool → Response Error A → Call Error A

pub data Event {ℓ κ} (Error : Type ℓ) (A : Type κ) : Type (ℓ ⊔ κ) where
  begins : Bool → Event Error A
  loads : ℕ → Event Error A
  fetched : ℕ → Response Error A → Event Error A

pub record System {ℓ κ} (Error : Type ℓ) (A : Type κ) : Type (ℓ ⊔ κ) where
  pub shared : Republishable A
  pub calls : List (Call Error A)

module _ {ℓ} {A : Type ℓ} where
  unfoldable pub create : Option A → Republishable A
  create seed = record { seed = seed; cell = none }

  unfoldable pub snapshot : Republishable A → Option A
  snapshot r = or_else r.cell r.seed

  unfoldable pub is_fetched : Republishable A → Bool
  is_fetched r = is_some r.cell

  unfoldable pub publish : Option A → Republishable A → Republishable A
  publish v r = record { seed = r.seed; cell = v }

module _ {ℓ κ} {Error : Type ℓ} {A : Type κ} where
  -- The test of the cell.
  unfoldable pub ensure_published : Bool → Republishable A → Call Error A
  ensure_published or_seed r = if is_fetched r then serving or_seed else fetching or_seed

  -- From the end of the fetch on: the cell, and what the call returns.
  unfoldable pub resume :
      Bool → Response Error A → Republishable A → Republishable A × Response Error A
  resume or_seed (value v) r = (publish v r, value v)
  resume true (unexpected e) r = (r, value (snapshot r))
  resume false (unexpected e) r = (r, unexpected e)

  -- The load after the test.
  unfoldable pub serve : ℕ → Option (Call Error A) → System Error A → System Error A
  serve i (some (serving or_seed)) s = record {
    shared = s.shared;
    calls = set s.calls i (ended or_seed (value (snapshot s.shared)));
  }
  serve i (some (fetching or_seed)) s = s
  serve i (some (ended or_seed result)) s = s
  serve i none s = s

  unfoldable pub complete :
      ℕ → Response Error A → Option (Call Error A) → System Error A → System Error A
  complete i response (some (fetching or_seed)) s =
      let (shared, result) = resume or_seed response s.shared in
      record { shared = shared; calls = set s.calls i (ended or_seed result) }
  complete i response (some (serving or_seed)) s = s
  complete i response (some (ended or_seed result)) s = s
  complete i response none s = s

  unfoldable pub act : Event Error A → System Error A → System Error A
  act (begins or_seed) s = record {
    shared = s.shared;
    calls = s.calls ++ (ensure_published or_seed s.shared ∷ []);
  }
  act (loads i) s = serve i (get_elem? s.calls i) s
  act (fetched i response) s = complete i response (get_elem? s.calls i) s

  -- Any interleaving of calls.
  unfoldable pub run : List (Event Error A) → System Error A → System Error A
  run [] s = s
  run (e ∷ events) s = run events (act e s)
