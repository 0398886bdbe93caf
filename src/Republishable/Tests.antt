-- ===== src/Republishable/Tests.antt =====
-- Two calls that race for a cold cell, the second of which fails and falls back.
use aniparse.Prelude.{
  ℕ, ◌≤◌, true, false, List, [], ◌∷◌, none, some, ◌≡◌, refl, ◌⊎◌, all_of, All, Elem, String,
}
use aniparse.Republishable.{
  value, unexpected, fetching, ended, Event, begins, loads, fetched, System, create, snapshot,
  is_fetched, publish, ensure_published, resume, serve, complete, act, run,
}
use aniparse.Republishable.Serving.{responses, IsServed, cold_system, run-IsServed}
use aniparse.Republishable.Warm.{is_useful, count_fetching, run_warm}

abbrev race : List (Event String ℕ)
race =
    begins true
    ∷ begins false
    ∷ fetched 0 (unexpected "timeout")
    ∷ fetched 1 (value (some 7))
    ∷ begins false
    ∷ loads 2
    ∷ []

race_calls :
    (run race (cold_system (some 3))).calls
    ≡ ended true (value (some 3)) ∷ ended false (value (some 7)) ∷ ended false (value (some 7)) ∷ []
unfolding run act serve complete resume ensure_published snapshot is_fetched publish create
    cold_system
race_calls = refl

run-IsServed_example :
    let s = run race (cold_system (some 3)) in
    All (IsServed (responses race) (some 3) s.shared) s.calls
    × ((s.shared.cell ≡ none) ⊎ Elem (value s.shared.cell) (responses race))
    × (s.shared.seed ≡ some 3)
run-IsServed_example = run-IsServed (some 3) race

abbrev warm : System String ℕ
warm = record { shared = record { seed = none; cell = some 7 }; calls = fetching false ∷ [] }

run_warm_example :
    (is_fetched (run race warm).shared ≡ true)
    × (count_fetching (run race warm).calls ≤ count_fetching warm.calls)
run_warm_example = run_warm race warm (unfold is_fetched in refl) (unfold all_of is_useful in refl)
