-- ===== src/ResourceCache/Tests.antt =====
-- Two threads that miss the same resource.
use aniparse.Prelude.{ℕ, List, [], ◌∷◌, ◌≡◌, refl, inl, all_of, Elem}
use aniparse.ResourceCache.{
  Event, look_up, store, evict, results, section, find, try_emplace, emplaced,
}
use aniparse.ResourceCache.Agreement.{results_agree}

-- Both look up and build; the second also evicts another resource before it stores.
abbrev race : List (Event ℕ)
race = look_up 7 ∷ look_up 7 ∷ store 7 100 ∷ evict 8 ∷ store 7 200 ∷ look_up 7 ∷ []

race_results : results race [] ≡ (7, 100) ∷ (7, 100) ∷ (7, 100) ∷ []
unfolding results section find try_emplace emplaced aniparse.ResourceCache.erase
race_results = refl

race_first : Elem (7, 100) (results race [])
race_first = rw race_results (inl refl)

results_agree_example : ◌≡◌ {A = ℕ} 100 100
results_agree_example =
    results_agree 7 race [] 100 100 (unfold all_of in refl) race_first race_first
