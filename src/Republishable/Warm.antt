-- ===== src/Republishable/Warm.antt =====
-- A cell that holds a snapshot: no call fetches for it.
use aniparse.Prelude.{
  ℕ, zero, suc, ◌+◌, ◌≤◌, Bool, true, false, List, [], ◌∷◌, ◌++◌, Option, none, some, ◌≡◌, ap,
  arith, all_of, is_some, get_elem?, set,
}
use aniparse.Republishable.{
  Response, value, unexpected, Call, fetching, serving, ended, Event, begins, loads, fetched,
  System, snapshot, is_fetched, publish, ensure_published, resume, serve, complete, act, run,
}

module _ {Error A : Type 0} where
  -- A fetch that fails or gives a snapshot that is not null.
  unfoldable pub is_useful : Event Error A → Bool
  is_useful (begins or_seed) = true
  is_useful (loads i) = true
  is_useful (fetched i (value v)) = is_some v
  is_useful (fetched i (unexpected e)) = true

  unfoldable pub is_fetching : Call Error A → ℕ
  is_fetching (fetching or_seed) = 1
  is_fetching (serving or_seed) = 0
  is_fetching (ended or_seed result) = 0

  -- How many calls wait for their fetch.
  unfoldable pub count_fetching : List (Call Error A) → ℕ
  count_fetching [] = 0
  count_fetching (call ∷ calls) = is_fetching call + count_fetching calls

  count_fetching-serving :
      (calls : List (Call Error A)) (or_seed : Bool)
      → count_fetching (calls ++ (serving or_seed ∷ [])) ≡ count_fetching calls
  unfolding count_fetching is_fetching
  count_fetching-serving [] or_seed = omega arith
  count_fetching-serving (call ∷ calls) or_seed =
      ap (λ n. is_fetching call + n) (count_fetching-serving calls or_seed)

  count_fetching-set :
      (calls : List (Call Error A)) (i : ℕ) (or_seed : Bool) (result : Response Error A)
      → count_fetching (set calls i (ended or_seed result)) ≤ count_fetching calls
  unfolding count_fetching is_fetching
  count_fetching-set [] i or_seed result = omega arith
  count_fetching-set (call ∷ calls) zero or_seed result = omega arith
  count_fetching-set (call ∷ calls) (suc i) or_seed result =
      omega (arith, count_fetching-set calls i or_seed result)

  complete_warm :
      (i : ℕ) (response : Response Error A) (call : Option (Call Error A)) (s : System Error A)
      → is_fetched s.shared ≡ true
      → is_useful (fetched i response) ≡ true
      → (is_fetched (complete i response call s).shared ≡ true)
        × (count_fetching (complete i response call s).calls ≤ count_fetching s.calls)
  unfolding complete resume publish is_fetched is_useful
  complete_warm i (value v) (some (fetching or_seed)) s warm useful =
      (useful, count_fetching-set s.calls i or_seed (value v))
  complete_warm i (unexpected e) (some (fetching true)) s warm useful =
      (warm, count_fetching-set s.calls i true (value (snapshot s.shared)))
  complete_warm i (unexpected e) (some (fetching false)) s warm useful =
      (warm, count_fetching-set s.calls i false (unexpected e))
  complete_warm i response (some (serving or_seed)) s warm useful = (warm, omega arith)
  complete_warm i response (some (ended or_seed result)) s warm useful = (warm, omega arith)
  complete_warm i response none s warm useful = (warm, omega arith)

  serve_warm :
      (i : ℕ) (call : Option (Call Error A)) (s : System Error A)
      → is_fetched s.shared ≡ true
      → (is_fetched (serve i call s).shared ≡ true)
        × (count_fetching (serve i call s).calls ≤ count_fetching s.calls)
  unfolding serve
  serve_warm i (some (serving or_seed)) s warm =
      (warm, count_fetching-set s.calls i or_seed (value (snapshot s.shared)))
  serve_warm i (some (fetching or_seed)) s warm = (warm, omega arith)
  serve_warm i (some (ended or_seed result)) s warm = (warm, omega arith)
  serve_warm i none s warm = (warm, omega arith)

  begin_warm :
      (or_seed : Bool) (s : System Error A)
      → is_fetched s.shared ≡ true
      → count_fetching (s.calls ++ (ensure_published or_seed s.shared ∷ []))
        ≡ count_fetching s.calls
  unfolding ensure_published
  begin_warm or_seed s warm = rw warm (count_fetching-serving s.calls or_seed)

  -- Once a snapshot is published, the cell keeps one and no call fetches that did not before, as long
  -- as no fetch gives a null snapshot: calls that begin need no fetch, failures change nothing.
  pub run_warm :
      (events : List (Event Error A)) (s : System Error A)
      → is_fetched s.shared ≡ true
      → all_of is_useful events ≡ true
      → (is_fetched (run events s).shared ≡ true)
        × (count_fetching (run events s).calls ≤ count_fetching s.calls)
  unfolding run act all_of
  run_warm [] s warm useful = (warm, omega arith)
  run_warm (begins or_seed ∷ events) s warm useful =
      let after = act (begins or_seed) s in
      let (still, count) = run_warm events after warm (ground (arith, useful)) in
      (still, omega (arith, count, begin_warm or_seed s warm))
  run_warm (loads i ∷ events) s warm useful =
      let (warm', below) = serve_warm i (get_elem? s.calls i) s warm in
      let (still, count) = run_warm events (act (loads i) s) warm' (ground (arith, useful)) in
      (still, omega (arith, count, below))
  run_warm (fetched i response ∷ events) s warm useful =
      let (warm', below) =
        complete_warm i response (get_elem? s.calls i) s warm (ground (arith, useful)) in
      let (still, count) =
        run_warm events (act (fetched i response) s) warm' (ground (arith, useful)) in
      (still, omega (arith, count, below))
