-- ===== src/Republishable/Serving.antt =====
-- What the calls that fetch a snapshot return, however they interleave.
use aniparse.Prelude.{
  ℕ, Bool, true, false, List, [], ◌∷◌, ◌++◌, append-nil, append_assoc, Option, none, some, ◌≡◌,
  refl, sym, ◌⊎◌, inl, inr, Bool-cases, Option-cases, get_elem?, All, All-append, Elem,
  Elem-append_left, Elem-append_right, All-set, All-get, All-weaken,
}
use aniparse.Republishable.{
  Republishable, Response, value, unexpected, Call, fetching, serving, ended, Event, begins, loads,
  fetched, System, create, snapshot, is_fetched, publish, ensure_published, resume, serve, complete,
  act, run,
}

module _ {Error A : Type 0} where
  -- The responses of the fetches, in order.
  unfoldable pub responses : List (Event Error A) → List (Response Error A)
  responses [] = []
  responses (begins or_seed ∷ events) = responses events
  responses (loads i ∷ events) = responses events
  responses (fetched i response ∷ events) = response ∷ responses events

  -- What a call may return: a value that a fetch gave; the seed, if the call falls back on it or a fetch
  -- gave a null snapshot; or the error of a fetch, if the call does not fall back. A call that is about
  -- to load a snapshot finds one unless a fetch gave a null one.
  abbrev pub IsServed : List (Response Error A) → Option A → Republishable A → Call Error A → Type 0
  IsServed seen seed r (fetching or_seed) = Unit
  IsServed seen seed r (serving or_seed) = (is_fetched r ≡ true) ⊎ Elem (value none) seen
  IsServed seen seed r (ended or_seed (value v)) =
      Elem (value v) seen ⊎ ((v ≡ seed) × ((or_seed ≡ true) ⊎ Elem (value none) seen))
  IsServed seen seed r (ended or_seed (unexpected e)) = (or_seed ≡ false) × Elem (unexpected e) seen

  abbrev IsPublished : List (Response Error A) → Option A → Republishable A → Type 0
  IsPublished seen seed r = ((r.cell ≡ none) ⊎ Elem (value r.cell) seen) × (r.seed ≡ seed)

  Elem-or :
      {B : Type 0} (x : Response Error A) (seen more : List (Response Error A))
      → B ⊎ Elem x seen
      → B ⊎ Elem x (seen ++ more)
  Elem-or x seen more (inl h) = inl h
  Elem-or x seen more (inr m) = inr (Elem-append_left x seen more m)

  -- More responses justify no less.
  IsServed-more :
      (seen more : List (Response Error A)) (seed : Option A) (r : Republishable A)
      (call : Call Error A)
      → IsServed seen seed r call
      → IsServed (seen ++ more) seed r call
  IsServed-more seen more seed r (fetching or_seed) h = tt
  IsServed-more seen more seed r (serving or_seed) h = Elem-or (value none) seen more h
  IsServed-more seen more seed r (ended or_seed (value v)) (inl m) =
      inl (Elem-append_left (value v) seen more m)
  IsServed-more seen more seed r (ended or_seed (value v)) (inr h) =
      inr (h.0, Elem-or (value none) seen more h.1)
  IsServed-more seen more seed r (ended or_seed (unexpected e)) h =
      (h.0, Elem-append_left (unexpected e) seen more h.1)

  -- A published value changes nothing for the calls, but that a null one explains a seed.
  filled_or_null :
      (v : Option A) (r : Republishable A) (seen : List (Response Error A))
      → Elem (value v) seen
      → (is_fetched (publish v r) ≡ true) ⊎ Elem (value none) seen
  unfolding is_fetched publish
  filled_or_null none r seen m = inr m
  filled_or_null (some x) r seen m = inl refl

  IsServed-publish :
      (seen : List (Response Error A)) (seed v : Option A) (r : Republishable A)
      (call : Call Error A)
      → Elem (value v) seen
      → IsServed seen seed r call
      → IsServed seen seed (publish v r) call
  IsServed-publish seen seed v r (fetching or_seed) m h = tt
  IsServed-publish seen seed v r (serving or_seed) m h = filled_or_null v r seen m
  IsServed-publish seen seed v r (ended or_seed (value w)) m h = h
  IsServed-publish seen seed v r (ended or_seed (unexpected e)) m h = h

  IsPublished-more :
      (seen more : List (Response Error A)) (seed : Option A) (r : Republishable A)
      → IsPublished seen seed r
      → IsPublished (seen ++ more) seed r
  IsPublished-more seen more seed r (inl cold, s) = (inl cold, s)
  IsPublished-more seen more seed r (inr m, s) =
      (inr (Elem-append_left (value r.cell) seen more m), s)

  snapshot-IsServed :
      (seen : List (Response Error A)) (seed : Option A) (r : Republishable A)
      → IsPublished seen seed r
      → Elem (value (snapshot r)) seen ⊎ ((is_fetched r ≡ false) × (snapshot r ≡ seed))
  unfolding snapshot is_fetched
  snapshot-IsServed seen seed r (published, s) = elim (Option-cases r.cell) [
    | inl cold ↦ inr (rw cold refl, rw cold s)
    | inr (v, warm) ↦ elim published [
      | inl cold ↦ absurd (cc)
      | inr m ↦ inl (rw warm (rw warm at m))
    ]
  ]

  begin-IsServed :
      (seen : List (Response Error A)) (seed : Option A) (or_seed : Bool) (r : Republishable A)
      → IsServed seen seed r (ensure_published or_seed r)
  unfolding ensure_published
  begin-IsServed seen seed or_seed r = elim (Bool-cases (is_fetched r)) [
    | inl warm ↦ rw warm (inl warm)
    | inr cold ↦ rw cold tt
  ]

  load-IsServed :
      (seen : List (Response Error A)) (seed : Option A) (or_seed : Bool) (r : Republishable A)
      → IsPublished seen seed r
      → IsServed seen seed r (serving or_seed)
      → IsServed seen seed r (ended or_seed (value (snapshot r)))
  load-IsServed seen seed or_seed r p h = elim (snapshot-IsServed seen seed r p) [
    | inl m ↦ inl m
    | inr (cold, s) ↦ elim h [ inl warm ↦ absurd (cc) | inr m ↦ inr (s, inr m) ]
  ]

  -- The end of a fetch: the cell, what the call returns, and the other calls.
  resume-IsServed :
      (seen : List (Response Error A)) (seed : Option A) (or_seed : Bool)
      (response : Response Error A) (r : Republishable A)
      → IsPublished seen seed r
      → let after = resume or_seed response r in
        IsPublished (seen ++ (response ∷ [])) seed after.0
        × IsServed (seen ++ (response ∷ [])) seed after.0 (ended or_seed after.1)
        × ((call : Call Error A)
            → IsServed seen seed r call
            → IsServed (seen ++ (response ∷ [])) seed after.0 call)
  unfolding resume
  resume-IsServed seen seed or_seed (value v) r p =
      let last = Elem-append_right (value v) seen (value v ∷ []) (inl refl) in
      (
        unfold publish in (inr last, p.1),
        inl last,
        λ call h.
            IsServed-publish (seen ++ (value v ∷ [])) seed v r call last
              (IsServed-more seen (value v ∷ []) seed r call h),
      )
  resume-IsServed seen seed true (unexpected e) r p = (
    IsPublished-more seen (unexpected e ∷ []) seed r p,
    elim (snapshot-IsServed seen seed r p) [
      | inl m ↦ inl (Elem-append_left (value (snapshot r)) seen (unexpected e ∷ []) m)
      | inr (cold, s) ↦ inr (s, inl refl)
    ],
    IsServed-more seen (unexpected e ∷ []) seed r,
  )
  resume-IsServed seen seed false (unexpected e) r p = (
    IsPublished-more seen (unexpected e ∷ []) seed r p,
    (refl, Elem-append_right (unexpected e) seen (unexpected e ∷ []) (inl refl)),
    IsServed-more seen (unexpected e ∷ []) seed r,
  )

  abbrev IsGood : List (Response Error A) → Option A → System Error A → Type 0
  IsGood seen seed s = IsPublished seen seed s.shared × All (IsServed seen seed s.shared) s.calls

  IsGood-more :
      (seen more : List (Response Error A)) (seed : Option A) (s : System Error A)
      → IsGood seen seed s
      → IsGood (seen ++ more) seed s
  IsGood-more seen more seed s (p, all) = (
    IsPublished-more seen more seed s.shared p,
    All-weaken (IsServed seen seed s.shared) (IsServed (seen ++ more) seed s.shared)
        (IsServed-more seen more seed s.shared) s.calls all,
  )

  complete-IsGood :
      (seen : List (Response Error A)) (seed : Option A) (i : ℕ) (response : Response Error A)
      (call : Option (Call Error A)) (s : System Error A)
      → IsGood seen seed s
      → IsGood (seen ++ (response ∷ [])) seed (complete i response call s)
  unfolding complete
  complete-IsGood seen seed i response (some (fetching or_seed)) s (p, all) =
      let after = resume or_seed response s.shared in
      let seen' = seen ++ (response ∷ []) in
      let (published, served, others) = resume-IsServed seen seed or_seed response s.shared p in
      (
        published,
        All-set (IsServed seen' seed after.0) s.calls i _
            (All-weaken (IsServed seen seed s.shared) (IsServed seen' seed after.0) others s.calls
              all)
            served,
      )
  complete-IsGood seen seed i response (some (serving or_seed)) s g =
      IsGood-more seen (response ∷ []) seed s g
  complete-IsGood seen seed i response (some (ended or_seed result)) s g =
      IsGood-more seen (response ∷ []) seed s g
  complete-IsGood seen seed i response none s g = IsGood-more seen (response ∷ []) seed s g

  serve-IsGood :
      (seen : List (Response Error A)) (seed : Option A) (i : ℕ) (call : Option (Call Error A))
      (s : System Error A)
      → get_elem? s.calls i ≡ call
      → IsGood seen seed s
      → IsGood seen seed (serve i call s)
  unfolding serve
  serve-IsGood seen seed i (some (serving or_seed)) s at (p, all) = (
    p,
    All-set (IsServed seen seed s.shared) s.calls i _ all (
        load-IsServed seen seed or_seed s.shared p
          (All-get (IsServed seen seed s.shared) s.calls i all at)),
  )
  serve-IsGood seen seed i (some (fetching or_seed)) s at g = g
  serve-IsGood seen seed i (some (ended or_seed result)) s at g = g
  serve-IsGood seen seed i none s at g = g

  run-IsGood :
      (seen : List (Response Error A)) (seed : Option A) (events : List (Event Error A))
      (s : System Error A)
      → IsGood seen seed s
      → IsGood (seen ++ responses events) seed (run events s)
  unfolding run act responses
  run-IsGood seen seed [] s g = rw (append-nil seen) g
  run-IsGood seen seed (begins or_seed ∷ events) s g = run-IsGood seen seed events _ (
    g.0,
    All-append (IsServed seen seed s.shared) s.calls (ensure_published or_seed s.shared ∷ []) g.1
        (begin-IsServed seen seed or_seed s.shared, tt),
  )
  run-IsGood seen seed (loads i ∷ events) s g =
      run-IsGood seen seed events _ (serve-IsGood seen seed i (get_elem? s.calls i) s refl g)
  run-IsGood seen seed (fetched i response ∷ events) s g =
      rw (sym (append_assoc seen (response ∷ []) (responses events))) (
        run-IsGood (seen ++ (response ∷ [])) seed events _
          (complete-IsGood seen seed i response (get_elem? s.calls i) s g))

  unfoldable pub cold_system : Option A → System Error A
  cold_system seed = record { shared = create seed; calls = [] }

  -- However calls interleave on a new cell, each that has ended returns a value that some fetch gave;
  -- or the seed, only if it falls back or some fetch gave a null snapshot; or, not falling back, the
  -- error of a fetch. The cell keeps its seed and holds nothing or a value that a fetch gave.
  pub run-IsServed :
      (seed : Option A) (events : List (Event Error A))
      → let s = run events (cold_system seed) in
        All (IsServed (responses events) seed s.shared) s.calls
        × ((s.shared.cell ≡ none) ⊎ Elem (value s.shared.cell) (responses events))
        × (s.shared.seed ≡ seed)
  unfolding create cold_system
  run-IsServed seed events =
      let (p, all) = run-IsGood [] seed events (cold_system seed) ((inl refl, refl), tt) in
      (all, p.0, p.1)
