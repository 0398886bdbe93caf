-- ===== src/ResourceCache/Agreement.antt =====
-- Calls of `get` agree on a resource while it is neither evicted nor cleared.
use aniparse.Prelude.{
  ℕ, Bool, true, false, not, ◌&&◌, List, [], ◌∷◌, Option, none, some, ◌≡◌, refl, ap, sym, ◌∙◌, ◌⊎◌,
  inl, inr, arith, ◌==◌, ==_iff, all_of, Option-cases, Elem, >>=-eq-some,
}
use mathlib.Core.Path.{subst}
use aniparse.ResourceCache.{
  Resources, Event, look_up, store, evict, clear, find, emplaced, try_emplace, erase, section, log,
  results,
}

both : (s t : Bool) → (s && t) ≡ true → (s ≡ true) × (t ≡ true)
both true t h = (refl, h)
both false t h = absurd cc

module _ {V : Type 0} (key : ℕ) where
  -- The event does not take the resource of the key away.
  abbrev pub keeps : Event V → Bool
  keeps (look_up k) = true
  keeps (store k built) = true
  keeps (evict k) = not (k == key)
  keeps clear = false

  find-erase : (k : ℕ) (m : Resources V) → (k == key) ≡ false → find key (erase k m) ≡ find key m
  unfolding find erase
  find-erase k [] h = refl
  find-erase k ((j, v) ∷ m) h = ground (arith, find-erase k m h)

  same_result :
      (k : ℕ) (v a : V)
      → ◌≡◌ {A = Option (ℕ × V)} (some (k, v)) (some (key, a))
      → (k ≡ key) × (v ≡ a)
  same_result k v a h = (cc, cc)

  section-keeps :
      (event : Event V) (m : Resources V) (v : V)
      → keeps event ≡ true
      → find key m ≡ some v
      → find key (section event m).1 ≡ some v
  unfolding section try_emplace emplaced find
  section-keeps (look_up k) m v h e = e
  section-keeps (store k built) m v h e = elim (Option-cases (find k m)) [
    | inl absent ↦ rw absent (ground (arith, ==_iff k key))
    | inr (w, present) ↦ rw present e
  ]
  section-keeps (evict k) m v h e = find-erase k m (ground arith) ∙ e
  section-keeps clear m v h e = cc

  section-gives :
      (event : Event V) (m : Resources V) (a : V)
      → (section event m).0 ≡ some (key, a)
      → find key (section event m).1 ≡ some a
  unfolding section try_emplace emplaced find
  section-gives (look_up k) m a h =
      let (v, present, result) = >>=-eq-some (find k m) _ h in
      let (same, is_a) = same_result k v a result in
      subst (λ j. find j m ≡ some a) same (present ∙ ap some is_a)
  section-gives (store k built) m a h = elim (Option-cases (find k m)) [
    | inl absent ↦
        let (same, is_a) = same_result k built a (rw absent at h) in
        rw (absent, (==_iff k key).1 same) (ap some is_a)
    | inr (w, present) ↦
        let (same, is_a) = same_result k w a (rw present at h) in
        rw present (subst (λ j. find j m ≡ some a) same (present ∙ ap some is_a))
  ]
  section-gives (evict k) m a h = cc
  section-gives clear m a h = cc

  some-same : {o : Option V} {a b : V} → o ≡ some a → o ≡ some b → a ≡ b
  some-same h k = cc

  Elem-log :
      (r : Option (ℕ × V)) (later : List (ℕ × V)) (a : V)
      → Elem (key, a) (log r later)
      → (r ≡ some (key, a)) ⊎ Elem (key, a) later
  Elem-log none later a found = inr found
  Elem-log (some r) later a (inl e) = inl (ap some (sym e))
  Elem-log (some r) later a (inr found) = inr found

  -- A result for the key is what is stored under it.
  stored-agrees :
      (events : List (Event V)) (m : Resources V) (v a : V)
      → all_of keeps events ≡ true
      → find key m ≡ some v
      → Elem (key, a) (results events m)
      → a ≡ v
  unfolding results all_of
  stored-agrees [] m v a h e found = elim found [ ]
  stored-agrees (event ∷ events) m v a h e found =
      let (kept, rest) = both (keeps event) (all_of keeps events) h in
      let after = section-keeps event m v kept e in
      elim (Elem-log (section event m).0 (results events (section event m).1) a found) [
        | inl here ↦ some-same (section-gives event m a here) after
        | inr later ↦ stored-agrees events (section event m).1 v a rest after later
      ]

  -- Whatever calls of many threads run in whatever order, two results of `get` for one key, with
  -- no eviction of the key and no clearing among the events, are the same resource.
  pub results_agree :
      (events : List (Event V)) (m : Resources V) (a b : V)
      → all_of keeps events ≡ true
      → Elem (key, a) (results events m)
      → Elem (key, b) (results events m)
      → a ≡ b
  unfolding results all_of
  results_agree [] m a b h found found' = elim found [ ]
  results_agree (event ∷ events) m a b h found found' =
      let (kept, rest) = both (keeps event) (all_of keeps events) h in
      let m' = (section event m).1 in
      elim (Elem-log (section event m).0 (results events m') a found) [
        | inl here ↦
            let stored = section-gives event m a here in
            elim (Elem-log (section event m).0 (results events m') b found') [
              | inl here' ↦ some-same stored (section-gives event m b here')
              | inr later' ↦ sym (stored-agrees events m' a b rest stored later')
            ]
        | inr later ↦ elim (Elem-log (section event m).0 (results events m') b found') [
          | inl here' ↦ stored-agrees events m' b a rest (section-gives event m b here') later
          | inr later' ↦ results_agree events m' a b rest later later'
        ]
      ]
