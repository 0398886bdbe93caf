-- ===== src/Domains/Scanner/Matches.antt =====
-- What a longest match returns.
use aniparse.Prelude.{
  Bool, List, [], ◌∷◌, ◌++◌, none, some, ◌≡◌, refl, ap, ◌≢◌, inl, inr, arith, Bytes, find_if,
  Option-cases,
}
use aniparse.Domains.Scanner.Search.{longest_match}

-- The entry that a longest match returns stands first under some prefix, and nothing is accepted
-- under a longer one.
pub record Matches {P : Type 0} (pred : P → Bool) (at : List Bytes → List P) (ls : List Bytes)
    (p : P) : Type 0 where
  pub prefix : List Bytes
  pub rest : List Bytes
  pub splits : ls ≡ prefix ++ rest
  pub first : find_if pred (at prefix) ≡ some p
  pub longest :
      (more after : List Bytes)
      → rest ≡ more ++ after
      → more ≢ []
      → find_if pred (at (prefix ++ more)) ≡ none

module _ {P : Type 0} (pred : P → Bool) where
  longest_match-none :
      (at : List Bytes → List P) (more after : List Bytes)
      → longest_match pred at (more ++ after) ≡ none
      → find_if pred (at more) ≡ none
  unfolding longest_match
  longest_match-none at [] [] h = h
  longest_match-none at [] (l ∷ ls) h = ground arith
  longest_match-none at (l ∷ more) after h =
      longest_match-none (λ ks. at (l ∷ ks)) more after (ground arith)

  Matches-root :
      (at : List Bytes → List P) (ls : List Bytes) {p : P}
      → find_if pred (at []) ≡ some p
      → ((more after : List Bytes) → ls ≡ more ++ after → more ≢ [] → find_if pred (at more) ≡ none)
      → Matches pred at ls p
  Matches-root at ls here none_longer = record {
    prefix = [];
    rest = ls;
    splits = refl;
    first = here;
    longest = none_longer;
  }

  Matches-cons :
      (at : List Bytes → List P) (l : Bytes) (ls : List Bytes) {p : P}
      → Matches pred (λ ks. at (l ∷ ks)) ls p
      → Matches pred at (l ∷ ls) p
  Matches-cons at l ls m = record {
    prefix = l ∷ m.prefix;
    rest = m.rest;
    splits = ap (◌∷◌ l) m.splits;
    first = m.first;
    longest = m.longest;
  }

  below_none :
      (at : List Bytes → List P) (l : Bytes) (ls more after : List Bytes)
      → longest_match pred (λ ks. at (l ∷ ks)) ls ≡ none
      → l ∷ ls ≡ more ++ after
      → more ≢ []
      → find_if pred (at more) ≡ none
  below_none at l ls [] after h e ne = absurd (ne refl)
  below_none at l ls (k ∷ more) after h e ne =
      let same : l ≡ k = cc in
      let tail : ls ≡ more ++ after = cc in
      rw (← same) (longest_match-none (λ ks. at (l ∷ ks)) more after (rw tail at h))

  nil_splits :
      (at : List Bytes → List P) (more after : List Bytes)
      → [] ≡ more ++ after
      → more ≢ []
      → find_if pred (at more) ≡ none
  nil_splits at [] after e ne = absurd (ne refl)
  nil_splits at (l ∷ more) after e ne = cc

  pub longest_match-Matches :
      (at : List Bytes → List P) (ls : List Bytes) {p : P}
      → longest_match pred at ls ≡ some p
      → Matches pred at ls p
  unfolding longest_match
  longest_match-Matches at [] h = Matches-root at [] h (nil_splits at)
  longest_match-Matches at (l ∷ ls) h =
      elim (Option-cases (longest_match pred (λ ks. at (l ∷ ks)) ls)) [
        | inl empty ↦
            Matches-root at (l ∷ ls) (ground arith)
              (λ more after. below_none at l ls more after empty)
        | inr (q, found) ↦
            Matches-cons at l ls (longest_match-Matches (λ ks. at (l ∷ ks)) ls (ground arith))
      ]

  -- With an accepted entry under some prefix, the match finds one.
  pub longest_match-ne-none :
      (at : List Bytes → List P) (prefix rest : List Bytes)
      → find_if pred (at prefix) ≢ none
      → longest_match pred at (prefix ++ rest) ≢ none
  longest_match-ne-none at prefix rest h e = h (longest_match-none at prefix rest e)
