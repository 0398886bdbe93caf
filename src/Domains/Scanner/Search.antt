-- ===== src/Domains/Scanner/Search.antt =====
-- The searches of the trie against the multimap that it stands for.
use aniparse.Prelude.{
  Bool, List, [], ◌∷◌, Option, none, some, ◌≡◌, refl, ap, ◌∙◌, inl, inr, arith, Bytes, find_if,
  or_else, Option-cases,
}
use aniparse.Domains.Scanner.{
  Node, parsers, children, find_child, find_node, find_parser_by_pred, search, find_deepest_node,
  search_up, search_all,
}
use aniparse.Domains.Scanner.Registered.{registered}

-- The first accepted entry under the longest prefix of the path that has one.
unfoldable pub longest_match :
    {P : Type 0} → (P → Bool) → (List Bytes → List P) → List Bytes → Option P
longest_match pred at [] = find_if pred (at [])
longest_match pred at (l ∷ ls) =
    or_else (longest_match pred (λ ks. at (l ∷ ks)) ls) (find_if pred (at []))

module _ {P : Type 0} where
  longest_match_nothing :
      (pred : P → Bool) (ls : List Bytes) → longest_match pred (λ ks. []) ls ≡ none
  unfolding longest_match find_if
  longest_match_nothing pred [] = refl
  longest_match_nothing pred (l ∷ ls) = rw (longest_match_nothing pred ls)

  or_else_assoc : (a b c : Option P) → or_else a (or_else b c) ≡ or_else (or_else a b) c
  or_else_assoc none b c = refl
  or_else_assoc (some a) b c = refl

  registered-root : (n : Node P) → parsers n ≡ registered n []
  unfolding registered
  registered-root n = refl

  below-none :
      (l : Bytes) (n : Node P)
      → find_child l (children n) ≡ none
      → ◌≡◌ {A = List Bytes → List P} (λ ks. registered n (l ∷ ks)) (λ ks. [])
  unfolding registered
  below-none l n absent i ks = elim (absent i) [ none ↦ [] | some m ↦ registered m ks ]

  below-some :
      (l : Bytes) (n m : Node P)
      → find_child l (children n) ≡ some m
      → ◌≡◌ {A = List Bytes → List P} (λ ks. registered n (l ∷ ks)) (registered m)
  unfolding registered
  below-some l n m present i ks = elim (present i) [ none ↦ [] | some o ↦ registered o ks ]

  -- `search` returns the first accepted parser of those that are registered at exactly the path.
  pub search-find_if :
      (pred : P → Bool) (ls : List Bytes) (n : Node P)
      → search pred ls n ≡ find_if pred (registered n ls)
  unfolding search registered find_node find_parser_by_pred
  search-find_if pred [] n = refl
  search-find_if pred (l ∷ ls) n = elim (Option-cases (find_child l (children n))) [
    | inl absent ↦ let nothing : find_if pred [] ≡ none = unfold find_if in refl in ground arith
    | inr (m, present) ↦ ground (arith, search-find_if pred ls m)
  ]

  search_up-find_deepest :
      (pred : P → Bool) (ls : List Bytes) (n : Node P) (up : List (Node P))
      → search_up pred (find_deepest_node ls n up)
        ≡ or_else (longest_match pred (registered n) ls) (search_up pred up)
  unfolding longest_match find_deepest_node search_up find_parser_by_pred
  search_up-find_deepest pred [] n up = unfold registered in refl
  search_up-find_deepest pred (l ∷ ls) n up = elim (Option-cases (find_child l (children n))) [
    | inl absent ↦
        rw (below-none l n absent, longest_match_nothing pred ls, absent, find_deepest_node)
          (ap (λ ps. or_else (find_if pred ps) (search_up pred up)) (registered-root n))
    | inr (m, present) ↦
        rw (below-some l n m present, present, find_deepest_node)
          (search_up-find_deepest pred ls m (n ∷ up)
            ∙ or_else_assoc (longest_match pred (registered m) ls) _ _
            ∙ ap
                (λ ps.
                  or_else (or_else (longest_match pred (registered m) ls) (find_if pred ps))
                    (search_up pred up))
                (registered-root n))
  ]

  or_else-none : (a : Option P) → or_else a none ≡ a
  or_else-none none = refl
  or_else-none (some a) = refl

  -- `search_all` walks down as far as the labels lead and back up along the parents; it returns the
  -- first accepted parser that is registered under the longest prefix of the labels that has one.
  pub search_all-longest_match :
      (pred : P → Bool) (ls : List Bytes) (n : Node P)
      → search_all pred ls n ≡ longest_match pred (registered n) ls
  unfolding search_all
  search_all-longest_match pred ls n =
      search_up-find_deepest pred ls n [] ∙ unfold search_up in or_else-none _
