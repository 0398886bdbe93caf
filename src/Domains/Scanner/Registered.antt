-- ===== src/Domains/Scanner/Registered.antt =====
-- The trie as a multimap: the parsers that are registered under each path of labels.
use aniparse.Prelude.{
  Bool, true, false, ◌&&◌, List, [], ◌∷◌, ◌++◌, none, some, ◌≡◌, refl, ◌↔◌, inl, inr, arith, Bytes,
  bytes_eq, bytes_eq_iff, erase_if, if◌then◌else◌, Option-cases,
}
use aniparse.Domains.Scanner.{
  Node, node, Children, leaf, child, parsers, children, empty, find_child, insert_child,
  assign_child, with_child, add_domain_parser, remove_domain_parser,
}

unfoldable pub path_eq : List Bytes → List Bytes → Bool
path_eq [] [] = true
path_eq (a ∷ as') (b ∷ bs) = bytes_eq a b && path_eq as' bs
path_eq _ _ = false

pub path_eq_iff : (a b : List Bytes) → (path_eq a b ≡ true) ↔ (a ≡ b)
unfolding path_eq
path_eq_iff (x ∷ a) (y ∷ b) = ground (arith, path_eq_iff a b, bytes_eq_iff x y)
path_eq_iff _ _ = ground arith

module _ {P : Type 0} where
  -- The parsers at a path, in the order of registration.
  unfoldable pub registered : Node P → List Bytes → List P
  registered n [] = parsers n
  registered n (l ∷ ls) = elim (find_child l (children n)) [ none ↦ [] | some m ↦ registered m ls ]

  pub registered-empty : (ls : List Bytes) → registered empty ls ≡ []
  unfolding registered find_child
  registered-empty [] = refl
  registered-empty (l ∷ ls) = refl

  find_child-insert :
      (l j : Bytes) (n : Node P) (cs : Children P)
      → find_child l cs ≡ none
      → find_child j (insert_child l n cs) ≡ (if bytes_eq l j then some n else find_child j cs)
  unfolding find_child insert_child
  find_child-insert l j n leaf h = refl
  find_child-insert l j n (child i m cs) h =
      ground
        (arith, bytes_eq_iff l j, bytes_eq_iff i l, bytes_eq_iff i j, find_child-insert l j n cs)

  find_child-assign :
      (l j : Bytes) (n o : Node P) (cs : Children P)
      → find_child l cs ≡ some o
      → find_child j (assign_child l n cs) ≡ (if bytes_eq l j then some n else find_child j cs)
  unfolding find_child assign_child
  find_child-assign l j n o leaf h = cc
  find_child-assign l j n o (child i m cs) h =
      ground
        (arith, bytes_eq_iff l j, bytes_eq_iff i l, bytes_eq_iff i j, find_child-assign l j n o cs)

  child_or_empty : Bytes → Children P → Node P
  child_or_empty l cs = elim (find_child l cs) [ none ↦ empty | some n ↦ n ]

  child_or_empty-with_child :
      (l j : Bytes) (f : Node P → Node P) (cs : Children P)
      → child_or_empty j (with_child l f cs)
        ≡ (if bytes_eq l j then f (child_or_empty l cs) else child_or_empty j cs)
  unfolding with_child child_or_empty
  child_or_empty-with_child l j f cs = elim (Option-cases (find_child l cs)) [
    | inl absent ↦ ground (arith, find_child-insert l j (f empty) cs absent)
    | inr (n, present) ↦ ground (arith, find_child-assign l j (f n) n cs present)
  ]

  child_or_empty-assign :
      (l j : Bytes) (n o : Node P) (cs : Children P)
      → find_child l cs ≡ some o
      → child_or_empty j (assign_child l n cs) ≡ (if bytes_eq l j then n else child_or_empty j cs)
  unfolding child_or_empty
  child_or_empty-assign l j n o cs present = ground (arith, find_child-assign l j n o cs present)

  child_or_empty-none :
      (l : Bytes) (cs : Children P) → find_child l cs ≡ none → child_or_empty l cs ≡ empty
  unfolding child_or_empty
  child_or_empty-none l cs absent = ground arith

  child_or_empty-some :
      (l : Bytes) (n : Node P) (cs : Children P)
      → find_child l cs ≡ some n
      → child_or_empty l cs ≡ n
  unfolding child_or_empty
  child_or_empty-some l n cs present = ground arith

  registered-cons :
      (l : Bytes) (ls : List Bytes) (ps : List P) (cs : Children P)
      → registered (node ps cs) (l ∷ ls) ≡ registered (child_or_empty l cs) ls
  unfolding registered child_or_empty
  registered-cons l ls ps cs = ground (arith, registered-empty ls)

  -- Adding a parser at a path appends it to the parsers that are registered at that path, and the
  -- parsers at every other path stay as they were.
  pub registered-add :
      (ls : List Bytes) (p : P) (n : Node P) (ks : List Bytes)
      → registered (add_domain_parser ls p n) ks
        ≡ (if path_eq ls ks then registered n ks ++ p ∷ [] else registered n ks)
  unfolding path_eq add_domain_parser
  registered-add [] p (node ps cs) [] = unfold registered in refl
  registered-add [] p (node ps cs) (k ∷ ks) = unfold registered in refl
  registered-add (l ∷ ls) p (node ps cs) [] = unfold registered in refl
  registered-add (l ∷ ls) p (node ps cs) (k ∷ ks) = ground (
    arith,
    registered-cons k ks ps cs,
    registered-cons k ks ps (with_child l (add_domain_parser ls p) cs),
    child_or_empty-with_child l k (add_domain_parser ls p) cs,
    registered-add ls p (child_or_empty l cs) ks,
    bytes_eq_iff l k,
  )

  -- Removing a parser at a path erases every parser equal to it that is registered at that path,
  -- and the parsers at every other path stay as they were; a path with no node changes nothing.
  pub registered-remove :
      (eq : P → P → Bool) (ls : List Bytes) (p : P) (n : Node P) (ks : List Bytes)
      → registered (remove_domain_parser eq ls p n) ks
        ≡ (if path_eq ls ks then erase_if (λ q. eq q p) (registered n ks) else registered n ks)
  unfolding path_eq remove_domain_parser
  registered-remove eq [] p (node ps cs) [] = unfold registered in refl
  registered-remove eq [] p (node ps cs) (k ∷ ks) = unfold registered in refl
  registered-remove eq (l ∷ ls) p (node ps cs) [] = unfold registered in ground arith
  registered-remove eq (l ∷ ls) p (node ps cs) (k ∷ ks) = elim (Option-cases (find_child l cs)) [
    | inl absent ↦
        let unmoved : child_or_empty l cs ≡ empty = child_or_empty-none l cs absent in
        let gone : erase_if (λ q. eq q p) [] ≡ [] = unfold erase_if in refl in
        ground (arith, registered-cons k ks ps cs, registered-empty ks, bytes_eq_iff l k)
    | inr (n, present) ↦
        let found : child_or_empty l cs ≡ n = child_or_empty-some l n cs present in
        ground (
          arith,
          registered-cons k ks ps cs,
          registered-cons k ks ps (assign_child l (remove_domain_parser eq ls p n) cs),
          child_or_empty-assign l k (remove_domain_parser eq ls p n) n cs present,
          registered-remove eq ls p n ks,
          bytes_eq_iff l k,
        )
  ]
