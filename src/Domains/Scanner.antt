-- ===== src/Domains/Scanner.antt =====
-- `DomainScanner`: a trie of labels, with the parsers that are registered at each node. The parent
-- pointers of a path are the list of the nodes above it, the nearest first.

pub mod Registered
pub mod Search
pub mod Matches
use aniparse.Prelude.{
  Bool, List, [], ◌∷◌, ◌++◌, Option, none, some, Bytes, bytes_eq, bytes_lt, find_if, erase_if,
  or_else, if◌then◌else◌,
}

mutual
  pub data Node (P : Type 0) : Type 0 where
    node : List P → Children P → Node P

  -- `std::map<DomainString, Node>`, in the order of its keys
  pub data Children (P : Type 0) : Type 0 where
    leaf : Children P
    child : Bytes → Node P → Children P → Children P

module _ {P : Type 0} where
  abbrev pub parsers : Node P → List P
  parsers (node ps cs) = ps

  abbrev pub children : Node P → Children P
  children (node ps cs) = cs

  abbrev pub empty : Node P
  empty = node [] leaf

  -- `children.find(name)`
  unfoldable pub find_child : Bytes → Children P → Option (Node P)
  find_child l leaf = none
  find_child l (child j n cs) = if bytes_eq j l then some n else find_child l cs

  unfoldable pub insert_child : Bytes → Node P → Children P → Children P
  insert_child l n leaf = child l n leaf
  insert_child l n (child j m cs) =
      let rest = insert_child l n cs in
      if bytes_lt l j then child l n (child j m cs) else child j m rest

  unfoldable pub assign_child : Bytes → Node P → Children P → Children P
  assign_child l n leaf = leaf
  assign_child l n (child j m cs) =
      let rest = assign_child l n cs in if bytes_eq j l then child j n cs else child j m rest

  -- `Node::child(name)`, and what is done to the node that it returns
  unfoldable pub with_child : Bytes → (Node P → Node P) → Children P → Children P
  with_child l f cs = elim (find_child l cs) [
    | none ↦ insert_child l (f empty) cs
    | some n ↦ assign_child l (f n) cs
  ]

  -- `find_or_create_node` and the `emplace_back` on its result
  unfoldable pub add_domain_parser : List Bytes → P → Node P → Node P
  add_domain_parser [] p (node ps cs) = node (ps ++ p ∷ []) cs
  add_domain_parser (l ∷ ls) p (node ps cs) = node ps (with_child l (add_domain_parser ls p) cs)

  unfoldable pub find_node : List Bytes → Node P → Option (Node P)
  find_node [] n = some n
  find_node (l ∷ ls) n = elim (find_child l (children n)) [ none ↦ none | some m ↦ find_node ls m ]

  -- `std::erase` on the parsers of the node, where `find_node` finds one
  unfoldable pub remove_domain_parser : (P → P → Bool) → List Bytes → P → Node P → Node P
  remove_domain_parser eq [] p (node ps cs) = node (erase_if (λ q. eq q p) ps) cs
  remove_domain_parser eq (l ∷ ls) p (node ps cs) = elim (find_child l cs) [
    | none ↦ node ps cs
    | some n ↦ node ps (assign_child l (remove_domain_parser eq ls p n) cs)
  ]

  unfoldable pub find_parser_by_pred : (P → Bool) → Node P → Option P
  find_parser_by_pred pred n = find_if pred (parsers n)

  unfoldable pub search : (P → Bool) → List Bytes → Node P → Option P
  search pred ls root = elim (find_node ls root) [
    | none ↦ none
    | some n ↦ find_parser_by_pred pred n
  ]

  -- The deepest node on the path, and the nodes above it.
  unfoldable pub find_deepest_node : List Bytes → Node P → List (Node P) → List (Node P)
  find_deepest_node [] n up = n ∷ up
  find_deepest_node (l ∷ ls) n up = elim (find_child l (children n)) [
    | none ↦ n ∷ up
    | some m ↦ find_deepest_node ls m (n ∷ up)
  ]

  -- The loop of `search_all_impl`, up along the parents.
  unfoldable pub search_up : (P → Bool) → List (Node P) → Option P
  search_up pred [] = none
  search_up pred (n ∷ up) = or_else (find_parser_by_pred pred n) (search_up pred up)

  unfoldable pub search_all : (P → Bool) → List Bytes → Node P → Option P
  search_all pred ls root = search_up pred (find_deepest_node ls root [])
