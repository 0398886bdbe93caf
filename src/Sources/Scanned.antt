-- ===== src/Sources/Scanned.antt =====
-- A named group that stands in a pattern after plain characters is one that the scanner finds.
use aniparse.Prelude.{
  ℕ, zero, suc, ◌<◌, Bool, true, false, not, ◌&&◌, List, [], ◌∷◌, ◌++◌, Option, none, some, ◌≡◌,
  refl, ap, inl, inr, arith, ◌==◌, Bytes, codes, bytes_eq, bytes_eq_iff, any_of, all_of, Bool-cases,
  length, length-append, take, Elem, Elem-append_left, Elem-append_right,
}
use aniparse.Sources.Groups.{
  group_at, index_of_char, group_name, turn_group, turn, push_group, scan_groups, named_groups_of,
}

-- Neither an escape nor the start of a class or of a group.
unfoldable pub is_plain_char : ℕ → Bool
is_plain_char c = not (c == 92) && not (c == b'[') && not (c == b'(')

-- A name begins with no sign of a lookbehind and holds no closing bracket.
unfoldable pub is_name_char : ℕ → Bool
is_name_char c = not (c == b'>') && not (c == b'=') && not (c == b'!')

-- The pattern declares a named group after plain characters.
pub record IsGroup (pattern name : Bytes) : Type 0 where
  pub front : Bytes
  pub rest : Bytes
  pub plain : all_of is_plain_char front ≡ true
  pub named : 0 < length name
  pub letters : all_of is_name_char name ≡ true
  pub spelled : pattern ≡ front ++ (codes "(?<" ++ (name ++ (b'>' ∷ rest)))

any_of-Elem :
    (name : Bytes) (groups : List Bytes) → any_of (bytes_eq name) groups ≡ true → Elem name groups
unfolding any_of
any_of-Elem name [] h = cc (h)
any_of-Elem name (g ∷ groups) h = elim (Bool-cases (bytes_eq name g)) [
  | inl same ↦ inl ((bytes_eq_iff name g).0 same)
  | inr other ↦ inr (any_of-Elem name groups (ground (arith, h, other)))
]

push_group-keeps :
    (n : Bytes) (found : Option Bytes) (groups : List Bytes)
    → Elem n groups
    → Elem n (push_group found groups)
unfolding push_group
push_group-keeps n none groups m = m
push_group-keeps n (some name) groups m = elim (Bool-cases (any_of (bytes_eq name) groups)) [
  | inl there ↦ rw there m
  | inr new ↦ rw new (Elem-append_left n groups (name ∷ []) m)
]

push_group-Elem : (name : Bytes) (groups : List Bytes) → Elem name (push_group (some name) groups)
unfolding push_group
push_group-Elem name groups = elim (Bool-cases (any_of (bytes_eq name) groups)) [
  | inl there ↦ rw there (any_of-Elem name groups there)
  | inr new ↦ rw new (Elem-append_right name groups (name ∷ []) (inl refl))
]

scan_groups-keeps :
    (n : Bytes) (fuel : ℕ) (in_class : Bool) (s : Bytes) (groups : List Bytes)
    → Elem n groups
    → Elem n (scan_groups fuel in_class s groups)
unfolding scan_groups
scan_groups-keeps n zero in_class s groups m = m
scan_groups-keeps n (suc fuel) in_class [] groups m = m
scan_groups-keeps n (suc fuel) in_class (c ∷ rest) groups m =
    let t = turn in_class c rest in
    scan_groups-keeps n fuel t.in_class t.rest (push_group t.found groups)
      (push_group-keeps n t.found groups m)

index_of_char-close :
    (name rest : Bytes)
    → all_of is_name_char name ≡ true
    → index_of_char b'>' (name ++ (b'>' ∷ rest)) ≡ some (length name)
unfolding index_of_char all_of is_name_char
index_of_char-close [] rest h = refl
index_of_char-close (c ∷ name) rest h = ground (arith, h, index_of_char-close name rest)

take_name : (name rest : Bytes) → take (length name) (name ++ rest) ≡ name
take_name [] rest = refl
take_name (c ∷ name) rest = ap (◌∷◌ c) (take_name name rest)

group_at-angled :
    (c : ℕ) (s : Bytes) → is_name_char c ≡ true → group_at (codes "(?<" ++ (c ∷ s)) ≡ some (3, b'>')
unfolding group_at is_name_char
group_at-angled c s h = ground (arith, h)

found_name :
    (c : ℕ) (name rest : Bytes)
    → all_of is_name_char (c ∷ name) ≡ true
    → (turn false b'(' (codes "?<" ++ ((c ∷ name) ++ (b'>' ∷ rest)))).found ≡ some (c ∷ name)
unfolding turn turn_group group_name
found_name c name rest h =
    let first : is_name_char c ≡ true = unfold all_of in ground (arith, h) in
    let filled : (suc (length name) == 0) ≡ false = ground arith in
    rw (group_at-angled c (name ++ (b'>' ∷ rest)) first) (
      rw (index_of_char-close (c ∷ name) rest h)
        (rw filled (ap some (take_name (c ∷ name) (b'>' ∷ rest)))))

plain_turn :
    (c : ℕ) (s : Bytes)
    → is_plain_char c ≡ true
    → turn false c s ≡ record { in_class = false; rest = s; found = none }
unfolding turn turn_group group_name group_at is_plain_char
plain_turn c s h = ground (arith, h)

scan_groups-Elem :
    (front : Bytes) (c : ℕ) (name rest : Bytes) (fuel : ℕ) (groups : List Bytes)
    → all_of is_plain_char front ≡ true
    → all_of is_name_char (c ∷ name) ≡ true
    → length front < fuel
    → Elem
        (c ∷ name)
        (scan_groups fuel false (front ++ (codes "(?<" ++ ((c ∷ name) ++ (b'>' ∷ rest)))) groups)
unfolding scan_groups push_group all_of
scan_groups-Elem front c name rest zero groups p l f = absurd (omega (arith, f))
scan_groups-Elem [] c name rest (suc fuel) groups p l f =
    let t = turn false b'(' (codes "?<" ++ ((c ∷ name) ++ (b'>' ∷ rest))) in
    scan_groups-keeps (c ∷ name) fuel t.in_class t.rest (push_group t.found groups)
      (rw (found_name c name rest l) (push_group-Elem (c ∷ name) groups))
scan_groups-Elem (x ∷ front) c name rest (suc fuel) groups p l f =
    let s = front ++ (codes "(?<" ++ ((c ∷ name) ++ (b'>' ∷ rest))) in
    rw (plain_turn x s (unfold all_of in ground (arith, p)))
      (scan_groups-Elem front c name rest fuel groups (ground (arith, p)) l (omega (arith, f)))

pub named_groups_of-Elem :
    (pattern name : Bytes) → IsGroup pattern name → Elem name (named_groups_of pattern)
unfolding named_groups_of
named_groups_of-Elem pattern [] g = absurd (omega (arith, g.named))
named_groups_of-Elem pattern (c ∷ name) g =
    let size = length-append {0} g.front (codes "(?<" ++ ((c ∷ name) ++ (b'>' ∷ g.rest))) in
    rw g.spelled
      (scan_groups-Elem g.front c name g.rest _ [] g.plain g.letters (omega (arith, size)))
