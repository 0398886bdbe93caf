-- ===== src/Sources/Groups.antt =====
-- The contract of a pattern's named groups, src/utility/RegexSource.cpp. A position of the scanner
-- is the rest of the pattern from there.
use aniparse.Prelude.{
  ℕ, zero, suc, ◌+◌, Bool, true, false, not, ◌&&◌, ◌||◌, List, [], ◌∷◌, ◌++◌, Option, none, some,
  ◌==◌, ltb, leb, Bytes, codes, bytes_eq, any_of, all_of, or_else, is_some, if◌then◌else◌, length,
  get_or, take, drop, ◌>>=◌, ◌>>◌, guard,
}
use aniparse.Prelude.StdMap.{find}
use aniparse.UrlPath.{index_of}
use aniparse.Sources.{RegexSource}

-- `pattern[i + n]`
abbrev pub char_at : ℕ → Bytes → ℕ
char_at n s = get_or s n 0

-- Where the name of a group begins and the character that closes it, if one is declared here.
unfoldable pub group_at : Bytes → Option (ℕ × ℕ)
group_at s =
    if not (char_at 0 s == b'(') || leb (length s) 3 || not (char_at 1 s == b'?')
    then none
    else if char_at 2 s == b'<' && not (char_at 3 s == b'=') && not (char_at 3 s == b'!')
    then some (3, b'>')
    else if char_at 2 s == 39
    then some (3, 39)
    else if char_at 2 s == b'P' && ltb 4 (length s) && char_at 3 s == b'<'
    then some (4, b'>')
    else none

-- `pattern.find(c)`
unfoldable pub index_of_char : ℕ → Bytes → Option ℕ
index_of_char c [] = none
index_of_char c (d ∷ s) =
    let later = index_of_char c s in if d == c then some 0 else (do i ← later; some (suc i))

-- The name of the group that is declared here, and the rest after its close.
unfoldable pub group_name : Bytes → Option (Bytes × Bytes)
group_name s = do
  (begin, close) ← group_at s
  end ← index_of_char close (drop begin s)
  guard (not (end == 0))
  some (take end (drop begin s), drop (end + 1) (drop begin s))

-- What one turn of the loop leaves: whether it is in a class, the rest, and a group it found.
pub record Turn : Type 0 where
  pub in_class : Bool
  pub rest : Bytes
  pub found : Option Bytes

unfoldable pub turn_group : Bytes → Option (Bytes × Bytes) → Turn
turn_group rest none = record { in_class = false; rest = rest; found = none }
turn_group rest (some (name, after)) = record { in_class = false; rest = after; found = some name }

unfoldable pub turn : Bool → ℕ → Bytes → Turn
turn in_class c rest =
    if c == 92
    then record { in_class = in_class; rest = drop 1 rest; found = none }
    else if in_class
    then record { in_class = not (c == b']'); rest = rest; found = none }
    else if c == b'['
    then record { in_class = true; rest = rest; found = none }
    else turn_group rest (group_name (c ∷ rest))

-- A group is listed once.
unfoldable pub push_group : Option Bytes → List Bytes → List Bytes
push_group none groups = groups
push_group (some name) groups =
    if any_of (bytes_eq name) groups then groups else groups ++ (name ∷ [])

unfoldable pub scan_groups : ℕ → Bool → Bytes → List Bytes → List Bytes
scan_groups zero in_class s groups = groups
scan_groups (suc fuel) in_class [] groups = groups
scan_groups (suc fuel) in_class (c ∷ rest) groups =
    let t = turn in_class c rest in scan_groups fuel t.in_class t.rest (push_group t.found groups)

unfoldable pub named_groups_of : Bytes → List Bytes
named_groups_of pattern = scan_groups (length pattern) false pattern []

unfoldable pub declares_group : Bytes → Bytes → Bool
declares_group pattern name =
    is_some (index_of (codes "(?<" ++ name) pattern)
    || is_some (index_of (codes "(?'" ++ name) pattern)
    || is_some (index_of (codes "(?P<" ++ name) pattern)

unfoldable pub declares_all : Bytes → List Bytes → Bool
declares_all pattern groups = all_of (declares_group pattern) groups

-- `regex(text)`, whose exception is `none`.
module _ {Regex : Type 0} (regex : Bytes → Option Regex) where
  unfoldable pub accepted_override : Bytes → Option Bytes → Option Regex
  accepted_override fallback none = none
  accepted_override fallback (some text) =
      if declares_all text (named_groups_of fallback) then regex text else none

  unfoldable pub compile : RegexSource → Bytes → Bytes → Option Regex
  compile source key fallback =
      or_else (accepted_override fallback (find key source.overrides)) (regex fallback)
