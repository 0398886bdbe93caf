-- ===== src/JsParser.antt =====
-- The literal scanners of src/html/JSParser.cpp. A position in the text is what is left of it from
-- there; a scan that fails (length 0 or `npos` in the code) is `none`. The loops that stay in the
-- text for more than one character at a turn run on fuel, one unit for each character left.
pub mod Turns
pub mod Pieces
pub mod Literals
pub mod Find
pub mod Occurrences
pub mod Brackets
pub mod Closing
pub mod Soundness
pub mod Slices
pub mod Assignments
pub mod Calls
pub mod Transcode
mod Tests
use aniparse.Prelude.{
  ℕ, zero, suc, ◌-◌, Bool, false, not, ◌&&◌, ◌||◌, List, [], ◌∷◌, Option, none, some, ◌==◌, Bytes,
  within, is_digit, if◌then◌else◌, length, drop,
}

unfoldable pub is_ident_char : ℕ → Bool
is_ident_char c = is_digit c || within b'A' b'Z' c || within b'a' b'z' c || c == b'_' || c == 36

-- Space, and the controls from tab to carriage return.
unfoldable pub is_space : ℕ → Bool
is_space c = c == 32 || within 9 13 c

-- The quotes `"`, `'` and `\``.
unfoldable pub is_quote : ℕ → Bool
is_quote c = c == 34 || c == 39 || c == 96

-- `i + 1 < text.size() && text[i + 1] == d`
abbrev pub next_is : ℕ → Bytes → Bool
next_is d [] = false
next_is d (c ∷ rest) = c == d

-- What follows the closing quote; the flag says that a backslash stands before.
unfoldable pub skip_string : ℕ → Bool → Bytes → Option Bytes
skip_string quote escaped [] = none
skip_string quote escaped (c ∷ rest) =
    let later = skip_string quote (not escaped && c == 92) rest in
    if not escaped && not (c == 92) && c == quote then some rest else later

-- From the end of the line on.
unfoldable pub skip_line : Bytes → Bytes
skip_line [] = []
skip_line (c ∷ rest) = let later = skip_line rest in if c == 10 then c ∷ rest else later

-- What follows `*/`.
unfoldable pub skip_block : Bytes → Option Bytes
skip_block [] = none
skip_block (c ∷ rest) =
    let later = skip_block rest in
    if c == b'*' && next_is b'/' rest then some (drop 1 rest) else later

-- One turn of a scan: it goes on with closers still expected, ends before a rest, or fails.
pub data Turn : Type 0 where
  go : List ℕ → Bytes → Turn
  ended : Bytes → Turn
  broken : Turn

unfoldable pub go_on : List ℕ → Option Bytes → Turn
go_on closers none = broken
go_on closers (some rest) = go closers rest

unfoldable pub closer_of : ℕ → ℕ
closer_of c = if c == b'{' then b'}' else if c == b'[' then b']' else b')'

-- A string or a comment that begins here, and what to do at another character.
unfoldable pub skip_or : List ℕ → ℕ → Bytes → Turn → Turn
skip_or closers c rest bracket =
    if is_quote c
    then go_on closers (skip_string c false rest)
    else if c == b'/' && next_is b'/' rest
    then go closers (drop 1 (skip_line (drop 1 rest)))
    else if c == b'/' && next_is b'*' rest
    then go_on closers (skip_block (drop 1 rest))
    else bracket

unfoldable pub pop_balanced : List ℕ → ℕ → Bytes → Turn
pop_balanced [] c rest = broken
pop_balanced (closer ∷ []) c rest = if closer == c then ended rest else broken
pop_balanced (closer ∷ next ∷ closers) c rest =
    if closer == c then go (next ∷ closers) rest else broken

unfoldable pub bracket_balanced : List ℕ → ℕ → Bytes → Turn
bracket_balanced closers c rest =
    if c == b'{' || c == b'['
    then go (closer_of c ∷ closers) rest
    else if c == b'}' || c == b']'
    then pop_balanced closers c rest
    else go closers rest

unfoldable pub pop_argument : List ℕ → ℕ → Bytes → Turn
pop_argument [] c rest = if c == b')' then ended (c ∷ rest) else broken
pop_argument (closer ∷ closers) c rest = if closer == c then go closers rest else broken

unfoldable pub bracket_argument : List ℕ → ℕ → Bytes → Turn
bracket_argument closers c rest =
    if c == b'{' || c == b'[' || c == b'('
    then go (closer_of c ∷ closers) rest
    else if c == b'}' || c == b']' || c == b')'
    then pop_argument closers c rest
    else if c == b',' && length closers == 0
    then ended (c ∷ rest)
    else go closers rest

unfoldable pub next_turn : (List ℕ → Bytes → Option Bytes) → Turn → Option Bytes
next_turn again (go closers rest) = again closers rest
next_turn again (ended rest) = some rest
next_turn again broken = none

-- The loop of both scans, which differ in what a bracket or a comma does.
unfoldable pub turn : (List ℕ → ℕ → Bytes → Turn) → List ℕ → ℕ → Bytes → Turn
turn bracket closers c rest = skip_or closers c rest (bracket closers c rest)

unfoldable pub scan : (List ℕ → ℕ → Bytes → Turn) → ℕ → List ℕ → Bytes → Option Bytes
scan bracket zero closers text = none
scan bracket (suc fuel) closers [] = none
scan bracket (suc fuel) closers (c ∷ rest) =
    next_turn (scan bracket fuel) (turn bracket closers c rest)

unfoldable pub length_before : Bytes → Option Bytes → ℕ
length_before text none = 0
length_before text (some rest) = length text - length rest

unfoldable pub scan_balanced : Bytes → ℕ
scan_balanced text = length_before text (scan bracket_balanced (length text) [] text)

-- The rest from the delimiter on.
unfoldable pub scan_call_argument : Bytes → Option Bytes
scan_call_argument text = scan bracket_argument (length text) [] text

-- The whitespace and the comments before the next token; the loop ends where there is neither.
unfoldable pub turn_trivia : ℕ → Bytes → Turn
turn_trivia c rest =
    if is_space c
    then go [] rest
    else if c == b'/' && next_is b'/' rest
    then go [] (skip_line (drop 1 rest))
    else if c == b'/' && next_is b'*' rest
    then go_on [] (skip_block (drop 1 rest))
    else ended (c ∷ rest)

unfoldable pub trivia : ℕ → Bytes → Option Bytes
trivia zero text = some text
trivia (suc fuel) [] = some []
trivia (suc fuel) (c ∷ rest) = next_turn (λ closers. trivia fuel) (turn_trivia c rest)

unfoldable pub skip_call_trivia : Bytes → Option Bytes
skip_call_trivia text = trivia (length text) text
