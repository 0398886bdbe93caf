-- ===== src/JsParser/Find.antt =====
-- The searches of src/html/JSParser.cpp: the literal of a variable and the argument of a call.
use aniparse.Prelude.{
  ℕ, zero, suc, ◌+◌, ◌-◌, Bool, not, ◌&&◌, ◌||◌, [], ◌∷◌, Option, none, some, ◌==◌, ltb, Bytes,
  if◌then◌else◌, length, get_or, take, drop, ◌>>=◌, ◌>>◌, guard,
}
use aniparse.UrlPath.{index_from}
use aniparse.JsParser.{
  is_ident_char, is_space, next_is, scan_balanced, scan_call_argument, skip_call_trivia,
}

-- `pos > 0 && is_ident_char(text[pos - 1])`, or the same after the name.
unfoldable pub inside_identifier : Bytes → ℕ → ℕ → Bool
inside_identifier text start end =
    (ltb 0 start && is_ident_char (get_or text (start - 1) 0))
    || (ltb end (length text) && is_ident_char (get_or text end 0))

unfoldable pub skip_spaces : Bytes → Bytes
skip_spaces [] = []
skip_spaces (c ∷ rest) = let later = skip_spaces rest in if is_space c then later else c ∷ rest

-- Past the quote that closes a quoted key.
unfoldable pub skip_key_quote : Bytes → ℕ → Bytes → Bytes
skip_key_quote text start rest =
    let before = get_or text (start - 1) 0 in
    if ltb 0 start && (before == 34 || before == 39) && next_is before rest
    then drop 1 rest
    else rest

-- What follows `=` or `:`.
unfoldable pub skip_separator : Bytes → Option Bytes
skip_separator [] = none
skip_separator (c ∷ rest) =
    if c == b'=' && (next_is b'=' rest || next_is b'>' rest)
    then none
    else if c == b'=' || c == b':'
    then some rest
    else none

-- The literal that begins here, if one does.
unfoldable pub literal_at : Bytes → Option Bytes
literal_at text =
    let size = scan_balanced text in
    if (next_is b'{' text || next_is b'[' text) && ltb 0 size then some (take size text) else none

-- The value of an occurrence of the name; `none` is a `continue`.
unfoldable pub var_at : Bytes → Bytes → ℕ → Option Bytes
var_at name text start = do
  let end = start + length name
  guard (not (inside_identifier text start end))
  value ← skip_separator (skip_spaces (skip_key_quote text start (drop end text)))
  literal_at (skip_spaces value)

-- `text.find(name, pos)` in a loop that goes on by a number of characters.
unfoldable pub found_or : Option Bytes → Bytes → Bytes
found_or none later = later
found_or (some found) later = found

unfoldable pub search_on : (ℕ → Bytes) → (ℕ → Option Bytes) → ℕ → Option ℕ → Bytes
search_on again attempt stride none = []
search_on again attempt stride (some start) = found_or (attempt start) (again (start + stride))

unfoldable pub search_from : (ℕ → Option Bytes) → ℕ → Bytes → Bytes → ℕ → ℕ → Bytes
search_from attempt stride name text zero pos = []
search_from attempt stride name text (suc fuel) pos =
    search_on (search_from attempt stride name text fuel) attempt stride (index_from name text pos)

unfoldable pub find_json_var : Bytes → Bytes → Bytes
find_json_var name text =
    if length name == 0
    then []
    else search_from (var_at name text) (length name) name text (suc (length text)) 0

-- One argument further, past its comma.
unfoldable pub next_argument : Bytes → Option Bytes
next_argument text = do
  delimiter ← scan_call_argument text
  guard (next_is b',' delimiter)
  some (drop 1 delimiter)

-- The argument at an index, after the opening parenthesis; `none` goes on to the next occurrence.
unfoldable pub argument_at : ℕ → Bytes → Option Bytes
argument_at zero text = do
  argument ← skip_call_trivia text
  guard (next_is b'{' argument || next_is b'[' argument)
  some (take (scan_balanced argument) argument)
argument_at (suc index) text = do
  argument ← skip_call_trivia text
  guard (not (length argument == 0 || next_is b')' argument))
  next ← next_argument argument
  argument_at index next

unfoldable pub call_at : Bytes → ℕ → Bytes → ℕ → Option Bytes
call_at callee index text start = do
  let end = start + length callee
  guard (not (inside_identifier text start end))
  opening ← skip_call_trivia (drop end text)
  guard (next_is b'(' opening)
  argument_at index (drop 1 opening)

unfoldable pub find_json_call_argument : Bytes → ℕ → Bytes → Bytes
find_json_call_argument callee index text =
    if length callee == 0
    then []
    else search_from (call_at callee index text) 1 callee text (suc (length text)) 0
