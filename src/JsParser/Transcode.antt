-- ===== src/JsParser/Transcode.antt =====
-- `normalize_js_to_json` of src/html/JSParser.cpp, each of its loops a function that goes on with the
-- outer one where the code breaks out, and the parsing searches. `boost::json::parse` with comments
-- and trailing commas allowed is a parameter.
pub mod Characters
pub mod Idempotence
pub mod Strings
use aniparse.Prelude.{ℕ, ◌&&◌, [], ◌∷◌, Option, none, ◌==◌, Bytes, if◌then◌else◌, length}
use aniparse.JsParser.Find.{find_json_var, find_json_call_argument}

unfoldable mutual
  -- The outer loop, at a character.
  pub normalize : Bytes → Bytes
  normalize [] = []
  normalize (c ∷ []) = (if c == 39 then 34 else c) ∷ []
  normalize (c ∷ d ∷ rest) =
      let string = normalize_double (d ∷ rest) in
      let quoted = normalize_single (d ∷ rest) in
      let line = normalize_line rest in
      let block = normalize_block rest in
      let others = normalize (d ∷ rest) in
      if c == 34
      then c ∷ string
      else if c == 39
      then 34 ∷ quoted
      else if c == b'/' && d == b'/'
      then c ∷ d ∷ line
      else if c == b'/' && d == b'*'
      then c ∷ d ∷ block
      else c ∷ others

  -- In a double-quoted string: copied.
  pub normalize_double : Bytes → Bytes
  normalize_double [] = []
  normalize_double (c ∷ []) = c ∷ []
  normalize_double (c ∷ d ∷ rest) =
      let escaped = normalize_double rest in
      let outside = normalize (d ∷ rest) in
      let others = normalize_double (d ∷ rest) in
      if c == 92 then c ∷ d ∷ escaped else if c == 34 then c ∷ outside else c ∷ others

  -- In a single-quoted string: transcoded.
  pub normalize_single : Bytes → Bytes
  normalize_single [] = []
  normalize_single (c ∷ []) = if c == 39 then 34 ∷ [] else if c == 34 then 92 ∷ c ∷ [] else c ∷ []
  normalize_single (c ∷ d ∷ rest) =
      let escaped = normalize_single rest in
      let outside = normalize (d ∷ rest) in
      let others = normalize_single (d ∷ rest) in
      if c == 92
      then if d == 39 then 39 ∷ escaped else 92 ∷ d ∷ escaped
      else if c == 39
      then 34 ∷ outside
      else if c == 34
      then 92 ∷ c ∷ others
      else c ∷ others

  -- In a line comment, whose newline the outer loop copies.
  pub normalize_line : Bytes → Bytes
  normalize_line [] = []
  normalize_line (c ∷ rest) =
      let outside = normalize rest in
      let others = normalize_line rest in if c == 10 then c ∷ outside else c ∷ others

  -- In a block comment.
  pub normalize_block : Bytes → Bytes
  normalize_block [] = []
  normalize_block (c ∷ []) = c ∷ []
  normalize_block (c ∷ d ∷ rest) =
      let outside = normalize rest in
      let others = normalize_block (d ∷ rest) in
      if c == b'*' && d == b'/' then c ∷ d ∷ outside else c ∷ others

-- What the parsing searches make of a slice.
module _ {Value : Type 0} (parse : Bytes → Option Value) where
  unfoldable pub parse_slice : Bytes → Option Value
  parse_slice slice = if length slice == 0 then none else parse (normalize slice)

  unfoldable pub parse_json_var : Bytes → Bytes → Option Value
  parse_json_var name text = parse_slice (find_json_var name text)

  unfoldable pub parse_json_call_argument : Bytes → ℕ → Bytes → Option Value
  parse_json_call_argument callee index text =
      parse_slice (find_json_call_argument callee index text)
