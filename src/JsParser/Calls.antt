-- ===== src/JsParser/Calls.antt =====
-- What `find_json_call_argument` finds.
use aniparse.Prelude.{
  ℕ, zero, suc, ◌+◌, ◌<◌, Bool, true, false, not, List, [], ◌∷◌, ◌++◌, some, ◌≡◌, refl, ap, sym,
  ◌∙◌, arith, ◌==◌, Bytes, is_digit, all_of, length, length-append, get_or, take, drop, drop-append,
  All,
}
use aniparse.UrlPath.{index_of}
use aniparse.UrlPath.Segments.{drop-drop}
use aniparse.JsParser.{
  is_ident_char, is_quote, is_space, closer_of, scan_balanced, scan_call_argument, skip_call_trivia,
  trivia, turn_trivia, next_turn,
}
use aniparse.JsParser.Pieces.{
  Pieces, plain, string, line_comment, block_comment, group, done, piece, write, write_all,
  is_piece, are_pieces,
}
use aniparse.JsParser.Literals.{
  IsLiteral, scan_call_argument-write, is_argument_plain, is_argument_open,
}
use aniparse.JsParser.Slices.{literal_at-write}
use aniparse.JsParser.Assignments.{not_space, index_from_zero, ends_outside, outside_identifier}
use aniparse.JsParser.Occurrences.{first_try, search_from_first, search_from-first_try}
use aniparse.JsParser.Find.{
  literal_at, next_argument, argument_at, call_at, find_json_call_argument,
}

-- An argument, behind some space: it begins with a token, and holds no comma or closing bracket of
-- its own outside its strings, comments and brackets.
pub record Argument : Type 0 where
  pub space : Bytes
  pub body : Pieces

unfoldable pub starts_solid : Pieces → Bool
starts_solid done = false
starts_solid (piece (plain c) ps) = not (is_space c)
starts_solid (piece (string quote parts) ps) = true
starts_solid (piece (line_comment text) ps) = false
starts_solid (piece (block_comment text) ps) = false
starts_solid (piece (group opener inside) ps) = true

abbrev pub IsArgument : Argument → Type 0
IsArgument a =
    (all_of is_space a.space ≡ true)
    × (are_pieces is_argument_plain is_argument_open false a.body ≡ true)
    × (starts_solid a.body ≡ true)

-- Each argument with its comma.
unfoldable pub write_arguments : List Argument → Bytes → Bytes
write_arguments [] rest = rest
write_arguments (a ∷ arguments) rest =
    a.space ++ write_all a.body (b',' ∷ write_arguments arguments rest)

-- A character that begins a token.
abbrev IsSolid : ℕ → Type 0
IsSolid c = (is_space c ≡ false) × ((c == b'/') ≡ false) × ((c == b')') ≡ false)

trivia_spaces :
    (spaces : Bytes) (c : ℕ) (rest : Bytes) (fuel : ℕ)
    → all_of is_space spaces ≡ true
    → is_space c ≡ false
    → (c == b'/') ≡ false
    → length spaces < fuel
    → trivia fuel (spaces ++ (c ∷ rest)) ≡ some (c ∷ rest)
unfolding trivia turn_trivia next_turn all_of
trivia_spaces spaces c rest zero h p q lt = absurd (omega (arith, lt))
trivia_spaces [] c rest (suc fuel) h p q lt = rw (p, q) refl
trivia_spaces (d ∷ spaces) c rest (suc fuel) h p q lt =
    let space : is_space d ≡ true = ground (arith, h) in
    rw space (trivia_spaces spaces c rest fuel (ground (arith, h)) p q (omega (arith, lt)))

skip_call_trivia-spaces :
    (spaces : Bytes) (c : ℕ) (rest : Bytes)
    → all_of is_space spaces ≡ true
    → is_space c ≡ false
    → (c == b'/') ≡ false
    → skip_call_trivia (spaces ++ (c ∷ rest)) ≡ some (c ∷ rest)
unfolding skip_call_trivia
skip_call_trivia-spaces spaces c rest h p q =
    trivia_spaces spaces c rest _ h p q (omega (arith, length-append {0} spaces (c ∷ rest)))

IsSolid-head :
    (body : Pieces) (rest : Bytes)
    → are_pieces is_argument_plain is_argument_open false body ≡ true
    → starts_solid body ≡ true
    → (c : ℕ) × (s : Bytes) × (write_all body rest ≡ c ∷ s) × IsSolid c
unfolding write starts_solid is_piece is_argument_plain is_argument_open is_quote is_space
IsSolid-head done rest h solid = cc
IsSolid-head (piece (plain c) ps) rest h solid =
    (c, write_all ps rest, refl, (ground (arith, solid), ground (arith, h), ground (arith, h)))
IsSolid-head (piece (string quote parts) ps) rest h solid =
    (quote, _, refl, (ground (arith, h), ground (arith, h), ground (arith, h)))
IsSolid-head (piece (line_comment text) ps) rest h solid = cc
IsSolid-head (piece (block_comment text) ps) rest h solid = cc
IsSolid-head (piece (group opener inside) ps) rest h solid =
    (opener, _, refl, (ground (arith, h), ground (arith, h), ground (arith, h)))

take-write :
    (opener : ℕ) (inside : Pieces) (rest : Bytes)
    → IsLiteral opener inside
    → let text = write (group opener inside) rest in
      take (scan_balanced text) text ≡ write (group opener inside) []
unfolding literal_at
take-write opener inside rest h =
    let cut = literal_at-write opener inside rest h in ground (arith, cut)

argument_at-literal :
    (spaces : Bytes) (opener : ℕ) (inside : Pieces) (rest : Bytes)
    → all_of is_space spaces ≡ true
    → IsLiteral opener inside
    → argument_at 0 (spaces ++ write (group opener inside) rest)
      ≡ some (write (group opener inside) [])
unfolding argument_at
argument_at-literal spaces opener inside rest h literal =
    let tail = write_all inside (closer_of opener ∷ rest) in
    let opened : write (group opener inside) rest ≡ opener ∷ tail = unfold write in refl in
    let cut = take-write opener inside rest literal in
    let solid : (opener == b'/') ≡ false = ground (arith, literal.0) in
    rw
      (
        opened,
        skip_call_trivia-spaces spaces opener tail h (not_space opener (ground (arith, literal.0)))
            solid,
        literal.0,
      )
      (ap some (rw opened at cut))

argument_at_step :
    (index : ℕ) (text : Bytes) (c : ℕ) (tail : Bytes) {next : Bytes}
    → skip_call_trivia text ≡ some (c ∷ tail)
    → (c == b')') ≡ false
    → next_argument (c ∷ tail) ≡ some next
    → argument_at (suc index) text ≡ argument_at index next
unfolding argument_at
argument_at_step index text c tail e p h =
    let some_left : (suc (length tail) == 0) ≡ false = ground arith in
    rw e (rw (p, some_left) (rw h refl))

argument_at-write :
    (arguments : List Argument) (spaces : Bytes) (opener : ℕ) (inside : Pieces) (rest : Bytes)
    → All IsArgument arguments
    → all_of is_space spaces ≡ true
    → IsLiteral opener inside
    → argument_at
        (length arguments)
        (write_arguments arguments (spaces ++ write (group opener inside) rest))
      ≡ some (write (group opener inside) [])
unfolding argument_at write_arguments next_argument
argument_at-write [] spaces opener inside rest h s literal =
    argument_at-literal spaces opener inside rest s literal
argument_at-write (a ∷ arguments) spaces opener inside rest h s literal =
    let later = write_arguments arguments (spaces ++ write (group opener inside) rest) in
    let (c, tail, head, (solid, slash, closing)) = IsSolid-head a.body (b',' ∷ later) h.0.1 h.0.2 in
    let skipped : scan_call_argument (write_all a.body (b',' ∷ later)) ≡ some (b',' ∷ later) =
      scan_call_argument-write a.body b',' later h.0.1 refl in
    let next : next_argument (c ∷ tail) ≡ some later = rw (sym head, skipped) refl in
    rw head (
      argument_at_step (length arguments) _ c tail
        (skip_call_trivia-spaces a.space c tail h.0.0 solid slash) closing next)
    ∙ argument_at-write arguments spaces opener inside rest h.1 s literal

-- A call up to its literal: the name, some space, the parenthesis and the arguments before.
module _ (callee space : Bytes) (arguments : List Argument) (spaces : Bytes) where
  unfoldable pub write_call : Bytes → Bytes
  write_call literal = callee ++ (space ++ (b'(' ∷ write_arguments arguments (spaces ++ literal)))

no_identifier :
    (space rest : Bytes)
    → all_of is_space space ≡ true
    → is_ident_char (get_or (space ++ (b'(' ∷ rest)) 0 0) ≡ false
unfolding all_of is_ident_char is_space is_digit
no_identifier [] rest h = refl
no_identifier (c ∷ space) rest h = ground (arith, h)

call_at-write :
    (before callee space : Bytes) (arguments : List Argument) (spaces : Bytes) (opener : ℕ)
    (inside : Pieces) (rest : Bytes)
    → ends_outside before ≡ true
    → all_of is_space space ≡ true
    → All IsArgument arguments
    → all_of is_space spaces ≡ true
    → IsLiteral opener inside
    → let call = write_call callee space arguments spaces (write (group opener inside) rest) in
      call_at callee (length arguments) (before ++ call) (length before)
      ≡ some (write (group opener inside) [])
unfolding call_at write_call
call_at-write before callee space arguments spaces opener inside rest outside gap h s literal =
    let behind = write_arguments arguments (spaces ++ write (group opener inside) rest) in
    let tail = space ++ (b'(' ∷ behind) in
    let dropped : drop (length before + length callee) (before ++ (callee ++ tail)) ≡ tail =
      drop-drop (length before) (length callee) (before ++ (callee ++ tail))
      ∙ (ap (drop (length callee)) (drop-append before (callee ++ tail))
          ∙ drop-append callee tail) in
    rw
      (
        outside_identifier before callee tail outside (no_identifier space behind gap),
        dropped,
        skip_call_trivia-spaces space b'(' behind gap (unfold is_space in refl) refl,
      )
      (argument_at-write arguments spaces opener inside rest h s literal)

-- find_json_call_argument gives the literal that stands behind the other arguments in the first
-- occurrence of the callee, whole and alone: nested calls, strings and comments in the arguments
-- before it do not count as arguments. Those arguments begin with no comment and hold no slash outside
-- of strings and comments.
pub find_json_call_argument-write :
    (before callee space : Bytes) (arguments : List Argument) (spaces : Bytes) (opener : ℕ)
    (inside : Pieces) (rest : Bytes)
    → 0 < length callee
    → ends_outside before ≡ true
    → all_of is_space space ≡ true
    → All IsArgument arguments
    → all_of is_space spaces ≡ true
    → IsLiteral opener inside
    → let call = write_call callee space arguments spaces (write (group opener inside) rest) in
      index_of callee (before ++ call) ≡ some (length before)
      → find_json_call_argument callee (length arguments) (before ++ call)
        ≡ write (group opener inside) []
unfolding find_json_call_argument
find_json_call_argument-write before callee space arguments spaces opener inside rest named outside
      gap h s literal first =
    let call = write_call callee space arguments spaces (write (group opener inside) rest) in
    let text = before ++ call in
    let some_name : (length callee == 0) ≡ false = ground (arith, named) in
    rw some_name (
      search_from_first (call_at callee (length arguments) text) 1 callee text (length text)
        (index_from_zero callee text first)
        (call_at-write before callee space arguments spaces opener inside rest outside gap h s
          literal))

-- find_json_call_argument tries the callee at every position of the text in turn, overlapping
-- occurrences included, and gives what the first position where a call is found has as its argument.
pub find_json_call_argument-first_try :
    (callee : Bytes) (index : ℕ) (text : Bytes)
    → 0 < length callee
    → find_json_call_argument callee index text
      ≡ first_try (call_at callee index text) callee text (length text) 0
unfolding find_json_call_argument
find_json_call_argument-first_try callee index text named =
    let some_name : (length callee == 0) ≡ false = ground (arith, named) in
    rw some_name (
      search_from-first_try (call_at callee index text) callee text (length text)
        (suc (length text)) 0 named (omega arith) (omega arith))
