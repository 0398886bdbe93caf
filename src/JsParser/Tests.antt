-- ===== src/JsParser/Tests.antt =====
-- A script with a variable, a call and a rewritten string.
use aniparse.Prelude.{[], ◌∷◌, ◌++◌, ◌≡◌, refl, arith, Bytes, codes, is_digit, has_prefix, all_of}
use aniparse.UrlPath.{index_of}
use aniparse.JsParser.{next_is, closer_of, is_space, scan_balanced}
use aniparse.JsParser.Pieces.{
  Pieces, char, escaped, plain, string, block_comment, group, done, piece, write, write_parts,
  is_piece, is_part, has_no_end,
}
use aniparse.JsParser.Literals.{
  IsLiteral, is_balanced_plain, is_balanced_open, is_argument_plain, is_argument_open,
}
use aniparse.JsParser.Assignments.{ends_outside, find_json_var-write}
use aniparse.JsParser.Calls.{
  Argument, write_arguments, write_call, starts_solid, IsArgument, find_json_call_argument-write,
}
use aniparse.JsParser.Find.{find_json_var, find_json_call_argument}
use aniparse.JsParser.Transcode.{normalize}
use aniparse.JsParser.Transcode.Idempotence.{normalize-normalize}
use aniparse.JsParser.Transcode.Strings.{read_string, followed, normalize-string}

-- `{'}',[/*]*/1]}`
abbrev inside : Pieces
inside = piece (string 39 (char b'}' ∷ escaped 39 ∷ [])) (
    piece (plain b',')
      (piece (group b'[' (piece (block_comment (b']' ∷ [])) (piece (plain b'1') done))) done))

inside-IsLiteral : IsLiteral b'{' inside
unfolding is_piece is_balanced_plain is_balanced_open is_part has_no_end all_of
    aniparse.JsParser.is_quote
inside-IsLiteral = (refl, refl)

find_json_var-write_example :
    find_json_var (codes "data") (
      codes "var "
      ++ (codes "data" ++ (codes " " ++ (b'=' ∷ ([] ++ write (group b'{' inside) (codes ";"))))))
    ≡ write (group b'{' inside) []
find_json_var-write_example =
    find_json_var-write (codes "data") (codes "var ") (codes " ") b'=' [] b'{' inside (codes ";")
      (omega arith) (unfold ends_outside aniparse.JsParser.is_ident_char is_digit in refl)
      (unfold all_of is_space in refl, refl, unfold all_of in refl) inside-IsLiteral
      (unfold index_of has_prefix write write_parts closer_of in refl)

-- The argument `f(",")`.
abbrev call_before : Argument
call_before = record {
  space = [];
  body = piece (plain b'f') (piece (group b'(' (piece (string 34 (char b',' ∷ [])) done)) done);
}

call_before-IsArgument : IsArgument call_before
unfolding is_piece is_argument_plain is_argument_open is_part all_of aniparse.JsParser.is_quote
    starts_solid is_space
call_before-IsArgument = (refl, refl, refl)

find_json_call_argument-write_example :
    find_json_call_argument (codes "init") 1 (
      codes "p."
      ++ write_call
          (codes "init")
          []
          (call_before ∷ [])
          (codes " ")
          (write (group b'{' inside) (codes ");")))
    ≡ write (group b'{' inside) []
find_json_call_argument-write_example =
    find_json_call_argument-write (codes "p.") (codes "init") [] (call_before ∷ []) (codes " ") b'{'
      inside (codes ");") (omega arith)
      (unfold ends_outside aniparse.JsParser.is_ident_char is_digit in refl) (unfold all_of in refl)
      (call_before-IsArgument, tt) (unfold all_of is_space in refl) inside-IsLiteral
      (unfold index_of has_prefix write write_parts closer_of write_call write_arguments in refl)

-- `'a"b\'c', 'd'`
abbrev quoted : Bytes
quoted = b'a' ∷ 34 ∷ b'b' ∷ 92 ∷ 39 ∷ b'c' ∷ 39 ∷ codes ", 'd'"

normalize-quoted :
    normalize (39 ∷ quoted)
    ≡ 34 ∷ b'a' ∷ 92 ∷ 34 ∷ b'b' ∷ 39 ∷ b'c' ∷ 34 ∷ b',' ∷ 32 ∷ 34 ∷ b'd' ∷ 34 ∷ []
unfolding normalize
normalize-quoted = refl

normalize-string_example :
    (t : Bytes) × (normalize (39 ∷ quoted) ≡ 34 ∷ t)
    × (read_string 34 t ≡ followed (read_string 39 quoted))
normalize-string_example = normalize-string quoted

normalize-normalize_example : normalize (normalize (39 ∷ quoted)) ≡ normalize (39 ∷ quoted)
normalize-normalize_example = normalize-normalize (39 ∷ quoted)
