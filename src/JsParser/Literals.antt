-- ===== src/JsParser/Literals.antt =====
-- The scans read a written piece and go on behind it.
use aniparse.Prelude.{
  ℕ, ◌-◌, Bool, true, false, not, ◌&&◌, ◌||◌, List, [], ◌∷◌, ◌++◌, Option, some, ◌≡◌, refl, ◌∙◌,
  arith, ◌==◌, Bytes, all_of, length,
}
use aniparse.JsParser.{
  is_quote, closer_of, Turn, go, ended, go_on, skip_or, pop_balanced, bracket_balanced,
  pop_argument, bracket_argument, next_turn, turn, scan, length_before, scan_balanced,
  scan_call_argument,
}
use aniparse.JsParser.Turns.{
  Brackets, turn-Shrinks, scan_fuel, next_turn-agree, bracket_balanced-Brackets,
  bracket_argument-Brackets,
}
use aniparse.JsParser.Pieces.{
  Part, Piece, Pieces, plain, string, line_comment, block_comment, group, done, piece, write,
  write_all, is_piece, are_pieces, write_parts, is_part, has_no_end, is_not_newline,
  skip_string-write, skip_line-write, skip_block-write,
}

abbrev pub is_inside : List ℕ → Bool
is_inside [] = false
is_inside (closer ∷ closers) = true

-- With enough fuel.
unfoldable run : (List ℕ → ℕ → Bytes → Turn) → List ℕ → Bytes → Option Bytes
run bracket closers text = scan bracket (length text) closers text

module _ (bracket : List ℕ → ℕ → Bytes → Turn) (h : Brackets bracket) where
  run_step :
      (closers : List ℕ) (c : ℕ) (rest : Bytes)
      → run bracket closers (c ∷ rest) ≡ next_turn (run bracket) (turn bracket closers c rest)
  unfolding run scan
  run_step closers c rest =
      next_turn-agree (scan bracket (length rest)) (run bracket) (length rest)
        (turn bracket closers c rest) (turn-Shrinks bracket h closers c rest)
        λ next after s. scan_fuel bracket h (length rest) (length after) next after s (omega arith)

  run_go :
      (closers next : List ℕ) (c : ℕ) (rest after : Bytes)
      → turn bracket closers c rest ≡ go next after
      → run bracket closers (c ∷ rest) ≡ run bracket next after
  unfolding next_turn
  run_go closers next c rest after e = rw (run_step closers c rest, e) refl

string_turn :
    (bracket : List ℕ → ℕ → Bytes → Turn) (closers : List ℕ) (quote : ℕ) (parts : List Part)
    (rest : Bytes)
    → (is_quote quote && all_of (is_part quote) parts) ≡ true
    → turn bracket closers quote (write_parts parts (quote ∷ rest)) ≡ go closers rest
unfolding turn skip_or go_on
string_turn bracket closers quote parts rest h =
    let is : is_quote quote ≡ true = ground (arith, h) in
    let fine : (quote == 92) ≡ false = unfold is_quote in ground (arith, is) in
    rw (is, skip_string-write quote parts rest fine (ground (arith, h))) refl

comment_turns :
    (bracket : List ℕ → ℕ → Bytes → Turn) (closers : List ℕ) (text rest : Bytes)
    → (all_of is_not_newline text ≡ true
        → turn bracket closers b'/' (b'/' ∷ (text ++ (10 ∷ rest))) ≡ go closers rest)
      × (has_no_end text ≡ true
          → turn bracket closers b'/' (b'*' ∷ (text ++ (b'*' ∷ b'/' ∷ rest))) ≡ go closers rest)
unfolding turn skip_or go_on is_quote
comment_turns bracket closers text rest =
    (λ h. rw (skip_line-write text rest h) refl, λ h. rw (skip_block-write text rest h) refl)

-- A scan, with what it takes as a plain character and as the opening of a group.
module _ (bracket : List ℕ → ℕ → Bytes → Turn) (h : Brackets bracket)
    (is_plain opens : Bool → ℕ → Bool)
    (on_plain : (closers : List ℕ) (c : ℕ) (rest : Bytes)
      → is_plain (is_inside closers) c ≡ true
      → turn bracket closers c rest ≡ go closers rest)
    (on_open : (closers : List ℕ) (c : ℕ) (rest : Bytes)
      → opens (is_inside closers) c ≡ true
      → turn bracket closers c rest ≡ go (closer_of c ∷ closers) rest)
    (on_close : (closers : List ℕ) (c : ℕ) (rest : Bytes)
      → opens (is_inside closers) c ≡ true
      → turn bracket (closer_of c ∷ closers) (closer_of c) rest ≡ go closers rest) where
  mutual
    unfolding write is_piece

    run-write :
        (p : Piece) (closers : List ℕ) (rest : Bytes)
        → is_piece is_plain opens (is_inside closers) p ≡ true
        → run bracket closers (write p rest) ≡ run bracket closers rest
    run-write (plain c) closers rest t =
        run_go bracket h closers closers c rest rest (on_plain closers c rest t)
    run-write (string quote parts) closers rest t =
        run_go bracket h closers closers quote _ rest
          (string_turn bracket closers quote parts rest t)
    run-write (line_comment text) closers rest t =
        run_go bracket h closers closers b'/' _ rest ((comment_turns bracket closers text rest).0 t)
    run-write (block_comment text) closers rest t =
        run_go bracket h closers closers b'/' _ rest ((comment_turns bracket closers text rest).1 t)
    run-write (group opener inside) closers rest t =
        let opened : opens (is_inside closers) opener ≡ true = ground (arith, t) in
        run_go bracket h closers (closer_of opener ∷ closers) opener _ _
          (on_open closers opener _ opened)
        ∙ (run-write_all inside (closer_of opener ∷ closers) (closer_of opener ∷ rest)
              (ground (arith, t))
            ∙ run_go bracket h (closer_of opener ∷ closers) closers (closer_of opener) rest rest
                (on_close closers opener rest opened))

    run-write_all :
        (ps : Pieces) (closers : List ℕ) (rest : Bytes)
        → are_pieces is_plain opens (is_inside closers) ps ≡ true
        → run bracket closers (write_all ps rest) ≡ run bracket closers rest
    run-write_all done closers rest t = refl
    run-write_all (piece p ps) closers rest t =
        run-write p closers (write_all ps rest) (ground (arith, t))
        ∙ run-write_all ps closers rest (ground (arith, t))

-- For `scan_balanced` parentheses are plain, and a group stands inside a bracket only.
unfoldable pub is_balanced_plain : Bool → ℕ → Bool
is_balanced_plain inner c =
    not (is_quote c)
    && not (c == b'/')
    && not (c == b'{' || c == b'[')
    && not (c == b'}' || c == b']')

unfoldable pub is_balanced_open : Bool → ℕ → Bool
is_balanced_open inner c = inner && (c == b'{' || c == b'[')

-- For `scan_call_argument` a comma is plain inside a bracket only.
unfoldable pub is_argument_plain : Bool → ℕ → Bool
is_argument_plain inner c =
    not (is_quote c)
    && not (c == b'/')
    && not (c == b'{' || c == b'[' || c == b'(')
    && not (c == b'}' || c == b']' || c == b')')
    && (inner || not (c == b','))

unfoldable pub is_argument_open : Bool → ℕ → Bool
is_argument_open inner c = c == b'{' || c == b'[' || c == b'('

balanced_plain :
    (closers : List ℕ) (c : ℕ) (rest : Bytes)
    → is_balanced_plain (is_inside closers) c ≡ true
    → turn bracket_balanced closers c rest ≡ go closers rest
unfolding turn skip_or bracket_balanced is_balanced_plain
balanced_plain closers c rest t = ground (arith, t)

balanced_open :
    (closers : List ℕ) (c : ℕ) (rest : Bytes)
    → (c == b'{' || c == b'[') ≡ true
    → turn bracket_balanced closers c rest ≡ go (closer_of c ∷ closers) rest
unfolding turn skip_or bracket_balanced is_quote
balanced_open closers c rest t = ground (arith, t)

balanced_close :
    (closers : List ℕ) (c : ℕ) (rest : Bytes)
    → is_balanced_open (is_inside closers) c ≡ true
    → turn bracket_balanced (closer_of c ∷ closers) (closer_of c) rest ≡ go closers rest
unfolding turn skip_or bracket_balanced pop_balanced is_quote is_balanced_open closer_of
balanced_close [] c rest t = absurd (ground (arith, t))
balanced_close (closer ∷ closers) c rest t = ground (arith, t)

balanced_end :
    (c : ℕ) (rest : Bytes)
    → (c == b'{' || c == b'[') ≡ true
    → turn bracket_balanced (closer_of c ∷ []) (closer_of c) rest ≡ ended rest
unfolding turn skip_or bracket_balanced pop_balanced is_quote closer_of
balanced_end c rest t = ground (arith, t)

argument_plain :
    (closers : List ℕ) (c : ℕ) (rest : Bytes)
    → is_argument_plain (is_inside closers) c ≡ true
    → turn bracket_argument closers c rest ≡ go closers rest
unfolding turn skip_or bracket_argument is_argument_plain
argument_plain [] c rest t = ground (arith, t)
argument_plain (closer ∷ closers) c rest t = ground (arith, t)

argument_open :
    (closers : List ℕ) (c : ℕ) (rest : Bytes)
    → is_argument_open (is_inside closers) c ≡ true
    → turn bracket_argument closers c rest ≡ go (closer_of c ∷ closers) rest
unfolding turn skip_or bracket_argument is_quote is_argument_open
argument_open closers c rest t = ground (arith, t)

argument_close :
    (closers : List ℕ) (c : ℕ) (rest : Bytes)
    → is_argument_open (is_inside closers) c ≡ true
    → turn bracket_argument (closer_of c ∷ closers) (closer_of c) rest ≡ go closers rest
unfolding turn skip_or bracket_argument pop_argument is_quote is_argument_open closer_of
argument_close closers c rest t = ground (arith, t)

-- An object or an array, whatever stands in it.
abbrev pub IsLiteral : ℕ → Pieces → Type 0
IsLiteral opener inside =
    ((opener == b'{' || opener == b'[') ≡ true)
    × (are_pieces is_balanced_plain is_balanced_open true inside ≡ true)

-- The scan of a literal stops right behind it.
pub scan-literal :
    (opener : ℕ) (inside : Pieces) (rest : Bytes)
    → IsLiteral opener inside
    → let text = write (group opener inside) rest in
      scan bracket_balanced (length text) [] text ≡ some rest
unfolding run write next_turn
scan-literal opener inside rest (opens, fine) =
    let brackets = bracket_balanced-Brackets in
    run_go bracket_balanced brackets [] (closer_of opener ∷ []) opener _ _
      (balanced_open [] opener _ opens)
    ∙ (run-write_all bracket_balanced brackets is_balanced_plain is_balanced_open balanced_plain
          (λ closers c after t.
            balanced_open closers c after (unfold is_balanced_open in ground (arith, t)))
          balanced_close inside (closer_of opener ∷ []) (closer_of opener ∷ rest) fine
        ∙ (run_step bracket_balanced brackets (closer_of opener ∷ []) (closer_of opener) rest
            ∙ rw (balanced_end opener rest opens) refl))

-- scan_balanced measures a literal exactly: an object or an array whose strings, comments and inner
-- brackets may hold anything that closes, with any text behind it.
pub scan_balanced-write :
    (opener : ℕ) (inside : Pieces) (rest : Bytes)
    → IsLiteral opener inside
    → scan_balanced (write (group opener inside) rest)
      ≡ length (write (group opener inside) rest) - length rest
unfolding scan_balanced length_before
scan_balanced-write opener inside rest h = rw (scan-literal opener inside rest h) refl

-- scan_call_argument steps over an argument up to the comma or the parenthesis behind it: commas and
-- parentheses in its strings, comments and brackets do not end it.
pub scan_call_argument-write :
    (argument : Pieces) (delimiter : ℕ) (rest : Bytes)
    → are_pieces is_argument_plain is_argument_open false argument ≡ true
    → (delimiter == b',' || delimiter == b')') ≡ true
    → scan_call_argument (write_all argument (delimiter ∷ rest)) ≡ some (delimiter ∷ rest)
unfolding scan_call_argument run next_turn turn skip_or bracket_argument pop_argument is_quote
scan_call_argument-write argument delimiter rest fine delimits =
    run-write_all bracket_argument bracket_argument-Brackets is_argument_plain is_argument_open
      argument_plain argument_open argument_close argument [] (delimiter ∷ rest) fine
    ∙ (run_step bracket_argument bracket_argument-Brackets [] delimiter rest
        ∙ ground (arith, delimits))
