-- ===== src/JsParser/Pieces.antt =====
-- A grammar of JavaScript text as the scans read it: characters, string literals, comments and
-- bracketed groups. `write` puts a piece before a rest.
use aniparse.Prelude.{
  ℕ, Bool, true, false, not, ◌&&◌, List, [], ◌∷◌, ◌++◌, some, ◌≡◌, refl, arith, ◌==◌, Bytes, all_of,
}
use aniparse.JsParser.{is_quote, closer_of, next_is, skip_string, skip_line, skip_block}

-- A character of a string literal, or one behind a backslash.
pub data Part : Type 0 where
  char escaped : ℕ → Part

mutual
  pub data Piece : Type 0 where
    plain : ℕ → Piece
    string : ℕ → List Part → Piece
    line_comment block_comment : Bytes → Piece
    group : ℕ → Pieces → Piece

  pub data Pieces : Type 0 where
    done : Pieces
    piece : Piece → Pieces → Pieces

unfoldable pub write_parts : List Part → Bytes → Bytes
write_parts [] rest = rest
write_parts (char c ∷ parts) rest = c ∷ write_parts parts rest
write_parts (escaped c ∷ parts) rest = 92 ∷ c ∷ write_parts parts rest

unfoldable mutual
  pub write : Piece → Bytes → Bytes
  write (plain c) rest = c ∷ rest
  write (string quote parts) rest = quote ∷ write_parts parts (quote ∷ rest)
  write (line_comment text) rest = b'/' ∷ b'/' ∷ (text ++ (10 ∷ rest))
  write (block_comment text) rest = b'/' ∷ b'*' ∷ (text ++ (b'*' ∷ b'/' ∷ rest))
  write (group opener inside) rest = opener ∷ write_all inside (closer_of opener ∷ rest)

  pub write_all : Pieces → Bytes → Bytes
  write_all done rest = rest
  write_all (piece p ps) rest = write p (write_all ps rest)

unfoldable pub is_part : ℕ → Part → Bool
is_part quote (char c) = not (c == 92) && not (c == quote)
is_part quote (escaped c) = true

-- No `*/` stands inside.
unfoldable pub has_no_end : Bytes → Bool
has_no_end [] = true
has_no_end (c ∷ text) = not (c == b'*' && next_is b'/' text) && has_no_end text

unfoldable pub is_not_newline : ℕ → Bool
is_not_newline c = not (c == 10)

-- The pieces of a scan, which says what is a plain character and what opens a group, outside every
-- bracket and inside one.
module _ (is_plain opens : Bool → ℕ → Bool) where
  unfoldable mutual
    pub is_piece : Bool → Piece → Bool
    is_piece inner (plain c) = is_plain inner c
    is_piece inner (string quote parts) = is_quote quote && all_of (is_part quote) parts
    is_piece inner (line_comment text) = all_of is_not_newline text
    is_piece inner (block_comment text) = has_no_end text
    is_piece inner (group opener inside) = opens inner opener && are_pieces true inside

    pub are_pieces : Bool → Pieces → Bool
    are_pieces inner done = true
    are_pieces inner (piece p ps) = is_piece inner p && are_pieces inner ps

pub skip_string-write :
    (quote : ℕ) (parts : List Part) (rest : Bytes)
    → (quote == 92) ≡ false
    → all_of (is_part quote) parts ≡ true
    → skip_string quote false (write_parts parts (quote ∷ rest)) ≡ some rest
unfolding skip_string write_parts all_of is_part
skip_string-write quote [] rest p h = ground (arith, p)
skip_string-write quote (char c ∷ parts) rest p h =
    ground (arith, h, skip_string-write quote parts rest p (ground (arith, h)))
skip_string-write quote (escaped c ∷ parts) rest p h =
    ground (arith, h, skip_string-write quote parts rest p h)

pub skip_line-write :
    (text rest : Bytes)
    → all_of is_not_newline text ≡ true
    → skip_line (text ++ (10 ∷ rest)) ≡ 10 ∷ rest
unfolding skip_line all_of is_not_newline
skip_line-write [] rest h = refl
skip_line-write (c ∷ text) rest h = ground (arith, h, skip_line-write text rest (ground (arith, h)))

next_is-write :
    (c : ℕ) (text rest : Bytes)
    → (c == b'*' && next_is b'/' text) ≡ false
    → (c == b'*' && next_is b'/' (text ++ (b'*' ∷ b'/' ∷ rest))) ≡ false
next_is-write c [] rest h = ground arith
next_is-write c (d ∷ text) rest h = h

pub skip_block-write :
    (text rest : Bytes)
    → has_no_end text ≡ true
    → skip_block (text ++ (b'*' ∷ b'/' ∷ rest)) ≡ some rest
unfolding skip_block has_no_end
skip_block-write [] rest h = refl
skip_block-write (c ∷ text) rest h = ground (
  arith,
  h,
  next_is-write c text rest (ground (arith, h)),
  skip_block-write text rest (ground (arith, h)),
)
