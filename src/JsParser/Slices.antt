-- ===== src/JsParser/Slices.antt =====
-- A written literal is cut out of the text whole.
use aniparse.Prelude.{
  ℕ, ◌-◌, true, ◌||◌, List, [], ◌∷◌, ◌++◌, append_assoc, some, ◌≡◌, refl, ap, sym, ◌∙◌, arith, ◌==◌,
  Bytes, length, length-append, take-append,
}
use aniparse.JsParser.{closer_of, scan_balanced}
use aniparse.JsParser.Pieces.{
  Piece, Pieces, plain, string, line_comment, block_comment, group, done, piece, write, write_all,
  write_parts, Part, char, escaped,
}
use aniparse.JsParser.Literals.{IsLiteral, scan_balanced-write}
use aniparse.JsParser.Find.{literal_at}

write_parts-append :
    (parts : List Part) (front rest : Bytes)
    → write_parts parts (front ++ rest) ≡ write_parts parts front ++ rest
unfolding write_parts
write_parts-append [] front rest = refl
write_parts-append (char c ∷ parts) front rest = ap (◌∷◌ c) (write_parts-append parts front rest)
write_parts-append (escaped c ∷ parts) front rest =
    ap (λ s. 92 ∷ c ∷ s) (write_parts-append parts front rest)

mutual
  unfolding write

  pub write-append :
      (p : Piece) (front rest : Bytes) → write p (front ++ rest) ≡ write p front ++ rest
  write-append (plain c) front rest = refl
  write-append (string quote parts) front rest =
      ap (◌∷◌ quote) (write_parts-append parts (quote ∷ front) rest)
  write-append (line_comment text) front rest =
      ap (λ s. b'/' ∷ b'/' ∷ s) (sym (append_assoc text (10 ∷ front) rest))
  write-append (block_comment text) front rest =
      ap (λ s. b'/' ∷ b'*' ∷ s) (sym (append_assoc text (b'*' ∷ b'/' ∷ front) rest))
  write-append (group opener inside) front rest =
      ap (◌∷◌ opener) (write_all-append inside (closer_of opener ∷ front) rest)

  pub write_all-append :
      (ps : Pieces) (front rest : Bytes) → write_all ps (front ++ rest) ≡ write_all ps front ++ rest
  write_all-append done front rest = refl
  write_all-append (piece p ps) front rest =
      ap (write p) (write_all-append ps front rest) ∙ write-append p (write_all ps front) rest

cut_literal :
    (opener : ℕ) (tail rest : Bytes)
    → (opener == b'{' || opener == b'[') ≡ true
    → scan_balanced (opener ∷ (tail ++ rest)) ≡ length (opener ∷ (tail ++ rest)) - length rest
    → literal_at (opener ∷ (tail ++ rest)) ≡ some (opener ∷ tail)
unfolding literal_at
cut_literal opener tail rest opens size =
    let whole : scan_balanced (opener ∷ (tail ++ rest)) ≡ length (opener ∷ tail) =
      omega (arith, size, length-append {0} tail rest) in
    rw (whole, opens, take-append tail rest) (ground arith)

-- A literal is cut out whole.
pub literal_at-write :
    (opener : ℕ) (inside : Pieces) (rest : Bytes)
    → IsLiteral opener inside
    → literal_at (write (group opener inside) rest) ≡ some (write (group opener inside) [])
unfolding write
literal_at-write opener inside rest h =
    let same = write_all-append inside (closer_of opener ∷ []) rest in
    let size : scan_balanced (opener ∷ write_all inside (closer_of opener ∷ rest)) ≡ _ =
      scan_balanced-write opener inside rest h in
    rw same
      (cut_literal opener (write_all inside (closer_of opener ∷ [])) rest h.0 (rw same at size))
