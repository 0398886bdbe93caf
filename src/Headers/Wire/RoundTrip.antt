-- ===== src/Headers/Wire/RoundTrip.antt =====
-- A block that is written from headers is read back.
use aniparse.Prelude.{
  false, List, [], ◌∷◌, ◌++◌, map, append-nil, append_assoc, some, ◌≡◌, refl, ap, sym, ◌∙◌, ◌≢◌,
  arith, ◌==◌, Bytes, codes, length, length-append, All, All-append,
}
use aniparse.Domains.Labels.{push_front}
use aniparse.Headers.{Header, Headers, append}
use aniparse.Headers.Wire.{
  header_line, to_header_lines, lines, without_return, cut_colon, trim_front, trim,
  parse_header_line, parse_lines, parse_header_block,
}

-- The lines, each ended by a carriage return and a line feed.
unfoldable pub wire : List Bytes → Bytes
wire [] = []
wire (l ∷ ls) = l ++ (b'\r' ∷ b'\n' ∷ wire ls)

-- A name that is not empty and has neither a colon nor a line feed, and a value without a line feed
-- and without whitespace at its ends.
pub record IsHeader (h : Header) : Type 0 where
  pub named : h.0 ≢ []
  pub no_colon : All (λ c. c ≢ b':') h.0
  pub name_line : All (λ c. c ≢ b'\n') h.0
  pub value_line : All (λ c. c ≢ b'\n') h.1
  pub trimmed : trim h.1 ≡ h.1

lines-append :
    (l rest : Bytes) → All (λ c. c ≢ b'\n') l → lines (l ++ (b'\n' ∷ rest)) ≡ l ∷ lines rest
unfolding lines push_front
lines-append [] rest h = refl
lines-append (c ∷ l) rest h = ground (arith, h.0, lines-append l rest h.1)

without_return-append : (l : Bytes) → without_return (l ++ b'\r' ∷ []) ≡ l
unfolding without_return
without_return-append [] = refl
without_return-append (c ∷ l) =
    ground (arith, without_return-append l, length-append l (b'\r' ∷ []))

cut_colon-append :
    (name rest : Bytes)
    → All (λ c. c ≢ b':') name
    → cut_colon (name ++ (b':' ∷ rest)) ≡ some (name, rest)
unfolding cut_colon
cut_colon-append [] rest h = refl
cut_colon-append (c ∷ name) rest h = ground (arith, cut_colon-append name rest h.1, h.0)

length-ne-zero : (s : Bytes) → s ≢ [] → (length s == 0) ≡ false
length-ne-zero [] h = absurd (h refl)
length-ne-zero (c ∷ s) h = ground arith

parse_header_line-wire :
    (name value : Bytes)
    → IsHeader (name, value)
    → parse_header_line (header_line (name, value) ++ b'\r' ∷ []) ≡ some (name, value)
unfolding parse_header_line
parse_header_line-wire name value h =
    let kept : trim (b' ' ∷ value) ≡ value = unfold trim trim_front in h.trimmed in
    rw
      (
        without_return-append (header_line (name, value)),
        cut_colon-append name (b' ' ∷ value) h.no_colon,
        length-ne-zero name h.named,
      )
      (ap (λ v. some (name, v)) kept)

line_lem :
    (name value : Bytes)
    → IsHeader (name, value)
    → All (λ c. c ≢ b'\n') (header_line (name, value) ++ b'\r' ∷ [])
line_lem name value h =
    All-append (λ c. c ≢ b'\n') (header_line (name, value)) (b'\r' ∷ [])
      (All-append (λ c. c ≢ b'\n') name (codes ": " ++ value) h.name_line
        (omega arith, (omega arith, h.value_line)))
      (omega arith, tt)

parse_lines-wire :
    (hs before : Headers)
    → All IsHeader hs
    → parse_lines (lines (wire (to_header_lines hs))) before ≡ before ++ hs
unfolding parse_lines wire to_header_lines append
parse_lines-wire [] before h = unfold lines in sym (append-nil before)
parse_lines-wire ((name, value) ∷ hs) before h =
    let rest : Bytes = wire (map header_line hs) in
    let line : Bytes = header_line (name, value) ++ b'\r' ∷ [] in
    let cut : lines (header_line (name, value) ++ (b'\r' ∷ b'\n' ∷ rest)) ≡ line ∷ lines rest =
      ap lines (sym (append_assoc (header_line (name, value)) (b'\r' ∷ []) (b'\n' ∷ rest)))
      ∙ lines-append line rest (line_lem name value h.0) in
    ap (λ ls. parse_lines ls before) cut
    ∙ rw (parse_header_line-wire name value h.0, parse_lines)
        (parse_lines-wire hs (before ++ (name, value) ∷ []) h.1
          ∙ append_assoc before ((name, value) ∷ []) hs)

-- Headers whose names are not empty and have no colon and no line feed, and whose values have no line
-- feed and no whitespace at their ends, are read back, in their order and with repeated names, from the
-- block of their lines, each ended by a carriage return and a line feed.
pub parse_header_block-to_header_lines :
    (hs : Headers) → All IsHeader hs → parse_header_block (wire (to_header_lines hs)) ≡ hs
unfolding parse_header_block
parse_header_block-to_header_lines hs h = parse_lines-wire hs [] h
