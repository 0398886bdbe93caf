-- ===== src/Headers/Wire.antt =====
-- Headers as lines of bytes: `to_header_lines` and `parse_header_block` of src/types/Headers.cpp.
pub mod RoundTrip
use aniparse.Prelude.{
  ◌>>=◌, ℕ, Bool, ◌&&◌, ◌||◌, List, [], ◌∷◌, ◌++◌, map, Option, none, some, ◌==◌, Bytes, codes,
  if◌then◌else◌, length,
}
use aniparse.Domains.Labels.{push_front}
use aniparse.Headers.{Header, Headers, append}

abbrev pub header_line : Header → Bytes
header_line (name, value) = name ++ (codes ": " ++ value)

unfoldable pub to_header_lines : Headers → List Bytes
to_header_lines headers = map header_line headers

-- The lines of a block; a last line needs no line feed.
unfoldable pub lines : Bytes → List Bytes
lines [] = []
lines (c ∷ s) = let rest = lines s in if c == b'\n' then [] ∷ rest else push_front c rest

-- Without a carriage return at the end.
unfoldable pub without_return : Bytes → Bytes
without_return [] = []
without_return (c ∷ s) =
    let rest = without_return s in if c == b'\r' && length s == 0 then [] else c ∷ rest

-- `line.find(':')`, with what stands before and behind it.
unfoldable pub cut_colon : Bytes → Option (Bytes × Bytes)
cut_colon [] = none
cut_colon (c ∷ s) =
    let rest = cut_colon s in if c == b':' then some ([], s) else (do p ← rest; some (c ∷ p.0, p.1))

-- Optional whitespace.
abbrev pub is_ows : ℕ → Bool
is_ows c = c == b' ' || c == b'\t'

unfoldable pub trim_front : Bytes → Bytes
trim_front [] = []
trim_front (c ∷ s) = let rest = trim_front s in if is_ows c then rest else c ∷ s

unfoldable pub trim_back : Bytes → Bytes
trim_back [] = []
trim_back (c ∷ s) = let rest = trim_back s in if length rest == 0 && is_ows c then [] else c ∷ rest

unfoldable pub trim : Bytes → Bytes
trim value = trim_back (trim_front value)

unfoldable pub parse_header_line : Bytes → Option Header
parse_header_line line = do
  cut ← cut_colon (without_return line)
  if length cut.0 == 0 then none else some (cut.0, trim cut.1)

-- The loop, over the lines that are left.
unfoldable pub parse_lines : List Bytes → Headers → Headers
parse_lines [] headers = headers
parse_lines (line ∷ rest) headers = elim (parse_header_line line) [
  | none ↦ parse_lines rest headers
  | some (name, value) ↦ parse_lines rest (append name value headers)
]

unfoldable pub parse_header_block : Bytes → Headers
parse_header_block block = parse_lines (lines block) []
