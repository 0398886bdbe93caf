-- ===== src/JsParser/Assignments.antt =====
-- What `find_json_var` finds.
use aniparse.Prelude.{
  ℕ, zero, suc, ◌+◌, ◌-◌, ◌<◌, Bool, true, false, not, ◌&&◌, ◌||◌, [], ◌∷◌, ◌++◌, append_assoc,
  some, ◌≡◌, refl, ap, sym, ◌∙◌, arith, ◌==◌, ltb, Bytes, is_digit, all_of, length, length-append,
  get_or, drop, drop-append, ◌>>=◌,
}
use aniparse.UrlPath.{index_of, index_from}
use aniparse.UrlPath.Segments.{drop-drop}
use aniparse.JsParser.{is_ident_char, is_space, closer_of}
use aniparse.JsParser.Pieces.{Pieces, group, write, write_all}
use aniparse.JsParser.Literals.{IsLiteral}
use aniparse.JsParser.Occurrences.{search_from_first}
use aniparse.JsParser.Find.{
  inside_identifier, skip_spaces, skip_key_quote, skip_separator, literal_at, var_at, find_json_var,
}
use aniparse.JsParser.Slices.{literal_at-write}

skip_spaces-append :
    (spaces : Bytes) (c : ℕ) (rest : Bytes)
    → all_of is_space spaces ≡ true
    → is_space c ≡ false
    → skip_spaces (spaces ++ (c ∷ rest)) ≡ c ∷ rest
unfolding skip_spaces all_of
skip_spaces-append [] c rest h p = ground (arith, p)
skip_spaces-append (d ∷ spaces) c rest h p =
    ground (arith, h, skip_spaces-append spaces c rest (ground (arith, h)) p)

skip_spaces_none : (c : ℕ) (rest : Bytes) → is_space c ≡ false → skip_spaces (c ∷ rest) ≡ c ∷ rest
unfolding skip_spaces
skip_spaces_none c rest p = ground (arith, p)

-- `=` or `:` between two runs of spaces.
abbrev pub IsSeparator : Bytes → ℕ → Bytes → Type 0
IsSeparator before separator after =
    (all_of is_space before ≡ true)
    × ((separator == b'=' || separator == b':') ≡ true)
    × (all_of is_space after ≡ true)

-- The front of what follows a name is no part of an identifier nor a quote.
unfoldable pub breaks_off : Bytes → Bool
breaks_off [] = true
breaks_off (c ∷ rest) = not (is_ident_char c) && not (c == 34) && not (c == 39)

breaks_off-spaces :
    (spaces : Bytes) (separator : ℕ) (rest : Bytes)
    → all_of is_space spaces ≡ true
    → (separator == b'=' || separator == b':') ≡ true
    → breaks_off (spaces ++ (separator ∷ rest)) ≡ true
unfolding breaks_off all_of is_space is_ident_char is_digit
breaks_off-spaces [] separator rest h p = ground (arith, p)
breaks_off-spaces (c ∷ spaces) separator rest h p = ground (arith, h)

skip_separator-literal :
    (separator : ℕ) (after : Bytes) (opener : ℕ) (rest : Bytes)
    → (separator == b'=' || separator == b':') ≡ true
    → all_of is_space after ≡ true
    → (opener == b'{' || opener == b'[') ≡ true
    → skip_separator (separator ∷ (after ++ (opener ∷ rest))) ≡ some (after ++ (opener ∷ rest))
unfolding skip_separator all_of is_space
skip_separator-literal separator [] opener rest p h o = ground (arith, p, o)
skip_separator-literal separator (c ∷ after) opener rest p h o = ground (arith, p, h)

skip_key_quote_none :
    (text : Bytes) (start : ℕ) (rest : Bytes)
    → breaks_off rest ≡ true
    → skip_key_quote text start rest ≡ rest
unfolding skip_key_quote breaks_off
skip_key_quote_none text start [] h = ground (arith, h)
skip_key_quote_none text start (c ∷ rest) h = ground (arith, h)

get_or-append_left :
    (front rest : Bytes) (k : ℕ) → k < length front → get_or (front ++ rest) k 0 ≡ get_or front k 0
get_or-append_left [] rest k h = absurd (omega (arith, h))
get_or-append_left (c ∷ front) rest zero h = refl
get_or-append_left (c ∷ front) rest (suc k) h = get_or-append_left front rest k (omega (arith, h))

get_or-append_right :
    (front rest : Bytes) → get_or (front ++ rest) (length front) 0 ≡ get_or rest 0 0
get_or-append_right [] rest = refl
get_or-append_right (c ∷ front) rest = get_or-append_right front rest

-- No identifier reaches up to the end of a text.
unfoldable pub ends_outside : Bytes → Bool
ends_outside before =
    length before == 0 || not (is_ident_char (get_or before (length before - 1) 0))

breaks_off-get : (rest : Bytes) → breaks_off rest ≡ true → is_ident_char (get_or rest 0 0) ≡ false
unfolding breaks_off is_ident_char is_digit
breaks_off-get [] h = refl
breaks_off-get (c ∷ rest) h = ground (arith, h)

not_inside :
    (text : Bytes) (start end : ℕ)
    → (0 < start → is_ident_char (get_or text (start - 1) 0) ≡ false)
    → is_ident_char (get_or text end 0) ≡ false
    → inside_identifier text start end ≡ false
unfolding inside_identifier
not_inside text zero end before after = ground (arith, after)
not_inside text (suc start) end before after = ground (arith, after, before (omega arith))

pub outside_identifier :
    (before name rest : Bytes)
    → ends_outside before ≡ true
    → is_ident_char (get_or rest 0 0) ≡ false
    → inside_identifier (before ++ (name ++ rest)) (length before) (length before + length name)
      ≡ false
unfolding ends_outside
outside_identifier before name rest h after =
    let text = before ++ (name ++ rest) in
    let end : get_or text (length before + length name) 0 ≡ get_or rest 0 0 =
      rw (sym (length-append before name), sym (append_assoc before name rest))
        (get_or-append_right (before ++ name) rest) in
    not_inside text (length before) (length before + length name)
      (λ some_left.
        rw (get_or-append_left before (name ++ rest) (length before - 1) (omega (arith, some_left)))
          (ground (arith, h, some_left)))
      (rw end after)

pub not_space :
    (c : ℕ) → ((c == b'=' || c == b':') || (c == b'{' || c == b'[')) ≡ true → is_space c ≡ false
unfolding is_space
not_space c h = ground (arith, h)

value_of-write :
    (spaces : Bytes) (separator : ℕ) (after : Bytes) (opener : ℕ) (inside : Pieces) (rest : Bytes)
    → IsSeparator spaces separator after
    → IsLiteral opener inside
    → (skip_separator
          (skip_spaces (spaces ++ (separator ∷ (after ++ write (group opener inside) rest))))
        >>= λ value. literal_at (skip_spaces value))
      ≡ some (write (group opener inside) [])
value_of-write spaces separator after opener inside rest (h, sep, h') literal =
    let tail = write_all inside (closer_of opener ∷ rest) in
    let opened : write (group opener inside) rest ≡ opener ∷ tail = unfold write in refl in
    let cut = literal_at-write opener inside rest literal in
    rw
      (
        opened,
        skip_spaces-append spaces separator (after ++ (opener ∷ tail)) h
            (not_space separator (ground (arith, sep))),
        skip_separator-literal separator after opener tail sep h' literal.0,
        skip_spaces-append after opener tail h' (not_space opener (ground (arith, literal.0))),
      )
      (rw opened at cut)

var_at-write :
    (name before spaces : Bytes) (separator : ℕ) (after : Bytes) (opener : ℕ) (inside : Pieces)
    (rest : Bytes)
    → ends_outside before ≡ true
    → IsSeparator spaces separator after
    → IsLiteral opener inside
    → let value = write (group opener inside) rest in
      var_at name (before ++ (name ++ (spaces ++ (separator ∷ (after ++ value))))) (length before)
      ≡ some (write (group opener inside) [])
unfolding var_at
var_at-write name before spaces separator after opener inside rest outside (h, sep, h') literal =
    let value = write (group opener inside) rest in
    let tail = spaces ++ (separator ∷ (after ++ value)) in
    let off = breaks_off-spaces spaces separator (after ++ value) h sep in
    let dropped : drop (length before + length name) (before ++ (name ++ tail)) ≡ tail =
      drop-drop (length before) (length name) (before ++ (name ++ tail))
      ∙ (ap (drop (length name)) (drop-append before (name ++ tail)) ∙ drop-append name tail) in
    rw
      (
        outside_identifier before name tail outside (breaks_off-get tail off),
        dropped,
        skip_key_quote_none (before ++ (name ++ tail)) (length before) tail off,
      )
      (value_of-write spaces separator after opener inside rest (h, sep, h') literal)

pub index_from_zero :
    (name text : Bytes) {i : ℕ} → index_of name text ≡ some i → index_from name text 0 ≡ some i
unfolding index_from
index_from_zero name text h =
    let fits : ltb (length text) 0 ≡ false = ground arith in rw (fits, h) (ap some (omega arith))

-- find_json_var gives the literal that is assigned to the first occurrence of the name, whole and
-- alone: no identifier ends right before the name, and only spaces stand around the `=` or the `:`.
pub find_json_var-write :
    (name before spaces : Bytes) (separator : ℕ) (after : Bytes) (opener : ℕ) (inside : Pieces)
    (rest : Bytes)
    → 0 < length name
    → ends_outside before ≡ true
    → IsSeparator spaces separator after
    → IsLiteral opener inside
    → let value = write (group opener inside) rest in
      let text = before ++ (name ++ (spaces ++ (separator ∷ (after ++ value)))) in
      index_of name text ≡ some (length before)
      → find_json_var name text ≡ write (group opener inside) []
unfolding find_json_var
find_json_var-write name before spaces separator after opener inside rest some_name outside sep
      literal first =
    let value = write (group opener inside) rest in
    let text = before ++ (name ++ (spaces ++ (separator ∷ (after ++ value)))) in
    let named : (length name == 0) ≡ false = ground (arith, some_name) in
    rw named (
      search_from_first (var_at name text) (length name) name text (length text)
        (index_from_zero name text first)
        (var_at-write name before spaces separator after opener inside rest outside sep literal))
