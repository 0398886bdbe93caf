-- ===== src/JsParser/Soundness.antt =====
-- Whatever the searches of src/html/JSParser.cpp give is a literal of the text behind the name.
use aniparse.Prelude.{
  ℕ, suc, ◌+◌, ◌<◌, true, false, ◌||◌, [], ◌∷◌, ◌++◌, ◌≡◌, refl, ap, ◌==◌, Bytes, has_prefix,
  length, take, drop,
}
use aniparse.JsParser.{closer_of, next_is, scan_balanced}
use aniparse.JsParser.Brackets.{Closes}
use aniparse.JsParser.Closing.{scan_balanced_closes}
use aniparse.JsParser.Find.{inside_identifier}

-- A bracket, what stands up to the bracket that closes it, where each bracket in between is closed by
-- its own kind, and no more.
abbrev pub IsBracketed : Bytes → Bytes → Type 0
IsBracketed literal text =
    (opener : ℕ) × (inside : Bytes) × (after : Bytes) × ((opener == b'{' || opener == b'[') ≡ true)
    × (literal ≡ opener ∷ (inside ++ (closer_of opener ∷ [])))
    × (text ≡ opener ∷ (inside ++ (closer_of opener ∷ after)))
    × Closes after (closer_of opener ∷ []) (inside ++ (closer_of opener ∷ after))

take_inside :
    (inside : Bytes) (closer : ℕ) (after : Bytes)
    → take (suc (length inside)) (inside ++ (closer ∷ after)) ≡ inside ++ (closer ∷ [])
take_inside [] closer after = refl
take_inside (c ∷ inside) closer after = ap (◌∷◌ c) (take_inside inside closer after)

pub take-IsBracketed :
    (text : Bytes)
    → (next_is b'{' text || next_is b'[' text) ≡ true
    → 0 < scan_balanced text
    → IsBracketed (take (scan_balanced text) text) text
take-IsBracketed [] opens h = cc
take-IsBracketed (opener ∷ text) opens h =
    let (inside, after, e, size, closes) = scan_balanced_closes opener text opens h in
    (
      opener,
      inside,
      after,
      opens,
      rw (size, e) (ap (◌∷◌ opener) (take_inside inside (closer_of opener) after)),
      ap (◌∷◌ opener) e,
      rw e at closes,
    )

-- A literal that stands behind a name of its own, which is no part of a longer identifier.
abbrev pub StandsBehind : Bytes → Bytes → Bytes → Type 0
StandsBehind literal name text =
    (start : ℕ) × (between : Bytes) × (rest : Bytes) × (has_prefix name (drop start text) ≡ true)
    × (inside_identifier text start (start + length name) ≡ false)
    × (drop (start + length name) text ≡ between ++ rest)
    × IsBracketed literal rest
