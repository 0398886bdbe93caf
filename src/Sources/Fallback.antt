-- ===== src/Sources/Fallback.antt =====
-- What the sources serve: an override where it is usable, else the built-in.
use aniparse.Prelude.{
  Elem, ℕ, zero, suc, ◌≤◌, Bool, true, false, ◌&&◌, List, [], ◌∷◌, ◌++◌, append_assoc, Option, none,
  some, ◌≡◌, refl, ap, sym, ◌∙◌, ◌≢◌, inl, inr, arith, Bytes, codes, all_of, or_else, Bool-cases,
  Option-cases, length,
}
use mathlib.Core.Path.{subst}
use aniparse.Prelude.StdMap.{find}
use aniparse.Sources.{RegexSource}
use aniparse.Sources.Groups.{
  turn, push_group, scan_groups, named_groups_of, declares_group, declares_all, accepted_override,
  compile,
}
use aniparse.Sources.Scanned.{IsGroup, named_groups_of-Elem}
use aniparse.Sources.Contracts.{Opens, declares_group-Opens, turn_lem, declares-opening}

all_of-append :
    (f : Bytes → Bool) (xs ys : List Bytes) → all_of f (xs ++ ys) ≡ (all_of f xs && all_of f ys)
unfolding all_of
all_of-append f [] ys = refl
all_of-append f (x ∷ xs) ys = ground (arith, all_of-append f xs ys)

push_group-declared :
    (p : Bytes) (found : Option Bytes) (groups : List Bytes)
    → ((name : Bytes) → found ≡ some name → declares_group p name ≡ true)
    → declares_all p groups ≡ true
    → declares_all p (push_group found groups) ≡ true
unfolding push_group declares_all all_of
push_group-declared p none groups h all = all
push_group-declared p (some name) groups h all =
    ground (arith, h name refl, all_of-append (declares_group p) groups (name ∷ []))

scan_groups-declared :
    (p : Bytes) (fuel : ℕ) (in_class : Bool) (front s : Bytes) (groups : List Bytes)
    → p ≡ front ++ s
    → declares_all p groups ≡ true
    → declares_all p (scan_groups fuel in_class s groups) ≡ true
unfolding scan_groups
scan_groups-declared p zero in_class front s groups at all = all
scan_groups-declared p (suc fuel) in_class front [] groups at all = all
scan_groups-declared p (suc fuel) in_class front (c ∷ rest) groups at all =
    let (suffix, shorter, declared) = turn_lem in_class c rest in
    let t = turn in_class c rest in
    scan_groups-declared p fuel t.in_class (front ++ suffix.0) t.rest (push_group t.found groups)
      (at ∙ ap (λ r. front ++ r) suffix.1 ∙ sym (append_assoc front suffix.0 t.rest))
      (push_group-declared p t.found groups
        (λ name e. subst (λ q. declares_group q name ≡ true) (sym at) (declared front name e)) all)

scan_groups-fuel :
    (f g : ℕ) (in_class : Bool) (s : Bytes) (groups : List Bytes)
    → length s ≤ f
    → length s ≤ g
    → scan_groups f in_class s groups ≡ scan_groups g in_class s groups
unfolding scan_groups
scan_groups-fuel zero zero in_class s groups h k = refl
scan_groups-fuel zero (suc g) in_class [] groups h k = refl
scan_groups-fuel zero (suc g) in_class (c ∷ s) groups h k = absurd (omega (arith, h))
scan_groups-fuel (suc f) zero in_class [] groups h k = refl
scan_groups-fuel (suc f) zero in_class (c ∷ s) groups h k = absurd (omega (arith, k))
scan_groups-fuel (suc f) (suc g) in_class [] groups h k = refl
scan_groups-fuel (suc f) (suc g) in_class (c ∷ s) groups h k =
    let (suffix, shorter, declared) = turn_lem in_class c s in
    let t = turn in_class c s in
    scan_groups-fuel f g t.in_class t.rest (push_group t.found groups) (omega (arith, h, shorter))
      (omega (arith, k, shorter))

-- The scanner ends within as many turns as the pattern has characters: more fuel gives the same
-- groups. A pattern declares each of the groups that the scanner finds in it.
pub named_groups_of_lem :
    (p : Bytes) (fuel : ℕ)
    → length p ≤ fuel
    → (scan_groups fuel false p [] ≡ named_groups_of p)
      × (declares_all p (named_groups_of p) ≡ true)
unfolding named_groups_of
named_groups_of_lem p fuel h = (
  scan_groups-fuel fuel (length p) false p [] h (omega arith),
  scan_groups-declared p (length p) false [] p [] refl (unfold declares_all all_of in refl),
)

all_of-Elem :
    (f : Bytes → Bool) (x : Bytes) (xs : List Bytes) → Elem x xs → all_of f xs ≡ true → f x ≡ true
unfolding all_of
all_of-Elem f x [] m h = elim m [ ]
all_of-Elem f x (y ∷ xs) (inl e) h = rw e (ground (arith, h))
all_of-Elem f x (y ∷ xs) (inr m) h = all_of-Elem f x xs m (ground (arith, h))

own : (p : Bytes) → declares_all p (named_groups_of p) ≡ true
own p = (named_groups_of_lem p (length p) (omega arith)).1

module _ {Regex : Type 0} (regex : Bytes → Option Regex) where
  compile_declares :
      (source : RegexSource) (key fallback : Bytes)
      → (regex fallback ≢ none → compile regex source key fallback ≢ none)
        × ((r : Regex)
            → compile regex source key fallback ≡ some r
            → (text : Bytes) × (regex text ≡ some r)
              × (declares_all text (named_groups_of fallback) ≡ true))
  unfolding compile accepted_override
  compile_declares source key fallback = served (find key source.overrides)
    where
      served :
          (override : Option Bytes)
          → (regex fallback ≢ none
              → or_else (accepted_override regex fallback override) (regex fallback) ≢ none)
            × ((r : Regex)
                → or_else (accepted_override regex fallback override) (regex fallback) ≡ some r
                → (text : Bytes) × (regex text ≡ some r)
                  × (declares_all text (named_groups_of fallback) ≡ true))
      served none = ((λ ne. ne), λ r e. (fallback, e, own fallback))
      served (some text) = elim (Bool-cases (declares_all text (named_groups_of fallback))) [
        | inl declared ↦ elim (Option-cases (regex text)) [
          | inl bad ↦ rw (declared, bad) ((λ ne. ne), λ r e. (fallback, e, own fallback))
          | inr (r', good) ↦ rw (declared, good) ((λ ne e. cc), λ r e. (text, good ∙ e, declared))
        ]
        | inr undeclared ↦ rw undeclared ((λ ne. ne), λ r e. (fallback, e, own fallback))
      ]

  -- Whatever the overrides are: where the built-in pattern compiles, an expression is served, and a
  -- served expression is that of a text in which, for every named group of the built-in pattern, the
  -- name stands behind an opening of a group, where it may begin a longer name. A group that the
  -- built-in pattern declares as `(?<name>` after characters that are plain is one of these.
  pub compile_lem :
      (source : RegexSource) (key fallback : Bytes)
      → (regex fallback ≢ none → compile regex source key fallback ≢ none)
        × ((r : Regex)
            → compile regex source key fallback ≡ some r
            → (text : Bytes) × (regex text ≡ some r)
              × ((name : Bytes) → Elem name (named_groups_of fallback) → Opens text name))
        × ((name : Bytes) → IsGroup fallback name → Elem name (named_groups_of fallback))
  compile_lem source key fallback =
      let (kept, declared) = compile_declares source key fallback in
      (
        kept,
        (λ r e.
            let (text, compiled, all) = declared r e in
            (
              text,
              compiled,
              λ name group. declares_group-Opens text name (
                  all_of-Elem (declares_group text) name (named_groups_of fallback) group
                    (unfold declares_all in all)),
            )),
        named_groups_of-Elem fallback,
      )

  -- An override that spells, after an opening, any text that begins with the name of the built-in
  -- pattern's one group, so also a longer name, is served whenever it compiles.
  pub compile_prefix :
      (source : RegexSource) (key fallback front name more : Bytes) (r : Regex)
      → named_groups_of fallback ≡ name ∷ []
      → find key source.overrides ≡ some (front ++ (codes "(?<" ++ (name ++ more)))
      → regex (front ++ (codes "(?<" ++ (name ++ more))) ≡ some r
      → compile regex source key fallback ≡ some r
  unfolding compile accepted_override declares_all all_of
  compile_prefix source key fallback front name more r one found compiled =
      ground (arith, (declares-opening front name more).0)
