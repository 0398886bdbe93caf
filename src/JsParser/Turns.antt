-- ===== src/JsParser/Turns.antt =====
-- Every turn of the scans leaves the loop with less of the text, so the fuel given is enough.
use aniparse.Prelude.{
  ℕ, zero, suc, ◌≤◌, ◌<◌, Bool, true, false, not, ◌&&◌, List, [], ◌∷◌, Option, none, some, ◌≡◌,
  refl, inl, inr, arith, ◌==◌, Bytes, if◌then◌else◌, Bool-cases, length, drop,
}
use aniparse.JsParser.{
  skip_string, skip_line, skip_block, Turn, go, ended, broken, go_on, skip_or, pop_balanced,
  bracket_balanced, pop_argument, bracket_argument, next_turn, turn, scan,
}

length-skip_string :
    (quote : ℕ) (escaped : Bool) (s : Bytes) {rest : Bytes}
    → skip_string quote escaped s ≡ some rest
    → length rest < length s
unfolding skip_string
length-skip_string quote escaped [] h = absurd (ground arith)
length-skip_string quote escaped (c ∷ s) {rest} h =
    elim (Bool-cases (not escaped && not (c == 92) && c == quote)) [
      | inl here ↦ ground (arith, h, here)
      | inr later ↦
          let ih =
            length-skip_string quote (not escaped && c == 92) s {rest = rest} (rw later at h) in
          omega (arith, ih)
    ]

length-skip_line : (s : Bytes) → length (skip_line s) ≤ length s
unfolding skip_line
length-skip_line [] = omega arith
length-skip_line (c ∷ s) = ground (arith, length-skip_line s)

length-skip_block : (s : Bytes) {rest : Bytes} → skip_block s ≡ some rest → length rest < length s
unfolding skip_block
length-skip_block [] h = absurd (ground arith)
length-skip_block (c ∷ []) h = absurd (ground arith)
length-skip_block (c ∷ d ∷ s) {rest} h = elim (Bool-cases (c == b'*' && d == b'/')) [
  | inl here ↦ ground (arith, h, here)
  | inr later ↦
      let ih = length-skip_block (d ∷ s) {rest = rest} (rw later at h) in omega (arith, ih)
]

length-drop_one : (s : Bytes) → length (drop 1 s) ≤ length s
length-drop_one [] = omega arith
length-drop_one (c ∷ s) = omega arith

-- A turn that goes on leaves no more than a number of characters.
pub data Shrinks (n : ℕ) : Turn → Type 0 where
  going : {closers : List ℕ} {rest : Bytes} → length rest ≤ n → Shrinks n (go closers rest)
  ending : {rest : Bytes} → length rest ≤ suc n → Shrinks n (ended rest)
  breaking : Shrinks n broken

go_on-Shrinks :
    (closers : List ℕ) (n : ℕ) (o : Option Bytes)
    → ((rest : Bytes) → o ≡ some rest → length rest ≤ n)
    → Shrinks n (go_on closers o)
unfolding go_on
go_on-Shrinks closers n none h = breaking
go_on-Shrinks closers n (some rest) h = going (h rest refl)

if-Shrinks :
    (b : Bool) {n : ℕ} {x y : Turn} → Shrinks n x → Shrinks n y → Shrinks n (if b then x else y)
if-Shrinks true hx hy = hx
if-Shrinks false hx hy = hy

skip_or-Shrinks :
    (closers : List ℕ) (c : ℕ) (rest : Bytes) (bracket : Turn)
    → Shrinks (length rest) bracket
    → Shrinks (length rest) (skip_or closers c rest bracket)
unfolding skip_or
skip_or-Shrinks closers c rest bracket h =
    let tail = length-drop_one rest in
    let line : length (drop 1 (skip_line (drop 1 rest))) ≤ length rest =
      omega
        (arith, length-skip_line (drop 1 rest), length-drop_one (skip_line (drop 1 rest)), tail) in
    if-Shrinks _
      (go_on-Shrinks closers _ _ λ after e. omega (arith, length-skip_string c false rest e))
      (if-Shrinks _ (going line) (
        if-Shrinks _
          (go_on-Shrinks closers _ _
            λ after e. omega (arith, length-skip_block (drop 1 rest) e, tail))
          h))

-- What a bracket does keeps within the text.
abbrev pub Brackets : (List ℕ → ℕ → Bytes → Turn) → Type 0
Brackets bracket =
    (closers : List ℕ) (c : ℕ) (rest : Bytes) → Shrinks (length rest) (bracket closers c rest)

pop_balanced-Shrinks :
    (closers : List ℕ) (c : ℕ) (rest : Bytes) → Shrinks (length rest) (pop_balanced closers c rest)
unfolding pop_balanced
pop_balanced-Shrinks [] c rest = breaking
pop_balanced-Shrinks (closer ∷ []) c rest = if-Shrinks _ (ending (omega arith)) breaking
pop_balanced-Shrinks (closer ∷ next ∷ closers) c rest = if-Shrinks _ (going (omega arith)) breaking

pub bracket_balanced-Brackets : Brackets bracket_balanced
unfolding bracket_balanced
bracket_balanced-Brackets closers c rest =
    if-Shrinks _ (going (omega arith))
      (if-Shrinks _ (pop_balanced-Shrinks closers c rest) (going (omega arith)))

pop_argument-Shrinks :
    (closers : List ℕ) (c : ℕ) (rest : Bytes) → Shrinks (length rest) (pop_argument closers c rest)
unfolding pop_argument
pop_argument-Shrinks [] c rest = if-Shrinks _ (ending (omega arith)) breaking
pop_argument-Shrinks (closer ∷ closers) c rest = if-Shrinks _ (going (omega arith)) breaking

pub bracket_argument-Brackets : Brackets bracket_argument
unfolding bracket_argument
bracket_argument-Brackets closers c rest = if-Shrinks _ (going (omega arith)) (
    if-Shrinks _ (pop_argument-Shrinks closers c rest)
      (if-Shrinks _ (ending (omega arith)) (going (omega arith))))

pub next_turn-agree :
    (again again' : List ℕ → Bytes → Option Bytes) (n : ℕ) (t : Turn)
    → Shrinks n t
    → ((closers : List ℕ) (rest : Bytes)
        → length rest ≤ n
        → again closers rest ≡ again' closers rest)
    → next_turn again t ≡ next_turn again' t
unfolding next_turn
next_turn-agree again again' n (go closers rest) (going s) h = h closers rest s
next_turn-agree again again' n (ended rest) (ending s) h = refl
next_turn-agree again again' n broken breaking h = refl

module _ (bracket : List ℕ → ℕ → Bytes → Turn) (h : Brackets bracket) where
  pub turn-Shrinks :
      (closers : List ℕ) (c : ℕ) (rest : Bytes)
      → Shrinks (length rest) (turn bracket closers c rest)
  unfolding turn
  turn-Shrinks closers c rest =
      skip_or-Shrinks closers c rest (bracket closers c rest) (h closers c rest)

  -- Any two amounts of fuel that reach the end of the text give the same scan.
  pub scan_fuel :
      (fuel more : ℕ) (closers : List ℕ) (text : Bytes)
      → length text ≤ fuel
      → length text ≤ more
      → scan bracket fuel closers text ≡ scan bracket more closers text
  unfolding scan
  scan_fuel zero zero closers text p q = refl
  scan_fuel zero (suc more) closers [] p q = refl
  scan_fuel (suc fuel) zero closers [] p q = refl
  scan_fuel (suc fuel) (suc more) closers [] p q = refl
  scan_fuel zero more closers (c ∷ rest) p q = absurd (omega (arith, p))
  scan_fuel (suc fuel) zero closers (c ∷ rest) p q = absurd (omega (arith, q))
  scan_fuel (suc fuel) (suc more) closers (c ∷ rest) p q =
      next_turn-agree (scan bracket fuel) (scan bracket more) (length rest)
        (turn bracket closers c rest) (turn-Shrinks closers c rest)
        λ next after s. scan_fuel fuel more next after (omega (arith, p, s)) (omega (arith, q, s))
