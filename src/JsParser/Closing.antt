-- ===== src/JsParser/Closing.antt =====
-- Where the scan of a literal ends: at the bracket that closes the one it began with.
use aniparse.Prelude.{
  ℕ, zero, suc, ◌+◌, ◌<◌, Bool, true, false, not, ◌&&◌, ◌||◌, List, [], ◌∷◌, ◌++◌, append_assoc,
  Option, none, some, ◌≡◌, refl, ap, sym, ◌∙◌, inl, inr, arith, ◌==◌, ==_iff, Bytes, if◌then◌else◌,
  Bool-cases, Option-cases, length, length-append, drop,
}
use aniparse.JsParser.Brackets.{Closes, scan-Closes}
use aniparse.JsParser.{
  is_quote, next_is, skip_string, skip_line, skip_block, closer_of, Turn, go, ended, broken, go_on,
  skip_or, pop_balanced, bracket_balanced, next_turn, turn, scan, length_before, scan_balanced,
}

-- The end of a text.
abbrev pub Suffix : Bytes → Bytes → Type 0
Suffix rest text = (front : Bytes) × (text ≡ front ++ rest)

pub suffix_refl : (s : Bytes) → Suffix s s
suffix_refl s = ([], refl)

pub suffix_cons : (c : ℕ) {rest s : Bytes} → Suffix rest s → Suffix rest (c ∷ s)
suffix_cons c (front, e) = (c ∷ front, ap (◌∷◌ c) e)

pub suffix_trans : {a b c : Bytes} → Suffix a b → Suffix b c → Suffix a c
suffix_trans {a} (front, e) (front', e') =
    (front' ++ front, e' ∙ (ap (◌++◌ front') e ∙ sym (append_assoc front' front a)))

skip_string-Suffix :
    (quote : ℕ) (escaped : Bool) (s : Bytes) {rest : Bytes}
    → skip_string quote escaped s ≡ some rest
    → Suffix rest s
unfolding skip_string
skip_string-Suffix quote escaped [] h = absurd (ground arith)
skip_string-Suffix quote escaped (c ∷ s) {rest} h =
    elim (Bool-cases (not escaped && not (c == 92) && c == quote)) [
      | inl here ↦ let same : s ≡ rest = ground (arith, h, here) in suffix_cons c ([], same)
      | inr later ↦
          suffix_cons c
            (skip_string-Suffix quote (not escaped && c == 92) s {rest = rest} (rw later at h))
    ]

skip_line-Suffix : (s : Bytes) → Suffix (skip_line s) s
unfolding skip_line
skip_line-Suffix [] = suffix_refl []
skip_line-Suffix (c ∷ s) = elim (Bool-cases (c == 10)) [
  | inl newline ↦ rw newline (suffix_refl (c ∷ s))
  | inr other ↦ rw other (suffix_cons c (skip_line-Suffix s))
]

pub drop_one-Suffix : (s : Bytes) → Suffix (drop 1 s) s
drop_one-Suffix [] = suffix_refl []
drop_one-Suffix (c ∷ s) = (c ∷ [], refl)

skip_block-Suffix : (s : Bytes) {rest : Bytes} → skip_block s ≡ some rest → Suffix rest s
unfolding skip_block
skip_block-Suffix [] h = absurd (ground arith)
skip_block-Suffix (c ∷ s) {rest} h = elim (Bool-cases (c == b'*' && next_is b'/' s)) [
  | inl here ↦
      let same : drop 1 s ≡ rest = ground (arith, h, here) in
      suffix_cons c (rw same at (drop_one-Suffix s))
  | inr later ↦ suffix_cons c (skip_block-Suffix s {rest = rest} (rw later at h))
]

-- The bracket that the scan still expects at last.
data Bottom (k : ℕ) : List ℕ → Type 0 where
  only : {closer : ℕ} → k ≡ closer → Bottom k (closer ∷ [])
  below : {closer : ℕ} {closers : List ℕ} → Bottom k closers → Bottom k (closer ∷ closers)

-- A turn keeps the bracket expected at last, and ends the scan at it only.
data Keeps (k c : ℕ) (rest : Bytes) : Turn → Type 0 where
  going :
      {closers : List ℕ} {after : Bytes}
      → Bottom k closers
      → Suffix after rest
      → Keeps k c rest (go closers after)
  ending : {after : Bytes} → k ≡ c → after ≡ rest → Keeps k c rest (ended after)
  breaking : Keeps k c rest broken

go_on-Keeps :
    (k c : ℕ) (rest : Bytes) (closers : List ℕ) (o : Option Bytes)
    → Bottom k closers
    → ((after : Bytes) → o ≡ some after → Suffix after rest)
    → Keeps k c rest (go_on closers o)
unfolding go_on
go_on-Keeps k c rest closers none b h = breaking
go_on-Keeps k c rest closers (some after) b h = going b (h after refl)

if-Keeps :
    (b : Bool) {k c : ℕ} {rest : Bytes} {x y : Turn}
    → (b ≡ true → Keeps k c rest x)
    → Keeps k c rest y
    → Keeps k c rest (if b then x else y)
if-Keeps true hx hy = hx refl
if-Keeps false hx hy = hy

pop-Keeps :
    (k c : ℕ) (rest : Bytes) (closers : List ℕ)
    → Bottom k closers
    → Keeps k c rest (pop_balanced closers c rest)
unfolding pop_balanced
pop-Keeps k c rest [] b = elim b [ ]
pop-Keeps k c rest (closer ∷ []) (below b) = elim b [ ]
pop-Keeps k c rest (closer ∷ []) (only b) =
    if-Keeps (closer == c) (λ e. ending (b ∙ ground (arith, ==_iff closer c, e)) refl) breaking
pop-Keeps k c rest (closer ∷ next ∷ closers) (below b) =
    if-Keeps (closer == c) (λ e. going b (suffix_refl rest)) breaking

bracket-Keeps :
    (k c : ℕ) (rest : Bytes) (closers : List ℕ)
    → Bottom k closers
    → Keeps k c rest (bracket_balanced closers c rest)
unfolding bracket_balanced
bracket-Keeps k c rest closers b =
    if-Keeps (c == b'{' || c == b'[')
      (λ e. going (below {closer = closer_of c} b) (suffix_refl rest))
      (if-Keeps (c == b'}' || c == b']') (λ e. pop-Keeps k c rest closers b)
        (going b (suffix_refl rest)))

turn-Keeps :
    (k c : ℕ) (rest : Bytes) (closers : List ℕ)
    → Bottom k closers
    → Keeps k c rest (turn bracket_balanced closers c rest)
unfolding turn skip_or
turn-Keeps k c rest closers b =
    let tail = drop_one-Suffix rest in
    let line = drop_one-Suffix (skip_line (drop 1 rest)) in
    if-Keeps (is_quote c)
      (λ t. go_on-Keeps k c rest closers _ b λ after e. skip_string-Suffix c false rest e)
      (if-Keeps (c == b'/' && next_is b'/' rest)
        (λ t. going b (suffix_trans line (suffix_trans (skip_line-Suffix (drop 1 rest)) tail)))
        (if-Keeps (c == b'/' && next_is b'*' rest)
          (λ t.
            go_on-Keeps k c rest closers _ b
              λ after e. suffix_trans (skip_block-Suffix (drop 1 rest) e) tail)
          (bracket-Keeps k c rest closers b)))

scan-Suffix :
    (k : ℕ) (fuel : ℕ) (closers : List ℕ) (text : Bytes) {rest : Bytes}
    → Bottom k closers
    → scan bracket_balanced fuel closers text ≡ some rest
    → Suffix (k ∷ rest) text
unfolding scan next_turn
scan-Suffix k zero closers text b h = absurd (ground arith)
scan-Suffix k (suc fuel) closers [] b h = absurd (ground arith)
scan-Suffix k (suc fuel) closers (c ∷ s) {rest} b h =
    onward (turn bracket_balanced closers c s) (turn-Keeps k c s closers b) h
      λ next after keeps. scan-Suffix k fuel next after {rest = rest} keeps
  where
    onward :
        (t : Turn)
        → Keeps k c s t
        → next_turn (scan bracket_balanced fuel) t ≡ some rest
        → ((next : List ℕ) (after : Bytes)
            → Bottom k next
            → scan bracket_balanced fuel next after ≡ some rest
            → Suffix (k ∷ rest) after)
        → Suffix (k ∷ rest) (c ∷ s)
    onward (go next after) (going keeps inner) e ih =
        suffix_cons c (suffix_trans (ih next after keeps e) inner)
    onward (ended after) (ending same rest_same) e ih = ([], cc)
    onward broken breaking e ih = cc

first_turn :
    (c : ℕ) (rest : Bytes)
    → (c == b'{' || c == b'[') ≡ true
    → turn bracket_balanced [] c rest ≡ go (closer_of c ∷ []) rest
unfolding turn skip_or bracket_balanced is_quote
first_turn c rest t = ground (arith, t)

measured :
    (opener : ℕ) (text : Bytes)
    → (opener == b'{' || opener == b'[') ≡ true
    → {o : Option Bytes} → scan bracket_balanced (length text) (closer_of opener ∷ []) text ≡ o
    → scan_balanced (opener ∷ text) ≡ length_before (opener ∷ text) o
unfolding scan_balanced scan next_turn
measured opener text opens e =
    rw (first_turn opener text opens) (ap (length_before (opener ∷ text)) e)

-- A literal that is measured ends at the bracket that closes its first one.
pub scan_balanced_closes :
    (opener : ℕ) (text : Bytes)
    → (opener == b'{' || opener == b'[') ≡ true
    → 0 < scan_balanced (opener ∷ text)
    → (inside : Bytes) × (after : Bytes) × (text ≡ inside ++ (closer_of opener ∷ after))
      × (scan_balanced (opener ∷ text) ≡ suc (suc (length inside)))
      × Closes after (closer_of opener ∷ []) text
unfolding length_before
scan_balanced_closes opener text opens h =
    elim (Option-cases (scan bracket_balanced (length text) (closer_of opener ∷ []) text)) [
      | inl failed ↦ absurd (omega (arith, h, measured opener text opens failed))
      | inr (after, success) ↦
          let (inside, e) =
            scan-Suffix (closer_of opener) (length text) (closer_of opener ∷ []) text (only refl)
              success in
          let size : length text ≡ length inside + suc (length after) =
            ap length e ∙ length-append inside (closer_of opener ∷ after) in
          (
            inside,
            after,
            e,
            omega (arith, measured opener text opens success, size),
            scan-Closes (length text) (closer_of opener) [] text success,
          )
    ]
