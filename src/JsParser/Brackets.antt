-- ===== src/JsParser/Brackets.antt =====
-- The brackets that the scan of a literal matches, and that it ends where the last one is closed.
use aniparse.Prelude.{
  ℕ, zero, suc, true, false, ◌&&◌, ◌||◌, List, [], ◌∷◌, some, ◌≡◌, ap, inl, inr, arith, ◌==◌,
  ==_iff, Bytes, Bool-cases, Option-cases, drop,
}
use aniparse.JsParser.{
  is_quote, next_is, skip_string, skip_line, skip_block, closer_of, go_on, skip_or, pop_balanced,
  bracket_balanced, next_turn, turn, scan,
}

-- Reading a text up to the bracket that closes the last of some open ones leaves a rest: each bracket
-- that opens is closed by its own kind before those that were open, strings and comments are passed
-- over as the scan passes over them, and the closers stand from the innermost on.
pub data Closes (after : Bytes) : List ℕ → Bytes → Type 0 where
  last : {k : ℕ} → Closes after (k ∷ []) (k ∷ after)
  close :
      {k next : ℕ} {closers : List ℕ} {text : Bytes}
      → Closes after (next ∷ closers) text
      → Closes after (k ∷ next ∷ closers) (k ∷ text)
  open_brace :
      {closers : List ℕ} {text : Bytes}
      → Closes after (b'}' ∷ closers) text
      → Closes after closers (b'{' ∷ text)
  open_bracket :
      {closers : List ℕ} {text : Bytes}
      → Closes after (b']' ∷ closers) text
      → Closes after closers (b'[' ∷ text)
  quoted :
      {c : ℕ} {closers : List ℕ} {text rest : Bytes}
      → is_quote c ≡ true
      → skip_string c false text ≡ some rest
      → Closes after closers rest
      → Closes after closers (c ∷ text)
  line_comment :
      {closers : List ℕ} {text : Bytes}
      → Closes after closers (drop 1 (skip_line text))
      → Closes after closers (b'/' ∷ b'/' ∷ text)
  block_comment :
      {closers : List ℕ} {text rest : Bytes}
      → skip_block text ≡ some rest
      → Closes after closers rest
      → Closes after closers (b'/' ∷ b'*' ∷ text)
  plain :
      {c : ℕ} {closers : List ℕ} {text : Bytes}
      → is_quote c ≡ false
      → (c == b'{' || c == b'[' || c == b'}' || c == b']') ≡ false
      → Closes after closers text
      → Closes after closers (c ∷ text)

next_two :
    (c d : ℕ) (s : Bytes) → (c == b'/' && next_is d s) ≡ true → (c ≡ b'/') × (s ≡ d ∷ drop 1 s)
next_two c d [] h = absurd (ground (arith, h))
next_two c d (e ∷ s) h =
    let same : e ≡ d = ground (arith, h, ==_iff e d) in
    (ground (arith, h, ==_iff c b'/'), ap (λ x. x ∷ s) same)

-- A bracket that closes.
module _ (k c fuel : ℕ) (s after : Bytes) where
  pop-Closes :
      (closers : List ℕ)
      → next_turn (scan bracket_balanced fuel) (pop_balanced (k ∷ closers) c s) ≡ some after
      → ((next : ℕ) (more : List ℕ)
          → scan bracket_balanced fuel (next ∷ more) s ≡ some after
          → Closes after (next ∷ more) s)
      → Closes after (k ∷ closers) (c ∷ s)
  unfolding pop_balanced next_turn
  pop-Closes [] h ih = elim (Bool-cases (k == c)) [
    | inl same ↦
        let at : c ≡ k = ground (arith, same, ==_iff k c) in
        let rest : s ≡ after = cc (rw same at h) in rw (at, rest) last
    | inr other ↦ absurd (let h' = rw other at h in cc (h'))
  ]
  pop-Closes (next ∷ closers) h ih = elim (Bool-cases (k == c)) [
    | inl same ↦
        let at : c ≡ k = ground (arith, same, ==_iff k c) in
        rw at (close (ih next closers (rw same at h)))
    | inr other ↦ absurd (let h' = rw other at h in cc (h'))
  ]

pub scan-Closes :
    (fuel k : ℕ) (closers : List ℕ) (text : Bytes) {after : Bytes}
    → scan bracket_balanced fuel (k ∷ closers) text ≡ some after
    → Closes after (k ∷ closers) text
unfolding scan turn skip_or bracket_balanced next_turn go_on closer_of
scan-Closes zero k closers text h = cc (h)
scan-Closes (suc fuel) k closers [] h = cc (h)
scan-Closes (suc fuel) k closers (c ∷ s) {after} h = elim (Bool-cases (is_quote c)) [
  | inl quote ↦ elim (Option-cases (skip_string c false s)) [
    | inl open' ↦ absurd (let h' = rw (quote, open') at h in cc (h'))
    | inr (rest, e) ↦ quoted quote e (scan-Closes fuel k closers rest (rw (quote, e) at h))
  ]
  | inr no_quote ↦ elim (Bool-cases (c == b'/' && next_is b'/' s)) [
    | inl line ↦
        let (slash, more) = next_two c b'/' s line in
        rw (slash, more)
          (line_comment
            (scan-Closes fuel k closers (drop 1 (skip_line (drop 1 s))) (rw (no_quote, line) at h)))
    | inr no_line ↦ elim (Bool-cases (c == b'/' && next_is b'*' s)) [
      | inl block ↦ elim (Option-cases (skip_block (drop 1 s))) [
        | inl open' ↦ absurd (let h' = rw (no_quote, no_line, block, open') at h in cc (h'))
        | inr (rest, e) ↦
            let (slash, more) = next_two c b'*' s block in
            rw (slash, more)
              (block_comment e
                (scan-Closes fuel k closers rest (rw (no_quote, no_line, block, e) at h)))
      ]
      | inr no_block ↦ elim (Bool-cases (c == b'{' || c == b'[')) [
        | inl opens ↦ elim (Bool-cases (c == b'{')) [
          | inl brace ↦
              let same : c ≡ b'{' = ground (arith, brace, ==_iff c b'{') in
              rw same (
                open_brace (
                  scan-Closes fuel b'}' (k ∷ closers) s
                    (rw (no_quote, no_line, no_block, opens, brace) at h)))
          | inr bracket ↦
              let square : (c == b'[') ≡ true = ground (arith, opens, bracket) in
              let same : c ≡ b'[' = ground (arith, square, ==_iff c b'[') in
              rw same (
                open_bracket (
                  scan-Closes fuel b']' (k ∷ closers) s
                    (rw (no_quote, no_line, no_block, opens, bracket, square) at h)))
        ]
        | inr no_open ↦ elim (Bool-cases (c == b'}' || c == b']')) [
          | inl closes ↦
              pop-Closes k c fuel s after closers
                (rw (no_quote, no_line, no_block, no_open, closes) at h)
                (λ next more e. scan-Closes fuel next more s e)
          | inr no_close ↦ plain no_quote (ground (arith, no_open, no_close)) (
              scan-Closes fuel k closers s
                (rw (no_quote, no_line, no_block, no_open, no_close) at h))
        ]
      ]
    ]
  ]
]
