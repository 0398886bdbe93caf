-- ===== src/JsParser/Transcode/Characters.antt =====
-- The loops of `normalize_js_to_json` at a character before any rest.
use aniparse.Prelude.{ℕ, false, ◌&&◌, ◌||◌, [], ◌∷◌, ◌≡◌, refl, arith, ◌==◌, Bytes, if◌then◌else◌}
use aniparse.JsParser.{next_is}
use aniparse.JsParser.Transcode.{
  normalize, normalize_double, normalize_single, normalize_line, normalize_block,
}

pub normalize-quote : (s : Bytes) → normalize (34 ∷ s) ≡ 34 ∷ normalize_double s
unfolding normalize
normalize-quote [] = refl
normalize-quote (d ∷ s) = refl

pub normalize-apostrophe : (s : Bytes) → normalize (39 ∷ s) ≡ 34 ∷ normalize_single s
unfolding normalize
normalize-apostrophe [] = refl
normalize-apostrophe (d ∷ s) = refl

pub normalize-plain :
    (c : ℕ) (s : Bytes)
    → (c == 34) ≡ false
    → (c == 39) ≡ false
    → (c == b'/' && (next_is b'/' s || next_is b'*' s)) ≡ false
    → normalize (c ∷ s) ≡ c ∷ normalize s
unfolding normalize
normalize-plain c [] p q r = ground (arith, p, q)
normalize-plain c (d ∷ s) p q r = ground (arith, p, q, r)

pub double_end : (s : Bytes) → normalize_double (34 ∷ s) ≡ 34 ∷ normalize s
unfolding normalize
double_end [] = refl
double_end (d ∷ s) = refl

pub double_escape :
    (d : ℕ) (s : Bytes) → normalize_double (92 ∷ d ∷ s) ≡ 92 ∷ d ∷ normalize_double s
unfolding normalize
double_escape d s = refl

pub double_plain :
    (c : ℕ) (s : Bytes)
    → (c == 92) ≡ false
    → (c == 34) ≡ false
    → normalize_double (c ∷ s) ≡ c ∷ normalize_double s
unfolding normalize
double_plain c [] p q = refl
double_plain c (d ∷ s) p q = ground (arith, p, q)

pub block_plain :
    (c : ℕ) (s : Bytes)
    → (c == b'*' && next_is b'/' s) ≡ false
    → normalize_block (c ∷ s) ≡ c ∷ normalize_block s
unfolding normalize
block_plain c [] p = refl
block_plain c (d ∷ s) p = ground (arith, p)

pub single_end : (s : Bytes) → normalize_single (39 ∷ s) ≡ 34 ∷ normalize s
unfolding normalize
single_end [] = refl
single_end (d ∷ s) = refl

pub single_quote : (s : Bytes) → normalize_single (34 ∷ s) ≡ 92 ∷ 34 ∷ normalize_single s
unfolding normalize
single_quote [] = refl
single_quote (d ∷ s) = refl

pub single_escape :
    (d : ℕ) (s : Bytes)
    → (d == 39) ≡ false
    → normalize_single (92 ∷ d ∷ s) ≡ 92 ∷ d ∷ normalize_single s
unfolding normalize
single_escape d s p = ground (arith, p)

pub single_apostrophe : (s : Bytes) → normalize_single (92 ∷ 39 ∷ s) ≡ 39 ∷ normalize_single s
unfolding normalize
single_apostrophe s = refl

pub single_plain :
    (c : ℕ) (s : Bytes)
    → (c == 92) ≡ false
    → (c == 39) ≡ false
    → (c == 34) ≡ false
    → normalize_single (c ∷ s) ≡ c ∷ normalize_single s
unfolding normalize
single_plain c [] p q r = ground (arith, p, q, r)
single_plain c (d ∷ s) p q r = ground (arith, p, q, r)

pub line_step :
    (c : ℕ) (s : Bytes)
    → normalize_line (c ∷ s) ≡ c ∷ (if c == 10 then normalize s else normalize_line s)
unfolding normalize
line_step c s = ground arith

pub slash_step :
    (s : Bytes)
    → (normalize (b'/' ∷ b'/' ∷ s) ≡ b'/' ∷ b'/' ∷ normalize_line s)
      × (normalize (b'/' ∷ b'*' ∷ s) ≡ b'/' ∷ b'*' ∷ normalize_block s)
      × (normalize_block (b'*' ∷ b'/' ∷ s) ≡ b'*' ∷ b'/' ∷ normalize s)
unfolding normalize
slash_step s = (refl, refl, refl)

-- The next character, other than a quote, stays.
pub next_is-normalize :
    (d : ℕ) (s : Bytes)
    → (d == 34) ≡ false
    → (d == 39) ≡ false
    → next_is d (normalize s) ≡ next_is d s
unfolding normalize
next_is-normalize d [] p q = refl
next_is-normalize d (c ∷ []) p q = ground (arith, p, q)
next_is-normalize d (c ∷ e ∷ s) p q = ground (arith, p, q)

pub next_is-block : (d : ℕ) (s : Bytes) → next_is d (normalize_block s) ≡ next_is d s
unfolding normalize
next_is-block d [] = refl
next_is-block d (c ∷ []) = refl
next_is-block d (c ∷ e ∷ s) = ground arith
