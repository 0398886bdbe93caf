-- ===== src/HtmlText/Tidy.antt =====
-- What the conversions of src/utility/HtmlText.cpp give once the end of the text is tidied.
use aniparse.Prelude.{
  ℕ, ◌+◌, ◌<◌, Bool, true, false, ◌&&◌, [], ◌∷◌, ◌++◌, some, ◌≡◌, refl, ap, sym, ◌∙◌, inl, inr,
  arith, ◌==◌, leb, Bytes, codes, bytes_eq, all_of, Bool-cases, length, length-append, All,
}
use mathlib.Core.Path.{subst}
use aniparse.Prelude.StdMap.{find}
use aniparse.HtmlText.Styles.{
  italic, text_style, remove_back, styles_of, style_of, link_style, listed, color_of,
}
use aniparse.HtmlText.{
  Nodes, text_node, element, no_nodes, child, is_trailing, tidy, walk, visit, visit_element, mark,
  run_of, append_text, nothing_written, from_element, lowercase,
}
use aniparse.HtmlText.Runs.{IsIn, IsLaminar, walk-IsLaminar}

length_nil : (s : Bytes) → (length s == 0) ≡ true → s ≡ []
length_nil [] h = refl
length_nil (c ∷ s) h = absurd (ground (arith, h))

-- What `remove_back` takes off.
pub remove_back_split :
    (passes : ℕ → Bool) (s : Bytes)
    → (cut : Bytes) × (s ≡ remove_back passes s ++ cut) × (all_of passes cut ≡ true)
unfolding remove_back all_of
remove_back_split passes [] = ([], refl, refl)
remove_back_split passes (c ∷ s) =
    let (cut, e, all) = remove_back_split passes s in
    elim (Bool-cases (length (remove_back passes s) == 0 && passes c)) [
      | inl removed ↦
          let empty = length_nil (remove_back passes s) (ground (arith, removed)) in
          let same : s ≡ cut = rw empty at e in
          rw removed (c ∷ cut, ap (◌∷◌ c) same, ground (arith, removed, all))
      | inr kept ↦ rw kept (cut, ap (◌∷◌ c) e, all)
    ]

remove_back_all :
    (passes : ℕ → Bool) (cut : Bytes) → all_of passes cut ≡ true → remove_back passes cut ≡ []
unfolding remove_back all_of
remove_back_all passes [] h = refl
remove_back_all passes (c ∷ cut) h =
    ground (arith, h, remove_back_all passes cut (ground (arith, h)))

pub remove_back-append :
    (passes : ℕ → Bool) (s : Bytes) (c : ℕ) (cut : Bytes)
    → passes c ≡ false
    → all_of passes cut ≡ true
    → remove_back passes (s ++ (c ∷ cut)) ≡ s ++ (c ∷ [])
unfolding remove_back all_of
remove_back-append passes [] c cut p all = rw (remove_back_all passes cut all, p) refl
remove_back-append passes (d ∷ s) c cut p all =
    let some_left : (length (s ++ (c ∷ [])) == 0) ≡ false =
      ground (arith, length-append {0} s (c ∷ [])) in
    rw (remove_back-append passes s c cut p all, some_left) refl

-- The text of from_html for an element has lost nothing but blanks at its end, and its runs are not
-- empty, nest, and lie in the text as it was before.
pub from_element-IsLaminar :
    (children : Nodes)
    → let out = from_element (some children) in
      (cut : Bytes) × (all_of is_trailing cut ≡ true)
      × (out.text ++ cut ≡ (walk children nothing_written).text)
      × All (IsIn 0 (length out.text + length cut)) out.attributes
      × IsLaminar out.attributes
unfolding from_element tidy
from_element-IsLaminar children =
    let (cut, e, all) = remove_back_split is_trailing (walk children nothing_written).text in
    let (inside, laminar) = walk-IsLaminar children in
    let out = walk children nothing_written in
    let text = remove_back is_trailing out.text in
    (
      cut,
      all,
      sym e,
      subst (λ n. All (IsIn 0 n) out.attributes) (ap length e ∙ length-append text cut) inside,
      laminar,
    )

italic_walk :
    (t : Bytes)
    → 0 < length t
    → walk (child (element (codes "I") [] (child (text_node t) no_nodes)) no_nodes) nothing_written
      ≡ record { text = t; attributes = run_of 0 (length t) (text_style italic) ∷ [] }
unfolding visit visit_element mark append_text nothing_written lowercase styles_of link_style listed
    style_of color_of bytes_eq find
italic_walk t h = let some_text : leb (length t) 0 ≡ false = ground (arith, h) in rw some_text refl

-- An italic element whose text ends in blanks keeps a run that ends behind the tidied text, which has
-- lost the blanks.
pub trailing_run_outside :
    (s : Bytes) (c : ℕ) (blanks : Bytes)
    → is_trailing c ≡ false
    → all_of is_trailing blanks ≡ true
    → 0 < length blanks
    → let italics = element (codes "I") [] (child (text_node (s ++ (c ∷ blanks))) no_nodes) in
      let out = from_element (some (child italics no_nodes)) in
      (out.text ≡ s ++ (c ∷ []))
      × (end : ℕ) × (out.attributes ≡ run_of 0 end (text_style italic) ∷ [])
      × (length out.text < end)
unfolding from_element tidy
trailing_run_outside s c blanks p all some_blank =
    let t = s ++ (c ∷ blanks) in
    let size = length-append {0} s (c ∷ blanks) in
    let kept = remove_back-append is_trailing s c blanks p all in
    rw (italic_walk t (omega (arith, size))) (
      kept,
      length t,
      refl,
      rw kept (omega (arith, size, length-append {0} s (c ∷ []), some_blank)),
    )
