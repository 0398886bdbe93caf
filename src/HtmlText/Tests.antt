-- ===== src/HtmlText/Tests.antt =====
-- An element with a styled run that ends in a blank.
use aniparse.Prelude.{
  ℕ, ◌+◌, ◌<◌, true, [], ◌∷◌, ◌++◌, some, ◌≡◌, refl, arith, Bytes, codes, all_of, length, All,
}
use aniparse.HtmlText.Styles.{
  italic, text_style, is_blank, remove_back, remove_front, trim, hex_digit, digit_pair, component,
  color_digits, hash_digits, color_value,
}
use aniparse.HtmlText.{
  Nodes, text_node, element, no_nodes, child, walk, nothing_written, from_element, is_trailing,
  run_of,
}
use aniparse.HtmlText.Runs.{IsIn, IsLaminar}
use aniparse.HtmlText.Tidy.{from_element-IsLaminar, trailing_run_outside}

orange :
    color_value (codes " #Fa0 ") ≡ some (record { red = 255; green = 170; blue = 0; alpha = 255 })
unfolding color_value trim remove_back remove_front is_blank hash_digits color_digits component
    digit_pair hex_digit
orange = refl

-- `<i>ab </i>`
abbrev italics : Nodes
italics = child (element (codes "I") [] (child (text_node (codes "ab ")) no_nodes)) no_nodes

from_element-IsLaminar_example :
    let out = from_element (some italics) in
    (cut : Bytes) × (all_of is_trailing cut ≡ true)
    × (out.text ++ cut ≡ (walk italics nothing_written).text)
    × All (IsIn 0 (length out.text + length cut)) out.attributes
    × IsLaminar out.attributes
from_element-IsLaminar_example = from_element-IsLaminar italics

trailing_run_outside_example :
    let out = from_element (some italics) in
    (out.text ≡ codes "ab")
    × (end : ℕ) × (out.attributes ≡ run_of 0 end (text_style italic) ∷ [])
    × (length out.text < end)
trailing_run_outside_example =
    trailing_run_outside (codes "a") b'b' (codes " ") (unfold is_trailing in refl)
      (unfold all_of is_trailing in refl) (omega arith)
