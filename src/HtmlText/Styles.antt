-- ===== src/HtmlText/Styles.antt =====
-- The styles that src/utility/HtmlText.cpp reads off a tag and its attributes.
use aniparse.Prelude.{
  ℕ, zero, suc, ◌+◌, ◌-◌, ◌*◌, Bool, not, ◌&&◌, ◌||◌, List, [], ◌∷◌, ◌++◌, Option, none, some, ◌==◌,
  ltb, leb, Bytes, codes, within, bytes_eq, or_else, if◌then◌else◌, length, get_or, take, drop,
  ◌>>=◌, ◌>>◌, guard,
}
use aniparse.Prelude.StdMap.{find}
use aniparse.Sources.Groups.{index_of_char}

pub data Kind : Type 0 where
  bold italic strikethrough spoiler : Kind

pub record TextColor : Type 0 where
  pub red : ℕ
  pub green : ℕ
  pub blue : ℕ
  pub alpha : ℕ

pub data Style : Type 0 where
  hyperlink : Bytes → Style
  text_style : Kind → Style
  text_color : TextColor → Style

abbrev pub Attributes : Type 0
Attributes = List (Bytes × Bytes)

unfoldable pub style_of : Bytes → Option Kind
style_of tag =
    if bytes_eq tag (codes "i") || bytes_eq tag (codes "em")
    then some italic
    else if bytes_eq tag (codes "b") || bytes_eq tag (codes "strong")
    then some bold
    else if bytes_eq tag (codes "s") || bytes_eq tag (codes "del") || bytes_eq tag (codes "strike")
    then some strikethrough
    else none

unfoldable pub is_blank : ℕ → Bool
is_blank c = c == 32 || c == 9 || c == 10 || c == 13

-- `while (passes(value.back())) value.remove_suffix(1)`
unfoldable pub remove_back : (ℕ → Bool) → Bytes → Bytes
remove_back passes [] = []
remove_back passes (c ∷ s) =
    let rest = remove_back passes s in if length rest == 0 && passes c then [] else c ∷ rest

unfoldable pub remove_front : (ℕ → Bool) → Bytes → Bytes
remove_front passes [] = []
remove_front passes (c ∷ s) = let rest = remove_front passes s in if passes c then rest else c ∷ s

unfoldable pub trim : Bytes → Bytes
trim value = remove_back is_blank (remove_front is_blank value)

unfoldable pub hex_digit : ℕ → Option ℕ
hex_digit c =
    if within b'0' b'9' c
    then some (c - b'0')
    else if within b'a' b'f' c
    then some (c - b'a' + 10)
    else if within b'A' b'F' c
    then some (c - b'A' + 10)
    else none

unfoldable pub digit_pair : ℕ → ℕ → Option ℕ
digit_pair first second = do high ← hex_digit first; low ← hex_digit second; some (high * 16 + low)

-- The digit at an offset stands for both digits of a short value.
unfoldable pub component : Bytes → ℕ → Option ℕ
component value offset =
    digit_pair (get_or value offset 0)
      (get_or value (if leb (length value) 4 then offset else offset + 1) 0)

-- The digits after `#`.
unfoldable pub color_digits : Bytes → Option TextColor
color_digits value = do
  let size = length value
  guard (size == 3 || size == 4 || size == 6 || size == 8)
  let step = if leb size 4 then 1 else 2
  red ← component value 0
  green ← component value step
  blue ← component value (step * 2)
  alpha ← if size == 4 || size == 8 then component value (step * 3) else some 255
  some (record { red = red; green = green; blue = blue; alpha = alpha })

unfoldable pub hash_digits : Bytes → Option TextColor
hash_digits [] = none
hash_digits (c ∷ value) =
    if ltb (length (c ∷ value)) 4 || not (c == b'#') then none else color_digits value

unfoldable pub color_value : Bytes → Option TextColor
color_value value = hash_digits (trim value)

-- A declaration of a style, up to its semicolon.
unfoldable pub declared_color : Bytes → Option TextColor
declared_color declaration = do
  colon ← index_of_char b':' declaration
  guard (bytes_eq (trim (take colon declaration)) (codes "color"))
  color_value (drop (colon + 1) declaration)

-- What follows a declaration.
unfoldable pub later_color : (Bytes → Option TextColor) → Bytes → Option ℕ → Option TextColor
later_color again declarations none = declared_color (trim declarations)
later_color again declarations (some separator) =
    or_else (declared_color (trim (take separator declarations)))
      (again (drop (separator + 1) declarations))

-- The loop over the declarations, each turn of which takes a character or more.
unfoldable pub style_color : ℕ → Bytes → Option TextColor
style_color zero declarations = none
style_color (suc fuel) declarations =
    if length declarations == 0
    then none
    else later_color (style_color fuel) declarations (index_of_char b';' declarations)

unfoldable pub color_of : Attributes → Option TextColor
color_of attributes =
    or_else (find (codes "color") attributes >>= color_value)
      (do style ← find (codes "style") attributes; style_color (length style) style)

unfoldable pub link_to : Option Bytes → List Style
link_to none = []
link_to (some href) = if length href == 0 then [] else hyperlink href ∷ []

unfoldable pub link_style : Bytes → Attributes → List Style
link_style tag attributes =
    if bytes_eq tag (codes "a") then link_to (find (codes "href") attributes) else []

unfoldable pub listed {ℓ} : {A : Type ℓ} → (A → Style) → Option A → List Style
listed make none = []
listed make (some a) = make a ∷ []

-- The styles that an element gives to its run.
unfoldable pub styles_of : Bytes → Attributes → List Style
styles_of tag attributes =
    link_style tag attributes
    ++ (listed text_style (style_of tag) ++ listed text_color (color_of attributes))
