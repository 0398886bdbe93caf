-- ===== src/HtmlText.antt =====
-- src/utility/HtmlText.cpp and include/aniparse/types/Text.hpp: HTML into text with runs of
-- attributes. The document object model is a tree; the parser that makes it is a parameter. Offsets,
-- `int` in the code, are those of texts below 2^31 bytes.
pub mod Runs
pub mod Tidy
pub mod Colors
pub mod Styles
mod Tests
use aniparse.Prelude.{
  ℕ, ◌+◌, ◌-◌, Bool, false, not, ◌&&◌, ◌||◌, List, [], ◌∷◌, ◌++◌, map, Option, none, some, ◌==◌,
  ltb, leb, Bytes, codes, within, bytes_eq, if◌then◌else◌, length, get_or,
}
use aniparse.HtmlText.Styles.{Style, Attributes, remove_back, styles_of}

pub record TextAttributeInfo : Type 0 where
  pub start : ℕ
  pub end : ℕ
  pub style : Style

pub record AttributedText : Type 0 where
  pub text : Bytes
  pub attributes : List TextAttributeInfo

-- A text node, an element with its name, attributes and children, or another node, whose children
-- the walk does not look at.
mutual
  pub data Node : Type 0 where
    text_node : Bytes → Node
    element : Bytes → Attributes → Nodes → Node
    other : Node

  pub data Nodes : Type 0 where
    no_nodes : Nodes
    child : Node → Nodes → Nodes

unfoldable pub append_text : Bytes → AttributedText → AttributedText
append_text s out = record { text = out.text ++ s; attributes = out.attributes }

unfoldable pub ends_line : Bytes → Bool
ends_line [] = false
ends_line (c ∷ []) = c == 10
ends_line (c ∷ d ∷ s) = ends_line (d ∷ s)

unfoldable pub break_line : AttributedText → AttributedText
break_line out =
    if not (length out.text == 0) && not (ends_line out.text)
    then append_text (10 ∷ []) out
    else out

-- `<br>`, capped at a blank line.
unfoldable pub break_element : AttributedText → AttributedText
break_element out =
    let n = length out.text in
    if ltb n 2 || not (get_or out.text (n - 1) 0 == 10) || not (get_or out.text (n - 2) 0 == 10)
    then append_text (10 ∷ []) out
    else out

unfoldable pub lowercase : ℕ → ℕ
lowercase c = if within b'A' b'Z' c then c - b'A' + b'a' else c

unfoldable pub run_of : ℕ → ℕ → Style → TextAttributeInfo
run_of start end style = record { start = start; end = end; style = style }

unfoldable pub mark : Bytes → Attributes → ℕ → AttributedText → AttributedText
mark tag attributes start out =
    let end = length out.text in
    if leb end start then out else record {
      text = out.text;
      attributes = out.attributes ++ map (run_of start end) (styles_of tag attributes);
    }

-- An element of a tag in lower case, with the walk over its children.
unfoldable pub visit_element :
    Bytes → Attributes → (AttributedText → AttributedText) → AttributedText → AttributedText
visit_element tag attributes inside out =
    if bytes_eq tag (codes "br")
    then break_element out
    else if bytes_eq tag (codes "p") || bytes_eq tag (codes "div") || bytes_eq tag (codes "li")
    then break_line (inside (break_line out))
    else mark tag attributes (length out.text) (inside out)

unfoldable mutual
  pub visit : Node → AttributedText → AttributedText
  visit (text_node s) out = append_text s out
  visit (element name attributes children) out =
      visit_element (map lowercase name) attributes (walk children) out
  visit other out = out

  pub walk : Nodes → AttributedText → AttributedText
  walk no_nodes out = out
  walk (child node nodes) out = walk nodes (visit node out)

unfoldable pub nothing_written : AttributedText
nothing_written = record { text = []; attributes = [] }

unfoldable pub is_trailing : ℕ → Bool
is_trailing c = c == 10 || c == 32 || c == 9

unfoldable pub tidy : AttributedText → AttributedText
tidy out = record { text = remove_back is_trailing out.text; attributes = out.attributes }

-- `try_parse` of a document: `none` where it fails or throws, else the children of the body, if any.
module _ (try_parse : Bytes → Option (Option Nodes)) where
  unfoldable pub from_parsed : Bytes → Option (Option Nodes) → AttributedText
  from_parsed html none = record { text = html; attributes = [] }
  from_parsed html (some none) = tidy nothing_written
  from_parsed html (some (some body)) = tidy (walk body nothing_written)

  unfoldable pub from_html : Bytes → AttributedText
  from_html html =
      from_parsed html
        (try_parse (codes "<!DOCTYPE html><html><body>" ++ (html ++ codes "</body></html>")))

-- The overload for an element, which may be null.
unfoldable pub from_element : Option Nodes → AttributedText
from_element none = nothing_written
from_element (some children) = tidy (walk children nothing_written)
