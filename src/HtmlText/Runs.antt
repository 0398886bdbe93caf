-- ===== src/HtmlText/Runs.antt =====
-- The runs that the walk of src/utility/HtmlText.cpp makes.
use aniparse.Prelude.{
  All-weaken, ℕ, ◌-◌, ◌≤◌, ◌<◌, Bool, true, false, not, ◌&&◌, ◌||◌, List, [], ◌∷◌, ◌++◌, map,
  append-nil, append_assoc, ◌≡◌, refl, ap, sym, ◌∙◌, ◌⊎◌, inl, inr, arith, ◌==◌, ltb, leb, Bytes,
  codes, bytes_eq, if◌then◌else◌, Bool-cases, length, length-append, get_or, All, All-append,
}
use mathlib.Core.Path.{subst}
use aniparse.HtmlText.Styles.{Style, Attributes, styles_of}
use aniparse.HtmlText.{
  TextAttributeInfo, AttributedText, Node, Nodes, text_node, element, other, no_nodes, child,
  append_text, ends_line, break_line, break_element, lowercase, run_of, mark, visit_element, visit,
  walk, nothing_written,
}

-- A run that is not empty and lies between two offsets.
abbrev pub IsIn : ℕ → ℕ → TextAttributeInfo → Type 0
IsIn low high a = (low ≤ a.start) × (a.start < a.end) × (a.end ≤ high)

-- Two runs, the first of which was made before the second: the first ends where the second begins or
-- earlier, or it lies in the second.
abbrev pub AreNested : TextAttributeInfo → TextAttributeInfo → Type 0
AreNested a b = (a.end ≤ b.start) ⊎ ((b.start ≤ a.start) × (a.end ≤ b.end))

abbrev pub IsLaminar : List TextAttributeInfo → Type 0
IsLaminar [] = Unit
IsLaminar (a ∷ later) = All (AreNested a) later × IsLaminar later

-- Runs up to an offset, then runs from there on.
IsLaminar-append :
    (low middle high : ℕ) (front back' : List TextAttributeInfo)
    → All (IsIn low middle) front
    → All (IsIn middle high) back'
    → IsLaminar front
    → IsLaminar back'
    → IsLaminar (front ++ back')
IsLaminar-append low middle high [] back' f b lf lb = lb
IsLaminar-append low middle high (a ∷ front) back' f b lf lb = (
  All-append (AreNested a) front back' lf.0 (
      All-weaken (IsIn middle high) (AreNested a) (λ c inside. inl (omega (arith, inside, f.0)))
        back' b),
  IsLaminar-append low middle high front back' f.1 b lf.1 lb,
)

-- The runs of one element, over all that was written since an offset.
module _ (start end : ℕ) (h : start < end) where
  marks-IsIn : (styles : List Style) → All (IsIn start end) (map (run_of start end) styles)
  unfolding run_of
  marks-IsIn [] = tt
  marks-IsIn (s ∷ styles) = ((omega arith, h, omega arith), marks-IsIn styles)

  marks_around :
      (a : TextAttributeInfo) (styles : List Style)
      → IsIn start end a
      → All (AreNested a) (map (run_of start end) styles)
  unfolding run_of
  marks_around a [] inside = tt
  marks_around a (s ∷ styles) inside = (inr (inside.0, inside.2), marks_around a styles inside)

  marks-IsLaminar : (styles : List Style) → IsLaminar (map (run_of start end) styles)
  unfolding run_of
  marks-IsLaminar [] = tt
  marks-IsLaminar (s ∷ styles) = (
    marks_around (run_of start end s) styles (omega arith, h, omega arith),
    marks-IsLaminar styles,
  )

  IsLaminar-marks :
      (styles : List Style) (inner : List TextAttributeInfo)
      → All (IsIn start end) inner
      → IsLaminar inner
      → IsLaminar (inner ++ map (run_of start end) styles)
  IsLaminar-marks styles [] f l = marks-IsLaminar styles
  IsLaminar-marks styles (a ∷ inner) f l = (
    All-append (AreNested a) inner (map (run_of start end) styles) l.0 (marks_around a styles f.0),
    IsLaminar-marks styles inner f.1 l.1,
  )

-- The text grows at its end, and the runs made on the way lie in what was written.
record Extends (out out' : AttributedText) : Type 0 where
  added : Bytes
  fresh : List TextAttributeInfo
  text_grows : out'.text ≡ out.text ++ added
  attributes_grow : out'.attributes ≡ out.attributes ++ fresh
  inside : All (IsIn (length out.text) (length out'.text)) fresh
  laminar : IsLaminar fresh

Extends-refl : (out : AttributedText) → Extends out out
Extends-refl out = record {
  added = [];
  fresh = [];
  text_grows = sym (append-nil out.text);
  attributes_grow = sym (append-nil out.attributes);
  inside = tt;
  laminar = tt;
}

grows : {out out' : AttributedText} → Extends out out' → length out.text ≤ length out'.text
grows {out} e = omega (arith, ap length e.text_grows ∙ length-append out.text e.added)

Extends-trans : {a b c : AttributedText} → Extends a b → Extends b c → Extends a c
Extends-trans {a} {b} {c} p q =
    let low = grows p in
    let high = grows q in
    record {
      added = p.added ++ q.added;
      fresh = p.fresh ++ q.fresh;
      text_grows =
          q.text_grows
          ∙ (ap (λ t. t ++ q.added) p.text_grows ∙ append_assoc a.text p.added q.added);
      attributes_grow =
          q.attributes_grow
          ∙ (ap (λ t. t ++ q.fresh) p.attributes_grow ∙ append_assoc a.attributes p.fresh q.fresh);
      inside =
          All-append _ p.fresh q.fresh
            (All-weaken (IsIn (length a.text) (length b.text)) _
              (λ r i. (i.0, i.1, omega (arith, i, high))) p.fresh p.inside)
            (All-weaken (IsIn (length b.text) (length c.text)) _
              (λ r i. (omega (arith, i, low), i.1, i.2)) q.fresh q.inside);
      laminar =
          IsLaminar-append (length a.text) (length b.text) (length c.text) p.fresh q.fresh p.inside
            q.inside p.laminar q.laminar;
    }

append_text-Extends : (s : Bytes) (out : AttributedText) → Extends out (append_text s out)
unfolding append_text
append_text-Extends s out = record {
  added = s;
  fresh = [];
  text_grows = refl;
  attributes_grow = sym (append-nil out.attributes);
  inside = tt;
  laminar = tt;
}

either-Extends :
    (b : Bool) {out x y : AttributedText}
    → Extends out x
    → Extends out y
    → Extends out (if b then x else y)
either-Extends true p q = p
either-Extends false p q = q

break_line-Extends : (out : AttributedText) → Extends out (break_line out)
unfolding break_line
break_line-Extends out =
    either-Extends (not (length out.text == 0) && not (ends_line out.text))
      (append_text-Extends (10 ∷ []) out) (Extends-refl out)

break_element-Extends : (out : AttributedText) → Extends out (break_element out)
unfolding break_element
break_element-Extends out =
    let n = length out.text in
    either-Extends
      (ltb n 2 || not (get_or out.text (n - 1) 0 == 10) || not (get_or out.text (n - 2) 0 == 10))
      (append_text-Extends (10 ∷ []) out) (Extends-refl out)

mark-Extends :
    (tag : Bytes) (attributes : Attributes) (out out' : AttributedText)
    → Extends out out'
    → Extends out (mark tag attributes (length out.text) out')
unfolding mark
mark-Extends tag attributes out out' p =
    elim (Bool-cases (leb (length out'.text) (length out.text))) [
      | inl empty ↦ rw empty p
      | inr some_text ↦
          let below : length out.text < length out'.text = ground (arith, some_text) in
          let styles = styles_of tag attributes in
          let marks = map (run_of (length out.text) (length out'.text)) styles in
          rw some_text record {
            added = p.added;
            fresh = p.fresh ++ marks;
            text_grows = p.text_grows;
            attributes_grow =
                ap (λ t. t ++ marks) p.attributes_grow ∙ append_assoc out.attributes p.fresh marks;
            inside =
                All-append _ p.fresh marks p.inside
                  (marks-IsIn (length out.text) (length out'.text) below styles);
            laminar =
                IsLaminar-marks (length out.text) (length out'.text) below styles p.fresh p.inside
                  p.laminar;
          }
    ]

visit_element-Extends :
    (tag : Bytes) (attributes : Attributes) (inside : AttributedText → AttributedText)
    (out : AttributedText)
    → ((from : AttributedText) → Extends from (inside from))
    → Extends out (visit_element tag attributes inside out)
unfolding visit_element
visit_element-Extends tag attributes inside out h =
    either-Extends (bytes_eq tag (codes "br")) (break_element-Extends out) (
      either-Extends
        (bytes_eq tag (codes "p") || bytes_eq tag (codes "div") || bytes_eq tag (codes "li"))
        (Extends-trans (break_line-Extends out)
          (Extends-trans (h (break_line out)) (break_line-Extends (inside (break_line out)))))
        (mark-Extends tag attributes out (inside out) (h out)))

mutual
  unfolding visit

  visit-Extends : (node : Node) (out : AttributedText) → Extends out (visit node out)
  visit-Extends (text_node s) out = append_text-Extends s out
  visit-Extends (element name attributes children) out =
      visit_element-Extends (map lowercase name) attributes (walk children) out
        λ from. walk-Extends children from
  visit-Extends other out = Extends-refl out

  walk-Extends : (nodes : Nodes) (out : AttributedText) → Extends out (walk nodes out)
  walk-Extends no_nodes out = Extends-refl out
  walk-Extends (child node nodes) out =
      Extends-trans (visit-Extends node out) (walk-Extends nodes (visit node out))

-- Before the tidying of the end, every run that a walk makes is not empty and lies in the text, and
-- any two runs are apart or one lies in the other, as elements nest.
pub walk-IsLaminar :
    (nodes : Nodes)
    → let out = walk nodes nothing_written in
      All (IsIn 0 (length out.text)) out.attributes × IsLaminar out.attributes
unfolding nothing_written
walk-IsLaminar nodes =
    let e = walk-Extends nodes nothing_written in
    (
      subst (All (IsIn 0 (length (walk nodes nothing_written).text))) (sym e.attributes_grow)
          e.inside,
      subst IsLaminar (sym e.attributes_grow) e.laminar,
    )
