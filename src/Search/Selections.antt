-- ===== src/Search/Selections.antt =====
-- When the code reports no error for a selection of tokens.
use aniparse.Prelude.StdMap
use aniparse.Prelude.StdMap.{StdMap}
use aniparse.Prelude.{
  ◌≤◌, Bool, false, not, List, [], ◌∷◌, ◌++◌, Option, none, some, ◌≡◌, refl, ap, sym, ◌↔◌, ◌⊎◌, inl,
  inr, arith, ◌==◌, ==_iff, Bytes, any_of, is_some, Bool-cases, length, All,
}
use mathlib.Core.Path.{subst}
use aniparse.Search.{
  ItemSelectionValue, ItemSelection, item_selection, exclusion_not_supported,
  multiple_selection_not_supported, invalid_value, report, exclusion_denied, item_exclusion_denied,
  listed_denied, selection_exclusion_denied, multiple_selection_denied, selection_invalid,
  filter_errors,
}
use aniparse.Search.Intervals.{
  MayExclude, IsToken, IsSelection, append-none, report-none, exclusion_denied_iff,
}

no-items : {A : Type 0} → (xs : List A) → length xs ≡ 0 → xs ≡ []
no-items [] h = refl
no-items (x ∷ xs) h = absurd (omega (arith, h))

-- What the exclusion test and, in a closed vocabulary, the test for unknown tokens say of an item
-- that is listed so.
listed_iff :
    (Open : Type 0) (listed : Option ItemSelectionValue) (v : ItemSelectionValue)
    → ((listed_denied listed v ≡ false) × (Open ⊎ (not (is_some listed) ≡ false))) ↔ (
        (Open × (listed ≡ none))
        ⊎ ((o : ItemSelectionValue) × (listed ≡ some o) × MayExclude o.exclusive v.exclusive))
unfolding listed_denied exclusion_denied
listed_iff Open none v = (
  λ h. elim h.1 [ inl all ↦ inl (all, refl) | inr found ↦ absurd (ground arith) ],
  λ t. elim t [ inl all ↦ (refl, inl all.0) | inr (o, found, may) ↦ absurd (ground arith) ],
)
listed_iff Open (some o) v = (
  λ h. inr (o, refl, (exclusion_denied_iff o.exclusive v.exclusive).0 h.0),
  λ t. elim t [
    | inl all ↦ absurd (ground (arith, all.1))
    | inr (o', found, may) ↦
        let same : o ≡ o' = cc in
        (
          (exclusion_denied_iff o.exclusive v.exclusive).1
              (subst (λ x. MayExclude x.exclusive v.exclusive) (sym same) may),
          inr refl,
        )
  ],
)

any_of-false :
    {A : Type 0} → (p : A → Bool) (xs : List A) → (any_of p xs ≡ false) ↔ All (λ x. p x ≡ false) xs
unfolding any_of
any_of-false p [] = (λ h. tt, λ h. refl)
any_of-false p (x ∷ xs) = (
  λ h. (ground arith, (any_of-false p xs).0 (ground arith)),
  λ h. ground (arith, h.0, (any_of-false p xs).1 h.1),
)

-- The tokens of a selection pass both tests.
tokens_iff :
    (d : ItemSelection) (items : StdMap ItemSelectionValue)
    → ((any_of (item_exclusion_denied d) items ≡ false)
        × ((d.items ≡ [])
            ⊎ (any_of (λ item. not (is_some (StdMap.find item.0 d.items))) items ≡ false)))
      ↔ All (IsToken d) items
unfolding any_of item_exclusion_denied
tokens_iff d [] = (λ h. tt, λ h. (refl, inr refl))
tokens_iff d ((k, v) ∷ items) =
    let first = listed_iff (d.items ≡ []) (StdMap.find k d.items) v in
    let rest = tokens_iff d items in
    (
      λ h. elim h.1 [
        | inl all ↦ (first.0 (ground arith, inl all), rest.0 (ground arith, inl all))
        | inr none_unknown ↦
            (first.0 (ground arith, inr (ground arith)), rest.0 (ground arith, inr (ground arith)))
      ],
      λ h.
          let one = first.1 h.0 in
          let more = rest.1 h.1 in
          (
            ground (arith, one.0, more.0),
            elim one.1 [
              | inl all ↦ inl all
              | inr known ↦ elim more.1 [ inl all ↦ inl all | inr others ↦ inr (ground arith) ]
            ],
          ),
    )

-- A vocabulary that lists no token is open.
selection_invalid_iff :
    (d v : ItemSelection)
    → (selection_invalid d v ≡ false) ↔ (
        (d.items ≡ [])
        ⊎ (any_of (λ item. not (is_some (StdMap.find item.0 d.items))) v.items ≡ false))
unfolding selection_invalid
selection_invalid_iff d v = elim (Bool-cases (length d.items == 0)) [
  | inl t ↦ (λ h. inl (no-items d.items ((==_iff (length d.items) 0).0 t)), λ h. ground (arith, t))
  | inr f ↦ (
    λ h. inr (ground (arith, f)),
    λ h. elim h [
      | inl all ↦ absurd (ground (arith, f, ap length all))
      | inr known ↦ ground (arith, f, known)
    ],
  )
]

multiple_selection_denied_iff :
    (d v : ItemSelection)
    → (multiple_selection_denied d v ≡ false)
      ↔ ((d.single_selection ≡ false) ⊎ (length v.items ≤ 1))
unfolding multiple_selection_denied
multiple_selection_denied_iff d v = elim (Bool-cases d.single_selection) [
  | inl t ↦ (
    λ h. inr (ground arith),
    λ h. elim h [ inl f ↦ absurd (ground arith) | inr one ↦ ground arith ],
  )
  | inr f ↦ (λ h. inl f, λ h. ground arith)
]

pub filter_errors-IsSelection :
    (key : Bytes) (d v : ItemSelection)
    → (filter_errors key (item_selection d) (item_selection v) ≡ []) ↔ IsSelection d v
unfolding filter_errors selection_exclusion_denied
filter_errors-IsSelection key d v =
    let denied : Bool = any_of (item_exclusion_denied d) v.items in
    let bad = selection_invalid d v in
    let many = multiple_selection_denied d v in
    let lower =
      append-none (report bad invalid_value key)
        (report many multiple_selection_not_supported key) in
    let upper =
      append-none (report denied exclusion_not_supported key)
        (report bad invalid_value key ++ report many multiple_selection_not_supported key) in
    (
      λ h.
          let two = lower.0 (upper.0 h).1 in
          record {
            tokens = (tokens_iff d v.items).0 (
              (report-none denied exclusion_not_supported key).0 (upper.0 h).0,
              (selection_invalid_iff d v).0 ((report-none bad invalid_value key).0 two.0),
            );
            single =
                (multiple_selection_denied_iff d v).0
                  ((report-none many multiple_selection_not_supported key).0 two.1);
          },
      λ h.
          let passed = (tokens_iff d v.items).1 h.tokens in
          upper.1 (
            (report-none denied exclusion_not_supported key).1 passed.0,
            lower.1 (
              (report-none bad invalid_value key).1 ((selection_invalid_iff d v).1 passed.1),
              (report-none many multiple_selection_not_supported key).1
                  ((multiple_selection_denied_iff d v).1 h.single),
            ),
          ),
    )
