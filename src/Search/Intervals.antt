-- ===== src/Search/Intervals.antt =====
-- Which filter values a descriptor admits, and that the code reports no error for an interval
-- exactly if it is admitted.
use aniparse.Prelude.StdMap
use aniparse.Prelude.StdMap.{StdMap}
use aniparse.Prelude.{
  ◌≤◌, Bool, true, false, List, [], ◌∷◌, ◌++◌, Option, none, some, ◌≡◌, refl, ◌≢◌, ◌↔◌, ◌⊎◌, inl,
  inr, arith, Bytes, length, All,
}
use aniparse.Prelude.Int.{ℤ, leb_ℤ, ltb_ℤ-leb_ℤ, leb_ℤ-ltb_ℤ}
use aniparse.Search.{
  Interval, ItemSelectionValue, ItemSelection, SearchItemVariant, text_query, int_interval,
  time_interval, relative_time_interval, item_selection, checkmark, SearchQueryError, Reason,
  exclusion_not_supported, invalid_value, report, exclusion_denied, both_less, interval_invalid,
  interval_errors,
}

-- Exclusion is asked for only where it is offered.
abbrev pub MayExclude : Bool → Bool → Type 0
MayExclude offered asked = (asked ≡ false) ⊎ (offered ≡ true)

-- In order where both are there.
abbrev pub InOrder : Option ℤ → Option ℤ → Type 0
InOrder (some a) (some b) = leb_ℤ a b ≡ true
InOrder _ _ = Unit

pub record IsInterval (d v : Interval) : Type 0 where
  pub may_exclude : MayExclude d.exclusive v.exclusive
  pub in_order : InOrder v.from v.to
  pub above : InOrder d.from v.from
  pub below : InOrder v.to d.to

-- A token of an open vocabulary, or one that the descriptor lists.
abbrev pub IsToken : ItemSelection → Bytes × ItemSelectionValue → Type 0
IsToken d (k, v) =
    ((d.items ≡ []) × (StdMap.find k d.items ≡ none))
    ⊎ ((o : ItemSelectionValue) × (StdMap.find k d.items ≡ some o)
        × MayExclude o.exclusive v.exclusive)

pub record IsSelection (d v : ItemSelection) : Type 0 where
  pub tokens : All (IsToken d) v.items
  pub single : (d.single_selection ≡ false) ⊎ (length v.items ≤ 1)

abbrev pub IsValue : SearchItemVariant → SearchItemVariant → Type 0
IsValue (text_query d) (text_query v) = MayExclude d.exclusive v.exclusive × (length v.text ≢ 0)
IsValue (int_interval d) (int_interval v) = IsInterval d v
IsValue (time_interval d) (time_interval v) = IsInterval d v
IsValue (relative_time_interval d) (relative_time_interval v) = IsInterval d v
IsValue (item_selection d) (item_selection v) = IsSelection d v
IsValue (checkmark d) (checkmark v) = MayExclude d.exclusive v.exclusive
IsValue d v = ⊥

pub both_less-InOrder : (a b : Option ℤ) → (both_less b a ≡ false) ↔ InOrder a b
unfolding both_less
both_less-InOrder (some a) (some b) = (ltb_ℤ-leb_ℤ b a, leb_ℤ-ltb_ℤ b a)
both_less-InOrder none none = (λ h. tt, λ h. refl)
both_less-InOrder none (some b) = (λ h. tt, λ h. refl)
both_less-InOrder (some a) none = (λ h. tt, λ h. refl)

pub append-none : (xs ys : List SearchQueryError) → (xs ++ ys ≡ []) ↔ ((xs ≡ []) × (ys ≡ []))
append-none [] ys = (λ h. (refl, h), λ h. h.1)
append-none (x ∷ xs) ys = (λ h. absurd (ground arith), λ h. absurd (ground (arith, h.0)))

pub report-none : (b : Bool) (r : Reason) (key : Bytes) → (report b r key ≡ []) ↔ (b ≡ false)
report-none true r key = (λ h. absurd (ground arith), λ h. absurd (ground arith))
report-none false r key = (λ h. refl, λ h. refl)

pub exclusion_denied_iff :
    (offered asked : Bool) → (exclusion_denied offered asked ≡ false) ↔ MayExclude offered asked
unfolding exclusion_denied
exclusion_denied_iff true true = (λ h. inr refl, λ h. refl)
exclusion_denied_iff true false = (λ h. inl refl, λ h. refl)
exclusion_denied_iff false true = (λ h. absurd (ground arith), λ h. ground arith)
exclusion_denied_iff false false = (λ h. inl refl, λ h. refl)

pub interval_errors_iff :
    (key : Bytes) (d v : Interval) → (interval_errors key d v ≡ []) ↔ IsInterval d v
unfolding interval_errors interval_invalid
interval_errors_iff key d v =
    let denied : Bool = exclusion_denied d.exclusive v.exclusive in
    let split =
      append-none (report denied exclusion_not_supported key)
        (report (interval_invalid d v) invalid_value key) in
    (
      λ h.
          let e = split.0 h in
          let valid : interval_invalid d v ≡ false =
            (report-none (interval_invalid d v) invalid_value key).0 e.1 in
          record {
            may_exclude =
                (exclusion_denied_iff d.exclusive v.exclusive).0
                  ((report-none denied exclusion_not_supported key).0 e.0);
            in_order = (both_less-InOrder v.from v.to).0 (ground arith);
            above = (both_less-InOrder d.from v.from).0 (ground arith);
            below = (both_less-InOrder v.to d.to).0 (ground arith);
          },
      λ h.
          let first = (both_less-InOrder v.from v.to).1 h.in_order in
          let second = (both_less-InOrder d.from v.from).1 h.above in
          let third = (both_less-InOrder v.to d.to).1 h.below in
          split.1 (
            (report-none denied exclusion_not_supported key).1
                ((exclusion_denied_iff d.exclusive v.exclusive).1 h.may_exclude),
            (report-none (interval_invalid d v) invalid_value key).1 (ground arith),
          ),
    )
